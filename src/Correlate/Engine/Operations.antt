-- ===== src/Correlate/Engine/Operations.antt =====
-- What is done with the engine, in any order: its public operations that change it, and their runs.
use log_lookup_ai.Prelude.{ℕ, String, Bool, List, [], ◌∷◌}
use log_lookup_ai.Correlate.Alerts.{NormalizedAlert}
use log_lookup_ai.Correlate.ClusterIds.{preload, CounterKey}
use log_lookup_ai.Prelude.Dict.{Dict}
use log_lookup_ai.Correlate.Entities.{Resolver}
use log_lookup_ai.Correlate.Engine.{Environment, Engine, add}
use log_lookup_ai.Correlate.Engine.Evaluation.{evaluate}
use log_lookup_ai.Correlate.Engine.Revisions.{revise}
use log_lookup_ai.Correlate.Engine.Pruning.{prune_before}
use log_lookup_ai.Prelude.{none}

pub data Operation : Type 0 where
  adding : NormalizedAlert → Operation
  evaluating : Bool → Operation
  revising : NormalizedAlert → Operation
  pruning : ℕ → Operation
  preloading : Dict String String → Dict CounterKey ℕ → Operation

-- The texts of uids and names that the code makes up, and the environment.
pub record Setting : Type 0 where
  pub env : Environment
  pub invent : ℕ → String
  pub unnamed : ℕ → String

-- One operation.
unfoldable pub perform : Setting → Operation → Engine → Engine
unfolding add evaluate revise prune_before preload
perform s (adding a) e = add s.invent a e
perform s (evaluating flush) e = evaluate s.env s.unnamed flush e
perform s (revising a) e = (revise s.env s.unnamed a e).0
perform s (pruning cutoff) e = (prune_before cutoff e).0
perform s (preloading anchors counters) e = record e {
  id_generator = preload anchors counters e.id_generator;
}

unfoldable pub run : Setting → List Operation → Engine → Engine
unfolding perform
run s [] e = e
run s (op ∷ ops) e = run s ops (perform s op e)

-- __init__, with the resolver and the configured times
unfoldable pub new_engine : ℕ → ℕ → Resolver → Engine
new_engine window grace resolver = record {
  window_ms = window;
  grace_ms = grace;
  resolver = resolver;
  edges = [];
  alerts = [];
  resolutions = [];
  timelines = [];
  buffer = [];
  buffered_uids = [];
  max_event_time_ms = none;
  clusters = [];
  cluster_of_alert = [];
  id_generator = record { counters = []; by_anchor = [] };
}

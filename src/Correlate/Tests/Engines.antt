-- ===== src/Correlate/Tests/Engines.antt =====
-- Three alerts of one chain, an engine that holds them and one that has two of them buffered, at which
-- the theorems of the engine are applied.
use Prim.Native.Char.{nul}
use Prim.Native.String.{String}
use log_lookup_ai.Prelude.{
  ℕ, zero, suc, ◌≡◌, ◌≢◌, refl, ap, true, false, none, some, List, [], ◌∷◌, ◌==◌, string_eq,
  text_iff, keep, any, contains, length, arith, max, leb, ◌*◌, ◌+◌, nat_eq, nat_beq_iff, Bool-cases,
  inl, inr, subst,
}
use log_lookup_ai.Prelude.Dict.{get}
use log_lookup_ai.Correlate.Alerts.{NormalizedAlert}
use log_lookup_ai.Correlate.Chains.{unjudged}
use log_lookup_ai.Correlate.ClusterIds.{IdOps, Generator, preload, put_all, next_id, key_eq}
use log_lookup_ai.Correlate.ClusterIds.Stability.{preload-next_id, preload-fresh}
use log_lookup_ai.Correlate.Entities.{host_domain, Triple, Resolver, resolve_durable, Entity}
use log_lookup_ai.Correlate.Entities.Addresses.{assignment_at, observe_ip}
use log_lookup_ai.Correlate.Entities.Identifiers.{TextOps}
use log_lookup_ai.Correlate.Entities.Resolving.{resolve}
use log_lookup_ai.Correlate.Entities.Validity.{observe_ip-earlier, observe_ip-now}
use log_lookup_ai.Correlate.Entities.Anchoring.{IsAnchored, resolve-IsAnchored}
use log_lookup_ai.Correlate.Entities.Whole.{HasObject, IsWhole}
use log_lookup_ai.Correlate.Entities.Joined.{IsJoined, resolve_durable-IsJoined}
use log_lookup_ai.Correlate.Engine.{Environment, Item, Cluster, Engine, add}
use log_lookup_ai.Correlate.Engine.Evaluation.{evaluate}
use log_lookup_ai.Correlate.Engine.Changes.{
  what_changed, changed_parts, same_part, same_option, same_attacks, same_device, attack_key, moves,
}
use log_lookup_ai.Correlate.Engine.Revisions.{revise, revise_live, apply_changes, reevaluate, live}
use log_lookup_ai.Correlate.Engine.Pruning.{has_alert, live_clusters, insert_cluster}
use log_lookup_ai.Correlate.Engine.Clusters.{is_unmerged}
use log_lookup_ai.Correlate.Risk.{Numbers, RiskConfig, Risks, rescore}
use log_lookup_ai.Correlate.Risk.Rescoring.{rescore-rescore}
use log_lookup_ai.Correlate.Engine.Arrival.{add-add}
use log_lookup_ai.Correlate.Engine.Lines.{IsWoven, evaluate-IsWoven}
use log_lookup_ai.Correlate.Engine.Watermark.{first, IsSettled, evaluate-IsSettled}
use log_lookup_ai.Correlate.Engine.Merging.{IsEnd}
use log_lookup_ai.Correlate.Engine.Operations.{
  Operation, adding, evaluating, revising, pruning, Setting, run, new_engine,
}
use log_lookup_ai.Correlate.Engine.Endings.{run-IsEnd}
use log_lookup_ai.Correlate.Engine.Review.{is_review, SameBut, revise-review, revise-alerts}

-- A number as a text of as many strokes.
abbrev strokes : ℕ → String
strokes zero = String.[]
strokes (suc n) = String.◌∷◌ nul (strokes n)

abbrev texts : TextOps
texts = record {
  strip = λ s. s;
  lower = λ s. s;
  colons = λ s. s;
  address = λ s. some s;
  decimal = strokes;
}

abbrev ids : IdOps
ids = record {
  date_of = λ t. "2026-07-11";
  sanitize_label = λ s. s;
  chain_id = λ date label n. strokes n;
}

-- NetworkX on a graph in which every alert is alone.
abbrev env : Environment
env = record {
  texts = texts;
  ids = ids;
  upper = λ s. s;
  lower_stripped = λ s. s;
  component = λ edges node. node ∷ [];
  components_of = λ edges nodes. length nodes;
}

abbrev alert : String → ℕ → NormalizedAlert
alert uid time = record {
  uid = uid;
  time = time;
  severity_id = 3;
  title = "login";
  attacks = [];
  device = some (record { hostname = some "hosta"; ip = some "10.0.0.1"; mac = none; uid = none });
  user = none;
  process = none;
  src_endpoint = none;
  dst_endpoint = none;
  provider = some "elastic";
  connection_id = none;
}

abbrev resolver : Resolver
resolver = record {
  precedence = "hostname" ∷ [];
  retention_ms = 1000;
  objects = [];
  live = 1 ∷ [];
  durable_index = [];
  ip_assignments = [];
  next_uid = 2;
}

abbrev item : String → ℕ → Item
item uid time = record { time = time; uid = uid; alert = alert uid time }

abbrev chain : Cluster
chain = record {
  cluster_id = "CHAIN-1";
  alert_uids = "a" ∷ "b" ∷ "c" ∷ [];
  entity_uids = [];
  primary_entity_name = "hosta";
  first_time_ms = 10;
  last_time_ms = 30;
  tactic_sequence = [];
  disposition = unjudged;
  merged_into = none;
}

-- An engine with two buffered alerts and a chain of three.
abbrev engine : Engine
engine = record {
  window_ms = 100;
  grace_ms = 5;
  resolver = resolver;
  edges = [];
  alerts = ("a", alert "a" 10) ∷ ("b", alert "b" 20) ∷ ("c", alert "c" 30) ∷ [];
  resolutions = [];
  timelines = [];
  buffer = item "x" 40 ∷ item "y" 50 ∷ [];
  buffered_uids = "x" ∷ "y" ∷ [];
  max_event_time_ms = some 50;
  clusters = ("CHAIN-1", chain) ∷ [];
  cluster_of_alert = ("a", "CHAIN-1") ∷ ("b", "CHAIN-1") ∷ ("c", "CHAIN-1") ∷ [];
  id_generator = record { counters = []; by_anchor = [] };
}

abbrev setting : Setting
setting = record { env = env; invent = strokes; unnamed = strokes }

other_text : (s t : String) → (s == t) ≡ false → s ≢ t
other_text s t h e = ground (arith, h, (text_iff s t).1 e)

observe_ip-earlier_example :
    assignment_at "10.0.0.1" 5 (observe_ip "10.0.0.1" 1 10 resolver)
    ≡ assignment_at "10.0.0.1" 5 resolver
observe_ip-earlier_example = observe_ip-earlier "10.0.0.1" "10.0.0.1" 1 10 5 resolver (omega arith)

observe_ip-now_example : assignment_at "10.0.0.1" 10 (observe_ip "10.0.0.1" 1 10 resolver) ≡ some 1
unfolding contains get
observe_ip-now_example = observe_ip-now "10.0.0.1" 1 10 resolver refl tt tt

resolve-IsAnchored_example : IsAnchored (resolve texts (alert "a" 10) resolver).1
resolve-IsAnchored_example = resolve-IsAnchored texts (alert "a" 10) resolver

abbrev triples : List Triple
triples = ("hostname", "hosta", "hostA") ∷ ("mac", "00:11", "00-11") ∷ []

abbrev host : ℕ → Entity
host uid = record {
  uid = uid;
  domain = host_domain;
  identifiers = [];
  display = [];
  first_seen_ms = uid;
  last_seen_ms = uid;
}

-- Two entities that the identifiers above show to be one.
abbrev two_hosts : Resolver
two_hosts = record {
  precedence = "hostname" ∷ [];
  retention_ms = 1000;
  objects = (1, host 1) ∷ (2, host 2) ∷ [];
  live = 1 ∷ 2 ∷ [];
  durable_index =
      record { kind = "hostname"; value = "hosta"; uid = 1 }
      ∷ record { kind = "mac"; value = "00:11"; uid = 2 }
      ∷ [];
  ip_assignments = [];
  next_uid = 3;
}

two_hosts-IsWhole : IsWhole two_hosts
unfolding get contains
two_hosts-IsWhole u h = elim (Bool-cases (1 == u)) [
  | inl p ↦ subst (λ v. HasObject v two_hosts.objects) ((nat_beq_iff 1 u).0 p) (host 1, refl, refl)
  | inr p ↦
      let q : (2 == u) ≡ true = ground (arith, h, p) in
      subst (λ v. HasObject v two_hosts.objects) ((nat_beq_iff 2 u).0 q) (host 2, refl, refl)
]

resolve_durable-IsJoined_example :
    IsWhole (resolve_durable host_domain triples 10 two_hosts).0
    × IsJoined triples two_hosts
        (resolve_durable host_domain triples 10 two_hosts).0
        (resolve_durable host_domain triples 10 two_hosts).1
resolve_durable-IsJoined_example =
    resolve_durable-IsJoined host_domain triples 10 two_hosts two_hosts-IsWhole

add-add_example :
    ((add strokes (alert "u" 45) (add strokes (alert "v" 45) engine)).buffer
      ≡ (add strokes (alert "v" 45) (add strokes (alert "u" 45) engine)).buffer)
    × ((add strokes (alert "u" 45) (add strokes (alert "v" 45) engine)).max_event_time_ms
        ≡ (add strokes (alert "v" 45) (add strokes (alert "u" 45) engine)).max_event_time_ms)
add-add_example =
    add-add strokes (alert "u" 45) (alert "v" 45) engine (other_text "u" "" refl)
      (other_text "v" "" refl) (other_text "u" "v" refl)

evaluate-IsWoven_example : IsWoven (evaluate env strokes true engine)
evaluate-IsWoven_example = evaluate-IsWoven env strokes true engine tt

evaluate-IsSettled_example : IsSettled 50 (item "x" 40) engine (evaluate env strokes false engine)
evaluate-IsSettled_example =
    evaluate-IsSettled env strokes (item "x" 40) 50 engine refl (first refl)

abbrev operations : List Operation
operations =
    adding (alert "a" 10)
    ∷ adding (alert "b" 20)
    ∷ evaluating true
    ∷ revising (alert "b" 25)
    ∷ pruning 15
    ∷ []

run-IsEnd_example :
    IsEnd
      (run setting operations (new_engine 100 5 resolver))
      (live (run setting operations (new_engine 100 5 resolver)) "I")
run-IsEnd_example = run-IsEnd setting operations 100 5 resolver "I"

moved_review : is_review (revise env strokes (alert "b" 25) engine).1 ≡ true
unfolding is_review revise contains get revise_live what_changed changed_parts same_part same_option
    same_attacks same_device attack_key apply_changes any moves reevaluate keep
moved_review = refl

revise-review_example : SameBut engine (revise env strokes (alert "b" 25) engine).0
revise-review_example = revise-review env strokes (alert "b" 25) engine moved_review

revise-alerts_example :
    has_alert (revise env strokes (alert "b" 25) engine).0 "b" ≡ has_alert engine "b"
revise-alerts_example = revise-alerts env strokes (alert "b" 25) engine "b"

abbrev generator : Generator
generator = record { counters = []; by_anchor = [] }

preload-next_id_example :
    (next_id ids 10 "hostA" "a" (preload (("a", "II") ∷ []) [] generator)).1 ≡ "II"
unfolding get
preload-next_id_example =
    preload-next_id ids 10 "hostA" "a" "II" (("a", "II") ∷ []) [] generator (refl, tt) refl

strokes_injective : (m n : ℕ) → strokes m ≡ strokes n → m ≡ n
strokes_injective zero zero e = refl
strokes_injective zero (suc n) e = cc
strokes_injective (suc m) zero e = cc
strokes_injective (suc m) (suc n) e = ap suc (strokes_injective m n cc)

preload-fresh_example :
    (next_id ids 10 "hostA" "b" (preload [] ((("2026-07-11", "hostA"), 2) ∷ []) generator)).1
    ≢ strokes 2
unfolding get preload put_all
preload-fresh_example =
    preload-fresh ids 10 2 "hostA" "b" [] ((("2026-07-11", "hostA"), 2) ∷ []) generator
      (λ date label i j e. strokes_injective i j e) refl (omega arith)

-- Whole numbers for the scores.
abbrev whole : Numbers ℕ
whole = record {
  zero = 0;
  plus = λ a b. a + b;
  maximum = λ a b. max a b;
  scaled = λ a n. a * n;
  downgraded = λ s d. 0;
  at_least = λ a b. leb b a;
}

abbrev risk_config : RiskConfig ℕ
risk_config = record {
  severity_weights = (3, 4) ∷ [];
  surface_threshold = 10;
  misconfiguration_downgrade = 0;
  independent_source_weight = 4;
}

abbrev with_timeline : Engine
with_timeline = record engine { timelines = (1, (10, "a") ∷ (20, "b") ∷ []) ∷ [] }

abbrev risks : Risks ℕ
risks = record { entities = []; clusters = [] }

rescore-rescore_example :
    rescore whole risk_config with_timeline (rescore whole risk_config with_timeline risks)
    ≡ rescore whole risk_config with_timeline risks
unfolding get live_clusters insert_cluster is_unmerged
rescore-rescore_example = rescore-rescore whole risk_config with_timeline risks (refl, tt) (tt, tt)

-- ===== src/Correlate/Engine.antt =====
-- engine/correlate/engine.py: the state of CorrelationEngine, the buffer of alerts and the insertion
-- of one alert. NetworkX's graph is its list of edges: its nodes are the keys of `alerts`. The risk
-- scores of chains and entities, which the engine sets but never reads, and the sequence numbers of
-- nodes are left out.
pub mod Naming
pub mod Clusters
pub mod Evaluation
pub mod Changes
pub mod Revisions
pub mod Pruning
pub mod Arrival
pub mod Unmoved
pub mod Lines
pub mod Watermark
pub mod Merging
pub mod Redirects
pub mod Operations
pub mod Endings
pub mod Review
use log_lookup_ai.Prelude.{
  ℕ, ◌+◌, String, Bool, true, false, ◌||◌, not, Option, none, some, List, [], ◌∷◌, ◌++◌, string_eq,
  nat_eq, ◌==◌, if◌then◌else◌, ltb, contains, length,
}
use log_lookup_ai.Prelude.Dict.{Dict, get, put}
use log_lookup_ai.Prelude.Order.{Moment, before}
use log_lookup_ai.Correlate.Alerts.{NormalizedAlert}
use log_lookup_ai.Correlate.Chains.{Disposition}
use log_lookup_ai.Correlate.ClusterIds.{IdOps, Generator}
use log_lookup_ai.Correlate.Entities.{Resolver, Resolution, or_empty}
use log_lookup_ai.Correlate.Entities.Identifiers.{TextOps}
use log_lookup_ai.Correlate.Entities.Resolving.{resolve}
use log_lookup_ai.Correlate.Timelines.{Edge, insert_moment}

-- What the engine uses of texts, of ids and of NetworkX: the weakly connected component of a node, and
-- the number of the components of the graph on some of the nodes.
pub record Environment : Type 0 where
  pub texts : TextOps
  pub ids : IdOps
  pub upper : String → String
  pub lower_stripped : String → String
  pub component : List Edge → String → List String
  pub components_of : List Edge → List String → ℕ

-- An entry of `_buffer`.
pub record Item : Type 0 where
  pub time : ℕ
  pub uid : String
  pub alert : NormalizedAlert

abbrev pub moment_of : Item → Moment
moment_of item = (item.time, item.uid)

pub record Cluster : Type 0 where
  pub cluster_id : String
  pub alert_uids : List String
  pub entity_uids : List ℕ
  pub primary_entity_name : String
  pub first_time_ms : ℕ
  pub last_time_ms : ℕ
  pub tactic_sequence : List String
  pub disposition : Disposition
  pub merged_into : Option String

pub record Engine : Type 0 where
  pub window_ms : ℕ
  pub grace_ms : ℕ
  pub resolver : Resolver
  pub edges : List Edge
  pub alerts : Dict String NormalizedAlert
  pub resolutions : Dict String Resolution
  pub timelines : Dict ℕ (List Moment)
  pub buffer : List Item
  pub buffered_uids : List String
  pub max_event_time_ms : Option ℕ
  pub clusters : Dict String Cluster
  pub cluster_of_alert : Dict String String
  pub id_generator : Generator

-- insort by time and uid: after every item that is not greater
unfoldable pub insort_item : Item → List Item → List Item
unfolding before
insort_item item [] = item ∷ []
insort_item item (x ∷ buffer) =
    let rest = insort_item item buffer in
    if before (moment_of item) (moment_of x) then item ∷ x ∷ buffer else x ∷ rest

abbrev pub later_of : Option ℕ → ℕ → Option ℕ
later_of none time = some time
later_of (some latest) time = if ltb latest time then some time else some latest

-- uid in self._alerts or uid in self._buffered_uids
unfoldable pub is_known : String → Engine → Bool
unfolding get contains
is_known uid e = elim (get uid e.alerts) [ some _ ↦ true | none ↦ contains e.buffered_uids uid ]

-- The end of add, for an alert that is not known.
unfoldable pub buffer_alert : String → NormalizedAlert → Engine → Engine
unfolding insort_item
buffer_alert uid a e = record e {
  buffer = insort_item (record { time = a.time; uid = uid; alert = a }) e.buffer;
  buffered_uids = uid ∷ e.buffered_uids;
  max_event_time_ms = later_of e.max_event_time_ms a.time;
}

-- The uid of an alert, or one that is made up; the code's f-string is the parameter `invent`.
unfoldable pub uid_of : (ℕ → String) → NormalizedAlert → Engine → String
uid_of invent a e = if a.uid == "" then invent (length e.alerts + length e.buffer + 1) else a.uid

-- add
unfoldable pub add : (ℕ → String) → NormalizedAlert → Engine → Engine
unfolding uid_of is_known buffer_alert
add invent a e = let uid = uid_of invent a e in if is_known uid e then e else buffer_alert uid a e

-- The loop of _insert_alert over the entities.
unfoldable pub insert_into : Moment → List ℕ → Engine → Engine
unfolding insert_moment get put
insert_into m [] e = e
insert_into m (entity ∷ entities) e =
    let (edges, line) = insert_moment e.window_ms m (or_empty (get entity e.timelines)) in
    insert_into m entities
      (record e { edges = e.edges ++ edges; timelines = put entity line e.timelines })

-- _insert_alert once the alert is resolved
unfoldable pub place_alert : ℕ → String → NormalizedAlert → Resolution → Engine → Engine
unfolding put insert_into
place_alert time uid a found e =
    insert_into (time, uid) found.entities
      (record e { alerts = put uid a e.alerts; resolutions = put uid found e.resolutions })

unfoldable pub place_found : ℕ → String → NormalizedAlert → Option Resolution → Engine → Engine
unfolding place_alert
place_found time uid a none e = e
place_found time uid a (some found) e = place_alert time uid a found e

-- _insert_alert; resolve always answers
unfoldable pub insert_alert : Environment → ℕ → String → NormalizedAlert → Engine → Engine
unfolding resolve place_found
insert_alert env time uid a e =
    let (resolver, answer) = resolve env.texts a e.resolver in
    place_found time uid a answer (record e { resolver = resolver })

-- ===== src/Correlate/Engine/Unmoved.antt =====
-- What the reconstruction of the chains leaves as it is: it writes the chains, their members and the
-- ids, and nothing else.
use log_lookup_ai.Prelude.{
  ℕ, String, ◌≡◌, refl, ◌∙◌, inl, inr, Option, none, some, List, [], ◌∷◌, ◌++◌, string_eq, contains,
  keep, Bool-cases,
}
use log_lookup_ai.Prelude.Dict.{Dict, get}
use log_lookup_ai.Prelude.Order.{Moment}
use log_lookup_ai.Correlate.Alerts.{NormalizedAlert}
use log_lookup_ai.Correlate.Entities.{Resolver, Resolution}
use log_lookup_ai.Correlate.Timelines.{Edge}
use log_lookup_ai.Correlate.Engine.{Environment, Item, Engine, Cluster}
use log_lookup_ai.Correlate.Engine.Clusters.{
  choose_cluster, write_cluster, assign_sorted, assign_cluster, rebuild_nodes, rebuild_clusters,
  existing_ids, is_live, sort_members, write_chosen, assign_to,
}

-- The fields besides the chains.
pub record Ground : Type 0 where
  pub window_ms : ℕ
  pub grace_ms : ℕ
  pub resolver : Resolver
  pub edges : List Edge
  pub alerts : Dict String NormalizedAlert
  pub resolutions : Dict String Resolution
  pub timelines : Dict ℕ (List Moment)
  pub buffer : List Item
  pub buffered_uids : List String
  pub max_event_time_ms : Option ℕ

unfoldable pub ground_of : Engine → Ground
ground_of e = record {
  window_ms = e.window_ms;
  grace_ms = e.grace_ms;
  resolver = e.resolver;
  edges = e.edges;
  alerts = e.alerts;
  resolutions = e.resolutions;
  timelines = e.timelines;
  buffer = e.buffer;
  buffered_uids = e.buffered_uids;
  max_event_time_ms = e.max_event_time_ms;
}

choose_cluster-ground :
    (env : Environment) (unnamed : ℕ → String) (first : String) (members ids : List String)
    (e : Engine)
    → ground_of (choose_cluster env unnamed first members ids e).0 ≡ ground_of e
unfolding choose_cluster ground_of
choose_cluster-ground env unnamed first members [] e = refl
choose_cluster-ground env unnamed first members (cid ∷ ids) e = refl

write_chosen-ground :
    (env : Environment) (unnamed : ℕ → String) (first : String) (members : List String)
    (cid : String) (o : Option Cluster) (e : Engine)
    → ground_of (write_chosen env unnamed first members cid o e) ≡ ground_of e
unfolding write_chosen ground_of
write_chosen-ground env unnamed first members cid none e = refl
write_chosen-ground env unnamed first members cid (some c) e = refl

assign_to-ground :
    (env : Environment) (unnamed : ℕ → String) (first : String) (members ids : List String)
    (e : Engine)
    → ground_of (assign_to env unnamed first members ids e) ≡ ground_of e
unfolding assign_to write_cluster
assign_to-ground env unnamed first members ids e =
    let (e', cid) = choose_cluster env unnamed first members ids e in
    write_chosen-ground env unnamed first members cid (get cid e'.clusters) e'
    ∙ choose_cluster-ground env unnamed first members ids e

assign_sorted-ground :
    (env : Environment) (unnamed : ℕ → String) (members : List String) (e : Engine)
    → ground_of (assign_sorted env unnamed members e) ≡ ground_of e
unfolding assign_sorted
assign_sorted-ground env unnamed [] e = refl
assign_sorted-ground env unnamed (first ∷ members) e =
    assign_to-ground env unnamed first (first ∷ members)
      (keep (is_live e) (existing_ids e (first ∷ members))) e

pub assign_cluster-ground :
    (env : Environment) (unnamed : ℕ → String) (component : List String) (e : Engine)
    → ground_of (assign_cluster env unnamed component e) ≡ ground_of e
unfolding assign_cluster
assign_cluster-ground env unnamed component e =
    assign_sorted-ground env unnamed (sort_members e component) e

rebuild_nodes-ground :
    (env : Environment) (unnamed : ℕ → String) (nodes seen : List String) (e : Engine)
    → ground_of (rebuild_nodes env unnamed nodes seen e) ≡ ground_of e
unfolding rebuild_nodes
rebuild_nodes-ground env unnamed [] seen e = refl
rebuild_nodes-ground env unnamed (node ∷ nodes) seen e = elim (Bool-cases (contains seen node)) [
  | inl p ↦ rw (p) (rebuild_nodes-ground env unnamed nodes seen e)
  | inr p ↦ rw (p) (
      rebuild_nodes-ground env unnamed nodes (env.component e.edges node ++ seen)
        (assign_cluster env unnamed (env.component e.edges node) e)
      ∙ assign_cluster-ground env unnamed (env.component e.edges node) e)
]

pub rebuild_clusters-ground :
    (env : Environment) (unnamed : ℕ → String) (nodes : List String) (e : Engine)
    → ground_of (rebuild_clusters env unnamed nodes e) ≡ ground_of e
unfolding rebuild_clusters
rebuild_clusters-ground env unnamed nodes e = rebuild_nodes-ground env unnamed nodes [] e

-- ===== src/Correlate/Engine/Clusters.antt =====
-- engine/correlate/engine.py: the chains of the connected components. The code raises KeyError where a
-- member has no alert; every node of the graph has one.
use log_lookup_ai.Prelude.{
  ℕ, String, Bool, true, false, Option, none, some, List, [], ◌∷◌, ◌++◌, map, string_eq, nat_eq,
  ◌==◌, if◌then◌else◌, keep, contains,
}
use log_lookup_ai.Prelude.Dict.{Dict, get, put}
use log_lookup_ai.Prelude.Order.{Moment, before}
use log_lookup_ai.Correlate.Alerts.{NormalizedAlert, Attack}
use log_lookup_ai.Correlate.Chains.{Alert, unjudged, tactic_sequence, progression_disposition}
use log_lookup_ai.Correlate.ClusterIds.{next_id}
use log_lookup_ai.Correlate.Engine.Naming.{primary_entity_name}
use log_lookup_ai.Correlate.Engine.{Environment, Cluster, Engine}

-- self._alerts[uid].time
unfoldable pub time_of : Engine → String → ℕ
unfolding get
time_of e uid = elim (get uid e.alerts) [ none ↦ 0 | some a ↦ a.time ]

abbrev pub key_of : Engine → String → Moment
key_of e uid = (time_of e uid, uid)

-- sorted(component, key=...)
unfoldable pub insert_member : Engine → String → List String → List String
unfolding before time_of
insert_member e uid [] = uid ∷ []
insert_member e uid (x ∷ members) =
    let rest = insert_member e uid members in
    if before (key_of e uid) (key_of e x) then uid ∷ x ∷ members else x ∷ rest

unfoldable pub sort_members : Engine → List String → List String
unfolding insert_member
sort_members e [] = []
sort_members e (uid ∷ component) = insert_member e uid (sort_members e component)

unfoldable pub last_of : String → List String → String
last_of uid [] = uid
last_of uid (x ∷ members) = last_of x members

-- existing_ids
unfoldable pub existing_ids : Engine → List String → List String
unfolding get contains
existing_ids e [] = []
existing_ids e (uid ∷ members) =
    let rest = existing_ids e members in
    elim (get uid e.cluster_of_alert) [
      | none ↦ rest
      | some cid ↦ if contains rest cid then rest else cid ∷ rest
    ]

-- self._clusters[cid].merged_into is None
unfoldable pub is_unmerged : Option Cluster → Bool
is_unmerged none = false
is_unmerged (some c) = elim c.merged_into [ none ↦ true | some _ ↦ false ]

unfoldable pub is_live : Engine → String → Bool
unfolding get is_unmerged
is_live e cid = is_unmerged (get cid e.clusters)

unfoldable pub cluster_key : Engine → String → Moment
unfolding get
cluster_key e cid = elim (get cid e.clusters) [ none ↦ (0, cid) | some c ↦ (c.first_time_ms, cid) ]

-- min(live_ids, key=...)
unfoldable pub earliest : Engine → String → List String → String
unfolding before cluster_key
earliest e cid [] = cid
earliest e cid (x ∷ rest) =
    if before (cluster_key e x) (cluster_key e cid) then earliest e x rest else earliest e cid rest

-- self._clusters[cid].merged_into = keep_id
unfoldable pub merge_entry :
    String → String → Option Cluster → Dict String Cluster → Dict String Cluster
unfolding put
merge_entry keep_id cid none clusters = clusters
merge_entry keep_id cid (some c) clusters =
    put cid (record c { merged_into = some keep_id }) clusters

unfoldable pub merge_cluster : String → String → Dict String Cluster → Dict String Cluster
unfolding get merge_entry
merge_cluster keep_id cid clusters = merge_entry keep_id cid (get cid clusters) clusters

-- The loop over the chains that merge; they are written in any order, since each is another.
unfoldable pub merge_clusters : String → List String → Dict String Cluster → Dict String Cluster
unfolding merge_cluster
merge_clusters keep_id [] clusters = clusters
merge_clusters keep_id (cid ∷ ids) clusters =
    merge_clusters keep_id ids
      (if cid == keep_id then clusters else merge_cluster keep_id cid clusters)

-- Cluster(cluster_id=cluster_id)
abbrev pub new_cluster : String → Cluster
new_cluster cid = record {
  cluster_id = cid;
  alert_uids = [];
  entity_uids = [];
  primary_entity_name = "";
  first_time_ms = 0;
  last_time_ms = 0;
  tactic_sequence = [];
  disposition = unjudged;
  merged_into = none;
}

-- The chain of the members: a new one, or the earliest of those that merge.
unfoldable pub choose_cluster :
    Environment → (ℕ → String) → String → List String → List String → Engine → Engine × String
unfolding next_id time_of primary_entity_name put earliest merge_clusters
choose_cluster env unnamed first members [] e =
    let (g, cid) =
      next_id env.ids (time_of e first) (primary_entity_name unnamed members e) first
        e.id_generator in
    (record e { id_generator = g; clusters = put cid (new_cluster cid) e.clusters }, cid)
choose_cluster env unnamed first members (cid ∷ ids) e =
    let keep_id = earliest e cid ids in
    (record e { clusters = merge_clusters keep_id (cid ∷ ids) e.clusters }, keep_id)

-- The entities of the members, each once.
unfoldable pub add_entities : List ℕ → List ℕ → List ℕ
unfolding contains
add_entities [] found = found
add_entities (u ∷ us) found = add_entities us (if contains found u then found else found ++ u ∷ [])

unfoldable pub entities_of : Engine → List String → List ℕ → List ℕ
unfolding get add_entities
entities_of e [] found = found
entities_of e (uid ∷ members) found =
    entities_of e members
      (elim (get uid e.resolutions) [ none ↦ found | some r ↦ add_entities r.entities found ])

-- ordered_alerts, as chains.py reads them
abbrev pub tactics_of : NormalizedAlert → Alert
tactics_of a = record { tactics = map (λ (x : Attack). x.tactic) a.attacks }

unfoldable pub ordered_alerts : Engine → List String → List Alert
unfolding get
ordered_alerts e [] = []
ordered_alerts e (uid ∷ members) =
    let rest = ordered_alerts e members in
    elim (get uid e.alerts) [ none ↦ rest | some a ↦ tactics_of a ∷ rest ]

-- The fields that _assign_cluster sets.
unfoldable pub describe_cluster :
    Environment → (ℕ → String) → String → List String → Engine → Cluster → Cluster
unfolding entities_of primary_entity_name time_of last_of ordered_alerts tactic_sequence
    progression_disposition
describe_cluster env unnamed first members e c = record c {
  alert_uids = members;
  entity_uids = entities_of e members [];
  primary_entity_name = primary_entity_name unnamed members e;
  first_time_ms = time_of e first;
  last_time_ms = time_of e (last_of first members);
  tactic_sequence = tactic_sequence (ordered_alerts e members);
  disposition = progression_disposition env.upper env.lower_stripped (ordered_alerts e members);
}

-- self._cluster_of_alert[uid] = cluster.cluster_id, for every member
unfoldable pub assign_members : String → List String → Dict String String → Dict String String
unfolding put
assign_members cid [] d = d
assign_members cid (uid ∷ members) d = assign_members cid members (put uid cid d)

-- The writes to the chosen chain.
unfoldable pub write_chosen :
    Environment → (ℕ → String) → String → List String → String → Option Cluster → Engine → Engine
unfolding put describe_cluster assign_members
write_chosen env unnamed first members cid none e = e
write_chosen env unnamed first members cid (some c) e = record e {
  clusters = put cid (describe_cluster env unnamed first members e c) e.clusters;
  cluster_of_alert = assign_members cid members e.cluster_of_alert;
}

unfoldable pub write_cluster :
    Environment → (ℕ → String) → String → List String → String → Engine → Engine
unfolding get write_chosen
write_cluster env unnamed first members cid e =
    write_chosen env unnamed first members cid (get cid e.clusters) e

-- _assign_cluster once `live_ids` is known
unfoldable pub assign_to :
    Environment → (ℕ → String) → String → List String → List String → Engine → Engine
unfolding choose_cluster write_cluster
assign_to env unnamed first members live_ids e =
    let (e', cid) = choose_cluster env unnamed first members live_ids e in
    write_cluster env unnamed first members cid e'

-- _assign_cluster for the sorted members
unfoldable pub assign_sorted : Environment → (ℕ → String) → List String → Engine → Engine
unfolding keep existing_ids is_live assign_to
assign_sorted env unnamed [] e = e
assign_sorted env unnamed (first ∷ members) e =
    assign_to env unnamed first (first ∷ members)
      (keep (is_live e) (existing_ids e (first ∷ members))) e

-- _assign_cluster
unfoldable pub assign_cluster : Environment → (ℕ → String) → List String → Engine → Engine
unfolding sort_members assign_sorted
assign_cluster env unnamed component e = assign_sorted env unnamed (sort_members e component) e

-- The loop of _rebuild_clusters.
unfoldable pub rebuild_nodes :
    Environment → (ℕ → String) → List String → List String → Engine → Engine
unfolding contains assign_cluster
rebuild_nodes env unnamed [] seen e = e
rebuild_nodes env unnamed (node ∷ nodes) seen e =
    let members = env.component e.edges node in
    let skipped = rebuild_nodes env unnamed nodes seen e in
    let done =
      rebuild_nodes env unnamed nodes (members ++ seen) (assign_cluster env unnamed members e) in
    if contains seen node then skipped else done

-- _rebuild_clusters
unfoldable pub rebuild_clusters : Environment → (ℕ → String) → List String → Engine → Engine
unfolding rebuild_nodes
rebuild_clusters env unnamed new_nodes e = rebuild_nodes env unnamed new_nodes [] e

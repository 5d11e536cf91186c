-- ===== src/Correlate/Engine/Pruning.antt =====
-- engine/correlate/engine.py: prune_before, clusters and merge_aliases.
use log_lookup_ai.Prelude.{
  ℕ, String, Bool, true, false, ◌&&◌, Option, none, some, List, [], ◌∷◌, string_eq, ◌==◌,
  if◌then◌else◌, ltb, length, any, keep,
}
use log_lookup_ai.Prelude.Dict.{Dict, get, pop}
use log_lookup_ai.Prelude.Order.{Moment, before}
use log_lookup_ai.Correlate.Alerts.{NormalizedAlert}
use log_lookup_ai.Correlate.Engine.{Cluster, Engine}
use log_lookup_ai.Correlate.Engine.Clusters.{is_unmerged}
use log_lookup_ai.Correlate.Engine.Revisions.{remove_node}

-- Whether a chain is live and ended before the cutoff.
abbrev pub is_doomed : ℕ → Cluster → Bool
is_doomed cutoff c = is_unmerged (some c) && ltb c.last_time_ms cutoff

unfoldable pub doomed_clusters : ℕ → Dict String Cluster → List Cluster
unfolding is_unmerged
doomed_clusters cutoff [] = []
doomed_clusters cutoff ((cid, c) ∷ clusters) =
    let rest = doomed_clusters cutoff clusters in if is_doomed cutoff c then c ∷ rest else rest

-- The inner loop over the alerts of a chain.
unfoldable pub drop_alerts : List String → Engine → Engine
unfolding pop remove_node
drop_alerts [] e = e
drop_alerts (uid ∷ uids) e = drop_alerts uids (record e {
  alerts = pop uid e.alerts;
  resolutions = pop uid e.resolutions;
  cluster_of_alert = pop uid e.cluster_of_alert;
  edges = remove_node uid e.edges;
})

-- The loop over the doomed chains.
unfoldable pub drop_clusters : List Cluster → Engine → Engine
unfolding drop_alerts pop
drop_clusters [] e = e
drop_clusters (c ∷ doomed) e =
    let e' = drop_alerts c.alert_uids e in
    drop_clusters doomed (record e' { clusters = pop c.cluster_id e'.clusters })

-- c.merged_into in doomed_ids
abbrev pub points_at : List Cluster → Cluster → Bool
points_at doomed c = elim c.merged_into [
  | none ↦ false
  | some k ↦ any (λ (d : Cluster). d.cluster_id == k) doomed
]

-- The ids of the chains that were merged into a doomed one.
unfoldable pub loser_ids : List Cluster → Dict String Cluster → List String
unfolding any
loser_ids doomed [] = []
loser_ids doomed ((cid, c) ∷ clusters) =
    let rest = loser_ids doomed clusters in if points_at doomed c then cid ∷ rest else rest

-- del self._clusters[cid], for each of them
unfoldable pub drop_ids : List String → Dict String Cluster → Dict String Cluster
unfolding pop
drop_ids [] clusters = clusters
drop_ids (cid ∷ ids) clusters = drop_ids ids (pop cid clusters)

unfoldable pub is_there : Option NormalizedAlert → Bool
is_there none = false
is_there (some a) = true

-- uid in self._alerts
unfoldable pub has_alert : Engine → String → Bool
unfolding get is_there
has_alert e uid = is_there (get uid e.alerts)

-- The loop over the timelines.
unfoldable pub keep_lines : Engine → Dict ℕ (List Moment) → Dict ℕ (List Moment)
unfolding keep has_alert
keep_lines e [] = []
keep_lines e ((entity, line) ∷ timelines) =
    let rest = keep_lines e timelines in
    elim (keep (λ (t : Moment). has_alert e t.1) line) [
      | [] ↦ rest
      | t ∷ kept ↦ (entity, t ∷ kept) ∷ rest
    ]

-- prune_before for chains that are doomed
unfoldable pub prune : List Cluster → Engine → Engine
unfolding drop_clusters loser_ids drop_ids keep_lines
prune doomed e =
    let e' = drop_clusters doomed e in
    record e' {
      clusters = drop_ids (loser_ids doomed e'.clusters) e'.clusters;
      timelines = keep_lines e' e'.timelines;
    }

-- prune_before
unfoldable pub prune_before : ℕ → Engine → Engine × ℕ
unfolding doomed_clusters prune
prune_before cutoff e =
    let doomed = doomed_clusters cutoff e.clusters in
    if ltb 0 (length doomed) then (prune doomed e, length doomed) else (e, 0)

-- The order of clusters().
unfoldable pub insert_cluster : Cluster → List Cluster → List Cluster
unfolding before
insert_cluster c [] = c ∷ []
insert_cluster c (x ∷ xs) =
    let rest = insert_cluster c xs in
    if before (c.first_time_ms, c.cluster_id) (x.first_time_ms, x.cluster_id)
    then c ∷ x ∷ xs
    else x ∷ rest

-- clusters
unfoldable pub live_clusters : Dict String Cluster → List Cluster
unfolding insert_cluster is_unmerged
live_clusters [] = []
live_clusters ((cid, c) ∷ clusters) =
    let rest = live_clusters clusters in
    if is_unmerged (some c) then insert_cluster c rest else rest

-- merge_aliases
unfoldable pub merge_aliases : Dict String Cluster → Dict String String
merge_aliases [] = []
merge_aliases ((cid, c) ∷ clusters) =
    let rest = merge_aliases clusters in
    elim c.merged_into [ none ↦ rest | some k ↦ if k == "" then rest else (c.cluster_id, k) ∷ rest ]

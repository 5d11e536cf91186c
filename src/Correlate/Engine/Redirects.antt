-- ===== src/Correlate/Engine/Redirects.antt =====
-- The merges of chains still end after a change of one chain, and so after _assign_cluster.
use log_lookup_ai.Prelude.{
  ℕ, zero, suc, String, true, ◌≡◌, ◌≢◌, refl, sym, ap, ◌∙◌, ◌⊎◌, inl, inr, Option, none, some, List,
  [], ◌∷◌, ◌++◌, string_eq, ◌==◌, text_iff, if◌then◌else◌, All, keep, Bool-cases, Option-cases,
  arith, contains,
}
use log_lookup_ai.Prelude.Dict.{Dict, get, put, pop, get-put}
use log_lookup_ai.Prelude.Order.{before}
use log_lookup_ai.Correlate.Engine.{Environment, Cluster, Engine}
use log_lookup_ai.Correlate.Engine.Clusters.{
  is_live, earliest, cluster_key, existing_ids, new_cluster, merge_cluster, merge_clusters,
  describe_cluster, choose_cluster, write_chosen, write_cluster, assign_to, assign_sorted,
  assign_cluster, rebuild_nodes, rebuild_clusters, sort_members, is_unmerged, merge_entry,
}
use log_lookup_ai.Correlate.Engine.Revisions.{pointer}
use log_lookup_ai.Correlate.Engine.Merging.{target, Ends, stop, hop, target-pop, AllEnd}

-- Some number of steps.
abbrev Ending : Dict String Cluster → String → Type 0
Ending d cid = (n : ℕ) × Ends d n cid

-- One chain is redirected: to nowhere, or to one that is not merged.
abbrev Redirected : Dict String Cluster → Option String → Type 0
Redirected d t = (t ≡ none) ⊎ ((k : String) × ((t ≡ some k) × (target d k ≡ none)))

Redirected-Ending :
    (d' : Dict String Cluster) (t : Option String) (x : String)
    → Redirected d' t
    → target d' x ≡ t
    → Ending d' x
Redirected-Ending d' t x (inl p) q = (0, stop (q ∙ p))
Redirected-Ending d' t x (inr (k, (p, r))) q = (1, hop (q ∙ p) (stop r))

-- The merges end after a redirection of `cid`, since they end at it or as before.
redirect-Ending :
    (d d' : Dict String Cluster) (cid : String) (t : Option String) (x : String) (n : ℕ)
    → ((y : String) → target d' y ≡ (if cid == y then t else target d y))
    → Redirected d' t
    → Ends d n x
    → Ending d' x
redirect-Ending d d' cid t x zero same ok (stop p) = elim (Bool-cases (cid == x)) [
  | inl q ↦ Redirected-Ending d' t x ok (same x ∙ rw (q) refl)
  | inr q ↦ (0, stop (same x ∙ rw (q) p))
]
redirect-Ending d d' cid t x (suc n) same ok (hop {next = k} p h) = elim (Bool-cases (cid == x)) [
  | inl q ↦ Redirected-Ending d' t x ok (same x ∙ rw (q) refl)
  | inr q ↦
      let (m, far) = redirect-Ending d d' cid t k n same ok h in
      (suc m, hop (same x ∙ rw (q) p) far)
]

target-put :
    (d : Dict String Cluster) (cid x : String) (c : Cluster)
    → target (put cid c d) x ≡ (if cid == x then pointer (some c) else target d x)
target-put d cid x c = elim (Bool-cases (cid == x)) [
  | inl p ↦ rw (get-put cid x c d, p) refl
  | inr p ↦ rw (get-put cid x c d, p) refl
]

put-AllEnd :
    (d : Dict String Cluster) (cid : String) (c : Cluster)
    → Redirected (put cid c d) (pointer (some c))
    → AllEnd d
    → AllEnd (put cid c d)
put-AllEnd d cid c ok h x =
    let (n, e) = h x in
    redirect-Ending d (put cid c d) cid (pointer (some c)) x n (λ y. target-put d cid y c) ok e

pub pop-AllEnd : (d : Dict String Cluster) (cid : String) → AllEnd d → AllEnd (pop cid d)
pop-AllEnd d cid h x =
    let (n, e) = h x in
    redirect-Ending d (pop cid d) cid none x n (λ y. target-pop d cid y) (inl refl) e

-- The merges end as before where no chain is redirected.
same-Ends :
    (d d' : Dict String Cluster) (x : String) (n : ℕ)
    → ((y : String) → target d' y ≡ target d y)
    → Ends d n x
    → Ends d' n x
same-Ends d d' x zero same (stop p) = stop (same x ∙ p)
same-Ends d d' x (suc n) same (hop {next = k} p h) = hop (same x ∙ p) (same-Ends d d' k n same h)

-- The chain that is kept has not been merged.
pointer_unmerged : (o : Option Cluster) → is_unmerged o ≡ true → pointer o ≡ none
unfolding is_unmerged pointer
pointer_unmerged none h = refl
pointer_unmerged (some c) h = ground (arith, Option-cases c.merged_into)

merge_entry-kept :
    (keep_id cid : String) (o : Option Cluster) (d : Dict String Cluster)
    → cid ≢ keep_id
    → target (merge_entry keep_id cid o d) keep_id ≡ target d keep_id
unfolding merge_entry
merge_entry-kept keep_id cid none d differ = refl
merge_entry-kept keep_id cid (some c) d differ = elim (Bool-cases (cid == keep_id)) [
  | inl p ↦ absurd (differ ((text_iff cid keep_id).0 p))
  | inr p ↦ target-put d cid keep_id (record c { merged_into = some keep_id }) ∙ rw (p) refl
]

merge_entry-AllEnd :
    (keep_id cid : String) (o : Option Cluster) (d : Dict String Cluster)
    → cid ≢ keep_id
    → target d keep_id ≡ none
    → AllEnd d
    → AllEnd (merge_entry keep_id cid o d)
unfolding merge_entry pointer
merge_entry-AllEnd keep_id cid none d differ kept h = h
merge_entry-AllEnd keep_id cid (some c) d differ kept h =
    let c' : Cluster = record c { merged_into = some keep_id } in
    put-AllEnd d cid c'
      (elim (Bool-cases (keep_id == "")) [
        | inl p ↦ inl (rw (p) refl)
        | inr p ↦
            inr (keep_id, (rw (p) refl, merge_entry-kept keep_id cid (some c) d differ ∙ kept))
      ])
      h

merge_clusters-AllEnd :
    (keep_id : String) (ids : List String) (d : Dict String Cluster)
    → target d keep_id ≡ none
    → AllEnd d
    → AllEnd (merge_clusters keep_id ids d)
unfolding merge_clusters merge_cluster
merge_clusters-AllEnd keep_id [] d kept h = h
merge_clusters-AllEnd keep_id (cid ∷ ids) d kept h = elim (Bool-cases (cid == keep_id)) [
  | inl p ↦ rw (p) (merge_clusters-AllEnd keep_id ids d kept h)
  | inr p ↦
      let differ : cid ≢ keep_id = λ q. (ground (arith, p, (text_iff cid keep_id).1 q)) in
      rw (p) (
        merge_clusters-AllEnd keep_id ids _
          (merge_entry-kept keep_id cid (get cid d) d differ ∙ kept)
          (merge_entry-AllEnd keep_id cid (get cid d) d differ kept h))
]

-- All the chains of the list are live.
abbrev AllLive : Engine → List String → Type 0
AllLive e ids = All (λ (cid : String). is_live e cid ≡ true) ids

keep-AllLive : (e : Engine) (ids : List String) → AllLive e (keep (is_live e) ids)
unfolding keep
keep-AllLive e [] = tt
keep-AllLive e (cid ∷ ids) = elim (Bool-cases (is_live e cid)) [
  | inl p ↦ rw (p) (p, keep-AllLive e ids)
  | inr p ↦ rw (p) (keep-AllLive e ids)
]

earliest-live :
    (e : Engine) (cid : String) (ids : List String)
    → AllLive e (cid ∷ ids)
    → is_live e (earliest e cid ids) ≡ true
unfolding earliest
earliest-live e cid [] (p, h) = p
earliest-live e cid (x ∷ ids) (p, (q, h)) =
    elim (Bool-cases (before (cluster_key e x) (cluster_key e cid))) [
      | inl r ↦ rw (r) (earliest-live e x ids (q, h))
      | inr r ↦ rw (r) (earliest-live e cid ids (p, h))
    ]

choose_cluster-AllEnd :
    (env : Environment) (unnamed : ℕ → String) (first : String) (members ids : List String)
    (e : Engine)
    → AllLive e ids
    → AllEnd e.clusters
    → AllEnd (choose_cluster env unnamed first members ids e).0.clusters
unfolding choose_cluster pointer is_live
choose_cluster-AllEnd env unnamed first members [] e live h =
    put-AllEnd e.clusters _ (new_cluster _) (inl refl) h
choose_cluster-AllEnd env unnamed first members (cid ∷ ids) e live h =
    merge_clusters-AllEnd (earliest e cid ids) (cid ∷ ids) e.clusters
      (pointer_unmerged (get (earliest e cid ids) e.clusters) (earliest-live e cid ids live)) h

-- A chain that is written with the merge that it had is not redirected.
put-same :
    (d : Dict String Cluster) (cid : String) (c c' : Cluster)
    → get cid d ≡ some c
    → pointer (some c') ≡ pointer (some c)
    → (y : String) → target (put cid c' d) y ≡ target d y
put-same d cid c c' at same y = target-put d cid y c' ∙ elim (Bool-cases (cid == y)) [
  | inl p ↦ rw (p) (same ∙ sym (ap pointer at) ∙ ap (target d) ((text_iff cid y).0 p))
  | inr p ↦ rw (p) refl
]

write_chosen-AllEnd :
    (env : Environment) (unnamed : ℕ → String) (first : String) (members : List String)
    (cid : String) (o : Option Cluster) (e : Engine)
    → get cid e.clusters ≡ o
    → AllEnd e.clusters
    → AllEnd (write_chosen env unnamed first members cid o e).clusters
unfolding write_chosen describe_cluster pointer
write_chosen-AllEnd env unnamed first members cid none e at h = h
write_chosen-AllEnd env unnamed first members cid (some c) e at h = λ x.
    let (n, end) = h x in
    (
      n,
      same-Ends e.clusters _ x n
          (put-same e.clusters cid c (describe_cluster env unnamed first members e c) at refl) end,
    )

assign_to-AllEnd :
    (env : Environment) (unnamed : ℕ → String) (first : String) (members ids : List String)
    (e : Engine)
    → AllLive e ids
    → AllEnd e.clusters
    → AllEnd (assign_to env unnamed first members ids e).clusters
unfolding assign_to write_cluster
assign_to-AllEnd env unnamed first members ids e live h =
    let (e', cid) = choose_cluster env unnamed first members ids e in
    write_chosen-AllEnd env unnamed first members cid (get cid e'.clusters) e' refl
      (choose_cluster-AllEnd env unnamed first members ids e live h)

assign_sorted-AllEnd :
    (env : Environment) (unnamed : ℕ → String) (members : List String) (e : Engine)
    → AllEnd e.clusters
    → AllEnd (assign_sorted env unnamed members e).clusters
unfolding assign_sorted
assign_sorted-AllEnd env unnamed [] e h = h
assign_sorted-AllEnd env unnamed (first ∷ members) e h =
    assign_to-AllEnd env unnamed first (first ∷ members) _ e
      (keep-AllLive e (existing_ids e (first ∷ members))) h

pub assign_cluster-AllEnd :
    (env : Environment) (unnamed : ℕ → String) (component : List String) (e : Engine)
    → AllEnd e.clusters
    → AllEnd (assign_cluster env unnamed component e).clusters
unfolding assign_cluster
assign_cluster-AllEnd env unnamed component e h =
    assign_sorted-AllEnd env unnamed (sort_members e component) e h

rebuild_nodes-AllEnd :
    (env : Environment) (unnamed : ℕ → String) (nodes seen : List String) (e : Engine)
    → AllEnd e.clusters
    → AllEnd (rebuild_nodes env unnamed nodes seen e).clusters
unfolding rebuild_nodes
rebuild_nodes-AllEnd env unnamed [] seen e h = h
rebuild_nodes-AllEnd env unnamed (node ∷ nodes) seen e h = elim (Bool-cases (contains seen node)) [
  | inl p ↦ rw (p) (rebuild_nodes-AllEnd env unnamed nodes seen e h)
  | inr p ↦ rw (p) (
      rebuild_nodes-AllEnd env unnamed nodes (env.component e.edges node ++ seen) _
        (assign_cluster-AllEnd env unnamed (env.component e.edges node) e h))
]

pub rebuild_clusters-AllEnd :
    (env : Environment) (unnamed : ℕ → String) (nodes : List String) (e : Engine)
    → AllEnd e.clusters
    → AllEnd (rebuild_clusters env unnamed nodes e).clusters
unfolding rebuild_clusters
rebuild_clusters-AllEnd env unnamed nodes e h = rebuild_nodes-AllEnd env unnamed nodes [] e h

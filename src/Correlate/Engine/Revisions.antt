-- ===== src/Correlate/Engine/Revisions.antt =====
-- engine/correlate/engine.py: revise and what it calls. The risk scores are left out.
use log_lookup_ai.Prelude.{
  ℕ, zero, suc, ◌+◌, ◌-◌, String, Bool, false, ◌&&◌, not, Option, none, some, List, [], ◌∷◌, ◌++◌,
  string_eq, ◌==◌, if◌then◌else◌, ltb, leb, length, any, keep, contains, nat_eq,
}
use log_lookup_ai.Prelude.Dict.{Dict, get, put}
use log_lookup_ai.Prelude.Order.{Moment}
use log_lookup_ai.Correlate.Alerts.{NormalizedAlert}
use log_lookup_ai.Correlate.Entities.{or_empty}
use log_lookup_ai.Correlate.Entities.Resolving.{resolve}
use log_lookup_ai.Correlate.Timelines.{Edge, nth, bisect}
use log_lookup_ai.Correlate.Engine.{Environment, Item, Cluster, Engine, insort_item, insert_alert}
use log_lookup_ai.Correlate.Engine.Clusters.{assign_cluster, rebuild_clusters}
use log_lookup_ai.Correlate.Engine.Changes.{Part, moves, what_changed}

-- Why an alert goes to review.
pub data Reason : Type 0 where
  splits_chain leaves_chain : Reason

-- Revision: its kind with what the kind says.
pub data Revision : Type 0 where
  buffered unknown : Revision
  unchanged : Option String → Revision
  rescored : Option String → List Part → Revision
  reclustered : Option String → List Part → Revision
  review : String → List Part → Reason → Revision

abbrev pub members_of : Engine → String → List String
members_of e cid = elim (get cid e.clusters) [ none ↦ [] | some c ↦ c.alert_uids ]

-- self._clusters[cluster_id].merged_into; an empty text counts as none, and so does a chain that is not
-- there, where the code raises KeyError
unfoldable pub pointer : Option Cluster → Option String
pointer none = none
pointer (some c) = elim c.merged_into [ none ↦ none | some k ↦ if k == "" then none else some k ]

unfoldable pub merged_into : Engine → String → Option String
unfolding get pointer
merged_into e cid = pointer (get cid e.clusters)

-- _live_cluster, on fuel
unfoldable pub live_cluster : ℕ → Engine → String → Option String
unfolding merged_into
live_cluster zero e cid = none
live_cluster (suc fuel) e cid = elim (merged_into e cid) [
  | none ↦ some cid
  | some next ↦ live_cluster fuel e next
]

-- The fuel: a chain of merges visits every cluster once at most.
abbrev pub live : Engine → String → Option String
live e cid = live_cluster (suc (length e.clusters)) e cid

-- The neighbours of a spot that are within the window.
unfoldable pub neighbours_at : ℕ → ℕ → Moment → List Moment → List String
unfolding nth
neighbours_at window spot m line =
    (if ltb 0 spot && leb m.0 ((nth line (spot - 1)).0 + window)
      then (nth line (spot - 1)).1 ∷ []
      else [])
    ++ (if ltb spot (length line) && leb (nth line spot).0 (m.0 + window)
        then (nth line spot).1 ∷ []
        else [])

-- The loop of _neighbours_if_placed over the entities.
unfoldable pub neighbours : ℕ → Moment → Dict ℕ (List Moment) → List ℕ → List String
unfolding get keep bisect neighbours_at
neighbours window m timelines [] = []
neighbours window m timelines (entity ∷ entities) =
    let line = keep (λ (t : Moment). not (t.1 == m.1)) (or_empty (get entity timelines)) in
    neighbours_at window (bisect line m) m line ++ neighbours window m timelines entities

-- _neighbours_if_placed: it resolves the alert, which changes the resolver
unfoldable pub neighbours_if_placed : Environment → NormalizedAlert → Engine → Engine × List String
unfolding resolve neighbours
neighbours_if_placed env a e =
    let (resolver, answer) = resolve env.texts a e.resolver in
    (
      record e { resolver = resolver },
      elim answer [
        | none ↦ []
        | some found ↦ neighbours e.window_ms (a.time, a.uid) e.timelines found.entities
      ],
    )

-- self._live_cluster(self._cluster_of_alert[n]) is the chain, for a neighbour that has one
unfoldable pub is_of_chain : Engine → Option String → String → Bool
unfolding get live_cluster
is_of_chain e chain n = elim (get n e.cluster_of_alert) [
  | none ↦ false
  | some cid ↦ elim (live e cid) [
    | none ↦ false
    | some l ↦ elim chain [ none ↦ false | some c ↦ l == c ]
  ]
]

unfoldable pub drop_from_lines : String → Dict ℕ (List Moment) → Dict ℕ (List Moment)
unfolding keep
drop_from_lines uid [] = []
drop_from_lines uid ((entity, line) ∷ timelines) =
    (entity, keep (λ (t : Moment). not (t.1 == uid)) line) ∷ drop_from_lines uid timelines

-- _graph.remove_node
unfoldable pub remove_node : String → List Edge → List Edge
unfolding keep
remove_node uid edges = keep (λ (x : Edge). not (x.0 == uid) && not (x.1 == uid)) edges

-- _detach
unfoldable pub detach : String → Engine → Engine
unfolding drop_from_lines remove_node
detach uid e = record e {
  edges = remove_node uid e.edges;
  timelines = drop_from_lines uid e.timelines;
}

-- The cluster of an alert after a revision.
unfoldable pub live_of_alert : String → Engine → Option String
unfolding get live_cluster
live_of_alert uid e = elim (get uid e.cluster_of_alert) [ none ↦ none | some cid ↦ live e cid ]

-- Step 3 of _reevaluate: take the alert out and put it back.
unfoldable pub replace_alert :
    Environment → (ℕ → String) → String → NormalizedAlert → List Part → Engine → Engine × Revision
unfolding detach insert_alert rebuild_clusters live_of_alert
replace_alert env unnamed uid a parts e =
    let e' =
      rebuild_clusters env unnamed (uid ∷ []) (insert_alert env a.time uid a (detach uid e)) in
    (e', reclustered (live_of_alert uid e') parts)

-- Step 2: it must still belong to the same chain.
unfoldable pub keep_chain :
    Environment
    → (ℕ → String)
    → String
    → NormalizedAlert
    → List Part
    → String
    → Engine
    → Engine × Revision
unfolding neighbours_if_placed is_of_chain any replace_alert live_cluster
keep_chain env unnamed uid a parts cid e =
    let (e', near) = neighbours_if_placed env a e in
    if any (is_of_chain e' (live e' cid)) near
    then replace_alert env unnamed uid a parts e'
    else (e', review cid parts leaves_chain)

-- _reevaluate
unfoldable pub reevaluate :
    Environment
    → (ℕ → String)
    → String
    → NormalizedAlert
    → List Part
    → String
    → Engine
    → Engine × Revision
unfolding keep keep_chain replace_alert
reevaluate env unnamed uid a parts cid e =
    let others = keep (λ (n : String). not (n == uid)) (members_of e cid) in
    if ltb 1 (length others) && ltb 1 (env.components_of e.edges others)
    then (e, review cid parts splits_chain)
    else if ltb 0 (length others)
    then keep_chain env unnamed uid a parts cid e
    else replace_alert env unnamed uid a parts e

-- self._alerts[uid] = alert
abbrev pub store_alert : String → NormalizedAlert → Engine → Engine
store_alert uid a e = record e { alerts = put uid a e.alerts }

-- The swap of a buffered copy.
unfoldable pub swap_buffered : NormalizedAlert → Engine → Engine
unfolding insort_item keep
swap_buffered a e = record e {
  buffer =
      insort_item (record { time = a.time; uid = a.uid; alert = a })
        (keep (λ (x : Item). not (x.uid == a.uid)) e.buffer);
}

-- revise for an alert that is live and changed
unfoldable pub apply_changes :
    Environment
    → (ℕ → String)
    → NormalizedAlert
    → List Part
    → Option String
    → Engine
    → Engine × Revision
unfolding put assign_cluster reevaluate any moves
apply_changes env unnamed a [] cid e = (store_alert a.uid a e, unchanged cid)
apply_changes env unnamed a (p ∷ parts) none e = (e, unknown)
apply_changes env unnamed a (p ∷ parts) (some cid) e =
    let rescoring = assign_cluster env unnamed (members_of e cid) (store_alert a.uid a e) in
    let moving = reevaluate env unnamed a.uid a (p ∷ parts) cid e in
    if any moves (p ∷ parts) then moving else (rescoring, rescored (some cid) (p ∷ parts))

-- revise for an alert that is not buffered: `old` is the version in `_alerts`
unfoldable pub revise_live :
    Environment
    → (ℕ → String)
    → NormalizedAlert
    → Option NormalizedAlert
    → Engine
    → Engine × Revision
unfolding get what_changed apply_changes
revise_live env unnamed a none e = (e, unknown)
revise_live env unnamed a (some old) e =
    apply_changes env unnamed a (what_changed old a) (get a.uid e.cluster_of_alert) e

-- revise; an alert that is live has a chain, so that the case of _refresh_cluster and _reevaluate
-- without one does not arise
unfoldable pub revise : Environment → (ℕ → String) → NormalizedAlert → Engine → Engine × Revision
unfolding contains get swap_buffered revise_live
revise env unnamed a e =
    if contains e.buffered_uids a.uid
    then (swap_buffered a e, buffered)
    else revise_live env unnamed a (get a.uid e.alerts) e

-- ===== src/Correlate/Engine/Endings.antt =====
-- Whatever is done with the engine, following the merges of a chain ends.
use log_lookup_ai.Prelude.{
  ℕ, suc, String, Bool, true, false, ◌≡◌, refl, sym, subst, inl, inr, Option, none, some, List, [],
  ◌∷◌, length, keep, any, contains, ltb, ◌&&◌, string_eq, ◌==◌, Bool-cases, arith, not,
}
use log_lookup_ai.Prelude.Dict.{Dict, get, pop}
use log_lookup_ai.Prelude.Order.{Moment}
use log_lookup_ai.Correlate.Alerts.{NormalizedAlert}
use log_lookup_ai.Correlate.Entities.{Resolver, Resolution}
use log_lookup_ai.Correlate.Entities.Resolving.{resolve}
use log_lookup_ai.Correlate.Engine.{
  Environment, Cluster, Engine, Item, add, uid_of, is_known, buffer_alert, insert_into, place_found,
  place_alert, insert_alert,
}
use log_lookup_ai.Correlate.Engine.Evaluation.{
  take_until, take_ready, take_all, insert_items, correlate, evaluate,
}
use log_lookup_ai.Correlate.Engine.Changes.{Part, moves, what_changed}
use log_lookup_ai.Correlate.Engine.Revisions.{
  pointer, live, detach, replace_alert, neighbours_if_placed, is_of_chain, keep_chain, reevaluate,
  swap_buffered, apply_changes, revise, members_of, store_alert, revise_live,
}
use log_lookup_ai.Correlate.Engine.Pruning.{
  drop_alerts, drop_clusters, drop_ids, loser_ids, prune, prune_before, doomed_clusters,
}
use log_lookup_ai.Correlate.Engine.Merging.{stop, AllEnd, IsEnd, Ends-bound, live_cluster-IsEnd}
use log_lookup_ai.Correlate.Engine.Redirects.{
  pop-AllEnd, assign_cluster-AllEnd, rebuild_clusters-AllEnd,
}
use log_lookup_ai.Correlate.Engine.Operations.{
  Operation, adding, evaluating, revising, pruning, preloading, Setting, perform, run, new_engine,
}

-- The chains of the engine.
abbrev Settled : Engine → Type 0
Settled e = AllEnd e.clusters

insert_into-clusters :
    (m : Moment) (entities : List ℕ) (e : Engine) → (insert_into m entities e).clusters ≡ e.clusters
unfolding insert_into
insert_into-clusters m [] e = refl
insert_into-clusters m (entity ∷ entities) e = insert_into-clusters m entities _

place_found-Settled :
    (time : ℕ) (uid : String) (a : NormalizedAlert) (o : Option Resolution) (e : Engine)
    → Settled e
    → Settled (place_found time uid a o e)
unfolding place_found place_alert
place_found-Settled time uid a none e h = h
place_found-Settled time uid a (some found) e h =
    subst AllEnd (sym (insert_into-clusters (time, uid) found.entities _)) h

insert_alert-Settled :
    (env : Environment) (time : ℕ) (uid : String) (a : NormalizedAlert) (e : Engine)
    → Settled e
    → Settled (insert_alert env time uid a e)
unfolding insert_alert
insert_alert-Settled env time uid a e h =
    let (resolver, answer) = resolve env.texts a e.resolver in
    place_found-Settled time uid a answer (record e { resolver = resolver }) h

insert_items-Settled :
    (env : Environment) (items : List Item) (e : Engine)
    → Settled e
    → Settled (insert_items env items e)
unfolding insert_items
insert_items-Settled env [] e h = h
insert_items-Settled env (x ∷ items) e h =
    insert_items-Settled env items _ (insert_alert-Settled env x.time x.uid x.alert e h)

correlate-Settled :
    (env : Environment) (unnamed : ℕ → String) (ready : List Item) (e : Engine)
    → Settled e
    → Settled (correlate env unnamed ready e)
unfolding correlate
correlate-Settled env unnamed ready e h =
    rebuild_clusters-AllEnd env unnamed _ (insert_items env ready e)
      (insert_items-Settled env ready e h)

take_until-Settled : (o : Option ℕ) (e : Engine) → Settled e → Settled (take_until o e).1
unfolding take_until
take_until-Settled none e h = h
take_until-Settled (some latest) e h = h

evaluate-Settled :
    (env : Environment) (unnamed : ℕ → String) (flush : Bool) (e : Engine)
    → Settled e
    → Settled (evaluate env unnamed flush e)
unfolding evaluate take_all take_ready
evaluate-Settled env unnamed true e h = correlate-Settled env unnamed e.buffer (take_all e).1 h
evaluate-Settled env unnamed false e h =
    let (ready, rest) = take_until e.max_event_time_ms e in
    correlate-Settled env unnamed ready rest (take_until-Settled e.max_event_time_ms e h)

add-Settled :
    (invent : ℕ → String) (a : NormalizedAlert) (e : Engine) → Settled e → Settled (add invent a e)
unfolding add buffer_alert
add-Settled invent a e h = elim (Bool-cases (is_known (uid_of invent a e) e)) [
  | inl p ↦ rw (p) h
  | inr p ↦ rw (p) h
]

replace_alert-Settled :
    (env : Environment) (unnamed : ℕ → String) (uid : String) (a : NormalizedAlert)
    (parts : List Part) (e : Engine)
    → Settled e
    → Settled (replace_alert env unnamed uid a parts e).0
unfolding replace_alert detach
replace_alert-Settled env unnamed uid a parts e h =
    rebuild_clusters-AllEnd env unnamed (uid ∷ []) (insert_alert env a.time uid a (detach uid e))
      (insert_alert-Settled env a.time uid a (detach uid e) h)

keep_chain-Settled :
    (env : Environment) (unnamed : ℕ → String) (uid : String) (a : NormalizedAlert)
    (parts : List Part) (cid : String) (e : Engine)
    → Settled e
    → Settled (keep_chain env unnamed uid a parts cid e).0
unfolding keep_chain neighbours_if_placed
keep_chain-Settled env unnamed uid a parts cid e h =
    let (e', near) = neighbours_if_placed env a e in
    elim (Bool-cases (any (is_of_chain e' (live e' cid)) near)) [
      | inl p ↦ rw (p) (replace_alert-Settled env unnamed uid a parts e' h)
      | inr p ↦ rw (p) h
    ]

reevaluate-Settled :
    (env : Environment) (unnamed : ℕ → String) (uid : String) (a : NormalizedAlert)
    (parts : List Part) (cid : String) (e : Engine)
    → Settled e
    → Settled (reevaluate env unnamed uid a parts cid e).0
unfolding reevaluate
reevaluate-Settled env unnamed uid a parts cid e h =
    let others = keep (λ (n : String). not (n == uid)) (members_of e cid) in
    elim (Bool-cases (ltb 1 (length others) && ltb 1 (env.components_of e.edges others))) [
      | inl p ↦ rw (p) h
      | inr p ↦ rw (p) (elim (Bool-cases (ltb 0 (length others))) [
        | inl q ↦ rw (q) (keep_chain-Settled env unnamed uid a parts cid e h)
        | inr q ↦ rw (q) (replace_alert-Settled env unnamed uid a parts e h)
      ])
    ]

apply_changes-Settled :
    (env : Environment) (unnamed : ℕ → String) (a : NormalizedAlert) (parts : List Part)
    (o : Option String) (e : Engine)
    → Settled e
    → Settled (apply_changes env unnamed a parts o e).0
unfolding apply_changes
apply_changes-Settled env unnamed a [] o e h = h
apply_changes-Settled env unnamed a (p ∷ parts) none e h = h
apply_changes-Settled env unnamed a (p ∷ parts) (some cid) e h =
    elim (Bool-cases (any moves (p ∷ parts))) [
      | inl q ↦ rw (q) (reevaluate-Settled env unnamed a.uid a (p ∷ parts) cid e h)
      | inr q ↦
          rw (q) (assign_cluster-AllEnd env unnamed (members_of e cid) (store_alert a.uid a e) h)
    ]

revise_live-Settled :
    (env : Environment) (unnamed : ℕ → String) (a : NormalizedAlert) (o : Option NormalizedAlert)
    (e : Engine)
    → Settled e
    → Settled (revise_live env unnamed a o e).0
unfolding revise_live
revise_live-Settled env unnamed a none e h = h
revise_live-Settled env unnamed a (some old) e h =
    apply_changes-Settled env unnamed a (what_changed old a) (get a.uid e.cluster_of_alert) e h

revise-Settled :
    (env : Environment) (unnamed : ℕ → String) (a : NormalizedAlert) (e : Engine)
    → Settled e
    → Settled (revise env unnamed a e).0
unfolding revise swap_buffered
revise-Settled env unnamed a e h = elim (Bool-cases (contains e.buffered_uids a.uid)) [
  | inl p ↦ rw (p) h
  | inr p ↦ rw (p) (revise_live-Settled env unnamed a (get a.uid e.alerts) e h)
]

drop_alerts-clusters :
    (uids : List String) (e : Engine) → (drop_alerts uids e).clusters ≡ e.clusters
unfolding drop_alerts
drop_alerts-clusters [] e = refl
drop_alerts-clusters (uid ∷ uids) e = drop_alerts-clusters uids _

drop_clusters-Settled :
    (doomed : List Cluster) (e : Engine) → Settled e → Settled (drop_clusters doomed e)
unfolding drop_clusters
drop_clusters-Settled [] e h = h
drop_clusters-Settled (c ∷ doomed) e h =
    drop_clusters-Settled doomed _
      (pop-AllEnd _ c.cluster_id (subst AllEnd (sym (drop_alerts-clusters c.alert_uids e)) h))

drop_ids-AllEnd : (ids : List String) (d : Dict String Cluster) → AllEnd d → AllEnd (drop_ids ids d)
unfolding drop_ids
drop_ids-AllEnd [] d h = h
drop_ids-AllEnd (cid ∷ ids) d h = drop_ids-AllEnd ids (pop cid d) (pop-AllEnd d cid h)

prune_before-Settled : (cutoff : ℕ) (e : Engine) → Settled e → Settled (prune_before cutoff e).0
unfolding prune_before prune
prune_before-Settled cutoff e h =
    let doomed = doomed_clusters cutoff e.clusters in
    elim (Bool-cases (ltb 0 (length doomed))) [
      | inl p ↦ rw (p) (
          drop_ids-AllEnd (loser_ids doomed (drop_clusters doomed e).clusters)
            (drop_clusters doomed e).clusters (drop_clusters-Settled doomed e h))
      | inr p ↦ rw (p) h
    ]

perform-Settled : (s : Setting) (op : Operation) (e : Engine) → Settled e → Settled (perform s op e)
unfolding perform
perform-Settled s (adding a) e h = add-Settled s.invent a e h
perform-Settled s (evaluating flush) e h = evaluate-Settled s.env s.unnamed flush e h
perform-Settled s (revising a) e h = revise-Settled s.env s.unnamed a e h
perform-Settled s (pruning cutoff) e h = prune_before-Settled cutoff e h
perform-Settled s (preloading anchors counters) e h = h

run-Settled : (s : Setting) (ops : List Operation) (e : Engine) → Settled e → Settled (run s ops e)
unfolding run
run-Settled s [] e h = h
run-Settled s (op ∷ ops) e h = run-Settled s ops (perform s op e) (perform-Settled s op e h)

-- Whatever operations run from a new engine, _live_cluster ends for every chain, after at most as many
-- steps as there are chains, at one whose merged_into is empty or that is no longer there.
pub run-IsEnd :
    (s : Setting) (ops : List Operation) (window grace : ℕ) (resolver : Resolver) (cid : String)
    → IsEnd
        (run s ops (new_engine window grace resolver))
        (live (run s ops (new_engine window grace resolver)) cid)
unfolding new_engine pointer get
run-IsEnd s ops window grace resolver cid =
    let e = run s ops (new_engine window grace resolver) in
    let (n, end) = run-Settled s ops (new_engine window grace resolver) (λ c. (0, stop refl)) cid in
    live_cluster-IsEnd (suc (length e.clusters)) e n cid end
      (omega (arith, Ends-bound n e.clusters cid end))

-- ===== src/Correlate/Engine/Review.antt =====
-- What revise changes: nothing but the resolver where the alert goes to review, and no other alert ever.
use log_lookup_ai.Prelude.{
  ℕ, String, Bool, true, false, ◌≡◌, refl, ap, ◌∙◌, subst, ◌⊎◌, inl, inr, Option, none, some, List,
  [], ◌∷◌, length, keep, any, contains, not, ltb, ◌&&◌, string_eq, ◌==◌, Bool-cases, arith,
  text_iff,
}
use log_lookup_ai.Prelude.Dict.{Dict, get, put, get-put}
use log_lookup_ai.Correlate.Alerts.{NormalizedAlert}
use log_lookup_ai.Correlate.Entities.{Resolution}
use log_lookup_ai.Correlate.Entities.Anchoring.{IsAnchored, resolve-IsAnchored}
use log_lookup_ai.Correlate.Engine.{Environment, Engine, place_found, place_alert, insert_alert}
use log_lookup_ai.Correlate.Engine.Changes.{Part, moves, what_changed}
use log_lookup_ai.Correlate.Engine.Revisions.{
  Revision, buffered, unknown, unchanged, rescored, reclustered, review, live, detach,
  replace_alert, neighbours_if_placed, is_of_chain, keep_chain, reevaluate, swap_buffered,
  apply_changes, revise_live, revise, members_of, store_alert,
}
use log_lookup_ai.Correlate.Engine.Pruning.{has_alert, is_there}
use log_lookup_ai.Correlate.Engine.Unmoved.{
  Ground, ground_of, assign_cluster-ground, rebuild_clusters-ground,
}
use log_lookup_ai.Correlate.Engine.Watermark.{insert_into-alerts}

unfoldable pub is_review : Revision → Bool
is_review buffered = false
is_review unknown = false
is_review (unchanged o) = false
is_review (rescored o parts) = false
is_review (reclustered o parts) = false
is_review (review cid parts reason) = true

-- The engine is the same but for its resolver.
abbrev pub SameBut : Engine → Engine → Type 0
SameBut e e' = record e' { resolver = e.resolver } ≡ e

keep_chain-review :
    (env : Environment) (unnamed : ℕ → String) (uid : String) (a : NormalizedAlert)
    (parts : List Part) (cid : String) (e : Engine)
    → is_review (keep_chain env unnamed uid a parts cid e).1 ≡ true
    → SameBut e (keep_chain env unnamed uid a parts cid e).0
unfolding keep_chain neighbours_if_placed replace_alert is_review
keep_chain-review env unnamed uid a parts cid e =
    let (e', near) = neighbours_if_placed env a e in
    elim (Bool-cases (any (is_of_chain e' (live e' cid)) near)) [
      | inl p ↦ rw (p) (λ h. absurd (ground arith))
      | inr p ↦ rw (p) (λ h. refl)
    ]

reevaluate-review :
    (env : Environment) (unnamed : ℕ → String) (uid : String) (a : NormalizedAlert)
    (parts : List Part) (cid : String) (e : Engine)
    → is_review (reevaluate env unnamed uid a parts cid e).1 ≡ true
    → SameBut e (reevaluate env unnamed uid a parts cid e).0
unfolding reevaluate replace_alert is_review
reevaluate-review env unnamed uid a parts cid e =
    let others = keep (λ (n : String). not (n == uid)) (members_of e cid) in
    elim (Bool-cases (ltb 1 (length others) && ltb 1 (env.components_of e.edges others))) [
      | inl p ↦ rw (p) (λ h. refl)
      | inr p ↦ rw (p) (elim (Bool-cases (ltb 0 (length others))) [
        | inl q ↦ rw (q) (keep_chain-review env unnamed uid a parts cid e)
        | inr q ↦ rw (q) (λ h. absurd (ground arith))
      ])
    ]

apply_changes-review :
    (env : Environment) (unnamed : ℕ → String) (a : NormalizedAlert) (parts : List Part)
    (o : Option String) (e : Engine)
    → is_review (apply_changes env unnamed a parts o e).1 ≡ true
    → SameBut e (apply_changes env unnamed a parts o e).0
unfolding apply_changes is_review
apply_changes-review env unnamed a [] o e = λ h. absurd (ground arith)
apply_changes-review env unnamed a (p ∷ parts) none e = λ h. refl
apply_changes-review env unnamed a (p ∷ parts) (some cid) e =
    elim (Bool-cases (any moves (p ∷ parts))) [
      | inl q ↦ rw (q) (reevaluate-review env unnamed a.uid a (p ∷ parts) cid e)
      | inr q ↦ rw (q) (λ h. absurd (ground arith))
    ]

revise_live-review :
    (env : Environment) (unnamed : ℕ → String) (a : NormalizedAlert) (o : Option NormalizedAlert)
    (e : Engine)
    → is_review (revise_live env unnamed a o e).1 ≡ true
    → SameBut e (revise_live env unnamed a o e).0
unfolding revise_live
revise_live-review env unnamed a none e h = refl
revise_live-review env unnamed a (some old) e h =
    apply_changes-review env unnamed a (what_changed old a) (get a.uid e.cluster_of_alert) e h

-- Where revise answers that an alert goes to review, it has changed nothing of the engine but the
-- resolver.
pub revise-review :
    (env : Environment) (unnamed : ℕ → String) (a : NormalizedAlert) (e : Engine)
    → is_review (revise env unnamed a e).1 ≡ true
    → SameBut e (revise env unnamed a e).0
unfolding revise is_review
revise-review env unnamed a e = elim (Bool-cases (contains e.buffered_uids a.uid)) [
  | inl p ↦ rw (p) (λ h. absurd (ground arith))
  | inr p ↦ rw (p) (revise_live-review env unnamed a (get a.uid e.alerts) e)
]

-- Of the alerts, none but the revised one may differ, and that one is the new version.
abbrev pub IsRevised : NormalizedAlert → Engine → Engine → Type 0
IsRevised a e e' = (e'.alerts ≡ e.alerts) ⊎ (e'.alerts ≡ put a.uid a e.alerts)

place_found-alerts :
    (time : ℕ) (uid : String) (a : NormalizedAlert) (o : Option Resolution) (e : Engine)
    → IsAnchored o
    → (place_found time uid a o e).alerts ≡ put uid a e.alerts
unfolding place_found place_alert
place_found-alerts time uid a none e h = elim h [ ]
place_found-alerts time uid a (some found) e h = insert_into-alerts (time, uid) found.entities _

replace_alert-alerts :
    (env : Environment) (unnamed : ℕ → String) (uid : String) (a : NormalizedAlert)
    (parts : List Part) (e : Engine)
    → (replace_alert env unnamed uid a parts e).0.alerts ≡ put uid a e.alerts
unfolding replace_alert insert_alert detach ground_of
replace_alert-alerts env unnamed uid a parts e =
    ap (λ (g : Ground). g.alerts)
      (rebuild_clusters-ground env unnamed (uid ∷ [])
        (insert_alert env a.time uid a (detach uid e)))
    ∙ place_found-alerts a.time uid a _ _ (resolve-IsAnchored env.texts a e.resolver)

keep_chain-IsRevised :
    (env : Environment) (unnamed : ℕ → String) (a : NormalizedAlert) (parts : List Part)
    (cid : String) (e : Engine)
    → IsRevised a e (keep_chain env unnamed a.uid a parts cid e).0
unfolding keep_chain neighbours_if_placed
keep_chain-IsRevised env unnamed a parts cid e =
    let (e', near) = neighbours_if_placed env a e in
    elim (Bool-cases (any (is_of_chain e' (live e' cid)) near)) [
      | inl p ↦ rw (p) (inr (replace_alert-alerts env unnamed a.uid a parts e'))
      | inr p ↦ rw (p) (inl refl)
    ]

reevaluate-IsRevised :
    (env : Environment) (unnamed : ℕ → String) (a : NormalizedAlert) (parts : List Part)
    (cid : String) (e : Engine)
    → IsRevised a e (reevaluate env unnamed a.uid a parts cid e).0
unfolding reevaluate
reevaluate-IsRevised env unnamed a parts cid e =
    let others = keep (λ (n : String). not (n == a.uid)) (members_of e cid) in
    elim (Bool-cases (ltb 1 (length others) && ltb 1 (env.components_of e.edges others))) [
      | inl p ↦ rw (p) (inl refl)
      | inr p ↦ rw (p) (elim (Bool-cases (ltb 0 (length others))) [
        | inl q ↦ rw (q) (keep_chain-IsRevised env unnamed a parts cid e)
        | inr q ↦ rw (q) (inr (replace_alert-alerts env unnamed a.uid a parts e))
      ])
    ]

apply_changes-IsRevised :
    (env : Environment) (unnamed : ℕ → String) (a : NormalizedAlert) (parts : List Part)
    (o : Option String) (e : Engine)
    → IsRevised a e (apply_changes env unnamed a parts o e).0
unfolding apply_changes ground_of
apply_changes-IsRevised env unnamed a [] o e = inr refl
apply_changes-IsRevised env unnamed a (p ∷ parts) none e = inl refl
apply_changes-IsRevised env unnamed a (p ∷ parts) (some cid) e =
    elim (Bool-cases (any moves (p ∷ parts))) [
      | inl q ↦ rw (q) (reevaluate-IsRevised env unnamed a (p ∷ parts) cid e)
      | inr q ↦ rw (q) (
          inr (
            ap (λ (g : Ground). g.alerts)
              (assign_cluster-ground env unnamed (members_of e cid) (store_alert a.uid a e))))
    ]

put-there :
    (uid other : String) (a old : NormalizedAlert) (d : Dict String NormalizedAlert)
    → get other d ≡ some old
    → is_there (get uid (put other a d)) ≡ is_there (get uid d)
unfolding is_there
put-there uid other a old d at = elim (Bool-cases (other == uid)) [
  | inl q ↦
      let r : get uid d ≡ some old =
        subst (λ k. get k d ≡ some old) ((text_iff other uid).0 q) at in
      rw (get-put other uid a d, q, r) refl
  | inr q ↦ rw (get-put other uid a d, q) refl
]

-- What is exchanged keeps the uids.
IsRevised-has :
    (a old : NormalizedAlert) (e e' : Engine) (uid : String)
    → get a.uid e.alerts ≡ some old
    → IsRevised a e e'
    → has_alert e' uid ≡ has_alert e uid
unfolding has_alert
IsRevised-has a old e e' uid at (inl p) = ap (λ d. is_there (get uid d)) p
IsRevised-has a old e e' uid at (inr p) =
    ap (λ d. is_there (get uid d)) p ∙ put-there uid a.uid a old e.alerts at

revise_live-alerts :
    (env : Environment) (unnamed : ℕ → String) (a : NormalizedAlert) (o : Option NormalizedAlert)
    (e : Engine) (uid : String)
    → get a.uid e.alerts ≡ o
    → has_alert (revise_live env unnamed a o e).0 uid ≡ has_alert e uid
unfolding revise_live
revise_live-alerts env unnamed a none e uid at = refl
revise_live-alerts env unnamed a (some old) e uid at =
    IsRevised-has a old e _ uid at
      (apply_changes-IsRevised env unnamed a (what_changed old a) (get a.uid e.cluster_of_alert) e)

-- revise does not add or drop an alert: only an alert that was there is exchanged.
pub revise-alerts :
    (env : Environment) (unnamed : ℕ → String) (a : NormalizedAlert) (e : Engine) (uid : String)
    → has_alert (revise env unnamed a e).0 uid ≡ has_alert e uid
unfolding revise swap_buffered has_alert
revise-alerts env unnamed a e uid = elim (Bool-cases (contains e.buffered_uids a.uid)) [
  | inl p ↦ rw (p) refl
  | inr p ↦ rw (p) (revise_live-alerts env unnamed a (get a.uid e.alerts) e uid refl)
]

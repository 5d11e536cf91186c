-- ===== src/Correlate/Engine/Watermark.antt =====
-- The watermark: what evaluate correlates and what it keeps back.
use log_lookup_ai.Prelude.{
  ℕ, ◌+◌, ◌≤◌, ◌<◌, String, Bool, true, false, ◌≡◌, refl, sym, ap, ◌∙◌, subst, ◌⊎◌, inl, inr,
  Option, none, some, List, [], ◌∷◌, map, not, string_eq, nat_eq, ◌==◌, text_refl, leb, leb→le,
  keep, Bool-cases, arith,
}
use log_lookup_ai.Prelude.Dict.{Dict, get, put, get-put}
use log_lookup_ai.Prelude.Order.{Moment}
use log_lookup_ai.Correlate.Alerts.{NormalizedAlert}
use log_lookup_ai.Correlate.Entities.{Resolution}
use log_lookup_ai.Correlate.Entities.Resolving.{resolve}
use log_lookup_ai.Correlate.Entities.Anchoring.{IsAnchored, anchored, resolve-IsAnchored}
use log_lookup_ai.Correlate.Engine.{
  Environment, Item, Engine, insert_into, place_found, place_alert, insert_alert,
}
use log_lookup_ai.Correlate.Engine.Evaluation.{
  is_ready, take_until, take_ready, insert_items, correlate, evaluate,
}
use log_lookup_ai.Correlate.Engine.Unmoved.{Ground, ground_of, rebuild_clusters-ground}

-- An item of a list.
pub data Among (x : Item) : List Item → Type 0 where
  first : {y : Item} {xs : List Item} → x ≡ y → Among x (y ∷ xs)
  next : {y : Item} {xs : List Item} → Among x xs → Among x (y ∷ xs)

keep-Among :
    (test : Item → Bool) (x : Item) (xs : List Item)
    → test x ≡ true
    → Among x xs
    → Among x (keep test xs)
unfolding keep
keep-Among test x [] h i = elim i [ ]
keep-Among test x (y ∷ xs) h (first e) = rw (sym (ap test e) ∙ h) (first e)
keep-Among test x (y ∷ xs) h (next i) = elim (Bool-cases (test y)) [
  | inl p ↦ rw (p) (next (keep-Among test x xs h i))
  | inr p ↦ rw (p) (keep-Among test x xs h i)
]

-- There is an alert with the uid.
abbrev pub Has : String → Engine → Type 0
Has uid e = (a : NormalizedAlert) × (get uid e.alerts ≡ some a)

pub insert_into-alerts :
    (m : Moment) (entities : List ℕ) (e : Engine) → (insert_into m entities e).alerts ≡ e.alerts
unfolding insert_into
insert_into-alerts m [] e = refl
insert_into-alerts m (entity ∷ entities) e = insert_into-alerts m entities _

put-Has :
    (uid other : String) (a : NormalizedAlert) (d : Dict String NormalizedAlert)
    → (b : NormalizedAlert) × (get uid d ≡ some b)
    → (b : NormalizedAlert) × (get uid (put other a d) ≡ some b)
put-Has uid other a d (b, h) = elim (Bool-cases (other == uid)) [
  | inl p ↦ (a, rw (get-put other uid a d, p) refl)
  | inr p ↦ (b, rw (get-put other uid a d, p) h)
]

place_found-old :
    (time : ℕ) (uid other : String) (a : NormalizedAlert) (o : Option Resolution) (e : Engine)
    → Has uid e
    → Has uid (place_found time other a o e)
unfolding place_found place_alert
place_found-old time uid other a none e h = h
place_found-old time uid other a (some found) e h =
    rw (insert_into-alerts (time, other) found.entities _) (put-Has uid other a e.alerts h)

place_found-new :
    (time : ℕ) (uid : String) (a : NormalizedAlert) (o : Option Resolution) (e : Engine)
    → IsAnchored o
    → Has uid (place_found time uid a o e)
unfolding place_found place_alert
place_found-new time uid a none e h = elim h [ ]
place_found-new time uid a (some found) e (anchored _ h) =
    rw (insert_into-alerts (time, uid) found.entities _)
      (a, rw (get-put uid uid a e.alerts, text_refl uid) refl)

insert_items-old :
    (env : Environment) (uid : String) (items : List Item) (e : Engine)
    → Has uid e
    → Has uid (insert_items env items e)
unfolding insert_items insert_alert
insert_items-old env uid [] e h = h
insert_items-old env uid (x ∷ items) e h =
    let (resolver, answer) = resolve env.texts x.alert e.resolver in
    insert_items-old env uid items _
      (place_found-old x.time uid x.uid x.alert answer (record e { resolver = resolver }) h)

insert_items-new :
    (env : Environment) (x : Item) (items : List Item) (e : Engine)
    → Among x items
    → Has x.uid (insert_items env items e)
unfolding insert_items insert_alert
insert_items-new env x [] e i = elim i [ ]
insert_items-new env x (y ∷ items) e (first p) =
    let (resolver, answer) = resolve env.texts y.alert e.resolver in
    insert_items-old env x.uid items _ (
      subst
        (λ (u : String).
          Has u (place_found y.time y.uid y.alert answer (record e { resolver = resolver })))
        (sym (ap (λ (z : Item). z.uid) p))
        (place_found-new y.time y.uid y.alert answer (record e { resolver = resolver })
          (resolve-IsAnchored env.texts y.alert e.resolver)))
insert_items-new env x (y ∷ items) e (next i) = insert_items-new env x items _ i

insert_into-buffer :
    (m : Moment) (entities : List ℕ) (e : Engine) → (insert_into m entities e).buffer ≡ e.buffer
unfolding insert_into
insert_into-buffer m [] e = refl
insert_into-buffer m (entity ∷ entities) e = insert_into-buffer m entities _

place_found-buffer :
    (time : ℕ) (uid : String) (a : NormalizedAlert) (o : Option Resolution) (e : Engine)
    → (place_found time uid a o e).buffer ≡ e.buffer
unfolding place_found place_alert
place_found-buffer time uid a none e = refl
place_found-buffer time uid a (some found) e = insert_into-buffer (time, uid) found.entities _

insert_items-buffer :
    (env : Environment) (items : List Item) (e : Engine)
    → (insert_items env items e).buffer ≡ e.buffer
unfolding insert_items insert_alert
insert_items-buffer env [] e = refl
insert_items-buffer env (x ∷ items) e =
    let (resolver, answer) = resolve env.texts x.alert e.resolver in
    insert_items-buffer env items
      (place_found x.time x.uid x.alert answer (record e { resolver = resolver }))
    ∙ place_found-buffer x.time x.uid x.alert answer (record e { resolver = resolver })

correlate-Has :
    (env : Environment) (unnamed : ℕ → String) (x : Item) (ready : List Item) (e : Engine)
    → Among x ready
    → Has x.uid (correlate env unnamed ready e)
unfolding correlate ground_of
correlate-Has env unnamed x ready e i =
    subst (λ (g : Ground). (a : NormalizedAlert) × (get x.uid g.alerts ≡ some a))
      (sym (
        rebuild_clusters-ground env unnamed (map (λ (y : Item). y.uid) ready)
          (insert_items env ready e)))
      (insert_items-new env x ready e i)

correlate-buffer :
    (env : Environment) (unnamed : ℕ → String) (ready : List Item) (e : Engine)
    → (correlate env unnamed ready e).buffer ≡ e.buffer
unfolding correlate ground_of
correlate-buffer env unnamed ready e =
    ap (λ (g : Ground). g.buffer)
      (rebuild_clusters-ground env unnamed (map (λ (y : Item). y.uid) ready)
        (insert_items env ready e))
    ∙ insert_items-buffer env ready e

-- What becomes of a buffered alert: it is correlated if its time is not later than the watermark, and
-- stays in the buffer otherwise.
abbrev pub IsSettled : ℕ → Item → Engine → Engine → Type 0
IsSettled latest x e e' =
    (x.time + e.grace_ms ≤ latest × Has x.uid e')
    ⊎ (latest < x.time + e.grace_ms × Among x e'.buffer)

-- evaluate behind the watermark loses no alert: each one that is buffered is among the correlated alerts
-- afterwards if its time is at most the latest time less the grace, and is still in the buffer if it is
-- later.
pub evaluate-IsSettled :
    (env : Environment) (unnamed : ℕ → String) (x : Item) (latest : ℕ) (e : Engine)
    → e.max_event_time_ms ≡ some latest
    → Among x e.buffer
    → IsSettled latest x e (evaluate env unnamed false e)
unfolding evaluate take_ready take_until is_ready
evaluate-IsSettled env unnamed x latest e at i =
    rw (at) (elim (Bool-cases (leb (x.time + e.grace_ms) latest)) [
      | inl p ↦ inl (
        leb→le _ _ p,
        correlate-Has env unnamed x _ _ (keep-Among (is_ready e.grace_ms latest) x e.buffer p i),
      )
      | inr p ↦ inr (
        ground arith,
        rw (correlate-buffer env unnamed _ _)
            (keep-Among (λ (y : Item). not (is_ready e.grace_ms latest y)) x e.buffer (ap not p) i),
      )
    ])

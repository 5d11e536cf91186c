-- ===== src/Correlate/Engine/Arrival.antt =====
-- CorrelationEngine.add of engine/correlate/engine.py: the order in which alerts arrive and the buffer.
use log_lookup_ai.Prelude.{
  ℕ, String, true, false, ◌≡◌, ◌≢◌, refl, sym, ap, inl, inr, Option, none, some, List, [], ◌∷◌,
  string_eq, text_iff, if◌then◌else◌, contains, Bool-cases, arith, Option-cases,
}
use log_lookup_ai.Prelude.Dict.{get}
use log_lookup_ai.Prelude.Order.{before, before_trans, before_total, before_asym}
use log_lookup_ai.Correlate.Alerts.{NormalizedAlert}
use log_lookup_ai.Correlate.Engine.{
  Item, Engine, moment_of, insort_item, later_of, is_known, buffer_alert, uid_of, add,
}

-- Of two different moments, one is before the other.
before_or :
    (x y : Item)
    → x.uid ≢ y.uid
    → before (moment_of x) (moment_of y) ≡ false
    → before (moment_of y) (moment_of x) ≡ true
before_or x y differ h = elim (Bool-cases (before (moment_of y) (moment_of x))) [
  | inl p ↦ p
  | inr q ↦
      absurd (differ (ap (λ (m : ℕ × String). m.1) (before_total (moment_of x) (moment_of y) h q)))
]

insort_item-insort_item :
    (x y : Item) (xs : List Item)
    → x.uid ≢ y.uid
    → insort_item x (insort_item y xs) ≡ insort_item y (insort_item x xs)
unfolding insort_item
insort_item-insort_item x y [] differ =
    ground (arith, before_or x y differ, before_asym (moment_of x) (moment_of y))
insort_item-insort_item x y (z ∷ xs) differ = ground (
  arith,
  before_or x y differ,
  before_asym (moment_of x) (moment_of y),
  before_trans (moment_of x) (moment_of y) (moment_of z),
  before_trans (moment_of y) (moment_of x) (moment_of z),
  insort_item-insort_item x y xs differ,
)

later_of-later_of : (o : Option ℕ) (s t : ℕ) → later_of (later_of o s) t ≡ later_of (later_of o t) s
later_of-later_of none s t = ground arith
later_of-later_of (some n) s t = ground arith

is_known-buffer :
    (uid other : String) (a : NormalizedAlert) (e : Engine)
    → uid ≢ other
    → is_known uid (buffer_alert other a e) ≡ is_known uid e
unfolding is_known buffer_alert contains
is_known-buffer uid other a e differ =
    ground (arith, text_iff other uid, Option-cases (get uid e.alerts))

add_lem :
    (invent : ℕ → String) (a : NormalizedAlert) (e : Engine)
    → a.uid ≢ ""
    → add invent a e ≡ (if is_known a.uid e then e else buffer_alert a.uid a e)
unfolding add uid_of
add_lem invent a e named = ground (arith, text_iff a.uid "")

both_added :
    (a b : NormalizedAlert) (e : Engine)
    → a.uid ≢ b.uid
    → ((buffer_alert a.uid a (buffer_alert b.uid b e)).buffer
        ≡ (buffer_alert b.uid b (buffer_alert a.uid a e)).buffer)
      × ((buffer_alert a.uid a (buffer_alert b.uid b e)).max_event_time_ms
          ≡ (buffer_alert b.uid b (buffer_alert a.uid a e)).max_event_time_ms)
unfolding buffer_alert
both_added a b e differ = (
  insort_item-insort_item _ _ e.buffer differ,
  later_of-later_of e.max_event_time_ms b.time a.time,
)

-- Two alerts that have uids, neither of them empty and the two different, leave the same buffer and the
-- same latest time in whichever order they arrive.
pub add-add :
    (invent : ℕ → String) (a b : NormalizedAlert) (e : Engine)
    → a.uid ≢ ""
    → b.uid ≢ ""
    → a.uid ≢ b.uid
    → ((add invent a (add invent b e)).buffer ≡ (add invent b (add invent a e)).buffer)
      × ((add invent a (add invent b e)).max_event_time_ms
          ≡ (add invent b (add invent a e)).max_event_time_ms)
add-add invent a b e a_named b_named differ =
    rw
      (
        add_lem invent a (add invent b e) a_named,
        add_lem invent b (add invent a e) b_named,
        add_lem invent a e a_named,
        add_lem invent b e b_named,
      )
      (elim (Bool-cases (is_known a.uid e)) [
        | inl p ↦ elim (Bool-cases (is_known b.uid e)) [
          | inl q ↦ simp (p, q) (refl, refl)
          | inr q ↦ simp (p, q, is_known-buffer a.uid b.uid b e differ) (refl, refl)
        ]
        | inr p ↦ elim (Bool-cases (is_known b.uid e)) [
          | inl q ↦ simp (p, q, is_known-buffer b.uid a.uid a e (λ f. differ (sym f))) (refl, refl)
          | inr q ↦
              simp
                (
                  p,
                  q,
                  is_known-buffer a.uid b.uid b e differ,
                  is_known-buffer b.uid a.uid a e (λ f. differ (sym f)),
                )
                (both_added a b e differ)
        ]
      ])

-- ===== src/Store/WorkQueue/Attempts.antt =====
-- What a failed attempt of engine/store/workqueue.py leads to.
use log_lookup_ai.Prelude.{
  ℕ, ◌+◌, ◌≤◌, ◌<◌, ◌≡◌, refl, ap, ◌∙◌, sym, ◌⊎◌, inl, inr, ◌↔◌, String, true, false, Option, none,
  some, List, [], ◌∷◌, arith, if◌then◌else◌, leb, leb→le, Bool-cases,
}
use log_lookup_ai.Store.Records.{failed_retryable, quarantined, WorkItem, Store}
use log_lookup_ai.Store.WorkQueue.{
  max_attempts, seconds, same_item, update_item, is_ready, attempts_of, failed_state, backoff,
  failed_item, fail,
}

-- The row of an item.
abbrev pub item_row : WorkItem → List WorkItem → Option WorkItem
item_row item [] = none
item_row item (row ∷ rows) = if same_item item row then some row else item_row item rows

attempts_lem :
    (item : WorkItem) (rows : List WorkItem) (row : WorkItem)
    → item_row item rows ≡ some row
    → attempts_of item rows ≡ row.attempts
unfolding attempts_of
attempts_lem item [] row h = cc
attempts_lem item (r ∷ rows) row h = elim (Bool-cases (same_item item r)) [
  | inl e ↦
      let q : some r ≡ some row = sym (rw e refl) ∙ h in
      let p : r ≡ row = cc in rw e (ap WorkItem.attempts p)
  | inr e ↦ rw e (attempts_lem item rows row (sym (rw e refl) ∙ h))
]

row_update :
    (item : WorkItem) (f : WorkItem → WorkItem) (rows : List WorkItem) (row : WorkItem)
    → ((r : WorkItem) → same_item item (f r) ≡ same_item item r)
    → item_row item rows ≡ some row
    → item_row item (update_item item f rows) ≡ some (f row)
unfolding update_item
row_update item f [] row same h = cc
row_update item f (r ∷ rows) row same h = elim (Bool-cases (same_item item r)) [
  | inl e ↦
      let q : some r ≡ some row = sym (rw e refl) ∙ h in
      let p : r ≡ row = cc in rw (e, same r, e) (ap (λ x. some (f x)) p)
  | inr e ↦ rw (e, e) (row_update item f rows row same (sym (rw e refl) ∙ h))
]

-- What the row of a failed item is like after `a` attempts: given up for good, or tried again when
-- the backoff is over.
abbrev pub Retried : ℕ → ℕ → WorkItem → Type 0
Retried now a row =
    ((max_attempts ≤ a) × (row.state ≡ quarantined) × ((later : ℕ) → is_ready later row ≡ false))
    ⊎ ((a < max_attempts)
        × (row.state ≡ failed_retryable)
        × ((later : ℕ) → (is_ready later row ≡ true) ↔ (now + seconds (backoff a) ≤ later)))

failed_item-Retried :
    (now a : ℕ) (code : String) (row : WorkItem) → Retried now a (failed_item now a code row)
unfolding failed_item failed_state is_ready
failed_item-Retried now a code row = elim (Bool-cases (leb max_attempts a)) [
  | inl e ↦ inl (leb→le max_attempts a e, rw e refl, λ later. rw e refl)
  | inr e ↦ inr (ground arith, rw e refl, λ later. rw e (λ h. leb→le _ later h, λ h. ground arith))
]

-- After `fail`, the row of the item is quarantined and never ready again if MAX_ATTEMPTS attempts
-- were made; otherwise it is `failed_retryable`, and ready exactly from the end of the backoff on.
pub fail-Retried :
    (cut : String → String) (now : ℕ) (item : WorkItem) (code : String) (s : Store) (row : WorkItem)
    → item_row item s.work_items ≡ some row
    → (after : WorkItem) × (item_row item (fail cut now item code s).0.work_items ≡ some after)
      × Retried now row.attempts after
      × (after.state ≡ (fail cut now item code s).1)
unfolding fail
fail-Retried cut now item code s row found =
    let a = attempts_lem item s.work_items row found in
    (
      failed_item now (attempts_of item s.work_items) (cut code) row,
      row_update item (failed_item now (attempts_of item s.work_items) (cut code)) s.work_items row
          (λ r. unfold failed_item same_item in refl) found,
      rw a (failed_item-Retried now row.attempts (cut code) row),
      unfold failed_item in refl,
    )

-- ===== src/Store/WorkQueue/Leases.antt =====
-- What the leases of engine/store/workqueue.py ensure.
use log_lookup_ai.Prelude.{
  ℕ, zero, suc, ◌+◌, ◌≤◌, ◌≡◌, refl, ap, ◌∙◌, sym, inl, inr, Bool, true, false, Option, some, List,
  [], ◌∷◌, map, arith, string_eq, nat_eq, if◌then◌else◌, leb, keep, any, All, length, Bool-cases,
}
use log_lookup_ai.Store.Records.{EventRevision, claimed, WorkItem, Store}
use log_lookup_ai.Store.WorkQueue.{
  seconds, same_item, update_item, is_ready, insert_by_age, by_age, limited, ready_items, leased,
  claim_items, snapshot, claim_batch,
}

-- What the UPDATEs of a claim make of one row.
unfoldable held : ℕ → List WorkItem → WorkItem → WorkItem
held lease [] row = row
held lease (item ∷ items) row =
    held lease items (if same_item item row then leased lease row else row)

claim_items_lem :
    (lease : ℕ) (items rows : List WorkItem)
    → claim_items lease items rows ≡ map (held lease items) rows
unfolding claim_items held
claim_items_lem lease [] rows = same rows
  where
    same : (rs : List WorkItem) → rs ≡ map (held lease []) rs
    same [] = refl
    same (r ∷ rs) = ap (λ xs. r ∷ xs) (same rs)
claim_items_lem lease (item ∷ items) rows =
    claim_items_lem lease items (update_item item (leased lease) rows) ∙ push rows
  where
    push :
        (rs : List WorkItem)
        → map (held lease items) (update_item item (leased lease) rs)
          ≡ map (held lease (item ∷ items)) rs
    push [] = unfold update_item in refl
    push (r ∷ rs) = unfold update_item in ap (λ xs. held lease (item ∷ items) r ∷ xs) (push rs)

-- The lease that a claim gives.
record Held (lease : ℕ) (row : WorkItem) : Type 0 where
  state : row.state ≡ claimed
  until : row.lease_until ≡ some lease

leased-Held : (lease : ℕ) (row : WorkItem) → Held lease (leased lease row)
unfolding leased
leased-Held lease row = record { state = refl; until = refl }

Held-step :
    (lease : ℕ) (item row : WorkItem)
    → Held lease row
    → Held lease (if same_item item row then leased lease row else row)
Held-step lease item row h = elim (Bool-cases (same_item item row)) [
  | inl e ↦ rw e (leased-Held lease row)
  | inr e ↦ rw e h
]

held_on :
    (lease : ℕ) (items : List WorkItem) (row : WorkItem)
    → Held lease row
    → Held lease (held lease items row)
unfolding held
held_on lease [] row h = h
held_on lease (item ∷ items) row h = held_on lease items _ (Held-step lease item row h)

step_key :
    (lease : ℕ) (b : Bool) (other row : WorkItem)
    → same_item other (if b then leased lease row else row) ≡ same_item other row
unfolding leased same_item
step_key lease true other row = refl
step_key lease false other row = refl

held_key :
    (lease : ℕ) (items : List WorkItem) (other row : WorkItem)
    → same_item other (held lease items row) ≡ same_item other row
unfolding held
held_key lease [] other row = refl
held_key lease (item ∷ items) other row =
    held_key lease items other _ ∙ step_key lease (same_item item row) other row

-- A row of a claimed item is held.
held_hit :
    (lease : ℕ) (items : List WorkItem) (row : WorkItem)
    → any (λ (item : WorkItem). same_item item row) items ≡ true
    → Held lease (held lease items row)
unfolding held any
held_hit lease [] row h = cc
held_hit lease (item ∷ items) row h = elim (Bool-cases (same_item item row)) [
  | inl e ↦ rw e (held_on lease items _ (leased-Held lease row))
  | inr e ↦ rw e (held_hit lease items row (sym (rw e refl) ∙ h))
]

Held-unready :
    (lease now : ℕ) (row : WorkItem) → Held lease row → now ≤ lease → is_ready now row ≡ false
unfolding is_ready
Held-unready lease now row h in_time = rw (h.state, h.until) (ground arith)

-- What holds of the rows holds of those that are selected.
module _ {ℓ} (P : WorkItem → Type ℓ) where
  All-keep :
      (test : WorkItem → Bool) (rows : List WorkItem)
      → All (λ row. test row ≡ true → P row) rows
      → All P (keep test rows)
  unfolding keep
  All-keep test [] h = tt
  All-keep test (row ∷ rows) h = elim (Bool-cases (test row)) [
    | inl e ↦ rw e (h.0 e, All-keep test rows h.1)
    | inr e ↦ rw e (All-keep test rows h.1)
  ]

  All-insert :
      (row : WorkItem) (rows : List WorkItem) → P row → All P rows → All P (insert_by_age row rows)
  unfolding insert_by_age
  All-insert row [] p h = (p, tt)
  All-insert row (other ∷ rows) p h = elim (Bool-cases (leb row.created_at other.created_at)) [
    | inl e ↦ rw e (p, h)
    | inr e ↦ rw e (h.0, All-insert row rows p h.1)
  ]

  All-by_age : (rows : List WorkItem) → All P rows → All P (by_age rows)
  unfolding by_age
  All-by_age [] h = tt
  All-by_age (row ∷ rows) h = All-insert row (by_age rows) h.0 (All-by_age rows h.1)

  All-limited : (n : ℕ) (rows : List WorkItem) → All P rows → All P (limited n rows)
  unfolding limited
  All-limited zero rows h = tt
  All-limited (suc n) [] h = tt
  All-limited (suc n) (row ∷ rows) h = (h.0, All-limited n rows h.1)

  All-ready_items :
      (limit now : ℕ) (rows : List WorkItem)
      → All (λ row. is_ready now row ≡ true → P row) rows
      → All P (ready_items limit now rows)
  unfolding ready_items
  All-ready_items limit now rows h =
      All-limited limit _ (All-by_age _ (All-keep (is_ready now) rows h))

length-limited : (n : ℕ) (rows : List WorkItem) → length (limited n rows) ≤ n
unfolding limited
length-limited zero rows = omega arith
length-limited (suc n) [] = omega arith
length-limited (suc n) (row ∷ rows) = omega (arith, length-limited n rows)

every : (rows : List WorkItem) (P : WorkItem → Type 0) → ((row : WorkItem) → P row) → All P rows
every [] P h = tt
every (row ∷ rows) P h = (h row, every rows P h)

-- `claim_batch` selects at most `limit` items, and each of them was ready.
ready_items-limit :
    (limit now : ℕ) (rows : List WorkItem)
    → (length (ready_items limit now rows) ≤ limit)
      × All (λ row. is_ready now row ≡ true) (ready_items limit now rows)
unfolding ready_items
ready_items-limit limit now rows = (
  length-limited limit _,
  All-ready_items (λ row. is_ready now row ≡ true) limit now rows (every rows _ (λ row h. h)),
)

-- Not one of the items.
Elsewhere : List WorkItem → WorkItem → Type 0
Elsewhere items row = any (λ (item : WorkItem). same_item item row) items ≡ false

same_any :
    (lease : ℕ) (items : List WorkItem) (row : WorkItem) (others : List WorkItem)
    → any (λ (item : WorkItem). same_item item (held lease items row)) others
      ≡ any (λ (item : WorkItem). same_item item row) others
unfolding any
same_any lease items row [] = refl
same_any lease items row (o ∷ others) =
    rw (held_key lease items o row, same_any lease items row others) refl

free_later :
    (lease later : ℕ) (items rows : List WorkItem)
    → later ≤ lease
    → All (λ row. is_ready later row ≡ true → Elsewhere items row) (map (held lease items) rows)
unfolding Elsewhere
free_later lease later items [] in_time = tt
free_later lease later items (row ∷ rows) in_time = (
  λ ready. elim (Bool-cases (any (λ (item : WorkItem). same_item item row) items)) [
    | inl hit ↦
        let no = Held-unready lease later _ (held_hit lease items row hit) in_time in cc (no, ready)
    | inr miss ↦ same_any lease items row items ∙ miss
  ],
  free_later lease later items rows in_time,
)

-- An item that a `claim_batch` returns is returned by no other `claim_batch` run next before
-- the end of its lease.
pub claim_batch-exclusive :
    (limit lease_seconds now limit' lease_seconds' later : ℕ) (s : Store)
    → later ≤ now + seconds lease_seconds
    → All
        (λ (item : WorkItem × Option EventRevision).
          any (λ (taken : WorkItem). same_item taken item.0) (ready_items limit now s.work_items)
          ≡ false)
        (claim_batch limit' lease_seconds' later (claim_batch limit lease_seconds now s).0).1
unfolding claim_batch Elsewhere
claim_batch-exclusive limit lease_seconds now limit' lease_seconds' later s in_time =
    with_snapshots _ (
      All-ready_items (Elsewhere taken) limit' later (claim_items lease taken s.work_items) (
        rw (claim_items_lem lease taken s.work_items)
          (free_later lease later taken s.work_items in_time)))
  where
    taken : List WorkItem
    taken = ready_items limit now s.work_items

    lease : ℕ
    lease = now + seconds lease_seconds

    with_snapshots :
        (items : List WorkItem)
        → All (Elsewhere taken) items
        → All
            (λ (item : WorkItem × Option EventRevision). Elsewhere taken item.0)
            (map (λ (r : WorkItem). (r, snapshot r s.revisions)) items)
    with_snapshots [] h = tt
    with_snapshots (i ∷ is) h = (h.0, with_snapshots is h.1)

-- ===== src/Store/Ledger/Retention/Purged.antt =====
-- What purge_raw_older_than of engine/store/ledger.py drops, and what it keeps.
use log_lookup_ai.Prelude.{
  ℕ, String, Bool, true, false, ◌&&◌, not, ◌≡◌, refl, ap, ◌∙◌, sym, ◌⊎◌, suc, ◌≤◌, inl, inr, Option,
  none, some, List, [], ◌∷◌, string_eq, ◌==◌, text_iff, if◌then◌else◌, ltb, any, count, Bool-cases,
  Option-cases, arith, ◌+◌,
}
use mathlib.Core.List.{Memᴰ}
use log_lookup_ai.Store.Records.{
  SourceEvent, EventRevision, WorkState, pending, claimed, failed_retryable, processed, quarantined,
  WorkItem, Store,
}
use log_lookup_ai.Store.Ledger.Retention.{
  is_unresolved, is_needed, is_stored, is_expired, expired_event, expired_revision, purge_events,
  purge_revisions, purge_raw_older_than,
}

-- A row's event has work that is pending, claimed or to be retried.
pub data Needed (items : List WorkItem) (id : String) : Type 0 where
  needed :
      (w : WorkItem)
      → Memᴰ w items
      → w.canonical_event_id ≡ id
      → (w.state ≡ pending) ⊎ (w.state ≡ claimed) ⊎ (w.state ≡ failed_retryable)
      → Needed items id

-- What becomes of a payload of the given time: it is dropped if it is old and not needed, and stays as
-- it is otherwise.
pub data Kept (cutoff : ℕ) (items : List WorkItem) (id : String) (time : ℕ)
    : Option String → Option String → Type 0 where
  dropped :
      (payload : Option String)
      → suc time ≤ cutoff
      → ¬ Needed items id
      → Kept cutoff items id time payload none
  young : (payload : Option String) → cutoff ≤ time → Kept cutoff items id time payload payload
  in_use : (payload : Option String) → Needed items id → Kept cutoff items id time payload payload

is_unresolved-states :
    (state : WorkState)
    → is_unresolved state ≡ true
    → (state ≡ pending) ⊎ (state ≡ claimed) ⊎ (state ≡ failed_retryable)
unfolding is_unresolved
is_unresolved-states pending h = inl refl
is_unresolved-states claimed h = inr (inl refl)
is_unresolved-states failed_retryable h = inr (inr refl)
is_unresolved-states processed h = cc
is_unresolved-states quarantined h = cc

Needed-later :
    (w : WorkItem) (items : List WorkItem) (id : String) → Needed items id → Needed (w ∷ items) id
Needed-later w items id (needed x at same state) = needed x (Memᴰ.tail at) same state

is_needed-Needed :
    (id : String) (items : List WorkItem) → is_needed id items ≡ true → Needed items id
unfolding is_needed any
is_needed-Needed id [] h = cc
is_needed-Needed id (w ∷ items) h =
    elim (Bool-cases (w.canonical_event_id == id && is_unresolved w.state)) [
      | inl p ↦
          let same : (w.canonical_event_id == id) ≡ true = ground arith in
          let open_ : is_unresolved w.state ≡ true = ground arith in
          needed w (Memᴰ.head refl) ((text_iff w.canonical_event_id id).0 same)
            (is_unresolved-states w.state open_)
      | inr p ↦ Needed-later w items id (is_needed-Needed id items (sym (rw p refl) ∙ h))
    ]

states-is_unresolved :
    (state : WorkState)
    → (state ≡ pending) ⊎ (state ≡ claimed) ⊎ (state ≡ failed_retryable)
    → is_unresolved state ≡ true
unfolding is_unresolved
states-is_unresolved state (inl p) = rw p refl
states-is_unresolved state (inr (inl p)) = rw p refl
states-is_unresolved state (inr (inr p)) = rw p refl

member-is_needed :
    (id : String) (w : WorkItem) (items : List WorkItem)
    → Memᴰ w items
    → w.canonical_event_id ≡ id
    → is_unresolved w.state ≡ true
    → is_needed id items ≡ true
unfolding is_needed any
member-is_needed id w [] at same state = elim at [ ]
member-is_needed id w (x ∷ items) (Memᴰ.head p) same state =
    let here : (x.canonical_event_id == id) ≡ true =
      (text_iff x.canonical_event_id id).1
        (ap (λ (i : WorkItem). i.canonical_event_id) (sym p) ∙ same) in
    let open_ : is_unresolved x.state ≡ true =
      ap (λ (i : WorkItem). is_unresolved i.state) (sym p) ∙ state in
    rw (here, open_) refl
member-is_needed id w (x ∷ items) (Memᴰ.tail at) same state =
    let rest = member-is_needed id w items at same state in ground arith

Needed-is_needed :
    (id : String) (items : List WorkItem) → Needed items id → is_needed id items ≡ true
Needed-is_needed id items (needed w at same state) =
    member-is_needed id w items at same (states-is_unresolved w.state state)

-- What the test of the two UPDATEs makes of a payload.
purged-Kept :
    (cutoff : ℕ) (items : List WorkItem) (id : String) (time : ℕ) (payload : Option String)
    → Kept cutoff items id time payload
        (if is_expired cutoff items id time payload then none else payload)
unfolding is_expired
purged-Kept cutoff items id time payload = elim (Bool-cases (is_needed id items)) [
  | inl p ↦ rw (p, needed_only payload) (in_use payload (is_needed-Needed id items p))
  | inr p ↦ elim (Bool-cases (ltb time cutoff)) [
    | inl q ↦
        rw (p, q) (old payload (λ n. let e = Needed-is_needed id items n in cc) (ground arith))
    | inr q ↦ rw (p, q, stored_only payload) (young payload (ground arith))
  ]
]
  where
    old :
        (payload : Option String)
        → ¬ Needed items id
        → suc time ≤ cutoff
        → Kept cutoff items id time payload
            (if is_stored payload && true && not false then none else payload)
    old none unneeded late = dropped none late unneeded
    old (some payload) unneeded late = dropped (some payload) late unneeded

    needed_only :
        (payload : Option String) → (is_stored payload && ltb time cutoff && not true) ≡ false
    needed_only payload = ground arith

    stored_only : (payload : Option String) → (is_stored payload && false && not false) ≡ false
    stored_only none = refl
    stored_only (some payload) = refl

-- Two lists of rows agree in number, and each row with its partner as the relation says.
abbrev pub Rowwise : {A : Type 0} → (A → A → Type 0) → List A → List A → Type 0
Rowwise R [] [] = Unit
Rowwise R [] (y ∷ ys) = ⊥
Rowwise R (x ∷ xs) [] = ⊥
Rowwise R (x ∷ xs) (y ∷ ys) = R x y × Rowwise R xs ys

-- A row of source_events, and of source_event_revisions, before and after the purge: only the payload may
-- differ.
abbrev pub EventPurged : ℕ → List WorkItem → SourceEvent → SourceEvent → Type 0
EventPurged cutoff items r after =
    (after ≡ record r { raw_enc = after.raw_enc })
    × Kept cutoff items r.canonical_event_id r.observed_at r.raw_enc after.raw_enc

abbrev pub RevisionPurged : ℕ → List WorkItem → EventRevision → EventRevision → Type 0
RevisionPurged cutoff items r after =
    (after ≡ record r { encrypted_payload = after.encrypted_payload })
    × Kept cutoff items r.canonical_event_id r.committed_at r.encrypted_payload
        after.encrypted_payload

purge_events-Rowwise :
    (cutoff : ℕ) (items : List WorkItem) (rows : List SourceEvent)
    → Rowwise (EventPurged cutoff items) rows (purge_events cutoff items rows)
unfolding purge_events expired_event
purge_events-Rowwise cutoff items [] = tt
purge_events-Rowwise cutoff items (r ∷ rows) = (
  row (is_expired cutoff items r.canonical_event_id r.observed_at r.raw_enc)
      (purged-Kept cutoff items r.canonical_event_id r.observed_at r.raw_enc),
  purge_events-Rowwise cutoff items rows,
)
  where
    row :
        (b : Bool)
        → Kept cutoff items r.canonical_event_id r.observed_at r.raw_enc
            (if b then none else r.raw_enc)
        → EventPurged cutoff items r (if b then record r { raw_enc = none } else r)
    row true kept = (refl, kept)
    row false kept = (refl, kept)

purge_revisions-Rowwise :
    (cutoff : ℕ) (items : List WorkItem) (rows : List EventRevision)
    → Rowwise (RevisionPurged cutoff items) rows (purge_revisions cutoff items rows)
unfolding purge_revisions expired_revision
purge_revisions-Rowwise cutoff items [] = tt
purge_revisions-Rowwise cutoff items (r ∷ rows) = (
  row (is_expired cutoff items r.canonical_event_id r.committed_at r.encrypted_payload)
      (purged-Kept cutoff items r.canonical_event_id r.committed_at r.encrypted_payload),
  purge_revisions-Rowwise cutoff items rows,
)
  where
    row :
        (b : Bool)
        → Kept cutoff items r.canonical_event_id r.committed_at r.encrypted_payload
            (if b then none else r.encrypted_payload)
        → RevisionPurged cutoff items r (if b then record r { encrypted_payload = none } else r)
    row true kept = (refl, kept)
    row false kept = (refl, kept)

-- How many events have a payload.
abbrev pub payloads : List SourceEvent → ℕ
payloads rows = count (λ (r : SourceEvent). is_stored r.raw_enc) rows

purge_events-payloads :
    (cutoff : ℕ) (items : List WorkItem) (rows : List SourceEvent)
    → payloads rows
      ≡ payloads (purge_events cutoff items rows) + count (expired_event cutoff items) rows
unfolding purge_events expired_event is_expired count
purge_events-payloads cutoff items [] = refl
purge_events-payloads cutoff items (r ∷ rows) =
    let rest = purge_events-payloads cutoff items rows in
    elim (Option-cases r.raw_enc) [
      | inl p ↦ rw p (ground arith)
      | inr (x, p) ↦
          elim (Bool-cases
            (ltb r.observed_at cutoff && not (is_needed r.canonical_event_id items))) [
              | inl q ↦ rw (p, q) (ground arith)
              | inr q ↦ rw (p, q) (ground arith)
            ]
    ]

-- The retention leaves every event and every revision where it is and changes nothing of it but its
-- payload. It drops the payload of each one that is older than the cutoff and whose event has no pending,
-- claimed or retryable work, and leaves the payload of every other as it is. Its answer is how many
-- payloads of events it dropped.
pub purge_raw-Rowwise :
    (cutoff : ℕ) (s : Store)
    → Rowwise
        (EventPurged cutoff s.work_items)
        s.source_events
        (purge_raw_older_than cutoff s).0.source_events
      × Rowwise
          (RevisionPurged cutoff s.work_items)
          s.revisions
          (purge_raw_older_than cutoff s).0.revisions
      × (payloads s.source_events
          ≡ payloads (purge_raw_older_than cutoff s).0.source_events
            + (purge_raw_older_than cutoff s).1)
unfolding purge_raw_older_than
purge_raw-Rowwise cutoff s = (
  purge_events-Rowwise cutoff s.work_items s.source_events,
  purge_revisions-Rowwise cutoff s.work_items s.revisions,
  purge_events-payloads cutoff s.work_items s.source_events,
)

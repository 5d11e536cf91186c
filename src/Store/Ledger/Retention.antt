-- ===== src/Store/Ledger/Retention.antt =====
-- engine/store/ledger.py: purge_raw_older_than. `cutoff` is the present time less the days of the
-- retention.
pub mod Purged
use log_lookup_ai.Prelude.{
  ℕ, String, Bool, true, false, ◌&&◌, not, ◌≡◌, refl, ap, ◌∙◌, sym, ◌⊎◌, suc, ◌≤◌, inl, inr, Option,
  none, some, List, [], ◌∷◌, string_eq, ◌==◌, text_iff, if◌then◌else◌, ltb, any, count, Bool-cases,
  Option-cases, arith, ◌+◌,
}
use mathlib.Core.List.{Memᴰ}
use log_lookup_ai.Store.Records.{
  SourceEvent, EventRevision, WorkState, pending, claimed, failed_retryable, processed, quarantined,
  WorkItem, Store,
}

-- w.state IN ('pending','claimed','failed_retryable')
unfoldable pub is_unresolved : WorkState → Bool
is_unresolved pending = true
is_unresolved claimed = true
is_unresolved failed_retryable = true
is_unresolved processed = false
is_unresolved quarantined = false

-- Whether unresolved work still needs the payloads of an event, the negation of `unresolved`.
unfoldable pub is_needed : String → List WorkItem → Bool
unfolding any is_unresolved
is_needed id items =
    any (λ (w : WorkItem). w.canonical_event_id == id && is_unresolved w.state) items

abbrev pub is_stored : Option String → Bool
is_stored none = false
is_stored (some payload) = true

-- The WHERE of the two UPDATEs.
unfoldable pub is_expired : ℕ → List WorkItem → String → ℕ → Option String → Bool
unfolding is_needed
is_expired cutoff items id time payload =
    is_stored payload && ltb time cutoff && not (is_needed id items)

unfoldable pub expired_event : ℕ → List WorkItem → SourceEvent → Bool
unfolding is_expired
expired_event cutoff items r = is_expired cutoff items r.canonical_event_id r.observed_at r.raw_enc

unfoldable pub expired_revision : ℕ → List WorkItem → EventRevision → Bool
unfolding is_expired
expired_revision cutoff items r =
    is_expired cutoff items r.canonical_event_id r.committed_at r.encrypted_payload

-- The two UPDATEs.
unfoldable pub purge_events : ℕ → List WorkItem → List SourceEvent → List SourceEvent
unfolding expired_event
purge_events cutoff items [] = []
purge_events cutoff items (r ∷ rows) =
    (if expired_event cutoff items r then record r { raw_enc = none } else r)
    ∷ purge_events cutoff items rows

unfoldable pub purge_revisions : ℕ → List WorkItem → List EventRevision → List EventRevision
unfolding expired_revision
purge_revisions cutoff items [] = []
purge_revisions cutoff items (r ∷ rows) =
    (if expired_revision cutoff items r then record r { encrypted_payload = none } else r)
    ∷ purge_revisions cutoff items rows

-- purge_raw_older_than: the store, and how many payloads of events were dropped
unfoldable pub purge_raw_older_than : ℕ → Store → Store × ℕ
unfolding purge_events purge_revisions count expired_event
purge_raw_older_than cutoff s = (
  record s {
    source_events = purge_events cutoff s.work_items s.source_events;
    revisions = purge_revisions cutoff s.work_items s.revisions;
  },
  count (expired_event cutoff s.work_items) s.source_events,
)

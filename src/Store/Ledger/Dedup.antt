-- ===== src/Store/Ledger/Dedup.antt =====
-- engine/store/ledger.py: the row of an event after it is ingested, and a record that is polled again.
use log_lookup_ai.Prelude.{
  ℕ, ◌+◌, ◌≡◌, refl, ◌∙◌, String, Bool, true, false, Option, none, some, List, ◌==◌, string_eq,
  text_iff, text_refl, Bool-cases, inl, inr,
}
use log_lookup_ai.Prelude.Table.{find, find-append, find-update_self}
use log_lookup_ai.Store.Records.{SourceEvent, Store}
use log_lookup_ai.Store.Ledger.{
  PageItem, AcceptedRecord, Vault, event_row, upsert_event, upsert_found, claim_aliases,
  revised_event, sealed_envelope, store_revision, ingest_row, ingest_one,
}

abbrev pub event_of : PageItem → Store → Option SourceEvent
event_of item s =
    find SourceEvent.canonical_event_id item.envelope.canonical_event_id s.source_events

-- The row that says what a record was accepted as.
pub record Stored (item : PageItem) (s : Store) (r : AcceptedRecord) : Type 0 where
  pub row : SourceEvent
  pub found : event_of item s ≡ some row
  pub hash : row.raw_sha256 ≡ r.envelope.raw_sha256
  pub revision : row.revision ≡ r.envelope.revision

upsert_lem :
    (new : SourceEvent) (rows : List SourceEvent)
    → (row : SourceEvent) × (find SourceEvent.canonical_event_id new.canonical_event_id
          (upsert_event new rows)
        ≡ some row)
      × (row.raw_sha256 ≡ new.raw_sha256)
      × (row.revision ≡ new.revision)
unfolding upsert_event
upsert_lem new rows = at_row (find SourceEvent.canonical_event_id new.canonical_event_id rows) refl
  where
    at_row :
        (o : Option SourceEvent)
        → find SourceEvent.canonical_event_id new.canonical_event_id rows ≡ o
        → (row : SourceEvent) × (find SourceEvent.canonical_event_id new.canonical_event_id
              (upsert_found new o rows)
            ≡ some row)
          × (row.raw_sha256 ≡ new.raw_sha256)
          × (row.revision ≡ new.revision)
    at_row none e = (
      new,
      unfold upsert_found in rw (find-append, e, text_refl new.canonical_event_id) refl,
      refl,
      refl,
    )
    at_row (some old) e = (
      revised_event new old,
      unfold upsert_found in
          rw
            (
              find-update_self SourceEvent.canonical_event_id new.canonical_event_id
                  (revised_event new) rows (λ r. refl),
              e,
            )
            refl,
      refl,
      refl,
    )

module _ (vault : Vault) where
  store_revision-Stored :
      (item : PageItem) (now revision : ℕ) (is_new : Bool) (duplicate : Option String) (s : Store)
      → Stored item
          (store_revision vault item now revision is_new duplicate s).0
          (store_revision vault item now revision is_new duplicate s).1
  unfolding store_revision
  store_revision-Stored item now revision is_new duplicate s =
      let env = sealed_envelope vault item.envelope revision item.payload in
      let blob =
        vault.encrypt item.payload (vault.payload_ref item.envelope.canonical_event_id revision) in
      let (row, found, hash, number) = upsert_lem (event_row env blob duplicate) s.source_events in
      record { row = row; found = found; hash = hash; revision = number }

  -- After a record is ingested, the row of its event has the hash that it was stored with: the hash
  -- that it came with if it was a duplicate poll, and the vault's otherwise.
  row_hash :
      (item : PageItem) (now : ℕ) (o : Option SourceEvent) (s : Store)
      → event_of item s ≡ o
      → (row : SourceEvent) × (event_of item (ingest_row vault item now o s).0 ≡ some row)
        × (((ingest_row vault item now o s).1 ≡ none) → row.raw_sha256 ≡ item.envelope.raw_sha256)
        × ((r : AcceptedRecord)
            → (ingest_row vault item now o s).1 ≡ some r
            → row.raw_sha256 ≡ vault.sha256 item.payload)
  unfolding ingest_row
  row_hash item now none s e =
      let (aliases, duplicate) = claim_aliases item.envelope now s.source_aliases in
      let st =
        store_revision-Stored item now 1 true duplicate (record s { source_aliases = aliases }) in
      (st.row, st.found, λ h. cc, λ r h. (unfold store_revision in st.hash))
  row_hash item now (some row) s e =
      elim (Bool-cases (row.raw_sha256 == item.envelope.raw_sha256)) [
        | inl h ↦
            rw h (row, e, λ k. (text_iff row.raw_sha256 item.envelope.raw_sha256).0 h, λ r k. cc)
        | inr h ↦
            let st = store_revision-Stored item now (row.revision + 1) false row.duplicate_of s in
            rw h (st.row, st.found, λ k. cc, λ r k. (unfold store_revision in st.hash))
      ]

  -- A record whose hash is the one that the vault finds for its payload, ingested twice in a row: the
  -- second time is a duplicate poll, accepts nothing and leaves the store as it is.
  pub ingest_one-repeat :
      (item : PageItem) (now later : ℕ) (s : Store)
      → vault.sha256 item.payload ≡ item.envelope.raw_sha256
      → ingest_one vault item later (ingest_one vault item now s).0
        ≡ ((ingest_one vault item now s).0, none)
  unfolding ingest_one
  ingest_one-repeat item now later s honest =
      let (row, found, old, new) = row_hash item now (event_of item s) s refl in
      again (ingest_row vault item now (event_of item s) s) row found old new
    where
      again :
          (result : Store × Option AcceptedRecord) (row : SourceEvent)
          → event_of item result.0 ≡ some row
          → (result.1 ≡ none → row.raw_sha256 ≡ item.envelope.raw_sha256)
          → ((r : AcceptedRecord) → result.1 ≡ some r → row.raw_sha256 ≡ vault.sha256 item.payload)
          → ingest_row vault item later (event_of item result.0) result.0 ≡ (result.0, none)
      again (s', none) row found old new = rw found (
          unfold ingest_row in
          rw ((text_iff row.raw_sha256 item.envelope.raw_sha256).1 (old refl)) refl)
      again (s', some r) row found old new = rw found (
          unfold ingest_row in
          rw ((text_iff row.raw_sha256 item.envelope.raw_sha256).1 (new r refl ∙ honest)) refl)

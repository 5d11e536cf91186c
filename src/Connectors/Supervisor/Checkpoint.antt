-- ===== src/Connectors/Supervisor/Checkpoint.antt =====
-- A backfill leaves the live checkpoints alone, and reads no more pages than its ceiling.
use log_lookup_ai.Prelude.{
  ℕ, zero, suc, ◌+◌, ◌≤◌, String, true, ◌≡◌, refl, ap, ◌∙◌, ◌⊎◌, inl, inr, Option, none, some, List,
  [], ◌∷◌, string_eq, ◌==◌, contains, Bool-cases, Option-cases, arith,
}
use log_lookup_ai.Store.Records.{SourceEvent, Store}
use log_lookup_ai.Store.Ledger.{
  PageItem, Vault, store_revision, ingest_row, ingest_one, ingest_all, commit_page,
}
use log_lookup_ai.Connectors.Supervisor.{
  Fetched, page, failed, PageResult, ConnectorError, Connector, SourceConnection, Worker, to_items,
}
use log_lookup_ai.Connectors.Supervisor.Running.{
  Backfill, backfill_pages, backfill, backfill_page, max_backfill_pages, new_backfill,
}

module _ (vault : Vault) where
  ingest_row-cursors :
      (item : PageItem) (now : ℕ) (o : Option SourceEvent) (s : Store)
      → (ingest_row vault item now o s).0.cursors ≡ s.cursors
  unfolding ingest_row store_revision
  ingest_row-cursors item now none s = refl
  ingest_row-cursors item now (some row) s =
      elim (Bool-cases (row.raw_sha256 == item.envelope.raw_sha256)) [
        | inl p ↦ rw (p) refl
        | inr p ↦ rw (p) refl
      ]

  ingest_all-cursors :
      (items : List PageItem) (now : ℕ) (s : Store)
      → (ingest_all vault items now s).0.cursors ≡ s.cursors
  unfolding ingest_all ingest_one
  ingest_all-cursors [] now s = refl
  ingest_all-cursors (item ∷ items) now s =
      ingest_all-cursors items now (ingest_one vault item now s).0 ∙ ingest_row-cursors item now _ s

to_items-store :
    (c : Connector) (cid stream : String) (records : List String) (w : Worker)
    → (to_items c cid stream records w).0.store ≡ w.store
unfolding to_items
to_items-store c cid stream [] w = refl
to_items-store c cid stream (r ∷ records) w = elim (Option-cases (c.to_item r stream)) [
  | inl p ↦ rw (to_items, p) (to_items-store c cid stream records _)
  | inr (item, p) ↦ rw (to_items, p) (to_items-store c cid stream records w)
]

pub Fetched-cases :
    (f : Fetched) → ((p : PageResult) × (f ≡ page p)) ⊎ ((e : ConnectorError) × (f ≡ failed e))
Fetched-cases (page p) = inl (p, refl)
Fetched-cases (failed e) = inr (e, refl)

module _ (vault : Vault) (cut : String → String) (c : Connector) (conn : SourceConnection) where
  -- What a backfill leaves of the store and says of its pages.
  abbrev Unmoved : ℕ → Worker → Worker × Backfill vault cut c conn → Type 0
  Unmoved bound w r = (r.0.store.cursors ≡ w.store.cursors) × (r.1.pages ≤ bound)

  backfill_page-cursors :
      (now : ℕ) (stream : String) (p : PageResult) (b : Backfill vault cut c conn) (w : Worker)
      → (backfill_page vault cut c conn now stream p b w).0.store.cursors ≡ w.store.cursors
  unfolding backfill_page commit_page
  backfill_page-cursors now stream p b w =
      let (w', items) = to_items c conn.connection_id stream p.records w in
      ingest_all-cursors vault items now w'.store
      ∙ ap Store.cursors (to_items-store c conn.connection_id stream p.records w)

  backfill_pages-Unmoved :
      (left now : ℕ) (stream : String) (cursor : Option String) (b : Backfill vault cut c conn)
      (w : Worker)
      → Unmoved (b.pages + left) w (backfill_pages vault cut c conn left now stream cursor b w)
  unfolding backfill_pages backfill_page
  backfill_pages-Unmoved zero now stream cursor b w = (refl, omega arith)
  backfill_pages-Unmoved (suc left) now stream cursor b w =
      elim (Fetched-cases (c.fetch_page cursor stream true)) [
        | inl (p, h) ↦
            rw (backfill_pages, h)
              (elim (Bool-cases p.window_complete) [
                | inl q ↦ rw (q) (backfill_page-cursors now stream p b w, omega arith)
                | inr q ↦
                    let (w', b') = backfill_page vault cut c conn now stream p b w in
                    let (same, bound) =
                      backfill_pages-Unmoved left now stream p.next_cursor b' w' in
                    rw (q) (same ∙ backfill_page-cursors now stream p b w, omega (arith, bound))
              ])
        | inr (e, h) ↦ rw (backfill_pages, h) (refl, omega arith)
      ]

  -- A backfill never writes a cursor, whatever the connector answers and however it ends, and it reads
  -- at most MAX_BACKFILL_PAGES pages.
  pub backfill-Unmoved :
      (now : ℕ) (stream : String) (cursor : Option String) (w : Worker)
      → ((backfill vault cut c conn now stream cursor w).0.store.cursors ≡ w.store.cursors)
        × ((backfill vault cut c conn now stream cursor w).1.pages
            ≤ max_backfill_pages vault cut c conn)
  unfolding backfill
  backfill-Unmoved now stream cursor w = elim (Bool-cases (contains c.streams stream)) [
    | inl p ↦ rw (p) (
        backfill_pages-Unmoved (max_backfill_pages vault cut c conn) now stream cursor
          (new_backfill vault cut c conn) w)
    | inr p ↦ rw (p) (refl, omega arith)
  ]

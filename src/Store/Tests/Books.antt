-- ===== src/Store/Tests/Books.antt =====
-- An investigation that is synced, and one that was merged, at which the theorems on the investigations
-- are applied.
use log_lookup_ai.Prelude.{◌≡◌, refl, String, true, none, some, [], ◌∷◌, any}
use log_lookup_ai.Prelude.Table.{find, update}
use log_lookup_ai.Store.Investigations.{
  Book, Summary, Hashing, InvestigationRow, RevisionRow, resolve_id,
}
use log_lookup_ai.Store.Investigations.Sync.{
  anchor_of, anchor_taken, find_revision, is_current, last_revision, insert_revision_row,
  add_revision, sync_row, link_events, linked, sync_found, sync_one,
}
use log_lookup_ai.Store.Investigations.Aliases.{IsResolved, resolve_id-IsResolved}
use log_lookup_ai.Store.Investigations.Syncing.{sync_one-again}

abbrev hashing : Hashing
hashing = record { content_hash = λ s. s.rest; revision_summary = λ s previous causes. s.rest }

abbrev summary : Summary
summary = record {
  cluster_id = "CHAIN-1";
  primary_entity = "hosta";
  risk_score = "12.0";
  surfaced = true;
  event_ids = "e1" ∷ [];
  rest = "two alerts";
}

abbrev empty_book : Book
empty_book = record {
  investigations = [];
  revisions = [];
  aliases = record { old_cluster_id = "CHAIN-0"; cluster_id = "CHAIN-1"; created_at = 3 } ∷ [];
  events = [];
  flags = [];
  next_flag_id = 1;
}

abbrev row : InvestigationRow
row = record {
  cluster_id = "CHAIN-1";
  scope_id = "prod";
  anchor_uid = some "a";
  label = "hosta";
  latest_revision = 1;
  status = "new";
  risk_score = "12.0";
  surfaced = true;
  merged_into = none;
  owner = none;
  created_at = 5;
  updated_at = 5;
}

abbrev revision : RevisionRow
revision = record {
  cluster_id = "CHAIN-1";
  revision = 1;
  content_hash = "two alerts";
  summary_json = "two alerts";
  created_at = 5;
}

abbrev book : Book
book = record empty_book {
  investigations = row ∷ [];
  revisions = revision ∷ [];
  events = record { cluster_id = "CHAIN-1"; canonical_event_id = "e1" } ∷ [];
}

synced : sync_one hashing "prod" (("a", "CHAIN-1") ∷ []) 5 "" summary empty_book ≡ some (book, 1)
unfolding find update anchor_of anchor_taken any find_revision is_current last_revision
    insert_revision_row add_revision sync_row link_events linked sync_found sync_one
synced = refl

sync_one-again_example : sync_one hashing "prod" [] 9 "late" summary book ≡ some (book, 1)
sync_one-again_example =
    sync_one-again hashing "prod" "prod" (("a", "CHAIN-1") ∷ []) [] 5 9 "" "late" summary empty_book
      book 1 synced

resolve_id-IsResolved_example :
    (id : String) × ((resolve_id "CHAIN-0" book ≡ some id) × IsResolved book.aliases "CHAIN-0" id)
resolve_id-IsResolved_example = resolve_id-IsResolved "CHAIN-0" book

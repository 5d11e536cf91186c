-- ===== src/Store/Tests.antt =====
-- A work item, a polled alert and a store, at which the theorems of the store are applied.
mod Books
mod Retained
use log_lookup_ai.Prelude.{
  ℕ, ◌+◌, ◌≤◌, ◌≡◌, refl, ◌≢◌, String, Bool, true, false, Option, none, some, List, [], ◌∷◌, ◌++◌,
  All, any, arith, length, ◌==◌, string_eq, text_iff,
}
use log_lookup_ai.Prelude.Table.{find}
use log_lookup_ai.Response.Models.{World}
use log_lookup_ai.Response.Policy.{Env}
use log_lookup_ai.Store.Cursors.{CursorTables, get_cursor, replace}
use log_lookup_ai.Store.Cursors.Replaced.{replace-get}
use log_lookup_ai.Store.Records.{SourceEnvelope, EventRevision, WorkState, pending, WorkItem, Store}
use log_lookup_ai.Store.WorkQueue.{same_item, ready_items, is_ready, claim_batch, fail}
use log_lookup_ai.Store.WorkQueue.Leases.{claim_batch-exclusive}
use log_lookup_ai.Store.WorkQueue.Attempts.{item_row, Retried, fail-Retried}
use log_lookup_ai.Store.Ledger.{PageItem, AcceptedRecord, Vault, ingest_one, ingest_row}
use log_lookup_ai.Store.Ledger.Dedup.{ingest_one-repeat}

abbrev item : WorkItem
item = record {
  canonical_event_id = "e1";
  revision = 1;
  operation = "correlate";
  scope_id = "prod";
  connection_id = "sentinel";
  state = pending;
  attempts = 7;
  next_attempt_at = 0;
  lease_until = none;
  last_error_code = none;
  created_at = 0;
  processed_at = none;
}

abbrev store : Store
store = record {
  source_events = [];
  source_aliases = [];
  revisions = [];
  observations = [];
  work_items = item ∷ [];
  cursors = [];
}

claim_batch-exclusive_example :
    All
      (λ (i : WorkItem × Option EventRevision).
        any (λ (taken : WorkItem). same_item taken i.0) (ready_items 10 5 store.work_items) ≡ false)
      (claim_batch 10 120 60 (claim_batch 10 120 5 store).0).1
claim_batch-exclusive_example = claim_batch-exclusive 10 120 5 10 120 60 store (omega arith)

item_found : item_row item store.work_items ≡ some item
unfolding same_item
item_found = refl

fail-Retried_example :
    (after : WorkItem) × (item_row item (fail (λ s. s) 9 item "timeout" store).0.work_items
      ≡ some after)
    × Retried 9 7 after
    × (after.state ≡ (fail (λ s. s) 9 item "timeout" store).1)
fail-Retried_example = fail-Retried (λ s. s) 9 item "timeout" store item item_found

abbrev vault : Vault
vault = record {
  encrypt = λ payload ref. payload;
  sha256 = λ payload. payload;
  payload_ref = λ id revision. id;
}

abbrev polled : String → PageItem
polled hash = record {
  envelope = record {
    scope_id = "prod";
    connection_id = "sentinel";
    provider = "sentinel";
    record_kind = "alert";
    source_event_id = "s1";
    canonical_event_id = "e1";
    event_time = some 3;
    observed_at = 4;
    raw_sha256 = hash;
    source_incident_id = none;
    source_url = none;
    source_updated_at = none;
    raw_payload_ref = none;
    revision = 1;
    aliases = ("xdr", "x9") ∷ [];
  };
  payload = "{}";
}

ingest_one-repeat_example :
    ingest_one vault (polled "{}") 8 (ingest_one vault (polled "{}") 7 store).0
    ≡ ((ingest_one vault (polled "{}") 7 store).0, none)
ingest_one-repeat_example = ingest_one-repeat vault (polled "{}") 7 8 store refl

abbrev plain : Env
plain = record {
  workflows = [];
  scope = "prod";
  enabled = true;
  sha256 = λ parts. "hash";
  dumps = λ detail. "detail";
  canonical = λ workflow fields refs. workflow;
  render = λ parts. "text";
  clean_text = λ s. s;
  text_length = λ s. 3;
  sorted_set = λ refs. refs;
  strip = λ s. s;
  scrub = λ s. s;
  clip = λ s. s;
}

abbrev cursors : CursorTables
cursors = record {
  source_cursors =
      record {
        connection_id = "sentinel";
        stream_name = "alerts";
        cursor = "old";
        window_complete = false;
        committed_at = 1;
      }
      ∷ [];
  history = [];
}

abbrev no_rows : World
no_rows = record { actions = []; outbox = []; audit = []; investigations = [] }

replace-get_example :
    (get_cursor "sentinel" "alerts"
        (replace plain "sentinel" "alerts" "new" "ann" "stuck" 5 cursors no_rows).0
      ≡ some "new")
    × ((replace plain "sentinel" "alerts" "new" "ann" "stuck" 5 cursors no_rows).2
        ≡ get_cursor "sentinel" "alerts" cursors)
replace-get_example = replace-get plain "sentinel" "alerts" "new" "ann" "stuck" 5 cursors no_rows

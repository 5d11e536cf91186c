-- ===== src/Connectors/Tests.antt =====
-- A connector whose pages have one record each and never end a window, at which the theorems on the
-- worker are applied.
use log_lookup_ai.Prelude.{◌≡◌, ◌≢◌, ◌≤◌, refl, String, true, false, inl, none, some, [], ◌∷◌}
use log_lookup_ai.Store.Records.{Store}
use log_lookup_ai.Store.Ledger.{Vault}
use log_lookup_ai.Connectors.Supervisor.{
  configuration, connector, ConnectorError, page, Connector, SourceConnection, SourceHealth, Worker,
}
use log_lookup_ai.Connectors.Supervisor.Running.{
  backfill, run_round, handle, max_backoff, max_backfill_pages, idle,
}
use log_lookup_ai.Connectors.Supervisor.Counters.{
  IsBalanced, run_round-IsBalanced, IsBackoff, handle-IsBackoff,
}
use log_lookup_ai.Connectors.Supervisor.Checkpoint.{backfill-Unmoved}

abbrev vault : Vault
vault = record {
  encrypt = λ payload ref. payload;
  sha256 = λ payload. payload;
  payload_ref = λ id n. id;
}

abbrev cut : String → String
cut = λ s. s

abbrev endless : Connector
endless = record {
  streams = "alerts" ∷ [];
  fetch_page = λ cursor stream strict. page (record {
    records = "{}" ∷ [];
    next_cursor = some "next";
    window_complete = false;
    source_warnings = [];
    rejected = [];
  });
  to_item = λ r stream. none;
  ref_of = λ r. r;
}

abbrev conn : SourceConnection
conn = record { connection_id = "elastic"; poll_ms = 60000 }

abbrev health : SourceHealth
health = record {
  status = "starting";
  last_attempt = none;
  last_success = none;
  last_receipt = none;
  last_error_code = none;
  last_error = none;
  records_received = 3;
  records_new = 1;
  records_updated = 1;
  records_duplicate = 0;
  records_unchanged = 1;
  records_committed = 2;
  records_quarantined = 0;
  pages_drained = 1;
  provider_partial_errors = 0;
  consecutive_failures = 0;
  warnings = [];
}

abbrev store : Store
store = record {
  source_events = [];
  source_aliases = [];
  revisions = [];
  observations = [];
  work_items = [];
  cursors =
      record {
        connection_id = "elastic";
        stream_name = "alerts";
        cursor = "live";
        window_complete = true;
        committed_at = 1;
      }
      ∷ [];
}

abbrev worker : Worker
worker = record {
  health = health;
  tolerate_bad_rows = false;
  retry_requested = false;
  stream = none;
  backoff = 0;
  store = store;
  errors = [];
  handed = [];
}

abbrev throttled : ConnectorError
throttled = record {
  kind = connector;
  message = "slow down";
  status = "throttled";
  code = "source_error";
  retry_after = some 700000;
  ref = none;
}

connector_other : connector ≢ configuration
connector_other e = cc

run_round-IsBalanced_example : IsBalanced (run_round vault cut endless conn 7 worker).0.health
run_round-IsBalanced_example = run_round-IsBalanced vault cut endless conn 7 worker refl

backfill-Unmoved_example :
    ((backfill vault cut endless conn 7 "alerts" none worker).0.store.cursors
      ≡ worker.store.cursors)
    × ((backfill vault cut endless conn 7 "alerts" none worker).1.pages
        ≤ max_backfill_pages vault cut endless conn)
backfill-Unmoved_example = backfill-Unmoved vault cut endless conn 7 "alerts" none worker

handle-IsBackoff_example :
    (5000 ≤ idle (handle cut conn 7 throttled connector worker).1 none)
    × (idle (handle cut conn 7 throttled connector worker).1 (some 1000) ≤ max_backoff)
    × IsBackoff (handle cut conn 7 throttled connector worker).0.backoff
handle-IsBackoff_example =
    handle-IsBackoff cut conn 7 throttled connector worker (some 1000) connector_other (inl refl)

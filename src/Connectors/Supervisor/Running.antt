-- ===== src/Connectors/Supervisor/Running.antt =====
-- engine/connectors/supervisor.py: the end of a poll, the failures with their backoff, and the backfill.
use log_lookup_ai.Prelude.{
  ℕ, zero, suc, ◌+◌, ◌*◌, max, min, String, true, false, Option, none, some, List, [], ◌∷◌, ◌++◌,
  string_eq, nat_eq, ◌==◌, if◌then◌else◌, any, contains, length,
}
use log_lookup_ai.Store.Ledger.{Vault, commit_page}
use log_lookup_ai.Connectors.Supervisor.{
  ErrorKind, configuration, connector, crash, ConnectorError, PageResult, page, failed, Connector,
  SourceConnection, SourceHealth, Worker, partial_codes, degrading_warnings, record_error, to_items,
  Polled, polled, broken, poll_streams,
}

-- list(dict.fromkeys(warnings)): each warning once, at its first place
unfoldable pub distinct : List String → List String → List String
unfolding contains
distinct seen [] = seen
distinct seen (x ∷ xs) = distinct (if contains seen x then seen else seen ++ x ∷ []) xs

-- The end of _poll_once.
unfoldable pub succeeded : ℕ → List String → SourceHealth → SourceHealth
unfolding distinct any contains
succeeded now warnings h = record h {
  warnings = distinct [] warnings;
  status =
      if any (λ (x : String). contains degrading_warnings x) (distinct [] warnings)
      then "degraded"
      else "healthy";
  last_success = some now;
  last_attempt = some now;
  consecutive_failures = 0;
  last_error = none;
  last_error_code = none;
}

-- _fail; `cut` is str(exc)[:300]
unfoldable pub fail : (String → String) → ℕ → ConnectorError → SourceHealth → SourceHealth
unfolding contains
fail cut now e h = record h {
  status = e.status;
  last_attempt = some now;
  last_error_code = some e.code;
  last_error = some (cut e.message);
  consecutive_failures = h.consecutive_failures + 1;
  provider_partial_errors =
      if contains partial_codes e.code
      then h.provider_partial_errors + 1
      else h.provider_partial_errors;
}

-- MAX_BACKOFF_SECONDS and DRAIN_DELAY
abbrev pub max_backoff : ℕ
max_backoff = 300000

abbrev pub drain_delay : ℕ
drain_delay = 200

-- backoff * 2 or first
unfoldable pub doubled : ℕ → ℕ → ℕ
doubled start backoff = if backoff == 0 then start else backoff * 2

abbrev pub or_zero_ms : Option ℕ → ℕ
or_zero_ms none = 0
or_zero_ms (some t) = t

-- How long _idle waits: for the delay, or until the wake event is set, after `woken` milliseconds, if that
-- is earlier.
unfoldable pub idle : ℕ → Option ℕ → ℕ
idle delay none = delay
idle delay (some woken) = min woken delay

-- The handlers of _run, and the delay that each of them gives to _idle; where a retry is asked for, the
-- next backoff starts anew.
unfoldable pub handle :
    (String → String) → SourceConnection → ℕ → ConnectorError → ErrorKind → Worker → Worker × ℕ
unfolding fail record_error doubled
handle cut conn now e configuration w =
    (record w { health = fail cut now e w.health }, max conn.poll_ms 60000)
handle cut conn now e connector w =
    let w' =
      record_error conn.connection_id w.stream e.code e.ref
        (record w { health = fail cut now e w.health }) in
    let wait = min max_backoff (max (or_zero_ms e.retry_after) (doubled 5000 w.backoff)) in
    (record w' { backoff = if w.retry_requested then 0 else wait; retry_requested = false }, wait)
handle cut conn now e crash w =
    let wait = min max_backoff (doubled 10000 w.backoff) in
    (record w { health = fail cut now e w.health; backoff = wait }, wait)

module _ (vault : Vault) (cut : String → String) (c : Connector) (conn : SourceConnection) where
  -- The body of the loop of _run after the poll.
  unfoldable pub after_poll : ℕ → Worker × Polled vault c conn → Worker × ℕ
  unfolding succeeded handle
  after_poll now (w, polled drained warnings) = (
    record w { health = succeeded now warnings w.health; backoff = 0 },
    if drained then conn.poll_ms else drain_delay,
  )
  after_poll now (w, broken e) = handle cut conn now e e.kind w

  -- One round of _run, of a connector that is open, with the delay that it gives to _idle.
  unfoldable pub run_round : ℕ → Worker → Worker × ℕ
  unfolding poll_streams after_poll
  run_round now w = after_poll now (poll_streams vault c conn now c.streams true [] w)

  -- The status of a backfill.
  pub record Backfill : Type 0 where
    pub state : String
    pub pages : ℕ
    pub records : ℕ
    pub stored : ℕ
    pub error : Option String

  abbrev pub paged : ℕ → ℕ → Backfill → Backfill
  paged fetched accepted b = record b {
    pages = b.pages + 1;
    records = b.records + fetched;
    stored = b.stored + accepted;
  }

  -- One page of a backfill: it is committed without a cursor.
  unfoldable pub backfill_page : ℕ → String → PageResult → Backfill → Worker → Worker × Backfill
  unfolding to_items commit_page
  backfill_page now stream p b w =
      let (w', items) = to_items c conn.connection_id stream p.records w in
      let (store, accepted) =
        commit_page vault conn.connection_id stream items none p.window_complete now w'.store in
      (
        record w' { store = store; handed = w'.handed ++ accepted },
        paged (length p.records) (length accepted) b,
      )

  -- The loop of backfill; the number is what is left of MAX_BACKFILL_PAGES, at whose end the loop fails.
  unfoldable pub backfill_pages :
      ℕ → ℕ → String → Option String → Backfill → Worker → Worker × Backfill
  unfolding backfill_page
  backfill_pages zero now stream cursor b w =
      (w, record b { state = "failed"; error = some "backfill_ceiling" })
  backfill_pages (suc left) now stream cursor b w = elim (c.fetch_page cursor stream true) [
    | failed e ↦ (w, record b { state = "failed"; error = some e.code })
    | page p ↦
        let (w', b') = backfill_page now stream p b w in
        let more = backfill_pages left now stream p.next_cursor b' w' in
        if p.window_complete then (w', record b' { state = "complete" }) else more
  ]

  -- MAX_BACKFILL_PAGES
  abbrev pub max_backfill_pages : ℕ
  max_backfill_pages = 2000

  -- _new_backfill
  abbrev pub new_backfill : Backfill
  new_backfill = record { state = "running"; pages = 0; records = 0; stored = 0; error = none }

  -- backfill, from its first cursor; the worker is the helper, whose health is its own, and the connector
  -- is strict, as it is made
  unfoldable pub backfill : ℕ → String → Option String → Worker → Worker × Backfill
  unfolding backfill_pages contains
  backfill now stream cursor w =
      if contains c.streams stream
      then backfill_pages max_backfill_pages now stream cursor new_backfill w
      else (w, record new_backfill { state = "failed"; error = some "bad_stream" })

-- ===== src/Connectors/Supervisor/Counters.antt =====
-- The counters of a source, and the bounds of its backoff.
use log_lookup_ai.Prelude.{
  ℕ, ◌+◌, ◌≤◌, max, min, String, Bool, true, not, ◌&&◌, ◌≡◌, refl, ◌⊎◌, inl, inr, Option, none,
  some, List, [], ◌∷◌, ◌++◌, string_eq, count, length, Bool-cases, Option-cases, arith, ◌≢◌,
}
use log_lookup_ai.Store.Ledger.{PageItem, AcceptedRecord, Vault, commit_page}
use log_lookup_ai.Connectors.Supervisor.{
  ErrorKind, configuration, connector, crash, ConnectorError, Rejected, PageResult, Connector,
  SourceConnection, SourceHealth, Worker, record_error, set_aside, to_items, is_duplicate, counted,
  cursor_of, take_page, Polled, polled, broken, poll_streams,
}
use log_lookup_ai.Connectors.Supervisor.Checkpoint.{Fetched-cases}
use log_lookup_ai.Connectors.Supervisor.Running.{
  succeeded, fail, max_backoff, doubled, or_zero_ms, idle, handle, after_poll, run_round,
}

-- Each accepted record is counted as one of the three.
length-counts :
    (accepted : List AcceptedRecord)
    → length accepted
      ≡ count (λ (a : AcceptedRecord). not a.is_update && not (is_duplicate a)) accepted
        + count (λ (a : AcceptedRecord). a.is_update && not (is_duplicate a)) accepted
        + count is_duplicate accepted
unfolding count
length-counts [] = refl
length-counts (a ∷ accepted) = elim (Bool-cases (is_duplicate a)) [
  | inl p ↦ ground (arith, length-counts accepted)
  | inr p ↦ ground (arith, length-counts accepted)
]

-- records_committed is what was counted as new, updated or duplicate.
abbrev pub IsBalanced : SourceHealth → Type 0
IsBalanced h = h.records_committed ≡ h.records_new + h.records_updated + h.records_duplicate

counted-IsBalanced :
    (now : ℕ) (p : PageResult) (items : List PageItem) (accepted : List AcceptedRecord)
    (h : SourceHealth)
    → IsBalanced h
    → IsBalanced (counted now p items accepted h)
unfolding counted
counted-IsBalanced now p items accepted h b = omega (arith, b, length-counts accepted)

set_aside-IsBalanced :
    (cid stream : String) (rejected : List Rejected) (w : Worker)
    → IsBalanced w.health
    → IsBalanced (set_aside cid stream rejected w).health
unfolding set_aside record_error
set_aside-IsBalanced cid stream [] w b = b
set_aside-IsBalanced cid stream (r ∷ rejected) w b = set_aside-IsBalanced cid stream rejected _ b

-- The backoff is none, or between five seconds and five minutes.
abbrev pub IsBackoff : ℕ → Type 0
IsBackoff b = (b ≡ 0) ⊎ ((5000 ≤ b) × (b ≤ max_backoff))

doubled-least : (start b : ℕ) → 5000 ≤ start → IsBackoff b → 5000 ≤ doubled start b
unfolding doubled
doubled-least start b h (inl p) = rw (p) h
doubled-least start b h (inr (p, q)) = ground arith

idle-least : (delay : ℕ) (woken : Option ℕ) (limit : ℕ) → delay ≤ limit → idle delay woken ≤ limit
unfolding idle
idle-least delay none limit h = h
idle-least delay (some t) limit h = omega arith

-- After an error of the connector or a crash, the worker waits for five seconds at least where nothing
-- wakes it, and for five minutes at most whether it is woken or not; the backoff that it keeps is none or
-- within the same bounds, if the one before was.
pub handle-IsBackoff :
    (cut : String → String) (conn : SourceConnection) (now : ℕ) (e : ConnectorError)
    (kind : ErrorKind) (w : Worker) (woken : Option ℕ)
    → kind ≢ configuration
    → IsBackoff w.backoff
    → (5000 ≤ idle (handle cut conn now e kind w).1 none)
      × (idle (handle cut conn now e kind w).1 woken ≤ max_backoff)
      × IsBackoff (handle cut conn now e kind w).0.backoff
unfolding handle record_error idle
handle-IsBackoff cut conn now e configuration w woken other h = absurd (other refl)
handle-IsBackoff cut conn now e connector w woken other h =
    let least = doubled-least 5000 w.backoff (omega arith) h in
    let wait = min max_backoff (max (or_zero_ms e.retry_after) (doubled 5000 w.backoff)) in
    let low : 5000 ≤ wait = omega (arith, least) in
    let high : wait ≤ max_backoff = omega arith in
    (
      low,
      idle-least wait woken max_backoff high,
      (elim (Bool-cases w.retry_requested) [
        | inl p ↦ rw (p) (inl refl)
        | inr p ↦ rw (p) (inr (low, high))
      ]),
    )
handle-IsBackoff cut conn now e crash w woken other h =
    let least = doubled-least 10000 w.backoff (omega arith) h in
    (
      omega (arith, least),
      idle-least _ woken max_backoff (omega arith),
      inr (omega (arith, least), omega arith),
    )

to_items-IsBalanced :
    (c : Connector) (cid stream : String) (records : List String) (w : Worker)
    → IsBalanced w.health
    → IsBalanced (to_items c cid stream records w).0.health
unfolding to_items record_error
to_items-IsBalanced c cid stream [] w b = b
to_items-IsBalanced c cid stream (r ∷ records) w b = elim (Option-cases (c.to_item r stream)) [
  | inl p ↦ rw (to_items, p) (to_items-IsBalanced c cid stream records _ b)
  | inr (item, p) ↦ rw (to_items, p) (to_items-IsBalanced c cid stream records w b)
]

module _ (vault : Vault) (c : Connector) (conn : SourceConnection) where
  take_page-IsBalanced :
      (now : ℕ) (stream : String) (p : PageResult) (w : Worker)
      → IsBalanced w.health
      → IsBalanced (take_page vault c conn now stream p w).health
  unfolding take_page
  take_page-IsBalanced now stream p w b =
      let aside = set_aside conn.connection_id stream p.rejected w in
      let (w', items) = to_items c conn.connection_id stream p.records aside in
      let (store, accepted) =
        commit_page vault conn.connection_id stream items p.next_cursor p.window_complete now
          w'.store in
      counted-IsBalanced now p items accepted w'.health (
        to_items-IsBalanced c conn.connection_id stream p.records aside
          (set_aside-IsBalanced conn.connection_id stream p.rejected w b))

  poll_streams-IsBalanced :
      (now : ℕ) (streams : List String) (drained : Bool) (warnings : List String) (w : Worker)
      → IsBalanced w.health
      → IsBalanced (poll_streams vault c conn now streams drained warnings w).0.health
  unfolding poll_streams
  poll_streams-IsBalanced now [] drained warnings w b = b
  poll_streams-IsBalanced now (stream ∷ streams) drained warnings w b =
      elim (Fetched-cases (
        c.fetch_page (cursor_of conn.connection_id stream w.store.cursors) stream
          (not w.tolerate_bad_rows))) [
            | inl (p, h) ↦
                rw (poll_streams, h)
                  (poll_streams-IsBalanced now streams (drained && p.window_complete)
                    (warnings ++ p.source_warnings)
                    (take_page vault c conn now stream p (record w { stream = some stream }))
                    (take_page-IsBalanced now stream p (record w { stream = some stream }) b))
            | inr (e, h) ↦ rw (poll_streams, h) b
          ]

handle-IsBalanced :
    (cut : String → String) (conn : SourceConnection) (now : ℕ) (e : ConnectorError)
    (kind : ErrorKind) (w : Worker)
    → IsBalanced w.health
    → IsBalanced (handle cut conn now e kind w).0.health
unfolding handle record_error fail
handle-IsBalanced cut conn now e configuration w b = b
handle-IsBalanced cut conn now e connector w b = b
handle-IsBalanced cut conn now e crash w b = b

module _ (vault : Vault) (cut : String → String) (c : Connector) (conn : SourceConnection) where
  after_poll-IsBalanced :
      (now : ℕ) (w : Worker) (r : Polled vault c conn)
      → IsBalanced w.health
      → IsBalanced (after_poll vault cut c conn now (w, r)).0.health
  unfolding after_poll succeeded
  after_poll-IsBalanced now w (polled drained warnings) b = b
  after_poll-IsBalanced now w (broken e) b = handle-IsBalanced cut conn now e e.kind w b

  -- A round of the worker, also one that ends in an error after some of its streams, keeps the counters
  -- balanced: records_committed is what was counted as new, updated or duplicate.
  pub run_round-IsBalanced :
      (now : ℕ) (w : Worker)
      → IsBalanced w.health
      → IsBalanced (run_round vault cut c conn now w).0.health
  unfolding run_round
  run_round-IsBalanced now w b =
      let (w', r) = poll_streams vault c conn now c.streams true [] w in
      after_poll-IsBalanced now w' r
        (poll_streams-IsBalanced vault c conn now c.streams true [] w b)

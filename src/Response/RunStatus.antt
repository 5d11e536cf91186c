-- ===== src/Response/RunStatus.antt =====
-- engine/response/run_status.py: which workflow run is an action's, and the status check.
-- Azure Resource Manager's answers are the fields of a record.
use log_lookup_ai.Prelude.{
  ℕ, zero, suc, String, Bool, true, false, not, ◌&&◌, ◌||◌, Option, none, some, List, [], ◌∷◌, ◌++◌,
  ◌==◌, string_eq, if◌then◌else◌, length, keep, contains, ◌⊎◌, inl, inr,
}
use log_lookup_ai.Prelude.Outcome.{
  Outcome, ok, err, forbidden, conflict, unavailable, bad_gateway, ◌>>=◌,
}
use log_lookup_ai.Response.Models.{
  acknowledged, completed, reconciliation_required, state_eq, text, flag, ResponseAction, OutboxRow,
  World, RunLookup,
}
use log_lookup_ai.Response.Policy.{Env, has_role}
use log_lookup_ai.Response.Audit
use log_lookup_ai.Response.Tables.{transaction, set_action, hits, when_state, coalesce, set_outbox}
use log_lookup_ai.Response.Approvals.{get, reply, with_action}
use log_lookup_ai.Response.Dispatcher.{text?, logged}

-- What the code reads of a workflow run.
pub record Run : Type 0 where
  pub name : Option String
  pub status : Option String
  pub tracking_id : Option String
  pub start_time : Option String
  pub end_time : Option String
  pub error_code : Option String
  pub error_message : Option String

-- One page of the list of runs: a ConnectorError with its code, or runs and the next link, which is
-- `true` if its host is Azure Resource Manager's.
pub data Page : Type 0 where
  failed : String → Page
  page : List Run → Option Bool → Page

pub record Azure : Type 0 where
  -- GET runs/<name>: the code of a ConnectorError, or the run
  pub get_run : String → String ⊎ Run
  -- page i of the list, with the server-side filter or without
  pub list_runs : Bool → ℕ → Page
  pub is_uuid : String → Bool
  pub is_run_name : String → Bool

-- MAX_LIST_PAGES
abbrev pub max_list_pages : ℕ
max_list_pages = 5

-- `scrub(str(message))[:300] if message else None`: an empty message counts as none.
abbrev pub scrubbed : Env → Option String → Option String
scrubbed env none = none
scrubbed env (some m) = if m == "" then none else some (env.clip (env.scrub m))

-- _describe; `error_code` is the error's code, or else the run's.
unfoldable pub describe : Env → Run → String → RunLookup
describe env run matched = record {
  found = true;
  reason = "ok";
  status = run.status;
  matched_by = some matched;
  run_name = run.name;
  start_time = run.start_time;
  end_time = run.end_time;
  error_code = run.error_code;
  error_message = scrubbed env run.error_message;
  candidates = 1;
}

-- A lookup that found no run, `RunLookup(False, reason, candidates=n)`.
abbrev pub missing : String → ℕ → RunLookup
missing why n = record {
  found = false;
  reason = why;
  status = none;
  matched_by = none;
  run_name = none;
  start_time = none;
  end_time = none;
  error_code = none;
  error_message = none;
  candidates = n;
}

-- _tracking_id(run) == action_id
abbrev pub is_tracked : String → Run → Bool
is_tracked id run = elim run.tracking_id [ none ↦ false | some t ↦ t == id ]

-- _collect: `inl` is the code of the ConnectorError that it raises.
unfoldable pub collect : (ℕ → Page) → ℕ → ℕ → String → List Run → String ⊎ List Run
unfolding keep
collect pages zero i id found = inr found
collect pages (suc left) i id found = elim (pages i) [
  | failed code ↦ inl code
  | page runs next ↦ elim next [
    | none ↦ inr (found ++ keep (is_tracked id) runs)
    | some false ↦ inl "bad_next_link"
    | some true ↦ collect pages left (suc i) id (found ++ keep (is_tracked id) runs)
  ]
]

-- _find_by_tracking_id: a refused filter falls back on the whole list.
unfoldable pub find_by_tracking_id : Azure → String → String ⊎ List Run
unfolding collect
find_by_tracking_id az id = elim (collect (az.list_runs true) max_list_pages 0 id []) [
  | inr runs ↦ inr runs
  | inl code ↦
      if code == "http_400" then collect (az.list_runs false) max_list_pages 0 id [] else inl code
]

-- What `lookup` makes of the runs with the action's tracking id.
unfoldable pub choose : Env → List Run → RunLookup
unfolding describe
choose env [] = missing "no_match" 0
choose env (run ∷ []) = describe env run "client_tracking_id"
choose env (a ∷ b ∷ rest) = missing "ambiguous" (length (a ∷ b ∷ rest))

unfoldable pub lookup_tracked : Env → Azure → String → String ⊎ RunLookup
unfolding choose
lookup_tracked env az id = elim (find_by_tracking_id az id) [
  | inl code ↦ inl code
  | inr runs ↦ inr (choose env runs)
]

-- What `lookup` makes of the run that the stored run id names.
unfoldable pub judge : Env → String → Run → RunLookup
unfolding describe
judge env id run = elim run.tracking_id [
  | none ↦ describe env run "run_id"
  | some seen ↦
      if not (seen == "") && not (seen == id)
      then missing "id_mismatch" 1
      else describe env run "run_id"
]

-- RunStatusClient.lookup: `inl` is the code of the error that it raises.
unfoldable pub lookup : Env → Azure → String → Option String → String ⊎ RunLookup
unfolding judge lookup_tracked
lookup env az id run_id = if not (az.is_uuid id) then inl "not_configured" else elim run_id [
  | none ↦ lookup_tracked env az id
  | some run ↦
      if run == ""
      then lookup_tracked env az id
      else if not (az.is_run_name run)
      then inr (missing "id_mismatch" 0)
      else elim (az.get_run run) [
        | inr r ↦ inr (judge env id r)
        | inl code ↦ if code == "not_found" then lookup_tracked env az id else inl code
      ]
]

abbrev pub delivered_states : List String
delivered_states = "Running" ∷ "Waiting" ∷ "Succeeded" ∷ []

-- found.found and found.status in DELIVERED_STATES
unfoldable pub proves_delivery : RunLookup → Bool
unfolding contains
proves_delivery l = elim l.status [ none ↦ false | some s ↦ l.found && contains delivered_states s ]

-- The first UPDATE of `check`, which records what Azure said.
abbrev pub observe : ℕ → RunLookup → ResponseAction → ResponseAction
observe now l row = record row {
  remote_status =
      some (elim l.status [ none ↦ "unresolved" | some s ↦ if s == "" then "unresolved" else s ]);
  remote_status_at = some now;
  remote_run = some l;
  provider_run_id = coalesce (if l.found then l.run_name else none) row.provider_run_id;
  updated_at = now;
}

abbrev pub delivered_outbox : ℕ → OutboxRow → OutboxRow
delivered_outbox now o = record o { delivery_state = "delivered"; updated_at = now }

module _ (env : Env) where
  abbrev pub acknowledged_row : ResponseAction → RunLookup → ℕ → ResponseAction → ResponseAction
  acknowledged_row fresh l now row = record row {
    state = acknowledged;
    transition_log = logged fresh now "system" fresh.state acknowledged (
        env.render (
          text "a single workflow run with this action's tracking id exists ("
          ∷ text? l.status
          ∷ text "); delivery proven, effect not assumed"
          ∷ []));
  }

  -- The move to `acknowledged`, on both tables.
  unfoldable pub acknowledge : ℕ → ResponseAction → RunLookup → World → World
  acknowledge now fresh l w = set_outbox fresh.action_id (delivered_outbox now) (
      set_action fresh.action_id (when_state reconciliation_required (acknowledged_row fresh l now))
        w)

  -- The transaction of `check`.
  unfoldable pub check_body : String → String → RunLookup → ℕ → World → Outcome (Bool × World)
  unfolding proves_delivery acknowledge
  check_body user id l now w = get env id w >>= λ fresh.
      let w' = set_action id (observe now l) w in
      let final : Bool =
        fresh.state == reconciliation_required
        && proves_delivery l
        && hits fresh.action_id reconciliation_required w' in
      ok (
        false,
        Audit.append env now user "action.remote_status_checked" id
            (("status", text? (observe now l fresh).remote_status)
              ∷ ("reason", text l.reason)
              ∷ ("matched_by", text? l.matched_by)
              ∷ ("run", text? l.run_name)
              ∷ ("finalised", flag final)
              ∷ [])
            (if final then acknowledge now fresh l w' else w'),
      )

  -- `check` with Azure's answer.
  unfoldable pub check_found :
      String → String → ℕ → String ⊎ RunLookup → World → Outcome ResponseAction × World
  check_found user id now (inl code) w = (
    err bad_gateway,
    Audit.append env now user "action.remote_status_failed" id (("error", text code) ∷ []) w,
  )
  check_found user id now (inr l) w = reply env id (transaction (check_body user id l now) w)

  -- `check` once the action is known to have been sent.
  unfoldable pub check_sent :
      String → String → Option Azure → ℕ → ResponseAction → World → Outcome ResponseAction × World
  unfolding check_found
  check_sent user id none now a w = (err unavailable, w)
  check_sent user id (some azure) now a w =
      check_found user id now (lookup env azure a.action_id a.provider_run_id) w

  -- RunStatusService.check; `az` is None where no client is configured.
  unfoldable pub check :
      String → String → String → Option Azure → ℕ → World → Outcome ResponseAction × World
  check user role id az now w =
      if not (has_role role "responder")
      then (err forbidden, w)
      else with_action (get env id w) w λ a.
        if not
          (a.state == acknowledged || a.state == completed || a.state == reconciliation_required)
        then (err conflict, w)
        else check_sent user id az now a w

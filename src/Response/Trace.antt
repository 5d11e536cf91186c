-- ===== src/Response/Trace.antt =====
-- The operations of the response layer in any order, as the event loop interleaves them. A send
-- takes three steps, so that other operations may come between, and a crash is a trace that stops:
-- `claim` (the network request follows it), then `record` with the verdict.
use log_lookup_ai.Prelude.{ℕ, String, List, [], ◌∷◌, ◌++◌, Option, none, some}
use log_lookup_ai.Response.Models.{ResponseAction, OutboxRow, World, Investigation, DispatchResult}
use log_lookup_ai.Response.Policy.{Env, Submitted}
use log_lookup_ai.Response.Approvals.{propose}
use log_lookup_ai.Response.Decisions.{approve, reject, cancel}
use log_lookup_ai.Response.Dispatcher.{claim, record_result}
use log_lookup_ai.Response.Delivery.{Transport, run_once, recover, resolve}
use log_lookup_ai.Response.RunStatus.{Azure, check}

pub data Op : Type 0 where
  propose_op :
      String
      → String
      → String
      → String
      → ℕ
      → String
      → List (String × Submitted)
      → List String
      → String
      → ℕ
      → Op
  approve_op reject_op : String → String → String → String → ℕ → Op
  cancel_op : String → String → String → ℕ → Op
  claim_op : ℕ → Op
  -- the verdict on an action as the dispatcher read it, at any later time
  record_op : DispatchResult → ℕ → ResponseAction → Op
  run_once_op : Transport → ℕ → Op
  recover_op : ℕ → Op
  resolve_op : String → String → String → String → Option String → String → Option String → ℕ → Op
  check_op : String → String → String → Option Azure → ℕ → Op
  -- the correlator saves revisions and merges
  investigate_op : List Investigation → Op

-- The actions that a claim hands to the transport.
abbrev pub handed : Option (ResponseAction × OutboxRow) → List String
handed none = []
handed (some (a, o)) = a.action_id ∷ []

module _ (env : Env) where
  -- One operation: the world after it, and the actions that it hands to the transport.
  unfoldable pub step : Op → World → World × List String
  step (propose_op u r i c v f p e x n) w = ((propose env u r i c v f p e x n w).1, [])
  step (approve_op u r i x n) w = ((approve env u r i x n w).1, [])
  step (reject_op u r i x n) w = ((reject env u r i x n w).1, [])
  step (cancel_op u r i n) w = ((cancel env u r i n w).1, [])
  step (claim_op n) w = ((claim env n w).0, handed (claim env n w).1)
  step (record_op r n a) w = (record_result env r n a w, [])
  step (run_once_op t n) w = ((run_once env t n w).0, handed (claim env n w).1)
  step (recover_op n) w = ((recover env n w).0, [])
  step (resolve_op u r i o d x f n) w = ((resolve env u r i o d x f n w).1, [])
  step (check_op u r i az n) w = ((check env u r i az n w).1, [])
  step (investigate_op rows) w = (record w { investigations = rows }, [])

  unfoldable pub run : List Op → World → World × List String
  unfolding step
  run [] w = (w, [])
  run (op ∷ ops) w =
      let (w', sent) = step op w in let (w'', later) = run ops w' in (w'', sent ++ later)

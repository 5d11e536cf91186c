-- ===== src/Response/Audit.antt =====
-- engine/response/audit.py: the hash-chained audit trail.
use Prim.Native.Char.{Char}
use log_lookup_ai.Prelude.{
  ℕ, suc, String, Bool, true, false, ◌||◌, not, Option, none, some, List, [], ◌∷◌, ◌++◌, ◌==◌,
  string_eq, if◌then◌else◌, length,
}
use log_lookup_ai.Prelude.Text.{join}
use log_lookup_ai.Response.Models.{num, Detail, AuditEvent, World}
use log_lookup_ai.Response.Policy.{Env}

abbrev pub genesis : String
genesis = "0000000000000000000000000000000000000000000000000000000000000000"

-- The separator of _entry_hash.
abbrev pub separator : Char
separator = "\u{1f}"

-- The parts that `_entry_hash` joins and hashes. The time is rendered as the code stores it.
unfoldable pub entry_parts : Env → String → AuditEvent → List String
entry_parts env prev e =
    prev ∷ env.render (num e.ts ∷ []) ∷ e.actor ∷ e.action ∷ e.target ∷ e.detail ∷ []

unfoldable pub entry_hash : Env → String → AuditEvent → String
unfolding join
entry_hash env prev e = env.sha256 (join separator (entry_parts env prev e))

-- SELECT entry_hash FROM audit_events ORDER BY seq DESC LIMIT 1, or GENESIS
unfoldable pub last_hash : String → List AuditEvent → String
last_hash prev [] = prev
last_hash prev (e ∷ es) = last_hash e.entry_hash es

-- The row that `_append` inserts.
unfoldable pub new_event :
    Env → List AuditEvent → ℕ → String → String → String → Detail → AuditEvent
unfolding last_hash
new_event env events now actor action target detail =
    let e : AuditEvent = record {
      ts = now;
      actor = actor;
      action = action;
      target = target;
      detail = env.dumps detail;
      prev_hash = last_hash genesis events;
      entry_hash = "";
    } in
    record e { entry_hash = entry_hash env (last_hash genesis events) e }

-- AuditLog.append
unfoldable pub append : Env → ℕ → String → String → String → Detail → World → World
append env now actor action target detail w = record w {
  audit = w.audit ++ new_event env w.audit now actor action target detail ∷ [];
}

-- The loop of `verify`: the position of the first broken entry, counted from `seq`.
unfoldable pub first_broken : Env → ℕ → String → List AuditEvent → Option ℕ
first_broken env seq prev [] = none
first_broken env seq prev (e ∷ es) =
    let rest = first_broken env (suc seq) e.entry_hash es in
    if not (e.prev_hash == prev) || not (e.entry_hash == entry_hash env prev e)
    then some seq
    else rest

pub record VerifyReport : Type 0 where
  pub valid : Bool
  pub broken_at : Option ℕ
  pub entries : ℕ

-- AuditLog.verify; `seq` counts from 1.
unfoldable pub verify : Env → List AuditEvent → VerifyReport
unfolding first_broken
verify env rows = elim (first_broken env 1 genesis rows) [
  | some seq ↦ record { valid = false; broken_at = some seq; entries = length rows }
  | none ↦ record { valid = true; broken_at = none; entries = length rows }
]

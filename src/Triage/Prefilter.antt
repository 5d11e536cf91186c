-- ===== src/Triage/Prefilter.antt =====
-- engine/prefilter/rules.py: the suppression of known-benign alerts. `lower` stands for `str.lower`.
pub mod Rules
use log_lookup_ai.Prelude.{
  ℕ, ◌+◌, String, Bool, true, false, not, ◌&&◌, Option, none, some, List, [], ◌∷◌, map, ◌==◌,
  string_eq, if◌then◌else◌, ltb, contains, any,
}

pub record Decision : Type 0 where
  pub suppressed : Bool
  pub rule : Option String
  pub matched : Option String

-- PreFilter, with its networks as the test whether an address text parses and lies in one of them.
pub record PreFilter : Type 0 where
  pub in_networks : String → Bool
  pub service_accounts : List String
  pub scanner_hosts : List String
  pub severity_floor_id : ℕ
  pub kept_count : ℕ
  pub suppressed_count : ℕ

-- What the rules read of a NormalizedAlert; a missing endpoint, device or user has no text.
pub record Alert : Type 0 where
  pub severity_id : ℕ
  pub severity_label : String
  pub src_ip : Option String
  pub device_ip : Option String
  pub user_name : Option String
  pub hostname : Option String

-- The `candidates` of _trusted_ip_match: an address that is there and not empty.
unfoldable pub candidate : Option String → List String
candidate none = []
candidate (some ip) = if ip == "" then [] else ip ∷ []

-- The second loop of _trusted_ip_match.
unfoldable pub first_trusted : (String → Bool) → List String → Option String
first_trusted trusted [] = none
first_trusted trusted (ip ∷ ips) =
    let rest = first_trusted trusted ips in if trusted ip then some ip else rest

-- _trusted_ip_match
unfoldable pub trusted_ip_match : PreFilter → Alert → Option String
unfolding candidate first_trusted
trusted_ip_match f a = elim (first_trusted f.in_networks (candidate a.src_ip)) [
  | some ip ↦ some ip
  | none ↦ first_trusted f.in_networks (candidate a.device_ip)
]

-- Whether a name is there, not empty, and listed in lower case.
unfoldable pub is_listed : (String → String) → List String → Option String → Bool
unfolding contains
is_listed lower names none = false
is_listed lower names (some n) = not (n == "") && contains names (lower n)

abbrev pub suppress : String → Option String → Decision
suppress rule matched = record { suppressed = true; rule = some rule; matched = matched }

abbrev pub keep_alert : Decision
keep_alert = record { suppressed = false; rule = none; matched = none }

-- _record
unfoldable pub record_decision : PreFilter → Decision → PreFilter
record_decision f d =
    if d.suppressed
    then record f { suppressed_count = f.suppressed_count + 1 }
    else record f { kept_count = f.kept_count + 1 }

-- The rules after the severity floor, from the match of the addresses on.
unfoldable pub decide_known : (String → String) → PreFilter → Alert → Option String → Decision
unfolding is_listed
decide_known lower f a (some ip) = suppress "trusted_ip" (some ip)
decide_known lower f a none =
    if is_listed lower f.service_accounts a.user_name
    then suppress "expected_service_account" a.user_name
    else if is_listed lower f.scanner_hosts a.hostname
    then suppress "approved_scanner_host" a.hostname
    else keep_alert

unfoldable pub decide : (String → String) → PreFilter → Alert → Decision
unfolding decide_known trusted_ip_match
decide lower f a =
    if ltb 0 a.severity_id && ltb a.severity_id f.severity_floor_id
    then suppress "severity_floor" (some a.severity_label)
    else decide_known lower f a (trusted_ip_match f a)

-- evaluate
unfoldable pub evaluate : (String → String) → PreFilter → Alert → PreFilter × Decision
unfolding decide record_decision
evaluate lower f a = (record_decision f (decide lower f a), decide lower f a)

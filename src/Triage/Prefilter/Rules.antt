-- ===== src/Triage/Prefilter/Rules.antt =====
-- Which alerts engine/prefilter/rules.py suppresses, and what it counts.
use log_lookup_ai.Prelude.{
  ◌+◌, ◌≡◌, refl, String, Bool, true, false, ◌&&◌, ◌||◌, Option, none, some, List, [], ◌∷◌, arith,
  if◌then◌else◌, ltb, any, Bool-cases, inl, inr,
}
use log_lookup_ai.Triage.Prefilter.{
  PreFilter, Alert, candidate, first_trusted, trusted_ip_match, is_listed, decide_known, decide,
  record_decision, evaluate,
}

is_match : Option String → Bool
is_match none = false
is_match (some ip) = true

first_trusted_lem :
    (trusted : String → Bool) (ips : List String)
    → is_match (first_trusted trusted ips) ≡ any trusted ips
unfolding is_match first_trusted any
first_trusted_lem trusted [] = refl
first_trusted_lem trusted (ip ∷ ips) = elim (Bool-cases (trusted ip)) [
  | inl e ↦ rw e refl
  | inr e ↦ rw e (first_trusted_lem trusted ips)
]

either_match :
    (x y : Option String)
    → is_match (elim x [ some ip ↦ some ip | none ↦ y ]) ≡ (is_match x || is_match y)
unfolding is_match
either_match none y = refl
either_match (some ip) y = refl

known_lem :
    (lower : String → String) (f : PreFilter) (a : Alert) (m : Option String)
    → (decide_known lower f a m).suppressed ≡ (
        is_match m
        || is_listed lower f.service_accounts a.user_name
        || is_listed lower f.scanner_hosts a.hostname)
unfolding decide_known is_match
known_lem lower f a (some ip) = refl
known_lem lower f a none = ground arith

-- An alert is suppressed exactly if its severity is known and below the floor, or one of its addresses
-- is in a trusted network, or its user is an expected service account, or its host an approved
-- scanner.
pub evaluate-suppressed :
    (lower : String → String) (f : PreFilter) (a : Alert)
    → (evaluate lower f a).1.suppressed ≡ (
        (ltb 0 a.severity_id && ltb a.severity_id f.severity_floor_id)
        || (any f.in_networks (candidate a.src_ip) || any f.in_networks (candidate a.device_ip))
        || is_listed lower f.service_accounts a.user_name
        || is_listed lower f.scanner_hosts a.hostname)
unfolding evaluate decide trusted_ip_match
evaluate-suppressed lower f a =
    let known = known_lem lower f a (trusted_ip_match f a) in
    let src = first_trusted_lem f.in_networks (candidate a.src_ip) in
    let dev = first_trusted_lem f.in_networks (candidate a.device_ip) in
    let both =
      either_match (first_trusted f.in_networks (candidate a.src_ip))
        (first_trusted f.in_networks (candidate a.device_ip)) in
    ground (arith, known, src, dev, both)

-- `evaluate` counts each alert once: as suppressed if it is, and as kept otherwise.
evaluate-counts :
    (lower : String → String) (f : PreFilter) (a : Alert)
    → ((evaluate lower f a).0.suppressed_count
        ≡ f.suppressed_count + (if (evaluate lower f a).1.suppressed then 1 else 0))
      × ((evaluate lower f a).0.kept_count + (evaluate lower f a).0.suppressed_count
          ≡ f.kept_count + f.suppressed_count + 1)
unfolding evaluate record_decision
evaluate-counts lower f a = elim (Bool-cases (decide lower f a).suppressed) [
  | inl e ↦ rw e (omega arith, omega arith)
  | inr e ↦ rw e (omega arith, omega arith)
]

-- ===== src/Correlate/Chains.antt =====
-- engine/correlate/chains.py: the tactics of a chain in the order of the kill chain. `upper` and
-- `lower` stand for `str.upper` and for `str.strip` with `str.lower`.
pub mod Order
use log_lookup_ai.Prelude.{
  ℕ, zero, suc, ◌+◌, max, String, Bool, true, false, not, Option, none, some, List, [], ◌∷◌, ◌++◌,
  ◌==◌, string_eq, if◌then◌else◌, ltb, length,
}

-- TACTIC_ORDER
abbrev pub tactic_order : List (String × String)
tactic_order =
    ("TA0043", "reconnaissance")
    ∷ ("TA0042", "resource development")
    ∷ ("TA0001", "initial access")
    ∷ ("TA0002", "execution")
    ∷ ("TA0003", "persistence")
    ∷ ("TA0004", "privilege escalation")
    ∷ ("TA0005", "defense evasion")
    ∷ ("TA0006", "credential access")
    ∷ ("TA0007", "discovery")
    ∷ ("TA0008", "lateral movement")
    ∷ ("TA0009", "collection")
    ∷ ("TA0011", "command and control")
    ∷ ("TA0010", "exfiltration")
    ∷ ("TA0040", "impact")
    ∷ []

-- _RANK_BY_UID and _RANK_BY_NAME, from the rank `n` of the first entry
unfoldable pub rank_by_uid : String → ℕ → List (String × String) → Option ℕ
rank_by_uid uid n [] = none
rank_by_uid uid n (t ∷ ts) =
    let rest = rank_by_uid uid (n + 1) ts in if t.0 == uid then some n else rest

unfoldable pub rank_by_name : String → ℕ → List (String × String) → Option ℕ
rank_by_name name n [] = none
rank_by_name name n (t ∷ ts) =
    let rest = rank_by_name name (n + 1) ts in if t.1 == name then some n else rest

-- The tactic of an attack of an alert.
pub record Tactic : Type 0 where
  pub uid : Option String
  pub name : Option String

-- What the chain reads of a NormalizedAlert: the tactics of `finding_info.attacks`.
pub record Alert : Type 0 where
  pub tactics : List (Option Tactic)

pub data Disposition : Type 0 where
  progressing reversed flat unjudged : Disposition

-- `a or b` on texts that may be missing or empty
unfoldable pub filled : Option String → Option String
filled none = none
filled (some s) = if s == "" then none else some s

-- Pairs of neighbours that the test holds of, `sum(1 for a, b in zip(ranks, ranks[1:]) if test)`.
unfoldable pub count_steps : (ℕ → ℕ → Bool) → List ℕ → ℕ
count_steps test [] = 0
count_steps test (a ∷ []) = 0
count_steps test (a ∷ b ∷ rest) = (if test a b then 1 else 0) + count_steps test (b ∷ rest)

abbrev pub rises : ℕ → ℕ → Bool
rises a b = ltb a b

abbrev pub falls : ℕ → ℕ → Bool
falls a b = ltb b a

-- max(ranks) of a list with the head `r`
unfoldable pub furthest : ℕ → List ℕ → ℕ
furthest r [] = r
furthest r (s ∷ rest) = max r (furthest s rest)

-- The end of progression_disposition, from the ranks.
unfoldable pub judge_ranks : List ℕ → Disposition
unfolding count_steps
judge_ranks ranks =
    let increases = count_steps rises ranks in
    let decreases = count_steps falls ranks in
    if ltb (length ranks) 2
    then unjudged
    else if ltb increases decreases
    then reversed
    else if ltb 0 increases
    then progressing
    else flat

-- What one alert adds to the ranks of the chain.
unfoldable pub add_furthest : List ℕ → List ℕ → List ℕ
unfolding furthest
add_furthest [] rest = rest
add_furthest (r ∷ rs) rest = furthest r rs ∷ rest

-- The name or id of a tactic, as tactic_sequence lists it.
unfoldable pub tactic_label : Option Tactic → List String
unfolding filled
tactic_label none = []
tactic_label (some t) = elim (filled t.name) [
  | some n ↦ n ∷ []
  | none ↦ elim (filled t.uid) [ some u ↦ u ∷ [] | none ↦ [] ]
]

unfoldable pub tactic_labels : List (Option Tactic) → List String
unfolding tactic_label
tactic_labels [] = []
tactic_labels (t ∷ ts) = tactic_label t ++ tactic_labels ts

-- tactic_sequence
unfoldable pub tactic_sequence : List Alert → List String
unfolding tactic_labels
tactic_sequence [] = []
tactic_sequence (a ∷ alerts) = tactic_labels a.tactics ++ tactic_sequence alerts

module _ (upper lower : String → String) where
  -- The second `if` of tactic_rank.
  unfoldable pub name_rank : Option String → Option ℕ
  unfolding filled rank_by_name
  name_rank name = elim (filled name) [
    | none ↦ none
    | some n ↦ rank_by_name (lower n) 0 tactic_order
  ]

  -- tactic_rank
  unfoldable pub tactic_rank : Option String → Option String → Option ℕ
  unfolding filled rank_by_uid name_rank
  tactic_rank uid name = elim (filled uid) [
    | none ↦ name_rank name
    | some u ↦ elim (rank_by_uid (upper u) 0 tactic_order) [
      | some r ↦ some r
      | none ↦ name_rank name
    ]
  ]

  -- The rank that one attack adds to alert_tactic_ranks.
  unfoldable pub attack_ranks : Option Tactic → List ℕ
  unfolding tactic_rank
  attack_ranks none = []
  attack_ranks (some t) = elim (tactic_rank t.uid t.name) [ none ↦ [] | some r ↦ r ∷ [] ]

  unfoldable pub tactics_ranks : List (Option Tactic) → List ℕ
  unfolding attack_ranks
  tactics_ranks [] = []
  tactics_ranks (t ∷ ts) = attack_ranks t ++ tactics_ranks ts

  -- alert_tactic_ranks
  unfoldable pub alert_tactic_ranks : Alert → List ℕ
  unfolding tactics_ranks
  alert_tactic_ranks a = tactics_ranks a.tactics

  -- The loop of progression_disposition.
  unfoldable pub chain_ranks : List Alert → List ℕ
  unfolding alert_tactic_ranks add_furthest
  chain_ranks [] = []
  chain_ranks (a ∷ alerts) = add_furthest (alert_tactic_ranks a) (chain_ranks alerts)

  -- progression_disposition
  unfoldable pub progression_disposition : List Alert → Disposition
  unfolding chain_ranks judge_ranks
  progression_disposition alerts = judge_ranks (chain_ranks alerts)

-- ===== src/Correlate/Chains/Order.antt =====
-- What the disposition of a chain depends on.
use log_lookup_ai.Prelude.{
  ℕ, ◌≤◌, ◌<◌, ◌≡◌, refl, ap, String, List, [], ◌∷◌, ◌++◌, arith, ltb, Bool-cases, inl, inr,
}
use log_lookup_ai.Correlate.Chains.{
  Alert, progressing, rises, falls, count_steps, judge_ranks, alert_tactic_ranks, add_furthest,
  chain_ranks, progression_disposition,
}

module _ (upper lower : String → String) where
  ranks_skip :
      (before after : List Alert) (a : Alert)
      → alert_tactic_ranks upper lower a ≡ []
      → chain_ranks upper lower (before ++ a ∷ after) ≡ chain_ranks upper lower (before ++ after)
  unfolding chain_ranks
  ranks_skip [] after a h = rw h (unfold add_furthest in refl)
  ranks_skip (b ∷ before) after a h =
      ap (add_furthest (alert_tactic_ranks upper lower b)) (ranks_skip before after a h)

  -- An alert without a known tactic, wherever it stands in the chain, does not change its
  -- disposition.
  pub progression_disposition-untagged :
      (before after : List Alert) (a : Alert)
      → alert_tactic_ranks upper lower a ≡ []
      → progression_disposition upper lower (before ++ a ∷ after)
        ≡ progression_disposition upper lower (before ++ after)
  unfolding progression_disposition
  progression_disposition-untagged before after a h = ap judge_ranks (ranks_skip before after a h)

-- The ranks never fall.
abbrev pub IsAscending : List ℕ → Type 0
IsAscending [] = Unit
IsAscending (a ∷ []) = Unit
IsAscending (a ∷ b ∷ rest) = (a ≤ b) × IsAscending (b ∷ rest)

abbrev pub final : ℕ → List ℕ → ℕ
final a [] = a
final a (b ∷ rest) = final b rest

no_falls : (ranks : List ℕ) → IsAscending ranks → count_steps falls ranks ≡ 0
unfolding count_steps
no_falls [] h = refl
no_falls (a ∷ []) h = refl
no_falls (a ∷ b ∷ rest) h = ground (arith, no_falls (b ∷ rest) h.1, h.0)

some_rise :
    (a : ℕ) (rest : List ℕ)
    → IsAscending (a ∷ rest)
    → a < final a rest
    → 0 < count_steps rises (a ∷ rest)
unfolding count_steps
some_rise a [] h up = absurd (omega (arith, up))
some_rise a (b ∷ rest) h up = elim (Bool-cases (ltb a b)) [
  | inl e ↦ rw e (omega arith)
  | inr e ↦ rw e (omega (arith, some_rise b rest h.1 (ground (arith, h.0, up))))
]

-- Tactics that never step back along the kill chain, and end further than they begin, are progressing:
-- links that are missing in between make no difference.
pub judge_ranks-ascending :
    (a : ℕ) (rest : List ℕ)
    → IsAscending (a ∷ rest)
    → a < final a rest
    → judge_ranks (a ∷ rest) ≡ progressing
unfolding judge_ranks
judge_ranks-ascending a [] h up = absurd (omega (arith, up))
judge_ranks-ascending a (b ∷ rest) h up =
    ground (arith, no_falls (a ∷ b ∷ rest) h, some_rise a (b ∷ rest) h up)

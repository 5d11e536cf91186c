-- ===== src/Correlate/Timelines/Search.antt =====
-- The binary search of a timeline finds the place of a moment.
use log_lookup_ai.Prelude.{
  ℕ, zero, suc, ◌+◌, ◌/◌, ◌≤◌, ◌<◌, ◌≡◌, refl, inl, inr, true, false, List, [], ◌∷◌, arith,
  if◌then◌else◌, ltb, length, Bool-cases,
}
use log_lookup_ai.Prelude.Order.{Moment, before, before_asym, before_of_le}
use log_lookup_ai.Correlate.Timelines.{nth, insert_at, bisect_within, bisect}

-- No moment is before the one that stands in front of it.
abbrev pub IsSorted : List Moment → Type 0
IsSorted [] = Unit
IsSorted (x ∷ []) = Unit
IsSorted (x ∷ y ∷ line) = (before y x ≡ false) × IsSorted (y ∷ line)

-- How many moments stand before `m`, and the list with `m` after them.
abbrev pub spot : Moment → List Moment → ℕ
spot m [] = 0
spot m (x ∷ line) = let rest = spot m line in if before x m then suc rest else 0

abbrev pub place : Moment → List Moment → List Moment
place m [] = m ∷ []
place m (x ∷ line) = let rest = place m line in if before x m then x ∷ rest else m ∷ x ∷ line

pub IsSorted-tail : (x : Moment) (line : List Moment) → IsSorted (x ∷ line) → IsSorted line
IsSorted-tail x [] h = tt
IsSorted-tail x (y ∷ line) h = h.1

pub spot-le : (m : Moment) (line : List Moment) → spot m line ≤ length line
spot-le m [] = omega arith
spot-le m (x ∷ line) = ground (arith, spot-le m line)

before-spot :
    (m : Moment) (line : List Moment) (i : ℕ) → i < spot m line → before (nth line i) m ≡ true
unfolding nth
before-spot m [] i h = absurd (omega arith)
before-spot m (x ∷ line) zero h = ground arith
before-spot m (x ∷ line) (suc i) h = ground (arith, before-spot m line i)

first_after : (m x y : Moment) → before y x ≡ false → before x m ≡ false → before y m ≡ false
first_after m x y s h = elim (Bool-cases (before y m)) [
  | inl q ↦ let r = before_of_le x y m s q in cc
  | inr q ↦ q
]

-- What stands after a moment that is not before `m` is not before `m` either.
all_after :
    (m x : Moment) (line : List Moment) (i : ℕ)
    → IsSorted (x ∷ line)
    → before x m ≡ false
    → i < length line
    → before (nth line i) m ≡ false
unfolding nth
all_after m x [] i s h b = absurd (omega arith)
all_after m x (y ∷ line) zero s h b = first_after m x y s.0 h
all_after m x (y ∷ line) (suc i) s h b =
    all_after m y line i s.1 (first_after m x y s.0 h) (omega arith)

after-spot :
    (m : Moment) (line : List Moment) (i : ℕ)
    → IsSorted line
    → spot m line ≤ i
    → i < length line
    → before (nth line i) m ≡ false
unfolding nth
after-spot m [] i s h b = absurd (omega arith)
after-spot m (x ∷ line) zero s h b = ground arith
after-spot m (x ∷ line) (suc i) s h b = elim (Bool-cases (before x m)) [
  | inl e ↦
      after-spot m line i (IsSorted-tail x line s)
        (let k : suc (spot m line) ≤ suc i = rw e at h in omega (arith, k)) (omega arith)
  | inr e ↦ all_after m x line i s e (omega arith)
]

bisect_within_lem :
    (fuel low high : ℕ) (line : List Moment) (m : Moment)
    → IsSorted line
    → high ≤ low + fuel
    → low ≤ spot m line
    → spot m line ≤ high
    → high ≤ length line
    → bisect_within fuel low high line m ≡ spot m line
unfolding bisect_within
bisect_within_lem zero low high line m s f l h b = omega arith
bisect_within_lem (suc fuel) low high line m s f l h b = elim (Bool-cases (ltb low high)) [
  | inr e ↦ rw e (ground arith)
  | inl e ↦ elim (Bool-cases (before (nth line ((low + high) / 2)) m)) [
    | inl p ↦
        rw (e, p)
          (bisect_within_lem fuel ((low + high) / 2 + 1) high line m s (ground arith)
            (ground (arith, after-spot m line ((low + high) / 2) s)) h b)
    | inr p ↦
        rw (e, p)
          (bisect_within_lem fuel low ((low + high) / 2) line m s (ground arith) l
            (ground (arith, before-spot m line ((low + high) / 2))) (ground arith))
  ]
]

-- On a sorted timeline, `_bisect` returns the number of moments before the one that it looks for: its
-- loop ends, and every moment in front of the position is before it and none from there on.
pub bisect_lem : (line : List Moment) (m : Moment) → IsSorted line → bisect line m ≡ spot m line
unfolding bisect
bisect_lem line m s =
    bisect_within_lem (length line) 0 (length line) line m s (omega arith) (omega arith)
      (spot-le m line) (omega arith)

pub insert_at-spot :
    (m : Moment) (line : List Moment) → insert_at (spot m line) m line ≡ place m line
unfolding insert_at
insert_at-spot m [] = refl
insert_at-spot m (x ∷ line) = ground (arith, insert_at-spot m line)

place-IsSorted_after :
    (x m : Moment) (line : List Moment)
    → before m x ≡ false
    → IsSorted (x ∷ line)
    → IsSorted (x ∷ place m line)
place-IsSorted_after x m [] h s = (h, tt)
place-IsSorted_after x m (y ∷ line) h s = elim (Bool-cases (before y m)) [
  | inl e ↦ rw e (s.0, place-IsSorted_after y m line (before_asym y m e) s.1)
  | inr e ↦ rw e (h, (e, s.1))
]

pub place-IsSorted : (m : Moment) (line : List Moment) → IsSorted line → IsSorted (place m line)
place-IsSorted m [] s = tt
place-IsSorted m (x ∷ line) s = elim (Bool-cases (before x m)) [
  | inl e ↦ rw e (place-IsSorted_after x m line (before_asym x m e) s)
  | inr e ↦ rw e (e, s)
]

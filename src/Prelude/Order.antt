-- ===== src/Prelude/Order.antt =====
-- The order of Python's `str`, by code points, and of pairs of a time and a text.
use Prim.Native.Char.{code}
use Prim.Native.Nat.{ℕ}
use Prim.Native.String.{String}
use text.Mathlib.TextEquality.{Char-path}
use mathlib.Core.Path.{◌≡◌, refl}
use mathlib.Core.Logic.{inl, inr}
use mathlib.Core.Bool.{Bool, true, false, ◌&&◌, ◌||◌}
use native.Mathlib.Omega.{arith}
use log_lookup_ai.Prelude.Tests.{ltb, ◌==◌, nat_eq, Bool-cases}

-- s < t
unfoldable pub text_lt : String → String → Bool
text_lt String.[] String.[] = false
text_lt String.[] (String.◌∷◌ d t) = true
text_lt (String.◌∷◌ c s) String.[] = false
text_lt (String.◌∷◌ c s) (String.◌∷◌ d t) =
    ltb (code c) (code d) || (code c == code d && text_lt s t)

pub text_lt_irrefl : (s : String) → text_lt s s ≡ false
unfolding text_lt
text_lt_irrefl String.[] = refl
text_lt_irrefl (String.◌∷◌ c s) = ground (arith, text_lt_irrefl s)

pub text_lt_trans : (s t u : String) → text_lt s t ≡ true → text_lt t u ≡ true → text_lt s u ≡ true
unfolding text_lt
text_lt_trans String.[] String.[] u p q = cc
text_lt_trans String.[] (String.◌∷◌ d t) String.[] p q = cc
text_lt_trans String.[] (String.◌∷◌ d t) (String.◌∷◌ e u) p q = refl
text_lt_trans (String.◌∷◌ c s) String.[] u p q = cc
text_lt_trans (String.◌∷◌ c s) (String.◌∷◌ d t) String.[] p q = cc
text_lt_trans (String.◌∷◌ c s) (String.◌∷◌ d t) (String.◌∷◌ e u) p q =
    ground (arith, text_lt_trans s t u)

pub text_lt_total : (s t : String) → text_lt s t ≡ false → text_lt t s ≡ false → s ≡ t
unfolding text_lt
text_lt_total String.[] String.[] p q = refl
text_lt_total String.[] (String.◌∷◌ d t) p q = cc
text_lt_total (String.◌∷◌ c s) String.[] p q = cc
text_lt_total (String.◌∷◌ c s) (String.◌∷◌ d t) p q =
    let e : code c ≡ code d = ground arith in
    let f : s ≡ t = text_lt_total s t (ground arith) (ground arith) in let g = Char-path c d e in cc

-- A moment on a timeline: an event time and the alert's uid.
abbrev pub Moment : Type 0
Moment = ℕ × String

-- Tuples compare by their first parts, and then by their second.
unfoldable pub before : Moment → Moment → Bool
unfolding text_lt
before (t, u) (t', u') = ltb t t' || (t == t' && text_lt u u')

pub before_irrefl : (m : Moment) → before m m ≡ false
unfolding before
before_irrefl (t, u) = ground (arith, text_lt_irrefl u)

pub before_trans : (l m n : Moment) → before l m ≡ true → before m n ≡ true → before l n ≡ true
unfolding before
before_trans (t, u) (t', u') (t'', u'') p q = ground (arith, text_lt_trans u u' u'')

pub before_total : (l m : Moment) → before l m ≡ false → before m l ≡ false → l ≡ m
unfolding before
before_total (t, u) (t', u') p q =
    let e : t ≡ t' = ground arith in
    let f : u ≡ u' = text_lt_total u u' (ground arith) (ground arith) in cc

pub before_asym : (l m : Moment) → before l m ≡ true → before m l ≡ false
before_asym l m p = elim (Bool-cases (before m l)) [
  | inl q ↦ let r = before_trans l m l p q in cc (before_irrefl l)
  | inr q ↦ q
]

-- What is not later than something earlier is earlier.
pub before_of_le : (l m n : Moment) → before m l ≡ false → before m n ≡ true → before l n ≡ true
before_of_le l m n p q = elim (Bool-cases (before l m)) [
  | inl r ↦ before_trans l m n r q
  | inr r ↦ let e = before_total l m r p in cc
]

pub le_of_before : (l m n : Moment) → before l m ≡ true → before n m ≡ false → before l n ≡ true
le_of_before l m n p q = elim (Bool-cases (before m n)) [
  | inl r ↦ before_trans l m n p r
  | inr r ↦ let e = before_total m n r q in cc
]

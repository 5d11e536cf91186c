-- ===== src/Prelude/Tests.antt =====
-- Boolean tests, equality by instances, the conditional and the case splits that keep an equation.
use Prim.Native.Nat.{ℕ, ◌≤◌, ◌<◌, compare, Ordering}
use Prim.Native.String.{String}
use text.Mathlib.Text.{◌==◌ as str_eq}
use text.Mathlib.TextEquality.{eq_iff}
use mathlib.Core.Path.{◌≡◌, refl}
use mathlib.Core.Logic.{◌↔◌, ◌⊎◌, inl, inr}
use mathlib.Core.Bool.{Bool, true, false}
use mathlib.Core.Option.{Option, none, some}
use native.Mathlib.Omega.{arith}

abbrev pub ltb : ℕ → ℕ → Bool
ltb a b = elim (compare a b) [ Ordering.lt ↦ true | _ ↦ false ]

abbrev pub leb : ℕ → ℕ → Bool
leb a b = elim (compare a b) [ Ordering.gt ↦ false | _ ↦ true ]

abbrev nat_beq : ℕ → ℕ → Bool
nat_beq a b = elim (compare a b) [ Ordering.eq ↦ true | _ ↦ false ]

pub nat_beq_iff : (a b : ℕ) → (nat_beq a b ≡ true) ↔ (a ≡ b)
nat_beq_iff a b = ground arith

infix 1 if◌then◌else◌
abbrev pub if◌then◌else◌ {ℓ} : {A : Type ℓ} → Bool → A → A → A
if true then x else y = x
if false then x else y = y

-- A type with a test that decides its equality.
pub record HasEq {ℓ} (B : Type ℓ) : Type ℓ where
  pub same : B → B → Bool
  pub same_iff : (x y : B) → (same x y ≡ true) ↔ (x ≡ y)

-- Texts are compared by the library's test.
instance abbrev pub string_eq : HasEq String
string_eq = record { same_iff = eq_iff; same = str_eq }

-- Python's `==`
infix 50 ◌==◌
abbrev pub ◌==◌ {ℓ} : {B : Type ℓ} ⦃d : HasEq B⦄ → B → B → Bool
◌==◌ ⦃d⦄ x y = d.same x y

instance abbrev pub nat_eq : HasEq ℕ
nat_eq = record { same_iff = nat_beq_iff; same = nat_beq }

-- The test on two texts and their equality, for the lists of the tactics.
pub text_iff : (s t : String) → ((s == t) ≡ true) ↔ (s ≡ t)
text_iff = eq_iff

pub text_refl : (s : String) → (s == s) ≡ true
text_refl s = (eq_iff s s).1 refl

pub Bool-cases : (b : Bool) → (b ≡ true) ⊎ (b ≡ false)
Bool-cases true = inl refl
Bool-cases false = inr refl

pub Option-cases {ℓ} : {A : Type ℓ} (o : Option A) → (o ≡ none) ⊎ ((a : A) × (o ≡ some a))
Option-cases none = inl refl
Option-cases (some a) = inr (a, refl)

pub ltb→lt : (a b : ℕ) → ltb a b ≡ true → a < b
ltb→lt a b h = ground arith

pub leb→le : (a b : ℕ) → leb a b ≡ true → a ≤ b
leb→le a b h = ground arith

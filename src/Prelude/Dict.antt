-- ===== src/Prelude/Dict.antt =====
-- Python's dictionaries, as lists of keys and values in the order of their insertion.
use mathlib.Core.Path.{◌≡◌, refl}
use mathlib.Core.Option.{Option, none, some}
use mathlib.Core.List.{List, [], ◌∷◌}
use native.Mathlib.Omega.{arith}
use log_lookup_ai.Prelude.Tests.{HasEq, ◌==◌, if◌then◌else◌}

abbrev pub Dict {ℓ κ} : Type ℓ → Type κ → Type (ℓ ⊔ κ)
Dict K V = List (K × V)

module _ {ℓ κ} {K : Type ℓ} {V : Type κ} ⦃d : HasEq K⦄ where
  -- d.get(k)
  unfoldable pub get : K → Dict K V → Option V
  get k [] = none
  get k ((j, v) ∷ m) = if j == k then some v else get k m

  -- d[k] = v
  unfoldable pub put : K → V → Dict K V → Dict K V
  put k v [] = (k, v) ∷ []
  put k v ((j, w) ∷ m) = let rest = put k v m in if j == k then (j, v) ∷ m else (j, w) ∷ rest

  -- d.pop(k, None)
  unfoldable pub pop : K → Dict K V → Dict K V
  pop k [] = []
  pop k ((j, w) ∷ m) = let rest = pop k m in if j == k then rest else (j, w) ∷ rest

  pub get-put :
      (k j : K) (v : V) (m : Dict K V) → get j (put k v m) ≡ (if k == j then some v else get j m)
  unfolding get put
  get-put k j v [] = refl
  get-put k j v ((i, w) ∷ m) =
      ground (arith, d.same_iff k j, d.same_iff i k, d.same_iff i j, get-put k j v m)

  pub get-pop : (k j : K) (m : Dict K V) → get j (pop k m) ≡ (if k == j then none else get j m)
  unfolding get pop
  get-pop k j [] = ground arith
  get-pop k j ((i, w) ∷ m) =
      ground (arith, d.same_iff k j, d.same_iff i k, d.same_iff i j, get-pop k j m)

-- ===== src/Prelude/Table.antt =====
-- A database table with a text as its primary key: a list of rows in the order of insertion.
use Prim.Native.String.{String}
use mathlib.Core.Path.{◌≡◌, refl}
use mathlib.Core.Logic.{◌≢◌, inl, inr}
use mathlib.Core.Option
use mathlib.Core.Option.{Option, none, some}
use mathlib.Core.List.{List, [], ◌∷◌, ◌++◌}
use native.Mathlib.Omega.{arith}
use log_lookup_ai.Prelude.Tests.{◌==◌, if◌then◌else◌, text_iff, string_eq, Bool-cases}

module _ {ℓ} {R : Type ℓ} (key : R → String) where
  -- SELECT * FROM t WHERE key = k
  unfoldable pub find : String → List R → Option R
  find k [] = none
  find k (r ∷ rs) = if key r == k then some r else find k rs

  -- UPDATE t SET f WHERE key = k
  unfoldable pub update : String → (R → R) → List R → List R
  update k f [] = []
  update k f (r ∷ rs) = (if key r == k then f r else r) ∷ update k f rs

  pub find-key : (k : String) (rs : List R) {r : R} → find k rs ≡ some r → key r ≡ k
  unfolding find
  find-key k [] h = cc
  find-key k (r' ∷ rs) {r} h = ground (arith, text_iff (key r') k, find-key k rs {r = r})

  pub find-update_ne :
      (k j : String) (f : R → R) (rs : List R)
      → ((r : R) → key (f r) ≡ key r)
      → k ≢ j
      → find j (update k f rs) ≡ find j rs
  unfolding find update
  find-update_ne k j f [] same h = refl
  find-update_ne k j f (r ∷ rs) same h = ground (
    arith,
    text_iff (key r) k,
    text_iff (key r) j,
    text_iff (key (f r)) j,
    same r,
    find-update_ne k j f rs same h,
  )

  pub find-update_self :
      (k : String) (f : R → R) (rs : List R)
      → ((r : R) → key (f r) ≡ key r)
      → find k (update k f rs) ≡ Option.map f (find k rs)
  unfolding find update
  find-update_self k f [] same = refl
  find-update_self k f (r ∷ rs) same =
      ground
        (arith, text_iff (key r) k, text_iff (key (f r)) k, same r, find-update_self k f rs same)

  -- INSERT INTO t: the new row comes last.
  pub find-append :
      (k : String) (rs : List R) (r : R)
      → find k (rs ++ r ∷ [])
        ≡ elim (find k rs) [ some a ↦ some a | none ↦ if key r == k then some r else none ]
  unfolding find
  find-append k [] r = refl
  find-append k (r' ∷ rs) r = ground (arith, find-append k rs r)

  -- No two rows have the same key.
  abbrev pub Unique : List R → Type ℓ
  Unique [] = Unit
  Unique (r ∷ rs) = (find (key r) rs ≡ none) × Unique rs

  find-update-none :
      (k j : String) (f : R → R) (rs : List R)
      → ((r : R) → key (f r) ≡ key r)
      → find j rs ≡ none
      → find j (update k f rs) ≡ none
  unfolding find update
  find-update-none k j f [] same h = refl
  find-update-none k j f (r ∷ rs) same h = ground (
    arith,
    text_iff (key r) k,
    text_iff (key r) j,
    text_iff (key (f r)) j,
    same r,
    find-update-none k j f rs same,
  )

  pub Unique-update :
      (k : String) (f : R → R) (rs : List R)
      → ((r : R) → key (f r) ≡ key r)
      → Unique rs
      → Unique (update k f rs)
  unfolding update
  Unique-update k f [] same u = u
  Unique-update k f (r ∷ rs) same u = (
    elim (Bool-cases (key r == k)) [
      | inl e ↦ rw (e, same r) (find-update-none k (key r) f rs same u.0)
      | inr n ↦ rw n (find-update-none k (key r) f rs same u.0)
    ],
    Unique-update k f rs same u.1,
  )

  pub Unique-append :
      (rs : List R) (r : R) → find (key r) rs ≡ none → Unique rs → Unique (rs ++ r ∷ [])
  unfolding find
  Unique-append [] r h u = (refl, u)
  Unique-append (r' ∷ rs) r h u = (
    rw (find-append (key r') rs r, u.0)
        (ground (arith, text_iff (key r) (key r'), text_iff (key r') (key r))),
    Unique-append rs r (ground arith) u.1,
  )

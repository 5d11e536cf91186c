-- ===== src/Prelude/Text.antt =====
-- Texts that are joined by a separator, and what can be read back of them.
use Prim.Native.Char.{Char, code}
use Prim.Native.String.{String, [], ◌∷◌, ◌++◌}
use mathlib.Core.Path.{◌≡◌, refl, sym, ap, ◌∙◌}
use mathlib.Core.Bool.{Bool, true, not, ◌&&◌}
use native.Mathlib.Omega.{arith}
use log_lookup_ai.Prelude.Tests.{◌==◌, nat_eq, nat_beq_iff}
use mathlib.Core.List as List
use text.Mathlib.TextLemmas.{nil-append, cons-append}
use mathlib.Core.Logic.{◌≢◌}

-- separator.join(parts)
unfoldable pub join : Char → List.List String → String
join c List.[] = ""
join c (List.◌∷◌ s List.[]) = s
join c (List.◌∷◌ s (List.◌∷◌ t parts)) = s ++ (c ∷ join c (List.◌∷◌ t parts))

-- The character does not stand in the text.
abbrev pub IsFree : Char → String → Type 0
IsFree c [] = Unit
IsFree c (d ∷ s) = (d ≢ c) × IsFree c s

-- Two texts without the separator, and what follows their separator, can be read back.
pub cut :
    (c : Char) (s t u v : String)
    → IsFree c s
    → IsFree c t
    → s ++ (c ∷ u) ≡ t ++ (c ∷ v)
    → (s ≡ t) × (u ≡ v)
cut c [] [] u v f g e =
    let h : c ∷ u ≡ c ∷ v = sym (nil-append (c ∷ u)) ∙ e ∙ nil-append (c ∷ v) in (refl, cc)
cut c [] (d ∷ t) u v f g e =
    let h : c ∷ u ≡ d ∷ (t ++ (c ∷ v)) = sym (nil-append (c ∷ u)) ∙ e ∙ cons-append d t (c ∷ v) in
    absurd (g.0 cc)
cut c (d ∷ s) [] u v f g e =
    let h : d ∷ (s ++ (c ∷ u)) ≡ c ∷ v = sym (cons-append d s (c ∷ u)) ∙ e ∙ nil-append (c ∷ v) in
    absurd (f.0 cc)
cut c (d ∷ s) (d' ∷ t) u v f g e =
    let h : d ∷ (s ++ (c ∷ u)) ≡ d' ∷ (t ++ (c ∷ v)) =
      sym (cons-append d s (c ∷ u)) ∙ e ∙ cons-append d' t (c ∷ v) in
    let rest : s ++ (c ∷ u) ≡ t ++ (c ∷ v) = cc in
    let (p, q) = cut c s t u v f.1 g.1 rest in (cc, q)

-- Whether the character does not stand in the text.
unfoldable pub is_free : Char → String → Bool
is_free c [] = true
is_free c (d ∷ s) = not (code d == code c) && is_free c s

pub is_free-IsFree : (c : Char) (s : String) → is_free c s ≡ true → IsFree c s
unfolding is_free
is_free-IsFree c [] h = tt
is_free-IsFree c (d ∷ s) h = (
  (λ e. let same : (code d == code c) ≡ true = (nat_beq_iff (code d) (code c)).1 (ap code e) in cc),
  is_free-IsFree c s (ground arith),
)

-- ===== src/Correlate/Entities/Whole.antt =====
-- The objects of the live entities of engine/correlate/entities.py, and _merge.
use log_lookup_ai.Prelude.{
  ℕ, ◌≡◌, ◌≢◌, refl, sym, ap, ◌∙◌, ◌⊎◌, inl, inr, String, true, ◌&&◌, not, Option, some, List, [],
  ◌∷◌, arith, ◌==◌, nat_eq, string_eq, nat_beq_iff, keep, contains, Bool-cases, Option-cases, min,
  max,
}
use log_lookup_ai.Prelude.Dict.{Dict, get, get-put}
use log_lookup_ai.Correlate.Entities.{
  Entity, Triple, Resolver, modify, add, absorb_values, absorb_kinds, merge_into, merge, is_older,
  add_triples,
}
use log_lookup_ai.Correlate.Entities.Validity.{modify-live}

-- The number has an object, which is of that number.
abbrev pub HasObject : ℕ → Dict ℕ Entity → Type 0
HasObject u objects = (e : Entity) × (get u objects ≡ some e) × (e.uid ≡ u)

-- Every live entity has its object.
abbrev pub IsWhole : Resolver → Type 0
IsWhole r = (u : ℕ) → contains r.live u ≡ true → HasObject u r.objects

-- The step neither adds nor removes an entity.
pub record Carries (l : List ℕ) (objects : Dict ℕ Entity) (l' : List ℕ) (objects' : Dict ℕ Entity)
    : Type 0 where
  pub live : l' ≡ l
  pub kept : (u : ℕ) → HasObject u objects → HasObject u objects'

-- A step of the resolver.
abbrev pub Carried : Resolver → Resolver → Type 0
Carried r r' = Carries r.live r.objects r'.live r'.objects

carried : (live : List ℕ) (objects : Dict ℕ Entity) → Carries live objects live objects
carried live objects = record { live = refl; kept = λ u h. h }

pub Carries-then :
    {k l m : List ℕ} {o p q : Dict ℕ Entity} → Carries k o l p → Carries l p m q → Carries k o m q
Carries-then f g = record { live = g.live ∙ f.live; kept = λ u h. g.kept u (f.kept u h) }

pub Carried-IsWhole : (r s : Resolver) → Carried r s → IsWhole r → IsWhole s
Carried-IsWhole r s f whole u h = f.kept u (whole u (ap (λ xs. contains xs u) (sym f.live) ∙ h))

modify-HasObject :
    (uid : ℕ) (f : Entity → Entity) (r : Resolver) (u : ℕ)
    → ((e : Entity) → (f e).uid ≡ e.uid)
    → HasObject u r.objects
    → HasObject u (modify uid f r).objects
unfolding modify
modify-HasObject uid f r u keeps (e, at, same) = elim (Option-cases (get uid r.objects)) [
  | inl p ↦ rw (modify, p) (e, at, same)
  | inr (x, p) ↦ elim (Bool-cases (uid == u)) [
    | inl q ↦
        let s : uid ≡ u = (nat_beq_iff uid u).0 q in
        let owned : x ≡ e = cc in
        rw (modify, p)
          (
            f x,
            get-put uid u (f x) r.objects ∙ rw q refl,
            keeps x ∙ ap (λ (y : Entity). y.uid) owned ∙ same,
          )
    | inr q ↦ rw (modify, p) (e, get-put uid u (f x) r.objects ∙ rw q at, same)
  ]
]

pub modify-Carries :
    (uid : ℕ) (f : Entity → Entity) (r : Resolver)
    → ((e : Entity) → (f e).uid ≡ e.uid)
    → Carried r (modify uid f r)
modify-Carries uid f r keeps = record {
  live = modify-live uid f r;
  kept = λ u h. modify-HasObject uid f r u keeps h;
}

add-uid :
    (kind value : String) (display : Option String) (e : Entity)
    → (add kind value display e).uid ≡ e.uid
unfolding add
add-uid kind value display e = refl

pub add_triples-Carries :
    (uid : ℕ) (triples : List Triple) (r : Resolver) → Carried r (add_triples uid triples r)
unfolding add_triples
add_triples-Carries uid [] r = carried r.live r.objects
add_triples-Carries uid ((kind, value, display) ∷ triples) r =
    Carries-then
      (modify-Carries uid (add kind value (some display)) r (add-uid kind value (some display)))
      (add_triples-Carries uid triples _)

absorb_values-Carries :
    (kind : String) (display : Option String) (uid : ℕ) (values : List String) (r : Resolver)
    → Carried r (absorb_values kind display uid values r)
unfolding absorb_values
absorb_values-Carries kind display uid [] r = carried r.live r.objects
absorb_values-Carries kind display uid (v ∷ values) r =
    Carries-then (modify-Carries uid (add kind v display) r (add-uid kind v display))
      (absorb_values-Carries kind display uid values _)

absorb_kinds-Carries :
    (absorbed : Entity) (uid : ℕ) (kinds : Dict String (List String)) (r : Resolver)
    → Carried r (absorb_kinds absorbed uid kinds r)
unfolding absorb_kinds
absorb_kinds-Carries absorbed uid [] r = carried r.live r.objects
absorb_kinds-Carries absorbed uid ((kind, values) ∷ kinds) r =
    Carries-then (absorb_values-Carries kind (get kind absorbed.display) uid values r)
      (absorb_kinds-Carries absorbed uid kinds _)

-- The list without the number.
abbrev pub without : ℕ → List ℕ → List ℕ
without gone xs = keep (λ u. not (u == gone)) xs

pub contains-without :
    (gone : ℕ) (xs : List ℕ) (u : ℕ)
    → contains (without gone xs) u ≡ (not (u == gone) && contains xs u)
unfolding contains keep
contains-without gone [] u = ground arith
contains-without gone (x ∷ xs) u =
    ground
      (arith, contains-without gone xs u, nat_beq_iff x gone, nat_beq_iff u gone, nat_beq_iff x u)

-- What a merge of two entities does: it answers with one of them, and the other is gone.
pub record Fused (kept gone : ℕ) (r r' : Resolver) (answer : ℕ) : Type 0 where
  pub kept_is : answer ≡ kept
  pub live : r'.live ≡ without gone r.live
  pub objects : (u : ℕ) → HasObject u r.objects → HasObject u r'.objects

merge_into-Fused :
    (kept absorbed : Entity) (r : Resolver)
    → Fused kept.uid absorbed.uid r (merge_into kept absorbed r).0 (merge_into kept absorbed r).1
unfolding merge_into
merge_into-Fused kept absorbed r =
    let f = absorb_kinds-Carries absorbed kept.uid absorbed.identifiers r in
    let g =
      modify-Carries kept.uid
        (λ (e : Entity). record e {
          first_seen_ms = min e.first_seen_ms absorbed.first_seen_ms;
          last_seen_ms = max e.last_seen_ms absorbed.last_seen_ms;
        })
        (absorb_kinds absorbed kept.uid absorbed.identifiers r) (λ e. refl) in
    let h = Carries-then f g in
    record { kept_is = refl; live = ap (without absorbed.uid) h.live; objects = h.kept }

pub merge-Fused :
    (e f : Entity) (r : Resolver)
    → e.uid ≢ f.uid
    → Fused e.uid f.uid r (merge e f r).0 (merge e f r).1
      ⊎ Fused f.uid e.uid r (merge e f r).0 (merge e f r).1
unfolding merge
merge-Fused e f r differ = elim (Bool-cases (e.uid == f.uid)) [
  | inl p ↦ absurd (differ ((nat_beq_iff e.uid f.uid).0 p))
  | inr p ↦ elim (Bool-cases (is_older e f)) [
    | inl q ↦ rw (p, q) (inr (merge_into-Fused f e r))
    | inr q ↦ rw (p, q) (inl (merge_into-Fused e f r))
  ]
]

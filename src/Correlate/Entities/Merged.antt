-- ===== src/Correlate/Entities/Merged.antt =====
-- The loop of merges in _resolve_durable of engine/correlate/entities.py.
use log_lookup_ai.Prelude.{
  ℕ, ◌≡◌, ◌≢◌, refl, sym, ap, ◌∙◌, subst, ◌⊎◌, inl, inr, true, false, ◌&&◌, ◌||◌, not, List, [],
  ◌∷◌, arith, ◌==◌, nat_eq, string_eq, nat_beq_iff, contains, All, Bool-cases,
}
use log_lookup_ai.Prelude.Dict.{get}
use log_lookup_ai.Correlate.Entities.{Resolver, merge, merge_two, merge_all}
use log_lookup_ai.Correlate.Entities.Whole.{IsWhole, without, contains-without, Fused, merge-Fused}

-- The numbers are those of live entities, and distinct.
abbrev pub AllLive : Resolver → List ℕ → Type 0
AllLive r xs = All (λ u. contains r.live u ≡ true) xs

abbrev pub Apart : List ℕ → Type 0
Apart [] = Unit
Apart (x ∷ xs) = (contains xs x ≡ false) × Apart xs

-- What is left of the entities `xs` of `r` is the entity `answer`; the others are gone, and no entity
-- besides.
pub record Merged (xs : List ℕ) (r r' : Resolver) (answer : ℕ) : Type 0 where
  pub whole : IsWhole r'
  pub alive : contains r'.live answer ≡ true
  pub among : contains xs answer ≡ true
  pub one : (u : ℕ) → contains xs u ≡ true → (u ≡ answer) ⊎ (contains r'.live u ≡ false)
  pub others : (u : ℕ) → contains xs u ≡ false → contains r'.live u ≡ contains r.live u

Fused-IsWhole :
    (kept gone : ℕ) (r r' : Resolver) (answer : ℕ)
    → Fused kept gone r r' answer
    → IsWhole r
    → IsWhole r'
Fused-IsWhole kept gone r r' answer f whole u h =
    let there : contains (without gone r.live) u ≡ true =
      ap (λ xs. contains xs u) (sym f.live) ∙ h in
    f.objects u (whole u (ground (arith, there, contains-without gone r.live u)))

Fused-live :
    (kept gone : ℕ) (r r' : Resolver) (answer : ℕ)
    → Fused kept gone r r' answer
    → (u : ℕ) → contains r'.live u ≡ (not (u == gone) && contains r.live u)
Fused-live kept gone r r' answer f u =
    ap (λ xs. contains xs u) f.live ∙ contains-without gone r.live u

AllLive-after :
    (gone : ℕ) (r r' : Resolver) (xs : List ℕ)
    → ((u : ℕ) → contains r'.live u ≡ (not (u == gone) && contains r.live u))
    → contains xs gone ≡ false
    → AllLive r xs
    → AllLive r' xs
unfolding contains
AllLive-after gone r r' [] after away live = tt
AllLive-after gone r r' (x ∷ xs) after away (here, live) = (
  ground (arith, after x, here, away, nat_beq_iff x gone),
  AllLive-after gone r r' xs after (ground arith) live,
)

merge_two-Fused :
    (uid other : ℕ) (r : Resolver)
    → IsWhole r
    → contains r.live uid ≡ true
    → contains r.live other ≡ true
    → uid ≢ other
    → Fused uid other r
        (merge_two (get uid r.objects) (get other r.objects) uid r).0
        (merge_two (get uid r.objects) (get other r.objects) uid r).1
      ⊎ Fused other uid r
          (merge_two (get uid r.objects) (get other r.objects) uid r).0
          (merge_two (get uid r.objects) (get other r.objects) uid r).1
unfolding merge_two
merge_two-Fused uid other r whole live olive differ =
    let (e, at, same) = whole uid live in
    let (f, oat, osame) = whole other olive in
    rw (at, oat)
      (subst
        (λ a.
          Fused a other r (merge e f r).0 (merge e f r).1
          ⊎ Fused other a r (merge e f r).0 (merge e f r).1)
        same
        (subst
          (λ b.
            Fused e.uid b r (merge e f r).0 (merge e f r).1
            ⊎ Fused b e.uid r (merge e f r).0 (merge e f r).1)
          osame (merge-Fused e f r (λ p. differ (sym same ∙ p ∙ osame)))))

-- The two entities of a step are the one that it keeps and the one that goes.
abbrev AreBoth : ℕ → ℕ → ℕ → ℕ → Type 0
AreBoth uid other kept gone = ((kept ≡ uid) × (gone ≡ other)) ⊎ ((kept ≡ other) × (gone ≡ uid))

same_members :
    (uid other kept gone : ℕ) (others : List ℕ) (u : ℕ)
    → AreBoth uid other kept gone
    → contains (uid ∷ other ∷ others) u ≡ (u == gone || contains (kept ∷ others) u)
unfolding contains
same_members uid other kept gone others u (inl (p, q)) =
    ground (arith, nat_beq_iff u gone, nat_beq_iff other u)
same_members uid other kept gone others u (inr (p, q)) =
    ground (arith, nat_beq_iff u gone, nat_beq_iff uid u)

-- A step that leaves `kept` of two entities, and then the merge with the others.
Merged-step :
    (uid other kept gone : ℕ) (others : List ℕ) (r s t : Resolver) (answer : ℕ)
    → AreBoth uid other kept gone
    → contains (kept ∷ others) gone ≡ false
    → ((u : ℕ) → contains s.live u ≡ (not (u == gone) && contains r.live u))
    → Merged (kept ∷ others) s t answer
    → Merged (uid ∷ other ∷ others) r t answer
Merged-step uid other kept gone others r s t answer who away after m = record {
  whole = m.whole;
  alive = m.alive;
  among = ground (arith, same_members uid other kept gone others answer who, m.among);
  one = λ u h. elim (Bool-cases (u == gone)) [
    | inl p ↦
        let at : u ≡ gone = (nat_beq_iff u gone).0 p in
        let left : contains t.live gone ≡ contains s.live gone = m.others gone away in
        let out : contains s.live gone ≡ false =
          ground (arith, after gone, (nat_beq_iff gone gone).1 refl) in
        inr (ap (λ x. contains t.live x) at ∙ left ∙ out)
    | inr p ↦ m.one u (ground (arith, p, h, same_members uid other kept gone others u who))
  ];
  others = λ u h.
      let out : contains (kept ∷ others) u ≡ false =
        ground (arith, h, same_members uid other kept gone others u who) in
      let differ : (u == gone) ≡ false =
        ground (arith, h, same_members uid other kept gone others u who) in
      m.others u out ∙ after u ∙ rw differ refl;
}

-- The entity that a step keeps is live and apart from the others, as they are.
step_before :
    (uid other kept gone : ℕ) (others : List ℕ) (r s : Resolver)
    → AreBoth uid other kept gone
    → ((u : ℕ) → contains s.live u ≡ (not (u == gone) && contains r.live u))
    → AllLive r (uid ∷ other ∷ others)
    → Apart (uid ∷ other ∷ others)
    → AllLive s (kept ∷ others) × Apart (kept ∷ others) × (contains (kept ∷ others) gone ≡ false)
unfolding contains
step_before uid other kept gone others r s (inl (p, q)) after (live, (olive, rest)) (a, (b, c)) = (
  (
    ground (arith, after kept, live, a, nat_beq_iff kept gone, nat_beq_iff other uid),
    AllLive-after gone r s others after (ground arith) rest,
  ),
  (ground (arith, a), c),
  ground (arith, a, b, nat_beq_iff other uid, nat_beq_iff kept gone),
)
step_before uid other kept gone others r s (inr (p, q)) after (live, (olive, rest)) (a, (b, c)) = (
  (
    ground (arith, after kept, olive, a, nat_beq_iff kept gone, nat_beq_iff other uid),
    AllLive-after gone r s others after (ground arith) rest,
  ),
  (ground (arith, b), c),
  ground (arith, a, b, nat_beq_iff other uid, nat_beq_iff kept gone),
)

pub merge_all-Merged :
    (uid : ℕ) (others : List ℕ) (r : Resolver)
    → IsWhole r
    → AllLive r (uid ∷ others)
    → Apart (uid ∷ others)
    → Merged (uid ∷ others) r (merge_all uid others r).0 (merge_all uid others r).1
unfolding merge_all contains
merge_all-Merged uid [] r whole live apart = record {
  whole = whole;
  alive = live.0;
  among = ground (arith, (nat_beq_iff uid uid).1 refl);
  one = λ u h. inl (ground (arith, h, nat_beq_iff uid u));
  others = λ u h. refl;
}
merge_all-Merged uid (other ∷ others) r whole live apart =
    let (s, next) = merge_two (get uid r.objects) (get other r.objects) uid r in
    let differ : uid ≢ other = λ p. ground (arith, apart.0, (nat_beq_iff other uid).1 (sym p)) in
    elim (merge_two-Fused uid other r whole live.0 live.1.0 differ) [
      | inl f ↦ go uid other (inl (refl, refl)) f (merge_all-Merged next others s)
      | inr f ↦ go other uid (inr (refl, refl)) f (merge_all-Merged next others s)
    ]
  where
    step : Resolver × ℕ
    step = merge_two (get uid r.objects) (get other r.objects) uid r

    go :
        (kept gone : ℕ)
        → AreBoth uid other kept gone
        → Fused kept gone r step.0 step.1
        → (IsWhole step.0
            → AllLive step.0 (step.1 ∷ others)
            → Apart (step.1 ∷ others)
            → Merged
                (step.1 ∷ others)
                step.0
                (merge_all step.1 others step.0).0
                (merge_all step.1 others step.0).1)
        → Merged
            (uid ∷ other ∷ others)
            r
            (merge_all step.1 others step.0).0
            (merge_all step.1 others step.0).1
    go kept gone who f next_merged =
        let after = Fused-live kept gone r step.0 step.1 f in
        let (lives, aparts, away) =
          step_before uid other kept gone others r step.0 who after live apart in
        let back : kept ≡ step.1 = sym f.kept_is in
        Merged-step uid other step.1 gone others r step.0 _ _
          (subst (λ k. AreBoth uid other k gone) back who)
          (subst (λ k. contains (k ∷ others) gone ≡ false) back away) after
          (next_merged (Fused-IsWhole kept gone r step.0 step.1 f whole)
            (subst (λ k. AllLive step.0 (k ∷ others)) back lives)
            (subst (λ k. Apart (k ∷ others)) back aparts))

-- ===== src/Correlate/Entities/Joined.antt =====
-- The identifiers that stand on one alert lead to one entity afterwards.
use log_lookup_ai.Prelude.{
  ℕ, ◌≡◌, refl, sym, subst, String, ◌&&◌, Option, none, some, List, [], ◌∷◌, arith, string_eq, ◌==◌,
  text_iff, text_refl, if◌then◌else◌, All, true, false, ◌++◌, contains, nat_eq, nat_beq_iff,
  Bool-cases, inl, inr, ◌⊎◌, ap, ◌∙◌,
}
use log_lookup_ai.Prelude.Dict.{get-put}
use log_lookup_ai.Correlate.Entities.{
  new_entity, merge_all, Domain, Entity, Triple, IndexEntry, Resolver, modify, index_get, index_put,
  add, add_triples, resolve_durable, known_or_new, find_known, seen_at,
}
use log_lookup_ai.Correlate.Entities.Whole.{
  IsWhole, Carries-then, Carried-IsWhole, modify-Carries, add_triples-Carries,
}
use log_lookup_ai.Correlate.Entities.Merged.{merge_all-Merged}
use log_lookup_ai.Correlate.Entities.Sought.{
  Seen, unknown, dead, met, Sought, find_known-Sought, contains-last, Unrelated,
}
use log_lookup_ai.Correlate.Entities.Validity.{modify-durable_index}

index_get-put :
    (kind value jkind jvalue : String) (uid : ℕ) (xs : List IndexEntry)
    → index_get jkind jvalue (index_put kind value uid xs)
      ≡ (if kind == jkind && value == jvalue then some uid else index_get jkind jvalue xs)
unfolding index_get index_put
index_get-put kind value jkind jvalue uid [] = refl
index_get-put kind value jkind jvalue uid (x ∷ xs) = ground (
  arith,
  text_iff x.kind kind,
  text_iff x.value value,
  text_iff kind jkind,
  text_iff value jvalue,
  text_iff x.kind jkind,
  text_iff x.value jvalue,
  index_get-put kind value jkind jvalue uid xs,
)

-- The identifiers of the list lead to the entity.
abbrev pub Known : ℕ → List IndexEntry → List Triple → Type 0
Known uid xs triples = All (λ (t : Triple). index_get t.0 t.1 xs ≡ some uid) triples

put-first :
    (uid : ℕ) (k v : String) (xs : List IndexEntry)
    → index_get k v (index_put k v uid xs) ≡ some uid
put-first uid k v xs = rw (index_get-put k v k v uid xs, text_refl k, text_refl v) refl

put-kept :
    (uid : ℕ) (k v kind value : String) (xs : List IndexEntry)
    → index_get kind value xs ≡ some uid
    → index_get kind value (index_put k v uid xs) ≡ some uid
put-kept uid k v kind value xs h = rw (index_get-put k v kind value uid xs) (ground arith)

add_triples-kept :
    (uid : ℕ) (kind value : String) (triples : List Triple) (r : Resolver)
    → index_get kind value r.durable_index ≡ some uid
    → index_get kind value (add_triples uid triples r).durable_index ≡ some uid
unfolding add_triples
add_triples-kept uid kind value [] r h = h
add_triples-kept uid kind value ((k, v, d) ∷ triples) r h =
    add_triples-kept uid kind value triples _ (
      put-kept uid k v kind value (modify uid (add k v (some d)) r).durable_index
        (rw (modify-durable_index uid (add k v (some d)) r) h))

add_triples-Known :
    (uid : ℕ) (triples : List Triple) (r : Resolver)
    → Known uid (add_triples uid triples r).durable_index triples
unfolding add_triples
add_triples-Known uid [] r = tt
add_triples-Known uid ((k, v, d) ∷ triples) r =
    (add_triples-kept uid k v triples _ (put-first uid k v _), add_triples-Known uid triples _)

-- What becomes of the entity that an identifier led to before: there was none, or it is the answer, or it
-- is not among the live entities afterwards.
pub data Led (answer : ℕ) (live : List ℕ) (o : Option ℕ) : Type 0 where
  nowhere : o ≡ none → Led answer live o
  same : o ≡ some answer → Led answer live o
  gone : (old : ℕ) → o ≡ some old → contains live old ≡ false → Led answer live o

-- The live entities to which none of the identifiers led are live still.
abbrev pub Spared : List Triple → Resolver → Resolver → Type 0
Spared triples r after =
    (u : ℕ) → contains r.live u ≡ true → Unrelated u r triples → contains after.live u ≡ true

-- The entity of the identifiers, as known_or_new answers with it.
record Settled (triples : List Triple) (r after : Resolver) (answer : ℕ) : Type 0 where
  whole : IsWhole after
  alive : contains after.live answer ≡ true
  spared : Spared triples r after
  led : All (λ (t : Triple). Led answer after.live (index_get t.0 t.1 r.durable_index)) triples

Seen-Led :
    (found : List ℕ) (r : Resolver) (live : List ℕ) (answer : ℕ) (o : Option ℕ)
    → ((old : ℕ) → contains r.live old ≡ false → (old ≡ answer) ⊎ (contains live old ≡ false))
    → ((old : ℕ) → contains found old ≡ true → (old ≡ answer) ⊎ (contains live old ≡ false))
    → Seen found r o
    → Led answer live o
Seen-Led found r live answer o lost one (unknown e) = nowhere e
Seen-Led found r live answer o lost one (dead old e h) = elim (lost old h) [
  | inl p ↦ same (e ∙ ap some p)
  | inr p ↦ gone old e p
]
Seen-Led found r live answer o lost one (met old e h) = elim (one old h) [
  | inl p ↦ same (e ∙ ap some p)
  | inr p ↦ gone old e p
]

All-Led :
    (found : List ℕ) (r : Resolver) (live : List ℕ) (answer : ℕ) (triples : List Triple)
    → ((old : ℕ) → contains r.live old ≡ false → (old ≡ answer) ⊎ (contains live old ≡ false))
    → ((old : ℕ) → contains found old ≡ true → (old ≡ answer) ⊎ (contains live old ≡ false))
    → All (λ (t : Triple). Seen found r (index_get t.0 t.1 r.durable_index)) triples
    → All (λ (t : Triple). Led answer live (index_get t.0 t.1 r.durable_index)) triples
All-Led found r live answer [] lost one h = tt
All-Led found r live answer (t ∷ triples) lost one h = (
  Seen-Led found r live answer (index_get t.0 t.1 r.durable_index) lost one h.0,
  All-Led found r live answer triples lost one h.1,
)

new_entity-IsWhole :
    (scope : Domain) (now : ℕ) (r : Resolver) → IsWhole r → IsWhole (new_entity scope now r).0
unfolding new_entity
new_entity-IsWhole scope now r whole u h = elim (Bool-cases (r.next_uid == u)) [
  | inl p ↦
      (fresh, get-put r.next_uid u fresh r.objects ∙ rw p refl, (nat_beq_iff r.next_uid u).0 p)
  | inr p ↦
      let (e, at, own) = whole u (ground (arith, contains-last r.live r.next_uid u, h)) in
      (e, get-put r.next_uid u fresh r.objects ∙ rw p at, own)
]
  where
    fresh : Entity
    fresh = record {
      uid = r.next_uid;
      domain = scope;
      identifiers = [];
      display = [];
      first_seen_ms = now;
      last_seen_ms = now;
    }

known_or_new-Settled :
    (scope : Domain) (now : ℕ) (triples : List Triple) (found : List ℕ) (r : Resolver)
    → IsWhole r
    → Sought triples [] r found
    → Settled triples r (known_or_new scope now found r).0 (known_or_new scope now found r).1
unfolding known_or_new new_entity contains
known_or_new-Settled scope now triples [] r whole s = record {
  whole = new_entity-IsWhole scope now r whole;
  alive = ground (
    arith,
    contains-last r.live r.next_uid r.next_uid,
    (nat_beq_iff r.next_uid r.next_uid).1 refl,
  );
  spared = λ u h n. ground (arith, contains-last r.live r.next_uid u, h);
  led =
      All-Led [] r (r.live ++ r.next_uid ∷ []) r.next_uid triples
        (λ old h. elim (Bool-cases (r.next_uid == old)) [
          | inl p ↦ inl (sym ((nat_beq_iff r.next_uid old).0 p))
          | inr p ↦ inr (contains-last r.live r.next_uid old ∙ rw (h, p) refl)
        ])
        (λ old h. cc) s.each;
}
known_or_new-Settled scope now triples (uid ∷ others) r whole s =
    let m = merge_all-Merged uid others r whole s.live s.apart in
    record {
      whole = m.whole;
      alive = m.alive;
      spared = λ u h n. m.others u (s.only u refl n) ∙ h;
      led =
          All-Led (uid ∷ others) r (merge_all uid others r).0.live (merge_all uid others r).1
            triples
            (λ old h. elim (Bool-cases (contains (uid ∷ others) old)) [
              | inl p ↦ m.one old p
              | inr p ↦ inr (m.others old p ∙ h)
            ])
            m.one s.each;
    }

-- The answer of resolve_durable: none, only if there are no identifiers, or an entity.
pub data IsJoined (triples : List Triple) (r after : Resolver) : Option ℕ → Type 0 where
  nothing : triples ≡ [] → IsJoined triples r after none
  joined :
      (uid : ℕ)
      → contains after.live uid ≡ true
      → Spared triples r after
      → Known uid after.durable_index triples
      → All (λ (t : Triple). Led uid after.live (index_get t.0 t.1 r.durable_index)) triples
      → IsJoined triples r after (some uid)

IsJoined-after :
    (triples : List Triple) (now : ℕ) (r s : Resolver) (uid : ℕ)
    → Settled triples r s uid
    → IsWhole (modify uid (seen_at now) (add_triples uid triples s))
      × IsJoined triples r (modify uid (seen_at now) (add_triples uid triples s)) (some uid)
IsJoined-after triples now r s uid h =
    let steps =
      Carries-then (add_triples-Carries uid triples s)
        (modify-Carries uid (seen_at now) (add_triples uid triples s) (λ e. refl)) in
    (
      Carried-IsWhole s (modify uid (seen_at now) (add_triples uid triples s)) steps h.whole,
      joined uid (subst (λ live. contains live uid ≡ true) (sym steps.live) h.alive)
          (λ u there n. ap (λ live. contains live u) steps.live ∙ h.spared u there n)
          (subst (λ xs. Known uid xs triples)
            (sym (modify-durable_index uid (seen_at now) (add_triples uid triples s)))
            (add_triples-Known uid triples s))
          (subst
            (λ live. All (λ (t : Triple). Led uid live (index_get t.0 t.1 r.durable_index)) triples)
            (sym steps.live) h.led),
    )

-- Where every live entity has its object, resolve_durable answers with a live entity, to which all the
-- identifiers that stand on the alert lead afterwards; each other entity that one of them led to before is
-- no longer live, and every one that none of them led to is live still. It answers with none only if
-- there are no identifiers, and every live entity has its object again.
pub resolve_durable-IsJoined :
    (scope : Domain) (triples : List Triple) (now : ℕ) (r : Resolver)
    → IsWhole r
    → IsWhole (resolve_durable scope triples now r).0
      × IsJoined triples r
          (resolve_durable scope triples now r).0
          (resolve_durable scope triples now r).1
unfolding resolve_durable
resolve_durable-IsJoined scope [] now r whole = (whole, nothing refl)
resolve_durable-IsJoined scope (t ∷ triples) now r whole = IsJoined-after (t ∷ triples) now r _ _ (
    known_or_new-Settled scope now (t ∷ triples) (find_known (t ∷ triples) [] r) r whole
      (find_known-Sought (t ∷ triples) [] r tt tt))

-- ===== src/Correlate/Entities/Sought.antt =====
-- The entities that the index has for the identifiers of an alert: find_known, the first loop of
-- _resolve_durable.
use log_lookup_ai.Prelude.{
  ℕ, ◌≡◌, refl, ◌&&◌, Option, none, some, List, [], ◌∷◌, arith, string_eq, ◌==◌, if◌then◌else◌, All,
  true, false, ◌||◌, not, ◌++◌, contains, nat_eq, nat_beq_iff, Bool-cases, inl, inr, ◌≢◌, ◌∙◌, ap,
}
use log_lookup_ai.Correlate.Entities.{Triple, Resolver, index_get, find_known}
use log_lookup_ai.Correlate.Entities.Merged.{AllLive, Apart}

-- What the index had for an identifier: nothing, the number of an entity that is no longer there, or that
-- of one of the entities that are found.
pub data Seen (found : List ℕ) (r : Resolver) (o : Option ℕ) : Type 0 where
  unknown : o ≡ none → Seen found r o
  dead : (old : ℕ) → o ≡ some old → contains r.live old ≡ false → Seen found r o
  met : (old : ℕ) → o ≡ some old → contains found old ≡ true → Seen found r o

-- None of the identifiers leads to the entity.
abbrev pub Unrelated : ℕ → Resolver → List Triple → Type 0
Unrelated u r triples = All (λ (t : Triple). index_get t.0 t.1 r.durable_index ≢ some u) triples

-- What find_known finds, beyond the entities that it had.
pub record Sought (triples : List Triple) (had : List ℕ) (r : Resolver) (found : List ℕ)
    : Type 0 where
  pub live : AllLive r found
  pub apart : Apart found
  pub keeps : (u : ℕ) → contains had u ≡ true → contains found u ≡ true
  pub only : (u : ℕ) → contains had u ≡ false → Unrelated u r triples → contains found u ≡ false
  pub each : All (λ (t : Triple). Seen found r (index_get t.0 t.1 r.durable_index)) triples

pub contains-last : (xs : List ℕ) (u v : ℕ) → contains (xs ++ u ∷ []) v ≡ (contains xs v || u == v)
unfolding contains
contains-last [] u v = ground arith
contains-last (x ∷ xs) u v = ground (arith, contains-last xs u v)

AllLive-last :
    (r : Resolver) (xs : List ℕ) (u : ℕ)
    → AllLive r xs
    → contains r.live u ≡ true
    → AllLive r (xs ++ u ∷ [])
AllLive-last r [] u h here = (here, tt)
AllLive-last r (x ∷ xs) u h here = (h.0, AllLive-last r xs u h.1 here)

Apart-last : (xs : List ℕ) (u : ℕ) → Apart xs → contains xs u ≡ false → Apart (xs ++ u ∷ [])
unfolding contains
Apart-last [] u h new = (refl, tt)
Apart-last (x ∷ xs) u h new = (
  ground (arith, contains-last xs u x, h.0, new, nat_beq_iff u x, nat_beq_iff x u),
  Apart-last xs u h.1 (ground arith),
)

pub find_known-Sought :
    (triples : List Triple) (had : List ℕ) (r : Resolver)
    → AllLive r had
    → Apart had
    → Sought triples had r (find_known triples had r)
unfolding find_known
find_known-Sought [] had r live apart = record {
  live = live;
  apart = apart;
  keeps = λ u h. h;
  only = λ u h n. h;
  each = tt;
}
find_known-Sought ((kind, value, display) ∷ triples) had r live apart =
    by_entry (index_get kind value r.durable_index) refl λ had'. find_known-Sought triples had' r
  where
    extended :
        (had' : List ℕ)
        → Sought triples had' r (find_known triples had' r)
        → ((u : ℕ) → contains had u ≡ true → contains had' u ≡ true)
        → ((u : ℕ)
            → contains had u ≡ false
            → index_get kind value r.durable_index ≢ some u
            → contains had' u ≡ false)
        → Seen (find_known triples had' r) r (index_get kind value r.durable_index)
        → Sought ((kind, value, display) ∷ triples) had r (find_known triples had' r)
    extended had' s wider narrower first = record {
      live = s.live;
      apart = s.apart;
      keeps = λ u h. s.keeps u (wider u h);
      only = λ u h n. s.only u (narrower u h n.0) n.1;
      each = (first, s.each);
    }

    newly :
        {uid : ℕ} (u : ℕ) → contains had u ≡ false → uid ≢ u → contains (had ++ uid ∷ []) u ≡ false
    newly {uid} u h n = ground (arith, contains-last had uid u, h, n, nat_beq_iff uid u)

    by_entry :
        (o : Option ℕ)
        → index_get kind value r.durable_index ≡ o
        → ((had' : List ℕ)
            → AllLive r had'
            → Apart had'
            → Sought triples had' r (find_known triples had' r))
        → Sought ((kind, value, display) ∷ triples) had r (
            find_known triples
              (elim o [
                | none ↦ had
                | some uid ↦
                    if contains r.live uid && not (contains had uid) then had ++ uid ∷ [] else had
              ])
              r)
    by_entry none at go = extended had (go had live apart) (λ u h. h) (λ u h n. h) (unknown at)
    by_entry (some uid) at go = elim (Bool-cases (contains r.live uid)) [
      | inr p ↦ rw p (extended had (go had live apart) (λ u h. h) (λ u h n. h) (dead uid at p))
      | inl p ↦ elim (Bool-cases (contains had uid)) [
        | inl q ↦
            let s = go had live apart in
            rw (p, q) (extended had s (λ u h. h) (λ u h n. h) (met uid at (s.keeps uid q)))
        | inr q ↦
            let s =
              go (had ++ uid ∷ []) (AllLive-last r had uid live p) (Apart-last had uid apart q) in
            rw (p, q)
              (extended (had ++ uid ∷ []) s (λ u h. ground (arith, contains-last had uid u, h))
                (λ u h n. newly u h (λ e. n (at ∙ ap some e)))
                (met uid at (
                  s.keeps uid
                    (ground (arith, contains-last had uid uid, (nat_beq_iff uid uid).1 refl)))))
      ]
    ]

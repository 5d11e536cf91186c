-- ===== src/Correlate/ClusterIds/Stability.antt =====
-- Ids of chains are stable for their anchors and never issued twice, also across a restart.
use log_lookup_ai.Prelude.{
  ℕ, ◌+◌, ◌≤◌, max, String, true, ◌≡◌, ◌≢◌, refl, sym, ap, ◌∙◌, subst, inl, inr, Option, none, some,
  [], ◌∷◌, string_eq, ◌==◌, text_iff, Bool-cases, arith,
}
use log_lookup_ai.Prelude.Dict.{Dict, get, put, get-put}
use log_lookup_ai.Correlate.ClusterIds.{
  IdOps, CounterKey, key_eq, key_same_iff, Generator, or_zero, put_all, raise_all, preload,
  issue_id, next_id, next_for,
}

-- For an anchor that is known, next_id answers with its id and changes nothing.
next_id-known :
    (ops : IdOps) (t : ℕ) (name anchor cid : String) (g : Generator)
    → get anchor g.by_anchor ≡ some cid
    → next_id ops t name anchor g ≡ (g, cid)
unfolding next_id next_for
next_id-known ops t name anchor cid g h = ap (λ o. next_for ops t name anchor o g) h

-- The keys of a dictionary are distinct.
abbrev pub IsDict {ℓ} : {V : Type ℓ} → Dict String V → Type ℓ
IsDict [] = Unit
IsDict ((k, v) ∷ d) = (get k d ≡ none) × IsDict d

or_else : Option String → Option String → Option String
or_else none o = o
or_else (some x) o = some x

get-put_all :
    (k : String) (anchors d : Dict String String)
    → IsDict anchors
    → get k (put_all anchors d) ≡ or_else (get k anchors) (get k d)
unfolding put_all get or_else
get-put_all k [] d h = refl
get-put_all k ((j, v) ∷ anchors) d (apart, h) =
    get-put_all k anchors (put j v d) h ∙ elim (Bool-cases (j == k)) [
      | inl p ↦
          let none_k : get k anchors ≡ none =
            subst (λ x. get x anchors ≡ none) ((text_iff j k).0 p) apart in
          rw (p, none_k, get-put j k v d, p) refl
      | inr p ↦ rw (p, get-put j k v d, p) refl
    ]

-- A generator that is preloaded with persisted anchors gives each of them its persisted id.
pub preload-next_id :
    (ops : IdOps) (t : ℕ) (name anchor cid : String) (anchors : Dict String String)
    (counters : Dict CounterKey ℕ) (g : Generator)
    → IsDict anchors
    → get anchor anchors ≡ some cid
    → (next_id ops t name anchor (preload anchors counters g)).1 ≡ cid
unfolding preload or_else
preload-next_id ops t name anchor cid anchors counters g distinct h =
    let e : get anchor (put_all anchors g.by_anchor) ≡ some cid =
      get-put_all anchor anchors g.by_anchor distinct ∙ rw (h) refl in
    ap (λ x. x.1) (next_id-known ops t name anchor cid (preload anchors counters g) e)

-- Counters only grow.
raise-grows :
    (k j : CounterKey) (n : ℕ) (d : Dict CounterKey ℕ)
    → or_zero (get k d) ≤ or_zero (get k (put j (max (or_zero (get j d)) n) d))
raise-grows k j n d = elim (Bool-cases (j == k)) [
  | inl p ↦
      let e : j ≡ k = (key_same_iff j k).0 p in
      rw (get-put j k (max (or_zero (get j d)) n) d, p)
        (subst (λ x. or_zero (get x d) ≤ max (or_zero (get j d)) n) e (omega arith))
  | inr p ↦ rw (get-put j k (max (or_zero (get j d)) n) d, p) (omega arith)
]

raise_all-grows :
    (k : CounterKey) (cs d : Dict CounterKey ℕ)
    → or_zero (get k d) ≤ or_zero (get k (raise_all cs d))
unfolding raise_all
raise_all-grows k [] d = omega arith
raise_all-grows k ((j, n) ∷ cs) d =
    omega (arith, raise_all-grows k cs (put j (max (or_zero (get j d)) n) d), raise-grows k j n d)

raise-reaches :
    (k j : CounterKey) (n : ℕ) (d : Dict CounterKey ℕ)
    → (j == k) ≡ true
    → n ≤ or_zero (get k (put j (max (or_zero (get j d)) n) d))
raise-reaches k j n d p = rw (get-put j k (max (or_zero (get j d)) n) d, p) (omega arith)

-- A persisted counter is reached after preload.
raise_all-reaches :
    (k : CounterKey) (cs d : Dict CounterKey ℕ)
    → or_zero (get k cs) ≤ or_zero (get k (raise_all cs d))
unfolding raise_all get
raise_all-reaches k [] d = omega arith
raise_all-reaches k ((j, n) ∷ cs) d = elim (Bool-cases (j == k)) [
  | inl p ↦ rw (p) (
      omega (
        arith,
        raise_all-grows k cs (put j (max (or_zero (get j d)) n) d),
        raise-reaches k j n d p,
      ))
  | inr p ↦ rw (p) (raise_all-reaches k cs (put j (max (or_zero (get j d)) n) d))
]

-- After preload, the id of an anchor that is not known is none of those with a persisted number: its
-- number is greater than the persisted counter of its date and label, where different numbers make
-- different ids.
pub preload-fresh :
    (ops : IdOps) (t m : ℕ) (name anchor : String) (anchors : Dict String String)
    (counters : Dict CounterKey ℕ) (g : Generator)
    → ((date label : String) (i j : ℕ)
        → ops.chain_id date label i ≡ ops.chain_id date label j
        → i ≡ j)
    → get anchor (preload anchors counters g).by_anchor ≡ none
    → m ≤ or_zero (get (ops.date_of t, ops.sanitize_label name) counters)
    → (next_id ops t name anchor (preload anchors counters g)).1
      ≢ ops.chain_id (ops.date_of t) (ops.sanitize_label name) m
unfolding next_id next_for issue_id preload
preload-fresh ops t m name anchor anchors counters g inj unknown le h =
    let key : CounterKey = (ops.date_of t, ops.sanitize_label name) in
    let e : ops.chain_id (ops.date_of t) (ops.sanitize_label name)
          (or_zero (get key (raise_all counters g.counters)) + 1)
        ≡ ops.chain_id (ops.date_of t) (ops.sanitize_label name) m =
      sym (ap (λ o. (next_for ops t name anchor o (preload anchors counters g)).1) unknown) ∙ h in
    absurd (
      omega (
        arith,
        inj (ops.date_of t) (ops.sanitize_label name) _ m e,
        raise_all-reaches key counters g.counters,
        le,
      ))

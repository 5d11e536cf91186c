-- ===== src/Correlate/Engine/Merging.antt =====
-- The merges of chains: following them ends, at the latest after as many steps as there are chains.
use log_lookup_ai.Prelude.{
  ℕ, zero, suc, ◌≤◌, ◌<◌, String, false, ◌≡◌, refl, sym, ap, ◌∙◌, subst, inl, inr, Option, none,
  some, [], ◌∷◌, string_eq, ◌==◌, text_iff, if◌then◌else◌, length, Bool-cases, arith,
}
use log_lookup_ai.Prelude.Dict.{Dict, get, pop, get-pop}
use log_lookup_ai.Correlate.Engine.{Cluster, Engine}
use log_lookup_ai.Correlate.Engine.Revisions.{pointer, merged_into, live_cluster}

abbrev pub target : Dict String Cluster → String → Option String
target d cid = pointer (get cid d)

-- Following the merges ends after exactly `n` steps.
pub data Ends (d : Dict String Cluster) : ℕ → String → Type 0 where
  stop : {cid : String} → target d cid ≡ none → Ends d zero cid
  hop : {cid next : String} {n : ℕ} → target d cid ≡ some next → Ends d n next → Ends d (suc n) cid

-- The number of steps is determined.
Ends-same : (d : Dict String Cluster) {m n : ℕ} {cid : String} → Ends d m cid → Ends d n cid → m ≡ n
Ends-same d (stop p) (stop q) = refl
Ends-same d (stop p) (hop q r) = cc
Ends-same d (hop p r) (stop q) = cc
Ends-same d {cid = cid} (hop {next = k} p r) (hop {next = l} {n = n} q s) =
    let e : l ≡ k = cc in ap suc (Ends-same d r (subst (Ends d n) e s))

pub target-pop :
    (d : Dict String Cluster) (cid x : String)
    → target (pop cid d) x ≡ (if cid == x then none else target d x)
unfolding pointer
target-pop d cid x = elim (Bool-cases (cid == x)) [
  | inl p ↦ rw (get-pop cid x d, p) refl
  | inr p ↦ rw (get-pop cid x d, p) refl
]

-- What is met nearer to the end is another chain.
Ends-differ :
    (d : Dict String Cluster) (cid x : String) (m n : ℕ)
    → Ends d m cid
    → Ends d n x
    → n < m
    → (cid == x) ≡ false
Ends-differ d cid x m n far near lt = elim (Bool-cases (cid == x)) [
  | inl p ↦
      let e = Ends-same d far (subst (Ends d n) (sym ((text_iff cid x).0 p)) near) in
      absurd (omega (arith, e, lt))
  | inr p ↦ p
]

-- Without a chain that is not met, the steps are the same.
Ends-pop :
    (d : Dict String Cluster) (cid x : String) (m n : ℕ)
    → Ends d m cid
    → n < m
    → Ends d n x
    → Ends (pop cid d) n x
Ends-pop d cid x m zero far lt (stop p) =
    stop (target-pop d cid x ∙ rw (Ends-differ d cid x m zero far (stop p) lt) p)
Ends-pop d cid x m (suc n) far lt (hop {next = k} p near) =
    hop (target-pop d cid x ∙ rw (Ends-differ d cid x m (suc n) far (hop p near) lt) p)
      (Ends-pop d cid k m n far (omega (arith, lt)) near)

length-pop : (d : Dict String Cluster) (cid : String) → length (pop cid d) ≤ length d
unfolding pop
length-pop [] cid = omega arith
length-pop ((k, c) ∷ d) cid = ground (arith, length-pop d cid)

length-pop_found :
    (d : Dict String Cluster) (cid next : String)
    → target d cid ≡ some next
    → length (pop cid d) < length d
unfolding pop get pointer
length-pop_found [] cid next h = cc
length-pop_found ((k, c) ∷ d) cid next h = elim (Bool-cases (k == cid)) [
  | inl p ↦ rw (p) (omega (arith, length-pop d cid))
  | inr p ↦ rw (p) (
      omega (
        arith,
        length-pop_found d cid next
            (subst (λ b. pointer (if b then some c else get cid d) ≡ some next) p h),
      ))
]

-- The steps are at most as many as the chains.
pub Ends-bound : (n : ℕ) (d : Dict String Cluster) (cid : String) → Ends d n cid → n ≤ length d
Ends-bound zero d cid e = omega arith
Ends-bound (suc n) d cid (hop {next = k} p e) = omega (
  arith,
  Ends-bound n (pop cid d) k (Ends-pop d cid k (suc n) n (hop p e) (omega arith) e),
  length-pop_found d cid k p,
)

-- The end of the merges of a chain.
abbrev pub IsEnd : Engine → Option String → Type 0
IsEnd e o = (k : String) × ((o ≡ some k) × (merged_into e k ≡ none))

pub live_cluster-IsEnd :
    (fuel : ℕ) (e : Engine) (n : ℕ) (cid : String)
    → Ends e.clusters n cid
    → n < fuel
    → IsEnd e (live_cluster fuel e cid)
unfolding live_cluster merged_into
live_cluster-IsEnd (suc fuel) e zero cid (stop p) lt = rw (live_cluster, p) (cid, (refl, p))
live_cluster-IsEnd (suc fuel) e (suc n) cid (hop {next = k} p h) lt =
    rw (live_cluster, p) (live_cluster-IsEnd fuel e n k h (omega (arith, lt)))
live_cluster-IsEnd zero e n cid h lt = absurd (omega (arith, lt))

-- The merges of every chain end.
abbrev pub AllEnd : Dict String Cluster → Type 0
AllEnd d = (cid : String) → (n : ℕ) × Ends d n cid

-- ===== src/Correlate/Timelines/Stitching.antt =====
-- The edges of the graph join every two neighbours of a timeline that are within the window.
use log_lookup_ai.Prelude.{
  ℕ, suc, ◌+◌, ◌-◌, ◌≤◌, ◌<◌, ◌≡◌, refl, ap, sym, subst, inl, inr, String, true, false, List, [],
  ◌∷◌, ◌++◌, arith, ◌==◌, string_eq, text_iff, ltb, leb, length, Bool-cases,
}
use log_lookup_ai.Prelude.Order.{Moment, before}
use log_lookup_ai.Correlate.Timelines.{Edge, nth, bisect, edge_before, edge_after, insert_moment}
use log_lookup_ai.Correlate.Timelines.Search.{
  IsSorted, spot, place, bisect_lem, insert_at-spot, place-IsSorted,
}

-- Membership of the graph's edges.
pub data In : Edge → List Edge → Type 0 where
  here : {e f : Edge} {es : List Edge} → e ≡ f → In e (f ∷ es)
  there : {e f : Edge} {es : List Edge} → In e es → In e (f ∷ es)

pub In-left : {e : Edge} {xs : List Edge} (ys : List Edge) → In e xs → In e (xs ++ ys)
In-left ys (here p) = here p
In-left ys (there i) = there (In-left ys i)

pub In-right : {e : Edge} (xs : List Edge) {ys : List Edge} → In e ys → In e (xs ++ ys)
In-right [] i = i
In-right (x ∷ xs) i = there (In-right xs i)

-- Two alerts are linked where a walk along the edges, in any direction, joins them: where they are in
-- one weakly connected component.
pub data Linked (es : List Edge) : String → String → Type 0 where
  same : {a b : String} → a ≡ b → Linked es a b
  along : {a b c : String} → In (a, b) es → Linked es b c → Linked es a c
  back : {a b c : String} → In (b, a) es → Linked es b c → Linked es a c

pub Linked-trans : {es : List Edge} {a b c : String} → Linked es a b → Linked es b c → Linked es a c
Linked-trans {es} {a} {b} {c} (same p) q = subst (λ x. Linked es x c) (sym p) q
Linked-trans (along i r) q = along i (Linked-trans r q)
Linked-trans (back i r) q = back i (Linked-trans r q)

pub Linked-sym : {es : List Edge} {a b : String} → Linked es a b → Linked es b a
Linked-sym (same p) = same (sym p)
Linked-sym (along i r) = Linked-trans (Linked-sym r) (back i (same refl))
Linked-sym (back i r) = Linked-trans (Linked-sym r) (along i (same refl))

-- More edges keep what is linked.
pub Linked-mono :
    {es fs : List Edge} {a b : String}
    → ((e : Edge) → In e es → In e fs)
    → Linked es a b
    → Linked fs a b
Linked-mono f (same p) = same p
Linked-mono f (along i r) = along (f _ i) (Linked-mono f r)
Linked-mono f (back i r) = back (f _ i) (Linked-mono f r)

-- Every two neighbours of the timeline that are within the window are linked.
abbrev pub IsStitched : ℕ → List Edge → List Moment → Type 0
IsStitched window es [] = Unit
IsStitched window es (x ∷ []) = Unit
IsStitched window es (x ∷ y ∷ line) =
    (y.0 ≤ x.0 + window → Linked es x.1 y.1) × IsStitched window es (y ∷ line)

pub IsStitched-mono :
    (window : ℕ) (es fs : List Edge) (line : List Moment)
    → ((e : Edge) → In e es → In e fs)
    → IsStitched window es line
    → IsStitched window fs line
IsStitched-mono window es fs [] f h = tt
IsStitched-mono window es fs (x ∷ []) f h = tt
IsStitched-mono window es fs (x ∷ y ∷ line) f h =
    (λ near. Linked-mono f (h.0 near), IsStitched-mono window es fs (y ∷ line) f h.1)

IsStitched-tail :
    (window : ℕ) (es : List Edge) (x : Moment) (line : List Moment)
    → IsStitched window es (x ∷ line)
    → IsStitched window es line
IsStitched-tail window es x [] h = tt
IsStitched-tail window es x (y ∷ line) h = h.1

time_le : (x y : Moment) → before y x ≡ false → x.0 ≤ y.0
unfolding before
time_le (t, u) (t', u') h = ground arith

before_le : (x y : Moment) → before x y ≡ true → x.0 ≤ y.0
unfolding before
before_le (t, u) (t', u') h = ground arith

module _ (window : ℕ) (es : List Edge) (m : Moment) where
  -- The neighbours of the new moment are linked to it where they are within the window.
  record Joined (line : List Moment) : Type 0 where
    from :
        (k : ℕ) → spot m line ≡ suc k → m.0 ≤ (nth line k).0 + window → Linked es (nth line k).1 m.1
    to :
        (k : ℕ)
        → spot m line ≡ k
        → k < length line
        → (nth line k).0 ≤ m.0 + window
        → Linked es m.1 (nth line k).1

  Joined-tail :
      (x : Moment) (line : List Moment) → before x m ≡ true → Joined (x ∷ line) → Joined line
  unfolding nth
  Joined-tail x line e j = record {
    from = λ k p near. j.from (suc k) (rw e (ap suc p)) near;
    to = λ k p less near. j.to (suc k) (rw e (ap suc p)) (omega (arith, less)) near;
  }

  joined_first :
      (x : Moment) (line : List Moment)
      → before x m ≡ false
      → Joined (x ∷ line)
      → x.0 ≤ m.0 + window
      → Linked es m.1 x.1
  unfolding nth
  joined_first x line e j near = j.to 0 (rw e refl) (omega arith) near

  joined_last :
      (x : Moment) (line : List Moment)
      → before x m ≡ true
      → spot m line ≡ 0
      → Joined (x ∷ line)
      → m.0 ≤ x.0 + window
      → Linked es x.1 m.1
  unfolding nth
  joined_last x line e none_after j near = j.from 0 (rw e (ap suc none_after)) near

  place-IsStitched :
      (line : List Moment)
      → IsStitched window es line
      → Joined line
      → IsStitched window es (place m line)
  place-IsStitched [] h j = tt
  place-IsStitched (x ∷ []) h j = elim (Bool-cases (before x m)) [
    | inl e ↦ rw e (joined_last x [] e refl j, tt)
    | inr e ↦ rw e (joined_first x [] e j, tt)
  ]
  place-IsStitched (x ∷ y ∷ line) h j = elim (Bool-cases (before x m)) [
    | inr e ↦ rw e (joined_first x (y ∷ line) e j, h)
    | inl e ↦ elim (Bool-cases (before y m)) [
      | inl f ↦
          let rest = place-IsStitched (y ∷ line) h.1 (Joined-tail x (y ∷ line) e j) in
          let rest' : IsStitched window es (y ∷ place m line) = rw f at rest in
          rw (e, f) (h.0, rest')
      | inr f ↦
          rw (e, f)
            (
              joined_last x (y ∷ line) e (rw f refl) j,
              (joined_first y line f (Joined-tail x (y ∷ line) e j), h.1),
            )
    ]
  ]

-- The edges that an insertion adds join the new moment to its neighbours.
edges_join :
    (window : ℕ) (es : List Edge) (m : Moment) (line : List Moment)
    → IsSorted line
    → Joined window (es ++ (insert_moment window m line).0) m line
unfolding insert_moment
edges_join window es m line s = record {
  from = λ k p near. elim (Bool-cases ((nth line k).1 == m.1)) [
    | inl e ↦ same ((text_iff (nth line k).1 m.1).0 e)
    | inr e ↦
        along (In-right es (In-left (edge_after window (bisect line m) m line) (first k p near e)))
          (same refl)
  ];
  to = λ k p less near. elim (Bool-cases ((nth line k).1 == m.1)) [
    | inl e ↦ same (sym ((text_iff (nth line k).1 m.1).0 e))
    | inr e ↦
        along
          (In-right es
            (In-right (edge_before window (bisect line m) m line) (second k p less near e)))
          (same refl)
  ];
}
  where
    first :
        (k : ℕ)
        → spot m line ≡ suc k
        → m.0 ≤ (nth line k).0 + window
        → ((nth line k).1 == m.1) ≡ false
        → In ((nth line k).1, m.1) (edge_before window (bisect line m) m line)
    first k p near e =
        rw (bisect_lem line m s, p)
          (let q : suc k - 1 ≡ k = omega arith in
            let near' : leb m.0 ((nth line k).0 + window) ≡ true = ground arith in
            let pos : ltb 0 (suc k) ≡ true = ground arith in
            unfold edge_before in rw (q, pos, near', e) (here refl))

    second :
        (k : ℕ)
        → spot m line ≡ k
        → k < length line
        → (nth line k).0 ≤ m.0 + window
        → ((nth line k).1 == m.1) ≡ false
        → In (m.1, (nth line k).1) (edge_after window (bisect line m) m line)
    second k p less near e =
        rw (bisect_lem line m s, p)
          (let less' : ltb k (length line) ≡ true = ground arith in
            let near' : leb (nth line k).0 (m.0 + window) ≡ true = ground arith in
            unfold edge_after in rw (less', near', e) (here refl))

-- After an alert is inserted into a sorted timeline whose neighbours are linked, the timeline is
-- sorted and its neighbours are linked: alerts of one entity that follow each other within the
-- window are joined by the graph, in whatever order they arrive.
pub insert_moment-IsStitched :
    (window : ℕ) (m : Moment) (line : List Moment) (es : List Edge)
    → IsSorted line
    → IsStitched window es line
    → IsSorted (insert_moment window m line).1
      × IsStitched window (es ++ (insert_moment window m line).0) (insert_moment window m line).1
unfolding insert_moment
insert_moment-IsStitched window m line es s h =
    rw (bisect_lem line m s, insert_at-spot m line)
      (
        place-IsSorted m line s,
        place-IsStitched window _ m line (IsStitched-mono window es _ line (λ e i. In-left _ i) h)
            (rw⁻¹ (bisect_lem line m s) (edges_join window es m line s)),
      )

-- ===== src/Store/Investigations/Aliases.antt =====
-- Following the aliases of an investigation ends.
use log_lookup_ai.Prelude.{
  ℕ, zero, suc, ◌≤◌, ◌<◌, String, Bool, true, false, not, ◌≡◌, refl, sym, subst, inl, inr, some,
  List, [], ◌∷◌, string_eq, ◌==◌, text_iff, if◌then◌else◌, contains, count, length, Bool-cases,
  Option-cases, arith, ◌⊎◌, none,
}
use log_lookup_ai.Store.Investigations.{AliasRow, Book, find_alias_row, resolve_from, resolve_id}

-- Aliases that were not seen yet.
is_unseen : List String → AliasRow → Bool
is_unseen seen r = not (contains seen r.old_cluster_id)

unseen : List String → List AliasRow → ℕ
unseen seen aliases = count (is_unseen seen) aliases

unseen-length : (aliases : List AliasRow) → unseen [] aliases ≤ length aliases
unfolding unseen count is_unseen contains
unseen-length [] = omega arith
unseen-length (r ∷ aliases) = omega (arith, unseen-length aliases)

unseen-less :
    (current : String) (seen : List String) (aliases : List AliasRow)
    → unseen (current ∷ seen) aliases ≤ unseen seen aliases
unfolding unseen count is_unseen contains
unseen-less current seen [] = omega arith
unseen-less current seen (r ∷ aliases) = ground (arith, unseen-less current seen aliases)

unseen-found :
    (current : String) (seen : List String) (row : AliasRow) (aliases : List AliasRow)
    → contains seen current ≡ false
    → find_alias_row current aliases ≡ some row
    → unseen (current ∷ seen) aliases < unseen seen aliases
unfolding unseen count is_unseen contains find_alias_row
unseen-found current seen row [] new h = cc
unseen-found current seen row (r ∷ aliases) new h =
    elim (Bool-cases (r.old_cluster_id == current)) [
      | inl p ↦
          let e : r.old_cluster_id ≡ current = (text_iff r.old_cluster_id current).0 p in
          let f : contains seen r.old_cluster_id ≡ false =
            subst (λ x. contains seen x ≡ false) (sym e) new in
          let g : (current == r.old_cluster_id) ≡ true =
            (text_iff current r.old_cluster_id).1 (sym e) in
          ground (arith, f, g, unseen-less current seen aliases)
      | inr p ↦
          let found : find_alias_row current aliases ≡ some row =
            subst (λ b. (if b then some r else find_alias_row current aliases) ≡ some row) p h in
          ground (arith, unseen-found current seen row aliases new found)
    ]

-- Following at least one alias leads from the one id to the other.
pub data Walk (aliases : List AliasRow) : String → String → Type 0 where
  one :
      {a : String} (row : AliasRow)
      → find_alias_row a aliases ≡ some row
      → Walk aliases a row.cluster_id
  more :
      {a b : String} (row : AliasRow)
      → find_alias_row a aliases ≡ some row
      → Walk aliases row.cluster_id b
      → Walk aliases a b

Walk-step :
    (aliases : List AliasRow) (a b : String) (row : AliasRow)
    → Walk aliases a b
    → find_alias_row b aliases ≡ some row
    → Walk aliases a row.cluster_id
Walk-step aliases a b row (one r h) found = more r h (one row found)
Walk-step aliases a b row (more r h w) found =
    more r h (Walk-step aliases r.cluster_id b row w found)

Way-step :
    (aliases : List AliasRow) (start current : String) (row : AliasRow)
    → (start ≡ current) ⊎ Walk aliases start current
    → find_alias_row current aliases ≡ some row
    → Walk aliases start row.cluster_id
Way-step aliases start current row (inl e) found =
    subst (λ x. Walk aliases x row.cluster_id) (sym e) (one row found)
Way-step aliases start current row (inr w) found = Walk-step aliases start current row w found

-- What was seen leads to the present id.
Trail : List AliasRow → String → List String → Type 0
Trail aliases current [] = Unit
Trail aliases current (s ∷ seen) = Walk aliases s current × Trail aliases current seen

Trail-step :
    (aliases : List AliasRow) (current : String) (row : AliasRow) (seen : List String)
    → find_alias_row current aliases ≡ some row
    → Trail aliases current seen
    → Trail aliases row.cluster_id seen
unfolding Trail
Trail-step aliases current row [] found t = tt
Trail-step aliases current row (s ∷ seen) found (w, t) =
    (Walk-step aliases s current row w found, Trail-step aliases current row seen found t)

Trail-cycle :
    (aliases : List AliasRow) (current : String) (seen : List String)
    → contains seen current ≡ true
    → Trail aliases current seen
    → Walk aliases current current
unfolding Trail contains
Trail-cycle aliases current [] h t = cc
Trail-cycle aliases current (s ∷ seen) h (w, t) = elim (Bool-cases (s == current)) [
  | inl p ↦ subst (λ x. Walk aliases x current) ((text_iff s current).0 p) w
  | inr p ↦ Trail-cycle aliases current seen (ground arith) t
]

-- The answer is the id itself or one that the aliases lead to, and it has no alias, or lies on a cycle.
pub record IsResolved (aliases : List AliasRow) (cid id : String) : Type 0 where
  pub reached : (cid ≡ id) ⊎ Walk aliases cid id
  pub final : (find_alias_row id aliases ≡ none) ⊎ Walk aliases id id

-- resolve_from answers, where there is fuel for the aliases that were not seen.
resolve_from-IsResolved :
    (fuel : ℕ) (seen : List String) (start current : String) (aliases : List AliasRow)
    → (start ≡ current) ⊎ Walk aliases start current
    → Trail aliases current seen
    → unseen seen aliases < fuel
    → (id : String) × ((resolve_from fuel seen current aliases ≡ some id)
        × IsResolved aliases start id)
unfolding resolve_from Trail
resolve_from-IsResolved zero seen start current aliases way trail lt = absurd (omega (arith, lt))
resolve_from-IsResolved (suc fuel) seen start current aliases way trail lt =
    elim (Bool-cases (contains seen current)) [
      | inl p ↦ (
        current,
        (
          rw (resolve_from, p) refl,
          record { reached = way; final = inr (Trail-cycle aliases current seen p trail) },
        ),
      )
      | inr p ↦ elim (Option-cases (find_alias_row current aliases)) [
        | inl q ↦ (current, (rw (resolve_from, p, q) refl, record { reached = way; final = inl q }))
        | inr (row, q) ↦
            let next : (start ≡ row.cluster_id) ⊎ Walk aliases start row.cluster_id =
              inr (Way-step aliases start current row way q) in
            let (id, (h, r)) =
              resolve_from-IsResolved fuel (current ∷ seen) start row.cluster_id aliases next
                (one row q, Trail-step aliases current row seen q trail)
                (omega (arith, lt, unseen-found current seen row aliases p q)) in
            (id, (rw (resolve_from, p, q) h, r))
      ]
    ]

-- resolve answers for every id and every table of aliases: with the id itself or one that the aliases
-- lead to, which has no alias, unless the walk has come to a cycle. Its fuel, one round more than there
-- are aliases, is enough.
pub resolve_id-IsResolved :
    (cid : String) (b : Book)
    → (id : String) × ((resolve_id cid b ≡ some id) × IsResolved b.aliases cid id)
unfolding resolve_id unseen Trail
resolve_id-IsResolved cid b =
    resolve_from-IsResolved (suc (length b.aliases)) [] cid cid b.aliases (inl refl) tt
      (omega (arith, unseen-length b.aliases))

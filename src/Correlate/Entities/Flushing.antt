-- ===== src/Correlate/Entities/Flushing.antt =====
-- engine/correlate/entities.py: flush_stale.
use log_lookup_ai.Prelude.{
  ℕ, ◌+◌, String, Bool, false, ◌&&◌, not, none, some, List, [], ◌∷◌, string_eq, nat_eq, ◌==◌,
  if◌then◌else◌, ltb, keep, contains, length,
}
use log_lookup_ai.Prelude.Dict.{Dict, get}
use log_lookup_ai.Correlate.Entities.{IndexEntry, Assignment, Resolver, index_get}

-- del self._durable_index[key]
unfoldable pub index_drop : String → String → List IndexEntry → List IndexEntry
unfolding keep
index_drop kind value xs = keep (λ (x : IndexEntry). not (x.kind == kind && x.value == value)) xs

-- The deletion of a key that is still the entity's.
unfoldable pub drop_own : ℕ → String → String → List IndexEntry → List IndexEntry
unfolding index_get index_drop
drop_own uid kind value xs = elim (index_get kind value xs) [
  | none ↦ xs
  | some owner ↦ if owner == uid then index_drop kind value xs else xs
]

unfoldable pub drop_values : ℕ → String → List String → List IndexEntry → List IndexEntry
unfolding drop_own
drop_values uid kind [] xs = xs
drop_values uid kind (v ∷ values) xs =
    drop_values uid kind values (drop_own uid "bare_ip" v (drop_own uid kind v xs))

unfoldable pub drop_kinds : ℕ → Dict String (List String) → List IndexEntry → List IndexEntry
unfolding drop_values
drop_kinds uid [] xs = xs
drop_kinds uid ((kind, values) ∷ kinds) xs = drop_kinds uid kinds (drop_values uid kind values xs)

-- Whether an entity was idle for longer than the retention (`cutoff = now - retention` with the sum on
-- the other side).
unfoldable pub is_stale : ℕ → Resolver → ℕ → Bool
unfolding get
is_stale now r uid = elim (get uid r.objects) [
  | none ↦ false
  | some e ↦ ltb (e.last_seen_ms + r.retention_ms) now
]

-- One round of the loop over the stale entities.
unfoldable pub drop_entity : ℕ → Resolver → Resolver
unfolding get drop_kinds keep
drop_entity uid r = record r {
  durable_index = elim (get uid r.objects) [
    | none ↦ r.durable_index
    | some e ↦ drop_kinds uid e.identifiers r.durable_index
  ];
  live = keep (λ u. not (u == uid)) r.live;
}

unfoldable pub drop_entities : List ℕ → Resolver → Resolver
unfolding drop_entity
drop_entities [] r = r
drop_entities (uid ∷ uids) r = drop_entities uids (drop_entity uid r)

-- The loop over the assignments: those of entities that are gone, and addresses without any left.
unfoldable pub keep_assignments :
    List ℕ → Dict String (List Assignment) → Dict String (List Assignment)
unfolding keep contains
keep_assignments live [] = []
keep_assignments live ((ip, assignments) ∷ d) =
    let rest = keep_assignments live d in
    elim (keep (λ (a : Assignment). contains live a.uid) assignments) [
      | [] ↦ rest
      | a ∷ kept ↦ (ip, a ∷ kept) ∷ rest
    ]

-- flush_stale
unfoldable pub flush_stale : ℕ → Resolver → Resolver × ℕ
unfolding is_stale drop_entities keep_assignments keep
flush_stale now r =
    let stale = keep (is_stale now r) r.live in
    let r' = drop_entities stale r in
    (record r' { ip_assignments = keep_assignments r'.live r'.ip_assignments }, length stale)

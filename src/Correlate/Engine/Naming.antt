-- ===== src/Correlate/Engine/Naming.antt =====
-- engine/correlate/engine.py: the name of a chain's primary entity, _primary_entity_name, with
-- Entity.display_name of engine/correlate/entities.py.
use log_lookup_ai.Prelude.{
  ℕ, ◌+◌, String, Bool, ◌&&◌, ◌||◌, Option, none, some, List, [], ◌∷◌, string_eq, nat_eq, ◌==◌,
  if◌then◌else◌, ltb,
}
use log_lookup_ai.Prelude.Dict.{Dict, get, put}
use log_lookup_ai.Prelude.Order.{text_lt}
use log_lookup_ai.Correlate.ClusterIds.{or_zero}
use log_lookup_ai.Correlate.Entities.{Entity, Resolver, or_empty}
use log_lookup_ai.Correlate.Engine.{Engine}

-- sorted(values)[0]
unfoldable pub least_text : String → List String → String
unfolding text_lt
least_text s [] = s
least_text s (t ∷ rest) = if text_lt t s then least_text t rest else least_text s rest

-- The loop of Entity.display_name.
unfoldable pub name_by : List String → Entity → Option String
unfolding get least_text
name_by [] x = none
name_by (kind ∷ kinds) x = elim (get kind x.display) [
  | some text ↦ some text
  | none ↦ elim (or_empty (get kind x.identifiers)) [
    | v ∷ values ↦ some (least_text v values)
    | [] ↦ name_by kinds x
  ]
]

abbrev pub name_kinds : List String
name_kinds = "hostname" ∷ "username" ∷ "upn" ∷ "agent_uid" ∷ "mac" ∷ "process_guid" ∷ "ip" ∷ []

-- display_name; the text of an entity without names is a parameter
unfoldable pub display_name : (ℕ → String) → Entity → String
unfolding name_by
display_name unnamed x = elim (name_by name_kinds x) [ some text ↦ text | none ↦ unnamed x.uid ]

-- The counts of _primary_entity_name.
unfoldable pub count_primaries : Engine → List String → Dict ℕ ℕ → Dict ℕ ℕ
unfolding get put
count_primaries e [] counts = counts
count_primaries e (uid ∷ members) counts = count_primaries e members (elim (get uid e.resolutions) [
  | none ↦ counts
  | some found ↦ put found.primary (or_zero (get found.primary counts) + 1) counts
])

unfoldable pub first_seen : Resolver → ℕ → ℕ
unfolding get
first_seen r uid = elim (get uid r.objects) [ none ↦ 0 | some x ↦ x.first_seen_ms ]

-- Whether the key of the first entity is smaller: the count falling, the first sighting, the number.
unfoldable pub is_preferred : Resolver → ℕ × ℕ → ℕ × ℕ → Bool
unfolding first_seen
is_preferred r (u, n) (v, m) =
    ltb m n
    || (n == m
        && (ltb (first_seen r u) (first_seen r v) || (first_seen r u == first_seen r v && ltb u v)))

unfoldable pub most_frequent : Resolver → ℕ × ℕ → Dict ℕ ℕ → ℕ
unfolding is_preferred
most_frequent r best [] = best.0
most_frequent r best (x ∷ counts) =
    if is_preferred r x best then most_frequent r x counts else most_frequent r best counts

-- _primary_entity_name
unfoldable pub primary_entity_name : (ℕ → String) → List String → Engine → String
unfolding count_primaries most_frequent display_name get
primary_entity_name unnamed members e = elim (count_primaries e members []) [
  | [] ↦ ""
  | x ∷ counts ↦ elim (get (most_frequent e.resolver x counts) e.resolver.objects) [
    | none ↦ ""
    | some entity ↦ display_name unnamed entity
  ]
]

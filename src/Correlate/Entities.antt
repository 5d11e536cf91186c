-- ===== src/Correlate/Entities.antt =====
-- engine/correlate/entities.py: the resolution of hosts, users and addresses. An entity is an object
-- that outlives its removal from `_entities`, since resolutions keep it; so the objects are a
-- dictionary by their number, and `live` lists the numbers that `_entities` still has.
pub mod Addresses
pub mod Identifiers
pub mod Resolving
pub mod Flushing
pub mod Validity
pub mod Anchoring
pub mod Joined
pub mod Whole
pub mod Merged
pub mod Sought
use log_lookup_ai.Prelude.{
  ℕ, suc, ◌+◌, ◌*◌, min, max, String, Bool, true, false, ◌&&◌, ◌||◌, not, Option, none, some, List,
  [], ◌∷◌, ◌++◌, map, HasEq, ◌==◌, string_eq, nat_eq, if◌then◌else◌, ltb, leb, keep, contains, any,
}
use log_lookup_ai.Prelude.Dict.{Dict, get, put, pop}
use log_lookup_ai.Correlate.Alerts.{NormalizedAlert, Device, User, Process, NetworkEndpoint}

pub data Domain : Type 0 where
  host_domain user_domain ip_domain : Domain

-- Entity; its risk score is kept by the risk module (Correlate/Risk), which sets it anew before it is
-- read.
pub record Entity : Type 0 where
  pub uid : ℕ
  pub domain : Domain
  pub identifiers : Dict String (List String)
  pub display : Dict String String
  pub first_seen_ms : ℕ
  pub last_seen_ms : ℕ

-- An identifier of a kind, with the text to show.
abbrev pub Triple : Type 0
Triple = String × String × String

-- A key of `_durable_index`.
abbrev pub IndexKey : Type 0
IndexKey = String × String

pub record IndexEntry : Type 0 where
  pub kind : String
  pub value : String
  pub uid : ℕ

-- An assignment of an address: from `start` on, to the entity `uid`.
pub record Assignment : Type 0 where
  pub start : ℕ
  pub uid : ℕ

pub record Resolver : Type 0 where
  pub precedence : List String
  pub retention_ms : ℕ
  pub objects : Dict ℕ Entity
  pub live : List ℕ
  pub durable_index : List IndexEntry
  pub ip_assignments : Dict String (List Assignment)
  pub next_uid : ℕ

pub record Resolution : Type 0 where
  pub entities : List ℕ
  pub primary : ℕ

-- values.add(value)
abbrev pub add_value : String → List String → List String
add_value v values = if contains values v then values else values ++ v ∷ []

abbrev pub or_empty {ℓ} : {A : Type ℓ} → Option (List A) → List A
or_empty none = []
or_empty (some xs) = xs

-- Entity.add
unfoldable pub add : String → String → Option String → Entity → Entity
unfolding get put contains
add kind value display e = record e {
  identifiers = put kind (add_value value (or_empty (get kind e.identifiers))) e.identifiers;
  display = elim (get kind e.display) [
    | some _ ↦ e.display
    | none ↦
        put kind (elim display [ none ↦ value | some d ↦ if d == "" then value else d ]) e.display
  ];
}

-- `self._entities[uid]` with its object
unfoldable pub find_entity : ℕ → Resolver → Option Entity
unfolding get contains
find_entity uid r = if contains r.live uid then get uid r.objects else none

-- A write to an object.
unfoldable pub modify : ℕ → (Entity → Entity) → Resolver → Resolver
unfolding get put
modify uid f r = elim (get uid r.objects) [
  | none ↦ r
  | some e ↦ record r { objects = put uid (f e) r.objects }
]

-- self._durable_index.get(key)
unfoldable pub index_get : String → String → List IndexEntry → Option ℕ
index_get kind value [] = none
index_get kind value (x ∷ xs) =
    if x.kind == kind && x.value == value then some x.uid else index_get kind value xs

-- self._durable_index[key] = uid
unfoldable pub index_put : String → String → ℕ → List IndexEntry → List IndexEntry
index_put kind value uid [] = record { kind = kind; value = value; uid = uid } ∷ []
index_put kind value uid (x ∷ xs) =
    let rest = index_put kind value uid xs in
    if x.kind == kind && x.value == value then record x { uid = uid } ∷ xs else x ∷ rest

-- _new_entity
unfoldable pub new_entity : Domain → ℕ → Resolver → Resolver × ℕ
unfolding put
new_entity scope now r = (
  record r {
    objects =
        put r.next_uid
          (record {
            uid = r.next_uid;
            domain = scope;
            identifiers = [];
            display = [];
            first_seen_ms = now;
            last_seen_ms = now;
          })
          r.objects;
    live = r.live ++ r.next_uid ∷ [];
    next_uid = r.next_uid + 1;
  },
  r.next_uid,
)

-- The loops over the identifiers of the absorbed entity in _merge.
unfoldable pub absorb_values : String → Option String → ℕ → List String → Resolver → Resolver
unfolding modify add index_put
absorb_values kind display keep_uid [] r = r
absorb_values kind display keep_uid (v ∷ values) r =
    let r' = modify keep_uid (add kind v display) r in
    absorb_values kind display keep_uid values
      (record r' { durable_index = index_put kind v keep_uid r'.durable_index })

unfoldable pub absorb_kinds : Entity → ℕ → Dict String (List String) → Resolver → Resolver
unfolding absorb_values get
absorb_kinds absorbed keep_uid [] r = r
absorb_kinds absorbed keep_uid ((kind, values) ∷ kinds) r =
    absorb_kinds absorbed keep_uid kinds
      (absorb_values kind (get kind absorbed.display) keep_uid values r)

-- The assignments of the absorbed entity go to the one that is kept.
abbrev pub reassigned : ℕ → ℕ → Assignment → Assignment
reassigned keep_uid gone a = if a.uid == gone then record a { uid = keep_uid } else a

abbrev pub reassign : ℕ → ℕ → Dict String (List Assignment) → Dict String (List Assignment)
reassign keep_uid gone d =
    map (λ (entry : String × List Assignment). (entry.0, map (reassigned keep_uid gone) entry.1)) d

-- _merge, once it is settled which entity is kept
unfoldable pub merge_into : Entity → Entity → Resolver → Resolver × ℕ
unfolding absorb_kinds modify keep
merge_into kept absorbed r =
    let r' = absorb_kinds absorbed kept.uid absorbed.identifiers r in
    let r'' =
      modify kept.uid
        (λ (e : Entity). record e {
          first_seen_ms = min e.first_seen_ms absorbed.first_seen_ms;
          last_seen_ms = max e.last_seen_ms absorbed.last_seen_ms;
        })
        r' in
    (
      record r'' {
        ip_assignments = reassign kept.uid absorbed.uid r''.ip_assignments;
        live = keep (λ u. not (u == absorbed.uid)) r''.live;
      },
      kept.uid,
    )

-- Whether the second entity is the older one.
unfoldable pub is_older : Entity → Entity → Bool
is_older kept absorbed =
    ltb absorbed.first_seen_ms kept.first_seen_ms
    || (absorbed.first_seen_ms == kept.first_seen_ms && ltb absorbed.uid kept.uid)

-- _merge
unfoldable pub merge : Entity → Entity → Resolver → Resolver × ℕ
unfolding merge_into is_older
merge kept absorbed r =
    if kept.uid == absorbed.uid
    then (r, kept.uid)
    else if is_older kept absorbed
    then merge_into absorbed kept r
    else merge_into kept absorbed r

-- The `found` of _resolve_durable.
unfoldable pub find_known : List Triple → List ℕ → Resolver → List ℕ
unfolding index_get contains
find_known [] found r = found
find_known ((kind, value, display) ∷ triples) found r =
    find_known triples
      (elim (index_get kind value r.durable_index) [
        | none ↦ found
        | some uid ↦
            if contains r.live uid && not (contains found uid) then found ++ uid ∷ [] else found
      ])
      r

-- One round of `for other in found[1:]`; both objects are there.
unfoldable pub merge_two : Option Entity → Option Entity → ℕ → Resolver → Resolver × ℕ
unfolding merge
merge_two (some e) (some other) uid r = merge e other r
merge_two (some e) none uid r = (r, uid)
merge_two none o uid r = (r, uid)

unfoldable pub merge_all : ℕ → List ℕ → Resolver → Resolver × ℕ
unfolding merge_two get
merge_all uid [] r = (r, uid)
merge_all uid (other ∷ others) r =
    let (r', uid') = merge_two (get uid r.objects) (get other r.objects) uid r in
    merge_all uid' others r'

-- The loop that adds the identifiers of an alert.
unfoldable pub add_triples : ℕ → List Triple → Resolver → Resolver
unfolding modify add index_put
add_triples uid [] r = r
add_triples uid ((kind, value, display) ∷ triples) r =
    let r' = modify uid (add kind value (some display)) r in
    add_triples uid triples
      (record r' { durable_index = index_put kind value uid r'.durable_index })

abbrev pub seen_at : ℕ → Entity → Entity
seen_at now e = record e {
  first_seen_ms = min e.first_seen_ms now;
  last_seen_ms = max e.last_seen_ms now;
}

-- The entity of the identifiers that are known, or a new one.
unfoldable pub known_or_new : Domain → ℕ → List ℕ → Resolver → Resolver × ℕ
unfolding merge_all new_entity
known_or_new scope now [] r = new_entity scope now r
known_or_new scope now (uid ∷ others) r = merge_all uid others r

-- _resolve_durable
unfoldable pub resolve_durable : Domain → List Triple → ℕ → Resolver → Resolver × Option ℕ
unfolding find_known known_or_new add_triples modify
resolve_durable scope [] now r = (r, none)
resolve_durable scope (t ∷ triples) now r =
    let (r', uid) = known_or_new scope now (find_known (t ∷ triples) [] r) r in
    (modify uid (seen_at now) (add_triples uid (t ∷ triples) r'), some uid)

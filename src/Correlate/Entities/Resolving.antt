-- ===== src/Correlate/Entities/Resolving.antt =====
-- engine/correlate/entities.py: EntityResolver.resolve, in its steps, and _pick_primary.
use Prim.Native.String.{◌++◌ as ◌++ˢ◌}
use log_lookup_ai.Prelude.{
  ℕ, max, String, Option, none, some, List, [], ◌∷◌, ◌++◌, map, string_eq, nat_eq, ◌==◌,
  if◌then◌else◌, contains, length,
}
use log_lookup_ai.Prelude.Dict.{Dict, get, put}
use log_lookup_ai.Correlate.Alerts.{NormalizedAlert}
use log_lookup_ai.Correlate.Entities.{
  host_domain, user_domain, ip_domain, Entity, Triple, Resolver, Resolution, or_empty, modify, add,
  index_get, index_put, new_entity, resolve_durable,
}
use log_lookup_ai.Correlate.Entities.Addresses.{assignment_at, observe_ip}
use log_lookup_ai.Correlate.Entities.Identifiers.{TextOps, Shown, Identifiers, extract_identifiers}

-- The resolver with the two variables of resolve, `touched` and `anchor_kind_by_entity`.
pub record Touching : Type 0 where
  pub resolver : Resolver
  pub touched : List ℕ
  pub anchors : Dict ℕ (List String)

-- anchor_kind_by_entity.setdefault(uid, []).extend(kinds)
unfoldable pub anchor : ℕ → List String → Touching → Touching
unfolding get put
anchor uid kinds t = record t {
  anchors = put uid (or_empty (get uid t.anchors) ++ kinds) t.anchors;
}

abbrev pub last_seen : ℕ → Entity → Entity
last_seen now e = record e { last_seen_ms = max e.last_seen_ms now }

-- touch, on an entity that is there
unfoldable pub touch : ℕ → ℕ → List String → Touching → Touching
unfolding modify anchor contains
touch now uid kinds t = anchor uid kinds (record t {
  resolver = modify uid (last_seen now) t.resolver;
  touched = if contains t.touched uid then t.touched else t.touched ++ uid ∷ [];
})

-- The triples of one kind.
unfoldable pub triples_of : String → Identifiers → List Triple
unfolding get
triples_of kind ids = map (λ (v : Shown). (kind, v.0, v.1)) (or_empty (get kind ids))

abbrev pub kinds_of : List Triple → List String
kinds_of triples = map (λ (t : Triple). t.0) triples

-- host_triples + process_triples
unfoldable pub host_triples : Identifiers → List Triple
unfolding triples_of
host_triples ids =
    triples_of "agent_uid" ids
    ++ triples_of "hostname" ids
    ++ triples_of "mac" ids
    ++ triples_of "process_guid" ids

unfoldable pub user_triples : Identifiers → List Triple
unfolding triples_of
user_triples ids = triples_of "upn" ids ++ triples_of "username" ids

-- touch(entity, *kinds), where there is an entity
unfoldable pub touch_some : ℕ → Option ℕ → List String → Touching → Touching
unfolding touch
touch_some now none kinds t = t
touch_some now (some uid) kinds t = touch now uid kinds t

-- The steps of resolve for the host and the user.
unfoldable pub touch_host : ℕ → Identifiers → Touching → Touching × Option ℕ
unfolding resolve_durable host_triples touch_some
touch_host now ids t =
    let (r, host) = resolve_durable host_domain (host_triples ids) now t.resolver in
    (touch_some now host (kinds_of (host_triples ids)) (record t { resolver = r }), host)

unfoldable pub touch_user : ℕ → Identifiers → Touching → Touching
unfolding resolve_durable user_triples touch_some
touch_user now ids t =
    let (r, user) = resolve_durable user_domain (user_triples ids) now t.resolver in
    touch_some now user (kinds_of (user_triples ids)) (record t { resolver = r })

-- A new entity of the domain ip that has the address.
unfoldable pub new_ip_entity : String → ℕ → Resolver → Resolver × ℕ
unfolding new_entity modify add
new_ip_entity ip now r =
    let (r', uid) = new_entity ip_domain now r in (modify uid (add "ip" ip none) r', uid)

-- The owner of the address of a device without a host.
unfoldable pub device_owner : String → ℕ → Option ℕ → Resolver → Resolver × ℕ
unfolding new_ip_entity observe_ip
device_owner ip now (some uid) r = (r, uid)
device_owner ip now none r =
    let (r', uid) = new_ip_entity ip now r in (observe_ip ip uid now r', uid)

-- One round of the loop over the addresses of the device.
unfoldable pub touch_device_ip : ℕ → Option ℕ → String → Touching → Touching
unfolding observe_ip anchor device_owner assignment_at touch
touch_device_ip now (some host) ip t =
    anchor host ("ip" ∷ []) (record t { resolver = observe_ip ip host now t.resolver })
touch_device_ip now none ip t =
    let (r, owner) = device_owner ip now (assignment_at ip now t.resolver) t.resolver in
    touch now owner ("ip" ∷ []) (record t { resolver = r })

unfoldable pub touch_device_ips : ℕ → Option ℕ → List Shown → Touching → Touching
unfolding touch_device_ip
touch_device_ips now host [] t = t
touch_device_ips now host (ip ∷ ips) t =
    touch_device_ips now host ips (touch_device_ip now host ip.0 t)

-- self._entities.get(self._durable_index.get(("bare_ip", ip)))
unfoldable pub bare_owner : String → Resolver → Option ℕ
unfolding index_get contains
bare_owner ip r = elim (index_get "bare_ip" ip r.durable_index) [
  | none ↦ none
  | some uid ↦ if contains r.live uid then some uid else none
]

-- The owner of a source address: at the time of the alert, else the entity of the bare address, else a
-- new one.
unfoldable pub source_owner : String → ℕ → Resolver → Resolver × ℕ
unfolding assignment_at bare_owner new_ip_entity index_put
source_owner ip now r = elim (assignment_at ip now r) [
  | some uid ↦ (r, uid)
  | none ↦ elim (bare_owner ip r) [
    | some uid ↦ (r, uid)
    | none ↦
        let (r', uid) = new_ip_entity ip now r in
        (record r' { durable_index = index_put "bare_ip" ip uid r'.durable_index }, uid)
  ]
]

-- The loop over the source addresses.
unfoldable pub touch_sources : ℕ → List Shown → Touching → Touching
unfolding source_owner touch
touch_sources now [] t = t
touch_sources now (ip ∷ ips) t =
    let (r, owner) = source_owner ip.0 now t.resolver in
    touch_sources now ips (touch now owner ("ip" ∷ []) (record t { resolver = r }))

-- The synthetic entity of an alert that has no identifiers.
unfoldable pub touch_orphan : TextOps → ℕ → Touching → Touching
unfolding new_entity modify add touch
touch_orphan ops now t =
    let (r, uid) = new_entity ip_domain now t.resolver in
    touch now uid ("ip" ∷ [])
      (record t { resolver = modify uid (add "ip" ("unidentified-" ++ˢ ops.decimal uid) none) r })

-- The inner loop of _pick_primary.
unfoldable pub first_anchored : String → Dict ℕ (List String) → List ℕ → Option ℕ
unfolding get contains
first_anchored kind anchors [] = none
first_anchored kind anchors (uid ∷ touched) =
    if contains (or_empty (get uid anchors)) kind
    then some uid
    else first_anchored kind anchors touched

-- _pick_primary, of a list that is not empty: its head is given apart
unfoldable pub pick_primary : List String → ℕ → List ℕ → Dict ℕ (List String) → ℕ
unfolding first_anchored
pick_primary [] head tail anchors = head
pick_primary (kind ∷ precedence) head tail anchors =
    elim (first_anchored kind anchors (head ∷ tail)) [
      | some uid ↦ uid
      | none ↦ pick_primary precedence head tail anchors
    ]

-- The steps of resolve before the check for an alert without identifiers.
unfoldable pub touch_all : TextOps → NormalizedAlert → Resolver → Touching
unfolding extract_identifiers touch_host touch_device_ips touch_user touch_sources get
touch_all ops a r =
    let ids = extract_identifiers ops a in
    let (t, host) = touch_host a.time ids (record { resolver = r; touched = []; anchors = [] }) in
    touch_sources a.time (or_empty (get "src_ip" ids))
      (touch_user a.time ids (touch_device_ips a.time host (or_empty (get "device_ip" ids)) t))

unfoldable pub or_orphan : TextOps → ℕ → Touching → Touching
unfolding touch_orphan
or_orphan ops now t = if length t.touched == 0 then touch_orphan ops now t else t

-- The answer of resolve.
unfoldable pub resolution : List String → List ℕ → Dict ℕ (List String) → Option Resolution
unfolding pick_primary
resolution precedence [] anchors = none
resolution precedence (uid ∷ touched) anchors =
    some
      (record { entities = uid ∷ touched; primary = pick_primary precedence uid touched anchors })

-- resolve; the `none` of an empty `touched` is never given
unfoldable pub resolve : TextOps → NormalizedAlert → Resolver → Resolver × Option Resolution
unfolding touch_all or_orphan resolution
resolve ops a r =
    let t = or_orphan ops a.time (touch_all ops a r) in
    (t.resolver, resolution t.resolver.precedence t.touched t.anchors)

-- ===== src/Correlate/Entities/Anchoring.antt =====
-- The primary entity of an alert is one of those that the alert touches.
use log_lookup_ai.Prelude.{
  ℕ, ◌≡◌, refl, inl, inr, String, true, Option, some, List, [], ◌∷◌, arith, string_eq, nat_eq, ◌==◌,
  nat_beq_iff, if◌then◌else◌, contains, Bool-cases, Option-cases, ◌<◌, length, ◌++◌,
}
use log_lookup_ai.Prelude.Dict.{Dict, get}
use log_lookup_ai.Correlate.Alerts.{NormalizedAlert}
use log_lookup_ai.Correlate.Entities.{Resolver, Resolution, or_empty}
use log_lookup_ai.Correlate.Entities.Identifiers.{TextOps}
use log_lookup_ai.Correlate.Entities.Resolving.{
  Touching, anchor, touch, touch_orphan, first_anchored, pick_primary, touch_all, or_orphan,
  resolution, resolve,
}

contains_head : (uid : ℕ) (touched : List ℕ) → contains (uid ∷ touched) uid ≡ true
unfolding contains
contains_head uid touched = ground (arith, (nat_beq_iff uid uid).1 refl)

first_anchored_lem :
    (kind : String) (anchors : Dict ℕ (List String)) (touched : List ℕ) (uid : ℕ)
    → first_anchored kind anchors touched ≡ some uid
    → contains touched uid ≡ true
unfolding first_anchored contains
first_anchored_lem kind anchors [] uid h = ground arith
first_anchored_lem kind anchors (x ∷ touched) uid h =
    elim (Bool-cases (contains (or_empty (get x anchors)) kind)) [
      | inl found ↦ ground (arith, nat_beq_iff x uid)
      | inr other ↦ ground (arith, first_anchored_lem kind anchors touched uid)
    ]

pick_primary_lem :
    (precedence : List String) (head : ℕ) (tail : List ℕ) (anchors : Dict ℕ (List String))
    → contains (head ∷ tail) (pick_primary precedence head tail anchors) ≡ true
unfolding pick_primary
pick_primary_lem [] head tail anchors = contains_head head tail
pick_primary_lem (kind ∷ precedence) head tail anchors =
    elim (Option-cases (first_anchored kind anchors (head ∷ tail))) [
      | inl e ↦ ground (arith, pick_primary_lem precedence head tail anchors)
      | inr (uid, e) ↦ ground (arith, first_anchored_lem kind anchors (head ∷ tail) uid e)
    ]

touched_lem : (xs : List ℕ) (uid : ℕ) → 0 < length (if contains xs uid then xs else xs ++ uid ∷ [])
unfolding contains
touched_lem [] uid = omega arith
touched_lem (x ∷ xs) uid = elim (Bool-cases (contains (x ∷ xs) uid)) [
  | inl e ↦ rw (e) (omega arith)
  | inr e ↦ rw (e) (omega arith)
]

-- After the step for alerts without identifiers, some entity is touched.
or_orphan-touched :
    (ops : TextOps) (now : ℕ) (t : Touching) → 0 < length (or_orphan ops now t).touched
unfolding or_orphan touch_orphan touch anchor
or_orphan-touched ops now t = elim (Bool-cases (length t.touched == 0)) [
  | inl e ↦ rw (e) (touched_lem t.touched _)
  | inr e ↦ rw (e) (ground arith)
]

-- There is an entity, and the primary one is among the entities.
pub data IsAnchored : Option Resolution → Type 0 where
  anchored : (res : Resolution) → contains res.entities res.primary ≡ true → IsAnchored (some res)

resolution-IsAnchored :
    (precedence : List String) (touched : List ℕ) (anchors : Dict ℕ (List String))
    → 0 < length touched
    → IsAnchored (resolution precedence touched anchors)
unfolding resolution
resolution-IsAnchored precedence [] anchors h = ground (arith, h)
resolution-IsAnchored precedence (uid ∷ touched) anchors filled =
    anchored _ (pick_primary_lem precedence uid touched anchors)

-- resolve always answers: there is an entity, and the primary one is among the entities.
pub resolve-IsAnchored :
    (ops : TextOps) (a : NormalizedAlert) (r : Resolver) → IsAnchored (resolve ops a r).1
unfolding resolve
resolve-IsAnchored ops a r =
    resolution-IsAnchored _ _ _ (or_orphan-touched ops a.time (touch_all ops a r))

-- ===== src/Correlate/Entities/Addresses.antt =====
-- engine/correlate/entities.py: the assignments of addresses, which hold from the time of an
-- observation on until the next assignment begins.
use log_lookup_ai.Prelude.{
  ℕ, String, Bool, false, ◌&&◌, ◌||◌, Option, none, some, List, [], ◌∷◌, string_eq, nat_eq, ◌==◌,
  if◌then◌else◌, ltb, leb, contains,
}
use log_lookup_ai.Prelude.Dict.{get, put}
use log_lookup_ai.Correlate.Entities.{Assignment, Resolver, or_empty, modify, add}

-- The assignment in force at a time: the last one of the sorted list that does not start later
-- (`bisect_right` of the standard library, less one).
unfoldable pub in_force : ℕ → List Assignment → Option ℕ
in_force now [] = none
in_force now (a ∷ rest) =
    let later = in_force now rest in
    if leb a.start now then (elim later [ none ↦ some a.uid | some u ↦ some u ]) else none

-- _assignment_at: the entity, if it is still live
unfoldable pub assignment_at : String → ℕ → Resolver → Option ℕ
unfolding in_force get contains
assignment_at ip now r = elim (in_force now (or_empty (get ip r.ip_assignments))) [
  | none ↦ none
  | some uid ↦ if contains r.live uid then some uid else none
]

-- insort of (time, uid): after every pair that is not greater
unfoldable pub insort_assignment : Assignment → List Assignment → List Assignment
insort_assignment a [] = a ∷ []
insort_assignment a (b ∷ rest) =
    let later = insort_assignment a rest in
    if ltb a.start b.start || (a.start == b.start && ltb a.uid b.uid)
    then a ∷ b ∷ rest
    else b ∷ later

-- The write of _observe_ip.
unfoldable pub assign_ip : String → ℕ → ℕ → Resolver → Resolver
unfolding insort_assignment get put modify add
assign_ip ip uid now r = modify uid (add "ip" ip none) (record r {
  ip_assignments =
      put ip
        (insort_assignment (record { start = now; uid = uid }) (or_empty (get ip r.ip_assignments)))
        r.ip_assignments;
})

-- current is not None and current.uid == entity.uid
unfoldable pub is_owner : ℕ → Option ℕ → Bool
is_owner uid none = false
is_owner uid (some u) = u == uid

-- _observe_ip
unfoldable pub observe_ip : String → ℕ → ℕ → Resolver → Resolver
unfolding assignment_at assign_ip is_owner
observe_ip ip uid now r =
    if is_owner uid (assignment_at ip now r) then r else assign_ip ip uid now r

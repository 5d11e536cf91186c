-- ===== src/Correlate/Entities/Validity.antt =====
-- The times at which an assignment of an address holds: what is observed does not reach back.
use log_lookup_ai.Prelude.{
  ℕ, ◌<◌, ◌≤◌, ◌≡◌, ◌≢◌, refl, ap, inl, inr, String, true, Option, none, some, List, [], ◌∷◌, arith,
  string_eq, nat_eq, ◌==◌, text_refl, text_iff, nat_beq_iff, if◌then◌else◌, ltb, ltb→lt, contains,
  Bool-cases, Option-cases, All,
}
use log_lookup_ai.Prelude.Dict.{get, get-put}
use log_lookup_ai.Correlate.Entities.{Assignment, Entity, Resolver, or_empty, modify}
use log_lookup_ai.Correlate.Entities.Addresses.{
  in_force, insort_assignment, assignment_at, assign_ip, is_owner, observe_ip,
}

pub modify-durable_index :
    (uid : ℕ) (f : Entity → Entity) (r : Resolver)
    → (modify uid f r).durable_index ≡ r.durable_index
unfolding modify
modify-durable_index uid f r = ground (arith, Option-cases (get uid r.objects))

pub modify-live : (uid : ℕ) (f : Entity → Entity) (r : Resolver) → (modify uid f r).live ≡ r.live
unfolding modify
modify-live uid f r = ground (arith, Option-cases (get uid r.objects))

pub modify-ip_assignments :
    (uid : ℕ) (f : Entity → Entity) (r : Resolver)
    → (modify uid f r).ip_assignments ≡ r.ip_assignments
unfolding modify
modify-ip_assignments uid f r = ground (arith, Option-cases (get uid r.objects))

in_force-insort :
    (t : ℕ) (a : Assignment) (xs : List Assignment)
    → t < a.start
    → in_force t (insort_assignment a xs) ≡ in_force t xs
unfolding in_force insort_assignment
in_force-insort t a [] h = ground arith
in_force-insort t a (b ∷ xs) h = ground (arith, in_force-insort t a xs h)

-- The assignments of an address in the order of their beginnings.
abbrev pub IsOrdered : List Assignment → Type 0
IsOrdered [] = Unit
IsOrdered (b ∷ xs) = All (λ (c : Assignment). b.start ≤ c.start) xs × IsOrdered xs

in_force-before :
    (t s : ℕ) (xs : List Assignment)
    → t < s
    → All (λ (c : Assignment). s ≤ c.start) xs
    → in_force t xs ≡ none
unfolding in_force
in_force-before t s [] h later = refl
in_force-before t s (b ∷ xs) h (le, later) = ground (arith, in_force-before t s xs h later)

-- What is in force right at the beginning of an assignment that is new.
in_force-insort_now :
    (a : Assignment) (xs : List Assignment)
    → IsOrdered xs
    → All (λ (b : Assignment). b.start ≢ a.start) xs
    → in_force a.start (insort_assignment a xs) ≡ some a.uid
unfolding in_force insort_assignment
in_force-insort_now a [] ordered free = ground arith
in_force-insort_now a (b ∷ xs) (later, ordered) (apart, free) =
    elim (Bool-cases (ltb a.start b.start)) [
      | inl lt ↦
          let none_later =
            in_force-before a.start b.start xs (omega (arith, ltb→lt a.start b.start lt)) later in
          ground (arith, none_later)
      | inr ge ↦ ground (arith, in_force-insort_now a xs ordered free)
    ]

-- self._entities.get of what is in force
live_owner : List ℕ → Option ℕ → Option ℕ
unfolding contains
live_owner live o = elim o [ none ↦ none | some uid ↦ if contains live uid then some uid else none ]

assignment_at-owner :
    (ip : String) (t : ℕ) (r : Resolver)
    → assignment_at ip t r ≡ live_owner r.live (in_force t (or_empty (get ip r.ip_assignments)))
unfolding assignment_at live_owner
assignment_at-owner ip t r = elim (in_force t (or_empty (get ip r.ip_assignments))) [
  | none ↦ refl
  | some uid ↦ refl
]

assign_ip-live : (ip : String) (uid now : ℕ) (r : Resolver) → (assign_ip ip uid now r).live ≡ r.live
unfolding assign_ip
assign_ip-live ip uid now r = modify-live uid _ _

assignments_after :
    (jp ip : String) (uid now : ℕ) (r : Resolver)
    → or_empty (get jp (assign_ip ip uid now r).ip_assignments) ≡ (
        if ip == jp
        then insort_assignment
            (record { start = now; uid = uid })
            (or_empty (get ip r.ip_assignments))
        else or_empty (get jp r.ip_assignments))
unfolding assign_ip
assignments_after jp ip uid now r = elim (Bool-cases (ip == jp)) [
  | inl same ↦ rw (modify-ip_assignments, get-put, same)
  | inr other ↦ rw (modify-ip_assignments, get-put, other)
]

assign_ip-earlier :
    (jp ip : String) (uid now t : ℕ) (r : Resolver)
    → t < now
    → assignment_at jp t (assign_ip ip uid now r) ≡ assignment_at jp t r
assign_ip-earlier jp ip uid now t r h =
    rw
      (
        assignment_at-owner jp t (assign_ip ip uid now r),
        assignment_at-owner jp t r,
        assignments_after jp ip uid now r,
        assign_ip-live ip uid now r,
      )
      (elim (Bool-cases (ip == jp)) [
        | inl same ↦
            rw
              (
                same,
                in_force-insort t (record { start = now; uid = uid })
                    (or_empty (get ip r.ip_assignments)) h,
                (text_iff ip jp).0 same,
              )
              refl
        | inr other ↦ rw (other) refl
      ])

-- What is observed at a time does not change what any address resolves to at an earlier time.
pub observe_ip-earlier :
    (jp ip : String) (uid now t : ℕ) (r : Resolver)
    → t < now
    → assignment_at jp t (observe_ip ip uid now r) ≡ assignment_at jp t r
unfolding observe_ip
observe_ip-earlier jp ip uid now t r h = elim (Bool-cases (is_owner uid (assignment_at ip now r))) [
  | inl same ↦ rw (same) refl
  | inr other ↦ rw (other) (assign_ip-earlier jp ip uid now t r h)
]

is_owner_lem : (uid : ℕ) (o : Option ℕ) → is_owner uid o ≡ true → o ≡ some uid
unfolding is_owner
is_owner_lem uid none h = ground arith
is_owner_lem uid (some u) h = ap some ((nat_beq_iff u uid).0 h)

-- Where an entity is live and no assignment of the address begins at the time, observing the address
-- makes it resolve to the entity at that time.
pub observe_ip-now :
    (ip : String) (uid now : ℕ) (r : Resolver)
    → contains r.live uid ≡ true
    → IsOrdered (or_empty (get ip r.ip_assignments))
    → All (λ (b : Assignment). b.start ≢ now) (or_empty (get ip r.ip_assignments))
    → assignment_at ip now (observe_ip ip uid now r) ≡ some uid
unfolding observe_ip live_owner
observe_ip-now ip uid now r live ordered free =
    elim (Bool-cases (is_owner uid (assignment_at ip now r))) [
      | inl same ↦ rw (same) (is_owner_lem uid (assignment_at ip now r) same)
      | inr other ↦
          rw
            (
              other,
              assignment_at-owner ip now (assign_ip ip uid now r),
              assignments_after ip ip uid now r,
              text_refl ip,
              in_force-insort_now (record { start = now; uid = uid }) _ ordered free,
              assign_ip-live ip uid now r,
              live,
            )
            refl
    ]

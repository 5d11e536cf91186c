-- ===== src/Response/Soundness/Invariant.antt =====
-- The invariant of the response tables, and a new proposal.
use log_lookup_ai.Prelude.{
  ℕ, ◌≡◌, refl, ap, ◌∙◌, sym, subst, ◌⊎◌, inl, inr, String, Bool, true, false, ◌||◌, Option, none,
  some, List, [], ◌∷◌, ◌++◌, arith, ◌==◌, string_eq, Bool-cases, Option-cases, text_iff, any,
}
use log_lookup_ai.Prelude.Table.{Unique, find, find-append}
use log_lookup_ai.Prelude.Outcome.{ok}
use log_lookup_ai.Response.Models.{Detail, approval_required, ResponseAction, OutboxRow, World}
use log_lookup_ai.Response.Policy.{Env, Submitted}
use log_lookup_ai.Response.Audit
use log_lookup_ai.Response.Tables.{find_action, delivery}
use log_lookup_ai.Response.Approvals.{
  holds_key, is_live_with, key_taken, new_action, insert_action, propose_body, draft, propose,
}
use log_lookup_ai.Response.Decisions.{has_approved}
use log_lookup_ai.Response.Soundness.States.{key_path, is_released}
use log_lookup_ai.Response.Soundness.Change.{IsVetted, Mirrors, Proposal, Change, Evolves, backward}
use log_lookup_ai.Response.Soundness.Rules.{
  Ensures, Ensures-bind, with_action-holds, reply-holds, Mirrors-at,
}

-- Every action has the approvals that its state needs, and its outbox row says what its state
-- says; no two live actions have one idempotency key.
pub record IsSound (env : Env) (w : World) : Type 0 where
  pub vetted : (id : String) (a : ResponseAction) → find_action id w ≡ some a → IsVetted env a
  pub mirrored :
      (id : String) (a : ResponseAction)
      → find_action id w ≡ some a
      → Mirrors a.state (delivery id w)
  pub no_orphan : (id : String) → find_action id w ≡ none → delivery id w ≡ none
  pub one_live :
      (i j : String) (a b : ResponseAction)
      → find_action i w ≡ some a
      → find_action j w ≡ some b
      → holds_key a.state ≡ true
      → holds_key b.state ≡ true
      → a.idempotency_key ≡ b.idempotency_key
      → i ≡ j
  pub unique : Unique OutboxRow.action_id w.outbox

module _ (env : Env) where
  mirrored-Change :
      (o o' : Option ResponseAction) (d d' : Option String) (b : ResponseAction)
      → Change env o d o' d'
      → o' ≡ some b
      → ((a : ResponseAction) → o ≡ some a → Mirrors a.state d)
      → Mirrors b.state d'
  mirrored-Change none none d d' b c e m = cc
  mirrored-Change none (some x) d d' b c e m = absurd c
  mirrored-Change (some a) none d d' b c e m = cc
  mirrored-Change (some a) (some x) d d' b c e m =
      let s : x.state ≡ b.state = cc in subst (λ t. Mirrors t d') s (c.1 (m a refl))

  orphan-Change :
      (o o' : Option ResponseAction) (d d' : Option String)
      → Change env o d o' d'
      → o' ≡ none
      → (o ≡ none → d ≡ none)
      → d' ≡ none
  orphan-Change none none d d' c e h = c (h refl)
  orphan-Change none (some x) d d' c e h = cc
  orphan-Change (some a) none d d' c e h = absurd c
  orphan-Change (some a) (some x) d d' c e h = cc

  -- What changes as it may stays sound.
  pub Evolves-IsSound : {w w' : World} → Evolves env w w' → IsSound env w → IsSound env w'
  Evolves-IsSound {w} {w'} e s = record {
    vetted = λ id b found.
        let (a, found₀, ext) = backward env id e found in ext.vetted (s.vetted id a found₀);
    mirrored = λ id b found.
        mirrored-Change _ _ _ _ b (e.at_id id) found (λ a found₀. s.mirrored id a found₀);
    no_orphan = λ id gone. orphan-Change _ _ _ _ (e.at_id id) gone (s.no_orphan id);
    one_live = λ i j a b fa fb la lb key.
        let (a₀, fa₀, xa) = backward env i e fa in
        let (b₀, fb₀, xb) = backward env j e fb in
        s.one_live i j a₀ b₀ fa₀ fb₀ (key_path xa.path la) (key_path xb.path lb)
          (sym (ap Proposal.idempotency_key xa.same) ∙ key ∙ ap Proposal.idempotency_key xb.same);
    unique = e.unique s.unique;
  }

or_left : (x y : Bool) → x ≡ true → (x || y) ≡ true
or_left x y h = ground arith

or_right : (x y : Bool) → y ≡ true → (x || y) ≡ true
or_right x y h = ground arith

key_taken_lem :
    (i key : String) (b : ResponseAction) (rows : List ResponseAction)
    → find ResponseAction.action_id i rows ≡ some b
    → holds_key b.state ≡ true
    → b.idempotency_key ≡ key
    → key_taken key rows ≡ true
unfolding find key_taken any
key_taken_lem i key b [] f h e = cc
key_taken_lem i key b (r ∷ rows) f h e = elim (Bool-cases (r.action_id == i)) [
  | inl same ↦
      let q : some r ≡ some b = sym (rw same refl) ∙ f in
      let p : b ≡ r = cc in
      or_left _ _ (subst (λ x. is_live_with key x ≡ true) p (rw (h, (text_iff _ key).1 e) refl))
  | inr other ↦
      or_right (is_live_with key r) _ (key_taken_lem i key b rows (sym (rw other refl) ∙ f) h e)
]

pub insert_action_lem :
    (a : ResponseAction) (w : World) {w' : World}
    → insert_action a w ≡ ok w'
    → (find_action a.action_id w ≡ none)
      × (key_taken a.idempotency_key w.actions ≡ false)
      × (record w { actions = w.actions ++ a ∷ [] } ≡ w')
unfolding insert_action
insert_action_lem a w h = ground arith

abbrev pub with_action_row : ResponseAction → World → World
with_action_row a w = record w { actions = w.actions ++ a ∷ [] }

-- A row of the longer table is an old row, or the new one.
new_or_old :
    (j : String) (a b : ResponseAction) (w : World)
    → find_action j (with_action_row a w) ≡ some b
    → (find_action j w ≡ some b) ⊎ ((a ≡ b) × (a.action_id ≡ j) × (find_action j w ≡ none))
new_or_old j a b w h = elim (Option-cases (find_action j w)) [
  | inr (x, p) ↦ inl (p ∙ (sym (rw (find-append, p) refl) ∙ h))
  | inl p ↦ elim (Bool-cases (a.action_id == j)) [
    | inl e ↦
        let q : some a ≡ some b = sym (rw (find-append, p, e) refl) ∙ h in
        inr (cc, (text_iff a.action_id j).0 e, p)
    | inr n ↦ let q : none ≡ some b = sym (rw (find-append, p, n) refl) ∙ h in cc
  ]
]

old_absent :
    (j : String) (a : ResponseAction) (w : World)
    → find_action j (with_action_row a w) ≡ none
    → find_action j w ≡ none
old_absent j a w h = elim (Option-cases (find_action j w)) [
  | inl p ↦ p
  | inr (x, p) ↦ let q : some x ≡ none = sym (rw (find-append, p) refl) ∙ h in cc
]

module _ (env : Env) where
  module _ (a : ResponseAction) (w : World) (s : IsSound env w) (fresh : a.approvals ≡ [])
      (pending : a.state ≡ approval_required) (absent : find_action a.action_id w ≡ none)
      (free : key_taken a.idempotency_key w.actions ≡ false) where
    new-IsVetted : IsVetted env a
    new-IsVetted = record {
      distinct = rw fresh tt;
      enough = λ h. cc (sym h ∙ ap is_released pending);
      separated = λ wf found sep. rw fresh (unfold has_approved any in refl);
    }

    -- No live row has the key of the new one.
    key_free :
        (i : String) (b : ResponseAction)
        → find_action i w ≡ some b
        → holds_key b.state ≡ true
        → b.idempotency_key ≡ a.idempotency_key
        → ⊥
    key_free i b found live key =
        cc (free, key_taken_lem i a.idempotency_key b w.actions found live key)

    insert-IsSound : IsSound env (with_action_row a w)
    insert-IsSound = record {
      vetted = λ id b found. elim (new_or_old id a b w found) [
        | inl old ↦ s.vetted id b old
        | inr (e, at, gone) ↦ subst (IsVetted env) e new-IsVetted
      ];
      mirrored = λ id b found. elim (new_or_old id a b w found) [
        | inl old ↦ s.mirrored id b old
        | inr (e, at, gone) ↦
            Mirrors-at _ (sym pending ∙ ap ResponseAction.state e) (s.no_orphan id gone)
      ];
      no_orphan = λ id gone. s.no_orphan id (old_absent id a w gone);
      one_live = λ i j b c fb fc lb lc key. elim (new_or_old i a b w fb) [
        | inl old_b ↦ elim (new_or_old j a c w fc) [
          | inl old_c ↦ s.one_live i j b c old_b old_c lb lc key
          | inr (e, at, gone) ↦
              absurd (key_free i b old_b lb (key ∙ ap ResponseAction.idempotency_key (sym e)))
        ]
        | inr (e, at, gone) ↦ elim (new_or_old j a c w fc) [
          | inl old_c ↦
              absurd (key_free j c old_c lc (sym key ∙ ap ResponseAction.idempotency_key (sym e)))
          | inr (e', at', gone') ↦ sym at ∙ at'
        ]
      ];
      unique = s.unique;
    }

  audit-IsSound :
      (now : ℕ) (actor action target : String) (detail : Detail) {w : World}
      → IsSound env w
      → IsSound env (Audit.append env now actor action target detail w)
  unfolding Audit.append
  audit-IsSound now actor action target detail s = record {
    vetted = s.vetted;
    mirrored = s.mirrored;
    no_orphan = s.no_orphan;
    one_live = s.one_live;
    unique = s.unique;
  }

  propose_body-IsSound :
      (now : ℕ) (a : ResponseAction) (w : World)
      → IsSound env w
      → a.approvals ≡ []
      → a.state ≡ approval_required
      → Ensures (IsSound env) (propose_body env now a w)
  unfolding propose_body
  propose_body-IsSound now a w s fresh pending =
      Ensures-bind (IsSound env) (insert_action a w) _ λ w' put.
        let (absent, free, made) = insert_action_lem a w put in
        audit-IsSound now a.requested_by "action.proposed" a.action_id _
          (subst (IsSound env) made (insert-IsSound a w s fresh pending absent free))

  -- A proposal that is made has no approvals yet, and is pending.
  draft_lem :
      (user role id cluster : String) (revision : ℕ) (workflow : String)
      (payload : List (String × Submitted)) (evidence : List String) (rationale : String) (now : ℕ)
      {a : ResponseAction}
      → draft env user role id cluster revision workflow payload evidence rationale now ≡ ok a
      → (a.approvals ≡ []) × (a.state ≡ approval_required)
  unfolding draft new_action
  draft_lem user role id cluster revision workflow payload evidence rationale now h = ground arith

  pub propose-IsSound :
      (user role id cluster : String) (revision : ℕ) (workflow : String)
      (payload : List (String × Submitted)) (evidence : List String) (rationale : String) (now : ℕ)
      (w : World)
      → IsSound env w
      → IsSound env
          (propose env user role id cluster revision workflow payload evidence rationale now w).1
  unfolding propose
  propose-IsSound user role id cluster revision workflow payload evidence rationale now w s =
      with_action-holds (IsSound env)
        (draft env user role id cluster revision workflow payload evidence rationale now) w _ s
        λ a made.
          let (fresh, pending) =
            draft_lem user role id cluster revision workflow payload evidence rationale now made in
          reply-holds env (IsSound env) id (propose_body env now a) w s
            (propose_body-IsSound now a w s fresh pending)

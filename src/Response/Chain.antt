-- ===== src/Response/Chain.antt =====
-- The audit trail of engine/response/audit.py: what `verify` sees, and what an append keeps.
use log_lookup_ai.Prelude.{
  ℕ, suc, ◌≡◌, refl, ◌∙◌, sym, ◌≢◌, ◌⊎◌, inl, inr, String, true, none, List, [], ◌∷◌, ◌++◌, map,
  arith, ◌==◌, string_eq, text_iff, Bool-cases, length, All,
}
use log_lookup_ai.Prelude.Text.{join, IsFree, cut}
use log_lookup_ai.Response.Models.{num, Detail, AuditEvent, World}
use log_lookup_ai.Response.Policy.{Env}
use log_lookup_ai.Response.Audit

module _ (env : Env) where
  good_entry :
      (seq : ℕ) (prev : String) (e : AuditEvent) (es : List AuditEvent)
      → Audit.first_broken env seq prev (e ∷ es) ≡ none
      → (e.prev_hash ≡ prev)
        × (e.entry_hash ≡ Audit.entry_hash env prev e)
        × (Audit.first_broken env (suc seq) e.entry_hash es ≡ none)
  unfolding Audit.first_broken
  good_entry seq prev e es h =
      ground (arith, text_iff e.prev_hash prev, text_iff e.entry_hash (Audit.entry_hash env prev e))

  append_good :
      (seq : ℕ) (prev : String) (es : List AuditEvent) (e : AuditEvent)
      → e.prev_hash ≡ Audit.last_hash prev es
      → e.entry_hash ≡ Audit.entry_hash env (Audit.last_hash prev es) e
      → Audit.first_broken env seq prev es ≡ none
      → Audit.first_broken env seq prev (es ++ e ∷ []) ≡ none
  unfolding Audit.first_broken Audit.last_hash
  append_good seq prev [] e p q h =
      ground (arith, text_iff e.prev_hash prev, text_iff e.entry_hash (Audit.entry_hash env prev e))
  append_good seq prev (x ∷ es) e p q h =
      ground (arith, append_good (suc seq) x.entry_hash es e p q)

  -- `verify` accepts an audit trail exactly when no entry is broken.
  verify_good :
      (rows : List AuditEvent)
      → (Audit.verify env rows).valid ≡ true
      → Audit.first_broken env 1 Audit.genesis rows ≡ none
  unfolding Audit.verify
  verify_good rows h = ground arith

  good_verify :
      (rows : List AuditEvent)
      → Audit.first_broken env 1 Audit.genesis rows ≡ none
      → (Audit.verify env rows).valid ≡ true
  unfolding Audit.verify
  good_verify rows h = ground arith

  -- An audit trail that `verify` accepts is still accepted after an append.
  pub append-verify :
      (now : ℕ) (actor action target : String) (detail : Detail) (w : World)
      → (Audit.verify env w.audit).valid ≡ true
      → (Audit.verify env (Audit.append env now actor action target detail w).audit).valid ≡ true
  unfolding Audit.append
  append-verify now actor action target detail w h = good_verify _ (
      append_good 1 Audit.genesis w.audit
        (Audit.new_event env w.audit now actor action target detail)
        (unfold Audit.new_event in refl)
        (unfold Audit.new_event Audit.entry_hash Audit.entry_parts in refl) (verify_good w.audit h))

  -- Two different texts with the same hash.
  abbrev pub Collision : Type 0
  Collision = (s : String) × (t : String) × (s ≢ t) × (env.sha256 s ≡ env.sha256 t)

  -- What an entry says.
  pub record Statement : Type 0 where
    pub ts : String
    pub actor : String
    pub action : String
    pub target : String
    pub detail : String

  abbrev pub statement : AuditEvent → Statement
  statement e = record {
    ts = env.render (num e.ts ∷ []);
    actor = e.actor;
    action = e.action;
    target = e.target;
    detail = e.detail;
  }

  -- The separator stands in none of the parts of an entry that others follow.
  pub record IsPlain (e : AuditEvent) : Type 0 where
    pub prev_hash : IsFree Audit.separator e.prev_hash
    pub ts : IsFree Audit.separator (env.render (num e.ts ∷ []))
    pub actor : IsFree Audit.separator e.actor
    pub action : IsFree Audit.separator e.action
    pub target : IsFree Audit.separator e.target

  -- The texts of two entries that are hashed are the same only if the entries are.
  parts_back :
      (e f : AuditEvent)
      → IsPlain e
      → IsPlain f
      → join Audit.separator (Audit.entry_parts env e.prev_hash e)
        ≡ join Audit.separator (Audit.entry_parts env f.prev_hash f)
      → (e.prev_hash ≡ f.prev_hash) × (statement e ≡ statement f)
  unfolding join Audit.entry_parts
  parts_back e f g h same =
      let c = Audit.separator in
      let (prev, e1) = cut c _ _ _ _ g.prev_hash h.prev_hash same in
      let (ts, e2) = cut c _ _ _ _ g.ts h.ts e1 in
      let (actor, e3) = cut c _ _ _ _ g.actor h.actor e2 in
      let (action, e4) = cut c _ _ _ _ g.action h.action e3 in
      let (target, detail) = cut c _ _ _ _ g.target h.target e4 in (prev, cc)

  same_or_collision : (s t : String) → env.sha256 s ≡ env.sha256 t → (s ≡ t) ⊎ Collision
  same_or_collision s t h = elim (Bool-cases (s == t)) [
    | inl p ↦ inl ((text_iff s t).0 p)
    | inr p ↦ inr (s, t, (λ e. let q : (s == t) ≡ true = (text_iff s t).1 e in cc), h)
  ]

  -- What the entries of a trail say, in order.
  abbrev pub contents : List AuditEvent → List Statement
  contents rows = map statement rows

  same_chain :
      (m n : ℕ) (p q : String) (es fs : List AuditEvent)
      → All IsPlain es
      → All IsPlain fs
      → Audit.first_broken env m p es ≡ none
      → Audit.first_broken env n q fs ≡ none
      → length es ≡ length fs
      → Audit.last_hash p es ≡ Audit.last_hash q fs
      → ((p ≡ q) × (contents es ≡ contents fs)) ⊎ Collision
  unfolding Audit.last_hash Audit.entry_hash Audit.entry_parts
  same_chain m n p q [] [] ge gf ve vf len last = inl (last, refl)
  same_chain m n p q [] (f ∷ fs) ge gf ve vf len last = absurd (omega (arith, len))
  same_chain m n p q (e ∷ es) [] ge gf ve vf len last = absurd (omega (arith, len))
  same_chain m n p q (e ∷ es) (f ∷ fs) ge gf ve vf len last =
      let (prev_e, hash_e, rest_e) = good_entry m p e es ve in
      let (prev_f, hash_f, rest_f) = good_entry n q f fs vf in
      elim (same_chain (suc m) (suc n) e.entry_hash f.entry_hash es fs ge.1 gf.1 rest_e rest_f
        (omega (arith, len)) last) [
          | inr c ↦ inr c
          | inl (hash, same) ↦ elim (same_or_collision _ _ (sym hash_e ∙ hash ∙ hash_f)) [
            | inr c ↦ inr c
            | inl texts ↦
                let (prev, here) = parts_back e f ge.0 gf.0 (rw (prev_e, prev_f) texts) in
                inl (sym prev_e ∙ prev ∙ prev_f, cc)
          ]
        ]

  -- Two audit trails of the same length that `verify` accepts and that end in the same hash have the same
  -- time, actor, action, target and detail in every entry, or they exhibit two different texts with the
  -- same hash; where the separator of the hashed text stands in no previous hash, time, actor, action or
  -- target of the two.
  pub verify-tamper :
      (rows other : List AuditEvent)
      → All IsPlain rows
      → All IsPlain other
      → (Audit.verify env rows).valid ≡ true
      → (Audit.verify env other).valid ≡ true
      → length rows ≡ length other
      → Audit.last_hash Audit.genesis rows ≡ Audit.last_hash Audit.genesis other
      → (contents rows ≡ contents other) ⊎ Collision
  verify-tamper rows other plain plain' v v' len last =
      elim (same_chain 1 1 Audit.genesis Audit.genesis rows other plain plain' (verify_good rows v)
        (verify_good other v') len last) [ inl (p, same) ↦ inl same | inr c ↦ inr c ]

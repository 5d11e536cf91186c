-- ===== src/Correlate/Risk/Rescoring.antt =====
-- Rescoring twice is rescoring once: no weight is counted twice.
use log_lookup_ai.Prelude.{
  ℕ, String, Bool, true, false, ◌||◌, ◌≡◌, refl, sym, ap, ◌∙◌, subst, inl, inr, Option, none, some,
  List, [], ◌∷◌, HasEq, string_eq, nat_eq, ◌==◌, nat_beq_iff, text_refl, if◌then◌else◌, Bool-cases,
}
use log_lookup_ai.Prelude.Dict.{Dict, get, put, get-put}
use log_lookup_ai.Prelude.Order.{Moment}
use log_lookup_ai.Correlate.Engine.{Cluster, Engine}
use log_lookup_ai.Correlate.Engine.Pruning.{live_clusters}
use log_lookup_ai.Correlate.Risk.{
  Numbers, RiskConfig, ClusterRisk, Risks, line_risk, is_kept, rescore_lines, rescore_cluster,
  rescore_clusters, was_surfaced, rescore,
}

-- Writing what is there changes nothing.
put-same {ℓ κ} :
    {K : Type ℓ} {V : Type κ} ⦃d : HasEq K⦄ (k : K) (v : V) (m : Dict K V)
    → get k m ≡ some v
    → put k v m ≡ m
unfolding get put
put-same k v [] h = cc
put-same {V = V} ⦃d⦄ k v ((j, w) ∷ m) h = elim (Bool-cases (j == k)) [
  | inl p ↦
      let f : some w ≡ some v = subst (λ b. (if b then some w else get k m) ≡ some v) p h in
      let e : w ≡ v = cc in rw (p) (ap (λ (x : V). (j, x) ∷ m) (sym e))
  | inr p ↦ rw (p) (
      ap (λ (x : Dict _ V). (j, w) ∷ x)
        (put-same k v m (subst (λ b. (if b then some w else get k m) ≡ some v) p h)))
]

or-again : (a b : Bool) → ((a || b) || b) ≡ (a || b)
or-again true b = refl
or-again false true = refl
or-again false false = refl

-- The keys of the timelines are distinct.
abbrev pub Distinct {ℓ} : {V : Type ℓ} → Dict ℕ V → Type ℓ
Distinct [] = Unit
Distinct ((k, v) ∷ d) = (get k d ≡ none) × Distinct d

-- The ids of the chains are distinct.
abbrev IsOther : String → List Cluster → Type 0
IsOther cid [] = Unit
IsOther cid (c ∷ clusters) = ((c.cluster_id == cid) ≡ false) × IsOther cid clusters

abbrev pub DistinctIds : List Cluster → Type 0
DistinctIds [] = Unit
DistinctIds (c ∷ clusters) = IsOther c.cluster_id clusters × DistinctIds clusters

module _ {R : Type 0} (n : Numbers R) (config : RiskConfig R) (e : Engine) where
  -- The score that a timeline gives.
  abbrev with_line : ℕ → List Moment → Dict ℕ R → Dict ℕ R
  with_line u line risks =
      if is_kept n config e u then put u (line_risk n config e n.zero line) risks else risks

  with_line-other :
      (uid u : ℕ) (line : List Moment) (risks : Dict ℕ R)
      → (u == uid) ≡ false
      → get uid (with_line u line risks) ≡ get uid risks
  with_line-other uid u line risks h = elim (Bool-cases (is_kept n config e u)) [
    | inl p ↦ rw (p, get-put u uid (line_risk n config e n.zero line) risks, h) refl
    | inr p ↦ rw (p) refl
  ]

  -- An entity that has no timeline keeps its score.
  rescore_lines-other :
      (uid : ℕ) (lines : Dict ℕ (List Moment)) (risks : Dict ℕ R)
      → get uid lines ≡ none
      → get uid (rescore_lines n config e lines risks) ≡ get uid risks
  unfolding rescore_lines get
  rescore_lines-other uid [] risks h = refl
  rescore_lines-other uid ((u, line) ∷ lines) risks h = elim (Bool-cases (u == uid)) [
    | inl p ↦
        let f : some line ≡ none =
          subst (λ b. (if b then some line else get uid lines) ≡ none) p h in
        cc
    | inr p ↦
        rescore_lines-other uid lines (with_line u line risks)
          (subst (λ b. (if b then some line else get uid lines) ≡ none) p h)
        ∙ with_line-other uid u line risks p
  ]

  -- Every entity that is kept has the score of its timeline.
  Scored : Dict ℕ (List Moment) → Dict ℕ R → Type 0
  Scored [] risks = Unit
  Scored ((u, line) ∷ lines) risks =
      (is_kept n config e u ≡ true → get u risks ≡ some (line_risk n config e n.zero line))
      × Scored lines risks

  rescore_lines-Scored :
      (lines : Dict ℕ (List Moment)) (risks : Dict ℕ R)
      → Distinct lines
      → Scored lines (rescore_lines n config e lines risks)
  unfolding rescore_lines Scored
  rescore_lines-Scored [] risks h = tt
  rescore_lines-Scored ((u, line) ∷ lines) risks (apart, h) = (
    λ kept.
        rescore_lines-other u lines (with_line u line risks) apart
        ∙ rw (kept, get-put u u (line_risk n config e n.zero line) risks, (nat_beq_iff u u).1 refl)
            refl,
    rescore_lines-Scored lines (with_line u line risks) h,
  )

  Scored-rescore_lines :
      (lines : Dict ℕ (List Moment)) (risks : Dict ℕ R)
      → Scored lines risks
      → rescore_lines n config e lines risks ≡ risks
  unfolding rescore_lines Scored
  Scored-rescore_lines [] risks h = refl
  Scored-rescore_lines ((u, line) ∷ lines) risks (at, h) =
      ap (λ x. rescore_lines n config e lines x)
        (elim (Bool-cases (is_kept n config e u)) [
          | inl p ↦ rw (p) (put-same u _ risks (at p))
          | inr p ↦ rw (p) refl
        ])
      ∙ Scored-rescore_lines lines risks h

  module _ (risks : Dict ℕ R) where
    -- A chain that was rescored gets the same again.
    rescore_cluster-again :
        (c : Cluster) (old : Option (ClusterRisk R))
        → rescore_cluster n config e c risks (some (rescore_cluster n config e c risks old))
          ≡ rescore_cluster n config e c risks old
    unfolding rescore_cluster was_surfaced
    rescore_cluster-again c old =
        let r = rescore_cluster n config e c risks old in
        ap (λ b. record r { surfaced = b })
          (or-again (was_surfaced n config old) (n.at_least r.risk_score config.surface_threshold))

    rescore_clusters-other :
        (cid : String) (cs : List Cluster) (d : Dict String (ClusterRisk R))
        → IsOther cid cs
        → get cid (rescore_clusters n config e cs risks d) ≡ get cid d
    unfolding rescore_clusters
    rescore_clusters-other cid [] d h = refl
    rescore_clusters-other cid (c ∷ cs) d (p, h) =
        rescore_clusters-other cid cs _ h ∙ get-put c.cluster_id cid _ d ∙ rw (p) refl

    -- Every chain has the fields that a rescoring gives it again.
    Rated : List Cluster → Dict String (ClusterRisk R) → Type 0
    Rated [] d = Unit
    Rated (c ∷ cs) d =
        (get c.cluster_id d ≡ some (rescore_cluster n config e c risks (get c.cluster_id d)))
        × Rated cs d

    rescore_clusters-Rated :
        (cs : List Cluster) (d : Dict String (ClusterRisk R))
        → DistinctIds cs
        → Rated cs (rescore_clusters n config e cs risks d)
    unfolding rescore_clusters Rated
    rescore_clusters-Rated [] d h = tt
    rescore_clusters-Rated (c ∷ cs) d (other, h) =
        let r = rescore_cluster n config e c risks (get c.cluster_id d) in
        let d' = put c.cluster_id r d in
        let now : get c.cluster_id (rescore_clusters n config e cs risks d') ≡ some r =
          rescore_clusters-other c.cluster_id cs d' other
          ∙ get-put c.cluster_id c.cluster_id r d
          ∙ rw (text_refl c.cluster_id) refl in
        (
          now
              ∙ ap some (
                  sym (
                    ap (rescore_cluster n config e c risks) now
                    ∙ rescore_cluster-again c (get c.cluster_id d))),
          rescore_clusters-Rated cs d' h,
        )

    Rated-rescore_clusters :
        (cs : List Cluster) (d : Dict String (ClusterRisk R))
        → Rated cs d
        → rescore_clusters n config e cs risks d ≡ d
    unfolding rescore_clusters Rated
    Rated-rescore_clusters [] d h = refl
    Rated-rescore_clusters (c ∷ cs) d (at, h) =
        ap (λ x. rescore_clusters n config e cs risks x)
          (put-same c.cluster_id (rescore_cluster n config e c risks (get c.cluster_id d)) d at)
        ∙ Rated-rescore_clusters cs d h

  -- Rescoring twice in a row is rescoring once, for entities and chains, where the timelines are of
  -- different entities and the live chains have different ids.
  pub rescore-rescore :
      (r : Risks R)
      → Distinct e.timelines
      → DistinctIds (live_clusters e.clusters)
      → rescore n config e (rescore n config e r) ≡ rescore n config e r
  unfolding rescore
  rescore-rescore r lines ids =
      let risks = rescore_lines n config e e.timelines r.entities in
      let same : rescore_lines n config e e.timelines risks ≡ risks =
        Scored-rescore_lines e.timelines risks
          (rescore_lines-Scored e.timelines r.entities lines) in
      let cs = live_clusters e.clusters in
      let d = rescore_clusters n config e cs risks r.clusters in
      ap (λ x. record { entities = x; clusters = rescore_clusters n config e cs x d }) same
      ∙ ap (λ x. record { entities = risks; clusters = x })
          (Rated-rescore_clusters risks cs d (rescore_clusters-Rated risks cs r.clusters ids))

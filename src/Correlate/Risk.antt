-- ===== src/Correlate/Risk.antt =====
-- engine/correlate/risk.py: RiskScorer, with the fields of a chain and of an entity that it sets. Its
-- numbers are Python's floats, a parameter of the module with the operations that the code uses.
pub mod Rescoring
use log_lookup_ai.Prelude.{
  ℕ, ◌-◌, String, Bool, true, false, ◌||◌, not, Option, none, some, List, [], ◌∷◌, string_eq,
  nat_eq, ◌==◌, if◌then◌else◌, length, contains,
}
use log_lookup_ai.Prelude.Dict.{Dict, get, put}
use log_lookup_ai.Prelude.Order.{Moment, text_lt}
use log_lookup_ai.Correlate.Alerts.{NormalizedAlert}
use log_lookup_ai.Correlate.Chains.{Disposition, reversed, progressing, flat, unjudged, filled}
use log_lookup_ai.Correlate.Engine.{Cluster, Engine}
use log_lookup_ai.Correlate.Entities.{find_entity}
use log_lookup_ai.Correlate.Engine.Pruning.{live_clusters}

pub record Numbers (R : Type 0) : Type 0 where
  pub zero : R
  pub plus : R → R → R
  pub maximum : R → R → R
  -- independent_source_weight * n
  pub scaled : R → ℕ → R
  -- -subtotal * (1 - misconfiguration_downgrade)
  pub downgraded : R → R → R
  pub at_least : R → R → Bool

-- RiskConfig
pub record RiskConfig (R : Type 0) : Type 0 where
  pub severity_weights : Dict ℕ R
  pub surface_threshold : R
  pub misconfiguration_downgrade : R
  pub independent_source_weight : R

-- What a rescoring sets of a chain; the breakdown is given by its parts.
pub record ClusterRisk (R : Type 0) : Type 0 where
  pub severity_evidence : R
  pub confirmation : R
  pub downgrade : R
  pub risk_score : R
  pub surfaced : Bool
  pub source_providers : List String

-- The risk scores of the entities, by number, and those of the chains, by id.
pub record Risks (R : Type 0) : Type 0 where
  pub entities : Dict ℕ R
  pub clusters : Dict String (ClusterRisk R)

abbrev is_reversed : Disposition → Bool
is_reversed progressing = false
is_reversed reversed = true
is_reversed flat = false
is_reversed unjudged = false

-- A set of texts in order: the text is put before the first one that is greater.
unfoldable pub insert_text : String → List String → List String
unfolding text_lt
insert_text s [] = s ∷ []
insert_text s (t ∷ rest) =
    let later = insert_text s rest in
    if s == t then t ∷ rest else if text_lt s t then s ∷ t ∷ rest else t ∷ later

-- sorted({provider of each alert that has one})
unfoldable pub providers_of : Engine → List String → List String
unfolding get filled insert_text
providers_of e [] = []
providers_of e (uid ∷ uids) =
    let rest = providers_of e uids in
    elim (get uid e.alerts) [
      | none ↦ rest
      | some a ↦ elim (filled a.provider) [ none ↦ rest | some name ↦ insert_text name rest ]
    ]

module _ {R : Type 0} (n : Numbers R) (config : RiskConfig R) where
  -- weight_for
  unfoldable pub weight_for : ℕ → R
  unfolding get
  weight_for severity = elim (get severity config.severity_weights) [ none ↦ n.zero | some w ↦ w ]

  -- sum(...), added up from the first alert on; `total` is what is added up so far
  unfoldable pub line_risk : Engine → R → List Moment → R
  unfolding get weight_for
  line_risk e total [] = total
  line_risk e total (m ∷ line) =
      line_risk e
        (elim (get m.1 e.alerts) [
          | none ↦ total
          | some a ↦ n.plus total (weight_for a.severity_id)
        ])
        line

  -- Whether resolver.get finds the entity.
  unfoldable pub is_kept : Engine → ℕ → Bool
  unfolding find_entity
  is_kept e uid = elim (find_entity uid e.resolver) [ none ↦ false | some _ ↦ true ]

  -- _rescore_entities
  unfoldable pub rescore_lines : Engine → Dict ℕ (List Moment) → Dict ℕ R → Dict ℕ R
  unfolding line_risk is_kept put
  rescore_lines e [] risks = risks
  rescore_lines e ((uid, line) ∷ lines) risks =
      rescore_lines e lines
        (if is_kept e uid then put uid (line_risk e n.zero line) risks else risks)

  -- The score of an entity: 0.0 until it is rescored.
  unfoldable pub score_of : Dict ℕ R → ℕ → R
  unfolding get
  score_of risks uid = elim (get uid risks) [ none ↦ n.zero | some r ↦ r ]

  abbrev pub higher : Option R → R → R
  higher none r = r
  higher (some best) r = n.maximum best r

  -- max(entity_risks, default=0.0); `best` is the greatest so far
  unfoldable pub highest : Engine → Dict ℕ R → Option R → List ℕ → R
  unfolding is_kept score_of
  highest e risks best [] = elim best [ none ↦ n.zero | some r ↦ r ]
  highest e risks best (uid ∷ uids) =
      highest e risks (if is_kept e uid then some (higher best (score_of risks uid)) else best) uids

  -- cluster.surfaced before the rescoring
  unfoldable pub was_surfaced : Option (ClusterRisk R) → Bool
  was_surfaced none = false
  was_surfaced (some r) = r.surfaced

  -- _rescore_cluster
  unfoldable pub rescore_cluster :
      Engine → Cluster → Dict ℕ R → Option (ClusterRisk R) → ClusterRisk R
  unfolding highest providers_of was_surfaced
  rescore_cluster e c risks old =
      let evidence = highest e risks none c.entity_uids in
      let providers = providers_of e c.alert_uids in
      let confirmation = n.scaled config.independent_source_weight (length providers - 1) in
      let subtotal = n.plus evidence confirmation in
      let downgrade =
        if is_reversed c.disposition
        then n.downgraded subtotal config.misconfiguration_downgrade
        else n.zero in
      let risk = n.plus subtotal downgrade in
      record {
        severity_evidence = evidence;
        confirmation = confirmation;
        downgrade = downgrade;
        risk_score = risk;
        surfaced = was_surfaced old || n.at_least risk config.surface_threshold;
        source_providers = providers;
      }

  -- The loop of rescore over the live chains.
  unfoldable pub rescore_clusters :
      Engine → List Cluster → Dict ℕ R → Dict String (ClusterRisk R) → Dict String (ClusterRisk R)
  unfolding rescore_cluster get put
  rescore_clusters e [] risks d = d
  rescore_clusters e (c ∷ clusters) risks d =
      rescore_clusters e clusters risks
        (put c.cluster_id (rescore_cluster e c risks (get c.cluster_id d)) d)

  -- rescore
  unfoldable pub rescore : Engine → Risks R → Risks R
  unfolding rescore_lines rescore_clusters live_clusters
  rescore e r =
      let risks = rescore_lines e e.timelines r.entities in
      record {
        entities = risks;
        clusters = rescore_clusters e (live_clusters e.clusters) risks r.clusters;
      }

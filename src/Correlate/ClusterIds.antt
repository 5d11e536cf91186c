-- ===== src/Correlate/ClusterIds.antt =====
-- engine/correlate/cluster_id.py: ClusterIdGenerator. The date of a time, the sanitizing of a label and
-- the text of an id are parameters (the module datetime, a regular expression, an f-string).
pub mod Stability
use log_lookup_ai.Prelude.{
  ℕ, ◌+◌, max, String, ◌≡◌, ◌↔◌, Bool, ◌&&◌, Option, none, some, List, [], ◌∷◌, HasEq, string_eq,
  ◌==◌, text_iff, if◌then◌else◌, arith, true, ap,
}
use log_lookup_ai.Prelude.Dict.{Dict, get, put}

pub record IdOps : Type 0 where
  pub date_of : ℕ → String
  pub sanitize_label : String → String
  pub chain_id : String → String → ℕ → String

-- A key of `_counters`: a date and a label.
abbrev pub CounterKey : Type 0
CounterKey = String × String

abbrev pub key_same : CounterKey → CounterKey → Bool
key_same k j = k.0 == j.0 && k.1 == j.1

pub key_same_iff : (k j : CounterKey) → (key_same k j ≡ true) ↔ (k ≡ j)
key_same_iff (d, l) (d', l') = (
  λ h.
      let p : d ≡ d' = (text_iff d d').0 (ground arith) in
      let q : l ≡ l' = (text_iff l l').0 (ground arith) in cc,
  λ e.
      let p : d ≡ d' = ap (λ (x : CounterKey). x.0) e in
      let q : l ≡ l' = ap (λ (x : CounterKey). x.1) e in
      ground (arith, text_iff d d', text_iff l l'),
)

instance abbrev pub key_eq : HasEq CounterKey
key_eq = record { same_iff = key_same_iff; same = key_same }

pub record Generator : Type 0 where
  pub counters : Dict CounterKey ℕ
  pub by_anchor : Dict String String

abbrev pub or_zero : Option ℕ → ℕ
or_zero none = 0
or_zero (some n) = n

-- self._by_anchor.update(anchors)
unfoldable pub put_all : Dict String String → Dict String String → Dict String String
unfolding put
put_all [] d = d
put_all ((k, v) ∷ anchors) d = put_all anchors (put k v d)

-- The loop of preload over the counters.
unfoldable pub raise_all : Dict CounterKey ℕ → Dict CounterKey ℕ → Dict CounterKey ℕ
unfolding get put
raise_all [] d = d
raise_all ((k, n) ∷ counters) d = raise_all counters (put k (max (or_zero (get k d)) n) d)

-- preload
unfoldable pub preload : Dict String String → Dict CounterKey ℕ → Generator → Generator
unfolding put_all raise_all
preload anchors counters g = record {
  by_anchor = put_all anchors g.by_anchor;
  counters = raise_all counters g.counters;
}

-- next_id for an anchor that is not known
unfoldable pub issue_id : IdOps → ℕ → String → String → Generator → Generator × String
unfolding get put
issue_id ops first_time entity_name anchor g =
    let key : CounterKey = (ops.date_of first_time, ops.sanitize_label entity_name) in
    let n = or_zero (get key g.counters) + 1 in
    let cluster_id = ops.chain_id (ops.date_of first_time) (ops.sanitize_label entity_name) n in
    (
      record { counters = put key n g.counters; by_anchor = put anchor cluster_id g.by_anchor },
      cluster_id,
    )

-- next_id, where the option is what `_by_anchor` has for the anchor
unfoldable pub next_for :
    IdOps → ℕ → String → String → Option String → Generator → Generator × String
unfolding issue_id
next_for ops first_time entity_name anchor (some cluster_id) g = (g, cluster_id)
next_for ops first_time entity_name anchor none g = issue_id ops first_time entity_name anchor g

-- next_id with an anchor
unfoldable pub next_id : IdOps → ℕ → String → String → Generator → Generator × String
unfolding get next_for
next_id ops first_time entity_name anchor g =
    next_for ops first_time entity_name anchor (get anchor g.by_anchor) g

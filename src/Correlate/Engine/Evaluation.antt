-- ===== src/Correlate/Engine/Evaluation.antt =====
-- engine/correlate/engine.py: the watermark and evaluate. The risk scores, which evaluate sets at its
-- end, are left out.
use log_lookup_ai.Prelude.{
  ℕ, ◌+◌, String, Bool, not, Option, none, some, List, [], ◌∷◌, map, if◌then◌else◌, leb, keep,
}
use log_lookup_ai.Correlate.Engine.{Environment, Item, Engine, insert_alert}
use log_lookup_ai.Correlate.Engine.Clusters.{rebuild_clusters}

-- time <= watermark, where watermark is the latest time less the grace, which may be negative
unfoldable pub is_ready : ℕ → ℕ → Item → Bool
is_ready grace latest item = leb (item.time + grace) latest

-- The split of the buffer at the watermark: what is ready, and the engine with the rest. Without a
-- watermark nothing is ready.
unfoldable pub take_until : Option ℕ → Engine → List Item × Engine
unfolding is_ready keep
take_until none e = ([], e)
take_until (some latest) e =
    let waiting = keep (λ (x : Item). not (is_ready e.grace_ms latest x)) e.buffer in
    (
      keep (is_ready e.grace_ms latest) e.buffer,
      record e { buffer = waiting; buffered_uids = map (λ (x : Item). x.uid) waiting },
    )

unfoldable pub take_ready : Engine → List Item × Engine
unfolding take_until
take_ready e = take_until e.max_event_time_ms e

-- All of the buffer.
unfoldable pub take_all : Engine → List Item × Engine
take_all e = (e.buffer, record e { buffer = []; buffered_uids = [] })

-- The loop of evaluate over what is ready.
unfoldable pub insert_items : Environment → List Item → Engine → Engine
unfolding insert_alert
insert_items env [] e = e
insert_items env (x ∷ ready) e = insert_items env ready (insert_alert env x.time x.uid x.alert e)

-- The end of evaluate.
unfoldable pub correlate : Environment → (ℕ → String) → List Item → Engine → Engine
unfolding insert_items rebuild_clusters
correlate env unnamed ready e =
    rebuild_clusters env unnamed (map (λ (x : Item). x.uid) ready) (insert_items env ready e)

-- evaluate; without a ready alert nothing is rebuilt, as there is no node to rebuild
unfoldable pub evaluate : Environment → (ℕ → String) → Bool → Engine → Engine
unfolding take_all take_ready correlate
evaluate env unnamed flush e =
    let (ready, rest) = if flush then take_all e else take_ready e in
    correlate env unnamed ready rest

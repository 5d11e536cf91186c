-- ===== src/Correlate/Engine/Lines.antt =====
-- The timelines of all entities: sorted, with an edge between neighbours within the window.
use log_lookup_ai.Prelude.{
  ℕ, String, Bool, true, false, sym, subst, inl, inr, Option, none, some, List, [], ◌∷◌, ◌++◌,
  nat_eq, ◌==◌, Bool-cases,
}
use log_lookup_ai.Prelude.Dict.{Dict, get, put}
use log_lookup_ai.Prelude.Order.{Moment}
use log_lookup_ai.Correlate.Alerts.{NormalizedAlert}
use log_lookup_ai.Correlate.Entities.{Resolution, or_empty}
use log_lookup_ai.Correlate.Entities.Resolving.{resolve}
use log_lookup_ai.Correlate.Timelines.{Edge}
use log_lookup_ai.Correlate.Timelines.Search.{IsSorted}
use log_lookup_ai.Correlate.Timelines.Stitching.{
  IsStitched, IsStitched-mono, In-left, insert_moment-IsStitched,
}
use log_lookup_ai.Correlate.Engine.{
  Environment, Item, Engine, insert_into, place_alert, insert_alert, place_found,
}
use log_lookup_ai.Correlate.Engine.Evaluation.{
  take_ready, take_all, insert_items, correlate, evaluate, take_until,
}
use log_lookup_ai.Correlate.Engine.Unmoved.{Ground, ground_of, rebuild_clusters-ground}

-- One timeline with the edges.
abbrev pub Woven : ℕ → List Edge → List Moment → Type 0
Woven window edges line = IsSorted line × IsStitched window edges line

-- Every timeline with the edges.
abbrev pub AllWoven : ℕ → List Edge → Dict ℕ (List Moment) → Type 0
AllWoven window edges [] = Unit
AllWoven window edges ((entity, line) ∷ timelines) =
    Woven window edges line × AllWoven window edges timelines

abbrev pub IsWoven : Engine → Type 0
IsWoven e = AllWoven e.window_ms e.edges e.timelines

AllWoven-get :
    (window : ℕ) (edges : List Edge) (entity : ℕ) (timelines : Dict ℕ (List Moment))
    → AllWoven window edges timelines
    → Woven window edges (or_empty (get entity timelines))
unfolding get
AllWoven-get window edges entity [] h = (tt, tt)
AllWoven-get window edges entity ((u, line) ∷ timelines) (h, rest) =
    elim (Bool-cases (u == entity)) [
      | inl p ↦ rw (p) h
      | inr p ↦ rw (p) (AllWoven-get window edges entity timelines rest)
    ]

AllWoven-more :
    (window : ℕ) (edges more : List Edge) (timelines : Dict ℕ (List Moment))
    → AllWoven window edges timelines
    → AllWoven window (edges ++ more) timelines
AllWoven-more window edges more [] h = tt
AllWoven-more window edges more ((u, line) ∷ timelines) ((sorted, stitched), rest) = (
  (sorted, IsStitched-mono window edges _ line (λ e i. In-left more i) stitched),
  AllWoven-more window edges more timelines rest,
)

AllWoven-put :
    (window : ℕ) (edges : List Edge) (entity : ℕ) (line : List Moment)
    (timelines : Dict ℕ (List Moment))
    → Woven window edges line
    → AllWoven window edges timelines
    → AllWoven window edges (put entity line timelines)
unfolding put
AllWoven-put window edges entity line [] h rest = (h, tt)
AllWoven-put window edges entity line ((u, l) ∷ timelines) h (w, rest) =
    elim (Bool-cases (u == entity)) [
      | inl p ↦ rw (p) (h, rest)
      | inr p ↦ rw (p) (w, AllWoven-put window edges entity line timelines h rest)
    ]

insert_into-IsWoven :
    (m : Moment) (entities : List ℕ) (e : Engine) → IsWoven e → IsWoven (insert_into m entities e)
unfolding insert_into
insert_into-IsWoven m [] e h = h
insert_into-IsWoven m (entity ∷ entities) e h =
    let (sorted, stitched) = AllWoven-get e.window_ms e.edges entity e.timelines h in
    insert_into-IsWoven m entities _ (
      AllWoven-put e.window_ms _ entity _ e.timelines
        (insert_moment-IsStitched e.window_ms m (or_empty (get entity e.timelines)) e.edges sorted
          stitched)
        (AllWoven-more e.window_ms e.edges _ e.timelines h))

place_found-IsWoven :
    (time : ℕ) (uid : String) (a : NormalizedAlert) (o : Option Resolution) (e : Engine)
    → IsWoven e
    → IsWoven (place_found time uid a o e)
unfolding place_found place_alert
place_found-IsWoven time uid a none e h = h
place_found-IsWoven time uid a (some found) e h = insert_into-IsWoven (time, uid) found.entities _ h

insert_alert-IsWoven :
    (env : Environment) (time : ℕ) (uid : String) (a : NormalizedAlert) (e : Engine)
    → IsWoven e
    → IsWoven (insert_alert env time uid a e)
unfolding insert_alert
insert_alert-IsWoven env time uid a e h =
    let (resolver, answer) = resolve env.texts a e.resolver in
    place_found-IsWoven time uid a answer (record e { resolver = resolver }) h

insert_items-IsWoven :
    (env : Environment) (items : List Item) (e : Engine)
    → IsWoven e
    → IsWoven (insert_items env items e)
unfolding insert_items
insert_items-IsWoven env [] e h = h
insert_items-IsWoven env (x ∷ items) e h =
    insert_items-IsWoven env items _ (insert_alert-IsWoven env x.time x.uid x.alert e h)

abbrev GroundIsWoven : Ground → Type 0
GroundIsWoven g = AllWoven g.window_ms g.edges g.timelines

correlate-IsWoven :
    (env : Environment) (unnamed : ℕ → String) (ready : List Item) (e : Engine)
    → IsWoven e
    → IsWoven (correlate env unnamed ready e)
unfolding correlate ground_of
correlate-IsWoven env unnamed ready e h =
    subst GroundIsWoven (sym (rebuild_clusters-ground env unnamed _ (insert_items env ready e)))
      (insert_items-IsWoven env ready e h)

take_until-IsWoven : (o : Option ℕ) (e : Engine) → IsWoven e → IsWoven (take_until o e).1
unfolding take_until
take_until-IsWoven none e h = h
take_until-IsWoven (some latest) e h = h

-- evaluate keeps every timeline in the order of event times and any two neighbours of a timeline that
-- are within the window linked by the graph, in whatever order the alerts are inserted.
pub evaluate-IsWoven :
    (env : Environment) (unnamed : ℕ → String) (flush : Bool) (e : Engine)
    → IsWoven e
    → IsWoven (evaluate env unnamed flush e)
unfolding evaluate take_all take_ready
evaluate-IsWoven env unnamed true e h = correlate-IsWoven env unnamed e.buffer (take_all e).1 h
evaluate-IsWoven env unnamed false e h =
    let (ready, rest) = take_until e.max_event_time_ms e in
    correlate-IsWoven env unnamed ready rest (take_until-IsWoven e.max_event_time_ms e h)

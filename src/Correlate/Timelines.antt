-- ===== src/Correlate/Timelines.antt =====
-- The timeline of an entity in engine/correlate/engine.py: its alerts in event-time order, and the
-- edges that an alert gets when it is inserted.
pub mod Search
pub mod Stitching
use log_lookup_ai.Prelude.{
  ℕ, zero, suc, ◌+◌, ◌-◌, ◌/◌, String, Bool, true, false, ◌&&◌, not, List, [], ◌∷◌, ◌++◌, ◌==◌,
  string_eq, if◌then◌else◌, ltb, leb, length,
}
use log_lookup_ai.Prelude.Order.{Moment, before}

-- line[i]; the code reads only positions in range.
unfoldable pub nth : List Moment → ℕ → Moment
nth [] i = (0, "")
nth (x ∷ line) zero = x
nth (x ∷ line) (suc i) = nth line i

-- line.insert(i, m)
unfoldable pub insert_at : ℕ → Moment → List Moment → List Moment
insert_at zero m line = m ∷ line
insert_at (suc i) m [] = m ∷ []
insert_at (suc i) m (x ∷ line) = x ∷ insert_at i m line

-- The loop of _bisect, on fuel.
unfoldable pub bisect_within : ℕ → ℕ → ℕ → List Moment → Moment → ℕ
unfolding nth
bisect_within zero low high line m = low
bisect_within (suc fuel) low high line m =
    let mid = (low + high) / 2 in
    let right = bisect_within fuel (mid + 1) high line m in
    let left = bisect_within fuel low mid line m in
    if ltb low high then (if before (nth line mid) m then right else left) else low

-- _bisect: the distance of the two ends falls in each round, so that the length of the list is
-- enough fuel.
unfoldable pub bisect : List Moment → Moment → ℕ
unfolding bisect_within
bisect line m = bisect_within (length line) 0 (length line) line m

-- An edge of the graph.
abbrev pub Edge : Type 0
Edge = String × String

-- The edge from the predecessor, if it is close enough.
unfoldable pub edge_before : ℕ → ℕ → Moment → List Moment → List Edge
unfolding nth
edge_before window position m line =
    if ltb 0 position
      && leb m.0 ((nth line (position - 1)).0 + window)
      && not ((nth line (position - 1)).1 == m.1)
    then ((nth line (position - 1)).1, m.1) ∷ []
    else []

-- The edge to the successor.
unfoldable pub edge_after : ℕ → ℕ → Moment → List Moment → List Edge
unfolding nth
edge_after window position m line =
    if ltb position (length line)
      && leb (nth line position).0 (m.0 + window)
      && not ((nth line position).1 == m.1)
    then (m.1, (nth line position).1) ∷ []
    else []

-- One round of the loop of _insert_alert: the edges that it adds, and the timeline.
unfoldable pub insert_moment : ℕ → Moment → List Moment → List Edge × List Moment
unfolding bisect edge_before edge_after insert_at
insert_moment window m line =
    let position = bisect line m in
    (
      edge_before window position m line ++ edge_after window position m line,
      insert_at position m line,
    )

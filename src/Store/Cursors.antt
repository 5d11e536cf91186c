-- ===== src/Store/Cursors.antt =====
-- engine/store/cursors.py: the cursor of each stream of each connection. A cursor is its JSON text
-- (in the detail of an audit entry, `text` of a cursor stands for the object that the JSON text is
-- of). `replace` writes its audit entry with the trail of engine/response/audit.py.
pub mod Replaced
use log_lookup_ai.Prelude.{
  ℕ, String, Bool, true, false, not, ◌&&◌, Option, none, some, List, [], ◌∷◌, ◌++◌, ◌==◌, string_eq,
  if◌then◌else◌, keep,
}
use log_lookup_ai.Response.Models.{null, text, World}
use log_lookup_ai.Response.Policy.{Env}
use log_lookup_ai.Response.Audit
use log_lookup_ai.Store.Records.{SourceCursor}
use log_lookup_ai.Store.Ledger.{upsert_cursor}

-- A row of source_cursor_history.
pub record CursorHistory : Type 0 where
  pub connection_id : String
  pub stream_name : String
  pub cursor : String
  pub replaced_by : String
  pub reason : String
  pub replaced_at : ℕ

pub record CursorTables : Type 0 where
  pub source_cursors : List SourceCursor
  pub history : List CursorHistory

-- SELECT cursor_json FROM source_cursors WHERE connection_id=? AND stream_name=?
unfoldable pub find_cursor : String → String → List SourceCursor → Option String
find_cursor connection stream [] = none
find_cursor connection stream (c ∷ cs) =
    let rest = find_cursor connection stream cs in
    if c.connection_id == connection && c.stream_name == stream then some c.cursor else rest

-- CursorStore.get
unfoldable pub get_cursor : String → String → CursorTables → Option String
unfolding find_cursor
get_cursor connection stream t = find_cursor connection stream t.source_cursors

-- The INSERT INTO source_cursor_history, where there is an old cursor.
unfoldable pub keep_old :
    String → String → String → String → ℕ → Option String → List CursorHistory → List CursorHistory
keep_old connection stream who reason now none rows = rows
keep_old connection stream who reason now (some old) rows =
    rows
    ++ (record {
      connection_id = connection;
      stream_name = stream;
      cursor = old;
      replaced_by = who;
      reason = reason;
      replaced_at = now;
    })
      ∷ []

-- CursorStore.replace: the tables and the audit trail after it, and the old cursor.
unfoldable pub replace :
    Env
    → String
    → String
    → String
    → String
    → String
    → ℕ
    → CursorTables
    → World
    → CursorTables × World × Option String
unfolding get_cursor keep_old
replace env connection stream new who reason now t w =
    let old = get_cursor connection stream t in
    (
      record {
        source_cursors =
            upsert_cursor
              (record {
                connection_id = connection;
                stream_name = stream;
                cursor = new;
                window_complete = true;
                committed_at = now;
              })
              t.source_cursors;
        history = keep_old connection stream who reason now old t.history;
      },
      Audit.append env now who "connection.cursor_confirmed" connection
          (("stream", text stream)
            ∷ ("reason", text reason)
            ∷ ("old_cursor", elim old [ none ↦ null | some c ↦ text c ])
            ∷ ("new_cursor", text new)
            ∷ [])
          w,
      old,
    )

-- CursorStore.reset; without a stream, every cursor of the connection goes.
unfoldable pub reset : String → Option String → CursorTables → CursorTables
unfolding keep
reset connection none t = record t {
  source_cursors =
      keep (λ (c : SourceCursor). not (c.connection_id == connection)) t.source_cursors;
}
reset connection (some stream) t = record t {
  source_cursors =
      keep (λ (c : SourceCursor). not (c.connection_id == connection && c.stream_name == stream))
        t.source_cursors;
}

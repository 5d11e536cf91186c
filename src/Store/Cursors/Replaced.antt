-- ===== src/Store/Cursors/Replaced.antt =====
-- What `replace` of engine/store/cursors.py keeps and what it changes.
use log_lookup_ai.Prelude.{
  ℕ, ◌≡◌, refl, String, true, ◌&&◌, some, List, [], ◌∷◌, ◌==◌, string_eq, text_refl, Bool-cases,
  inl, inr,
}
use log_lookup_ai.Response.Models.{World}
use log_lookup_ai.Response.Policy.{Env}
use log_lookup_ai.Store.Records.{SourceCursor}
use log_lookup_ai.Store.Ledger.{upsert_cursor}
use log_lookup_ai.Store.Cursors.{CursorTables, find_cursor, get_cursor, replace}

find-upsert :
    (new : SourceCursor) (rows : List SourceCursor)
    → find_cursor new.connection_id new.stream_name (upsert_cursor new rows) ≡ some new.cursor
unfolding find_cursor upsert_cursor
find-upsert new [] = rw (text_refl new.connection_id, text_refl new.stream_name) refl
find-upsert new (c ∷ rows) =
    elim (Bool-cases (c.connection_id == new.connection_id && c.stream_name == new.stream_name)) [
      | inl e ↦ rw (e, text_refl new.connection_id, text_refl new.stream_name) refl
      | inr e ↦ rw (e, e) (find-upsert new rows)
    ]

-- After `replace`, the stream has the new cursor, and the answer is the cursor that it had before.
pub replace-get :
    (env : Env) (connection stream new who reason : String) (now : ℕ) (t : CursorTables) (w : World)
    → (get_cursor connection stream (replace env connection stream new who reason now t w).0
        ≡ some new)
      × ((replace env connection stream new who reason now t w).2 ≡ get_cursor connection stream t)
unfolding replace get_cursor
replace-get env connection stream new who reason now t w = (
  find-upsert
      (record {
        connection_id = connection;
        stream_name = stream;
        cursor = new;
        window_complete = true;
        committed_at = now;
      })
      t.source_cursors,
  refl,
)

-- ===== src/Store/Investigations.antt =====
-- engine/store/investigations.py over its tables of engine/store/migrations.py. A risk score is the
-- text of its number; the hash of a summary and the snapshot that is stored of it are parameters.
pub mod Sync
pub mod Aliases
pub mod Syncing
use log_lookup_ai.Prelude.{
  ℕ, zero, suc, ◌+◌, String, Bool, true, false, ◌&&◌, ◌||◌, Option, none, some, List, [], ◌∷◌, ◌++◌,
  string_eq, nat_eq, ◌==◌, if◌then◌else◌, any, contains, length,
}
use log_lookup_ai.Prelude.Dict.{Dict, get, put}
use log_lookup_ai.Prelude.Table.{find, update}

-- A row of investigations.
pub record InvestigationRow : Type 0 where
  pub cluster_id : String
  pub scope_id : String
  pub anchor_uid : Option String
  pub label : String
  pub latest_revision : ℕ
  pub status : String
  pub risk_score : String
  pub surfaced : Bool
  pub merged_into : Option String
  pub owner : Option String
  pub created_at : ℕ
  pub updated_at : ℕ

-- A row of investigation_revisions.
pub record RevisionRow : Type 0 where
  pub cluster_id : String
  pub revision : ℕ
  pub content_hash : String
  pub summary_json : String
  pub created_at : ℕ

-- A row of cluster_aliases.
pub record AliasRow : Type 0 where
  pub old_cluster_id : String
  pub cluster_id : String
  pub created_at : ℕ

-- A row of investigation_events.
pub record EventLink : Type 0 where
  pub cluster_id : String
  pub canonical_event_id : String

-- A row of investigation_review_flags.
pub record ReviewFlag : Type 0 where
  pub flag_id : ℕ
  pub cluster_id : String
  pub canonical_event_id : String
  pub revision : ℕ
  pub reason : String
  pub details : String
  pub created_at : ℕ
  pub resolved_at : Option ℕ
  pub resolved_by : Option String

-- The tables.
pub record Book : Type 0 where
  pub investigations : List InvestigationRow
  pub revisions : List RevisionRow
  pub aliases : List AliasRow
  pub events : List EventLink
  pub flags : List ReviewFlag
  pub next_flag_id : ℕ

-- What sync reads of a summary: `event_ids` are those of its alerts that have one, `rest` is what else
-- the hash and the snapshot are made of.
pub record Summary : Type 0 where
  pub cluster_id : String
  pub primary_entity : String
  pub risk_score : String
  pub surfaced : Bool
  pub event_ids : List String
  pub rest : String

-- content_hash, and _revision_summary with its JSON; the snapshot names the previous revision with
-- its risk score, and the causes.
pub record Hashing : Type 0 where
  pub content_hash : Summary → String
  pub revision_summary : Summary → Option (ℕ × String) → String → String

abbrev pub by_id : InvestigationRow → String
by_id r = r.cluster_id

-- SELECT cluster_id FROM cluster_aliases WHERE old_cluster_id=?
unfoldable pub find_alias_row : String → List AliasRow → Option AliasRow
find_alias_row old [] = none
find_alias_row old (r ∷ rows) = if r.old_cluster_id == old then some r else find_alias_row old rows

-- The loop of resolve, on fuel: `none` where it runs out
unfoldable pub resolve_from : ℕ → List String → String → List AliasRow → Option String
unfolding contains find_alias_row
resolve_from zero seen current aliases = none
resolve_from (suc fuel) seen current aliases =
    if contains seen current then some current else elim (find_alias_row current aliases) [
      | none ↦ some current
      | some row ↦ resolve_from fuel (current ∷ seen) row.cluster_id aliases
    ]

-- resolve: a round that goes on meets an alias that was not seen before
unfoldable pub resolve_id : String → Book → Option String
unfolding resolve_from
resolve_id cid b = resolve_from (suc (length b.aliases)) [] cid b.aliases

-- flag_review
unfoldable pub flag_review : String → String → ℕ → String → String → ℕ → Book → Book
flag_review cid ceid revision reason details now b = record b {
  flags =
      b.flags
      ++ record {
        flag_id = b.next_flag_id;
        cluster_id = cid;
        canonical_event_id = ceid;
        revision = revision;
        reason = reason;
        details = details;
        created_at = now;
        resolved_at = none;
        resolved_by = none;
      }
        ∷ [];
  next_flag_id = b.next_flag_id + 1;
}

abbrev pub is_open_flag : ℕ → ReviewFlag → Bool
is_open_flag id f = f.flag_id == id && (elim f.resolved_at [ none ↦ true | some _ ↦ false ])

unfoldable pub close_flag : ℕ → String → ℕ → List ReviewFlag → List ReviewFlag
close_flag id user now [] = []
close_flag id user now (f ∷ flags) =
    (if is_open_flag id f then record f { resolved_at = some now; resolved_by = some user } else f)
    ∷ close_flag id user now flags

-- resolve_flag: whether a row was changed
unfoldable pub resolve_flag : ℕ → String → ℕ → Book → Book × Bool
unfolding close_flag any
resolve_flag id user now b =
    (record b { flags = close_flag id user now b.flags }, any (is_open_flag id) b.flags)

-- assign
unfoldable pub assign : String → Option String → ℕ → Book → Book
unfolding update
assign cid owner now b = record b {
  investigations =
      update by_id cid
        (λ (r : InvestigationRow). record r {
          owner = owner;
          status = if r.status == "new" then "investigating" else r.status;
          updated_at = now;
        })
        b.investigations;
}

-- set_status
unfoldable pub set_status : String → String → ℕ → Book → Book
unfolding update
set_status cid status now b = record b {
  investigations =
      update by_id cid (λ (r : InvestigationRow). record r { status = status; updated_at = now })
        b.investigations;
}

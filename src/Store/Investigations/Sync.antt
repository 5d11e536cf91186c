-- ===== src/Store/Investigations/Sync.antt =====
-- engine/store/investigations.py: sync. An error of the database (`none`) rolls the transaction back.
use log_lookup_ai.Prelude.{
  ℕ, zero, suc, ◌+◌, String, Bool, false, ◌&&◌, Option, none, some, List, [], ◌∷◌, ◌++◌, string_eq,
  nat_eq, ◌==◌, if◌then◌else◌, any,
}
use log_lookup_ai.Prelude.Dict.{Dict, put}
use log_lookup_ai.Prelude.Table.{find, update}
use log_lookup_ai.Store.Investigations.{
  AliasRow, Book, EventLink, Hashing, InvestigationRow, RevisionRow, Summary, by_id,
}

-- next((uid for uid, c in anchors.items() if c == cid), None)
unfoldable pub anchor_of : String → Dict String String → Option String
anchor_of cid [] = none
anchor_of cid ((uid, c) ∷ anchors) = if c == cid then some uid else anchor_of cid anchors

-- The unique index ux_investigations_anchor.
abbrev pub holds_anchor : String → String → InvestigationRow → Bool
holds_anchor scope uid r =
    r.scope_id == scope && (elim r.anchor_uid [ none ↦ false | some u ↦ u == uid ])

unfoldable pub anchor_taken : String → Option String → List InvestigationRow → Bool
unfolding any
anchor_taken scope none rows = false
anchor_taken scope (some uid) rows = any (holds_anchor scope uid) rows

-- The row that sync inserts.
abbrev pub new_row : String → Option String → ℕ → Summary → InvestigationRow
new_row scope anchor now s = record {
  cluster_id = s.cluster_id;
  scope_id = scope;
  anchor_uid = anchor;
  label = s.primary_entity;
  latest_revision = 0;
  status = "new";
  risk_score = s.risk_score;
  surfaced = s.surfaced;
  merged_into = none;
  owner = none;
  created_at = now;
  updated_at = now;
}

-- SELECT ... FROM investigation_revisions WHERE cluster_id=? AND revision=?
unfoldable pub find_revision : String → ℕ → List RevisionRow → Option RevisionRow
find_revision cid n [] = none
find_revision cid n (r ∷ rows) =
    if r.cluster_id == cid && r.revision == n then some r else find_revision cid n rows

-- last["content_hash"] == chash, where there is a last revision
unfoldable pub is_current : String → Option RevisionRow → Bool
is_current chash none = false
is_current chash (some r) = r.content_hash == chash

-- The stored revision, if there is one.
unfoldable pub last_revision : String → ℕ → List RevisionRow → Option RevisionRow
unfolding find_revision
last_revision cid zero rows = none
last_revision cid (suc n) rows = find_revision cid (suc n) rows

abbrev pub previous_of : InvestigationRow → Option (ℕ × String)
previous_of row =
    if row.latest_revision == 0 then none else some (row.latest_revision, row.risk_score)

-- The UPDATE of investigations for a new revision.
abbrev pub revised_row : ℕ → ℕ → Summary → InvestigationRow → InvestigationRow
revised_row n now s r = record r {
  latest_revision = n;
  risk_score = s.risk_score;
  surfaced = s.surfaced;
  updated_at = now;
}

abbrev pub revision_row : Hashing → Summary → String → ℕ → InvestigationRow → RevisionRow
revision_row h s causes now row = record {
  cluster_id = s.cluster_id;
  revision = row.latest_revision + 1;
  content_hash = h.content_hash s;
  summary_json = h.revision_summary s (previous_of row) causes;
  created_at = now;
}

-- The writes of a new revision, where the option is a row that has its number already; then the primary
-- key raises, which it does only if the tables disagree with each other.
unfoldable pub insert_revision_row :
    Hashing
    → Summary
    → String
    → ℕ
    → InvestigationRow
    → Option RevisionRow
    → Book
    → Option (Book × ℕ)
unfolding update
insert_revision_row h s causes now row (some _) b = none
insert_revision_row h s causes now row none b = some (
  record b {
    revisions = b.revisions ++ revision_row h s causes now row ∷ [];
    investigations =
        update by_id s.cluster_id (revised_row (row.latest_revision + 1) now s) b.investigations;
  },
  row.latest_revision + 1,
)

unfoldable pub add_revision :
    Hashing → Summary → String → ℕ → InvestigationRow → Book → Option (Book × ℕ)
unfolding find_revision insert_revision_row
add_revision h s causes now row b =
    insert_revision_row h s causes now row
      (find_revision s.cluster_id (row.latest_revision + 1) b.revisions) b

-- A summary whose row is there: a new revision, unless the last one has the same hash.
unfoldable pub sync_row :
    Hashing → Summary → String → ℕ → InvestigationRow → Book → Option (Book × ℕ)
unfolding is_current last_revision add_revision
sync_row h s causes now row b =
    if is_current (h.content_hash s) (last_revision s.cluster_id row.latest_revision b.revisions)
    then some (b, row.latest_revision)
    else add_revision h s causes now row b

-- INSERT OR IGNORE INTO investigation_events
abbrev pub same_link : String → String → EventLink → Bool
same_link cid ceid l = l.cluster_id == cid && l.canonical_event_id == ceid

unfoldable pub link_events : String → List String → List EventLink → List EventLink
unfolding any
link_events cid [] links = links
link_events cid (ceid ∷ ids) links = link_events cid ids (
    if any (same_link cid ceid) links
    then links
    else links ++ record { cluster_id = cid; canonical_event_id = ceid } ∷ [])

unfoldable pub linked : Summary → Option (Book × ℕ) → Option (Book × ℕ)
unfolding link_events
linked s none = none
linked s (some (b, n)) =
    some (record b { events = link_events s.cluster_id s.event_ids b.events }, n)

-- One round of the loop over the summaries, where the option is the row of the chain.
unfoldable pub sync_found :
    Hashing
    → String
    → Dict String String
    → ℕ
    → Summary
    → String
    → Option InvestigationRow
    → Book
    → Option (Book × ℕ)
unfolding sync_row linked anchor_taken anchor_of
sync_found h scope anchors now s causes (some row) b = linked s (sync_row h s causes now row b)
sync_found h scope anchors now s causes none b =
    let row = new_row scope (anchor_of s.cluster_id anchors) now s in
    let inserted =
      linked s (
        sync_row h s causes now row (record b { investigations = b.investigations ++ row ∷ [] })) in
    if anchor_taken scope (anchor_of s.cluster_id anchors) b.investigations then none else inserted

unfoldable pub sync_one :
    Hashing → String → Dict String String → ℕ → String → Summary → Book → Option (Book × ℕ)
unfolding find sync_found
sync_one h scope anchors now causes s b =
    sync_found h scope anchors now s causes (find by_id s.cluster_id b.investigations) b

-- The loop over the summaries; `causes` has the causes of a chain as a text.
unfoldable pub sync_all :
    Hashing
    → String
    → Dict String String
    → ℕ
    → (String → String)
    → List Summary
    → Book
    → Dict String ℕ
    → Option (Book × Dict String ℕ)
unfolding sync_one put
sync_all h scope anchors now causes [] b revisions = some (b, revisions)
sync_all h scope anchors now causes (s ∷ summaries) b revisions =
    elim (sync_one h scope anchors now (causes s.cluster_id) s b) [
      | none ↦ none
      | some x ↦ sync_all h scope anchors now causes summaries x.0 (put s.cluster_id x.1 revisions)
    ]

abbrev pub merged_row : String → InvestigationRow → InvestigationRow
merged_row new r = record r { merged_into = some new }

abbrev pub is_alias_of : String → AliasRow → Bool
is_alias_of old r = r.old_cluster_id == old

-- The loop over the merges.
unfoldable pub record_merges : ℕ → Dict String String → Book → Book
unfolding any update
record_merges now [] b = b
record_merges now ((old, new) ∷ merged) b = record_merges now merged (record b {
  aliases =
      if any (is_alias_of old) b.aliases
      then b.aliases
      else b.aliases ++ record { old_cluster_id = old; cluster_id = new; created_at = now } ∷ [];
  investigations = update by_id old (merged_row new) b.investigations;
})

-- sync: the tables after it, and the revisions of the chains if nothing was raised
unfoldable pub sync :
    Hashing
    → String
    → Dict String String
    → ℕ
    → (String → String)
    → List Summary
    → Dict String String
    → Book
    → Book × Option (Dict String ℕ)
unfolding sync_all record_merges
sync h scope anchors now causes summaries merged b =
    elim (sync_all h scope anchors now causes summaries b []) [
      | none ↦ (b, none)
      | some x ↦ (record_merges now merged x.0, some x.1)
    ]

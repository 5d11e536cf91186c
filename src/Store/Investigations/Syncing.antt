-- ===== src/Store/Investigations/Syncing.antt =====
-- A chain that is synced again with the same summary gets no new revision.
use log_lookup_ai.Prelude.{
  ℕ, suc, ◌+◌, String, Bool, true, ◌&&◌, ◌||◌, ◌≡◌, refl, ap, ◌∙◌, subst, inl, inr, Option, none,
  some, List, [], ◌∷◌, ◌++◌, string_eq, nat_eq, ◌==◌, nat_beq_iff, text_iff, text_refl,
  if◌then◌else◌, any, Bool-cases, arith,
}
use log_lookup_ai.Prelude.Dict.{Dict}
use log_lookup_ai.Prelude.Table.{find, find-update_self, find-append}
use log_lookup_ai.Store.Investigations.{
  InvestigationRow, RevisionRow, EventLink, Book, Summary, Hashing, by_id,
}
use log_lookup_ai.Store.Investigations.Sync.{
  anchor_of, anchor_taken, new_row, find_revision, is_current, last_revision, revised_row,
  revision_row, add_revision, sync_row, same_link, link_events, linked, sync_found, sync_one,
  insert_revision_row,
}

any-append :
    {A : Type 0} (test : A → Bool) (xs : List A) (y : A)
    → any test (xs ++ y ∷ []) ≡ (any test xs || test y)
unfolding any
any-append test [] y = ground arith
any-append test (x ∷ xs) y = ground (arith, any-append test xs y)

-- A link stays.
link_events-stays :
    (cid ceid : String) (ids : List String) (links : List EventLink)
    → any (same_link cid ceid) links ≡ true
    → any (same_link cid ceid) (link_events cid ids links) ≡ true
unfolding link_events
link_events-stays cid ceid [] links h = h
link_events-stays cid ceid (id ∷ ids) links h = elim (Bool-cases (any (same_link cid id) links)) [
  | inl p ↦ rw (p) (link_events-stays cid ceid ids links h)
  | inr p ↦
      rw (p)
        (link_events-stays cid ceid ids _ (any-append (same_link cid ceid) links _ ∙ rw (h) refl))
]

-- All the links of the events are there.
AllLinked : String → List String → List EventLink → Type 0
AllLinked cid [] links = Unit
AllLinked cid (id ∷ ids) links = (any (same_link cid id) links ≡ true) × AllLinked cid ids links

link_events-AllLinked :
    (cid : String) (ids : List String) (links : List EventLink)
    → AllLinked cid ids (link_events cid ids links)
unfolding link_events AllLinked
link_events-AllLinked cid [] links = tt
link_events-AllLinked cid (id ∷ ids) links = elim (Bool-cases (any (same_link cid id) links)) [
  | inl p ↦ rw (p) (link_events-stays cid id ids links p, link_events-AllLinked cid ids links)
  | inr p ↦ rw (p) (
    link_events-stays cid id ids _
        (any-append (same_link cid id) links _ ∙ rw (p, text_refl cid, text_refl id) refl),
    link_events-AllLinked cid ids _,
  )
]

AllLinked-link_events :
    (cid : String) (ids : List String) (links : List EventLink)
    → AllLinked cid ids links
    → link_events cid ids links ≡ links
unfolding link_events AllLinked
AllLinked-link_events cid [] links h = refl
AllLinked-link_events cid (id ∷ ids) links (p, h) = rw (p) (AllLinked-link_events cid ids links h)

find_revision-append :
    (cid : String) (n : ℕ) (row : RevisionRow) (rows : List RevisionRow)
    → row.cluster_id ≡ cid
    → row.revision ≡ n
    → find_revision cid n rows ≡ none
    → find_revision cid n (rows ++ row ∷ []) ≡ some row
unfolding find_revision
find_revision-append cid n row [] p q h =
    rw ((text_iff row.cluster_id cid).1 p, (nat_beq_iff row.revision n).1 q) refl
find_revision-append cid n row (r ∷ rows) p q h =
    elim (Bool-cases (r.cluster_id == cid && r.revision == n)) [
      | inl e ↦
          (let f : some r ≡ none =
              subst (λ b. (if b then some r else find_revision cid n rows) ≡ none) e h in
            cc)
      | inr e ↦ rw (e) (
          find_revision-append cid n row rows p q
            (subst (λ b. (if b then some r else find_revision cid n rows) ≡ none) e h))
    ]

succ : (n : ℕ) → n + 1 ≡ suc n
succ n = omega arith

last_revision-step :
    (cid : String) (n : ℕ) (rows : List RevisionRow)
    → last_revision cid (n + 1) rows ≡ find_revision cid (n + 1) rows
unfolding last_revision
last_revision-step cid n rows = rw (succ n) refl

-- The tables have the summary as the revision `n` of its chain.
record Synced (h : Hashing) (s : Summary) (n : ℕ) (b : Book) : Type 0 where
  row : InvestigationRow
  found : find by_id s.cluster_id b.investigations ≡ some row
  latest : row.latest_revision ≡ n
  current : is_current (h.content_hash s) (last_revision s.cluster_id n b.revisions) ≡ true
  links : AllLinked s.cluster_id s.event_ids b.events

-- The answer of a sync.
SyncedTo : Hashing → Summary → Option (Book × ℕ) → Type 0
SyncedTo h s none = Unit
SyncedTo h s (some (b, n)) = Synced h s n b

-- The answer of the step for the revision, before the links.
Revised : Hashing → Summary → Option (Book × ℕ) → Type 0
Revised h s none = Unit
Revised h s (some (b, n)) =
    (row : InvestigationRow) × ((find by_id s.cluster_id b.investigations ≡ some row)
      × ((row.latest_revision ≡ n)
          × (is_current (h.content_hash s) (last_revision s.cluster_id n b.revisions) ≡ true)))

insert_revision_row-Revised :
    (h : Hashing) (s : Summary) (causes : String) (now : ℕ) (row : InvestigationRow)
    (o : Option RevisionRow) (b : Book)
    → find by_id s.cluster_id b.investigations ≡ some row
    → find_revision s.cluster_id (row.latest_revision + 1) b.revisions ≡ o
    → Revised h s (insert_revision_row h s causes now row o b)
unfolding insert_revision_row Revised is_current last_revision
insert_revision_row-Revised h s causes now row (some x) b at free = tt
insert_revision_row-Revised h s causes now row none b at free = (
  revised_row (row.latest_revision + 1) now s row,
  (
    find-update_self by_id s.cluster_id (revised_row (row.latest_revision + 1) now s)
          b.investigations (λ r. refl)
        ∙ rw (at) refl,
    (
      refl,
      ap (is_current (h.content_hash s)) (
            last_revision-step s.cluster_id row.latest_revision _
            ∙ find_revision-append s.cluster_id (row.latest_revision + 1)
                (revision_row h s causes now row) b.revisions refl refl free)
          ∙ text_refl (h.content_hash s),
    ),
  ),
)

sync_row-Revised :
    (h : Hashing) (s : Summary) (causes : String) (now : ℕ) (row : InvestigationRow) (b : Book)
    → find by_id s.cluster_id b.investigations ≡ some row
    → Revised h s (sync_row h s causes now row b)
unfolding sync_row add_revision Revised
sync_row-Revised h s causes now row b at =
    elim (Bool-cases (
      is_current (h.content_hash s) (last_revision s.cluster_id row.latest_revision b.revisions))) [
        | inl p ↦ rw (p) (row, (at, (refl, p)))
        | inr p ↦ rw (p) (insert_revision_row-Revised h s causes now row _ b at refl)
      ]

linked-SyncedTo :
    (h : Hashing) (s : Summary) (o : Option (Book × ℕ)) → Revised h s o → SyncedTo h s (linked s o)
unfolding Revised SyncedTo linked
linked-SyncedTo h s none r = tt
linked-SyncedTo h s (some (b, n)) (row, (found, (latest, current))) = record {
  row = row;
  found = found;
  latest = latest;
  current = current;
  links = link_events-AllLinked s.cluster_id s.event_ids b.events;
}

sync_found-SyncedTo :
    (h : Hashing) (scope : String) (anchors : Dict String String) (now : ℕ) (s : Summary)
    (causes : String) (o : Option InvestigationRow) (b : Book)
    → find by_id s.cluster_id b.investigations ≡ o
    → SyncedTo h s (sync_found h scope anchors now s causes o b)
unfolding sync_found SyncedTo
sync_found-SyncedTo h scope anchors now s causes (some row) b at =
    linked-SyncedTo h s _ (sync_row-Revised h s causes now row b at)
sync_found-SyncedTo h scope anchors now s causes none b at =
    elim (Bool-cases (anchor_taken scope (anchor_of s.cluster_id anchors) b.investigations)) [
      | inl p ↦ rw (p) tt
      | inr p ↦
          let row = new_row scope (anchor_of s.cluster_id anchors) now s in
          rw (p) (
            linked-SyncedTo h s _ (
              sync_row-Revised h s causes now row
                (record b { investigations = b.investigations ++ row ∷ [] })
                (find-append by_id s.cluster_id b.investigations row
                  ∙ rw (at, text_refl s.cluster_id) refl)))
    ]

-- What is synced is synced again without a change.
Synced-again :
    (h : Hashing) (scope : String) (anchors : Dict String String) (now : ℕ) (causes : String)
    (s : Summary) (n : ℕ) (b : Book)
    → Synced h s n b
    → sync_one h scope anchors now causes s b ≡ some (b, n)
unfolding sync_one sync_found sync_row linked
Synced-again h scope anchors now causes s n b x =
    rw
      (
        x.found,
        x.latest,
        x.current,
        AllLinked-link_events s.cluster_id s.event_ids b.events x.links,
      )
      refl

-- After a chain was synced, syncing it again with a summary that is the same, whenever and with whatever
-- anchors and causes, answers with the same revision and changes nothing.
pub sync_one-again :
    (h : Hashing) (scope scope' : String) (anchors anchors' : Dict String String) (now now' : ℕ)
    (causes causes' : String) (s : Summary) (b b' : Book) (n : ℕ)
    → sync_one h scope anchors now causes s b ≡ some (b', n)
    → sync_one h scope' anchors' now' causes' s b' ≡ some (b', n)
unfolding sync_one SyncedTo
sync_one-again h scope scope' anchors anchors' now now' causes causes' s b b' n e =
    Synced-again h scope' anchors' now' causes' s n b' (
      subst (SyncedTo h s) e (
        sync_found-SyncedTo h scope anchors now s causes (find by_id s.cluster_id b.investigations)
          b refl))

-- ===== src/Response/Matching/Searching.antt =====
-- The runs that the search of engine/response/run_status.py finds in the pages of Azure's list.
use log_lookup_ai.Prelude.{
  ℕ, zero, suc, ◌≡◌, refl, sym, ◌∙◌, subst, ◌⊎◌, inl, inr, String, Bool, true, false, none, some,
  List, [], ◌∷◌, ◌++◌, ◌==◌, string_eq, if◌then◌else◌, keep, All, Bool-cases, text_iff, ap,
  Option-cases, keep-append,
}
use mathlib.Core.List.{append-nil, append_assoc}
use log_lookup_ai.Response.RunStatus.{
  Run, Page, failed, page, Azure, max_list_pages, is_tracked, collect, find_by_tracking_id,
}

abbrev pub HasId : String → Run → Type 0
HasId id run = run.tracking_id ≡ some id

-- The runs of the pages from the i-th on, of which at most `left` are read: each page but the last of them
-- has a link to the next.
pub data Pages (pages : ℕ → Page) : ℕ → ℕ → List Run → Type 0 where
  none_left : (i : ℕ) → Pages pages zero i []
  last : (left i : ℕ) (runs : List Run) → pages i ≡ page runs none → Pages pages (suc left) i runs
  linked :
      (left i : ℕ) (runs rest : List Run)
      → pages i ≡ page runs (some true)
      → Pages pages left (suc i) rest
      → Pages pages (suc left) i (runs ++ rest)

-- The list has one run with the tracking id: the others, before and after it, have none or another.
pub data OnlyRun (id : String) (run : Run) : List Run → Type 0 where
  only :
      (before after : List Run)
      → All (λ (r : Run). ¬ HasId id r) before
      → HasId id run
      → All (λ (r : Run). ¬ HasId id r) after
      → OnlyRun id run (before ++ run ∷ after)

is_tracked-HasId : (id : String) (r : Run) → is_tracked id r ≡ true → HasId id r
is_tracked-HasId id r h = elim (Option-cases r.tracking_id) [
  | inl p ↦ let q : false ≡ true = sym (rw p refl) ∙ h in cc
  | inr (seen, p) ↦
      let q : (seen == id) ≡ true = sym (rw p refl) ∙ h in p ∙ ap some ((text_iff seen id).0 q)
]

untracked : (id : String) (r : Run) → is_tracked id r ≡ false → ¬ HasId id r
untracked id r h p =
    let q : (id == id) ≡ false = sym (rw p refl) ∙ h in
    let t : (id == id) ≡ true = (text_iff id id).1 refl in cc

keep-none :
    (id : String) (runs : List Run)
    → keep (is_tracked id) runs ≡ []
    → All (λ (r : Run). ¬ HasId id r) runs
unfolding keep
keep-none id [] h = tt
keep-none id (r ∷ runs) h = elim (Bool-cases (is_tracked id r)) [
  | inl p ↦ let q : r ∷ keep (is_tracked id) runs ≡ [] = sym (rw p refl) ∙ h in cc
  | inr p ↦ (untracked id r p, keep-none id runs (sym (rw p refl) ∙ h))
]

pub keep-one :
    (id : String) (run : Run) (runs : List Run)
    → keep (is_tracked id) runs ≡ run ∷ []
    → OnlyRun id run runs
unfolding keep
keep-one id run [] h = cc
keep-one id run (r ∷ runs) h = elim (Bool-cases (is_tracked id r)) [
  | inl p ↦
      let q : r ∷ keep (is_tracked id) runs ≡ run ∷ [] = sym (rw p refl) ∙ h in
      let same : r ≡ run = cc in
      let none_after : keep (is_tracked id) runs ≡ [] = cc in
      subst (λ x. OnlyRun id run (x ∷ runs)) (sym same)
        (only [] runs tt (subst (HasId id) same (is_tracked-HasId id r p))
          (keep-none id runs none_after))
  | inr p ↦ further r runs (untracked id r p) (keep-one id run runs (sym (rw p refl) ∙ h))
]
  where
    further : (x : Run) (xs : List Run) → ¬ HasId id x → OnlyRun id run xs → OnlyRun id run (x ∷ xs)
    further x xs n (only before after b h a) = only (x ∷ before) after (n, b) h a

-- What a search establishes: the runs that it finds are those of the pages that are kept.
abbrev Finds : (ℕ → Page) → ℕ → ℕ → String → List Run → String ⊎ List Run → Type 0
Finds pages left i id found (inl code) = Unit
Finds pages left i id found (inr runs) =
    (all : List Run) × Pages pages left i all × (runs ≡ found ++ keep (is_tracked id) all)

collect-Finds :
    (pages : ℕ → Page) (left i : ℕ) (id : String) (found : List Run)
    → Finds pages left i id found (collect pages left i id found)
unfolding collect keep
collect-Finds pages zero i id found = ([], none_left i, sym (append-nil found))
collect-Finds pages (suc left) i id found =
    by_page (pages i) refl
      λ runs. collect-Finds pages left (suc i) id (found ++ keep (is_tracked id) runs)
  where
    onwards :
        (runs : List Run) (o : String ⊎ List Run)
        → pages i ≡ page runs (some true)
        → Finds pages left (suc i) id (found ++ keep (is_tracked id) runs) o
        → Finds pages (suc left) i id found o
    onwards runs (inl code) at h = tt
    onwards runs (inr rs) at (rest, read, same) = (
      runs ++ rest,
      linked left i runs rest at read,
      same
          ∙ append_assoc found (keep (is_tracked id) runs) (keep (is_tracked id) rest)
          ∙ ap (λ (xs : List Run). found ++ xs) (sym (keep-append (is_tracked id) runs rest)),
    )

    by_page :
        (p : Page)
        → pages i ≡ p
        → ((runs : List Run)
            → Finds pages left
                (suc i)
                id
                (found ++ keep (is_tracked id) runs)
                (collect pages left (suc i) id (found ++ keep (is_tracked id) runs)))
        → Finds pages (suc left) i id found (elim p [
          | failed code ↦ inl code
          | page runs next ↦ elim next [
            | none ↦ inr (found ++ keep (is_tracked id) runs)
            | some false ↦ inl "bad_next_link"
            | some true ↦ collect pages left (suc i) id (found ++ keep (is_tracked id) runs)
          ]
        ])
    by_page (failed code) at go = tt
    by_page (page runs none) at go = (runs, last left i runs at, refl)
    by_page (page runs (some false)) at go = tt
    by_page (page runs (some true)) at go =
        onwards runs (collect pages left (suc i) id (found ++ keep (is_tracked id) runs)) at
          (go runs)

-- What _find_by_tracking_id answers: the runs with the tracking id in the pages of the filtered list or of
-- the whole list.
abbrev pub Searched : Azure → String → String ⊎ List Run → Type 0
Searched az id (inl code) = Unit
Searched az id (inr runs) =
    (filtered : Bool) × (all : List Run) × Pages (az.list_runs filtered) max_list_pages 0 all
    × (runs ≡ keep (is_tracked id) all)

pub find-Searched : (az : Azure) (id : String) → Searched az id (find_by_tracking_id az id)
unfolding find_by_tracking_id
find-Searched az id =
    by_answer (collect (az.list_runs true) max_list_pages 0 id [])
      (collect-Finds (az.list_runs true) max_list_pages 0 id [])
  where
    searched :
        (filtered : Bool) (o : String ⊎ List Run)
        → Finds (az.list_runs filtered) max_list_pages 0 id [] o
        → Searched az id o
    searched filtered (inl code) h = tt
    searched filtered (inr runs) (all, read, same) = (filtered, all, read, same)

    by_answer :
        (o : String ⊎ List Run)
        → Finds (az.list_runs true) max_list_pages 0 id [] o
        → Searched az id (elim o [
          | inr runs ↦ inr runs
          | inl code ↦
              if code == "http_400"
              then collect (az.list_runs false) max_list_pages 0 id []
              else inl code
        ])
    by_answer (inr runs) h = searched true (inr runs) h
    by_answer (inl code) h = elim (Bool-cases (code == "http_400")) [
      | inl e ↦ rw e (
          searched false (collect (az.list_runs false) max_list_pages 0 id [])
            (collect-Finds (az.list_runs false) max_list_pages 0 id []))
      | inr e ↦ rw e tt
    ]

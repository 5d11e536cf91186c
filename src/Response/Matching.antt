-- ===== src/Response/Matching.antt =====
-- Which workflow run engine/response/run_status.py reports for an action.
pub mod Searching
use log_lookup_ai.Prelude.{
  ℕ, zero, suc, ◌≡◌, refl, sym, ◌∙◌, subst, ◌⊎◌, inl, inr, String, Bool, true, false, not, ◌&&◌,
  Option, none, some, List, [], ◌∷◌, ◌++◌, arith, ◌==◌, string_eq, if◌then◌else◌, keep, All,
  Bool-cases, text_iff, ap, Option-cases, keep-append,
}
use mathlib.Core.List.{append-nil, append_assoc}
use log_lookup_ai.Response.Models.{RunLookup}
use log_lookup_ai.Response.Policy.{Env}
use log_lookup_ai.Response.RunStatus.{
  Run, Page, failed, page, Azure, max_list_pages, is_tracked, collect, find_by_tracking_id,
  describe, missing, choose, lookup_tracked, judge, lookup,
}
use log_lookup_ai.Response.Matching.Searching.{
  HasId, Pages, OnlyRun, only, Searched, keep-one, find-Searched,
}

module _ (env : Env) where
  -- What a lookup says of a run: its own name, status and times, and how it was found.
  pub record Describes (run : Run) (how : String) (l : RunLookup) : Type 0 where
    pub found : l.found ≡ true
    pub run_name : l.run_name ≡ run.name
    pub status : l.status ≡ run.status
    pub matched_by : l.matched_by ≡ some how
    pub start_time : l.start_time ≡ run.start_time
    pub end_time : l.end_time ≡ run.end_time
    pub candidates : l.candidates ≡ 1

  describe-Describes : (run : Run) (how : String) → Describes run how (describe env run how)
  unfolding describe
  describe-Describes run how = record {
    found = refl;
    run_name = refl;
    status = refl;
    matched_by = refl;
    start_time = refl;
    end_time = refl;
    candidates = refl;
  }

  -- A run that may be reported for an action: the only run with its tracking id in the pages of a list, or
  -- the run that the stored run id names, if that run has no tracking id or the action's.
  pub data Matches (az : Azure) (id : String) (run_id : Option String) (l : RunLookup)
      : Type 0 where
    tracked :
        (run : Run) (filtered : Bool) (all : List Run)
        → Pages (az.list_runs filtered) 5 0 all
        → OnlyRun id run all
        → Describes run "client_tracking_id" l
        → Matches az id run_id l
    named :
        (name : String) (run : Run)
        → run_id ≡ some name
        → az.get_run name ≡ inr run
        → ((seen : String) → run.tracking_id ≡ some seen → (seen ≡ "") ⊎ (seen ≡ id))
        → Describes run "run_id" l
        → Matches az id run_id l

  missing_unfound : (why : String) (n : ℕ) (l : RunLookup) → missing why n ≡ l → l.found ≡ true → ⊥
  missing_unfound why n l e h = cc

  choose_one :
      (az : Azure) (id : String) (run_id : Option String) (runs : List Run) (l : RunLookup)
      → Searched az id (inr runs)
      → choose env runs ≡ l
      → l.found ≡ true
      → Matches az id run_id l
  unfolding choose
  choose_one az id run_id [] l h e f = absurd (missing_unfound _ _ l e f)
  choose_one az id run_id (run ∷ []) l (filtered, all, read, same) e f =
      tracked run filtered all read (keep-one id run all (sym same))
        (subst (Describes run "client_tracking_id") e (describe-Describes run "client_tracking_id"))
  choose_one az id run_id (a ∷ b ∷ rest) l h e f = absurd (missing_unfound _ _ l e f)

  tracked_match :
      (az : Azure) (id : String) (run_id : Option String) (l : RunLookup)
      → lookup_tracked env az id ≡ inr l
      → l.found ≡ true
      → Matches az id run_id l
  unfolding lookup_tracked
  tracked_match az id run_id l e f = by_search (find_by_tracking_id az id) (find-Searched az id) e
    where
      by_search :
          (o : String ⊎ List Run)
          → Searched az id o
          → elim o [ inl code ↦ inl code | inr runs ↦ inr (choose env runs) ] ≡ inr l
          → Matches az id run_id l
      by_search (inl code) h e = cc
      by_search (inr runs) h e = choose_one az id run_id runs l h (cc) f

  judged_match :
      (az : Azure) (id name : String) (run : Run) (l : RunLookup)
      → az.get_run name ≡ inr run
      → judge env id run ≡ l
      → l.found ≡ true
      → Matches az id (some name) l
  unfolding judge
  judged_match az id name run l at e f = by_seen run.tracking_id refl e
    where
      by_seen :
          (o : Option String)
          → run.tracking_id ≡ o
          → elim o [
            | none ↦ describe env run "run_id"
            | some seen ↦
                if not (seen == "") && not (seen == id)
                then missing "id_mismatch" 1
                else describe env run "run_id"
          ]
            ≡ l
          → Matches az id (some name) l
      by_seen none t e =
          named name run refl at (λ seen t'. cc)
            (subst (Describes run "run_id") e (describe-Describes run "run_id"))
      by_seen (some seen) t e = elim (Bool-cases (not (seen == "") && not (seen == id))) [
        | inl b ↦ absurd (missing_unfound "id_mismatch" 1 l (sym (rw b refl) ∙ e) f)
        | inr b ↦
            named name run refl at
              (λ other t'.
                let p : seen ≡ other = cc in
                subst (λ s. (s ≡ "") ⊎ (s ≡ id)) p
                  (ground (arith, text_iff seen "", text_iff seen id)))
              (subst (Describes run "run_id") (sym (rw b refl) ∙ e)
                (describe-Describes run "run_id"))
      ]

  named_match :
      (az : Azure) (id name : String) (o : String ⊎ Run) (l : RunLookup)
      → az.get_run name ≡ o
      → elim o [
        | inr r ↦ inr (judge env id r)
        | inl code ↦ if code == "not_found" then lookup_tracked env az id else inl code
      ]
        ≡ inr l
      → l.found ≡ true
      → Matches az id (some name) l
  named_match az id name (inr r) l at e f = judged_match az id name r l at (cc) f
  named_match az id name (inl code) l at e f = elim (Bool-cases (code == "not_found")) [
    | inl b ↦ tracked_match az id (some name) l (sym (rw b refl) ∙ e) f
    | inr b ↦ let q : inl code ≡ inr l = sym (rw b refl) ∙ e in cc
  ]

  -- Where `lookup` reports a run for an action, it is the only run with the action's tracking id in the
  -- pages of the filtered or the whole list, of which five at most are read, or it is the run that the
  -- stored run id names and its tracking id is empty or the action's; and the answer has the name, the
  -- status and the times of that run.
  pub lookup-Matches :
      (az : Azure) (id : String) (run_id : Option String) (l : RunLookup)
      → lookup env az id run_id ≡ inr l
      → l.found ≡ true
      → Matches az id run_id l
  unfolding lookup
  lookup-Matches az id run_id l e f = elim (Bool-cases (az.is_uuid id)) [
    | inr b ↦
        let q : Path (String ⊎ RunLookup) (inl "not_configured") (inr l) = sym (rw b refl) ∙ e in cc
    | inl b ↦ by_id run_id (sym (rw b refl) ∙ e)
  ]
    where
      by_id :
          (o : Option String)
          → elim o [
            | none ↦ lookup_tracked env az id
            | some run ↦
                if run == ""
                then lookup_tracked env az id
                else if not (az.is_run_name run)
                then inr (missing "id_mismatch" 0)
                else elim (az.get_run run) [
                  | inr r ↦ inr (judge env id r)
                  | inl code ↦ if code == "not_found" then lookup_tracked env az id else inl code
                ]
          ]
            ≡ inr l
          → Matches az id o l
      by_id none q = tracked_match az id none l q f
      by_id (some run) q = elim (Bool-cases (run == "")) [
        | inl b ↦ tracked_match az id (some run) l (sym (rw b refl) ∙ q) f
        | inr b ↦ elim (Bool-cases (az.is_run_name run)) [
          | inl c ↦ named_match az id run (az.get_run run) l refl (sym (rw (b, c) refl) ∙ q) f
          | inr c ↦
              let m : inr (missing "id_mismatch" 0) ≡ inr l = sym (rw (b, c) refl) ∙ q in
              absurd (missing_unfound "id_mismatch" 0 l (cc) f)
        ]
      ]

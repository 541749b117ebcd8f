-- ===== src/Evals/Resume.antt =====
-- A delivery of an eval run, the first or a later one, of apps/api/src/jobs/eval-run.ts.
use mathlib.Core.List.{append_assoc, append-nil}
use ticket_manager_system.Common.{
  ℕ, String, ◌≡◌, refl, sym, ap, ◌∙◌, Bool, true, false, not, ◌||◌, none, some, List, [], ◌∷◌, ◌++◌,
  arith, All, ◌==◌, str_eq, any, filter, filter-append, map, Bool-cases, ==_refl, inl, inr,
}
use ticket_manager_system.Desk.Table.{written, fits_some, find-update_self}
use ticket_manager_system.AutoReply.Worker.{Exit, done, retry}
use ticket_manager_system.Evals.{EvalCase, CaseOutcome}
use ticket_manager_system.Evals.Runs.{
  EvalRun, RunStatus, CaseResult, EvalDesk, run_of, results_for, totals_of, is_unfinished,
  is_answered_in, case_result, add_case_result, publish_run, answer_cases, close_run, after_cases,
  known_cases, handle_run,
}

-- No two cases share an id.
abbrev pub Distinct : List EvalCase → Type 0
Distinct [] = Unit
Distinct (c ∷ cs) = All (λ x. str_eq c.id x.id ≡ false) cs × Distinct cs

-- The cases of a run that have no row yet.
abbrev pub left_in : List CaseResult → List EvalCase → List EvalCase
left_in answered cs = filter (λ c. not (is_answered_in answered c)) cs

any-append {ℓ} :
    {A : Type ℓ} → (p : A → Bool) (xs ys : List A) → any p (xs ++ ys) ≡ (any p xs || any p ys)
any-append p [] ys = refl
any-append p (x ∷ xs) ys = ground (arith, any-append p xs ys)

-- Nobody else writes the rows of the run: the worker takes one run at a time.
pub record IsQuiet (run : ℕ) (meanwhile : EvalDesk → EvalDesk) : Type 0 where
  pub same_results : (d : EvalDesk) → results_for run (meanwhile d) ≡ results_for run d
  pub same_run : (d : EvalDesk) → run_of run (meanwhile d) ≡ run_of run d

module _ (measure : EvalCase → ℕ → CaseOutcome) (meanwhile : EvalDesk → EvalDesk) (run repeats : ℕ)
    (quiet : IsQuiet run meanwhile) (answered : List CaseResult) where
  abbrev result_of_case : EvalCase → CaseResult
  result_of_case c = case_result run c (measure c repeats)

  results_for-add :
      (c : EvalCase) (d : EvalDesk)
      → results_for run (add_case_result (result_of_case c) d)
        ≡ results_for run d ++ result_of_case c ∷ []
  results_for-add c d =
      filter-append (λ (x : CaseResult). x.run_id == run) d.results (result_of_case c ∷ [])
      ∙ rw (==_refl run) refl

  still_fresh :
      (c : EvalCase) (cs : List EvalCase) (new : List CaseResult)
      → All (λ x. is_answered_in new x ≡ false) cs
      → All (λ x. str_eq c.id x.id ≡ false) cs
      → All (λ x. is_answered_in (new ++ result_of_case c ∷ []) x ≡ false) cs
  still_fresh c [] new h k = tt
  still_fresh c (x ∷ cs) new h k = (
    ground (
      arith,
      any-append (λ (y : CaseResult). str_eq y.case_id x.id) new (result_of_case c ∷ []),
      h.0,
      k.0,
    ),
    still_fresh c cs new h.1 k.1,
  )

  answer_cases-rows :
      (cs : List EvalCase) (new : List CaseResult) (d : EvalDesk)
      → Distinct cs
      → results_for run d ≡ answered ++ new
      → All (λ c. is_answered_in new c ≡ false) cs
      → ((answer_cases measure meanwhile run repeats answered cs d).1 ≡ done)
        × (results_for run (answer_cases measure meanwhile run repeats answered cs d).0
            ≡ (answered ++ new) ++ map result_of_case (left_in answered cs))
        × (run_of run (answer_cases measure meanwhile run repeats answered cs d).0 ≡ run_of run d)
  unfolding answer_cases
  answer_cases-rows [] new d u rows fresh = (refl, rows ∙ sym (append-nil (answered ++ new)), refl)
  answer_cases-rows (c ∷ cs) new d u rows fresh = elim (Bool-cases (is_answered_in answered c)) [
    | inl old ↦ rw (old, answer_cases) (answer_cases-rows cs new d u.1 rows fresh.1)
    | inr left ↦
        let rows' : results_for run (meanwhile d) ≡ answered ++ new = quiet.same_results d ∙ rows in
        let missing : is_answered_in (results_for run (meanwhile d)) c ≡ false =
          ap (λ xs. is_answered_in xs c) rows'
          ∙ any-append (λ (y : CaseResult). str_eq y.case_id c.id) answered new
          ∙ ground (arith, left, fresh.0) in
        let d2 = publish_run run (add_case_result (result_of_case c) (meanwhile d)) in
        let next =
          answer_cases-rows cs (new ++ result_of_case c ∷ []) d2 u.1
            (results_for-add c (meanwhile d)
              ∙ ap (λ xs. xs ++ result_of_case c ∷ []) rows'
              ∙ append_assoc answered new (result_of_case c ∷ []))
            (still_fresh c cs new fresh.1 u.0) in
        rw (left, answer_cases, missing)
          (next.0, next.1 ∙ simp (append_assoc), next.2 ∙ quiet.same_run d)
  ]

abbrev pub completed_row : ℕ → List CaseResult → EvalRun → EvalRun
completed_row now rows r = record r {
  status = RunStatus.completed;
  finished_at = some now;
  totals = totals_of rows;
}

close_run-row :
    (now run : ℕ) (d : EvalDesk) (r : EvalRun)
    → run_of run d ≡ some r
    → r.finished_at ≡ none
    → (run_of run (close_run now run d) ≡ some (completed_row now (results_for run d) r))
      × (results_for run (close_run now run d) ≡ results_for run d)
unfolding close_run
close_run-row now run d r found unfinished =
    let fits : fits_some is_unfinished (run_of run d) ≡ true =
      rw found (ground (arith, unfinished)) in
    rw (fits, close_run)
      (
        find-update_self (λ (x : EvalRun). x.id) is_unfinished
              (completed_row now (results_for run d)) (λ x. refl) run d.runs
            ∙ ap (written is_unfinished (completed_row now (results_for run d))) found
            ∙ ground (arith, unfinished),
        refl,
      )

after_cases-done :
    (now run : ℕ) (out : EvalDesk × Exit)
    → out.1 ≡ done
    → after_cases now run out ≡ (close_run now run out.0, done)
after_cases-done now run (d, done) e = refl
after_cases-done now run (d, retry) e = ground (arith, e)

none_fresh : (cs : List EvalCase) → All (λ c. is_answered_in [] c ≡ false) cs
none_fresh [] = tt
none_fresh (c ∷ cs) = (refl, none_fresh cs)

module _ (measure : EvalCase → ℕ → CaseOutcome) (meanwhile : EvalDesk → EvalDesk) where
  -- The rows of a run after a delivery: those there were, and one for each case that had none.
  abbrev pub rows_after : EvalRun → List EvalCase → EvalDesk → List CaseResult
  rows_after r cases d =
      results_for r.id d
      ++ map (λ c. case_result r.id c (measure c r.repeats)) (left_in (results_for r.id d) cases)

  -- A delivery of an eval run ends it, whether it is the first or comes after one that stopped half
  -- way: where the run is unfinished, the job names cases that are known and differ and nobody else
  -- writes the run's rows meanwhile, the job is done, a case that had a row keeps it and is not
  -- answered again, every other case has the row of its one measurement, and the run is completed
  -- with the sums of all these rows.
  pub handle_run-resumes :
      (set : List EvalCase) (now : ℕ) (ids : List String) (d : EvalDesk) (r : EvalRun)
      (c : EvalCase) (cases : List EvalCase)
      → IsQuiet r.id meanwhile
      → run_of r.id d ≡ some r
      → r.finished_at ≡ none
      → known_cases set ids ≡ c ∷ cases
      → Distinct (c ∷ cases)
      → let after = handle_run measure meanwhile set now r.id ids d in
        (after.1 ≡ done)
        × (results_for r.id after.0 ≡ rows_after r (c ∷ cases) d)
        × (run_of r.id after.0 ≡ some (completed_row now (rows_after r (c ∷ cases) d) r))
  unfolding handle_run
  handle_run-resumes set now ids d r c cases quiet found unfinished known u =
      let open_run : is_unfinished r ≡ true = ground (arith, unfinished) in
      let start = results_for r.id d in
      let loop =
        answer_cases-rows measure meanwhile r.id r.repeats quiet start (c ∷ cases) [] d u
          (sym (append-nil start)) (none_fresh (c ∷ cases)) in
      let out = answer_cases measure meanwhile r.id r.repeats start (c ∷ cases) d in
      let rows : results_for r.id out.0 ≡ rows_after r (c ∷ cases) d =
        loop.1
        ∙ ap
            (λ xs.
              xs ++ map (λ c. case_result r.id c (measure c r.repeats)) (left_in start (c ∷ cases)))
            (append-nil start) in
      let closed = close_run-row now r.id out.0 r (loop.2 ∙ found) unfinished in
      rw (found, handle_run, open_run, known)
        (rw (after_cases-done now r.id out loop.0)
          (refl, closed.1 ∙ rows, closed.0 ∙ ap (λ xs. some (completed_row now xs r)) rows))

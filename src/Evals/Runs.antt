-- ===== src/Evals/Runs.antt =====
-- Eval runs: apps/api/src/jobs/eval-run.ts, with apps/api/src/evals/start-run.ts, stored-verdict.ts
-- and the counters of packages/shared/src/evals.ts. What others do while a model is asked is a function on the state.
use Prim.Native.String
use ticket_manager_system.Text.{join}
use ticket_manager_system.Common.{
  ℕ, ◌+◌, String, Bool, not, Option, none, some, List, [], ◌∷◌, ◌++◌, ◌==◌, str_eq, if◌then◌else◌,
  any, filter, map, is_none,
}
use ticket_manager_system.Shared.{TicketCategory, AutoReplyDecline}
use ticket_manager_system.Pipeline.{PipelineOutcome}
use ticket_manager_system.Desk.Table.{find, update, fits_some}
use ticket_manager_system.AutoReply.Worker.{Exit, done, retry}
use ticket_manager_system.Evals.{
  EvalCase, EvalVerdict, CaseCounters, CaseOutcome, expected_category_of,
}

pub data EvalCorpus : Type 0 where
  frozen live : EvalCorpus

pub data RunStatus : Type 0 where
  running completed failed : RunStatus

pub data PlanStatus : Type 0 where
  planned fired missed cancelled : PlanStatus

-- `EvalRunCounters`
pub record RunCounters : Type 0 where
  pub attempts : ℕ
  pub matches : ℕ
  pub abandoned : ℕ
  pub usd : ℕ
  pub cached_repeats : ℕ
  pub cacheable : ℕ
  pub caught : ℕ
  pub escaped : ℕ
  pub classified_repeats : ℕ
  pub classify_matches : ℕ

pub record EvalRun : Type 0 where
  pub id : ℕ
  pub corpus : EvalCorpus
  pub status : RunStatus
  pub error : Option String
  pub started_at : ℕ
  pub finished_at : Option ℕ
  pub repeats : ℕ
  pub totals : RunCounters

pub record StoredVerdict : Type 0 where
  pub outcome : PipelineOutcome
  pub decline : Option AutoReplyDecline
  pub matched : Bool
  pub caught : Bool
  pub escaped : Bool
  pub category : Option TicketCategory

pub record CaseResult : Type 0 where
  pub run_id : ℕ
  pub case_id : String
  pub case_name : String
  pub adversarial : Bool
  pub expected_outcome : PipelineOutcome
  pub expected_decline : Option AutoReplyDecline
  pub expected_category : Option TicketCategory
  pub counters : CaseCounters
  pub verdicts : List StoredVerdict

pub record PlannedRun : Type 0 where
  pub id : ℕ
  pub corpus : EvalCorpus
  pub run_at : ℕ
  pub status : PlanStatus
  pub run_id : Option ℕ

pub data EvalJob : Type 0 where
  eval_run : (run : ℕ) (corpus : EvalCorpus) (case_ids : List String) → EvalJob
  planned_run : (plan : ℕ) (start_after : ℕ) → EvalJob

pub record EvalDesk : Type 0 where
  pub runs : List EvalRun
  pub results : List CaseResult
  pub plans : List PlannedRun
  pub jobs : List EvalJob
  pub events : List ℕ
  pub next_run : ℕ

abbrev pub run_of : ℕ → EvalDesk → Option EvalRun
run_of i d = find (λ (r : EvalRun). r.id) i d.runs

abbrev pub plan_of : ℕ → EvalDesk → Option PlannedRun
plan_of i d = find (λ (p : PlannedRun). p.id) i d.plans

abbrev pub results_for : ℕ → EvalDesk → List CaseResult
results_for run d = filter (λ (x : CaseResult). x.run_id == run) d.results

abbrev pub publish_run : ℕ → EvalDesk → EvalDesk
publish_run run d = record d { events = d.events ++ run ∷ [] }

-- `storedVerdict`
abbrev pub stored_verdict : EvalVerdict → StoredVerdict
stored_verdict v = record {
  outcome = v.outcome;
  decline = v.decline;
  matched = v.matched;
  caught = v.caught;
  escaped = v.escaped;
  category = v.category;
}

abbrev pub no_totals : RunCounters
no_totals = record {
  attempts = 0;
  matches = 0;
  abandoned = 0;
  usd = 0;
  cached_repeats = 0;
  cacheable = 0;
  caught = 0;
  escaped = 0;
  classified_repeats = 0;
  classify_matches = 0;
}

abbrev add_result : CaseCounters → RunCounters → RunCounters
add_result c t = record {
  attempts = c.repeats + t.attempts;
  matches = c.matches + t.matches;
  abandoned = c.abandoned + t.abandoned;
  usd = c.usd + t.usd;
  cached_repeats = c.cached_repeats + t.cached_repeats;
  cacheable = c.cacheable + t.cacheable;
  caught = c.caught + t.caught;
  escaped = c.escaped + t.escaped;
  classified_repeats = c.classified_repeats + t.classified_repeats;
  classify_matches = c.classify_matches + t.classify_matches;
}

-- The `_sum` of `aggregate`, as `evalRunCounters` names it.
unfoldable pub totals_of : List CaseResult → RunCounters
totals_of [] = no_totals
totals_of (x ∷ xs) = add_result x.counters (totals_of xs)

abbrev pub is_unfinished : EvalRun → Bool
is_unfinished r = is_none r.finished_at

-- `settle`
abbrev pub settle_run : ℕ → ℕ → RunStatus → Option String → EvalDesk → EvalDesk
settle_run now run status error d = record d {
  runs =
      update (λ (r : EvalRun). r.id) run is_unfinished
        (λ r. record r { status = status; error = error; finished_at = some now }) d.runs;
}

abbrev pub settle_and_publish : ℕ → ℕ → RunStatus → String → EvalDesk → EvalDesk
settle_and_publish now run status error d =
    if fits_some is_unfinished (run_of run d)
    then publish_run run (settle_run now run status (some error) d)
    else d

-- `autoReplyCaseById`
unfoldable pub case_by_id : List EvalCase → String → Option EvalCase
case_by_id [] id = none
case_by_id (c ∷ cases) id = if str_eq c.id id then some c else case_by_id cases id

unfoldable pub known_cases : List EvalCase → List String → List EvalCase
unfolding case_by_id
known_cases set [] = []
known_cases set (id ∷ ids) =
    let rest = known_cases set ids in elim (case_by_id set id) [ none ↦ rest | some c ↦ c ∷ rest ]

abbrev pub is_answered_in : List CaseResult → EvalCase → Bool
is_answered_in results c = any (λ (x : CaseResult). str_eq x.case_id c.id) results

abbrev pub case_result : ℕ → EvalCase → CaseOutcome → CaseResult
case_result run c o = record {
  run_id = run;
  case_id = c.id;
  case_name = c.name;
  adversarial = c.adversarial;
  expected_outcome = c.expected_outcome;
  expected_decline = c.expected_decline;
  expected_category = expected_category_of c;
  counters = o.counters;
  verdicts = map stored_verdict o.verdicts;
}

abbrev pub add_case_result : CaseResult → EvalDesk → EvalDesk
add_case_result x d = record d { results = d.results ++ x ∷ [] }

abbrev pub no_such_case : List String → String
no_such_case ids = String.◌++◌ "No such case: " (join ", " ids)

-- The closing write of `handle`, over all the rows of the run.
unfoldable pub close_run : ℕ → ℕ → EvalDesk → EvalDesk
unfolding totals_of find
close_run now run d =
    if fits_some is_unfinished (run_of run d)
    then publish_run run (record d {
      runs =
          update (λ (r : EvalRun). r.id) run is_unfinished
            (λ r. record r {
              status = RunStatus.completed;
              finished_at = some now;
              totals = totals_of (results_for run d);
            })
            d.runs;
    })
    else d

abbrev pub after_cases : ℕ → ℕ → EvalDesk × Exit → EvalDesk × Exit
after_cases now run (d, retry) = (d, retry)
after_cases now run (d, done) = (close_run now run d, done)

-- `measure` is `measureCase` over the articles of the run's corpus, which are read once.
module _ (measure : EvalCase → ℕ → CaseOutcome) (meanwhile : EvalDesk → EvalDesk) where
  -- The loop of `handle`: the second row of a case in a run is refused, which throws the job back.
  unfoldable pub answer_cases : ℕ → ℕ → List CaseResult → List EvalCase → EvalDesk → EvalDesk × Exit
  answer_cases run repeats answered [] d = (d, done)
  answer_cases run repeats answered (c ∷ cases) d =
      let d' = meanwhile d in
      let skipped = answer_cases run repeats answered cases d in
      let taken =
        answer_cases run repeats answered cases
          (publish_run run (add_case_result (case_result run c (measure c repeats)) d')) in
      if is_answered_in answered c
      then skipped
      else if is_answered_in (results_for run d') c
      then (d', retry)
      else taken

  abbrev pub answer_run : ℕ → EvalRun → List String → List EvalCase → EvalDesk → EvalDesk × Exit
  answer_run now r ids [] d =
      (settle_and_publish now r.id RunStatus.failed (no_such_case ids) d, done)
  answer_run now r ids (c ∷ cases) d =
      after_cases now r.id (answer_cases r.id r.repeats (results_for r.id d) (c ∷ cases) d)

  -- `handle` of eval-run.ts
  unfoldable pub handle_run : List EvalCase → ℕ → ℕ → List String → EvalDesk → EvalDesk × Exit
  unfolding answer_cases close_run known_cases
  handle_run set now run case_ids d = elim (run_of run d) [
    | none ↦ (d, done)
    | some r ↦
        if not (is_unfinished r)
        then (d, done)
        else answer_run now r case_ids (known_cases set case_ids) d
  ]

-- `onExhausted` of eval-run.ts
unfoldable pub run_exhausted : ℕ → ℕ → EvalDesk → EvalDesk
unfolding find
run_exhausted now run d =
    settle_and_publish now run RunStatus.failed
      "The run exhausted its retries. The provider was unreachable, or the job kept failing." d

-- `startEvalRun`; the job is sent where a key is configured.
unfoldable pub start_eval_run : Bool → ℕ → ℕ → EvalCorpus → List String → EvalDesk → EvalDesk
start_eval_run configured now repeats corpus case_ids d =
    let run = d.next_run in
    let opened = record d {
      runs =
          d.runs
          ++ (record {
            id = run;
            corpus = corpus;
            status = RunStatus.running;
            error = none;
            started_at = now;
            finished_at = none;
            repeats = repeats;
            totals = no_totals;
          })
            ∷ [];
      next_run = run + 1;
    } in
    publish_run run (
      if configured
      then record opened { jobs = opened.jobs ++ eval_run run corpus case_ids ∷ [] }
      else opened)

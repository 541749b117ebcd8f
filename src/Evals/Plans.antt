-- ===== src/Evals/Plans.antt =====
-- Runs that are planned ahead: apps/api/src/jobs/eval-planned-run.ts and the planned runs of
-- apps/api/src/routes/eval-schedule.ts. What others do in the gap of a firing is the list of their
-- own calls.
use ticket_manager_system.Common.{
  ℕ, ◌+◌, String, Bool, true, false, not, ◌&&◌, none, some, List, [], ◌∷◌, ◌++◌, map, filter, ltb,
  leb, ◌==◌, if◌then◌else◌,
}
use ticket_manager_system.Desk.Table.{find, update, fits_some}
use ticket_manager_system.Evals.Runs.{
  EvalCorpus, EvalJob, eval_run, PlanStatus, planned, fired, missed, cancelled, PlannedRun,
  planned_run, EvalDesk, plan_of, start_eval_run,
}

abbrev pub is_planned_status : PlanStatus → Bool
is_planned_status planned = true
is_planned_status fired = false
is_planned_status missed = false
is_planned_status cancelled = false

abbrev pub is_planned : PlannedRun → Bool
is_planned p = is_planned_status p.status

abbrev pub set_plan : PlanStatus → ℕ → EvalDesk → EvalDesk
set_plan status plan d = record d {
  plans =
      update (λ (p : PlannedRun). p.id) plan is_planned (λ p. record p { status = status }) d.plans;
}

-- `GRACE_MS`
abbrev pub grace : ℕ
grace = 900000

-- The claim of `firePlannedRun` and what follows it.
abbrev pub fire_claimed : Bool → ℕ → ℕ → List String → PlannedRun → EvalDesk → EvalDesk
fire_claimed configured now repeats all_ids plan d =
    if not (fits_some is_planned (plan_of plan.id d))
    then d
    else let run = d.next_run in
      let started =
        start_eval_run configured now repeats plan.corpus all_ids
          (set_plan PlanStatus.fired plan.id d) in
      record started {
        plans =
            update (λ (p : PlannedRun). p.id) plan.id (λ _. true)
              (λ p. record p { run_id = some run }) started.plans;
      }

-- `onExhausted`, which is `markMissed`.
abbrev pub plan_exhausted : ℕ → EvalDesk → EvalDesk
plan_exhausted plan d = set_plan PlanStatus.missed plan d

-- `EVAL_PLAN_HORIZON_DAYS`
abbrev pub horizon : ℕ
horizon = 604800000

abbrev pub new_plan : ℕ → EvalCorpus → ℕ → PlannedRun
new_plan i corpus run_at = record {
  id = i;
  corpus = corpus;
  run_at = run_at;
  status = PlanStatus.planned;
  run_id = none;
}

-- `POST /planned-runs`: the row and its job in one commit.
unfoldable pub plan_eval_run : Bool → ℕ → ℕ → EvalCorpus → ℕ → EvalDesk → EvalDesk
plan_eval_run configured now i corpus run_at d =
    if not (configured && (ltb now run_at && leb run_at (now + horizon))) then d else record d {
      plans = d.plans ++ new_plan i corpus run_at ∷ [];
      jobs = d.jobs ++ planned_run i run_at ∷ [];
    }

abbrev pub is_job_of : ℕ → EvalJob → Bool
is_job_of plan (eval_run run corpus case_ids) = false
is_job_of plan (planned_run i start_after) = i == plan

-- `cancelPlannedRunJob`
abbrev pub release_job : ℕ → EvalDesk → EvalDesk
release_job plan d = record d { jobs = filter (λ j. not (is_job_of plan j)) d.jobs }

-- `DELETE /planned-runs/:id`, whose answer says whether the plan was still planned.
unfoldable pub cancel_plan : ℕ → EvalDesk → EvalDesk × Bool
unfolding find
cancel_plan plan d =
    if fits_some is_planned (plan_of plan d)
    then (release_job plan (set_plan PlanStatus.cancelled plan d), true)
    else (d, false)

abbrev pub expired : ℕ → PlannedRun → PlannedRun
expired now p =
    if is_planned p && ltb (p.run_at + grace) now
    then record p { status = PlanStatus.missed }
    else p

-- The first write of `plannedRuns`.
unfoldable pub expire_plans : ℕ → EvalDesk → EvalDesk
expire_plans now d = record d { plans = map (expired now) d.plans }

-- `firePlannedRun`
unfoldable pub fire_planned_run :
    (EvalDesk → EvalDesk) → Bool → ℕ → ℕ → List String → ℕ → EvalDesk → EvalDesk
unfolding start_eval_run find
fire_planned_run meanwhile configured now repeats all_ids plan d = elim (plan_of plan d) [
  | none ↦ d
  | some p ↦
      if not (is_planned p)
      then d
      else if ltb (p.run_at + grace) now
      then set_plan PlanStatus.missed plan d
      else fire_claimed configured now repeats all_ids p (meanwhile d)
]

-- A request or a delivery; a firing carries what others do in its gap.
mutual
  pub data PlanCall : Type 0 where
    fires : PlanCalls → Bool → (now repeats : ℕ) → List String → ℕ → PlanCall
    exhausts : ℕ → PlanCall
    plans_run : Bool → (now plan : ℕ) → EvalCorpus → ℕ → PlanCall
    cancels : ℕ → PlanCall
    lists : ℕ → PlanCall

  pub data PlanCalls : Type 0 where
    none_left : PlanCalls
    then_call : PlanCall → PlanCalls → PlanCalls

unfoldable mutual
  unfolding fire_planned_run plan_eval_run cancel_plan expire_plans

  pub plan_call : PlanCall → EvalDesk → EvalDesk
  plan_call (fires others configured now repeats all_ids plan) d =
      fire_planned_run (λ e. plan_calls others e) configured now repeats all_ids plan d
  plan_call (exhausts plan) d = plan_exhausted plan d
  plan_call (plans_run configured now i corpus run_at) d =
      plan_eval_run configured now i corpus run_at d
  plan_call (cancels plan) d = (cancel_plan plan d).0
  plan_call (lists now) d = expire_plans now d

  pub plan_calls : PlanCalls → EvalDesk → EvalDesk
  plan_calls none_left d = d
  plan_calls (then_call c cs) d = plan_calls cs (plan_call c d)

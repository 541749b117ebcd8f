-- ===== src/Evals/Once.antt =====
-- How often a planned run fires: apps/api/src/jobs/eval-planned-run.ts under deliveries, cancels and
-- sweeps in any order.
use ticket_manager_system.Common.{
  ℕ, ◌+◌, ◌≡◌, refl, ap, Bool, true, false, some, List, [], ◌∷◌, arith, map, filter, length,
  length-append, filter-append, if◌then◌else◌, Bool-cases, Option-cases, inl, inr, ltb, String,
}
use ticket_manager_system.Desk.Table.{find, update, fits_some}
use ticket_manager_system.Evals.Runs.{
  EvalCorpus, PlanStatus, planned, fired, missed, cancelled, PlannedRun, EvalDesk, plan_of,
  start_eval_run,
}
use ticket_manager_system.Evals.Plans.{
  is_planned_status, is_planned, set_plan, grace, fire_claimed, expired, new_plan, fire_planned_run,
  plan_eval_run, cancel_plan, expire_plans, PlanCall, fires, exhausts, plans_run, cancels, lists,
  PlanCalls, none_left, then_call, plan_call, plan_calls,
}

abbrev pub is_fired_status : PlanStatus → Bool
is_fired_status planned = false
is_fired_status fired = true
is_fired_status missed = false
is_fired_status cancelled = false

abbrev pub is_fired : PlannedRun → Bool
is_fired p = is_fired_status p.status

abbrev pub fired_in : EvalDesk → ℕ
fired_in d = length (filter is_fired d.plans)

abbrev one_if : Bool → ℕ
one_if b = if b then 1 else 0

planned_not_fired : (s : PlanStatus) → is_planned_status s ≡ true → is_fired_status s ≡ false
planned_not_fired planned e = refl
planned_not_fired fired e = ground (arith, e)
planned_not_fired missed e = refl
planned_not_fired cancelled e = refl

-- Closing a plan that is still planned.
set_count :
    (status : PlanStatus) (i : ℕ) (ps : List PlannedRun)
    → fits_some is_planned (find (λ (p : PlannedRun). p.id) i ps) ≡ true
    → length (
        filter is_fired
          (update (λ (p : PlannedRun). p.id) i is_planned (λ p. record p { status = status }) ps))
      ≡ length (filter is_fired ps) + one_if (is_fired_status status)
unfolding find update
set_count status i [] e = ground (arith, e)
set_count status i (p ∷ ps) e = ground (arith, e, planned_not_fired p.status, set_count status i ps)

-- A plan that is closed already.
idle_count :
    (status : PlanStatus) (i : ℕ) (ps : List PlannedRun)
    → fits_some is_planned (find (λ (p : PlannedRun). p.id) i ps) ≡ false
    → length (
        filter is_fired
          (update (λ (p : PlannedRun). p.id) i is_planned (λ p. record p { status = status }) ps))
      ≡ length (filter is_fired ps)
unfolding find update
idle_count status i [] e = refl
idle_count status i (p ∷ ps) e = ground (arith, e, idle_count status i ps)

link_count :
    (run i : ℕ) (ps : List PlannedRun)
    → length (
        filter is_fired (
          update (λ (p : PlannedRun). p.id) i (λ _. true) (λ p. record p { run_id = some run }) ps))
      ≡ length (filter is_fired ps)
unfolding update
link_count run i [] = refl
link_count run i (p ∷ ps) = ground (arith, link_count run i ps)

expired_count :
    (now : ℕ) (ps : List PlannedRun)
    → length (filter is_fired (map (expired now) ps)) ≡ length (filter is_fired ps)
expired_count now [] = refl
expired_count now (p ∷ ps) = ground (arith, planned_not_fired p.status, expired_count now ps)

-- Runs opened and plans fired go together.
abbrev pub Balanced : EvalDesk → EvalDesk → Type 0
Balanced d d' = d'.next_run + fired_in d ≡ d.next_run + fired_in d'

-- A close that fires nothing.
close_count :
    (status : PlanStatus) (i : ℕ) (d : EvalDesk)
    → is_fired_status status ≡ false
    → fired_in (set_plan status i d) ≡ fired_in d
close_count status i d e = elim (Bool-cases (fits_some is_planned (plan_of i d))) [
  | inl fits ↦ ground (arith, set_count status i d.plans fits, e)
  | inr closed ↦ idle_count status i d.plans closed
]

fire_claimed-Balanced :
    (configured : Bool) (now repeats : ℕ) (all_ids : List String) (p : PlannedRun) (d : EvalDesk)
    → Balanced d (fire_claimed configured now repeats all_ids p d)
unfolding start_eval_run
fire_claimed-Balanced configured now repeats all_ids p d =
    elim (Bool-cases (fits_some is_planned (plan_of p.id d))) [
      | inr closed ↦ rw closed refl
      | inl fits ↦
          let claimed =
            update (λ (p : PlannedRun). p.id) p.id is_planned
              (λ p. record p { status = PlanStatus.fired }) d.plans in
          let linked = link_count d.next_run p.id claimed in
          let one_more = set_count PlanStatus.fired p.id d.plans fits in
          rw fits (elim (Bool-cases configured) [
            | inl keyed ↦ rw keyed (omega (arith, linked, one_more))
            | inr keyless ↦ rw keyless (omega (arith, linked, one_more))
          ])
    ]

fire_planned_run-Balanced :
    (meanwhile : EvalDesk → EvalDesk) (configured : Bool) (now repeats : ℕ) (all_ids : List String)
    (plan : ℕ) (d : EvalDesk)
    → Balanced d (meanwhile d)
    → Balanced d (fire_planned_run meanwhile configured now repeats all_ids plan d)
unfolding fire_planned_run
fire_planned_run-Balanced meanwhile configured now repeats all_ids plan d between =
    elim (Option-cases (plan_of plan d)) [
      | inl gone ↦ rw (gone, fire_planned_run) refl
      | inr (p, found) ↦ elim (Bool-cases (is_planned p)) [
        | inr closed ↦ rw (found, fire_planned_run, closed) refl
        | inl waiting ↦ elim (Bool-cases (ltb (p.run_at + grace) now)) [
          | inl late ↦
              rw (found, fire_planned_run, waiting, late)
                (omega (arith, close_count PlanStatus.missed plan d refl))
          | inr timely ↦
              rw (found, fire_planned_run, waiting, timely)
                (omega (
                  arith,
                  between,
                  fire_claimed-Balanced configured now repeats all_ids p (meanwhile d),
                ))
        ]
      ]
    ]

cancel_plan-Balanced : (plan : ℕ) (d : EvalDesk) → Balanced d (cancel_plan plan d).0
unfolding cancel_plan
cancel_plan-Balanced plan d = elim (Bool-cases (fits_some is_planned (plan_of plan d))) [
  | inl fits ↦ rw (fits, cancel_plan) (omega (arith, close_count PlanStatus.cancelled plan d refl))
  | inr closed ↦ rw (closed, cancel_plan) refl
]

plan_eval_run-Balanced :
    (configured : Bool) (now i : ℕ) (corpus : EvalCorpus) (run_at : ℕ) (d : EvalDesk)
    → Balanced d (plan_eval_run configured now i corpus run_at d)
unfolding plan_eval_run
plan_eval_run-Balanced configured now i corpus run_at d = ground (
  arith,
  ap length (filter-append is_fired d.plans (new_plan i corpus run_at ∷ [])),
  length-append (filter is_fired d.plans) [],
)

mutual
  unfolding plan_call fire_planned_run plan_eval_run cancel_plan expire_plans

  plan_call-Balanced : (c : PlanCall) (d : EvalDesk) → Balanced d (plan_call c d)
  plan_call-Balanced (fires others configured now repeats all_ids plan) d =
      fire_planned_run-Balanced (λ e. plan_calls others e) configured now repeats all_ids plan d
        (plan_calls-Balanced others d)
  plan_call-Balanced (exhausts plan) d = omega (arith, close_count PlanStatus.missed plan d refl)
  plan_call-Balanced (plans_run configured now i corpus run_at) d =
      plan_eval_run-Balanced configured now i corpus run_at d
  plan_call-Balanced (cancels plan) d = cancel_plan-Balanced plan d
  plan_call-Balanced (lists now) d = omega (arith, expired_count now d.plans)

  plan_calls-Balanced : (cs : PlanCalls) (d : EvalDesk) → Balanced d (plan_calls cs d)
  plan_calls-Balanced none_left d = refl
  plan_calls-Balanced (then_call c cs) d =
      omega (arith, plan_call-Balanced c d, plan_calls-Balanced cs (plan_call c d))

-- A planned run is opened once: whatever is delivered, planned, cancelled or swept, in any order and
-- in the gaps of any firing, as many plans have become fired as firings have opened runs.
pub plan_calls-opens :
    (cs : PlanCalls) (d : EvalDesk)
    → (plan_calls cs d).next_run + fired_in d ≡ d.next_run + fired_in (plan_calls cs d)
plan_calls-opens cs d = plan_calls-Balanced cs d

-- ===== src/Examples/Measures.antt =====
-- Measures of the answers, tried on short texts and on one evaluation case.
use ticket_manager_system.Common.{ℕ, ◌+◌, ◌≡◌, refl, true, false, none, some, [], ◌∷◌, arith}
use ticket_manager_system.Shared.{TicketCategory}
use ticket_manager_system.Pipeline.{PipelineOutcome}
use ticket_manager_system.Desk.Table.{find}
use ticket_manager_system.AutoReply.Worker.{done}
use ticket_manager_system.Effectiveness.{Text, edit_distance}
use ticket_manager_system.Effectiveness.Levenshtein.{levenshtein}
use ticket_manager_system.Effectiveness.Exact.{edit_distance-eq-levenshtein}
use ticket_manager_system.Evals.{EvalCase, AiUsage, replied, Models, CaseOutcome, run_case}
use ticket_manager_system.Evals.Counters.{CountsFit, run_case-CountsFit}
use ticket_manager_system.Evals.Runs.{
  EvalCorpus, RunStatus, EvalRun, EvalDesk, no_totals, results_for, run_of, handle_run, known_cases,
  case_by_id,
}
use ticket_manager_system.Evals.Resume.{IsQuiet, rows_after, completed_row, handle_run-resumes}
use ticket_manager_system.Evals.Plans.{
  PlanCalls, none_left, then_call, fires, plans_run, plan_calls,
}
use ticket_manager_system.Evals.Once.{fired_in, plan_calls-opens}
use ticket_manager_system.Examples.{article}

abbrev kitten : Text
kitten = 107 ∷ 105 ∷ 116 ∷ 116 ∷ 101 ∷ 110 ∷ []

abbrev sitting : Text
sitting = 115 ∷ 105 ∷ 116 ∷ 116 ∷ 105 ∷ 110 ∷ 103 ∷ []

edit_distance-eq-levenshtein_example :
    edit_distance kitten sitting ≡ some (levenshtein kitten sitting 6 7)
edit_distance-eq-levenshtein_example =
    edit_distance-eq-levenshtein kitten sitting (omega arith) (omega arith)

abbrev refund_case : EvalCase
refund_case = record {
  id = "refund";
  name = "A refund";
  category = some TicketCategory.refund;
  answered = false;
  inbound_count = 1;
  expected_outcome = PipelineOutcome.resolved;
  expected_decline = none;
  adversarial = false;
  payload_markers = [];
  payload_checks = [];
  subject = "Refund";
  text_body = "Please refund me.";
  sender_name = "Ann";
}

abbrev usage : AiUsage
usage = record { input_tokens = some 900; cached_input_tokens = some 800; output_tokens = some 100 }

abbrev models : Models
models = record {
  classify = λ subject body. record { category = some TicketCategory.refund; usage = some usage };
  auto_reply = λ articles subject body name. replied "We refund within a week." (some usage);
}

run_case-CountsFit_example :
    CountsFit 3 (run_case (λ s. s) (λ n. models) (article ∷ []) refund_case 3)
run_case-CountsFit_example = run_case-CountsFit (λ s. s) (λ n. models) (article ∷ []) refund_case 3

abbrev measured : EvalCase → ℕ → CaseOutcome
measured c repeats = run_case (λ s. s) (λ n. models) (article ∷ []) c repeats

abbrev open_run : EvalRun
open_run = record {
  id = 4;
  corpus = EvalCorpus.frozen;
  status = RunStatus.running;
  error = none;
  started_at = 1000;
  finished_at = none;
  repeats = 2;
  totals = no_totals;
}

abbrev lab : EvalDesk
lab = record {
  runs = open_run ∷ [];
  results = [];
  plans = [];
  jobs = [];
  events = [];
  next_run = 5;
}

quiet : IsQuiet 4 (λ d. d)
quiet = record { same_results = λ d. refl; same_run = λ d. refl }

handle_run-resumes_example :
    let after =
      handle_run measured (λ d. d) (refund_case ∷ []) 9000 4 ("refund" ∷ "unknown" ∷ []) lab in
    (after.1 ≡ done)
    × (results_for 4 after.0 ≡ rows_after measured (λ d. d) open_run (refund_case ∷ []) lab)
    × (run_of 4 after.0
        ≡ some (
            completed_row 9000
              (rows_after measured (λ d. d) open_run (refund_case ∷ []) lab)
              open_run))
unfolding find known_cases case_by_id
handle_run-resumes_example =
    handle_run-resumes measured (λ d. d) (refund_case ∷ []) 9000 ("refund" ∷ "unknown" ∷ []) lab
      open_run refund_case [] quiet refl refl refl (tt, tt)

abbrev plan_and_fire : PlanCalls
plan_and_fire =
    then_call (plans_run true 1000 1 EvalCorpus.frozen 2000)
      (then_call (fires none_left true 2000 3 ("refund" ∷ []) 1) none_left)

plan_calls-opens_example :
    (plan_calls plan_and_fire lab).next_run + fired_in lab
    ≡ lab.next_run + fired_in (plan_calls plan_and_fire lab)
plan_calls-opens_example = plan_calls-opens plan_and_fire lab

-- ===== src/Examples/Spending.antt =====
-- The demo's budget, tried on a visitor whose calls cost 400 each under a limit of 500.
use ticket_manager_system.Common.{
  ◌+◌, ◌*◌, ◌≤◌, ◌<◌, ◌-◌, ◌≡◌, refl, true, false, none, some, List, [], ◌∷◌, arith,
}
use ticket_manager_system.Shared.{Role}
use ticket_manager_system.Desk.{User}
use ticket_manager_system.Desk.Table.{find, update}
use ticket_manager_system.Evals.{AiUsage, usd_for}
use ticket_manager_system.Demo.{
  day_ms, utc_day, seconds_until_demo_ai_reset, AiDesk, AiStep, ask, come_back, ai_run, ai_step,
  refuse_spent_demo, demo_ai_limit_reached, charge_demo_call, charge_demo_ai, take_call,
}
use ticket_manager_system.Demo.Budget.{spent, peak, ai_run-within_limit}
use ticket_manager_system.Demo.Reset.{seconds_until_demo_ai_reset-lands}

abbrev visitor : User
visitor = record {
  id = 9;
  name = "Visitor";
  email = "visitor@example.com";
  role = Role.agent;
  automated = false;
  is_anonymous = true;
  deleted_at = none;
  created_at = 100;
}

abbrev one_token : AiUsage
one_token = record { input_tokens = none; cached_input_tokens = none; output_tokens = some 1 }

abbrev quiet : AiDesk
quiet = record { spend = []; calls = [] }

-- A call, two more before the total is at the limit, and one that is refused.
abbrev busy_day : List AiStep
busy_day =
    ask 10 visitor true
    ∷ come_back 20 9 (some one_token)
    ∷ ask 30 visitor true
    ∷ ask 40 visitor true
    ∷ come_back 50 9 (some one_token)
    ∷ ask 60 visitor true
    ∷ come_back 70 9 (some one_token)
    ∷ []

busy_day-spent : spent 0 (ai_run (some 500) busy_day quiet) ≡ 1200
unfolding ai_run ai_step refuse_spent_demo demo_ai_limit_reached charge_demo_call charge_demo_ai
    take_call find update usd_for
busy_day-spent = refl

ai_run-within_limit_example :
    spent 0 (ai_run (some 500) busy_day quiet) ≤ 500 + peak 400 (some 500) busy_day quiet
unfolding find usd_for
ai_run-within_limit_example =
    ai_run-within_limit (some 500) 0 400 busy_day quiet
      (
        refl,
        (
          (refl, omega arith),
          (refl, (refl, ((refl, omega arith), (refl, ((refl, omega arith), tt))))),
        ),
      )
      (omega arith)

seconds_until_demo_ai_reset-lands_example :
    (0 < seconds_until_demo_ai_reset 1234)
    × ((seconds_until_demo_ai_reset 1234 ≤ 86400)
        × ((utc_day (1234 + seconds_until_demo_ai_reset 1234 * 1000) ≡ utc_day 1234 + day_ms)
            × (1234 + (seconds_until_demo_ai_reset 1234 - 1) * 1000 < utc_day 1234 + day_ms)))
seconds_until_demo_ai_reset-lands_example = seconds_until_demo_ai_reset-lands 1234

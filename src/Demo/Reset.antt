-- ===== src/Demo/Reset.antt =====
-- When a refused demo session is told to come back: `secondsUntilDemoAiReset` of
-- apps/api/src/demo/ai-budget.ts.
use ticket_manager_system.Common.{ℕ, ◌+◌, ◌-◌, ◌*◌, ◌<◌, ◌≤◌, ◌≡◌, arith}
use ticket_manager_system.Demo.{utc_day, day_ms, seconds_until_demo_ai_reset}

-- The wait is at least a second and at most a day, it ends on the next day, and a wait that is a
-- second shorter ends before that day begins.
pub seconds_until_demo_ai_reset-lands :
    (now : ℕ)
    → (0 < seconds_until_demo_ai_reset now)
      × ((seconds_until_demo_ai_reset now ≤ 86400)
          × ((utc_day (now + seconds_until_demo_ai_reset now * 1000) ≡ utc_day now + day_ms)
              × (now + (seconds_until_demo_ai_reset now - 1) * 1000 < utc_day now + day_ms)))
unfolding seconds_until_demo_ai_reset
seconds_until_demo_ai_reset-lands now = (omega arith, (omega arith, (omega arith, omega arith)))

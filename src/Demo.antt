-- ===== src/Demo.antt =====
-- What the demo sessions may spend on the model in a day: apps/api/src/demo/ai-budget.ts and
-- utc-day.ts, and how the two routes of apps/api/src/routes/ai.ts ask and charge. A time is in
-- milliseconds and money in billionths of a dollar. `setting` is the number that the environment
-- names, where it is finite and not negative.
pub mod Budget
pub mod Reset
use ticket_manager_system.Common.{
  ℕ, ◌+◌, ◌-◌, ◌*◌, ◌/◌, Bool, true, false, not, ◌&&◌, Option, none, some, List, [], ◌∷◌, ◌++◌, leb,
  ◌==◌, if◌then◌else◌,
}
use ticket_manager_system.Desk.{User}
use ticket_manager_system.Desk.Table.{find, update}
use ticket_manager_system.Evals.{AiUsage, usd_for}

-- `DAY_MS`
abbrev pub day_ms : ℕ
day_ms = 86400000

abbrev pub utc_day : ℕ → ℕ
utc_day now = now / day_ms * day_ms

-- `DEFAULT_DEMO_AI_DAILY_USD`
abbrev pub default_limit : ℕ
default_limit = 1000000000

abbrev pub daily_limit : Option ℕ → ℕ
daily_limit none = default_limit
daily_limit (some usd) = usd

pub record SpendRow : Type 0 where
  pub day : ℕ
  pub usd : ℕ

abbrev pub usd_or_zero : Option SpendRow → ℕ
usd_or_zero none = 0
usd_or_zero (some row) = row.usd

abbrev pub spend_of : ℕ → List SpendRow → Option SpendRow
spend_of day rows = find (λ (row : SpendRow). row.day) day rows

unfoldable pub demo_ai_limit_reached : Option ℕ → ℕ → List SpendRow → Bool
demo_ai_limit_reached setting now rows =
    leb (daily_limit setting) (usd_or_zero (spend_of (utc_day now) rows))

-- The `increment` of the upsert.
abbrev pub add_usd : ℕ → SpendRow → SpendRow
add_usd usd row = record row { usd = row.usd + usd }

unfoldable pub charge_demo_ai : ℕ → ℕ → List SpendRow → List SpendRow
charge_demo_ai usd now rows = if usd == 0 then rows else elim (spend_of (utc_day now) rows) [
  | none ↦ rows ++ record { day = utc_day now; usd = usd } ∷ []
  | some row ↦ update (λ (row : SpendRow). row.day) (utc_day now) (λ _. true) (add_usd usd) rows
]

-- `Math.ceil((next - now) / 1000)`
unfoldable pub seconds_until_demo_ai_reset : ℕ → ℕ
seconds_until_demo_ai_reset now = (utc_day now + day_ms - now + 999) / 1000

-- `refuseSpentDemo`
unfoldable pub refuse_spent_demo : Option ℕ → ℕ → User → List SpendRow → Bool
unfolding demo_ai_limit_reached
refuse_spent_demo setting now user rows =
    user.is_anonymous && demo_ai_limit_reached setting now rows

-- `chargeDemoCall`, where the write succeeds.
unfoldable pub charge_demo_call : ℕ → User → Option AiUsage → List SpendRow → List SpendRow
unfolding charge_demo_ai usd_for
charge_demo_call now user usage rows =
    if user.is_anonymous then charge_demo_ai (usd_for usage) now rows else rows

-- The days' totals, and the users whose calls of the model have not come back.
pub record AiDesk : Type 0 where
  pub spend : List SpendRow
  pub calls : List User

-- A request that comes to the budget, and what the user's own rate limit answers to it, or a call
-- of the named user that comes back.
pub data AiStep : Type 0 where
  ask : (now : ℕ) (user : User) (allowed : Bool) → AiStep
  come_back : (now user_id : ℕ) (usage : Option AiUsage) → AiStep

-- The first call of a user, and the others.
unfoldable pub take_call : ℕ → List User → Option (User × List User)
take_call i [] = none
take_call i (u ∷ us) =
    let rest = take_call i us in
    if u.id == i then some (u, us) else elim rest [ none ↦ none | some (v, vs) ↦ some (v, u ∷ vs) ]

-- A route up to the call of the model, and from its return.
unfoldable pub ai_step : Option ℕ → AiStep → AiDesk → AiDesk
unfolding refuse_spent_demo charge_demo_call take_call
ai_step setting (ask now user allowed) s =
    if refuse_spent_demo setting now user s.spend
    then s
    else if allowed
    then record s { calls = user ∷ s.calls }
    else s
ai_step setting (come_back now i usage) s = elim (take_call i s.calls) [
  | none ↦ s
  | some (user, others) ↦ record { spend = charge_demo_call now user usage s.spend; calls = others }
]

unfoldable pub ai_run : Option ℕ → List AiStep → AiDesk → AiDesk
unfolding ai_step
ai_run setting [] s = s
ai_run setting (x ∷ xs) s = ai_run setting xs (ai_step setting x s)

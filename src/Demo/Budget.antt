-- ===== src/Demo/Budget.antt =====
-- How far a day's demo calls can go past the limit of apps/api/src/demo/ai-budget.ts, which is asked
-- before a call of the model and charged after it.
use ticket_manager_system.Common.{
  ℕ, ◌+◌, ◌≤◌, ◌≡◌, refl, ap, ◌∙◌, subst, Bool, true, false, Option, none, some, List, [], ◌∷◌, max,
  ◌==◌, if◌then◌else◌, arith, All, Bool-cases, Option-cases, inl, inr, ==_refl,
}
use ticket_manager_system.Desk.{User}
use ticket_manager_system.Desk.Table.{written, find-append, find-update_self}
use ticket_manager_system.Evals.{AiUsage, usd_for}
use ticket_manager_system.Demo.{
  utc_day, daily_limit, SpendRow, usd_or_zero, spend_of, demo_ai_limit_reached, add_usd,
  charge_demo_ai, refuse_spent_demo, charge_demo_call, AiDesk, AiStep, ask, come_back, take_call,
  ai_step, ai_run,
}

-- The total of a day.
abbrev pub spent : ℕ → AiDesk → ℕ
spent day s = usd_or_zero (spend_of day s.spend)

-- `cost` for each demo call that has not come back.
abbrev pub exposure : ℕ → List User → ℕ
exposure cost [] = 0
exposure cost (u ∷ us) = let rest = exposure cost us in if u.is_anonymous then cost + rest else rest

-- The exposure when it is the highest of a run.
abbrev pub peak : ℕ → Option ℕ → List AiStep → AiDesk → ℕ
peak cost setting [] s = exposure cost s.calls
peak cost setting (x ∷ xs) s =
    max (exposure cost s.calls) (peak cost setting xs (ai_step setting x s))

-- A step of the day, whose call of the model, where it is one that comes back, costs no more.
abbrev pub OnDay : ℕ → ℕ → AiStep → Type 0
OnDay day cost (ask now user allowed) = utc_day now ≡ day
OnDay day cost (come_back now i usage) = (utc_day now ≡ day) × (usd_for usage ≤ cost)

spend-charge :
    (usd now day : ℕ) (rows : List SpendRow)
    → utc_day now ≡ day
    → usd_or_zero (spend_of day (charge_demo_ai usd now rows))
      ≡ usd_or_zero (spend_of day rows) + usd
unfolding charge_demo_ai
spend-charge usd now day rows e =
    subst
      (λ k.
        usd_or_zero (spend_of k (charge_demo_ai usd now rows))
        ≡ usd_or_zero (spend_of k rows) + usd)
      e
      (elim (Bool-cases (usd == 0)) [
        | inl zero ↦ simp (zero, charge_demo_ai) (ground arith)
        | inr more ↦ elim (Option-cases (spend_of (utc_day now) rows)) [
          | inl new ↦
              simp (more, new, charge_demo_ai)
                (ap usd_or_zero (find-append (λ (row : SpendRow). row.day) (utc_day now) rows _)
                  ∙ simp (new, ==_refl (utc_day now)) (omega arith))
          | inr (row, old) ↦
              simp (more, old, charge_demo_ai)
                (ap usd_or_zero (
                  find-update_self (λ (row : SpendRow). row.day) (λ _. true) (add_usd usd)
                    (λ row. refl) (utc_day now) rows
                  ∙ ap (written (λ _. true) (add_usd usd)) old))
        ]
      ])

-- The exposure that a call and the others make, or `us` where there is no such call.
abbrev weigh : ℕ → List User → Option (User × List User) → ℕ
weigh cost us none = exposure cost us
weigh cost us (some (u, rest)) =
    if u.is_anonymous then cost + exposure cost rest else exposure cost rest

exposure-take_call :
    (cost i : ℕ) (us : List User) → weigh cost us (take_call i us) ≡ exposure cost us
unfolding take_call
exposure-take_call cost i [] = refl
exposure-take_call cost i (v ∷ us) = elim (Bool-cases (v.id == i)) [
  | inl mine ↦ simp (mine, take_call) refl
  | inr other ↦ elim (Option-cases (take_call i us)) [
    | inl gone ↦ simp (other, gone, take_call) refl
    | inr ((w, ws), found) ↦
        let ih = simp found at (exposure-take_call cost i us) in
        simp (other, found, take_call) (ground (arith, ih))
  ]
]

module _ (setting : Option ℕ) (day cost : ℕ) where
  -- The day's total and the exposure together are within the limit and `most`.
  abbrev Within : ℕ → AiDesk → Type 0
  Within most s = spent day s + exposure cost s.calls ≤ daily_limit setting + most

  not_spent :
      (now : ℕ) (user : User) (s : AiDesk)
      → utc_day now ≡ day
      → refuse_spent_demo setting now user s.spend ≡ false
      → user.is_anonymous ≡ true
      → spent day s ≤ daily_limit setting
  unfolding refuse_spent_demo demo_ai_limit_reached
  not_spent now user s e admitted demo =
      let not_reached = simp demo at admitted in
      subst (λ k. usd_or_zero (spend_of k s.spend) ≤ daily_limit setting) e
        (ground (arith, not_reached))

  ask-Within :
      (now : ℕ) (user : User) (allowed : Bool) (most : ℕ) (s : AiDesk)
      → utc_day now ≡ day
      → exposure cost (ai_step setting (ask now user allowed) s).calls ≤ most
      → Within most s
      → Within most (ai_step setting (ask now user allowed) s)
  unfolding ai_step refuse_spent_demo demo_ai_limit_reached
  ask-Within now user allowed most s e low h =
      elim (Bool-cases (refuse_spent_demo setting now user s.spend)) [
        | inl refused ↦ simp (refused, ai_step) h
        | inr admitted ↦ elim (Bool-cases allowed) [
          | inr stopped ↦ simp (admitted, stopped, ai_step) h
          | inl called ↦
              let low' = simp (admitted, called, ai_step) at low in
              simp (admitted, called, ai_step)
                (elim (Bool-cases user.is_anonymous) [
                  | inr colleague ↦ simp colleague h
                  | inl demo ↦
                      simp demo
                        (omega (arith, simp demo at low', not_spent now user s e admitted demo))
                ])
        ]
      ]

  come_back-Within :
      (now i : ℕ) (usage : Option AiUsage) (most : ℕ) (s : AiDesk)
      → utc_day now ≡ day
      → usd_for usage ≤ cost
      → Within most s
      → Within most (ai_step setting (come_back now i usage) s)
  unfolding ai_step charge_demo_call
  come_back-Within now i usage most s e low h = elim (Option-cases (take_call i s.calls)) [
    | inl gone ↦ simp (gone, ai_step) h
    | inr ((u, rest), found) ↦ elim (Bool-cases u.is_anonymous) [
      | inl demo ↦
          simp (found, demo, ai_step)
            (omega (
              arith,
              low,
              h,
              spend-charge (usd_for usage) now day s.spend e,
              simp (found, demo) at (exposure-take_call cost i s.calls),
            ))
      | inr colleague ↦
          simp (found, colleague, ai_step)
            (omega (arith, h, simp (found, colleague) at (exposure-take_call cost i s.calls)))
    ]
  ]

  step-Within :
      (x : AiStep) (most : ℕ) (s : AiDesk)
      → OnDay day cost x
      → exposure cost (ai_step setting x s).calls ≤ most
      → Within most s
      → Within most (ai_step setting x s)
  step-Within (ask now user allowed) most s on low h = ask-Within now user allowed most s on low h
  step-Within (come_back now i usage) most s on low h =
      come_back-Within now i usage most s on.0 on.1 h

  exposure-peak : (xs : List AiStep) (s : AiDesk) → exposure cost s.calls ≤ peak cost setting xs s
  exposure-peak [] s = omega arith
  exposure-peak (x ∷ xs) s = omega arith

  run-Within :
      (xs : List AiStep) (most : ℕ) (s : AiDesk)
      → All (OnDay day cost) xs
      → peak cost setting xs s ≤ most
      → Within most s
      → Within most (ai_run setting xs s)
  unfolding ai_run
  run-Within [] most s on low h = h
  run-Within (x ∷ xs) most s on low h =
      let s' = ai_step setting x s in
      run-Within xs most s' on.1 (omega (arith, low))
        (step-Within x most s on.0 (omega (arith, low, exposure-peak xs s')) h)

  -- Through any list of requests and returns of calls within one day, in whatever order, the demo
  -- sessions' total for that day stays within the limit and `cost` for each demo call that had not
  -- come back at the moment when most had not, where it was within the limit at the start and no
  -- call costs more than `cost`.
  pub ai_run-within_limit :
      (xs : List AiStep) (s : AiDesk)
      → All (OnDay day cost) xs
      → spent day s ≤ daily_limit setting
      → spent day (ai_run setting xs s) ≤ daily_limit setting + peak cost setting xs s
  ai_run-within_limit xs s on start =
      let most = peak cost setting xs s in
      let h = run-Within xs most s on (omega arith) (omega (arith, start, exposure-peak xs s)) in
      omega (arith, h)

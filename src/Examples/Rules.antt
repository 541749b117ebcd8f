-- ===== src/Examples/Rules.antt =====
-- The rules of the desk, tried on single cases.
use ticket_manager_system.Common.{ℕ, ◌≤◌, ◌≡◌, refl, false, some, List, [], ◌∷◌, length, arith}
use ticket_manager_system.Shared.{TicketCategory}
use ticket_manager_system.SlidingWindow.{
  Call, times, set_times, count_in, admit, run, after, fresh, allowed,
}
use ticket_manager_system.SlidingWindow.Refinement.{spec_run, counted, run-refines}
use ticket_manager_system.SlidingWindow.Limits.{granted, run-within_limit, refused_then_allowed}
use ticket_manager_system.Gates.{GateFacts}

abbrev call_at : ℕ → Call
call_at now = record { now = now; key = "a"; limit = 1 }

abbrev two_calls : List Call
two_calls = call_at 1000 ∷ call_at 2000 ∷ []

run-refines_example : run 60000 two_calls fresh ≡ spec_run 60000 two_calls []
run-refines_example = run-refines 60000 two_calls (omega arith, (omega arith, tt))

run-within_limit_example : length (counted 60000 3000 "a" (granted (run 60000 two_calls fresh))) ≤ 1
run-within_limit_example =
    run-within_limit 60000 1 two_calls "a" 3000 (omega arith, (omega arith, tt))
      (omega arith, (omega arith, tt)) (omega arith)

-- A call of another key.
abbrev other_key : Call
other_key = record { now = 3000; key = "b"; limit = 1 }

refused_then_allowed_example :
    (admit 60000 61000 "a" 1 (
      after 60000
        (other_key ∷ call_at 4000 ∷ [])
        (admit 60000 2000 "a" 1 (after 60000 (call_at 1000 ∷ []) fresh)).0)).1
    ≡ allowed
unfolding admit run after times set_times count_in
refused_then_allowed_example =
    refused_then_allowed 60000 (call_at 1000 ∷ []) (call_at 2000) (other_key ∷ call_at 4000 ∷ []) 59
      61000 (omega arith, (omega arith, tt)) (omega arith, (omega arith, tt)) (omega arith)
      (omega arith, tt) (omega arith) refl (omega arith) refl

abbrev facts : GateFacts
facts = record { category = some TicketCategory.refund; has_outbound = false; inbound_count = 1 }

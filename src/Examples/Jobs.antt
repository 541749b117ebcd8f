-- ===== src/Examples/Jobs.antt =====
-- The jobs of apps/api/src/jobs, tried on one ticket.
use mathlib.Core.List.{Memᴰ}
use ticket_manager_system.Common.{
  String, ◌≤◌, ◌≡◌, some, refl, ◌⊎◌, Option, List, [], ◌∷◌, length, All, arith,
}
use ticket_manager_system.Shared.{TicketStatus, TicketCategory, Failure}
use ticket_manager_system.Desk.{Ticket, Article, Desk}
use ticket_manager_system.Desk.Table.{find}
use ticket_manager_system.Desk.Write.{ticket_of, thread_of, by_age, insert_by_age}
use ticket_manager_system.AutoReply.Worker as Worker
use ticket_manager_system.AutoReply.Worker.{
  decline_for, stuck, recover_stuck, Answer, replied, Exit, done, retry, overtaken, is_claimable,
  claim,
}
use ticket_manager_system.AutoReply.Sent.{IsSent}
use ticket_manager_system.AutoReply.Claim.{IsFree, handle-IsFree}
use ticket_manager_system.AutoReply.Gated.{Outcome, IsAnswer, read_desk, write_desk, handle-Mailed}
use ticket_manager_system.AutoReply.Safety.{status_at}
use ticket_manager_system.AutoReply.Answered.{handle-answers}
use ticket_manager_system.AutoReply.Recovery.{recover_stuck-IsFree}
use ticket_manager_system.Gates.{gate_decline}
use ticket_manager_system.Classify as Classify
use ticket_manager_system.Classify.{Verdict, filed, failed, stale, reconcile}
use ticket_manager_system.Classify.Delivery.{
  Untouched, handle-once, handle-agent_first, handle-retry,
}
use ticket_manager_system.Classify.Sweep.{stale-Waits}
use ticket_manager_system.Examples.{config, unfiled_ticket, filed_ticket, desk_with}

abbrev unchanged : Desk → Desk
unchanged d = d

abbrev answer : List Article → String → Option String → String → Answer
answer articles subject text name = replied "Please reset it" ("a1" ∷ [])

abbrev verdict : String → Option String → Verdict
verdict subject text = filed TicketCategory.technical

abbrev outage : String → Option String → Verdict
outage subject text = failed Failure.busy

-- An agent files the ticket while the model is asked.
abbrev agent_files : Desk → Desk
agent_files d = desk_with filed_ticket

handle-Mailed_example :
    Outcome
      (IsAnswer unchanged "r1" 5000 1 answer unchanged (desk_with filed_ticket))
      1
      (desk_with filed_ticket)
      (read_desk unchanged "r1" 5000 1 answer unchanged (desk_with filed_ticket))
      (write_desk unchanged "r1" 5000 1 answer unchanged (desk_with filed_ticket))
      (overtaken unchanged "r1" 5000 1
        (ticket_of 1 (read_desk unchanged "r1" 5000 1 answer unchanged (desk_with filed_ticket)))
        (read_desk unchanged "r1" 5000 1 answer unchanged (desk_with filed_ticket)))
      (Worker.handle unchanged "r1" 5000 1 answer unchanged (desk_with filed_ticket)).0
handle-Mailed_example =
    handle-Mailed unchanged "r1" 5000 1 answer unchanged (desk_with filed_ticket)

handle-IsFree_example :
    IsFree 1 (Worker.handle unchanged "r1" 5000 1 answer unchanged (desk_with filed_ticket)).0
unfolding find
handle-IsFree_example =
    handle-IsFree unchanged "r1" 5000 1 answer unchanged (desk_with filed_ticket) refl

handle-once_example :
    Classify.handle config outage unchanged 9000 1
      (Classify.handle config verdict unchanged 5000 1 (desk_with unfiled_ticket)).0
    ≡ ((Classify.handle config verdict unchanged 5000 1 (desk_with unfiled_ticket)).0, done)
unfolding Classify.handle find
handle-once_example =
    handle-once config verdict outage unchanged unchanged 5000 9000 1 (desk_with unfiled_ticket)
      refl

handle-agent_first_example :
    ((Classify.handle config verdict agent_files 5000 1 (desk_with unfiled_ticket)).0
      ≡ desk_with unfiled_ticket)
    ⊎ Untouched config 5000 1 TicketCategory.technical
        (desk_with filed_ticket)
        (Classify.handle config verdict agent_files 5000 1 (desk_with unfiled_ticket)).0
unfolding find
handle-agent_first_example =
    handle-agent_first config 5000 1 verdict agent_files (desk_with unfiled_ticket) filed_ticket
      TicketCategory.technical refl refl

handle-retry_example :
    (Classify.handle config outage unchanged 5000 1 (desk_with unfiled_ticket)).0
    ≡ desk_with unfiled_ticket
unfolding Classify.handle find
handle-retry_example = handle-retry config 5000 1 outage unchanged (desk_with unfiled_ticket) refl

stale-Waits_example :
    Memᴰ unfiled_ticket (stale 700000 (desk_with unfiled_ticket))
    ⊎ ((length (stale 700000 (desk_with unfiled_ticket)) ≡ 50)
        × All (λ u. u.created_at ≤ 1000) (stale 700000 (desk_with unfiled_ticket)))
stale-Waits_example =
    stale-Waits 700000 (desk_with unfiled_ticket) unfiled_ticket (Memᴰ.head refl)
      (record { unstamped = refl; unfiled = refl; aged = omega arith; recent = omega arith })

handle-answers_example :
    ((Worker.handle (λ d. d) "r1" 5000 1 answer (λ d. d) (desk_with filed_ticket)).1 ≡ done)
    × ((status_at 1 (Worker.handle (λ d. d) "r1" 5000 1 answer (λ d. d) (desk_with filed_ticket)).0
          ≡ some TicketStatus.resolved)
        × IsSent 1 filed_ticket.customer_email "Please reset it"
            ("a1" ∷ [])
            (desk_with filed_ticket)
            (Worker.handle (λ d. d) "r1" 5000 1 answer (λ d. d) (desk_with filed_ticket)).0)
unfolding find decline_for gate_decline thread_of by_age insert_by_age
handle-answers_example =
    handle-answers "r1" 5000 1 answer (desk_with filed_ticket) filed_ticket "Please reset it"
      ("a1" ∷ []) refl refl refl refl

abbrev claimed_ticket : Ticket
claimed_ticket = record filed_ticket { status = TicketStatus.processing }

recover_stuck-IsFree_example :
    IsFree 1 (recover_stuck config 400000 (desk_with claimed_ticket))
    ⊎ ((length (stuck 400000 (desk_with claimed_ticket)) ≡ 50)
        × All (λ u. u.created_at ≤ 1000) (stuck 400000 (desk_with claimed_ticket)))
recover_stuck-IsFree_example =
    recover_stuck-IsFree config 400000 (desk_with claimed_ticket) claimed_ticket (Memᴰ.head refl)
      refl (omega arith) (omega arith)

-- ===== src/Examples/Screens.antt =====
-- What agents edit and admins read, tried on one ticket.
use ticket_manager_system.Common.{◌+◌, ◌≡◌, ◌↔◌, refl, true, some, [], ◌∷◌, length, filter}
use ticket_manager_system.Shared.{TicketStatus}
use ticket_manager_system.Desk.{Ticket, Desk}
use ticket_manager_system.Desk.Table.{find}
use ticket_manager_system.Tickets.{update_ticket_as}
use ticket_manager_system.Tickets.Trail.{update_ticket_as-silent_iff}
use ticket_manager_system.Pipeline.{
  CountWindow, pipeline_counts, in_window, Facts, facts_of, to_run, is_pending,
}
use ticket_manager_system.Pipeline.Rail.{declines_of, pipeline_stage_counts}
use ticket_manager_system.Pipeline.Narrows.{IsNarrowing, pipeline_stage_counts-narrows}
use ticket_manager_system.Pipeline.Partition.{pipeline_counts-received}
use ticket_manager_system.Pipeline.Runs.{pipeline_counts-pending}
use ticket_manager_system.Examples.{admin, unfiled_ticket, filed_ticket, desk_with}

abbrev close : Ticket → Ticket
close t = record t { status = TicketStatus.closed }

abbrev unchanged : Desk → Desk
unchanged d = d

abbrev day : CountWindow
day = record { from = 0; to = 86400000 }

update_ticket_as-silent_iff_example :
    ((update_ticket_as unchanged 5000 admin 1 close (desk_with filed_ticket)).0.activity ≡ [])
    ↔ ((update_ticket_as unchanged 5000 admin 1 close (desk_with filed_ticket)).0.events ≡ [])
unfolding find
update_ticket_as-silent_iff_example =
    update_ticket_as-silent_iff unchanged 5000 admin 1 close (desk_with filed_ticket) filed_ticket
      refl

abbrev closed_ticket : Ticket
closed_ticket = record filed_ticket { status = TicketStatus.closed; updated_at = 5000 }

abbrev owned_ticket : Ticket
owned_ticket = record filed_ticket { assigned_to_id = some 1; updated_at = 5000 }

pipeline_counts-received_example :
    (pipeline_counts day true (desk_with unfiled_ticket)).received
    ≡ (pipeline_counts day true (desk_with unfiled_ticket)).machine_classified
      + (pipeline_counts day true (desk_with unfiled_ticket)).classify_abandoned
      + (pipeline_counts day true (desk_with unfiled_ticket)).classify_pending
      + (pipeline_counts day true (desk_with unfiled_ticket)).no_key
      + (pipeline_counts day true (desk_with unfiled_ticket)).filed_or_stale
pipeline_counts-received_example = pipeline_counts-received day true (desk_with unfiled_ticket)

pipeline_counts-pending_example :
    length (
      filter
        (λ t. is_pending (to_run true (facts_of 86400000 (desk_with unfiled_ticket) t) t).outcome)
        (filter (in_window day) (unfiled_ticket ∷ [])))
    ≡ (pipeline_counts day true (desk_with unfiled_ticket)).classify_pending
      + (pipeline_counts day true (desk_with unfiled_ticket)).auto_reply_pending
pipeline_counts-pending_example =
    pipeline_counts-pending day true (desk_with unfiled_ticket) (refl, tt)

abbrev waiting_facts : Facts
waiting_facts = facts_of 5000 (desk_with unfiled_ticket) unfiled_ticket

pipeline_stage_counts-narrows_example : IsNarrowing (declines_of day (desk_with filed_ticket)) (
    pipeline_stage_counts
      (pipeline_counts day true (desk_with filed_ticket))
      (declines_of day (desk_with filed_ticket)))
pipeline_stage_counts-narrows_example =
    pipeline_stage_counts-narrows day true (desk_with filed_ticket) (refl, tt)

-- ===== src/Tickets.antt =====
-- What an agent may change of a ticket: `updateTicket` and the three PATCH routes of
-- apps/api/src/routes/tickets.ts, with the bodies that packages/core/src/schemas/tickets.ts admits.
-- `between` is what others do to the desk after `updateTicket` has read the ticket and before its
-- transaction writes it.
pub mod Trail
pub mod Values
use ticket_manager_system.Common.{
  ℕ, String, Bool, true, false, not, ◌&&◌, Option, none, some, List, [], ◌∷◌, ltb, leb,
  if◌then◌else◌,
}
use ticket_manager_system.Shared.{TicketStatus, TicketCategory, status_text, category_text}
use ticket_manager_system.Desk.{Ticket, TicketActor, ActivityEntry, User, Desk}
use ticket_manager_system.Desk.Write.{ticket_of, touched, update_ticket, write_activity}
use ticket_manager_system.Automation.{user_named, user_of, is_assignable}
use ticket_manager_system.Activity.{
  TicketFields, agent_actor, ticket_changes, publish_ticket_changes,
}

-- `MAX_TICKET_ID`
abbrev pub max_ticket_id : ℕ
max_ticket_id = 2147483647

-- `ticketIdParamSchema`, of a whole number.
abbrev pub is_ticket_id : ℕ → Bool
is_ticket_id i = ltb 0 i && leb i max_ticket_id

-- `AGENT_SETTABLE_STATUS`
abbrev pub is_settable : TicketStatus → Bool
is_settable TicketStatus.new = false
is_settable TicketStatus.processing = false
is_settable TicketStatus.opened = true
is_settable TicketStatus.resolved = true
is_settable TicketStatus.closed = true

-- What a route answers; `failed` is the exception of an update whose ticket has gone.
pub data Response : Type 0 where
  updated : Ticket → Response
  not_found bad_request failed : Response

abbrev name_of : Option User → Option String
name_of none = none
name_of (some u) = some u.name

abbrev text_of : Option TicketCategory → Option String
text_of none = none
text_of (some c) = some (category_text c)

-- `fieldsOf`, the assignee read as the desk names them.
abbrev pub fields_of : Desk → Ticket → TicketFields
fields_of d t = record {
  status = status_text t.status;
  category = text_of t.category;
  assignee = name_of (user_named t.assigned_to_id d);
}

-- One entry of the trail for each change.
unfoldable pub write_entries : ℕ → ℕ → TicketActor → List ActivityEntry → Desk → Desk
write_entries now i actor [] d = d
write_entries now i actor (e ∷ es) d = write_entries now i actor es (write_activity now i e actor d)

-- What `updateTicket` does once the ticket is written: the trail, then the events.
unfoldable pub record_changes : ℕ → ℕ → TicketActor → List ActivityEntry → Desk → Desk
unfolding write_entries publish_ticket_changes
record_changes now i actor entries d =
    publish_ticket_changes now i entries (write_entries now i actor entries d)

-- Whether the route finds the person among those whom a ticket may be handed to.
abbrev pub may_assign : Option ℕ → Desk → Bool
may_assign none d = true
may_assign (some user) d = elim (user_of user d) [ none ↦ false | some u ↦ is_assignable u ]

module _ (between : Desk → Desk) (now : ℕ) (caller : User) where
  -- The transaction, against the ticket as it was read.
  unfoldable pub write_update : ℕ → (Ticket → Ticket) → TicketFields → Desk → Desk × Response
  unfolding record_changes
  write_update i edit before d = elim (ticket_of i d) [
    | none ↦ (d, failed)
    | some t ↦
        let written = update_ticket now i (λ _. true) edit d in
        let after = touched now edit t in
        (
          record_changes now i (agent_actor caller)
              (ticket_changes before (fields_of written after)) written,
          updated after,
        )
  ]

  -- `updateTicket`
  unfoldable pub update_ticket_as : ℕ → (Ticket → Ticket) → Desk → Desk × Response
  unfolding write_update
  update_ticket_as i edit d = elim (ticket_of i d) [
    | none ↦ (d, not_found)
    | some existing ↦ write_update i edit (fields_of d existing) (between d)
  ]

  -- `PATCH /:id/status`
  unfoldable pub patch_status : ℕ → TicketStatus → Desk → Desk × Response
  unfolding update_ticket_as
  patch_status i status d =
      if not (is_ticket_id i)
      then (d, bad_request)
      else if not (is_settable status)
      then (d, bad_request)
      else update_ticket_as i (λ t. record t { status = status }) d

  -- `PATCH /:id/category`
  unfoldable pub patch_category : ℕ → Option TicketCategory → Desk → Desk × Response
  unfolding update_ticket_as
  patch_category i category d =
      if not (is_ticket_id i)
      then (d, bad_request)
      else update_ticket_as i (λ t. record t { category = category }) d

  -- `PATCH /:id/assignee`
  unfoldable pub patch_assignee : ℕ → Option ℕ → Desk → Desk × Response
  unfolding update_ticket_as
  patch_assignee i user d =
      if not (is_ticket_id i)
      then (d, bad_request)
      else if not (may_assign user d)
      then (d, bad_request)
      else update_ticket_as i (λ t. record t { assigned_to_id = user; assignment_seen_at = none }) d

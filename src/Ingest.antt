-- ===== src/Ingest.antt =====
-- Turning an inbound email into a ticket or into a message on one: apps/api/src/ingest.ts.
pub mod Threading
pub mod Arrival
pub mod Integrity
use ticket_manager_system.Common.{
  ℕ, ◌+◌, String, Bool, true, false, not, Option, none, some, List, [], ◌∷◌, ◌++◌, map, str_eq,
  is_some, is_none, ◌==◌, if◌then◌else◌, filter,
}
use mathlib.Core.List.{reverse}
use ticket_manager_system.Shared.{
  TicketStatus, MessageDirection, ActivityAction, EventField, status_text, option_eq,
}
use ticket_manager_system.Text.{strip_angles, ticket_subject, is_empty}
use ticket_manager_system.Desk.{Ticket, Message, User, Desk, Config}
use ticket_manager_system.Desk.Write.{
  ticket_of, update_ticket, count_ticket, insert_message, insert_ticket, write_activity,
  publish_pipeline_changed, publish_ticket_created, publish_ticket_message, publish_ticket_updated,
}
use ticket_manager_system.Automation.{assistant_user, resolve_handoff, user_of}
use ticket_manager_system.Activity.{customer_actor}
use ticket_manager_system.Classify.{enqueue_classification}

pub record InboundEmail : Type 0 where
  pub message_id : String
  pub subject : String
  pub sender_email : String
  pub sender_name : String
  pub text_body : Option String
  pub html_body : Option String
  pub in_reply_to : Option String
  pub references : List String

pub data IngestOutcome : Type 0 where
  deduped threaded created : IngestOutcome

pub record IngestResult : Type 0 where
  pub outcome : IngestOutcome
  pub ticket_id : ℕ
  pub message_id : String

-- `prisma.message.findUnique({ where: { messageId } })`, for the ticket that it is on.
unfoldable pub ticket_by_message_id : String → List Message → Option ℕ
ticket_by_message_id id [] = none
ticket_by_message_id id (m ∷ ms) =
    if str_eq m.message_id id then some m.ticket_id else ticket_by_message_id id ms

abbrev pub candidate : Option String → List String
candidate none = []
candidate (some id) = if is_empty id then [] else id ∷ []

unfoldable pub non_empty : List String → List String
non_empty ids = filter (λ id. not (is_empty id)) ids

-- The best parent first: the direct reply, then the references, newest first.
abbrev pub parent_candidates : Option String → List String → List String
parent_candidates in_reply_to references = candidate in_reply_to ++ non_empty (reverse references)

unfoldable pub first_parent : List String → List Message → Option ℕ
unfolding ticket_by_message_id
first_parent [] messages = none
first_parent (id ∷ ids) messages =
    let rest = first_parent ids messages in
    elim (ticket_by_message_id id messages) [ none ↦ rest | some i ↦ some i ]

-- `findParentTicketId`
unfoldable pub find_parent_ticket_id : Option String → List String → List Message → Option ℕ
unfolding first_parent non_empty
find_parent_ticket_id in_reply_to references messages =
    first_parent (parent_candidates in_reply_to references) messages

-- `email.inReplyTo ? stripAngles(email.inReplyTo) : undefined`
abbrev pub stripped : Option String → Option String
stripped none = none
stripped (some id) = if is_empty id then none else some (strip_angles id)

abbrev pub inbound_message : Desk → ℕ → ℕ → InboundEmail → Message
inbound_message d now i email = record {
  id = d.next_message;
  ticket_id = i;
  message_id = strip_angles email.message_id;
  in_reply_to = stripped email.in_reply_to;
  sender_email = email.sender_email;
  sender_name = email.sender_name;
  text_body = email.text_body;
  html_body = email.html_body;
  direction = MessageDirection.inbound;
  author_id = none;
  automated = false;
  cited_article_ids = [];
  polished_draft = none;
  created_at = now;
}

abbrev pub was_auto_resolved : Ticket → Bool
was_auto_resolved t = is_some t.auto_resolved_at

-- The three writes of the threading transaction.
unfoldable pub append_message : ℕ → ℕ → InboundEmail → Desk → Desk
append_message now i email d =
    update_ticket now i was_auto_resolved
      (λ t. record t { status = TicketStatus.opened; auto_resolved_at = none })
      (update_ticket now i (λ _. true) (λ t. record t { last_message_at = now })
        (insert_message (inbound_message d now i email) d))

abbrev name_of : Option User → Option String
name_of none = none
name_of (some u) = some u.name

abbrev user_name : Option ℕ → Desk → Option String
user_name none d = none
user_name (some u) d = name_of (user_of u d)

abbrev pub is_assigned_to : ℕ → Ticket → Bool
is_assigned_to user t = option_eq ◌==◌ t.assigned_to_id (some user)

-- A reopened ticket leaves the assistant for whom the handoff names; the fields that moved.
unfoldable pub reassign : ℕ → ℕ → String → Option User → Desk → Desk × List EventField
reassign now i sender none d = (d, [])
reassign now i sender (some assistant) d =
    let handoff = resolve_handoff d in
    if not (count_ticket i (is_assigned_to assistant.id) d) then (d, []) else (
      write_activity now i
          (record {
            action = ActivityAction.assignee_changed;
            from_value = some assistant.name;
            to_value = user_name handoff d;
          })
          (customer_actor sender)
          (update_ticket now i (is_assigned_to assistant.id)
            (λ t. record t { assigned_to_id = handoff }) d),
      EventField.assignee ∷ [],
    )

-- What follows a reply that reopened its ticket.
unfoldable pub reopen : ℕ → ℕ → String → Desk → Desk × List EventField
unfolding reassign
reopen now i sender d =
    let noted =
      write_activity now i
        (record {
          action = ActivityAction.reopened;
          from_value = none;
          to_value = some (status_text TicketStatus.opened);
        })
        (customer_actor sender) d in
    let (d', moved) = reassign now i sender (assistant_user noted) noted in
    (d', EventField.status ∷ moved)

-- The arm that appends to an existing thread.
unfoldable pub thread_onto : ℕ → ℕ → InboundEmail → Desk → Desk
unfolding append_message reopen
thread_onto now i email d =
    let reopened = count_ticket i was_auto_resolved d in
    let (d', moved) =
      if reopened
      then reopen now i email.sender_name (append_message now i email d)
      else (append_message now i email d, []) in
    publish_ticket_updated now i moved (publish_ticket_message now i d')

abbrev pub new_ticket : Desk → ℕ → InboundEmail → Ticket
new_ticket d now email = record {
  id = d.next_ticket;
  subject = ticket_subject email.subject;
  status = TicketStatus.new;
  category = none;
  classified_at = none;
  classifier_category = none;
  auto_resolved_at = none;
  auto_reply_decline = none;
  auto_reply_declined_at = none;
  auto_reply_offered_at = none;
  customer_email = email.sender_email;
  customer_name = email.sender_name;
  last_message_at = now;
  created_at = now;
  updated_at = now;
  assigned_to_id = none;
  assignment_seen_at = none;
}

-- The arm that opens a ticket: the row, its message, its first entry and its job in one commit.
unfoldable pub open_ticket : Config → ℕ → InboundEmail → Desk → Desk
unfolding enqueue_classification
open_ticket cfg now email d =
    let i = d.next_ticket in
    publish_ticket_created now i (
      publish_pipeline_changed now i (
        enqueue_classification cfg i (
          write_activity now i
            (record {
              action = ActivityAction.created;
              from_value = none;
              to_value = some (status_text TicketStatus.new);
            })
            (customer_actor email.sender_name)
            (insert_message (inbound_message d now i email)
              (insert_ticket (new_ticket d now email) d)))))

abbrev pub arrived : IngestOutcome → ℕ → String → IngestResult
arrived outcome i id = record { outcome = outcome; ticket_id = i; message_id = id }

-- `ingestInboundEmail`
unfoldable pub ingest : Config → ℕ → InboundEmail → Desk → Desk × IngestResult
unfolding ticket_by_message_id find_parent_ticket_id thread_onto open_ticket non_empty
ingest cfg now email d =
    let id = strip_angles email.message_id in
    let refs = non_empty (map strip_angles email.references) in
    elim (ticket_by_message_id id d.messages) [
      | some i ↦ (d, arrived deduped i id)
      | none ↦ elim (find_parent_ticket_id (stripped email.in_reply_to) refs d.messages) [
        | some i ↦ (thread_onto now i email d, arrived threaded i id)
        | none ↦ (open_ticket cfg now email d, arrived created d.next_ticket id)
      ]
    ]

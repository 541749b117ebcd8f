-- ===== src/Examples/Mail.antt =====
-- Email in and out, tried on one ticket.
use ticket_manager_system.Common.{◌⊎◌, ℕ, arith, ◌<◌, ◌≡◌, ◌↔◌, refl, true, false, none, some, []}
use ticket_manager_system.Shared.{TicketStatus, EmailStatus}
use ticket_manager_system.Text.{strip_angles}
use ticket_manager_system.Desk.{Ticket, OutboundEmail, Desk}
use ticket_manager_system.Desk.Table.{find}
use ticket_manager_system.Desk.Sound.{IsSound}
use ticket_manager_system.Desk.Write.{ticket_of, update_ticket, email_of}
use ticket_manager_system.AutoReply.Worker.{done}
use ticket_manager_system.Automation.{assistant_user, first_user, resolve_handoff}
use ticket_manager_system.Outbound.{Author, is_demo, agent, Reply, send_reply}
use ticket_manager_system.Outbox.{Delivery, accepted, Response, handle, retry_email}
use ticket_manager_system.Outbox.Settled.{is_due, handle-settles}
use ticket_manager_system.Outbox.Final.{stayed, Run-final}
use ticket_manager_system.Outbox.Demo.{demo_reply-withheld}
use ticket_manager_system.Outbox.Retry.{retry_email-accepted_iff}
use ticket_manager_system.Ingest.{
  ticket_by_message_id, arrived, deduped, threaded, ingest, thread_onto,
}
use ticket_manager_system.Ingest.Threading.{ingest_idempotent, send_reply-threads}
use ticket_manager_system.Ingest.Integrity.{ingest-IsSound}
use ticket_manager_system.Ingest.Arrival.{owner_after, thread_onto-reopened}
use ticket_manager_system.Examples.{
  config, filed_ticket, desk_with, inbound_email, answer_email, queued_email, outbox_of,
}

abbrev unchanged : Desk → Desk
unchanged d = d

abbrev takes : OutboundEmail → Delivery
takes e = accepted (some "p1")

abbrev reply_by : Author → Reply
reply_by author = record {
  ticket_id = 1;
  text_body = "Please reset it";
  origin = agent author none;
  sent_at = 4000;
}

abbrev colleague : Author
colleague = record { id = 1; name = "Ada"; email = "ada@example.com"; is_anonymous = false }

abbrev visitor : Author
visitor = record colleague { is_anonymous = true }

abbrev sent_email : OutboundEmail
sent_email = record queued_email { status = EmailStatus.sent; sent_at = some 3500; attempts = 1 }

abbrev resolved_ticket : Ticket
resolved_ticket = record filed_ticket {
  status = TicketStatus.resolved;
  auto_resolved_at = some 3000;
  assigned_to_id = some 2;
}

ingest_idempotent_example :
    ingest config 6000 inbound_email (ingest config 5000 inbound_email (desk_with filed_ticket)).0
    ≡ (
      (ingest config 5000 inbound_email (desk_with filed_ticket)).0,
      arrived deduped
          (ingest config 5000 inbound_email (desk_with filed_ticket)).1.ticket_id
          (ingest config 5000 inbound_email (desk_with filed_ticket)).1.message_id,
    )
ingest_idempotent_example =
    ingest_idempotent config config 5000 6000 inbound_email inbound_email (desk_with filed_ticket)
      refl

send_reply-threads_example :
    ingest config 5000 answer_email
      (send_reply "r1" (reply_by colleague) (desk_with filed_ticket)).0
    ≡ (
      thread_onto 5000 1 answer_email
          (send_reply "r1" (reply_by colleague) (desk_with filed_ticket)).0,
      arrived threaded 1 (strip_angles "<m3>"),
    )
unfolding find ticket_by_message_id send_reply update_ticket strip_angles
send_reply-threads_example =
    send_reply-threads config 5000 "r1" (reply_by colleague) answer_email (desk_with filed_ticket)
      filed_ticket refl refl refl refl refl

desk-IsSound : IsSound (desk_with filed_ticket)
unfolding find
desk-IsSound = record { numbered = (omega arith, tt); threaded = (refl, tt); unique = (tt, tt) }

ingest-IsSound_example : IsSound (ingest config 5000 answer_email (desk_with filed_ticket)).0
ingest-IsSound_example =
    ingest-IsSound config 5000 answer_email (desk_with filed_ticket) desk-IsSound

thread_onto-reopened_example :
    ticket_of 1 (thread_onto 5000 1 answer_email (desk_with resolved_ticket))
    ≡ some (record resolved_ticket {
      last_message_at = 5000;
      updated_at = 5000;
      status = TicketStatus.opened;
      auto_resolved_at = none;
      assigned_to_id =
          owner_after
            (assistant_user (desk_with resolved_ticket))
            (resolve_handoff (desk_with resolved_ticket))
            resolved_ticket;
    })
unfolding find assistant_user first_user
thread_onto-reopened_example =
    thread_onto-reopened 5000 1 answer_email (desk_with resolved_ticket) resolved_ticket refl refl

handle-settles_example :
    is_due (email_of 1 (handle config takes unchanged 5000 1 (outbox_of queued_email)).0) ≡ false
unfolding handle find
handle-settles_example = handle-settles config takes unchanged 5000 1 (outbox_of queued_email) refl

Run-final_example :
    (email_of 1 (outbox_of sent_email) ≡ some sent_email)
    × ((deliver : OutboundEmail → Delivery) (meanwhile : Desk → Desk) (now : ℕ)
        → handle config deliver meanwhile now 1 (outbox_of sent_email)
          ≡ (outbox_of sent_email, done))
unfolding find
Run-final_example =
    Run-final config 1 sent_email (outbox_of sent_email) (outbox_of sent_email) refl refl
      (stayed (outbox_of sent_email))

demo_reply-withheld_example :
    ((send_reply "r1" (reply_by visitor) (desk_with filed_ticket)).0.jobs ≡ [])
    × (((row : OutboundEmail) × ((email_of 1
                (send_reply "r1" (reply_by visitor) (desk_with filed_ticket)).0
              ≡ some row)
            × (row.status ≡ EmailStatus.withheld)))
        × ((deliver : OutboundEmail → Delivery) (meanwhile : Desk → Desk) (now : ℕ)
            → handle config deliver meanwhile now 1
                (send_reply "r1" (reply_by visitor) (desk_with filed_ticket)).0
              ≡ ((send_reply "r1" (reply_by visitor) (desk_with filed_ticket)).0, done)))
unfolding find is_demo
demo_reply-withheld_example =
    demo_reply-withheld config "r1" (reply_by visitor) (desk_with filed_ticket) filed_ticket
      (send_reply "r1" (reply_by visitor) (desk_with filed_ticket)).0 refl refl refl
      (stayed (send_reply "r1" (reply_by visitor) (desk_with filed_ticket)).0)

retry_email-accepted_iff_example :
    ((retry_email config 1 (outbox_of queued_email)).1 ≡ Response.accepted) ↔ (
      (0 < 1)
      × ((true ≡ true)
          × ((e : OutboundEmail) × ((email_of 1 (outbox_of queued_email) ≡ some e)
                × ((e.status ≡ EmailStatus.undeliverable) ⊎ (e.status ≡ EmailStatus.failed))))))
retry_email-accepted_iff_example = retry_email-accepted_iff config 1 (outbox_of queued_email)

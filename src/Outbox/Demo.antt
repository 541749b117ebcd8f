-- ===== src/Outbox/Demo.antt =====
-- The email of a demo session, from apps/api/src/outbound.ts through apps/api/src/jobs/send-email.ts.
use ticket_manager_system.Common.{ℕ, String, ◌≡◌, ==_refl, refl, ap, ◌∙◌, true, none, some}
use ticket_manager_system.Shared.{EmailStatus}
use ticket_manager_system.Desk.{Ticket, OutboundEmail, Desk, Config}
use ticket_manager_system.Desk.Table.{find, find-append}
use ticket_manager_system.Desk.Write.{ticket_of, email_of}
use ticket_manager_system.AutoReply.Worker.{done}
use ticket_manager_system.Outbound.{Reply, is_demo, withheld_reason, send_reply}
use ticket_manager_system.Outbound.Thread.{reply_row, send_reply-demo}
use ticket_manager_system.Outbox.{Delivery, handle}
use ticket_manager_system.Outbox.Final.{Run, Run-final}

-- A demo session's reply is never delivered: it sends no job, and where its row's id is new, the row
-- is withheld after any run of insertions, deliveries, exhaustions and retries that follows, in any
-- interleaving, and a delivery under its id does nothing, whatever the provider would have answered.
pub demo_reply-withheld :
    (cfg : Config) (fresh_id : String) (r : Reply) (d : Desk) (t : Ticket) (e : Desk)
    → ticket_of r.ticket_id d ≡ some t
    → is_demo r.origin ≡ true
    → email_of d.next_email d ≡ none
    → Run cfg (send_reply fresh_id r d).0 e
    → ((send_reply fresh_id r d).0.jobs ≡ d.jobs)
      × (((row : OutboundEmail) × ((email_of d.next_email e ≡ some row)
              × (row.status ≡ EmailStatus.withheld)))
          × ((deliver : OutboundEmail → Delivery) (meanwhile : Desk → Desk) (now : ℕ)
              → handle cfg deliver meanwhile now d.next_email e ≡ (e, done)))
demo_reply-withheld cfg fresh_id r d t e found demo new run =
    let (rows, jobs) = send_reply-demo fresh_id r d t found demo in
    let row = record (reply_row fresh_id r d t found) {
      status = EmailStatus.withheld;
      last_error = some withheld_reason;
    } in
    let (kept, idle) =
      Run-final cfg d.next_email row (send_reply fresh_id r d).0 e
        (ap (find (λ (e : OutboundEmail). e.id) d.next_email) rows
          ∙ find-append (λ (e : OutboundEmail). e.id) d.next_email d.outbox row
          ∙ rw (new, ==_refl d.next_email) refl)
        refl run in
    (jobs, ((row, (kept, refl)), idle))

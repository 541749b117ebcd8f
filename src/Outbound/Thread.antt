-- ===== src/Outbound/Thread.antt =====
-- What a reply of apps/api/src/outbound.ts hands to the outbox.
use ticket_manager_system.Common.{
  String, ◌≡◌, refl, ap, true, false, some, [], ◌∷◌, ◌++◌, map, arith, get_last?,
}
use ticket_manager_system.Shared.{EmailStatus}
use ticket_manager_system.Desk.{Ticket, Message, OutboundEmail, Desk, send_email}
use ticket_manager_system.Desk.Write.{ticket_of, update_ticket, thread_of}
use ticket_manager_system.Outbound.{
  ReplyOrigin, agent, assistant, message_by, Reply, is_demo, row_data, withheld_reason,
  reply_message, send_reply,
}

message_by-thread :
    (o : ReplyOrigin) (m : Message)
    → ((message_by o m).message_id ≡ m.message_id) × ((message_by o m).in_reply_to ≡ m.in_reply_to)
message_by-thread (agent author draft) m = (refl, refl)
message_by-thread (assistant cited) m = (refl, refl)

module _ (fresh_id : String) (r : Reply) (d : Desk) (t : Ticket)
    (found : ticket_of r.ticket_id d ≡ some t) where
  -- The row that the reply is written out in.
  abbrev pub reply_row : OutboundEmail
  reply_row =
      row_data d r.sent_at t (reply_message fresh_id r d)
        (map (λ (m : Message). m.message_id) (thread_of r.ticket_id d))

  pub send_reply-live :
      is_demo r.origin ≡ false
      → ((send_reply fresh_id r d).0.outbox ≡ d.outbox ++ reply_row ∷ [])
        × ((send_reply fresh_id r d).0.jobs ≡ d.jobs ++ send_email d.next_email ∷ [])
  unfolding send_reply update_ticket
  send_reply-live live = (ground (arith, found), ground (arith, found))

  pub send_reply-demo :
      is_demo r.origin ≡ true
      → ((send_reply fresh_id r d).0.outbox
          ≡ d.outbox
            ++ record reply_row { status = EmailStatus.withheld; last_error = some withheld_reason }
              ∷ [])
        × ((send_reply fresh_id r d).0.jobs ≡ d.jobs)
  unfolding send_reply update_ticket
  send_reply-demo demo = (ground (arith, found), ground (arith, found))

  -- A reply that is not a demo session's is one queued email to the customer and one job for it. The
  -- email names the reply's own message, answers the last message of the thread and lists the thread.
  pub send_reply-queued :
      is_demo r.origin ≡ false
      → (row : OutboundEmail) × (((send_reply fresh_id r d).0.outbox ≡ d.outbox ++ row ∷ [])
          × (((send_reply fresh_id r d).0.jobs ≡ d.jobs ++ send_email row.id ∷ [])
              × ((row.status ≡ EmailStatus.queued)
                  × ((row.to_email ≡ t.customer_email)
                      × ((row.email_message_id ≡ some fresh_id)
                          × ((row.in_reply_to ≡ get_last? row.references)
                              × (row.references
                                  ≡ map
                                      (λ (m : Message). m.message_id)
                                      (thread_of r.ticket_id d))))))))
  send_reply-queued live = (
    reply_row,
    (
      (send_reply-live live).0,
      (
        (send_reply-live live).1,
        (
          refl,
          (
            refl,
            (ap some (message_by-thread r.origin _).0, ((message_by-thread r.origin _).1, refl)),
          ),
        ),
      ),
    ),
  )

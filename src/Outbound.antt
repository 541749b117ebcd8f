-- ===== src/Outbound.antt =====
-- Sending a reply from the desk: apps/api/src/outbound.ts, with the outbox half of
-- apps/api/src/jobs/send-email.ts that it writes into. `fresh_id` stands for the text that
-- `newOutboundMessageId` makes of the ticket and a random UUID.
pub mod Thread
use ticket_manager_system.Common.{
  ℕ, String, Bool, true, false, ◌&&◌, Option, none, some, List, [], ◌∷◌, map, if◌then◌else◌,
  get_last?,
}
use ticket_manager_system.Shared.{MessageDirection, EmailKind, EmailStatus}
use ticket_manager_system.Text.{reply_subject}
use ticket_manager_system.Desk.{Ticket, Message, OutboundEmail, Desk, send_email}
use ticket_manager_system.Desk.Write.{
  ticket_of, update_ticket, insert_message, insert_email, send_job, thread_of,
}

pub record Author : Type 0 where
  pub id : ℕ
  pub name : String
  pub email : String
  pub is_anonymous : Bool

pub data ReplyOrigin : Type 0 where
  agent : Author → (polished_draft : Option String) → ReplyOrigin
  assistant : (cited_article_ids : List String) → ReplyOrigin

pub record Reply : Type 0 where
  pub ticket_id : ℕ
  pub text_body : String
  pub origin : ReplyOrigin
  pub sent_at : ℕ

pub data SendResult : Type 0 where
  sent : Message → SendResult
  no_such_ticket : SendResult

abbrev support_email : String
support_email = "support@example.com"

abbrev support_name : String
support_name = "Support (automated)"

-- The message that `write` inserts, its sender, author and flags decided by `senderOf`.
abbrev pub message_by : ReplyOrigin → Message → Message
message_by (agent author polished_draft) m = record m {
  sender_email = author.email;
  sender_name = author.name;
  author_id = some author.id;
  automated = false;
  cited_article_ids = [];
  polished_draft = polished_draft;
}
message_by (assistant cited) m = record m {
  sender_email = support_email;
  sender_name = support_name;
  author_id = none;
  automated = true;
  cited_article_ids = cited;
  polished_draft = none;
}

unfoldable pub is_demo : ReplyOrigin → Bool
is_demo (agent author polished_draft) = author.is_anonymous
is_demo (assistant cited) = false

-- `rowData`
abbrev pub row_data : Desk → ℕ → Ticket → Message → List String → OutboundEmail
row_data d now t m references = record {
  id = d.next_email;
  kind = EmailKind.reply;
  message_id = some m.id;
  to_email = t.customer_email;
  to_name = some t.customer_name;
  subject = reply_subject t.subject;
  text_body = text_of m.text_body;
  email_message_id = some m.message_id;
  in_reply_to = m.in_reply_to;
  references = references;
  status = EmailStatus.queued;
  attempts = 0;
  provider_message_id = none;
  last_error = none;
  created_at = now;
  sent_at = none;
}
  where
    text_of : Option String → String
    text_of none = ""
    text_of (some s) = s

-- `WITHHELD_REASON`
abbrev pub withheld_reason : String
withheld_reason = "Written in a demo session, and a demo session's email is never sent"

-- `enqueueEmail`: the row and the job in one transaction.
abbrev pub enqueue_email : OutboundEmail → Desk → Desk
enqueue_email e d = send_job (send_email e.id) (insert_email e d)

-- `withholdEmail`: the row alone, born withheld.
abbrev pub withhold_email : OutboundEmail → Desk → Desk
withhold_email e d =
    insert_email (record e { status = EmailStatus.withheld; last_error = some withheld_reason }) d

abbrev blank_message : Desk → String → Reply → Option String → Message
blank_message d fresh_id r parent = record {
  id = d.next_message;
  ticket_id = r.ticket_id;
  message_id = fresh_id;
  in_reply_to = parent;
  sender_email = "";
  sender_name = "";
  text_body = some r.text_body;
  html_body = none;
  direction = MessageDirection.outbound;
  author_id = none;
  automated = false;
  cited_article_ids = [];
  polished_draft = none;
  created_at = r.sent_at;
}

-- The reply as a row of the thread: it hangs off the last message there.
abbrev pub reply_message : String → Reply → Desk → Message
reply_message fresh_id r d = message_by r.origin (
    blank_message d fresh_id r
      (get_last? (map (λ (m : Message). m.message_id) (thread_of r.ticket_id d))))

-- `write`, which is `sendReply` in the caller's transaction or one of its own.
unfoldable pub send_reply : String → Reply → Desk → Desk × SendResult
unfolding is_demo
send_reply fresh_id r d = elim (ticket_of r.ticket_id d) [
  | none ↦ (d, no_such_ticket)
  | some t ↦
      let message = reply_message fresh_id r d in
      let references = map (λ (m : Message). m.message_id) (thread_of r.ticket_id d) in
      let d1 =
        update_ticket r.sent_at r.ticket_id (λ _. true)
          (λ t. record t { last_message_at = r.sent_at }) (insert_message message d) in
      let row = row_data d r.sent_at t message references in
      (if is_demo r.origin then withhold_email row d1 else enqueue_email row d1, sent message)
]

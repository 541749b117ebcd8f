-- ===== src/AutoReply/Sent.antt =====
-- What an unattended reply adds to the desk: `sendReply` of apps/api/src/outbound.ts, as
-- apps/api/src/jobs/auto-reply-ticket.ts calls it.
use ticket_manager_system.Common.{ℕ, String, ◌≡◌, refl, ap, ◌∙◌, some, List, [], ◌∷◌, ◌++◌, map}
use ticket_manager_system.Desk.{Ticket, Message, OutboundEmail, Desk}
use ticket_manager_system.Desk.Write.{ticket_of, update_ticket, thread_of}
use ticket_manager_system.Outbound.{Reply, assistant, is_demo, row_data, send_reply, reply_message}

-- A reply of the assistant's: one message behind those of the ticket, which keeps the articles that it
-- cites, and one email behind those of the outbox, which carries the message's text to `to`.
pub record IsSent (i : ℕ) (to text : String) (ids : List String) (before after : Desk)
    : Type 0 where
  pub message : Message
  pub email : OutboundEmail
  pub messages : after.messages ≡ before.messages ++ message ∷ []
  pub outbox : after.outbox ≡ before.outbox ++ email ∷ []
  pub on_ticket : message.ticket_id ≡ i
  pub stored : message.text_body ≡ some text
  pub cites : message.cited_article_ids ≡ ids
  pub carries : email.message_id ≡ some message.id
  pub addressed : email.to_email ≡ to
  pub says : email.text_body ≡ text

-- It counts what is behind the messages and the emails, and nothing else.
pub IsSent-from :
    (i : ℕ) (to text : String) (ids : List String) (before d after : Desk)
    → before.messages ≡ d.messages
    → before.outbox ≡ d.outbox
    → IsSent i to text ids before after
    → IsSent i to text ids d after
IsSent-from i to text ids before d after m o e = record {
  message = e.message;
  email = e.email;
  messages = e.messages ∙ ap (λ ms. ms ++ e.message ∷ []) m;
  outbox = e.outbox ∙ ap (λ os. os ++ e.email ∷ []) o;
  on_ticket = e.on_ticket;
  stored = e.stored;
  cites = e.cites;
  carries = e.carries;
  addressed = e.addressed;
  says = e.says;
}

pub IsSent-to :
    (i : ℕ) (to text : String) (ids : List String) (d before after : Desk)
    → after.messages ≡ before.messages
    → after.outbox ≡ before.outbox
    → IsSent i to text ids d before
    → IsSent i to text ids d after
IsSent-to i to text ids d before after m o e = record {
  message = e.message;
  email = e.email;
  messages = m ∙ e.messages;
  outbox = o ∙ e.outbox;
  on_ticket = e.on_ticket;
  stored = e.stored;
  cites = e.cites;
  carries = e.carries;
  addressed = e.addressed;
  says = e.says;
}

pub send_reply-IsSent :
    (fresh_id : String) (now i : ℕ) (text : String) (ids : List String) (d : Desk) (t : Ticket)
    → ticket_of i d ≡ some t
    → IsSent i t.customer_email text ids d
        (send_reply fresh_id
          (record { ticket_id = i; text_body = text; origin = assistant ids; sent_at = now })
          d).0
unfolding send_reply update_ticket is_demo
send_reply-IsSent fresh_id now i text ids d t found =
    let r : Reply = record {
      ticket_id = i;
      text_body = text;
      origin = assistant ids;
      sent_at = now;
    } in
    record {
      message = reply_message fresh_id r d;
      email =
          row_data d now t (reply_message fresh_id r d)
            (map (λ (m : Message). m.message_id) (thread_of i d));
      messages = rw (found, send_reply) refl;
      outbox = rw (found, send_reply) refl;
      on_ticket = refl;
      stored = refl;
      cites = refl;
      carries = refl;
      addressed = refl;
      says = refl;
    }

-- ===== src/Ingest/Threading.antt =====
-- Which thread an email of apps/api/src/ingest.ts lands on.
use text.Mathlib.TextEquality.{eq_iff}
use ticket_manager_system.Common.{
  ℕ, String, ◌≡◌, refl, ap, ◌∙◌, false, Option, none, some, List, [], ◌∷◌, ◌++◌, map, arith, sym,
  Bool-cases, Option-cases, inl, inr,
}
use ticket_manager_system.Text.{strip_angles, is_empty}
use ticket_manager_system.Text.Brackets.{bracketed, strip_angles-bracketed, bracketed_filled}
use ticket_manager_system.Shared.{EventField}
use ticket_manager_system.Desk.{Ticket, User, Message, Desk, Config}
use ticket_manager_system.Desk.Write.{
  ticket_of, update_ticket, count_ticket, publish_ticket_updated, publish_ticket_message,
}
use ticket_manager_system.Outbound.{
  ReplyOrigin, message_by, Reply, send_reply, reply_message, agent, assistant,
}
use ticket_manager_system.Ingest.{
  InboundEmail, deduped, threaded, created, arrived, ticket_by_message_id, non_empty, stripped,
  find_parent_ticket_id, first_parent, inbound_message, was_auto_resolved, append_message, reassign,
  reopen, thread_onto, open_ticket, ingest,
}

pub ticket_by_message_id-append :
    (id : String) (ms : List Message) (m : Message)
    → ticket_by_message_id id ms ≡ none
    → m.message_id ≡ id
    → ticket_by_message_id id (ms ++ m ∷ []) ≡ some m.ticket_id
unfolding ticket_by_message_id
ticket_by_message_id-append id [] m e s = ground (arith, eq_iff m.message_id id)
ticket_by_message_id-append id (x ∷ ms) m e s = ground (arith, ticket_by_message_id-append id ms m)

reassign-messages :
    (now i : ℕ) (sender : String) (u : Option User) (d : Desk)
    → (reassign now i sender u d).0.messages ≡ d.messages
unfolding reassign update_ticket
reassign-messages now i sender none d = refl
reassign-messages now i sender (some u) d = ground arith

append_message-messages :
    (now i : ℕ) (email : InboundEmail) (d : Desk)
    → (append_message now i email d).messages ≡ d.messages ++ inbound_message d now i email ∷ []
unfolding append_message update_ticket
append_message-messages now i email d = refl

reopen-messages :
    (now i : ℕ) (sender : String) (d : Desk) → (reopen now i sender d).0.messages ≡ d.messages
unfolding reopen
reopen-messages now i sender d = reassign-messages now i sender _ _

published-messages :
    (now i : ℕ) (p : Desk × List EventField)
    → (publish_ticket_updated now i p.1 (publish_ticket_message now i p.0)).messages ≡ p.0.messages
published-messages now i (d, []) = refl
published-messages now i (d, f ∷ fs) = refl

thread_onto-messages :
    (now i : ℕ) (email : InboundEmail) (d : Desk)
    → (thread_onto now i email d).messages ≡ d.messages ++ inbound_message d now i email ∷ []
unfolding thread_onto
thread_onto-messages now i email d = elim (Bool-cases (count_ticket i was_auto_resolved d)) [
  | inl e ↦ rw e (
      published-messages now i (reopen now i email.sender_name (append_message now i email d))
      ∙ reopen-messages now i email.sender_name (append_message now i email d)
      ∙ append_message-messages now i email d)
  | inr e ↦ rw e (
      published-messages now i (append_message now i email d, [])
      ∙ append_message-messages now i email d)
]

open_ticket-messages :
    (cfg : Config) (now : ℕ) (email : InboundEmail) (d : Desk)
    → (open_ticket cfg now email d).messages
      ≡ d.messages ++ inbound_message d now d.next_ticket email ∷ []
unfolding open_ticket
open_ticket-messages cfg now email d = ground arith

-- An email under an id that a message has.
pub ingest-deduped :
    (cfg : Config) (now : ℕ) (email : InboundEmail) (d : Desk) (i : ℕ)
    → ticket_by_message_id (strip_angles email.message_id) d.messages ≡ some i
    → ingest cfg now email d ≡ (d, arrived deduped i (strip_angles email.message_id))
unfolding ingest
ingest-deduped cfg now email d i e = rw (e, ingest) refl

abbrev pub parent_of : InboundEmail → Desk → Option ℕ
parent_of email d =
    find_parent_ticket_id (stripped email.in_reply_to)
      (non_empty (map strip_angles email.references)) d.messages

pub ingest-threaded :
    (cfg : Config) (now : ℕ) (email : InboundEmail) (d : Desk) (i : ℕ)
    → ticket_by_message_id (strip_angles email.message_id) d.messages ≡ none
    → parent_of email d ≡ some i
    → ingest cfg now email d
      ≡ (thread_onto now i email d, arrived threaded i (strip_angles email.message_id))
unfolding ingest
ingest-threaded cfg now email d i unseen found = rw (unseen, ingest, found) refl

pub ingest-created :
    (cfg : Config) (now : ℕ) (email : InboundEmail) (d : Desk)
    → ticket_by_message_id (strip_angles email.message_id) d.messages ≡ none
    → parent_of email d ≡ none
    → ingest cfg now email d
      ≡ (open_ticket cfg now email d, arrived created d.next_ticket (strip_angles email.message_id))
unfolding ingest
ingest-created cfg now email d unseen gone = rw (unseen, ingest, gone) refl

-- Whatever the email did, its id is now received, on the ticket that it was answered with.
ingest-received :
    (cfg : Config) (now : ℕ) (email : InboundEmail) (d : Desk)
    → (ticket_by_message_id (strip_angles email.message_id) (ingest cfg now email d).0.messages
        ≡ some (ingest cfg now email d).1.ticket_id)
      × ((ingest cfg now email d).1.message_id ≡ strip_angles email.message_id)
ingest-received cfg now email d =
    elim (Option-cases (ticket_by_message_id (strip_angles email.message_id) d.messages)) [
      | inr (i, seen) ↦ rw (ingest-deduped cfg now email d i seen) (seen, refl)
      | inl unseen ↦ elim (Option-cases (parent_of email d)) [
        | inr (i, found) ↦
            rw (ingest-threaded cfg now email d i unseen found, thread_onto-messages now i email d)
              (
                ticket_by_message_id-append (strip_angles email.message_id) d.messages
                    (inbound_message d now i email) unseen refl,
                refl,
              )
        | inl gone ↦
            rw (ingest-created cfg now email d unseen gone, open_ticket-messages cfg now email d)
              (
                ticket_by_message_id-append (strip_angles email.message_id) d.messages
                    (inbound_message d now d.next_ticket email) unseen refl,
                refl,
              )
      ]
    ]

-- Receiving an email is idempotent on its Message-ID: right after an email, a delivery of any email
-- under the same id, angle brackets and outer spaces aside, writes nothing, and answers with the ticket
-- of the first.
pub ingest_idempotent :
    (cfg cfg' : Config) (now now' : ℕ) (email again : InboundEmail) (d : Desk)
    → strip_angles again.message_id ≡ strip_angles email.message_id
    → ingest cfg' now' again (ingest cfg now email d).0 ≡ (
      (ingest cfg now email d).0,
      arrived deduped (ingest cfg now email d).1.ticket_id (ingest cfg now email d).1.message_id,
    )
ingest_idempotent cfg cfg' now now' email again d same =
    let (received, named) = ingest-received cfg now email d in
    ingest-deduped cfg' now' again (ingest cfg now email d).0 (ingest cfg now email d).1.ticket_id
      (rw same received)
    ∙ ap
        (λ id.
          ((ingest cfg now email d).0, arrived deduped (ingest cfg now email d).1.ticket_id id))
        (same ∙ sym named)

message_by-id :
    (o : ReplyOrigin) (m : Message)
    → ((message_by o m).message_id ≡ m.message_id) × ((message_by o m).ticket_id ≡ m.ticket_id)
message_by-id (agent author draft) m = (refl, refl)
message_by-id (assistant cited) m = (refl, refl)

reply_message-id :
    (fresh_id : String) (r : Reply) (d : Desk)
    → ((reply_message fresh_id r d).message_id ≡ fresh_id)
      × ((reply_message fresh_id r d).ticket_id ≡ r.ticket_id)
reply_message-id fresh_id r d = message_by-id r.origin _

send_reply-messages :
    (fresh_id : String) (r : Reply) (d : Desk) (t : Ticket)
    → ticket_of r.ticket_id d ≡ some t
    → (send_reply fresh_id r d).0.messages ≡ d.messages ++ reply_message fresh_id r d ∷ []
unfolding send_reply update_ticket
send_reply-messages fresh_id r d t found = ground (arith, found)

stripped-bracketed : (id : String) → stripped (some (bracketed id)) ≡ some id
stripped-bracketed id = rw (bracketed_filled id) (ap some (strip_angles-bracketed id))

-- An email that answers a message of the thread, its id in brackets as a header has it.
parent_of-answered :
    (id : String) (email : InboundEmail) (d : Desk) (i : ℕ)
    → is_empty id ≡ false
    → email.in_reply_to ≡ some (bracketed id)
    → ticket_by_message_id id d.messages ≡ some i
    → parent_of email d ≡ some i
unfolding find_parent_ticket_id first_parent
parent_of-answered id email d i named answers found =
    rw (answers, stripped-bracketed id, named) (rw (found, first_parent) refl)

-- A customer's answer to a reply lands on the thread of the reply: once a reply is sent on a ticket
-- that is there, under a message id that is not empty and that no message had, an email that names
-- that id, in brackets, as what it answers, and whose own id was not received, is appended to that
-- ticket and opens no other.
pub send_reply-threads :
    (cfg : Config) (now : ℕ) (fresh_id : String) (r : Reply) (email : InboundEmail) (d : Desk)
    (t : Ticket)
    → ticket_of r.ticket_id d ≡ some t
    → is_empty fresh_id ≡ false
    → ticket_by_message_id fresh_id d.messages ≡ none
    → email.in_reply_to ≡ some (bracketed fresh_id)
    → ticket_by_message_id (strip_angles email.message_id) (send_reply fresh_id r d).0.messages
      ≡ none
    → ingest cfg now email (send_reply fresh_id r d).0 ≡ (
      thread_onto now r.ticket_id email (send_reply fresh_id r d).0,
      arrived threaded r.ticket_id (strip_angles email.message_id),
    )
send_reply-threads cfg now fresh_id r email d t found named fresh answers unseen =
    ingest-threaded cfg now email (send_reply fresh_id r d).0 r.ticket_id unseen (
      parent_of-answered fresh_id email (send_reply fresh_id r d).0 r.ticket_id named answers (
        rw (send_reply-messages fresh_id r d t found) (
          ticket_by_message_id-append fresh_id d.messages (reply_message fresh_id r d) fresh
            (reply_message-id fresh_id r d).0
          ∙ ap some (reply_message-id fresh_id r d).1)))

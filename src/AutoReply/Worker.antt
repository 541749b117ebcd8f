-- ===== src/AutoReply/Worker.antt =====
-- The handler, the recovery sweep and the dead-letter repair of apps/api/src/jobs/auto-reply-ticket.ts.
-- What others do to the desk while the handler waits is a function on the desk: `meanwhile` during
-- the model call, `between` inside the resolving transaction. The model's answer is a function of
-- what the handler hands over.
use ticket_manager_system.Common.{
  ℕ, ◌+◌, ◌*◌, String, Bool, not, ◌&&◌, Option, none, some, List, [], ◌∷◌, ltb, leb, ◌==◌, is_none,
  if◌then◌else◌, length, filter, any, take, head?,
}
use ticket_manager_system.Shared.{
  TicketStatus, AutoReplyDecline, ActivityAction, EventField, Failure, status_eq, category_eq,
  option_eq, status_text, is_outbound, is_inbound, is_retryable,
}
use ticket_manager_system.Text.{trim, is_empty}
use ticket_manager_system.Desk.{Ticket, Message, Article, Desk, Config}
use ticket_manager_system.Desk.Age.{by_created}
use ticket_manager_system.Desk.Write.{
  ticket_of, update_ticket, count_ticket, publish_pipeline_changed, publish_ticket_updated,
  publish_ticket_message, write_activity, thread_of,
}
use ticket_manager_system.Gates.{gate_decline}
use ticket_manager_system.Automation.{assistant_user, id_of}
use ticket_manager_system.Activity.{assistant_actor}
use ticket_manager_system.Outbound.{SendResult, send_reply, assistant, sent, no_such_ticket}
use ticket_manager_system.AutoReply.{
  to_new, to_open, auto_reply_articles, enqueue_auto_reply, assign_if_unowned, is_processing,
  release,
}

pub data Answer : Type 0 where
  replied : (reply : String) (article_ids : List String) → Answer
  failed : (reason : Failure) (decline : AutoReplyDecline) → Answer

-- Whether a job is closed, or thrown back for another attempt.
pub data Exit : Type 0 where
  done retry : Exit

abbrev pub is_claimable : Ticket → Bool
is_claimable t = status_eq t.status TicketStatus.new && is_none t.assigned_to_id

-- The claim: a new ticket that nobody owns, and no other.
abbrev pub claim : ℕ → ℕ → Desk → Desk
claim now i d =
    publish_pipeline_changed now i
      (update_ticket now i is_claimable (λ t. record t { status = TicketStatus.processing }) d)

-- `text?.trim() || null`
abbrev pub filled : Option String → Option String
filled none = none
filled (some s) = let cleaned = trim s in if is_empty cleaned then none else some cleaned

abbrev pub inbound_of : List Message → List Message
inbound_of = filter (λ m. is_inbound m.direction)

abbrev text_of : Option Message → Option String
text_of none = none
text_of (some m) = m.text_body

-- The first email's text.
abbrev pub opening_text : List Message → Option String
opening_text messages = filled (text_of (head? (inbound_of messages)))

-- `declineFor`: the gates, asked of a ticket and its thread.
unfoldable pub decline_for : Ticket → List Message → Option AutoReplyDecline
decline_for t messages = gate_decline (record {
  category = t.category;
  has_outbound = any (λ m. is_outbound m.direction) messages;
  inbound_count = length (inbound_of messages);
})

-- `AUTO_REPLY_DECLINE.followUp` where no gate names a reason.
abbrev or_follow_up : Option AutoReplyDecline → AutoReplyDecline
or_follow_up none = AutoReplyDecline.follow_up
or_follow_up (some decline) = decline

-- The ticket as the resolving write wants it: claimed still, and the version that was answered.
abbrev pub is_answered_version : Ticket → Ticket → Bool
is_answered_version t now =
    status_eq now.status TicketStatus.processing
    && (now.last_message_at == t.last_message_at && option_eq category_eq now.category t.category)

abbrev pub resolved_row : ℕ → Ticket → Ticket
resolved_row sent_at t = record t {
  status = TicketStatus.resolved;
  auto_resolved_at = some sent_at;
  auto_reply_decline = none;
  auto_reply_declined_at = none;
}

-- The reply was not written: released for the reason the thread now gives, where the claim still
-- stands, and left alone where it does not.
unfoldable pub discard : ℕ → ℕ → Desk → Desk
unfolding decline_for
discard now i d = elim (ticket_of i d) [
  | none ↦ d
  | some after ↦
      if is_processing after
      then release now i to_open (some (or_follow_up (decline_for after (thread_of i d)))) d
      else d
]

-- After the transaction: the owner, the entry, the events.
unfoldable pub conclude : ℕ → ℕ → Desk → Desk
conclude now i d =
    let owned = assign_if_unowned now i (id_of (assistant_user d)) d in
    publish_ticket_message now i (
      publish_ticket_updated now i (EventField.status ∷ EventField.assignee ∷ []) (
        publish_pipeline_changed now i (
          write_activity now i
            (record {
              action = ActivityAction.auto_resolved;
              from_value = none;
              to_value = some (status_text TicketStatus.resolved);
            })
            (assistant_actor owned) owned)))

module _ (between : Desk → Desk) (fresh_id : String) (now i : ℕ) where
  -- A transaction whose reply finds no ticket throws, and is rolled back.
  abbrev pub after_send : Desk → Desk × SendResult → Desk × Exit
  after_send before (d, sent message) = (conclude now i d, done)
  after_send before (d, no_such_ticket) = (before, retry)

  -- The write that resolves, and the reply in the same transaction.
  unfoldable pub resolve : Ticket → String → List String → Desk → Desk × Exit
  unfolding conclude discard
  resolve t reply article_ids d =
      if not (count_ticket i (is_answered_version t) d)
      then (discard now i d, done)
      else after_send d (
          send_reply fresh_id
            (record {
              ticket_id = i;
              text_body = reply;
              origin = assistant article_ids;
              sent_at = now;
            })
            (update_ticket now i (is_answered_version t) (resolved_row now) d))

  abbrev pub overtaken : Option Ticket → Desk → Option AutoReplyDecline
  overtaken none d = none
  overtaken (some now_read) d = decline_for now_read (thread_of i d)

  -- What is done with the model's answer.
  unfoldable pub settle : Ticket → Answer → Desk → Desk × Exit
  unfolding resolve
  settle t (failed reason decline) d =
      if is_retryable reason
      then (release now i to_new none d, retry)
      else (release now i to_open (some decline) d, done)
  settle t (replied reply article_ids) d = elim (overtaken (ticket_of i d) d) [
    | some decline ↦ (release now i to_open (some decline) (between d), done)
    | none ↦ resolve t reply article_ids (between d)
  ]

  module _ (auto_reply : List Article → String → Option String → String → Answer)
      (meanwhile : Desk → Desk) where
    -- The claimed ticket: gated, or answered by the model and settled.
    unfoldable pub attempt : Ticket → Desk → Desk × Exit
    unfolding settle decline_for
    attempt t d = elim (decline_for t (thread_of i d)) [
      | some decline ↦ (release now i to_open (some decline) d, done)
      | none ↦
          settle t
            (auto_reply (auto_reply_articles d) t.subject (opening_text (thread_of i d))
              t.customer_name)
            (meanwhile d)
    ]

    -- `handle`: the claim decides whether anything happens at all.
    unfoldable pub handle : Desk → Desk × Exit
    unfolding attempt
    handle d =
        if not (count_ticket i is_claimable d)
        then (d, done)
        else elim (ticket_of i (claim now i d)) [
          | none ↦ (claim now i d, done)
          | some t ↦ attempt t (claim now i d)
        ]

-- `onExhausted`
unfoldable pub on_exhausted : ℕ → ℕ → Desk → Desk
on_exhausted now i d = release now i to_open (some AutoReplyDecline.unavailable) d

abbrev pub processing_stale_ms : ℕ
processing_stale_ms = 5 * 60 * 1000

abbrev pub recover_max_age_ms : ℕ
recover_max_age_ms = 24 * 60 * 60 * 1000

abbrev pub recover_batch : ℕ
recover_batch = 50

-- A claim that outlived its worker, on a ticket of the last day.
abbrev pub is_stuck : ℕ → Ticket → Bool
is_stuck now t =
    status_eq t.status TicketStatus.processing
    && (ltb (t.updated_at + processing_stale_ms) now && leb now (t.created_at + recover_max_age_ms))

unfoldable pub stuck : ℕ → Desk → List Ticket
unfolding by_created
stuck now d = take recover_batch (by_created (filter (is_stuck now) d.tickets))

unfoldable pub recover_each : Config → ℕ → List Ticket → Desk → Desk
recover_each cfg now [] d = d
recover_each cfg now (t ∷ ts) d =
    recover_each cfg now ts (enqueue_auto_reply cfg now t.id (release now t.id to_new none d))

-- `recoverStuck`
unfoldable pub recover_stuck : Config → ℕ → Desk → Desk
unfolding stuck recover_each
recover_stuck cfg now d = recover_each cfg now (stuck now d) d

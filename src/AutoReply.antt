-- ===== src/AutoReply.antt =====
-- Answering a ticket unattended: apps/api/src/jobs/auto-reply-ticket.ts, its enqueueing here and its
-- handler in the child `Worker`.
pub mod Worker
pub mod Safety
pub mod Sent
pub mod Claim
pub mod Gated
pub mod Answered
pub mod Recovery
pub mod Drafting
pub mod Cited
pub mod Grounded
pub mod Unattended
use ticket_manager_system.Common.{
  ℕ, ◌+◌, ◌*◌, ◌<◌, String, Bool, true, false, not, ◌&&◌, ◌||◌, Option, none, some, List, [], ◌∷◌,
  ltb, leb, ◌==◌, is_some, is_none, if◌then◌else◌, length, filter, any,
}
use ticket_manager_system.Shared.{
  TicketStatus, AutoReplyDecline, ActivityAction, EventField, status_eq, decline_text, is_outbound,
  is_inbound,
}
use ticket_manager_system.Desk.{Ticket, Message, Article, Desk, Config, Job, auto_reply_ticket}
use ticket_manager_system.Desk.Write.{
  update_ticket, count_ticket, publish_pipeline_changed, publish_ticket_updated, send_job,
  write_activity,
}
use ticket_manager_system.Automation.{resolve_handoff}
use ticket_manager_system.Activity.{assistant_actor}

-- `autoReplyArticles`; the table is in the order of the ids.
abbrev pub auto_reply_articles : Desk → List Article
auto_reply_articles d = filter (λ a. not a.archived && a.auto_reply) d.articles

-- `autoReplyEnabled`
unfoldable pub auto_reply_enabled : Config → Desk → Bool
auto_reply_enabled cfg d =
    if not cfg.auto_reply_on
    then false
    else if not cfg.ai_configured
    then false
    else ltb 0 (length (auto_reply_articles d))

-- `enqueueAutoReply`: the stamp and the job together, the first stamp kept.
unfoldable pub enqueue_auto_reply : Config → ℕ → ℕ → Desk → Desk
unfolding auto_reply_enabled
enqueue_auto_reply cfg now i d =
    if not (auto_reply_enabled cfg d)
    then d
    else send_job (auto_reply_ticket i) (
        update_ticket now i (λ t. is_none t.auto_reply_offered_at)
          (λ t. record t { auto_reply_offered_at = some now }) d)

-- `autoReplyWillStillAct`, asked of a ticket and its messages.
abbrev pub auto_reply_will_still_act : List Message → Ticket → Bool
auto_reply_will_still_act messages t =
    is_some t.auto_reply_offered_at
    && (is_none t.auto_resolved_at
        && (is_none t.auto_reply_decline
            && (not (any (λ m. m.ticket_id == t.id && is_outbound m.direction) messages)
                || status_eq t.status TicketStatus.processing)))

-- `assignIfUnowned`
unfoldable pub assign_if_unowned : ℕ → ℕ → Option ℕ → Desk → Desk
assign_if_unowned now i none d = d
assign_if_unowned now i (some user) d =
    update_ticket now i (λ t. is_none t.assigned_to_id)
      (λ t. record t { assigned_to_id = some user }) d

-- Where a ticket is released to: `"New" | "Open"`.
pub data Released : Type 0 where
  to_new to_open : Released

abbrev pub released_status : Released → TicketStatus
released_status to_new = TicketStatus.new
released_status to_open = TicketStatus.opened

abbrev pub is_processing : Ticket → Bool
is_processing t = status_eq t.status TicketStatus.processing

-- The released row, its decline kept where none is given.
abbrev pub release_row : ℕ → TicketStatus → Option AutoReplyDecline → Ticket → Ticket
release_row now status none t = record t { status = status }
release_row now status (some decline) t = record t {
  status = status;
  auto_reply_decline = some decline;
  auto_reply_declined_at = some now;
}

abbrev pub record_decline : ℕ → ℕ → Option AutoReplyDecline → Desk → Desk
record_decline now i none d = d
record_decline now i (some decline) d =
    write_activity now i
      (record {
        action = ActivityAction.auto_declined;
        from_value = none;
        to_value = some (decline_text decline);
      })
      (assistant_actor d) d

-- What a release to `Open` does further, where it wrote.
abbrev pub hand_back : ℕ → ℕ → Released → Option AutoReplyDecline → Desk → Desk
hand_back now i to_new decline d = d
hand_back now i to_open decline d =
    publish_ticket_updated now i (EventField.status ∷ EventField.assignee ∷ [])
      (record_decline now i decline (assign_if_unowned now i (resolve_handoff d) d))

-- `release`: nothing happens unless the ticket is still in `Processing`.
unfoldable pub release : ℕ → ℕ → Released → Option AutoReplyDecline → Desk → Desk
unfolding assign_if_unowned
release now i to decline d =
    if not (count_ticket i is_processing d)
    then d
    else hand_back now i to decline (
        publish_pipeline_changed now i
          (update_ticket now i is_processing (release_row now (released_status to) decline) d))

-- ===== src/AutoReply/Safety.antt =====
-- Statuses and the outbox through a release of apps/api/src/jobs/auto-reply-ticket.ts.
use ticket_manager_system.Common.{
  ℕ, ◌≡◌, ◌≢◌, refl, inl, inr, true, false, Option, none, some, arith, Bool-cases, Option-cases,
  is_none,
}
use ticket_manager_system.Shared.{TicketStatus, AutoReplyDecline}
use ticket_manager_system.Desk.{Ticket, Desk}
use ticket_manager_system.Desk.Write.{
  ticket_of, count_ticket, update_ticket, publish_pipeline_changed, ticket_of-update_ticket,
}
use ticket_manager_system.Automation.{resolve_handoff}
use ticket_manager_system.AutoReply.{
  Released, to_new, to_open, released_status, is_processing, release, release_row,
  assign_if_unowned, hand_back,
}

abbrev pub status_in : Option Ticket → Option TicketStatus
status_in none = none
status_in (some t) = some t.status

abbrev pub status_at : ℕ → Desk → Option TicketStatus
status_at i d = status_in (ticket_of i d)

pub assign_if_unowned-status :
    (now i : ℕ) (user : Option ℕ) (d : Desk)
    → status_at i (assign_if_unowned now i user d) ≡ status_at i d
unfolding assign_if_unowned
assign_if_unowned-status now i none d = refl
assign_if_unowned-status now i (some u) d = ground (
  arith,
  ticket_of-update_ticket now i (λ t. is_none t.assigned_to_id)
      (λ t. record t { assigned_to_id = some u }) (λ t. refl) d,
)

pub release-outbox :
    (now i : ℕ) (to : Released) (decline : Option AutoReplyDecline) (d : Desk)
    → (release now i to decline d).outbox ≡ d.outbox
unfolding release update_ticket
release-outbox now i to decline d = ground arith

hand_back-status :
    (now i : ℕ) (to : Released) (decline : Option AutoReplyDecline) (d : Desk)
    → status_at i (hand_back now i to decline d) ≡ status_at i d
hand_back-status now i to_new decline d = refl
hand_back-status now i to_open none d = assign_if_unowned-status now i (resolve_handoff d) d
hand_back-status now i to_open (some x) d = assign_if_unowned-status now i (resolve_handoff d) d

release_row-id :
    (now : ℕ) (status : TicketStatus) (decline : Option AutoReplyDecline) (t : Ticket)
    → (release_row now status decline t).id ≡ t.id
release_row-id now status none t = refl
release_row-id now status (some x) t = refl

release_row-status :
    (now : ℕ) (status : TicketStatus) (decline : Option AutoReplyDecline) (t : Ticket)
    → (release_row now status decline t).status ≡ status
release_row-status now status none t = refl
release_row-status now status (some x) t = refl

-- The row that a release leaves.
module _ (now i : ℕ) (to : Released) (decline : Option AutoReplyDecline) (d : Desk) where
  row : Ticket → Ticket
  row = release_row now (released_status to) decline

  released : Desk
  unfolding row
  released = update_ticket now i is_processing row d

  released-status :
      (t : Ticket)
      → ticket_of i d ≡ some t
      → is_processing t ≡ true
      → status_at i released ≡ some (released_status to)
  unfolding released
  released-status t e p = ground (
    arith,
    ticket_of-update_ticket now i is_processing row
        (release_row-id now (released_status to) decline) d,
    release_row-status now (released_status to) decline t,
  )

  pub release_held : count_ticket i is_processing d ≡ false → release now i to decline d ≡ d
  unfolding release
  release_held h = rw h

  release_freed :
      count_ticket i is_processing d ≡ true
      → release now i to decline d
        ≡ hand_back now i to decline (publish_pipeline_changed now i released)
  unfolding release released
  release_freed h = rw h

  released_status-free : released_status to ≢ TicketStatus.processing
  released_status-free e = ground arith

  -- A released ticket is no longer claimed.
  pub release-status : status_at i (release now i to decline d) ≢ some TicketStatus.processing
  release-status = elim (Option-cases (ticket_of i d)) [
    | inl gone ↦ λ e. ground (arith, release_held)
    | inr (t, found) ↦ elim (Bool-cases (is_processing t)) [
      | inl p ↦ λ e. released_status-free (
          ground (
            arith,
            release_freed,
            hand_back-status now i to decline (publish_pipeline_changed now i released),
            released-status t,
          ))
      | inr p ↦ λ e. ground (arith, release_held)
    ]
  ]

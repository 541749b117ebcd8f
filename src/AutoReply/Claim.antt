-- ===== src/AutoReply/Claim.antt =====
-- How long a claim on a ticket, `Processing`, lasts:
-- apps/api/src/jobs/auto-reply-ticket.ts.
use ticket_manager_system.Common.{
  ℕ, String, ◌≡◌, ◌≢◌, refl, ◌∙◌, inl, inr, true, Option, none, some, List, arith, Bool-cases,
  Option-cases,
}
use ticket_manager_system.Shared.{TicketStatus, is_retryable}
use ticket_manager_system.Desk.{Ticket, Message, Article, Desk}
use ticket_manager_system.Desk.Write.{
  ticket_of, count_ticket, update_ticket, touched, insert_message, ticket_of-update_ticket,
  thread_of,
}
use ticket_manager_system.Automation.{assistant_user, id_of}
use ticket_manager_system.Outbound.{
  SendResult, Reply, assistant, is_demo, send_reply, reply_message, sent, no_such_ticket,
}
use ticket_manager_system.AutoReply.{to_new, to_open, is_processing}
use ticket_manager_system.AutoReply.Worker.{
  Answer, replied, failed, done, is_claimable, claim, decline_for, is_answered_version,
  resolved_row, discard, conclude, after_send, overtaken, resolve, settle, attempt, handle,
}
use ticket_manager_system.AutoReply.Safety.{status_at, assign_if_unowned-status, release-status}
use ticket_manager_system.AutoReply.Sent.{IsSent, IsSent-from, send_reply-IsSent}

-- The claim on the ticket is given up.
abbrev pub IsFree : ℕ → Desk → Type 0
IsFree i d = status_at i d ≢ some TicketStatus.processing

discard-IsFree : (now i : ℕ) (d : Desk) → IsFree i (discard now i d)
unfolding discard
discard-IsFree now i d = elim (Option-cases (ticket_of i d)) [
  | inl gone ↦ rw (gone, discard) (λ e. ground arith)
  | inr (t, found) ↦ elim (Bool-cases (is_processing t)) [
    | inl p ↦ rw (found, discard) (rw p (release-status now i to_open _ d))
    | inr p ↦ rw (found, discard) (rw p (λ e. ground arith))
  ]
]

pub conclude-status : (now i : ℕ) (d : Desk) → status_at i (conclude now i d) ≡ status_at i d
unfolding conclude
conclude-status now i d = assign_if_unowned-status now i (id_of (assistant_user d)) d

-- Sending a reply on a ticket that is there.
send_reply-found :
    (fresh_id : String) (r : Reply) (d : Desk) (t : Ticket)
    → ticket_of r.ticket_id d ≡ some t
    → (status_at r.ticket_id (send_reply fresh_id r d).0 ≡ some t.status)
      × ((send_reply fresh_id r d).1 ≡ sent (reply_message fresh_id r d))
unfolding send_reply
send_reply-found fresh_id r d t e =
    let u =
      ticket_of-update_ticket r.sent_at r.ticket_id (λ _. true)
        (λ t. record t { last_message_at = r.sent_at }) (λ t. refl)
        (insert_message (reply_message fresh_id r d) d) in
    elim (Bool-cases (is_demo r.origin)) [
      | inl demo ↦ rw (e, send_reply) (rw demo (rw (u, e) refl, refl))
      | inr live ↦ rw (e, send_reply) (rw live (rw (u, e) refl, refl))
    ]

module _ (between : Desk → Desk) (fresh_id : String) (now i : ℕ) where
  after_send-sent :
      (before : Desk) (p : Desk × SendResult) (m : Message)
      → p.1 ≡ sent m
      → after_send between fresh_id now i before p ≡ (conclude now i p.0, done)
  after_send-sent before (d, sent x) m e = refl
  after_send-sent before (d, no_such_ticket) m e = absurd (cc)

  -- The write that resolves, on the ticket that it finds.
  resolve_write : Ticket → Desk → Desk
  resolve_write t d = update_ticket now i (is_answered_version t) (resolved_row now) d

  pub resolve-answered :
      (t : Ticket) (reply : String) (ids : List String) (d : Desk) (x : Ticket)
      → ticket_of i d ≡ some x
      → is_answered_version t x ≡ true
      → (d' : Desk) × (resolve between fresh_id now i t reply ids d ≡ (conclude now i d', done))
        × (status_at i d' ≡ some TicketStatus.resolved)
        × IsSent i x.customer_email reply ids d d'
  unfolding resolve resolve_write is_demo update_ticket
  resolve-answered t reply ids d x found p = (
    (send_reply fresh_id r w).0,
    rw answer (after_send-sent d (send_reply fresh_id r w) (reply_message fresh_id r w) s.1),
    s.0,
    carried (send_reply-IsSent fresh_id now i reply ids w (touched now (resolved_row now) x) row),
  )
    where
      w : Desk
      w = resolve_write t d

      r : Reply
      r = record { ticket_id = i; text_body = reply; origin = assistant ids; sent_at = now }

      carried :
          IsSent i x.customer_email reply ids w (send_reply fresh_id r w).0
          → IsSent i x.customer_email reply ids d (send_reply fresh_id r w).0
      carried e =
          IsSent-from i x.customer_email reply ids w d (send_reply fresh_id r w).0 refl refl e

      answer : count_ticket i (is_answered_version t) d ≡ true
      answer = rw found p

      row : ticket_of i w ≡ some (touched now (resolved_row now) x)
      row =
          ticket_of-update_ticket now i (is_answered_version t) (resolved_row now) (λ t. refl) d
          ∙ rw found (rw p)

      s :
          (status_at i (send_reply fresh_id r w).0 ≡ some TicketStatus.resolved)
          × ((send_reply fresh_id r w).1 ≡ sent (reply_message fresh_id r w))
      s = send_reply-found fresh_id r w (touched now (resolved_row now) x) row

  resolve-IsFree :
      (t : Ticket) (reply : String) (ids : List String) (d : Desk)
      → IsFree i (resolve between fresh_id now i t reply ids d).0
  unfolding resolve
  resolve-IsFree t reply ids d = elim (Option-cases (ticket_of i d)) [
    | inl gone ↦ rw gone (discard-IsFree now i d)
    | inr (x, found) ↦ elim (Bool-cases (is_answered_version t x)) [
      | inl p ↦
          let a = resolve-answered t reply ids d x found p in
          rw (a.1) (λ e. ground (arith, conclude-status now i a.0, a.2))
      | inr p ↦ rw found (rw p (discard-IsFree now i d))
    ]
  ]

  settle-IsFree :
      (t : Ticket) (a : Answer) (d : Desk) → IsFree i (settle between fresh_id now i t a d).0
  unfolding settle
  settle-IsFree t (failed reason decline) d = elim (Bool-cases (is_retryable reason)) [
    | inl p ↦ rw p (release-status now i to_new none d)
    | inr p ↦ rw p (release-status now i to_open (some decline) d)
  ]
  settle-IsFree t (replied reply ids) d =
      elim (Option-cases (overtaken between fresh_id now i (ticket_of i d) d)) [
        | inl e ↦ rw (e, settle) (resolve-IsFree t reply ids (between d))
        | inr (decline, e) ↦
            rw (e, settle) (release-status now i to_open (some decline) (between d))
      ]

  module _ (auto_reply : List Article → String → Option String → String → Answer)
      (meanwhile : Desk → Desk) where
    attempt-IsFree :
        (t : Ticket) (d : Desk)
        → IsFree i (attempt between fresh_id now i auto_reply meanwhile t d).0
    unfolding attempt
    attempt-IsFree t d = elim (Option-cases (decline_for t (thread_of i d))) [
      | inl e ↦ rw (e, attempt) (settle-IsFree t _ (meanwhile d))
      | inr (decline, e) ↦ rw (e, attempt) (release-status now i to_open (some decline) d)
    ]

    -- A ticket that the handler claims is out of `Processing` again when the handler ends, however
    -- the job ends, whatever the model answers and whatever others do to the desk in the meantime.
    pub handle-IsFree :
        (d : Desk)
        → count_ticket i is_claimable d ≡ true
        → IsFree i (handle between fresh_id now i auto_reply meanwhile d).0
    unfolding handle
    handle-IsFree d c = elim (Option-cases (ticket_of i (claim now i d))) [
      | inl gone ↦ rw (c, gone) (λ e. ground arith)
      | inr (t, found) ↦ rw (c, found) (attempt-IsFree t (claim now i d))
    ]

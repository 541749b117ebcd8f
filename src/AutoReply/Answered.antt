-- ===== src/AutoReply/Answered.antt =====
-- The answer of apps/api/src/jobs/auto-reply-ticket.ts, where nothing is in its way.
use ticket_manager_system.Common.{
  ℕ, String, ◌≡◌, refl, ap, ◌∙◌, true, Option, none, some, List, ==_refl,
}
use ticket_manager_system.Shared.{TicketStatus, TicketCategory, category_eq, option_eq}
use ticket_manager_system.Desk.{Ticket, Article, Desk}
use ticket_manager_system.Desk.Write.{
  ticket_of, touched, update_ticket, ticket_of-update_ticket, thread_of,
}
use ticket_manager_system.AutoReply.{auto_reply_articles}
use ticket_manager_system.AutoReply.Worker.{
  opening_text, Answer, replied, done, is_claimable, claim, decline_for, is_answered_version,
  overtaken, resolve, settle, attempt, handle,
}
use ticket_manager_system.AutoReply.Safety.{status_at}
use ticket_manager_system.AutoReply.Sent.{IsSent, IsSent-from, IsSent-to}
use ticket_manager_system.AutoReply.Claim.{resolve-answered, conclude-status}
use ticket_manager_system.AutoReply.Gated.{conclude-messages, conclude-outbox}

category_eq_refl : (c : Option TicketCategory) → option_eq category_eq c c ≡ true
category_eq_refl none = refl
category_eq_refl (some c) = ==_refl _

abbrev claimed : ℕ → Ticket → Ticket
claimed now t = touched now (λ t. record t { status = TicketStatus.processing }) t

claim-ticket :
    (now i : ℕ) (d : Desk) (t : Ticket)
    → ticket_of i d ≡ some t
    → is_claimable t ≡ true
    → ticket_of i (claim now i d) ≡ some (claimed now t)
claim-ticket now i d t found free =
    ticket_of-update_ticket now i is_claimable (λ t. record t { status = TicketStatus.processing })
      (λ t. refl) d
    ∙ rw (found, free) refl

answered_version_refl :
    (t : Ticket) → t.status ≡ TicketStatus.processing → is_answered_version t t ≡ true
answered_version_refl t e = rw (e, ==_refl t.last_message_at, category_eq_refl t.category) refl

-- What the gates ask and the model is told is not touched by the claim.
claim-gates :
    (now i : ℕ) (d : Desk) (t : Ticket)
    → decline_for t (thread_of i d) ≡ none
    → decline_for (claimed now t) (thread_of i (claim now i d)) ≡ none
unfolding decline_for thread_of update_ticket
claim-gates now i d t e = e

module _ (fresh_id : String) (now i : ℕ)
    (auto_reply : List Article → String → Option String → String → Answer) where
  settle-resolve :
      (t : Ticket) (reply : String) (ids : List String) (d : Desk)
      → overtaken (λ d. d) fresh_id now i (ticket_of i d) d ≡ none
      → settle (λ d. d) fresh_id now i t (replied reply ids) d
        ≡ resolve (λ d. d) fresh_id now i t reply ids d
  unfolding settle
  settle-resolve t reply ids d e = rw (e, settle) refl

  attempt-settle :
      (t : Ticket) (d : Desk)
      → decline_for t (thread_of i d) ≡ none
      → attempt (λ d. d) fresh_id now i auto_reply (λ d. d) t d
        ≡ settle
            (λ d. d)
            fresh_id
            now
            i
            t
            (auto_reply
              (auto_reply_articles d)
              t.subject
              (opening_text (thread_of i d))
              t.customer_name)
            d
  unfolding attempt
  attempt-settle t d e = rw (e, attempt) refl

  handle-attempt :
      (d : Desk) (t c : Ticket)
      → ticket_of i d ≡ some t
      → is_claimable t ≡ true
      → ticket_of i (claim now i d) ≡ some c
      → handle (λ d. d) fresh_id now i auto_reply (λ d. d) d
        ≡ attempt (λ d. d) fresh_id now i auto_reply (λ d. d) c (claim now i d)
  unfolding handle
  handle-attempt d t c found free row = rw (found, free) (rw (row, handle) refl)

  claim-told :
      (d : Desk) (t : Ticket)
      → auto_reply
          (auto_reply_articles (claim now i d))
          t.subject
          (opening_text (thread_of i (claim now i d)))
          t.customer_name
        ≡ auto_reply
            (auto_reply_articles d)
            t.subject
            (opening_text (thread_of i d))
            t.customer_name
  unfolding thread_of update_ticket
  claim-told d t = refl

  -- The delivery comes down to the resolving transaction.
  handle-resolve :
      (d : Desk) (t : Ticket) (reply : String) (ids : List String)
      → ticket_of i d ≡ some t
      → is_claimable t ≡ true
      → decline_for t (thread_of i d) ≡ none
      → auto_reply (auto_reply_articles d) t.subject (opening_text (thread_of i d)) t.customer_name
        ≡ replied reply ids
      → handle (λ d. d) fresh_id now i auto_reply (λ d. d) d
        ≡ resolve (λ d. d) fresh_id now i (claimed now t) reply ids (claim now i d)
  handle-resolve d t reply ids found free gated answer =
      let row = claim-ticket now i d t found free in
      let open_gate = claim-gates now i d t gated in
      handle-attempt d t (claimed now t) found free row
      ∙ attempt-settle (claimed now t) (claim now i d) open_gate
      ∙ ap (λ a. settle (λ d. d) fresh_id now i (claimed now t) a (claim now i d))
          (claim-told d t ∙ answer)
      ∙ settle-resolve (claimed now t) reply ids (claim now i d)
          (ap (λ o. overtaken (λ d. d) fresh_id now i o (claim now i d)) row ∙ open_gate)

  -- The service the job is for: a new ticket that nobody owns, that no gate declines, and that the
  -- model answers, is resolved in one delivery, and one email more, to its customer and with
  -- the answer's text, is in the outbox, behind one message more that keeps the articles the answer
  -- cites, where nobody interferes.
  pub handle-answers :
      (d : Desk) (t : Ticket) (reply : String) (ids : List String)
      → ticket_of i d ≡ some t
      → is_claimable t ≡ true
      → decline_for t (thread_of i d) ≡ none
      → auto_reply (auto_reply_articles d) t.subject (opening_text (thread_of i d)) t.customer_name
        ≡ replied reply ids
      → ((handle (λ d. d) fresh_id now i auto_reply (λ d. d) d).1 ≡ done)
        × ((status_at i (handle (λ d. d) fresh_id now i auto_reply (λ d. d) d).0
              ≡ some TicketStatus.resolved)
            × IsSent i t.customer_email reply ids d
                (handle (λ d. d) fresh_id now i auto_reply (λ d. d) d).0)
  unfolding update_ticket
  handle-answers d t reply ids found free gated answer =
      let run = handle-resolve d t reply ids found free gated answer in
      let a =
        resolve-answered (λ d. d) fresh_id now i (claimed now t) reply ids (claim now i d)
          (claimed now t) (claim-ticket now i d t found free)
          (answered_version_refl (claimed now t) refl) in
      rw (run, a.1)
        (
          refl,
          (
            conclude-status now i a.0 ∙ a.2,
            IsSent-to i t.customer_email reply ids d a.0 _ (conclude-messages now i a.0)
                (conclude-outbox now i a.0)
                (IsSent-from i t.customer_email reply ids (claim now i d) d a.0 refl refl a.3),
          ),
        )

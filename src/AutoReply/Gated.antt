-- ===== src/AutoReply/Gated.antt =====
-- When a customer is written to unattended: apps/api/src/jobs/auto-reply-ticket.ts behind the gates
-- of apps/api/src/ai/auto-reply-gates.ts.
use ticket_manager_system.Common.{
  ℕ, String, ◌≡◌, refl, sym, ap, ap₂, ◌∙◌, ◌⊎◌, inl, inr, true, false, Option, none, some, List,
  arith, Bool-cases, Option-cases,
}
use ticket_manager_system.Shared.{TicketStatus, AutoReplyDecline, is_retryable}
use ticket_manager_system.Desk.{Ticket, Article, Desk}
use ticket_manager_system.Desk.Write.{ticket_of, count_ticket, update_ticket, thread_of}
use ticket_manager_system.Gates.{may_answer, gate_decline-none_iff}
use ticket_manager_system.AutoReply.{
  auto_reply_articles, to_new, to_open, is_processing, assign_if_unowned,
}
use ticket_manager_system.AutoReply.Worker.{
  opening_text, Answer, replied, failed, Exit, is_claimable, claim, decline_for,
  is_answered_version, discard, conclude, overtaken, resolve, settle, attempt, handle,
}
use ticket_manager_system.AutoReply.Safety.{status_at, release-outbox}
use ticket_manager_system.AutoReply.Sent.{IsSent, IsSent-to}
use ticket_manager_system.AutoReply.Claim.{resolve-answered, conclude-status}

assign_if_unowned-outbox :
    (now i : ℕ) (user : Option ℕ) (d : Desk) → (assign_if_unowned now i user d).outbox ≡ d.outbox
unfolding assign_if_unowned update_ticket
assign_if_unowned-outbox now i none d = refl
assign_if_unowned-outbox now i (some u) d = refl

assign_if_unowned-messages :
    (now i : ℕ) (user : Option ℕ) (d : Desk)
    → (assign_if_unowned now i user d).messages ≡ d.messages
unfolding assign_if_unowned update_ticket
assign_if_unowned-messages now i none d = refl
assign_if_unowned-messages now i (some u) d = refl

pub conclude-messages : (now i : ℕ) (d : Desk) → (conclude now i d).messages ≡ d.messages
unfolding conclude
conclude-messages now i d = assign_if_unowned-messages now i _ d

pub conclude-outbox : (now i : ℕ) (d : Desk) → (conclude now i d).outbox ≡ d.outbox
unfolding conclude
conclude-outbox now i d = assign_if_unowned-outbox now i _ d

discard-outbox : (now i : ℕ) (d : Desk) → (discard now i d).outbox ≡ d.outbox
unfolding discard
discard-outbox now i d = elim (Option-cases (ticket_of i d)) [
  | inl gone ↦ rw (gone, discard)
  | inr (t, found) ↦ elim (Bool-cases (is_processing t)) [
    | inl p ↦ rw (found, discard) (rw p (release-outbox now i to_open _ d))
    | inr p ↦ rw (found, discard) (rw p)
  ]
]

-- One email behind those of the desk `d`, to the customer of a ticket that a machine may answer there
-- and whose claim still stood, which is resolved by it; `Says` holds of its text and of the articles
-- that its message keeps as cited.
pub record Mailed (Says : String → List String → Type 0) (i : ℕ) (d after : Desk) : Type 0 where
  pub x : Ticket
  pub found : ticket_of i d ≡ some x
  pub claimed : x.status ≡ TicketStatus.processing
  pub answerable : may_answer x.category ≡ true
  pub text : String
  pub ids : List String
  pub says : Says text ids
  pub delivered : IsSent i x.customer_email text ids d after
  pub settled : status_at i after ≡ some TicketStatus.resolved

-- What a handler leaves in the outbox: what one of three desks had, or an email behind the last,
-- where the thread that was read names no reason to decline.
abbrev pub Outcome :
    (String → List String → Type 0)
    → ℕ
    → Desk
    → Desk
    → Desk
    → Option AutoReplyDecline
    → Desk
    → Type 0
Outcome Says i d read write reason after =
    ((after.outbox ≡ d.outbox) ⊎ (after.outbox ≡ read.outbox) ⊎ (after.outbox ≡ write.outbox))
    ⊎ (Mailed Says i write after × (reason ≡ none))

pub Mailed-map :
    {P Q : String → List String → Type 0}
    → {i : ℕ} → {d after : Desk} → ((text : String) (ids : List String) → P text ids → Q text ids)
    → Mailed P i d after
    → Mailed Q i d after
Mailed-map f m = record {
  x = m.x;
  found = m.found;
  claimed = m.claimed;
  answerable = m.answerable;
  text = m.text;
  ids = m.ids;
  says = f m.text m.ids m.says;
  delivered = m.delivered;
  settled = m.settled;
}

pub on_mailed {ℓ} : {K M N R : Type ℓ} → (M → N) → (K ⊎ (M × R)) → (K ⊎ (N × R))
on_mailed f (inl kept) = inl kept
on_mailed f (inr (mailed, reason)) = inr (f mailed, reason)

later {ℓ} : {a b c x : Type ℓ} → ((a ⊎ b) ⊎ c) → ((x ⊎ a ⊎ b) ⊎ c)
later (inl h) = inl (inr h)
later (inr h) = inr h

module _ (between : Desk → Desk) (fresh_id : String) (now i : ℕ) where
  version_answerable :
      (t x : Ticket)
      → may_answer t.category ≡ true
      → is_answered_version t x ≡ true
      → (x.status ≡ TicketStatus.processing) × (may_answer x.category ≡ true)
  version_answerable t x m v = (ground arith, ground arith)

  refused-outbox :
      (t : Ticket) (reply : String) (ids : List String) (d : Desk)
      → count_ticket i (is_answered_version t) d ≡ false
      → (resolve between fresh_id now i t reply ids d).0.outbox ≡ d.outbox
  unfolding resolve
  refused-outbox t reply ids d c = rw c (discard-outbox now i d)

  resolve-Mailed :
      (t : Ticket) (reply : String) (ids : List String) (d : Desk)
      → may_answer t.category ≡ true
      → ((resolve between fresh_id now i t reply ids d).0.outbox ≡ d.outbox)
        ⊎ Mailed
            (λ text cited. (text ≡ reply) × (cited ≡ ids))
            i
            d
            (resolve between fresh_id now i t reply ids d).0
  resolve-Mailed t reply ids d m = elim (Option-cases (ticket_of i d)) [
    | inl gone ↦ inl (refused-outbox t reply ids d (rw gone))
    | inr (x, found) ↦ elim (Bool-cases (is_answered_version t x)) [
      | inl p ↦ inr (mailed x found p)
      | inr p ↦ inl (refused-outbox t reply ids d (rw found p))
    ]
  ]
    where
      mailed :
          (x : Ticket)
          → ticket_of i d ≡ some x
          → is_answered_version t x ≡ true
          → Mailed
              (λ text cited. (text ≡ reply) × (cited ≡ ids))
              i
              d
              (resolve between fresh_id now i t reply ids d).0
      mailed x found p =
          let a = resolve-answered between fresh_id now i t reply ids d x found p in
          let fits = version_answerable t x m p in
          let after : (resolve between fresh_id now i t reply ids d).0 ≡ conclude now i a.0 =
            ap (λ (r : Desk × Exit). r.0) a.1 in
          record {
            x = x;
            found = found;
            claimed = fits.0;
            answerable = fits.1;
            text = reply;
            ids = ids;
            says = (refl, refl);
            delivered =
                IsSent-to i x.customer_email reply ids d a.0 _
                  (ap (λ (s : Desk). s.messages) after ∙ conclude-messages now i a.0)
                  (ap (λ (s : Desk). s.outbox) after ∙ conclude-outbox now i a.0) a.3;
            settled = ap (status_at i) after ∙ conclude-status now i a.0 ∙ a.2;
          }

  settle-Mailed :
      (t : Ticket) (a : Answer) (d : Desk)
      → may_answer t.category ≡ true
      → (((settle between fresh_id now i t a d).0.outbox ≡ d.outbox)
          ⊎ ((settle between fresh_id now i t a d).0.outbox ≡ (between d).outbox))
        ⊎ (Mailed
              (λ text ids. a ≡ replied text ids)
              i
              (between d)
              (settle between fresh_id now i t a d).0
            × (overtaken between fresh_id now i (ticket_of i d) d ≡ none))
  unfolding settle
  settle-Mailed t (failed reason decline) d m = elim (Bool-cases (is_retryable reason)) [
    | inl p ↦ rw p (inl (inl (release-outbox now i to_new none d)))
    | inr p ↦ rw p (inl (inl (release-outbox now i to_open (some decline) d)))
  ]
  settle-Mailed t (replied reply ids) d m =
      elim (Option-cases (overtaken between fresh_id now i (ticket_of i d) d)) [
        | inl e ↦
            rw (e, settle)
              (elim (resolve-Mailed t reply ids (between d) m) [
                | inl kept ↦ inl (inr kept)
                | inr mailed ↦ inr (
                  Mailed-map (λ text cited (said, kept). sym (ap₂ replied said kept)) mailed,
                  refl,
                )
              ])
        | inr (decline, e) ↦
            rw (e, settle) (inl (inr (release-outbox now i to_open (some decline) (between d))))
      ]

  decline_for-answerable :
      (t : Ticket) (d : Desk) → decline_for t (thread_of i d) ≡ none → may_answer t.category ≡ true
  unfolding decline_for
  decline_for-answerable t d e = ((gate_decline-none_iff _).0 e).0

  module _ (auto_reply : List Article → String → Option String → String → Answer)
      (meanwhile : Desk → Desk) where
    -- The desk that the transaction reads, and the one that its write finds.
    abbrev pub read_desk : Desk → Desk
    read_desk d = meanwhile (claim now i d)

    abbrev pub write_desk : Desk → Desk
    write_desk d = between (read_desk d)

    -- The model's answer to a ticket, from the articles of the desk.
    abbrev pub answer_to : Ticket → Desk → Answer
    answer_to t d =
        auto_reply (auto_reply_articles d) t.subject (opening_text (thread_of i d)) t.customer_name

    -- The text that the model answered to the claimed ticket, and the articles that it cites.
    abbrev pub IsAnswer : Desk → String → List String → Type 0
    IsAnswer d text ids =
        (t : Ticket) × (ticket_of i (claim now i d) ≡ some t)
        × (answer_to t (claim now i d) ≡ replied text ids)

    claim-outbox : (d : Desk) → (claim now i d).outbox ≡ d.outbox
    unfolding update_ticket
    claim-outbox d = refl

    attempt-Mailed :
        (t : Ticket) (d : Desk)
        → Outcome
            (λ text ids. answer_to t d ≡ replied text ids)
            i
            d
            (meanwhile d)
            (between (meanwhile d))
            (overtaken between fresh_id now i (ticket_of i (meanwhile d)) (meanwhile d))
            (attempt between fresh_id now i auto_reply meanwhile t d).0
    unfolding attempt
    attempt-Mailed t d = elim (Option-cases (decline_for t (thread_of i d))) [
      | inl e ↦
          rw (e, attempt)
            (later (
              settle-Mailed t
                (auto_reply (auto_reply_articles d) t.subject (opening_text (thread_of i d))
                  t.customer_name)
                (meanwhile d) (decline_for-answerable t d e)))
      | inr (decline, e) ↦
          rw (e, attempt) (inl (inl (release-outbox now i to_open (some decline) d)))
    ]

    -- Whatever the model answers and others do, the handler leaves the outbox as it finds it at one
    -- of its steps, or puts one email behind it. That it does only where the resolving transaction
    -- read a thread that no gate declines, and its write found the ticket claimed still and in a
    -- category that a machine may answer, so never `Refund` nor none; the email goes to that
    -- ticket's customer and says what the model answered to the ticket as it was claimed, its message
    -- keeps the articles that the answer cites, and the ticket is resolved by it.
    pub handle-Mailed :
        (d : Desk)
        → Outcome
            (IsAnswer d)
            i
            d
            (read_desk d)
            (write_desk d)
            (overtaken between fresh_id now i (ticket_of i (read_desk d)) (read_desk d))
            (handle between fresh_id now i auto_reply meanwhile d).0
    unfolding handle update_ticket
    handle-Mailed d = elim (Bool-cases (count_ticket i is_claimable d)) [
      | inl c ↦ elim (Option-cases (ticket_of i (claim now i d))) [
        | inl gone ↦ rw (c, gone) (inl (inl (claim-outbox d)))
        | inr (t, found) ↦
            rw (c, found)
              (on_mailed (Mailed-map (λ text ids answer. (t, found, answer)))
                (attempt-Mailed t (claim now i d)))
      ]
      | inr c ↦ rw c (inl (inl refl))
    ]

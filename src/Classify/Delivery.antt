-- ===== src/Classify/Delivery.antt =====
-- What a delivery of the classification job of apps/api/src/jobs/classify-ticket.ts leaves behind.
use ticket_manager_system.Common.{
  ℕ, String, ◌≡◌, refl, ◌∙◌, Bool, true, false, Option, none, some, is_some, is_none, arith,
  Bool-cases, Option-cases, inl, inr, if◌then◌else◌, ◌||◌, ◌⊎◌,
}
use ticket_manager_system.Shared.{TicketCategory, is_retryable}
use ticket_manager_system.Desk.{Ticket, Desk, Config}
use ticket_manager_system.Desk.Write.{
  ticket_of, touched, update_ticket, ticket_of-update_ticket, thread_of,
}
use ticket_manager_system.Desk.Table.{written}
use ticket_manager_system.AutoReply.Worker.{done, retry, opening_text}
use ticket_manager_system.AutoReply.{enqueue_auto_reply, auto_reply_enabled}
use ticket_manager_system.Classify.{
  Verdict, filed, failed, filed_row, announce, give_up, settle, handle,
}

-- A ticket that the job is through with: gone, filed, or stamped.
abbrev pub is_spent : Option Ticket → Bool
is_spent none = true
is_spent (some t) = is_some t.classified_at || is_some t.category

abbrev pub has_category : Option Ticket → Bool
has_category none = true
has_category (some t) = is_some t.category

taken-spent : (o : Option Ticket) → has_category o ≡ true → is_spent o ≡ true
taken-spent none e = refl
taken-spent (some t) e = ground arith

module _ (cfg : Config) (now i : ℕ) where
  -- The offer to the assistant leaves the classifier's part of the ticket as it is.
  enqueue_auto_reply-spent :
      (d : Desk)
      → is_spent (ticket_of i (enqueue_auto_reply cfg now i d)) ≡ is_spent (ticket_of i d)
  unfolding enqueue_auto_reply
  enqueue_auto_reply-spent d =
      let u =
        ticket_of-update_ticket now i (λ t. is_none t.auto_reply_offered_at)
          (λ t. record t { auto_reply_offered_at = some now }) (λ t. refl) d in
      elim (Bool-cases (auto_reply_enabled cfg d)) [
        | inl on ↦ rw (on, u) (written-spent (ticket_of i d))
        | inr off ↦ rw off refl
      ]
    where
      written-spent :
          (o : Option Ticket)
          → is_spent (
              written
                (λ t. is_none t.auto_reply_offered_at)
                (touched now (λ t. record t { auto_reply_offered_at = some now }))
                o)
            ≡ is_spent o
      written-spent none = refl
      written-spent (some t) = ground arith

  announce-spent :
      (c : TicketCategory) (d : Desk)
      → is_spent (ticket_of i (announce cfg now i c d)) ≡ is_spent (ticket_of i d)
  unfolding announce
  announce-spent c d = enqueue_auto_reply-spent _

  settle-taken :
      (c : TicketCategory) (d : Desk)
      → has_category (ticket_of i d) ≡ true
      → settle cfg now i (filed c) d ≡ (d, done)
  unfolding settle
  settle-taken c d e = elim (Option-cases (ticket_of i d)) [
    | inl gone ↦ rw gone refl
    | inr (t, found) ↦ ground (arith, found)
  ]

  settle-open :
      (c : TicketCategory) (d : Desk) (t : Ticket)
      → ticket_of i d ≡ some t
      → t.category ≡ none
      → is_spent (ticket_of i (settle cfg now i (filed c) d).0) ≡ true
  unfolding settle
  settle-open c d t found unfiled =
      let u =
        ticket_of-update_ticket now i (λ t. is_none t.category) (filed_row now c) (λ t. refl) d in
      rw (found, unfiled) (announce-spent c _ ∙ rw (u, found, unfiled) refl)

  give_up-spent :
      (d : Desk) → (give_up now i d).1 ≡ done → is_spent (ticket_of i (give_up now i d).0) ≡ true
  unfolding give_up
  give_up-spent d e =
      let u =
        ticket_of-update_ticket now i (λ _. true) (λ t. record t { classified_at = some now })
          (λ t. refl) d in
      elim (Option-cases (ticket_of i d)) [
        | inl gone ↦ ground (arith, gone)
        | inr (t, found) ↦ rw found (rw (u, found) refl)
      ]

  settle-spent :
      (v : Verdict) (d : Desk)
      → (settle cfg now i v d).1 ≡ done
      → is_spent (ticket_of i (settle cfg now i v d).0) ≡ true
  unfolding settle
  settle-spent (failed reason) d e = ground (arith, give_up-spent d)
  settle-spent (filed c) d e = elim (Bool-cases (has_category (ticket_of i d))) [
    | inl taken ↦ rw (settle-taken c d taken) (taken-spent (ticket_of i d) taken)
    | inr unfiled ↦ elim (Option-cases (ticket_of i d)) [
      | inl gone ↦ ground (arith, gone)
      | inr (t, found) ↦ settle-open c d t found (ground (arith, found))
    ]
  ]

  give_up-retry : (d : Desk) → (give_up now i d).1 ≡ retry → (give_up now i d).0 ≡ d
  unfolding give_up
  give_up-retry d e = ground arith

  settle-retry :
      (v : Verdict) (d : Desk) → (settle cfg now i v d).1 ≡ retry → (settle cfg now i v d).0 ≡ d
  unfolding settle
  settle-retry (failed reason) d e = ground (arith, give_up-retry d)
  settle-retry (filed c) d e = ground arith

  -- The ticket has the category, and neither the trail nor the jobs have grown.
  pub record Untouched (c : TicketCategory) (before after : Desk) : Type 0 where
    pub filed_by_agent : (t : Ticket) × ((ticket_of i after ≡ some t) × (t.category ≡ some c))
    pub trail : after.activity ≡ before.activity
    pub jobs : after.jobs ≡ before.jobs

  stays-Untouched :
      (c : TicketCategory) (d : Desk) (t : Ticket)
      → ticket_of i d ≡ some t
      → t.category ≡ some c
      → Untouched c d d
  stays-Untouched c d t found category = record {
    filed_by_agent = (t, (found, category));
    trail = refl;
    jobs = refl;
  }

  give_up-Untouched :
      (c : TicketCategory) (d : Desk) (t : Ticket)
      → ticket_of i d ≡ some t
      → t.category ≡ some c
      → Untouched c d (give_up now i d).0
  unfolding give_up update_ticket
  give_up-Untouched c d t found category =
      let u =
        ticket_of-update_ticket now i (λ _. true) (λ t. record t { classified_at = some now })
          (λ t. refl) d in
      rw (found, give_up)
        (record {
          filed_by_agent = (
            touched now (λ t. record t { classified_at = some now }) t,
            (u ∙ rw found refl, category),
          );
          trail = refl;
          jobs = refl;
        })

  settle-Untouched :
      (v : Verdict) (c : TicketCategory) (d : Desk) (t : Ticket)
      → ticket_of i d ≡ some t
      → t.category ≡ some c
      → Untouched c d (settle cfg now i v d).0
  unfolding settle
  settle-Untouched (filed verdict) c d t found category =
      rw (settle-taken verdict d (rw found (rw category refl)))
        (stays-Untouched c d t found category)
  settle-Untouched (failed reason) c d t found category = elim (Bool-cases (is_retryable reason)) [
    | inl again ↦ simp (again, settle) (stays-Untouched c d t found category)
    | inr final ↦ simp (final, settle) (give_up-Untouched c d t found category)
  ]

  module _ (classify : String → Option String → Verdict) (meanwhile : Desk → Desk) where
    handle-spent_ticket :
        (d : Desk)
        → is_spent (ticket_of i d) ≡ true
        → handle cfg classify meanwhile now i d ≡ (d, done)
    unfolding handle
    handle-spent_ticket d e = elim (Option-cases (ticket_of i d)) [
      | inl gone ↦ rw (gone, handle) refl
      | inr (t, found) ↦ rw (found, handle) (split t (rw found at e))
    ]
      where
        split :
            (t : Ticket)
            → is_spent (some t) ≡ true
            → (if is_some t.classified_at
                then (d, done)
                else if is_some t.category
                then (d, done)
                else settle cfg now i
                    (classify t.subject (opening_text (thread_of i d)))
                    (meanwhile d))
              ≡ (d, done)
        split t spent = ground arith

    handle-taken_on :
        (d : Desk) (t : Ticket)
        → ticket_of i d ≡ some t
        → t.classified_at ≡ none
        → t.category ≡ none
        → handle cfg classify meanwhile now i d
          ≡ settle cfg now i (classify t.subject (opening_text (thread_of i d))) (meanwhile d)
    unfolding handle
    handle-taken_on d t found unstamped unfiled = rw (found, unstamped, unfiled, handle) refl

    -- Any delivery either finds the ticket spent or hands a verdict to `settle`.
    handle-cases :
        (d : Desk)
        → (handle cfg classify meanwhile now i d ≡ (d, done)) × (is_spent (ticket_of i d) ≡ true)
          ⊎ ((v : Verdict) × (handle cfg classify meanwhile now i d
                ≡ settle cfg now i v (meanwhile d)))
    handle-cases d = elim (Bool-cases (is_spent (ticket_of i d))) [
      | inl spent ↦ inl (handle-spent_ticket d spent, spent)
      | inr unspent ↦ elim (Option-cases (ticket_of i d)) [
        | inl gone ↦ ground (arith, gone)
        | inr (t, found) ↦ inr (
          classify t.subject (opening_text (thread_of i d)),
          handle-taken_on d t found (unstamped t (rw found at unspent))
              (unfiled t (rw found at unspent)),
        )
      ]
    ]
      where
        unstamped : (t : Ticket) → is_spent (some t) ≡ false → t.classified_at ≡ none
        unstamped t e = ground arith

        unfiled : (t : Ticket) → is_spent (some t) ≡ false → t.category ≡ none
        unfiled t e = ground arith

    -- A delivery that asks to be tried again wrote nothing: the desk is what it was, but for what
    -- others did during the call.
    pub handle-retry :
        (d : Desk)
        → (handle cfg classify meanwhile now i d).1 ≡ retry
        → (handle cfg classify meanwhile now i d).0 ≡ meanwhile d
    handle-retry d e = elim (handle-cases d) [
      | inl (kept, spent) ↦ ground (arith, kept)
      | inr (v, settled) ↦ rw settled (settle-retry v (meanwhile d) (rw settled at e))
    ]

    handle-done :
        (d : Desk)
        → (handle cfg classify meanwhile now i d).1 ≡ done
        → is_spent (ticket_of i (handle cfg classify meanwhile now i d).0) ≡ true
    handle-done d e = elim (handle-cases d) [
      | inl (kept, spent) ↦ rw kept spent
      | inr (v, settled) ↦ rw settled (settle-spent v (meanwhile d) (rw settled at e))
    ]

    -- The agent comes first: where the ticket has a category by the time of the model's answer,
    -- then, whatever the model answers and whatever the delivery found, it either wrote nothing on
    -- the desk that it found, or the ticket has that category still on the desk that others left, and
    -- nothing was added to the trail and no job was sent.
    pub handle-agent_first :
        (d : Desk) (t : Ticket) (c : TicketCategory)
        → ticket_of i (meanwhile d) ≡ some t
        → t.category ≡ some c
        → ((handle cfg classify meanwhile now i d).0 ≡ d)
          ⊎ Untouched c (meanwhile d) (handle cfg classify meanwhile now i d).0
    handle-agent_first d t c found category = elim (handle-cases d) [
      | inl (kept, spent) ↦ inl (rw kept refl)
      | inr (v, settled) ↦ inr (rw settled (settle-Untouched v c (meanwhile d) t found category))
    ]

-- The job is done once: after a delivery that ends it, whatever the model said and others did, a
-- further delivery, with any answer and at any time, writes nothing.
pub handle-once :
    (cfg : Config) (classify again : String → Option String → Verdict)
    (meanwhile later : Desk → Desk) (now next i : ℕ) (d : Desk)
    → (handle cfg classify meanwhile now i d).1 ≡ done
    → handle cfg again later next i (handle cfg classify meanwhile now i d).0
      ≡ ((handle cfg classify meanwhile now i d).0, done)
handle-once cfg classify again meanwhile later now next i d e =
    handle-spent_ticket cfg next i again later _ (handle-done cfg now i classify meanwhile d e)

-- ===== src/AutoReply/Unattended.antt =====
-- What goes to a customer with nobody reading it first: the handler of
-- apps/api/src/jobs/auto-reply-ticket.ts over the answers of apps/api/src/ai/auto-reply.ts.
use ticket_manager_system.Common.{ℕ, String, ◌≡◌, Option, some, List}
use ticket_manager_system.Desk.{Ticket, Article, Desk}
use ticket_manager_system.Desk.Write.{ticket_of, update_ticket, thread_of}
use ticket_manager_system.Evals.{AiUsage}
use ticket_manager_system.AutoReply.{auto_reply_articles}
use ticket_manager_system.AutoReply.Worker.{Answer, opening_text, claim, overtaken, handle}
use ticket_manager_system.AutoReply.Gated.{
  Outcome, Mailed-map, on_mailed, read_desk, write_desk, handle-Mailed,
}
use ticket_manager_system.AutoReply.Drafting.{Context, ModelAnswer, Generated, object, auto_reply}
use ticket_manager_system.AutoReply.Grounded.{IsGrounded, auto_reply-IsGrounded}

module _ (lowered uppered : String → String)
    (compose_reply : String → List String → List String → Option String)
    (references_in : String → List String) (generate : List Article → Context → Generated) where
  -- `autoReply`, as the handler calls it.
  abbrev pub drafted : List Article → String → Option String → String → Answer
  drafted articles subject text name =
      (auto_reply lowered uppered compose_reply references_in generate articles
        (record { subject = subject; text = text; customer_name = name })).0

  module _ (between : Desk → Desk) (fresh_id : String) (now i : ℕ) (meanwhile : Desk → Desk) where
    -- What the provider is asked about a ticket.
    abbrev pub asked : Desk → Ticket → Context
    asked d t = record {
      subject = t.subject;
      text = opening_text (thread_of i d);
      customer_name = t.customer_name;
    }

    -- A text, and the articles that its message keeps as cited, that the provider's answer to the
    -- claimed ticket gave, out of the articles that the desk had.
    abbrev pub IsBacked : Desk → String → List String → Type 0
    IsBacked d text ids =
        (t : Ticket) × ((ticket_of i (claim now i d) ≡ some t)
          × ((answer : ModelAnswer) × ((usage : Option AiUsage) × ((generate (auto_reply_articles d)
                      (asked (claim now i d) t)
                    ≡ object answer usage)
                  × IsGrounded lowered uppered compose_reply references_in (auto_reply_articles d)
                      (asked (claim now i d) t) answer text ids))))

    -- No email leaves unattended that is not backed: whatever the provider returns and others do,
    -- an email that the handler puts in the outbox goes to the customer of its ticket, which no gate
    -- declines; its text is the provider's answer to the ticket as it was claimed, and promises and
    -- links nothing that the articles it cites do not have. Those are the articles that its message
    -- keeps as cited, one at least, and each of them is named in that answer and is among those that
    -- the desk had for it.
    pub handle-IsBacked :
        (d : Desk)
        → Outcome
            (IsBacked d)
            i
            d
            (read_desk between fresh_id now i drafted meanwhile d)
            (write_desk between fresh_id now i drafted meanwhile d)
            (overtaken between fresh_id now i
              (ticket_of i (read_desk between fresh_id now i drafted meanwhile d))
              (read_desk between fresh_id now i drafted meanwhile d))
            (handle between fresh_id now i drafted meanwhile d).0
    unfolding update_ticket
    handle-IsBacked d =
        on_mailed
          (Mailed-map (λ text ids (t, found, answer). (
            t,
            (
              found,
              auto_reply-IsGrounded lowered uppered compose_reply references_in generate _ _ text
                  ids answer,
            ),
          )))
          (handle-Mailed between fresh_id now i drafted meanwhile d)

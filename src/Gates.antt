-- ===== src/Gates.antt =====
-- The questions asked before a ticket is worth a model call: apps/api/src/ai/auto-reply-gates.ts.
use ticket_manager_system.Common.{
  ℕ, ◌≡◌, ◌↔◌, Bool, true, false, not, Option, none, some, ltb, ◌==◌, if◌then◌else◌, arith,
}
use ticket_manager_system.Shared.{TicketCategory, AutoReplyDecline}

-- `ANSWERABLE_CATEGORIES`
abbrev pub is_answerable : TicketCategory → Bool
is_answerable TicketCategory.general = true
is_answerable TicketCategory.technical = true
is_answerable TicketCategory.refund = false
is_answerable TicketCategory.other = true

abbrev pub may_answer : Option TicketCategory → Bool
may_answer none = false
may_answer (some c) = is_answerable c

pub record GateFacts : Type 0 where
  pub category : Option TicketCategory
  pub has_outbound : Bool
  pub inbound_count : ℕ

unfoldable pub gate_decline : GateFacts → Option AutoReplyDecline
gate_decline f =
    if not (may_answer f.category)
    then some AutoReplyDecline.category
    else if f.has_outbound
    then some AutoReplyDecline.answered
    else if f.inbound_count == 0
    then some AutoReplyDecline.no_text
    else if ltb 1 f.inbound_count
    then some AutoReplyDecline.follow_up
    else none

-- The gates let a ticket through exactly when a machine may answer its category, nobody has replied
-- and there is one inbound message.
pub gate_decline-none_iff :
    (f : GateFacts)
    → (gate_decline f ≡ none)
      ↔ ((may_answer f.category ≡ true) × (f.has_outbound ≡ false) × (f.inbound_count ≡ 1))
unfolding gate_decline
gate_decline-none_iff f = (λ e. ground arith, λ h. ground arith)

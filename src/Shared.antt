-- ===== src/Shared.antt =====
-- The closed sets of values that every part names: packages/shared/src/{tickets,auto-reply,events,
-- automation,outbox,users}.ts and the failures of apps/api/src/ai/provider.ts.
-- A constructor is the source's value in snake case; `Open` is `opened`, `open` being a keyword.
use ticket_manager_system.Common.{ℕ, String, Bool, true, false, Option, none, some, ◌==◌}

pub data TicketStatus : Type 0 where
  new processing opened resolved closed : TicketStatus

pub data TicketCategory : Type 0 where
  general technical refund other : TicketCategory

pub data MessageDirection : Type 0 where
  inbound outbound : MessageDirection

pub data ActorKind : Type 0 where
  agent assistant customer : ActorKind

pub data ActivityAction : Type 0 where
  created status_changed category_changed assignee_changed : ActivityAction
  reopened auto_resolved auto_declined : ActivityAction

pub data AutoReplyDecline : Type 0 where
  category answered no_text follow_up : AutoReplyDecline
  not_covered no_citation unbacked_commitment : AutoReplyDecline
  unbacked_reference too_long unavailable : AutoReplyDecline

pub data EventField : Type 0 where
  status category assignee : EventField

pub data HandoffTarget : Type 0 where
  admin user unassigned : HandoffTarget

pub data Role : Type 0 where
  admin agent : Role

pub data EmailStatus : Type 0 where
  queued sent failed undeliverable withheld : EmailStatus

pub data EmailKind : Type 0 where
  reply password_reset invitation : EmailKind

-- `AiFailure`, with the two further reasons of `AutoReplyFailure`.
pub data Failure : Type 0 where
  provider busy quota auth config empty : Failure
  declined ungrounded : Failure

-- The place of a value in its declaration, by which two values are compared.
abbrev pub status_code : TicketStatus → ℕ
status_code TicketStatus.new = 0
status_code TicketStatus.processing = 1
status_code TicketStatus.opened = 2
status_code TicketStatus.resolved = 3
status_code TicketStatus.closed = 4

abbrev pub status_eq : TicketStatus → TicketStatus → Bool
status_eq a b = status_code a == status_code b

abbrev pub category_code : TicketCategory → ℕ
category_code TicketCategory.general = 0
category_code TicketCategory.technical = 1
category_code TicketCategory.refund = 2
category_code TicketCategory.other = 3

abbrev pub category_eq : TicketCategory → TicketCategory → Bool
category_eq a b = category_code a == category_code b

-- `===` on two nullable values.
abbrev pub option_eq {ℓ} : {A : Type ℓ} → (A → A → Bool) → Option A → Option A → Bool
option_eq eq none none = true
option_eq eq (some a) (some b) = eq a b
option_eq eq _ _ = false

abbrev pub is_inbound : MessageDirection → Bool
is_inbound MessageDirection.inbound = true
is_inbound MessageDirection.outbound = false

abbrev pub is_outbound : MessageDirection → Bool
is_outbound MessageDirection.inbound = false
is_outbound MessageDirection.outbound = true

abbrev pub email_code : EmailStatus → ℕ
email_code EmailStatus.queued = 0
email_code EmailStatus.sent = 1
email_code EmailStatus.failed = 2
email_code EmailStatus.undeliverable = 3
email_code EmailStatus.withheld = 4

abbrev pub email_eq : EmailStatus → EmailStatus → Bool
email_eq a b = email_code a == email_code b

abbrev pub status_text : TicketStatus → String
status_text TicketStatus.new = "New"
status_text TicketStatus.processing = "Processing"
status_text TicketStatus.opened = "Open"
status_text TicketStatus.resolved = "Resolved"
status_text TicketStatus.closed = "Closed"

abbrev pub category_text : TicketCategory → String
category_text TicketCategory.general = "General"
category_text TicketCategory.technical = "Technical"
category_text TicketCategory.refund = "Refund"
category_text TicketCategory.other = "Other"

abbrev pub decline_text : AutoReplyDecline → String
decline_text AutoReplyDecline.category = "category"
decline_text AutoReplyDecline.answered = "answered"
decline_text AutoReplyDecline.no_text = "noText"
decline_text AutoReplyDecline.follow_up = "followUp"
decline_text AutoReplyDecline.not_covered = "notCovered"
decline_text AutoReplyDecline.no_citation = "noCitation"
decline_text AutoReplyDecline.unbacked_commitment = "unbackedCommitment"
decline_text AutoReplyDecline.unbacked_reference = "unbackedReference"
decline_text AutoReplyDecline.too_long = "tooLong"
decline_text AutoReplyDecline.unavailable = "unavailable"

-- `RETRYABLE_AI_FAILURE`, and false for a feature's own verdict on an answer (`isRetryable`).
abbrev pub is_retryable : Failure → Bool
is_retryable Failure.provider = true
is_retryable Failure.busy = true
is_retryable Failure.empty = true
is_retryable Failure.quota = false
is_retryable Failure.auth = false
is_retryable Failure.config = false
is_retryable Failure.declined = false
is_retryable Failure.ungrounded = false

-- `ACTIVITY_EVENT_FIELD`
abbrev pub activity_event_field : ActivityAction → Option EventField
activity_event_field ActivityAction.created = none
activity_event_field ActivityAction.status_changed = some EventField.status
activity_event_field ActivityAction.category_changed = some EventField.category
activity_event_field ActivityAction.assignee_changed = some EventField.assignee
activity_event_field ActivityAction.reopened = some EventField.status
activity_event_field ActivityAction.auto_resolved = some EventField.status
activity_event_field ActivityAction.auto_declined = some EventField.status

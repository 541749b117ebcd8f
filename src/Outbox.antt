-- ===== src/Outbox.antt =====
-- Handing an outbox row to a mail provider: apps/api/src/jobs/send-email.ts, with the taxonomy of
-- apps/api/src/mail/transport.ts and the retry of apps/api/src/routes/outbox.ts. `deliver` is the
-- provider's answer to the email, `meanwhile` what others do to the desk while it answers. With a
-- provider configured the source's own `deliver` has none bound yet and throws; the handler is
-- modelled for any answer.
pub mod Settled
pub mod Final
pub mod Retry
pub mod Demo
use ticket_manager_system.Common.{
  ℕ, ◌+◌, String, Bool, true, false, not, ◌||◌, Option, none, some, ltb, ◌==◌, if◌then◌else◌,
}
use ticket_manager_system.Shared.{EmailStatus, email_eq}
use ticket_manager_system.Desk.{OutboundEmail, Desk, Config, send_email}
use ticket_manager_system.Desk.Write.{email_of, update_email, count_email, send_job}
use ticket_manager_system.AutoReply.Worker.{Exit, done, retry}

pub data Delivery : Type 0 where
  accepted : (provider_message_id : Option String) → Delivery
  rejected deferred unavailable : (error : String) → Delivery

-- `RETRYABLE_OUTCOME`
abbrev pub is_deferred : Delivery → Bool
is_deferred (deferred error) = true
is_deferred _ = false

abbrev pub no_provider_reason : String
no_provider_reason = "No mail provider is configured, so there was nowhere to send this email."

abbrev pub is_queued : OutboundEmail → Bool
is_queued e = email_eq e.status EmailStatus.queued

abbrev pub sent_row : ℕ → Option String → OutboundEmail → OutboundEmail
sent_row now provider_id e = record e {
  status = EmailStatus.sent;
  sent_at = some now;
  provider_message_id = provider_id;
  attempts = e.attempts + 1;
  last_error = none;
}

-- The row after an attempt that failed, in the status that it is left in.
abbrev pub attempted_row : EmailStatus → String → OutboundEmail → OutboundEmail
attempted_row status error e = record e {
  status = status;
  attempts = e.attempts + 1;
  last_error = some error;
}

-- What the provider's answer does to the row, and to the job.
unfoldable pub settle : ℕ → ℕ → Delivery → Desk → Desk × Exit
settle now i (accepted provider_id) d =
    (update_email i is_queued (sent_row now provider_id) d, done)
settle now i (deferred error) d =
    (update_email i is_queued (attempted_row EmailStatus.queued error) d, retry)
settle now i (unavailable error) d =
    (update_email i is_queued (attempted_row EmailStatus.undeliverable error) d, done)
settle now i (rejected error) d =
    (update_email i is_queued (attempted_row EmailStatus.failed error) d, done)

-- `handle`: a row that is not queued is left alone, and nothing is sent for it.
unfoldable pub handle :
    Config → (OutboundEmail → Delivery) → (Desk → Desk) → ℕ → ℕ → Desk → Desk × Exit
unfolding settle
handle cfg deliver meanwhile now i d = elim (email_of i d) [
  | none ↦ (d, done)
  | some e ↦
      if not (is_queued e)
      then (d, done)
      else if not cfg.mail_configured
      then (
        update_email i is_queued
            (λ e. record e {
              status = EmailStatus.undeliverable;
              last_error = some no_provider_reason;
            })
            d,
        done,
      )
      else settle now i (deliver e) (meanwhile d)
]

-- `onExhausted`
unfoldable pub on_exhausted : ℕ → Desk → Desk
on_exhausted i d = update_email i is_queued (λ e. record e { status = EmailStatus.failed }) d

-- `RETRYABLE_STATUS`
abbrev pub is_retryable_status : EmailStatus → Bool
is_retryable_status s = email_eq s EmailStatus.undeliverable || email_eq s EmailStatus.failed

-- What `POST /api/outbox/:id/retry` answers.
pub data Response : Type 0 where
  accepted bad_id no_provider gone changed refused : Response

abbrev refusal : Option OutboundEmail → Response
refusal none = gone
refusal (some e) = if is_retryable_status e.status then changed else refused

-- `retry`: the row back to the queue and its job in one transaction, or a reason why not.
unfoldable pub retry_email : Config → ℕ → Desk → Desk × Response
retry_email cfg i d =
    if ltb i 1
    then (d, bad_id)
    else if not cfg.mail_configured
    then (d, no_provider)
    else if count_email i (λ e. is_retryable_status e.status) d
    then (
      send_job (send_email i) (
          update_email i (λ e. is_retryable_status e.status)
            (λ e. record e { status = EmailStatus.queued; last_error = none }) d),
      Response.accepted,
    )
    else (d, refusal (email_of i d))

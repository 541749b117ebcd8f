-- ===== src/Outbox/Final.antt =====
-- Runs of the outbox: apps/api/src/jobs/send-email.ts and apps/api/src/routes/outbox.ts over the rows
-- that apps/api/src/outbound.ts and the account emails insert.
use ticket_manager_system.Common.{
  ℕ, ◌≡◌, refl, ◌∙◌, Bool, true, false, ◌||◌, none, some, arith, Bool-cases, inl, inr,
}
use ticket_manager_system.Shared.{EmailStatus, email_eq}
use ticket_manager_system.Desk.{OutboundEmail, Desk, Config}
use ticket_manager_system.Desk.Table.{find-append}
use ticket_manager_system.Desk.Write.{email_of, insert_email}
use ticket_manager_system.Outbox.Settled.{
  is_due, undeliverable_row, update_email-kept, handle-not_due, handle-unconfigured,
  handle-delivered,
}
use ticket_manager_system.AutoReply.Worker.{done}
use ticket_manager_system.Outbox.{
  Delivery, accepted, rejected, deferred, unavailable, is_queued, settle, handle, on_exhausted,
  is_retryable_status, retry_email,
}

-- The statuses that a row never leaves.
abbrev pub is_final : EmailStatus → Bool
is_final s = email_eq s EmailStatus.sent || email_eq s EmailStatus.withheld

-- What can happen to the outbox from one desk to another, in order: rows are inserted, jobs are
-- delivered, with whatever happens during the provider's answer, jobs run out of tries, and an
-- administrator has rows tried again.
pub data Run (cfg : Config) : Desk → Desk → Type 0 where
  stayed : (d : Desk) → Run cfg d d
  inserted : (row : OutboundEmail) (d e : Desk) → Run cfg (insert_email row d) e → Run cfg d e
  delivered :
      (deliver : OutboundEmail → Delivery) (meanwhile : Desk → Desk) (now i : ℕ) (d e : Desk)
      → Run cfg d (meanwhile d)
      → Run cfg (handle cfg deliver meanwhile now i d).0 e
      → Run cfg d e
  exhausted : (i : ℕ) (d e : Desk) → Run cfg (on_exhausted i d) e → Run cfg d e
  retried : (i : ℕ) (d e : Desk) → Run cfg (retry_email cfg i d).0 e → Run cfg d e

settle-kept :
    (now i j : ℕ) (v : Delivery) (d : Desk) (r : OutboundEmail)
    → email_of j d ≡ some r
    → is_queued r ≡ false
    → email_of j (settle now i v d).0 ≡ some r
unfolding settle
settle-kept now i j (accepted provider) d r found idle =
    update_email-kept i is_queued _ (λ e. refl) d j r found idle
settle-kept now i j (deferred error) d r found idle =
    update_email-kept i is_queued _ (λ e. refl) d j r found idle
settle-kept now i j (unavailable error) d r found idle =
    update_email-kept i is_queued _ (λ e. refl) d j r found idle
settle-kept now i j (rejected error) d r found idle =
    update_email-kept i is_queued _ (λ e. refl) d j r found idle

handle-kept :
    (cfg : Config) (deliver : OutboundEmail → Delivery) (meanwhile : Desk → Desk) (now i j : ℕ)
    (d : Desk) (r : OutboundEmail)
    → email_of j d ≡ some r
    → email_of j (meanwhile d) ≡ some r
    → is_queued r ≡ false
    → email_of j (handle cfg deliver meanwhile now i d).0 ≡ some r
handle-kept cfg deliver meanwhile now i j d r found still idle =
    elim (Bool-cases (is_due (email_of i d))) [
      | inr e ↦ rw (handle-not_due cfg deliver meanwhile now i d e) found
      | inl due ↦ elim (Bool-cases cfg.mail_configured) [
        | inr off ↦
            rw (handle-unconfigured cfg deliver meanwhile now i d due off)
              (update_email-kept i is_queued undeliverable_row (λ e. refl) d j r found idle)
        | inl on ↦
            let (v, settled) = handle-delivered cfg deliver meanwhile now i d due on in
            rw settled (settle-kept now i j v (meanwhile d) r still idle)
      ]
    ]

final_status :
    (s : EmailStatus)
    → is_final s ≡ true
    → (email_eq s EmailStatus.queued ≡ false) × (is_retryable_status s ≡ false)
final_status EmailStatus.sent e = (refl, refl)
final_status EmailStatus.withheld e = (refl, refl)
final_status EmailStatus.queued e = (ground arith, ground arith)
final_status EmailStatus.failed e = (ground arith, ground arith)
final_status EmailStatus.undeliverable e = (ground arith, ground arith)

final-settled :
    (r : OutboundEmail)
    → is_final r.status ≡ true
    → (is_queued r ≡ false) × (is_retryable_status r.status ≡ false)
final-settled r e = final_status r.status e

retry_email-kept :
    (cfg : Config) (i j : ℕ) (d : Desk) (r : OutboundEmail)
    → email_of j d ≡ some r
    → is_final r.status ≡ true
    → email_of j (retry_email cfg i d).0 ≡ some r
unfolding retry_email
retry_email-kept cfg i j d r found final = ground (
  arith,
  found,
  update_email-kept i (λ e. is_retryable_status e.status)
      (λ e. record e { status = EmailStatus.queued; last_error = none }) (λ e. refl) d j r found
      (final-settled r final).1,
)

insert_email-kept :
    (row : OutboundEmail) (j : ℕ) (d : Desk) (r : OutboundEmail)
    → email_of j d ≡ some r
    → email_of j (insert_email row d) ≡ some r
insert_email-kept row j d r found =
    find-append (λ (e : OutboundEmail). e.id) j d.outbox row ∙ rw found refl

Run-kept :
    (cfg : Config) (j : ℕ) (r : OutboundEmail)
    → is_final r.status ≡ true
    → (d e : Desk) → Run cfg d e
    → email_of j d ≡ some r
    → email_of j e ≡ some r
unfolding on_exhausted
Run-kept cfg j r final d _ (stayed _) found = found
Run-kept cfg j r final d e (inserted row _ _ more) found =
    Run-kept cfg j r final (insert_email row d) e more (insert_email-kept row j d r found)
Run-kept cfg j r final d e (delivered deliver meanwhile now i _ _ others more) found =
    Run-kept cfg j r final (handle cfg deliver meanwhile now i d).0 e more (
      handle-kept cfg deliver meanwhile now i j d r found
        (Run-kept cfg j r final d (meanwhile d) others found) (final-settled r final).0)
Run-kept cfg j r final d e (exhausted i _ _ more) found =
    Run-kept cfg j r final (on_exhausted i d) e more (
      update_email-kept i is_queued (λ e. record e { status = EmailStatus.failed }) (λ e. refl) d j
        r found (final-settled r final).0)
Run-kept cfg j r final d e (retried i _ _ more) found =
    Run-kept cfg j r final (retry_email cfg i d).0 e more (retry_email-kept cfg i j d r found final)

-- An email that was sent is never sent again, and one that a demo session wrote is never sent: a row
-- that is sent or withheld is the same row after any run of insertions, deliveries, exhaustions and
-- retries, in any interleaving, and a delivery of its job then does nothing at all, whatever the
-- provider would have answered.
pub Run-final :
    (cfg : Config) (j : ℕ) (r : OutboundEmail) (d e : Desk)
    → email_of j d ≡ some r
    → is_final r.status ≡ true
    → Run cfg d e
    → (email_of j e ≡ some r)
      × ((deliver : OutboundEmail → Delivery) (meanwhile : Desk → Desk) (now : ℕ)
          → handle cfg deliver meanwhile now j e ≡ (e, done))
Run-final cfg j r d e found final run =
    let kept = Run-kept cfg j r final d e run found in
    (
      kept,
      λ deliver meanwhile now.
          handle-not_due cfg deliver meanwhile now j e (rw kept (final-settled r final).0),
    )

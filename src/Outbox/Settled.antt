-- ===== src/Outbox/Settled.antt =====
-- What becomes of an outbox row: apps/api/src/jobs/send-email.ts and apps/api/src/routes/outbox.ts
-- over the rows that apps/api/src/outbound.ts and the account emails insert.
use ticket_manager_system.Common.{
  ℕ, ◌≡◌, refl, Bool, true, false, Option, none, some, arith, Bool-cases, Option-cases, inl, inr,
}
use ticket_manager_system.Shared.{EmailStatus}
use ticket_manager_system.Desk.{OutboundEmail, Desk, Config}
use ticket_manager_system.Desk.Table.{written, find-update_self, find-update_kept}
use ticket_manager_system.Desk.Write.{email_of, update_email}
use ticket_manager_system.AutoReply.Worker.{done}
use ticket_manager_system.Outbox.{
  Delivery, accepted, rejected, deferred, unavailable, is_queued, settle, handle,
  no_provider_reason,
}

-- The row is due to be sent.
abbrev pub is_due : Option OutboundEmail → Bool
is_due none = false
is_due (some e) = is_queued e

module _ (i : ℕ) (fits : OutboundEmail → Bool) (f : OutboundEmail → OutboundEmail)
    (same : (e : OutboundEmail) → (f e).id ≡ e.id) (d : Desk) where
  pub email_of-update_email : email_of i (update_email i fits f d) ≡ written fits f (email_of i d)
  unfolding update_email
  email_of-update_email = find-update_self (λ (e : OutboundEmail). e.id) fits f same i d.outbox

  pub update_email-kept :
      (j : ℕ) (r : OutboundEmail)
      → email_of j d ≡ some r
      → fits r ≡ false
      → email_of j (update_email i fits f d) ≡ some r
  unfolding update_email
  update_email-kept j r found misfit =
      find-update_kept (λ (e : OutboundEmail). e.id) fits f same i j d.outbox r found misfit

-- A write of queued rows that leaves none of them queued.
update_email-settles :
    (i : ℕ) (f : OutboundEmail → OutboundEmail) (d : Desk)
    → ((e : OutboundEmail) → (f e).id ≡ e.id)
    → ((e : OutboundEmail) → is_queued (f e) ≡ false)
    → is_due (email_of i (update_email i is_queued f d)) ≡ false
update_email-settles i f d same settled =
    rw (email_of-update_email i is_queued f same d) (out (email_of i d))
  where
    out : (o : Option OutboundEmail) → is_due (written is_queued f o) ≡ false
    out none = refl
    out (some e) = ground (arith, settled e)

settle-settles :
    (now i : ℕ) (v : Delivery) (d : Desk)
    → (settle now i v d).1 ≡ done
    → is_due (email_of i (settle now i v d).0) ≡ false
unfolding settle
settle-settles now i (accepted provider) d e = update_email-settles i _ d (λ e. refl) (λ e. refl)
settle-settles now i (deferred error) d e = ground arith
settle-settles now i (unavailable error) d e = update_email-settles i _ d (λ e. refl) (λ e. refl)
settle-settles now i (rejected error) d e = update_email-settles i _ d (λ e. refl) (λ e. refl)

abbrev pub undeliverable_row : OutboundEmail → OutboundEmail
undeliverable_row e = record e {
  status = EmailStatus.undeliverable;
  last_error = some no_provider_reason;
}

module _ (cfg : Config) (deliver : OutboundEmail → Delivery) (meanwhile : Desk → Desk) (now i : ℕ)
    (d : Desk) where
  pub handle-not_due :
      is_due (email_of i d) ≡ false → handle cfg deliver meanwhile now i d ≡ (d, done)
  unfolding handle
  handle-not_due e = elim (Option-cases (email_of i d)) [
    | inl gone ↦ rw (gone, handle) refl
    | inr (r, found) ↦ rw (found, rw found at e, handle) refl
  ]

  pub handle-unconfigured :
      is_due (email_of i d) ≡ true
      → cfg.mail_configured ≡ false
      → handle cfg deliver meanwhile now i d ≡ (update_email i is_queued undeliverable_row d, done)
  unfolding handle
  handle-unconfigured e off = elim (Option-cases (email_of i d)) [
    | inl gone ↦ ground (arith, gone)
    | inr (r, found) ↦ rw (found, rw found at e, off, handle) refl
  ]

  pub handle-delivered :
      is_due (email_of i d) ≡ true
      → cfg.mail_configured ≡ true
      → (v : Delivery) × (handle cfg deliver meanwhile now i d ≡ settle now i v (meanwhile d))
  unfolding handle
  handle-delivered e on = elim (Option-cases (email_of i d)) [
    | inl gone ↦ ground (arith, gone)
    | inr (r, found) ↦ (deliver r, rw (found, rw found at e, on, handle) refl)
  ]

  -- A delivery that ends its job leaves the row settled: whatever the provider answers and others do
  -- meanwhile, the email is sent, failed, undeliverable, withheld or gone, and not in the queue.
  pub handle-settles :
      (handle cfg deliver meanwhile now i d).1 ≡ done
      → is_due (email_of i (handle cfg deliver meanwhile now i d).0) ≡ false
  handle-settles e = elim (Bool-cases (is_due (email_of i d))) [
    | inr idle ↦ rw (handle-not_due idle) idle
    | inl due ↦ elim (Bool-cases cfg.mail_configured) [
      | inr off ↦
          rw (handle-unconfigured due off)
            (update_email-settles i undeliverable_row d (λ e. refl) (λ e. refl))
      | inl on ↦
          let (v, settled) = handle-delivered due on in
          rw settled (settle-settles now i v (meanwhile d) (rw settled at e))
    ]
  ]

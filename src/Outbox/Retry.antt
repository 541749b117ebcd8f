-- ===== src/Outbox/Retry.antt =====
-- When an administrator's retry is taken, and what it does: `retry` of apps/api/src/routes/outbox.ts.
use ticket_manager_system.Common.{
  ℕ, ◌<◌, ◌≡◌, ◌≢◌, ◌↔◌, refl, ◌∙◌, Bool, true, Option, none, some, [], ◌∷◌, ◌++◌, arith,
  Bool-cases, Option-cases, inl, inr, ◌⊎◌, ltb,
}
use ticket_manager_system.Shared.{EmailStatus}
use ticket_manager_system.Desk.{OutboundEmail, Desk, Config, send_email}
use ticket_manager_system.Desk.Write.{email_of, update_email, count_email}
use ticket_manager_system.Outbox.{is_queued, is_retryable_status, Response, refusal, retry_email}
use ticket_manager_system.Outbox.Settled.{email_of-update_email}

abbrev pub is_retryable_row : OutboundEmail → Bool
is_retryable_row e = is_retryable_status e.status

taken-row :
    (i : ℕ) (d : Desk)
    → count_email i is_retryable_row d ≡ true
    → (e : OutboundEmail) × ((email_of i d ≡ some e) × (is_retryable_status e.status ≡ true))
taken-row i d taken = elim (Option-cases (email_of i d)) [
  | inl gone ↦ ground (arith, gone)
  | inr (e, found) ↦ (e, (found, rw found at taken))
]

resting-retryable :
    (s : EmailStatus)
    → is_retryable_status s ≡ true
    → (s ≡ EmailStatus.undeliverable) ⊎ (s ≡ EmailStatus.failed)
resting-retryable EmailStatus.queued e = absurd (cc)
resting-retryable EmailStatus.sent e = absurd (cc)
resting-retryable EmailStatus.failed e = inr refl
resting-retryable EmailStatus.undeliverable e = inl refl
resting-retryable EmailStatus.withheld e = absurd (cc)

retryable-resting :
    (s : EmailStatus)
    → (s ≡ EmailStatus.undeliverable) ⊎ (s ≡ EmailStatus.failed)
    → is_retryable_status s ≡ true
retryable-resting s (inl e) = rw e refl
retryable-resting s (inr e) = rw e refl

resting :
    (i : ℕ) (d : Desk)
    → count_email i is_retryable_row d ≡ true
    → (e : OutboundEmail) × ((email_of i d ≡ some e)
        × ((e.status ≡ EmailStatus.undeliverable) ⊎ (e.status ≡ EmailStatus.failed)))
resting i d taken =
    let (e, (found, fits)) = taken-row i d taken in (e, (found, resting-retryable e.status fits))

refusal_refused : (o : Option OutboundEmail) → refusal o ≢ Response.accepted
refusal_refused none e = ground arith
refusal_refused (some row) e = ground arith

module _ (cfg : Config) (i : ℕ) (d : Desk) where
  -- A retry is taken exactly when the id is a row's, a provider is configured, and the email came to
  -- rest in a status that another attempt can help: undeliverable or failed.
  pub retry_email-accepted_iff : ((retry_email cfg i d).1 ≡ Response.accepted) ↔ (
      (0 < i)
      × ((cfg.mail_configured ≡ true)
          × ((e : OutboundEmail) × ((email_of i d ≡ some e)
                × ((e.status ≡ EmailStatus.undeliverable) ⊎ (e.status ≡ EmailStatus.failed))))))
  unfolding retry_email
  retry_email-accepted_iff = (
    λ a. (
      ground (arith, refusal_refused (email_of i d)),
      (
        ground (arith, refusal_refused (email_of i d)),
        resting i d (ground (arith, refusal_refused (email_of i d))),
      ),
    ),
    λ (positive, (on, (e, (found, rests)))).
        let fits = retryable-resting e.status rests in ground (arith, found, fits),
  )

  -- A retry that is taken puts the email back in the queue and sends its job; any other leaves
  -- the desk as it is.
  pub retry_email-queues :
      (((retry_email cfg i d).1 ≡ Response.accepted)
        × (((retry_email cfg i d).0.jobs ≡ d.jobs ++ send_email i ∷ [])
            × ((e : OutboundEmail) × ((email_of i (retry_email cfg i d).0 ≡ some e)
                  × (is_queued e ≡ true)))))
      ⊎ (((retry_email cfg i d).1 ≢ Response.accepted) × ((retry_email cfg i d).0 ≡ d))
  unfolding retry_email update_email
  retry_email-queues = elim (Bool-cases (ltb i 1)) [
    | inl bad ↦ rw bad (inr (λ e. ground arith, refl))
    | inr good ↦ elim (Bool-cases cfg.mail_configured) [
      | inr off ↦ rw (good, off) (inr (λ e. ground arith, refl))
      | inl on ↦ elim (Bool-cases (count_email i is_retryable_row d)) [
        | inr untaken ↦ rw (good, on, untaken) (inr (refusal_refused (email_of i d), refl))
        | inl taken ↦
            rw (good, on, taken)
              (let (e, (found, fits)) = taken-row i d taken in
                inl (
                  refl,
                  (
                    refl,
                    (
                      record e { status = EmailStatus.queued; last_error = none },
                      (
                        email_of-update_email i is_retryable_row
                              (λ e. record e { status = EmailStatus.queued; last_error = none })
                              (λ e. refl) d
                            ∙ rw (found, fits) refl,
                        refl,
                      ),
                    ),
                  ),
                ))
      ]
    ]
  ]

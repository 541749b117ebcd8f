-- ===== src/Examples/Sweeps.antt =====
-- The retention sweeps, tried on an outbox of two emails and on a short trail.
use mathlib.Core.List.{Memᴰ}
use mathlib.Core.List.Memᴰ
use ticket_manager_system.Common.{
  ℕ, ◌≤◌, ◌≡◌, refl, sym, ap, ◌∙◌, not, true, false, none, some, List, [], ◌∷◌, filter, length,
  arith,
}
use ticket_manager_system.Shared.{TicketCategory, EmailKind, EmailStatus}
use ticket_manager_system.Desk.{OutboundEmail}
use ticket_manager_system.Knowledge.{RevisionAction, RevisionStatus, Revision}
use ticket_manager_system.Retention.{is_expired_mail, prune_outbox, latest_of, prune_revisions}
use ticket_manager_system.Retention.Exact.{Keyed, Some}
use ticket_manager_system.Retention.Outbox.{
  is_expired, IsQueued, prune_outbox-exact, prune_outbox-IsQueued,
}
use ticket_manager_system.Retention.Trails.{IsRevision, prune_revisions-latest}
use ticket_manager_system.Examples.{queued_email}

abbrev sent_invitation : OutboundEmail
sent_invitation = record queued_email {
  id = 2;
  kind = EmailKind.invitation;
  status = EmailStatus.sent;
}

abbrev mails : List OutboundEmail
mails = queued_email ∷ sent_invitation ∷ []

abbrev email_id : OutboundEmail → ℕ
email_id e = e.id

mails-Keyed : Keyed (λ (e : OutboundEmail). e.id) mails
mails-Keyed r s (Memᴰ.head a) (Memᴰ.head b) same = a ∙ sym b
mails-Keyed r s (Memᴰ.head a) (Memᴰ.tail (Memᴰ.head b)) same =
    absurd (omega (arith, ap email_id a, ap email_id b, same))
mails-Keyed r s (Memᴰ.tail (Memᴰ.head a)) (Memᴰ.head b) same =
    absurd (omega (arith, ap email_id a, ap email_id b, same))
mails-Keyed r s (Memᴰ.tail (Memᴰ.head a)) (Memᴰ.tail (Memᴰ.head b)) same = a ∙ sym b
mails-Keyed r s (Memᴰ.tail (Memᴰ.tail m)) n same = absurd (Memᴰ.not-nil m)
mails-Keyed r s m (Memᴰ.tail (Memᴰ.tail n)) same = absurd (Memᴰ.not-nil n)

few_mails : (kind : EmailKind) → length (filter (is_expired_mail kind 86500000) mails) ≤ 10000
few_mails EmailKind.reply = omega arith
few_mails EmailKind.password_reset = omega arith
few_mails EmailKind.invitation = omega arith

prune_outbox-exact_example :
    prune_outbox (λ x. x) 86500000 mails ≡ filter (λ e. not (is_expired 86500000 e)) mails
prune_outbox-exact_example = prune_outbox-exact 86500000 mails mails-Keyed few_mails

prune_outbox-IsQueued_example : Some (IsQueued 1) (prune_outbox (λ x. x) 86500000 mails)
prune_outbox-IsQueued_example =
    prune_outbox-IsQueued (λ x. x) 1 86500000 mails (λ rows there. there)
      (queued_email, Memᴰ.head refl, (refl, refl))

abbrev first_revision : Revision
first_revision = record {
  id = 7;
  article_id = 1;
  action = RevisionAction.created;
  content = record {
    title = "Logging in";
    category = TicketCategory.technical;
    body = "Reset the password.";
    internal_note = none;
    auto_reply = true;
  };
  is_archived = false;
  editor_id = some 1;
  editor_name = "Ada";
  editor_email = none;
  status = RevisionStatus.approved;
  approved_by_id = none;
  approved_by_name = none;
  approved_at = none;
  created_at = 1000;
}

abbrev trail : List Revision
trail = first_revision ∷ record first_revision { id = 9; action = RevisionAction.updated } ∷ []

prune_revisions-latest_example :
    Some (IsRevision 1 (latest_of 1 trail)) (prune_revisions (λ x. x) 40000000000 trail).0
prune_revisions-latest_example =
    prune_revisions-latest (λ x. x) 40000000000 trail first_revision (Memᴰ.head refl)
      (λ rows there. there)

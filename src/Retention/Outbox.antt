-- ===== src/Retention/Outbox.antt =====
-- What the sweep of apps/api/src/jobs/prune-outbox.ts takes out of the outbox.

use ticket_manager_system.Common.{
  ℕ, ◌+◌, ◌≤◌, ◌≡◌, refl, sym, ap, ◌∙◌, Bool, not, ◌&&◌, List, [], ◌∷◌, arith, ltb, ◌==◌, filter,
  length,
}
use ticket_manager_system.Shared.{EmailKind, EmailStatus}
use ticket_manager_system.Desk.{OutboundEmail}
use ticket_manager_system.Retention.{
  is_prunable, kind_code, mail_retention, is_expired_mail, prune_kind, prune_outbox,
}
use ticket_manager_system.Retention.Batches.{Mem-of_filter}
use ticket_manager_system.Retention.Exact.{Keyed, Some, batched_delete-exact, batched_delete-spares}

-- An email that is settled and has outlived its kind's retention.
abbrev pub is_expired : ℕ → OutboundEmail → Bool
is_expired now e = is_prunable e.status && ltb (e.created_at + mail_retention e.kind) now

filter-within :
    {A : Type 0}
    → (q p : A → Bool) (rows : List A) → length (filter q (filter p rows)) ≤ length (filter q rows)
filter-within q p [] = omega arith
filter-within q p (x ∷ rows) = ground (arith, filter-within q p rows)

-- Each email is looked for under its own kind.
abbrev due_under : EmailKind → EmailKind → Bool → ℕ → ℕ → Bool
due_under own kind settled at now =
    kind_code own == kind_code kind && (settled && ltb (at + mail_retention kind) now)

not_due :
    (own : EmailKind) (settled : Bool) (at now : ℕ)
    → (not (due_under own EmailKind.reply settled at now)
        && (not (due_under own EmailKind.password_reset settled at now)
            && not (due_under own EmailKind.invitation settled at now)))
      ≡ not (settled && ltb (at + mail_retention own) now)
not_due EmailKind.reply settled at now = ground arith
not_due EmailKind.password_reset settled at now = ground arith
not_due EmailKind.invitation settled at now = ground arith

filter-thrice :
    {A : Type 0}
    → (p q r s : A → Bool) → ((x : A) → (p x && (q x && r x)) ≡ s x)
    → (rows : List A) → filter r (filter q (filter p rows)) ≡ filter s rows
filter-thrice p q r s same [] = refl
filter-thrice p q r s same (x ∷ rows) =
    ground (arith, sym (same x), filter-thrice p q r s same rows)

prune_kind-exact :
    (kind : EmailKind) (now : ℕ) (rows : List OutboundEmail)
    → Keyed (λ (e : OutboundEmail). e.id) rows
    → length (filter (is_expired_mail kind now) rows) ≤ 10000
    → (prune_kind (λ x. x) kind now rows).0 ≡ filter (λ e. not (is_expired_mail kind now e)) rows
unfolding prune_kind
prune_kind-exact kind now rows keyed few =
    batched_delete-exact (λ (e : OutboundEmail). e.id) (λ e. e.created_at)
      (is_expired_mail kind now) (λ e. is_prunable e.status) (λ e due. ground (arith, due)) 20 rows
      keyed few

filter-Keyed :
    (p : OutboundEmail → Bool) (rows : List OutboundEmail)
    → Keyed (λ (e : OutboundEmail). e.id) rows
    → Keyed (λ (e : OutboundEmail). e.id) (filter p rows)
filter-Keyed p rows keyed r s in_r in_s same =
    keyed r s (Mem-of_filter p rows r in_r).0 (Mem-of_filter p rows s in_s).0 same

-- Batches of five hundred come to the same as one delete: where no two emails share an id, at most
-- 10,000 of each kind are due and nobody interferes, the sweep leaves the emails that are not due,
-- in their order.
pub prune_outbox-exact :
    (now : ℕ) (rows : List OutboundEmail)
    → Keyed (λ (e : OutboundEmail). e.id) rows
    → ((kind : EmailKind) → length (filter (is_expired_mail kind now) rows) ≤ 10000)
    → prune_outbox (λ x. x) now rows ≡ filter (λ e. not (is_expired now e)) rows
unfolding prune_outbox
prune_outbox-exact now rows keyed few =
    let spared : EmailKind → OutboundEmail → Bool = λ kind e. not (is_expired_mail kind now e) in
    let first = filter (spared EmailKind.reply) rows in
    let second = filter (spared EmailKind.password_reset) first in
    let keyed1 = filter-Keyed (spared EmailKind.reply) rows keyed in
    let keyed2 = filter-Keyed (spared EmailKind.password_reset) first keyed1 in
    let one = prune_kind-exact EmailKind.reply now rows keyed (few EmailKind.reply) in
    let two = prune_kind-exact EmailKind.password_reset now first keyed1 (
      omega (
        arith,
        few EmailKind.password_reset,
        filter-within (is_expired_mail EmailKind.password_reset now) (spared EmailKind.reply) rows,
      )) in
    let three = prune_kind-exact EmailKind.invitation now second keyed2 (
      omega (
        arith,
        few EmailKind.invitation,
        filter-within (is_expired_mail EmailKind.invitation now) (spared EmailKind.reply) rows,
        filter-within (is_expired_mail EmailKind.invitation now) (spared EmailKind.password_reset)
            first,
      )) in
    let last : List OutboundEmail → List OutboundEmail =
      λ xs. (prune_kind (λ x. x) EmailKind.invitation now xs).0 in
    ap (λ xs. last (prune_kind (λ x. x) EmailKind.password_reset now xs).0) one
    ∙ ap last two
    ∙ three
    ∙ filter-thrice (spared EmailKind.reply) (spared EmailKind.password_reset)
        (spared EmailKind.invitation) (λ e. not (is_expired now e))
        (λ e. not_due e.kind (is_prunable e.status) e.created_at now) rows

-- The email of an id waits for its job.
abbrev pub IsQueued : ℕ → OutboundEmail → Type 0
IsQueued i e = (e.id ≡ i) × (e.status ≡ EmailStatus.queued)

prune_kind-IsQueued :
    (meanwhile : List OutboundEmail → List OutboundEmail) (i : ℕ) (kind : EmailKind) (now : ℕ)
    → ((rows : List OutboundEmail) → Some (IsQueued i) rows → Some (IsQueued i) (meanwhile rows))
    → (rows : List OutboundEmail) → Some (IsQueued i) rows
    → Some (IsQueued i) (prune_kind meanwhile kind now rows).0
unfolding prune_kind
prune_kind-IsQueued meanwhile i kind now others rows there =
    batched_delete-spares (λ (e : OutboundEmail). e.id) (λ e. e.created_at)
      (is_expired_mail kind now) (λ e. is_prunable e.status) (IsQueued i)
      (λ e queued. rw queued.1 refl) meanwhile others 20 rows there

-- No email that is to be sent is deleted: one that is queued is in the outbox after the sweep, as
-- long as others leave it queued, however old it is and whatever else they write between the reads
-- and the deletes.
pub prune_outbox-IsQueued :
    (meanwhile : List OutboundEmail → List OutboundEmail) (i now : ℕ) (rows : List OutboundEmail)
    → ((rows : List OutboundEmail) → Some (IsQueued i) rows → Some (IsQueued i) (meanwhile rows))
    → Some (IsQueued i) rows
    → Some (IsQueued i) (prune_outbox meanwhile now rows)
unfolding prune_outbox
prune_outbox-IsQueued meanwhile i now rows others there =
    prune_kind-IsQueued meanwhile i EmailKind.invitation now others _ (
      prune_kind-IsQueued meanwhile i EmailKind.password_reset now others _
        (prune_kind-IsQueued meanwhile i EmailKind.reply now others rows there))

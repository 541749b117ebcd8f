-- ===== src/Retention.antt =====
-- What the sweeps delete: apps/api/src/jobs/prune-outbox.ts and prune-activity-trails.ts, with the
-- batches of prune-batching.ts. What others do between a sweep's read and its delete is a function
-- on the table.
pub mod Batches
pub mod Exact
pub mod Outbox
pub mod Trails
use ticket_manager_system.Common.{
  ℕ, zero, suc, ◌+◌, ◌-◌, ◌*◌, Bool, true, false, not, ◌&&◌, Option, none, some, List, [], ◌∷◌, ltb,
  leb, ◌==◌, max, if◌then◌else◌, any, filter, length, map, take,
}
use ticket_manager_system.Shared.{EmailKind, EmailStatus}
use ticket_manager_system.Desk.{OutboundEmail}
use ticket_manager_system.Knowledge.{Revision}

-- `BATCH_SIZE` and `MAX_BATCHES`
abbrev pub batch_size : ℕ
batch_size = 500

abbrev pub max_batches : ℕ
max_batches = 20

module _ {A : Type 0} (created_at : A → ℕ) where
  -- `orderBy: { createdAt: "asc" }`
  unfoldable pub insert_oldest : A → List A → List A
  insert_oldest r [] = r ∷ []
  insert_oldest r (x ∷ rows) =
      let later = insert_oldest r rows in
      if leb (created_at r) (created_at x) then r ∷ x ∷ rows else x ∷ later

  unfoldable pub oldest_first : List A → List A
  unfolding insert_oldest
  oldest_first [] = []
  oldest_first (r ∷ rows) = insert_oldest r (oldest_first rows)

module _ {A : Type 0} (key created_at : A → ℕ) (is_doomed is_deletable : A → Bool) where
  -- `findMany`, with the batch as its `take`.
  unfoldable pub find_batch : List A → List A
  unfolding oldest_first
  find_batch rows = take batch_size (oldest_first created_at (filter is_doomed rows))

  abbrev pub is_among : List A → A → Bool
  is_among found r = any (λ x. key x == key r) found

  -- `deleteMany`, of the rows that were found and are still deletable.
  abbrev pub delete_batch : List A → List A → List A
  delete_batch found rows = filter (λ r. not (is_among found r && is_deletable r)) rows

  -- `batchedDelete`, by the rounds that are left: the table afterwards and the number of rows that
  -- went.
  unfoldable pub batched_delete : (List A → List A) → ℕ → List A → List A × ℕ
  unfolding find_batch
  batched_delete meanwhile zero rows = (rows, 0)
  batched_delete meanwhile (suc rounds) rows =
      let found = find_batch rows in
      let reached = meanwhile rows in
      let kept = delete_batch found reached in
      let removed = length reached - length kept in
      let rest = batched_delete meanwhile rounds kept in
      if length found == 0
      then (rows, 0)
      else if ltb (length found) batch_size
      then (kept, removed)
      else (rest.0, removed + rest.1)

-- `PRUNABLE_STATUS`
abbrev pub is_prunable : EmailStatus → Bool
is_prunable EmailStatus.queued = false
is_prunable EmailStatus.sent = true
is_prunable EmailStatus.failed = true
is_prunable EmailStatus.undeliverable = true
is_prunable EmailStatus.withheld = true

abbrev pub kind_code : EmailKind → ℕ
kind_code EmailKind.reply = 0
kind_code EmailKind.password_reset = 1
kind_code EmailKind.invitation = 2

-- `RETENTION_MS`: ninety days, and a day for what holds a link.
abbrev pub mail_retention : EmailKind → ℕ
mail_retention EmailKind.reply = 7776000000
mail_retention EmailKind.password_reset = 86400000
mail_retention EmailKind.invitation = 86400000

abbrev pub is_expired_mail : EmailKind → ℕ → OutboundEmail → Bool
is_expired_mail kind now e =
    kind_code e.kind == kind_code kind
    && (is_prunable e.status && ltb (e.created_at + mail_retention kind) now)

-- `pruneKind`
unfoldable pub prune_kind :
    (List OutboundEmail → List OutboundEmail)
    → EmailKind
    → ℕ
    → List OutboundEmail
    → List OutboundEmail × ℕ
unfolding batched_delete
prune_kind meanwhile kind now rows =
    batched_delete (λ (e : OutboundEmail). e.id) (λ e. e.created_at) (is_expired_mail kind now)
      (λ e. is_prunable e.status) meanwhile max_batches rows

-- `pruneOutbox`
unfoldable pub prune_outbox :
    (List OutboundEmail → List OutboundEmail) → ℕ → List OutboundEmail → List OutboundEmail
unfolding prune_kind
prune_outbox meanwhile now rows =
    (prune_kind meanwhile EmailKind.invitation now
      (prune_kind meanwhile EmailKind.password_reset now
        (prune_kind meanwhile EmailKind.reply now rows).0).0).0

-- `RETENTION_MS` of the trails: a year.
abbrev pub trail_retention : ℕ
trail_retention = 31536000000

-- `pruneTicketActivity`, `pruneAdminActivity` and `pruneAutomationSettingsRevision`, which differ in
-- the table alone.
unfoldable pub prune_trail :
    {A : Type 0} → (key created_at : A → ℕ) → (List A → List A) → ℕ → List A → List A × ℕ
unfolding batched_delete
prune_trail key created_at meanwhile now rows =
    batched_delete key created_at (λ r. ltb (created_at r + trail_retention) now) (λ r. true)
      meanwhile max_batches rows

-- The `_max` of a group.
unfoldable pub latest_of : ℕ → List Revision → ℕ
latest_of article [] = 0
latest_of article (r ∷ rows) =
    let rest = latest_of article rows in if r.article_id == article then max r.id rest else rest

-- `latestRevisionIdPerArticle`, asked of one revision's id.
abbrev pub is_latest : List Revision → ℕ → Bool
is_latest rows i = any (λ (r : Revision). latest_of r.article_id rows == i) rows

-- `pruneKnowledgeArticleRevision`: what is to be kept is read once, before the first batch.
unfoldable pub prune_revisions :
    (List Revision → List Revision) → ℕ → List Revision → List Revision × ℕ
unfolding batched_delete latest_of
prune_revisions meanwhile now rows =
    batched_delete (λ (r : Revision). r.id) (λ r. r.created_at)
      (λ r. ltb (r.created_at + trail_retention) now && not (is_latest rows r.id))
      (λ r. not (is_latest rows r.id)) meanwhile max_batches rows

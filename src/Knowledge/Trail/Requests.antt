-- ===== src/Knowledge/Trail/Requests.antt =====
-- The trail of the knowledge base through the requests of apps/api/src/routes/knowledge.ts.

use ticket_manager_system.Common.{
  ℕ, ◌≡◌, refl, inl, inr, Bool, false, some, List, [], ◌∷◌, arith, ◌==◌, any, Bool-cases,
  Option-cases, All, is_some,
}
use ticket_manager_system.Desk.Table.{fits_some}
use ticket_manager_system.Knowledge.{
  RevisionAction, RevisionStatus, Editor, KnowledgeBase, ArticleBody, parse_article, row_of,
  revision_of, next_article_id, add_revision, create_article, needs_approval, is_pending_for,
  edit_article, is_awaiting, is_editor, approve_pending, approve_revision, reject_revision,
  archive_row, archive_action, archive_article, same_flag, KbCall, creates, edits, approves,
  rejects, archives, kb_call, gap,
}
use ticket_manager_system.Knowledge.Trail.{
  article_at, Later, Later-refl, Later-trans, add_revision-Later, close_pending-Later,
  update_row-Later, open_row-Later, just_added, write_edit-Later, approve_pending-Later,
}

module _ (m : KnowledgeBase → KnowledgeBase) (orderly : (d : KnowledgeBase) → Later d (m d))
    (now : ℕ) (user : Editor) where
  create-Later : (b : ArticleBody) (d : KnowledgeBase) → Later d (create_article m now user b d).0
  unfolding create_article
  create-Later b d = elim (Option-cases (parse_article b)) [
    | inl bad ↦ rw (bad, create_article) (Later-refl d)
    | inr (content, parsed) ↦ elim (Bool-cases (is_some (row_of (next_article_id d) (m d)))) [
      | inl taken ↦ rw (parsed, create_article, taken) (orderly d)
      | inr free ↦
          let i = next_article_id d in
          let added =
            add_revision now user i RevisionAction.created content false RevisionStatus.approved
              (m d) in
          rw (parsed, create_article, free)
            (Later-trans d (m d) _ (orderly d) (
              Later-trans (m d) added _
                (add_revision-Later now user i RevisionAction.created content false
                  RevisionStatus.approved (m d))
                (open_row-Later now i content added
                  (just_added now user i RevisionAction.created content false (m d)))))
    ]
  ]

  edit-Later :
      (i : ℕ) (b : ArticleBody) (d : KnowledgeBase) → Later d (edit_article m now user i b d).0
  unfolding edit_article
  edit-Later i b d = elim (Option-cases (parse_article b)) [
    | inl bad ↦ rw (bad, edit_article) (Later-refl d)
    | inr (content, parsed) ↦ elim (Option-cases (row_of i d)) [
      | inl gone ↦ rw (parsed, edit_article, gone) (Later-refl d)
      | inr (existing, found) ↦ elim (Bool-cases existing.is_archived) [
        | inl shut ↦ rw (parsed, edit_article, found, shut) (Later-refl d)
        | inr live ↦ elim (Bool-cases (needs_approval existing.content content)) [
          | inr plain ↦
              rw (parsed, edit_article, found, live, plain)
                (Later-trans d (m d) _ (orderly d) (write_edit-Later now user i content (m d)))
          | inl gated ↦ elim (Bool-cases (any (is_pending_for i) (m d).revisions)) [
            | inl waiting ↦ rw (parsed, edit_article, found, live, gated, waiting) (orderly d)
            | inr clear ↦
                rw (parsed, edit_article, found, live, gated, clear)
                  (Later-trans d (m d) _ (orderly d) (
                    Later-trans (m d) (m (m d)) _ (orderly (m d)) (
                      add_revision-Later now user i RevisionAction.updated content false
                        RevisionStatus.pending (m (m d)))))
          ]
        ]
      ]
    ]
  ]

  approve-Later : (i r : ℕ) (d : KnowledgeBase) → Later d (approve_revision m now user i r d).0
  unfolding approve_revision approve_pending
  approve-Later i r d = elim (Option-cases (revision_of r d)) [
    | inl gone ↦ rw (gone, approve_revision) (Later-refl d)
    | inr (seen, found) ↦ elim (Bool-cases (seen.article_id == i)) [
      | inr elsewhere ↦ rw (found, approve_revision, elsewhere) (Later-refl d)
      | inl here ↦ elim (Bool-cases (is_editor user seen)) [
        | inl own ↦ rw (found, approve_revision, here, own) (Later-refl d)
        | inr other ↦
            let of_it : article_at r d ≡ some i = rw found (ground (arith, here)) in
            rw (found, approve_revision, here, other)
              (Later-trans d (m d) _ (orderly d)
                (approve_pending-Later now user i r (m d) ((orderly d).fixed r i of_it)))
      ]
    ]
  ]

  reject-Later : (i r : ℕ) (d : KnowledgeBase) → Later d (reject_revision m now user i r d).0
  unfolding reject_revision
  reject-Later i r d = elim (Option-cases (revision_of r d)) [
    | inl gone ↦ rw (gone, reject_revision) (Later-refl d)
    | inr (seen, found) ↦ elim (Bool-cases (seen.article_id == i)) [
      | inr elsewhere ↦ rw (found, reject_revision, elsewhere) (Later-refl d)
      | inl here ↦ elim (Bool-cases (fits_some is_awaiting (revision_of r (m d)))) [
        | inr closed ↦ rw (found, reject_revision, here, closed) (orderly d)
        | inl waiting ↦
            rw (found, reject_revision, here, waiting)
              (Later-trans d (m d) _ (orderly d)
                (close_pending-Later RevisionStatus.rejected now user r (m d)))
      ]
    ]
  ]

  archive-Later :
      (i : ℕ) (flag : Bool) (d : KnowledgeBase) → Later d (archive_article m now user i flag d).0
  unfolding archive_article
  archive-Later i flag d = elim (Option-cases (row_of i d)) [
    | inl gone ↦ rw (gone, archive_article) (Later-refl d)
    | inr (existing, found) ↦ elim (Bool-cases (same_flag existing.is_archived flag)) [
      | inl idle ↦ rw (found, archive_article, idle) (Later-refl d)
      | inr moves ↦ elim (Option-cases (row_of i (m d))) [
        | inl lost ↦ rw (found, archive_article, moves, lost) (orderly d)
        | inr (row, there) ↦
            let added =
              add_revision now user i (archive_action flag) row.content flag RevisionStatus.approved
                (m d) in
            rw (found, archive_article, moves, there)
              (Later-trans d (m d) _ (orderly d) (
                Later-trans (m d) added _
                  (add_revision-Later now user i (archive_action flag) row.content flag
                    RevisionStatus.approved (m d))
                  (update_row-Later i (archive_row now flag) added (λ a. refl)
                    (λ h a at. h i a at))))
      ]
    ]
  ]

-- A request after which the trail is as complete as before, if what others do in its gap is so.
kb_call-Later :
    (c : KbCall) (d : KnowledgeBase)
    → ((d : KnowledgeBase) → Later d (gap c d))
    → Later d (kb_call c d).0
unfolding kb_call
kb_call-Later (creates m now user b) d orderly = create-Later m orderly now user b d
kb_call-Later (edits m now user i b) d orderly = edit-Later m orderly now user i b d
kb_call-Later (approves m now user i r) d orderly = approve-Later m orderly now user i r d
kb_call-Later (rejects m now user i r) d orderly = reject-Later m orderly now user i r d
kb_call-Later (archives m now user i flag) d orderly = archive-Later m orderly now user i flag d

-- Requests one after the other.
unfoldable pub kb_calls : List KbCall → KnowledgeBase → KnowledgeBase
unfolding kb_call
kb_calls [] d = d
kb_calls (c ∷ cs) d = kb_calls cs (kb_call c d).0

-- After any requests in any order, where each article's text was that of an approved revision of
-- it, it still is, and every revision that was there is of the same article as before, where what
-- others do in each request's gap keeps to both.
pub kb_calls-Later :
    (cs : List KbCall) (d : KnowledgeBase)
    → All (λ c. (e : KnowledgeBase) → Later e (gap c e)) cs
    → Later d (kb_calls cs d)
unfolding kb_calls
kb_calls-Later [] d orderly = Later-refl d
kb_calls-Later (c ∷ cs) d orderly =
    Later-trans d (kb_call c d).0 (kb_calls cs (kb_call c d).0) (kb_call-Later c d orderly.0)
      (kb_calls-Later cs (kb_call c d).0 orderly.1)

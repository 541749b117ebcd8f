-- ===== src/Knowledge.antt =====
-- The knowledge base and its review: apps/api/src/routes/knowledge.ts, with the bodies of
-- packages/core/src/schemas/knowledge.ts. An article's id is the number in `KB-000`, whose order as
-- text is that of the numbers up to three figures. What others do between a handler's reads and its
-- write is a function on the state.
pub mod Corpus
pub mod Trail
use ticket_manager_system.Common.{
  ℕ, ◌+◌, String, Bool, true, false, not, ◌&&◌, ◌||◌, Option, none, some, List, [], ◌∷◌, ◌++◌, leb,
  ◌==◌, max, if◌then◌else◌, any, is_some, is_none,
}
use ticket_manager_system.Shared.{TicketCategory}
use ticket_manager_system.Text.{trim, is_empty, utf16_length}
use ticket_manager_system.Desk.Table.{find, update, fits_some}

pub data RevisionAction : Type 0 where
  created updated archived restored : RevisionAction

pub data RevisionStatus : Type 0 where
  pending approved rejected : RevisionStatus

abbrev pub is_pending_status : RevisionStatus → Bool
is_pending_status RevisionStatus.pending = true
is_pending_status RevisionStatus.approved = false
is_pending_status RevisionStatus.rejected = false

-- The fields that an edit writes.
pub record Content : Type 0 where
  pub title : String
  pub category : TicketCategory
  pub body : String
  pub internal_note : Option String
  pub auto_reply : Bool

pub record KbRow : Type 0 where
  pub id : ℕ
  pub content : Content
  pub is_archived : Bool
  pub created_at : ℕ
  pub updated_at : ℕ

pub record Editor : Type 0 where
  pub id : ℕ
  pub name : String
  pub email : String

pub record Revision : Type 0 where
  pub id : ℕ
  pub article_id : ℕ
  pub action : RevisionAction
  pub content : Content
  pub is_archived : Bool
  pub editor_id : Option ℕ
  pub editor_name : String
  pub editor_email : Option String
  pub status : RevisionStatus
  pub approved_by_id : Option ℕ
  pub approved_by_name : Option String
  pub approved_at : Option ℕ
  pub created_at : ℕ

pub record KnowledgeBase : Type 0 where
  pub rows : List KbRow
  pub revisions : List Revision
  pub next_revision : ℕ

pub data Answer : Type 0 where
  ok created accepted bad_request forbidden not_found conflict failed : Answer

-- A body as it arrives, and the limits of its schema.
pub record ArticleBody : Type 0 where
  pub title : String
  pub category : Option TicketCategory
  pub body : String
  pub internal_note : String
  pub auto_reply : Bool

-- `withNote`
abbrev pub with_note : String → Option String
with_note s = if is_empty s then none else some s

-- `knowledgeArticleSchema`, with `withNote`.
unfoldable pub parse_article : ArticleBody → Option Content
unfolding utf16_length
parse_article b =
    let title = trim b.title in
    let body = trim b.body in
    let note = trim b.internal_note in
    elim b.category [
      | none ↦ none
      | some c ↦
          if not (is_empty title)
            && leb (utf16_length title) 200
            && not (is_empty body)
            && leb (utf16_length body) 4000
            && leb (utf16_length note) 2000
          then some (record {
            title = title;
            category = c;
            body = body;
            internal_note = with_note note;
            auto_reply = b.auto_reply;
          })
          else none
    ]

abbrev pub row_of : ℕ → KnowledgeBase → Option KbRow
row_of i d = find (λ (a : KbRow). a.id) i d.rows

abbrev pub revision_of : ℕ → KnowledgeBase → Option Revision
revision_of r d = find (λ (x : Revision). x.id) r d.revisions

-- `nextArticleId`
unfoldable pub highest_id : List KbRow → ℕ
highest_id [] = 0
highest_id (a ∷ rows) = max a.id (highest_id rows)

abbrev pub next_article_id : KnowledgeBase → ℕ
next_article_id d = highest_id d.rows + 1

-- `knowledgeArticleRevision.create` with `editorOf`.
abbrev pub new_revision :
    ℕ → Editor → ℕ → RevisionAction → Content → Bool → RevisionStatus → KnowledgeBase → Revision
new_revision now user i action content flag status d = record {
  id = d.next_revision;
  article_id = i;
  action = action;
  content = content;
  is_archived = flag;
  editor_id = some user.id;
  editor_name = user.name;
  editor_email = some user.email;
  status = status;
  approved_by_id = none;
  approved_by_name = none;
  approved_at = none;
  created_at = now;
}

abbrev pub add_revision :
    ℕ
    → Editor
    → ℕ
    → RevisionAction
    → Content
    → Bool
    → RevisionStatus
    → KnowledgeBase
    → KnowledgeBase
add_revision now user i action content flag status d = record d {
  revisions = d.revisions ++ new_revision now user i action content flag status d ∷ [];
  next_revision = d.next_revision + 1;
}

abbrev pub update_row : ℕ → (KbRow → KbRow) → KnowledgeBase → KnowledgeBase
update_row i f d = record d { rows = update (λ (a : KbRow). a.id) i (λ _. true) f d.rows }

abbrev pub new_row : ℕ → ℕ → Content → KbRow
new_row now i content = record {
  id = i;
  content = content;
  is_archived = false;
  created_at = now;
  updated_at = now;
}

-- `POST /`: a taken id fails the transaction.
unfoldable pub create_article :
    (KnowledgeBase → KnowledgeBase)
    → ℕ
    → Editor
    → ArticleBody
    → KnowledgeBase
    → KnowledgeBase × Answer
unfolding parse_article highest_id find
create_article meanwhile now user b d = elim (parse_article b) [
  | none ↦ (d, Answer.bad_request)
  | some content ↦
      let i = next_article_id d in
      let d' = meanwhile d in
      if is_some (row_of i d') then (d', Answer.failed) else (
        add_revision now user i RevisionAction.created content false RevisionStatus.approved
            (record d' { rows = d'.rows ++ new_row now i content ∷ [] }),
        Answer.created,
      )
]

-- `needsApproval`
abbrev pub needs_approval : Content → Content → Bool
needs_approval existing edited = existing.auto_reply || edited.auto_reply

abbrev pub is_pending_for : ℕ → Revision → Bool
is_pending_for i r = r.article_id == i && is_pending_status r.status

abbrev pub with_content : ℕ → Content → KbRow → KbRow
with_content now content a = record a { content = content; updated_at = now }

-- The write of an edit that needs no second admin.
abbrev pub write_edit : ℕ → Editor → ℕ → Content → KnowledgeBase → KnowledgeBase × Answer
write_edit now user i content d = if is_none (row_of i d) then (d, Answer.failed) else (
  add_revision now user i RevisionAction.updated content false RevisionStatus.approved
      (update_row i (with_content now content) d),
  Answer.ok,
)

-- The write of a proposal.
abbrev pub propose_edit :
    (KnowledgeBase → KnowledgeBase)
    → ℕ
    → Editor
    → ℕ
    → Content
    → KnowledgeBase
    → KnowledgeBase × Answer
propose_edit meanwhile now user i content d =
    if any (is_pending_for i) d.revisions then (d, Answer.conflict) else (
      add_revision now user i RevisionAction.updated content false RevisionStatus.pending
          (meanwhile d),
      Answer.accepted,
    )

-- `PATCH /:id`
unfoldable pub edit_article :
    (KnowledgeBase → KnowledgeBase)
    → ℕ
    → Editor
    → ℕ
    → ArticleBody
    → KnowledgeBase
    → KnowledgeBase × Answer
unfolding parse_article find
edit_article meanwhile now user i b d = elim (parse_article b) [
  | none ↦ (d, Answer.bad_request)
  | some content ↦ elim (row_of i d) [
    | none ↦ (d, Answer.not_found)
    | some existing ↦
        if existing.is_archived
        then (d, Answer.conflict)
        else if not (needs_approval existing.content content)
        then write_edit now user i content (meanwhile d)
        else propose_edit meanwhile now user i content (meanwhile d)
  ]
]

abbrev pub close_revision : RevisionStatus → ℕ → Editor → Revision → Revision
close_revision status now user r = record r {
  status = status;
  approved_by_id = some user.id;
  approved_by_name = some user.name;
  approved_at = some now;
}

abbrev pub is_awaiting : Revision → Bool
is_awaiting r = is_pending_status r.status

-- `updateMany` on a revision that is still pending.
abbrev pub close_pending : RevisionStatus → ℕ → Editor → ℕ → KnowledgeBase → KnowledgeBase
close_pending status now user r d = record d {
  revisions =
      update (λ (x : Revision). x.id) r is_awaiting (close_revision status now user) d.revisions;
}

abbrev pub is_editor : Editor → Revision → Bool
is_editor user r = elim r.editor_id [ none ↦ false | some e ↦ e == user.id ]

-- The transaction of an approval.
unfoldable pub approve_pending : ℕ → Editor → ℕ → ℕ → KnowledgeBase → KnowledgeBase × Answer
unfolding find
approve_pending now user i r d = elim (revision_of r d) [
  | none ↦ (d, Answer.conflict)
  | some revision ↦
      if not (is_awaiting revision)
      then (d, Answer.conflict)
      else if is_none (row_of i d)
      then (d, Answer.failed)
      else (
        update_row i (with_content now revision.content)
            (close_pending RevisionStatus.approved now user r d),
        Answer.ok,
      )
]

-- `POST /:id/revisions/:revisionId/approve`, behind `pendingRevisionOf`.
unfoldable pub approve_revision :
    (KnowledgeBase → KnowledgeBase) → ℕ → Editor → ℕ → ℕ → KnowledgeBase → KnowledgeBase × Answer
unfolding find approve_pending
approve_revision meanwhile now user i r d = elim (revision_of r d) [
  | none ↦ (d, Answer.not_found)
  | some revision ↦
      if not (revision.article_id == i)
      then (d, Answer.not_found)
      else if is_editor user revision
      then (d, Answer.forbidden)
      else approve_pending now user i r (meanwhile d)
]

-- `POST /:id/revisions/:revisionId/reject`, behind `pendingRevisionOf`.
unfoldable pub reject_revision :
    (KnowledgeBase → KnowledgeBase) → ℕ → Editor → ℕ → ℕ → KnowledgeBase → KnowledgeBase × Answer
unfolding find
reject_revision meanwhile now user i r d = elim (revision_of r d) [
  | none ↦ (d, Answer.not_found)
  | some revision ↦
      if not (revision.article_id == i)
      then (d, Answer.not_found)
      else let d' = meanwhile d in
        if fits_some is_awaiting (revision_of r d')
        then (close_pending RevisionStatus.rejected now user r d', Answer.ok)
        else (d', Answer.conflict)
]

abbrev pub archive_action : Bool → RevisionAction
archive_action true = RevisionAction.archived
archive_action false = RevisionAction.restored

abbrev pub same_flag : Bool → Bool → Bool
same_flag true b = b
same_flag false b = not b

abbrev pub archive_row : ℕ → Bool → KbRow → KbRow
archive_row now flag a = record a { is_archived = flag; updated_at = now }

-- `POST /:id/archive`
unfoldable pub archive_article :
    (KnowledgeBase → KnowledgeBase) → ℕ → Editor → ℕ → Bool → KnowledgeBase → KnowledgeBase × Answer
unfolding find
archive_article meanwhile now user i flag d = elim (row_of i d) [
  | none ↦ (d, Answer.not_found)
  | some existing ↦
      if same_flag existing.is_archived flag
      then (d, Answer.ok)
      else let d' = meanwhile d in
        elim (row_of i d') [
          | none ↦ (d', Answer.failed)
          | some row ↦ (
            add_revision now user i (archive_action flag) row.content flag RevisionStatus.approved
                (update_row i (archive_row now flag) d'),
            Answer.ok,
          )
        ]
]

-- A request, with what others do in its gap.
pub data KbCall : Type 0 where
  creates : (KnowledgeBase → KnowledgeBase) → ℕ → Editor → ArticleBody → KbCall
  edits : (KnowledgeBase → KnowledgeBase) → ℕ → Editor → ℕ → ArticleBody → KbCall
  approves : (KnowledgeBase → KnowledgeBase) → ℕ → Editor → (article revision : ℕ) → KbCall
  rejects : (KnowledgeBase → KnowledgeBase) → ℕ → Editor → (article revision : ℕ) → KbCall
  archives : (KnowledgeBase → KnowledgeBase) → ℕ → Editor → ℕ → Bool → KbCall

unfoldable pub kb_call : KbCall → KnowledgeBase → KnowledgeBase × Answer
unfolding create_article edit_article approve_revision reject_revision archive_article
kb_call (creates m now user b) d = create_article m now user b d
kb_call (edits m now user i b) d = edit_article m now user i b d
kb_call (approves m now user i r) d = approve_revision m now user i r d
kb_call (rejects m now user i r) d = reject_revision m now user i r d
kb_call (archives m now user i flag) d = archive_article m now user i flag d

abbrev pub gap : KbCall → KnowledgeBase → KnowledgeBase
gap (creates m now user b) d = m d
gap (edits m now user i b) d = m d
gap (approves m now user i r) d = m d
gap (rejects m now user i r) d = m d
gap (archives m now user i flag) d = m d

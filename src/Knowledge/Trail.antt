-- ===== src/Knowledge/Trail.antt =====
-- The trail of apps/api/src/routes/knowledge.ts: for each article, who wrote what stands in it.
pub mod Requests
use mathlib.Core.List.{Memᴰ}
use mathlib.Core.List.Memᴰ
use ticket_manager_system.Common.{
  ℕ, ◌≡◌, refl, sym, ap, subst, ◌∙◌, ◌⊎◌, inl, inr, Bool, true, false, not, Option, none, some,
  List, [], ◌∷◌, ◌++◌, arith, ◌==◌, any, if◌then◌else◌, Bool-cases, Option-cases, All, is_none,
  is_some,
}
use ticket_manager_system.Desk.Table.{
  find, update, written, fits_some, read_of, find-append, find-update_field,
}
use ticket_manager_system.Knowledge.{
  RevisionAction, RevisionStatus, is_pending_status, Answer, Content, KbRow, Editor, Revision,
  KnowledgeBase, ArticleBody, parse_article, row_of, revision_of, next_article_id, new_revision,
  add_revision, update_row, new_row, create_article, needs_approval, is_pending_for, with_content,
  write_edit, propose_edit, edit_article, close_revision, is_awaiting, close_pending, is_editor,
  approve_pending, approve_revision, reject_revision, archive_row, archive_action, archive_article,
  same_flag, KbCall, creates, edits, approves, rejects, archives, kb_call, gap,
}
use ticket_manager_system.Knowledge.Corpus.{row_of-update_row}

-- An approved revision of an article with a text.
abbrev pub Recorded : ℕ → Content → List Revision → Type 0
Recorded i x revisions =
    (r : Revision) × (Memᴰ r revisions)
    × (r.article_id ≡ i)
    × (r.status ≡ RevisionStatus.approved)
    × (r.content ≡ x)

-- Every article's text is that of an approved revision of it.
abbrev pub Documented : KnowledgeBase → Type 0
Documented d = (i : ℕ) (row : KbRow) → row_of i d ≡ some row → Recorded i row.content d.revisions

-- The article that a revision is of.
abbrev pub article_at : ℕ → KnowledgeBase → Option ℕ
article_at r d = read_of (λ (x : Revision). x.article_id) (revision_of r d)

-- The trail stays complete, and no revision goes to another article.
pub record Later (d d' : KnowledgeBase) : Type 0 where
  pub documented : Documented d → Documented d'
  pub fixed : (r j : ℕ) → article_at r d ≡ some j → article_at r d' ≡ some j

pub Later-refl : (d : KnowledgeBase) → Later d d
Later-refl d = record { documented = λ h. h; fixed = λ r j e. e }

pub Later-trans : (a b c : KnowledgeBase) → Later a b → Later b c → Later a c
Later-trans a b c f g = record {
  documented = λ h. g.documented (f.documented h);
  fixed = λ r j e. g.fixed r j (f.fixed r j e);
}

pub add_revision-Later :
    (now : ℕ) (user : Editor) (i : ℕ) (action : RevisionAction) (content : Content) (flag : Bool)
    (status : RevisionStatus) (d : KnowledgeBase)
    → Later d (add_revision now user i action content flag status d)
add_revision-Later now user i action content flag status d =
    let r = new_revision now user i action content flag status d in
    record {
      documented = λ h j row found.
          let (x, in_there, of_it, approved, same) = h j row found in
          (x, Memᴰ.append_left (r ∷ []) in_there, of_it, approved, same);
      fixed = λ k j e. ground (arith, e, find-append (λ (x : Revision). x.id) k d.revisions r);
    }

-- A row that a write does not fit is there afterwards, and so is the one that it writes.
module _ {A : Type 0} (key : A → ℕ) (fits : A → Bool) (f : A → A) where
  update-keeps :
      (i : ℕ) (rows : List A) (r : A)
      → Memᴰ r rows
      → fits r ≡ false
      → Memᴰ r (update key i fits f rows)
  unfolding update
  update-keeps i [] r m misfit = absurd (Memᴰ.not-nil m)
  update-keeps i (x ∷ rows) r (Memᴰ.head e) misfit = elim (Bool-cases (key x == i)) [
    | inl here ↦ rw here (Memᴰ.head (ground (arith, misfit, e)))
    | inr there ↦ rw there (Memᴰ.head e)
  ]
  update-keeps i (x ∷ rows) r (Memᴰ.tail m) misfit = elim (Bool-cases (key x == i)) [
    | inl here ↦ rw here (Memᴰ.tail m)
    | inr there ↦ rw there (Memᴰ.tail (update-keeps i rows r m misfit))
  ]

  update-writes :
      (i : ℕ) (rows : List A) (r : A)
      → find key i rows ≡ some r
      → fits r ≡ true
      → Memᴰ (f r) (update key i fits f rows)
  unfolding update find
  update-writes i [] r e fit = absurd (cc)
  update-writes i (x ∷ rows) r e fit = elim (Bool-cases (key x == i)) [
    | inl here ↦ rw here (Memᴰ.head (ground (arith, fit, rw here at e)))
    | inr there ↦ rw there (Memᴰ.tail (update-writes i rows r (rw there at e) fit))
  ]

approved_not_awaiting : (r : Revision) → r.status ≡ RevisionStatus.approved → is_awaiting r ≡ false
approved_not_awaiting r e = rw e refl

pub close_pending-Later :
    (status : RevisionStatus) (now : ℕ) (user : Editor) (r : ℕ) (d : KnowledgeBase)
    → Later d (close_pending status now user r d)
close_pending-Later status now user r d = record {
  documented = λ h j row found.
      let (x, in_there, of_it, approved, same) = h j row found in
      (
        x,
        update-keeps (λ (x : Revision). x.id) is_awaiting (close_revision status now user) r
            d.revisions x in_there (approved_not_awaiting x approved),
        of_it,
        approved,
        same,
      );
  fixed = λ k j e.
      find-update_field (λ (x : Revision). x.id) is_awaiting (close_revision status now user)
        (λ x. x.article_id) (λ x. refl) (λ x. refl) r k d.revisions
      ∙ e;
}

-- A write of one article whose new text is on the trail.
pub update_row-Later :
    (i : ℕ) (f : KbRow → KbRow) (d : KnowledgeBase)
    → ((a : KbRow) → (f a).id ≡ a.id)
    → (Documented d → (a : KbRow) → row_of i d ≡ some a → Recorded i (f a).content d.revisions)
    → Later d (update_row i f d)
update_row-Later i f d same recorded = record {
  documented = λ h j row found. elim (Bool-cases (i == j)) [
    | inr there ↦ h j row (sym (row_of-update_row i j f d same ∙ rw there refl) ∙ found)
    | inl here ↦
        let at : i ≡ j = ground (arith, here) in
        let after : written (λ _. true) f (row_of j d) ≡ some row =
          sym (row_of-update_row i j f d same ∙ rw here refl) ∙ found in
        elim (Option-cases (row_of j d)) [
          | inl gone ↦ absurd (cc (rw gone at after))
          | inr (old, was) ↦
              let row_is : f old ≡ row = ground (arith, rw was at after) in
              subst (λ (row : KbRow). Recorded j row.content d.revisions) row_is
                (subst (λ j. Recorded j (f old).content d.revisions) at
                  (recorded h old (ap (λ j. row_of j d) at ∙ was)))
        ]
  ];
  fixed = λ r j e. e;
}

pub open_row-Later :
    (now i : ℕ) (content : Content) (d : KnowledgeBase)
    → Recorded i content d.revisions
    → Later d (record d { rows = d.rows ++ new_row now i content ∷ [] })
open_row-Later now i content d recorded = record {
  documented = λ h j row found.
      let opened = find-append (λ (a : KbRow). a.id) j d.rows (new_row now i content) in
      elim (Option-cases (row_of j d)) [
        | inr (old, was) ↦
            let same : old ≡ row = ground (arith, found, was, opened) in
            subst (λ (row : KbRow). Recorded j row.content d.revisions) same (h j old was)
        | inl free ↦ elim (Bool-cases (i == j)) [
          | inl here ↦
              let same : new_row now i content ≡ row = ground (arith, found, free, here, opened) in
              let at : i ≡ j = ground (arith, here) in
              subst (λ (row : KbRow). Recorded j row.content d.revisions) same
                (subst (λ j. Recorded j content d.revisions) at recorded)
          | inr there ↦
              let nothing : none ≡ some row = ground (arith, found, free, there, opened) in
              absurd (cc (nothing))
        ]
      ];
  fixed = λ r j e. e;
}

-- What a revision that is written as approved says.
pub just_added :
    (now : ℕ) (user : Editor) (i : ℕ) (action : RevisionAction) (content : Content) (flag : Bool)
    (d : KnowledgeBase)
    → Recorded i content
        (add_revision now user i action content flag RevisionStatus.approved d).revisions
just_added now user i action content flag d = (
  new_revision now user i action content flag RevisionStatus.approved d,
  Memᴰ.append_right d.revisions (Memᴰ.head refl),
  refl,
  refl,
  refl,
)

pub write_edit-Later :
    (now : ℕ) (user : Editor) (i : ℕ) (content : Content) (d : KnowledgeBase)
    → Later d (write_edit now user i content d).0
write_edit-Later now user i content d = elim (Bool-cases (is_none (row_of i d))) [
  | inl gone ↦ rw gone (Later-refl d)
  | inr there ↦
      let added =
        add_revision now user i RevisionAction.updated content false RevisionStatus.approved d in
      rw there (
        Later-trans d added (update_row i (with_content now content) added)
          (add_revision-Later now user i RevisionAction.updated content false
            RevisionStatus.approved d)
          (update_row-Later i (with_content now content) added (λ a. refl)
            (λ h a found. just_added now user i RevisionAction.updated content false d)))
]

pub approve_pending-Later :
    (now : ℕ) (user : Editor) (i r : ℕ) (d : KnowledgeBase)
    → article_at r d ≡ some i
    → Later d (approve_pending now user i r d).0
unfolding approve_pending
approve_pending-Later now user i r d of_it = elim (Option-cases (revision_of r d)) [
  | inl gone ↦ rw (gone, approve_pending) (Later-refl d)
  | inr (proposal, found) ↦ elim (Bool-cases (is_awaiting proposal)) [
    | inr closed ↦ rw (found, approve_pending, closed) (Later-refl d)
    | inl waiting ↦ elim (Bool-cases (is_none (row_of i d))) [
      | inl missing ↦ rw (found, approve_pending, waiting, missing) (Later-refl d)
      | inr there ↦
          let closed = close_pending RevisionStatus.approved now user r d in
          rw (found, approve_pending, waiting, there)
            (Later-trans d closed (update_row i (with_content now proposal.content) closed)
              (close_pending-Later RevisionStatus.approved now user r d)
              (update_row-Later i (with_content now proposal.content) closed (λ a. refl)
                (λ h a row. (
                  close_revision RevisionStatus.approved now user proposal,
                  update-writes (λ (x : Revision). x.id) is_awaiting
                      (close_revision RevisionStatus.approved now user) r d.revisions proposal found
                      waiting,
                  ground (arith, rw found at of_it),
                  refl,
                  refl,
                ))))
    ]
  ]
]

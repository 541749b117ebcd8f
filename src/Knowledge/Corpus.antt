-- ===== src/Knowledge/Corpus.antt =====
-- What the requests of apps/api/src/routes/knowledge.ts can put before the model, which reads the
-- articles that apps/api/src/ai/knowledge-base.ts selects.
use ticket_manager_system.Common.{
  ℕ, ◌≡◌, subst, ◌⊎◌, inl, inr, true, false, not, ◌&&◌, Option, none, some, arith, ◌==◌,
  if◌then◌else◌, Bool-cases,
}
use ticket_manager_system.Desk.Table.{written, find-update_self, find-update_other}
use ticket_manager_system.Knowledge.{
  Content, KbRow, Revision, KnowledgeBase, parse_article, row_of, revision_of, update_row,
  is_awaiting, is_editor, KbCall, creates, edits, approves, rejects, archives, gap,
}

-- What the model may be given of a row.
abbrev pub live_content : Option KbRow → Option Content
live_content none = none
live_content (some a) = if a.content.auto_reply && not a.is_archived then some a.content else none

abbrev pub live : ℕ → KnowledgeBase → Option Content
live j d = live_content (row_of j d)

-- What lets a request put a text before the model.
abbrev pub Backed : KbCall → KnowledgeBase → ℕ → Content → Type 0
Backed (creates m now user b) d j x = (parse_article b ≡ some x) × (row_of j (m d) ≡ none)
Backed (edits m now user i b) d j x = ⊥
Backed (approves m now user i r) d j x =
    (i ≡ j)
    × ((seen : Revision) × (proposal : Revision) × ((revision_of r d ≡ some seen)
          × (seen.article_id ≡ j)
          × (is_editor user seen ≡ false))
        × (revision_of r (m d) ≡ some proposal)
        × (is_awaiting proposal ≡ true)
        × (proposal.content ≡ x))
Backed (rejects m now user i r) d j x = ⊥
Backed (archives m now user i flag) d j x =
    (flag ≡ false) × ((row : KbRow) × (row_of j (m d) ≡ some row) × (row.content ≡ x))

-- The text was before the model already, or the request has what it takes.
abbrev pub Accounted : KbCall → KnowledgeBase → ℕ → Content → Type 0
Accounted c d j x =
    (live j d ≡ some x)
    ⊎ (live j (gap c d) ≡ some x)
    ⊎ (live j (gap c (gap c d)) ≡ some x)
    ⊎ Backed c d j x

pub row_of-update_row :
    (i j : ℕ) (f : KbRow → KbRow) (d : KnowledgeBase)
    → ((a : KbRow) → (f a).id ≡ a.id)
    → row_of j (update_row i f d)
      ≡ (if i == j then written (λ _. true) f (row_of j d) else row_of j d)
row_of-update_row i j f d same = elim (Bool-cases (i == j)) [
  | inl here ↦ rw here (
      subst (λ k. row_of k (update_row i f d) ≡ written (λ _. true) f (row_of k d))
        (ground (arith, here)) (find-update_self (λ (a : KbRow). a.id) (λ _. true) f same i d.rows))
  | inr there ↦
      rw there (find-update_other (λ (a : KbRow). a.id) (λ _. true) f same i j d.rows there)
]

-- ===== src/AutoReply/Cited.antt =====
-- Which articles an answer of apps/api/src/ai/auto-reply.ts cites.
use mathlib.Core.List.{Memᴰ}
use text.Mathlib.TextEquality.{eq_iff}
use ticket_manager_system.Common.{
  String, ◌≡◌, refl, sym, ap, ◌∙◌, Option, none, some, List, [], ◌∷◌, str_eq, All, arith,
  Bool-cases, Option-cases, All-map, inl, inr,
}
use ticket_manager_system.Desk.{Article}
use ticket_manager_system.Text.{trim}
use ticket_manager_system.AutoReply.Drafting.{ModelAnswer, article_by_id, cited_articles}

-- The answer cites the article: its id is one of the answer's, trimmed and in upper case.
abbrev pub Cites : (String → String) → ModelAnswer → Article → Type 0
Cites uppered answer a = (id : String) × (Memᴰ id answer.article_ids × (a.id ≡ uppered (trim id)))

article_by_id-given :
    (articles : List Article) (id : String) (a : Article)
    → article_by_id articles id ≡ some a
    → Memᴰ a articles
unfolding article_by_id
article_by_id-given [] id a e = absurd (cc)
article_by_id-given (b ∷ articles) id a e = elim (Option-cases (article_by_id articles id)) [
  | inr (c, later) ↦ Memᴰ.tail (article_by_id-given articles id a (later ∙ rw later at e))
  | inl last ↦ elim (Bool-cases (str_eq b.id id)) [
    | inl same ↦ Memᴰ.head (ground (arith, rw (last, same) at e))
    | inr other ↦ absurd (cc (rw (last, other) at e))
  ]
]

article_by_id-id :
    (articles : List Article) (id : String) (a : Article)
    → article_by_id articles id ≡ some a
    → a.id ≡ id
unfolding article_by_id
article_by_id-id [] id a e = absurd (cc)
article_by_id-id (b ∷ articles) id a e = elim (Option-cases (article_by_id articles id)) [
  | inr (c, later) ↦ article_by_id-id articles id a (later ∙ rw later at e)
  | inl last ↦ elim (Bool-cases (str_eq b.id id)) [
    | inl same ↦ ap article_id (sym (rw (last, same) at e)) ∙ (eq_iff b.id id).0 same
    | inr other ↦ absurd (cc (rw (last, other) at e))
  ]
]
  where
    article_id : Option Article → String
    article_id none = id
    article_id (some a) = a.id

Cites-later :
    (uppered : String → String) (answer : ModelAnswer) (id : String) (a : Article)
    → Cites uppered answer a
    → Cites uppered (record answer { article_ids = id ∷ answer.article_ids }) a
Cites-later uppered answer id a (cited, (here, same)) = (cited, (Memᴰ.tail here, same))

module _ (lowered uppered : String → String)
    (compose_reply : String → List String → List String → Option String)
    (references_in : String → List String) where
  pub cited_articles-Cites :
      (articles : List Article) (answer : ModelAnswer) (ids : List String)
      → All
          (Cites uppered (record answer { article_ids = ids }))
          (cited_articles lowered uppered compose_reply references_in articles ids)
  unfolding cited_articles
  cited_articles-Cites articles answer [] = tt
  cited_articles-Cites articles answer (id ∷ ids) =
      let rest =
        All-map (Cites-later uppered (record answer { article_ids = ids }) id) _
          (cited_articles-Cites articles answer ids) in
      elim (Option-cases (article_by_id articles (uppered (trim id)))) [
        | inl unknown ↦ rw (unknown, cited_articles) rest
        | inr (a, known) ↦
            rw (known, cited_articles)
              ((id, (Memᴰ.head refl, article_by_id-id articles (uppered (trim id)) a known)), rest)
      ]

  pub cited_articles-given :
      (articles : List Article) (ids : List String)
      → All
          (λ a. Memᴰ a articles)
          (cited_articles lowered uppered compose_reply references_in articles ids)
  unfolding cited_articles
  cited_articles-given articles [] = tt
  cited_articles-given articles (id ∷ ids) =
      elim (Option-cases (article_by_id articles (uppered (trim id)))) [
        | inl unknown ↦ rw (unknown, cited_articles) (cited_articles-given articles ids)
        | inr (a, known) ↦
            rw (known, cited_articles)
              (
                article_by_id-given articles (uppered (trim id)) a known,
                cited_articles-given articles ids,
              )
      ]

-- ===== src/AutoReply/Drafting.antt =====
-- The answer of the auto-reply and the checks it has to pass: apps/api/src/ai/auto-reply.ts, over
-- what the provider returns. `lowered` and `uppered` are JavaScript's case mappings.
use ticket_manager_system.Common.{
  ℕ, String, Bool, not, Option, none, some, List, [], ◌∷◌, ltb, str_eq, if◌then◌else◌, filter, map,
}
use ticket_manager_system.Shared.{Failure, AutoReplyDecline}
use ticket_manager_system.Desk.{Article}
use ticket_manager_system.Text.{trim, includes, join, utf16_length}
use ticket_manager_system.Prompt.{joined, unbacked_commitments, without_dashes}
use ticket_manager_system.Evals.{AiUsage}
use ticket_manager_system.AutoReply.Worker.{Answer, replied, failed}

-- `AutoReplyContext`
pub record Context : Type 0 where
  pub subject : String
  pub text : Option String
  pub customer_name : String

-- `AutoReplyAnswer`
pub record ModelAnswer : Type 0 where
  pub answered : Bool
  pub article_ids : List String
  pub paragraphs : Option (List String)
  pub steps : Option (List String)

-- What the call to the provider came to: an answer, no object within its tokens, or an error, by the
-- failure that it is classified as.
pub data Generated : Type 0 where
  object : ModelAnswer → Option AiUsage → Generated
  no_object : Option AiUsage → Generated
  threw : Failure → Generated

-- `REPLY_LIMIT`
abbrev pub reply_limit : ℕ
reply_limit = 10000

abbrev pub or_nil : Option (List String) → List String
or_nil none = []
or_nil (some xs) = xs

-- `new Map(articles.map((article) => [article.id, article])).get(id)`: the last of an id.
unfoldable pub article_by_id : List Article → String → Option Article
article_by_id [] id = none
article_by_id (a ∷ articles) id =
    let later = article_by_id articles id in
    elim later [ some b ↦ some b | none ↦ if str_eq a.id id then some a else none ]

abbrev heading : Article → String
heading a = joined a.title (joined "\n" a.body)

-- What a reply may promise and link: the text of the articles it cites.
unfoldable pub source_text : List Article → String
unfolding join joined
source_text cited = join "\n\n" (map heading cited)

-- `compose_reply` is `composeReply` of reply-shape.ts over the customer's name, and `references_in`
-- the matches of the two expressions for links and addresses, trimmed, in lower case and each once.
module _ (lowered uppered : String → String)
    (compose_reply : String → List String → List String → Option String)
    (references_in : String → List String) where
  -- `shapeReply`
  unfoldable pub shape_reply : String → List String → List String → Option String
  unfolding without_dashes
  shape_reply name paragraphs steps = elim (compose_reply name paragraphs steps) [
    | none ↦ none
    | some composed ↦ some (without_dashes composed)
  ]

  -- `unbackedReferences`
  unfoldable pub unbacked_references : String → String → List String
  unfolding includes
  unbacked_references reply source =
      filter (λ reference. not (includes (lowered source) reference)) (references_in reply)

  unfoldable pub cited_articles : List Article → List String → List Article
  unfolding article_by_id trim
  cited_articles articles [] = []
  cited_articles articles (id ∷ ids) =
      let rest = cited_articles articles ids in
      elim (article_by_id articles (uppered (trim id))) [ none ↦ rest | some a ↦ a ∷ rest ]

  -- The last two checks, of a reply against the articles it cites.
  unfoldable pub check_source : List Article → String → Answer
  unfolding unbacked_commitments unbacked_references source_text
  check_source [] reply = failed Failure.ungrounded AutoReplyDecline.no_citation
  check_source (a ∷ cited) reply =
      elim (unbacked_commitments lowered reply (source_text (a ∷ cited))) [
        | stem ∷ stems ↦ failed Failure.ungrounded AutoReplyDecline.unbacked_commitment
        | [] ↦ elim (unbacked_references reply (source_text (a ∷ cited))) [
          | reference ∷ references ↦ failed Failure.ungrounded AutoReplyDecline.unbacked_reference
          | [] ↦ replied reply (map (λ (c : Article). c.id) (a ∷ cited))
        ]
      ]

  -- The checks of an answer, in their order.
  unfoldable pub check_answer : List Article → Context → ModelAnswer → Answer
  unfolding check_source cited_articles shape_reply utf16_length
  check_answer articles context answer =
      if not answer.answered
      then failed Failure.declined AutoReplyDecline.not_covered
      else elim (shape_reply context.customer_name (or_nil answer.paragraphs)
          (or_nil answer.steps)) [
            | none ↦ failed Failure.declined AutoReplyDecline.not_covered
            | some reply ↦
                if ltb reply_limit (utf16_length reply)
                then failed Failure.ungrounded AutoReplyDecline.too_long
                else check_source (cited_articles articles answer.article_ids) reply
          ]

  abbrev pub judge : List Article → Context → Generated → Answer × Option AiUsage
  judge articles context (object answer usage) = (check_answer articles context answer, usage)
  judge articles context (no_object usage) =
      (failed Failure.empty AutoReplyDecline.unavailable, usage)
  judge articles context (threw reason) = (failed reason AutoReplyDecline.unavailable, none)

  -- `autoReply`, over the provider's answer to a corpus and an email.
  unfoldable pub auto_reply :
      (List Article → Context → Generated) → List Article → Context → Answer × Option AiUsage
  unfolding check_answer
  auto_reply generate [] context = (failed Failure.config AutoReplyDecline.unavailable, none)
  auto_reply generate (a ∷ articles) context =
      judge (a ∷ articles) context (generate (a ∷ articles) context)

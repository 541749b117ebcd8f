-- ===== src/AutoReply/Grounded.antt =====
-- What an accepted answer of apps/api/src/ai/auto-reply.ts may say.
use mathlib.Core.List.{Memᴰ}
use ticket_manager_system.Common.{
  String, ◌≡◌, ◌≤◌, refl, sym, ap, subst, ◌∙◌, true, false, not, ◌&&◌, Option, some, List, [], ◌∷◌,
  ltb, map, length, All, arith, Bool-cases, Option-cases, List-cases, none_fits, All-map, inl, inr,
}
use ticket_manager_system.Desk.{Article}
use ticket_manager_system.Text.{includes, utf16_length}
use ticket_manager_system.Prompt.{commitment_stems, unbacked_commitments}
use ticket_manager_system.Prompt.Dashes.{has_dash, without_dashes-plain}
use ticket_manager_system.Evals.{AiUsage}
use ticket_manager_system.AutoReply.Worker.{Answer, replied, failed}
use ticket_manager_system.AutoReply.Drafting.{
  Context, ModelAnswer, Generated, object, no_object, threw, reply_limit, source_text, shape_reply,
  unbacked_references, check_source, check_answer, auto_reply, judge, or_nil,
}
use ticket_manager_system.AutoReply.Cited.{Cites, cited_articles-Cites, cited_articles-given}

-- A reply and its citations, against the articles that the model was given and its answer to the
-- context: `used` are the articles cited, and the reply is the answer's own paragraphs and steps.
pub record IsGrounded (lowered uppered : String → String)
    (compose_reply : String → List String → List String → Option String)
    (references_in : String → List String) (articles : List Article) (context : Context)
    (answer : ModelAnswer) (reply : String) (ids : List String) : Type 0 where
  pub used : List Article
  pub cites : map (λ (a : Article). a.id) used ≡ ids
  pub answered : answer.answered ≡ true
  pub written :
      shape_reply lowered uppered compose_reply references_in context.customer_name
        (or_nil answer.paragraphs)
        (or_nil answer.steps)
      ≡ some reply
  pub cited : All (Cites uppered answer) used
  pub one_at_least : 1 ≤ length used
  pub given : All (λ a. Memᴰ a articles) used
  pub short : utf16_length reply ≤ 10000
  pub plain : has_dash reply ≡ false
  pub promises :
      All
        (λ stem.
          includes (lowered reply) stem ≡ true → includes (lowered (source_text used)) stem ≡ true)
        commitment_stems
  pub references :
      All
        (λ reference. includes (lowered (source_text used)) reference ≡ true)
        (references_in reply)

abbrev reply_in : Answer → String
reply_in (replied reply ids) = reply
reply_in (failed reason decline) = ""

abbrev ids_in : Answer → List String
ids_in (replied reply ids) = ids
ids_in (failed reason decline) = []

module _ (lowered uppered : String → String)
    (compose_reply : String → List String → List String → Option String)
    (references_in : String → List String) where
  check_source-backed :
      (cited : List Article) (reply r : String) (ids : List String)
      → check_source lowered uppered compose_reply references_in cited reply ≡ replied r ids
      → (r ≡ reply)
        × (map (λ (a : Article). a.id) cited ≡ ids)
        × (1 ≤ length cited)
        × (unbacked_commitments lowered reply (source_text cited) ≡ [])
        × (unbacked_references lowered uppered compose_reply references_in reply (source_text cited)
            ≡ [])
  unfolding check_source
  check_source-backed [] reply r ids e = absurd (cc)
  check_source-backed (a ∷ cited) reply r ids e =
      elim (List-cases (unbacked_commitments lowered reply (source_text (a ∷ cited)))) [
        | inr (stem, (stems, promised)) ↦ absurd (cc (rw (promised, check_source) at e))
        | inl kept ↦
            elim (List-cases (
              unbacked_references lowered uppered compose_reply references_in reply
                (source_text (a ∷ cited)))) [
                  | inr (link, (links, linked)) ↦ absurd (cc (rw (kept, check_source, linked) at e))
                  | inl clean ↦
                      let f = rw (kept, check_source, clean) at e in
                      (sym (ap reply_in f), ap ids_in f, omega arith, kept, clean)
                ]
      ]

  shape_reply-plain :
      (name : String) (paragraphs steps : List String) (reply : String)
      → shape_reply lowered uppered compose_reply references_in name paragraphs steps ≡ some reply
      → has_dash reply ≡ false
  unfolding shape_reply
  shape_reply-plain name paragraphs steps reply e =
      elim (Option-cases (compose_reply name paragraphs steps)) [
        | inl silent ↦ absurd (cc (rw (silent, shape_reply) at e))
        | inr (composed, made) ↦
            ap has_dash (ground (arith, rw (made, shape_reply) at e))
            ∙ without_dashes-plain composed
      ]

  -- What the last two checks leave.
  check_source-IsGrounded :
      (articles : List Article) (context : Context) (answer : ModelAnswer) (cited : List Article)
      (reply r : String) (ids : List String)
      → answer.answered ≡ true
      → shape_reply lowered uppered compose_reply references_in context.customer_name
          (or_nil answer.paragraphs)
          (or_nil answer.steps)
        ≡ some reply
      → All (Cites uppered answer) cited
      → All (λ a. Memᴰ a articles) cited
      → utf16_length reply ≤ 10000
      → has_dash reply ≡ false
      → check_source lowered uppered compose_reply references_in cited reply ≡ replied r ids
      → IsGrounded lowered uppered compose_reply references_in articles context answer r ids
  unfolding unbacked_commitments unbacked_references
  check_source-IsGrounded articles context answer cited reply r ids answered written cites_all given
        short plain e =
      let (same, cites, some_used, kept, clean) = check_source-backed cited reply r ids e in
      subst
        (λ r. IsGrounded lowered uppered compose_reply references_in articles context answer r ids)
        (sym same)
        (record {
          used = cited;
          cites = cites;
          answered = answered;
          written = written;
          cited = cites_all;
          one_at_least = some_used;
          given = given;
          short = short;
          plain = plain;
          promises =
              All-map
                {P = λ stem.
                  (includes (lowered reply) stem
                    && not (includes (lowered (source_text cited)) stem))
                  ≡ false}
                {Q = λ stem.
                  includes (lowered reply) stem ≡ true
                  → includes (lowered (source_text cited)) stem ≡ true}
                (λ stem no there. ground (arith, no, there)) commitment_stems
                (none_fits
                  (λ stem.
                    includes (lowered reply) stem
                    && not (includes (lowered (source_text cited)) stem))
                  commitment_stems kept);
          references =
              All-map {P = λ link. not (includes (lowered (source_text cited)) link) ≡ false}
                {Q = λ link. includes (lowered (source_text cited)) link ≡ true}
                (λ link no. ground (arith, no)) (references_in reply)
                (none_fits (λ link. not (includes (lowered (source_text cited)) link))
                  (references_in reply) clean);
        })

  check_answer-IsGrounded :
      (articles : List Article) (context : Context) (answer : ModelAnswer) (r : String)
      (ids : List String)
      → check_answer lowered uppered compose_reply references_in articles context answer
        ≡ replied r ids
      → IsGrounded lowered uppered compose_reply references_in articles context answer r ids
  unfolding check_answer
  check_answer-IsGrounded articles context answer r ids e = elim (Bool-cases answer.answered) [
    | inr declined ↦ absurd (cc (rw (declined, check_answer) at e))
    | inl answered ↦
        elim (Option-cases (
          shape_reply lowered uppered compose_reply references_in context.customer_name
            (or_nil answer.paragraphs) (or_nil answer.steps))) [
              | inl silent ↦ absurd (cc (rw (answered, check_answer, silent) at e))
              | inr (reply, shaped) ↦ elim (Bool-cases (ltb reply_limit (utf16_length reply))) [
                | inl long ↦ absurd (cc (rw (answered, check_answer, shaped, long) at e))
                | inr short ↦
                    check_source-IsGrounded articles context answer _ reply r ids answered shaped
                      (cited_articles-Cites lowered uppered compose_reply references_in articles
                        answer answer.article_ids)
                      (cited_articles-given lowered uppered compose_reply references_in articles
                        answer.article_ids)
                      (ground (arith, short)) (shape_reply-plain _ _ _ reply shaped)
                      (rw (answered, check_answer, shaped, short) at e)
              ]
            ]
  ]

  -- Whatever the provider returns, a reply that is accepted is the text of an answer that it gave,
  -- cites one article at least, each of them one that the answer names and that the model was given,
  -- has no dash and at most 10,000 units, and each of the words for money in it, and each link and
  -- address, stands in the text of the articles it cites.
  pub auto_reply-IsGrounded :
      (generate : List Article → Context → Generated) (articles : List Article) (context : Context)
      (reply : String) (ids : List String)
      → (auto_reply lowered uppered compose_reply references_in generate articles context).0
        ≡ replied reply ids
      → (answer : ModelAnswer) × ((usage : Option AiUsage) × ((generate articles context
              ≡ object answer usage)
            × IsGrounded lowered uppered compose_reply references_in articles context answer reply
                ids))
  unfolding auto_reply
  auto_reply-IsGrounded generate [] context reply ids e = absurd (cc)
  auto_reply-IsGrounded generate (a ∷ articles) context reply ids e =
      judged (generate (a ∷ articles) context) refl e
    where
      judged :
          (g : Generated)
          → generate (a ∷ articles) context ≡ g
          → (judge lowered uppered compose_reply references_in (a ∷ articles) context g).0
            ≡ replied reply ids
          → (answer : ModelAnswer) × ((usage : Option AiUsage) × ((generate (a ∷ articles) context
                  ≡ object answer usage)
                × IsGrounded lowered uppered compose_reply references_in
                    (a ∷ articles)
                    context
                    answer
                    reply
                    ids))
      judged (object answer usage) gave e = (
        answer,
        (usage, (gave, check_answer-IsGrounded (a ∷ articles) context answer reply ids e)),
      )
      judged (no_object usage) gave e = absurd (cc)
      judged (threw reason) gave e = absurd (cc)

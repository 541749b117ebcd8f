-- ===== src/Evals/Counters.antt =====
-- The counts that apps/api/src/evals/runner.ts takes of a case's repeats.
use ticket_manager_system.Common.{
  ℕ, zero, suc, ◌+◌, ◌-◌, ◌≤◌, ◌≡◌, refl, ap, String, Bool, true, false, Option, none, some, List,
  [], ◌∷◌, arith, All, filter, length, length-filter-le, is_some, Bool-cases, Option-cases, inl,
  inr, if◌then◌else◌,
}
use ticket_manager_system.Shared.{TicketCategory, AutoReplyDecline}
use ticket_manager_system.Pipeline.{PipelineOutcome}
use ticket_manager_system.Desk.{Article}
use ticket_manager_system.Gates.{gate_decline}
use ticket_manager_system.Evals.{
  EvalCase, EvalVerdict, CaseOutcome, Draft, replied, failed, Models, case_matched, answer_case,
  answers, run_case, rest_of, is_classified, gates_of, draft_escaped, decline_of_draft, is_caught,
  is_filed_as,
}

module _ {A : Type 0} (p q : A → Bool) where
  -- Two tests that no item passes together.
  count_apart :
      (xs : List A)
      → All (λ x. p x ≡ true → q x ≡ false) xs
      → length (filter p xs) + length (filter q xs) ≤ length xs
  count_apart [] h = omega arith
  count_apart (x ∷ xs) h = elim (Bool-cases (p x)) [
    | inl yes_p ↦ let no_q = h.0 yes_p in rw (yes_p, no_q) (omega (arith, count_apart xs h.1))
    | inr no_p ↦ elim (Bool-cases (q x)) [
      | inl yes_q ↦ rw (no_p, yes_q) (omega (arith, count_apart xs h.1))
      | inr no_q ↦ rw (no_p, no_q) (omega (arith, count_apart xs h.1))
    ]
  ]

  count_within :
      (xs : List A)
      → All (λ x. p x ≡ true → q x ≡ true) xs
      → length (filter p xs) ≤ length (filter q xs)
  count_within [] h = omega arith
  count_within (x ∷ xs) h = elim (Bool-cases (p x)) [
    | inl yes_p ↦ let yes_q = h.0 yes_p in rw (yes_p, yes_q) (omega (arith, count_within xs h.1))
    | inr no_p ↦ elim (Bool-cases (q x)) [
      | inl yes_q ↦ rw (no_p, yes_q) (omega (arith, count_within xs h.1))
      | inr no_q ↦ rw (no_p, no_q) (count_within xs h.1)
    ]
  ]

-- What holds of a single verdict.
record IsCoherent (v : EvalVerdict) : Type 0 where
  unmatched : v.escaped ≡ true → v.matched ≡ false
  uncaught : v.escaped ≡ true → v.caught ≡ false
  filed : v.classify_matched ≡ true → is_classified v ≡ true

draft_escaped-uncaught :
    (lowered : String → String) (c : EvalCase) (articles : List Article) (draft : Draft)
    → draft_escaped lowered c articles draft ≡ true
    → is_caught c (decline_of_draft draft) ≡ false
draft_escaped-uncaught lowered c articles (replied reply usage) e = refl
draft_escaped-uncaught lowered c articles (failed reason decline usage) e = ground (arith, e)

is_filed_as-filed :
    (c : EvalCase) (filed : Option TicketCategory)
    → is_filed_as filed c ≡ true
    → is_some filed ≡ true
is_filed_as-filed c none e = e
is_filed_as-filed c (some k) e = refl

escaped-unmatched :
    (c : EvalCase) (outcome : PipelineOutcome) (decline : Option AutoReplyDecline) (escaped : Bool)
    → escaped ≡ true
    → case_matched c outcome decline escaped ≡ false
unfolding case_matched
escaped-unmatched c outcome decline escaped e = rw e refl

answer_case-IsCoherent :
    (lowered : String → String) (models : Models) (articles : List Article) (c : EvalCase)
    → IsCoherent (answer_case lowered models articles c)
unfolding answer_case
answer_case-IsCoherent lowered models articles c = elim (Option-cases (gate_decline (gates_of c))) [
  | inr (gated, shut) ↦
      rw (answer_case, shut)
        (record {
          unmatched = λ e. ground (arith, e);
          uncaught = λ e. ground (arith, e);
          filed = λ e. is_filed_as-filed c _ e;
        })
  | inl open_gates ↦
      rw (answer_case, open_gates)
        (record {
          unmatched = λ e. escaped-unmatched c _ _ _ e;
          uncaught = λ e. draft_escaped-uncaught lowered c articles _ e;
          filed = λ e. is_filed_as-filed c _ e;
        })
]

module _ (lowered : String → String) (models : ℕ → Models) (articles : List Article)
    (c : EvalCase) where
  answers-IsCoherent : (left : ℕ) → All IsCoherent (answers lowered models articles c left)
  unfolding answers
  answers-IsCoherent zero = tt
  answers-IsCoherent (suc left) =
      (answer_case-IsCoherent lowered (models left) articles c, answers-IsCoherent left)

  length-answers : (left : ℕ) → length (answers lowered models articles c left) ≡ left
  unfolding answers
  length-answers zero = refl
  length-answers (suc left) = ap suc (length-answers left)

All-of :
    (P : EvalVerdict → Type 0)
    → ((v : EvalVerdict) → IsCoherent v → P v)
    → (vs : List EvalVerdict) → All IsCoherent vs
    → All P vs
All-of P f [] h = tt
All-of P f (v ∷ vs) h = (f v h.0, All-of P f vs h.1)

length-rest_of : (vs : List EvalVerdict) → length (rest_of vs) ≡ length vs - 1
length-rest_of [] = omega arith
length-rest_of (v ∷ vs) = omega arith

-- 1 where the first repeat was served from a cache.
abbrev pub first_cached : List EvalVerdict → ℕ
first_cached [] = 0
first_cached (v ∷ vs) = if v.cached then 1 else 0

rest_of-first :
    (vs : List EvalVerdict)
    → length (filter (λ (v : EvalVerdict). v.cached) (rest_of vs)) + first_cached vs
      ≡ length (filter (λ (v : EvalVerdict). v.cached) vs)
rest_of-first [] = omega arith
rest_of-first (v ∷ vs) = ground arith

-- How the counts of one case fit together.
pub record CountsFit (repeats : ℕ) (o : CaseOutcome) : Type 0 where
  pub answered : length o.verdicts ≡ repeats
  pub matches_apart : o.counters.matches + o.counters.escaped ≤ repeats
  pub catches_apart : o.counters.caught + o.counters.escaped ≤ repeats
  pub one_left_out : o.counters.cacheable ≡ repeats - 1
  pub first_left_out :
      o.counters.cached_repeats + first_cached o.verdicts
      ≡ length (filter (λ (v : EvalVerdict). v.cached) o.verdicts)
  pub cached_within : o.counters.cached_repeats ≤ o.counters.cacheable
  pub filed_within : o.counters.classify_matches ≤ o.counters.classified_repeats
  pub classified_within : o.counters.classified_repeats ≤ repeats

-- The counts of a case fit together, whatever the models answer: there is a verdict for each repeat,
-- no repeat is both a match and an escape or both a catch and an escape, the first repeat and
-- no other is left out of the repeats that a cache could serve and of those that it served, and the
-- repeats filed as expected are among those that
-- were classified.
pub run_case-CountsFit :
    (lowered : String → String) (models : ℕ → Models) (articles : List Article) (c : EvalCase)
    (repeats : ℕ)
    → CountsFit repeats (run_case lowered models articles c repeats)
unfolding run_case
run_case-CountsFit lowered models articles c repeats =
    let vs = answers lowered models articles c repeats in
    let size = length-answers lowered models articles c repeats in
    let fine = answers-IsCoherent lowered models articles c repeats in
    let apart =
      count_apart (λ (v : EvalVerdict). v.escaped) (λ v. v.matched) vs
        (All-of _ (λ v k. k.unmatched) vs fine) in
    let uncaught =
      count_apart (λ (v : EvalVerdict). v.escaped) (λ v. v.caught) vs
        (All-of _ (λ v k. k.uncaught) vs fine) in
    record {
      answered = size;
      matches_apart = omega (arith, apart, size);
      catches_apart = omega (arith, uncaught, size);
      one_left_out = omega (arith, length-rest_of vs, size);
      first_left_out = rest_of-first vs;
      cached_within = length-filter-le (λ (v : EvalVerdict). v.cached) (rest_of vs);
      filed_within =
          count_within (λ (v : EvalVerdict). v.classify_matched) is_classified vs
            (All-of _ (λ v k. k.filed) vs fine);
      classified_within = omega (arith, length-filter-le is_classified vs, size);
    }

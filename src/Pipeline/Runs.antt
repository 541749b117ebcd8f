-- ===== src/Pipeline/Runs.antt =====
-- The runs of apps/api/src/routes/pipeline.ts beside its counts.
use ticket_manager_system.Common.{
  ℕ, ◌+◌, ◌≡◌, refl, ap, ◌∙◌, Bool, true, false, ◌&&◌, ◌||◌, List, [], ◌∷◌, arith, length, filter,
  any, All, is_some, is_none, if◌then◌else◌, Bool-cases, inl, inr,
}
use ticket_manager_system.Desk.{Ticket, Desk}
use ticket_manager_system.AutoReply.{auto_reply_will_still_act}
use ticket_manager_system.Classify.{classifier_will_still_act}
use ticket_manager_system.Pipeline.{
  CountWindow, in_window, count, pipeline_counts, no_auto_reply_verdict, Facts, StageState,
  stage_state, reached_index, facts_of, to_run, outcome_of, is_pending,
}

-- A ticket that the classifier has not stamped carries no verdict of the assistant.
abbrev pub is_orderly : Ticket → Bool
is_orderly t =
    is_some t.classified_at || (is_none t.auto_reply_decline && is_none t.auto_resolved_at)

abbrev pub is_pending_run : Bool → ℕ → Desk → Ticket → Bool
is_pending_run ai now d t = is_pending (to_run ai (facts_of now d t) t).outcome

-- A run is pending exactly when one of the two counts takes the ticket.
is_pending_run-counted :
    (ai : Bool) (now : ℕ) (d : Desk) (t : Ticket)
    → is_orderly t ≡ true
    → is_pending_run ai now d t
      ≡ (ai && classifier_will_still_act now t)
        || (no_auto_reply_verdict t && auto_reply_will_still_act d.messages t)
unfolding outcome_of
is_pending_run-counted ai now d t e = ground arith

-- Two disjoint conditions count what either of them does.
count-or :
    (p q r : Ticket → Bool) (ts : List Ticket)
    → All (λ t. (p t ≡ q t || r t) × (q t && r t ≡ false)) ts
    → count p ts ≡ count q ts + count r ts
count-or p q r [] h = refl
count-or p q r (t ∷ ts) h = ground (arith, h.0.0, h.0.1, count-or p q r ts h.1)

count-given :
    (ai : Bool) (p : Ticket → Bool) (ts : List Ticket)
    → count (λ t. ai && p t) ts ≡ (if ai then count p ts else 0)
count-given true p ts = refl
count-given false p [] = refl
count-given false p (t ∷ ts) = count-given false p ts

All-counted :
    (ai : Bool) (now : ℕ) (d : Desk) (ts : List Ticket)
    → All (λ t. is_orderly t ≡ true) ts
    → All
        (λ t.
          (is_pending_run ai now d t
            ≡ (ai && classifier_will_still_act now t)
              || (no_auto_reply_verdict t && auto_reply_will_still_act d.messages t))
          × (((ai && classifier_will_still_act now t)
                && (no_auto_reply_verdict t && auto_reply_will_still_act d.messages t))
              ≡ false))
        ts
All-counted ai now d [] h = tt
All-counted ai now d (t ∷ ts) h =
    ((is_pending_run-counted ai now d t h.0, ground arith), All-counted ai now d ts h.1)

count-pending :
    (ai : Bool) (now : ℕ) (d : Desk) (ts : List Ticket)
    → All (λ t. is_orderly t ≡ true) ts
    → count (is_pending_run ai now d) ts
      ≡ (if ai then count (classifier_will_still_act now) ts else 0)
        + count (λ t. no_auto_reply_verdict t && auto_reply_will_still_act d.messages t) ts
count-pending ai now d ts h =
    count-or (is_pending_run ai now d) (λ t. ai && classifier_will_still_act now t)
      (λ t. no_auto_reply_verdict t && auto_reply_will_still_act d.messages t) ts
      (All-counted ai now d ts h)
    ∙ ap
        (λ n. n + count (λ t. no_auto_reply_verdict t && auto_reply_will_still_act d.messages t) ts)
        (count-given ai (classifier_will_still_act now) ts)

pub All-filter :
    (p q : Ticket → Bool) (ts : List Ticket)
    → All (λ t. p t ≡ true) ts
    → All (λ t. p t ≡ true) (filter q ts)
All-filter p q [] h = h
All-filter p q (t ∷ ts) h = elim (Bool-cases (q t)) [
  | inl e ↦ rw e (h.0, All-filter p q ts h.1)
  | inr e ↦ rw e (All-filter p q ts h.1)
]

-- The two routes agree: of the tickets in a window, as many show a pending run at its end as the counts
-- name waiting for the classifier or for the assistant, where no ticket without a stamp of the
-- classifier has a verdict of the assistant.
pub pipeline_counts-pending :
    (w : CountWindow) (ai : Bool) (d : Desk)
    → All (λ t. is_orderly t ≡ true) d.tickets
    → length (
        filter
          (λ t. is_pending (to_run ai (facts_of w.to d t) t).outcome)
          (filter (in_window w) d.tickets))
      ≡ (pipeline_counts w ai d).classify_pending + (pipeline_counts w ai d).auto_reply_pending
pipeline_counts-pending w ai d h =
    count-pending ai w.to d (filter (in_window w) d.tickets)
      (All-filter is_orderly (in_window w) d.tickets h)

abbrev pub is_active : StageState → Bool
is_active StageState.active = true
is_active _ = false

-- A run shows a stage at work exactly while it is pending, whatever the facts about its ticket are.
pub to_run-active :
    (ai : Bool) (f : Facts) (t : Ticket)
    → any is_active (to_run ai f t).stages ≡ is_pending (to_run ai f t).outcome
unfolding outcome_of stage_state reached_index
to_run-active ai f t = ground arith

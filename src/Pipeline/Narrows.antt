-- ===== src/Pipeline/Narrows.antt =====
-- The rail of the pipeline screen, stage by stage: packages/shared/src/pipeline.ts.
use ticket_manager_system.Common.{
  ℕ, ◌+◌, ◌≤◌, ◌≡◌, refl, Bool, true, false, not, ◌&&◌, ◌||◌, Option, none, some, List, [], ◌∷◌,
  arith, length, filter, All, is_some, is_none, if◌then◌else◌,
}
use ticket_manager_system.Shared.{AutoReplyDecline}
use ticket_manager_system.Desk.{Ticket, Desk}
use ticket_manager_system.Pipeline.{
  PipelineStage, CountWindow, in_window, count, classifier_filed, assistant_resolved,
  pipeline_counts,
}
use ticket_manager_system.Pipeline.Rail.{
  has_decline, declines_of, declined_at, exits, StageCounts, pipeline_stage_counts,
}
use ticket_manager_system.Pipeline.Runs.{All-filter}

-- The assistant's verdict on a ticket, one at most, is on one that the classifier filed.
abbrev pub is_settled_once : Ticket → Bool
is_settled_once t =
    if is_some t.auto_reply_decline
    then classifier_filed t && is_none t.auto_resolved_at
    else not (is_some t.auto_resolved_at) || classifier_filed t

abbrev leaves_at : PipelineStage → Option AutoReplyDecline → Bool
leaves_at stage none = false
leaves_at stage (some reason) = exits stage reason

abbrev tally : List Ticket → AutoReplyDecline → ℕ
tally ts reason = count (has_decline reason) ts

declined_at-eligible :
    (ts : List Ticket)
    → declined_at (tally ts) PipelineStage.eligible
      ≡ count (λ t. leaves_at PipelineStage.eligible t.auto_reply_decline) ts
declined_at-eligible [] = refl
declined_at-eligible (t ∷ ts) = ground (arith, declined_at-eligible ts)

declined_at-drafted :
    (ts : List Ticket)
    → declined_at (tally ts) PipelineStage.drafted
      ≡ count (λ t. leaves_at PipelineStage.drafted t.auto_reply_decline) ts
declined_at-drafted [] = refl
declined_at-drafted (t ∷ ts) = ground (arith, declined_at-drafted ts)

-- What leaves the rail, and what comes to its end, was filed.
count-leaving :
    (ts : List Ticket)
    → All (λ t. is_settled_once t ≡ true) ts
    → count (λ t. leaves_at PipelineStage.eligible t.auto_reply_decline) ts
        + count (λ t. leaves_at PipelineStage.drafted t.auto_reply_decline) ts
        + count assistant_resolved ts
      ≤ count classifier_filed ts
count-leaving [] h = omega arith
count-leaving (t ∷ ts) h = ground (arith, h.0, count-leaving ts h.1)

count-le : (p : Ticket → Bool) (ts : List Ticket) → count p ts ≤ length ts
count-le p [] = omega arith
count-le p (t ∷ ts) = ground (arith, count-le p ts)

-- What stands on the rail, stage by stage.
pub record IsNarrowing (declines : AutoReplyDecline → ℕ) (s : StageCounts) : Type 0 where
  pub classified_within : s.classified ≤ s.received
  pub eligible_left : s.classified ≡ s.eligible + declined_at declines PipelineStage.eligible
  pub all_drafted : s.drafted ≡ s.eligible
  pub checked_left : s.drafted ≡ s.checked + declined_at declines PipelineStage.drafted
  pub resolved_within : s.resolved ≤ s.checked

-- The rail only narrows, and no subtraction on it goes below zero: of the tickets received some are
-- classified, those that are not declined at the gates are eligible, every eligible one is drafted, those that are not
-- declined while drafting are checked, and no more are resolved than were checked; where the
-- assistant's verdict on a ticket, one at most, is on one that the classifier filed.
pub pipeline_stage_counts-narrows :
    (w : CountWindow) (ai : Bool) (d : Desk)
    → All (λ t. is_settled_once t ≡ true) d.tickets
    → IsNarrowing
        (declines_of w d)
        (pipeline_stage_counts (pipeline_counts w ai d) (declines_of w d))
pipeline_stage_counts-narrows w ai d h =
    let slice = filter (in_window w) d.tickets in
    let leaving = count-leaving slice (All-filter is_settled_once (in_window w) d.tickets h) in
    let e = declined_at-eligible slice in
    let f = declined_at-drafted slice in
    record {
      classified_within = count-le classifier_filed slice;
      eligible_left = omega (arith, leaving, e, f);
      all_drafted = refl;
      checked_left = omega (arith, leaving, e, f);
      resolved_within = omega (arith, leaving, e, f);
    }

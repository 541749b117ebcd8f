-- ===== src/Pipeline/Rail.antt =====
-- The rail of the pipeline screen: the tally of decline reasons of apps/api/src/assistant-decisions.ts
-- and `pipelineStageCounts` of packages/shared/src/pipeline.ts.
use ticket_manager_system.Common.{ℕ, ◌+◌, ◌-◌, Bool, List, [], ◌∷◌, some, ◌==◌, filter}
use ticket_manager_system.Shared.{AutoReplyDecline, option_eq}
use ticket_manager_system.Desk.{Ticket, Desk}
use ticket_manager_system.Pipeline.{
  PipelineStage, decline_stage, index_of, CountWindow, in_window, count, PipelineCounts,
}

-- `AUTO_REPLY_DECLINES`
abbrev pub auto_reply_declines : List AutoReplyDecline
auto_reply_declines =
    AutoReplyDecline.category ∷ AutoReplyDecline.answered ∷ AutoReplyDecline.no_text
    ∷ AutoReplyDecline.follow_up ∷ AutoReplyDecline.not_covered ∷ AutoReplyDecline.unavailable
    ∷ AutoReplyDecline.no_citation ∷ AutoReplyDecline.unbacked_commitment
    ∷ AutoReplyDecline.unbacked_reference ∷ AutoReplyDecline.too_long ∷ []

abbrev pub decline_code : AutoReplyDecline → ℕ
decline_code AutoReplyDecline.category = 0
decline_code AutoReplyDecline.answered = 1
decline_code AutoReplyDecline.no_text = 2
decline_code AutoReplyDecline.follow_up = 3
decline_code AutoReplyDecline.not_covered = 4
decline_code AutoReplyDecline.no_citation = 5
decline_code AutoReplyDecline.unbacked_commitment = 6
decline_code AutoReplyDecline.unbacked_reference = 7
decline_code AutoReplyDecline.too_long = 8
decline_code AutoReplyDecline.unavailable = 9

abbrev pub has_decline : AutoReplyDecline → Ticket → Bool
has_decline reason t =
    option_eq (λ a b. decline_code a == decline_code b) t.auto_reply_decline (some reason)

-- The declines of `windowCounts`: every reason with its count, the zeroes too.
abbrev pub declines_of : CountWindow → Desk → AutoReplyDecline → ℕ
declines_of w d reason = count (has_decline reason) (filter (in_window w) d.tickets)

abbrev pub sum_of : (AutoReplyDecline → ℕ) → List AutoReplyDecline → ℕ
sum_of f [] = 0
sum_of f (r ∷ rs) = f r + sum_of f rs

abbrev pub exits : PipelineStage → AutoReplyDecline → Bool
exits stage reason = index_of (decline_stage reason) == index_of stage

-- `declinedAt`
abbrev pub declined_at : (AutoReplyDecline → ℕ) → PipelineStage → ℕ
declined_at declines stage = sum_of declines (filter (exits stage) auto_reply_declines)

pub record StageCounts : Type 0 where
  pub received : ℕ
  pub classified : ℕ
  pub eligible : ℕ
  pub drafted : ℕ
  pub checked : ℕ
  pub resolved : ℕ

-- `pipelineStageCounts`
abbrev pub pipeline_stage_counts : PipelineCounts → (AutoReplyDecline → ℕ) → StageCounts
pipeline_stage_counts counts declines =
    let eligible = counts.machine_classified - declined_at declines PipelineStage.eligible in
    record {
      received = counts.received;
      classified = counts.machine_classified;
      eligible = eligible;
      drafted = eligible;
      checked = eligible - declined_at declines PipelineStage.drafted;
      resolved = counts.auto_resolved;
    }

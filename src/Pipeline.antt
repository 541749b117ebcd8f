-- ===== src/Pipeline.antt =====
-- The unattended pipeline read back from the tickets: the run of one ticket and the counts of a window,
-- from apps/api/src/routes/pipeline.ts, apps/api/src/assistant-decisions.ts and
-- packages/shared/src/pipeline.ts. The times and texts that a run is shown with are left out.
pub mod Partition
pub mod Runs
pub mod Rail
pub mod Narrows
use ticket_manager_system.Common.{
  ℕ, ◌+◌, ◌-◌, Bool, true, false, not, ◌&&◌, Option, none, some, List, [], ◌∷◌, map, ltb, leb, ◌==◌,
  is_some, is_none, if◌then◌else◌, length, filter,
}
use ticket_manager_system.Shared.{TicketStatus, AutoReplyDecline, status_eq}
use ticket_manager_system.Desk.{Ticket, Desk}
use ticket_manager_system.AutoReply.{auto_reply_will_still_act}
use ticket_manager_system.Classify.{classifier_will_still_act}

pub data PipelineStage : Type 0 where
  received classified eligible drafted checked resolved : PipelineStage

abbrev pub pipeline_stages : List PipelineStage
pipeline_stages = received ∷ classified ∷ eligible ∷ drafted ∷ checked ∷ resolved ∷ []

-- `PIPELINE_STAGES.indexOf`
abbrev pub index_of : PipelineStage → ℕ
index_of received = 0
index_of classified = 1
index_of eligible = 2
index_of drafted = 3
index_of checked = 4
index_of resolved = 5

pub data PipelineOutcome : Type 0 where
  pending resolved declined abandoned not_offered : PipelineOutcome

pub data StageState : Type 0 where
  done active exited pending skipped : StageState

-- `DECLINE_STAGE`
abbrev pub decline_stage : AutoReplyDecline → PipelineStage
decline_stage AutoReplyDecline.category = PipelineStage.eligible
decline_stage AutoReplyDecline.answered = PipelineStage.eligible
decline_stage AutoReplyDecline.no_text = PipelineStage.eligible
decline_stage AutoReplyDecline.follow_up = PipelineStage.eligible
decline_stage AutoReplyDecline.not_covered = PipelineStage.drafted
decline_stage AutoReplyDecline.unavailable = PipelineStage.drafted
decline_stage AutoReplyDecline.no_citation = PipelineStage.checked
decline_stage AutoReplyDecline.unbacked_commitment = PipelineStage.checked
decline_stage AutoReplyDecline.unbacked_reference = PipelineStage.checked
decline_stage AutoReplyDecline.too_long = PipelineStage.checked

-- `DECLINE_OUTCOME`
abbrev pub decline_outcome : AutoReplyDecline → PipelineOutcome
decline_outcome AutoReplyDecline.unavailable = PipelineOutcome.abandoned
decline_outcome _ = PipelineOutcome.declined

-- `classifierFiled`, `classifierGaveUp` and `assistantResolved`
abbrev pub classifier_filed : Ticket → Bool
classifier_filed t = is_some t.classified_at && is_some t.classifier_category

abbrev pub classifier_gave_up : Ticket → Bool
classifier_gave_up t = is_some t.classified_at && is_none t.classifier_category

abbrev pub assistant_resolved : Ticket → Bool
assistant_resolved t = is_some t.auto_resolved_at

-- What `factsOf` answers about a row.
pub record Facts : Type 0 where
  pub awaits_classifier : Bool
  pub awaits_auto_reply : Bool
  pub filed : Bool
  pub gave_up : Bool
  pub resolved : Bool

abbrev pub facts_of : ℕ → Desk → Ticket → Facts
facts_of now d t = record {
  awaits_classifier = classifier_will_still_act now t;
  awaits_auto_reply = auto_reply_will_still_act d.messages t;
  filed = classifier_filed t;
  gave_up = if classifier_filed t then false else classifier_gave_up t;
  resolved = assistant_resolved t;
}

abbrev waiting : Bool → PipelineOutcome
waiting b = if b then PipelineOutcome.pending else PipelineOutcome.not_offered

abbrev undeclined : Bool → Facts → PipelineOutcome
undeclined ai f =
    if f.gave_up
    then PipelineOutcome.abandoned
    else if not f.filed
    then waiting (ai && f.awaits_classifier)
    else waiting f.awaits_auto_reply

-- The outcome of `toRun`.
unfoldable pub outcome_of : Bool → Facts → Option AutoReplyDecline → PipelineOutcome
outcome_of ai f none = if f.resolved then PipelineOutcome.resolved else undeclined ai f
outcome_of ai f (some decline) =
    if f.resolved then PipelineOutcome.resolved else decline_outcome decline

abbrev stage_of : Option AutoReplyDecline → Option PipelineStage
stage_of none = none
stage_of (some decline) = some (decline_stage decline)

-- `exitStage`
abbrev pub exit_stage : Facts → Option AutoReplyDecline → Option PipelineStage
exit_stage f decline = if f.gave_up then some PipelineStage.classified else stage_of decline

abbrev reached : Bool → TicketStatus → Option PipelineStage → PipelineStage
reached filed status (some stage) = stage
reached filed status none =
    if not filed
    then PipelineStage.received
    else if status_eq status TicketStatus.processing
    then PipelineStage.drafted
    else PipelineStage.classified

-- `reachedIndex`
unfoldable pub reached_index : Facts → Option AutoReplyDecline → TicketStatus → ℕ
reached_index f decline status =
    if f.resolved then 5 else index_of (reached f.filed status (exit_stage f decline))

abbrev pub is_pending : PipelineOutcome → Bool
is_pending PipelineOutcome.pending = true
is_pending _ = false

abbrev exits_at : Option PipelineStage → PipelineStage → Bool
exits_at none stage = false
exits_at (some exit) stage = index_of exit == index_of stage

unfoldable pub stage_state : Option PipelineStage → ℕ → Bool → PipelineStage → StageState
stage_state exit reached_at terminal stage =
    if exits_at exit stage
    then StageState.exited
    else if ltb (index_of stage) reached_at
    then StageState.done
    else if index_of stage == reached_at
    then (if terminal then StageState.done else StageState.active)
    else if terminal
    then StageState.skipped
    else StageState.pending

pub record PipelineRun : Type 0 where
  pub ticket_id : ℕ
  pub outcome : PipelineOutcome
  pub decline : Option AutoReplyDecline
  pub stages : List StageState

-- `toRun`
abbrev pub to_run : Bool → Facts → Ticket → PipelineRun
to_run ai f t =
    let outcome = outcome_of ai f t.auto_reply_decline in
    record {
      ticket_id = t.id;
      outcome = outcome;
      decline = t.auto_reply_decline;
      stages =
          map
            (stage_state (exit_stage f t.auto_reply_decline)
              (reached_index f t.auto_reply_decline t.status) (not (is_pending outcome)))
            pipeline_stages;
    }

pub record CountWindow : Type 0 where
  pub from : ℕ
  pub to : ℕ

-- `inWindow`
abbrev pub in_window : CountWindow → Ticket → Bool
in_window w t = leb w.from t.created_at && ltb t.created_at w.to

abbrev pub count : (Ticket → Bool) → List Ticket → ℕ
count p ts = length (filter p ts)

pub record PipelineCounts : Type 0 where
  pub received : ℕ
  pub machine_classified : ℕ
  pub classify_abandoned : ℕ
  pub classify_pending : ℕ
  pub no_key : ℕ
  pub filed_or_stale : ℕ
  pub auto_resolved : ℕ
  pub auto_reply_pending : ℕ
  pub auto_reply_not_offered : ℕ

-- `noAutoReplyVerdict`, less the window.
abbrev pub no_auto_reply_verdict : Ticket → Bool
no_auto_reply_verdict t =
    classifier_filed t && (not (assistant_resolved t) && is_none t.auto_reply_decline)

-- `pipelineCounts`, less the tally of decline reasons.
abbrev pub pipeline_counts : CountWindow → Bool → Desk → PipelineCounts
pipeline_counts w ai d =
    let slice = filter (in_window w) d.tickets in
    let rule_matches = count (classifier_will_still_act w.to) slice in
    let classify_pending = if ai then rule_matches else 0 in
    record {
      received = length slice;
      machine_classified = count classifier_filed slice;
      classify_abandoned = count classifier_gave_up slice;
      classify_pending = classify_pending;
      no_key = rule_matches - classify_pending;
      filed_or_stale =
          length slice
          - count classifier_filed slice
          - count classifier_gave_up slice
          - rule_matches;
      auto_resolved = count assistant_resolved slice;
      auto_reply_pending =
          count (λ t. no_auto_reply_verdict t && auto_reply_will_still_act d.messages t) slice;
      auto_reply_not_offered =
          count (λ t. no_auto_reply_verdict t && is_none t.auto_reply_offered_at) slice;
    }

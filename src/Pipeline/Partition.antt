-- ===== src/Pipeline/Partition.antt =====
-- The counts of apps/api/src/routes/pipeline.ts against each other.
use ticket_manager_system.Common.{
  ℕ, ◌+◌, ◌≤◌, ◌≡◌, Bool, true, false, List, [], ◌∷◌, arith, length, filter,
}
use ticket_manager_system.Desk.{Ticket, Desk}
use ticket_manager_system.Classify.{classifier_will_still_act}
use ticket_manager_system.Pipeline.{
  CountWindow, in_window, count, classifier_filed, classifier_gave_up, pipeline_counts,
}

-- No ticket is filed, given up and still waited for at once.
count_disjoint :
    (now : ℕ) (ts : List Ticket)
    → count classifier_filed ts
        + count classifier_gave_up ts
        + count (classifier_will_still_act now) ts
      ≤ length ts
count_disjoint now [] = omega arith
count_disjoint now (t ∷ ts) = ground (arith, count_disjoint now ts)

-- Every ticket of a window is counted under one of five heads: filed by the classifier, given up, still
-- waited for, never offered for want of a key, or filed by hand or too old. So the subtraction that
-- makes the last of them never goes below zero.
pub pipeline_counts-received :
    (w : CountWindow) (ai : Bool) (d : Desk)
    → (pipeline_counts w ai d).received
      ≡ (pipeline_counts w ai d).machine_classified
        + (pipeline_counts w ai d).classify_abandoned
        + (pipeline_counts w ai d).classify_pending
        + (pipeline_counts w ai d).no_key
        + (pipeline_counts w ai d).filed_or_stale
pipeline_counts-received w true d =
    omega (arith, count_disjoint w.to (filter (in_window w) d.tickets))
pipeline_counts-received w false d =
    omega (arith, count_disjoint w.to (filter (in_window w) d.tickets))

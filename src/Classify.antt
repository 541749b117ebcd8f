-- ===== src/Classify.antt =====
-- Classifying a ticket off the request that created it: apps/api/src/jobs/classify-ticket.ts.
-- `meanwhile` is what others do to the desk during the model call. Its verdict is a function of the
-- prompt that the handler hands over.
pub mod Delivery
pub mod Sweep
use ticket_manager_system.Common.{
  ℕ, ◌+◌, ◌*◌, String, Bool, true, false, not, ◌&&◌, Option, none, some, List, [], ◌∷◌, ltb, leb,
  is_some, is_none, if◌then◌else◌, filter, take,
}
use ticket_manager_system.Shared.{
  TicketCategory, Failure, ActivityAction, EventField, category_text, is_retryable,
}
use ticket_manager_system.Desk.{Ticket, Desk, Config, classify_ticket}
use ticket_manager_system.Desk.Age.{by_created}
use ticket_manager_system.Desk.Write.{
  ticket_of, update_ticket, count_ticket, publish_pipeline_changed, publish_ticket_updated,
  send_job, write_activity, thread_of,
}
use ticket_manager_system.Activity.{assistant_actor}
use ticket_manager_system.AutoReply.{enqueue_auto_reply}
use ticket_manager_system.AutoReply.Worker.{Exit, done, retry, opening_text}

pub data Verdict : Type 0 where
  filed : TicketCategory → Verdict
  failed : Failure → Verdict

abbrev pub reconcile_max_age_ms : ℕ
reconcile_max_age_ms = 24 * 60 * 60 * 1000

abbrev pub reconcile_min_age_ms : ℕ
reconcile_min_age_ms = 10 * 60 * 1000

abbrev pub reconcile_batch : ℕ
reconcile_batch = 50

-- `classifierWillStillAct`, asked of one ticket.
abbrev pub classifier_will_still_act : ℕ → Ticket → Bool
classifier_will_still_act now t =
    is_none t.classified_at && (is_none t.category && leb now (t.created_at + reconcile_max_age_ms))

-- `enqueueClassification`: nothing without a key.
unfoldable pub enqueue_classification : Config → ℕ → Desk → Desk
enqueue_classification cfg i d = if not cfg.ai_configured then d else send_job (classify_ticket i) d

abbrev pub filed_row : ℕ → TicketCategory → Ticket → Ticket
filed_row now c t = record t {
  category = some c;
  classifier_category = some c;
  classified_at = some now;
}

-- What the job does once its answer is written: the entry, the events, the next stage.
unfoldable pub announce : Config → ℕ → ℕ → TicketCategory → Desk → Desk
announce cfg now i c d = enqueue_auto_reply cfg now i (
    publish_ticket_updated now i (EventField.category ∷ []) (
      publish_pipeline_changed now i (
        write_activity now i
          (record {
            action = ActivityAction.category_changed;
            from_value = none;
            to_value = some (category_text c);
          })
          (assistant_actor d) d)))

-- The stamp of a ticket that is given up. `update` throws where the row is gone.
unfoldable pub give_up : ℕ → ℕ → Desk → Desk × Exit
give_up now i d =
    if is_some (ticket_of i d)
    then (
      publish_pipeline_changed now i
          (update_ticket now i (λ _. true) (λ t. record t { classified_at = some now }) d),
      done,
    )
    else (d, retry)

-- What is done with the verdict.
unfoldable pub settle : Config → ℕ → ℕ → Verdict → Desk → Desk × Exit
unfolding announce give_up
settle cfg now i (failed reason) d = if is_retryable reason then (d, retry) else give_up now i d
settle cfg now i (filed c) d =
    if not (count_ticket i (λ t. is_none t.category) d) then (d, done) else (
      announce cfg now i c (update_ticket now i (λ t. is_none t.category) (filed_row now c) d),
      done,
    )

-- `handle`
unfoldable pub handle :
    Config → (String → Option String → Verdict) → (Desk → Desk) → ℕ → ℕ → Desk → Desk × Exit
unfolding settle
handle cfg classify meanwhile now i d = elim (ticket_of i d) [
  | none ↦ (d, done)
  | some t ↦
      if is_some t.classified_at
      then (d, done)
      else if is_some t.category
      then (d, done)
      else settle cfg now i (classify t.subject (opening_text (thread_of i d))) (meanwhile d)
]

-- `onExhausted`
unfoldable pub on_exhausted : ℕ → ℕ → Desk → Desk
on_exhausted now i d = publish_pipeline_changed now i (
    update_ticket now i (λ t. is_none t.classified_at) (λ t. record t { classified_at = some now })
      d)

-- The sweep's rule: the classifier still waits for it, and it is out of the usual path's hands.
abbrev pub is_stale : ℕ → Ticket → Bool
is_stale now t = classifier_will_still_act now t && ltb (t.created_at + reconcile_min_age_ms) now

unfoldable pub stale : ℕ → Desk → List Ticket
stale now d = take reconcile_batch (by_created (filter (is_stale now) d.tickets))

unfoldable pub enqueue_each : Config → List Ticket → Desk → Desk
unfolding enqueue_classification
enqueue_each cfg [] d = d
enqueue_each cfg (t ∷ ts) d = enqueue_each cfg ts (enqueue_classification cfg t.id d)

-- `reconcile`
unfoldable pub reconcile : Config → ℕ → Desk → Desk
unfolding stale enqueue_each
reconcile cfg now d = enqueue_each cfg (stale now d) d

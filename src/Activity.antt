-- ===== src/Activity.antt =====
-- The audit trail: apps/api/src/activity-diff.ts and apps/api/src/ticket-activity.ts, and the events
-- that apps/api/src/events/ticket-events.ts derives from its entries.
pub mod Diff
use ticket_manager_system.Common.{
  ℕ, String, Bool, true, false, ◌||◌, Option, none, some, List, [], ◌∷◌, ◌==◌, str_eq,
  if◌then◌else◌, filter, any,
}
use ticket_manager_system.Shared.{
  ActorKind, ActivityAction, EventField, option_eq, activity_event_field,
}
use ticket_manager_system.Desk.{User, TicketActor, ActivityEntry, Desk}
use ticket_manager_system.Desk.Write.{publish_ticket_updated}
use ticket_manager_system.Automation.{assistant_user}

abbrev pub agent_actor : User → TicketActor
agent_actor u = record {
  actor_kind = ActorKind.agent;
  actor_id = some u.id;
  actor_name = u.name;
  actor_email = some u.email;
}

abbrev assistant_as : Option User → TicketActor
assistant_as none = record {
  actor_kind = ActorKind.assistant;
  actor_id = none;
  actor_name = "AI Assistant";
  actor_email = none;
}
assistant_as (some u) = record {
  actor_kind = ActorKind.assistant;
  actor_id = some u.id;
  actor_name = u.name;
  actor_email = some u.email;
}

-- With the name alone where the account does not exist.
abbrev pub assistant_actor : Desk → TicketActor
assistant_actor d = assistant_as (assistant_user d)

abbrev pub customer_actor : String → TicketActor
customer_actor name = record {
  actor_kind = ActorKind.customer;
  actor_id = none;
  actor_name = name;
  actor_email = none;
}

-- One field to compare: how to read it, and what a change of it is called. No caller in the
-- modelled code passes a label, and the values are texts.
pub record DiffField (T : Type 0) : Type 0 where
  pub field : T → Option String
  pub action : ActivityAction

pub record TicketFields : Type 0 where
  pub status : String
  pub category : Option String
  pub assignee : Option String

abbrev pub differs : Option String → Option String → Bool
differs a b = if option_eq str_eq a b then false else true

unfoldable pub diff_to_entries : {T : Type 0} → T → T → List (DiffField T) → List ActivityEntry
diff_to_entries before after [] = []
diff_to_entries before after (f ∷ fields) =
    let rest = diff_to_entries before after fields in
    if differs (f.field before) (f.field after)
    then record { action = f.action; from_value = f.field before; to_value = f.field after } ∷ rest
    else rest

abbrev pub ticket_fields : List (DiffField TicketFields)
ticket_fields =
    record { field = λ t. some t.status; action = ActivityAction.status_changed }
    ∷ record { field = λ t. t.category; action = ActivityAction.category_changed }
    ∷ record { field = λ t. t.assignee; action = ActivityAction.assignee_changed }
    ∷ []

unfoldable pub ticket_changes : TicketFields → TicketFields → List ActivityEntry
unfolding diff_to_entries
ticket_changes before after = diff_to_entries before after ticket_fields

abbrev pub field_code : EventField → ℕ
field_code EventField.status = 0
field_code EventField.category = 1
field_code EventField.assignee = 2

-- `[...new Set(fields)]`: each field once, where it first stands.
unfoldable pub distinct : List EventField → List EventField → List EventField
distinct seen [] = []
distinct seen (f ∷ fs) =
    let fresh = f ∷ distinct (f ∷ seen) fs in
    let stale = distinct seen fs in
    if any (λ g. field_code g == field_code f) seen then stale else fresh

abbrev with_field : Option EventField → List EventField → List EventField
with_field none fs = fs
with_field (some f) fs = f ∷ fs

abbrev pub changed_fields : List ActivityEntry → List EventField
changed_fields [] = []
changed_fields (e ∷ es) = with_field (activity_event_field e.action) (changed_fields es)

unfoldable pub publish_ticket_changes : ℕ → ℕ → List ActivityEntry → Desk → Desk
unfolding distinct
publish_ticket_changes now i entries =
    publish_ticket_updated now i (distinct [] (changed_fields entries))

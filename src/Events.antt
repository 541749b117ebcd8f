-- ===== src/Events.antt =====
-- The open event streams and who hears what: apps/api/src/events/hub.ts, with `EVENT_AUDIENCE` of
-- packages/shared/src/events.ts. The set of connections is a list in the order of insertion, and a
-- connection is told by a number, as the set tells objects apart by their identity.
pub mod Streams
pub mod Audience
use ticket_manager_system.Common.{
  ℕ, Bool, true, false, not, ◌&&◌, Option, none, some, List, [], ◌∷◌, ◌++◌, filter, is_some, ◌==◌,
  if◌then◌else◌,
}
use ticket_manager_system.Shared.{Role}
use ticket_manager_system.Desk.{
  TicketEvent, ticket_created, ticket_updated, ticket_message, pipeline_changed, eval_run_changed,
}
use ticket_manager_system.Desk.Table.{find}
use ticket_manager_system.Automation.{is_admin}

-- `EventConnection`, less its two callbacks.
pub record Connection : Type 0 where
  pub stream : ℕ
  pub role : Role

-- An event that a connection's `send` was called with and took.
pub record SentEvent : Type 0 where
  pub to : ℕ
  pub event : TicketEvent

pub record Hub : Type 0 where
  pub connections : List Connection
  pub deliveries : List SentEvent

abbrev pub closed_hub : Hub
closed_hub = record { connections = []; deliveries = [] }

-- Where an event is published: inside a transaction or not, in production or not.
pub record Scope : Type 0 where
  pub in_transaction : Bool
  pub in_production : Bool

-- `EVENT_AUDIENCE`: none for "all".
abbrev pub event_audience : TicketEvent → Option Role
event_audience (ticket_created i at) = none
event_audience (ticket_updated i at fields) = none
event_audience (ticket_message i at) = none
event_audience (pipeline_changed i at) = some Role.admin
event_audience (eval_run_changed i at) = some Role.admin

abbrev role_eq : Role → Role → Bool
role_eq Role.admin r = is_admin r
role_eq Role.agent r = not (is_admin r)

abbrev pub may_hear : Option Role → Role → Bool
may_hear none role = true
may_hear (some audience) role = role_eq role audience

-- `connections.add`
unfoldable pub subscribe : Connection → Hub → Hub
unfolding find
subscribe c h =
    if is_some (find (λ (x : Connection). x.stream) c.stream h.connections)
    then h
    else record h { connections = h.connections ++ c ∷ [] }

-- `connections.delete`
unfoldable pub unsubscribe : ℕ → Hub → Hub
unsubscribe s h = record h {
  connections = filter (λ (x : Connection). not (x.stream == s)) h.connections;
}

-- The loop of `publish`: a `send` that throws is passed over.
unfoldable pub fan_out :
    (ℕ → Bool) → TicketEvent → List Connection → List SentEvent → List SentEvent
fan_out takes e [] sent = sent
fan_out takes e (c ∷ cs) sent = fan_out takes e cs (
    if may_hear (event_audience e) c.role && takes c.stream
    then sent ++ (record { to = c.stream; event = e }) ∷ []
    else sent)

pub data Published : Type 0 where
  thrown reported fanned : Published

-- `refuseInsideTransaction`: thrown, reported or neither.
abbrev pub refuse_inside_transaction : Scope → Published
refuse_inside_transaction at =
    if not at.in_transaction then fanned else if not at.in_production then thrown else reported

abbrev is_thrown : Published → Bool
is_thrown thrown = true
is_thrown reported = false
is_thrown fanned = false

abbrev pub is_refused : Scope → Bool
is_refused at = is_thrown (refuse_inside_transaction at)

-- `publish`, with the streams whose `send` does not throw.
unfoldable pub publish : Scope → (ℕ → Bool) → TicketEvent → Hub → Hub × Published
unfolding fan_out
publish at takes e h = (
  if is_refused at then h else record h { deliveries = fan_out takes e h.connections h.deliveries },
  refuse_inside_transaction at,
)

-- `closeAll`
unfoldable pub close_all : Hub → Hub
close_all h = record h { connections = [] }

pub data HubCall : Type 0 where
  subscribes : Connection → HubCall
  unsubscribes : ℕ → HubCall
  publishes : Scope → (ℕ → Bool) → TicketEvent → HubCall
  closes : HubCall

abbrev pub hub_call : HubCall → Hub → Hub
hub_call (subscribes c) h = subscribe c h
hub_call (unsubscribes s) h = unsubscribe s h
hub_call (publishes at takes e) h = (publish at takes e h).0
hub_call closes h = close_all h

unfoldable pub run_hub : List HubCall → Hub → Hub
unfolding subscribe unsubscribe publish close_all
run_hub [] h = h
run_hub (c ∷ cs) h = run_hub cs (hub_call c h)

-- ===== src/Events/Audience.antt =====
-- Who hears of what on the hub of apps/api/src/events/hub.ts.
use ticket_manager_system.Common.{
  ℕ, ◌≡◌, refl, subst, sym, Bool, true, false, Option, none, some, List, [], ◌∷◌, ◌++◌, arith, All,
  ◌==◌, Bool-cases, inl, inr,
}
use ticket_manager_system.Shared.{Role}
use ticket_manager_system.Desk.{
  TicketEvent, ticket_created, ticket_updated, ticket_message, pipeline_changed, eval_run_changed,
}
use ticket_manager_system.Events.{
  closed_hub, event_audience, is_refused, HubCall, subscribes, unsubscribes, publishes, closes,
  run_hub,
}
use ticket_manager_system.Events.Streams.{
  Listener, nobody, listen, listen_all, heard_by, hears, join_as, same_stream, run_hub-listener_of,
}

-- A call that does not subscribe the stream under another role than an agent's.
abbrev pub JoinsAsAgent : ℕ → HubCall → Type 0
JoinsAsAgent s (subscribes c) = c.stream ≡ s → c.role ≡ Role.agent
JoinsAsAgent s (unsubscribes t) = Unit
JoinsAsAgent s (publishes at takes e) = Unit
JoinsAsAgent s closes = Unit

abbrev IsOpen : TicketEvent → Type 0
IsOpen e = event_audience e ≡ none

abbrev IsAgent : Option Role → Type 0
IsAgent none = Unit
IsAgent (some role) = role ≡ Role.agent

abbrev AgentHears : Listener → Type 0
AgentHears l = IsAgent l.listens_as × All IsOpen l.heard

hears-IsOpen :
    (e : TicketEvent) (takes : Bool) (r : Option Role) → IsAgent r → All IsOpen (hears e takes r)
hears-IsOpen e takes none a = tt
hears-IsOpen e takes (some Role.admin) a = ground (arith, a)
hears-IsOpen (ticket_created i at) true (some Role.agent) a = (refl, tt)
hears-IsOpen (ticket_updated i at f) true (some Role.agent) a = (refl, tt)
hears-IsOpen (ticket_message i at) true (some Role.agent) a = (refl, tt)
hears-IsOpen (ticket_created i at) false (some Role.agent) a = tt
hears-IsOpen (ticket_updated i at f) false (some Role.agent) a = tt
hears-IsOpen (ticket_message i at) false (some Role.agent) a = tt
hears-IsOpen (pipeline_changed i at) takes (some Role.agent) a = tt
hears-IsOpen (eval_run_changed i at) takes (some Role.agent) a = tt

All-both : (xs ys : List TicketEvent) → All IsOpen xs → All IsOpen ys → All IsOpen (xs ++ ys)
All-both [] ys p q = q
All-both (x ∷ xs) ys p q = (p.0, All-both xs ys p.1 q)

join_as-IsAgent :
    (role : Role) (r : Option Role) → role ≡ Role.agent → IsAgent r → IsAgent (join_as role r)
join_as-IsAgent role none e a = e
join_as-IsAgent role (some r) e a = a

listen-AgentHears :
    (s : ℕ) (c : HubCall) (l : Listener)
    → JoinsAsAgent s c
    → AgentHears l
    → AgentHears (listen s c l)
listen-AgentHears s (subscribes c) l j a = elim (Bool-cases (c.stream == s)) [
  | inl same ↦ rw same (join_as-IsAgent c.role l.listens_as (j (same_stream _ _ same)) a.0, a.1)
  | inr other ↦ rw other a
]
listen-AgentHears s (unsubscribes t) l j a = elim (Bool-cases (t == s)) [
  | inl same ↦ rw same (tt, a.1)
  | inr other ↦ rw other a
]
listen-AgentHears s (publishes at takes e) l j a = elim (Bool-cases (is_refused at)) [
  | inl refused ↦ rw refused a
  | inr heard ↦ rw heard (a.0, All-both l.heard _ a.1 (hears-IsOpen e (takes s) l.listens_as a.0))
]
listen-AgentHears s closes l j a = (tt, a.1)

listen_all-AgentHears :
    (s : ℕ) (cs : List HubCall) (l : Listener)
    → All (JoinsAsAgent s) cs
    → AgentHears l
    → AgentHears (listen_all s cs l)
unfolding listen_all
listen_all-AgentHears s [] l js a = a
listen_all-AgentHears s (c ∷ cs) l js a =
    listen_all-AgentHears s cs (listen s c l) js.1 (listen-AgentHears s c l js.0 a)

-- What is for admins stays with them: on a hub that starts with no connection, a stream that never
-- subscribes under another role than an agent's is only sent events whose audience is everybody,
-- whatever is published and whoever else comes and goes.
pub run_hub-JoinsAsAgent :
    (s : ℕ) (cs : List HubCall)
    → All (JoinsAsAgent s) cs
    → All
        (λ (e : TicketEvent). event_audience e ≡ none)
        (heard_by s (run_hub cs closed_hub).deliveries)
run_hub-JoinsAsAgent s cs js =
    subst (λ (l : Listener). All IsOpen l.heard) (sym (run_hub-listener_of s cs))
      (listen_all-AgentHears s cs nobody js (tt, tt)).1

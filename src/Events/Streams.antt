-- ===== src/Events/Streams.antt =====
-- One stream of apps/api/src/events/hub.ts, followed through any calls of the hub.
use ticket_manager_system.Common.{
  ℕ, ◌≡◌, refl, sym, ap, ◌∙◌, Bool, true, false, not, ◌&&◌, Option, none, some, List, [], ◌∷◌, ◌++◌,
  arith, filter, ◌==◌, if◌then◌else◌, Bool-cases, Option-cases, inl, inr,
}
use ticket_manager_system.Shared.{Role}
use ticket_manager_system.Desk.{TicketEvent}
use ticket_manager_system.Desk.Table.{find, find-append}
use ticket_manager_system.Events.{
  Connection, SentEvent, Hub, closed_hub, event_audience, may_hear, subscribe, unsubscribe, fan_out,
  is_refused, publish, close_all, HubCall, subscribes, unsubscribes, publishes, closes, hub_call,
  run_hub,
}

abbrev connection_of : ℕ → List Connection → Option Connection
connection_of s cs = find (λ (c : Connection). c.stream) s cs

-- What one browser tab knows of the hub: the role under which it is connected, and what it was sent.
pub record Listener : Type 0 where
  pub listens_as : Option Role
  pub heard : List TicketEvent

abbrev pub nobody : Listener
nobody = record { listens_as = none; heard = [] }

abbrev pub hears : TicketEvent → Bool → Option Role → List TicketEvent
hears e takes none = []
hears e takes (some role) = if may_hear (event_audience e) role && takes then e ∷ [] else []

abbrev pub join_as : Role → Option Role → Option Role
join_as role none = some role
join_as role (some r) = some r

-- The stream on its own.
abbrev pub listen : ℕ → HubCall → Listener → Listener
listen s (subscribes c) l =
    if c.stream == s then record l { listens_as = join_as c.role l.listens_as } else l
listen s (unsubscribes t) l = if t == s then record l { listens_as = none } else l
listen s (publishes at takes e) l =
    if is_refused at then l else record l { heard = l.heard ++ hears e (takes s) l.listens_as }
listen s closes l = record l { listens_as = none }

unfoldable pub listen_all : ℕ → List HubCall → Listener → Listener
listen_all s [] l = l
listen_all s (c ∷ cs) l = listen_all s cs (listen s c l)

abbrev role_of : Option Connection → Option Role
role_of none = none
role_of (some c) = some c.role

abbrev pub heard_by : ℕ → List SentEvent → List TicketEvent
heard_by s [] = []
heard_by s (d ∷ ds) = if d.to == s then d.event ∷ heard_by s ds else heard_by s ds

-- The stream within the hub.
abbrev pub listener_of : ℕ → Hub → Listener
listener_of s h = record {
  listens_as = role_of (connection_of s h.connections);
  heard = heard_by s h.deliveries;
}

abbrev Distinct : List Connection → Type 0
Distinct [] = Unit
Distinct (c ∷ cs) = (connection_of c.stream cs ≡ none) × Distinct cs

heard_by-append :
    (s : ℕ) (ds : List SentEvent) (d : SentEvent)
    → heard_by s (ds ++ d ∷ []) ≡ heard_by s ds ++ (if d.to == s then d.event ∷ [] else [])
heard_by-append s [] d = refl
heard_by-append s (x ∷ ds) d = ground (arith, heard_by-append s ds d)

pub same_stream : (a b : ℕ) → (a == b) ≡ true → a ≡ b
same_stream a b e = ground (arith, e)

append_nil : {A : Type 0} → (xs : List A) → xs ++ [] ≡ xs
append_nil [] = refl
append_nil (x ∷ xs) = ap (λ ys. x ∷ ys) (append_nil xs)

connection_of-remove :
    (s t : ℕ) (cs : List Connection)
    → connection_of s (filter (λ (c : Connection). not (c.stream == t)) cs)
      ≡ (if t == s then none else connection_of s cs)
unfolding find
connection_of-remove s t [] = ground arith
connection_of-remove s t (c ∷ cs) = ground (arith, connection_of-remove s t cs)

remove-Distinct :
    (t : ℕ) (cs : List Connection)
    → Distinct cs
    → Distinct (filter (λ (c : Connection). not (c.stream == t)) cs)
remove-Distinct t [] u = tt
remove-Distinct t (c ∷ cs) u = elim (Bool-cases (c.stream == t)) [
  | inl same ↦ rw same (remove-Distinct t cs u.1)
  | inr other ↦
      rw other (connection_of-remove c.stream t cs ∙ ground (arith, u.0), remove-Distinct t cs u.1)
]

append-Distinct :
    (cs : List Connection) (c : Connection)
    → Distinct cs
    → connection_of c.stream cs ≡ none
    → Distinct (cs ++ c ∷ [])
unfolding find
append-Distinct [] c u new = (refl, tt)
append-Distinct (x ∷ cs) c u new = (
  find-append (λ (c : Connection). c.stream) x.stream cs c ∙ ground (arith, u.0, new),
  append-Distinct cs c u.1 (ground (arith, new)),
)

sent-heard :
    (s : ℕ) (b : Bool) (d : SentEvent) (ds : List SentEvent)
    → heard_by s (if b then ds ++ d ∷ [] else ds)
      ≡ heard_by s ds ++ (if (d.to == s) && b then d.event ∷ [] else [])
sent-heard s true d ds = heard_by-append s ds d ∙ ground arith
sent-heard s false d ds = sym (append_nil (heard_by s ds)) ∙ ground arith

fan_out-heard :
    (s : ℕ) (takes : ℕ → Bool) (e : TicketEvent) (cs : List Connection) (ds : List SentEvent)
    → Distinct cs
    → heard_by s (fan_out takes e cs ds)
      ≡ heard_by s ds ++ hears e (takes s) (role_of (connection_of s cs))
unfolding fan_out find
fan_out-heard s takes e [] ds u = sym (append_nil (heard_by s ds))
fan_out-heard s takes e (c ∷ cs) ds u =
    fan_out-heard s takes e cs _ u.1
    ∙ ap (λ es. es ++ hears e (takes s) (role_of (connection_of s cs)))
        (sent-heard s (may_hear (event_audience e) c.role && takes c.stream)
          (record { to = c.stream; event = e }) ds)
    ∙ elim (Bool-cases (c.stream == s)) [
      | inl same ↦
          let at : c.stream ≡ s = same_stream _ _ same in
          let gone : connection_of s cs ≡ none = ap (λ k. connection_of k cs) (sym at) ∙ u.0 in
          rw (same, gone)
            (append_nil _
              ∙ ap
                  (λ k.
                    heard_by s ds
                    ++ (if may_hear (event_audience e) c.role && takes k then e ∷ [] else []))
                  at)
      | inr other ↦ rw other (
          ap (λ es. es ++ hears e (takes s) (role_of (connection_of s cs)))
            (append_nil (heard_by s ds)))
    ]

subscribe-listener_of :
    (s : ℕ) (c : Connection) (h : Hub)
    → listener_of s (subscribe c h) ≡ listen s (subscribes c) (listener_of s h)
unfolding subscribe
subscribe-listener_of s c h = elim (Option-cases (connection_of c.stream h.connections)) [
  | inl new ↦
      rw (new, find-append (λ (c : Connection). c.stream) s h.connections c)
        (elim (Bool-cases (c.stream == s)) [
          | inl same ↦
              let gone : connection_of s h.connections ≡ none =
                ap (λ k. connection_of k h.connections) (sym (same_stream _ _ same)) ∙ new in
              rw (gone, same) refl
          | inr other ↦ elim (Option-cases (connection_of s h.connections)) [
            | inl gone ↦ rw (gone, other) refl
            | inr (x, found) ↦ rw (found, other) refl
          ]
        ])
  | inr (x, found) ↦ rw found (elim (Bool-cases (c.stream == s)) [
    | inl same ↦
        let here : connection_of s h.connections ≡ some x =
          ap (λ k. connection_of k h.connections) (sym (same_stream _ _ same)) ∙ found in
        rw (same, here) refl
    | inr other ↦ rw other refl
  ])
]

hub_call-Distinct :
    (c : HubCall) (h : Hub) → Distinct h.connections → Distinct (hub_call c h).connections
unfolding subscribe unsubscribe publish close_all
hub_call-Distinct (subscribes c) h u = elim (Option-cases (connection_of c.stream h.connections)) [
  | inl new ↦ rw new (append-Distinct h.connections c u new)
  | inr (x, found) ↦ rw found u
]
hub_call-Distinct (unsubscribes t) h u = remove-Distinct t h.connections u
hub_call-Distinct (publishes at takes e) h u = elim (Bool-cases (is_refused at)) [
  | inl refused ↦ rw refused u
  | inr heard ↦ rw heard u
]
hub_call-Distinct closes h u = tt

listener_of-hub_call :
    (s : ℕ) (c : HubCall) (h : Hub)
    → Distinct h.connections
    → listener_of s (hub_call c h) ≡ listen s c (listener_of s h)
unfolding subscribe unsubscribe publish close_all find
listener_of-hub_call s (subscribes c) h u = subscribe-listener_of s c h
listener_of-hub_call s (unsubscribes t) h u =
    ap
      (λ (o : Option Connection). record {
        listens_as = role_of o;
        heard = heard_by s h.deliveries;
      })
      (connection_of-remove s t h.connections)
    ∙ elim (Bool-cases (t == s)) [ inl same ↦ rw same refl | inr other ↦ rw other refl ]
listener_of-hub_call s (publishes at takes e) h u = elim (Bool-cases (is_refused at)) [
  | inl refused ↦ rw refused refl
  | inr heard ↦ rw heard (
      ap (λ es. record { listens_as = role_of (connection_of s h.connections); heard = es })
        (fan_out-heard s takes e h.connections h.deliveries u))
]
listener_of-hub_call s closes h u = refl

listener_of-run_hub :
    (s : ℕ) (cs : List HubCall) (h : Hub)
    → Distinct h.connections
    → listener_of s (run_hub cs h) ≡ listen_all s cs (listener_of s h)
unfolding run_hub listen_all
listener_of-run_hub s [] h u = refl
listener_of-run_hub s (c ∷ cs) h u =
    listener_of-run_hub s cs (hub_call c h) (hub_call-Distinct c h u)
    ∙ ap (listen_all s cs) (listener_of-hub_call s c h u)

-- Every stream is on its own: after any calls of a hub that starts with no connection, what a stream
-- is connected as and what it was sent are what its own automaton says. There a stream joins once under
-- the role of its first subscription until it leaves or the hub closes, and while it is connected it is sent
-- each event once, in order, that is not refused inside a transaction, that its role may hear and whose `send` does not throw.
pub run_hub-listener_of :
    (s : ℕ) (cs : List HubCall) → listener_of s (run_hub cs closed_hub) ≡ listen_all s cs nobody
unfolding find
run_hub-listener_of s cs = listener_of-run_hub s cs closed_hub tt

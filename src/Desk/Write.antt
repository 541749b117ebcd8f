-- ===== src/Desk/Write.antt =====
-- The single writes that the handlers of apps/api/src are made of, on the state of `Desk`.
use ticket_manager_system.Common.{
  ℕ, ◌+◌, ◌≡◌, Bool, false, ◌&&◌, ◌||◌, Option, List, [], ◌∷◌, ◌++◌, ltb, ◌==◌, if◌then◌else◌,
  filter,
}
use ticket_manager_system.Shared.{EventField}
use ticket_manager_system.Desk.{
  Ticket, Message, TicketActor, ActivityEntry, OutboundEmail, Job, TicketEvent, ticket_created,
  ticket_message, pipeline_changed, ticket_updated, Desk,
}
use ticket_manager_system.Desk.Table.{
  find, update, fits_some, written, find-update_self, find-update_other,
}

abbrev pub ticket_of : ℕ → Desk → Option Ticket
ticket_of i d = find (λ (t : Ticket). t.id) i d.tickets

abbrev pub email_of : ℕ → Desk → Option OutboundEmail
email_of i d = find (λ (e : OutboundEmail). e.id) i d.outbox

-- `prisma.ticket.updateMany({ where: { id, ... }, data })`; every write moves `updatedAt`.
abbrev pub touched : ℕ → (Ticket → Ticket) → Ticket → Ticket
touched now f t = record (f t) { updated_at = now }

unfoldable pub update_ticket : ℕ → ℕ → (Ticket → Bool) → (Ticket → Ticket) → Desk → Desk
update_ticket now i fits f d = record d {
  tickets = update (λ (t : Ticket). t.id) i fits (touched now f) d.tickets;
}

-- `count > 0` of that write.
abbrev pub count_ticket : ℕ → (Ticket → Bool) → Desk → Bool
count_ticket i fits d = fits_some fits (ticket_of i d)

unfoldable pub update_email :
    ℕ → (OutboundEmail → Bool) → (OutboundEmail → OutboundEmail) → Desk → Desk
update_email i fits f d = record d {
  outbox = update (λ (e : OutboundEmail). e.id) i fits f d.outbox;
}

abbrev pub count_email : ℕ → (OutboundEmail → Bool) → Desk → Bool
count_email i fits d = fits_some fits (email_of i d)

-- `hub.publish`, as far as the publisher sees it.
abbrev pub publish : TicketEvent → Desk → Desk
publish e d = record d { events = d.events ++ e ∷ [] }

abbrev pub publish_pipeline_changed : ℕ → ℕ → Desk → Desk
publish_pipeline_changed now i = publish (pipeline_changed i now)

abbrev pub publish_ticket_created : ℕ → ℕ → Desk → Desk
publish_ticket_created now i = publish (ticket_created i now)

abbrev pub publish_ticket_message : ℕ → ℕ → Desk → Desk
publish_ticket_message now i = publish (ticket_message i now)

-- An update that names no field is not published.
abbrev pub publish_ticket_updated : ℕ → ℕ → List EventField → Desk → Desk
publish_ticket_updated now i [] d = d
publish_ticket_updated now i (f ∷ fs) d = publish (ticket_updated i now (f ∷ fs)) d

-- `getBoss().send`
abbrev pub send_job : Job → Desk → Desk
send_job j d = record d { jobs = d.jobs ++ j ∷ [] }

-- `writeActivity`, and `recordActivity` where the insert succeeds.
abbrev pub write_activity : ℕ → ℕ → ActivityEntry → TicketActor → Desk → Desk
write_activity now i entry actor d = record d {
  activity =
      d.activity ++ record { ticket_id = i; entry = entry; actor = actor; created_at = now } ∷ [];
}

abbrev pub insert_message : Message → Desk → Desk
insert_message m d = record d { messages = d.messages ++ m ∷ []; next_message = d.next_message + 1 }

abbrev pub insert_email : OutboundEmail → Desk → Desk
insert_email e d = record d { outbox = d.outbox ++ e ∷ []; next_email = d.next_email + 1 }

abbrev pub insert_ticket : Ticket → Desk → Desk
insert_ticket t d = record d { tickets = d.tickets ++ t ∷ []; next_ticket = d.next_ticket + 1 }

-- A thread, oldest first, ties by id: `orderBy: [{ createdAt: "asc" }, { id: "asc" }]`.
abbrev before : Message → Message → Bool
before a b = ltb a.created_at b.created_at || (a.created_at == b.created_at && ltb a.id b.id)

unfoldable pub insert_by_age : Message → List Message → List Message
insert_by_age m [] = m ∷ []
insert_by_age m (x ∷ xs) = if before m x then m ∷ x ∷ xs else x ∷ insert_by_age m xs

unfoldable pub by_age : List Message → List Message
unfolding insert_by_age
by_age [] = []
by_age (m ∷ ms) = insert_by_age m (by_age ms)

unfoldable pub thread_of : ℕ → Desk → List Message
unfolding by_age
thread_of i d = by_age (filter (λ m. m.ticket_id == i) d.messages)

module _ (now i : ℕ) (fits : Ticket → Bool) (f : Ticket → Ticket)
    (same : (t : Ticket) → (f t).id ≡ t.id) (d : Desk) where
  pub ticket_of-update_ticket :
      ticket_of i (update_ticket now i fits f d) ≡ written fits (touched now f) (ticket_of i d)
  unfolding update_ticket
  ticket_of-update_ticket =
      find-update_self (λ (t : Ticket). t.id) fits (touched now f) same i d.tickets

  pub ticket_of-update_other :
      (j : ℕ) → (i == j) ≡ false → ticket_of j (update_ticket now i fits f d) ≡ ticket_of j d
  unfolding update_ticket
  ticket_of-update_other j h =
      find-update_other (λ (t : Ticket). t.id) fits (touched now f) same i j d.tickets h

-- ===== src/Tickets/Values.antt =====
-- The values that the routes of apps/api/src/routes/tickets.ts let through.
use ticket_manager_system.Common.{
  ℕ, ◌≡◌, ◌⊎◌, refl, sym, ap, true, Option, none, some, Bool-cases, Option-cases, inl, inr,
}
use ticket_manager_system.Shared.{TicketStatus}
use ticket_manager_system.Desk.{Ticket, User, Desk}
use ticket_manager_system.Desk.Write.{ticket_of, touched}
use ticket_manager_system.Automation.{user_of, is_assignable}
use ticket_manager_system.Tickets.{
  updated, is_ticket_id, is_settable, may_assign, write_update, update_ticket_as, patch_status,
  patch_assignee,
}

updated-injective : (t u : Ticket) → updated t ≡ updated u → t ≡ u
updated-injective t u e = cc

-- The ticket that an update answers with is one that it edited.
update_ticket_as-updated :
    (between : Desk → Desk) (now : ℕ) (caller : User) (i : ℕ) (edit : Ticket → Ticket) (d : Desk)
    (t : Ticket)
    → (update_ticket_as between now caller i edit d).1 ≡ updated t
    → (u : Ticket) × (t ≡ touched now edit u)
unfolding update_ticket_as write_update
update_ticket_as-updated between now caller i edit d t e = elim (Option-cases (ticket_of i d)) [
  | inl gone ↦ absurd (cc (rw (gone, update_ticket_as) at e))
  | inr (existing, found) ↦ elim (Option-cases (ticket_of i (between d))) [
    | inl gone ↦ absurd (cc (rw (gone, write_update) at (rw (found, update_ticket_as) at e)))
    | inr (u, here) ↦ (
      u,
      sym (updated-injective _ _ (rw (here, write_update) at (rw (found, update_ticket_as) at e))),
    )
  ]
]

settable_cases :
    (s : TicketStatus)
    → is_settable s ≡ true
    → (s ≡ TicketStatus.opened) ⊎ ((s ≡ TicketStatus.resolved) ⊎ (s ≡ TicketStatus.closed))
settable_cases TicketStatus.opened e = inl refl
settable_cases TicketStatus.resolved e = inr (inl refl)
settable_cases TicketStatus.closed e = inr (inr refl)
settable_cases TicketStatus.new e = absurd (cc)
settable_cases TicketStatus.processing e = absurd (cc)

may_assign_cases :
    (user : Option ℕ) (d : Desk)
    → may_assign user d ≡ true
    → (user ≡ none)
      ⊎ ((u : User) × ((id : ℕ) × ((user ≡ some id)
              × ((user_of id d ≡ some u) × (is_assignable u ≡ true)))))
may_assign_cases none d e = inl refl
may_assign_cases (some id) d e = elim (Option-cases (user_of id d)) [
  | inl gone ↦ absurd (cc (rw (gone, may_assign) at e))
  | inr (u, found) ↦ inr (u, (id, (refl, (found, rw (found, may_assign) at e))))
]

-- An agent's request can set a ticket to `Open`, `Resolved` or `Closed` and to nothing else: whatever it
-- asks for and others do meanwhile, a ticket that it answers with is in one of the three.
pub patch_status-settable :
    (between : Desk → Desk) (now : ℕ) (caller : User) (i : ℕ) (status : TicketStatus) (d : Desk)
    (t : Ticket)
    → (patch_status between now caller i status d).1 ≡ updated t
    → (t.status ≡ TicketStatus.opened)
      ⊎ ((t.status ≡ TicketStatus.resolved) ⊎ (t.status ≡ TicketStatus.closed))
unfolding patch_status
patch_status-settable between now caller i status d t e = elim (Bool-cases (is_ticket_id i)) [
  | inr bad ↦ absurd (cc (rw bad at e))
  | inl good ↦ elim (Bool-cases (is_settable status)) [
    | inr unsettable ↦ absurd (cc (rw (good, unsettable) at e))
    | inl settable ↦
        let (u, same) =
          update_ticket_as-updated between now caller i (λ t. record t { status = status }) d t
            (rw (good, settable) at e) in
        rw same (settable_cases status settable)
  ]
]

-- A ticket can be assigned to nobody, or to a person who is neither deleted nor automated nor a demo
-- visitor when the route looks: that person owns the ticket that it answers with.
pub patch_assignee-assignable :
    (between : Desk → Desk) (now : ℕ) (caller : User) (i : ℕ) (user : Option ℕ) (d : Desk)
    (t : Ticket)
    → (patch_assignee between now caller i user d).1 ≡ updated t
    → (t.assigned_to_id ≡ user)
      × ((user ≡ none)
          ⊎ ((u : User) × ((id : ℕ) × ((user ≡ some id)
                  × ((user_of id d ≡ some u) × (is_assignable u ≡ true))))))
unfolding patch_assignee
patch_assignee-assignable between now caller i user d t e = elim (Bool-cases (is_ticket_id i)) [
  | inr bad ↦ absurd (cc (rw bad at e))
  | inl good ↦ elim (Bool-cases (may_assign user d)) [
    | inr refused ↦ absurd (cc (rw (good, refused) at e))
    | inl fine ↦
        let (u, same) =
          update_ticket_as-updated between now caller i
            (λ t. record t { assigned_to_id = user; assignment_seen_at = none }) d t
            (rw (good, fine) at e) in
        (ap (λ (t : Ticket). t.assigned_to_id) same, may_assign_cases user d fine)
  ]
]

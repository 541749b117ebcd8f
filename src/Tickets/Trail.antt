-- ===== src/Tickets/Trail.antt =====
-- The trail and the events of an edit through apps/api/src/routes/tickets.ts.
use ticket_manager_system.Common.{
  ℕ, ◌+◌, ◌≡◌, ◌↔◌, refl, sym, ap, ◌∙◌, true, Option, none, some, List, [], ◌∷◌, arith, Bool-cases,
  Option-cases, inl, inr, length, length-append,
}
use ticket_manager_system.Shared.{EventField, status_text}
use ticket_manager_system.Desk.{Ticket, TicketActor, ActivityEntry, User, Desk}
use ticket_manager_system.Desk.Write.{
  ticket_of, touched, update_ticket, write_activity, publish_ticket_updated,
}
use ticket_manager_system.Automation.{user_named}
use ticket_manager_system.Activity.{
  TicketFields, agent_actor, diff_to_entries, ticket_changes, changed_fields, distinct,
  publish_ticket_changes,
}
use ticket_manager_system.Activity.Diff.{ticket_changes-nil_iff}
use ticket_manager_system.Tickets.{
  updated, fields_of, write_entries, record_changes, write_update, update_ticket_as, patch_status,
  is_ticket_id, is_settable, name_of, text_of,
}

module _ (now i : ℕ) (actor : TicketActor) where
  write_entries-activity :
      (es : List ActivityEntry) (d : Desk)
      → length (write_entries now i actor es d).activity ≡ length d.activity + length es
  unfolding write_entries
  write_entries-activity [] d = omega arith
  write_entries-activity (e ∷ es) d = omega (
    arith,
    write_entries-activity es (write_activity now i e actor d),
    length-append d.activity _,
  )

  write_entries-events :
      (es : List ActivityEntry) (d : Desk) → (write_entries now i actor es d).events ≡ d.events
  unfolding write_entries
  write_entries-events [] d = refl
  write_entries-events (e ∷ es) d = write_entries-events es (write_activity now i e actor d)

  published-activity :
      (fs : List EventField) (d : Desk) → (publish_ticket_updated now i fs d).activity ≡ d.activity
  published-activity [] d = refl
  published-activity (f ∷ fs) d = refl

  length-zero : {A : Type 0} → (xs : List A) → length xs ≡ 0 → xs ≡ []
  length-zero [] e = refl
  length-zero (x ∷ xs) e = absurd (omega (arith, e))

  published-events :
      (fs : List EventField) (d : Desk)
      → (publish_ticket_updated now i (distinct [] fs) d).events ≡ d.events
      → fs ≡ []
  unfolding distinct
  published-events [] d e = refl
  published-events (f ∷ fs) d e = absurd (omega (arith, ap length e, length-append d.events _))

  changed_fields-nil :
      (before after : TicketFields)
      → changed_fields (ticket_changes before after) ≡ []
      → ticket_changes before after ≡ []
  unfolding ticket_changes diff_to_entries
  changed_fields-nil before after e = ground arith

  record_changes-activity :
      (es : List ActivityEntry) (d : Desk)
      → (record_changes now i actor es d).activity ≡ d.activity
      → es ≡ []
  unfolding record_changes publish_ticket_changes
  record_changes-activity es d e = length-zero es (
      omega (
        arith,
        write_entries-activity es d,
        ap length (
            sym (
              published-activity (distinct [] (changed_fields es)) (write_entries now i actor es d))
            ∙ e),
      ))

  record_changes-events :
      (es : List ActivityEntry) (d : Desk)
      → (record_changes now i actor es d).events ≡ d.events
      → changed_fields es ≡ []
  unfolding record_changes publish_ticket_changes
  record_changes-events es d e =
      published-events (changed_fields es) (write_entries now i actor es d)
        (e ∙ sym (write_entries-events es d))

  record_changes-nil : (d : Desk) → record_changes now i actor [] d ≡ d
  unfolding record_changes publish_ticket_changes write_entries distinct
  record_changes-nil d = refl

  record_changes-silent_iff :
      (before after : TicketFields) (d : Desk)
      → ((record_changes now i actor (ticket_changes before after) d).activity ≡ d.activity)
        ↔ ((record_changes now i actor (ticket_changes before after) d).events ≡ d.events)
  record_changes-silent_iff before after d = (
    λ e.
        rw (record_changes-activity (ticket_changes before after) d e)
          (ap (λ (d : Desk). d.events) (record_changes-nil d)),
    λ e.
        rw
          (changed_fields-nil before after
            (record_changes-events (ticket_changes before after) d e))
          (ap (λ (d : Desk). d.activity) (record_changes-nil d)),
  )

-- The trail and the channel agree: an edit of a ticket that is there leaves the trail as it is exactly
-- when it publishes nothing, whatever others did between the read and the write.
pub update_ticket_as-silent_iff :
    (between : Desk → Desk) (now : ℕ) (caller : User) (i : ℕ) (edit : Ticket → Ticket) (d : Desk)
    (t : Ticket)
    → ticket_of i d ≡ some t
    → ((update_ticket_as between now caller i edit d).0.activity ≡ (between d).activity)
      ↔ ((update_ticket_as between now caller i edit d).0.events ≡ (between d).events)
unfolding update_ticket_as update_ticket
update_ticket_as-silent_iff between now caller i edit d t found =
    rw (found, update_ticket_as)
      (elim (Option-cases (ticket_of i (between d))) [
        | inl gone ↦ rw (gone, write_update) (λ e. refl, λ e. refl)
        | inr (u, here) ↦
            rw (here, write_update)
              (record_changes-silent_iff now i (agent_actor caller) _ _
                (update_ticket now i (λ _. true) edit (between d)))
      ])

user_named-update :
    (now i : ℕ) (edit : Ticket → Ticket) (d : Desk) (user : Option ℕ)
    → user_named user (update_ticket now i (λ _. true) edit d) ≡ user_named user d
unfolding update_ticket
user_named-update now i edit d none = refl
user_named-update now i edit d (some user) = refl

fields_of-update :
    (now i : ℕ) (edit : Ticket → Ticket) (d : Desk) (t : Ticket)
    → fields_of (update_ticket now i (λ _. true) edit d) t ≡ fields_of d t
fields_of-update now i edit d t =
    ap
      (λ u. record {
        status = status_text t.status;
        category = text_of t.category;
        assignee = name_of u;
      })
      (user_named-update now i edit d t.assigned_to_id)

-- An edit that leaves the three fields as they are.
update_ticket_as-quiet :
    (now : ℕ) (caller : User) (i : ℕ) (edit : Ticket → Ticket) (d : Desk) (t : Ticket)
    → ticket_of i d ≡ some t
    → fields_of d (touched now edit t) ≡ fields_of d t
    → update_ticket_as (λ d. d) now caller i edit d
      ≡ (update_ticket now i (λ _. true) edit d, updated (touched now edit t))
unfolding update_ticket_as
update_ticket_as-quiet now caller i edit d t found same =
    let nothing =
      ap (ticket_changes (fields_of d t))
        (fields_of-update now i edit d (touched now edit t) ∙ same)
      ∙ (ticket_changes-nil_iff (fields_of d t) (fields_of d t)).1 (refl, refl, refl) in
    rw (found, update_ticket_as)
      (rw (found, write_update)
        (ap
            (λ es. (
              record_changes now i (agent_actor caller) es (update_ticket now i (λ _. true) edit d),
              updated (touched now edit t),
            ))
            nothing
          ∙ ap (λ w. (w, updated (touched now edit t)))
              (record_changes-nil now i (agent_actor caller) _)))

-- Sending a status again changes nothing that anyone is told of: where a ticket has the status that the
-- request names and nobody interferes, the trail and the events stay as they are.
pub patch_status-again :
    (now : ℕ) (caller : User) (i : ℕ) (d : Desk) (t : Ticket)
    → ticket_of i d ≡ some t
    → ((patch_status (λ d. d) now caller i t.status d).0.activity ≡ d.activity)
      × ((patch_status (λ d. d) now caller i t.status d).0.events ≡ d.events)
unfolding patch_status update_ticket
patch_status-again now caller i d t found =
    let quiet =
      update_ticket_as-quiet now caller i (λ u. record u { status = t.status }) d t found refl in
    elim (Bool-cases (is_ticket_id i)) [
      | inr bad ↦ rw bad (refl, refl)
      | inl good ↦ elim (Bool-cases (is_settable t.status)) [
        | inr unsettable ↦ rw (good, unsettable) (refl, refl)
        | inl settable ↦ rw (good, settable, quiet) (refl, refl)
      ]
    ]

-- ===== src/Ingest/Arrival.antt =====
-- What a customer's reply does to the ticket that it lands on: the threading arm of
-- apps/api/src/ingest.ts.
use ticket_manager_system.Common.{
  ℕ, String, ◌≡◌, refl, ap, ◌∙◌, true, Option, none, some, List, [], ◌∷◌, is_some, Bool-cases, inl,
  inr, if◌then◌else◌,
}
use ticket_manager_system.Shared.{TicketStatus, ActivityAction, EventField, status_text}
use ticket_manager_system.Desk.{Ticket, User, Desk}
use ticket_manager_system.Desk.Write.{
  ticket_of, update_ticket, publish_ticket_updated, publish_ticket_message, insert_message, touched,
  write_activity, ticket_of-update_ticket,
}
use ticket_manager_system.Desk.Table.{written}
use ticket_manager_system.Automation.{assistant_user, resolve_handoff}
use ticket_manager_system.Automation.Frame.{assistant_user-same, resolve_handoff_user-same}
use ticket_manager_system.Activity.{customer_actor}
use ticket_manager_system.Ingest.{
  InboundEmail, inbound_message, was_auto_resolved, is_assigned_to, append_message, reassign,
  reopen, thread_onto,
}

published-ticket :
    (now i : ℕ) (p : Desk × List EventField)
    → ticket_of i (publish_ticket_updated now i p.1 (publish_ticket_message now i p.0))
      ≡ ticket_of i p.0
published-ticket now i (d, []) = refl
published-ticket now i (d, f ∷ fs) = refl

-- The row once the message is in: reopened where the assistant had resolved it.
abbrev appended_row : ℕ → Ticket → Ticket
appended_row now t =
    if was_auto_resolved t
    then record t {
      last_message_at = now;
      status = TicketStatus.opened;
      auto_resolved_at = none;
      updated_at = now;
    }
    else record t { last_message_at = now; updated_at = now }

append_message-ticket :
    (now i : ℕ) (email : InboundEmail) (d : Desk) (t : Ticket)
    → ticket_of i d ≡ some t
    → ticket_of i (append_message now i email d) ≡ some (appended_row now t)
unfolding append_message
append_message-ticket now i email d t found =
    let first =
      ticket_of-update_ticket now i (λ _. true) (λ t. record t { last_message_at = now })
        (λ t. refl) (insert_message (inbound_message d now i email) d)
      ∙ ap (written (λ _. true) (touched now (λ t. record t { last_message_at = now }))) found in
    ticket_of-update_ticket now i was_auto_resolved
      (λ t. record t { status = TicketStatus.opened; auto_resolved_at = none }) (λ t. refl) _
    ∙ rw first (elim (Bool-cases (was_auto_resolved t)) [ inl e ↦ rw e refl | inr e ↦ rw e refl ])

-- A ticket of the assistant's goes to whom the handoff names.
abbrev handed_row : ℕ → Option User → Option ℕ → Ticket → Ticket
handed_row now none handoff t = t
handed_row now (some assistant) handoff t =
    if is_assigned_to assistant.id t
    then record t { assigned_to_id = handoff; updated_at = now }
    else t

reassign-ticket :
    (now i : ℕ) (sender : String) (u : Option User) (d : Desk) (t : Ticket)
    → ticket_of i d ≡ some t
    → ticket_of i (reassign now i sender u d).0 ≡ some (handed_row now u (resolve_handoff d) t)
unfolding reassign
reassign-ticket now i sender none d t found = found
reassign-ticket now i sender (some u) d t found = elim (Bool-cases (is_assigned_to u.id t)) [
  | inl e ↦
      rw (found, e)
        (ticket_of-update_ticket now i (is_assigned_to u.id)
            (λ t. record t { assigned_to_id = resolve_handoff d }) (λ t. refl) d
          ∙ rw (found, e) refl)
  | inr e ↦ rw (found, e) found
]

reopen-ticket :
    (now i : ℕ) (sender : String) (d : Desk) (t : Ticket)
    → ticket_of i d ≡ some t
    → ticket_of i (reopen now i sender d).0
      ≡ some (handed_row now (assistant_user d) (resolve_handoff d) t)
unfolding reopen
reopen-ticket now i sender d t found =
    rw (← assistant_user-same d (noted d) refl, ← resolve_handoff_user-same d (noted d) refl refl)
      (reassign-ticket now i sender (assistant_user (noted d)) (noted d) t found)
  where
    noted : Desk → Desk
    noted =
        write_activity now i
          (record {
            action = ActivityAction.reopened;
            from_value = none;
            to_value = some (status_text TicketStatus.opened);
          })
          (customer_actor sender)

append_message-users :
    (now i : ℕ) (email : InboundEmail) (d : Desk)
    → ((append_message now i email d).users ≡ d.users)
      × ((append_message now i email d).settings ≡ d.settings)
unfolding append_message update_ticket
append_message-users now i email d = (refl, refl)

-- A reply to a ticket that a person resolved, or that is not resolved: the ticket keeps its status
-- and its owner, and only its times move.
pub thread_onto-kept :
    (now i : ℕ) (email : InboundEmail) (d : Desk) (t : Ticket)
    → ticket_of i d ≡ some t
    → t.auto_resolved_at ≡ none
    → ticket_of i (thread_onto now i email d)
      ≡ some (record t { last_message_at = now; updated_at = now })
unfolding thread_onto
thread_onto-kept now i email d t found by_hand =
    rw (found, by_hand)
      (published-ticket now i (append_message now i email d, [])
        ∙ append_message-ticket now i email d t found
        ∙ rw by_hand refl)

-- Who has a reopened ticket: whom the handoff names where the assistant had it, and otherwise who had
-- it, also where there is no assistant.
abbrev pub owner_after : Option User → Option ℕ → Ticket → Option ℕ
owner_after none handoff t = t.assigned_to_id
owner_after (some assistant) handoff t =
    if is_assigned_to assistant.id t then handoff else t.assigned_to_id

handed_row-owner :
    (now : ℕ) (u : Option User) (handoff : Option ℕ) (t : Ticket)
    → some (
        handed_row now u handoff (record t {
          last_message_at = now;
          status = TicketStatus.opened;
          auto_resolved_at = none;
          updated_at = now;
        }))
      ≡ some (record t {
        last_message_at = now;
        updated_at = now;
        status = TicketStatus.opened;
        auto_resolved_at = none;
        assigned_to_id = owner_after u handoff t;
      })
handed_row-owner now none handoff t = refl
handed_row-owner now (some assistant) handoff t =
    elim (Bool-cases (is_assigned_to assistant.id t)) [ inl e ↦ rw e refl | inr e ↦ rw e refl ]

-- A reply to a ticket that the assistant resolved: the ticket is open again and no longer counts as
-- resolved by machine, and where the assistant has it, it goes to whom the handoff settings name;
-- a colleague who has it keeps it, and where the desk has no assistant its owner stays.
pub thread_onto-reopened :
    (now i : ℕ) (email : InboundEmail) (d : Desk) (t : Ticket)
    → ticket_of i d ≡ some t
    → is_some t.auto_resolved_at ≡ true
    → ticket_of i (thread_onto now i email d)
      ≡ some (record t {
        last_message_at = now;
        updated_at = now;
        status = TicketStatus.opened;
        auto_resolved_at = none;
        assigned_to_id = owner_after (assistant_user d) (resolve_handoff d) t;
      })
unfolding thread_onto
thread_onto-reopened now i email d t found by_machine =
    rw (found, by_machine)
      (published-ticket now i (reopen now i email.sender_name (append_message now i email d))
        ∙ reopen-ticket now i email.sender_name (append_message now i email d) (appended_row now t)
            (append_message-ticket now i email d t found)
        ∙ rw
            (
              assistant_user-same d (append_message now i email d)
                  (append_message-users now i email d).0,
              resolve_handoff_user-same d (append_message now i email d)
                  (append_message-users now i email d).0 (append_message-users now i email d).1,
              by_machine,
            )
            (handed_row-owner now (assistant_user d) (resolve_handoff d) t))

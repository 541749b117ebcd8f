-- ===== src/Ingest/Integrity.antt =====
-- The tables after an email of apps/api/src/ingest.ts.
use text.Mathlib.TextEquality.{eq_iff}
use ticket_manager_system.Common.{
  ℕ, ◌+◌, String, ◌≡◌, ◌≢◌, refl, sym, ◌∙◌, Bool, true, Option, none, some, List, [], ◌∷◌, ◌++◌,
  arith, All, str_eq, Bool-cases, Option-cases, inl, inr, map,
}
use ticket_manager_system.Shared.{TicketStatus, EventField}
use ticket_manager_system.Text.{strip_angles}
use ticket_manager_system.Desk.{Ticket, Message, User, Desk, Config}
use ticket_manager_system.Desk.Write.{
  update_ticket, count_ticket, touched, publish_ticket_updated, publish_ticket_message,
}
use ticket_manager_system.Desk.Sound.{
  IsSound, has_ticket, has_ticket_self, update-SoundTables, message-SoundTables, ticket-SoundTables,
}
use ticket_manager_system.Ingest.{
  InboundEmail, ticket_by_message_id, first_parent, parent_candidates, find_parent_ticket_id,
  stripped, non_empty, inbound_message, was_auto_resolved, is_assigned_to, append_message, reassign,
  reopen, thread_onto, new_ticket, open_ticket, ingest,
}
use ticket_manager_system.Ingest.Threading.{
  parent_of, ingest-deduped, ingest-threaded, ingest-created,
}
use ticket_manager_system.Automation.{resolve_handoff}
use ticket_manager_system.Classify.{enqueue_classification}

-- An id that no message has.
unseen-All :
    (id : String) (ms : List Message)
    → ticket_by_message_id id ms ≡ none
    → All (λ (x : Message). x.message_id ≢ id) ms
unfolding ticket_by_message_id
unseen-All id [] e = tt
unseen-All id (m ∷ ms) e = elim (Bool-cases (str_eq m.message_id id)) [
  | inl same ↦ ground (arith, same)
  | inr other ↦
      (ground (arith, other, eq_iff m.message_id id), unseen-All id ms (ground (arith, other)))
]

-- Where a message is found, its ticket is there.
found-there :
    (ts : List Ticket) (id : String) (ms : List Message) (i : ℕ)
    → All (λ (m : Message). has_ticket ts m.ticket_id ≡ true) ms
    → ticket_by_message_id id ms ≡ some i
    → has_ticket ts i ≡ true
unfolding ticket_by_message_id
found-there ts id [] i h e = ground arith
found-there ts id (m ∷ ms) i h e = elim (Bool-cases (str_eq m.message_id id)) [
  | inl same ↦ ground (arith, same, h.0)
  | inr other ↦ found-there ts id ms i h.1 (ground (arith, other))
]

parent-there :
    (ts : List Ticket) (ids : List String) (ms : List Message) (i : ℕ)
    → All (λ (m : Message). has_ticket ts m.ticket_id ≡ true) ms
    → first_parent ids ms ≡ some i
    → has_ticket ts i ≡ true
unfolding first_parent
parent-there ts [] ms i h e = ground arith
parent-there ts (id ∷ ids) ms i h e = elim (Option-cases (ticket_by_message_id id ms)) [
  | inl gone ↦ parent-there ts ids ms i h (ground (arith, gone))
  | inr (j, found) ↦ found-there ts id ms i h (ground (arith, found))
]

update_ticket-IsSound :
    (now i : ℕ) (fits : Ticket → Bool) (f : Ticket → Ticket) (d : Desk)
    → ((t : Ticket) → (f t).id ≡ t.id)
    → IsSound d
    → IsSound (update_ticket now i fits f d)
unfolding update_ticket
update_ticket-IsSound now i fits f d same s =
    update-SoundTables i fits (touched now f) same d.tickets d.messages d.next_ticket s

reassign-IsSound :
    (now i : ℕ) (sender : String) (u : Option User) (d : Desk)
    → IsSound d
    → IsSound (reassign now i sender u d).0
unfolding reassign
reassign-IsSound now i sender none d s = s
reassign-IsSound now i sender (some u) d s =
    elim (Bool-cases (count_ticket i (is_assigned_to u.id) d)) [
      | inl e ↦ rw e (
          update_ticket-IsSound now i (is_assigned_to u.id)
            (λ t. record t { assigned_to_id = resolve_handoff d }) d (λ t. refl) s)
      | inr e ↦ rw e s
    ]

reopen-IsSound :
    (now i : ℕ) (sender : String) (d : Desk) → IsSound d → IsSound (reopen now i sender d).0
unfolding reopen
reopen-IsSound now i sender d s = reassign-IsSound now i sender _ _ s

published-IsSound :
    (now i : ℕ) (p : Desk × List EventField)
    → IsSound p.0
    → IsSound (publish_ticket_updated now i p.1 (publish_ticket_message now i p.0))
published-IsSound now i (d, []) s = s
published-IsSound now i (d, f ∷ fs) s = s

append_message-IsSound :
    (now i : ℕ) (email : InboundEmail) (d : Desk)
    → IsSound d
    → has_ticket d.tickets i ≡ true
    → ticket_by_message_id (strip_angles email.message_id) d.messages ≡ none
    → IsSound (append_message now i email d)
unfolding append_message
append_message-IsSound now i email d s there unseen =
    update_ticket-IsSound now i was_auto_resolved
      (λ t. record t { status = TicketStatus.opened; auto_resolved_at = none }) _ (λ t. refl)
      (update_ticket-IsSound now i (λ _. true) (λ t. record t { last_message_at = now }) _
        (λ t. refl)
        (message-SoundTables d.tickets d.messages d.next_ticket (inbound_message d now i email) s
          there (unseen-All (strip_angles email.message_id) d.messages unseen)))

thread_onto-IsSound :
    (now i : ℕ) (email : InboundEmail) (d : Desk)
    → IsSound d
    → has_ticket d.tickets i ≡ true
    → ticket_by_message_id (strip_angles email.message_id) d.messages ≡ none
    → IsSound (thread_onto now i email d)
unfolding thread_onto
thread_onto-IsSound now i email d s there unseen =
    let appended = append_message-IsSound now i email d s there unseen in
    elim (Bool-cases (count_ticket i was_auto_resolved d)) [
      | inl e ↦ rw e (
          published-IsSound now i (reopen now i email.sender_name (append_message now i email d))
            (reopen-IsSound now i email.sender_name (append_message now i email d) appended))
      | inr e ↦ rw e (published-IsSound now i (append_message now i email d, []) appended)
    ]

open_ticket-IsSound :
    (cfg : Config) (now : ℕ) (email : InboundEmail) (d : Desk)
    → IsSound d
    → ticket_by_message_id (strip_angles email.message_id) d.messages ≡ none
    → IsSound (open_ticket cfg now email d)
unfolding open_ticket enqueue_classification
open_ticket-IsSound cfg now email d s unseen =
    let opened =
      message-SoundTables (d.tickets ++ new_ticket d now email ∷ []) d.messages (d.next_ticket + 1)
        (inbound_message d now d.next_ticket email)
        (ticket-SoundTables d.tickets d.messages d.next_ticket (new_ticket d now email) s refl)
        (has_ticket_self d.tickets (new_ticket d now email))
        (unseen-All (strip_angles email.message_id) d.messages unseen) in
    elim (Bool-cases cfg.ai_configured) [ inl on ↦ rw on opened | inr off ↦ rw off opened ]

parent_of-first :
    (email : InboundEmail) (d : Desk)
    → parent_of email d
      ≡ first_parent
          (parent_candidates
            (stripped email.in_reply_to)
            (non_empty (map strip_angles email.references)))
          d.messages
unfolding find_parent_ticket_id
parent_of-first email d = refl

-- An email keeps the tables sound: where tickets are numbered below the next number, every message is
-- on a ticket that is there and Message-IDs are unique, all of that holds after any email, whether it
-- was seen before, lands on a thread or opens a ticket.
pub ingest-IsSound :
    (cfg : Config) (now : ℕ) (email : InboundEmail) (d : Desk)
    → IsSound d
    → IsSound (ingest cfg now email d).0
ingest-IsSound cfg now email d s =
    elim (Option-cases (ticket_by_message_id (strip_angles email.message_id) d.messages)) [
      | inr (i, seen) ↦ rw (ingest-deduped cfg now email d i seen) s
      | inl unseen ↦ elim (Option-cases (parent_of email d)) [
        | inr (i, found) ↦ rw (ingest-threaded cfg now email d i unseen found) (
            thread_onto-IsSound now i email d s
              (parent-there d.tickets _ d.messages i s.threaded
                (sym (parent_of-first email d) ∙ found))
              unseen)
        | inl gone ↦
            rw (ingest-created cfg now email d unseen gone)
              (open_ticket-IsSound cfg now email d s unseen)
      ]
    ]

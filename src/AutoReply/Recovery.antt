-- ===== src/AutoReply/Recovery.antt =====
-- What the recovery sweep of apps/api/src/jobs/auto-reply-ticket.ts repairs.
use mathlib.Core.List.{Memᴰ}
use ticket_manager_system.Common.{
  ℕ, ◌+◌, ◌<◌, ◌≤◌, ◌≡◌, refl, sym, ap, subst, ◌∙◌, ◌==◌, Bool, false, Option, none, some, List, [],
  ◌∷◌, arith, is_none, ◌⊎◌, Bool-cases, inl, inr, filter, length, All,
}
use ticket_manager_system.Shared.{TicketStatus}
use ticket_manager_system.Desk.{Ticket, Desk, Config}
use ticket_manager_system.Desk.Table.{read_of, find-update_field}
use ticket_manager_system.Desk.Age.{
  by_created, by_created-OldestFirst, Mem-by_created, Mem-filter, Mem-take,
}
use ticket_manager_system.Desk.Write.{update_ticket, count_ticket, touched, ticket_of-update_other}
use ticket_manager_system.AutoReply.{
  to_new, is_processing, release, release_row, enqueue_auto_reply, auto_reply_enabled,
}
use ticket_manager_system.AutoReply.Worker.{is_stuck, stuck, recover_each, recover_stuck}
use ticket_manager_system.AutoReply.Safety.{status_in, status_at, release-status}
use ticket_manager_system.AutoReply.Claim.{IsFree}

status_in-read_of : (o : Option Ticket) → status_in o ≡ read_of (λ (t : Ticket). t.status) o
status_in-read_of none = refl
status_in-read_of (some t) = refl

-- A write that keeps the status, of any ticket, leaves every ticket's status.
update_ticket-status :
    (now i j : ℕ) (fits : Ticket → Bool) (f : Ticket → Ticket) (d : Desk)
    → ((t : Ticket) → (f t).id ≡ t.id)
    → ((t : Ticket) → (f t).status ≡ t.status)
    → status_at j (update_ticket now i fits f d) ≡ status_at j d
unfolding update_ticket
update_ticket-status now i j fits f d same kept =
    status_in-read_of _
    ∙ find-update_field (λ (t : Ticket). t.id) fits (touched now f) (λ (t : Ticket). t.status) same
        kept i j d.tickets
    ∙ sym (status_in-read_of _)

enqueue_auto_reply-status :
    (cfg : Config) (now i j : ℕ) (d : Desk)
    → status_at j (enqueue_auto_reply cfg now i d) ≡ status_at j d
unfolding enqueue_auto_reply
enqueue_auto_reply-status cfg now i j d = elim (Bool-cases (auto_reply_enabled cfg d)) [
  | inl on ↦ rw on (
      update_ticket-status now i j (λ t. is_none t.auto_reply_offered_at)
        (λ t. record t { auto_reply_offered_at = some now }) d (λ t. refl) (λ t. refl))
  | inr off ↦ rw off refl
]

-- The sweep releases to `New`, and another ticket's status is what it was.
release-other :
    (now i j : ℕ) (d : Desk)
    → (i == j) ≡ false
    → status_at j (release now i to_new none d) ≡ status_at j d
unfolding release
release-other now i j d apart = elim (Bool-cases (count_ticket i is_processing d)) [
  | inl held ↦ rw held (
      ap status_in (
        ticket_of-update_other now i is_processing (release_row now TicketStatus.new none)
          (λ t. refl) d j apart))
  | inr free ↦ rw free refl
]

release-keeps : (now i j : ℕ) (d : Desk) → IsFree j d → IsFree j (release now i to_new none d)
release-keeps now i j d free = elim (Bool-cases (i == j)) [
  | inl same ↦
      let e : i ≡ j = ground arith in
      subst (λ k. IsFree k (release now i to_new none d)) e (release-status now i to_new none d)
  | inr apart ↦ λ e. free (sym (release-other now i j d apart) ∙ e)
]

recover_each-keeps :
    (cfg : Config) (now j : ℕ) (ts : List Ticket) (d : Desk)
    → IsFree j d
    → IsFree j (recover_each cfg now ts d)
unfolding recover_each
recover_each-keeps cfg now j [] d free = free
recover_each-keeps cfg now j (t ∷ ts) d free =
    recover_each-keeps cfg now j ts _
      (λ e. release-keeps now t.id j d free (sym (enqueue_auto_reply-status cfg now t.id j _) ∙ e))

recover_each-IsFree :
    (cfg : Config) (now : ℕ) (t : Ticket) (ts : List Ticket) (d : Desk)
    → Memᴰ t ts
    → IsFree t.id (recover_each cfg now ts d)
unfolding recover_each
recover_each-IsFree cfg now t [] d m = elim m [ ]
recover_each-IsFree cfg now t (u ∷ ts) d (Memᴰ.head e) =
    subst (λ (u : Ticket). IsFree t.id (recover_each cfg now (u ∷ ts) d)) e
      (recover_each-keeps cfg now t.id ts _ (λ e.
        release-status now t.id to_new none d
          (sym (enqueue_auto_reply-status cfg now t.id t.id _) ∙ e)))
recover_each-IsFree cfg now t (u ∷ ts) d (Memᴰ.tail m) = recover_each-IsFree cfg now t ts _ m

-- A worker that died with a claim cannot strand its ticket: one that has been in `Processing` for more
-- than five minutes, and is at most a day old, is out of `Processing` after a sweep, unless the sweep's
-- batch of fifty is full of tickets that are at least as old.
pub recover_stuck-IsFree :
    (cfg : Config) (now : ℕ) (d : Desk) (t : Ticket)
    → Memᴰ t d.tickets
    → t.status ≡ TicketStatus.processing
    → t.updated_at + 300000 < now
    → now ≤ t.created_at + 86400000
    → IsFree t.id (recover_stuck cfg now d)
      ⊎ ((length (stuck now d) ≡ 50) × All (λ u. u.created_at ≤ t.created_at) (stuck now d))
unfolding recover_stuck stuck
recover_stuck-IsFree cfg now d t here claimed late recent =
    elim (Mem-take 50 t (by_created (filter (is_stuck now) d.tickets))
      (by_created-OldestFirst (filter (is_stuck now) d.tickets))
      (Mem-by_created t _
        (Mem-filter (is_stuck now) t d.tickets here (ground (arith, claimed, late, recent))))) [
          | inl taken ↦ inl (recover_each-IsFree cfg now t _ d taken)
          | inr full ↦ inr full
        ]

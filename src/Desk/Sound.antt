-- ===== src/Desk/Sound.antt =====
-- The integrity of the desk's tables: the keys and the unique column that apps/api/prisma/schema.prisma
-- declares of tickets and messages.

use ticket_manager_system.Common.{
  ℕ, ◌+◌, ◌<◌, ◌≡◌, ◌≢◌, refl, sym, ap, subst, ◌∙◌, Bool, true, Option, none, some, List, [], ◌∷◌,
  ◌++◌, arith, All, is_some, ◌==◌, Bool-cases, Option-cases, inl, inr, ==_refl,
}
use ticket_manager_system.Desk.{Ticket, Message, Desk}
use ticket_manager_system.Desk.Table.{find, update, read_of, find-update_field, find-append}

-- No two messages have one Message-ID.
abbrev pub Unique : List Message → Type 0
Unique [] = Unit
Unique (m ∷ ms) = All (λ (x : Message). x.message_id ≢ m.message_id) ms × Unique ms

abbrev pub has_ticket : List Ticket → ℕ → Bool
has_ticket ts i = is_some (find (λ (t : Ticket). t.id) i ts)

-- Tickets are numbered below the next number, every message is on a ticket that is there, and
-- Message-IDs are unique.
pub record SoundTables (ts : List Ticket) (ms : List Message) (next : ℕ) : Type 0 where
  pub numbered : All (λ (t : Ticket). t.id < next) ts
  pub threaded : All (λ (m : Message). has_ticket ts m.ticket_id ≡ true) ms
  pub unique : Unique ms

abbrev pub IsSound : Desk → Type 0
IsSound d = SoundTables d.tickets d.messages d.next_ticket

All-append {ℓ κ} :
    {A : Type ℓ} → (P : A → Type κ) (xs : List A) (y : A) → All P xs → P y → All P (xs ++ y ∷ [])
All-append P [] y ps p = (p, tt)
All-append P (x ∷ xs) y ps p = (ps.0, All-append P xs y ps.1 p)

All-mono {ℓ κ} :
    {A : Type ℓ} → (P Q : A → Type κ) → ((x : A) → P x → Q x) → (xs : List A) → All P xs → All Q xs
All-mono P Q f [] ps = tt
All-mono P Q f (x ∷ xs) ps = (f x ps.0, All-mono P Q f xs ps.1)

Unique-append :
    (ms : List Message) (m : Message)
    → Unique ms
    → All (λ (x : Message). x.message_id ≢ m.message_id) ms
    → Unique (ms ++ m ∷ [])
Unique-append [] m u new = (tt, tt)
Unique-append (x ∷ ms) m u new = (
  All-append (λ (y : Message). y.message_id ≢ x.message_id) ms m u.0 (λ e. new.0 (sym e)),
  Unique-append ms m u.1 new.1,
)

is_some-read_of {ℓ κ} :
    {A : Type ℓ} → {B : Type κ} → (g : A → B) (o : Option A) → is_some (read_of g o) ≡ is_some o
is_some-read_of g none = refl
is_some-read_of g (some a) = refl

module _ (i : ℕ) (fits : Ticket → Bool) (f : Ticket → Ticket)
    (same : (t : Ticket) → (f t).id ≡ t.id) where
  has_ticket-update :
      (ts : List Ticket) (j : ℕ)
      → has_ticket (update (λ (t : Ticket). t.id) i fits f ts) j ≡ has_ticket ts j
  has_ticket-update ts j =
      sym (is_some-read_of (λ (t : Ticket). t.id) _)
      ∙ ap is_some
          (find-update_field (λ (t : Ticket). t.id) fits f (λ (t : Ticket). t.id) same same i j ts)
      ∙ is_some-read_of (λ (t : Ticket). t.id) _

  numbered-update :
      (n : ℕ) (ts : List Ticket)
      → All (λ (t : Ticket). t.id < n) ts
      → All (λ (t : Ticket). t.id < n) (update (λ (t : Ticket). t.id) i fits f ts)
  unfolding update
  numbered-update n [] h = tt
  numbered-update n (t ∷ ts) h = elim (Bool-cases (t.id == i)) [
    | inr e ↦ rw e (h.0, numbered-update n ts h.1)
    | inl e ↦ elim (Bool-cases (fits t)) [
      | inl fit ↦ rw (e, fit) (subst (λ k. k < n) (sym (same t)) h.0, h.1)
      | inr misfit ↦ rw (e, misfit) (h.0, h.1)
    ]
  ]

  -- A write of a ticket that keeps its id.
  pub update-SoundTables :
      (ts : List Ticket) (ms : List Message) (n : ℕ)
      → SoundTables ts ms n
      → SoundTables (update (λ (t : Ticket). t.id) i fits f ts) ms n
  update-SoundTables ts ms n s = record {
    numbered = numbered-update n ts s.numbered;
    threaded = All-mono _ _ (λ m h. has_ticket-update ts m.ticket_id ∙ h) ms s.threaded;
    unique = s.unique;
  }

-- A message under a new id, on a ticket that is there.
pub message-SoundTables :
    (ts : List Ticket) (ms : List Message) (n : ℕ) (m : Message)
    → SoundTables ts ms n
    → has_ticket ts m.ticket_id ≡ true
    → All (λ (x : Message). x.message_id ≢ m.message_id) ms
    → SoundTables ts (ms ++ m ∷ []) n
message-SoundTables ts ms n m s there new = record {
  numbered = s.numbered;
  threaded = All-append (λ (m : Message). has_ticket ts m.ticket_id ≡ true) ms m s.threaded there;
  unique = Unique-append ms m s.unique new;
}

has_ticket-append :
    (ts : List Ticket) (t : Ticket) (j : ℕ)
    → has_ticket ts j ≡ true
    → has_ticket (ts ++ t ∷ []) j ≡ true
has_ticket-append ts t j h = elim (Option-cases (find (λ (t : Ticket). t.id) j ts)) [
  | inl gone ↦ ground (arith, gone)
  | inr (x, found) ↦ rw (find-append (λ (t : Ticket). t.id) j ts t) (rw found refl)
]

pub has_ticket_self : (ts : List Ticket) (t : Ticket) → has_ticket (ts ++ t ∷ []) t.id ≡ true
has_ticket_self ts t = elim (Option-cases (find (λ (t : Ticket). t.id) t.id ts)) [
  | inl gone ↦ rw (find-append (λ (t : Ticket). t.id) t.id ts t) (rw (gone, ==_refl t.id) refl)
  | inr (x, found) ↦ rw (find-append (λ (t : Ticket). t.id) t.id ts t) (rw found refl)
]

-- A ticket under the next number.
pub ticket-SoundTables :
    (ts : List Ticket) (ms : List Message) (n : ℕ) (t : Ticket)
    → SoundTables ts ms n
    → t.id ≡ n
    → SoundTables (ts ++ t ∷ []) ms (n + 1)
ticket-SoundTables ts ms n t s e = record {
  numbered =
      All-append (λ (t : Ticket). t.id < n + 1) ts t
        (All-mono (λ (t : Ticket). t.id < n) (λ (t : Ticket). t.id < n + 1)
          (λ t h. omega (arith, h)) ts s.numbered)
        (omega (arith, e));
  threaded = All-mono _ _ (λ m h. has_ticket-append ts t m.ticket_id h) ms s.threaded;
  unique = s.unique;
}

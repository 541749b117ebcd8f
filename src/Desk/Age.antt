-- ===== src/Desk/Age.antt =====
-- Tickets in the order of their creation, which the sweeps of apps/api/src/jobs read them in, and
-- the batch that a sweep takes of them.
use mathlib.Core.List.{Memᴰ}
use ticket_manager_system.Common.{
  ℕ, zero, suc, ◌≤◌, ◌≡◌, refl, sym, ap, subst, ◌∙◌, Bool, true, List, [], ◌∷◌, leb, if◌then◌else◌,
  filter, take, length, All, arith, Bool-cases, inl, inr, ◌⊎◌, not_leb→lt,
}
use ticket_manager_system.Desk.{Ticket}

-- `orderBy: { createdAt: "asc" }`
unfoldable pub insert_by_created : Ticket → List Ticket → List Ticket
insert_by_created t [] = t ∷ []
insert_by_created t (x ∷ xs) =
    if leb t.created_at x.created_at then t ∷ x ∷ xs else x ∷ insert_by_created t xs

unfoldable pub by_created : List Ticket → List Ticket
unfolding insert_by_created
by_created [] = []
by_created (t ∷ ts) = insert_by_created t (by_created ts)

-- No ticket after one is older.
abbrev pub NotOlder : Ticket → Ticket → Type 0
NotOlder t u = t.created_at ≤ u.created_at

abbrev pub OldestFirst : List Ticket → Type 0
OldestFirst [] = Unit
OldestFirst (t ∷ ts) = All (NotOlder t) ts × OldestFirst ts

All-insert {κ} :
    (P : Ticket → Type κ) (t : Ticket) (ts : List Ticket)
    → P t
    → All P ts
    → All P (insert_by_created t ts)
unfolding insert_by_created
All-insert P t [] p ps = (p, ps)
All-insert P t (x ∷ xs) p ps = elim (Bool-cases (leb t.created_at x.created_at)) [
  | inl e ↦ rw e (p, ps)
  | inr e ↦ rw e (ps.0, All-insert P t xs p ps.1)
]

pub All-by_created {κ} : (P : Ticket → Type κ) (ts : List Ticket) → All P ts → All P (by_created ts)
unfolding by_created
All-by_created P [] ps = ps
All-by_created P (t ∷ ts) ps = All-insert P t (by_created ts) ps.0 (All-by_created P ts ps.1)

All-weaken :
    (t u : Ticket)
    → t.created_at ≤ u.created_at
    → (ts : List Ticket) → All (NotOlder u) ts
    → All (NotOlder t) ts
All-weaken t u le [] ps = ps
All-weaken t u le (x ∷ xs) ps = (omega (arith, le, ps.0), All-weaken t u le xs ps.1)

insert-OldestFirst :
    (t : Ticket) (ts : List Ticket) → OldestFirst ts → OldestFirst (insert_by_created t ts)
unfolding insert_by_created
insert-OldestFirst t [] s = (s, s)
insert-OldestFirst t (x ∷ xs) s = elim (Bool-cases (leb t.created_at x.created_at)) [
  | inl e ↦ rw e ((ground arith, All-weaken t x (ground arith) xs s.0), s)
  | inr e ↦ rw e (
    All-insert (NotOlder x) t xs (ground (arith, not_leb→lt t.created_at x.created_at e)) s.0,
    insert-OldestFirst t xs s.1,
  )
]

pub by_created-OldestFirst : (ts : List Ticket) → OldestFirst (by_created ts)
unfolding by_created
by_created-OldestFirst [] = tt
by_created-OldestFirst (t ∷ ts) = insert-OldestFirst t (by_created ts) (by_created-OldestFirst ts)

insert-has : (t u : Ticket) (ts : List Ticket) → t ≡ u → Memᴰ t (insert_by_created u ts)
unfolding insert_by_created
insert-has t u [] e = Memᴰ.head e
insert-has t u (x ∷ xs) e = elim (Bool-cases (leb u.created_at x.created_at)) [
  | inl le ↦ rw le (Memᴰ.head e)
  | inr lt ↦ rw lt (Memᴰ.tail (insert-has t u xs e))
]

insert-keeps : (t u : Ticket) (ts : List Ticket) → Memᴰ t ts → Memᴰ t (insert_by_created u ts)
unfolding insert_by_created
insert-keeps t u [] m = elim m [ ]
insert-keeps t u (x ∷ xs) (Memᴰ.head e) = elim (Bool-cases (leb u.created_at x.created_at)) [
  | inl le ↦ rw le (Memᴰ.tail (Memᴰ.head e))
  | inr lt ↦ rw lt (Memᴰ.head e)
]
insert-keeps t u (x ∷ xs) (Memᴰ.tail m) = elim (Bool-cases (leb u.created_at x.created_at)) [
  | inl le ↦ rw le (Memᴰ.tail (Memᴰ.tail m))
  | inr lt ↦ rw lt (Memᴰ.tail (insert-keeps t u xs m))
]

pub Mem-by_created : (t : Ticket) (ts : List Ticket) → Memᴰ t ts → Memᴰ t (by_created ts)
unfolding by_created
Mem-by_created t [] m = elim m [ ]
Mem-by_created t (u ∷ ts) (Memᴰ.head e) = insert-has t u (by_created ts) e
Mem-by_created t (u ∷ ts) (Memᴰ.tail m) = insert-keeps t u (by_created ts) (Mem-by_created t ts m)

pub Mem-filter :
    (p : Ticket → Bool) (t : Ticket) (ts : List Ticket)
    → Memᴰ t ts
    → p t ≡ true
    → Memᴰ t (filter p ts)
Mem-filter p t [] m h = elim m [ ]
Mem-filter p t (u ∷ ts) (Memᴰ.head e) h = rw (ap p (sym e) ∙ h) (Memᴰ.head e)
Mem-filter p t (u ∷ ts) (Memᴰ.tail m) h = elim (Bool-cases (p u)) [
  | inl e ↦ rw e (Memᴰ.tail (Mem-filter p t ts m h))
  | inr e ↦ rw e (Mem-filter p t ts m h)
]

pub All-filter_yes : (p : Ticket → Bool) (ts : List Ticket) → All (λ t. p t ≡ true) (filter p ts)
All-filter_yes p [] = tt
All-filter_yes p (t ∷ ts) = elim (Bool-cases (p t)) [
  | inl e ↦ rw e (e, All-filter_yes p ts)
  | inr e ↦ rw e (All-filter_yes p ts)
]

pub All-take {κ} : (P : Ticket → Type κ) (n : ℕ) (ts : List Ticket) → All P ts → All P (take n ts)
All-take P zero ts ps = tt
All-take P (suc n) [] ps = tt
All-take P (suc n) (t ∷ ts) ps = (ps.0, All-take P n ts ps.1)

All-Mem :
    (u t : Ticket) (ts : List Ticket)
    → All (NotOlder u) ts
    → Memᴰ t ts
    → u.created_at ≤ t.created_at
All-Mem u t [] ps m = elim m [ ]
All-Mem u t (x ∷ xs) ps (Memᴰ.head e) =
    subst (λ (x : Ticket). u.created_at ≤ x.created_at) (sym e) ps.0
All-Mem u t (x ∷ xs) ps (Memᴰ.tail m) = All-Mem u t xs ps.1 m

-- A ticket is in the batch, or the batch is full of tickets that are no younger.
pub Mem-take :
    (n : ℕ) (t : Ticket) (ts : List Ticket)
    → OldestFirst ts
    → Memᴰ t ts
    → Memᴰ t (take n ts) ⊎ ((length (take n ts) ≡ n) × All (λ u. NotOlder u t) (take n ts))
Mem-take zero t ts s m = inr (refl, tt)
Mem-take (suc n) t [] s m = elim m [ ]
Mem-take (suc n) t (u ∷ ts) s (Memᴰ.head e) = inl (Memᴰ.head e)
Mem-take (suc n) t (u ∷ ts) s (Memᴰ.tail m) = elim (Mem-take n t ts s.1 m) [
  | inl taken ↦ inl (Memᴰ.tail taken)
  | inr (full, older) ↦ inr (ap suc full, (All-Mem u t ts s.0 m, older))
]

-- ===== src/Users/Removal.antt =====
-- What becomes of an account that is deleted: `DELETE /:id` of apps/api/src/routes/users.ts.
use mathlib.Core.List.{Memᴰ}
use ticket_manager_system.Common.{
  ℕ, ◌≡◌, refl, ap, ◌∙◌, true, false, not, some, List, [], ◌∷◌, ◌++◌, map, ◌==◌, filter, All,
  Bool-cases, Option-cases, inl, inr,
}
use ticket_manager_system.Desk.{Ticket, User}
use ticket_manager_system.Desk.Age.{Mem-filter}
use ticket_manager_system.Desk.Table.{find-update_self}
use ticket_manager_system.Automation.{is_admin, user_of}
use ticket_manager_system.Users.{Roster, done, write_admin_activity}
use ticket_manager_system.Users.Routes.{
  deleted_user, is_held_by, orphaned_tickets, unassign, unassigned_row, remove_user, delete_user,
}

-- The account is deleted, no ticket is on it and no session of it is left, and of every ticket that
-- was on it when the handler read them the history says who took it away.
pub record IsRemoved (now i : ℕ) (session target : User) (read after : Roster) : Type 0 where
  pub gone : (u : User) × ((user_of i after.desk ≡ some u) × (u.deleted_at ≡ some now))
  pub unassigned : All (λ (t : Ticket). is_held_by i t ≡ false) after.desk.tickets
  pub signed_out : All (λ s. (s == i) ≡ false) after.sessions
  pub told :
      (t : Ticket)
      → Memᴰ t read.desk.tickets
      → is_held_by i t ≡ true
      → Memᴰ (unassigned_row now session target t) after.desk.activity

unassign-free : (now i : ℕ) (t : Ticket) → is_held_by i (unassign now i t) ≡ false
unassign-free now i t = elim (Bool-cases (is_held_by i t)) [ inl e ↦ rw e refl | inr e ↦ rw e e ]

All-unassign :
    (now i : ℕ) (ts : List Ticket)
    → All (λ (t : Ticket). is_held_by i t ≡ false) (map (unassign now i) ts)
All-unassign now i [] = tt
All-unassign now i (t ∷ ts) = (unassign-free now i t, All-unassign now i ts)

All-signed_out : (i : ℕ) (ss : List ℕ) → All (λ s. (s == i) ≡ false) (filter (λ s. not (s == i)) ss)
All-signed_out i [] = tt
All-signed_out i (s ∷ ss) = elim (Bool-cases (s == i)) [
  | inl e ↦ rw e (All-signed_out i ss)
  | inr e ↦ rw e (e, All-signed_out i ss)
]

Mem-map {ℓ κ} :
    {A : Type ℓ}
    → {B : Type κ} → (f : A → B) (x : A) (xs : List A) → Memᴰ x xs
    → Memᴰ (f x) (map f xs)
Mem-map f x [] m = elim m [ ]
Mem-map f x (y ∷ ys) (Memᴰ.head e) = Memᴰ.head (ap f e)
Mem-map f x (y ∷ ys) (Memᴰ.tail m) = Memᴰ.tail (Mem-map f x ys m)

Mem-behind {ℓ} : {A : Type ℓ} → (x : A) (xs ys : List A) → Memᴰ x ys → Memᴰ x (xs ++ ys)
Mem-behind x [] ys m = m
Mem-behind x (y ∷ xs) ys m = Memᴰ.tail (Mem-behind x xs ys m)

module _ (reading writing : Roster → Roster) (now : ℕ) (session : User) (i : ℕ) where
  remove_user-IsRemoved :
      (target : User) (read r : Roster)
      → (remove_user reading writing now session i target (orphaned_tickets i read) r).1 ≡ done
      → IsRemoved now i session target read
          (remove_user reading writing now session i target (orphaned_tickets i read) r).0
  unfolding remove_user write_admin_activity
  remove_user-IsRemoved target read r e = elim (Option-cases (user_of i r.desk)) [
    | inl gone ↦ absurd (cc (rw (gone, remove_user) at e))
    | inr (u, found) ↦
        rw (found, remove_user)
          (record {
            gone = (
              deleted_user now u,
              (
                find-update_self (λ (u : User). u.id) (λ _. true) (deleted_user now) (λ u. refl) i
                      r.desk.users
                    ∙ rw found refl,
                refl,
              ),
            );
            unassigned = All-unassign now i r.desk.tickets;
            signed_out = All-signed_out i r.sessions;
            told = λ t m mine. Mem-behind _ r.desk.activity _ (
                Mem-map (unassigned_row now session target) t _
                  (Mem-filter (is_held_by i) t read.desk.tickets m mine));
          })
  ]

  -- When the deletion of an account is answered with success, then, whatever others do meanwhile,
  -- the account is deleted, no ticket is assigned to it, no session of it is left, and every ticket
  -- that was on it when the handler read the tickets has an entry of this admin in its history.
  pub delete_user-IsRemoved :
      (target : User) (r : Roster)
      → user_of i r.desk ≡ some target
      → (delete_user reading writing now session i r).1 ≡ done
      → IsRemoved now i session target (reading r) (delete_user reading writing now session i r).0
  unfolding delete_user
  delete_user-IsRemoved target r found e = elim (Bool-cases (is_admin session.role)) [
    | inr shut ↦ absurd (cc (rw (shut, delete_user) at e))
    | inl admits ↦ elim (Option-cases target.deleted_at) [
      | inr (at, gone) ↦ absurd (cc (rw (admits, found, gone, delete_user) at e))
      | inl live ↦ elim (Bool-cases (is_admin target.role)) [
        | inl high ↦ absurd (cc (rw (admits, found, live, high, delete_user) at e))
        | inr low ↦ elim (Bool-cases target.automated) [
          | inl auto ↦ absurd (cc (rw (admits, found, live, low, auto, delete_user) at e))
          | inr own ↦
              simp (admits, found, live, low, own, delete_user)
                (remove_user-IsRemoved target (reading r) (writing (reading r))
                  (rw (admits, found, live, low, own, delete_user) at e))
        ]
      ]
    ]
  ]

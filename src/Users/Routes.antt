-- ===== src/Users/Routes.antt =====
-- The handlers of apps/api/src/routes/users.ts that change an account.
use ticket_manager_system.Common.{
  ℕ, String, Bool, true, not, ◌&&◌, none, some, List, [], ◌∷◌, ◌++◌, map, ◌==◌, if◌then◌else◌,
  filter,
}
use ticket_manager_system.Shared.{ActivityAction, option_eq}
use ticket_manager_system.Desk.{Ticket, User, Activity}
use ticket_manager_system.Desk.Table.{update}
use ticket_manager_system.Desk.Write.{touched}
use ticket_manager_system.Automation.{is_admin, user_of}
use ticket_manager_system.Activity.{agent_actor}
use ticket_manager_system.Users.{
  Roster, UserBody, SignIn, Response, done, created, updated, forbidden, not_found, failed,
  AdminAction, admin_actor, write_admin_activity, same_role, user_edit_changes, reset_unawaited,
  created_entries, resent_entries,
}

module _ (library : SignIn) (session : User) where
  -- `POST /`
  unfoldable pub create_account : (name email : String) → Roster → Roster × Response
  unfolding write_admin_activity
  create_account name email r =
      if not (is_admin session.role)
      then (r, forbidden)
      else elim (library.create_user name email r.desk) [
        | none ↦ (r, failed)
        | some (desk, u) ↦ (
          write_admin_activity (admin_actor session) u created_entries
              (record r { desk = reset_unawaited library email desk }),
          created u,
        )
      ]

  -- `POST /:id/invite` of an account that can be invited.
  unfoldable pub resend_invite : User → Roster → Roster × Response
  unfolding write_admin_activity
  resend_invite target r = elim (library.request_password_reset target.email r.desk) [
    | none ↦ (r, failed)
    | some desk ↦ (
      write_admin_activity (admin_actor session) target resent_entries (record r { desk = desk }),
      done,
    )
  ]

  -- `POST /:id/invite`
  unfoldable pub invite_user : ℕ → Roster → Roster × Response
  unfolding resend_invite
  invite_user i r =
      if not (is_admin session.role) then (r, forbidden) else elim (user_of i r.desk) [
        | none ↦ (r, not_found)
        | some target ↦
            if target.automated
            then (r, forbidden)
            else elim target.deleted_at [ some at ↦ (r, not_found) | none ↦ resend_invite target r ]
      ]

module _ (library : SignIn) (between : Roster → Roster) (session : User) where
  -- The library's write, the trail and the second read.
  unfoldable pub write_user : ℕ → UserBody → User → Roster → Roster × Response
  unfolding write_admin_activity
  write_user i b before r = elim (library.admin_update_user i b r.desk) [
    | none ↦ (r, failed)
    | some desk ↦
        let r' =
          write_admin_activity (admin_actor session) before (user_edit_changes before b)
            (record r { desk = desk }) in
        elim (user_of i desk) [ none ↦ (r', failed) | some u ↦ (r', updated u) ]
  ]

  -- `PATCH /:id`
  unfoldable pub patch_user : ℕ → UserBody → Roster → Roster × Response
  unfolding write_user
  patch_user i b r =
      if not (is_admin session.role) then (r, forbidden) else elim (user_of i r.desk) [
        | none ↦ (r, failed)
        | some before ↦
            if before.automated
            then (r, forbidden)
            else if i == session.id && not (same_role b.role before.role)
            then (r, forbidden)
            else write_user i b before (between r)
      ]

-- `prisma.user.update` of a soft delete.
abbrev pub deleted_user : ℕ → User → User
deleted_user now u = record u { deleted_at = some now }

abbrev pub is_held_by : ℕ → Ticket → Bool
is_held_by i t = option_eq (λ a b. a == b) t.assigned_to_id (some i)

abbrev pub orphaned_tickets : ℕ → Roster → List Ticket
orphaned_tickets i r = filter (is_held_by i) r.desk.tickets

-- One row of `ticket.updateMany`.
abbrev pub unassign : ℕ → ℕ → Ticket → Ticket
unassign now i t =
    if is_held_by i t then touched now (λ t. record t { assigned_to_id = none }) t else t

-- What a ticket's history says of it.
abbrev pub unassigned_row : ℕ → User → User → Ticket → Activity
unassigned_row now session target t = record {
  ticket_id = t.id;
  entry = record {
    action = ActivityAction.assignee_changed;
    from_value = some target.name;
    to_value = none;
  };
  actor = agent_actor session;
  created_at = now;
}

module _ (reading writing : Roster → Roster) (now : ℕ) (session : User) where
  -- The transaction, whose first statement fails where the account has gone.
  unfoldable pub remove_user : ℕ → User → List Ticket → Roster → Roster × Response
  unfolding write_admin_activity
  remove_user i target orphaned r = elim (user_of i r.desk) [
    | none ↦ (r, failed)
    | some u ↦ (
      write_admin_activity (admin_actor session) target
          (record { action = AdminAction.user_deleted; from_value = none; to_value = none } ∷ [])
          (record r {
            desk = record r.desk {
              users = update (λ (u : User). u.id) i (λ _. true) (deleted_user now) r.desk.users;
              tickets = map (unassign now i) r.desk.tickets;
              activity = r.desk.activity ++ map (unassigned_row now session target) orphaned;
            };
            sessions = filter (λ s. not (s == i)) r.sessions;
            banned = (i, "Deleted by admin") ∷ r.banned;
          }),
      done,
    )
  ]

  -- `DELETE /:id`
  unfoldable pub delete_user : ℕ → Roster → Roster × Response
  unfolding remove_user
  delete_user i r =
      if not (is_admin session.role) then (r, forbidden) else elim (user_of i r.desk) [
        | none ↦ (r, not_found)
        | some target ↦ elim target.deleted_at [
          | some at ↦ (r, not_found)
          | none ↦
              if is_admin target.role
              then (r, forbidden)
              else if target.automated
              then (r, forbidden)
              else let read = reading r in
                remove_user i target (orphaned_tickets i read) (writing read)
        ]
      ]

-- ===== src/Users.antt =====
-- The roster of the desk: what an admin changes of the accounts, apps/api/src/routes/users.ts with
-- apps/api/src/admin-activity.ts. `session` is the user that the session's cookie names, as it was
-- when the session was read, and a gap is what others do between two statements of a handler.
-- The sign-in library's calls are given, each `none` where it throws.
pub mod Routes
pub mod Removal
pub mod Admins
use Prim.Native.String
use ticket_manager_system.Common.{
  ℕ, String, Bool, true, false, not, ◌&&◌, Option, none, some, List, [], ◌∷◌, ◌++◌, map, ◌==◌,
  str_eq, if◌then◌else◌, filter,
}
use ticket_manager_system.Shared.{ActivityAction, Role, option_eq}
use ticket_manager_system.Desk.{Ticket, User, Activity, Desk}
use ticket_manager_system.Desk.Table.{update}
use ticket_manager_system.Desk.Write.{touched}
use ticket_manager_system.Automation.{is_admin, user_of}
use ticket_manager_system.Activity.{agent_actor}

pub data AdminAction : Type 0 where
  user_created user_invited user_edited role_changed user_deleted : AdminAction

pub record AdminActivityEntry : Type 0 where
  pub action : AdminAction
  pub from_value : Option String
  pub to_value : Option String

pub record AdminActor : Type 0 where
  pub actor_id : ℕ
  pub actor_name : String
  pub actor_email : String

-- A row of the trail, less its time.
pub record AdminActivity : Type 0 where
  pub entry : AdminActivityEntry
  pub actor : AdminActor
  pub target_user_id : ℕ
  pub target_user_name : String

-- The desk with the tables that only this part writes: the trail, whose the sessions are, and the
-- accounts that are banned, with the reason.
pub record Roster : Type 0 where
  pub desk : Desk
  pub trail : List AdminActivity
  pub sessions : List ℕ
  pub banned : List (ℕ × String)

-- A body that `updateUserSchema` admits.
pub record UserBody : Type 0 where
  pub name : String
  pub email : String
  pub role : Role

-- The calls of the sign-in library. A cookie is named by the account that it was set for, and a session
-- is the user that it names: the library may answer with a copy of the session that it keeps in the
-- cookie for up to a minute, and so with a user as the row was by then.
pub record SignIn : Type 0 where
  pub get_session : (cookie now : ℕ) → Roster → Option User
  pub create_user : (name email : String) → Desk → Option (Desk × User)
  pub admin_update_user : ℕ → UserBody → Desk → Option Desk
  pub request_password_reset : String → Desk → Option Desk

pub data Response : Type 0 where
  done : Response
  created updated : User → Response
  unauthenticated forbidden not_found failed : Response

abbrev pub admin_actor : User → AdminActor
admin_actor u = record { actor_id = u.id; actor_name = u.name; actor_email = u.email }

unfoldable pub admin_rows : AdminActor → User → List AdminActivityEntry → List AdminActivity
admin_rows actor target [] = []
admin_rows actor target (e ∷ es) =
    record { entry = e; actor = actor; target_user_id = target.id; target_user_name = target.name }
    ∷ admin_rows actor target es

unfoldable pub write_admin_activity : AdminActor → User → List AdminActivityEntry → Roster → Roster
unfolding admin_rows
write_admin_activity actor target entries r = record r {
  trail = r.trail ++ admin_rows actor target entries;
}

abbrev pub role_text : Role → String
role_text Role.admin = "admin"
role_text Role.agent = "agent"

abbrev labelled : String → String → String
labelled label value = String.◌++◌ label (String.◌++◌ ": " value)

abbrev pub same_role : Role → Role → Bool
same_role Role.admin r = is_admin r
same_role Role.agent r = not (is_admin r)

-- An entry in front of the others, where the two values differ.
abbrev moved :
    AdminAction
    → (String → String)
    → (from to : String) → List AdminActivityEntry
    → List AdminActivityEntry
moved action format from to rest =
    if str_eq from to
    then rest
    else record { action = action; from_value = some (format from); to_value = some (format to) }
      ∷ rest

abbrev pub user_edit_changes : User → UserBody → List AdminActivityEntry
user_edit_changes u b = moved AdminAction.user_edited (labelled "Name") u.name b.name (
    moved AdminAction.user_edited (labelled "Email") u.email b.email
      (moved AdminAction.role_changed (λ s. s) (role_text u.role) (role_text b.role) []))

-- A reset that nobody waits for: where it throws, that is reported and nothing else.
abbrev pub reset_unawaited : SignIn → String → Desk → Desk
reset_unawaited library email d = elim (library.request_password_reset email d) [
  | none ↦ d
  | some d' ↦ d'
]

abbrev pub created_entries : List AdminActivityEntry
created_entries =
    record { action = AdminAction.user_created; from_value = none; to_value = none }
    ∷ record { action = AdminAction.user_invited; from_value = none; to_value = some "initial" }
    ∷ []

abbrev pub resent_entries : List AdminActivityEntry
resent_entries =
    record { action = AdminAction.user_invited; from_value = none; to_value = some "resend" } ∷ []

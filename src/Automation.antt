-- ===== src/Automation.antt =====
-- Who owns a ticket once the assistant is done with it: apps/api/src/automation.ts, with the users
-- that apps/api/src/assignable-user.ts lets a ticket be handed to.
pub mod Owner
pub mod Frame
use ticket_manager_system.Common.{
  ℕ, String, Bool, true, false, not, ◌&&◌, ◌||◌, Option, none, some, List, [], ◌∷◌, ltb, ◌==◌,
  is_none, if◌then◌else◌,
}
use ticket_manager_system.Shared.{HandoffTarget, Role, option_eq}
use ticket_manager_system.Desk.{User, HandoffRow, Desk}
use ticket_manager_system.Desk.Table.{find}

-- `orderBy: [{ createdAt: "asc" }, { id: "asc" }]`
abbrev pub older : User → User → Bool
older u v = ltb u.created_at v.created_at || (u.created_at == v.created_at && ltb u.id v.id)

abbrev pub elder : User → Option User → User
elder u none = u
elder u (some v) = if older v u then v else u

-- `prisma.user.findFirst` in that order.
unfoldable pub first_user : (User → Bool) → List User → Option User
first_user fits [] = none
first_user fits (u ∷ us) =
    let rest = first_user fits us in if fits u then some (elder u rest) else rest

abbrev pub is_admin : Role → Bool
is_admin Role.admin = true
is_admin Role.agent = false

-- `ASSIGNABLE_USER`
abbrev pub is_assignable : User → Bool
is_assignable u = is_none u.deleted_at && (not u.automated && not u.is_anonymous)

abbrev pub is_assistant : User → Bool
is_assistant u = u.automated && is_none u.deleted_at

abbrev pub is_serving_admin : User → Bool
is_serving_admin u = is_admin u.role && (is_none u.deleted_at && not u.automated)

unfoldable pub assistant_user : Desk → Option User
assistant_user d = first_user is_assistant d.users

unfoldable pub longest_serving_admin : Desk → Option User
longest_serving_admin d = first_user is_serving_admin d.users

pub record HandoffSettings : Type 0 where
  pub target : HandoffTarget
  pub user : Option User
  pub updated_at : Option ℕ
  pub updated_by_name : Option String

abbrev pub user_of : ℕ → Desk → Option User
user_of i d = find (λ (u : User). u.id) i d.users

abbrev pub user_named : Option ℕ → Desk → Option User
user_named none d = none
user_named (some i) d = user_of i d

abbrev pub settings_of : Option HandoffRow → Desk → HandoffSettings
settings_of none d = record {
  target = HandoffTarget.admin;
  user = none;
  updated_at = none;
  updated_by_name = none;
}
settings_of (some row) d = record {
  target = row.target;
  user = user_named row.handoff_user_id d;
  updated_at = some row.updated_at;
  updated_by_name = row.updated_by_name;
}

unfoldable pub read_handoff_settings : Desk → HandoffSettings
read_handoff_settings d = settings_of d.settings d

-- The named user where a ticket may still be handed to them, else the fallback.
abbrev pub live_or : Option User → Option User → Option User
live_or none fallback = fallback
live_or (some u) fallback = if is_assignable u then some u else fallback

abbrev pub resolve : HandoffTarget → Option User → Desk → Option User
resolve HandoffTarget.unassigned user d = none
resolve HandoffTarget.admin user d = longest_serving_admin d
resolve HandoffTarget.user none d = longest_serving_admin d
resolve HandoffTarget.user (some u) d = live_or (user_of u.id d) (longest_serving_admin d)

unfoldable pub resolve_handoff_user : Desk → Option User
unfolding read_handoff_settings
resolve_handoff_user d = let s = read_handoff_settings d in resolve s.target s.user d

abbrev pub id_of : Option User → Option ℕ
id_of none = none
id_of (some u) = some u.id

abbrev pub resolve_handoff : Desk → Option ℕ
resolve_handoff d = id_of (resolve_handoff_user d)

-- Either side of a change of the setting: the target, and the person's id and name.
pub record HandoffSide : Type 0 where
  pub target : HandoffTarget
  pub user : Option (ℕ × String)

pub record HandoffRevision : Type 0 where
  pub from_target : HandoffTarget
  pub to_target : HandoffTarget
  pub from_user_id : Option ℕ
  pub from_user_name : Option String
  pub to_user_id : Option ℕ
  pub to_user_name : Option String

abbrev pub target_code : HandoffTarget → ℕ
target_code HandoffTarget.admin = 0
target_code HandoffTarget.user = 1
target_code HandoffTarget.unassigned = 2

abbrev pub side_id : Option (ℕ × String) → Option ℕ
side_id none = none
side_id (some (i, name)) = some i

abbrev pub side_name : Option (ℕ × String) → Option String
side_name none = none
side_name (some (i, name)) = some name

unfoldable pub handoff_change : HandoffSide → HandoffSide → Option HandoffRevision
handoff_change before after =
    if (target_code before.target == target_code after.target)
      && option_eq ◌==◌ (side_id before.user) (side_id after.user)
    then none
    else some (record {
      from_target = before.target;
      to_target = after.target;
      from_user_id = side_id before.user;
      from_user_name = side_name before.user;
      to_user_id = side_id after.user;
      to_user_name = side_name after.user;
    })

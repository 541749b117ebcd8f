-- ===== src/Automation/Frame.antt =====
-- What the resolvers of apps/api/src/automation.ts read, of the desk.
use ticket_manager_system.Common.{ℕ, ◌≡◌, refl, ap, ap₂, ◌∙◌, Option, none, some}
use ticket_manager_system.Shared.{HandoffTarget}
use ticket_manager_system.Desk.{User, HandoffRow, Desk}
use ticket_manager_system.Automation.{
  user_of, user_named, settings_of, live_or, resolve, longest_serving_admin, read_handoff_settings,
  resolve_handoff_user, assistant_user, first_user, is_serving_admin, is_assistant,
}
use ticket_manager_system.Desk.Table.{find}

module _ (d e : Desk) (same : e.users ≡ d.users) where
  longest_serving_admin-same : longest_serving_admin e ≡ longest_serving_admin d
  unfolding longest_serving_admin
  longest_serving_admin-same = ap (first_user is_serving_admin) same

  user_of-same : (i : ℕ) → user_of i e ≡ user_of i d
  user_of-same i = ap (find (λ (u : User). u.id) i) same

  pub assistant_user-same : assistant_user e ≡ assistant_user d
  unfolding assistant_user
  assistant_user-same = ap (first_user is_assistant) same

  resolve-same : (t : HandoffTarget) (u : Option User) → resolve t u e ≡ resolve t u d
  resolve-same HandoffTarget.unassigned u = refl
  resolve-same HandoffTarget.admin u = longest_serving_admin-same
  resolve-same HandoffTarget.user none = longest_serving_admin-same
  resolve-same HandoffTarget.user (some u) =
      ap₂ live_or (user_of-same u.id) longest_serving_admin-same

  settings_of-same : (row : Option HandoffRow) → settings_of row e ≡ settings_of row d
  settings_of-same none = refl
  settings_of-same (some row) = rw (user_named-same row.handoff_user_id) refl
    where
      user_named-same : (i : Option ℕ) → user_named i e ≡ user_named i d
      user_named-same none = refl
      user_named-same (some i) = user_of-same i

  read_handoff_settings-same :
      e.settings ≡ d.settings → read_handoff_settings e ≡ read_handoff_settings d
  unfolding read_handoff_settings
  read_handoff_settings-same kept = ap (λ s. settings_of s e) kept ∙ settings_of-same d.settings

  pub resolve_handoff_user-same :
      e.settings ≡ d.settings → resolve_handoff_user e ≡ resolve_handoff_user d
  unfolding resolve_handoff_user
  resolve_handoff_user-same kept =
      resolve-same (read_handoff_settings e).target (read_handoff_settings e).user
      ∙ ap (λ s. resolve s.target s.user d) (read_handoff_settings-same kept)

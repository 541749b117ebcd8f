-- ===== src/Examples/Accounts.antt =====
-- The roster of the desk, tried on two admins and an agent with one ticket.

use ticket_manager_system.Common.{
  Option-cases, inl, inr, ℕ, ◌+◌, ◌++◌, length, String, ◌≡◌, refl, sym, ap, ◌∙◌, true, false,
  Option, none, some, List, [], ◌∷◌,
}
use ticket_manager_system.Shared.{TicketStatus, Role}
use ticket_manager_system.Desk.{Ticket, User, Desk, empty}
use ticket_manager_system.Desk.Table.{find, update, find-key}
use ticket_manager_system.Automation.{longest_serving_admin, first_user, user_of}
use ticket_manager_system.Users.{
  Roster, UserBody, SignIn, forbidden, write_admin_activity, admin_rows,
}
use ticket_manager_system.Users.Routes.{write_user, patch_user, remove_user, delete_user}
use ticket_manager_system.Users.Removal.{IsRemoved, delete_user-IsRemoved}
use ticket_manager_system.Users.Admins.{
  Turn, IsCurrent, AreCurrent, serve, handle_request, patch, delete, create, invite, edited,
  SignInLaws, HasAdmin, serve_all,
}
use ticket_manager_system.Users.Admins.Kept.{serve_all-HasAdmin}

abbrev first_admin : User
first_admin = record {
  id = 1;
  name = "Ada";
  email = "ada@example.com";
  role = Role.admin;
  automated = false;
  is_anonymous = false;
  deleted_at = none;
  created_at = 100;
}

abbrev second_admin : User
second_admin = record first_admin { id = 2; name = "Bea"; email = "bea@example.com" }

abbrev colleague : User
colleague = record first_admin {
  id = 3;
  name = "Cyd";
  email = "cyd@example.com";
  role = Role.agent;
}

abbrev held_ticket : Ticket
held_ticket = record {
  id = 5;
  subject = "Login";
  status = TicketStatus.opened;
  category = none;
  classified_at = none;
  classifier_category = none;
  auto_resolved_at = none;
  auto_reply_decline = none;
  auto_reply_declined_at = none;
  auto_reply_offered_at = none;
  customer_email = "dee@example.com";
  customer_name = "Dee";
  last_message_at = 200;
  created_at = 200;
  updated_at = 200;
  assigned_to_id = some 3;
  assignment_seen_at = none;
}

abbrev roster : Roster
roster = record {
  desk = record empty {
    tickets = held_ticket ∷ [];
    users = first_admin ∷ second_admin ∷ colleague ∷ [];
  };
  trail = [];
  sessions = 1 ∷ 3 ∷ 3 ∷ [];
  banned = [];
}

abbrev as_agent : UserBody
as_agent = record { name = "Ada"; email = "ada@example.com"; role = Role.agent }

abbrev users_in : Option Desk → List User
users_in none = []
users_in (some d) = d.users

-- The library's calls, where nothing refuses them.
abbrev add_user : (name email : String) → Desk → Option (Desk × User)
add_user name email d =
    let u = record colleague { id = length d.users + 1; name = name; email = email } in
    some (record d { users = d.users ++ u ∷ [] }, u)

abbrev edit_user : ℕ → UserBody → Desk → Option Desk
edit_user i b d =
    some (record d { users = update (λ (u : User). u.id) i (λ _. true) (edited b) d.users })

-- A session as the row is now, for an account that is not deleted.
abbrev live_user : Option User → Option User
live_user none = none
live_user (some u) = elim u.deleted_at [ some at ↦ none | none ↦ some u ]

abbrev stored_session : ℕ → ℕ → Roster → Option User
stored_session cookie now r = live_user (user_of cookie r.desk)

abbrev plain : SignIn
plain = record {
  get_session = stored_session;
  create_user = add_user;
  admin_update_user = edit_user;
  request_password_reset = λ email d. some d;
}

abbrev made_users : Option (Desk × User) → List User
made_users none = []
made_users (some (d, u)) = d.users

abbrev made_user : Option (Desk × User) → User
made_user none = colleague
made_user (some (d, u)) = u

plain-SignInLaws : SignInLaws plain
plain-SignInLaws = record {
  adds = λ name email d d' u e.
      sym (ap made_users e) ∙ ap (λ (u : User). d.users ++ u ∷ []) (ap made_user e);
  writes = λ i b d d' e. sym (ap users_in e);
  leaves = λ email d d' e. sym (ap users_in e);
}

stored_session-IsCurrent : (cookie now : ℕ) (r : Roster) → IsCurrent (stored_session cookie now r) r
stored_session-IsCurrent cookie now r = elim (Option-cases (user_of cookie r.desk)) [
  | inl gone ↦ simp gone tt
  | inr (u, found) ↦ elim (Option-cases u.deleted_at) [
    | inr (at, deleted) ↦ simp (found, deleted) tt
    | inl live ↦
        simp (found, live)
          (λ admin. (
            u,
            (
              ap (λ k. user_of k r.desk) (find-key (λ (u : User). u.id) cookie r.desk.users u found)
                  ∙ found,
              (admin, live),
            ),
          ))
  ]
]

plain-AreCurrent : (turns : List Turn) (r : Roster) → AreCurrent plain turns r
plain-AreCurrent [] r = tt
plain-AreCurrent (turn ∷ turns) r =
    (stored_session-IsCurrent turn.cookie turn.now r, plain-AreCurrent turns (serve plain turn r).0)

own_role_refused : (patch_user plain (λ r. r) first_admin 1 as_agent roster).1 ≡ forbidden
unfolding patch_user find
own_role_refused = refl

-- Each of two admins demotes the other, one request between the read and the write of the other's:
-- both are let through, and no admin is left.
overlap_leaves_none :
    longest_serving_admin
      (patch_user plain
        (λ r. (patch_user plain (λ r. r) second_admin 1 as_agent r).0)
        first_admin
        2
        as_agent
        roster).0.desk
    ≡ none
unfolding patch_user write_user write_admin_activity admin_rows find update longest_serving_admin
    first_user
overlap_leaves_none = refl

-- The library as it answers from a cookie that was set before the second admin's request.
abbrev from_cookie : ℕ → ℕ → Roster → Option User
from_cookie cookie now r = user_of cookie roster.desk

abbrev cached : SignIn
cached = record plain { get_session = from_cookie }

-- One request after the other: the second admin demotes the first, who demotes the second under the
-- copy of a session from before, and no admin is left.
stale_cookie_leaves_none :
    longest_serving_admin
      (serve_all cached
        (record { now = 900; cookie = 2; request = patch 1 as_agent }
          ∷ record { now = 901; cookie = 1; request = patch 2 as_agent }
          ∷ [])
        roster).desk
    ≡ none
unfolding serve_all serve handle_request patch_user write_user write_admin_activity admin_rows find
    update longest_serving_admin first_user
stale_cookie_leaves_none = refl

delete_user-IsRemoved_example :
    IsRemoved 900 3 first_admin colleague roster
      (delete_user (λ r. r) (λ r. r) 900 first_admin 3 roster).0
unfolding delete_user remove_user find update write_admin_activity admin_rows
delete_user-IsRemoved_example =
    delete_user-IsRemoved (λ r. r) (λ r. r) 900 first_admin 3 colleague roster refl refl

-- The second admin demotes the first, who then asks for the same of the second and is deleted.
abbrev demotions : List Turn
demotions =
    record { now = 899; cookie = 2; request = create "Eve" "eve@example.com" }
    ∷ record { now = 900; cookie = 2; request = patch 1 as_agent }
    ∷ record { now = 901; cookie = 1; request = patch 2 as_agent }
    ∷ record { now = 902; cookie = 2; request = invite 4 }
    ∷ record { now = 903; cookie = 2; request = delete 1 }
    ∷ []

serve_all-HasAdmin_example : HasAdmin (serve_all plain demotions roster)
unfolding find
serve_all-HasAdmin_example =
    serve_all-HasAdmin plain plain-SignInLaws demotions roster (plain-AreCurrent demotions roster)
      (1, (first_admin, (refl, (refl, refl))))

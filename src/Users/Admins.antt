-- ===== src/Users/Admins.antt =====
-- Whether the desk keeps an admin: the requests of apps/api/src/routes/users.ts one after another,
-- each under the session that the sign-in library has for its cookie.
pub mod Stays
pub mod Kept
use ticket_manager_system.Common.{
  ℕ, ◌++◌, String, ◌≡◌, ◌≢◌, ◌&&◌, refl, sym, ap, subst, ◌∙◌, Bool, true, false, not, Option, none,
  some, List, [], ◌∷◌, ◌==◌, arith, Bool-cases, Option-cases, inl, inr,
}
use ticket_manager_system.Shared.{Role}
use ticket_manager_system.Desk.{User, Desk}
use ticket_manager_system.Desk.Table.{
  find, update, written, find-key, find-append, find-update_self, find-update_other,
}
use ticket_manager_system.Automation.{is_admin, user_of}
use ticket_manager_system.Users.{
  Roster, UserBody, SignIn, Response, reset_unawaited, unauthenticated, same_role,
  write_admin_activity,
}
use ticket_manager_system.Users.Routes.{
  create_account, resend_invite, invite_user, deleted_user, write_user, patch_user, remove_user,
  delete_user, orphaned_tickets,
}

pub data Request : Type 0 where
  create : (name email : String) → Request
  patch : ℕ → UserBody → Request
  invite : ℕ → Request
  delete : ℕ → Request

-- A request with its cookie, and its time.
pub record Turn : Type 0 where
  pub now : ℕ
  pub cookie : ℕ
  pub request : Request

-- What the library's call writes of an account.
abbrev pub edited : UserBody → User → User
edited b u = record u { name = b.name; email = b.email; role = b.role }

-- What the routes rely on of the library: where a call does not throw, a creation adds the account
-- at the end, an edit writes the named fields of the named account and no other of the users, and a
-- request for a password leaves the users as they are.
pub record SignInLaws (library : SignIn) : Type 0 where
  pub adds :
      (name email : String) (d d' : Desk) (u : User)
      → library.create_user name email d ≡ some (d', u)
      → d'.users ≡ d.users ++ u ∷ []
  pub writes :
      (i : ℕ) (b : UserBody) (d d' : Desk)
      → library.admin_update_user i b d ≡ some d'
      → d'.users ≡ update (λ (u : User). u.id) i (λ _. true) (edited b) d.users
  pub leaves :
      (email : String) (d d' : Desk)
      → library.request_password_reset email d ≡ some d'
      → d'.users ≡ d.users

-- The account is that of an admin, and is not deleted.
abbrev pub Serves : ℕ → Roster → Type 0
Serves i r =
    (u : User) × ((user_of i r.desk ≡ some u) × ((is_admin u.role ≡ true) × (u.deleted_at ≡ none)))

abbrev pub HasAdmin : Roster → Type 0
HasAdmin r = (i : ℕ) × Serves i r

-- A session that says admin is of an account that is one.
abbrev pub IsCurrent : Option User → Roster → Type 0
IsCurrent none r = Unit {0}
IsCurrent (some session) r = is_admin session.role ≡ true → Serves session.id r

module _ (library : SignIn) where
  -- The handler of a request.
  unfoldable pub handle_request : Turn → User → Request → Roster → Roster × Response
  unfolding create_account patch_user invite_user delete_user
  handle_request turn session (create name email) r = create_account library session name email r
  handle_request turn session (patch i b) r = patch_user library (λ r. r) session i b r
  handle_request turn session (invite i) r = invite_user library session i r
  handle_request turn session (delete i) r = delete_user (λ r. r) (λ r. r) turn.now session i r

  -- The guard, without its question, which the handlers ask, and the handler.
  unfoldable pub serve : Turn → Roster → Roster × Response
  unfolding handle_request
  serve turn r = elim (library.get_session turn.cookie turn.now r) [
    | none ↦ (r, unauthenticated)
    | some session ↦ handle_request turn session turn.request r
  ]

  unfoldable pub serve_all : List Turn → Roster → Roster
  unfolding serve
  serve_all [] r = r
  serve_all (turn ∷ turns) r = serve_all turns (serve turn r).0

  -- No request is let in as an admin's whose account is not an admin's when it arrives.
  abbrev pub AreCurrent : List Turn → Roster → Type 0
  AreCurrent [] r = Unit {0}
  AreCurrent (turn ∷ turns) r =
      IsCurrent (library.get_session turn.cookie turn.now r) r × AreCurrent turns (serve turn r).0

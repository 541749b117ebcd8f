-- ===== src/Users/Admins/Kept.antt =====
-- The requests of apps/api/src/routes/users.ts in any number.
use ticket_manager_system.Common.{some, List, [], ◌∷◌, Bool-cases, Option-cases, inl, inr}
use ticket_manager_system.Desk.{User}
use ticket_manager_system.Automation.{is_admin}
use ticket_manager_system.Users.{Roster, SignIn}
use ticket_manager_system.Users.Routes.{create_account, invite_user, patch_user, delete_user}
use ticket_manager_system.Users.Admins.{
  Request, create, patch, invite, delete, Turn, SignInLaws, HasAdmin, IsCurrent, AreCurrent,
  handle_request, serve, serve_all,
}
use ticket_manager_system.Users.Admins.Stays.{
  create_account-Serves, patch_user-Serves, invite_user-Serves, delete_user-Serves,
}

module _ (library : SignIn) (laws : SignInLaws library) where
  handle-HasAdmin :
      (turn : Turn) (u : User) (request : Request) (r : Roster)
      → IsCurrent (some u) r
      → HasAdmin r
      → HasAdmin (handle_request library turn u request r).0
  unfolding handle_request create_account patch_user invite_user delete_user
  handle-HasAdmin turn u (create name email) r now h = elim (Bool-cases (is_admin u.role)) [
    | inl high ↦
        let (row, (found, (admin, live))) = now high in
        (u.id, create_account-Serves u row r found high admin live library laws name email)
    | inr low ↦ simp (low, handle_request, create_account) h
  ]
  handle-HasAdmin turn u (invite i) r now h = elim (Bool-cases (is_admin u.role)) [
    | inl high ↦
        let (row, (found, (admin, live))) = now high in
        (u.id, invite_user-Serves u row r found high admin live library laws i)
    | inr low ↦ simp (low, handle_request, invite_user) h
  ]
  handle-HasAdmin turn u (patch i b) r now h = elim (Bool-cases (is_admin u.role)) [
    | inl high ↦
        let (row, (found, (admin, live))) = now high in
        (u.id, patch_user-Serves u row r found high admin live library laws i b)
    | inr low ↦ simp (low, handle_request, patch_user) h
  ]
  handle-HasAdmin turn u (delete i) r now h = elim (Bool-cases (is_admin u.role)) [
    | inl high ↦
        let (row, (found, (admin, live))) = now high in
        (u.id, delete_user-Serves u row r found high admin live turn.now i)
    | inr low ↦ simp (low, handle_request, delete_user) h
  ]

  serve-HasAdmin :
      (turn : Turn) (r : Roster)
      → IsCurrent (library.get_session turn.cookie turn.now r) r
      → HasAdmin r
      → HasAdmin (serve library turn r).0
  unfolding serve
  serve-HasAdmin turn r now h = elim (Option-cases (library.get_session turn.cookie turn.now r)) [
    | inl nobody ↦ simp (nobody, serve) h
    | inr (u, session) ↦
        simp (session, serve) (handle-HasAdmin turn u turn.request r (rw session at now) h)
  ]

  -- Where the sign-in library keeps its laws, a desk that has an admin keeps one through any list of
  -- creations, edits, invitations and deletions that any accounts ask for, when the requests are
  -- served one after another and none is let in under a session that says admin of an account that
  -- is not an admin's, or is deleted, by then. A session that the library copies out of the cookie
  -- can say so for up to a minute, and such a request is not covered.
  pub serve_all-HasAdmin :
      (turns : List Turn) (r : Roster)
      → AreCurrent library turns r
      → HasAdmin r
      → HasAdmin (serve_all library turns r)
  unfolding serve_all
  serve_all-HasAdmin [] r now h = h
  serve_all-HasAdmin (turn ∷ turns) r now h =
      serve_all-HasAdmin turns (serve library turn r).0 now.1 (serve-HasAdmin turn r now.0 h)

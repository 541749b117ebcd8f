-- ===== src/Users/Admins/Stays.antt =====
-- An admin whose own request it is stays an admin, whichever handler of apps/api/src/routes/users.ts
-- it reaches.
use ticket_manager_system.Common.{
  ℕ, String, ◌≡◌, ◌≢◌, ◌&&◌, refl, sym, ap, subst, ◌∙◌, Bool, true, false, not, none, some, ◌==◌,
  arith, Bool-cases, Option-cases, inl, inr,
}
use ticket_manager_system.Shared.{Role}
use ticket_manager_system.Desk.{User, Desk}
use ticket_manager_system.Desk.Table.{
  find, update, written, find-append, find-update_self, find-update_other,
}
use ticket_manager_system.Automation.{is_admin, user_of}
use ticket_manager_system.Users.{
  Roster, UserBody, SignIn, reset_unawaited, same_role, write_admin_activity,
}
use ticket_manager_system.Users.Routes.{
  create_account, resend_invite, invite_user, deleted_user, write_user, patch_user, remove_user,
  delete_user, orphaned_tickets,
}
use ticket_manager_system.Users.Admins.{edited, SignInLaws, Serves}

same_role-admin : (a b : Role) → same_role a b ≡ true → is_admin b ≡ true → is_admin a ≡ true
same_role-admin Role.admin b e h = refl
same_role-admin Role.agent b e h = absurd (cc (rw h at e))

same_key : (i j : ℕ) → (i == j) ≡ true → i ≡ j
same_key i j e = ground arith

guard_passed : (a b : Bool) → a ≡ true → (a && not b) ≡ false → b ≡ true
guard_passed true true e h = refl
guard_passed true false e h = cc
guard_passed false b e h = cc

some-injective : (u v : User) → some u ≡ some v → u ≡ v
some-injective u v e = cc

true≢false : true ≢ false
true≢false e = cc

-- A session that says admin, of an account that is one: `row` may differ from the session.
module _ (session row : User) (r : Roster) (found : user_of session.id r.desk ≡ some row)
    (admits : is_admin session.role ≡ true) (high : is_admin row.role ≡ true)
    (live : row.deleted_at ≡ none) where
  stays : Serves session.id r
  stays = (row, (found, (high, live)))

  -- Whoever is found under the key of the session is its account.
  is_session : (i : ℕ) (u : User) → user_of i r.desk ≡ some u → (i == session.id) ≡ true → u ≡ row
  is_session i u here e =
      some-injective u row
        (sym here ∙ (ap (λ k. user_of k r.desk) (same_key i session.id e) ∙ found))

  is_other :
      (i : ℕ) (u : User)
      → user_of i r.desk ≡ some u
      → is_admin u.role ≡ false
      → (i == session.id) ≡ false
  is_other i u here low = elim (Bool-cases (i == session.id)) [
    | inr e ↦ e
    | inl e ↦ absurd (
        true≢false
          (sym high ∙ (ap (λ (u : User). is_admin u.role) (sym (is_session i u here e)) ∙ low)))
  ]

  remove_user-Serves :
      (now i : ℕ) (target : User)
      → (i == session.id) ≡ false
      → Serves session.id
          (remove_user (λ r. r) (λ r. r) now session i target (orphaned_tickets i r) r).0
  unfolding remove_user write_admin_activity
  remove_user-Serves now i target other = elim (Option-cases (user_of i r.desk)) [
    | inl gone ↦ rw (gone, remove_user) stays
    | inr (u, here) ↦
        rw (here, remove_user)
          (
            row,
            (
              find-update_other (λ (u : User). u.id) (λ _. true) (deleted_user now) (λ u. refl) i
                    session.id r.desk.users other
                  ∙ found,
              (high, live),
            ),
          )
  ]

  pub delete_user-Serves :
      (now i : ℕ) → Serves session.id (delete_user (λ r. r) (λ r. r) now session i r).0
  unfolding delete_user
  delete_user-Serves now i = elim (Option-cases (user_of i r.desk)) [
    | inl gone ↦ simp (admits, gone, delete_user) stays
    | inr (target, here) ↦ elim (Option-cases target.deleted_at) [
      | inr (at, gone) ↦ simp (admits, here, gone, delete_user) stays
      | inl kept ↦ elim (Bool-cases (is_admin target.role)) [
        | inl high' ↦ simp (admits, here, kept, high', delete_user) stays
        | inr low ↦ elim (Bool-cases target.automated) [
          | inl auto ↦ simp (admits, here, kept, low, auto, delete_user) stays
          | inr own ↦
              simp (admits, here, kept, low, own, delete_user)
                (remove_user-Serves now i target (is_other i target here low))
        ]
      ]
    ]
  ]

  module _ (library : SignIn) (laws : SignInLaws library) where
    reset-users : (email : String) (d : Desk) → (reset_unawaited library email d).users ≡ d.users
    reset-users email d = elim (Option-cases (library.request_password_reset email d)) [
      | inl threw ↦ simp (threw, reset_unawaited) refl
      | inr (d', asked) ↦ simp (asked, reset_unawaited) (laws.leaves email d d' asked)
    ]

    same_users-Serves :
        (d : Desk) → d.users ≡ r.desk.users → Serves session.id (record r { desk = d })
    same_users-Serves d same =
        (row, (ap (find (λ (u : User). u.id) session.id) same ∙ found, (high, live)))

    pub create_account-Serves :
        (name email : String) → Serves session.id (create_account library session name email r).0
    unfolding create_account write_admin_activity
    create_account-Serves name email = elim (Option-cases (library.create_user name email r.desk)) [
      | inl threw ↦ simp (admits, threw, create_account) stays
      | inr ((d, u), made) ↦
          simp (admits, made, create_account)
            (
              row,
              (
                ap (find (λ (u : User). u.id) session.id)
                      (reset-users email d ∙ laws.adds name email r.desk d u made)
                    ∙ (find-append (λ (u : User). u.id) session.id r.desk.users u ∙ rw found refl),
                (high, live),
              ),
            )
    ]

    resend_invite-Serves :
        (target : User) → Serves session.id (resend_invite library session target r).0
    unfolding resend_invite write_admin_activity
    resend_invite-Serves target =
        elim (Option-cases (library.request_password_reset target.email r.desk)) [
          | inl threw ↦ simp (threw, resend_invite) stays
          | inr (d, asked) ↦
              simp (asked, resend_invite)
                (same_users-Serves d (laws.leaves target.email r.desk d asked))
        ]

    pub invite_user-Serves : (i : ℕ) → Serves session.id (invite_user library session i r).0
    unfolding invite_user
    invite_user-Serves i = elim (Option-cases (user_of i r.desk)) [
      | inl gone ↦ simp (admits, gone, invite_user) stays
      | inr (target, here) ↦ elim (Bool-cases target.automated) [
        | inl auto ↦ simp (admits, here, auto, invite_user) stays
        | inr own ↦ elim (Option-cases target.deleted_at) [
          | inr (at, deleted) ↦ simp (admits, here, own, deleted, invite_user) stays
          | inl kept ↦ simp (admits, here, own, kept, invite_user) (resend_invite-Serves target)
        ]
      ]
    ]

    update-Serves :
        (i : ℕ) (b : UserBody) (before : User) (d : Desk)
        → user_of i r.desk ≡ some before
        → (i == session.id && not (same_role b.role before.role)) ≡ false
        → library.admin_update_user i b r.desk ≡ some d
        → Serves session.id (record r { desk = d })
    update-Serves i b before d here fits wrote = elim (Bool-cases (i == session.id)) [
      | inr e ↦ (
        row,
        (
          ap (find (λ (u : User). u.id) session.id) (laws.writes i b r.desk d wrote)
              ∙ (find-update_other (λ (u : User). u.id) (λ _. true) (edited b) (λ u. refl) i
                    session.id r.desk.users e
                  ∙ found),
          (high, live),
        ),
      )
      | inl e ↦ (
        edited b row,
        (
          ap (find (λ (u : User). u.id) session.id) (laws.writes i b r.desk d wrote)
              ∙ subst
                  (λ k.
                    find (λ (u : User). u.id) session.id
                      (update (λ (u : User). u.id) k (λ _. true) (edited b) r.desk.users)
                    ≡ some (edited b row))
                  (sym (same_key i session.id e))
                  (find-update_self (λ (u : User). u.id) (λ _. true) (edited b) (λ u. refl)
                      session.id r.desk.users
                    ∙ ap (written (λ _. true) (edited b)) found),
          (
            same_role-admin b.role before.role
                (guard_passed (i == session.id) (same_role b.role before.role) e fits)
                (ap (λ (u : User). is_admin u.role) (is_session i before here e) ∙ high),
            live,
          ),
        ),
      )
    ]

    write_user-Serves :
        (i : ℕ) (b : UserBody) (before : User)
        → user_of i r.desk ≡ some before
        → (i == session.id && not (same_role b.role before.role)) ≡ false
        → Serves session.id (write_user library (λ r. r) session i b before r).0
    unfolding write_user write_admin_activity
    write_user-Serves i b before here fits =
        elim (Option-cases (library.admin_update_user i b r.desk)) [
          | inl threw ↦ rw (threw, write_user) stays
          | inr (d, wrote) ↦
              let kept = update-Serves i b before d here fits wrote in
              elim (Option-cases (user_of i d)) [
                | inl gone ↦ rw (wrote, gone, write_user) kept
                | inr (u, there) ↦ rw (wrote, there, write_user) kept
              ]
        ]

    pub patch_user-Serves :
        (i : ℕ) (b : UserBody) → Serves session.id (patch_user library (λ r. r) session i b r).0
    unfolding patch_user
    patch_user-Serves i b = elim (Option-cases (user_of i r.desk)) [
      | inl gone ↦ simp (admits, gone, patch_user) stays
      | inr (before, here) ↦ elim (Bool-cases before.automated) [
        | inl auto ↦ simp (admits, here, auto, patch_user) stays
        | inr own ↦ elim (Bool-cases (i == session.id && not (same_role b.role before.role))) [
          | inl refused ↦ simp (admits, here, own, refused, patch_user) stays
          | inr fits ↦
              simp (admits, here, own, fits, patch_user) (write_user-Serves i b before here fits)
        ]
      ]
    ]

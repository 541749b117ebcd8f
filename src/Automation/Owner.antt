-- ===== src/Automation/Owner.antt =====
-- Whom apps/api/src/automation.ts can name.
use mathlib.Core.Option.{some-injective}
use ticket_manager_system.Common.{
  ◌≡◌, subst, sym, Bool, if◌then◌else◌, ◌⊎◌, inl, inr, ◌↔◌, true, false, none, some, List, [], ◌∷◌,
  arith, Bool-cases, Option-cases, All,
}
use ticket_manager_system.Shared.{HandoffTarget}
use ticket_manager_system.Desk.{User, Desk}
use ticket_manager_system.Automation.{
  older, elder, first_user, is_assignable, is_serving_admin, longest_serving_admin,
  read_handoff_settings, resolve_handoff_user, HandoffSide, handoff_change, side_id,
}

first_user-fits :
    (fits : User → Bool) (us : List User) (u : User) → first_user fits us ≡ some u → fits u ≡ true
unfolding first_user
first_user-fits fits [] u e = cc
first_user-fits fits (v ∷ us) u e = ground (arith, first_user-fits fits us u)

older_then : (x v w : User) → older x w ≡ false → older w v ≡ false → older x v ≡ false
older_then x v w h k = ground arith

older_asym : (v w : User) → older w v ≡ true → older v w ≡ false
older_asym v w h = ground arith

older_irrefl : (u : User) → older u u ≡ false
older_irrefl u = ground arith

-- Nobody in the list who fits is older than `w`.
abbrev pub NoneOlder : (User → Bool) → User → List User → Type 0
NoneOlder fits w = All (λ v. fits v ≡ true → older v w ≡ false)

NoneOlder-mono :
    (fits : User → Bool) (v w : User) (us : List User)
    → older w v ≡ false
    → NoneOlder fits w us
    → NoneOlder fits v us
NoneOlder-mono fits v w [] h n = tt
NoneOlder-mono fits v w (x ∷ us) h n =
    (λ f. older_then x v w (n.0 f) h, NoneOlder-mono fits v w us h n.1)

Nobody-NoneOlder :
    (fits : User → Bool) (w : User) (us : List User)
    → first_user fits us ≡ none
    → NoneOlder fits w us
unfolding first_user
Nobody-NoneOlder fits w [] e = tt
Nobody-NoneOlder fits w (v ∷ us) e = elim (Bool-cases (fits v)) [
  | inl f ↦ absurd (cc (rw f at e))
  | inr f ↦ (λ g. absurd (cc), Nobody-NoneOlder fits w us (rw f at e))
]

elder-NoneOlder :
    (fits : User → Bool) (v w : User) (us : List User)
    → NoneOlder fits w us
    → NoneOlder fits (elder v (some w)) (v ∷ us)
elder-NoneOlder fits v w us n = elim (Bool-cases (older w v)) [
  | inl first ↦
      subst (λ (b : Bool). NoneOlder fits (if b then w else v) (v ∷ us)) (sym first)
        (λ _. older_asym v w first, n)
  | inr later ↦
      subst (λ (b : Bool). NoneOlder fits (if b then w else v) (v ∷ us)) (sym later)
        (λ _. older_irrefl v, NoneOlder-mono fits v w us later n)
]

pub first_user-NoneOlder :
    (fits : User → Bool) (us : List User) (u : User)
    → first_user fits us ≡ some u
    → NoneOlder fits u us
unfolding first_user
first_user-NoneOlder fits [] u e = tt
first_user-NoneOlder fits (v ∷ us) u e = elim (Bool-cases (fits v)) [
  | inl f ↦ elim (Option-cases (first_user fits us)) [
    | inl alone ↦
        let same : v ≡ u = ground arith in
        subst (λ x. NoneOlder fits x (v ∷ us)) same
          (λ _. older_irrefl v, Nobody-NoneOlder fits v us alone)
    | inr (w, found) ↦
        let named : elder v (some w) ≡ u = some-injective _ _ (rw found at (rw f at e)) in
        subst (λ x. NoneOlder fits x (v ∷ us)) named
          (elder-NoneOlder fits v w us (first_user-NoneOlder fits us w found))
  ]
  | inr f ↦ (λ g. absurd (cc), first_user-NoneOlder fits us u (rw f at e))
]

-- Who a handoff may name: a serving admin, or a person the setting asks for who is assignable.
abbrev pub IsNamed : Desk → User → Type 0
IsNamed d u =
    (is_serving_admin u ≡ true)
    ⊎ ((is_assignable u ≡ true) × ((read_handoff_settings d).target ≡ HandoffTarget.user))

-- A ticket that is handed back goes to a serving admin, to the person that the setting names where
-- a ticket may be assigned to them, or to nobody; so never to a deleted account nor the assistant.
pub resolve_handoff_user-IsNamed :
    (d : Desk) (u : User)
    → resolve_handoff_user d ≡ some u
    → IsNamed d u × (u.deleted_at ≡ none) × (u.automated ≡ false)
unfolding resolve_handoff_user longest_serving_admin
resolve_handoff_user-IsNamed d u e = ground (arith, first_user-fits is_serving_admin d.users u)

-- Where the setting asks for an admin, whoever takes the ticket is a serving admin, and no serving
-- admin is their elder.
pub resolve_handoff_user-eldest :
    (d : Desk) (u : User)
    → (read_handoff_settings d).target ≡ HandoffTarget.admin
    → resolve_handoff_user d ≡ some u
    → (is_serving_admin u ≡ true) × NoneOlder is_serving_admin u d.users
unfolding resolve_handoff_user longest_serving_admin
resolve_handoff_user-eldest d u t e =
    let found : first_user is_serving_admin d.users ≡ some u = ground arith in
    (
      first_user-fits is_serving_admin d.users u found,
      first_user-NoneOlder is_serving_admin d.users u found,
    )

-- A change of the setting is recorded exactly when the target or the person named has changed.
pub handoff_change_iff :
    (before after : HandoffSide)
    → (handoff_change before after ≡ none)
      ↔ ((before.target ≡ after.target) × (side_id before.user ≡ side_id after.user))
unfolding handoff_change
handoff_change_iff before after = (λ e. ground arith, λ p. ground arith)

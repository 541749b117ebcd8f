-- ===== src/Activity/Diff.antt =====
-- What an entry of the trail of apps/api/src/ticket-activity.ts records.
use text.Mathlib.TextEquality.{eq_iff}
use ticket_manager_system.Common.{
  String, ◌≡◌, ◌↔◌, inl, inr, true, false, Option, none, some, List, [], ◌∷◌, arith, Bool-cases,
  All, refl, str_eq_refl,
}
use ticket_manager_system.Desk.{ActivityEntry}
use ticket_manager_system.Activity.{
  DiffField, TicketFields, differs, diff_to_entries, ticket_changes,
}

pub differs_refl : (a : Option String) → differs a a ≡ false
differs_refl none = refl
differs_refl (some s) = rw (str_eq_refl s)

pub differs-false : (a b : Option String) → differs a b ≡ false → a ≡ b
differs-false none none h = refl
differs-false none (some t) h = absurd (cc)
differs-false (some s) none h = absurd (cc)
differs-false (some s) (some t) h = ground (arith, eq_iff s t)

-- Every entry is a transition: the value before and the one after are not the same.
pub diff_to_entries-moved :
    {T : Type 0} (before after : T) (fields : List (DiffField T))
    → All
        (λ (e : ActivityEntry). differs e.from_value e.to_value ≡ true)
        (diff_to_entries before after fields)
unfolding diff_to_entries
diff_to_entries-moved before after [] = tt
diff_to_entries-moved before after (f ∷ fields) =
    elim (Bool-cases (differs (f.field before) (f.field after))) [
      | inl e ↦ rw e (e, diff_to_entries-moved before after fields)
      | inr e ↦ rw e (diff_to_entries-moved before after fields)
    ]

-- The trail of an edit is empty exactly when none of the three fields has changed.
pub ticket_changes-nil_iff :
    (before after : TicketFields)
    → (ticket_changes before after ≡ []) ↔ (
        (before.status ≡ after.status)
        × (before.category ≡ after.category)
        × (before.assignee ≡ after.assignee))
unfolding ticket_changes
ticket_changes-nil_iff before after = (
  λ e. ground (
    arith,
    differs-false (some before.status) (some after.status),
    differs-false before.category after.category,
    differs-false before.assignee after.assignee,
  ),
  λ h. ground (
    arith,
    differs_refl (some before.status),
    differs_refl before.category,
    differs_refl before.assignee,
  ),
)

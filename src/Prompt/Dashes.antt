-- ===== src/Prompt/Dashes.antt =====
-- What `withoutDashes` of apps/api/src/ai/provider.ts leaves of a text.
use Prim.Native.Char.{Char, code}
use Prim.Native.String.{[], ◌∷◌}
use ticket_manager_system.Common.{
  ℕ, String, ◌≡◌, refl, ◌∙◌, Bool, false, ◌||◌, arith, Bool-cases, inl, inr,
}
use ticket_manager_system.Text.{is_space}
use ticket_manager_system.Prompt.{
  is_dash, is_punctuation, stand_in, DashPart, matched, since, lead, without_leading, separator,
  held, with_space, without_inner, without_dashes, joined,
}

-- Whether a text has an em dash or an en dash.
unfoldable pub has_dash : String → Bool
has_dash [] = false
has_dash (c ∷ s) = is_dash (code c) || has_dash s

has_dash-joined : (s t : String) → has_dash (joined s t) ≡ (has_dash s || has_dash t)
unfolding has_dash joined
has_dash-joined [] t = refl
has_dash-joined (c ∷ s) t = ground (arith, has_dash-joined s t)

stand_in-plain : (previous : ℕ) → has_dash (stand_in previous) ≡ false
unfolding has_dash joined
stand_in-plain previous = elim (Bool-cases (is_punctuation previous)) [
  | inl after ↦ rw after refl
  | inr other ↦ rw other refl
]

separator-plain : (part : DashPart) → has_dash (separator part) ≡ false
separator-plain matched = stand_in-plain 32
separator-plain (since previous spaces) = stand_in-plain previous

with_space-plain :
    (part : DashPart) (c : Char)
    → is_dash (code c) ≡ false
    → has_dash (held part) ≡ false
    → has_dash (held (with_space part c)) ≡ false
unfolding has_dash joined
with_space-plain matched c plain e = e
with_space-plain (since previous spaces) c plain e =
    has_dash-joined spaces (c ∷ []) ∙ ground (arith, plain, e)

without_inner-plain :
    (part : DashPart) (s : String)
    → has_dash (held part) ≡ false
    → has_dash (without_inner part s) ≡ false
unfolding without_inner has_dash joined
without_inner-plain part [] e = e
without_inner-plain part (c ∷ s) e = elim (Bool-cases (is_dash (code c))) [
  | inl dash ↦
      rw (dash, without_inner)
        (has_dash-joined (separator part) (without_inner matched s)
          ∙ rw (separator-plain part) (without_inner-plain matched s refl))
  | inr plain ↦ elim (Bool-cases (is_space (code c))) [
    | inl space ↦
        rw (plain, without_inner, space)
          (without_inner-plain (with_space part c) s (with_space-plain part c plain e))
    | inr other ↦
        rw (plain, without_inner, other)
          (has_dash-joined (held part) (c ∷ without_inner (since (code c) []) s)
            ∙ rw (e, plain) (without_inner-plain (since (code c) []) s refl))
  ]
]

-- No em dash and no en dash is left, whatever the text.
pub without_dashes-plain : (text : String) → has_dash (without_dashes text) ≡ false
unfolding without_dashes has_dash
without_dashes-plain text = without_inner-plain (since 0 []) (without_leading (lead []) text) refl

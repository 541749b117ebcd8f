-- ===== src/Text/Brackets.antt =====
-- Ids in angle brackets, through the string work of apps/api/src/ingest.ts.
use Prim.Native.Char.{Char, code}
use Prim.Native.String
use Prim.Native.String.{[], ◌∷◌}
use text.Mathlib.TextLemmas.{nil-append, cons-append}
use ticket_manager_system.Common.{String, ◌≡◌, ap, ◌∙◌, false, Bool-cases, inl, inr}
use ticket_manager_system.Text.{is_space, is_empty, trim_end, drop_right, strip_angles}

-- A header value as a mail client writes it.
abbrev pub bracketed : String → String
bracketed id = String.◌++◌ "<" (String.◌++◌ id ">")

end_bracket : String → String
end_bracket s = String.◌++◌ s ">"

end_bracket-nil : end_bracket [] ≡ ">"
unfolding end_bracket
end_bracket-nil = nil-append ">"

end_bracket-cons : (c : Char) (s : String) → end_bracket (c ∷ s) ≡ c ∷ end_bracket s
unfolding end_bracket
end_bracket-cons c s = cons-append c s ">"

end_bracket_filled : (s : String) → is_empty (end_bracket s) ≡ false
end_bracket_filled [] = rw end_bracket-nil
end_bracket_filled (c ∷ s) = rw (end_bracket-cons c s)

trim_end-end_bracket : (s : String) → trim_end (end_bracket s) ≡ end_bracket s
unfolding trim_end
trim_end-end_bracket [] = rw end_bracket-nil
trim_end-end_bracket (c ∷ s) = elim (Bool-cases (is_space (code c))) [
  | inl e ↦ rw (end_bracket-cons c s, trim_end-end_bracket s, end_bracket_filled s, e)
  | inr e ↦ rw (end_bracket-cons c s, trim_end-end_bracket s, end_bracket_filled s, e)
]

drop_right-end_bracket : (s : String) → drop_right (end_bracket s) ≡ s
unfolding drop_right
drop_right-end_bracket [] = rw end_bracket-nil
drop_right-end_bracket (c ∷ []) = rw (end_bracket-cons c [], end_bracket-nil)
drop_right-end_bracket (c ∷ d ∷ s) =
    rw (end_bracket-cons c (d ∷ s), end_bracket-cons d s)
      (ap (λ t. c ∷ t) (rw (end_bracket-cons d s) at (drop_right-end_bracket (d ∷ s))))

bracketed-cons : (id : String) → bracketed id ≡ "<" ∷ end_bracket id
unfolding end_bracket
bracketed-cons id = cons-append "<" [] _ ∙ ap (◌∷◌ "<") (nil-append _)

pub bracketed_filled : (id : String) → is_empty (bracketed id) ≡ false
bracketed_filled id = rw (bracketed-cons id)

-- A Message-ID in a header's angle brackets is stored without them, whatever it holds.
pub strip_angles-bracketed : (id : String) → strip_angles (bracketed id) ≡ id
unfolding strip_angles
strip_angles-bracketed id =
    rw (bracketed-cons id) (rw (trim_end-end_bracket id) (drop_right-end_bracket id))

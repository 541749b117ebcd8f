-- ===== src/Prompt.antt =====
-- What every prompt and every answer goes through: `fenced`, `unbackedCommitments` and
-- `withoutDashes` of apps/api/src/ai/provider.ts, over code points. `lowered` is `toLowerCase`.
pub mod Fence
pub mod Dashes
use Prim.Native.Char.{Char, code}
use Prim.Native.String
use Prim.Native.String.{[], ◌∷◌}
use mathlib.Core.List as Lists
use ticket_manager_system.Common.{
  ℕ, zero, suc, String, Bool, true, false, not, ◌&&◌, ◌||◌, List, ◌==◌, if◌then◌else◌, filter,
}
use ticket_manager_system.Text.{trim, is_space, is_prefix, includes}

-- `replaceAll(marker, "")` for a marker of three characters: `skipped` more of a match are to go.
unfoldable pub without_marker : String → ℕ → String → String
unfolding is_prefix
without_marker marker skipped [] = []
without_marker marker (suc skipped) (c ∷ s) = without_marker marker skipped s
without_marker marker zero (c ∷ s) =
    let removed = without_marker marker 2 s in
    let kept = without_marker marker 0 s in if is_prefix marker (c ∷ s) then removed else c ∷ kept

abbrev pub opening : String
opening = "<<<"

abbrev pub closing : String
closing = ">>>"

unfoldable pub joined : String → String → String
joined [] t = t
joined (c ∷ s) t = c ∷ joined s t

-- The body of a fence.
unfoldable pub fence_body : String → String
unfolding without_marker trim
fence_body text = trim (without_marker closing 0 (without_marker opening 0 text))

-- `fenced`, cut before the last three characters.
unfoldable pub fence_start : String → String → String
unfolding fence_body
fence_start name text = joined opening (joined name (joined "\n" (joined (fence_body text) "\n")))

unfoldable pub fenced : String → String → String
unfolding fence_start
fenced name text = joined (fence_start name text) closing

-- `COMMITMENT_STEMS`
abbrev pub commitment_stems : List String
commitment_stems = Lists.◌∷◌ "refund" (
    Lists.◌∷◌ "credited" (
      Lists.◌∷◌ "discount" (
        Lists.◌∷◌ "voucher" (
          Lists.◌∷◌ "compensat" (
            Lists.◌∷◌ "reimburs"
              (Lists.◌∷◌ "goodwill" (Lists.◌∷◌ "waive" (Lists.◌∷◌ "free of charge" Lists.[]))))))))

-- `unbackedCommitments`
unfoldable pub unbacked_commitments : (String → String) → String → String → List String
unfolding includes
unbacked_commitments lowered text source =
    filter (λ stem. includes (lowered text) stem && not (includes (lowered source) stem))
      commitment_stems

-- An em dash or an en dash.
abbrev pub is_dash : ℕ → Bool
is_dash c = c == 0x2014 || c == 0x2013

abbrev pub is_blank : ℕ → Bool
is_blank c = c == 32 || c == 9

-- After which `^` fits under the flag `m`.
abbrev pub ends_line : ℕ → Bool
ends_line c = c == 10 || c == 13 || c == 0x2028 || c == 0x2029

-- Where the scan of a line is: in the blanks it begins with, behind its leading dash, or further on.
pub data LinePart : Type 0 where
  lead : (blanks : String) → LinePart
  dropped body : LinePart

abbrev pub after_char : ℕ → LinePart
after_char c = if ends_line c then lead [] else body

-- `replace(/^[ \t]*[—–][ \t]*/gm, "")`
unfoldable pub without_leading : LinePart → String → String
without_leading (lead blanks) [] = blanks
without_leading dropped [] = []
without_leading body [] = []
without_leading (lead blanks) (c ∷ s) =
    let blank = without_leading (lead (joined blanks (c ∷ []))) s in
    let cut = without_leading dropped s in
    let kept = without_leading (after_char (code c)) s in
    if is_blank (code c) then blank else if is_dash (code c) then cut else joined blanks (c ∷ kept)
without_leading dropped (c ∷ s) =
    let cut = without_leading dropped s in
    let kept = without_leading (after_char (code c)) s in
    if is_blank (code c) then cut else c ∷ kept
without_leading body (c ∷ s) = c ∷ without_leading (after_char (code c)) s

-- `/[,;:(]/`
abbrev pub is_punctuation : ℕ → Bool
is_punctuation c = c == b',' || c == b';' || c == b':' || c == b'('

-- What stands in for a dash behind a character.
abbrev pub stand_in : ℕ → String
stand_in previous = if is_punctuation previous then " " else ", "

-- Where the scan for dashes is: behind a match, or behind white space that may belong to one.
pub data DashPart : Type 0 where
  matched : DashPart
  since : (previous : ℕ) (spaces : String) → DashPart

abbrev pub separator : DashPart → String
separator matched = stand_in 32
separator (since previous spaces) = stand_in previous

abbrev pub held : DashPart → String
held matched = []
held (since previous spaces) = spaces

abbrev pub with_space : DashPart → Char → DashPart
with_space matched c = matched
with_space (since previous spaces) c = since previous (joined spaces (c ∷ []))

-- `replace(/\s*[—–]\s*/g, ...)`
unfoldable pub without_inner : DashPart → String → String
without_inner part [] = held part
without_inner part (c ∷ s) =
    let spaced = without_inner (with_space part c) s in
    let cut = without_inner matched s in
    let kept = without_inner (since (code c) []) s in
    if is_dash (code c)
    then joined (separator part) cut
    else if is_space (code c)
    then spaced
    else joined (held part) (c ∷ kept)

-- `withoutDashes`
unfoldable pub without_dashes : String → String
unfolding without_leading without_inner
without_dashes text = without_inner (since 0 []) (without_leading (lead []) text)

-- ===== src/Text.antt =====
-- The string work of apps/api/src/ingest.ts and apps/api/src/outbound.ts: JavaScript's `trim`, and
-- the regular expressions that strip angle brackets and reply prefixes, over code points.
pub mod Brackets
use Prim.Native.Char.{Char, code}
use Prim.Native.String
use Prim.Native.String.{[], ◌∷◌}
use mathlib.Core.List as Lists
use ticket_manager_system.Common.{
  List, ℕ, ◌+◌, String, Bool, true, false, ◌&&◌, ◌||◌, Option, none, some, leb, ◌==◌, if◌then◌else◌,
}

-- White space and line terminators: what `trim` removes and `\s` matches.
abbrev pub is_space : ℕ → Bool
is_space c =
    (leb 9 c && leb c 13)
    || c == 32
    || c == 160
    || c == 0x1680
    || (leb 0x2000 c && leb c 0x200a)
    || c == 0x2028
    || c == 0x2029
    || c == 0x202f
    || c == 0x205f
    || c == 0x3000
    || c == 0xfeff

abbrev pub is_empty : String → Bool
is_empty [] = true
is_empty (c ∷ s) = false

-- `length`, in UTF-16 code units.
unfoldable pub utf16_length : String → ℕ
utf16_length [] = 0
utf16_length (c ∷ s) = utf16_length s + (if leb 0x10000 (code c) then 2 else 1)

unfoldable pub trim_start : String → String
trim_start [] = []
trim_start (c ∷ s) = let rest = trim_start s in if is_space (code c) then rest else c ∷ s

unfoldable pub trim_end : String → String
trim_end [] = []
trim_end (c ∷ s) =
    let rest = trim_end s in if is_space (code c) && is_empty rest then [] else c ∷ rest

unfoldable pub trim : String → String
unfolding trim_start trim_end
trim s = trim_end (trim_start s)

-- `^<`
unfoldable pub drop_left : String → String
drop_left [] = []
drop_left (c ∷ s) = if code c == b'<' then s else c ∷ s

-- `>$`
unfoldable pub drop_right : String → String
drop_right [] = []
drop_right (c ∷ []) = if code c == b'>' then [] else c ∷ []
drop_right (c ∷ d ∷ s) = c ∷ drop_right (d ∷ s)

-- `list.join(separator)`
unfoldable pub join : String → List String → String
join separator Lists.[] = ""
join separator (Lists.◌∷◌ s Lists.[]) = s
join separator (Lists.◌∷◌ s (Lists.◌∷◌ t rest)) =
    String.◌++◌ s (String.◌++◌ separator (join separator (Lists.◌∷◌ t rest)))

unfoldable pub is_prefix : String → String → Bool
is_prefix [] s = true
is_prefix (p ∷ ps) [] = false
is_prefix (p ∷ ps) (c ∷ s) = code p == code c && is_prefix ps s

-- `s.includes(needle)`
unfoldable pub includes : String → String → Bool
unfolding is_prefix
includes [] needle = is_empty needle
includes (c ∷ s) needle = is_prefix needle (c ∷ s) || includes s needle

-- `value.trim().replace(/^<|>$/g, "")`
unfoldable pub strip_angles : String → String
unfolding trim drop_left drop_right
strip_angles value = drop_right (drop_left (trim value))

-- Case folding, as the `i` flag compares ASCII letters.
abbrev pub lower : ℕ → ℕ
lower c = if leb b'A' c && leb c b'Z' then c + 32 else c

-- `word:` at the front, in any case, and what follows it.
unfoldable pub after_prefix : String → String → Option String
after_prefix [] s = some s
after_prefix (p ∷ ps) [] = none
after_prefix (p ∷ ps) (c ∷ s) = if lower (code c) == code p then after_prefix ps s else none

abbrev pub or_else {ℓ} : {A : Type ℓ} → Option A → Option A → Option A
or_else none b = b
or_else (some a) b = some a

abbrev pub or_same : Option String → String → String
or_same none s = s
or_same (some rest) s = trim_start rest

-- `subject.replace(/^(re|fwd?):\s*/gi, "")`: one prefix, since `^` fits at the start only.
unfoldable pub strip_reply_prefix : String → String
unfolding after_prefix trim_start
strip_reply_prefix s =
    or_same
      (or_else (after_prefix "re:" s) (or_else (after_prefix "fw:" s) (after_prefix "fwd:" s))) s

-- The subject that a new ticket takes.
unfoldable pub ticket_subject : String → String
unfolding strip_reply_prefix trim
ticket_subject s =
    let cleaned = trim (strip_reply_prefix s) in
    if is_empty cleaned then "(no subject)" else cleaned

-- `replySubject`: the prefix once, in whatever case it came.
unfoldable pub reply_subject : String → String
unfolding after_prefix trim
reply_subject s =
    let trimmed = trim s in
    elim (after_prefix "re:" trimmed) [ none ↦ String.◌++◌ "Re: " trimmed | some rest ↦ trimmed ]

-- ===== src/Effectiveness.antt =====
-- How far a sent reply is from the draft it started as:
-- apps/api/src/routes/ticket-effectiveness-edit-distance.ts. A text is the list of its UTF-16 code
-- units, which is what `length` and `charCodeAt` count.
pub mod Levenshtein
pub mod Band
pub mod Table
pub mod Exact
use ticket_manager_system.Common.{
  ℕ, zero, suc, ◌+◌, ◌*◌, ◌-◌, ◌%◌, min, max, Bool, true, false, ◌&&◌, ◌||◌, Option, none, some,
  List, [], ◌∷◌, ltb, leb, ◌==◌, if◌then◌else◌, length, get_or, set, replicate,
}

-- `UNBOUNDED`, which is `Number.MAX_SAFE_INTEGER`.
abbrev pub unbounded : ℕ
unbounded = 9007199254740991

-- What an `Int32Array` keeps of a number that is not negative, read without a sign.
abbrev pub int32 : ℕ → ℕ
int32 v = v % 4294967296

abbrev pub Text : Type 0
Text = List ℕ

-- `Math.abs(x - y)`
abbrev pub abs_diff : ℕ → ℕ → ℕ
abs_diff x y = (x - y) + (y - x)

-- `prevAt`
abbrev pub prev_at : List ℕ → ℕ → ℕ → ℕ → ℕ
prev_at prev lo hi j = if ltb j lo || ltb hi j then unbounded else get_or prev j 0

-- `charCodeAt`; the loops stay within both texts.
abbrev pub char_code_at : Text → ℕ → ℕ
char_code_at a i = get_or a i 0

abbrev pub cost_at : Text → Text → ℕ → ℕ → ℕ
cost_at a b i j = if char_code_at a i == char_code_at b j then 0 else 1

-- The two rows of the table and the band of the older one.
pub record Rows : Type 0 where
  pub prev : List ℕ
  pub curr : List ℕ
  pub prev_lo : ℕ
  pub prev_hi : ℕ

module _ (a b : Text) where
  -- The body of the inner loop.
  unfoldable pub fill_cell : Rows → ℕ → ℕ → ℕ → List ℕ → List ℕ
  fill_cell r i j_lo j curr =
      let substitute = prev_at r.prev r.prev_lo r.prev_hi (j - 1) + cost_at a b (i - 1) (j - 1) in
      let delete_from_a = prev_at r.prev r.prev_lo r.prev_hi j + 1 in
      let insert_from_b = (if leb j_lo (j - 1) then get_or curr (j - 1) 0 else unbounded) + 1 in
      set curr j (int32 (min (min substitute delete_from_a) insert_from_b))

  -- The inner loop, by the rounds that are left.
  unfoldable pub fill_row : ℕ → Rows → ℕ → ℕ → ℕ → List ℕ → List ℕ
  unfolding fill_cell
  fill_row zero r i j_lo j curr = curr
  fill_row (suc rounds) r i j_lo j curr =
      fill_row rounds r i j_lo (suc j) (fill_cell r i j_lo j curr)

  -- The body of the outer loop.
  unfoldable pub next_row : ℕ → ℕ → Rows → Rows
  unfolding fill_row
  next_row k i r =
      let j_lo = i - k in
      let j_hi = min (length b) (i + k) in
      let first = max 1 j_lo in
      let curr = if j_lo == 0 then set r.curr 0 (int32 i) else r.curr in
      record {
        prev = fill_row (j_hi + 1 - first) r i j_lo first curr;
        curr = r.prev;
        prev_lo = j_lo;
        prev_hi = j_hi;
      }

  unfoldable pub next_rows : ℕ → ℕ → ℕ → Rows → Rows
  unfolding next_row
  next_rows zero k i r = r
  next_rows (suc rounds) k i r = next_rows rounds k (suc i) (next_row k i r)

-- `for (let j = prevLo; j <= prevHi; j++) prev[j] = j`
unfoldable pub first_row : ℕ → ℕ → List ℕ → List ℕ
first_row zero j row = row
first_row (suc rounds) j row = first_row rounds (suc j) (set row j (int32 j))

abbrev pub initial_rows : Text → ℕ → Rows
initial_rows b k = record {
  prev = first_row (min (length b) k + 1) 0 (replicate (length b + 1) 0);
  curr = replicate (length b + 1) 0;
  prev_lo = 0;
  prev_hi = min (length b) k;
}

abbrev pub result_of : Text → Rows → ℕ
result_of b r = prev_at r.prev r.prev_lo r.prev_hi (length b)

unfoldable pub banded_distance : Text → Text → ℕ → ℕ
unfolding next_rows first_row
banded_distance a b k =
    if ltb k (abs_diff (length a) (length b))
    then k + 1
    else result_of b (next_rows a b (length a) k 1 (initial_rows b k))

-- `while (true)`, with fuel.
unfoldable pub widen : ℕ → Text → Text → ℕ → ℕ → Option ℕ
unfolding banded_distance
widen zero a b full k = none
widen (suc fuel) a b full k =
    let rest = widen fuel a b full (min (k * 2) full) in
    let distance = banded_distance a b k in
    if leb distance k || leb full k then some distance else rest

unfoldable pub text_eq : Text → Text → Bool
text_eq [] [] = true
text_eq [] (y ∷ b) = false
text_eq (x ∷ a) [] = false
text_eq (x ∷ a) (y ∷ b) = x == y && text_eq a b

-- `editDistance`; the loop gets a round for each radius.
unfoldable pub edit_distance : Text → Text → Option ℕ
unfolding text_eq widen
edit_distance a b =
    let n = length a in
    let m = length b in
    let full = max n m in
    let wide = widen (full + 1) a b full (min (max 1 (abs_diff n m)) full) in
    if text_eq a b then some 0 else if n == 0 then some m else if m == 0 then some n else wide

-- ===== src/Effectiveness/Table.antt =====
-- The table of `bandedDistance`, from its first row to its last.
use ticket_manager_system.Common.{
  ℕ, zero, suc, ◌+◌, ◌-◌, ◌≤◌, ◌<◌, min, max, ◌≡◌, refl, subst, ◌∙◌, inl, inr, List, arith, ltb,
  ◌==◌, if◌then◌else◌, false, Bool-cases, length, get_or, set, replicate, length-set,
  length-replicate, get_or-set_self,
}
use ticket_manager_system.Effectiveness.{
  Text, int32, abs_diff, Rows, fill_row, next_row, next_rows, first_row, initial_rows,
  banded_distance,
}
use ticket_manager_system.Effectiveness.Levenshtein.{levenshtein}
use ticket_manager_system.Effectiveness.Band.{
  StandsFor, IsRow, IsTable, set-cells, prev_at-StandsFor, fill_row-IsRow,
}

-- The first row counts the columns.
first_row-counts :
    (m rounds j : ℕ) (row : List ℕ)
    → m < 2147483648
    → length row ≡ m + 1
    → j + rounds ≤ m + 1
    → ((x : ℕ) → 0 ≤ x → x < j → get_or row x 0 ≡ x)
    → (length (first_row rounds j row) ≡ m + 1)
      × ((x : ℕ) → x < j + rounds → get_or (first_row rounds j row) x 0 ≡ x)
unfolding first_row
first_row-counts m zero j row small size inside h = (size, λ x lt. h x (omega arith) (omega arith))
first_row-counts m (suc rounds) j row small size inside h =
    let kept : int32 j ≡ j = omega arith in
    let (size', h') =
      first_row-counts m rounds (suc j) (set row j (int32 j)) small
        (length-set row j (int32 j) ∙ size) (omega arith)
        (set-cells (λ x v. v ≡ x) 0 j (int32 j) row (omega arith) kept h) in
    (size', λ x lt. h' x (omega arith))

module _ (a b : Text) (k : ℕ) (short : length b < 2147483648) where
  initial_rows-IsTable : IsTable a b k short 0 (initial_rows b k)
  unfolding levenshtein
  initial_rows-IsTable =
      let (size, counts) =
        first_row-counts (length b) (min (length b) k + 1) 0 (replicate (length b + 1) 0) short
          (length-replicate (length b + 1) 0) (omega arith) (λ x f lt. absurd (omega arith)) in
      record {
        row = record {
          size = size;
          cells = λ j from to. record {
            below = omega (arith, counts j (omega arith));
            exact = inr (counts j (omega arith));
          };
          bounded = λ j from to. omega (arith, counts j (omega arith));
        };
        band = record { low = omega arith; high = omega arith };
        scratch = length-replicate (length b + 1) 0;
      }

  module _ (i : ℕ) (r : Rows) (small : suc i < 2147483648) (t : IsTable a b k short i r) where
    -- Column 0 of a round, where the band reaches it.
    opened_row :
        IsRow a b k short
          (suc i)
          (suc i - k)
          (max 1 (suc i - k) - 1)
          (if (suc i - k) == 0 then set r.curr 0 (int32 (suc i)) else r.curr)
    unfolding levenshtein
    opened_row = elim (Bool-cases ((suc i - k) == 0)) [
      | inl low ↦
          let lo : suc i - k ≡ 0 = ground (arith, low) in
          let first : get_or (set r.curr 0 (int32 (suc i))) 0 0 ≡ int32 (suc i) =
            get_or-set_self r.curr 0 (int32 (suc i)) 0 (omega (arith, t.scratch)) in
          let kept : int32 (suc i) ≡ suc i = omega arith in
          rw low (record {
            size = length-set r.curr 0 (int32 (suc i)) ∙ t.scratch;
            cells = λ j from to.
                let at : 0 ≡ j = omega arith in
                subst
                  (λ y.
                    StandsFor k (levenshtein a b (suc i) y)
                      (get_or (set r.curr 0 (int32 (suc i))) y 0))
                  at (record { below = omega (arith, first, kept); exact = inr (first ∙ kept) });
            bounded = λ j from to.
                let at : 0 ≡ j = omega arith in
                subst (λ y. get_or (set r.curr 0 (int32 (suc i))) y 0 ≤ max (suc i) y) at
                  (omega (arith, first, kept));
          })
      | inr past ↦ rw past (record {
        size = t.scratch;
        cells = λ j from to. absurd (ground (arith, past));
        bounded = λ j from to. absurd (ground (arith, past));
      })
    ]

    filled_row :
        suc i - k ≤ length b
        → IsRow a b k short (suc i) (suc i - k) (min (length b) (suc i + k)) (
            fill_row a b
              (min (length b) (suc i + k) + 1 - max 1 (suc i - k))
              r
              (suc i)
              (suc i - k)
              (max 1 (suc i - k))
              (if (suc i - k) == 0 then set r.curr 0 (int32 (suc i)) else r.curr))
    filled_row reach =
        let rounds = min (length b) (suc i + k) + 1 - max 1 (suc i - k) in
        let before = max 1 (suc i - k) - 1 in
        let curr = if (suc i - k) == 0 then set r.curr 0 (int32 (suc i)) else r.curr in
        let last : before + rounds ≡ min (length b) (suc i + k) = omega arith in
        let first : suc before ≡ max 1 (suc i - k) = omega arith in
        subst
          (λ x.
            IsRow a b k short (suc i) (suc i - k) (min (length b) (suc i + k))
              (fill_row a b rounds r (suc i) (suc i - k) x curr))
          first
          (subst
            (λ x.
              IsRow a b k short (suc i) (suc i - k) x
                (fill_row a b rounds r (suc i) (suc i - k) (suc before) curr))
            last
            (fill_row-IsRow a b k short i r small t rounds before curr (omega arith) (omega arith)
              (omega arith) opened_row))

    next_row-IsTable : suc i - k ≤ length b → IsTable a b k short (suc i) (next_row a b k (suc i) r)
    unfolding next_row
    next_row-IsTable reach = record {
      row = filled_row reach;
      band = record { low = refl; high = refl };
      scratch = t.row.size;
    }

  next_rows-IsTable :
      (rounds i : ℕ) (r : Rows)
      → i + rounds < 2147483648
      → i + rounds - k ≤ length b
      → IsTable a b k short i r
      → IsTable a b k short (i + rounds) (next_rows a b rounds k (suc i) r)
  unfolding next_rows
  next_rows-IsTable zero i r small reach t = let same : i + 0 ≡ i = omega arith in rw same t
  next_rows-IsTable (suc rounds) i r small reach t =
      let same : i + suc rounds ≡ suc i + rounds = omega arith in
      rw same (
        next_rows-IsTable rounds (suc i) (next_row a b k (suc i) r) (omega arith) (omega arith)
          (next_row-IsTable i r (omega arith) t (omega arith)))

  -- Within the radius the result is the distance, and beyond it the result is beyond it too.
  pub banded_distance-StandsFor :
      length a < 2147483648
      → abs_diff (length a) (length b) ≤ k
      → StandsFor k (levenshtein a b (length a) (length b)) (banded_distance a b k)
  unfolding banded_distance
  banded_distance-StandsFor small near =
      let zero_add : 0 + length a ≡ length a = omega arith in
      let t =
        subst (λ i. IsTable a b k short i (next_rows a b (length a) k 1 (initial_rows b k)))
          zero_add
          (next_rows-IsTable (length a) 0 (initial_rows b k) (omega arith) (omega arith)
            initial_rows-IsTable) in
      let reached : ltb k (abs_diff (length a) (length b)) ≡ false = ground arith in
      rw reached
        (prev_at-StandsFor a b k short (length a) _ _ (length b) _ small t.row t.band (omega arith))

-- ===== src/Effectiveness/Levenshtein.antt =====
-- The distance that apps/api/src/routes/ticket-effectiveness-edit-distance.ts is to compute.
use ticket_manager_system.Common.{ℕ, zero, suc, ◌+◌, ◌-◌, ◌≤◌, min, max, ◌≡◌, refl, arith}
use ticket_manager_system.Effectiveness.{Text, cost_at}

module _ (a b : Text) where
  -- Between the first `i` units of one text and the first `j` of the other.
  unfoldable pub levenshtein : ℕ → ℕ → ℕ
  levenshtein zero j = j
  levenshtein (suc i) zero = suc i
  levenshtein (suc i) (suc j) =
      min (min (levenshtein i j + cost_at a b i j) (levenshtein i (suc j) + 1))
        (levenshtein (suc i) j + 1)

  pub levenshtein_zero : (i : ℕ) → levenshtein i 0 ≡ i
  unfolding levenshtein
  levenshtein_zero zero = refl
  levenshtein_zero (suc i) = refl

  pub cost_bound : (i j : ℕ) → cost_at a b i j ≤ 1
  cost_bound i j = ground arith

  pub levenshtein_bounds :
      (i j : ℕ)
      → (i - j ≤ levenshtein i j) × (j - i ≤ levenshtein i j) × (levenshtein i j ≤ max i j)
  unfolding levenshtein
  levenshtein_bounds zero j = omega arith
  levenshtein_bounds (suc i) zero = omega arith
  levenshtein_bounds (suc i) (suc j) = omega (
    arith,
    cost_bound i j,
    levenshtein_bounds i j,
    levenshtein_bounds i (suc j),
    levenshtein_bounds (suc i) j,
  )

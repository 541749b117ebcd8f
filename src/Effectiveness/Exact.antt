-- ===== src/Effectiveness/Exact.antt =====
-- `editDistance` of apps/api/src/routes/ticket-effectiveness-edit-distance.ts against the distance.
use ticket_manager_system.Common.{
  ℕ, zero, suc, ◌+◌, ◌*◌, ◌≤◌, ◌<◌, min, max, ◌≡◌, refl, sym, ap, ◌∙◌, inl, inr, true, ◌||◌, some,
  [], ◌∷◌, arith, leb, ◌==◌, Bool-cases, length,
}
use ticket_manager_system.Effectiveness.{
  Text, abs_diff, banded_distance, widen, text_eq, edit_distance,
}
use ticket_manager_system.Effectiveness.Levenshtein.{levenshtein, levenshtein_bounds}
use ticket_manager_system.Effectiveness.Table.{banded_distance-StandsFor}

text_eq_sound : (a b : Text) → text_eq a b ≡ true → a ≡ b
unfolding text_eq
text_eq_sound [] [] e = refl
text_eq_sound [] (y ∷ b) e = ground (arith, e)
text_eq_sound (x ∷ a) [] e = ground (arith, e)
text_eq_sound (x ∷ a) (y ∷ b) e = ground (arith, e, text_eq_sound a b)

levenshtein_self : (a : Text) (i : ℕ) → levenshtein a a i i ≡ 0
unfolding levenshtein
levenshtein_self a zero = refl
levenshtein_self a (suc i) = ground (arith, levenshtein_self a i)

-- The radius only grows, and a radius of the longer text reaches the whole table.
widen-levenshtein :
    (fuel : ℕ) (a b : Text) (k : ℕ)
    → length a < 2147483648
    → length b < 2147483648
    → abs_diff (length a) (length b) ≤ k
    → 1 ≤ k
    → k ≤ max (length a) (length b)
    → max (length a) (length b) < fuel + k
    → widen fuel a b (max (length a) (length b)) k ≡ some (levenshtein a b (length a) (length b))
unfolding widen
widen-levenshtein zero a b k short short' near pos within enough = absurd (omega arith)
widen-levenshtein (suc fuel) a b k short short' near pos within enough =
    let d = banded_distance-StandsFor a b k short' short near in
    elim (Bool-cases (leb (banded_distance a b k) k || leb (max (length a) (length b)) k)) [
      | inl done ↦ rw done (
          ap some
            (ground (arith, done, d.exact, d.below, levenshtein_bounds a b (length a) (length b))))
      | inr wider ↦ rw wider (
          widen-levenshtein fuel a b (min (k * 2) (max (length a) (length b))) short short'
            (omega arith) (omega arith) (omega arith) (ground (arith, wider)))
    ]

-- The loop comes to an end within its rounds, and what it returns is the Levenshtein distance of the
-- two texts, for any two texts that are shorter than 2 ^ 31 units.
pub edit_distance-eq-levenshtein :
    (a b : Text)
    → length a < 2147483648
    → length b < 2147483648
    → edit_distance a b ≡ some (levenshtein a b (length a) (length b))
unfolding edit_distance
edit_distance-eq-levenshtein a b short short' = elim (Bool-cases (text_eq a b)) [
  | inl same ↦ rw same (
      ap some (
        sym (
          ap (λ b. levenshtein a b (length a) (length b)) (sym (text_eq_sound a b same))
          ∙ levenshtein_self a (length a))))
  | inr other ↦ rw other (elim (Bool-cases (length a == 0)) [
    | inl no_a ↦
        rw no_a (ap some (ground (arith, no_a, levenshtein_bounds a b (length a) (length b))))
    | inr some_a ↦ rw some_a (elim (Bool-cases (length b == 0)) [
      | inl no_b ↦
          rw no_b (ap some (ground (arith, no_b, levenshtein_bounds a b (length a) (length b))))
      | inr some_b ↦ rw some_b (
          widen-levenshtein (max (length a) (length b) + 1) a b _ short short'
            (ground (arith, some_a, some_b)) (ground (arith, some_a, some_b))
            (ground (arith, some_a, some_b)) (ground (arith, some_a, some_b)))
    ])
  ])
]

-- ===== src/Retention/Batches.antt =====
-- Deleting in batches, of apps/api/src/jobs/prune-batching.ts: what stays and what goes.
use mathlib.Core.List.{Memᴰ}
use mathlib.Core.List.Memᴰ
use ticket_manager_system.Common.{
  ℕ, zero, suc, ◌+◌, ◌-◌, ◌≤◌, ◌≡◌, refl, sym, ap, subst, ◌∙◌, inl, inr, Bool, true, false, not,
  List, [], ◌∷◌, arith, leb, filter, length, take, All, Bool-cases, length-filter-le,
}
use ticket_manager_system.Retention.{insert_oldest, oldest_first}

module _ {A : Type 0} (p : A → Bool) where
  pub Mem-filter : (rows : List A) (r : A) → Memᴰ r rows → p r ≡ true → Memᴰ r (filter p rows)
  Mem-filter [] r m e = absurd (Memᴰ.not-nil m)
  Mem-filter (x ∷ rows) r (Memᴰ.head same) e = rw (ap p (sym same) ∙ e) (Memᴰ.head same)
  Mem-filter (x ∷ rows) r (Memᴰ.tail m) e = elim (Bool-cases (p x)) [
    | inl fits ↦ rw fits (Memᴰ.tail (Mem-filter rows r m e))
    | inr fails ↦ rw fails (Mem-filter rows r m e)
  ]

  pub Mem-of_filter : (rows : List A) (r : A) → Memᴰ r (filter p rows) → Memᴰ r rows × (p r ≡ true)
  Mem-of_filter [] r m = absurd (Memᴰ.not-nil m)
  Mem-of_filter (x ∷ rows) r m = elim (Bool-cases (p x)) [
    | inl fits ↦ elim (Memᴰ.cases_cons (subst (Memᴰ r) (rw fits refl) m)) [
      | inl same ↦ (Memᴰ.head same, ap p same ∙ fits)
      | inr below ↦ let (there, fit) = Mem-of_filter rows r below in (Memᴰ.tail there, fit)
    ]
    | inr fails ↦
        let (there, fit) = Mem-of_filter rows r (subst (Memᴰ r) (rw fails refl) m) in
        (Memᴰ.tail there, fit)
  ]

  -- Where none fits, leaving out those that fit changes nothing.
  pub filter-none_left :
      (rows : List A) → length (filter p rows) ≡ 0 → filter (λ r. not (p r)) rows ≡ rows
  filter-none_left [] e = refl
  filter-none_left (x ∷ rows) e = elim (Bool-cases (p x)) [
    | inl fits ↦ absurd (ground (arith, rw fits at e))
    | inr fails ↦ rw fails (ap (λ xs. x ∷ xs) (filter-none_left rows (rw fails at e)))
  ]

  -- A test that fails on the first items leaves no more than the others.
  pub filter-drops :
      (n : ℕ) (rows : List A)
      → All (λ r. p r ≡ false) (take n rows)
      → length (filter p rows) + n ≤ length rows + (n - length rows)
  filter-drops zero rows h = omega (arith, length-filter-le p rows)
  filter-drops (suc n) [] h = omega arith
  filter-drops (suc n) (x ∷ rows) h = rw h.0 (omega (arith, filter-drops n rows h.1))

module _ {A : Type 0} (created_at : A → ℕ) (p : A → Bool) where
  length-insert :
      (r : A) (rows : List A)
      → length (filter p (insert_oldest created_at r rows)) ≡ length (filter p (r ∷ rows))
  unfolding insert_oldest
  length-insert r [] = refl
  length-insert r (x ∷ rows) = elim (Bool-cases (leb (created_at r) (created_at x))) [
    | inl first ↦ rw (first, insert_oldest) refl
    | inr later ↦ rw (later, insert_oldest) (ground (arith, length-insert r rows))
  ]

  pub length-oldest_first :
      (rows : List A) → length (filter p (oldest_first created_at rows)) ≡ length (filter p rows)
  unfolding oldest_first
  length-oldest_first [] = refl
  length-oldest_first (r ∷ rows) =
      length-insert r (oldest_first created_at rows) ∙ ground (arith, length-oldest_first rows)

module _ {A : Type 0} where
  length-insert_all :
      (created_at : A → ℕ) (r : A) (rows : List A)
      → length (insert_oldest created_at r rows) ≡ suc (length rows)
  unfolding insert_oldest
  length-insert_all created_at r [] = refl
  length-insert_all created_at r (x ∷ rows) =
      elim (Bool-cases (leb (created_at r) (created_at x))) [
        | inl first ↦ rw (first, insert_oldest) refl
        | inr later ↦ rw (later, insert_oldest) (ap suc (length-insert_all created_at r rows))
      ]

  pub length-oldest_all :
      (created_at : A → ℕ) (rows : List A) → length (oldest_first created_at rows) ≡ length rows
  unfolding oldest_first
  length-oldest_all created_at [] = refl
  length-oldest_all created_at (r ∷ rows) =
      length-insert_all created_at r (oldest_first created_at rows)
      ∙ ap suc (length-oldest_all created_at rows)

  pub length-take : (n : ℕ) (rows : List A) → length (take n rows) + (length rows - n) ≡ length rows
  length-take zero rows = omega arith
  length-take (suc n) [] = omega arith
  length-take (suc n) (x ∷ rows) = omega (arith, length-take n rows)

  pub All-of_Mem {κ} : (P : A → Type κ) (rows : List A) → ((r : A) → Memᴰ r rows → P r) → All P rows
  All-of_Mem P [] f = tt
  All-of_Mem P (x ∷ rows) f = (f x (Memᴰ.head refl), All-of_Mem P rows (λ r m. f r (Memᴰ.tail m)))

  pub Mem-of_All {κ} : (P : A → Type κ) (rows : List A) (r : A) → All P rows → Memᴰ r rows → P r
  Mem-of_All P [] r h m = absurd (Memᴰ.not-nil m)
  Mem-of_All P (x ∷ rows) r h (Memᴰ.head same) = subst P (sym same) h.0
  Mem-of_All P (x ∷ rows) r h (Memᴰ.tail m) = Mem-of_All P rows r h.1 m

  All-insert {κ} :
      (P : A → Type κ) (created_at : A → ℕ) (r : A) (rows : List A)
      → P r
      → All P rows
      → All P (insert_oldest created_at r rows)
  unfolding insert_oldest
  All-insert P created_at r [] p h = (p, tt)
  All-insert P created_at r (x ∷ rows) p h = elim (Bool-cases (leb (created_at r) (created_at x))) [
    | inl first ↦ rw (first, insert_oldest) (p, h)
    | inr later ↦ rw (later, insert_oldest) (h.0, All-insert P created_at r rows p h.1)
  ]

  pub All-oldest_first {κ} :
      (P : A → Type κ) (created_at : A → ℕ) (rows : List A)
      → All P rows
      → All P (oldest_first created_at rows)
  unfolding oldest_first
  All-oldest_first P created_at [] h = tt
  All-oldest_first P created_at (r ∷ rows) h =
      All-insert P created_at r (oldest_first created_at rows) h.0
        (All-oldest_first P created_at rows h.1)

  pub All-take {κ} : (P : A → Type κ) (n : ℕ) (rows : List A) → All P rows → All P (take n rows)
  All-take P zero rows h = tt
  All-take P (suc n) [] h = tt
  All-take P (suc n) (x ∷ rows) h = (h.0, All-take P n rows h.1)

  -- What every item that the outer test fits fits too is no further test.
  pub filter-kept :
      (q p : A → Bool) (rows : List A)
      → ((r : A) → Memᴰ r rows → q r ≡ true → p r ≡ true)
      → filter q (filter p rows) ≡ filter q rows
  filter-kept q p [] f = refl
  filter-kept q p (x ∷ rows) f = elim (Bool-cases (q x)) [
    | inl fits ↦
        let kept = f x (Memᴰ.head refl) fits in
        rw (kept, fits) (ap (λ xs. x ∷ xs) (filter-kept q p rows (λ r m. f r (Memᴰ.tail m))))
    | inr fails ↦ elim (Bool-cases (p x)) [
      | inl there ↦ rw (there, fails) (filter-kept q p rows (λ r m. f r (Memᴰ.tail m)))
      | inr gone ↦ rw (gone, fails) (filter-kept q p rows (λ r m. f r (Memᴰ.tail m)))
    ]
  ]

  pub filter-swap :
      (q p p' : A → Bool) (rows : List A)
      → ((r : A) → q r ≡ true → p r ≡ p' r)
      → filter q (filter p rows) ≡ filter p' (filter q rows)
  filter-swap q p p' [] f = refl
  filter-swap q p p' (x ∷ rows) f = elim (Bool-cases (q x)) [
    | inl fits ↦ ground (arith, fits, f x fits, filter-swap q p p' rows f)
    | inr fails ↦ ground (arith, fails, filter-swap q p p' rows f)
  ]

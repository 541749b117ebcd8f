-- ===== src/Desk/Table.antt =====
-- A table with a primary key, as Prisma's client reads and writes it: `findUnique` by the key, and
-- `updateMany` by the key and a further condition, whose `count` says whether a row was written.
use ticket_manager_system.Common.{
  ℕ, ◌≡◌, refl, Bool, false, Option, none, some, List, [], ◌∷◌, ◌++◌, ◌==◌, if◌then◌else◌, arith,
}

module _ {ℓ} {A : Type ℓ} (key : A → ℕ) where
  unfoldable pub find : ℕ → List A → Option A
  find i [] = none
  find i (r ∷ rows) = if key r == i then some r else find i rows

  -- The row with the key, where it fits the condition, is written anew.
  unfoldable pub update : ℕ → (A → Bool) → (A → A) → List A → List A
  update i fits f [] = []
  update i fits f (r ∷ rows) =
      if key r == i then (if fits r then f r else r) ∷ rows else r ∷ update i fits f rows

abbrev pub fits_some {ℓ} : {A : Type ℓ} → (A → Bool) → Option A → Bool
fits_some fits none = false
fits_some fits (some r) = fits r

-- A row after the write.
abbrev pub written {ℓ} : {A : Type ℓ} → (A → Bool) → (A → A) → Option A → Option A
written fits f none = none
written fits f (some r) = some (if fits r then f r else r)

module _ {ℓ} {A : Type ℓ} (key : A → ℕ) where
  pub find-key : (i : ℕ) (rows : List A) (r : A) → find key i rows ≡ some r → key r ≡ i
  unfolding find
  find-key i [] r e = cc
  find-key i (x ∷ rows) r e = ground (arith, find-key i rows r)

  pub find-append :
      (i : ℕ) (rows : List A) (r : A)
      → find key i (rows ++ r ∷ [])
        ≡ elim (find key i rows) [ some x ↦ some x | none ↦ if key r == i then some r else none ]
  unfolding find
  find-append i [] r = refl
  find-append i (x ∷ rows) r = ground (arith, find-append i rows r)

module _ {ℓ} {A : Type ℓ} (key : A → ℕ) (fits : A → Bool) (f : A → A)
    (same : (r : A) → key (f r) ≡ key r) where
  pub find-update_self :
      (i : ℕ) (rows : List A)
      → find key i (update key i fits f rows) ≡ written fits f (find key i rows)
  unfolding find update
  find-update_self i [] = refl
  find-update_self i (r ∷ rows) = ground (arith, same r, find-update_self i rows)

  pub find-update_other :
      (i j : ℕ) (rows : List A)
      → (i == j) ≡ false
      → find key j (update key i fits f rows) ≡ find key j rows
  unfolding find update
  find-update_other i j [] h = refl
  find-update_other i j (r ∷ rows) h = ground (arith, same r, find-update_other i j rows)

  -- A row that does not fit stays as it is, whichever key is written.
  pub find-update_kept :
      (i j : ℕ) (rows : List A) (r : A)
      → find key j rows ≡ some r
      → fits r ≡ false
      → find key j (update key i fits f rows) ≡ some r
  unfolding find update
  find-update_kept i j [] r found misfit = found
  find-update_kept i j (x ∷ rows) r found misfit =
      ground (arith, same x, find-update_kept i j rows r)

-- What a read of a row gives, where there is one.
abbrev pub read_of {ℓ κ} : {A : Type ℓ} → {B : Type κ} → (A → B) → Option A → Option B
read_of g none = none
read_of g (some r) = some (g r)

module _ {ℓ κ} {A : Type ℓ} {B : Type κ} (key : A → ℕ) (fits : A → Bool) (f : A → A) (g : A → B)
    (same : (r : A) → key (f r) ≡ key r) (kept : (r : A) → g (f r) ≡ g r) where
  -- What a write does not touch reads the same afterwards, whichever key is read.
  pub find-update_field :
      (i j : ℕ) (rows : List A)
      → read_of g (find key j (update key i fits f rows)) ≡ read_of g (find key j rows)
  unfolding find update
  find-update_field i j [] = refl
  find-update_field i j (r ∷ rows) = ground (arith, same r, kept r, find-update_field i j rows)

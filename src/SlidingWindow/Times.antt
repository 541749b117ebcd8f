-- ===== src/SlidingWindow/Times.antt =====
-- The laws of the admissions map of apps/api/src/sliding-window.ts, its pruning and its sweep.
use text.Mathlib.TextEquality.{eq_iff}
use ticket_manager_system.Common.{
  ℕ, ◌-◌, ◌≤◌, String, ◌≡◌, refl, sym, Bool, true, false, ◌||◌, none, some, List, [], ◌∷◌, ◌++◌,
  arith, ltb, str_eq, if◌then◌else◌, inl, inr, Bool-cases, Option-cases, filter, get_last?, All,
  length,
}
use ticket_manager_system.SlidingWindow.{times, set_times, sweep, is_recent, is_live}

pub times-set_times :
    (k j : String) (ts : List ℕ) (m : List (String × List ℕ))
    → times j (set_times k ts m) ≡ (if str_eq k j then ts else times j m)
unfolding times set_times
times-set_times k j ts [] = refl
times-set_times k j ts ((i, old) ∷ m) =
    ground (arith, eq_iff k j, eq_iff i k, eq_iff i j, times-set_times k j ts m)

-- Whether a key has an entry.
abbrev pub has : String → List (String × List ℕ) → Bool
has j [] = false
has j ((k, ts) ∷ m) = str_eq k j || has j m

pub times-absent : (j : String) (m : List (String × List ℕ)) → has j m ≡ false → times j m ≡ []
unfolding times
times-absent j [] h = refl
times-absent j ((k, ts) ∷ m) h = ground (arith, times-absent j m)

has-set_times :
    (k j : String) (ts : List ℕ) (m : List (String × List ℕ))
    → has j (set_times k ts m) ≡ (str_eq k j || has j m)
unfolding set_times
has-set_times k j ts [] = refl
has-set_times k j ts ((i, old) ∷ m) =
    ground (arith, eq_iff k j, eq_iff i k, eq_iff i j, has-set_times k j ts m)

has-sweep :
    (window now : ℕ) (j : String) (m : List (String × List ℕ))
    → has j m ≡ false
    → has j (sweep window now m) ≡ false
unfolding sweep
has-sweep window now j [] h = refl
has-sweep window now j ((k, ts) ∷ m) h = ground (arith, has-sweep window now j m)

-- Oldest first.
abbrev pub Ascending : List ℕ → Type 0
Ascending [] = Unit {0}
Ascending (x ∷ xs) = All (λ y. x ≤ y) xs × Ascending xs

All-filter {κ} : (P : ℕ → Type κ) (p : ℕ → Bool) (xs : List ℕ) → All P xs → All P (filter p xs)
All-filter P p [] h = tt
All-filter P p (x ∷ xs) h = elim (Bool-cases (p x)) [
  | inl e ↦ rw e (h.0, All-filter P p xs h.1)
  | inr e ↦ rw e (All-filter P p xs h.1)
]

pub filter-Ascending : (p : ℕ → Bool) (xs : List ℕ) → Ascending xs → Ascending (filter p xs)
filter-Ascending p [] h = tt
filter-Ascending p (x ∷ xs) h = elim (Bool-cases (p x)) [
  | inl e ↦ rw e (All-filter (λ y. x ≤ y) p xs h.0, filter-Ascending p xs h.1)
  | inr e ↦ rw e (filter-Ascending p xs h.1)
]

-- No time lies past `t`.
abbrev pub UpTo : ℕ → List ℕ → Type 0
UpTo t = All (λ x. x ≤ t)

pub UpTo-mono : (t t' : ℕ) (xs : List ℕ) → t ≤ t' → UpTo t xs → UpTo t' xs
UpTo-mono t t' [] h u = tt
UpTo-mono t t' (x ∷ xs) h u = (omega arith, UpTo-mono t t' xs h u.1)

pub filter-UpTo : (t : ℕ) (p : ℕ → Bool) (xs : List ℕ) → UpTo t xs → UpTo t (filter p xs)
filter-UpTo t p xs h = All-filter (λ x. x ≤ t) p xs h

pub append-UpTo : (t : ℕ) (xs : List ℕ) → UpTo t xs → UpTo t (xs ++ t ∷ [])
append-UpTo t [] h = omega arith
append-UpTo t (x ∷ xs) h = (h.0, append-UpTo t xs h.1)

All-concat : (x t : ℕ) (xs : List ℕ) → x ≤ t → All (λ y. x ≤ y) xs → All (λ y. x ≤ y) (xs ++ t ∷ [])
All-concat x t [] h k = (h, tt)
All-concat x t (y ∷ xs) h k = (k.0, All-concat x t xs h k.1)

pub append-Ascending : (t : ℕ) (xs : List ℕ) → Ascending xs → UpTo t xs → Ascending (xs ++ t ∷ [])
append-Ascending t [] a u = (tt, tt)
append-Ascending t (x ∷ xs) a u = (All-concat x t xs u.0 a.0, append-Ascending t xs a.1 u.1)

All-last : (x : ℕ) (xs : List ℕ) (l : ℕ) → All (λ y. x ≤ y) xs → get_last? xs ≡ some l → x ≤ l
All-last x [] l h e = absurd (cc)
All-last x (y ∷ []) l h e = ground arith
All-last x (y ∷ z ∷ xs) l h e = All-last x (z ∷ xs) l h.1 e

-- Once the newest has left the window, so have all.
pub filter-expired :
    (window now : ℕ) (xs : List ℕ) (l : ℕ)
    → Ascending xs
    → get_last? xs ≡ some l
    → window ≤ now - l
    → filter (is_recent window now) xs ≡ []
filter-expired window now [] l a e h = refl
filter-expired window now (x ∷ []) l a e h = ground arith
filter-expired window now (x ∷ y ∷ xs) l a e h =
    ground (arith, filter-expired window now (y ∷ xs) l a.1 e h, All-last x (y ∷ xs) l a.0 e)

-- Pruning at an earlier instant loses nothing that a later one would still count.
pub filter-filter :
    (window now later : ℕ) (xs : List ℕ)
    → now ≤ later
    → filter (is_recent window later) (filter (is_recent window now) xs)
      ≡ filter (is_recent window later) xs
filter-filter window now later [] h = refl
filter-filter window now later (x ∷ xs) h = ground (arith, filter-filter window now later xs h)

pub length-filter-later :
    (window now later : ℕ) (xs : List ℕ)
    → now ≤ later
    → length (filter (is_recent window later) xs) ≤ length (filter (is_recent window now) xs)
length-filter-later window now later [] h = omega arith
length-filter-later window now later (x ∷ xs) h =
    ground (arith, length-filter-later window now later xs h)

-- Every key stands once, its times in order and none past `t`.
abbrev pub WellKept : ℕ → List (String × List ℕ) → Type 0
WellKept t [] = Unit {0}
WellKept t ((k, ts) ∷ m) = Ascending ts × UpTo t ts × (has k m ≡ false) × WellKept t m

pub WellKept-mono : (t t' : ℕ) (m : List (String × List ℕ)) → t ≤ t' → WellKept t m → WellKept t' m
WellKept-mono t t' [] h w = tt
WellKept-mono t t' ((k, ts) ∷ m) h w =
    (w.0, UpTo-mono t t' ts h w.1, w.2, WellKept-mono t t' m h w.3)

pub WellKept-times :
    (t : ℕ) (j : String) (m : List (String × List ℕ))
    → WellKept t m
    → Ascending (times j m) × UpTo t (times j m)
unfolding times
WellKept-times t j [] w = (tt, tt)
WellKept-times t j ((k, ts) ∷ m) w = elim (Bool-cases (str_eq k j)) [
  | inl e ↦ rw e (w.0, w.1)
  | inr e ↦ rw e (WellKept-times t j m w.3)
]

pub set_times-WellKept :
    (t : ℕ) (k : String) (ts : List ℕ) (m : List (String × List ℕ))
    → Ascending ts
    → UpTo t ts
    → WellKept t m
    → WellKept t (set_times k ts m)
unfolding set_times
set_times-WellKept t k ts [] a u w = (a, u, refl, tt)
set_times-WellKept t k ts ((i, old) ∷ m) a u w = elim (Bool-cases (str_eq i k)) [
  | inl e ↦ rw e (a, u, ground (arith, eq_iff i k), w.3)
  | inr e ↦ rw e (
    w.0,
    w.1,
    ground (arith, eq_iff i k, eq_iff k i, has-set_times k i ts m),
    set_times-WellKept t k ts m a u w.3,
  )
]

pub sweep-WellKept :
    (window now t : ℕ) (m : List (String × List ℕ)) → WellKept t m → WellKept t (sweep window now m)
unfolding sweep
sweep-WellKept window now t [] w = tt
sweep-WellKept window now t ((k, ts) ∷ m) w = elim (Bool-cases (is_live window now ts)) [
  | inl e ↦ rw e (w.0, w.1, has-sweep window now k m w.2, sweep-WellKept window now t m w.3)
  | inr e ↦ rw e (sweep-WellKept window now t m w.3)
]

get_last?-none : (xs : List ℕ) → get_last? xs ≡ none → xs ≡ []
get_last?-none [] e = refl
get_last?-none (x ∷ []) e = cc
get_last?-none (x ∷ y ∷ xs) e = absurd (cc (get_last?-none (y ∷ xs) e))

-- What the sweep drops counts for nothing from then on.
filter-dead :
    (window now later : ℕ) (ts : List ℕ)
    → now ≤ later
    → Ascending ts
    → is_live window now ts ≡ false
    → filter (is_recent window later) ts ≡ []
unfolding is_live
filter-dead window now later ts h a d = elim (Option-cases (get_last? ts)) [
  | inl e ↦ rw (get_last?-none ts e)
  | inr (l, e) ↦
      filter-expired window later ts l a e (omega (arith, expired l (rw (e, is_live) at d)))
]
  where
    expired : (l : ℕ) → ltb (now - l) window ≡ false → window ≤ now - l
    expired l f = ground arith

-- The sweep forgets nothing that the window still counts, now or later.
pub times-sweep :
    (window now later t : ℕ) (j : String) (m : List (String × List ℕ))
    → now ≤ later
    → WellKept t m
    → filter (is_recent window later) (times j (sweep window now m))
      ≡ filter (is_recent window later) (times j m)
unfolding sweep times
times-sweep window now later t j [] h w = refl
times-sweep window now later t j ((k, ts) ∷ m) h w = elim (Bool-cases (is_live window now ts)) [
  | inl live ↦ elim (Bool-cases (str_eq k j)) [
    | inl e ↦ rw (live, times) (rw e)
    | inr e ↦ rw (live, times) (rw e (times-sweep window now later t j m h w.3))
  ]
  | inr dead ↦ elim (Bool-cases (str_eq k j)) [
    | inl e ↦
        rw (dead, e)
          (rw (times-absent j (sweep window now m) (has-sweep window now j m (alone e)))
            (sym (filter-dead window now later ts h w.0 dead)))
    | inr e ↦ rw (dead, e) (times-sweep window now later t j m h w.3)
  ]
]
  where
    alone : str_eq k j ≡ true → has j m ≡ false
    alone e = ground (arith, eq_iff k j)

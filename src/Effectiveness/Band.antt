-- ===== src/Effectiveness/Band.antt =====
-- What the rows of `bandedDistance` hold: the distance wherever it is within the radius, and never
-- less than the distance.
use ticket_manager_system.Common.{
  ℕ, zero, suc, ◌+◌, ◌-◌, ◌%◌, ◌≤◌, ◌<◌, min, max, ◌≡◌, subst, ◌∙◌, ◌⊎◌, inl, inr, List, arith, ltb,
  leb, ◌==◌, ◌||◌, Bool-cases, if◌then◌else◌, length, get_or, set, length-set, get_or-set_self,
  get_or-set_ne,
}
use ticket_manager_system.Effectiveness.{
  Text, unbounded, int32, cost_at, prev_at, Rows, fill_cell, fill_row,
}
use ticket_manager_system.Effectiveness.Levenshtein.{levenshtein, levenshtein_bounds, cost_bound}

-- Within a radius, a value stands for a distance.
pub record StandsFor (k distance v : ℕ) : Type 0 where
  pub below : distance ≤ v
  pub exact : (k < distance) ⊎ (v ≡ distance)

-- A write after the cells where `P` holds.
pub set-cells :
    (P : ℕ → ℕ → Type 0) (lo x v : ℕ) (row : List ℕ)
    → x < length row
    → P x v
    → ((j : ℕ) → lo ≤ j → j < x → P j (get_or row j 0))
    → (j : ℕ) → lo ≤ j
    → j < suc x
    → P j (get_or (set row x v) j 0)
set-cells P lo x v row inside new old j from to = elim (Bool-cases (j == x)) [
  | inl here ↦
      let e : x ≡ j = ground (arith, here) in
      subst (λ y. P y (get_or (set row x v) y 0)) e (rw (get_or-set_self row x v 0 inside) new)
  | inr there ↦
      rw (get_or-set_ne row x j v 0 (ground (arith, there))) (old j from (ground (arith, there)))
]

module _ (a b : Text) (k : ℕ) (short : length b < 2147483648) where
  abbrev pub L : ℕ → ℕ → ℕ
  L i j = levenshtein a b i j

  -- The columns from `lo` to `hi` of row `i`.
  pub record IsRow (i lo hi : ℕ) (row : List ℕ) : Type 0 where
    pub size : length row ≡ length b + 1
    pub cells : (j : ℕ) → lo ≤ j → j ≤ hi → StandsFor k (L i j) (get_or row j 0)
    pub bounded : (j : ℕ) → lo ≤ j → j ≤ hi → get_or row j 0 ≤ max i j

  -- The band of row `i`.
  pub record IsBand (i lo hi : ℕ) : Type 0 where
    pub low : lo ≡ i - k
    pub high : hi ≡ min (length b) (i + k)

  -- A step of the recurrence.
  best-StandsFor :
      (i j s d t : ℕ)
      → StandsFor k (L i j) s
      → StandsFor k (L i (suc j)) d
      → StandsFor k (L (suc i) j) t
      → StandsFor k (L (suc i) (suc j)) (min (min (s + cost_at a b i j) (d + 1)) (t + 1))
  unfolding levenshtein
  best-StandsFor i j s d t p q r = record { below = omega arith; exact = omega arith }

  pub prev_at-StandsFor :
      (i lo hi j : ℕ) (row : List ℕ)
      → i < 2147483648
      → IsRow i lo hi row
      → IsBand i lo hi
      → j ≤ length b
      → StandsFor k (L i j) (prev_at row lo hi j)
  prev_at-StandsFor i lo hi j row h r g w = elim (Bool-cases (ltb j lo || ltb hi j)) [
    | inl outside ↦ rw outside (record {
      below = omega (arith, levenshtein_bounds a b i j);
      exact = inl (ground (arith, levenshtein_bounds a b i j, outside));
    })
    | inr inside ↦ rw inside (r.cells j (ground (arith, inside)) (ground (arith, inside)))
  ]

  -- The rows before round `suc i`.
  pub record IsTable (i : ℕ) (r : Rows) : Type 0 where
    pub row : IsRow i r.prev_lo r.prev_hi r.prev
    pub band : IsBand i r.prev_lo r.prev_hi
    pub scratch : length r.curr ≡ length b + 1

  set-IsRow :
      (i lo hi v : ℕ) (row : List ℕ)
      → IsRow i lo hi row
      → suc hi ≤ length b
      → StandsFor k (L i (suc hi)) v
      → v ≤ max i (suc hi)
      → IsRow i lo (suc hi) (set row (suc hi) v)
  set-IsRow i lo hi v row p inside w le = record {
    size = length-set row (suc hi) v ∙ p.size;
    cells = λ j from to.
        set-cells (λ y u. StandsFor k (L i y) u) lo (suc hi) v row (omega arith) w
          (λ y f t. p.cells y f (omega arith)) j from (omega arith);
    bounded = λ j from to.
        set-cells (λ y u. u ≤ max i y) lo (suc hi) v row (omega arith) le
          (λ y f t. p.bounded y f (omega arith)) j from (omega arith);
  }

  store-IsRow :
      (i lo hi v : ℕ) (row : List ℕ)
      → i < 2147483648
      → IsRow i lo hi row
      → suc hi ≤ length b
      → StandsFor k (L i (suc hi)) v
      → v ≤ max i (suc hi)
      → IsRow i lo (suc hi) (set row (suc hi) (int32 v))
  store-IsRow i lo hi v row small p inside w le =
      let kept : v % 4294967296 ≡ v = omega arith in rw kept (set-IsRow i lo hi v row p inside w le)

  module _ (i : ℕ) (r : Rows) (small : suc i < 2147483648) (t : IsTable i r) where
    left-StandsFor :
        (j : ℕ) (curr : List ℕ)
        → j ≤ length b
        → IsRow (suc i) (suc i - k) j curr
        → StandsFor k (L (suc i) j) (if leb (suc i - k) j then get_or curr j 0 else unbounded)
    left-StandsFor j curr inside p = elim (Bool-cases (leb (suc i - k) j)) [
      | inl within ↦ rw within (p.cells j (ground (arith, within)) (omega arith))
      | inr outside ↦ rw outside (record {
        below = omega (arith, levenshtein_bounds a b (suc i) j);
        exact = inl (ground (arith, levenshtein_bounds a b (suc i) j, outside));
      })
    ]

    diagonal_bound :
        (j : ℕ)
        → suc i - k ≤ suc j
        → suc j ≤ length b
        → suc j ≤ suc i + k
        → prev_at r.prev r.prev_lo r.prev_hi j ≤ max i j
    diagonal_bound j from inside to = ground (
      arith,
      t.row.bounded j (omega (arith, t.band.low)) (omega (arith, t.band.high)),
      t.band.low,
      t.band.high,
    )

    fill_cell-IsRow :
        (j : ℕ) (curr : List ℕ)
        → suc i - k ≤ suc j
        → suc j ≤ length b
        → suc j ≤ suc i + k
        → IsRow (suc i) (suc i - k) j curr
        → IsRow (suc i) (suc i - k) (suc j) (fill_cell a b r (suc i) (suc i - k) (suc j) curr)
    unfolding fill_cell
    fill_cell-IsRow j curr from inside to p =
        let diagonal =
          prev_at-StandsFor i r.prev_lo r.prev_hi j r.prev (omega arith) t.row t.band
            (omega arith) in
        let above =
          prev_at-StandsFor i r.prev_lo r.prev_hi (suc j) r.prev (omega arith) t.row t.band
            inside in
        let best =
          best-StandsFor i j _ _ _ diagonal above (left-StandsFor j curr (omega arith) p) in
        let pred_i : suc i - 1 ≡ i = omega arith in
        let pred_j : suc j - 1 ≡ j = omega arith in
        rw (fill_cell, pred_i, pred_j)
          (store-IsRow (suc i) (suc i - k) j _ curr (omega arith) p inside best
            (omega (arith, diagonal_bound j from inside to, cost_bound a b i j)))

    pub fill_row-IsRow :
        (rounds j : ℕ) (curr : List ℕ)
        → suc i - k ≤ suc j
        → j + rounds ≤ length b
        → j + rounds ≤ suc i + k
        → IsRow (suc i) (suc i - k) j curr
        → IsRow
            (suc i)
            (suc i - k)
            (j + rounds)
            (fill_row a b rounds r (suc i) (suc i - k) (suc j) curr)
    unfolding fill_row
    fill_row-IsRow zero j curr from inside to p = let same : j + 0 ≡ j = omega arith in rw same p
    fill_row-IsRow (suc rounds) j curr from inside to p =
        let next =
          fill_row-IsRow rounds (suc j) _ (omega arith) (omega arith) (omega arith)
            (fill_cell-IsRow j curr from (omega arith) (omega arith) p) in
        let same : j + suc rounds ≡ suc j + rounds = omega arith in rw same next

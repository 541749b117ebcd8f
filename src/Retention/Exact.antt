-- ===== src/Retention/Exact.antt =====
-- Deleting in batches against deleting at once: the sweeps of apps/api/src/jobs/prune-outbox.ts and
-- prune-activity-trails.ts.
use mathlib.Core.List.{Memᴰ}
use mathlib.Core.List.Memᴰ
use ticket_manager_system.Common.{
  ℕ, zero, suc, ◌+◌, ◌-◌, ◌*◌, ◌≤◌, ◌≡◌, refl, sym, ap, ◌∙◌, inl, inr, Bool, true, false, not, ◌&&◌,
  List, [], ◌∷◌, arith, ltb, ◌==◌, filter, length, All, Bool-cases, ==_refl, ltb→lt,
}
use ticket_manager_system.Retention.{
  oldest_first, find_batch, is_among, delete_batch, batched_delete,
}
use ticket_manager_system.Retention.Batches.{
  Mem-filter, Mem-of_filter, filter-none_left, filter-drops, length-oldest_first, length-oldest_all,
  length-take, All-of_Mem, Mem-of_All, All-oldest_first, All-take, filter-kept, filter-swap,
}

-- The key is a primary key.
abbrev pub Keyed : {A : Type 0} → (A → ℕ) → List A → Type 0
Keyed {A} key rows = (r s : A) → Memᴰ r rows → Memᴰ s rows → key r ≡ key s → r ≡ s

not_and_true : (b : Bool) → not (b && true) ≡ not b
not_and_true true = refl
not_and_true false = refl

module _ {A : Type 0} (key created_at : A → ℕ) (is_doomed is_deletable : A → Bool)
    (deletable : (r : A) → is_doomed r ≡ true → is_deletable r ≡ true) where
  abbrev found_in : List A → List A
  found_in rows = find_batch key created_at is_doomed is_deletable rows

  abbrev among : List A → A → Bool
  among found r = is_among key created_at is_doomed is_deletable found r

  abbrev kept_of : List A → List A
  kept_of rows = delete_batch key created_at is_doomed is_deletable (found_in rows) rows

  among_self : (found : List A) (r : A) → Memᴰ r found → among found r ≡ true
  among_self [] r m = absurd (Memᴰ.not-nil m)
  among_self (x ∷ found) r (Memᴰ.head same) = ground (arith, ap key same, ==_refl (key x))
  among_self (x ∷ found) r (Memᴰ.tail m) = ground (arith, among_self found r m)

  among_some :
      (found : List A) (r : A) → among found r ≡ true → (s : A) × Memᴰ s found × (key s ≡ key r)
  among_some [] r e = absurd (cc)
  among_some (x ∷ found) r e = elim (Bool-cases (key x == key r)) [
    | inl same ↦ (x, Memᴰ.head refl, ground (arith, same))
    | inr other ↦
        let (s, m, same) = among_some found r (ground (arith, e, other)) in (s, Memᴰ.tail m, same)
  ]

  found-doomed : (rows : List A) → All (λ s. Memᴰ s rows × (is_doomed s ≡ true)) (found_in rows)
  unfolding find_batch
  found-doomed rows =
      All-take (λ s. Memᴰ s rows × (is_doomed s ≡ true)) 500 _
        (All-oldest_first (λ s. Memᴰ s rows × (is_doomed s ≡ true)) created_at _
          (All-of_Mem (λ s. Memᴰ s rows × (is_doomed s ≡ true)) (filter is_doomed rows)
            (λ r m. Mem-of_filter is_doomed rows r m)))

  -- A batch spares what is not doomed.
  kept-spares :
      (rows : List A)
      → Keyed key rows
      → filter (λ r. not (is_doomed r)) (kept_of rows) ≡ filter (λ r. not (is_doomed r)) rows
  kept-spares rows keyed =
      filter-kept (λ r. not (is_doomed r)) (λ r. not (among (found_in rows) r && is_deletable r))
        rows
        (λ r m spared. elim (Bool-cases (among (found_in rows) r)) [
          | inr apart ↦ rw apart refl
          | inl hit ↦
              let (s, in_found, same) = among_some (found_in rows) r hit in
              let (there, doomed) =
                Mem-of_All (λ s. Memᴰ s rows × (is_doomed s ≡ true)) (found_in rows) s
                  (found-doomed rows) in_found in
              let one : s ≡ r = keyed s r there m same in
              absurd (ground (arith, ap is_doomed one, doomed, spared))
        ])

  -- A full batch takes five hundred of the doomed, and a smaller one all of them.
  kept-fewer :
      (rows : List A)
      → length (filter is_doomed (kept_of rows)) + 500
        ≤ length (filter is_doomed rows) + (500 - length (filter is_doomed rows))
  unfolding find_batch
  kept-fewer rows =
      let doomed = filter is_doomed rows in
      let apart : A → Bool = λ r. not (among (found_in rows) r) in
      let swapped : filter is_doomed (kept_of rows) ≡ filter apart doomed =
        filter-swap is_doomed (λ r. not (among (found_in rows) r && is_deletable r)) apart rows
          (λ r d. rw (deletable r d) (not_and_true (among (found_in rows) r))) in
      let sorted = length-oldest_first created_at apart doomed in
      let hit : All (λ r. apart r ≡ false) (found_in rows) =
        All-of_Mem (λ r. apart r ≡ false) (found_in rows)
          (λ r m. ap not (among_self (found_in rows) r m)) in
      let drops = filter-drops apart 500 (oldest_first created_at doomed) hit in
      let same = length-oldest_all created_at doomed in
      omega (arith, ap length swapped, sorted, drops, same)

  kept-Keyed : (rows : List A) → Keyed key rows → Keyed key (kept_of rows)
  kept-Keyed rows keyed r s in_r in_s same =
      let p : A → Bool = λ r. not (among (found_in rows) r && is_deletable r) in
      keyed r s (Mem-of_filter p rows r in_r).0 (Mem-of_filter p rows s in_s).0 same

  none_doomed :
      (rows : List A)
      → length (filter is_doomed rows) ≡ 0
      → rows ≡ filter (λ r. not (is_doomed r)) rows
  none_doomed rows e = sym (filter-none_left is_doomed rows e)

  length-found :
      (rows : List A)
      → length (found_in rows) + (length (filter is_doomed rows) - 500)
        ≡ length (filter is_doomed rows)
  unfolding find_batch
  length-found rows =
      let doomed = filter is_doomed rows in
      omega (
        arith,
        length-take 500 (oldest_first created_at doomed),
        length-oldest_all created_at doomed,
      )

  -- Where nobody interferes, the batches delete what is doomed and nothing else.
  pub batched_delete-exact :
      (rounds : ℕ) (rows : List A)
      → Keyed key rows
      → length (filter is_doomed rows) ≤ 500 * rounds
      → (batched_delete key created_at is_doomed is_deletable (λ x. x) rounds rows).0
        ≡ filter (λ r. not (is_doomed r)) rows
  unfolding batched_delete
  batched_delete-exact zero rows keyed few = none_doomed rows (omega (arith, few))
  batched_delete-exact (suc rounds) rows keyed few =
      elim (Bool-cases (length (found_in rows) == 0)) [
        | inl nothing ↦
            rw (nothing, batched_delete)
              (none_doomed rows (ground (arith, nothing, length-found rows)))
        | inr some_found ↦ elim (Bool-cases (ltb (length (found_in rows)) 500)) [
          | inl last ↦
              rw (some_found, batched_delete, last)
                (none_doomed (kept_of rows)
                    (omega (arith, ltb→lt _ _ last, length-found rows, kept-fewer rows))
                  ∙ kept-spares rows keyed)
          | inr full ↦
              rw (some_found, batched_delete, full)
                (batched_delete-exact rounds (kept_of rows) (kept-Keyed rows keyed)
                    (omega (arith, few, length-found rows, kept-fewer rows))
                  ∙ kept-spares rows keyed)
        ]
      ]

-- A row of some kind.
abbrev pub Some : {A : Type 0} → (A → Type 0) → List A → Type 0
Some {A} P rows = (r : A) × Memᴰ r rows × P r

module _ {A : Type 0} (key created_at : A → ℕ) (is_doomed is_deletable : A → Bool) (P : A → Type 0)
    (spared : (r : A) → P r → is_deletable r ≡ false) (meanwhile : List A → List A)
    (others : (rows : List A) → Some P rows → Some P (meanwhile rows)) where
  delete_batch-spares :
      (found rows : List A)
      → Some P rows
      → Some P (delete_batch key created_at is_doomed is_deletable found rows)
  delete_batch-spares found rows (r, m, p) =
      let stays : A → Bool =
        λ r. not (is_among key created_at is_doomed is_deletable found r && is_deletable r) in
      let kept : stays r ≡ true = rw (spared r p) (ground arith) in
      (r, Mem-filter stays rows r m kept, p)

  -- A row of a kind that the delete leaves out is there afterwards, as long as others leave it there.
  pub batched_delete-spares :
      (rounds : ℕ) (rows : List A)
      → Some P rows
      → Some P (batched_delete key created_at is_doomed is_deletable meanwhile rounds rows).0
  unfolding batched_delete
  batched_delete-spares zero rows there = there
  batched_delete-spares (suc rounds) rows there =
      let found = find_batch key created_at is_doomed is_deletable rows in
      let after = delete_batch-spares found (meanwhile rows) (others rows there) in
      elim (Bool-cases (length found == 0)) [
        | inl nothing ↦ rw (nothing, batched_delete) there
        | inr some_found ↦ elim (Bool-cases (ltb (length found) 500)) [
          | inl last ↦ rw (some_found, batched_delete, last) after
          | inr full ↦
              rw (some_found, batched_delete, full)
                (batched_delete-spares rounds
                  (delete_batch key created_at is_doomed is_deletable found (meanwhile rows)) after)
        ]
      ]

-- ===== src/Retention/Trails.antt =====
-- What the sweep of apps/api/src/jobs/prune-activity-trails.ts leaves of the revisions of articles.
use mathlib.Core.List.{Memᴰ}
use mathlib.Core.List.Memᴰ
use ticket_manager_system.Common.{
  ℕ, ◌+◌, ◌≤◌, ◌≡◌, refl, sym, ap, ◌∙◌, ◌⊎◌, inl, inr, true, not, ◌&&◌, List, [], ◌∷◌, arith, ltb,
  leb, ◌==◌, any, Bool-cases, ==_refl,
}
use ticket_manager_system.Knowledge.{Revision}
use ticket_manager_system.Retention.{latest_of, is_latest, trail_retention, prune_revisions}
use ticket_manager_system.Retention.Exact.{Some, batched_delete-spares}

-- A revision of an article, with an id.
abbrev pub IsRevision : ℕ → ℕ → Revision → Type 0
IsRevision article i r = (r.article_id ≡ article) × (r.id ≡ i)

latest_of-above :
    (article : ℕ) (rows : List Revision) (r : Revision)
    → Memᴰ r rows
    → r.article_id ≡ article
    → r.id ≤ latest_of article rows
unfolding latest_of
latest_of-above article [] r m e = absurd (Memᴰ.not-nil m)
latest_of-above article (x ∷ rows) r (Memᴰ.head same) e =
    let here : x.article_id ≡ article = ap (λ (r : Revision). r.article_id) (sym same) ∙ e in
    let one : r.id ≡ x.id = ap (λ (r : Revision). r.id) same in ground (arith, here, one)
latest_of-above article (x ∷ rows) r (Memᴰ.tail m) e =
    ground (arith, latest_of-above article rows r m e)

-- The highest id is that of a revision, or none.
latest_of-Some :
    (article : ℕ) (rows : List Revision)
    → (latest_of article rows ≡ 0) ⊎ Some (IsRevision article (latest_of article rows)) rows
unfolding latest_of
latest_of-Some article [] = inl refl
latest_of-Some article (x ∷ rows) = elim (Bool-cases (x.article_id == article)) [
  | inr elsewhere ↦
      rw (elsewhere, latest_of)
        (elim (latest_of-Some article rows) [
          | inl nothing ↦ inl nothing
          | inr (r, m, of_it) ↦ inr (r, Memᴰ.tail m, of_it)
        ])
  | inl here ↦
      rw (here, latest_of)
        (elim (latest_of-Some article rows) [
          | inl nothing ↦ inr (x, Memᴰ.head refl, (ground (arith, here), ground (arith, nothing)))
          | inr (r, m, of_it) ↦ elim (Bool-cases (leb (latest_of article rows) x.id)) [
            | inl higher ↦ inr (x, Memᴰ.head refl, (ground (arith, here), ground (arith, higher)))
            | inr lower ↦ inr (r, Memᴰ.tail m, (of_it.0, of_it.1 ∙ ground (arith, lower)))
          ]
        ])
]

-- An article with a revision has one with the highest id of its own.
latest_of-Mem :
    (article : ℕ) (rows : List Revision) (s : Revision)
    → Memᴰ s rows
    → s.article_id ≡ article
    → Some (IsRevision article (latest_of article rows)) rows
latest_of-Mem article rows s m e = elim (latest_of-Some article rows) [
  | inr found ↦ found
  | inl nothing ↦ (s, m, (e, omega (arith, nothing, latest_of-above article rows s m e)))
]

is_latest-Mem :
    (all rows : List Revision) (article : ℕ) (s : Revision)
    → Memᴰ s rows
    → s.article_id ≡ article
    → any (λ (r : Revision). latest_of r.article_id all == latest_of article all) rows ≡ true
is_latest-Mem all [] article s m e = absurd (Memᴰ.not-nil m)
is_latest-Mem all (x ∷ rows) article s (Memᴰ.head same) e =
    let here : x.article_id ≡ article = ap (λ (r : Revision). r.article_id) (sym same) ∙ e in
    rw here (rw (==_refl (latest_of article all)) refl)
is_latest-Mem all (x ∷ rows) article s (Memᴰ.tail m) e =
    ground (arith, is_latest-Mem all rows article s m e)

-- No article loses its last revision, however old it is: an article that has a revision has its
-- newest one after the sweep too, as long as others leave that one to it.
pub prune_revisions-latest :
    (meanwhile : List Revision → List Revision) (now : ℕ) (rows : List Revision) (s : Revision)
    → Memᴰ s rows
    → ((others : List Revision)
        → Some (IsRevision s.article_id (latest_of s.article_id rows)) others
        → Some (IsRevision s.article_id (latest_of s.article_id rows)) (meanwhile others))
    → Some
        (IsRevision s.article_id (latest_of s.article_id rows))
        (prune_revisions meanwhile now rows).0
unfolding prune_revisions
prune_revisions-latest meanwhile now rows s m others =
    batched_delete-spares (λ (r : Revision). r.id) (λ r. r.created_at)
      (λ r. ltb (r.created_at + trail_retention) now && not (is_latest rows r.id))
      (λ r. not (is_latest rows r.id)) (IsRevision s.article_id (latest_of s.article_id rows))
      (λ r newest.
        ap not (ap (is_latest rows) newest.1 ∙ is_latest-Mem rows rows s.article_id s m refl))
      meanwhile others 20 rows (latest_of-Mem s.article_id rows s m refl)

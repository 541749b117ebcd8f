-- ===== src/Classify/Sweep.antt =====
-- Which tickets the sweep of apps/api/src/jobs/classify-ticket.ts offers back.
use mathlib.Core.List.{Memᴰ, append-nil, append_assoc}
use ticket_manager_system.Common.{
  ℕ, ◌+◌, ◌≤◌, ◌<◌, ◌≡◌, refl, sym, ap, ◌∙◌, true, none, List, [], ◌∷◌, ◌++◌, map, arith, filter,
  length, length-take-le, All, ◌⊎◌,
}
use ticket_manager_system.Desk.{Ticket, Desk, Config, Job, classify_ticket}
use ticket_manager_system.Desk.Age.{
  by_created, All-by_created, by_created-OldestFirst, Mem-by_created, Mem-filter, All-filter_yes,
  All-take, Mem-take,
}
use ticket_manager_system.Classify.{
  is_stale, stale, enqueue_classification, enqueue_each, reconcile,
}

-- The ticket still waits for the classifier: without a verdict or a category, more than ten minutes
-- old and at most a day.
pub record Waits (now : ℕ) (t : Ticket) : Type 0 where
  pub unstamped : t.classified_at ≡ none
  pub unfiled : t.category ≡ none
  pub aged : t.created_at + 600000 < now
  pub recent : now ≤ t.created_at + 86400000

is_stale-Waits : (now : ℕ) (t : Ticket) → is_stale now t ≡ true → Waits now t
is_stale-Waits now t e = record {
  unstamped = ground arith;
  unfiled = ground arith;
  aged = ground arith;
  recent = ground arith;
}

Waits-is_stale : (now : ℕ) (t : Ticket) → Waits now t → is_stale now t ≡ true
Waits-is_stale now t w = ground (arith, w.unstamped, w.unfiled, w.aged, w.recent)

All-Waits : (now : ℕ) (ts : List Ticket) → All (λ t. is_stale now t ≡ true) ts → All (Waits now) ts
All-Waits now [] h = h
All-Waits now (t ∷ ts) h = (is_stale-Waits now t h.0, All-Waits now ts h.1)

abbrev jobs_for : List Ticket → List Job
jobs_for = map (λ (t : Ticket). classify_ticket t.id)

enqueue_each-jobs :
    (cfg : Config) (ts : List Ticket) (d : Desk)
    → cfg.ai_configured ≡ true
    → enqueue_each cfg ts d ≡ record d { jobs = d.jobs ++ jobs_for ts }
unfolding enqueue_each enqueue_classification
enqueue_each-jobs cfg [] d on = ap (λ js. record d { jobs = js }) (sym (append-nil d.jobs))
enqueue_each-jobs cfg (t ∷ ts) d on =
    ap (enqueue_each cfg ts) (rw on refl)
    ∙ enqueue_each-jobs cfg ts (record d { jobs = d.jobs ++ classify_ticket t.id ∷ [] }) on
    ∙ ap (λ js. record d { jobs = js })
        (append_assoc d.jobs (classify_ticket t.id ∷ []) (jobs_for ts))

-- With a key, the sweep sends a job for each ticket of a batch and changes nothing else: at most fifty
-- tickets, and every one of them waits for the classifier.
pub reconcile-Waits :
    (cfg : Config) (now : ℕ) (d : Desk)
    → cfg.ai_configured ≡ true
    → (ts : List Ticket) × ((reconcile cfg now d
          ≡ record d { jobs = d.jobs ++ map (λ (t : Ticket). classify_ticket t.id) ts })
        × ((length ts ≤ 50) × All (Waits now) ts))
unfolding reconcile stale
reconcile-Waits cfg now d on = (
  stale now d,
  (
    enqueue_each-jobs cfg (stale now d) d on,
    (
      length-take-le 50 _,
      All-take (Waits now) 50 _ (
          All-by_created (Waits now) _ (All-Waits now _ (All-filter_yes (is_stale now) d.tickets))),
    ),
  ),
)

-- No ticket is forgotten: one without a verdict or a category that is more than ten minutes old, and at
-- most a day, is in the batch, or the batch is full of tickets that are at least as old.
pub stale-Waits :
    (now : ℕ) (d : Desk) (t : Ticket)
    → Memᴰ t d.tickets
    → Waits now t
    → Memᴰ t (stale now d)
      ⊎ ((length (stale now d) ≡ 50) × All (λ u. u.created_at ≤ t.created_at) (stale now d))
unfolding stale
stale-Waits now d t here waits =
    Mem-take 50 t (by_created (filter (is_stale now) d.tickets)) (by_created-OldestFirst _)
      (Mem-by_created t _ (Mem-filter (is_stale now) t d.tickets here (Waits-is_stale now t waits)))

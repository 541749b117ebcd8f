-- ===== src/SlidingWindow/Refinement.antt =====
-- apps/api/src/sliding-window.ts against a counter that keeps every admission and never prunes.
use text.Mathlib.TextEquality.{eq_iff}
use ticket_manager_system.Common.{
  ℕ, ◌+◌, ◌%◌, ◌≤◌, String, ◌≡◌, refl, sym, ap, ap₂, ◌∙◌, true, List, [], ◌∷◌, ◌++◌, arith, leb,
  ◌==◌, str_eq, if◌then◌else◌, inl, inr, Bool-cases, length, filter, filter-append,
}
use ticket_manager_system.SlidingWindow.{
  Window, Admission, allowed, refused, Call, fresh, times, set_times, sweep, sweep_every, is_recent,
  retry_after, admit, run, count_in,
}
use ticket_manager_system.SlidingWindow.Times.{
  WellKept, WellKept-mono, WellKept-times, set_times-WellKept, sweep-WellKept, filter-Ascending,
  filter-UpTo, append-UpTo, append-Ascending, times-set_times, times-sweep, filter-filter,
}

-- Every admission so far, oldest first.
abbrev pub History : Type 0
History = List (String × ℕ)

abbrev pub times_of : String → History → List ℕ
times_of key [] = []
times_of key ((k, at) ∷ h) = if str_eq k key then at ∷ times_of key h else times_of key h

-- The admissions of a key that the window still counts at `now`.
abbrev pub counted : ℕ → ℕ → String → History → List ℕ
counted window now key h = filter (is_recent window now) (times_of key h)

abbrev pub spec_admit : ℕ → Call → History → History × Admission
spec_admit window c h =
    if leb c.limit (length (counted window c.now c.key h))
    then (h, refused (retry_after window c.now (counted window c.now c.key h)))
    else (h ++ (c.key, c.now) ∷ [], allowed)

unfoldable pub spec_run : ℕ → List Call → History → List (Call × Admission)
spec_run window [] h = []
spec_run window (c ∷ cs) h =
    let (h', answer) = spec_admit window c h in (c, answer) ∷ spec_run window cs h'

-- The clock does not run backwards.
abbrev pub InOrder : ℕ → List Call → Type 0
InOrder t [] = Unit {0}
InOrder t (c ∷ cs) = (t ≤ c.now) × InOrder c.now cs

pub times_of-append :
    (key k : String) (at : ℕ) (h : History)
    → times_of key (h ++ (k, at) ∷ [])
      ≡ (if str_eq k key then times_of key h ++ at ∷ [] else times_of key h)
times_of-append key k at [] = ground arith
times_of-append key k at ((i, t) ∷ h) = ground (arith, times_of-append key k at h)

-- The map and the full history count the same, from `t` on.
pub record Agrees (window t : ℕ) (w : Window) (h : History) : Type 0 where
  pub kept : WellKept t w.admissions
  pub same :
      (key : String) (later : ℕ)
      → t ≤ later
      → filter (is_recent window later) (times key w.admissions) ≡ counted window later key h

-- The write of an admission, swept or not.
count_in-admissions :
    (P : List (String × List ℕ) → Type 0) (window now : ℕ) (k : String) (recent : List ℕ)
    (w : Window)
    → P (set_times k (recent ++ now ∷ []) w.admissions)
    → P (sweep window now (set_times k (recent ++ now ∷ []) w.admissions))
    → P (count_in window now k recent w).admissions
unfolding count_in
count_in-admissions P window now k recent w plain swept =
    elim (Bool-cases ((w.admitted + 1) % sweep_every == 0)) [
      | inl e ↦ rw e swept
      | inr e ↦ rw e plain
    ]

module _ (window t : ℕ) (c : Call) (w : Window) (h : History) (v : Agrees window t w h)
    (le : t ≤ c.now) where
  recent : List ℕ
  recent = filter (is_recent window c.now) (times c.key w.admissions)

  recent-counted : recent ≡ counted window c.now c.key h
  unfolding recent
  recent-counted = v.same c.key c.now le

  pushed : List (String × List ℕ)
  unfolding recent
  pushed = set_times c.key (recent ++ c.now ∷ []) w.admissions

  kept_now : WellKept c.now w.admissions
  kept_now = WellKept-mono t c.now w.admissions le v.kept

  pruned-WellKept : WellKept c.now (set_times c.key recent w.admissions)
  unfolding recent
  pruned-WellKept =
      set_times-WellKept c.now c.key recent w.admissions
        (filter-Ascending _ _ (WellKept-times c.now c.key w.admissions kept_now).0)
        (filter-UpTo c.now _ _ (WellKept-times c.now c.key w.admissions kept_now).1) kept_now

  pushed-WellKept : WellKept c.now pushed
  unfolding pushed
  pushed-WellKept =
      set_times-WellKept c.now c.key (recent ++ c.now ∷ []) w.admissions
        (append-Ascending c.now recent
          (filter-Ascending _ _ (WellKept-times c.now c.key w.admissions kept_now).0)
          (filter-UpTo c.now _ _ (WellKept-times c.now c.key w.admissions kept_now).1))
        (append-UpTo c.now recent
          (filter-UpTo c.now _ _ (WellKept-times c.now c.key w.admissions kept_now).1))
        kept_now

  pruned-same :
      (key : String) (later : ℕ)
      → c.now ≤ later
      → filter (is_recent window later) (times key (set_times c.key recent w.admissions))
        ≡ counted window later key h
  unfolding recent
  pruned-same key later l = elim (Bool-cases (str_eq c.key key)) [
    | inl e ↦
        rw (times-set_times c.key key recent w.admissions, e)
          (filter-filter window c.now later (times c.key w.admissions) l
            ∙ rw ((eq_iff c.key key).0 e) (v.same key later (omega arith)))
    | inr e ↦ rw (times-set_times c.key key recent w.admissions, e) (v.same key later (omega arith))
  ]

  pushed-same :
      (key : String) (later : ℕ)
      → c.now ≤ later
      → filter (is_recent window later) (times key pushed)
        ≡ counted window later key (h ++ (c.key, c.now) ∷ [])
  unfolding pushed
  pushed-same key later l = elim (Bool-cases (str_eq c.key key)) [
    | inl e ↦
        rw
          (
            times-set_times c.key key (recent ++ c.now ∷ []) w.admissions,
            times_of-append key c.key c.now h,
          )
          (rw e (
            filter-append _ recent _
            ∙ ap (λ xs. xs ++ filter (is_recent window later) (c.now ∷ [])) (recent_later e)
            ∙ sym (filter-append _ (times_of key h) _)))
    | inr e ↦
        rw
          (
            times-set_times c.key key (recent ++ c.now ∷ []) w.admissions,
            times_of-append key c.key c.now h,
          )
          (rw e (v.same key later (omega arith)))
  ]
    where
      recent_later :
          str_eq c.key key ≡ true
          → filter (is_recent window later) recent ≡ counted window later key h
      recent_later e =
          filter-filter window c.now later (times c.key w.admissions) l
          ∙ rw ((eq_iff c.key key).0 e) (v.same key later (omega arith))

  admitted-Agrees :
      Agrees window c.now (count_in window c.now c.key recent w) (h ++ (c.key, c.now) ∷ [])
  unfolding pushed
  admitted-Agrees = record {
    kept =
        count_in-admissions (WellKept c.now) window c.now c.key recent w pushed-WellKept
          (sweep-WellKept window c.now c.now pushed pushed-WellKept);
    same = λ key later l.
        count_in-admissions
          (λ m.
            filter (is_recent window later) (times key m)
            ≡ counted window later key (h ++ (c.key, c.now) ∷ []))
          window c.now c.key recent w (pushed-same key later l)
          (times-sweep window c.now later c.now key pushed l pushed-WellKept
            ∙ pushed-same key later l);
  }

  refused-Agrees :
      Agrees window c.now (record w { admissions = set_times c.key recent w.admissions }) h
  refused-Agrees = record { kept = pruned-WellKept; same = pruned-same }

  -- One call, answered as from the full history.
  pub admit-spec_admit :
      ((admit window c.now c.key c.limit w).1 ≡ (spec_admit window c h).1)
      × Agrees window c.now (admit window c.now c.key c.limit w).0 (spec_admit window c h).0
  unfolding admit recent
  admit-spec_admit = elim (Bool-cases (leb c.limit (length recent))) [
    | inl full ↦ rw (← recent-counted, full) (refl, refused-Agrees)
    | inr room ↦ rw (← recent-counted, room) (refl, admitted-Agrees)
  ]

pub run-spec_run :
    (window t : ℕ) (cs : List Call) (w : Window) (h : History)
    → InOrder t cs
    → Agrees window t w h
    → run window cs w ≡ spec_run window cs h
unfolding run spec_run
run-spec_run window t [] w h o v = refl
run-spec_run window t (c ∷ cs) w h o v =
    let step = admit-spec_admit window t c w h v o.0 in
    ap₂ (λ (a : Admission) (rest : List (Call × Admission)). (c, a) ∷ rest) step.0
      (run-spec_run window c.now cs _ _ o.1 step.1)

pub fresh-Agrees : (window t : ℕ) → Agrees window t fresh []
unfolding times
fresh-Agrees window t = record { kept = tt; same = λ key later l. refl }

-- For a clock that does not run backwards, pruning and the sweep change no answer: every call of
-- a fresh window is answered, with the same seconds to wait, as by the counter that keeps every
-- admission for good.
pub run-refines :
    (window : ℕ) (cs : List Call) → InOrder 0 cs → run window cs fresh ≡ spec_run window cs []
run-refines window cs o = run-spec_run window 0 cs fresh [] o (fresh-Agrees window 0)

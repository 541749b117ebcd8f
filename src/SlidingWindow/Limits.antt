-- ===== src/SlidingWindow/Limits.antt =====
-- How many a window lets in, and when it lets a refused caller back: apps/api/src/sliding-window.ts.
use text.Mathlib.TextEquality.{eq_iff}
use mathlib.Core.List.{append-nil, append_assoc}
use ticket_manager_system.Common.{
  ℕ, suc, ◌+◌, ◌*◌, ◌≤◌, ◌<◌, String, ◌≡◌, refl, sym, ap, ◌∙◌, subst, Bool, true, false, List, [],
  ◌∷◌, ◌++◌, arith, leb, not_leb→lt, str_eq, inl, inr, Bool-cases, length, filter, length-filter-le,
  All,
}
use ticket_manager_system.SlidingWindow.{
  Window, Admission, allowed, refused, Call, fresh, times, set_times, is_recent, retry_after, admit,
  run, after,
}
use ticket_manager_system.SlidingWindow.Times.{
  UpTo, filter-UpTo, WellKept-times, WellKept-mono, length-filter-later, filter-filter,
}
use ticket_manager_system.SlidingWindow.Refinement.{
  History, times_of, times_of-append, counted, spec_admit, spec_run, InOrder, Agrees,
  admit-spec_admit, run-spec_run, fresh-Agrees, run-refines,
}

-- Every limit that is asked for is at most `n`.
abbrev pub Limits : ℕ → List Call → Type 0
Limits n = All (λ c. c.limit ≤ n)

-- At no instant from `t` on does the window count more than `n` of a key.
abbrev Within : ℕ → ℕ → ℕ → History → Type 0
Within window n t h =
    (key : String) (later : ℕ) → t ≤ later → length (counted window later key h) ≤ n

length-filter-concat {ℓ} :
    {A : Type ℓ} (p : A → Bool) (xs : List A) (x : A)
    → length (filter p (xs ++ x ∷ [])) ≤ length (filter p xs) + 1
length-filter-concat p [] x = ground arith
length-filter-concat p (y ∷ xs) x = ground (arith, length-filter-concat p xs x)

spec_admit-Within :
    (window n t : ℕ) (c : Call) (h : History)
    → t ≤ c.now
    → c.limit ≤ n
    → Within window n t h
    → Within window n c.now (spec_admit window c h).0
spec_admit-Within window n t c h le lim v key later l =
    elim (Bool-cases (leb c.limit (length (counted window c.now c.key h)))) [
      | inl full ↦ rw full (v key later (omega arith))
      | inr room ↦ rw room (elim (Bool-cases (str_eq c.key key)) [
        | inl e ↦ rw (times_of-append key c.key c.now h) (rw e (one_more (few room e)))
        | inr e ↦ rw (times_of-append key c.key c.now h) (rw e (v key later (omega arith)))
      ])
    ]
  where
    few :
        leb c.limit (length (counted window c.now c.key h)) ≡ false
        → str_eq c.key key ≡ true
        → length (counted window c.now key h) < c.limit
    few room e =
        subst (λ k. length (counted window c.now k h) < c.limit) ((eq_iff c.key key).0 e)
          (not_leb→lt c.limit _ room)

    one_more :
        length (counted window c.now key h) < c.limit
        → length (filter (is_recent window later) (times_of key h ++ c.now ∷ [])) ≤ n
    one_more k = omega (
      arith,
      length-filter-concat (is_recent window later) (times_of key h) c.now,
      length-filter-later window c.now later (times_of key h) l,
    )

-- What a sequence of calls was granted.
abbrev pub granted : List (Call × Admission) → History
granted [] = []
granted ((c, allowed) ∷ rest) = (c.key, c.now) ∷ granted rest
granted ((c, refused s) ∷ rest) = granted rest

-- The history that a sequence of calls leaves.
spec_after : ℕ → List Call → History → History
spec_after window [] h = h
spec_after window (c ∷ cs) h = spec_after window cs (spec_admit window c h).0

spec_after-granted :
    (window : ℕ) (cs : List Call) (h : History)
    → spec_after window cs h ≡ h ++ granted (spec_run window cs h)
unfolding spec_after spec_run
spec_after-granted window [] h = sym (append-nil h)
spec_after-granted window (c ∷ cs) h =
    elim (Bool-cases (leb c.limit (length (counted window c.now c.key h)))) [
      | inl full ↦ rw full (spec_after-granted window cs h)
      | inr room ↦ rw room (
          spec_after-granted window cs (h ++ (c.key, c.now) ∷ [])
          ∙ append_assoc h ((c.key, c.now) ∷ []) _)
    ]

-- The instant of the last call, or `t` where there is none.
abbrev pub last_now : ℕ → List Call → ℕ
last_now t [] = t
last_now t (c ∷ cs) = last_now c.now cs

spec_after-Within :
    (window n t : ℕ) (cs : List Call) (h : History)
    → InOrder t cs
    → Limits n cs
    → Within window n t h
    → Within window n (last_now t cs) (spec_after window cs h)
unfolding spec_after
spec_after-Within window n t [] h o m v = v
spec_after-Within window n t (c ∷ cs) h o m v =
    spec_after-Within window n c.now cs _ o.1 m.1 (spec_admit-Within window n t c h o.0 m.0 v)

after-Agrees :
    (window t : ℕ) (cs : List Call) (w : Window) (h : History)
    → InOrder t cs
    → Agrees window t w h
    → Agrees window (last_now t cs) (after window cs w) (spec_after window cs h)
unfolding after spec_after
after-Agrees window t [] w h o v = v
after-Agrees window t (c ∷ cs) w h o v =
    after-Agrees window c.now cs _ _ o.1 (admit-spec_admit window t c w h v o.0).1

-- However calls and keys interleave, and whatever is swept, a key is never granted more than `n`
-- admissions within one window, where no call asks for a limit above `n` and the clock does not
-- run backwards.
pub run-within_limit :
    (window n : ℕ) (cs : List Call) (key : String) (later : ℕ)
    → InOrder 0 cs
    → Limits n cs
    → last_now 0 cs ≤ later
    → length (counted window later key (granted (run window cs fresh))) ≤ n
run-within_limit window n cs key later o m l =
    rw (run-refines window cs o, ← spec_after-granted window cs [])
      (spec_after-Within window n 0 cs [] o m (λ k at _. omega arith) key later l)

last_now-InOrder :
    (t : ℕ) (cs : List Call) (c : Call)
    → InOrder t (cs ++ c ∷ [])
    → InOrder t cs × (last_now t cs ≤ c.now)
last_now-InOrder t [] c o = (tt, o.0)
last_now-InOrder t (d ∷ cs) c o =
    let rest = last_now-InOrder d.now cs c o.1 in ((o.0, rest.0), rest.1)

-- What a refusal says and stores, and when a caller is let in.
module _ (window now : ℕ) (key : String) (limit : ℕ) (w : Window) where
  abbrev recent_of : List ℕ
  recent_of = filter (is_recent window now) (times key w.admissions)

  admit-refused :
      (s : ℕ)
      → (admit window now key limit w).1 ≡ refused s
      → (limit ≤ length recent_of)
        × (s ≡ retry_after window now recent_of)
        × ((admit window now key limit w).0.admissions ≡ set_times key recent_of w.admissions)
  unfolding admit
  admit-refused s e = ground arith

  admit-allowed : length recent_of < limit → (admit window now key limit w).1 ≡ allowed
  unfolding admit
  admit-allowed h = ground arith

length-oldest_gone :
    (window now later : ℕ) (r : List ℕ)
    → UpTo now r
    → now + 1000 * retry_after window now r ≤ later
    → 0 < length r
    → suc (length (filter (is_recent window later) r)) ≤ length r
length-oldest_gone window now later [] u h p = absurd (omega arith)
length-oldest_gone window now later (at ∷ r) u h p =
    ground (arith, length-filter-le (is_recent window later) r)

times_of-concat :
    (key : String) (h g : History) → times_of key (h ++ g) ≡ times_of key h ++ times_of key g
times_of-concat key [] g = refl
times_of-concat key ((k, at) ∷ h) g = ground (arith, times_of-concat key h g)

spec_admit-refused :
    (window s : ℕ) (c : Call) (h : History)
    → (spec_admit window c h).1 ≡ refused s
    → (spec_admit window c h).0 ≡ h
spec_admit-refused window s c h e =
    elim (Bool-cases (leb c.limit (length (counted window c.now c.key h)))) [
      | inl full ↦ rw full refl
      | inr room ↦ absurd (cc (rw room at e))
    ]

-- A caller that was refused with `s` seconds to wait is let in once they have passed, whatever calls
-- of any keys come between, if none of them lets the key in, the clock does not run backwards, and
-- no call before the refusal asked for more than its limit, above zero.
pub refused_then_allowed :
    (window : ℕ) (cs : List Call) (c : Call) (ds : List Call) (s later : ℕ)
    → InOrder 0 (cs ++ c ∷ [])
    → InOrder c.now ds
    → last_now c.now ds ≤ later
    → Limits c.limit cs
    → 0 < c.limit
    → (admit window c.now c.key c.limit (after window cs fresh)).1 ≡ refused s
    → c.now + 1000 * s ≤ later
    → times_of c.key
        (granted (run window ds (admit window c.now c.key c.limit (after window cs fresh)).0))
      ≡ []
    → (admit window later c.key c.limit
        (after window ds (admit window c.now c.key c.limit (after window cs fresh)).0)).1
      ≡ allowed
refused_then_allowed window cs c ds s later o between last m p e l shut =
    admit-allowed window later c.key c.limit _
      (subst (λ xs. length xs < c.limit) (sym counted_then) gone)
  where
    w : Window
    w = after window cs fresh

    r : List ℕ
    r = recent_of window c.now c.key c.limit w

    stored :
        (c.limit ≤ length r)
        × (s ≡ retry_after window c.now r)
        × ((admit window c.now c.key c.limit w).0.admissions ≡ set_times c.key r w.admissions)
    stored = admit-refused window c.now c.key c.limit w s e

    order : InOrder 0 cs × (last_now 0 cs ≤ c.now)
    order = last_now-InOrder 0 cs c o

    agrees : Agrees window (last_now 0 cs) w (spec_after window cs [])
    agrees = after-Agrees window 0 cs fresh [] order.0 (fresh-Agrees window 0)

    h : History
    h = spec_after window cs []

    step :
        ((admit window c.now c.key c.limit w).1 ≡ (spec_admit window c h).1)
        × Agrees window c.now (admit window c.now c.key c.limit w).0 (spec_admit window c h).0
    step = admit-spec_admit window (last_now 0 cs) c w h agrees order.1

    refused_there : Agrees window c.now (admit window c.now c.key c.limit w).0 h
    refused_there =
        subst (λ k. Agrees window c.now (admit window c.now c.key c.limit w).0 k)
          (spec_admit-refused window s c h (sym step.0 ∙ e)) step.1

    -- The calls between leave the key's admissions as they are.
    unmoved : times_of c.key (spec_after window ds h) ≡ times_of c.key h
    unmoved =
        ap (times_of c.key) (spec_after-granted window ds h)
        ∙ times_of-concat c.key h (granted (spec_run window ds h))
        ∙ ap (λ xs. times_of c.key h ++ xs)
            (ap (λ rs. times_of c.key (granted rs))
                (sym (run-spec_run window c.now ds _ h between refused_there))
              ∙ shut)
        ∙ append-nil (times_of c.key h)

    counted_then :
        filter
          (is_recent window later)
          (times c.key (after window ds (admit window c.now c.key c.limit w).0).admissions)
        ≡ filter (is_recent window later) r
    counted_then =
        (after-Agrees window c.now ds _ h between refused_there).same c.key later last
        ∙ ap (filter (is_recent window later)) unmoved
        ∙ sym (filter-filter window c.now later (times_of c.key h) (omega (arith, l)))
        ∙ ap (filter (is_recent window later)) (sym (agrees.same c.key c.now order.1))

    few : length r ≤ c.limit
    few = rw (agrees.same c.key c.now order.1) (
        spec_after-Within window c.limit 0 cs [] order.0 m (λ k at _. omega arith) c.key c.now
          order.1)

    up_to : UpTo c.now r
    up_to =
        filter-UpTo c.now _ _
          (WellKept-times c.now c.key w.admissions
            (WellKept-mono (last_now 0 cs) c.now w.admissions order.1 agrees.kept)).1

    gone : length (filter (is_recent window later) r) < c.limit
    gone = omega (
      arith,
      length-oldest_gone window c.now later r up_to (rw (← stored.1) l) (omega (arith, stored.0)),
      few,
    )

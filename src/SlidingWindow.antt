-- ===== src/SlidingWindow.antt =====
-- The per-key sliding-window counter of apps/api/src/sliding-window.ts.
-- The `Map` is an association list without the key's place; a timestamp is a native number, in
-- milliseconds, and `window` is `windowMs`. Where `now` stands before a stored time the source's
-- difference is negative and here it is 0: both are below a positive window.
pub mod Times
pub mod Refinement
pub mod Limits
use ticket_manager_system.Common.{
  ℕ, ◌+◌, ◌-◌, ◌/◌, ◌%◌, max, String, Bool, none, some, List, [], ◌∷◌, ◌++◌, ltb, leb, ◌==◌, str_eq,
  if◌then◌else◌, length, filter, get_last?,
}

-- How often a window's map is swept, in admissions.
abbrev pub sweep_every : ℕ
sweep_every = 100

pub data Admission : Type 0 where
  allowed : Admission
  refused : (retry_after_seconds : ℕ) → Admission

-- What one `slidingWindow(windowMs)` closes over.
pub record Window : Type 0 where
  pub admissions : List (String × List ℕ)
  pub admitted : ℕ

abbrev pub fresh : Window
fresh = record { admissions = []; admitted = 0 }

-- `admissions.get(key) ?? []`
unfoldable pub times : String → List (String × List ℕ) → List ℕ
times key [] = []
times key ((k, ts) ∷ rest) = if str_eq k key then ts else times key rest

-- `admissions.set(key, ts)`
unfoldable pub set_times : String → List ℕ → List (String × List ℕ) → List (String × List ℕ)
set_times key ts [] = (key, ts) ∷ []
set_times key ts ((k, old) ∷ rest) =
    if str_eq k key then (key, ts) ∷ rest else (k, old) ∷ set_times key ts rest

-- `now - at < windowMs`
abbrev pub is_recent : ℕ → ℕ → ℕ → Bool
is_recent window now at = ltb (now - at) window

-- Whether the sweep keeps a key: its last admission has not left the window.
is_live : ℕ → ℕ → List ℕ → Bool
is_live window now ts = elim (get_last? ts) [
  | none ↦ Bool.false
  | some last ↦ ltb (now - last) window
]

pub sweep : ℕ → ℕ → List (String × List ℕ) → List (String × List ℕ)
unfolding is_live
sweep window now [] = []
sweep window now ((k, ts) ∷ rest) =
    if is_live window now ts then (k, ts) ∷ sweep window now rest else sweep window now rest

abbrev pub oldest_or : ℕ → List ℕ → ℕ
oldest_or now [] = now
oldest_or now (at ∷ rest) = at

-- `Math.max(1, Math.ceil((windowMs - (now - oldest)) / 1000))`
abbrev pub retry_after : ℕ → ℕ → List ℕ → ℕ
retry_after window now recent = max 1 ((window - (now - oldest_or now recent) + 999) / 1000)

-- `recent.push(now)` and the write, with the sweep after every hundredth admission.
unfoldable pub count_in : ℕ → ℕ → String → List ℕ → Window → Window
count_in window now key recent w =
    let stored = set_times key (recent ++ now ∷ []) w.admissions in
    let admitted = w.admitted + 1 in
    if admitted % sweep_every == 0
    then record { admissions = sweep window now stored; admitted = admitted }
    else record { admissions = stored; admitted = admitted }

-- `admit(key, max)` at the instant `now`.
unfoldable pub admit : ℕ → ℕ → String → ℕ → Window → Window × Admission
unfolding count_in
admit window now key limit w =
    let recent = filter (is_recent window now) (times key w.admissions) in
    if leb limit (length recent)
    then (
      record w { admissions = set_times key recent w.admissions },
      refused (retry_after window now recent),
    )
    else (count_in window now key recent w, allowed)

pub record Call : Type 0 where
  pub now : ℕ
  pub key : String
  pub limit : ℕ

-- A sequence of calls, with the answer that each one got.
unfoldable pub run : ℕ → List Call → Window → List (Call × Admission)
run window [] w = []
run window (c ∷ cs) w =
    let (w', answer) = admit window c.now c.key c.limit w in (c, answer) ∷ run window cs w'

-- The window that a sequence of calls leaves.
unfoldable pub after : ℕ → List Call → Window → Window
after window [] w = w
after window (c ∷ cs) w = after window cs (admit window c.now c.key c.limit w).0

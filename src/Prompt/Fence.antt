-- ===== src/Prompt/Fence.antt =====
-- That a text cannot close the fence that `fenced` of apps/api/src/ai/provider.ts puts it in.
use Prim.Native.Char.{Char, code}
use Prim.Native.String.{[], ◌∷◌}
use ticket_manager_system.Common.{
  ℕ, String, ◌≡◌, refl, ap, ◌∙◌, Bool, true, false, not, ◌&&◌, ◌||◌, suc, ltb, ◌==◌, arith,
  Bool-cases, inl, inr, if◌then◌else◌,
}
use ticket_manager_system.Text.{is_space, is_empty, is_prefix, includes, trim_start, trim_end, trim}
use ticket_manager_system.Prompt.{
  closing, opening, without_marker, fence_body, fence_start, fenced, joined,
}

abbrev pub is_closing : Char → Bool
is_closing c = b'>' == code c

-- Whether no run of closing characters reaches three, behind some number of them.
unfoldable pub clean : ℕ → String → Bool
clean n [] = true
clean n (c ∷ s) =
    let on = clean (suc n) s in let off = clean 0 s in if is_closing c then ltb n 2 && on else off

two_closing-one : (s : String) → is_prefix ">>" s ≡ true → is_prefix ">" s ≡ true
unfolding is_prefix
two_closing-one [] e = e
two_closing-one (c ∷ s) e = ground (arith, e)

-- `clean` says that the closing marker does not occur.
clean-includes :
    (s : String)
    → (not (clean 0 s) ≡ includes s closing)
      × (not (clean 1 s) ≡ (includes s closing || is_prefix ">>" s))
      × (not (clean 2 s) ≡ (includes s closing || is_prefix ">" s))
unfolding clean includes is_prefix
clean-includes [] = (refl, refl, refl)
clean-includes (c ∷ s) =
    let (none_behind, one_behind, two_behind) = clean-includes s in
    elim (Bool-cases (is_closing c)) [
      | inr other ↦
          rw (other, clean, includes, is_prefix)
            (ground (arith, none_behind), ground (arith, none_behind), ground (arith, none_behind))
      | inl same ↦
          rw (same, clean, includes, is_prefix)
            (
              ground (arith, one_behind),
              ground (arith, two_behind, two_closing-one s),
              ground arith,
            )
    ]

trim_start-clean : (s : String) → clean 0 s ≡ true → clean 0 (trim_start s) ≡ true
unfolding clean trim_start
trim_start-clean [] e = e
trim_start-clean (c ∷ s) e = elim (Bool-cases (is_space (code c))) [
  | inl space ↦ ground (arith, space, e, trim_start-clean s)
  | inr other ↦ rw (other, trim_start) e
]

trim_end-clean : (n : ℕ) (s : String) → clean n s ≡ true → clean n (trim_end s) ≡ true
unfolding clean trim_end
trim_end-clean n [] e = e
trim_end-clean n (c ∷ s) e = elim (Bool-cases (is_space (code c) && is_empty (trim_end s))) [
  | inl cut ↦ rw (cut, trim_end) refl
  | inr stays ↦
      rw (stays, trim_end)
        (elim (Bool-cases (is_closing c)) [
          | inl same ↦ ground (arith, same, e, trim_end-clean (suc n) s)
          | inr other ↦ ground (arith, other, e, trim_end-clean 0 s)
        ])
]

clean-other :
    (c : Char) (s : String)
    → is_closing c ≡ false
    → clean 0 (without_marker closing 0 (c ∷ s)) ≡ clean 0 (without_marker closing 0 s)
unfolding clean without_marker is_prefix
clean-other c s other = ground (arith, other)

-- One pass takes out every run of three: what is left of a run has two at most, and the runs stay
-- apart.
without_marker-clean : (s : String) → clean 0 (without_marker closing 0 s) ≡ true
unfolding clean without_marker is_prefix
without_marker-clean [] = refl
without_marker-clean (c ∷ []) = ground arith
without_marker-clean (c ∷ d ∷ []) = ground arith
without_marker-clean (c ∷ d ∷ e ∷ s) = elim (Bool-cases (is_closing c)) [
  | inr other ↦ clean-other c (d ∷ e ∷ s) other ∙ without_marker-clean (d ∷ e ∷ s)
  | inl one ↦ elim (Bool-cases (is_closing d)) [
    | inr other ↦ ground (arith, one, other, without_marker-clean (e ∷ s))
    | inl two ↦ elim (Bool-cases (is_closing e)) [
      | inr other ↦ ground (arith, one, two, other, without_marker-clean s)
      | inl three ↦ rw (one, two, three, without_marker, is_prefix, clean) (without_marker-clean s)
    ]
  ]
]

clean-joined :
    (n : ℕ) (s t : String) → clean n (joined s (joined "\n" t)) ≡ (clean n s && clean 0 t)
unfolding clean joined
clean-joined n [] t = refl
clean-joined n (c ∷ s) t = elim (Bool-cases (is_closing c)) [
  | inl same ↦ ground (arith, same, clean-joined (suc n) s t)
  | inr other ↦ ground (arith, other, clean-joined 0 s t)
]

-- `slice(0, -1)`
unfoldable pub without_last : String → String
without_last [] = []
without_last (c ∷ []) = []
without_last (c ∷ d ∷ s) = c ∷ without_last (d ∷ s)

without_last-joined : (s : String) → without_last (joined s ">>>") ≡ joined s ">>"
unfolding without_last joined
without_last-joined [] = refl
without_last-joined (c ∷ []) = refl
without_last-joined (c ∷ d ∷ s) = ap (λ r. c ∷ r) (without_last-joined (d ∷ s))

joined_assoc : (s t u : String) → joined (joined s t) u ≡ joined s (joined t u)
unfolding joined
joined_assoc [] t u = refl
joined_assoc (c ∷ s) t u = ap (λ r. c ∷ r) (joined_assoc s t u)

fence_body-clean : (text : String) → clean 0 (fence_body text) ≡ true
unfolding fence_body trim
fence_body-clean text =
    trim_end-clean 0 _ (trim_start-clean _ (without_marker-clean (without_marker opening 0 text)))

-- A fence opens with the opening marker and the name and is closed by its last three characters, which
-- are the closing marker, and nowhere before: whatever the text, the marker does not occur in what
-- comes before the last character, where it does not occur in the name.
pub fenced-closes_last :
    (name text : String)
    → includes name closing ≡ false
    → ((content : String) × (fenced name text
          ≡ joined opening (joined name (joined "\n" (joined content (joined "\n" closing))))))
      × (includes (without_last (fenced name text)) closing ≡ false)
unfolding fenced fence_start joined clean
fenced-closes_last name text free =
    let body = fence_body text in
    let unnamed : clean 0 name ≡ true = ground (arith, free, (clean-includes name).0) in
    let shape : without_last (fenced name text) ≡ joined (fence_start name text) ">>" =
      without_last-joined (fence_start name text) in
    let flat : joined (fence_start name text) ">>"
        ≡ joined opening (joined name (joined "\n" (joined body (joined "\n" ">>")))) =
      ap (joined opening) (
        joined_assoc name (joined "\n" (joined body "\n")) ">>"
        ∙ ap (λ r. joined name (joined "\n" r)) (joined_assoc body "\n" ">>")) in
    let tidy : clean 0 (joined name (joined "\n" (joined body (joined "\n" ">>")))) ≡ true =
      clean-joined 0 name (joined body (joined "\n" ">>"))
      ∙ rw unnamed (clean-joined 0 body ">>" ∙ rw (fence_body-clean text) refl) in
    let whole : clean 0 (without_last (fenced name text)) ≡ true =
      ap (clean 0) (shape ∙ flat) ∙ tidy in
    (
      (
        body,
        ap (joined opening) (
            joined_assoc name (joined "\n" (joined body "\n")) closing
            ∙ ap (λ r. joined name (joined "\n" r)) (joined_assoc body "\n" closing)),
      ),
      ground (arith, whole, (clean-includes (without_last (fenced name text))).0),
    )

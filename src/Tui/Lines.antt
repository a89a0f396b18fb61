-- ===== src/Tui/Lines.antt =====
-- internal/tui/model.go: `clean`, `fit` and `pad`. A text is the list of its runes, and what unicode
-- calls a control or format character is a parameter.
use lazywrap.Base.{
  ℕ, zero, suc, ◌+◌, ◌-◌, ◌≤◌, ◌≡◌, refl, Bytes, Bool, false, ◌||◌, List, [], ◌∷◌, ◌++◌, arith,
  Bool-cases, inl, inr, length, length-append, length-take, length-replicate, take, replicate, All,
  ◌==◌, ltb, if◌then◌else◌,
}

-- `pad`
unfoldable pub pad : List Bytes → ℕ → List Bytes
pad lines n =
    if ltb n (length lines) then take n lines else lines ++ replicate (n - length lines) []

pub length-pad : (lines : List Bytes) (n : ℕ) → length (pad lines n) ≡ n
unfolding pad
length-pad lines n =
    let nothing : Bytes = [] in
    ground (
      arith,
      length-take n lines,
      length-append lines (replicate (n - length lines) nothing),
      length-replicate (n - length lines) nothing,
    )

-- The cells that a rune takes.
abbrev pub width : ℕ → ℕ
width r = if ltb 127 r then 2 else 1

pub cells : Bytes → ℕ
cells [] = 0
cells (r ∷ s) = width r + cells s

cells-append : (s t : Bytes) → cells (s ++ t) ≡ cells s + cells t
unfolding cells
cells-append [] t = omega arith
cells-append (r ∷ s) t = omega (arith, cells-append s t)

cells-blanks : (n : ℕ) → cells (replicate n 32) ≡ n
unfolding cells
cells-blanks zero = refl
cells-blanks (suc n) = omega (arith, cells-blanks n)

module _ (is_control : ℕ → Bool) where
  unfoldable pub clean_rune : ℕ → ℕ
  clean_rune r = if is_control r || r == 0x2028 || r == 0x2029 then 32 else r

  -- `clean`
  unfoldable pub clean : Bytes → Bytes
  unfolding clean_rune
  clean [] = []
  clean (r ∷ s) = clean_rune r ∷ clean s

  -- The loop of `fit`, and the blanks that fill the line.
  unfoldable pub fit_loop : ℕ → ℕ → Bytes → Bytes
  fit_loop used w [] = replicate (w - used) 32
  fit_loop used w (r ∷ s) =
      let rest = fit_loop (used + width r) w s in
      if ltb w (used + width r) then replicate (w - used) 32 else r ∷ rest

  -- `fit`
  unfoldable pub fit : Bytes → ℕ → Bytes
  unfolding fit_loop clean
  fit s w = if w == 0 then [] else fit_loop 0 w (clean s)

  fit_loop-cells : (used w : ℕ) (s : Bytes) → used ≤ w → used + cells (fit_loop used w s) ≡ w
  unfolding fit_loop cells
  fit_loop-cells used w [] le = ground (arith, cells-blanks (w - used))
  fit_loop-cells used w (r ∷ s) le =
      ground (arith, cells-blanks (w - used), fit_loop-cells (used + width r) w s)

  -- A line that was fitted fills its cells exactly.
  pub fit-cells : (s : Bytes) (w : ℕ) → cells (fit s w) ≡ w
  unfolding fit cells
  fit-cells s w = ground (arith, fit_loop-cells 0 w (clean s))

  -- It shows as itself: no control character, and no line or paragraph separator.
  abbrev pub IsShown : ℕ → Type 0
  IsShown r = (is_control r || r == 0x2028 || r == 0x2029) ≡ false

  module _ (blank : is_control 32 ≡ false) where
    blanks-IsShown : (n : ℕ) → All IsShown (replicate n 32)
    blanks-IsShown zero = tt
    blanks-IsShown (suc n) = (ground (arith, blank), blanks-IsShown n)

    clean-IsShown : (s : Bytes) → All IsShown (clean s)
    unfolding clean clean_rune
    clean-IsShown [] = tt
    clean-IsShown (r ∷ s) = elim (Bool-cases (is_control r || r == 0x2028 || r == 0x2029)) [
      | inl e ↦ rw e (ground (arith, blank), clean-IsShown s)
      | inr e ↦ rw e (e, clean-IsShown s)
    ]

    fit_loop-IsShown : (used w : ℕ) (s : Bytes) → All IsShown s → All IsShown (fit_loop used w s)
    unfolding fit_loop
    fit_loop-IsShown used w [] h = blanks-IsShown (w - used)
    fit_loop-IsShown used w (r ∷ s) (p, h) = elim (Bool-cases (ltb w (used + width r))) [
      | inl e ↦ rw e (blanks-IsShown (w - used))
      | inr e ↦ rw e (p, fit_loop-IsShown (used + width r) w s h)
    ]

    pub fit-IsShown : (s : Bytes) (w : ℕ) → All IsShown (fit s w)
    unfolding fit
    fit-IsShown s w = elim (Bool-cases (w == 0)) [
      | inl e ↦ rw e tt
      | inr e ↦ rw e (fit_loop-IsShown 0 w (clean s) (clean-IsShown s))
    ]

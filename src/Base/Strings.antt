-- ===== src/Base/Strings.antt =====
-- Functions of Go's `strings`, on ASCII text.
use Prim.Native.Nat.{ℕ, ◌+◌}
use mathlib.Core.Path.{◌≡◌, refl}
use mathlib.Core.Bool.{Bool, true, false, ◌&&◌, ◌||◌}
use mathlib.Core.Option.{Option, none, some}
use mathlib.Core.List.{[], ◌∷◌, ◌++◌, reverse}
use native.Mathlib.Omega.{arith}
use lazywrap.Base.Tests.{◌==◌, leb, if◌then◌else◌}
use lazywrap.Base.Text.{Bytes}

abbrev lower_byte : ℕ → ℕ
lower_byte c = if leb b'A' c && leb c b'Z' then c + 32 else c

-- `strings.ToLower`
unfoldable pub to_lower : Bytes → Bytes
to_lower [] = []
to_lower (c ∷ s) = lower_byte c ∷ to_lower s

pub to_lower_idem : (s : Bytes) → to_lower (to_lower s) ≡ to_lower s
unfolding to_lower
to_lower_idem [] = refl
to_lower_idem (c ∷ s) = ground (arith, to_lower_idem s)

-- White space: tab, newline, vertical tab, form feed, carriage return, blank.
abbrev pub is_space : ℕ → Bool
is_space c = (leb 9 c && leb c 13) || c == 32

unfoldable pub trim_left : (ℕ → Bool) → Bytes → Bytes
trim_left drop [] = []
trim_left drop (c ∷ s) = if drop c then trim_left drop s else c ∷ s

unfoldable pub trim_right : (ℕ → Bool) → Bytes → Bytes
unfolding trim_left
trim_right drop s = reverse (trim_left drop (reverse s))

-- `strings.TrimSpace`
unfoldable pub trim_space : Bytes → Bytes
unfolding trim_left trim_right
trim_space s = trim_right is_space (trim_left is_space s)

-- `strings.CutPrefix`: what follows the prefix.
unfoldable pub cut_prefix : Bytes → Bytes → Option Bytes
cut_prefix s [] = some s
cut_prefix [] (p ∷ ps) = none
cut_prefix (c ∷ s) (p ∷ ps) = if c == p then cut_prefix s ps else none

-- `strings.HasPrefix`
unfoldable pub has_prefix : Bytes → Bytes → Bool
unfolding cut_prefix
has_prefix s p = elim (cut_prefix s p) [ none ↦ false | some _ ↦ true ]

-- `strings.TrimPrefix`
unfoldable pub trim_prefix : Bytes → Bytes → Bytes
unfolding cut_prefix
trim_prefix s p = elim (cut_prefix s p) [ none ↦ s | some rest ↦ rest ]

-- `strings.ContainsRune`, for an ASCII rune.
unfoldable pub has_byte : ℕ → Bytes → Bool
has_byte b [] = false
has_byte b (c ∷ s) = c == b || has_byte b s

-- `strings.ContainsAny`
unfoldable pub contains_any : Bytes → Bytes → Bool
unfolding has_byte
contains_any [] chars = false
contains_any (c ∷ s) chars = has_byte c chars || contains_any s chars

-- `strings.Cut` at a byte: what stands before its first occurrence and behind it.
unfoldable pub cut : ℕ → Bytes → Option (Bytes × Bytes)
cut b [] = none
cut b (c ∷ s) =
    if c == b
    then some ([], s)
    else elim (cut b s) [ none ↦ none | some (before, after) ↦ some (c ∷ before, after) ]

pub cut_prefix-append : (p s : Bytes) → cut_prefix (p ++ s) p ≡ some s
unfolding cut_prefix
cut_prefix-append [] s = refl
cut_prefix-append (c ∷ p) s = ground (arith, cut_prefix-append p s)

-- A prefix that was cut off stood there.
pub cut_prefix_sound : (s p rest : Bytes) → cut_prefix s p ≡ some rest → s ≡ p ++ rest
unfolding cut_prefix
cut_prefix_sound s [] rest h = ground arith
cut_prefix_sound [] (c ∷ p) rest h = cc
cut_prefix_sound (d ∷ s) (c ∷ p) rest h = ground (arith, cut_prefix_sound s p rest)

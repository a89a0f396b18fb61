-- ===== src/Tui/Keys.antt =====
-- internal/tui/model.go: `nextKey`, and the keys that `key` tells apart.
use mathlib.Core.List.{append-nil}
use lazywrap.Base.{
  ℕ, ◌<◌, ◌≡◌, ◌≢◌, ◌⊎◌, inl, inr, refl, Option-cases, Bool-cases, if_lem, ap, sym, Bytes, codes,
  eq_bytes, length, ◌&&◌, ◌||◌, [], ◌∷◌, ◌++◌, Option, none, some, arith, ◌==◌, ltb, leb,
  if◌then◌else◌,
}

-- The loop of `nextKey`: the text up to the first final byte of a sequence, and what follows it.
unfoldable pub cut_final : Bytes → Option (Bytes × Bytes)
cut_final [] = none
cut_final (c ∷ s) =
    let rest = cut_final s in
    if leb 0x40 c && leb c 0x7e
    then some (c ∷ [], s)
    else elim rest [ none ↦ none | some (a, b) ↦ some (c ∷ a, b) ]

-- A key and the rest of the input; no key when more input is needed.
unfoldable pub next_key : Bytes → Bytes × Bytes
unfolding cut_final
next_key [] = ([], [])
next_key (c ∷ []) = if c == 27 then ([], c ∷ []) else (c ∷ [], [])
next_key (c ∷ d ∷ s) =
    if c == 27
    then (if d == b'[' || d == b'O'
        then elim (cut_final s) [
          | some (a, b) ↦ (c ∷ d ∷ a, b)
          | none ↦ if ltb 32 (length (c ∷ d ∷ s)) then (codes "escape", []) else ([], c ∷ d ∷ s)
        ]
        else (codes "escape", d ∷ s))
    else (c ∷ [], d ∷ s)

pub data Key : Type 0 where
  interrupt enter escape erase tab arrow_up arrow_down page_up page_down unknown : Key
  char : ℕ → Key

abbrev pub single : Bytes → Key
single (c ∷ []) = char c
single _ = unknown

-- The key that the bytes stand for in the switches of `key`.
unfoldable pub key_of : Bytes → Key
unfolding eq_bytes
key_of k =
    if eq_bytes k (3 ∷ [])
    then interrupt
    else if eq_bytes k (13 ∷ []) || eq_bytes k (10 ∷ [])
    then enter
    else if eq_bytes k (codes "escape") || eq_bytes k (27 ∷ [])
    then escape
    else if eq_bytes k (127 ∷ []) || eq_bytes k (8 ∷ [])
    then erase
    else if eq_bytes k (9 ∷ [])
    then tab
    else if eq_bytes k (27 ∷ b'[' ∷ b'A' ∷ [])
    then arrow_up
    else if eq_bytes k (27 ∷ b'[' ∷ b'B' ∷ [])
    then arrow_down
    else if eq_bytes k (27 ∷ b'[' ∷ b'5' ∷ b'~' ∷ [])
    then page_up
    else if eq_bytes k (27 ∷ b'[' ∷ b'6' ∷ b'~' ∷ [])
    then page_down
    else single k

cut_final_lem : (s a b : Bytes) → cut_final s ≡ some (a, b) → (s ≡ a ++ b) × (length b < length s)
unfolding cut_final
cut_final_lem [] a b h = cc
cut_final_lem (c ∷ s) a b h = elim (Option-cases (cut_final s)) [
  | inl e ↦ ground (arith, e, h)
  | inr ((x, y), e) ↦ ground (arith, e, h, cut_final_lem s x y e)
]

-- How an answer of `next_key` stands to the input.
abbrev pub Splits : Bytes → Bytes × Bytes → Type 0
Splits s r =
    (r.0 ≡ []) × (r.1 ≡ s) ⊎ (r.0 ≢ []) × (length r.1 < length s) × ((p : Bytes) × (s ≡ p ++ r.1))

-- Without a key the input is left as it is; a key takes at least one byte, and what is left is the
-- end of the input.
pub next_key_progress : (s : Bytes) → Splits s (next_key s)
unfolding next_key
next_key_progress [] = inl (refl, refl)
next_key_progress (c ∷ []) = elim (Bool-cases (c == 27)) [
  | inl e ↦ rw e (inl (refl, refl))
  | inr e ↦ rw e (inr ((λ h. cc), ground arith, (c ∷ [], refl)))
]
next_key_progress (c ∷ d ∷ s) =
    if_lem (Splits (c ∷ d ∷ s)) (c == 27)
      (if_lem (Splits (c ∷ d ∷ s)) (d == b'[' || d == b'O') (sequence (cut_final s) refl)
        (inr ((λ h. cc), ground arith, (c ∷ [], refl))))
      (inr ((λ h. cc), ground arith, (c ∷ [], refl)))
  where
    sequence :
        (o : Option (Bytes × Bytes))
        → cut_final s ≡ o
        → Splits (c ∷ d ∷ s) (elim o [
          | some (a, b) ↦ (c ∷ d ∷ a, b)
          | none ↦ if ltb 32 (length (c ∷ d ∷ s)) then (codes "escape", []) else ([], c ∷ d ∷ s)
        ])
    sequence none e =
        if_lem (Splits (c ∷ d ∷ s)) (ltb 32 (length (c ∷ d ∷ s)))
          (inr ((λ h. cc), ground arith, (c ∷ d ∷ s, sym (append-nil (c ∷ d ∷ s)))))
          (inl (refl, refl))
    sequence (some (a, b)) e =
        let (q, lt) = cut_final_lem s a b e in
        inr ((λ h. cc), ground (arith, lt), (c ∷ d ∷ a, ap (λ t. c ∷ d ∷ t) q))

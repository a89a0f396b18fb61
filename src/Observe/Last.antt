-- ===== src/Observe/Last.antt =====
-- The last entries of a list.
use native.Mathlib.Nat.{zero-add}
use lazywrap.Base.{
  ℕ, zero, suc, ◌+◌, ◌-◌, ◌≤◌, ◌≡◌, List, [], ◌∷◌, ◌++◌, arith, length, drop, length-append,
  length-drop,
}

module _ {A : Type 0} where
  -- The last `n` of a list.
  abbrev pub last_of : ℕ → List A → List A
  last_of n xs = drop (length xs - n) xs

  drop-append_drop :
      (n j k : ℕ) (xs ys : List A)
      → n ≡ j + k
      → j ≤ length xs
      → drop k (drop j xs ++ ys) ≡ drop n (xs ++ ys)
  drop-append_drop n zero k xs ys e h = rw (e, zero-add)
  drop-append_drop n (suc j) k [] ys e h = absurd (omega arith)
  drop-append_drop zero (suc j) k (x ∷ xs) ys e h = absurd (omega arith)
  drop-append_drop (suc n) (suc j) k (x ∷ xs) ys e h =
      drop-append_drop n j k xs ys (omega arith) (omega arith)

  pub length-last_of : (n : ℕ) (xs : List A) → length (last_of n xs) ≤ n
  length-last_of n xs = omega (arith, length-drop (length xs - n) xs)

  -- Keeping the last `n` early changes nothing in the end.
  pub last_of-append_last_of :
      (n : ℕ) (xs ys : List A) → last_of n (last_of n xs ++ ys) ≡ last_of n (xs ++ ys)
  last_of-append_last_of n xs ys =
      drop-append_drop (length (xs ++ ys) - n) (length xs - n) (length (last_of n xs ++ ys) - n) xs
        ys
        (omega (
          arith,
          length-append xs ys,
          length-append (last_of n xs) ys,
          length-drop (length xs - n) xs,
        ))
        (omega arith)

  pub last_of_short : (n : ℕ) (xs : List A) → length xs ≤ n → last_of n xs ≡ xs
  last_of_short n xs h = let e : length xs - n ≡ 0 = omega arith in rw e

  pub drop_one-append :
      (n : ℕ) (xs : List A) (a : A)
      → length xs ≡ suc n
      → drop 1 xs ++ a ∷ [] ≡ last_of (suc n) (xs ++ a ∷ [])
  drop_one-append n [] a e = absurd (omega arith)
  drop_one-append n (x ∷ xs) a e =
      let q : length (x ∷ xs ++ a ∷ []) - suc n ≡ 1 = omega (arith, length-append xs (a ∷ [])) in
      rw q

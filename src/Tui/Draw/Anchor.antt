-- ===== src/Tui/Draw/Anchor.antt =====
-- internal/tui/model.go: where `logLines` ends while the log is paused.
use lazywrap.Base.{
  ℕ, zero, suc, ◌+◌, ◌-◌, ◌≤◌, ◌<◌, ◌≡◌, refl, Bytes, true, false, ◌&&◌, inl, inr, length,
  length-append, get_elem?, List, [], ◌∷◌, ◌++◌, some, ◌==◌, ltb, leb, if◌then◌else◌, arith,
  Bool-cases, if_lem,
}
use lazywrap.Tui.Draw.Panes.{smaller}
use lazywrap.Tui.Draw.Logs.{find_end, Window, note_end, pinned_end, window}
use lazywrap.Tui.Draw.Fills.{Yields, bind-Yields, Yields-mono, pinned_end_bound}

abbrev pub Rows : Type 0
Rows = List (ℕ × Bytes)

-- The rows are numbered in their order, above a number.
abbrev pub Ascends : ℕ → Rows → Type 0
Ascends low [] = Unit
Ascends low ((seq, text) ∷ rows) = (low < seq) × Ascends seq rows

find_end_past :
    (log_end i end low : ℕ) (rows : Rows)
    → log_end ≤ low
    → Ascends low rows
    → find_end log_end i end rows ≡ end
unfolding find_end
find_end_past log_end i end low [] le a = refl
find_end_past log_end i end low ((seq, text) ∷ rows) le (lt, a) =
    let e : leb seq log_end ≡ false = ground arith in
    rw e (find_end_past log_end (i + 1) end seq rows (omega arith) a)

-- The row at this index has this number.
abbrev IsAt : ℕ → ℕ → Rows → Type 0
IsAt k n [] = ⊥
IsAt zero n ((seq, text) ∷ rows) = seq ≡ n
IsAt (suc k) n (row ∷ rows) = IsAt k n rows

get_elem?-IsAt :
    (rows : Rows) (k : ℕ) → k < length rows → Yields (λ row. IsAt k row.0 rows) (get_elem? rows k)
get_elem?-IsAt [] k lt = absurd (omega arith)
get_elem?-IsAt ((seq, text) ∷ rows) zero lt = refl
get_elem?-IsAt ((seq, text) ∷ rows) (suc k) lt = get_elem?-IsAt rows k (omega arith)

find_end-IsAt :
    (k n i end low : ℕ) (rows : Rows)
    → Ascends low rows
    → IsAt k n rows
    → (low < n) × (find_end n i end rows ≡ i + k + 1)
unfolding find_end
find_end-IsAt k n i end low [] a at = absurd at
find_end-IsAt zero n i end low ((seq, text) ∷ rows) (lt, a) at =
    let e : leb seq n ≡ true = ground arith in
    (omega arith, rw e (omega (arith, find_end_past n (i + 1) (i + 1) seq rows (omega arith) a)))
find_end-IsAt (suc k) n i end low ((seq, text) ∷ rows) (lt, a) at =
    let (lt', f) = find_end-IsAt k n (i + 1) (if leb seq n then i + 1 else end) seq rows a at in
    (omega arith, omega arith)

IsAt-append_left : (k n : ℕ) (rows more : Rows) → IsAt k n rows → IsAt k n (rows ++ more)
IsAt-append_left k n [] more at = absurd at
IsAt-append_left zero n ((seq, text) ∷ rows) more at = at
IsAt-append_left (suc k) n (row ∷ rows) more at = IsAt-append_left k n rows more at

IsAt-append_right :
    (k j n : ℕ) (gone rows : Rows) → j ≡ length gone + k → IsAt j n (gone ++ rows) → IsAt k n rows
IsAt-append_right k j n [] rows e at = let e' : j ≡ k = omega arith in rw (← e') at
IsAt-append_right k zero n (row ∷ gone) rows e at = absurd (omega arith)
IsAt-append_right k (suc j) n (row ∷ gone) rows e at =
    IsAt-append_right k j n gone rows (omega arith) at

IsAt-unique : (k n n' : ℕ) (rows : Rows) → IsAt k n rows → IsAt k n' rows → n ≡ n'
IsAt-unique k n n' [] at at' = absurd at
IsAt-unique zero n n' ((seq, text) ∷ rows) at at' = omega arith
IsAt-unique (suc k) n n' (row ∷ rows) at at' = IsAt-unique k n n' rows at at'

-- What `logLines` noted of a paused log: the rows below its end, and the number of its last row.
abbrev IsNoted : Rows → Window → Type 0
IsNoted rows w =
    0 < w.offset → 0 < w.end → (w.end + w.offset ≡ length rows) × IsAt (w.end - 1) w.log_end rows

abbrev Notes : Rows → ℕ → ℕ → Window → Type 0
Notes rows end offset w = (w.end ≡ end) × (w.offset ≡ offset) × IsNoted rows w

note_end-Notes :
    (end offset log_end : ℕ) (rows : Rows)
    → end ≤ length rows
    → (0 < offset → end + offset ≡ length rows)
    → Yields (Notes rows end offset) (note_end end offset log_end rows)
unfolding note_end
note_end-Notes end offset log_end rows le e = elim (Bool-cases (ltb 0 offset && ltb 0 end)) [
  | inl b ↦ rw b (
      bind-Yields (λ row. IsAt (end - 1) row.0 rows) (Notes rows end offset)
        (get_elem? rows (end - 1)) _ (get_elem?-IsAt rows (end - 1) (ground arith))
        (λ row at. (refl, refl, λ lt lt'. (e lt, at))))
  | inr b ↦ rw b (refl, refl, λ lt lt'. absurd (ground arith))
]

note_end-IsNoted :
    (end offset log_end : ℕ) (rows : Rows)
    → end ≤ length rows
    → (0 < offset → end + offset ≡ length rows)
    → Yields (IsNoted rows) (note_end end offset log_end rows)
note_end-IsNoted end offset log_end rows le e =
    Yields-mono (Notes rows end offset) (IsNoted rows) (note_end end offset log_end rows)
      (λ w (f, g, h). h) (note_end-Notes end offset log_end rows le e)

window-IsNoted :
    (offset log_end : ℕ) (rows : Rows) → Yields (IsNoted rows) (window offset log_end rows)
unfolding window
window-IsNoted offset log_end rows =
    let n = length rows in
    let noted = if offset == 0 then 0 else log_end in
    let end = pinned_end noted rows in
    let offset' = smaller offset (n - 1) in
    if_lem (Yields (IsNoted rows)) (ltb 0 offset' && ltb 0 noted)
      (note_end-IsNoted end (n - end) noted rows (pinned_end_bound noted rows)
        (λ lt. ground (arith, pinned_end_bound noted rows)))
      (note_end-IsNoted (n - offset') offset' noted rows (omega arith) (λ lt. ground arith))

window_paused :
    (offset log_end : ℕ) (rows : Rows)
    → 0 < offset
    → 0 < log_end
    → 1 < length rows
    → window offset log_end rows
      ≡ note_end (pinned_end log_end rows) (length rows - pinned_end log_end rows) log_end rows
unfolding window
window_paused offset log_end rows lt lt' lt'' =
    let e : (offset == 0) ≡ false = ground arith in
    let e' : (ltb 0 (smaller offset (length rows - 1)) && ltb 0 log_end) ≡ true = ground arith in
    rw (e, e') refl

pinned_end-IsAt :
    (k n : ℕ) (rows : Rows) → find_end n 0 0 rows ≡ 0 + k + 1 → pinned_end n rows ≡ k + 1
unfolding pinned_end
pinned_end-IsAt k n rows e = ground (arith, e)

-- The same row is the last one: `gone` rows above it have been dropped.
abbrev pub IsAnchored : ℕ → Window → Window → Type 0
IsAnchored gone w w' = (w'.end + gone ≡ w.end) × (w'.log_end ≡ w.log_end) × (0 < w'.offset)

Notes-IsAnchored :
    (gone : Rows) (w w' : Window) (rows : Rows) (k : ℕ)
    → IsAt k w.log_end rows
    → k + 1 < length rows
    → k + 1 + length gone ≡ w.end
    → Notes rows (k + 1) (length rows - (k + 1)) w'
    → IsAnchored (length gone) w w'
Notes-IsAnchored gone w w' rows k at room e (f, g, noted) =
    let (sum, at') = noted (omega arith) (omega arith) in
    let same : w'.end - 1 ≡ k = omega arith in
    let at'' : IsAt k w'.log_end rows = rw same at at' in
    (omega arith, IsAt-unique k w'.log_end w.log_end rows at'' at, omega arith)

-- When `logLines` has drawn a paused log, and then entries numbered above came in at its end and
-- the oldest, fewer than were above its last row, were dropped, it draws the log down to the same
-- last row again, and it is still paused there.
pub window-IsAnchored :
    (gone kept more : Rows) (offset log_end : ℕ) (w : Window)
    → Ascends 0 (kept ++ more)
    → window offset log_end (gone ++ kept) ≡ some w
    → 0 < w.offset
    → length gone < w.end
    → Yields (IsAnchored (length gone) w) (window w.offset w.log_end (kept ++ more))
window-IsAnchored gone kept more offset log_end w a e lt lt' =
    let rows = kept ++ more in
    let noted : IsNoted (gone ++ kept) w = rw e at (window-IsNoted offset log_end (gone ++ kept)) in
    let (sum, at) = noted lt (omega arith) in
    let k = w.end - 1 - length gone in
    let at' =
      IsAt-append_left k w.log_end kept more
        (IsAt-append_right k (w.end - 1) w.log_end gone kept (omega arith) at) in
    let (low, found) = find_end-IsAt k w.log_end 0 0 0 rows a at' in
    let pinned : pinned_end w.log_end rows ≡ k + 1 = pinned_end-IsAt k w.log_end rows found in
    let room : k + 1 < length rows =
      omega (arith, sum, length-append gone kept, length-append kept more) in
    let n = length rows in
    let redraws = window_paused w.offset w.log_end rows lt low (omega arith) in
    rw (redraws, pinned)
      (Yields-mono (Notes rows (k + 1) (n - (k + 1))) (IsAnchored (length gone) w)
        (note_end (k + 1) (n - (k + 1)) w.log_end rows)
        (λ w' x. Notes-IsAnchored gone w w' rows k at' room (omega arith) x)
        (note_end-Notes (k + 1) (n - (k + 1)) w.log_end rows (omega arith) (λ i. omega arith)))

-- ===== src/Tui/Draw/Shows.antt =====
-- internal/tui/model.go: what `view` puts on a terminal of any size.
use lazywrap.Base.{
  ℕ, zero, suc, ◌-◌, ◌/◌, ◌≡◌, refl, Bytes, Bool, false, ◌||◌, length, length-map, map, List, [],
  ◌∷◌, ◌++◌, Option, none, some, ◌==◌, ltb, if_lem, arith, All,
}
use lazywrap.Observe.{Store}
use lazywrap.Tui.{Model}
use lazywrap.Tui.Lines.{cells, pad, length-pad, fit, fit-cells, IsShown, fit-IsShown}
use lazywrap.Tui.Draw.Panes.{Texts, larger, smaller, app_lines, detail_lines}
use lazywrap.Tui.Draw.Logs.{log_lines}
use lazywrap.Tui.Draw.View.{pad_pane, columns, arrange, body_lines, page, print_lines, view}
use lazywrap.Tui.Draw.Fills.{
  Yields, bind-Yields, IsThere, IsPane, app_lines-IsThere, detail_lines-IsPane, log_lines-IsPane,
}

abbrev IsDrawn : List Bytes × Model → Type 0
IsDrawn p = Unit

pad_pane-IsDrawn :
    (body : ℕ) (o : Option (List Bytes × Model))
    → Yields (IsPane body) o
    → Yields IsDrawn (pad_pane body o)
unfolding pad_pane
pad_pane-IsDrawn body none h = absurd h
pad_pane-IsDrawn body (some (lines, m)) h = tt

module _ (is_control : ℕ → Bool) where
  columns-IsThere :
      (lw right_w n : ℕ) (left right : List Bytes)
      → length left ≡ n
      → length right ≡ n
      → Yields IsThere (columns is_control lw right_w n left right)
  unfolding columns
  columns-IsThere lw right_w zero left right e f = tt
  columns-IsThere lw right_w (suc n) [] right e f = absurd (omega arith)
  columns-IsThere lw right_w (suc n) (l ∷ left) [] e f = absurd (omega arith)
  columns-IsThere lw right_w (suc n) (l ∷ left) (r ∷ right) e f =
      bind-Yields IsThere IsThere (columns is_control lw right_w n left right) _
        (columns-IsThere lw right_w n left right (omega arith) (omega arith)) (λ lines i. tt)

  arrange-IsDrawn :
      (t : Texts) (store : Store) (w body : ℕ) (left detail logs : List Bytes) (m : Model)
      → Yields IsDrawn (arrange is_control t store w body left detail logs m)
  unfolding arrange
  arrange-IsDrawn t store w body left detail logs m =
      let lw = larger 24 (smaller 40 (w / 3)) in
      let right = detail ++ logs in
      if_lem (Yields IsDrawn) (m.maximize == 1) tt (
        if_lem (Yields IsDrawn) (m.maximize == 2)
          (pad_pane-IsDrawn body (detail_lines t body m) (detail_lines-IsPane t body m))
          (if_lem (Yields IsDrawn) (m.maximize == 3)
            (pad_pane-IsDrawn body (log_lines t store body m) (log_lines-IsPane t store body m))
            (bind-Yields IsThere IsDrawn
              (columns is_control lw (w - lw - 3) body (pad left body) (pad right body)) _
              (columns-IsThere lw (w - lw - 3) body (pad left body) (pad right body)
                (length-pad left body) (length-pad right body))
              (λ lines i. tt))))

  body_lines-IsDrawn :
      (t : Texts) (store : Store) (w h : ℕ) (m : Model)
      → Yields IsDrawn (body_lines is_control t store w h m)
  unfolding body_lines
  body_lines-IsDrawn t store w h m =
      let body = h - 3 in
      if_lem (Yields IsDrawn) (ltb w 60 || ltb h 12) tt (
        bind-Yields IsThere IsDrawn (app_lines t body m) _ (app_lines-IsThere t body m) (λ left i.
          bind-Yields (IsPane (body / 2)) IsDrawn (detail_lines t (body / 2) m) _
            (detail_lines-IsPane t (body / 2) m)
            (λ (detail, m') e.
              bind-Yields (IsPane (body - length detail)) IsDrawn
                (log_lines t store (body - length detail) m') _
                (log_lines-IsPane t store (body - length detail) m')
                (λ (logs, m'') e'. arrange-IsDrawn t store w body left detail logs m''))))

  page-IsDrawn :
      (t : Texts) (store : Store) (w h : ℕ) (m : Model)
      → Yields IsDrawn (page is_control t store w h m)
  unfolding page
  page-IsDrawn t store w h m =
      bind-Yields IsDrawn IsDrawn (body_lines is_control t store w h m) _
        (body_lines-IsDrawn t store w h m) (λ (lines, m') i. tt)

  -- A line that fills its row exactly, with runes that show.
  abbrev pub IsRow : ℕ → Bytes → Type 0
  IsRow w l = (cells l ≡ w) × All (IsShown is_control) l

  fit-IsRow :
      is_control 32 ≡ false
      → (w : ℕ) (ls : List Bytes) → All (IsRow w) (map (λ l. fit is_control l w) ls)
  fit-IsRow blank w [] = tt
  fit-IsRow blank w (l ∷ ls) =
      ((fit-cells is_control l w, fit-IsShown is_control blank l w), fit-IsRow blank w ls)

  -- What `view` prints: the rows of a terminal of this size.
  abbrev pub Prints : ℕ → ℕ → Bytes × Model → Type 0
  Prints w h (text, m) =
      (rows : List Bytes) × (text ≡ print_lines rows) × (length rows ≡ h) × All (IsRow w) rows

  -- For a blank that is not a control character, `view` answers on a terminal of any size, with no
  -- slice or index out of range, and prints as many rows as the terminal has, each of exactly its
  -- width and with no control character; a height or width of 0 counts as 1.
  pub view_fills :
      (t : Texts) (store : Store) (width height : ℕ) (m : Model)
      → is_control 32 ≡ false
      → Yields (Prints (larger 1 width) (larger 1 height)) (view is_control t store width height m)
  unfolding view
  view_fills t store width height m blank =
      let w = larger 1 width in
      let h = larger 1 height in
      bind-Yields IsDrawn (Prints w h) (page is_control t store w h m) _
        (page-IsDrawn t store w h m)
        (λ (lines, m') i.
          let fitted = map (λ l. fit is_control l w) (pad lines h) in
          (
            fitted,
            refl,
            omega (arith, length-map (pad lines h) (λ l. fit is_control l w), length-pad lines h),
            fit-IsRow blank w (pad lines h),
          ))

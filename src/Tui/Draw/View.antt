-- ===== src/Tui/Draw/View.antt =====
-- internal/tui/model.go: `view`. What unicode calls a control or format character is a parameter.
use lazywrap.Base.{
  ℕ, zero, suc, ◌-◌, ◌/◌, Bytes, codes, length, map, Bool, ◌||◌, List, [], ◌∷◌, ◌++◌, Option, none,
  some, ◌==◌, ltb, if◌then◌else◌,
}
use lazywrap.Observe.{Store}
use lazywrap.Tui.{Model, Question, quit, act, start, stop, restart, kill, target}
use lazywrap.Tui.Lines.{pad, fit}
use lazywrap.Tui.Draw.Panes.{◌>>=◌, Texts, larger, smaller, app_lines, detail_lines}
use lazywrap.Tui.Draw.Logs.{log_lines}

-- `pad(…, bodyH)` of a pane that fills the body.
unfoldable pub pad_pane : ℕ → Option (List Bytes × Model) → Option (List Bytes × Model)
unfolding pad
pad_pane body none = none
pad_pane body (some (lines, m)) = some (pad lines body, m)

-- The words of `confirm`.
abbrev pub question_text : Question → Bytes
question_text quit = codes "quit"
question_text (act start) = codes "start"
question_text (act stop) = codes "stop"
question_text (act restart) = codes "restart"
question_text (act kill) = codes "kill"

abbrev pub confirm_line : Question → Bytes → Bytes
confirm_line q id =
    codes "Confirm " ++ question_text q ++ codes " " ++ id ++ codes "? [y/N] (quit stops all apps)"

abbrev pub manual : List Bytes
manual =
    codes " HERON HELP (? close)"
    ∷ codes " Arrows: select app/process or scroll logs; Tab: focus pane"
    ∷ codes " 1/2/3: maximize apps/processes/logs; same key restores split"
    ∷ codes " p: process tree; Enter: expand/collapse all; arrows: PID details"
    ∷ codes " l: logs; e: lifecycle events; /: filter focused apps or logs"
    ∷ codes " PgUp/PgDn: scroll logs; g: resume tail"
    ∷ codes " S: start; x: stop (blocks lazy-start); r: restart; k: confirmed kill"
    ∷ codes " q: confirm quit and stop all apps; Ctrl-C: stop all and quit"
    ∷ codes " CPU: 100% = one core; RSS sum may double-count shared pages"
    ∷ codes " Detached/external processes outside launch group: metrics unavailable"
    ∷ codes " Start uses configured idle timeout; TUI does not pin apps awake"
    ∷ []

-- The line of `status`.
unfoldable pub status_line : Texts → Model → Bytes
status_line t m =
    let asked : Bytes = elim m.confirm [ none ↦ t.status | some q ↦ confirm_line q m.confirm_id ] in
    if m.search then codes "Filter: /" ++ target m ++ codes "_  Enter apply; Ctrl-C quit" else asked

abbrev pub keys_line : Bytes
keys_line = codes " Arrows select/scroll | S start x stop r restart k kill | 1/2/3 maximize"

-- Each line is followed by the code that clears the rest of its row.
unfoldable pub print_lines : List Bytes → Bytes
print_lines [] = []
print_lines (l ∷ []) = l ++ codes "\u{1b}[K"
print_lines (l ∷ l' ∷ ls) = let rest = print_lines (l' ∷ ls) in l ++ codes "\u{1b}[K\r\n" ++ rest

module _ (is_control : ℕ → Bool) where
  -- The loop of `view` over the lines of both halves.
  unfoldable pub columns : ℕ → ℕ → ℕ → List Bytes → List Bytes → Option (List Bytes)
  unfolding fit
  columns lw right_w zero left right = some []
  columns lw right_w (suc n) (l ∷ left) (r ∷ right) = do
    lines ← columns lw right_w n left right
    some ((fit is_control l lw ++ codes " | " ++ fit is_control r right_w) ∷ lines)
  columns lw right_w (suc n) _ _ = none

  -- `switch m.maximize`
  unfoldable pub arrange :
      Texts
      → Store
      → ℕ
      → ℕ
      → List Bytes
      → List Bytes
      → List Bytes
      → Model
      → Option (List Bytes × Model)
  unfolding columns detail_lines log_lines pad
  arrange t store w body left detail logs m =
      if m.maximize == 1
      then some (pad left body, m)
      else if m.maximize == 2
      then pad_pane body (detail_lines t body m)
      else if m.maximize == 3
      then pad_pane body (log_lines t store body m)
      else do
        let lw = larger 24 (smaller 40 (w / 3))
        lines ← columns lw (w - lw - 3) body (pad left body) (pad (detail ++ logs) body)
        some (lines, m)

  -- The lines of `view` between the first and the last two.
  unfoldable pub body_lines : Texts → Store → ℕ → ℕ → Model → Option (List Bytes × Model)
  unfolding arrange app_lines detail_lines log_lines
  body_lines t store w h m =
      let body = h - 3 in
      if ltb w 60 || ltb h 12
      then some (codes " Terminal too small; resize to at least 60 x 12." ∷ [], m)
      else do
        left ← app_lines t body m
        (detail, m') ← detail_lines t (body / 2) m
        (logs, m'') ← log_lines t store (body - length detail) m'
        arrange t store w body left detail logs m''

  -- The text of `view` before it is fitted to the terminal.
  unfoldable pub page : Texts → Store → ℕ → ℕ → Model → Option (List Bytes × Model)
  unfolding body_lines status_line
  page t store w h m = do
    (lines, m') ← body_lines t store w h m
    let all = t.banner (length m.apps) m.focus ∷ lines ++ status_line t m ∷ keys_line ∷ []
    some (if m.help then manual else all, m')

  -- `view`
  unfoldable pub view : Texts → Store → ℕ → ℕ → Model → Option (Bytes × Model)
  unfolding page pad fit print_lines
  view t store width height m = do
    (lines, m') ← page t store (larger 1 width) (larger 1 height) m
    let fitted = map (λ l. fit is_control l (larger 1 width)) (pad lines (larger 1 height))
    some (print_lines fitted, m')

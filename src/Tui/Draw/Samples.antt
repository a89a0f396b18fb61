-- ===== src/Tui/Draw/Samples.antt =====
-- Tests of the drawing.
use lazywrap.Base.{ℕ, ◌≡◌, refl, arith, Bytes, codes, Bool, true, false, ltb, [], ◌∷◌, none, some}
use lazywrap.Observe.{Store, append, new_store}
use lazywrap.Tui.{Model}
use lazywrap.Tui.Tree.{Process}
use lazywrap.Tui.Draw.Panes.{Texts, larger}
use lazywrap.Tui.Draw.Logs.{Window, window}
use lazywrap.Tui.Draw.View.{view}
use lazywrap.Tui.Draw.Fills.{Yields}
use lazywrap.Tui.Draw.Shows.{Prints, view_fills}
use lazywrap.Tui.Draw.Anchor.{IsAnchored, window-IsAnchored}

abbrev row : ℕ → ℕ × Bytes
row n = (n, codes "text")

-- Five rows, scrolled up by two.
abbrev paused : Window
paused = record { end = 3; offset = 2; log_end = 6 }

window_five : window 2 0 (row 3 ∷ row 5 ∷ row 6 ∷ row 7 ∷ row 9 ∷ []) ≡ some paused
unfolding window
window_five = refl

-- A row was dropped and two came in.
window-IsAnchored_example :
    Yields (IsAnchored 1 paused) (window 2 6 (row 5 ∷ row 6 ∷ row 7 ∷ row 9 ∷ row 10 ∷ row 12 ∷ []))
unfolding window
window-IsAnchored_example =
    window-IsAnchored (row 3 ∷ []) (row 5 ∷ row 6 ∷ row 7 ∷ row 9 ∷ []) (row 10 ∷ row 12 ∷ []) 2 0
      paused (omega arith) refl (omega arith) (omega arith)

abbrev texts : Texts
texts = record {
  banner = λ n focus. codes " HERON";
  app_name = λ a. a.id;
  app_stats = λ a. codes "1% 2.0M";
  app_head = λ a. a.id;
  app_usage = λ a. codes " CPU 1.0%";
  chosen = λ p. codes " PID";
  collapsed = λ p n. codes " + processes";
  process_row = λ p. codes "go";
  log_row = λ e. e.text;
  status = [];
}

abbrev proc : ℕ → ℕ → Process
proc pid ppid = record { identity = record { pid = pid; start_time = [] }; ppid = ppid; group = 7 }

abbrev model : Model
model = record {
  apps = record { id = codes "web"; processes = proc 8 7 ∷ proc 7 1 ∷ [] } ∷ [];
  selected = codes "web";
  filter = [];
  log_filter = [];
  search = false;
  focus = 3;
  maximize = 0;
  events = false;
  expanded = true;
  help = false;
  offset = 0;
  log_end = 0;
  process_index = 4;
  process_id = none;
  confirm = none;
  confirm_id = [];
  busy = false;
}

abbrev store : Store
unfolding append new_store
store =
    append new_store
      (record { seq = 0; service = codes "web"; stream = codes "stdout"; text = codes "up\u{7}" })

abbrev is_control : ℕ → Bool
is_control r = ltb r 32

view_fills_example :
    Yields (Prints is_control (larger 1 80) (larger 1 24)) (view is_control texts store 80 24 model)
view_fills_example = view_fills is_control texts store 80 24 model refl

-- The bell is a blank on the screen.
view_narrow :
    view is_control texts store 4 1 (record model { help = true })
    ≡ some (codes " HER\u{1b}[K", record model { help = true })
unfolding view
view_narrow = refl

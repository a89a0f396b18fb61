-- ===== src/Tui/Samples.antt =====
-- Tests of the terminal interface.
use lazywrap.Base.{ℕ, ◌≡◌, refl, ◌⊎◌, inl, codes, true, false, List, [], ◌∷◌, none, some}
use lazywrap.Tui.{App, Model, kill, act, quit, key, has_id, visible_in}
use lazywrap.Tui.Keys.{char, arrow_down, interrupt, next_key, Splits, next_key_progress}
use lazywrap.Tui.Tree.{Process, tree_order, has_pid}
use lazywrap.Tui.Complete.{tree_order_complete}
use lazywrap.Tui.Selection.{IsSelected, key-IsSelected}
use lazywrap.Tui.Confirm.{kill_confirmed, quit_confirmed}

abbrev proc : ℕ → ℕ → Process
proc pid ppid = record { identity = record { pid = pid; start_time = [] }; ppid = ppid; group = 1 }

-- 2 and 3 are each other's parent.
abbrev procs : List Process
procs = proc 3 2 ∷ proc 7 1 ∷ proc 2 3 ∷ proc 1 0 ∷ []

procs_tree : tree_order procs ≡ some (proc 1 0 ∷ proc 7 1 ∷ proc 2 3 ∷ proc 3 2 ∷ [])
unfolding tree_order
procs_tree = refl

tree_order_complete_example :
    (out : List Process) × (tree_order procs ≡ some out)
    × ((k : ℕ) → has_pid k procs ≡ true → has_pid k out ≡ true)
tree_order_complete_example = tree_order_complete procs

next_key_arrow : next_key (27 ∷ b'[' ∷ b'A' ∷ b'q' ∷ []) ≡ (27 ∷ b'[' ∷ b'A' ∷ [], b'q' ∷ [])
unfolding next_key
next_key_arrow = refl

next_key_progress_example :
    Splits (27 ∷ b'[' ∷ b'A' ∷ b'q' ∷ []) (next_key (27 ∷ b'[' ∷ b'A' ∷ b'q' ∷ []))
next_key_progress_example = next_key_progress (27 ∷ b'[' ∷ b'A' ∷ b'q' ∷ [])

abbrev two_apps : List App
two_apps =
    record { id = codes "api"; processes = [] } ∷ record { id = codes "web"; processes = [] } ∷ []

abbrev screen : Model
screen = record {
  apps = two_apps;
  selected = codes "api";
  filter = [];
  log_filter = [];
  search = false;
  focus = 1;
  maximize = 0;
  events = false;
  expanded = false;
  help = false;
  offset = 0;
  log_end = 0;
  process_index = 0;
  process_id = none;
  confirm = none;
  confirm_id = [];
  busy = false;
}

abbrev asking : Model
asking = record screen { confirm = some (act kill); confirm_id = codes "web" }

screen_down : (key arrow_down screen).1.selected ≡ codes "web"
unfolding key
screen_down = refl

key-IsSelected_example : IsSelected (key arrow_down screen).1
unfolding has_id visible_in
key-IsSelected_example = key-IsSelected arrow_down screen (inl refl)

kill_confirmed_example :
    (asking.confirm ≡ some (act kill))
    × (char b'y' ≡ char b'y')
    × (asking.busy ≡ false)
    × (asking.confirm_id ≡ codes "web")
unfolding key
kill_confirmed_example = kill_confirmed (char b'y') asking (codes "web") refl

quit_confirmed_example :
    (interrupt ≡ interrupt) ⊎ ((screen.confirm ≡ some quit) × (interrupt ≡ char b'y'))
unfolding key
quit_confirmed_example = quit_confirmed interrupt screen refl

-- ===== src/Tui.antt =====
-- internal/tui/model.go: the state of the terminal interface and what a key does to it.
--
-- The text of `status` and the history of the graphs are left out; the drawing is in Draw. The bytes of
-- a key are read as a Key, and a printable one as a Command, by the tests of the switches of `key`.
pub mod Keys
pub mod Tree
pub mod Complete
pub mod Selection
pub mod Confirm
pub mod Lines
pub mod Draw
mod Samples
use lazywrap.Base.{
  ℕ, zero, suc, ◌+◌, ◌-◌, ◌%◌, Bytes, codes, eq_bytes, is_empty, to_lower, length, has_prefix, Bool,
  true, false, not, ◌&&◌, ◌||◌, List, [], ◌∷◌, ◌++◌, Option, none, some, ◌==◌, ltb, leb,
  if◌then◌else◌,
}
use lazywrap.Tui.Tree.{Process, Identity, tree_order}
use lazywrap.Tui.Keys.{
  Key, interrupt, enter, escape, erase, tab, arrow_up, arrow_down, page_up, page_down, char,
  unknown,
}

pub record App : Type 0 where
  pub id : Bytes
  pub processes : List Process

-- The actions of `Supervisor.Action`.
pub data Action : Type 0 where
  start stop restart kill : Action

-- `confirm`: the action that waits for `y`.
pub data Question : Type 0 where
  quit : Question
  act : Action → Question

pub record Model : Type 0 where
  pub apps : List App
  pub selected : Bytes
  pub filter : Bytes
  pub log_filter : Bytes
  pub search : Bool
  pub focus : ℕ
  pub maximize : ℕ
  pub events : Bool
  pub expanded : Bool
  pub help : Bool
  pub offset : ℕ
  pub log_end : ℕ
  pub process_index : ℕ
  pub process_id : Option Identity
  pub confirm : Option Question
  pub confirm_id : Bytes
  pub busy : Bool

-- The results of `key`: nothing to do, leave, or an action on a service.
pub data Answer : Type 0 where
  nothing : Answer
  leaves : Answer
  acts : Action → Bytes → Answer

-- `strings.Contains`
unfoldable pub contains : Bytes → Bytes → Bool
unfolding has_prefix
contains [] p = is_empty p
contains (c ∷ s) p = let rest = contains s p in has_prefix (c ∷ s) p || rest

unfoldable pub visible_in : Bytes → List App → List App
unfolding contains to_lower
visible_in filter [] = []
visible_in filter (a ∷ apps) =
    let rest = visible_in filter apps in
    if contains (to_lower a.id) (to_lower filter) then a ∷ rest else rest

unfoldable pub visible : Model → List App
unfolding visible_in
visible m = visible_in m.filter m.apps

unfoldable pub has_id : Bytes → List App → Bool
unfolding eq_bytes
has_id id [] = false
has_id id (a ∷ apps) = let rest = has_id id apps in eq_bytes a.id id || rest

abbrev pub first_id : List App → Bytes
first_id [] = []
first_id (a ∷ apps) = a.id

unfoldable pub reselect : Model → Model
unfolding visible has_id
reselect m =
    if has_id m.selected (visible m)
    then m
    else record m { selected = first_id (visible m); offset = 0; process_index = 0 }

-- The processes of `current`.
unfoldable pub current_in : Bytes → List App → List Process
unfolding eq_bytes
current_in id [] = []
current_in id (a ∷ apps) =
    let rest = current_in id apps in if eq_bytes a.id id then a.processes else rest

-- `max(0, min(n-1, i+delta))` for a delta of -1 or 1, and `n` not 0.
abbrev pub shift : Bool → ℕ → ℕ → ℕ
shift up i n =
    if up then (if leb n (i - 1) then n - 1 else i - 1) else if leb n (i + 1) then n - 1 else i + 1

abbrev pub nth_identity : ℕ → List Process → Option Identity
nth_identity i [] = none
nth_identity zero (p ∷ ps) = some p.identity
nth_identity (suc i) (p ∷ ps) = nth_identity i ps

abbrev pub nth_id : ℕ → List App → Bytes
nth_id i [] = []
nth_id zero (a ∷ apps) = a.id
nth_id (suc i) (a ∷ apps) = nth_id i apps

-- The index of the selected app.
unfoldable pub index_of : Bytes → List App → Option ℕ
unfolding eq_bytes
index_of id [] = none
index_of id (a ∷ apps) =
    let rest = index_of id apps in
    if eq_bytes a.id id then some 0 else elim rest [ none ↦ none | some i ↦ some (suc i) ]

abbrev pub set_target : Bytes → Model → Model
set_target s m = if m.focus == 3 then record m { log_filter = s } else record m { filter = s }

-- The filter that the search edits.
abbrev pub target : Model → Bytes
target m = if m.focus == 3 then m.log_filter else m.filter

abbrev pub drop_last : Bytes → Bytes
drop_last [] = []
drop_last (c ∷ []) = []
drop_last (c ∷ d ∷ s) = let rest = drop_last (d ∷ s) in c ∷ rest

-- The switch of `key` in a search.
unfoldable pub edit : Key → Model → Model
edit enter m = record m { search = false }
edit escape m = set_target [] (record m { search = false })
edit erase m = set_target (drop_last (target m)) m
edit (char c) m =
    if leb 32 c && ltb c 127 && ltb (length (target m)) 100
    then set_target (target m ++ c ∷ []) m
    else m
edit _ m = m

unfoldable pub search_key : Key → Model → Model
unfolding edit reselect
search_key k m = record (reselect (edit k m)) { offset = 0 }

-- The cursor over the processes of the selected app.
unfoldable pub move_process : Bool → List Process → Model → Model
move_process up ps m =
    let i = shift up m.process_index (length ps) in
    if ltb 0 (length ps) then record m { process_index = i; process_id = nth_identity i ps } else m

unfoldable pub move_app : Bool → Option ℕ → Model → Model
unfolding visible
move_app up none m = m
move_app up (some i) m = record m {
  selected = nth_id (shift up i (length (visible m))) (visible m);
  offset = 0;
  process_index = 0;
  process_id = none;
}

-- `move`, up for a delta of -1.
unfoldable pub move : Bool → Model → Model
unfolding move_process move_app tree_order current_in index_of visible
move up m =
    if m.focus == 3
    then record m { offset = if up then m.offset + 1 else m.offset - 1; log_end = 0 }
    else if m.focus == 2
    then elim (tree_order (current_in m.selected m.apps)) [
      | none ↦ m
      | some ps ↦ move_process up ps m
    ]
    else move_app up (index_of m.selected (visible m)) m

-- What a printable key stands for outside a search.
pub data Command : Type 0 where
  asks_quit toggles_help focuses_logs focuses_events focuses_processes searches goes_down goes_top
        ignores :
      Command
  maximizes : ℕ → Command
  requests : Action → Command

unfoldable pub command_of : ℕ → Command
command_of c =
    if c == b'q'
    then asks_quit
    else if c == b'?'
    then toggles_help
    else if leb b'1' c && leb c b'3'
    then maximizes (c - b'0')
    else if c == b'l'
    then focuses_logs
    else if c == b'e'
    then focuses_events
    else if c == b'p'
    then focuses_processes
    else if c == b'/'
    then searches
    else if c == b'j'
    then goes_down
    else if c == b'g'
    then goes_top
    else if c == b'S'
    then requests start
    else if c == b'x'
    then requests stop
    else if c == b'r'
    then requests restart
    else if c == b'k'
    then requests kill
    else ignores

-- `case "S", "x", "r", "k"`
unfoldable pub request : Action → Model → Answer × Model
request a m = if m.busy || is_empty m.selected then (nothing, m) else elim a [
  | kill ↦ (nothing, record m { confirm = some (act kill); confirm_id = m.selected })
  | start ↦ (acts start m.selected, m)
  | stop ↦ (acts stop m.selected, m)
  | restart ↦ (acts restart m.selected, m)
]

unfoldable pub perform : Command → Model → Answer × Model
unfolding request move
perform asks_quit m = (nothing, record m { confirm = some quit; confirm_id = [] })
perform toggles_help m = (nothing, record m { help = not m.help })
perform (maximizes p) m =
    (nothing, record m { maximize = if m.maximize == p then 0 else p; focus = p })
perform focuses_logs m = (nothing, record m { focus = 3; events = false; offset = 0 })
perform focuses_events m = (nothing, record m { focus = 3; events = true; offset = 0 })
perform focuses_processes m = (nothing, record m { focus = 2 })
perform searches m = (nothing, record m { search = true; focus = if m.focus == 3 then 3 else 1 })
perform goes_down m = (nothing, move false m)
perform goes_top m = (nothing, record m { offset = 0 })
perform (requests a) m = request a m
perform ignores m = (nothing, m)

-- The last switch of `key`.
unfoldable pub press : Key → Model → Answer × Model
unfolding perform command_of move
press (char c) m = perform (command_of c) m
press tab m = (nothing, record m { focus = m.focus % 3 + 1 })
press enter m = (nothing, if m.focus == 2 then record m { expanded = not m.expanded } else m)
press arrow_up m = (nothing, move true m)
press arrow_down m = (nothing, move false m)
press page_up m = (nothing, record m { offset = m.offset + 10; log_end = 0 })
press page_down m = (nothing, record m { offset = m.offset - 10; log_end = 0 })
press _ m = (nothing, m)

-- An open question: `y` answers it, any other key drops it.
unfoldable pub answer : Question → Key → Model → Answer × Model
answer q k m =
    let closed = record m { confirm = none } in
    elim k [
      | char c ↦
          (if c == b'y'
            then elim q [
              | quit ↦ (leaves, closed)
              | act a ↦ if m.busy then (nothing, closed) else (acts a m.confirm_id, closed)
            ]
            else (nothing, closed))
      | _ ↦ (nothing, closed)
    ]

abbrev pub is_interrupt : Key → Bool
is_interrupt interrupt = true
is_interrupt _ = false

-- `key`
unfoldable pub key : Key → Model → Answer × Model
unfolding answer search_key press
key k m = if is_interrupt k then (leaves, m) else elim m.confirm [
  | some q ↦ answer q k m
  | none ↦ if m.search then (nothing, search_key k m) else press k m
]

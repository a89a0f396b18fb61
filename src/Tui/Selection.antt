-- ===== src/Tui/Selection.antt =====
-- internal/tui/model.go: what is selected is on the screen.
use lazywrap.Base.{
  ℕ, zero, suc, ◌<◌, ◌≡◌, refl, ◌⊎◌, inl, inr, Bytes, eq_bytes_refl, length, Bool, true, false,
  ◌||◌, List, [], ◌∷◌, Option, none, some, arith, ◌==◌, ltb, if◌then◌else◌, Bool-cases,
  Option-cases, if_lem, is_empty,
}
use lazywrap.Tui.Tree.{Process, tree_order}
use lazywrap.Tui.Keys.{
  Key, interrupt, enter, escape, erase, tab, arrow_up, arrow_down, page_up, page_down, char,
  unknown,
}
use lazywrap.Tui.{
  App, Model, Answer, Action, start, stop, restart, kill, Question, quit, act, nothing, visible,
  visible_in, has_id, first_id, reselect, shift, nth_id, index_of, edit, search_key, move_process,
  move_app, move, Command, asks_quit, toggles_help, focuses_logs, focuses_events, focuses_processes,
  searches, goes_down, goes_top, ignores, maximizes, requests, command_of, request, perform, press,
  answer, key, current_in, is_interrupt,
}

-- The selected app is one of these, or there is none and nothing is selected.
abbrev pub Among : Bytes → List App → Type 0
Among id apps = (has_id id apps ≡ true) ⊎ ((apps ≡ []) × (id ≡ []))

-- The selection is visible.
abbrev pub IsSelected : Model → Type 0
IsSelected m = Among m.selected (visible_in m.filter m.apps)

first-Among : (apps : List App) → Among (first_id apps) apps
unfolding has_id
first-Among [] = inr (refl, refl)
first-Among (a ∷ apps) = inl (ground (arith, eq_bytes_refl a.id))

reselect-IsSelected : (m : Model) → IsSelected (reselect m)
unfolding reselect visible
reselect-IsSelected m = elim (Bool-cases (has_id m.selected (visible_in m.filter m.apps))) [
  | inl e ↦ rw e (inl e)
  | inr e ↦ rw e (first-Among (visible_in m.filter m.apps))
]

nth-has_id : (i : ℕ) (apps : List App) → i < length apps → has_id (nth_id i apps) apps ≡ true
unfolding has_id
nth-has_id i [] lt = absurd (omega arith)
nth-has_id zero (a ∷ apps) lt = ground (arith, eq_bytes_refl a.id)
nth-has_id (suc i) (a ∷ apps) lt = ground (arith, nth-has_id i apps)

index_of_below :
    (id : Bytes) (apps : List App) (i : ℕ) → index_of id apps ≡ some i → i < length apps
unfolding index_of
index_of_below id [] i h = cc
index_of_below id (a ∷ apps) i h = elim (Option-cases (index_of id apps)) [
  | inl e ↦ ground (arith, e, h)
  | inr (j, e) ↦ ground (arith, e, h, index_of_below id apps j e)
]

module _ (up : Bool) (m : Model) (s : IsSelected m) where
  move_process-IsSelected : (ps : List Process) → IsSelected (move_process up ps m)
  unfolding move_process
  move_process-IsSelected ps = if_lem IsSelected (ltb 0 (length ps)) s s

  move_app-IsSelected :
      (o : Option ℕ) → index_of m.selected (visible m) ≡ o → IsSelected (move_app up o m)
  unfolding move_app visible
  move_app-IsSelected none e = s
  move_app-IsSelected (some i) e = inl (
      nth-has_id (shift up i (length (visible_in m.filter m.apps))) (visible_in m.filter m.apps)
        (ground (arith, index_of_below m.selected (visible_in m.filter m.apps) i e)))

  in_tree :
      (o : Option (List Process))
      → IsSelected (elim o as (λ _. Model) [ none ↦ m | some ps ↦ move_process up ps m ])
  in_tree none = s
  in_tree (some ps) = move_process-IsSelected ps

  move-IsSelected : IsSelected (move up m)
  unfolding move
  move-IsSelected = if_lem IsSelected (m.focus == 3) s (
      if_lem IsSelected (m.focus == 2) (in_tree (tree_order (current_in m.selected m.apps)))
        (move_app-IsSelected (index_of m.selected (visible m)) refl))

module _ (m : Model) (s : IsSelected m) where
  request-IsSelected : (a : Action) → IsSelected (request a m).1
  unfolding request
  request-IsSelected start =
      if_lem (λ (r : Answer × Model). IsSelected r.1) (m.busy || is_empty m.selected) s s
  request-IsSelected stop =
      if_lem (λ (r : Answer × Model). IsSelected r.1) (m.busy || is_empty m.selected) s s
  request-IsSelected restart =
      if_lem (λ (r : Answer × Model). IsSelected r.1) (m.busy || is_empty m.selected) s s
  request-IsSelected kill =
      if_lem (λ (r : Answer × Model). IsSelected r.1) (m.busy || is_empty m.selected) s s

  perform-IsSelected : (c : Command) → IsSelected (perform c m).1
  unfolding perform
  perform-IsSelected (requests a) = request-IsSelected a
  perform-IsSelected goes_down = move-IsSelected false m s
  perform-IsSelected asks_quit = s
  perform-IsSelected toggles_help = s
  perform-IsSelected (maximizes p) = s
  perform-IsSelected focuses_logs = s
  perform-IsSelected focuses_events = s
  perform-IsSelected focuses_processes = s
  perform-IsSelected searches = s
  perform-IsSelected goes_top = s
  perform-IsSelected ignores = s

  press-IsSelected : (k : Key) → IsSelected (press k m).1
  unfolding press
  press-IsSelected (char c) = perform-IsSelected (command_of c)
  press-IsSelected arrow_up = move-IsSelected true m s
  press-IsSelected arrow_down = move-IsSelected false m s
  press-IsSelected enter = if_lem IsSelected (m.focus == 2) s s
  press-IsSelected tab = s
  press-IsSelected page_up = s
  press-IsSelected page_down = s
  press-IsSelected interrupt = s
  press-IsSelected escape = s
  press-IsSelected erase = s
  press-IsSelected unknown = s

  answer-IsSelected : (q : Question) (k : Key) → IsSelected (answer q k m).1
  unfolding answer
  answer-IsSelected quit (char c) = if_lem (λ (r : Answer × Model). IsSelected r.1) (c == b'y') s s
  answer-IsSelected (act a) (char c) =
      if_lem (λ (r : Answer × Model). IsSelected r.1) (c == b'y')
        (if_lem (λ (r : Answer × Model). IsSelected r.1) m.busy s s) s
  answer-IsSelected q tab = s
  answer-IsSelected q arrow_up = s
  answer-IsSelected q arrow_down = s
  answer-IsSelected q page_up = s
  answer-IsSelected q page_down = s
  answer-IsSelected q interrupt = s
  answer-IsSelected q escape = s
  answer-IsSelected q erase = s
  answer-IsSelected q unknown = s
  answer-IsSelected q enter = s

-- Every key keeps it that the selected app is one of the visible ones, or that nothing is selected and
-- none is visible.
pub key-IsSelected : (k : Key) (m : Model) → IsSelected m → IsSelected (key k m).1
unfolding key search_key
key-IsSelected k m s =
    if_lem (λ (r : Answer × Model). IsSelected r.1) (is_interrupt k) s (asked m.confirm)
  where
    asked :
        (o : Option Question)
        → IsSelected
            (elim o as (λ _. Answer × Model) [
              | some q ↦ answer q k m
              | none ↦ if m.search then (nothing, search_key k m) else press k m
            ]).1
    asked (some q) = answer-IsSelected m s q k
    asked none =
        if_lem (λ (r : Answer × Model). IsSelected r.1) m.search (reselect-IsSelected (edit k m))
          (press-IsSelected m s k)

-- ===== src/Tui/Confirm.antt =====
-- internal/tui/model.go: what needs a confirmation.
use lazywrap.Base.{◌≡◌, refl, ◌⊎◌, inl, inr, Bytes, Bool, true, false, some, arith, Option-cases}
use lazywrap.Tui.Keys.{
  Key, interrupt, enter, escape, erase, tab, arrow_up, arrow_down, page_up, page_down, char,
  unknown,
}
use lazywrap.Tui.{
  Model, Answer, Action, start, stop, restart, kill, Question, quit, act, leaves, acts, Command,
  asks_quit, toggles_help, focuses_logs, focuses_events, focuses_processes, searches, goes_down,
  goes_top, ignores, maximizes, requests, command_of, request, perform, press, answer, key,
}

-- What `key` does at once: it does not leave and does not kill.
abbrev needs_answer : Answer → Bool
needs_answer leaves = true
needs_answer (acts kill id) = true
needs_answer _ = false

request_mild : (a : Action) (m : Model) → needs_answer (request a m).0 ≡ false
unfolding request
request_mild start m = ground arith
request_mild stop m = ground arith
request_mild restart m = ground arith
request_mild kill m = ground arith

perform_mild : (c : Command) (m : Model) → needs_answer (perform c m).0 ≡ false
unfolding perform
perform_mild (requests a) m = request_mild a m
perform_mild asks_quit m = refl
perform_mild toggles_help m = refl
perform_mild (maximizes p) m = refl
perform_mild focuses_logs m = refl
perform_mild focuses_events m = refl
perform_mild focuses_processes m = refl
perform_mild searches m = refl
perform_mild goes_down m = refl
perform_mild goes_top m = refl
perform_mild ignores m = refl

press_mild : (k : Key) (m : Model) → needs_answer (press k m).0 ≡ false
unfolding press
press_mild (char c) m = perform_mild (command_of c) m
press_mild tab m = refl
press_mild enter m = refl
press_mild arrow_up m = refl
press_mild arrow_down m = refl
press_mild page_up m = refl
press_mild page_down m = refl
press_mild interrupt m = refl
press_mild escape m = refl
press_mild erase m = refl
press_mild unknown m = refl

answer-kill :
    (q : Question) (k : Key) (m : Model) (id : Bytes)
    → (answer q k m).0 ≡ acts kill id
    → (q ≡ act kill) × (k ≡ char b'y') × (m.busy ≡ false) × (m.confirm_id ≡ id)
unfolding answer
answer-kill quit (char c) m id h = ground (arith, h)
answer-kill (act a) (char c) m id h = ground (arith, h)
answer-kill q tab m id h = cc
answer-kill q enter m id h = cc
answer-kill q arrow_up m id h = cc
answer-kill q arrow_down m id h = cc
answer-kill q page_up m id h = cc
answer-kill q page_down m id h = cc
answer-kill q interrupt m id h = cc
answer-kill q escape m id h = cc
answer-kill q erase m id h = cc
answer-kill q unknown m id h = cc

answer-quit :
    (q : Question) (k : Key) (m : Model) → (answer q k m).0 ≡ leaves → (q ≡ quit) × (k ≡ char b'y')
unfolding answer
answer-quit quit (char c) m h = ground (arith, h)
answer-quit (act a) (char c) m h = ground (arith, h)
answer-quit q tab m h = cc
answer-quit q enter m h = cc
answer-quit q arrow_up m h = cc
answer-quit q arrow_down m h = cc
answer-quit q page_up m h = cc
answer-quit q page_down m h = cc
answer-quit q interrupt m h = cc
answer-quit q escape m h = cc
answer-quit q erase m h = cc
answer-quit q unknown m h = cc

-- `key` answers with a kill only when the question of a kill is open, no action is running and the
-- key is `y`, and then it kills the app that the question was about.
pub kill_confirmed :
    (k : Key) (m : Model) (id : Bytes)
    → (key k m).0 ≡ acts kill id
    → (m.confirm ≡ some (act kill)) × (k ≡ char b'y') × (m.busy ≡ false) × (m.confirm_id ≡ id)
unfolding key
kill_confirmed k m id h = elim (Option-cases m.confirm) [
  | inl n ↦ absurd (ground (arith, n, h, press_mild k m))
  | inr (q, n) ↦ ground (arith, n, h, answer-kill q k m id)
]

-- `key` makes the program leave only at an interrupt, or at `y` to the question whether to quit.
pub quit_confirmed :
    (k : Key) (m : Model)
    → (key k m).0 ≡ leaves
    → (k ≡ interrupt) ⊎ ((m.confirm ≡ some quit) × (k ≡ char b'y'))
unfolding key
quit_confirmed k m h = elim (Option-cases m.confirm) [
  | inl n ↦ ground (arith, n, h, press_mild k m)
  | inr (q, n) ↦ ground (arith, n, h, answer-quit q k m)
]

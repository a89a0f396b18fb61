-- ===== src/Lifecycle.antt =====
-- internal/lifecycle/hooks.go: the process-wide commands of start and end.
-- The runner is a function of the command, the phase and the number of commands that ran before,
-- so it may answer the same command differently each time.
mod Order
mod Tests
use lazywrap.Base.{
  ℕ, zero, suc, ◌+◌, ◌≡◌, refl, ◌⊎◌, inl, inr, Bytes, Bool, true, false, List, [], ◌∷◌, ◌++◌,
  Option, none, some, arith, if◌then◌else◌, length, take, All, Option-cases,
}

pub data Phase : Type 0 where
  start_up tear_down : Phase

pub record CommandError : Type 0 where
  pub phase : Phase
  pub index : ℕ  -- counted from 1
  pub command : Bytes
  pub cause : ℕ

-- A command that was handed to the runner.
abbrev pub Call : Type 0
Call = Phase × Bytes

pub record Hooks : Type 0 where
  pub start_commands : List Bytes
  pub tear_commands : List Bytes
  pub start_once : Bool  -- it has run
  pub tear_once : Bool
  pub start_err : Option CommandError
  pub tear_errs : List CommandError
  pub calls : List Call  -- oldest first

unfoldable pub new_hooks : List Bytes → List Bytes → Hooks
new_hooks start tear = record {
  start_commands = start;
  tear_commands = tear;
  start_once = false;
  tear_once = false;
  start_err = none;
  tear_errs = [];
  calls = [];
}

module _ (answer : ℕ → Call → Option ℕ) where
  -- The loop of `StartUp` from command number `i`: the calls made, and the error that ends it.
  unfoldable pub start_loop : ℕ → List Bytes → List Call → Option CommandError × List Call
  start_loop i [] calls = (none, calls)
  start_loop i (c ∷ cs) calls = elim (answer (length calls) (start_up, c)) [
    | none ↦ start_loop (suc i) cs (calls ++ (start_up, c) ∷ [])
    | some e ↦ (
      some (record { phase = start_up; index = suc i; command = c; cause = e }),
      calls ++ (start_up, c) ∷ [],
    )
  ]

  unfoldable pub run_start_up : Hooks → Hooks × Option CommandError
  unfolding start_loop
  run_start_up h =
      let (err, calls) = start_loop 0 h.start_commands h.calls in
      if h.start_once
      then (h, h.start_err)
      else (record h { start_once = true; start_err = err; calls = calls }, err)

  -- The loop of `TearDown`, which goes on after an error.
  unfoldable pub tear_loop : ℕ → List Bytes → List Call → List CommandError × List Call
  tear_loop i [] calls = ([], calls)
  tear_loop i (c ∷ cs) calls =
      let (errs, after) = tear_loop (suc i) cs (calls ++ (tear_down, c) ∷ []) in
      elim (answer (length calls) (tear_down, c)) [
        | none ↦ (errs, after)
        | some e ↦
            (record { phase = tear_down; index = suc i; command = c; cause = e } ∷ errs, after)
      ]

  unfoldable pub run_tear_down : Hooks → Hooks × List CommandError
  unfolding tear_loop
  run_tear_down h =
      let (errs, calls) = tear_loop 0 h.tear_commands h.calls in
      if h.tear_once
      then (h, h.tear_errs)
      else (record h { tear_once = true; tear_errs = errs; calls = calls }, errs)

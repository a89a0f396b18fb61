-- ===== src/Lifecycle/Tests.antt =====
-- The theorems of this part at concrete inputs.
use lazywrap.Base.{
  ℕ, zero, suc, ◌+◌, ◌≡◌, refl, ◌⊎◌, Bytes, codes, List, [], ◌∷◌, ◌++◌, Option, none, some, length,
}
use lazywrap.Lifecycle.{start_up, tear_down, Call, Hooks, new_hooks, run_start_up, run_tear_down}
use lazywrap.Lifecycle.Order.{calls_of, AllPass, failures, start_up_order, tear_down_all}

-- A runner whose second call fails.
abbrev flaky : ℕ → Call → Option ℕ
flaky (suc zero) c = some 7
flaky n c = none

abbrev commands : List Bytes
commands = codes "make" ∷ codes "migrate" ∷ codes "seed" ∷ []

abbrev hooks : Hooks
hooks = new_hooks commands commands

abbrev started : Hooks
started = (run_start_up flaky hooks).0

start_up_order_example :
    ((AllPass flaky 0 commands
        × (run_start_up flaky hooks).1 ≡ none
        × started.calls ≡ calls_of start_up commands)
      ⊎ ((before : List Bytes) × (c : Bytes) × (rest : List Bytes) × (e : ℕ) × (commands
            ≡ before ++ (c ∷ rest))
          × AllPass flaky 0 before
          × (flaky (0 + length before) (start_up, c) ≡ some e)
          × ((run_start_up flaky hooks).1
              ≡ some (record {
                phase = start_up;
                index = suc (0 + length before);
                command = c;
                cause = e;
              }))
          × (started.calls ≡ calls_of start_up (before ++ c ∷ []))))
    × (run_start_up flaky started ≡ (started, (run_start_up flaky hooks).1))
start_up_order_example = start_up_order flaky commands commands

tear_down_all_example :
    ((run_tear_down flaky hooks).0.calls ≡ hooks.calls ++ calls_of tear_down hooks.tear_commands)
    × (length (run_tear_down flaky hooks).1
        ≡ failures flaky (length hooks.calls) hooks.tear_commands)
unfolding new_hooks
tear_down_all_example = tear_down_all flaky hooks refl

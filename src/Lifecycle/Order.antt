-- ===== src/Lifecycle/Order.antt =====
-- Which commands run, in which order, and how often.
use mathlib.Core.List.{append-nil, append_assoc}
use lazywrap.Base.{
  ℕ, suc, ◌+◌, ◌≡◌, refl, sym, ◌⊎◌, inl, inr, Bytes, false, List, [], ◌∷◌, ◌++◌, Option, none, some,
  arith, map, length, length-append, Option-cases,
}
use lazywrap.Lifecycle.{
  Phase, start_up, tear_down, Call, Hooks, new_hooks, start_loop, run_start_up, tear_loop,
  run_tear_down,
}

abbrev pub calls_of : Phase → List Bytes → List Call
calls_of p = map (λ c. (p, c))

length_snoc :
    (calls : List Call) (c : Bytes) → length (calls ++ (start_up, c) ∷ []) ≡ length calls + 1
length_snoc calls c = length-append calls ((start_up, c) ∷ [])

module _ (answer : ℕ → Call → Option ℕ) where
  tear_loop_calls :
      (i : ℕ) (cs : List Bytes) (calls : List Call)
      → (tear_loop answer i cs calls).1 ≡ calls ++ calls_of tear_down cs
  unfolding tear_loop
  tear_loop_calls i [] calls = sym (append-nil calls)
  tear_loop_calls i (c ∷ cs) calls = ground (
    arith,
    tear_loop_calls (suc i) cs (calls ++ (tear_down, c) ∷ []),
    append_assoc calls ((tear_down, c) ∷ []) (calls_of tear_down cs),
  )

  -- The runner answers no error for the commands, where the first one is call number `n`.
  abbrev pub AllPass : ℕ → List Bytes → Type 0
  AllPass n [] = Unit
  AllPass n (c ∷ cs) = (answer n (start_up, c) ≡ none) × AllPass (n + 1) cs

  -- The commands that ran and how it ended: all, with no error, or up to the first error.
  start_loop_calls :
      (i : ℕ) (cs : List Bytes) (calls : List Call)
      → (AllPass (length calls) cs
          × ((start_loop answer i cs calls).0 ≡ none)
          × ((start_loop answer i cs calls).1 ≡ calls ++ calls_of start_up cs))
        ⊎ ((before : List Bytes) × (c : Bytes) × (rest : List Bytes) × (e : ℕ) × (cs
              ≡ before ++ (c ∷ rest))
            × AllPass (length calls) before
            × (answer (length calls + length before) (start_up, c) ≡ some e)
            × ((start_loop answer i cs calls).0
                ≡ some (record {
                  phase = start_up;
                  index = suc (i + length before);
                  command = c;
                  cause = e;
                }))
            × ((start_loop answer i cs calls).1 ≡ calls ++ calls_of start_up (before ++ c ∷ [])))
  unfolding start_loop
  start_loop_calls i [] calls = inl (tt, refl, sym (append-nil calls))
  start_loop_calls i (c ∷ cs) calls = elim (Option-cases (answer (length calls) (start_up, c))) [
    | inr (e, x) ↦ inr ([], c, cs, e, refl, tt, ground (arith, x), ground arith, ground arith)
    | inl x ↦ elim (start_loop_calls (suc i) cs (calls ++ (start_up, c) ∷ [])) [
      | inl (pass, n, a) ↦ inl (
        (x, rw (length_snoc calls c) at pass),
        ground arith,
        ground (arith, append_assoc calls ((start_up, c) ∷ []) (calls_of start_up cs)),
      )
      | inr (before, d, rest, e, split, pass, fails, err, a) ↦ inr (
        c ∷ before,
        d,
        rest,
        e,
        ground arith,
        (x, rw (length_snoc calls c) at pass),
        ground (arith, fails, length_snoc calls c),
        ground arith,
        ground
            (arith, append_assoc calls ((start_up, c) ∷ []) (calls_of start_up (before ++ d ∷ []))),
      )
    ]
  ]

  -- `StartUp` of new hooks runs all its commands in order and returns no error, when the runner
  -- answers none; or it runs them up to the first for which the runner answers an error and returns
  -- that error, with the number of the command. A second call runs nothing and returns the same.
  pub start_up_order :
      (s t : List Bytes)
      → ((AllPass 0 s
            × ((run_start_up answer (new_hooks s t)).1 ≡ none)
            × ((run_start_up answer (new_hooks s t)).0.calls ≡ calls_of start_up s))
          ⊎ ((before : List Bytes) × (c : Bytes) × (rest : List Bytes) × (e : ℕ) × (s
                ≡ before ++ (c ∷ rest))
              × AllPass 0 before
              × (answer (0 + length before) (start_up, c) ≡ some e)
              × ((run_start_up answer (new_hooks s t)).1
                  ≡ some (record {
                    phase = start_up;
                    index = suc (0 + length before);
                    command = c;
                    cause = e;
                  }))
              × ((run_start_up answer (new_hooks s t)).0.calls
                  ≡ calls_of start_up (before ++ c ∷ []))))
        × (run_start_up answer (run_start_up answer (new_hooks s t)).0
            ≡ ((run_start_up answer (new_hooks s t)).0, (run_start_up answer (new_hooks s t)).1))
  unfolding run_start_up new_hooks
  start_up_order s t = (start_loop_calls 0 s [], ground arith)

  -- How many of the commands fail, where the first one is call number `n`.
  pub failures : ℕ → List Bytes → ℕ
  failures n [] = 0
  failures n (c ∷ cs) = elim (answer n (tear_down, c)) [
    | none ↦ failures (n + 1) cs
    | some e ↦ suc (failures (n + 1) cs)
  ]

  tear_loop-failures :
      (i : ℕ) (cs : List Bytes) (calls : List Call)
      → length (tear_loop answer i cs calls).0 ≡ failures (length calls) cs
  unfolding tear_loop failures
  tear_loop-failures i [] calls = refl
  tear_loop-failures i (c ∷ cs) calls = ground (
    arith,
    tear_loop-failures (suc i) cs (calls ++ (tear_down, c) ∷ []),
    length-append calls ((tear_down, c) ∷ []),
  )

  -- `TearDown` after any calls runs every command in order, whatever fails, and returns one error
  -- for each that failed.
  pub tear_down_all :
      (h : Hooks)
      → h.tear_once ≡ false
      → ((run_tear_down answer h).0.calls ≡ h.calls ++ calls_of tear_down h.tear_commands)
        × (length (run_tear_down answer h).1 ≡ failures (length h.calls) h.tear_commands)
  unfolding run_tear_down
  tear_down_all h once = ground (
    arith,
    tear_loop_calls 0 h.tear_commands h.calls,
    tear_loop-failures 0 h.tear_commands h.calls,
  )

  -- Each phase runs at most once: a further call leaves the hooks as they are and returns what the
  -- first call returned.
  pub phases_once :
      (h : Hooks)
      → (run_start_up answer (run_start_up answer h).0
          ≡ ((run_start_up answer h).0, (run_start_up answer h).0.start_err))
        × (run_tear_down answer (run_tear_down answer h).0
            ≡ ((run_tear_down answer h).0, (run_tear_down answer h).0.tear_errs))
  unfolding run_start_up run_tear_down
  phases_once h = ground arith

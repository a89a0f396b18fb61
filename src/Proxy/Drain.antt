-- ===== src/Proxy/Drain.antt =====
-- internal/proxy/drain.go: `DrainHandler`, which counts the requests in flight and closes a channel
-- when the last one ends after the drain began. `none` is the panic of closing it twice.
use lazywrap.Base.{
  ℕ, zero, suc, ◌≤◌, ◌≡◌, ◌≢◌, refl, ◌↔◌, inl, inr, Bool, true, false, not, ◌&&◌, ◌||◌, List, [],
  ◌∷◌, Option, none, some, arith, if◌then◌else◌, Option-cases, ℤ, pos, negsuc, eq_ℤ,
}

pub record DrainHandler : Type 0 where
  pub active : ℤ
  pub draining : Bool
  pub done : Bool  -- the channel is closed

-- `NewDrainHandler`
unfoldable pub new_drain : DrainHandler
new_drain = record { active = pos 0; draining = false; done = false }

-- `h.active++` and `h.active--`
abbrev pub incr : ℤ → ℤ
incr (pos n) = pos (suc n)
incr (negsuc zero) = pos 0
incr (negsuc (suc n)) = negsuc n

abbrev pub decr : ℤ → ℤ
decr (pos zero) = negsuc 0
decr (pos (suc n)) = pos n
decr (negsuc n) = negsuc (suc n)

-- The first section of `ServeHTTP`: the request is admitted (true) or rejected.
unfoldable pub admit : DrainHandler → DrainHandler × Bool
admit h = if h.draining then (h, false) else (record h { active = incr h.active }, true)

-- `close(h.done)`
unfoldable pub close_done : DrainHandler → Option DrainHandler
close_done h = if h.done then none else some (record h { done = true })

unfoldable pub begin_drain : DrainHandler → Option DrainHandler
unfolding close_done
begin_drain h =
    if not h.draining
    then (let h' = record h { draining = true } in
        if eq_ℤ h'.active (pos 0) then close_done h' else some h')
    else some h

unfoldable pub release : DrainHandler → Option DrainHandler
unfolding close_done
release h =
    let h' = record h { active = decr h.active } in
    if h'.draining && eq_ℤ h'.active (pos 0) then close_done h' else some h'

-- What happens to a handler: requests come, admitted requests end, and a drain begins.
pub data Event : Type 0 where
  serves drains : Event
  ends : Event

-- A handler with the number of requests that were admitted and did not end. Only an admitted
-- request ends.
abbrev with_count : ℕ → Option DrainHandler → Option (ℕ × DrainHandler)
with_count n none = none
with_count n (some h) = some (n, h)

unfoldable pub step : Event → ℕ × DrainHandler → Option (ℕ × DrainHandler)
unfolding admit begin_drain release
step serves (n, h) = some (if (admit h).1 then (suc n, (admit h).0) else (n, (admit h).0))
step drains (n, h) = with_count n (begin_drain h)
step ends (zero, h) = some (zero, h)
step ends (suc n, h) = with_count n (release h)

unfoldable pub run : List Event → ℕ × DrainHandler → Option (ℕ × DrainHandler)
run [] s = some s
run (e ∷ es) s = elim (step e s) [ none ↦ none | some s' ↦ run es s' ]

abbrev pub is_drain : Event → Bool
is_drain drains = true
is_drain _ = false

-- `BeginDrain` was called.
abbrev pub has_drain : List Event → Bool
has_drain [] = false
has_drain (e ∷ es) = is_drain e || has_drain es

-- After a history in which `begun` says whether `BeginDrain` was called: the count is exact, the
-- handler drains if it was, and the channel is closed as soon as, and only when, it was and no
-- admitted request is left.
pub record IsExact (begun : Bool) (s : ℕ × DrainHandler) : Type 0 where
  pub counted : s.1.active ≡ pos s.0
  pub drained : s.1.draining ≡ begun
  pub closed : (s.1.done ≡ true) ↔ ((begun ≡ true) × (s.0 ≡ 0))

step-ne-none :
    (begun : Bool) (e : Event) (n : ℕ) (h : DrainHandler)
    → IsExact begun (n, h)
    → step e (n, h) ≢ none
unfolding step
step-ne-none begun serves n h v = ground arith
step-ne-none begun drains n h v = ground arith
step-ne-none begun ends zero h v = ground arith
step-ne-none begun ends (suc n) h v = ground arith

step-IsExact :
    (begun : Bool) (e : Event) (n : ℕ) (h : DrainHandler) (t : ℕ × DrainHandler)
    → IsExact begun (n, h)
    → step e (n, h) ≡ some t
    → IsExact (begun || is_drain e) t
unfolding step
step-IsExact begun serves n h t v q = ground arith
step-IsExact begun drains n h t v q = ground arith
step-IsExact begun ends zero h t v q = ground arith
step-IsExact begun ends (suc n) h t v q = ground arith

or_false : (b : Bool) → (b || false) ≡ b
or_false true = refl
or_false false = refl

or_assoc : (a b c : Bool) → ((a || b) || c) ≡ (a || (b || c))
or_assoc true b c = refl
or_assoc false b c = refl

run-IsExact :
    (begun : Bool) (es : List Event) (n : ℕ) (h : DrainHandler)
    → IsExact begun (n, h)
    → (t : ℕ × DrainHandler) × (run es (n, h) ≡ some t) × IsExact (begun || has_drain es) t
unfolding run
run-IsExact begun [] n h v =
    let same : (begun || false) ≡ begun = or_false begun in ((n, h), refl, rw same v)
run-IsExact begun (e ∷ es) n h v = elim (Option-cases (step e (n, h))) [
  | inl x ↦ absurd (step-ne-none begun e n h v x)
  | inr (t, x) ↦
      let (u, r, w) =
        run-IsExact (begun || is_drain e) es t.0 t.1 (step-IsExact begun e n h t v x) in
      (u, rw (x, run) r, rw (or_assoc begun (is_drain e) (has_drain es)) at w)
]

-- Whatever requests come, end and find a drain begun, the channel is never closed twice, `active`
-- is the number of admitted requests that did not end, the handler drains exactly when `BeginDrain`
-- was called, and the channel is closed exactly when it was and none is left.
pub drain-IsExact :
    (es : List Event)
    → (t : ℕ × DrainHandler) × (run es (0, new_drain) ≡ some t) × IsExact (has_drain es) t
unfolding new_drain
drain-IsExact es =
    run-IsExact false es 0 new_drain
      (record { counted = refl; drained = refl; closed = ground arith })

step_draining :
    (e : Event) (n : ℕ) (h : DrainHandler) (t : ℕ × DrainHandler)
    → h.draining ≡ true
    → step e (n, h) ≡ some t
    → (t.1.draining ≡ true) × (t.0 ≤ n)
unfolding step
step_draining serves n h t d q = ground arith
step_draining drains n h t d q = ground arith
step_draining ends zero h t d q = ground arith
step_draining ends (suc n) h t d q = ground arith

-- Once a drain has begun it goes on, and no later event raises the number of requests in flight.
pub draining_shrinks :
    (es : List Event) (n : ℕ) (h : DrainHandler) (t : ℕ × DrainHandler)
    → h.draining ≡ true
    → run es (n, h) ≡ some t
    → (t.1.draining ≡ true) × (t.0 ≤ n)
unfolding run
draining_shrinks [] n h t d r = ground arith
draining_shrinks (e ∷ es) n h t d r = elim (Option-cases (step e (n, h))) [
  | inl x ↦ ground arith
  | inr (u, x) ↦
      let (d', le) = step_draining e n h u d x in
      let (d'', le') = draining_shrinks es u.0 u.1 t d' (rw (x, run) at r) in (d'', omega arith)
]

-- ===== src/Supervisor/Control/Closing.antt =====
-- internal/supervisor/supervisor.go: what `StopAll` leaves for good.
use lazywrap.Base.{
  ◌≡◌, refl, Bytes, eq_bytes, true, List, [], ◌∷◌, Option, none, some, Option_lem, if_lem, ◌∙◌,
}
use lazywrap.Supervisor.Machine.{closing}
use lazywrap.Supervisor.Locked.{Round}
use lazywrap.Supervisor.Run.{Event, step}
use lazywrap.Supervisor.Inhibit.{step-closed}
use lazywrap.Supervisor.Control.{
  Service, Supervisor, change, acquire, cancel_all, begin_stop_all, Control, acquires_service,
  begins_stop_all, on, step_service, control, run_controls,
}

-- The same services; each has its context done, and no attempt more.
abbrev pub AreClosed : List (Bytes × Service) → List (Bytes × Service) → Type 0
AreClosed [] [] = Unit
AreClosed ((i, v) ∷ before) ((j, u) ∷ after) =
    (i ≡ j)
    × (u.machine.lifecycle_done ≡ true)
    × (u.machine.attempts ≡ v.machine.attempts)
    × AreClosed before after
AreClosed _ _ = ⊥

cancel_all-AreClosed :
    (services : List (Bytes × Service)) → AreClosed services (cancel_all services)
unfolding cancel_all
cancel_all-AreClosed [] = tt
cancel_all-AreClosed ((id, v) ∷ services) = (refl, refl, refl, cancel_all-AreClosed services)

AreClosed-cancel_all :
    (before after : List (Bytes × Service))
    → AreClosed before after
    → AreClosed before (cancel_all after)
unfolding cancel_all
AreClosed-cancel_all [] [] c = tt
AreClosed-cancel_all [] (q ∷ after) c = absurd c
AreClosed-cancel_all (p ∷ before) [] c = absurd c
AreClosed-cancel_all ((i, v) ∷ before) ((j, u) ∷ after) (e, d, n, c) =
    (e, refl, n, AreClosed-cancel_all before after c)

-- What holds unless there was a panic.
abbrev Unless : {A : Type 0} → (A → Type 0) → Option A → Type 0
Unless P none = Unit
Unless P (some a) = P a

Unless-some : {A : Type 0} (P : A → Type 0) (o : Option A) (a : A) → Unless P o → o ≡ some a → P a
Unless-some P o a p e = rw e at p

-- What a closed service stays.
abbrev StaysClosed : Service → Service → Type 0
StaysClosed v v' = (v'.machine.lifecycle_done ≡ true) × (v'.machine.attempts ≡ v.machine.attempts)

step_service-StaysClosed :
    (e : Event) (v : Service)
    → v.machine.lifecycle_done ≡ true
    → Unless (StaysClosed v) (step_service e v)
unfolding step_service
step_service-StaysClosed e v d =
    Option_lem (Unless (StaysClosed v)) (step v.cfg e v.machine) (λ x. tt)
      (λ m x. step-closed v.cfg v.machine m e d x)

change-AreClosed :
    (id : Bytes) (e : Event) (before after : List (Bytes × Service))
    → AreClosed before after
    → Unless (AreClosed before) (change id (step_service e) after)
unfolding change
change-AreClosed id e [] [] c = tt
change-AreClosed id e [] (q ∷ after) c = absurd c
change-AreClosed id e (p ∷ before) [] c = absurd c
change-AreClosed id e ((i, v) ∷ before) ((j, u) ∷ after) (same, d, n, c) =
    let P : Option (List (Bytes × Service)) → Type 0 = Unless (AreClosed ((i, v) ∷ before)) in
    if_lem P (eq_bytes j id)
      (Option_lem P (step_service e u) (λ x. tt)
        (λ u' x.
          let (d', n') = Unless-some (StaysClosed u) _ u' (step_service-StaysClosed e u d) x in
          (same, d', n' ∙ n, c)))
      (Option_lem P (change id (step_service e) after) (λ x. tt)
        (λ rest x. (
          same,
          d,
          n,
          Unless-some (AreClosed before) _ rest (change-AreClosed id e before after c) x,
        )))

-- The supervisor refuses, and its services are closed.
abbrev IsOver : List (Bytes × Service) → Supervisor → Type 0
IsOver before s = (s.closes ≡ true) × AreClosed before s.services

control-IsOver :
    (before : List (Bytes × Service)) (c : Control) (s : Supervisor)
    → IsOver before s
    → Unless (IsOver before) (control c s)
unfolding control acquire begin_stop_all
control-IsOver before (acquires_service id) s (d, c) = rw d (refl, c)
control-IsOver before begins_stop_all s (d, c) = (refl, AreClosed-cancel_all before s.services c)
control-IsOver before (on id e) s (d, c) =
    Option_lem (Unless (IsOver before)) (change id (step_service e) s.services) (λ x. tt)
      (λ services x. (
        d,
        Unless-some (AreClosed before) _ services (change-AreClosed id e before s.services c) x,
      ))

run_controls-IsOver :
    (before : List (Bytes × Service)) (cs : List Control) (s : Supervisor)
    → IsOver before s
    → Unless (IsOver before) (run_controls cs s)
unfolding run_controls
run_controls-IsOver before [] s o = o
run_controls-IsOver before (c ∷ cs) s o =
    Option_lem (Unless (IsOver before)) (control c s) (λ x. tt)
      (λ s' x.
        run_controls-IsOver before cs s'
          (Unless-some (IsOver before) _ s' (control-IsOver before c s o) x))

-- Whatever runs after `StopAll` has begun, a `Start` by hand included, and without a panic: no
-- service has another attempt to start it, its context stays done, and `Acquire` refuses with the
-- error of a supervisor that closes, for every id.
pub begin_stop_all_final :
    (cs : List Control) (s s' : Supervisor) (id : Bytes)
    → run_controls cs (begin_stop_all s) ≡ some s'
    → AreClosed s.services s'.services × ((acquire id s').0 ≡ Round.refuses closing)
unfolding acquire begin_stop_all
begin_stop_all_final cs s s' id h =
    let (d, c) =
      Unless-some (IsOver s.services) _ s'
        (run_controls-IsOver s.services cs (begin_stop_all s)
          (refl, cancel_all-AreClosed s.services))
        h in
    (c, rw d refl)

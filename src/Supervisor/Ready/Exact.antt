-- ===== src/Supervisor/Ready/Exact.antt =====
-- internal/supervisor/service.go: when `ready` answers that a service is ready.
use mathlib.Core.Path.{subst, fun_ext}
use lazywrap.Base.{
  ◌≡◌, ◌↔◌, ◌⊎◌, refl, ap, inl, inr, Bytes, codes, Bool, true, false, List, [], ◌∷◌, Option, none,
  if◌then◌else◌, is_empty, Bool-cases, Option-cases, Option_lem, sym,
}
use lazywrap.Config.Types.{RuntimeEndpointConfig, RuntimeAppConfig}
use lazywrap.Config.Listing.{endpoint_list}
use lazywrap.Supervisor.Ready.{
  Address, address, is_serving, Event, exits, expires, ticks, Turn, ReadyError, Outcome, reached,
  failed, waits, Verdict, ends, goes_on, launch_ended, select_case, await, tcp_ready, grpc_ready,
  ready_all, ready,
}

-- The probe of an endpoint, at its port on this machine.
abbrev pub answers : RuntimeEndpointConfig → Turn → Bool
answers e t =
    let at : Address = record { host = codes "127.0.0.1"; port = e.port } in
    if e.grpc_health then is_serving (t.checks at) else t.dials at

-- A health check has a client.
abbrev pub HasClient : (Address → Option Bytes) → RuntimeEndpointConfig → Type 0
HasClient new_client e =
    e.grpc_health ≡ true → new_client (record { host = codes "127.0.0.1"; port = e.port }) ≡ none

if_case :
    {A : Type 0} (P : A → Type 0) (b : Bool) {x y : A}
    → (b ≡ true → P x)
    → (b ≡ false → P y)
    → P (if b then x else y)
if_case P true p q = p refl
if_case P false p q = q refl

-- What an outcome says.
abbrev Says : {E : Type 0} → (List Turn → Type 0) → Outcome E → Type 0
Says P (reached rest) = P rest
Says P _ = Unit

Says-mono :
    {E : Type 0} (P Q : List Turn → Type 0) (o : Outcome E)
    → ((rest : List Turn) → P rest → Q rest)
    → Says P o
    → Says Q o
Says-mono P Q (reached rest) h p = h rest p
Says-mono P Q (failed err) h p = tt
Says-mono P Q waits h p = tt

module _ (has_stop : Bool) (result : Option Bytes) (new_client : Address → Option Bytes) where
  -- An event after which the loop goes on: a tick, or the launch of a service with a stop command
  -- has ended without an error.
  abbrev pub IsQuiet : Event → Type 0
  IsQuiet ticks = Unit
  IsQuiet expires = ⊥
  IsQuiet exits = (has_stop ≡ true) × (result ≡ none)

  -- The probe answers at a turn, after quiet ones at which it does not, and these turns are left.
  abbrev pub Reaches : (Turn → Bool) → List Turn → List Turn → Type 0
  Reaches probe [] rest = ⊥
  Reaches probe (t ∷ turns) rest =
      ((probe t ≡ true) × (turns ≡ rest))
      ⊎ ((probe t ≡ false) × IsQuiet t.next × Reaches probe turns rest)

  -- Each endpoint is reached, one after another.
  abbrev pub ReachesAll : List RuntimeEndpointConfig → List Turn → List Turn → Type 0
  ReachesAll [] turns rest = turns ≡ rest
  ReachesAll (e ∷ endpoints) turns rest =
      (next : List Turn) × HasClient new_client e
      × Reaches (answers e) turns next
      × ReachesAll endpoints next rest

  -- `done` is left aside after such an end of the launch only.
  abbrev Watches : Bool → Type 0
  Watches watching = (watching ≡ true) ⊎ ((has_stop ≡ true) × (result ≡ none))

  Allows : Event → Verdict → Type 0
  Allows event (ends err) = Unit
  Allows event (goes_on still) = IsQuiet event × Watches still

  launch_ended-Allows : Allows exits (launch_ended has_stop result)
  unfolding launch_ended Allows
  launch_ended-Allows = elim (Option-cases result) [
    | inr (err, e) ↦ rw e tt
    | inl e ↦ elim (Bool-cases has_stop) [
      | inl f ↦ rw (e, f) ((refl, refl), inr (refl, refl))
      | inr f ↦ rw (e, f) tt
    ]
  ]

  select_case-Allows :
      (watching : Bool) (event : Event)
      → Watches watching
      → Allows event (select_case has_stop result new_client watching event)
  unfolding select_case Allows
  select_case-Allows watching ticks w = (tt, w)
  select_case-Allows watching expires w = tt
  select_case-Allows true exits w = launch_ended-Allows
  select_case-Allows false exits (inl e) = cc
  select_case-Allows false exits (inr q) = (q, inr q)

  -- After a quiet event the loop goes on.
  select_case-IsQuiet :
      (watching : Bool) (event : Event)
      → IsQuiet event
      → (still : Bool) × (select_case has_stop result new_client watching event ≡ goes_on still)
  unfolding select_case launch_ended
  select_case-IsQuiet watching ticks q = (watching, refl)
  select_case-IsQuiet watching expires q = absurd q
  select_case-IsQuiet true exits (e, f) = (false, rw (e, f) refl)
  select_case-IsQuiet false exits q = (false, refl)

  case-Reaches :
      (probe : Turn → Bool) (t : Turn) (turns : List Turn) (v : Verdict)
      → probe t ≡ false
      → Allows t.next v
      → ((still : Bool)
          → Watches still
          → Says (Reaches probe turns) (await has_stop result new_client probe still turns))
      → Says (Reaches probe (t ∷ turns)) (elim v as (λ v. Outcome ReadyError) [
        | ends err ↦ failed err
        | goes_on still ↦ await has_stop result new_client probe still turns
      ])
  unfolding Allows
  case-Reaches probe t turns (ends err) e a h = tt
  case-Reaches probe t turns (goes_on still) e (q, w) h =
      Says-mono (Reaches probe turns) (Reaches probe (t ∷ turns))
        (await has_stop result new_client probe still turns) (λ rest r. inr (e, q, r)) (h still w)

  await-Reaches :
      (probe : Turn → Bool) (watching : Bool) (turns : List Turn)
      → Watches watching
      → Says (Reaches probe turns) (await has_stop result new_client probe watching turns)
  unfolding await
  await-Reaches probe watching [] w = tt
  await-Reaches probe watching (t ∷ turns) w = elim (Bool-cases (probe t)) [
    | inl e ↦ rw e (inl (e, refl))
    | inr e ↦ rw e (
        case-Reaches probe t turns (select_case has_stop result new_client watching t.next) e
          (select_case-Allows watching t.next w) (λ still w'. await-Reaches probe still turns w'))
  ]

  Reaches-await :
      (probe : Turn → Bool) (watching : Bool) (turns rest : List Turn)
      → Reaches probe turns rest
      → await has_stop result new_client probe watching turns ≡ reached rest
  unfolding await
  Reaches-await probe watching [] rest r = absurd r
  Reaches-await probe watching (t ∷ turns) rest (inl (e, f)) = rw (e, f) refl
  Reaches-await probe watching (t ∷ turns) rest (inr (e, q, r)) =
      let (still, f) = select_case-IsQuiet watching t.next q in
      rw (e, f) (Reaches-await probe still turns rest r)

  -- The endpoint's loop, with a client if it needs one.
  abbrev ReachesOne : RuntimeEndpointConfig → List Turn → List Turn → Type 0
  ReachesOne e turns rest = HasClient new_client e × Reaches (answers e) turns rest

  serves_at : RuntimeEndpointConfig → Turn → Bool
  serves_at e t = is_serving (t.checks (address e))

  dials_at : RuntimeEndpointConfig → Turn → Bool
  dials_at e t = t.dials (address e)

  serves_at-answers : (e : RuntimeEndpointConfig) → e.grpc_health ≡ true → serves_at e ≡ answers e
  unfolding serves_at
  serves_at-answers e g = fun_ext λ t. rw g refl

  dials_at-answers : (e : RuntimeEndpointConfig) → e.grpc_health ≡ false → dials_at e ≡ answers e
  unfolding dials_at
  dials_at-answers e g = fun_ext λ t. rw g refl

  grpc_ready-Reaches :
      (e : RuntimeEndpointConfig) (turns : List Turn)
      → Says
          (λ rest. (new_client (address e) ≡ none) × Reaches (serves_at e) turns rest)
          (grpc_ready has_stop result new_client e turns)
  unfolding grpc_ready serves_at
  grpc_ready-Reaches e turns =
      Option_lem (Says (λ rest. (new_client (address e) ≡ none) × Reaches (serves_at e) turns rest))
        (new_client (address e))
        (λ n.
          Says-mono (Reaches (serves_at e) turns) _
            (await has_stop result new_client (serves_at e) true turns) (λ rest r. (n, r))
            (await-Reaches (serves_at e) true turns (inl refl)))
        (λ err n. tt)

  endpoint-Reaches :
      (e : RuntimeEndpointConfig) (turns : List Turn)
      → Says (ReachesOne e turns) (
          if e.grpc_health
          then grpc_ready has_stop result new_client e turns
          else tcp_ready has_stop result new_client e turns)
  unfolding tcp_ready dials_at
  endpoint-Reaches e turns =
      if_case (Says (ReachesOne e turns)) e.grpc_health
        (λ g.
          Says-mono _ (ReachesOne e turns) (grpc_ready has_stop result new_client e turns)
            (λ rest (n, r). (λ _. n, subst (λ p. Reaches p turns rest) (serves_at-answers e g) r))
            (grpc_ready-Reaches e turns))
        (λ g.
          Says-mono (Reaches (dials_at e) turns) (ReachesOne e turns)
            (await has_stop result new_client (dials_at e) true turns)
            (λ rest r. (λ x. cc, subst (λ p. Reaches p turns rest) (dials_at-answers e g) r))
            (await-Reaches (dials_at e) true turns (inl refl)))

  Reaches-grpc_ready :
      (e : RuntimeEndpointConfig) (turns rest : List Turn)
      → new_client (address e) ≡ none
      → Reaches (serves_at e) turns rest
      → grpc_ready has_stop result new_client e turns ≡ reached rest
  unfolding serves_at grpc_ready
  Reaches-grpc_ready e turns rest n r =
      rw (grpc_ready, n) (Reaches-await (serves_at e) true turns rest r)

  Reaches-endpoint :
      (e : RuntimeEndpointConfig) (turns rest : List Turn)
      → HasClient new_client e
      → Reaches (answers e) turns rest
      → (if e.grpc_health
          then grpc_ready has_stop result new_client e turns
          else tcp_ready has_stop result new_client e turns)
        ≡ reached rest
  unfolding tcp_ready dials_at
  Reaches-endpoint e turns rest c r =
      if_case (λ o. o ≡ reached rest) e.grpc_health
        (λ g.
          Reaches-grpc_ready e turns rest (c g)
            (subst (λ p. Reaches p turns rest) (sym (serves_at-answers e g)) r))
        (λ g.
          Reaches-await (dials_at e) true turns rest
            (subst (λ p. Reaches p turns rest) (sym (dials_at-answers e g)) r))

  next-ReachesAll :
      (e : RuntimeEndpointConfig) (endpoints : List RuntimeEndpointConfig) (turns : List Turn)
      (o : Outcome ReadyError)
      → Says (ReachesOne e turns) o
      → ((rest : List Turn)
          → Says (ReachesAll endpoints rest) (ready_all has_stop result new_client endpoints rest))
      → Says (ReachesAll (e ∷ endpoints) turns) (elim o as (λ o. Outcome (Bytes × ReadyError)) [
        | reached rest ↦ ready_all has_stop result new_client endpoints rest
        | failed err ↦ failed (e.name, err)
        | waits ↦ waits
      ])
  next-ReachesAll e endpoints turns (reached rest) r h =
      Says-mono (ReachesAll endpoints rest) (ReachesAll (e ∷ endpoints) turns)
        (ready_all has_stop result new_client endpoints rest) (λ last rs. (rest, r.0, r.1, rs))
        (h rest)
  next-ReachesAll e endpoints turns (failed err) r h = tt
  next-ReachesAll e endpoints turns waits r h = tt

  ready_all-ReachesAll :
      (endpoints : List RuntimeEndpointConfig) (turns : List Turn)
      → Says (ReachesAll endpoints turns) (ready_all has_stop result new_client endpoints turns)
  unfolding ready_all
  ready_all-ReachesAll [] turns = refl
  ready_all-ReachesAll (e ∷ endpoints) turns =
      next-ReachesAll e endpoints turns
        (if e.grpc_health
          then grpc_ready has_stop result new_client e turns
          else tcp_ready has_stop result new_client e turns)
        (endpoint-Reaches e turns) (ready_all-ReachesAll endpoints)

  ReachesAll-ready_all :
      (endpoints : List RuntimeEndpointConfig) (turns rest : List Turn)
      → ReachesAll endpoints turns rest
      → ready_all has_stop result new_client endpoints turns ≡ reached rest
  unfolding ready_all
  ReachesAll-ready_all [] turns rest e = ap reached e
  ReachesAll-ready_all (e ∷ endpoints) turns rest (next, c, r, rs) =
      rw (ready_all, Reaches-endpoint e turns next c r)
        (ReachesAll-ready_all endpoints next rest rs)

-- `ready` answers that the service is ready, and leaves the turns behind, exactly when the endpoints
-- of its list are reached one after another: each by its own probe, which is a health check that
-- answers SERVING for an endpoint with `grpc_health`, whose client was made without an error, and a
-- dial for another, at 127.0.0.1 and the endpoint's port, before the context expires, and with the
-- launch ended only if it ended without an error and the service has a stop command.
pub ready_exact :
    (cfg : RuntimeAppConfig) (result : Option Bytes) (new_client : Address → Option Bytes)
    (turns rest : List Turn)
    → (ready cfg result new_client turns ≡ reached rest)
      ↔ ReachesAll
          (if is_empty cfg.stop then false else true)
          result
          new_client
          (endpoint_list cfg)
          turns
          rest
unfolding ready
ready_exact cfg result new_client turns rest =
    let has_stop = if is_empty cfg.stop then false else true in
    (
      λ e.
          let said = ready_all-ReachesAll has_stop result new_client (endpoint_list cfg) turns in
          rw e at said,
      ReachesAll-ready_all has_stop result new_client (endpoint_list cfg) turns rest,
    )

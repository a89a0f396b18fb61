-- ===== src/Supervisor/Ready.antt =====
-- internal/supervisor/service.go: `ready`, `tcpReady` and `grpcReady`, the wait for the endpoints of
-- a launched service.
--
-- Each turn of a loop reads one element of a list: what the dial and the health check answer, which
-- are the network's, and the case that the `select` then takes. The end of the list is a loop that
-- still waits. The result of the launch, read once it has ended, and the errors of `grpc.NewClient`
-- are parameters.
pub mod Exact
pub mod Samples
use lazywrap.Base.{
  ℤ, codes, Bytes, Bool, true, false, List, [], ◌∷◌, Option, none, some, if◌then◌else◌, is_empty,
}
use lazywrap.Config.Types.{RuntimeEndpointConfig, RuntimeAppConfig}
use lazywrap.Config.Listing.{endpoint_list}

-- The case of the `select`: `<-done`, `<-ctx.Done()` or `<-tick.C`.
pub data Event : Type 0 where
  exits expires ticks : Event

-- The address that is dialled.
pub record Address : Type 0 where
  pub host : Bytes
  pub port : ℤ

-- The status in the answer of a health check.
pub data Health : Type 0 where
  unknown serving not_serving service_unknown : Health

-- What the network answers at a turn: whether a dial of an address succeeds, and the status that a
-- check of the service there answers, if it does.
pub record Turn : Type 0 where
  pub dials : Address → Bool
  pub checks : Address → Option Health
  pub next : Event

-- `addr`
abbrev pub address : RuntimeEndpointConfig → Address
address e = record { host = codes "127.0.0.1"; port = e.port }

-- `checkErr == nil && response.GetStatus() == SERVING`
abbrev pub is_serving : Option Health → Bool
is_serving (some serving) = true
is_serving _ = false

pub data ReadyError : Type 0 where
  exited_early timed_out : ReadyError
  exited_failed no_client : Bytes → ReadyError

pub data Outcome (E : Type 0) : Type 0 where
  reached : List Turn → Outcome E
  failed : E → Outcome E
  waits : Outcome E

-- What a case of the `select` leads to: an error, or the next turn, which watches `done` or not.
pub data Verdict : Type 0 where
  ends : ReadyError → Verdict
  goes_on : Bool → Verdict

-- `case <-done`, for a service with a stop command or without.
unfoldable pub launch_ended : Bool → Option Bytes → Verdict
launch_ended has_stop (some err) = ends (exited_failed err)
launch_ended true none = goes_on false
launch_ended false none = ends exited_early

module _ (has_stop : Bool) (result : Option Bytes) (new_client : Address → Option Bytes) where
  -- The `select`; a nil channel, which is not watched, is never ready.
  unfoldable pub select_case : Bool → Event → Verdict
  unfolding launch_ended
  select_case watching ticks = goes_on watching
  select_case watching expires = ends timed_out
  select_case true exits = launch_ended has_stop result
  select_case false exits = goes_on false

  -- The loop of `tcpReady` and of `grpcReady`; `watching` while `done` is not nil.
  unfoldable pub await : (Turn → Bool) → Bool → List Turn → Outcome ReadyError
  unfolding select_case
  await probe watching [] = waits
  await probe watching (t ∷ turns) =
      if probe t then reached turns else elim (select_case watching t.next) [
        | ends err ↦ failed err
        | goes_on still ↦ await probe still turns
      ]

  -- `tcpReady`
  unfoldable pub tcp_ready : RuntimeEndpointConfig → List Turn → Outcome ReadyError
  unfolding await
  tcp_ready e turns = await (λ t. t.dials (address e)) true turns

  -- `grpcReady`; `new_client` is the error of `grpc.NewClient`.
  unfoldable pub grpc_ready : RuntimeEndpointConfig → List Turn → Outcome ReadyError
  unfolding await
  grpc_ready e turns = elim (new_client (address e)) [
    | some err ↦ failed (no_client err)
    | none ↦ await (λ t. is_serving (t.checks (address e))) true turns
  ]

  -- The loop of `ready`; an error names its endpoint.
  unfoldable pub ready_all : List RuntimeEndpointConfig → List Turn → Outcome (Bytes × ReadyError)
  unfolding tcp_ready grpc_ready
  ready_all [] turns = reached turns
  ready_all (e ∷ endpoints) turns =
      elim (if e.grpc_health then grpc_ready e turns else tcp_ready e turns) [
        | reached rest ↦ ready_all endpoints rest
        | failed err ↦ failed (e.name, err)
        | waits ↦ waits
      ]

-- `ready`
unfoldable pub ready :
    RuntimeAppConfig
    → Option Bytes
    → (Address → Option Bytes)
    → List Turn
    → Outcome (Bytes × ReadyError)
unfolding ready_all endpoint_list
ready cfg result new_client turns =
    ready_all (if is_empty cfg.stop then false else true) result new_client (endpoint_list cfg)
      turns

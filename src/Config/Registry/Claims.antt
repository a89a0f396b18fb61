-- ===== src/Config/Registry/Claims.antt =====
-- What a registration takes: names and port numbers that were free and are taken from then on.
use lazywrap.Base.{
  ◌≡◌, ◌≢◌, inl, inr, Bytes, bytes_eq, int_eq, eq_bytes_iff, Bool, true, false, ◌||◌, List, [], ◌∷◌,
  ◌++◌, arith, Bool-cases, lookup, lookup-insert, is_some, ℤ, eq_ℤ_iff, All, All-append, All-mono,
}
use lazywrap.Config.Endpoint.{valid}
use lazywrap.Config.Registry.{
  Registry, out_of_range, register_port, register_listen_port, register_host, register_path,
}

-- What two endpoints must not share. Backend ports and listen ports are one kind: a service that
-- listens on a number that another one proxies would take its connections.
pub data Resource : Type 0 where
  socket : ℤ → Resource
  named : Bytes → Resource
  routed : Bytes → Resource

abbrev pub taken : Registry → Resource → Bool
taken reg (socket p) = is_some (lookup p reg.ports) || is_some (lookup p reg.listen_ports)
taken reg (named h) = is_some (lookup h reg.hosts)
taken reg (routed p) = is_some (lookup p reg.paths)

-- From `reg` to `reg'` the resources `rs` were taken, and were free before.
pub record Claims (reg reg' : Registry) (rs : List Resource) : Type 0 where
  pub free : All (λ r. taken reg r ≡ false) rs
  pub held : All (λ r. taken reg' r ≡ true) rs
  pub kept : (r : Resource) → taken reg r ≡ true → taken reg' r ≡ true

pub Claims-nil : (reg : Registry) → Claims reg reg []
Claims-nil reg = record { free = tt; held = tt; kept = λ r h. h }

was_free :
    (reg reg' : Registry) (rs ss : List Resource) (r : Resource)
    → Claims reg reg' rs
    → taken reg' r ≡ false
    → taken reg r ≡ false
was_free reg reg' rs ss r c h = elim (Bool-cases (taken reg r)) [
  | inl x ↦ cc (c.kept r x)
  | inr x ↦ x
]

pub Claims-append :
    {a b c : Registry} (rs ss : List Resource)
    → Claims a b rs
    → Claims b c ss
    → Claims a c (rs ++ ss)
Claims-append {a} {b} {c} rs ss p q = record {
  free = All-append _ rs ss p.free (All-mono _ _ ss (λ r h. was_free a b rs ss r p h) q.free);
  held = All-append _ rs ss (All-mono _ _ rs (λ r h. q.kept r h) p.held) q.held;
  kept = λ r h. q.kept r (p.kept r h);
}

module _ (wrapper : ℤ) (label : Bytes) (port : ℤ) (reg reg' : Registry) where
  pub register_port-Claims :
      register_port wrapper label port reg ≡ valid reg'
      → Claims reg reg' (socket port ∷ []) × (out_of_range port ≡ false) × (port ≢ wrapper)
  unfolding register_port
  register_port-Claims h = (
    record {
      free = (ground arith, tt);
      held = (ground (arith, lookup-insert port port label reg.ports, eq_ℤ_iff port port), tt);
      kept = λ r t. kept r t;
    },
    ground arith,
    ground (arith, eq_ℤ_iff port wrapper),
  )
    where
      kept : (r : Resource) → taken reg r ≡ true → taken reg' r ≡ true
      kept (socket p) t = ground (arith, lookup-insert port p label reg.ports)
      kept (named p) t = ground arith
      kept (routed p) t = ground arith

  pub register_listen_port-Claims :
      register_listen_port wrapper label port reg ≡ valid reg'
      → Claims reg reg' (socket port ∷ []) × (out_of_range port ≡ false) × (port ≢ wrapper)
  unfolding register_listen_port
  register_listen_port-Claims h = (
    record {
      free = (ground arith, tt);
      held =
          (ground (arith, lookup-insert port port label reg.listen_ports, eq_ℤ_iff port port), tt);
      kept = λ r t. kept r t;
    },
    ground arith,
    ground (arith, eq_ℤ_iff port wrapper),
  )
    where
      kept : (r : Resource) → taken reg r ≡ true → taken reg' r ≡ true
      kept (socket p) t = ground (arith, lookup-insert port p label reg.listen_ports)
      kept (named p) t = ground arith
      kept (routed p) t = ground arith

module _ (label name : Bytes) (reg reg' : Registry) where
  pub register_host-Claims :
      register_host label name reg ≡ valid reg' → Claims reg reg' (named name ∷ [])
  unfolding register_host
  register_host-Claims h = record {
    free = (ground arith, tt);
    held = (ground (arith, lookup-insert name name label reg.hosts, eq_bytes_iff name name), tt);
    kept = λ r t. kept r t;
  }
    where
      kept : (r : Resource) → taken reg r ≡ true → taken reg' r ≡ true
      kept (socket p) t = ground arith
      kept (named p) t = ground (arith, lookup-insert name p label reg.hosts)
      kept (routed p) t = ground arith

  pub register_path-Claims :
      register_path label name reg ≡ valid reg' → Claims reg reg' (routed name ∷ [])
  unfolding register_path
  register_path-Claims h = record {
    free = (ground arith, tt);
    held = (ground (arith, lookup-insert name name label reg.paths, eq_bytes_iff name name), tt);
    kept = λ r t. kept r t;
  }
    where
      kept : (r : Resource) → taken reg r ≡ true → taken reg' r ≡ true
      kept (socket p) t = ground arith
      kept (named p) t = ground arith
      kept (routed p) t = ground (arith, lookup-insert name p label reg.paths)

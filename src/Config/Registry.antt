-- ===== src/Config/Registry.antt =====
-- internal/config/config.go: the four maps that `Normalize` fills with the ports, hosts and paths of
-- all endpoints, and the parts of `normalizeEndpoint` that look into them.
-- After an error Go leaves them behind half filled; here they are dropped, since `Normalize` returns
-- the error.
pub mod Claims
pub mod Aliases
use lazywrap.Base.{
  Bytes, bytes_eq, int_eq, Bool, ◌||◌, List, [], ◌∷◌, if◌then◌else◌, lookup, insert, is_some, ℤ,
  pos, eq_ℤ, ltb_ℤ,
}
use lazywrap.Config.Endpoint.{
  Checked, valid, rejected, ◌>>=◌, normalize_host, invalid_port, port_is_wrapper,
  port_is_listen_port, duplicate_port, duplicate_host, duplicate_path, invalid_listen_port,
  listen_port_is_wrapper, listen_port_is_port, duplicate_listen_port,
}

pub record Registry : Type 0 where
  pub paths : List (Bytes × Bytes)
  pub hosts : List (Bytes × Bytes)
  pub ports : List (ℤ × Bytes)
  pub listen_ports : List (ℤ × Bytes)

abbrev pub empty_registry : Registry
empty_registry = record { paths = []; hosts = []; ports = []; listen_ports = [] }

abbrev pub out_of_range : ℤ → Bool
out_of_range p = ltb_ℤ p (pos 1) || ltb_ℤ (pos 65535) p

-- The checks of the backend port, and `ports[endpoint.Port] = label`.
unfoldable pub register_port : ℤ → Bytes → ℤ → Registry → Checked Registry
unfolding lookup insert
register_port wrapper label port reg =
    if out_of_range port
    then rejected invalid_port
    else if eq_ℤ port wrapper
    then rejected port_is_wrapper
    else if is_some (lookup port reg.listen_ports)
    then rejected port_is_listen_port
    else if is_some (lookup port reg.ports)
    then rejected duplicate_port
    else valid (record reg { ports = insert port label reg.ports })

-- The checks of the listen port, and `listenPorts[endpoint.ListenPort] = label`.
unfoldable pub register_listen_port : ℤ → Bytes → ℤ → Registry → Checked Registry
unfolding lookup insert
register_listen_port wrapper label port reg =
    if out_of_range port
    then rejected invalid_listen_port
    else if eq_ℤ port wrapper
    then rejected listen_port_is_wrapper
    else if is_some (lookup port reg.ports)
    then rejected listen_port_is_port
    else if is_some (lookup port reg.listen_ports)
    then rejected duplicate_listen_port
    else valid (record reg { listen_ports = insert port label reg.listen_ports })

-- `registerHost`
unfoldable pub register_host : Bytes → Bytes → Registry → Checked Registry
unfolding lookup insert
register_host label host reg =
    if is_some (lookup host reg.hosts)
    then rejected duplicate_host
    else valid (record reg { hosts = insert host label reg.hosts })

unfoldable pub register_path : Bytes → Bytes → Registry → Checked Registry
unfolding lookup insert
register_path label path reg =
    if is_some (lookup path reg.paths)
    then rejected duplicate_path
    else valid (record reg { paths = insert path label reg.paths })

abbrev pub register_unless : Bool → Bytes → Bytes → Registry → Checked Registry
register_unless skips label host reg = if skips then valid reg else register_host label host reg

-- The loop over the aliases; the gRPC case skips an alias that is the host itself.
unfoldable pub register_aliases :
    (Bytes → Bool) → Bytes → List Bytes → Registry → Checked (List Bytes × Registry)
unfolding normalize_host register_host
register_aliases skips label [] reg = valid ([], reg)
register_aliases skips label (a ∷ more) reg = do
  alias ← normalize_host a
  reg' ← register_unless (skips alias) label alias reg
  (aliases, reg'') ← register_aliases skips label more reg'
  valid (alias ∷ aliases, reg'')

-- ===== src/Config/Types.antt =====
-- internal/config/config.go: the records of a loaded configuration.
-- A Go map is an association list.
use lazywrap.Base.{Bytes, Bool, List, ℤ}

pub record RuntimeEndpointConfig : Type 0 where
  pub name : Bytes
  pub protocol : Bytes
  pub path : Bytes
  pub host : Bytes
  pub aliases : List Bytes
  pub listen_port : ℤ
  pub port : ℤ
  pub include_prefix : Bool
  pub grpc_health : Bool
  pub primary : Bool

pub record RuntimeAppConfig : Type 0 where
  pub id : Bytes
  pub pwd : Bytes
  pub build : Bytes
  pub launch : Bytes
  pub stop : Bytes
  pub protocol : Bytes
  pub path : Bytes
  pub host : Bytes
  pub source : Bytes
  pub env : List (Bytes × Bytes)
  pub listen_port : ℤ
  pub port : ℤ
  pub idle : ℤ
  pub start_timeout : ℤ
  pub stop_timeout : ℤ
  pub include_prefix : Bool
  pub grpc_health : Bool
  pub endpoints : List (Bytes × RuntimeEndpointConfig)

pub record RuntimeConfig : Type 0 where
  pub port : ℤ
  pub log_level : Bytes
  pub start_timeout : ℤ
  pub stop_timeout : ℤ
  pub start_up : List Bytes
  pub tear_down : List Bytes
  pub apps : List (Bytes × RuntimeAppConfig)

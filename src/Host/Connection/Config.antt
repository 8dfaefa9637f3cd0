-- ===== src/Host/Connection/Config.antt =====
-- hub/internal/host/connection.go: the configuration of the manager, and the delay after failed dials.
use visual_tmux_client.Prelude.{ℕ, ◌*◌, ◌^◌, min, if◌then◌else◌, ◌==◌, ltb, nat_eq}

-- Durations are in nanoseconds.
pub record ConnectionConfig : Type 0 where
  pub dial_timeout : ℕ
  pub handshake_timeout : ℕ
  pub operation_timeout : ℕ
  pub keepalive_interval : ℕ
  pub max_backoff : ℕ
  pub max_connections : ℕ

abbrev pub default_connection_config : ConnectionConfig
default_connection_config = record {
  dial_timeout = 10000000000;
  handshake_timeout = 10000000000;
  operation_timeout = 30000000000;
  keepalive_interval = 15000000000;
  max_backoff = 30000000000;
  max_connections = 16;
}

abbrev pub max_backoff_exponent : ℕ
max_backoff_exponent = 6

abbrev pub base_backoff_duration : ℕ
base_backoff_duration = 250000000

abbrev or_default : ℕ → ℕ → ℕ
or_default n default = if n == 0 then default else n

-- The configuration that NewConnectionManager keeps; 0 stands for every value that is not positive.
unfoldable pub completed_config : ConnectionConfig → ConnectionConfig
completed_config c = record {
  dial_timeout = or_default c.dial_timeout default_connection_config.dial_timeout;
  handshake_timeout = or_default c.handshake_timeout default_connection_config.handshake_timeout;
  operation_timeout = or_default c.operation_timeout default_connection_config.operation_timeout;
  keepalive_interval = or_default c.keepalive_interval default_connection_config.keepalive_interval;
  max_backoff = or_default c.max_backoff default_connection_config.max_backoff;
  max_connections = or_default c.max_connections default_connection_config.max_connections;
}

-- computeBackoff
unfoldable pub compute_backoff : ℕ → ℕ → ℕ
compute_backoff failures max_backoff =
    let backoff = 2 ^ min failures max_backoff_exponent * base_backoff_duration in
    if ltb max_backoff backoff then max_backoff else backoff

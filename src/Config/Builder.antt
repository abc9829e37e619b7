-- ===== src/Config/Builder.antt =====
-- `ConfigBuilder` of src/config.rs.
use netconnpool_rust.Base.{ℕ, Bool, some, ok, ◌>>◌}
use netconnpool_rust.Config.{
  Config, Dialer, Acceptor, HealthChecker, CloseConnCallback, OnCreatedCallback,
  BorrowReturnCallback, default_config, default_server_config, apply_defaults, validate,
}
use netconnpool_rust.Errors.{Result}
use netconnpool_rust.Mode.{PoolMode}
use netconnpool_rust.Net.{TcpListener}

pub record ConfigBuilder : Type 0 where
  pub config : Config

abbrev pub new : ConfigBuilder
new = record { config = default_config }

abbrev pub new_server : ConfigBuilder
new_server = record { config = default_server_config }

unfoldable pub mode : PoolMode → ConfigBuilder → ConfigBuilder
mode value b = record { config = record (b.config) { mode = value } }

unfoldable pub max_connections : ℕ → ConfigBuilder → ConfigBuilder
max_connections value b = record { config = record (b.config) { max_connections = value } }

unfoldable pub min_connections : ℕ → ConfigBuilder → ConfigBuilder
min_connections value b = record { config = record (b.config) { min_connections = value } }

unfoldable pub max_idle_connections : ℕ → ConfigBuilder → ConfigBuilder
max_idle_connections value b = record {
  config = record (b.config) { max_idle_connections = value };
}

unfoldable pub connection_timeout : ℕ → ConfigBuilder → ConfigBuilder
connection_timeout value b = record { config = record (b.config) { connection_timeout = value } }

unfoldable pub idle_timeout : ℕ → ConfigBuilder → ConfigBuilder
idle_timeout value b = record { config = record (b.config) { idle_timeout = value } }

unfoldable pub max_lifetime : ℕ → ConfigBuilder → ConfigBuilder
max_lifetime value b = record { config = record (b.config) { max_lifetime = value } }

unfoldable pub get_connection_timeout : ℕ → ConfigBuilder → ConfigBuilder
get_connection_timeout value b = record {
  config = record (b.config) { get_connection_timeout = value };
}

unfoldable pub health_check_interval : ℕ → ConfigBuilder → ConfigBuilder
health_check_interval value b = record {
  config = record (b.config) { health_check_interval = value };
}

unfoldable pub health_check_timeout : ℕ → ConfigBuilder → ConfigBuilder
health_check_timeout value b = record {
  config = record (b.config) { health_check_timeout = value };
}

unfoldable pub connection_leak_timeout : ℕ → ConfigBuilder → ConfigBuilder
connection_leak_timeout value b = record {
  config = record (b.config) { connection_leak_timeout = value };
}

unfoldable pub dialer : Dialer → ConfigBuilder → ConfigBuilder
dialer value b = record { config = record (b.config) { dialer = some value } }

unfoldable pub listener : TcpListener → ConfigBuilder → ConfigBuilder
listener value b = record { config = record (b.config) { listener = some value } }

unfoldable pub acceptor : Acceptor → ConfigBuilder → ConfigBuilder
acceptor value b = record { config = record (b.config) { acceptor = some value } }

unfoldable pub health_checker : HealthChecker → ConfigBuilder → ConfigBuilder
health_checker value b = record { config = record (b.config) { health_checker = some value } }

unfoldable pub close_conn : CloseConnCallback → ConfigBuilder → ConfigBuilder
close_conn value b = record { config = record (b.config) { close_conn = some value } }

unfoldable pub on_created : OnCreatedCallback → ConfigBuilder → ConfigBuilder
on_created value b = record { config = record (b.config) { on_created = some value } }

unfoldable pub on_borrow : BorrowReturnCallback → ConfigBuilder → ConfigBuilder
on_borrow value b = record { config = record (b.config) { on_borrow = some value } }

unfoldable pub on_return : BorrowReturnCallback → ConfigBuilder → ConfigBuilder
on_return value b = record { config = record (b.config) { on_return = some value } }

unfoldable pub enable_stats : Bool → ConfigBuilder → ConfigBuilder
enable_stats value b = record { config = record (b.config) { enable_stats = value } }

unfoldable pub enable_health_check : Bool → ConfigBuilder → ConfigBuilder
enable_health_check value b = record { config = record (b.config) { enable_health_check = value } }

unfoldable pub clear_udp_buffer_on_return : Bool → ConfigBuilder → ConfigBuilder
clear_udp_buffer_on_return value b = record {
  config = record (b.config) { clear_udp_buffer_on_return = value };
}

unfoldable pub udp_buffer_clear_timeout : ℕ → ConfigBuilder → ConfigBuilder
udp_buffer_clear_timeout value b = record {
  config = record (b.config) { udp_buffer_clear_timeout = value };
}

unfoldable pub max_buffer_clear_packets : ℕ → ConfigBuilder → ConfigBuilder
max_buffer_clear_packets value b = record {
  config = record (b.config) { max_buffer_clear_packets = value };
}

unfoldable pub build : ConfigBuilder → Result Config
build b = do validate (apply_defaults b.config); ok (apply_defaults b.config)

unfoldable pub build_unchecked : ConfigBuilder → Config
build_unchecked b = apply_defaults b.config

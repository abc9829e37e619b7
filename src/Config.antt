-- ===== src/Config.antt =====
-- src/config.rs: the configuration of a pool, its defaults and its validation. A callback of the
-- user is a function of the moment at which it is called, so that two calls may differ.
pub mod Builder
pub mod Validity
pub mod Tests
use netconnpool_rust.Base.{
  ℕ, ◌+◌, ◌*◌, ◌/◌, Bool, true, false, not, ◌&&◌, Option, none, some, String, Outcome, ok, err,
  ◌>>◌, map_err, ltb, ◌==◌, is_none, if◌then◌else◌,
}
use netconnpool_rust.Errors.{Result, IoError, invalid_config}
use netconnpool_rust.Mode.{PoolMode, client, server, eq}
use netconnpool_rust.Net.{Moment, Socket, TcpListener}
use netconnpool_rust.Protocol.{Protocol}

pub data ConnectionType : Type 0 where
  tcp udp : Socket → ConnectionType

-- `Box<dyn Error + Send + Sync>`, by its `to_string()`.
abbrev pub BoxError : Type 0
BoxError = String

abbrev pub CloseConnCallback : Type 0
CloseConnCallback = Moment → ConnectionType → Outcome (Unit {0}) BoxError

abbrev pub OnCreatedCallback : Type 0
OnCreatedCallback = Moment → ConnectionType → Outcome (Unit {0}) BoxError

-- It returns nothing: what counts is that it is called, which the pool's trace records.
abbrev pub BorrowReturnCallback : Type 0
BorrowReturnCallback = Unit {0}

abbrev pub Dialer : Type 0
Dialer = Moment → Option Protocol → Outcome ConnectionType BoxError

abbrev pub Acceptor : Type 0
Acceptor = Moment → TcpListener → Outcome Socket BoxError

abbrev pub HealthChecker : Type 0
HealthChecker = Moment → ConnectionType → Bool

pub record Config : Type 0 where
  pub mode : PoolMode
  pub max_connections : ℕ
  pub min_connections : ℕ
  pub max_idle_connections : ℕ
  pub connection_timeout : ℕ
  pub idle_timeout : ℕ
  pub max_lifetime : ℕ
  pub get_connection_timeout : ℕ
  pub health_check_interval : ℕ
  pub health_check_timeout : ℕ
  pub connection_leak_timeout : ℕ
  pub dialer : Option Dialer
  pub listener : Option TcpListener
  pub acceptor : Option Acceptor
  pub health_checker : Option HealthChecker
  pub close_conn : Option CloseConnCallback
  pub on_created : Option OnCreatedCallback
  pub on_borrow : Option BorrowReturnCallback
  pub on_return : Option BorrowReturnCallback
  pub enable_stats : Bool
  pub enable_health_check : Bool
  pub clear_udp_buffer_on_return : Bool
  pub udp_buffer_clear_timeout : ℕ
  pub max_buffer_clear_packets : ℕ

-- `Duration::from_secs` and `Duration::from_millis`.
abbrev pub from_secs : ℕ → ℕ
from_secs n = n * 1_000_000_000

abbrev pub from_millis : ℕ → ℕ
from_millis n = n * 1_000_000

abbrev pub default_config : Config
default_config = record {
  mode = client;
  max_connections = 10;
  min_connections = 2;
  max_idle_connections = 10;
  connection_timeout = from_secs 10;
  idle_timeout = from_secs (5 * 60);
  max_lifetime = from_secs (30 * 60);
  get_connection_timeout = from_secs 5;
  health_check_interval = from_secs 30;
  health_check_timeout = from_secs 3;
  connection_leak_timeout = from_secs (5 * 60);
  dialer = none;
  listener = none;
  acceptor = none;
  health_checker = none;
  close_conn = none;
  on_created = none;
  on_borrow = none;
  on_return = none;
  enable_stats = true;
  enable_health_check = true;
  clear_udp_buffer_on_return = true;
  udp_buffer_clear_timeout = from_millis 100;
  max_buffer_clear_packets = 100;
}

abbrev pub default_server_config : Config
default_server_config = record {
  mode = server;
  max_connections = 100;
  min_connections = 0;
  max_idle_connections = 50;
  connection_timeout = from_secs 10;
  idle_timeout = from_secs (5 * 60);
  max_lifetime = from_secs (30 * 60);
  get_connection_timeout = from_secs 5;
  health_check_interval = from_secs 30;
  health_check_timeout = from_secs 3;
  connection_leak_timeout = from_secs (5 * 60);
  dialer = none;
  listener = none;
  acceptor = none;
  health_checker = none;
  close_conn = none;
  on_created = none;
  on_borrow = none;
  on_return = none;
  enable_stats = true;
  enable_health_check = true;
  clear_udp_buffer_on_return = true;
  udp_buffer_clear_timeout = from_millis 100;
  max_buffer_clear_packets = 100;
}

abbrev refuse_if : Bool → String → Result (Unit {0})
refuse_if true reason = err (invalid_config reason)
refuse_if false _ = ok tt

validate_mode : Config → PoolMode → Result (Unit {0})
validate_mode c client = refuse_if (is_none c.dialer) "客户端模式需要 Dialer"
validate_mode c server = refuse_if (is_none c.listener) "服务器端模式需要 Listener"

-- `Config::validate`. The texts of the reasons leave out the numbers that the source puts in.
unfoldable pub validate : Config → Result (Unit {0})
unfolding validate_mode
validate c = do
  validate_mode c c.mode
  refuse_if
      (ltb 0 c.min_connections
        && ltb 0 c.max_connections
        && ltb c.max_connections c.min_connections)
      "min_connections 不能大于 max_connections"
  refuse_if (c.max_idle_connections == 0) "max_idle_connections 必须大于 0"
  refuse_if (c.connection_timeout == 0) "connection_timeout 必须大于 0"
  refuse_if
      (ltb 0 c.max_idle_connections
        && ltb 0 c.max_connections
        && ltb c.max_connections c.max_idle_connections)
      "max_idle_connections 不能大于 max_connections"
  refuse_if (ltb c.max_lifetime c.idle_timeout) "idle_timeout 不能大于 max_lifetime"
  refuse_if (ltb c.health_check_interval c.health_check_timeout)
      "health_check_timeout 不能大于 health_check_interval"

unfoldable pub default_acceptor : Acceptor
default_acceptor m listener = map_err (λ e. e.message) (listener.accept m)

default_the_acceptor : Config → Config
default_the_acceptor c =
    if eq c.mode server && is_none c.acceptor
    then record c { acceptor = some default_acceptor }
    else c

limit_max_idle : Config → Config
limit_max_idle c =
    if ltb 0 c.max_idle_connections
      && ltb 0 c.max_connections
      && ltb c.max_connections c.max_idle_connections
    then record c { max_idle_connections = c.max_connections }
    else c

limit_check_timeout : Config → Config
limit_check_timeout c =
    if not (c.health_check_interval == 0) && ltb c.health_check_interval c.health_check_timeout
    then record c { health_check_timeout = c.health_check_interval / 2 }
    else c

default_packets : Config → Config
default_packets c =
    if c.max_buffer_clear_packets == 0 then record c { max_buffer_clear_packets = 100 } else c

-- `Config::apply_defaults`, its four corrections in their order.
unfoldable pub apply_defaults : Config → Config
unfolding default_the_acceptor limit_max_idle limit_check_timeout default_packets
apply_defaults c = default_packets (limit_check_timeout (limit_max_idle (default_the_acceptor c)))

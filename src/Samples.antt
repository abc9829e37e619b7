-- ===== src/Samples.antt =====
-- Sample data for the tests: a socket, configurations, connections and pools with small contents.
use netconnpool_rust.Base.{
  ℕ, ◌≡◌, refl, true, false, none, some, List, [], ◌∷◌, ok, ◌==◌, if◌then◌else◌,
}
use netconnpool_rust.Base.Int.{pos}
use netconnpool_rust.Config.{Config, apply_defaults, validate, default_config, tcp}
use netconnpool_rust.Connection.{Connection}
use netconnpool_rust.IpVersion
use netconnpool_rust.IpVersion.{v4}
use netconnpool_rust.Net.{Moment, Socket, packet}
use netconnpool_rust.Protocol
use netconnpool_rust.SegQueue.{list_queue}
use netconnpool_rust.Pool.State.{PoolInner}
use netconnpool_rust.Pool.Threads.{init, new}
use netconnpool_rust.Stats

abbrev pub moment : Moment
moment = record { instant = 5; unix = 5; clear_elapsed = λ n. n }

abbrev pub socket : Socket
socket = record {
  peer_addr = some (v4 1);
  local_addr = some (v4 2);
  refuses = λ b. none;
  nonblocking = false;
  incoming = packet 10 ∷ packet 20 ∷ [];
  is_shutdown = false;
}

abbrev pub config : Config
config = record default_config {
  max_connections = 2;
  max_idle_connections = 1;
  min_connections = 0;
  dialer = some (λ m p. ok (tcp socket));
}

abbrev pub connection : Connection
connection = record {
  id = 7;
  conn = tcp socket;
  protocol = Protocol.tcp;
  ip_version = IpVersion.ipv4;
  created_at = 1;
  last_used_at = 3;
  last_health_check_at = 1;
  is_healthy = true;
  closed = false;
  in_use = false;
  reuse_count = pos 0;
  leak_reported = false;
  on_close = none;
}

-- One connection, at place 0 and under the id 7, which is idle.
abbrev pub pool : PoolInner (List ℕ)
pool = record {
  config = config;
  store = λ r. connection;
  next_ref = 1;
  generator = 7;
  all_connections = (7, 0) ∷ [];
  idle_connections = λ i. if i == 0 then 0 ∷ [] else [];
  idle_counts = λ i. if i == 0 then 1 else 0;
  closed = false;
  active_count = 0;
  stats_collector = some Stats.new;
  trace = [];
}

-- The same connection lent to a borrower.
abbrev pub lent_pool : PoolInner (List ℕ)
lent_pool = record pool {
  store = λ r. record connection { in_use = true };
  idle_connections = λ i. [];
  idle_counts = λ i. 0;
  active_count = 1;
}

-- The heap of a process with nothing allocated, and a new pool on it.
abbrev pub store : ℕ → Connection
store r = connection

abbrev pub fresh_pool : PoolInner (List ℕ)
fresh_pool = init store 0 0 (apply_defaults config)

pub new_fresh : new store 0 0 (ok tt) config ≡ ok fresh_pool
unfolding new validate apply_defaults
new_fresh = refl

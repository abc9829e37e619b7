-- ===== src/Connection.antt =====
-- src/connection.rs: one connection with its atomic fields, and the static generator of ids.
pub mod Evolution
pub mod Timing
use netconnpool_rust.Base.{
  ℕ, ◌+◌, ◌-◌, ◌*◌, ◌%◌, ◌^◌, min, Bool, true, false, not, ◌&&◌, ◌||◌, Option, none, some, Outcome,
  ok, err, ltb, leb, ◌==◌, if◌then◌else◌,
}
use netconnpool_rust.Base.Int.{ℤ, pos, negsuc, ◌+ℤ◌, leb_ℤ, i64_max, i64_min}
use netconnpool_rust.Config.{ConnectionType, tcp, udp, BoxError}
use netconnpool_rust.IpVersion
use netconnpool_rust.IpVersion.{IpVersion, SocketAddr, detect_ip_version}
use netconnpool_rust.Net.{Moment, Socket, shutdown, u64_max}
use netconnpool_rust.Protocol
use netconnpool_rust.Protocol.{Protocol}

-- `on_close`: what the callback of the user answers.
abbrev pub OnCloseCallback : Type 0
OnCloseCallback = Moment → Outcome (Unit {0}) BoxError

pub record Connection : Type 0 where
  pub id : ℕ
  pub conn : ConnectionType
  pub protocol : Protocol
  pub ip_version : IpVersion
  pub created_at : ℕ
  pub last_used_at : ℕ
  pub last_health_check_at : ℕ
  pub is_healthy : Bool
  pub closed : Bool
  pub in_use : Bool
  pub reuse_count : ℤ
  pub leak_reported : Bool
  pub on_close : Option OnCloseCallback

unfoldable pub now_nanos : Moment → ℕ
now_nanos m = min m.unix u64_max

-- The loop over CONNECTION_ID_GENERATOR in `Connection::new`, with its exchange successful: the new
-- value of the generator, which is also the id. The masks keep 48 bits and set the bit above them.
unfoldable pub next_id : (old unix : ℕ) → ℕ
next_id old unix = if ltb old u64_max then old + 1 else min unix u64_max % 2 ^ 48 + 2 ^ 48

abbrev socket_of : ConnectionType → Socket
socket_of (tcp s) = s
socket_of (udp s) = s

abbrev protocol_of : ConnectionType → Protocol
protocol_of (tcp _) = Protocol.tcp
protocol_of (udp _) = Protocol.udp

-- `peer_addr().or_else(local_addr)`, then `detect_ip_version`, or `Unknown`.
ip_version_of : Option SocketAddr → Option SocketAddr → IpVersion
ip_version_of (some peer) _ = detect_ip_version peer
ip_version_of none (some own) = detect_ip_version own
ip_version_of none none = IpVersion.unknown

-- `Connection::new`, with the generator before; `.id` is also the generator after.
unfoldable pub new : Moment → (generator : ℕ) → ConnectionType → Option OnCloseCallback → Connection
unfolding next_id now_nanos ip_version_of
new m generator conn on_close = record {
  id = next_id generator m.unix;
  conn = conn;
  protocol = protocol_of conn;
  ip_version = ip_version_of (socket_of conn).peer_addr (socket_of conn).local_addr;
  created_at = m.instant;
  last_used_at = now_nanos m;
  last_health_check_at = now_nanos m;
  is_healthy = true;
  closed = false;
  in_use = false;
  reuse_count = pos 0;
  leak_reported = false;
  on_close = on_close;
}

unfoldable pub new_from_tcp :
    Moment → (generator : ℕ) → Socket → Option OnCloseCallback → Connection
new_from_tcp m generator stream on_close = new m generator (tcp stream) on_close

unfoldable pub new_from_udp :
    Moment → (generator : ℕ) → Socket → Option OnCloseCallback → Connection
new_from_udp m generator socket on_close = new m generator (udp socket) on_close

-- `detect_protocol` of src/protocol.rs.
unfoldable pub detect_protocol : ConnectionType → Protocol
detect_protocol (tcp _) = Protocol.tcp
detect_protocol (udp _) = Protocol.udp

unfoldable pub update_id : ℕ → Connection → Connection
update_id new_id c = record c { id = new_id }

unfoldable pub udp_conn : Connection → Option Socket
udp_conn c = elim c.conn [ tcp _ ↦ none | udp s ↦ some s ]

unfoldable pub tcp_conn : Connection → Option Socket
tcp_conn c = elim c.conn [ tcp s ↦ some s | udp _ ↦ none ]

unfoldable pub mark_in_use : Moment → Connection → Connection
unfolding now_nanos
mark_in_use m c = record c { in_use = true; last_used_at = now_nanos m }

unfoldable pub mark_idle : Moment → Connection → Connection
unfolding now_nanos
mark_idle m c = record c { in_use = false; last_used_at = now_nanos m }

unfoldable pub try_mark_idle : Moment → Connection → Connection × Bool
unfolding now_nanos
try_mark_idle m c =
    if c.in_use then (record c { in_use = false; last_used_at = now_nanos m }, true) else (c, false)

unfoldable pub update_health : Moment → Bool → Connection → Connection
unfolding now_nanos
update_health m healthy c =
    if healthy
    then record c { is_healthy = true; last_health_check_at = now_nanos m }
    else record c { is_healthy = false }

unfoldable pub mark_unhealthy : Connection → Connection
mark_unhealthy c = record c { is_healthy = false }

unfoldable pub should_health_check : Moment → (interval : ℕ) → Connection → Bool
unfolding now_nanos
should_health_check m interval c =
    if interval == 0
    then false
    else if leb c.last_health_check_at (now_nanos m)
    then leb interval (now_nanos m - c.last_health_check_at)
    else true

unfoldable pub report_leak_once : Connection → Connection × Bool
report_leak_once c = (record c { leak_reported = true }, not c.leak_reported)

-- `Instant::duration_since` stops at zero.
unfoldable pub is_expired : Moment → (max_lifetime : ℕ) → Connection → Bool
is_expired m max_lifetime c =
    if max_lifetime == 0 then false else ltb max_lifetime (m.instant - c.created_at)

unfoldable pub is_idle_expired : Moment → (idle_timeout : ℕ) → Connection → Bool
unfolding now_nanos
is_idle_expired m idle_timeout c =
    if idle_timeout == 0
    then false
    else if c.in_use
    then false
    else if leb c.last_used_at (now_nanos m)
    then ltb idle_timeout (now_nanos m - c.last_used_at)
    else false

unfoldable pub is_leaked : Moment → (leak_timeout : ℕ) → Connection → Bool
unfolding now_nanos
is_leaked m leak_timeout c =
    if leak_timeout == 0 || not c.in_use
    then false
    else if leb c.last_used_at (now_nanos m)
    then ltb leak_timeout (now_nanos m - c.last_used_at)
    else false

unfoldable pub get_leaked_duration : Moment → Connection → Option ℕ
unfolding now_nanos
get_leaked_duration m c =
    if not c.in_use
    then none
    else if leb c.last_used_at (now_nanos m)
    then some (now_nanos m - c.last_used_at)
    else none

abbrev shut : ConnectionType → ConnectionType
shut (tcp s) = tcp (shutdown s)
shut (udp s) = udp s

-- What `close` does where it is the first: the callback of the user, or the default.
close_first : Moment → Connection → Connection × Outcome (Unit {0}) BoxError
close_first m c = elim c.on_close [
  | none ↦ (record c { conn = shut c.conn; is_healthy = false }, ok tt)
  | some on_close ↦ elim (on_close m) [
    | ok _ ↦ (record c { is_healthy = false }, ok tt)
    | err e ↦ (c, err e)
  ]
]

unfoldable pub close : Moment → Connection → Connection × Outcome (Unit {0}) BoxError
unfolding close_first
close m c = if c.closed then (c, ok tt) else close_first m (record c { closed = true })

unfoldable pub age : Moment → Connection → ℕ
age m c = m.instant - c.created_at

unfoldable pub idle_time : Moment → Connection → ℕ
unfolding now_nanos
idle_time m c =
    if c.in_use
    then 0
    else if leb c.last_used_at (now_nanos m)
    then now_nanos m - c.last_used_at
    else 0

-- `fetch_add(1)` on an AtomicI64 wraps around.
unfoldable pub increment_reuse_count : Connection → Connection
increment_reuse_count c = record c {
  reuse_count = if leb_ℤ i64_max c.reuse_count then i64_min else c.reuse_count +ℤ pos 1;
}

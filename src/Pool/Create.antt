-- ===== src/Pool/Create.antt =====
-- src/pool/mod.rs: `create_connection`, in the steps between which other threads may run: the quick
-- check, the dialling with the checks of what came of it, and the final check with the insertion.
use netconnpool_rust.Base.{
  ℕ, zero, suc, ◌+◌, ◌%◌, ◌^◌, Bool, false, not, ◌&&◌, Option, none, some, List, String, ok, err,
  ◌>>=◌, ◌>>◌, map_err, ltb, leb, ◌==◌, length, update, if◌then◌else◌,
}
use netconnpool_rust.Base.Int.{pos}
use netconnpool_rust.Config.{Config, ConnectionType, tcp, udp, BoxError}
use netconnpool_rust.Connection
use netconnpool_rust.Connection.{Connection}
use netconnpool_rust.Errors.{
  NetConnPoolError, Result, max_connections_reached, invalid_config, io_error,
  no_connection_for_protocol, no_connection_for_ip_version, other_error,
}
use netconnpool_rust.IpVersion
use netconnpool_rust.IpVersion.{IpVersion}
use netconnpool_rust.Mode.{PoolMode, client, server}
use netconnpool_rust.Net.{Moment, set_nonblocking}
use netconnpool_rust.Protocol
use netconnpool_rust.Protocol.{Protocol}
use netconnpool_rust.Stats
use netconnpool_rust.Stats.{StatsInternal}
use netconnpool_rust.Pool.State.{PoolInner, count, contains_key, insert_new, update_stats_on_kind}
use netconnpool_rust.Pool.Remove.{close_connection}

-- A callback's error, as the code passes it on.
abbrev other_io : BoxError → NetConnPoolError
other_io message = io_error (other_error message)

-- Whether the map is full, and the error that says so.
abbrev pub is_full : Config → ℕ → Bool
is_full config current = ltb 0 config.max_connections && leb config.max_connections current

abbrev pub full_error : Config → ℕ → NetConnPoolError
full_error config current = max_connections_reached current config.max_connections

or_config_error : {A : Type 0} → Option A → String → Result A
or_config_error (some a) reason = ok a
or_config_error none reason = err (invalid_config reason)

-- `match self.config.mode { … }`: a new connection of the dialer or of the acceptor.
open_connection : Moment → Option Protocol → Config → PoolMode → Result ConnectionType
unfolding or_config_error
open_connection m required config client = do
  dialer ← or_config_error config.dialer "客户端模式需要 Dialer"
  map_err other_io (dialer m required)
open_connection m required config server = do
  listener ← or_config_error config.listener "服务器模式需要 Listener"
  acceptor ← or_config_error config.acceptor "服务器模式需要 Acceptor"
  stream ← map_err other_io (acceptor m listener)
  ok (tcp stream)

make_blocking : ConnectionType → Result ConnectionType
make_blocking (tcp s) = do stream ← map_err io_error (set_nonblocking false s); ok (tcp stream)
make_blocking (udp s) = do socket ← map_err io_error (set_nonblocking false s); ok (udp socket)

-- The connection that is opened, announced and made blocking.
unfoldable pub dial : Moment → Option Protocol → Config → Result ConnectionType
unfolding open_connection make_blocking
dial m required config = do
  conn_type ← open_connection m required config config.mode
  elim config.on_created [
    | none ↦ ok tt
    | some on_created ↦ map_err other_io (on_created m conn_type)
  ]
  make_blocking conn_type

-- `if let Some(p) = required_protocol { if p != Unknown && … }`, and the same of the IP version.
unfoldable pub is_wrong_protocol : Option Protocol → Protocol → Bool
is_wrong_protocol none actual = false
is_wrong_protocol (some p) actual =
    not (Protocol.eq p Protocol.unknown) && not (Protocol.eq actual p)

unfoldable pub is_wrong_version : Option IpVersion → IpVersion → Bool
is_wrong_version none actual = false
is_wrong_version (some ip) actual =
    not (IpVersion.eq ip IpVersion.unknown) && not (IpVersion.eq actual ip)

-- The text of the required protocol; `""` stands for the case that does not occur.
required_name : {A : Type 0} → (A → String) → Option A → String
required_name name none = ""
required_name name (some p) = name p

-- `wrapping_add(1)`, and past zero.
unfoldable pub next_key : ℕ → ℕ
next_key k = let n = (k + 1) % 2 ^ 64 in if n == 0 then 1 else n

pub data Probe : Type 0 where
  free : ℕ → Probe
  cycled out_of_fuel : Probe

-- The search for a free id, from the one after `final_id`; `own` is the id of the connection.
unfoldable pub probe {ℓ} : {A : Type ℓ} → (fuel own final_id : ℕ) → List (ℕ × A) → Probe
unfolding next_key
probe zero own final_id entries = out_of_fuel
probe (suc fuel) own final_id entries =
    let rest = probe fuel own (next_key final_id) entries in
    if not (contains_key entries (next_key final_id))
    then free (next_key final_id)
    else if next_key final_id == own
    then cycled
    else rest

-- `final_id`: the id of the connection, or the one that the search finds.
unfoldable pub choose_id {ℓ} : {A : Type ℓ} → ℕ → List (ℕ × A) → Probe
unfolding probe
choose_id own entries =
    let searched = probe (suc (length entries)) own own entries in
    if contains_key entries own then searched else free own

-- The counters at the end of `create_connection`.
unfoldable pub update_stats_on_create : Connection → StatsInternal → StatsInternal
update_stats_on_create c s =
    update_stats_on_kind (pos 1) c (Stats.increment_total_connections_created s)

module _ {Queue : Type 0} where
  -- The quick check, under the read lock.
  unfoldable pub create_check : PoolInner Queue → Result (Unit {0})
  create_check p =
      let current = length p.all_connections in
      if is_full p.config current then err (full_error p.config current) else ok tt

  -- `Arc::new(Connection::new…(…, None))`.
  unfoldable pub allocate : Moment → ConnectionType → PoolInner Queue → PoolInner Queue
  allocate m conn_type p =
      let c = Connection.new m p.generator conn_type none in
      record p { store = update p.store p.next_ref c; next_ref = p.next_ref + 1; generator = c.id }

  abbrev insert_as : ℕ → ℕ → PoolInner Queue → PoolInner Queue
  insert_as id r p = record p {
    store = update p.store r (Connection.update_id id (p.store r));
    all_connections = insert_new id r p.all_connections;
  }

  -- The insertion under the id that the search has found, and the counters.
  unfoldable pub insert_found : Moment → ℕ → Probe → PoolInner Queue → PoolInner Queue × Result ℕ
  insert_found m r (free id) p =
      (count (update_stats_on_create (p.store r)) (insert_as id r p), ok r)
  insert_found m r _ p = (close_connection m r p, err (io_error (other_error "连接 ID 冲突且无法解决")))

  -- The final check and the insertion, under the write lock, and the counters.
  unfoldable pub create_finish : Moment → ℕ → PoolInner Queue → PoolInner Queue × Result ℕ
  create_finish m r p =
      let current = length p.all_connections in
      if is_full p.config current
      then (close_connection m r p, err (full_error p.config current))
      else insert_found m r (choose_id (p.store r).id p.all_connections) p

  -- What follows the dialling: the requirements of the caller, then the insertion.
  unfoldable pub create_admit :
      Moment
      → Option Protocol
      → Option IpVersion
      → ConnectionType
      → PoolInner Queue
      → PoolInner Queue × Result ℕ
  unfolding required_name
  create_admit m protocol ip_version conn_type p =
      let r = p.next_ref in
      let q = allocate m conn_type p in
      let c = q.store r in
      if is_wrong_protocol protocol c.protocol
      then (
        close_connection m r q,
        err (no_connection_for_protocol (required_name Protocol.to_string protocol)),
      )
      else if is_wrong_version ip_version c.ip_version
      then (
        close_connection m r q,
        err (no_connection_for_ip_version (required_name IpVersion.to_string ip_version)),
      )
      else create_finish m r q

  unfoldable pub create_dialled :
      Moment
      → Option Protocol
      → Option IpVersion
      → Result ConnectionType
      → PoolInner Queue
      → PoolInner Queue × Result ℕ
  create_dialled m protocol ip_version (err e) p = (p, err e)
  create_dialled m protocol ip_version (ok conn_type) p =
      create_admit m protocol ip_version conn_type p

  -- `PoolInner::create_connection`, with no other thread between its steps.
  unfoldable pub create_connection :
      Moment → Option Protocol → Option IpVersion → PoolInner Queue → PoolInner Queue × Result ℕ
  create_connection m protocol ip_version p = elim (create_check p) [
    | err e ↦ (p, err e)
    | ok _ ↦ create_dialled m protocol ip_version (dial m protocol p.config) p
  ]

-- ===== src/Pool/State.antt =====
-- src/pool/mod.rs: `struct PoolInner`, what the handlers read of it, and the buckets. An
-- `Arc<Connection>` is a number, the place of the shared object in `store`; an atomic field holds its
-- value. The locks and the condition variables have no state between the handlers; `trace` records,
-- newest first, the wake-ups and the callbacks of the user that return nothing or whose result is
-- thrown away.
use netconnpool_rust.Base.{
  ℕ, ◌+◌, ◌-◌, ◌*◌, ◌%◌, ◌^◌, Bool, true, false, not, Option, none, some, List, [], ◌∷◌, ◌==◌,
  update, if◌then◌else◌,
}
use mathlib.Core.Option
use netconnpool_rust.Base.Int.{ℤ, pos, negsuc}
use netconnpool_rust.Config.{Config}
use netconnpool_rust.Connection
use netconnpool_rust.Connection.{Connection}
use netconnpool_rust.IpVersion
use netconnpool_rust.IpVersion.{IpVersion}
use netconnpool_rust.Net.{Moment}
use netconnpool_rust.Protocol
use netconnpool_rust.Protocol.{Protocol}
use netconnpool_rust.Stats
use netconnpool_rust.Stats.{StatsInternal}

pub data Event : Type 0 where
  notify_one notify_all : Event
  on_borrow on_return close_conn : ℕ → Event

pub record PoolInner (Queue : Type 0) : Type 0 where
  pub config : Config
  -- the heap of the process's connections, and the next free place; what others than the pool make
  -- takes places of it too
  pub store : ℕ → Connection
  pub next_ref : ℕ
  -- CONNECTION_ID_GENERATOR of src/connection.rs, a static of the process that others advance too
  pub generator : ℕ
  -- the map from ids to connections; the order of the list is that of the map's iterator
  pub all_connections : List (ℕ × ℕ)
  -- the arrays of four, by index
  pub idle_connections : ℕ → Queue
  pub idle_counts : ℕ → ℕ
  pub closed : Bool
  pub active_count : ℕ
  pub stats_collector : Option StatsInternal
  pub trace : List Event

-- The map's operations.
abbrev pub contains_key {ℓ} : {A : Type ℓ} → List (ℕ × A) → ℕ → Bool
contains_key [] k = false
contains_key ((j, v) ∷ rest) k = if j == k then true else contains_key rest k

abbrev pub remove_key {ℓ} : {A : Type ℓ} → ℕ → List (ℕ × A) → List (ℕ × A)
remove_key k [] = []
remove_key k ((j, v) ∷ rest) = if j == k then remove_key k rest else (j, v) ∷ remove_key k rest

-- `insert` of a key that the map does not hold.
abbrev pub insert_new {ℓ} : {A : Type ℓ} → ℕ → A → List (ℕ × A) → List (ℕ × A)
insert_new k v entries = (k, v) ∷ entries

abbrev pub values {ℓ} : {A : Type ℓ} → List (ℕ × A) → List A
values [] = []
values ((j, v) ∷ rest) = v ∷ values rest

-- `fetch_add(1)` and `fetch_sub(1)` on an AtomicUsize wrap around.
abbrev pub fetch_add : ℕ → ℕ
fetch_add n = (n + 1) % 2 ^ 64

abbrev pub fetch_sub : ℕ → ℕ
fetch_sub n = (n + (2 ^ 64 - 1)) % 2 ^ 64

protocol_index : Protocol → Option ℕ
protocol_index Protocol.tcp = some 0
protocol_index Protocol.udp = some 1
protocol_index _ = none

ip_index : IpVersion → Option ℕ
ip_index IpVersion.ipv4 = some 0
ip_index IpVersion.ipv6 = some 1
ip_index _ = none

bucket_at : Option ℕ → Option ℕ → Option ℕ
bucket_at (some p) (some ip) = some (p * 2 + ip)
bucket_at _ _ = none

-- `PoolInner::get_bucket_index`.
unfoldable pub get_bucket_index : Protocol → IpVersion → Option ℕ
unfolding protocol_index ip_index bucket_at
get_bucket_index protocol ip_version = bucket_at (protocol_index protocol) (ip_index ip_version)

abbrev both_protocols : List Protocol
both_protocols = Protocol.tcp ∷ Protocol.udp ∷ []

abbrev both_versions : List IpVersion
both_versions = IpVersion.ipv4 ∷ IpVersion.ipv6 ∷ []

wanted_protocols : Option Protocol → List Protocol
wanted_protocols none = both_protocols
wanted_protocols (some p) = if Protocol.eq p Protocol.unknown then both_protocols else p ∷ []

wanted_versions : Option IpVersion → List IpVersion
wanted_versions none = both_versions
wanted_versions (some ip) = if IpVersion.eq ip IpVersion.unknown then both_versions else ip ∷ []

abbrev push_some {ℓ} : {A : Type ℓ} → Option A → List A → List A
push_some none rest = rest
push_some (some x) rest = x ∷ rest

buckets_of : Protocol → List IpVersion → List ℕ → List ℕ
buckets_of p [] rest = rest
buckets_of p (ip ∷ ips) rest = push_some (get_bucket_index p ip) (buckets_of p ips rest)

bucket_pairs : List Protocol → List IpVersion → List ℕ
unfolding buckets_of
bucket_pairs [] ips = []
bucket_pairs (p ∷ ps) ips = buckets_of p ips (bucket_pairs ps ips)

-- `PoolInner::get_target_buckets`.
unfoldable pub get_target_buckets : Option Protocol → Option IpVersion → List ℕ
unfolding bucket_pairs wanted_protocols wanted_versions get_bucket_index
get_target_buckets protocol ip_version =
    bucket_pairs (wanted_protocols protocol) (wanted_versions ip_version)

module _ {Queue : Type 0} where
  abbrev pub set_conn : ℕ → Connection → PoolInner Queue → PoolInner Queue
  set_conn r c p = record p { store = update p.store r c }

  -- `if let Some(stats) = &self.stats_collector { … }`.
  abbrev pub count : (StatsInternal → StatsInternal) → PoolInner Queue → PoolInner Queue
  count f p = record p { stats_collector = Option.map f p.stats_collector }

  abbrev pub log : Event → PoolInner Queue → PoolInner Queue
  log e p = record p { trace = e ∷ p.trace }

  -- `PoolInner::is_connection_valid_for_borrow`.
  unfoldable pub is_connection_valid_for_borrow : Moment → Connection → PoolInner Queue → Bool
  is_connection_valid_for_borrow m c p =
      if c.closed
      then false
      else if not c.is_healthy
      then false
      else if Connection.is_expired m p.config.max_lifetime c
      then false
      else if Connection.is_idle_expired m p.config.idle_timeout c
      then false
      else true

abbrev pub by_version {ℓ} : {A : Type ℓ} → IpVersion → (A → A) → (A → A) → A → A
by_version IpVersion.ipv4 f g a = f a
by_version IpVersion.ipv6 f g a = g a
by_version IpVersion.unknown f g a = a

abbrev pub by_protocol {ℓ} : {A : Type ℓ} → Protocol → (A → A) → (A → A) → A → A
by_protocol Protocol.tcp f g a = f a
by_protocol Protocol.udp f g a = g a
by_protocol Protocol.unknown f g a = a

-- The counters of the idle connections: `update_stats_on_idle_push` for 1 and
-- `update_stats_on_idle_pop` for -1.
update_stats_on_idle : ℤ → Connection → StatsInternal → StatsInternal
update_stats_on_idle delta c s =
    by_protocol c.protocol (Stats.increment_current_tcp_idle_connections delta)
      (Stats.increment_current_udp_idle_connections delta)
      (by_version c.ip_version (Stats.increment_current_ipv4_idle_connections delta)
        (Stats.increment_current_ipv6_idle_connections delta)
        (Stats.increment_current_idle_connections delta s))

unfoldable pub update_stats_on_idle_push : Connection → StatsInternal → StatsInternal
unfolding update_stats_on_idle
update_stats_on_idle_push = update_stats_on_idle (pos 1)

unfoldable pub update_stats_on_idle_pop : Connection → StatsInternal → StatsInternal
unfolding update_stats_on_idle
update_stats_on_idle_pop = update_stats_on_idle (negsuc 0)

-- The counters of the kinds of connections, as `create_connection` and `remove_connection` move them.
unfoldable pub update_stats_on_kind : ℤ → Connection → StatsInternal → StatsInternal
update_stats_on_kind delta c s =
    by_protocol c.protocol (Stats.increment_current_tcp_connections delta)
      (Stats.increment_current_udp_connections delta)
      (by_version c.ip_version (Stats.increment_current_ipv4_connections delta)
        (Stats.increment_current_ipv6_connections delta) s)

-- `PoolInner::update_stats_on_get_success`.
unfoldable pub update_stats_on_get_success : Bool → ℕ → StatsInternal → StatsInternal
update_stats_on_get_success is_reused get_duration s =
    let got =
      Stats.increment_current_active_connections (pos 1) (Stats.increment_successful_gets s) in
    Stats.record_get_time get_duration
      (if is_reused then Stats.increment_total_connections_reused got else got)

-- ===== src/Pool/Outcomes/Quiet.antt =====
-- src/pool/mod.rs: the handlers inside a call of `get_connection` that leave the counters of the gets.
use netconnpool_rust.Base.{
  ℕ, ◌≡◌, refl, ap, ◌∙◌, Bool, true, false, Option, none, some, arith, ok, err, if◌then◌else◌,
}
use mathlib.Core.Option
use netconnpool_rust.Base.Int.{ℤ, negsuc}
use netconnpool_rust.Config.{ConnectionType}
use netconnpool_rust.Connection
use netconnpool_rust.Connection.{Connection}
use netconnpool_rust.Errors.{Result}
use netconnpool_rust.IpVersion.{IpVersion}
use netconnpool_rust.Net.{Moment}
use netconnpool_rust.Protocol.{Protocol}
use netconnpool_rust.Stats
use netconnpool_rust.Stats.{StatsInternal}
use netconnpool_rust.Pool.State.{PoolInner, count, update_stats_on_idle_pop, update_stats_on_kind}
use netconnpool_rust.Pool.Remove.{
  update_stats_on_remove, close_connection, release_active, remove_connection,
}
use netconnpool_rust.Pool.Create.{
  Probe, free, choose_id, update_stats_on_create, allocate, insert_found, create_finish,
  create_admit, create_dialled, create_connection, create_check, dial,
}
use netconnpool_rust.Pool.Get.{clear_buffer}
use netconnpool_rust.Pool.Outcomes.{GetCounts, gets, get_counts}

kind-gets :
    (delta : ℤ) (c : Connection) (s : StatsInternal)
    → gets (update_stats_on_kind delta c s) ≡ gets s
unfolding update_stats_on_kind Stats.increment_current_tcp_connections
    Stats.increment_current_udp_connections Stats.increment_current_ipv4_connections
    Stats.increment_current_ipv6_connections
kind-gets delta c s = ground arith

pub idle_pop-gets :
    (c : Connection) (s : StatsInternal) → gets (update_stats_on_idle_pop c s) ≡ gets s
unfolding update_stats_on_idle_pop Stats.increment_current_tcp_idle_connections
    Stats.increment_current_udp_idle_connections Stats.increment_current_ipv4_idle_connections
    Stats.increment_current_ipv6_idle_connections Stats.increment_current_idle_connections
idle_pop-gets c s = ground arith

remove-gets : (c : Connection) (s : StatsInternal) → gets (update_stats_on_remove c s) ≡ gets s
unfolding update_stats_on_remove Stats.increment_total_connections_closed
remove-gets c s = kind-gets (negsuc 0) c (Stats.increment_total_connections_closed s)

create-gets : (c : Connection) (s : StatsInternal) → gets (update_stats_on_create c s) ≡ gets s
unfolding update_stats_on_create Stats.increment_total_connections_created
create-gets c s = kind-gets _ c (Stats.increment_total_connections_created s)

active-gets :
    (delta : ℤ) (s : StatsInternal)
    → gets (Stats.increment_current_active_connections delta s) ≡ gets s
unfolding Stats.increment_current_active_connections
active-gets delta s = refl

-- The counters of the gets through a change of the others.
pub map-gets :
    (f : StatsInternal → StatsInternal) (g : GetCounts → GetCounts)
    → ((s : StatsInternal) → gets (f s) ≡ g (gets s))
    → (x : Option StatsInternal)
    → Option.map gets (Option.map f x) ≡ Option.map g (Option.map gets x)
map-gets f g same none = refl
map-gets f g same (some s) = ap some (same s)

map-id : (x : Option GetCounts) → Option.map (λ c. c) x ≡ x
map-id none = refl
map-id (some c) = refl

module _ {Queue : Type 0} where
  pub count-quiet :
      (f : StatsInternal → StatsInternal) (p : PoolInner Queue)
      → ((s : StatsInternal) → gets (f s) ≡ gets s)
      → get_counts (count f p) ≡ get_counts p
  count-quiet f p same = map-gets f (λ c. c) same p.stats_collector ∙ map-id (get_counts p)

  close_connection-stats :
      (m : Moment) (r : ℕ) (p : PoolInner Queue)
      → (close_connection m r p).stats_collector ≡ p.stats_collector
  unfolding close_connection
  close_connection-stats m r p = ground arith

  pub close_connection-quiet :
      (m : Moment) (r : ℕ) (p : PoolInner Queue)
      → get_counts (close_connection m r p) ≡ get_counts p
  close_connection-quiet m r p = ap (Option.map gets) (close_connection-stats m r p)

  release_active-stats :
      (m : Moment) (r : ℕ) (p : PoolInner Queue)
      → (release_active m r p).stats_collector ≡ (
          if (p.store r).in_use
          then Option.map (Stats.increment_current_active_connections (negsuc 0)) p.stats_collector
          else p.stats_collector)
  unfolding release_active Connection.try_mark_idle
  release_active-stats m r p = ground arith

  release_active-quiet :
      (m : Moment) (r : ℕ) (p : PoolInner Queue) → get_counts (release_active m r p) ≡ get_counts p
  release_active-quiet m r p =
      ap (Option.map gets) (release_active-stats m r p) ∙ either (p.store r).in_use
    where
      either :
          (b : Bool)
          → Option.map gets (
              if b
              then Option.map
                  (Stats.increment_current_active_connections (negsuc 0))
                  p.stats_collector
              else p.stats_collector)
            ≡ get_counts p
      either true =
          count-quiet (Stats.increment_current_active_connections (negsuc 0)) p
            (active-gets (negsuc 0))
      either false = refl

  pub remove_connection-quiet :
      (m : Moment) (r : ℕ) (p : PoolInner Queue)
      → get_counts (remove_connection m r p) ≡ get_counts p
  unfolding remove_connection
  remove_connection-quiet m r p =
      let released = release_active m r p in
      let closed = close_connection m r released in
      count-quiet (update_stats_on_remove (closed.store r)) closed (remove-gets (closed.store r))
      ∙ close_connection-quiet m r released
      ∙ release_active-quiet m r p

  clear_buffer-stats :
      (m : Moment) (r : ℕ) (p : PoolInner Queue)
      → (clear_buffer m r p).stats_collector ≡ p.stats_collector
  unfolding clear_buffer
  clear_buffer-stats m r p = ground arith

  pub clear_buffer-quiet :
      (m : Moment) (r : ℕ) (p : PoolInner Queue) → get_counts (clear_buffer m r p) ≡ get_counts p
  clear_buffer-quiet m r p = ap (Option.map gets) (clear_buffer-stats m r p)

  insert_found-quiet :
      (m : Moment) (r : ℕ) (found : Probe) (p : PoolInner Queue)
      → get_counts (insert_found m r found p).0 ≡ get_counts p
  unfolding insert_found
  insert_found-quiet m r (free id) p =
      count-quiet (update_stats_on_create (p.store r)) p (create-gets (p.store r))
  insert_found-quiet m r _ p = close_connection-quiet m r p

  create_finish-quiet :
      (m : Moment) (r : ℕ) (p : PoolInner Queue) → get_counts (create_finish m r p).0 ≡ get_counts p
  unfolding create_finish
  create_finish-quiet m r p = ground (
    arith,
    close_connection-quiet m r p,
    insert_found-quiet m r (choose_id (p.store r).id p.all_connections) p,
  )

  create_admit-quiet :
      (m : Moment) (protocol : Option Protocol) (ip_version : Option IpVersion) (t : ConnectionType)
      (p : PoolInner Queue)
      → get_counts (create_admit m protocol ip_version t p).0 ≡ get_counts (allocate m t p)
  unfolding create_admit
  create_admit-quiet m protocol ip_version t p =
      let q = allocate m t p in
      ground (arith, close_connection-quiet m p.next_ref q, create_finish-quiet m p.next_ref q)

  create_dialled-quiet :
      (m : Moment) (protocol : Option Protocol) (ip_version : Option IpVersion)
      (t : Result ConnectionType) (p : PoolInner Queue)
      → get_counts (create_dialled m protocol ip_version t p).0 ≡ get_counts p
  unfolding create_dialled allocate
  create_dialled-quiet m protocol ip_version (ok t) p = create_admit-quiet m protocol ip_version t p
  create_dialled-quiet m protocol ip_version (err e) p = refl

  pub create_connection-quiet :
      (m : Moment) (protocol : Option Protocol) (ip_version : Option IpVersion)
      (p : PoolInner Queue)
      → get_counts (create_connection m protocol ip_version p).0 ≡ get_counts p
  unfolding create_connection
  create_connection-quiet m protocol ip_version p = by_check (create_check p)
    where
      by_check :
          (checked : Result (Unit {0}))
          → let made : PoolInner Queue × Result ℕ = elim checked [
            | err e ↦ (p, err e)
            | ok _ ↦ create_dialled m protocol ip_version (dial m protocol p.config) p
          ] in
            get_counts made.0 ≡ get_counts p
      by_check (ok _) = create_dialled-quiet m protocol ip_version (dial m protocol p.config) p
      by_check (err e) = refl

-- ===== src/Pool/Remove.antt =====
-- src/pool/mod.rs: closing a connection and taking it out of the map.
use netconnpool_rust.Base.{ℕ, none, some, if◌then◌else◌}
use netconnpool_rust.Base.Int.{negsuc}
use netconnpool_rust.Connection
use netconnpool_rust.Connection.{Connection}
use netconnpool_rust.Net.{Moment}
use netconnpool_rust.Stats
use netconnpool_rust.Stats.{StatsInternal}
use netconnpool_rust.Pool.State.{
  PoolInner, notify_one, close_conn, set_conn, count, log, remove_key, fetch_sub,
  update_stats_on_kind,
}

-- The counters at the end of `remove_connection`.
unfoldable pub update_stats_on_remove : Connection → StatsInternal → StatsInternal
update_stats_on_remove c s =
    update_stats_on_kind (negsuc 0) c (Stats.increment_total_connections_closed s)

module _ {Queue : Type 0} where
  -- `PoolInner::close_connection`; both results are thrown away.
  unfoldable pub close_connection : Moment → ℕ → PoolInner Queue → PoolInner Queue
  close_connection m r p =
      let told : PoolInner Queue = elim p.config.close_conn [
        | none ↦ p
        | some _ ↦ log (close_conn r) p
      ] in
      set_conn r (Connection.close m (p.store r)).0 told

  -- `if conn.try_mark_idle() { … }`, in `return_connection` and in `remove_connection`.
  unfoldable pub release_active : Moment → ℕ → PoolInner Queue → PoolInner Queue
  release_active m r p =
      let (c, was_in_use) = Connection.try_mark_idle m (p.store r) in
      if was_in_use
      then log notify_one (
          count (Stats.increment_current_active_connections (negsuc 0))
            (record (set_conn r c p) { active_count = fetch_sub p.active_count }))
      else set_conn r c p

  -- `PoolInner::remove_connection`.
  unfoldable pub remove_connection : Moment → ℕ → PoolInner Queue → PoolInner Queue
  remove_connection m r p =
      let closed = close_connection m r (release_active m r p) in
      let c = closed.store r in
      count (update_stats_on_remove c)
        (record closed { all_connections = remove_key c.id closed.all_connections })

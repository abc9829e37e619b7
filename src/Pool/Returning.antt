-- ===== src/Pool/Returning.antt =====
-- src/pool/mod.rs: where `return_connection` puts a connection, and what a second removal does.
use netconnpool_rust.Base.{
  ℕ, ◌+◌, ◌<◌, ◌≡◌, sym, ap, subst, ◌∙◌, true, false, some, [], ◌∷◌, ◌++◌, arith, ◌==◌,
  if◌then◌else◌,
}
use mathlib.Core.Option
use netconnpool_rust.Base.Int.{pos, negsuc}
use netconnpool_rust.Connection
use netconnpool_rust.Connection.{Connection}
use netconnpool_rust.Net.{Moment}
use netconnpool_rust.SegQueue.{SegQueue}
use netconnpool_rust.Stats
use netconnpool_rust.Stats.{StatsInternal, safe_increment_i64}
use netconnpool_rust.Pool.State.{
  PoolInner, contains_key, fetch_sub, get_bucket_index, is_connection_valid_for_borrow,
  update_stats_on_kind,
}
use netconnpool_rust.Pool.Frame.{release_active-Keeps}
use netconnpool_rust.Pool.Map.{remove_key_absent}
use netconnpool_rust.Pool.Remove.{
  release_active, close_connection, remove_connection, update_stats_on_remove,
}
use netconnpool_rust.Pool.Removal.{remove_connection-all}
use netconnpool_rust.Pool.Idle.{
  return_connection, park, push_or_remove, try_push_idle, push_idle, call_on_return,
}

update_stats_on_remove_lem :
    (c : Connection) (s : StatsInternal)
    → ((update_stats_on_remove c s).current_connections
        ≡ safe_increment_i64 s.current_connections (negsuc 0))
      × ((update_stats_on_remove c s).total_connections_closed
          ≡ safe_increment_i64 s.total_connections_closed (pos 1))
unfolding update_stats_on_remove update_stats_on_kind Stats.increment_total_connections_closed
    Stats.increment_current_tcp_connections Stats.increment_current_udp_connections
    Stats.increment_current_ipv4_connections Stats.increment_current_ipv6_connections
update_stats_on_remove_lem c s = ground arith

module _ {Queue : Type 0} where
  pub release_active-idle :
      (m : Moment) (r : ℕ) (p : PoolInner Queue)
      → (p.store r).in_use ≡ false
      → ((release_active m r p).stats_collector ≡ p.stats_collector)
        × ((release_active m r p).active_count ≡ p.active_count)
  unfolding release_active Connection.try_mark_idle
  release_active-idle m r p idle = ground arith

  pub close_connection-counts :
      (m : Moment) (r : ℕ) (p : PoolInner Queue)
      → ((close_connection m r p).stats_collector ≡ p.stats_collector)
        × ((close_connection m r p).active_count ≡ p.active_count)
  unfolding close_connection
  close_connection-counts m r p = ground arith

  remove_connection-stats :
      (m : Moment) (r : ℕ) (p : PoolInner Queue) (s : StatsInternal)
      → (p.store r).in_use ≡ false
      → p.stats_collector ≡ some s
      → (t : StatsInternal) × ((remove_connection m r p).stats_collector ≡ some t)
        × (t.current_connections ≡ safe_increment_i64 s.current_connections (negsuc 0))
        × (t.total_connections_closed ≡ safe_increment_i64 s.total_connections_closed (pos 1))
  unfolding remove_connection
  remove_connection-stats m r p s idle counted =
      let closed = close_connection m r (release_active m r p) in
      let same : closed.stats_collector ≡ some s =
        (close_connection-counts m r (release_active m r p)).0
        ∙ (release_active-idle m r p idle).0
        ∙ counted in
      let (current, total) = update_stats_on_remove_lem (closed.store r) s in
      (
        update_stats_on_remove (closed.store r) s,
        ap (Option.map (update_stats_on_remove (closed.store r))) same,
        current,
        total,
      )

  -- In a pool with statistics, removing a connection that is not in use and not in the map, as happens to one that `cleanup` has removed when
  -- `get_connection` pops it later, leaves the map as it is, and yet counts one more connection closed
  -- and one fewer current.
  pub remove_connection_again :
      (m : Moment) (r : ℕ) (p : PoolInner Queue) (s : StatsInternal)
      → r < p.next_ref
      → contains_key p.all_connections (p.store r).id ≡ false
      → (p.store r).in_use ≡ false
      → p.stats_collector ≡ some s
      → ((remove_connection m r p).all_connections ≡ p.all_connections)
        × ((t : StatsInternal) × ((remove_connection m r p).stats_collector ≡ some t)
            × (t.current_connections ≡ safe_increment_i64 s.current_connections (negsuc 0))
            × (t.total_connections_closed ≡ safe_increment_i64 s.total_connections_closed (pos 1)))
  remove_connection_again m r p s h absent idle counted = (
    remove_connection-all m r p h ∙ remove_key_absent (p.store r).id p.all_connections absent,
    remove_connection-stats m r p s idle counted,
  )

module _ {Queue : Type 0} ⦃sq : SegQueue ℕ Queue⦄ where
  -- Whether a returned connection goes to the idle queue `idx`: the pool is open, the connection is fit
  -- to lend once it is marked idle, `idx` is its bucket, and the bucket has room.
  abbrev pub IsParked : Moment → ℕ → ℕ → PoolInner Queue → Type 0
  IsParked m r idx p =
      let released = release_active m r p in
      let c = released.store r in
      (p.closed ≡ false)
      × (is_connection_valid_for_borrow m c released ≡ true)
      × (get_bucket_index c.protocol c.ip_version ≡ some idx)
      × (p.idle_counts idx < p.config.max_idle_connections)

  pub release_active-conn :
      (m : Moment) (r : ℕ) (p : PoolInner Queue) → ((release_active m r p).store r).in_use ≡ false
  unfolding release_active Connection.try_mark_idle
  release_active-conn m r p = ground arith

  pub release_active-count :
      (m : Moment) (r : ℕ) (p : PoolInner Queue)
      → (release_active m r p).active_count
        ≡ (if (p.store r).in_use then fetch_sub p.active_count else p.active_count)
  unfolding release_active Connection.try_mark_idle
  release_active-count m r p = ground arith

  release_active-all :
      (m : Moment) (r : ℕ) (p : PoolInner Queue)
      → (release_active m r p).all_connections ≡ p.all_connections
  unfolding release_active
  release_active-all m r p = ground arith

  pub call_on_return-same :
      (r : ℕ) (p : PoolInner Queue)
      → ((call_on_return r p).config ≡ p.config)
        × ((call_on_return r p).idle_connections ≡ p.idle_connections)
        × ((call_on_return r p).idle_counts ≡ p.idle_counts)
        × ((call_on_return r p).all_connections ≡ p.all_connections)
        × ((call_on_return r p).active_count ≡ p.active_count)
  unfolding call_on_return
  call_on_return-same r p = ground arith

  park-pushes :
      (m : Moment) (r idx : ℕ) (p : PoolInner Queue)
      → get_bucket_index (p.store r).protocol (p.store r).ip_version ≡ some idx
      → p.idle_counts idx < p.config.max_idle_connections
      → park m r p ≡ push_idle r idx p
  unfolding park push_or_remove try_push_idle
  park-pushes m r idx p bucket room = ground arith

  pub call_on_return-store : (r : ℕ) (p : PoolInner Queue) → (call_on_return r p).store ≡ p.store
  unfolding call_on_return
  call_on_return-store r p = ground arith

  told-room :
      (m : Moment) (r idx : ℕ) (p : PoolInner Queue)
      → p.idle_counts idx < p.config.max_idle_connections
      → (call_on_return r (release_active m r p)).idle_counts idx
        < (call_on_return r (release_active m r p)).config.max_idle_connections
  told-room m r idx p room =
      let keeps = release_active-Keeps m r p in
      let told = call_on_return-same r (release_active m r p) in
      let counts = ap (λ f. f idx) (told.2 ∙ keeps.idle_counts) in
      let limit = ap (λ c. c.max_idle_connections) (told.0 ∙ keeps.config) in
      omega (arith, counts, limit)

  return_connection-eq :
      (m : Moment) (r idx : ℕ) (p : PoolInner Queue)
      → IsParked m r idx p
      → return_connection m r p ≡ push_idle r idx (call_on_return r (release_active m r p))
  unfolding return_connection
  return_connection-eq m r idx p parked =
      let told = call_on_return r (release_active m r p) in
      let shut = (release_active-Keeps m r p).closed ∙ parked.0 in
      let bucket =
        subst (λ st. get_bucket_index (st r).protocol (st r).ip_version ≡ some idx)
          (sym (call_on_return-store r (release_active m r p))) parked.2 in
      let pushes = park-pushes m r idx told bucket (told-room m r idx p parked.3) in
      ground (arith, shut, pushes)

  pub return_connection-closed :
      (m : Moment) (r idx : ℕ) (p : PoolInner Queue)
      → IsParked m r idx p
      → (return_connection m r p).closed ≡ false
  unfolding call_on_return
  return_connection-closed m r idx p parked =
      let shut = (release_active-Keeps m r p).closed ∙ parked.0 in
      rw (return_connection-eq m r idx p parked) (ground (arith, shut))

  -- A connection that is returned to an open pool, fit to lend and with room in its bucket, is the last
  -- of the bucket's queue afterwards; the other queues and the map are as before, the connection is not
  -- in use, and the count of the active connections has fallen by one if it was.
  pub return_connection-parks :
      (m : Moment) (r idx : ℕ) (p : PoolInner Queue)
      → IsParked m r idx p
      → let q = return_connection m r p in
        (sq.to_list (q.idle_connections idx) ≡ sq.to_list (p.idle_connections idx) ++ r ∷ [])
        × (q.idle_counts idx ≡ p.idle_counts idx + 1)
        × ((j : ℕ)
            → q.idle_connections j
              ≡ (if idx == j then q.idle_connections idx else p.idle_connections j))
        × (q.all_connections ≡ p.all_connections)
        × ((q.store r).in_use ≡ false)
        × (q.active_count
            ≡ (if (p.store r).in_use then fetch_sub p.active_count else p.active_count))
  return_connection-parks m r idx p parked =
      let keeps = release_active-Keeps m r p in
      let told = call_on_return-same r (release_active m r p) in
      let same : (call_on_return r (release_active m r p)).idle_connections ≡ p.idle_connections =
        told.1 ∙ keeps.idle_connections in
      let counts = told.2 ∙ keeps.idle_counts in
      let idle = release_active-conn m r p in
      let all = release_active-all m r p in
      let active = release_active-count m r p in
      let store = call_on_return-store r (release_active m r p) in
      rw (return_connection-eq m r idx p parked) (
        ground (arith, same, sq.to_list-push (p.idle_connections idx) r),
        ground (arith, counts),
        (λ j. ground (arith, same)),
        told.3 ∙ all,
        ap (λ st. (st r).in_use) store ∙ idle,
        told.4 ∙ active,
      )

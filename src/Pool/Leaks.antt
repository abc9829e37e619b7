-- ===== src/Pool/Leaks.antt =====
-- src/pool/mod.rs: what `cleanup` does with a connection that is leaked.
use netconnpool_rust.Base.{ℕ, ◌*◌, ◌<◌, ◌≡◌, true, false, some, arith}
use netconnpool_rust.Connection
use netconnpool_rust.Connection.{Connection}
use netconnpool_rust.Connection.Timing.{is_leaked_iff}
use netconnpool_rust.Net.{Moment}
use netconnpool_rust.Pool.State.{PoolInner, remove_key}
use netconnpool_rust.Pool.Cleanup.{report_leak, is_severe_leak, inspect_in_use, inspect}
use netconnpool_rust.Pool.Remove.{remove_connection}
use netconnpool_rust.Pool.Removal.{remove_connection-all, remove_connection-conn}

is_severe_leak_lem :
    (m : Moment) (limit d : ℕ) (c : Connection)
    → 0 < limit
    → Connection.get_leaked_duration m c ≡ some d
    → limit * 2 < d
    → is_severe_leak m limit c ≡ true
unfolding is_severe_leak
is_severe_leak_lem m limit d c some_limit leaked over = ground arith

module _ {Queue : Type 0} where
  report_leak-conn :
      (r : ℕ) (p : PoolInner Queue)
      → (((report_leak r p).store r).id ≡ (p.store r).id)
        × ((report_leak r p).next_ref ≡ p.next_ref)
        × ((report_leak r p).all_connections ≡ p.all_connections)
  unfolding report_leak Connection.report_leak_once
  report_leak-conn r p = ground arith

  -- However often a leak is reported, it is counted once.
  report_leak_again :
      (r : ℕ) (p : PoolInner Queue)
      → (report_leak r (report_leak r p)).stats_collector ≡ (report_leak r p).stats_collector
  unfolding report_leak Connection.report_leak_once
  report_leak_again r p = ground arith

  inspect-severe :
      (m : Moment) (r : ℕ) (p : PoolInner Queue)
      → (p.store r).in_use ≡ true
      → Connection.is_leaked m p.config.connection_leak_timeout (p.store r) ≡ true
      → is_severe_leak m p.config.connection_leak_timeout (p.store r) ≡ true
      → inspect m r p ≡ (remove_connection m r (report_leak r p), false)
  unfolding inspect inspect_in_use
  inspect-severe m r p used leaked severe = ground arith

  -- A connection that is in use for more than twice the timeout of leaks, which is not zero, is taken out
  -- of the map by `cleanup`'s look at it, closed, and not in use any more.
  pub inspect_evicts :
      (m : Moment) (r d : ℕ) (p : PoolInner Queue)
      → r < p.next_ref
      → (p.store r).in_use ≡ true
      → 0 < p.config.connection_leak_timeout
      → Connection.get_leaked_duration m (p.store r) ≡ some d
      → p.config.connection_leak_timeout * 2 < d
      → let q = (inspect m r p).0 in
        (q.all_connections ≡ remove_key (p.store r).id p.all_connections)
        × ((q.store r).closed ≡ true)
        × ((q.store r).in_use ≡ false)
  unfolding report_leak
  inspect_evicts m r d p h used limit leaked over =
      let timeout = p.config.connection_leak_timeout in
      let is_leaked = (is_leaked_iff m timeout (p.store r)).1 (limit, (d, leaked, omega arith)) in
      let severe = is_severe_leak_lem m timeout d (p.store r) limit leaked over in
      let (id, next, all) = report_leak-conn r p in
      let removed = remove_connection-all m r (report_leak r p) (omega (arith, next)) in
      let conn = remove_connection-conn m r (report_leak r p) in
      rw (inspect-severe m r p used is_leaked severe) (rw (id, all) at removed, conn.0, conn.1)

-- ===== src/Pool/Cleanup.antt =====
-- src/pool/mod.rs: `cleanup`, which the reaper runs: eviction of leaks, health checks, expiry.
use netconnpool_rust.Base.{
  ℕ, ◌*◌, Bool, true, false, not, ◌&&◌, Option, none, some, List, [], ◌∷◌, ltb, ◌==◌, if◌then◌else◌,
}
use mathlib.Core.Option
use netconnpool_rust.Config.{HealthChecker}
use netconnpool_rust.Connection
use netconnpool_rust.Connection.{Connection}
use netconnpool_rust.Net.{Moment}
use netconnpool_rust.Stats
use netconnpool_rust.Pool.State.{PoolInner, set_conn, count, values, is_connection_valid_for_borrow}
use netconnpool_rust.Pool.Remove.{remove_connection}

-- Whether a leak is to be evicted: it is longer than twice the timeout, and the timeout is not zero.
unfoldable pub is_severe_leak : Moment → (leak_timeout : ℕ) → Connection → Bool
is_severe_leak m leak_timeout c =
    if leak_timeout == 0 then false else elim (Connection.get_leaked_duration m c) [
      | none ↦ false
      | some leaked_duration ↦ ltb (leak_timeout * 2) leaked_duration
    ]

module _ {Queue : Type 0} where
  -- `if conn.report_leak_once() { … increment_leaked_connections … }`.
  unfoldable pub report_leak : ℕ → PoolInner Queue → PoolInner Queue
  report_leak r p =
      let (c, is_first) = Connection.report_leak_once (p.store r) in
      let reported = set_conn r c p in
      if is_first then count Stats.increment_leaked_connections reported else reported

  unfoldable pub mark_unhealthy : ℕ → PoolInner Queue → PoolInner Queue
  mark_unhealthy r p = set_conn r (Connection.mark_unhealthy (p.store r)) p

  -- The branch of a connection in use.
  unfoldable pub inspect_in_use : Moment → ℕ → PoolInner Queue → PoolInner Queue
  inspect_in_use m r p =
      let c = p.store r in
      let leak_timeout = p.config.connection_leak_timeout in
      let is_expired = Connection.is_expired m p.config.max_lifetime c in
      let marked =
        if Connection.is_leaked m leak_timeout c then mark_unhealthy r (report_leak r p) else p in
      if Connection.is_leaked m leak_timeout c && is_severe_leak m leak_timeout c
      then remove_connection m r (report_leak r p)
      else if is_expired
      then mark_unhealthy r marked
      else marked

  -- The health check of an idle connection, with the checker's answer; `false` says that it failed.
  check_health : Moment → ℕ → Bool → PoolInner Queue → PoolInner Queue × Bool
  check_health m r healthy p =
      let tried = count Stats.increment_health_check_attempts p in
      let checked = set_conn r (Connection.update_health m healthy (p.store r)) in
      if healthy then (checked tried, true) else (
        checked (
            count
              (λ s. Stats.increment_unhealthy_connections (Stats.increment_health_check_failures s))
              tried),
        false,
      )

  run_checker : Moment → ℕ → Option HealthChecker → PoolInner Queue → PoolInner Queue × Bool
  unfolding check_health
  run_checker m r none p = (p, true)
  run_checker m r (some checker) p =
      if Connection.should_health_check m p.config.health_check_interval (p.store r)
      then check_health m r (checker m (p.store r).conn) p
      else (p, true)

  -- The branch of a connection that is not in use: the pool, and whether it is to be removed.
  unfoldable pub inspect_idle : Moment → ℕ → PoolInner Queue → PoolInner Queue × Bool
  unfolding run_checker
  inspect_idle m r p =
      let (checked, passed) =
        if p.config.enable_health_check
        then run_checker m r p.config.health_checker p
        else (p, true) in
      (
        checked,
        if passed then not (is_connection_valid_for_borrow m (checked.store r) checked) else true,
      )

  -- The body of the loop: the pool, and whether the connection is to be removed afterwards.
  unfoldable pub inspect : Moment → ℕ → PoolInner Queue → PoolInner Queue × Bool
  inspect m r p = if (p.store r).in_use then (inspect_in_use m r p, false) else inspect_idle m r p

  -- The loop over the connections: the pool and `to_remove`, or `none` where the pool is closed.
  unfoldable pub sweep : Moment → List ℕ → PoolInner Queue → PoolInner Queue × Option (List ℕ)
  sweep m [] p = (p, some [])
  sweep m (r ∷ refs) p = elim p.closed [
    | true ↦ (p, none)
    | false ↦
        let (q, is_bad) = inspect m r p in
        let (s, to_remove) = sweep m refs q in
        (s, if is_bad then Option.map (λ rest. r ∷ rest) to_remove else to_remove)
  ]

  unfoldable pub remove_all : Moment → List ℕ → PoolInner Queue → PoolInner Queue
  remove_all m [] p = p
  remove_all m (r ∷ refs) p = remove_all m refs (remove_connection m r p)

  unfoldable pub finish_cleanup : Moment → PoolInner Queue → Option (List ℕ) → PoolInner Queue
  finish_cleanup m p none = p
  finish_cleanup m p (some to_remove) = remove_all m to_remove p

  -- `PoolInner::cleanup`.
  unfoldable pub cleanup : Moment → PoolInner Queue → PoolInner Queue
  cleanup m p =
      let (q, to_remove) = sweep m (values p.all_connections) p in finish_cleanup m q to_remove

-- ===== src/Pool/Idle.antt =====
-- src/pool/mod.rs: putting a connection into the idle queues, when a borrower returns it and when the
-- prewarmer has made it; src/pool/pooled_connection.rs: the borrower's handle, which returns it.
use netconnpool_rust.Base.{ℕ, ◌+◌, Bool, Option, none, some, leb, update, if◌then◌else◌}
use netconnpool_rust.Connection
use netconnpool_rust.Net.{Moment}
use netconnpool_rust.SegQueue.{SegQueue}
use netconnpool_rust.Pool.State.{
  PoolInner, on_return, set_conn, count, log, get_bucket_index, is_connection_valid_for_borrow,
  update_stats_on_idle_push,
}
use netconnpool_rust.Pool.Remove.{release_active, remove_connection}

-- `PooledConnection`: it holds the connection; the pool that it names is the one at hand.
pub record PooledConnection : Type 0 where
  pub conn : ℕ

module _ {Queue : Type 0} ⦃sq : SegQueue ℕ Queue⦄ where
  -- The new counter and queue of `try_push_idle`, after its exchange has succeeded.
  abbrev pub push_idle : ℕ → ℕ → PoolInner Queue → PoolInner Queue
  push_idle r idx p = count (update_stats_on_idle_push (p.store r)) (record p {
    idle_counts = update p.idle_counts idx (p.idle_counts idx + 1);
    idle_connections = update p.idle_connections idx (sq.push (p.idle_connections idx) r);
  })

  -- `PoolInner::try_push_idle`, with no other thread between the load and the exchange.
  unfoldable pub try_push_idle : Moment → ℕ → ℕ → PoolInner Queue → PoolInner Queue
  try_push_idle m r idx p =
      if leb p.config.max_idle_connections (p.idle_counts idx)
      then remove_connection m r p
      else push_idle r idx p

  -- `if let Some(idx) = get_bucket_index(…) { try_push_idle } else { remove_connection }`.
  unfoldable pub push_or_remove : Moment → ℕ → Option ℕ → PoolInner Queue → PoolInner Queue
  push_or_remove m r (some idx) p = try_push_idle m r idx p
  push_or_remove m r none p = remove_connection m r p

  unfoldable pub park : Moment → ℕ → PoolInner Queue → PoolInner Queue
  park m r p = let c = p.store r in push_or_remove m r (get_bucket_index c.protocol c.ip_version) p

  unfoldable pub call_on_return : ℕ → PoolInner Queue → PoolInner Queue
  call_on_return r p = elim p.config.on_return [ none ↦ p | some _ ↦ log (on_return r) p ]

  -- `PoolInner::return_connection`.
  unfoldable pub return_connection : Moment → ℕ → PoolInner Queue → PoolInner Queue
  return_connection m r p =
      let released = release_active m r p in
      if released.closed
      then remove_connection m r released
      else if is_connection_valid_for_borrow m (released.store r) released
      then park m r (call_on_return r released)
      else remove_connection m r released

  -- `Drop for PooledConnection`; `lives` says whether `upgrade` of its weak reference finds the pool.
  unfoldable pub drop :
      Moment → (lives : Bool) → PooledConnection → PoolInner Queue → PoolInner Queue
  drop m lives handle p = if lives then return_connection m handle.conn p else p

  -- `PoolInner::add_idle_connection`.
  unfoldable pub add_idle_connection : Moment → ℕ → PoolInner Queue → PoolInner Queue
  add_idle_connection m r p =
      if p.closed
      then remove_connection m r p
      else park m r (set_conn r (Connection.mark_idle m (p.store r)) p)

-- ===== src/Pool/Sweeping/Reached.antt =====
-- src/pool/mod.rs: `cleanup` in a pool that `Pool::new` made.
use netconnpool_rust.Base.{ℕ, ◌≡◌, true, false, some, ok, Outcome, []}
use netconnpool_rust.Config.{Config}
use netconnpool_rust.Connection.{Connection}
use netconnpool_rust.Errors.{IoError}
use netconnpool_rust.Net.{Moment}
use netconnpool_rust.SegQueue.{SegQueue}
use netconnpool_rust.Pool.State.{PoolInner, is_connection_valid_for_borrow}
use netconnpool_rust.Pool.Map.{get_key}
use netconnpool_rust.Pool.Cleanup.{cleanup}
use netconnpool_rust.Pool.Threads.{new}
use netconnpool_rust.Pool.Owners.{World, Reach}
use netconnpool_rust.Pool.Owners.Exclusive.{new-Reach-IsOwned}
use netconnpool_rust.Pool.Sweeping.Spared.{cleanup_spares}
use netconnpool_rust.Pool.Sweeping.Swept.{cleanup_leaves}

module _ {Queue : Type 0} ⦃sq : SegQueue ℕ Queue⦄ where
  -- In every open state that a new pool comes to by whole passes of the handlers, where no borrower calls
  -- `update_id`: a connection that `cleanup` leaves in the map is in use, or may be lent at that time,
  -- that is, it is open, healthy, and neither beyond its lifetime nor beyond its idle time.
  pub new-Reach-cleanup :
      (store : ℕ → Connection) (next_ref generator : ℕ) (spawned : Outcome (Unit {0}) IoError)
      (config : Config) {p : PoolInner Queue} {w : World Queue} (m : Moment) (k r : ℕ)
      → new store next_ref generator spawned config ≡ ok p
      → Reach (record { pool = p; held = [] }) w
      → w.pool.closed ≡ false
      → get_key (cleanup m w.pool).all_connections k ≡ some r
      → ((cleanup m w.pool).store r).in_use ≡ false
      → is_connection_valid_for_borrow m ((cleanup m w.pool).store r) (cleanup m w.pool) ≡ true
  new-Reach-cleanup store next_ref generator spawned config {w = w} m k r made_it reached opened =
      cleanup_leaves m w.pool k r opened
        (new-Reach-IsOwned store next_ref generator spawned config made_it reached).indexed

  -- In every open state that a new pool without health checks comes to by whole passes of the handlers,
  -- where no borrower calls `update_id`: `cleanup` leaves an idle connection of the map that may be lent
  -- at that time in the map, and as it is.
  pub new-Reach-cleanup-spares :
      (store : ℕ → Connection) (next_ref generator : ℕ) (spawned : Outcome (Unit {0}) IoError)
      (config : Config) {p : PoolInner Queue} {w : World Queue} (m : Moment) (k r : ℕ)
      → new store next_ref generator spawned config ≡ ok p
      → Reach (record { pool = p; held = [] }) w
      → w.pool.closed ≡ false
      → w.pool.config.enable_health_check ≡ false
      → get_key w.pool.all_connections k ≡ some r
      → (w.pool.store r).in_use ≡ false
      → is_connection_valid_for_borrow m (w.pool.store r) w.pool ≡ true
      → (get_key (cleanup m w.pool).all_connections k ≡ some r)
        × ((cleanup m w.pool).store r ≡ w.pool.store r)
  new-Reach-cleanup-spares store next_ref generator spawned config {w = w} m k r made_it reached
        opened =
      cleanup_spares k r m w.pool opened
        (new-Reach-IsOwned store next_ref generator spawned config made_it reached).indexed

-- ===== src/Pool/Sweeping/Tests.antt =====
-- src/pool/mod.rs: a cleanup of a new pool in which one connection is parked.
use netconnpool_rust.Base.{ℕ, ◌≡◌, refl, true, false, none, some, List, [], ok}
use netconnpool_rust.Config.{Config, tcp, apply_defaults, validate}
use netconnpool_rust.Connection
use netconnpool_rust.SegQueue.{list_queue}
use netconnpool_rust.Samples.{moment, socket, config, store, fresh_pool, new_fresh}
use netconnpool_rust.Pool.State.{PoolInner, is_connection_valid_for_borrow}
use netconnpool_rust.Pool.Map.{get_key}
use netconnpool_rust.Pool.Create.{
  create_admit, create_finish, insert_found, allocate, choose_id, is_wrong_protocol,
  is_wrong_version,
}
use netconnpool_rust.Pool.Cleanup.{
  cleanup, finish_cleanup, remove_all, sweep, inspect, inspect_idle,
}
use netconnpool_rust.Pool.Threads.{init, new}
use netconnpool_rust.Pool.Owners.{World, made, here, next, admits}
use netconnpool_rust.Pool.Sweeping.Reached.{new-Reach-cleanup, new-Reach-cleanup-spares}

abbrev admitted : World (List ℕ)
admitted = made (create_admit moment none none (tcp socket) fresh_pool) []

admitted_open : admitted.pool.closed ≡ false
unfolding create_admit create_finish insert_found choose_id allocate init is_wrong_protocol
    is_wrong_version apply_defaults Connection.new
admitted_open = refl

admitted_swept :
    let q = cleanup moment admitted.pool in
    (get_key q.all_connections 1 ≡ some 0) × ((q.store 0).in_use ≡ false)
unfolding create_admit create_finish insert_found choose_id allocate init is_wrong_protocol
    is_wrong_version apply_defaults Connection.new Connection.update_id cleanup finish_cleanup
    remove_all sweep inspect inspect_idle is_connection_valid_for_borrow Connection.is_expired
    Connection.is_idle_expired Connection.idle_time
admitted_swept = (refl, refl)

new-Reach-cleanup_example :
    let q = cleanup moment admitted.pool in
    is_connection_valid_for_borrow moment (q.store 0) q ≡ true
new-Reach-cleanup_example =
    new-Reach-cleanup store 0 0 (ok tt) config {w = admitted} moment 1 0 new_fresh
      (next here (admits moment none none (tcp socket))) admitted_open admitted_swept.0
      admitted_swept.1

abbrev unchecked : Config
unchecked = record config { enable_health_check = false }

abbrev unchecked_pool : PoolInner (List ℕ)
unchecked_pool = init store 0 0 (apply_defaults unchecked)

new_unchecked : new store 0 0 (ok tt) unchecked ≡ ok unchecked_pool
unfolding new validate apply_defaults
new_unchecked = refl

abbrev parked : World (List ℕ)
parked = made (create_admit moment none none (tcp socket) unchecked_pool) []

parked_idle :
    (parked.pool.closed ≡ false)
    × (parked.pool.config.enable_health_check ≡ false)
    × (get_key parked.pool.all_connections 1 ≡ some 0)
    × ((parked.pool.store 0).in_use ≡ false)
    × (is_connection_valid_for_borrow moment (parked.pool.store 0) parked.pool ≡ true)
unfolding create_admit create_finish insert_found choose_id allocate init is_wrong_protocol
    is_wrong_version apply_defaults Connection.new Connection.update_id
    is_connection_valid_for_borrow Connection.is_expired Connection.is_idle_expired
    Connection.idle_time
parked_idle = (refl, refl, refl, refl, refl)

new-Reach-cleanup-spares_example :
    let q = cleanup moment parked.pool in
    (get_key q.all_connections 1 ≡ some 0) × (q.store 0 ≡ parked.pool.store 0)
new-Reach-cleanup-spares_example =
    new-Reach-cleanup-spares store 0 0 (ok tt) unchecked {w = parked} moment 1 0 new_unchecked
      (next here (admits moment none none (tcp socket))) parked_idle.0 parked_idle.1 parked_idle.2
      parked_idle.3 parked_idle.4

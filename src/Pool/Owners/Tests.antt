-- ===== src/Pool/Owners/Tests.antt =====
-- src/pool/mod.rs: a new pool, from which a first connection is got.
use netconnpool_rust.Base.{ℕ, ◌+◌, ◌≤◌, ◌≡◌, refl, none, some, List, [], arith, times, ok}
use netconnpool_rust.Config.{apply_defaults, tcp}
use netconnpool_rust.Connection
use netconnpool_rust.Net.{set_nonblocking}
use netconnpool_rust.Protocol
use netconnpool_rust.SegQueue.{list_queue}
use netconnpool_rust.Samples.{moment, socket, config, store, fresh_pool, new_fresh}
use netconnpool_rust.Pool.State.{get_target_buckets}
use netconnpool_rust.Pool.Create.{
  create_connection, create_check, create_dialled, create_admit, create_finish, insert_found,
  allocate, dial, choose_id, is_wrong_protocol, is_wrong_version,
}
use netconnpool_rust.Pool.Get.{done, get_round, borrow_idle, after_borrow, after_create, lend}
use netconnpool_rust.Pool.Idle.{PooledConnection}
use netconnpool_rust.Pool.Close.{close_rest}
use netconnpool_rust.Pool.Threads.{init}
use netconnpool_rust.Pool.Matching.{IsServed}
use netconnpool_rust.Pool.Owners.{World, handed, here, next, gets}
use netconnpool_rust.Pool.Owners.Exclusive.{
  new-Reach-once, new-Reach-close_rest, new-Reach-IsServed,
}
use netconnpool_rust.Pool.Progress.{get_round-succeeds}
use netconnpool_rust.Pool.Queued.{queued}

abbrev first_get : World (List ℕ)
first_get = handed (get_round moment 0 10 (some Protocol.tcp) none fresh_pool) []

new-Reach-once_example : times 0 first_get.held + queued 0 first_get.pool ≤ 1
new-Reach-once_example =
    new-Reach-once store 0 0 (ok tt) config {w = first_get} 0 new_fresh
      (next here (gets moment 0 10 (some Protocol.tcp) none))

new-Reach-close_rest_example : (close_rest moment first_get.pool).all_connections ≡ []
new-Reach-close_rest_example =
    new-Reach-close_rest store 0 0 (ok tt) config {w = first_get} moment new_fresh
      (next here (gets moment 0 10 (some Protocol.tcp) none))

fresh_dial : dial moment (some Protocol.tcp) (apply_defaults config) ≡ ok (tcp socket)
unfolding dial set_nonblocking apply_defaults
fresh_dial = refl

get_round_fresh :
    (get_round moment 0 10 (some Protocol.tcp) none fresh_pool).1 ≡ done (ok (record { conn = 0 }))
unfolding get_round borrow_idle after_borrow after_create lend get_target_buckets create_connection
    create_check create_dialled create_admit create_finish insert_found allocate dial
    is_wrong_protocol is_wrong_version choose_id Connection.new Connection.update_id set_nonblocking
    init apply_defaults
get_round_fresh = refl

new-Reach-IsServed_example :
    IsServed
      (some Protocol.tcp)
      none
      ((get_round moment 0 10 (some Protocol.tcp) none fresh_pool).0.store 0)
new-Reach-IsServed_example =
    new-Reach-IsServed store 0 0 (ok tt) config {w = record { pool = fresh_pool; held = [] }} moment
      0 10 (some Protocol.tcp) none (record { conn = 0 }) new_fresh here get_round_fresh

get_round-succeeds_example :
    (h : PooledConnection) × ((get_round moment 0 10 (some Protocol.tcp) none fresh_pool).1
      ≡ done (ok h))
unfolding init apply_defaults is_wrong_protocol is_wrong_version Connection.new
get_round-succeeds_example =
    get_round-succeeds moment 0 10 (some Protocol.tcp) none fresh_pool (tcp socket) refl
      (omega arith) fresh_dial (refl, refl) refl (omega arith)

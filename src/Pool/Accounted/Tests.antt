-- ===== src/Pool/Accounted/Tests.antt =====
-- src/pool/mod.rs: a new pool that has made one connection after another pool made one.
use netconnpool_rust.Base.{ℕ, ◌+◌, ◌≡◌, refl, true, some, none, List, [], arith, ◌⊎◌, ok, times}
use netconnpool_rust.Config.{apply_defaults, validate, tcp}
use netconnpool_rust.Connection
use netconnpool_rust.Protocol
use netconnpool_rust.SegQueue.{list_queue}
use netconnpool_rust.Samples.{moment, socket, config, store}
use netconnpool_rust.Pool.State.{PoolInner}
use netconnpool_rust.Pool.Accounted.Reached.{new-Reach-accounted, new-Reach-close_rest-closed}
use netconnpool_rust.Pool.Close.{close_rest}
use netconnpool_rust.Pool.Create.{
  create_admit, create_finish, insert_found, allocate, choose_id, is_wrong_protocol,
  is_wrong_version,
}
use netconnpool_rust.Pool.Map.{get_key}
use netconnpool_rust.Pool.Owners.{
  World, Reach, made, here, next, admits, makes_elsewhere, elsewhere,
}
use netconnpool_rust.Pool.Threads.{init, new}

-- The generator has given the ids up to 7.
abbrev later_pool : PoolInner (List ℕ)
later_pool = init store 0 7 (apply_defaults config)

new_later : new store 0 7 (ok tt) config ≡ ok later_pool
unfolding new validate apply_defaults
new_later = refl

-- Another pool makes a connection, and this one makes the next.
abbrev elsewhere_made : World (List ℕ)
elsewhere_made = record { pool = allocate moment (tcp socket) later_pool; held = [] }

abbrev both_made : World (List ℕ)
both_made = made (create_admit moment (some Protocol.tcp) none (tcp socket) elsewhere_made.pool) []

abbrev reach_both : Reach (record { pool = later_pool; held = [] }) both_made
reach_both =
    next (next here (makes_elsewhere moment (tcp socket)))
      (admits moment (some Protocol.tcp) none (tcp socket))

both_made_next_ref : both_made.pool.next_ref ≡ 2
unfolding create_admit create_finish insert_found allocate choose_id is_wrong_protocol
    is_wrong_version Connection.new init apply_defaults
both_made_next_ref = refl

made_elsewhere : times 1 (elsewhere reach_both) ≡ 0
unfolding init apply_defaults
made_elsewhere = refl

new-Reach-accounted_example :
    let c = both_made.pool.store 1 in
    (c.id + 0 ≡ 7 + 1 + 1)
    × (times 1 (elsewhere reach_both) ≡ 0
        → (c.closed ≡ true) ⊎ (get_key both_made.pool.all_connections c.id ≡ some 1))
new-Reach-accounted_example =
    new-Reach-accounted store 0 7 (ok tt) config {w = both_made} 1 (λ j. omega arith) new_later
      reach_both (omega (arith, both_made_next_ref)) (omega arith)
      (omega (arith, both_made_next_ref))

new-Reach-close_rest-closed_example : ((close_rest moment both_made.pool).store 1).closed ≡ true
new-Reach-close_rest-closed_example =
    new-Reach-close_rest-closed store 0 7 (ok tt) config {w = both_made} moment 1 (λ j. omega arith)
      new_later reach_both (omega (arith, both_made_next_ref)) (omega arith)
      (omega (arith, both_made_next_ref)) made_elsewhere

-- ===== src/Pool/Lending/Tests.antt =====
-- src/pool/mod.rs: a new pool, from which a connection is got, with the counter of the active ones.
use netconnpool_rust.Base.{arith, ℕ, ◌%◌, ◌^◌, ◌<◌, ◌≡◌, refl, true, none, some, List, times, ok}
use netconnpool_rust.Config.{tcp}
use netconnpool_rust.Connection
use netconnpool_rust.Connection.{Connection}
use netconnpool_rust.Connection.Evolution.{close-Evolves}
use netconnpool_rust.Net.{Moment}
use netconnpool_rust.Protocol
use netconnpool_rust.SegQueue.{list_queue}
use netconnpool_rust.Samples.{moment, socket, config, store, fresh_pool, new_fresh}
use netconnpool_rust.Pool.Create.{allocate}
use netconnpool_rust.Pool.State.{set_conn}
use netconnpool_rust.Pool.Get.{get_round}
use netconnpool_rust.Pool.Settles.{in_use_count}
use netconnpool_rust.Pool.Lending.{
  Lending, fresh, got, with_pool, gets, uses, makes_elsewhere, here, next,
}
use netconnpool_rust.Pool.Lending.Counting.{new-Reach-active_count}

abbrev first_get : Lending (List ℕ)
first_get = got (fresh fresh_pool) (get_round moment 0 10 (some Protocol.tcp) none fresh_pool)

-- The borrower closes its connection, and another pool makes one.
abbrev shut : Lending (List ℕ)
shut =
    with_pool first_get
      (set_conn 0 (Connection.close moment (first_get.world.pool.store 0)).0 first_get.world.pool)

abbrev last : Lending (List ℕ)
last = with_pool shut (allocate moment (tcp socket) shut.world.pool)

close-in_use : (m : Moment) (c : Connection) → (Connection.close m c).0.in_use ≡ c.in_use
unfolding Connection.close
close-in_use m c = ground arith

new-Reach-active_count_example :
    let q = last.world.pool in
    (q.active_count ≡ in_use_count q.next_ref q.store % 2 ^ 64)
    × ((s : ℕ) → (q.store s).in_use ≡ true → 0 < times s last.world.held)
new-Reach-active_count_example =
    new-Reach-active_count store 0 0 (ok tt) config {u = last} new_fresh (λ s. refl)
      (next
        (next (next here (gets moment 0 10 (some Protocol.tcp) none)) (
          uses 0 _ (close-Evolves moment (first_get.world.pool.store 0))
            (close-in_use moment (first_get.world.pool.store 0))))
        (makes_elsewhere moment (tcp socket)))

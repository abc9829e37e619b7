-- ===== src/Pool/Reuse/Tests.antt =====
-- src/pool/mod.rs: an idle connection that is taken, and one that is returned and taken again.
use netconnpool_rust.Base.{ℕ, ◌≡◌, refl, true, none, some, List, [], ◌∷◌, arith, ok}
use netconnpool_rust.Connection
use netconnpool_rust.SegQueue.{list_queue}
use netconnpool_rust.Samples.{moment, config, pool, lent_pool}
use netconnpool_rust.Pool.State.{
  PoolInner, get_bucket_index, is_connection_valid_for_borrow, get_target_buckets,
}
use netconnpool_rust.Pool.Remove.{release_active}
use netconnpool_rust.Pool.Buckets.{has_elem}
use netconnpool_rust.Pool.Get.{Turn, get_round, get_loop, done}
use netconnpool_rust.Pool.Idle.{
  return_connection, park, push_or_remove, try_push_idle, call_on_return,
}
use netconnpool_rust.Pool.Tests.{lent_IsParked}
use netconnpool_rust.Pool.Reuse.{IsTaken, oldest}
use netconnpool_rust.Pool.Reuse.Oldest.{get_round-oldest}
use netconnpool_rust.Pool.Reuse.Back.{return-get_round}
use netconnpool_rust.Pool.Reuse.Handoff.{get_loop-handoff}
use netconnpool_rust.Pool.Returning.{IsParked}

pool_oldest : oldest (get_target_buckets none none) pool ≡ some (0, 0)
unfolding oldest get_target_buckets
pool_oldest = refl

pool_fit : is_connection_valid_for_borrow moment (pool.store 0) pool ≡ true
unfolding is_connection_valid_for_borrow Connection.is_expired Connection.is_idle_expired
pool_fit = refl

get_round-oldest_example :
    let after = get_round moment 0 10 none none pool in
    (after.1 ≡ done (ok (record { conn = 0 }))) × IsTaken 0 0 pool after.0
get_round-oldest_example =
    get_round-oldest moment 0 10 none none 0 0 pool refl (omega arith) pool_oldest pool_fit

returned_fit :
    let q = return_connection moment 0 lent_pool in
    is_connection_valid_for_borrow moment (q.store 0) q ≡ true
unfolding return_connection release_active park push_or_remove try_push_idle call_on_return
    Connection.try_mark_idle is_connection_valid_for_borrow Connection.is_expired
    Connection.is_idle_expired get_bucket_index
returned_fit = refl

looked_at : has_elem 0 (get_target_buckets none none) ≡ true
unfolding get_target_buckets
looked_at = refl

return-get_round_example :
    let q = return_connection moment 0 lent_pool in
    let (s, round) = get_round moment 0 10 none none q in
    (round ≡ done (ok (record { conn = 0 })))
    × ((s.store 0).in_use ≡ true)
    × (s.all_connections ≡ lent_pool.all_connections)
    × (s.next_ref ≡ q.next_ref)
    × ((j : ℕ) → s.idle_connections j ≡ [])
return-get_round_example =
    return-get_round moment moment 0 10 none none 0 0 lent_pool lent_IsParked (λ j looked. refl)
      looked_at (omega arith) returned_fit

-- A full pool whose one connection is lent, and a call that waits while it is returned.
abbrev full_pool : PoolInner (List ℕ)
full_pool = record lent_pool { config = record config { max_connections = 1 } }

full-IsParked : IsParked moment 0 0 full_pool
unfolding release_active Connection.try_mark_idle is_connection_valid_for_borrow
    Connection.is_expired Connection.is_idle_expired get_bucket_index
full-IsParked = (refl, refl, refl, omega arith)

full_fit :
    let q = return_connection moment 0 full_pool in
    is_connection_valid_for_borrow moment (q.store 0) q ≡ true
unfolding return_connection release_active park push_or_remove try_push_idle call_on_return
    Connection.try_mark_idle is_connection_valid_for_borrow Connection.is_expired
    Connection.is_idle_expired get_bucket_index
full_fit = refl

abbrev quiet : Turn (List ℕ)
quiet = record { others = λ q. q; moment = moment }

abbrev returned : Turn (List ℕ)
returned = record { others = return_connection moment 0; moment = moment }

get_loop-handoff_example :
    let (q, result) = get_loop 0 10 none none (quiet ∷ returned ∷ []) full_pool in
    (result ≡ some (ok (record { conn = 0 })))
    × ((q.store 0).in_use ≡ true)
    × (q.all_connections ≡ full_pool.all_connections)
get_loop-handoff_example =
    get_loop-handoff moment quiet returned [] 0 10 none none 0 0 full_pool refl refl refl
      (λ j looked. refl) looked_at full-IsParked full_fit (omega arith) (omega arith) (omega arith)

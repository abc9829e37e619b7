-- ===== src/Pool/Tests.antt =====
-- src/pool/mod.rs: its handlers on a pool with one connection.
use netconnpool_rust.Base.{
  ℕ, ◌≡◌, ◌≢◌, refl, true, false, not, ◌&&◌, none, some, List, [], ◌∷◌, arith, ok, err, ◌==◌,
  if◌then◌else◌,
}
use netconnpool_rust.Base.Int.{pos, negsuc}
use netconnpool_rust.Connection
use netconnpool_rust.Connection.{Connection}
use netconnpool_rust.Errors.{get_connection_timeout}
use netconnpool_rust.IpVersion
use netconnpool_rust.Net.{set_nonblocking}
use netconnpool_rust.Protocol
use netconnpool_rust.SegQueue.{list_queue}
use netconnpool_rust.Stats
use netconnpool_rust.Stats.{StatsInternal, increment_total_get_requests, safe_increment_i64}
use netconnpool_rust.Samples.{store, fresh_pool, new_fresh, moment, config, pool, lent_pool}
use netconnpool_rust.Pool.State.{
  PoolInner, fetch_sub, get_bucket_index, get_target_buckets, is_connection_valid_for_borrow,
}
use netconnpool_rust.Pool.Remove.{release_active, remove_connection}
use netconnpool_rust.Pool.Idle.{return_connection}
use netconnpool_rust.Pool.Create.{
  create_connection, create_check, create_dialled, create_admit, create_finish, insert_found,
  allocate, dial, choose_id, is_wrong_protocol, is_wrong_version,
}
use netconnpool_rust.Pool.Get.{
  Turn, done, get_round, get_connection, try_get, borrow_idle, after_borrow, take_idle,
  clear_buffer, clear_socket, lend,
}
use netconnpool_rust.Pool.Close.{close_idle}
use netconnpool_rust.Pool.Drained.{close_idle_empties}
use netconnpool_rust.Pool.System.{here, next, gets}
use netconnpool_rust.Pool.Bounds.{IsBounded, new-Reach-IsBounded}
use netconnpool_rust.Pool.Insertion.{IsInserted, create_connection-IsInserted}
use netconnpool_rust.Pool.Liveness.{get_connection_returns, try_get_fails}
use netconnpool_rust.Pool.Buckets.{has_elem, get_target_buckets_lem}
use netconnpool_rust.Pool.Fitness.{IsFit, get_round-IsFit}
use netconnpool_rust.Pool.Returning.{remove_connection_again, IsParked, return_connection-parks}

new-Reach-IsBounded_example : IsBounded (get_round moment 0 10 none none fresh_pool).0
new-Reach-IsBounded_example =
    new-Reach-IsBounded store 0 0 (ok tt) config (omega arith) new_fresh
      (next here (gets moment 0 10 none none))

abbrev late : Turn (List ℕ)
late = record { others = λ p. p; moment = record moment { instant = 20 } }

get_connection_returns_example : (get_connection 0 none none 10 (late ∷ []) pool).1 ≢ none
get_connection_returns_example = get_connection_returns 0 10 none none [] late [] pool (omega arith)

try_get_fails_example :
    let (q, r) = try_get 0 (late ∷ []) pool in
    (r ≡ some (err (get_connection_timeout 0 20)))
    × (q.idle_connections ≡ pool.idle_connections)
    × (q.active_count ≡ 0)
try_get_fails_example = try_get_fails 0 late [] pool (omega arith) refl refl

get_bucket_index_tcp : get_bucket_index Protocol.tcp IpVersion.ipv6 ≡ some 1
unfolding get_bucket_index
get_bucket_index_tcp = refl

get_target_buckets_lem_example : has_elem 1 (get_target_buckets (some Protocol.tcp) none) ≡ (
    not (is_wrong_protocol (some Protocol.tcp) Protocol.tcp)
    && not (is_wrong_version none IpVersion.ipv6))
get_target_buckets_lem_example =
    get_target_buckets_lem (some Protocol.tcp) none Protocol.tcp IpVersion.ipv6 1
      get_bucket_index_tcp

get_round_idle : (get_round moment 0 10 none none pool).1 ≡ done (ok (record { conn = 0 }))
unfolding get_round borrow_idle after_borrow take_idle clear_buffer clear_socket lend
    get_target_buckets is_connection_valid_for_borrow Connection.is_expired
    Connection.is_idle_expired
get_round_idle = refl

get_round-IsFit_example :
    IsFit moment config.max_lifetime ((get_round moment 0 10 none none pool).0.store 0)
get_round-IsFit_example =
    get_round-IsFit moment 0 10 none none pool (record { conn = 0 }) get_round_idle

abbrev emptied : PoolInner (List ℕ)
emptied = record pool { all_connections = [] }

remove_connection_again_example :
    ((remove_connection moment 0 emptied).all_connections ≡ [])
    × ((t : StatsInternal) × ((remove_connection moment 0 emptied).stats_collector ≡ some t)
        × (t.current_connections ≡ safe_increment_i64 Stats.new.current_connections (negsuc 0))
        × (t.total_connections_closed
            ≡ safe_increment_i64 Stats.new.total_connections_closed (pos 1)))
remove_connection_again_example =
    remove_connection_again moment 0 emptied Stats.new (omega arith) refl refl refl

pub lent_IsParked : IsParked moment 0 0 lent_pool
unfolding release_active Connection.try_mark_idle is_connection_valid_for_borrow
    Connection.is_expired Connection.is_idle_expired get_bucket_index
lent_IsParked = (refl, refl, refl, omega arith)

return_connection-parks_example :
    let q = return_connection moment 0 lent_pool in
    (q.idle_connections 0 ≡ 0 ∷ [])
    × (q.idle_counts 0 ≡ 1)
    × ((j : ℕ) → q.idle_connections j ≡ (if 0 == j then q.idle_connections 0 else []))
    × (q.all_connections ≡ lent_pool.all_connections)
    × ((q.store 0).in_use ≡ false)
    × (q.active_count ≡ fetch_sub 1)
return_connection-parks_example = return_connection-parks moment 0 0 lent_pool lent_IsParked

close_idle_empties_example :
    ((close_idle moment pool).closed ≡ true)
    × ((close_idle moment pool).idle_connections 0 ≡ [])
    × ((close_idle moment pool).idle_counts 0 ≡ 0)
close_idle_empties_example = close_idle_empties moment pool 0 (omega arith)

abbrev empty_pool : PoolInner (List ℕ)
empty_pool = record emptied { idle_connections = λ i. [] }

create_connection_tcp : (create_connection moment (some Protocol.tcp) none empty_pool).1 ≡ ok 1
unfolding create_connection create_check create_dialled create_admit create_finish insert_found
    allocate dial is_wrong_protocol is_wrong_version choose_id Connection.new Connection.update_id
    set_nonblocking
create_connection_tcp = refl

create_connection-IsInserted_example :
    IsInserted 1 empty_pool (create_connection moment (some Protocol.tcp) none empty_pool).0
create_connection-IsInserted_example =
    create_connection-IsInserted moment (some Protocol.tcp) none empty_pool 1 create_connection_tcp

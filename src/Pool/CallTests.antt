-- ===== src/Pool/CallTests.antt =====
-- src/pool/mod.rs: whole calls and threads, on sample data.
use netconnpool_rust.Base.{
  arith, ◌+◌, ℕ, ◌≡◌, refl, inr, true, false, none, some, List, [], ◌∷◌, ◌++◌, ◌⊎◌, if◌then◌else◌,
}
use netconnpool_rust.Connection
use netconnpool_rust.Pool.State.{PoolInner, set_conn, fetch_sub, get_bucket_index}
use netconnpool_rust.Pool.Cleanup.{cleanup}
use netconnpool_rust.Pool.Get.{Turn}
use netconnpool_rust.Pool.Idle.{drop}
use netconnpool_rust.Pool.Close.{close}
use netconnpool_rust.Pool.Threads.{Wait, reaper}
use netconnpool_rust.Pool.Dropping.{drop_lem}
use netconnpool_rust.Pool.Map.{get_key}
use netconnpool_rust.Pool.Liveness.{reaper_ends, close_returns}
use netconnpool_rust.SegQueue.{list_queue}
use netconnpool_rust.Samples.{moment, pool, lent_pool}

-- In each pause, another thread cleans up.
abbrev turn : Turn (List ℕ)
turn = record { others = cleanup moment; moment = moment }

abbrev wait : Wait (List ℕ)
wait = record {
  begins = true;
  others = cleanup moment;
  moment = moment;
  timed_out = true;
  lives = true;
}

-- The borrower has marked its connection idle.
abbrev marked_pool : PoolInner (List ℕ)
marked_pool = set_conn 0 (Connection.mark_idle moment (lent_pool.store 0)) lent_pool

drop_lem_example :
    let c = marked_pool.store 0 in
    let q = drop moment true (record { conn = 0 }) marked_pool in
    (q.active_count ≡ (if c.in_use then fetch_sub 1 else 1))
    × ((q.store 0).in_use ≡ false)
    × ((((q.store 0).closed ≡ true) × (get_key q.all_connections c.id ≡ none))
        ⊎ ((idx : ℕ) × (get_bucket_index c.protocol c.ip_version ≡ some idx)
            × (list_queue.to_list (q.idle_connections idx) ≡ [] ++ 0 ∷ [])))
drop_lem_example = drop_lem moment (record { conn = 0 }) marked_pool (omega arith)

-- Its drop leaves the count of the active connections where it was.
dropped_after_mark :
    (drop moment true (record { conn = 0 }) marked_pool).active_count ≡ lent_pool.active_count
unfolding Connection.mark_idle
dropped_after_mark = (drop_lem moment (record { conn = 0 }) marked_pool (omega arith)).0

-- The pool is closed while the reaper waits.
abbrev closing : Wait (List ℕ)
closing = record wait { others = λ q. record q { closed = true } }

reaper_ends_example : (reaper (wait ∷ closing ∷ []) pool).1 ≡ true
reaper_ends_example = reaper_ends (wait ∷ []) closing [] pool (inr (λ q. refl))

-- The clock is at the deadline of `close`.
abbrev at_deadline : Turn (List ℕ)
at_deadline = record {
  others = cleanup moment;
  moment = record moment { instant = moment.instant + pool.config.connection_leak_timeout };
}

close_returns_example :
    close moment moment (turn ∷ at_deadline ∷ turn ∷ []) pool ≡ close moment moment (turn ∷ []) pool
close_returns_example =
    close_returns moment moment (turn ∷ []) at_deadline (turn ∷ []) pool (omega arith)

-- ===== src/Pool/LeakTests.antt =====
-- src/pool/mod.rs, src/connection.rs: leaks, and the ids of new connections, on sample data.
use netconnpool_rust.Base.{◌≡◌, refl, true, false, some, [], arith}
use netconnpool_rust.Connection
use netconnpool_rust.Net.{Moment}
use netconnpool_rust.Pool.Cleanup.{inspect}
use netconnpool_rust.Pool.Leaks.{inspect_evicts}
use netconnpool_rust.Samples.{moment, lent_pool}

-- A time at which the lent connection has been in use for a thousand seconds.
abbrev much_later : Moment
much_later = record moment { unix = 1_000_000_000_003 }

leaked_for : Connection.get_leaked_duration much_later (lent_pool.store 0) ≡ some 1_000_000_000_000
unfolding Connection.get_leaked_duration Connection.now_nanos
leaked_for = refl

inspect_evicts_example :
    let q = (inspect much_later 0 lent_pool).0 in
    (q.all_connections ≡ []) × ((q.store 0).closed ≡ true) × ((q.store 0).in_use ≡ false)
inspect_evicts_example =
    inspect_evicts much_later 0 1_000_000_000_000 lent_pool (omega arith) refl (omega arith)
      leaked_for (omega arith)

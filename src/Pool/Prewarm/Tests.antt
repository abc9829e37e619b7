-- ===== src/Pool/Prewarm/Tests.antt =====
-- src/pool/mod.rs: a prewarm with a limit of idle connections below the number that it is to make.
use netconnpool_rust.Base.{ℕ, true, List, []}
use netconnpool_rust.Config.{Config}
use netconnpool_rust.Connection
use netconnpool_rust.SegQueue.{list_queue}
use netconnpool_rust.Samples.{moment, config, pool}
use netconnpool_rust.Pool.State.{PoolInner}
use netconnpool_rust.Pool.Threads.{Upgrade}

abbrev eager : Config
eager = record config { min_connections = 2; max_connections = 5 }

abbrev cold : PoolInner (List ℕ)
cold = record pool {
  config = eager;
  next_ref = 0;
  all_connections = [];
  idle_connections = λ i. [];
  idle_counts = λ i. 0;
}

abbrev turn : Upgrade (List ℕ)
turn = record { others = λ q. q; moment = moment; lives = true }

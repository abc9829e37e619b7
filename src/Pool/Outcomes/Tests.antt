-- ===== src/Pool/Outcomes/Tests.antt =====
-- src/pool/mod.rs: the counters of the gets of a sample pool.
use netconnpool_rust.Base.{ℕ, ◌≡◌, refl, none, List, [], ◌∷◌}
use mathlib.Core.Option
use netconnpool_rust.SegQueue.{list_queue}
use netconnpool_rust.Samples.{moment, pool}
use netconnpool_rust.Pool.State.{log, notify_one}
use netconnpool_rust.Pool.Get.{Turn, get_connection}
use netconnpool_rust.Pool.Outcomes.{get_counts, requested, settle}
use netconnpool_rust.Pool.Outcomes.Books.{get_connection-counts}

-- Another thread wakes a waiter, and counts nothing.
abbrev turn : Turn (List ℕ)
turn = record { others = log notify_one; moment = moment }

get_connection-counts_example :
    let after = get_connection 0 none none 10 (turn ∷ []) pool in
    get_counts after.0 ≡ Option.map (settle after.1) (Option.map requested (get_counts pool))
get_connection-counts_example =
    get_connection-counts 0 10 none none (turn ∷ []) pool ((λ q. refl), tt) refl

-- ===== src/Stats/Tests.antt =====
-- src/stats.rs: the counters on small inputs.
use netconnpool_rust.Base.{◌≡◌, ◌⊎◌, List, [], ◌∷◌, arith}
use netconnpool_rust.Base.Int.{◌+ℤ◌, ◌≤ℤ◌, pos, IsI64, i64_max, i64_min}
use netconnpool_rust.Stats.{new, safe_increment_i64}
use netconnpool_rust.Stats.Balance.{Change, created, closed, run, run_balance}
use netconnpool_rust.Stats.Saturation.{safe_increment_i64_nearest}

abbrev changes : List Change
changes = created ∷ created ∷ closed ∷ []

run_balance_example :
    (run changes new).current_connections +ℤ (run changes new).total_connections_closed
    ≡ (run changes new).total_connections_created
run_balance_example = run_balance changes (omega arith)

safe_increment_i64_nearest_example :
    IsI64 (safe_increment_i64 i64_max (pos 1))
    × ((IsI64 (i64_max +ℤ pos 1) × (safe_increment_i64 i64_max (pos 1) ≡ i64_max +ℤ pos 1))
        ⊎ ((i64_max ≤ℤ i64_max +ℤ pos 1) × (safe_increment_i64 i64_max (pos 1) ≡ i64_max))
        ⊎ ((i64_max +ℤ pos 1 ≤ℤ i64_min) × (safe_increment_i64 i64_max (pos 1) ≡ i64_min)))
safe_increment_i64_nearest_example =
    safe_increment_i64_nearest i64_max (pos 1) (omega arith, omega arith)

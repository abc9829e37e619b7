-- ===== src/Stats/Saturation.antt =====
-- src/stats.rs: the counters at the ends of their ranges.
use netconnpool_rust.Base.{ℕ, ◌+◌, ◌≤◌, ◌≡◌, ◌⊎◌, arith, min}
use netconnpool_rust.Base.Int.{ℤ, ◌+ℤ◌, ◌≤ℤ◌, IsI64, i64_max, i64_min, +ℤ_parts}
use netconnpool_rust.Net.{u64_max}
use netconnpool_rust.Stats.{StatsInternal, safe_increment_i64, safe_increment_u64, record_get_time}

-- From a value that an `i64` holds, the counter after an increment is the integer nearest to the exact sum that an `i64` holds: the sum
-- itself where it fits, and else the end of the range that the sum is beyond.
pub safe_increment_i64_nearest :
    (old delta : ℤ)
    → IsI64 old
    → IsI64 (safe_increment_i64 old delta)
      × ((IsI64 (old +ℤ delta) × (safe_increment_i64 old delta ≡ old +ℤ delta))
          ⊎ ((i64_max ≤ℤ old +ℤ delta) × (safe_increment_i64 old delta ≡ i64_max))
          ⊎ ((old +ℤ delta ≤ℤ i64_min) × (safe_increment_i64 old delta ≡ i64_min)))
unfolding safe_increment_i64
safe_increment_i64_nearest old delta h =
    (ground (arith, +ℤ_parts old delta), ground (arith, +ℤ_parts old delta))

-- From a total that a `u64` holds, the total time that is recorded is the minimum of the exact sum and `u64::MAX`.
pub record_get_time-min :
    (duration : ℕ) (s : StatsInternal)
    → s.total_get_time ≤ u64_max
    → (record_get_time duration s).total_get_time ≡ min (s.total_get_time + duration) u64_max
unfolding record_get_time safe_increment_u64
record_get_time-min duration s h = ground arith

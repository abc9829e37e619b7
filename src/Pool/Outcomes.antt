-- ===== src/Pool/Outcomes.antt =====
-- src/pool/mod.rs: what a call of `get_connection` adds to the counters of the gets.
pub mod Quiet
pub mod Refusals
pub mod Books
pub mod Tests
use netconnpool_rust.Base.{ℕ, Option, none, some, ok, err}
use mathlib.Core.Option
use netconnpool_rust.Base.Int.{ℤ, pos}
use netconnpool_rust.Errors.{Result, pool_closed, pool_exhausted, get_connection_timeout}
use netconnpool_rust.Stats.{StatsInternal, safe_increment_i64}
use netconnpool_rust.Pool.State.{PoolInner}
use netconnpool_rust.Pool.Idle.{PooledConnection}
use netconnpool_rust.Pool.Get.{Round, done, waits}

pub record GetCounts : Type 0 where
  pub requests : ℤ
  pub successes : ℤ
  pub failures : ℤ
  pub timeouts : ℤ
  pub errors : ℤ

abbrev pub gets : StatsInternal → GetCounts
gets s = record {
  requests = s.total_get_requests;
  successes = s.successful_gets;
  failures = s.failed_gets;
  timeouts = s.timeout_gets;
  errors = s.connection_errors;
}

-- The counters of a pool, if it keeps any.
abbrev pub get_counts : {Queue : Type 0} → PoolInner Queue → Option GetCounts
get_counts p = Option.map gets p.stats_collector

abbrev up : ℤ → ℤ
up n = safe_increment_i64 n (pos 1)

abbrev pub requested : GetCounts → GetCounts
requested c = record c { requests = up c.requests }

-- What the outcome of a call adds. A call that ends because the pool is closed or exhausted is not
-- counted as a failure.
unfoldable pub settle : Option (Result PooledConnection) → GetCounts → GetCounts
settle none c = c
settle (some (ok h)) c = record c { successes = up c.successes }
settle (some (err pool_closed)) c = c
settle (some (err (pool_exhausted _ _))) c = c
settle (some (err (get_connection_timeout _ _))) c = record c {
  failures = up c.failures;
  timeouts = up c.timeouts;
}
settle (some (err _)) c = record c { failures = up c.failures; errors = up c.errors }

abbrev pub outcome : Round → Option (Result PooledConnection)
outcome (done r) = some r
outcome waits = none

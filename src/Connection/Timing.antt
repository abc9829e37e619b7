-- ===== src/Connection/Timing.antt =====
-- src/connection.rs: the tests of the times against the times themselves.
use netconnpool_rust.Base.{ℕ, ◌-◌, ◌<◌, ◌≡◌, ◌↔◌, true, false, some, arith}
use netconnpool_rust.Connection.{
  Connection, is_leaked, get_leaked_duration, is_idle_expired, idle_time, is_expired, age,
  now_nanos,
}
use netconnpool_rust.Net.{Moment}

-- A connection is leaked exactly if the timeout is not zero and the time that `get_leaked_duration`
-- reports exceeds it.
pub is_leaked_iff :
    (m : Moment) (leak_timeout : ℕ) (c : Connection)
    → (is_leaked m leak_timeout c ≡ true)
      ↔ ((0 < leak_timeout) × ((d : ℕ) × (get_leaked_duration m c ≡ some d) × (leak_timeout < d)))
unfolding is_leaked get_leaked_duration
is_leaked_iff m leak_timeout c = (
  (λ h. (ground arith, (now_nanos m - c.last_used_at, ground arith, ground arith))),
  (λ h. ground arith),
)

-- A connection is beyond its idle time exactly if the timeout is not zero, the connection is not in
-- use, and the time that `idle_time` reports exceeds the timeout; it is beyond its lifetime exactly if
-- the lifetime is not zero and less than its age.
is_idle_expired_iff :
    (m : Moment) (limit : ℕ) (c : Connection)
    → ((is_idle_expired m limit c ≡ true)
        ↔ ((0 < limit) × (c.in_use ≡ false) × (limit < idle_time m c)))
      × ((is_expired m limit c ≡ true) ↔ ((0 < limit) × (limit < age m c)))
unfolding is_idle_expired idle_time is_expired age
is_idle_expired_iff m limit c =
    (((λ h. ground arith), (λ h. ground arith)), ((λ h. ground arith), (λ h. ground arith)))

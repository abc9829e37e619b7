-- ===== src/Stats.antt =====
-- src/stats.rs: the counters of a pool. Each is an atomic `i64` that saturates; the two of time are
-- `u64` nanoseconds. `update_time` does nothing, and is left out.
pub mod Saturation
pub mod Balance
pub mod Snapshot
pub mod Tests
use netconnpool_rust.Base.{
  ℕ, ◌+◌, ◌/◌, ◌^◌, min, Bool, Option, none, some, ltb, leb, ◌&&◌, if◌then◌else◌,
}
use netconnpool_rust.Base.Int.{ℤ, pos, negsuc, ◌+ℤ◌, leb_ℤ, ltb_ℤ, i64_max, i64_min, pos_part}
use netconnpool_rust.Net.{u64_max}

pub record StatsInternal : Type 0 where
  pub total_connections_created : ℤ
  pub total_connections_closed : ℤ
  pub current_connections : ℤ
  pub current_idle_connections : ℤ
  pub current_active_connections : ℤ
  pub current_ipv4_connections : ℤ
  pub current_ipv6_connections : ℤ
  pub current_ipv4_idle_connections : ℤ
  pub current_ipv6_idle_connections : ℤ
  pub current_tcp_connections : ℤ
  pub current_udp_connections : ℤ
  pub current_tcp_idle_connections : ℤ
  pub current_udp_idle_connections : ℤ
  pub total_get_requests : ℤ
  pub successful_gets : ℤ
  pub failed_gets : ℤ
  pub timeout_gets : ℤ
  pub health_check_attempts : ℤ
  pub health_check_failures : ℤ
  pub unhealthy_connections : ℤ
  pub connection_errors : ℤ
  pub leaked_connections : ℤ
  pub total_connections_reused : ℤ
  pub average_get_time : ℕ
  pub total_get_time : ℕ

-- `checked_add` of `i64` and of `u64`.
abbrev pub checked_add_i64 : ℤ → ℤ → Option ℤ
checked_add_i64 a b =
    if leb_ℤ i64_min (a +ℤ b) && leb_ℤ (a +ℤ b) i64_max then some (a +ℤ b) else none

abbrev pub checked_add_u64 : ℕ → ℕ → Option ℕ
checked_add_u64 a b = if leb (a + b) u64_max then some (a + b) else none

-- `safe_increment_i64` and `safe_increment_u64`: the value that the successful exchange stores.
unfoldable pub safe_increment_i64 : (old delta : ℤ) → ℤ
safe_increment_i64 old delta = elim (checked_add_i64 old delta) [
  | some v ↦ v
  | none ↦ if ltb_ℤ (pos 0) delta then i64_max else i64_min
]

unfoldable pub safe_increment_u64 : (old delta : ℕ) → ℕ
safe_increment_u64 old delta = elim (checked_add_u64 old delta) [ some v ↦ v | none ↦ u64_max ]

-- `StatsCollector::new`.
unfoldable pub new : StatsInternal
new = record {
  total_connections_created = pos 0;
  total_connections_closed = pos 0;
  current_connections = pos 0;
  current_idle_connections = pos 0;
  current_active_connections = pos 0;
  current_ipv4_connections = pos 0;
  current_ipv6_connections = pos 0;
  current_ipv4_idle_connections = pos 0;
  current_ipv6_idle_connections = pos 0;
  current_tcp_connections = pos 0;
  current_udp_connections = pos 0;
  current_tcp_idle_connections = pos 0;
  current_udp_idle_connections = pos 0;
  total_get_requests = pos 0;
  successful_gets = pos 0;
  failed_gets = pos 0;
  timeout_gets = pos 0;
  health_check_attempts = pos 0;
  health_check_failures = pos 0;
  unhealthy_connections = pos 0;
  connection_errors = pos 0;
  leaked_connections = pos 0;
  total_connections_reused = pos 0;
  average_get_time = 0;
  total_get_time = 0;
}

unfoldable pub increment_total_connections_created : StatsInternal → StatsInternal
increment_total_connections_created s = record s {
  total_connections_created = safe_increment_i64 s.total_connections_created (pos 1);
  current_connections = safe_increment_i64 s.current_connections (pos 1);
}

unfoldable pub increment_total_connections_closed : StatsInternal → StatsInternal
increment_total_connections_closed s = record s {
  total_connections_closed = safe_increment_i64 s.total_connections_closed (pos 1);
  current_connections = safe_increment_i64 s.current_connections (negsuc 0);
}

unfoldable pub increment_current_idle_connections : ℤ → StatsInternal → StatsInternal
increment_current_idle_connections delta s = record s {
  current_idle_connections = safe_increment_i64 s.current_idle_connections delta;
}

unfoldable pub increment_current_active_connections : ℤ → StatsInternal → StatsInternal
increment_current_active_connections delta s = record s {
  current_active_connections = safe_increment_i64 s.current_active_connections delta;
}

unfoldable pub increment_current_ipv4_connections : ℤ → StatsInternal → StatsInternal
increment_current_ipv4_connections delta s = record s {
  current_ipv4_connections = safe_increment_i64 s.current_ipv4_connections delta;
}

unfoldable pub increment_current_ipv6_connections : ℤ → StatsInternal → StatsInternal
increment_current_ipv6_connections delta s = record s {
  current_ipv6_connections = safe_increment_i64 s.current_ipv6_connections delta;
}

unfoldable pub increment_current_ipv4_idle_connections : ℤ → StatsInternal → StatsInternal
increment_current_ipv4_idle_connections delta s = record s {
  current_ipv4_idle_connections = safe_increment_i64 s.current_ipv4_idle_connections delta;
}

unfoldable pub increment_current_ipv6_idle_connections : ℤ → StatsInternal → StatsInternal
increment_current_ipv6_idle_connections delta s = record s {
  current_ipv6_idle_connections = safe_increment_i64 s.current_ipv6_idle_connections delta;
}

unfoldable pub increment_current_tcp_connections : ℤ → StatsInternal → StatsInternal
increment_current_tcp_connections delta s = record s {
  current_tcp_connections = safe_increment_i64 s.current_tcp_connections delta;
}

unfoldable pub increment_current_udp_connections : ℤ → StatsInternal → StatsInternal
increment_current_udp_connections delta s = record s {
  current_udp_connections = safe_increment_i64 s.current_udp_connections delta;
}

unfoldable pub increment_current_tcp_idle_connections : ℤ → StatsInternal → StatsInternal
increment_current_tcp_idle_connections delta s = record s {
  current_tcp_idle_connections = safe_increment_i64 s.current_tcp_idle_connections delta;
}

unfoldable pub increment_current_udp_idle_connections : ℤ → StatsInternal → StatsInternal
increment_current_udp_idle_connections delta s = record s {
  current_udp_idle_connections = safe_increment_i64 s.current_udp_idle_connections delta;
}

unfoldable pub increment_total_get_requests : StatsInternal → StatsInternal
increment_total_get_requests s = record s {
  total_get_requests = safe_increment_i64 s.total_get_requests (pos 1);
}

unfoldable pub increment_successful_gets : StatsInternal → StatsInternal
increment_successful_gets s = record s {
  successful_gets = safe_increment_i64 s.successful_gets (pos 1);
}

unfoldable pub increment_failed_gets : StatsInternal → StatsInternal
increment_failed_gets s = record s { failed_gets = safe_increment_i64 s.failed_gets (pos 1) }

unfoldable pub increment_timeout_gets : StatsInternal → StatsInternal
increment_timeout_gets s = record s { timeout_gets = safe_increment_i64 s.timeout_gets (pos 1) }

unfoldable pub increment_health_check_attempts : StatsInternal → StatsInternal
increment_health_check_attempts s = record s {
  health_check_attempts = safe_increment_i64 s.health_check_attempts (pos 1);
}

unfoldable pub increment_health_check_failures : StatsInternal → StatsInternal
increment_health_check_failures s = record s {
  health_check_failures = safe_increment_i64 s.health_check_failures (pos 1);
}

unfoldable pub increment_unhealthy_connections : StatsInternal → StatsInternal
increment_unhealthy_connections s = record s {
  unhealthy_connections = safe_increment_i64 s.unhealthy_connections (pos 1);
}

unfoldable pub increment_connection_errors : StatsInternal → StatsInternal
increment_connection_errors s = record s {
  connection_errors = safe_increment_i64 s.connection_errors (pos 1);
}

unfoldable pub increment_leaked_connections : StatsInternal → StatsInternal
increment_leaked_connections s = record s {
  leaked_connections = safe_increment_i64 s.leaked_connections (pos 1);
}

unfoldable pub increment_total_connections_reused : StatsInternal → StatsInternal
increment_total_connections_reused s = record s {
  total_connections_reused = safe_increment_i64 s.total_connections_reused (pos 1);
}

-- `record_get_time`; a duration of more than `u64::MAX` nanoseconds counts as that.
unfoldable pub record_get_time : (duration : ℕ) → StatsInternal → StatsInternal
record_get_time duration s = record s {
  total_get_time = safe_increment_u64 s.total_get_time (min duration u64_max);
}

-- ===== src/Stats/Snapshot.antt =====
-- `StatsCollector::get_stats` of src/stats.rs: the snapshot, with the averages that it computes. The
-- average of the reuses, a float in the source, is the fraction before it is rounded.
use netconnpool_rust.Base.{ℕ, ◌/◌, ltb, if◌then◌else◌}
use netconnpool_rust.Base.Int.{ℤ, pos, pos_part, ltb_ℤ}
use netconnpool_rust.Net.{Moment}
use netconnpool_rust.Stats.{StatsInternal}

pub record Ratio : Type 0 where
  pub numerator : ℕ
  pub denominator : ℕ

pub record Stats : Type 0 where
  pub total_connections_created : ℤ
  pub total_connections_closed : ℤ
  pub current_connections : ℤ
  pub current_idle_connections : ℤ
  pub current_active_connections : ℤ
  pub current_ipv4_connections : ℤ
  pub current_ipv6_connections : ℤ
  pub current_ipv4_idle_connections : ℤ
  pub current_ipv6_idle_connections : ℤ
  pub current_tcp_connections : ℤ
  pub current_udp_connections : ℤ
  pub current_tcp_idle_connections : ℤ
  pub current_udp_idle_connections : ℤ
  pub total_get_requests : ℤ
  pub successful_gets : ℤ
  pub failed_gets : ℤ
  pub timeout_gets : ℤ
  pub health_check_attempts : ℤ
  pub health_check_failures : ℤ
  pub unhealthy_connections : ℤ
  pub connection_errors : ℤ
  pub leaked_connections : ℤ
  pub total_connections_reused : ℤ
  pub average_reuse_count : Ratio
  pub average_get_time : ℕ
  pub total_get_time : ℕ
  pub last_update_time : ℕ

-- `Stats::default`.
unfoldable pub default : Moment → Stats
default m = record {
  total_connections_created = pos 0;
  total_connections_closed = pos 0;
  current_connections = pos 0;
  current_idle_connections = pos 0;
  current_active_connections = pos 0;
  current_ipv4_connections = pos 0;
  current_ipv6_connections = pos 0;
  current_ipv4_idle_connections = pos 0;
  current_ipv6_idle_connections = pos 0;
  current_tcp_connections = pos 0;
  current_udp_connections = pos 0;
  current_tcp_idle_connections = pos 0;
  current_udp_idle_connections = pos 0;
  total_get_requests = pos 0;
  successful_gets = pos 0;
  failed_gets = pos 0;
  timeout_gets = pos 0;
  health_check_attempts = pos 0;
  health_check_failures = pos 0;
  unhealthy_connections = pos 0;
  connection_errors = pos 0;
  leaked_connections = pos 0;
  total_connections_reused = pos 0;
  average_reuse_count = record { numerator = 0; denominator = 1 };
  average_get_time = 0;
  total_get_time = 0;
  last_update_time = m.instant;
}

-- `load().max(0) as u64` is `pos_part`.
average_time : StatsInternal → ℕ
average_time s =
    if ltb 0 (pos_part s.successful_gets) then s.total_get_time / pos_part s.successful_gets else 0

average_reuse : StatsInternal → Ratio
average_reuse s =
    if ltb_ℤ (pos 0) s.total_connections_created
    then record {
      numerator = pos_part s.total_connections_reused;
      denominator = pos_part s.total_connections_created;
    }
    else record { numerator = 0; denominator = 1 }

-- The collector after the call, which has stored the average, and the snapshot.
unfoldable pub get_stats : Moment → StatsInternal → StatsInternal × Stats
unfolding average_time average_reuse
get_stats m s = (
  record s { average_get_time = average_time s },
  record {
    total_connections_created = s.total_connections_created;
    total_connections_closed = s.total_connections_closed;
    current_connections = s.current_connections;
    current_idle_connections = s.current_idle_connections;
    current_active_connections = s.current_active_connections;
    current_ipv4_connections = s.current_ipv4_connections;
    current_ipv6_connections = s.current_ipv6_connections;
    current_ipv4_idle_connections = s.current_ipv4_idle_connections;
    current_ipv6_idle_connections = s.current_ipv6_idle_connections;
    current_tcp_connections = s.current_tcp_connections;
    current_udp_connections = s.current_udp_connections;
    current_tcp_idle_connections = s.current_tcp_idle_connections;
    current_udp_idle_connections = s.current_udp_idle_connections;
    total_get_requests = s.total_get_requests;
    successful_gets = s.successful_gets;
    failed_gets = s.failed_gets;
    timeout_gets = s.timeout_gets;
    health_check_attempts = s.health_check_attempts;
    health_check_failures = s.health_check_failures;
    unhealthy_connections = s.unhealthy_connections;
    connection_errors = s.connection_errors;
    leaked_connections = s.leaked_connections;
    total_connections_reused = s.total_connections_reused;
    average_reuse_count = average_reuse s;
    average_get_time = average_time s;
    total_get_time = s.total_get_time;
    last_update_time = m.instant;
  },
)

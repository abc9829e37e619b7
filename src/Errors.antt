-- ===== src/Errors.antt =====
-- src/errors.rs: the error type of the library. Durations are nanoseconds.
use netconnpool_rust.Base.{ℕ, ◌==◌, Bool, true, false, ◌&&◌, String, Outcome}
use text.Mathlib.Text.{◌==◌ as str_eq}

-- `io::ErrorKind`, as far as the code tells kinds apart.
pub data ErrorKind : Type 0 where
  would_block : ErrorKind
  other : ErrorKind
  os : ℕ → ErrorKind

-- `io::Error`: what `kind()` and `to_string()` give.
pub record IoError : Type 0 where
  pub kind : ErrorKind
  pub message : String

-- `io::Error::other`.
abbrev pub other_error : String → IoError
other_error message = record { kind = ErrorKind.other; message = message }

pub data NetConnPoolError : Type 0 where
  pool_closed : NetConnPoolError
  connection_closed : (connection_id : ℕ) → NetConnPoolError
  get_connection_timeout : (timeout waited : ℕ) → NetConnPoolError
  max_connections_reached : (current max : ℕ) → NetConnPoolError
  invalid_connection : (connection_id : ℕ) (reason : String) → NetConnPoolError
  connection_unhealthy : (connection_id : ℕ) → NetConnPoolError
  invalid_config : (reason : String) → NetConnPoolError
  connection_leaked : (connection_id timeout : ℕ) → NetConnPoolError
  pool_exhausted : (current max : ℕ) → NetConnPoolError
  unsupported_ip_version : (version : String) → NetConnPoolError
  no_connection_for_ip_version : (required : String) → NetConnPoolError
  unsupported_protocol : (protocol : String) → NetConnPoolError
  no_connection_for_protocol : (required : String) → NetConnPoolError
  io_error : IoError → NetConnPoolError

-- `errors::Result`.
abbrev pub Result : Type 0 → Type 0
Result A = Outcome A NetConnPoolError

same_kind : ErrorKind → ErrorKind → Bool
same_kind ErrorKind.would_block ErrorKind.would_block = true
same_kind ErrorKind.other ErrorKind.other = true
same_kind (ErrorKind.os m) (ErrorKind.os n) = m == n
same_kind _ _ = false

-- `PartialEq::eq`.
unfoldable pub eq : NetConnPoolError → NetConnPoolError → Bool
unfolding same_kind
eq pool_closed pool_closed = true
eq (connection_closed id1) (connection_closed id2) = id1 == id2
eq (get_connection_timeout _ _) (get_connection_timeout _ _) = true
eq (max_connections_reached c1 m1) (max_connections_reached c2 m2) = (c1 == c2) && (m1 == m2)
eq (invalid_connection id1 _) (invalid_connection id2 _) = id1 == id2
eq (connection_unhealthy id1) (connection_unhealthy id2) = id1 == id2
eq (invalid_config r1) (invalid_config r2) = str_eq r1 r2
eq (connection_leaked id1 _) (connection_leaked id2 _) = id1 == id2
eq (pool_exhausted c1 m1) (pool_exhausted c2 m2) = (c1 == c2) && (m1 == m2)
eq (unsupported_ip_version v1) (unsupported_ip_version v2) = str_eq v1 v2
eq (no_connection_for_ip_version r1) (no_connection_for_ip_version r2) = str_eq r1 r2
eq (unsupported_protocol p1) (unsupported_protocol p2) = str_eq p1 p2
eq (no_connection_for_protocol r1) (no_connection_for_protocol r2) = str_eq r1 r2
eq (io_error e1) (io_error e2) = same_kind e1.kind e2.kind
eq _ _ = false

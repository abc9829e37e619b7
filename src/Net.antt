-- ===== src/Net.antt =====
-- What the code uses of `std::net` and `std::time`: sockets with their observable state, a listener,
-- and the readings of the clocks. Times and durations are nanoseconds.
use netconnpool_rust.Base.{ℕ, ◌^◌, ◌-◌, Bool, true, Option, none, some, List, Outcome, ok, err}
use netconnpool_rust.Errors.{IoError}
use netconnpool_rust.IpVersion.{SocketAddr}

-- The readings of the clocks during one pass of an operation, and how long the clearing of a socket
-- has taken when it begins its n-th round.
pub record Moment : Type 0 where
  pub instant : ℕ
  pub unix : ℕ
  pub clear_elapsed : ℕ → ℕ

abbrev pub u64_max : ℕ
u64_max = 2 ^ 64 - 1

-- The answer of one `recv`.
pub data Received : Type 0 where
  packet : ℕ → Received
  failed : IoError → Received

-- A `TcpStream` or `UdpSocket`. `refuses b` is the error of `set_nonblocking(b)`, if it fails;
-- `incoming` is what the next calls of `recv` answer, and an empty list answers `WouldBlock`.
pub record Socket : Type 0 where
  pub peer_addr : Option SocketAddr
  pub local_addr : Option SocketAddr
  pub refuses : Bool → Option IoError
  pub nonblocking : Bool
  pub incoming : List Received
  pub is_shutdown : Bool

unfoldable pub set_nonblocking : Bool → Socket → Outcome Socket IoError
set_nonblocking b s = elim (s.refuses b) [
  | none ↦ ok (record s { nonblocking = b })
  | some e ↦ err e
]

-- `shutdown(Both)`.
unfoldable pub shutdown : Socket → Socket
shutdown s = record s { is_shutdown = true }

-- A `TcpListener`: what `accept` answers at each time.
pub record TcpListener : Type 0 where
  pub accept : Moment → Outcome Socket IoError

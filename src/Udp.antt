-- ===== src/Udp.antt =====
-- src/udp_utils.rs: throwing away what a UDP socket has received before it is lent again.
pub mod Clearing
pub mod Tests
use netconnpool_rust.Base.{
  ℕ, zero, suc, Bool, true, false, not, ◌&&◌, ◌+◌, List, [], ◌∷◌, Outcome, ok, err, ◌>>=◌, leb,
  ◌==◌, if◌then◌else◌,
}
use netconnpool_rust.Errors.{IoError}
use netconnpool_rust.Net.{Socket, Received, packet, failed, set_nonblocking}

-- The loop: at most `rounds` calls of `recv`, of which `n` are done. It ends early when the time is
-- over, when nothing is left (`WouldBlock`) and at any other error. The result is what is left.
unfoldable pub clear_rounds :
    (elapsed : ℕ → ℕ) (timeout rounds n : ℕ) → List Received → List Received
clear_rounds elapsed timeout zero n incoming = incoming
clear_rounds elapsed timeout (suc rounds) n [] = []
clear_rounds elapsed timeout (suc rounds) n (failed e ∷ rest) =
    if not (timeout == 0) && leb timeout (elapsed n) then failed e ∷ rest else rest
clear_rounds elapsed timeout (suc rounds) n (packet size ∷ rest) =
    let next = clear_rounds elapsed timeout rounds (n + 1) rest in
    if not (timeout == 0) && leb timeout (elapsed n) then packet size ∷ rest else next

-- The state of the socket after the call, which an error leaves as it is then, and the result.
unfoldable pub clear_udp_read_buffer :
    (elapsed : ℕ → ℕ) → Socket → (timeout max_packets : ℕ) → Socket × Outcome (Unit {0}) IoError
clear_udp_read_buffer elapsed socket timeout max_packets = elim (set_nonblocking true socket) [
  | err e ↦ (socket, err e)
  | ok opened ↦
      let max : ℕ = if max_packets == 0 then 100 else max_packets in
      let cleared : Socket = record opened {
        incoming = clear_rounds elapsed timeout max 0 opened.incoming;
      } in
      elim (set_nonblocking false cleared) [ err e ↦ (cleared, err e) | ok s ↦ (s, ok tt) ]
]

-- `peek`: whether the next `recv` would succeed.
peeks : List Received → Bool
peeks (packet _ ∷ _) = true
peeks _ = false

abbrev or_same : Socket → Outcome Socket IoError → Socket
or_same _ (ok s) = s
or_same s (err _) = s

-- `has_udp_data_in_buffer`. Where the mode cannot be set, a `peek` that waits is taken as one that
-- finds nothing.
unfoldable pub has_udp_data_in_buffer : Socket → Socket × Bool
unfolding peeks
has_udp_data_in_buffer socket =
    let opened = or_same socket (set_nonblocking true socket) in
    (or_same opened (set_nonblocking false opened), peeks opened.incoming)

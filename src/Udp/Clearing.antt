-- ===== src/Udp/Clearing.antt =====
-- src/udp_utils.rs: what `clear_udp_read_buffer` throws away, and the mode in which it leaves a socket.
use netconnpool_rust.Base.{
  ℕ, zero, suc, ◌+◌, ◌≤◌, ◌<◌, ◌≡◌, refl, ◌⊎◌, inl, inr, ap, true, false, none, some, List, [], ◌∷◌,
  ◌++◌, arith, length, All, ok, err, Bool-cases, not, ◌&&◌, leb, ◌==◌, if◌then◌else◌,
}
use netconnpool_rust.Errors.{IoError}
use netconnpool_rust.Net.{Socket, Received, packet, failed, set_nonblocking}
use netconnpool_rust.Udp.{clear_rounds, clear_udp_read_buffer}

-- The loop throws away a beginning of what is received, of at most `rounds` answers.
clear_rounds_suffix :
    (elapsed : ℕ → ℕ) (timeout rounds n : ℕ) (incoming : List Received)
    → (dropped : List Received) × (incoming
        ≡ dropped ++ clear_rounds elapsed timeout rounds n incoming)
      × (length dropped ≤ rounds)
unfolding clear_rounds
clear_rounds_suffix elapsed timeout zero n incoming = ([], refl, omega arith)
clear_rounds_suffix elapsed timeout (suc rounds) n [] = ([], refl, omega arith)
clear_rounds_suffix elapsed timeout (suc rounds) n (failed e ∷ rest) =
    elim (Bool-cases (not (timeout == 0) && leb timeout (elapsed n))) [
      | inl over ↦ simp over ([], refl, omega arith)
      | inr time ↦ simp time (failed e ∷ [], refl, omega arith)
    ]
clear_rounds_suffix elapsed timeout (suc rounds) n (packet size ∷ rest) =
    elim (Bool-cases (not (timeout == 0) && leb timeout (elapsed n))) [
      | inl over ↦ simp over ([], refl, omega arith)
      | inr time ↦
          let (dropped, e, few) = clear_rounds_suffix elapsed timeout rounds (n + 1) rest in
          simp time (packet size ∷ dropped, ap (λ l. packet size ∷ l) e, omega arith)
    ]

abbrev pub IsPacket : Received → Type 0
IsPacket (packet _) = Unit
IsPacket (failed _) = ⊥

clear_rounds_empties :
    (elapsed : ℕ → ℕ) (timeout rounds n : ℕ) (incoming : List Received)
    → (timeout ≡ 0) ⊎ ((k : ℕ) → elapsed k < timeout)
    → All IsPacket incoming
    → length incoming ≤ rounds
    → clear_rounds elapsed timeout rounds n incoming ≡ []
unfolding clear_rounds
clear_rounds_empties elapsed timeout zero n [] time packets few = refl
clear_rounds_empties elapsed timeout zero n (x ∷ rest) time packets few = absurd (omega arith)
clear_rounds_empties elapsed timeout (suc rounds) n [] time packets few = refl
clear_rounds_empties elapsed timeout (suc rounds) n (failed e ∷ rest) time packets few =
    absurd packets.0
clear_rounds_empties elapsed timeout (suc rounds) n (packet size ∷ rest) (inl unlimited) packets
      few =
    ground
      (arith, clear_rounds_empties elapsed timeout rounds (n + 1) rest (inl unlimited) packets.1)
clear_rounds_empties elapsed timeout (suc rounds) n (packet size ∷ rest) (inr quick) packets few =
    ground (
      arith,
      quick n,
      clear_rounds_empties elapsed timeout rounds (n + 1) rest (inr quick) packets.1,
    )

-- The number of packets that a call may read.
abbrev pub packet_limit : ℕ → ℕ
packet_limit max_packets = if max_packets == 0 then 100 else max_packets

clear_udp_read_buffer-eq :
    (elapsed : ℕ → ℕ) (s : Socket) (timeout max_packets : ℕ)
    → s.refuses true ≡ none
    → s.refuses false ≡ none
    → clear_udp_read_buffer elapsed s timeout max_packets ≡ (
      record s {
        nonblocking = false;
        incoming = clear_rounds elapsed timeout (packet_limit max_packets) 0 s.incoming;
      },
      ok tt,
    )
unfolding clear_udp_read_buffer set_nonblocking
clear_udp_read_buffer-eq elapsed s timeout max_packets on off = ground arith

-- On a socket whose mode can be set, the clearing succeeds, leaves the socket blocking, and throws
-- away a beginning of what was received, of at most the limit.
pub clear_udp_read_buffer_lem :
    (elapsed : ℕ → ℕ) (s : Socket) (timeout max_packets : ℕ)
    → s.refuses true ≡ none
    → s.refuses false ≡ none
    → let (t, r) = clear_udp_read_buffer elapsed s timeout max_packets in
      (r ≡ ok tt)
      × (t.nonblocking ≡ false)
      × ((dropped : List Received) × (s.incoming ≡ dropped ++ t.incoming)
          × (length dropped ≤ packet_limit max_packets))
clear_udp_read_buffer_lem elapsed s timeout max_packets on off =
    let limit = packet_limit max_packets in
    rw (clear_udp_read_buffer-eq elapsed s timeout max_packets on off)
      (refl, refl, clear_rounds_suffix elapsed timeout limit 0 s.incoming)

-- Where only packets are waiting, no more than the limit, and the time does not run out, the clearing
-- of a socket whose mode can be set leaves none of them.
pub clear_udp_read_buffer_empties :
    (elapsed : ℕ → ℕ) (s : Socket) (timeout max_packets : ℕ)
    → s.refuses true ≡ none
    → s.refuses false ≡ none
    → (timeout ≡ 0) ⊎ ((k : ℕ) → elapsed k < timeout)
    → All IsPacket s.incoming
    → length s.incoming ≤ packet_limit max_packets
    → (clear_udp_read_buffer elapsed s timeout max_packets).0.incoming ≡ []
clear_udp_read_buffer_empties elapsed s timeout max_packets on off time packets few =
    rw (clear_udp_read_buffer-eq elapsed s timeout max_packets on off) (
      clear_rounds_empties elapsed timeout (packet_limit max_packets) 0 s.incoming time packets few)

-- A socket that refuses to become non-blocking is left as it was, with the error.
clear_udp_read_buffer_refused :
    (elapsed : ℕ → ℕ) (s : Socket) (timeout max_packets : ℕ) (e : IoError)
    → s.refuses true ≡ some e
    → clear_udp_read_buffer elapsed s timeout max_packets ≡ (s, err e)
unfolding clear_udp_read_buffer set_nonblocking
clear_udp_read_buffer_refused elapsed s timeout max_packets e h = ground arith

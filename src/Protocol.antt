-- ===== src/Protocol.antt =====
-- src/protocol.rs: the transport protocol of a connection.
use netconnpool_rust.Base.{
  ℕ, Bool, true, false, List, String, codes, same_text, to_uppercase, if◌then◌else◌,
}

pub data Protocol : Type 0 where
  unknown tcp udp : Protocol

-- `==` of the derived `PartialEq`.
abbrev pub eq : Protocol → Protocol → Bool
eq unknown unknown = true
eq tcp tcp = true
eq udp udp = true
eq _ _ = false

-- `Display`, which `to_string` uses; the derived `Debug` prints the same.
unfoldable pub to_string : Protocol → String
to_string tcp = "TCP"
to_string udp = "UDP"
to_string unknown = "Unknown"

unfoldable pub parse_protocol : List ℕ → Protocol
parse_protocol s =
    if same_text (to_uppercase s) (codes "TCP")
    then tcp
    else if same_text (to_uppercase s) (codes "UDP")
    then udp
    else unknown

unfoldable pub is_tcp : Protocol → Bool
is_tcp tcp = true
is_tcp _ = false

unfoldable pub is_udp : Protocol → Bool
is_udp udp = true
is_udp _ = false

-- ===== src/IpVersion.antt =====
-- src/ipversion.rs: the IP version of a connection.
use netconnpool_rust.Base.{
  ℕ, Bool, true, false, ◌||◌, List, String, codes, same_text, to_lowercase, if◌then◌else◌,
}

pub data IpVersion : Type 0 where
  unknown ipv4 ipv6 : IpVersion

abbrev pub eq : IpVersion → IpVersion → Bool
eq unknown unknown = true
eq ipv4 ipv4 = true
eq ipv6 ipv6 = true
eq _ _ = false

-- `std::net::SocketAddr`, by its variant; the address itself is a number that nothing reads.
pub data SocketAddr : Type 0 where
  v4 v6 : ℕ → SocketAddr

unfoldable pub to_string : IpVersion → String
to_string ipv4 = "IPv4"
to_string ipv6 = "IPv6"
to_string unknown = "Unknown"

unfoldable pub detect_ip_version : SocketAddr → IpVersion
detect_ip_version (v4 _) = ipv4
detect_ip_version (v6 _) = ipv6

unfoldable pub parse_ip_version : List ℕ → IpVersion
parse_ip_version s =
    if same_text (to_lowercase s) (codes "ipv4") || same_text (to_lowercase s) (codes "4")
    then ipv4
    else if same_text (to_lowercase s) (codes "ipv6") || same_text (to_lowercase s) (codes "6")
    then ipv6
    else unknown

-- ===== src/Names.antt =====
-- The names of protocols, IP versions and modes: src/protocol.rs, src/ipversion.rs and src/mode.rs.
use netconnpool_rust.Base.{
  ℕ, ◌≡◌, refl, ◌↔◌, true, List, [], ◌∷◌, arith, codes, same_text, to_uppercase,
}
use netconnpool_rust.IpVersion
use netconnpool_rust.IpVersion.{IpVersion, parse_ip_version}
use netconnpool_rust.Mode
use netconnpool_rust.Mode.{PoolMode, parse_pool_mode}
use netconnpool_rust.Protocol
use netconnpool_rust.Protocol.{Protocol, parse_protocol}

same_text-eq : (xs ys : List ℕ) → same_text xs ys ≡ true → xs ≡ ys
same_text-eq [] [] h = refl
same_text-eq [] (y ∷ ys) h = cc
same_text-eq (x ∷ xs) [] h = cc
same_text-eq (x ∷ xs) (y ∷ ys) h = ground (arith, same_text-eq xs ys)

same_text_refl : (xs : List ℕ) → same_text xs xs ≡ true
same_text_refl [] = refl
same_text_refl (x ∷ xs) = ground (arith, same_text_refl xs)

same_text_of_eq : (xs ys : List ℕ) → xs ≡ ys → same_text xs ys ≡ true
same_text_of_eq xs ys e = rw e (same_text_refl ys)

-- Parsing what `to_string` prints gives the value back, for each of the three types.
pub parse-to_string :
    ((p : Protocol) → parse_protocol (codes (Protocol.to_string p)) ≡ p)
    × ((v : IpVersion) → parse_ip_version (codes (IpVersion.to_string v)) ≡ v)
    × ((m : PoolMode) → parse_pool_mode (codes (Mode.to_string m)) ≡ m)
parse-to_string = (of_protocol, of_version, of_mode)
  where
    of_protocol : (p : Protocol) → parse_protocol (codes (Protocol.to_string p)) ≡ p
    of_protocol Protocol.unknown = unfold Protocol.to_string parse_protocol in refl
    of_protocol Protocol.tcp = unfold Protocol.to_string parse_protocol in refl
    of_protocol Protocol.udp = unfold Protocol.to_string parse_protocol in refl

    of_version : (v : IpVersion) → parse_ip_version (codes (IpVersion.to_string v)) ≡ v
    of_version IpVersion.unknown = unfold IpVersion.to_string parse_ip_version in refl
    of_version IpVersion.ipv4 = unfold IpVersion.to_string parse_ip_version in refl
    of_version IpVersion.ipv6 = unfold IpVersion.to_string parse_ip_version in refl

    of_mode : (m : PoolMode) → parse_pool_mode (codes (Mode.to_string m)) ≡ m
    of_mode PoolMode.client = unfold Mode.to_string parse_pool_mode in refl
    of_mode PoolMode.server = unfold Mode.to_string parse_pool_mode in refl

-- A text is parsed to TCP, or to UDP, exactly if its upper-case form is that protocol's name.
parse_protocol_iff :
    (s : List ℕ)
    → ((parse_protocol s ≡ Protocol.tcp) ↔ (to_uppercase s ≡ codes "TCP"))
      × ((parse_protocol s ≡ Protocol.udp) ↔ (to_uppercase s ≡ codes "UDP"))
unfolding parse_protocol
parse_protocol_iff s = (
  (
    (λ h. same_text-eq (to_uppercase s) (codes "TCP") (ground arith)),
    (λ e. ground (arith, same_text_of_eq (to_uppercase s) (codes "TCP") e)),
  ),
  (
    (λ h. same_text-eq (to_uppercase s) (codes "UDP") (ground arith)),
    (λ e. rw (e, parse_protocol) refl),
  ),
)

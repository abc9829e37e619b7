-- ===== src/Pool/Buckets.antt =====
-- src/pool/mod.rs: the four buckets of idle connections, and which of them a request looks at.
use netconnpool_rust.Base.{
  ℕ, ◌<◌, ◌≡◌, ◌≢◌, Bool, false, not, ◌&&◌, ◌||◌, Option, none, some, List, [], ◌∷◌, arith, ◌==◌,
}
use netconnpool_rust.IpVersion.{IpVersion}
use netconnpool_rust.Protocol.{Protocol}
use netconnpool_rust.Pool.State.{get_bucket_index, get_target_buckets}
use netconnpool_rust.Pool.Create.{is_wrong_protocol, is_wrong_version}

abbrev pub has_elem : ℕ → List ℕ → Bool
has_elem i [] = false
has_elem i (j ∷ rest) = i == j || has_elem i rest

-- The kinds with a bucket are the known ones; a bucket's index is below four, and kinds with the same
-- index are the same.
get_bucket_index_lem :
    (p q : Protocol) (v w : IpVersion) (i : ℕ)
    → get_bucket_index p v ≡ some i
    → get_bucket_index q w ≡ some i
    → (i < 4) × (p ≢ Protocol.unknown) × (v ≢ IpVersion.unknown) × (p ≡ q) × (v ≡ w)
unfolding get_bucket_index
get_bucket_index_lem Protocol.unknown q v w i h k = ground arith
get_bucket_index_lem Protocol.tcp q v w i h k = ground arith
get_bucket_index_lem _ q v w i h k = ground arith

-- A request looks at the bucket of a kind exactly if `create_connection` would accept a connection of
-- that kind for it.
pub get_target_buckets_lem :
    (protocol : Option Protocol) (ip_version : Option IpVersion) (p : Protocol) (v : IpVersion)
    (i : ℕ)
    → get_bucket_index p v ≡ some i
    → has_elem i (get_target_buckets protocol ip_version)
      ≡ (not (is_wrong_protocol protocol p) && not (is_wrong_version ip_version v))
unfolding get_target_buckets get_bucket_index is_wrong_protocol is_wrong_version
get_target_buckets_lem none none p v i h = ground arith
get_target_buckets_lem none (some w) p v i h = ground arith
get_target_buckets_lem (some q) none p v i h = ground arith
get_target_buckets_lem (some q) (some w) p v i h = ground arith

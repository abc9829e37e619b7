-- ===== src/Pool/Matching.antt =====
-- src/pool/mod.rs: the kind of the connection that `create_connection` makes.
use netconnpool_rust.Base.{ℕ, ◌≡◌, ◌⊎◌, false, Option, some, none, arith, ok, err}
use netconnpool_rust.Config.{ConnectionType}
use netconnpool_rust.Connection
use netconnpool_rust.Connection.{Connection}
use netconnpool_rust.Errors.{Result}
use netconnpool_rust.IpVersion.{IpVersion}
use netconnpool_rust.Net.{Moment}
use netconnpool_rust.Protocol.{Protocol}
use netconnpool_rust.Pool.State.{PoolInner}
use netconnpool_rust.Pool.Create.{
  create_connection, create_dialled, create_admit, create_finish, insert_found, allocate, dial,
  Probe, free, choose_id, is_wrong_protocol, is_wrong_version,
}

-- What is asked for: nothing, anything, or the kind that the connection has.
abbrev pub IsServed : Option Protocol → Option IpVersion → Connection → Type 0
IsServed protocol ip_version c =
    ((protocol ≡ none) ⊎ (protocol ≡ some Protocol.unknown) ⊎ (protocol ≡ some c.protocol))
    × ((ip_version ≡ none)
        ⊎ (ip_version ≡ some IpVersion.unknown)
        ⊎ (ip_version ≡ some c.ip_version))

pub served_protocol :
    (protocol : Option Protocol) (p : Protocol)
    → is_wrong_protocol protocol p ≡ false
    → (protocol ≡ none) ⊎ (protocol ≡ some Protocol.unknown) ⊎ (protocol ≡ some p)
unfolding is_wrong_protocol
served_protocol none p h = ground arith
served_protocol (some q) p h = ground arith

pub served_version :
    (ip_version : Option IpVersion) (v : IpVersion)
    → is_wrong_version ip_version v ≡ false
    → (ip_version ≡ none) ⊎ (ip_version ≡ some IpVersion.unknown) ⊎ (ip_version ≡ some v)
unfolding is_wrong_version
served_version none v h = ground arith
served_version (some w) v h = ground arith

module _ {Queue : Type 0} where
  insert_found-kind :
      (m : Moment) (r s : ℕ) (found : Probe) (p : PoolInner Queue)
      → (insert_found m r found p).1 ≡ ok s
      → (s ≡ r)
        × (((insert_found m r found p).0.store r).protocol ≡ (p.store r).protocol)
        × (((insert_found m r found p).0.store r).ip_version ≡ (p.store r).ip_version)
  unfolding insert_found Connection.update_id
  insert_found-kind m r s (free id) p h = ground arith
  insert_found-kind m r s _ p h = ground arith

  pub create_finish-kind :
      (m : Moment) (r s : ℕ) (p : PoolInner Queue)
      → (create_finish m r p).1 ≡ ok s
      → (s ≡ r)
        × (((create_finish m r p).0.store r).protocol ≡ (p.store r).protocol)
        × (((create_finish m r p).0.store r).ip_version ≡ (p.store r).ip_version)
  unfolding create_finish
  create_finish-kind m r s p h =
      ground (arith, insert_found-kind m r s (choose_id (p.store r).id p.all_connections) p)

  create_finish-IsServed :
      (m : Moment) (protocol : Option Protocol) (ip_version : Option IpVersion) (r s : ℕ)
      (p : PoolInner Queue)
      → is_wrong_protocol protocol (p.store r).protocol ≡ false
      → is_wrong_version ip_version (p.store r).ip_version ≡ false
      → (create_finish m r p).1 ≡ ok s
      → IsServed protocol ip_version ((create_finish m r p).0.store s)
  create_finish-IsServed m protocol ip_version r s p right_protocol right_version h =
      let (here, same, like) = create_finish-kind m r s p h in
      rw (here, same, like)
        (served_protocol protocol _ right_protocol, served_version ip_version _ right_version)

  create_admit-IsServed :
      (m : Moment) (protocol : Option Protocol) (ip_version : Option IpVersion) (t : ConnectionType)
      (p : PoolInner Queue) (s : ℕ)
      → (create_admit m protocol ip_version t p).1 ≡ ok s
      → IsServed protocol ip_version ((create_admit m protocol ip_version t p).0.store s)
  unfolding create_admit
  create_admit-IsServed m protocol ip_version t p s h =
      let admitted = create_finish-IsServed m protocol ip_version p.next_ref s (allocate m t p) in
      ground (arith, admitted)

  create_dialled-IsServed :
      (m : Moment) (protocol : Option Protocol) (ip_version : Option IpVersion)
      (t : Result ConnectionType) (p : PoolInner Queue) (s : ℕ)
      → (create_dialled m protocol ip_version t p).1 ≡ ok s
      → IsServed protocol ip_version ((create_dialled m protocol ip_version t p).0.store s)
  unfolding create_dialled
  create_dialled-IsServed m protocol ip_version (ok t) p s h =
      create_admit-IsServed m protocol ip_version t p s h
  create_dialled-IsServed m protocol ip_version (err e) p s h = cc

  -- The connection that `create_connection` hands out has the protocol and the IP version that were
  -- asked for, unless none or `Unknown` was.
  pub create_connection-IsServed :
      (m : Moment) (protocol : Option Protocol) (ip_version : Option IpVersion)
      (p : PoolInner Queue) (s : ℕ)
      → (create_connection m protocol ip_version p).1 ≡ ok s
      → IsServed protocol ip_version ((create_connection m protocol ip_version p).0.store s)
  unfolding create_connection
  create_connection-IsServed m protocol ip_version p s h =
      ground (arith, create_dialled-IsServed m protocol ip_version (dial m protocol p.config) p s)

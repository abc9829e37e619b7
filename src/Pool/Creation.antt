-- ===== src/Pool/Creation.antt =====
-- src/pool/mod.rs: what a connection is like that `create_connection` hands out.
use netconnpool_rust.Base.{ℕ, ◌≡◌, true, false, Option, arith, ok, err}
use netconnpool_rust.Config.{ConnectionType}
use netconnpool_rust.Connection
use netconnpool_rust.Connection.{Connection}
use netconnpool_rust.Errors.{Result}
use netconnpool_rust.IpVersion.{IpVersion}
use netconnpool_rust.Net.{Moment}
use netconnpool_rust.Protocol.{Protocol}
use netconnpool_rust.Pool.State.{PoolInner}
use netconnpool_rust.Pool.Create.{
  create_connection, create_dialled, create_admit, create_finish, insert_found, allocate, dial,
  Probe, free, choose_id,
}

-- A new connection, as `create_connection` hands it out.
abbrev pub IsNew : Moment → Connection → Type 0
IsNew m c = (c.closed ≡ false) × (c.is_healthy ≡ true) × (c.created_at ≡ m.instant)

pub IsNew-fresh :
    (m : Moment) (max_lifetime : ℕ) (c : Connection)
    → IsNew m c
    → Connection.is_expired m max_lifetime c ≡ false
unfolding Connection.is_expired
IsNew-fresh m max_lifetime c h = ground arith

module _ {Queue : Type 0} where
  insert_found-conn :
      (m : Moment) (r s : ℕ) (found : Probe) (p : PoolInner Queue)
      → (insert_found m r found p).1 ≡ ok s
      → (s ≡ r)
        × (((insert_found m r found p).0.store r).closed ≡ (p.store r).closed)
        × (((insert_found m r found p).0.store r).is_healthy ≡ (p.store r).is_healthy)
        × (((insert_found m r found p).0.store r).created_at ≡ (p.store r).created_at)
  unfolding insert_found Connection.update_id
  insert_found-conn m r s (free id) p h = ground arith
  insert_found-conn m r s _ p h = ground arith

  create_finish-conn :
      (m : Moment) (r s : ℕ) (p : PoolInner Queue)
      → (create_finish m r p).1 ≡ ok s
      → (s ≡ r)
        × (((create_finish m r p).0.store r).closed ≡ (p.store r).closed)
        × (((create_finish m r p).0.store r).is_healthy ≡ (p.store r).is_healthy)
        × (((create_finish m r p).0.store r).created_at ≡ (p.store r).created_at)
  unfolding create_finish
  create_finish-conn m r s p h =
      ground (arith, insert_found-conn m r s (choose_id (p.store r).id p.all_connections) p)

  allocate-conn :
      (m : Moment) (t : ConnectionType) (p : PoolInner Queue)
      → (((allocate m t p).store p.next_ref).closed ≡ false)
        × (((allocate m t p).store p.next_ref).is_healthy ≡ true)
        × (((allocate m t p).store p.next_ref).created_at ≡ m.instant)
  unfolding allocate Connection.new
  allocate-conn m t p = ground arith

  create_admit-IsNew :
      (m : Moment) (protocol : Option Protocol) (ip_version : Option IpVersion) (t : ConnectionType)
      (p : PoolInner Queue) (s : ℕ)
      → (create_admit m protocol ip_version t p).1 ≡ ok s
      → IsNew m ((create_admit m protocol ip_version t p).0.store s)
  unfolding create_admit
  create_admit-IsNew m protocol ip_version t p s h =
      ground (arith, allocate-conn m t p, create_finish-conn m p.next_ref s (allocate m t p))

  create_dialled-IsNew :
      (m : Moment) (protocol : Option Protocol) (ip_version : Option IpVersion)
      (t : Result ConnectionType) (p : PoolInner Queue) (s : ℕ)
      → (create_dialled m protocol ip_version t p).1 ≡ ok s
      → IsNew m ((create_dialled m protocol ip_version t p).0.store s)
  unfolding create_dialled
  create_dialled-IsNew m protocol ip_version (ok t) p s h =
      create_admit-IsNew m protocol ip_version t p s h
  create_dialled-IsNew m protocol ip_version (err e) p s h = cc

  pub create_connection-IsNew :
      (m : Moment) (protocol : Option Protocol) (ip_version : Option IpVersion)
      (p : PoolInner Queue) (s : ℕ)
      → (create_connection m protocol ip_version p).1 ≡ ok s
      → IsNew m ((create_connection m protocol ip_version p).0.store s)
  unfolding create_connection
  create_connection-IsNew m protocol ip_version p s h =
      ground (arith, create_dialled-IsNew m protocol ip_version (dial m protocol p.config) p s)

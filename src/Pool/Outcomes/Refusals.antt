-- ===== src/Pool/Outcomes/Refusals.antt =====
-- src/pool/mod.rs: the errors of `create_connection`, which are none of those that `get_connection` makes
-- itself.
use netconnpool_rust.Base.{ℕ, ◌≡◌, Bool, true, false, Option, arith, ok, err}
use netconnpool_rust.Config.{Config, ConnectionType}
use netconnpool_rust.Errors.{
  Result, NetConnPoolError, pool_closed, pool_exhausted, get_connection_timeout,
}
use netconnpool_rust.IpVersion.{IpVersion}
use netconnpool_rust.Net.{Moment, set_nonblocking}
use netconnpool_rust.Protocol.{Protocol}
use netconnpool_rust.Pool.State.{PoolInner}
use netconnpool_rust.Pool.Create.{
  Probe, choose_id, allocate, insert_found, create_finish, create_admit, create_dialled,
  create_connection, create_check, dial,
}

abbrev pub is_of_get : NetConnPoolError → Bool
is_of_get pool_closed = true
is_of_get (pool_exhausted _ _) = true
is_of_get (get_connection_timeout _ _) = true
is_of_get _ = false

abbrev pub IsRefusal : {A : Type 0} → Result A → Type 0
IsRefusal {A} result = (e : NetConnPoolError) → result ≡ err e → is_of_get e ≡ false

dial-IsRefusal :
    (m : Moment) (protocol : Option Protocol) (config : Config) → IsRefusal (dial m protocol config)
unfolding dial set_nonblocking
dial-IsRefusal m protocol config e h = ground arith

module _ {Queue : Type 0} where
  insert_found-IsRefusal :
      (m : Moment) (r : ℕ) (found : Probe) (p : PoolInner Queue)
      → IsRefusal (insert_found m r found p).1
  unfolding insert_found
  insert_found-IsRefusal m r found p e h = ground arith

  create_admit-IsRefusal :
      (m : Moment) (protocol : Option Protocol) (ip_version : Option IpVersion) (t : ConnectionType)
      (p : PoolInner Queue)
      → IsRefusal (create_admit m protocol ip_version t p).1
  unfolding create_admit create_finish
  create_admit-IsRefusal m protocol ip_version t p e h =
      let q = allocate m t p in
      ground (
        arith,
        insert_found-IsRefusal m p.next_ref (choose_id (q.store p.next_ref).id q.all_connections) q
            e,
      )

  create_dialled-IsRefusal :
      (m : Moment) (protocol : Option Protocol) (ip_version : Option IpVersion)
      (t : Result ConnectionType) (p : PoolInner Queue)
      → IsRefusal t
      → IsRefusal (create_dialled m protocol ip_version t p).1
  unfolding create_dialled
  create_dialled-IsRefusal m protocol ip_version (ok t) p told e h =
      create_admit-IsRefusal m protocol ip_version t p e h
  create_dialled-IsRefusal m protocol ip_version (err x) p told e h = told e (ground (arith, h))

  pub create_connection-IsRefusal :
      (m : Moment) (protocol : Option Protocol) (ip_version : Option IpVersion)
      (p : PoolInner Queue)
      → IsRefusal (create_connection m protocol ip_version p).1
  unfolding create_connection create_check
  create_connection-IsRefusal m protocol ip_version p e h =
      let dialled =
        create_dialled-IsRefusal m protocol ip_version (dial m protocol p.config) p
          (dial-IsRefusal m protocol p.config) e in
      ground (arith, dialled)

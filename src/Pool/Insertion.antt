-- ===== src/Pool/Insertion.antt =====
-- src/pool/mod.rs: how `create_connection` puts a connection into the map.
use netconnpool_rust.Base.{
  ℕ, zero, suc, ◌≡◌, refl, false, Option, List, ◌∷◌, arith, ok, err, length,
}
use netconnpool_rust.Config.{ConnectionType}
use netconnpool_rust.Connection
use netconnpool_rust.Connection.{Connection}
use netconnpool_rust.Errors.{Result}
use netconnpool_rust.IpVersion.{IpVersion}
use netconnpool_rust.Net.{Moment}
use netconnpool_rust.Protocol.{Protocol}
use netconnpool_rust.Pool.State.{PoolInner, contains_key}
use netconnpool_rust.Pool.Create.{
  create_connection, create_dialled, create_admit, create_finish, insert_found, allocate, dial,
  Probe, free, choose_id, probe, next_key,
}

probe_free :
    (fuel own k id : ℕ) (entries : List (ℕ × ℕ))
    → probe fuel own k entries ≡ free id
    → contains_key entries id ≡ false
unfolding probe
probe_free zero own k id entries h = cc
probe_free (suc fuel) own k id entries h =
    ground (arith, probe_free fuel own (next_key k) id entries)

-- The id that the search chooses is not in the map.
choose_id_free :
    (own id : ℕ) (entries : List (ℕ × ℕ))
    → choose_id own entries ≡ free id
    → contains_key entries id ≡ false
unfolding choose_id
choose_id_free own id entries h =
    ground (arith, probe_free (suc (length entries)) own own id entries)

module _ {Queue : Type 0} where
  -- The map has one more entry, at the connection's own id, which was free.
  abbrev pub IsInserted : ℕ → PoolInner Queue → PoolInner Queue → Type 0
  IsInserted s p q =
      (q.all_connections ≡ ((q.store s).id, s) ∷ p.all_connections)
      × (contains_key p.all_connections (q.store s).id ≡ false)

  insert_found-IsInserted :
      (m : Moment) (r s : ℕ) (found : Probe) (p : PoolInner Queue)
      → ((id : ℕ) → found ≡ free id → contains_key p.all_connections id ≡ false)
      → (insert_found m r found p).1 ≡ ok s
      → IsInserted s p (insert_found m r found p).0
  unfolding insert_found Connection.update_id
  insert_found-IsInserted m r s (free id) p absent h = ground (arith, absent id refl)
  insert_found-IsInserted m r s _ p absent h = ground arith

  create_finish-IsInserted :
      (m : Moment) (r s : ℕ) (p : PoolInner Queue)
      → (create_finish m r p).1 ≡ ok s
      → IsInserted s p (create_finish m r p).0
  unfolding create_finish
  create_finish-IsInserted m r s p h =
      let own = (p.store r).id in
      let inserted =
        insert_found-IsInserted m r s (choose_id own p.all_connections) p
          (λ id. choose_id_free own id p.all_connections) in
      ground (arith, inserted)

  pub create_admit-IsInserted :
      (m : Moment) (protocol : Option Protocol) (ip_version : Option IpVersion) (t : ConnectionType)
      (p : PoolInner Queue) (s : ℕ)
      → (create_admit m protocol ip_version t p).1 ≡ ok s
      → IsInserted s p (create_admit m protocol ip_version t p).0
  unfolding create_admit allocate
  create_admit-IsInserted m protocol ip_version t p s h =
      ground (arith, create_finish-IsInserted m p.next_ref s (allocate m t p))

  create_dialled-IsInserted :
      (m : Moment) (protocol : Option Protocol) (ip_version : Option IpVersion)
      (t : Result ConnectionType) (p : PoolInner Queue) (s : ℕ)
      → (create_dialled m protocol ip_version t p).1 ≡ ok s
      → IsInserted s p (create_dialled m protocol ip_version t p).0
  unfolding create_dialled
  create_dialled-IsInserted m protocol ip_version (ok t) p s h =
      create_admit-IsInserted m protocol ip_version t p s h
  create_dialled-IsInserted m protocol ip_version (err e) p s h = cc

  -- The connection that `create_connection` hands out is the one new entry of the map, at its own id,
  -- which no entry had before.
  pub create_connection-IsInserted :
      (m : Moment) (protocol : Option Protocol) (ip_version : Option IpVersion)
      (p : PoolInner Queue) (s : ℕ)
      → (create_connection m protocol ip_version p).1 ≡ ok s
      → IsInserted s p (create_connection m protocol ip_version p).0
  unfolding create_connection
  create_connection-IsInserted m protocol ip_version p s h =
      ground (arith, create_dialled-IsInserted m protocol ip_version (dial m protocol p.config) p s)

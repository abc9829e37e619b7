-- ===== src/Pool/Prewarm/Creating.antt =====
-- src/pool/mod.rs: a `create_connection` that succeeds, and the parking of the connection after it.
use netconnpool_rust.Base.{ℕ, ◌+◌, ◌^◌, ◌<◌, ◌≡◌, refl, ap, ◌∙◌, false, none, arith, length, ok}
use netconnpool_rust.Config.{ConnectionType}
use netconnpool_rust.Connection
use netconnpool_rust.Net.{Moment}
use netconnpool_rust.Pool.State.{PoolInner}
use netconnpool_rust.Pool.Create.{
  create_connection, create_check, create_dialled, create_admit, create_finish, insert_found,
  allocate, dial, is_full, Probe, free, choose_id, is_wrong_protocol, is_wrong_version,
}
use netconnpool_rust.Pool.Frame.{close_connection-Keeps}
use netconnpool_rust.Pool.Insertion.{create_connection-IsInserted}
use netconnpool_rust.Pool.Matching.{create_finish-kind}
use netconnpool_rust.Pool.Progress.{IsRight, create_connection-succeeds}
use netconnpool_rust.Pool.Remove.{close_connection}

module _ {Queue : Type 0} where
  -- The configuration, the counters of the buckets and the flag are as before.
  pub record Leaves (p q : PoolInner Queue) : Type 0 where
    pub config : q.config ≡ p.config
    pub idle_counts : q.idle_counts ≡ p.idle_counts
    pub closed : q.closed ≡ p.closed

  close_connection-Leaves :
      (m : Moment) (r : ℕ) (p : PoolInner Queue) → Leaves p (close_connection m r p)
  close_connection-Leaves m r p =
      let keeps = close_connection-Keeps m r p in
      record { config = keeps.config; idle_counts = keeps.idle_counts; closed = keeps.closed }

  insert_found-Leaves :
      (m : Moment) (r : ℕ) (found : Probe) (p : PoolInner Queue)
      → Leaves p (insert_found m r found p).0
  unfolding insert_found
  insert_found-Leaves m r (free id) p = record { config = refl; idle_counts = refl; closed = refl }
  insert_found-Leaves m r _ p = close_connection-Leaves m r p

  create_finish-Leaves :
      (m : Moment) (r : ℕ) (p : PoolInner Queue) → Leaves p (create_finish m r p).0
  unfolding create_finish
  create_finish-Leaves m r p = ground (
    arith,
    close_connection-Leaves m r p,
    insert_found-Leaves m r (choose_id (p.store r).id p.all_connections) p,
  )

  -- What a connection of `t` that was asked for without a kind is like when it is created.
  create_admit-any :
      (m : Moment) (t : ConnectionType) (p : PoolInner Queue)
      → (create_admit m none none t p).1 ≡ ok p.next_ref
      → let q = (create_admit m none none t p).0 in
        Leaves p q
        × ((q.store p.next_ref).protocol ≡ (Connection.new m 0 t none).protocol)
        × ((q.store p.next_ref).ip_version ≡ (Connection.new m 0 t none).ip_version)
  unfolding create_admit allocate is_wrong_protocol is_wrong_version Connection.new
  create_admit-any m t p made =
      let a = allocate m t p in
      let leaves = create_finish-Leaves m p.next_ref a in
      let (_, protocol, ip_version) = create_finish-kind m p.next_ref p.next_ref a made in
      (
        record { config = leaves.config; idle_counts = leaves.idle_counts; closed = leaves.closed },
        protocol ∙ ground arith,
        ip_version ∙ ground arith,
      )

  -- A creation that succeeds.
  pub create_connection-any :
      (m : Moment) (t : ConnectionType) (p : PoolInner Queue)
      → dial m none p.config ≡ ok t
      → is_full p.config (length p.all_connections) ≡ false
      → length p.all_connections + 3 < 2 ^ 64
      → let (q, made) = create_connection m none none p in
        (made ≡ ok p.next_ref)
        × Leaves p q
        × ((q.store p.next_ref).protocol ≡ (Connection.new m 0 t none).protocol)
        × ((q.store p.next_ref).ip_version ≡ (Connection.new m 0 t none).ip_version)
        × (length q.all_connections ≡ length p.all_connections + 1)
  unfolding create_connection create_check create_dialled
  create_connection-any m t p dialled room few =
      let right : IsRight m none none t =
        unfold is_wrong_protocol is_wrong_version in (refl, refl) in
      let made = create_connection-succeeds m none none t p dialled right room few in
      let inserted = (create_connection-IsInserted m none none p p.next_ref made).0 in
      let admitted : (create_admit m none none t p).1 ≡ ok p.next_ref =
        ground (arith, made, dialled, room) in
      let (leaves, protocol, ip_version) = create_admit-any m t p admitted in
      (
        made,
        ground (arith, dialled, room, leaves),
        ground (arith, dialled, room, protocol),
        ground (arith, dialled, room, ip_version),
        ap length inserted ∙ omega arith,
      )

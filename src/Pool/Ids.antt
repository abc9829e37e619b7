-- ===== src/Pool/Ids.antt =====
-- src/connection.rs: the ids that `Connection::new` gives, one connection after the other.
use netconnpool_rust.Base.{
  ℕ, zero, suc, ◌+◌, ◌≤◌, ◌<◌, ◌≡◌, refl, ap, subst, ◌∙◌, List, [], ◌∷◌, arith, length,
}
use netconnpool_rust.Config.{ConnectionType}
use netconnpool_rust.Connection
use netconnpool_rust.Net.{Moment, u64_max}
use netconnpool_rust.Pool.State.{PoolInner}
use netconnpool_rust.Pool.Create.{allocate}

module _ {Queue : Type 0} where
  -- The allocations of a sequence of dialled connections.
  allocate_all : List (Moment × ConnectionType) → PoolInner Queue → PoolInner Queue
  allocate_all [] p = p
  allocate_all ((m, t) ∷ rest) p = allocate_all rest (allocate m t p)

  pub allocate_next :
      (m : Moment) (t : ConnectionType) (p : PoolInner Queue)
      → p.generator < u64_max
      → (((allocate m t p).store p.next_ref).id ≡ p.generator + 1)
        × ((allocate m t p).generator ≡ p.generator + 1)
        × ((allocate m t p).next_ref ≡ p.next_ref + 1)
  unfolding allocate Connection.new Connection.next_id
  allocate_next m t p h = ground arith

  allocate_below :
      (m : Moment) (t : ConnectionType) (p : PoolInner Queue) (j : ℕ)
      → j < p.next_ref
      → ((allocate m t p).store j ≡ p.store j) × (j < (allocate m t p).next_ref)
  unfolding allocate
  allocate_below m t p j h = ground arith

  allocate_all_below :
      (conns : List (Moment × ConnectionType)) (p : PoolInner Queue) (j : ℕ)
      → j < p.next_ref
      → (allocate_all conns p).store j ≡ p.store j
  unfolding allocate_all
  allocate_all_below [] p j h = refl
  allocate_all_below ((m, t) ∷ rest) p j h =
      let (same, below) = allocate_below m t p j h in
      allocate_all_below rest (allocate m t p) j below ∙ same

  -- Until the generator is at its end, the connections that are allocated one after the other get
  -- consecutive ids, from the one after the generator's value.
  allocate_all-ids :
      (conns : List (Moment × ConnectionType)) (p : PoolInner Queue) (k : ℕ)
      → p.generator + length conns ≤ u64_max
      → k < length conns
      → ((allocate_all conns p).store (p.next_ref + k)).id ≡ p.generator + k + 1
  unfolding allocate_all
  allocate_all-ids [] p k few h = absurd (omega arith)
  allocate_all-ids ((m, t) ∷ rest) p zero few h =
      let (id, _, next) = allocate_next m t p (omega arith) in
      let kept = allocate_all_below rest (allocate m t p) p.next_ref (omega (arith, next)) in
      ground (arith, ap (λ c. c.id) kept, id)
  allocate_all-ids ((m, t) ∷ rest) p (suc k) few h =
      let (_, generator, next) = allocate_next m t p (omega arith) in
      let ih = allocate_all-ids rest (allocate m t p) k (omega (arith, generator)) (omega arith) in
      let place : (allocate m t p).next_ref + k ≡ p.next_ref + suc k = omega (arith, next) in
      subst (λ j. ((allocate_all rest (allocate m t p)).store j).id ≡ p.generator + suc k + 1) place
        (ih ∙ omega (arith, generator))

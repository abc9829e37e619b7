-- ===== src/Pool/Bends.antt =====
-- src/pool/mod.rs: what every change that the handlers make to an allocated connection, its marks
-- included, has in common, from handler to handler.
pub mod Steps
use netconnpool_rust.Base.{
  ℕ, ◌≡◌, refl, Bool, true, false, List, [], ◌∷◌, arith, Option-cases, Bool-cases, inl, inr,
  if◌then◌else◌,
}
use netconnpool_rust.Connection
use netconnpool_rust.Connection.{Connection}
use netconnpool_rust.Connection.Evolution.{
  Evolves, Evolves-trans, mark_in_use-Evolves, mark_idle-Evolves, try_mark_idle-Evolves,
  increment_reuse_count-Evolves,
}
use netconnpool_rust.Net.{Moment}
use netconnpool_rust.SegQueue.{SegQueue}
use netconnpool_rust.Stats.{StatsInternal}
use netconnpool_rust.Pool.State.{PoolInner, set_conn, count}
use netconnpool_rust.Pool.Remove.{release_active, remove_connection}
use netconnpool_rust.Pool.Idle.{add_idle_connection}
use netconnpool_rust.Pool.Get.{clear_buffer, lend, take_idle, borrow_idle}
use netconnpool_rust.Pool.Follows.{Follows, if-Follows, clear_buffer-Follows}
use netconnpool_rust.Pool.Follows.Queues.{park-Follows, take_idle-Follows}

-- A relation between a pool and a later one that does not look at the marks or at what counts them.
pub record Bends {Queue : Type 0} (R : PoolInner Queue → PoolInner Queue → Type 0) : Type 0 where
  pub reflects : (p : PoolInner Queue) → R p p
  pub chains : {p q s : PoolInner Queue} → R p q → R q s → R p s
  -- A change of other fields than these.
  pub alike :
      {p q : PoolInner Queue}
      → q.store ≡ p.store
      → q.next_ref ≡ p.next_ref
      → q.all_connections ≡ p.all_connections
      → q.generator ≡ p.generator
      → R p q
  -- A change of a connection.
  pub bends :
      (r : ℕ) (c : Connection) (p : PoolInner Queue) → Evolves (p.store r) c → R p (set_conn r c p)
  pub removes : (m : Moment) (r : ℕ) (p : PoolInner Queue) → R p (remove_connection m r p)

lent-Evolves :
    (m : Moment) (is_reused : Bool) (c : Connection)
    → Evolves c (
        if is_reused
        then Connection.increment_reuse_count (Connection.mark_in_use m c)
        else Connection.mark_in_use m c)
lent-Evolves m true c =
    Evolves-trans (mark_in_use-Evolves m c)
      (increment_reuse_count-Evolves (Connection.mark_in_use m c))
lent-Evolves m false c = mark_in_use-Evolves m c

module _ {Queue : Type 0} where
  lend-same :
      (m : Moment) (start : ℕ) (is_reused : Bool) (r : ℕ) (p : PoolInner Queue)
      → let c =
          if is_reused
          then Connection.increment_reuse_count (Connection.mark_in_use m (p.store r))
          else Connection.mark_in_use m (p.store r) in
        ((lend m start is_reused r p).store ≡ (set_conn r c p).store)
        × ((lend m start is_reused r p).next_ref ≡ p.next_ref)
        × ((lend m start is_reused r p).all_connections ≡ p.all_connections)
        × ((lend m start is_reused r p).generator ≡ p.generator)
  unfolding lend
  lend-same m start is_reused r p = ground arith

  pub release_active-same :
      (m : Moment) (r : ℕ) (p : PoolInner Queue)
      → let c = (Connection.try_mark_idle m (p.store r)).0 in
        ((release_active m r p).store ≡ (set_conn r c p).store)
        × ((release_active m r p).next_ref ≡ p.next_ref)
        × ((release_active m r p).all_connections ≡ p.all_connections)
        × ((release_active m r p).generator ≡ p.generator)
  unfolding release_active
  release_active-same m r p = ground arith

module _ {Queue : Type 0} {R : PoolInner Queue → PoolInner Queue → Type 0} (t : Bends R) where
  pub release_active-Bends : (m : Moment) (r : ℕ) (p : PoolInner Queue) → R p (release_active m r p)
  release_active-Bends m r p =
      let (store, next, all, generator) = release_active-same m r p in
      t.chains (t.bends r _ p (try_mark_idle-Evolves m (p.store r)))
        (t.alike store next all generator)

  pub Bends-Follows : Follows R
  Bends-Follows = record {
    reflects = t.reflects;
    chains = t.chains;
    same = λ store next all active generator. t.alike store next all generator;
    evolves = λ r c p e mark. t.bends r c p e;
    releases = release_active-Bends;
    removes = t.removes;
  }

  pub count-Bends : (f : StatsInternal → StatsInternal) (p : PoolInner Queue) → R p (count f p)
  count-Bends f p = t.alike refl refl refl refl

  pub lend-Bends :
      (m : Moment) (start : ℕ) (is_reused : Bool) (r : ℕ) (p : PoolInner Queue)
      → R p (lend m start is_reused r p)
  lend-Bends m start is_reused r p =
      let (store, next, all, generator) = lend-same m start is_reused r p in
      t.chains (t.bends r _ p (lent-Evolves m is_reused (p.store r)))
        (t.alike store next all generator)

module _ {Queue : Type 0} ⦃sq : SegQueue ℕ Queue⦄ {R : PoolInner Queue → PoolInner Queue → Type 0}
    (t : Bends R) where
  pub add_idle_connection-Bends :
      (m : Moment) (r : ℕ) (p : PoolInner Queue) → R p (add_idle_connection m r p)
  unfolding add_idle_connection
  add_idle_connection-Bends m r p = if-Follows (Bends-Follows t) p.closed (t.removes m r p) (
      t.chains (t.bends r _ p (mark_idle-Evolves m (p.store r)))
        (park-Follows (Bends-Follows t) m r _))

  pub borrow_idle-Bends :
      (m : Moment) (start : ℕ) (indices : List ℕ) (p : PoolInner Queue)
      → R p (borrow_idle m start indices p).0
  unfolding borrow_idle
  borrow_idle-Bends m start [] p = t.reflects p
  borrow_idle-Bends m start (idx ∷ indices) p =
      elim (Option-cases (sq.pop (p.idle_connections idx))) [
        | inl e ↦ simp (e, borrow_idle) (borrow_idle-Bends m start indices p)
        | inr ((r, rest), e) ↦
            let taken = take_idle idx r rest p in
            let took = take_idle-Follows (Bends-Follows t) idx r rest p in
            let lent = t.chains took (
              t.chains (clear_buffer-Follows (Bends-Follows t) m r taken)
                (lend-Bends t m start true r (clear_buffer m r taken))) in
            let removed = t.chains took (
              t.chains (t.removes m r taken)
                (borrow_idle-Bends m start indices (remove_connection m r taken))) in
            simp (e, borrow_idle) (ground (arith, lent, removed))
      ]

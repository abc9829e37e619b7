-- ===== src/Pool/Owners/Moving.antt =====
-- src/pool/mod.rs: how the steps of a pool's threads move its connections between threads and queues.
use netconnpool_rust.Base.{
  ℕ, zero, suc, ◌+◌, ◌≤◌, ◌<◌, ◌≡◌, ◌∙◌, some, [], ◌∷◌, arith, times, inl, inr, ◌⊎◌,
}
use netconnpool_rust.SegQueue.{SegQueue}
use netconnpool_rust.Pool.State.{PoolInner}
use netconnpool_rust.Pool.Owners.{World}
use netconnpool_rust.Pool.Queued.{times_at, queued}
use netconnpool_rust.Pool.Removal.{IsIndexed}
use netconnpool_rust.Pool.Sorting.{bucket_of}
use netconnpool_rust.Pool.Store.{Grows}

module _ {Queue : Type 0} ⦃sq : SegQueue ℕ Queue⦄ where
  -- How many hands and places in the queues have a connection.
  abbrev pub owners : ℕ → World Queue → ℕ
  owners s w = times s w.held + queued s w.pool

  -- Every connection has one owner at most, and an allocated one; those in a queue are of its kind; the
  -- map is in order.
  pub record IsOwned (w : World Queue) : Type 0 where
    pub indexed : IsIndexed w.pool
    pub once : (s : ℕ) → owners s w ≤ 1
    pub fresh : (s : ℕ) → w.pool.next_ref ≤ s → owners s w ≡ 0
    pub sorted : (s i : ℕ) → i < 4 → 0 < times_at s i w.pool → bucket_of (w.pool.store s) ≡ some i

  -- One connection at most comes from nowhere, into a place that was free.
  pub record Moves (w v : World Queue) : Type 0 where
    pub grows : Grows w.pool v.pool
    pub indexed : IsIndexed w.pool → IsIndexed v.pool
    pub tally :
        ((s : ℕ) → owners s v ≤ owners s w)
        ⊎ ((r : ℕ) × (w.pool.next_ref ≤ r)
            × (r < v.pool.next_ref)
            × ((s : ℕ) → owners s v ≤ owners s w + times s (r ∷ [])))
    pub sorted :
        (s i : ℕ)
        → i < 4
        → 0 < times_at s i v.pool
        → (0 < times_at s i w.pool) ⊎ (bucket_of (v.pool.store s) ≡ some i)

  times_at-le : (s i : ℕ) (p : PoolInner Queue) → i < 4 → times_at s i p ≤ queued s p
  times_at-le s zero p h = omega arith
  times_at-le s (suc zero) p h = omega arith
  times_at-le s (suc (suc zero)) p h = omega arith
  times_at-le s (suc (suc (suc zero))) p h = omega arith
  times_at-le s (suc (suc (suc (suc i)))) p h = absurd (omega arith)

  pub allocated_of_held :
      (w : World Queue) (s : ℕ) → IsOwned w → 0 < times s w.held → s < w.pool.next_ref
  allocated_of_held w s o h = grind (arith, o.fresh s)

  pub allocated_of_queued :
      (w : World Queue) (s i : ℕ)
      → IsOwned w
      → i < 4
      → 0 < times_at s i w.pool
      → s < w.pool.next_ref
  allocated_of_queued w s i o low h = grind (arith, o.fresh s, times_at-le s i w.pool low)

  pub kept_bucket :
      (p q : PoolInner Queue) (s : ℕ)
      → Grows p q
      → s < p.next_ref
      → bucket_of (q.store s) ≡ bucket_of (p.store s)
  kept_bucket p q s g h = let e = g.conn s h in cc (e.protocol, e.ip_version)

  pub Moves-IsOwned : {w v : World Queue} → Moves w v → IsOwned w → IsOwned v
  Moves-IsOwned {w} {v} h o = record {
    indexed = h.indexed o.indexed;
    once = λ s. elim h.tally [
      | inl fewer ↦ omega (arith, fewer s, o.once s)
      | inr (r, new, _, more) ↦ ground (arith, more s, o.once s, o.fresh r new)
    ];
    fresh = λ s unused. elim h.tally [
      | inl fewer ↦ omega (arith, fewer s, o.fresh s (omega (arith, h.grows.next_ref)))
      | inr (r, new, taken, more) ↦
          let before = o.fresh s (omega (arith, h.grows.next_ref)) in
          ground (arith, more s, before, taken, unused)
    ];
    sorted = λ s i low stands. elim (h.sorted s i low stands) [
      | inl stood ↦
          kept_bucket w.pool v.pool s h.grows (allocated_of_queued w s i o low stood)
          ∙ o.sorted s i low stood
      | inr there ↦ there
    ];
  }

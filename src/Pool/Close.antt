-- ===== src/Pool/Close.antt =====
-- src/pool/mod.rs: `close`.
use netconnpool_rust.Base.{
  ℕ, zero, suc, ◌+◌, true, false, none, some, List, [], ◌∷◌, ◌++◌, ltb, ◌==◌, ◌&&◌, length, take,
  is_empty, update, if◌then◌else◌,
}
use netconnpool_rust.Net.{Moment}
use netconnpool_rust.SegQueue.{SegQueue}
use netconnpool_rust.Pool.State.{
  PoolInner, notify_all, count, log, values, update_stats_on_idle_pop,
}
use netconnpool_rust.Pool.Remove.{remove_connection}
use netconnpool_rust.Pool.Cleanup.{remove_all}
use netconnpool_rust.Pool.Get.{Turn}

abbrev batch_size : ℕ
batch_size = 10

module _ {Queue : Type 0} where
  -- `connections.values().take(10).cloned().collect()`.
  unfoldable pub next_batch : PoolInner Queue → List ℕ
  next_batch p = take batch_size (values p.all_connections)

  -- The last loop, batch by batch, on fuel.
  unfoldable pub remove_batches : (fuel : ℕ) → Moment → PoolInner Queue → PoolInner Queue
  remove_batches zero m p = p
  remove_batches (suc fuel) m p =
      let rest = remove_batches fuel m (remove_all m (next_batch p) p) in
      if is_empty (next_batch p) then p else rest

  -- The last part: every connection that is still in the map.
  unfoldable pub close_rest : Moment → PoolInner Queue → PoolInner Queue
  close_rest m p = remove_batches (length p.all_connections + 1) m p

module _ {Queue : Type 0} ⦃sq : SegQueue ℕ Queue⦄ where
  -- `while let Some(conn) = idle.pop()`, on fuel: what was popped, and the queue that is left.
  unfoldable pub drain : (fuel : ℕ) → Queue → List ℕ × Queue
  drain zero q = ([], q)
  drain (suc fuel) q = elim (sq.pop q) [
    | none ↦ ([], q)
    | some (r, rest) ↦ let (refs, left) = drain fuel rest in (r ∷ refs, left)
  ]

  -- The loop over the buckets from `idx` on: `idle_conns`, and the queues and counters emptied.
  unfoldable pub drain_buckets : (buckets idx : ℕ) → PoolInner Queue → List ℕ × PoolInner Queue
  drain_buckets zero idx p = ([], p)
  drain_buckets (suc buckets) idx p =
      let q = p.idle_connections idx in
      let (refs, left) = drain (suc (length (sq.to_list q))) q in
      let (more, emptied) = drain_buckets buckets (idx + 1) (record p {
        idle_connections = update p.idle_connections idx left;
        idle_counts = update p.idle_counts idx 0;
      }) in
      (refs ++ more, emptied)

  unfoldable pub remove_drained : Moment → List ℕ → PoolInner Queue → PoolInner Queue
  remove_drained m [] p = p
  remove_drained m (r ∷ refs) p =
      remove_drained m refs (remove_connection m r (count (update_stats_on_idle_pop (p.store r)) p))

  -- The wait for the active connections, until the deadline; it ends with the turns at the latest.
  unfoldable pub wait_for_active :
      (deadline : ℕ) → List (Turn Queue) → PoolInner Queue → PoolInner Queue
  wait_for_active deadline [] p = p
  wait_for_active deadline (turn ∷ turns) p =
      elim (ltb 0 p.active_count && ltb turn.moment.instant deadline) [
        | true ↦ wait_for_active deadline turns (turn.others p)
        | false ↦ p
      ]

  -- The first part of `close`, where it is the first call: the flag, the wake-up and the idle
  -- connections.
  unfoldable pub close_idle : Moment → PoolInner Queue → PoolInner Queue
  close_idle m p =
      let (idle_conns, drained) = drain_buckets 4 0 (log notify_all (record p { closed = true })) in
      remove_drained m idle_conns drained

  -- `PoolInner::close`, from `first` to `last`.
  unfoldable pub close :
      (first last : Moment) → List (Turn Queue) → PoolInner Queue → PoolInner Queue
  close first last turns p =
      let removed = close_idle first p in
      let budget = p.config.connection_leak_timeout in
      let waited =
        if budget == 0 then removed else wait_for_active (first.instant + budget) turns removed in
      if p.closed then p else close_rest last waited

-- ===== src/Pool/Bounds/Closing.antt =====
-- src/pool/mod.rs: the limits of a pool through `close`, and the draining of a queue.
use netconnpool_rust.Base.{
  ℕ, zero, suc, ◌+◌, ◌<◌, ◌≡◌, ap, ◌∙◌, true, List, [], ◌∷◌, arith, length, Option-cases, inl, inr,
  update, is_empty,
}
use netconnpool_rust.Net.{Moment}
use netconnpool_rust.SegQueue.{SegQueue, unpop}
use netconnpool_rust.Pool.State.{PoolInner, notify_all, log, count, update_stats_on_idle_pop}
use netconnpool_rust.Pool.Remove.{remove_connection}
use netconnpool_rust.Pool.Cleanup.{remove_all}
use netconnpool_rust.Pool.Close.{
  drain, drain_buckets, remove_drained, remove_batches, next_batch, close_idle, close_rest,
}
use netconnpool_rust.Pool.Frame.{
  Keeps, if-Keeps, count-Keeps, Keeps-refl, Keeps-trans, remove_connection-Keeps, remove_all-Keeps,
}
use netconnpool_rust.Pool.Bounds.Invariant.{IsBounded, Keeps-IsBounded}

module _ {Queue : Type 0} ⦃sq : SegQueue ℕ Queue⦄ where
  -- With as much fuel as the queue is long, the loop pops everything, in order.
  pub drain_lem :
      (fuel : ℕ) (q : Queue)
      → length (sq.to_list q) < fuel
      → ((drain fuel q).0 ≡ sq.to_list q) × (sq.to_list (drain fuel q).1 ≡ [])
  unfolding drain
  drain_lem zero q h = elim h [ ]
  drain_lem (suc fuel) q h = elim (Option-cases (sq.pop q)) [
    | inl e ↦
        let empty : sq.to_list q ≡ [] = sq.to_list-pop q ∙ ap (unpop sq.to_list) e in ground arith
    | inr ((r, rest), e) ↦
        let split : sq.to_list q ≡ r ∷ sq.to_list rest =
          sq.to_list-pop q ∙ ap (unpop sq.to_list) e in
        let ih = drain_lem fuel rest (omega (arith, ap length split)) in ground arith
  ]

  pub drain_buckets-IsBounded :
      (buckets idx : ℕ) (p : PoolInner Queue)
      → IsBounded p
      → IsBounded (drain_buckets buckets idx p).1
  unfolding drain_buckets
  drain_buckets-IsBounded zero idx p b = b
  drain_buckets-IsBounded (suc buckets) idx p b =
      let q = p.idle_connections idx in
      let left = (drain (suc (length (sq.to_list q))) q).1 in
      let empty = (drain_lem (suc (length (sq.to_list q))) q (omega arith)).1 in
      drain_buckets-IsBounded buckets (idx + 1)
        (record p {
          idle_connections = update p.idle_connections idx left;
          idle_counts = update p.idle_counts idx 0;
        })
        (record {
          within = b.within;
          counted = λ i. ground (arith, empty, b.counted i);
          limited = λ i. ground (arith, b.limited i);
          word = b.word;
        })

  pub remove_drained-Keeps :
      (m : Moment) (refs : List ℕ) (p : PoolInner Queue) → Keeps p (remove_drained m refs p)
  unfolding remove_drained
  remove_drained-Keeps m [] p = Keeps-refl p
  remove_drained-Keeps m (r ∷ refs) p =
      let counted = count (update_stats_on_idle_pop (p.store r)) p in
      let removed : Keeps p (remove_connection m r counted) =
        Keeps-trans (count-Keeps (update_stats_on_idle_pop (p.store r)) p)
          (remove_connection-Keeps m r counted) in
      Keeps-trans removed (remove_drained-Keeps m refs (remove_connection m r counted))

  pub close_idle-IsBounded :
      (m : Moment) (p : PoolInner Queue) → IsBounded p → IsBounded (close_idle m p)
  unfolding close_idle
  close_idle-IsBounded m p b =
      let closed = log notify_all (record p { closed = true }) in
      let b' : IsBounded closed = record {
        within = b.within;
        counted = b.counted;
        limited = b.limited;
        word = b.word;
      } in
      let drained = drain_buckets 4 0 closed in
      Keeps-IsBounded (remove_drained-Keeps m drained.0 drained.1)
        (drain_buckets-IsBounded 4 0 closed b')

  pub remove_batches-Keeps :
      (fuel : ℕ) (m : Moment) (p : PoolInner Queue) → Keeps p (remove_batches fuel m p)
  unfolding remove_batches
  remove_batches-Keeps zero m p = Keeps-refl p
  remove_batches-Keeps (suc fuel) m p = if-Keeps (is_empty (next_batch p)) (Keeps-refl p) (
      Keeps-trans (remove_all-Keeps m (next_batch p) p)
        (remove_batches-Keeps fuel m (remove_all m (next_batch p) p)))

  pub close_rest-IsBounded :
      (m : Moment) (p : PoolInner Queue) → IsBounded p → IsBounded (close_rest m p)
  unfolding close_rest
  close_rest-IsBounded m p = Keeps-IsBounded (remove_batches-Keeps _ m p)

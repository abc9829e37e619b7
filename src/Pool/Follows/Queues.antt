-- ===== src/Pool/Follows/Queues.antt =====
-- src/pool/mod.rs: the handlers that use the queues, from change to change.
use netconnpool_rust.Base.{
  ℕ, zero, suc, ◌+◌, ◌≡◌, refl, true, Option, none, some, List, [], ◌∷◌, arith, leb,
}
use netconnpool_rust.Net.{Moment}
use netconnpool_rust.SegQueue.{SegQueue}
use netconnpool_rust.Pool.State.{PoolInner, notify_all, log}
use netconnpool_rust.Pool.Remove.{release_active}
use netconnpool_rust.Pool.Idle.{
  push_idle, try_push_idle, push_or_remove, park, call_on_return, return_connection,
}
use netconnpool_rust.Pool.Get.{take_idle}
use netconnpool_rust.Pool.Close.{drain_buckets, remove_drained, close_idle}
use netconnpool_rust.Pool.Follows.{Follows, if-Follows}

module _ {Queue : Type 0} ⦃sq : SegQueue ℕ Queue⦄ {R : PoolInner Queue → PoolInner Queue → Type 0}
    (t : Follows R) where
  try_push_idle-Follows :
      (m : Moment) (r idx : ℕ) (p : PoolInner Queue) → R p (try_push_idle m r idx p)
  unfolding try_push_idle
  try_push_idle-Follows m r idx p =
      if-Follows t (leb p.config.max_idle_connections (p.idle_counts idx)) (t.removes m r p)
        (t.same {q = push_idle r idx p} refl refl refl refl refl)

  push_or_remove-Follows :
      (m : Moment) (r : ℕ) (bucket : Option ℕ) (p : PoolInner Queue)
      → R p (push_or_remove m r bucket p)
  unfolding push_or_remove
  push_or_remove-Follows m r (some idx) p = try_push_idle-Follows m r idx p
  push_or_remove-Follows m r none p = t.removes m r p

  pub park-Follows : (m : Moment) (r : ℕ) (p : PoolInner Queue) → R p (park m r p)
  unfolding park
  park-Follows m r p = push_or_remove-Follows m r _ p

  call_on_return-Follows : (r : ℕ) (p : PoolInner Queue) → R p (call_on_return r p)
  call_on_return-Follows r p =
      let (store, next, all, active, generator) = same in t.same store next all active generator
    where
      same :
          ((call_on_return r p).store ≡ p.store)
          × ((call_on_return r p).next_ref ≡ p.next_ref)
          × ((call_on_return r p).all_connections ≡ p.all_connections)
          × ((call_on_return r p).active_count ≡ p.active_count)
          × ((call_on_return r p).generator ≡ p.generator)
      same = unfold call_on_return in ground arith

  -- After the mark and the counter.
  pub returned-Follows :
      (m : Moment) (r : ℕ) (p : PoolInner Queue)
      → R (release_active m r p) (return_connection m r p)
  unfolding return_connection
  returned-Follows m r p =
      let released = release_active m r p in
      let removed = t.removes m r released in
      if-Follows t released.closed removed (
        if-Follows t _
          (t.chains (call_on_return-Follows r released)
            (park-Follows m r (call_on_return r released)))
          removed)

  pub return_connection-Follows :
      (m : Moment) (r : ℕ) (p : PoolInner Queue) → R p (return_connection m r p)
  return_connection-Follows m r p = t.chains (t.releases m r p) (returned-Follows m r p)

  pub take_idle-Follows :
      (idx r : ℕ) (rest : Queue) (p : PoolInner Queue) → R p (take_idle idx r rest p)
  unfolding take_idle
  take_idle-Follows idx r rest p = t.same refl refl refl refl refl

  drain_buckets-Follows :
      (buckets idx : ℕ) (p : PoolInner Queue) → R p (drain_buckets buckets idx p).1
  unfolding drain_buckets
  drain_buckets-Follows zero idx p = t.reflects p
  drain_buckets-Follows (suc buckets) idx p =
      t.chains (t.same refl refl refl refl refl) (drain_buckets-Follows buckets (idx + 1) _)

  remove_drained-Follows :
      (m : Moment) (refs : List ℕ) (p : PoolInner Queue) → R p (remove_drained m refs p)
  unfolding remove_drained
  remove_drained-Follows m [] p = t.reflects p
  remove_drained-Follows m (r ∷ refs) p =
      t.chains (t.same refl refl refl refl refl)
        (t.chains (t.removes m r _) (remove_drained-Follows m refs _))

  pub close_idle-Follows : (m : Moment) (p : PoolInner Queue) → R p (close_idle m p)
  unfolding close_idle
  close_idle-Follows m p =
      let marked = log notify_all (record p { closed = true }) in
      let drained = drain_buckets 4 0 marked in
      t.chains (t.same {q = marked} refl refl refl refl refl)
        (t.chains (drain_buckets-Follows 4 0 marked) (remove_drained-Follows m drained.0 drained.1))

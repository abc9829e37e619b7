-- ===== src/Pool/Drained.antt =====
-- src/pool/mod.rs: the idle queues after the first part of `close`.
use netconnpool_rust.Base.{
  ℕ, zero, suc, ◌+◌, ◌≤◌, ◌<◌, ◌≡◌, refl, subst, true, [], arith, length, update, Bool-cases, inl,
  inr, ◌==◌, ◌∙◌, ap,
}
use netconnpool_rust.Net.{Moment}
use netconnpool_rust.SegQueue.{SegQueue}
use netconnpool_rust.Pool.State.{PoolInner, notify_all, log}
use netconnpool_rust.Pool.Close.{drain, drain_buckets, close_idle}
use netconnpool_rust.Pool.Bounds.{drain_lem, remove_drained-Keeps}

module _ {Queue : Type 0} ⦃sq : SegQueue ℕ Queue⦄ where
  -- The state after one bucket is drained.
  abbrev drained_at : ℕ → PoolInner Queue → PoolInner Queue
  drained_at idx p =
      let q = p.idle_connections idx in
      record p {
        idle_connections = update p.idle_connections idx (drain (suc (length (sq.to_list q))) q).1;
        idle_counts = update p.idle_counts idx 0;
      }

  abbrev IsEmptied : ℕ → PoolInner Queue → Type 0
  IsEmptied j p = (sq.to_list (p.idle_connections j) ≡ []) × (p.idle_counts j ≡ 0)

  drained_at-IsEmptied : (idx : ℕ) (p : PoolInner Queue) → IsEmptied idx (drained_at idx p)
  drained_at-IsEmptied idx p =
      let q = p.idle_connections idx in
      let empty = (drain_lem (suc (length (sq.to_list q))) q (omega arith)).1 in
      ground (arith, empty)

  -- The buckets before the first one are not touched.
  drain_buckets_below :
      (buckets idx j : ℕ) (p : PoolInner Queue)
      → j < idx
      → ((drain_buckets buckets idx p).1.idle_connections j ≡ p.idle_connections j)
        × ((drain_buckets buckets idx p).1.idle_counts j ≡ p.idle_counts j)
  unfolding drain_buckets
  drain_buckets_below zero idx j p h = (refl, refl)
  drain_buckets_below (suc buckets) idx j p h =
      let ih = drain_buckets_below buckets (idx + 1) j (drained_at idx p) (omega arith) in
      ground (arith, ih)

  drain_buckets-IsEmptied :
      (buckets idx j : ℕ) (p : PoolInner Queue)
      → idx ≤ j
      → j < idx + buckets
      → IsEmptied j (drain_buckets buckets idx p).1
  unfolding drain_buckets
  drain_buckets-IsEmptied zero idx j p h k = ground arith
  drain_buckets-IsEmptied (suc buckets) idx j p h k = elim (Bool-cases (idx == j)) [
    | inl here ↦
        let same : idx ≡ j = ground arith in
        let now = drained_at-IsEmptied idx p in
        let kept = drain_buckets_below buckets (idx + 1) idx (drained_at idx p) (omega arith) in
        subst (λ i. IsEmptied i (drain_buckets buckets (idx + 1) (drained_at idx p)).1) same
          (ap sq.to_list kept.0 ∙ now.0, kept.1 ∙ now.1)
    | inr later ↦
        drain_buckets-IsEmptied buckets (idx + 1) j (drained_at idx p) (ground arith) (omega arith)
  ]

  drain_buckets-closed :
      (buckets idx : ℕ) (p : PoolInner Queue) → (drain_buckets buckets idx p).1.closed ≡ p.closed
  unfolding drain_buckets
  drain_buckets-closed zero idx p = refl
  drain_buckets-closed (suc buckets) idx p =
      drain_buckets-closed buckets (idx + 1) (drained_at idx p)

  -- After the first part of `close` the pool is closed, and each of the four buckets is empty, its
  -- counter too.
  pub close_idle_empties :
      (m : Moment) (p : PoolInner Queue) (j : ℕ)
      → j < 4
      → ((close_idle m p).closed ≡ true)
        × (sq.to_list ((close_idle m p).idle_connections j) ≡ [])
        × ((close_idle m p).idle_counts j ≡ 0)
  unfolding close_idle
  close_idle_empties m p j h =
      let marked = log notify_all (record p { closed = true }) in
      let drained = drain_buckets 4 0 marked in
      let keeps = remove_drained-Keeps m drained.0 drained.1 in
      let empty = drain_buckets-IsEmptied 4 0 j marked (omega arith) (omega arith) in
      (
        keeps.closed ∙ drain_buckets-closed 4 0 marked,
        ap (λ f. sq.to_list (f j)) keeps.idle_connections ∙ empty.0,
        ap (λ f. f j) keeps.idle_counts ∙ empty.1,
      )

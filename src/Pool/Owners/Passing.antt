-- ===== src/Pool/Owners/Passing.antt =====
-- src/pool/mod.rs: the ways in which a step moves connections between owners.
use netconnpool_rust.Base.{
  ℕ, ◌+◌, ◌≤◌, ◌<◌, ◌≡◌, refl, sym, subst, ap, ◌∙◌, List, [], ◌∷◌, arith, times, times-remove_one,
  remove_one, inl, inr, ok, err,
}
use netconnpool_rust.Errors.{Result}
use netconnpool_rust.SegQueue.{SegQueue}
use netconnpool_rust.Pool.State.{PoolInner}
use netconnpool_rust.Pool.Threads.{new}
use netconnpool_rust.Pool.Minting.{Mints}
use netconnpool_rust.Pool.Owners.{World, made}
use netconnpool_rust.Pool.Owners.Moving.{owners, IsOwned, Moves, allocated_of_held, kept_bucket}
use netconnpool_rust.Pool.Queued.{times_at, queued, queued_same}
use netconnpool_rust.Pool.Retains.{Retains, IsIndexed-Retains}
use netconnpool_rust.Pool.Sorting.{bucket_of, Requeues}
use netconnpool_rust.Pool.Store.{Grows-trans}

module _ {Queue : Type 0} ⦃sq : SegQueue ℕ Queue⦄ where
  -- A step that makes no connection and puts none into a queue.
  pub calm-Moves :
      {w v : World Queue}
      → Retains w.pool v.pool
      → ((s : ℕ) → owners s v ≤ owners s w)
      → ((s i : ℕ) → i < 4 → times_at s i v.pool ≤ times_at s i w.pool)
      → Moves w v
  calm-Moves h tally at = record {
    grows = h.grows;
    indexed = IsIndexed-Retains h;
    tally = inl tally;
    sorted = λ s i low stands. inl (omega (arith, at s i low, stands));
  }

  same_at :
      (s i : ℕ) (p q : PoolInner Queue)
      → q.idle_connections ≡ p.idle_connections
      → times_at s i q ≡ times_at s i p
  same_at s i p q e = ap (λ f. times s (sq.to_list (f i))) e

  -- A step that leaves the queues and the hands as they are.
  pub quiet-Moves :
      {p q : PoolInner Queue} (held : List ℕ)
      → Retains p q
      → q.idle_connections ≡ p.idle_connections
      → Moves (record { pool = p; held = held }) (record { pool = q; held = held })
  quiet-Moves {p} {q} held h e =
      calm-Moves h (λ s. omega (arith, queued_same s p q e))
        (λ s i low. omega (arith, same_at s i p q e))

  -- A calm step before.
  pub after-Moves :
      {w v u : World Queue}
      → Retains w.pool v.pool
      → ((s : ℕ) → owners s v ≤ owners s w)
      → ((s i : ℕ) → i < 4 → times_at s i v.pool ≤ times_at s i w.pool)
      → Moves v u
      → Moves w u
  after-Moves {w} {v} {u} h tally at k = record {
    grows = Grows-trans h.grows k.grows;
    indexed = λ x. k.indexed (IsIndexed-Retains h x);
    tally = elim k.tally [
      | inl fewer ↦ inl (λ s. omega (arith, tally s, fewer s))
      | inr (r, new, taken, more) ↦
          inr
            (r, omega (arith, new, h.grows.next_ref), taken, (λ s. omega (arith, tally s, more s)))
    ];
    sorted = λ s i low stands. elim (k.sorted s i low stands) [
      | inl stood ↦ inl (omega (arith, at s i low, stood))
      | inr there ↦ inr there
    ];
  }

  -- A creation puts its connection into the hands of its thread.
  pub made-Moves :
      (p q : PoolInner Queue) (result : Result ℕ) (held : List ℕ)
      → Mints p q result
      → Moves (record { pool = p; held = held }) (made (q, result) held)
  made-Moves p q (ok r) held h = record {
    grows = h.grows;
    indexed = h.indexed;
    tally =
        let (place, below) = h.fresh r refl in
        inr (r, omega (arith, place), below, (λ s. omega (arith, queued_same s p q h.idle)));
    sorted = λ s i low stands. inl (omega (arith, stands, same_at s i p q h.idle));
  }
  made-Moves p q (err e) held h = record {
    grows = h.grows;
    indexed = h.indexed;
    tally = inl (λ s. omega (arith, queued_same s p q h.idle));
    sorted = λ s i low stands. inl (omega (arith, stands, same_at s i p q h.idle));
  }

  -- A thread gives a connection that it holds to the queues.
  pub given-Moves :
      (w : World Queue) (r : ℕ) (q : PoolInner Queue)
      → IsOwned w
      → 0 < times r w.held
      → Retains w.pool q
      → Requeues r w.pool q
      → ((s : ℕ) → queued s q ≤ queued s w.pool + times s (r ∷ []))
      → Moves w (record { pool = q; held = remove_one r w.held })
  given-Moves w r q o h retains requeues more = record {
    grows = retains.grows;
    indexed = IsIndexed-Retains retains;
    tally = inl (λ s. omega (arith, more s, times-remove_one r s w.held h));
    sorted = λ s i low stands. elim (requeues.stood s i stands) [
      | inl stood ↦ inl stood
      | inr (own, e) ↦ inr (
          kept_bucket w.pool q s retains.grows
            (subst (λ j. j < w.pool.next_ref) (sym own) (allocated_of_held w r o h))
          ∙ ap (λ j. bucket_of (w.pool.store j)) own
          ∙ e)
    ];
  }

  pub Mints-then :
      {p q t : PoolInner Queue} {result : Result ℕ}
      → Mints p q result
      → Retains q t
      → t.idle_connections ≡ q.idle_connections
      → Mints p t result
  Mints-then h k e = record {
    grows = Grows-trans h.grows k.grows;
    idle = e ∙ h.idle;
    indexed = λ x. IsIndexed-Retains k (h.indexed x);
    fresh = λ s made_it.
        let (place, below) = h.fresh s made_it in (place, omega (arith, below, k.grows.next_ref));
  }

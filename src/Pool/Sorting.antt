-- ===== src/Pool/Sorting.antt =====
-- src/pool/mod.rs: in which of the idle queues a connection comes to stand, and from which it is taken.
use netconnpool_rust.Base.{
  ℕ, ◌+◌, ◌≤◌, ◌<◌, ◌≡◌, refl, sym, subst, ap, ◌∙◌, Bool, true, false, Option, none, some, List, [],
  ◌∷◌, arith, times, times-append, Option-cases, Bool-cases, inl, inr, ◌⊎◌, ◌==◌, if◌then◌else◌,
  leb,
}
use netconnpool_rust.Connection
use netconnpool_rust.Connection.{Connection}
use netconnpool_rust.Net.{Moment}
use netconnpool_rust.SegQueue.{SegQueue, unpop}
use netconnpool_rust.Pool.State.{
  PoolInner, get_bucket_index, is_connection_valid_for_borrow, set_conn,
}
use netconnpool_rust.Pool.Remove.{remove_connection, release_active}
use netconnpool_rust.Pool.Idle.{
  push_idle, try_push_idle, push_or_remove, park, call_on_return, return_connection,
  add_idle_connection,
}
use netconnpool_rust.Pool.Get.{take_idle, borrow_idle, lend, clear_buffer}
use netconnpool_rust.Pool.Buckets.{has_elem}
use netconnpool_rust.Pool.Frame.{
  remove_connection-Keeps, release_active-Keeps, lend-Keeps, clear_buffer-Keeps,
}
use netconnpool_rust.Pool.Queued.{times_at}

abbrev pub bucket_of : Connection → Option ℕ
bucket_of c = get_bucket_index c.protocol c.ip_version

module _ {Queue : Type 0} ⦃sq : SegQueue ℕ Queue⦄ where
  -- What stands in a queue stood there before, or is `r`, in the queue of its kind.
  pub record Requeues (r : ℕ) (p q : PoolInner Queue) : Type 0 where
    pub stood :
        (s i : ℕ)
        → 0 < times_at s i q
        → (0 < times_at s i p) ⊎ ((s ≡ r) × (bucket_of (p.store r) ≡ some i))

  at_same :
      (p q : PoolInner Queue)
      → q.idle_connections ≡ p.idle_connections
      → (s i : ℕ) → times_at s i q ≡ times_at s i p
  at_same p q e s i = ap (λ f. times s (sq.to_list (f i))) e

  same-Requeues :
      {r : ℕ} {p q : PoolInner Queue} → q.idle_connections ≡ p.idle_connections → Requeues r p q
  same-Requeues {r} {p} {q} e = record {
    stood = λ s i h. inl (omega (arith, h, at_same p q e s i));
  }

  removed-Requeues :
      (m : Moment) (r : ℕ) (p : PoolInner Queue) → Requeues r p (remove_connection m r p)
  removed-Requeues m r p = same-Requeues (remove_connection-Keeps m r p).idle_connections

  if-Requeues :
      (b : Bool) {r : ℕ} {p q t : PoolInner Queue}
      → Requeues r p q
      → Requeues r p t
      → Requeues r p (if b then q else t)
  if-Requeues true h k = h
  if-Requeues false h k = k

  pushed_at :
      (r idx : ℕ) (p : PoolInner Queue)
      → bucket_of (p.store r) ≡ some idx
      → (s i : ℕ) → 0 < times_at s i (push_idle r idx p)
      → (0 < times_at s i p) ⊎ ((s ≡ r) × (bucket_of (p.store r) ≡ some i))
  pushed_at r idx p bucket s i h = elim (Bool-cases (idx == i)) [
    | inl here ↦
        let same : idx ≡ i = ground arith in
        let pushed : times_at s i (push_idle r idx p)
            ≡ times s (sq.to_list (p.idle_connections idx)) + times s (r ∷ []) =
          simp here (
            ap (times s) (sq.to_list-push (p.idle_connections idx) r)
            ∙ times-append s (sq.to_list (p.idle_connections idx)) (r ∷ [])) in
        elim (Bool-cases (r == s)) [
          | inl own ↦ inr (ground arith, bucket ∙ ap some same)
          | inr other ↦ inl (subst (λ j. 0 < times_at s j p) same (ground (arith, pushed)))
        ]
    | inr other ↦ inl (simp other at h)
  ]

  push_idle-Requeues :
      (r idx : ℕ) (p : PoolInner Queue)
      → bucket_of (p.store r) ≡ some idx
      → Requeues r p (push_idle r idx p)
  push_idle-Requeues r idx p bucket = record { stood = λ s i h. pushed_at r idx p bucket s i h }

  push_or_remove-Requeues :
      (m : Moment) (r : ℕ) (bucket : Option ℕ) (p : PoolInner Queue)
      → bucket_of (p.store r) ≡ bucket
      → Requeues r p (push_or_remove m r bucket p)
  unfolding push_or_remove try_push_idle
  push_or_remove-Requeues m r none p e = removed-Requeues m r p
  push_or_remove-Requeues m r (some idx) p e =
      if-Requeues (leb p.config.max_idle_connections (p.idle_counts idx)) (removed-Requeues m r p)
        (push_idle-Requeues r idx p e)

  park-Requeues : (m : Moment) (r : ℕ) (p : PoolInner Queue) → Requeues r p (park m r p)
  unfolding park
  park-Requeues m r p = push_or_remove-Requeues m r (bucket_of (p.store r)) p refl

  -- A start from a state with the same queues, in which `r` is of the same kind.
  from-Requeues :
      {r : ℕ} {p p' q : PoolInner Queue}
      → p'.idle_connections ≡ p.idle_connections
      → bucket_of (p'.store r) ≡ bucket_of (p.store r)
      → Requeues r p' q
      → Requeues r p q
  from-Requeues {r} {p} {p'} {q} idle bucket f = record {
    stood = λ s i h. elim (f.stood s i h) [
      | inl was ↦ inl (omega (arith, was, at_same p p' idle s i))
      | inr (own, e) ↦ inr (own, sym bucket ∙ e)
    ];
  }

  release_active-bucket :
      (m : Moment) (r : ℕ) (p : PoolInner Queue)
      → bucket_of ((release_active m r p).store r) ≡ bucket_of (p.store r)
  unfolding release_active Connection.try_mark_idle
  release_active-bucket m r p = ground arith

  call_on_return-facts :
      (r : ℕ) (p : PoolInner Queue)
      → ((call_on_return r p).idle_connections ≡ p.idle_connections)
        × (bucket_of ((call_on_return r p).store r) ≡ bucket_of (p.store r))
  unfolding call_on_return
  call_on_return-facts r p = ground arith

  pub return_connection-Requeues :
      (m : Moment) (r : ℕ) (p : PoolInner Queue) → Requeues r p (return_connection m r p)
  unfolding return_connection
  return_connection-Requeues m r p =
      let released = release_active m r p in
      let told = call_on_return r released in
      let (idle, bucket) = call_on_return-facts r released in
      let removed = removed-Requeues m r released in
      from-Requeues (release_active-Keeps m r p).idle_connections (release_active-bucket m r p) (
        if-Requeues released.closed removed (
          if-Requeues (is_connection_valid_for_borrow m (released.store r) released)
            (from-Requeues idle bucket (park-Requeues m r told)) removed))

  pub add_idle_connection-Requeues :
      (m : Moment) (r : ℕ) (p : PoolInner Queue) → Requeues r p (add_idle_connection m r p)
  unfolding add_idle_connection
  add_idle_connection-Requeues m r p =
      let marked = set_conn r (Connection.mark_idle m (p.store r)) p in
      let same : bucket_of (marked.store r) ≡ bucket_of (p.store r) =
        unfold Connection.mark_idle in ground arith in
      if-Requeues p.closed (removed-Requeues m r p)
        (from-Requeues {p' = marked} refl same (park-Requeues m r marked))

  take_idle-at :
      (s i idx r : ℕ) (rest : Queue) (p : PoolInner Queue)
      → sq.pop (p.idle_connections idx) ≡ some (r, rest)
      → (times_at s i (take_idle idx r rest p) ≤ times_at s i p) × (0 < times_at r idx p)
  unfolding take_idle
  take_idle-at s i idx r rest p e =
      let popped = sq.to_list-pop (p.idle_connections idx) ∙ ap (unpop sq.to_list) e in
      let own = ap (times r) popped in
      (
        elim (Bool-cases (idx == i)) [
          | inl here ↦
              let same : idx ≡ i = ground arith in
              let all =
                subst (λ j. times_at s j p ≡ times s (r ∷ sq.to_list rest)) same
                  (ap (times s) popped) in
              simp here (omega (arith, all))
          | inr other ↦ simp other (omega arith)
        ],
        ground (arith, own),
      )

  at_removed :
      (m : Moment) (r : ℕ) (p : PoolInner Queue) (s i : ℕ)
      → times_at s i (remove_connection m r p) ≡ times_at s i p
  at_removed m r p =
      at_same p (remove_connection m r p) (remove_connection-Keeps m r p).idle_connections

  at_lent :
      (m : Moment) (start r : ℕ) (p : PoolInner Queue) (s i : ℕ)
      → times_at s i (lend m start true r (clear_buffer m r p)) ≡ times_at s i p
  at_lent m start r p =
      let cleared = clear_buffer m r p in
      at_same p (lend m start true r cleared) (
        (lend-Keeps m start true r cleared).idle_connections
        ∙ (clear_buffer-Keeps m r p).idle_connections)

  -- The search of the buckets puts nothing in, and finds what stood in one of them.
  pub borrow_idle-at :
      (m : Moment) (start : ℕ) (indices : List ℕ) (p : PoolInner Queue)
      → ((s i : ℕ) → times_at s i (borrow_idle m start indices p).0 ≤ times_at s i p)
        × ((r : ℕ)
            → (borrow_idle m start indices p).1 ≡ some r
            → (i : ℕ) × (has_elem i indices ≡ true) × (0 < times_at r i p))
  unfolding borrow_idle
  borrow_idle-at m start [] p = ((λ s i. omega arith), (λ r e. cc))
  borrow_idle-at m start (idx ∷ indices) p = elim (Option-cases (sq.pop (p.idle_connections idx))) [
    | inl e ↦
        let (less, found) = borrow_idle-at m start indices p in
        simp (e, borrow_idle)
          (less, (λ r h. let (i, in_rest, stood) = found r h in (i, ground arith, stood)))
    | inr ((r, rest), e) ↦
        let taken = take_idle idx r rest p in
        let took = λ (s : ℕ) (i : ℕ). take_idle-at s i idx r rest p e in
        let (less, found) = borrow_idle-at m start indices (remove_connection m r taken) in
        elim (Bool-cases (is_connection_valid_for_borrow m (taken.store r) taken)) [
          | inl f ↦
              simp (e, borrow_idle)
                (simp f (
                  (λ s i. omega (arith, took s i, at_lent m start r taken s i)),
                  (λ s h.
                      let same : r ≡ s = ground arith in
                      (idx, ground arith, subst (λ j. 0 < times_at j idx p) same (took s idx).1)),
                ))
          | inr f ↦
              simp (e, borrow_idle)
                (simp f (
                  (λ s i. omega (arith, took s i, less s i, at_removed m r taken s i)),
                  (λ s h.
                      let (i, in_rest, stood) = found s h in
                      (i, ground arith, omega (arith, stood, took s i, at_removed m r taken s i))),
                ))
        ]
  ]

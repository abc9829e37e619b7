-- ===== src/Pool/Queued.antt =====
-- src/pool/mod.rs: how often a connection stands in the four idle queues, and how the handlers of the
-- queues change that.
use netconnpool_rust.Base.{
  ℕ, zero, suc, ◌+◌, ◌≤◌, ◌<◌, ◌≡◌, ap, ◌∙◌, Bool, true, false, Option, none, some, List, [], ◌∷◌,
  arith, All, times, times-append, update, Option-cases, Bool-cases, inl, inr, if◌then◌else◌,
}
use netconnpool_rust.Connection
use netconnpool_rust.IpVersion.{IpVersion}
use netconnpool_rust.Net.{Moment}
use netconnpool_rust.Protocol.{Protocol}
use netconnpool_rust.SegQueue.{SegQueue, unpop}
use netconnpool_rust.Pool.State.{
  PoolInner, get_bucket_index, get_target_buckets, is_connection_valid_for_borrow, set_conn,
}
use netconnpool_rust.Pool.Remove.{remove_connection, release_active}
use netconnpool_rust.Pool.Idle.{
  push_idle, try_push_idle, push_or_remove, park, call_on_return, return_connection,
  add_idle_connection,
}
use netconnpool_rust.Pool.Get.{take_idle, borrow_idle, lend, clear_buffer}
use netconnpool_rust.Pool.Frame.{
  remove_connection-Keeps, release_active-Keeps, lend-Keeps, clear_buffer-Keeps,
}

get_bucket_index_low :
    (c : Protocol) (v : IpVersion) (i : ℕ) → get_bucket_index c v ≡ some i → i < 4
unfolding get_bucket_index
get_bucket_index_low c v i h = ground arith

pub get_target_buckets_low :
    (protocol : Option Protocol) (ip_version : Option IpVersion)
    → All (λ i. i < 4) (get_target_buckets protocol ip_version)
unfolding get_target_buckets get_bucket_index
get_target_buckets_low none none = ground arith
get_target_buckets_low none (some v) = ground arith
get_target_buckets_low (some p) none = ground arith
get_target_buckets_low (some p) (some v) = ground arith

-- The connection that was found, if one was.
abbrev pub one_of : Option ℕ → List ℕ
one_of none = []
one_of (some r) = r ∷ []

module _ {Queue : Type 0} ⦃sq : SegQueue ℕ Queue⦄ where
  abbrev pub times_at : ℕ → ℕ → PoolInner Queue → ℕ
  times_at s i p = times s (sq.to_list (p.idle_connections i))

  abbrev pub queued : ℕ → PoolInner Queue → ℕ
  queued s p = times_at s 0 p + times_at s 1 p + times_at s 2 p + times_at s 3 p

  pub queued_same :
      (s : ℕ) (p q : PoolInner Queue)
      → q.idle_connections ≡ p.idle_connections
      → queued s q ≡ queued s p
  queued_same s p q e =
      ap
        (λ f.
          times s (sq.to_list (f 0))
          + times s (sq.to_list (f 1))
          + times s (sq.to_list (f 2))
          + times s (sq.to_list (f 3)))
        e

  -- What a change of one queue does to the sum.
  queued-update :
      (s idx : ℕ) (queue : Queue) (p : PoolInner Queue)
      → idx < 4
      → queued s (record p { idle_connections = update p.idle_connections idx queue })
          + times_at s idx p
        ≡ queued s p + times s (sq.to_list queue)
  queued-update s zero queue p h = omega arith
  queued-update s (suc zero) queue p h = omega arith
  queued-update s (suc (suc zero)) queue p h = omega arith
  queued-update s (suc (suc (suc zero))) queue p h = omega arith
  queued-update s (suc (suc (suc (suc idx)))) queue p h = absurd (omega arith)

  pub push_idle-queued :
      (s r idx : ℕ) (p : PoolInner Queue)
      → idx < 4
      → queued s (push_idle r idx p) ≡ queued s p + times s (r ∷ [])
  push_idle-queued s r idx p h =
      let changed = queued-update s idx (sq.push (p.idle_connections idx) r) p h in
      let pushed =
        ap (times s) (sq.to_list-push (p.idle_connections idx) r)
        ∙ times-append s (sq.to_list (p.idle_connections idx)) (r ∷ []) in
      omega (arith, changed, pushed)

  pub take_idle-queued :
      (s idx r : ℕ) (rest : Queue) (p : PoolInner Queue)
      → idx < 4
      → sq.pop (p.idle_connections idx) ≡ some (r, rest)
      → queued s (take_idle idx r rest p) + times s (r ∷ []) ≡ queued s p
  unfolding take_idle
  take_idle-queued s idx r rest p h e =
      let changed = queued-update s idx rest p h in
      let popped =
        ap (times s) (sq.to_list-pop (p.idle_connections idx) ∙ ap (unpop sq.to_list) e) in
      omega (arith, changed, popped)

  -- Handing a connection over to the idle queues: it comes to stand in them once more at most.
  try_push_idle-queued :
      (s : ℕ) (m : Moment) (r idx : ℕ) (p : PoolInner Queue)
      → idx < 4
      → queued s (try_push_idle m r idx p) ≤ queued s p + times s (r ∷ [])
  unfolding try_push_idle
  try_push_idle-queued s m r idx p h =
      let pushed = push_idle-queued s r idx p h in
      let removed =
        queued_same s p (remove_connection m r p)
          (remove_connection-Keeps m r p).idle_connections in
      ground (arith, pushed, removed)

  park-queued :
      (s : ℕ) (m : Moment) (r : ℕ) (p : PoolInner Queue)
      → queued s (park m r p) ≤ queued s p + times s (r ∷ [])
  unfolding park push_or_remove
  park-queued s m r p =
      let c = p.store r in
      elim (Option-cases (get_bucket_index c.protocol c.ip_version)) [
        | inl e ↦ simp e (
            omega (
              arith,
              queued_same s p (remove_connection m r p)
                  (remove_connection-Keeps m r p).idle_connections,
            ))
        | inr (idx, e) ↦
            simp e (
              try_push_idle-queued s m r idx p (get_bucket_index_low c.protocol c.ip_version idx e))
      ]

  call_on_return-idle :
      (r : ℕ) (p : PoolInner Queue) → (call_on_return r p).idle_connections ≡ p.idle_connections
  unfolding call_on_return
  call_on_return-idle r p = ground arith

  if-queued :
      (s n : ℕ) (b : Bool) (p q : PoolInner Queue)
      → queued s p ≤ n
      → queued s q ≤ n
      → queued s (if b then p else q) ≤ n
  if-queued s n true p q h k = h
  if-queued s n false p q h k = k

  removed-queued :
      (s : ℕ) (m : Moment) (r : ℕ) (p : PoolInner Queue)
      → queued s (remove_connection m r p) ≤ queued s p + times s (r ∷ [])
  removed-queued s m r p = omega (
    arith,
    queued_same s p (remove_connection m r p) (remove_connection-Keeps m r p).idle_connections,
  )

  pub return_connection-queued :
      (s : ℕ) (m : Moment) (r : ℕ) (p : PoolInner Queue)
      → queued s (return_connection m r p) ≤ queued s p + times s (r ∷ [])
  unfolding return_connection
  return_connection-queued s m r p =
      let released = release_active m r p in
      let before = queued_same s p released (release_active-Keeps m r p).idle_connections in
      let told =
        queued_same s released (call_on_return r released) (call_on_return-idle r released) in
      let removed : queued s (remove_connection m r released) ≤ queued s p + times s (r ∷ []) =
        omega (arith, before, removed-queued s m r released) in
      let parked : queued s (park m r (call_on_return r released)) ≤ queued s p + times s (r ∷ []) =
        omega (arith, before, told, park-queued s m r (call_on_return r released)) in
      if-queued s _ released.closed _ _ removed (
        if-queued s _ (is_connection_valid_for_borrow m (released.store r) released) _ _ parked
          removed)

  pub add_idle_connection-queued :
      (s : ℕ) (m : Moment) (r : ℕ) (p : PoolInner Queue)
      → queued s (add_idle_connection m r p) ≤ queued s p + times s (r ∷ [])
  unfolding add_idle_connection
  add_idle_connection-queued s m r p =
      if-queued s _ p.closed _ _ (removed-queued s m r p)
        (park-queued s m r (set_conn r (Connection.mark_idle m (p.store r)) p))

  -- What is found is taken out of the queues.
  pub borrow_idle-queued :
      (s : ℕ) (m : Moment) (start : ℕ) (indices : List ℕ) (p : PoolInner Queue)
      → All (λ i. i < 4) indices
      → queued s (borrow_idle m start indices p).0
          + times s (one_of (borrow_idle m start indices p).1)
        ≤ queued s p
  unfolding borrow_idle
  borrow_idle-queued s m start [] p low = omega arith
  borrow_idle-queued s m start (idx ∷ indices) p low =
      elim (Option-cases (sq.pop (p.idle_connections idx))) [
        | inl e ↦ simp (e, borrow_idle) (borrow_idle-queued s m start indices p low.1)
        | inr ((r, rest), e) ↦
            let taken = take_idle idx r rest p in
            let took = take_idle-queued s idx r rest p low.0 e in
            let cleared = clear_buffer m r taken in
            let lent = queued_same s taken (lend m start true r cleared) (
              (lend-Keeps m start true r cleared).idle_connections
              ∙ (clear_buffer-Keeps m r taken).idle_connections) in
            let removed =
              queued_same s taken (remove_connection m r taken)
                (remove_connection-Keeps m r taken).idle_connections in
            let ih = borrow_idle-queued s m start indices (remove_connection m r taken) low.1 in
            elim (Bool-cases (is_connection_valid_for_borrow m (taken.store r) taken)) [
              | inl f ↦ simp (e, borrow_idle) (simp f (omega (arith, took, lent)))
              | inr f ↦ simp (e, borrow_idle) (simp f (omega (arith, took, removed, ih)))
            ]
      ]

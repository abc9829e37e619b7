-- ===== src/Pool/Liveness.antt =====
-- src/pool/mod.rs: the deadline of `get_connection`, a timeout of zero, the end of the reaper
-- and of the wait in `close`.
use netconnpool_rust.Base.{
  ℕ, ◌+◌, ◌≤◌, ltb, ◌-◌, ◌<◌, ◌≡◌, ◌≢◌, ◌⊎◌, inl, inr, refl, Bool-cases, not, ◌||◌, true, false,
  Option, none, some, List, [], ◌∷◌, ◌++◌, arith, err,
}
use netconnpool_rust.Errors.{get_connection_timeout}
use netconnpool_rust.IpVersion.{IpVersion}
use netconnpool_rust.Net.{Moment}
use netconnpool_rust.Protocol.{Protocol}
use netconnpool_rust.SegQueue.{SegQueue}
use netconnpool_rust.Stats.{increment_total_get_requests}
use netconnpool_rust.Pool.State.{PoolInner, count}
use netconnpool_rust.Pool.Cleanup.{cleanup}
use netconnpool_rust.Pool.Close.{close, close_idle, wait_for_active}
use netconnpool_rust.Pool.Threads.{Wait, ends_after, reaper}
use netconnpool_rust.Pool.Get.{
  waits, Turn, get_round, get_loop, get_connection, try_get, get_with_timeout,
}

module _ {Queue : Type 0} ⦃sq : SegQueue ℕ Queue⦄ where
  -- A pass whose clock is past the deadline does not wait.
  get_round_late :
      (m : Moment) (start timeout : ℕ) (protocol : Option Protocol) (ip_version : Option IpVersion)
      (p : PoolInner Queue)
      → timeout < m.instant - start
      → (get_round m start timeout protocol ip_version p).1 ≢ waits
  unfolding get_round
  get_round_late m start timeout protocol ip_version p late = ground arith

  get_loop_returns :
      (start timeout : ℕ) (protocol : Option Protocol) (ip_version : Option IpVersion)
      (before : List (Turn Queue)) (late : Turn Queue) (after : List (Turn Queue))
      (p : PoolInner Queue)
      → timeout < late.moment.instant - start
      → (get_loop start timeout protocol ip_version (before ++ late ∷ after) p).1 ≢ none
  unfolding get_loop
  get_loop_returns start timeout protocol ip_version [] late after p h =
      ground (arith, get_round_late late.moment start timeout protocol ip_version (late.others p))
  get_loop_returns start timeout protocol ip_version (turn ∷ before) late after p h =
      let q = (get_round turn.moment start timeout protocol ip_version (turn.others p)).0 in
      ground (arith, get_loop_returns start timeout protocol ip_version before late after q h)

  -- Whatever the other threads do between its passes, a call of `get_connection` returns at the latest
  -- in the first pass whose clock is past its deadline.
  pub get_connection_returns :
      (start timeout : ℕ) (protocol : Option Protocol) (ip_version : Option IpVersion)
      (before : List (Turn Queue)) (late : Turn Queue) (after : List (Turn Queue))
      (p : PoolInner Queue)
      → timeout < late.moment.instant - start
      → (get_connection start protocol ip_version timeout (before ++ late ∷ after) p).1 ≢ none
  unfolding get_connection
  get_connection_returns start timeout protocol ip_version before late after p h = ground (
    arith,
    get_loop_returns start timeout protocol ip_version before late after
        (count increment_total_get_requests p) h,
  )

  -- `try_get` on an open pool fails with `GetConnectionTimeout` as soon as the clock has moved between
  -- its start and its first pass, whatever connections are idle, and takes none of them.
  pub try_get_fails :
      (start : ℕ) (turn : Turn Queue) (turns : List (Turn Queue)) (p : PoolInner Queue)
      → start < turn.moment.instant
      → p.closed ≡ false
      → (turn.others (count increment_total_get_requests p)).closed ≡ false
      → let (q, r) = try_get start (turn ∷ turns) p in
        (r ≡ some (err (get_connection_timeout 0 (turn.moment.instant - start))))
        × (q.idle_connections
            ≡ (turn.others (count increment_total_get_requests p)).idle_connections)
        × (q.active_count ≡ (turn.others (count increment_total_get_requests p)).active_count)
  unfolding try_get get_with_timeout get_connection get_loop get_round
  try_get_fails start turn turns p moved opened still = ground arith

  ends_after_lem :
      (wait : Wait Queue) (q : PoolInner Queue)
      → (wait.lives ≡ false) ⊎ (q.closed ≡ true)
      → ends_after wait q ≡ true
  unfolding ends_after
  ends_after_lem wait q over = ground arith

  reaper-ends_step :
      (wait : Wait Queue) (more : List (Wait Queue)) (p : PoolInner Queue)
      → (ends_after wait (wait.others p) ≡ true)
        ⊎ ((reaper more (cleanup wait.moment (wait.others p))).1 ≡ true)
      → (reaper (wait ∷ more) p).1 ≡ true
  unfolding reaper
  reaper-ends_step wait more p h = elim (Bool-cases (not wait.begins || p.closed)) [
    | inl e ↦ simp (reaper, e) refl
    | inr e ↦ elim (Bool-cases (ends_after wait (wait.others p))) [
      | inl ended ↦ simp (reaper, e, ended) refl
      | inr awake ↦ elim h [ inl ended ↦ cc | inr again ↦ simp (reaper, e, awake) again ]
    ]
  ]

  -- The reaper ends, at the latest after the first wait in which the last handle of the pool goes away or
  -- the pool is closed, however long it has run before and whatever the other threads do.
  pub reaper_ends :
      (before : List (Wait Queue)) (last : Wait Queue) (after : List (Wait Queue))
      (p : PoolInner Queue)
      → (last.lives ≡ false) ⊎ ((q : PoolInner Queue) → (last.others q).closed ≡ true)
      → (reaper (before ++ last ∷ after) p).1 ≡ true
  reaper_ends [] last after p over = reaper-ends_step last after p (
      inl (
        ends_after_lem last (last.others p)
          (elim over [ inl gone ↦ inl gone | inr shut ↦ inr (shut p) ])))
  reaper_ends (wait ∷ before) last after p over =
      reaper-ends_step wait (before ++ last ∷ after) p
        (inr (reaper_ends before last after (cleanup wait.moment (wait.others p)) over))

  wait_for_active_late :
      (deadline : ℕ) (before : List (Turn Queue)) (late : Turn Queue) (after : List (Turn Queue))
      (p : PoolInner Queue)
      → deadline ≤ late.moment.instant
      → wait_for_active deadline (before ++ late ∷ after) p ≡ wait_for_active deadline before p
  unfolding wait_for_active
  wait_for_active_late deadline [] late after p h =
      let over : ltb late.moment.instant deadline ≡ false = ground (arith, h) in
      ground (arith, over)
  wait_for_active_late deadline (turn ∷ before) late after p h =
      let again = wait_for_active_late deadline before late after (turn.others p) h in
      ground (arith, again)

  -- Whatever the other threads do while `close` waits for the active connections, its wait is over at
  -- the latest in the first turn whose clock is at the deadline: it does not matter what comes after.
  pub close_returns :
      (first last : Moment) (before : List (Turn Queue)) (late : Turn Queue)
      (after : List (Turn Queue)) (p : PoolInner Queue)
      → first.instant + p.config.connection_leak_timeout ≤ late.moment.instant
      → close first last (before ++ late ∷ after) p ≡ close first last before p
  unfolding close
  close_returns first last before late after p h =
      let deadline = first.instant + p.config.connection_leak_timeout in
      rw (wait_for_active_late deadline before late after (close_idle first p) h) refl

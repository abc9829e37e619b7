-- ===== src/Pool/Outcomes/Books.antt =====
-- src/pool/mod.rs: the counters of the gets through the passes of `get_connection`.
use netconnpool_rust.Base.{
  ℕ, ◌-◌, ◌≡◌, refl, sym, ap, ◌∙◌, Bool, true, false, Option, none, some, List, [], ◌∷◌, All, arith,
  Bool-cases, Option-cases, inl, inr, ok, err, ltb, ◌==◌, length, if◌then◌else◌,
}
use mathlib.Core.Option
use netconnpool_rust.Errors.{
  Result, NetConnPoolError, pool_closed, pool_exhausted, get_connection_timeout,
  max_connections_reached,
}
use netconnpool_rust.IpVersion.{IpVersion}
use netconnpool_rust.Net.{Moment}
use netconnpool_rust.Protocol.{Protocol}
use netconnpool_rust.SegQueue.{SegQueue}
use netconnpool_rust.Stats
use netconnpool_rust.Stats.{StatsInternal}
use netconnpool_rust.Pool.State.{
  PoolInner, count, get_target_buckets, is_connection_valid_for_borrow, update_stats_on_idle_pop,
  update_stats_on_get_success,
}
use netconnpool_rust.Pool.Remove.{remove_connection}
use netconnpool_rust.Pool.Idle.{PooledConnection}
use netconnpool_rust.Pool.Create.{create_connection}
use netconnpool_rust.Pool.Get.{
  Round, done, waits, Turn, clear_buffer, lend, take_idle, borrow_idle, after_create, after_borrow,
  get_round, get_loop, get_connection,
}
use netconnpool_rust.Pool.Outcomes.{GetCounts, gets, get_counts, requested, settle, outcome}
use netconnpool_rust.Pool.Outcomes.Quiet.{
  map-gets, count-quiet, idle_pop-gets, clear_buffer-quiet, remove_connection-quiet,
  create_connection-quiet,
}
use netconnpool_rust.Pool.Outcomes.Refusals.{is_of_get, IsRefusal, create_connection-IsRefusal}

-- The outcome of a look at the idle queues.
abbrev borrowed : Option ℕ → Option (Result PooledConnection)
borrowed none = none
borrowed (some r) = some (ok (record { conn = r }))

success-gets :
    (is_reused : Bool) (time : ℕ) (h : PooledConnection) (s : StatsInternal)
    → gets (update_stats_on_get_success is_reused time s) ≡ settle (some (ok h)) (gets s)
unfolding settle update_stats_on_get_success Stats.increment_current_active_connections
    Stats.increment_successful_gets Stats.increment_total_connections_reused Stats.record_get_time
success-gets true time h s = refl
success-gets false time h s = refl

timeout-gets :
    (timeout waited : ℕ) (s : StatsInternal)
    → gets (Stats.increment_timeout_gets (Stats.increment_failed_gets s))
      ≡ settle (some (err (get_connection_timeout timeout waited))) (gets s)
unfolding settle Stats.increment_timeout_gets Stats.increment_failed_gets
timeout-gets timeout waited s = refl

refusal-gets :
    (e : NetConnPoolError) (s : StatsInternal)
    → is_of_get e ≡ false
    → gets (Stats.increment_connection_errors (Stats.increment_failed_gets s))
      ≡ settle (some (err e)) (gets s)
unfolding settle Stats.increment_connection_errors Stats.increment_failed_gets
refusal-gets e s h = ground arith

map-settle-none : (x : Option GetCounts) → Option.map (settle none) x ≡ x
unfolding settle
map-settle-none none = refl
map-settle-none (some c) = refl

-- A closed or an exhausted pool.
uncounted :
    (e : NetConnPoolError) (x : Option GetCounts)
    → ((c : GetCounts) → settle (some (err e)) c ≡ c)
    → x ≡ Option.map (settle (some (err e))) x
uncounted e none same = refl
uncounted e (some c) same = ap some (sym (same c))

module _ {Queue : Type 0} where
  lend-counts :
      (m : Moment) (start : ℕ) (is_reused : Bool) (r : ℕ) (h : PooledConnection)
      (p : PoolInner Queue)
      → get_counts (lend m start is_reused r p) ≡ Option.map (settle (some (ok h))) (get_counts p)
  lend-counts m start is_reused r h p =
      ap (Option.map gets) stats
      ∙ map-gets (update_stats_on_get_success is_reused (m.instant - start)) (settle (some (ok h)))
          (success-gets is_reused (m.instant - start) h) p.stats_collector
    where
      stats :
          (lend m start is_reused r p).stats_collector
          ≡ Option.map (update_stats_on_get_success is_reused (m.instant - start)) p.stats_collector
      stats = unfold lend in ground arith

module _ {Queue : Type 0} ⦃sq : SegQueue ℕ Queue⦄ where
  borrow_idle-counts :
      (m : Moment) (start : ℕ) (indices : List ℕ) (p : PoolInner Queue)
      → let found = borrow_idle m start indices p in
        get_counts found.0 ≡ Option.map (settle (borrowed found.1)) (get_counts p)
  unfolding borrow_idle
  borrow_idle-counts m start [] p = sym (map-settle-none (get_counts p))
  borrow_idle-counts m start (idx ∷ indices) p =
      elim (Option-cases (sq.pop (p.idle_connections idx))) [
        | inl e ↦ simp (e, borrow_idle) (borrow_idle-counts m start indices p)
        | inr ((r, rest), e) ↦
            let taken = take_idle idx r rest p in
            let took : get_counts taken ≡ get_counts p =
              unfold take_idle in
              count-quiet (update_stats_on_idle_pop (p.store r)) p (idle_pop-gets (p.store r)) in
            let lent =
              lend-counts m start true r (record { conn = r }) (clear_buffer m r taken)
              ∙ ap (Option.map (settle (some (ok (record { conn = r })))))
                  (clear_buffer-quiet m r taken ∙ took) in
            let q = remove_connection m r taken in
            let later =
              borrow_idle-counts m start indices q
              ∙ ap (Option.map (settle (borrowed (borrow_idle m start indices q).1)))
                  (remove_connection-quiet m r taken ∙ took) in
            elim (Bool-cases (is_connection_valid_for_borrow m (taken.store r) taken)) [
              | inl f ↦ simp (e, borrow_idle, f) lent
              | inr f ↦ simp (e, borrow_idle, f) later
            ]
      ]

  after_create-counts :
      (m : Moment) (start timeout : ℕ) (q : PoolInner Queue) (result : Result ℕ)
      → IsRefusal result
      → let after = after_create m start timeout (q, result) in
        get_counts after.0 ≡ Option.map (settle (outcome after.1)) (get_counts q)
  unfolding after_create
  after_create-counts m start timeout q (ok r) told = lend-counts m start false r _ q
  after_create-counts m start timeout q (err (max_connections_reached a b)) told =
      let full = pool_exhausted (length q.all_connections) q.config.max_connections in
      let exhausted = uncounted full (get_counts q) (λ c. unfold settle in refl) in
      elim (Bool-cases (timeout == 0)) [
        | inl e ↦ simp e exhausted
        | inr e ↦ simp e (sym (map-settle-none (get_counts q)))
      ]
  after_create-counts m start timeout q (err e) told =
      map-gets (λ s. Stats.increment_connection_errors (Stats.increment_failed_gets s))
        (settle (some (err e))) (λ s. refusal-gets e s (told e refl)) q.stats_collector

  after_borrow-counts :
      (m : Moment) (start timeout : ℕ) (protocol : Option Protocol) (ip_version : Option IpVersion)
      (p q : PoolInner Queue) (found : Option ℕ)
      → get_counts q ≡ Option.map (settle (borrowed found)) (get_counts p)
      → let after = after_borrow m start timeout protocol ip_version (q, found) in
        get_counts after.0 ≡ Option.map (settle (outcome after.1)) (get_counts p)
  unfolding after_borrow
  after_borrow-counts m start timeout protocol ip_version p q (some r) h = h
  after_borrow-counts m start timeout protocol ip_version p q none h =
      let created = create_connection m protocol ip_version q in
      after_create-counts m start timeout created.0 created.1
        (create_connection-IsRefusal m protocol ip_version q)
      ∙ ap (Option.map (settle (outcome (after_create m start timeout created).1)))
          (create_connection-quiet m protocol ip_version q ∙ h ∙ map-settle-none (get_counts p))

  if-counts :
      (p : PoolInner Queue) (b : Bool) (x y : PoolInner Queue × Round)
      → get_counts x.0 ≡ Option.map (settle (outcome x.1)) (get_counts p)
      → get_counts y.0 ≡ Option.map (settle (outcome y.1)) (get_counts p)
      → let z = if b then x else y in
        get_counts z.0 ≡ Option.map (settle (outcome z.1)) (get_counts p)
  if-counts p true x y h k = h
  if-counts p false x y h k = k

  get_round-counts :
      (m : Moment) (start timeout : ℕ) (protocol : Option Protocol) (ip_version : Option IpVersion)
      (p : PoolInner Queue)
      → let after = get_round m start timeout protocol ip_version p in
        get_counts after.0 ≡ Option.map (settle (outcome after.1)) (get_counts p)
  unfolding get_round
  get_round-counts m start timeout protocol ip_version p =
      let found = borrow_idle m start (get_target_buckets protocol ip_version) p in
      let searched =
        after_borrow-counts m start timeout protocol ip_version p found.0 found.1
          (borrow_idle-counts m start (get_target_buckets protocol ip_version) p) in
      let late : PoolInner Queue × Round = (
        count (λ s. Stats.increment_timeout_gets (Stats.increment_failed_gets s)) p,
        done (err (get_connection_timeout timeout (m.instant - start))),
      ) in
      let in_time =
        if-counts p (ltb timeout (m.instant - start)) late
          (after_borrow m start timeout protocol ip_version found)
          (map-gets (λ s. Stats.increment_timeout_gets (Stats.increment_failed_gets s)) _
            (timeout-gets timeout (m.instant - start)) p.stats_collector)
          searched in
      if-counts p p.closed (p, done (err pool_closed)) _
        (uncounted pool_closed (get_counts p) (λ c. unfold settle in refl)) in_time

  get_loop-counts :
      (start timeout : ℕ) (protocol : Option Protocol) (ip_version : Option IpVersion)
      (turns : List (Turn Queue)) (p : PoolInner Queue)
      → All (λ t. (q : PoolInner Queue) → get_counts (t.others q) ≡ get_counts q) turns
      → let after = get_loop start timeout protocol ip_version turns p in
        get_counts after.0 ≡ Option.map (settle after.1) (get_counts p)
  unfolding get_loop
  get_loop-counts start timeout protocol ip_version [] p quiet =
      sym (map-settle-none (get_counts p))
  get_loop-counts start timeout protocol ip_version (turn ∷ turns) p (own, quiet) =
      by_round q.1
        (get_round-counts turn.moment start timeout protocol ip_version (turn.others p)
          ∙ ap (Option.map (settle (outcome q.1))) (own p))
        (get_loop-counts start timeout protocol ip_version turns q.0 quiet)
    where
      q : PoolInner Queue × Round
      q = get_round turn.moment start timeout protocol ip_version (turn.others p)

      by_round :
          (round : Round)
          → get_counts q.0 ≡ Option.map (settle (outcome round)) (get_counts p)
          → let later = get_loop start timeout protocol ip_version turns q.0 in
            get_counts later.0 ≡ Option.map (settle later.1) (get_counts q.0)
            → let looped : PoolInner Queue × Option (Result PooledConnection) = elim round [
              | done r ↦ (q.0, some r)
              | waits ↦ get_loop start timeout protocol ip_version turns q.0
            ] in
              get_counts looped.0 ≡ Option.map (settle looped.1) (get_counts p)
      by_round (done r) here later = here
      by_round waits here later =
          later
          ∙ ap (Option.map (settle (get_loop start timeout protocol ip_version turns q.0).1))
              (here ∙ map-settle-none (get_counts p))

  -- A call of `get_connection` on an open pool, where the other threads leave the counters of the gets
  -- alone meanwhile, adds one to the requests, and then what its outcome is counted as: a success, a
  -- failure with a timeout or with a connection error, or nothing where it ends because the pool is
  -- closed or exhausted, or still waits.
  pub get_connection-counts :
      (start timeout : ℕ) (protocol : Option Protocol) (ip_version : Option IpVersion)
      (turns : List (Turn Queue)) (p : PoolInner Queue)
      → All (λ t. (q : PoolInner Queue) → get_counts (t.others q) ≡ get_counts q) turns
      → p.closed ≡ false
      → let after = get_connection start protocol ip_version timeout turns p in
        get_counts after.0 ≡ Option.map (settle after.1) (Option.map requested (get_counts p))
  unfolding get_connection
  get_connection-counts start timeout protocol ip_version turns p quiet opened =
      opened_to p.closed opened
    where
      counted : PoolInner Queue
      counted = count Stats.increment_total_get_requests p

      looped : PoolInner Queue × Option (Result PooledConnection)
      looped = get_loop start timeout protocol ip_version turns counted

      asked : get_counts counted ≡ Option.map requested (get_counts p)
      asked =
          map-gets Stats.increment_total_get_requests requested
            (λ s. unfold Stats.increment_total_get_requests in refl) p.stats_collector

      opened_to :
          (b : Bool)
          → b ≡ false
          → let after = if b then (p, some (err pool_closed)) else looped in
            get_counts after.0 ≡ Option.map (settle after.1) (Option.map requested (get_counts p))
      opened_to true e = cc
      opened_to false e =
          get_loop-counts start timeout protocol ip_version turns counted quiet
          ∙ ap (Option.map (settle looped.1)) asked

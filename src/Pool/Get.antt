-- ===== src/Pool/Get.antt =====
-- src/pool/mod.rs: `get_connection` and the methods of `Pool` that call it. One pass of its loop is
-- `get_round`; between two passes it waits, and other threads may change the pool.
use netconnpool_rust.Base.{
  ℕ, ◌-◌, Bool, true, false, ◌&&◌, Option, none, some, List, [], ◌∷◌, ok, err, ltb, ◌==◌, length,
  update, if◌then◌else◌,
}
use netconnpool_rust.Config.{tcp, udp}
use netconnpool_rust.Connection
use netconnpool_rust.Connection.{Connection}
use netconnpool_rust.Errors.{
  Result, pool_closed, get_connection_timeout, pool_exhausted, max_connections_reached,
}
use netconnpool_rust.IpVersion.{IpVersion}
use netconnpool_rust.Net.{Moment}
use netconnpool_rust.Protocol
use netconnpool_rust.Protocol.{Protocol}
use netconnpool_rust.SegQueue.{SegQueue}
use netconnpool_rust.Stats
use netconnpool_rust.Udp.{clear_udp_read_buffer}
use netconnpool_rust.Pool.State.{
  PoolInner, on_borrow, set_conn, count, log, fetch_add, fetch_sub, get_target_buckets,
  is_connection_valid_for_borrow, update_stats_on_idle_pop, update_stats_on_get_success,
}
use netconnpool_rust.Pool.Remove.{remove_connection}
use netconnpool_rust.Pool.Idle.{PooledConnection}
use netconnpool_rust.Pool.Create.{create_connection}

-- How a pass ends: the call returns, or it waits on the condition variable.
pub data Round : Type 0 where
  done : Result PooledConnection → Round
  waits : Round

-- What `clear_udp_read_buffer` leaves of the connection's socket; its result is thrown away.
unfoldable pub clear_socket : Moment → (timeout max_packets : ℕ) → Connection → Connection
clear_socket m timeout max_packets c = elim c.conn [
  | tcp _ ↦ c
  | udp s ↦ record c { conn = udp (clear_udp_read_buffer m.clear_elapsed s timeout max_packets).0 }
]

-- What comes between two passes: the other threads' work, and then the clocks.
pub record Turn (Queue : Type 0) : Type 0 where
  pub others : PoolInner Queue → PoolInner Queue
  pub moment : Moment

module _ {Queue : Type 0} where
  unfoldable pub clear_buffer : Moment → ℕ → PoolInner Queue → PoolInner Queue
  clear_buffer m r p =
      let c = p.store r in
      if p.config.clear_udp_buffer_on_return && Protocol.eq c.protocol Protocol.udp
      then set_conn r
          (clear_socket m p.config.udp_buffer_clear_timeout p.config.max_buffer_clear_packets c) p
      else p

  call_on_borrow : ℕ → PoolInner Queue → PoolInner Queue
  call_on_borrow r p = elim p.config.on_borrow [ none ↦ p | some _ ↦ log (on_borrow r) p ]

  -- From `mark_in_use` to the return, for a reused connection and for a new one.
  unfoldable pub lend :
      Moment → (start : ℕ) → (is_reused : Bool) → ℕ → PoolInner Queue → PoolInner Queue
  unfolding call_on_borrow
  lend m start is_reused r p =
      let marked = Connection.mark_in_use m (p.store r) in
      let c = if is_reused then Connection.increment_reuse_count marked else marked in
      count (update_stats_on_get_success is_reused (m.instant - start))
        (call_on_borrow r (record (set_conn r c p) { active_count = fetch_add p.active_count }))

module _ {Queue : Type 0} ⦃sq : SegQueue ℕ Queue⦄ where
  -- What follows a successful `pop`: the counters.
  unfoldable pub take_idle : (idx r : ℕ) → Queue → PoolInner Queue → PoolInner Queue
  take_idle idx r rest p = count (update_stats_on_idle_pop (p.store r)) (record p {
    idle_connections = update p.idle_connections idx rest;
    idle_counts = update p.idle_counts idx (fetch_sub (p.idle_counts idx));
  })

  -- The loop over the buckets: the first idle connection that is fit to lend.
  unfoldable pub borrow_idle :
      Moment → (start : ℕ) → List ℕ → PoolInner Queue → PoolInner Queue × Option ℕ
  borrow_idle m start [] p = (p, none)
  borrow_idle m start (idx ∷ indices) p = elim (sq.pop (p.idle_connections idx)) [
    | none ↦ borrow_idle m start indices p
    | some (r, rest) ↦
        let taken = take_idle idx r rest p in
        elim (is_connection_valid_for_borrow m (taken.store r) taken) [
          | true ↦ (lend m start true r (clear_buffer m r taken), some r)
          | false ↦ borrow_idle m start indices (remove_connection m r taken)
        ]
  ]

  -- What the loop does with the answer of `create_connection`.
  unfoldable pub after_create :
      Moment → (start timeout : ℕ) → PoolInner Queue × Result ℕ → PoolInner Queue × Round
  after_create m start timeout (p, ok r) = (lend m start false r p, done (ok (record { conn = r })))
  after_create m start timeout (p, err (max_connections_reached _ _)) =
      if timeout == 0
      then (p, done (err (pool_exhausted (length p.all_connections) p.config.max_connections)))
      else (p, waits)
  after_create m start timeout (p, err e) = (
    count (λ s. Stats.increment_connection_errors (Stats.increment_failed_gets s)) p,
    done (err e),
  )

  -- What follows the loop over the buckets.
  unfoldable pub after_borrow :
      Moment
      → (start timeout : ℕ) → Option Protocol
      → Option IpVersion
      → PoolInner Queue × Option ℕ
      → PoolInner Queue × Round
  after_borrow m start timeout protocol ip_version (p, some r) =
      (p, done (ok (record { conn = r })))
  after_borrow m start timeout protocol ip_version (p, none) =
      after_create m start timeout (create_connection m protocol ip_version p)

  -- One pass of the loop of `get_connection`, for a call that began at `start`.
  unfoldable pub get_round :
      Moment
      → (start timeout : ℕ) → Option Protocol
      → Option IpVersion
      → PoolInner Queue
      → PoolInner Queue × Round
  get_round m start timeout protocol ip_version p =
      let searched =
        after_borrow m start timeout protocol ip_version
          (borrow_idle m start (get_target_buckets protocol ip_version) p) in
      if p.closed
      then (p, done (err pool_closed))
      else if ltb timeout (m.instant - start)
      then (
        count (λ s. Stats.increment_timeout_gets (Stats.increment_failed_gets s)) p,
        done (err (get_connection_timeout timeout (m.instant - start))),
      )
      else searched

  -- The passes over the turns that the environment gives; `none` if the call still waits then.
  unfoldable pub get_loop :
      (start timeout : ℕ)
      → Option Protocol
      → Option IpVersion
      → List (Turn Queue)
      → PoolInner Queue
      → PoolInner Queue × Option (Result PooledConnection)
  get_loop start timeout protocol ip_version [] p = (p, none)
  get_loop start timeout protocol ip_version (turn ∷ turns) p =
      let (q, round) = get_round turn.moment start timeout protocol ip_version (turn.others p) in
      elim round [
        | done r ↦ (q, some r)
        | waits ↦ get_loop start timeout protocol ip_version turns q
      ]

  -- `PoolInner::get_connection`.
  unfoldable pub get_connection :
      (start : ℕ)
      → Option Protocol
      → Option IpVersion
      → (timeout : ℕ) → List (Turn Queue)
      → PoolInner Queue
      → PoolInner Queue × Option (Result PooledConnection)
  get_connection start protocol ip_version timeout turns p =
      let rest =
        get_loop start timeout protocol ip_version turns
          (count Stats.increment_total_get_requests p) in
      if p.closed then (p, some (err pool_closed)) else rest

  -- The methods of `Pool`.
  unfoldable pub get_with_timeout :
      (start timeout : ℕ)
      → List (Turn Queue)
      → PoolInner Queue
      → PoolInner Queue × Option (Result PooledConnection)
  get_with_timeout start timeout = get_connection start none none timeout

  unfoldable pub get_with_protocol :
      (start : ℕ)
      → Protocol
      → (timeout : ℕ) → List (Turn Queue)
      → PoolInner Queue
      → PoolInner Queue × Option (Result PooledConnection)
  get_with_protocol start protocol timeout = get_connection start (some protocol) none timeout

  unfoldable pub get_with_ip_version :
      (start : ℕ)
      → IpVersion
      → (timeout : ℕ) → List (Turn Queue)
      → PoolInner Queue
      → PoolInner Queue × Option (Result PooledConnection)
  get_with_ip_version start ip_version timeout = get_connection start none (some ip_version) timeout

  unfoldable pub get :
      (start : ℕ)
      → List (Turn Queue)
      → PoolInner Queue
      → PoolInner Queue × Option (Result PooledConnection)
  get start turns p = get_with_timeout start p.config.get_connection_timeout turns p

  unfoldable pub try_get :
      (start : ℕ)
      → List (Turn Queue)
      → PoolInner Queue
      → PoolInner Queue × Option (Result PooledConnection)
  try_get start = get_with_timeout start 0

  unfoldable pub acquire :
      (start : ℕ)
      → List (Turn Queue)
      → PoolInner Queue
      → PoolInner Queue × Option (Result PooledConnection)
  acquire = get

  unfoldable pub get_ipv4 :
      (start : ℕ)
      → List (Turn Queue)
      → PoolInner Queue
      → PoolInner Queue × Option (Result PooledConnection)
  get_ipv4 start turns p =
      get_with_ip_version start IpVersion.ipv4 p.config.get_connection_timeout turns p

  unfoldable pub get_ipv6 :
      (start : ℕ)
      → List (Turn Queue)
      → PoolInner Queue
      → PoolInner Queue × Option (Result PooledConnection)
  get_ipv6 start turns p =
      get_with_ip_version start IpVersion.ipv6 p.config.get_connection_timeout turns p

  unfoldable pub get_tcp :
      (start : ℕ)
      → List (Turn Queue)
      → PoolInner Queue
      → PoolInner Queue × Option (Result PooledConnection)
  get_tcp start turns p =
      get_with_protocol start Protocol.tcp p.config.get_connection_timeout turns p

  unfoldable pub get_udp :
      (start : ℕ)
      → List (Turn Queue)
      → PoolInner Queue
      → PoolInner Queue × Option (Result PooledConnection)
  get_udp start turns p =
      get_with_protocol start Protocol.udp p.config.get_connection_timeout turns p

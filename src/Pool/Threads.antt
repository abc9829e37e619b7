-- ===== src/Pool/Threads.antt =====
-- src/pool/mod.rs: `Pool::new`, the threads that it starts, and the remaining methods of `Pool`.
use netconnpool_rust.Base.{
  ℕ, zero, suc, ◌+◌, ◌%◌, ◌^◌, Bool, true, false, ◌&&◌, ◌||◌, not, ltb, none, some, List, [], ◌∷◌,
  Outcome, ok, err, ◌>>◌, map_err, if◌then◌else◌,
}
use netconnpool_rust.Config.{Config, apply_defaults, validate}
use netconnpool_rust.Connection.{Connection}
use netconnpool_rust.Errors.{Result, IoError, io_error}
use netconnpool_rust.Mode.{client, eq}
use netconnpool_rust.Net.{Moment}
use netconnpool_rust.SegQueue.{SegQueue}
use netconnpool_rust.Stats
use netconnpool_rust.Stats.{StatsInternal}
use netconnpool_rust.Stats.Snapshot.{Stats, get_stats, default}
use netconnpool_rust.Pool.State.{PoolInner}
use netconnpool_rust.Pool.Idle.{add_idle_connection}
use netconnpool_rust.Pool.Create.{create_connection}
use netconnpool_rust.Pool.Cleanup.{cleanup}

-- A round of the prewarmer: the other threads' work before it, the clocks, and whether `upgrade` of the
-- weak reference finds the pool.
pub record Upgrade (Queue : Type 0) : Type 0 where
  pub others : PoolInner Queue → PoolInner Queue
  pub moment : Moment
  pub lives : Bool

-- A wait of the reaper: whether `upgrade` finds the pool before it, the other threads' work in it,
-- whether it ran to its end, and whether `upgrade` finds the pool afterwards.
pub record Wait (Queue : Type 0) : Type 0 where
  pub begins : Bool
  pub others : PoolInner Queue → PoolInner Queue
  pub moment : Moment
  pub timed_out : Bool
  pub lives : Bool

module _ {Queue : Type 0} ⦃sq : SegQueue ℕ Queue⦄ where
  -- The value of `PoolInner` that `Pool::new` builds. The heap and the generator are what the
  -- process has at that time.
  unfoldable pub init : (store : ℕ → Connection) (next_ref generator : ℕ) → Config → PoolInner Queue
  init store next_ref generator config = record {
    config = config;
    store = store;
    next_ref = next_ref;
    generator = generator;
    all_connections = [];
    idle_connections = λ _. sq.new;
    idle_counts = λ _. 0;
    closed = false;
    active_count = 0;
    stats_collector = if config.enable_stats then some Stats.new else none;
    trace = [];
  }

  -- `Pool::new`; `spawned` is the answer of the system to the start of the reaper's thread.
  unfoldable pub new :
      (store : ℕ → Connection) (next_ref generator : ℕ)
      → Outcome (Unit {0}) IoError
      → Config
      → Result (PoolInner Queue)
  new store next_ref generator spawned config = do
    validate (apply_defaults config)
    map_err io_error spawned
    ok (init store next_ref generator (apply_defaults config))

  -- Whether `Pool::new` starts the prewarmer.
  unfoldable pub starts_prewarmer : PoolInner Queue → Bool
  starts_prewarmer p = eq p.config.mode client && ltb 0 p.config.min_connections

  -- The rounds of `Pool::prewarm`; it ends where the pool is gone, is closed, or a creation fails.
  unfoldable pub prewarm_rounds :
      (target : ℕ) → List (Upgrade Queue) → PoolInner Queue → PoolInner Queue
  prewarm_rounds zero turns p = p
  prewarm_rounds (suc target) [] p = p
  prewarm_rounds (suc target) (turn ∷ turns) p =
      let q = turn.others p in
      elim (not turn.lives) [
        | true ↦ q
        | false ↦ elim q.closed [
          | true ↦ q
          | false ↦
              let (s, created) = create_connection turn.moment none none q in
              elim created [
                | ok r ↦ prewarm_rounds target turns (add_idle_connection turn.moment r s)
                | err _ ↦ s
              ]
        ]
      ]

  -- `Pool::prewarm`; `lives` is the answer of its first `upgrade`.
  unfoldable pub prewarm : (lives : Bool) → List (Upgrade Queue) → PoolInner Queue → PoolInner Queue
  prewarm lives turns p = if lives then prewarm_rounds p.config.min_connections turns p else p

  -- Whether the reaper ends after its wait: woken, it looks at the pool at once, and then it looks in
  -- any case.
  unfoldable pub ends_after : Wait Queue → PoolInner Queue → Bool
  ends_after wait p =
      if not wait.timed_out && (not wait.lives || p.closed)
      then true
      else not wait.lives || p.closed

  -- `Pool::reaper` over its waits: the pool, and whether the thread has ended.
  unfoldable pub reaper : List (Wait Queue) → PoolInner Queue → PoolInner Queue × Bool
  unfolding ends_after
  reaper [] p = (p, false)
  reaper (wait ∷ waits) p =
      let q = wait.others p in
      elim (not wait.begins || p.closed) [
        | true ↦ (p, true)
        | false ↦ elim (ends_after wait q) [
          | true ↦ (q, true)
          | false ↦ reaper waits (cleanup wait.moment q)
        ]
      ]

  -- `Pool::stats`.
  unfoldable pub stats : Moment → PoolInner Queue → PoolInner Queue × Stats
  stats m p = elim p.stats_collector [
    | none ↦ (p, default m)
    | some s ↦
        let (s', snapshot) = get_stats m s in (record p { stats_collector = some s' }, snapshot)
  ]

  -- `Pool::idle_count`, with the sum of `usize` as a release build computes it.
  unfoldable pub idle_count : PoolInner Queue → ℕ
  idle_count p = (p.idle_counts 0 + p.idle_counts 1 + p.idle_counts 2 + p.idle_counts 3) % 2 ^ 64

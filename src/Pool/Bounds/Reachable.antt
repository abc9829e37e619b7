-- ===== src/Pool/Bounds/Reachable.antt =====
-- src/pool/mod.rs: the limits of a pool from `Pool::new` on.
use netconnpool_rust.Base.{ℕ, ◌^◌, ◌≤◌, ◌<◌, ◌≡◌, sym, ap, subst, arith, length, Outcome, ok}
use netconnpool_rust.Config.{Config, apply_defaults}
use netconnpool_rust.Connection.{Connection}
use netconnpool_rust.Errors.{IoError}
use netconnpool_rust.SegQueue.{SegQueue}
use netconnpool_rust.Pool.State.{PoolInner}
use netconnpool_rust.Pool.System.{
  Step, counts, gets, admits, parks, returns, cleans, closes, ends, takes, pushes, removes,
  closes_one, releases, clears, lends, inspects, finishes, flags, drains, uses, allocates, Reach,
  here, next,
}
use netconnpool_rust.Pool.Frame.{
  count-Keeps, cleanup-Keeps, remove_connection-Keeps, close_connection-Keeps, release_active-Keeps,
  clear_buffer-Keeps, lend-Keeps, inspect-Keeps, set_conn-Keeps,
}
use netconnpool_rust.Pool.Threads.{init, new}
use netconnpool_rust.Pool.Bounds.Invariant.{IsBounded, Keeps-IsBounded, take_idle-IsBounded}
use netconnpool_rust.Pool.Bounds.Handlers.{
  get_round-IsBounded, create_admit-IsBounded, add_idle_connection-IsBounded,
  return_connection-IsBounded, try_push_idle-IsBounded, create_finish-IsBounded, allocate-Keeps,
}
use netconnpool_rust.Pool.Bounds.Closing.{
  drain_buckets-IsBounded, close_idle-IsBounded, close_rest-IsBounded,
}

max_idle-apply_defaults :
    (c : Config) → (apply_defaults c).max_idle_connections ≤ c.max_idle_connections
unfolding apply_defaults
max_idle-apply_defaults c = ground arith

module _ {Queue : Type 0} ⦃sq : SegQueue ℕ Queue⦄ where
  Step-IsBounded : {p q : PoolInner Queue} → Step p q → IsBounded p → IsBounded q
  Step-IsBounded {p} (counts f) = Keeps-IsBounded (count-Keeps f p)
  Step-IsBounded {p} (gets m start timeout protocol ip_version) =
      get_round-IsBounded m start timeout protocol ip_version p
  Step-IsBounded {p} (admits m protocol ip_version t) =
      create_admit-IsBounded m protocol ip_version t p
  Step-IsBounded {p} (parks m r) = add_idle_connection-IsBounded m r p
  Step-IsBounded {p} (returns m r) = return_connection-IsBounded m r p
  Step-IsBounded {p} (cleans m) = Keeps-IsBounded (cleanup-Keeps m p)
  Step-IsBounded {p} (closes m) = close_idle-IsBounded m p
  Step-IsBounded {p} (ends m) = close_rest-IsBounded m p
  Step-IsBounded {p} (takes idx r rest e) = take_idle-IsBounded idx r rest p e
  Step-IsBounded {p} (pushes m r idx) = try_push_idle-IsBounded m r idx p
  Step-IsBounded {p} (removes m r) = Keeps-IsBounded (remove_connection-Keeps m r p)
  Step-IsBounded {p} (closes_one m r) = Keeps-IsBounded (close_connection-Keeps m r p)
  Step-IsBounded {p} (releases m r) = Keeps-IsBounded (release_active-Keeps m r p)
  Step-IsBounded {p} (clears m r) = Keeps-IsBounded (clear_buffer-Keeps m r p)
  Step-IsBounded {p} (lends m start is_reused r) =
      Keeps-IsBounded (lend-Keeps m start is_reused r p)
  Step-IsBounded {p} (inspects m r) = Keeps-IsBounded (inspect-Keeps m r p)
  Step-IsBounded {p} (finishes m r) = create_finish-IsBounded m r p
  Step-IsBounded {p} flags =
      λ b. record { within = b.within; counted = b.counted; limited = b.limited; word = b.word }
  Step-IsBounded {p} (drains idx) = drain_buckets-IsBounded 1 idx p
  Step-IsBounded {p} (uses r c) = Keeps-IsBounded (set_conn-Keeps r c p)
  Step-IsBounded {p} (allocates m t) = Keeps-IsBounded (allocate-Keeps m t p)

  Reach-IsBounded : {p q : PoolInner Queue} → Reach p q → IsBounded p → IsBounded q
  Reach-IsBounded here b = b
  Reach-IsBounded (next r s) b = Step-IsBounded s (Reach-IsBounded r b)

  init-IsBounded :
      (store : ℕ → Connection) (next_ref generator : ℕ) (config : Config)
      → config.max_idle_connections < 2 ^ 64
      → IsBounded {Queue = Queue} (init store next_ref generator config)
  unfolding init
  init-IsBounded store next_ref generator config word = record {
    within = λ h. omega arith;
    counted = λ i. omega (arith, ap length sq.to_list-new);
    limited = λ i. omega arith;
    word = word;
  }

  pub new-eq-ok :
      (store : ℕ → Connection) (next_ref generator : ℕ) (spawned : Outcome (Unit {0}) IoError)
      (config : Config) {p : PoolInner Queue}
      → new store next_ref generator spawned config ≡ ok p
      → p ≡ init store next_ref generator (apply_defaults config)
  unfolding new
  new-eq-ok store next_ref generator spawned config made = ground arith

  -- Where the configured `max_idle_connections` is a 64-bit number, and as long as each push to an idle
  -- queue and each pop from one is taken as one with its counter, and the draining of a queue in `close`
  -- as one with the reset of its counter: in every state that a new pool comes to by the steps of
  -- `System`, the parts of the handlers in any order and by any threads, the map holds at most
  -- `max_connections` connections (where that is not zero), and each idle counter is the length of its
  -- queue and at most `max_idle_connections`.
  pub new-Reach-IsBounded :
      (store : ℕ → Connection) (next_ref generator : ℕ) (spawned : Outcome (Unit {0}) IoError)
      (config : Config) {p q : PoolInner Queue}
      → config.max_idle_connections < 2 ^ 64
      → new store next_ref generator spawned config ≡ ok p
      → Reach p q
      → IsBounded q
  new-Reach-IsBounded store next_ref generator spawned config word made r =
      let is_init = new-eq-ok store next_ref generator spawned config made in
      let limit = max_idle-apply_defaults config in
      let bounded =
        init-IsBounded store next_ref generator (apply_defaults config) (omega (arith, limit)) in
      Reach-IsBounded r (subst IsBounded (sym is_init) bounded)

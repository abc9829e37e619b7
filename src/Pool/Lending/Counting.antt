-- ===== src/Pool/Lending/Counting.antt =====
-- src/pool/mod.rs: the counter of the active connections, in a pool that `Pool::new` made.
use netconnpool_rust.Base.{
  ℕ, ◌%◌, ◌^◌, ◌<◌, ◌≡◌, refl, sym, subst, ap, ◌∙◌, inl, inr, true, false, arith, times, update, ok,
  Outcome, Bool-cases, ◌==◌,
}
use netconnpool_rust.Config.{Config, apply_defaults}
use netconnpool_rust.Connection.{Connection}
use netconnpool_rust.Errors.{IoError}
use netconnpool_rust.SegQueue.{SegQueue}
use netconnpool_rust.Pool.State.{PoolInner}
use netconnpool_rust.Pool.Idle.{return_connection}
use netconnpool_rust.Pool.Get.{lend, get_round}
use netconnpool_rust.Pool.Create.{create_admit}
use netconnpool_rust.Pool.Threads.{init, new}
use netconnpool_rust.Pool.Bounds.{new-eq-ok}
use netconnpool_rust.Pool.Follows.{cleanup-Follows, close_rest-Follows}
use netconnpool_rust.Pool.Follows.Queues.{close_idle-Follows}
use netconnpool_rust.Pool.Owners
use netconnpool_rust.Pool.Owners.{World}
use netconnpool_rust.Pool.Owners.Moving.{IsOwned, allocated_of_held}
use netconnpool_rust.Pool.Owners.Ownership.{Step-IsOwned}
use netconnpool_rust.Pool.Owners.Exclusive.{new-Reach-IsOwned}
use netconnpool_rust.Pool.Settles.{
  in_use_count, in_use_count-none, IsSettled, count-Settles, set_conn-Settles, Settles-Follows,
}
use netconnpool_rust.Pool.Settles.Lending.{lend-Lends, create_admit-Makes, allocate-Settles}
use netconnpool_rust.Pool.Settles.Round.{
  get_round-Lends, return_connection-Settles, add_idle_connection-Settles,
}
use netconnpool_rust.Pool.Lending.{
  Lending, fresh, Step, counts, gets, admits, lends, parks, returns, cleans, closes, ends, uses,
  makes_elsewhere, Reach, here, next,
}
use netconnpool_rust.Pool.Lending.Holding.{
  IsLent, IsLent-IsCalm, IsLent-idle, settled-IsLent, got-IsLent, made-IsLent, given_back,
}

module _ {Queue : Type 0} ⦃sq : SegQueue ℕ Queue⦄ where
  -- A step with the marks is one without them.
  Step-Owners : {u v : Lending Queue} → Step u v → Owners.Step u.world v.world
  Step-Owners (counts f) = Owners.counts f
  Step-Owners (gets m start timeout protocol ip_version) =
      Owners.gets m start timeout protocol ip_version
  Step-Owners (admits m protocol ip_version t) = Owners.admits m protocol ip_version t
  Step-Owners (lends m start r h free) = Owners.lends m start r h
  Step-Owners (parks m r h free) = Owners.parks m r h
  Step-Owners (returns m r h lent) = Owners.returns m r h
  Step-Owners (cleans m) = Owners.cleans m
  Step-Owners (closes m) = Owners.closes m
  Step-Owners (ends m) = Owners.ends m
  Step-Owners (uses r c e mark) = Owners.uses r c e
  Step-Owners (makes_elsewhere m t) = Owners.makes_elsewhere m t

  lends-IsLent :
      (u : Lending Queue) (m : _) (start r : ℕ)
      → 0 < times r u.world.held
      → u.lent r ≡ false
      → IsOwned (record { pool = lend m start false r u.world.pool; held = u.world.held })
      → IsLent u
      → IsLent (record {
        world = record { pool = lend m start false r u.world.pool; held = u.world.held };
        lent = update u.lent r true;
      })
  lends-IsLent u m start r has free owned o =
      let h =
        lend-Lends m start false r u.world.pool (IsLent-idle u r o free)
          (allocated_of_held u.world r o.owned has) in
      record {
        owned = owned;
        settled = h.settled o.settled;
        handled = λ s e. elim (h.wakes s e) [
          | inl was ↦ ground (arith, o.handled s was)
          | inr own ↦ ground (arith, own, has)
        ];
      }

  Step-IsLent : {u v : Lending Queue} → Step u v → IsLent u → IsLent v
  Step-IsLent {u} {v} s o = by_step s (Step-IsOwned (Step-Owners s) o.owned)
    where
      by_step : {v : Lending Queue} → Step u v → IsOwned v.world → IsLent v
      by_step (counts f) owned = settled-IsLent u _ (count-Settles f u.world.pool) owned o
      by_step (gets m start timeout protocol ip_version) owned =
          got-IsLent u (get_round m start timeout protocol ip_version u.world.pool)
            (get_round-Lends m start timeout protocol ip_version u.world.pool (IsLent-IsCalm u o))
            owned o
      by_step (admits m protocol ip_version t) owned =
          made-IsLent u (create_admit m protocol ip_version t u.world.pool)
            (create_admit-Makes m protocol ip_version t u.world.pool) owned o
      by_step (lends m start r h free) owned = lends-IsLent u m start r h free owned o
      by_step (parks m r h free) owned =
          let settles = add_idle_connection-Settles m r u.world.pool (IsLent-idle u r o free) in
          given_back u _ r u.lent settles h
            (λ j e.
              let (lent, _) = o.handled j (settles.calms j e) in
              (
                elim (Bool-cases (r == j)) [
                  | inl own ↦
                      let here : r ≡ j = ground (arith, own) in cc (ap u.lent here, free, lent)
                  | inr other ↦ other
                ],
                refl,
              ))
            owned o
      by_step (returns m r h lent) owned =
          let (settles, idle) = return_connection-Settles m r u.world.pool in
          let q = return_connection m r u.world.pool in
          let other : (j : ℕ) → (q.store j).in_use ≡ true → (r == j) ≡ false = λ j e.
            elim (Bool-cases (r == j)) [
              | inl own ↦
                  let here : r ≡ j = ground (arith, own) in
                  cc (ap (λ k. (q.store k).in_use) here, idle, e)
              | inr differs ↦ differs
            ] in
          given_back u q r (update u.lent r false) settles h
            (λ j e. (other j e, ground (arith, other j e))) owned o
      by_step (cleans m) owned =
          settled-IsLent u _ (cleanup-Follows Settles-Follows m u.world.pool) owned o
      by_step (closes m) owned =
          settled-IsLent u _ (close_idle-Follows Settles-Follows m u.world.pool) owned o
      by_step (ends m) owned =
          settled-IsLent u _ (close_rest-Follows Settles-Follows m u.world.pool) owned o
      by_step (uses r c e mark) owned =
          settled-IsLent u _ (set_conn-Settles r c u.world.pool mark) owned o
      by_step (makes_elsewhere m t) owned =
          settled-IsLent u _ (allocate-Settles m t u.world.pool) owned o

  Reach-IsLent : {u v : Lending Queue} → Reach u v → IsLent u → IsLent v
  Reach-IsLent here o = o
  Reach-IsLent (next r s) o = Step-IsLent s (Reach-IsLent r o)

  init-IsSettled :
      (store : ℕ → Connection) (next_ref generator : ℕ) (config : Config)
      → ((s : ℕ) → (store s).in_use ≡ false)
      → IsSettled {Queue = Queue} (init store next_ref generator config)
  unfolding init
  init-IsSettled store next_ref generator config idle = record {
    counted = omega (arith, in_use_count-none next_ref store idle);
    placed = λ s e. cc (idle s, e);
  }

  init-idle :
      (store : ℕ → Connection) (next_ref generator : ℕ) (config : Config) (p : PoolInner Queue)
      → p ≡ init store next_ref generator config
      → ((s : ℕ) → (store s).in_use ≡ false)
      → (s : ℕ) → (p.store s).in_use ≡ false
  unfolding init
  init-idle store next_ref generator config p e idle s = ap (λ q. (q.store s).in_use) e ∙ idle s

  -- In a new pool that was made where no connection was in use, the only pool that lends, between whole
  -- passes of the handlers, whatever its threads do, as long as a thread lends only what it has made and
  -- not lent, and parks only such, and no borrower calls `mark_in_use`, `mark_idle`, `try_mark_idle` or
  -- `update_id` on the connection it has: the counter of the active connections is the number of
  -- connections that are in use, as a word of 64 bits, and each of those is held by a borrower.
  pub new-Reach-active_count :
      (store : ℕ → Connection) (next_ref generator : ℕ) (spawned : Outcome (Unit {0}) IoError)
      (config : Config) {p : PoolInner Queue} {u : Lending Queue}
      → new store next_ref generator spawned config ≡ ok p
      → ((s : ℕ) → (store s).in_use ≡ false)
      → Reach (fresh p) u
      → let q = u.world.pool in
        (q.active_count ≡ in_use_count q.next_ref q.store % 2 ^ 64)
        × ((s : ℕ) → (q.store s).in_use ≡ true → 0 < times s u.world.held)
  new-Reach-active_count store next_ref generator spawned config {p = p} {u = u} made_it idle r =
      let owned = new-Reach-IsOwned store next_ref generator spawned config made_it Owners.here in
      let is_init = new-eq-ok store next_ref generator spawned config made_it in
      let settled : IsSettled p =
        subst IsSettled (sym is_init)
          (init-IsSettled store next_ref generator (apply_defaults config) idle) in
      let still = init-idle store next_ref generator (apply_defaults config) p is_init idle in
      let o =
        Reach-IsLent r
          (record { owned = owned; settled = settled; handled = λ s e. cc (still s, e) }) in
      (o.settled.counted, λ s e. (o.handled s e).1)

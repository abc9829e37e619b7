-- ===== src/Pool/Owners/Ownership.antt =====
-- src/pool/mod.rs: the owners of the connections through the steps of a pool's threads.
use netconnpool_rust.Base.{
  ℕ, ◌+◌, ◌≤◌, ◌<◌, ◌≡◌, refl, sym, subst, ap, Bool, true, false, Option, none, some, List, arith,
  times, ok, err, ltb, length, ◌-◌, ◌==◌, if◌then◌else◌,
}
use netconnpool_rust.Config.{ConnectionType}
use netconnpool_rust.Connection.Evolution.{Evolves, Evolves-refl}
use netconnpool_rust.Errors.{
  Result, max_connections_reached, pool_exhausted, pool_closed, get_connection_timeout,
}
use netconnpool_rust.IpVersion.{IpVersion}
use netconnpool_rust.Net.{Moment}
use netconnpool_rust.Protocol.{Protocol}
use netconnpool_rust.SegQueue.{SegQueue}
use netconnpool_rust.Stats.{
  increment_timeout_gets, increment_failed_gets, increment_connection_errors,
}
use netconnpool_rust.Pool.State.{PoolInner, count, get_target_buckets}
use netconnpool_rust.Pool.Create.{create_connection, allocate}
use netconnpool_rust.Pool.Get.{
  lend, get_round, borrow_idle, after_create, after_borrow, done, waits, Round,
}
use netconnpool_rust.Pool.Close.{close_idle, close_rest}
use netconnpool_rust.Pool.Frame.{lend-Keeps, cleanup-Keeps}
use netconnpool_rust.Pool.Bounds.{remove_batches-Keeps}
use netconnpool_rust.Pool.Drained.{close_idle_empties}
use netconnpool_rust.Pool.Minting.{
  allocate-facts, Mints, create_admit-Mints, create_connection-Mints,
}
use netconnpool_rust.Pool.Owners.{
  World, handed, Step, counts, gets, admits, lends, parks, returns, cleans, closes, ends, uses,
  makes_elsewhere, Reach, here, next,
}
use netconnpool_rust.Pool.Owners.Moving.{IsOwned, Moves, Moves-IsOwned}
use netconnpool_rust.Pool.Queued.{
  times_at, queued, one_of, borrow_idle-queued, get_target_buckets_low, return_connection-queued,
  add_idle_connection-queued,
}
use netconnpool_rust.Pool.Retains.{
  Retains, Retains-refl, count-Retains, set_conn-Retains, Grows-Retains,
}
use netconnpool_rust.Pool.Retains.Handlers.{
  Retains-Follows, lend-Retains, add_idle_connection-Retains, borrow_idle-Retains,
}
use netconnpool_rust.Pool.Follows.{cleanup-Follows, close_rest-Follows}
use netconnpool_rust.Pool.Follows.Queues.{close_idle-Follows, return_connection-Follows}
use netconnpool_rust.Pool.Sorting.{
  return_connection-Requeues, add_idle_connection-Requeues, borrow_idle-at,
}
use netconnpool_rust.Pool.Owners.Passing.{
  calm-Moves, quiet-Moves, after-Moves, made-Moves, given-Moves, Mints-then,
}

module _ {Queue : Type 0} ⦃sq : SegQueue ℕ Queue⦄ where
  -- The last part of a pass of `get_connection`.
  after_create-Moves :
      (m : Moment) (start timeout : ℕ) (p q : PoolInner Queue) (result : Result ℕ) (held : List ℕ)
      → Mints p q result
      → Moves
          (record { pool = p; held = held })
          (handed (after_create m start timeout (q, result)) held)
  unfolding after_create
  after_create-Moves m start timeout p q (ok r) held h =
      made-Moves p (lend m start false r q) (ok r) held (
        Mints-then h (lend-Retains m start false r q)
          (lend-Keeps m start false r q).idle_connections)
  after_create-Moves m start timeout p q (err (max_connections_reached a b)) held h =
      refused (timeout == 0)
    where
      refused :
          (at_once : Bool)
          → Moves
              (record { pool = p; held = held })
              (handed
                (if at_once
                  then (
                    q,
                    done (err (pool_exhausted (length q.all_connections) q.config.max_connections)),
                  )
                  else (q, waits))
                held)
      refused true = made-Moves p q (err (max_connections_reached a b)) held h
      refused false = made-Moves p q (err (max_connections_reached a b)) held h
  after_create-Moves m start timeout p q (err e) held h =
      made-Moves p (count (λ s. increment_connection_errors (increment_failed_gets s)) q) (err e)
        held
        (Mints-then h (count-Retains (λ s. increment_connection_errors (increment_failed_gets s)) q)
          refl)

  after_borrow-Moves :
      (m : Moment) (start timeout : ℕ) (protocol : Option Protocol) (ip_version : Option IpVersion)
      (p q : PoolInner Queue) (found : Option ℕ) (held : List ℕ)
      → Retains p q
      → ((s : ℕ) → queued s q + times s (one_of found) ≤ queued s p)
      → ((s i : ℕ) → times_at s i q ≤ times_at s i p)
      → Moves
          (record { pool = p; held = held })
          (handed (after_borrow m start timeout protocol ip_version (q, found)) held)
  unfolding after_borrow
  after_borrow-Moves m start timeout protocol ip_version p q (some r) held h tally at =
      calm-Moves h (λ s. omega (arith, tally s)) (λ s i low. at s i)
  after_borrow-Moves m start timeout protocol ip_version p q none held h tally at =
      let created = create_connection m protocol ip_version q in
      after-Moves {v = record { pool = q; held = held }} h (λ s. omega (arith, tally s))
        (λ s i low. at s i)
        (after_create-Moves m start timeout q created.0 created.1 held
          (create_connection-Mints m protocol ip_version q))

  get_round-Moves :
      (m : Moment) (start timeout : ℕ) (protocol : Option Protocol) (ip_version : Option IpVersion)
      (p : PoolInner Queue) (held : List ℕ)
      → Moves
          (record { pool = p; held = held })
          (handed (get_round m start timeout protocol ip_version p) held)
  unfolding get_round
  get_round-Moves m start timeout protocol ip_version p held =
      branches p.closed (ltb timeout (m.instant - start))
    where
      indices : List ℕ
      indices = get_target_buckets protocol ip_version

      searched : PoolInner Queue × Round
      searched = after_borrow m start timeout protocol ip_version (borrow_idle m start indices p)

      late : PoolInner Queue × Round
      late = (
        count (λ s. increment_timeout_gets (increment_failed_gets s)) p,
        done (err (get_connection_timeout timeout (m.instant - start))),
      )

      branches :
          (is_closed is_late : Bool)
          → Moves
              (record { pool = p; held = held })
              (handed
                (if is_closed
                  then (p, done (err pool_closed))
                  else if is_late
                  then late
                  else searched)
                held)
      branches true is_late = quiet-Moves held (Retains-refl p) refl
      branches false true = quiet-Moves held (count-Retains _ p) refl
      branches false false =
          let borrowed = borrow_idle m start indices p in
          after_borrow-Moves m start timeout protocol ip_version p borrowed.0 borrowed.1 held
            (borrow_idle-Retains m start indices p)
            (λ s.
              borrow_idle-queued s m start indices p (get_target_buckets_low protocol ip_version))
            (borrow_idle-at m start indices p).0

  close_idle-Moves :
      (m : Moment) (p : PoolInner Queue) (held : List ℕ)
      → Moves (record { pool = p; held = held }) (record { pool = close_idle m p; held = held })
  close_idle-Moves m p held =
      let none_at =
        λ (s : ℕ) (i : ℕ) (low : i < 4). ap (times s) (close_idle_empties m p i low).1 in
      calm-Moves (close_idle-Follows Retains-Follows m p)
        (λ s. omega (
          arith,
          none_at s 0 (omega arith),
          none_at s 1 (omega arith),
          none_at s 2 (omega arith),
          none_at s 3 (omega arith),
        ))
        (λ s i low. omega (arith, none_at s i low))

  close_rest-idle :
      (m : Moment) (p : PoolInner Queue) → (close_rest m p).idle_connections ≡ p.idle_connections
  unfolding close_rest
  close_rest-idle m p = (remove_batches-Keeps _ m p).idle_connections

  pub allocate-Retains :
      (m : Moment) (t : ConnectionType) (p : PoolInner Queue) → Retains p (allocate m t p)
  allocate-Retains m t p =
      let (place, _, all, old) = allocate-facts m t p in
      Grows-Retains
        (record {
          next_ref = omega (arith, place);
          conn = λ r h.
              subst (Evolves (p.store r)) (sym (old r (ground (arith, h))))
                (Evolves-refl (p.store r));
        })
        all

  allocate-idle_connections :
      (m : Moment) (t : ConnectionType) (p : PoolInner Queue)
      → (allocate m t p).idle_connections ≡ p.idle_connections
  allocate-idle_connections m t p = let (_, idle, _, _) = allocate-facts m t p in idle

  pub Step-IsOwned : {w v : World Queue} → Step w v → IsOwned w → IsOwned v
  Step-IsOwned {w} (counts f) = Moves-IsOwned (quiet-Moves w.held (count-Retains f w.pool) refl)
  Step-IsOwned {w} (gets m start timeout protocol ip_version) =
      Moves-IsOwned (get_round-Moves m start timeout protocol ip_version w.pool w.held)
  Step-IsOwned {w} (admits m protocol ip_version t) =
      Moves-IsOwned
        (made-Moves w.pool _ _ w.held (create_admit-Mints m protocol ip_version t w.pool))
  Step-IsOwned {w} (lends m start r h) = Moves-IsOwned (
      quiet-Moves w.held (lend-Retains m start false r w.pool)
        (lend-Keeps m start false r w.pool).idle_connections)
  Step-IsOwned {w} (parks m r h) = λ o.
      Moves-IsOwned
        (given-Moves w r _ o h (add_idle_connection-Retains m r w.pool)
          (add_idle_connection-Requeues m r w.pool) (λ s. add_idle_connection-queued s m r w.pool))
        o
  Step-IsOwned {w} (returns m r h) = λ o.
      Moves-IsOwned
        (given-Moves w r _ o h (return_connection-Follows Retains-Follows m r w.pool)
          (return_connection-Requeues m r w.pool) (λ s. return_connection-queued s m r w.pool))
        o
  Step-IsOwned {w} (cleans m) = Moves-IsOwned (
      quiet-Moves w.held (cleanup-Follows Retains-Follows m w.pool)
        (cleanup-Keeps m w.pool).idle_connections)
  Step-IsOwned {w} (closes m) = Moves-IsOwned (close_idle-Moves m w.pool w.held)
  Step-IsOwned {w} (ends m) =
      Moves-IsOwned (
        quiet-Moves w.held (close_rest-Follows Retains-Follows m w.pool) (close_rest-idle m w.pool))
  Step-IsOwned {w} (uses r c e) =
      Moves-IsOwned (quiet-Moves w.held (set_conn-Retains r c w.pool e) refl)
  Step-IsOwned {w} (makes_elsewhere m t) =
      Moves-IsOwned
        (quiet-Moves w.held (allocate-Retains m t w.pool) (allocate-idle_connections m t w.pool))

  pub Reach-IsOwned : {w v : World Queue} → Reach w v → IsOwned w → IsOwned v
  Reach-IsOwned here o = o
  Reach-IsOwned (next r s) o = Step-IsOwned s (Reach-IsOwned r o)

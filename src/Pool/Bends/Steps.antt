-- ===== src/Pool/Bends/Steps.antt =====
-- src/pool/mod.rs: the passes of `get_connection` and the steps of the threads, from change to change.
use netconnpool_rust.Base.{
  ℕ, ◌<◌, ◌≡◌, refl, times, times-append, arith, sym, subst, Bool, true, false, Option, none, some,
  List, ok, err, ◌-◌, ltb, ◌==◌, if◌then◌else◌,
}
use netconnpool_rust.Config.{ConnectionType}
use netconnpool_rust.Errors.{Result, max_connections_reached, pool_closed, get_connection_timeout}
use netconnpool_rust.IpVersion.{IpVersion}
use netconnpool_rust.Net.{Moment}
use netconnpool_rust.Protocol.{Protocol}
use netconnpool_rust.SegQueue.{SegQueue}
use netconnpool_rust.Stats.{
  increment_timeout_gets, increment_failed_gets, increment_connection_errors,
}
use netconnpool_rust.Pool.State.{PoolInner, count, get_target_buckets}
use netconnpool_rust.Pool.Bends.{
  Bends, Bends-Follows, count-Bends, lend-Bends, add_idle_connection-Bends, borrow_idle-Bends,
}
use netconnpool_rust.Pool.Create.{
  allocate, create_admit, create_dialled, create_connection, create_check, dial,
}
use netconnpool_rust.Pool.Follows.{cleanup-Follows, close_rest-Follows}
use netconnpool_rust.Pool.Follows.Queues.{close_idle-Follows, return_connection-Follows}
use netconnpool_rust.Pool.Get.{
  Round, done, waits, get_round, borrow_idle, after_create, after_borrow,
}
use netconnpool_rust.Pool.Owners.{
  World, handed, made, Step, counts, gets, admits, lends, parks, returns, cleans, closes, ends,
  uses, makes_elsewhere, taken_elsewhere, elsewhere, Reach, here, next,
}

module _ {Queue : Type 0} where
  handed-pool : (x : PoolInner Queue × Round) (held : List ℕ) → (handed x held).pool ≡ x.0
  handed-pool (q, done (ok h)) held = refl
  handed-pool (q, done (err e)) held = refl
  handed-pool (q, waits) held = refl

  made-pool : (x : PoolInner Queue × Result ℕ) (held : List ℕ) → (made x held).pool ≡ x.0
  made-pool (q, ok r) held = refl
  made-pool (q, err e) held = refl

-- `admitted` is about what follows the dialling, `allocated` about a connection that takes a place of
-- `foreign` elsewhere.
module _ {Queue : Type 0} ⦃sq : SegQueue ℕ Queue⦄ {R : PoolInner Queue → PoolInner Queue → Type 0}
    (t : Bends R)
    (admitted : (m : Moment) (protocol : Option Protocol) (ip_version : Option IpVersion)
        (conn_type : ConnectionType) (p : PoolInner Queue)
      → R p (create_admit m protocol ip_version conn_type p).0)
    (foreign : ℕ → Bool)
    (allocated : (m : Moment) (conn_type : ConnectionType) (p : PoolInner Queue)
      → foreign p.next_ref ≡ true
      → R p (allocate m conn_type p)) where
  create_dialled-Bends :
      (m : Moment) (protocol : Option Protocol) (ip_version : Option IpVersion)
      (dialled : Result ConnectionType) (p : PoolInner Queue)
      → R p (create_dialled m protocol ip_version dialled p).0
  unfolding create_dialled
  create_dialled-Bends m protocol ip_version (ok conn_type) p =
      admitted m protocol ip_version conn_type p
  create_dialled-Bends m protocol ip_version (err e) p = t.reflects p

  create_connection-Bends :
      (m : Moment) (protocol : Option Protocol) (ip_version : Option IpVersion)
      (p : PoolInner Queue)
      → R p (create_connection m protocol ip_version p).0
  unfolding create_connection
  create_connection-Bends m protocol ip_version p = from_check (create_check p)
    where
      from_check :
          (checked : Result (Unit {0}))
          → let created : PoolInner Queue × Result ℕ = elim checked [
            | err e ↦ (p, err e)
            | ok _ ↦ create_dialled m protocol ip_version (dial m protocol p.config) p
          ] in
            R p created.0
      from_check (ok _) = create_dialled-Bends m protocol ip_version (dial m protocol p.config) p
      from_check (err e) = t.reflects p

  if-Bends :
      {p : PoolInner Queue} (b : Bool) (x y : PoolInner Queue × Round)
      → R p x.0
      → R p y.0
      → R p (if b then x else y).0
  if-Bends true x y h k = h
  if-Bends false x y h k = k

  after_create-Bends :
      (m : Moment) (start timeout : ℕ) (q : PoolInner Queue) (result : Result ℕ)
      → R q (after_create m start timeout (q, result)).0
  unfolding after_create
  after_create-Bends m start timeout q (ok r) = lend-Bends t m start false r q
  after_create-Bends m start timeout q (err (max_connections_reached a b)) =
      if-Bends (timeout == 0) _ (q, waits) (t.reflects q) (t.reflects q)
  after_create-Bends m start timeout q (err e) =
      count-Bends t (λ s. increment_connection_errors (increment_failed_gets s)) q

  after_borrow-Bends :
      (m : Moment) (start timeout : ℕ) (protocol : Option Protocol) (ip_version : Option IpVersion)
      (q : PoolInner Queue) (found : Option ℕ)
      → R q (after_borrow m start timeout protocol ip_version (q, found)).0
  unfolding after_borrow
  after_borrow-Bends m start timeout protocol ip_version q (some r) = t.reflects q
  after_borrow-Bends m start timeout protocol ip_version q none =
      let created = create_connection m protocol ip_version q in
      t.chains (create_connection-Bends m protocol ip_version q)
        (after_create-Bends m start timeout created.0 created.1)

  get_round-Bends :
      (m : Moment) (start timeout : ℕ) (protocol : Option Protocol) (ip_version : Option IpVersion)
      (p : PoolInner Queue)
      → R p (get_round m start timeout protocol ip_version p).0
  unfolding get_round
  get_round-Bends m start timeout protocol ip_version p =
      let borrowed = borrow_idle m start (get_target_buckets protocol ip_version) p in
      let late : PoolInner Queue × Round = (
        count (λ s. increment_timeout_gets (increment_failed_gets s)) p,
        done (err (get_connection_timeout timeout (m.instant - start))),
      ) in
      let searched = after_borrow m start timeout protocol ip_version borrowed in
      if-Bends p.closed (p, done (err pool_closed)) _ (t.reflects p)
        (if-Bends (ltb timeout (m.instant - start)) late searched (count-Bends t _ p) (
          t.chains (borrow_idle-Bends t m start (get_target_buckets protocol ip_version) p)
            (after_borrow-Bends m start timeout protocol ip_version borrowed.0 borrowed.1)))

  Step-Bends :
      {w v : World Queue} (s : Step w v)
      → ((j : ℕ) → 0 < times j (taken_elsewhere s) → foreign j ≡ true)
      → R w.pool v.pool
  Step-Bends {w} (uses r c e) f = t.bends r c w.pool e
  Step-Bends {w} (makes_elsewhere m conn_type) f =
      allocated m conn_type w.pool (f w.pool.next_ref (ground arith))
  Step-Bends {w} (counts f) g = count-Bends t f w.pool
  Step-Bends {w} (gets m start timeout protocol ip_version) f =
      subst (R w.pool) (sym (handed-pool _ w.held))
        (get_round-Bends m start timeout protocol ip_version w.pool)
  Step-Bends {w} (admits m protocol ip_version conn_type) f =
      subst (R w.pool) (sym (made-pool _ w.held)) (admitted m protocol ip_version conn_type w.pool)
  Step-Bends {w} (lends m start r h) f = lend-Bends t m start false r w.pool
  Step-Bends {w} (parks m r h) f = add_idle_connection-Bends t m r w.pool
  Step-Bends {w} (returns m r h) f = return_connection-Follows (Bends-Follows t) m r w.pool
  Step-Bends {w} (cleans m) f = cleanup-Follows (Bends-Follows t) m w.pool
  Step-Bends {w} (closes m) f = close_idle-Follows (Bends-Follows t) m w.pool
  Step-Bends {w} (ends m) f = close_rest-Follows (Bends-Follows t) m w.pool

  pub Reach-Bends :
      {w v : World Queue} (reached : Reach w v)
      → ((j : ℕ) → 0 < times j (elsewhere reached) → foreign j ≡ true)
      → R w.pool v.pool
  Reach-Bends {w} here f = t.reflects w.pool
  Reach-Bends (next reached s) f =
      t.chains
        (Reach-Bends reached
          (λ j h. f j (omega (arith, h, times-append j (taken_elsewhere s) (elsewhere reached)))))
        (Step-Bends s
          (λ j h. f j (omega (arith, h, times-append j (taken_elsewhere s) (elsewhere reached)))))

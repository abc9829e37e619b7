-- ===== src/Pool/Owners/Exclusive.antt =====
-- src/pool/mod.rs: who has a connection of a pool that `Pool::new` made, and which one a call is given.
use netconnpool_rust.Base.{
  ℕ, ◌+◌, ◌≤◌, ◌<◌, ◌≡◌, refl, sym, subst, ap, ◌∙◌, true, false, Option, none, some, List, [], ◌∷◌,
  arith, All, times, ok, err, Outcome,
}
use netconnpool_rust.Config.{Config, apply_defaults}
use netconnpool_rust.Connection
use netconnpool_rust.Connection.{Connection}
use netconnpool_rust.Errors.{Result, IoError, max_connections_reached}
use netconnpool_rust.IpVersion.{IpVersion}
use netconnpool_rust.Net.{Moment}
use netconnpool_rust.Protocol.{Protocol}
use netconnpool_rust.SegQueue.{SegQueue}
use netconnpool_rust.Pool.State.{PoolInner, get_target_buckets}
use netconnpool_rust.Pool.Idle.{PooledConnection}
use netconnpool_rust.Pool.Create.{create_connection}
use netconnpool_rust.Pool.Get.{lend, get_round, borrow_idle, after_create, after_borrow, done}
use netconnpool_rust.Pool.Close.{close_rest}
use netconnpool_rust.Pool.Threads.{init, new}
use netconnpool_rust.Pool.Bounds.{new-eq-ok}
use netconnpool_rust.Pool.Buckets.{has_elem, get_target_buckets_lem}
use netconnpool_rust.Pool.Emptied.{close_rest_empties}
use netconnpool_rust.Pool.Matching.{
  IsServed, create_connection-IsServed, served_protocol, served_version,
}
use netconnpool_rust.Pool.Owners.{World, Reach}
use netconnpool_rust.Pool.Owners.Moving.{IsOwned, allocated_of_queued, kept_bucket}
use netconnpool_rust.Pool.Owners.Ownership.{Reach-IsOwned}
use netconnpool_rust.Pool.Queued.{queued, get_target_buckets_low}
use netconnpool_rust.Pool.Retains.Handlers.{borrow_idle-Retains}
use netconnpool_rust.Pool.Sorting.{bucket_of, borrow_idle-at}

-- A connection of a bucket that the request looks at is of the kind that is asked for.
bucket-IsServed :
    (protocol : Option Protocol) (ip_version : Option IpVersion) (c : Connection) (i : ℕ)
    → bucket_of c ≡ some i
    → has_elem i (get_target_buckets protocol ip_version) ≡ true
    → IsServed protocol ip_version c
bucket-IsServed protocol ip_version c i bucket looked =
    let right =
      sym (get_target_buckets_lem protocol ip_version c.protocol c.ip_version i bucket) ∙ looked in
    (
      served_protocol protocol c.protocol (ground (arith, right)),
      served_version ip_version c.ip_version (ground (arith, right)),
    )

module _ {Queue : Type 0} ⦃sq : SegQueue ℕ Queue⦄ where
  init-IsOwned :
      (store : ℕ → Connection) (next_ref generator : ℕ) (config : Config)
      → IsOwned {Queue = Queue} (record { pool = init store next_ref generator config; held = [] })
  unfolding init
  init-IsOwned store next_ref generator config =
      let none_queued = λ (s : ℕ). ap (times s) sq.to_list-new in
      record {
        indexed = record { distinct = tt; agree = λ k r e. cc };
        once = λ s. omega (arith, none_queued s);
        fresh = λ s h. omega (arith, none_queued s);
        sorted = λ s i low stands. absurd (omega (arith, none_queued s, stands));
      }

  pub new-Reach-IsOwned :
      (store : ℕ → Connection) (next_ref generator : ℕ) (spawned : Outcome (Unit {0}) IoError)
      (config : Config) {p : PoolInner Queue} {w : World Queue}
      → new store next_ref generator spawned config ≡ ok p
      → Reach (record { pool = p; held = [] }) w
      → IsOwned w
  new-Reach-IsOwned store next_ref generator spawned config made_it r =
      let is_init = new-eq-ok store next_ref generator spawned config made_it in
      Reach-IsOwned r (
        subst (λ p. IsOwned (record { pool = p; held = [] })) (sym is_init)
          (init-IsOwned store next_ref generator (apply_defaults config)))

  -- In every state that a new pool comes to by whole passes of the handlers, whatever its threads do with
  -- the connections that they hold but `update_id`, no connection is held by two threads, or stands in
  -- the idle queues twice, or is held and stands in a queue.
  pub new-Reach-once :
      (store : ℕ → Connection) (next_ref generator : ℕ) (spawned : Outcome (Unit {0}) IoError)
      (config : Config) {p : PoolInner Queue} {w : World Queue} (s : ℕ)
      → new store next_ref generator spawned config ≡ ok p
      → Reach (record { pool = p; held = [] }) w
      → times s w.held + queued s w.pool ≤ 1
  new-Reach-once store next_ref generator spawned config s made_it r =
      (new-Reach-IsOwned store next_ref generator spawned config made_it r).once s

  -- From every state that a new pool comes to by whole passes of the handlers, where no borrower calls
  -- `update_id`, the last loop of `close` ends, and leaves no connection in the map.
  pub new-Reach-close_rest :
      (store : ℕ → Connection) (next_ref generator : ℕ) (spawned : Outcome (Unit {0}) IoError)
      (config : Config) {p : PoolInner Queue} {w : World Queue} (m : Moment)
      → new store next_ref generator spawned config ≡ ok p
      → Reach (record { pool = p; held = [] }) w
      → (close_rest m w.pool).all_connections ≡ []
  new-Reach-close_rest store next_ref generator spawned config {w = w} m made_it r =
      close_rest_empties m w.pool
        (new-Reach-IsOwned store next_ref generator spawned config made_it r).indexed

  borrow_idle-IsServed :
      (m : Moment) (start : ℕ) (protocol : Option Protocol) (ip_version : Option IpVersion)
      (w : World Queue) (s : ℕ)
      → IsOwned w
      → (borrow_idle m start (get_target_buckets protocol ip_version) w.pool).1 ≡ some s
      → IsServed protocol ip_version
          ((borrow_idle m start (get_target_buckets protocol ip_version) w.pool).0.store s)
  borrow_idle-IsServed m start protocol ip_version w s o h =
      let indices = get_target_buckets protocol ip_version in
      let (i, looked, stood) = (borrow_idle-at m start indices w.pool).1 s h in
      let low : i < 4 =
        All-has_elem i indices (get_target_buckets_low protocol ip_version) looked in
      let q = (borrow_idle m start indices w.pool).0 in
      let kept =
        kept_bucket w.pool q s (borrow_idle-Retains m start indices w.pool).grows
          (allocated_of_queued w s i o low stood) in
      bucket-IsServed protocol ip_version (q.store s) i (kept ∙ o.sorted s i low stood) looked
    where
      All-has_elem :
          (i : ℕ) (indices : List ℕ) → All (λ j. j < 4) indices → has_elem i indices ≡ true → i < 4
      All-has_elem i [] a e = cc
      All-has_elem i (j ∷ rest) a e = ground (arith, All-has_elem i rest a.1)

  lend-kind :
      (m : Moment) (start r : ℕ) (p : PoolInner Queue)
      → (((lend m start false r p).store r).protocol ≡ (p.store r).protocol)
        × (((lend m start false r p).store r).ip_version ≡ (p.store r).ip_version)
  unfolding lend Connection.mark_in_use
  lend-kind m start r p = ground arith

  after_create-IsServed :
      (m : Moment) (start timeout : ℕ) (protocol : Option Protocol) (ip_version : Option IpVersion)
      (p : PoolInner Queue) (result : Result ℕ) (h : PooledConnection)
      → ((s : ℕ) → result ≡ ok s → IsServed protocol ip_version (p.store s))
      → (after_create m start timeout (p, result)).1 ≡ done (ok h)
      → IsServed protocol ip_version ((after_create m start timeout (p, result)).0.store h.conn)
  unfolding after_create
  after_create-IsServed m start timeout protocol ip_version p (ok r) h served e =
      let (same, like) = lend-kind m start r p in
      let lent : IsServed protocol ip_version ((lend m start false r p).store r) =
        rw (same, like) (served r refl) in
      ground (arith, lent)
  after_create-IsServed m start timeout protocol ip_version p (err (max_connections_reached a b)) h
        served e =
      ground arith
  after_create-IsServed m start timeout protocol ip_version p (err _) h served e = ground arith

  after_borrow-IsServed :
      (m : Moment) (start timeout : ℕ) (protocol : Option Protocol) (ip_version : Option IpVersion)
      (p : PoolInner Queue) (found : Option ℕ) (h : PooledConnection)
      → ((s : ℕ) → found ≡ some s → IsServed protocol ip_version (p.store s))
      → (after_borrow m start timeout protocol ip_version (p, found)).1 ≡ done (ok h)
      → IsServed protocol ip_version
          ((after_borrow m start timeout protocol ip_version (p, found)).0.store h.conn)
  unfolding after_borrow
  after_borrow-IsServed m start timeout protocol ip_version p (some r) h served e =
      ground (arith, served r refl)
  after_borrow-IsServed m start timeout protocol ip_version p none h served e =
      let made = create_connection m protocol ip_version p in
      after_create-IsServed m start timeout protocol ip_version made.0 made.1 h
        (create_connection-IsServed m protocol ip_version p) e

  -- In every state that a new pool comes to by whole passes of the handlers, where no borrower calls
  -- `update_id`, the connection that a pass of `get_connection` lends, reused or new, has the protocol
  -- and the IP version that were asked for, unless none or `Unknown` was.
  pub new-Reach-IsServed :
      (store : ℕ → Connection) (next_ref generator : ℕ) (spawned : Outcome (Unit {0}) IoError)
      (config : Config) {p : PoolInner Queue} {w : World Queue} (m : Moment) (start timeout : ℕ)
      (protocol : Option Protocol) (ip_version : Option IpVersion) (h : PooledConnection)
      → new store next_ref generator spawned config ≡ ok p
      → Reach (record { pool = p; held = [] }) w
      → (get_round m start timeout protocol ip_version w.pool).1 ≡ done (ok h)
      → IsServed protocol ip_version
          ((get_round m start timeout protocol ip_version w.pool).0.store h.conn)
  unfolding get_round
  new-Reach-IsServed store next_ref generator spawned config {w = w} m start timeout protocol
        ip_version h made_it r e =
      let o = new-Reach-IsOwned store next_ref generator spawned config made_it r in
      let borrowed = borrow_idle m start (get_target_buckets protocol ip_version) w.pool in
      let searched =
        after_borrow-IsServed m start timeout protocol ip_version borrowed.0 borrowed.1 h
          (λ s. borrow_idle-IsServed m start protocol ip_version w s o) in
      ground (arith, searched)

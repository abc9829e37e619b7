-- ===== src/Pool/Settles/Round.antt =====
-- src/pool/mod.rs: the counter of the active connections and the marks through a pass of
-- `get_connection`, through a return and through the parking of a new connection.
use netconnpool_rust.Base.{
  ℕ, ◌-◌, ◌≤◌, ◌<◌, ◌≡◌, refl, sym, Bool, true, false, Option, none, some, List, [], ◌∷◌, All,
  arith, Bool-cases, Option-cases, inl, inr, ok, err, ltb, ◌==◌, if◌then◌else◌,
}
use netconnpool_rust.Connection
use netconnpool_rust.Connection.{Connection}
use netconnpool_rust.Errors.{Result, pool_closed, get_connection_timeout, max_connections_reached}
use netconnpool_rust.IpVersion.{IpVersion}
use netconnpool_rust.Net.{Moment}
use netconnpool_rust.Protocol.{Protocol}
use netconnpool_rust.SegQueue.{SegQueue}
use netconnpool_rust.Stats.{
  increment_connection_errors, increment_failed_gets, increment_timeout_gets,
}
use netconnpool_rust.Pool.State.{
  PoolInner, count, get_target_buckets, is_connection_valid_for_borrow,
}
use netconnpool_rust.Pool.Frame.{remove_connection-Keeps}
use netconnpool_rust.Pool.Idle.{return_connection, add_idle_connection}
use netconnpool_rust.Pool.Remove.{remove_connection}
use netconnpool_rust.Pool.Create.{create_connection}
use netconnpool_rust.Pool.Get.{
  Round, done, clear_buffer, lend, take_idle, borrow_idle, after_create, after_borrow, get_round,
}
use netconnpool_rust.Pool.Follows.{if-Follows, clear_buffer-Follows}
use netconnpool_rust.Pool.Follows.Queues.{park-Follows, take_idle-Follows, returned-Follows}
use netconnpool_rust.Pool.Queued.{queued, queued_same, take_idle-queued, get_target_buckets_low}
use netconnpool_rust.Pool.Settles.{
  Settles, Settles-refl, Settles-trans, set_conn-Settles, count-Settles, Settles-Follows,
  Settles-idle, remove_connection-Settles, release_active-Settles, release_active-idle,
}
use netconnpool_rust.Pool.Settles.Lending.{
  given, Lends, Settles-Lends, Lends-after, lend-Lends, Makes, create_connection-Makes,
}

module _ {Queue : Type 0} ⦃sq : SegQueue ℕ Queue⦄ where
  -- The connections that stand in the queues are not in use.
  abbrev pub IsCalm : PoolInner Queue → Type 0
  IsCalm p = (s : ℕ) → 0 < queued s p → ((p.store s).in_use ≡ false) × (s < p.next_ref)

  IsCalm-Settles :
      {p q : PoolInner Queue}
      → Settles p q
      → ((s : ℕ) → queued s q ≤ queued s p)
      → IsCalm p
      → IsCalm q
  IsCalm-Settles h fewer calm s stands =
      let (idle, below) = calm s (omega (arith, stands, fewer s)) in
      (Settles-idle s h idle, omega (arith, below, h.grows))

  lend_cleared-Lends :
      (m : Moment) (start r : ℕ) (p q : PoolInner Queue)
      → Settles p q
      → (p.store r).in_use ≡ false
      → r < p.next_ref
      → Lends p (lend m start true r (clear_buffer m r q)) (some r)
  lend_cleared-Lends m start r p q h idle below =
      let cleared = Settles-trans h (clear_buffer-Follows Settles-Follows m r q) in
      Lends-after cleared (
        lend-Lends m start true r (clear_buffer m r q) (Settles-idle r cleared idle)
          (omega (arith, below, cleared.grows)))

  pub borrow_idle-Lends :
      (m : Moment) (start : ℕ) (indices : List ℕ) (p : PoolInner Queue)
      → All (λ i. i < 4) indices
      → IsCalm p
      → let found = borrow_idle m start indices p in Lends p found.0 found.1
  unfolding borrow_idle
  borrow_idle-Lends m start [] p low calm = Settles-Lends none (Settles-refl p)
  borrow_idle-Lends m start (idx ∷ indices) p low calm =
      elim (Option-cases (sq.pop (p.idle_connections idx))) [
        | inl e ↦ simp (e, borrow_idle) (borrow_idle-Lends m start indices p low.1 calm)
        | inr ((r, rest), e) ↦
            let taken = take_idle idx r rest p in
            let took = take_idle-Follows Settles-Follows idx r rest p in
            let tally = λ (s : ℕ). take_idle-queued s idx r rest p low.0 e in
            let stood : 0 < queued r p = ground (arith, tally r) in
            let lent =
              lend_cleared-Lends m start r p taken took (calm r stood).0 (calm r stood).1 in
            let q = remove_connection m r taken in
            let removed = Settles-trans took (remove_connection-Settles m r taken) in
            let fewer : (s : ℕ) → queued s q ≤ queued s p = λ s. omega (
              arith,
              tally s,
              queued_same s taken q (remove_connection-Keeps m r taken).idle_connections,
            ) in
            let later =
              Lends-after removed
                (borrow_idle-Lends m start indices q low.1 (IsCalm-Settles removed fewer calm)) in
            elim (Bool-cases (is_connection_valid_for_borrow m (taken.store r) taken)) [
              | inl f ↦ simp (e, borrow_idle, f) lent
              | inr f ↦ simp (e, borrow_idle, f) later
            ]
      ]

  after_create-Lends :
      (m : Moment) (start timeout : ℕ) (p q : PoolInner Queue) (result : Result ℕ)
      → Makes p q result
      → let after = after_create m start timeout (q, result) in Lends p after.0 (given after.1)
  unfolding after_create
  after_create-Lends m start timeout p q (ok r) h =
      Lends-after h.settles (lend-Lends m start false r q (h.idle r refl).0 (h.idle r refl).1)
  after_create-Lends m start timeout p q (err (max_connections_reached a b)) h =
      elim (Bool-cases (timeout == 0)) [
        | inl e ↦ simp e (Settles-Lends none h.settles)
        | inr e ↦ simp e (Settles-Lends none h.settles)
      ]
  after_create-Lends m start timeout p q (err e) h = Settles-Lends none (
      Settles-trans h.settles
        (count-Settles (λ s. increment_connection_errors (increment_failed_gets s)) q))

  after_borrow-Lends :
      (m : Moment) (start timeout : ℕ) (protocol : Option Protocol) (ip_version : Option IpVersion)
      (p q : PoolInner Queue) (found : Option ℕ)
      → Lends p q found
      → let after = after_borrow m start timeout protocol ip_version (q, found) in
        Lends p after.0 (given after.1)
  unfolding after_borrow
  after_borrow-Lends m start timeout protocol ip_version p q (some r) h = h
  after_borrow-Lends m start timeout protocol ip_version p q none h =
      let created = create_connection m protocol ip_version q in
      let lent =
        after_create-Lends m start timeout q created.0 created.1
          (create_connection-Makes m protocol ip_version q) in
      record {
        settled = λ o. lent.settled (h.settled o);
        wakes = λ s e. elim (lent.wakes s e) [
          | inl was ↦ elim (h.wakes s was) [ inl before ↦ inl before | inr missing ↦ cc ]
          | inr own ↦ inr own
        ];
      }

  if-Lends :
      {p : PoolInner Queue} (b : Bool) (x y : PoolInner Queue × Round)
      → Lends p x.0 (given x.1)
      → Lends p y.0 (given y.1)
      → let z = if b then x else y in Lends p z.0 (given z.1)
  if-Lends true x y h k = h
  if-Lends false x y h k = k

  pub get_round-Lends :
      (m : Moment) (start timeout : ℕ) (protocol : Option Protocol) (ip_version : Option IpVersion)
      (p : PoolInner Queue)
      → IsCalm p
      → let after = get_round m start timeout protocol ip_version p in
        Lends p after.0 (given after.1)
  unfolding get_round
  get_round-Lends m start timeout protocol ip_version p calm =
      let indices = get_target_buckets protocol ip_version in
      let borrowed = borrow_idle m start indices p in
      let searched =
        after_borrow-Lends m start timeout protocol ip_version p borrowed.0 borrowed.1
          (borrow_idle-Lends m start indices p (get_target_buckets_low protocol ip_version) calm) in
      let failed = count (λ s. increment_timeout_gets (increment_failed_gets s)) p in
      let late : PoolInner Queue × Round =
        (failed, done (err (get_connection_timeout timeout (m.instant - start)))) in
      let after = after_borrow m start timeout protocol ip_version borrowed in
      let in_time =
        if-Lends (ltb timeout (m.instant - start)) late after
          (Settles-Lends none (count-Settles _ p)) searched in
      if-Lends p.closed (p, done (err pool_closed)) _ (Settles-Lends none (Settles-refl p)) in_time

  pub return_connection-Settles :
      (m : Moment) (r : ℕ) (p : PoolInner Queue)
      → Settles p (return_connection m r p) × (((return_connection m r p).store r).in_use ≡ false)
  return_connection-Settles m r p =
      let returned = returned-Follows Settles-Follows m r p in
      (
        Settles-trans (release_active-Settles m r p) returned,
        Settles-idle r returned (release_active-idle m r p),
      )

  pub add_idle_connection-Settles :
      (m : Moment) (r : ℕ) (p : PoolInner Queue)
      → (p.store r).in_use ≡ false
      → Settles p (add_idle_connection m r p)
  unfolding add_idle_connection Connection.mark_idle
  add_idle_connection-Settles m r p idle =
      if-Follows Settles-Follows p.closed (remove_connection-Settles m r p) (
        Settles-trans (set_conn-Settles r (Connection.mark_idle m (p.store r)) p (sym idle))
          (park-Follows Settles-Follows m r _))

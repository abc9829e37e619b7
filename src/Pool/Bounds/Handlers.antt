-- ===== src/Pool/Bounds/Handlers.antt =====
-- src/pool/mod.rs: the limits of a pool through the single handlers.
use netconnpool_rust.Base.{
  ℕ, ◌≡◌, true, false, Option, none, some, List, [], ◌∷◌, arith, length, Bool-cases, Option-cases,
  inl, inr, ok, err, leb,
}
use netconnpool_rust.Config.{ConnectionType}
use netconnpool_rust.Connection
use netconnpool_rust.Stats.{increment_timeout_gets, increment_failed_gets}
use netconnpool_rust.Errors.{Result, max_connections_reached}
use netconnpool_rust.Net.{Moment}
use netconnpool_rust.IpVersion.{IpVersion}
use netconnpool_rust.Protocol.{Protocol}
use netconnpool_rust.SegQueue.{SegQueue}
use netconnpool_rust.Pool.State.{PoolInner, set_conn, get_target_buckets, count}
use netconnpool_rust.Pool.Remove.{remove_connection, release_active}
use netconnpool_rust.Pool.Idle.{
  try_push_idle, park, return_connection, add_idle_connection, call_on_return, push_or_remove,
}
use netconnpool_rust.Pool.Create.{
  create_connection, create_finish, create_admit, allocate, Probe, free, insert_found,
  create_dialled, dial, is_full,
}
use netconnpool_rust.Pool.Get.{
  take_idle, borrow_idle, get_round, after_create, clear_buffer, after_borrow,
}
use netconnpool_rust.Pool.Frame.{
  Keeps, Keeps-trans, close_connection-Keeps, remove_connection-Keeps, release_active-Keeps,
  lend-Keeps, clear_buffer-Keeps, set_conn-Keeps,
}
use netconnpool_rust.Pool.Bounds.Invariant.{
  IsBounded, Keeps-IsBounded, push_idle-IsBounded, take_idle-IsBounded,
}

module _ {Queue : Type 0} ⦃sq : SegQueue ℕ Queue⦄ where
  remove_connection-IsBounded :
      (m : Moment) (r : ℕ) (p : PoolInner Queue) → IsBounded p → IsBounded (remove_connection m r p)
  remove_connection-IsBounded m r p = Keeps-IsBounded (remove_connection-Keeps m r p)

  pub try_push_idle-IsBounded :
      (m : Moment) (r idx : ℕ) (p : PoolInner Queue)
      → IsBounded p
      → IsBounded (try_push_idle m r idx p)
  unfolding try_push_idle
  try_push_idle-IsBounded m r idx p b =
      elim (Bool-cases (leb p.config.max_idle_connections (p.idle_counts idx))) [
        | inl e ↦ simp e (remove_connection-IsBounded m r p b)
        | inr e ↦ simp e (push_idle-IsBounded r idx p (ground arith) b)
      ]

  push_or_remove-IsBounded :
      (m : Moment) (r : ℕ) (idx : Option ℕ) (p : PoolInner Queue)
      → IsBounded p
      → IsBounded (push_or_remove m r idx p)
  unfolding push_or_remove
  push_or_remove-IsBounded m r (some idx) p = try_push_idle-IsBounded m r idx p
  push_or_remove-IsBounded m r none p = remove_connection-IsBounded m r p

  pub park-IsBounded :
      (m : Moment) (r : ℕ) (p : PoolInner Queue) → IsBounded p → IsBounded (park m r p)
  unfolding park
  park-IsBounded m r p = push_or_remove-IsBounded m r _ p

  call_on_return-Keeps : (r : ℕ) (p : PoolInner Queue) → Keeps p (call_on_return r p)
  unfolding call_on_return
  call_on_return-Keeps r p = ground arith

  pub return_connection-IsBounded :
      (m : Moment) (r : ℕ) (p : PoolInner Queue) → IsBounded p → IsBounded (return_connection m r p)
  unfolding return_connection
  return_connection-IsBounded m r p b =
      let released = release_active m r p in
      let b' = Keeps-IsBounded (release_active-Keeps m r p) b in
      let removed = remove_connection-IsBounded m r released b' in
      let parked =
        park-IsBounded m r (call_on_return r released)
          (Keeps-IsBounded (call_on_return-Keeps r released) b') in
      ground (arith, removed, parked)

  pub add_idle_connection-IsBounded :
      (m : Moment) (r : ℕ) (p : PoolInner Queue)
      → IsBounded p
      → IsBounded (add_idle_connection m r p)
  unfolding add_idle_connection
  add_idle_connection-IsBounded m r p b =
      let marked = set_conn r (Connection.mark_idle m (p.store r)) p in
      let parked =
        park-IsBounded m r marked
          (Keeps-IsBounded (set_conn-Keeps r (Connection.mark_idle m (p.store r)) p) b) in
      ground (arith, remove_connection-IsBounded m r p b, parked)

  insert_found-IsBounded :
      (m : Moment) (r : ℕ) (found : Probe) (p : PoolInner Queue)
      → is_full p.config (length p.all_connections) ≡ false
      → IsBounded p
      → IsBounded (insert_found m r found p).0
  unfolding insert_found
  insert_found-IsBounded m r (free id) p room b = record {
    within = λ h. ground arith;
    counted = b.counted;
    limited = b.limited;
    word = b.word;
  }
  insert_found-IsBounded m r _ p room b = Keeps-IsBounded (close_connection-Keeps m r p) b

  -- The final check alone keeps the map within its limit, whatever other threads have inserted since
  -- the quick check.
  pub create_finish-IsBounded :
      (m : Moment) (r : ℕ) (p : PoolInner Queue) → IsBounded p → IsBounded (create_finish m r p).0
  unfolding create_finish
  create_finish-IsBounded m r p b =
      elim (Bool-cases (is_full p.config (length p.all_connections))) [
        | inl e ↦ simp e (Keeps-IsBounded (close_connection-Keeps m r p) b)
        | inr e ↦ simp e (insert_found-IsBounded m r _ p e b)
      ]

  pub allocate-Keeps :
      (m : Moment) (t : ConnectionType) (p : PoolInner Queue) → Keeps p (allocate m t p)
  unfolding allocate
  allocate-Keeps m t p = ground arith

  pub create_admit-IsBounded :
      (m : Moment) (protocol : Option Protocol) (ip_version : Option IpVersion) (t : ConnectionType)
      (p : PoolInner Queue)
      → IsBounded p
      → IsBounded (create_admit m protocol ip_version t p).0
  unfolding create_admit
  create_admit-IsBounded m protocol ip_version t p b =
      let q = allocate m t p in
      let b' = Keeps-IsBounded (allocate-Keeps m t p) b in
      ground (
        arith,
        Keeps-IsBounded (close_connection-Keeps m p.next_ref q) b',
        create_finish-IsBounded m p.next_ref q b',
      )

  create_dialled-IsBounded :
      (m : Moment) (protocol : Option Protocol) (ip_version : Option IpVersion)
      (t : Result ConnectionType) (p : PoolInner Queue)
      → IsBounded p
      → IsBounded (create_dialled m protocol ip_version t p).0
  unfolding create_dialled
  create_dialled-IsBounded m protocol ip_version (ok t) p b =
      create_admit-IsBounded m protocol ip_version t p b
  create_dialled-IsBounded m protocol ip_version (err e) p b = b

  pub create_connection-IsBounded :
      (m : Moment) (protocol : Option Protocol) (ip_version : Option IpVersion)
      (p : PoolInner Queue)
      → IsBounded p
      → IsBounded (create_connection m protocol ip_version p).0
  unfolding create_connection
  create_connection-IsBounded m protocol ip_version p b =
      ground (arith, create_dialled-IsBounded m protocol ip_version (dial m protocol p.config) p b)

  pub borrow_idle-IsBounded :
      (m : Moment) (start : ℕ) (indices : List ℕ) (p : PoolInner Queue)
      → IsBounded p
      → IsBounded (borrow_idle m start indices p).0
  unfolding borrow_idle
  borrow_idle-IsBounded m start [] p b = b
  borrow_idle-IsBounded m start (idx ∷ indices) p b =
      elim (Option-cases (sq.pop (p.idle_connections idx))) [
        | inl e ↦ simp (e, borrow_idle) (borrow_idle-IsBounded m start indices p b)
        | inr ((r, rest), e) ↦
            let taken = take_idle idx r rest p in
            let b' = take_idle-IsBounded idx r rest p e b in
            let cleared = clear_buffer m r taken in
            let lent =
              Keeps-trans (clear_buffer-Keeps m r taken) (lend-Keeps m start true r cleared) in
            simp (e, borrow_idle)
              (ground (
                arith,
                Keeps-IsBounded lent b',
                borrow_idle-IsBounded m start indices (remove_connection m r taken)
                    (remove_connection-IsBounded m r taken b'),
              ))
      ]

  after_create-IsBounded :
      (m : Moment) (start timeout : ℕ) (p : PoolInner Queue) (made : Result ℕ)
      → IsBounded p
      → IsBounded (after_create m start timeout (p, made)).0
  unfolding after_create
  after_create-IsBounded m start timeout p (ok r) b =
      Keeps-IsBounded (lend-Keeps m start false r p) b
  after_create-IsBounded m start timeout p (err (max_connections_reached _ _)) b = ground arith
  after_create-IsBounded m start timeout p (err e) b = record {
    within = b.within;
    counted = b.counted;
    limited = b.limited;
    word = b.word;
  }

  after_borrow-IsBounded :
      (m : Moment) (start timeout : ℕ) (protocol : Option Protocol) (ip_version : Option IpVersion)
      (p : PoolInner Queue) (found : Option ℕ)
      → IsBounded p
      → IsBounded (after_borrow m start timeout protocol ip_version (p, found)).0
  unfolding after_borrow
  after_borrow-IsBounded m start timeout protocol ip_version p (some r) b = b
  after_borrow-IsBounded m start timeout protocol ip_version p none b =
      after_create-IsBounded m start timeout _ _
        (create_connection-IsBounded m protocol ip_version p b)

  pub get_round-IsBounded :
      (m : Moment) (start timeout : ℕ) (protocol : Option Protocol) (ip_version : Option IpVersion)
      (p : PoolInner Queue)
      → IsBounded p
      → IsBounded (get_round m start timeout protocol ip_version p).0
  unfolding get_round
  get_round-IsBounded m start timeout protocol ip_version p b =
      let indices = get_target_buckets protocol ip_version in
      let borrowed = borrow_idle m start indices p in
      let searched =
        after_borrow-IsBounded m start timeout protocol ip_version borrowed.0 borrowed.1
          (borrow_idle-IsBounded m start indices p b) in
      let counted : IsBounded (count (λ s. increment_timeout_gets (increment_failed_gets s)) p) =
        record { within = b.within; counted = b.counted; limited = b.limited; word = b.word } in
      ground (arith, searched, counted)

-- ===== src/Pool/Reuse/Handoff.antt =====
-- src/pool/mod.rs: a call of `get_connection` that waits on a full pool while a connection is returned.
use netconnpool_rust.Base.{
  ℕ, ◌-◌, ◌≤◌, ◌<◌, ◌≡◌, refl, ap, ◌∙◌, true, false, Option, none, some, List, [], ◌∷◌, arith,
  length, Option-cases, inl, inr, ok, err,
}
use netconnpool_rust.IpVersion.{IpVersion}
use netconnpool_rust.Net.{Moment}
use netconnpool_rust.Protocol.{Protocol}
use netconnpool_rust.SegQueue.{SegQueue, unpop}
use netconnpool_rust.Pool.State.{PoolInner, get_target_buckets, is_connection_valid_for_borrow}
use netconnpool_rust.Pool.Buckets.{has_elem}
use netconnpool_rust.Pool.Create.{create_connection, create_check, is_full, full_error}
use netconnpool_rust.Pool.Get.{
  Turn, borrow_idle, after_borrow, after_create, get_round, get_loop, waits,
}
use netconnpool_rust.Pool.Idle.{return_connection}
use netconnpool_rust.Pool.Returning.{IsParked}
use netconnpool_rust.Pool.Reuse.Back.{FindsNone, return-get_round}

module _ {Queue : Type 0} where
  create_connection-full :
      (m : Moment) (protocol : Option Protocol) (ip_version : Option IpVersion)
      (p : PoolInner Queue)
      → is_full p.config (length p.all_connections) ≡ true
      → create_connection m protocol ip_version p
        ≡ (p, err (full_error p.config (length p.all_connections)))
  unfolding create_connection create_check
  create_connection-full m protocol ip_version p full = ground (arith, full)

module _ {Queue : Type 0} ⦃sq : SegQueue ℕ Queue⦄ where
  borrow_idle-none :
      (m : Moment) (start : ℕ) (indices : List ℕ) (p : PoolInner Queue)
      → ((j : ℕ) → has_elem j indices ≡ true → sq.to_list (p.idle_connections j) ≡ [])
      → borrow_idle m start indices p ≡ (p, none)
  unfolding borrow_idle
  borrow_idle-none m start [] p empty = refl
  borrow_idle-none m start (idx ∷ indices) p empty =
      elim (Option-cases (sq.pop (p.idle_connections idx))) [
        | inl e ↦
            simp (e, borrow_idle)
              (borrow_idle-none m start indices p (λ j looked. empty j (ground (arith, looked))))
        | inr ((r, rest), e) ↦
            let queued : sq.to_list (p.idle_connections idx) ≡ r ∷ sq.to_list rest =
              sq.to_list-pop (p.idle_connections idx) ∙ ap (unpop sq.to_list) e in
            let nothing = empty idx (ground arith) in cc (queued, nothing)
      ]

  -- On a full open pool with nothing in the queues that are looked at, a pass in time waits, and changes
  -- nothing.
  get_round-waits :
      (m : Moment) (start timeout : ℕ) (protocol : Option Protocol) (ip_version : Option IpVersion)
      (p : PoolInner Queue)
      → p.closed ≡ false
      → is_full p.config (length p.all_connections) ≡ true
      → FindsNone protocol ip_version p
      → 0 < timeout
      → m.instant - start ≤ timeout
      → get_round m start timeout protocol ip_version p ≡ (p, waits)
  unfolding get_round
  get_round-waits m start timeout protocol ip_version p opened full empty some_time in_time =
      let indices = get_target_buckets protocol ip_version in
      let searched : after_borrow m start timeout protocol ip_version
            (borrow_idle m start indices p)
          ≡ (p, waits) =
        ap (after_borrow m start timeout protocol ip_version)
          (borrow_idle-none m start indices p empty)
        ∙ refused in
      ground (arith, searched)
    where
      refused : after_borrow m start timeout protocol ip_version (p, none) ≡ (p, waits)
      refused =
          unfold after_borrow in
          ap (after_create m start timeout) (create_connection-full m protocol ip_version p full)
          ∙ unfold after_create in ground arith

  -- A call, with a timeout that is not zero, that finds a full open pool with nothing in the queues that it looks at, waits, and is given
  -- in its next pass the connection that another thread returns to one of those queues meanwhile, and that
  -- alone, where both passes are in time and the connection may still be lent; the map is as before.
  pub get_loop-handoff :
      (m : Moment) (first second : Turn Queue) (turns : List (Turn Queue)) (start timeout : ℕ)
      (protocol : Option Protocol) (ip_version : Option IpVersion) (idx r : ℕ) (p : PoolInner Queue)
      → first.others p ≡ p
      → second.others p ≡ return_connection m r p
      → is_full p.config (length p.all_connections) ≡ true
      → FindsNone protocol ip_version p
      → has_elem idx (get_target_buckets protocol ip_version) ≡ true
      → IsParked m r idx p
      → is_connection_valid_for_borrow second.moment
          ((return_connection m r p).store r)
          (return_connection m r p)
        ≡ true
      → 0 < timeout
      → first.moment.instant - start ≤ timeout
      → second.moment.instant - start ≤ timeout
      → let (q, result) = get_loop start timeout protocol ip_version (first ∷ second ∷ turns) p in
        (result ≡ some (ok (record { conn = r })))
        × ((q.store r).in_use ≡ true)
        × (q.all_connections ≡ p.all_connections)
  unfolding get_loop
  get_loop-handoff m first second turns start timeout protocol ip_version idx r p alone returned
        full empty looked parked fit some_time in_time in_time2 =
      let waited =
        get_round-waits first.moment start timeout protocol ip_version p parked.0 full empty
          some_time in_time in
      let (found, used, all, _, _) =
        return-get_round m second.moment start timeout protocol ip_version idx r p parked empty
          looked in_time2 fit in
      simp (alone, waited, returned, found, get_loop) (refl, used, all)

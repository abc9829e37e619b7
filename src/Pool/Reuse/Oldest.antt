-- ===== src/Pool/Reuse/Oldest.antt =====
-- src/pool/mod.rs: the idle connection that a pass of `get_connection` takes.
use netconnpool_rust.Base.{
  ℕ, ◌-◌, ◌≤◌, ◌≡◌, refl, sym, subst, ap, ◌∙◌, true, false, Option, none, some, List, [], ◌∷◌,
  arith, Option-cases, inl, inr, ok, ◌==◌,
}
use netconnpool_rust.Connection
use netconnpool_rust.IpVersion.{IpVersion}
use netconnpool_rust.Net.{Moment}
use netconnpool_rust.Protocol.{Protocol}
use netconnpool_rust.SegQueue.{SegQueue, unpop}
use netconnpool_rust.Pool.State.{
  PoolInner, fetch_sub, fetch_add, get_target_buckets, is_connection_valid_for_borrow,
}
use netconnpool_rust.Pool.Frame.{lend-Keeps, clear_buffer-Keeps}
use netconnpool_rust.Pool.Get.{
  clear_buffer, lend, take_idle, borrow_idle, after_borrow, get_round, done, clear_socket,
}
use netconnpool_rust.Pool.Reuse.{oldest, IsTaken}

module _ {Queue : Type 0} where
  clear_buffer-same :
      (m : Moment) (r : ℕ) (p : PoolInner Queue)
      → ((clear_buffer m r p).all_connections ≡ p.all_connections)
        × ((clear_buffer m r p).next_ref ≡ p.next_ref)
        × ((clear_buffer m r p).active_count ≡ p.active_count)
        × (((clear_buffer m r p).store r).reuse_count ≡ (p.store r).reuse_count)
  unfolding clear_buffer clear_socket
  clear_buffer-same m r p = ground arith

  lend-same :
      (m : Moment) (start r : ℕ) (p : PoolInner Queue)
      → ((lend m start true r p).all_connections ≡ p.all_connections)
        × ((lend m start true r p).next_ref ≡ p.next_ref)
        × ((lend m start true r p).active_count ≡ fetch_add p.active_count)
        × (((lend m start true r p).store r).in_use ≡ true)
        × (((lend m start true r p).store r).reuse_count
            ≡ (Connection.increment_reuse_count (p.store r)).reuse_count)
  unfolding lend Connection.mark_in_use Connection.increment_reuse_count
  lend-same m start r p = ground arith

module _ {Queue : Type 0} ⦃sq : SegQueue ℕ Queue⦄ where
  take_idle-valid :
      (m : Moment) (idx r : ℕ) (rest : Queue) (p : PoolInner Queue)
      → is_connection_valid_for_borrow m ((take_idle idx r rest p).store r) (take_idle idx r rest p)
        ≡ is_connection_valid_for_borrow m (p.store r) p
  unfolding take_idle is_connection_valid_for_borrow
  take_idle-valid m idx r rest p = refl

  take_idle-same :
      (idx r : ℕ) (rest : Queue) (p : PoolInner Queue)
      → let q = take_idle idx r rest p in
        (q.idle_connections idx ≡ rest)
        × (q.idle_counts idx ≡ fetch_sub (p.idle_counts idx))
        × ((j : ℕ) → (idx == j) ≡ false → q.idle_connections j ≡ p.idle_connections j)
        × (q.store ≡ p.store)
        × (q.all_connections ≡ p.all_connections)
        × (q.next_ref ≡ p.next_ref)
        × (q.active_count ≡ p.active_count)
  unfolding take_idle
  take_idle-same idx r rest p =
      (ground arith, ground arith, (λ j apart. ground arith), refl, refl, refl, refl)

  lent-IsTaken :
      (m : Moment) (start idx r : ℕ) (rest : Queue) (p : PoolInner Queue)
      → sq.pop (p.idle_connections idx) ≡ some (r, rest)
      → IsTaken idx r p (lend m start true r (clear_buffer m r (take_idle idx r rest p)))
  unfolding Connection.increment_reuse_count
  lent-IsTaken m start idx r rest p popped =
      let taken = take_idle idx r rest p in
      let cleared = clear_buffer m r taken in
      let clears = clear_buffer-Keeps m r taken in
      let lends = lend-Keeps m start true r cleared in
      let queues = lends.idle_connections ∙ clears.idle_connections in
      let (here, count, apart, store, all, next, active) = take_idle-same idx r rest p in
      let (all1, next1, active1, reused1) = clear_buffer-same m r taken in
      let (all2, next2, active2, used2, reused2) = lend-same m start r cleared in
      record {
        front =
            sq.to_list-pop (p.idle_connections idx)
            ∙ ap (unpop sq.to_list) popped
            ∙ ap (λ q. r ∷ sq.to_list q) (sym (ap (λ f. f idx) queues ∙ here));
        others = λ j other. ap (λ f. f j) queues ∙ apart j other;
        all = all2 ∙ all1 ∙ all;
        next_ref = next2 ∙ next1 ∙ next;
        in_use = used2;
        reused = ground (arith, reused2, reused1, ap (λ f. (f r).reuse_count) store);
        idle_count = ap (λ f. f idx) (lends.idle_counts ∙ clears.idle_counts) ∙ count;
        active_count = active2 ∙ ap fetch_add (active1 ∙ active);
      }

  borrow_idle-oldest :
      (m : Moment) (start : ℕ) (indices : List ℕ) (i r : ℕ) (p : PoolInner Queue)
      → oldest indices p ≡ some (i, r)
      → is_connection_valid_for_borrow m (p.store r) p ≡ true
      → ((borrow_idle m start indices p).1 ≡ some r)
        × IsTaken i r p (borrow_idle m start indices p).0
  unfolding borrow_idle oldest
  borrow_idle-oldest m start [] i r p first fit = cc
  borrow_idle-oldest m start (idx ∷ indices) i r p first fit =
      elim (Option-cases (sq.pop (p.idle_connections idx))) [
        | inl e ↦
            let empty : sq.to_list (p.idle_connections idx) ≡ [] =
              sq.to_list-pop (p.idle_connections idx) ∙ ap (unpop sq.to_list) e in
            simp (e, borrow_idle)
              (borrow_idle-oldest m start indices i r p (simp (empty, oldest) at first) fit)
        | inr ((s, rest), e) ↦
            let queued : sq.to_list (p.idle_connections idx) ≡ s ∷ sq.to_list rest =
              sq.to_list-pop (p.idle_connections idx) ∙ ap (unpop sq.to_list) e in
            let found : ◌≡◌ {A = Option (ℕ × ℕ)} (some (idx, s)) (some (i, r)) =
              simp (queued, oldest) at first in
            let bucket : idx ≡ i = ground (arith, found) in
            let here : s ≡ r = ground (arith, found) in
            let valid =
              take_idle-valid m idx s rest p
              ∙ ap (λ j. is_connection_valid_for_borrow m (p.store j) p) here
              ∙ fit in
            let q = lend m start true s (clear_buffer m s (take_idle idx s rest p)) in
            let taken =
              subst (λ j. IsTaken j r p q) bucket
                (subst (λ j. IsTaken idx j p q) here (lent-IsTaken m start idx s rest p e)) in
            simp (e, borrow_idle) (simp valid (ap some here, taken))
      ]

  -- A pass of `get_connection` on an open pool, in time, lends the connection at the front of the first
  -- queue that the request looks at and that is not empty, where it may be lent: it leaves that queue, the
  -- other queues and the map are as before, nothing is dialled, and the counters and the connection's
  -- marks follow.
  pub get_round-oldest :
      (m : Moment) (start timeout : ℕ) (protocol : Option Protocol) (ip_version : Option IpVersion)
      (i r : ℕ) (p : PoolInner Queue)
      → p.closed ≡ false
      → m.instant - start ≤ timeout
      → oldest (get_target_buckets protocol ip_version) p ≡ some (i, r)
      → is_connection_valid_for_borrow m (p.store r) p ≡ true
      → let after = get_round m start timeout protocol ip_version p in
        (after.1 ≡ done (ok (record { conn = r }))) × IsTaken i r p after.0
  unfolding get_round
  get_round-oldest m start timeout protocol ip_version i r p opened in_time first fit =
      let borrowed = borrow_idle m start (get_target_buckets protocol ip_version) p in
      let (found, taken) =
        borrow_idle-oldest m start (get_target_buckets protocol ip_version) i r p first fit in
      let lent = after_borrow-some m start timeout protocol ip_version i r p borrowed found taken in
      ground (arith, lent)
    where
      after_borrow-some :
          (m : Moment) (start timeout : ℕ) (protocol : Option Protocol)
          (ip_version : Option IpVersion) (i r : ℕ) (p : PoolInner Queue)
          (borrowed : PoolInner Queue × Option ℕ)
          → borrowed.1 ≡ some r
          → IsTaken i r p borrowed.0
          → let after = after_borrow m start timeout protocol ip_version borrowed in
            (after.1 ≡ done (ok (record { conn = r }))) × IsTaken i r p after.0
      after_borrow-some m start timeout protocol ip_version i r p (q, some s) found taken =
          unfold after_borrow in (ground (arith, found), taken)
      after_borrow-some m start timeout protocol ip_version i r p (q, none) found taken = cc

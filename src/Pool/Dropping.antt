-- ===== src/Pool/Dropping.antt =====
-- src/pool/pooled_connection.rs, src/pool/mod.rs: what the drop of a borrower's handle comes to,
-- whichever way `return_connection` takes.
use netconnpool_rust.Base.{
  ℕ, ◌<◌, ◌≡◌, refl, subst, ap, ◌∙◌, true, false, Option, some, none, [], ◌∷◌, ◌++◌, arith,
  Bool-cases, inl, inr, ◌⊎◌, leb, if◌then◌else◌,
}
use netconnpool_rust.Connection
use netconnpool_rust.Net.{Moment}
use netconnpool_rust.SegQueue.{SegQueue}
use netconnpool_rust.Pool.State.{
  PoolInner, fetch_sub, get_bucket_index, is_connection_valid_for_borrow,
}
use netconnpool_rust.Pool.Frame.{release_active-Keeps}
use netconnpool_rust.Pool.Idle.{
  PooledConnection, drop, return_connection, park, push_or_remove, try_push_idle, call_on_return,
}
use netconnpool_rust.Pool.Map.{get_key}
use netconnpool_rust.Pool.Remove.{release_active, remove_connection}
use netconnpool_rust.Pool.Removal.{remove_connection-conn, get_key-remove_connection}
use netconnpool_rust.Pool.Returning.{
  release_active-idle, close_connection-counts, release_active-conn, release_active-count,
  call_on_return-same, call_on_return-store,
}

module _ {Queue : Type 0} ⦃sq : SegQueue ℕ Queue⦄ where
  -- The connection is no longer lent, and is gone or the last of an idle queue.
  abbrev IsBack : (active r : ℕ) → PoolInner Queue → PoolInner Queue → Type 0
  IsBack active r p q =
      (q.active_count ≡ active)
      × ((q.store r).in_use ≡ false)
      × ((((q.store r).closed ≡ true) × (get_key q.all_connections (p.store r).id ≡ none))
          ⊎ ((idx : ℕ) × (get_bucket_index (p.store r).protocol (p.store r).ip_version ≡ some idx)
              × (sq.to_list (q.idle_connections idx)
                  ≡ sq.to_list (p.idle_connections idx) ++ r ∷ [])))

  call_on_return-next_ref :
      (r : ℕ) (p : PoolInner Queue) → (call_on_return r p).next_ref ≡ p.next_ref
  unfolding call_on_return
  call_on_return-next_ref r p = ground arith

  remove_connection-active :
      (m : Moment) (r : ℕ) (p : PoolInner Queue)
      → (p.store r).in_use ≡ false
      → (remove_connection m r p).active_count ≡ p.active_count
  unfolding remove_connection
  remove_connection-active m r p idle =
      (close_connection-counts m r (release_active m r p)).1 ∙ (release_active-idle m r p idle).1

  remove_connection-IsBack :
      (m : Moment) (r : ℕ) (p : PoolInner Queue)
      → r < p.next_ref
      → (p.store r).in_use ≡ false
      → IsBack p.active_count r p (remove_connection m r p)
  remove_connection-IsBack m r p h idle =
      let (shut, still) = remove_connection-conn m r p in
      (
        remove_connection-active m r p idle,
        still,
        inl (shut, ground (arith, get_key-remove_connection m r (p.store r).id p h)),
      )

  push_or_remove-IsBack :
      (m : Moment) (r : ℕ) (bucket : Option ℕ) (p : PoolInner Queue)
      → r < p.next_ref
      → (p.store r).in_use ≡ false
      → get_bucket_index (p.store r).protocol (p.store r).ip_version ≡ bucket
      → IsBack p.active_count r p (push_or_remove m r bucket p)
  unfolding push_or_remove try_push_idle
  push_or_remove-IsBack m r none p h idle is_bucket = remove_connection-IsBack m r p h idle
  push_or_remove-IsBack m r (some idx) p h idle is_bucket =
      let removed = remove_connection-IsBack m r p h idle in
      elim (Bool-cases (leb p.config.max_idle_connections (p.idle_counts idx))) [
        | inl full ↦ simp full removed
        | inr room ↦ simp room (
          refl,
          idle,
          inr (idx, is_bucket, ground (arith, sq.to_list-push (p.idle_connections idx) r)),
        )
      ]

  -- From a state that differs in neither the queues nor the connection's id and kind.
  IsBack-from :
      (r : ℕ) (p x q : PoolInner Queue)
      → (x.store r).id ≡ (p.store r).id
      → (x.store r).protocol ≡ (p.store r).protocol
      → (x.store r).ip_version ≡ (p.store r).ip_version
      → x.idle_connections ≡ p.idle_connections
      → IsBack x.active_count r x q
      → IsBack x.active_count r p q
  IsBack-from r p x q id protocol ip_version queues (active, idle, place) = (
    active,
    idle,
    elim place [
      | inl (shut, gone) ↦ inl (shut, subst (λ k. get_key q.all_connections k ≡ none) id gone)
      | inr (idx, bucket, last) ↦ inr (
        idx,
        subst (λ v. get_bucket_index (p.store r).protocol v ≡ some idx) ip_version
            (subst (λ k. get_bucket_index k (x.store r).ip_version ≡ some idx) protocol bucket),
        subst (λ f. sq.to_list (q.idle_connections idx) ≡ sq.to_list (f idx) ++ r ∷ []) queues last,
      )
    ],
  )

  told-IsBack :
      (m : Moment) (r : ℕ) (p : PoolInner Queue)
      → r < p.next_ref
      → (p.store r).in_use ≡ false
      → IsBack p.active_count r p (park m r (call_on_return r p))
  unfolding park
  told-IsBack m r p h idle =
      let told = call_on_return r p in
      let store = call_on_return-store r p in
      let same = call_on_return-same r p in
      let place = call_on_return-next_ref r p in
      let back =
        push_or_remove-IsBack m r _ told (omega (arith, h, place))
          (ap (λ f. (f r).in_use) store ∙ idle) refl in
      subst (λ a. IsBack a r p (park m r told)) same.4
        (IsBack-from r p told (park m r told) (ap (λ f. (f r).id) store)
          (ap (λ f. (f r).protocol) store) (ap (λ f. (f r).ip_version) store) same.1 back)

  release_active-same_conn :
      (m : Moment) (r : ℕ) (p : PoolInner Queue)
      → let x = release_active m r p in
        (x.next_ref ≡ p.next_ref)
        × ((x.store r).id ≡ (p.store r).id)
        × ((x.store r).protocol ≡ (p.store r).protocol)
        × ((x.store r).ip_version ≡ (p.store r).ip_version)
  unfolding release_active Connection.try_mark_idle
  release_active-same_conn m r p = ground arith

  released-IsBack :
      (m : Moment) (r : ℕ) (p : PoolInner Queue)
      → r < p.next_ref
      → let x = release_active m r p in IsBack x.active_count r x (return_connection m r p)
  unfolding return_connection
  released-IsBack m r p h =
      let x = release_active m r p in
      let place = (release_active-same_conn m r p).0 in
      let below : r < x.next_ref = omega (arith, h, place) in
      let idle = release_active-conn m r p in
      let removed = remove_connection-IsBack m r x below idle in
      let parked = told-IsBack m r x below idle in
      elim (Bool-cases x.closed) [
        | inl shut ↦ simp shut removed
        | inr is_open ↦ elim (Bool-cases (is_connection_valid_for_borrow m (x.store r) x)) [
          | inl fit ↦ simp (is_open, fit) parked
          | inr unfit ↦ simp (is_open, unfit) removed
        ]
      ]

  -- The drop of a handle, whose connection has its place in the heap, of a pool that lives lowers the
  -- counter of the active connections by one if the connection is marked in use, and leaves it if not.
  -- Afterwards the connection is not in use; and it
  -- is closed and its id not in the map, or it is the last of the idle queue of its kind.
  pub drop_lem :
      (m : Moment) (handle : PooledConnection) (p : PoolInner Queue)
      → handle.conn < p.next_ref
      → let r = handle.conn in
        let c = p.store r in
        let q = drop m true handle p in
        (q.active_count ≡ (if c.in_use then fetch_sub p.active_count else p.active_count))
        × ((q.store r).in_use ≡ false)
        × ((((q.store r).closed ≡ true) × (get_key q.all_connections c.id ≡ none))
            ⊎ ((idx : ℕ) × (get_bucket_index c.protocol c.ip_version ≡ some idx)
                × (sq.to_list (q.idle_connections idx)
                    ≡ sq.to_list (p.idle_connections idx) ++ r ∷ [])))
  unfolding drop
  drop_lem m handle p h =
      let (_, id, protocol, ip_version) = release_active-same_conn m handle.conn p in
      subst (λ a. IsBack a handle.conn p (return_connection m handle.conn p))
        (release_active-count m handle.conn p)
        (IsBack-from handle.conn p (release_active m handle.conn p)
          (return_connection m handle.conn p) id protocol ip_version
          (release_active-Keeps m handle.conn p).idle_connections
          (released-IsBack m handle.conn p h))

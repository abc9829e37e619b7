-- ===== src/Pool/Fitness.antt =====
-- src/pool/mod.rs: what a connection is like that `get_connection` lends.
use netconnpool_rust.Base.{
  ℕ, ◌≡◌, refl, ap, subst, ◌∙◌, Bool, true, false, Option, none, some, List, [], ◌∷◌, arith,
  Bool-cases, Option-cases, inl, inr, ok, err,
}
use netconnpool_rust.Connection
use netconnpool_rust.Connection.{Connection}
use netconnpool_rust.Errors.{Result, max_connections_reached}
use netconnpool_rust.IpVersion.{IpVersion}
use netconnpool_rust.Net.{Moment}
use netconnpool_rust.Protocol.{Protocol}
use netconnpool_rust.SegQueue.{SegQueue}
use netconnpool_rust.Pool.State.{PoolInner, is_connection_valid_for_borrow, get_target_buckets}
use netconnpool_rust.Pool.Remove.{remove_connection}
use netconnpool_rust.Pool.Idle.{PooledConnection}
use netconnpool_rust.Pool.Create.{create_connection}
use netconnpool_rust.Pool.Get.{
  take_idle, borrow_idle, clear_buffer, clear_socket, lend, get_round, after_borrow, after_create,
  done,
}
use netconnpool_rust.Pool.Creation.{IsNew, IsNew-fresh, create_connection-IsNew}
use netconnpool_rust.Pool.Frame.{remove_connection-Keeps}

-- In use, open, healthy, and not beyond its lifetime.
pub record IsFit (m : Moment) (max_lifetime : ℕ) (c : Connection) : Type 0 where
  pub lent : c.in_use ≡ true
  pub opened : c.closed ≡ false
  pub healthy : c.is_healthy ≡ true
  pub fresh : Connection.is_expired m max_lifetime c ≡ false

module _ {Queue : Type 0} where
  valid_fields :
      (m : Moment) (c : Connection) (p : PoolInner Queue)
      → is_connection_valid_for_borrow m c p ≡ true
      → (c.closed ≡ false)
        × (c.is_healthy ≡ true)
        × (Connection.is_expired m p.config.max_lifetime c ≡ false)
  unfolding is_connection_valid_for_borrow
  valid_fields m c p h = ground arith

  lend-IsFit :
      (m : Moment) (start max_lifetime : ℕ) (is_reused : Bool) (r : ℕ) (p : PoolInner Queue)
      → (p.store r).closed ≡ false
      → (p.store r).is_healthy ≡ true
      → Connection.is_expired m max_lifetime (p.store r) ≡ false
      → IsFit m max_lifetime ((lend m start is_reused r p).store r)
  unfolding lend Connection.mark_in_use Connection.increment_reuse_count Connection.is_expired
  lend-IsFit m start max_lifetime true r p opened healthy fresh = ground arith
  lend-IsFit m start max_lifetime false r p opened healthy fresh = ground arith

  clear_buffer-conn :
      (m : Moment) (r max_lifetime : ℕ) (p : PoolInner Queue)
      → (((clear_buffer m r p).store r).closed ≡ (p.store r).closed)
        × (((clear_buffer m r p).store r).is_healthy ≡ (p.store r).is_healthy)
        × (Connection.is_expired m max_lifetime ((clear_buffer m r p).store r)
            ≡ Connection.is_expired m max_lifetime (p.store r))
  unfolding clear_buffer clear_socket Connection.is_expired
  clear_buffer-conn m r max_lifetime p = ground arith

module _ {Queue : Type 0} ⦃sq : SegQueue ℕ Queue⦄ where
  take_idle-config :
      (idx r : ℕ) (rest : Queue) (p : PoolInner Queue) → (take_idle idx r rest p).config ≡ p.config
  unfolding take_idle
  take_idle-config idx r rest p = refl

  borrow_idle-IsFit :
      (m : Moment) (start max_lifetime : ℕ) (indices : List ℕ) (p : PoolInner Queue) (s : ℕ)
      → p.config.max_lifetime ≡ max_lifetime
      → (borrow_idle m start indices p).1 ≡ some s
      → IsFit m max_lifetime ((borrow_idle m start indices p).0.store s)
  unfolding borrow_idle
  borrow_idle-IsFit m start max_lifetime [] p s same h = cc
  borrow_idle-IsFit m start max_lifetime (idx ∷ indices) p s same h =
      elim (Option-cases (sq.pop (p.idle_connections idx))) [
        | inl e ↦
            simp (e, borrow_idle)
              (borrow_idle-IsFit m start max_lifetime indices p s same (simp (e, borrow_idle) at h))
        | inr ((r, rest), e) ↦
            let taken = take_idle idx r rest p in
            let now : taken.config.max_lifetime ≡ max_lifetime =
              ap (λ d. d.max_lifetime) (take_idle-config idx r rest p) ∙ same in
            let kept = remove_connection-Keeps m r taken in
            elim (Bool-cases (is_connection_valid_for_borrow m (taken.store r) taken)) [
              | inl valid ↦
                  let f = valid_fields m (taken.store r) taken valid in
                  let c = clear_buffer-conn m r max_lifetime taken in
                  let fresh =
                    c.2 ∙ subst (λ l. Connection.is_expired m l (taken.store r) ≡ false) now f.2 in
                  let fit =
                    lend-IsFit m start max_lifetime true r (clear_buffer m r taken) (c.0 ∙ f.0)
                      (c.1 ∙ f.1) fresh in
                  ground (arith, fit)
              | inr invalid ↦
                  let later = ap (λ d. d.max_lifetime) kept.config ∙ now in
                  let ih =
                    borrow_idle-IsFit m start max_lifetime indices (remove_connection m r taken) s
                      later in
                  ground (arith, ih)
            ]
      ]

  after_create-IsFit :
      (m : Moment) (start timeout max_lifetime : ℕ) (p : PoolInner Queue) (made : Result ℕ)
      (h : PooledConnection)
      → ((s : ℕ) → made ≡ ok s → IsNew m (p.store s))
      → (after_create m start timeout (p, made)).1 ≡ done (ok h)
      → IsFit m max_lifetime ((after_create m start timeout (p, made)).0.store h.conn)
  unfolding after_create
  after_create-IsFit m start timeout max_lifetime p (ok r) h new e =
      let n = new r refl in
      let fit =
        lend-IsFit m start max_lifetime false r p n.0 n.1
          (IsNew-fresh m max_lifetime (p.store r) n) in
      ground (arith, fit)
  after_create-IsFit m start timeout max_lifetime p (err (max_connections_reached a b)) h new e =
      ground arith
  after_create-IsFit m start timeout max_lifetime p (err _) h new e = ground arith

  after_borrow-IsFit :
      (m : Moment) (start timeout max_lifetime : ℕ) (protocol : Option Protocol)
      (ip_version : Option IpVersion) (p : PoolInner Queue) (found : Option ℕ)
      (h : PooledConnection)
      → ((s : ℕ) → found ≡ some s → IsFit m max_lifetime (p.store s))
      → (after_borrow m start timeout protocol ip_version (p, found)).1 ≡ done (ok h)
      → IsFit m max_lifetime
          ((after_borrow m start timeout protocol ip_version (p, found)).0.store h.conn)
  unfolding after_borrow
  after_borrow-IsFit m start timeout max_lifetime protocol ip_version p (some r) h fit e =
      ground (arith, fit r refl)
  after_borrow-IsFit m start timeout max_lifetime protocol ip_version p none h fit e =
      let made = create_connection m protocol ip_version p in
      after_create-IsFit m start timeout max_lifetime made.0 made.1 h
        (create_connection-IsNew m protocol ip_version p) e

  -- The connection that a pass of `get_connection` lends, reused or new, is marked in use, open, healthy
  -- and within its lifetime.
  pub get_round-IsFit :
      (m : Moment) (start timeout : ℕ) (protocol : Option Protocol) (ip_version : Option IpVersion)
      (p : PoolInner Queue) (h : PooledConnection)
      → (get_round m start timeout protocol ip_version p).1 ≡ done (ok h)
      → IsFit m p.config.max_lifetime
          ((get_round m start timeout protocol ip_version p).0.store h.conn)
  unfolding get_round
  get_round-IsFit m start timeout protocol ip_version p h e =
      let borrowed = borrow_idle m start (get_target_buckets protocol ip_version) p in
      let searched =
        after_borrow-IsFit m start timeout p.config.max_lifetime protocol ip_version borrowed.0
          borrowed.1 h
          (λ s.
            borrow_idle-IsFit m start p.config.max_lifetime (get_target_buckets protocol ip_version)
              p s refl) in
      ground (arith, searched)

-- ===== src/Pool/Settles/Lending.antt =====
-- src/pool/mod.rs: the counter of the active connections and the marks through what lends, parks,
-- returns and makes connections.
use netconnpool_rust.Base.{
  ℕ, ◌+◌, ◌<◌, ◌≡◌, refl, sym, subst, ap, ◌∙◌, ◌⊎◌, Bool, true, false, Option, none, some, arith,
  Bool-cases, inl, inr, ok, err, ◌==◌, update, if◌then◌else◌,
}
use netconnpool_rust.Config.{ConnectionType}
use netconnpool_rust.Connection
use netconnpool_rust.Connection.{Connection}
use netconnpool_rust.Errors.{Result, NetConnPoolError}
use netconnpool_rust.IpVersion.{IpVersion}
use netconnpool_rust.Net.{Moment}
use netconnpool_rust.Protocol.{Protocol}
use netconnpool_rust.Pool.State.{PoolInner, fetch_add}
use netconnpool_rust.Pool.Create.{
  Probe, free, choose_id, allocate, insert_found, create_finish, create_admit, create_dialled,
  create_connection, create_check, dial,
}
use netconnpool_rust.Pool.Minting.{create_admit-Mints}
use netconnpool_rust.Pool.Get.{Round, done, lend}
use netconnpool_rust.Pool.Settles.{
  in_use_count, in_use_count_next, in_use_count-same, in_use_count-update, IsSettled, Settles,
  Settles-refl, Settles-trans, same-Settles, set_conn-Settles, Settles-idle,
  close_connection-Settles,
}

-- The connection that a pass of `get_connection` gives.
abbrev pub given : Round → Option ℕ
given (done (ok h)) = some h.conn
given _ = none

abbrev lent_conn : Moment → (is_reused : Bool) → Connection → Connection
lent_conn m is_reused c =
    if is_reused
    then Connection.increment_reuse_count (Connection.mark_in_use m c)
    else Connection.mark_in_use m c

module _ {Queue : Type 0} where
  -- The counter stays right, and one connection at most comes into use: the one that is lent.
  pub record Lends (p q : PoolInner Queue) (lent : Option ℕ) : Type 0 where
    pub settled : IsSettled p → IsSettled q
    pub wakes : (s : ℕ) → (q.store s).in_use ≡ true → ((p.store s).in_use ≡ true) ⊎ (lent ≡ some s)

  pub Settles-Lends : {p q : PoolInner Queue} (lent : Option ℕ) → Settles p q → Lends p q lent
  Settles-Lends lent h = record { settled = h.settled; wakes = λ s e. inl (h.calms s e) }

  pub Lends-after :
      {p q s : PoolInner Queue} {lent : Option ℕ} → Settles p q → Lends q s lent → Lends p s lent
  Lends-after h k = record {
    settled = λ o. k.settled (h.settled o);
    wakes = λ j e. elim (k.wakes j e) [ inl was ↦ inl (h.calms j was) | inr own ↦ inr own ];
  }

  lend-marks :
      (m : Moment) (start : ℕ) (is_reused : Bool) (r : ℕ) (p : PoolInner Queue)
      → let q = lend m start is_reused r p in
        let c = lent_conn m is_reused (p.store r) in
        (c.in_use ≡ true)
        × (q.store ≡ update p.store r c)
        × (q.next_ref ≡ p.next_ref)
        × (q.active_count ≡ fetch_add p.active_count)
  unfolding lend Connection.mark_in_use Connection.increment_reuse_count
  lend-marks m start is_reused r p = ground arith

  -- Lending a connection that is not in use.
  pub lend-Lends :
      (m : Moment) (start : ℕ) (is_reused : Bool) (r : ℕ) (p : PoolInner Queue)
      → (p.store r).in_use ≡ false
      → r < p.next_ref
      → Lends p (lend m start is_reused r p) (some r)
  lend-Lends m start is_reused r p idle below =
      let (used, store, next, active) = lend-marks m start is_reused r p in
      let c = lent_conn m is_reused (p.store r) in
      let q = lend m start is_reused r p in
      let changed = in_use_count-update p.next_ref r c p.store below in
      let there = λ (s : ℕ). ap (λ f. (f s).in_use) store in
      let wakes : (s : ℕ)
          → (q.store s).in_use ≡ true
          → ((p.store s).in_use ≡ true) ⊎ (some r ≡ some s) =
        λ s e. elim (Bool-cases (r == s)) [
          | inl own ↦ inr (ground (arith, own))
          | inr other ↦ inl (simp other at (sym (there s) ∙ e))
        ] in
      record {
        settled = λ o. record {
          counted =
              let same : in_use_count q.next_ref q.store
                  ≡ in_use_count p.next_ref (update p.store r c) =
                ap (λ n. in_use_count n q.store) next ∙ ap (in_use_count p.next_ref) store in
              let more : in_use_count p.next_ref (update p.store r c)
                  ≡ in_use_count p.next_ref p.store + 1 =
                ground (arith, changed, used, idle) in
              omega (arith, same, more, active, o.counted);
          placed = λ s e. elim (wakes s e) [
            | inl was ↦ omega (arith, next, o.placed s was)
            | inr own ↦ ground (arith, own, next, below)
          ];
        };
        wakes = wakes;
      }

  -- A creation settles, and its connection is not in use.
  pub record Makes (p q : PoolInner Queue) (made : Result ℕ) : Type 0 where
    pub settles : Settles p q
    pub idle : (s : ℕ) → made ≡ ok s → ((q.store s).in_use ≡ false) × (s < q.next_ref)

  pub allocate-Settles :
      (m : Moment) (t : ConnectionType) (p : PoolInner Queue) → Settles p (allocate m t p)
  unfolding allocate Connection.new
  allocate-Settles m t p = record {
    settled = λ o.
        let q = allocate m t p in
        let before = in_use_count-same p.next_ref p.store q.store (λ s h. ground arith) in
        let last = in_use_count_next p.next_ref q.store in
        record {
          counted = ground (arith, before, last, o.counted);
          placed = λ s e. ground (arith, o.placed s);
        };
    calms = λ s e. ground arith;
    grows = omega arith;
  }

  allocate-idle :
      (m : Moment) (t : ConnectionType) (p : PoolInner Queue)
      → ((allocate m t p).store p.next_ref).in_use ≡ false
  unfolding allocate Connection.new
  allocate-idle m t p = ground arith

  insert_found-Settles :
      (m : Moment) (r : ℕ) (found : Probe) (p : PoolInner Queue)
      → Settles p (insert_found m r found p).0
  unfolding insert_found Connection.update_id
  insert_found-Settles m r (free id) p =
      Settles-trans (set_conn-Settles r (Connection.update_id id (p.store r)) p refl)
        (same-Settles refl refl refl)
  insert_found-Settles m r _ p = close_connection-Settles m r p

  create_finish-Settles :
      (m : Moment) (r : ℕ) (p : PoolInner Queue) → Settles p (create_finish m r p).0
  unfolding create_finish
  create_finish-Settles m r p = ground (
    arith,
    close_connection-Settles m r p,
    insert_found-Settles m r (choose_id (p.store r).id p.all_connections) p,
  )

  admitted-Settles :
      (m : Moment) (protocol : Option Protocol) (ip_version : Option IpVersion) (t : ConnectionType)
      (p : PoolInner Queue)
      → Settles (allocate m t p) (create_admit m protocol ip_version t p).0
  unfolding create_admit
  admitted-Settles m protocol ip_version t p =
      let q = allocate m t p in
      ground (arith, close_connection-Settles m p.next_ref q, create_finish-Settles m p.next_ref q)

  pub create_admit-Makes :
      (m : Moment) (protocol : Option Protocol) (ip_version : Option IpVersion) (t : ConnectionType)
      (p : PoolInner Queue)
      → let made = create_admit m protocol ip_version t p in Makes p made.0 made.1
  create_admit-Makes m protocol ip_version t p =
      let admitted = admitted-Settles m protocol ip_version t p in
      record {
        settles = Settles-trans (allocate-Settles m t p) admitted;
        idle = λ s e.
            let (place, below) = (create_admit-Mints m protocol ip_version t p).fresh s e in
            (
              subst (λ j. ((create_admit m protocol ip_version t p).0.store j).in_use ≡ false)
                  (sym place) (Settles-idle p.next_ref admitted (allocate-idle m t p)),
              below,
            );
      }

  err-Makes : (p : PoolInner Queue) (e : NetConnPoolError) → Makes p p (err e)
  err-Makes p e = record { settles = Settles-refl p; idle = λ s h. cc }

  create_dialled-Makes :
      (m : Moment) (protocol : Option Protocol) (ip_version : Option IpVersion)
      (t : Result ConnectionType) (p : PoolInner Queue)
      → let made = create_dialled m protocol ip_version t p in Makes p made.0 made.1
  unfolding create_dialled
  create_dialled-Makes m protocol ip_version (ok t) p = create_admit-Makes m protocol ip_version t p
  create_dialled-Makes m protocol ip_version (err e) p = err-Makes p e

  pub create_connection-Makes :
      (m : Moment) (protocol : Option Protocol) (ip_version : Option IpVersion)
      (p : PoolInner Queue)
      → let made = create_connection m protocol ip_version p in Makes p made.0 made.1
  unfolding create_connection
  create_connection-Makes m protocol ip_version p = from_check (create_check p)
    where
      from_check :
          (checked : Result (Unit {0}))
          → let made : PoolInner Queue × Result ℕ = elim checked [
            | err e ↦ (p, err e)
            | ok _ ↦ create_dialled m protocol ip_version (dial m protocol p.config) p
          ] in
            Makes p made.0 made.1
      from_check (ok _) = create_dialled-Makes m protocol ip_version (dial m protocol p.config) p
      from_check (err e) = err-Makes p e

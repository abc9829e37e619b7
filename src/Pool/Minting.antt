-- ===== src/Pool/Minting.antt =====
-- src/pool/mod.rs: what `create_connection` leaves as it is, and where its new connection goes.
use netconnpool_rust.Base.{
  ℕ, ◌+◌, ◌<◌, ◌≡◌, refl, sym, subst, ap, ◌∙◌, Option, some, ◌∷◌, arith, Bool-cases, inl, inr, ◌⊎◌,
  true, false, ok, err, ◌==◌,
}
use netconnpool_rust.Config.{ConnectionType}
use netconnpool_rust.Connection
use netconnpool_rust.Connection.Evolution.{Evolves, Evolves-refl}
use netconnpool_rust.Errors.{NetConnPoolError, Result}
use netconnpool_rust.IpVersion.{IpVersion}
use netconnpool_rust.Net.{Moment}
use netconnpool_rust.Protocol.{Protocol}
use netconnpool_rust.Pool.State.{PoolInner}
use netconnpool_rust.Pool.Create.{
  create_connection, create_dialled, create_admit, create_finish, insert_found, allocate, dial,
  Probe, free, choose_id, create_check,
}
use netconnpool_rust.Pool.Insertion.{IsInserted, create_admit-IsInserted}
use netconnpool_rust.Pool.Map.{get_key, IsMap}
use netconnpool_rust.Pool.Matching.{create_finish-kind}
use netconnpool_rust.Pool.Remove.{close_connection}
use netconnpool_rust.Pool.Removal.{IsIndexed}
use netconnpool_rust.Pool.Store.{Grows, Grows-refl}

module _ {Queue : Type 0} where
  -- The connections other than `r`, the generator and the queues are as they were.
  pub record Spares (r : ℕ) (p q : PoolInner Queue) : Type 0 where
    pub next_ref : q.next_ref ≡ p.next_ref
    pub generator : q.generator ≡ p.generator
    pub idle : q.idle_connections ≡ p.idle_connections
    pub conn : (j : ℕ) → (r == j) ≡ false → q.store j ≡ p.store j

  close_connection-Spares :
      (m : Moment) (r : ℕ) (p : PoolInner Queue) → Spares r p (close_connection m r p)
  unfolding close_connection
  close_connection-Spares m r p = record {
    next_ref = ground arith;
    generator = ground arith;
    idle = ground arith;
    conn = λ j h. ground arith;
  }

  insert_found-Spares :
      (m : Moment) (r : ℕ) (found : Probe) (p : PoolInner Queue)
      → Spares r p (insert_found m r found p).0
  unfolding insert_found
  insert_found-Spares m r (free id) p = record {
    next_ref = refl;
    generator = refl;
    idle = refl;
    conn = λ j h. ground arith;
  }
  insert_found-Spares m r _ p = close_connection-Spares m r p

  create_finish-Spares :
      (m : Moment) (r : ℕ) (p : PoolInner Queue) → Spares r p (create_finish m r p).0
  unfolding create_finish
  create_finish-Spares m r p = ground (
    arith,
    close_connection-Spares m r p,
    insert_found-Spares m r (choose_id (p.store r).id p.all_connections) p,
  )

  pub create_admit-Spares :
      (m : Moment) (protocol : Option Protocol) (ip_version : Option IpVersion) (t : ConnectionType)
      (p : PoolInner Queue)
      → Spares p.next_ref (allocate m t p) (create_admit m protocol ip_version t p).0
  unfolding create_admit
  create_admit-Spares m protocol ip_version t p =
      let q = allocate m t p in
      ground (arith, close_connection-Spares m p.next_ref q, create_finish-Spares m p.next_ref q)

  pub allocate-facts :
      (m : Moment) (t : ConnectionType) (p : PoolInner Queue)
      → ((allocate m t p).next_ref ≡ p.next_ref + 1)
        × ((allocate m t p).idle_connections ≡ p.idle_connections)
        × ((allocate m t p).all_connections ≡ p.all_connections)
        × ((j : ℕ) → (p.next_ref == j) ≡ false → (allocate m t p).store j ≡ p.store j)
  unfolding allocate
  allocate-facts m t p = (refl, refl, refl, (λ j h. ground arith))

  close_connection-shuts :
      (m : Moment) (r : ℕ) (p : PoolInner Queue)
      → ((close_connection m r p).all_connections ≡ p.all_connections)
        × (((close_connection m r p).store r).closed ≡ true)
  unfolding close_connection Connection.close
  close_connection-shuts m r p = ground arith

  insert_found-result :
      (m : Moment) (r : ℕ) (found : Probe) (p : PoolInner Queue)
      → ((insert_found m r found p).1 ≡ ok r)
        ⊎ (((insert_found m r found p).0.all_connections ≡ p.all_connections)
            × (((insert_found m r found p).0.store r).closed ≡ true))
  unfolding insert_found
  insert_found-result m r (free id) p = inl refl
  insert_found-result m r _ p = inr (close_connection-shuts m r p)

  create_finish-result :
      (m : Moment) (r : ℕ) (p : PoolInner Queue)
      → ((create_finish m r p).1 ≡ ok r)
        ⊎ (((create_finish m r p).0.all_connections ≡ p.all_connections)
            × (((create_finish m r p).0.store r).closed ≡ true))
  unfolding create_finish
  create_finish-result m r p = ground (
    arith,
    close_connection-shuts m r p,
    insert_found-result m r (choose_id (p.store r).id p.all_connections) p,
  )

  pub create_admit-result :
      (m : Moment) (protocol : Option Protocol) (ip_version : Option IpVersion) (t : ConnectionType)
      (p : PoolInner Queue)
      → ((create_admit m protocol ip_version t p).1 ≡ ok p.next_ref)
        ⊎ (((create_admit m protocol ip_version t p).0.all_connections ≡ p.all_connections)
            × (((create_admit m protocol ip_version t p).0.store p.next_ref).closed ≡ true))
  unfolding create_admit
  create_admit-result m protocol ip_version t p =
      let q = allocate m t p in
      let same = (allocate-facts m t p).2 in
      ground
        (arith, same, close_connection-shuts m p.next_ref q, create_finish-result m p.next_ref q)

  create_admit-place :
      (m : Moment) (protocol : Option Protocol) (ip_version : Option IpVersion) (t : ConnectionType)
      (p : PoolInner Queue) (s : ℕ)
      → (create_admit m protocol ip_version t p).1 ≡ ok s
      → s ≡ p.next_ref
  unfolding create_admit
  create_admit-place m protocol ip_version t p s h =
      ground (arith, create_finish-kind m p.next_ref s (allocate m t p))

  -- A new connection has the first free place; what was there is as before, in its place, in the
  -- queues, and in the map.
  pub record Mints (p : PoolInner Queue) (q : PoolInner Queue) (made : Result ℕ) : Type 0 where
    pub grows : Grows p q
    pub idle : q.idle_connections ≡ p.idle_connections
    pub indexed : IsIndexed p → IsIndexed q
    pub fresh : (s : ℕ) → made ≡ ok s → (s ≡ p.next_ref) × (s < q.next_ref)

  same_map-IsIndexed :
      (p q : PoolInner Queue)
      → ((j : ℕ) → j < p.next_ref → (q.store j ≡ p.store j) × (j < q.next_ref))
      → q.all_connections ≡ p.all_connections
      → IsIndexed p
      → IsIndexed q
  same_map-IsIndexed p q kept same x = record {
    distinct = subst IsMap (sym same) x.distinct;
    agree = λ k r e.
        let (id, old) = x.agree k r (subst (λ l. get_key l k ≡ some r) same e) in
        let (here, fits) = kept r old in (ap (λ c. c.id) here ∙ id, fits);
  }

  inserted-IsIndexed :
      (s : ℕ) (p q : PoolInner Queue)
      → s < q.next_ref
      → ((j : ℕ) → j < p.next_ref → (q.store j ≡ p.store j) × (j < q.next_ref))
      → IsInserted s p q
      → IsIndexed p
      → IsIndexed q
  inserted-IsIndexed s p q below kept inserted x = record {
    distinct = subst IsMap (sym inserted.0) (inserted.1, x.distinct);
    agree = λ k r e.
        let entry : get_key (((q.store s).id, s) ∷ p.all_connections) k ≡ some r =
          subst (λ l. get_key l k ≡ some r) inserted.0 e in
        elim (Bool-cases ((q.store s).id == k)) [
          | inl own ↦
              let here : s ≡ r = ground arith in
              subst (λ j. ((q.store j).id ≡ k) × (j < q.next_ref)) here (ground arith, below)
          | inr other ↦
              let found : get_key p.all_connections k ≡ some r = ground arith in
              let (id, old) = x.agree k r found in
              let (same, fits) = kept r old in (ap (λ c. c.id) same ∙ id, fits)
        ];
  }

  pub create_admit-Mints :
      (m : Moment) (protocol : Option Protocol) (ip_version : Option IpVersion) (t : ConnectionType)
      (p : PoolInner Queue)
      → let made = create_admit m protocol ip_version t p in Mints p made.0 made.1
  create_admit-Mints m protocol ip_version t p =
      let a = allocate m t p in
      let made = create_admit m protocol ip_version t p in
      let (next, idle, all, old) = allocate-facts m t p in
      let spares = create_admit-Spares m protocol ip_version t p in
      let kept : (j : ℕ) → j < p.next_ref → (made.0.store j ≡ p.store j) × (j < made.0.next_ref) =
        λ j h.
          let apart : (p.next_ref == j) ≡ false = ground (arith, h) in
          (spares.conn j apart ∙ old j apart, omega (arith, next, spares.next_ref)) in
      record {
        grows = record {
          next_ref = omega (arith, next, spares.next_ref);
          conn = λ r h. subst (Evolves (p.store r)) (sym (kept r h).0) (Evolves-refl (p.store r));
        };
        idle = spares.idle ∙ idle;
        indexed = λ x. elim (create_admit-result m protocol ip_version t p) [
          | inl done ↦
              inserted-IsIndexed p.next_ref p made.0 (omega (arith, next, spares.next_ref)) kept
                (create_admit-IsInserted m protocol ip_version t p p.next_ref done) x
          | inr (same, shut) ↦ same_map-IsIndexed p made.0 kept same x
        ];
        fresh = λ s e.
            let here = create_admit-place m protocol ip_version t p s e in
            (here, omega (arith, here, next, spares.next_ref));
      }

  err-Mints : (p : PoolInner Queue) (e : NetConnPoolError) → Mints p p (err e)
  err-Mints p e = record { grows = Grows-refl p; idle = refl; indexed = λ x. x; fresh = λ s h. cc }

  create_dialled-Mints :
      (m : Moment) (protocol : Option Protocol) (ip_version : Option IpVersion)
      (t : Result ConnectionType) (p : PoolInner Queue)
      → let made = create_dialled m protocol ip_version t p in Mints p made.0 made.1
  unfolding create_dialled
  create_dialled-Mints m protocol ip_version (ok t) p = create_admit-Mints m protocol ip_version t p
  create_dialled-Mints m protocol ip_version (err e) p = err-Mints p e

  pub create_connection-Mints :
      (m : Moment) (protocol : Option Protocol) (ip_version : Option IpVersion)
      (p : PoolInner Queue)
      → let made = create_connection m protocol ip_version p in Mints p made.0 made.1
  unfolding create_connection
  create_connection-Mints m protocol ip_version p = from_check (create_check p)
    where
      from_check :
          (checked : Result (Unit {0}))
          → let made : PoolInner Queue × Result ℕ = elim checked [
            | err e ↦ (p, err e)
            | ok _ ↦ create_dialled m protocol ip_version (dial m protocol p.config) p
          ] in
            Mints p made.0 made.1
      from_check (ok _) = create_dialled-Mints m protocol ip_version (dial m protocol p.config) p
      from_check (err e) = err-Mints p e

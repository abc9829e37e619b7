-- ===== src/Pool/Accounted/Taking.antt =====
-- src/pool/mod.rs: the place of the heap that `create_connection` takes, and the id there.
use netconnpool_rust.Base.{
  ℕ, Bool, ◌+◌, ◌≤◌, ◌<◌, ◌≡◌, refl, ap, ◌∙◌, true, false, Option, some, List, [], ◌∷◌, arith,
  Bool-cases, inl, inr, ◌⊎◌, ◌==◌,
}
use netconnpool_rust.Config.{ConnectionType}
use netconnpool_rust.Connection
use netconnpool_rust.IpVersion.{IpVersion}
use netconnpool_rust.Net.{Moment, u64_max}
use netconnpool_rust.Protocol.{Protocol}
use netconnpool_rust.Pool.State.{PoolInner, contains_key}
use netconnpool_rust.Pool.Create.{
  create_admit, create_finish, insert_found, allocate, choose_id, free,
}
use netconnpool_rust.Pool.Ids.{allocate_next}
use netconnpool_rust.Pool.Insertion.{create_admit-IsInserted}
use netconnpool_rust.Pool.Map.{get_key}
use netconnpool_rust.Pool.Minting.{create_admit-Spares, create_admit-result, allocate-facts}
use netconnpool_rust.Pool.Remove.{close_connection}

pub get_key-contains_key :
    (l : List (ℕ × ℕ)) (k : ℕ) → ((r : ℕ) → get_key l k ≡ some r → ⊥) → contains_key l k ≡ false
get_key-contains_key [] k absent = ground arith
get_key-contains_key ((j, s) ∷ l) k absent = elim (Bool-cases (j == k)) [
  | inl own ↦ absurd (absent s (ground (arith, own)))
  | inr other ↦
      ground (arith, other, get_key-contains_key l k (λ r e. absent r (ground (arith, other, e))))
]

choose_id_own :
    (own : ℕ) (entries : List (ℕ × ℕ))
    → contains_key entries own ≡ false
    → choose_id own entries ≡ free own
unfolding choose_id
choose_id_own own entries absent = simp absent refl

module _ {Queue : Type 0} where
  close_connection-id :
      (m : Moment) (r : ℕ) (p : PoolInner Queue)
      → ((close_connection m r p).store r).id ≡ (p.store r).id
  unfolding close_connection Connection.close
  close_connection-id m r p = ground arith

  insert_found-id :
      (m : Moment) (r : ℕ) (p : PoolInner Queue)
      → ((insert_found m r (free (p.store r).id) p).0.store r).id ≡ (p.store r).id
  unfolding insert_found Connection.update_id
  insert_found-id m r p = ground arith

  -- Where no entry has the id of the new connection, it keeps that id.
  create_finish-id :
      (m : Moment) (r : ℕ) (p : PoolInner Queue)
      → contains_key p.all_connections (p.store r).id ≡ false
      → ((create_finish m r p).0.store r).id ≡ (p.store r).id
  unfolding create_finish
  create_finish-id m r p absent =
      let own = choose_id_own (p.store r).id p.all_connections absent in
      let inserted : ((insert_found m r (choose_id (p.store r).id p.all_connections) p).0.store
            r).id
          ≡ (p.store r).id =
        simp own (insert_found-id m r p) in
      ground (arith, inserted, close_connection-id m r p)

  create_admit-id :
      (m : Moment) (protocol : Option Protocol) (ip_version : Option IpVersion) (t : ConnectionType)
      (p : PoolInner Queue)
      → let a = allocate m t p in
        contains_key a.all_connections (a.store p.next_ref).id ≡ false
        → ((create_admit m protocol ip_version t p).0.store p.next_ref).id ≡ (a.store p.next_ref).id
  unfolding create_admit
  create_admit-id m protocol ip_version t p absent =
      let a = allocate m t p in
      ground (arith, create_finish-id m p.next_ref a absent, close_connection-id m p.next_ref a)

module _ {Queue : Type 0} (foreign : ℕ → Bool) where
  -- One more place is taken, with the next id; the connection there is closed or is a new entry, or the
  -- place is one of `foreign`, and the map has kept its entries.
  pub record Takes (p q : PoolInner Queue) : Type 0 where
    pub next_ref : q.next_ref ≡ p.next_ref + 1
    pub generator : q.generator ≡ p.generator + 1
    pub new_id : (q.store p.next_ref).id ≡ p.generator + 1
    pub others : (s : ℕ) → (p.next_ref == s) ≡ false → q.store s ≡ p.store s
    pub kept :
        (k r : ℕ)
        → k ≤ p.generator
        → get_key p.all_connections k ≡ some r
        → get_key q.all_connections k ≡ some r
    pub enters :
        foreign p.next_ref ≡ false
        → let c = q.store p.next_ref in
          (c.closed ≡ true) ⊎ (get_key q.all_connections c.id ≡ some p.next_ref)

  pub create_admit-Takes :
      (m : Moment) (protocol : Option Protocol) (ip_version : Option IpVersion) (t : ConnectionType)
      (p : PoolInner Queue)
      → p.generator < u64_max
      → contains_key p.all_connections (p.generator + 1) ≡ false
      → Takes p (create_admit m protocol ip_version t p).0
  create_admit-Takes m protocol ip_version t p below absent =
      let a = allocate m t p in
      let made = create_admit m protocol ip_version t p in
      let (given, generator, _) = allocate_next m t p below in
      let (place, _, same_map, old) = allocate-facts m t p in
      let spares = create_admit-Spares m protocol ip_version t p in
      let unused : contains_key a.all_connections (a.store p.next_ref).id ≡ false =
        ap (λ l. contains_key l (a.store p.next_ref).id) same_map
        ∙ ap (contains_key p.all_connections) given
        ∙ absent in
      let new_id = create_admit-id m protocol ip_version t p unused ∙ given in
      record {
        next_ref = spares.next_ref ∙ place;
        generator = spares.generator ∙ generator;
        new_id = new_id;
        others = λ s apart. spares.conn s apart ∙ old s apart;
        kept = λ k r low found. elim (create_admit-result m protocol ip_version t p) [
          | inl done ↦
              let entered = (create_admit-IsInserted m protocol ip_version t p p.next_ref done).0 in
              ap (λ l. get_key l k) entered ∙ ground (arith, found, low, new_id)
          | inr (same, _) ↦ ap (λ l. get_key l k) same ∙ found
        ];
        enters = λ own_place. elim (create_admit-result m protocol ip_version t p) [
          | inl done ↦
              let entered = (create_admit-IsInserted m protocol ip_version t p p.next_ref done).0 in
              inr (ap (λ l. get_key l (made.0.store p.next_ref).id) entered ∙ ground arith)
          | inr (_, shut) ↦ inl shut
        ];
      }

  pub allocate-Takes :
      (m : Moment) (t : ConnectionType) (p : PoolInner Queue)
      → p.generator < u64_max
      → foreign p.next_ref ≡ true
      → Takes p (allocate m t p)
  allocate-Takes m t p below outside =
      let (given, generator, _) = allocate_next m t p below in
      let (place, _, same_map, old) = allocate-facts m t p in
      record {
        next_ref = place;
        generator = generator;
        new_id = given;
        others = old;
        kept = λ k r low found. ap (λ l. get_key l k) same_map ∙ found;
        enters = λ own_place. cc (own_place, outside);
      }

-- ===== src/Pool/Accounted.antt =====
-- src/pool/mod.rs: the places of the heap that a pool has taken since it was made, with the ids of
-- the connections there and the entries of the map.
pub mod Taking
pub mod Creating
pub mod Reached
pub mod Tests
use netconnpool_rust.Base.{
  ℕ, ◌+◌, ◌≤◌, ◌<◌, ◌≡◌, refl, sym, subst, ap, ◌∙◌, Bool, true, false, some, none, List, arith,
  Bool-cases, inl, inr, ◌⊎◌, ◌==◌, ltb, ◌&&◌, if◌then◌else◌, update,
}
use netconnpool_rust.Connection
use netconnpool_rust.Connection.{Connection}
use netconnpool_rust.Connection.Evolution.{
  Evolves, Evolves-refl, close-Evolves, try_mark_idle-Evolves, close_lem,
}
use netconnpool_rust.Net.{Moment, u64_max}
use netconnpool_rust.Stats.{StatsInternal}
use netconnpool_rust.Pool.State.{PoolInner, set_conn, count, remove_key}
use netconnpool_rust.Pool.Bends.{Bends, release_active-same}
use netconnpool_rust.Pool.Map.{get_key, get_key-remove_key}
use netconnpool_rust.Pool.Remove.{
  close_connection, release_active, remove_connection, update_stats_on_remove,
}
use netconnpool_rust.Pool.Removal.{IsIndexed}
use netconnpool_rust.Pool.Retains.{
  Retains, same-Retains, set_conn-Retains, IsIndexed-Retains, remove_key-Prunes,
}
use netconnpool_rust.Pool.Store.{update-Evolves, same_store-Grows}

-- `base` is the first place that was free when the pool was made, and `last` the id that the generator
-- had last given then; `foreign` are the places that connections from elsewhere in the process take.
module _ {Queue : Type 0} (base last : ℕ) (foreign : ℕ → Bool) where
  pub record IsAccounted (p : PoolInner Queue) : Type 0 where
    pub indexed : IsIndexed p
    pub starts : base ≤ p.next_ref
    pub generator : p.generator + base ≡ last + p.next_ref
    pub older : (s : ℕ) → s < base → (p.store s).id ≤ last
    pub untaken : (s : ℕ) → p.next_ref ≤ s → (p.store s).id ≤ last
    pub named : (s : ℕ) → base ≤ s → s < p.next_ref → (p.store s).id + base ≡ last + s + 1
    pub placed :
        (s : ℕ)
        → base ≤ s
        → s < p.next_ref
        → foreign s ≡ false
        → ((p.store s).closed ≡ true) ⊎ (get_key p.all_connections (p.store s).id ≡ some s)

  -- While the generator is not at its end, the places stay accounted for.
  pub record Accounts (p q : PoolInner Queue) : Type 0 where
    pub grows : p.next_ref ≤ q.next_ref
    pub accounted : last + q.next_ref ≤ u64_max + base → IsAccounted p → IsAccounted q

  Accounts-refl : (p : PoolInner Queue) → Accounts p p
  Accounts-refl p = record { grows = omega arith; accounted = λ few h. h }

  Accounts-trans : {p q s : PoolInner Queue} → Accounts p q → Accounts q s → Accounts p s
  Accounts-trans h k = record {
    grows = omega (arith, h.grows, k.grows);
    accounted = λ few o. k.accounted few (h.accounted (omega (arith, few, k.grows)) o);
  }

  -- No place is taken, and each entry that is gone was of a connection that is closed.
  evolved-Accounts :
      (p q : PoolInner Queue)
      → Retains p q
      → ((s : ℕ) → Evolves (p.store s) (q.store s))
      → q.next_ref ≡ p.next_ref
      → q.generator ≡ p.generator
      → (IsAccounted p
          → (s : ℕ) → base ≤ s
          → s < p.next_ref
          → get_key p.all_connections (p.store s).id ≡ some s
          → ((q.store s).closed ≡ true) ⊎ (get_key q.all_connections (p.store s).id ≡ some s))
      → Accounts p q
  evolved-Accounts p q retains conn next generator keeps = record {
    grows = omega (arith, next);
    accounted = λ few o. record {
      indexed = IsIndexed-Retains retains o.indexed;
      starts = omega (arith, next, o.starts);
      generator = omega (arith, next, generator, o.generator);
      older = λ s h. omega (arith, (conn s).id, o.older s h);
      untaken = λ s h. omega (arith, (conn s).id, o.untaken s (omega (arith, h, next)));
      named = λ s low h. omega (arith, (conn s).id, o.named s low (omega (arith, h, next)));
      placed = λ s low h own_place.
          let below : s < p.next_ref = omega (arith, h, next) in
          elim (o.placed s low below own_place) [
            | inl shut ↦ inl ((conn s).closed shut)
            | inr found ↦ elim (keeps o s low below found) [
              | inl shut ↦ inl shut
              | inr kept ↦
                  inr (subst (λ k. get_key q.all_connections k ≡ some s) (sym (conn s).id) kept)
            ]
          ];
    };
  }

  set_conn-Accounts :
      (r : ℕ) (c : Connection) (p : PoolInner Queue)
      → Evolves (p.store r) c
      → Accounts p (set_conn r c p)
  set_conn-Accounts r c p e =
      evolved-Accounts p (set_conn r c p) (set_conn-Retains r c p e) (update-Evolves p.store r c e)
        refl refl (λ o s low h found. inr found)

  same-Accounts :
      {p q : PoolInner Queue}
      → q.store ≡ p.store
      → q.next_ref ≡ p.next_ref
      → q.all_connections ≡ p.all_connections
      → q.generator ≡ p.generator
      → Accounts p q
  same-Accounts {p} {q} store next all generator =
      evolved-Accounts p q (same-Retains store next all)
        (λ s. subst (λ f. Evolves (p.store s) (f s)) (sym store) (Evolves-refl (p.store s))) next
        generator
        (λ o s low h found. inr (subst (λ l. get_key l (p.store s).id ≡ some s) (sym all) found))

  -- Where an accounted place has the id of a place `r`, it is `r`.
  same_id :
      {p : PoolInner Queue} (r s : ℕ)
      → IsAccounted p
      → base ≤ s
      → s < p.next_ref
      → (p.store r).id ≡ (p.store s).id
      → r ≡ s
  same_id {p} r s o low h same =
      let of_s = o.named s low h in
      elim (Bool-cases (ltb r base)) [
        | inl old ↦ absurd (omega (arith, o.older r (ground (arith, old)), of_s, same, low))
        | inr new ↦ elim (Bool-cases (ltb r p.next_ref)) [
          | inl taken ↦
              omega (arith, o.named r (ground (arith, new)) (ground (arith, taken)), of_s, same)
          | inr free ↦ absurd (omega (arith, o.untaken r (ground (arith, free)), of_s, same, low))
        ]
      ]

  -- The entry of a closed connection is taken out.
  drop_key-Accounts :
      (r : ℕ) (f : StatsInternal → StatsInternal) (p : PoolInner Queue)
      → (p.store r).closed ≡ true
      → Accounts p
          (count f (record p { all_connections = remove_key (p.store r).id p.all_connections }))
  drop_key-Accounts r f p shut =
      let id = (p.store r).id in
      evolved-Accounts p _
        (record {
          grows = same_store-Grows refl refl;
          prunes = remove_key-Prunes id p.all_connections;
        })
        (λ s. Evolves-refl (p.store s)) refl refl
        (λ o s low h found. elim (Bool-cases (id == (p.store s).id)) [
          | inl own ↦
              let here : r ≡ s = same_id r s o low h (ground (arith, own)) in
              inl (subst (λ j. (p.store j).closed ≡ true) here shut)
          | inr other ↦ inr (
              get_key-remove_key id (p.store s).id p.all_connections ∙ ground (arith, other, found))
        ])

  close_connection-same :
      (m : Moment) (r : ℕ) (p : PoolInner Queue)
      → let c = (Connection.close m (p.store r)).0 in
        ((close_connection m r p).store ≡ (set_conn r c p).store)
        × ((close_connection m r p).next_ref ≡ p.next_ref)
        × ((close_connection m r p).all_connections ≡ p.all_connections)
        × ((close_connection m r p).generator ≡ p.generator)
        × (((close_connection m r p).store r).closed ≡ true)
  unfolding close_connection Connection.close
  close_connection-same m r p = ground arith

  remove_connection-Accounts :
      (m : Moment) (r : ℕ) (p : PoolInner Queue) → Accounts p (remove_connection m r p)
  unfolding remove_connection
  remove_connection-Accounts m r p =
      let released = release_active m r p in
      let closed = close_connection m r released in
      let (store, next, all, generator) = release_active-same m r p in
      let (store1, next1, all1, generator1, shut) = close_connection-same m r released in
      Accounts-trans (set_conn-Accounts r _ p (try_mark_idle-Evolves m (p.store r))) (
        Accounts-trans (same-Accounts store next all generator) (
          Accounts-trans (set_conn-Accounts r _ released (close-Evolves m (released.store r))) (
            Accounts-trans (same-Accounts store1 next1 all1 generator1)
              (drop_key-Accounts r (update_stats_on_remove (closed.store r)) closed shut))))

  pub Accounts-Bends : Bends {Queue = Queue} Accounts
  Accounts-Bends = record {
    reflects = Accounts-refl;
    chains = Accounts-trans;
    alike = same-Accounts;
    bends = set_conn-Accounts;
    removes = remove_connection-Accounts;
  }

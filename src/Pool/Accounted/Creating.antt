-- ===== src/Pool/Accounted/Creating.antt =====
-- src/pool/mod.rs: `create_connection` beside the places that were taken before.
use netconnpool_rust.Base.{
  ℕ, Bool, ◌+◌, ◌≤◌, ◌<◌, ◌≡◌, sym, subst, ap, true, false, Option, some, arith, Bool-cases, inl,
  inr, ◌⊎◌, ◌==◌, leb,
}
use netconnpool_rust.Config.{ConnectionType}
use netconnpool_rust.IpVersion.{IpVersion}
use netconnpool_rust.Net.{Moment, u64_max}
use netconnpool_rust.Protocol.{Protocol}
use netconnpool_rust.SegQueue.{SegQueue}
use netconnpool_rust.Pool.State.{PoolInner, contains_key}
use netconnpool_rust.Pool.Accounted.{IsAccounted, Accounts}
use netconnpool_rust.Pool.Create.{create_admit, allocate}
use netconnpool_rust.Pool.Map.{get_key}
use netconnpool_rust.Pool.Minting.{create_admit-Mints, create_admit-Spares, allocate-facts}
use netconnpool_rust.Pool.Retains.{IsIndexed-Retains}
use netconnpool_rust.Pool.Owners.Ownership.{allocate-Retains}
use netconnpool_rust.Pool.Removal.{IsIndexed}
use netconnpool_rust.Pool.Accounted.Taking.{
  allocate-Takes, get_key-contains_key, Takes, create_admit-Takes,
}

module _ {Queue : Type 0} (base last : ℕ) (foreign : ℕ → Bool) where
  -- No entry has an id that the generator has not given.
  fresh_id :
      (p : PoolInner Queue) (k : ℕ)
      → IsAccounted base last foreign p
      → p.generator < k
      → contains_key p.all_connections k ≡ false
  fresh_id p k o later = get_key-contains_key p.all_connections k (λ r e.
      let (id, below) = o.indexed.agree k r e in
      elim (Bool-cases (leb base r)) [
        | inl new ↦ omega (arith, o.named r (ground (arith, new)) below, id, later, o.generator)
        | inr old ↦ omega (arith, o.older r (ground (arith, old)), id, later, o.generator, o.starts)
      ])

  Takes-named :
      {p q : PoolInner Queue} (s : ℕ)
      → Takes foreign p q
      → IsAccounted base last foreign p
      → base ≤ s
      → s < q.next_ref
      → (q.store s).id + base ≡ last + s + 1
  Takes-named {p} {q} s h o low below = elim (Bool-cases (p.next_ref == s)) [
    | inl own ↦
        let here : p.next_ref ≡ s = ground (arith, own) in
        let same = ap (λ j. (q.store j).id) here in omega (arith, same, h.new_id, here, o.generator)
    | inr other ↦
        let kept = ap (λ c. c.id) (h.others s other) in
        omega (arith, kept, o.named s low (ground (arith, below, h.next_ref, other)))
  ]

  Takes-placed :
      {p q : PoolInner Queue} (s : ℕ)
      → Takes foreign p q
      → IsAccounted base last foreign p
      → base ≤ s
      → s < q.next_ref
      → foreign s ≡ false
      → ((q.store s).closed ≡ true) ⊎ (get_key q.all_connections (q.store s).id ≡ some s)
  Takes-placed {p} {q} s h o low below own_place = elim (Bool-cases (p.next_ref == s)) [
    | inl own ↦
        let here : p.next_ref ≡ s = ground (arith, own) in
        subst
          (λ j. ((q.store j).closed ≡ true) ⊎ (get_key q.all_connections (q.store j).id ≡ some j))
          here (h.enters (subst (λ j. foreign j ≡ false) (sym here) own_place))
    | inr other ↦
        let taken : s < p.next_ref = ground (arith, below, h.next_ref, other) in
        subst (λ c. (c.closed ≡ true) ⊎ (get_key q.all_connections c.id ≡ some s))
          (sym (h.others s other))
          (elim (o.placed s low taken own_place) [
            | inl shut ↦ inl shut
            | inr found ↦ inr (
                h.kept (p.store s).id s (omega (arith, o.named s low taken, o.generator, taken))
                  found)
          ])
  ]

  Takes-IsAccounted :
      {p q : PoolInner Queue}
      → Takes foreign p q
      → IsIndexed q
      → IsAccounted base last foreign p
      → IsAccounted base last foreign q
  Takes-IsAccounted h x o = record {
    indexed = x;
    starts = omega (arith, h.next_ref, o.starts);
    generator = omega (arith, h.generator, h.next_ref, o.generator);
    older = λ s old.
        let kept = ap (λ c. c.id) (h.others s (ground (arith, old, o.starts))) in
        omega (arith, kept, o.older s old);
    untaken = λ s free_place.
        let kept = ap (λ c. c.id) (h.others s (ground (arith, free_place, h.next_ref))) in
        omega (arith, kept, o.untaken s (omega (arith, free_place, h.next_ref)));
    named = λ s low below. Takes-named s h o low below;
    placed = λ s low below own_place. Takes-placed s h o low below own_place;
  }

  pub create_admit-Accounts :
      (m : Moment) (protocol : Option Protocol) (ip_version : Option IpVersion) (t : ConnectionType)
      (p : PoolInner Queue)
      → Accounts base last foreign p (create_admit m protocol ip_version t p).0
  create_admit-Accounts m protocol ip_version t p =
      let mints = create_admit-Mints m protocol ip_version t p in
      let spares = create_admit-Spares m protocol ip_version t p in
      let (place, _, _, _) = allocate-facts m t p in
      record {
        grows = mints.grows.next_ref;
        accounted = λ few o.
            let below : p.generator < u64_max =
              omega (arith, few, spares.next_ref, place, o.generator) in
            let absent = fresh_id p (p.generator + 1) o (omega arith) in
            Takes-IsAccounted (create_admit-Takes foreign m protocol ip_version t p below absent)
              (mints.indexed o.indexed) o;
      }

module _ {Queue : Type 0} ⦃sq : SegQueue ℕ Queue⦄ (base last : ℕ) (foreign : ℕ → Bool) where
  -- A connection that takes a place of `foreign` elsewhere.
  pub allocate-Accounts :
      (m : Moment) (t : ConnectionType) (p : PoolInner Queue)
      → foreign p.next_ref ≡ true
      → Accounts base last foreign p (allocate m t p)
  allocate-Accounts m t p outside =
      let (place, _, _, _) = allocate-facts m t p in
      record {
        grows = omega (arith, place);
        accounted = λ few o.
            let below : p.generator < u64_max = omega (arith, few, place, o.generator) in
            Takes-IsAccounted base last foreign (allocate-Takes foreign m t p below outside)
              (IsIndexed-Retains (allocate-Retains m t p) o.indexed) o;
      }

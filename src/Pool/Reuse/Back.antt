-- ===== src/Pool/Reuse/Back.antt =====
-- src/pool/mod.rs: a connection that is returned while another call waits for one.
use netconnpool_rust.Base.{
  ℕ, ◌-◌, ◌≤◌, ◌≡◌, refl, sym, subst, ap, ◌∙◌, true, false, Option, some, List, [], ◌∷◌, ◌++◌,
  arith, Bool-cases, inl, inr, ok, ◌==◌,
}
use netconnpool_rust.IpVersion.{IpVersion}
use netconnpool_rust.Net.{Moment}
use netconnpool_rust.Protocol.{Protocol}
use netconnpool_rust.SegQueue.{SegQueue}
use netconnpool_rust.Pool.State.{PoolInner, get_target_buckets, is_connection_valid_for_borrow}
use netconnpool_rust.Pool.Buckets.{has_elem}
use netconnpool_rust.Pool.Get.{get_round, done}
use netconnpool_rust.Pool.Idle.{return_connection}
use netconnpool_rust.Pool.Returning.{IsParked, return_connection-parks, return_connection-closed}
use netconnpool_rust.Pool.Reuse.{oldest}
use netconnpool_rust.Pool.Reuse.Oldest.{get_round-oldest}

single-rest : (r : ℕ) (l : List ℕ) → r ∷ l ≡ r ∷ [] → l ≡ []
single-rest r [] e = refl
single-rest r (s ∷ l) e = cc

module _ {Queue : Type 0} ⦃sq : SegQueue ℕ Queue⦄ where
  -- Nothing stands in the queues that the request looks at.
  abbrev pub FindsNone : Option Protocol → Option IpVersion → PoolInner Queue → Type 0
  FindsNone protocol ip_version p =
      (j : ℕ)
      → has_elem j (get_target_buckets protocol ip_version) ≡ true
      → sq.to_list (p.idle_connections j) ≡ []

  oldest-only :
      (indices : List ℕ) (i r : ℕ) (p : PoolInner Queue)
      → has_elem i indices ≡ true
      → sq.to_list (p.idle_connections i) ≡ r ∷ []
      → ((j : ℕ)
          → has_elem j indices ≡ true
          → (i == j) ≡ false
          → sq.to_list (p.idle_connections j) ≡ [])
      → oldest indices p ≡ some (i, r)
  unfolding oldest
  oldest-only [] i r p looked here others = cc
  oldest-only (j ∷ indices) i r p looked here others = elim (Bool-cases (i == j)) [
    | inl own ↦
        let same : i ≡ j = ground (arith, own) in
        let there : sq.to_list (p.idle_connections j) ≡ r ∷ [] =
          subst (λ k. sq.to_list (p.idle_connections k) ≡ r ∷ []) same here in
        simp (there, oldest) (ap (λ k. some (k, r)) (sym same))
    | inr other ↦
        let empty = others j (ground arith) other in
        let rest =
          oldest-only indices i r p (ground (arith, looked, other)) here
            (λ k in_rest apart. others k (ground (arith, in_rest)) apart) in
        simp (empty, oldest) rest
  ]

  -- A connection that is returned to its bucket while nothing stands in the queues that a request looks at,
  -- the bucket among them, is the one that the next pass for that request lends, where the pass is in
  -- time and the connection may still be lent: the map and the contents of all queues are as before
  -- the return, and nothing is dialled.
  pub return-get_round :
      (m later : Moment) (start timeout : ℕ) (protocol : Option Protocol)
      (ip_version : Option IpVersion) (idx r : ℕ) (p : PoolInner Queue)
      → IsParked m r idx p
      → FindsNone protocol ip_version p
      → has_elem idx (get_target_buckets protocol ip_version) ≡ true
      → later.instant - start ≤ timeout
      → let q = return_connection m r p in
        is_connection_valid_for_borrow later (q.store r) q ≡ true
        → let (s, round) = get_round later start timeout protocol ip_version q in
          (round ≡ done (ok (record { conn = r })))
          × ((s.store r).in_use ≡ true)
          × (s.all_connections ≡ p.all_connections)
          × (s.next_ref ≡ q.next_ref)
          × ((j : ℕ) → sq.to_list (s.idle_connections j) ≡ sq.to_list (p.idle_connections j))
  return-get_round m later start timeout protocol ip_version idx r p parked finds_none looked
        in_time fit =
      let indices = get_target_buckets protocol ip_version in
      let q = return_connection m r p in
      let (last, _, others, all, _, _) = return_connection-parks m r idx p parked in
      let alone : sq.to_list (q.idle_connections idx) ≡ r ∷ [] =
        last ∙ ap (λ l. l ++ r ∷ []) (finds_none idx looked) in
      let apart : (j : ℕ) → (idx == j) ≡ false → q.idle_connections j ≡ p.idle_connections j =
        λ j other. others j ∙ simp other refl in
      let first =
        oldest-only indices idx r q looked alone
          (λ j in_indices other. ap sq.to_list (apart j other) ∙ finds_none j in_indices) in
      let s = (get_round later start timeout protocol ip_version q).0 in
      let (found, taken) =
        get_round-oldest later start timeout protocol ip_version idx r q
          (return_connection-closed m r idx p parked) in_time first fit in
      (
        found,
        taken.in_use,
        taken.all ∙ all,
        taken.next_ref,
        (λ j. elim (Bool-cases (idx == j)) [
          | inl own ↦
              let same : idx ≡ j = ground (arith, own) in
              subst (λ k. sq.to_list (s.idle_connections k) ≡ sq.to_list (p.idle_connections k))
                same (single-rest r _ (sym taken.front ∙ alone) ∙ sym (finds_none idx looked))
          | inr other ↦ ap sq.to_list (taken.others j other ∙ apart j other)
        ]),
      )

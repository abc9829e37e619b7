-- ===== src/Pool/Sweeping/Looking.antt =====
-- src/pool/mod.rs: one look of `cleanup` at a connection.
use netconnpool_rust.Base.{
  ℕ, ◌<◌, ◌≡◌, refl, sym, ap, subst, ◌∙◌, true, false, Bool, ◌⊎◌, inl, inr, arith, Bool-cases, some,
  ◌==◌, if◌then◌else◌,
}
use netconnpool_rust.Connection
use netconnpool_rust.Net.{Moment}
use netconnpool_rust.Pool.State.{PoolInner, is_connection_valid_for_borrow}
use netconnpool_rust.Pool.Map.{get_key}
use netconnpool_rust.Pool.Cleanup.{
  report_leak, mark_unhealthy, inspect_in_use, inspect_idle, inspect,
}
use netconnpool_rust.Pool.Remove.{remove_connection}
use netconnpool_rust.Pool.Removal.{IsIndexed, get_key-remove_connection}
use netconnpool_rust.Pool.Follows.{report_leak-Follows, inspect_idle-same}
use netconnpool_rust.Pool.Retains.{IsIndexed-Retains}
use netconnpool_rust.Pool.Retains.Handlers.{Retains-Follows}
use netconnpool_rust.Pool.Sweeping.{
  Only, IsGone, IsSwept, remove_connection-Only, remove_connection-IsGone,
}

module _ {Queue : Type 0} where
  -- The connection keeps its mark, and no other changes, nor does the map.
  record Still (r : ℕ) (p q : PoolInner Queue) : Type 0 where
    all : q.all_connections ≡ p.all_connections
    mark : (q.store r).in_use ≡ (p.store r).in_use
    only : Only r p q

  Still-refl : (r : ℕ) (p : PoolInner Queue) → Still r p p
  Still-refl r p = record { all = refl; mark = refl; only = λ s other. refl }

  Still-trans : (r : ℕ) {p q s : PoolInner Queue} → Still r p q → Still r q s → Still r p s
  Still-trans r h k = record {
    all = k.all ∙ h.all;
    mark = k.mark ∙ h.mark;
    only = λ j other. k.only j other ∙ h.only j other;
  }

  report_leak-Still : (r : ℕ) (p : PoolInner Queue) → Still r p (report_leak r p)
  unfolding report_leak Connection.report_leak_once
  report_leak-Still r p = record {
    all = ground arith;
    mark = ground arith;
    only = λ s other. ground (arith, other);
  }

  mark_unhealthy-Still : (r : ℕ) (p : PoolInner Queue) → Still r p (mark_unhealthy r p)
  unfolding mark_unhealthy Connection.mark_unhealthy
  mark_unhealthy-Still r p = record {
    all = ground arith;
    mark = ground arith;
    only = λ s other. ground (arith, other);
  }

  picks :
      (R : PoolInner Queue → Type 0) (b : Bool) (x y : PoolInner Queue)
      → R x
      → R y
      → R (if b then x else y)
  picks R true x y h k = h
  picks R false x y h k = k

  -- A connection in use is taken out of the map, or stays in use.
  inspect_in_use-cases :
      (m : Moment) (r : ℕ) (p : PoolInner Queue)
      → (inspect_in_use m r p ≡ remove_connection m r (report_leak r p))
        ⊎ Still r p (inspect_in_use m r p)
  unfolding inspect_in_use
  inspect_in_use-cases m r p =
      let reported = report_leak r p in
      let marked =
        if Connection.is_leaked m p.config.connection_leak_timeout (p.store r)
        then mark_unhealthy r reported
        else p in
      let removed = remove_connection m r reported in
      let still : Still r p marked =
        picks (Still r p) (Connection.is_leaked m p.config.connection_leak_timeout (p.store r))
          (mark_unhealthy r reported) p
          (Still-trans r (report_leak-Still r p) (mark_unhealthy-Still r reported))
          (Still-refl r p) in
      let kept =
        picks (Still r p) (Connection.is_expired m p.config.max_lifetime (p.store r))
          (mark_unhealthy r marked) marked (Still-trans r still (mark_unhealthy-Still r marked))
          still in
      picks (λ q. (q ≡ removed) ⊎ Still r p q) _ removed _ (inl refl) (inr kept)

  inspect_idle-Only : (m : Moment) (r : ℕ) (p : PoolInner Queue) → Only r p (inspect_idle m r p).0
  inspect_idle-Only m r p s other =
      let (_, _, _, _, store) = inspect_idle-same m r p in
      elim store [
        | inl e ↦ ap (λ f. f s) e
        | inr (inl e) ↦ ap (λ f. f s) e ∙ ground (arith, other)
        | inr (inr e) ↦ ap (λ f. f s) e ∙ ground (arith, other)
      ]

  inspect_idle-decides :
      (m : Moment) (r : ℕ) (p : PoolInner Queue)
      → (inspect_idle m r p).1 ≡ false
      → is_connection_valid_for_borrow m ((inspect_idle m r p).0.store r) (inspect_idle m r p).0
        ≡ true
  unfolding inspect_idle
  inspect_idle-decides m r p h = ground arith

  -- After a look, `r` is to be removed, or `cleanup` is through with it.
  pub inspect-IsSwept :
      (m : Moment) (r : ℕ) (p : PoolInner Queue)
      → r < p.next_ref
      → IsIndexed p
      → ((inspect m r p).1 ≡ true) ⊎ IsSwept m r (inspect m r p).0
  unfolding inspect
  inspect-IsSwept m r p h x =
      let grown = report_leak-Follows Retains-Follows r p in
      let gone =
        remove_connection-IsGone m r (report_leak r p) (omega (arith, h, grown.grows.next_ref))
          (IsIndexed-Retains grown x) in
      elim (Bool-cases (p.store r).in_use) [
        | inl used ↦ elim (inspect_in_use-cases m r p) [
          | inl e ↦ simp used (inr (inl (subst (IsGone r) (sym e) gone)))
          | inr still ↦ simp used (inr (inr (inl (still.mark ∙ used))))
        ]
        | inr idle ↦ elim (Bool-cases (inspect_idle m r p).1) [
          | inl bad ↦ simp idle (inl bad)
          | inr good ↦ simp idle (inr (inr (inr (inspect_idle-decides m r p good))))
        ]
      ]

  pub inspect-Only : (m : Moment) (r : ℕ) (p : PoolInner Queue) → Only r p (inspect m r p).0
  unfolding inspect
  inspect-Only m r p s other =
      let in_use : (inspect_in_use m r p).store s ≡ p.store s = elim (inspect_in_use-cases m r p) [
        | inl e ↦
            ap (λ q. q.store s) e
            ∙ remove_connection-Only m r (report_leak r p) s other
            ∙ (report_leak-Still r p).only s other
        | inr still ↦ still.only s other
      ] in
      let idle = inspect_idle-Only m r p s other in ground (arith, in_use, idle)

  -- The entry under `k` stays, where that is not the id of the connection looked at.
  pub inspect-keeps_entry :
      (m : Moment) (s k r : ℕ) (p : PoolInner Queue)
      → s < p.next_ref
      → ((p.store s).id == k) ≡ false
      → get_key p.all_connections k ≡ some r
      → get_key (inspect m s p).0.all_connections k ≡ some r
  unfolding inspect
  inspect-keeps_entry m s k r p h other found =
      let reported = report_leak s p in
      let leak = report_leak-Still s p in
      let grown = (report_leak-Follows Retains-Follows s p).grows in
      let id = (grown.conn s h).id in
      let removed : get_key (remove_connection m s reported).all_connections k ≡ some r =
        get_key-remove_connection m s k reported (omega (arith, h, grown.next_ref))
        ∙ ground (arith, id, other, ap (λ l. get_key l k) leak.all, found) in
      let in_use : get_key (inspect_in_use m s p).all_connections k ≡ some r =
        elim (inspect_in_use-cases m s p) [
          | inl e ↦ ap (λ q. get_key q.all_connections k) e ∙ removed
          | inr still ↦ ap (λ l. get_key l k) still.all ∙ found
        ] in
      let (all, _, _, _, _) = inspect_idle-same m s p in
      let idle = ap (λ l. get_key l k) all ∙ found in ground (arith, in_use, idle)

  -- Without health checks, an idle connection that may be lent is left as it is.
  pub inspect-fit :
      (m : Moment) (r : ℕ) (p : PoolInner Queue)
      → p.config.enable_health_check ≡ false
      → (p.store r).in_use ≡ false
      → is_connection_valid_for_borrow m (p.store r) p ≡ true
      → inspect m r p ≡ (p, false)
  unfolding inspect inspect_idle
  inspect-fit m r p unchecked idle fit = simp (idle, unchecked, fit) refl

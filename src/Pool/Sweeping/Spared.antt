-- ===== src/Pool/Sweeping/Spared.antt =====
-- src/pool/mod.rs: the idle connections that `cleanup` leaves alone.
use netconnpool_rust.Base.{
  ℕ, ◌≤◌, ◌<◌, ◌≡◌, refl, sym, subst, ap, ◌∙◌, true, false, Bool, Option, some, List, [], ◌∷◌, inl,
  inr, arith, times, Bool-cases, ◌==◌, ==_iff, if◌then◌else◌,
}
use mathlib.Core.Option
use netconnpool_rust.Net.{Moment}
use netconnpool_rust.Pool.State.{PoolInner, values, is_connection_valid_for_borrow}
use netconnpool_rust.Pool.Map.{get_key}
use netconnpool_rust.Pool.Cleanup.{inspect, sweep, remove_all, finish_cleanup, cleanup}
use netconnpool_rust.Pool.Remove.{remove_connection}
use netconnpool_rust.Pool.Removal.{IsIndexed, get_key-remove_connection}
use netconnpool_rust.Pool.Frame.{inspect-Keeps, remove_connection-Keeps}
use netconnpool_rust.Pool.Follows.{inspect-Follows}
use netconnpool_rust.Pool.Retains.{Retains, Retains-refl, Retains-trans, remove_connection-Retains}
use netconnpool_rust.Pool.Retains.Handlers.{Retains-Follows}
use netconnpool_rust.Pool.Sweeping.{
  IsIndexed-placed, valid-config, remove_connection-Only, IsIndexed-found,
}
use netconnpool_rust.Pool.Sweeping.Looking.{inspect-Only, inspect-keeps_entry, inspect-fit}

module _ {Queue : Type 0} (k r : ℕ) where
  -- The entry of `r` under `k`, and `r` itself, are as before.
  record Spares (p q : PoolInner Queue) : Type 0 where
    found : get_key p.all_connections k ≡ some r → get_key q.all_connections k ≡ some r
    same : q.store r ≡ p.store r
    config : q.config ≡ p.config
    retains : Retains p q

  Spares-refl : (p : PoolInner Queue) → Spares p p
  Spares-refl p = record { found = λ e. e; same = refl; config = refl; retains = Retains-refl p }

  Spares-trans : {p q s : PoolInner Queue} → Spares p q → Spares q s → Spares p s
  Spares-trans h j = record {
    found = λ e. j.found (h.found e);
    same = j.same ∙ h.same;
    config = j.config ∙ h.config;
    retains = Retains-trans h.retains j.retains;
  }

  -- Without health checks, `r` is idle and may be lent.
  abbrev IsSpared : Moment → PoolInner Queue → Type 0
  IsSpared m p =
      (get_key p.all_connections k ≡ some r)
      × (p.config.enable_health_check ≡ false)
      × ((p.store r).in_use ≡ false)
      × (is_connection_valid_for_borrow m (p.store r) p ≡ true)

  Spares-IsSpared : (m : Moment) {p q : PoolInner Queue} → Spares p q → IsSpared m p → IsSpared m q
  Spares-IsSpared m {p} {q} h (found, unchecked, idle, fit) = (
    h.found found,
    ap (λ c. c.enable_health_check) h.config ∙ unchecked,
    ap (λ c. c.in_use) h.same ∙ idle,
    valid-config m (q.store r) p q h.config
        ∙ ap (λ c. is_connection_valid_for_borrow m c p) h.same
        ∙ fit,
  )

  -- The connections of the list are allocated, and none but `r` has the id `k`.
  abbrev AreApart : List ℕ → PoolInner Queue → Type 0
  AreApart refs p =
      (s : ℕ)
      → 0 < times s refs
      → (s < p.next_ref) × ((r == s) ≡ false → ((p.store s).id == k) ≡ false)

  Spares-AreApart :
      {p q : PoolInner Queue} (s : ℕ) (refs : List ℕ)
      → Spares p q
      → AreApart (s ∷ refs) p
      → AreApart refs q
  Spares-AreApart {p} {q} s refs h apart j there =
      let (below, other) = apart j (omega (arith, there)) in
      let grown = h.retains.grows in
      (
        omega (arith, below, grown.next_ref),
        λ distinct. ap (λ id. id == k) (grown.conn j below).id ∙ other distinct,
      )

  inspect-Spares :
      (m : Moment) (s : ℕ) (p : PoolInner Queue)
      → s < p.next_ref
      → ((r == s) ≡ false → ((p.store s).id == k) ≡ false)
      → IsSpared m p
      → Spares p (inspect m s p).0 × ((r == s) ≡ true → (inspect m s p).1 ≡ false)
  inspect-Spares m s p below apart (found, unchecked, idle, fit) = elim (Bool-cases (r == s)) [
    | inl own ↦
        let alone = inspect-fit m r p unchecked idle fit in
        let here : r ≡ s = (==_iff r s).0 own in
        subst (λ j. Spares p (inspect m j p).0 × ((r == s) ≡ true → (inspect m j p).1 ≡ false)) here
          (subst (Spares p) (sym (ap (λ x. x.0) alone)) (Spares-refl p), λ e. ap (λ x. x.1) alone)
    | inr other ↦ (
      record {
        found = inspect-keeps_entry m s k r p below (apart other);
        same = inspect-Only m s p r (ground (arith, other));
        config = (inspect-Keeps m s p).config;
        retains = inspect-Follows Retains-Follows m s p;
      },
      λ own. cc (own, other),
    )
  ]

  sweep-Spares :
      (m : Moment) (refs : List ℕ) (p : PoolInner Queue)
      → p.closed ≡ false
      → AreApart refs p
      → IsSpared m p
      → Spares p (sweep m refs p).0
        × ((bad : List ℕ) × ((sweep m refs p).1 ≡ some bad)
            × (times r bad ≡ 0)
            × ((s : ℕ) → times s bad ≤ times s refs))
  unfolding sweep
  sweep-Spares m [] p opened apart spared =
      (Spares-refl p, ([], refl, omega arith, λ s. omega arith))
  sweep-Spares m (s ∷ refs) p opened apart spared =
      let q = (inspect m s p).0 in
      let (below, other) = apart s (ground arith) in
      let (looked, kept) = inspect-Spares m s p below other spared in
      let (swept, (bad, e, absent, among)) =
        sweep-Spares m refs q ((inspect-Keeps m s p).closed ∙ opened)
          (Spares-AreApart s refs looked apart) (Spares-IsSpared m looked spared) in
      simp (sweep, opened)
        (Spares-trans looked swept, with_it s bad (inspect m s p).1 _ e kept absent among)
    where
      with_it :
          (s : ℕ) (bad : List ℕ) (is_bad : Bool) (rest : Option (List ℕ))
          → rest ≡ some bad
          → ((r == s) ≡ true → is_bad ≡ false)
          → times r bad ≡ 0
          → ((j : ℕ) → times j bad ≤ times j refs)
          → (all : List ℕ) × ((if is_bad then Option.map (λ l. s ∷ l) rest else rest) ≡ some all)
            × (times r all ≡ 0)
            × ((j : ℕ) → times j all ≤ times j (s ∷ refs))
      with_it s bad false rest e kept absent among = (bad, e, absent, λ j. omega (arith, among j))
      with_it s bad true rest e kept absent among = (
        s ∷ bad,
        ap (Option.map (λ l. s ∷ l)) e,
        ground (arith, kept, absent),
        λ j. ground (arith, among j),
      )

  remove_connection-Spares :
      (m : Moment) (s : ℕ) (p : PoolInner Queue)
      → s < p.next_ref
      → (r == s) ≡ false
      → ((p.store s).id == k) ≡ false
      → Spares p (remove_connection m s p)
  remove_connection-Spares m s p below distinct other = record {
    found = λ found. get_key-remove_connection m s k p below ∙ ground (arith, other, found);
    same = remove_connection-Only m s p r (ground (arith, distinct));
    config = (remove_connection-Keeps m s p).config;
    retains = remove_connection-Retains m s p;
  }

  remove_all-Spares :
      (m : Moment) (refs : List ℕ) (p : PoolInner Queue)
      → AreApart refs p
      → times r refs ≡ 0
      → Spares p (remove_all m refs p)
  unfolding remove_all
  remove_all-Spares m [] p apart absent = Spares-refl p
  remove_all-Spares m (s ∷ refs) p apart absent =
      let (below, other) = apart s (ground arith) in
      let distinct : (r == s) ≡ false = ground (arith, absent) in
      let removed = remove_connection-Spares m s p below distinct (other distinct) in
      Spares-trans removed (
        remove_all-Spares m refs (remove_connection m s p) (Spares-AreApart s refs removed apart)
          (ground (arith, absent)))

  values-AreApart :
      (p : PoolInner Queue)
      → IsIndexed p
      → get_key p.all_connections k ≡ some r
      → AreApart (values p.all_connections) p
  values-AreApart p x found s there = (
    IsIndexed-placed p s x there,
    λ distinct. elim (Bool-cases ((p.store s).id == k)) [
      | inl own ↦
          let here : (p.store s).id ≡ k = (==_iff (p.store s).id k).0 own in
          let own_entry : get_key p.all_connections k ≡ some s =
            subst (λ j. get_key p.all_connections j ≡ some s) here (IsIndexed-found p s x there) in
          ground (arith, found, own_entry, distinct)
      | inr other ↦ other
    ],
  )

  -- On an open pool whose map is in order, without health checks: `cleanup` leaves an idle connection
  -- of the map that may be lent at that time in the map, and as it is.
  pub cleanup_spares :
      (m : Moment) (p : PoolInner Queue)
      → p.closed ≡ false
      → IsIndexed p
      → p.config.enable_health_check ≡ false
      → get_key p.all_connections k ≡ some r
      → (p.store r).in_use ≡ false
      → is_connection_valid_for_borrow m (p.store r) p ≡ true
      → (get_key (cleanup m p).all_connections k ≡ some r) × ((cleanup m p).store r ≡ p.store r)
  unfolding cleanup finish_cleanup
  cleanup_spares m p opened x unchecked found idle fit =
      let refs = values p.all_connections in
      let s = (sweep m refs p).0 in
      let apart = values-AreApart p x found in
      let (swept, (bad, e, absent, among)) =
        sweep-Spares m refs p opened apart (found, unchecked, idle, fit) in
      let removed =
        remove_all-Spares m bad s
          (λ j there.
            let (below, other) = apart j (omega (arith, there, among j)) in
            let grown = swept.retains.grows in
            (
              omega (arith, below, grown.next_ref),
              λ distinct. ap (λ id. id == k) (grown.conn j below).id ∙ other distinct,
            ))
          absent in
      let spares = Spares-trans swept removed in
      subst
        (λ to_remove.
          (get_key (finish_cleanup m s to_remove).all_connections k ≡ some r)
          × ((finish_cleanup m s to_remove).store r ≡ p.store r))
        (sym e) (spares.found found, spares.same)

-- ===== src/Pool/Sweeping/Swept.antt =====
-- src/pool/mod.rs: the loop of `cleanup`, and the removals after it.
use netconnpool_rust.Base.{
  ℕ, ◌≤◌, ◌<◌, ◌≡◌, refl, sym, subst, ◌∙◌, true, false, Bool, Option, some, List, [], ◌∷◌, ◌⊎◌, inl,
  inr, arith, times, Bool-cases, ◌==◌, ==_iff, if◌then◌else◌,
}
use mathlib.Core.Option
use netconnpool_rust.Net.{Moment}
use netconnpool_rust.Pool.State.{PoolInner, values, is_connection_valid_for_borrow}
use netconnpool_rust.Pool.Map.{get_key}
use netconnpool_rust.Pool.Cleanup.{inspect, sweep, remove_all, finish_cleanup, cleanup}
use netconnpool_rust.Pool.Remove.{remove_connection}
use netconnpool_rust.Pool.Removal.{IsIndexed}
use netconnpool_rust.Pool.Frame.{inspect-Keeps, sweep-Keeps, remove_connection-Keeps}
use netconnpool_rust.Pool.Follows.{inspect-Follows, sweep-Follows, cleanup-Follows}
use netconnpool_rust.Pool.Retains.{Retains, IsIndexed-Retains, remove_connection-Retains}
use netconnpool_rust.Pool.Retains.Handlers.{Retains-Follows}
use netconnpool_rust.Pool.Sweeping.{
  IsIndexed-once, found-times, IsIndexed-placed, Only, IsGone, IsSwept, IsSwept-keeps,
  remove_connection-Only, remove_connection-IsGone,
}
use netconnpool_rust.Pool.Sweeping.Looking.{inspect-IsSwept, inspect-Only}

with_bad : ℕ → Bool → List ℕ → List ℕ
with_bad r is_bad bad = if is_bad then r ∷ bad else bad

times-with_bad :
    (s r : ℕ) (is_bad : Bool) (bad : List ℕ)
    → (times s bad ≤ times s (with_bad r is_bad bad))
      × (times s (with_bad r is_bad bad) ≤ times s (r ∷ bad))
      × (is_bad ≡ true → 0 < times r (with_bad r is_bad bad))
unfolding with_bad
times-with_bad s r true bad = (omega arith, omega arith, λ e. ground arith)
times-with_bad s r false bad = (omega arith, omega arith, λ e. cc)

module _ {Queue : Type 0} where
  -- Every connection of the list is one to be removed, or `cleanup` is through with it; the others are
  -- as before.
  record Sweeps (m : Moment) (refs bad : List ℕ) (p q : PoolInner Queue) : Type 0 where
    through : (s : ℕ) → 0 < times s refs → (0 < times s bad) ⊎ IsSwept m s q
    others : (s : ℕ) → times s refs ≡ 0 → q.store s ≡ p.store s
    among : (s : ℕ) → times s bad ≤ times s refs

  Sweeps-step :
      (m : Moment) (r : ℕ) (refs bad : List ℕ) (is_bad : Bool) (p q s : PoolInner Queue)
      → ((j : ℕ) → times j (r ∷ refs) ≤ 1)
      → Only r p q
      → (is_bad ≡ true) ⊎ IsSwept m r q
      → Retains q s
      → s.config ≡ q.config
      → Sweeps m refs bad q s
      → Sweeps m (r ∷ refs) (with_bad r is_bad bad) p s
  Sweeps-step m r refs bad is_bad p q s once only looked retains config h = record {
    through = λ j there. elim (Bool-cases (r == j)) [
      | inl own ↦
          let here : r ≡ j = (==_iff r j).0 own in
          subst (λ i. (0 < times i (with_bad r is_bad bad)) ⊎ IsSwept m i s) here
            (elim looked [
              | inl e ↦ inl ((times-with_bad r r is_bad bad).2 e)
              | inr swept ↦
                  inr (IsSwept-keeps m r retains config (h.others r (ground (arith, once r))) swept)
            ])
      | inr other ↦ elim (h.through j (ground (arith, there, other))) [
        | inl among ↦ inl (omega (arith, among, (times-with_bad j r is_bad bad).0))
        | inr swept ↦ inr swept
      ]
    ];
    others = λ j none_there.
        h.others j (omega (arith, none_there)) ∙ only j (ground (arith, none_there));
    among = λ j. omega (arith, (times-with_bad j r is_bad bad).1, h.among j);
  }

  sweep-Sweeps :
      (m : Moment) (refs : List ℕ) (p : PoolInner Queue)
      → p.closed ≡ false
      → IsIndexed p
      → ((s : ℕ) → 0 < times s refs → s < p.next_ref)
      → ((s : ℕ) → times s refs ≤ 1)
      → (bad : List ℕ) × ((sweep m refs p).1 ≡ some bad) × Sweeps m refs bad p (sweep m refs p).0
  unfolding sweep
  sweep-Sweeps m [] p opened x placed once = (
    [],
    refl,
    record {
      through = λ s there. absurd (omega (arith, there));
      others = λ s e. refl;
      among = λ s. omega arith;
    },
  )
  sweep-Sweeps m (r ∷ refs) p opened x placed once =
      let (q, is_bad) = inspect m r p in
      let keeps = inspect-Keeps m r p in
      let retains = inspect-Follows Retains-Follows m r p in
      let (bad, e, h) =
        sweep-Sweeps m refs q (keeps.closed ∙ opened) (IsIndexed-Retains retains x)
          (λ s there. omega (arith, placed s (omega (arith, there)), retains.grows.next_ref))
          (λ s. omega (arith, once s)) in
      let looked = inspect-IsSwept m r p (placed r (ground arith)) x in
      let step =
        Sweeps-step m r refs bad is_bad p q (sweep m refs q).0 once (inspect-Only m r p) looked
          (sweep-Follows Retains-Follows m refs q) (sweep-Keeps m refs q).config h in
      simp (sweep, opened) (with_bad r is_bad bad, both r bad is_bad (sweep m refs q).1 e, step)
    where
      both :
          (r : ℕ) (bad : List ℕ) (is_bad : Bool) (found : Option (List ℕ))
          → found ≡ some bad
          → (if is_bad then Option.map (λ rest. r ∷ rest) found else found)
            ≡ some (with_bad r is_bad bad)
      both r bad true found e = unfold with_bad in rw e refl
      both r bad false found e = unfold with_bad in e

  remove_all-IsSwept :
      (m : Moment) (refs : List ℕ) (p : PoolInner Queue) (s : ℕ)
      → IsIndexed p
      → ((j : ℕ) → 0 < times j refs → j < p.next_ref)
      → (0 < times s refs) ⊎ IsSwept m s p
      → IsSwept m s (remove_all m refs p)
  unfolding remove_all
  remove_all-IsSwept m [] p s x placed h = elim h [
    | inl none_there ↦ absurd (omega (arith, none_there))
    | inr swept ↦ swept
  ]
  remove_all-IsSwept m (r ∷ refs) p s x placed h =
      let q = remove_connection m r p in
      let below : r < p.next_ref = placed r (ground arith) in
      let retains = remove_connection-Retains m r p in
      remove_all-IsSwept m refs q s (IsIndexed-Retains retains x)
        (λ j there. omega (arith, placed j (omega (arith, there)), retains.grows.next_ref))
        (elim (Bool-cases (r == s)) [
          | inl own ↦
              let here : r ≡ s = (==_iff r s).0 own in
              inr (inl (subst (λ i. IsGone i q) here (remove_connection-IsGone m r p below x)))
          | inr other ↦ elim h [
            | inl there ↦ inl (ground (arith, there, other))
            | inr swept ↦ inr (
                IsSwept-keeps m s retains (remove_connection-Keeps m r p).config
                  (remove_connection-Only m r p s other) swept)
          ]
        ])

  cleanup-IsSwept :
      (m : Moment) (p : PoolInner Queue) (r : ℕ)
      → p.closed ≡ false
      → IsIndexed p
      → 0 < times r (values p.all_connections)
      → IsSwept m r (cleanup m p)
  unfolding cleanup finish_cleanup
  cleanup-IsSwept m p r opened x there =
      let refs = values p.all_connections in
      let s = (sweep m refs p).0 in
      let (bad, e, h) =
        sweep-Sweeps m refs p opened x (λ j among. IsIndexed-placed p j x among)
          (λ j. IsIndexed-once p j x) in
      let retains = sweep-Follows Retains-Follows m refs p in
      let removed =
        remove_all-IsSwept m bad s r (IsIndexed-Retains retains x)
          (λ j among.
            let below = IsIndexed-placed p j x (omega (arith, among, h.among j)) in
            omega (arith, below, retains.grows.next_ref))
          (h.through r there) in
      subst (λ to_remove. IsSwept m r (finish_cleanup m s to_remove)) (sym e) removed

  -- On an open pool whose map is in order: a connection that `cleanup` leaves in the map is in use, or
  -- may be lent at that time, that is, it is open, healthy, and neither beyond its lifetime nor beyond
  -- its idle time.
  pub cleanup_leaves :
      (m : Moment) (p : PoolInner Queue) (k r : ℕ)
      → p.closed ≡ false
      → IsIndexed p
      → let q = cleanup m p in
        get_key q.all_connections k ≡ some r
        → (q.store r).in_use ≡ false
        → is_connection_valid_for_borrow m (q.store r) q ≡ true
  cleanup_leaves m p k r opened x found idle =
      let retains = cleanup-Follows Retains-Follows m p in
      let there = found-times p k r (retains.prunes.found k r found) in
      elim (cleanup-IsSwept m p r opened x there) [
        | inl gone ↦ absurd (gone k found)
        | inr (inl used) ↦ cc
        | inr (inr valid) ↦ valid
      ]

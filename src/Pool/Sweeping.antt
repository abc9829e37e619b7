-- ===== src/Pool/Sweeping.antt =====
-- src/pool/mod.rs: the connections of the map, and what it is to be through with one in `cleanup`.
pub mod Looking
pub mod Swept
pub mod Spared
pub mod Reached
pub mod Tests
use netconnpool_rust.Base.{
  ℕ, ◌≤◌, ◌<◌, ◌≡◌, ◌≢◌, refl, sym, ap, subst, ◌∙◌, true, false, Bool, some, none, List, [], ◌∷◌,
  All, ◌⊎◌, inl, inr, arith, times, Bool-cases, ◌==◌, ==_iff, if◌then◌else◌,
}
use netconnpool_rust.Connection.{Connection}
use netconnpool_rust.Net.{Moment}
use netconnpool_rust.Pool.State.{
  PoolInner, contains_key, values, is_connection_valid_for_borrow, set_conn,
}
use netconnpool_rust.Pool.Map.{get_key, IsMap, All-get_key, All-weaken, All-values}
use netconnpool_rust.Pool.Remove.{close_connection, release_active, remove_connection}
use netconnpool_rust.Pool.Removal.{IsIndexed, get_key-remove_connection}
use netconnpool_rust.Pool.Retains.{Retains}

-- The entries of a map whose keys are the ids of its connections.
abbrev AllNamed : (id : ℕ → ℕ) → List (ℕ × ℕ) → Type 0
AllNamed id = All (λ e. id e.1 ≡ e.0)

named-contains_key :
    (id : ℕ → ℕ) (l : List (ℕ × ℕ)) (r : ℕ)
    → AllNamed id l
    → 0 < times r (values l)
    → contains_key l (id r) ≡ true
named-contains_key id [] r named h = absurd (omega (arith, h))
named-contains_key id ((k, s) ∷ l) r named h = elim (Bool-cases (s == r)) [
  | inl own ↦
      let here : s ≡ r = (==_iff s r).0 own in
      let key : k ≡ id r = sym named.0 ∙ ap id here in ground (arith, key)
  | inr other ↦ ground (arith, other, named-contains_key id l r named.1 (ground (arith, h, other)))
]

times-values-le :
    (id : ℕ → ℕ) (l : List (ℕ × ℕ)) (r : ℕ) → AllNamed id l → IsMap l → times r (values l) ≤ 1
times-values-le id [] r named distinct = omega arith
times-values-le id ((k, s) ∷ l) r named distinct =
    let ih = times-values-le id l r named.1 distinct.1 in
    elim (Bool-cases (s == r)) [
      | inl own ↦
          let here : s ≡ r = (==_iff s r).0 own in
          let key : k ≡ id r = sym named.0 ∙ ap id here in
          let apart : contains_key l (id r) ≡ false =
            subst (λ j. contains_key l j ≡ false) key distinct.0 in
          elim (Bool-cases (0 == times r (values l))) [
            | inl none_left ↦ ground (arith, own, none_left)
            | inr more ↦ cc (named-contains_key id l r named.1 (ground (arith, more)), apart)
          ]
      | inr other ↦ ground (arith, ih, other)
    ]

times-values-found : (l : List (ℕ × ℕ)) (k r : ℕ) → get_key l k ≡ some r → 0 < times r (values l)
times-values-found [] k r e = cc
times-values-found ((j, s) ∷ l) k r e = ground (arith, times-values-found l k r, e)

All-times : (P : ℕ → Type 0) (refs : List ℕ) (r : ℕ) → All P refs → 0 < times r refs → P r
All-times P [] r h there = absurd (omega (arith, there))
All-times P (s ∷ refs) r h there = elim (Bool-cases (s == r)) [
  | inl own ↦ subst P ((==_iff s r).0 own) h.0
  | inr other ↦ All-times P refs r h.1 (ground (arith, there, other))
]

module _ {Queue : Type 0} where
  pub IsIndexed-placed :
      (p : PoolInner Queue) (r : ℕ)
      → IsIndexed p
      → 0 < times r (values p.all_connections)
      → r < p.next_ref
  IsIndexed-placed p r x there =
      All-times (λ s. s < p.next_ref) (values p.all_connections) r
        (All-values (λ s. s < p.next_ref) p.all_connections
          (All-weaken (λ e found. (x.agree e.0 e.1 found).1) p.all_connections
            (All-get_key p.all_connections x.distinct)))
        there

  pub IsIndexed-found :
      (p : PoolInner Queue) (r : ℕ)
      → IsIndexed p
      → 0 < times r (values p.all_connections)
      → get_key p.all_connections (p.store r).id ≡ some r
  IsIndexed-found p r x there =
      All-times (λ s. get_key p.all_connections (p.store s).id ≡ some s) (values p.all_connections)
        r
        (All-values (λ s. get_key p.all_connections (p.store s).id ≡ some s) p.all_connections
          (All-weaken
            (λ e found.
              subst (λ k. get_key p.all_connections k ≡ some e.1) (sym (x.agree e.0 e.1 found).0)
                found)
            p.all_connections (All-get_key p.all_connections x.distinct)))
        there

  -- Every connection of the map stands once in its values, and only allocated ones do.
  pub IsIndexed-once :
      (p : PoolInner Queue) (r : ℕ) → IsIndexed p → times r (values p.all_connections) ≤ 1
  IsIndexed-once p r x =
      times-values-le (λ s. (p.store s).id) p.all_connections r
        (All-weaken (λ e found. (x.agree e.0 e.1 found).0) p.all_connections
          (All-get_key p.all_connections x.distinct))
        x.distinct

  pub found-times :
      (p : PoolInner Queue) (k r : ℕ)
      → get_key p.all_connections k ≡ some r
      → 0 < times r (values p.all_connections)
  found-times p k r = times-values-found p.all_connections k r

  -- No other connection than `r` changes.
  abbrev pub Only : ℕ → PoolInner Queue → PoolInner Queue → Type 0
  Only r p q = (s : ℕ) → (r == s) ≡ false → q.store s ≡ p.store s

  -- The map has lost `r`, or `r` is in use, or it may be lent.
  abbrev pub IsGone : ℕ → PoolInner Queue → Type 0
  IsGone r q = (k : ℕ) → get_key q.all_connections k ≢ some r

  abbrev pub IsSwept : Moment → ℕ → PoolInner Queue → Type 0
  IsSwept m r q =
      IsGone r q
      ⊎ ((q.store r).in_use ≡ true)
      ⊎ (is_connection_valid_for_borrow m (q.store r) q ≡ true)

  pub valid-config :
      (m : Moment) (c : Connection) (p q : PoolInner Queue)
      → q.config ≡ p.config
      → is_connection_valid_for_borrow m c q ≡ is_connection_valid_for_borrow m c p
  unfolding is_connection_valid_for_borrow
  valid-config m c p q e = rw e refl

  pub IsSwept-keeps :
      (m : Moment) (r : ℕ) {p q : PoolInner Queue}
      → Retains p q
      → q.config ≡ p.config
      → q.store r ≡ p.store r
      → IsSwept m r p
      → IsSwept m r q
  IsSwept-keeps m r {p} {q} h config same (inl gone) = inl (λ k e. gone k (h.prunes.found k r e))
  IsSwept-keeps m r {p} {q} h config same (inr (inl used)) =
      inr (inl (ap (λ c. c.in_use) same ∙ used))
  IsSwept-keeps m r {p} {q} h config same (inr (inr valid)) = inr (
      inr (
        valid-config m (q.store r) p q config
        ∙ ap (λ c. is_connection_valid_for_borrow m c p) same
        ∙ valid))

  pub remove_connection-Only :
      (m : Moment) (r : ℕ) (p : PoolInner Queue) → Only r p (remove_connection m r p)
  unfolding remove_connection release_active close_connection
  remove_connection-Only m r p s other = ground (arith, other)

  pub remove_connection-IsGone :
      (m : Moment) (r : ℕ) (p : PoolInner Queue)
      → r < p.next_ref
      → IsIndexed p
      → IsGone r (remove_connection m r p)
  remove_connection-IsGone m r p h x k e =
      let looked = get_key-remove_connection m r k p h in
      elim (Bool-cases ((p.store r).id == k)) [
        | inl own ↦ let missing : none ≡ some r = ground (arith, looked, own, e) in cc missing
        | inr other ↦
            let found : get_key p.all_connections k ≡ some r = ground (arith, looked, other, e) in
            let id = (x.agree k r found).0 in ground (arith, id, other)
      ]

-- ===== src/Pool/Emptied.antt =====
-- src/pool/mod.rs: the last loop of `close`, and the connections in the map.
use netconnpool_rust.Base.{
  ℕ, zero, suc, ◌+◌, ◌≤◌, ◌<◌, ◌≡◌, refl, sym, ap, subst, ◌≢◌, ◌∙◌, ◌⊎◌, inl, inr, true, false,
  none, some, List, [], ◌∷◌, arith, length, All, take, Bool-cases, ◌==◌, ==_iff, is_empty,
}
use mathlib.Core.Path.{ap₂}
use netconnpool_rust.Net.{Moment}
use netconnpool_rust.Pool.State.{PoolInner, values, remove_key}
use netconnpool_rust.Pool.Map.{get_key, All-get_key, All-values, All-take, All-weaken}
use netconnpool_rust.Pool.Remove.{remove_connection}
use netconnpool_rust.Pool.Cleanup.{remove_all}
use netconnpool_rust.Pool.Close.{next_batch, remove_batches, close_rest}
use netconnpool_rust.Pool.Frame.{length-remove_key-le, remove_all-Keeps}
use netconnpool_rust.Pool.Store.{
  Grows, Grows-trans, remove_connection-Grows, remove_all-Grows, Grows-refl,
}
use netconnpool_rust.Pool.Removal.{
  IsIndexed, remove_connection-all, remove_connection-conn, get_key-remove_connection,
  remove_connection-IsIndexed,
}

length-remove_key_head :
    (k r : ℕ) (l : List (ℕ × ℕ)) → length (remove_key k ((k, r) ∷ l)) < length ((k, r) ∷ l)
length-remove_key_head k r l = ground (arith, length-remove_key-le k l)

empty_take : (l : List (ℕ × ℕ)) → is_empty (take 10 (values l)) ≡ true → l ≡ []
empty_take [] h = refl
empty_take ((k, r) ∷ l) h = cc

not_empty_take : (l : List (ℕ × ℕ)) → l ≡ [] → is_empty (take 10 (values l)) ≢ false
not_empty_take [] e h = cc
not_empty_take ((k, r) ∷ l) e h = cc

module _ {Queue : Type 0} where
  -- The connection stands in the map under its id, or nothing does.
  abbrev IsOwner : PoolInner Queue → ℕ → Type 0
  IsOwner p r =
      (r < p.next_ref)
      × ((get_key p.all_connections (p.store r).id ≡ some r)
          ⊎ (get_key p.all_connections (p.store r).id ≡ none))

  remove_connection-IsOwner :
      (m : Moment) (r s : ℕ) (p : PoolInner Queue)
      → r < p.next_ref
      → IsOwner p s
      → IsOwner (remove_connection m r p) s
  remove_connection-IsOwner m r s p h (lt, owns) =
      let grown = remove_connection-Grows m r p in
      let same : ((remove_connection m r p).store s).id ≡ (p.store s).id = (grown.conn s lt).id in
      (
        omega (arith, grown.next_ref),
        rw same (ground (arith, get_key-remove_connection m r (p.store s).id p h)),
      )

  remove_connection-All-IsOwner :
      (m : Moment) (r : ℕ) (refs : List ℕ) (p : PoolInner Queue)
      → r < p.next_ref
      → All (IsOwner p) refs
      → All (IsOwner (remove_connection m r p)) refs
  remove_connection-All-IsOwner m r [] p h owners = tt
  remove_connection-All-IsOwner m r (s ∷ refs) p h owners = (
    remove_connection-IsOwner m r s p h owners.0,
    remove_connection-All-IsOwner m r refs p h owners.1,
  )

  -- What stood in the map is closed, or it still stands there.
  abbrev Settles : PoolInner Queue → PoolInner Queue → Type 0
  Settles p q =
      (k s : ℕ)
      → get_key p.all_connections k ≡ some s
      → ((q.store s).closed ≡ true) ⊎ (get_key q.all_connections k ≡ some s)

  remove_connection-Settles :
      (m : Moment) (r : ℕ) (p : PoolInner Queue) → IsOwner p r → Settles p (remove_connection m r p)
  remove_connection-Settles m r p (h, owns) k s e = elim (Bool-cases ((p.store r).id == k)) [
    | inl hit ↦
        let at_k : (p.store r).id ≡ k = (==_iff (p.store r).id k).0 hit in
        let found : get_key p.all_connections (p.store r).id ≡ some s =
          subst (λ j. get_key p.all_connections j ≡ some s) (sym at_k) e in
        let same : r ≡ s = ground arith in
        inl (
          subst (λ j. ((remove_connection m r p).store j).closed ≡ true) same
            (remove_connection-conn m r p).0)
    | inr miss ↦ inr (ground (arith, get_key-remove_connection m r k p h))
  ]

  Settles-trans :
      {p q s : PoolInner Queue}
      → IsIndexed p
      → Grows q s
      → Settles p q
      → Settles q s
      → (p.next_ref ≤ q.next_ref)
      → Settles p s
  Settles-trans x grown f g le k r e = elim (f k r e) [
    | inl shut ↦ inl ((grown.conn r (omega (arith, (x.agree k r e).1))).closed shut)
    | inr kept ↦ g k r kept
  ]

  remove_all-IsIndexed :
      (m : Moment) (refs : List ℕ) (p : PoolInner Queue)
      → All (IsOwner p) refs
      → IsIndexed p
      → IsIndexed (remove_all m refs p)
  unfolding remove_all
  remove_all-IsIndexed m [] p owners x = x
  remove_all-IsIndexed m (r ∷ refs) p owners x =
      let removed = remove_connection m r p in
      remove_all-IsIndexed m refs removed
        (remove_connection-All-IsOwner m r refs p owners.0.0 owners.1)
        (remove_connection-IsIndexed m r p owners.0.0 x)

  remove_all-Settles :
      (m : Moment) (refs : List ℕ) (p : PoolInner Queue)
      → All (IsOwner p) refs
      → IsIndexed p
      → Settles p (remove_all m refs p)
  unfolding remove_all
  remove_all-Settles m [] p owners x = λ k s e. inr e
  remove_all-Settles m (r ∷ refs) p owners x =
      let removed = remove_connection m r p in
      let indexed = remove_connection-IsIndexed m r p owners.0.0 x in
      let rest =
        remove_all-Settles m refs removed
          (remove_connection-All-IsOwner m r refs p owners.0.0 owners.1) indexed in
      Settles-trans x (remove_all-Grows m refs removed) (remove_connection-Settles m r p owners.0)
        rest (remove_connection-Grows m r p).next_ref

  next_batch-IsOwner : (p : PoolInner Queue) → IsIndexed p → All (IsOwner p) (next_batch p)
  unfolding next_batch
  next_batch-IsOwner p x = All-take (IsOwner p) 10 (values p.all_connections) (
      All-values (IsOwner p) p.all_connections (
        All-weaken (λ e found. owner e.0 e.1 found) p.all_connections
          (All-get_key p.all_connections x.distinct)))
    where
      owner : (k r : ℕ) → get_key p.all_connections k ≡ some r → IsOwner p r
      owner k r found =
          let a = x.agree k r found in
          (a.1, inl (subst (λ j. get_key p.all_connections j ≡ some r) (sym a.0) found))

  -- A batch that is not empty begins with an entry of the map, which goes with it.
  remove_all_fewer :
      (m : Moment) (p : PoolInner Queue) (l : List (ℕ × ℕ))
      → p.all_connections ≡ l
      → IsIndexed p
      → l ≢ []
      → length (remove_all m (next_batch p) p).all_connections < length p.all_connections
  unfolding next_batch remove_all
  remove_all_fewer m p [] e x more = absurd (more refl)
  remove_all_fewer m p ((k, r) ∷ l) e x more =
      let a = x.agree k r (ap (λ j. get_key j k) e ∙ ground arith) in
      let removed = remove_connection m r p in
      let without : removed.all_connections ≡ remove_key k ((k, r) ∷ l) =
        remove_connection-all m r p a.1 ∙ ap₂ remove_key a.0 e in
      let rest = remove_all-Keeps m (take 9 (values l)) removed in
      simp e
        (omega (arith, rest.fewer, ap length without, length-remove_key_head k r l, ap length e))

  empty_batch : (p : PoolInner Queue) → is_empty (next_batch p) ≡ true → p.all_connections ≡ []
  unfolding next_batch
  empty_batch p h = empty_take p.all_connections h

  not_empty_batch : (p : PoolInner Queue) → is_empty (next_batch p) ≡ false → p.all_connections ≢ []
  unfolding next_batch
  not_empty_batch p more e = not_empty_take p.all_connections e more

  remove_batches_empty :
      (fuel : ℕ) (m : Moment) (p : PoolInner Queue)
      → length p.all_connections < fuel
      → IsIndexed p
      → ((remove_batches fuel m p).all_connections ≡ [])
        × Settles p (remove_batches fuel m p)
        × Grows p (remove_batches fuel m p)
  unfolding remove_batches
  remove_batches_empty zero m p h x = elim h [ ]
  remove_batches_empty (suc fuel) m p h x = elim (Bool-cases (is_empty (next_batch p))) [
    | inl none_left ↦ simp none_left (empty_batch p none_left, (λ k s e. inr e), Grows-refl p)
    | inr more ↦
        let owners = next_batch-IsOwner p x in
        let removed = remove_all m (next_batch p) p in
        let some_left = not_empty_batch p more in
        let fewer = remove_all_fewer m p p.all_connections refl x some_left in
        let ih =
          remove_batches_empty fuel m removed (omega arith)
            (remove_all-IsIndexed m (next_batch p) p owners x) in
        let grown = remove_all-Grows m (next_batch p) p in
        simp more (
          ih.0,
          Settles-trans x ih.2 (remove_all-Settles m (next_batch p) p owners x) ih.1 grown.next_ref,
          Grows-trans grown ih.2,
        )
  ]

  -- Where the keys of the map are distinct, and each is the id of its connection: the last loop of
  -- `close` ends, and leaves no connection in the map.
  pub close_rest_empties :
      (m : Moment) (p : PoolInner Queue) → IsIndexed p → (close_rest m p).all_connections ≡ []
  unfolding close_rest
  close_rest_empties m p x =
      (remove_batches_empty (length p.all_connections + 1) m p (omega arith) x).0

  -- Where the keys of the map are distinct, and each is the id of its connection: the last loop of
  -- `close` closes every connection that is in the map when it begins.
  close_rest_closes :
      (m : Moment) (p : PoolInner Queue) (k r : ℕ)
      → IsIndexed p
      → get_key p.all_connections k ≡ some r
      → ((close_rest m p).store r).closed ≡ true
  unfolding close_rest
  close_rest_closes m p k r x e =
      let (empty, settled, _) =
        remove_batches_empty (length p.all_connections + 1) m p (omega arith) x in
      elim (settled k r e) [ inl shut ↦ shut | inr found ↦ cc (ap (λ l. get_key l k) empty) ]

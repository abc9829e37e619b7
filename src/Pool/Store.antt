-- ===== src/Pool/Store.antt =====
-- How the handlers of src/pool/mod.rs that close and remove change the shared connections.
use netconnpool_rust.Base.{
  ℕ, ◌≤◌, ◌<◌, ◌≡◌, refl, sym, subst, Bool, true, false, List, [], ◌∷◌, arith, Bool-cases,
  Option-cases, ==_iff, inl, inr, ◌==◌, update, if◌then◌else◌,
}
use netconnpool_rust.Connection
use netconnpool_rust.Connection.{Connection}
use netconnpool_rust.Connection.Evolution.{
  Evolves, Evolves-refl, Evolves-trans, close-Evolves, try_mark_idle-Evolves,
}
use netconnpool_rust.Net.{Moment}
use netconnpool_rust.Pool.State.{PoolInner, set_conn, log, close_conn}
use netconnpool_rust.Pool.Remove.{close_connection, release_active, remove_connection}
use netconnpool_rust.Pool.Cleanup.{remove_all}

pub update-Evolves :
    (store : ℕ → Connection) (r : ℕ) (c : Connection)
    → Evolves (store r) c
    → (j : ℕ) → Evolves (store j) (update store r c j)
update-Evolves store r c e j = elim (Bool-cases (r == j)) [
  | inl h ↦ simp h (subst (λ k. Evolves (store k) c) ((==_iff r j).0 h) e)
  | inr h ↦ simp h (Evolves-refl (store j))
]

module _ {Queue : Type 0} where
  pub record Grows (p q : PoolInner Queue) : Type 0 where
    pub next_ref : p.next_ref ≤ q.next_ref
    pub conn : (r : ℕ) → r < p.next_ref → Evolves (p.store r) (q.store r)

  pub Grows-refl : (p : PoolInner Queue) → Grows p p
  Grows-refl p = record { next_ref = omega arith; conn = λ r h. Evolves-refl (p.store r) }

  pub Grows-trans : {p q s : PoolInner Queue} → Grows p q → Grows q s → Grows p s
  Grows-trans g h = record {
    next_ref = omega (arith, g.next_ref, h.next_ref);
    conn = λ r lt. Evolves-trans (g.conn r lt) (h.conn r (omega (arith, g.next_ref)));
  }

  pub if-Grows :
      (b : Bool) {p q s : PoolInner Queue} → Grows p q → Grows p s → Grows p (if b then q else s)
  if-Grows true g h = g
  if-Grows false g h = h

  pub set_conn-Grows :
      (r : ℕ) (c : Connection) (p : PoolInner Queue)
      → Evolves (p.store r) c
      → Grows p (set_conn r c p)
  set_conn-Grows r c p e = record {
    next_ref = omega arith;
    conn = λ j h. update-Evolves p.store r c e j;
  }

  -- A change of other fields than the store.
  pub same_store-Grows :
      {p q : PoolInner Queue} → q.store ≡ p.store → q.next_ref ≡ p.next_ref → Grows p q
  same_store-Grows {p} {q} e n = record {
    next_ref = omega arith;
    conn = λ r h. subst (λ store. Evolves (p.store r) (store r)) (sym e) (Evolves-refl (p.store r));
  }

  pub close_connection-Grows :
      (m : Moment) (r : ℕ) (p : PoolInner Queue) → Grows p (close_connection m r p)
  unfolding close_connection
  close_connection-Grows m r p = elim (Option-cases p.config.close_conn) [
    | inl e ↦ simp e (set_conn-Grows r _ p (close-Evolves m (p.store r)))
    | inr (f, e) ↦ simp e (
        Grows-trans (same_store-Grows {q = log (close_conn r) p} refl refl)
          (set_conn-Grows r _ (log (close_conn r) p) (close-Evolves m (p.store r))))
  ]

  pub release_active-Grows :
      (m : Moment) (r : ℕ) (p : PoolInner Queue) → Grows p (release_active m r p)
  unfolding release_active
  release_active-Grows m r p =
      let g =
        set_conn-Grows r (Connection.try_mark_idle m (p.store r)).0 p
          (try_mark_idle-Evolves m (p.store r)) in
      if-Grows (Connection.try_mark_idle m (p.store r)).1
        (Grows-trans g (same_store-Grows refl refl)) g

  pub remove_connection-Grows :
      (m : Moment) (r : ℕ) (p : PoolInner Queue) → Grows p (remove_connection m r p)
  unfolding remove_connection
  remove_connection-Grows m r p =
      let released = release_active m r p in
      Grows-trans (release_active-Grows m r p)
        (Grows-trans (close_connection-Grows m r released) (same_store-Grows refl refl))

  pub remove_all-Grows :
      (m : Moment) (refs : List ℕ) (p : PoolInner Queue) → Grows p (remove_all m refs p)
  unfolding remove_all
  remove_all-Grows m [] p = Grows-refl p
  remove_all-Grows m (r ∷ refs) p =
      Grows-trans (remove_connection-Grows m r p)
        (remove_all-Grows m refs (remove_connection m r p))

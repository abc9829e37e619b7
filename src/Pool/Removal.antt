-- ===== src/Pool/Removal.antt =====
-- src/pool/mod.rs: what `remove_connection` does to the map and to the connection.
use netconnpool_rust.Base.{
  ℕ, ◌<◌, ◌≡◌, sym, ap, subst, ◌∙◌, true, false, none, some, arith, ◌==◌, if◌then◌else◌,
}
use netconnpool_rust.Connection
use netconnpool_rust.Connection.{Connection}
use netconnpool_rust.Connection.Evolution.{close_lem, try_mark_idle_once}
use netconnpool_rust.Net.{Moment}
use netconnpool_rust.Pool.State.{PoolInner, remove_key}
use netconnpool_rust.Pool.Map.{get_key, IsMap, get_key-remove_key, IsMap-remove_key}
use netconnpool_rust.Pool.Remove.{close_connection, release_active, remove_connection}
use netconnpool_rust.Pool.Store.{
  Grows-trans, remove_connection-Grows, release_active-Grows, close_connection-Grows,
}

module _ {Queue : Type 0} where
  -- The map is a map, and each connection in it is allocated and has its key for an id.
  pub record IsIndexed (p : PoolInner Queue) : Type 0 where
    pub distinct : IsMap p.all_connections
    pub agree :
        (k r : ℕ) → get_key p.all_connections k ≡ some r → ((p.store r).id ≡ k) × (r < p.next_ref)

  release_active-all :
      (m : Moment) (r : ℕ) (p : PoolInner Queue)
      → (release_active m r p).all_connections ≡ p.all_connections
  unfolding release_active
  release_active-all m r p = ground arith

  close_connection-all :
      (m : Moment) (r : ℕ) (p : PoolInner Queue)
      → (close_connection m r p).all_connections ≡ p.all_connections
  unfolding close_connection
  close_connection-all m r p = ground arith

  close_connection-conn :
      (m : Moment) (r : ℕ) (p : PoolInner Queue)
      → (close_connection m r p).store r ≡ (Connection.close m (p.store r)).0
  unfolding close_connection
  close_connection-conn m r p = ground arith

  release_active-conn :
      (m : Moment) (r : ℕ) (p : PoolInner Queue)
      → (release_active m r p).store r ≡ (Connection.try_mark_idle m (p.store r)).0
  unfolding release_active
  release_active-conn m r p = ground arith

  -- The map after `remove_connection`: without the id of the connection.
  pub remove_connection-all :
      (m : Moment) (r : ℕ) (p : PoolInner Queue)
      → r < p.next_ref
      → (remove_connection m r p).all_connections ≡ remove_key (p.store r).id p.all_connections
  unfolding remove_connection
  remove_connection-all m r p h =
      let released = release_active m r p in
      let closed = close_connection m r released in
      let all : closed.all_connections ≡ p.all_connections =
        close_connection-all m r released ∙ release_active-all m r p in
      let grown = Grows-trans (release_active-Grows m r p) (close_connection-Grows m r released) in
      let same : (closed.store r).id ≡ (p.store r).id = (grown.conn r h).id in simp (all, same)

  -- The connection itself is closed and not in use afterwards.
  pub remove_connection-conn :
      (m : Moment) (r : ℕ) (p : PoolInner Queue)
      → (((remove_connection m r p).store r).closed ≡ true)
        × (((remove_connection m r p).store r).in_use ≡ false)
  unfolding remove_connection
  remove_connection-conn m r p =
      let released = release_active m r p in
      let shut = close_lem m m (released.store r) in
      let idle = try_mark_idle_once m m (p.store r) in
      ground (arith, close_connection-conn m r released, release_active-conn m r p, shut, idle)

  pub get_key-remove_connection :
      (m : Moment) (r k : ℕ) (p : PoolInner Queue)
      → r < p.next_ref
      → get_key (remove_connection m r p).all_connections k
        ≡ (if (p.store r).id == k then none else get_key p.all_connections k)
  get_key-remove_connection m r k p h =
      ap (λ l. get_key l k) (remove_connection-all m r p h)
      ∙ get_key-remove_key (p.store r).id k p.all_connections

  pub remove_connection-IsIndexed :
      (m : Moment) (r : ℕ) (p : PoolInner Queue)
      → r < p.next_ref
      → IsIndexed p
      → IsIndexed (remove_connection m r p)
  remove_connection-IsIndexed m r p h x =
      let grown = remove_connection-Grows m r p in
      record {
        distinct =
            subst IsMap (sym (remove_connection-all m r p h))
              (IsMap-remove_key (p.store r).id p.all_connections x.distinct);
        agree = λ k s e.
            let was : get_key p.all_connections k ≡ some s =
              ground (arith, get_key-remove_connection m r k p h) in
            let old = x.agree k s was in
            let same : ((remove_connection m r p).store s).id ≡ (p.store s).id =
              (grown.conn s old.1).id in
            (same ∙ old.0, omega (arith, grown.next_ref, old.1));
      }

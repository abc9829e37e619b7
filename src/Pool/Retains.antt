-- ===== src/Pool/Retains.antt =====
-- src/pool/mod.rs: what the handlers that make no connection do to the shared connections and to the
-- map.
pub mod Handlers
use netconnpool_rust.Base.{
  ℕ, ◌≤◌, ◌<◌, ◌≡◌, refl, sym, subst, ap, ◌∙◌, Bool, true, false, Option, none, some, List, [], ◌∷◌,
  arith, Option-cases, Bool-cases, inl, inr, ◌==◌, if◌then◌else◌,
}
use netconnpool_rust.Config.{HealthChecker}
use netconnpool_rust.Connection
use netconnpool_rust.Connection.{Connection}
use netconnpool_rust.Connection.Evolution.{
  Evolves, Evolves-refl, Evolves-trans, mark_in_use-Evolves, mark_idle-Evolves,
  update_health-Evolves, mark_unhealthy-Evolves, report_leak_once-Evolves,
  increment_reuse_count-Evolves,
}
use netconnpool_rust.Net.{Moment}
use netconnpool_rust.Stats.{StatsInternal}
use netconnpool_rust.Pool.State.{PoolInner, remove_key, set_conn, count, log, values}
use netconnpool_rust.Pool.Map.{get_key, IsMap, IsMap-remove_key, get_key-remove_key}
use netconnpool_rust.Pool.Remove.{close_connection, release_active, remove_connection}
use netconnpool_rust.Pool.Store.{
  Grows, Grows-refl, Grows-trans, set_conn-Grows, same_store-Grows, close_connection-Grows,
  release_active-Grows, remove_connection-Grows,
}
use netconnpool_rust.Pool.Removal.{IsIndexed}

-- The second map holds nothing that the first does not.
pub record Prunes (l k : List (ℕ × ℕ)) : Type 0 where
  pub distinct : IsMap l → IsMap k
  pub found : (i r : ℕ) → get_key k i ≡ some r → get_key l i ≡ some r

Prunes-refl : (l : List (ℕ × ℕ)) → Prunes l l
Prunes-refl l = record { distinct = λ d. d; found = λ i r e. e }

pub remove_key-Prunes : (k : ℕ) (l : List (ℕ × ℕ)) → Prunes l (remove_key k l)
remove_key-Prunes k l = record {
  distinct = IsMap-remove_key k l;
  found = λ i r e. ground (arith, get_key-remove_key k i l);
}

module _ {Queue : Type 0} where
  -- No allocated connection is lost or becomes another, and the map holds nothing new.
  pub record Retains (p q : PoolInner Queue) : Type 0 where
    pub grows : Grows p q
    pub prunes : Prunes p.all_connections q.all_connections

  pub Retains-refl : (p : PoolInner Queue) → Retains p p
  Retains-refl p = record { grows = Grows-refl p; prunes = Prunes-refl p.all_connections }

  pub Retains-trans : {p q s : PoolInner Queue} → Retains p q → Retains q s → Retains p s
  Retains-trans h k = record {
    grows = Grows-trans h.grows k.grows;
    prunes = record {
      distinct = λ d. k.prunes.distinct (h.prunes.distinct d);
      found = λ i r e. h.prunes.found i r (k.prunes.found i r e);
    };
  }

  pub Grows-Retains :
      {p q : PoolInner Queue} → Grows p q → q.all_connections ≡ p.all_connections → Retains p q
  Grows-Retains {p} {q} g e = record {
    grows = g;
    prunes = subst (λ l. Prunes p.all_connections l) (sym e) (Prunes-refl p.all_connections);
  }

  -- A change of neither.
  pub same-Retains :
      {p q : PoolInner Queue}
      → q.store ≡ p.store
      → q.next_ref ≡ p.next_ref
      → q.all_connections ≡ p.all_connections
      → Retains p q
  same-Retains s n a = Grows-Retains (same_store-Grows s n) a

  pub set_conn-Retains :
      (r : ℕ) (c : Connection) (p : PoolInner Queue)
      → Evolves (p.store r) c
      → Retains p (set_conn r c p)
  set_conn-Retains r c p e = Grows-Retains (set_conn-Grows r c p e) refl

  pub count-Retains :
      (f : StatsInternal → StatsInternal) (p : PoolInner Queue) → Retains p (count f p)
  count-Retains f p = same-Retains refl refl refl

  pub IsIndexed-Retains : {p q : PoolInner Queue} → Retains p q → IsIndexed p → IsIndexed q
  IsIndexed-Retains {p} {q} h x = record {
    distinct = h.prunes.distinct x.distinct;
    agree = λ k r e.
        let (id, below) = x.agree k r (h.prunes.found k r e) in
        ((h.grows.conn r below).id ∙ id, omega (arith, below, h.grows.next_ref));
  }

  close_connection-all :
      (m : Moment) (r : ℕ) (p : PoolInner Queue)
      → (close_connection m r p).all_connections ≡ p.all_connections
  unfolding close_connection
  close_connection-all m r p = ground arith

  release_active-all :
      (m : Moment) (r : ℕ) (p : PoolInner Queue)
      → (release_active m r p).all_connections ≡ p.all_connections
  unfolding release_active
  release_active-all m r p = ground arith

  pub close_connection-Retains :
      (m : Moment) (r : ℕ) (p : PoolInner Queue) → Retains p (close_connection m r p)
  close_connection-Retains m r p =
      Grows-Retains (close_connection-Grows m r p) (close_connection-all m r p)

  pub release_active-Retains :
      (m : Moment) (r : ℕ) (p : PoolInner Queue) → Retains p (release_active m r p)
  release_active-Retains m r p =
      Grows-Retains (release_active-Grows m r p) (release_active-all m r p)

  remove_connection-Prunes :
      (m : Moment) (r : ℕ) (p : PoolInner Queue)
      → Prunes p.all_connections (remove_connection m r p).all_connections
  unfolding remove_connection
  remove_connection-Prunes m r p =
      let closed = close_connection m r (release_active m r p) in
      subst (λ l. Prunes l (remove_key (closed.store r).id closed.all_connections))
        (close_connection-all m r (release_active m r p) ∙ release_active-all m r p)
        (remove_key-Prunes (closed.store r).id closed.all_connections)

  pub remove_connection-Retains :
      (m : Moment) (r : ℕ) (p : PoolInner Queue) → Retains p (remove_connection m r p)
  remove_connection-Retains m r p = record {
    grows = remove_connection-Grows m r p;
    prunes = remove_connection-Prunes m r p;
  }

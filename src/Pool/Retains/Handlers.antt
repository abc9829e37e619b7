-- ===== src/Pool/Retains/Handlers.antt =====
-- src/pool/mod.rs: the shared connections and the map through the handlers.
use netconnpool_rust.Base.{ℕ, Bool, List}
use netconnpool_rust.Net.{Moment}
use netconnpool_rust.SegQueue.{SegQueue}
use netconnpool_rust.Pool.State.{PoolInner}
use netconnpool_rust.Pool.Idle.{add_idle_connection}
use netconnpool_rust.Pool.Get.{lend, borrow_idle}
use netconnpool_rust.Pool.Bends.{
  Bends, Bends-Follows, lend-Bends, add_idle_connection-Bends, borrow_idle-Bends,
}
use netconnpool_rust.Pool.Follows.{Follows}
use netconnpool_rust.Pool.Retains.{
  Retains, Retains-refl, Retains-trans, same-Retains, set_conn-Retains, remove_connection-Retains,
}

module _ {Queue : Type 0} where
  Retains-Bends : Bends {Queue = Queue} Retains
  Retains-Bends = record {
    reflects = Retains-refl;
    chains = Retains-trans;
    alike = λ store next all generator. same-Retains store next all;
    bends = set_conn-Retains;
    removes = remove_connection-Retains;
  }

  pub Retains-Follows : Follows {Queue = Queue} Retains
  Retains-Follows = Bends-Follows Retains-Bends

  pub lend-Retains :
      (m : Moment) (start : ℕ) (is_reused : Bool) (r : ℕ) (p : PoolInner Queue)
      → Retains p (lend m start is_reused r p)
  lend-Retains = lend-Bends Retains-Bends

module _ {Queue : Type 0} ⦃sq : SegQueue ℕ Queue⦄ where
  pub add_idle_connection-Retains :
      (m : Moment) (r : ℕ) (p : PoolInner Queue) → Retains p (add_idle_connection m r p)
  add_idle_connection-Retains = add_idle_connection-Bends Retains-Bends

  pub borrow_idle-Retains :
      (m : Moment) (start : ℕ) (indices : List ℕ) (p : PoolInner Queue)
      → Retains p (borrow_idle m start indices p).0
  borrow_idle-Retains = borrow_idle-Bends Retains-Bends

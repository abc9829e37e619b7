-- ===== src/Pool/Follows.antt =====
-- src/pool/mod.rs: what every change that the handlers make, but for the marks of a connection that is
-- lent or parked, has in common, from handler to handler.
pub mod Queues
use netconnpool_rust.Base.{
  ℕ, zero, suc, ◌+◌, ◌≡◌, refl, Bool, true, false, Option, none, some, List, [], ◌∷◌, arith, ◌⊎◌,
  inl, inr, leb, ◌&&◌, if◌then◌else◌, is_empty,
}
use netconnpool_rust.Connection
use netconnpool_rust.Connection.{Connection}
use netconnpool_rust.Connection.Evolution.{
  Evolves, update_health-Evolves, mark_unhealthy-Evolves, report_leak_once-Evolves,
}
use netconnpool_rust.Net.{Moment}
use netconnpool_rust.Protocol
use netconnpool_rust.SegQueue.{SegQueue}
use netconnpool_rust.Pool.State.{PoolInner, set_conn, values, notify_all, log}
use netconnpool_rust.Pool.Remove.{release_active, remove_connection}
use netconnpool_rust.Pool.Idle.{
  push_idle, try_push_idle, push_or_remove, park, call_on_return, return_connection,
}
use netconnpool_rust.Pool.Get.{clear_socket, clear_buffer, take_idle}
use netconnpool_rust.Pool.Cleanup.{
  report_leak, mark_unhealthy, inspect_in_use, inspect_idle, inspect, sweep, remove_all,
  finish_cleanup, cleanup,
}
use netconnpool_rust.Pool.Close.{
  drain_buckets, remove_drained, close_idle, next_batch, remove_batches, close_rest,
}

clear_socket-Evolves :
    (m : Moment) (timeout max_packets : ℕ) (c : Connection)
    → Evolves c (clear_socket m timeout max_packets c)
unfolding clear_socket
clear_socket-Evolves m timeout max_packets c = ground arith

clear_socket-in_use :
    (m : Moment) (timeout max_packets : ℕ) (c : Connection)
    → (clear_socket m timeout max_packets c).in_use ≡ c.in_use
unfolding clear_socket
clear_socket-in_use m timeout max_packets c = ground arith

update_health-in_use :
    (m : Moment) (healthy : Bool) (c : Connection)
    → (Connection.update_health m healthy c).in_use ≡ c.in_use
unfolding Connection.update_health
update_health-in_use m healthy c = ground arith

mark_unhealthy-in_use : (c : Connection) → (Connection.mark_unhealthy c).in_use ≡ c.in_use
unfolding Connection.mark_unhealthy
mark_unhealthy-in_use c = refl

report_leak_once-in_use : (c : Connection) → (Connection.report_leak_once c).0.in_use ≡ c.in_use
unfolding Connection.report_leak_once
report_leak_once-in_use c = ground arith

-- A relation between a pool and a later one that the small changes of the handlers keep.
pub record Follows {Queue : Type 0} (R : PoolInner Queue → PoolInner Queue → Type 0) : Type 0 where
  pub reflects : (p : PoolInner Queue) → R p p
  pub chains : {p q s : PoolInner Queue} → R p q → R q s → R p s
  -- A change of other fields than these.
  pub same :
      {p q : PoolInner Queue}
      → q.store ≡ p.store
      → q.next_ref ≡ p.next_ref
      → q.all_connections ≡ p.all_connections
      → q.active_count ≡ p.active_count
      → q.generator ≡ p.generator
      → R p q
  -- A change of a connection that keeps its mark.
  pub evolves :
      (r : ℕ) (c : Connection) (p : PoolInner Queue)
      → Evolves (p.store r) c
      → c.in_use ≡ (p.store r).in_use
      → R p (set_conn r c p)
  pub releases : (m : Moment) (r : ℕ) (p : PoolInner Queue) → R p (release_active m r p)
  pub removes : (m : Moment) (r : ℕ) (p : PoolInner Queue) → R p (remove_connection m r p)

module _ {Queue : Type 0} where
  pub inspect_idle-same :
      (m : Moment) (r : ℕ) (p : PoolInner Queue)
      → ((inspect_idle m r p).0.all_connections ≡ p.all_connections)
        × ((inspect_idle m r p).0.next_ref ≡ p.next_ref)
        × ((inspect_idle m r p).0.active_count ≡ p.active_count)
        × ((inspect_idle m r p).0.generator ≡ p.generator)
        × (((inspect_idle m r p).0.store ≡ p.store)
            ⊎ ((inspect_idle m r p).0.store
                ≡ (set_conn r (Connection.update_health m true (p.store r)) p).store)
            ⊎ ((inspect_idle m r p).0.store
                ≡ (set_conn r (Connection.update_health m false (p.store r)) p).store))
  unfolding inspect_idle
  inspect_idle-same m r p = ground arith

module _ {Queue : Type 0} {R : PoolInner Queue → PoolInner Queue → Type 0} (t : Follows R) where
  pub if-Follows : (b : Bool) {p q s : PoolInner Queue} → R p q → R p s → R p (if b then q else s)
  if-Follows true h k = h
  if-Follows false h k = k

  pub clear_buffer-Follows : (m : Moment) (r : ℕ) (p : PoolInner Queue) → R p (clear_buffer m r p)
  unfolding clear_buffer
  clear_buffer-Follows m r p =
      if-Follows
        (p.config.clear_udp_buffer_on_return && Protocol.eq (p.store r).protocol Protocol.udp)
        (t.evolves r _ p
          (clear_socket-Evolves m p.config.udp_buffer_clear_timeout
            p.config.max_buffer_clear_packets (p.store r))
          (clear_socket-in_use m p.config.udp_buffer_clear_timeout p.config.max_buffer_clear_packets
            (p.store r)))
        (t.reflects p)

  pub report_leak-Follows : (r : ℕ) (p : PoolInner Queue) → R p (report_leak r p)
  unfolding report_leak
  report_leak-Follows r p =
      let reported =
        t.evolves r _ p (report_leak_once-Evolves (p.store r))
          (report_leak_once-in_use (p.store r)) in
      if-Follows (Connection.report_leak_once (p.store r)).1
        (t.chains reported (t.same refl refl refl refl refl)) reported

  mark_unhealthy-Follows : (r : ℕ) (p : PoolInner Queue) → R p (mark_unhealthy r p)
  unfolding mark_unhealthy
  mark_unhealthy-Follows r p =
      t.evolves r _ p (mark_unhealthy-Evolves (p.store r)) (mark_unhealthy-in_use (p.store r))

  inspect_in_use-Follows : (m : Moment) (r : ℕ) (p : PoolInner Queue) → R p (inspect_in_use m r p)
  unfolding inspect_in_use
  inspect_in_use-Follows m r p =
      let reported = report_leak-Follows r p in
      let marked =
        if-Follows (Connection.is_leaked m p.config.connection_leak_timeout (p.store r))
          (t.chains reported (mark_unhealthy-Follows r (report_leak r p))) (t.reflects p) in
      if-Follows _ (t.chains reported (t.removes m r (report_leak r p)))
        (if-Follows _ (t.chains marked (mark_unhealthy-Follows r _)) marked)

  inspect_idle-Follows : (m : Moment) (r : ℕ) (p : PoolInner Queue) → R p (inspect_idle m r p).0
  inspect_idle-Follows m r p =
      let (all, next, active, generator, store) = inspect_idle-same m r p in
      elim store [
        | inl e ↦ t.same e next all active generator
        | inr (inl e) ↦
            t.chains
              (t.evolves r _ p (update_health-Evolves m true (p.store r))
                (update_health-in_use m true (p.store r)))
              (t.same e next all active generator)
        | inr (inr e) ↦
            t.chains
              (t.evolves r _ p (update_health-Evolves m false (p.store r))
                (update_health-in_use m false (p.store r)))
              (t.same e next all active generator)
      ]

  pub inspect-Follows : (m : Moment) (r : ℕ) (p : PoolInner Queue) → R p (inspect m r p).0
  unfolding inspect
  inspect-Follows m r p = ground (arith, inspect_in_use-Follows m r p, inspect_idle-Follows m r p)

  pub sweep-Follows : (m : Moment) (refs : List ℕ) (p : PoolInner Queue) → R p (sweep m refs p).0
  unfolding sweep
  sweep-Follows m [] p = t.reflects p
  sweep-Follows m (r ∷ refs) p =
      let q = (inspect m r p).0 in
      ground (arith, t.reflects p, t.chains (inspect-Follows m r p) (sweep-Follows m refs q))

  pub remove_all-Follows :
      (m : Moment) (refs : List ℕ) (p : PoolInner Queue) → R p (remove_all m refs p)
  unfolding remove_all
  remove_all-Follows m [] p = t.reflects p
  remove_all-Follows m (r ∷ refs) p =
      t.chains (t.removes m r p) (remove_all-Follows m refs (remove_connection m r p))

  finish_cleanup-Follows :
      (m : Moment) (p : PoolInner Queue) (to_remove : Option (List ℕ))
      → R p (finish_cleanup m p to_remove)
  unfolding finish_cleanup
  finish_cleanup-Follows m p none = t.reflects p
  finish_cleanup-Follows m p (some refs) = remove_all-Follows m refs p

  pub cleanup-Follows : (m : Moment) (p : PoolInner Queue) → R p (cleanup m p)
  unfolding cleanup
  cleanup-Follows m p =
      let swept = sweep m (values p.all_connections) p in
      t.chains (sweep-Follows m (values p.all_connections) p)
        (finish_cleanup-Follows m swept.0 swept.1)

  remove_batches-Follows :
      (fuel : ℕ) (m : Moment) (p : PoolInner Queue) → R p (remove_batches fuel m p)
  unfolding remove_batches
  remove_batches-Follows zero m p = t.reflects p
  remove_batches-Follows (suc fuel) m p = if-Follows (is_empty (next_batch p)) (t.reflects p) (
      t.chains (remove_all-Follows m (next_batch p) p)
        (remove_batches-Follows fuel m (remove_all m (next_batch p) p)))

  pub close_rest-Follows : (m : Moment) (p : PoolInner Queue) → R p (close_rest m p)
  unfolding close_rest
  close_rest-Follows m p = remove_batches-Follows _ m p

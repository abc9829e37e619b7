-- ===== src/Pool/Frame.antt =====
-- What the handlers of src/pool/mod.rs that only close, remove, mark or count leave as it is.
use netconnpool_rust.Base.{
  ℕ, ◌≤◌, ◌≡◌, refl, ◌∙◌, Bool, true, false, Option, none, some, List, [], ◌∷◌, arith, length,
  if◌then◌else◌,
}
use netconnpool_rust.Connection.{Connection}
use netconnpool_rust.Net.{Moment}
use netconnpool_rust.Stats.{StatsInternal}
use netconnpool_rust.Pool.State.{PoolInner, remove_key, values, set_conn, count}
use netconnpool_rust.Pool.Remove.{close_connection, release_active, remove_connection}
use netconnpool_rust.Pool.Get.{lend, clear_buffer}
use netconnpool_rust.Pool.Cleanup.{
  inspect_in_use, inspect_idle, inspect, report_leak, mark_unhealthy, sweep, remove_all,
  finish_cleanup, cleanup,
}

-- The configuration, the idle queues with their counters and the flag are the same, and the map has
-- no more entries.
pub record Keeps {Queue : Type 0} (p q : PoolInner Queue) : Type 0 where
  pub config : q.config ≡ p.config
  pub idle_connections : q.idle_connections ≡ p.idle_connections
  pub idle_counts : q.idle_counts ≡ p.idle_counts
  pub closed : q.closed ≡ p.closed
  pub fewer : length q.all_connections ≤ length p.all_connections

pub length-remove_key-le {ℓ} :
    {A : Type ℓ} (k : ℕ) (entries : List (ℕ × A)) → length (remove_key k entries) ≤ length entries
length-remove_key-le k [] = omega arith
length-remove_key-le k (e ∷ rest) = ground (arith, length-remove_key-le k rest)

module _ {Queue : Type 0} where
  pub Keeps-refl : (p : PoolInner Queue) → Keeps p p
  Keeps-refl p = record {
    config = refl;
    idle_connections = refl;
    idle_counts = refl;
    closed = refl;
    fewer = omega arith;
  }

  pub Keeps-trans : {p q s : PoolInner Queue} → Keeps p q → Keeps q s → Keeps p s
  Keeps-trans h k = record {
    config = k.config ∙ h.config;
    idle_connections = k.idle_connections ∙ h.idle_connections;
    idle_counts = k.idle_counts ∙ h.idle_counts;
    closed = k.closed ∙ h.closed;
    fewer = omega arith;
  }

  pub if-Keeps :
      (b : Bool) {p q s : PoolInner Queue} → Keeps p q → Keeps p s → Keeps p (if b then q else s)
  if-Keeps true k l = k
  if-Keeps false k l = l

  pub set_conn-Keeps : (r : ℕ) (c : Connection) (p : PoolInner Queue) → Keeps p (set_conn r c p)
  set_conn-Keeps r c p = record {
    config = refl;
    idle_connections = refl;
    idle_counts = refl;
    closed = refl;
    fewer = omega arith;
  }

  pub count-Keeps : (f : StatsInternal → StatsInternal) (p : PoolInner Queue) → Keeps p (count f p)
  count-Keeps f p = record {
    config = refl;
    idle_connections = refl;
    idle_counts = refl;
    closed = refl;
    fewer = omega arith;
  }

  pub close_connection-Keeps :
      (m : Moment) (r : ℕ) (p : PoolInner Queue) → Keeps p (close_connection m r p)
  unfolding close_connection
  close_connection-Keeps m r p = ground arith

  pub release_active-Keeps :
      (m : Moment) (r : ℕ) (p : PoolInner Queue) → Keeps p (release_active m r p)
  unfolding release_active
  release_active-Keeps m r p = ground arith

  pub remove_connection-Keeps :
      (m : Moment) (r : ℕ) (p : PoolInner Queue) → Keeps p (remove_connection m r p)
  unfolding remove_connection
  remove_connection-Keeps m r p =
      let released = release_active m r p in
      let closed = close_connection m r released in
      let before = Keeps-trans (release_active-Keeps m r p) (close_connection-Keeps m r released) in
      Keeps-trans before (record {
        config = refl;
        idle_connections = refl;
        idle_counts = refl;
        closed = refl;
        fewer = length-remove_key-le (closed.store r).id closed.all_connections;
      })

  pub lend-Keeps :
      (m : Moment) (start : ℕ) (is_reused : Bool) (r : ℕ) (p : PoolInner Queue)
      → Keeps p (lend m start is_reused r p)
  unfolding lend
  lend-Keeps m start is_reused r p = ground arith

  pub clear_buffer-Keeps : (m : Moment) (r : ℕ) (p : PoolInner Queue) → Keeps p (clear_buffer m r p)
  unfolding clear_buffer
  clear_buffer-Keeps m r p = ground arith

  report_leak-Keeps : (r : ℕ) (p : PoolInner Queue) → Keeps p (report_leak r p)
  unfolding report_leak
  report_leak-Keeps r p = ground arith

  mark_unhealthy-Keeps : (r : ℕ) (p : PoolInner Queue) → Keeps p (mark_unhealthy r p)
  unfolding mark_unhealthy
  mark_unhealthy-Keeps r p = ground arith

  inspect_in_use-Keeps : (m : Moment) (r : ℕ) (p : PoolInner Queue) → Keeps p (inspect_in_use m r p)
  unfolding inspect_in_use
  inspect_in_use-Keeps m r p =
      let reported = report_leak-Keeps r p in
      let marked = Keeps-trans reported (mark_unhealthy-Keeps r (report_leak r p)) in
      ground (
        arith,
        Keeps-refl p,
        reported,
        marked,
        mark_unhealthy-Keeps r p,
        Keeps-trans marked (mark_unhealthy-Keeps r (mark_unhealthy r (report_leak r p))),
        Keeps-trans reported (remove_connection-Keeps m r (report_leak r p)),
      )

  inspect_idle-Keeps : (m : Moment) (r : ℕ) (p : PoolInner Queue) → Keeps p (inspect_idle m r p).0
  unfolding inspect_idle
  inspect_idle-Keeps m r p = ground arith

  pub inspect-Keeps : (m : Moment) (r : ℕ) (p : PoolInner Queue) → Keeps p (inspect m r p).0
  unfolding inspect
  inspect-Keeps m r p = ground (arith, inspect_in_use-Keeps m r p, inspect_idle-Keeps m r p)

  pub sweep-Keeps : (m : Moment) (refs : List ℕ) (p : PoolInner Queue) → Keeps p (sweep m refs p).0
  unfolding sweep
  sweep-Keeps m [] p = Keeps-refl p
  sweep-Keeps m (r ∷ refs) p = ground (
    arith,
    Keeps-refl p,
    Keeps-trans (inspect-Keeps m r p) (sweep-Keeps m refs (inspect m r p).0),
  )

  pub remove_all-Keeps :
      (m : Moment) (refs : List ℕ) (p : PoolInner Queue) → Keeps p (remove_all m refs p)
  unfolding remove_all
  remove_all-Keeps m [] p = Keeps-refl p
  remove_all-Keeps m (r ∷ refs) p =
      Keeps-trans (remove_connection-Keeps m r p)
        (remove_all-Keeps m refs (remove_connection m r p))

  finish_cleanup-Keeps :
      (m : Moment) (p : PoolInner Queue) (to_remove : Option (List ℕ))
      → Keeps p (finish_cleanup m p to_remove)
  unfolding finish_cleanup
  finish_cleanup-Keeps m p none = Keeps-refl p
  finish_cleanup-Keeps m p (some refs) = remove_all-Keeps m refs p

  pub cleanup-Keeps : (m : Moment) (p : PoolInner Queue) → Keeps p (cleanup m p)
  unfolding cleanup
  cleanup-Keeps m p =
      let refs = values p.all_connections in
      Keeps-trans (sweep-Keeps m refs p)
        (finish_cleanup-Keeps m (sweep m refs p).0 (sweep m refs p).1)

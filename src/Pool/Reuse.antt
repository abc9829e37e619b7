-- ===== src/Pool/Reuse.antt =====
-- src/pool/mod.rs: which idle connection a pass of `get_connection` takes.
pub mod Oldest
pub mod Back
pub mod Handoff
pub mod Tests
use netconnpool_rust.Base.{ℕ, ◌≡◌, ◌==◌, true, false, Option, none, some, List, [], ◌∷◌}
use netconnpool_rust.Connection
use netconnpool_rust.SegQueue.{SegQueue}
use netconnpool_rust.Pool.State.{PoolInner, fetch_sub, fetch_add}

module _ {Queue : Type 0} ⦃sq : SegQueue ℕ Queue⦄ where
  -- The bucket and the connection at the front of the first queue of `indices` that is not empty.
  unfoldable pub oldest : List ℕ → PoolInner Queue → Option (ℕ × ℕ)
  oldest [] p = none
  oldest (i ∷ indices) p = elim (sq.to_list (p.idle_connections i)) [
    | [] ↦ oldest indices p
    | r ∷ later ↦ some (i, r)
  ]

  -- `r` has been taken from the front of the queue `i`, and lent; nothing has been dialled or removed.
  pub record IsTaken (i r : ℕ) (p q : PoolInner Queue) : Type 0 where
    pub front : sq.to_list (p.idle_connections i) ≡ r ∷ sq.to_list (q.idle_connections i)
    pub others : (j : ℕ) → (i == j) ≡ false → q.idle_connections j ≡ p.idle_connections j
    pub all : q.all_connections ≡ p.all_connections
    pub next_ref : q.next_ref ≡ p.next_ref
    pub in_use : (q.store r).in_use ≡ true
    pub reused :
        (q.store r).reuse_count ≡ (Connection.increment_reuse_count (p.store r)).reuse_count
    pub idle_count : q.idle_counts i ≡ fetch_sub (p.idle_counts i)
    pub active_count : q.active_count ≡ fetch_add p.active_count

-- ===== src/Pool/Prewarm/Filling.antt =====
-- src/pool/mod.rs: how full `Pool::prewarm` leaves a bucket.
use netconnpool_rust.Base.{
  ℕ, ◌+◌, ◌^◌, ◌≤◌, ◌<◌, ◌≡◌, true, false, none, some, length, min, ok, ◌⊎◌, ◌==◌,
}
use netconnpool_rust.Config.{Config, ConnectionType}
use netconnpool_rust.Connection
use netconnpool_rust.SegQueue.{SegQueue}
use netconnpool_rust.Pool.State.{PoolInner, get_bucket_index}
use netconnpool_rust.Pool.Create.{dial}
use netconnpool_rust.Pool.Threads.{Upgrade}

module _ {Queue : Type 0} ⦃sq : SegQueue ℕ Queue⦄ where
  -- The counter of the bucket `idx` has gone up by at most `n`, as far as the limit; the others have not
  -- changed, and the map has at most `more` more entries.
  record Fills (idx n more : ℕ) (p q : PoolInner Queue) : Type 0 where
    config : q.config ≡ p.config
    closed : q.closed ≡ p.closed
    count : q.idle_counts idx ≡ min (p.idle_counts idx + n) p.config.max_idle_connections
    others : (j : ℕ) → (idx == j) ≡ false → q.idle_counts j ≡ p.idle_counts j
    entries : length q.all_connections ≤ length p.all_connections + more

  -- In a round with nobody else, the pool lives and the dialling gives `t`, of the bucket `idx`.
  abbrev pub IsSteady : Config → ConnectionType → (idx : ℕ) → Upgrade Queue → Type 0
  IsSteady config t idx turn =
      let c = Connection.new turn.moment 0 t none in
      (turn.lives ≡ true)
      × ((q : PoolInner Queue) → turn.others q ≡ q)
      × (dial turn.moment none config ≡ ok t)
      × (get_bucket_index c.protocol c.ip_version ≡ some idx)

  -- There is room for `n` more connections.
  abbrev pub HasRoom : ℕ → PoolInner Queue → Type 0
  HasRoom n p =
      ((p.config.max_connections ≡ 0) ⊎ (length p.all_connections + n ≤ p.config.max_connections))
      × (length p.all_connections + n + 2 < 2 ^ 64)

-- ===== src/Pool/Lending.antt =====
-- src/pool/mod.rs: a pool, the connections that its threads hold, and which of them have been lent. A
-- thread lends a connection that it has just made; the prewarmer parks one instead; what a borrower
-- returns has been lent. A whole pass of a handler is one step. A borrower may call the methods of its
-- connection but those that set the mark of use, `mark_in_use`, `mark_idle` and `try_mark_idle`, and
-- `update_id`: the handle gives access to them, but they have no step here.
pub mod Holding
pub mod Counting
pub mod Tests
use netconnpool_rust.Base.{
  ℕ, ◌<◌, ◌≡◌, Bool, true, false, Option, none, some, times, remove_one, update, [],
}
use netconnpool_rust.Config.{ConnectionType}
use netconnpool_rust.Connection.{Connection}
use netconnpool_rust.Connection.Evolution.{Evolves}
use netconnpool_rust.IpVersion.{IpVersion}
use netconnpool_rust.Net.{Moment}
use netconnpool_rust.Protocol.{Protocol}
use netconnpool_rust.SegQueue.{SegQueue}
use netconnpool_rust.Stats.{StatsInternal}
use netconnpool_rust.Pool.State.{PoolInner, count, set_conn}
use netconnpool_rust.Pool.Idle.{return_connection, add_idle_connection}
use netconnpool_rust.Pool.Create.{create_admit, allocate}
use netconnpool_rust.Pool.Get.{Round, lend, get_round}
use netconnpool_rust.Pool.Cleanup.{cleanup}
use netconnpool_rust.Pool.Close.{close_idle, close_rest}
use netconnpool_rust.Pool.Owners.{World, handed, made}
use netconnpool_rust.Pool.Settles.Lending.{given}

pub record Lending (Queue : Type 0) : Type 0 where
  pub world : World Queue
  pub lent : ℕ → Bool

abbrev pub mark : Option ℕ → (ℕ → Bool) → ℕ → Bool
mark none lent = lent
mark (some r) lent = update lent r true

-- A new pool, of which nothing is held.
abbrev pub fresh : {Queue : Type 0} → PoolInner Queue → Lending Queue
fresh p = record { world = record { pool = p; held = [] }; lent = λ s. false }

module _ {Queue : Type 0} where
  -- Another pool, with the same held.
  abbrev pub with_pool : Lending Queue → PoolInner Queue → Lending Queue
  with_pool u q = record u { world = record { pool = q; held = u.world.held } }

  -- After a pass.
  abbrev pub got : Lending Queue → PoolInner Queue × Round → Lending Queue
  got u after = record { world = handed after u.world.held; lent = mark (given after.1) u.lent }

module _ {Queue : Type 0} ⦃sq : SegQueue ℕ Queue⦄ where
  pub data Step (u : Lending Queue) : Lending Queue → Type 0 where
    counts : (f : StatsInternal → StatsInternal) → Step u (with_pool u (count f u.world.pool))
    gets :
        (m : Moment) (start timeout : ℕ) (protocol : Option Protocol)
        (ip_version : Option IpVersion)
        → Step u (got u (get_round m start timeout protocol ip_version u.world.pool))
    admits :
        (m : Moment) (protocol : Option Protocol) (ip_version : Option IpVersion)
        (conn_type : ConnectionType)
        → Step u (record {
          world = made (create_admit m protocol ip_version conn_type u.world.pool) u.world.held;
          lent = u.lent;
        })
    lends :
        (m : Moment) (start r : ℕ)
        → 0 < times r u.world.held
        → u.lent r ≡ false
        → Step u (record {
          world = record { pool = lend m start false r u.world.pool; held = u.world.held };
          lent = update u.lent r true;
        })
    parks :
        (m : Moment) (r : ℕ)
        → 0 < times r u.world.held
        → u.lent r ≡ false
        → Step u (record {
          world = record {
            pool = add_idle_connection m r u.world.pool;
            held = remove_one r u.world.held;
          };
          lent = u.lent;
        })
    returns :
        (m : Moment) (r : ℕ)
        → 0 < times r u.world.held
        → u.lent r ≡ true
        → Step u (record {
          world = record {
            pool = return_connection m r u.world.pool;
            held = remove_one r u.world.held;
          };
          lent = update u.lent r false;
        })
    cleans : (m : Moment) → Step u (with_pool u (cleanup m u.world.pool))
    closes : (m : Moment) → Step u (with_pool u (close_idle m u.world.pool))
    ends : (m : Moment) → Step u (with_pool u (close_rest m u.world.pool))
    -- A method of a connection that leaves its mark of use.
    uses :
        (r : ℕ) (c : Connection)
        → Evolves (u.world.pool.store r) c
        → c.in_use ≡ (u.world.pool.store r).in_use
        → Step u (with_pool u (set_conn r c u.world.pool))
    -- A connection that another pool, or nobody's, makes.
    makes_elsewhere :
        (m : Moment) (conn_type : ConnectionType)
        → Step u (with_pool u (allocate m conn_type u.world.pool))

  pub data Reach (u : Lending Queue) : Lending Queue → Type 0 where
    here : Reach u u
    next : {v w : Lending Queue} → Reach u v → Step v w → Reach u w

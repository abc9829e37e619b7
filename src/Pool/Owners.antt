-- ===== src/Pool/Owners.antt =====
-- src/pool/mod.rs: a pool and the connections that its threads hold. A borrower's handle is made by
-- `get_connection`, cannot be copied, and is used up when it is dropped; the prewarmer and a
-- `get_connection` hold a connection between its creation and its parking or lending. Whoever has a
-- connection may call its methods; the code keeps `update_id` for conflicts of ids, so that method has
-- no step. The heap and the generator of ids are the process's: other pools, and `Connection::new`,
-- take from them too. A whole pass of a handler is one step.
pub mod Moving
pub mod Passing
pub mod Ownership
pub mod Exclusive
pub mod Tests
use netconnpool_rust.Base.{ℕ, ◌<◌, false, ok, Option, List, [], ◌∷◌, ◌++◌, times, remove_one}
use netconnpool_rust.Config.{ConnectionType}
use netconnpool_rust.Connection.{Connection}
use netconnpool_rust.Connection.Evolution.{Evolves}
use netconnpool_rust.Errors.{Result}
use netconnpool_rust.IpVersion.{IpVersion}
use netconnpool_rust.Net.{Moment}
use netconnpool_rust.Protocol.{Protocol}
use netconnpool_rust.SegQueue.{SegQueue}
use netconnpool_rust.Stats.{StatsInternal}
use netconnpool_rust.Pool.State.{PoolInner, count, set_conn}
use netconnpool_rust.Pool.Idle.{return_connection, add_idle_connection}
use netconnpool_rust.Pool.Create.{create_admit, allocate}
use netconnpool_rust.Pool.Get.{Round, done, lend, get_round}
use netconnpool_rust.Pool.Cleanup.{cleanup}
use netconnpool_rust.Pool.Close.{close_idle, close_rest}

pub record World (Queue : Type 0) : Type 0 where
  pub pool : PoolInner Queue
  pub held : List ℕ

module _ {Queue : Type 0} where
  -- After a pass: with the connection of the handle, if it gave one.
  abbrev pub handed : PoolInner Queue × Round → List ℕ → World Queue
  handed (q, done (ok h)) held = record { pool = q; held = h.conn ∷ held }
  handed (q, _) held = record { pool = q; held = held }

  -- After a creation: with the new connection, if there is one.
  abbrev pub made : PoolInner Queue × Result ℕ → List ℕ → World Queue
  made (q, ok r) held = record { pool = q; held = r ∷ held }
  made (q, _) held = record { pool = q; held = held }

module _ {Queue : Type 0} ⦃sq : SegQueue ℕ Queue⦄ where
  -- A step of one thread, with any arguments; what it gives away it holds.
  pub data Step (w : World Queue) : World Queue → Type 0 where
    counts : (f : StatsInternal → StatsInternal) → Step w (record w { pool = count f w.pool })
    gets :
        (m : Moment) (start timeout : ℕ) (protocol : Option Protocol)
        (ip_version : Option IpVersion)
        → Step w (handed (get_round m start timeout protocol ip_version w.pool) w.held)
    admits :
        (m : Moment) (protocol : Option Protocol) (ip_version : Option IpVersion)
        (conn_type : ConnectionType)
        → Step w (made (create_admit m protocol ip_version conn_type w.pool) w.held)
    lends :
        (m : Moment) (start r : ℕ)
        → 0 < times r w.held
        → Step w (record w { pool = lend m start false r w.pool })
    parks :
        (m : Moment) (r : ℕ)
        → 0 < times r w.held
        → Step w (record { pool = add_idle_connection m r w.pool; held = remove_one r w.held })
    returns :
        (m : Moment) (r : ℕ)
        → 0 < times r w.held
        → Step w (record { pool = return_connection m r w.pool; held = remove_one r w.held })
    cleans : (m : Moment) → Step w (record w { pool = cleanup m w.pool })
    closes : (m : Moment) → Step w (record w { pool = close_idle m w.pool })
    ends : (m : Moment) → Step w (record w { pool = close_rest m w.pool })
    -- A method of a connection, which keeps its id, its kind and its age.
    uses :
        (r : ℕ) (c : Connection)
        → Evolves (w.pool.store r) c
        → Step w (record w { pool = set_conn r c w.pool })
    -- A connection that another pool, or nobody's, makes.
    makes_elsewhere :
        (m : Moment) (conn_type : ConnectionType)
        → Step w (record w { pool = allocate m conn_type w.pool })

  pub data Reach (w : World Queue) : World Queue → Type 0 where
    here : Reach w w
    next : {v u : World Queue} → Reach w v → Step v u → Reach w u

  abbrev pub taken_elsewhere : {w v : World Queue} → Step w v → List ℕ
  taken_elsewhere {w} (makes_elsewhere m conn_type) = w.pool.next_ref ∷ []
  taken_elsewhere (counts f) = []
  taken_elsewhere (gets m start timeout protocol ip_version) = []
  taken_elsewhere (admits m protocol ip_version conn_type) = []
  taken_elsewhere (lends m start r h) = []
  taken_elsewhere (parks m r h) = []
  taken_elsewhere (returns m r h) = []
  taken_elsewhere (cleans m) = []
  taken_elsewhere (closes m) = []
  taken_elsewhere (ends m) = []
  taken_elsewhere (uses r c e) = []

  -- The places of the heap that connections from elsewhere took on the way.
  abbrev pub elsewhere : {w v : World Queue} → Reach w v → List ℕ
  elsewhere here = []
  elsewhere (next reached s) = taken_elsewhere s ++ elsewhere reached

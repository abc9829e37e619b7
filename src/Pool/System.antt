-- ===== src/Pool/System.antt =====
-- A pool under many threads, in small steps with any arguments: one locked section, one atomic, or the
-- few of these that the code does one after the other on one queue. The whole passes of the handlers
-- are steps too. The dialling of `create_connection` runs outside the locks, so its result, of any
-- earlier time, enters by `admits`. Connections change at any time, by their own methods; the ids and the
-- heap are the process's, from which others take too. What is not split: a push to an idle queue and
-- its counter, a pop and its counter, and the draining of a queue in `close` with the reset of its
-- counter; Racing/Bucket splits these.
use netconnpool_rust.Base.{ℕ, ◌≡◌, Bool, true, Option, some}
use netconnpool_rust.Config.{ConnectionType}
use netconnpool_rust.IpVersion.{IpVersion}
use netconnpool_rust.Net.{Moment}
use netconnpool_rust.Protocol.{Protocol}
use netconnpool_rust.SegQueue.{SegQueue}
use netconnpool_rust.Stats.{StatsInternal}
use netconnpool_rust.Pool.State.{PoolInner, count, set_conn}
use netconnpool_rust.Pool.Idle.{return_connection, add_idle_connection, try_push_idle}
use netconnpool_rust.Pool.Create.{create_admit, create_finish, allocate}
use netconnpool_rust.Pool.Get.{get_round, take_idle, clear_buffer, lend}
use netconnpool_rust.Pool.Cleanup.{cleanup, inspect}
use netconnpool_rust.Pool.Close.{close_idle, close_rest, drain_buckets}
use netconnpool_rust.Pool.Remove.{close_connection, release_active, remove_connection}
use netconnpool_rust.Connection.{Connection}

module _ {Queue : Type 0} ⦃sq : SegQueue ℕ Queue⦄ where
  pub data Step (p : PoolInner Queue) : PoolInner Queue → Type 0 where
    -- The whole passes of the handlers.
    counts : (f : StatsInternal → StatsInternal) → Step p (count f p)
    gets :
        (m : Moment) (start timeout : ℕ) (protocol : Option Protocol)
        (ip_version : Option IpVersion)
        → Step p (get_round m start timeout protocol ip_version p).0
    admits :
        (m : Moment) (protocol : Option Protocol) (ip_version : Option IpVersion)
        (conn_type : ConnectionType)
        → Step p (create_admit m protocol ip_version conn_type p).0
    parks : (m : Moment) (r : ℕ) → Step p (add_idle_connection m r p)
    returns : (m : Moment) (r : ℕ) → Step p (return_connection m r p)
    cleans : (m : Moment) → Step p (cleanup m p)
    closes : (m : Moment) → Step p (close_idle m p)
    ends : (m : Moment) → Step p (close_rest m p)
    -- Their parts.
    takes :
        (idx r : ℕ) (rest : Queue)
        → sq.pop (p.idle_connections idx) ≡ some (r, rest)
        → Step p (take_idle idx r rest p)
    pushes : (m : Moment) (r idx : ℕ) → Step p (try_push_idle m r idx p)
    removes : (m : Moment) (r : ℕ) → Step p (remove_connection m r p)
    closes_one : (m : Moment) (r : ℕ) → Step p (close_connection m r p)
    releases : (m : Moment) (r : ℕ) → Step p (release_active m r p)
    clears : (m : Moment) (r : ℕ) → Step p (clear_buffer m r p)
    lends :
        (m : Moment) (start : ℕ) (is_reused : Bool) (r : ℕ) → Step p (lend m start is_reused r p)
    inspects : (m : Moment) (r : ℕ) → Step p (inspect m r p).0
    finishes : (m : Moment) (r : ℕ) → Step p (create_finish m r p).0
    flags : Step p (record p { closed = true })
    drains : (idx : ℕ) → Step p (drain_buckets 1 idx p).1
    -- A connection by its own methods, and a new one, of this pool or elsewhere in the process.
    uses : (r : ℕ) (c : Connection) → Step p (set_conn r c p)
    allocates : (m : Moment) (conn_type : ConnectionType) → Step p (allocate m conn_type p)

  -- The states that a new pool comes to.
  pub data Reach (p : PoolInner Queue) : PoolInner Queue → Type 0 where
    here : Reach p p
    next : {q s : PoolInner Queue} → Reach p q → Step q s → Reach p s

-- ===== src/Racing/Wakeup.antt =====
-- src/pool/mod.rs: the wait of `get_connection` on a full pool of one kind of connections, and the
-- wake-up in `return_connection`, in small steps of any number of threads. A returner first marks its
-- connection idle and wakes a waiter, and then pushes the connection; a getter looks at the queue, and
-- on finding it empty goes on to wait, without a lock over both.
use netconnpool_rust.Base.{ℕ, ◌+◌, ◌-◌, ◌<◌, ◌≡◌, refl, arith, List, [], ◌∷◌, ltb, if◌then◌else◌}

-- How many connections are in use, between the two halves of a return, and in the queue; and how many
-- getters are about to look, have looked in vain, and wait.
pub record Lounge : Type 0 where
  pub in_use : ℕ
  pub marked : ℕ
  pub queue : ℕ
  pub looking : ℕ
  pub refused : ℕ
  pub waiting : ℕ

pub data Move : Type 0 where
  arrives looks waits times_out releases pushes : Move

-- A call begins.
unfoldable arrive : Lounge → Lounge
arrive s = record s { looking = s.looking + 1 }

-- `pop()`, and where it gives nothing `create_connection`, which, the pool being full, fails with
-- `MaxConnectionsReached`.
unfoldable look : Lounge → Lounge
look s =
    if ltb 0 s.looking
    then if ltb 0 s.queue
      then record s { looking = s.looking - 1; queue = s.queue - 1; in_use = s.in_use + 1 }
      else record s { looking = s.looking - 1; refused = s.refused + 1 }
    else s

-- `wait_timeout`, until it ends.
unfoldable wait : Lounge → Lounge
wait s =
    if ltb 0 s.refused then record s { refused = s.refused - 1; waiting = s.waiting + 1 } else s

-- A wait ends, by a wake-up or because its time is out.
unfoldable wake : Lounge → Lounge
wake s =
    if ltb 0 s.waiting then record s { waiting = s.waiting - 1; looking = s.looking + 1 } else s

-- `try_mark_idle` and `notify_one`.
unfoldable release : Lounge → Lounge
unfolding wake
release s =
    if ltb 0 s.in_use then wake (record s { in_use = s.in_use - 1; marked = s.marked + 1 }) else s

-- `self.idle_connections[idx].push`.
unfoldable push : Lounge → Lounge
push s = if ltb 0 s.marked then record s { marked = s.marked - 1; queue = s.queue + 1 } else s

unfoldable pub move : Move → Lounge → Lounge
unfolding arrive look wait wake release push
move arrives s = arrive s
move looks s = look s
move waits s = wait s
move times_out s = wake s
move releases s = release s
move pushes s = push s

unfoldable pub moves : List Move → Lounge → Lounge
moves [] s = s
moves (a ∷ rest) s = moves rest (move a s)

move_conserves :
    (a : Move) (s : Lounge)
    → let t = move a s in t.in_use + t.marked + t.queue ≡ s.in_use + s.marked + s.queue
unfolding move
move_conserves arrives s = refl
move_conserves looks s = ground arith
move_conserves waits s = ground arith
move_conserves times_out s = ground arith
move_conserves releases s = ground arith
move_conserves pushes s = ground arith

-- Whatever the getters and the returners do, on a full pool no connection is lost or made: those in
-- use, those on their way back and those in the queue are always as many.
moves_conserve :
    (schedule : List Move) (s : Lounge)
    → let t = moves schedule s in t.in_use + t.marked + t.queue ≡ s.in_use + s.marked + s.queue
unfolding moves
moves_conserve [] s = refl
moves_conserve (a ∷ rest) s = omega (arith, move_conserves a s, moves_conserve rest (move a s))

-- From every state in which a connection is in use, a getter waits and nothing is queued, a return can
-- leave as many getters waiting as before with the connection in the queue: the getter that is woken looks
-- before the push, and waits again.
pub return-leaves_waiting :
    (s : Lounge)
    → 0 < s.in_use
    → 0 < s.waiting
    → s.queue ≡ 0
    → moves (releases ∷ looks ∷ waits ∷ pushes ∷ []) s
      ≡ record s { in_use = s.in_use - 1; queue = 1 }
unfolding moves move
return-leaves_waiting s used waited empty = ground arith

-- A getter that waits while a connection is in the queue has it as soon as its wait ends.
timeout-gets :
    (s : Lounge)
    → 0 < s.waiting
    → 0 < s.queue
    → moves (times_out ∷ looks ∷ []) s
      ≡ record s { waiting = s.waiting - 1; queue = s.queue - 1; in_use = s.in_use + 1 }
unfolding moves move
timeout-gets s waited queued = ground arith

-- ===== src/Racing/Bucket.antt =====
-- src/pool/mod.rs: one bucket, its queue and its counter, with the steps of `try_push_idle`, of
-- `get_connection` and of `close` on them interleaved. A push counts first and then pushes; a pop pops
-- first and then counts; `close` pops without counting and sets the counter to zero.
use netconnpool_rust.Base.{
  ℕ, ◌+◌, ◌-◌, ◌^◌, ◌≤◌, ◌<◌, ◌≡◌, refl, arith, List, [], ◌∷◌, leb, ltb, if◌then◌else◌,
}
use netconnpool_rust.Pool.State.{fetch_sub}

-- The counter, the length of the queue, and how many threads are between the two halves of a push and
-- of a pop.
pub record Bucket : Type 0 where
  pub count : ℕ
  pub queue : ℕ
  pub pushing : ℕ
  pub popping : ℕ

pub data Act : Type 0 where
  reserves pushes pops counts drains resets : Act

-- The exchange of `try_push_idle` that succeeds, where the counter is below the limit.
unfoldable reserve : (max_idle : ℕ) → Bucket → Bucket
reserve max_idle b =
    if leb max_idle b.count then b else record b { count = b.count + 1; pushing = b.pushing + 1 }

-- `self.idle_connections[idx].push`.
unfoldable push : Bucket → Bucket
push b = if ltb 0 b.pushing then record b { queue = b.queue + 1; pushing = b.pushing - 1 } else b

-- `self.idle_connections[idx].pop()` of `get_connection`.
unfoldable pop : Bucket → Bucket
pop b = if ltb 0 b.queue then record b { queue = b.queue - 1; popping = b.popping + 1 } else b

-- `self.idle_counts[idx].fetch_sub(1)`.
unfoldable uncount : Bucket → Bucket
uncount b =
    if ltb 0 b.popping then record b { count = fetch_sub b.count; popping = b.popping - 1 } else b

-- `while let Some(conn) = idle.pop()` of `close`, one round.
unfoldable drain_one : Bucket → Bucket
drain_one b = record b { queue = b.queue - 1 }

-- `self.idle_counts[idx].store(0)` of `close`.
unfoldable reset : Bucket → Bucket
reset b = record b { count = 0 }

unfoldable pub act : (max_idle : ℕ) → Act → Bucket → Bucket
unfolding reserve push pop uncount drain_one reset
act max_idle reserves b = reserve max_idle b
act max_idle pushes b = push b
act max_idle pops b = pop b
act max_idle counts b = uncount b
act max_idle drains b = drain_one b
act max_idle resets b = reset b

unfoldable pub acts : (max_idle : ℕ) → List Act → Bucket → Bucket
acts max_idle [] b = b
acts max_idle (a ∷ rest) b = acts max_idle rest (act max_idle a b)

abbrev pub empty_bucket : Bucket
empty_bucket = record { count = 0; queue = 0; pushing = 0; popping = 0 }

-- Whether a step is one of an open pool.
abbrev pub IsOpen : Act → Type 0
IsOpen drains = ⊥
IsOpen resets = ⊥
IsOpen _ = Unit

abbrev pub AllOpen : List Act → Type 0
AllOpen [] = Unit
AllOpen (a ∷ rest) = IsOpen a × AllOpen rest

-- The counter counts what is queued and what is under way, and is within the limit.
abbrev pub IsCounted : ℕ → Bucket → Type 0
IsCounted max_idle b = (b.count ≡ b.queue + b.pushing + b.popping) × (b.count ≤ max_idle)

act-IsCounted :
    (max_idle : ℕ) (a : Act) (b : Bucket)
    → max_idle < 2 ^ 64
    → IsOpen a
    → IsCounted max_idle b
    → IsCounted max_idle (act max_idle a b)
unfolding act
act-IsCounted max_idle reserves b word o h = ground arith
act-IsCounted max_idle pushes b word o h = ground arith
act-IsCounted max_idle pops b word o h = ground arith
act-IsCounted max_idle counts b word o h = ground arith
act-IsCounted max_idle drains b word o h = absurd o
act-IsCounted max_idle resets b word o h = absurd o

run-IsCounted :
    (max_idle : ℕ) (schedule : List Act) (b : Bucket)
    → max_idle < 2 ^ 64
    → AllOpen schedule
    → IsCounted max_idle b
    → IsCounted max_idle (acts max_idle schedule b)
unfolding acts
run-IsCounted max_idle [] b word o h = h
run-IsCounted max_idle (a ∷ rest) b word o h =
    run-IsCounted max_idle rest (act max_idle a b) word o.1 (act-IsCounted max_idle a b word o.0 h)

-- Until `close`, however the halves of pushes and pops are interleaved, the counter of a bucket is the
-- length of its queue with the pushes and the pops that are under way, and is within
-- `max_idle_connections`; so it does not wrap around.
pub acts-IsCounted :
    (max_idle : ℕ) (schedule : List Act)
    → max_idle < 2 ^ 64
    → AllOpen schedule
    → let b = acts max_idle schedule empty_bucket in
      (b.count ≡ b.queue + b.pushing + b.popping) × (b.count ≤ max_idle)
acts-IsCounted max_idle schedule word o =
    run-IsCounted max_idle schedule empty_bucket word o (refl, omega arith)

-- Where a `get_connection` has popped a connection and not yet counted it when `close` sets the counter
-- to zero, the counter wraps around to 2 ^ 64 - 1, whatever is queued.
pub reset-wraps :
    (max_idle : ℕ) (b : Bucket)
    → 0 < b.popping
    → (acts max_idle (resets ∷ counts ∷ []) b).count ≡ 2 ^ 64 - 1
unfolding acts act
reset-wraps max_idle b under_way = ground arith

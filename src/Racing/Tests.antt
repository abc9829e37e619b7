-- ===== src/Racing/Tests.antt =====
-- The loops over `compare_exchange_weak` with two threads.
use netconnpool_rust.Base.{
  ℕ, ◌+◌, ◌≤◌, ◌≡◌, refl, Bool, true, false, List, [], ◌∷◌, arith, length, times, ◌==◌,
}
use netconnpool_rust.Base.Int.{ℤ, pos}
use netconnpool_rust.Connection.{next_id}
use netconnpool_rust.Racing.{run, start, stored, advance}
use netconnpool_rust.Racing.Wakeup
use netconnpool_rust.Racing.Bucket.{
  Bucket, Act, reserves, pushes, pops, counts, resets, acts, empty_bucket, acts-IsCounted,
  reset-wraps,
}
use netconnpool_rust.Racing.Serial.{Serial, stores}
use netconnpool_rust.Racing.Wakeup.{Lounge, looks, waits, releases, moves, return-leaves_waiting}
use netconnpool_rust.Racing.Uses.{
  same_ℤ, increment_attempt, push_attempt, id_attempt, safe_increment_i64-Serial,
  try_push_idle-Serial, next_id-distinct,
}

-- Thread 1 exchanges between the load and the exchange of thread 0, which tries again.
abbrev schedule : List (ℕ × Bool)
schedule =
    (0, false)
    ∷ (1, false)
    ∷ (1, false)
    ∷ (0, false)
    ∷ (0, false)
    ∷ (0, true)
    ∷ (0, false)
    ∷ (0, false)
    ∷ []

abbrev one_each : ℕ → ℤ
one_each i = pos 1

safe_increment_i64-Serial_example :
    let s = run same_ℤ (increment_attempt one_each) schedule (start (pos 5)) in
    (order : List ℕ) × Serial (increment_attempt one_each) (pos 5) order s.value
    × ((j : ℕ) → times j order ≡ stores (s.pc j))
safe_increment_i64-Serial_example = safe_increment_i64-Serial one_each (pos 5) schedule

try_push_idle-Serial_example :
    let s = run ◌==◌ (push_attempt 1) schedule (start 0) in
    (order : List ℕ) × (s.value ≡ 0 + length order)
    × (s.value ≤ 1)
    × ((j : ℕ) → times j order ≡ stores (s.pc j))
try_push_idle-Serial_example = try_push_idle-Serial 1 0 schedule (omega arith)

abbrev no_time : ℕ → ℕ
no_time i = 0

first_id : (run ◌==◌ (id_attempt no_time) schedule (start 0)).pc 1 ≡ stored 1
unfolding run advance id_attempt next_id
first_id = refl

next_id-distinct_example : ◌≡◌ {A = ℕ} 1 1
next_id-distinct_example = next_id-distinct no_time 0 schedule 1 1 1 (omega arith) first_id first_id

abbrev busy : List Act
busy = reserves ∷ pushes ∷ reserves ∷ pops ∷ []

acts-IsCounted_example :
    let b = acts 3 busy empty_bucket in (b.count ≡ b.queue + b.pushing + b.popping) × (b.count ≤ 3)
acts-IsCounted_example = acts-IsCounted 3 busy (omega arith) (tt, (tt, (tt, (tt, tt))))

abbrev popped : Bucket
popped = record { count = 1; queue = 0; pushing = 0; popping = 1 }

reset-wraps_example : (acts 3 (resets ∷ counts ∷ []) popped).count ≡ 18446744073709551615
reset-wraps_example = reset-wraps 3 popped (omega arith)

-- One connection, lent, and one getter that waits for it.
abbrev full : Lounge
full = record { in_use = 1; marked = 0; queue = 0; looking = 0; refused = 0; waiting = 1 }

return-leaves_waiting_example :
    moves (releases ∷ looks ∷ waits ∷ Wakeup.pushes ∷ []) full
    ≡ record full { in_use = 0; queue = 1 }
return-leaves_waiting_example = return-leaves_waiting full (omega arith) (omega arith) refl

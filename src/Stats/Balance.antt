-- ===== src/Stats/Balance.antt =====
-- src/stats.rs: the current number of connections against the totals, and the average time of a get.
use netconnpool_rust.Base.{
  ◌⊎◌, ℕ, suc, ◌+◌, ◌-◌, ◌*◌, ◌^◌, ◌≤◌, ◌<◌, ◌≡◌, refl, ap, List, [], ◌∷◌, arith, length,
}
use netconnpool_rust.Base.Int.{
  ℤ, pos, negsuc, ◌+ℤ◌, ◌≤ℤ◌, i64_max, i64_min, int_laws, pos_part, neg_part,
}
use netconnpool_rust.Net.{Moment}
use netconnpool_rust.Stats.{
  StatsInternal, new, safe_increment_i64, increment_total_connections_created,
  increment_total_connections_closed,
}
use netconnpool_rust.Stats.Snapshot.{get_stats}

pub data Change : Type 0 where
  created closed : Change

abbrev apply : Change → StatsInternal → StatsInternal
apply created s = increment_total_connections_created s
apply closed s = increment_total_connections_closed s

pub run : List Change → StatsInternal → StatsInternal
run [] s = s
run (c ∷ cs) s = run cs (apply c s)

record IsBalanced (n : ℕ) (s : StatsInternal) : Type 0 where
  balance : s.current_connections +ℤ s.total_connections_closed ≡ s.total_connections_created
  created_low : pos 0 ≤ℤ s.total_connections_created
  created_high : s.total_connections_created ≤ℤ pos n
  closed_low : pos 0 ≤ℤ s.total_connections_closed
  closed_high : s.total_connections_closed ≤ℤ pos n

increment_exact :
    (a d : ℤ) → i64_min ≤ℤ a +ℤ d → a +ℤ d ≤ℤ i64_max → safe_increment_i64 a d ≡ a +ℤ d
unfolding safe_increment_i64
increment_exact a d lo hi = ground arith

-- One more change, with the three counters as they are before and the sums that they take.
apply-IsBalanced :
    (c : Change) (n : ℕ) (s : StatsInternal)
    → n < 2 ^ 63 - 1
    → IsBalanced n s
    → IsBalanced (suc n) (apply c s)
unfolding increment_total_connections_created increment_total_connections_closed
apply-IsBalanced created n s h b =
    let bp = ap pos_part b.balance in
    let bn = ap neg_part b.balance in
    let up =
      increment_exact s.total_connections_created (pos 1) (omega (int_laws, bp, bn))
        (omega (int_laws, bp, bn)) in
    let more =
      increment_exact s.current_connections (pos 1) (omega (int_laws, bp, bn))
        (omega (int_laws, bp, bn)) in
    record {
      balance = rw (up, more) (omega (int_laws, bp, bn));
      created_low = rw up (omega (int_laws, bp, bn));
      created_high = rw up (omega (int_laws, bp, bn));
      closed_low = b.closed_low;
      closed_high = omega (int_laws, bp, bn);
    }
apply-IsBalanced closed n s h b =
    let bp = ap pos_part b.balance in
    let bn = ap neg_part b.balance in
    let up =
      increment_exact s.total_connections_closed (pos 1) (omega (int_laws, bp, bn))
        (omega (int_laws, bp, bn)) in
    let less =
      increment_exact s.current_connections (negsuc 0) (omega (int_laws, bp, bn))
        (omega (int_laws, bp, bn)) in
    record {
      balance = rw (up, less) (omega (int_laws, bp, bn));
      created_low = b.created_low;
      created_high = omega (int_laws, bp, bn);
      closed_low = rw up (omega (int_laws, bp, bn));
      closed_high = rw up (omega (int_laws, bp, bn));
    }

run-IsBalanced :
    (cs : List Change) (n : ℕ) (s : StatsInternal)
    → n + length cs < 2 ^ 63
    → IsBalanced n s
    → IsBalanced (n + length cs) (run cs s)
unfolding run
run-IsBalanced [] n s h b = record {
  balance = b.balance;
  created_low = b.created_low;
  created_high = omega arith;
  closed_low = b.closed_low;
  closed_high = omega arith;
}
run-IsBalanced (c ∷ cs) n s h b =
    let ih =
      run-IsBalanced cs (suc n) (apply c s) (omega arith)
        (apply-IsBalanced c n s (omega arith) b) in
    record {
      balance = ih.balance;
      created_low = ih.created_low;
      created_high = omega (arith, ih.created_high);
      closed_low = ih.closed_low;
      closed_high = omega (arith, ih.closed_high);
    }

new-IsBalanced : IsBalanced 0 new
unfolding new ◌+ℤ◌
new-IsBalanced = record {
  balance = refl;
  created_low = omega arith;
  created_high = omega arith;
  closed_low = omega arith;
  closed_high = omega arith;
}

-- However connections are created and closed, fewer than 2 ^ 63 times in all, the current number of
-- connections is the number of those created less the number of those closed.
pub run_balance :
    (cs : List Change)
    → length cs < 2 ^ 63
    → (run cs new).current_connections +ℤ (run cs new).total_connections_closed
      ≡ (run cs new).total_connections_created
run_balance cs h = (run-IsBalanced cs 0 new (omega arith) new-IsBalanced).balance

-- The average time of a snapshot is the total time by the number of successful gets, rounded down,
-- and zero where there are none; the snapshot has the counters as they are.
get_stats_average :
    (m : Moment) (s : StatsInternal)
    → let (after, snapshot) = get_stats m s in
      let gets = pos_part s.successful_gets in
      (((gets ≡ 0) × (snapshot.average_get_time ≡ 0))
        ⊎ ((snapshot.average_get_time * gets ≤ s.total_get_time)
            × (s.total_get_time < (snapshot.average_get_time + 1) * gets)))
      × (after.average_get_time ≡ snapshot.average_get_time)
      × (snapshot.current_connections ≡ s.current_connections)
      × (snapshot.total_get_time ≡ s.total_get_time)
unfolding get_stats
get_stats_average m s = (grind arith, refl, refl, refl)

-- ===== src/Racing/Uses.antt =====
-- What the three loops store, and what comes of it: src/stats.rs, src/pool/mod.rs, src/connection.rs.
use netconnpool_rust.Base.{
  ℕ, suc, ◌+◌, ◌≤◌, ◌<◌, ◌≡◌, ◌≢◌, refl, sym, ap, ◌∙◌, Bool, true, not, ◌&&◌, Option, none, some,
  List, [], ◌∷◌, arith, length, times, update, Bool-cases, inl, inr, ◌==◌, ==_iff, leb,
  if◌then◌else◌,
}
use netconnpool_rust.Base.Int.{ℤ, leb_ℤ, eq_of_parts}
use netconnpool_rust.Connection.{next_id}
use netconnpool_rust.Net.{u64_max}
use netconnpool_rust.Stats.{safe_increment_i64}
use netconnpool_rust.Racing.{Pc, starts, loaded, stored, left, Race, advance, run, start}
use netconnpool_rust.Racing.Serial.{Serial, none_yet, one_more, stores, run-Serial}

abbrev pub same_ℤ : ℤ → ℤ → Bool
same_ℤ a b = leb_ℤ a b && leb_ℤ b a

same_ℤ-sound : (a b : ℤ) → same_ℤ a b ≡ true → a ≡ b
same_ℤ-sound a b h = eq_of_parts a b (ground arith)

same_ℕ-sound : (a b : ℕ) → (a == b) ≡ true → a ≡ b
same_ℕ-sound a b = (==_iff a b).0

-- `safe_increment_i64`: thread `i` adds `delta i`.
unfoldable pub increment_attempt : (delta : ℕ → ℤ) → ℕ → ℤ → Option ℤ
increment_attempt delta i old = some (safe_increment_i64 old (delta i))

-- `try_push_idle` on the counter of one bucket.
unfoldable pub push_attempt : (max_idle : ℕ) → ℕ → ℕ → Option ℕ
push_attempt max_idle i current = if leb max_idle current then none else some (current + 1)

-- The loop of `Connection::new`; thread `i` reads the time `unix i`.
unfoldable pub id_attempt : (unix : ℕ → ℕ) → ℕ → ℕ → Option ℕ
id_attempt unix i old = some (next_id old (unix i))

-- However the loads and the exchanges of `safe_increment_i64` are interleaved on one counter, its value
-- is the one that the threads which are done would have made one after the other, in some order, each
-- in a single step: no increment is lost or counted twice.
pub safe_increment_i64-Serial :
    (delta : ℕ → ℤ) (v : ℤ) (schedule : List (ℕ × Bool))
    → let s = run same_ℤ (increment_attempt delta) schedule (start v) in
      (order : List ℕ) × Serial (increment_attempt delta) v order s.value
      × ((j : ℕ) → times j order ≡ stores (s.pc j))
safe_increment_i64-Serial delta v schedule =
    run-Serial same_ℤ (increment_attempt delta) same_ℤ-sound v schedule

push-Serial_lem :
    (max_idle v : ℕ) {order : List ℕ} {w : ℕ}
    → v ≤ max_idle
    → Serial (push_attempt max_idle) v order w
    → (w ≡ v + length order) × (w ≤ max_idle)
unfolding push_attempt
push-Serial_lem max_idle v h none_yet = (omega arith, h)
push-Serial_lem max_idle v h (one_more i serial stored_it) =
    let (risen, within) = push-Serial_lem max_idle v h serial in
    ground (arith, risen, within, stored_it)

-- However the loads and the exchanges of `try_push_idle` are interleaved on the counter of one bucket,
-- the counter has risen by one for each thread that goes on to push, and is within
-- `max_idle_connections`.
pub try_push_idle-Serial :
    (max_idle v : ℕ) (schedule : List (ℕ × Bool))
    → v ≤ max_idle
    → let s = run ◌==◌ (push_attempt max_idle) schedule (start v) in
      (order : List ℕ) × (s.value ≡ v + length order)
      × (s.value ≤ max_idle)
      × ((j : ℕ) → times j order ≡ stores (s.pc j))
try_push_idle-Serial max_idle v schedule h =
    let (order, serial, counted) =
      run-Serial ◌==◌ (push_attempt max_idle) same_ℕ-sound v schedule in
    let (risen, within) = push-Serial_lem max_idle v h serial in (order, risen, within, counted)

-- The ids that are given are above the first value, up to the present one, and no two are the same.
record IsFresh (v n : ℕ) (s : Race ℕ) : Type 0 where
  above : v ≤ s.value
  slow : s.value ≤ v + n
  given : (j a : ℕ) → s.pc j ≡ stored a → a ≤ s.value
  distinct : (j k a : ℕ) → s.pc j ≡ stored a → s.pc k ≡ stored a → j ≡ k

next_id_next : (old unix : ℕ) → old < u64_max → next_id old unix ≡ old + 1
unfolding next_id
next_id_next old unix h = ground arith

advance-IsFresh :
    (unix : ℕ → ℕ) (v n i : ℕ) (spurious : Bool) (s : Race ℕ)
    → v + n < u64_max
    → IsFresh v n s
    → IsFresh v (suc n) (advance ◌==◌ (id_attempt unix) i spurious s)
unfolding advance id_attempt
advance-IsFresh unix v n i spurious s room f = by_pc (s.pc i) refl
  where
    wait : IsFresh v (suc n) s
    wait = record {
      above = f.above;
      slow = omega (arith, f.slow);
      given = f.given;
      distinct = f.distinct;
    }

    kept :
        (at : Pc ℕ)
        → ((a : ℕ) → at ≢ stored a)
        → (j a : ℕ) → update s.pc i at j ≡ stored a
        → s.pc j ≡ stored a
    kept at no_id j a e = elim (Bool-cases (i == j)) [
      | inl own ↦ absurd (no_id a (simp own at e))
      | inr other ↦ simp other at e
    ]

    quiet :
        (at : Pc ℕ)
        → ((a : ℕ) → at ≢ stored a)
        → IsFresh v (suc n) (record s { pc = update s.pc i at })
    quiet at no_id = record {
      above = f.above;
      slow = omega (arith, f.slow);
      given = λ j a e. f.given j a (kept at no_id j a e);
      distinct = λ j k a e g. f.distinct j k a (kept at no_id j a e) (kept at no_id k a g);
    }

    -- After an exchange that succeeds, with the next number.
    giving :
        IsFresh v
          (suc n)
          (record { value = s.value + 1; pc = update s.pc i (stored (s.value + 1)) })
    giving = record {
      above = omega (arith, f.above);
      slow = omega (arith, f.slow);
      given = λ j a e. elim (Bool-cases (i == j)) [
        | inl own ↦
            let same : stored (s.value + 1) ≡ stored a = simp own at e in ground (arith, same)
        | inr other ↦ omega (arith, f.given j a (simp other at e))
      ];
      distinct = λ j k a e g. elim (Bool-cases (i == j)) [
        | inl own ↦ elim (Bool-cases (i == k)) [
          | inl also ↦ ground (arith, own, also)
          | inr other ↦ absurd (new_id k a (simp own at e) (simp other at g))
        ]
        | inr other ↦ elim (Bool-cases (i == k)) [
          | inl own ↦ absurd (new_id j a (simp own at g) (simp other at e))
          | inr also ↦ f.distinct j k a (simp other at e) (simp also at g)
        ]
      ];
    }
      where
        new_id : (k a : ℕ) → stored (s.value + 1) ≡ stored a → s.pc k ≢ stored a
        new_id k a e g =
            let low = f.given k a g in
            let same : s.value + 1 ≡ a = ground (arith, e) in omega (arith, low, same)

    by_pc :
        (at : Pc ℕ) → s.pc i ≡ at → IsFresh v (suc n) (advance ◌==◌ (id_attempt unix) i spurious s)
    by_pc starts e = simp (advance, e) (quiet (loaded s.value) (λ a. cc))
    by_pc (loaded old) e = elim (Bool-cases ((s.value == old) && not spurious)) [
      | inl agrees ↦
          let now : s.value ≡ old = ground arith in
          let id : next_id old (unix i) ≡ s.value + 1 =
            ap (λ o. next_id o (unix i)) (sym now)
            ∙ next_id_next s.value (unix i) (omega (arith, f.slow)) in
          simp (advance, e, agrees, id) giving
      | inr differs ↦ simp (advance, e, differs) (quiet starts (λ a. cc))
    ]
    by_pc (stored new) e = simp (advance, e) wait
    by_pc left e = simp (advance, e) wait

run-IsFresh :
    (unix : ℕ → ℕ) (v n : ℕ) (schedule : List (ℕ × Bool)) (s : Race ℕ)
    → v + n + length schedule < u64_max
    → IsFresh v n s
    → IsFresh v (n + length schedule) (run ◌==◌ (id_attempt unix) schedule s)
unfolding run
run-IsFresh unix v n [] s room f = record {
  above = f.above;
  slow = omega (arith, f.slow);
  given = f.given;
  distinct = f.distinct;
}
run-IsFresh unix v n ((i, spurious) ∷ schedule) s room f =
    let next_f = advance-IsFresh unix v n i spurious s (omega arith) f in
    let ih =
      run-IsFresh unix v (suc n) schedule (advance ◌==◌ (id_attempt unix) i spurious s)
        (omega arith) next_f in
    record {
      above = ih.above;
      slow = omega (arith, ih.slow);
      given = ih.given;
      distinct = ih.distinct;
    }

-- However the loads and the exchanges of several calls of `Connection::new` are interleaved, as long as
-- the generator does not reach its end, no two threads are given the same id.
pub next_id-distinct :
    (unix : ℕ → ℕ) (v : ℕ) (schedule : List (ℕ × Bool)) (j k id : ℕ)
    → v + length schedule < u64_max
    → (run ◌==◌ (id_attempt unix) schedule (start v)).pc j ≡ stored id
    → (run ◌==◌ (id_attempt unix) schedule (start v)).pc k ≡ stored id
    → j ≡ k
next_id-distinct unix v schedule j k id room mine yours =
    (run-IsFresh unix v 0 schedule (start v) (omega arith) (record {
      above = omega arith;
      slow = omega arith;
      given = λ i a e. cc;
      distinct = λ i l a e g. cc;
    })).distinct
      j k id mine yours

-- ===== src/Racing/Serial.antt =====
-- The threads of a race against threads whose updates are single steps.
use netconnpool_rust.Base.{
  ℕ, ◌≡◌, refl, ap, ◌∙◌, Bool, true, not, ◌&&◌, Option, some, List, [], ◌∷◌, arith, times, update,
  Bool-cases, Option-cases, inl, inr, ◌==◌,
}
use netconnpool_rust.Racing.{Pc, starts, loaded, stored, left, Race, advance, run, start}

-- The specification: the threads of `order`, the last one first, have updated the value one after the
-- other, each in a single step.
pub data Serial {A : Type 0} (attempt : ℕ → A → Option A) (v : A) : List ℕ → A → Type 0 where
  none_yet : Serial attempt v [] v
  one_more :
      {order : List ℕ} {w u : A} (i : ℕ)
      → Serial attempt v order w
      → attempt i w ≡ some u
      → Serial attempt v (i ∷ order) u

-- Whether a thread has stored its update.
abbrev pub stores : {A : Type 0} → Pc A → ℕ
stores (stored _) = 1
stores _ = 0

module _ {A : Type 0} (same : A → A → Bool) (attempt : ℕ → A → Option A)
    (same-sound : (a b : A) → same a b ≡ true → a ≡ b) where
  -- The value is what some order of the threads that have stored makes of the first one.
  abbrev IsSerial : A → Race A → Type 0
  IsSerial v s =
      (order : List ℕ) × Serial attempt v order s.value
      × ((j : ℕ) → times j order ≡ stores (s.pc j))

  advance-IsSerial :
      (v : A) (i : ℕ) (spurious : Bool) (s : Race A)
      → IsSerial v s
      → IsSerial v (advance same attempt i spurious s)
  unfolding advance
  advance-IsSerial v i spurious s (order, serial, counted) = by_pc (s.pc i) refl
    where
      quiet :
          (at then_at : Pc A)
          → s.pc i ≡ at
          → stores at ≡ 0
          → stores then_at ≡ 0
          → (j : ℕ) → times j order ≡ stores (update s.pc i then_at j)
      quiet at then_at e h k j = elim (Bool-cases (i == j)) [
        | inl own ↦ simp own (ground (arith, counted j, ap stores e))
        | inr other ↦ simp other (counted j)
      ]

      by_pc : (at : Pc A) → s.pc i ≡ at → IsSerial v (advance same attempt i spurious s)
      by_pc starts e =
          simp (advance, e) (order, serial, (λ j. quiet starts (loaded s.value) e refl refl j))
      by_pc (loaded old) e = elim (Option-cases (attempt i old)) [
        | inl none_new ↦
            simp (advance, e, none_new)
              (order, serial, (λ j. quiet (loaded old) left e refl refl j))
        | inr (new, some_new) ↦ elim (Bool-cases (same s.value old && not spurious)) [
          | inl agrees ↦
              let now : s.value ≡ old = same-sound s.value old (ground arith) in
              simp (advance, e, some_new, agrees)
                (
                  i ∷ order,
                  one_more i serial (ap (attempt i) now ∙ some_new),
                  (λ j. ground (arith, counted j, ap stores e)),
                )
          | inr differs ↦
              simp (advance, e, some_new, differs)
                (order, serial, (λ j. quiet (loaded old) starts e refl refl j))
        ]
      ]
      by_pc (stored new) e = simp (advance, e) (order, serial, counted)
      by_pc left e = simp (advance, e) (order, serial, counted)

  run-IsSerial :
      (v : A) (schedule : List (ℕ × Bool)) (s : Race A)
      → IsSerial v s
      → IsSerial v (run same attempt schedule s)
  unfolding run
  run-IsSerial v [] s h = h
  run-IsSerial v ((i, spurious) ∷ schedule) s h =
      run-IsSerial v schedule (advance same attempt i spurious s)
        (advance-IsSerial v i spurious s h)

  -- However the steps of the threads are interleaved, the value is the one that the threads which have
  -- stored would have made one after the other, in some order, each in a single step; each of them
  -- stands once in that order, and the others do not.
  pub run-Serial :
      (v : A) (schedule : List (ℕ × Bool))
      → let s = run same attempt schedule (start v) in
        (order : List ℕ) × Serial attempt v order s.value
        × ((j : ℕ) → times j order ≡ stores (s.pc j))
  run-Serial v schedule = run-IsSerial v schedule (start v) ([], none_yet, (λ j. refl))

-- ===== src/Racing.antt =====
-- The loops over `compare_exchange_weak`, `safe_increment_i64` of src/stats.rs, `try_push_idle` of
-- src/pool/mod.rs and the generator of ids in `Connection::new` of src/connection.rs, with any number
-- of threads on one atomic: each load and each exchange is a step of its own, and an exchange may fail
-- for no reason.
pub mod Serial
pub mod Uses
pub mod Bucket
pub mod Wakeup
pub mod Tests
use netconnpool_rust.Base.{
  ℕ, Bool, true, false, not, ◌&&◌, Option, none, some, List, [], ◌∷◌, update, if◌then◌else◌,
}

-- Where a thread is in its loop: before the load, between the load and the exchange, after an exchange
-- that succeeded, and out of the loop without one.
pub data Pc (A : Type 0) : Type 0 where
  starts : Pc A
  loaded : A → Pc A
  stored : A → Pc A
  left : Pc A

pub record Race (A : Type 0) : Type 0 where
  pub value : A
  pub pc : ℕ → Pc A

-- `same` compares two values, and `attempt i old` is what thread `i` wants to store in place of `old`,
-- or `none` where it leaves the loop.
module _ {A : Type 0} (same : A → A → Bool) (attempt : ℕ → A → Option A) where
  set_pc : ℕ → Pc A → Race A → Race A
  set_pc i at s = record s { pc = update s.pc i at }

  -- `compare_exchange_weak(old, new)`; `spurious` says that it fails although the values agree.
  exchange : ℕ → (spurious : Bool) → (old new : A) → Race A → Race A
  unfolding set_pc
  exchange i spurious old new s =
      if same s.value old && not spurious
      then record { value = new; pc = update s.pc i (stored new) }
      else set_pc i starts s

  -- The next step of thread `i`.
  unfoldable pub advance : ℕ → (spurious : Bool) → Race A → Race A
  unfolding exchange set_pc
  advance i spurious s = elim (s.pc i) [
    | starts ↦ set_pc i (loaded s.value) s
    | loaded old ↦ elim (attempt i old) [
      | none ↦ set_pc i left s
      | some new ↦ exchange i spurious old new s
    ]
    | stored new ↦ s
    | left ↦ s
  ]

  -- The steps of a schedule, the first in the list first.
  unfoldable pub run : List (ℕ × Bool) → Race A → Race A
  run [] s = s
  run ((i, spurious) ∷ schedule) s = run schedule (advance i spurious s)

abbrev pub start : {A : Type 0} → A → Race A
start value = record { value = value; pc = λ i. starts }

-- ===== src/Base/Results.antt =====
-- `std::result::Result`, with `?` as the bind of a `do` block.

pub data Outcome (A : Type 0) (E : Type 0) : Type 0 where
  ok : A → Outcome A E
  err : E → Outcome A E

module _ {A B E : Type 0} where
  infixl 5 ◌>>=◌ ◌>>◌
  abbrev pub ◌>>=◌ : Outcome A E → (A → Outcome B E) → Outcome B E
  ok a >>= f = f a
  err e >>= f = err e

  abbrev pub ◌>>◌ : Outcome A E → Outcome B E → Outcome B E
  m >> k = m >>= λ _. k

-- `Result::map_err`.
abbrev pub map_err : {A E F : Type 0} → (E → F) → Outcome A E → Outcome A F
map_err f (ok a) = ok a
map_err f (err e) = err (f e)

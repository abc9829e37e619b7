-- ===== src/Pool/Lending/Holding.antt =====
-- src/pool/mod.rs: the connections in use and those who hold them, from step to step.
use netconnpool_rust.Base.{
  ℕ, ◌≤◌, ◌<◌, ◌≡◌, refl, sym, subst, ◌∙◌, inl, inr, Bool, true, false, Option, none, some, List,
  arith, times, remove_one, times-remove_one, ok, err, Bool-cases, ◌==◌,
}
use netconnpool_rust.Errors.{Result}
use netconnpool_rust.SegQueue.{SegQueue}
use netconnpool_rust.Pool.State.{PoolInner}
use netconnpool_rust.Pool.Get.{Round, done, waits}
use netconnpool_rust.Pool.Owners.{handed, made}
use netconnpool_rust.Pool.Owners.Moving.{IsOwned}
use netconnpool_rust.Pool.Settles.{IsSettled, Settles}
use netconnpool_rust.Pool.Settles.Lending.{given, Lends, Makes}
use netconnpool_rust.Pool.Settles.Round.{IsCalm}
use netconnpool_rust.Pool.Lending.{Lending, mark, with_pool, got}

mark-keeps : (given : Option ℕ) (lent : ℕ → Bool) (s : ℕ) → lent s ≡ true → mark given lent s ≡ true
mark-keeps none lent s e = e
mark-keeps (some r) lent s e = ground (arith, e)

mark-marks :
    (given : Option ℕ) (lent : ℕ → Bool) (s : ℕ) → given ≡ some s → mark given lent s ≡ true
mark-marks none lent s e = cc
mark-marks (some r) lent s e = ground (arith, e)

module _ {Queue : Type 0} ⦃sq : SegQueue ℕ Queue⦄ where
  -- What is in use has been lent, and is held by its borrower.
  pub record IsLent (u : Lending Queue) : Type 0 where
    pub owned : IsOwned u.world
    pub settled : IsSettled u.world.pool
    pub handled :
        (s : ℕ)
        → (u.world.pool.store s).in_use ≡ true
        → (u.lent s ≡ true) × (0 < times s u.world.held)

  pub IsLent-IsCalm : (u : Lending Queue) → IsLent u → IsCalm u.world.pool
  IsLent-IsCalm u o s stands = elim (Bool-cases (u.world.pool.store s).in_use) [
    | inl used ↦ absurd (omega (arith, o.owned.once s, (o.handled s used).1, stands))
    | inr idle ↦ (idle, grind (arith, o.owned.fresh s))
  ]

  pub IsLent-idle :
      (u : Lending Queue) (r : ℕ)
      → IsLent u
      → u.lent r ≡ false
      → (u.world.pool.store r).in_use ≡ false
  IsLent-idle u r o free = elim (Bool-cases (u.world.pool.store r).in_use) [
    | inl used ↦ cc ((o.handled r used).0, free)
    | inr idle ↦ idle
  ]

  pub settled-IsLent :
      (u : Lending Queue) (q : PoolInner Queue)
      → Settles u.world.pool q
      → IsOwned (with_pool u q).world
      → IsLent u
      → IsLent (with_pool u q)
  settled-IsLent u q h owned o = record {
    owned = owned;
    settled = h.settled o.settled;
    handled = λ s e. o.handled s (h.calms s e);
  }

  -- What a pass hands over.
  handed-facts :
      (after : PoolInner Queue × Round) (held : List ℕ) (s : ℕ)
      → ((handed after held).pool ≡ after.0)
        × (times s held ≤ times s (handed after held).held)
        × (given after.1 ≡ some s → 0 < times s (handed after held).held)
  handed-facts (q, done (ok h)) held s = (refl, ground arith, λ e. ground (arith, e))
  handed-facts (q, done (err x)) held s = (refl, omega arith, λ e. cc)
  handed-facts (q, waits) held s = (refl, omega arith, λ e. cc)

  pub got-IsLent :
      (u : Lending Queue) (after : PoolInner Queue × Round)
      → Lends u.world.pool after.0 (given after.1)
      → IsOwned (handed after u.world.held)
      → IsLent u
      → IsLent (got u after)
  got-IsLent u after h owned o =
      let pool = (handed-facts after u.world.held 0).0 in
      record {
        owned = owned;
        settled = subst IsSettled (sym pool) (h.settled o.settled);
        handled = λ s e.
            let (_, kept, handed_over) = handed-facts after u.world.held s in
            elim (h.wakes s (subst (λ p. (p.store s).in_use ≡ true) pool e)) [
              | inl was ↦
                  let (lent, held) = o.handled s was in
                  (mark-keeps (given after.1) u.lent s lent, omega (arith, kept, held))
              | inr own ↦ (mark-marks (given after.1) u.lent s own, handed_over own)
            ];
      }

  made-facts :
      (after : PoolInner Queue × Result ℕ) (held : List ℕ) (s : ℕ)
      → ((made after held).pool ≡ after.0) × (times s held ≤ times s (made after held).held)
  made-facts (q, ok r) held s = (refl, ground arith)
  made-facts (q, err x) held s = (refl, omega arith)

  pub made-IsLent :
      (u : Lending Queue) (after : PoolInner Queue × Result ℕ)
      → Makes u.world.pool after.0 after.1
      → IsOwned (made after u.world.held)
      → IsLent u
      → IsLent (record { world = made after u.world.held; lent = u.lent })
  made-IsLent u after h owned o =
      let pool = (made-facts after u.world.held 0).0 in
      record {
        owned = owned;
        settled = subst IsSettled (sym pool) (h.settles.settled o.settled);
        handled = λ s e.
            let kept = (made-facts after u.world.held s).1 in
            let (lent, held) =
              o.handled s (h.settles.calms s (subst (λ p. (p.store s).in_use ≡ true) pool e)) in
            (lent, omega (arith, kept, held));
      }

  -- After a connection is given back that is idle then.
  pub given_back :
      (u : Lending Queue) (q : PoolInner Queue) (r : ℕ) (lent : ℕ → Bool)
      → Settles u.world.pool q
      → 0 < times r u.world.held
      → ((s : ℕ) → (q.store s).in_use ≡ true → ((r == s) ≡ false) × (lent s ≡ u.lent s))
      → IsOwned (record { pool = q; held = remove_one r u.world.held })
      → IsLent u
      → IsLent
          (record { world = record { pool = q; held = remove_one r u.world.held }; lent = lent })
  given_back u q r lent h has other owned o = record {
    owned = owned;
    settled = h.settled o.settled;
    handled = λ s e.
        let (was_lent, held) = o.handled s (h.calms s e) in
        let (differs, same) = other s e in
        (same ∙ was_lent, ground (arith, times-remove_one r s u.world.held has, differs, held));
  }

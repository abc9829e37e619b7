-- ===== src/Pool/Accounted/Reached.antt =====
-- src/pool/mod.rs: the connections that a pool has made since `Pool::new`, open or closed.
use netconnpool_rust.Base.{
  ℕ, ◌+◌, ◌≤◌, ◌<◌, ◌≡◌, refl, sym, subst, ap, ◌∙◌, true, some, [], arith, inl, inr, ◌⊎◌, ok,
  Outcome, Bool, ltb, times,
}
use netconnpool_rust.Config.{Config, apply_defaults}
use netconnpool_rust.Connection.{Connection}
use netconnpool_rust.Errors.{IoError}
use netconnpool_rust.Net.{Moment, u64_max}
use netconnpool_rust.SegQueue.{SegQueue}
use netconnpool_rust.Pool.State.{PoolInner}
use netconnpool_rust.Pool.Accounted.{IsAccounted, Accounts-Bends}
use netconnpool_rust.Pool.Accounted.Creating.{create_admit-Accounts, allocate-Accounts}
use netconnpool_rust.Pool.Bends.Steps.{Reach-Bends}
use netconnpool_rust.Pool.Bounds.{new-eq-ok}
use netconnpool_rust.Pool.Close.{close_rest}
use netconnpool_rust.Pool.Follows.{Follows, close_rest-Follows}
use netconnpool_rust.Pool.Map.{get_key}
use netconnpool_rust.Pool.Owners.{World, Reach, next, ends, elsewhere}
use netconnpool_rust.Pool.Owners.Exclusive.{new-Reach-close_rest}
use netconnpool_rust.Pool.Remove.{close_connection, release_active, remove_connection}
use netconnpool_rust.Pool.Threads.{init, new}

module _ {Queue : Type 0} where
  -- No place is taken.
  abbrev TakesNone : PoolInner Queue → PoolInner Queue → Type 0
  TakesNone p q = q.next_ref ≡ p.next_ref

  release_active-TakesNone :
      (m : Moment) (r : ℕ) (p : PoolInner Queue) → TakesNone p (release_active m r p)
  unfolding release_active
  release_active-TakesNone m r p = ground arith

  close_connection-TakesNone :
      (m : Moment) (r : ℕ) (p : PoolInner Queue) → TakesNone p (close_connection m r p)
  unfolding close_connection
  close_connection-TakesNone m r p = ground arith

  remove_connection-TakesNone :
      (m : Moment) (r : ℕ) (p : PoolInner Queue) → TakesNone p (remove_connection m r p)
  unfolding remove_connection
  remove_connection-TakesNone m r p =
      close_connection-TakesNone m r (release_active m r p) ∙ release_active-TakesNone m r p

  TakesNone-Follows : Follows TakesNone
  TakesNone-Follows = record {
    reflects = λ p. refl;
    chains = λ h k. k ∙ h;
    same = λ store next all active generator. next;
    evolves = λ r c p e mark. refl;
    releases = release_active-TakesNone;
    removes = remove_connection-TakesNone;
  }

  close_rest-next_ref : (m : Moment) (p : PoolInner Queue) → (close_rest m p).next_ref ≡ p.next_ref
  close_rest-next_ref m p = close_rest-Follows TakesNone-Follows m p

module _ {Queue : Type 0} ⦃sq : SegQueue ℕ Queue⦄ where
  init-IsAccounted :
      (store : ℕ → Connection) (next_ref generator : ℕ) (config : Config) (foreign : ℕ → Bool)
      → ((j : ℕ) → (store j).id ≤ generator)
      → IsAccounted {Queue = Queue} next_ref generator foreign
          (init store next_ref generator config)
  unfolding init
  init-IsAccounted store next_ref generator config foreign earlier = record {
    indexed = record { distinct = tt; agree = λ k r e. cc };
    starts = omega arith;
    generator = refl;
    older = λ s h. earlier s;
    untaken = λ s h. earlier s;
    named = λ s low h. absurd (omega (arith, low, h));
    placed = λ s low h own_place. absurd (omega (arith, low, h));
  }

  abbrev is_foreign : {w v : World Queue} → Reach w v → ℕ → Bool
  is_foreign reached s = ltb 0 (times s (elsewhere reached))

  new-Reach-IsAccounted :
      (store : ℕ → Connection) (next_ref generator : ℕ) (spawned : Outcome (Unit {0}) IoError)
      (config : Config) {p : PoolInner Queue} {w : World Queue}
      → ((j : ℕ) → (store j).id ≤ generator)
      → new store next_ref generator spawned config ≡ ok p
      → (reached : Reach (record { pool = p; held = [] }) w)
      → generator + w.pool.next_ref ≤ u64_max + next_ref
      → IsAccounted next_ref generator (is_foreign reached) w.pool
  new-Reach-IsAccounted store next_ref generator spawned config earlier made_it reached few =
      let is_init = new-eq-ok store next_ref generator spawned config made_it in
      let accounts =
        Reach-Bends (Accounts-Bends next_ref generator (is_foreign reached))
          (create_admit-Accounts next_ref generator (is_foreign reached)) (is_foreign reached)
          (allocate-Accounts next_ref generator (is_foreign reached)) reached
          (λ j h. ground (arith, h)) in
      accounts.accounted few (
        subst (IsAccounted next_ref generator (is_foreign reached)) (sym is_init) (
          init-IsAccounted store next_ref generator (apply_defaults config) (is_foreign reached)
            earlier))

  -- In every state that a new pool, made where no connection had a later id than the generator, comes to
  -- by whole passes of the handlers, whatever the rest of the process makes meanwhile, before the
  -- generator of the ids is at its end, and where no borrower calls `update_id`: the connections that
  -- were made since, by the pool or elsewhere, have the next ids, in the order in which they were made;
  -- and each that was not made elsewhere is closed, or is in the map under its id.
  pub new-Reach-accounted :
      (store : ℕ → Connection) (next_ref generator : ℕ) (spawned : Outcome (Unit {0}) IoError)
      (config : Config) {p : PoolInner Queue} {w : World Queue} (s : ℕ)
      → ((j : ℕ) → (store j).id ≤ generator)
      → new store next_ref generator spawned config ≡ ok p
      → (reached : Reach (record { pool = p; held = [] }) w)
      → generator + w.pool.next_ref ≤ u64_max + next_ref
      → next_ref ≤ s
      → s < w.pool.next_ref
      → let c = w.pool.store s in
        (c.id + next_ref ≡ generator + s + 1)
        × (times s (elsewhere reached) ≡ 0
            → (c.closed ≡ true) ⊎ (get_key w.pool.all_connections c.id ≡ some s))
  new-Reach-accounted store next_ref generator spawned config s earlier made_it reached few low h =
      let o =
        new-Reach-IsAccounted store next_ref generator spawned config earlier made_it reached few in
      (o.named s low h, λ own. o.placed s low h (ground (arith, own)))

  -- From every state that a new pool, made where no connection had a later id than the generator, comes
  -- to by whole passes of the handlers before the generator of the ids is at its end, where no borrower
  -- calls `update_id`, the last loop of `close` leaves every connection closed that was made since and
  -- not elsewhere.
  pub new-Reach-close_rest-closed :
      (store : ℕ → Connection) (next_ref generator : ℕ) (spawned : Outcome (Unit {0}) IoError)
      (config : Config) {p : PoolInner Queue} {w : World Queue} (m : Moment) (s : ℕ)
      → ((j : ℕ) → (store j).id ≤ generator)
      → new store next_ref generator spawned config ≡ ok p
      → (reached : Reach (record { pool = p; held = [] }) w)
      → generator + w.pool.next_ref ≤ u64_max + next_ref
      → next_ref ≤ s
      → s < w.pool.next_ref
      → times s (elsewhere reached) ≡ 0
      → ((close_rest m w.pool).store s).closed ≡ true
  new-Reach-close_rest-closed store next_ref generator spawned config {w = w} m s earlier made_it
        reached few low h own =
      let same = close_rest-next_ref m w.pool in
      let (_, placed) =
        new-Reach-accounted store next_ref generator spawned config s earlier made_it
          (next reached (ends m)) (omega (arith, few, same)) low (omega (arith, h, same)) in
      let emptied =
        new-Reach-close_rest store next_ref generator spawned config m made_it reached in
      elim (placed own) [
        | inl shut ↦ shut
        | inr found ↦
            let missing = ap (λ l. get_key l ((close_rest m w.pool).store s).id) emptied in
            cc (missing, found)
      ]

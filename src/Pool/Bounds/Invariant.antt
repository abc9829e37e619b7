-- ===== src/Pool/Bounds/Invariant.antt =====
-- The limits of a pool as an invariant, and the changes of the idle queues that keep it.
use netconnpool_rust.Base.{
  ℕ, ◌+◌, ◌^◌, ◌≤◌, ◌<◌, ◌≡◌, ap, ◌∙◌, some, [], ◌∷◌, arith, length, length-append,
}
use netconnpool_rust.SegQueue.{SegQueue, unpop}
use netconnpool_rust.Pool.State.{PoolInner}
use netconnpool_rust.Pool.Idle.{push_idle}
use netconnpool_rust.Pool.Get.{take_idle}
use netconnpool_rust.Pool.Frame.{Keeps}

module _ {Queue : Type 0} ⦃sq : SegQueue ℕ Queue⦄ where
  -- The map is within `max_connections`, where that is not zero; each idle counter is the length of
  -- its queue, and within `max_idle_connections`, which is a `usize`.
  pub record IsBounded (p : PoolInner Queue) : Type 0 where
    pub within : 0 < p.config.max_connections → length p.all_connections ≤ p.config.max_connections
    pub counted : (i : ℕ) → p.idle_counts i ≡ length (sq.to_list (p.idle_connections i))
    pub limited : (i : ℕ) → p.idle_counts i ≤ p.config.max_idle_connections
    pub word : p.config.max_idle_connections < 2 ^ 64

  pub Keeps-IsBounded : {p q : PoolInner Queue} → Keeps p q → IsBounded p → IsBounded q
  Keeps-IsBounded {p} {q} k b = record {
    within = λ h. grind (arith, k.config, k.fewer, b.within);
    counted = λ i. ground (arith, k.idle_counts, k.idle_connections, b.counted i);
    limited = λ i. ground (arith, k.idle_counts, k.config, b.limited i);
    word = ground (arith, k.config, b.word);
  }

  length-push : (q : Queue) (r : ℕ) → length (sq.to_list (sq.push q r)) ≡ length (sq.to_list q) + 1
  length-push q r = ap length (sq.to_list-push q r) ∙ length-append (sq.to_list q) (r ∷ [])

  pub push_idle-IsBounded :
      (r idx : ℕ) (p : PoolInner Queue)
      → p.idle_counts idx < p.config.max_idle_connections
      → IsBounded p
      → IsBounded (push_idle r idx p)
  push_idle-IsBounded r idx p room b = record {
    within = b.within;
    counted =
        λ i. ground (arith, length-push (p.idle_connections idx) r, b.counted i, b.counted idx);
    limited = λ i. ground (arith, b.limited i);
    word = b.word;
  }

  length-pop :
      (q : Queue) {r : ℕ} {rest : Queue}
      → sq.pop q ≡ some (r, rest)
      → length (sq.to_list q) ≡ length (sq.to_list rest) + 1
  length-pop q e = ap length (sq.to_list-pop q) ∙ ground (arith, ap (unpop sq.to_list) e)

  pub take_idle-IsBounded :
      (idx r : ℕ) (rest : Queue) (p : PoolInner Queue)
      → sq.pop (p.idle_connections idx) ≡ some (r, rest)
      → IsBounded p
      → IsBounded (take_idle idx r rest p)
  unfolding take_idle
  take_idle-IsBounded idx r rest p e b = record {
    within = b.within;
    counted = λ i. ground (
      arith,
      length-pop (p.idle_connections idx) e,
      b.counted i,
      b.counted idx,
      b.limited idx,
      b.word,
    );
    limited = λ i. ground (
      arith,
      length-pop (p.idle_connections idx) e,
      b.counted idx,
      b.limited i,
      b.limited idx,
      b.word,
    );
    word = b.word;
  }

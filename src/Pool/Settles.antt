-- ===== src/Pool/Settles.antt =====
-- src/pool/mod.rs: the counter of the active connections, beside the marks on the connections
-- themselves, through the handlers that lend nothing.
pub mod Lending
pub mod Round
use netconnpool_rust.Base.{
  ℕ, zero, suc, ◌+◌, ◌%◌, ◌^◌, ◌-◌, ◌≤◌, ◌<◌, ◌≡◌, refl, sym, subst, ap, ◌∙◌, Bool, true, false,
  arith, Bool-cases, inl, inr, ◌==◌, update, if◌then◌else◌,
}
use netconnpool_rust.Connection
use netconnpool_rust.Connection.{Connection}
use netconnpool_rust.Net.{Moment}
use netconnpool_rust.Stats.{StatsInternal}
use netconnpool_rust.Pool.State.{PoolInner, set_conn, count, fetch_sub}
use netconnpool_rust.Pool.Follows.{Follows}
use netconnpool_rust.Pool.Remove.{close_connection, release_active, remove_connection}

-- How many of the first `n` connections of the heap are in use.
unfoldable pub in_use_count : (n : ℕ) → (ℕ → Connection) → ℕ
in_use_count zero store = 0
in_use_count (suc n) store = in_use_count n store + (if (store n).in_use then 1 else 0)

pub in_use_count-same :
    (n : ℕ) (store new : ℕ → Connection)
    → ((s : ℕ) → s < n → (new s).in_use ≡ (store s).in_use)
    → in_use_count n new ≡ in_use_count n store
unfolding in_use_count
in_use_count-same zero store new same = refl
in_use_count-same (suc n) store new same =
    let ih = in_use_count-same n store new (λ s h. same s (omega (arith, h))) in
    let last = same n (omega arith) in ground (arith, ih, last)

pub in_use_count-none :
    (n : ℕ) (store : ℕ → Connection)
    → ((s : ℕ) → (store s).in_use ≡ false)
    → in_use_count n store ≡ 0
unfolding in_use_count
in_use_count-none zero store idle = refl
in_use_count-none (suc n) store idle = ground (arith, in_use_count-none n store idle, idle n)

pub in_use_count_next :
    (n : ℕ) (store : ℕ → Connection)
    → in_use_count (n + 1) store ≡ in_use_count n store + (if (store n).in_use then 1 else 0)
unfolding in_use_count
in_use_count_next n store =
    let one_more : n + 1 ≡ suc n = omega arith in ap (λ k. in_use_count k store) one_more

pub in_use_count-update :
    (n r : ℕ) (c : Connection) (store : ℕ → Connection)
    → r < n
    → in_use_count n (update store r c) + (if (store r).in_use then 1 else 0)
      ≡ in_use_count n store + (if c.in_use then 1 else 0)
unfolding in_use_count
in_use_count-update zero r c store h = absurd (omega (arith, h))
in_use_count-update (suc n) r c store h = elim (Bool-cases (r == n)) [
  | inl own ↦
      let before = in_use_count-same n store (update store r c) (λ s b. ground (arith, own, b)) in
      let here : r ≡ n = ground (arith, own) in
      let mark = ap {B = ℕ} (λ k. if (store k).in_use then 1 else 0) here in
      simp own (omega (arith, before, mark))
  | inr other ↦
      let before = in_use_count-update n r c store (ground (arith, h, other)) in
      simp other (omega (arith, before))
]

module _ {Queue : Type 0} where
  -- The counter of the active connections counts the connections in use, as a word of 64 bits, and
  -- only places that are taken are in use.
  pub record IsSettled (p : PoolInner Queue) : Type 0 where
    pub counted : p.active_count ≡ in_use_count p.next_ref p.store % 2 ^ 64
    pub placed : (s : ℕ) → (p.store s).in_use ≡ true → s < p.next_ref

  -- The counter stays right, and no connection comes into use.
  pub record Settles (p q : PoolInner Queue) : Type 0 where
    pub settled : IsSettled p → IsSettled q
    pub calms : (s : ℕ) → (q.store s).in_use ≡ true → (p.store s).in_use ≡ true
    pub grows : p.next_ref ≤ q.next_ref

  pub Settles-refl : (p : PoolInner Queue) → Settles p p
  Settles-refl p = record { settled = λ h. h; calms = λ s h. h; grows = omega arith }

  pub Settles-trans : {p q s : PoolInner Queue} → Settles p q → Settles q s → Settles p s
  Settles-trans h k = record {
    settled = λ o. k.settled (h.settled o);
    calms = λ s e. h.calms s (k.calms s e);
    grows = omega (arith, h.grows, k.grows);
  }

  pub marks-Settles :
      {p q : PoolInner Queue}
      → ((s : ℕ) → (q.store s).in_use ≡ (p.store s).in_use)
      → q.next_ref ≡ p.next_ref
      → q.active_count ≡ p.active_count
      → Settles p q
  marks-Settles {p} {q} same next active = record {
    settled = λ o. record {
      counted =
          active
          ∙ o.counted
          ∙ ap (λ n. n % 2 ^ 64)
              (sym (
                ap (λ n. in_use_count n q.store) next
                ∙ in_use_count-same p.next_ref p.store q.store (λ s h. same s)));
      placed = λ s e. omega (arith, next, o.placed s (sym (same s) ∙ e));
    };
    calms = λ s e. sym (same s) ∙ e;
    grows = omega (arith, next);
  }

  pub same-Settles :
      {p q : PoolInner Queue}
      → q.store ≡ p.store
      → q.next_ref ≡ p.next_ref
      → q.active_count ≡ p.active_count
      → Settles p q
  same-Settles store next active = marks-Settles (λ s. ap (λ f. (f s).in_use) store) next active

  pub set_conn-Settles :
      (r : ℕ) (c : Connection) (p : PoolInner Queue)
      → c.in_use ≡ (p.store r).in_use
      → Settles p (set_conn r c p)
  set_conn-Settles r c p same =
      marks-Settles
        (λ s. elim (Bool-cases (r == s)) [
          | inl own ↦
              let here : r ≡ s = ground (arith, own) in
              simp own (same ∙ ap (λ k. (p.store k).in_use) here)
          | inr other ↦ simp other refl
        ])
        refl refl

  pub count-Settles :
      (f : StatsInternal → StatsInternal) (p : PoolInner Queue) → Settles p (count f p)
  count-Settles f p = same-Settles refl refl refl

  -- `r` was in use and is not any more, and the counter is one less.
  pub idled-Settles :
      (r : ℕ) (c : Connection) (p q : PoolInner Queue)
      → (p.store r).in_use ≡ true
      → c.in_use ≡ false
      → q.store ≡ update p.store r c
      → q.next_ref ≡ p.next_ref
      → q.active_count ≡ fetch_sub p.active_count
      → Settles p q
  idled-Settles r c p q used idle store next active = record {
    settled = λ o.
        let changed = in_use_count-update p.next_ref r c p.store (o.placed r used) in
        record {
          counted =
              let same : in_use_count q.next_ref q.store
                  ≡ in_use_count p.next_ref (update p.store r c) =
                ap (λ n. in_use_count n q.store) next ∙ ap (in_use_count p.next_ref) store in
              let less : in_use_count p.next_ref (update p.store r c) + 1
                  ≡ in_use_count p.next_ref p.store =
                ground (arith, changed, used, idle) in
              omega (arith, same, less, active, o.counted);
          placed = λ s e. omega (arith, next, o.placed s (was s e));
        };
    calms = was;
    grows = omega (arith, next);
  }
    where
      was : (s : ℕ) → (q.store s).in_use ≡ true → (p.store s).in_use ≡ true
      was s e = elim (Bool-cases (r == s)) [
        | inl own ↦
            let here : r ≡ s = ground (arith, own) in ap (λ k. (p.store k).in_use) (sym here) ∙ used
        | inr other ↦
            let there : (update p.store r c s).in_use ≡ true =
              ap (λ f. (f s).in_use) (sym store) ∙ e in
            simp other at there
      ]

  pub close_connection-marks :
      (m : Moment) (r : ℕ) (p : PoolInner Queue)
      → let q = close_connection m r p in
        (q.store ≡ update p.store r (Connection.close m (p.store r)).0)
        × (q.next_ref ≡ p.next_ref)
        × (q.active_count ≡ p.active_count)
        × ((Connection.close m (p.store r)).0.in_use ≡ (p.store r).in_use)
  unfolding close_connection Connection.close
  close_connection-marks m r p = ground arith

  pub close_connection-Settles :
      (m : Moment) (r : ℕ) (p : PoolInner Queue) → Settles p (close_connection m r p)
  close_connection-Settles m r p =
      let (store, next, active, same) = close_connection-marks m r p in
      Settles-trans (set_conn-Settles r _ p same) (same-Settles store next active)

  pub release_active-marks :
      (m : Moment) (r : ℕ) (p : PoolInner Queue)
      → let q = release_active m r p in
        let c = (Connection.try_mark_idle m (p.store r)).0 in
        (q.store ≡ update p.store r c)
        × (q.next_ref ≡ p.next_ref)
        × (c.in_use ≡ false)
        × (q.active_count
            ≡ (if (p.store r).in_use then fetch_sub p.active_count else p.active_count))
  unfolding release_active Connection.try_mark_idle
  release_active-marks m r p = ground arith

  pub release_active-Settles :
      (m : Moment) (r : ℕ) (p : PoolInner Queue) → Settles p (release_active m r p)
  release_active-Settles m r p =
      let (store, next, idle, active) = release_active-marks m r p in
      elim (Bool-cases (p.store r).in_use) [
        | inl used ↦ idled-Settles r _ p _ used idle store next (ground (arith, active, used))
        | inr unused ↦
            Settles-trans (set_conn-Settles r _ p (idle ∙ sym unused))
              (same-Settles store next (ground (arith, active, unused)))
      ]

  pub release_active-idle :
      (m : Moment) (r : ℕ) (p : PoolInner Queue) → ((release_active m r p).store r).in_use ≡ false
  release_active-idle m r p =
      let (store, next, idle, active) = release_active-marks m r p in
      ap (λ f. (f r).in_use) store ∙ ground (arith, idle)

  pub remove_connection-Settles :
      (m : Moment) (r : ℕ) (p : PoolInner Queue) → Settles p (remove_connection m r p)
  unfolding remove_connection
  remove_connection-Settles m r p =
      let released = release_active m r p in
      Settles-trans (release_active-Settles m r p)
        (Settles-trans (close_connection-Settles m r released) (same-Settles refl refl refl))

  pub Settles-Follows : Follows {Queue = Queue} Settles
  Settles-Follows = record {
    reflects = Settles-refl;
    chains = Settles-trans;
    same = λ store next all active generator. same-Settles store next active;
    evolves = λ r c p e mark. set_conn-Settles r c p mark;
    releases = release_active-Settles;
    removes = remove_connection-Settles;
  }

  -- What is not in use stays so.
  pub Settles-idle :
      {p q : PoolInner Queue} (s : ℕ)
      → Settles p q
      → (p.store s).in_use ≡ false
      → (q.store s).in_use ≡ false
  Settles-idle s h e = grind (arith, h.calms s)

-- ===== src/Pool/Progress.antt =====
-- src/pool/mod.rs: when `create_connection` and a pass of `get_connection` succeed.
use netconnpool_rust.Base.{
  ℕ, ◌+◌, ◌-◌, ◌^◌, ◌≤◌, ◌<◌, ◌≡◌, refl, ap, ◌∙◌, false, Option, none, some, List, [], ◌∷◌, arith,
  length, Bool-cases, Option-cases, inl, inr, ok,
}
use netconnpool_rust.Config.{ConnectionType}
use netconnpool_rust.Connection
use netconnpool_rust.Connection.{Connection}
use netconnpool_rust.IpVersion.{IpVersion}
use netconnpool_rust.Net.{Moment}
use netconnpool_rust.Protocol.{Protocol}
use netconnpool_rust.SegQueue.{SegQueue}
use netconnpool_rust.Pool.State.{PoolInner, get_target_buckets, is_connection_valid_for_borrow}
use netconnpool_rust.Pool.Idle.{PooledConnection}
use netconnpool_rust.Pool.Create.{
  create_connection, create_dialled, create_admit, create_finish, create_check, insert_found,
  allocate, dial, is_full, is_wrong_protocol, is_wrong_version,
}
use netconnpool_rust.Pool.Remove.{remove_connection}
use netconnpool_rust.Pool.Get.{get_round, borrow_idle, after_borrow, after_create, done, take_idle}
use netconnpool_rust.Pool.Frame.{remove_connection-Keeps}
use netconnpool_rust.Pool.Probing.{choose_id-finds}

new-id :
    (m : Moment) (g : ℕ) (t : ConnectionType)
    → (0 < (Connection.new m g t none).id) × ((Connection.new m g t none).id < 2 ^ 64)
unfolding Connection.new Connection.next_id
new-id m g t = ground arith

-- The connection that `t` becomes is of the kind that is asked for.
abbrev pub IsRight : Moment → Option Protocol → Option IpVersion → ConnectionType → Type 0
IsRight m protocol ip_version t =
    (is_wrong_protocol protocol (Connection.new m 0 t none).protocol ≡ false)
    × (is_wrong_version ip_version (Connection.new m 0 t none).ip_version ≡ false)

same_kind :
    (m : Moment) (g : ℕ) (t : ConnectionType)
    → ((Connection.new m g t none).protocol ≡ (Connection.new m 0 t none).protocol)
      × ((Connection.new m g t none).ip_version ≡ (Connection.new m 0 t none).ip_version)
unfolding Connection.new
same_kind m g t = (refl, refl)

module _ {Queue : Type 0} where
  allocate-new :
      (m : Moment) (t : ConnectionType) (p : PoolInner Queue)
      → ((allocate m t p).store p.next_ref ≡ Connection.new m p.generator t none)
        × ((allocate m t p).all_connections ≡ p.all_connections)
        × ((allocate m t p).config ≡ p.config)
  unfolding allocate
  allocate-new m t p = (ground arith, refl, refl)

  create_finish-succeeds :
      (m : Moment) (r : ℕ) (p : PoolInner Queue)
      → is_full p.config (length p.all_connections) ≡ false
      → 0 < (p.store r).id
      → (p.store r).id < 2 ^ 64
      → length p.all_connections + 3 < 2 ^ 64
      → (create_finish m r p).1 ≡ ok r
  unfolding create_finish insert_found
  create_finish-succeeds m r p room some_id low few =
      let (id, found) = choose_id-finds (p.store r).id p.all_connections some_id low few in
      ground (arith, found, room)

  create_admit-succeeds :
      (m : Moment) (protocol : Option Protocol) (ip_version : Option IpVersion) (t : ConnectionType)
      (p : PoolInner Queue)
      → IsRight m protocol ip_version t
      → is_full p.config (length p.all_connections) ≡ false
      → length p.all_connections + 3 < 2 ^ 64
      → (create_admit m protocol ip_version t p).1 ≡ ok p.next_ref
  unfolding create_admit
  create_admit-succeeds m protocol ip_version t p right room few =
      let a = allocate m t p in
      let (new, all, config) = allocate-new m t p in
      let (same, like) = same_kind m p.generator t in
      let right_protocol : is_wrong_protocol protocol (a.store p.next_ref).protocol ≡ false =
        ap (λ c. is_wrong_protocol protocol c.protocol) new
        ∙ ap (is_wrong_protocol protocol) same
        ∙ right.0 in
      let right_version : is_wrong_version ip_version (a.store p.next_ref).ip_version ≡ false =
        ap (λ c. is_wrong_version ip_version c.ip_version) new
        ∙ ap (is_wrong_version ip_version) like
        ∙ right.1 in
      let ids = new-id m p.generator t in
      let id = ap (λ c. c.id) new in
      let finished =
        create_finish-succeeds m p.next_ref a (rw (config, all) room) (rw new ids.0) (rw new ids.1)
          (rw all few) in
      ground (arith, right_protocol, right_version, finished)

  -- `create_connection` succeeds, with the next free place, where the map is not full and the dialling
  -- gives a connection of the kind that is asked for.
  pub create_connection-succeeds :
      (m : Moment) (protocol : Option Protocol) (ip_version : Option IpVersion) (t : ConnectionType)
      (p : PoolInner Queue)
      → dial m protocol p.config ≡ ok t
      → IsRight m protocol ip_version t
      → is_full p.config (length p.all_connections) ≡ false
      → length p.all_connections + 3 < 2 ^ 64
      → (create_connection m protocol ip_version p).1 ≡ ok p.next_ref
  unfolding create_connection create_check create_dialled
  create_connection-succeeds m protocol ip_version t p dialled right room few =
      let admitted = create_admit-succeeds m protocol ip_version t p right room few in
      ground (arith, dialled, room, admitted)

module _ {Queue : Type 0} ⦃sq : SegQueue ℕ Queue⦄ where
  take_idle-same :
      (idx r : ℕ) (rest : Queue) (p : PoolInner Queue)
      → ((take_idle idx r rest p).config ≡ p.config)
        × ((take_idle idx r rest p).all_connections ≡ p.all_connections)
  unfolding take_idle
  take_idle-same idx r rest p = (refl, refl)

  borrow_idle-config :
      (m : Moment) (start : ℕ) (indices : List ℕ) (p : PoolInner Queue)
      → (borrow_idle m start indices p).1 ≡ none
      → ((borrow_idle m start indices p).0.config ≡ p.config)
        × (length (borrow_idle m start indices p).0.all_connections ≤ length p.all_connections)
  unfolding borrow_idle
  borrow_idle-config m start [] p h = (refl, omega arith)
  borrow_idle-config m start (idx ∷ indices) p h =
      elim (Option-cases (sq.pop (p.idle_connections idx))) [
        | inl e ↦
            simp (e, borrow_idle)
              (borrow_idle-config m start indices p (simp (e, borrow_idle) at h))
        | inr ((r, rest), e) ↦
            let taken = take_idle idx r rest p in
            let (config, all) = take_idle-same idx r rest p in
            let kept = remove_connection-Keeps m r taken in
            elim (Bool-cases (is_connection_valid_for_borrow m (taken.store r) taken)) [
              | inl f ↦ cc (simp (e, borrow_idle, f) at h)
              | inr f ↦
                  let (same, fewer) =
                    borrow_idle-config m start indices (remove_connection m r taken)
                      (simp (e, borrow_idle, f) at h) in
                  simp (e, borrow_idle, f)
                    (same ∙ kept.config ∙ config, omega (arith, fewer, kept.fewer, ap length all))
            ]
      ]

  after_borrow-found :
      (m : Moment) (start timeout : ℕ) (protocol : Option Protocol) (ip_version : Option IpVersion)
      (p : PoolInner Queue) (found : Option ℕ) (t : ConnectionType)
      → (found ≡ none
          → (dial m protocol p.config ≡ ok t)
            × (is_full p.config (length p.all_connections) ≡ false)
            × (length p.all_connections + 3 < 2 ^ 64))
      → IsRight m protocol ip_version t
      → (h : PooledConnection) × ((after_borrow m start timeout protocol ip_version (p, found)).1
          ≡ done (ok h))
  unfolding after_borrow after_create
  after_borrow-found m start timeout protocol ip_version p (some r) t room right =
      (record { conn = r }, refl)
  after_borrow-found m start timeout protocol ip_version p none t room right =
      let (dialled, place, few) = room refl in
      let made = create_connection-succeeds m protocol ip_version t p dialled right place few in
      (record { conn = p.next_ref }, ground (arith, made))

  -- A pass of `get_connection` in time, on an open pool, returns a connection where the map is not full
  -- and the dialling gives a connection of the kind that is asked for, whatever stands in the queues.
  pub get_round-succeeds :
      (m : Moment) (start timeout : ℕ) (protocol : Option Protocol) (ip_version : Option IpVersion)
      (p : PoolInner Queue) (t : ConnectionType)
      → p.closed ≡ false
      → m.instant - start ≤ timeout
      → dial m protocol p.config ≡ ok t
      → IsRight m protocol ip_version t
      → is_full p.config (length p.all_connections) ≡ false
      → length p.all_connections + 3 < 2 ^ 64
      → (h : PooledConnection) × ((get_round m start timeout protocol ip_version p).1 ≡ done (ok h))
  unfolding get_round
  get_round-succeeds m start timeout protocol ip_version p t opened in_time dialled right room few =
      let indices = get_target_buckets protocol ip_version in
      let borrowed = borrow_idle m start indices p in
      let (h, found) =
        after_borrow-found m start timeout protocol ip_version borrowed.0 borrowed.1 t
          (λ e.
            let (config, fewer) = borrow_idle-config m start indices p e in
            (rw config dialled, rw config (ground (arith, fewer, room)), omega (arith, fewer, few)))
          right in
      (h, ground (arith, found))

-- ===== src/Pool/Probing.antt =====
-- src/pool/mod.rs: the search of `create_connection` for an id that is not in the map.
use netconnpool_rust.Base.{
  ℕ, zero, suc, ◌+◌, ◌-◌, ◌^◌, ◌<◌, ◌≡◌, ◌≢◌, refl, sym, subst, ◌∙◌, true, false, List, [], ◌∷◌,
  arith, length, Bool-cases, inl, inr, ltb, if◌then◌else◌,
}
use netconnpool_rust.Pool.State.{contains_key, remove_key}
use netconnpool_rust.Pool.Create.{free, next_key, probe, choose_id}
use netconnpool_rust.Pool.Frame.{length-remove_key-le}
use netconnpool_rust.Pool.Map.{contains_key-remove_key}

length-remove_key-lt :
    (k : ℕ) (l : List (ℕ × ℕ)) → contains_key l k ≡ true → length (remove_key k l) < length l
length-remove_key-lt k [] h = cc
length-remove_key-lt k ((j, v) ∷ l) h =
    let less = length-remove_key-le k l in ground (arith, length-remove_key-lt k l)

-- The key that the search looks at after `j` steps from `own`.
unfoldable key_at : ℕ → ℕ → ℕ
key_at own j = if ltb (own + j) (2 ^ 64) then own + j else own + j - (2 ^ 64 - 1)

next_key_at :
    (own j : ℕ)
    → 0 < own
    → own < 2 ^ 64
    → j + 1 < 2 ^ 64 - 1
    → next_key (key_at own j) ≡ key_at own (j + 1)
unfolding next_key key_at
next_key_at own j h k room = ground arith

key_at-distinct :
    (own i j : ℕ) → 0 < own → own < 2 ^ 64 → i < j → j < 2 ^ 64 - 1 → key_at own i ≢ key_at own j
unfolding key_at
key_at-distinct own i j h k less room e = ground arith

key_at_start : (own : ℕ) → own < 2 ^ 64 → key_at own 0 ≡ own
unfolding key_at
key_at_start own h = ground arith

contains_key_other :
    (x y : ℕ) (l : List (ℕ × ℕ)) → x ≢ y → contains_key (remove_key x l) y ≡ contains_key l y
contains_key_other x y l other = ground (arith, contains_key-remove_key x y l)

probe_absent :
    (fuel own k x : ℕ) (entries : List (ℕ × ℕ))
    → next_key k ≡ x
    → contains_key entries x ≡ false
    → probe (suc fuel) own k entries ≡ free x
unfolding probe
probe_absent fuel own k x entries e absent = ground arith

probe_taken :
    (fuel own k x : ℕ) (entries : List (ℕ × ℕ))
    → next_key k ≡ x
    → contains_key entries x ≡ true
    → x ≢ own
    → probe (suc fuel) own k entries ≡ probe fuel own x entries
unfolding probe
probe_taken fuel own k x entries e taken other = ground arith

-- The keys ahead stand among those of `remaining`, if they stand in the map.
probe-finds :
    (fuel own j : ℕ) (entries remaining : List (ℕ × ℕ))
    → 0 < own
    → own < 2 ^ 64
    → j + fuel < 2 ^ 64 - 1
    → ((i : ℕ)
        → j < i
        → i < 2 ^ 64 - 1
        → contains_key entries (key_at own i) ≡ contains_key remaining (key_at own i))
    → length remaining < fuel
    → (id : ℕ) × (probe fuel own (key_at own j) entries ≡ free id)
unfolding probe
probe-finds zero own j entries remaining h k room ahead few = absurd (omega arith)
probe-finds (suc fuel) own j entries remaining h k room ahead few =
    let x = key_at own (j + 1) in
    let looked : next_key (key_at own j) ≡ x = next_key_at own j h k (omega arith) in
    elim (Bool-cases (contains_key entries x)) [
      | inr absent ↦ (x, probe_absent fuel own (key_at own j) x entries looked absent)
      | inl taken ↦
          let same = ahead (j + 1) (omega arith) (omega arith) in
          let shorter = length-remove_key-lt x remaining (sym same ∙ taken) in
          let other : x ≢ own = λ e.
            key_at-distinct own 0 (j + 1) h k (omega arith) (omega arith)
              (key_at_start own k ∙ sym e) in
          let (id, found) =
            probe-finds fuel own (j + 1) entries (remove_key x remaining) h k (omega arith)
              (λ i later small.
                ahead i (omega arith) small
                ∙ sym (
                    contains_key_other x (key_at own i) remaining
                      (key_at-distinct own (j + 1) i h k later small)))
              (omega (arith, shorter)) in
          (id, probe_taken fuel own (key_at own j) x entries looked taken other ∙ found)
    ]

-- While the map has fewer than 2 ^ 64 - 3 entries, the search of `create_connection` finds an id: it
-- neither comes round to the connection's own id nor runs out of fuel.
pub choose_id-finds :
    (own : ℕ) (entries : List (ℕ × ℕ))
    → 0 < own
    → own < 2 ^ 64
    → length entries + 3 < 2 ^ 64
    → (id : ℕ) × (choose_id own entries ≡ free id)
unfolding choose_id
choose_id-finds own entries h k few = elim (Bool-cases (contains_key entries own)) [
  | inr absent ↦ (own, ground arith)
  | inl taken ↦
      let (id, found) =
        probe-finds (suc (length entries)) own 0 entries entries h k (omega arith)
          (λ i later small. refl) (omega arith) in
      let looked : probe (suc (length entries)) own own entries ≡ free id =
        subst (λ y. probe (suc (length entries)) own y entries ≡ free id) (key_at_start own k)
          found in
      (id, ground arith)
]

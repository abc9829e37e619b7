-- ===== src/Pool/Map.antt =====
-- The map from ids to connections of src/pool/mod.rs: `HashMap::get`, and the laws of the operations
-- on the list of entries that stands for it.
use netconnpool_rust.Base.{
  ℕ, ◌≡◌, refl, true, false, Option, none, some, List, [], ◌∷◌, arith, All, take, zero, suc, ◌==◌,
  if◌then◌else◌,
}
use netconnpool_rust.Pool.State.{contains_key, remove_key, values}

module _ {ℓ} {A : Type ℓ} where
  abbrev pub get_key : List (ℕ × A) → ℕ → Option A
  get_key [] k = none
  get_key ((j, v) ∷ rest) k = if j == k then some v else get_key rest k

  -- No key occurs twice.
  abbrev pub IsMap : List (ℕ × A) → Type 0
  IsMap [] = Unit
  IsMap ((k, v) ∷ rest) = (contains_key rest k ≡ false) × IsMap rest

  pub get_key-remove_key :
      (j k : ℕ) (l : List (ℕ × A))
      → get_key (remove_key j l) k ≡ (if j == k then none else get_key l k)
  get_key-remove_key j k [] = ground arith
  get_key-remove_key j k (e ∷ l) = ground (arith, get_key-remove_key j k l)

  pub contains_key-remove_key :
      (j k : ℕ) (l : List (ℕ × A))
      → contains_key (remove_key j l) k ≡ (if j == k then false else contains_key l k)
  contains_key-remove_key j k [] = ground arith
  contains_key-remove_key j k (e ∷ l) = ground (arith, contains_key-remove_key j k l)

  pub IsMap-remove_key : (j : ℕ) (l : List (ℕ × A)) → IsMap l → IsMap (remove_key j l)
  IsMap-remove_key j [] h = tt
  IsMap-remove_key j (e ∷ l) h =
      ground (arith, IsMap-remove_key j l h.1, contains_key-remove_key j e.0 l)

  pub contains_key_of_get_key :
      (k : ℕ) (l : List (ℕ × A)) (v : A) → get_key l k ≡ some v → contains_key l k ≡ true
  contains_key_of_get_key k [] v h = ground arith
  contains_key_of_get_key k (e ∷ l) v h = ground (arith, contains_key_of_get_key k l v)

  pub remove_key_absent : (k : ℕ) (l : List (ℕ × A)) → contains_key l k ≡ false → remove_key k l ≡ l
  remove_key_absent k [] h = refl
  remove_key_absent k (e ∷ l) h = ground (arith, remove_key_absent k l)

  pub All-weaken :
      {P Q : ℕ × A → Type ℓ} → ((e : ℕ × A) → P e → Q e) → (l : List (ℕ × A)) → All P l → All Q l
  All-weaken f [] h = tt
  All-weaken f (e ∷ l) h = (f e h.0, All-weaken f l h.1)

  -- Every entry is found under its key.
  pub All-get_key : (l : List (ℕ × A)) → IsMap l → All (λ e. get_key l e.0 ≡ some e.1) l
  All-get_key [] h = tt
  All-get_key ((k, v) ∷ l) h = (
    ground arith,
    All-weaken (λ e found. ground (arith, contains_key_of_get_key e.0 l e.1 found, h.0)) l
        (All-get_key l h.1),
  )

  pub All-values : (P : A → Type ℓ) (l : List (ℕ × A)) → All (λ e. P e.1) l → All P (values l)
  All-values P [] h = tt
  All-values P (e ∷ l) h = (h.0, All-values P l h.1)

  pub All-take : (P : A → Type ℓ) (n : ℕ) (l : List A) → All P l → All P (take n l)
  All-take P zero l h = tt
  All-take P (suc n) [] h = tt
  All-take P (suc n) (x ∷ l) h = (h.0, All-take P n l h.1)

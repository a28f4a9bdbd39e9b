-- ===== src/Base/Maps.antt =====
-- Hash maps as association lists, by keys with a Boolean equality. A key that is inserted again replaces
-- what it had, so no key occurs twice.
use scytale.Base.{◌≡◌, Bool, true, Option, none, some, List, [], ◌∷◌, if◌then◌else◌, arith}
use scytale.Base.Bytes.{Bytes, bytes_eq, bytes_eq_refl, bytes_eq→≡}

pub record Key {ℓ} (K : Type ℓ) : Type ℓ where
  pub beq : K → K → Bool
  pub beq_refl : (k : K) → beq k k ≡ true
  pub beq→≡ : (j k : K) → beq j k ≡ true → j ≡ k

instance abbrev pub bytes_key : Key Bytes
bytes_key = record { beq = bytes_eq; beq_refl = bytes_eq_refl; beq→≡ = bytes_eq→≡ }

pub beq_comm {ℓ} : {K : Type ℓ} ⦃key : Key K⦄ (j k : K) → key.beq j k ≡ key.beq k j
beq_comm ⦃key⦄ j k = ground (arith, key.beq→≡ j k, key.beq→≡ k j, key.beq_refl j, key.beq_refl k)

module _ {ℓ κ} {K : Type ℓ} {V : Type κ} ⦃key : Key K⦄ where
  unfoldable pub lookup : K → List (K × V) → Option V
  lookup k [] = none
  lookup k ((j, v) ∷ m) = if key.beq j k then some v else lookup k m

  unfoldable pub remove : K → List (K × V) → List (K × V)
  remove k [] = []
  remove k ((j, v) ∷ m) = if key.beq j k then remove k m else (j, v) ∷ remove k m

  unfoldable pub insert : K → V → List (K × V) → List (K × V)
  insert k v m = (k, v) ∷ remove k m

  pub lookup-remove :
      (k j : K) (m : List (K × V))
      → lookup j (remove k m) ≡ (if key.beq k j then none else lookup j m)
  unfolding lookup remove
  lookup-remove k j [] = ground arith
  lookup-remove k j ((i, v) ∷ m) =
      ground
        (arith, lookup-remove k j m, key.beq→≡ i k, key.beq→≡ i j, key.beq→≡ k j, key.beq_refl i)

  pub lookup-insert :
      (k j : K) (v : V) (m : List (K × V))
      → lookup j (insert k v m) ≡ (if key.beq k j then some v else lookup j m)
  unfolding lookup insert
  lookup-insert k j v m = ground (arith, lookup-remove k j m)

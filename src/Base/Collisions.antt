-- ===== src/Base/Collisions.antt =====
-- Inputs of a hash with one digest, and the lemmas that find them or find the inputs equal.
use scytale.Base.{length, ◌≡◌, ◌≢◌, ◌⊎◌, inl, inr, refl, [], ◌∷◌, ◌++◌, Bool-cases, arith}
use scytale.Base.Bytes.{Bytes, bytes_eq, bytes_eq_refl, bytes_eq→≡}

-- Appended lists are equal piece by piece, where the first pieces are of one length.
pub append-injective :
    (xs ys zs ws : Bytes) → length xs ≡ length ys → xs ++ zs ≡ ys ++ ws → (xs ≡ ys) × (zs ≡ ws)
append-injective [] [] zs ws n e = (refl, e)
append-injective [] (y ∷ ys) zs ws n e = absurd (omega arith)
append-injective (x ∷ xs) [] zs ws n e = absurd (omega arith)
append-injective (x ∷ xs) (y ∷ ys) zs ws n e =
    let rest = append-injective xs ys zs ws (omega arith) cc in (cc, rest.1)

module _ (hash : Bytes → Bytes) where
  -- Two inputs of one digest.
  pub record Collision : Type 0 where
    pub left : Bytes
    pub right : Bytes
    pub apart : left ≢ right
    pub same_digest : hash left ≡ hash right

  -- Inputs of one digest are equal, or else they are a collision.
  pub same_input : (left right : Bytes) → hash left ≡ hash right → (left ≡ right) ⊎ Collision
  same_input left right same = elim (Bool-cases (bytes_eq left right)) [
    | inl e ↦ inl (bytes_eq→≡ left right e)
    | inr e ↦ inr (record {
      left = left;
      right = right;
      apart = λ equal. absurd (ground (arith, bytes_eq_refl left));
      same_digest = same;
    })
  ]

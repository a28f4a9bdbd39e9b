-- ===== src/Stratum/Merkle.antt =====
-- The branches of crates/scytale-stratum/src/job.rs against the tree that they are taken from.
use scytale.Base.{
  ℕ, zero, suc, ◌≤◌, ◌≡◌, refl, false, List, [], ◌∷◌, ◌++◌, All, length, subst, sym, arith,
}
use scytale.Base.Bytes.{Bytes, bytes_eq}
use scytale.Primitives.{Hash256, zero_hash}
use scytale.Stratum.{
  StratumJob, pad_odd, fold_branches, raw_coinbase, build_merkle_root, hash_pairs, branch_loop,
  calculate_merkle_branches,
}

module _ (blake3 : Bytes → Hash256) where
  -- The level of parents above a level of a tree: neighbours are hashed together, and a last one that has no
  -- neighbour is hashed with itself.
  pub data IsLevel : List Hash256 → List Hash256 → Type 0 where
    nothing : IsLevel [] []
    single : (a : Hash256) → IsLevel (a ∷ []) (blake3 (a ++ a) ∷ [])
    pair :
        (a b : Hash256) (rest parents : List Hash256)
        → IsLevel rest parents
        → IsLevel (a ∷ b ∷ rest) (blake3 (a ++ b) ∷ parents)

  -- The root of a tree: the one element of its last level.
  pub data IsRoot : List Hash256 → Hash256 → Type 0 where
    top : (a : Hash256) → IsRoot (a ∷ []) a
    level :
        (a b r : Hash256) (rest parents : List Hash256)
        → IsLevel (a ∷ b ∷ rest) parents
        → IsRoot parents r
        → IsRoot (a ∷ b ∷ rest) r

  -- Padding and hashing in pairs makes the level of parents.
  hash_pairs-IsLevel : (xs : List Hash256) → IsLevel xs (hash_pairs blake3 (pad_odd xs))
  unfolding hash_pairs pad_odd
  hash_pairs-IsLevel [] = nothing
  hash_pairs-IsLevel (a ∷ []) = single a
  hash_pairs-IsLevel (a ∷ b ∷ rest) = pair a b rest _ (hash_pairs-IsLevel rest)

  abbrev pub NonZero : List Hash256 → Type 0
  NonZero bs = All (λ b. bytes_eq b zero_hash ≡ false) bs

  half : (xs : List Hash256) → length (hash_pairs blake3 (pad_odd xs)) ≤ length xs
  unfolding hash_pairs pad_odd
  half [] = omega arith
  half (a ∷ []) = omega arith
  half (a ∷ b ∷ rest) = omega (arith, half rest)

  -- A branch that is not the zero hash is a sibling.
  pub fold_full :
      (c b : Hash256) (bs : List Hash256)
      → bytes_eq b zero_hash ≡ false
      → fold_branches blake3 c (b ∷ bs) ≡ fold_branches blake3 (blake3 (c ++ b)) bs
  unfolding fold_branches
  fold_full c b bs full = rw (fold_branches, full) refl

  -- The siblings on the way up from the first leaf do not depend on that leaf.
  branches_climb :
      (fuel : ℕ) (c c' : Hash256) (xs : List Hash256)
      → length (c ∷ xs) ≤ fuel
      → NonZero (branch_loop blake3 fuel (c' ∷ xs))
      → IsRoot (c ∷ xs) (fold_branches blake3 c (branch_loop blake3 fuel (c' ∷ xs)))
  unfolding branch_loop fold_branches hash_pairs pad_odd
  branches_climb zero c c' xs enough plain = absurd (omega arith)
  branches_climb (suc fuel) c c' [] enough plain = top c
  branches_climb (suc fuel) c c' (b ∷ rest) enough (full, plain) =
      let shorter = half rest in
      let above = hash_pairs blake3 (pad_odd rest) in
      subst (λ r. IsRoot (c ∷ b ∷ rest) r)
        (sym (fold_full c b (branch_loop blake3 fuel (blake3 (c' ++ b) ∷ above)) full))
        (level c b _ rest _ (hash_pairs-IsLevel (c ∷ b ∷ rest))
          (branches_climb fuel (blake3 (c ++ b)) (blake3 (c' ++ b)) above (omega arith) plain))

  -- The root that a job builds from the coinbase of a worker and the branches calculated for other transactions
  -- is the root of the tree over the coinbase and those transactions, in which a level's neighbours are hashed
  -- together and a last one without a neighbour with itself, where no branch is the zero hash.
  pub build_merkle_root-IsRoot :
      (job : StratumJob) (extranonce1 extranonce2 : Bytes) (x : Hash256) (xs : List Hash256)
      → job.merkle_branches ≡ calculate_merkle_branches blake3 (x ∷ xs)
      → NonZero job.merkle_branches
      → IsRoot
          (blake3 (raw_coinbase job extranonce1 extranonce2) ∷ x ∷ xs)
          (build_merkle_root blake3 job extranonce1 extranonce2)
  unfolding build_merkle_root calculate_merkle_branches
  build_merkle_root-IsRoot job extranonce1 extranonce2 x xs e plain = rw e (
      branches_climb (length (zero_hash ∷ x ∷ xs))
        (blake3 (raw_coinbase job extranonce1 extranonce2)) zero_hash (x ∷ xs) (omega arith)
        (subst NonZero e plain))

-- ===== src/Core/Merkle/Levels.antt =====
-- One level of the Merkle tree: the parent of a leaf is the hash of the leaf and its sibling.
use scytale.Base.{
  ℕ, zero, suc, ◌+◌, ◌-◌, ◌*◌, ◌/◌, ◌%◌, ◌≤◌, ◌<◌, ◌≡◌, refl, sym, ap, ◌∙◌, inl, inr, List, [], ◌∷◌,
  ◌++◌, ltb, ◌==◌, length, length-append, Bool-cases, arith,
}
use scytale.Base.Bytes.{Bytes}
use scytale.Primitives.{Hash256}
use scytale.Core.Merkle.{
  at, pad, merge_pairs, next_level, root_loop, path_loop, sibling_of, join, climb,
}

at-append : (xs ys : List Hash256) (i : ℕ) → i < length xs → at (xs ++ ys) i ≡ at xs i
at-append [] ys i h = absurd (omega arith)
at-append (x ∷ xs) ys zero h = refl
at-append (x ∷ xs) ys (suc i) h = at-append xs ys i (omega arith)

module _ (blake3 : Bytes → Hash256) where
  at-pad : (xs : List Hash256) (i : ℕ) → i < length xs → at (pad blake3 xs) i ≡ at xs i
  at-pad xs i h = elim (Bool-cases (length xs % 2 == 1)) [
    | inl odd ↦ rw odd (at-append xs (at xs (length xs - 1) ∷ []) i h)
    | inr even ↦ rw even refl
  ]

  length-pad : (xs : List Hash256) → (length (pad blake3 xs) ≡ length xs + length xs % 2)
  length-pad xs = ground (arith, length-append xs (at xs (length xs - 1) ∷ []))

  at-merge_pairs :
      (xs : List Hash256) (i : ℕ)
      → 2 * i + 1 < length xs
      → at (merge_pairs blake3 xs) i ≡ blake3 (at xs (2 * i) ++ at xs (2 * i + 1))
  at-merge_pairs [] i h = absurd (omega arith)
  at-merge_pairs (x ∷ []) i h = absurd (omega arith)
  at-merge_pairs (x ∷ y ∷ rest) zero h = refl
  at-merge_pairs (x ∷ y ∷ rest) (suc i) h =
      let first : 2 * suc i ≡ suc (suc (2 * i)) = omega arith in
      let second : 2 * suc i + 1 ≡ suc (suc (2 * i + 1)) = omega arith in
      rw (second, first) (at-merge_pairs rest i (omega arith))

  length-merge_pairs : (xs : List Hash256) → length (merge_pairs blake3 xs) ≡ length xs / 2
  length-merge_pairs [] = refl
  length-merge_pairs (x ∷ []) = refl
  length-merge_pairs (x ∷ y ∷ rest) = omega (arith, length-merge_pairs rest)

  pub length-next_level : (xs : List Hash256) → length (next_level blake3 xs) ≡ (length xs + 1) / 2
  length-next_level xs = omega (arith, length-merge_pairs (pad blake3 xs), length-pad xs)

  -- The parent of the leaf at an index, at half the index.
  pub parent :
      (xs : List Hash256) (idx : ℕ)
      → idx < length xs
      → join blake3 (at xs idx) (sibling_of blake3 (pad blake3 xs) idx)
        ≡ at (next_level blake3 xs) (idx / 2)
  parent xs idx h =
      let fits : 2 * (idx / 2) + 1 < length (pad blake3 xs) = omega (arith, length-pad xs) in
      let pair = at-merge_pairs (pad blake3 xs) (idx / 2) fits in
      elim (Bool-cases (idx % 2 == 0)) [
        | inl even ↦
            let left : 2 * (idx / 2) ≡ idx = ground arith in
            rw even (
              (ap (λ l. blake3 (l ++ at (pad blake3 xs) (idx + 1))) (sym (at-pad xs idx h)))
              ∙ sym (rw left at pair))
        | inr odd ↦
            let left : 2 * (idx / 2) ≡ idx - 1 = ground arith in
            let right : idx - 1 + 1 ≡ idx = ground arith in
            rw odd (
              (ap (λ r. blake3 (at (pad blake3 xs) (idx - 1) ++ r)) (sym (at-pad xs idx h)))
              ∙ sym (rw (left, right) at pair))
      ]

  -- The audit path leads from the leaf to the root, where the fuel covers the leaves.
  pub climb-path_loop :
      (fuel : ℕ) (xs : List Hash256) (idx : ℕ)
      → length xs ≤ suc fuel
      → idx < length xs
      → climb blake3 (at xs idx) (path_loop blake3 fuel xs idx) ≡ root_loop blake3 fuel xs
  unfolding path_loop root_loop
  climb-path_loop zero xs idx le h = ap (at xs) (omega arith)
  climb-path_loop (suc fuel) xs idx le h = elim (Bool-cases (ltb 1 (length xs))) [
    | inr few ↦ rw few (ap (at xs) {x = idx} {y = 0} (ground arith))
    | inl many ↦
        let longer : 1 < length xs = ground arith in
        let above =
          climb-path_loop fuel (next_level blake3 xs) (idx / 2)
            (omega (arith, length-next_level xs)) (omega (arith, length-next_level xs)) in
        rw many (
          ap (λ c. climb blake3 c (path_loop blake3 fuel (next_level blake3 xs) (idx / 2)))
            (parent xs idx h)
          ∙ above)
  ]

-- ===== src/Core/Merkle/Binding.antt =====
-- What the proofs of inclusion of crates/scytale-core/src/utxo.rs bind: two that verify at one place of a tree.
use mathlib.Core.List.{head-eq_of_cons-eq, tail-eq_of_cons-eq}
use scytale.Base.{
  ℕ, ◌^◌, ◌<◌, ◌≡◌, ◌⊎◌, inl, inr, refl, sym, ap, ◌∙◌, Bool, true, false, List, [], ◌∷◌, ◌++◌, All,
  map, length, ◌==◌, Bool-cases, arith,
}
use scytale.Base.Bytes.{Bytes, to_le_bytes, from_le_bytes, bytes_eq, bytes_eq→≡, from_le_bytes}
use scytale.Base.Endian.{from_le_bytes-to_le_bytes}
use scytale.Base.Collisions.{Collision, append-injective, same_input}
use scytale.Primitives.{Hash256}
use scytale.Core.Codec.Roundtrip.{IsOutPoint}
use scytale.Core.Merkle.{
  Sibling, UtxoMerkleProof, compute_utxo_leaf, leaf_tag, join, climb, verify_proof,
}

-- The sides of the siblings on an audit path, which say where in the tree it goes.
abbrev pub sides : List Sibling → List Bool
sides path = map (λ s. s.is_right_sibling) path

abbrev pub Siblings : List Sibling → Type 0
Siblings path = All (λ s. length s.sibling_hash ≡ 32) path

-- What the Rust types guarantee of a proof.
pub record IsProof (p : UtxoMerkleProof) : Type 0 where
  pub outpoint : IsOutPoint p.outpoint
  pub value_lt : p.value_quanta < 2 ^ 64
  pub leaf_length : length p.leaf_hash ≡ 32
  pub siblings : Siblings p.audit_path

-- Two proofs of the same output.
pub record AreSame (p q : UtxoMerkleProof) : Type 0 where
  pub outpoint : p.outpoint ≡ q.outpoint
  pub value : p.value_quanta ≡ q.value_quanta
  pub locking_condition : p.locking_condition ≡ q.locking_condition

to_le_bytes-injective :
    (n v w : ℕ) → v < 256 ^ n → w < 256 ^ n → to_le_bytes n v ≡ to_le_bytes n w → v ≡ w
to_le_bytes-injective n v w hv hw e =
    sym (from_le_bytes-to_le_bytes n v hv) ∙ ap from_le_bytes e ∙ from_le_bytes-to_le_bytes n w hw

abbrev leaf_input : UtxoMerkleProof → Bytes
leaf_input p =
    leaf_tag
    ++ (p.outpoint.txid
        ++ (to_le_bytes 4 p.outpoint.index
            ++ (to_le_bytes 8 p.value_quanta ++ p.locking_condition)))

-- The bytes of a leaf determine the output.
leaf_input-injective :
    (p q : UtxoMerkleProof) → IsProof p → IsProof q → leaf_input p ≡ leaf_input q → AreSame p q
leaf_input-injective p q hp hq e =
    let tagged = append-injective leaf_tag leaf_tag _ _ refl e in
    let ids =
      append-injective p.outpoint.txid q.outpoint.txid _ _
        (hp.outpoint.txid_length ∙ sym hq.outpoint.txid_length) tagged.1 in
    let indices =
      append-injective (to_le_bytes 4 p.outpoint.index) (to_le_bytes 4 q.outpoint.index) _ _ refl
        ids.1 in
    let values =
      append-injective (to_le_bytes 8 p.value_quanta) (to_le_bytes 8 q.value_quanta) _ _ refl
        indices.1 in
    let index =
      to_le_bytes-injective 4 p.outpoint.index q.outpoint.index hp.outpoint.index_lt
        hq.outpoint.index_lt indices.0 in
    record {
      outpoint = λ i. record { txid = ids.0 i; index = index i };
      value =
          to_le_bytes-injective 8 p.value_quanta q.value_quanta hp.value_lt hq.value_lt values.0;
      locking_condition = values.1;
    }

module _ (blake3 : Bytes → Hash256) where
  -- Where two joins to siblings of one side are equal, what is joined is, or there is a collision.
  join-injective :
      (l m : Hash256) (s t : Sibling)
      → length l ≡ 32
      → length m ≡ 32
      → length s.sibling_hash ≡ 32
      → length t.sibling_hash ≡ 32
      → s.is_right_sibling ≡ t.is_right_sibling
      → join blake3 l s ≡ join blake3 m t
      → (l ≡ m) ⊎ Collision blake3
  join-injective l m s t hl hm hs ht side e = elim (Bool-cases t.is_right_sibling) [
    | inl right ↦
        elim (same_input blake3 (l ++ s.sibling_hash) (m ++ t.sibling_hash) (ground arith)) [
          | inl same ↦ inl (append-injective l m _ _ (hl ∙ sym hm) same).0
          | inr collision ↦ inr collision
        ]
    | inr left ↦
        elim (same_input blake3 (s.sibling_hash ++ l) (t.sibling_hash ++ m) (ground arith)) [
          | inl same ↦ inl (append-injective s.sibling_hash t.sibling_hash _ _ (hs ∙ sym ht) same).1
          | inr collision ↦ inr collision
        ]
  ]

  module _ (digests : (x : Bytes) → length (blake3 x) ≡ 32) where
    join-length : (l : Hash256) (s : Sibling) → length (join blake3 l s) ≡ 32
    join-length l s = elim (Bool-cases s.is_right_sibling) [
      | inl right ↦ rw right (digests (l ++ s.sibling_hash))
      | inr left ↦ rw left (digests (s.sibling_hash ++ l))
    ]

    -- Two walks of the same sides to one root start at one leaf, or there is a collision.
    climb-injective :
        (l m : Hash256) (path way : List Sibling)
        → length l ≡ 32
        → length m ≡ 32
        → Siblings path
        → Siblings way
        → sides path ≡ sides way
        → climb blake3 l path ≡ climb blake3 m way
        → (l ≡ m) ⊎ Collision blake3
    climb-injective l m [] [] hl hm hp hw same e = inl e
    climb-injective l m [] (t ∷ way) hl hm hp hw same e = absurd cc
    climb-injective l m (s ∷ path) [] hl hm hp hw same e = absurd cc
    climb-injective l m (s ∷ path) (t ∷ way) hl hm (hs, hp) (ht, hw) same e =
        elim (climb-injective (join blake3 l s) (join blake3 m t) path way (join-length l s)
          (join-length m t) hp hw (tail-eq_of_cons-eq same) e) [
            | inl joined ↦ join-injective l m s t hl hm hs ht (head-eq_of_cons-eq same) joined
            | inr collision ↦ inr collision
          ]

    -- A proof that verifies has its leaf checked, unless its locking condition is empty, and leads to the root.
    verify_proof-leaf :
        (p : UtxoMerkleProof) (root : Hash256)
        → (length p.locking_condition == 0) ≡ false
        → verify_proof blake3 p root ≡ true
        → (blake3 (leaf_input p) ≡ p.leaf_hash) × (climb blake3 p.leaf_hash p.audit_path ≡ root)
    unfolding verify_proof compute_utxo_leaf
    verify_proof-leaf p root full h =
        elim (Bool-cases (bytes_eq (blake3 (leaf_input p)) p.leaf_hash)) [
          | inl leaf ↦ (bytes_eq→≡ _ _ leaf, bytes_eq→≡ _ _ (rw (full, leaf) at h))
          | inr other ↦ absurd (ground arith)
        ]

    -- Two proofs whose locking conditions are not empty, that go the same way through a tree and verify against
    -- one root, are of the same outpoint, value and locking condition, or else there is a collision of the hash,
    -- where it has 32 bytes and the fields of the proofs are in the range of their types.
    pub verify_proof_binds :
        (p q : UtxoMerkleProof) (root : Hash256)
        → IsProof p
        → IsProof q
        → (length p.locking_condition == 0) ≡ false
        → (length q.locking_condition == 0) ≡ false
        → sides p.audit_path ≡ sides q.audit_path
        → verify_proof blake3 p root ≡ true
        → verify_proof blake3 q root ≡ true
        → AreSame p q ⊎ Collision blake3
    verify_proof_binds p q root hp hq full full' same h h' =
        let a = verify_proof-leaf p root full h in
        let b = verify_proof-leaf q root full' h' in
        elim (climb-injective p.leaf_hash q.leaf_hash p.audit_path q.audit_path hp.leaf_length
          hq.leaf_length hp.siblings hq.siblings same (a.1 ∙ sym b.1)) [
            | inr collision ↦ inr collision
            | inl leaf ↦
                elim (same_input blake3 (leaf_input p) (leaf_input q) (a.0 ∙ leaf ∙ sym b.0)) [
                  | inr collision ↦ inr collision
                  | inl inputs ↦ inl (leaf_input-injective p q hp hq inputs)
                ]
          ]

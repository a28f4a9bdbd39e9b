-- ===== src/Tests/Merkle.antt =====
-- Proofs of inclusion at the test data.
use scytale.Base.{ℕ, ◌≡◌, ◌⊎◌, ◌<◌, ◌^◌, refl, true, some, [], ◌∷◌, replicate, ok, arith}
use scytale.Base.Bytes.{Bytes}
use scytale.Base.Collisions.{Collision}
use scytale.Primitives.{Hash256, OutPoint}
use scytale.Core.Codec.Roundtrip.{IsOutPoint}
use scytale.Core.Utxo.{UtxoSet}
use scytale.Core.Utxo.Map.{lookup, Distinct}
use scytale.Core.Merkle.{UtxoMerkleProof, generate_merkle_proof, verify_proof, compute_utxo_root}
use scytale.Core.Merkle.Inclusion.{generate_merkle_proof_verifies}
use scytale.Core.Merkle.Binding.{AreSame, IsProof, verify_proof_binds}
use scytale.Tests.Data.{hash32, coin_id, coin_entry}

abbrev other_id : OutPoint
other_id = record { txid = replicate 32 1; index = 3 }

abbrev two : UtxoSet
two = record { entries = (other_id, coin_entry) ∷ (coin_id, coin_entry) ∷ [] }

two-Distinct : Distinct two.entries
unfolding scytale.Primitives.outpoint_eq
two-Distinct = (refl, (refl, tt))

coin_found : lookup coin_id two.entries ≡ some coin_entry
unfolding scytale.Primitives.outpoint_eq
coin_found = refl

generate_merkle_proof_verifies_example :
    (p : UtxoMerkleProof) × (generate_merkle_proof hash32 two coin_id ≡ ok p)
    × (p.value_quanta ≡ 10_000)
    × (p.locking_condition ≡ 0x51 ∷ [])
    × (verify_proof hash32 p (compute_utxo_root hash32 two) ≡ true)
generate_merkle_proof_verifies_example =
    generate_merkle_proof_verifies hash32 two coin_id coin_entry two-Distinct coin_found

-- A hash with a single digest, under which proofs of different outputs verify against one root.
abbrev constant : Bytes → Hash256
constant bytes = replicate 32 1

abbrev proof_of : OutPoint → ℕ → UtxoMerkleProof
proof_of o value = record {
  outpoint = o;
  value_quanta = value;
  locking_condition = 0x51 ∷ [];
  leaf_hash = replicate 32 1;
  audit_path = record { sibling_hash = replicate 32 4; is_right_sibling = true } ∷ [];
  leaf_index = 0;
}

proof_of-IsProof :
    (o : OutPoint) (value : ℕ) → IsOutPoint o → value < 2 ^ 64 → IsProof (proof_of o value)
proof_of-IsProof o value h v = record {
  outpoint = h;
  value_lt = v;
  leaf_length = refl;
  siblings = (refl, tt);
}

coin_verifies : verify_proof constant (proof_of coin_id 5) (replicate 32 1) ≡ true
unfolding verify_proof scytale.Core.Merkle.compute_utxo_leaf
coin_verifies = refl

other_verifies : verify_proof constant (proof_of other_id 7) (replicate 32 1) ≡ true
unfolding verify_proof scytale.Core.Merkle.compute_utxo_leaf
other_verifies = refl

verify_proof_binds_example : AreSame (proof_of coin_id 5) (proof_of other_id 7) ⊎ Collision constant
verify_proof_binds_example =
    verify_proof_binds constant (λ x. refl) (proof_of coin_id 5) (proof_of other_id 7)
      (replicate 32 1)
      (proof_of-IsProof coin_id 5 record { txid_length = refl; index_lt = omega arith }
        (omega arith))
      (proof_of-IsProof other_id 7 record { txid_length = refl; index_lt = omega arith }
        (omega arith))
      refl refl refl coin_verifies other_verifies

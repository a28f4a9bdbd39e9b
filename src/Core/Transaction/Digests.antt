-- ===== src/Core/Transaction/Digests.antt =====
-- The digests of src/transaction.rs that are signed: `compute_sighash`, `compute_hash` and
-- `signature_preimage_digest`.
use scytale.Base.{
  ℕ, ◌≡◌, refl, sym, ap, ◌∙◌, List, [], ◌∷◌, ◌++◌, length, Result, ok, ◌>>=◌, ◌>>◌, guard, map_err,
  ltb,
}
use scytale.Base.Bytes.{Bytes}
use scytale.Primitives.{Hash256, to_fixed_bytes, TxOut}
use scytale.Core.Types.{TxIn, Transaction, SerializationError}
use scytale.Core.Codec.Serialize.{u32_bytes, u64_bytes, count_bytes, txout_bytes, each_bytes}

-- b"SCYTALE_SIGHASH_V1".
abbrev sighash_tag : Bytes
sighash_tag =
    0x53 ∷ 0x43 ∷ 0x59 ∷ 0x54 ∷ 0x41 ∷ 0x4c ∷ 0x45 ∷ 0x5f ∷ 0x53 ∷ 0x49 ∷ 0x47 ∷ 0x48 ∷ 0x41 ∷ 0x53
    ∷ 0x48 ∷ 0x5f ∷ 0x56 ∷ 0x31 ∷ []

-- b"SCYTALE_TX_BODY_V1".
abbrev body_tag : Bytes
body_tag =
    0x53 ∷ 0x43 ∷ 0x59 ∷ 0x54 ∷ 0x41 ∷ 0x4c ∷ 0x45 ∷ 0x5f ∷ 0x54 ∷ 0x58 ∷ 0x5f ∷ 0x42 ∷ 0x4f ∷ 0x44
    ∷ 0x59 ∷ 0x5f ∷ 0x56 ∷ 0x31 ∷ []

-- `txid` and `index` of each input.
unfoldable pub input_references : List TxIn → Bytes
input_references [] = []
input_references (i ∷ is) =
    i.previous_output.txid ++ (u32_bytes i.previous_output.index ++ input_references is)

-- `value` and `locking_condition` of each output, one after the other, with no lengths.
unfoldable pub output_contents : List TxOut → Bytes
output_contents [] = []
output_contents (o ∷ os) = u64_bytes o.value ++ (o.locking_condition ++ output_contents os)

pub data AuthorizationError : Type 0 where
  empty_authorization : AuthorizationError
  malformed_proof : Bytes → AuthorizationError
  signature_mismatch : AuthorizationError
  key_condition_mismatch : AuthorizationError
  mismatched_utxo_count : ℕ → ℕ → AuthorizationError
  invalid_input_index : ℕ → ℕ → AuthorizationError
  preimage_serialization_failure : SerializationError → AuthorizationError

outpoints_bytes : List TxIn → Bytes
outpoints_bytes [] = []
outpoints_bytes (i ∷ is) = to_fixed_bytes i.previous_output ++ outpoints_bytes is

module _ (blake3 : Bytes → Hash256) where
  unfoldable pub compute_sighash : Transaction → ℕ → Bytes → Hash256
  unfolding input_references output_contents
  compute_sighash tx input_index prev_locking_script = blake3 (
      sighash_tag
      ++ (input_references tx.inputs
          ++ (output_contents tx.outputs ++ (count_bytes input_index ++ prev_locking_script))))

  pub compute_hash : Transaction → Hash256
  unfolding input_references output_contents
  compute_hash tx = blake3 (
      body_tag
      ++ (u32_bytes tx.version
          ++ (u64_bytes tx.lock_time
              ++ (count_bytes (length tx.inputs)
                  ++ (input_references tx.inputs
                      ++ (count_bytes (length tx.outputs) ++ output_contents tx.outputs))))))

  pub signature_preimage_digest : Transaction → ℕ → Result AuthorizationError Hash256
  unfolding outpoints_bytes
  signature_preimage_digest tx input_index = do
    guard (ltb input_index (length tx.inputs)) (invalid_input_index input_index (length tx.inputs))
    outputs ← map_err preimage_serialization_failure (each_bytes txout_bytes tx.outputs)
    ok (
        blake3 (
          u32_bytes tx.version
          ++ (count_bytes (length tx.inputs)
              ++ (outpoints_bytes tx.inputs
                  ++ (count_bytes input_index
                      ++ (count_bytes (length tx.outputs)
                          ++ (outputs ++ u64_bytes tx.lock_time)))))))

  append_assoc : (xs ys zs : Bytes) → (xs ++ ys) ++ zs ≡ xs ++ (ys ++ zs)
  append_assoc [] ys zs = refl
  append_assoc (x ∷ xs) ys zs = ap (λ ws. x ∷ ws) (append_assoc xs ys zs)

  -- Two outputs and the one output whose locking condition runs on through the value and the condition of the
  -- second have the same digest to sign, for every input, and whatever the other outputs and the version.
  pub compute_sighash_merges :
      (version version' : ℕ) (inputs : List TxIn) (v w lock lock' : ℕ) (c d : Bytes)
      (outputs : List TxOut) (input_index : ℕ) (prev_locking_script : Bytes)
      → compute_sighash
          record {
            version = version;
            inputs = inputs;
            outputs =
                record { value = v; locking_condition = c }
                ∷ record { value = w; locking_condition = d }
                ∷ outputs;
            lock_time = lock;
          }
          input_index
          prev_locking_script
        ≡ compute_sighash
            record {
              version = version';
              inputs = inputs;
              outputs = record { value = v; locking_condition = c ++ (u64_bytes w ++ d) } ∷ outputs;
              lock_time = lock';
            }
            input_index
            prev_locking_script
  unfolding compute_sighash input_references output_contents
  compute_sighash_merges version version' inputs v w lock lock' c d outputs input_index prev =
      ap
        (λ os.
          blake3
            (sighash_tag ++ (input_references inputs ++ (os ++ (count_bytes input_index ++ prev)))))
        (ap (λ xs. u64_bytes v ++ xs)
          (sym (
            append_assoc c (u64_bytes w ++ d) (output_contents outputs)
            ∙ ap (λ xs. c ++ xs) (append_assoc (u64_bytes w) d (output_contents outputs)))))

-- ===== src/Tests/Codec.antt =====
-- The round trips of the codec, and the checks of transactions and blocks, at the test data.
use scytale.Base.{◌≡◌, ◌↔◌, refl, [], ◌∷◌, ◌++◌, ok, arith}
use scytale.Base.Bytes.{Bytes}
use scytale.Core.Types.{Transaction, Block}
use scytale.Core.Transaction.{validate_stateless}
use scytale.Core.Transaction.Checks.{IsWellFormed, validate_stateless_iff}
use scytale.Core.Transaction.Digests.{compute_sighash, compute_sighash_merges}
use scytale.Core.Codec.Serialize.{u64_bytes, block_bytes, utxo_entry_bytes}
use scytale.Core.Codec.Reader.{from_canonical_bytes}
use scytale.Core.Codec.Deserialize.{read_block}
use scytale.Core.Codec.Roundtrip.{IsTransaction, IsBlock, read_block-block_bytes}
use scytale.Tests.Data.{hash32, payment, payment_input, payment_output, draft_header, anyone}

payment-IsTransaction : IsTransaction payment
payment-IsTransaction = record {
  version_lt = omega arith;
  inputs_ok = (
    record {
      previous = record { txid_length = refl; index_lt = omega arith };
      sequence_lt = omega arith;
    },
    tt,
  );
  input_count = omega arith;
  outputs_ok = (record { value_lt = omega arith }, tt);
  output_count = omega arith;
  lock_time_lt = omega arith;
}

abbrev small_block : Block
small_block = record { header = draft_header; transactions = payment ∷ [] }

small_block-IsBlock : IsBlock small_block
small_block-IsBlock = record {
  header_ok = record {
    version_lt = omega arith;
    previous_length = refl;
    commitment_length = refl;
    root_length = refl;
    timestamp_lt = omega arith;
    target_lt = omega arith;
    nonce_lt = omega arith;
  };
  transactions_ok = (payment-IsTransaction, tt);
  count = omega arith;
}

written : (ws : Bytes) × (block_bytes small_block ≡ ok ws)
unfolding block_bytes scytale.Core.Codec.Serialize.each_bytes
    scytale.Core.Codec.Serialize.transaction_bytes scytale.Core.Codec.Serialize.txin_bytes
    scytale.Core.Codec.Serialize.vec_bytes scytale.Core.Codec.Serialize.txout_bytes
written = (_, refl)

read_block-block_bytes_example : from_canonical_bytes read_block written.0 ≡ ok small_block
read_block-block_bytes_example =
    read_block-block_bytes small_block written.0 small_block-IsBlock written.1

validate_stateless_iff_example : (validate_stateless payment ≡ ok tt) ↔ IsWellFormed payment
validate_stateless_iff_example = validate_stateless_iff payment

-- Paying two outputs, and paying one with the second inside its script.
abbrev two_outputs : Transaction
two_outputs = record {
  version = 1;
  inputs = payment_input ∷ [];
  outputs = payment_output ∷ record { value = 700; locking_condition = anyone } ∷ [];
  lock_time = 0;
}

abbrev one_output : Transaction
one_output = record {
  version = 1;
  inputs = payment_input ∷ [];
  outputs = record { value = 9_000; locking_condition = anyone ++ (u64_bytes 700 ++ anyone) } ∷ [];
  lock_time = 9;
}

compute_sighash_merges_example :
    compute_sighash hash32 two_outputs 0 anyone ≡ compute_sighash hash32 one_output 0 anyone
compute_sighash_merges_example =
    compute_sighash_merges hash32 1 1 (payment_input ∷ []) 9_000 700 0 9 anyone anyone [] 0 anyone

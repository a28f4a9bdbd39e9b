-- ===== src/Tests/Chain.antt =====
-- The theorems of emission and of block validation at the block of the test data and at genesis.
use scytale.Base.{◌+◌, ap, ◌>>=◌, ◌≤◌, ◌≡◌, refl, [], All, ok}
use scytale.Primitives.{zero_hash}
use scytale.Core.Genesis.{new_coinbase, build_genesis_coinbase, total_genesis_quanta}
use scytale.Core.Utxo.{UtxoSet, empty, apply_block, apply_coinbase}
use scytale.Consensus.Emission.{get_block_subsidy, emitted, max_supply}
use scytale.Consensus.Emission.Supply.{emitted-le-max_supply}
use scytale.Consensus.Validation.{
  validate_block_authoritative_with_headers, validate_block_authoritative, transaction_commitment,
  skip_first,
}
use scytale.Consensus.Chain.Process.{authoritative_verifier}
use scytale.Consensus.Chain.Timelocks.{IsUntimed, authoritative_verifier-IsUntimed}
use scytale.Tests.Data.{hash32, ledger, block}

emitted-le-max_supply_example : total_genesis_quanta + emitted 3 ≤ max_supply
emitted-le-max_supply_example = emitted-le-max_supply 3

abbrev after_block : UtxoSet
after_block = (apply_block hash32 ledger block.transactions 1).0

block_valid : validate_block_authoritative_with_headers hash32 block 1 ledger [] ≡ ok 1_000
unfolding validate_block_authoritative_with_headers transaction_commitment get_block_subsidy
    scytale.Core.Block.validate_structure scytale.Core.Block.validate_rest
    scytale.Core.Block.validate_transactions scytale.Consensus.Validation.validate_lock_times
    scytale.Consensus.Validation.validate_lock_time
    scytale.Consensus.Validation.calculate_median_time_past
    scytale.Consensus.Validation.coinbase_total scytale.Consensus.Validation.concat_txids
    scytale.Consensus.Validation.median scytale.Consensus.Validation.sort
    scytale.Consensus.Validation.sort_insert apply_block apply_coinbase new_coinbase
    scytale.Core.Utxo.apply_rest scytale.Core.Utxo.apply_transaction
    scytale.Core.Utxo.check_coinbase scytale.Core.Utxo.check_coinbase_outputs
    scytale.Core.Utxo.check_transaction scytale.Core.Utxo.commit scytale.Core.Utxo.insert
    scytale.Core.Utxo.insert_outputs scytale.Core.Utxo.remove_inputs scytale.Core.Utxo.add_inputs
    scytale.Core.Codec.Serialize.outpoint_bytes scytale.Core.Codec.Serialize.u32_bytes
    scytale.Core.Codec.Serialize.u64_bytes scytale.Core.Codec.Serialize.count_bytes
    scytale.Core.Codec.Serialize.transaction_bytes scytale.Core.Codec.Serialize.each_bytes
    scytale.Core.Codec.Serialize.txin_bytes scytale.Core.Codec.Serialize.vec_bytes
    scytale.Core.Codec.Serialize.txout_bytes scytale.Core.Transaction.is_coinbase
    scytale.Core.Transaction.coinbase_inputs scytale.Core.Transaction.validate_stateless
    scytale.Core.Transaction.total_output_quanta scytale.Core.Transaction.txid
    scytale.Primitives.is_null scytale.Primitives.outpoint_eq
block_valid = refl

abbrev genesis_set : UtxoSet
genesis_set = (apply_coinbase hash32 empty build_genesis_coinbase 0).0

genesis_applied : apply_coinbase hash32 empty build_genesis_coinbase 0 ≡ (genesis_set, ok tt)
unfolding build_genesis_coinbase apply_block apply_coinbase new_coinbase
    scytale.Core.Utxo.apply_rest scytale.Core.Utxo.apply_transaction
    scytale.Core.Utxo.check_coinbase scytale.Core.Utxo.check_coinbase_outputs
    scytale.Core.Utxo.check_transaction scytale.Core.Utxo.commit scytale.Core.Utxo.insert
    scytale.Core.Utxo.insert_outputs scytale.Core.Utxo.remove_inputs scytale.Core.Utxo.add_inputs
    scytale.Core.Codec.Serialize.outpoint_bytes scytale.Core.Codec.Serialize.u32_bytes
    scytale.Core.Codec.Serialize.u64_bytes scytale.Core.Codec.Serialize.count_bytes
    scytale.Core.Codec.Serialize.transaction_bytes scytale.Core.Codec.Serialize.each_bytes
    scytale.Core.Codec.Serialize.txin_bytes scytale.Core.Codec.Serialize.vec_bytes
    scytale.Core.Codec.Serialize.txout_bytes scytale.Core.Transaction.is_coinbase
    scytale.Core.Transaction.coinbase_inputs scytale.Core.Transaction.validate_stateless
    scytale.Core.Transaction.total_output_quanta scytale.Core.Transaction.txid
    scytale.Primitives.is_null scytale.Primitives.outpoint_eq
genesis_applied = refl

block_verified : authoritative_verifier hash32 block ledger ≡ ok tt
unfolding authoritative_verifier validate_block_authoritative new_coinbase
    scytale.Consensus.Chain.Process.claimed_height scytale.Core.Codec.Serialize.u64_bytes
block_verified = ap (λ r. ◌>>=◌ {B = Unit {0}} r (λ _. ok tt)) block_valid

authoritative_verifier-IsUntimed_example : All IsUntimed (skip_first block.transactions)
authoritative_verifier-IsUntimed_example =
    authoritative_verifier-IsUntimed hash32 block ledger block_verified

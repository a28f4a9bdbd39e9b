-- ===== src/Tests/Ledger.antt =====
-- The theorems of the UTXO set at the ledger of the test data.
use scytale.Base.{◌+◌, ◌≡◌, ◌≢◌, refl, inl, none, List, [], ◌∷◌, ok, arith}
use scytale.Core.Types.{Transaction}
use scytale.Core.Transaction.{
  txid, is_coinbase, coinbase_inputs, validate_stateless, total_output_quanta,
}
use scytale.Core.Codec.Serialize.{transaction_bytes}
use scytale.Primitives.{outpoint_eq, is_null}
use scytale.Core.Genesis.{new_coinbase}
use scytale.Core.Utxo.{
  UtxoSet, apply_transaction, apply_block, remove_inputs, check_transaction, add_inputs,
  insert_outputs, insert, commit, apply_coinbase, apply_rest, check_coinbase,
  check_coinbase_outputs,
}
use scytale.Core.Utxo.Map.{value_of, lookup, Distinct}
use scytale.Core.Utxo.Conservation.{
  burned, burned_in, apply_transaction-conserves, apply_block-conserves,
}
use scytale.Core.Utxo.Spend.{apply_transaction_spends}
use scytale.Tests.Data.{hash32, coin_id, ledger, payment, reward, body}

abbrev after_payment : UtxoSet
after_payment = (apply_transaction hash32 ledger payment 1).0

abbrev after_block : UtxoSet
after_block = (apply_block hash32 ledger body 1).0

payment_fee : apply_transaction hash32 ledger payment 1 ≡ (after_payment, ok 1_000)
unfolding apply_transaction check_transaction add_inputs remove_inputs insert_outputs insert
    validate_stateless total_output_quanta outpoint_eq txid transaction_bytes
payment_fee = refl

block_fees : apply_block hash32 ledger body 1 ≡ (after_block, ok 1_000)
unfolding apply_block commit apply_coinbase apply_rest check_coinbase check_coinbase_outputs
    is_coinbase coinbase_inputs is_null new_coinbase apply_transaction check_transaction add_inputs
    remove_inputs insert_outputs insert validate_stateless total_output_quanta outpoint_eq txid
    transaction_bytes scytale.Core.Codec.Serialize.each_bytes
    scytale.Core.Codec.Serialize.txin_bytes scytale.Core.Codec.Serialize.vec_bytes
    scytale.Core.Codec.Serialize.txout_bytes scytale.Core.Codec.Serialize.u32_bytes
    scytale.Core.Codec.Serialize.count_bytes scytale.Core.Codec.Serialize.outpoint_bytes
    scytale.Core.Codec.Serialize.u64_bytes
block_fees = refl

apply_transaction-conserves_example :
    value_of after_payment.entries + 1_000 + burned payment.outputs ≡ value_of ledger.entries
apply_transaction-conserves_example =
    apply_transaction-conserves hash32 ledger after_payment payment 1 1_000 payment_fee

apply_block-conserves_example :
    value_of after_block.entries + 1_000 + burned_in body ≡ value_of ledger.entries + 2_500_001_000
unfolding new_coinbase
apply_block-conserves_example =
    apply_block-conserves hash32 ledger after_block reward (payment ∷ []) 1 1_000 block_fees

-- A block whose second transaction fails: the payment twice.
abbrev twice : List Transaction
twice = reward ∷ payment ∷ payment ∷ []

ledger-Distinct : Distinct ledger.entries
ledger-Distinct = (refl, tt)

other_id : coin_id.txid ≢ txid hash32 payment
unfolding txid transaction_bytes scytale.Core.Codec.Serialize.each_bytes
    scytale.Core.Codec.Serialize.txin_bytes scytale.Core.Codec.Serialize.vec_bytes
    scytale.Core.Codec.Serialize.txout_bytes scytale.Core.Codec.Serialize.u32_bytes
    scytale.Core.Codec.Serialize.count_bytes scytale.Core.Codec.Serialize.outpoint_bytes
    scytale.Core.Codec.Serialize.u64_bytes
other_id h = absurd (ground (arith, h))

apply_transaction_spends_example : lookup coin_id after_payment.entries ≡ none
apply_transaction_spends_example =
    apply_transaction_spends hash32 ledger after_payment payment 1 1_000 coin_id ledger-Distinct
      payment_fee (inl refl) other_id

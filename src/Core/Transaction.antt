-- ===== src/Core/Transaction.antt =====
-- crates/scytale-core/src/transaction.rs: identifiers, digests and the checks that need no ledger.
pub mod Checks
pub mod Digests
use scytale.Base.{
  ℕ, zero, suc, ◌+◌, ◌%◌, ◌^◌, Bool, true, false, ◌&&◌, ◌||◌, not, Option, none, some, List, [],
  ◌∷◌, ◌++◌, ltb, leb, ◌==◌, if◌then◌else◌, length, head?, Result, ok, err, ◌>>=◌, ◌>>◌, guard,
  ok_or,
}
use scytale.Base.Bytes.{Bytes}
use scytale.Base.Words.{checked_add, checked_sub}
use scytale.Primitives.{Hash256, OutPoint, zero_hash, is_null, outpoint_eq, to_fixed_bytes, TxOut}
use scytale.Core.Types.{
  TxIn, Transaction, TransactionError, invalid_version, empty_inputs, empty_outputs,
  zero_output_value, output_value_overflow, duplicate_input, input_value_deficit,
  arithmetic_overflow,
}
use scytale.Core.Codec.Serialize.{
  u32_bytes, u64_bytes, count_bytes, txout_bytes, each_bytes, transaction_bytes,
}

abbrev pub transaction_version_1 : ℕ
transaction_version_1 = 1

abbrev pub dust_threshold : ℕ
dust_threshold = 500

-- `inputs.len() == 1 && inputs[0].previous_output.is_null()`.
unfoldable pub coinbase_inputs : List TxIn → Bool
coinbase_inputs [] = false
coinbase_inputs (i ∷ []) = is_null i.previous_output
coinbase_inputs (i ∷ j ∷ is) = false

unfoldable pub is_coinbase : Transaction → Bool
unfolding coinbase_inputs
is_coinbase t = coinbase_inputs t.inputs

-- `locking_condition.first() == Some(&0x6a)`.
abbrev pub is_op_return : TxOut → Bool
is_op_return o = elim (head? o.locking_condition) [ none ↦ false | some b ↦ b == 0x6a ]

abbrev pub add_outputs : ℕ → List TxOut → Result TransactionError ℕ
add_outputs total [] = ok total
add_outputs total (o ∷ os) = elim (checked_add total o.value) [
  | none ↦ err output_value_overflow
  | some total' ↦ add_outputs total' os
]

unfoldable pub total_output_quanta : Transaction → Result TransactionError ℕ
total_output_quanta t = add_outputs 0 t.outputs

-- Outputs below the dust threshold are refused, but for `OP_RETURN`.
abbrev pub check_dust : List TxOut → Result TransactionError (Unit {0})
check_dust [] = ok tt
check_dust (o ∷ os) =
    if not (is_op_return o) && ltb o.value dust_threshold
    then err zero_output_value
    else check_dust os

abbrev pub seen_before : List OutPoint → OutPoint → Bool
seen_before [] o = false
seen_before (p ∷ ps) o = outpoint_eq p o || seen_before ps o

-- `if !seen.insert(input.previous_output)`.
abbrev pub check_duplicates : List OutPoint → List TxIn → Result TransactionError (Unit {0})
check_duplicates seen [] = ok tt
check_duplicates seen (i ∷ is) =
    if seen_before seen i.previous_output
    then err (duplicate_input i.previous_output)
    else check_duplicates (i.previous_output ∷ seen) is

abbrev pub is_empty {ℓ} : {A : Type ℓ} → List A → Bool
is_empty [] = true
is_empty (x ∷ xs) = false

unfoldable pub validate_stateless : Transaction → Result TransactionError (Unit {0})
validate_stateless t = do
  guard (t.version == transaction_version_1) (invalid_version t.version)
  guard (not (is_empty t.inputs)) empty_inputs
  guard (not (is_empty t.outputs)) empty_outputs
  check_dust t.outputs
  total ← total_output_quanta t
  check_duplicates [] t.inputs

pub calculate_fee : ℕ → ℕ → Result TransactionError ℕ
calculate_fee total_input_quanta total_output_quanta =
    if ltb total_input_quanta total_output_quanta
    then err (input_value_deficit total_input_quanta total_output_quanta)
    else ok_or (checked_sub total_input_quanta total_output_quanta) arithmetic_overflow

-- The hash of the canonical bytes. The source panics where there are none, which is when a vector
-- is over 16 MB; the zero hash stands in for that.
unfoldable pub txid : (Bytes → Hash256) → Transaction → Hash256
txid blake3 t = elim (transaction_bytes t) [ ok bytes ↦ blake3 bytes | err _ ↦ zero_hash ]

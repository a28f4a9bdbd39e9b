-- ===== src/Core/VmAdapter.antt =====
-- crates/scytale-core/src/vm_adapter.rs: the contracts that the inputs of a transaction run, and their gas. The
-- virtual machine is an argument, `execute_validator` of Vm; the decoders of locking conditions and witnesses
-- (bincode) are parameters. A lookup that the source expects to succeed, since the inputs were all looked up
-- before, has the error of a missing output.
pub mod Gas
use scytale.Base.{
  ℕ, suc, ◌+◌, ◌-◌, Bool, true, false, ◌&&◌, not, Option, none, some, List, [], ◌∷◌, ◌++◌, length,
  take, drop, ltb, leb, if◌then◌else◌, Result, ok, err, ◌>>=◌, ◌>>◌, ok_or, guard, map_err,
}
use scytale.Base.Bytes.{Bytes, bytes_eq}
use scytale.Base.Words.{checked_add}
use scytale.Primitives.{Hash256, OutPoint, TxOut}
use scytale.Sdk.{TxContext}
use scytale.Vm.{VmError, ExecutionResult}
use scytale.Core.Types.{TxIn, Transaction, UtxoEntry}
use scytale.Core.Transaction.{is_coinbase, total_output_quanta}
use scytale.Core.Transaction.Digests.{compute_hash}
use scytale.Core.Utxo.Map.{lookup}
use scytale.Core.Utxo.{UtxoSet}
use scytale.Core.Authorization.{OutputLock, public_key, script, from_locking_condition}

abbrev pub max_tx_gas : ℕ
max_tx_gas = 5000000

abbrev pub max_block_gas : ℕ
max_block_gas = 50000000

-- `MissingUtxo` carries the outpoint, `ScriptHashMismatch` the two hashes.
pub data EutxoValidationError : Type 0 where
  missing_utxo : OutPoint → EutxoValidationError
  missing_script_source : EutxoValidationError
  missing_redeemer : EutxoValidationError
  script_hash_mismatch : Bytes → Bytes → EutxoValidationError
  vm_execution_failed : VmError → EutxoValidationError
  validation_rejected : EutxoValidationError
  gas_limit_exceeded : ℕ → ℕ → EutxoValidationError
  block_gas_limit_exceeded : ℕ → ℕ → EutxoValidationError
  arithmetic_overflow : EutxoValidationError

-- `EutxoWitness` of src/transaction.rs; `TxInput` has the same fields behind the outpoint.
pub record EutxoWitness : Type 0 where
  pub signature : Option Bytes
  pub redeemer : Option Bytes
  pub script_source : Option Bytes

abbrev pub witness_prefix : Bytes
witness_prefix = 0x53 ∷ 0x43 ∷ 0x59 ∷ 0x02 ∷ []

-- `TxInput::from_tx_in`, without the outpoint that it copies.
abbrev pub from_tx_in : (Bytes → Option EutxoWitness) → TxIn → Option EutxoWitness
from_tx_in deserialize input =
    if leb 4 (length input.authorization) && bytes_eq (take 4 input.authorization) witness_prefix
    then deserialize (drop 4 input.authorization)
    else deserialize input.authorization

-- The loop that adds up the values of the inputs.
unfoldable pub total_in_from : UtxoSet → ℕ → List TxIn → Result EutxoValidationError ℕ
total_in_from utxos total [] = ok total
total_in_from utxos total (i ∷ is) = elim (lookup i.previous_output utxos.entries) [
  | none ↦ err (missing_utxo i.previous_output)
  | some utxo ↦ elim (checked_add total utxo.output.value) [
    | none ↦ err arithmetic_overflow
    | some sum ↦ total_in_from utxos sum is
  ]
]

module _ (decode_lock : Bytes → Option OutputLock) where
  -- The datum of a scripted output, as a list of one.
  unfoldable pub datum_of : TxOut → List Bytes
  datum_of output = elim (from_locking_condition decode_lock output.locking_condition) [
    | none ↦ []
    | some (public_key key) ↦ []
    | some (script script_hash datum) ↦ datum ∷ []
  ]

  unfoldable pub output_datums_of : List TxOut → List Bytes
  output_datums_of [] = []
  output_datums_of (o ∷ os) = datum_of o ++ output_datums_of os

  unfoldable pub input_datums_of : UtxoSet → List TxIn → List Bytes
  input_datums_of utxos [] = []
  input_datums_of utxos (i ∷ is) = elim (lookup i.previous_output utxos.entries) [
    | none ↦ input_datums_of utxos is
    | some utxo ↦ datum_of utxo.output ++ input_datums_of utxos is
  ]

module _ (blake3 : Bytes → Hash256) where
  abbrev pub create_tx_context : Transaction → ℕ → ℕ → ℕ → TxContext
  create_tx_context tx block_time total_input_amount total_output_amount = record {
    tx_hash = compute_hash blake3 tx;
    block_time = block_time;
    input_amount = total_input_amount;
    fee_burned = total_input_amount - total_output_amount;
    input_datums = [];
    output_datums = [];
    ledger_state = [];
  }

  module _
      (execute_validator : Bytes → Bytes → Bytes → TxContext → ℕ → Result VmError ExecutionResult)
      (decode_lock : Bytes → Option OutputLock) (decode_witness : Bytes → Option EutxoWitness) where
    -- The run of one scripted input, with the gas used so far, and the gas used then.
    unfoldable pub run_script :
        TxContext → ℕ → ℕ → TxIn → Bytes → Bytes → Result EutxoValidationError ℕ
    run_script ctx gas_limit used input script_hash datum = do
      eutxo_in ← ok_or (from_tx_in decode_witness input) missing_script_source
      wasm_code ← ok_or eutxo_in.script_source missing_script_source
      redeemer ← ok_or eutxo_in.redeemer missing_redeemer
      guard (bytes_eq (blake3 wasm_code) script_hash)
          (script_hash_mismatch script_hash (blake3 wasm_code))
      exec_res ←
          map_err vm_execution_failed
            (execute_validator wasm_code datum redeemer ctx (gas_limit - used))
      guard exec_res.is_valid validation_rejected
      total ← ok_or (checked_add used exec_res.gas_consumed) arithmetic_overflow
      guard (leb total gas_limit) (gas_limit_exceeded total gas_limit)
      ok total

    unfoldable pub run_inputs :
        UtxoSet → TxContext → ℕ → ℕ → List TxIn → Result EutxoValidationError ℕ
    run_inputs utxos ctx gas_limit used [] = ok used
    run_inputs utxos ctx gas_limit used (i ∷ is) = elim (lookup i.previous_output utxos.entries) [
      | none ↦ err (missing_utxo i.previous_output)
      | some utxo ↦ elim (from_locking_condition decode_lock utxo.output.locking_condition) [
        | none ↦ run_inputs utxos ctx gas_limit used is
        | some (public_key key) ↦ run_inputs utxos ctx gas_limit used is
        | some (script script_hash datum) ↦
            elim (run_script ctx gas_limit used i script_hash datum) [
              | err e ↦ err e
              | ok total ↦ run_inputs utxos ctx gas_limit total is
            ]
      ]
    ]

    -- The context that every contract of the transaction sees.
    unfoldable pub full_context : Transaction → ℕ → UtxoSet → ℕ → ℕ → TxContext
    full_context tx block_time utxos total_in total_out =
        record (create_tx_context tx block_time total_in total_out) {
          input_datums = input_datums_of decode_lock utxos tx.inputs;
          ledger_state = input_datums_of decode_lock utxos tx.inputs;
          output_datums = output_datums_of decode_lock tx.outputs;
        }

    unfoldable pub verify_transaction_eutxo :
        Transaction → ℕ → UtxoSet → ℕ → Result EutxoValidationError ℕ
    verify_transaction_eutxo tx block_time utxos gas_limit = elim (is_coinbase tx) [
      | true ↦ ok 0
      | false ↦ do
        total_in ← total_in_from utxos 0 tx.inputs
        total_out ← map_err (λ _. arithmetic_overflow) (total_output_quanta tx)
        run_inputs utxos (full_context tx block_time utxos total_in total_out) gas_limit 0 tx.inputs
    ]

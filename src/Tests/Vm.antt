-- ===== src/Tests/Vm.antt =====
-- The theorems of the virtual machine and of its adapter at a contract that uses 30 of its fuel.
use scytale.Base.{
  ℕ, ◌≤◌, ◌≡◌, refl, min, true, false, Option, none, some, [], ◌∷◌, Result, ok, err, arith, leb,
  ◌==◌, if◌then◌else◌, replicate,
}
use scytale.Base.Bytes.{Bytes}
use scytale.Primitives.{Hash256, TxOut, u32_max}
use scytale.Sdk.{TxContext}
use scytale.Vm.{Runtime, ExecutionResult, VmError, execute_validator, max_wasm_fuel}
use scytale.Vm.Fuel.{IsMetered, execute_validator_gas}
use scytale.Core.Types.{Transaction, UtxoEntry}
use scytale.Core.Transaction.{is_coinbase, total_output_quanta}
use scytale.Core.Utxo.{UtxoSet}
use scytale.Core.Authorization.{OutputLock, public_key, script}
use scytale.Core.VmAdapter.{EutxoWitness, total_in_from, full_context, verify_transaction_eutxo}
use scytale.Core.VmAdapter.Gas.{Ran, verify_transaction_eutxo-Ran}
use scytale.Tests.Data.{hash32, coin_id, coin_entry, payment_output}

abbrev some_context : TxContext
some_context = record {
  tx_hash = [];
  block_time = 50;
  input_amount = 1_000;
  fee_burned = 500;
  input_datums = [];
  output_datums = [];
  ledger_state = [];
}

-- An engine whose contracts use 30 of their fuel and accept where they have as much.
abbrev toy_engine : Runtime Bytes (ℕ × ℕ)
toy_engine = record {
  compile = λ code. some code;
  new_store = λ memory fuel. some (fuel, 0);
  instantiate = λ code store. some store;
  current_pages = λ store. some 1;
  write = λ offset bytes store. some store;
  exports_validate = λ store. true;
  call_validate = λ arguments store.
      if leb 30 store.0 then ok (1, (store.0, 30)) else err (0x46 ∷ 0x75 ∷ 0x65 ∷ 0x6c ∷ []);
  fuel_consumed = λ store. some store.1;
}

toy-IsMetered : IsMetered toy_engine
toy-IsMetered = record {
  Has = λ store fuel. (store.0 ≡ fuel) × (store.1 ≤ fuel);
  new_has = λ memory fuel s made. ground arith;
  instantiate_has = λ m s t fuel made has. ground arith;
  write_has = λ offset bytes s t fuel made has. ground arith;
  call_has = λ arguments s t result fuel made has. ground arith;
  consumed_has = λ s fuel gas has made. ground arith;
}

abbrev no_text : TxContext → Option Bytes
no_text ctx = some []

ran_once :
    execute_validator toy_engine no_text (1 ∷ []) (2 ∷ []) (3 ∷ []) some_context 100
    ≡ ok record { is_valid = true; gas_consumed = 30 }
unfolding execute_validator scytale.Vm.prepare scytale.Vm.offsets scytale.Vm.write_arguments
    scytale.Vm.run_validate
ran_once = refl

execute_validator_gas_example : 30 ≤ min 100 max_wasm_fuel
execute_validator_gas_example =
    execute_validator_gas toy_engine toy-IsMetered no_text (1 ∷ []) (2 ∷ []) (3 ∷ []) some_context
      100 record { is_valid = true; gas_consumed = 30 } ran_once

-- A lock of a script is a hash of 32 bytes behind a tag, and the datum.
abbrev read_lock : Bytes → Option OutputLock
read_lock (tag ∷ h ∷ datum) = if tag == 0x77 then some (script (replicate 32 h) datum) else none
read_lock bytes = none

abbrev read_witness : Bytes → Option EutxoWitness
read_witness (c ∷ r ∷ rest) =
    some record { signature = none; redeemer = some (r ∷ []); script_source = some (c ∷ []) }
read_witness bytes = none

abbrev machine : Bytes → Bytes → Bytes → TxContext → ℕ → Result VmError ExecutionResult
machine = execute_validator toy_engine no_text

abbrev contract_entry : UtxoEntry
contract_entry = record {
  output = record { value = 5_000; locking_condition = 0x77 ∷ 1 ∷ 9 ∷ [] };
  block_height = 0;
  is_coinbase = false;
}

abbrev contract_ledger : UtxoSet
contract_ledger = record {
  entries =
      (coin_id, coin_entry) ∷ (record { txid = replicate 32 2; index = 0 }, contract_entry) ∷ [];
}

abbrev contract_spend : Transaction
contract_spend = record {
  version = 1;
  inputs =
      record { previous_output = coin_id; authorization = 1 ∷ []; sequence = u32_max }
      ∷ record {
        previous_output = record { txid = replicate 32 2; index = 0 };
        authorization = 4 ∷ 5 ∷ [];
        sequence = u32_max;
      }
      ∷ [];
  outputs = payment_output ∷ [];
  lock_time = 0;
}

not_coinbase : is_coinbase contract_spend ≡ false
unfolding is_coinbase
not_coinbase = refl

contract_passes :
    verify_transaction_eutxo hash32 machine read_lock read_witness contract_spend 50 contract_ledger
      100
    ≡ ok 30
unfolding verify_transaction_eutxo is_coinbase total_in_from scytale.Primitives.outpoint_eq
    total_output_quanta scytale.Core.VmAdapter.run_inputs
    scytale.Core.Authorization.from_locking_condition scytale.Core.VmAdapter.run_script
    execute_validator scytale.Vm.prepare scytale.Vm.offsets scytale.Vm.write_arguments
    scytale.Vm.run_validate
contract_passes = refl

verify_transaction_eutxo-Ran_example :
    (total_in : ℕ) × (total_out : ℕ) × (total_in_from contract_ledger 0 contract_spend.inputs
      ≡ ok total_in)
    × (total_output_quanta contract_spend ≡ ok total_out)
    × Ran hash32 machine read_lock read_witness contract_ledger
        (full_context hash32 machine read_lock read_witness contract_spend 50 contract_ledger
          total_in total_out)
        100
        0
        contract_spend.inputs
        30
    × (30 ≤ 100)
verify_transaction_eutxo-Ran_example =
    verify_transaction_eutxo-Ran hash32 machine read_lock read_witness contract_spend 50
      contract_ledger 100 30 not_coinbase contract_passes

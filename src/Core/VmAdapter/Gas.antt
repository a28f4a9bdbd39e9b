-- ===== src/Core/VmAdapter/Gas.antt =====
-- What crates/scytale-core/src/vm_adapter.rs has run when it accepts a transaction, and the gas it counts.
use scytale.Base.{
  ℕ, ◌+◌, ◌-◌, ◌≤◌, ◌≡◌, inl, inr, true, false, Option, some, List, [], ◌∷◌, Result, ok,
  Option-cases, Result-cases, ◌≢◌, subst, ok-injective, arith,
}
use scytale.Base.Bytes.{Bytes, bytes_eq→≡}
use scytale.Primitives.{Hash256}
use scytale.Sdk.{TxContext}
use scytale.Vm.{VmError, ExecutionResult}
use scytale.Core.Types.{TxIn, Transaction, UtxoEntry}
use scytale.Core.Transaction.{is_coinbase, total_output_quanta}
use scytale.Core.Utxo.Map.{lookup}
use scytale.Core.Utxo.{UtxoSet}
use scytale.Core.Authorization.{OutputLock, public_key, script, from_locking_condition}
use scytale.Core.VmAdapter.{
  EutxoWitness, from_tx_in, total_in_from, run_script, run_inputs, full_context,
  verify_transaction_eutxo,
}

module _ (blake3 : Bytes → Hash256)
    (execute_validator : Bytes → Bytes → Bytes → TxContext → ℕ → Result VmError ExecutionResult)
    (decode_lock : Bytes → Option OutputLock) (decode_witness : Bytes → Option EutxoWitness) where
  -- A contract of the hash that accepted its datum and the redeemer of the input, on the gas that was left.
  pub record HasRun (ctx : TxContext) (gas_limit used total : ℕ) (input : TxIn)
      (script_hash datum : Bytes) : Type 0 where
    pub witness : EutxoWitness
    pub wasm_code : Bytes
    pub redeemer : Bytes
    pub exec_res : ExecutionResult
    pub witness_read : from_tx_in decode_witness input ≡ some witness
    pub code_given : witness.script_source ≡ some wasm_code
    pub redeemer_given : witness.redeemer ≡ some redeemer
    pub code_hash : blake3 wasm_code ≡ script_hash
    pub executed : execute_validator wasm_code datum redeemer ctx (gas_limit - used) ≡ ok exec_res
    pub valid : exec_res.is_valid ≡ true
    pub total_sum : total ≡ used + exec_res.gas_consumed
    pub within : total ≤ gas_limit

  module _ (utxos : UtxoSet) (ctx : TxContext) (gas_limit : ℕ) where
    -- Every scripted input has run, with the gas before it and after it.
    pub data Ran : ℕ → List TxIn → ℕ → Type 0 where
      finished : (used : ℕ) → Ran used [] used
      unscripted :
          (used total : ℕ) (i : TxIn) (is : List TxIn) (utxo : UtxoEntry)
          → lookup i.previous_output utxos.entries ≡ some utxo
          → ((script_hash datum : Bytes)
              → from_locking_condition decode_lock utxo.output.locking_condition
                ≢ some (script script_hash datum))
          → Ran used is total
          → Ran used (i ∷ is) total
      scripted :
          (used next total : ℕ) (i : TxIn) (is : List TxIn) (utxo : UtxoEntry)
          (script_hash datum : Bytes)
          → lookup i.previous_output utxos.entries ≡ some utxo
          → from_locking_condition decode_lock utxo.output.locking_condition
            ≡ some (script script_hash datum)
          → HasRun ctx gas_limit used next i script_hash datum
          → Ran next is total
          → Ran used (i ∷ is) total

    run_script-HasRun :
        (used total : ℕ) (i : TxIn) (script_hash datum : Bytes)
        → run_script blake3 execute_validator decode_lock decode_witness ctx gas_limit used i
            script_hash datum
          ≡ ok total
        → HasRun ctx gas_limit used total i script_hash datum
    unfolding run_script
    run_script-HasRun used total i script_hash datum h =
        elim (Option-cases (from_tx_in decode_witness i)) [
          | inl f ↦ absurd (ground arith)
          | inr (w, read) ↦ elim (Option-cases w.script_source) [
            | inl f ↦ absurd (ground arith)
            | inr (code, given) ↦ elim (Option-cases w.redeemer) [
              | inl f ↦ absurd (ground arith)
              | inr (redeemer, redeemed) ↦
                  elim (Result-cases
                    (execute_validator code datum redeemer ctx (gas_limit - used))) [
                      | inr (e, f) ↦ absurd (ground arith)
                      | inl (r, ran) ↦ record {
                        witness = w;
                        wasm_code = code;
                        redeemer = redeemer;
                        exec_res = r;
                        witness_read = read;
                        code_given = given;
                        redeemer_given = redeemed;
                        code_hash = bytes_eq→≡ (blake3 code) script_hash (ground arith);
                        executed = ran;
                        valid = ground arith;
                        total_sum = ground arith;
                        within = ground arith;
                      }
                    ]
            ]
          ]
        ]

    run_inputs-Ran :
        (used total : ℕ) (is : List TxIn)
        → run_inputs blake3 execute_validator decode_lock decode_witness utxos ctx gas_limit used is
          ≡ ok total
        → Ran used is total
    unfolding run_inputs
    run_inputs-Ran used total [] h = subst (λ t. Ran used [] t) (ok-injective h) (finished used)
    run_inputs-Ran used total (i ∷ is) h =
        elim (Option-cases (lookup i.previous_output utxos.entries)) [
          | inl f ↦ absurd (ground arith)
          | inr (utxo, found) ↦
              elim (Option-cases
                (from_locking_condition decode_lock utxo.output.locking_condition)) [
                  | inl n ↦
                      unscripted used total i is utxo found (λ hash datum e. ground (arith))
                        (run_inputs-Ran used total is (ground arith))
                  | inr (public_key key, f) ↦
                      unscripted used total i is utxo found (λ hash datum e. ground (arith))
                        (run_inputs-Ran used total is (ground arith))
                  | inr (script hash datum, f) ↦
                      elim (Result-cases (
                        run_script blake3 execute_validator decode_lock decode_witness ctx gas_limit
                          used i hash datum)) [
                            | inr (e, g) ↦ absurd (ground arith)
                            | inl (next, g) ↦
                                scripted used next total i is utxo hash datum found f
                                  (run_script-HasRun used next i hash datum g)
                                  (run_inputs-Ran next total is (ground arith))
                          ]
                ]
        ]

    -- The gas grows along the inputs and stays within the limit.
    Ran-within :
        {used total : ℕ} {is : List TxIn} → used ≤ gas_limit → Ran used is total → total ≤ gas_limit
    Ran-within h (finished used) = h
    Ran-within h (unscripted used total i is utxo found plain rest) = Ran-within h rest
    Ran-within h (scripted used next total i is utxo hash datum found lock run rest) =
        Ran-within run.within rest

  -- When a transaction that is not a coinbase is accepted, its inputs and its outputs add up without overflow,
  -- and for every scripted input in turn the code in its witness has the hash that the output names and has
  -- accepted the datum, the redeemer and the one context of the transaction on the gas that was left; what is
  -- returned is the sum of the gas, within the limit.
  pub verify_transaction_eutxo-Ran :
      (tx : Transaction) (block_time : ℕ) (utxos : UtxoSet) (gas_limit gas : ℕ)
      → is_coinbase tx ≡ false
      → verify_transaction_eutxo blake3 execute_validator decode_lock decode_witness tx block_time
          utxos gas_limit
        ≡ ok gas
      → (total_in : ℕ) × (total_out : ℕ) × (total_in_from utxos 0 tx.inputs ≡ ok total_in)
        × (total_output_quanta tx ≡ ok total_out)
        × Ran utxos
            (full_context blake3 execute_validator decode_lock decode_witness tx block_time utxos
              total_in total_out)
            gas_limit
            0
            tx.inputs
            gas
        × (gas ≤ gas_limit)
  unfolding verify_transaction_eutxo
  verify_transaction_eutxo-Ran tx block_time utxos gas_limit gas plain h =
      elim (Result-cases (total_in_from utxos 0 tx.inputs)) [
        | inr (e, f) ↦ absurd (ground arith)
        | inl (total_in, ins) ↦ elim (Result-cases (total_output_quanta tx)) [
          | inr (e, f) ↦ absurd (ground arith)
          | inl (total_out, outs) ↦
              let ctx =
                full_context blake3 execute_validator decode_lock decode_witness tx block_time utxos
                  total_in total_out in
              let ran = run_inputs-Ran utxos ctx gas_limit 0 gas tx.inputs (ground arith) in
              (
                total_in,
                total_out,
                ins,
                outs,
                ran,
                Ran-within utxos ctx gas_limit (omega arith) ran,
              )
        ]
      ]

-- ===== src/Vm/Fuel.antt =====
-- The gas that a run of crates/scytale-vm/src/lib.rs reports.
use scytale.Base.{
  ℕ, ◌≤◌, min, ◌≡◌, inl, inr, some, List, ok, ok_or, Option-cases, Result-cases, >>=-eq-ok, arith,
  Option,
}
use scytale.Base.Bytes.{Bytes}
use scytale.Sdk.{TxContext}
use scytale.Vm.{
  ExecutionResult, Runtime, max_wasm_fuel, max_wasm_memory_bytes, prepare, offsets, write_arguments,
  run_validate, execute_validator, memory_access_violation,
}

-- What the engine documents of its fuel: the calls never add any, and what is consumed was added.
pub record IsMetered {Module Store : Type 0} (wasmi : Runtime Module Store) : Type 1 where
  pub Has : Store → ℕ → Type 0
  pub new_has : (memory fuel : ℕ) (s : Store) → wasmi.new_store memory fuel ≡ some s → Has s fuel
  pub instantiate_has :
      (m : Module) (s t : Store) (fuel : ℕ)
      → wasmi.instantiate m s ≡ some t
      → Has s fuel
      → Has t fuel
  pub write_has :
      (offset : ℕ) (bytes : Bytes) (s t : Store) (fuel : ℕ)
      → wasmi.write offset bytes s ≡ some t
      → Has s fuel
      → Has t fuel
  pub call_has :
      (arguments : List ℕ) (s t : Store) (result fuel : ℕ)
      → wasmi.call_validate arguments s ≡ ok (result, t)
      → Has s fuel
      → Has t fuel
  pub consumed_has :
      (s : Store) (fuel gas : ℕ) → Has s fuel → wasmi.fuel_consumed s ≡ some gas → gas ≤ fuel

module _ {Module Store : Type 0} (wasmi : Runtime Module Store) (metered : IsMetered wasmi) where
  prepare_has :
      (code : Bytes) (gas_limit : ℕ) (s : Store)
      → prepare wasmi code gas_limit ≡ ok s
      → metered.Has s (min gas_limit max_wasm_fuel)
  unfolding prepare
  prepare_has code gas_limit s h = elim (Option-cases (wasmi.compile code)) [
    | inl f ↦ absurd (ground arith)
    | inr (m, compiled) ↦
        elim (Option-cases (wasmi.new_store max_wasm_memory_bytes (min gas_limit max_wasm_fuel))) [
          | inl f ↦ absurd (ground arith)
          | inr (fresh, made) ↦ elim (Option-cases (wasmi.instantiate m fresh)) [
            | inl f ↦ absurd (ground arith)
            | inr (t, started) ↦
                metered.instantiate_has m fresh s (min gas_limit max_wasm_fuel) (ground arith)
                  (metered.new_has max_wasm_memory_bytes (min gas_limit max_wasm_fuel) fresh made)
          ]
        ]
  ]

  write_arguments_has :
      (datum redeemer ctx_bytes : Bytes) (at : ℕ × ℕ) (s t : Store) (fuel : ℕ)
      → write_arguments wasmi datum redeemer ctx_bytes at s ≡ ok t
      → metered.Has s fuel
      → metered.Has t fuel
  unfolding write_arguments
  write_arguments_has datum redeemer ctx_bytes at s t fuel h has =
      elim (Option-cases (wasmi.write 1024 datum s)) [
        | inl f ↦ absurd (ground arith)
        | inr (s1, first) ↦ elim (Option-cases (wasmi.write at.0 redeemer s1)) [
          | inl f ↦ absurd (ground arith)
          | inr (s2, second) ↦ metered.write_has at.1 ctx_bytes s2 t fuel (ground arith) (
              metered.write_has at.0 redeemer s1 s2 fuel second
                (metered.write_has 1024 datum s s1 fuel first has))
        ]
      ]

  run_validate_gas :
      (arguments : List ℕ) (s : Store) (fuel : ℕ) (result : ExecutionResult)
      → run_validate wasmi arguments s ≡ ok result
      → metered.Has s fuel
      → result.gas_consumed ≤ fuel
  unfolding run_validate
  run_validate_gas arguments s fuel result h has =
      elim (Result-cases (wasmi.call_validate arguments s)) [
        | inr (e, f) ↦ absurd (ground arith)
        | inl (returned, called) ↦ elim (Option-cases (wasmi.fuel_consumed returned.1)) [
          | inl f ↦ absurd (ground arith)
          | inr (gas, used) ↦
              let bound =
                metered.consumed_has returned.1 fuel gas
                  (metered.call_has arguments s returned.1 returned.0 fuel called has) used in
              ground arith
        ]
      ]

  -- Where the engine meters its fuel, a run that returns reports no more gas than the limit that it was given,
  -- and no more than ten million, whatever the contract does.
  pub execute_validator_gas :
      (serialize : TxContext → Option Bytes) (code datum redeemer : Bytes) (ctx : TxContext)
      (gas_limit : ℕ) (result : ExecutionResult)
      → execute_validator wasmi serialize code datum redeemer ctx gas_limit ≡ ok result
      → result.gas_consumed ≤ min gas_limit max_wasm_fuel
  unfolding execute_validator
  execute_validator_gas serialize code datum redeemer ctx gas_limit result h =
      let (s, prepared, h1) = >>=-eq-ok (prepare wasmi code gas_limit) _ h in
      let (ctx_bytes, encoded, h2) =
        >>=-eq-ok (ok_or (serialize ctx) memory_access_violation) _ h1 in
      let (at, placed, h3) = >>=-eq-ok (offsets wasmi datum redeemer ctx_bytes) _ h2 in
      let (t, written, h4) = >>=-eq-ok (write_arguments wasmi datum redeemer ctx_bytes at s) _ h3 in
      run_validate_gas _ t (min gas_limit max_wasm_fuel) result h4 (
        write_arguments_has datum redeemer ctx_bytes at s t (min gas_limit max_wasm_fuel) written
          (prepare_has code gas_limit s prepared))

-- ===== src/Vm.antt =====
-- crates/scytale-vm/src/lib.rs: a run of a contract in the WebAssembly engine. The engine (wasmi, with the host
-- functions that it links) and the encoder of the context (bincode) are parameters. The modules and the stores of
-- the engine are abstract types; an `i32` that the contract returns is a number.
pub mod Fuel
use scytale.Base.{
  ℕ, suc, ◌+◌, ◌*◌, ◌^◌, ◌-◌, min, Bool, true, false, ◌&&◌, ◌||◌, Option, none, some, List, [], ◌∷◌,
  map, length, take, ltb, leb, ◌==◌, if◌then◌else◌, Result, ok, err, ◌>>=◌, ◌>>◌, ok_or, guard,
}
use scytale.Base.Bytes.{Bytes, bytes_eq}
use scytale.Base.Words.{checked_add}
use scytale.Sdk.{TxContext}

abbrev pub max_wasm_memory_pages : ℕ
max_wasm_memory_pages = 256

abbrev pub max_wasm_memory_bytes : ℕ
max_wasm_memory_bytes = max_wasm_memory_pages * 65536

abbrev pub max_wasm_fuel : ℕ
max_wasm_fuel = 10000000

abbrev pub i32_max : ℕ
i32_max = 2 ^ 31 - 1

pub data VmError : Type 0 where
  compilation_failed : VmError
  instantiation_failed : VmError
  execution_trapped : VmError
  memory_access_violation : VmError
  out_of_gas : VmError
  out_of_fuel : VmError
  memory_limit_exceeded : ℕ → ℕ → VmError

pub record ExecutionResult : Type 0 where
  pub is_valid : Bool
  pub gas_consumed : ℕ

-- The calls of the engine: a store is made with a memory limit and fuel; the memory is absent where the module
-- exports none; an error of the contract is its text.
pub record Runtime (Module Store : Type 0) : Type 0 where
  pub compile : Bytes → Option Module
  pub new_store : ℕ → ℕ → Option Store
  pub instantiate : Module → Store → Option Store
  pub current_pages : Store → Option ℕ
  pub write : ℕ → Bytes → Store → Option Store
  pub exports_validate : Store → Bool
  pub call_validate : List ℕ → Store → Result Bytes (ℕ × Store)
  pub fuel_consumed : Store → Option ℕ

-- `to_ascii_lowercase` and `contains("fuel")`.
abbrev pub lower : ℕ → ℕ
lower byte = if leb 65 byte && leb byte 90 then byte + 32 else byte

abbrev pub mentions_fuel : Bytes → Bool
mentions_fuel [] = false
mentions_fuel (b ∷ bs) =
    bytes_eq (map lower (take 4 (b ∷ bs))) (0x66 ∷ 0x75 ∷ 0x65 ∷ 0x6c ∷ []) || mentions_fuel bs

abbrev pub of_trap : Bytes → VmError
of_trap text = if mentions_fuel text then out_of_fuel else execution_trapped

module _ {Module Store : Type 0} (wasmi : Runtime Module Store) where
  abbrev pub check_pages : Store → Result VmError (Unit {0})
  check_pages store = elim (wasmi.current_pages store) [
    | none ↦ err memory_access_violation
    | some pages ↦
        guard (leb pages max_wasm_memory_pages) (memory_limit_exceeded pages max_wasm_memory_pages)
  ]

  -- Compilation, the store with its fuel, and the instance, whose memory is checked.
  unfoldable pub prepare : Bytes → ℕ → Result VmError Store
  prepare wasm_bytecode gas_limit = do
    compiled ← ok_or (wasmi.compile wasm_bytecode) compilation_failed
    fresh ← ok_or (wasmi.new_store max_wasm_memory_bytes (min gas_limit max_wasm_fuel)) out_of_gas
    store ← ok_or (wasmi.instantiate compiled fresh) instantiation_failed
    check_pages store
    ok store

  -- Where the three arguments go in memory, one behind the other.
  abbrev pub datum_offset : ℕ
  datum_offset = 1024

  unfoldable pub offsets : Bytes → Bytes → Bytes → Result VmError (ℕ × ℕ)
  offsets datum redeemer ctx_bytes = do
    redeemer_offset ← ok_or (checked_add datum_offset (length datum)) memory_access_violation
    ctx_offset ← ok_or (checked_add redeemer_offset (length redeemer)) memory_access_violation
    guard
        (leb (length datum) i32_max
          && leb (length redeemer) i32_max
          && leb (length ctx_bytes) i32_max
          && leb ctx_offset i32_max)
        memory_access_violation
    ok (redeemer_offset, ctx_offset)

  unfoldable pub write_arguments : Bytes → Bytes → Bytes → ℕ × ℕ → Store → Result VmError Store
  write_arguments datum redeemer ctx_bytes at store = do
    store1 ← ok_or (wasmi.write datum_offset datum store) memory_access_violation
    store2 ← ok_or (wasmi.write at.0 redeemer store1) memory_access_violation
    ok_or (wasmi.write at.1 ctx_bytes store2) memory_access_violation

  -- The call of the contract and what it has used.
  unfoldable pub run_validate : List ℕ → Store → Result VmError ExecutionResult
  run_validate arguments store = do
    guard (wasmi.exports_validate store) instantiation_failed
    returned ← elim (wasmi.call_validate arguments store) [
      | ok r ↦ ok r
      | err text ↦ err (of_trap text)
    ]
    check_pages returned.1
    gas_consumed ← ok_or (wasmi.fuel_consumed returned.1) out_of_fuel
    ok record { is_valid = returned.0 == 1; gas_consumed = gas_consumed }

  unfoldable pub execute_validator :
      (TxContext → Option Bytes)
      → Bytes
      → Bytes
      → Bytes
      → TxContext
      → ℕ
      → Result VmError ExecutionResult
  execute_validator serialize wasm_bytecode datum redeemer context gas_limit = do
    store ← prepare wasm_bytecode gas_limit
    ctx_bytes ← ok_or (serialize context) memory_access_violation
    at ← offsets datum redeemer ctx_bytes
    written ← write_arguments datum redeemer ctx_bytes at store
    run_validate
        (datum_offset ∷ length datum ∷ at.0 ∷ length redeemer ∷ at.1 ∷ length ctx_bytes ∷ [])
        written

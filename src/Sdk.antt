-- ===== src/Sdk.antt =====
-- crates/scytale-sdk/src/lib.rs: what the host shows to a contract, and its verdicts. The decoders (bincode) and
-- the Ed25519 check are parameters of the contracts.
use scytale.Base.{ℕ, zero, suc, Option, none, some, List, [], take}
use scytale.Base.Bytes.{Bytes}
use scytale.Primitives.{Hash256}

pub record TxContext : Type 0 where
  pub tx_hash : Hash256
  pub block_time : ℕ
  pub input_amount : ℕ
  pub fee_burned : ℕ
  pub input_datums : List Bytes
  pub output_datums : List Bytes
  pub ledger_state : List Bytes

-- `VALIDATION_SUCCESS` and `VALIDATION_REJECT`.
abbrev pub validation_success : ℕ
validation_success = 1

abbrev pub validation_reject : ℕ
validation_reject = 0

-- `parse_raw_slice`: a pointer is the memory it points at, and null is none.
unfoldable pub parse_raw_slice : Option Bytes → ℕ → Option Bytes
parse_raw_slice none zero = some []
parse_raw_slice none (suc len) = none
parse_raw_slice (some memory) len = some (take len memory)

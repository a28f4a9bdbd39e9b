-- ===== src/Core/Types.antt =====
-- The data of crates/scytale-core: src/transaction.rs, src/block.rs and src/utxo.rs, and the errors of
-- src/error.rs. A text that an error carries is a byte string.
use scytale.Base.{ℕ, Bool, List}
use scytale.Base.Bytes.{Bytes}
use scytale.Primitives.{Hash256, OutPoint, TxOut}

pub record TxIn : Type 0 where
  pub previous_output : OutPoint
  pub authorization : Bytes
  pub sequence : ℕ

pub record Transaction : Type 0 where
  pub version : ℕ
  pub inputs : List TxIn
  pub outputs : List TxOut
  pub lock_time : ℕ

pub record BlockHeader : Type 0 where
  pub version : ℕ
  pub previous_block_hash : Hash256
  pub transaction_commitment : Hash256
  pub utxo_root : Hash256
  pub timestamp : ℕ
  pub difficulty_target : ℕ
  pub nonce : ℕ

pub record Block : Type 0 where
  pub header : BlockHeader
  pub transactions : List Transaction

pub record UtxoEntry : Type 0 where
  pub output : TxOut
  pub block_height : ℕ
  pub is_coinbase : Bool

pub data SerializationError : Type 0 where
  unexpected_eof : ℕ → ℕ → SerializationError
  length_exceeds_limit : ℕ → ℕ → SerializationError
  trailing_bytes : ℕ → SerializationError
  unsupported_version : ℕ → SerializationError
  invalid_encoding : SerializationError
  io : Bytes → SerializationError

pub data TransactionError : Type 0 where
  invalid_version : ℕ → TransactionError
  empty_inputs : TransactionError
  empty_outputs : TransactionError
  zero_output_value : TransactionError
  output_value_overflow : TransactionError
  duplicate_input : OutPoint → TransactionError
  input_value_deficit : ℕ → ℕ → TransactionError
  arithmetic_overflow : TransactionError
  serialization_failure : Bytes → TransactionError

pub data UtxoError : Type 0 where
  duplicate_outpoint : OutPoint → UtxoError
  missing_utxo : OutPoint → UtxoError
  already_spent : OutPoint → UtxoError
  value_deficit : ℕ → ℕ → UtxoError
  utxo_overflow : UtxoError
  tx_error : TransactionError → UtxoError
  invalid_coinbase_placement : UtxoError

pub data BlockError : Type 0 where
  empty_transaction_vector : BlockError
  missing_coinbase : BlockError
  duplicate_coinbase : ℕ → BlockError
  transaction_error : TransactionError → BlockError
  serialization_error : SerializationError → BlockError
  invalid_utxo_root : Hash256 → Hash256 → BlockError

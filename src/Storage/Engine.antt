-- ===== src/Storage/Engine.antt =====
-- crates/scytale-storage/src/engine.rs: the tables of the engine and what it reads. A call on a table succeeds;
-- what a write transaction has written is dropped where the engine returns an error before it commits.
use scytale.Base.{ℕ, Option, none, some, ◌==◌, length, take, drop, Result, ok, err, ◌>>◌, guard}
use scytale.Base.Bytes.{Bytes, to_le_bytes, from_le_bytes}
use scytale.Base.Endian.{to_be_bytes, from_be_bytes}
use scytale.Primitives.{Hash256, OutPoint}
use scytale.Core.Types.{Transaction, Block, UtxoEntry}
use scytale.Core.Codec.Reader.{from_canonical_bytes}
use scytale.Core.Codec.Deserialize.{read_transaction, read_block, read_utxo_entry}
use scytale.Storage.Tables.{Table, StorageError, inconsistent_state, stored}
use scytale.Storage.Undo.{outpoint_to_key}

-- The tables. The two scalars of CHAIN_STATE have a field each.
pub record StorageEngine (T : Type 0) : Type 0 where
  pub blocks : T
  pub transactions : T
  pub utxos : T
  pub block_index : T
  pub tip_hash : Option Bytes
  pub tip_height : Option Bytes
  pub address_tx_index : T
  pub block_undo : T
  pub block_height_index : T
  pub tx_confirm_index : T

abbrev pub optional {ℓ} : {A : Type ℓ} → Result StorageError A → Result StorageError (Option A)
optional (ok a) = ok (some a)
optional (err e) = err e

abbrev pub set_tip : {T : Type 0} → Hash256 → ℕ → StorageEngine T → StorageEngine T
set_tip hash height e = record {
  blocks = e.blocks;
  transactions = e.transactions;
  utxos = e.utxos;
  block_index = e.block_index;
  tip_hash = some hash;
  tip_height = some (to_le_bytes 8 height);
  address_tx_index = e.address_tx_index;
  block_undo = e.block_undo;
  block_height_index = e.block_height_index;
  tx_confirm_index = e.tx_confirm_index;
}

module _ {T : Type 0} ⦃table : Table T⦄ where
  abbrev pub get_block : Hash256 → StorageEngine T → Result StorageError (Option Block)
  get_block hash e = elim (table.get hash e.blocks) [
    | none ↦ ok none
    | some bytes ↦ optional (stored (from_canonical_bytes read_block bytes))
  ]

  abbrev pub get_transaction : Hash256 → StorageEngine T → Result StorageError (Option Transaction)
  get_transaction id e = elim (table.get id e.transactions) [
    | none ↦ ok none
    | some bytes ↦ optional (stored (from_canonical_bytes read_transaction bytes))
  ]

  abbrev pub get_block_hash_by_height : ℕ → StorageEngine T → Option Hash256
  get_block_hash_by_height height e = table.get (to_be_bytes 8 height) e.block_height_index

  abbrev pub get_block_by_height : ℕ → StorageEngine T → Result StorageError (Option Block)
  get_block_by_height height e = elim (get_block_hash_by_height height e) [
    | none ↦ ok none
    | some hash ↦ get_block hash e
  ]

  -- The value has 40 bytes.
  abbrev pub get_transaction_location : Hash256 → StorageEngine T → Option (Hash256 × ℕ)
  get_transaction_location id e = elim (table.get id e.tx_confirm_index) [
    | none ↦ none
    | some bytes ↦ some (take 32 bytes, from_be_bytes (take 8 (drop 32 bytes)))
  ]

  abbrev pub get_transaction_height : Hash256 → StorageEngine T → Option ℕ
  get_transaction_height id e = elim (get_transaction_location id e) [
    | none ↦ none
    | some location ↦ some location.1
  ]

  unfoldable pub get_utxo : OutPoint → StorageEngine T → Result StorageError (Option UtxoEntry)
  get_utxo outpoint e = elim (table.get (outpoint_to_key outpoint) e.utxos) [
    | none ↦ ok none
    | some bytes ↦ optional (stored (from_canonical_bytes read_utxo_entry bytes))
  ]

  unfoldable pub get_canonical_tip : StorageEngine T → Result StorageError (Option (Hash256 × ℕ))
  get_canonical_tip e = elim e.tip_hash [
    | none ↦ ok none
    | some hash ↦ guard (length hash == 32) inconsistent_state >> elim e.tip_height [
      | none ↦ err inconsistent_state
      | some height ↦
          guard (length height == 8) inconsistent_state >> ok (some (hash, from_le_bytes height))
    ]
  ]

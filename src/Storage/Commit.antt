-- ===== src/Storage/Commit.antt =====
-- crates/scytale-storage/src/engine.rs: a block is written to all tables.
use scytale.Base.{ℕ, Option, none, some, List, [], ◌∷◌, ◌++◌, Result, ok, ◌>>=◌}
use scytale.Base.Bytes.{Bytes}
use scytale.Base.Endian.{to_be_bytes}
use scytale.Base.Maps.{bytes_key}
use scytale.Primitives.{Hash256}
use scytale.Core.Types.{Block}
use scytale.Core.Block.{header_hash}
use scytale.Core.Authorization.{OutputLock}
use scytale.Core.Codec.Serialize.{block_bytes}
use scytale.Storage.Tables.{
  Table, StorageError, stored, AddressTxRecord, make_address_tx_key, serialize_address_tx_records,
  deserialize_address_tx_records, meta_bytes,
}
use scytale.Storage.Connect.{Connecting, connect_transactions}
use scytale.Storage.Engine.{StorageEngine, set_tip}
use scytale.Storage.Undo.{BlockUndo, undo_bytes}

-- The records of an address behind those that the key has.
abbrev pub merge_records :
    Option Bytes → List AddressTxRecord → Result StorageError (List AddressTxRecord)
merge_records none new_records = ok new_records
merge_records (some bytes) new_records = do
  old ← stored (deserialize_address_tx_records bytes)
  ok (old ++ new_records)

-- `BlockUndo::to_bytes` and the table of the undo records.
abbrev pub undo_value : BlockUndo → Result StorageError Bytes
undo_value undo = stored (undo_bytes undo)

module _ {T : Type 0} ⦃table : Table T⦄ where
  unfoldable pub write_records : ℕ → List (Bytes × List AddressTxRecord) → T → Result StorageError T
  write_records height [] t = ok t
  write_records height ((address, new_records) ∷ rest) t = do
    merged ← merge_records (table.get (make_address_tx_key address height) t) new_records
    write_records height rest
        (table.insert (make_address_tx_key address height) (serialize_address_tx_records merged) t)

  abbrev pub starting : StorageEngine T → Connecting T
  starting e = record {
    transactions = e.transactions;
    utxos = e.utxos;
    tx_confirm_index = e.tx_confirm_index;
    block_addr_records = [];
    undo = record { spent_utxos = []; created_outpoints = [] };
  }

  -- What a block writes, the tip left aside: steps 1 to 4 of `commit_block`, and the body of the loop over
  -- the connected blocks of `apply_reorganization`.
  unfoldable pub connect_block :
      (Bytes → Hash256)
      → (Bytes → Option OutputLock)
      → Block
      → ℕ
      → ℕ × (ℕ × (ℕ × ℕ))
      → StorageEngine T
      → Result StorageError (StorageEngine T)
  connect_block blake3 decode_lock block height (work_0, (work_1, (work_2, work_3))) e =
      let hash = header_hash blake3 block.header in
      do
        bytes ← stored (block_bytes block)
        c ← connect_transactions blake3 decode_lock hash height block.transactions (starting e)
        address_tx_index ← write_records height c.block_addr_records e.address_tx_index
        undo ← undo_value c.undo
        ok (record {
          blocks = table.insert hash bytes e.blocks;
          transactions = c.transactions;
          utxos = c.utxos;
          block_index =
              table.insert hash
                (meta_bytes (record {
                  height = height;
                  work_0 = work_0;
                  work_1 = work_1;
                  work_2 = work_2;
                  work_3 = work_3;
                  timestamp = block.header.timestamp;
                }))
                e.block_index;
          tip_hash = e.tip_hash;
          tip_height = e.tip_height;
          address_tx_index = address_tx_index;
          block_undo = table.insert hash undo e.block_undo;
          block_height_index = table.insert (to_be_bytes 8 height) hash e.block_height_index;
          tx_confirm_index = c.tx_confirm_index;
        })

  unfoldable pub commit_block :
      (Bytes → Hash256)
      → (Bytes → Option OutputLock)
      → Block
      → ℕ
      → ℕ × (ℕ × (ℕ × ℕ))
      → StorageEngine T
      → Result StorageError (StorageEngine T)
  commit_block blake3 decode_lock block height work e = do
    e' ← connect_block blake3 decode_lock block height work e
    ok (set_tip (header_hash blake3 block.header) height e')

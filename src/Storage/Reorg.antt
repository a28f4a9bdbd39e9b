-- ===== src/Storage/Reorg.antt =====
-- crates/scytale-storage/src/engine.rs: how blocks are taken back and replaced.
use scytale.Base.{
  ℕ, ◌-◌, Bool, false, Option, none, some, List, [], ◌∷◌, if◌then◌else◌, get_elem?, Result, ok, err,
  ◌>>=◌, ok_or,
}
use scytale.Base.Bytes.{Bytes, bytes_eq}
use scytale.Base.Endian.{to_be_bytes}
use scytale.Primitives.{Hash256, OutPoint, TxOut}
use scytale.Core.Types.{TxIn, Transaction, Block, UtxoEntry}
use scytale.Core.Transaction.{is_coinbase, txid}
use scytale.Core.Block.{header_hash}
use scytale.Core.Authorization.{OutputLock}
use scytale.Core.Codec.Serialize.{utxo_entry_bytes}
use scytale.Core.Codec.Reader.{from_canonical_bytes}
use scytale.Core.Codec.Deserialize.{read_transaction}
use scytale.Storage.Tables.{
  Table, StorageError, inconsistent_state, stored, make_address_tx_key, meta_of_bytes,
  extract_address_from_locking_condition,
}
use scytale.Storage.Undo.{BlockUndo, outpoint_to_key}
use scytale.Storage.Undo.Read.{undo_of_bytes}
use scytale.Storage.Engine.{StorageEngine, set_tip}
use scytale.Storage.Commit.{connect_block}

-- `block_tx_map.get`. Of transactions with one identifier, the last one stands in the map.
abbrev pub in_block : (Bytes → Hash256) → Hash256 → List Transaction → Option Transaction
in_block blake3 id [] = none
in_block blake3 id (tx ∷ txs) = elim (in_block blake3 id txs) [
  | some later ↦ some later
  | none ↦ if bytes_eq (txid blake3 tx) id then some tx else none
]

abbrev pub is_tip : Hash256 → Option Bytes → Bool
is_tip hash none = false
is_tip hash (some tip) = bytes_eq tip hash

module _ {T : Type 0} ⦃table : Table T⦄ where
  -- The created outputs go, and then the spent ones come back.
  unfoldable pub remove_created : List OutPoint → T → T
  remove_created [] t = t
  remove_created (o ∷ os) t = remove_created os (table.remove (outpoint_to_key o) t)

  unfoldable pub insert_spent : List (OutPoint × UtxoEntry) → T → Result StorageError T
  insert_spent [] t = ok t
  insert_spent ((o, entry) ∷ spent) t = do
    bytes ← stored (utxo_entry_bytes entry)
    insert_spent spent (table.insert (outpoint_to_key o) bytes t)

  unfoldable pub restore_utxos : BlockUndo → T → Result StorageError T
  restore_utxos undo t = insert_spent undo.spent_utxos (remove_created undo.created_outpoints t)

  -- The loop over the transactions of the block, on TRANSACTIONS and on TX_CONFIRM_INDEX.
  unfoldable pub forget_transactions : (Bytes → Hash256) → List Transaction → T → T
  forget_transactions blake3 [] t = t
  forget_transactions blake3 (tx ∷ txs) t =
      forget_transactions blake3 txs (table.remove (txid blake3 tx) t)

  module _ (blake3 : Bytes → Hash256) (decode_lock : Bytes → Option OutputLock) where
    -- A transaction that does not decode is passed over.
    abbrev pub stored_output : OutPoint → T → Option TxOut
    stored_output o transactions = elim (table.get o.txid transactions) [
      | none ↦ none
      | some bytes ↦ elim (from_canonical_bytes read_transaction bytes) [
        | err e ↦ none
        | ok prev_tx ↦ get_elem? prev_tx.outputs o.index
      ]
    ]

    abbrev pub previous_output_of : List Transaction → T → OutPoint → Option TxOut
    previous_output_of txs transactions o = elim (in_block blake3 o.txid txs) [
      | some local_tx ↦ get_elem? local_tx.outputs o.index
      | none ↦ stored_output o transactions
    ]

    -- The records of the output's address at this height go.
    abbrev pub forget_address : ℕ → TxOut → T → T
    forget_address height output t =
        elim (extract_address_from_locking_condition blake3 decode_lock output.locking_condition) [
          | none ↦ t
          | some address ↦ table.remove (make_address_tx_key address height) t
        ]

    abbrev pub forget_outputs : ℕ → List TxOut → T → T
    forget_outputs height [] t = t
    forget_outputs height (o ∷ os) t = forget_outputs height os (forget_address height o t)

    abbrev pub forget_spent : ℕ → Option TxOut → T → T
    forget_spent height none t = t
    forget_spent height (some output) t = forget_address height output t

    abbrev pub forget_inputs : List Transaction → T → ℕ → List TxIn → T → T
    forget_inputs txs transactions height [] t = t
    forget_inputs txs transactions height (i ∷ is) t =
        forget_inputs txs transactions height is
          (forget_spent height (previous_output_of txs transactions i.previous_output) t)

    -- The loop over these transactions of the block `txs`. The set of touched addresses is left out: an
    -- address is removed when it is met, once or more.
    abbrev pub forget_records : List Transaction → T → ℕ → List Transaction → T → T
    forget_records txs transactions height [] t = t
    forget_records txs transactions height (tx ∷ rest) t =
        forget_records txs transactions height rest (
          forget_inputs txs transactions height (if is_coinbase tx then [] else tx.inputs)
            (forget_outputs height tx.outputs t))

    abbrev pub remove_block_address_records_internal : Block → ℕ → StorageEngine T → T
    remove_block_address_records_internal block height e =
        forget_records block.transactions e.transactions height block.transactions
          e.address_tx_index

    -- The store without the block, but for its address records, its place by height, and the tip.
    abbrev pub without_block : Block → T → StorageEngine T → StorageEngine T
    without_block block utxos e =
        let hash = header_hash blake3 block.header in
        record {
          blocks = table.remove hash e.blocks;
          transactions = forget_transactions blake3 block.transactions e.transactions;
          utxos = utxos;
          block_index = table.remove hash e.block_index;
          tip_hash = e.tip_hash;
          tip_height = e.tip_height;
          address_tx_index = e.address_tx_index;
          block_undo = table.remove hash e.block_undo;
          block_height_index = e.block_height_index;
          tx_confirm_index = forget_transactions blake3 block.transactions e.tx_confirm_index;
        }

    unfoldable pub disconnect_block :
        Block → StorageEngine T → Result StorageError (StorageEngine T)
    disconnect_block block e = do
      bytes ← ok_or (table.get (header_hash blake3 block.header) e.block_undo) inconsistent_state
      undo ← undo_of_bytes bytes
      utxos ← restore_utxos undo e.utxos
      ok (without_block block utxos e)

    -- The address records of the block, and its place by height.
    unfoldable pub forget_height : Block → ℕ → StorageEngine T → StorageEngine T
    forget_height block height e = record {
      blocks = e.blocks;
      transactions = e.transactions;
      utxos = e.utxos;
      block_index = e.block_index;
      tip_hash = e.tip_hash;
      tip_height = e.tip_height;
      address_tx_index = remove_block_address_records_internal block height e;
      block_undo = e.block_undo;
      block_height_index = table.remove (to_be_bytes 8 height) e.block_height_index;
      tx_confirm_index = e.tx_confirm_index;
    }

    -- `saturating_sub` is subtraction here.
    unfoldable pub unwind_block :
        Block → ℕ → StorageEngine T → Result StorageError (StorageEngine T)
    unwind_block block height e = do
      e' ← disconnect_block block (forget_height block height e)
      ok (
          if is_tip (header_hash blake3 block.header) e'.tip_hash
          then set_tip block.header.previous_block_hash (height - 1) e'
          else e')

    -- The height that the index has of the block.
    abbrev pub indexed_height : Block → StorageEngine T → Option ℕ
    indexed_height block e = elim (table.get (header_hash blake3 block.header) e.block_index) [
      | none ↦ none
      | some bytes ↦ elim (meta_of_bytes bytes) [ none ↦ none | some meta ↦ some meta.height ]
    ]

    abbrev pub forget_indexed : Block → Option ℕ → StorageEngine T → StorageEngine T
    forget_indexed block none e = e
    forget_indexed block (some height) e = forget_height block height e

    unfoldable pub disconnect_blocks :
        List Block → StorageEngine T → Result StorageError (StorageEngine T)
    disconnect_blocks [] e = ok e
    disconnect_blocks (block ∷ blocks) e = do
      e' ← disconnect_block block (forget_indexed block (indexed_height block e) e)
      disconnect_blocks blocks e'

    -- The tip moves to the last of the blocks.
    unfoldable pub connect_blocks :
        List (Block × (ℕ × (ℕ × (ℕ × (ℕ × ℕ)))))
        → StorageEngine T
        → Result StorageError (StorageEngine T)
    connect_blocks [] e = ok e
    connect_blocks ((block, (height, work)) ∷ blocks) e = do
      e' ← connect_block blake3 decode_lock block height work e
      connect_blocks blocks (set_tip (header_hash blake3 block.header) height e')

    unfoldable pub apply_reorganization :
        List Block
        → List (Block × (ℕ × (ℕ × (ℕ × (ℕ × ℕ)))))
        → StorageEngine T
        → Result StorageError (StorageEngine T)
    apply_reorganization disconnected connected e = do
      e' ← disconnect_blocks disconnected e
      connect_blocks connected e'

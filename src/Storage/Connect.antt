-- ===== src/Storage/Connect.antt =====
-- crates/scytale-storage/src/engine.rs: how a block is committed. A hash map of records is an association list.
use scytale.Base.{
  ℕ, suc, ◌%◌, ◌^◌, Bool, true, false, Option, none, some, List, [], ◌∷◌, ◌++◌, if◌then◌else◌, not,
  get_elem?, Result, ok, ◌>>=◌,
}
use scytale.Base.Bytes.{Bytes}
use scytale.Base.Endian.{to_be_bytes}
use scytale.Base.Maps
use scytale.Base.Maps.{bytes_key}
use scytale.Primitives.{Hash256, OutPoint, TxOut}
use scytale.Core.Types.{TxIn, Transaction, UtxoEntry}
use scytale.Core.Transaction.{is_coinbase, is_op_return, txid}
use scytale.Core.Authorization.{OutputLock}
use scytale.Core.Codec.Serialize.{transaction_bytes, utxo_entry_bytes}
use scytale.Core.Codec.Reader.{from_canonical_bytes}
use scytale.Core.Codec.Deserialize.{read_transaction, read_utxo_entry}
use scytale.Storage.Tables.{
  Table, StorageError, stored, AddressTxRecord, extract_address_from_locking_condition,
}
use scytale.Storage.Undo.{BlockUndo, outpoint_to_key}

-- What the loop over the transactions of a block changes.
pub record Connecting (T : Type 0) : Type 0 where
  pub transactions : T
  pub utxos : T
  pub tx_confirm_index : T
  pub block_addr_records : List (Bytes × List AddressTxRecord)
  pub undo : BlockUndo

-- `.entry(addr).or_default().push(record)`.
abbrev pub add_record :
    Bytes
    → AddressTxRecord
    → List (Bytes × List AddressTxRecord)
    → List (Bytes × List AddressTxRecord)
add_record address r records = elim (Maps.lookup address records) [
  | none ↦ Maps.insert address (r ∷ []) records
  | some old ↦ Maps.insert address (old ++ r ∷ []) records
]

module _ (blake3 : Bytes → Hash256) (decode_lock : Bytes → Option OutputLock) where
  -- A record for the address of an output, if it has one.
  abbrev pub index_output :
      Hash256
      → Bool
      → TxOut
      → List (Bytes × List AddressTxRecord)
      → List (Bytes × List AddressTxRecord)
  index_output id spends output records =
      elim (extract_address_from_locking_condition blake3 decode_lock output.locking_condition) [
        | none ↦ records
        | some address ↦
            add_record address
              (record {
                txid = id;
                is_input = spends;
                is_output = not spends;
                value_quanta = output.value;
                token_id = none;
              })
              records
      ]

  abbrev pub index_spent :
      Hash256
      → Option TxOut
      → List (Bytes × List AddressTxRecord)
      → List (Bytes × List AddressTxRecord)
  index_spent id none records = records
  index_spent id (some output) records = index_output id true output records

abbrev pub push_spent : OutPoint → Option UtxoEntry → BlockUndo → BlockUndo
push_spent o none undo = undo
push_spent o (some entry) undo = record {
  spent_utxos = undo.spent_utxos ++ (o, entry) ∷ [];
  created_outpoints = undo.created_outpoints;
}

module _ {T : Type 0} ⦃table : Table T⦄ where
  -- The entry that goes to the undo record, and the output for the address index.
  abbrev pub find_spent :
      OutPoint → Connecting T → Result StorageError (Option UtxoEntry × Option TxOut)
  find_spent o c = elim (table.get (outpoint_to_key o) c.utxos) [
    | some bytes ↦ do
      entry ← stored (from_canonical_bytes read_utxo_entry bytes)
      ok (some entry, some entry.output)
    | none ↦ elim (table.get o.txid c.transactions) [
      | none ↦ ok (none, none)
      | some bytes ↦ do
        prev_tx ← stored (from_canonical_bytes read_transaction bytes)
        ok (none, get_elem? prev_tx.outputs o.index)
    ]
  ]

  module _ (blake3 : Bytes → Hash256) (decode_lock : Bytes → Option OutputLock) where
    unfoldable pub spend_input : Hash256 → TxIn → Connecting T → Result StorageError (Connecting T)
    spend_input id i c = do
      found ← find_spent i.previous_output c
      ok (record {
        transactions = c.transactions;
        utxos = table.remove (outpoint_to_key i.previous_output) c.utxos;
        tx_confirm_index = c.tx_confirm_index;
        block_addr_records = index_spent blake3 decode_lock id found.1 c.block_addr_records;
        undo = push_spent i.previous_output found.0 c.undo;
      })

    unfoldable pub spend_inputs :
        Hash256 → List TxIn → Connecting T → Result StorageError (Connecting T)
    spend_inputs id [] c = ok c
    spend_inputs id (i ∷ is) c = do c' ← spend_input id i c; spend_inputs id is c'

    -- The body of the loop over the outputs. An index is taken `as u32`.
    unfoldable pub create_output :
        Hash256 → ℕ → Bool → ℕ → TxOut → Connecting T → Result StorageError (Connecting T)
    create_output id height coinbase index output c =
        let records = index_output blake3 decode_lock id false output c.block_addr_records in
        let new_op : OutPoint = record { txid = id; index = index % 2 ^ 32 } in
        if is_op_return output
        then ok (record {
          transactions = c.transactions;
          utxos = c.utxos;
          tx_confirm_index = c.tx_confirm_index;
          block_addr_records = records;
          undo = c.undo;
        })
        else (do
          bytes ← stored (
              utxo_entry_bytes
                (record { output = output; block_height = height; is_coinbase = coinbase }))
          ok (record {
            transactions = c.transactions;
            utxos = table.insert (outpoint_to_key new_op) bytes c.utxos;
            tx_confirm_index = c.tx_confirm_index;
            block_addr_records = records;
            undo = record {
              spent_utxos = c.undo.spent_utxos;
              created_outpoints = c.undo.created_outpoints ++ new_op ∷ [];
            };
          }))

    unfoldable pub create_outputs :
        Hash256 → ℕ → Bool → ℕ → List TxOut → Connecting T → Result StorageError (Connecting T)
    create_outputs id height coinbase index [] c = ok c
    create_outputs id height coinbase index (o ∷ os) c = do
      c' ← create_output id height coinbase index o c
      create_outputs id height coinbase (suc index) os c'

    unfoldable pub connect_transaction :
        Hash256 → ℕ → Transaction → Connecting T → Result StorageError (Connecting T)
    connect_transaction hash height tx c = do
      tx_bytes ← stored (transaction_bytes tx)
      spent ← spend_inputs (txid blake3 tx) (if is_coinbase tx then [] else tx.inputs) (record {
        transactions = table.insert (txid blake3 tx) tx_bytes c.transactions;
        utxos = c.utxos;
        tx_confirm_index =
            table.insert (txid blake3 tx) (hash ++ to_be_bytes 8 height) c.tx_confirm_index;
        block_addr_records = c.block_addr_records;
        undo = c.undo;
      })
      create_outputs (txid blake3 tx) height (is_coinbase tx) 0 tx.outputs spent

    unfoldable pub connect_transactions :
        Hash256 → ℕ → List Transaction → Connecting T → Result StorageError (Connecting T)
    connect_transactions hash height [] c = ok c
    connect_transactions hash height (tx ∷ txs) c = do
      c' ← connect_transaction hash height tx c
      connect_transactions hash height txs c'

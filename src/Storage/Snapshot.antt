-- ===== src/Storage/Snapshot.antt =====
-- crates/scytale-storage/src/engine.rs: the table of unspent outputs as a whole, and the queries by address.
use scytale.Base.{
  ℕ, ◌-◌, ◌&&◌, ◌||◌, Option, none, some, List, [], ◌∷◌, ◌++◌, map, ltb, ◌==◌, if◌then◌else◌, take,
  drop, length, Result, ok, err, ◌>>=◌, ◌>>◌, guard,
}
use scytale.Base.Bytes.{Bytes, bytes_eq}
use scytale.Base.Endian.{bytes_leb, from_be_bytes}
use scytale.Primitives.{Hash256, zero_hash}
use scytale.Core.Types.{UtxoError}
use scytale.Core.Utxo.Map.{Entries}
use scytale.Core.Utxo.{UtxoSet, empty, insert}
use scytale.Core.Merkle.{sort_entries, compute_utxo_leaf, compute_utxo_merkle_root}
use scytale.Core.Codec.Serialize.{utxo_entry_bytes}
use scytale.Core.Codec.Reader.{from_canonical_bytes}
use scytale.Core.Codec.Deserialize.{read_utxo_entry}
use scytale.Storage.Tables.{
  Table, StorageError, inconsistent_state, stored, AddressTxRecord, make_address_tx_key,
  deserialize_address_tx_records,
}
use scytale.Storage.Undo.{outpoint_to_key, key_to_outpoint}
use scytale.Storage.Engine.{StorageEngine, get_canonical_tip}

pub record UtxoSnapshotDto : Type 0 where
  pub height : ℕ
  pub block_hash : Hash256
  pub utxo_root : Hash256
  pub entries : Entries

-- The pairs of the table, decoded.
unfoldable pub read_entries : List (Bytes × Bytes) → Result StorageError Entries
read_entries [] = ok []
read_entries ((key, value) ∷ rest) = do
  entry ← stored (from_canonical_bytes read_utxo_entry value)
  entries ← read_entries rest
  ok ((key_to_outpoint key, entry) ∷ entries)

-- `utxo_set.insert`, whose error becomes one of the engine.
abbrev inserted : UtxoSet × Result UtxoError (Unit {0}) → Result StorageError UtxoSet
inserted (s, ok _) = ok s
inserted (s, err e) = err inconsistent_state

abbrev pub load_entries : List (Bytes × Bytes) → UtxoSet → Result StorageError UtxoSet
load_entries [] s = ok s
load_entries ((key, value) ∷ rest) s = do
  entry ← stored (from_canonical_bytes read_utxo_entry value)
  s' ← inserted (insert (key_to_outpoint key) entry s)
  load_entries rest s'

-- The leaves, in the order of the entries.
abbrev pub leaves_in_order : (Bytes → Hash256) → Entries → List Hash256
leaves_in_order blake3 entries = map (λ x. compute_utxo_leaf blake3 x.0 x.1.output) entries

-- Without a tip, the zero hash at height 0.
abbrev tip_or_zero : Option (Hash256 × ℕ) → Hash256 × ℕ
tip_or_zero none = (zero_hash, 0)
tip_or_zero (some tip) = tip

-- `table.range(start..=end)`.
abbrev pub range : Bytes → Bytes → List (Bytes × Bytes) → List (Bytes × Bytes)
range from to [] = []
range from to (x ∷ xs) =
    let rest = range from to xs in if bytes_leb from x.0 && bytes_leb x.0 to then x ∷ rest else rest

abbrev pub at_height : ℕ → List AddressTxRecord → List (ℕ × AddressTxRecord)
at_height height records = map (λ r. (height, r)) records

-- The loop, for this many more records, at least one. The height is the end of the key.
abbrev pub collect_records :
    ℕ → List (Bytes × Bytes) → Result StorageError (List (ℕ × AddressTxRecord))
collect_records more [] = ok []
collect_records more ((key, value) ∷ rest) = do
  records ← stored (deserialize_address_tx_records value)
  let found = at_height (from_be_bytes (take 8 (drop 32 key))) records in
      if ltb (length records) more
      then (do later ← collect_records (more - length records) rest; ok (found ++ later))
      else ok (take more found)

module _ {T : Type 0} ⦃table : Table T⦄ where
  abbrev pub load_entire_utxo_set : StorageEngine T → Result StorageError UtxoSet
  load_entire_utxo_set e = load_entries (table.iter e.utxos) empty

  unfoldable pub stored_utxo_root :
      (Bytes → Hash256) → StorageEngine T → Result StorageError Hash256
  stored_utxo_root blake3 e = do
    entries ← read_entries (table.iter e.utxos)
    ok (compute_utxo_merkle_root blake3 (leaves_in_order blake3 entries))

  unfoldable pub export_utxo_snapshot :
      (Bytes → Hash256) → StorageEngine T → Result StorageError UtxoSnapshotDto
  export_utxo_snapshot blake3 e = do
    tip ← get_canonical_tip e
    entries ← read_entries (table.iter e.utxos)
    ok (record {
      height = (tip_or_zero tip).1;
      block_hash = (tip_or_zero tip).0;
      utxo_root = compute_utxo_merkle_root blake3 (leaves_in_order blake3 entries);
      entries = entries;
    })

  unfoldable pub remove_keys : List (Bytes × Bytes) → T → T
  remove_keys [] t = t
  remove_keys ((key, value) ∷ rest) t = remove_keys rest (table.remove key t)

  unfoldable pub insert_entries : Entries → T → Result StorageError T
  insert_entries [] t = ok t
  insert_entries ((outpoint, entry) ∷ rest) t = do
    bytes ← stored (utxo_entry_bytes entry)
    insert_entries rest (table.insert (outpoint_to_key outpoint) bytes t)

  -- Every key goes, and then the entries come.
  unfoldable pub replace_utxos : Entries → T → Result StorageError T
  replace_utxos entries t = insert_entries entries (remove_keys (table.iter t) t)

  abbrev pub with_utxos : StorageEngine T → T → StorageEngine T
  with_utxos e utxos = record {
    blocks = e.blocks;
    transactions = e.transactions;
    utxos = utxos;
    block_index = e.block_index;
    tip_hash = e.tip_hash;
    tip_height = e.tip_height;
    address_tx_index = e.address_tx_index;
    block_undo = e.block_undo;
    block_height_index = e.block_height_index;
    tx_confirm_index = e.tx_confirm_index;
  }

  unfoldable pub replace_utxo_set :
      UtxoSet → StorageEngine T → Result StorageError (StorageEngine T)
  replace_utxo_set s e = do utxos ← replace_utxos s.entries e.utxos; ok (with_utxos e utxos)

  unfoldable pub apply_utxo_snapshot :
      (Bytes → Hash256) → UtxoSnapshotDto → StorageEngine T → Result StorageError (StorageEngine T)
  apply_utxo_snapshot blake3 snapshot e =
      let sorted = sort_entries snapshot.entries in
      let root = compute_utxo_merkle_root blake3 (leaves_in_order blake3 sorted) in
      guard (bytes_eq root snapshot.utxo_root) inconsistent_state
      >> (do utxos ← replace_utxos sorted e.utxos; ok (with_utxos e utxos))

  unfoldable pub get_address_transactions_with_height :
      Bytes → ℕ → ℕ → ℕ → StorageEngine T → Result StorageError (List (ℕ × AddressTxRecord))
  get_address_transactions_with_height address from_height to_height limit e =
      if (limit == 0) || ltb to_height from_height
      then ok []
      else collect_records limit (
          range (make_address_tx_key address from_height) (make_address_tx_key address to_height)
            (table.iter e.address_tx_index))

  unfoldable pub get_address_transactions :
      Bytes → ℕ → ℕ → ℕ → StorageEngine T → Result StorageError (List AddressTxRecord)
  get_address_transactions address from_height to_height limit e = do
    found ← get_address_transactions_with_height address from_height to_height limit e
    ok (map (λ x. x.1) found)

-- ===== src/Storage/Undo/Read.antt =====
-- crates/scytale-storage/src/engine.rs: how the undo record of a block is read.
use scytale.Base.{ltb, if◌then◌else◌, length, Result, ok, err}
use scytale.Base.Bytes.{Bytes}
use scytale.Primitives.{OutPoint}
use scytale.Core.Types.{UtxoEntry}
use scytale.Core.Codec.Reader.{Reader, ◌>>=◌, return, read_n}
use scytale.Core.Codec.Deserialize.{read_u32, read_outpoint, read_utxo_entry}
use scytale.Storage.Tables.{StorageError, serialization}
use scytale.Storage.Undo.{BlockUndo}

unfoldable pub read_spent : Reader (OutPoint × UtxoEntry)
read_spent = do outpoint ← read_outpoint; entry ← read_utxo_entry; return (outpoint, entry)

unfoldable pub read_undo : Reader BlockUndo
read_undo = do
  spent_count ← read_u32
  spent_utxos ← read_n spent_count read_spent
  created_count ← read_u32
  created_outpoints ← read_n created_count read_outpoint
  return (record { spent_utxos = spent_utxos; created_outpoints = created_outpoints })

-- `BlockUndo::from_bytes`. Nothing may be left.
unfoldable pub undo_of_bytes : Bytes → Result StorageError BlockUndo
undo_of_bytes bytes = elim (read_undo bytes) [
  | err e ↦ err serialization
  | ok (undo, rest) ↦ if ltb 0 (length rest) then err serialization else ok undo
]

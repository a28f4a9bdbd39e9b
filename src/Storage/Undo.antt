-- ===== src/Storage/Undo.antt =====
-- crates/scytale-storage/src/engine.rs: the undo record of a block, how it is written, and the keys of the
-- table of unspent outputs.
pub mod Read
use scytale.Base.{List, ◌++◌, length, take, drop, Result, ok, err, ◌>>=◌}
use scytale.Base.Bytes.{Bytes, to_le_bytes, from_le_bytes}
use scytale.Primitives.{OutPoint}
use scytale.Core.Types.{UtxoEntry}
use scytale.Core.Codec.Serialize.{Writer, count_bytes, outpoint_bytes, each_bytes, utxo_entry_bytes}

pub record BlockUndo : Type 0 where
  pub spent_utxos : List (OutPoint × UtxoEntry)
  pub created_outpoints : List OutPoint

unfoldable pub spent_bytes : OutPoint × UtxoEntry → Writer
spent_bytes (outpoint, entry) = do
  bytes ← utxo_entry_bytes entry
  ok (outpoint_bytes outpoint ++ bytes)

unfoldable pub created_bytes : OutPoint → Writer
created_bytes outpoint = ok (outpoint_bytes outpoint)

-- `BlockUndo::to_bytes`, before the errors are mapped.
unfoldable pub undo_bytes : BlockUndo → Writer
undo_bytes undo = do
  spent ← each_bytes spent_bytes undo.spent_utxos
  created ← each_bytes created_bytes undo.created_outpoints
  ok (
      count_bytes (length undo.spent_utxos)
      ++ (spent ++ (count_bytes (length undo.created_outpoints) ++ created)))

abbrev pub outpoint_to_key : OutPoint → Bytes
outpoint_to_key outpoint = outpoint.txid ++ to_le_bytes 4 outpoint.index

abbrev pub key_to_outpoint : Bytes → OutPoint
key_to_outpoint key = record { txid = take 32 key; index = from_le_bytes (take 4 (drop 32 key)) }

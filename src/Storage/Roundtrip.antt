-- ===== src/Storage/Roundtrip.antt =====
-- Reading back the undo record of a block.
use scytale.Base.{ℕ, ◌%◌, ◌^◌, ◌<◌, ◌≡◌, sym, ap, ◌∙◌, [], length, All, ok, >>=-eq-ok, arith}
use mathlib.Core.List.{append-nil}
use scytale.Base.Bytes.{Bytes}
use scytale.Primitives.{OutPoint}
use scytale.Core.Types.{UtxoEntry}
use scytale.Core.Codec.Serialize.{count_bytes, outpoint_bytes, each_bytes, utxo_entry_bytes}
use scytale.Core.Codec.Reader.{read_n, Reads, Reads-written, Reads->>=, Reads-last}
use scytale.Core.Codec.Deserialize.{read_u32, read_outpoint, read_utxo_entry}
use scytale.Core.Codec.Roundtrip.{
  IsOutPoint, IsEntry, u32-Reads, outpoint-Reads, utxo_entry-Reads, each-Reads,
}
use scytale.Storage.Undo.{BlockUndo, spent_bytes, created_bytes, undo_bytes}
use scytale.Storage.Undo.Read.{read_spent, read_undo, undo_of_bytes}

-- What the Rust types guarantee, and counts that fit their 32 bits.
pub record IsUndo (undo : BlockUndo) : Type 0 where
  pub spent_ok : All (λ x. IsOutPoint x.0 × IsEntry x.1) undo.spent_utxos
  pub spent_count : length undo.spent_utxos < 2 ^ 32
  pub created_ok : All IsOutPoint undo.created_outpoints
  pub created_count : length undo.created_outpoints < 2 ^ 32

count-Reads : (n : ℕ) → n < 2 ^ 32 → Reads read_u32 (count_bytes n) n
unfolding count_bytes
count-Reads n h = let e : n % 2 ^ 32 ≡ n = omega arith in rw e (u32-Reads n h)

spent-Reads :
    (x : OutPoint × UtxoEntry) (ws : Bytes)
    → IsOutPoint x.0 × IsEntry x.1
    → spent_bytes x ≡ ok ws
    → Reads read_spent ws x
unfolding spent_bytes read_spent
spent-Reads (o, u) ws h e =
    let (vs, ve, le) = >>=-eq-ok (utxo_entry_bytes u) _ e in
    Reads-written read_spent (o, u) le
      (Reads->>= read_outpoint _ (outpoint_bytes o) vs o (o, u) (outpoint-Reads o h.0)
        (Reads-last read_utxo_entry _ vs u (utxo_entry-Reads u vs h.1 ve)))

created-Reads :
    (o : OutPoint) (ws : Bytes) → IsOutPoint o → created_bytes o ≡ ok ws → Reads read_outpoint ws o
unfolding created_bytes
created-Reads o ws h e = Reads-written read_outpoint o e (outpoint-Reads o h)

undo-Reads :
    (undo : BlockUndo) (ws : Bytes)
    → IsUndo undo
    → undo_bytes undo ≡ ok ws
    → Reads read_undo ws undo
unfolding undo_bytes read_undo
undo-Reads undo ws h e =
    let (ss, se, e') = >>=-eq-ok (each_bytes spent_bytes undo.spent_utxos) _ e in
    let (cs, ce, le) = >>=-eq-ok (each_bytes created_bytes undo.created_outpoints) _ e' in
    Reads-written read_undo undo le (
      Reads->>= read_u32 _ (count_bytes (length undo.spent_utxos)) _ (length undo.spent_utxos) undo
        (count-Reads (length undo.spent_utxos) h.spent_count)
        (Reads->>= (read_n (length undo.spent_utxos) read_spent) _ ss _ undo.spent_utxos undo
          (each-Reads _ spent_bytes read_spent spent-Reads undo.spent_utxos ss h.spent_ok se)
          (Reads->>= read_u32 _ (count_bytes (length undo.created_outpoints)) cs
            (length undo.created_outpoints) undo
            (count-Reads (length undo.created_outpoints) h.created_count)
            (Reads-last (read_n (length undo.created_outpoints) read_outpoint) _ cs
              undo.created_outpoints
              (each-Reads IsOutPoint created_bytes read_outpoint created-Reads
                undo.created_outpoints cs h.created_ok ce)))))

-- An undo record of in-range values that can be written is read back from exactly the bytes written.
pub undo_of_bytes-undo_bytes :
    (undo : BlockUndo) (ws : Bytes)
    → IsUndo undo
    → undo_bytes undo ≡ ok ws
    → undo_of_bytes ws ≡ ok undo
unfolding undo_of_bytes
undo_of_bytes-undo_bytes undo ws h e =
    let read : read_undo ws ≡ ok (undo, []) =
      ap read_undo (sym (append-nil ws)) ∙ undo-Reads undo ws h e [] in
    rw (read, undo_of_bytes)

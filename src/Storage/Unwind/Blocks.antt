-- ===== src/Storage/Unwind/Blocks.antt =====
-- A block that is committed and taken back leaves the unspent outputs as they were.
use scytale.Base.{
  ℕ, ◌-◌, ◌^◌, ◌<◌, ◌≡◌, refl, subst, ◌∙◌, ap, Bool, true, false, Option, none, some, List, [], ◌∷◌,
  length, All, ok, >>=-eq-ok, ok-injective, arith,
}
use scytale.Base.Bytes.{Bytes, to_le_bytes, bytes_eq_refl}
use scytale.Primitives.{Hash256, OutPoint}
use scytale.Core.Types.{Block, UtxoEntry}
use scytale.Core.Block.{header_hash}
use scytale.Core.Authorization.{OutputLock}
use scytale.Core.Codec.Serialize.{block_bytes}
use scytale.Core.Codec.Roundtrip.{
  read_utxo_entry-utxo_entry_bytes, IsOutPoint, IsEntry, IsTransaction,
}
use scytale.Storage.Tables.{Table, stored}
use scytale.Storage.Undo.{BlockUndo, undo_bytes, outpoint_to_key}
use scytale.Storage.Undo.Read.{undo_of_bytes}
use scytale.Storage.Engine.{StorageEngine, get_utxo, set_tip}
use scytale.Storage.Connect.{Connecting, connect_transactions}
use scytale.Storage.Commit.{write_records, starting, undo_value, connect_block, commit_block}
use scytale.Storage.Reorg.{
  remove_created, restore_utxos, disconnect_block, without_block, forget_height, unwind_block,
}
use scytale.Storage.Roundtrip.{IsUndo, undo_of_bytes-undo_bytes}
use scytale.Storage.Unwind.{
  spent_entry, insert_spent-total, spent_entry-IsWritable, HoldsEntries, IsUndone, Kept, IsWritable,
  block_spends, block_creates, restore_utxos-total,
}
use scytale.Storage.Unwind.Counts.{input_total, output_total, connect_transactions-Grows}
use scytale.Storage.Unwind.Loops.{connect_transactions-IsUndone, stored_written}

Kept-start :
    (ours : Bool) (before : Option Bytes)
    → (ours ≡ true → before ≡ none)
    → Kept ours false none before before
Kept-start true before fresh = (fresh refl, λ e. fresh refl)
Kept-start false before fresh = (refl, refl)

shape :
    (spent : List (OutPoint × UtxoEntry))
    → All IsWritable spent
    → All (λ x. IsOutPoint x.0 × IsEntry x.1) spent
shape [] h = tt
shape (x ∷ xs) (w, h) = ((w.outpoint_ok, w.entry_ok), shape xs h)

module _ {T : Type 0} ⦃table : Table T⦄ where
  starting-IsUndone :
      (ours : Bytes → Bool) (e : StorageEngine T)
      → HoldsEntries e.utxos
      → ((k : Bytes) → ours k ≡ true → table.get k e.utxos ≡ none)
      → IsUndone ours e.utxos (starting e).undo (starting e).utxos
  starting-IsUndone ours e holds fresh = record {
    kept = λ k. Kept-start (ours k) (table.get k e.utxos) (fresh k);
    spent_ok = tt;
    created_ok = tt;
    holds = holds;
  }

  -- The store, with the undo record of the block, and unspent outputs as committing the block leaves them.
  pub record Committed (blake3 : Bytes → Hash256) (decode_lock : Bytes → Option OutputLock)
      (block : Block) (height : ℕ) (e e' : StorageEngine T) : Type 0 where
    pub c : Connecting T
    pub connected :
        connect_transactions blake3 decode_lock
          (header_hash blake3 block.header)
          height
          block.transactions
          (starting e)
        ≡ ok c
    pub undo : Bytes
    pub undo_written : undo_bytes c.undo ≡ ok undo
    pub undo_stored : table.get (header_hash blake3 block.header) e'.block_undo ≡ some undo
    pub utxos_kept : e'.utxos ≡ c.utxos
    pub tip_moved : e'.tip_hash ≡ some (header_hash blake3 block.header)

  commit_block-Committed :
      (blake3 : Bytes → Hash256) (decode_lock : Bytes → Option OutputLock) (block : Block)
      (height : ℕ) (work : ℕ × (ℕ × (ℕ × ℕ))) (e e' : StorageEngine T)
      → commit_block blake3 decode_lock block height work e ≡ ok e'
      → Committed blake3 decode_lock block height e e'
  unfolding commit_block connect_block
  commit_block-Committed blake3 decode_lock block height (w0, (w1, (w2, w3))) e e' h =
      let (d, de, done) =
        >>=-eq-ok (connect_block blake3 decode_lock block height (w0, (w1, (w2, w3))) e) _ h in
      let (bytes, be, h1) = >>=-eq-ok (stored (block_bytes block)) _ de in
      let (c, ce, h2) =
        >>=-eq-ok
          (connect_transactions blake3 decode_lock (header_hash blake3 block.header) height
            block.transactions (starting e))
          _ h1 in
      let (index, ie, h3) =
        >>=-eq-ok (write_records height c.block_addr_records e.address_tx_index) _ h2 in
      let (undo, ue, h4) = >>=-eq-ok (undo_value c.undo) _ h3 in
      subst (λ (x : StorageEngine T). Committed blake3 decode_lock block height e x)
        (ap (λ (x : StorageEngine T). set_tip (header_hash blake3 block.header) height x)
            (ok-injective h4)
          ∙ ok-injective done)
        (record {
          c = c;
          connected = ce;
          undo = undo;
          undo_written = stored_written ue;
          undo_stored = ground (
            arith,
            table.get_insert (header_hash blake3 block.header) (header_hash blake3 block.header)
                undo e.block_undo,
            bytes_eq_refl (header_hash blake3 block.header),
          );
          utxos_kept = refl;
          tip_moved = refl;
        })

  -- What the undo record of a committed block has.
  committed-IsUndo :
      (ours : Bytes → Bool) (before : T) (undo : BlockUndo) (utxos : T)
      → IsUndone ours before undo utxos
      → length undo.spent_utxos < 2 ^ 32
      → length undo.created_outpoints < 2 ^ 32
      → IsUndo undo
  committed-IsUndo ours before undo utxos h s n = record {
    spent_ok = shape undo.spent_utxos h.spent_ok;
    spent_count = s;
    created_ok = h.created_ok;
    created_count = n;
  }

  -- Taking a block back, when its undo record is there, reads and restores.
  unwind_block-eq-ok :
      (blake3 : Bytes → Hash256) (decode_lock : Bytes → Option OutputLock) (block : Block)
      (height : ℕ) (e : StorageEngine T) (bytes : Bytes) (undo : BlockUndo) (utxos : T)
      → table.get (header_hash blake3 block.header) e.block_undo ≡ some bytes
      → undo_of_bytes bytes ≡ ok undo
      → restore_utxos undo e.utxos ≡ ok utxos
      → e.tip_hash ≡ some (header_hash blake3 block.header)
      → (e' : StorageEngine T) × (unwind_block blake3 decode_lock block height e ≡ ok e')
        × (e'.utxos ≡ utxos)
        × (e'.tip_hash ≡ some block.header.previous_block_hash)
        × (e'.tip_height ≡ some (to_le_bytes 8 (height - 1)))
  unfolding unwind_block disconnect_block forget_height
  unwind_block-eq-ok blake3 decode_lock block height e bytes undo utxos found read restored tip = (
    set_tip block.header.previous_block_hash (height - 1) (
        without_block blake3 decode_lock block utxos
          (forget_height blake3 decode_lock block height e)),
    rw (found, read, restored, tip, bytes_eq_refl (header_hash blake3 block.header)) refl,
    refl,
    refl,
    refl,
  )

  -- Unwinding the block at the tip, when its undo record reads back as `undo` and all of its entries can be
  -- written, leaves each outpoint that the record has as spent unspent, whether or not the record also has it
  -- among the outpoints that the block created.
  pub unwind_block_revives :
      (blake3 : Bytes → Hash256) (decode_lock : Bytes → Option OutputLock) (block : Block)
      (height : ℕ) (e : StorageEngine T) (bytes : Bytes) (undo : BlockUndo) (o : OutPoint)
      (u : UtxoEntry)
      → table.get (header_hash blake3 block.header) e.block_undo ≡ some bytes
      → undo_of_bytes bytes ≡ ok undo
      → All IsWritable undo.spent_utxos
      → e.tip_hash ≡ some (header_hash blake3 block.header)
      → spent_entry (outpoint_to_key o) undo.spent_utxos ≡ some u
      → (e' : StorageEngine T) × (unwind_block blake3 decode_lock block height e ≡ ok e')
        × (get_utxo o e' ≡ ok (some u))
  unfolding get_utxo restore_utxos
  unwind_block_revives blake3 decode_lock block height e bytes undo o u found read h tip spent =
      let (utxos, restored, got) =
        insert_spent-total undo.spent_utxos (remove_created undo.created_outpoints e.utxos) h in
      let (e', unwound, at, _, _) =
        unwind_block-eq-ok blake3 decode_lock block height e bytes undo utxos found read restored
          tip in
      let (vs, entry, w) = spent_entry-IsWritable (outpoint_to_key o) undo.spent_utxos u h spent in
      (
        e',
        unwound,
        rw
            (
              get_utxo,
              at,
              got (outpoint_to_key o),
              spent,
              w,
              read_utxo_entry-utxo_entry_bytes u vs entry w,
            )
            refl,
      )

  -- A block of in-range values that is committed on a store whose unspent outputs are entries in range, and
  -- then unwound, leaves a store that answers each query for an unspent output as before and whose tip is the
  -- block's parent, one lower, when: BLAKE3 gives 32 bytes; the block creates only outputs that the store does
  -- not have; no transaction of the block spends an output that the block creates; and its inputs and outputs
  -- are fewer than 2^32.
  pub unwind_block-commit_block :
      (blake3 : Bytes → Hash256) (decode_lock : Bytes → Option OutputLock) (block : Block)
      (height : ℕ) (work : ℕ × (ℕ × (ℕ × ℕ))) (e e' : StorageEngine T)
      → ((bytes : Bytes) → length (blake3 bytes) ≡ 32)
      → All IsTransaction block.transactions
      → height < 2 ^ 64
      → HoldsEntries e.utxos
      → ((k : Bytes)
          → block_creates blake3 block.transactions k ≡ true
          → table.get k e.utxos ≡ none)
      → ((k : Bytes)
          → block_spends block.transactions k ≡ true
          → block_creates blake3 block.transactions k ≡ false)
      → input_total block.transactions < 2 ^ 32
      → output_total block.transactions < 2 ^ 32
      → commit_block blake3 decode_lock block height work e ≡ ok e'
      → (e'' : StorageEngine T) × (unwind_block blake3 decode_lock block height e' ≡ ok e'')
        × ((o : OutPoint) → get_utxo o e'' ≡ get_utxo o e)
        × (e''.tip_hash ≡ some block.header.previous_block_hash)
        × (e''.tip_height ≡ some (to_le_bytes 8 (height - 1)))
  unfolding get_utxo
  unwind_block-commit_block blake3 decode_lock block height work e e' hashes range tall holds fresh
        unchained few_in few_out done =
      let ours : Bytes → Bool = block_creates blake3 block.transactions in
      let d = commit_block-Committed blake3 decode_lock block height work e e' done in
      let undone =
        connect_transactions-IsUndone ours e.utxos blake3 decode_lock
          (header_hash blake3 block.header) height block.transactions (starting e) d.c hashes range
          tall unchained (λ k own. own) d.connected (starting-IsUndone ours e holds fresh) in
      let grown =
        connect_transactions-Grows blake3 decode_lock (header_hash blake3 block.header) height
          block.transactions (starting e) d.c d.connected in
      let (utxos, restored, same) = restore_utxos-total ours e.utxos d.c.undo d.c.utxos undone in
      let (e'', unwound, at, tip, tip_height) =
        unwind_block-eq-ok blake3 decode_lock block height e' d.undo d.c.undo utxos d.undo_stored
          (undo_of_bytes-undo_bytes d.c.undo d.undo
            (committed-IsUndo ours e.utxos d.c.undo d.c.utxos undone (omega (arith, grown.spent_le))
              (omega (arith, grown.created_le)))
            d.undo_written)
          (ap (restore_utxos d.c.undo) d.utxos_kept ∙ restored) d.tip_moved in
      (e'', unwound, λ o. rw (at, get_utxo, same (outpoint_to_key o)) refl, tip, tip_height)

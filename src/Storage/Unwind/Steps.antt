-- ===== src/Storage/Unwind/Steps.antt =====
-- Each spent and each created output keeps what takes a block back.
use scytale.Base.{
  ◌≡◌, sym, subst, ◌∙◌, inl, inr, Bool, true, false, Option, none, some, [], ◌∷◌, ◌++◌, All-append,
  ok, ok-injective, Bool-cases, Option-cases, Result-cases, arith,
}
use scytale.Base.Bytes.{Bytes, bytes_eq, bytes_eq→≡}
use scytale.Primitives.{OutPoint, TxOut}
use scytale.Core.Types.{UtxoEntry}
use scytale.Core.Codec.Roundtrip.{IsOutPoint, IsEntry, read_utxo_entry-utxo_entry_bytes}
use scytale.Core.Codec.Serialize.{utxo_entry_bytes}
use scytale.Core.Codec.Reader.{from_canonical_bytes}
use scytale.Core.Codec.Deserialize.{read_transaction, read_utxo_entry}
use scytale.Storage.Tables.{Table}
use scytale.Storage.Undo.{BlockUndo, outpoint_to_key}
use scytale.Storage.Connect.{Connecting, push_spent, find_spent}
use scytale.Storage.Unwind.{
  HoldsEntries, IsUndone, Kept, IsWritable, spent_entry-append, is_created-append, Kept-missing,
  Kept-spent, Kept-created,
}

-- What the table holds of a key that is not of the block is what it held before.
Kept-found :
    (ours created : Bool) (u : Option UtxoEntry) (old now : Option Bytes) (bytes : Bytes)
    → ours ≡ false
    → now ≡ some bytes
    → Kept ours created u old now
    → old ≡ some bytes
Kept-found true created u old now bytes other found h = absurd (ground arith)
Kept-found false created none old now bytes other found (c, n) = sym n ∙ found
Kept-found false created (some u) old now bytes other found (c, n, w) = absurd (ground arith)

module _ {T : Type 0} ⦃table : Table T⦄ where
  pub find_spent-missing :
      (o : OutPoint) (c : Connecting T) (found : Option UtxoEntry × Option TxOut)
      → table.get (outpoint_to_key o) c.utxos ≡ none
      → find_spent o c ≡ ok found
      → found.0 ≡ none
  find_spent-missing o c found gone e = elim (Option-cases (table.get o.txid c.transactions)) [
    | inl f ↦ ground arith
    | inr (bytes, f) ↦ elim (Result-cases (from_canonical_bytes read_transaction bytes)) [
      | inl (tx, g) ↦ ground arith
      | inr (x, g) ↦ absurd (ground arith)
    ]
  ]

  pub find_spent-found :
      (o : OutPoint) (c : Connecting T) (found : Option UtxoEntry × Option TxOut) (bytes : Bytes)
      → table.get (outpoint_to_key o) c.utxos ≡ some bytes
      → find_spent o c ≡ ok found
      → (u : UtxoEntry) × (found.0 ≡ some u) × (from_canonical_bytes read_utxo_entry bytes ≡ ok u)
  find_spent-found o c found bytes at e =
      elim (Result-cases (from_canonical_bytes read_utxo_entry bytes)) [
        | inl (u, g) ↦ (u, ground arith, g)
        | inr (x, g) ↦ absurd (ground arith)
      ]

  HoldsEntries-remove : (k : Bytes) (t : T) → HoldsEntries t → HoldsEntries (table.remove k t)
  HoldsEntries-remove k t h j bytes e = h j bytes (ground (arith, table.get_remove k j t))

  HoldsEntries-insert :
      (k bytes : Bytes) (u : UtxoEntry) (t : T)
      → IsEntry u
      → utxo_entry_bytes u ≡ ok bytes
      → HoldsEntries t
      → HoldsEntries (table.insert k bytes t)
  HoldsEntries-insert k bytes u t entry w h j found e = elim (Bool-cases (bytes_eq k j)) [
    | inl same ↦ (u, entry, ground (arith, table.get_insert k j bytes t))
    | inr other ↦ h j found (ground (arith, table.get_insert k j bytes t))
  ]

  -- What a table that holds entries decodes to is in range, and is written as what it holds.
  HoldsEntries-decoded :
      (t : T) (k bytes : Bytes) (u : UtxoEntry)
      → HoldsEntries t
      → table.get k t ≡ some bytes
      → from_canonical_bytes read_utxo_entry bytes ≡ ok u
      → IsEntry u × (utxo_entry_bytes u ≡ ok bytes)
  HoldsEntries-decoded t k bytes u h found decoded =
      let (v, entry, w) = h k bytes found in
      let same : v ≡ u =
        ok-injective (sym (read_utxo_entry-utxo_entry_bytes v bytes entry w) ∙ decoded) in
      subst (λ (x : UtxoEntry). IsEntry x × (utxo_entry_bytes x ≡ ok bytes)) same (entry, w)

  module _ (ours : Bytes → Bool) (before : T) where
    pub missing-IsUndone :
        (o : OutPoint) (undo : BlockUndo) (utxos : T)
        → table.get (outpoint_to_key o) utxos ≡ none
        → IsUndone ours before undo utxos
        → IsUndone ours before undo (table.remove (outpoint_to_key o) utxos)
    missing-IsUndone o undo utxos gone h = record {
      kept = λ k. rw (table.get_remove (outpoint_to_key o) k utxos) (
          Kept-missing (bytes_eq (outpoint_to_key o) k) (ours k) _ _ _ _
            (λ same. rw (← bytes_eq→≡ (outpoint_to_key o) k same) gone) (h.kept k));
      spent_ok = h.spent_ok;
      created_ok = h.created_ok;
      holds = HoldsEntries-remove (outpoint_to_key o) utxos h.holds;
    }

    pub spent-IsUndone :
        (o : OutPoint) (u : UtxoEntry) (bytes : Bytes) (undo : BlockUndo) (utxos : T)
        → IsOutPoint o
        → ours (outpoint_to_key o) ≡ false
        → table.get (outpoint_to_key o) utxos ≡ some bytes
        → from_canonical_bytes read_utxo_entry bytes ≡ ok u
        → IsUndone ours before undo utxos
        → IsUndone ours before (push_spent o (some u) undo) (table.remove (outpoint_to_key o) utxos)
    spent-IsUndone o u bytes undo utxos outpoint other found decoded h =
        let (entry, w) =
          HoldsEntries-decoded utxos (outpoint_to_key o) bytes u h.holds found decoded in
        record {
          kept = λ k.
              rw
                (
                  table.get_remove (outpoint_to_key o) k utxos,
                  spent_entry-append k o u undo.spent_utxos,
                )
                (Kept-spent (bytes_eq (outpoint_to_key o) k) (ours k) _ _ _ _ u bytes
                  (λ same. rw (← bytes_eq→≡ (outpoint_to_key o) k same) found)
                  (λ same. rw (← bytes_eq→≡ (outpoint_to_key o) k same) other) w (h.kept k));
          spent_ok = All-append IsWritable undo.spent_utxos ((o, u) ∷ []) h.spent_ok (
            record {
              outpoint_ok = outpoint;
              entry_ok = entry;
              bytes = bytes;
              bytes_eq_written = w;
            },
            tt,
          );
          created_ok = h.created_ok;
          holds = HoldsEntries-remove (outpoint_to_key o) utxos h.holds;
        }

    pub created-IsUndone :
        (o : OutPoint) (u : UtxoEntry) (bytes : Bytes) (undo : BlockUndo) (utxos : T)
        → IsOutPoint o
        → IsEntry u
        → ours (outpoint_to_key o) ≡ true
        → utxo_entry_bytes u ≡ ok bytes
        → IsUndone ours before undo utxos
        → IsUndone ours before
            (record {
              spent_utxos = undo.spent_utxos;
              created_outpoints = undo.created_outpoints ++ o ∷ [];
            })
            (table.insert (outpoint_to_key o) bytes utxos)
    created-IsUndone o u bytes undo utxos outpoint entry own w h = record {
      kept = λ k.
          rw
            (
              table.get_insert (outpoint_to_key o) k bytes utxos,
              is_created-append k o undo.created_outpoints,
            )
            (Kept-created (bytes_eq (outpoint_to_key o) k) (ours k) _ _ _ _ bytes
              (λ same. rw (← bytes_eq→≡ (outpoint_to_key o) k same) own) (h.kept k));
      spent_ok = h.spent_ok;
      created_ok =
          All-append IsOutPoint undo.created_outpoints (o ∷ []) h.created_ok (outpoint, tt);
      holds = HoldsEntries-insert (outpoint_to_key o) bytes u utxos entry w h.holds;
    }

-- ===== src/Storage/Replace.antt =====
-- Replacing the table of unspent outputs by a set.
use scytale.Base.{
  ◌≡◌, ◌≢◌, refl, sym, ap, ◌∙◌, subst, inl, inr, false, Option, none, some, List, [], ◌∷◌, ◌++◌,
  All, ok, err, ok-injective, Bool-cases, Option-cases, arith,
}
use scytale.Base.Bytes.{Bytes, bytes_eq, bytes_eq_refl, bytes_eq→≡}
use scytale.Base.Maps
use scytale.Base.Maps.{bytes_key}
use scytale.Primitives.{OutPoint, outpoint_eq, outpoint_eq_refl, outpoint_eq→≡}
use scytale.Core.Types.{UtxoEntry}
use scytale.Core.Utxo.Map.{Entries, lookup, Distinct}
use scytale.Core.Utxo.{UtxoSet}
use scytale.Core.Codec.Serialize.{u32_bytes, outpoint_bytes, utxo_entry_bytes}
use scytale.Core.Codec.Deserialize.{read_outpoint}
use scytale.Core.Codec.Roundtrip.{
  IsOutPoint, IsEntry, outpoint-Reads, read_utxo_entry-utxo_entry_bytes,
}
use scytale.Storage.Tables.{Table}
use scytale.Storage.Undo.{outpoint_to_key}
use scytale.Storage.Engine.{StorageEngine, get_utxo}
use scytale.Storage.Snapshot.{
  remove_keys, insert_entries, replace_utxos, with_utxos, replace_utxo_set,
}
use scytale.Storage.Unwind.{IsWritable}

-- Outpoints in range have different keys.
outpoint_to_key-injective :
    (a b : OutPoint) → IsOutPoint a → IsOutPoint b → outpoint_to_key a ≡ outpoint_to_key b → a ≡ b
unfolding outpoint_bytes u32_bytes
outpoint_to_key-injective a b ha hb e =
    ap (λ (x : OutPoint × Bytes). x.0)
      (ok-injective (
        sym (outpoint-Reads a ha [])
        ∙ ap (λ (k : Bytes). read_outpoint (k ++ [])) e
        ∙ outpoint-Reads b hb []))

bytes_eq-outpoint_to_key :
    (a b : OutPoint)
    → IsOutPoint a
    → IsOutPoint b
    → bytes_eq (outpoint_to_key a) (outpoint_to_key b) ≡ outpoint_eq a b
bytes_eq-outpoint_to_key a b ha hb = elim (Bool-cases (outpoint_eq a b)) [
  | inl same ↦ rw (same, outpoint_eq→≡ a b same) (bytes_eq_refl (outpoint_to_key b))
  | inr other ↦ elim (Bool-cases (bytes_eq (outpoint_to_key a) (outpoint_to_key b))) [
    | inr e ↦ e ∙ sym other
    | inl e ↦ absurd (
        differ a b other (
          outpoint_to_key-injective a b ha hb
            (bytes_eq→≡ (outpoint_to_key a) (outpoint_to_key b) e)))
  ]
]
  where
    differ : (a b : OutPoint) → outpoint_eq a b ≡ false → a ≢ b
    differ a b other e = ground (arith, sym (outpoint_eq_refl a) ∙ ap (outpoint_eq a) e ∙ other)

-- The bytes under a key, from the entry.
abbrev held : Option UtxoEntry → Option Bytes → Option Bytes
held none old = old
held (some u) old = elim (utxo_entry_bytes u) [ ok bytes ↦ some bytes | err e ↦ none ]

lookup-IsWritable :
    (o : OutPoint) (es : Entries) (u : UtxoEntry)
    → All IsWritable es
    → lookup o es ≡ some u
    → (bytes : Bytes) × IsEntry u × (utxo_entry_bytes u ≡ ok bytes)
lookup-IsWritable o [] u h f = absurd (ground arith)
lookup-IsWritable o ((p, v) ∷ es) u (w, h) f = elim (Bool-cases (outpoint_eq p o)) [
  | inl same ↦
      let e : v ≡ u = ground arith in
      subst (λ (x : UtxoEntry). (bytes : Bytes) × IsEntry x × (utxo_entry_bytes x ≡ ok bytes)) e
        (w.bytes, w.entry_ok, w.bytes_eq_written)
  | inr other ↦ lookup-IsWritable o es u h (ground arith)
]

module _ {T : Type 0} ⦃table : Table T⦄ where
  get-remove_keys :
      (k : Bytes) (pairs : List (Bytes × Bytes)) (t : T)
      → table.get k (remove_keys pairs t)
        ≡ (elim (Maps.lookup k pairs) [ none ↦ table.get k t | some v ↦ none ])
  unfolding remove_keys Maps.lookup
  get-remove_keys k [] t = refl
  get-remove_keys k ((j, v) ∷ pairs) t =
      ground (arith, get-remove_keys k pairs (table.remove j t), table.get_remove j k t)

  get-cleared : (k : Bytes) (t : T) → table.get k (remove_keys (table.iter t) t) ≡ none
  get-cleared k t = ground (arith, get-remove_keys k (table.iter t) t, table.get_iter k t)

  insert_entries-total :
      (es : Entries) (t : T)
      → All IsWritable es
      → Distinct es
      → (t' : T) × (insert_entries es t ≡ ok t')
        × ((o : OutPoint)
            → IsOutPoint o
            → table.get (outpoint_to_key o) t'
              ≡ held (lookup o es) (table.get (outpoint_to_key o) t))
  unfolding insert_entries
  insert_entries-total [] t h d = (t, refl, λ o p. refl)
  insert_entries-total ((p, u) ∷ es) t (w, h) d =
      let (t', done, at) =
        insert_entries-total es (table.insert (outpoint_to_key p) w.bytes t) h d.1 in
      (
        t',
        ground (arith, w.bytes_eq_written),
        λ o range.
            rw
              (
                at o range,
                table.get_insert (outpoint_to_key p) (outpoint_to_key o) w.bytes t,
                bytes_eq-outpoint_to_key p o w.outpoint_ok range,
              )
              (elim (Bool-cases (outpoint_eq p o)) [
                | inl same ↦
                    rw (← outpoint_eq→≡ p o same, d.0, outpoint_eq_refl p)
                      (ground (arith, w.bytes_eq_written))
                | inr other ↦ rw other
              ]),
      )

  -- A set of entries in range that can be written, no outpoint twice, takes the place of all that the store
  -- has as unspent: the store then answers each query for an outpoint in range as the set does.
  pub replace_utxo_set-lookup :
      (s : UtxoSet) (e : StorageEngine T)
      → All IsWritable s.entries
      → Distinct s.entries
      → (e' : StorageEngine T) × (replace_utxo_set s e ≡ ok e')
        × ((o : OutPoint) → IsOutPoint o → get_utxo o e' ≡ ok (lookup o s.entries))
  unfolding replace_utxo_set replace_utxos get_utxo
  replace_utxo_set-lookup s e h d =
      let (utxos, done, at) =
        insert_entries-total s.entries (remove_keys (table.iter e.utxos) e.utxos) h d in
      (
        with_utxos e utxos,
        rw done refl,
        λ o range. elim (Option-cases (lookup o s.entries)) [
          | inl f ↦ rw (get_utxo, at o range, f, get-cleared (outpoint_to_key o) e.utxos) refl
          | inr (u, f) ↦
              let (bytes, entry, w) = lookup-IsWritable o s.entries u h f in
              rw (get_utxo, at o range, f, w, read_utxo_entry-utxo_entry_bytes u bytes entry w) refl
        ],
      )

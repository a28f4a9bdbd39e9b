-- ===== src/Storage/Unwind.antt =====
-- Taking back what a block did to the table of unspent outputs: what the undo record has to hold.
pub mod Steps
pub mod Loops
pub mod Counts
pub mod Blocks
use scytale.Base.{
  ℕ, suc, ◌%◌, ◌^◌, ◌≡◌, refl, sym, subst, subst, ◌∙◌, inl, inr, Bool, true, false, ◌&&◌, ◌||◌, not,
  Option, none, some, List, [], ◌∷◌, ◌++◌, if◌then◌else◌, All, All-append, Result, ok, err, ◌>>=◌,
  >>=-eq-ok, ok-injective, Bool-cases, Option-cases, arith,
}
use scytale.Base.Bytes.{Bytes, bytes_eq}
use scytale.Primitives.{Hash256, OutPoint, TxOut}
use scytale.Core.Types.{TxIn, Transaction, UtxoEntry}
use scytale.Core.Transaction.{is_coinbase, is_op_return, txid}
use scytale.Core.Authorization.{OutputLock}
use scytale.Core.Codec.Roundtrip.{IsOutPoint, IsEntry}
use scytale.Core.Codec.Serialize.{transaction_bytes, utxo_entry_bytes}
use scytale.Core.Codec.Reader.{from_canonical_bytes}
use scytale.Core.Codec.Deserialize.{read_utxo_entry}
use scytale.Storage.Tables.{Table, StorageError, stored}
use scytale.Storage.Undo.{BlockUndo, outpoint_to_key}
use scytale.Storage.Connect.{
  Connecting, push_spent, find_spent, spend_input, spend_inputs, create_output, create_outputs,
  connect_transaction, connect_transactions,
}
use scytale.Storage.Reorg.{remove_created, insert_spent, restore_utxos}

-- The entry that comes back under this key: the last one of the list.
abbrev pub spent_entry : Bytes → List (OutPoint × UtxoEntry) → Option UtxoEntry
spent_entry k [] = none
spent_entry k ((o, u) ∷ spent) = elim (spent_entry k spent) [
  | some later ↦ some later
  | none ↦ if bytes_eq (outpoint_to_key o) k then some u else none
]

abbrev pub is_created : Bytes → List OutPoint → Bool
is_created k [] = false
is_created k (o ∷ os) = bytes_eq (outpoint_to_key o) k || is_created k os

pub spent_entry-append :
    (k : Bytes) (o : OutPoint) (u : UtxoEntry) (spent : List (OutPoint × UtxoEntry))
    → spent_entry k (spent ++ (o, u) ∷ [])
      ≡ (if bytes_eq (outpoint_to_key o) k then some u else spent_entry k spent)
spent_entry-append k o u [] = refl
spent_entry-append k o u ((p, v) ∷ spent) = ground (arith, spent_entry-append k o u spent)

pub is_created-append :
    (k : Bytes) (o : OutPoint) (os : List OutPoint)
    → is_created k (os ++ o ∷ []) ≡ is_created k os || bytes_eq (outpoint_to_key o) k
is_created-append k o [] = ground arith
is_created-append k o (p ∷ os) = ground (arith, is_created-append k o os)

-- An entry that can be written, under an outpoint that can.
pub record IsWritable (x : OutPoint × UtxoEntry) : Type 0 where
  pub outpoint_ok : IsOutPoint x.0
  pub entry_ok : IsEntry x.1
  pub bytes : Bytes
  pub bytes_eq_written : utxo_entry_bytes x.1 ≡ ok bytes

-- What a key held, `before`, by what it holds, whether the block has created it, and what the undo record
-- has of it. `ours` says whether the key is one of an output of the block.
abbrev pub Kept : Bool → Bool → Option UtxoEntry → Option Bytes → Option Bytes → Type 0
Kept true created (some u) before now = ⊥
Kept true created none before now = (before ≡ none) × (created ≡ false → now ≡ none)
Kept false created none before now = (created ≡ false) × (now ≡ before)
Kept false created (some u) before now =
    (created ≡ false)
    × (now ≡ none)
    × ((bytes : Bytes) × (before ≡ some bytes) × (utxo_entry_bytes u ≡ ok bytes))

-- The key of an output that is created, from this index on.
abbrev pub creates : Hash256 → ℕ → List TxOut → Bytes → Bool
creates id index [] k = false
creates id index (o ∷ os) k =
    (not (is_op_return o)
      && bytes_eq (outpoint_to_key (record { txid = id; index = index % 2 ^ 32 })) k)
    || creates id (suc index) os k

abbrev pub is_spent : List TxIn → Bytes → Bool
is_spent [] k = false
is_spent (i ∷ is) k = bytes_eq (outpoint_to_key i.previous_output) k || is_spent is k

-- The inputs that a transaction spends: a coinbase has none.
abbrev pub spent_inputs : Transaction → List TxIn
spent_inputs tx = if is_coinbase tx then [] else tx.inputs

abbrev pub block_spends : List Transaction → Bytes → Bool
block_spends [] k = false
block_spends (tx ∷ txs) k = is_spent (spent_inputs tx) k || block_spends txs k

abbrev pub block_creates : (Bytes → Hash256) → List Transaction → Bytes → Bool
block_creates blake3 [] k = false
block_creates blake3 (tx ∷ txs) k =
    creates (txid blake3 tx) 0 tx.outputs k || block_creates blake3 txs k

-- The bytes that come back.
abbrev pub written : Option UtxoEntry → Option Bytes → Option Bytes
written none old = old
written (some u) old = elim (utxo_entry_bytes u) [ ok bytes ↦ some bytes | err e ↦ old ]

Kept-value :
    (ours created : Bool) (u : Option UtxoEntry) (before now : Option Bytes)
    → Kept ours created u before now
    → written u (if created then none else now) ≡ before
Kept-value true true none before now h = ground arith
Kept-value true false none before now h = ground arith
Kept-value true created (some u) before now h = absurd h
Kept-value false created none before now h = ground arith
Kept-value false created (some u) before now (c, n, (bytes, b, w)) = ground arith

pub spent_entry-IsWritable :
    (k : Bytes) (spent : List (OutPoint × UtxoEntry)) (u : UtxoEntry)
    → All IsWritable spent
    → spent_entry k spent ≡ some u
    → (bytes : Bytes) × IsEntry u × (utxo_entry_bytes u ≡ ok bytes)
spent_entry-IsWritable k [] u h e = absurd (ground arith)
spent_entry-IsWritable k ((o, v) ∷ spent) u (w, h) e = elim (Option-cases (spent_entry k spent)) [
  | inr (later, f) ↦ spent_entry-IsWritable k spent u h (ground arith)
  | inl f ↦ elim (Bool-cases (bytes_eq (outpoint_to_key o) k)) [
    | inl same ↦
        let e : v ≡ u = ground arith in
        subst (λ (x : UtxoEntry). (bytes : Bytes) × IsEntry x × (utxo_entry_bytes x ≡ ok bytes)) e
          (w.bytes, w.entry_ok, w.bytes_eq_written)
    | inr other ↦ absurd (ground arith)
  ]
]

-- A key that is removed without an entry was empty.
pub Kept-missing :
    (same ours created : Bool) (u : Option UtxoEntry) (before now : Option Bytes)
    → (same ≡ true → now ≡ none)
    → Kept ours created u before now
    → Kept ours created u before (if same then none else now)
Kept-missing true ours created u before now gone h =
    subst (λ (x : Option Bytes). Kept ours created u before x) (gone refl) h
Kept-missing false ours created u before now gone h = h

pub Kept-spent :
    (same ours created : Bool) (u : Option UtxoEntry) (before now : Option Bytes) (v : UtxoEntry)
    (bytes : Bytes)
    → (same ≡ true → now ≡ some bytes)
    → (same ≡ true → ours ≡ false)
    → utxo_entry_bytes v ≡ ok bytes
    → Kept ours created u before now
    → Kept ours created (if same then some v else u) before (if same then none else now)
Kept-spent false ours created u before now v bytes found other w h = h
Kept-spent true true created u before now v bytes found other w h =
    absurd (ground (arith, other refl))
Kept-spent true false created none before now v bytes found other w (c, n) =
    (c, refl, (bytes, ground (arith, found refl), w))
Kept-spent true false created (some u) before now v bytes found other w (c, n, _) =
    absurd (ground (arith, found refl))

pub Kept-created :
    (same ours created : Bool) (u : Option UtxoEntry) (before now : Option Bytes) (bytes : Bytes)
    → (same ≡ true → ours ≡ true)
    → Kept ours created u before now
    → Kept ours (created || same) u before (if same then some bytes else now)
Kept-created true true created none before now bytes own (b, n) = (b, λ e. absurd (ground arith))
Kept-created true false created u before now bytes own h = absurd (ground (arith, own refl))
Kept-created true true created (some u) before now bytes own h = h
Kept-created false ours created u before now bytes own h =
    subst (λ (c : Bool). Kept ours c u before now) (ground arith) h

module _ {T : Type 0} ⦃table : Table T⦄ where
  -- Each value of the table is what some entry is written as.
  abbrev pub HoldsEntries : T → Type 0
  HoldsEntries t =
      (k bytes : Bytes)
      → table.get k t ≡ some bytes
      → (u : UtxoEntry) × IsEntry u × (utxo_entry_bytes u ≡ ok bytes)

  get-remove_created :
      (k : Bytes) (os : List OutPoint) (t : T)
      → table.get k (remove_created os t) ≡ (if is_created k os then none else table.get k t)
  unfolding remove_created
  get-remove_created k [] t = refl
  get-remove_created k (o ∷ os) t = ground (
    arith,
    get-remove_created k os (table.remove (outpoint_to_key o) t),
    table.get_remove (outpoint_to_key o) k t,
  )

  -- Entries that can be written all come back.
  pub insert_spent-total :
      (spent : List (OutPoint × UtxoEntry)) (t : T)
      → All IsWritable spent
      → (t' : T) × (insert_spent spent t ≡ ok t')
        × ((k : Bytes) → table.get k t' ≡ written (spent_entry k spent) (table.get k t))
  unfolding insert_spent
  insert_spent-total [] t h = (t, refl, λ k. refl)
  insert_spent-total ((o, u) ∷ spent) t (w, h) =
      let (t', done, at) =
        insert_spent-total spent (table.insert (outpoint_to_key o) w.bytes t) h in
      (
        t',
        ground (arith, w.bytes_eq_written),
        λ k. elim (Option-cases (spent_entry k spent)) [
          | inl f ↦
              rw (at k, table.get_insert (outpoint_to_key o) k w.bytes t, f)
                (ground (arith, w.bytes_eq_written))
          | inr (v, f) ↦
              let (vs, _, w) = spent_entry-IsWritable k spent v h f in rw (at k, f) (ground arith)
        ],
      )

  -- The undo record takes the table back to what it was.
  pub record IsUndone (ours : Bytes → Bool) (before : T) (undo : BlockUndo) (utxos : T)
      : Type 0 where
    pub kept :
        (k : Bytes)
        → Kept
            (ours k)
            (is_created k undo.created_outpoints)
            (spent_entry k undo.spent_utxos)
            (table.get k before)
            (table.get k utxos)
    pub spent_ok : All IsWritable undo.spent_utxos
    pub created_ok : All IsOutPoint undo.created_outpoints
    pub holds : HoldsEntries utxos

  pub restore_utxos-total :
      (ours : Bytes → Bool) (before : T) (undo : BlockUndo) (utxos : T)
      → IsUndone ours before undo utxos
      → (t : T) × (restore_utxos undo utxos ≡ ok t)
        × ((k : Bytes) → table.get k t ≡ table.get k before)
  unfolding restore_utxos
  restore_utxos-total ours before undo utxos h =
      let (t, done, got) =
        insert_spent-total undo.spent_utxos (remove_created undo.created_outpoints utxos)
          h.spent_ok in
      (
        t,
        done,
        λ k.
            rw (got k, get-remove_created k undo.created_outpoints utxos)
              (Kept-value (ours k) (is_created k undo.created_outpoints)
                (spent_entry k undo.spent_utxos) (table.get k before) (table.get k utxos)
                (h.kept k)),
      )

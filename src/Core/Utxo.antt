-- ===== src/Core/Utxo.antt =====
-- crates/scytale-core/src/utxo.rs: the set of unspent outputs and its transitions. The hash map is an
-- association list; `&mut self` with a `Result` gives back the set that is left, on an error too.
pub mod Map
pub mod Value
pub mod Conservation
pub mod Spend
use scytale.Base.{
  ℕ, zero, suc, ◌+◌, ◌%◌, ◌^◌, Bool, true, false, ◌&&◌, not, Option, none, some, List, [], ◌∷◌,
  ◌++◌, leb, ltb, ◌==◌, if◌then◌else◌, Result, ok, err, ◌>>=◌, ◌>>◌, guard, ok_or, map_err,
  and_then,
}
use scytale.Base.Bytes.{Bytes}
use scytale.Base.Words.{checked_add, checked_sub}
use scytale.Primitives.{Hash256, OutPoint, outpoint_eq, TxOut}
use scytale.Core.Types.{
  TxIn, Transaction, UtxoEntry, UtxoError, duplicate_outpoint, missing_utxo, value_deficit,
  utxo_overflow, tx_error, invalid_coinbase_placement, TransactionError, empty_outputs,
  zero_output_value,
}
use scytale.Core.Transaction.{
  is_coinbase, is_op_return, total_output_quanta, validate_stateless, txid, is_empty,
}
use Map.{Entries, lookup, contains_key, insert_entry, remove_entry}

pub record UtxoSet : Type 0 where
  pub entries : Entries

-- `UtxoSet::new()`.
abbrev pub empty : UtxoSet
empty = record { entries = [] }

unfoldable pub insert : OutPoint → UtxoEntry → UtxoSet → UtxoSet × Result UtxoError (Unit {0})
insert o entry s =
    if contains_key o s.entries
    then (s, err (duplicate_outpoint o))
    else (record { entries = insert_entry o entry s.entries }, ok tt)

-- `self.entries.remove(..)`, what it returns left aside.
abbrev pub remove : OutPoint → UtxoSet → UtxoSet
remove o s = record { entries = remove_entry o s.entries }

-- `UtxoSet::remove`.
pub remove_output : OutPoint → UtxoSet → UtxoSet × Option UtxoEntry
remove_output o s = (remove o s, lookup o s.entries)

pub add_entries : ℕ → Entries → Result UtxoError ℕ
add_entries total [] = ok total
add_entries total ((o, e) ∷ es) = elim (checked_add total e.output.value) [
  | none ↦ err utxo_overflow
  | some total' ↦ add_entries total' es
]

pub total_quanta : UtxoSet → Result UtxoError ℕ
unfolding add_entries
total_quanta s = add_entries 0 s.entries

-- Step 2: the inputs are all in the set, and their values are added up.
unfoldable pub add_inputs : Entries → ℕ → List TxIn → Result UtxoError ℕ
add_inputs es total [] = ok total
add_inputs es total (i ∷ is) = elim (lookup i.previous_output es) [
  | none ↦ err (missing_utxo i.previous_output)
  | some e ↦ elim (checked_add total e.output.value) [
    | none ↦ err utxo_overflow
    | some total' ↦ add_inputs es total' is
  ]
]

-- Steps 1 to 4 of `apply_transaction`, which leave the set alone. The result is the fee.
unfoldable pub check_transaction : UtxoSet → Transaction → Result UtxoError ℕ
check_transaction s tx = do
  map_err tx_error (validate_stateless tx)
  total_in ← add_inputs s.entries 0 tx.inputs
  total_out ← map_err tx_error (total_output_quanta tx)
  guard (leb total_out total_in) (value_deficit total_in total_out)
  ok_or (checked_sub total_in total_out) utxo_overflow

-- Step 5: the consumed inputs go.
unfoldable pub remove_inputs : List TxIn → UtxoSet → UtxoSet
remove_inputs [] s = s
remove_inputs (i ∷ is) s = remove_inputs is (remove i.previous_output s)

-- The new outputs, from this index on. An index is taken `as u32`; an `OP_RETURN` output is skipped.
unfoldable pub insert_outputs :
    Hash256 → ℕ → Bool → ℕ → List TxOut → UtxoSet → UtxoSet × Result UtxoError (Unit {0})
unfolding insert
insert_outputs id height coinbase index [] s = (s, ok tt)
insert_outputs id height coinbase index (o ∷ os) s = elim (is_op_return o) [
  | true ↦ insert_outputs id height coinbase (suc index) os s
  | false ↦
      and_then
        (insert (record { txid = id; index = index % 2 ^ 32 })
          (record { output = o; block_height = height; is_coinbase = coinbase }) s)
        (λ s' _. insert_outputs id height coinbase (suc index) os s')
]

-- A value of zero is for `OP_RETURN` outputs only.
unfoldable pub check_coinbase_outputs : List TxOut → Result UtxoError (Unit {0})
check_coinbase_outputs [] = ok tt
check_coinbase_outputs (o ∷ os) =
    if (o.value == 0) && not (is_op_return o)
    then err (tx_error zero_output_value)
    else check_coinbase_outputs os

unfoldable pub check_coinbase : Transaction → Result UtxoError (Unit {0})
unfolding check_coinbase_outputs
check_coinbase tx = do
  guard (not (is_empty tx.outputs)) (tx_error empty_outputs)
  check_coinbase_outputs tx.outputs
  total ← map_err tx_error (total_output_quanta tx)
  ok tt

-- The set is replaced by the staged one at the end, if nothing failed.
unfoldable pub commit : UtxoSet → UtxoSet × Result UtxoError ℕ → UtxoSet × Result UtxoError ℕ
commit s (staging, ok fees) = (staging, ok fees)
commit s (staging, err e) = (s, err e)

module _ (blake3 : Bytes → Hash256) where
  unfoldable pub apply_transaction : UtxoSet → Transaction → ℕ → UtxoSet × Result UtxoError ℕ
  apply_transaction s tx height = elim (check_transaction s tx) [
    | err e ↦ (s, err e)
    | ok fee ↦
        and_then
          (insert_outputs (txid blake3 tx) height false 0 tx.outputs (remove_inputs tx.inputs s))
          (λ s' _. (s', ok fee))
  ]

  unfoldable pub apply_coinbase : UtxoSet → Transaction → ℕ → UtxoSet × Result UtxoError (Unit {0})
  apply_coinbase s tx height = elim (check_coinbase tx) [
    | err e ↦ (s, err e)
    | ok _ ↦ insert_outputs (txid blake3 tx) height true 0 tx.outputs s
  ]

  -- The loop over the transactions behind the coinbase, on the staged set.
  unfoldable pub apply_rest : UtxoSet → ℕ → ℕ → List Transaction → UtxoSet × Result UtxoError ℕ
  apply_rest staging height total_fees [] = (staging, ok total_fees)
  apply_rest staging height total_fees (tx ∷ txs) = elim (is_coinbase tx) [
    | true ↦ (staging, err invalid_coinbase_placement)
    | false ↦ and_then (apply_transaction staging tx height) (λ staging' fee.
        elim (checked_add total_fees fee) [
          | none ↦ (staging', err utxo_overflow)
          | some total ↦ apply_rest staging' height total txs
        ])
  ]

  unfoldable pub apply_block : UtxoSet → List Transaction → ℕ → UtxoSet × Result UtxoError ℕ
  unfolding commit
  apply_block s [] height = (s, err (tx_error empty_outputs))
  apply_block s (coinbase ∷ txs) height = elim (is_coinbase coinbase) [
    | false ↦ (s, err invalid_coinbase_placement)
    | true ↦
        commit s (
          and_then (apply_coinbase s coinbase height)
            (λ staging _. apply_rest staging height 0 txs))
  ]

  pub apply_block_transactions :
      UtxoSet → Transaction → List Transaction → ℕ → UtxoSet × Result UtxoError ℕ
  apply_block_transactions s coinbase txs height = apply_block s (coinbase ∷ txs) height

-- ===== src/Core/Utxo/Value.antt =====
-- What the transitions do to the total unspent value.
use scytale.Base.{
  ℕ, suc, ◌+◌, ◌%◌, ◌^◌, ◌≡◌, refl, inl, inr, Bool, false, List, [], ◌∷◌, All, ok, Option-cases,
  if◌then◌else◌, arith,
}
use scytale.Primitives.{Hash256, OutPoint, outpoint_eq, TxOut}
use scytale.Core.Types.{TxIn, UtxoEntry}
use scytale.Core.Transaction.{is_op_return}
use scytale.Core.Transaction.Checks.{DistinctInputs}
use scytale.Core.Utxo.Map.{
  Entries, lookup, insert_entry, remove_entry, value_of, value_of-remove_entry,
  lookup-remove_entry_ne,
}
use scytale.Core.Utxo.{UtxoSet, remove, add_inputs, remove_inputs, insert_outputs}

-- Adding up the inputs does not see an outpoint that none of them names.
add_inputs-remove_entry :
    (o : OutPoint) (es : Entries) (total : ℕ) (is : List TxIn)
    → All (λ j. outpoint_eq o j.previous_output ≡ false) is
    → add_inputs (remove_entry o es) total is ≡ add_inputs es total is
unfolding add_inputs
add_inputs-remove_entry o es total [] h = refl
add_inputs-remove_entry o es total (i ∷ is) (h, hs) =
    elim (Option-cases (lookup i.previous_output es)) [
      | inl missing ↦ ground (arith, lookup-remove_entry_ne o i.previous_output es h)
      | inr (e, found) ↦ ground (
        arith,
        lookup-remove_entry_ne o i.previous_output es h,
        add_inputs-remove_entry o es (total + e.output.value) is hs,
      )
    ]

-- Removing inputs that were found and are distinct takes out the value that was added up.
pub remove_inputs_value :
    (s : UtxoSet) (total t : ℕ) (is : List TxIn)
    → DistinctInputs is
    → add_inputs s.entries total is ≡ ok t
    → value_of (remove_inputs is s).entries + t ≡ value_of s.entries + total
unfolding add_inputs remove_inputs
remove_inputs_value s total t [] d h = ground arith
remove_inputs_value s total t (i ∷ is) (d, ds) h =
    elim (Option-cases (lookup i.previous_output s.entries)) [
      | inl missing ↦ absurd (ground arith)
      | inr (e, found) ↦ ground (
        arith,
        value_of-remove_entry i.previous_output s.entries e found,
        add_inputs-remove_entry i.previous_output s.entries (total + e.output.value) is d,
        remove_inputs_value (remove i.previous_output s) (total + e.output.value) t is ds,
      )
    ]

-- The value that goes into the set: `OP_RETURN` outputs do not.
abbrev pub spendable : List TxOut → ℕ
spendable [] = 0
spendable (o ∷ os) = (if is_op_return o then 0 else o.value) + spendable os

pub insert_outputs_value :
    (id : Hash256) (height : ℕ) (coinbase : Bool) (index : ℕ) (os : List TxOut) (s s' : UtxoSet)
    → insert_outputs id height coinbase index os s ≡ (s', ok tt)
    → value_of s'.entries ≡ value_of s.entries + spendable os
unfolding insert_outputs
insert_outputs_value id height coinbase index [] s s' h = ground arith
insert_outputs_value id height coinbase index (o ∷ os) s s' h =
    let key : OutPoint = record { txid = id; index = index % 2 ^ 32 } in
    let entry : UtxoEntry = record { output = o; block_height = height; is_coinbase = coinbase } in
    let added : UtxoSet = record { entries = insert_entry key entry s.entries } in
    ground (
      arith,
      insert_outputs_value id height coinbase (suc index) os s s',
      insert_outputs_value id height coinbase (suc index) os added s',
    )

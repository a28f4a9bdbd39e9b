-- ===== src/Core/Utxo/Conservation.antt =====
-- Conservation of value by transactions and blocks, and what an error leaves behind.
use scytale.Base.{
  ℕ, ◌+◌, ◌≡◌, refl, inl, inr, true, false, List, [], ◌∷◌, Result, ok, err, Result-cases,
  Bool-cases, and_then, and_then-eq-ok, if◌then◌else◌, arith,
}
use scytale.Base.Bytes.{Bytes}
use scytale.Primitives.{Hash256, TxOut}
use scytale.Core.Types.{Transaction, UtxoError}
use scytale.Core.Transaction.{
  is_op_return, txid, is_coinbase, validate_stateless, total_output_quanta,
}
use scytale.Core.Transaction.Checks.{
  outputs_value, IsWellFormed, validate_stateless_iff, total_output_quanta-eq-ok,
}
use scytale.Core.Utxo.Map.{value_of}
use scytale.Core.Utxo.Value.{spendable, remove_inputs_value, insert_outputs_value}
use scytale.Core.Utxo.{
  UtxoSet, add_inputs, remove_inputs, insert_outputs, check_transaction, apply_transaction,
  apply_coinbase, apply_rest, apply_block, commit,
}

-- The value that the `OP_RETURN` outputs take out of circulation.
abbrev pub burned : List TxOut → ℕ
burned [] = 0
burned (o ∷ os) = (if is_op_return o then o.value else 0) + burned os

abbrev pub burned_in : List Transaction → ℕ
burned_in [] = 0
burned_in (t ∷ ts) = burned t.outputs + burned_in ts

pub spendable-add-burned : (os : List TxOut) → spendable os + burned os ≡ outputs_value os
spendable-add-burned [] = refl
spendable-add-burned (o ∷ os) = ground (arith, spendable-add-burned os)

-- What a check that succeeds has found.
pub record Checked (s : UtxoSet) (tx : Transaction) (fee : ℕ) : Type 0 where
  pub well_formed : IsWellFormed tx
  pub total_in : ℕ
  pub inputs_found : add_inputs s.entries 0 tx.inputs ≡ ok total_in
  pub balanced : fee + outputs_value tx.outputs ≡ total_in

check_transaction-Checked :
    (s : UtxoSet) (tx : Transaction) (fee : ℕ) → check_transaction s tx ≡ ok fee → Checked s tx fee
unfolding check_transaction
check_transaction-Checked s tx fee h = elim (Result-cases (validate_stateless tx)) [
  | inr (x, e) ↦ absurd (ground arith)
  | inl (u, e) ↦ elim (Result-cases (add_inputs s.entries 0 tx.inputs)) [
    | inr (x, f) ↦ absurd (ground arith)
    | inl (total_in, f) ↦ elim (Result-cases (total_output_quanta tx)) [
      | inr (x, g) ↦ absurd (ground arith)
      | inl (total_out, g) ↦ record {
        well_formed = (validate_stateless_iff tx).0 e;
        total_in = total_in;
        inputs_found = f;
        balanced = ground (arith, total_output_quanta-eq-ok tx total_out g);
      }
    ]
  ]
]

commit-eq-ok :
    (s : UtxoSet) (r : UtxoSet × Result UtxoError ℕ) {s' : UtxoSet} {fees : ℕ}
    → commit s r ≡ (s', ok fees)
    → r ≡ (s', ok fees)
unfolding commit
commit-eq-ok s (staging, ok f) h = h
commit-eq-ok s (staging, err e) h = absurd (ground arith)

commit-eq-err :
    (s : UtxoSet) (r : UtxoSet × Result UtxoError ℕ) {s' : UtxoSet} {e : UtxoError}
    → commit s r ≡ (s', err e)
    → s' ≡ s
unfolding commit
commit-eq-err s (staging, ok f) h = absurd (ground arith)
commit-eq-err s (staging, err e) h = ground arith

module _ (blake3 : Bytes → Hash256) where
  pub apply_transaction-inserted :
      (s s' : UtxoSet) (tx : Transaction) (height fee : ℕ)
      → apply_transaction blake3 s tx height ≡ (s', ok fee)
      → (check_transaction s tx ≡ ok fee)
        × (insert_outputs (txid blake3 tx) height false 0 tx.outputs (remove_inputs tx.inputs s)
            ≡ (s', ok tt))
  unfolding apply_transaction
  apply_transaction-inserted s s' tx height fee h = elim (Result-cases (check_transaction s tx)) [
    | inr (x, e) ↦ absurd (ground arith)
    | inl (fee', e) ↦
        let (s₁, u, inserted, done) =
          and_then-eq-ok
            (insert_outputs (txid blake3 tx) height false 0 tx.outputs (remove_inputs tx.inputs s))
            (λ s₁ _. (s₁, ok fee')) {s' = s'} {b = fee} (rw (e, apply_transaction) at h) in
        ground arith
  ]

  -- A transaction that is applied moves value and makes none: what is left in the set, the fee and the
  -- value of the `OP_RETURN` outputs together are what was in the set.
  pub apply_transaction-conserves :
      (s s' : UtxoSet) (tx : Transaction) (height fee : ℕ)
      → apply_transaction blake3 s tx height ≡ (s', ok fee)
      → value_of s'.entries + fee + burned tx.outputs ≡ value_of s.entries
  apply_transaction-conserves s s' tx height fee h =
      let (checked, inserted) = apply_transaction-inserted s s' tx height fee h in
      let c = check_transaction-Checked s tx fee checked in
      omega (
        arith,
        c.balanced,
        remove_inputs_value s 0 c.total_in tx.inputs c.well_formed.distinct_inputs c.inputs_found,
        insert_outputs_value (txid blake3 tx) height false 0 tx.outputs (remove_inputs tx.inputs s)
            s' inserted,
        spendable-add-burned tx.outputs,
      )

  pub apply_coinbase_value :
      (s s' : UtxoSet) (tx : Transaction) (height : ℕ)
      → apply_coinbase blake3 s tx height ≡ (s', ok tt)
      → value_of s'.entries ≡ value_of s.entries + spendable tx.outputs
  unfolding apply_coinbase
  apply_coinbase_value s s' tx height h =
      ground (arith, insert_outputs_value (txid blake3 tx) height true 0 tx.outputs s s')

  apply_rest_value :
      (s s' : UtxoSet) (height total fees : ℕ) (txs : List Transaction)
      → apply_rest blake3 s height total txs ≡ (s', ok fees)
      → value_of s'.entries + fees + burned_in txs ≡ value_of s.entries + total
  unfolding apply_rest
  apply_rest_value s s' height total fees [] h = ground arith
  apply_rest_value s s' height total fees (tx ∷ txs) h = elim (Bool-cases (is_coinbase tx)) [
    | inl c ↦ absurd (ground arith)
    | inr c ↦
        let (s₁, fee, applied, rest) =
          and_then-eq-ok (apply_transaction blake3 s tx height) _ {s' = s'} {b = fees}
            (rw (c, apply_rest) at h) in
        ground (
          arith,
          apply_transaction-conserves s s₁ tx height fee applied,
          apply_rest_value s₁ s' height (total + fee) fees txs,
        )
  ]

  -- A block that is applied adds the value of its coinbase outputs and nothing else: what is left, the
  -- fees and the value of the `OP_RETURN` outputs together are what was there and what the coinbase pays.
  pub apply_block-conserves :
      (s s' : UtxoSet) (coinbase : Transaction) (txs : List Transaction) (height fees : ℕ)
      → apply_block blake3 s (coinbase ∷ txs) height ≡ (s', ok fees)
      → value_of s'.entries + fees + burned_in (coinbase ∷ txs)
        ≡ value_of s.entries + outputs_value coinbase.outputs
  unfolding apply_block
  apply_block-conserves s s' coinbase txs height fees h = elim (Bool-cases (is_coinbase coinbase)) [
    | inr c ↦ absurd (ground arith)
    | inl c ↦
        let staged = commit-eq-ok s _ (rw (c, apply_block) at h) in
        let (s₁, u, paid, rest) =
          and_then-eq-ok (apply_coinbase blake3 s coinbase height)
            (λ staging _. apply_rest blake3 staging height 0 txs) {s' = s'} {b = fees} staged in
        omega (
          arith,
          apply_coinbase_value s s₁ coinbase height paid,
          apply_rest_value s₁ s' height 0 fees txs rest,
          spendable-add-burned coinbase.outputs,
        )
  ]

  -- A block that fails leaves the set as it was, whichever of its transactions failed.
  pub apply_block_atomic :
      (s s' : UtxoSet) (txs : List Transaction) (height : ℕ) (e : UtxoError)
      → apply_block blake3 s txs height ≡ (s', err e)
      → s' ≡ s
  unfolding apply_block
  apply_block_atomic s s' [] height e h = ground arith
  apply_block_atomic s s' (coinbase ∷ txs) height e h = elim (Bool-cases (is_coinbase coinbase)) [
    | inr c ↦ ground arith
    | inl c ↦
        commit-eq-err s
          (and_then (apply_coinbase blake3 s coinbase height)
            (λ staging _. apply_rest blake3 staging height 0 txs))
          (rw (c, apply_block) at h)
  ]

-- ===== src/Core/Utxo/Spend.antt =====
-- Spent outputs are gone, for good; and the case in which `apply_transaction` is not atomic.
use scytale.Base.{
  ℕ, suc, ◌%◌, ◌^◌, ◌≡◌, ◌≢◌, refl, sym, ap, subst, ◌∙◌, ◌⊎◌, inl, inr, Bool, false, none, some,
  List, [], ◌∷◌, ok, err, arith,
}
use scytale.Base.Bytes.{Bytes}
use scytale.Primitives.{Hash256, OutPoint, TxOut, outpoint_eq→≡}
use scytale.Core.Types.{TxIn, Transaction, UtxoEntry, duplicate_outpoint}
use scytale.Core.Transaction.{is_op_return, txid}
use scytale.Core.Utxo.Map.{
  Entries, lookup, insert_entry, remove_entry, Distinct, lookup-remove_entry_self,
  remove_entry-Distinct,
}
use scytale.Core.Utxo.Conservation.{apply_transaction-inserted}
use scytale.Core.Utxo.{
  UtxoSet, remove, remove_inputs, insert_outputs, check_transaction, apply_transaction,
}

lookup-none-remove_entry :
    (o q : OutPoint) (es : Entries) → lookup q es ≡ none → lookup q (remove_entry o es) ≡ none
lookup-none-remove_entry o q [] h = refl
lookup-none-remove_entry o q ((p, f) ∷ es) h = ground (arith, lookup-none-remove_entry o q es)

remove_inputs-Distinct :
    (is : List TxIn) (s : UtxoSet) → Distinct s.entries → Distinct (remove_inputs is s).entries
unfolding remove_inputs
remove_inputs-Distinct [] s d = d
remove_inputs-Distinct (i ∷ is) s d =
    remove_inputs-Distinct is (remove i.previous_output s)
      (remove_entry-Distinct i.previous_output s.entries d)

lookup-none-remove_inputs :
    (q : OutPoint) (is : List TxIn) (s : UtxoSet)
    → lookup q s.entries ≡ none
    → lookup q (remove_inputs is s).entries ≡ none
unfolding remove_inputs
lookup-none-remove_inputs q [] s h = h
lookup-none-remove_inputs q (i ∷ is) s h =
    lookup-none-remove_inputs q is (remove i.previous_output s)
      (lookup-none-remove_entry i.previous_output q s.entries h)

-- The outpoint is one of those that the inputs name.
abbrev pub Names : OutPoint → List TxIn → Type 0
Names q [] = ⊥
Names q (i ∷ is) = (i.previous_output ≡ q) ⊎ Names q is

remove_inputs_gone :
    (q : OutPoint) (is : List TxIn) (s : UtxoSet)
    → Distinct s.entries
    → Names q is
    → lookup q (remove_inputs is s).entries ≡ none
unfolding remove_inputs
remove_inputs_gone q [] s d n = absurd n
remove_inputs_gone q (i ∷ is) s d (inl e) =
    lookup-none-remove_inputs q is (remove i.previous_output s) (
      ap (λ (o : OutPoint). lookup o (remove_entry i.previous_output s.entries)) (sym e)
      ∙ lookup-remove_entry_self i.previous_output s.entries d)
remove_inputs_gone q (i ∷ is) s d (inr n) =
    remove_inputs_gone q is (remove i.previous_output s)
      (remove_entry-Distinct i.previous_output s.entries d) n

abbrev key_at : Hash256 → ℕ → OutPoint
key_at id index = record { txid = id; index = index % 2 ^ 32 }

abbrev with_output : Hash256 → ℕ → Bool → ℕ → TxOut → UtxoSet → UtxoSet
with_output id height coinbase index o s = record {
  entries =
      insert_entry (key_at id index)
        (record { output = o; block_height = height; is_coinbase = coinbase }) s.entries;
}

-- One round of the loop that succeeds skips an `OP_RETURN` output or adds an entry under a new key.
insert_outputs-cons :
    (id : Hash256) (height : ℕ) (coinbase : Bool) (index : ℕ) (o : TxOut) (os : List TxOut)
    (s s' : UtxoSet)
    → insert_outputs id height coinbase index (o ∷ os) s ≡ (s', ok tt)
    → (insert_outputs id height coinbase (suc index) os s ≡ (s', ok tt))
      ⊎ ((lookup (key_at id index) s.entries ≡ none)
          × (insert_outputs id height coinbase
                (suc index)
                os
                (with_output id height coinbase index o s)
              ≡ (s', ok tt)))
unfolding insert_outputs
insert_outputs-cons id height coinbase index o os s s' h = ground arith

insert_outputs-Distinct :
    (id : Hash256) (height : ℕ) (coinbase : Bool) (index : ℕ) (os : List TxOut) (s s' : UtxoSet)
    → Distinct s.entries
    → insert_outputs id height coinbase index os s ≡ (s', ok tt)
    → Distinct s'.entries
insert_outputs-Distinct id height coinbase index [] s s' d h =
    let e : s ≡ s' = unfold insert_outputs in ap (λ r. r.0) h in
    subst (λ (u : UtxoSet). Distinct u.entries) e d
insert_outputs-Distinct id height coinbase index (o ∷ os) s s' d h =
    elim (insert_outputs-cons id height coinbase index o os s s' h) [
      | inl rest ↦ insert_outputs-Distinct id height coinbase (suc index) os s s' d rest
      | inr (free, rest) ↦
          insert_outputs-Distinct id height coinbase (suc index) os
            (with_output id height coinbase index o s) s' (free, d) rest
    ]

-- New outputs carry the transaction's own identifier.
insert_outputs_elsewhere :
    (id : Hash256) (height : ℕ) (coinbase : Bool) (index : ℕ) (os : List TxOut) (s s' : UtxoSet)
    (q : OutPoint)
    → q.txid ≢ id
    → insert_outputs id height coinbase index os s ≡ (s', ok tt)
    → lookup q s'.entries ≡ lookup q s.entries
insert_outputs_elsewhere id height coinbase index [] s s' q ne h =
    ap (λ (u : UtxoSet). lookup q u.entries) (sym (unfold insert_outputs in ap (λ r. r.0) h))
insert_outputs_elsewhere id height coinbase index (o ∷ os) s s' q ne h =
    elim (insert_outputs-cons id height coinbase index o os s s' h) [
      | inl rest ↦ insert_outputs_elsewhere id height coinbase (suc index) os s s' q ne rest
      | inr (free, rest) ↦
          insert_outputs_elsewhere id height coinbase (suc index) os
            (with_output id height coinbase index o s) s' q ne rest
          ∙ ground (arith, outpoint_eq→≡ (key_at id index) q)
    ]

module _ (blake3 : Bytes → Hash256) where
  -- A transaction that is applied to a set without duplicate keys leaves one.
  pub apply_transaction-Distinct :
      (s s' : UtxoSet) (tx : Transaction) (height fee : ℕ)
      → Distinct s.entries
      → apply_transaction blake3 s tx height ≡ (s', ok fee)
      → Distinct s'.entries
  apply_transaction-Distinct s s' tx height fee d h =
      let (checked, inserted) = apply_transaction-inserted blake3 s s' tx height fee h in
      insert_outputs-Distinct (txid blake3 tx) height false 0 tx.outputs (remove_inputs tx.inputs s)
        s' (remove_inputs-Distinct tx.inputs s d) inserted

  -- In a set without duplicate keys, what a transaction spends is gone: after it is applied, no outpoint that it names is
  -- found, unless that outpoint is of the transaction itself.
  pub apply_transaction_spends :
      (s s' : UtxoSet) (tx : Transaction) (height fee : ℕ) (q : OutPoint)
      → Distinct s.entries
      → apply_transaction blake3 s tx height ≡ (s', ok fee)
      → Names q tx.inputs
      → q.txid ≢ txid blake3 tx
      → lookup q s'.entries ≡ none
  apply_transaction_spends s s' tx height fee q d h n ne =
      let (checked, inserted) = apply_transaction-inserted blake3 s s' tx height fee h in
      insert_outputs_elsewhere (txid blake3 tx) height false 0 tx.outputs
        (remove_inputs tx.inputs s) s' q ne inserted
      ∙ remove_inputs_gone q tx.inputs s d n

  -- Where the first spendable output's outpoint is still in the set, the inputs are removed although the
  -- call fails.
  pub apply_transaction_not_atomic :
      (s : UtxoSet) (tx : Transaction) (height fee : ℕ) (o : TxOut) (os : List TxOut)
      (e : UtxoEntry)
      → check_transaction s tx ≡ ok fee
      → tx.outputs ≡ o ∷ os
      → is_op_return o ≡ false
      → lookup (record { txid = txid blake3 tx; index = 0 }) (remove_inputs tx.inputs s).entries
        ≡ some e
      → apply_transaction blake3 s tx height ≡ (
        remove_inputs tx.inputs s,
        err (duplicate_outpoint (record { txid = txid blake3 tx; index = 0 })),
      )
  unfolding apply_transaction insert_outputs
  apply_transaction_not_atomic s tx height fee o os e checked outs spendable taken = ground arith

-- ===== src/Storage/Unwind/Counts.antt =====
-- How long the undo record of a block gets.
use scytale.Base.{
  ℕ, suc, ◌+◌, ◌≤◌, ◌≡◌, refl, subst, inl, inr, Bool, Option, none, some, List, [], ◌∷◌, ◌++◌,
  length, length-append, ok, >>=-eq-ok, ok-injective, Bool-cases, arith,
}
use scytale.Base.Bytes.{Bytes}
use scytale.Primitives.{Hash256, OutPoint, TxOut}
use scytale.Core.Types.{TxIn, Transaction, UtxoEntry}
use scytale.Core.Transaction.{is_coinbase, is_op_return, txid}
use scytale.Core.Authorization.{OutputLock}
use scytale.Core.Codec.Serialize.{transaction_bytes, utxo_entry_bytes}
use scytale.Storage.Tables.{Table, stored}
use scytale.Storage.Undo.{BlockUndo}
use scytale.Storage.Connect.{
  Connecting, push_spent, find_spent, spend_input, spend_inputs, create_output, create_outputs,
  connect_transaction, connect_transactions,
}
use scytale.Storage.Unwind.{spent_inputs}
use scytale.Storage.Unwind.Loops.{if_true, if_false}

abbrev pub input_total : List Transaction → ℕ
input_total [] = 0
input_total (tx ∷ txs) = length (spent_inputs tx) + input_total txs

abbrev pub output_total : List Transaction → ℕ
output_total [] = 0
output_total (tx ∷ txs) = length tx.outputs + output_total txs

-- So many entries and outpoints more than before, at most.
pub record Grows (s n : ℕ) (old new : BlockUndo) : Type 0 where
  pub spent_le : length new.spent_utxos ≤ s + length old.spent_utxos
  pub created_le : length new.created_outpoints ≤ n + length old.created_outpoints

Grows-refl : (undo : BlockUndo) → Grows 0 0 undo undo
Grows-refl undo = record { spent_le = omega arith; created_le = omega arith }

Grows-trans :
    {s n s' n' s'' n'' : ℕ} (a b c : BlockUndo)
    → Grows s n a b
    → Grows s' n' b c
    → s + s' ≡ s''
    → n + n' ≡ n''
    → Grows s'' n'' a c
Grows-trans a b c h k e f = record {
  spent_le = omega (arith, h.spent_le, k.spent_le);
  created_le = omega (arith, h.created_le, k.created_le);
}

created_one : (os : List OutPoint) (o : OutPoint) → length (os ++ o ∷ []) ≤ 1 + length os
created_one os o = omega (arith, length-append os (o ∷ []))

push_spent-Grows :
    (o : OutPoint) (entry : Option UtxoEntry) (undo : BlockUndo)
    → Grows 1 0 undo (push_spent o entry undo)
push_spent-Grows o none undo = record { spent_le = omega arith; created_le = omega arith }
push_spent-Grows o (some u) undo = record {
  spent_le = omega (arith, length-append undo.spent_utxos ((o, u) ∷ []));
  created_le = omega arith;
}

module _ {T : Type 0} ⦃table : Table T⦄ (blake3 : Bytes → Hash256)
    (decode_lock : Bytes → Option OutputLock) where
  spend_inputs-Grows :
      (id : Hash256) (is : List TxIn) (c c' : Connecting T)
      → spend_inputs blake3 decode_lock id is c ≡ ok c'
      → Grows (length is) 0 c.undo c'.undo
  unfolding spend_inputs spend_input
  spend_inputs-Grows id [] c c' e =
      subst (λ (x : Connecting T). Grows 0 0 c.undo x.undo) (ok-injective e) (Grows-refl c.undo)
  spend_inputs-Grows id (i ∷ is) c c' e =
      let (d, de, rest) = >>=-eq-ok (spend_input blake3 decode_lock id i c) _ e in
      let (found, fe, done) = >>=-eq-ok (find_spent i.previous_output c) _ de in
      Grows-trans c.undo d.undo c'.undo
        (subst (λ (x : Connecting T). Grows 1 0 c.undo x.undo) (ok-injective done)
          (push_spent-Grows i.previous_output found.0 c.undo))
        (spend_inputs-Grows id is d c' rest) (omega arith) (omega arith)

  create_output-Grows :
      (id : Hash256) (height : ℕ) (coinbase : Bool) (index : ℕ) (o : TxOut) (c c' : Connecting T)
      → create_output blake3 decode_lock id height coinbase index o c ≡ ok c'
      → Grows 0 1 c.undo c'.undo
  unfolding create_output
  create_output-Grows id height coinbase index o c c' e = elim (Bool-cases (is_op_return o)) [
    | inl skipped ↦
        subst (λ (x : Connecting T). Grows 0 1 c.undo x.undo)
          (ok-injective (if_true (is_op_return o) _ _ skipped e))
          (record { spent_le = omega arith; created_le = omega arith })
    | inr kept ↦
        let (bytes, be, done) =
          >>=-eq-ok (stored (utxo_entry_bytes _)) _ (if_false (is_op_return o) _ _ kept e) in
        subst (λ (x : Connecting T). Grows 0 1 c.undo x.undo) (ok-injective done)
          (record { spent_le = omega arith; created_le = created_one c.undo.created_outpoints _ })
  ]

  create_outputs-Grows :
      (id : Hash256) (height : ℕ) (coinbase : Bool) (index : ℕ) (os : List TxOut)
      (c c' : Connecting T)
      → create_outputs blake3 decode_lock id height coinbase index os c ≡ ok c'
      → Grows 0 (length os) c.undo c'.undo
  unfolding create_outputs
  create_outputs-Grows id height coinbase index [] c c' e =
      subst (λ (x : Connecting T). Grows 0 0 c.undo x.undo) (ok-injective e) (Grows-refl c.undo)
  create_outputs-Grows id height coinbase index (o ∷ os) c c' e =
      let (d, de, rest) =
        >>=-eq-ok (create_output blake3 decode_lock id height coinbase index o c) _ e in
      Grows-trans c.undo d.undo c'.undo (create_output-Grows id height coinbase index o c d de)
        (create_outputs-Grows id height coinbase (suc index) os d c' rest) (omega arith)
        (omega arith)

  pub connect_transactions-Grows :
      (hash : Hash256) (height : ℕ) (txs : List Transaction) (c c' : Connecting T)
      → connect_transactions blake3 decode_lock hash height txs c ≡ ok c'
      → Grows (input_total txs) (output_total txs) c.undo c'.undo
  unfolding connect_transactions connect_transaction
  connect_transactions-Grows hash height [] c c' e =
      subst (λ (x : Connecting T). Grows 0 0 c.undo x.undo) (ok-injective e) (Grows-refl c.undo)
  connect_transactions-Grows hash height (tx ∷ txs) c c' e =
      let (d, de, rest) = >>=-eq-ok (connect_transaction blake3 decode_lock hash height tx c) _ e in
      let (bytes, be, de') = >>=-eq-ok (stored (transaction_bytes tx)) _ de in
      let (spent, se, created) =
        >>=-eq-ok (spend_inputs blake3 decode_lock (txid blake3 tx) (spent_inputs tx) _) _ de' in
      Grows-trans c.undo d.undo c'.undo
        (Grows-trans c.undo spent.undo d.undo
          (spend_inputs-Grows (txid blake3 tx) (spent_inputs tx) _ spent se)
          (create_outputs-Grows (txid blake3 tx) height (is_coinbase tx) 0 tx.outputs spent d
            created)
          refl refl)
        (connect_transactions-Grows hash height txs d c' rest) (omega arith) (omega arith)

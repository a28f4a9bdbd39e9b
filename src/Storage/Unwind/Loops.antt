-- ===== src/Storage/Unwind/Loops.antt =====
-- Committing a block keeps what takes it back.
use scytale.Base.{
  ℕ, suc, ◌%◌, ◌^◌, ◌<◌, ◌≡◌, subst, inl, inr, Bool, true, false, Option, List, [], ◌∷◌,
  if◌then◌else◌, length, All, Result, ok, err, >>=-eq-ok, ok-injective, Bool-cases, Option-cases,
  Result-cases, arith,
}
use scytale.Base.Bytes.{Bytes, bytes_eq_refl}
use scytale.Primitives.{Hash256, TxOut}
use scytale.Core.Types.{TxIn, Transaction, SerializationError}
use scytale.Core.Transaction.{is_coinbase, is_op_return, txid}
use scytale.Core.Authorization.{OutputLock}
use scytale.Core.Codec.Roundtrip.{IsTxIn, IsTxOut, IsTransaction}
use scytale.Core.Codec.Serialize.{transaction_bytes, utxo_entry_bytes}
use scytale.Storage.Tables.{Table, stored}
use scytale.Storage.Undo.{outpoint_to_key}
use scytale.Storage.Connect.{
  Connecting, find_spent, spend_input, spend_inputs, create_output, create_outputs,
  connect_transaction, connect_transactions,
}
use scytale.Storage.Unwind.{IsUndone, creates, is_spent, spent_inputs, block_spends, block_creates}
use scytale.Storage.Unwind.Steps.{
  find_spent-missing, find_spent-found, missing-IsUndone, spent-IsUndone, created-IsUndone,
}

pub if_true {ℓ} :
    {A : Type ℓ} (b : Bool) (x y : A) {z : A} → b ≡ true → (if b then x else y) ≡ z → x ≡ z
if_true true x y h e = e
if_true false x y h e = absurd (ground arith)

pub if_false {ℓ} :
    {A : Type ℓ} (b : Bool) (x y : A) {z : A} → b ≡ false → (if b then x else y) ≡ z → y ≡ z
if_false true x y h e = absurd (ground arith)
if_false false x y h e = e

length-txid :
    (blake3 : Bytes → Hash256)
    → ((bytes : Bytes) → length (blake3 bytes) ≡ 32)
    → (tx : Transaction) → length (txid blake3 tx) ≡ 32
unfolding txid
length-txid blake3 hashes tx = elim (Result-cases (transaction_bytes tx)) [
  | inl (bytes, e) ↦ rw (e, txid) (hashes bytes)
  | inr (x, e) ↦ rw (e, txid)
]

spent_inputs-All : (tx : Transaction) → All IsTxIn tx.inputs → All IsTxIn (spent_inputs tx)
spent_inputs-All tx h = elim (Bool-cases (is_coinbase tx)) [ inl e ↦ rw e tt | inr e ↦ rw e h ]

pub stored_written :
    {r : Result SerializationError Bytes} {bytes : Bytes} → stored r ≡ ok bytes → r ≡ ok bytes
stored_written {r = ok b} h = ground arith
stored_written {r = err x} h = absurd (ground arith)

module _ {T : Type 0} ⦃table : Table T⦄ (ours : Bytes → Bool) (before : T)
    (blake3 : Bytes → Hash256) (decode_lock : Bytes → Option OutputLock) where
  spend_input-IsUndone :
      (id : Hash256) (i : TxIn) (c c' : Connecting T)
      → IsTxIn i
      → ours (outpoint_to_key i.previous_output) ≡ false
      → spend_input blake3 decode_lock id i c ≡ ok c'
      → IsUndone ours before c.undo c.utxos
      → IsUndone ours before c'.undo c'.utxos
  unfolding spend_input
  spend_input-IsUndone id i c c' range other e h =
      let (found, fe, done) = >>=-eq-ok (find_spent i.previous_output c) _ e in
      subst (λ (x : Connecting T). IsUndone ours before x.undo x.utxos) (ok-injective done)
        (elim (Option-cases (table.get (outpoint_to_key i.previous_output) c.utxos)) [
          | inl gone ↦
              rw (find_spent-missing i.previous_output c found gone fe)
                (missing-IsUndone ours before i.previous_output c.undo c.utxos gone h)
          | inr (bytes, at) ↦
              let (u, ue, decoded) = find_spent-found i.previous_output c found bytes at fe in
              rw ue (
                spent-IsUndone ours before i.previous_output u bytes c.undo c.utxos range.previous
                  other at decoded h)
        ])

  spend_inputs-IsUndone :
      (id : Hash256) (is : List TxIn) (c c' : Connecting T)
      → All IsTxIn is
      → ((k : Bytes) → is_spent is k ≡ true → ours k ≡ false)
      → spend_inputs blake3 decode_lock id is c ≡ ok c'
      → IsUndone ours before c.undo c.utxos
      → IsUndone ours before c'.undo c'.utxos
  unfolding spend_inputs
  spend_inputs-IsUndone id [] c c' range other e h =
      subst (λ (x : Connecting T). IsUndone ours before x.undo x.utxos) (ok-injective e) h
  spend_inputs-IsUndone id (i ∷ is) c c' range other e h =
      let (d, de, rest) = >>=-eq-ok (spend_input blake3 decode_lock id i c) _ e in
      spend_inputs-IsUndone id is d c' range.1 (λ k s. other k (ground arith)) rest
        (spend_input-IsUndone id i c d range.0
          (other (outpoint_to_key i.previous_output)
            (ground (arith, bytes_eq_refl (outpoint_to_key i.previous_output))))
          de h)

  create_output-IsUndone :
      (id : Hash256) (height : ℕ) (coinbase : Bool) (index : ℕ) (o : TxOut) (c c' : Connecting T)
      → length id ≡ 32
      → IsTxOut o
      → height < 2 ^ 64
      → ((k : Bytes) → creates id index (o ∷ []) k ≡ true → ours k ≡ true)
      → create_output blake3 decode_lock id height coinbase index o c ≡ ok c'
      → IsUndone ours before c.undo c.utxos
      → IsUndone ours before c'.undo c'.utxos
  unfolding create_output
  create_output-IsUndone id height coinbase index o c c' hash range tall own e h =
      elim (Bool-cases (is_op_return o)) [
        | inl skipped ↦
            subst (λ (x : Connecting T). IsUndone ours before x.undo x.utxos)
              (ok-injective (if_true (is_op_return o) _ _ skipped e)) h
        | inr kept ↦
            let (bytes, be, done) =
              >>=-eq-ok (stored (utxo_entry_bytes _)) _ (if_false (is_op_return o) _ _ kept e) in
            subst (λ (x : Connecting T). IsUndone ours before x.undo x.utxos) (ok-injective done)
              (created-IsUndone ours before (record { txid = id; index = index % 2 ^ 32 })
                (record { output = o; block_height = height; is_coinbase = coinbase }) bytes c.undo
                c.utxos (record { txid_length = hash; index_lt = omega arith })
                (record { output_ok = range; height_lt = tall })
                (own (outpoint_to_key (record { txid = id; index = index % 2 ^ 32 })) (
                  ground (
                    arith,
                    bytes_eq_refl (outpoint_to_key (record { txid = id; index = index % 2 ^ 32 })),
                  )))
                (stored_written be) h)
      ]

  create_outputs-IsUndone :
      (id : Hash256) (height : ℕ) (coinbase : Bool) (index : ℕ) (os : List TxOut)
      (c c' : Connecting T)
      → length id ≡ 32
      → All IsTxOut os
      → height < 2 ^ 64
      → ((k : Bytes) → creates id index os k ≡ true → ours k ≡ true)
      → create_outputs blake3 decode_lock id height coinbase index os c ≡ ok c'
      → IsUndone ours before c.undo c.utxos
      → IsUndone ours before c'.undo c'.utxos
  unfolding create_outputs
  create_outputs-IsUndone id height coinbase index [] c c' hash range tall own e h =
      subst (λ (x : Connecting T). IsUndone ours before x.undo x.utxos) (ok-injective e) h
  create_outputs-IsUndone id height coinbase index (o ∷ os) c c' hash range tall own e h =
      let (d, de, rest) =
        >>=-eq-ok (create_output blake3 decode_lock id height coinbase index o c) _ e in
      create_outputs-IsUndone id height coinbase (suc index) os d c' hash range.1 tall
        (λ k s. own k (ground arith)) rest
        (create_output-IsUndone id height coinbase index o c d hash range.0 tall
          (λ k s. own k (ground arith)) de h)

  pub connect_transactions-IsUndone :
      (hash : Hash256) (height : ℕ) (txs : List Transaction) (c c' : Connecting T)
      → ((bytes : Bytes) → length (blake3 bytes) ≡ 32)
      → All IsTransaction txs
      → height < 2 ^ 64
      → ((k : Bytes) → block_spends txs k ≡ true → ours k ≡ false)
      → ((k : Bytes) → block_creates blake3 txs k ≡ true → ours k ≡ true)
      → connect_transactions blake3 decode_lock hash height txs c ≡ ok c'
      → IsUndone ours before c.undo c.utxos
      → IsUndone ours before c'.undo c'.utxos
  unfolding connect_transactions connect_transaction
  connect_transactions-IsUndone hash height [] c c' hashes range tall other own e h =
      subst (λ (x : Connecting T). IsUndone ours before x.undo x.utxos) (ok-injective e) h
  connect_transactions-IsUndone hash height (tx ∷ txs) c c' hashes range tall other own e h =
      let (d, de, rest) = >>=-eq-ok (connect_transaction blake3 decode_lock hash height tx c) _ e in
      let (bytes, be, de') = >>=-eq-ok (stored (transaction_bytes tx)) _ de in
      let (spent, se, created) =
        >>=-eq-ok (spend_inputs blake3 decode_lock (txid blake3 tx) (spent_inputs tx) _) _ de' in
      connect_transactions-IsUndone hash height txs d c' hashes range.1 tall
        (λ k s. other k (ground arith)) (λ k s. own k (ground arith)) rest
        (create_outputs-IsUndone (txid blake3 tx) height (is_coinbase tx) 0 tx.outputs spent d
          (length-txid blake3 hashes tx) range.0.outputs_ok tall (λ k s. own k (ground arith))
          created
          (spend_inputs-IsUndone (txid blake3 tx) (spent_inputs tx) _ spent
            (spent_inputs-All tx range.0.inputs_ok) (λ k s. other k (ground arith)) se h))

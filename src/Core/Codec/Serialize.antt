-- ===== src/Core/Codec/Serialize.antt =====
-- The `CanonicalSerialize` implementations. An error drops what was written, as `to_canonical_bytes` does.
use scytale.Base.{
  ℕ, ◌*◌, ◌%◌, ◌^◌, Bool, true, false, List, [], ◌∷◌, ◌++◌, ltb, if◌then◌else◌, length, Result, ok,
  err, ◌>>=◌,
}
use scytale.Base.Bytes.{Bytes, to_le_bytes}
use scytale.Primitives.{OutPoint, TxOut}
use scytale.Core.Types.{
  TxIn, Transaction, BlockHeader, Block, UtxoEntry, SerializationError, length_exceeds_limit,
}

-- 16 MB.
abbrev pub max_vector_length : ℕ
max_vector_length = 16 * 1024 * 1024

abbrev pub Writer : Type 0
Writer = Result SerializationError Bytes

unfoldable pub u32_bytes : ℕ → Bytes
u32_bytes v = to_le_bytes 4 v

unfoldable pub u64_bytes : ℕ → Bytes
u64_bytes v = to_le_bytes 8 v

unfoldable pub bool_bytes : Bool → Bytes
bool_bytes true = 1 ∷ []
bool_bytes false = 0 ∷ []

-- `(n as u32)`, which drops the high bits.
unfoldable pub count_bytes : ℕ → Bytes
count_bytes n = u32_bytes (n % 2 ^ 32)

unfoldable pub vec_bytes : Bytes → Writer
vec_bytes bs =
    if ltb max_vector_length (length bs)
    then err (length_exceeds_limit (length bs) max_vector_length)
    else ok (count_bytes (length bs) ++ bs)

unfoldable pub outpoint_bytes : OutPoint → Bytes
outpoint_bytes o = o.txid ++ u32_bytes o.index

unfoldable pub txin_bytes : TxIn → Writer
txin_bytes i = do
  authorization ← vec_bytes i.authorization
  ok (outpoint_bytes i.previous_output ++ (authorization ++ u32_bytes i.sequence))

unfoldable pub txout_bytes : TxOut → Writer
txout_bytes o = do
  locking_condition ← vec_bytes o.locking_condition
  ok (u64_bytes o.value ++ locking_condition)

-- `for item in &items { item.serialize_canonical(writer)? }`.
unfoldable pub each_bytes {ℓ} : {A : Type ℓ} → (A → Writer) → List A → Writer
each_bytes f [] = ok []
each_bytes f (x ∷ xs) = do first ← f x; rest ← each_bytes f xs; ok (first ++ rest)

unfoldable pub transaction_bytes : Transaction → Writer
transaction_bytes t = do
  inputs ← each_bytes txin_bytes t.inputs
  outputs ← each_bytes txout_bytes t.outputs
  ok (
      u32_bytes t.version
      ++ (count_bytes (length t.inputs)
          ++ (inputs ++ (count_bytes (length t.outputs) ++ (outputs ++ u64_bytes t.lock_time)))))

unfoldable pub header_bytes : BlockHeader → Bytes
header_bytes h =
    u32_bytes h.version
    ++ (h.previous_block_hash
        ++ (h.transaction_commitment
            ++ (h.utxo_root
                ++ (u64_bytes h.timestamp
                    ++ (u32_bytes h.difficulty_target ++ u64_bytes h.nonce)))))

unfoldable pub block_bytes : Block → Writer
block_bytes b = do
  transactions ← each_bytes transaction_bytes b.transactions
  ok (header_bytes b.header ++ (count_bytes (length b.transactions) ++ transactions))

unfoldable pub utxo_entry_bytes : UtxoEntry → Writer
utxo_entry_bytes e = do
  output ← txout_bytes e.output
  ok (output ++ (u64_bytes e.block_height ++ bool_bytes e.is_coinbase))

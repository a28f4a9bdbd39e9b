-- ===== src/Core/Codec/Deserialize.antt =====
-- The `CanonicalDeserialize` implementations.
use scytale.Base.{ℕ, Bool, true, false, [], ◌∷◌, ltb, ◌==◌, if◌then◌else◌}
use scytale.Base.Bytes.{Bytes, from_le_bytes}
use scytale.Primitives.{Hash256, OutPoint, TxOut}
use scytale.Core.Types.{
  TxIn, Transaction, BlockHeader, Block, UtxoEntry, length_exceeds_limit, invalid_encoding,
}
use scytale.Core.Codec.Serialize.{max_vector_length}
use scytale.Core.Codec.Reader.{Reader, ◌>>=◌, return, fail, read_exact, read_n}

unfoldable pub read_u32 : Reader ℕ
read_u32 = do buf ← read_exact 4; return (from_le_bytes buf)

unfoldable pub read_u64 : Reader ℕ
read_u64 = do buf ← read_exact 8; return (from_le_bytes buf)

-- The one byte of the buffer: 0 and 1 are the Booleans.
bool_of : Bytes → Reader Bool
bool_of [] = fail invalid_encoding
bool_of (b ∷ bs) =
    if b == 0 then return false else if b == 1 then return true else fail invalid_encoding

unfoldable pub read_bool : Reader Bool
unfolding bool_of
read_bool = do buf ← read_exact 1; bool_of buf

unfoldable pub read_hash : Reader Hash256
read_hash = read_exact 32

-- A `u32` length, refused above the limit.
unfoldable pub read_length : Reader ℕ
read_length = do
  len ← read_u32
  if ltb max_vector_length len
      then fail (length_exceeds_limit len max_vector_length)
      else return len

unfoldable pub read_vec : Reader Bytes
read_vec = do len ← read_length; read_exact len

unfoldable pub read_outpoint : Reader OutPoint
read_outpoint = do
  txid ← read_hash
  index ← read_u32
  return (record { txid = txid; index = index })

unfoldable pub read_txin : Reader TxIn
read_txin = do
  previous_output ← read_outpoint
  authorization ← read_vec
  sequence ← read_u32
  return (record {
    previous_output = previous_output;
    authorization = authorization;
    sequence = sequence;
  })

unfoldable pub read_txout : Reader TxOut
read_txout = do
  value ← read_u64
  locking_condition ← read_vec
  return (record { value = value; locking_condition = locking_condition })

unfoldable pub read_transaction : Reader Transaction
read_transaction = do
  version ← read_u32
  input_count ← read_length
  inputs ← read_n input_count read_txin
  output_count ← read_length
  outputs ← read_n output_count read_txout
  lock_time ← read_u64
  return (record { version = version; inputs = inputs; outputs = outputs; lock_time = lock_time })

unfoldable pub read_header : Reader BlockHeader
read_header = do
  version ← read_u32
  previous_block_hash ← read_hash
  transaction_commitment ← read_hash
  utxo_root ← read_hash
  timestamp ← read_u64
  difficulty_target ← read_u32
  nonce ← read_u64
  return (record {
    version = version;
    previous_block_hash = previous_block_hash;
    transaction_commitment = transaction_commitment;
    utxo_root = utxo_root;
    timestamp = timestamp;
    difficulty_target = difficulty_target;
    nonce = nonce;
  })

unfoldable pub read_block : Reader Block
read_block = do
  header ← read_header
  tx_count ← read_length
  transactions ← read_n tx_count read_transaction
  return (record { header = header; transactions = transactions })

unfoldable pub read_utxo_entry : Reader UtxoEntry
read_utxo_entry = do
  output ← read_txout
  block_height ← read_u64
  is_coinbase ← read_bool
  return (record { output = output; block_height = block_height; is_coinbase = is_coinbase })

-- ===== src/Core/Block.antt =====
-- crates/scytale-core/src/block.rs: the header hash and the structural checks of a block.
pub mod Structure
use scytale.Base.{
  ℕ, suc, Bool, true, false, not, List, [], ◌∷◌, Result, ok, err, ◌>>=◌, ◌>>◌, map_err,
}
use scytale.Base.Bytes.{Bytes}
use scytale.Primitives.{Hash256}
use scytale.Core.Types.{
  Transaction, BlockHeader, Block, BlockError, empty_transaction_vector, missing_coinbase,
  duplicate_coinbase, transaction_error,
}
use scytale.Core.Codec.Serialize.{header_bytes}
use scytale.Core.Transaction.{is_coinbase, validate_stateless}

-- `BlockHeader::hash`.
unfoldable pub header_hash : (Bytes → Hash256) → BlockHeader → Hash256
header_hash blake3 h = blake3 (header_bytes h)

-- The loop over the transactions behind the first, from this index on.
unfoldable pub validate_rest : ℕ → List Transaction → Result BlockError (Unit {0})
validate_rest idx [] = ok tt
validate_rest idx (tx ∷ txs) = elim (is_coinbase tx) [
  | true ↦ err (duplicate_coinbase idx)
  | false ↦ elim (map_err transaction_error (validate_stateless tx)) [
    | err e ↦ err e
    | ok _ ↦ validate_rest (suc idx) txs
  ]
]

unfoldable pub validate_transactions : List Transaction → Result BlockError (Unit {0})
validate_transactions [] = err empty_transaction_vector
validate_transactions (coinbase ∷ txs) = elim (is_coinbase coinbase) [
  | false ↦ err missing_coinbase
  | true ↦ validate_rest 1 txs
]

unfoldable pub validate_structure : Block → Result BlockError (Unit {0})
unfolding validate_transactions
validate_structure b = validate_transactions b.transactions

-- ===== src/Consensus/Validation.antt =====
-- crates/scytale-consensus/src/chain.rs, the block checks: commitment, median time, lock times and
-- the coinbase reward. An error that the source turns into a string is kept as the error it was.
pub mod Supply
use scytale.Base.{
  ℕ, zero, suc, ◌+◌, ◌-◌, ◌/◌, ◌≤◌, Bool, true, false, ◌&&◌, ◌||◌, Option, none, some, List, [],
  ◌∷◌, ◌++◌, map, ltb, leb, ◌==◌, if◌then◌else◌, length, take, drop, all, get_elem?, min, Result,
  ok, err, ◌>>=◌, ◌>>◌, guard, ok_or, map_err,
}
use scytale.Base.Bytes.{Bytes, bytes_eq}
use scytale.Base.Words.{checked_add}
use scytale.Primitives.{Hash256, u32_max}
use scytale.Core.Types.{Transaction, Block, BlockHeader, BlockError, UtxoError, TransactionError}
use scytale.Core.Transaction.{txid, total_output_quanta}
use scytale.Core.Block.{validate_structure}
use scytale.Core.Utxo.{UtxoSet, apply_block}
use scytale.Consensus.Emission.{get_block_subsidy}

-- What `ConsensusError::TransactionVerification` was made from.
pub data Cause : Type 0 where
  of_block : BlockError → Cause
  of_utxo : UtxoError → Cause
  of_transaction : TransactionError → Cause
  reward_overflow : Cause

pub data ConsensusError : Type 0 where
  transaction_verification : Cause → ConsensusError
  invalid_transaction_commitment : Hash256 → Hash256 → ConsensusError
  invalid_coinbase_reward : ℕ → ℕ → ℕ → ConsensusError
  lock_time_not_met : ConsensusError

unfoldable pub concat_txids : (Bytes → Hash256) → List Transaction → Bytes
concat_txids blake3 [] = []
concat_txids blake3 (t ∷ ts) = txid blake3 t ++ concat_txids blake3 ts

unfoldable pub transaction_commitment : (Bytes → Hash256) → Block → Hash256
unfolding concat_txids
transaction_commitment blake3 b = blake3 (concat_txids blake3 b.transactions)

-- `sort_unstable` on numbers.
unfoldable pub sort_insert : ℕ → List ℕ → List ℕ
sort_insert x [] = x ∷ []
sort_insert x (y ∷ ys) = if leb x y then x ∷ y ∷ ys else y ∷ sort_insert x ys

unfoldable pub sort : List ℕ → List ℕ
sort [] = []
sort (x ∷ xs) = sort_insert x (sort xs)

unfoldable pub median : List ℕ → ℕ
median timestamps = elim (get_elem? timestamps (length timestamps / 2)) [ none ↦ 0 | some t ↦ t ]

-- The middle of the last eleven timestamps before the index, or 0 where there are none.
unfoldable pub calculate_median_time_past : List BlockHeader → ℕ → ℕ
unfolding sort_insert sort median
calculate_median_time_past headers current_index =
    let end_index = min current_index (length headers) in
    let start = end_index - 11 in
    median (sort (map (λ h. h.timestamp) (take (end_index - start) (drop start headers))))

unfoldable pub validate_lock_time : Transaction → ℕ → ℕ → Result ConsensusError (Unit {0})
validate_lock_time tx block_height mtp =
    if (tx.lock_time == 0) || all (λ i. i.sequence == u32_max) tx.inputs
    then ok tt
    else if ltb tx.lock_time 500_000_000
    then guard (leb tx.lock_time block_height) lock_time_not_met
    else guard (leb tx.lock_time mtp) lock_time_not_met

unfoldable pub validate_lock_times : List Transaction → ℕ → ℕ → Result ConsensusError (Unit {0})
validate_lock_times [] block_height mtp = ok tt
validate_lock_times (tx ∷ txs) block_height mtp =
    validate_lock_time tx block_height mtp >> validate_lock_times txs block_height mtp

-- `block.transactions[0].total_output_quanta()`; the structure check has seen a first transaction.
unfoldable pub coinbase_total : List Transaction → Result ConsensusError ℕ
coinbase_total [] = ok 0
coinbase_total (coinbase ∷ txs) =
    map_err (λ e. transaction_verification (of_transaction e)) (total_output_quanta coinbase)

abbrev pub skip_first {ℓ} : {A : Type ℓ} → List A → List A
skip_first [] = []
skip_first (x ∷ xs) = xs

module _ (blake3 : Bytes → Hash256) where
  unfoldable pub validate_block_authoritative_with_headers :
      Block → ℕ → UtxoSet → List BlockHeader → Result ConsensusError ℕ
  unfolding coinbase_total
  validate_block_authoritative_with_headers block height parent_utxo headers = do
    map_err (λ e. transaction_verification (of_block e)) (validate_structure block)
    let expected_commitment = transaction_commitment blake3 block
    guard (bytes_eq block.header.transaction_commitment expected_commitment)
        (invalid_transaction_commitment expected_commitment block.header.transaction_commitment)
    validate_lock_times (skip_first block.transactions) height
        (calculate_median_time_past headers (length headers))
    total_fees ←
        map_err (λ e. transaction_verification (of_utxo e))
          (apply_block blake3 parent_utxo block.transactions height).1
    coinbase_output ← coinbase_total block.transactions
    let subsidy = get_block_subsidy height
    maximum_reward ←
        ok_or (checked_add subsidy total_fees) (transaction_verification reward_overflow)
    guard (leb coinbase_output maximum_reward)
        (invalid_coinbase_reward subsidy total_fees coinbase_output)
    ok total_fees

  unfoldable pub validate_block_authoritative : Block → ℕ → UtxoSet → Result ConsensusError ℕ
  validate_block_authoritative block height parent_utxo =
      validate_block_authoritative_with_headers block height parent_utxo []

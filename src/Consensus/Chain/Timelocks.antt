-- ===== src/Consensus/Chain/Timelocks.antt =====
-- Lock times that are timestamps, under `AuthoritativeTransactionVerifier` of
-- crates/scytale-consensus/src/chain.rs.
use scytale.Base.{
  ℕ, ◌<◌, ◌≡◌, inl, inr, ◌⊎◌, true, List, [], ◌∷◌, All, all, ◌==◌, ok, Bool-cases, >>=-eq-ok, arith,
}
use scytale.Base.Bytes.{Bytes}
use scytale.Primitives.{Hash256, u32_max}
use scytale.Core.Types.{Transaction, Block}
use scytale.Core.Utxo.{UtxoSet}
use scytale.Consensus.Validation.{
  validate_lock_time, validate_lock_times, skip_first, validate_block_authoritative_with_headers,
  validate_block_authoritative, calculate_median_time_past,
}
use scytale.Consensus.Chain.Process.{authoritative_verifier}

-- The lock time is no timestamp, or every input is final.
abbrev pub IsUntimed : Transaction → Type 0
IsUntimed tx = (tx.lock_time < 500_000_000) ⊎ (all (λ i. i.sequence == u32_max) tx.inputs ≡ true)

lock_times-IsUntimed :
    (txs : List Transaction) (height : ℕ)
    → validate_lock_times txs height 0 ≡ ok tt
    → All IsUntimed txs
unfolding validate_lock_times validate_lock_time
lock_times-IsUntimed [] height h = tt
lock_times-IsUntimed (tx ∷ txs) height h =
    elim (Bool-cases (all (λ i. i.sequence == u32_max) tx.inputs)) [
      | inl final ↦ (inr final, lock_times-IsUntimed txs height (ground arith))
      | inr live ↦ (inl (ground arith), lock_times-IsUntimed txs height (ground arith))
    ]

module _ (blake3 : Bytes → Hash256) where
  validate-IsUntimed :
      (block : Block) (height fees : ℕ) (utxo : UtxoSet)
      → validate_block_authoritative blake3 block height utxo ≡ ok fees
      → All IsUntimed (skip_first block.transactions)
  unfolding validate_block_authoritative_with_headers validate_block_authoritative
      calculate_median_time_past
  validate-IsUntimed block height fees utxo h =
      lock_times-IsUntimed (skip_first block.transactions) height (ground arith)

  -- The verifier of `process_block` accepts a block only when no transaction behind the coinbase has a timestamp
  -- as its lock time and an input that is not final, also where that timestamp has long passed.
  pub authoritative_verifier-IsUntimed :
      (block : Block) (utxo : UtxoSet)
      → authoritative_verifier blake3 block utxo ≡ ok tt
      → All IsUntimed (skip_first block.transactions)
  unfolding authoritative_verifier
  authoritative_verifier-IsUntimed block utxo h =
      let (fees, valid, rest) = >>=-eq-ok (validate_block_authoritative blake3 block _ utxo) _ h in
      validate-IsUntimed block _ fees utxo valid

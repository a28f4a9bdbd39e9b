-- ===== src/Consensus/Validation/Supply.antt =====
-- A validated block issues no more than the subsidy of its height, so a chain of them keeps to the cap.
use scytale.Base.{
  ℕ, suc, ◌+◌, ◌≤◌, ◌≡◌, refl, sym, ap, ◌∙◌, inl, inr, List, [], ◌∷◌, ok, Result-cases,
  ok-injective, arith,
}
use scytale.Base.Bytes.{Bytes}
use scytale.Primitives.{Hash256}
use scytale.Core.Types.{Transaction, Block, BlockHeader}
use scytale.Core.Transaction.{total_output_quanta}
use scytale.Core.Transaction.Checks.{total_output_quanta-eq-ok}
use scytale.Core.Genesis.{total_genesis_quanta, build_genesis_coinbase}
use scytale.Core.Utxo.Map.{value_of}
use scytale.Core.Utxo.Conservation.{apply_block-conserves, apply_coinbase_value, burned_in}
use scytale.Core.Utxo.{UtxoSet, empty, apply_block, apply_coinbase}
use scytale.Consensus.Emission.{get_block_subsidy, max_supply, emitted}
use scytale.Consensus.Emission.Supply.{emitted-le-max_supply}
use scytale.Consensus.Validation.{validate_block_authoritative_with_headers}

module _ (blake3 : Bytes → Hash256) where
  -- The fees are those of applying the block.
  pub fees_of :
      (b : Block) (height : ℕ) (s : UtxoSet) (hs : List BlockHeader) (fees : ℕ)
      → validate_block_authoritative_with_headers blake3 b height s hs ≡ ok fees
      → (apply_block blake3 s b.transactions height).1 ≡ ok fees
  unfolding validate_block_authoritative_with_headers
  fees_of b height s hs fees h = ground arith

  reward_of :
      (b : Block) (coinbase : Transaction) (rest : List Transaction) (height : ℕ) (s : UtxoSet)
      (hs : List BlockHeader) (fees paid : ℕ)
      → b.transactions ≡ coinbase ∷ rest
      → total_output_quanta coinbase ≡ ok paid
      → validate_block_authoritative_with_headers blake3 b height s hs ≡ ok fees
      → paid ≤ get_block_subsidy height + fees
  unfolding validate_block_authoritative_with_headers
  reward_of b coinbase rest height s hs fees paid e t h = ground arith

  total_of :
      (b : Block) (coinbase : Transaction) (rest : List Transaction) (height : ℕ) (s : UtxoSet)
      (hs : List BlockHeader) (fees : ℕ)
      → b.transactions ≡ coinbase ∷ rest
      → validate_block_authoritative_with_headers blake3 b height s hs ≡ ok fees
      → (paid : ℕ) × (total_output_quanta coinbase ≡ ok paid)
  unfolding validate_block_authoritative_with_headers
  total_of b coinbase rest height s hs fees e h =
      elim (Result-cases (total_output_quanta coinbase)) [
        | inl r ↦ r
        | inr (x, f) ↦ absurd (ground arith)
      ]

  body_value :
      (b : Block) (body : List Transaction) (height : ℕ) (s s' : UtxoSet) (hs : List BlockHeader)
      (fees applied : ℕ)
      → b.transactions ≡ body
      → validate_block_authoritative_with_headers blake3 b height s hs ≡ ok fees
      → apply_block blake3 s body height ≡ (s', ok applied)
      → value_of s'.entries + burned_in body ≤ value_of s.entries + get_block_subsidy height
  unfolding apply_block
  body_value b [] height s s' hs fees applied e h a = absurd (ground arith)
  body_value b (coinbase ∷ rest) height s s' hs fees applied e h a =
      let (paid, t) = total_of b coinbase rest height s hs fees e h in
      let found : (apply_block blake3 s (coinbase ∷ rest) height).1 ≡ ok fees =
        rw e at (fees_of b height s hs fees h) in
      omega (
        arith,
        ok-injective (sym (ap (λ p. p.1) a) ∙ found),
        reward_of b coinbase rest height s hs fees paid e t h,
        total_output_quanta-eq-ok coinbase paid t,
        apply_block-conserves blake3 s s' coinbase rest height applied a,
      )

  -- Where a block validates and is applied, the value of the set afterwards and that of the block's
  -- `OP_RETURN` outputs together are at most the value of the set before and the subsidy of the height.
  pub validated_value :
      (b : Block) (height : ℕ) (s s' : UtxoSet) (hs : List BlockHeader) (fees applied : ℕ)
      → validate_block_authoritative_with_headers blake3 b height s hs ≡ ok fees
      → apply_block blake3 s b.transactions height ≡ (s', ok applied)
      → value_of s'.entries + burned_in b.transactions
        ≤ value_of s.entries + get_block_subsidy height
  validated_value b height s s' hs fees applied h a =
      body_value b b.transactions height s s' hs fees applied refl h a

  -- A chain of validated blocks on the genesis coinbase, with the height and the set it leads to.
  pub data Connected : ℕ → UtxoSet → Type 0 where
    genesis :
        (s : UtxoSet)
        → apply_coinbase blake3 empty build_genesis_coinbase 0 ≡ (s, ok tt)
        → Connected 0 s
    connect :
        (n : ℕ) (s s' : UtxoSet) (b : Block) (hs : List BlockHeader) (fees applied : ℕ)
        → Connected n s
        → validate_block_authoritative_with_headers blake3 b (suc n) s hs ≡ ok fees
        → apply_block blake3 s b.transactions (suc n) ≡ (s', ok applied)
        → Connected (suc n) s'

  Connected-value :
      (n : ℕ) (s : UtxoSet)
      → Connected n s
      → value_of s.entries + get_block_subsidy 0 ≤ total_genesis_quanta + emitted (suc n)
  unfolding build_genesis_coinbase emitted
  Connected-value n s (genesis t a) =
      omega (arith, apply_coinbase_value blake3 empty s build_genesis_coinbase 0 a)
  Connected-value n s (connect m t t' b hs fees applied before valid after) = omega (
    arith,
    Connected-value m t before,
    validated_value b (suc m) t t' hs fees applied valid after,
  )

  -- Whatever blocks are connected, the unspent outputs together never exceed the maximum supply.
  pub Connected-supply : (n : ℕ) (s : UtxoSet) → Connected n s → value_of s.entries ≤ max_supply
  Connected-supply n s c = omega (arith, Connected-value n s c, emitted-le-max_supply (suc n))

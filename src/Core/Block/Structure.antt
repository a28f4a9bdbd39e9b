-- ===== src/Core/Block/Structure.antt =====
-- The structural checks accept exactly a coinbase followed by well-formed transactions.
use scytale.Base.{ℕ, suc, ◌≡◌, ◌↔◌, refl, true, false, List, [], ◌∷◌, All, ok, arith}
use scytale.Core.Types.{Transaction, Block}
use scytale.Core.Transaction.{is_coinbase}
use scytale.Core.Transaction.Checks.{IsWellFormed, validate_stateless_iff}
use scytale.Core.Block.{validate_rest, validate_transactions, validate_structure}

abbrev pub IsOrdinary : Transaction → Type 0
IsOrdinary t = (is_coinbase t ≡ false) × IsWellFormed t

-- One coinbase, in front.
abbrev pub IsBlockBody : List Transaction → Type 0
IsBlockBody [] = ⊥
IsBlockBody (coinbase ∷ txs) = (is_coinbase coinbase ≡ true) × All IsOrdinary txs

validate_rest_iff :
    (idx : ℕ) (txs : List Transaction) → (validate_rest idx txs ≡ ok tt) ↔ All IsOrdinary txs
unfolding validate_rest
validate_rest_iff idx [] = (λ _. tt, λ _. refl)
validate_rest_iff idx (tx ∷ txs) =
    ground (arith, validate_stateless_iff tx, validate_rest_iff (suc idx) txs)

-- A block has the right structure exactly when its first transaction is a coinbase and every other one is
-- no coinbase and passes the stateless validation.
pub validate_structure_iff :
    (b : Block) → (validate_structure b ≡ ok tt) ↔ IsBlockBody b.transactions
unfolding validate_structure
validate_structure_iff b = by_body b.transactions
  where
    by_body : (txs : List Transaction) → (validate_transactions txs ≡ ok tt) ↔ IsBlockBody txs
    by_body [] = (λ h. absurd (ground arith), λ h. absurd h)
    by_body (coinbase ∷ txs) = ground (arith, validate_rest_iff 1 txs)

-- ===== src/Consensus/Pow.antt =====
-- crates/scytale-consensus/src/pow.rs: the proof of work of a header, and the search for a nonce.
use scytale.Base.{
  ℕ, zero, suc, ◌+◌, ◌≤◌, ◌<◌, ◌≡◌, ◌↔◌, refl, ◌⊎◌, inl, inr, Bool, true, false, Result, ok, err,
  Bool-cases, arith,
}
use scytale.Base.Bytes.{Bytes}
use scytale.Base.Endian.{from_be_bytes}
use scytale.Primitives.{Hash256}
use scytale.Core.Types.{BlockHeader}
use scytale.Core.Block.{header_hash}
use scytale.Consensus.Target.{Target, is_met_by}
use scytale.Consensus.Target.Compact.{IsTarget, is_met_by_iff}

pub data PowError : Type 0 where
  insufficient_work : Hash256 → Target → PowError

-- `header.nonce = nonce`.
abbrev pub with_nonce : ℕ → BlockHeader → BlockHeader
with_nonce nonce h = record {
  version = h.version;
  previous_block_hash = h.previous_block_hash;
  transaction_commitment = h.transaction_commitment;
  utxo_root = h.utxo_root;
  timestamp = h.timestamp;
  difficulty_target = h.difficulty_target;
  nonce = nonce;
}

module _ (blake3 : Bytes → Hash256) where
  abbrev pub compute_pow_hash : BlockHeader → Hash256
  compute_pow_hash header = header_hash blake3 header

  unfoldable pub verify_pow : BlockHeader → Target → Result PowError (Unit {0})
  verify_pow header expected_target = elim (is_met_by expected_target (compute_pow_hash header)) [
    | true ↦ ok tt
    | false ↦ err (insufficient_work (compute_pow_hash header) expected_target)
  ]

  -- The loop from a nonce on, for so many nonces.
  abbrev pub mine_from : ℕ → ℕ → Target → BlockHeader → BlockHeader × Bool
  mine_from nonce zero target header = (header, false)
  mine_from nonce (suc left) target header =
      elim (is_met_by target (header_hash blake3 (with_nonce nonce header))) [
        | true ↦ (with_nonce nonce header, true)
        | false ↦ mine_from (suc nonce) left target (with_nonce nonce header)
      ]

  unfoldable pub mine_test_header : BlockHeader → Target → ℕ → BlockHeader × Bool
  mine_test_header header target max_iterations = mine_from 0 max_iterations target header

  -- A header passes exactly when its hash as a number is at most the target.
  pub verify_pow_iff :
      (header : BlockHeader) (target : Target)
      → IsTarget target
      → IsTarget (compute_pow_hash header)
      → (verify_pow header target ≡ ok tt)
        ↔ (from_be_bytes (compute_pow_hash header) ≤ from_be_bytes target)
  unfolding verify_pow
  verify_pow_iff header target ht hh =
      let met = is_met_by_iff target (compute_pow_hash header) ht hh in
      elim (Bool-cases (is_met_by target (compute_pow_hash header))) [
        | inl meets ↦ rw (verify_pow, meets) ((λ _. met.0 meets), λ _. refl)
        | inr misses ↦
            rw (verify_pow, misses)
              ((λ h. absurd (ground arith)), λ le. absurd (ground (arith, met.1)))
      ]

  mine_from-verify_pow :
      (nonce left : ℕ) (target : Target) (header : BlockHeader)
      → (mine_from nonce left target header).1 ≡ true
      → verify_pow (mine_from nonce left target header).0 target ≡ ok tt
  unfolding verify_pow
  mine_from-verify_pow nonce zero target header h = absurd (ground arith)
  mine_from-verify_pow nonce (suc left) target header h =
      elim (Bool-cases (is_met_by target (header_hash blake3 (with_nonce nonce header)))) [
        | inl meets ↦ rw (mine_from, meets, verify_pow, meets) refl
        | inr misses ↦
            rw (mine_from, misses)
              (mine_from-verify_pow (suc nonce) left target (with_nonce nonce header)
                (rw (mine_from, misses) at h))
      ]

  mine_from-exhausted :
      (nonce left : ℕ) (target : Target) (header : BlockHeader) (k : ℕ)
      → (mine_from nonce left target header).1 ≡ false
      → nonce ≤ k
      → k < nonce + left
      → is_met_by target (header_hash blake3 (with_nonce k header)) ≡ false
  mine_from-exhausted nonce zero target header k h le lt = absurd (omega arith)
  mine_from-exhausted nonce (suc left) target header k h le lt =
      elim (Bool-cases (is_met_by target (header_hash blake3 (with_nonce nonce header)))) [
        | inl meets ↦ absurd (ground arith)
        | inr misses ↦ elim (order nonce k le) [
          | inl same ↦ rw (← same) misses
          | inr later ↦
              mine_from-exhausted (suc nonce) left target (with_nonce nonce header) k
                (rw (mine_from, misses) at h) later (omega arith)
        ]
      ]
    where
      order : (a b : ℕ) → a ≤ b → (a ≡ b) ⊎ (suc a ≤ b)
      order a b h = omega arith

  -- A search that succeeds leaves a header that passes.
  pub mine_test_header-verify_pow :
      (header : BlockHeader) (target : Target) (max_iterations : ℕ)
      → (mine_test_header header target max_iterations).1 ≡ true
      → verify_pow (mine_test_header header target max_iterations).0 target ≡ ok tt
  unfolding mine_test_header
  mine_test_header-verify_pow header target n h = mine_from-verify_pow 0 n target header h

  -- A search that fails has tried every nonce below its limit, and with none of them the hash of the header
  -- meets the target.
  pub mine_test_header_exhausted :
      (header : BlockHeader) (target : Target) (max_iterations k : ℕ)
      → (mine_test_header header target max_iterations).1 ≡ false
      → k < max_iterations
      → is_met_by target (header_hash blake3 (with_nonce k header)) ≡ false
  unfolding mine_test_header
  mine_test_header_exhausted header target n k h lt =
      mine_from-exhausted 0 n target header k h (omega arith) (omega arith)

-- ===== src/Stratum.antt =====
-- crates/scytale-stratum: src/job.rs and the header of src/header.rs, with the choice of branches that
-- apps/scytale-node/src/stratum_service.rs makes for a job.
pub mod Merkle
pub mod Commitment
pub mod Server
use scytale.Base.{ℕ, zero, suc, Bool, List, [], ◌∷◌, ◌++◌, length, if◌then◌else◌}
use scytale.Base.Bytes.{Bytes, bytes_eq}
use scytale.Primitives.{Hash256, zero_hash}
use scytale.Core.Types.{BlockHeader}

pub record RawBlockHeader120 : Type 0 where
  pub version : ℕ
  pub prev_hash : Hash256
  pub merkle_root : Hash256
  pub utxo_root : Hash256
  pub timestamp : ℕ
  pub bits : ℕ
  pub nonce : ℕ

pub record StratumJob : Type 0 where
  pub job_id : Bytes
  pub prev_hash : Hash256
  pub coinbase1 : Bytes
  pub coinbase2 : Bytes
  pub merkle_branches : List Hash256
  pub version : ℕ
  pub bits : ℕ
  pub utxo_root : Hash256
  pub curtime : ℕ
  pub clean_jobs : Bool

-- `From<RawBlockHeader120> for BlockHeader`.
abbrev pub to_block_header : RawBlockHeader120 → BlockHeader
to_block_header raw = record {
  version = raw.version;
  previous_block_hash = raw.prev_hash;
  transaction_commitment = raw.merkle_root;
  utxo_root = raw.utxo_root;
  timestamp = raw.timestamp;
  difficulty_target = raw.bits;
  nonce = raw.nonce;
}

unfoldable pub build_header : StratumJob → Hash256 → ℕ → ℕ → RawBlockHeader120
build_header job merkle_root timestamp nonce = record {
  version = job.version;
  prev_hash = job.prev_hash;
  merkle_root = merkle_root;
  utxo_root = job.utxo_root;
  timestamp = timestamp;
  bits = job.bits;
  nonce = nonce;
}

-- A level with its last element twice where their number is odd.
unfoldable pub pad_odd : List Hash256 → List Hash256
pad_odd [] = []
pad_odd (a ∷ []) = a ∷ a ∷ []
pad_odd (a ∷ b ∷ rest) = a ∷ b ∷ pad_odd rest

-- The payload of the coinbase with both extranonces.
abbrev pub raw_coinbase : StratumJob → Bytes → Bytes → Bytes
raw_coinbase job extranonce1 extranonce2 =
    job.coinbase1 ++ (extranonce1 ++ (extranonce2 ++ job.coinbase2))

module _ (blake3 : Bytes → Hash256) where
  -- The loop over the branches, where the zero hash is no sibling.
  unfoldable pub fold_branches : Hash256 → List Hash256 → Hash256
  fold_branches current_hash [] = current_hash
  fold_branches current_hash (branch ∷ branches) =
      fold_branches (blake3 (current_hash ++ (if bytes_eq branch zero_hash then [] else branch)))
        branches

  unfoldable pub build_merkle_root : StratumJob → Bytes → Bytes → Hash256
  build_merkle_root job extranonce1 extranonce2 =
      fold_branches (blake3 (raw_coinbase job extranonce1 extranonce2)) job.merkle_branches

  -- `chunks_exact(2)`, each pair hashed.
  unfoldable pub hash_pairs : List Hash256 → List Hash256
  hash_pairs [] = []
  hash_pairs (a ∷ []) = []
  hash_pairs (a ∷ b ∷ rest) = blake3 (a ++ b) ∷ hash_pairs rest

  -- The loop over the levels, whose number the fuel exceeds when it is the number of leaves. Padding leaves the
  -- element at index 1 where it is.
  unfoldable pub branch_loop : ℕ → List Hash256 → List Hash256
  branch_loop zero level = []
  branch_loop (suc fuel) [] = []
  branch_loop (suc fuel) (a ∷ []) = []
  branch_loop (suc fuel) (a ∷ b ∷ rest) = b ∷ branch_loop fuel (hash_pairs (pad_odd (a ∷ b ∷ rest)))

  unfoldable pub calculate_merkle_branches : List Hash256 → List Hash256
  calculate_merkle_branches [] = []
  calculate_merkle_branches (x ∷ xs) =
      branch_loop (length (zero_hash ∷ x ∷ xs)) (zero_hash ∷ x ∷ xs)

  -- What the job broadcaster puts into a job, by the hashes behind the coinbase.
  unfoldable pub branches_for : List Hash256 → List Hash256
  branches_for [] = zero_hash ∷ []
  branches_for (x ∷ []) = x ∷ []
  branches_for (x ∷ y ∷ rest) = calculate_merkle_branches (x ∷ y ∷ rest)

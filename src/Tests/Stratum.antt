-- ===== src/Tests/Stratum.antt =====
-- The theorems of Stratum at jobs for blocks of one transaction and of two behind the coinbase.
use scytale.Base.{
  ℕ, ◌≡◌, refl, false, List, [], ◌∷◌, ◌++◌, take, drop, replicate, map, Result, ok, err,
}
use scytale.Base.Collisions.{Collision}
use scytale.Base.Bytes.{Bytes, to_le_bytes}
use scytale.Primitives.{Hash256, zero_hash, u32_max, null}
use scytale.Core.Types.{Transaction, Block}
use scytale.Core.Transaction.{txid}
use scytale.Core.Codec.Serialize.{transaction_bytes}
use scytale.Consensus.Validation.{transaction_commitment}
use scytale.Stratum.{
  StratumJob, raw_coinbase, build_merkle_root, calculate_merkle_branches, branches_for,
}
use scytale.Stratum.Merkle.{IsRoot, NonZero, build_merkle_root-IsRoot}
use scytale.Stratum.Commitment.{build_merkle_root_misses}
use scytale.Tests.Data.{hash32, payment, reward_output, draft_header}

-- A coinbase with room for eight bytes of extranonce behind the height.
abbrev pool_coinbase : Transaction
pool_coinbase = record {
  version = 1;
  inputs =
      record {
        previous_output = null;
        authorization = to_le_bytes 8 1 ++ replicate 8 0;
        sequence = u32_max;
      }
      ∷ [];
  outputs = reward_output ∷ [];
  lock_time = 0;
}

abbrev bytes_or_none {ℓ} : {E : Type ℓ} → Result E Bytes → Bytes
bytes_or_none (ok bytes) = bytes
bytes_or_none (err e) = []

abbrev encoded : Bytes
encoded = bytes_or_none (transaction_bytes pool_coinbase)

abbrev job_with : List Hash256 → StratumJob
job_with branches = record {
  job_id = 1 ∷ [];
  prev_hash = zero_hash;
  coinbase1 = take 56 encoded;
  coinbase2 = drop 64 encoded;
  merkle_branches = branches;
  version = 1;
  bits = 0x1f00ffff;
  utxo_root = zero_hash;
  curtime = 1_000;
  clean_jobs = false;
}

coinbase_split :
    (branches : List Hash256)
    → transaction_bytes pool_coinbase
      ≡ ok (raw_coinbase (job_with branches) (replicate 4 0) (replicate 4 0))
unfolding transaction_bytes scytale.Core.Codec.Serialize.each_bytes
    scytale.Core.Codec.Serialize.txin_bytes scytale.Core.Codec.Serialize.vec_bytes
    scytale.Core.Codec.Serialize.txout_bytes scytale.Core.Codec.Serialize.u32_bytes
    scytale.Core.Codec.Serialize.count_bytes scytale.Core.Codec.Serialize.outpoint_bytes
    scytale.Core.Codec.Serialize.u64_bytes
coinbase_split branches = refl

abbrev small_block : Block
small_block = record { header = draft_header; transactions = pool_coinbase ∷ payment ∷ [] }

-- A hash with a single digest, where the root and the commitment cannot differ.
abbrev constant : Bytes → Hash256
constant bytes = replicate 32 1

abbrev large_block : Block
large_block = record {
  header = draft_header;
  transactions = pool_coinbase ∷ payment ∷ payment ∷ [];
}

abbrev pub large_job : StratumJob
large_job = job_with (branches_for constant (map (λ t. txid constant t) (payment ∷ payment ∷ [])))

root_met :
    build_merkle_root constant large_job (replicate 4 0) (replicate 4 0)
    ≡ transaction_commitment constant large_block
unfolding build_merkle_root transaction_commitment scytale.Stratum.fold_branches branches_for
    calculate_merkle_branches scytale.Stratum.branch_loop scytale.Stratum.hash_pairs
    scytale.Stratum.pad_odd
root_met = refl

build_merkle_root_misses_example : Collision constant
build_merkle_root_misses_example =
    build_merkle_root_misses constant (λ x. refl) large_job (replicate 4 0) (replicate 4 0)
      large_block pool_coinbase payment payment []
      record {
        coinbase_encoded =
            coinbase_split
              (branches_for constant (txid constant payment ∷ txid constant payment ∷ []));
        branches_chosen = refl;
        body_same = refl;
      }
      root_met

abbrev leaf : ℕ → Hash256
leaf n = replicate 32 n

abbrev pub tree_job : StratumJob
tree_job = job_with (calculate_merkle_branches hash32 (leaf 7 ∷ leaf 8 ∷ []))

tree_full : NonZero hash32 tree_job.merkle_branches
unfolding calculate_merkle_branches scytale.Stratum.branch_loop scytale.Stratum.hash_pairs
    scytale.Stratum.pad_odd
tree_full = (refl, (refl, tt))

build_merkle_root-IsRoot_example :
    IsRoot hash32
      (hash32 (raw_coinbase tree_job (replicate 4 0) (replicate 4 0)) ∷ leaf 7 ∷ leaf 8 ∷ [])
      (build_merkle_root hash32 tree_job (replicate 4 0) (replicate 4 0))
build_merkle_root-IsRoot_example =
    build_merkle_root-IsRoot hash32 tree_job (replicate 4 0) (replicate 4 0) (leaf 7) (leaf 8 ∷ [])
      refl tree_full

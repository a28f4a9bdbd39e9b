-- ===== src/Stratum/Commitment.antt =====
-- The root that a job of apps/scytale-node/src/stratum_service.rs leads to against the commitment that
-- crates/scytale-consensus/src/chain.rs asks of a header.
use scytale.Base.{
  ℕ, zero, suc, ◌*◌, ◌≤◌, ◌≡◌, refl, ap, sym, ◌∙◌, inl, inr, false, List, [], ◌∷◌, ◌++◌, All, map,
  length, length-append, ok, Result-cases, Bool-cases, if◌then◌else◌, arith,
}
use scytale.Base.Collisions.{Collision}
use scytale.Base.Bytes.{Bytes, bytes_eq}
use scytale.Primitives.{Hash256, zero_hash}
use scytale.Core.Types.{Transaction, Block}
use scytale.Core.Transaction.{txid}
use scytale.Core.Codec.Serialize.{transaction_bytes}
use scytale.Consensus.Validation.{concat_txids, transaction_commitment}
use scytale.Stratum.Merkle.{fold_full}
use scytale.Stratum.{
  StratumJob, pad_odd, fold_branches, raw_coinbase, build_merkle_root, hash_pairs, branch_loop,
  calculate_merkle_branches, branches_for,
}

append_nil {ℓ} : {A : Type ℓ} (xs : List A) → xs ++ [] ≡ xs
append_nil [] = refl
append_nil (x ∷ xs) = ap (λ ys. x ∷ ys) (append_nil xs)

module _ (blake3 : Bytes → Hash256) where
  -- A job for a block: its coinbase, with the extranonces, is that of the block, and its branches are those of
  -- the other transactions.
  pub record IsJobFor (job : StratumJob) (extranonce1 extranonce2 : Bytes) (b : Block)
      (coinbase : Transaction) (others : List Transaction) : Type 0 where
    pub coinbase_encoded :
        transaction_bytes coinbase ≡ ok (raw_coinbase job extranonce1 extranonce2)
    pub branches_chosen :
        job.merkle_branches ≡ branches_for blake3 (map (λ t. txid blake3 t) others)
    pub body_same : b.transactions ≡ coinbase ∷ others

  coinbase_txid :
      (coinbase : Transaction) (bytes : Bytes)
      → transaction_bytes coinbase ≡ ok bytes
      → txid blake3 coinbase ≡ blake3 bytes
  unfolding txid
  coinbase_txid coinbase bytes e = rw (txid, e) refl

  fold_zero :
      (c : Hash256) (bs : List Hash256)
      → fold_branches blake3 c (zero_hash ∷ bs) ≡ fold_branches blake3 (blake3 (c ++ [])) bs
  unfolding fold_branches
  fold_zero c bs = refl

  module _ (job : StratumJob) (extranonce1 extranonce2 : Bytes) (b : Block)
      (coinbase : Transaction) where
    -- For a block of a coinbase alone, the job leads to the commitment that the consensus rules ask for.
    root_alone :
        IsJobFor job extranonce1 extranonce2 b coinbase []
        → build_merkle_root blake3 job extranonce1 extranonce2 ≡ transaction_commitment blake3 b
    unfolding build_merkle_root transaction_commitment concat_txids branches_for fold_branches
    root_alone j =
        let id = coinbase_txid coinbase _ j.coinbase_encoded in
        rw (j.branches_chosen, j.body_same, id) (fold_zero _ [])

    -- So does the job for a coinbase and one transaction whose identifier is not the zero hash.
    root_one :
        (t : Transaction)
        → bytes_eq (txid blake3 t) zero_hash ≡ false
        → IsJobFor job extranonce1 extranonce2 b coinbase (t ∷ [])
        → build_merkle_root blake3 job extranonce1 extranonce2 ≡ transaction_commitment blake3 b
    unfolding build_merkle_root transaction_commitment concat_txids branches_for fold_branches
    root_one t full j =
        let id = coinbase_txid coinbase _ j.coinbase_encoded in
        rw (j.branches_chosen, j.body_same, id, append_nil (txid blake3 t))
          (fold_full blake3 _ (txid blake3 t) [] full)

    -- A job for a block with at most one transaction behind the coinbase, which has not the zero hash, leads to
    -- the commitment to its transactions that the consensus rules ask for.
    pub build_merkle_root_commits :
        (others : List Transaction)
        → length others ≤ 1
        → All (λ t. bytes_eq (txid blake3 t) zero_hash ≡ false) others
        → IsJobFor job extranonce1 extranonce2 b coinbase others
        → build_merkle_root blake3 job extranonce1 extranonce2 ≡ transaction_commitment blake3 b
    build_merkle_root_commits [] few full j = root_alone j
    build_merkle_root_commits (t ∷ []) few full j = root_one t full.0 j
    build_merkle_root_commits (t ∷ u ∷ rest) few full j = absurd (omega arith)

  -- A digest of at most 64 bytes.
  record IsShort (digest : Hash256) : Type 0 where
    input : Bytes
    hashed : digest ≡ blake3 input
    short : length input ≤ 64

  module _ (digests : (x : Bytes) → length (blake3 x) ≡ 32) where
    abbrev Digests : List Hash256 → Type 0
    Digests hs = All (λ h. length h ≡ 32) hs

    txid_length : (t : Transaction) → length (txid blake3 t) ≡ 32
    unfolding txid
    txid_length t = elim (Result-cases (transaction_bytes t)) [
      | inl (bytes, e) ↦ rw (txid, e) (digests bytes)
      | inr (x, e) ↦ rw (txid, e) refl
    ]

    length-concat_txids : (ts : List Transaction) → length (concat_txids blake3 ts) ≡ 32 * length ts
    unfolding concat_txids
    length-concat_txids [] = refl
    length-concat_txids (t ∷ ts) =
        let n = length-append (txid blake3 t) (concat_txids blake3 ts) in
        omega (arith, n, txid_length t, length-concat_txids ts)

    txids-Digests : (ts : List Transaction) → Digests (map (λ t. txid blake3 t) ts)
    txids-Digests [] = tt
    txids-Digests (t ∷ ts) = (txid_length t, txids-Digests ts)

    pad_odd-Digests : (hs : List Hash256) → Digests hs → Digests (pad_odd hs)
    unfolding pad_odd
    pad_odd-Digests [] d = tt
    pad_odd-Digests (a ∷ []) d = (d.0, (d.0, tt))
    pad_odd-Digests (a ∷ b ∷ rest) (da, (db, d)) = (da, (db, pad_odd-Digests rest d))

    hash_pairs-Digests : (hs : List Hash256) → Digests (hash_pairs blake3 hs)
    unfolding hash_pairs
    hash_pairs-Digests [] = tt
    hash_pairs-Digests (a ∷ []) = tt
    hash_pairs-Digests (a ∷ b ∷ rest) = (digests (a ++ b), hash_pairs-Digests rest)

    branch_loop-Digests :
        (fuel : ℕ) (hs : List Hash256) → Digests hs → Digests (branch_loop blake3 fuel hs)
    unfolding branch_loop
    branch_loop-Digests zero hs d = tt
    branch_loop-Digests (suc fuel) [] d = tt
    branch_loop-Digests (suc fuel) (a ∷ []) d = tt
    branch_loop-Digests (suc fuel) (a ∷ b ∷ rest) (da, (db, d)) =
        (db, branch_loop-Digests fuel _ (hash_pairs-Digests (pad_odd (a ∷ b ∷ rest))))

    sibling_size :
        (h : Hash256) → length h ≡ 32 → length (if bytes_eq h zero_hash then [] else h) ≤ 32
    sibling_size h e = elim (Bool-cases (bytes_eq h zero_hash)) [
      | inl z ↦ rw z (omega arith)
      | inr z ↦ rw z (omega arith)
    ]

    -- A walk over one branch or more ends in the digest of two at most.
    fold_branches-IsShort :
        (c h : Hash256) (hs : List Hash256)
        → length c ≡ 32
        → Digests (h ∷ hs)
        → IsShort (fold_branches blake3 c (h ∷ hs))
    unfolding fold_branches
    fold_branches-IsShort c h [] e (dh, d) = record {
      input = c ++ (if bytes_eq h zero_hash then [] else h);
      hashed = refl;
      short =
          let s = sibling_size h dh in
          omega (arith, length-append c (if bytes_eq h zero_hash then [] else h));
    }
    fold_branches-IsShort c h (h' ∷ hs) e (dh, d) =
        fold_branches-IsShort (blake3 (c ++ (if bytes_eq h zero_hash then [] else h))) h' hs
          (digests _) d

    root-IsShort :
        (c x y : Hash256) (rest : List Hash256)
        → length c ≡ 32
        → Digests (x ∷ y ∷ rest)
        → IsShort (fold_branches blake3 c (branches_for blake3 (x ∷ y ∷ rest)))
    unfolding branches_for calculate_merkle_branches branch_loop
    root-IsShort c x y rest e d = fold_branches-IsShort c x _ e (
        branch_loop-Digests (length (zero_hash ∷ x ∷ y ∷ rest)) (zero_hash ∷ x ∷ y ∷ rest)
          (refl, d))

    -- A job for a block with two transactions or more behind the coinbase leads to a root that the consensus
    -- rules refuse, or else to a collision of the hash: the root is the digest of at most 64 bytes and the
    -- commitment one of at least 96.
    pub build_merkle_root_misses :
        (job : StratumJob) (extranonce1 extranonce2 : Bytes) (b : Block)
        (coinbase t u : Transaction) (rest : List Transaction)
        → IsJobFor job extranonce1 extranonce2 b coinbase (t ∷ u ∷ rest)
        → build_merkle_root blake3 job extranonce1 extranonce2 ≡ transaction_commitment blake3 b
        → Collision blake3
    unfolding build_merkle_root transaction_commitment
    build_merkle_root_misses job extranonce1 extranonce2 b coinbase t u rest j same =
        let root =
          root-IsShort (blake3 (raw_coinbase job extranonce1 extranonce2)) (txid blake3 t)
            (txid blake3 u) (map (λ x. txid blake3 x) rest) (digests _)
            (txids-Digests (t ∷ u ∷ rest)) in
        let chosen =
          ap (λ bs. fold_branches blake3 (blake3 (raw_coinbase job extranonce1 extranonce2)) bs)
            j.branches_chosen in
        let long = length-concat_txids b.transactions in
        let body = ap length j.body_same in
        record {
          left = root.input;
          right = concat_txids blake3 b.transactions;
          apart = λ e. let n = ap length e in let s = root.short in absurd (omega arith);
          same_digest = sym root.hashed ∙ sym chosen ∙ same;
        }

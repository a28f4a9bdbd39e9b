-- ===== src/Consensus/Chain.antt =====
-- crates/scytale-consensus/src/chain.rs: the tree of blocks, its errors and its walks along parent links.
-- The hash maps and sets are association lists and lists. A walk runs on the height of its start and one as
-- fuel, which is the number of nodes down to height 0 where each parent is one lower.
pub mod Process
pub mod Paths
pub mod Switch
pub mod Replay
pub mod Supply
pub mod Timelocks
pub mod Extend
use scytale.Base.{
  ℕ, zero, suc, Bool, true, false, ◌||◌, Option, none, some, List, [], ◌∷◌, ◌++◌, map, reverse,
  ◌==◌, if◌then◌else◌, length, Result, ok, err,
}
use scytale.Base.Bytes.{Bytes, bytes_eq}
use scytale.Primitives.{Hash256}
use scytale.Core.Types.{Block, BlockHeader, Transaction, BlockError, UtxoError}
use scytale.Core.Block.{header_hash}
use scytale.Consensus.Target.{from_compact}
use scytale.Consensus.Work.{CumulativeWork, zero_work, block_work}
use scytale.Consensus.Difficulty.{DifficultyError}
use scytale.Consensus.Pow.{PowError}
use scytale.Consensus.Validation.{ConsensusError}

pub record BlockNode : Type 0 where
  pub hash : Hash256
  pub parent_hash : Hash256
  pub height : ℕ
  pub block_work : CumulativeWork
  pub cumulative_work : CumulativeWork
  pub block : Block

-- `ReorgResult`.
pub record ReorgResult : Type 0 where
  pub old_tip : Hash256
  pub new_tip : Hash256
  pub disconnected_blocks : List Block
  pub connected_blocks : List Block
  pub transactions_for_mempool : List Transaction

-- What the text of `InvalidBranchBlock`, `ReorgFailed` or `InvalidTimestamp` was made from.
pub data Reason : Type 0 where
  marked parent_marked : Reason
  of_consensus : ConsensusError → Reason
  of_verifier : ConsensusError → Reason
  of_utxo : UtxoError → Reason
  root_mismatch : Hash256 → Hash256 → Reason
  missing_history clock_before_epoch : Reason

pub data ChainError : Type 0 where
  difficulty : DifficultyError → ChainError
  invalid_pow : PowError → ChainError
  invalid_branch_block : Hash256 → Reason → ChainError
  common_ancestor_not_found : Hash256 → Hash256 → ChainError
  reorg_failed : Hash256 → Reason → ChainError
  reorg_depth_exceeded : ℕ → ℕ → ChainError
  corrupted_linkage : Hash256 → ChainError
  work_overflow : ChainError
  block_error : BlockError → ChainError
  invalid_coinbase_reward : ℕ → ℕ → ℕ → ChainError
  invalid_transaction_commitment : Hash256 → Hash256 → ChainError
  invalid_timestamp : Reason → ChainError
  non_monotonic_timestamp block_too_far_in_future timestamp_before_median_time_past : ChainError
  -- Where the source panics: the canonical tip is not in the tree.
  canonical_tip_missing : ChainError

abbrev pub Nodes : Type 0
Nodes = List (Hash256 × BlockNode)

abbrev pub node_at : Hash256 → Nodes → Option BlockNode
node_at h [] = none
node_at h ((k, n) ∷ ns) = if bytes_eq k h then some n else node_at h ns

pub record ChainTree : Type 0 where
  pub nodes : Nodes
  pub canonical_tip : Hash256
  pub max_reorg_depth : ℕ
  pub invalid_blocks : List Hash256

abbrev pub get_node : ChainTree → Hash256 → Option BlockNode
get_node tree h = node_at h tree.nodes

abbrev pub default_max_reorg_depth : ℕ
default_max_reorg_depth = 100

abbrev pub genesis_node : (Bytes → Hash256) → Block → BlockNode
genesis_node blake3 genesis_block =
    let work = block_work (from_compact genesis_block.header.difficulty_target) in
    record {
      hash = header_hash blake3 genesis_block.header;
      parent_hash = genesis_block.header.previous_block_hash;
      height = 0;
      block_work = work;
      cumulative_work = work;
      block = genesis_block;
    }

-- `ChainTree::new`.
unfoldable pub new : (Bytes → Hash256) → Block → ChainTree
new blake3 genesis_block =
    let hash = header_hash blake3 genesis_block.header in
    record {
      nodes = (hash, genesis_node blake3 genesis_block) ∷ [];
      canonical_tip = hash;
      max_reorg_depth = default_max_reorg_depth;
      invalid_blocks = [];
    }

pub set_max_reorg_depth : ChainTree → ℕ → ChainTree
set_max_reorg_depth tree depth = record tree { max_reorg_depth = depth }

pub canonical_height : ChainTree → ℕ
canonical_height tree = elim (get_node tree tree.canonical_tip) [ none ↦ 0 | some n ↦ n.height ]

unfoldable pub canonical_work : ChainTree → CumulativeWork
canonical_work tree = elim (get_node tree tree.canonical_tip) [
  | none ↦ zero_work
  | some n ↦ n.cumulative_work
]

abbrev pub contains_hash : Hash256 → List Hash256 → Bool
contains_hash h [] = false
contains_hash h (k ∷ ks) = bytes_eq k h || contains_hash h ks

unfoldable pub is_block_invalid : ChainTree → Hash256 → Bool
is_block_invalid tree h = contains_hash h tree.invalid_blocks

pub mark_block_invalid : ChainTree → Hash256 → ChainTree
mark_block_invalid tree h = record tree { invalid_blocks = h ∷ tree.invalid_blocks }

abbrev pub add_node : ChainTree → BlockNode → ChainTree
add_node tree n = record tree { nodes = (n.hash, n) ∷ tree.nodes }

-- The fuel of a walk from this hash.
abbrev pub walk_fuel : Nodes → Hash256 → ℕ
walk_fuel ns h = elim (node_at h ns) [ none ↦ 0 | some n ↦ suc n.height ]

-- `while let Some(node)`, which ends at height 0: the nodes met, the start first.
unfoldable pub trace : ℕ → Nodes → Hash256 → List BlockNode
trace zero ns h = []
trace (suc fuel) ns h = elim (node_at h ns) [
  | none ↦ []
  | some n ↦ n ∷ elim (n.height == 0) [ true ↦ [] | false ↦ trace fuel ns n.parent_hash ]
]

-- `get_path_from_genesis`, which never fails.
unfoldable pub get_path_from_genesis : Nodes → Hash256 → List BlockNode
get_path_from_genesis ns tip = reverse (trace (walk_fuel ns tip) ns tip)

-- The second loop of `find_common_ancestor`.
pub first_shared : ℕ → Nodes → List Hash256 → Hash256 → Option Hash256
first_shared zero ns ancestors h = none
first_shared (suc fuel) ns ancestors h = elim (node_at h ns) [
  | none ↦ none
  | some n ↦ elim (contains_hash h ancestors) [
    | true ↦ some h
    | false ↦ elim (n.height == 0) [
      | true ↦ none
      | false ↦ first_shared fuel ns ancestors n.parent_hash
    ]
  ]
]

-- The keys under which the first loop of `find_common_ancestor` finds its nodes.
pub trace_keys : ℕ → Nodes → Hash256 → List Hash256
trace_keys zero ns h = []
trace_keys (suc fuel) ns h = elim (node_at h ns) [
  | none ↦ []
  | some n ↦ h ∷ elim (n.height == 0) [ true ↦ [] | false ↦ trace_keys fuel ns n.parent_hash ]
]

unfoldable pub find_common_ancestor : Nodes → Hash256 → Hash256 → Result ChainError Hash256
unfolding trace_keys first_shared
find_common_ancestor ns tip_a tip_b =
    if bytes_eq tip_a tip_b
    then ok tip_a
    else elim (first_shared (walk_fuel ns tip_b) ns (trace_keys (walk_fuel ns tip_a) ns tip_a)
        tip_b) [ none ↦ err (common_ancestor_not_found tip_a tip_b) | some h ↦ ok h ]

-- `while curr != common_ancestor`, the walk down that stops above it, the start first.
pub trace_until : ℕ → Nodes → Hash256 → Hash256 → List BlockNode
trace_until zero ns ancestor h = []
trace_until (suc fuel) ns ancestor h = elim (bytes_eq h ancestor) [
  | true ↦ []
  | false ↦ elim (node_at h ns) [
    | none ↦ []
    | some n ↦ n ∷ trace_until fuel ns ancestor n.parent_hash
  ]
]

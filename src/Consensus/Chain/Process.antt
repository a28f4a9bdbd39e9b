-- ===== src/Consensus/Chain/Process.antt =====
-- crates/scytale-consensus/src/chain.rs, `process_block_with_verifier`: the checks of a candidate block, the
-- choice of the fork by work, and the switch to it. A method on the tree and the UTXO set returns what is left
-- of both beside its result. The clock is an argument, none where it stands before the epoch.
use scytale.Base.{
  ℕ, suc, ◌+◌, ◌-◌, ◌%◌, true, false, ◌&&◌, not, Option, none, some, List, [], ◌∷◌, ◌++◌, map,
  reverse, ltb, leb, ◌==◌, if◌then◌else◌, length, get_elem?, Result, ok, err, ◌>>=◌, ◌>>◌, guard,
  ok_or, map_err, head?, take,
}
use scytale.Base.Bytes.{Bytes, bytes_eq, from_le_bytes}
use scytale.Base.Words.{saturating_add}
use scytale.Primitives.{Hash256}
use scytale.Core.Types.{Block, BlockHeader, Transaction, UtxoError}
use scytale.Core.Transaction.{txid, is_empty}
use scytale.Core.Block.{header_hash, validate_structure}
use scytale.Core.Utxo.{UtxoSet, empty, apply_block}
use scytale.Core.Merkle.{compute_utxo_root}
use scytale.Consensus.Limbs.{limbs_ltb}
use scytale.Consensus.Target.{Target, from_compact}
use scytale.Consensus.Work.{checked_add, block_work}
use scytale.Consensus.Difficulty.{calculate_next_target, validate_block_target, default_config}
use scytale.Consensus.Pow.{verify_pow}
use scytale.Consensus.Validation.{
  ConsensusError, invalid_coinbase_reward, invalid_transaction_commitment, transaction_verification,
  lock_time_not_met, validate_block_authoritative, validate_block_authoritative_with_headers,
  calculate_median_time_past, skip_first,
}
use scytale.Consensus.Chain.{
  BlockNode, ReorgResult, marked, parent_marked, of_consensus, of_verifier, of_utxo, root_mismatch,
  missing_history, clock_before_epoch, ChainError, difficulty, invalid_pow, invalid_branch_block,
  reorg_failed, reorg_depth_exceeded, corrupted_linkage, work_overflow, block_error,
  invalid_timestamp, non_monotonic_timestamp, block_too_far_in_future,
  timestamp_before_median_time_past, canonical_tip_missing, Nodes, ChainTree, get_node,
  contains_hash, is_block_invalid, mark_block_invalid, add_node, walk_fuel, get_path_from_genesis,
  find_common_ancestor, trace_until,
}

-- The method of the trait `BlockTransactionVerifier`.
abbrev pub Verifier : Type 0
Verifier = Block → UtxoSet → Result ConsensusError (Unit {0})

-- What a call leaves of the tree and of the UTXO set, and its result.
abbrev pub Outcome : Type 0
Outcome = ChainTree × UtxoSet × Result ChainError (Option ReorgResult)

abbrev pub epoch_blocks : ℕ
epoch_blocks = 1440

abbrev pub max_future_drift : ℕ
max_future_drift = 7200

unfoldable pub headers_to : Nodes → Hash256 → List BlockHeader
headers_to ns h = map (λ n. n.block.header) (get_path_from_genesis ns h)

-- The target of the parent, retargeted at the end of an epoch.
unfoldable pub next_target : Nodes → BlockNode → Hash256 → ℕ → Result ChainError Target
next_target ns parent parent_hash height =
    let inherited = from_compact parent.block.header.difficulty_target in
    let path = get_path_from_genesis ns parent_hash in
    if leb epoch_blocks height && (height % epoch_blocks == 0)
    then elim (get_elem? path (length path - (epoch_blocks + 1))) [
      | none ↦ err (invalid_timestamp missing_history)
      | some start ↦ map_err difficulty (
          calculate_next_target inherited start.block.header.timestamp parent.block.header.timestamp
            default_config)
    ]
    else ok inherited

-- The error of a block that the authoritative checks refuse.
pub refusal : Hash256 → ConsensusError → ChainError
refusal hash (invalid_coinbase_reward subsidy fees output) =
    ChainError.invalid_coinbase_reward subsidy fees output
refusal hash (invalid_transaction_commitment expected actual) =
    ChainError.invalid_transaction_commitment expected actual
refusal hash (transaction_verification cause) =
    reorg_failed hash (of_consensus (transaction_verification cause))
refusal hash lock_time_not_met = reorg_failed hash (of_consensus lock_time_not_met)

abbrev pub applied : Hash256 → UtxoSet × Result UtxoError ℕ → Result ChainError UtxoSet
applied hash (s, ok fees) = ok s
applied hash (s, err e) = err (reorg_failed hash (of_utxo e))

-- The disconnected transactions behind the coinbase that no connected block has.
pub missing_from : (Bytes → Hash256) → List Hash256 → List Transaction → List Transaction
missing_from blake3 connected [] = []
missing_from blake3 connected (tx ∷ txs) =
    let rest = missing_from blake3 connected txs in
    if contains_hash (txid blake3 tx) connected then rest else tx ∷ rest

unfoldable pub mempool_transactions :
    (Bytes → Hash256) → List Hash256 → List Block → List Transaction
unfolding missing_from
mempool_transactions blake3 connected [] = []
mempool_transactions blake3 connected (b ∷ bs) =
    missing_from blake3 connected (skip_first b.transactions)
    ++ mempool_transactions blake3 connected bs

pub txids_of : (Bytes → Hash256) → List Block → List Hash256
txids_of blake3 [] = []
txids_of blake3 (b ∷ bs) = map (λ tx. txid blake3 tx) b.transactions ++ txids_of blake3 bs

module _ (blake3 : Bytes → Hash256) where
  unfoldable pub check_header :
      Nodes → Option ℕ → BlockNode → Hash256 → ℕ → BlockHeader → Result ChainError (Unit {0})
  unfolding next_target
  check_header ns now parent parent_hash height header = do
    expected_target ← next_target ns parent parent_hash height
    map_err difficulty (validate_block_target header expected_target)
    map_err invalid_pow (verify_pow blake3 header expected_target)
    guard (ltb parent.block.header.timestamp header.timestamp) non_monotonic_timestamp
    seconds ← ok_or now (invalid_timestamp clock_before_epoch)
    guard (leb header.timestamp (saturating_add seconds max_future_drift)) block_too_far_in_future

  -- `apply_block_transactions` of a node; a block has a first transaction where it has passed the structure
  -- check, and the source panics where it has none.
  unfoldable pub apply_node : UtxoSet → BlockNode → Result ChainError UtxoSet
  apply_node s n = applied n.hash (apply_block blake3 s n.block.transactions n.height)

  unfoldable pub replay : UtxoSet → List BlockNode → Result ChainError UtxoSet
  replay s [] = ok s
  replay s (n ∷ ns) = elim (apply_node s n) [ err e ↦ err e | ok s' ↦ replay s' ns ]

  -- The set at a block of the tree: the present one at the tip, else replayed from genesis.
  unfoldable pub state_at : ChainTree → UtxoSet → Hash256 → Result ChainError UtxoSet
  state_at tree utxo h =
      if bytes_eq h tree.canonical_tip
      then ok utxo
      else replay empty (get_path_from_genesis tree.nodes h)

  -- What is checked before anything changes. The result is the set at the parent.
  unfoldable pub check_candidate :
      ChainTree → UtxoSet → Option ℕ → BlockNode → Block → Result ChainError UtxoSet
  unfolding check_header
  check_candidate tree utxo now parent block =
      let parent_hash = block.header.previous_block_hash in
      let headers = headers_to tree.nodes parent_hash in
      do
        check_header tree.nodes now parent parent_hash (suc parent.height) block.header
        parent_utxo ← state_at tree utxo parent_hash
        guard
            (not (
              not (is_empty headers)
              && ltb block.header.timestamp (calculate_median_time_past headers (length headers))))
            timestamp_before_median_time_past
        ok parent_utxo

module _ (blake3 : Bytes → Hash256) (verify : Verifier) where
  -- One round of the loop that applies the branch: the checks, the verifier, the transition and the root.
  -- An error comes with the node that is then marked invalid.
  unfoldable pub connect_node : Nodes → UtxoSet → BlockNode → Result (Hash256 × ChainError) UtxoSet
  connect_node ns staged n = do
    fees ←
        map_err (λ e. (n.hash, refusal n.hash e))
          (validate_block_authoritative_with_headers blake3 n.block n.height staged
            (headers_to ns n.parent_hash))
    map_err (λ e. (n.hash, reorg_failed n.hash (of_verifier e))) (verify n.block staged)
    staged' ← map_err (λ e. (n.hash, e)) (apply_node blake3 staged n)
    guard (bytes_eq n.block.header.utxo_root (compute_utxo_root blake3 staged')) (
      n.hash,
      reorg_failed n.hash
          (root_mismatch n.block.header.utxo_root (compute_utxo_root blake3 staged')),
    )
    ok staged'

  unfoldable pub connect_nodes :
      Nodes → UtxoSet → List BlockNode → Result (Hash256 × ChainError) UtxoSet
  connect_nodes ns staged [] = ok staged
  connect_nodes ns staged (n ∷ rest) = elim (connect_node ns staged n) [
    | err e ↦ err e
    | ok staged' ↦ connect_nodes ns staged' rest
  ]

  -- Steps 6 and 7: the branch is applied to a staged set, which takes the place of the set at the end.
  unfoldable pub switch_to :
      ChainTree → UtxoSet → BlockNode → Hash256 → List BlockNode → List BlockNode → Outcome
  switch_to tree utxo candidate ancestor disconnected connected =
      elim (state_at blake3 tree utxo ancestor) [
        | err e ↦ (tree, utxo, err e)
        | ok staged ↦ elim (connect_nodes tree.nodes staged connected) [
          | err failed ↦ (
            mark_block_invalid (mark_block_invalid tree failed.0) candidate.hash,
            utxo,
            err failed.1,
          )
          | ok staged' ↦
              let disconnected_blocks = map (λ n. n.block) disconnected in
              let connected_blocks = map (λ n. n.block) connected in
              (
                record (add_node tree candidate) { canonical_tip = candidate.hash },
                staged',
                ok (
                    some (record {
                      old_tip = tree.canonical_tip;
                      new_tip = candidate.hash;
                      disconnected_blocks = disconnected_blocks;
                      connected_blocks = connected_blocks;
                      transactions_for_mempool =
                          mempool_transactions blake3 (txids_of blake3 connected_blocks)
                            disconnected_blocks;
                    })),
              )
        ]
      ]

  -- Step 5: the way down to the common ancestor and up to the candidate.
  unfoldable pub reorganize : ChainTree → UtxoSet → BlockNode → Outcome
  reorganize tree utxo candidate =
      elim (find_common_ancestor tree.nodes tree.canonical_tip candidate.parent_hash) [
        | err e ↦ (tree, utxo, err e)
        | ok ancestor ↦
            let disconnected =
              trace_until (walk_fuel tree.nodes tree.canonical_tip) tree.nodes ancestor
                tree.canonical_tip in
            let connected =
              reverse (
                trace_until (walk_fuel tree.nodes candidate.parent_hash) tree.nodes ancestor
                  candidate.parent_hash)
              ++ candidate ∷ [] in
            elim (ltb tree.max_reorg_depth (length disconnected)) [
              | true ↦ (
                add_node tree candidate,
                utxo,
                err (reorg_depth_exceeded (length disconnected) tree.max_reorg_depth),
              )
              | false ↦ switch_to tree utxo candidate ancestor disconnected connected
            ]
      ]

  -- Step 4: no more work than the tip has leaves the tip where it is.
  unfoldable pub choose_tip : ChainTree → UtxoSet → BlockNode → Outcome
  choose_tip tree utxo candidate = elim (get_node tree tree.canonical_tip) [
    | none ↦ (tree, utxo, err canonical_tip_missing)
    | some active ↦ elim (limbs_ltb active.cumulative_work candidate.cumulative_work) [
      | false ↦ (add_node tree candidate, utxo, ok none)
      | true ↦ reorganize tree utxo candidate
    ]
  ]

  -- Step 3: the node of the candidate, with the work of its parent and its own.
  unfoldable pub attach : ChainTree → UtxoSet → BlockNode → Block → Outcome
  attach tree utxo parent block =
      let work = block_work (from_compact block.header.difficulty_target) in
      elim (checked_add parent.cumulative_work work) [
        | none ↦ (tree, utxo, err work_overflow)
        | some total ↦ choose_tip tree utxo (record {
          hash = header_hash blake3 block.header;
          parent_hash = block.header.previous_block_hash;
          height = suc parent.height;
          block_work = work;
          cumulative_work = total;
          block = block;
        })
      ]

  -- The checks against the parent; a block that the authoritative ones refuse is marked invalid.
  unfoldable pub process_child : ChainTree → UtxoSet → Option ℕ → BlockNode → Block → Outcome
  unfolding check_candidate
  process_child tree utxo now parent block =
      let hash = header_hash blake3 block.header in
      elim (check_candidate blake3 tree utxo now parent block) [
        | err e ↦ (tree, utxo, err e)
        | ok parent_utxo ↦
            elim (validate_block_authoritative_with_headers blake3 block (suc parent.height)
              parent_utxo (headers_to tree.nodes block.header.previous_block_hash)) [
                | err e ↦ (mark_block_invalid tree hash, utxo, err (refusal hash e))
                | ok _ ↦ attach tree utxo parent block
              ]
      ]

  unfoldable pub process_block_with_verifier : ChainTree → UtxoSet → Option ℕ → Block → Outcome
  process_block_with_verifier tree utxo now block =
      let hash = header_hash blake3 block.header in
      let parent_hash = block.header.previous_block_hash in
      elim (is_block_invalid tree hash) [
        | true ↦ (tree, utxo, err (invalid_branch_block hash marked))
        | false ↦ elim (is_block_invalid tree parent_hash) [
          | true ↦
              (mark_block_invalid tree hash, utxo, err (invalid_branch_block hash parent_marked))
          | false ↦ elim (validate_structure block) [
            | err e ↦ (tree, utxo, err (block_error e))
            | ok _ ↦ elim (get_node tree hash) [
              | some n ↦ (tree, utxo, ok none)
              | none ↦ elim (get_node tree parent_hash) [
                | none ↦ (tree, utxo, err (corrupted_linkage parent_hash))
                | some parent ↦ process_child tree utxo now parent block
              ]
            ]
          ]
        ]
      ]

-- The height that the coinbase claims in the first eight bytes of its authorization, or 0.
unfoldable pub claimed_height : List Transaction → ℕ
claimed_height [] = 0
claimed_height (coinbase ∷ txs) = elim (head? coinbase.inputs) [
  | none ↦ 0
  | some input ↦
      if leb 8 (length input.authorization) then from_le_bytes (take 8 input.authorization) else 0
]

module _ (blake3 : Bytes → Hash256) where
  -- `AuthoritativeTransactionVerifier`, which has no headers to look at.
  unfoldable pub authoritative_verifier : Verifier
  unfolding claimed_height
  authoritative_verifier block utxo =
      validate_block_authoritative blake3 block (claimed_height block.transactions) utxo >>= λ _.
      ok tt

  pub process_block : ChainTree → UtxoSet → Option ℕ → Block → Outcome
  process_block tree utxo now block =
      process_block_with_verifier blake3 authoritative_verifier tree utxo now block

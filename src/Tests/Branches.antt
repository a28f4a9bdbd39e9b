-- ===== src/Tests/Branches.antt =====
-- The theorems of the chain tree at a tree of a genesis block, one block on it, and one that competes.
use scytale.Base.{Option, none, ℕ, ◌+◌, ◌≤◌, ◌≡◌, ◌%◌, refl, some, [], ◌∷◌, replicate, ok}
use scytale.Base.Bytes.{Bytes}
use scytale.Primitives.{Hash256, zero_hash}
use scytale.Core.Types.{Block, BlockHeader}
use scytale.Core.Genesis.{new_coinbase, build_genesis_coinbase}
use scytale.Core.Block.{header_hash}
use scytale.Core.Utxo.{UtxoSet, empty, apply_block, apply_coinbase}
use scytale.Core.Utxo.Map.{value_of}
use scytale.Core.Merkle.{compute_utxo_root}
use scytale.Consensus.Emission.{max_supply}
use scytale.Consensus.Limbs.{Limbs}
use scytale.Consensus.Work.{checked_add, block_work}
use scytale.Consensus.Target.{from_compact}
use scytale.Consensus.Validation.{transaction_commitment}
use scytale.Consensus.Chain.{
  ChainTree, ReorgResult, genesis_node, new, get_path_from_genesis, find_common_ancestor,
}
use scytale.Consensus.Chain.Process.{
  Outcome, replay, process_block_with_verifier, authoritative_verifier,
}
use scytale.Consensus.Chain.Paths.{Ancestor}
use scytale.Consensus.Chain.Replay.{
  IsReplay, Reached-IsReplay, Reached, start, process, Reached-replay, Reached-find_common_ancestor,
}
use scytale.Consensus.Chain.Switch.{SwitchesTo, process_block_fails_closed}
use scytale.Consensus.Chain.Extend.{IsGood, process_block_extends}
use scytale.Consensus.Chain.Supply.{Reached-supply}
use scytale.Tests.Data.{anyone}

abbrev sum_of : Bytes → ℕ
sum_of [] = 0
sum_of (b ∷ bs) = b + sum_of bs

-- A stand-in for BLAKE3: 32 times the sum of the input.
abbrev sum32 : Bytes → Hash256
sum32 bs = replicate 32 (sum_of bs % 127)

abbrev header_on : Hash256 → Hash256 → Hash256 → ℕ → BlockHeader
header_on parent commitment root timestamp = record {
  version = 1;
  previous_block_hash = parent;
  transaction_commitment = commitment;
  utxo_root = root;
  timestamp = timestamp;
  difficulty_target = 0x207fffff;
  nonce = 0;
}

abbrev first : Block
first = record {
  header = header_on zero_hash zero_hash zero_hash 0;
  transactions = build_genesis_coinbase ∷ [];
}

abbrev genesis_set : UtxoSet
genesis_set = (apply_block sum32 empty first.transactions 0).0

-- A block with a coinbase alone, on a parent and the set at the parent.
abbrev block_on : Hash256 → UtxoSet → ℕ → ℕ → Block
block_on parent s height timestamp =
    let body =
      new_coinbase height (record { value = 1_000; locking_condition = anyone } ∷ []) ∷ [] in
    record {
      header =
          header_on parent
            (transaction_commitment sum32
              record { header = header_on parent [] [] timestamp; transactions = body })
            (compute_utxo_root sum32 (apply_block sum32 s body height).0) timestamp;
      transactions = body;
    }

abbrev tree_0 : ChainTree
tree_0 = new sum32 first

abbrev block_1 : Block
block_1 = block_on (header_hash sum32 first.header) genesis_set 1 1_000

abbrev out_1 : Outcome
out_1 =
    process_block_with_verifier sum32 (authoritative_verifier sum32) tree_0 genesis_set (some 2_000)
      block_1

-- One that competes with it: as much work, so the tip stays.
abbrev rival_1 : Block
rival_1 = block_on (header_hash sum32 first.header) genesis_set 1 1_001

abbrev out_2 : Outcome
out_2 =
    process_block_with_verifier sum32 (authoritative_verifier sum32) out_1.0 out_1.1 (some 2_000)
      rival_1

-- A block on the rival: the tip moves to it.
abbrev rival_set : UtxoSet
rival_set = (apply_block sum32 genesis_set rival_1.transactions 1).0

abbrev rival_2 : Block
rival_2 = block_on (header_hash sum32 rival_1.header) rival_set 2 1_002

abbrev out_3 : Outcome
out_3 =
    process_block_with_verifier sum32 (authoritative_verifier sum32) out_2.0 out_2.1 (some 2_000)
      rival_2

genesis_applied : apply_block sum32 empty first.transactions 0 ≡ (genesis_set, ok 0)
unfolding build_genesis_coinbase apply_block apply_coinbase new_coinbase
    scytale.Core.Utxo.apply_rest scytale.Core.Utxo.check_coinbase
    scytale.Core.Utxo.check_coinbase_outputs scytale.Core.Utxo.commit scytale.Core.Utxo.insert
    scytale.Core.Utxo.insert_outputs scytale.Core.Codec.Serialize.outpoint_bytes
    scytale.Core.Codec.Serialize.u32_bytes scytale.Core.Codec.Serialize.u64_bytes
    scytale.Core.Codec.Serialize.count_bytes scytale.Core.Codec.Serialize.transaction_bytes
    scytale.Core.Codec.Serialize.each_bytes scytale.Core.Codec.Serialize.txin_bytes
    scytale.Core.Codec.Serialize.vec_bytes scytale.Core.Codec.Serialize.txout_bytes
    scytale.Core.Transaction.is_coinbase scytale.Core.Transaction.coinbase_inputs
    scytale.Core.Transaction.total_output_quanta scytale.Core.Transaction.txid
    scytale.Primitives.is_null scytale.Primitives.outpoint_eq
genesis_applied = refl

reached_3 : Reached sum32 (authoritative_verifier sum32) first out_3.0 out_3.1
reached_3 =
    process out_2.0 out_3.0 out_2.1 out_3.1 (some 2_000) rival_2 out_3.2
      (process out_1.0 out_2.0 out_1.1 out_2.1 (some 2_000) rival_1 out_2.2
        (process tree_0 out_1.0 genesis_set out_1.1 (some 2_000) block_1 out_1.2
          (start genesis_set 0 genesis_applied) refl)
        refl)
      refl

Reached-replay_example :
    replay sum32 empty (get_path_from_genesis out_3.0.nodes out_3.0.canonical_tip) ≡ ok out_3.1
Reached-replay_example =
    Reached-replay sum32 (authoritative_verifier sum32) first out_3.0 out_3.1 reached_3

Reached-supply_example : value_of out_3.1.entries ≤ max_supply
Reached-supply_example =
    Reached-supply sum32 (authoritative_verifier sum32) first out_3.0 out_3.1 refl reached_3

abbrev sound_3 : IsReplay sum32 out_3.0 out_3.1
sound_3 = Reached-IsReplay sum32 (authoritative_verifier sum32) first out_3.0 out_3.1 reached_3

Reached-find_common_ancestor_example :
    (a : Hash256) × (find_common_ancestor out_3.0.nodes out_3.0.canonical_tip sound_3.root.hash
      ≡ ok a)
    × Ancestor out_3.0.nodes a out_3.0.canonical_tip
    × Ancestor out_3.0.nodes a sound_3.root.hash
Reached-find_common_ancestor_example =
    Reached-find_common_ancestor sum32 (authoritative_verifier sum32) first out_3.0 out_3.1
      out_3.0.canonical_tip sound_3.root.hash sound_3.tip_node sound_3.root reached_3
      sound_3.tip_found sound_3.root_found

process_block_fails_closed_example :
    SwitchesTo sum32
      (authoritative_verifier sum32)
      (header_hash sum32 rival_2.header)
      rival_2
      out_2.0
      out_2.1
      out_3
process_block_fails_closed_example =
    process_block_fails_closed sum32 (authoritative_verifier sum32) out_2.0 out_2.1 (some 2_000)
      rival_2

abbrev sum_or : Limbs → Option Limbs → Limbs
sum_or w none = w
sum_or w (some total) = total

abbrev out_1_work : Limbs
out_1_work =
    let own = block_work (from_compact block_1.header.difficulty_target) in
    sum_or own (checked_add (genesis_node sum32 first).cumulative_work own)

abbrev set_1 : UtxoSet
set_1 = (apply_block sum32 genesis_set block_1.transactions 1).0

block_1-IsGood :
    IsGood sum32 (authoritative_verifier sum32) tree_0 genesis_set (some 2_000) block_1 set_1
unfolding scytale.Consensus.Limbs.of_be_bytes scytale.Core.Merkle.compute_utxo_leaf
    scytale.Core.Merkle.root_loop scytale.Core.Merkle.compute_utxo_merkle_root
    scytale.Core.Merkle.leaves_of compute_utxo_root scytale.Consensus.Target.is_met_by
    scytale.Consensus.Chain.get_path_from_genesis new scytale.Consensus.Chain.is_block_invalid
    scytale.Consensus.Chain.trace scytale.Consensus.Chain.Process.headers_to
    scytale.Consensus.Chain.Process.next_target scytale.Consensus.Chain.Process.check_header
    scytale.Consensus.Target.place_mantissa scytale.Consensus.Work.add_limbs
    scytale.Consensus.Work.increment scytale.Consensus.Work.shift_left
    scytale.Consensus.Work.limb_at scytale.Consensus.Work.bit_at scytale.Consensus.Work.set_lowest
    scytale.Consensus.Work.set_bit scytale.Consensus.Work.subtract scytale.Consensus.Work.divide_bit
    scytale.Consensus.Work.divide_bits scytale.Consensus.Work.div256
    scytale.Consensus.Limbs.limbs_ltb scytale.Consensus.Pow.verify_pow
    scytale.Consensus.Difficulty.validate_block_target from_compact checked_add block_work
    scytale.Consensus.Validation.validate_block_authoritative_with_headers transaction_commitment
    scytale.Consensus.Emission.get_block_subsidy scytale.Core.Block.validate_structure
    scytale.Core.Block.validate_rest scytale.Core.Block.validate_transactions
    scytale.Consensus.Validation.validate_lock_times scytale.Consensus.Validation.validate_lock_time
    scytale.Consensus.Validation.calculate_median_time_past
    scytale.Consensus.Validation.coinbase_total scytale.Consensus.Validation.concat_txids
    scytale.Consensus.Validation.median scytale.Consensus.Validation.sort
    scytale.Consensus.Validation.sort_insert apply_block apply_coinbase new_coinbase
    scytale.Core.Utxo.apply_rest scytale.Core.Utxo.apply_transaction
    scytale.Core.Utxo.check_coinbase scytale.Core.Utxo.check_coinbase_outputs
    scytale.Core.Utxo.check_transaction scytale.Core.Utxo.commit scytale.Core.Utxo.insert
    scytale.Core.Utxo.insert_outputs scytale.Core.Utxo.remove_inputs scytale.Core.Utxo.add_inputs
    scytale.Core.Codec.Serialize.outpoint_bytes scytale.Core.Codec.Serialize.u32_bytes
    scytale.Core.Codec.Serialize.u64_bytes scytale.Core.Codec.Serialize.count_bytes
    scytale.Core.Codec.Serialize.transaction_bytes scytale.Core.Codec.Serialize.each_bytes
    scytale.Core.Codec.Serialize.txin_bytes scytale.Core.Codec.Serialize.vec_bytes
    scytale.Core.Codec.Serialize.txout_bytes scytale.Core.Transaction.is_coinbase
    scytale.Core.Transaction.coinbase_inputs scytale.Core.Transaction.validate_stateless
    scytale.Core.Transaction.total_output_quanta scytale.Core.Transaction.txid
    scytale.Primitives.is_null scytale.Primitives.outpoint_eq build_genesis_coinbase
    authoritative_verifier scytale.Consensus.Validation.validate_block_authoritative
    scytale.Consensus.Chain.Process.claimed_height scytale.Consensus.Chain.Process.check_candidate
    scytale.Consensus.Chain.Process.state_at header_hash scytale.Core.Codec.Serialize.header_bytes
block_1-IsGood = record {
  on_tip = refl;
  unmarked = refl;
  parent_unmarked = refl;
  structured = refl;
  unknown = refl;
  parent = genesis_node sum32 first;
  parent_known = refl;
  checked = refl;
  fees = 0;
  authoritative = refl;
  verified = refl;
  applied_fees = 0;
  applies = refl;
  committed = refl;
  total = out_1_work;
  adds_up = refl;
  more_work = refl;
}

process_block_extends_example :
    (tree : ChainTree) × (r : ReorgResult) × (process_block_with_verifier sum32
        (authoritative_verifier sum32)
        tree_0
        genesis_set
        (some 2_000)
        block_1
      ≡ (tree, set_1, ok (some r)))
    × (tree.canonical_tip ≡ header_hash sum32 block_1.header)
    × (r.connected_blocks ≡ block_1 ∷ [])
    × (r.disconnected_blocks ≡ [])
process_block_extends_example =
    process_block_extends sum32 (authoritative_verifier sum32) tree_0 genesis_set set_1 (some 2_000)
      block_1 block_1-IsGood

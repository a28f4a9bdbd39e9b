-- ===== src/Consensus/Chain/Extend.antt =====
-- crates/scytale-consensus/src/chain.rs, `process_block_with_verifier`: a good block on the tip is taken.
use scytale.Base.{
  ltb, ℕ, suc, ◌≡◌, refl, sym, subst, ap, ◌∙◌, true, false, Option, none, some, [], ◌∷◌, ok, arith,
}
use scytale.Base.Bytes.{Bytes, bytes_eq_refl}
use scytale.Primitives.{Hash256}
use scytale.Core.Types.{Block}
use scytale.Core.Utxo.{UtxoSet, apply_block}
use scytale.Core.Merkle.{compute_utxo_root}
use scytale.Core.Block.{header_hash, validate_structure}
use scytale.Consensus.Limbs.{Limbs, limbs_ltb}
use scytale.Consensus.Work.{checked_add, block_work}
use scytale.Consensus.Target.{from_compact}
use scytale.Consensus.Validation.{validate_block_authoritative_with_headers}
use scytale.Consensus.Chain.{
  Nodes, add_node, BlockNode, ChainTree, ReorgResult, get_node, is_block_invalid,
  find_common_ancestor, trace_until, walk_fuel,
}
use scytale.Consensus.Chain.Paths.{until_self}
use scytale.Consensus.Chain.Process.{
  Verifier, process_block_with_verifier, process_child, attach, choose_tip, reorganize, switch_to,
  apply_node, connect_node, connect_nodes, state_at, check_candidate, headers_to,
  mempool_transactions,
}

not_deep {ℓ} :
    {A : Type ℓ} (depth : ℕ) (x y : A) → (elim (ltb depth 0) [ true ↦ x | false ↦ y ]) ≡ y
not_deep depth x y = ground arith

module _ (blake3 : Bytes → Hash256) (verify : Verifier) where
  -- A new block on the tip that passes each check, and what it leaves of the set.
  pub record IsGood (tree : ChainTree) (utxo : UtxoSet) (now : Option ℕ) (block : Block)
      (utxo' : UtxoSet) : Type 0 where
    pub on_tip : block.header.previous_block_hash ≡ tree.canonical_tip
    pub unmarked : is_block_invalid tree (header_hash blake3 block.header) ≡ false
    pub parent_unmarked : is_block_invalid tree block.header.previous_block_hash ≡ false
    pub structured : validate_structure block ≡ ok tt
    pub unknown : get_node tree (header_hash blake3 block.header) ≡ none
    pub parent : BlockNode
    pub parent_known : get_node tree block.header.previous_block_hash ≡ some parent
    pub checked : check_candidate blake3 tree utxo now parent block ≡ ok utxo
    pub fees : ℕ
    pub authoritative :
        validate_block_authoritative_with_headers blake3 block
          (suc parent.height)
          utxo
          (headers_to tree.nodes block.header.previous_block_hash)
        ≡ ok fees
    pub verified : verify block utxo ≡ ok tt
    pub applied_fees : ℕ
    pub applies :
        apply_block blake3 utxo block.transactions (suc parent.height) ≡ (utxo', ok applied_fees)
    pub committed : block.header.utxo_root ≡ compute_utxo_root blake3 utxo'
    pub total : Limbs
    pub adds_up :
        checked_add parent.cumulative_work
          (block_work (from_compact block.header.difficulty_target))
        ≡ some total
    pub more_work : limbs_ltb parent.cumulative_work total ≡ true

  abbrev node_of : Block → BlockNode → Limbs → BlockNode
  node_of block parent total = record {
    hash = header_hash blake3 block.header;
    parent_hash = block.header.previous_block_hash;
    height = suc parent.height;
    block_work = block_work (from_compact block.header.difficulty_target);
    cumulative_work = total;
    block = block;
  }

  good-connects :
      (tree : ChainTree) (utxo : UtxoSet) (now : Option ℕ) (block : Block) (utxo' : UtxoSet)
      (g : IsGood tree utxo now block utxo')
      → connect_nodes blake3 verify tree.nodes utxo (node_of block g.parent g.total ∷ []) ≡ ok utxo'
  unfolding connect_nodes connect_node apply_node
  good-connects tree utxo now block utxo' g = ground (
    arith,
    g.authoritative,
    g.verified,
    g.applies,
    g.committed,
    bytes_eq_refl (compute_utxo_root blake3 utxo'),
  )

  ancestor_self : (ns : Nodes) (h : Hash256) → find_common_ancestor ns h h ≡ ok h
  unfolding find_common_ancestor
  ancestor_self ns h = ground (arith, bytes_eq_refl h)

  state_at_tip :
      (tree : ChainTree) (utxo : UtxoSet) → state_at blake3 tree utxo tree.canonical_tip ≡ ok utxo
  unfolding state_at
  state_at_tip tree utxo = ground (arith, bytes_eq_refl tree.canonical_tip)

  -- The branch of a block on the tip is the block, and nothing is disconnected.
  reorganize_on_tip :
      (tree : ChainTree) (utxo : UtxoSet) (candidate parent : BlockNode)
      → candidate.parent_hash ≡ tree.canonical_tip
      → get_node tree tree.canonical_tip ≡ some parent
      → reorganize blake3 verify tree utxo candidate
        ≡ switch_to blake3 verify tree utxo candidate tree.canonical_tip [] (candidate ∷ [])
  unfolding reorganize
  reorganize_on_tip tree utxo candidate parent on_tip known =
      let ns = tree.nodes in
      let tip = tree.canonical_tip in
      let here = until_self ns tip parent known in
      let ancestor : find_common_ancestor ns tip candidate.parent_hash ≡ ok tip =
        subst (λ (h : Hash256). find_common_ancestor ns tip h ≡ ok tip) (sym on_tip)
          (ancestor_self ns tip) in
      let there : trace_until (walk_fuel ns candidate.parent_hash) ns tip candidate.parent_hash
          ≡ [] =
        subst (λ (h : Hash256). trace_until (walk_fuel ns h) ns tip h ≡ []) (sym on_tip) here in
      rw (reorganize, ancestor, reorganize, here)
        (not_deep tree.max_reorg_depth _ _ ∙ rw (here, there) refl)

  abbrev extended : ChainTree → BlockNode → ChainTree
  extended tree candidate = record (add_node tree candidate) { canonical_tip = candidate.hash }

  abbrev one_block : ChainTree → BlockNode → ReorgResult
  one_block tree candidate = record {
    old_tip = tree.canonical_tip;
    new_tip = candidate.hash;
    disconnected_blocks = [];
    connected_blocks = candidate.block ∷ [];
    transactions_for_mempool = [];
  }

  switch_to_child :
      (tree : ChainTree) (utxo utxo' : UtxoSet) (candidate : BlockNode)
      → connect_nodes blake3 verify tree.nodes utxo (candidate ∷ []) ≡ ok utxo'
      → switch_to blake3 verify tree utxo candidate tree.canonical_tip [] (candidate ∷ [])
        ≡ (extended tree candidate, utxo', ok (some (one_block tree candidate)))
  unfolding switch_to mempool_transactions
  switch_to_child tree utxo utxo' candidate connects =
      rw (switch_to, state_at_tip tree utxo, switch_to, connects) refl

  -- A block on the tip that the tree does not know and that passes each check, the verifier, the transition and
  -- the root of the set included, with more work than the tip, is connected: the tip becomes the block, the set
  -- is the one the block leaves, and the result names the block as the one that was connected.
  pub process_block_extends :
      (tree : ChainTree) (utxo utxo' : UtxoSet) (now : Option ℕ) (block : Block)
      → IsGood tree utxo now block utxo'
      → (tree' : ChainTree) × (r : ReorgResult) × (process_block_with_verifier blake3 verify tree
            utxo now block
          ≡ (tree', utxo', ok (some r)))
        × (tree'.canonical_tip ≡ header_hash blake3 block.header)
        × (r.connected_blocks ≡ block ∷ [])
        × (r.disconnected_blocks ≡ [])
  unfolding process_block_with_verifier process_child attach choose_tip
  process_block_extends tree utxo utxo' now block g =
      let candidate = node_of block g.parent g.total in
      let known : get_node tree tree.canonical_tip ≡ some g.parent =
        ap (get_node tree) (sym g.on_tip) ∙ g.parent_known in
      (
        extended tree candidate,
        one_block tree candidate,
        rw
            (
              process_block_with_verifier, g.unmarked, process_block_with_verifier,
              g.parent_unmarked, process_block_with_verifier, g.structured,
              process_block_with_verifier, g.unknown, process_block_with_verifier, g.parent_known,
              process_child, g.checked, process_child, g.authoritative, attach, g.adds_up,
              choose_tip, known, choose_tip, g.more_work,
            )
            (reorganize_on_tip tree utxo candidate g.parent g.on_tip known
              ∙ switch_to_child tree utxo utxo' candidate
                  (good-connects tree utxo now block utxo' g)),
        refl,
        refl,
        refl,
      )

-- ===== src/Consensus/Chain/Switch.antt =====
-- crates/scytale-consensus/src/chain.rs, `process_block_with_verifier`: what it leaves of the tip and of the
-- set, and when it moves them.
use scytale.Base.{
  ℕ, suc, ◌≤◌, ◌≡◌, refl, ap, inl, inr, true, false, Bool-cases, Result-cases, Option-cases, Option,
  none, some, List, [], ◌∷◌, ◌++◌, map, length, ok, err, arith, ltb,
}
use scytale.Base.Bytes.{Bytes, bytes_eq_refl, bytes_eq→≡}
use scytale.Primitives.{Hash256}
use scytale.Core.Types.{Block}
use scytale.Core.Utxo.{UtxoSet}
use scytale.Core.Merkle.{compute_utxo_root}
use scytale.Core.Block.{header_hash, validate_structure}
use scytale.Consensus.Limbs.{limbs_ltb}
use scytale.Consensus.Work.{checked_add, block_work}
use scytale.Consensus.Target.{from_compact}
use scytale.Consensus.Validation.{validate_block_authoritative_with_headers}
use scytale.Consensus.Chain.{
  Nodes, add_node, BlockNode, ChainTree, get_node, is_block_invalid, mark_block_invalid,
  find_common_ancestor, trace_until, walk_fuel, canonical_work,
}
use scytale.Consensus.Chain.Process.{
  Verifier, Outcome, process_block_with_verifier, process_child, attach, choose_tip, reorganize,
  switch_to, connect_node, connect_nodes, state_at, check_candidate, headers_to,
}

-- A call that switches the tip says so in its result, which names the old and the new tip. Any other leaves
-- the tip and the set as they were. The arguments in front are the hash of the block that is processed, the root
-- in its header, and what computes the root of a set.
abbrev pub Switches :
    Hash256 → Hash256 → (UtxoSet → Hash256) → ChainTree → UtxoSet → Outcome → Type 0
Switches hash root root_of tree utxo (tree', utxo', ok (some r)) =
    (r.old_tip ≡ tree.canonical_tip)
    × (r.new_tip ≡ tree'.canonical_tip)
    × (tree'.canonical_tip ≡ hash)
    × (root ≡ root_of utxo')
    × (length r.disconnected_blocks ≤ tree.max_reorg_depth)
    × (limbs_ltb (canonical_work tree) (canonical_work tree') ≡ true)
Switches hash root root_of tree utxo (tree', utxo', ok none) =
    (tree'.canonical_tip ≡ tree.canonical_tip) × (utxo' ≡ utxo)
Switches hash root root_of tree utxo (tree', utxo', err e) =
    (tree'.canonical_tip ≡ tree.canonical_tip) × (utxo' ≡ utxo)

module _ (blake3 : Bytes → Hash256) (verify : Verifier) where
  length-blocks : (ns : List BlockNode) → length (map (λ n. n.block) ns) ≡ length ns
  length-blocks [] = refl
  length-blocks (n ∷ ns) = ap suc (length-blocks ns)

  abbrev pub SwitchesTo : Hash256 → Block → ChainTree → UtxoSet → Outcome → Type 0
  SwitchesTo hash b = Switches hash b.header.utxo_root (compute_utxo_root blake3)

  connect_node-root :
      (ns : Nodes) (s s' : UtxoSet) (n : BlockNode)
      → connect_node blake3 verify ns s n ≡ ok s'
      → n.block.header.utxo_root ≡ compute_utxo_root blake3 s'
  unfolding connect_node
  connect_node-root ns s s' n h =
      ground (arith, bytes_eq→≡ n.block.header.utxo_root (compute_utxo_root blake3 s'))

  -- The last block of a branch that is applied commits to the root of the set that is left.
  connect_nodes-root :
      (ns : Nodes) (s s' : UtxoSet) (xs : List BlockNode) (n : BlockNode)
      → connect_nodes blake3 verify ns s (xs ++ n ∷ []) ≡ ok s'
      → n.block.header.utxo_root ≡ compute_utxo_root blake3 s'
  unfolding connect_nodes
  connect_nodes-root ns s s' [] n h = elim (Result-cases (connect_node blake3 verify ns s n)) [
    | inl (t, e) ↦ connect_node-root ns s s' n (ground arith)
    | inr (f, e) ↦ absurd (ground arith)
  ]
  connect_nodes-root ns s s' (x ∷ xs) n h =
      elim (Result-cases (connect_node blake3 verify ns s x)) [
        | inl (t, e) ↦ connect_nodes-root ns t s' xs n (rw (e, connect_nodes) at h)
        | inr (f, e) ↦ absurd (ground arith)
      ]

  canonical_work_new :
      (tree : ChainTree) (n : BlockNode)
      → canonical_work (record (add_node tree n) { canonical_tip = n.hash }) ≡ n.cumulative_work
  unfolding canonical_work
  canonical_work_new tree n = ground (arith, bytes_eq_refl n.hash)

  module _ (tree : ChainTree) (utxo : UtxoSet) (n : BlockNode) where
    switch_to-Switches :
        (a : Hash256) (disconnected below : List BlockNode)
        → limbs_ltb (canonical_work tree) n.cumulative_work ≡ true
        → ltb tree.max_reorg_depth (length disconnected) ≡ false
        → SwitchesTo n.hash n.block tree utxo
            (switch_to blake3 verify tree utxo n a disconnected (below ++ n ∷ []))
    unfolding switch_to mark_block_invalid
    switch_to-Switches a disconnected below more shallow =
        elim (Result-cases (state_at blake3 tree utxo a)) [
          | inr (e, failed) ↦ rw (failed, switch_to) (refl, refl)
          | inl (s, begun) ↦
              elim (Result-cases (connect_nodes blake3 verify tree.nodes s (below ++ n ∷ []))) [
                | inr (f, failed) ↦ rw (begun, switch_to, failed) (refl, refl)
                | inl (s', done) ↦
                    rw (begun, switch_to, done)
                      (
                        refl,
                        refl,
                        refl,
                        connect_nodes-root tree.nodes s s' below n done,
                        ground (arith, length-blocks disconnected),
                        rw (canonical_work_new tree n) more,
                      )
              ]
        ]

    reorganize-Switches :
        limbs_ltb (canonical_work tree) n.cumulative_work ≡ true
        → SwitchesTo n.hash n.block tree utxo (reorganize blake3 verify tree utxo n)
    unfolding reorganize
    reorganize-Switches more =
        elim (Result-cases (find_common_ancestor tree.nodes tree.canonical_tip n.parent_hash)) [
          | inr (e, failed) ↦ rw (failed, reorganize) (refl, refl)
          | inl (a, found) ↦
              elim (Bool-cases (
                ltb tree.max_reorg_depth (
                  length (
                    trace_until (walk_fuel tree.nodes tree.canonical_tip) tree.nodes a
                      tree.canonical_tip)))) [
                        | inl deep ↦ rw (found, reorganize, deep) (refl, refl)
                        | inr shallow ↦
                            rw (found, reorganize, shallow) (switch_to-Switches a _ _ more shallow)
                      ]
        ]

    choose_tip-Switches : SwitchesTo n.hash n.block tree utxo (choose_tip blake3 verify tree utxo n)
    unfolding choose_tip canonical_work
    choose_tip-Switches = elim (Option-cases (get_node tree tree.canonical_tip)) [
      | inl missing ↦ rw (missing, choose_tip) (refl, refl)
      | inr (active, found) ↦
          elim (Bool-cases (limbs_ltb active.cumulative_work n.cumulative_work)) [
            | inl more ↦
                rw (found, choose_tip, more) (reorganize-Switches (rw (found, canonical_work) more))
            | inr other ↦ rw (found, choose_tip, other) (refl, refl)
          ]
    ]

  attach-Switches :
      (tree : ChainTree) (utxo : UtxoSet) (p : BlockNode) (b : Block)
      → SwitchesTo (header_hash blake3 b.header) b tree utxo (attach blake3 verify tree utxo p b)
  unfolding attach
  attach-Switches tree utxo p b =
      elim (Option-cases
        (checked_add p.cumulative_work (block_work (from_compact b.header.difficulty_target)))) [
          | inl over ↦ rw (over, attach) (refl, refl)
          | inr (total, sum) ↦ rw (sum, attach) (choose_tip-Switches tree utxo _)
        ]

  process_child-Switches :
      (tree : ChainTree) (utxo : UtxoSet) (now : Option ℕ) (p : BlockNode) (b : Block)
      → SwitchesTo
          (header_hash blake3 b.header)
          b
          tree
          utxo
          (process_child blake3 verify tree utxo now p b)
  unfolding process_child mark_block_invalid
  process_child-Switches tree utxo now p b =
      elim (Result-cases (check_candidate blake3 tree utxo now p b)) [
        | inr (e, failed) ↦ rw (failed, process_child) (refl, refl)
        | inl (s, checked) ↦
            elim (Result-cases (
              validate_block_authoritative_with_headers blake3 b (suc p.height) s
                (headers_to tree.nodes b.header.previous_block_hash))) [
                  | inr (e, refused) ↦ rw (checked, process_child, refused) (refl, refl)
                  | inl (fees, valid) ↦
                      rw (checked, process_child, valid) (attach-Switches tree utxo p b)
                ]
      ]

  -- A call that moves the tip says so: it names the old and the new tip, disconnects no more blocks than the
  -- tree allows, the new tip is the block, it has more work, and its header commits to the root of the new UTXO
  -- set. Any other call, with or without an error, leaves the canonical
  -- tip and the UTXO set as they were.
  pub process_block_fails_closed :
      (tree : ChainTree) (utxo : UtxoSet) (now : Option ℕ) (b : Block)
      → SwitchesTo
          (header_hash blake3 b.header)
          b
          tree
          utxo
          (process_block_with_verifier blake3 verify tree utxo now b)
  unfolding process_block_with_verifier mark_block_invalid
  process_block_fails_closed tree utxo now b =
      let hash = header_hash blake3 b.header in
      elim (Bool-cases (is_block_invalid tree hash)) [
        | inl bad ↦ rw (bad, process_block_with_verifier) (refl, refl)
        | inr good ↦ elim (Bool-cases (is_block_invalid tree b.header.previous_block_hash)) [
          | inl orphan ↦ rw (good, process_block_with_verifier, orphan) (refl, refl)
          | inr kept ↦ elim (Result-cases (validate_structure b)) [
            | inr (e, malformed) ↦
                rw (good, process_block_with_verifier, kept, malformed) (refl, refl)
            | inl (u, formed) ↦ elim (Option-cases (get_node tree hash)) [
              | inr (n, known) ↦
                  rw (good, process_block_with_verifier, kept, formed, known) (refl, refl)
              | inl fresh ↦ elim (Option-cases (get_node tree b.header.previous_block_hash)) [
                | inl missing ↦
                    rw (good, process_block_with_verifier, kept, formed, fresh, missing)
                      (refl, refl)
                | inr (p, parent) ↦
                    rw (good, process_block_with_verifier, kept, formed, fresh, parent)
                      (process_child-Switches tree utxo now p b)
              ]
            ]
          ]
        ]
      ]

-- ===== src/Consensus/Chain/Replay.antt =====
-- crates/scytale-consensus/src/chain.rs: the UTXO set is that of the canonical chain, replayed from genesis.
use mathlib.Core.List.{reverse-cons, append_assoc}
use scytale.Base.{
  ℕ, suc, ◌≡◌, refl, ap, subst, ◌∙◌, inl, inr, Bool-cases, Result-cases, Option-cases, Option, none,
  some, List, [], ◌∷◌, ◌++◌, reverse, length, Result, ok, arith, ltb,
}
use scytale.Base.Bytes.{Bytes, bytes_eq, bytes_eq_refl, bytes_eq→≡}
use scytale.Primitives.{Hash256}
use scytale.Core.Types.{Block}
use scytale.Core.Utxo.{UtxoSet, empty, apply_block}
use scytale.Core.Block.{header_hash, validate_structure}
use scytale.Consensus.Limbs.{limbs_ltb}
use scytale.Consensus.Work.{checked_add, block_work}
use scytale.Consensus.Target.{from_compact}
use scytale.Consensus.Validation.{validate_block_authoritative_with_headers}
use scytale.Consensus.Chain.{
  is_block_invalid, new, genesis_node, BlockNode, ReorgResult, ChainError, Nodes, node_at,
  ChainTree, get_node, mark_block_invalid, add_node, walk_fuel, trace_until, get_path_from_genesis,
  find_common_ancestor,
}
use scytale.Consensus.Chain.Paths.{
  IsLinked, Linked, Rooted, find_common_ancestor_total, whole, whole_root, whole_child,
  node_at-fresh, whole-fresh, Ancestor, path-split, find_common_ancestor-Ancestor,
}
use scytale.Consensus.Chain.Process.{
  Verifier, Outcome, check_candidate, headers_to, process_block_with_verifier, process_child,
  attach, choose_tip, reorganize, switch_to, connect_node, connect_nodes, apply_node, replay,
  state_at,
}

-- Parent links go down to one node at height 0, the tip is in the tree, and the set is what the blocks from genesis to
-- the tip make of the empty set.
pub record IsReplay (blake3 : Bytes → Hash256) (tree : ChainTree) (utxo : UtxoSet) : Type 0 where
  pub linked : Linked tree.nodes
  pub root : BlockNode
  pub root_found : node_at root.hash tree.nodes ≡ some root
  pub rooted : Rooted root.hash tree.nodes
  pub tip_node : BlockNode
  pub tip_found : get_node tree tree.canonical_tip ≡ some tip_node
  pub replayed : replay blake3 empty (get_path_from_genesis tree.nodes tree.canonical_tip) ≡ ok utxo

pub add_node-Linked :
    (ns : Nodes) (n p : BlockNode)
    → Linked ns
    → node_at n.hash ns ≡ none
    → node_at n.parent_hash ns ≡ some p
    → n.height ≡ suc p.height
    → Linked ((n.hash, n) ∷ ns)
add_node-Linked ns n p linked fresh parent up h m found = elim (Bool-cases (bytes_eq n.hash h)) [
  | inl same ↦
      let e : n ≡ m = ground arith in
      subst (λ x. IsLinked ((n.hash, n) ∷ ns) x) e
        (inr (p, node_at-fresh ns n.hash n.parent_hash n p fresh parent, up))
  | inr other ↦ elim (linked h m (rw (other, node_at) at found)) [
    | inl root ↦ inl root
    | inr (q, at_q, up_q) ↦ inr (q, node_at-fresh ns n.hash m.parent_hash n q fresh at_q, up_q)
  ]
]

add_node-Rooted :
    (root : Hash256) (ns : Nodes) (n p : BlockNode)
    → Rooted root ns
    → n.height ≡ suc p.height
    → Rooted root ((n.hash, n) ∷ ns)
add_node-Rooted root ns n p rooted up h m found bottom = elim (Bool-cases (bytes_eq n.hash h)) [
  | inl same ↦ let e : n ≡ m = ground arith in absurd (omega (arith, ap (λ x. x.height) e))
  | inr other ↦ rooted h m (rw (other, node_at) at found) bottom
]

-- The path to a new node is that to its parent, and the node.
pub path_new :
    (ns : Nodes) (n p : BlockNode)
    → Linked ns
    → node_at n.hash ns ≡ none
    → node_at n.parent_hash ns ≡ some p
    → n.height ≡ suc p.height
    → get_path_from_genesis ((n.hash, n) ∷ ns) n.hash
      ≡ get_path_from_genesis ns n.parent_hash ++ n ∷ []
unfolding get_path_from_genesis
path_new ns n p linked fresh parent up =
    ap reverse (
      whole_child ((n.hash, n) ∷ ns) n.hash n p (here n)
        (node_at-fresh ns n.hash n.parent_hash n p fresh parent) up
      ∙ ap (λ xs. n ∷ xs) (whole-fresh ns n.hash n.parent_hash n p linked fresh parent))
    ∙ reverse-cons n (whole ns n.parent_hash)
  where
    here : (m : BlockNode) → node_at m.hash ((m.hash, m) ∷ ns) ≡ some m
    here m = ground (arith, bytes_eq_refl m.hash)

module _ (blake3 : Bytes → Hash256) where
  replay-append :
      (s s' : UtxoSet) (xs ys : List BlockNode)
      → replay blake3 s xs ≡ ok s'
      → replay blake3 s (xs ++ ys) ≡ replay blake3 s' ys
  unfolding replay
  replay-append s s' [] ys h = ground arith
  replay-append s s' (x ∷ xs) ys h = elim (Result-cases (apply_node blake3 s x)) [
    | inl (t, e) ↦ rw (e, replay) (replay-append t s' xs ys (rw (e, replay) at h))
    | inr (f, e) ↦ absurd (ground arith)
  ]

  module _ (verify : Verifier) where
    connect_node-apply :
        (ns : Nodes) (s s' : UtxoSet) (n : BlockNode)
        → connect_node blake3 verify ns s n ≡ ok s'
        → apply_node blake3 s n ≡ ok s'
    unfolding connect_node
    connect_node-apply ns s s' n h = ground arith

    connect_nodes-replay :
        (ns : Nodes) (s s' : UtxoSet) (xs : List BlockNode)
        → connect_nodes blake3 verify ns s xs ≡ ok s'
        → replay blake3 s xs ≡ ok s'
    unfolding connect_nodes replay
    connect_nodes-replay ns s s' [] h = ground arith
    connect_nodes-replay ns s s' (x ∷ xs) h =
        elim (Result-cases (connect_node blake3 verify ns s x)) [
          | inl (t, e) ↦
              rw (connect_node-apply ns s t x e, replay)
                (connect_nodes-replay ns t s' xs (rw (e, connect_nodes) at h))
          | inr (f, e) ↦ absurd (ground arith)
        ]

    -- The set that a switch starts from is the replay of the path to the ancestor.
    pub state_at-replay :
        (tree : ChainTree) (utxo s : UtxoSet) (a : Hash256)
        → IsReplay blake3 tree utxo
        → state_at blake3 tree utxo a ≡ ok s
        → replay blake3 empty (get_path_from_genesis tree.nodes a) ≡ ok s
    unfolding state_at
    state_at-replay tree utxo s a inv h = elim (Bool-cases (bytes_eq a tree.canonical_tip)) [
      | inl same ↦
          let e : utxo ≡ s = ground arith in
          rw (bytes_eq→≡ a tree.canonical_tip same, ← e) inv.replayed
      | inr other ↦ rw (other, state_at) at h
    ]

    abbrev Keeps : Outcome → Type 0
    Keeps out = IsReplay blake3 out.0 out.1

    mark-IsReplay :
        (tree : ChainTree) (utxo : UtxoSet) (h : Hash256)
        → IsReplay blake3 tree utxo
        → IsReplay blake3 (mark_block_invalid tree h) utxo
    unfolding mark_block_invalid
    mark-IsReplay tree utxo h inv = record {
      linked = inv.linked;
      root = inv.root;
      root_found = inv.root_found;
      rooted = inv.rooted;
      tip_node = inv.tip_node;
      tip_found = inv.tip_found;
      replayed = inv.replayed;
    }

    module _ (tree : ChainTree) (utxo : UtxoSet) (n p : BlockNode) (inv : IsReplay blake3 tree utxo)
        (fresh : node_at n.hash tree.nodes ≡ none)
        (parent : node_at n.parent_hash tree.nodes ≡ some p) (up : n.height ≡ suc p.height) where
      add-IsReplay : IsReplay blake3 (add_node tree n) utxo
      unfolding get_path_from_genesis
      add-IsReplay = record {
        linked = add_node-Linked tree.nodes n p inv.linked fresh parent up;
        root = inv.root;
        root_found = node_at-fresh tree.nodes n.hash inv.root.hash n inv.root fresh inv.root_found;
        rooted = add_node-Rooted inv.root.hash tree.nodes n p inv.rooted up;
        tip_node = inv.tip_node;
        tip_found =
            node_at-fresh tree.nodes n.hash tree.canonical_tip n inv.tip_node fresh inv.tip_found;
        replayed =
            ap (λ xs. replay blake3 empty (reverse xs))
              (whole-fresh tree.nodes n.hash tree.canonical_tip n inv.tip_node inv.linked fresh
                inv.tip_found)
            ∙ inv.replayed;
      }

      abbrev branch : Hash256 → List BlockNode
      branch a =
          reverse (trace_until (walk_fuel tree.nodes n.parent_hash) tree.nodes a n.parent_hash)
          ++ n ∷ []

      -- The path to the candidate is the path to the ancestor and the branch.
      path_branch :
          (a : Hash256)
          → Ancestor tree.nodes a n.parent_hash
          → get_path_from_genesis ((n.hash, n) ∷ tree.nodes) n.hash
            ≡ get_path_from_genesis tree.nodes a ++ branch a
      path_branch a anc =
          path_new tree.nodes n p inv.linked fresh parent up
          ∙ ap (λ xs. xs ++ n ∷ []) (path-split anc)
          ∙ append_assoc (get_path_from_genesis tree.nodes a) _ _

      switched-IsReplay :
          (a : Hash256) (s s' : UtxoSet)
          → Ancestor tree.nodes a n.parent_hash
          → state_at blake3 tree utxo a ≡ ok s
          → connect_nodes blake3 verify tree.nodes s (branch a) ≡ ok s'
          → IsReplay blake3 (record (add_node tree n) { canonical_tip = n.hash }) s'
      switched-IsReplay a s s' anc start done = record {
        linked = add_node-Linked tree.nodes n p inv.linked fresh parent up;
        root = inv.root;
        root_found = node_at-fresh tree.nodes n.hash inv.root.hash n inv.root fresh inv.root_found;
        rooted = add_node-Rooted inv.root.hash tree.nodes n p inv.rooted up;
        tip_node = n;
        tip_found = ground (arith, bytes_eq_refl n.hash);
        replayed =
            ap (replay blake3 empty) (path_branch a anc)
            ∙ replay-append empty s _ (branch a) (state_at-replay tree utxo s a inv start)
            ∙ connect_nodes-replay tree.nodes s s' (branch a) done;
      }

      switch_to-IsReplay :
          (a : Hash256) (disconnected : List BlockNode)
          → Ancestor tree.nodes a n.parent_hash
          → Keeps (switch_to blake3 verify tree utxo n a disconnected (branch a))
      unfolding switch_to
      switch_to-IsReplay a disconnected anc = elim (Result-cases (state_at blake3 tree utxo a)) [
        | inr (e, failed) ↦ rw (failed, switch_to) inv
        | inl (s, start) ↦
            elim (Result-cases (connect_nodes blake3 verify tree.nodes s (branch a))) [
              | inr (f, failed) ↦
                  rw (start, switch_to, failed)
                    (mark-IsReplay _ utxo n.hash (mark-IsReplay tree utxo f.0 inv))
              | inl (s', done) ↦
                  rw (start, switch_to, done) (switched-IsReplay a s s' anc start done)
            ]
      ]

      reorganize-IsReplay : Keeps (reorganize blake3 verify tree utxo n)
      unfolding reorganize
      reorganize-IsReplay =
          elim (Result-cases (find_common_ancestor tree.nodes tree.canonical_tip n.parent_hash)) [
            | inr (e, failed) ↦ rw (failed, reorganize) inv
            | inl (a, found) ↦
                let (_, anc) =
                  find_common_ancestor-Ancestor tree.nodes tree.canonical_tip n.parent_hash a
                    inv.tip_node p inv.linked inv.tip_found parent found in
                elim (Bool-cases (
                  ltb tree.max_reorg_depth (
                    length (
                      trace_until (walk_fuel tree.nodes tree.canonical_tip) tree.nodes a
                        tree.canonical_tip)))) [
                          | inl deep ↦ rw (found, reorganize, deep) add-IsReplay
                          | inr shallow ↦
                              rw (found, reorganize, shallow) (switch_to-IsReplay a _ anc)
                        ]
          ]

      choose_tip-IsReplay : Keeps (choose_tip blake3 verify tree utxo n)
      unfolding choose_tip
      choose_tip-IsReplay =
          elim (Bool-cases (limbs_ltb inv.tip_node.cumulative_work n.cumulative_work)) [
            | inl more ↦ rw (inv.tip_found, choose_tip, more) reorganize-IsReplay
            | inr other ↦ rw (inv.tip_found, choose_tip, other) add-IsReplay
          ]

    attach-IsReplay :
        (tree : ChainTree) (utxo : UtxoSet) (p : BlockNode) (b : Block)
        → IsReplay blake3 tree utxo
        → get_node tree (header_hash blake3 b.header) ≡ none
        → get_node tree b.header.previous_block_hash ≡ some p
        → Keeps (attach blake3 verify tree utxo p b)
    unfolding attach
    attach-IsReplay tree utxo p b inv fresh parent =
        elim (Option-cases
          (checked_add p.cumulative_work (block_work (from_compact b.header.difficulty_target)))) [
            | inl over ↦ rw (over, attach) inv
            | inr (total, sum) ↦
                rw (sum, attach) (choose_tip-IsReplay tree utxo _ p inv fresh parent refl)
          ]

    process_child-IsReplay :
        (tree : ChainTree) (utxo : UtxoSet) (now : Option ℕ) (p : BlockNode) (b : Block)
        → IsReplay blake3 tree utxo
        → get_node tree (header_hash blake3 b.header) ≡ none
        → get_node tree b.header.previous_block_hash ≡ some p
        → Keeps (process_child blake3 verify tree utxo now p b)
    unfolding process_child
    process_child-IsReplay tree utxo now p b inv fresh parent =
        elim (Result-cases (check_candidate blake3 tree utxo now p b)) [
          | inr (e, failed) ↦ rw (failed, process_child) inv
          | inl (s, checked) ↦
              elim (Result-cases (
                validate_block_authoritative_with_headers blake3 b (suc p.height) s
                  (headers_to tree.nodes b.header.previous_block_hash))) [
                    | inr (e, refused) ↦
                        rw (checked, process_child, refused) (mark-IsReplay tree utxo _ inv)
                    | inl (fees, valid) ↦
                        rw (checked, process_child, valid)
                          (attach-IsReplay tree utxo p b inv fresh parent)
                  ]
        ]

    -- Where the set is the replay of the canonical chain from genesis, it still is after a block is processed:
    -- extended, reorganised, stored aside or refused, with any verifier.
    pub process_block-IsReplay :
        (tree : ChainTree) (utxo : UtxoSet) (now : Option ℕ) (b : Block)
        → IsReplay blake3 tree utxo
        → IsReplay blake3
            (process_block_with_verifier blake3 verify tree utxo now b).0
            (process_block_with_verifier blake3 verify tree utxo now b).1
    unfolding process_block_with_verifier
    process_block-IsReplay tree utxo now b inv =
        let hash = header_hash blake3 b.header in
        elim (Bool-cases (is_block_invalid tree hash)) [
          | inl bad ↦ rw (bad, process_block_with_verifier) inv
          | inr good ↦ elim (Bool-cases (is_block_invalid tree b.header.previous_block_hash)) [
            | inl orphan ↦
                rw (good, process_block_with_verifier, orphan) (mark-IsReplay tree utxo hash inv)
            | inr kept ↦ elim (Result-cases (validate_structure b)) [
              | inr (e, malformed) ↦ rw (good, process_block_with_verifier, kept, malformed) inv
              | inl (u, formed) ↦ elim (Option-cases (get_node tree hash)) [
                | inr (n, known) ↦ rw (good, process_block_with_verifier, kept, formed, known) inv
                | inl fresh ↦ elim (Option-cases (get_node tree b.header.previous_block_hash)) [
                  | inl missing ↦
                      rw (good, process_block_with_verifier, kept, formed, fresh, missing) inv
                  | inr (p, parent) ↦
                      rw (good, process_block_with_verifier, kept, formed, fresh, parent)
                        (process_child-IsReplay tree utxo now p b inv fresh parent)
                ]
              ]
            ]
          ]
        ]

    -- The states of a chain: genesis applied to the empty set, and what blocks are processed from there.
    pub data Reached (genesis : Block) : ChainTree → UtxoSet → Type 0 where
      start :
          (s : UtxoSet) (fees : ℕ)
          → apply_block blake3 empty genesis.transactions 0 ≡ (s, ok fees)
          → Reached genesis (new blake3 genesis) s
      process :
          (t t' : ChainTree) (s s' : UtxoSet) (now : Option ℕ) (b : Block)
          (r : Result ChainError (Option ReorgResult))
          → Reached genesis t s
          → process_block_with_verifier blake3 verify t s now b ≡ (t', s', r)
          → Reached genesis t' s'

    pub genesis_found :
        (genesis : Block) (h : Hash256) (n : BlockNode)
        → node_at h (new blake3 genesis).nodes ≡ some n
        → n ≡ genesis_node blake3 genesis
    unfolding new
    genesis_found genesis h n found = ground arith

    pub genesis_key :
        (genesis : Block) (h : Hash256) (n : BlockNode)
        → node_at h (new blake3 genesis).nodes ≡ some n
        → h ≡ header_hash blake3 genesis.header
    unfolding new
    genesis_key genesis h n found = ground (arith, bytes_eq→≡ (header_hash blake3 genesis.header) h)

    pub genesis_path :
        (genesis : Block)
        → get_path_from_genesis (new blake3 genesis).nodes (header_hash blake3 genesis.header)
          ≡ genesis_node blake3 genesis ∷ []
    unfolding new get_path_from_genesis
    genesis_path genesis =
        let root = genesis_node blake3 genesis in
        ap reverse (
          whole_root ((root.hash, root) ∷ []) root.hash root
            (ground (arith, bytes_eq_refl root.hash)) refl)

    new-IsReplay :
        (genesis : Block) (s : UtxoSet) (fees : ℕ)
        → apply_block blake3 empty genesis.transactions 0 ≡ (s, ok fees)
        → IsReplay blake3 (new blake3 genesis) s
    unfolding new replay apply_node
    new-IsReplay genesis s fees done =
        let root = genesis_node blake3 genesis in
        let once : replay blake3 empty (root ∷ []) ≡ ok s = ground arith in
        record {
          linked = λ h n at_h. inl (ap (λ m. m.height) (genesis_found genesis h n at_h));
          root = root;
          root_found = ground (arith, bytes_eq_refl root.hash);
          rooted = λ h n at_h _. genesis_key genesis h n at_h;
          tip_node = root;
          tip_found = ground (arith, bytes_eq_refl root.hash);
          replayed = ap (replay blake3 empty) (genesis_path genesis) ∙ once;
        }

    pub Reached-IsReplay :
        (genesis : Block) (t : ChainTree) (s : UtxoSet) → Reached genesis t s → IsReplay blake3 t s
    Reached-IsReplay genesis t s (start u fees done) = new-IsReplay genesis u fees done
    Reached-IsReplay genesis t s (process u u' v v' now b r before step) =
        subst (λ out. IsReplay blake3 out.0 out.1) step
          (process_block-IsReplay u v now b (Reached-IsReplay genesis u v before))

    -- Whatever blocks are processed, extended, reorganised, stored aside or refused, and whatever the verifier
    -- says of them, the UTXO set is the replay of the path from genesis to the canonical tip.
    pub Reached-replay :
        (genesis : Block) (t : ChainTree) (s : UtxoSet)
        → Reached genesis t s
        → replay blake3 empty (get_path_from_genesis t.nodes t.canonical_tip) ≡ ok s
    Reached-replay genesis t s reached = (Reached-IsReplay genesis t s reached).replayed

    -- In a tree that was reached, two blocks of the tree have a common ancestor, and it is found: the walks of
    -- `find_common_ancestor` end, and what they return is on the way from both blocks to genesis.
    pub Reached-find_common_ancestor :
        (genesis : Block) (t : ChainTree) (s : UtxoSet) (x y : Hash256) (n m : BlockNode)
        → Reached genesis t s
        → get_node t x ≡ some n
        → get_node t y ≡ some m
        → (a : Hash256) × (find_common_ancestor t.nodes x y ≡ ok a)
          × Ancestor t.nodes a x
          × Ancestor t.nodes a y
    Reached-find_common_ancestor genesis t s x y n m reached at_x at_y =
        let inv = Reached-IsReplay genesis t s reached in
        let (a, found) =
          find_common_ancestor_total inv.root.hash t.nodes x y n m inv.root inv.linked inv.rooted
            inv.root_found at_x at_y in
        let (to_x, to_y) =
          find_common_ancestor-Ancestor t.nodes x y a n m inv.linked at_x at_y found in
        (a, found, to_x, to_y)

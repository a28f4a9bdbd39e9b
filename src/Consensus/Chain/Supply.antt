-- ===== src/Consensus/Chain/Supply.antt =====
-- crates/scytale-consensus/src/chain.rs: every block of the tree was validated on the set at its parent, so the
-- set of any branch keeps to the supply.
use scytale.Base.{
  ℕ, suc, ◌≤◌, ◌≡◌, refl, sym, ap, subst, ◌∙◌, ◌⊎◌, inl, inr, Bool-cases, Result-cases,
  Option-cases, Option, none, some, List, [], ◌∷◌, ◌++◌, ltb, length, Result, ok, err, ok-injective,
  and_then, arith,
}
use scytale.Base.Bytes.{Bytes, bytes_eq, bytes_eq→≡}
use scytale.Primitives.{Hash256}
use scytale.Core.Types.{Block, BlockHeader, Transaction, UtxoError}
use scytale.Core.Utxo.{UtxoSet, empty, apply_block, apply_coinbase, apply_rest, commit}
use scytale.Core.Utxo.Map.{value_of}
use scytale.Core.Genesis.{build_genesis_coinbase}
use scytale.Core.Transaction.{is_coinbase}
use scytale.Core.Block.{header_hash, validate_structure}
use scytale.Consensus.Limbs.{limbs_ltb}
use scytale.Consensus.Work.{checked_add, block_work}
use scytale.Consensus.Target.{from_compact}
use scytale.Consensus.Emission.{max_supply}
use scytale.Consensus.Validation.{validate_block_authoritative_with_headers}
use scytale.Consensus.Validation.Supply.{Connected, connect, genesis, Connected-supply}
use scytale.Consensus.Chain.{
  is_block_invalid, new, genesis_node, BlockNode, Nodes, node_at, ChainTree, get_node,
  mark_block_invalid, walk_fuel, trace_until, get_path_from_genesis, find_common_ancestor,
}
use scytale.Consensus.Chain.Paths.{path-fresh}
use scytale.Consensus.Chain.Process.{
  Verifier, Outcome, check_candidate, headers_to, process_block_with_verifier, process_child,
  attach, choose_tip, reorganize, switch_to, connect_nodes, applied, apply_node, replay, state_at,
}
use scytale.Consensus.Chain.Replay.{
  IsReplay, Reached, start, process, genesis_found, genesis_key, genesis_path, path_new,
  state_at-replay, Reached-IsReplay,
}

module _ (blake3 : Bytes → Hash256) where
  -- The set at each block of the tree, replayed, is that of a chain of validated blocks of its height.
  abbrev AllConnected : Nodes → Type 0
  AllConnected ns =
      (h : Hash256) (n : BlockNode) (s : UtxoSet)
      → node_at h ns ≡ some n
      → replay blake3 empty (get_path_from_genesis ns h) ≡ ok s
      → Connected blake3 n.height s

  replay_last :
      (s t : UtxoSet) (xs : List BlockNode) (n : BlockNode)
      → replay blake3 s (xs ++ n ∷ []) ≡ ok t
      → (u : UtxoSet) × (replay blake3 s xs ≡ ok u) × (apply_node blake3 u n ≡ ok t)
  unfolding replay
  replay_last s t [] n h = (s, ground arith, ground arith)
  replay_last s t (x ∷ xs) n h = elim (Result-cases (apply_node blake3 s x)) [
    | inl (u, e) ↦
        let (v, before, last) = replay_last u t xs n (rw (e, replay) at h) in
        (v, rw (e, replay) before, last)
    | inr (f, e) ↦ absurd (ground arith)
  ]

  replay_one :
      (s t : UtxoSet) (n : BlockNode)
      → replay blake3 s (n ∷ []) ≡ ok t
      → apply_node blake3 s n ≡ ok t
  unfolding replay
  replay_one s t n h = ground arith

  applied-eq-ok :
      (hash : Hash256) (out : UtxoSet × Result UtxoError ℕ) (t : UtxoSet)
      → applied hash out ≡ ok t
      → (fees : ℕ) × (out ≡ (t, ok fees))
  applied-eq-ok hash (s, ok fees) t h = (fees, ground arith)
  applied-eq-ok hash (s, err e) t h = absurd (ground arith)

  apply_node-apply_block :
      (s t : UtxoSet) (n : BlockNode)
      → apply_node blake3 s n ≡ ok t
      → (fees : ℕ) × (apply_block blake3 s n.block.transactions n.height ≡ (t, ok fees))
  unfolding apply_node
  apply_node-apply_block s t n h =
      applied-eq-ok n.hash (apply_block blake3 s n.block.transactions n.height) t h

  commit_rest :
      (s t : UtxoSet) (height fees : ℕ) (out : UtxoSet × Result UtxoError (Unit {0}))
      → commit s (and_then out (λ staging _. apply_rest blake3 staging height 0 [])) ≡ (t, ok fees)
      → out ≡ (t, ok tt)
  unfolding commit apply_rest
  commit_rest s t height fees (u, ok _) h = ground arith
  commit_rest s t height fees (u, err e) h = absurd (ground arith)

  apply_block-coinbase :
      (s t : UtxoSet) (coinbase : Transaction) (height fees : ℕ)
      → apply_block blake3 s (coinbase ∷ []) height ≡ (t, ok fees)
      → apply_coinbase blake3 s coinbase height ≡ (t, ok tt)
  unfolding apply_block
  apply_block-coinbase s t coinbase height fees h = elim (Bool-cases (is_coinbase coinbase)) [
    | inl first ↦
        commit_rest s t height fees (apply_coinbase blake3 s coinbase height)
          (rw (first, apply_block) at h)
    | inr other ↦ absurd (ground arith)
  ]

  module _ (verify : Verifier) where
    -- The node of a block that passed the checks, with the set that it was checked on.
    record IsChecked (tree : ChainTree) (utxo : UtxoSet) (n : BlockNode) : Type 0 where
      parent : BlockNode
      parent_found : node_at n.parent_hash tree.nodes ≡ some parent
      up : n.height ≡ suc parent.height
      fresh : node_at n.hash tree.nodes ≡ none
      parent_utxo : UtxoSet
      begun : state_at blake3 tree utxo n.parent_hash ≡ ok parent_utxo
      fees : ℕ
      valid :
          validate_block_authoritative_with_headers blake3 n.block n.height parent_utxo
            (headers_to tree.nodes n.parent_hash)
          ≡ ok fees

    connect_at :
        (k height fees applied_fees : ℕ) (u s : UtxoSet) (n : BlockNode)
        (headers : List BlockHeader)
        → height ≡ suc k
        → Connected blake3 k u
        → validate_block_authoritative_with_headers blake3 n.block height u headers ≡ ok fees
        → apply_block blake3 u n.block.transactions height ≡ (s, ok applied_fees)
        → Connected blake3 height s
    connect_at k height fees applied_fees u s n headers up below =
        subst
          (λ h.
            validate_block_authoritative_with_headers blake3 n.block h u headers ≡ ok fees
            → apply_block blake3 u n.block.transactions h ≡ (s, ok applied_fees)
            → Connected blake3 h s)
          (sym up) (connect k u s n.block headers fees applied_fees below)

    module _ (tree : ChainTree) (utxo : UtxoSet) (n : BlockNode) (inv : IsReplay blake3 tree utxo)
        (all : AllConnected tree.nodes) where
      new-Connected :
          (s : UtxoSet)
          → IsChecked tree utxo n
          → replay blake3 empty (get_path_from_genesis ((n.hash, n) ∷ tree.nodes) n.hash) ≡ ok s
          → Connected blake3 n.height s
      new-Connected s c done =
          let path = path_new tree.nodes n c.parent inv.linked c.fresh c.parent_found c.up in
          let (u, before, last) =
            replay_last empty s (get_path_from_genesis tree.nodes n.parent_hash) n
              (sym (ap (replay blake3 empty) path) ∙ done) in
          let start =
            state_at-replay blake3 verify tree utxo c.parent_utxo n.parent_hash inv c.begun in
          let (fees, block_done) = apply_node-apply_block u s n last in
          connect_at c.parent.height n.height c.fees fees u s n
            (headers_to tree.nodes n.parent_hash) c.up
            (all n.parent_hash c.parent u c.parent_found before)
            (subst
              (λ v.
                validate_block_authoritative_with_headers blake3 n.block n.height v
                  (headers_to tree.nodes n.parent_hash)
                ≡ ok c.fees)
              (ok-injective (sym start ∙ before)) c.valid)
            block_done

      checked-AllConnected : IsChecked tree utxo n → AllConnected ((n.hash, n) ∷ tree.nodes)
      checked-AllConnected c h m s found done = elim (Bool-cases (bytes_eq n.hash h)) [
        | inr other ↦
            let at_h : node_at h tree.nodes ≡ some m = rw (other, node_at) at found in
            all h m s at_h (
              sym (
                ap (λ xs. replay blake3 empty xs)
                  (path-fresh tree.nodes n.hash h n m inv.linked c.fresh at_h))
              ∙ done)
        | inl same ↦
            let e : n ≡ m = ground arith in
            let key : h ≡ n.hash = sym (bytes_eq→≡ n.hash h same) in
            subst (λ x. Connected blake3 x.height s) e
              (new-Connected s c (
                subst
                  (λ x.
                    replay blake3 empty (get_path_from_genesis ((n.hash, n) ∷ tree.nodes) x) ≡ ok s)
                  key done))
      ]

      -- The nodes that a call leaves: those that were there, or the candidate as well.
      abbrev Grows : Outcome → Type 0
      Grows out = (out.0.nodes ≡ tree.nodes) ⊎ (out.0.nodes ≡ (n.hash, n) ∷ tree.nodes)

      switch_to-Grows :
          (a : Hash256) (disconnected connected : List BlockNode)
          → Grows (switch_to blake3 verify tree utxo n a disconnected connected)
      unfolding switch_to mark_block_invalid
      switch_to-Grows a disconnected connected = elim (Result-cases (state_at blake3 tree utxo a)) [
        | inr (e, failed) ↦ rw (failed, switch_to) (inl refl)
        | inl (s, begun) ↦
            elim (Result-cases (connect_nodes blake3 verify tree.nodes s connected)) [
              | inr (f, failed) ↦ rw (begun, switch_to, failed) (inl refl)
              | inl (s', done) ↦ rw (begun, switch_to, done) (inr refl)
            ]
      ]

      reorganize-Grows : Grows (reorganize blake3 verify tree utxo n)
      unfolding reorganize
      reorganize-Grows =
          elim (Result-cases (find_common_ancestor tree.nodes tree.canonical_tip n.parent_hash)) [
            | inr (e, failed) ↦ rw (failed, reorganize) (inl refl)
            | inl (a, found) ↦
                elim (Bool-cases (
                  ltb tree.max_reorg_depth (
                    length (
                      trace_until (walk_fuel tree.nodes tree.canonical_tip) tree.nodes a
                        tree.canonical_tip)))) [
                          | inl deep ↦ rw (found, reorganize, deep) (inr refl)
                          | inr shallow ↦ rw (found, reorganize, shallow) (switch_to-Grows a _ _)
                        ]
          ]

      choose_tip-Grows : Grows (choose_tip blake3 verify tree utxo n)
      unfolding choose_tip
      choose_tip-Grows = elim (Option-cases (get_node tree tree.canonical_tip)) [
        | inl missing ↦ rw (missing, choose_tip) (inl refl)
        | inr (active, found) ↦
            elim (Bool-cases (limbs_ltb active.cumulative_work n.cumulative_work)) [
              | inl more ↦ rw (found, choose_tip, more) reorganize-Grows
              | inr other ↦ rw (found, choose_tip, other) (inr refl)
            ]
      ]

      choose_tip-AllConnected :
          IsChecked tree utxo n → AllConnected (choose_tip blake3 verify tree utxo n).0.nodes
      choose_tip-AllConnected c = elim choose_tip-Grows [
        | inl same ↦ subst AllConnected (sym same) all
        | inr grown ↦ subst AllConnected (sym grown) (checked-AllConnected c)
      ]

    check_candidate-state_at :
        (tree : ChainTree) (utxo s : UtxoSet) (now : Option ℕ) (p : BlockNode) (b : Block)
        → check_candidate blake3 tree utxo now p b ≡ ok s
        → state_at blake3 tree utxo b.header.previous_block_hash ≡ ok s
    unfolding check_candidate
    check_candidate-state_at tree utxo s now p b h = ground arith

    module _ (tree : ChainTree) (utxo : UtxoSet) (b : Block) (inv : IsReplay blake3 tree utxo)
        (all : AllConnected tree.nodes) (fresh : get_node tree (header_hash blake3 b.header) ≡ none)
        (p : BlockNode) (parent : get_node tree b.header.previous_block_hash ≡ some p) where
      attach-AllConnected :
          (s : UtxoSet) (fees : ℕ)
          → state_at blake3 tree utxo b.header.previous_block_hash ≡ ok s
          → validate_block_authoritative_with_headers blake3 b
              (suc p.height)
              s
              (headers_to tree.nodes b.header.previous_block_hash)
            ≡ ok fees
          → AllConnected (attach blake3 verify tree utxo p b).0.nodes
      unfolding attach
      attach-AllConnected s fees begun valid =
          elim (Option-cases (
            checked_add p.cumulative_work (block_work (from_compact b.header.difficulty_target)))) [
              | inl over ↦ rw (over, attach) all
              | inr (total, sum) ↦
                  rw (sum, attach)
                    (choose_tip-AllConnected tree utxo _ inv all (record {
                      parent = p;
                      parent_found = parent;
                      up = refl;
                      fresh = fresh;
                      parent_utxo = s;
                      begun = begun;
                      fees = fees;
                      valid = valid;
                    }))
            ]

      process_child-AllConnected :
          (now : Option ℕ) → AllConnected (process_child blake3 verify tree utxo now p b).0.nodes
      unfolding process_child mark_block_invalid
      process_child-AllConnected now =
          elim (Result-cases (check_candidate blake3 tree utxo now p b)) [
            | inr (e, failed) ↦ rw (failed, process_child) all
            | inl (s, checked) ↦
                elim (Result-cases (
                  validate_block_authoritative_with_headers blake3 b (suc p.height) s
                    (headers_to tree.nodes b.header.previous_block_hash))) [
                      | inr (e, refused) ↦ rw (checked, process_child, refused) all
                      | inl (fees, valid) ↦
                          rw (checked, process_child, valid)
                            (attach-AllConnected s fees
                              (check_candidate-state_at tree utxo s now p b checked) valid)
                    ]
          ]

    process_block-AllConnected :
        (tree : ChainTree) (utxo : UtxoSet) (now : Option ℕ) (b : Block)
        → IsReplay blake3 tree utxo
        → AllConnected tree.nodes
        → AllConnected (process_block_with_verifier blake3 verify tree utxo now b).0.nodes
    unfolding process_block_with_verifier mark_block_invalid
    process_block-AllConnected tree utxo now b inv all =
        let hash = header_hash blake3 b.header in
        elim (Bool-cases (is_block_invalid tree hash)) [
          | inl bad ↦ rw (bad, process_block_with_verifier) all
          | inr good ↦ elim (Bool-cases (is_block_invalid tree b.header.previous_block_hash)) [
            | inl orphan ↦ rw (good, process_block_with_verifier, orphan) all
            | inr kept ↦ elim (Result-cases (validate_structure b)) [
              | inr (e, malformed) ↦ rw (good, process_block_with_verifier, kept, malformed) all
              | inl (u, formed) ↦ elim (Option-cases (get_node tree hash)) [
                | inr (n, known) ↦ rw (good, process_block_with_verifier, kept, formed, known) all
                | inl fresh ↦ elim (Option-cases (get_node tree b.header.previous_block_hash)) [
                  | inl missing ↦
                      rw (good, process_block_with_verifier, kept, formed, fresh, missing) all
                  | inr (p, parent) ↦
                      rw (good, process_block_with_verifier, kept, formed, fresh, parent)
                        (process_child-AllConnected tree utxo b inv all fresh p parent now)
                ]
              ]
            ]
          ]
        ]

    genesis-Connected :
        (first : Block) (s : UtxoSet)
        → first.transactions ≡ build_genesis_coinbase ∷ []
        → replay blake3 empty (genesis_node blake3 first ∷ []) ≡ ok s
        → Connected blake3 0 s
    genesis-Connected first s only done =
        let (fees, applied_once) =
          apply_node-apply_block empty s (genesis_node blake3 first)
            (replay_one empty s (genesis_node blake3 first) done) in
        genesis s (
          apply_block-coinbase empty s build_genesis_coinbase 0 fees
            (subst (λ txs. apply_block blake3 empty txs 0 ≡ (s, ok fees)) only applied_once))

    new-AllConnected :
        (first : Block)
        → first.transactions ≡ build_genesis_coinbase ∷ []
        → AllConnected (new blake3 first).nodes
    new-AllConnected first only h n s found done =
        let root = genesis_found blake3 verify first h n found in
        let key = genesis_key blake3 verify first h n found in
        subst (λ m. Connected blake3 m.height s) (sym root)
          (genesis-Connected first s only (
            sym (ap (replay blake3 empty) (genesis_path blake3 verify first))
            ∙ subst
                (λ x. replay blake3 empty (get_path_from_genesis (new blake3 first).nodes x) ≡ ok s)
                key done))

    Reached-AllConnected :
        (first : Block) (t : ChainTree) (s : UtxoSet)
        → first.transactions ≡ build_genesis_coinbase ∷ []
        → Reached blake3 verify first t s
        → AllConnected t.nodes
    Reached-AllConnected first t s only (start u fees done) = new-AllConnected first only
    Reached-AllConnected first t s only (process u u' v v' now b r before step) =
        subst (λ out. AllConnected out.0.nodes) step
          (process_block-AllConnected u v now b (Reached-IsReplay blake3 verify first u v before)
            (Reached-AllConnected first u v only before))

    -- Whatever blocks are processed from the genesis block on, in whatever order and on whatever branches, the
    -- unspent outputs of the UTXO set together never exceed the maximum supply.
    pub Reached-supply :
        (first : Block) (t : ChainTree) (s : UtxoSet)
        → first.transactions ≡ build_genesis_coinbase ∷ []
        → Reached blake3 verify first t s
        → value_of s.entries ≤ max_supply
    Reached-supply first t s only reached =
        let inv = Reached-IsReplay blake3 verify first t s reached in
        Connected-supply blake3 inv.tip_node.height s (
          Reached-AllConnected first t s only reached t.canonical_tip inv.tip_node s inv.tip_found
            inv.replayed)

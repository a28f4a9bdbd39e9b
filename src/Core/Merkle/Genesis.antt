-- ===== src/Core/Merkle/Genesis.antt =====
-- crates/scytale-core/src/genesis.rs, the genesis block: its UTXO root is that of the set it leads to.
use scytale.Base.{
  ℕ, suc, ◌%◌, ◌^◌, ◌≡◌, sym, ap, ◌∙◌, true, false, List, [], ◌∷◌, ok, and_then, if◌then◌else◌,
  arith,
}
use scytale.Base.Bytes.{Bytes, bytes_eq_refl}
use scytale.Primitives.{Hash256, zero_hash, OutPoint, outpoint_eq, TxOut}
use scytale.Core.Types.{Transaction, Block, UtxoEntry}
use scytale.Core.Transaction.{txid, total_output_quanta}
use scytale.Core.Genesis.{
  genesis_founder_quanta, genesis_developer_quanta, founder_locking_script,
  developer_locking_script, build_genesis_coinbase, new_coinbase,
}
use scytale.Core.Utxo.{
  empty, apply_coinbase, insert_outputs, insert, check_coinbase, check_coinbase_outputs,
}
use scytale.Core.Merkle.{
  compute_utxo_leaf, compute_utxo_merkle_root, compute_utxo_root, leaves_of, sort_entries,
  comes_before,
}

module _ (blake3 : Bytes → Hash256) where
  leaves_from : Hash256 → ℕ → List TxOut → List Hash256
  leaves_from id index [] = []
  leaves_from id index (o ∷ os) =
      compute_utxo_leaf blake3 record { txid = id; index = index % 2 ^ 32 } o
      ∷ leaves_from id (suc index) os

  pub compute_genesis_utxo_root : Transaction → Hash256
  unfolding leaves_from
  compute_genesis_utxo_root coinbase =
      compute_utxo_merkle_root blake3 (leaves_from (txid blake3 coinbase) 0 coinbase.outputs)

  pub build_genesis_block : ℕ → Block
  build_genesis_block difficulty_target = record {
    header = record {
      version = 1;
      previous_block_hash = zero_hash;
      transaction_commitment = blake3 (txid blake3 build_genesis_coinbase);
      utxo_root = compute_genesis_utxo_root build_genesis_coinbase;
      timestamp = 0;
      difficulty_target = difficulty_target;
      nonce = 0;
    };
    transactions = build_genesis_coinbase ∷ [];
  }

  same_id :
      (t : Hash256)
      → outpoint_eq record { txid = t; index = 0 } record { txid = t; index = 1 } ≡ false
  unfolding outpoint_eq
  same_id t = ground (arith, bytes_eq_refl t)

  in_order :
      (t : Hash256)
      → comes_before record { txid = t; index = 0 } record { txid = t; index = 1 } ≡ true
  in_order t = ground (arith, bytes_eq_refl t)

  abbrev id_at : Hash256 → ℕ → OutPoint
  id_at t i = record { txid = t; index = i }

  abbrev entry_of : ℕ → Bytes → UtxoEntry
  entry_of v c = record {
    output = record { value = v; locking_condition = c };
    block_height = 0;
    is_coinbase = true;
  }

  -- The second output goes in front of the first.
  insert_second :
      (t : Hash256) (e f : UtxoEntry)
      → insert (id_at t 1) f record { entries = (id_at t 0, e) ∷ [] }
        ≡ (record { entries = (id_at t 1, f) ∷ (id_at t 0, e) ∷ [] }, ok tt)
  unfolding insert
  insert_second t e f = ground (arith, same_id t)

  sort_two :
      (t : Hash256) (e f : UtxoEntry)
      → sort_entries ((id_at t 1, f) ∷ (id_at t 0, e) ∷ []) ≡ (id_at t 0, e) ∷ (id_at t 1, f) ∷ []
  sort_two t e f =
      ap
        (λ b.
          if b then (id_at t 0, e) ∷ (id_at t 1, f) ∷ [] else (id_at t 1, f) ∷ (id_at t 0, e) ∷ [])
        (in_order t)

  abbrev founder : UtxoEntry
  founder = entry_of genesis_founder_quanta founder_locking_script

  abbrev developer : UtxoEntry
  developer = entry_of genesis_developer_quanta developer_locking_script

  genesis_set : (apply_coinbase blake3 empty build_genesis_coinbase 0).0 ≡ record {
    entries =
        (id_at (txid blake3 build_genesis_coinbase) 1, developer)
        ∷ (id_at (txid blake3 build_genesis_coinbase) 0, founder)
        ∷ [];
  }
  unfolding apply_coinbase insert_outputs insert check_coinbase check_coinbase_outputs
      build_genesis_coinbase new_coinbase total_output_quanta
  genesis_set =
      ap (λ r. (and_then {B = Unit {0}} r (λ s' _. (s', ok tt))).0)
        (insert_second (txid blake3 build_genesis_coinbase) founder developer)

  -- The root that the genesis header commits to is the root of the set after the genesis coinbase.
  pub build_genesis_block_root :
      (difficulty_target : ℕ)
      → (build_genesis_block difficulty_target).header.utxo_root
        ≡ compute_utxo_root blake3 (apply_coinbase blake3 empty build_genesis_coinbase 0).0
  unfolding build_genesis_block compute_genesis_utxo_root leaves_from compute_utxo_root leaves_of
      build_genesis_coinbase new_coinbase
  build_genesis_block_root d = sym (
      ap (compute_utxo_root blake3) genesis_set
      ∙ ap (λ es. compute_utxo_merkle_root blake3 (leaves_of blake3 es))
          (sort_two (txid blake3 build_genesis_coinbase) founder developer))

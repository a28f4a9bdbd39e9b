-- ===== src/Core/Merkle.antt =====
-- crates/scytale-core/src/utxo.rs, the Merkle tree over the UTXO set. The loops that halve the leaves run on
-- the number of leaves as fuel, which no list of leaves outlasts.
pub mod Levels
pub mod Inclusion
pub mod Binding
pub mod Genesis
use scytale.Base.{
  ℕ, zero, suc, ◌+◌, ◌-◌, ◌/◌, ◌%◌, ◌<◌, Bool, true, false, ◌&&◌, ◌||◌, not, Option, none, some,
  List, [], ◌∷◌, ◌++◌, map, ltb, ◌==◌, if◌then◌else◌, length, get_elem?, Result, ok, err,
}
use scytale.Base.Bytes.{Bytes, bytes_eq, to_le_bytes}
use scytale.Base.Endian.{bytes_leb}
use scytale.Primitives.{Hash256, zero_hash, OutPoint, outpoint_eq, TxOut}
use scytale.Core.Types.{UtxoEntry, UtxoError, missing_utxo}
use scytale.Core.Utxo.Map.{Entries}
use scytale.Core.Utxo.{UtxoSet}

-- b"SCYTALE_UTXO_LEAF_V1".
abbrev leaf_tag : Bytes
leaf_tag =
    0x53 ∷ 0x43 ∷ 0x59 ∷ 0x54 ∷ 0x41 ∷ 0x4c ∷ 0x45 ∷ 0x5f ∷ 0x55 ∷ 0x54 ∷ 0x58 ∷ 0x4f ∷ 0x5f ∷ 0x4c
    ∷ 0x45 ∷ 0x41 ∷ 0x46 ∷ 0x5f ∷ 0x56 ∷ 0x31 ∷ []

-- `leaves[i]`; the callers stay in range, where the source would panic.
abbrev pub at : List Hash256 → ℕ → Hash256
at leaves i = elim (get_elem? leaves i) [ none ↦ zero_hash | some h ↦ h ]

-- `a < b` of two outpoints by transaction and then by index.
abbrev pub comes_before : OutPoint → OutPoint → Bool
comes_before a b = not (bytes_leb b.txid a.txid) || (bytes_eq a.txid b.txid && ltb a.index b.index)

abbrev pub place : OutPoint × UtxoEntry → Entries → Entries
place x [] = x ∷ []
place x (y ∷ ys) = if comes_before y.0 x.0 then y ∷ place x ys else x ∷ y ∷ ys

-- `sort_by` on the outpoints.
abbrev pub sort_entries : Entries → Entries
sort_entries [] = []
sort_entries (x ∷ xs) = place x (sort_entries xs)

-- `position`: the index of the first entry with the outpoint.
abbrev pub position : OutPoint → Entries → Option ℕ
position o [] = none
position o ((p, e) ∷ es) =
    if outpoint_eq p o then some 0 else elim (position o es) [ none ↦ none | some i ↦ some (suc i) ]

-- `(sibling_hash, is_right_sibling)`.
pub record Sibling : Type 0 where
  pub sibling_hash : Hash256
  pub is_right_sibling : Bool

pub record UtxoMerkleProof : Type 0 where
  pub outpoint : OutPoint
  pub value_quanta : ℕ
  pub locking_condition : Bytes
  pub leaf_hash : Hash256
  pub audit_path : List Sibling
  pub leaf_index : ℕ

module _ (blake3 : Bytes → Hash256) where
  unfoldable pub compute_utxo_leaf : OutPoint → TxOut → Hash256
  compute_utxo_leaf o output = blake3 (
      leaf_tag
      ++ (o.txid
          ++ (to_le_bytes 4 o.index ++ (to_le_bytes 8 output.value ++ output.locking_condition))))

  -- An odd last leaf once more.
  abbrev pub pad : List Hash256 → List Hash256
  pad leaves =
      if length leaves % 2 == 1 then leaves ++ at leaves (length leaves - 1) ∷ [] else leaves

  -- `chunks_exact(2)`, each hashed.
  abbrev pub merge_pairs : List Hash256 → List Hash256
  merge_pairs [] = []
  merge_pairs (x ∷ []) = []
  merge_pairs (x ∷ y ∷ rest) = blake3 (x ++ y) ∷ merge_pairs rest

  abbrev pub next_level : List Hash256 → List Hash256
  next_level leaves = merge_pairs (pad leaves)

  -- The loop `while leaves.len() > 1`.
  unfoldable pub root_loop : ℕ → List Hash256 → Hash256
  root_loop zero leaves = at leaves 0
  root_loop (suc fuel) leaves =
      let above = root_loop fuel (next_level leaves) in
      if ltb 1 (length leaves) then above else at leaves 0

  unfoldable pub compute_utxo_merkle_root : List Hash256 → Hash256
  unfolding root_loop
  compute_utxo_merkle_root leaves =
      if length leaves == 0 then zero_hash else root_loop (length leaves) leaves

  unfoldable pub leaves_of : Entries → List Hash256
  leaves_of es = map (λ x. compute_utxo_leaf x.0 x.1.output) es

  unfoldable pub compute_utxo_root : UtxoSet → Hash256
  compute_utxo_root s = compute_utxo_merkle_root (leaves_of (sort_entries s.entries))

  abbrev pub sibling_of : List Hash256 → ℕ → Sibling
  sibling_of leaves idx =
      if idx % 2 == 0
      then record { sibling_hash = at leaves (idx + 1); is_right_sibling = true }
      else record { sibling_hash = at leaves (idx - 1); is_right_sibling = false }

  -- The loop that collects the audit path.
  pub path_loop : ℕ → List Hash256 → ℕ → List Sibling
  path_loop zero leaves idx = []
  path_loop (suc fuel) leaves idx =
      let above = path_loop fuel (next_level leaves) (idx / 2) in
      if ltb 1 (length leaves) then sibling_of (pad leaves) idx ∷ above else []

  pub generate_utxo_merkle_proof : Entries → OutPoint → Result UtxoError UtxoMerkleProof
  unfolding leaves_of path_loop
  generate_utxo_merkle_proof utxos target =
      let sorted = sort_entries utxos in
      let leaves = leaves_of sorted in
      elim (position target sorted) [
        | none ↦ err (missing_utxo target)
        | some idx ↦ elim (get_elem? sorted idx) [
          | none ↦ err (missing_utxo target)
          | some (o, entry) ↦ ok (record {
            outpoint = target;
            value_quanta = entry.output.value;
            locking_condition = entry.output.locking_condition;
            leaf_hash = at leaves idx;
            audit_path = path_loop (length leaves) leaves idx;
            leaf_index = idx;
          })
        ]
      ]

  pub generate_merkle_proof : UtxoSet → OutPoint → Result UtxoError UtxoMerkleProof
  generate_merkle_proof s target = generate_utxo_merkle_proof s.entries target

  abbrev pub join : Hash256 → Sibling → Hash256
  join current s =
      if s.is_right_sibling
      then blake3 (current ++ s.sibling_hash)
      else blake3 (s.sibling_hash ++ current)

  abbrev pub climb : Hash256 → List Sibling → Hash256
  climb current [] = current
  climb current (s ∷ path) = climb (join current s) path

  -- An empty locking condition leaves the leaf unchecked.
  unfoldable pub verify_proof : UtxoMerkleProof → Hash256 → Bool
  verify_proof p expected_root =
      if not (length p.locking_condition == 0)
        && not (
            bytes_eq
              (compute_utxo_leaf p.outpoint
                (record { value = p.value_quanta; locking_condition = p.locking_condition }))
              p.leaf_hash)
      then false
      else bytes_eq (climb p.leaf_hash p.audit_path) expected_root

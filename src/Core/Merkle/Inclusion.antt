-- ===== src/Core/Merkle/Inclusion.antt =====
-- Proofs of inclusion: those that are made for an unspent output verify against the root of the set.
use scytale.Base.{
  ℕ, zero, suc, ◌<◌, ◌≡◌, refl, sym, ap, ◌∙◌, inl, inr, true, none, some, List, [], ◌∷◌, ◌==◌,
  if◌then◌else◌, length, get_elem?, Bool-cases, ok, err, arith,
}
use scytale.Base.Bytes.{Bytes, bytes_eq, bytes_eq_refl}
use scytale.Primitives.{Hash256, zero_hash, OutPoint, outpoint_eq, outpoint_eq→≡}
use scytale.Core.Types.{UtxoEntry, missing_utxo}
use scytale.Core.Utxo.{UtxoSet}
use scytale.Core.Utxo.Map.{Entries, lookup, Distinct}
use scytale.Core.Merkle.{
  at, place, sort_entries, position, UtxoMerkleProof, compute_utxo_leaf, root_loop,
  compute_utxo_merkle_root, leaves_of, compute_utxo_root, path_loop, generate_utxo_merkle_proof,
  generate_merkle_proof, climb, verify_proof,
}
use scytale.Core.Merkle.Levels.{climb-path_loop}

lookup-place :
    (o : OutPoint) (e : UtxoEntry) (es : Entries) (q : OutPoint)
    → lookup o es ≡ none
    → lookup q (place (o, e) es) ≡ (if outpoint_eq o q then some e else lookup q es)
lookup-place o e [] q h = refl
lookup-place o e ((p, f) ∷ es) q h =
    ground (arith, lookup-place o e es q, outpoint_eq→≡ p q, outpoint_eq→≡ o q, outpoint_eq→≡ p o)

-- Sorting changes nothing of what is found.
lookup-sort_entries :
    (es : Entries) (q : OutPoint) → Distinct es → lookup q (sort_entries es) ≡ lookup q es
lookup-sort_entries [] q d = refl
lookup-sort_entries ((o, e) ∷ es) q (new, d) =
    lookup-place o e (sort_entries es) q (lookup-sort_entries es o d ∙ new)
    ∙ ap (λ r. if outpoint_eq o q then some e else r) (lookup-sort_entries es q d)

record IsAt (t : OutPoint) (e : UtxoEntry) (es : Entries) : Type 0 where
  pub index : ℕ
  pub found : position t es ≡ some index
  pub entry : get_elem? es index ≡ some (t, e)
  pub in_range : index < length es

position_found : (t : OutPoint) (e : UtxoEntry) (es : Entries) → lookup t es ≡ some e → IsAt t e es
position_found t e [] h = absurd (ground arith)
position_found t e ((p, f) ∷ es) h = elim (Bool-cases (outpoint_eq p t)) [
  | inl same ↦ record {
    index = 0;
    found = rw same refl;
    entry = ground (arith, outpoint_eq→≡ p t);
    in_range = omega arith;
  }
  | inr other ↦
      let rest = position_found t e es (rw other at h) in
      record {
        index = suc rest.index;
        found = rw (other, rest.found) refl;
        entry = rest.entry;
        in_range = omega (arith, rest.in_range);
      }
]

position_missing : (t : OutPoint) (es : Entries) → lookup t es ≡ none → position t es ≡ none
position_missing t [] h = refl
position_missing t ((p, f) ∷ es) h = elim (Bool-cases (outpoint_eq p t)) [
  | inl same ↦ absurd (ground arith)
  | inr other ↦ rw (other, position_missing t es (rw other at h)) refl
]

module _ (blake3 : Bytes → Hash256) where
  at-leaves_of :
      (es : Entries) (i : ℕ) (o : OutPoint) (e : UtxoEntry)
      → get_elem? es i ≡ some (o, e)
      → at (leaves_of blake3 es) i ≡ compute_utxo_leaf blake3 o e.output
  unfolding leaves_of
  at-leaves_of [] i o e h = absurd (ground arith)
  at-leaves_of (x ∷ es) zero o e h =
      ap (λ r. elim r [ none ↦ zero_hash | some y ↦ compute_utxo_leaf blake3 y.0 y.1.output ]) h
  at-leaves_of (x ∷ es) (suc i) o e h = at-leaves_of es i o e h

  length-leaves_of : (es : Entries) → length (leaves_of blake3 es) ≡ length es
  unfolding leaves_of
  length-leaves_of [] = refl
  length-leaves_of (x ∷ es) = omega (arith, length-leaves_of es)

  verify_proof-true :
      (p : UtxoMerkleProof) (root : Hash256)
      → compute_utxo_leaf blake3 p.outpoint
          (record { value = p.value_quanta; locking_condition = p.locking_condition })
        ≡ p.leaf_hash
      → climb blake3 p.leaf_hash p.audit_path ≡ root
      → verify_proof blake3 p root ≡ true
  unfolding verify_proof
  verify_proof-true p root leaf path =
      let same = ap (λ l. bytes_eq l p.leaf_hash) leaf ∙ bytes_eq_refl p.leaf_hash in
      let reached = ap (λ r. bytes_eq r root) path ∙ bytes_eq_refl root in
      elim (Bool-cases (length p.locking_condition == 0)) [
        | inl e ↦ rw (e, reached) refl
        | inr e ↦ rw (e, same, reached) refl
      ]

  compute_utxo_merkle_root-loop :
      (leaves : List Hash256)
      → 0 < length leaves
      → compute_utxo_merkle_root blake3 leaves ≡ root_loop blake3 (length leaves) leaves
  unfolding compute_utxo_merkle_root
  compute_utxo_merkle_root-loop leaves pos = ground arith

  -- What is made for an unspent output in a set without duplicate keys: a proof with the value and the
  -- condition of that output, which verifies against the root of the set.
  pub generate_merkle_proof_verifies :
      (s : UtxoSet) (target : OutPoint) (e : UtxoEntry)
      → Distinct s.entries
      → lookup target s.entries ≡ some e
      → (p : UtxoMerkleProof) × (generate_merkle_proof blake3 s target ≡ ok p)
        × (p.value_quanta ≡ e.output.value)
        × (p.locking_condition ≡ e.output.locking_condition)
        × (verify_proof blake3 p (compute_utxo_root blake3 s) ≡ true)
  unfolding generate_merkle_proof generate_utxo_merkle_proof verify_proof compute_utxo_root
      compute_utxo_merkle_root
  generate_merkle_proof_verifies s target e d h =
      let sorted = sort_entries s.entries in
      let leaves = leaves_of blake3 sorted in
      let place = position_found target e sorted (lookup-sort_entries s.entries target d ∙ h) in
      let p : UtxoMerkleProof = record {
        outpoint = target;
        value_quanta = e.output.value;
        locking_condition = e.output.locking_condition;
        leaf_hash = at leaves place.index;
        audit_path = path_loop blake3 (length leaves) leaves place.index;
        leaf_index = place.index;
      } in
      let leaf = at-leaves_of sorted place.index target e place.entry in
      let root =
        climb-path_loop blake3 (length leaves) leaves place.index (omega arith)
          (omega (arith, length-leaves_of sorted, place.in_range)) in
      let some_leaf : 0 < length leaves = omega (arith, length-leaves_of sorted, place.in_range) in
      (
        p,
        rw (generate_merkle_proof, generate_utxo_merkle_proof, place.found, place.entry) refl,
        refl,
        refl,
        verify_proof-true p (compute_utxo_root blake3 s) (sym leaf)
            (root ∙ sym (compute_utxo_merkle_root-loop leaves some_leaf)),
      )

  -- There is no proof for an outpoint that is not in the set.
  pub generate_merkle_proof_missing :
      (s : UtxoSet) (target : OutPoint)
      → Distinct s.entries
      → lookup target s.entries ≡ none
      → generate_merkle_proof blake3 s target ≡ err (missing_utxo target)
  unfolding generate_merkle_proof generate_utxo_merkle_proof
  generate_merkle_proof_missing s target d h =
      rw
        (
          generate_merkle_proof,
          generate_utxo_merkle_proof,
          position_missing target (sort_entries s.entries)
              (lookup-sort_entries s.entries target d ∙ h),
        )
        refl

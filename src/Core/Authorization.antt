-- ===== src/Core/Authorization.antt =====
-- crates/scytale-core/src/authorization.rs: whether the inputs of a transaction may spend what they spend, and
-- the verifier that runs the script engine. The decoder of locking conditions (bincode), the Ed25519 check and
-- the texts of script errors are parameters.
use scytale.Base.{
  ℕ, suc, ◌≡◌, refl, inl, inr, ◌↔◌, Bool, true, false, ◌&&◌, Option, none, some, List, [], ◌∷◌,
  ◌==◌, ==_iff, leb, if◌then◌else◌, length, take, drop, Result, ok, err, Bool-cases, ◌>>◌, arith,
}
use scytale.Base.Bytes.{Bytes, bytes_eq}
use scytale.Primitives.{Hash256}
use scytale.Core.Types.{TxIn, Transaction, UtxoEntry}
use scytale.Core.Transaction.{is_empty}
use scytale.Core.Transaction.Digests.{
  AuthorizationError, empty_authorization, malformed_proof, signature_mismatch,
  mismatched_utxo_count, compute_sighash,
}
use scytale.Script.Error.{ScriptError}
use scytale.Script.Engine.{execute, default_max_ops_budget}

-- The method of the trait `AuthorizationVerifier`: the digest, the locking condition and the proof.
abbrev pub AuthorizationVerifier : Type 0
AuthorizationVerifier = Hash256 → Bytes → Bytes → Result AuthorizationError (Unit {0})

-- `OutputLock` of src/transaction.rs.
pub data OutputLock : Type 0 where
  public_key : Bytes → OutputLock
  script : Bytes → Bytes → OutputLock

-- `OutputLock::MAGIC_PREFIX`.
abbrev pub magic_prefix : Bytes
magic_prefix = 0x53 ∷ 0x43 ∷ 0x59 ∷ 0x01 ∷ []

abbrev pub has_prefix : Bytes → Bool
has_prefix bytes = leb 4 (length bytes) && bytes_eq (take 4 bytes) magic_prefix

-- `OutputLock::from_locking_condition`, on the decoder.
unfoldable pub from_locking_condition : (Bytes → Option OutputLock) → Bytes → Option OutputLock
from_locking_condition deserialize bytes =
    if has_prefix bytes then deserialize (drop 4 bytes) else deserialize bytes

abbrev pub is_script : Option OutputLock → Bool
is_script none = false
is_script (some (public_key key)) = false
is_script (some (script script_hash datum)) = true

module _ (blake3 : Bytes → Hash256) where
  module _ (verify : AuthorizationVerifier) (tx : Transaction) where
    -- The loop over the inputs from this index on.
    unfoldable pub verify_inputs :
        ℕ → List TxIn → List UtxoEntry → Result AuthorizationError (Unit {0})
    verify_inputs index [] utxos = ok tt
    verify_inputs index (i ∷ is) [] = ok tt
    verify_inputs index (i ∷ is) (u ∷ us) = elim (is_empty i.authorization) [
      | true ↦ err empty_authorization
      | false ↦
          verify (compute_sighash blake3 tx index u.output.locking_condition)
            u.output.locking_condition i.authorization
          >> verify_inputs (suc index) is us
    ]

    unfoldable pub verify_transaction_authorization :
        List UtxoEntry → Result AuthorizationError (Unit {0})
    unfolding verify_inputs
    verify_transaction_authorization resolved_utxos =
        elim (length tx.inputs == length resolved_utxos) [
          | false ↦ err (mismatched_utxo_count (length tx.inputs) (length resolved_utxos))
          | true ↦ verify_inputs 0 tx.inputs resolved_utxos
        ]

    -- Each input, from this index on, has a proof that the verifier accepts for the digest of the input.
    abbrev pub Authorized : ℕ → List TxIn → List UtxoEntry → Type 0
    Authorized index [] [] = Unit
    Authorized index [] (u ∷ us) = ⊥
    Authorized index (i ∷ is) [] = ⊥
    Authorized index (i ∷ is) (u ∷ us) =
        (is_empty i.authorization ≡ false)
        × (verify (compute_sighash blake3 tx index u.output.locking_condition)
              u.output.locking_condition i.authorization
            ≡ ok tt)
        × Authorized (suc index) is us

    verify_inputs-Authorized :
        (index : ℕ) (is : List TxIn) (us : List UtxoEntry)
        → length is ≡ length us
        → verify_inputs index is us ≡ ok tt
        → Authorized index is us
    unfolding verify_inputs
    verify_inputs-Authorized index [] [] e h = tt
    verify_inputs-Authorized index [] (u ∷ us) e h = absurd (omega arith)
    verify_inputs-Authorized index (i ∷ is) [] e h = absurd (omega arith)
    verify_inputs-Authorized index (i ∷ is) (u ∷ us) e h =
        ground (arith, verify_inputs-Authorized (suc index) is us)

    Authorized-verify_inputs :
        (index : ℕ) (is : List TxIn) (us : List UtxoEntry)
        → Authorized index is us
        → (length is ≡ length us) × (verify_inputs index is us ≡ ok tt)
    unfolding verify_inputs
    Authorized-verify_inputs index [] [] a = (refl, refl)
    Authorized-verify_inputs index [] (u ∷ us) a = absurd a
    Authorized-verify_inputs index (i ∷ is) [] a = absurd a
    Authorized-verify_inputs index (i ∷ is) (u ∷ us) (full, good, rest) =
        let (e, h) = Authorized-verify_inputs (suc index) is us rest in
        (omega arith, rw (full, verify_inputs, good) h)

    -- A transaction is authorized exactly when there are as many outputs as inputs and every input has a proof,
    -- not empty, that the verifier accepts for the digest of that input and the locking condition it spends.
    pub verify_transaction_authorization_iff :
        (us : List UtxoEntry)
        → (verify_transaction_authorization us ≡ ok tt) ↔ Authorized 0 tx.inputs us
    unfolding verify_transaction_authorization
    verify_transaction_authorization_iff us = (
      (λ h. elim (Bool-cases (length tx.inputs == length us)) [
        | inl same ↦
            verify_inputs-Authorized 0 tx.inputs us ((==_iff _ _).0 same)
              (rw (same, verify_transaction_authorization) at h)
        | inr other ↦ absurd (ground arith)
      ]),
      (λ a.
          let (e, h) = Authorized-verify_inputs 0 tx.inputs us a in
          rw ((==_iff (length tx.inputs) (length us)).1 e, verify_transaction_authorization) h),
    )

  -- `ConsensusScriptVerifier`: contract outputs are left to the VM, all others to the script engine.
  module _ (verify_strict : Bytes → Bytes → Bytes → Bool) (deserialize : Bytes → Option OutputLock)
      (to_string : ScriptError → Bytes) where
    pub verdict : Result ScriptError Bool → Result AuthorizationError (Unit {0})
    verdict (err e) = err (malformed_proof (to_string e))
    verdict (ok true) = ok tt
    verdict (ok false) = err signature_mismatch

    pub consensus_script_verifier : ℕ → AuthorizationVerifier
    unfolding verdict from_locking_condition
    consensus_script_verifier current_block_height digest locking_condition proof =
        if has_prefix locking_condition
          && is_script (from_locking_condition deserialize locking_condition)
        then ok tt
        else verdict (
            execute blake3 verify_strict default_max_ops_budget
              (record { sighash = digest; current_block_height = current_block_height }) proof
              locking_condition)

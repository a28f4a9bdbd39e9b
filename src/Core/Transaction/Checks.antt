-- ===== src/Core/Transaction/Checks.antt =====
-- What the stateless checks establish: exactly the conditions of a well-formed transaction.
use scytale.Base.{
  ℕ, ◌+◌, ◌≤◌, ◌<◌, ◌≡◌, ◌≢◌, ◌↔◌, ◌⊎◌, refl, true, false, List, [], ◌∷◌, All, ok, Result-cases,
  inl, inr, arith,
}
use scytale.Base.Words.{u64_bound}
use scytale.Primitives.{OutPoint, outpoint_eq, TxOut}
use scytale.Core.Types.{TxIn, Transaction}
use scytale.Core.Transaction.{
  transaction_version_1, dust_threshold, is_op_return, add_outputs, total_output_quanta, check_dust,
  seen_before, check_duplicates, validate_stateless,
}

-- The value of the outputs, without a bound.
abbrev pub outputs_value : List TxOut → ℕ
outputs_value [] = 0
outputs_value (o ∷ os) = o.value + outputs_value os

-- The inputs name different outpoints.
abbrev pub DistinctInputs : List TxIn → Type 0
DistinctInputs [] = Unit
DistinctInputs (i ∷ is) =
    All (λ j. outpoint_eq i.previous_output j.previous_output ≡ false) is × DistinctInputs is

abbrev pub AboveDust : TxOut → Type 0
AboveDust o = (is_op_return o ≡ true) ⊎ (dust_threshold ≤ o.value)

pub record IsWellFormed (t : Transaction) : Type 0 where
  pub version_one : t.version ≡ transaction_version_1
  pub has_inputs : t.inputs ≢ []
  pub has_outputs : t.outputs ≢ []
  pub above_dust : All AboveDust t.outputs
  pub total_fits : outputs_value t.outputs < u64_bound
  pub distinct_inputs : DistinctInputs t.inputs

-- The total is the sum of the values, and is refused exactly when it does not fit a `u64`.
pub add_outputs_iff :
    (total : ℕ) (os : List TxOut) (t : ℕ)
    → total < u64_bound
    → (add_outputs total os ≡ ok t)
      ↔ ((t ≡ total + outputs_value os) × (total + outputs_value os < u64_bound))
add_outputs_iff total [] t h = ground arith
add_outputs_iff total (o ∷ os) t h = ground (arith, add_outputs_iff (total + o.value) os t)

pub total_output_quanta-eq-ok :
    (t : Transaction) (v : ℕ) → total_output_quanta t ≡ ok v → v ≡ outputs_value t.outputs
unfolding total_output_quanta
total_output_quanta-eq-ok t v h = omega (arith, (add_outputs_iff 0 t.outputs v (omega arith)).0 h)

check_dust_iff : (os : List TxOut) → (check_dust os ≡ ok tt) ↔ All AboveDust os
check_dust_iff [] = (λ _. tt, λ _. refl)
check_dust_iff (o ∷ os) = ground (arith, check_dust_iff os)

abbrev Fresh : List OutPoint → List TxIn → Type 0
Fresh seen is = All (λ j. seen_before seen j.previous_output ≡ false) is

Fresh-cons :
    (p : OutPoint) (seen : List OutPoint) (is : List TxIn)
    → Fresh (p ∷ seen) is ↔ (All (λ j. outpoint_eq p j.previous_output ≡ false) is × Fresh seen is)
Fresh-cons p seen [] = (λ _. (tt, tt), λ _. tt)
Fresh-cons p seen (i ∷ is) = ground (arith, Fresh-cons p seen is)

check_duplicates_iff :
    (seen : List OutPoint) (is : List TxIn)
    → (check_duplicates seen is ≡ ok tt) ↔ (Fresh seen is × DistinctInputs is)
check_duplicates_iff seen [] = (λ _. (tt, tt), λ _. refl)
check_duplicates_iff seen (i ∷ is) = ground (
  arith,
  check_duplicates_iff (i.previous_output ∷ seen) is,
  Fresh-cons i.previous_output seen is,
)

Fresh-nil : (is : List TxIn) → Fresh [] is
Fresh-nil [] = tt
Fresh-nil (i ∷ is) = (refl, Fresh-nil is)

validate_stateless-IsWellFormed :
    (t : Transaction) (v : ℕ)
    → add_outputs 0 t.outputs ≡ ok v
    → validate_stateless t ≡ ok tt
    → IsWellFormed t
unfolding validate_stateless total_output_quanta
validate_stateless-IsWellFormed t v e h = ground (
  arith,
  add_outputs_iff 0 t.outputs v,
  check_dust_iff t.outputs,
  check_duplicates_iff [] t.inputs,
)

-- A transaction passes the stateless validation exactly when it has version 1, inputs and outputs, no
-- output below the dust threshold but `OP_RETURN` ones, a total that fits a `u64`, and distinct inputs.
pub validate_stateless_iff : (t : Transaction) → (validate_stateless t ≡ ok tt) ↔ IsWellFormed t
unfolding validate_stateless total_output_quanta
validate_stateless_iff t = (
  λ h. elim (Result-cases (add_outputs 0 t.outputs)) [
    | inl (v, e) ↦ validate_stateless-IsWellFormed t v e h
    | inr (x, e) ↦ absurd (ground arith)
  ],
  λ w. ground (
    arith,
    add_outputs_iff 0 t.outputs (outputs_value t.outputs),
    check_dust_iff t.outputs,
    check_duplicates_iff [] t.inputs,
    Fresh-nil t.inputs,
  ),
)

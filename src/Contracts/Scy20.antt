-- ===== src/Contracts/Scy20.antt =====
-- contracts/scy20: src/types.rs, src/error.rs and src/validator.rs, the token contract. The decoders of datums
-- (bincode) and the Ed25519 check are parameters.
pub mod Supply
pub mod Ledger
pub mod Issue
use scytale.Base.{
  ℕ, suc, ◌+◌, ◌-◌, ◌^◌, Bool, true, false, ◌&&◌, not, Option, none, some, List, [], ◌∷◌, ltb, leb,
  ◌==◌, if◌then◌else◌, Result, ok, err, ◌>>=◌, ◌>>◌, ok_or, guard,
}
use scytale.Base.Bytes.{Bytes, bytes_eq}
use scytale.Base.Words.{checked_add, checked_sub}
use scytale.Primitives.{Hash256}
use scytale.Sdk.{TxContext}

pub record Scy20Datum : Type 0 where
  pub token_id : Bytes
  pub owner : Bytes
  pub amount : ℕ

pub record TokenRegistryDatum : Type 0 where
  pub token_id : Bytes
  pub authority : Bytes
  pub current_supply : ℕ
  pub max_supply : Option ℕ
  pub nonce : ℕ

-- A signature and a nonce.
pub data Scy20Redeemer : Type 0 where
  transfer : Bytes → ℕ → Scy20Redeemer
  mint : Bytes → ℕ → Scy20Redeemer
  burn : Bytes → ℕ → Scy20Redeemer

pub data Scy20Error : Type 0 where
  supply_mismatch : ℕ → ℕ → Scy20Error
  invalid_token_id : Scy20Error
  missing_signature : Bytes → Scy20Error
  max_supply_exceeded : Scy20Error
  zero_amount : Scy20Error
  deserialization_failed : Scy20Error
  invalid_registry_state : Scy20Error
  nonce_mismatch : Scy20Error

-- `checked_add` of `u128`.
abbrev pub checked_add_u128 : ℕ → ℕ → Option ℕ
checked_add_u128 a b = if ltb (a + b) (2 ^ 128) then some (a + b) else none

abbrev pub option_eq : Option ℕ → Option ℕ → Bool
option_eq none none = true
option_eq none (some b) = false
option_eq (some a) none = false
option_eq (some a) (some b) = a == b

-- How far the totals of the tokens are apart, in the direction that the redeemer allows.
abbrev pub supply_delta : Scy20Redeemer → ℕ → ℕ → Option ℕ
supply_delta (mint signature nonce) input_total output_total = checked_sub output_total input_total
supply_delta (transfer signature nonce) input_total output_total =
    if input_total == output_total then some 0 else none
supply_delta (burn signature nonce) input_total output_total = checked_sub input_total output_total

abbrev pub expected_supply : Scy20Redeemer → ℕ → ℕ → Result Scy20Error ℕ
expected_supply (mint signature nonce) current_supply delta =
    ok_or (checked_add_u128 current_supply delta) max_supply_exceeded
expected_supply (transfer signature nonce) current_supply delta = ok current_supply
expected_supply (burn signature nonce) current_supply delta =
    ok_or (checked_sub current_supply delta) (supply_mismatch current_supply delta)

-- The state that is recreated has the expected supply, and the authority and the bound of the one spent.
abbrev pub same_registry : TokenRegistryDatum → TokenRegistryDatum → ℕ → Bool
same_registry registry next_registry supply =
    (next_registry.current_supply == supply)
    && bytes_eq next_registry.authority registry.authority
    && option_eq next_registry.max_supply registry.max_supply

abbrev pub within_max : Option ℕ → ℕ → Bool
within_max none supply = true
within_max (some bound) supply = leb supply bound

-- The nonce is that of the registry, which then counts one up.
unfoldable pub check_nonce :
    TokenRegistryDatum → TokenRegistryDatum → ℕ → Result Scy20Error (Unit {0})
check_nonce registry next_registry nonce = do
  expected_nonce ← ok_or (checked_add registry.nonce 1) nonce_mismatch
  guard ((nonce == registry.nonce) && (next_registry.nonce == expected_nonce)) nonce_mismatch

-- The end of the validator, from the totals on.
unfoldable pub check_supply :
    Scy20Redeemer → TokenRegistryDatum → TokenRegistryDatum → ℕ → ℕ → Result Scy20Error (Unit {0})
check_supply redeemer registry next_registry input_total output_total = do
  delta ←
      ok_or (supply_delta redeemer input_total output_total)
        (supply_mismatch input_total output_total)
  supply ← expected_supply redeemer registry.current_supply delta
  guard (same_registry registry next_registry supply) invalid_registry_state
  guard (within_max next_registry.max_supply supply) max_supply_exceeded
  ok tt

module _ (decode_registry : Bytes → Option TokenRegistryDatum) where
  -- The first of the datums that decodes as the registry of the token.
  unfoldable pub find_registry : Bytes → List Bytes → Result Scy20Error TokenRegistryDatum
  find_registry token_id [] = err invalid_registry_state
  find_registry token_id (bytes ∷ rest) = elim (decode_registry bytes) [
    | none ↦ find_registry token_id rest
    | some state ↦ elim (bytes_eq state.token_id token_id) [
      | true ↦ ok state
      | false ↦ find_registry token_id rest
    ]
  ]

module _ (decode_token : Bytes → Option Scy20Datum) where
  -- The loop of `canonical_token_total`, with the total so far.
  unfoldable pub token_total_from : ℕ → Bytes → List Bytes → Result Scy20Error ℕ
  token_total_from total token_id [] = ok total
  token_total_from total token_id (bytes ∷ rest) = elim (decode_token bytes) [
    | none ↦ token_total_from total token_id rest
    | some state ↦ elim (bytes_eq state.token_id token_id) [
      | false ↦ token_total_from total token_id rest
      | true ↦ elim (state.amount == 0) [
        | true ↦ err zero_amount
        | false ↦ elim (checked_add_u128 total state.amount) [
          | none ↦ err (supply_mismatch total state.amount)
          | some sum ↦ token_total_from sum token_id rest
        ]
      ]
    ]
  ]

  unfoldable pub canonical_token_total : List Bytes → Bytes → Result Scy20Error ℕ
  unfolding token_total_from
  canonical_token_total datums token_id = token_total_from 0 token_id datums

module _ (verify_ed25519 : Bytes → Bytes → Bytes → Bool) where
  -- The nonce of the redeemer, where the owner, or for a mint the authority, has signed.
  unfoldable pub signed_nonce :
      Scy20Datum → TokenRegistryDatum → Scy20Redeemer → Hash256 → Result Scy20Error ℕ
  signed_nonce datum registry (transfer signature nonce) tx_hash =
      guard (verify_ed25519 datum.owner signature tx_hash) (missing_signature datum.owner)
      >> ok nonce
  signed_nonce datum registry (mint signature nonce) tx_hash =
      guard (verify_ed25519 registry.authority signature tx_hash)
        (missing_signature registry.authority)
      >> ok nonce
  signed_nonce datum registry (burn signature nonce) tx_hash =
      guard (verify_ed25519 datum.owner signature tx_hash) (missing_signature datum.owner)
      >> ok nonce

module _ (verify_ed25519 : Bytes → Bytes → Bytes → Bool)
    (decode_registry : Bytes → Option TokenRegistryDatum)
    (decode_token : Bytes → Option Scy20Datum) where
  -- The exported `validate` decodes its three arguments and calls this.
  unfoldable pub validate_scy20_execution :
      Scy20Datum → Scy20Redeemer → TxContext → Result Scy20Error (Unit {0})
  validate_scy20_execution datum redeemer ctx = do
    registry ← find_registry decode_registry datum.token_id ctx.ledger_state
    next_registry ← find_registry decode_registry datum.token_id ctx.output_datums
    nonce ← signed_nonce verify_ed25519 datum registry redeemer ctx.tx_hash
    check_nonce registry next_registry nonce
    input_total ← canonical_token_total decode_token ctx.input_datums datum.token_id
    output_total ← canonical_token_total decode_token ctx.output_datums datum.token_id
    check_supply redeemer registry next_registry input_total output_total

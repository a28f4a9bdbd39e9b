-- ===== src/Tests/Contracts.antt =====
-- The theorems of the contracts at small inputs.
use scytale.Base.{◌≡◌, refl, ◌↔◌, Bool, Option, none, some, List, [], ◌∷◌, ok, arith}
use scytale.Base.Bytes.{Bytes, bytes_eq}
use scytale.Sdk.{TxContext, validation_success}
use scytale.Contracts.Scy20.{
  Scy20Datum, TokenRegistryDatum, Scy20Redeemer, mint, transfer, validate_scy20_execution,
  find_registry, canonical_token_total,
}
use scytale.Contracts.Scy20.Ledger.{Executed, start, spend, IsLedger, Executed-IsLedger}
use scytale.Contracts.Scy20.Issue.{
  front, registry_count, holdings, validate_scy20_execution_issues_nothing,
}
use scytale.Contracts.Vault.{
  VaultDatum, VaultRedeemer, normal_withdraw, decoded, validate, Released, validate_iff,
}

-- A registry has five numbers and a token the first three of them.
abbrev read_registry : Bytes → Option TokenRegistryDatum
read_registry (t ∷ a ∷ s ∷ m ∷ n ∷ []) = some record {
  token_id = t ∷ [];
  authority = a ∷ [];
  current_supply = s;
  max_supply = some m;
  nonce = n;
}
read_registry bytes = none

abbrev read_token : Bytes → Option Scy20Datum
read_token (t ∷ o ∷ a ∷ rest) = some record { token_id = t ∷ []; owner = o ∷ []; amount = a }
read_token bytes = none

-- A signature is the key itself.
abbrev own_key : Bytes → Bytes → Bytes → Bool
own_key key signature message = bytes_eq key signature

abbrev before : List Bytes
before = (7 ∷ 1 ∷ 100 ∷ 1000 ∷ 5 ∷ []) ∷ (7 ∷ 2 ∷ 40 ∷ []) ∷ []

abbrev after_mint : List Bytes
after_mint = (7 ∷ 1 ∷ 150 ∷ 1000 ∷ 6 ∷ []) ∷ (7 ∷ 2 ∷ 40 ∷ []) ∷ []

abbrev after_transfer : List Bytes
after_transfer = (7 ∷ 1 ∷ 150 ∷ 1000 ∷ 7 ∷ []) ∷ (7 ∷ 3 ∷ 40 ∷ []) ∷ []

abbrev step_context : List Bytes → List Bytes → TxContext
step_context inputs outputs = record {
  tx_hash = [];
  block_time = 50;
  input_amount = 1_000;
  fee_burned = 500;
  input_datums = inputs;
  output_datums = outputs;
  ledger_state = inputs;
}

abbrev token : Scy20Datum
token = record { token_id = 7 ∷ []; owner = 2 ∷ []; amount = 40 }

minted :
    validate_scy20_execution own_key read_registry read_token token
      (mint (1 ∷ []) 5)
      (step_context before after_mint)
    ≡ ok tt
unfolding validate_scy20_execution find_registry scytale.Contracts.Scy20.signed_nonce
    scytale.Contracts.Scy20.check_nonce canonical_token_total scytale.Contracts.Scy20.check_supply
minted = refl

transferred :
    validate_scy20_execution own_key read_registry read_token token
      (transfer (2 ∷ []) 6)
      (step_context after_mint after_transfer)
    ≡ ok tt
unfolding validate_scy20_execution find_registry scytale.Contracts.Scy20.signed_nonce
    scytale.Contracts.Scy20.check_nonce canonical_token_total scytale.Contracts.Scy20.check_supply
transferred = refl

abbrev first_registry : TokenRegistryDatum
first_registry = record {
  token_id = 7 ∷ [];
  authority = 1 ∷ [];
  current_supply = 100;
  max_supply = some 1000;
  nonce = 5;
}

first_found : find_registry read_registry (7 ∷ []) before ≡ ok first_registry
unfolding find_registry
first_found = refl

first_sum : canonical_token_total read_token before (7 ∷ []) ≡ ok 140
unfolding canonical_token_total
first_sum = refl

executed_2 : Executed own_key read_registry read_token (7 ∷ []) before 2 after_transfer
executed_2 =
    spend
      (spend start token (mint (1 ∷ []) 5) (step_context before after_mint) refl refl refl minted)
      token (transfer (2 ∷ []) 6) (step_context after_mint after_transfer) refl refl refl
      transferred

Executed-IsLedger_example :
    IsLedger own_key read_registry read_token (7 ∷ []) before first_registry 140 2 after_transfer
Executed-IsLedger_example =
    Executed-IsLedger own_key read_registry read_token (7 ∷ []) before first_registry 140
      first_found first_sum executed_2

read_front :
    (bytes : Bytes) (r : TokenRegistryDatum)
    → read_registry bytes ≡ some r
    → read_token bytes ≡ some (front r)
read_front [] r h = absurd (ground arith)
read_front (t ∷ []) r h = absurd (ground arith)
read_front (t ∷ a ∷ []) r h = absurd (ground arith)
read_front (t ∷ a ∷ s ∷ []) r h = absurd (ground arith)
read_front (t ∷ a ∷ s ∷ m ∷ []) r h = absurd (ground arith)
read_front (t ∷ a ∷ s ∷ m ∷ n ∷ []) r h = ground arith
read_front (t ∷ a ∷ s ∷ m ∷ n ∷ x ∷ rest) r h = absurd (ground arith)

one_before : registry_count read_registry read_token (7 ∷ []) before ≡ 1
unfolding registry_count
one_before = refl

one_after : registry_count read_registry read_token (7 ∷ []) after_mint ≡ 1
unfolding registry_count
one_after = refl

validate_scy20_execution_issues_nothing_example :
    holdings read_registry read_token (7 ∷ []) after_mint
    ≡ holdings read_registry read_token (7 ∷ []) before
validate_scy20_execution_issues_nothing_example =
    validate_scy20_execution_issues_nothing read_registry read_token (7 ∷ []) read_front own_key
      token (mint (1 ∷ []) 5) (step_context before after_mint) refl refl one_before one_after minted

abbrev read_vault : Bytes → Option VaultDatum
read_vault (o ∷ t ∷ e ∷ p ∷ rest) =
    some record { owner_pubkey = o ∷ []; unlock_time = t; emergency_key = e ∷ []; penalty_fee = p }
read_vault bytes = none

abbrev read_redeemer : Bytes → Option VaultRedeemer
read_redeemer [] = none
read_redeemer (s ∷ rest) = some (normal_withdraw (s ∷ []))

abbrev read_context : Bytes → Option TxContext
read_context bytes = some (step_context [] [])

validate_iff_example :
    (validate own_key read_vault read_redeemer read_context
        (some (1 ∷ 40 ∷ 2 ∷ 9 ∷ []))
        4
        (some (1 ∷ []))
        1
        none
        0
      ≡ validation_success)
    ↔ ((datum : VaultDatum) × (redeemer : VaultRedeemer) × (ctx : TxContext) × (decoded read_vault
            (some (1 ∷ 40 ∷ 2 ∷ 9 ∷ []))
            4
          ≡ some datum)
        × (decoded read_redeemer (some (1 ∷ [])) 1 ≡ some redeemer)
        × (decoded read_context none 0 ≡ some ctx)
        × Released own_key datum ctx redeemer)
validate_iff_example =
    validate_iff own_key read_vault read_redeemer read_context (some (1 ∷ 40 ∷ 2 ∷ 9 ∷ [])) 4
      (some (1 ∷ [])) 1 none 0

-- ===== src/Contracts/Scy20/Supply.antt =====
-- The supply of a token under the validator of contracts/scy20/src/validator.rs.
use scytale.Base.{
  ℕ, suc, ◌+◌, ◌≡◌, refl, inl, inr, Bool, true, Option, none, some, ok, >>=-eq-ok, Option-cases,
  Result-cases, arith,
}
use scytale.Base.Bytes.{Bytes, bytes_eq→≡}
use scytale.Sdk.{TxContext}
use scytale.Contracts.Scy20.{
  Scy20Datum, TokenRegistryDatum, Scy20Redeemer, transfer, mint, burn, option_eq, supply_delta,
  expected_supply, same_registry, within_max, find_registry, signed_nonce, canonical_token_total,
  validate_scy20_execution, check_nonce, check_supply,
}

-- The registry that is recreated against the one that is spent, with the totals of the tokens on both sides.
pub record IsBalanced (registry next : TokenRegistryDatum) (input_total output_total : ℕ)
    : Type 0 where
  pub supply_moves : next.current_supply + input_total ≡ registry.current_supply + output_total
  pub nonce_next : next.nonce ≡ suc registry.nonce
  pub authority_same : next.authority ≡ registry.authority
  pub max_supply_same : next.max_supply ≡ registry.max_supply
  pub supply_bounded : within_max next.max_supply next.current_supply ≡ true

-- The supply moves as the totals do, whatever the redeemer.
supply_balance :
    (redeemer : Scy20Redeemer) (current_supply input_total output_total delta supply : ℕ)
    → supply_delta redeemer input_total output_total ≡ some delta
    → expected_supply redeemer current_supply delta ≡ ok supply
    → supply + input_total ≡ current_supply + output_total
supply_balance (mint s n) c i o d t h k = ground arith
supply_balance (transfer s n) c i o d t h k = ground arith
supply_balance (burn s n) c i o d t h k = ground arith

option_eq→≡ : (a b : Option ℕ) → option_eq a b ≡ true → a ≡ b
option_eq→≡ none none h = refl
option_eq→≡ none (some b) h = absurd (ground arith)
option_eq→≡ (some a) none h = absurd (ground arith)
option_eq→≡ (some a) (some b) h = ground arith

same_registry_facts :
    (registry next : TokenRegistryDatum) (supply : ℕ)
    → same_registry registry next supply ≡ true
    → (next.current_supply ≡ supply)
      × (next.authority ≡ registry.authority)
      × (next.max_supply ≡ registry.max_supply)
same_registry_facts registry next supply h = (
  ground arith,
  bytes_eq→≡ next.authority registry.authority (ground arith),
  option_eq→≡ next.max_supply registry.max_supply (ground arith),
)

check_nonce-next :
    (registry next : TokenRegistryDatum) (nonce : ℕ)
    → check_nonce registry next nonce ≡ ok tt
    → next.nonce ≡ suc registry.nonce
unfolding check_nonce
check_nonce-next registry next nonce h = ground arith

balance_of :
    (registry next : TokenRegistryDatum) (input_total output_total supply : ℕ)
    → supply + input_total ≡ registry.current_supply + output_total
    → next.nonce ≡ suc registry.nonce
    → same_registry registry next supply ≡ true
    → within_max next.max_supply supply ≡ true
    → IsBalanced registry next input_total output_total
balance_of registry next input_total output_total supply moved counted same bounded =
    let (supply_eq, authority_eq, max_eq) = same_registry_facts registry next supply same in
    record {
      supply_moves = rw supply_eq moved;
      nonce_next = counted;
      authority_same = authority_eq;
      max_supply_same = max_eq;
      supply_bounded = rw supply_eq bounded;
    }

check_supply-IsBalanced :
    (redeemer : Scy20Redeemer) (registry next : TokenRegistryDatum) (input_total output_total : ℕ)
    → next.nonce ≡ suc registry.nonce
    → check_supply redeemer registry next input_total output_total ≡ ok tt
    → IsBalanced registry next input_total output_total
unfolding check_supply
check_supply-IsBalanced redeemer registry next i o counted h =
    elim (Option-cases (supply_delta redeemer i o)) [
      | inl refused ↦ absurd (ground arith)
      | inr (delta, moved) ↦
          elim (Result-cases (expected_supply redeemer registry.current_supply delta)) [
            | inr (e, refused) ↦ absurd (ground arith)
            | inl (supply, reached) ↦
                balance_of registry next i o supply
                  (supply_balance redeemer registry.current_supply i o delta supply moved reached)
                  counted (ground arith) (ground arith)
          ]
    ]

module _ (verify_ed25519 : Bytes → Bytes → Bytes → Bool)
    (decode_registry : Bytes → Option TokenRegistryDatum)
    (decode_token : Bytes → Option Scy20Datum) where
  -- The registries and the totals that an execution looked at.
  pub record IsAccepted (token_id : Bytes) (ctx : TxContext) : Type 0 where
    pub registry : TokenRegistryDatum
    pub next_registry : TokenRegistryDatum
    pub input_total : ℕ
    pub output_total : ℕ
    pub registry_found : find_registry decode_registry token_id ctx.ledger_state ≡ ok registry
    pub next_found : find_registry decode_registry token_id ctx.output_datums ≡ ok next_registry
    pub input_sum : canonical_token_total decode_token ctx.input_datums token_id ≡ ok input_total
    pub output_sum : canonical_token_total decode_token ctx.output_datums token_id ≡ ok output_total
    pub balanced : IsBalanced registry next_registry input_total output_total

  accepted :
      (datum : Scy20Datum) (redeemer : Scy20Redeemer) (ctx : TxContext)
      (registry next : TokenRegistryDatum)
      → find_registry decode_registry datum.token_id ctx.ledger_state ≡ ok registry
      → find_registry decode_registry datum.token_id ctx.output_datums ≡ ok next
      → validate_scy20_execution verify_ed25519 decode_registry decode_token datum redeemer ctx
        ≡ ok tt
      → IsAccepted datum.token_id ctx
  unfolding validate_scy20_execution
  accepted datum redeemer ctx registry next found next_found h =
      let (nonce, signed, h1) =
        >>=-eq-ok (signed_nonce verify_ed25519 datum registry redeemer ctx.tx_hash) _
          (rw (found, next_found) at h) in
      let counted = check_nonce-next registry next nonce (ground arith) in
      elim (Result-cases (canonical_token_total decode_token ctx.input_datums datum.token_id)) [
        | inr (e, f) ↦ absurd (ground arith)
        | inl (i, i_sum) ↦
            elim (Result-cases
              (canonical_token_total decode_token ctx.output_datums datum.token_id)) [
                | inr (e, f) ↦ absurd (ground arith)
                | inl (o, o_sum) ↦ record {
                  registry = registry;
                  next_registry = next;
                  input_total = i;
                  output_total = o;
                  registry_found = found;
                  next_found = next_found;
                  input_sum = i_sum;
                  output_sum = o_sum;
                  balanced =
                      check_supply-IsBalanced redeemer registry next i o counted (ground arith);
                }
              ]
      ]

  -- An execution that is accepted has found a registry of the token in the ledger state and the one that takes
  -- its place among the outputs; the recorded supply changes by as much as the totals of the tokens in the
  -- inputs and the outputs differ, for a transfer, a mint and a burn; the nonce is one higher, the authority
  -- and the bound are the same, and the supply is within the bound.
  pub validate_scy20_execution-IsAccepted :
      (datum : Scy20Datum) (redeemer : Scy20Redeemer) (ctx : TxContext)
      → validate_scy20_execution verify_ed25519 decode_registry decode_token datum redeemer ctx
        ≡ ok tt
      → IsAccepted datum.token_id ctx
  unfolding validate_scy20_execution
  validate_scy20_execution-IsAccepted datum redeemer ctx h =
      elim (Result-cases (find_registry decode_registry datum.token_id ctx.ledger_state)) [
        | inr (e, f) ↦ absurd (ground arith)
        | inl (registry, found) ↦
            elim (Result-cases (find_registry decode_registry datum.token_id ctx.output_datums)) [
              | inr (e, f) ↦ absurd (ground arith)
              | inl (next, next_found) ↦
                  accepted datum redeemer ctx registry next found next_found h
            ]
      ]

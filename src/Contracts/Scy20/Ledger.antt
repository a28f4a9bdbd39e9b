-- ===== src/Contracts/Scy20/Ledger.antt =====
-- A run of executions of contracts/scy20/src/validator.rs, each on the datums that the one before it left.
use scytale.Base.{ℕ, suc, ◌+◌, ◌≡◌, refl, sym, ap, ◌∙◌, Bool, List, ok, ok-injective, subst, arith}
use scytale.Base.Bytes.{Bytes}
use scytale.Sdk.{TxContext}
use scytale.Contracts.Scy20.{
  Scy20Datum, TokenRegistryDatum, Scy20Redeemer, find_registry, canonical_token_total,
  validate_scy20_execution,
}
use scytale.Contracts.Scy20.Supply.{validate_scy20_execution-IsAccepted, IsAccepted}
use mathlib.Core.Option.{Option}

module _ (verify_ed25519 : Bytes → Bytes → Bytes → Bool)
    (decode_registry : Bytes → Option TokenRegistryDatum)
    (decode_token : Bytes → Option Scy20Datum) where
  -- The datums of a token after a number of executions.
  pub data Executed (token_id : Bytes) (first : List Bytes) : ℕ → List Bytes → Type 0 where
    start : Executed token_id first 0 first
    spend :
        {n : ℕ} {datums : List Bytes}
        → Executed token_id first n datums
        → (datum : Scy20Datum) (redeemer : Scy20Redeemer) (ctx : TxContext)
        → datum.token_id ≡ token_id
        → ctx.input_datums ≡ datums
        → ctx.ledger_state ≡ datums
        → validate_scy20_execution verify_ed25519 decode_registry decode_token datum redeemer ctx
          ≡ ok tt
        → Executed token_id first (suc n) ctx.output_datums

  module _ (token_id : Bytes) (first : List Bytes) (registry : TokenRegistryDatum) (total : ℕ) where
    -- The registry and the total of the tokens among the datums that are left.
    pub record IsLedger (n : ℕ) (datums : List Bytes) : Type 0 where
      pub last : TokenRegistryDatum
      pub last_total : ℕ
      pub last_found : find_registry decode_registry token_id datums ≡ ok last
      pub last_sum : canonical_token_total decode_token datums token_id ≡ ok last_total
      pub supply_follows : last.current_supply + total ≡ registry.current_supply + last_total
      pub nonce_counts : last.nonce ≡ registry.nonce + n
      pub authority_stays : last.authority ≡ registry.authority
      pub max_supply_stays : last.max_supply ≡ registry.max_supply

    spent :
        {n : ℕ} {datums : List Bytes} (ctx : TxContext)
        → ctx.input_datums ≡ datums
        → ctx.ledger_state ≡ datums
        → IsLedger n datums
        → IsAccepted verify_ed25519 decode_registry decode_token token_id ctx
        → IsLedger (suc n) ctx.output_datums
    spent {n} {datums} ctx inputs ledger was now =
        let r = ok-injective (
          sym now.registry_found
          ∙ ap (find_registry decode_registry token_id) ledger
          ∙ was.last_found) in
        let t = ok-injective (
          sym now.input_sum
          ∙ ap (λ ds. canonical_token_total decode_token ds token_id) inputs
          ∙ was.last_sum) in
        record {
          last = now.next_registry;
          last_total = now.output_total;
          last_found = now.next_found;
          last_sum = now.output_sum;
          supply_follows =
              let e = ap (λ x. x.current_supply) r in
              let m = now.balanced.supply_moves in let w = was.supply_follows in omega arith;
          nonce_counts =
              let e = ap (λ x. x.nonce) r in
              let m = now.balanced.nonce_next in let w = was.nonce_counts in omega arith;
          authority_stays =
              now.balanced.authority_same ∙ ap (λ x. x.authority) r ∙ was.authority_stays;
          max_supply_stays =
              now.balanced.max_supply_same ∙ ap (λ x. x.max_supply) r ∙ was.max_supply_stays;
        }

    -- However many executions follow one another, each on the datums that the last one left, the recorded
    -- supply is apart from the first one by as much as the totals of the tokens are, the nonce counts the
    -- executions, and the authority and the bound never change.
    pub Executed-IsLedger :
        {n : ℕ} {datums : List Bytes}
        → find_registry decode_registry token_id first ≡ ok registry
        → canonical_token_total decode_token first token_id ≡ ok total
        → Executed token_id first n datums
        → IsLedger n datums
    Executed-IsLedger found sum start = record {
      last = registry;
      last_total = total;
      last_found = found;
      last_sum = sum;
      supply_follows = omega arith;
      nonce_counts = omega arith;
      authority_stays = refl;
      max_supply_stays = refl;
    }
    Executed-IsLedger found sum (spend before datum redeemer ctx same inputs ledger done) =
        spent ctx inputs ledger (Executed-IsLedger found sum before) (
          subst (λ t. IsAccepted verify_ed25519 decode_registry decode_token t ctx) same
            (validate_scy20_execution-IsAccepted verify_ed25519 decode_registry decode_token datum
              redeemer ctx done))

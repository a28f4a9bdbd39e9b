-- ===== src/Contracts/Scy20/Issue.antt =====
-- The registry of a token is counted among the tokens by contracts/scy20/src/validator.rs, where the decoder
-- reads the front of longer data.
use scytale.Base.{
  ℕ, suc, ◌+◌, ◌≡◌, refl, ap, inl, inr, Bool, true, false, Option, none, some, List, [], ◌∷◌, ◌==◌,
  ok, ok-injective, Bool-cases, Option-cases, subst, arith,
}
use scytale.Base.Bytes.{Bytes, bytes_eq}
use scytale.Sdk.{TxContext}
use scytale.Contracts.Scy20.{
  Scy20Datum, TokenRegistryDatum, Scy20Redeemer, checked_add_u128, find_registry, token_total_from,
  canonical_token_total, validate_scy20_execution,
}
use scytale.Contracts.Scy20.Supply.{validate_scy20_execution-IsAccepted, IsAccepted}

-- A registry read as a token: its first three fields.
abbrev pub front : TokenRegistryDatum → Scy20Datum
front r = record { token_id = r.token_id; owner = r.authority; amount = r.current_supply }

module _ (decode_registry : Bytes → Option TokenRegistryDatum)
    (decode_token : Bytes → Option Scy20Datum) (token_id : Bytes) where
  -- How many datums are registries of the token, and the supply they record.
  unfoldable pub registry_count : List Bytes → ℕ
  registry_count [] = 0
  registry_count (b ∷ bs) = elim (decode_registry b) [
    | none ↦ registry_count bs
    | some r ↦ elim (bytes_eq r.token_id token_id) [
      | false ↦ registry_count bs
      | true ↦ suc (registry_count bs)
    ]
  ]

  unfoldable pub registry_total : List Bytes → ℕ
  registry_total [] = 0
  registry_total (b ∷ bs) = elim (decode_registry b) [
    | none ↦ registry_total bs
    | some r ↦ elim (bytes_eq r.token_id token_id) [
      | false ↦ registry_total bs
      | true ↦ r.current_supply + registry_total bs
    ]
  ]

  -- The tokens in the datums that are not registries.
  unfoldable pub holdings : List Bytes → ℕ
  holdings [] = 0
  holdings (b ∷ bs) = elim (decode_registry b) [
    | some r ↦ holdings bs
    | none ↦ elim (decode_token b) [
      | none ↦ holdings bs
      | some d ↦ elim (bytes_eq d.token_id token_id) [
        | false ↦ holdings bs
        | true ↦ d.amount + holdings bs
      ]
    ]
  ]

  no_registry : (bs : List Bytes) → registry_count bs ≡ 0 → registry_total bs ≡ 0
  unfolding registry_count registry_total
  no_registry [] h = refl
  no_registry (b ∷ bs) h = elim (Option-cases (decode_registry b)) [
    | inl f ↦ ground (arith, no_registry bs)
    | inr (r, f) ↦ elim (Bool-cases (bytes_eq r.token_id token_id)) [
      | inl e ↦ absurd (ground arith)
      | inr e ↦ ground (arith, no_registry bs)
    ]
  ]

  one_registry :
      (bs : List Bytes) (registry : TokenRegistryDatum)
      → registry_count bs ≡ 1
      → find_registry decode_registry token_id bs ≡ ok registry
      → registry_total bs ≡ registry.current_supply
  unfolding registry_count registry_total find_registry
  one_registry [] registry h k = absurd (ground arith)
  one_registry (b ∷ bs) registry h k = elim (Option-cases (decode_registry b)) [
    | inl f ↦ ground (arith, one_registry bs registry)
    | inr (r, f) ↦ elim (Bool-cases (bytes_eq r.token_id token_id)) [
      | inl e ↦
          let none_left = no_registry bs (ground arith) in
          let same : r ≡ registry = ok-injective (rw (find_registry, f, e) at k) in
          ground (arith, ap (λ x. x.current_supply) same)
      | inr e ↦ ground (arith, one_registry bs registry)
    ]
  ]

  module _
      (reads_front : (bytes : Bytes) (r : TokenRegistryDatum)
        → decode_registry bytes ≡ some r
        → decode_token bytes ≡ some (front r)) where
    -- One token more.
    counted :
        (total sum : ℕ) (b : Bytes) (bs : List Bytes) (d : Scy20Datum)
        → ((t : ℕ)
            → token_total_from decode_token t token_id bs ≡ ok sum
            → sum ≡ t + (holdings bs + registry_total bs))
        → decode_token b ≡ some d
        → bytes_eq d.token_id token_id ≡ true
        → token_total_from decode_token total token_id (b ∷ bs) ≡ ok sum
        → sum ≡ total + d.amount + (holdings bs + registry_total bs)
    unfolding token_total_from
    counted total sum b bs d rest f e h = elim (Bool-cases (d.amount == 0)) [
      | inl z ↦ absurd (ground arith)
      | inr z ↦ elim (Option-cases (checked_add_u128 total d.amount)) [
        | inl full ↦ absurd (ground arith)
        | inr (t, fits) ↦ ground (arith, rest t)
      ]
    ]

    -- The total of the validator is that of the tokens and what the registries record.
    token_total_from_value :
        (total sum : ℕ) (bs : List Bytes)
        → token_total_from decode_token total token_id bs ≡ ok sum
        → sum ≡ total + (holdings bs + registry_total bs)
    unfolding token_total_from holdings registry_total
    token_total_from_value total sum [] h = ground arith
    token_total_from_value total sum (b ∷ bs) h = elim (Option-cases (decode_registry b)) [
      | inl f ↦ elim (Option-cases (decode_token b)) [
        | inl g ↦ ground (arith, token_total_from_value total sum bs)
        | inr (d, g) ↦ elim (Bool-cases (bytes_eq d.token_id token_id)) [
          | inr e ↦ ground (arith, token_total_from_value total sum bs)
          | inl e ↦
              ground (arith, counted total sum b bs d (λ t. token_total_from_value t sum bs) g e h)
        ]
      ]
      | inr (r, f) ↦ elim (Bool-cases (bytes_eq r.token_id token_id)) [
        | inr e ↦ ground (arith, token_total_from_value total sum bs, reads_front b r f)
        | inl e ↦ ground (
          arith,
          counted total sum b bs (front r) (λ t. token_total_from_value t sum bs)
              (reads_front b r f) e h,
        )
      ]
    ]

    -- Where the decoder of tokens reads a registry as a token of the supply it records, and the inputs, which
    -- are the ledger state, and the outputs have one registry of the token each, an execution that is accepted
    -- leaves the tokens outside the registries as many as they were: a mint issues none and a burn destroys
    -- none, however the recorded supply changes.
    pub validate_scy20_execution_issues_nothing :
        (verify_ed25519 : Bytes → Bytes → Bytes → Bool) (datum : Scy20Datum)
        (redeemer : Scy20Redeemer) (ctx : TxContext)
        → datum.token_id ≡ token_id
        → ctx.ledger_state ≡ ctx.input_datums
        → registry_count ctx.input_datums ≡ 1
        → registry_count ctx.output_datums ≡ 1
        → validate_scy20_execution verify_ed25519 decode_registry decode_token datum redeemer ctx
          ≡ ok tt
        → holdings ctx.output_datums ≡ holdings ctx.input_datums
    unfolding canonical_token_total
    validate_scy20_execution_issues_nothing verify_ed25519 datum redeemer ctx same ledger one_in
          one_out h =
        let a =
          subst (λ t. IsAccepted verify_ed25519 decode_registry decode_token t ctx) same
            (validate_scy20_execution-IsAccepted verify_ed25519 decode_registry decode_token datum
              redeemer ctx h) in
        let found =
          subst (λ ds. find_registry decode_registry token_id ds ≡ ok a.registry) ledger
            a.registry_found in
        let ins = one_registry ctx.input_datums a.registry one_in found in
        let outs = one_registry ctx.output_datums a.next_registry one_out a.next_found in
        let in_sum = token_total_from_value 0 a.input_total ctx.input_datums a.input_sum in
        let out_sum = token_total_from_value 0 a.output_total ctx.output_datums a.output_sum in
        let moved = a.balanced.supply_moves in omega arith

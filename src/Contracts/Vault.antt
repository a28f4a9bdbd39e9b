-- ===== src/Contracts/Vault.antt =====
-- contracts/vault/src/lib.rs: a time lock with an emergency exit. The decoders of the payloads (bincode) and the
-- Ed25519 check are parameters.
use scytale.Base.{
  ℕ, ◌≤◌, ◌≡◌, ◌↔◌, inl, inr, Bool, true, false, ◌&&◌, Option, none, some, leb, Option-cases,
  if◌then◌else◌, arith,
}
use scytale.Base.Bytes.{Bytes}
use scytale.Sdk.{TxContext, parse_raw_slice, validation_success, validation_reject}

pub record VaultDatum : Type 0 where
  pub owner_pubkey : Bytes
  pub unlock_time : ℕ
  pub emergency_key : Bytes
  pub penalty_fee : ℕ

pub data VaultRedeemer : Type 0 where
  normal_withdraw : Bytes → VaultRedeemer
  emergency_rescue : Bool → Bytes → VaultRedeemer

-- A pointer and its length, and the decoder of what they name.
abbrev pub decoded : {A : Type 0} → (Bytes → Option A) → Option Bytes → ℕ → Option A
decoded decode_payload pointer len = elim (parse_raw_slice pointer len) [
  | none ↦ none
  | some bytes ↦ decode_payload bytes
]

module _ (verify_ed25519 : Bytes → Bytes → Bytes → Bool) where
  -- The arms of the `match` on the redeemer.
  unfoldable pub check_redeemer : VaultDatum → VaultRedeemer → TxContext → ℕ
  check_redeemer datum (normal_withdraw signature) ctx =
      if leb datum.unlock_time ctx.block_time
        && verify_ed25519 datum.owner_pubkey signature ctx.tx_hash
      then validation_success
      else validation_reject
  check_redeemer datum (emergency_rescue penalty_accepted signature) ctx =
      if penalty_accepted
        && leb datum.penalty_fee ctx.fee_burned
        && verify_ed25519 datum.emergency_key signature ctx.tx_hash
      then validation_success
      else validation_reject

  module _ (decode_datum : Bytes → Option VaultDatum)
      (decode_redeemer : Bytes → Option VaultRedeemer)
      (decode_context : Bytes → Option TxContext) where
    unfoldable pub validate : Option Bytes → ℕ → Option Bytes → ℕ → Option Bytes → ℕ → ℕ
    unfolding check_redeemer
    validate datum_ptr datum_len redeemer_ptr redeemer_len ctx_ptr ctx_len =
        elim (decoded decode_datum datum_ptr datum_len) [
          | none ↦ validation_reject
          | some datum ↦ elim (decoded decode_redeemer redeemer_ptr redeemer_len) [
            | none ↦ validation_reject
            | some redeemer ↦ elim (decoded decode_context ctx_ptr ctx_len) [
              | none ↦ validation_reject
              | some ctx ↦ check_redeemer datum redeemer ctx
            ]
          ]
        ]

  -- What the contract asks for: the owner's signature from the unlock time on, or, with the penalty accepted
  -- and burned as a fee, the signature of the emergency key.
  pub data Released (datum : VaultDatum) (ctx : TxContext) : VaultRedeemer → Type 0 where
    withdrawn :
        (signature : Bytes)
        → datum.unlock_time ≤ ctx.block_time
        → verify_ed25519 datum.owner_pubkey signature ctx.tx_hash ≡ true
        → Released datum ctx (normal_withdraw signature)
    rescued :
        (signature : Bytes)
        → datum.penalty_fee ≤ ctx.fee_burned
        → verify_ed25519 datum.emergency_key signature ctx.tx_hash ≡ true
        → Released datum ctx (emergency_rescue true signature)

  check_redeemer-Released :
      (datum : VaultDatum) (redeemer : VaultRedeemer) (ctx : TxContext)
      → check_redeemer datum redeemer ctx ≡ validation_success
      → Released datum ctx redeemer
  unfolding check_redeemer
  check_redeemer-Released datum (normal_withdraw signature) ctx h =
      withdrawn signature (ground arith) (ground arith)
  check_redeemer-Released datum (emergency_rescue false signature) ctx h = absurd (ground arith)
  check_redeemer-Released datum (emergency_rescue true signature) ctx h =
      rescued signature (ground arith) (ground arith)

  Released-check_redeemer :
      (datum : VaultDatum) (redeemer : VaultRedeemer) (ctx : TxContext)
      → Released datum ctx redeemer
      → check_redeemer datum redeemer ctx ≡ validation_success
  unfolding check_redeemer
  Released-check_redeemer datum redeemer ctx (withdrawn signature late signed) = ground arith
  Released-check_redeemer datum redeemer ctx (rescued signature burned signed) = ground arith

  module _ (decode_datum : Bytes → Option VaultDatum)
      (decode_redeemer : Bytes → Option VaultRedeemer)
      (decode_context : Bytes → Option TxContext) where
    -- The contract accepts exactly when its three arguments decode, and either the owner has signed the hash of
    -- the transaction at or after the unlock time, or the penalty is accepted, the fee covers it and the
    -- emergency key has signed.
    pub validate_iff :
        (datum_ptr : Option Bytes) (datum_len : ℕ) (redeemer_ptr : Option Bytes) (redeemer_len : ℕ)
        (ctx_ptr : Option Bytes) (ctx_len : ℕ)
        → (validate decode_datum decode_redeemer decode_context datum_ptr datum_len redeemer_ptr
              redeemer_len ctx_ptr ctx_len
            ≡ validation_success)
          ↔ ((datum : VaultDatum) × (redeemer : VaultRedeemer) × (ctx : TxContext) × (decoded
                  decode_datum datum_ptr datum_len
                ≡ some datum)
              × (decoded decode_redeemer redeemer_ptr redeemer_len ≡ some redeemer)
              × (decoded decode_context ctx_ptr ctx_len ≡ some ctx)
              × Released datum ctx redeemer)
    unfolding validate
    validate_iff dp dl rp rl cp cl = (
      (λ h. elim (Option-cases (decoded decode_datum dp dl)) [
        | inl f ↦ absurd (ground arith)
        | inr (d, df) ↦ elim (Option-cases (decoded decode_redeemer rp rl)) [
          | inl f ↦ absurd (ground arith)
          | inr (r, rf) ↦ elim (Option-cases (decoded decode_context cp cl)) [
            | inl f ↦ absurd (ground arith)
            | inr (c, cf) ↦ (d, r, c, df, rf, cf, check_redeemer-Released d r c (ground arith))
          ]
        ]
      ]),
      (λ (d, r, c, df, rf, cf, released). ground (arith, Released-check_redeemer d r c released)),
    )

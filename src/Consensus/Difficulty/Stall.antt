-- ===== src/Consensus/Difficulty/Stall.antt =====
-- The cap of the default configuration has no compact form, so a header cannot name it.
use native.Mathlib.Nat.{pow-suc, div-le_self}
use scytale.Base.{
  ℕ, zero, suc, ◌-◌, ◌*◌, ◌/◌, ◌%◌, ◌^◌, ◌≤◌, ◌<◌, ◌≡◌, ◌≢◌, refl, sym, ap, ◌∙◌, inl, inr, ok, err,
  Bool-cases, arith,
}
use scytale.Base.Bytes.{bytes_eq, bytes_eq→≡}
use scytale.Base.Endian.{from_be_bytes, from_be_bytes-injective}
use scytale.Core.Types.{BlockHeader}
use scytale.Consensus.Target.{Target, from_compact, exponent, mantissa}
use scytale.Consensus.Target.Compact.{IsTarget, compact_value, from_compact_value}
use scytale.Consensus.Difficulty.{
  target_mismatch, default_config, default_max_target, calculate_next_target, validate_block_target,
}
use scytale.Consensus.Difficulty.Retarget.{IsConfig, clamped, expected, calculate_next_target_value}

-- A compact value is small, or a multiple of 256, or the largest target.
even_digits : (m k : ℕ) → 0 < k → m * 256 ^ k % 256 ≡ 0
even_digits m zero h = absurd (omega arith)
even_digits m (suc k) h =
    let e : m * 256 ^ suc k ≡ m * 256 ^ k * 256 =
      omega (arith, ap (λ (t : ℕ). m * t) (pow-suc 256 k)) in
    rw e (omega arith)

compact_value-ne_cap : (c : ℕ) → compact_value c ≢ 2 ^ 236 - 1
compact_value-ne_cap c = ground (
  arith,
  even_digits (mantissa c) (exponent c - 3),
  div-le_self (mantissa c) (2 ^ (8 * (3 - exponent c))),
)

-- No header can carry a target that is the default cap: whatever its compact field, it is refused.
pub validate_block_target-default_max_target :
    (h : BlockHeader)
    → validate_block_target h default_max_target
      ≡ err (target_mismatch default_max_target (from_compact h.difficulty_target))
unfolding validate_block_target
validate_block_target-default_max_target h =
    elim (Bool-cases (bytes_eq (from_compact h.difficulty_target) default_max_target)) [
      | inr other ↦ rw other
      | inl same ↦ absurd (
          compact_value-ne_cap h.difficulty_target (
            sym (from_compact_value h.difficulty_target)
            ∙ ap from_be_bytes
                (bytes_eq→≡ (from_compact h.difficulty_target) default_max_target same)))
    ]

default_config-IsConfig : IsConfig default_config
default_config-IsConfig = record {
  cap = record { same_length = refl; in_range = omega arith };
  expects = omega arith;
  clamps = omega arith;
  fits = omega arith;
}

-- So the chain stops where a retarget runs into the cap: the expected target is then the cap itself, and
-- every header is refused.
pub capped_retarget_refuses :
    (t : Target) (start end_time : ℕ) (h : BlockHeader)
    → IsTarget t
    → start < end_time
    → 2 ^ 236
      ≤ from_be_bytes t * clamped default_config (end_time - start) / expected default_config
    → (calculate_next_target t start end_time default_config ≡ ok default_max_target)
      × (validate_block_target h default_max_target
          ≡ err (target_mismatch default_max_target (from_compact h.difficulty_target)))
capped_retarget_refuses t start end_time h ht later over =
    let (r, e, hr, v) =
      calculate_next_target_value t start end_time default_config ht default_config-IsConfig
        later in
    let cap : IsTarget default_max_target = default_config-IsConfig.cap in
    let value : from_be_bytes r ≡ from_be_bytes default_max_target = v ∙ omega arith in
    (
      e
          ∙ ap (λ (u : Target). ok u)
              (from_be_bytes-injective r default_max_target hr.in_range cap.in_range
                (hr.same_length ∙ sym cap.same_length) value),
      validate_block_target-default_max_target h,
    )

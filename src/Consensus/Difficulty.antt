-- ===== src/Consensus/Difficulty.antt =====
-- crates/scytale-consensus/src/difficulty.rs: retargeting in integers. A `u128` that holds `rem << 64 | limb`
-- never overflows, since the remainder is below a `u64` divisor.
pub mod Division
pub mod Retarget
pub mod Stall
use scytale.Base.{
  ℕ, ◌+◌, ◌-◌, ◌*◌, ◌/◌, ◌%◌, Bool, not, List, [], ◌∷◌, ltb, leb, ◌==◌, ◌||◌, if◌then◌else◌,
  replicate, ◌++◌, Result, ok, err, ◌>>=◌, ◌>>◌, guard, ok_or,
}
use scytale.Base.Bits.{shl_or}
use scytale.Base.Bytes.{bytes_eq}
use scytale.Base.Endian.{bytes_leb}
use scytale.Base.Words.{checked_mul}
use scytale.Core.Types.{BlockHeader}
use scytale.Consensus.Limbs.{Limbs, word, of_be_bytes, to_bytes}
use scytale.Consensus.Target.{Target, max_bytes, zero_bytes, from_compact}

pub data DifficultyError : Type 0 where
  target_mismatch : Target → Target → DifficultyError
  invalid_epoch_window : ℕ → ℕ → DifficultyError
  invalid_observed_time : ℕ → ℕ → DifficultyError
  arithmetic_overflow : DifficultyError

pub record DifficultyConfig : Type 0 where
  pub epoch_blocks : ℕ
  pub target_block_interval_secs : ℕ
  pub clamping_factor : ℕ
  pub max_target : Target

-- `DifficultyConfig::default()`.
abbrev pub default_max_target : Target
default_max_target = 0 ∷ 0 ∷ 0x0f ∷ replicate 29 0xff

abbrev pub default_config : DifficultyConfig
default_config = record {
  epoch_blocks = 1440;
  target_block_interval_secs = 60;
  clamping_factor = 4;
  max_target = default_max_target;
}

-- `[u64; 5]`: the top limb, and the four below it.
pub record Wide : Type 0 where
  pub top : ℕ
  pub low : Limbs

-- The loop `for i in (0..4).rev()` with its `u128` carry.
unfoldable pub multiply : Limbs → ℕ → Wide
multiply a m =
    let c3 = a.w3 * m in
    let c2 = a.w2 * m + c3 / word in
    let c1 = a.w1 * m + c2 / word in
    let c0 = a.w0 * m + c1 / word in
    record {
      top = c0 / word % word;
      low = record { w0 = c0 % word; w1 = c1 % word; w2 = c2 % word; w3 = c3 % word };
    }

-- `cur = (rem << 64) | prod[i]`.
abbrev pub current : ℕ → ℕ → ℕ
current rem limb = shl_or 64 rem limb

-- The loop `for i in 0..5`: the quotient digits are cut to a `u64`, the remainder goes on.
unfoldable pub divide : Wide → ℕ → Wide
divide p d =
    let n0 = current 0 p.top in
    let n1 = current (n0 % d) p.low.w0 in
    let n2 = current (n1 % d) p.low.w1 in
    let n3 = current (n2 % d) p.low.w2 in
    let n4 = current (n3 % d) p.low.w3 in
    record {
      top = n0 / d % word;
      low = record {
        w0 = n1 / d % word;
        w1 = n2 / d % word;
        w2 = n3 / d % word;
        w3 = n4 / d % word;
      };
    }

unfoldable pub scale_target_by_ratio : Target → ℕ → ℕ → Result DifficultyError Target
scale_target_by_ratio target multiplier divisor =
    if divisor == 0
    then err arithmetic_overflow
    else if multiplier == 0
    then ok zero_bytes
    else (let quot = divide (multiply (of_be_bytes target) multiplier) divisor in
        if ltb 0 quot.top then ok max_bytes else ok (to_bytes quot.low))

-- `u64::clamp`.
abbrev pub clamp : ℕ → ℕ → ℕ → ℕ
clamp x lo hi = if ltb x lo then lo else if ltb hi x then hi else x

unfoldable pub calculate_next_target :
    Target → ℕ → ℕ → DifficultyConfig → Result DifficultyError Target
calculate_next_target current_target epoch_start_time epoch_end_time config = do
  guard (ltb epoch_start_time epoch_end_time)
      (invalid_observed_time epoch_start_time epoch_end_time)
  expected_time ←
      ok_or (checked_mul config.epoch_blocks config.target_block_interval_secs) arithmetic_overflow
  guard (not ((expected_time == 0) || (config.clamping_factor == 0))) arithmetic_overflow
  max_time ← ok_or (checked_mul expected_time config.clamping_factor) arithmetic_overflow
  calculated ←
      scale_target_by_ratio current_target
        (clamp (epoch_end_time - epoch_start_time) (expected_time / config.clamping_factor)
          max_time)
        expected_time
  ok (if bytes_leb calculated config.max_target then calculated else config.max_target)

unfoldable pub validate_block_target : BlockHeader → Target → Result DifficultyError (Unit {0})
validate_block_target header expected_target =
    let header_target = from_compact header.difficulty_target in
    guard (bytes_eq header_target expected_target) (target_mismatch expected_target header_target)

-- ===== src/Tests/Targets.antt =====
-- The theorems of targets, retargets and work at small inputs.
use scytale.Base.{ℕ, ◌+◌, ◌/◌, ◌%◌, ◌^◌, ◌≡◌, refl, [], ◌∷◌, ◌++◌, replicate, ok, err, arith}
use scytale.Base.Endian.{from_be_bytes}
use scytale.Consensus.Limbs.{Limbs, value}
use scytale.Consensus.Target.{Target, from_compact, to_compact}
use scytale.Consensus.Target.Compact.{IsTarget}
use scytale.Consensus.Target.Roundtrip.{IsNormal, to_compact-from_compact}
use scytale.Consensus.Difficulty.{
  default_config, default_max_target, calculate_next_target, validate_block_target, target_mismatch,
}
use scytale.Consensus.Difficulty.Retarget.{Gives, IsConfig, retargeted, calculate_next_target_value}
use scytale.Consensus.Difficulty.Stall.{capped_retarget_refuses}
use scytale.Consensus.Work.{block_work}
use scytale.Consensus.Work.Quotient.{block_work_value}
use scytale.Tests.Data.{draft_header}

abbrev bits : ℕ
bits = 0x1f00ffff

bits-IsNormal : IsNormal 0x1e0fffff
bits-IsNormal = record {
  non_negative = refl;
  at_least = omega arith;
  at_most = omega arith;
  leading = omega arith;
}

to_compact-from_compact_example : to_compact (from_compact 0x1e0fffff) ≡ 0x1e0fffff
to_compact-from_compact_example = to_compact-from_compact 0x1e0fffff (omega arith) bits-IsNormal

abbrev wide : Target
wide = 0x80 ∷ replicate 31 0

wide-IsTarget : IsTarget wide
wide-IsTarget = record { same_length = refl; in_range = omega arith }

default-IsConfig : IsConfig default_config
default-IsConfig = record {
  cap = record { same_length = refl; in_range = omega arith };
  expects = omega arith;
  clamps = omega arith;
  fits = omega arith;
}

calculate_next_target_value_example :
    Gives
      (calculate_next_target wide 1_000 90_000 default_config)
      (retargeted default_config (from_be_bytes wide) 89_000)
calculate_next_target_value_example =
    calculate_next_target_value wide 1_000 90_000 default_config wide-IsTarget default-IsConfig
      (omega arith)

abbrev small : Target
small = replicate 31 0 ++ 100 ∷ []

capped_retarget_refuses_example :
    (calculate_next_target default_max_target 1_000 90_000 default_config ≡ ok default_max_target)
    × (validate_block_target draft_header default_max_target
        ≡ err (target_mismatch default_max_target (from_compact draft_header.difficulty_target)))
capped_retarget_refuses_example =
    capped_retarget_refuses default_max_target 1_000 90_000 draft_header default-IsConfig.cap
      (omega arith) (omega arith)

block_work_value_example : value (block_work wide) ≡ 2 ^ 256 / (from_be_bytes wide + 1) % 2 ^ 256
block_work_value_example = block_work_value wide wide-IsTarget

abbrev limbs : ℕ → ℕ → Limbs
limbs hi lo = record { w0 = 0; w1 = 0; w2 = hi; w3 = lo }

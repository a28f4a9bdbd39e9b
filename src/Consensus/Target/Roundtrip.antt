-- ===== src/Consensus/Target/Roundtrip.antt =====
-- `to_compact` after and before `from_compact`.
use scytale.Base.{
  ℕ, zero, suc, ◌+◌, ◌-◌, ◌*◌, ◌/◌, ◌%◌, ◌^◌, ◌≤◌, ◌<◌, ◌≡◌, refl, ap, ◌∙◌, false, [], ◌∷◌, ◌++◌,
  length, drop, replicate, arith,
}
use scytale.Base.Bits.{shl_or_sum}
use scytale.Base.Bytes.{Bytes, IsBytes}
use scytale.Base.Endian.{to_be_bytes}
use scytale.Consensus.Target.{
  Target, max_bytes, exponent, mantissa, is_negative, place_mantissa, from_compact, to_compact,
  first_non_zero, byte_at, or_byte, leading_three,
}
use scytale.Consensus.Target.Compact.{IsTarget, place_mantissa-IsTarget}
use native.Mathlib.Decide.{dec_lt}

byte_at-lt : (bs : Bytes) (i : ℕ) → IsBytes bs → byte_at bs i < 256
byte_at-lt [] i h = omega arith
byte_at-lt (b ∷ bs) zero h = h.0
byte_at-lt (b ∷ bs) (suc i) h = byte_at-lt bs i h.1

byte_at_beyond : (bs : Bytes) (i : ℕ) → length bs ≤ i → byte_at bs i ≡ 0
byte_at_beyond [] i h = refl
byte_at_beyond (b ∷ bs) zero h = absurd (omega arith)
byte_at_beyond (b ∷ bs) (suc i) h = byte_at_beyond bs i (omega arith)

module _ (bs : Bytes) (t : IsTarget bs) where
  or_byte_mid : (i q : ℕ) → or_byte bs i 8 (q * 2 ^ 16) ≡ q * 2 ^ 16 + byte_at bs i * 2 ^ 8
  unfolding or_byte
  or_byte_mid i q = ground (
    arith,
    shl_or_sum 16 q (byte_at bs i * 2 ^ 8),
    byte_at-lt bs i t.in_range,
    byte_at_beyond bs i,
    t.same_length,
  )

  or_byte_low : (i q : ℕ) → or_byte bs i 0 (q * 2 ^ 8) ≡ q * 2 ^ 8 + byte_at bs i
  unfolding or_byte
  or_byte_low i q = ground (
    arith,
    shl_or_sum 8 q (byte_at bs i * 2 ^ 0),
    byte_at-lt bs i t.in_range,
    byte_at_beyond bs i,
    t.same_length,
  )

  leading_three_sum :
      (first : ℕ)
      → leading_three bs first
        ≡ byte_at bs first * 65536 + byte_at bs (first + 1) * 256 + byte_at bs (first + 2)
  unfolding leading_three
  leading_three_sum first =
      ap (λ (m : ℕ). or_byte bs (first + 2) 0 m)
        (or_byte_mid (first + 1) (byte_at bs first) ∙ omega arith)
      ∙ or_byte_low (first + 2) (byte_at bs first * 2 ^ 8 + byte_at bs (first + 1))
      ∙ omega arith

  to_compact_high :
      (first : ℕ)
      → first_non_zero bs ≡ first
      → first < 32
      → 0x7f < byte_at bs first
      → to_compact bs ≡ (33 - first) * 2 ^ 24 + (byte_at bs first * 256 + byte_at bs (first + 1))
  unfolding to_compact
  to_compact_high first e lt high = ground (
    arith,
    leading_three_sum first,
    byte_at-lt bs first t.in_range,
    byte_at-lt bs (first + 1) t.in_range,
    byte_at-lt bs (first + 2) t.in_range,
    shl_or_sum 24 (32 - first + 1) (leading_three bs first / 2 ^ 8 % 2 ^ 23) (omega arith),
  )

  to_compact_low :
      (first : ℕ)
      → first_non_zero bs ≡ first
      → first < 32
      → byte_at bs first ≤ 0x7f
      → to_compact bs
        ≡ (32 - first) * 2 ^ 24
          + (byte_at bs first * 65536 + byte_at bs (first + 1) * 256 + byte_at bs (first + 2))
  unfolding to_compact
  to_compact_low first e lt low = ground (
    arith,
    leading_three_sum first,
    byte_at-lt bs (first + 1) t.in_range,
    byte_at-lt bs (first + 2) t.in_range,
    shl_or_sum 24 (32 - first) (leading_three bs first % 2 ^ 23) (omega arith),
  )

from_compact_overflow :
    (c m : ℕ) → c ≡ 33 * 2 ^ 24 + m → 0 < m → m < 2 ^ 23 → from_compact c ≡ max_bytes
unfolding from_compact
from_compact_overflow c m e pos lt = ground arith

first_non_zero_lem : (bs : Bytes) → 0 < byte_at bs 0 → first_non_zero bs ≡ 0
first_non_zero_lem [] h = refl
first_non_zero_lem (b ∷ bs) h = ground arith

-- A target whose top bit is set has no compact form: its encoding is read back as the largest
-- target, whatever its other bits.
pub to_compact_overflow :
    (bs : Target) → IsTarget bs → 0x7f < byte_at bs 0 → from_compact (to_compact bs) ≡ max_bytes
to_compact_overflow bs t h =
    from_compact_overflow (to_compact bs) (byte_at bs 0 * 256 + byte_at bs 1)
      (to_compact_high bs t 0 (first_non_zero_lem bs (omega arith)) (omega arith) h) (omega arith)
      (omega (arith, byte_at-lt bs 0 t.in_range, byte_at-lt bs 1 t.in_range))

-- A compact target in normal form: not negative, with a leading digit, and within 32 bytes.
pub record IsNormal (c : ℕ) : Type 0 where
  pub non_negative : is_negative c ≡ false
  pub at_least : 3 ≤ exponent c
  pub at_most : exponent c ≤ 32
  pub leading : 0x8000 ≤ mantissa c

three_bytes :
    (m : ℕ)
    → m < 2 ^ 23
    → replicate 28 0 ++ to_be_bytes 4 (m / 2 ^ (8 * (3 - 3)))
      ≡ place_mantissa (32 - 3) (to_be_bytes 4 m)
unfolding place_mantissa
three_bytes m h = ground arith

from_compact_normal :
    (c : ℕ)
    → IsNormal c
    → from_compact c ≡ place_mantissa (32 - exponent c) (to_be_bytes 4 (mantissa c))
unfolding from_compact
from_compact_normal c n = ground (arith, three_bytes (mantissa c))

skip_zeros : (n : ℕ) (ys : Bytes) → first_non_zero (replicate n 0 ++ ys) ≡ n + first_non_zero ys
skip_zeros zero ys = omega arith
skip_zeros (suc n) ys = omega (arith, skip_zeros n ys)

byte_at_skip : (n i : ℕ) (ys : Bytes) → byte_at (replicate n 0 ++ ys) (n + i) ≡ byte_at ys i
byte_at_skip zero i ys = let e : 0 + i ≡ i = omega arith in rw e
byte_at_skip (suc n) i ys =
    let e : suc n + i ≡ suc (n + i) = omega arith in rw e (byte_at_skip n i ys)

byte_at_zeros : (n i : ℕ) → byte_at (replicate n 0) i ≡ 0
byte_at_zeros zero i = refl
byte_at_zeros (suc n) zero = refl
byte_at_zeros (suc n) (suc i) = byte_at_zeros n i

-- The digits of a placed mantissa, from its start.
module _ (s m : ℕ) where
  placed_digits :
      (i j : ℕ)
      → j ≡ s + i
      → byte_at (place_mantissa s (to_be_bytes 4 m)) j
        ≡ byte_at (drop 1 (to_be_bytes 4 m) ++ replicate (29 - s) 0) i
  unfolding place_mantissa
  placed_digits i j e = rw e (byte_at_skip s i (drop 1 (to_be_bytes 4 m) ++ replicate (29 - s) 0))

  placed_start :
      first_non_zero (place_mantissa s (to_be_bytes 4 m))
      ≡ s + first_non_zero (drop 1 (to_be_bytes 4 m) ++ replicate (29 - s) 0)
  unfolding place_mantissa
  placed_start = skip_zeros s _

  to_compact-place_mantissa :
      s ≤ 29
      → 0x8000 ≤ m
      → m < 2 ^ 23
      → to_compact (place_mantissa s (to_be_bytes 4 m)) ≡ (32 - s) * 2 ^ 24 + m
  to_compact-place_mantissa h lo hi = elim (dec_lt (m / 65536) 1) [
    | yes top ↦
        to_compact_high _ (place_mantissa-IsTarget s m h) (s + 1) (ground (arith, placed_start))
          (omega arith) (omega (arith, placed_digits 1 (s + 1) refl))
        ∙ omega (arith, placed_digits 1 (s + 1) refl, placed_digits 2 (s + 1 + 1) (omega arith))
    | no top ↦
        to_compact_low _ (place_mantissa-IsTarget s m h) s (ground (arith, placed_start))
          (omega arith) (omega (arith, placed_digits 0 s (omega arith)))
        ∙ omega (
          arith,
          placed_digits 0 s (omega arith),
          placed_digits 1 (s + 1) refl,
          placed_digits 2 (s + 2) refl,
        )
  ]

-- Every compact target in normal form is the encoding of the target that it stands for.
pub to_compact-from_compact : (c : ℕ) → c < 2 ^ 32 → IsNormal c → to_compact (from_compact c) ≡ c
to_compact-from_compact c lt n =
    ap to_compact (from_compact_normal c n)
    ∙ to_compact-place_mantissa (32 - exponent c) (mantissa c) (omega arith) n.leading (omega arith)
    ∙ ground arith

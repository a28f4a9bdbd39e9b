-- ===== src/Consensus/Target.antt =====
-- crates/scytale-consensus/src/target.rs. A target is its 32 bytes, most significant first; a
-- `u32` is a number below 2 ^ 32, and a mask of low bits is written as a remainder.
pub mod Compact
pub mod Roundtrip
use Prim.Native.Nat.{bit_or}
use scytale.Base.{
  ℕ, suc, ◌+◌, ◌-◌, ◌*◌, ◌/◌, ◌%◌, ◌^◌, Bool, ◌||◌, Option, none, some, List, [], ◌∷◌, ◌++◌, ltb,
  leb, ◌==◌, if◌then◌else◌, get_elem?, drop, replicate,
}
use scytale.Base.Bytes.{Bytes}
use scytale.Base.Endian.{to_be_bytes, bytes_leb}

abbrev pub Target : Type 0
Target = Bytes

-- `Target::max()` and `Target::zero()`.
abbrev pub max_bytes : Target
max_bytes = replicate 32 255

abbrev pub zero_bytes : Target
zero_bytes = replicate 32 0

-- The hash is at most the target, byte by byte.
unfoldable pub is_met_by : Target → Bytes → Bool
is_met_by target hash = bytes_leb hash target

abbrev pub exponent : ℕ → ℕ
exponent compact = compact / 2 ^ 24

abbrev pub mantissa : ℕ → ℕ
mantissa compact = compact % 2 ^ 23

abbrev pub is_negative : ℕ → Bool
is_negative compact = compact / 2 ^ 23 % 2 == 1

-- `bytes[start..start + 3] = m_bytes[1..4]` in an array of zeros.
unfoldable pub place_mantissa : ℕ → Bytes → Bytes
place_mantissa start m_bytes = replicate start 0 ++ (drop 1 m_bytes ++ replicate (29 - start) 0)

unfoldable pub from_compact : ℕ → Target
unfolding place_mantissa
from_compact compact =
    if is_negative compact || ((mantissa compact == 0) || (exponent compact == 0))
    then zero_bytes
    else if leb (exponent compact) 3
    then replicate 28 0 ++ to_be_bytes 4 (mantissa compact / 2 ^ (8 * (3 - exponent compact)))
    else if leb (exponent compact - 3) 29
    then (let start = 32 - exponent compact in
        if ltb (start + 2) 32
        then place_mantissa start (to_be_bytes 4 (mantissa compact))
        else zero_bytes)
    else max_bytes

-- The index of the first byte that is not zero, or the length.
abbrev pub first_non_zero : Bytes → ℕ
first_non_zero [] = 0
first_non_zero (b ∷ bs) = if b == 0 then suc (first_non_zero bs) else 0

abbrev pub byte_at : Bytes → ℕ → ℕ
byte_at bytes i = elim (get_elem? bytes i) [ none ↦ 0 | some b ↦ b ]

-- `if i < 32 { m |= (self.0[i] as u32) << k }`.
or_byte : Bytes → ℕ → ℕ → ℕ → ℕ
or_byte bytes i k m = if ltb i 32 then bit_or m (byte_at bytes i * 2 ^ k) else m

leading_three : Bytes → ℕ → ℕ
unfolding or_byte
leading_three bytes first =
    or_byte bytes (first + 2) 0 (or_byte bytes (first + 1) 8 (byte_at bytes first * 2 ^ 16))

pub to_compact : Target → ℕ
unfolding leading_three
to_compact bytes =
    let first = first_non_zero bytes in
    if first == 32
    then 0
    else if ltb 0x7f (byte_at bytes first)
    then bit_or ((32 - first + 1) * 2 ^ 24) (leading_three bytes first / 2 ^ 8 % 2 ^ 23)
    else bit_or ((32 - first) * 2 ^ 24) (leading_three bytes first % 2 ^ 23)

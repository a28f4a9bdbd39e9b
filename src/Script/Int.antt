-- ===== src/Script/Int.antt =====
-- Rust's `i64`: its values, its eight little-endian bytes, and checked sums and differences.
use scytale.Base.{
  ℕ, zero, suc, ◌+◌, ◌-◌, ◌^◌, ◌≡◌, Bool, true, false, Option, none, some, ltb, leb, if◌then◌else◌,
  arith,
}
use scytale.Base.Bytes.{Bytes, to_le_bytes, from_le_bytes}
use scytale.Base.Endian.{from_le_bytes-to_le_bytes}

-- `negsuc n` is `- (n + 1)`.
pub data ℤ : Type 0 where
  pos : ℕ → ℤ
  negsuc : ℕ → ℤ

-- `m - n`.
sub_nat : ℕ → ℕ → ℤ
sub_nat m n = if leb n m then pos (m - n) else negsuc (n - suc m)

infixl 20 ◌+ℤ◌
pub ◌+ℤ◌ : ℤ → ℤ → ℤ
unfolding sub_nat
pos m +ℤ pos n = pos (m + n)
pos m +ℤ negsuc n = sub_nat m (suc n)
negsuc m +ℤ pos n = sub_nat n (suc m)
negsuc m +ℤ negsuc n = negsuc (suc (m + n))

pub negate : ℤ → ℤ
negate (pos zero) = pos 0
negate (pos (suc n)) = negsuc n
negate (negsuc n) = pos (suc n)

infixl 20 ◌-ℤ◌
pub ◌-ℤ◌ : ℤ → ℤ → ℤ
unfolding ◌+ℤ◌ negate
a -ℤ b = a +ℤ negate b

pub ltb_int : ℤ → ℤ → Bool
ltb_int (pos m) (pos n) = ltb m n
ltb_int (pos m) (negsuc n) = false
ltb_int (negsuc m) (pos n) = true
ltb_int (negsuc m) (negsuc n) = ltb n m

abbrev pub i64_bound : ℕ
i64_bound = 2 ^ 63

unfoldable pub is_i64 : ℤ → Bool
is_i64 (pos n) = ltb n i64_bound
is_i64 (negsuc n) = ltb n i64_bound

unfoldable pub checked_add : ℤ → ℤ → Option ℤ
unfolding is_i64
checked_add a b = if is_i64 (a +ℤ b) then some (a +ℤ b) else none

pub checked_sub : ℤ → ℤ → Option ℤ
unfolding is_i64
checked_sub a b = if is_i64 (a -ℤ b) then some (a -ℤ b) else none

-- The 64 bits of two's complement, and the number they stand for.
pub to_bits : ℤ → ℕ
to_bits (pos n) = n
to_bits (negsuc n) = 2 ^ 64 - suc n

pub of_bits : ℕ → ℤ
of_bits b = if ltb b i64_bound then pos b else negsuc (2 ^ 64 - suc b)

-- `to_le_bytes` and `from_le_bytes`.
unfoldable pub int_bytes : ℤ → Bytes
unfolding to_bits
int_bytes v = to_le_bytes 8 (to_bits v)

pub int_of_bytes : Bytes → ℤ
unfolding of_bits
int_of_bytes bytes = of_bits (from_le_bytes bytes)

-- An `i64` that is pushed as eight bytes is read back as itself.
pub int_of_bytes-int_bytes : (v : ℤ) → is_i64 v ≡ true → int_of_bytes (int_bytes v) ≡ v
unfolding int_of_bytes int_bytes to_bits of_bits is_i64
int_of_bytes-int_bytes (pos n) h = ground (arith, from_le_bytes-to_le_bytes 8 n)
int_of_bytes-int_bytes (negsuc n) h = ground (arith, from_le_bytes-to_le_bytes 8 (2 ^ 64 - suc n))

-- ===== src/Base/Bits.antt =====
-- `|` of fields that do not overlap is a sum, at every width.
use Prim.Native.Nat.{
  ℕ, zero, suc, ◌+◌, ◌*◌, ◌/◌, ◌%◌, ◌^◌, ◌≤◌, ◌<◌, max, bit_or, digits, bit_or-bitwise,
}
use mathlib.Core.Path.{◌≡◌, refl, ap}
use native.Mathlib.Nat.{pow-suc, pow-zero}
use native.Mathlib.Omega.{arith}

abbrev or_digits : ℕ → ℕ → ℕ → ℕ
or_digits n a b = digits (λ b. b) max n a b

-- Any fuel that the number does not exceed gives the same digits.
or_digits_fuel : (a n m b : ℕ) → a ≤ n → a ≤ m → or_digits n a b ≡ or_digits m a b
or_digits_fuel zero zero zero b p q = refl
or_digits_fuel zero zero (suc m) b p q = refl
or_digits_fuel zero (suc n) zero b p q = refl
or_digits_fuel zero (suc n) (suc m) b p q = omega (arith, or_digits_fuel zero n m (b / 2))
or_digits_fuel (suc a) zero m b p q = absurd (omega arith)
or_digits_fuel (suc a) (suc n) zero b p q = absurd (omega arith)
or_digits_fuel (suc a) (suc n) (suc m) b p q =
    omega (arith, or_digits_fuel (suc a / 2) n m (b / 2) (omega arith) (omega arith))

zero-bit_or : (b : ℕ) → bit_or 0 b ≡ b
zero-bit_or b = bit_or-bitwise 0 b

bit_or_step : (a b : ℕ) → bit_or a b ≡ bit_or (a / 2) (b / 2) * 2 + max (a % 2) (b % 2)
bit_or_step zero b = omega (arith, zero-bit_or b, zero-bit_or (b / 2))
bit_or_step (suc a) b = omega (
  arith,
  bit_or-bitwise (suc a) b,
  bit_or-bitwise (suc a / 2) (b / 2),
  or_digits_fuel (suc a / 2) a (suc a / 2) (b / 2) (omega arith) (omega arith),
)

bit_or-zero_fuel : (n a : ℕ) → a ≤ n → bit_or a 0 ≡ a
bit_or-zero_fuel n zero h = refl
bit_or-zero_fuel zero (suc a) h = absurd (omega arith)
bit_or-zero_fuel (suc n) (suc a) h =
    omega (arith, bit_or_step (suc a) 0, bit_or-zero_fuel n (suc a / 2) (omega arith))

-- `(q << k) | r`.
abbrev pub shl_or : ℕ → ℕ → ℕ → ℕ
shl_or k q r = bit_or (q * 2 ^ k) r

pub shl_or_sum : (k q r : ℕ) → r < 2 ^ k → shl_or k q r ≡ q * 2 ^ k + r
shl_or_sum zero q r fits = ground (arith, bit_or-zero_fuel q q)
shl_or_sum (suc k) q r fits = ground (
  arith,
  bit_or_step (q * 2 ^ suc k) r,
  ap (λ (t : ℕ). q * t) (pow-suc 2 k),
  pow-suc 2 k,
  shl_or_sum k q (r / 2),
)

pub pow-add : (n a b : ℕ) → n ^ (a + b) ≡ n ^ a * n ^ b
pow-add n a zero = let e : a + 0 ≡ a = omega arith in rw (e, pow-zero n) (omega arith)
pow-add n a (suc b) =
    let e : a + suc b ≡ suc (a + b) = omega arith in
    rw e (
      omega (
        arith,
        pow-suc n (a + b),
        ap (λ (t : ℕ). t * n) (pow-add n a b),
        ap (λ (t : ℕ). n ^ a * t) (pow-suc n b),
      ))

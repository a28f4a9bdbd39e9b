-- ===== src/Consensus/Work.antt =====
-- crates/scytale-consensus/src/work.rs: the work of a block as a 256-bit number, and its sum.
pub mod Steps
pub mod Quotient
use scytale.Base.{
  ℕ, zero, suc, ◌+◌, ◌-◌, ◌*◌, ◌/◌, ◌%◌, ◌^◌, Bool, not, Option, none, some, ltb, leb, ◌==◌,
  if◌then◌else◌,
}
use Prim.Native.Nat.{bit_or}
use scytale.Base.Words.{u64_max}
use scytale.Consensus.Limbs.{Limbs, word, of_be_bytes, limbs_eq, limbs_ltb}
use scytale.Consensus.Target.{Target}

abbrev pub CumulativeWork : Type 0
CumulativeWork = Limbs

abbrev pub zero_work : CumulativeWork
zero_work = record { w0 = 0; w1 = 0; w2 = 0; w3 = 0 }

abbrev pub one_limbs : Limbs
one_limbs = record { w0 = 0; w1 = 0; w2 = 0; w3 = 1 }

abbrev pub max_limbs : Limbs
max_limbs = record { w0 = u64_max; w1 = u64_max; w2 = u64_max; w3 = u64_max }

-- The limbs of a sum and the carry out of the top.
pub record Sum : Type 0 where
  pub carry : ℕ
  pub limbs : Limbs

-- The loop `for i in (0..4).rev()` with its `u128` carry.
unfoldable pub add_limbs : Limbs → Limbs → Sum
add_limbs a b =
    let s3 = a.w3 + b.w3 in
    let s2 = a.w2 + b.w2 + s3 / word in
    let s1 = a.w1 + b.w1 + s2 / word in
    let s0 = a.w0 + b.w0 + s1 / word in
    record {
      carry = s0 / word;
      limbs = record { w0 = s0 % word; w1 = s1 % word; w2 = s2 % word; w3 = s3 % word };
    }

-- The loops that add one: the same, with nothing but the carry.
unfoldable pub increment : Limbs → Sum
increment a =
    let s3 = a.w3 + 1 in
    let s2 = a.w2 + s3 / word in
    let s1 = a.w1 + s2 / word in
    let s0 = a.w0 + s1 / word in
    record {
      carry = s0 / word;
      limbs = record { w0 = s0 % word; w1 = s1 % word; w2 = s2 % word; w3 = s3 % word };
    }

unfoldable pub checked_add : CumulativeWork → CumulativeWork → Option CumulativeWork
checked_add a b = let sum = add_limbs a b in if ltb 0 sum.carry then none else some sum.limbs

-- The remainder one bit to the left, each limb cut to a `u64` and given the bit that left the one below.
unfoldable pub shift_left : Limbs → Limbs
shift_left r = record {
  w3 = r.w3 * 2 % word;
  w2 = bit_or (r.w2 * 2 % word) (r.w3 / 2 ^ 63);
  w1 = bit_or (r.w1 * 2 % word) (r.w2 / 2 ^ 63);
  w0 = bit_or (r.w0 * 2 % word) (r.w1 / 2 ^ 63);
}

-- `num[limb_idx]` for `limb_idx = 3 - i / 64`.
unfoldable pub limb_at : Limbs → ℕ → ℕ
limb_at a i =
    if i / 64 == 0 then a.w3 else if i / 64 == 1 then a.w2 else if i / 64 == 2 then a.w1 else a.w0

-- `(num[limb_idx] >> bit_idx) & 1`.
unfoldable pub bit_at : Limbs → ℕ → ℕ
unfolding limb_at
bit_at a i = limb_at a i / 2 ^ (i % 64) % 2

-- `remainder[3] |= bit`.
unfoldable pub set_lowest : Limbs → ℕ → Limbs
set_lowest r bit = record { w0 = r.w0; w1 = r.w1; w2 = r.w2; w3 = bit_or r.w3 bit }

-- `quotient[limb_idx] |= 1 << bit_idx`.
unfoldable pub set_bit : Limbs → ℕ → Limbs
set_bit q i =
    let b = 2 ^ (i % 64) in
    if i / 64 == 0
    then record { w0 = q.w0; w1 = q.w1; w2 = q.w2; w3 = bit_or q.w3 b }
    else if i / 64 == 1
    then record { w0 = q.w0; w1 = q.w1; w2 = bit_or q.w2 b; w3 = q.w3 }
    else if i / 64 == 2
    then record { w0 = q.w0; w1 = bit_or q.w1 b; w2 = q.w2; w3 = q.w3 }
    else record { w0 = bit_or q.w0 b; w1 = q.w1; w2 = q.w2; w3 = q.w3 }

-- `diff = r.wrapping_sub(d + borrow)` on `u128`, and whether `diff > r`.
abbrev pub wrapping_diff : ℕ → ℕ → ℕ → ℕ
wrapping_diff r d borrow = (r + 2 ^ 128 - (d + borrow)) % 2 ^ 128

abbrev pub next_borrow : ℕ → ℕ → ℕ → ℕ
next_borrow r d borrow = if ltb r (wrapping_diff r d borrow) then 1 else 0

unfoldable pub subtract : Limbs → Limbs → Limbs
subtract r d =
    let b2 = next_borrow r.w3 d.w3 0 in
    let b1 = next_borrow r.w2 d.w2 b2 in
    let b0 = next_borrow r.w1 d.w1 b1 in
    record {
      w3 = wrapping_diff r.w3 d.w3 0 % word;
      w2 = wrapping_diff r.w2 d.w2 b2 % word;
      w1 = wrapping_diff r.w1 d.w1 b1 % word;
      w0 = wrapping_diff r.w0 d.w0 b0 % word;
    }

-- The quotient and the remainder between two rounds.
pub record LongDivision : Type 0 where
  pub quotient : Limbs
  pub remainder : Limbs

-- One round, for bit `i`.
unfoldable pub divide_bit : Limbs → Limbs → ℕ → LongDivision → LongDivision
unfolding shift_left bit_at set_lowest set_bit subtract
divide_bit num den i d =
    let remainder = set_lowest (shift_left d.remainder) (bit_at num i) in
    if limbs_ltb remainder den
    then record { quotient = d.quotient; remainder = remainder }
    else record { quotient = set_bit d.quotient i; remainder = subtract remainder den }

-- The loop `for i in (0..n).rev()`.
unfoldable pub divide_bits : Limbs → Limbs → ℕ → LongDivision → LongDivision
unfolding divide_bit
divide_bits num den zero d = d
divide_bits num den (suc i) d = divide_bits num den i (divide_bit num den i d)

unfoldable pub div256 : Limbs → Limbs → Limbs
unfolding divide_bits
div256 num den =
    if limbs_eq den zero_work
    then max_limbs
    else if limbs_ltb num den
    then zero_work
    else if limbs_eq num den
    then one_limbs
    else (divide_bits num den 256 record { quotient = zero_work; remainder = zero_work }).quotient

-- `!limb` on each limb.
abbrev pub complement : Limbs → Limbs
complement a = record {
  w0 = u64_max - a.w0;
  w1 = u64_max - a.w1;
  w2 = u64_max - a.w2;
  w3 = u64_max - a.w3;
}

unfoldable pub block_work : Target → CumulativeWork
unfolding increment div256
block_work target =
    let t_limbs = of_be_bytes target in
    let t_plus_1 = increment t_limbs in
    if ltb 0 t_plus_1.carry
    then one_limbs
    else (increment (div256 (complement t_limbs) t_plus_1.limbs)).limbs

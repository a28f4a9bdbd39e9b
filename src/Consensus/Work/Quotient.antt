-- ===== src/Consensus/Work/Quotient.antt =====
-- The bit loop of work.rs divides, so the work of a target is 2 ^ 256 over the target and one.
use native.Mathlib.Nat.{
  pow-suc, pow-succ', div-le_self, div-div-eq-div-mul, div-eq_of_lt-le, div-eq_of_lt,
  add-mul-div_right,
}
use scytale.Base.{
  ℕ, zero, suc, ◌+◌, ◌-◌, ◌*◌, ◌/◌, ◌%◌, ◌^◌, ◌≤◌, ◌<◌, ◌≡◌, refl, sym, ap, ◌∙◌, inl, inr, true,
  ltb, Bool-cases, arith,
}
use scytale.Base.Endian.{from_be_bytes}
use scytale.Consensus.Target.{Target}
use scytale.Consensus.Target.Compact.{IsTarget}
use scytale.Consensus.Limbs.{
  Limbs, IsWords, value, limbs_eq, of_be_bytes, value-of_be_bytes, of_be_bytes-IsWords, limbs_ltb,
  limbs_ltb_iff, value-lt,
}
use scytale.Consensus.Work.{
  zero_work, complement, increment, div256, block_work, shift_left, bit_at, set_lowest,
  LongDivision, divide_bit, divide_bits,
}
use scytale.Consensus.Work.Steps.{
  shift_left_value, shift_left-IsWords, subtract_value, subtract-IsWords, set_lowest_value,
  set_lowest-IsWords, bit_at_value, set_bit_value, increment_value, increment-IsWords,
}

-- With the bits from `i` on read, the division of the number they make is done.
record IsDivided (num den : Limbs) (i : ℕ) (d : LongDivision) : Type 0 where
  pub count : ℕ
  pub quotient : value d.quotient ≡ count * 2 ^ i
  pub split : value num / 2 ^ i ≡ count * value den + value d.remainder
  pub remainder_lt : value d.remainder < value den
  pub quotient_words : IsWords d.quotient
  pub remainder_words : IsWords d.remainder

next_bit : (v i : ℕ) → v / 2 ^ i ≡ 2 * (v / 2 ^ suc i) + v / 2 ^ i % 2
next_bit v i = rw (pow-suc 2 i, ← div-div-eq-div-mul v (2 ^ i) 2) (omega arith)

prefix_lt : (v i : ℕ) → v < 2 ^ 256 → v / 2 ^ suc i < 2 ^ 255
prefix_lt v i h =
    let e : v / 2 ^ suc i ≡ v / 2 / 2 ^ i =
      rw (pow-succ' 2 i) (sym (div-div-eq-div-mul v 2 (2 ^ i))) in
    omega (arith, e, div-le_self (v / 2) (2 ^ i))

-- The remainder with the next bit in.
taken :
    (num den : Limbs) (i : ℕ) (d : LongDivision)
    → IsWords num
    → i < 256
    → IsDivided num den (suc i) d
    → (value (set_lowest (shift_left d.remainder) (bit_at num i))
        ≡ 2 * value d.remainder + value num / 2 ^ i % 2)
      × IsWords (set_lowest (shift_left d.remainder) (bit_at num i))
taken num den i d hn lt h =
    let bit = bit_at_value num i hn lt in
    let small : value d.remainder < 2 ^ 255 =
      omega (arith, h.split, prefix_lt (value num) i (value-lt num hn)) in
    let shifted = shift_left_value d.remainder h.remainder_words small in
    let words = shift_left-IsWords d.remainder h.remainder_words in
    let b : bit_at num i < 2 = omega arith in
    (
      set_lowest_value (shift_left d.remainder) (bit_at num i) b (omega arith) ∙ omega arith,
      set_lowest-IsWords (shift_left d.remainder) (bit_at num i) b (omega arith) words,
    )

divide_bit-IsDivided :
    (num den : Limbs) (i : ℕ) (d : LongDivision)
    → IsWords num
    → IsWords den
    → i < 256
    → IsDivided num den (suc i) d
    → IsDivided num den i (divide_bit num den i d)
unfolding divide_bit
divide_bit-IsDivided num den i d hn hd lt h =
    let r = set_lowest (shift_left d.remainder) (bit_at num i) in
    let (sum, words) = taken num den i d hn lt h in
    let order = limbs_ltb_iff r den words hd in
    let bit = next_bit (value num) i in
    elim (Bool-cases (limbs_ltb r den)) [
      | inl t ↦ rw t (record {
        count = 2 * h.count;
        quotient = omega (arith, h.quotient, ap (λ (t : ℕ). h.count * t) (pow-suc 2 i));
        split = omega (arith, h.split);
        remainder_lt = order.0 t;
        quotient_words = h.quotient_words;
        remainder_words = words;
      })
      | inr f ↦
          let le : value den ≤ value r = ground (arith, order.1) in
          let less = subtract_value r den words hd le in
          let (set, fits) = set_bit_value d.quotient i h.count h.quotient_words lt h.quotient in
          rw f (record {
            count = 2 * h.count + 1;
            quotient = omega (arith, set, h.quotient, ap (λ (t : ℕ). h.count * t) (pow-suc 2 i));
            split = omega (arith, h.split);
            remainder_lt = omega (arith, h.remainder_lt);
            quotient_words = fits;
            remainder_words = subtract-IsWords r den;
          })
    ]

divide_bits-IsDivided :
    (num den : Limbs) (i : ℕ) (d : LongDivision)
    → IsWords num
    → IsWords den
    → i ≤ 256
    → IsDivided num den i d
    → IsDivided num den 0 (divide_bits num den i d)
unfolding divide_bits
divide_bits-IsDivided num den zero d hn hd le h = h
divide_bits-IsDivided num den (suc i) d hn hd le h =
    divide_bits-IsDivided num den i (divide_bit num den i d) hn hd (omega arith)
      (divide_bit-IsDivided num den i d hn hd (omega arith) h)

limbs_eq-value : (a b : Limbs) → limbs_eq a b ≡ true → value a ≡ value b
limbs_eq-value a b h = ground arith

-- Before the first round nothing is read.
start_IsDivided :
    (num den : Limbs)
    → IsWords num
    → 0 < value den
    → IsDivided num den 256 record { quotient = zero_work; remainder = zero_work }
start_IsDivided num den hn pos = record {
  count = 0;
  quotient = refl;
  split = omega (arith, div-eq_of_lt (value-lt num hn));
  remainder_lt = pos;
  quotient_words = record {
    w0_lt = omega arith;
    w1_lt = omega arith;
    w2_lt = omega arith;
    w3_lt = omega arith;
  };
  remainder_words = record {
    w0_lt = omega arith;
    w1_lt = omega arith;
    w2_lt = omega arith;
    w3_lt = omega arith;
  };
}

div_unique : (p q d r : ℕ) → p ≡ q * d + r → r < d → q ≡ p / d
div_unique p q d r e h = sym (div-eq_of_lt-le d (omega arith) (omega arith))

finished :
    (num den : Limbs) (d : LongDivision)
    → IsDivided num den 0 d
    → value d.quotient ≡ value num / value den
finished num den d h =
    let one : value num / 2 ^ 0 ≡ value num / 1 = refl in
    div_unique (value num) (value d.quotient) (value den) (value d.remainder)
      (ground (arith, h.split, h.quotient, ap (λ (t : ℕ). t * value den) h.quotient)) h.remainder_lt

-- The bit loop, its early returns included, gives the quotient of the numbers by a divisor that is not zero.
pub div256_value :
    (num den : Limbs)
    → IsWords num
    → IsWords den
    → 0 < value den
    → value (div256 num den) ≡ value num / value den
unfolding div256
div256_value num den hn hd pos = elim (Bool-cases (limbs_eq den zero_work)) [
  | inl z ↦ absurd (omega (arith, limbs_eq-value den zero_work z))
  | inr nz ↦ elim (Bool-cases (limbs_ltb num den)) [
    | inl l ↦ rw (nz, l) (sym (div-eq_of_lt ((limbs_ltb_iff num den hn hd).0 l)))
    | inr nl ↦ elim (Bool-cases (limbs_eq num den)) [
      | inl s ↦
          rw (nz, nl, s)
            (div_unique (value num) 1 (value den) 0 (omega (arith, limbs_eq-value num den s)) pos)
      | inr ns ↦
          let d : LongDivision = record { quotient = zero_work; remainder = zero_work } in
          let h =
            divide_bits-IsDivided num den 256 d hn hd (omega arith)
              (start_IsDivided num den hn pos) in
          rw (nz, nl, ns) (finished num den (divide_bits num den 256 d) h)
    ]
  ]
]

complement-IsWords : (a : Limbs) → IsWords a → IsWords (complement a)
complement-IsWords a h = omega arith

complement_value : (a : Limbs) → IsWords a → value (complement a) + value a ≡ 2 ^ 256 - 1
complement_value a h = omega arith

whole_quotient : (n t : ℕ) → t + 1 + n ≡ 2 ^ 256 → n / (t + 1) + 1 ≡ 2 ^ 256 / (t + 1)
whole_quotient n t e =
    let f : n + 1 * (t + 1) ≡ 2 ^ 256 = omega arith in
    sym (add-mul-div_right n 1 {z = t + 1} (omega arith)) ∙ ap (λ (x : ℕ). x / (t + 1)) f

-- The work of a 32-byte target is 2 ^ 256 over the target and one, cut to 256 bits (which matters to the zero
-- target alone).
pub block_work_value :
    (target : Target)
    → IsTarget target
    → value (block_work target) ≡ 2 ^ 256 / (from_be_bytes target + 1) % 2 ^ 256
unfolding block_work
block_work_value target h =
    let t = of_be_bytes target in
    let words = of_be_bytes-IsWords target h.in_range h.same_length in
    let same = value-of_be_bytes target h.same_length in
    let next = increment_value t in
    elim (Bool-cases (ltb 0 (increment t).carry)) [
      | inl c ↦
          let pos : 0 < (increment t).carry = ground arith in
          rw c (
            let big : from_be_bytes target + 1 ≡ 2 ^ 256 = omega (arith, value-lt t words) in
            rw big refl)
      | inr n ↦
          let no_carry : (increment t).carry ≡ 0 = ground arith in
          let next_words = increment-IsWords t in
          let quot =
            div256_value (complement t) (increment t).limbs (complement-IsWords t words) next_words
              (omega (arith, no_carry)) in
          let den : value (increment t).limbs ≡ from_be_bytes target + 1 =
            omega (arith, no_carry) in
          let whole =
            whole_quotient (value (complement t)) (from_be_bytes target)
              (omega (arith, complement_value t words)) in
          rw n (
            omega (
              arith,
              increment_value (div256 (complement t) (increment t).limbs),
              value-lt (increment (div256 (complement t) (increment t).limbs)).limbs
                  (increment-IsWords _),
              whole,
              quot ∙ ap (λ (x : ℕ). value (complement t) / x) den,
            ))
    ]

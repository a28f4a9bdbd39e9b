-- ===== src/Consensus/Difficulty/Division.antt =====
-- The limb loops compute the product and the quotient of the numbers.
use native.Mathlib.Nat.{div-eq_of_lt-le, mod-lt, mod-eq_of_lt, div-add-mod', div-lt_iff_lt-mul}
use scytale.Base.{ℕ, ◌+◌, ◌-◌, ◌*◌, ◌/◌, ◌%◌, ◌^◌, ◌≤◌, ◌<◌, ◌≡◌, sym, ◌∙◌, arith}
use scytale.Base.Bits.{shl_or_sum}
use scytale.Consensus.Limbs.{Limbs, IsWords, value, word}
use scytale.Consensus.Difficulty.{Wide, multiply, divide, current}

abbrev pub wide_value : Wide → ℕ
wide_value p = p.top * 2 ^ 256 + value p.low

pub record IsWide (p : Wide) : Type 0 where
  pub top_lt : p.top < word
  pub low_words : IsWords p.low

product_le : (w m : ℕ) → w < word → m < word → w * m ≤ (word - 1) * (word - 1)
product_le w m hw hm = let row : w * m ≤ (word - 1) * m = grind arith in omega arith

-- A limb times a `u64` and a carry fit a `u128`.
carry_lt : (w m c : ℕ) → w < word → m < word → c < word → (w * m + c) / word < word
carry_lt w m c hw hm hc = omega (arith, product_le w m hw hm)

module _ (a : Limbs) (m : ℕ) (h : IsWords a) (hm : m < word) where
  abbrev c3 : ℕ
  c3 = a.w3 * m

  abbrev c2 : ℕ
  c2 = a.w2 * m + c3 / word

  abbrev c1 : ℕ
  c1 = a.w1 * m + c2 / word

  abbrev c0 : ℕ
  c0 = a.w0 * m + c1 / word

  top_lt : c0 / word < word
  top_lt =
      let l3 : c3 / word < word = omega (arith, product_le a.w3 m h.w3_lt hm) in
      let l2 = carry_lt a.w2 m (c3 / word) h.w2_lt hm l3 in
      let l1 = carry_lt a.w1 m (c2 / word) h.w1_lt hm l2 in
      carry_lt a.w0 m (c1 / word) h.w0_lt hm l1

  pub wide_value-multiply : wide_value (multiply a m) ≡ value a * m
  unfolding multiply
  wide_value-multiply = omega (arith, top_lt)

  pub multiply-IsWide : IsWide (multiply a m)
  unfolding multiply
  multiply-IsWide = omega arith

-- One digit of the long division.
record IsDigit (rem limb d : ℕ) : Type 0 where
  number : current rem limb ≡ rem * word + limb
  split : current rem limb ≡ current rem limb / d * d + current rem limb % d
  digit_lt : current rem limb / d < word
  rest_lt : current rem limb % d < d

digit : (rem limb d : ℕ) → rem < d → d < word → limb < word → IsDigit rem limb d
digit rem limb d hr hd hl =
    let number = shl_or_sum 64 rem limb hl in
    record {
      number = number;
      split = sym (div-add-mod' (current rem limb) d);
      digit_lt =
          (div-lt_iff_lt-mul {k = d} {x = current rem limb} {y = word} (omega arith)).1
            (omega arith);
      rest_lt = mod-lt (current rem limb) (omega arith);
    }

div_unique : (p q d r : ℕ) → p ≡ q * d + r → r < d → p / d ≡ q
div_unique p q d r e h = div-eq_of_lt-le d (omega arith) (omega arith)

-- The digits and remainders of a long division, put together.
chain :
    (p0 p1 p2 p3 p4 q0 q1 q2 q3 q4 r0 r1 r2 r3 r4 d : ℕ)
    → 0 * word + p0 ≡ q0 * d + r0
    → r0 * word + p1 ≡ q1 * d + r1
    → r1 * word + p2 ≡ q2 * d + r2
    → r2 * word + p3 ≡ q3 * d + r3
    → r3 * word + p4 ≡ q4 * d + r4
    → q0 < word
    → q1 < word
    → q2 < word
    → q3 < word
    → q4 < word
    → p0 * 2 ^ 256 + (p1 * 2 ^ 192 + p2 * 2 ^ 128 + p3 * 2 ^ 64 + p4)
      ≡ (q0 % word * 2 ^ 256
            + (q1 % word * 2 ^ 192 + q2 % word * 2 ^ 128 + q3 % word * 2 ^ 64 + q4 % word))
          * d
        + r4
chain p0 p1 p2 p3 p4 q0 q1 q2 q3 q4 r0 r1 r2 r3 r4 d e0 e1 e2 e3 e4 l0 l1 l2 l3 l4 =
    rw (mod-eq_of_lt l0, mod-eq_of_lt l1, mod-eq_of_lt l2, mod-eq_of_lt l3, mod-eq_of_lt l4)
      (omega arith)

module _ (p : Wide) (d : ℕ) (h : IsWide p) (pos : 0 < d) (hd : d < word) where
  abbrev d0 : IsDigit 0 p.top d
  d0 = digit 0 p.top d pos hd h.top_lt

  abbrev n0 : ℕ
  n0 = current 0 p.top

  abbrev d1 : IsDigit (n0 % d) p.low.w0 d
  d1 = digit (n0 % d) p.low.w0 d d0.rest_lt hd h.low_words.w0_lt

  abbrev n1 : ℕ
  n1 = current (n0 % d) p.low.w0

  abbrev d2 : IsDigit (n1 % d) p.low.w1 d
  d2 = digit (n1 % d) p.low.w1 d d1.rest_lt hd h.low_words.w1_lt

  abbrev n2 : ℕ
  n2 = current (n1 % d) p.low.w1

  abbrev d3 : IsDigit (n2 % d) p.low.w2 d
  d3 = digit (n2 % d) p.low.w2 d d2.rest_lt hd h.low_words.w2_lt

  abbrev n3 : ℕ
  n3 = current (n2 % d) p.low.w2

  abbrev d4 : IsDigit (n3 % d) p.low.w3 d
  d4 = digit (n3 % d) p.low.w3 d d3.rest_lt hd h.low_words.w3_lt

  abbrev n4 : ℕ
  n4 = current (n3 % d) p.low.w3

  pub divide-IsWide : IsWide (divide p d)
  unfolding divide
  divide-IsWide = omega arith

  -- The five quotient digits are those of the quotient of the numbers.
  pub wide_value-divide : wide_value (divide p d) ≡ wide_value p / d
  unfolding divide
  wide_value-divide = sym (
      div_unique (wide_value p) (wide_value (divide p d)) d (n4 % d)
        (chain _ _ _ _ _ _ _ _ _ _ _ _ _ _ _ _ (sym d0.number ∙ d0.split) (sym d1.number ∙ d1.split)
          (sym d2.number ∙ d2.split) (sym d3.number ∙ d3.split) (sym d4.number ∙ d4.split)
          d0.digit_lt d1.digit_lt d2.digit_lt d3.digit_lt d4.digit_lt)
        d4.rest_lt)

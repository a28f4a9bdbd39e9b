-- ===== src/Consensus/Work/Steps.antt =====
-- What the single steps of work.rs do to the numbers that the limbs stand for.
use Prim.Native.Nat.{bit_or}
use native.Mathlib.Nat.{
  pow-suc, div-div-eq-div-mul, one-le-pow, mul-div_left, mul-sub, mul-le-mul_right,
  lt_of_mul-lt-mul_right, add-mul-div_right,
}
use scytale.Base.{
  ℕ, suc, ◌+◌, ◌-◌, ◌*◌, ◌/◌, ◌%◌, ◌^◌, ◌≤◌, ◌<◌, ◌≡◌, ◌↔◌, sym, ap, ◌∙◌, ◌⊎◌, inl, inr, some,
  arith,
}
use scytale.Base.Bits.{shl_or_sum, pow-add}
use scytale.Consensus.Limbs.{Limbs, IsWords, value, word}
use scytale.Consensus.Work.{
  add_limbs, increment, checked_add, shift_left, bit_at, limb_at, set_lowest, set_bit, subtract,
  wrapping_diff, next_borrow,
}

pub add_limbs_value :
    (a b : Limbs)
    → (add_limbs a b).carry * 2 ^ 256 + value (add_limbs a b).limbs ≡ value a + value b
unfolding add_limbs
add_limbs_value a b = omega arith

pub increment_value :
    (a : Limbs) → (increment a).carry * 2 ^ 256 + value (increment a).limbs ≡ value a + 1
unfolding increment
increment_value a = omega arith

pub increment-IsWords : (a : Limbs) → IsWords (increment a).limbs
unfolding increment
increment-IsWords a = omega arith

-- Two works have a sum, which is that of the numbers, exactly where it fits 256 bits.
pub checked_add_iff :
    (a b c : Limbs)
    → IsWords a
    → IsWords b
    → IsWords c
    → (checked_add a b ≡ some c) ↔ (value a + value b ≡ value c)
unfolding checked_add add_limbs
checked_add_iff a b c ha hb hc = ((λ h. ground arith), (λ h. ground arith))

double_or : (x c : ℕ) → c < 2 → bit_or (x * 2 % word) c ≡ x * 2 % word + c
double_or x c h =
    let e : x * 2 % word ≡ x % 2 ^ 63 * 2 ^ 1 = omega arith in rw e (shl_or_sum 1 (x % 2 ^ 63) c h)

pub shift_left_value :
    (r : Limbs) → IsWords r → value r < 2 ^ 255 → value (shift_left r) ≡ 2 * value r
unfolding shift_left
shift_left_value r h lt = omega (
  arith,
  double_or r.w2 (r.w3 / 2 ^ 63) (omega arith),
  double_or r.w1 (r.w2 / 2 ^ 63) (omega arith),
  double_or r.w0 (r.w1 / 2 ^ 63) (omega arith),
)

pub shift_left-IsWords : (r : Limbs) → IsWords r → IsWords (shift_left r)
unfolding shift_left
shift_left-IsWords r h = omega (
  arith,
  double_or r.w2 (r.w3 / 2 ^ 63) (omega arith),
  double_or r.w1 (r.w2 / 2 ^ 63) (omega arith),
  double_or r.w0 (r.w1 / 2 ^ 63) (omega arith),
)

borrow_sum :
    (x3 x2 x1 x0 d3 d2 d1 d0 r3 r2 r1 r0 n3 n2 n1 n0 : ℕ)
    → x3 + d3 + 0 ≡ r3 + n3 * word
    → x2 + d2 + n3 ≡ r2 + n2 * word
    → x1 + d1 + n2 ≡ r1 + n1 * word
    → x0 + d0 + n1 ≡ r0 + n0 * word
    → d0 * 2 ^ 192 + d1 * 2 ^ 128 + d2 * 2 ^ 64 + d3
      ≤ r0 * 2 ^ 192 + r1 * 2 ^ 128 + r2 * 2 ^ 64 + r3
    → x0 < word
    → x1 < word
    → x2 < word
    → x3 < word
    → x0 * 2 ^ 192
        + x1 * 2 ^ 128
        + x2 * 2 ^ 64
        + x3
        + (d0 * 2 ^ 192 + d1 * 2 ^ 128 + d2 * 2 ^ 64 + d3)
      ≡ r0 * 2 ^ 192 + r1 * 2 ^ 128 + r2 * 2 ^ 64 + r3
borrow_sum x3 x2 x1 x0 d3 d2 d1 d0 r3 r2 r1 r0 n3 n2 n1 n0 e3 e2 e1 e0 le l0 l1 l2 l3 = omega arith

borrow_step :
    (r d b : ℕ)
    → r < word
    → d < word
    → b ≤ 1
    → (wrapping_diff r d b % word + d + b ≡ r + next_borrow r d b * word) × (next_borrow r d b ≤ 1)
borrow_step r d b hr hd hb = ground arith

pub subtract_value :
    (r d : Limbs)
    → IsWords r
    → IsWords d
    → value d ≤ value r
    → value (subtract r d) + value d ≡ value r
unfolding subtract
subtract_value r d hr hd le =
    let s3 = borrow_step r.w3 d.w3 0 hr.w3_lt hd.w3_lt (omega arith) in
    let b2 = next_borrow r.w3 d.w3 0 in
    let s2 = borrow_step r.w2 d.w2 b2 hr.w2_lt hd.w2_lt s3.1 in
    let b1 = next_borrow r.w2 d.w2 b2 in
    let s1 = borrow_step r.w1 d.w1 b1 hr.w1_lt hd.w1_lt s2.1 in
    let b0 = next_borrow r.w1 d.w1 b1 in
    let s0 = borrow_step r.w0 d.w0 b0 hr.w0_lt hd.w0_lt s1.1 in
    borrow_sum _ _ _ _ _ _ _ _ _ _ _ _ _ _ _ _ s3.0 s2.0 s1.0 s0.0 le (omega arith) (omega arith)
      (omega arith) (omega arith)

pub subtract-IsWords : (r d : Limbs) → IsWords (subtract r d)
unfolding subtract
subtract-IsWords r d = omega arith

pub set_lowest_value :
    (r : Limbs) (bit : ℕ) → bit < 2 → value r % 2 ≡ 0 → value (set_lowest r bit) ≡ value r + bit
unfolding set_lowest
set_lowest_value r bit h even =
    let e : r.w3 ≡ r.w3 / 2 * 2 ^ 1 = omega arith in
    let sum : bit_or r.w3 bit ≡ r.w3 + bit = rw e (shl_or_sum 1 (r.w3 / 2) bit h) in omega arith

pub set_lowest-IsWords :
    (r : Limbs) (bit : ℕ) → bit < 2 → value r % 2 ≡ 0 → IsWords r → IsWords (set_lowest r bit)
unfolding set_lowest
set_lowest-IsWords r bit h even w =
    let e : r.w3 ≡ r.w3 / 2 * 2 ^ 1 = omega arith in
    let sum : bit_or r.w3 bit ≡ r.w3 + bit = rw e (shl_or_sum 1 (r.w3 / 2) bit h) in omega arith

-- A number that is the high part times a word and a low word has the bits of the low word.
low_bit : (hi w r : ℕ) → r < 64 → (hi * word + w) / 2 ^ r % 2 ≡ w / 2 ^ r % 2
low_bit hi w r h =
    let c = hi * 2 ^ (63 - r) in
    let e : 2 ^ 64 ≡ 2 ^ (63 - r) * (2 ^ r * 2) =
      (ap (λ (t : ℕ). 2 ^ t) {x = 64} {y = 63 - r + suc r} (omega arith)
        ∙ pow-add 2 (63 - r) (suc r))
      ∙ ap (λ (t : ℕ). 2 ^ (63 - r) * t) (pow-suc 2 r) in
    let f : hi * word + w ≡ w + c * 2 * 2 ^ r = ap (λ (t : ℕ). hi * t + w) e ∙ omega arith in
    let g = add-mul-div_right w (c * 2) {z = 2 ^ r} (one-le-pow r 2 (omega arith)) in
    ap (λ (t : ℕ). t / 2 ^ r % 2) f ∙ ap (λ (t : ℕ). t % 2) g ∙ omega arith

limb_bit :
    (v hi w k r : ℕ) → v / 2 ^ k ≡ hi * word + w → r < 64 → w / 2 ^ r % 2 ≡ v / 2 ^ (k + r) % 2
limb_bit v hi w k r e h =
    rw (pow-add 2 k r, ← div-div-eq-div-mul v (2 ^ k) (2 ^ r), e) (sym (low_bit hi w r h))

limb_cases :
    (i : ℕ)
    → i < 256
    → ((i / 64 ≡ 0) × (i ≡ 0 + i % 64))
      ⊎ (((i / 64 ≡ 1) × (i ≡ 64 + i % 64))
          ⊎ (((i / 64 ≡ 2) × (i ≡ 128 + i % 64)) ⊎ ((i / 64 ≡ 3) × (i ≡ 192 + i % 64))))
limb_cases i lt = omega arith

-- The loop reads the bits of the number.
pub bit_at_value : (a : Limbs) (i : ℕ) → IsWords a → i < 256 → bit_at a i ≡ value a / 2 ^ i % 2
unfolding bit_at limb_at
bit_at_value a i h lt =
    let r : i % 64 < 64 = omega arith in
    let same : (j : ℕ) → i ≡ j → value a / 2 ^ j % 2 ≡ value a / 2 ^ i % 2 =
      λ j e. ap (λ (t : ℕ). value a / 2 ^ t % 2) (sym e) in
    elim (limb_cases i lt) [
      | inl (k, e) ↦
          rw k (limb_bit (value a) (value a / 2 ^ 64) a.w3 0 (i % 64) (omega arith) r ∙ same _ e)
      | inr (inl (k, e)) ↦
          rw k (limb_bit (value a) (value a / 2 ^ 128) a.w2 64 (i % 64) (omega arith) r ∙ same _ e)
      | inr (inr (inl (k, e))) ↦
          rw k (limb_bit (value a) (value a / 2 ^ 192) a.w1 128 (i % 64) (omega arith) r ∙ same _ e)
      | inr (inr (inr (k, e))) ↦
          rw k (limb_bit (value a) (0) a.w0 192 (i % 64) (omega arith) r ∙ same _ e)
    ]

-- A bit above which nothing is zero but whole multiples is added.
set_limb_bit : (c w r : ℕ) → w ≡ c * 2 ^ suc r → bit_or w (2 ^ r) ≡ w + 2 ^ r
set_limb_bit c w r e =
    rw e (shl_or_sum (suc r) c (2 ^ r) (omega (arith, pow-suc 2 r, one-le-pow r 2)))

mul_swap : (a b c : ℕ) → a * (b * c) ≡ a * c * b
mul_swap a b c = omega arith

cancel : (x c p w : ℕ) → x * p + w ≡ c * p → w ≡ (c - x) * p
cancel x c p w e = omega (arith, mul-sub p c x)

-- The limb of a multiple.
limb_multiple :
    (v hi w k r c : ℕ)
    → v / 2 ^ k ≡ hi * word + w
    → r < 64
    → v ≡ c * 2 ^ suc (k + r)
    → (m : ℕ) × (w ≡ m * 2 ^ suc r)
limb_multiple v hi w k r c e h f =
    let q = 2 ^ (63 - r) in
    let p = 2 ^ suc r in
    let top : word ≡ q * p =
      ap (λ (t : ℕ). 2 ^ t) {x = 64} {y = 63 - r + suc r} (omega arith)
      ∙ pow-add 2 (63 - r) (suc r) in
    let whole : v ≡ c * p * 2 ^ k =
      f
      ∙ (ap (λ (t : ℕ). c * 2 ^ t) {x = suc (k + r)} {y = k + suc r} (omega arith)
          ∙ (ap (λ (t : ℕ). c * t) (pow-add 2 k (suc r)) ∙ mul_swap c (2 ^ k) p)) in
    let quot : hi * word + w ≡ c * p =
      sym e
      ∙ (ap (λ (t : ℕ). t / 2 ^ k) whole ∙ mul-div_left (c * p) (one-le-pow k 2 (omega arith))) in
    let sum : hi * q * p + w ≡ c * p = omega (arith, quot, ap (λ (t : ℕ). hi * t) top) in
    (c - hi * q, cancel (hi * q) c p w sum)

below_multiple : (m q p : ℕ) → m * p < q * p → suc m * p ≤ q * p
below_multiple m q p h = mul-le-mul_right p (lt_of_mul-lt-mul_right p h)

-- A bit fits under a limb whose lower bits and the bit itself are clear.
set_field :
    (v hi w k r c : ℕ)
    → v / 2 ^ k ≡ hi * word + w
    → r < 64
    → w < word
    → v ≡ c * 2 ^ suc (k + r)
    → (bit_or w (2 ^ r) ≡ w + 2 ^ r) × (w + 2 ^ r < word) × (2 ^ (k + r) ≡ 2 ^ k * 2 ^ r)
set_field v hi w k r c e h lt f =
    let (m, g) = limb_multiple v hi w k r c e h f in
    let top : word ≡ 2 ^ (63 - r) * 2 ^ suc r =
      ap (λ (t : ℕ). 2 ^ t) {x = 64} {y = 63 - r + suc r} (omega arith)
      ∙ pow-add 2 (63 - r) (suc r) in
    let fits : w + 2 ^ suc r ≤ word =
      omega (arith, g, top, below_multiple m (2 ^ (63 - r)) (2 ^ suc r) (omega arith)) in
    (set_limb_bit m w r g, omega (arith, pow-suc 2 r, one-le-pow r 2), pow-add 2 k r)

pub set_bit_value :
    (q : Limbs) (i c : ℕ)
    → IsWords q
    → i < 256
    → value q ≡ c * 2 ^ suc i
    → (value (set_bit q i) ≡ value q + 2 ^ i) × IsWords (set_bit q i)
unfolding set_bit
set_bit_value q i c h lt e =
    let r : i % 64 < 64 = omega arith in
    let multiple : (j : ℕ) → i ≡ j → value q ≡ c * 2 ^ suc j =
      λ j f. e ∙ ap (λ (t : ℕ). c * 2 ^ suc t) f in
    let power : (j : ℕ) → i ≡ j → 2 ^ i ≡ 2 ^ j = λ j f. ap (λ (t : ℕ). 2 ^ t) f in
    elim (limb_cases i lt) [
      | inl (k, f) ↦
          let s =
            set_field (value q) (value q / 2 ^ 64) q.w3 0 (i % 64) c (omega arith) r h.w3_lt
              (multiple _ f) in
          let p = power _ f in rw k (omega arith)
      | inr (inl (k, f)) ↦
          let s =
            set_field (value q) (value q / 2 ^ 128) q.w2 64 (i % 64) c (omega arith) r h.w2_lt
              (multiple _ f) in
          let p = power _ f in rw k (omega arith)
      | inr (inr (inl (k, f))) ↦
          let s =
            set_field (value q) (value q / 2 ^ 192) q.w1 128 (i % 64) c (omega arith) r h.w1_lt
              (multiple _ f) in
          let p = power _ f in rw k (omega arith)
      | inr (inr (inr (k, f))) ↦
          let s =
            set_field (value q) 0 q.w0 192 (i % 64) c (omega arith) r h.w0_lt (multiple _ f) in
          let p = power _ f in rw k (omega arith)
    ]

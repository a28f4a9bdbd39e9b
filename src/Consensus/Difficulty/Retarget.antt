-- ===== src/Consensus/Difficulty/Retarget.antt =====
-- Scaling and retargeting as arithmetic on 256-bit numbers.
use native.Mathlib.Nat.{mul-zero, zero-div, div-le_self, div-le_of_le-mul}
use scytale.Base.{
  ℕ, ◌-◌, ◌*◌, ◌/◌, ◌^◌, ◌≤◌, ◌<◌, ◌≡◌, refl, sym, ap, ◌∙◌, inl, inr, false, ltb, ◌==◌, min,
  if◌then◌else◌, Result, ok, Bool-cases, ltb→lt, lt→ltb, ok-injective, ◌>>=◌, arith,
}
use scytale.Base.Endian.{from_be_bytes, bytes_leb, bytes_leb_iff}
use scytale.Base.Words.{u64_bound}
use scytale.Consensus.Limbs.{
  of_be_bytes, to_bytes, value-of_be_bytes, of_be_bytes-IsWords, length-to_bytes, to_bytes-IsBytes,
  from_be_bytes-to_bytes, value-lt,
}
use scytale.Consensus.Target.{Target, max_bytes, zero_bytes}
use scytale.Consensus.Target.Compact.{IsTarget}
use scytale.Consensus.Difficulty.{
  DifficultyError, DifficultyConfig, multiply, divide, scale_target_by_ratio, clamp,
  calculate_next_target,
}
use scytale.Consensus.Difficulty.Division.{
  wide_value, wide_value-multiply, multiply-IsWide, wide_value-divide, divide-IsWide,
}

-- A call that returns a target of this value.
abbrev pub Gives : Result DifficultyError Target → ℕ → Type 0
Gives r v = (t : Target) × (r ≡ ok t) × IsTarget t × (from_be_bytes t ≡ v)

abbrev pub largest : ℕ
largest = 2 ^ 256 - 1

max_bytes-IsTarget : IsTarget max_bytes
max_bytes-IsTarget = record { same_length = refl; in_range = omega arith }

zero_bytes-IsTarget : IsTarget zero_bytes
zero_bytes-IsTarget = record { same_length = refl; in_range = omega arith }

top_zero : (n : ℕ) → ltb 0 n ≡ false → n ≡ 0
top_zero n h = ground arith

zero_scaled : (v m d : ℕ) → m ≡ 0 → 0 ≡ min (v * m / d) largest
zero_scaled v m d e = rw (e, mul-zero, zero-div)

-- The limb loops scale a target as a number: times the multiplier, over the divisor rounded down, and the
-- largest target if that is over 256 bits.
pub scale_target_by_ratio_value :
    (t : Target) (m d : ℕ)
    → IsTarget t
    → m < u64_bound
    → 0 < d
    → d < u64_bound
    → Gives (scale_target_by_ratio t m d) (min (from_be_bytes t * m / d) largest)
unfolding scale_target_by_ratio
scale_target_by_ratio_value t m d h hm pos hd = elim (Bool-cases (m == 0)) [
  | inl z ↦ (
    zero_bytes,
    ground arith,
    zero_bytes-IsTarget,
    zero_scaled (from_be_bytes t) m d (ground arith),
  )
  | inr nz ↦
      let words = of_be_bytes-IsWords t h.in_range h.same_length in
      let product = multiply-IsWide (of_be_bytes t) m words hm in
      let quot = divide (multiply (of_be_bytes t) m) d in
      let quot_wide = divide-IsWide (multiply (of_be_bytes t) m) d product pos hd in
      let exact : wide_value quot ≡ from_be_bytes t * m / d =
        wide_value-divide (multiply (of_be_bytes t) m) d product pos hd
        ∙ ap (λ (v : ℕ). v / d)
            (wide_value-multiply (of_be_bytes t) m words hm
              ∙ ap (λ (v : ℕ). v * m) (value-of_be_bytes t h.same_length)) in
      elim (Bool-cases (ltb 0 quot.top)) [
        | inl over ↦ (
          max_bytes,
          ground arith,
          max_bytes-IsTarget,
          omega (arith, exact, ltb→lt 0 quot.top over),
        )
        | inr fits ↦ (
          to_bytes quot.low,
          ground arith,
          record { same_length = length-to_bytes quot.low; in_range = to_bytes-IsBytes quot.low },
          from_be_bytes-to_bytes quot.low quot_wide.low_words
              ∙ omega (arith, exact, top_zero quot.top fits, value-lt quot.low quot_wide.low_words),
        )
      ]
]

-- The configuration leaves room: its cap is a target, and the longest time it allows fits a `u64`.
pub record IsConfig (c : DifficultyConfig) : Type 0 where
  pub cap : IsTarget c.max_target
  pub expects : 0 < c.epoch_blocks * c.target_block_interval_secs
  pub clamps : 0 < c.clamping_factor
  pub fits : c.epoch_blocks * c.target_block_interval_secs * c.clamping_factor < u64_bound

abbrev pub expected : DifficultyConfig → ℕ
expected c = c.epoch_blocks * c.target_block_interval_secs

-- The elapsed time, kept within the clamping factor of the expected time.
abbrev pub clamped : DifficultyConfig → ℕ → ℕ
clamped c elapsed = clamp elapsed (expected c / c.clamping_factor) (expected c * c.clamping_factor)

abbrev pub retargeted : DifficultyConfig → ℕ → ℕ → ℕ
retargeted c v elapsed =
    min (min (v * clamped c elapsed / expected c) largest) (from_be_bytes c.max_target)

positive : (n : ℕ) → 0 < n → (n == 0) ≡ false
positive n h = ground arith

expected-le : (e f : ℕ) → 0 < f → e ≤ e * f
expected-le e f h = grind arith

clamped-le :
    (c : DifficultyConfig) (elapsed : ℕ)
    → IsConfig c
    → clamped c elapsed ≤ expected c * c.clamping_factor
clamped-le c elapsed h =
    ground (
      arith,
      div-le_self (expected c) c.clamping_factor,
      expected-le (expected c) c.clamping_factor,
    )

capped :
    (c : DifficultyConfig) (t : Target)
    → IsConfig c
    → IsTarget t
    → Gives
        (ok (if bytes_leb t c.max_target then t else c.max_target))
        (min (from_be_bytes t) (from_be_bytes c.max_target))
capped c t h ht =
    let order =
      bytes_leb_iff t c.max_target ht.in_range h.cap.in_range
        (ht.same_length ∙ sym h.cap.same_length) in
    elim (Bool-cases (bytes_leb t c.max_target)) [
      | inl le ↦ rw le (t, refl, ht, omega (arith, order.0 le))
      | inr gt ↦ rw gt (c.max_target, refl, h.cap, ground (arith, order))
    ]

runs :
    (t : Target) (start end_time : ℕ) (c : DifficultyConfig)
    → IsConfig c
    → start < end_time
    → calculate_next_target t start end_time c ≡ (
        scale_target_by_ratio t (clamped c (end_time - start)) (expected c) >>= λ u.
        ok (if bytes_leb u c.max_target then u else c.max_target))
unfolding calculate_next_target
runs t start end_time c h later =
    let small = expected-le (expected c) c.clamping_factor h.clamps in
    let fits : expected c < u64_bound = omega (arith, small, h.fits) in
    rw (
      lt→ltb _ _ later,
      lt→ltb _ _ fits,
      positive (expected c) h.expects,
      positive c.clamping_factor h.clamps,
      lt→ltb _ _ h.fits,
    )

-- A retarget over a positive time succeeds, and gives the old target times the elapsed time over the
-- expected time, in whole numbers, where the elapsed time is first kept within the clamping factor of the
-- expected time and the result within 256 bits and the configured cap.
pub calculate_next_target_value :
    (t : Target) (start end_time : ℕ) (c : DifficultyConfig)
    → IsTarget t
    → IsConfig c
    → start < end_time
    → Gives
        (calculate_next_target t start end_time c)
        (retargeted c (from_be_bytes t) (end_time - start))
unfolding calculate_next_target
calculate_next_target_value t start end_time c ht h later =
    let time = clamped c (end_time - start) in
    let small = expected-le (expected c) c.clamping_factor h.clamps in
    let (s, scaled, hs, v) =
      scale_target_by_ratio_value t time (expected c) ht
        (omega (arith, clamped-le c (end_time - start) h, h.fits)) h.expects
        (omega (arith, small, h.fits)) in
    let (r, kept, hr, w) = capped c s h hs in
    (
      r,
      runs t start end_time c h later
          ∙ ap
              (λ (q : Result DifficultyError Target).
                q >>= λ u. ok (if bytes_leb u c.max_target then u else c.max_target))
              scaled
          ∙ kept,
      hr,
      w ∙ ap (λ (n : ℕ). min n (from_be_bytes c.max_target)) v,
    )

times_mono : (v x y : ℕ) → x ≤ y → v * x ≤ v * y
times_mono v x y h = grind arith

scaled-le : (v x e f : ℕ) → x ≤ e * f → v * x / e ≤ v * f
scaled-le v x e f h =
    div-le_of_le-mul e {m = v * x} {n = v * f} (omega (arith, times_mono v x (e * f) h))

-- No retarget makes the target larger than the clamping factor allows, or than the cap.
pub calculate_next_target_bounds :
    (t r : Target) (start end_time : ℕ) (c : DifficultyConfig)
    → IsTarget t
    → IsConfig c
    → start < end_time
    → calculate_next_target t start end_time c ≡ ok r
    → (from_be_bytes r ≤ from_be_bytes t * c.clamping_factor)
      × (from_be_bytes r ≤ from_be_bytes c.max_target)
calculate_next_target_bounds t r start end_time c ht h later e =
    let (r', e', hr, w) = calculate_next_target_value t start end_time c ht h later in
    let same : r ≡ r' = ok-injective (sym e ∙ e') in
    let bound =
      scaled-le (from_be_bytes t) (clamped c (end_time - start)) (expected c) c.clamping_factor
        (clamped-le c (end_time - start) h) in
    rw same (omega (arith, w, bound), omega (arith, w))

-- ===== src/Consensus/Target/Compact.antt =====
-- What a compact target stands for, and that hashes are compared as numbers.
use native.Mathlib.Nat.{div-le_self}
use scytale.Base.{
  ℕ, zero, suc, ◌-◌, ◌*◌, ◌/◌, ◌^◌, ◌≤◌, ◌<◌, ◌≡◌, ◌↔◌, refl, sym, ap, ◌∙◌, inl, inr, Bool-cases,
  true, ◌||◌, ◌++◌, leb, ◌==◌, if◌then◌else◌, length, drop, replicate, All-append, length-append,
  arith,
}
use scytale.Base.Bytes.{Bytes, IsBytes}
use scytale.Base.Endian.{
  from_be_bytes, to_be_bytes, from_be_bytes-append, from_be_bytes-zeros, bytes_leb_iff,
}
use scytale.Consensus.Target.{
  Target, is_met_by, exponent, mantissa, is_negative, from_compact, place_mantissa,
}

-- A target of the right shape.
pub record IsTarget (t : Target) : Type 0 where
  pub same_length : length t ≡ 32
  pub in_range : IsBytes t

-- mantissa * 256 ^ (exponent - 3), rounded down, or the largest target where that is too large.
abbrev pub compact_value : ℕ → ℕ
compact_value c =
    if is_negative c || ((mantissa c == 0) || (exponent c == 0))
    then 0
    else if leb (exponent c) 3
    then mantissa c / 2 ^ (8 * (3 - exponent c))
    else if leb (exponent c) 32
    then mantissa c * 256 ^ (exponent c - 3)
    else 2 ^ 256 - 1

length-replicate : (n v : ℕ) → length (replicate n v) ≡ n
length-replicate zero v = refl
length-replicate (suc n) v = ap suc (length-replicate n v)

replicate-IsBytes : (n v : ℕ) → v < 256 → IsBytes (replicate n v)
replicate-IsBytes zero v h = tt
replicate-IsBytes (suc n) v h = (h, replicate-IsBytes n v h)

zeros_before : (n : ℕ) (ys : Bytes) → from_be_bytes (replicate n 0 ++ ys) ≡ from_be_bytes ys
zeros_before n ys = omega (
  arith,
  from_be_bytes-append (replicate n 0) ys,
  ap (λ (t : ℕ). t * 256 ^ length ys) (from_be_bytes-zeros n),
)

zeros_behind :
    (xs : Bytes) (n : ℕ) → from_be_bytes (xs ++ replicate n 0) ≡ from_be_bytes xs * 256 ^ n
zeros_behind xs n = omega (
  arith,
  from_be_bytes-append xs (replicate n 0),
  from_be_bytes-zeros n,
  ap (λ (t : ℕ). from_be_bytes xs * 256 ^ t) (length-replicate n 0),
)

low_three : (m : ℕ) → m < 2 ^ 24 → from_be_bytes (drop 1 (to_be_bytes 4 m)) ≡ m
low_three m fits = omega arith

place_mantissa_value :
    (start m : ℕ)
    → m < 2 ^ 24
    → from_be_bytes (place_mantissa start (to_be_bytes 4 m)) ≡ m * 256 ^ (29 - start)
unfolding place_mantissa
place_mantissa_value start m fits =
    zeros_before start (drop 1 (to_be_bytes 4 m) ++ replicate (29 - start) 0)
    ∙ zeros_behind (drop 1 (to_be_bytes 4 m)) (29 - start)
    ∙ ap (λ (t : ℕ). t * 256 ^ (29 - start)) (low_three m fits)

pub place_mantissa-IsTarget :
    (start m : ℕ) → start ≤ 29 → IsTarget (place_mantissa start (to_be_bytes 4 m))
unfolding place_mantissa
place_mantissa-IsTarget start m h = record {
  same_length = omega (
    arith,
    length-append (replicate start 0) (drop 1 (to_be_bytes 4 m) ++ replicate (29 - start) 0),
    length-append (drop 1 (to_be_bytes 4 m)) (replicate (29 - start) 0),
    length-replicate start 0,
    length-replicate (29 - start) 0,
  );
  in_range = All-append _ (replicate start 0) _ (replicate-IsBytes start 0 (omega arith)) (
      All-append _ (drop 1 (to_be_bytes 4 m)) _ (omega arith)
        (replicate-IsBytes (29 - start) 0 (omega arith)));
}

small_value : (m : ℕ) → m < 2 ^ 23 → from_be_bytes (replicate 28 0 ++ to_be_bytes 4 m) ≡ m
small_value m h = omega arith

small_shape : (m : ℕ) → IsTarget (replicate 28 0 ++ to_be_bytes 4 m)
small_shape m = record { same_length = refl; in_range = omega arith }

shifted-lt : (c : ℕ) → mantissa c / 2 ^ (8 * (3 - exponent c)) < 2 ^ 23
shifted-lt c = omega (arith, div-le_self (mantissa c) (2 ^ (8 * (3 - exponent c))))

big_value :
    (c : ℕ)
    → 3 < exponent c
    → exponent c ≤ 32
    → from_be_bytes (place_mantissa (32 - exponent c) (to_be_bytes 4 (mantissa c)))
      ≡ mantissa c * 256 ^ (exponent c - 3)
big_value c h k =
    place_mantissa_value (32 - exponent c) (mantissa c) (omega arith)
    ∙ ap (λ (t : ℕ). mantissa c * 256 ^ t) (omega arith)

-- A compact target stands for mantissa * 256 ^ (exponent - 3), rounded down; for 0 if it is negative
-- or has no mantissa or no exponent; for the largest target if it would not fit.
pub from_compact_value : (c : ℕ) → from_be_bytes (from_compact c) ≡ compact_value c
unfolding from_compact
from_compact_value c =
    elim (Bool-cases (is_negative c || ((mantissa c == 0) || (exponent c == 0)))) [
      | inl none ↦ rw none
      | inr pos ↦ rw pos (
          ground (
            arith,
            small_value (mantissa c / 2 ^ (8 * (3 - exponent c))) (shifted-lt c),
            big_value c,
          ))
    ]

pub from_compact-IsTarget : (c : ℕ) → IsTarget (from_compact c)
unfolding from_compact
from_compact-IsTarget c = ground (
  arith,
  small_shape (mantissa c / 2 ^ (8 * (3 - exponent c))),
  place_mantissa-IsTarget (32 - exponent c) (mantissa c),
)

-- A hash meets a target exactly when it is no larger as a number.
pub is_met_by_iff :
    (t h : Bytes)
    → IsTarget t
    → IsTarget h
    → (is_met_by t h ≡ true) ↔ (from_be_bytes h ≤ from_be_bytes t)
unfolding is_met_by
is_met_by_iff t h ht hh =
    bytes_leb_iff h t hh.in_range ht.in_range (hh.same_length ∙ sym ht.same_length)

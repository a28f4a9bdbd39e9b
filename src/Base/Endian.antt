-- ===== src/Base/Endian.antt =====
-- Big-endian and little-endian numbers: the two codecs are inverse, and the order of big-endian
-- strings is that of the numbers.
use native.Mathlib.Nat.{pow-suc}
use scytale.Base.{
  ℕ, zero, suc, ◌+◌, ◌*◌, ◌/◌, ◌%◌, ◌^◌, ◌≤◌, ◌<◌, ◌≡◌, refl, ap, ◌↔◌, Bool, true, false, ◌&&◌,
  ◌||◌, [], ◌∷◌, ◌++◌, arith, ltb, ◌==◌, length, length-append, All-append, replicate,
}
use scytale.Base.Bytes.{Bytes, IsBytes, to_le_bytes, from_le_bytes}

-- `from_be_bytes`.
abbrev pub from_be_bytes : Bytes → ℕ
from_be_bytes [] = 0
from_be_bytes (b ∷ bs) = b * 256 ^ length bs + from_be_bytes bs

-- `to_be_bytes` of a number of `n` bytes.
abbrev pub to_be_bytes : ℕ → ℕ → Bytes
to_be_bytes zero v = []
to_be_bytes (suc n) v = to_be_bytes n (v / 256) ++ (v % 256) ∷ []

-- `<=` of byte arrays, which Rust compares byte by byte.
abbrev pub bytes_leb : Bytes → Bytes → Bool
bytes_leb [] ys = true
bytes_leb (x ∷ xs) [] = false
bytes_leb (x ∷ xs) (y ∷ ys) = ltb x y || ((x == y) && bytes_leb xs ys)

pub pow-append : (a b : ℕ) → 256 ^ (a + b) ≡ 256 ^ a * 256 ^ b
pow-append a zero = let e : a + 0 ≡ a = omega arith in rw e (omega arith)
pow-append a (suc b) =
    let e : a + suc b ≡ suc (a + b) = omega arith in
    rw e (
      omega
        (arith, pow-suc 256 (a + b), pow-append a b, ap (λ (t : ℕ). 256 ^ a * t) (pow-suc 256 b)))

pub from_be_bytes-append :
    (xs ys : Bytes)
    → from_be_bytes (xs ++ ys) ≡ from_be_bytes xs * 256 ^ length ys + from_be_bytes ys
from_be_bytes-append [] ys = omega arith
from_be_bytes-append (x ∷ xs) ys = omega (
  arith,
  from_be_bytes-append xs ys,
  ap (λ (t : ℕ). x * 256 ^ t) (length-append xs ys),
  ap (λ (t : ℕ). x * t) (pow-append (length xs) (length ys)),
)

pub length-to_be_bytes : (n v : ℕ) → length (to_be_bytes n v) ≡ n
length-to_be_bytes zero v = refl
length-to_be_bytes (suc n) v = omega (
  arith,
  length-append (to_be_bytes n (v / 256)) ((v % 256) ∷ []),
  length-to_be_bytes n (v / 256),
)

pub to_be_bytes-IsBytes : (n v : ℕ) → IsBytes (to_be_bytes n v)
to_be_bytes-IsBytes zero v = tt
to_be_bytes-IsBytes (suc n) v =
    All-append _ (to_be_bytes n (v / 256)) _ (to_be_bytes-IsBytes n (v / 256)) (omega arith)

pub from_be_bytes-to_be_bytes : (n v : ℕ) → v < 256 ^ n → from_be_bytes (to_be_bytes n v) ≡ v
from_be_bytes-to_be_bytes zero v h = omega arith
from_be_bytes-to_be_bytes (suc n) v h = omega (
  arith,
  from_be_bytes-append (to_be_bytes n (v / 256)) ((v % 256) ∷ []),
  from_be_bytes-to_be_bytes n (v / 256) (omega (arith, pow-suc 256 n)),
)

pub from_le_bytes-to_le_bytes : (n v : ℕ) → v < 256 ^ n → from_le_bytes (to_le_bytes n v) ≡ v
from_le_bytes-to_le_bytes zero v h = omega arith
from_le_bytes-to_le_bytes (suc n) v h =
    omega (arith, from_le_bytes-to_le_bytes n (v / 256) (omega (arith, pow-suc 256 n)))

pub from_be_bytes-lt : (xs : Bytes) → IsBytes xs → from_be_bytes xs < 256 ^ length xs
from_be_bytes-lt [] h = omega arith
from_be_bytes-lt (x ∷ xs) (b, h) = grind (arith, pow-suc 256 (length xs), from_be_bytes-lt xs h)

pub from_be_bytes-zeros : (n : ℕ) → from_be_bytes (replicate n 0) ≡ 0
from_be_bytes-zeros zero = refl
from_be_bytes-zeros (suc n) = omega (arith, from_be_bytes-zeros n)

-- A larger leading digit outweighs all that follows.
pub digit_lt : (x y p u v : ℕ) → u < p → x < y → x * p + u < y * p + v
digit_lt x y p u v hu h = grind arith

-- The lexicographic order of big-endian byte strings of one length is the order of the numbers.
pub bytes_leb_iff :
    (xs ys : Bytes)
    → IsBytes xs
    → IsBytes ys
    → length xs ≡ length ys
    → (bytes_leb xs ys ≡ true) ↔ (from_be_bytes xs ≤ from_be_bytes ys)
bytes_leb_iff [] [] hx hy e = (λ _. omega arith, λ _. refl)
bytes_leb_iff [] (y ∷ ys) hx hy e = absurd (omega arith)
bytes_leb_iff (x ∷ xs) [] hx hy e = absurd (omega arith)
bytes_leb_iff (x ∷ xs) (y ∷ ys) (bx, hx) (bY, hy) e =
    let same : length xs ≡ length ys = omega arith in
    ground (
      arith,
      bytes_leb_iff xs ys hx hy same,
      from_be_bytes-lt xs hx,
      from_be_bytes-lt ys hy,
      ap (λ (t : ℕ). 256 ^ t) same,
      ap (λ (t : ℕ). x * t) (ap (λ (t : ℕ). 256 ^ t) same),
      digit_lt x y (256 ^ length ys) (from_be_bytes xs) (from_be_bytes ys),
      digit_lt y x (256 ^ length ys) (from_be_bytes ys) (from_be_bytes xs),
    )

-- Strings of one length that stand for one number are the same.
pub from_be_bytes-injective :
    (xs ys : Bytes)
    → IsBytes xs
    → IsBytes ys
    → length xs ≡ length ys
    → from_be_bytes xs ≡ from_be_bytes ys
    → xs ≡ ys
from_be_bytes-injective [] [] hx hy e v = refl
from_be_bytes-injective [] (y ∷ ys) hx hy e v = absurd (omega arith)
from_be_bytes-injective (x ∷ xs) [] hx hy e v = absurd (omega arith)
from_be_bytes-injective (x ∷ xs) (y ∷ ys) (bx, hx) (bY, hy) e v =
    let same : length xs ≡ length ys = omega arith in
    ground (
      arith,
      from_be_bytes-injective xs ys hx hy same,
      from_be_bytes-lt xs hx,
      from_be_bytes-lt ys hy,
      ap (λ (t : ℕ). 256 ^ t) same,
      ap (λ (t : ℕ). x * t) (ap (λ (t : ℕ). 256 ^ t) same),
      digit_lt x y (256 ^ length ys) (from_be_bytes xs) (from_be_bytes ys),
      digit_lt y x (256 ^ length ys) (from_be_bytes ys) (from_be_bytes xs),
    )

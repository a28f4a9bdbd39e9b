-- ===== src/Consensus/Limbs.antt =====
-- 256-bit numbers as four 64-bit limbs, most significant first: `[u64; 4]`.
use scytale.Base.{
  ℕ, refl, ◌+◌, ◌*◌, ◌^◌, ◌≤◌, ◌<◌, ◌≡◌, ◌↔◌, Bool, true, ◌&&◌, ◌||◌, arith, ltb, ◌==◌, ap, ◌∙◌,
  sym, ◌-◌, [], ◌∷◌, ◌++◌, zero, suc, length, take, drop, take-append-drop, drop-drop, length-take,
  length-drop, All-drop,
}
use scytale.Base.Bytes.{Bytes, IsBytes}
use scytale.Base.Endian.{
  from_be_bytes, to_be_bytes, from_be_bytes-append, from_be_bytes-to_be_bytes, from_be_bytes-lt,
}

abbrev pub word : ℕ
word = 2 ^ 64

pub record Limbs : Type 0 where
  pub w0 : ℕ
  pub w1 : ℕ
  pub w2 : ℕ
  pub w3 : ℕ

-- Each limb is a `u64`.
pub record IsWords (a : Limbs) : Type 0 where
  pub w0_lt : a.w0 < word
  pub w1_lt : a.w1 < word
  pub w2_lt : a.w2 < word
  pub w3_lt : a.w3 < word

-- The number that the limbs stand for.
abbrev pub value : Limbs → ℕ
value a = a.w0 * 2 ^ 192 + a.w1 * 2 ^ 128 + a.w2 * 2 ^ 64 + a.w3

-- `u64::from_be_bytes(bytes[start..start + 8])` for each limb.
unfoldable pub of_be_bytes : Bytes → Limbs
of_be_bytes bytes = record {
  w0 = from_be_bytes (take 8 bytes);
  w1 = from_be_bytes (take 8 (drop 8 bytes));
  w2 = from_be_bytes (take 8 (drop 16 bytes));
  w3 = from_be_bytes (take 8 (drop 24 bytes));
}

-- `limb.to_be_bytes()` into `bytes[start..start + 8]` for each limb.
unfoldable pub to_bytes : Limbs → Bytes
to_bytes a =
    to_be_bytes 8 a.w0 ++ (to_be_bytes 8 a.w1 ++ (to_be_bytes 8 a.w2 ++ to_be_bytes 8 a.w3))

from_be_bytes-split :
    (n : ℕ) (xs : Bytes)
    → from_be_bytes xs
      ≡ from_be_bytes (take n xs) * 256 ^ (length xs - n) + from_be_bytes (drop n xs)
from_be_bytes-split n xs =
    sym (ap from_be_bytes (take-append-drop n xs))
    ∙ from_be_bytes-append (take n xs) (drop n xs)
    ∙ ap (λ (t : ℕ). from_be_bytes (take n xs) * 256 ^ t + from_be_bytes (drop n xs))
        (length-drop n xs)

drop_all : (n : ℕ) (xs : Bytes) → length xs ≡ n → drop n xs ≡ []
drop_all zero [] e = refl
drop_all zero (x ∷ xs) e = absurd (omega arith)
drop_all (suc n) [] e = refl
drop_all (suc n) (x ∷ xs) e = drop_all n xs (omega arith)

-- The first eight bytes of a string of `8 + m`, and the rest.
word-split :
    (m : ℕ) (xs : Bytes)
    → length xs ≡ 8 + m
    → from_be_bytes xs ≡ from_be_bytes (take 8 xs) * 256 ^ m + from_be_bytes (drop 8 xs)
word-split m xs e =
    from_be_bytes-split 8 xs
    ∙ ap (λ (t : ℕ). from_be_bytes (take 8 xs) * 256 ^ t + from_be_bytes (drop 8 xs)) (omega arith)

pub value-of_be_bytes :
    (bytes : Bytes) → length bytes ≡ 32 → value (of_be_bytes bytes) ≡ from_be_bytes bytes
unfolding of_be_bytes
value-of_be_bytes bytes e = omega (
  arith,
  word-split 24 bytes e,
  word-split 16 (drop 8 bytes) (omega (arith, length-drop 8 bytes)),
  word-split 8 (drop 16 bytes) (omega (arith, length-drop 16 bytes)),
  word-split 0 (drop 24 bytes) (omega (arith, length-drop 24 bytes)),
  ap from_be_bytes (drop-drop 8 8 bytes),
  ap from_be_bytes (drop-drop 8 16 bytes),
  ap from_be_bytes (drop-drop 8 24 bytes),
  ap from_be_bytes (drop_all 32 bytes e),
)

take-IsBytes : (n : ℕ) (xs : Bytes) → IsBytes xs → IsBytes (take n xs)
take-IsBytes zero xs h = tt
take-IsBytes (suc n) [] h = tt
take-IsBytes (suc n) (x ∷ xs) h = (h.0, take-IsBytes n xs h.1)

word_lt :
    (n : ℕ) (xs : Bytes)
    → IsBytes xs
    → n + 8 ≤ length xs
    → from_be_bytes (take 8 (drop n xs)) < word
word_lt n xs h le =
    let b = from_be_bytes-lt (take 8 (drop n xs)) (take-IsBytes 8 _ (All-drop _ n xs h)) in
    let e : length (take 8 (drop n xs)) ≡ 8 =
      omega (arith, length-take 8 (drop n xs), length-drop n xs) in
    rw e at b

pub of_be_bytes-IsWords :
    (bytes : Bytes) → IsBytes bytes → length bytes ≡ 32 → IsWords (of_be_bytes bytes)
unfolding of_be_bytes
of_be_bytes-IsWords bytes h e = record {
  w0_lt = word_lt 0 bytes h (omega arith);
  w1_lt = word_lt 8 bytes h (omega arith);
  w2_lt = word_lt 16 bytes h (omega arith);
  w3_lt = word_lt 24 bytes h (omega arith);
}

pub length-to_bytes : (a : Limbs) → length (to_bytes a) ≡ 32
unfolding to_bytes
length-to_bytes a = refl

pub to_bytes-IsBytes : (a : Limbs) → IsBytes (to_bytes a)
unfolding to_bytes
to_bytes-IsBytes a = omega arith

pub from_be_bytes-to_bytes : (a : Limbs) → IsWords a → from_be_bytes (to_bytes a) ≡ value a
unfolding to_bytes
from_be_bytes-to_bytes a h = omega (
  arith,
  from_be_bytes-append (to_be_bytes 8 a.w0)
      (to_be_bytes 8 a.w1 ++ (to_be_bytes 8 a.w2 ++ to_be_bytes 8 a.w3)),
  from_be_bytes-append (to_be_bytes 8 a.w1) (to_be_bytes 8 a.w2 ++ to_be_bytes 8 a.w3),
  from_be_bytes-append (to_be_bytes 8 a.w2) (to_be_bytes 8 a.w3),
  from_be_bytes-to_be_bytes 8 a.w0 h.w0_lt,
  from_be_bytes-to_be_bytes 8 a.w1 h.w1_lt,
  from_be_bytes-to_be_bytes 8 a.w2 h.w2_lt,
  from_be_bytes-to_be_bytes 8 a.w3 h.w3_lt,
)

pub value-lt : (a : Limbs) → IsWords a → value a < 2 ^ 256
value-lt a h = omega arith

-- `==`, `<` and `>=` of `[u64; 4]`: limb by limb, most significant first.
abbrev pub limbs_eq : Limbs → Limbs → Bool
limbs_eq a b = (a.w0 == b.w0) && ((a.w1 == b.w1) && ((a.w2 == b.w2) && (a.w3 == b.w3)))

unfoldable pub limbs_ltb : Limbs → Limbs → Bool
limbs_ltb a b =
    ltb a.w0 b.w0
    || ((a.w0 == b.w0)
        && (ltb a.w1 b.w1
            || ((a.w1 == b.w1) && (ltb a.w2 b.w2 || ((a.w2 == b.w2) && ltb a.w3 b.w3)))))

pub limbs_ltb_iff :
    (a b : Limbs) → IsWords a → IsWords b → (limbs_ltb a b ≡ true) ↔ (value a < value b)
unfolding limbs_ltb
limbs_ltb_iff a b ha hb = ground arith

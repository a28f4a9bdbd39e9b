-- ===== src/Core/Codec/Reader.antt =====
-- Readers: what is read and the bytes that are left, or an error.
use scytale.Base.{
  ℕ, zero, suc, ◌-◌, ◌≡◌, refl, sym, ap, subst, ok-injective, ◌∙◌, List, [], ◌∷◌, ◌++◌, ltb,
  if◌then◌else◌, length, take, drop, take-append, drop-append, length-append, Result, ok, err,
  arith,
}
use mathlib.Core.List.{append_assoc, append-nil}
use scytale.Base.Bytes.{Bytes}
use scytale.Core.Types.{SerializationError, unexpected_eof, trailing_bytes}

abbrev pub Reader {ℓ} : Type ℓ → Type ℓ
Reader A = Bytes → Result SerializationError (A × Bytes)

infixl 5 ◌>>=◌
unfoldable pub ◌>>=◌ {ℓ κ} : {A : Type ℓ} {B : Type κ} → Reader A → (A → Reader B) → Reader B
◌>>=◌ r f bs = elim (r bs) [ ok (a, rest) ↦ f a rest | err e ↦ err e ]

unfoldable pub return {ℓ} : {A : Type ℓ} → A → Reader A
return a bs = ok (a, bs)

pub fail {ℓ} : {A : Type ℓ} → SerializationError → Reader A
fail e bs = err e

-- `read_exact` on a slice. The conversion from `io::Error` fills in 1 and 0.
unfoldable pub read_exact : ℕ → Reader Bytes
read_exact n bs = if ltb (length bs) n then err (unexpected_eof 1 0) else ok (take n bs, drop n bs)

-- `for _ in 0..n { items.push(r(reader)?) }`.
unfoldable pub read_n {ℓ} : {A : Type ℓ} → ℕ → Reader A → Reader (List A)
read_n zero r = return []
read_n (suc n) r = do x ← r; xs ← read_n n r; return (x ∷ xs)

-- `from_canonical_bytes`: nothing may be left.
unfoldable pub from_canonical_bytes {ℓ} :
    {A : Type ℓ} → Reader A → Bytes → Result SerializationError A
from_canonical_bytes r bs = elim (r bs) [
  | err e ↦ err e
  | ok (a, rest) ↦
      if ltb 0 (length rest)
      then err (trailing_bytes (length bs - (length bs - length rest)))
      else ok a
]

pub read_exact-append : (xs rest : Bytes) → read_exact (length xs) (xs ++ rest) ≡ ok (xs, rest)
unfolding read_exact
read_exact-append xs rest =
    ground (arith, length-append xs rest, take-append xs rest, drop-append xs rest)

-- The reader takes these bytes off any input that begins with them, and returns this value.
abbrev pub Reads {ℓ} : {A : Type ℓ} → Reader A → Bytes → A → Type ℓ
Reads r bs a = (rest : Bytes) → r (bs ++ rest) ≡ ok (a, rest)

-- The bytes are those that a writer gave.
pub Reads-written {ℓ} :
    {A : Type ℓ} (r : Reader A) (a : A) {xs ws : Bytes}
    → ◌≡◌ {A = Result SerializationError Bytes} (ok xs) (ok ws)
    → Reads r xs a
    → Reads r ws a
Reads-written r a e h = subst (λ (zs : Bytes). Reads r zs a) (ok-injective e) h

pub Reads-return {ℓ} : {A : Type ℓ} (a : A) → Reads (return a) [] a
unfolding return
Reads-return a rest = refl

pub Reads->>= {ℓ κ} :
    {A : Type ℓ} {B : Type κ} (r : Reader A) (f : A → Reader B) (xs ys : Bytes) (a : A) (b : B)
    → Reads r xs a
    → Reads (f a) ys b
    → Reads (r >>= f) (xs ++ ys) b
unfolding ◌>>=◌
Reads->>= r f xs ys a b h k rest = rw (append_assoc xs ys rest, h (ys ++ rest), ◌>>=◌) (k rest)

-- The last read of a block.
pub Reads-last {ℓ κ} :
    {A : Type ℓ} {B : Type κ} (r : Reader A) (g : A → B) (xs : Bytes) (a : A)
    → Reads r xs a
    → Reads (r >>= λ a. return (g a)) xs (g a)
unfolding ◌>>=◌ return
Reads-last r g xs a h rest = rw (h rest, ◌>>=◌)

pub from_canonical_bytes-Reads {ℓ} :
    {A : Type ℓ} (r : Reader A) (bs : Bytes) (a : A)
    → Reads r bs a
    → from_canonical_bytes r bs ≡ ok a
unfolding from_canonical_bytes
from_canonical_bytes-Reads r bs a h =
    let e : r bs ≡ ok (a, []) = ap r (sym (append-nil bs)) ∙ h [] in rw (e, from_canonical_bytes)

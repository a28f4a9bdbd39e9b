-- ===== src/Primitives.antt =====
-- crates/scytale-primitives/src/lib.rs: hashes, outpoints and outputs. BLAKE3 is a parameter of what
-- hashes, `Bytes → Hash256`.
use scytale.Base.{ℕ, ◌-◌, ◌^◌, ◌≡◌, Bool, true, ◌&&◌, all, ◌==◌, ◌++◌, replicate, arith}
use scytale.Base.Bytes.{Bytes, bytes_eq, bytes_eq_refl, bytes_eq→≡, to_le_bytes}

-- The 32 bytes of a hash.
abbrev pub Hash256 : Type 0
Hash256 = Bytes

abbrev pub zero_hash : Hash256
zero_hash = replicate 32 0

-- `is_zero`.
abbrev pub is_zero : Hash256 → Bool
is_zero h = all (λ b. b == 0) h

pub record OutPoint : Type 0 where
  pub txid : Hash256
  pub index : ℕ

abbrev pub u32_max : ℕ
u32_max = 2 ^ 32 - 1

-- `OutPoint::null()`.
abbrev pub null : OutPoint
null = record { txid = zero_hash; index = u32_max }

unfoldable pub is_null : OutPoint → Bool
is_null o = is_zero o.txid && (o.index == u32_max)

-- The derived `==`.
unfoldable pub outpoint_eq : OutPoint → OutPoint → Bool
outpoint_eq a b = bytes_eq a.txid b.txid && (a.index == b.index)

pub outpoint_eq_refl : (a : OutPoint) → outpoint_eq a a ≡ true
unfolding outpoint_eq
outpoint_eq_refl a = ground (arith, bytes_eq_refl a.txid)

pub outpoint_eq→≡ : (a b : OutPoint) → outpoint_eq a b ≡ true → a ≡ b
unfolding outpoint_eq
outpoint_eq→≡ a b h = ground (arith, bytes_eq→≡ a.txid b.txid)

-- `to_fixed_bytes`, 36 bytes.
pub to_fixed_bytes : OutPoint → Bytes
to_fixed_bytes o = o.txid ++ to_le_bytes 4 o.index

pub record TxOut : Type 0 where
  pub value : ℕ
  pub locking_condition : Bytes

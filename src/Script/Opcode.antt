-- ===== src/Script/Opcode.antt =====
-- crates/scytale-script/src/opcode.rs: the opcodes and their bytes.
use scytale.Base.{
  ℕ, ◌≡◌, refl, Bool, ◌&&◌, Option, none, some, List, [], ◌∷◌, leb, ◌==◌, if◌then◌else◌,
}

pub data OpCode : Type 0 where
  op_0 : OpCode
  op_push_data_1 : OpCode
  op_1 : OpCode
  op_2 : OpCode
  op_3 : OpCode
  op_4 : OpCode
  op_5 : OpCode
  op_6 : OpCode
  op_7 : OpCode
  op_8 : OpCode
  op_9 : OpCode
  op_10 : OpCode
  op_11 : OpCode
  op_12 : OpCode
  op_13 : OpCode
  op_14 : OpCode
  op_15 : OpCode
  op_16 : OpCode
  op_if : OpCode
  op_else : OpCode
  op_end_if : OpCode
  op_return : OpCode
  op_dup : OpCode
  op_drop : OpCode
  op_swap : OpCode
  op_rot : OpCode
  op_2dup : OpCode
  op_equal : OpCode
  op_equal_verify : OpCode
  op_add : OpCode
  op_sub : OpCode
  op_less_than : OpCode
  op_greater_than : OpCode
  op_blake3 : OpCode
  op_check_sig : OpCode
  op_check_sig_verify : OpCode
  op_check_lock_time_verify : OpCode

-- `as_byte`.
pub as_byte : OpCode → ℕ
as_byte op_0 = 0x00
as_byte op_push_data_1 = 0x4c
as_byte op_1 = 0x51
as_byte op_2 = 0x52
as_byte op_3 = 0x53
as_byte op_4 = 0x54
as_byte op_5 = 0x55
as_byte op_6 = 0x56
as_byte op_7 = 0x57
as_byte op_8 = 0x58
as_byte op_9 = 0x59
as_byte op_10 = 0x5a
as_byte op_11 = 0x5b
as_byte op_12 = 0x5c
as_byte op_13 = 0x5d
as_byte op_14 = 0x5e
as_byte op_15 = 0x5f
as_byte op_16 = 0x60
as_byte op_if = 0x63
as_byte op_else = 0x67
as_byte op_end_if = 0x68
as_byte op_return = 0x6a
as_byte op_dup = 0x73
as_byte op_drop = 0x75
as_byte op_swap = 0x76
as_byte op_rot = 0x77
as_byte op_2dup = 0x78
as_byte op_equal = 0x87
as_byte op_equal_verify = 0x88
as_byte op_add = 0x93
as_byte op_sub = 0x94
as_byte op_less_than = 0x9b
as_byte op_greater_than = 0x9c
as_byte op_blake3 = 0xa0
as_byte op_check_sig = 0xac
as_byte op_check_sig_verify = 0xad
as_byte op_check_lock_time_verify = 0xb1

-- OP_PUSHBYTES_N.
abbrev pub is_pushbytes : ℕ → Bool
is_pushbytes byte = leb 0x01 byte && leb byte 0x4b

-- The arms of the `match` of `from_byte`, in its order.
abbrev byte_table : List (ℕ × OpCode)
byte_table =
    (0x00, op_0)
    ∷ (0x4c, op_push_data_1)
    ∷ (0x51, op_1)
    ∷ (0x52, op_2)
    ∷ (0x53, op_3)
    ∷ (0x54, op_4)
    ∷ (0x55, op_5)
    ∷ (0x56, op_6)
    ∷ (0x57, op_7)
    ∷ (0x58, op_8)
    ∷ (0x59, op_9)
    ∷ (0x5a, op_10)
    ∷ (0x5b, op_11)
    ∷ (0x5c, op_12)
    ∷ (0x5d, op_13)
    ∷ (0x5e, op_14)
    ∷ (0x5f, op_15)
    ∷ (0x60, op_16)
    ∷ (0x63, op_if)
    ∷ (0x67, op_else)
    ∷ (0x68, op_end_if)
    ∷ (0x6a, op_return)
    ∷ (0x73, op_dup)
    ∷ (0x75, op_drop)
    ∷ (0x76, op_swap)
    ∷ (0x77, op_rot)
    ∷ (0x78, op_2dup)
    ∷ (0x87, op_equal)
    ∷ (0x88, op_equal_verify)
    ∷ (0x93, op_add)
    ∷ (0x94, op_sub)
    ∷ (0x9b, op_less_than)
    ∷ (0x9c, op_greater_than)
    ∷ (0xa0, op_blake3)
    ∷ (0xac, op_check_sig)
    ∷ (0xad, op_check_sig_verify)
    ∷ (0xb1, op_check_lock_time_verify)
    ∷ []

find_byte : ℕ → List (ℕ × OpCode) → Option OpCode
find_byte byte [] = none
find_byte byte ((b, op) ∷ rest) = if byte == b then some op else find_byte byte rest

unfoldable pub from_byte : ℕ → Option OpCode
unfolding find_byte
from_byte byte = find_byte byte byte_table

-- Every opcode is read back from its byte.
pub from_byte-as_byte : (op : OpCode) → from_byte (as_byte op) ≡ some op
unfolding from_byte as_byte
from_byte-as_byte op_0 = refl
from_byte-as_byte op_push_data_1 = refl
from_byte-as_byte op_1 = refl
from_byte-as_byte op_2 = refl
from_byte-as_byte op_3 = refl
from_byte-as_byte op_4 = refl
from_byte-as_byte op_5 = refl
from_byte-as_byte op_6 = refl
from_byte-as_byte op_7 = refl
from_byte-as_byte op_8 = refl
from_byte-as_byte op_9 = refl
from_byte-as_byte op_10 = refl
from_byte-as_byte op_11 = refl
from_byte-as_byte op_12 = refl
from_byte-as_byte op_13 = refl
from_byte-as_byte op_14 = refl
from_byte-as_byte op_15 = refl
from_byte-as_byte op_16 = refl
from_byte-as_byte op_if = refl
from_byte-as_byte op_else = refl
from_byte-as_byte op_end_if = refl
from_byte-as_byte op_return = refl
from_byte-as_byte op_dup = refl
from_byte-as_byte op_drop = refl
from_byte-as_byte op_swap = refl
from_byte-as_byte op_rot = refl
from_byte-as_byte op_2dup = refl
from_byte-as_byte op_equal = refl
from_byte-as_byte op_equal_verify = refl
from_byte-as_byte op_add = refl
from_byte-as_byte op_sub = refl
from_byte-as_byte op_less_than = refl
from_byte-as_byte op_greater_than = refl
from_byte-as_byte op_blake3 = refl
from_byte-as_byte op_check_sig = refl
from_byte-as_byte op_check_sig_verify = refl
from_byte-as_byte op_check_lock_time_verify = refl

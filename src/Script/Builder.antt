-- ===== src/Script/Builder.antt =====
-- crates/scytale-script/src/builder.rs: scripts by their parts. A `ScriptBuilder` is its bytes.
use scytale.Base.{◌+◌, zero, suc, [], ◌∷◌, ◌++◌, length, take, leb, ◌==◌, if◌then◌else◌}
use scytale.Base.Bytes.{Bytes}
use scytale.Script.Int.{ℤ, pos, negsuc, int_bytes}
use scytale.Script.Opcode.{OpCode, as_byte, op_0}

pub push_opcode : OpCode → Bytes → Bytes
push_opcode opcode bytes = bytes ++ as_byte opcode ∷ []

-- What `push_data` appends.
pub data_bytes : Bytes → Bytes
data_bytes item =
    let len = length item in
    if len == 0
    then 0x00 ∷ []
    else if leb len 75
    then len ∷ item
    else if leb len 255
    then 0x4c ∷ len ∷ item
    else 0x4c ∷ 255 ∷ take 255 item

pub push_data : Bytes → Bytes → Bytes
push_data item bytes = bytes ++ data_bytes item

unfoldable pub push_int : ℤ → Bytes → Bytes
push_int (pos zero) bytes = push_opcode op_0 bytes
push_int (pos (suc n)) bytes =
    if leb (suc n) 16 then bytes ++ (0x51 + n) ∷ [] else push_data (int_bytes (pos (suc n))) bytes
push_int (negsuc n) bytes = push_data (int_bytes (negsuc n)) bytes

pub push_raw : Bytes → Bytes → Bytes
push_raw raw bytes = bytes ++ raw

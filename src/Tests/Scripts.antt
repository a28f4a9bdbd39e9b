-- ===== src/Tests/Scripts.antt =====
-- The theorems of the script engine at small scripts.
use scytale.Base.{◌≡◌, ◌↔◌, refl, Bool, true, [], ◌∷◌, replicate, ok, arith}
use scytale.Base.Bytes.{Bytes}
use scytale.Script.Int.{negsuc, is_i64, int_bytes}
use scytale.Script.Opcode.{from_byte}
use scytale.Script.Error.{ScriptContext}
use scytale.Script.Engine.{Machine, run, execute}
use scytale.Script.Engine.Bounds.{IsSound, run-IsSound}
use scytale.Script.Engine.Spend.{p2pkh, unlock, p2pkh_iff}
use scytale.Tests.Data.{hash32}

abbrev any_signature : Bytes → Bytes → Bytes → Bool
any_signature key sig digest = true

abbrev ctx : ScriptContext
ctx = record { sighash = replicate 32 0; current_block_height = 10 }

small : is_i64 (negsuc 4) ≡ true
unfolding is_i64
small = refl

abbrev start : Machine
start = record { stack = (1 ∷ []) ∷ []; budget = 3 }

run-IsSound_example :
    IsSound hash32 any_signature 3
      (run hash32 any_signature 256 ctx (0x73 ∷ 0x93 ∷ []) 0 [] start).0
run-IsSound_example =
    run-IsSound hash32 any_signature 256 ctx (0x73 ∷ 0x93 ∷ []) 0 [] 3 start
      (record { bounded = omega arith; within = omega arith })

accepted : execute hash32 any_signature 256 ctx [] (0x51 ∷ []) ≡ ok true
unfolding execute scytale.Script.Engine.execute_script run scytale.Script.Engine.step
    scytale.Script.Engine.step_opcode from_byte scytale.Script.Engine.exec_opcode
    scytale.Script.Stack.push_int scytale.Script.Stack.push int_bytes scytale.Script.Engine.accept
    scytale.Script.Stack.pop_bool scytale.Script.Stack.pop
accepted = refl

abbrev key : Bytes
key = replicate 32 7

abbrev signature : Bytes
signature = replicate 64 9

p2pkh_iff_example :
    (execute hash32 any_signature 256 ctx (unlock signature key) (p2pkh (hash32 key)) ≡ ok true)
    ↔ ((hash32 key ≡ hash32 key) × (any_signature key signature ctx.sighash ≡ true))
p2pkh_iff_example =
    p2pkh_iff hash32 any_signature 256 ctx signature key (hash32 key) (omega arith) refl refl refl
      refl

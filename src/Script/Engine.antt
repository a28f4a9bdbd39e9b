-- ===== src/Script/Engine.antt =====
-- crates/scytale-script/src/engine.rs: the interpreter. `pc` is the list of the bytes that are left, and a
-- jump over pushed data a count of bytes to skip, so the loop is a recursion on the script. BLAKE3 and
-- Ed25519 (a key that decodes, and `verify_strict`) are parameters.
pub mod Bounds
pub mod Spend
use scytale.Base.{
  ℕ, zero, suc, ◌+◌, ◌-◌, ◌≤◌, ◌<◌, ◌≡◌, Bool, true, false, ◌&&◌, ◌||◌, not, Option, none, some,
  List, [], ◌∷◌, ◌++◌, length, take, all, ltb, leb, ◌==◌, if◌then◌else◌, Result, ok, err, and_then,
}
use scytale.Base.Bytes.{Bytes, bytes_eq}
use scytale.Script.Int.{ℤ, pos, negsuc, ltb_int, checked_add, checked_sub}
use scytale.Script.Error.{
  ScriptContext, ScriptError, arithmetic_overflow, equal_verify_failed, check_sig_verify_failed,
  lock_time_not_met, op_return_encountered, budget_exceeded, unbalanced_conditionals,
  invalid_op_code, script_truncated, script_failed,
}
use scytale.Script.Opcode
use scytale.Script.Opcode.{OpCode, from_byte, is_pushbytes}
use scytale.Script.Stack.{
  ScriptStack, Method, push, pop, push_int, pop_int, push_bool, pop_bool, op_dup, op_drop, op_swap,
  op_rot, op_2dup,
}

abbrev pub default_max_ops_budget : ℕ
default_max_ops_budget = 256

-- What goes from one opcode to the next: the stack and the budget that are left.
pub record Machine : Type 0 where
  pub stack : ScriptStack
  pub budget : ℕ

-- A test that fails with an error, or leaves the stack as it is.
abbrev pub verify : Bool → ScriptError → ScriptStack → Method (Unit {0})
verify true e s = (s, ok tt)
verify false e s = (s, err e)

-- `a.checked_add(b)` and `a.checked_sub(b)`, and the push of what they give.
abbrev pub push_checked : Option ℤ → ScriptStack → Method (Unit {0})
push_checked none s = (s, err arithmetic_overflow)
push_checked (some v) s = push_int v s

-- OP_CHECKLOCKTIMEVERIFY on the popped integer.
abbrev pub check_lock_time : ℤ → ScriptContext → ScriptStack → Method (Unit {0})
check_lock_time (negsuc n) ctx s = (s, err (lock_time_not_met 0 ctx.current_block_height))
check_lock_time (pos lock_height) ctx s =
    if ltb ctx.current_block_height lock_height
    then (s, err (lock_time_not_met lock_height ctx.current_block_height))
    else (s, ok tt)

-- `*budget == 0` fails; otherwise one is taken.
abbrev pub charge {ℓ} :
    {A : Type ℓ}
    → ℕ
    → Machine
    → (Machine → Machine × Result ScriptError A)
    → Machine × Result ScriptError A
charge max_ops_budget m k = elim m.budget [
  | zero ↦ (m, err (budget_exceeded max_ops_budget))
  | suc left ↦ k record { stack = m.stack; budget = left }
]

-- A method of the stack, in the machine.
abbrev pub on_stack {ℓ κ} :
    {A : Type ℓ} {B : Type κ}
    → Machine
    → (ScriptStack → Method A)
    → (Machine → A → Machine × Result ScriptError B)
    → Machine × Result ScriptError B
on_stack m f k =
    let (s, r) = f m.stack in
    let left : Machine = record { stack = s; budget = m.budget } in
    elim r [ ok a ↦ k left a | err e ↦ (left, err e) ]

module _ (blake3 : Bytes → Bytes) (verify_strict : Bytes → Bytes → Bytes → Bool) where
  pub verify_signature : Bytes → Bytes → Bytes → Bool
  verify_signature pubkey_bytes sig_bytes sighash =
      if not (length pubkey_bytes == 32) || not (length sig_bytes == 64)
      then false
      else verify_strict pubkey_bytes sig_bytes sighash

  -- The `match` on the opcode. The byte gives the value of the small integers.
  unfoldable pub exec_opcode : ScriptContext → ℕ → OpCode → ScriptStack → Method (Unit {0})
  exec_opcode ctx op_byte Opcode.op_0 s = push [] s
  exec_opcode ctx op_byte Opcode.op_return s = (s, err op_return_encountered)
  exec_opcode ctx op_byte Opcode.op_dup s = op_dup s
  exec_opcode ctx op_byte Opcode.op_drop s = op_drop s
  exec_opcode ctx op_byte Opcode.op_swap s = op_swap s
  exec_opcode ctx op_byte Opcode.op_rot s = op_rot s
  exec_opcode ctx op_byte Opcode.op_2dup s = op_2dup s
  exec_opcode ctx op_byte Opcode.op_equal s =
      and_then (pop s) (λ s b. and_then (pop s) (λ s a. push_bool (bytes_eq a b) s))
  exec_opcode ctx op_byte Opcode.op_equal_verify s =
      and_then (pop s)
        (λ s b. and_then (pop s) (λ s a. verify (bytes_eq a b) equal_verify_failed s))
  exec_opcode ctx op_byte Opcode.op_add s =
      and_then (pop_int s) (λ s b. and_then (pop_int s) (λ s a. push_checked (checked_add a b) s))
  exec_opcode ctx op_byte Opcode.op_sub s =
      and_then (pop_int s) (λ s b. and_then (pop_int s) (λ s a. push_checked (checked_sub a b) s))
  exec_opcode ctx op_byte Opcode.op_less_than s =
      and_then (pop_int s) (λ s b. and_then (pop_int s) (λ s a. push_bool (ltb_int a b) s))
  exec_opcode ctx op_byte Opcode.op_greater_than s =
      and_then (pop_int s) (λ s b. and_then (pop_int s) (λ s a. push_bool (ltb_int b a) s))
  exec_opcode ctx op_byte Opcode.op_blake3 s = and_then (pop s) (λ s item. push (blake3 item) s)
  exec_opcode ctx op_byte Opcode.op_check_sig s = and_then (pop s) (λ s pubkey.
      and_then (pop s) (λ s sig. push_bool (verify_signature pubkey sig ctx.sighash) s))
  exec_opcode ctx op_byte Opcode.op_check_sig_verify s = and_then (pop s) (λ s pubkey.
      and_then (pop s)
        (λ s sig. verify (verify_signature pubkey sig ctx.sighash) check_sig_verify_failed s))
  exec_opcode ctx op_byte Opcode.op_check_lock_time_verify s =
      and_then (pop_int s) (λ s lock. check_lock_time lock ctx s)
  exec_opcode ctx op_byte Opcode.op_if s = (s, ok tt)
  exec_opcode ctx op_byte Opcode.op_else s = (s, ok tt)
  exec_opcode ctx op_byte Opcode.op_end_if s = (s, ok tt)
  exec_opcode ctx op_byte Opcode.op_push_data_1 s = (s, ok tt)
  exec_opcode ctx op_byte op s = push_int (pos (op_byte - 0x51 + 1)) s

  -- How the loop goes on: the bytes to skip, and the enclosing branches, the innermost first.
  pub record Next : Type 0 where
    pub skip : ℕ
    pub branches : List Bool

  abbrev pub Step : Type 0
  Step = Machine × Result ScriptError Next

  abbrev pub goes_on : ℕ → List Bool → Machine → Step
  goes_on skip branches m = (m, ok record { skip = skip; branches = branches })

  abbrev pub is_active : List Bool → Bool
  is_active branches = all (λ b. b) branches

  module _ (max_ops_budget : ℕ) (ctx : ScriptContext) where
    -- OP_IF: a condition is popped only in an active branch.
    pub step_if : List Bool → Machine → Step
    step_if branches m =
        if is_active branches
        then charge max_ops_budget m
            (λ m. on_stack m pop_bool (λ m cond. goes_on 0 (cond ∷ branches) m))
        else goes_on 0 (false ∷ branches) m

    -- OP_ELSE: inverts the innermost branch where the outer ones are all active.
    pub step_else : List Bool → Machine → Step
    step_else [] m = (m, err unbalanced_conditionals)
    step_else (last ∷ outer) m =
        if is_active outer then goes_on 0 (not last ∷ outer) m else goes_on 0 (last ∷ outer) m

    pub step_end_if : List Bool → Machine → Step
    step_end_if [] m = (m, err unbalanced_conditionals)
    step_end_if (last ∷ outer) m = goes_on 0 outer m

    -- Pushes the next `n` bytes, after `header` bytes that stand before them.
    pub step_push : ℕ → ℕ → Bytes → List Bool → Machine → Step
    step_push header n rest branches m =
        if ltb (length rest) n
        then (m, err (script_truncated n (length rest)))
        else if is_active branches
        then charge max_ops_budget m
            (λ m. on_stack m (push (take n rest)) (λ m _. goes_on (header + n) branches m))
        else goes_on (header + n) branches m

    -- OP_PUSHDATA1: the first byte is the count.
    pub step_push_data_1 : Bytes → List Bool → Machine → Step
    step_push_data_1 [] branches m = (m, err (script_truncated 1 0))
    step_push_data_1 (n ∷ rest) branches m = step_push 1 n rest branches m

    -- All other opcodes.
    unfoldable pub step_opcode : ℕ → List Bool → Machine → Step
    step_opcode op_byte branches m =
        if not (is_active branches)
        then goes_on 0 branches m
        else charge max_ops_budget m (λ m. elim (from_byte op_byte) [
          | none ↦ (m, err (invalid_op_code op_byte))
          | some opcode ↦ on_stack m (exec_opcode ctx op_byte opcode) (λ m _. goes_on 0 branches m)
        ])

    -- One round of the loop, with the bytes behind the opcode.
    unfoldable pub step : ℕ → Bytes → List Bool → Machine → Step
    step op_byte rest branches m =
        if op_byte == 0x63
        then step_if branches m
        else if op_byte == 0x67
        then step_else branches m
        else if op_byte == 0x68
        then step_end_if branches m
        else if is_pushbytes op_byte
        then step_push 0 op_byte rest branches m
        else if op_byte == 0x4c
        then step_push_data_1 rest branches m
        else step_opcode op_byte branches m

    -- The loop, with the bytes still to skip.
    unfoldable pub run : Bytes → ℕ → List Bool → Machine → Machine × Result ScriptError (Unit {0})
    run [] skip [] m = (m, ok tt)
    run [] skip (b ∷ branches) m = (m, err unbalanced_conditionals)
    run (op_byte ∷ rest) (suc skip) branches m = run rest skip branches m
    run (op_byte ∷ rest) zero branches m =
        and_then (step op_byte rest branches m) (λ m next. run rest next.skip next.branches m)

    unfoldable pub execute_script : Bytes → Machine → Machine × Result ScriptError (Unit {0})
    execute_script script m = run script 0 [] m

    -- The last test: the top of the stack is truthy.
    unfoldable pub accept : ScriptStack → Result ScriptError Bool
    accept [] = err script_failed
    accept (top ∷ s) = elim (pop_bool (top ∷ s)).1 [
      | err e ↦ err e
      | ok true ↦ ok true
      | ok false ↦ err script_failed
    ]

    unfoldable pub execute : Bytes → Bytes → Result ScriptError Bool
    execute unlocking_script locking_script =
        (and_then (execute_script unlocking_script record { stack = []; budget = max_ops_budget })
          (λ m _. and_then (execute_script locking_script m) (λ m _. (m, accept m.stack)))).1

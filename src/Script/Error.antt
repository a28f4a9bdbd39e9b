-- ===== src/Script/Error.antt =====
-- crates/scytale-script/src/error.rs and the context of src/context.rs.
use scytale.Base.{ℕ}
use scytale.Base.Bytes.{Bytes}

pub data ScriptError : Type 0 where
  stack_underflow : ScriptError
  stack_overflow : ℕ → ScriptError
  item_too_large : ℕ → ℕ → ScriptError
  invalid_integer : ℕ → ScriptError
  arithmetic_overflow : ScriptError
  equal_verify_failed : ScriptError
  check_sig_verify_failed : ScriptError
  lock_time_not_met : ℕ → ℕ → ScriptError
  op_return_encountered : ScriptError
  budget_exceeded : ℕ → ScriptError
  unbalanced_conditionals : ScriptError
  invalid_op_code : ℕ → ScriptError
  script_truncated : ℕ → ℕ → ScriptError
  script_failed : ScriptError

pub record ScriptContext : Type 0 where
  pub sighash : Bytes
  pub current_block_height : ℕ

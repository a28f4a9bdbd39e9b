-- ===== src/Script/Stack.antt =====
-- crates/scytale-script/src/stack.rs: the stack of byte strings. The list has the top first, where the
-- vector of the source has it last. Each method gives back the stack that is left, on an error too.
pub mod Bounds
use scytale.Base.{
  ℕ, zero, suc, ◌+◌, ◌-◌, ◌≤◌, ◌<◌, ◌≡◌, Bool, true, false, ◌||◌, Option, none, some, List, [], ◌∷◌,
  ◌++◌, length, all, replicate, ltb, leb, ◌==◌, if◌then◌else◌, Result, ok, err, and_then,
}
use scytale.Base.Bytes.{Bytes}
use scytale.Script.Int.{ℤ, pos, int_bytes, int_of_bytes}
use scytale.Script.Error.{
  ScriptError, stack_underflow, stack_overflow, item_too_large, invalid_integer,
}

abbrev pub max_stack_depth : ℕ
max_stack_depth = 1024

abbrev pub max_item_size : ℕ
max_item_size = 520

abbrev pub ScriptStack : Type 0
ScriptStack = List Bytes

-- What a method on `&mut self` does.
abbrev pub Method {ℓ} : Type ℓ → Type ℓ
Method A = ScriptStack × Result ScriptError A

unfoldable pub push : Bytes → ScriptStack → Method (Unit {0})
push item s =
    if leb max_stack_depth (length s)
    then (s, err (stack_overflow max_stack_depth))
    else if ltb max_item_size (length item)
    then (s, err (item_too_large (length item) max_item_size))
    else (item ∷ s, ok tt)

unfoldable pub pop : ScriptStack → Method Bytes
pop [] = ([], err stack_underflow)
pop (item ∷ s) = (s, ok item)

unfoldable pub peek : ScriptStack → Result ScriptError Bytes
peek [] = err stack_underflow
peek (item ∷ s) = ok item

unfoldable pub push_int : ℤ → ScriptStack → Method (Unit {0})
push_int v s = push (int_bytes v) s

-- `buf[..item.len()].copy_from_slice(&item)` on eight zero bytes.
abbrev pub padded : Bytes → Bytes
padded item = item ++ replicate (8 - length item) 0

pub int_of_item : Bytes → Result ScriptError ℤ
int_of_item item =
    if length item == 0
    then ok (pos 0)
    else if ltb 8 (length item)
    then err (invalid_integer (length item))
    else ok (int_of_bytes (padded item))

pub pop_int : ScriptStack → Method ℤ
pop_int s = and_then (pop s) (λ s' item. (s', int_of_item item))

unfoldable pub push_bool : Bool → ScriptStack → Method (Unit {0})
push_bool true s = push (1 ∷ []) s
push_bool false s = push [] s

-- Whether an item is truthy: some byte of it is not zero.
abbrev pub truthy : Bytes → Bool
truthy item = if (length item == 0) || all (λ b. b == 0) item then false else true

unfoldable pub pop_bool : ScriptStack → Method Bool
pop_bool s = and_then (pop s) (λ s' item. (s', ok (truthy item)))

unfoldable pub op_dup : ScriptStack → Method (Unit {0})
op_dup s = elim (peek s) [ err e ↦ (s, err e) | ok top ↦ push top s ]

pub op_drop : ScriptStack → Method (Unit {0})
op_drop s = and_then (pop s) (λ s' _. (s', ok tt))

pub op_swap : ScriptStack → Method (Unit {0})
op_swap s =
    and_then (pop s)
      (λ s top. and_then (pop s) (λ s second. and_then (push top s) (λ s _. push second s)))

pub op_rot : ScriptStack → Method (Unit {0})
op_rot s = and_then (pop s) (λ s x3. and_then (pop s) (λ s x2.
    and_then (pop s)
      (λ s x1. and_then (push x2 s) (λ s _. and_then (push x3 s) (λ s _. push x1 s)))))

pub op_2dup : ScriptStack → Method (Unit {0})
op_2dup [] = ([], err stack_underflow)
op_2dup (x2 ∷ []) = (x2 ∷ [], err stack_underflow)
op_2dup (x2 ∷ x1 ∷ s) = and_then (push x1 (x2 ∷ x1 ∷ s)) (λ s' _. push x2 s')

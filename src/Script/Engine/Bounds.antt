-- ===== src/Script/Engine/Bounds.antt =====
-- The interpreter keeps to the limits of the stack and to its budget, whatever the script.
use scytale.Base.{
  ℕ, zero, suc, ◌+◌, ◌≤◌, ◌≡◌, ap, inl, inr, Bool, true, false, not, Option, none, some, List, [],
  ◌∷◌, length, take, ltb, ◌==◌, if◌then◌else◌, Result, ok, err, and_then, and_then-eq-ok,
  Bool-cases, Result-cases, arith,
}
use scytale.Base.Bytes.{Bytes}
use scytale.Script.Int.{ℤ, pos, negsuc}
use scytale.Script.Error.{
  ScriptContext, ScriptError, invalid_op_code, script_truncated, budget_exceeded,
}
use scytale.Script.Opcode
use scytale.Script.Opcode.{OpCode, from_byte, is_pushbytes}
use scytale.Script.Stack.{ScriptStack, Method, push, pop, pop_int, pop_bool, truthy}
use scytale.Script.Stack.Bounds.{
  IsBounded, Keeps, and_then-IsBounded, push-Keeps, pop-Keeps, push_bool-Keeps, push_int-Keeps,
  pop_int-Keeps, pop_bool-Keeps, op_dup-Keeps, op_drop-Keeps, op_swap-Keeps, op_rot-Keeps,
  op_2dup-Keeps,
}
use scytale.Script.Engine.{
  Machine, verify, push_checked, check_lock_time, charge, on_stack, exec_opcode, Step, goes_on,
  is_active, step_if, step_else, step_end_if, step_push, step_push_data_1, step_opcode, step, run,
  execute_script, accept, execute,
}

verify-Keeps : (b : Bool) (e : ScriptError) → Keeps (verify b e)
verify-Keeps true e s h = h
verify-Keeps false e s h = h

push_checked-Keeps : (r : Option ℤ) → Keeps (push_checked r)
push_checked-Keeps none s h = h
push_checked-Keeps (some v) s h = push_int-Keeps v s h

check_lock_time-Keeps : (v : ℤ) (ctx : ScriptContext) → Keeps (check_lock_time v ctx)
check_lock_time-Keeps (negsuc n) ctx s h = h
check_lock_time-Keeps (pos n) ctx s h = ground arith

pop_two-Keeps {ℓ} :
    {A : Type ℓ} (k : Bytes → Bytes → ScriptStack → Method A)
    → ((b a : Bytes) → Keeps (k b a))
    → Keeps (λ s. and_then (pop s) (λ s b. and_then (pop s) (λ s a. k b a s)))
pop_two-Keeps k f s h =
    and_then-IsBounded (pop s) _ (pop-Keeps s h)
      (λ b s h. and_then-IsBounded (pop s) _ (pop-Keeps s h) (λ a s h. f b a s h))

pop_two_ints-Keeps {ℓ} :
    {A : Type ℓ} (k : ℤ → ℤ → ScriptStack → Method A)
    → ((b a : ℤ) → Keeps (k b a))
    → Keeps (λ s. and_then (pop_int s) (λ s b. and_then (pop_int s) (λ s a. k b a s)))
pop_two_ints-Keeps k f s h =
    and_then-IsBounded (pop_int s) _ (pop_int-Keeps s h)
      (λ b s h. and_then-IsBounded (pop_int s) _ (pop_int-Keeps s h) (λ a s h. f b a s h))

module _ (blake3 : Bytes → Bytes) (verify_strict : Bytes → Bytes → Bytes → Bool) where
  exec_opcode-Keeps :
      (ctx : ScriptContext) (b : ℕ) (op : OpCode)
      → Keeps (exec_opcode blake3 verify_strict ctx b op)
  unfolding exec_opcode
  exec_opcode-Keeps ctx b Opcode.op_0 s h = push-Keeps [] s h
  exec_opcode-Keeps ctx b Opcode.op_return s h = h
  exec_opcode-Keeps ctx b Opcode.op_dup s h = op_dup-Keeps s h
  exec_opcode-Keeps ctx b Opcode.op_drop s h = op_drop-Keeps s h
  exec_opcode-Keeps ctx b Opcode.op_swap s h = op_swap-Keeps s h
  exec_opcode-Keeps ctx b Opcode.op_rot s h = op_rot-Keeps s h
  exec_opcode-Keeps ctx b Opcode.op_2dup s h = op_2dup-Keeps s h
  exec_opcode-Keeps ctx b Opcode.op_equal s h = pop_two-Keeps _ (λ b a. push_bool-Keeps _) s h
  exec_opcode-Keeps ctx b Opcode.op_equal_verify s h = pop_two-Keeps _ (λ b a. verify-Keeps _ _) s h
  exec_opcode-Keeps ctx b Opcode.op_add s h = pop_two_ints-Keeps _ (λ b a. push_checked-Keeps _) s h
  exec_opcode-Keeps ctx b Opcode.op_sub s h = pop_two_ints-Keeps _ (λ b a. push_checked-Keeps _) s h
  exec_opcode-Keeps ctx b Opcode.op_less_than s h =
      pop_two_ints-Keeps _ (λ b a. push_bool-Keeps _) s h
  exec_opcode-Keeps ctx b Opcode.op_greater_than s h =
      pop_two_ints-Keeps _ (λ b a. push_bool-Keeps _) s h
  exec_opcode-Keeps ctx b Opcode.op_blake3 s h =
      and_then-IsBounded (pop s) _ (pop-Keeps s h) (λ item. push-Keeps _)
  exec_opcode-Keeps ctx b Opcode.op_check_sig s h = pop_two-Keeps _ (λ b a. push_bool-Keeps _) s h
  exec_opcode-Keeps ctx b Opcode.op_check_sig_verify s h =
      pop_two-Keeps _ (λ b a. verify-Keeps _ _) s h
  exec_opcode-Keeps ctx b Opcode.op_check_lock_time_verify s h =
      and_then-IsBounded (pop_int s) _ (pop_int-Keeps s h) (λ v. check_lock_time-Keeps v ctx)
  exec_opcode-Keeps ctx b Opcode.op_if s h = h
  exec_opcode-Keeps ctx b Opcode.op_else s h = h
  exec_opcode-Keeps ctx b Opcode.op_end_if s h = h
  exec_opcode-Keeps ctx b Opcode.op_push_data_1 s h = h
  exec_opcode-Keeps ctx b Opcode.op_1 s h = push_int-Keeps _ s h
  exec_opcode-Keeps ctx b Opcode.op_2 s h = push_int-Keeps _ s h
  exec_opcode-Keeps ctx b Opcode.op_3 s h = push_int-Keeps _ s h
  exec_opcode-Keeps ctx b Opcode.op_4 s h = push_int-Keeps _ s h
  exec_opcode-Keeps ctx b Opcode.op_5 s h = push_int-Keeps _ s h
  exec_opcode-Keeps ctx b Opcode.op_6 s h = push_int-Keeps _ s h
  exec_opcode-Keeps ctx b Opcode.op_7 s h = push_int-Keeps _ s h
  exec_opcode-Keeps ctx b Opcode.op_8 s h = push_int-Keeps _ s h
  exec_opcode-Keeps ctx b Opcode.op_9 s h = push_int-Keeps _ s h
  exec_opcode-Keeps ctx b Opcode.op_10 s h = push_int-Keeps _ s h
  exec_opcode-Keeps ctx b Opcode.op_11 s h = push_int-Keeps _ s h
  exec_opcode-Keeps ctx b Opcode.op_12 s h = push_int-Keeps _ s h
  exec_opcode-Keeps ctx b Opcode.op_13 s h = push_int-Keeps _ s h
  exec_opcode-Keeps ctx b Opcode.op_14 s h = push_int-Keeps _ s h
  exec_opcode-Keeps ctx b Opcode.op_15 s h = push_int-Keeps _ s h
  exec_opcode-Keeps ctx b Opcode.op_16 s h = push_int-Keeps _ s h

  -- The stack is bounded, and the budget at most what it was.
  pub record IsSound (budget : ℕ) (m : Machine) : Type 0 where
    pub bounded : IsBounded m.stack
    pub within : m.budget ≤ budget

  -- What is left after a step is sound, on an error too.
  record Ends {ℓ} {A : Type ℓ} (budget : ℕ) (r : Machine × Result ScriptError A) : Type 0 where
    sound : IsSound budget r.0

  ends {ℓ} :
      {A : Type ℓ} (budget : ℕ) (m : Machine) (x : Result ScriptError A)
      → IsSound budget m
      → Ends budget (m, x)
  ends budget m x h = record { sound = h }

  charge-Ends {ℓ} :
      {A : Type ℓ} (max budget : ℕ) (m : Machine) (k : Machine → Machine × Result ScriptError A)
      → IsSound budget m
      → ((m' : Machine) → IsSound budget m' → Ends budget (k m'))
      → Ends budget (charge max m k)
  charge-Ends {A = A} max budget m k h f = charged m.budget h.within
    where
      charged :
          (n : ℕ)
          → n ≤ budget
          → Ends budget (elim n as (λ _. Machine × Result ScriptError A) [
            | zero ↦ (m, err (budget_exceeded max))
            | suc left ↦ k record { stack = m.stack; budget = left }
          ])
      charged zero le = ends budget m (err (budget_exceeded max)) h
      charged (suc left) le =
          f record { stack = m.stack; budget = left }
            record { bounded = h.bounded; within = omega arith }

  on_stack-Ends {ℓ κ} :
      {A : Type ℓ} {B : Type κ} (budget : ℕ) (m : Machine) (f : ScriptStack → Method A)
      (k : Machine → A → Machine × Result ScriptError B)
      → Keeps f
      → IsSound budget m
      → ((m' : Machine) (a : A) → IsSound budget m' → Ends budget (k m' a))
      → Ends budget (on_stack m f k)
  on_stack-Ends {A = A} {B = B} budget m f k keeps h g = popped (f m.stack).1
    where
      after : Machine
      after = record { stack = (f m.stack).0; budget = m.budget }

      popped :
          (r : Result ScriptError A)
          → Ends budget (elim r as (λ _. Machine × Result ScriptError B) [
            | ok a ↦ k after a
            | err e ↦ (after, err e)
          ])
      popped (ok a) = g after a record { bounded = keeps m.stack h.bounded; within = h.within }
      popped (err e) =
          ends budget after (err e) record { bounded = keeps m.stack h.bounded; within = h.within }

  branch-Ends {ℓ} :
      {A : Type ℓ} (budget : ℕ) (b : Bool) (x y : Machine × Result ScriptError A)
      → Ends budget x
      → Ends budget y
      → Ends budget (if b then x else y)
  branch-Ends budget true x y h g = h
  branch-Ends budget false x y h g = g

  module _ (max : ℕ) (ctx : ScriptContext) where
    step_if-Ends :
        (budget : ℕ) (branches : List Bool) (m : Machine)
        → IsSound budget m
        → Ends budget (step_if blake3 verify_strict max ctx branches m)
    unfolding step_if
    step_if-Ends budget branches m h =
        let k : Machine → Bool → Step blake3 verify_strict =
          λ m cond. goes_on blake3 verify_strict 0 (cond ∷ branches) m in
        branch-Ends budget (is_active blake3 verify_strict branches)
          (charge max m (λ m. on_stack m pop_bool k))
          (goes_on blake3 verify_strict 0 (false ∷ branches) m)
          (charge-Ends max budget m (λ m. on_stack m pop_bool k) h
            (λ m h.
              on_stack-Ends budget m pop_bool k pop_bool-Keeps h
                (λ m cond h. ends budget m (k m cond).1 h)))
          (ends budget m (goes_on blake3 verify_strict 0 (false ∷ branches) m).1 h)

    step_else-Ends :
        (budget : ℕ) (branches : List Bool) (m : Machine)
        → IsSound budget m
        → Ends budget (step_else blake3 verify_strict max ctx branches m)
    unfolding step_else
    step_else-Ends budget [] m h = ends budget m _ h
    step_else-Ends budget (last ∷ outer) m h =
        branch-Ends budget (is_active blake3 verify_strict outer)
          (goes_on blake3 verify_strict 0 (not last ∷ outer) m)
          (goes_on blake3 verify_strict 0 (last ∷ outer) m) (ends budget m _ h) (ends budget m _ h)

    step_push-Ends :
        (budget header n : ℕ) (rest : Bytes) (branches : List Bool) (m : Machine)
        → IsSound budget m
        → Ends budget (step_push blake3 verify_strict max ctx header n rest branches m)
    unfolding step_push
    step_push-Ends budget header n rest branches m h =
        let k : Machine → Unit {0} → Step blake3 verify_strict =
          λ m u. goes_on blake3 verify_strict (header + n) branches m in
        branch-Ends budget (ltb (length rest) n) (m, err (script_truncated n (length rest))) _
          (ends budget m (err (script_truncated n (length rest))) h)
          (branch-Ends budget (is_active blake3 verify_strict branches)
            (charge max m (λ m. on_stack m (push (take n rest)) k))
            (goes_on blake3 verify_strict (header + n) branches m)
            (charge-Ends max budget m (λ m. on_stack m (push (take n rest)) k) h
              (λ m h.
                on_stack-Ends budget m (push (take n rest)) k (push-Keeps (take n rest)) h
                  (λ m u h. ends budget m (k m u).1 h)))
            (ends budget m (goes_on blake3 verify_strict (header + n) branches m).1 h))

    step_opcode-Ends :
        (budget b : ℕ) (branches : List Bool) (m : Machine)
        → IsSound budget m
        → Ends budget (step_opcode blake3 verify_strict max ctx b branches m)
    unfolding step_opcode
    step_opcode-Ends budget b branches m h =
        branch-Ends budget (not (is_active blake3 verify_strict branches)) _ _ (ends budget m _ h)
          (charge-Ends max budget m _ h (λ m h. known m h (from_byte b)))
      where
        known :
            (m : Machine)
            → IsSound budget m
            → (found : Option OpCode)
            → Ends budget (elim found as (λ _. Step blake3 verify_strict) [
              | none ↦ (m, err (invalid_op_code b))
              | some opcode ↦
                  on_stack m
                    (exec_opcode blake3 verify_strict ctx b opcode)
                    (λ m _. goes_on blake3 verify_strict 0 branches m)
            ])
        known m h none = ends budget m (err (invalid_op_code b)) h
        known m h (some op) =
            on_stack-Ends budget m (exec_opcode blake3 verify_strict ctx b op)
              (λ m u. goes_on blake3 verify_strict 0 branches m) (exec_opcode-Keeps ctx b op) h
              (λ m u h. ends budget m (goes_on blake3 verify_strict 0 branches m).1 h)

    step-Ends :
        (budget b : ℕ) (rest : Bytes) (branches : List Bool) (m : Machine)
        → IsSound budget m
        → Ends budget (step blake3 verify_strict max ctx b rest branches m)
    unfolding step step_push_data_1 step_end_if
    step-Ends budget b rest branches m h =
        branch-Ends budget (b == 0x63) _ _ (step_if-Ends budget branches m h) (
          branch-Ends budget (b == 0x67) _ _ (step_else-Ends budget branches m h) (
            branch-Ends budget (b == 0x68) _ _ (end_if branches) (
              branch-Ends budget (is_pushbytes b) _ _ (step_push-Ends budget 0 b rest branches m h)
                (branch-Ends budget (b == 0x4c) _ _ (push_data rest)
                  (step_opcode-Ends budget b branches m h)))))
      where
        end_if : (bs : List Bool) → Ends budget (step_end_if blake3 verify_strict max ctx bs m)
        end_if [] = ends budget m _ h
        end_if (last ∷ outer) = ends budget m _ h

        push_data :
            (bs : Bytes) → Ends budget (step_push_data_1 blake3 verify_strict max ctx bs branches m)
        push_data [] = ends budget m _ h
        push_data (n ∷ bs) = step_push-Ends budget 1 n bs branches m h

    -- From a bounded stack every script ends, on an error too, with a stack of at most 1024 items of at most
    -- 520 bytes each, and with no more of the budget than it began with.
    pub run-IsSound :
        (script : Bytes) (skip : ℕ) (branches : List Bool) (budget : ℕ) (m : Machine)
        → IsSound budget m
        → IsSound budget (run blake3 verify_strict max ctx script skip branches m).0
    unfolding run
    run-IsSound [] skip [] budget m h = h
    run-IsSound [] skip (b ∷ branches) budget m h = h
    run-IsSound (b ∷ rest) (suc skip) branches budget m h =
        run-IsSound rest skip branches budget m h
    run-IsSound (b ∷ rest) zero branches budget m h =
        let stepped = step-Ends budget b rest branches m h in
        elim (Result-cases (step blake3 verify_strict max ctx b rest branches m).1) [
          | inl (next, e) ↦ rw e (run-IsSound rest next.skip next.branches budget _ stepped.sound)
          | inr (x, e) ↦ rw e stepped.sound
        ]

    accept-true :
        (s : ScriptStack) (b : Bool) → accept blake3 verify_strict max ctx s ≡ ok b → b ≡ true
    unfolding accept pop_bool pop
    accept-true [] b h = absurd (ground arith)
    accept-true (top ∷ s) b h = elim (Bool-cases (truthy top)) [
      | inl t ↦ ground arith
      | inr f ↦ absurd (ground arith)
    ]

    -- A script is never accepted as false: `execute` gives true or an error.
    pub execute-true :
        (unlocking_script locking_script : Bytes) (b : Bool)
        → execute blake3 verify_strict max ctx unlocking_script locking_script ≡ ok b
        → b ≡ true
    unfolding execute
    execute-true u l b h =
        let first =
          execute_script blake3 verify_strict max ctx u record { stack = []; budget = max } in
        let whole = and_then first (λ m _.
          and_then (execute_script blake3 verify_strict max ctx l m)
            (λ m _. (m, accept blake3 verify_strict max ctx m.stack))) in
        let (m₁, u₁, e₁, f₁) =
          and_then-eq-ok first _ {s' = whole.0} {b = b} (ap (λ r. (whole.0, r)) h) in
        let (m₂, u₂, e₂, f₂) =
          and_then-eq-ok (execute_script blake3 verify_strict max ctx l m₁) _ {s' = whole.0} {b = b}
            f₁ in
        accept-true m₂.stack b (ap (λ p. p.1) f₂)

-- ===== src/Script/Stack/Bounds.antt =====
-- The limits that stack.rs sets are kept by every method.
use scytale.Base.{◌≤◌, Bool, true, false, [], ◌∷◌, length, All, ok, err, and_then, arith}
use scytale.Base.Bytes.{Bytes}
use scytale.Script.Int.{ℤ}
use scytale.Script.Stack.{
  max_stack_depth, max_item_size, ScriptStack, Method, push, pop, peek, push_int, pop_int,
  push_bool, pop_bool, op_dup, op_drop, op_swap, op_rot, op_2dup,
}

-- At most 1024 items, none longer than 520 bytes.
abbrev pub IsBounded : ScriptStack → Type 0
IsBounded s = (length s ≤ max_stack_depth) × All (λ item. length item ≤ max_item_size) s

abbrev pub Keeps {ℓ} : {A : Type ℓ} → (ScriptStack → Method A) → Type 0
Keeps f = (s : ScriptStack) → IsBounded s → IsBounded (f s).0

pub and_then-IsBounded {ℓ κ} :
    {A : Type ℓ} {B : Type κ} (m : Method A) (k : ScriptStack → A → Method B)
    → IsBounded m.0
    → ((a : A) → Keeps (λ s. k s a))
    → IsBounded (and_then m k).0
and_then-IsBounded (s, ok a) k h f = f a s h
and_then-IsBounded (s, err e) k h f = h

pub push-Keeps : (item : Bytes) → Keeps (push item)
unfolding push
push-Keeps item s h = ground arith

pub pop-Keeps : Keeps pop
unfolding pop
pop-Keeps [] h = h
pop-Keeps (item ∷ s) h = ground arith

pub push_bool-Keeps : (b : Bool) → Keeps (push_bool b)
unfolding push_bool
push_bool-Keeps true = push-Keeps (1 ∷ [])
push_bool-Keeps false = push-Keeps []

pub push_int-Keeps : (v : ℤ) → Keeps (push_int v)
unfolding push_int
push_int-Keeps v s h = push-Keeps _ s h

pub pop_int-Keeps : Keeps pop_int
unfolding pop_int
pop_int-Keeps s h = and_then-IsBounded (pop s) _ (pop-Keeps s h) (λ a s g. g)

pub pop_bool-Keeps : Keeps pop_bool
unfolding pop_bool
pop_bool-Keeps s h = and_then-IsBounded (pop s) _ (pop-Keeps s h) (λ a s g. g)

pub op_dup-Keeps : Keeps op_dup
unfolding op_dup peek
op_dup-Keeps [] h = h
op_dup-Keeps (x ∷ s) h = push-Keeps x (x ∷ s) h

pub op_drop-Keeps : Keeps op_drop
unfolding op_drop
op_drop-Keeps s h = and_then-IsBounded (pop s) _ (pop-Keeps s h) (λ a s g. g)

pub op_swap-Keeps : Keeps op_swap
unfolding op_swap
op_swap-Keeps s h = and_then-IsBounded (pop s) _ (pop-Keeps s h) (λ top s h.
    and_then-IsBounded (pop s) _ (pop-Keeps s h) (λ second s h.
      and_then-IsBounded (push top s) _ (push-Keeps top s h) (λ u s h. push-Keeps second s h)))

pub op_rot-Keeps : Keeps op_rot
unfolding op_rot
op_rot-Keeps s h = and_then-IsBounded (pop s) _ (pop-Keeps s h) (λ x3 s h.
    and_then-IsBounded (pop s) _ (pop-Keeps s h) (λ x2 s h.
      and_then-IsBounded (pop s) _ (pop-Keeps s h) (λ x1 s h.
        and_then-IsBounded (push x2 s) _ (push-Keeps x2 s h) (λ u s h.
          and_then-IsBounded (push x3 s) _ (push-Keeps x3 s h) (λ u s h. push-Keeps x1 s h)))))

pub op_2dup-Keeps : Keeps op_2dup
unfolding op_2dup
op_2dup-Keeps [] h = h
op_2dup-Keeps (x2 ∷ []) h = h
op_2dup-Keeps (x2 ∷ x1 ∷ s) h =
    and_then-IsBounded (push x1 (x2 ∷ x1 ∷ s)) _ (push-Keeps x1 (x2 ∷ x1 ∷ s) h)
      (λ u s h. push-Keeps x2 s h)

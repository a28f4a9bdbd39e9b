-- ===== src/Script/Engine/Spend.antt =====
-- What spending takes: the pay-to-public-key-hash script that the genesis outputs carry, and OP_RETURN.
use scytale.Base.{
  ℕ, zero, suc, ◌+◌, ◌-◌, ◌≤◌, ◌<◌, ◌≡◌, ◌≢◌, ◌↔◌, refl, sym, ap, ◌∙◌, ◌⊎◌, inl, inr, Bool, true,
  false, some, [], ◌∷◌, ◌++◌, length, take, ltb, ◌==◌, if◌then◌else◌, Result, ok, err, and_then,
  Bool-cases, arith,
}
use scytale.Base.Bytes.{Bytes, bytes_eq, bytes_eq_refl, bytes_eq→≡}
use scytale.Script.Error.{
  ScriptContext, ScriptError, equal_verify_failed, script_failed, op_return_encountered,
  budget_exceeded,
}
use scytale.Script.Opcode
use scytale.Script.Opcode.{OpCode, from_byte, is_pushbytes}
use scytale.Script.Stack.{
  ScriptStack, push, pop, peek, pop_bool, push_bool, op_dup, max_stack_depth, max_item_size,
}
use scytale.Script.Engine.{
  Machine, on_stack, verify_signature, exec_opcode, step_push, step_opcode, step, run,
  execute_script, accept, execute,
}

take-append : (xs ys : Bytes) → take (length xs) (xs ++ ys) ≡ xs
take-append [] ys = refl
take-append (x ∷ xs) ys = ap (λ zs. x ∷ zs) (take-append xs ys)

length-append : (xs ys : Bytes) → length (xs ++ ys) ≡ length xs + length ys
length-append [] ys = omega arith
length-append (x ∷ xs) ys = omega (arith, length-append xs ys)

-- OP_DUP OP_BLAKE3 <key_hash> OP_EQUALVERIFY OP_CHECKSIG, as the genesis outputs have it.
abbrev pub p2pkh : Bytes → Bytes
p2pkh key_hash = 0x73 ∷ 0xa0 ∷ 32 ∷ (key_hash ++ 0x88 ∷ 0xac ∷ [])

-- The pushes of a signature and a key.
abbrev pub unlock : Bytes → Bytes → Bytes
unlock sig pubkey = 64 ∷ (sig ++ 32 ∷ (pubkey ++ []))

push-fits :
    (item : Bytes) (s : ScriptStack)
    → length s < max_stack_depth
    → length item ≤ max_item_size
    → push item s ≡ (item ∷ s, ok tt)
unfolding push
push-fits item s depth size = ground arith

module _ (blake3 : Bytes → Bytes) (verify_strict : Bytes → Bytes → Bytes → Bool) (max : ℕ)
    (ctx : ScriptContext) where
  abbrev runs : Bytes → ℕ → Machine → Machine × Result ScriptError (Unit {0})
  runs script skip m = run blake3 verify_strict max ctx script skip [] m

  run-skip : (xs rest : Bytes) (m : Machine) → runs (xs ++ rest) (length xs) m ≡ runs rest 0 m
  unfolding run
  run-skip [] rest m = refl
  run-skip (x ∷ xs) rest m = run-skip xs rest m

  step-push :
      (item rest : Bytes) (s : ScriptStack) (budget : ℕ)
      → 1 ≤ length item
      → length item ≤ 75
      → length s < max_stack_depth
      → step blake3 verify_strict max ctx
          (length item)
          (item ++ rest)
          []
          record { stack = s; budget = suc budget }
        ≡ (
          record { stack = item ∷ s; budget = budget },
          ok record { skip = 0 + length item; branches = [] },
        )
  unfolding step step_push
  step-push item rest s budget low high depth =
      let fits : length item ≤ length (item ++ rest) = omega (arith, length-append item rest) in
      let t63 : (length item == 0x63) ≡ false = ground arith in
      let t67 : (length item == 0x67) ≡ false = ground arith in
      let t68 : (length item == 0x68) ≡ false = ground arith in
      let pb : is_pushbytes (length item) ≡ true = ground arith in
      let long : ltb (length (item ++ rest)) (length item) ≡ false = ground arith in
      let fitted : push (take (length item) (item ++ rest)) s ≡ (item ∷ s, ok tt) =
        rw (take-append item rest) (push-fits item s depth (omega arith)) in
      rw (t63, t67, t68, pb, step_push, long, on_stack, fitted, ap (λ p. p.0) fitted) refl

  -- A direct push of 1 to 75 bytes puts them on the stack and takes one from the budget.
  run-push :
      (item rest : Bytes) (s : ScriptStack) (budget : ℕ)
      → 1 ≤ length item
      → length item ≤ 75
      → length s < max_stack_depth
      → runs (length item ∷ (item ++ rest)) 0 record { stack = s; budget = suc budget }
        ≡ runs rest 0 record { stack = item ∷ s; budget = budget }
  unfolding run step step_push push
  run-push item rest s budget low high depth =
      let no_header : 0 + length item ≡ length item = omega arith in
      rw (step-push item rest s budget low high depth, no_header)
        (run-skip item rest record { stack = item ∷ s; budget = budget })

  -- One opcode that is no push and no branch.
  run-opcode :
      (op_byte : ℕ) (op : OpCode) (rest : Bytes) (s s' : ScriptStack) (budget : ℕ)
      → 0x69 ≤ op_byte
      → from_byte op_byte ≡ some op
      → exec_opcode blake3 verify_strict ctx op_byte op s ≡ (s', ok tt)
      → runs (op_byte ∷ rest) 0 record { stack = s; budget = suc budget }
        ≡ runs rest 0 record { stack = s'; budget = budget }
  unfolding run step step_opcode
  run-opcode b op rest s s' budget high known does =
      let t63 : (b == 0x63) ≡ false = ground arith in
      let t67 : (b == 0x67) ≡ false = ground arith in
      let t68 : (b == 0x68) ≡ false = ground arith in
      let t4c : (b == 0x4c) ≡ false = ground arith in
      let pb : is_pushbytes b ≡ false = ground arith in
      rw (t63, t67, t68, pb, t4c, known, on_stack, does, ap (λ p. p.0) does) refl

  -- One that fails ends the script.
  run-fails :
      (op_byte : ℕ) (op : OpCode) (rest : Bytes) (s s' : ScriptStack) (budget : ℕ) (e : ScriptError)
      → 0x69 ≤ op_byte
      → from_byte op_byte ≡ some op
      → exec_opcode blake3 verify_strict ctx op_byte op s ≡ (s', err e)
      → (runs (op_byte ∷ rest) 0 record { stack = s; budget = suc budget }).1 ≡ err e
  unfolding run step step_opcode
  run-fails b op rest s s' budget e high known does =
      let t63 : (b == 0x63) ≡ false = ground arith in
      let t67 : (b == 0x67) ≡ false = ground arith in
      let t68 : (b == 0x68) ≡ false = ground arith in
      let t4c : (b == 0x4c) ≡ false = ground arith in
      let pb : is_pushbytes b ≡ false = ground arith in
      rw (t63, t67, t68, pb, t4c, known, on_stack, does) refl

  unlocked :
      (sig pubkey : Bytes) (budget : ℕ)
      → length sig ≡ 64
      → length pubkey ≡ 32
      → runs (unlock sig pubkey) 0 record { stack = []; budget = suc (suc budget) }
        ≡ (record { stack = pubkey ∷ sig ∷ []; budget = budget }, ok tt)
  unfolding run
  unlocked sig pubkey budget hs hk =
      let first =
        run-push sig (32 ∷ (pubkey ++ [])) [] (suc budget) (omega arith) (omega arith)
          (omega arith) in
      let second = run-push pubkey [] (sig ∷ []) budget (omega arith) (omega arith) (omega arith) in
      (rw hs at first) ∙ (rw hk at second)

  -- Up to the comparison with the hash that the output names.
  checked :
      (sig pubkey key_hash : Bytes) (budget : ℕ)
      → length key_hash ≡ 32
      → length (blake3 pubkey) ≡ 32
      → length pubkey ≡ 32
      → runs
          (p2pkh key_hash)
          0
          record { stack = pubkey ∷ sig ∷ []; budget = suc (suc (suc (suc (suc budget)))) }
        ≡ runs (0x88 ∷ 0xac ∷ []) 0 record {
          stack = key_hash ∷ blake3 pubkey ∷ pubkey ∷ sig ∷ [];
          budget = suc (suc budget);
        }
  unfolding from_byte exec_opcode op_dup peek pop
  checked sig pubkey key_hash budget hh hb hk =
      let tail : Bytes = 0x88 ∷ 0xac ∷ [] in
      let dup =
        run-opcode 0x73 Opcode.op_dup (0xa0 ∷ 32 ∷ (key_hash ++ tail)) (pubkey ∷ sig ∷ [])
          (pubkey ∷ pubkey ∷ sig ∷ []) (suc (suc (suc (suc budget)))) (omega arith) refl
          (push-fits pubkey (pubkey ∷ sig ∷ []) (omega arith) (omega arith)) in
      let hash =
        run-opcode 0xa0 Opcode.op_blake3 (32 ∷ (key_hash ++ tail)) (pubkey ∷ pubkey ∷ sig ∷ [])
          (blake3 pubkey ∷ pubkey ∷ sig ∷ []) (suc (suc (suc budget))) (omega arith) refl
          (push-fits (blake3 pubkey) (pubkey ∷ sig ∷ []) (omega arith) (omega arith)) in
      let named =
        run-push key_hash tail (blake3 pubkey ∷ pubkey ∷ sig ∷ []) (suc (suc budget)) (omega arith)
          (omega arith) (omega arith) in
      dup ∙ (hash ∙ (rw hh at named))

  abbrev bool_item : Bool → Bytes
  bool_item b = if b then 1 ∷ [] else []

  push_bool-fits : (b : Bool) → push_bool b [] ≡ (bool_item b ∷ [], ok tt)
  unfolding push_bool
  push_bool-fits true = push-fits (1 ∷ []) [] (omega arith) (omega arith)
  push_bool-fits false = push-fits [] [] (omega arith) (omega arith)

  -- The hash is right: the signature decides.
  matched :
      (sig pubkey key_hash : Bytes) (budget : ℕ)
      → bytes_eq (blake3 pubkey) key_hash ≡ true
      → runs
          (0x88 ∷ 0xac ∷ [])
          0
          record { stack = key_hash ∷ blake3 pubkey ∷ pubkey ∷ sig ∷ []; budget = suc (suc budget) }
        ≡ (
          record {
            stack = bool_item (verify_signature blake3 verify_strict pubkey sig ctx.sighash) ∷ [];
            budget = budget;
          },
          ok tt,
        )
  unfolding from_byte exec_opcode pop run
  matched sig pubkey key_hash budget same =
      let equal =
        run-opcode 0x88 Opcode.op_equal_verify (0xac ∷ [])
          (key_hash ∷ blake3 pubkey ∷ pubkey ∷ sig ∷ []) (pubkey ∷ sig ∷ []) (suc budget)
          (omega arith) refl (rw same refl) in
      let signed =
        run-opcode 0xac Opcode.op_check_sig [] (pubkey ∷ sig ∷ [])
          (bool_item (verify_signature blake3 verify_strict pubkey sig ctx.sighash) ∷ []) budget
          (omega arith) refl
          (push_bool-fits (verify_signature blake3 verify_strict pubkey sig ctx.sighash)) in
      equal ∙ signed

  -- The hash is wrong: the script fails.
  unmatched :
      (sig pubkey key_hash : Bytes) (budget : ℕ)
      → bytes_eq (blake3 pubkey) key_hash ≡ false
      → (runs (0x88 ∷ 0xac ∷ []) 0 record {
        stack = key_hash ∷ blake3 pubkey ∷ pubkey ∷ sig ∷ [];
        budget = suc (suc budget);
      }).1
        ≡ err equal_verify_failed
  unfolding from_byte exec_opcode pop
  unmatched sig pubkey key_hash budget other =
      run-fails 0x88 Opcode.op_equal_verify (0xac ∷ [])
        (key_hash ∷ blake3 pubkey ∷ pubkey ∷ sig ∷ []) (pubkey ∷ sig ∷ []) (suc budget)
        equal_verify_failed (omega arith) refl (rw other refl)

  accept-bool_item :
      (b : Bool)
      → accept blake3 verify_strict max ctx (bool_item b ∷ [])
        ≡ (if b then ok true else err script_failed)
  unfolding accept pop_bool pop
  accept-bool_item true = refl
  accept-bool_item false = refl

  -- The end of `execute`.
  abbrev finish : Machine × Result ScriptError (Unit {0}) → Result ScriptError Bool
  finish r = (and_then r (λ m _. (m, accept blake3 verify_strict max ctx m.stack))).1

  failing :
      (r : Machine × Result ScriptError (Unit {0})) (e : ScriptError)
      → r.1 ≡ err e
      → finish r ≡ err e
  failing (m, ok u) e h = absurd (ground arith)
  failing (m, err x) e h = ground arith

  second :
      (u l : Bytes) (m : Machine)
      → runs u 0 record { stack = []; budget = max } ≡ (m, ok tt)
      → execute blake3 verify_strict max ctx u l ≡ finish (runs l 0 m)
  unfolding execute execute_script
  second u l m e =
      ap
        (λ r.
          (and_then r (λ m _.
            and_then (runs l 0 m) (λ m _. (m, accept blake3 verify_strict max ctx m.stack)))).1)
        e

  decided :
      (sig pubkey key_hash : Bytes) (budget : ℕ)
      → max ≡ suc (suc (suc (suc (suc (suc (suc budget))))))
      → length sig ≡ 64
      → length pubkey ≡ 32
      → length key_hash ≡ 32
      → length (blake3 pubkey) ≡ 32
      → execute blake3 verify_strict max ctx (unlock sig pubkey) (p2pkh key_hash) ≡ (
          if bytes_eq (blake3 pubkey) key_hash
          then (if verify_signature blake3 verify_strict pubkey sig ctx.sighash
              then ok true
              else err script_failed)
          else err equal_verify_failed)
  decided sig pubkey key_hash budget enough hs hk hh hb =
      let start =
        ap (λ (t : ℕ). runs (unlock sig pubkey) 0 record { stack = []; budget = t }) enough
        ∙ unlocked sig pubkey (suc (suc (suc (suc (suc budget))))) hs hk in
      second (unlock sig pubkey) (p2pkh key_hash) _ start
      ∙ (ap finish (checked sig pubkey key_hash budget hh hb hk)
          ∙ compared (Bool-cases (bytes_eq (blake3 pubkey) key_hash)))
    where
      last : Machine × Result ScriptError (Unit {0})
      last =
          runs (0x88 ∷ 0xac ∷ []) 0 record {
            stack = key_hash ∷ blake3 pubkey ∷ pubkey ∷ sig ∷ [];
            budget = suc (suc budget);
          }

      compared :
          ((bytes_eq (blake3 pubkey) key_hash ≡ true) ⊎ (bytes_eq (blake3 pubkey) key_hash ≡ false))
          → finish last ≡ (
              if bytes_eq (blake3 pubkey) key_hash
              then (if verify_signature blake3 verify_strict pubkey sig ctx.sighash
                  then ok true
                  else err script_failed)
              else err equal_verify_failed)
      compared (inl same) =
          ap finish (matched sig pubkey key_hash budget same)
          ∙ (accept-bool_item (verify_signature blake3 verify_strict pubkey sig ctx.sighash)
              ∙ rw same refl)
      compared (inr other) =
          failing last equal_verify_failed (unmatched sig pubkey key_hash budget other)
          ∙ rw other refl

  both :
      (b v : Bool)
      → ((if b then (if v then ok true else err script_failed) else err equal_verify_failed)
          ≡ ok true)
        ↔ ((b ≡ true) × (v ≡ true))
  both true true = ((λ h. (refl, refl)), λ h. refl)
  both true false = ((λ h. absurd (ground arith)), λ h. absurd (ground arith))
  both false v = ((λ h. absurd (ground arith)), λ h. absurd (ground arith))

  -- With a budget of seven or more, a signature and a key spend a pay-to-public-key-hash output exactly where
  -- the key hashes to what the output names and the signature verifies.
  pub p2pkh_iff :
      (sig pubkey key_hash : Bytes)
      → 7 ≤ max
      → length sig ≡ 64
      → length pubkey ≡ 32
      → length key_hash ≡ 32
      → length (blake3 pubkey) ≡ 32
      → (execute blake3 verify_strict max ctx (unlock sig pubkey) (p2pkh key_hash) ≡ ok true)
        ↔ ((blake3 pubkey ≡ key_hash) × (verify_strict pubkey sig ctx.sighash ≡ true))
  unfolding verify_signature
  p2pkh_iff sig pubkey key_hash budget hs hk hh hb =
      let d = decided sig pubkey key_hash (max - 7) (omega arith) hs hk hh hb in
      let v : verify_signature blake3 verify_strict pubkey sig ctx.sighash
          ≡ verify_strict pubkey sig ctx.sighash =
        rw (hk, hs) refl in
      let (only, back) =
        both (bytes_eq (blake3 pubkey) key_hash) (verify_strict pubkey sig ctx.sighash) in
      (
        (λ h.
            let (same, signed) = only (sym (rw v at d) ∙ h) in
            (bytes_eq→≡ (blake3 pubkey) key_hash same, signed)),
        λ h. (rw v at d) ∙ back (rw h.0 (bytes_eq_refl key_hash), h.1),
      )

  op_return-fails :
      (rest : Bytes) (s : ScriptStack) (budget : ℕ)
      → (e : ScriptError) × ((runs (0x6a ∷ rest) 0 record { stack = s; budget = budget }).1 ≡ err e)
  unfolding from_byte exec_opcode run step step_opcode
  op_return-fails rest s zero = (budget_exceeded max, refl)
  op_return-fails rest s (suc budget) = (op_return_encountered, refl)

  then_fails :
      (r : Machine × Result ScriptError (Unit {0}))
      (k : Machine → Machine × Result ScriptError (Unit {0})) (b : Bool)
      → ((m : Machine) → (e : ScriptError) × ((k m).1 ≡ err e))
      → (and_then r
          (λ m _. and_then (k m) (λ m _. (m, accept blake3 verify_strict max ctx m.stack)))).1
        ≢ ok b
  then_fails (m, err x) k b f h = absurd (ground arith)
  then_fails (m, ok u) k b f h =
      let (e, g) = f m in let ends = failing (k m) e g in absurd (ground arith)

  -- An output whose script begins with OP_RETURN is spent by no script.
  pub op_return_unspendable :
      (unlocking_script rest : Bytes) (b : Bool)
      → execute blake3 verify_strict max ctx unlocking_script (0x6a ∷ rest) ≢ ok b
  unfolding execute execute_script
  op_return_unspendable u rest b =
      then_fails (runs u 0 record { stack = []; budget = max }) (λ m. runs (0x6a ∷ rest) 0 m) b
        (λ m. op_return-fails rest m.stack m.budget)

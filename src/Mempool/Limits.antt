-- ===== src/Mempool/Limits.antt =====
-- crates/scytale-mempool/src/pool.rs: what an admission guarantees of the transaction and of the size of the pool,
-- and where it does not keep to the limits.
use scytale.Base.{
  ℕ, suc, ◌+◌, ◌-◌, ◌^◌, ◌≤◌, ◌<◌, ◌≡◌, refl, ap, subst, ◌∙◌, inl, inr, true, false, Bool-cases,
  Result-cases, Option, none, some, List, [], ◌∷◌, ltb, length, Result, ok, err, and_then, arith,
  lt→ltb,
}
use scytale.Base.Bytes.{Bytes, bytes_eq_refl}
use scytale.Base.Words.{u64_max}
use scytale.Base.Maps.{bytes_key, lookup, insert, lookup-insert}
use scytale.Primitives.{Hash256}
use scytale.Core.Types.{Transaction, UtxoEntry}
use scytale.Core.Transaction.{is_coinbase, validate_stateless, total_output_quanta}
use scytale.Core.Transaction.Checks.{outputs_value, total_output_quanta-eq-ok}
use scytale.Core.Utxo.{UtxoSet}
use scytale.Core.Authorization.{AuthorizationVerifier, verify_transaction_authorization}
use scytale.Mempool.{
  MempoolError, mempool_full, MempoolEntry, Mempool, PriorityKey, outpoints, size_of, new_entry,
}
use scytale.Mempool.Removal.{remove_transaction_and_descendants}
use scytale.Mempool.Admission.{
  over_capacity, lowest_key, evict_loop, make_room, store_entry, commit_entry, insert_entry,
  check_admission, admit_transaction, resolve_inputs, add_values, fee_of,
}
use scytale.Mempool.Index.{IsIndexed, remove_absent}
use scytale.Mempool.Index.Store.{IsNew, removed_absent}
use scytale.Mempool.Index.Capacity.{HasRoom, Evicted, make_room-Evicted, no_entries}
use scytale.Mempool.Safety.{
  Reachable, Reachable-IsSound, check_admission-IsAdmissible, admissible-IsNew, room_fits,
}

-- The pool keeps to its limits.
abbrev pub WithinLimits : Mempool → Type 0
WithinLimits p = (length p.entries ≤ p.max_count) × (p.total_bytes ≤ p.max_bytes)

store-count :
    (e : MempoolEntry) (p : Mempool)
    → IsNew e p
    → length (store_entry e p).entries ≡ suc (length p.entries)
unfolding store_entry insert
store-count e p fresh = ap (λ m. suc (length m)) (remove_absent e.txid p.entries fresh.absent)

module _ (blake3 : Bytes → Hash256) (verify : AuthorizationVerifier) where
  -- Room for an entry that alone fits is room within the limits.
  roomy :
      (p : Mempool) (size : ℕ)
      → IsIndexed p
      → HasRoom size p
      → p.max_bytes < u64_max
      → size ≤ p.max_bytes
      → 0 < p.max_count
      → (p.total_bytes + size ≤ p.max_bytes) × (length p.entries < p.max_count)
  roomy p size inv (inl room) limit fits some_room = room_fits blake3 verify p size room limit
  roomy p size inv (inr empty) limit fits some_room =
      let (no_entry, no_bytes) = no_entries p inv empty in
      let zero_length : length p.entries ≡ 0 = ap length no_entry in omega arith

  commit_within :
      (e : MempoolEntry) (parents : List Hash256) (p : Mempool)
      → IsNew e p
      → (p.total_bytes + e.size_bytes ≤ p.max_bytes) × (length p.entries < p.max_count)
      → p.max_bytes < u64_max
      → WithinLimits (commit_entry e parents p)
        × (lookup e.txid (commit_entry e parents p).entries ≡ some e)
  unfolding commit_entry store_entry
  commit_within e parents p fresh (bytes, count) limit = (
    (omega (arith, store-count e p fresh), ground arith),
    ground (arith, lookup-insert e.txid e.txid e p.entries, bytes_eq_refl e.txid),
  )

  committed_within :
      (p q : Mempool) (e : MempoolEntry) (parents : List Hash256) (id : Hash256)
      (out : Mempool × Result MempoolError (Option Hash256))
      → p.max_bytes < u64_max
      → e.size_bytes ≤ p.max_bytes
      → 0 < p.max_count
      → Evicted e p out
      → and_then out (λ p' _. (commit_entry e parents p', ok e.txid)) ≡ (q, ok id)
      → WithinLimits q × (lookup id q.entries ≡ some e)
  committed_within p q e parents id (r, err f) limit fits room evicted done = absurd (ground arith)
  committed_within p q e parents id (r, ok last) limit fits room (inv, fresh, count, bytes, more)
        done =
      let space = roomy r e.size_bytes inv more (omega arith) (omega arith) (omega arith) in
      let both = commit_within e parents r fresh space (omega arith) in
      let pool : commit_entry e parents r ≡ q = ground arith in
      let same : e.txid ≡ id = ground arith in
      subst (λ x. WithinLimits x × (lookup id x.entries ≡ some e)) pool
        (subst
          (λ i.
            WithinLimits (commit_entry e parents r)
            × (lookup i (commit_entry e parents r).entries ≡ some e))
          same both)

  -- A transaction that alone fits in the pool and is admitted is in the pool, and the pool is within its limits.
  pub admit_transaction-WithinLimits :
      (p q : Mempool) (tx : Transaction) (utxos : UtxoSet) (now : ℕ) (id : Hash256)
      → Reachable blake3 verify p
      → size_of tx ≤ p.max_bytes
      → 0 < p.max_count
      → admit_transaction blake3 verify p tx utxos now ≡ (q, ok id)
      → WithinLimits q
        × ((e : MempoolEntry) × (lookup id q.entries ≡ some e) × (e.transaction ≡ tx))
  unfolding admit_transaction
  admit_transaction-WithinLimits p q tx utxos now id reached fits room done =
      let sound = Reachable-IsSound blake3 verify p reached in
      elim (Result-cases (check_admission blake3 verify p tx utxos now)) [
        | inr (f, failed) ↦ absurd (ground arith)
        | inl ((e, parents), passed) ↦
            let a = check_admission-IsAdmissible blake3 verify p tx utxos now e parents passed in
            let (within, there) =
              committed_within p q e parents id (make_room e p) sound.limit (omega (arith, a.size))
                room (make_room-Evicted e p sound.indexed (admissible-IsNew blake3 verify p tx e a))
                (rw (passed, admit_transaction) at done) in
            (within, (e, there, a.same))
      ]

no_key_room : (e : MempoolEntry) (p : Mempool) → lowest_key p ≡ none → make_room e p ≡ (p, ok none)
unfolding make_room evict_loop
no_key_room e p no_key = elim (Bool-cases (over_capacity p e.size_bytes)) [
  | inl over ↦ rw (over, evict_loop, no_key) refl
  | inr room ↦ rw (room, evict_loop) refl
]

insert_made :
    (e : MempoolEntry) (p : Mempool)
    → p.min_fee_rate ≤ e.fee_rate
    → make_room e p ≡ (p, ok none)
    → insert_entry e p ≡ (store_entry e p, ok none)
unfolding insert_entry
insert_made e p rate made =
    let paid : ltb e.fee_rate p.min_fee_rate ≡ false = ground arith in
    rw (paid, insert_entry, made) refl

over_sum :
    (e : MempoolEntry) (p : Mempool)
    → p.min_fee_rate ≤ e.fee_rate
    → make_room e p ≡ (p, ok none)
    → p.max_bytes < e.size_bytes
    → e.size_bytes < 2 ^ 64
    → (insert_entry e p).0.max_bytes < (insert_entry e p).0.total_bytes
unfolding store_entry
over_sum e p rate made over small = rw (insert_made e p rate made) (ground arith)

-- A pool with no entry takes an entry of any size, also one that is over the limit of the pool by itself.
pub insert_entry_oversize :
    (p : Mempool) (e : MempoolEntry)
    → p.priority_index ≡ []
    → p.min_fee_rate ≤ e.fee_rate
    → p.max_bytes < e.size_bytes
    → e.size_bytes < 2 ^ 64
    → (insert_entry e p ≡ (store_entry e p, ok none))
      × ((insert_entry e p).0.max_bytes < (insert_entry e p).0.total_bytes)
insert_entry_oversize p e empty rate over small =
    let no_key : lowest_key p ≡ none = ap first_of empty in
    let made = no_key_room e p no_key in
    (insert_made e p rate made, over_sum e p rate made over small)
  where
    first_of : List PriorityKey → Option PriorityKey
    first_of ks = elim ks [ [] ↦ none | k ∷ js ↦ some k ]

evict_more :
    (fuel : ℕ) (e : MempoolEntry) (last : Option Hash256) (p : Mempool) (k : PriorityKey)
    → over_capacity p e.size_bytes ≡ true
    → lowest_key p ≡ some k
    → k.fee_rate < e.fee_rate
    → evict_loop (suc fuel) e last p
      ≡ evict_loop fuel e (some k.txid) (remove_transaction_and_descendants k.txid p).0
unfolding evict_loop
evict_more fuel e last p k over lowest rich =
    rw (over, evict_loop, lowest, lt→ltb k.fee_rate e.fee_rate rich) refl

evict_full :
    (fuel : ℕ) (e : MempoolEntry) (last : Option Hash256) (p : Mempool) (k : PriorityKey)
    → over_capacity p e.size_bytes ≡ true
    → lowest_key p ≡ some k
    → e.fee_rate ≤ k.fee_rate
    → evict_loop (suc fuel) e last p ≡ (p, err (mempool_full e.fee_rate k.fee_rate))
unfolding evict_loop
evict_full fuel e last p k over lowest poor =
    let dear : ltb k.fee_rate e.fee_rate ≡ false = ground arith in
    rw (over, evict_loop, lowest, dear) refl

some_key :
    (ks : List PriorityKey) (k : PriorityKey)
    → (elim ks [ [] ↦ none | j ∷ js ↦ some j ]) ≡ some k
    → length ks ≡ suc (length ks - 1)
some_key [] k h = absurd (ground arith)
some_key (j ∷ js) k h = omega arith

-- The loop does not put back what it evicted: where one eviction makes too little room and the next key is no
-- lower than the entry, the entry is refused, and the transaction of the first key is gone all the same.
pub make_room_loses :
    (p : Mempool) (e : MempoolEntry) (k j : PriorityKey)
    → over_capacity p e.size_bytes ≡ true
    → lowest_key p ≡ some k
    → k.fee_rate < e.fee_rate
    → over_capacity (remove_transaction_and_descendants k.txid p).0 e.size_bytes ≡ true
    → lowest_key (remove_transaction_and_descendants k.txid p).0 ≡ some j
    → e.fee_rate ≤ j.fee_rate
    → ((make_room e p).1 ≡ err (mempool_full e.fee_rate j.fee_rate))
      × (lookup k.txid (make_room e p).0.entries ≡ none)
unfolding make_room
make_room_loses p e k j over lowest rich over' lowest' poor =
    let fuel = some_key p.priority_index k lowest in
    let made : make_room e p ≡ (
      (remove_transaction_and_descendants k.txid p).0,
      err (mempool_full e.fee_rate j.fee_rate),
    ) =
      ap (λ n. evict_loop (suc n) e none p) fuel
      ∙ evict_more (suc (length p.priority_index - 1)) e none p k over lowest rich
      ∙ evict_full (length p.priority_index - 1) e (some k.txid)
          (remove_transaction_and_descendants k.txid p).0 j over' lowest' poor in
    (ap (λ out. out.1) made, ap (λ out. lookup k.txid out.0.entries) made ∙ removed_absent k.txid p)

-- The value of the outputs that are spent.
abbrev pub input_value : List UtxoEntry → ℕ
input_value [] = 0
input_value (e ∷ es) = e.output.value + input_value es

add_values-eq-ok :
    (total : ℕ) (es : List UtxoEntry) (t : ℕ)
    → add_values total es ≡ ok t
    → t ≡ total + input_value es
unfolding add_values
add_values-eq-ok total [] t h = ground arith
add_values-eq-ok total (e ∷ es) t h = ground (arith, add_values-eq-ok (total + e.output.value) es t)

fee_of-eq-ok :
    (tx : Transaction) (es : List UtxoEntry) (fee : ℕ)
    → fee_of tx es ≡ ok fee
    → fee + outputs_value tx.outputs ≡ input_value es
unfolding fee_of
fee_of-eq-ok tx es fee h = elim (Result-cases (add_values 0 es)) [
  | inr (f, failed) ↦ absurd (ground arith)
  | inl (total_in, e_in) ↦ elim (Result-cases (total_output_quanta tx)) [
    | inr (f, failed) ↦ absurd (ground arith)
    | inl (total_out, e_out) ↦
        let ins = add_values-eq-ok 0 es total_in e_in in
        let outs = total_output_quanta-eq-ok tx total_out e_out in ground arith
  ]
]

module _ (blake3 : Bytes → Hash256) (verify : AuthorizationVerifier) where
  -- A transaction that passes the checks is well formed and no coinbase; its inputs resolve to outputs for which it
  -- is authorized; its fee is what those outputs are worth above its own; and the fee rate is at least the floor.
  pub check_admission_conditions :
      (p : Mempool) (tx : Transaction) (utxos : UtxoSet) (now : ℕ) (e : MempoolEntry)
      (parents : List Hash256)
      → check_admission blake3 verify p tx utxos now ≡ ok (e, parents)
      → (es : List UtxoEntry) × (resolve_inputs p utxos
            (outpoints tx)
            (record { utxo_entries = []; parents = [] })
          ≡ ok (record { utxo_entries = es; parents = parents }))
        × (validate_stateless tx ≡ ok tt)
        × (is_coinbase tx ≡ false)
        × (verify_transaction_authorization blake3 verify tx es ≡ ok tt)
        × (e.fee + outputs_value tx.outputs ≡ input_value es)
        × (p.min_fee_rate ≤ e.fee_rate)
  unfolding check_admission new_entry
  check_admission_conditions p tx utxos now e parents h =
      elim (Result-cases
        (resolve_inputs p utxos (outpoints tx) (record { utxo_entries = []; parents = [] }))) [
          | inr (f, failed) ↦ absurd (ground arith)
          | inl (r, resolved) ↦ elim (Result-cases (fee_of tx r.utxo_entries)) [
            | inr (f, failed) ↦ absurd (ground arith)
            | inl (fee, paid) ↦
                let value = fee_of-eq-ok tx r.utxo_entries fee paid in
                (
                  r.utxo_entries,
                  ground arith,
                  ground arith,
                  ground arith,
                  ground arith,
                  ground arith,
                  ground arith,
                )
          ]
        ]

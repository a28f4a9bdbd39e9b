-- ===== src/Mempool/Admission.antt =====
-- crates/scytale-mempool/src/pool.rs: `admit_transaction` with its steps, and `insert`. A method returns the pool
-- that is left beside its result, on an error too.
use scytale.Base.{
  ℕ, zero, suc, ◌+◌, Bool, true, false, ◌||◌, not, Option, none, some, List, [], ◌∷◌, ◌++◌, ltb,
  leb, if◌then◌else◌, length, get_elem?, Result, ok, err, ◌>>=◌, ◌>>◌, guard, ok_or, map_err,
  and_then,
}
use scytale.Base.Bytes.{Bytes}
use scytale.Base.Words.{saturating_add, checked_add, checked_sub}
use scytale.Base.Maps.{bytes_key, lookup, insert}
use scytale.Primitives.{Hash256, OutPoint}
use scytale.Core.Types.{Transaction, UtxoEntry}
use scytale.Core.Transaction.{txid, is_coinbase, is_empty, validate_stateless, total_output_quanta}
use scytale.Core.Utxo.{UtxoSet}
use scytale.Core.Utxo.Map as Utxos
use scytale.Core.Authorization.{AuthorizationVerifier, verify_transaction_authorization}
use scytale.Mempool.{
  MempoolError, duplicate_tx, missing_input_utxo, conflict_double_spend, authorization_failed,
  value_deficit, structural_error, coinbase_not_allowed, arithmetic_overflow, fee_too_low,
  mempool_full, MempoolEntry, Mempool, Links, PriorityKey, priority_key, insert_key, outpoint_key,
  outpoints, new_entry, max_ancestors, max_descendants,
}
use scytale.Mempool.Removal.{contains, children_of, link_count, remove_transaction_and_descendants}

-- Step 3: no input is spent by a pending transaction.
unfoldable pub check_conflicts :
    List (OutPoint × Hash256) → List OutPoint → Result MempoolError (Unit {0})
check_conflicts spent [] = ok tt
check_conflicts spent (o ∷ os) = elim (lookup o spent) [
  | some conflicting_tx ↦ err (conflict_double_spend o conflicting_tx)
  | none ↦ check_conflicts spent os
]

-- `parents.insert(..)`.
abbrev pub add_hash : Hash256 → List Hash256 → List Hash256
add_hash h hs = if contains h hs then hs else hs ++ h ∷ []

-- The outputs that are spent, and the pending transactions that made them.
pub record Resolved : Type 0 where
  pub utxo_entries : List UtxoEntry
  pub parents : List Hash256

-- Step 4 for one input: from the canonical set, or from a pending transaction.
unfoldable pub resolve_input :
    Mempool → UtxoSet → OutPoint → Resolved → Result MempoolError Resolved
resolve_input p utxos o r = elim (Utxos.lookup o utxos.entries) [
  | some entry ↦ ok (record r { utxo_entries = r.utxo_entries ++ entry ∷ [] })
  | none ↦ elim (lookup o.txid p.entries) [
    | none ↦ err (missing_input_utxo o)
    | some parent ↦ elim (get_elem? parent.transaction.outputs o.index) [
      | none ↦ err (missing_input_utxo o)
      | some output ↦ ok (record {
        utxo_entries =
            r.utxo_entries
            ++ record { output = output; block_height = 0; is_coinbase = false } ∷ [];
        parents = add_hash o.txid r.parents;
      })
    ]
  ]
]

unfoldable pub resolve_inputs :
    Mempool → UtxoSet → List OutPoint → Resolved → Result MempoolError Resolved
unfolding resolve_input
resolve_inputs p utxos [] r = ok r
resolve_inputs p utxos (o ∷ os) r = elim (resolve_input p utxos o r) [
  | err e ↦ err e
  | ok r' ↦ resolve_inputs p utxos os r'
]

-- The grandparents that were not met before.
unfoldable pub unvisited : List Hash256 → List Hash256 → List Hash256
unvisited visited [] = []
unvisited visited (h ∷ hs) = elim (contains h visited) [
  | true ↦ unvisited visited hs
  | false ↦ h ∷ unvisited (h ∷ visited) hs
]

-- The loop over the ancestors; each id is counted when it is met first. The order of a hash set is not
-- specified, and the fuel is the number of all links and of the ids that wait.
unfoldable pub ancestor_loop : ℕ → Links → List Hash256 → List Hash256 → ℕ → ℕ
ancestor_loop zero links pending visited count = count
ancestor_loop (suc fuel) links [] visited count = count
ancestor_loop (suc fuel) links (id ∷ pending) visited count =
    let fresh = unvisited visited (children_of links id) in
    ancestor_loop fuel links (fresh ++ pending) (fresh ++ visited) (count + length fresh)

unfoldable pub count_ancestors : Mempool → List Hash256 → ℕ
unfolding ancestor_loop unvisited
count_ancestors p parents =
    ancestor_loop (suc (length parents + link_count p.child_to_parents)) p.child_to_parents parents
      parents (length parents)

unfoldable pub check_descendants : Links → List Hash256 → Result MempoolError (Unit {0})
check_descendants links [] = ok tt
check_descendants links (parent ∷ parents) =
    guard (ltb (length (children_of links parent)) max_descendants) (mempool_full 0 max_descendants)
    >> check_descendants links parents

unfoldable pub add_values : ℕ → List UtxoEntry → Result MempoolError ℕ
add_values total [] = ok total
add_values total (e ∷ es) = elim (checked_add total e.output.value) [
  | none ↦ err arithmetic_overflow
  | some total' ↦ add_values total' es
]

-- Step 6: what the inputs are worth above the outputs.
unfoldable pub fee_of : Transaction → List UtxoEntry → Result MempoolError ℕ
unfolding add_values
fee_of tx utxo_entries = do
  total_in ← add_values 0 utxo_entries
  total_out ← map_err structural_error (total_output_quanta tx)
  guard (leb total_out total_in) (value_deficit total_in total_out)
  ok_or (checked_sub total_in total_out) arithmetic_overflow

unfoldable pub over_capacity : Mempool → ℕ → Bool
over_capacity p size_bytes =
    leb p.max_count (length p.entries) || ltb p.max_bytes (saturating_add p.total_bytes size_bytes)

abbrev pub lowest_key : Mempool → Option PriorityKey
lowest_key p = elim p.priority_index [ [] ↦ none | k ∷ ks ↦ some k ]

-- Step 8: the loop that evicts the entry of the lowest key, and what hangs on it, while there is no room. The
-- result is the id that was evicted last. The fuel is one more than the keys, of which a round takes at least one.
unfoldable pub evict_loop :
    ℕ → MempoolEntry → Option Hash256 → Mempool → Mempool × Result MempoolError (Option Hash256)
evict_loop zero entry evicted p = (p, ok evicted)
evict_loop (suc fuel) entry evicted p = elim (over_capacity p entry.size_bytes) [
  | false ↦ (p, ok evicted)
  | true ↦ elim (lowest_key p) [
    | none ↦ (p, ok evicted)
    | some lowest ↦ elim (ltb lowest.fee_rate entry.fee_rate) [
      | false ↦ (p, err (mempool_full entry.fee_rate lowest.fee_rate))
      | true ↦
          evict_loop fuel entry (some lowest.txid)
            (remove_transaction_and_descendants lowest.txid p).0
    ]
  ]
]

unfoldable pub make_room : MempoolEntry → Mempool → Mempool × Result MempoolError (Option Hash256)
make_room entry p = evict_loop (suc (length p.priority_index)) entry none p

unfoldable pub mark_spent :
    Hash256 → List OutPoint → List (OutPoint × Hash256) → List (OutPoint × Hash256)
mark_spent id [] spent = spent
mark_spent id (o ∷ os) spent = mark_spent id os (insert o id spent)

-- `self.parent_to_children.entry(parent).or_default().insert(txid)` for each parent.
unfoldable pub link_children : Hash256 → List Hash256 → Links → Links
link_children id [] links = links
link_children id (parent ∷ parents) links =
    link_children id parents (insert parent (add_hash id (children_of links parent)) links)

-- The part of step 9 that `insert` does as well.
unfoldable pub store_entry : MempoolEntry → Mempool → Mempool
store_entry e p = record p {
  spent_outpoints = mark_spent e.txid (outpoints e.transaction) p.spent_outpoints;
  priority_index = insert_key (priority_key e) p.priority_index;
  total_bytes = saturating_add p.total_bytes e.size_bytes;
  entries = insert e.txid e p.entries;
}

-- Step 9.
unfoldable pub commit_entry : MempoolEntry → List Hash256 → Mempool → Mempool
commit_entry e parents p =
    let p' = store_entry e p in
    record p' {
      parent_to_children = link_children e.txid parents p'.parent_to_children;
      child_to_parents =
          if is_empty parents
          then p'.child_to_parents
          else insert e.txid parents p'.child_to_parents;
    }

-- `Mempool::insert`: an entry that is taken as valid.
unfoldable pub insert_entry :
    MempoolEntry → Mempool → Mempool × Result MempoolError (Option Hash256)
insert_entry entry p = elim (ltb entry.fee_rate p.min_fee_rate) [
  | true ↦ (p, err (fee_too_low entry.fee_rate p.min_fee_rate))
  | false ↦ and_then (make_room entry p) (λ p' evicted. (store_entry entry p', ok evicted))
]

module _ (blake3 : Bytes → Hash256) (verify : AuthorizationVerifier) where
  -- Steps 1 to 7, which leave the pool alone. The result is the entry and its parents.
  unfoldable pub check_admission :
      Mempool → Transaction → UtxoSet → ℕ → Result MempoolError (MempoolEntry × List Hash256)
  check_admission p tx canonical_utxos current_timestamp = do
    map_err structural_error (validate_stateless tx)
    guard (not (is_coinbase tx)) coinbase_not_allowed
    guard (elim (lookup (txid blake3 tx) p.entries) [ none ↦ true | some _ ↦ false ])
        (duplicate_tx (txid blake3 tx))
    check_conflicts p.spent_outpoints (outpoints tx)
    resolved ←
        resolve_inputs p canonical_utxos (outpoints tx) (record { utxo_entries = []; parents = [] })
    let count = count_ancestors p resolved.parents
    guard (leb count max_ancestors) (mempool_full 0 max_ancestors)
    check_descendants p.parent_to_children resolved.parents
    map_err authorization_failed
        (verify_transaction_authorization blake3 verify tx resolved.utxo_entries)
    fee ← fee_of tx resolved.utxo_entries
    let entry = new_entry blake3 tx fee current_timestamp
    guard (leb p.min_fee_rate entry.fee_rate) (fee_too_low entry.fee_rate p.min_fee_rate)
    ok (entry, resolved.parents)

  unfoldable pub admit_transaction :
      Mempool → Transaction → UtxoSet → ℕ → Mempool × Result MempoolError Hash256
  admit_transaction p tx canonical_utxos current_timestamp =
      elim (check_admission p tx canonical_utxos current_timestamp) [
        | err e ↦ (p, err e)
        | ok (entry, parents) ↦
            and_then (make_room entry p) (λ p' _. (commit_entry entry parents p', ok entry.txid))
      ]

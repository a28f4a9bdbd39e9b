-- ===== src/Tests/Pool.antt =====
-- The theorems of the mempool at a pool that a transaction is admitted to, and at pools that are full.
use scytale.Base.{
  ℕ, ◌+◌, ◌*◌, ◌/◌, ◌^◌, ◌↔◌, ap, ◌≤◌, ◌<◌, ◌≡◌, refl, Bool, true, false, Option, none, some, List,
  [], ◌∷◌, replicate, Result, ok, err, arith,
}
use scytale.Base.Maps.{Key, bytes_key, lookup}
use scytale.Primitives.{Hash256, u32_max}
use scytale.Core.Types.{TxIn, Transaction, UtxoEntry}
use scytale.Core.Transaction.{txid, is_coinbase, validate_stateless}
use scytale.Core.Transaction.Checks.{outputs_value}
use scytale.Core.Authorization.{
  AuthorizationVerifier, verify_transaction_authorization, Authorized,
  verify_transaction_authorization_iff,
}
use scytale.Mempool.{
  Mempool, MempoolEntry, MempoolError, mempool_full, PriorityKey, with_config, outpoints, size_of,
  new_entry, outpoint_key, priority_key,
}
use scytale.Mempool.Removal.{remove_transaction_and_descendants, contains, children_of, descendants}
use scytale.Mempool.Admission.{
  admit_transaction, check_admission, insert_entry, store_entry, over_capacity, lowest_key,
  make_room, resolve_inputs,
}
use scytale.Mempool.Index.{has_outpoint, size_sum}
use scytale.Mempool.Index.Descendants.{descendants_closed}
use scytale.Mempool.Safety.{
  Reachable, created, admitted, Reachable-no_double_spend, Reachable-spender,
}
use scytale.Mempool.Limits.{
  WithinLimits, admit_transaction-WithinLimits, make_room_loses, check_admission_conditions,
  input_value,
}
use scytale.Tests.Data.{hash32, ledger, coin_entry, coin_id, payment_output}

abbrev spend_input : TxIn
spend_input = record { previous_output = coin_id; authorization = 0x51 ∷ []; sequence = u32_max }

abbrev spend : Transaction
spend = record {
  version = 1;
  inputs = spend_input ∷ [];
  outputs = payment_output ∷ [];
  lock_time = 0;
}

abbrev accept : AuthorizationVerifier
accept = λ digest lock proof. ok tt

abbrev empty_pool : Mempool
empty_pool = with_config 10 100_000 1_000

abbrev spend_id : Hash256
spend_id = txid hash32 spend

abbrev out_1 : Mempool × Result MempoolError Hash256
out_1 = admit_transaction hash32 accept empty_pool spend ledger 100

-- One evaluation for what the theorems need of the admission.
spend_runs :
    ((out_1.1 ≡ ok spend_id)
      × (lookup spend_id out_1.0.entries ≡ some (new_entry hash32 spend 1_000 100))
      × (lookup coin_id out_1.0.spent_outpoints ≡ some spend_id))
    × (check_admission hash32 accept empty_pool spend ledger 100
        ≡ ok (new_entry hash32 spend 1_000 100, []))
unfolding admit_transaction check_admission scytale.Mempool.Admission.check_conflicts
    scytale.Mempool.Admission.resolve_input scytale.Mempool.Admission.resolve_inputs
    scytale.Mempool.Admission.ancestor_loop scytale.Mempool.Admission.count_ancestors
    scytale.Mempool.Admission.check_descendants scytale.Mempool.Admission.add_values
    scytale.Mempool.Admission.fee_of over_capacity scytale.Mempool.Admission.evict_loop make_room
    scytale.Mempool.Admission.mark_spent scytale.Mempool.insert_key size_of store_entry
    scytale.Mempool.Admission.link_children scytale.Mempool.Admission.commit_entry new_entry
    with_config scytale.Core.Authorization.verify_inputs
    scytale.Core.Authorization.verify_transaction_authorization
    scytale.Core.Transaction.Digests.compute_sighash
    scytale.Core.Transaction.Digests.input_references
    scytale.Core.Transaction.Digests.output_contents lookup scytale.Base.Maps.insert
    scytale.Base.Maps.remove scytale.Core.Codec.Serialize.outpoint_bytes
    scytale.Core.Codec.Serialize.u32_bytes scytale.Core.Codec.Serialize.u64_bytes
    scytale.Core.Codec.Serialize.count_bytes scytale.Core.Codec.Serialize.transaction_bytes
    scytale.Core.Codec.Serialize.each_bytes scytale.Core.Codec.Serialize.txin_bytes
    scytale.Core.Codec.Serialize.vec_bytes scytale.Core.Codec.Serialize.txout_bytes
    scytale.Core.Transaction.is_coinbase scytale.Core.Transaction.coinbase_inputs
    scytale.Core.Transaction.validate_stateless scytale.Core.Transaction.total_output_quanta txid
    scytale.Primitives.is_null scytale.Primitives.outpoint_eq scytale.Mempool.Removal.link_count
spend_runs = ((refl, refl, refl), refl)

spend_small : size_of spend < 1_000
unfolding size_of scytale.Core.Codec.Serialize.outpoint_bytes scytale.Core.Codec.Serialize.u32_bytes
    scytale.Core.Codec.Serialize.u64_bytes scytale.Core.Codec.Serialize.count_bytes
    scytale.Core.Codec.Serialize.transaction_bytes scytale.Core.Codec.Serialize.each_bytes
    scytale.Core.Codec.Serialize.txin_bytes scytale.Core.Codec.Serialize.vec_bytes
    scytale.Core.Codec.Serialize.txout_bytes
spend_small = omega arith

abbrev spend_entry : MempoolEntry
spend_entry = new_entry hash32 spend 1_000 100

reached_0 : Reachable hash32 accept empty_pool
reached_0 = created 10 100_000 1_000 (omega arith)

reached_1 : Reachable hash32 accept out_1.0
reached_1 =
    admitted empty_pool out_1.0 spend ledger 100 out_1.1 reached_0 (omega (arith, spend_small)) refl

spends_coin : has_outpoint coin_id (outpoints spend_entry.transaction) ≡ true
unfolding scytale.Primitives.outpoint_eq new_entry
spends_coin = refl

Reachable-no_double_spend_example :
    (spend_id ≡ spend_id) × (lookup coin_id out_1.0.spent_outpoints ≡ some spend_id)
Reachable-no_double_spend_example =
    Reachable-no_double_spend hash32 accept out_1.0 spend_id spend_id spend_entry spend_entry
      coin_id reached_1 spend_runs.0.1 spend_runs.0.1 spends_coin spends_coin

Reachable-spender_example :
    ((e : MempoolEntry) × (lookup spend_id out_1.0.entries ≡ some e)
      × (has_outpoint coin_id (outpoints e.transaction) ≡ true))
    × (out_1.0.total_bytes ≡ size_sum out_1.0.entries)
Reachable-spender_example =
    Reachable-spender hash32 accept out_1.0 coin_id spend_id reached_1 spend_runs.0.2

spend_done : admit_transaction hash32 accept empty_pool spend ledger 100 ≡ (out_1.0, ok spend_id)
spend_done = ap (λ r. (out_1.0, r)) spend_runs.0.0

empty_pool_limits : (1_000 ≤ empty_pool.max_bytes) × (0 < empty_pool.max_count)
unfolding with_config
empty_pool_limits = omega arith

admit_transaction-WithinLimits_example :
    WithinLimits out_1.0
    × ((e : MempoolEntry) × (lookup spend_id out_1.0.entries ≡ some e) × (e.transaction ≡ spend))
admit_transaction-WithinLimits_example =
    admit_transaction-WithinLimits hash32 accept empty_pool out_1.0 spend ledger 100 spend_id
      reached_0 (omega (arith, spend_small, empty_pool_limits.0)) empty_pool_limits.1 spend_done

check_admission_conditions_example :
    (es : List UtxoEntry) × (resolve_inputs empty_pool ledger
        (outpoints spend)
        (record { utxo_entries = []; parents = [] })
      ≡ ok (record { utxo_entries = es; parents = [] }))
    × (validate_stateless spend ≡ ok tt)
    × (is_coinbase spend ≡ false)
    × (verify_transaction_authorization hash32 accept spend es ≡ ok tt)
    × (spend_entry.fee + outputs_value spend.outputs ≡ input_value es)
    × (empty_pool.min_fee_rate ≤ spend_entry.fee_rate)
check_admission_conditions_example =
    check_admission_conditions hash32 accept empty_pool spend ledger 100 spend_entry [] spend_runs.1

abbrev entry_with : ℕ → ℕ → ℕ → MempoolEntry
entry_with id rate size = record {
  transaction = spend;
  txid = replicate 32 id;
  fee = rate * size / 1_000;
  fee_rate = rate;
  size_bytes = size;
  added_time = 7;
}

-- A pool for 100 bytes with a cheap transaction of 60 and a dear one of 30.
abbrev full_pool : Mempool
full_pool = record {
  entries =
      (replicate 32 1, entry_with 1 5_000 60) ∷ (replicate 32 2, entry_with 2 100_000 30) ∷ [];
  priority_index =
      priority_key (entry_with 1 5_000 60) ∷ priority_key (entry_with 2 100_000 30) ∷ [];
  spent_outpoints = [];
  parent_to_children = (replicate 32 1, replicate 32 4 ∷ []) ∷ [];
  child_to_parents = (replicate 32 4, replicate 32 1 ∷ []) ∷ [];
  total_bytes = 90;
  max_count = 10;
  max_bytes = 100;
  min_fee_rate = 1_000;
}

make_room_loses_example :
    ((make_room (entry_with 3 50_000 80) full_pool).1 ≡ err (mempool_full 50_000 100_000))
    × (lookup (replicate 32 1) (make_room (entry_with 3 50_000 80) full_pool).0.entries ≡ none)
unfolding over_capacity remove_transaction_and_descendants scytale.Mempool.Removal.remove_all
    scytale.Mempool.Removal.descendants scytale.Mempool.Removal.collect
    scytale.Mempool.Removal.link_count scytale.Mempool.Removal.remove_entry
    scytale.Mempool.Removal.remove_parents scytale.Mempool.Removal.forget_outpoints lookup
    scytale.Base.Maps.remove scytale.Mempool.remove_key scytale.Mempool.Removal.unlink
    scytale.Mempool.Removal.remove_hash scytale.Base.Maps.insert
make_room_loses_example =
    make_room_loses full_pool (entry_with 3 50_000 80) (priority_key (entry_with 1 5_000 60))
      (priority_key (entry_with 2 100_000 30)) refl refl (omega arith) refl refl (omega arith)

verify_transaction_authorization_iff_example :
    (verify_transaction_authorization hash32 accept spend (coin_entry ∷ []) ≡ ok tt)
    ↔ Authorized hash32 accept spend 0 spend.inputs (coin_entry ∷ [])
verify_transaction_authorization_iff_example =
    verify_transaction_authorization_iff hash32 accept spend (coin_entry ∷ [])

descendants_closed_example :
    (contains (replicate 32 1) (descendants full_pool (replicate 32 1)) ≡ true)
    × ((x y : Hash256)
        → contains x (descendants full_pool (replicate 32 1)) ≡ true
        → contains y (children_of full_pool.parent_to_children x) ≡ true
        → contains y (descendants full_pool (replicate 32 1)) ≡ true)
descendants_closed_example = descendants_closed full_pool (replicate 32 1)

-- ===== src/Tests/Storage.antt =====
-- A store with one unspent output, a block that is committed and unwound, and one that spends its own output.
use scytale.Base.{
  ℕ, ◌≡◌, refl, subst, inl, inr, Bool, true, false, ◌||◌, Option, none, some, List, [], ◌∷◌, ◌++◌,
  length, All, Result, ok, err, if◌then◌else◌, Bool-cases, arith,
}
use scytale.Base.Bytes.{Bytes, bytes_eq, bytes_eq→≡, to_le_bytes}
use scytale.Base.Endian.{bytes_leb}
use scytale.Base.Maps
use scytale.Base.Maps.{bytes_key, lookup-insert, lookup-remove}
use scytale.Primitives.{OutPoint, u32_max}
use scytale.Core.Types.{Transaction, Block, UtxoEntry, SerializationError}
use scytale.Core.Transaction.{txid}
use scytale.Core.Authorization.{OutputLock}
use scytale.Core.Block.{header_hash}
use scytale.Core.Utxo.Map.{lookup}
use scytale.Core.Codec.Serialize.{utxo_entry_bytes}
use scytale.Core.Codec.Roundtrip.{IsOutPoint, IsEntry, IsTransaction}
use scytale.Storage.Tables.{Table, StorageError}
use scytale.Storage.Undo.{BlockUndo, undo_bytes, outpoint_to_key}
use scytale.Storage.Undo.Read.{undo_of_bytes}
use scytale.Storage.Engine.{StorageEngine, get_utxo}
use scytale.Storage.Commit.{commit_block}
use scytale.Storage.Reorg.{unwind_block}
use scytale.Storage.Snapshot.{replace_utxo_set}
use scytale.Storage.Replace.{replace_utxo_set-lookup}
use scytale.Storage.Unwind.{spent_entry, HoldsEntries, IsWritable, block_spends, block_creates}
use scytale.Storage.Unwind.Blocks.{unwind_block-commit_block, unwind_block_revives}
use scytale.Tests.Data.{hash32, coin_id, coin_entry, ledger, payment, payment_output, reward, block}

abbrev Pairs : Type 0
Pairs = List (Bytes × Bytes)

-- A table as an association list.
instance abbrev pairs_table : Table Pairs
pairs_table = record {
  get = Maps.lookup;
  insert = Maps.insert;
  remove = Maps.remove;
  iter = λ t. t;
  get_insert = λ k j v t. lookup-insert k j v t;
  get_remove = λ k j t. lookup-remove k j t;
  get_iter = λ k t. refl;
}

abbrev no_lock : Bytes → Option OutputLock
no_lock bytes = none

abbrev coin_key : Bytes
coin_key = outpoint_to_key coin_id

abbrev bytes_of : Result SerializationError Bytes → Bytes
bytes_of (ok bytes) = bytes
bytes_of (err e) = []

abbrev coin_bytes : Bytes
coin_bytes = bytes_of (utxo_entry_bytes coin_entry)

abbrev store : StorageEngine Pairs
store = record {
  blocks = [];
  transactions = [];
  utxos = (coin_key, coin_bytes) ∷ [];
  block_index = [];
  tip_hash = none;
  tip_height = none;
  address_tx_index = [];
  block_undo = [];
  block_height_index = [];
  tx_confirm_index = [];
}

abbrev stored_or :
    StorageEngine Pairs → Result StorageError (StorageEngine Pairs) → StorageEngine Pairs
stored_or e (ok e') = e'
stored_or e (err x) = e

abbrev work : ℕ × (ℕ × (ℕ × ℕ))
work = (1, (0, (0, 0)))

abbrev committed : StorageEngine Pairs
committed = stored_or store (commit_block hash32 no_lock block 1 work store)

committed_ok : commit_block hash32 no_lock block 1 work store ≡ ok committed
unfolding commit_block scytale.Core.Codec.Reader.from_canonical_bytes utxo_entry_bytes header_hash
    Maps.insert Maps.lookup Maps.remove scytale.Core.Authorization.from_locking_condition
    scytale.Core.Genesis.new_coinbase txid scytale.Core.Codec.Serialize.transaction_bytes
    scytale.Core.Codec.Serialize.each_bytes scytale.Core.Codec.Serialize.txin_bytes
    scytale.Core.Codec.Serialize.vec_bytes scytale.Core.Codec.Serialize.txout_bytes
    scytale.Core.Codec.Serialize.u32_bytes scytale.Core.Codec.Serialize.count_bytes
    scytale.Core.Codec.Serialize.outpoint_bytes scytale.Core.Codec.Serialize.u64_bytes
    scytale.Core.Codec.Serialize.bool_bytes scytale.Core.Codec.Serialize.header_bytes
    scytale.Core.Codec.Serialize.block_bytes scytale.Core.Transaction.is_coinbase
    scytale.Core.Transaction.coinbase_inputs scytale.Primitives.is_null
    scytale.Storage.Commit.connect_block scytale.Storage.Connect.connect_transactions
    scytale.Storage.Connect.connect_transaction scytale.Storage.Connect.spend_inputs
    scytale.Storage.Connect.spend_input scytale.Storage.Connect.create_outputs
    scytale.Storage.Connect.create_output scytale.Storage.Commit.write_records
    scytale.Core.Codec.Deserialize.read_bool scytale.Core.Codec.Deserialize.read_hash
    scytale.Core.Codec.Deserialize.read_length scytale.Core.Codec.Deserialize.read_outpoint
    scytale.Core.Codec.Deserialize.read_transaction scytale.Core.Codec.Deserialize.read_txin
    scytale.Core.Codec.Deserialize.read_txout scytale.Core.Codec.Deserialize.read_u32
    scytale.Core.Codec.Deserialize.read_u64 scytale.Core.Codec.Deserialize.read_utxo_entry
    scytale.Core.Codec.Deserialize.read_vec scytale.Core.Codec.Reader.read_exact
    scytale.Core.Codec.Reader.read_n scytale.Core.Codec.Reader.return
    scytale.Core.Codec.Reader.◌>>=◌ scytale.Storage.Tables.deserialize_address_tx_records
    scytale.Storage.Tables.extract_address_from_locking_condition scytale.Storage.Tables.meta_bytes
    scytale.Storage.Tables.read_record scytale.Storage.Tables.record_bytes
    scytale.Storage.Tables.serialize_address_tx_records scytale.Storage.Undo.created_bytes
    scytale.Storage.Undo.spent_bytes undo_bytes
committed_ok = refl

coin_written : utxo_entry_bytes coin_entry ≡ ok coin_bytes
unfolding utxo_entry_bytes scytale.Core.Codec.Serialize.txout_bytes
    scytale.Core.Codec.Serialize.vec_bytes
coin_written = refl

coin_in_range : IsEntry coin_entry
coin_in_range = record { output_ok = record { value_lt = omega arith }; height_lt = omega arith }

coin_id_in_range : IsOutPoint coin_id
coin_id_in_range = record { txid_length = refl; index_lt = omega arith }

held_once :
    (b : Bool) (v w : Bytes) → ◌≡◌ {A = Option Bytes} (if b then some v else none) (some w) → v ≡ w
held_once true v w e = ground arith
held_once false v w e = absurd (ground arith)

store-HoldsEntries : HoldsEntries store.utxos
unfolding Maps.lookup
store-HoldsEntries k bytes e = (
  coin_entry,
  coin_in_range,
  subst (λ (w : Bytes). utxo_entry_bytes coin_entry ≡ ok w)
      (held_once (bytes_eq coin_key k) coin_bytes bytes e) coin_written,
)

reward_in_range : IsTransaction reward
unfolding scytale.Core.Genesis.new_coinbase
reward_in_range = record {
  version_lt = omega arith;
  inputs_ok = (
    record {
      previous = record { txid_length = refl; index_lt = omega arith };
      sequence_lt = omega arith;
    },
    tt,
  );
  input_count = omega arith;
  outputs_ok = (record { value_lt = omega arith }, tt);
  output_count = omega arith;
  lock_time_lt = omega arith;
}

payment_in_range : IsTransaction payment
payment_in_range = record {
  version_lt = omega arith;
  inputs_ok = (record { previous = coin_id_in_range; sequence_lt = omega arith }, tt);
  input_count = omega arith;
  outputs_ok = (record { value_lt = omega arith }, tt);
  output_count = omega arith;
  lock_time_lt = omega arith;
}

length-hash32 : (bytes : Bytes) → length (hash32 bytes) ≡ 32
length-hash32 bytes = refl

abbrev created_key : Transaction → Bytes
created_key tx = outpoint_to_key (record { txid = txid hash32 tx; index = 0 })

neither :
    (a b : Bool) → a ≡ false → b ≡ false → ¬ (((a || false) || ((b || false) || false)) ≡ true)
neither a b ha hb h = ground arith

nothing : (a : Bool) → a ≡ false → ¬ (((a || false) || false) ≡ true)
nothing a ha h = ground arith

block_fresh :
    (k : Bytes)
    → block_creates hash32 block.transactions k ≡ true
    → Maps.lookup k store.utxos ≡ none
unfolding Maps.lookup scytale.Core.Genesis.new_coinbase txid
    scytale.Core.Codec.Serialize.transaction_bytes scytale.Core.Codec.Serialize.each_bytes
    scytale.Core.Codec.Serialize.txin_bytes scytale.Core.Codec.Serialize.vec_bytes
    scytale.Core.Codec.Serialize.txout_bytes scytale.Core.Codec.Serialize.u32_bytes
    scytale.Core.Codec.Serialize.count_bytes scytale.Core.Codec.Serialize.outpoint_bytes
    scytale.Core.Codec.Serialize.u64_bytes scytale.Core.Transaction.is_coinbase
    scytale.Core.Transaction.coinbase_inputs scytale.Primitives.is_null
block_fresh k own = elim (Bool-cases (bytes_eq (created_key reward) k)) [
  | inl s ↦
      subst (λ (j : Bytes). Maps.lookup j store.utxos ≡ none) (bytes_eq→≡ (created_key reward) k s)
        refl
  | inr n ↦ elim (Bool-cases (bytes_eq (created_key payment) k)) [
    | inl s ↦
        subst (λ (j : Bytes). Maps.lookup j store.utxos ≡ none)
          (bytes_eq→≡ (created_key payment) k s) refl
    | inr m ↦ absurd (neither _ _ n m own)
  ]
]

block_unchained :
    (k : Bytes)
    → block_spends block.transactions k ≡ true
    → block_creates hash32 block.transactions k ≡ false
unfolding scytale.Core.Genesis.new_coinbase txid scytale.Core.Codec.Serialize.transaction_bytes
    scytale.Core.Codec.Serialize.each_bytes scytale.Core.Codec.Serialize.txin_bytes
    scytale.Core.Codec.Serialize.vec_bytes scytale.Core.Codec.Serialize.txout_bytes
    scytale.Core.Codec.Serialize.u32_bytes scytale.Core.Codec.Serialize.count_bytes
    scytale.Core.Codec.Serialize.outpoint_bytes scytale.Core.Codec.Serialize.u64_bytes
    scytale.Core.Transaction.is_coinbase scytale.Core.Transaction.coinbase_inputs
    scytale.Primitives.is_null
block_unchained k spent = elim (Bool-cases (bytes_eq coin_key k)) [
  | inl s ↦
      subst (λ (j : Bytes). block_creates hash32 block.transactions j ≡ false)
        (bytes_eq→≡ coin_key k s) refl
  | inr n ↦ absurd (nothing _ n spent)
]

unwind_block-commit_block_example :
    (e : StorageEngine Pairs) × (unwind_block hash32 no_lock block 1 committed ≡ ok e)
    × ((o : OutPoint) → get_utxo o e ≡ get_utxo o store)
    × (e.tip_hash ≡ some block.header.previous_block_hash)
    × (e.tip_height ≡ some (to_le_bytes 8 0))
unfolding scytale.Core.Transaction.is_coinbase scytale.Core.Genesis.new_coinbase
    scytale.Primitives.is_null
unwind_block-commit_block_example =
    unwind_block-commit_block hash32 no_lock block 1 work store committed
      (λ bytes. length-hash32 bytes) (reward_in_range, (payment_in_range, tt)) (omega arith)
      store-HoldsEntries block_fresh block_unchained (omega arith) (omega arith) committed_ok

-- A third transaction spends what the second one pays.
abbrev paid_id : OutPoint
paid_id = record { txid = txid hash32 payment; index = 0 }

abbrev onward : Transaction
onward = record {
  version = 1;
  inputs = record { previous_output = paid_id; authorization = []; sequence = u32_max } ∷ [];
  outputs = record { value = 8_000; locking_condition = 0x51 ∷ 0x51 ∷ [] } ∷ [];
  lock_time = 0;
}

abbrev chained : Block
chained = record { header = block.header; transactions = block.transactions ++ onward ∷ [] }

abbrev chained_store : StorageEngine Pairs
chained_store = stored_or store (commit_block hash32 no_lock chained 1 work store)

abbrev paid_entry : UtxoEntry
paid_entry = record { output = payment_output; block_height = 1; is_coinbase = false }

abbrev chained_undo : BlockUndo
chained_undo = record {
  spent_utxos = (coin_id, coin_entry) ∷ (paid_id, paid_entry) ∷ [];
  created_outpoints =
      record { txid = txid hash32 reward; index = 0 }
      ∷ paid_id
      ∷ record { txid = txid hash32 onward; index = 0 }
      ∷ [];
}

abbrev chained_undo_bytes : Bytes
chained_undo_bytes = bytes_of (undo_bytes chained_undo)

-- The commit succeeds; the output that the second transaction pays is in the store neither before nor
-- after it; and the undo record lists the output among the spent ones and among the created ones.
chained_facts :
    (commit_block hash32 no_lock chained 1 work store ≡ ok chained_store)
    × (get_utxo paid_id store ≡ ok none)
    × (get_utxo paid_id chained_store ≡ ok none)
    × (Maps.lookup (header_hash hash32 chained.header) chained_store.block_undo
        ≡ some chained_undo_bytes)
    × (undo_of_bytes chained_undo_bytes ≡ ok chained_undo)
    × (chained_store.tip_hash ≡ some (header_hash hash32 chained.header))
    × (spent_entry (outpoint_to_key paid_id) chained_undo.spent_utxos ≡ some paid_entry)
unfolding scytale.Consensus.Validation.transaction_commitment get_utxo undo_of_bytes
    scytale.Storage.Undo.Read.read_undo scytale.Storage.Undo.Read.read_spent commit_block
    scytale.Core.Codec.Reader.from_canonical_bytes utxo_entry_bytes header_hash Maps.insert
    Maps.lookup Maps.remove scytale.Core.Authorization.from_locking_condition
    scytale.Core.Genesis.new_coinbase txid scytale.Core.Codec.Serialize.transaction_bytes
    scytale.Core.Codec.Serialize.each_bytes scytale.Core.Codec.Serialize.txin_bytes
    scytale.Core.Codec.Serialize.vec_bytes scytale.Core.Codec.Serialize.txout_bytes
    scytale.Core.Codec.Serialize.u32_bytes scytale.Core.Codec.Serialize.count_bytes
    scytale.Core.Codec.Serialize.outpoint_bytes scytale.Core.Codec.Serialize.u64_bytes
    scytale.Core.Codec.Serialize.bool_bytes scytale.Core.Codec.Serialize.header_bytes
    scytale.Core.Codec.Serialize.block_bytes scytale.Core.Transaction.is_coinbase
    scytale.Core.Transaction.coinbase_inputs scytale.Primitives.is_null
    scytale.Storage.Commit.connect_block scytale.Storage.Connect.connect_transactions
    scytale.Storage.Connect.connect_transaction scytale.Storage.Connect.spend_inputs
    scytale.Storage.Connect.spend_input scytale.Storage.Connect.create_outputs
    scytale.Storage.Connect.create_output scytale.Storage.Commit.write_records
    scytale.Core.Codec.Deserialize.read_bool scytale.Core.Codec.Deserialize.read_hash
    scytale.Core.Codec.Deserialize.read_length scytale.Core.Codec.Deserialize.read_outpoint
    scytale.Core.Codec.Deserialize.read_transaction scytale.Core.Codec.Deserialize.read_txin
    scytale.Core.Codec.Deserialize.read_txout scytale.Core.Codec.Deserialize.read_u32
    scytale.Core.Codec.Deserialize.read_u64 scytale.Core.Codec.Deserialize.read_utxo_entry
    scytale.Core.Codec.Deserialize.read_vec scytale.Core.Codec.Reader.read_exact
    scytale.Core.Codec.Reader.read_n scytale.Core.Codec.Reader.return
    scytale.Core.Codec.Reader.◌>>=◌ scytale.Storage.Tables.deserialize_address_tx_records
    scytale.Storage.Tables.extract_address_from_locking_condition scytale.Storage.Tables.meta_bytes
    scytale.Storage.Tables.read_record scytale.Storage.Tables.record_bytes
    scytale.Storage.Tables.serialize_address_tx_records scytale.Storage.Undo.created_bytes
    scytale.Storage.Undo.spent_bytes undo_bytes
chained_facts = (refl, refl, refl, refl, refl, refl, refl)

chained_spent-IsWritable : All IsWritable chained_undo.spent_utxos
unfolding txid scytale.Core.Codec.Serialize.transaction_bytes
    scytale.Core.Codec.Serialize.each_bytes scytale.Core.Codec.Serialize.txin_bytes
    scytale.Core.Codec.Serialize.vec_bytes scytale.Core.Codec.Serialize.txout_bytes utxo_entry_bytes
chained_spent-IsWritable = (
  record {
    outpoint_ok = coin_id_in_range;
    entry_ok = coin_in_range;
    bytes = coin_bytes;
    bytes_eq_written = coin_written;
  },
  (
    record {
      outpoint_ok = record { txid_length = refl; index_lt = omega arith };
      entry_ok = record { output_ok = record { value_lt = omega arith }; height_lt = omega arith };
      bytes = bytes_of (utxo_entry_bytes paid_entry);
      bytes_eq_written = refl;
    },
    tt,
  ),
)

unwind_block_revives_example :
    (e : StorageEngine Pairs) × (unwind_block hash32 no_lock chained 1 chained_store ≡ ok e)
    × (get_utxo paid_id e ≡ ok (some paid_entry))
unwind_block_revives_example =
    unwind_block_revives hash32 no_lock chained 1 chained_store chained_undo_bytes chained_undo
      paid_id paid_entry chained_facts.3 chained_facts.4 chained_spent-IsWritable chained_facts.5
      chained_facts.6

replace_utxo_set-lookup_example :
    (e : StorageEngine Pairs) × (replace_utxo_set ledger committed ≡ ok e)
    × ((o : OutPoint) → IsOutPoint o → get_utxo o e ≡ ok (lookup o ledger.entries))
replace_utxo_set-lookup_example =
    replace_utxo_set-lookup ledger committed
      (
        record {
          outpoint_ok = coin_id_in_range;
          entry_ok = coin_in_range;
          bytes = coin_bytes;
          bytes_eq_written = coin_written;
        },
        tt,
      )
      (refl, tt)

-- The keys of two outputs of one transaction are not in the order of their indices.
key_order :
    bytes_leb
      (outpoint_to_key (record { txid = coin_id.txid; index = 256 }))
      (outpoint_to_key (record { txid = coin_id.txid; index = 1 }))
    ≡ true
key_order = refl

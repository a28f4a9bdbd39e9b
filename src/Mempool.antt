-- ===== src/Mempool.antt =====
-- crates/scytale-mempool: src/entry.rs, src/error.rs and the state of src/pool.rs. The hash maps are
-- association lists, the hash sets lists without a set order, and the B-tree set a list in ascending order.
pub mod Removal
pub mod Admission
pub mod Blocks
pub mod Index
pub mod Safety
pub mod Limits
use scytale.Base.{
  ℕ, zero, suc, ◌+◌, ◌/◌, Bool, true, false, ◌&&◌, ◌||◌, not, Option, none, some, List, [], ◌∷◌,
  map, ltb, leb, ◌==◌, if◌then◌else◌, length, max, ok, err,
}
use scytale.Base.Bytes.{Bytes, bytes_eq}
use scytale.Base.Endian.{bytes_leb}
use scytale.Base.Words.{saturating_add, saturating_mul}
use scytale.Base.Maps.{Key}
use scytale.Primitives.{Hash256, OutPoint, outpoint_eq, outpoint_eq_refl, outpoint_eq→≡}
use scytale.Core.Types.{TxIn, Transaction, TransactionError}
use scytale.Core.Codec.Serialize.{transaction_bytes}
use scytale.Core.Transaction.{txid}
use scytale.Core.Transaction.Digests.{AuthorizationError}

instance abbrev pub outpoint_key : Key OutPoint
outpoint_key = record { beq = outpoint_eq; beq_refl = outpoint_eq_refl; beq→≡ = outpoint_eq→≡ }

abbrev pub default_max_mempool_count : ℕ
default_max_mempool_count = 5_000

abbrev pub default_max_mempool_bytes : ℕ
default_max_mempool_bytes = 5_000_000

abbrev pub default_min_relay_fee_rate : ℕ
default_min_relay_fee_rate = 1_000

abbrev pub max_ancestors : ℕ
max_ancestors = 25

abbrev pub max_descendants : ℕ
max_descendants = 25

-- A text that an error carries is kept as the error that it was made from.
pub data MempoolError : Type 0 where
  duplicate_tx : Hash256 → MempoolError
  missing_input_utxo : OutPoint → MempoolError
  conflict_double_spend : OutPoint → Hash256 → MempoolError
  authorization_failed : AuthorizationError → MempoolError
  value_deficit : ℕ → ℕ → MempoolError
  structural_error : TransactionError → MempoolError
  coinbase_not_allowed arithmetic_overflow : MempoolError
  fee_too_low : ℕ → ℕ → MempoolError
  mempool_full : ℕ → ℕ → MempoolError

pub record PriorityKey : Type 0 where
  pub fee_rate : ℕ
  pub added_time : ℕ
  pub txid : Hash256

-- The derived order: by fee rate, then by time reversed, then by transaction.
abbrev pub key_ltb : PriorityKey → PriorityKey → Bool
key_ltb a b =
    ltb a.fee_rate b.fee_rate
    || ((a.fee_rate == b.fee_rate)
        && (ltb b.added_time a.added_time
            || ((a.added_time == b.added_time) && not (bytes_leb b.txid a.txid))))

abbrev pub key_eq : PriorityKey → PriorityKey → Bool
key_eq a b =
    (a.fee_rate == b.fee_rate) && ((a.added_time == b.added_time) && bytes_eq a.txid b.txid)

-- `BTreeSet::insert`.
unfoldable pub insert_key : PriorityKey → List PriorityKey → List PriorityKey
insert_key k [] = k ∷ []
insert_key k (j ∷ js) =
    if key_eq j k then j ∷ js else if key_ltb k j then k ∷ j ∷ js else j ∷ insert_key k js

-- `BTreeSet::remove`.
unfoldable pub remove_key : PriorityKey → List PriorityKey → List PriorityKey
remove_key k [] = []
remove_key k (j ∷ js) = if key_eq j k then remove_key k js else j ∷ remove_key k js

pub record MempoolEntry : Type 0 where
  pub transaction : Transaction
  pub txid : Hash256
  pub fee : ℕ
  pub fee_rate : ℕ
  pub size_bytes : ℕ
  pub added_time : ℕ

-- The length of the canonical bytes, at least 1.
unfoldable pub size_of : Transaction → ℕ
size_of tx = elim (transaction_bytes tx) [ ok bytes ↦ max (length bytes) 1 | err e ↦ 1 ]

-- `MempoolEntry::new`.
unfoldable pub new_entry : (Bytes → Hash256) → Transaction → ℕ → ℕ → MempoolEntry
new_entry blake3 tx fee added_time = record {
  transaction = tx;
  txid = txid blake3 tx;
  fee = fee;
  fee_rate = saturating_mul fee 1000 / size_of tx;
  size_bytes = size_of tx;
  added_time = added_time;
}

abbrev pub priority_key : MempoolEntry → PriorityKey
priority_key e = record { fee_rate = e.fee_rate; added_time = e.added_time; txid = e.txid }

abbrev pub Links : Type 0
Links = List (Hash256 × List Hash256)

pub record Mempool : Type 0 where
  pub entries : List (Hash256 × MempoolEntry)
  pub priority_index : List PriorityKey
  pub spent_outpoints : List (OutPoint × Hash256)
  pub parent_to_children : Links
  pub child_to_parents : Links
  pub total_bytes : ℕ
  pub max_count : ℕ
  pub max_bytes : ℕ
  pub min_fee_rate : ℕ

unfoldable pub with_config : ℕ → ℕ → ℕ → Mempool
with_config max_count max_bytes min_fee_rate = record {
  entries = [];
  priority_index = [];
  spent_outpoints = [];
  parent_to_children = [];
  child_to_parents = [];
  total_bytes = 0;
  max_count = max_count;
  max_bytes = max_bytes;
  min_fee_rate = min_fee_rate;
}

abbrev pub outpoints : Transaction → List OutPoint
outpoints tx = map (λ (i : TxIn). i.previous_output) tx.inputs

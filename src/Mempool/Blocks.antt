-- ===== src/Mempool/Blocks.antt =====
-- crates/scytale-mempool/src/pool.rs: what a connected block and a reorganisation do to the pool, and the choice
-- of the transactions of a block.
use scytale.Base.{
  ℕ, ◌+◌, Bool, true, false, ◌&&◌, ◌||◌, not, none, some, List, [], ◌∷◌, ◌++◌, all, reverse, ltb,
  leb, if◌then◌else◌, length, Result, ok, err,
}
use scytale.Base.Bytes.{Bytes}
use scytale.Base.Words.{saturating_add}
use scytale.Base.Maps.{bytes_key, lookup}
use scytale.Primitives.{Hash256, OutPoint}
use scytale.Core.Types.{Transaction, Block}
use scytale.Core.Transaction.{txid, is_coinbase}
use scytale.Core.Utxo.{UtxoSet}
use scytale.Core.Utxo.Map as Utxos
use scytale.Core.Authorization.{AuthorizationVerifier}
use scytale.Consensus.Validation.{skip_first}
use scytale.Mempool.{MempoolEntry, Mempool, MempoolError, PriorityKey, outpoint_key, outpoints}
use scytale.Mempool.Removal.{
  contains, remove_entry, remove_parents, remove_transaction_and_descendants,
}
use scytale.Mempool.Admission.{admit_transaction}

-- `total_fees`, without the bound of the sum.
pub total_fees : List (Hash256 × MempoolEntry) → ℕ
total_fees [] = 0
total_fees ((id, e) ∷ es) = e.fee + total_fees es

pub entries_of : List PriorityKey → List (Hash256 × MempoolEntry) → List MempoolEntry
entries_of [] es = []
entries_of (k ∷ ks) es = elim (lookup k.txid es) [
  | none ↦ entries_of ks es
  | some e ↦ e ∷ entries_of ks es
]

pub get_entries_sorted_by_fee_rate : Mempool → List MempoolEntry
unfolding entries_of
get_entries_sorted_by_fee_rate p = entries_of (reverse p.priority_index) p.entries

pub record Selection : Type 0 where
  pub selected_txs : List Transaction
  pub total_fees : ℕ
  pub current_bytes : ℕ
  pub included_txids : List Hash256

-- The pending parents of a transaction are all included.
pub parents_included : Mempool → Hash256 → List Hash256 → Bool
parents_included p id included = elim (lookup id p.child_to_parents) [
  | none ↦ true
  | some parents ↦ all (λ h. contains h included) parents
]

-- One round of the loop over the keys.
pub select_one : Mempool → ℕ → PriorityKey → Selection → Selection
unfolding parents_included
select_one p max_bytes k s = elim (lookup k.txid p.entries) [
  | none ↦ s
  | some e ↦
      if parents_included p k.txid s.included_txids
        && leb (saturating_add s.current_bytes e.size_bytes) max_bytes
      then record {
        selected_txs = s.selected_txs ++ e.transaction ∷ [];
        total_fees = saturating_add s.total_fees e.fee;
        current_bytes = saturating_add s.current_bytes e.size_bytes;
        included_txids = k.txid ∷ s.included_txids;
      }
      else s
]

pub select_from : Mempool → ℕ → List PriorityKey → Selection → Selection
select_from p max_bytes [] s = s
select_from p max_bytes (k ∷ ks) s = select_from p max_bytes ks (select_one p max_bytes k s)

abbrev pub nothing_selected : Selection
nothing_selected = record {
  selected_txs = [];
  total_fees = 0;
  current_bytes = 0;
  included_txids = [];
}

pub select_transactions_for_block : Mempool → ℕ → Selection
unfolding select_from
select_transactions_for_block p max_bytes =
    select_from p max_bytes (reverse p.priority_index) nothing_selected

-- An input that neither the canonical set nor a pending transaction provides.
unfoldable pub is_missing : UtxoSet → List (Hash256 × MempoolEntry) → OutPoint → Bool
is_missing utxos es o = not (Utxos.contains_key o utxos.entries) && (elim (lookup o.txid es) [
  | none ↦ true
  | some parent ↦ not (ltb o.index (length parent.transaction.outputs))
])

pub any_missing : UtxoSet → List (Hash256 × MempoolEntry) → List OutPoint → Bool
unfolding is_missing
any_missing utxos es [] = false
any_missing utxos es (o ∷ os) = is_missing utxos es o || any_missing utxos es os

-- The ids of the entries with such an input; the second list is the one that is gone through.
pub invalid_txs :
    UtxoSet → List (Hash256 × MempoolEntry) → List (Hash256 × MempoolEntry) → List Hash256
unfolding any_missing
invalid_txs utxos es [] = []
invalid_txs utxos es ((id, e) ∷ rest) =
    let more = invalid_txs utxos es rest in
    if any_missing utxos es (outpoints e.transaction) then id ∷ more else more

unfoldable pub evict_all : List Hash256 → Mempool → Mempool
evict_all [] p = p
evict_all (id ∷ ids) p = evict_all ids (remove_transaction_and_descendants id p).0

-- A rejected transaction goes in front of those rejected later.
abbrev pub note :
    Hash256
    → Result MempoolError Hash256
    → Mempool × List (Hash256 × MempoolError)
    → Mempool × List (Hash256 × MempoolError)
note id (ok admitted) rest = rest
note id (err e) (p, rejected) = (p, (id, e) ∷ rejected)

module _ (blake3 : Bytes → Hash256) where
  -- Step 1: what the block confirms goes, with its links to its parents.
  unfoldable pub confirm : List Transaction → Mempool → Mempool
  confirm [] p = p
  confirm (tx ∷ txs) p =
      confirm txs (remove_parents (txid blake3 tx) (remove_entry (txid blake3 tx) p))

  unfoldable pub on_block_connected : Mempool → Block → UtxoSet → Mempool
  on_block_connected p block utxos =
      let p' = confirm (skip_first block.transactions) p in
      evict_all (invalid_txs utxos p'.entries p'.entries) p'

  -- What a reorganisation disconnected is admitted again, but for coinbases; the rejected come back with why.
  unfoldable pub on_reorg :
      AuthorizationVerifier
      → Mempool
      → List Transaction
      → UtxoSet
      → ℕ
      → Mempool × List (Hash256 × MempoolError)
  on_reorg verify p [] utxos now = (p, [])
  on_reorg verify p (tx ∷ txs) utxos now = elim (is_coinbase tx) [
    | true ↦ on_reorg verify p txs utxos now
    | false ↦
        note (txid blake3 tx) (admit_transaction blake3 verify p tx utxos now).1
          (on_reorg verify (admit_transaction blake3 verify p tx utxos now).0 txs utxos now)
  ]

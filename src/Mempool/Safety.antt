-- ===== src/Mempool/Safety.antt =====
-- crates/scytale-mempool/src/pool.rs: no two pending transactions spend the same output, whatever is admitted,
-- removed, confirmed and brought back, and the pool keeps to its limits.
use scytale.Base.{
  ℕ, ◌+◌, ◌^◌, ◌≤◌, ◌<◌, ◌≡◌, refl, sym, subst, ◌∙◌, inl, inr, true, false, Bool-cases,
  Option-cases, Result-cases, Option, none, some, List, [], ◌∷◌, All, length, Result, ok, err,
  and_then, arith,
}
use scytale.Base.Bytes.{Bytes}
use scytale.Base.Words.{u64_max}
use scytale.Base.Maps.{bytes_key, lookup}
use scytale.Primitives.{Hash256, OutPoint, outpoint_eq, outpoint_eq→≡}
use scytale.Core.Types.{Transaction, Block}
use scytale.Core.Transaction.{txid, is_coinbase}
use scytale.Core.Utxo.{UtxoSet}
use scytale.Core.Authorization.{AuthorizationVerifier}
use scytale.Consensus.Validation.{skip_first}
use scytale.Mempool.{
  MempoolError, MempoolEntry, Mempool, outpoint_key, outpoints, size_of, new_entry, with_config,
}
use scytale.Mempool.Removal.{remove_entry, remove_parents, remove_transaction_and_descendants}
use scytale.Mempool.Admission.{
  check_conflicts, over_capacity, make_room, store_entry, commit_entry, check_admission,
  admit_transaction,
}
use scytale.Mempool.Blocks.{confirm, invalid_txs, evict_all, on_block_connected, on_reorg, note}
use scytale.Mempool.Index.{
  IsIndexed, has_outpoint, size_sum, remove_entry-IsIndexed, remove_parents-IsIndexed,
  remove_transaction_and_descendants-IsIndexed,
}
use scytale.Mempool.Index.Store.{IsNew, store_entry-IsIndexed}
use scytale.Mempool.Index.Capacity.{
  HasRoom, Evicted, make_room-Evicted, no_entries, removed-limits, remove_parents-IsLess,
  remove_entry-IsLess,
}

check_conflicts-free :
    (spent : List (OutPoint × Hash256)) (os : List OutPoint) (o : OutPoint)
    → check_conflicts spent os ≡ ok tt
    → has_outpoint o os ≡ true
    → lookup o spent ≡ none
unfolding check_conflicts
check_conflicts-free spent [] o h has = absurd (ground arith)
check_conflicts-free spent (q ∷ os) o h has = elim (Option-cases (lookup q spent)) [
  | inr (id, taken) ↦ absurd (ground arith)
  | inl free ↦ elim (Bool-cases (outpoint_eq q o)) [
    | inl same ↦ subst (λ x. lookup x spent ≡ none) (outpoint_eq→≡ q o same) free
    | inr other ↦ check_conflicts-free spent os o (rw (free, check_conflicts) at h) (ground arith)
  ]
]

module _ (blake3 : Bytes → Hash256) (verify : AuthorizationVerifier) where
  -- What the checks say of the entry.
  pub record IsAdmissible (p : Mempool) (tx : Transaction) (e : MempoolEntry) : Type 0 where
    pub same : e.transaction ≡ tx
    pub id : e.txid ≡ txid blake3 tx
    pub size : e.size_bytes ≡ size_of tx
    pub rate : p.min_fee_rate ≤ e.fee_rate
    pub unknown : lookup (txid blake3 tx) p.entries ≡ none
    pub unspent : check_conflicts p.spent_outpoints (outpoints tx) ≡ ok tt

  pub check_admission-IsAdmissible :
      (p : Mempool) (tx : Transaction) (utxos : UtxoSet) (now : ℕ) (e : MempoolEntry)
      (parents : List Hash256)
      → check_admission blake3 verify p tx utxos now ≡ ok (e, parents)
      → IsAdmissible p tx e
  unfolding check_admission new_entry
  check_admission-IsAdmissible p tx utxos now e parents h = ground arith

  pub admissible-IsNew :
      (p : Mempool) (tx : Transaction) (e : MempoolEntry) → IsAdmissible p tx e → IsNew e p
  admissible-IsNew p tx e a = record {
    absent = subst (λ x. lookup x p.entries ≡ none) (sym a.id) a.unknown;
    free = λ o has.
        check_conflicts-free p.spent_outpoints (outpoints tx) o a.unspent
          (subst (λ t. has_outpoint o (outpoints t) ≡ true) a.same has);
  }

  commit-IsIndexed :
      (e : MempoolEntry) (parents : List Hash256) (p : Mempool)
      → IsIndexed (store_entry e p)
      → IsIndexed (commit_entry e parents p)
  unfolding commit_entry
  commit-IsIndexed e parents p inv = record {
    distinct = inv.distinct;
    keyed = inv.keyed;
    spends = inv.spends;
    spender = inv.spender;
    ranked = inv.ranked;
    ranks = inv.ranks;
    counted = inv.counted;
  }

  pub room_fits :
      (p : Mempool) (size : ℕ)
      → over_capacity p size ≡ false
      → p.max_bytes < u64_max
      → (p.total_bytes + size ≤ p.max_bytes) × (length p.entries < p.max_count)
  unfolding over_capacity
  room_fits p size room limit = ground arith

  -- Where there is room, or nothing left, the bytes of the entry can be added.
  fits :
      (p : Mempool) (size : ℕ)
      → IsIndexed p
      → HasRoom size p
      → p.max_bytes < u64_max
      → size < 2 ^ 64
      → p.total_bytes + size < 2 ^ 64
  fits p size inv (inl room) limit small = omega (arith, (room_fits p size room limit).0)
  fits p size inv (inr empty) limit small = omega (arith, (no_entries p inv empty).1)

  -- The indexes agree with the entries, and the limit on the bytes is below the largest number.
  pub record IsSound (p : Mempool) : Type 0 where
    pub indexed : IsIndexed p
    pub limit : p.max_bytes < u64_max

  commit_limits :
      (e : MempoolEntry) (parents : List Hash256) (p : Mempool)
      → ((commit_entry e parents p).max_bytes ≡ p.max_bytes)
        × ((commit_entry e parents p).max_count ≡ p.max_count)
  unfolding commit_entry store_entry
  commit_limits e parents p = (refl, refl)

  commit-IsSound :
      (p : Mempool) (e : MempoolEntry) (parents : List Hash256)
      (out : Mempool × Result MempoolError (Option Hash256))
      → p.max_bytes < u64_max
      → e.size_bytes < 2 ^ 64
      → Evicted e p out
      → IsSound (and_then out (λ p' _. (commit_entry e parents p', ok e.txid))).0
  commit-IsSound p e parents (q, ok id) limit small (inv, fresh, count, bytes, room) =
      let below : q.max_bytes < u64_max = omega arith in
      record {
        indexed =
            commit-IsIndexed e parents q
              (store_entry-IsIndexed q inv e fresh (fits q e.size_bytes inv room below small));
        limit = omega (arith, (commit_limits e parents q).0);
      }
  commit-IsSound p e parents (q, err f) limit small (inv, fresh, count, bytes) = record {
    indexed = inv;
    limit = omega arith;
  }

  pub admit_transaction-IsSound :
      (p : Mempool) (tx : Transaction) (utxos : UtxoSet) (now : ℕ)
      → IsSound p
      → size_of tx < 2 ^ 64
      → IsSound (admit_transaction blake3 verify p tx utxos now).0
  unfolding admit_transaction
  admit_transaction-IsSound p tx utxos now sound small =
      elim (Result-cases (check_admission blake3 verify p tx utxos now)) [
        | inr (f, failed) ↦ rw (failed, admit_transaction) sound
        | inl ((e, parents), passed) ↦
            let a = check_admission-IsAdmissible p tx utxos now e parents passed in
            rw (passed, admit_transaction)
              (commit-IsSound p e parents (make_room e p) sound.limit (omega (arith, a.size))
                (make_room-Evicted e p sound.indexed (admissible-IsNew p tx e a)))
      ]

  removed-IsSound :
      (id : Hash256) (p : Mempool) → IsSound p → IsSound (remove_transaction_and_descendants id p).0
  removed-IsSound id p sound = record {
    indexed = remove_transaction_and_descendants-IsIndexed id p sound.indexed;
    limit = omega (arith, sound.limit, (removed-limits id p).1);
  }

  evict_all-IsSound : (ids : List Hash256) (p : Mempool) → IsSound p → IsSound (evict_all ids p)
  unfolding evict_all
  evict_all-IsSound [] p sound = sound
  evict_all-IsSound (id ∷ ids) p sound =
      evict_all-IsSound ids (remove_transaction_and_descendants id p).0 (removed-IsSound id p sound)

  confirmed-limit :
      (id : Hash256) (p : Mempool) → (remove_parents id (remove_entry id p)).max_bytes ≡ p.max_bytes
  confirmed-limit id p =
      (remove_parents-IsLess id (remove_entry id p)).bytes ∙ (remove_entry-IsLess id p).bytes

  confirm-IsSound :
      (txs : List Transaction) (p : Mempool) → IsSound p → IsSound (confirm blake3 txs p)
  unfolding confirm
  confirm-IsSound [] p sound = sound
  confirm-IsSound (tx ∷ txs) p sound =
      let id = txid blake3 tx in
      confirm-IsSound txs (remove_parents id (remove_entry id p)) (record {
        indexed =
            remove_parents-IsIndexed id (remove_entry id p)
              (remove_entry-IsIndexed id p sound.indexed);
        limit = omega (arith, sound.limit, confirmed-limit id p);
      })

  pub on_block_connected-IsSound :
      (p : Mempool) (block : Block) (utxos : UtxoSet)
      → IsSound p
      → IsSound (on_block_connected blake3 p block utxos)
  unfolding on_block_connected
  on_block_connected-IsSound p block utxos sound =
      let p' = confirm blake3 (skip_first block.transactions) p in
      evict_all-IsSound (invalid_txs utxos p'.entries p'.entries) p'
        (confirm-IsSound (skip_first block.transactions) p sound)

  note-pool :
      (id : Hash256) (r : Result MempoolError Hash256)
      (rest : Mempool × List (Hash256 × MempoolError))
      → (note id r rest).0 ≡ rest.0
  note-pool id (ok h) rest = refl
  note-pool id (err e) (p, rejected) = refl

  pub on_reorg-IsSound :
      (txs : List Transaction) (p : Mempool) (utxos : UtxoSet) (now : ℕ)
      → IsSound p
      → All (λ tx. size_of tx < 2 ^ 64) txs
      → IsSound (on_reorg blake3 verify p txs utxos now).0
  unfolding on_reorg
  on_reorg-IsSound [] p utxos now sound small = sound
  on_reorg-IsSound (tx ∷ txs) p utxos now sound (one, rest) = elim (Bool-cases (is_coinbase tx)) [
    | inl coinbase ↦ rw (coinbase, on_reorg) (on_reorg-IsSound txs p utxos now sound rest)
    | inr other ↦
        rw (other, on_reorg)
          (subst IsSound
            (sym (
              note-pool (txid blake3 tx) (admit_transaction blake3 verify p tx utxos now).1 (
                on_reorg blake3 verify (admit_transaction blake3 verify p tx utxos now).0 txs utxos
                  now)))
            (on_reorg-IsSound txs (admit_transaction blake3 verify p tx utxos now).0 utxos now
              (admit_transaction-IsSound p tx utxos now sound one) rest))
  ]

  -- The pools of a node: empty at first, then what its calls make of it.
  pub data Reachable : Mempool → Type 0 where
    created :
        (max_count max_bytes min_fee_rate : ℕ)
        → max_bytes < u64_max
        → Reachable (with_config max_count max_bytes min_fee_rate)
    admitted :
        (p q : Mempool) (tx : Transaction) (utxos : UtxoSet) (now : ℕ)
        (r : Result MempoolError Hash256)
        → Reachable p
        → size_of tx < 2 ^ 64
        → admit_transaction blake3 verify p tx utxos now ≡ (q, r)
        → Reachable q
    removed :
        (p q : Mempool) (id : Hash256) (ids : List Hash256)
        → Reachable p
        → remove_transaction_and_descendants id p ≡ (q, ids)
        → Reachable q
    connected :
        (p q : Mempool) (block : Block) (utxos : UtxoSet)
        → Reachable p
        → on_block_connected blake3 p block utxos ≡ q
        → Reachable q
    reorganized :
        (p q : Mempool) (txs : List Transaction) (utxos : UtxoSet) (now : ℕ)
        (rejected : List (Hash256 × MempoolError))
        → Reachable p
        → All (λ tx. size_of tx < 2 ^ 64) txs
        → on_reorg blake3 verify p txs utxos now ≡ (q, rejected)
        → Reachable q

  created-IsSound :
      (max_count max_bytes min_fee_rate : ℕ)
      → max_bytes < u64_max
      → IsSound (with_config max_count max_bytes min_fee_rate)
  unfolding with_config lookup
  created-IsSound max_count max_bytes min_fee_rate limit = record {
    indexed = record {
      distinct = tt;
      keyed = λ id e h. absurd (ground arith);
      spends = λ id e o h has. absurd (ground arith);
      spender = λ o id h. absurd (ground arith);
      ranked = λ id e h. absurd (ground arith);
      ranks = λ k h. absurd (ground arith);
      counted = refl;
    };
    limit = limit;
  }

  pub Reachable-IsSound : (p : Mempool) → Reachable p → IsSound p
  Reachable-IsSound p (created c b f limit) = created-IsSound c b f limit
  Reachable-IsSound p (admitted q q' tx utxos now r before small step) =
      subst (λ out. IsSound out.0) step
        (admit_transaction-IsSound q tx utxos now (Reachable-IsSound q before) small)
  Reachable-IsSound p (removed q q' id ids before step) =
      subst (λ out. IsSound out.0) step (removed-IsSound id q (Reachable-IsSound q before))
  Reachable-IsSound p (connected q q' block utxos before step) =
      subst IsSound step (on_block_connected-IsSound q block utxos (Reachable-IsSound q before))
  Reachable-IsSound p (reorganized q q' txs utxos now rejected before small step) =
      subst (λ out. IsSound out.0) step
        (on_reorg-IsSound txs q utxos now (Reachable-IsSound q before) small)

  -- Whatever was admitted, removed, confirmed and brought back, two pending transactions that spend the same
  -- outpoint are the same, and the index of spent outpoints names that transaction.
  pub Reachable-no_double_spend :
      (p : Mempool) (i j : Hash256) (e f : MempoolEntry) (o : OutPoint)
      → Reachable p
      → lookup i p.entries ≡ some e
      → lookup j p.entries ≡ some f
      → has_outpoint o (outpoints e.transaction) ≡ true
      → has_outpoint o (outpoints f.transaction) ≡ true
      → (i ≡ j) × (lookup o p.spent_outpoints ≡ some i)
  Reachable-no_double_spend p i j e f o reached at_i at_j has_e has_f =
      let inv = (Reachable-IsSound p reached).indexed in
      let by_i = inv.spends i e o at_i has_e in let by_j = inv.spends j f o at_j has_f in (cc, by_i)

  -- An outpoint that the index marks as spent is spent by a transaction of the pool, so no transaction is refused
  -- for a conflict with one that is gone; and the counted bytes are those of the entries.
  pub Reachable-spender :
      (p : Mempool) (o : OutPoint) (id : Hash256)
      → Reachable p
      → lookup o p.spent_outpoints ≡ some id
      → ((e : MempoolEntry) × (lookup id p.entries ≡ some e)
          × (has_outpoint o (outpoints e.transaction) ≡ true))
        × (p.total_bytes ≡ size_sum p.entries)
  Reachable-spender p o id reached marked =
      let inv = (Reachable-IsSound p reached).indexed in (inv.spender o id marked, inv.counted)

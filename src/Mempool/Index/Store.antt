-- ===== src/Mempool/Index/Store.antt =====
-- crates/scytale-mempool/src/pool.rs: an entry that is new, with inputs that nothing spends, keeps the indexes in
-- step when it is stored; and what is removed before leaves it new.
use mathlib.Core.List.{append_assoc, append-nil}
use scytale.Base.{
  ◌++◌, ℕ, zero, suc, ◌+◌, ◌^◌, ◌<◌, ◌≡◌, refl, sym, ap, subst, ◌∙◌, ◌⊎◌, inl, inr, true, false,
  ◌||◌, Bool-cases, Option-cases, none, some, List, [], ◌∷◌, if◌then◌else◌, arith,
}
use scytale.Base.Bytes.{bytes_eq, bytes_eq_refl, bytes_eq→≡}
use scytale.Base.Maps.{bytes_key, lookup, insert, lookup-remove, lookup-insert}
use scytale.Primitives.{Hash256, OutPoint}
use scytale.Mempool.{
  MempoolEntry, Mempool, Links, PriorityKey, priority_key, key_eq, insert_key, outpoint_key,
  outpoints,
}
use scytale.Mempool.Removal.{
  contains, children_of, collect, link_count, remove_entry, remove_parents, remove_one, remove_all,
  descendants, remove_transaction_and_descendants,
}
use scytale.Mempool.Admission.{mark_spent, store_entry}
use scytale.Mempool.Index.{
  IsIndexed, has_outpoint, has_key, Distinct, size_sum, remove-Distinct, lookup-forget_outpoints,
  key_eq→≡, key_eq_refl, remove_absent,
}

-- No entry has the id, and nothing pending spends what the entry spends.
pub record IsNew (e : MempoolEntry) (p : Mempool) : Type 0 where
  pub absent : lookup e.txid p.entries ≡ none
  pub free :
      (o : OutPoint)
      → has_outpoint o (outpoints e.transaction) ≡ true
      → lookup o p.spent_outpoints ≡ none

remove_entry-IsNew :
    (id : Hash256) (e : MempoolEntry) (p : Mempool) → IsNew e p → IsNew e (remove_entry id p)
unfolding remove_entry
remove_entry-IsNew id e p fresh = elim (Option-cases (lookup id p.entries)) [
  | inl missing ↦ rw (missing, remove_entry) fresh
  | inr (f, found) ↦
      rw (found, remove_entry)
        (record {
          absent = ground (arith, lookup-remove id e.txid p.entries, fresh.absent);
          free = λ o has. ground (
            arith,
            lookup-forget_outpoints (outpoints f.transaction) o p.spent_outpoints,
            fresh.free o has,
          );
        })
]

remove_parents-IsNew :
    (id : Hash256) (e : MempoolEntry) (p : Mempool) → IsNew e p → IsNew e (remove_parents id p)
unfolding remove_parents
remove_parents-IsNew id e p fresh = elim (Option-cases (lookup id p.child_to_parents)) [
  | inl missing ↦ rw (missing, remove_parents) fresh
  | inr (parents, found) ↦
      rw (found, remove_parents) (record { absent = fresh.absent; free = fresh.free })
]

remove_all-IsNew :
    (ids : List Hash256) (e : MempoolEntry) (p : Mempool) → IsNew e p → IsNew e (remove_all ids p)
unfolding remove_all
remove_all-IsNew [] e p fresh = fresh
remove_all-IsNew (id ∷ ids) e p fresh =
    let less = remove_parents-IsNew id e (remove_entry id p) (remove_entry-IsNew id e p fresh) in
    remove_all-IsNew ids e (remove_one id p) (record { absent = less.absent; free = less.free })

pub removed-IsNew :
    (id : Hash256) (e : MempoolEntry) (p : Mempool)
    → IsNew e p
    → IsNew e (remove_transaction_and_descendants id p).0
unfolding remove_transaction_and_descendants
removed-IsNew id e p fresh = remove_all-IsNew (descendants p id) e p fresh

-- What was collected stays in front.
collect-prefix :
    (fuel : ℕ) (links : Links) (queue ids : List Hash256)
    → (rest : List Hash256) × (collect fuel links queue ids ≡ ids ++ rest)
unfolding collect
collect-prefix zero links queue ids = ([], sym (append-nil ids))
collect-prefix (suc fuel) links [] ids = ([], sym (append-nil ids))
collect-prefix (suc fuel) links (id ∷ queue) ids = elim (Bool-cases (contains id ids)) [
  | inl seen ↦ rw (seen, collect) (collect-prefix fuel links queue ids)
  | inr new ↦
      let (rest, e) = collect-prefix fuel links (children_of links id ++ queue) (ids ++ id ∷ []) in
      (id ∷ rest, rw (new, collect) (e ∙ append_assoc ids (id ∷ []) rest))
]

-- The transaction itself is the first of its descendants.
pub descendants-cons :
    (p : Mempool) (id : Hash256) → (rest : List Hash256) × (descendants p id ≡ id ∷ rest)
unfolding descendants collect
descendants-cons p id =
    collect-prefix (suc (link_count p.parent_to_children)) p.parent_to_children
      (children_of p.parent_to_children id ++ []) (id ∷ [])

remove_one-absent :
    (id j : Hash256) (p : Mempool)
    → lookup j p.entries ≡ none
    → lookup j (remove_one id p).entries ≡ none
unfolding remove_entry remove_parents
remove_one-absent id j p h = ground (arith, lookup-remove id j p.entries)

remove_one_gone : (id : Hash256) (p : Mempool) → lookup id (remove_one id p).entries ≡ none
unfolding remove_entry remove_parents
remove_one_gone id p = ground (arith, lookup-remove id id p.entries, bytes_eq_refl id)

remove_all-absent :
    (ids : List Hash256) (j : Hash256) (p : Mempool)
    → lookup j p.entries ≡ none
    → lookup j (remove_all ids p).entries ≡ none
unfolding remove_all
remove_all-absent [] j p h = h
remove_all-absent (id ∷ ids) j p h =
    remove_all-absent ids j (remove_one id p) (remove_one-absent id j p h)

-- What is removed with its descendants is gone.
pub removed_absent :
    (id : Hash256) (p : Mempool)
    → lookup id (remove_transaction_and_descendants id p).0.entries ≡ none
unfolding remove_transaction_and_descendants remove_all
removed_absent id p =
    let (rest, e) = descendants-cons p id in
    rw e (remove_all-absent rest id (remove_one id p) (remove_one_gone id p))

lookup-mark_spent :
    (id : Hash256) (os : List OutPoint) (o : OutPoint) (spent : List (OutPoint × Hash256))
    → lookup o (mark_spent id os spent) ≡ (if has_outpoint o os then some id else lookup o spent)
unfolding mark_spent
lookup-mark_spent id [] o spent = refl
lookup-mark_spent id (q ∷ os) o spent =
    ground (arith, lookup-mark_spent id os o (insert q id spent), lookup-insert q o id spent)

has_key-insert_key :
    (k j : PriorityKey) (ks : List PriorityKey)
    → has_key j (insert_key k ks) ≡ (key_eq k j || has_key j ks)
unfolding insert_key
has_key-insert_key k j [] = refl
has_key-insert_key k j (i ∷ ks) =
    ground (arith, has_key-insert_key k j ks, key_eq→≡ i k, key_eq_refl k)

module _ (p : Mempool) (inv : IsIndexed p) (e : MempoolEntry) (fresh : IsNew e p)
    (fits : p.total_bytes + e.size_bytes < 2 ^ 64) where
  entry_found :
      (j : Hash256) (f : MempoolEntry)
      → lookup j (store_entry e p).entries ≡ some f
      → ((bytes_eq e.txid j ≡ true) × (f ≡ e))
        ⊎ ((bytes_eq e.txid j ≡ false) × (lookup j p.entries ≡ some f))
  unfolding store_entry
  entry_found j f h = elim (Bool-cases (bytes_eq e.txid j)) [
    | inl same ↦ inl (ground (arith, lookup-insert e.txid j e p.entries))
    | inr other ↦ inr (ground (arith, lookup-insert e.txid j e p.entries))
  ]

  new_found : lookup e.txid (store_entry e p).entries ≡ some e
  unfolding store_entry
  new_found = ground (arith, lookup-insert e.txid e.txid e p.entries, bytes_eq_refl e.txid)

  old_found :
      (j : Hash256) (f : MempoolEntry)
      → lookup j p.entries ≡ some f
      → lookup j (store_entry e p).entries ≡ some f
  unfolding store_entry
  old_found j f h = elim (Bool-cases (bytes_eq e.txid j)) [
    | inl same ↦
        let there : lookup e.txid p.entries ≡ some f =
          subst (λ x. lookup x p.entries ≡ some f) (sym (bytes_eq→≡ e.txid j same)) h in
        absurd (ground (arith, fresh.absent))
    | inr other ↦ ground (arith, lookup-insert e.txid j e p.entries)
  ]

  store-spends :
      (j : Hash256) (f : MempoolEntry) (o : OutPoint)
      → lookup j (store_entry e p).entries ≡ some f
      → has_outpoint o (outpoints f.transaction) ≡ true
      → lookup o (store_entry e p).spent_outpoints ≡ some j
  unfolding store_entry
  store-spends j f o h has =
      let law = lookup-mark_spent e.txid (outpoints e.transaction) o p.spent_outpoints in
      elim (entry_found j f h) [
        | inl (same, fe) ↦
            let mine : has_outpoint o (outpoints e.transaction) ≡ true =
              subst (λ x. has_outpoint o (outpoints x.transaction) ≡ true) fe has in
            law ∙ rw mine (ap some (bytes_eq→≡ e.txid j same))
        | inr (other, before) ↦
            let by_j = inv.spends j f o before has in
            elim (Bool-cases (has_outpoint o (outpoints e.transaction))) [
              | inl both ↦ absurd (ground (arith, fresh.free o both))
              | inr apart ↦ law ∙ rw apart by_j
            ]
      ]

  store-spender :
      (o : OutPoint) (j : Hash256)
      → lookup o (store_entry e p).spent_outpoints ≡ some j
      → (f : MempoolEntry) × (lookup j (store_entry e p).entries ≡ some f)
        × (has_outpoint o (outpoints f.transaction) ≡ true)
  unfolding store_entry
  store-spender o j h =
      let law = lookup-mark_spent e.txid (outpoints e.transaction) o p.spent_outpoints in
      elim (Bool-cases (has_outpoint o (outpoints e.transaction))) [
        | inl mine ↦
            let k : e.txid ≡ j = ground arith in
            (e, subst (λ x. lookup x (store_entry e p).entries ≡ some e) k new_found, mine)
        | inr apart ↦
            let before : lookup o p.spent_outpoints ≡ some j = ground arith in
            let (f, at_j, has) = inv.spender o j before in (f, old_found j f at_j, has)
      ]

  store-ranked :
      (j : Hash256) (f : MempoolEntry)
      → lookup j (store_entry e p).entries ≡ some f
      → has_key (priority_key f) (store_entry e p).priority_index ≡ true
  unfolding store_entry
  store-ranked j f h =
      let law = has_key-insert_key (priority_key e) (priority_key f) p.priority_index in
      elim (entry_found j f h) [
        | inl (same, fe) ↦
            law
            ∙ subst
                (λ x.
                  (key_eq (priority_key e) (priority_key x)
                    || has_key (priority_key x) p.priority_index)
                  ≡ true)
                (sym fe) (rw (key_eq_refl (priority_key e)) refl)
        | inr (other, before) ↦ ground (arith, inv.ranked j f before)
      ]

  store-ranks :
      (k : PriorityKey)
      → has_key k (store_entry e p).priority_index ≡ true
      → (f : MempoolEntry) × (lookup k.txid (store_entry e p).entries ≡ some f)
        × (priority_key f ≡ k)
  unfolding store_entry
  store-ranks k h =
      let law = has_key-insert_key (priority_key e) k p.priority_index in
      elim (Bool-cases (key_eq (priority_key e) k)) [
        | inl mine ↦
            let ke = key_eq→≡ (priority_key e) k mine in
            (e, subst (λ x. lookup x.txid (store_entry e p).entries ≡ some e) ke new_found, ke)
        | inr other ↦
            let (f, at_k, key) = inv.ranks k (ground arith) in (f, old_found k.txid f at_k, key)
      ]

  store-keyed :
      (j : Hash256) (f : MempoolEntry) → lookup j (store_entry e p).entries ≡ some f → f.txid ≡ j
  store-keyed j f h = elim (entry_found j f h) [
    | inl (same, fe) ↦ ap (λ x. x.txid) fe ∙ bytes_eq→≡ e.txid j same
    | inr (other, before) ↦ inv.keyed j f before
  ]

  store-Distinct : Distinct (store_entry e p).entries
  unfolding store_entry insert
  store-Distinct = (
    ground (arith, lookup-remove e.txid e.txid p.entries, bytes_eq_refl e.txid),
    remove-Distinct e.txid p.entries inv.distinct,
  )

  store-counted : (store_entry e p).total_bytes ≡ size_sum (store_entry e p).entries
  unfolding store_entry insert
  store-counted =
      let same = remove_absent e.txid p.entries fresh.absent in ground (arith, inv.counted)

  -- An entry that is new keeps the indexes in step with the entries.
  pub store_entry-IsIndexed : IsIndexed (store_entry e p)
  store_entry-IsIndexed = record {
    distinct = store-Distinct;
    keyed = store-keyed;
    spends = store-spends;
    spender = store-spender;
    ranked = store-ranked;
    ranks = store-ranks;
    counted = store-counted;
  }

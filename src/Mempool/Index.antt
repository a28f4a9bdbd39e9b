-- ===== src/Mempool/Index.antt =====
-- crates/scytale-mempool/src/pool.rs: the indexes of the pool agree with its entries, and removal keeps that.
pub mod Store
pub mod Capacity
pub mod Descendants
use scytale.Base.{
  ℕ, zero, suc, ◌+◌, ◌-◌, ◌≤◌, ◌<◌, ◌≡◌, refl, sym, ap, subst, ◌∙◌, inl, inr, Bool, true, false,
  ◌&&◌, ◌||◌, Bool-cases, Option-cases, Option, none, some, List, [], ◌∷◌, ◌++◌, if◌then◌else◌,
  length, arith,
}
use scytale.Base.Bytes.{Bytes, bytes_eq, bytes_eq_refl, bytes_eq→≡}
use scytale.Base.Maps.{Key, bytes_key, lookup, remove, insert, lookup-remove, lookup-insert}
use scytale.Primitives.{Hash256, OutPoint, outpoint_eq, outpoint_eq_refl, outpoint_eq→≡}
use scytale.Core.Types.{Transaction}
use scytale.Mempool.{
  MempoolEntry, Mempool, Links, PriorityKey, priority_key, key_eq, remove_key, insert_key,
  outpoint_key, outpoints,
}
use scytale.Mempool.Removal.{
  forget_outpoints, remove_entry, remove_parents, remove_children, remove_one, remove_all,
  remove_transaction_and_descendants, descendants, contains,
}

abbrev pub EntryMap : Type 0
EntryMap = List (Hash256 × MempoolEntry)

abbrev pub has_outpoint : OutPoint → List OutPoint → Bool
has_outpoint o [] = false
has_outpoint o (p ∷ ps) = outpoint_eq p o || has_outpoint o ps

abbrev pub has_key : PriorityKey → List PriorityKey → Bool
has_key k [] = false
has_key k (j ∷ js) = key_eq j k || has_key k js

-- No id occurs twice.
abbrev pub Distinct : EntryMap → Type 0
Distinct [] = Unit
Distinct ((id, e) ∷ m) = (lookup id m ≡ none) × Distinct m

-- The bytes of all entries together.
abbrev pub size_sum : EntryMap → ℕ
size_sum [] = 0
size_sum ((id, e) ∷ m) = e.size_bytes + size_sum m

pub key_eq→≡ : (j k : PriorityKey) → key_eq j k ≡ true → j ≡ k
key_eq→≡ j k h = ground (arith, bytes_eq→≡ j.txid k.txid)

pub key_eq_refl : (k : PriorityKey) → key_eq k k ≡ true
key_eq_refl k = ground (arith, bytes_eq_refl k.txid)

-- The indexes of the pool say what its entries say: an outpoint is marked as spent by a transaction exactly where
-- that transaction is an entry that spends it, the keys are those of the entries, and the bytes are counted.
pub record IsIndexed (p : Mempool) : Type 0 where
  pub distinct : Distinct p.entries
  pub keyed : (id : Hash256) (e : MempoolEntry) → lookup id p.entries ≡ some e → e.txid ≡ id
  pub spends :
      (id : Hash256) (e : MempoolEntry) (o : OutPoint)
      → lookup id p.entries ≡ some e
      → has_outpoint o (outpoints e.transaction) ≡ true
      → lookup o p.spent_outpoints ≡ some id
  pub spender :
      (o : OutPoint) (id : Hash256)
      → lookup o p.spent_outpoints ≡ some id
      → (e : MempoolEntry) × (lookup id p.entries ≡ some e)
        × (has_outpoint o (outpoints e.transaction) ≡ true)
  pub ranked :
      (id : Hash256) (e : MempoolEntry)
      → lookup id p.entries ≡ some e
      → has_key (priority_key e) p.priority_index ≡ true
  pub ranks :
      (k : PriorityKey)
      → has_key k p.priority_index ≡ true
      → (e : MempoolEntry) × (lookup k.txid p.entries ≡ some e) × (priority_key e ≡ k)
  pub counted : p.total_bytes ≡ size_sum p.entries

pub lookup-forget_outpoints :
    (os : List OutPoint) (o : OutPoint) (spent : List (OutPoint × Hash256))
    → lookup o (forget_outpoints os spent) ≡ (if has_outpoint o os then none else lookup o spent)
unfolding forget_outpoints
lookup-forget_outpoints [] o spent = refl
lookup-forget_outpoints (q ∷ os) o spent =
    ground (arith, lookup-forget_outpoints os o (remove q spent), lookup-remove q o spent)

pub has_key-remove_key :
    (k j : PriorityKey) (ks : List PriorityKey)
    → has_key j (remove_key k ks) ≡ (if key_eq k j then false else has_key j ks)
unfolding remove_key
has_key-remove_key k j [] = ground arith
has_key-remove_key k j (i ∷ ks) =
    ground
      (arith, has_key-remove_key k j ks, key_eq→≡ i k, key_eq→≡ i j, key_eq→≡ k j, key_eq_refl k)

pub remove_absent : (id : Hash256) (m : EntryMap) → lookup id m ≡ none → remove id m ≡ m
unfolding lookup remove
remove_absent id [] h = refl
remove_absent id ((j, e) ∷ m) h = ground (arith, remove_absent id m)

pub remove-Distinct : (id : Hash256) (m : EntryMap) → Distinct m → Distinct (remove id m)
unfolding remove
remove-Distinct id [] d = tt
remove-Distinct id ((j, e) ∷ m) (d, ds) = elim (Bool-cases (bytes_eq j id)) [
  | inl same ↦ rw (same, remove) (remove-Distinct id m ds)
  | inr other ↦ rw (other, remove) (ground (arith, lookup-remove id j m), remove-Distinct id m ds)
]

pub size_sum-remove :
    (id : Hash256) (m : EntryMap) (e : MempoolEntry)
    → Distinct m
    → lookup id m ≡ some e
    → size_sum (remove id m) + e.size_bytes ≡ size_sum m
unfolding lookup remove
size_sum-remove id [] e d h = cc
size_sum-remove id ((j, f) ∷ m) e (d, ds) h = elim (Bool-cases (bytes_eq j id)) [
  | inl same ↦
      let k = bytes_eq→≡ j id same in rw (same, remove) (ground (arith, remove_absent id m))
  | inr other ↦ rw (other, remove) (ground (arith, size_sum-remove id m e ds))
]

module _ (p : Mempool) (inv : IsIndexed p) (id : Hash256) (e : MempoolEntry)
    (found : lookup id p.entries ≡ some e) where
  -- The pool without the entry.
  abbrev without : Mempool
  without = record p {
    entries = remove id p.entries;
    priority_index = remove_key (priority_key e) p.priority_index;
    total_bytes = p.total_bytes - e.size_bytes;
    spent_outpoints = forget_outpoints (outpoints e.transaction) p.spent_outpoints;
  }

  kept_entry :
      (j : Hash256) (f : MempoolEntry)
      → lookup j without.entries ≡ some f
      → (bytes_eq id j ≡ false) × (lookup j p.entries ≡ some f)
  kept_entry j f h = ground (arith, lookup-remove id j p.entries)

  entry_kept :
      (j : Hash256) (f : MempoolEntry)
      → lookup j p.entries ≡ some f
      → bytes_eq id j ≡ false
      → lookup j without.entries ≡ some f
  entry_kept j f h other = ground (arith, lookup-remove id j p.entries)

  without-spends :
      (j : Hash256) (f : MempoolEntry) (o : OutPoint)
      → lookup j without.entries ≡ some f
      → has_outpoint o (outpoints f.transaction) ≡ true
      → lookup o without.spent_outpoints ≡ some j
  without-spends j f o h has =
      let (other, before) = kept_entry j f h in
      let by_j = inv.spends j f o before has in
      elim (Bool-cases (has_outpoint o (outpoints e.transaction))) [
        | inl both ↦
            let by_id = inv.spends id e o found both in
            let same : id ≡ j = cc in absurd (ground (arith, bytes_eq_refl id))
        | inr free ↦
            lookup-forget_outpoints (outpoints e.transaction) o p.spent_outpoints ∙ rw free by_j
      ]

  without-spender :
      (o : OutPoint) (j : Hash256)
      → lookup o without.spent_outpoints ≡ some j
      → (f : MempoolEntry) × (lookup j without.entries ≡ some f)
        × (has_outpoint o (outpoints f.transaction) ≡ true)
  without-spender o j h = elim (Bool-cases (has_outpoint o (outpoints e.transaction))) [
    | inl gone ↦
        absurd
          (ground (arith, lookup-forget_outpoints (outpoints e.transaction) o p.spent_outpoints))
    | inr free ↦
        let before : lookup o p.spent_outpoints ≡ some j =
          ground (arith, lookup-forget_outpoints (outpoints e.transaction) o p.spent_outpoints) in
        let (f, at_j, has) = inv.spender o j before in
        elim (Bool-cases (bytes_eq id j)) [
          | inl same ↦
              let k : id ≡ j = bytes_eq→≡ id j same in
              let there : lookup j p.entries ≡ some e =
                subst (λ x. lookup x p.entries ≡ some e) k found in
              let ef : e ≡ f = ground arith in absurd (ground arith)
          | inr other ↦ (f, entry_kept j f at_j other, has)
        ]
  ]

  without-ranked :
      (j : Hash256) (f : MempoolEntry)
      → lookup j without.entries ≡ some f
      → has_key (priority_key f) without.priority_index ≡ true
  without-ranked j f h =
      let (other, before) = kept_entry j f h in
      let id_of_e = inv.keyed id e found in
      let id_of_f = inv.keyed j f before in
      let there = inv.ranked j f before in
      elim (Bool-cases (key_eq (priority_key e) (priority_key f))) [
        | inl same ↦
            let txids = ap (λ k. k.txid) (key_eq→≡ (priority_key e) (priority_key f) same) in
            let k : id ≡ j = sym id_of_e ∙ txids ∙ id_of_f in
            absurd (ground (arith, bytes_eq_refl id))
        | inr apart ↦
            has_key-remove_key (priority_key e) (priority_key f) p.priority_index ∙ rw apart there
      ]

  without-ranks :
      (k : PriorityKey)
      → has_key k without.priority_index ≡ true
      → (f : MempoolEntry) × (lookup k.txid without.entries ≡ some f) × (priority_key f ≡ k)
  without-ranks k h =
      let law = has_key-remove_key (priority_key e) k p.priority_index in
      let apart : key_eq (priority_key e) k ≡ false = ground arith in
      let before : has_key k p.priority_index ≡ true = ground arith in
      let (f, at_k, key) = inv.ranks k before in
      elim (Bool-cases (bytes_eq id k.txid)) [
        | inl same ↦
            let there : lookup k.txid p.entries ≡ some e =
              subst (λ x. lookup x p.entries ≡ some e) (bytes_eq→≡ id k.txid same) found in
            let ef : e ≡ f = ground arith in
            let ke : priority_key e ≡ k = ap priority_key ef ∙ key in
            absurd (
              ground (
                arith,
                subst (λ x. key_eq (priority_key e) x ≡ true) ke (key_eq_refl (priority_key e)),
              ))
        | inr other ↦ (f, entry_kept k.txid f at_k other, key)
      ]

  without-IsIndexed : IsIndexed without
  without-IsIndexed = record {
    distinct = remove-Distinct id p.entries inv.distinct;
    keyed = λ j f h. inv.keyed j f (kept_entry j f h).1;
    spends = without-spends;
    spender = without-spender;
    ranked = without-ranked;
    ranks = without-ranks;
    counted = omega (arith, inv.counted, size_sum-remove id p.entries e inv.distinct found);
  }

pub remove_entry-IsIndexed :
    (id : Hash256) (p : Mempool) → IsIndexed p → IsIndexed (remove_entry id p)
unfolding remove_entry
remove_entry-IsIndexed id p inv = elim (Option-cases (lookup id p.entries)) [
  | inl missing ↦ rw (missing, remove_entry) inv
  | inr (e, found) ↦ rw (found, remove_entry) (without-IsIndexed p inv id e found)
]

-- The links between the entries are no part of the indexes.
abbrev relinked : Links → Links → Mempool → Mempool
relinked children parents p = record p { parent_to_children = children; child_to_parents = parents }

relinked-IsIndexed :
    (children parents : Links) (p : Mempool) → IsIndexed p → IsIndexed (relinked children parents p)
relinked-IsIndexed children parents p inv = record {
  distinct = inv.distinct;
  keyed = inv.keyed;
  spends = inv.spends;
  spender = inv.spender;
  ranked = inv.ranked;
  ranks = inv.ranks;
  counted = inv.counted;
}

pub remove_parents-IsIndexed :
    (id : Hash256) (p : Mempool) → IsIndexed p → IsIndexed (remove_parents id p)
unfolding remove_parents
remove_parents-IsIndexed id p inv = elim (Option-cases (lookup id p.child_to_parents)) [
  | inl missing ↦ rw (missing, remove_parents) inv
  | inr (parents, found) ↦ rw (found, remove_parents) (relinked-IsIndexed _ _ p inv)
]

pub remove_all-IsIndexed :
    (ids : List Hash256) (p : Mempool) → IsIndexed p → IsIndexed (remove_all ids p)
unfolding remove_all
remove_all-IsIndexed [] p inv = inv
remove_all-IsIndexed (id ∷ ids) p inv = remove_all-IsIndexed ids (remove_one id p) (
    relinked-IsIndexed _ _ (remove_parents id (remove_entry id p))
      (remove_parents-IsIndexed id (remove_entry id p) (remove_entry-IsIndexed id p inv)))

-- Removal with all descendants keeps the indexes in step with the entries.
pub remove_transaction_and_descendants-IsIndexed :
    (id : Hash256) (p : Mempool)
    → IsIndexed p
    → IsIndexed (remove_transaction_and_descendants id p).0
unfolding remove_transaction_and_descendants
remove_transaction_and_descendants-IsIndexed id p inv =
    remove_all-IsIndexed (descendants p id) p inv

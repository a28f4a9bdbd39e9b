-- ===== src/Mempool/Index/Capacity.antt =====
-- crates/scytale-mempool/src/pool.rs, step 8 of `admit_transaction`: the loop that evicts ends, and leaves room or
-- no entry at all.
use scytale.Base.{
  ℕ, zero, suc, ◌≤◌, ◌<◌, ◌≡◌, refl, ap, subst, ◌∙◌, ◌⊎◌, inl, inr, true, false, Bool-cases,
  Option-cases, Option, none, some, List, [], ◌∷◌, ltb, length, Result, ok, err, arith,
}
use scytale.Base.Bytes.{bytes_eq_refl}
use scytale.Base.Maps.{bytes_key, lookup}
use scytale.Primitives.{Hash256}
use scytale.Mempool.{MempoolError, MempoolEntry, Mempool, PriorityKey, priority_key, remove_key}
use scytale.Mempool.Removal.{
  remove_entry, remove_parents, remove_one, remove_all, descendants,
  remove_transaction_and_descendants,
}
use scytale.Mempool.Admission.{over_capacity, lowest_key, evict_loop, make_room}
use scytale.Mempool.Index.{
  IsIndexed, has_key, size_sum, key_eq_refl, remove_transaction_and_descendants-IsIndexed,
}
use scytale.Mempool.Index.Store.{IsNew, removed-IsNew, descendants-cons}

length-remove_key : (k : PriorityKey) (ks : List PriorityKey) → length (remove_key k ks) ≤ length ks
unfolding remove_key
length-remove_key k [] = omega arith
length-remove_key k (j ∷ ks) = ground (arith, length-remove_key k ks)

length-remove_key_lt :
    (k : PriorityKey) (ks : List PriorityKey)
    → has_key k ks ≡ true
    → length (remove_key k ks) < length ks
unfolding remove_key
length-remove_key_lt k [] h = absurd (ground arith)
length-remove_key_lt k (j ∷ ks) h =
    ground (arith, length-remove_key_lt k ks, length-remove_key k ks)

-- Removal leaves the limits alone, and no more keys than there were.
pub record IsLess (q p : Mempool) : Type 0 where
  pub keys : length q.priority_index ≤ length p.priority_index
  pub count : q.max_count ≡ p.max_count
  pub bytes : q.max_bytes ≡ p.max_bytes

pub remove_entry-IsLess : (id : Hash256) (p : Mempool) → IsLess (remove_entry id p) p
unfolding remove_entry
remove_entry-IsLess id p = elim (Option-cases (lookup id p.entries)) [
  | inl missing ↦
      rw (missing, remove_entry) (record { keys = omega arith; count = refl; bytes = refl })
  | inr (e, found) ↦
      rw (found, remove_entry)
        (record {
          keys = length-remove_key (priority_key e) p.priority_index;
          count = refl;
          bytes = refl;
        })
]

pub remove_parents-IsLess : (id : Hash256) (p : Mempool) → IsLess (remove_parents id p) p
unfolding remove_parents
remove_parents-IsLess id p = elim (Option-cases (lookup id p.child_to_parents)) [
  | inl missing ↦
      rw (missing, remove_parents) (record { keys = omega arith; count = refl; bytes = refl })
  | inr (parents, found) ↦
      rw (found, remove_parents) (record { keys = omega arith; count = refl; bytes = refl })
]

remove_one-IsLess : (id : Hash256) (p : Mempool) → IsLess (remove_one id p) p
remove_one-IsLess id p =
    let a = remove_entry-IsLess id p in
    let b = remove_parents-IsLess id (remove_entry id p) in
    record { keys = omega arith; count = b.count ∙ a.count; bytes = b.bytes ∙ a.bytes }

remove_all-IsLess : (ids : List Hash256) (p : Mempool) → IsLess (remove_all ids p) p
unfolding remove_all
remove_all-IsLess [] p = record { keys = omega arith; count = refl; bytes = refl }
remove_all-IsLess (id ∷ ids) p =
    let a = remove_one-IsLess id p in
    let b = remove_all-IsLess ids (remove_one id p) in
    record { keys = omega arith; count = b.count ∙ a.count; bytes = b.bytes ∙ a.bytes }

pub removed-limits :
    (id : Hash256) (p : Mempool)
    → ((remove_transaction_and_descendants id p).0.max_count ≡ p.max_count)
      × ((remove_transaction_and_descendants id p).0.max_bytes ≡ p.max_bytes)
unfolding remove_transaction_and_descendants
removed-limits id p = let less = remove_all-IsLess (descendants p id) p in (less.count, less.bytes)

remove_entry_fewer :
    (p : Mempool) (id : Hash256) (e : MempoolEntry)
    → lookup id p.entries ≡ some e
    → has_key (priority_key e) p.priority_index ≡ true
    → length (remove_entry id p).priority_index < length p.priority_index
unfolding remove_entry
remove_entry_fewer p id e found ranked =
    rw (found, remove_entry) (length-remove_key_lt (priority_key e) p.priority_index ranked)

-- The entry of a key goes with the key.
pub removed_fewer :
    (k : PriorityKey) (p : Mempool)
    → IsIndexed p
    → has_key k p.priority_index ≡ true
    → length (remove_transaction_and_descendants k.txid p).0.priority_index
      < length p.priority_index
unfolding remove_transaction_and_descendants remove_all
removed_fewer k p inv ranked =
    let (rest, e) = descendants-cons p k.txid in
    let (entry, found, key) = inv.ranks k ranked in
    let first = remove_entry_fewer p k.txid entry found (inv.ranked k.txid entry found) in
    let links = remove_parents-IsLess k.txid (remove_entry k.txid p) in
    let more = remove_all-IsLess rest (remove_one k.txid p) in
    rw e (omega (arith, more.keys, links.keys))

-- Room for so many bytes, or no key left.
abbrev pub HasRoom : ℕ → Mempool → Type 0
HasRoom size p = (over_capacity p size ≡ false) ⊎ (p.priority_index ≡ [])

-- What the loop leaves, with room where it succeeds.
abbrev pub Evicted :
    MempoolEntry → Mempool → Mempool × Result MempoolError (Option Hash256) → Type 0
Evicted e p (q, ok id) =
    IsIndexed q
    × IsNew e q
    × (q.max_count ≡ p.max_count)
    × (q.max_bytes ≡ p.max_bytes)
    × HasRoom e.size_bytes q
Evicted e p (q, err f) =
    IsIndexed q × IsNew e q × (q.max_count ≡ p.max_count) × (q.max_bytes ≡ p.max_bytes)

pub lowest_ranked :
    (p : Mempool) (k : PriorityKey) → lowest_key p ≡ some k → has_key k p.priority_index ≡ true
lowest_ranked p k h = first p.priority_index h
  where
    first :
        (ks : List PriorityKey)
        → (elim ks [ [] ↦ none | j ∷ js ↦ some j ]) ≡ some k
        → has_key k ks ≡ true
    first [] h = absurd (ground arith)
    first (j ∷ js) h = ground (arith, key_eq_refl k)

lowest_none : (p : Mempool) → lowest_key p ≡ none → p.priority_index ≡ []
lowest_none p h = first p.priority_index h
  where
    first : (ks : List PriorityKey) → (elim ks [ [] ↦ none | j ∷ js ↦ some j ]) ≡ none → ks ≡ []
    first [] h = refl
    first (j ∷ js) h = absurd (ground arith)

-- With more fuel than keys the loop ends by its tests.
evict_loop-Evicted :
    (fuel : ℕ) (e : MempoolEntry) (last : Option Hash256) (p : Mempool)
    → IsIndexed p
    → IsNew e p
    → length p.priority_index < fuel
    → Evicted e p (evict_loop fuel e last p)
unfolding evict_loop
evict_loop-Evicted zero e last p inv fresh lt = absurd (omega arith)
evict_loop-Evicted (suc fuel) e last p inv fresh lt =
    elim (Bool-cases (over_capacity p e.size_bytes)) [
      | inr room ↦ rw (room, evict_loop) (inv, fresh, refl, refl, inl room)
      | inl over ↦ elim (Option-cases (lowest_key p)) [
        | inl empty ↦
            rw (over, evict_loop, empty) (inv, fresh, refl, refl, inr (lowest_none p empty))
        | inr (k, lowest) ↦ elim (Bool-cases (ltb k.fee_rate e.fee_rate)) [
          | inr poor ↦ rw (over, evict_loop, lowest, poor) (inv, fresh, refl, refl)
          | inl rich ↦
              let fewer = removed_fewer k p inv (lowest_ranked p k lowest) in
              let (count, bytes) = removed-limits k.txid p in
              rw (over, evict_loop, lowest, rich)
                (Evicted-limits e p (remove_transaction_and_descendants k.txid p).0 _ count bytes (
                  evict_loop-Evicted fuel e (some k.txid)
                    (remove_transaction_and_descendants k.txid p).0
                    (remove_transaction_and_descendants-IsIndexed k.txid p inv)
                    (removed-IsNew k.txid e p fresh) (omega arith)))
        ]
      ]
    ]
  where
    Evicted-limits :
        (e : MempoolEntry) (p q : Mempool) (out : Mempool × Result MempoolError (Option Hash256))
        → q.max_count ≡ p.max_count
        → q.max_bytes ≡ p.max_bytes
        → Evicted e q out
        → Evicted e p out
    Evicted-limits e p q (r, ok id) count bytes (i, n, c, b, room) =
        (i, n, c ∙ count, b ∙ bytes, room)
    Evicted-limits e p q (r, err f) count bytes (i, n, c, b) = (i, n, c ∙ count, b ∙ bytes)

pub make_room-Evicted :
    (e : MempoolEntry) (p : Mempool) → IsIndexed p → IsNew e p → Evicted e p (make_room e p)
unfolding make_room
make_room-Evicted e p inv fresh =
    evict_loop-Evicted (suc (length p.priority_index)) e none p inv fresh (omega arith)

lookup_head :
    (id : Hash256) (e : MempoolEntry) (es : List (Hash256 × MempoolEntry))
    → lookup id ((id, e) ∷ es) ≡ some e
unfolding lookup
lookup_head id e es = ground (arith, bytes_eq_refl id)

-- A pool without keys has no entries and no bytes.
pub no_entries :
    (p : Mempool) → IsIndexed p → p.priority_index ≡ [] → (p.entries ≡ []) × (p.total_bytes ≡ 0)
no_entries p inv none_left = (empty, inv.counted ∙ ap size_sum empty)
  where
    head_ranked :
        (es : List (Hash256 × MempoolEntry))
        → ((id : Hash256) (e : MempoolEntry)
            → lookup id es ≡ some e
            → has_key (priority_key e) [] ≡ true)
        → es ≡ []
    head_ranked [] ranked = refl
    head_ranked ((id, e) ∷ es) ranked = absurd (ground (arith, ranked id e (lookup_head id e es)))

    empty : p.entries ≡ []
    empty =
        head_ranked p.entries
          (λ id e h. subst (λ ks. has_key (priority_key e) ks ≡ true) none_left (inv.ranked id e h))

-- ===== src/Mempool/Index/Descendants.antt =====
-- crates/scytale-mempool/src/pool.rs, `remove_transaction_and_descendants`: the loop ends, and what it collects is
-- closed under the links from parents to children.
use scytale.Base.{
  ℕ, zero, suc, ◌+◌, ◌≤◌, ◌<◌, ◌≡◌, refl, sym, subst, inl, inr, true, false, ◌||◌, Bool-cases, List,
  [], ◌∷◌, ◌++◌, if◌then◌else◌, length, length-append, arith,
}
use scytale.Base.Bytes.{bytes_eq, bytes_eq_refl, bytes_eq→≡}
use scytale.Base.Maps.{bytes_key, lookup}
use scytale.Primitives.{Hash256}
use scytale.Mempool.{Mempool, Links}
use scytale.Mempool.Removal.{contains, children_of, collect, link_count, descendants}

contains-append :
    (h : Hash256) (xs ys : List Hash256) → contains h (xs ++ ys) ≡ (contains h xs || contains h ys)
contains-append h [] ys = refl
contains-append h (x ∷ xs) ys = ground (arith, contains-append h xs ys)

-- The links of the ids that are not collected yet.
abbrev waiting : Links → List Hash256 → ℕ
waiting [] ids = 0
waiting ((id, children) ∷ links) ids =
    (if contains id ids then 0 else length children) + waiting links ids

waiting_nil : (links : Links) → waiting links [] ≡ link_count links
unfolding link_count
waiting_nil [] = refl
waiting_nil ((id, children) ∷ links) = omega (arith, waiting_nil links)

waiting-le :
    (links : Links) (ids : List Hash256) (id : Hash256)
    → waiting links (ids ++ id ∷ []) ≤ waiting links ids
waiting-le [] ids id = omega arith
waiting-le ((j, children) ∷ links) ids id =
    ground (arith, waiting-le links ids id, contains-append j ids (id ∷ []))

-- An id that is collected pays for its children.
waiting-children :
    (links : Links) (ids : List Hash256) (id : Hash256)
    → contains id ids ≡ false
    → waiting links (ids ++ id ∷ []) + length (children_of links id) ≤ waiting links ids
unfolding lookup
waiting-children [] ids id new = omega arith
waiting-children ((j, children) ∷ links) ids id new = elim (Bool-cases (bytes_eq j id)) [
  | inl same ↦ ground (
    arith,
    bytes_eq→≡ j id,
    bytes_eq_refl id,
    waiting-le links ids id,
    contains-append j ids (id ∷ []),
  )
  | inr other ↦ ground (arith, waiting-children links ids id, contains-append j ids (id ∷ []))
]

module _ (links : Links) where
  -- The children of what was collected were collected or are on the worklist.
  abbrev Pending : List Hash256 → List Hash256 → Type 0
  Pending queue ids =
      (x y : Hash256)
      → contains x ids ≡ true
      → contains y (children_of links x) ≡ true
      → (contains y ids || contains y queue) ≡ true

  Pending-skip :
      (id : Hash256) (queue ids : List Hash256)
      → contains id ids ≡ true
      → Pending (id ∷ queue) ids
      → Pending queue ids
  Pending-skip id queue ids seen pending x y at_x child =
      ground (arith, pending x y at_x child, bytes_eq→≡ id y)

  Pending-take :
      (id : Hash256) (queue ids : List Hash256)
      → Pending (id ∷ queue) ids
      → Pending (children_of links id ++ queue) (ids ++ id ∷ [])
  Pending-take id queue ids pending x y at_x child = elim (Bool-cases (contains x ids)) [
    | inl old ↦ ground (
      arith,
      pending x y old child,
      contains-append y ids (id ∷ []),
      contains-append y (children_of links id) queue,
    )
    | inr new ↦
        let k : id ≡ x = bytes_eq→≡ id x (ground (arith, contains-append x ids (id ∷ []))) in
        let here : contains y (children_of links id) ≡ true =
          subst (λ z. contains y (children_of links z) ≡ true) (sym k) child in
        ground
          (arith, contains-append y ids (id ∷ []), contains-append y (children_of links id) queue)
  ]

  -- With enough fuel nothing that waited is left out, and the children of all that is collected are collected.
  collect_closed :
      (fuel : ℕ) (queue ids : List Hash256)
      → length queue + waiting links ids < fuel
      → Pending queue ids
      → ((x : Hash256)
          → (contains x ids || contains x queue) ≡ true
          → contains x (collect fuel links queue ids) ≡ true)
        × ((x y : Hash256)
            → contains x (collect fuel links queue ids) ≡ true
            → contains y (children_of links x) ≡ true
            → contains y (collect fuel links queue ids) ≡ true)
  unfolding collect
  collect_closed zero queue ids lt pending = absurd (omega arith)
  collect_closed (suc fuel) [] ids lt pending =
      (λ x h. ground arith, λ x y at_x child. ground (arith, pending x y at_x child))
  collect_closed (suc fuel) (id ∷ queue) ids lt pending = elim (Bool-cases (contains id ids)) [
    | inl seen ↦
        let (keeps, closed) =
          collect_closed fuel queue ids (omega arith) (Pending-skip id queue ids seen pending) in
        rw (seen, collect) ((λ x h. keeps x (ground (arith, bytes_eq→≡ id x))), closed)
    | inr new ↦
        let (keeps, closed) =
          collect_closed fuel (children_of links id ++ queue) (ids ++ id ∷ [])
            (omega (
              arith,
              waiting-children links ids id new,
              length-append {0} (children_of links id) queue,
            ))
            (Pending-take id queue ids pending) in
        rw (new, collect)
          (
            (λ x h. keeps x (
                ground (
                  arith,
                  contains-append x ids (id ∷ []),
                  contains-append x (children_of links id) queue,
                ))),
            closed,
          )
  ]

-- The loop runs to its end: what is removed with a transaction has that transaction and, with each transaction, all
-- the transactions that are linked to it as children.
pub descendants_closed :
    (p : Mempool) (id : Hash256)
    → (contains id (descendants p id) ≡ true)
      × ((x y : Hash256)
          → contains x (descendants p id) ≡ true
          → contains y (children_of p.parent_to_children x) ≡ true
          → contains y (descendants p id) ≡ true)
unfolding descendants
descendants_closed p id =
    let (keeps, closed) =
      collect_closed p.parent_to_children (suc (suc (link_count p.parent_to_children))) (id ∷ []) []
        (omega (arith, waiting_nil p.parent_to_children)) (λ x y h. absurd (ground arith)) in
    (keeps id (ground (arith, bytes_eq_refl id)), closed)

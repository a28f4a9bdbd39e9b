-- ===== src/Consensus/Chain/Paths.antt =====
-- The walks of crates/scytale-consensus/src/chain.rs in a tree whose parent links go down to height 0:
-- they end, a new node leaves them alone, and they meet in the common ancestor that is found.
use mathlib.Core.List.{reverse-append}
use scytale.Base.{
  ℕ, zero, suc, ◌≡◌, refl, sym, ap, ◌∙◌, ◌⊎◌, inl, inr, true, false, Bool-cases, Option-cases, none,
  some, List, [], ◌∷◌, ◌++◌, reverse, ok, arith,
}
use scytale.Base.Bytes.{bytes_eq, bytes_eq_refl, bytes_eq→≡}
use scytale.Primitives.{Hash256}
use scytale.Consensus.Chain.{
  BlockNode, Nodes, node_at, contains_hash, walk_fuel, trace, trace_keys, trace_until, first_shared,
  find_common_ancestor, get_path_from_genesis,
}

-- The parent of a node is in the tree and one lower, but for the nodes at height 0.
abbrev pub IsLinked : Nodes → BlockNode → Type 0
IsLinked ns n =
    (n.height ≡ 0)
    ⊎ ((p : BlockNode) × (node_at n.parent_hash ns ≡ some p) × (n.height ≡ suc p.height))

abbrev pub Linked : Nodes → Type 0
Linked ns = (h : Hash256) (n : BlockNode) → node_at h ns ≡ some n → IsLinked ns n

-- The only node at height 0 is this one.
abbrev pub Rooted : Hash256 → Nodes → Type 0
Rooted root ns = (h : Hash256) (n : BlockNode) → node_at h ns ≡ some n → n.height ≡ 0 → h ≡ root

-- The nodes from a hash down to height 0.
abbrev pub whole : Nodes → Hash256 → List BlockNode
whole ns h = trace (walk_fuel ns h) ns h

pub whole_root :
    (ns : Nodes) (h : Hash256) (n : BlockNode)
    → node_at h ns ≡ some n
    → n.height ≡ 0
    → whole ns h ≡ n ∷ []
unfolding trace
whole_root ns h n found root = ground arith

pub whole_child :
    (ns : Nodes) (h : Hash256) (n p : BlockNode)
    → node_at h ns ≡ some n
    → node_at n.parent_hash ns ≡ some p
    → n.height ≡ suc p.height
    → whole ns h ≡ n ∷ whole ns n.parent_hash
unfolding trace
whole_child ns h n p found parent up = ground arith

-- A new key leaves the nodes that were there where they were.
pub node_at-fresh :
    (ns : Nodes) (k h : Hash256) (m n : BlockNode)
    → node_at k ns ≡ none
    → node_at h ns ≡ some n
    → node_at h ((k, m) ∷ ns) ≡ some n
node_at-fresh ns k h m n fresh found = elim (Bool-cases (bytes_eq k h)) [
  | inl same ↦ absurd (ground (arith, bytes_eq→≡ k h))
  | inr other ↦ rw (other, node_at) found
]

whole-fresh_at :
    (height : ℕ) (ns : Nodes) (k h : Hash256) (m n : BlockNode)
    → Linked ns
    → node_at k ns ≡ none
    → node_at h ns ≡ some n
    → n.height ≡ height
    → whole ((k, m) ∷ ns) h ≡ whole ns h
whole-fresh_at zero ns k h m n linked fresh found e =
    whole_root ((k, m) ∷ ns) h n (node_at-fresh ns k h m n fresh found) e
    ∙ sym (whole_root ns h n found e)
whole-fresh_at (suc height) ns k h m n linked fresh found e = elim (linked h n found) [
  | inl root ↦ absurd (omega arith)
  | inr (p, parent, up) ↦
      whole_child ((k, m) ∷ ns) h n p (node_at-fresh ns k h m n fresh found)
        (node_at-fresh ns k n.parent_hash m p fresh parent) up
      ∙ ap (λ rest. n ∷ rest)
          (whole-fresh_at height ns k n.parent_hash m p linked fresh parent (omega arith))
      ∙ sym (whole_child ns h n p found parent up)
]

-- A new node leaves the walk from a node that was there as it was.
pub whole-fresh :
    (ns : Nodes) (k h : Hash256) (m n : BlockNode)
    → Linked ns
    → node_at k ns ≡ none
    → node_at h ns ≡ some n
    → whole ((k, m) ∷ ns) h ≡ whole ns h
whole-fresh ns k h m n linked fresh found =
    whole-fresh_at n.height ns k h m n linked fresh found refl

pub path-fresh :
    (ns : Nodes) (k h : Hash256) (m n : BlockNode)
    → Linked ns
    → node_at k ns ≡ none
    → node_at h ns ≡ some n
    → get_path_from_genesis ((k, m) ∷ ns) h ≡ get_path_from_genesis ns h
unfolding get_path_from_genesis
path-fresh ns k h m n linked fresh found = ap reverse (whole-fresh ns k h m n linked fresh found)

-- The first hash is that of a node on the walk from the second.
pub data Ancestor (ns : Nodes) (a : Hash256) : Hash256 → Type 0 where
  self : (n : BlockNode) → node_at a ns ≡ some n → Ancestor ns a a
  above :
      (h : Hash256) (n p : BlockNode)
      → node_at h ns ≡ some n
      → node_at n.parent_hash ns ≡ some p
      → n.height ≡ suc p.height
      → Ancestor ns a n.parent_hash
      → Ancestor ns a h

pub until_self :
    (ns : Nodes) (a : Hash256) (n : BlockNode)
    → node_at a ns ≡ some n
    → trace_until (walk_fuel ns a) ns a a ≡ []
unfolding trace_until
until_self ns a n found = ground (arith, bytes_eq_refl a)

until_child :
    (ns : Nodes) (a h : Hash256) (n p : BlockNode)
    → bytes_eq h a ≡ false
    → node_at h ns ≡ some n
    → node_at n.parent_hash ns ≡ some p
    → n.height ≡ suc p.height
    → trace_until (walk_fuel ns h) ns a h
      ≡ n ∷ trace_until (walk_fuel ns n.parent_hash) ns a n.parent_hash
unfolding trace_until
until_child ns a h n p other found parent up = ground arith

-- The walk to height 0 is the walk to an ancestor and the walk from there.
pub whole-split :
    {ns : Nodes} {a h : Hash256}
    → Ancestor ns a h
    → whole ns h ≡ trace_until (walk_fuel ns h) ns a h ++ whole ns a
whole-split {ns} {a} {h} (self n found) = rw (until_self ns a n found)
whole-split {ns} {a} {h} (above _ n p found parent up rest) = elim (Bool-cases (bytes_eq h a)) [
  | inl same ↦ rw (← bytes_eq→≡ h a same) (rw (until_self ns h n found))
  | inr other ↦
      whole_child ns h n p found parent up
      ∙ ap (λ xs. n ∷ xs) (whole-split rest)
      ∙ ap (λ xs. xs ++ whole ns a) (sym (until_child ns a h n p other found parent up))
]

-- The same of the path, which starts at genesis.
pub path-split :
    {ns : Nodes} {a h : Hash256}
    → Ancestor ns a h
    → get_path_from_genesis ns h
      ≡ get_path_from_genesis ns a ++ reverse (trace_until (walk_fuel ns h) ns a h)
unfolding get_path_from_genesis
path-split {ns} {a} {h} anc =
    ap reverse (whole-split anc) ∙ reverse-append (trace_until (walk_fuel ns h) ns a h) (whole ns a)

keys_root :
    (ns : Nodes) (h : Hash256) (n : BlockNode)
    → node_at h ns ≡ some n
    → n.height ≡ 0
    → trace_keys (walk_fuel ns h) ns h ≡ h ∷ []
unfolding trace_keys
keys_root ns h n found root = ground arith

keys_child :
    (ns : Nodes) (h : Hash256) (n p : BlockNode)
    → node_at h ns ≡ some n
    → node_at n.parent_hash ns ≡ some p
    → n.height ≡ suc p.height
    → trace_keys (walk_fuel ns h) ns h
      ≡ h ∷ trace_keys (walk_fuel ns n.parent_hash) ns n.parent_hash
unfolding trace_keys
keys_child ns h n p found parent up = ground arith

at_self :
    (ns : Nodes) (a h : Hash256) (n : BlockNode)
    → node_at h ns ≡ some n
    → bytes_eq h a ≡ true
    → Ancestor ns a h
at_self ns a h n found same = let e : h ≡ a = bytes_eq→≡ h a same in rw (← e) (self n found)

-- What the first loop collects are ancestors.
keys-Ancestor :
    (height : ℕ) (ns : Nodes) (a h : Hash256) (n : BlockNode)
    → Linked ns
    → node_at h ns ≡ some n
    → n.height ≡ height
    → contains_hash a (trace_keys (walk_fuel ns h) ns h) ≡ true
    → Ancestor ns a h
keys-Ancestor zero ns a h n linked found e c =
    at_self ns a h n found (ground (arith, keys_root ns h n found e))
keys-Ancestor (suc height) ns a h n linked found e c = elim (linked h n found) [
  | inl root ↦ absurd (omega arith)
  | inr (p, parent, up) ↦ elim (Bool-cases (bytes_eq h a)) [
    | inl same ↦ at_self ns a h n found same
    | inr other ↦ above h n p found parent up (
        keys-Ancestor height ns a n.parent_hash p linked parent (omega arith)
          (ground (arith, keys_child ns h n p found parent up)))
  ]
]

first_root :
    (ns : Nodes) (keys : List Hash256) (a h : Hash256) (n : BlockNode)
    → node_at h ns ≡ some n
    → n.height ≡ 0
    → first_shared (walk_fuel ns h) ns keys h ≡ some a
    → (h ≡ a) × (contains_hash a keys ≡ true)
unfolding first_shared
first_root ns keys a h n found root s = ground arith

first_child :
    (ns : Nodes) (keys : List Hash256) (a h : Hash256) (n p : BlockNode)
    → node_at h ns ≡ some n
    → node_at n.parent_hash ns ≡ some p
    → n.height ≡ suc p.height
    → first_shared (walk_fuel ns h) ns keys h ≡ some a
    → ((h ≡ a) × (contains_hash a keys ≡ true))
      ⊎ (first_shared (walk_fuel ns n.parent_hash) ns keys n.parent_hash ≡ some a)
unfolding first_shared
first_child ns keys a h n p found parent up s = elim (Bool-cases (contains_hash h keys)) [
  | inl shared ↦ inl (ground arith)
  | inr other ↦ inr (ground arith)
]

-- What the second loop finds is an ancestor of its start, and one of the collected hashes.
first-Ancestor :
    (height : ℕ) (ns : Nodes) (keys : List Hash256) (a h : Hash256) (n : BlockNode)
    → Linked ns
    → node_at h ns ≡ some n
    → n.height ≡ height
    → first_shared (walk_fuel ns h) ns keys h ≡ some a
    → Ancestor ns a h × (contains_hash a keys ≡ true)
first-Ancestor zero ns keys a h n linked found e s =
    let (same, shared) = first_root ns keys a h n found e s in
    (at_self ns a h n found (rw same (bytes_eq_refl a)), shared)
first-Ancestor (suc height) ns keys a h n linked found e s = elim (linked h n found) [
  | inl root ↦ absurd (omega arith)
  | inr (p, parent, up) ↦ elim (first_child ns keys a h n p found parent up s) [
    | inl (same, shared) ↦ (at_self ns a h n found (rw same (bytes_eq_refl a)), shared)
    | inr later ↦
        let (anc, shared) =
          first-Ancestor height ns keys a n.parent_hash p linked parent (omega arith) later in
        (above h n p found parent up anc, shared)
  ]
]

-- What is found is an ancestor of both tips.
pub find_common_ancestor-Ancestor :
    (ns : Nodes) (x y a : Hash256) (n m : BlockNode)
    → Linked ns
    → node_at x ns ≡ some n
    → node_at y ns ≡ some m
    → find_common_ancestor ns x y ≡ ok a
    → Ancestor ns a x × Ancestor ns a y
unfolding find_common_ancestor
find_common_ancestor-Ancestor ns x y a n m linked at_x at_y found =
    elim (Bool-cases (bytes_eq x y)) [
      | inl same ↦
          let e : x ≡ a = ground arith in
          let xy : x ≡ y = bytes_eq→≡ x y same in
          (
            at_self ns a x n at_x (rw e (bytes_eq_refl a)),
            at_self ns a y m at_y (rw (← xy) (rw e (bytes_eq_refl a))),
          )
      | inr other ↦
          elim (Option-cases
            (first_shared (walk_fuel ns y) ns (trace_keys (walk_fuel ns x) ns x) y)) [
              | inl missing ↦ absurd (ground arith)
              | inr (b, first) ↦
                  let e : b ≡ a = ground arith in
                  let (anc, shared) =
                    first-Ancestor m.height ns (trace_keys (walk_fuel ns x) ns x) a y m linked at_y
                      refl (first ∙ ap some e) in
                  (keys-Ancestor n.height ns a x n linked at_x refl shared, anc)
            ]
    ]

keys-root :
    (height : ℕ) (root : Hash256) (ns : Nodes) (h : Hash256) (n : BlockNode)
    → Linked ns
    → Rooted root ns
    → node_at h ns ≡ some n
    → n.height ≡ height
    → contains_hash root (trace_keys (walk_fuel ns h) ns h) ≡ true
keys-root zero root ns h n linked rooted found e =
    let top = rooted h n found e in
    rw (keys_root ns h n found e) (rw (top, bytes_eq_refl root) refl)
keys-root (suc height) root ns h n linked rooted found e = elim (linked h n found) [
  | inl bottom ↦ absurd (omega arith)
  | inr (p, parent, up) ↦
      let below = keys-root height root ns n.parent_hash p linked rooted parent (omega arith) in
      ground (arith, keys_child ns h n p found parent up)
]

first_shared_root :
    (ns : Nodes) (keys : List Hash256) (h : Hash256) (n : BlockNode)
    → node_at h ns ≡ some n
    → contains_hash h keys ≡ true
    → first_shared (walk_fuel ns h) ns keys h ≡ some h
unfolding first_shared
first_shared_root ns keys h n found shared = ground arith

first_shared_child :
    (ns : Nodes) (keys : List Hash256) (h : Hash256) (n p : BlockNode)
    → node_at h ns ≡ some n
    → node_at n.parent_hash ns ≡ some p
    → n.height ≡ suc p.height
    → contains_hash h keys ≡ false
    → first_shared (walk_fuel ns h) ns keys h
      ≡ first_shared (walk_fuel ns n.parent_hash) ns keys n.parent_hash
unfolding first_shared
first_shared_child ns keys h n p found parent up other = ground arith

first_shared_total :
    (height : ℕ) (root : Hash256) (ns : Nodes) (keys : List Hash256) (h : Hash256) (n : BlockNode)
    → Linked ns
    → Rooted root ns
    → contains_hash root keys ≡ true
    → node_at h ns ≡ some n
    → n.height ≡ height
    → (a : Hash256) × (first_shared (walk_fuel ns h) ns keys h ≡ some a)
first_shared_total zero root ns keys h n linked rooted shared found e =
    (h, first_shared_root ns keys h n found (rw (rooted h n found e) shared))
first_shared_total (suc height) root ns keys h n linked rooted shared found e =
    elim (linked h n found) [
      | inl bottom ↦ absurd (omega arith)
      | inr (p, parent, up) ↦ elim (Bool-cases (contains_hash h keys)) [
        | inl here ↦ (h, first_shared_root ns keys h n found here)
        | inr other ↦
            let (a, later) =
              first_shared_total height root ns keys n.parent_hash p linked rooted shared parent
                (omega arith) in
            (a, first_shared_child ns keys h n p found parent up other ∙ later)
      ]
    ]

-- Two nodes of a tree with one root have a common ancestor that is found.
pub find_common_ancestor_total :
    (root : Hash256) (ns : Nodes) (x y : Hash256) (n m r : BlockNode)
    → Linked ns
    → Rooted root ns
    → node_at root ns ≡ some r
    → node_at x ns ≡ some n
    → node_at y ns ≡ some m
    → (a : Hash256) × (find_common_ancestor ns x y ≡ ok a)
unfolding find_common_ancestor
find_common_ancestor_total root ns x y n m r linked rooted at_root at_x at_y =
    elim (Bool-cases (bytes_eq x y)) [
      | inl same ↦ (x, ground arith)
      | inr other ↦
          let (a, first) =
            first_shared_total m.height root ns (trace_keys (walk_fuel ns x) ns x) y m linked rooted
              (keys-root n.height root ns x n linked rooted at_x refl) at_y refl in
          (a, rw (other, find_common_ancestor, first) refl)
    ]

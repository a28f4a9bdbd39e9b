-- ===== src/Mempool/Removal.antt =====
-- crates/scytale-mempool/src/pool.rs, `remove_transaction_and_descendants`. The worklist runs on fuel: each
-- round takes one id off it, and the children of an id go on it once.
use scytale.Base.{
  ℕ, zero, suc, ◌+◌, ◌-◌, Bool, true, false, ◌||◌, none, some, List, [], ◌∷◌, ◌++◌, if◌then◌else◌,
  length,
}
use scytale.Base.Bytes.{bytes_eq}
use scytale.Base.Maps.{bytes_key, lookup, remove, insert}
use scytale.Primitives.{Hash256, OutPoint}
use scytale.Mempool.{Mempool, Links, priority_key, remove_key, outpoint_key, outpoints}

abbrev pub contains : Hash256 → List Hash256 → Bool
contains h [] = false
contains h (k ∷ ks) = bytes_eq k h || contains h ks

-- `HashSet::remove`.
unfoldable pub remove_hash : Hash256 → List Hash256 → List Hash256
remove_hash h [] = []
remove_hash h (k ∷ ks) = if bytes_eq k h then remove_hash h ks else k ∷ remove_hash h ks

abbrev pub children_of : Links → Hash256 → List Hash256
children_of links id = elim (lookup id links) [ none ↦ [] | some children ↦ children ]

-- All links together, which bounds what goes on the worklist behind its first id.
unfoldable pub link_count : Links → ℕ
link_count [] = 0
link_count ((id, children) ∷ links) = length children + link_count links

-- The loop that collects, with the next id to take first.
unfoldable pub collect : ℕ → Links → List Hash256 → List Hash256 → List Hash256
collect zero links queue to_remove = to_remove
collect (suc fuel) links [] to_remove = to_remove
collect (suc fuel) links (id ∷ queue) to_remove = elim (contains id to_remove) [
  | true ↦ collect fuel links queue to_remove
  | false ↦ collect fuel links (children_of links id ++ queue) (to_remove ++ id ∷ [])
]

unfoldable pub forget_outpoints :
    List OutPoint → List (OutPoint × Hash256) → List (OutPoint × Hash256)
forget_outpoints [] spent = spent
forget_outpoints (o ∷ os) spent = forget_outpoints os (remove o spent)

-- The entry goes, with its key, its bytes and its spent outpoints.
unfoldable pub remove_entry : Hash256 → Mempool → Mempool
remove_entry id p = elim (lookup id p.entries) [
  | none ↦ p
  | some e ↦ record p {
    entries = remove id p.entries;
    priority_index = remove_key (priority_key e) p.priority_index;
    total_bytes = p.total_bytes - e.size_bytes;
    spent_outpoints = forget_outpoints (outpoints e.transaction) p.spent_outpoints;
  }
]

-- `if let Some(children) = self.parent_to_children.get_mut(&parent_id) { children.remove(id) }`.
unfoldable pub unlink : Hash256 → List Hash256 → Links → Links
unlink id [] links = links
unlink id (parent ∷ parents) links = elim (lookup parent links) [
  | none ↦ unlink id parents links
  | some children ↦ unlink id parents (insert parent (remove_hash id children) links)
]

-- The links to the parents go.
unfoldable pub remove_parents : Hash256 → Mempool → Mempool
remove_parents id p = elim (lookup id p.child_to_parents) [
  | none ↦ p
  | some parents ↦ record p {
    child_to_parents = remove id p.child_to_parents;
    parent_to_children = unlink id parents p.parent_to_children;
  }
]

abbrev pub remove_children : Hash256 → Mempool → Mempool
remove_children id p = record p { parent_to_children = remove id p.parent_to_children }

abbrev pub remove_one : Hash256 → Mempool → Mempool
remove_one id p = remove_children id (remove_parents id (remove_entry id p))

unfoldable pub remove_all : List Hash256 → Mempool → Mempool
remove_all [] p = p
remove_all (id ∷ ids) p = remove_all ids (remove_one id p)

unfoldable pub descendants : Mempool → Hash256 → List Hash256
descendants p id =
    collect (suc (suc (link_count p.parent_to_children))) p.parent_to_children (id ∷ []) []

-- What is removed, and what is left.
unfoldable pub remove_transaction_and_descendants : Hash256 → Mempool → Mempool × List Hash256
remove_transaction_and_descendants id p = (remove_all (descendants p id) p, descendants p id)

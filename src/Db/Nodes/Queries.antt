-- ===== src/Db/Nodes/Queries.antt =====
-- The recursive queries of crates/db/src/lib.rs on a hierarchy: each one ends.
use strife.Base.{
  ℕ, ◌≡◌, sym, ◌∙◌, List, [], ◌∷◌, some, Bool, true, ◌&&◌, arith, ◌==◌, any, elem, where_rows,
}
use strife.Db.Schema.{NodeRecord}
use strife.Db.Nodes.{active, node_exists}
use strife.Db.Nodes.Tree.{
  ids, children, trashed_row, descendant_ids, collect_trashed_subtree_ids,
  collect_active_subtree_ids, new_ids,
}
use strife.Db.Nodes.Tree.Descent.{elem-children, elem-ids}
use strife.Db.Nodes.Tree.Distinct.{elem-new_ids, descend_distinct-terminates}
use strife.Db.Nodes.Tree.Termination.{descend-terminates, edge-node_exists}
use strife.Db.Nodes.Invariant.{IsHierarchy}

any-exists :
    (q : NodeRecord → Bool) (x : ℕ) (ns : List NodeRecord)
    → any (λ n. n.id == x && q n) ns ≡ true
    → node_exists x ns ≡ true
any-exists q x [] h = cc
any-exists q x (n ∷ ns) h = ground (arith, any-exists q x ns)

selected-exists :
    (q : NodeRecord → Bool) (x : ℕ) (ns : List NodeRecord)
    → elem x (ids (where_rows q ns)) ≡ true
    → node_exists x ns ≡ true
selected-exists q x ns h = any-exists q x ns (sym (elem-ids q x ns) ∙ h)

-- On a hierarchy the recursive queries end: the descendants of a folder, a trashed node's subtree, and
-- the active subtrees of a selection are found, for all arguments.
pub queries_end :
    (nodes : List NodeRecord)
    → IsHierarchy nodes
    → ((id : ℕ) → (r : List ℕ) × (descendant_ids id nodes ≡ some r))
      × ((id : ℕ) → (r : List ℕ) × (collect_trashed_subtree_ids id nodes ≡ some r))
      × ((selected : List ℕ) → (r : List ℕ) × (collect_active_subtree_ids selected nodes ≡ some r))
unfolding descendant_ids collect_trashed_subtree_ids collect_active_subtree_ids
queries_end nodes h = (
  (λ id. descend-terminates active nodes h.unique h.forest (children active nodes (id ∷ [])) (λ x e.
      let (p, here, hit) = elem-children active nodes x (id ∷ []) e in
      edge-node_exists active p x nodes hit)),
  (λ id.
      descend-terminates trashed_row nodes h.unique h.forest
        (ids (where_rows (λ n. n.id == id && trashed_row n) nodes))
        (λ x e. selected-exists (λ n. n.id == id && trashed_row n) x nodes e)),
  (λ selected.
      descend_distinct-terminates active nodes h.unique h.forest
        (new_ids [] (ids (where_rows (λ n. elem n.id selected && active n) nodes)))
        (λ x e.
          selected-exists (λ n. elem n.id selected && active n) x nodes
            (elem-new_ids x [] (ids (where_rows (λ n. elem n.id selected && active n) nodes)) e))),
)

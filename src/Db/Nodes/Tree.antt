-- ===== src/Db/Nodes/Tree.antt =====
-- The recursive queries of crates/db/src/lib.rs over `nodes`: descendants, subtrees and ancestors.
pub mod Descent
pub mod Termination
pub mod Distinct
use strife.Base.{
  ℕ, zero, suc, String, Option, none, some, List, [], ◌∷◌, ◌++◌, Bool, ◌&&◌, ◌==◌, holds,
  if◌then◌else◌, elem, length, where_rows,
}
use strife.Base.Rows.{row}
use strife.Db.Schema.{NodeRecord}
use strife.Db.Nodes.{active, active_folder, is_trashed, get_node_by_id}

-- The rows with a parent among `ws`, by the filter of a recursive query.
abbrev pub is_child : (NodeRecord → Bool) → ℕ → NodeRecord → Bool
is_child live p n = holds n.parent_id p && live n

abbrev pub ids : List NodeRecord → List ℕ
ids [] = []
ids (n ∷ ns) = n.id ∷ ids ns

abbrev pub children : (NodeRecord → Bool) → List NodeRecord → List ℕ → List ℕ
children live nodes [] = []
children live nodes (p ∷ ps) = ids (where_rows (is_child live p) nodes) ++ children live nodes ps

abbrev pub append_to {ℓ} : {A : Type ℓ} → List A → Option (List A) → Option (List A)
append_to xs none = none
append_to xs (some ys) = some (xs ++ ys)

-- WITH RECURSIVE … UNION ALL: `ws` is the working table, replaced by its children until it is
-- empty. `none` is a query that goes on for ever.
unfoldable pub descend : (NodeRecord → Bool) → List NodeRecord → ℕ → List ℕ → Option (List ℕ)
descend live nodes fuel [] = some []
descend live nodes zero (w ∷ ws) = none
descend live nodes (suc fuel) (w ∷ ws) =
    append_to (w ∷ ws) (descend live nodes fuel (children live nodes (w ∷ ws)))

unfoldable pub descendant_ids : ℕ → List NodeRecord → Option (List ℕ)
unfolding descend
descendant_ids folder_id nodes =
    descend active nodes (length nodes) (children active nodes (folder_id ∷ []))

abbrev pub trashed_row : NodeRecord → Bool
trashed_row n = is_trashed n.lifecycle_state

-- collect_trashed_subtree_ids, and the query of purge_trashed_node_records and of
-- list_storage_keys_for_deletion: the working table starts with the trashed node itself.
unfoldable pub collect_trashed_subtree_ids : ℕ → List NodeRecord → Option (List ℕ)
unfolding descend
collect_trashed_subtree_ids root_id nodes =
    descend trashed_row nodes (length nodes)
      (ids (where_rows (λ n. n.id == root_id && trashed_row n) nodes))

abbrev pub new_ids : List ℕ → List ℕ → List ℕ
new_ids seen [] = []
new_ids seen (x ∷ xs) = if elem x seen then new_ids seen xs else x ∷ new_ids (x ∷ seen) xs

-- WITH RECURSIVE … UNION: rows that were already found do not go into the next working table.
unfoldable pub descend_distinct :
    (NodeRecord → Bool) → List NodeRecord → ℕ → List ℕ → List ℕ → Option (List ℕ)
descend_distinct live nodes fuel seen [] = some seen
descend_distinct live nodes zero seen (w ∷ ws) = none
descend_distinct live nodes (suc fuel) seen (w ∷ ws) =
    descend_distinct live nodes fuel ((w ∷ ws) ++ seen)
      (new_ids ((w ∷ ws) ++ seen) (children live nodes (w ∷ ws)))

unfoldable pub collect_active_subtree_ids : List ℕ → List NodeRecord → Option (List ℕ)
unfolding descend_distinct
collect_active_subtree_ids root_ids nodes =
    descend_distinct active nodes (length nodes) []
      (new_ids [] (ids (where_rows (λ n. elem n.id root_ids && active n) nodes)))

-- The chain of parents of `ancestor_map_for_nodes`, whatever their state.
unfoldable pub ancestor_chain : List NodeRecord → ℕ → Option ℕ → Option (List ℕ)
ancestor_chain nodes fuel none = some []
ancestor_chain nodes zero (some a) = none
ancestor_chain nodes (suc fuel) (some a) = append_to (a ∷ []) (elim (get_node_by_id a nodes) [
  | none ↦ some []
  | some n ↦ ancestor_chain nodes fuel n.parent_id
])

unfoldable pub ancestors_of : ℕ → List NodeRecord → Option (List ℕ)
unfolding ancestor_chain
ancestors_of id nodes = elim (get_node_by_id id nodes) [
  | none ↦ some []
  | some n ↦ ancestor_chain nodes (length nodes) n.parent_id
]

pub record NodePathEntry : Type 0 where
  pub id : ℕ
  pub name : String

-- list_ancestors: active folders only; ORDER BY depth DESC puts the last row found first.
unfoldable pub folder_path :
    List NodeRecord → ℕ → Option ℕ → List NodePathEntry → Option (List NodePathEntry)
folder_path nodes fuel none path = some path
folder_path nodes zero (some a) path = none
folder_path nodes (suc fuel) (some a) path =
    elim (row (λ n. n.id) a (where_rows active_folder nodes)) [
      | none ↦ some path
      | some n ↦ folder_path nodes fuel n.parent_id (record { id = n.id; name = n.name } ∷ path)
    ]

unfoldable pub list_ancestors : ℕ → List NodeRecord → Option (List NodePathEntry)
unfolding folder_path
list_ancestors folder_id nodes = folder_path nodes (suc (length nodes)) (some folder_id) []

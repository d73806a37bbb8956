-- ===== src/Db/Trash/Restoration.antt =====
-- The parts of restore_node of crates/db/src/lib.rs: what it reads, the rows that it lifts, and their parents.
pub mod Kept
use strife.Base.{
  ℕ, ◌≡◌, ◌≢◌, refl, sym, ap, ◌∙◌, subst, String, Option, none, some, List, [], ◌∷◌, ◌++◌, Bool,
  true, false, ◌&&◌, ◌||◌, not, arith, ◌⊎◌, inl, inr, ◌↔◌, ◌==◌, ==_iff, holds, str_eq,
  if◌then◌else◌, any, elem, find, length, where_rows, All, some_injective, Bool-cases, Option-cases,
  update_rows,
}
use strife.Base.Rows.{row, changed, map_row, row-update_rows, key-row, All-any, All-map₂}
use strife.Base.Result.{Result, ok, err, >>=-eq-ok, Result-cases}
use strife.Db.Schema.{Db, NodeRecord, LifecycleState, TrashEntry, root_node_id}
use strife.Db.Nodes.{
  get_node_by_id, active, active_folder, is_folder, is_active_folder, is_trashed, update_nodes,
  node_clash,
}
use strife.Db.Nodes.Tree.{
  ids, is_child, children, trashed_row, collect_trashed_subtree_ids, descend,
}
use strife.Db.Nodes.Tree.Descent.{edge, Below, descend_iff, elem-ids}
use strife.Db.Nodes.Tree.Termination.{parent_of, parent_of_row, IsParent-edge}
use strife.Db.Nodes.Invariant.{
  IsHierarchy, HasActiveParent, HasFolderParent, is_folder_node, folder_of_active, update_nodes-ok,
  moved-IsForest, any-of_row, Above, Above-active_folder, row-of_active_folder, node-rows,
}
use strife.Db.Nodes.Restated.{Restates, restated-IsHierarchy, parent_of-restated}
use strife.Db.Nodes.Move.{or_else}
use strife.Db.Trash.{
  restore_node, lock_trash_entry, lock_trashed_node, resolve_restore_parent,
  ensure_restore_name_available, reactivate_trashed_subtree, reactivate, entry_of,
}

-- What a successful restore has read, tested and done.
pub restore_node-parts :
    (id now : ℕ) (db after : Db) (restored : NodeRecord)
    → restore_node id now db ≡ ok (restored, after)
    → (entry : TrashEntry) × (n : NodeRecord) × (subtree : List ℕ) × (entry_of id db.trash_entries
        ≡ some entry)
      × (find (λ m. m.id == id && trashed_row m) db.nodes ≡ some n)
      × (collect_trashed_subtree_ids id db.nodes ≡ some subtree)
      × (update_nodes
            (λ m. elem m.id subtree && trashed_row m)
            (reactivate id
              (resolve_restore_parent (or_else entry.original_parent_id n.parent_id) db.nodes)
              now)
            db.nodes
          ≡ ok after.nodes)
      × (get_node_by_id id after.nodes ≡ some restored)
      × (after.trash_entries ≡ where_rows (λ e. not (e.id == entry.id)) db.trash_entries)
unfolding restore_node lock_trash_entry lock_trashed_node reactivate_trashed_subtree
restore_node-parts id now db after restored e = elim (Option-cases (entry_of id db.trash_entries)) [
  | inl missing ↦ ground arith
  | inr (entry, at_entry) ↦ elim (Option-cases (find (λ m. m.id == id && trashed_row m) db.nodes)) [
    | inl missing ↦ ground arith
    | inr (n, at_n) ↦ elim (Option-cases (collect_trashed_subtree_ids id db.nodes)) [
      | inl endless ↦ ground arith
      | inr (subtree, at_subtree) ↦
          (entry, n, subtree, at_entry, at_n, at_subtree, ground arith, ground arith, ground arith)
    ]
  ]
]

pub resolved :
    (o : Option ℕ) (nodes : List NodeRecord)
    → is_active_folder root_node_id nodes ≡ true
    → is_active_folder (resolve_restore_parent o nodes) nodes ≡ true
unfolding resolve_restore_parent
resolved none nodes root = root
resolved (some p) nodes root = elim (Bool-cases (is_active_folder p nodes)) [
  | inl live ↦ rw live live
  | inr gone ↦ rw gone root
]

module _ (id d now : ℕ) (subtree : List ℕ) where
  abbrev pub lifted : NodeRecord → Bool
  lifted m = elem m.id subtree && trashed_row m

  pub restates : Restates (reactivate id d now)
  restates = record { id = λ n. refl; kind = λ n. refl }

  pub active-stays :
      (q : ℕ) (ns : List NodeRecord)
      → is_active_folder q ns ≡ true
      → is_active_folder q (update_rows lifted (reactivate id d now) ns) ≡ true
  active-stays q [] a = cc
  active-stays q (n ∷ ns) a = ground (arith, active-stays q ns, not_both n.lifecycle_state)
    where
      not_both : (s : LifecycleState) → is_trashed s ≡ true → strife.Db.Nodes.is_active s ≡ false
      not_both LifecycleState.trashed h = refl
      not_both LifecycleState.active h = cc
      not_both LifecycleState.deleted h = cc

  pub parent-stays :
      (o : Option ℕ) (ns : List NodeRecord)
      → HasActiveParent ns o
      → HasActiveParent (update_rows lifted (reactivate id d now) ns) o
  parent-stays none ns a = tt
  parent-stays (some q) ns a = active-stays q ns a

  pub lifted-active :
      (q : ℕ) (ns : List NodeRecord)
      → elem q subtree ≡ true
      → any (λ m. m.id == q && (is_folder m.kind && trashed_row m)) ns ≡ true
      → is_active_folder q (update_rows lifted (reactivate id d now) ns) ≡ true
  lifted-active q [] e a = cc
  lifted-active q (n ∷ ns) e a =
      elim (Bool-cases (n.id == q && (is_folder n.kind && trashed_row n))) [
        | inl hit ↦
            let same : n.id ≡ q = (==_iff n.id q).0 (ground arith) in
            let also : elem n.id subtree ≡ true = rw same e in ground (arith, also)
        | inr miss ↦ ground (arith, lifted-active q ns e)
      ]

module _ (id : ℕ) (nodes : List NodeRecord) where
  -- where the query of restore_node starts
  abbrev pub trash_root : List ℕ
  trash_root = ids (where_rows (λ n. n.id == id && trashed_row n) nodes)

  pub Below-trashed :
      (x : ℕ)
      → Below trashed_row nodes trash_root x
      → any (λ m. m.id == x && trashed_row m) nodes ≡ true
  Below-trashed x (Below.start _ h) =
      trashed_start nodes (sym (elem-ids (λ n. n.id == id && trashed_row n) x nodes) ∙ h)
    where
      trashed_start :
          (ns : List NodeRecord)
          → any (λ n. n.id == x && (n.id == id && trashed_row n)) ns ≡ true
          → any (λ m. m.id == x && trashed_row m) ns ≡ true
      trashed_start [] h = cc
      trashed_start (n ∷ ns) h = ground (arith, trashed_start ns)
  Below-trashed x (Below.child q _ b e) = trashed_child nodes e
    where
      trashed_child :
          (ns : List NodeRecord)
          → edge trashed_row ns q x ≡ true
          → any (λ m. m.id == x && trashed_row m) ns ≡ true
      trashed_child [] h = cc
      trashed_child (n ∷ ns) h = ground (arith, trashed_child ns)

  pub start-id : (x : ℕ) → elem x trash_root ≡ true → (x == id) ≡ true
  start-id x h = same nodes (sym (elem-ids (λ n. n.id == id && trashed_row n) x nodes) ∙ h)
    where
      same :
          (ns : List NodeRecord)
          → any (λ n. n.id == x && (n.id == id && trashed_row n)) ns ≡ true
          → (x == id) ≡ true
      same [] h = cc
      same (n ∷ ns) h = ground (arith, same ns)

  -- In a hierarchy the row of an id meets both tests that rows of the id meet.
  pub both :
      (q : ℕ)
      → IsHierarchy nodes
      → is_folder_node q nodes ≡ true
      → any (λ m. m.id == q && trashed_row m) nodes ≡ true
      → any (λ m. m.id == q && (is_folder m.kind && trashed_row m)) nodes ≡ true
  both q h k t =
      let (m, at_m, hit) =
        All-any (λ n. get_node_by_id n.id nodes ≡ some n) (λ n. n.id == q && is_folder n.kind) nodes
          (node-rows nodes h) k in
      let (n, at_n, hit') =
        All-any (λ n. get_node_by_id n.id nodes ≡ some n) (λ n. n.id == q && trashed_row n) nodes
          (node-rows nodes h) t in
      let m_q : m.id ≡ q = (==_iff m.id q).0 (ground arith) in
      let n_q : n.id ≡ q = (==_iff n.id q).0 (ground arith) in
      let row_m : get_node_by_id q nodes ≡ some m = rw (← m_q) at_m in
      let row_n : get_node_by_id q nodes ≡ some n = rw (← n_q) at_n in
      let same : m ≡ n = some_injective (sym row_m ∙ row_n) in
      any-of_row (λ l. is_folder l.kind && trashed_row l) q m nodes row_m
        (ground (arith, hit, hit', ap (λ (l : NodeRecord). trashed_row l) same))

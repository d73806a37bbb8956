-- ===== src/Db/Trash/Selection.antt =====
-- trash_nodes of crates/db/src/lib.rs and the hierarchy: the rows that it changes.
use strife.Base.{
  ℕ, ◌≡◌, refl, sym, ◌∙◌, subst, String, Option, none, some, List, [], ◌∷◌, Bool, true, false, ◌&&◌,
  arith, ◌⊎◌, inl, inr, ◌↔◌, ◌==◌, ==_iff, if◌then◌else◌, elem, length, where_rows, Bool-cases,
  Option-cases, update_rows,
}
use strife.Base.Rows.{changed, map_row, row-update_rows}
use strife.Base.Result.{ok, Result-cases}
use strife.Db.Schema.{Db, NodeRecord, LifecycleState}
use strife.Db.Nodes.{get_node_by_id, active, active_folder, is_active_folder, update_nodes}
use strife.Db.Nodes.Tree.{ids, is_child, new_ids, collect_active_subtree_ids}
use strife.Db.Nodes.Tree.Descent.{edge, Below}
use strife.Db.Nodes.Tree.Distinct.{descend_distinct_iff, elem-new_ids, new_ids-elem}
use strife.Db.Nodes.Tree.Termination.{parent_of_row}
use strife.Db.Nodes.Invariant.{
  IsHierarchy, HasActiveParent, update_nodes-ok, moved-IsForest, any-of_row,
}
use strife.Db.Nodes.Restated.{Restates, restated-IsHierarchy, parent_of-restated}
use strife.Db.Nodes.Move.{sorted_ids}
use strife.Db.Trash.{
  trash_nodes, trash_sorted, trash_selected, outer_roots, selected_row, set_state, insert_entries,
  remove_favorites,
}

module _ (name_le : String → String → Bool) (new_id : ℕ → ℕ) where
  trash_selected-parts :
      (selected : List ℕ) (now : ℕ) (db after : Db) (moved : List NodeRecord)
      → trash_selected name_le new_id selected now db ≡ ok (moved, after)
      → (top : List NodeRecord) × (all : List ℕ) × (outer_roots
            (where_rows (selected_row selected) db.nodes)
            selected
            db.nodes
          ≡ ok top)
        × (collect_active_subtree_ids (ids top) db.nodes ≡ some all)
        × (update_nodes (selected_row all) (set_state LifecycleState.trashed now) db.nodes
            ≡ ok after.nodes)
        × (insert_entries new_id now top db.trash_entries ≡ ok after.trash_entries)
        × (after.favorites ≡ remove_favorites all db.favorites)
  unfolding trash_selected
  trash_selected-parts selected now db after moved e =
      elim (Result-cases
        (outer_roots (where_rows (selected_row selected) db.nodes) selected db.nodes)) [
          | inl (x, failed) ↦ ground arith
          | inr (top, at_top) ↦
              elim (Option-cases (collect_active_subtree_ids (ids top) db.nodes)) [
                | inl endless ↦ ground arith
                | inr (all, at_all) ↦
                    (top, all, at_top, at_all, ground arith, ground arith, ground arith)
              ]
        ]

states : (now : ℕ) → Restates (set_state LifecycleState.trashed now)
states now = record { id = λ n. refl; kind = λ n. refl }

survives :
    (all : List ℕ) (now q : ℕ) (ns : List NodeRecord)
    → is_active_folder q ns ≡ true
    → elem q all ≡ false
    → is_active_folder q (update_rows (selected_row all) (set_state LifecycleState.trashed now) ns)
      ≡ true
survives all now q [] a e = cc
survives all now q (n ∷ ns) a e = elim (Bool-cases (n.id == q && active_folder n)) [
  | inl hit ↦
      let same : n.id ≡ q = (==_iff n.id q).0 (ground arith) in
      let out : elem n.id all ≡ false = rw same e in ground (arith, out)
  | inr miss ↦ ground (arith, survives all now q ns)
]

-- where the query of trash_nodes starts
abbrev pub roots : List NodeRecord → List NodeRecord → List ℕ
roots top nodes = ids (where_rows (λ n. elem n.id (ids top) && active n) nodes)

Below-of_distinct :
    (live : NodeRecord → Bool) (nodes : List NodeRecord) (xs ys : List ℕ) {x : ℕ}
    → ((y : ℕ) → elem y xs ≡ true → elem y ys ≡ true)
    → Below live nodes xs x
    → Below live nodes ys x
Below-of_distinct live nodes xs ys f (Below.start x h) = Below.start x (f x h)
Below-of_distinct live nodes xs ys f (Below.child p c b e) =
    Below.child p c (Below-of_distinct live nodes xs ys f b) e

collected_iff :
    (top nodes : List NodeRecord) (all : List ℕ) (x : ℕ)
    → collect_active_subtree_ids (ids top) nodes ≡ some all
    → (elem x all ≡ true) ↔ Below active nodes (roots top nodes) x
unfolding collect_active_subtree_ids
collected_iff top nodes all x e =
    let (to, from) =
      descend_distinct_iff active nodes (length nodes) (new_ids [] (roots top nodes)) all x e in
    (
      λ h.
          Below-of_distinct active nodes (new_ids [] (roots top nodes)) (roots top nodes)
            (λ y. elem-new_ids y [] (roots top nodes)) (to h),
      λ b. from (
          Below-of_distinct active nodes (roots top nodes) (new_ids [] (roots top nodes))
            (λ y h. new_ids-elem y [] (roots top nodes) h refl) b),
    )

module _ (now : ℕ) (all : List ℕ) (top nodes after : List NodeRecord) (h : IsHierarchy nodes)
    (found : collect_active_subtree_ids (ids top) nodes ≡ some all)
    (done : update_nodes (selected_row all) (set_state LifecycleState.trashed now) nodes
      ≡ ok after) where
  parent_kept :
      (n : NodeRecord)
      → (changed (selected_row all) (set_state LifecycleState.trashed now) n).parent_id
        ≡ n.parent_id
  parent_kept n = ground arith

  parent_of_row-kept :
      (o : Option NodeRecord)
      → parent_of_row
          (map_row (changed (selected_row all) (set_state LifecycleState.trashed now)) o)
        ≡ parent_of_row o
  parent_of_row-kept none = refl
  parent_of_row-kept (some n) = parent_kept n

  -- A row that stays active does not hang below one that was trashed.
  parent-survives :
      (n : NodeRecord)
      → get_node_by_id n.id nodes ≡ some n
      → active_folder n ≡ true
      → selected_row all n ≡ false
      → (o : Option ℕ) → n.parent_id ≡ o
      → HasActiveParent nodes o
      → HasActiveParent
          (update_rows (selected_row all) (set_state LifecycleState.trashed now) nodes)
          o
  parent-survives n at_n a out none e c = tt
  parent-survives n at_n a out (some q) e c = elim (Bool-cases (elem q all)) [
    | inl gone ↦
        let hit : edge active nodes q n.id ≡ true =
          any-of_row (is_child active q) n.id n nodes at_n (rw e (ground arith)) in
        let also : elem n.id all ≡ true =
          (collected_iff top nodes all n.id found).1
            (Below.child q n.id ((collected_iff top nodes all q found).0 gone) hit) in
        absurd (ground (arith, also, out, a))
    | inr stays ↦ survives all now q nodes c stays
  ]

  trashed-IsHierarchy : IsHierarchy after
  trashed-IsHierarchy =
      let f = set_state LifecycleState.trashed now in
      let p = selected_row all in
      restated-IsHierarchy p f nodes after h (states now) done
        (moved-IsForest nodes after (λ x. false) 0
          (λ x.
            parent_of-restated p f nodes after h (states now) done x
            ∙ parent_of_row-kept (get_node_by_id x nodes))
          (λ a b. refl) h.forest)
        (λ n c. rw (parent_kept n) c)
        (λ n at_n below c a. elim (Bool-cases (selected_row all n)) [
          | inl hit ↦ ground arith
          | inr miss ↦
              let was : active_folder n ≡ true = rw miss at a in
              subst (HasActiveParent (update_rows p f nodes)) (sym (parent_kept n))
                (parent-survives n at_n was miss n.parent_id refl (c was))
        ])

module _ (name_le : String → String → Bool) (new_id : ℕ → ℕ) where
  trash_sorted-parts :
      (selected : List ℕ) (now : ℕ) (db after : Db) (moved : List NodeRecord)
      → trash_sorted name_le new_id selected now db ≡ ok (moved, after)
      → (db ≡ after) ⊎ (trash_selected name_le new_id selected now db ≡ ok (moved, after))
  trash_sorted-parts [] now db after moved e = inl (ground arith)
  trash_sorted-parts (i ∷ is) now db after moved e = inr (ground arith)

  -- Moving nodes to the trash keeps the hierarchy: no active folder is left below a trashed one.
  pub trash_nodes-IsHierarchy :
      (node_ids : List ℕ) (now : ℕ) (db after : Db) (moved : List NodeRecord)
      → IsHierarchy db.nodes
      → trash_nodes name_le new_id node_ids now db ≡ ok (moved, after)
      → IsHierarchy after.nodes
  unfolding trash_nodes
  trash_nodes-IsHierarchy node_ids now db after moved h e =
      elim (trash_sorted-parts (sorted_ids node_ids) now db after moved e) [
        | inl same ↦ subst (λ (d : Db). IsHierarchy d.nodes) same h
        | inr selection ↦
            let (top, all, at_top, at_all, done, entries, favorites) =
              trash_selected-parts name_le new_id (sorted_ids node_ids) now db after moved
                selection in
            trashed-IsHierarchy now all top db.nodes after.nodes h at_all done
      ]

  -- A selection that is moved to the trash trashes exactly the active rows at or below its outermost
  -- nodes, which are reached by active rows; every other row stays as it was, and the favorites of what
  -- was reached are gone.
  pub trash_selected-rows :
      (selected : List ℕ) (now : ℕ) (db after : Db) (moved : List NodeRecord)
      → trash_selected name_le new_id selected now db ≡ ok (moved, after)
      → (top : List NodeRecord) × (all : List ℕ) × (outer_roots
            (where_rows (selected_row selected) db.nodes)
            selected
            db.nodes
          ≡ ok top)
        × ((x : ℕ) → (elem x all ≡ true) ↔ Below active db.nodes (roots top db.nodes) x)
        × ((x : ℕ)
            → get_node_by_id x after.nodes
              ≡ map_row
                  (λ n.
                    if elem n.id all && active n then set_state LifecycleState.trashed now n else n)
                  (get_node_by_id x db.nodes))
        × (after.favorites ≡ remove_favorites all db.favorites)
  trash_selected-rows selected now db after moved e =
      let (top, all, at_top, at_all, done, entries, favorites) =
        trash_selected-parts name_le new_id selected now db after moved e in
      (
        top,
        all,
        at_top,
        (λ x. collected_iff top db.nodes all x at_all),
        (λ x.
            rw
              (update_nodes-ok (selected_row all) (set_state LifecycleState.trashed now) db.nodes
                after.nodes done).0
              (row-update_rows (λ n. n.id) (selected_row all) (set_state LifecycleState.trashed now)
                (λ n. refl) x db.nodes)),
        favorites,
      )

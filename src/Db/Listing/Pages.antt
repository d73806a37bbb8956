-- ===== src/Db/Listing/Pages.antt =====
-- The pages of list_children_page_sorted of crates/db/src/lib.rs: their order, their bound, and what
-- the cursor lets through.
use Prim.Native.Nat.{min}
use strife.Base.{
  ℕ, ◌≡◌, ◌≤◌, ◌<◌, ◌⊎◌, ◌↔◌, ◌==◌, subst, any, holds, none, some_injective, refl, sym, ap, ◌∙◌,
  String, Option, some, List, [], ◌∷◌, map, Bool, true, false, ◌&&◌, arith, inl, inr, str_eq,
  eq_iff, where_rows, order_by, length, All, Bool-cases,
}
use strife.Base.Ordered.{
  any-order_by, any-where_rows, any-map, any-row, length-map, length-where_rows, take-whole,
  IsOrdered, order_by-IsOrdered, take-IsOrdered, length-order_by, order_by-All, take-All,
  length-take, map-All, where_rows-passes,
}
use strife.Base.Rows.{
  NoClash, rows-found, All-any, eq_of_key, All-where_rows, All-map₂, All-of_forall,
}
use strife.Db.Schema.{Db, NodeRecord, LifecycleState}
use strife.Db.Nodes.{is_folder, get_node_by_id, is_active, node_clash}
use strife.Db.Nodes.Tree.Termination.{node_keyed}
use strife.Db.Metadata.{NodeMetadata}
use strife.Db.Listing.{
  ChildrenSort, SortOrder, ChildrenKindFilter, Child, joined_child, child_of, kind_filter,
  comes_before, after_cursor, use_name_cursor, cursor_filter, cursor_row, selected_children,
  list_children_page_sorted,
}

module _ (name_lt : String → String → Bool) where
  pub comes_before-total :
      (sort : ChildrenSort) (order : SortOrder) (a b : Child)
      → comes_before name_lt sort order a b ≡ false
      → comes_before name_lt sort order b a ≡ true
  comes_before-total sort order a b h = ground arith

  -- A row of the page is a child of the folder that a kind filter lets through, and the cursor, if the
  -- listing uses it.
  abbrev pub IsListed :
      ℕ → Option ℕ → ChildrenSort → SortOrder → List ChildrenKindFilter → Db → Child → Type 0
  IsListed parent_id cursor sort order kinds db c =
      (child_of parent_id c.node ≡ true)
      × (cursor_filter name_lt (use_name_cursor name_lt sort order kinds) cursor parent_id db.nodes
            c.node
          ≡ true)
      × (kind_filter kinds c ≡ true)

  pub selected-IsListed :
      (parent_id : ℕ) (cursor : Option ℕ) (sort : ChildrenSort) (order : SortOrder)
      (kinds : List ChildrenKindFilter) (db : Db) (metadata : List NodeMetadata)
      → All
          (IsListed parent_id cursor sort order kinds db)
          (selected_children name_lt parent_id cursor sort order kinds db metadata)
  selected-IsListed parent_id cursor sort order kinds db metadata =
      let passes : NodeRecord → Bool = λ n.
        child_of parent_id n
        && cursor_filter name_lt (use_name_cursor name_lt sort order kinds) cursor parent_id
            db.nodes n in
      let rows = where_rows passes db.nodes in
      let children = map (joined_child db metadata) rows in
      All-map₂ (λ (c : Child). passes c.node ≡ true × (kind_filter kinds c ≡ true)) (λ _. Unit {0})
        (IsListed parent_id cursor sort order kinds db) (λ c h _. ground (arith, h.0, h.1))
        (where_rows (kind_filter kinds) children)
        (All-where_rows (λ (c : Child). passes c.node ≡ true) (kind_filter kinds) children
          (map-All (λ (c : Child). passes c.node ≡ true) (joined_child db metadata) rows
            (where_rows-passes passes db.nodes)))
        (All-of_forall (λ _. Unit {0}) (λ _. tt) (where_rows (kind_filter kinds) children))

  -- A page of a folder's children holds active children that the kind filter lets through; folders come
  -- first, and folders and files are each in the order of the column and the direction; and it has
  -- as many of the selected rows as the limit allows.
  pub list_children_page_sorted-IsOrdered :
      (parent_id : ℕ) (cursor : Option ℕ) (limit : ℕ) (sort : ChildrenSort) (order : SortOrder)
      (kinds : List ChildrenKindFilter) (db : Db) (metadata : List NodeMetadata)
      → IsOrdered
          (comes_before name_lt sort order)
          (list_children_page_sorted name_lt parent_id cursor limit sort order kinds db metadata)
        × (length (
              list_children_page_sorted name_lt parent_id cursor limit sort order kinds db metadata)
            ≡ min limit
                (length (selected_children name_lt parent_id cursor sort order kinds db metadata)))
        × All
            (IsListed parent_id cursor sort order kinds db)
            (list_children_page_sorted name_lt parent_id cursor limit sort order kinds db metadata)
  unfolding list_children_page_sorted
  list_children_page_sorted-IsOrdered parent_id cursor limit sort order kinds db metadata =
      let le = comes_before name_lt sort order in
      let selected = selected_children name_lt parent_id cursor sort order kinds db metadata in
      (
        take-IsOrdered le limit (order_by le selected)
            (order_by-IsOrdered le (comes_before-total sort order) selected),
        length-take limit (order_by le selected) ∙ ap (min limit) (length-order_by le selected),
        take-All (IsListed parent_id cursor sort order kinds db) limit (order_by le selected) (
            order_by-All le (IsListed parent_id cursor sort order kinds db) selected
              (selected-IsListed parent_id cursor sort order kinds db metadata)),
      )

  -- For two children of one kind, what the cursor lets through comes after it in the order.
  after_cursor-comes_before :
      (db : Db) (metadata : List NodeMetadata) (cursor n : NodeRecord)
      → ((s t : String) → name_lt s t ≡ true → (name_lt t s ≡ false) × (str_eq s t ≡ false))
      → is_folder cursor.kind ≡ is_folder n.kind
      → after_cursor name_lt cursor n ≡ true
      → comes_before name_lt ChildrenSort.name SortOrder.asc
          (joined_child db metadata cursor)
          (joined_child db metadata n)
        ≡ true
  after_cursor-comes_before db metadata cursor n strict same after =
      ground (arith, strict cursor.name n.name, eq_iff cursor.name n.name)

  cursor-after :
      (parent_id at : ℕ) (db : Db) (cursor n : NodeRecord)
      → cursor_row name_lt parent_id at db.nodes ≡ some cursor
      → cursor_filter name_lt true (some at) parent_id db.nodes n ≡ after_cursor name_lt cursor n
  cursor-after parent_id at db cursor n found = rw found refl

  -- An active child of the folder.
  abbrev pub IsChild : ℕ → NodeRecord → Type 0
  IsChild parent_id n = (n.parent_id ≡ some parent_id) × (n.lifecycle_state ≡ LifecycleState.active)

  -- Behind the cursor: a greater name, or the same name and a greater id.
  abbrev pub IsAfter : NodeRecord → NodeRecord → Type 0
  IsAfter cursor n =
      (name_lt cursor.name n.name ≡ true) ⊎ ((cursor.name ≡ n.name) × (cursor.id < n.id))

  holds_eq : (o : Option ℕ) (p : ℕ) → holds o p ≡ true → o ≡ some p
  holds_eq none p h = cc
  holds_eq (some q) p h = ground arith

  active_eq : (l : LifecycleState) → is_active l ≡ true → l ≡ LifecycleState.active
  active_eq LifecycleState.active h = refl
  active_eq LifecycleState.trashed h = cc
  active_eq LifecycleState.deleted h = cc

  pub child_of-IsChild :
      (parent_id : ℕ) (n : NodeRecord) → child_of parent_id n ≡ true → IsChild parent_id n
  child_of-IsChild parent_id n h =
      (holds_eq n.parent_id parent_id (ground arith), active_eq n.lifecycle_state (ground arith))

  IsChild-child_of :
      (parent_id : ℕ) (n : NodeRecord) → IsChild parent_id n → child_of parent_id n ≡ true
  IsChild-child_of parent_id n h = rw (h.0, h.1) (ground arith)

  after_cursor-IsAfter : (c n : NodeRecord) → after_cursor name_lt c n ≡ true → IsAfter c n
  after_cursor-IsAfter c n h = elim (Bool-cases (name_lt c.name n.name)) [
    | inl less ↦ inl less
    | inr other ↦ inr ((eq_iff c.name n.name).0 (ground arith), ground arith)
  ]

  IsAfter-after_cursor : (c n : NodeRecord) → IsAfter c n → after_cursor name_lt c n ≡ true
  IsAfter-after_cursor c n (inl less) = ground arith
  IsAfter-after_cursor c n (inr (same, more)) = ground (arith, (eq_iff c.name n.name).1 same)

  cursor-row :
      (parent_id at : ℕ) (nodes : List NodeRecord) (cursor : NodeRecord)
      → get_node_by_id at nodes ≡ some cursor
      → cursor.parent_id ≡ some parent_id
      → cursor_row name_lt parent_id at nodes ≡ some cursor
  cursor-row parent_id at [] cursor e below = cc
  cursor-row parent_id at (n ∷ ns) cursor e below = elim (Bool-cases (n.id == at)) [
    | inl hit ↦
        let same : n ≡ cursor = some_injective (rw hit at e) in
        let held : holds n.parent_id parent_id ≡ true =
          rw (ap (λ (m : NodeRecord). m.parent_id) same, below) (ground arith) in
        rw (hit, held) (ap some same)
    | inr miss ↦ rw miss (cursor-row parent_id at ns cursor (rw miss at e) below)
  ]

  page-has :
      (parent_id at limit : ℕ) (db : Db) (metadata : List NodeMetadata) (cursor n : NodeRecord)
      → cursor_row name_lt parent_id at db.nodes ≡ some cursor
      → get_node_by_id n.id db.nodes ≡ some n
      → child_of parent_id n ≡ true
      → after_cursor name_lt cursor n ≡ true
      → length db.nodes ≤ limit
      → any
          (λ (c : Child). c.node.id == n.id)
          (list_children_page_sorted name_lt parent_id
            (some at)
            limit
            ChildrenSort.name
            SortOrder.asc
            []
            db
            metadata)
        ≡ true
  unfolding list_children_page_sorted
  page-has parent_id at limit db metadata cursor n found there child after fits =
      let le = comes_before name_lt ChildrenSort.name SortOrder.asc in
      let p = λ (c : Child). c.node.id == n.id in
      let q = λ (m : NodeRecord).
        child_of parent_id m && cursor_filter name_lt true (some at) parent_id db.nodes m in
      let rows = where_rows q db.nodes in
      let children = map (joined_child db metadata) rows in
      let selected = where_rows (kind_filter []) children in
      let few : length selected ≤ limit = omega (
        arith,
        length-where_rows (kind_filter []) children,
        length-map (joined_child db metadata) rows,
        length-where_rows q db.nodes,
        fits,
      ) in
      let held : q n ≡ true =
        ground (arith, child, cursor-after parent_id at db cursor n found ∙ after) in
      ap (any p)
        (take-whole limit (order_by le selected) (omega (arith, length-order_by le selected, few)))
      ∙ any-order_by p le selected
      ∙ any-where_rows p (kind_filter []) children
      ∙ any-map (λ (c : Child). kind_filter [] c && p c) (joined_child db metadata) rows
      ∙ any-where_rows (λ (m : NodeRecord). true && (m.id == n.id)) q db.nodes
      ∙ any-row (λ m. m.id) (λ m. q m && (true && (m.id == n.id))) n.id db.nodes n there
          (ground (arith, held))

  -- Every row of a page is a row of the table.
  page-All :
      (P : NodeRecord → Type 0) (parent_id at limit : ℕ) (db : Db) (metadata : List NodeMetadata)
      → All P db.nodes
      → All
          (λ (c : Child). P c.node)
          (list_children_page_sorted name_lt parent_id
            (some at)
            limit
            ChildrenSort.name
            SortOrder.asc
            []
            db
            metadata)
  unfolding list_children_page_sorted
  page-All P parent_id at limit db metadata h =
      let le = comes_before name_lt ChildrenSort.name SortOrder.asc in
      let q = λ (m : NodeRecord).
        child_of parent_id m && cursor_filter name_lt true (some at) parent_id db.nodes m in
      let rows = where_rows q db.nodes in
      let children = map (joined_child db metadata) rows in
      let fst_of =
        All-map₂ (λ (m : NodeRecord). P m × (q m ≡ true)) (λ _. Unit {0}) P (λ m g _. g.0) rows
          (All-where_rows P q db.nodes h) (All-of_forall (λ _. Unit {0}) (λ _. tt) rows) in
      let selected = where_rows (kind_filter []) children in
      take-All (λ (c : Child). P c.node) limit (order_by le selected)
        (order_by-All le (λ (c : Child). P c.node) selected
          (All-map₂ (λ (c : Child). P c.node × (kind_filter [] c ≡ true)) (λ _. Unit {0})
            (λ (c : Child). P c.node) (λ c g _. g.0) selected
            (All-where_rows (λ (c : Child). P c.node) (kind_filter []) children
              (map-All (λ (c : Child). P c.node) (joined_child db metadata) rows fst_of))
            (All-of_forall (λ _. Unit {0}) (λ _. tt) selected)))

  -- Where the cursor is a folder, a file with a lesser name comes after it in the order, and yet is not
  -- behind it.
  pub comes_before-not-IsAfter :
      (db : Db) (metadata : List NodeMetadata) (cursor n : NodeRecord)
      → ((s t : String) → name_lt s t ≡ true → (name_lt t s ≡ false) × (str_eq s t ≡ false))
      → is_folder cursor.kind ≡ true
      → is_folder n.kind ≡ false
      → name_lt n.name cursor.name ≡ true
      → (comes_before name_lt ChildrenSort.name SortOrder.asc
            (joined_child db metadata cursor)
            (joined_child db metadata n)
          ≡ true)
        × ¬ IsAfter cursor n
  comes_before-not-IsAfter db metadata cursor n strict folder file less = (
    ground arith,
    λ after. absurd (
        ground (
          arith,
          IsAfter-after_cursor cursor n after,
          strict n.name cursor.name,
          eq_iff cursor.name n.name,
          eq_iff n.name cursor.name,
        )),
  )

  -- The page behind a cursor, in a listing by ascending names without a filter, holds only active
  -- children of the folder; and, when the limit is no less than the number of nodes, an active child
  -- is on it exactly when its name is greater than that of the cursor's node, or its name is the same
  -- and its id is greater, whatever the kinds of the two are. Nodes have distinct ids, and the cursor
  -- is a child of the folder.
  pub list_children_page_sorted-IsAfter :
      (parent_id at limit : ℕ) (db : Db) (metadata : List NodeMetadata) (cursor n : NodeRecord)
      → NoClash node_clash db.nodes
      → get_node_by_id at db.nodes ≡ some cursor
      → cursor.parent_id ≡ some parent_id
      → get_node_by_id n.id db.nodes ≡ some n
      → IsChild parent_id n
      → length db.nodes ≤ limit
      → All
          (λ (c : Child). IsChild parent_id c.node × IsAfter cursor c.node)
          (list_children_page_sorted name_lt parent_id
            (some at)
            limit
            ChildrenSort.name
            SortOrder.asc
            []
            db
            metadata)
        × ((any
                (λ (c : Child). c.node.id == n.id)
                (list_children_page_sorted name_lt parent_id
                  (some at)
                  limit
                  ChildrenSort.name
                  SortOrder.asc
                  []
                  db
                  metadata)
              ≡ true)
            ↔ IsAfter cursor n)
  list_children_page_sorted-IsAfter parent_id at limit db metadata cursor n unique at_cursor below
        there child fits =
      let found = cursor-row parent_id at db.nodes cursor at_cursor below in
      let (_, _, listed) =
        list_children_page_sorted-IsOrdered parent_id (some at) limit ChildrenSort.name
          SortOrder.asc [] db metadata in
      let page =
        list_children_page_sorted name_lt parent_id (some at) limit ChildrenSort.name SortOrder.asc
          [] db metadata in
      let behind =
        All-map₂ (IsListed parent_id (some at) ChildrenSort.name SortOrder.asc [] db)
          (λ _. Unit {0}) (λ (c : Child). IsChild parent_id c.node × IsAfter cursor c.node)
          (λ c h _. (
            child_of-IsChild parent_id c.node h.0,
            after_cursor-IsAfter cursor c.node
                (sym (cursor-after parent_id at db cursor c.node found) ∙ h.1),
          ))
          page listed (All-of_forall (λ _. Unit {0}) (λ _. tt) page) in
      let known =
        page-All (λ m. get_node_by_id m.id db.nodes ≡ some m) parent_id at limit db metadata
          (rows-found (λ m. m.id) node_clash node_keyed db.nodes unique) in
      (
        behind,
        (
          (λ on_page.
              let (c, h, hit) =
                All-any
                  (λ (c : Child).
                    IsAfter cursor c.node × (get_node_by_id c.node.id db.nodes ≡ some c.node))
                  (λ (c : Child). c.node.id == n.id) page
                  (All-map₂ (λ (c : Child). IsChild parent_id c.node × IsAfter cursor c.node)
                    (λ (c : Child). get_node_by_id c.node.id db.nodes ≡ some c.node)
                    (λ (c : Child).
                      IsAfter cursor c.node × (get_node_by_id c.node.id db.nodes ≡ some c.node))
                    (λ c a b. (a.1, b)) page behind known)
                  on_page in
              subst (IsAfter cursor)
                (eq_of_key (λ m. m.id) c.node n db.nodes h.1 there (ground (arith, hit))) h.0),
          (λ after.
              page-has parent_id at limit db metadata cursor n found there
                (IsChild-child_of parent_id n child) (IsAfter-after_cursor cursor n after) fits),
        ),
      )

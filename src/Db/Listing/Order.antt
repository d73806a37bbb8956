-- ===== src/Db/Listing/Order.antt =====
-- The order of list_children_page_sorted of crates/db/src/lib.rs, as a relation on children.
use strife.Base.{
  ◌≡◌, ◌≤◌, ◌<◌, ◌⊎◌, String, Bool, true, false, ◌&&◌, not, arith, inl, inr, Bool-cases,
}
use strife.Db.Nodes.{is_folder}
use strife.Db.Listing.{ChildrenSort, SortOrder, Child, comes_before, directed_lt, column_lt}

module _ (name_lt : String → String → Bool) where
  -- a comes before b in the sorted column; 'file' is less than 'folder'.
  abbrev pub ColumnLess : ChildrenSort → Child → Child → Type 0
  ColumnLess ChildrenSort.name a b = name_lt a.node.name b.node.name ≡ true
  ColumnLess ChildrenSort.kind a b =
      (is_folder a.node.kind ≡ false) × (is_folder b.node.kind ≡ true)
  ColumnLess ChildrenSort.size a b = a.byte_size < b.byte_size
  ColumnLess ChildrenSort.updated_at a b = a.node.updated_at < b.node.updated_at
  ColumnLess ChildrenSort.created_at a b = a.node.created_at < b.node.created_at

  abbrev pub Less : ChildrenSort → SortOrder → Child → Child → Type 0
  Less sort SortOrder.asc a b = ColumnLess sort a b
  Less sort SortOrder.desc a b = ColumnLess sort b a

  -- A folder before a file, and within a kind the lesser in the sort's direction, else the lesser id.
  abbrev pub Precedes : ChildrenSort → SortOrder → Child → Child → Type 0
  Precedes sort order a b =
      ((is_folder a.node.kind ≡ true) × (is_folder b.node.kind ≡ false))
      ⊎ ((is_folder a.node.kind ≡ is_folder b.node.kind)
          × (Less sort order a b ⊎ (¬ Less sort order b a × (a.node.id ≤ b.node.id))))

  column_lt-ColumnLess :
      (sort : ChildrenSort) (a b : Child) → column_lt name_lt sort a b ≡ true → ColumnLess sort a b
  column_lt-ColumnLess ChildrenSort.name a b h = h
  column_lt-ColumnLess ChildrenSort.kind a b h = (ground arith, ground arith)
  column_lt-ColumnLess ChildrenSort.size a b h = ground arith
  column_lt-ColumnLess ChildrenSort.updated_at a b h = ground arith
  column_lt-ColumnLess ChildrenSort.created_at a b h = ground arith

  ColumnLess-column_lt :
      (sort : ChildrenSort) (a b : Child) → ColumnLess sort a b → column_lt name_lt sort a b ≡ true
  ColumnLess-column_lt ChildrenSort.name a b h = h
  ColumnLess-column_lt ChildrenSort.kind a b h = ground (arith, h.0, h.1)
  ColumnLess-column_lt ChildrenSort.size a b h = ground arith
  ColumnLess-column_lt ChildrenSort.updated_at a b h = ground arith
  ColumnLess-column_lt ChildrenSort.created_at a b h = ground arith

  directed-Less :
      (sort : ChildrenSort) (order : SortOrder) (a b : Child)
      → directed_lt name_lt sort order a b ≡ true
      → Less sort order a b
  directed-Less sort SortOrder.asc a b h = column_lt-ColumnLess sort a b h
  directed-Less sort SortOrder.desc a b h = column_lt-ColumnLess sort b a h

  Less-directed :
      (sort : ChildrenSort) (order : SortOrder) (a b : Child)
      → Less sort order a b
      → directed_lt name_lt sort order a b ≡ true
  Less-directed sort SortOrder.asc a b h = ColumnLess-column_lt sort a b h
  Less-directed sort SortOrder.desc a b h = ColumnLess-column_lt sort b a h

  pub comes_before-Precedes :
      (sort : ChildrenSort) (order : SortOrder) (a b : Child)
      → comes_before name_lt sort order a b ≡ true
      → Precedes sort order a b
  comes_before-Precedes sort order a b h =
      elim (Bool-cases (is_folder a.node.kind && not (is_folder b.node.kind))) [
        | inl apart ↦ inl (ground arith, ground arith)
        | inr alike ↦ inr (
          ground arith,
          elim (Bool-cases (directed_lt name_lt sort order a b)) [
            | inl less ↦ inl (directed-Less sort order a b less)
            | inr other ↦
                inr (
                  (λ more. absurd (ground (arith, Less-directed sort order b a more))),
                  ground arith,
                )
          ],
        )
      ]

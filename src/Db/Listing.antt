-- ===== src/Db/Listing.antt =====
-- list_children and list_children_page_sorted of crates/db/src/lib.rs: one page of a folder's children.
pub mod Pages
pub mod Order
mod Tests
use strife.Base.{
  ℕ, ◌≤◌, ◌≡◌, refl, sym, ap, subst, ◌∙◌, String, Option, none, some, List, [], ◌∷◌, map, Bool,
  true, false, ◌&&◌, ◌||◌, not, arith, inl, inr, ltb, leb, ◌==◌, holds, str_eq, eq_iff,
  if◌then◌else◌, any, find, where_rows, insert_by, order_by, take, length, All, Bool-cases,
  Option-cases,
}
use strife.Base.Rows.{All-where_rows}
use strife.Db.Schema.{Db, NodeRecord, NodeKind, FileObjectRecord}
use strife.Db.Nodes.{active, is_folder}
use strife.Db.Files.{finalized_of}
use strife.Db.Metadata.{NodeMetadata, MediaKind}

pub data ChildrenSort : Type 0 where
  name kind size updated_at created_at : ChildrenSort

pub data SortOrder : Type 0 where
  asc desc : SortOrder

pub data ChildrenKindFilter : Type 0 where
  folder image document video audio : ChildrenKindFilter

-- A child with what the joined rows say of it: COALESCE(byte_size, 0), and the media kind.
pub record Child : Type 0 where
  pub node : NodeRecord
  pub byte_size : ℕ
  pub media_kind : Option MediaKind

abbrev size_of : Option FileObjectRecord → ℕ
size_of none = 0
size_of (some o) = o.byte_size

abbrev kind_of : Option NodeMetadata → Option MediaKind
kind_of none = none
kind_of (some m) = some m.media_kind

abbrev pub joined_child : Db → List NodeMetadata → NodeRecord → Child
joined_child db metadata n = record {
  node = n;
  byte_size = size_of (find (finalized_of n.id) db.file_objects);
  media_kind = kind_of (find (λ m. m.node_id == n.id) metadata);
}

abbrev pub child_of : ℕ → NodeRecord → Bool
child_of parent_id n = holds n.parent_id parent_id && active n

abbrev is_kind : ChildrenKindFilter → Option MediaKind → Bool
is_kind ChildrenKindFilter.image (some MediaKind.image) = true
is_kind ChildrenKindFilter.document (some MediaKind.document) = true
is_kind ChildrenKindFilter.video (some MediaKind.video) = true
is_kind ChildrenKindFilter.audio (some MediaKind.audio) = true
is_kind _ _ = false

abbrev pub matches_kind : Child → ChildrenKindFilter → Bool
matches_kind c ChildrenKindFilter.folder = is_folder c.node.kind
matches_kind c k = not (is_folder c.node.kind) && is_kind k c.media_kind

-- No filter lets every child through.
abbrev pub kind_filter : List ChildrenKindFilter → Child → Bool
kind_filter [] c = true
kind_filter (k ∷ ks) c = any (matches_kind c) (k ∷ ks)

module _ (name_lt : String → String → Bool) where
  -- a < b in the sorted column; 'file' comes before 'folder'
  abbrev pub column_lt : ChildrenSort → Child → Child → Bool
  column_lt ChildrenSort.name a b = name_lt a.node.name b.node.name
  column_lt ChildrenSort.kind a b = not (is_folder a.node.kind) && is_folder b.node.kind
  column_lt ChildrenSort.size a b = ltb a.byte_size b.byte_size
  column_lt ChildrenSort.updated_at a b = ltb a.node.updated_at b.node.updated_at
  column_lt ChildrenSort.created_at a b = ltb a.node.created_at b.node.created_at

  abbrev pub directed_lt : ChildrenSort → SortOrder → Child → Child → Bool
  directed_lt sort SortOrder.asc a b = column_lt sort a b
  directed_lt sort SortOrder.desc a b = column_lt sort b a

  -- Folders first, then the column in its direction, then the id.
  abbrev pub comes_before : ChildrenSort → SortOrder → Child → Child → Bool
  comes_before sort order a b =
      if is_folder a.node.kind && not (is_folder b.node.kind)
      then true
      else if not (is_folder a.node.kind) && is_folder b.node.kind
      then false
      else if directed_lt sort order a b
      then true
      else if directed_lt sort order b a
      then false
      else leb a.node.id b.node.id

  -- (n.name, n.id) > (cursor.name, cursor.id)
  abbrev pub after_cursor : NodeRecord → NodeRecord → Bool
  after_cursor cursor n =
      name_lt cursor.name n.name || (str_eq cursor.name n.name && ltb cursor.id n.id)

  -- A cursor that is no child of the folder is NULL in the comparison, which no row passes.
  abbrev passes : Option NodeRecord → NodeRecord → Bool
  passes none n = false
  passes (some cursor) n = after_cursor cursor n

  -- The cursor counts for names in ascending order without a filter only.
  abbrev pub use_name_cursor : ChildrenSort → SortOrder → List ChildrenKindFilter → Bool
  use_name_cursor ChildrenSort.name SortOrder.asc [] = true
  use_name_cursor _ _ _ = false

  abbrev pub cursor_row : ℕ → ℕ → List NodeRecord → Option NodeRecord
  cursor_row parent_id cursor = find (λ n. n.id == cursor && holds n.parent_id parent_id)

  abbrev pub cursor_filter : Bool → Option ℕ → ℕ → List NodeRecord → NodeRecord → Bool
  cursor_filter false cursor parent_id nodes n = true
  cursor_filter true none parent_id nodes n = true
  cursor_filter true (some cursor) parent_id nodes n = passes (cursor_row parent_id cursor nodes) n

  -- The selected rows, before they are ordered.
  abbrev pub selected_children :
      ℕ
      → Option ℕ
      → ChildrenSort
      → SortOrder
      → List ChildrenKindFilter
      → Db
      → List NodeMetadata
      → List Child
  selected_children parent_id cursor sort order kinds db metadata = where_rows (kind_filter kinds) (
      map (joined_child db metadata) (
        where_rows
          (λ n.
            child_of parent_id n
            && cursor_filter (use_name_cursor sort order kinds) cursor parent_id db.nodes n)
          db.nodes))

  unfoldable pub list_children_page_sorted :
      ℕ
      → Option ℕ
      → ℕ
      → ChildrenSort
      → SortOrder
      → List ChildrenKindFilter
      → Db
      → List NodeMetadata
      → List Child
  list_children_page_sorted parent_id cursor limit sort order kinds db metadata = take limit (
      order_by (comes_before sort order)
        (selected_children parent_id cursor sort order kinds db metadata))

  unfoldable pub list_children_page : ℕ → Option ℕ → ℕ → Db → List NodeMetadata → List Child
  unfolding list_children_page_sorted
  list_children_page parent_id cursor limit db metadata =
      list_children_page_sorted parent_id cursor limit ChildrenSort.name SortOrder.asc [] db
        metadata

  unfoldable pub list_children : ℕ → List NodeRecord → List NodeRecord
  list_children parent_id nodes =
      order_by
        (λ a b.
          if name_lt a.name b.name
          then true
          else if name_lt b.name a.name
          then false
          else leb a.id b.id)
        (where_rows (child_of parent_id) nodes)

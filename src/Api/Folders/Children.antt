-- ===== src/Api/Folders/Children.antt =====
-- list_children of crates/api/src/folders.rs: the request for a page of a folder's children.
use strife.Base.{
  ℕ, suc, String, Option, none, some, List, [], ◌∷◌, map, Bool, ltb, ◌==◌, if◌then◌else◌, elem,
  length,
}
use strife.Base.Result.{Result, ok, err, ◌>>=◌}
use strife.Base.Text.{Text}
use strife.Db.Schema.{Db, NodeRecord, Favorite}
use strife.Db.Nodes.{active_folder, get_node_by_id}
use strife.Db.Favorites.{favorite_ids_among}
use strife.Db.Metadata.{NodeMetadata}
use strife.Db.Listing.{Child, list_children_page_sorted}
use strife.Api.Folders.{
  ApiError, not_found, FolderResponse, folder_response, parse_sort, parse_order, parse_kinds,
}

pub record ListChildrenQuery : Type 0 where
  pub cursor : Option ℕ
  pub limit : Option ℕ
  pub sort : Option Text
  pub order : Option Text
  pub kind : List Text

pub record ChildrenResponse : Type 0 where
  pub items : List FolderResponse
  pub next_cursor : Option ℕ

-- query.limit.unwrap_or(DEFAULT_PAGE_SIZE).clamp(1, MAX_PAGE_SIZE)
abbrev pub page_limit : Option ℕ → ℕ
page_limit none = 50
page_limit (some n) = if n == 0 then 1 else if ltb 100 n then 100 else n

-- Vec::pop
abbrev pub without_last : List Child → List Child
without_last [] = []
without_last (c ∷ []) = []
without_last (c ∷ d ∷ cs) = c ∷ without_last (d ∷ cs)

abbrev pub last_id : List Child → Option ℕ
last_id [] = none
last_id (c ∷ []) = some c.node.id
last_id (c ∷ d ∷ cs) = last_id (d ∷ cs)

abbrev node_ids : List Child → List ℕ
node_ids = map (λ (c : Child). c.node.id)

abbrev pub page_item : List ℕ → Child → FolderResponse
page_item favorites c = folder_response (elem c.node.id favorites) c.node

abbrev pub children_response : List Child → Option ℕ → List Favorite → ChildrenResponse
children_response nodes next_cursor favorites = record {
  items = map (page_item (favorite_ids_among (node_ids nodes) favorites)) nodes;
  next_cursor = next_cursor;
}

-- One row more than the page is asked for, which says whether there are more.
abbrev pub page_of : ℕ → List Child → List Favorite → ChildrenResponse
page_of limit nodes favorites =
    if ltb limit (length nodes)
    then children_response (without_last nodes) (last_id (without_last nodes)) favorites
    else children_response nodes none favorites

abbrev pub folder_of : Option NodeRecord → Result ApiError NodeRecord
folder_of none = err not_found
folder_of (some n) = if active_folder n then ok n else err not_found

unfoldable pub list_children_request :
    (String → String → Bool)
    → ℕ
    → ListChildrenQuery
    → Db
    → List NodeMetadata
    → Result ApiError ChildrenResponse
list_children_request name_lt folder_id query db metadata = do
  _ ← folder_of (get_node_by_id folder_id db.nodes)
  sort ← parse_sort query.sort
  order ← parse_order query.order
  kinds ← parse_kinds query.kind
  let limit = page_limit query.limit
  let nodes =
      list_children_page_sorted name_lt folder_id query.cursor (suc limit) sort order kinds db
        metadata
  ok (page_of limit nodes db.favorites)

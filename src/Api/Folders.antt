-- ===== src/Api/Folders.antt =====
-- crates/api/src/folders.rs: the handlers of folders, their parameters, and their errors.
pub mod Children
pub mod Listed
pub mod Kinds
mod Tests
use strife.Base.{
  ℕ, suc, ◌+◌, ◌≤◌, String, Option, none, some, List, [], ◌∷◌, ◌++◌, map, Bool, true, false, ◌&&◌,
  ◌||◌, not, ltb, leb, ◌==◌, str_eq, if◌then◌else◌, any, elem, length, order_by, is_some,
}
use strife.Base.Result.{Result, ok, err, ◌>>=◌, ◌>>◌, guard, ok_or, map_err}
use strife.Base.Text.{Text, codes, same_text, split_char}
use strife.Domain.{FolderError, validate_name}
use strife.Db.Schema.{Db, NodeRecord, NodeKind, Favorite}
use strife.Db.Nodes.{
  FolderMutationError, rule, move_conflict, database, FolderMoveConflict, active_folder,
  get_node_by_id, is_folder, active, create_folder,
}
use strife.Db.Nodes.Move.{update_folder, move_folders}
use strife.Db.Nodes.Tree.{NodePathEntry, list_ancestors}
use strife.Db.Favorites.{favorite_ids_among}
use strife.Db.Metadata.{NodeMetadata}
use strife.Db.Listing.{
  ChildrenSort, SortOrder, ChildrenKindFilter, Child, list_children_page_sorted,
}

pub data ApiError : Type 0 where
  bad_request : String → ApiError
  not_found name_conflict cycle_detected internal : ApiError
  move_conflicts : List FolderMoveConflict → ApiError

-- ApiError::into_response: the status and the code of the body
abbrev pub response_of : ApiError → ℕ × String
response_of (bad_request message) = (400, "bad_request")
response_of not_found = (404, "not_found")
response_of name_conflict = (409, "name_conflict")
response_of cycle_detected = (400, "cycle_detected")
response_of internal = (500, "internal_error")
response_of (move_conflicts conflicts) = (409, "move_conflict")

-- From<FolderMutationError>
abbrev pub from_mutation : FolderMutationError → ApiError
from_mutation (rule FolderError.not_found) = not_found
from_mutation (rule FolderError.name_conflict) = name_conflict
from_mutation (rule FolderError.cycle_detected) = cycle_detected
from_mutation (rule FolderError.invalid_name) = bad_request "Folder name cannot be empty"
from_mutation (move_conflict conflicts) = move_conflicts conflicts
from_mutation (database e) = internal

pub record FolderResponse : Type 0 where
  pub id : ℕ
  pub name : String
  pub kind : NodeKind
  pub created_at : ℕ
  pub updated_at : ℕ
  pub is_favorite : Bool

abbrev pub folder_response : Bool → NodeRecord → FolderResponse
folder_response is_favorite n = record {
  id = n.id;
  name = n.name;
  kind = n.kind;
  created_at = n.created_at;
  updated_at = n.updated_at;
  is_favorite = is_favorite;
}

-- value.unwrap_or("name") and the match
unfoldable pub parse_sort : Option Text → Result ApiError ChildrenSort
parse_sort none = ok ChildrenSort.name
parse_sort (some s) =
    if same_text s (codes "name")
    then ok ChildrenSort.name
    else if same_text s (codes "kind") || same_text s (codes "type")
    then ok ChildrenSort.kind
    else if same_text s (codes "size")
    then ok ChildrenSort.size
    else if same_text s (codes "updated_at")
        || (same_text s (codes "modified") || same_text s (codes "date"))
    then ok ChildrenSort.updated_at
    else if same_text s (codes "created_at") || same_text s (codes "created")
    then ok ChildrenSort.created_at
    else err (bad_request "Unknown sort column")

unfoldable pub parse_order : Option Text → Result ApiError SortOrder
parse_order none = ok SortOrder.asc
parse_order (some s) =
    if same_text s (codes "asc")
    then ok SortOrder.asc
    else if same_text s (codes "desc")
    then ok SortOrder.desc
    else err (bad_request "order must be asc or desc")

-- The white space of Unicode.
abbrev is_whitespace : ℕ → Bool
is_whitespace c =
    (leb 9 c && leb c 13)
    || ((c == 32 || (c == 133 || c == 160))
        || ((c == 5760 || (leb 8192 c && leb c 8202))
            || ((c == 8232 || c == 8233) || (c == 8239 || (c == 8287 || c == 12288)))))

abbrev trim_start : Text → Text
trim_start [] = []
trim_start (c ∷ s) = if is_whitespace c then trim_start s else c ∷ s

abbrev drop_blank : ℕ → Text → Text
drop_blank c [] = if is_whitespace c then [] else c ∷ []
drop_blank c (d ∷ s) = c ∷ d ∷ s

abbrev trim_end : Text → Text
trim_end [] = []
trim_end (c ∷ s) = drop_blank c (trim_end s)

abbrev pub trim : Text → Text
trim s = trim_end (trim_start s)

abbrev skipped : Text → Bool
skipped [] = true
skipped (c ∷ s) = same_text (c ∷ s) (codes "all")

abbrev pub kind_of_part : Text → Result ApiError ChildrenKindFilter
kind_of_part s =
    if same_text s (codes "folder") || same_text s (codes "folders")
    then ok ChildrenKindFilter.folder
    else if same_text s (codes "image") || same_text s (codes "images")
    then ok ChildrenKindFilter.image
    else if same_text s (codes "document") || same_text s (codes "documents")
    then ok ChildrenKindFilter.document
    else if same_text s (codes "video") || same_text s (codes "videos")
    then ok ChildrenKindFilter.video
    else if same_text s (codes "audio")
    then ok ChildrenKindFilter.audio
    else err (bad_request "Unknown kind filter")

abbrev pub parts_of : List Text → List Text
parts_of [] = []
parts_of (value ∷ values) = map trim (split_char b',' value) ++ parts_of values

abbrev pub kinds_of : List Text → Result ApiError (List ChildrenKindFilter)
kinds_of [] = ok []
kinds_of (part ∷ parts) =
    let rest = kinds_of parts in
    if skipped part
    then rest
    else (kind_of_part part >>= λ kind. rest >>= λ kinds. ok (kind ∷ kinds))

-- The order of the names that Debug prints.
abbrev pub debug_rank : ChildrenKindFilter → ℕ
debug_rank ChildrenKindFilter.audio = 0
debug_rank ChildrenKindFilter.document = 1
debug_rank ChildrenKindFilter.folder = 2
debug_rank ChildrenKindFilter.image = 3
debug_rank ChildrenKindFilter.video = 4

abbrev pub same_filter : ChildrenKindFilter → ChildrenKindFilter → Bool
same_filter a b = debug_rank a == debug_rank b

-- Vec::dedup
abbrev pub dedup : List ChildrenKindFilter → List ChildrenKindFilter
dedup [] = []
dedup (k ∷ []) = k ∷ []
dedup (k ∷ l ∷ ks) = let rest = dedup (l ∷ ks) in if same_filter k l then rest else k ∷ rest

unfoldable pub parse_kinds : List Text → Result ApiError (List ChildrenKindFilter)
parse_kinds values = kinds_of (parts_of values) >>= λ kinds.
    ok (dedup (order_by (λ a b. leb (debug_rank a) (debug_rank b)) kinds))

-- The validation of the handlers.
abbrev checked_name : String → Result ApiError String
checked_name name = map_err (λ _. bad_request "Folder name cannot be empty") (validate_name name)

abbrev checked_names : Option String → Result ApiError (Option String)
checked_names none = ok none
checked_names (some name) = checked_name name >>= λ n. ok (some n)

unfoldable pub create_folder_request :
    ℕ → ℕ → String → ℕ → List NodeRecord → Result ApiError (FolderResponse × List NodeRecord)
create_folder_request id parent_id name now nodes = do
  name ← checked_name name
  r ← map_err from_mutation (create_folder id parent_id name now nodes)
  ok (folder_response false r.0, r.1)

unfoldable pub update_folder_request :
    ℕ
    → Option String
    → Option ℕ
    → ℕ
    → List NodeRecord
    → Result ApiError (FolderResponse × List NodeRecord)
update_folder_request folder_id name parent_id now nodes = do
  guard (is_some name || is_some parent_id) (bad_request "Provide a name or parent_id")
  name ← checked_names name
  r ← map_err from_mutation (update_folder folder_id name parent_id now nodes)
  ok (folder_response false r.0, r.1)

abbrev is_given : List ℕ → Bool
is_given [] = false
is_given (i ∷ is) = true

unfoldable pub move_folders_request :
    (String → String → Bool)
    → List ℕ
    → ℕ
    → ℕ
    → List NodeRecord
    → Result ApiError (List FolderResponse × List NodeRecord)
move_folders_request name_le folder_ids parent_id now nodes = do
  guard (is_given folder_ids) (bad_request "Select at least one folder")
  r ← map_err from_mutation (move_folders name_le folder_ids parent_id now nodes)
  ok (map (folder_response false) r.0, r.1)

-- The path, where it ends, of an active folder; of another node it is empty.
abbrev path_or_missing : List NodePathEntry → Result ApiError (List NodePathEntry)
path_or_missing [] = err not_found
path_or_missing (a ∷ path) = ok (a ∷ path)

unfoldable pub list_ancestors_request :
    ℕ → List NodeRecord → Option (Result ApiError (List NodePathEntry))
list_ancestors_request folder_id nodes = elim (list_ancestors folder_id nodes) [
  | none ↦ none
  | some path ↦ some (path_or_missing path)
]

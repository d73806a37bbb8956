-- ===== src/Db/Files.antt =====
-- The `file_objects` table of crates/db/src/lib.rs: staged and finalized objects, and downloads.

use strife.Base.{
  ℕ, ◌≡◌, sym, ap, subst, ◌∙◌, refl, ==_iff, String, Option, none, some, List, [], ◌∷◌, Bool, true,
  false, ◌&&◌, not, arith, inl, inr, Option-cases, ◌==◌, holds, if◌then◌else◌, any, find, updated,
  update_rows,
}
use strife.Base.Int.{ℤ, pos, negsuc}
use strife.Base.Rows.{NoClash, changed, update_rows-NoClash, All-of_not_any}
use strife.Base.Result.{Result, ok, err}
use strife.Db.Schema.{
  DbError, unique_violation, foreign_key_violation, check_violation, row_not_found, NodeRecord,
  FileObjectRecord, FileUploadState, Db,
}
use strife.Db.Nodes.{active, is_folder, node_exists}
use strife.Db.Uploads.Finalization.{is_finalized}

pub record DownloadFileRecord : Type 0 where
  pub node_id : ℕ
  pub display_name : String
  pub storage_key : ℕ
  pub byte_size : ℕ
  pub mime_type : Option String

abbrev staged_object : ℕ → ℕ → ℕ → Option String → Option String → ℕ → FileObjectRecord
staged_object id storage_key byte_size mime_type checksum now = record {
  id = id;
  node_id = none;
  storage_key = storage_key;
  byte_size = byte_size;
  mime_type = mime_type;
  checksum_sha256 = checksum;
  upload_state = FileUploadState.staging;
  created_at = now;
  updated_at = now;
}

-- The size is an i64: the CHECK refuses a negative one.
unfoldable pub create_file_object :
    ℕ
    → ℕ
    → ℤ
    → Option String
    → Option String
    → ℕ
    → List FileObjectRecord
    → Result DbError (FileObjectRecord × List FileObjectRecord)
create_file_object id storage_key (negsuc n) mime_type checksum now objects = err check_violation
create_file_object id storage_key (pos byte_size) mime_type checksum now objects =
    if any (λ o. o.id == id) objects
    then err unique_violation
    else let o = staged_object id storage_key byte_size mime_type checksum now in
      ok (o, o ∷ objects)

abbrev pub finalized_of : ℕ → FileObjectRecord → Bool
finalized_of node_id o = is_finalized o.upload_state && holds o.node_id node_id

abbrev staged : ℕ → FileObjectRecord → Bool
staged id o = o.id == id && not (is_finalized o.upload_state)

abbrev attached : ℕ → ℕ → FileObjectRecord → FileObjectRecord
attached node_id now o = record o {
  node_id = some node_id;
  upload_state = FileUploadState.finalized;
  updated_at = now;
}

-- UPDATE … WHERE id = $1 AND upload_state = 'staging': file_objects_one_finalized_per_node refuses
-- a second object of the node, and the foreign key a node that is not there.
unfoldable pub finalize_file_object : ℕ → ℕ → ℕ → Db → Result DbError (FileObjectRecord × Db)
finalize_file_object id node_id now db =
    elim (updated (staged id) (attached node_id now) db.file_objects) [
      | none ↦ err row_not_found
      | some o ↦
          if any (finalized_of node_id) db.file_objects
          then err unique_violation
          else if node_exists node_id db.nodes
          then ok (
            o,
            record db {
              file_objects = update_rows (staged id) (attached node_id now) db.file_objects;
            },
          )
          else err foreign_key_violation
    ]

-- At most one row is finalized for a node, which the index says.
unfoldable pub get_file_object_by_node_id : ℕ → List FileObjectRecord → Option FileObjectRecord
get_file_object_by_node_id node_id = find (finalized_of node_id)

abbrev pub active_file : ℕ → NodeRecord → Bool
active_file id n = n.id == id && (not (is_folder n.kind) && active n)

abbrev download_of : NodeRecord → FileObjectRecord → DownloadFileRecord
download_of n o = record {
  node_id = n.id;
  display_name = n.name;
  storage_key = o.storage_key;
  byte_size = o.byte_size;
  mime_type = o.mime_type;
}

-- SELECT … FROM nodes JOIN file_objects ON file_objects.node_id = nodes.id
unfoldable pub get_download_file : ℕ → Db → Option DownloadFileRecord
get_download_file node_id db = elim (find (active_file node_id) db.nodes) [
  | none ↦ none
  | some n ↦ elim (find (finalized_of node_id) db.file_objects) [
    | none ↦ none
    | some o ↦ some (download_of n o)
  ]
]

-- The primary key and the index file_objects_one_finalized_per_node.
abbrev same_owner : Option ℕ → Option ℕ → Bool
same_owner none b = false
same_owner (some a) b = holds b a

abbrev pub object_clash : FileObjectRecord → FileObjectRecord → Bool
object_clash a b =
    if b.id == a.id
    then true
    else is_finalized a.upload_state
      && (is_finalized b.upload_state && same_owner a.node_id b.node_id)

attached-found :
    (id node_id now : ℕ) (objects : List FileObjectRecord) (o : FileObjectRecord)
    → any (finalized_of node_id) objects ≡ false
    → updated (staged id) (attached node_id now) objects ≡ some o
    → find (finalized_of node_id) (update_rows (staged id) (attached node_id now) objects) ≡ some o
attached-found id node_id now [] o free e = cc
attached-found id node_id now (x ∷ xs) o free e =
    ground (arith, attached-found id node_id now xs o, ==_iff node_id node_id)

same_owner-holds : (o : Option ℕ) (n : ℕ) → same_owner o (some n) ≡ holds o n
same_owner-holds none n = refl
same_owner-holds (some a) n = ground arith

attached-clash :
    (id node_id now : ℕ) (x y : FileObjectRecord)
    → finalized_of node_id x ≡ false
    → finalized_of node_id y ≡ false
    → object_clash
        (changed (staged id) (attached node_id now) x)
        (changed (staged id) (attached node_id now) y)
      ≡ true
    → object_clash x y ≡ true
attached-clash id node_id now x y fx fy h = ground (arith, same_owner-holds x.node_id node_id)

find-not_any {ℓ} : {A : Type ℓ} (p : A → Bool) (xs : List A) → any p xs ≡ false → find p xs ≡ none
find-not_any p [] h = refl
find-not_any p (x ∷ xs) h = ground (arith, find-not_any p xs)

finalize_cases :
    (id node_id now : ℕ) (db after : Db) (o : FileObjectRecord)
    → finalize_file_object id node_id now db ≡ ok (o, after)
    → (any (finalized_of node_id) db.file_objects ≡ false)
      × (updated (staged id) (attached node_id now) db.file_objects ≡ some o)
      × (node_exists node_id db.nodes ≡ true)
      × (after ≡ record db {
        file_objects = update_rows (staged id) (attached node_id now) db.file_objects;
      })
unfolding finalize_file_object
finalize_cases id node_id now db after o e =
    elim (Option-cases (updated (staged id) (attached node_id now) db.file_objects)) [
      | inl none_staged ↦ cc
      | inr (a, here) ↦ ground arith
    ]

-- A staged object that is finalized is the object of its node from then on, with the key and the size
-- that it was created with, the node is there, no object of the node was finalized before, and the
-- unique indexes hold as before.
pub finalize_file_object-get :
    (id node_id now : ℕ) (db after : Db) (o : FileObjectRecord)
    → NoClash object_clash db.file_objects
    → finalize_file_object id node_id now db ≡ ok (o, after)
    → (get_file_object_by_node_id node_id db.file_objects ≡ none)
      × (get_file_object_by_node_id node_id after.file_objects ≡ some o)
      × (node_exists node_id after.nodes ≡ true)
      × NoClash object_clash after.file_objects
unfolding get_file_object_by_node_id
finalize_file_object-get id node_id now db after o unique e =
    let (free, here, exists, same) = finalize_cases id node_id now db after o e in
    (
      find-not_any (finalized_of node_id) db.file_objects free,
      ap (λ (d : Db). find (finalized_of node_id) d.file_objects) same
          ∙ attached-found id node_id now db.file_objects o free here,
      ap (λ (d : Db). node_exists node_id d.nodes) same ∙ exists,
      subst (λ (d : Db). NoClash object_clash d.file_objects) (sym same)
          (update_rows-NoClash (λ x. finalized_of node_id x ≡ false) (staged id)
            (attached node_id now) object_clash (attached-clash id node_id now) db.file_objects
            (All-of_not_any (finalized_of node_id) db.file_objects free) unique),
    )

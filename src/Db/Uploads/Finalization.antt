-- ===== src/Db/Uploads/Finalization.antt =====
-- finalize_upload of crates/db/src/lib.rs and its statements.
pub mod Published
use strife.Base.{
  ℕ, String, Option, none, some, List, [], ◌∷◌, Bool, true, false, ◌&&◌, ◌||◌, not, ◌==◌, holds,
  if◌then◌else◌, any, update_rows,
}
use strife.Base.Int.{ℤ, pos}
use strife.Base.Result.{Result, ok, err, ◌>>=◌, ◌>>◌, guard, ok_or, map_err}
use strife.Db.Schema.{
  Db, DbError, unique_violation, protocol, UploadSessionRecord, JobType, JobRecord, NodeRecord,
  NodeKind, FileObjectRecord, FileUploadState,
}
use strife.Db.Nodes.{get_node_by_id, insert_node, new_node}
use strife.Db.Jobs.{enqueue_job}
use strife.Db.Uploads.{is_active, is_completed, get_upload_session, completion_error, complete}

pub data FinalizeUploadError : Type 0 where
  not_found not_active incomplete name_conflict : FinalizeUploadError
  database : DbError → FinalizeUploadError

abbrev pub map_finalize_error : DbError → FinalizeUploadError
map_finalize_error unique_violation = name_conflict
map_finalize_error e = database e

-- What the caller has read from the stored object, and the keys that were drawn.
pub record Finalized : Type 0 where
  pub node_id : ℕ
  pub object_id : ℕ
  pub job_id : ℕ
  pub original_storage_key : ℕ
  pub byte_size : ℕ
  pub mime_type : String
  pub checksum_sha256 : String

abbrev pub is_finalized : FileUploadState → Bool
is_finalized FileUploadState.finalized = true
is_finalized FileUploadState.staging = false

abbrev pub new_object : ℕ → Finalized → ℕ → FileObjectRecord
new_object node_id input now = record {
  id = input.object_id;
  node_id = some node_id;
  storage_key = input.original_storage_key;
  byte_size = input.byte_size;
  mime_type = some input.mime_type;
  checksum_sha256 = some input.checksum_sha256;
  upload_state = FileUploadState.finalized;
  created_at = now;
  updated_at = now;
}

-- The key, and file_objects_one_finalized_per_node. The node was inserted before.
unfoldable pub insert_finalized_object :
    ℕ → Finalized → ℕ → List FileObjectRecord → Result DbError (List FileObjectRecord)
insert_finalized_object node_id input now objects =
    if any
      (λ o. o.id == input.object_id || (is_finalized o.upload_state && holds o.node_id node_id))
      objects
    then err unique_violation
    else ok (new_object node_id input now ∷ objects)

-- ON CONFLICT DO NOTHING, with the priority 0 of the column
unfoldable pub enqueue_metadata_job : ℕ → ℕ → ℕ → List JobRecord → Result DbError (List JobRecord)
enqueue_metadata_job id node_id now jobs = do
  r ← enqueue_job id JobType.metadata_extraction node_id (pos 0) now true jobs
  ok r.1

abbrev pub load_completed_upload_node :
    UploadSessionRecord → List NodeRecord → Result FinalizeUploadError NodeRecord
load_completed_upload_node session nodes = do
  node_id ← ok_or session.completed_node_id (database protocol)
  ok_or (get_node_by_id node_id nodes) not_found

-- session.expected_byte_size.is_some_and(|expected| expected != session.received_bytes)
abbrev pub is_incomplete : Option ℕ → ℕ → Bool
is_incomplete none received = false
is_incomplete (some expected) received = not (expected == received)

abbrev pub uploaded_node : UploadSessionRecord → Finalized → ℕ → NodeRecord
uploaded_node session input now =
    new_node input.node_id session.target_folder_id session.display_name NodeKind.file
      session.source_created_at session.source_modified_at now

unfoldable pub publish :
    UploadSessionRecord → Finalized → ℕ → Db → Result FinalizeUploadError (NodeRecord × Db)
publish session input now db = do
  let node = uploaded_node session input now
  nodes ← map_err map_finalize_error (insert_node node db.nodes)
  objects ← map_err database (insert_finalized_object node.id input now db.file_objects)
  jobs ← map_err database (enqueue_metadata_job input.job_id node.id now db.jobs)
  map_err database (completion_error session.id (some node.id) (record db { nodes = nodes }))
  ok (
    node,
    record db {
      nodes = nodes;
      file_objects = objects;
      jobs = jobs;
      upload_sessions =
          update_rows (λ s. s.id == session.id) (complete input.checksum_sha256 (some node.id) now)
            db.upload_sessions;
    },
  )

unfoldable pub finalize_upload :
    ℕ → Finalized → ℕ → Db → Result FinalizeUploadError (NodeRecord × Db)
finalize_upload session_id input now db = do
  session ← ok_or (get_upload_session session_id db.upload_sessions) not_found
  if is_completed session.state
      then (load_completed_upload_node session db.nodes >>= λ node. ok (node, db))
      else if not (is_active session.state)
      then err not_active
      else if is_incomplete session.expected_byte_size session.received_bytes
      then err incomplete
      else publish session input now db

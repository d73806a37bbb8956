-- ===== src/Api/Uploads/Handlers/Finalization.antt =====
-- finalize_upload of crates/api/src/uploads.rs: the request that publishes an upload.
use strife.Base.{ℕ, String, Option, none, some, List, Bool, true, false, ◌&&◌, not, if◌then◌else◌}
use strife.Base.Result.{Result, ok, err, ◌>>=◌, ok_or}
use strife.Storage.Objects.{
  StoredObject, content_of, move_object, delete, key_in_staging, key_in_originals,
}
use strife.Db.Schema.{Db, NodeRecord, UploadSessionRecord, UploadSessionState}
use strife.Db.Nodes.{get_node_by_id}
use strife.Db.Uploads.{get_session_progress, get_upload_session, is_active, is_completed}
use strife.Db.Uploads.Finalization.{Finalized, FinalizeUploadError, finalize_upload, is_incomplete}
use strife.Importer.{World}
use strife.Api.Uploads.{UploadApiError, not_found, name_conflict, gone, incomplete, internal}
use strife.Api.Folders.{FolderResponse, folder_response}

-- What is read from the staged bytes: the checksum, and the type that the storage detects.
pub record Read : Type 0 where
  pub sha256 : ℕ → String
  pub detect_mime : ℕ → Option String

-- The keys that are drawn: the node's, its object's row's, the job's, and the stored object's.
pub record FinalizeDraws : Type 0 where
  pub node_id : ℕ
  pub object_id : ℕ
  pub job_id : ℕ
  pub original_id : ℕ

abbrev pub finalize_input : FinalizeDraws → ℕ → String → String → Finalized
finalize_input draws received mime checksum = record {
  node_id = draws.node_id;
  object_id = draws.object_id;
  job_id = draws.job_id;
  original_storage_key = draws.original_id;
  byte_size = received;
  mime_type = mime;
  checksum_sha256 = checksum;
}

abbrev pub from_finalize : FinalizeUploadError → UploadApiError
from_finalize FinalizeUploadError.not_found = not_found
from_finalize FinalizeUploadError.not_active = gone
from_finalize FinalizeUploadError.incomplete = incomplete
from_finalize FinalizeUploadError.name_conflict = name_conflict
from_finalize (FinalizeUploadError.database e) = internal

abbrev pub is_not_active : FinalizeUploadError → Bool
is_not_active FinalizeUploadError.not_active = true
is_not_active _ = false

-- UploadSessionState::Cancelled | UploadSessionState::Expired
abbrev pub is_abandoned : Option UploadSessionRecord → Bool
is_abandoned none = false
is_abandoned (some s) = elim s.state [
  | UploadSessionState.cancelled ↦ true
  | UploadSessionState.expired ↦ true
  | _ ↦ false
]

-- let _ = move_object(…)
abbrev or_same : Option (List StoredObject) → List StoredObject → List StoredObject
or_same none objects = objects
or_same (some moved) objects = moved

abbrev pub moved_back : ℕ → ℕ → List StoredObject → List StoredObject
moved_back staging_key original_id objects =
    or_same (move_object (key_in_originals original_id) (key_in_staging staging_key) objects)
      objects

abbrev pub returned : ℕ → ℕ → Bool → List StoredObject → List StoredObject
returned staging_key original_id abandoned objects =
    let back = moved_back staging_key original_id objects in
    if abandoned then delete (key_in_staging staging_key) back else back

-- The end of the handler, after the transaction on the database that it found, `db`.
abbrev pub concluded :
    ℕ
    → UploadSessionRecord
    → ℕ
    → Result FinalizeUploadError (NodeRecord × Db)
    → Db
    → List StoredObject
    → Result UploadApiError FolderResponse × World
concluded session_id session original_id (ok r) db objects =
    (ok (folder_response false r.0), record { db = r.1; objects = objects })
concluded session_id session original_id (err e) db objects = (
  err (from_finalize e),
  record {
    db = db;
    objects =
        returned session.staging_key original_id
          (is_not_active e && is_abandoned (get_upload_session session_id db.upload_sessions))
          objects;
  },
)

abbrev loaded : UploadSessionRecord → List NodeRecord → Result UploadApiError FolderResponse
loaded session nodes = do
  node_id ← ok_or session.completed_node_id internal
  node ← ok_or (get_node_by_id node_id nodes) not_found
  ok (folder_response false node)

-- From the move of the staged object on.
abbrev pub transferred :
    ℕ
    → UploadSessionRecord
    → FinalizeDraws
    → Finalized
    → ℕ
    → Option (List StoredObject)
    → World
    → Db
    → Result UploadApiError FolderResponse × World
transferred session_id session draws input now none w db = (err internal, w)
transferred session_id session draws input now (some objects) w db =
    concluded session_id session draws.original_id (finalize_upload session_id input now db) db
      objects

abbrev pub finalize_staged :
    Read
    → ℕ
    → UploadSessionRecord
    → FinalizeDraws
    → ℕ
    → World
    → Db
    → Result UploadApiError FolderResponse × World
finalize_staged read session_id session draws now w db =
    elim (content_of (key_in_staging session.staging_key) w.objects) [
      | none ↦ (err not_found, w)
      | some content ↦ elim (read.detect_mime content) [
        | none ↦ (err internal, w)
        | some mime ↦
            transferred session_id session draws
              (finalize_input draws session.received_bytes mime (read.sha256 content)) now
              (move_object (key_in_staging session.staging_key) (key_in_originals draws.original_id)
                w.objects)
              w db
      ]
    ]

-- The handler reads the session in `w`; other requests may have changed the database to `db` by the
-- time of its transaction.
unfoldable pub finalize_upload_request :
    Read → ℕ → FinalizeDraws → ℕ → World → Db → Result UploadApiError FolderResponse × World
finalize_upload_request read session_id draws now w db =
    elim (get_session_progress session_id w.db) [
      | none ↦ (err not_found, w)
      | some progress ↦
          if is_completed progress.0.state
          then (loaded progress.0 w.db.nodes, w)
          else if not (is_active progress.0.state)
          then (err gone, w)
          else if is_incomplete progress.0.expected_byte_size progress.0.received_bytes
          then (err incomplete, w)
          else finalize_staged read session_id progress.0 draws now w db
    ]

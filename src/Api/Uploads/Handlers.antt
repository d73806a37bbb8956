-- ===== src/Api/Uploads/Handlers.antt =====
-- The handlers of crates/api/src/uploads.rs over the database and the stored objects: creation, progress,
-- finalization, cancellation and the sweep of expired sessions.
pub mod Created
pub mod Finalization
pub mod Finished
pub mod Loop
pub mod Swept
mod Tests
use strife.Base.{
  ℕ, suc, ◌+◌, String, Option, none, some, List, [], ◌∷◌, map, Bool, true, false, ◌&&◌, ◌||◌, not,
  ◌==◌, is_some, if◌then◌else◌,
}
use strife.Base.Int.{ℤ, pos, negsuc}
use strife.Base.Result.{Result, ok, err, ◌>>=◌, ◌>>◌, guard, ok_or, map_err}
use strife.Storage.{DiskGuard, DiskGuardExceeded, DiskUsage, check}
use strife.Storage.Objects.{
  StoredObject, content_of, put_stream, move_object, delete, key_in_staging, key_in_originals,
}
use strife.Domain.{validate_name}
use strife.Db.Schema.{
  Db, DbError, unique_violation, row_not_found, NodeRecord, UploadSessionRecord, UploadSessionState,
}
use strife.Db.Nodes.{get_node_by_id, active_folder, active_child_name_exists}
use strife.Db.Uploads.{
  CreateUploadSession, create_session, get_session_progress, get_upload_session, ReceivedRange,
  cancel_session, expire_session, list_expired_sessions, list_active_upload_sessions, is_active,
  is_completed,
}
use strife.Db.Uploads.Finalization.{
  Finalized, FinalizeUploadError, finalize_upload, is_incomplete, load_completed_upload_node,
}
use strife.Importer.{World}
use strife.Api.Uploads.{
  UploadApiError, bad_request, not_found, name_conflict, range_conflict, gone, incomplete, internal,
  disk_full,
}
use strife.Api.Folders.{FolderResponse, folder_response}

-- UploadApiError::into_response: the status, the code of the body, and the disk's usage.
abbrev pub response_of : UploadApiError → ℕ × String × Option ℕ
response_of (bad_request message) = (400, "bad_request", none)
response_of not_found = (404, "not_found", none)
response_of name_conflict = (409, "name_conflict", none)
response_of range_conflict = (409, "range_conflict", none)
response_of gone = (410, "upload_inactive", none)
response_of incomplete = (400, "upload_incomplete", none)
response_of (disk_full usage) = (507, "disk_full", some usage)
response_of internal = (500, "internal_error", none)

pub record CreateUploadRequest : Type 0 where
  pub folder_id : ℕ
  pub name : String
  pub size : Option ℤ
  pub source_created_at : Option ℕ
  pub source_modified_at : Option ℕ

-- What the server has and draws: its guard, the volume's usage, the lifetime of a session, and the keys.
pub record Draws : Type 0 where
  pub disk_guard : DiskGuard
  pub usage : DiskUsage
  pub session_ttl : ℕ
  pub session_id : ℕ
  pub staging_key : ℕ

-- A size that is given is not negative.
abbrev checked_size : Option ℤ → Result UploadApiError (Option ℕ)
checked_size none = ok none
checked_size (some (pos n)) = ok (some n)
checked_size (some (negsuc n)) = err (bad_request "Upload size cannot be negative")

abbrev incoming_bytes : Option ℕ → ℕ
incoming_bytes none = 0
incoming_bytes (some n) = n

abbrev found_folder : Option NodeRecord → Result UploadApiError NodeRecord
found_folder none = err not_found
found_folder (some n) = if active_folder n then ok n else err not_found

-- The tests of create_upload before anything is stored: the folder and the size of the new session.
unfoldable pub check_upload :
    CreateUploadRequest → Draws → Db → Result UploadApiError (NodeRecord × Option ℕ)
check_upload request draws db = do
  _ ← map_err (λ _. bad_request "Upload name cannot be empty") (validate_name request.name)
  size ← checked_size request.size
  folder ← found_folder (get_node_by_id request.folder_id db.nodes)
  guard (not (active_child_name_exists folder.id request.name db.nodes)) name_conflict
  _ ←
      map_err (λ (e : DiskGuardExceeded). disk_full e.usage_percent)
        (check draws.disk_guard draws.usage (incoming_bytes size))
  ok (folder, size)

abbrev pub session_input : CreateUploadRequest → Draws → ℕ → Option ℕ → ℕ → CreateUploadSession
session_input request draws folder_id size now = record {
  target_folder_id = folder_id;
  display_name = request.name;
  expected_byte_size = size;
  staging_key = draws.staging_key;
  source_created_at = request.source_created_at;
  source_modified_at = request.source_modified_at;
  expires_at = now + draws.session_ttl;
}

abbrev session_error : DbError → UploadApiError
session_error unique_violation = name_conflict
session_error e = internal

-- The new session's id and staging key, and the state that is left.
abbrev pub session_opened :
    ℕ
    → Result DbError (UploadSessionRecord × Db)
    → Db
    → List StoredObject
    → Result UploadApiError (ℕ × ℕ) × World
session_opened staging_key (ok r) db objects =
    (ok (r.0.id, staging_key), record { db = r.1; objects = objects })
session_opened staging_key (err e) db objects = (
  err (session_error e),
  record { db = db; objects = delete (key_in_staging staging_key) objects },
)

-- 0 stands for the bytes of an empty file.
unfoldable pub create_upload :
    CreateUploadRequest → Draws → ℕ → World → Result UploadApiError (ℕ × ℕ) × World
unfolding check_upload
create_upload request draws now w = elim (check_upload request draws w.db) [
  | err e ↦ (err e, w)
  | ok r ↦
      session_opened draws.staging_key
        (create_session draws.session_id (session_input request draws r.0.id r.1 now) now w.db) w.db
        (put_stream (key_in_staging draws.staging_key) 0 w.objects)
]

pub record UploadSessionResponse : Type 0 where
  pub session_id : ℕ
  pub state : String
  pub display_name : String
  pub received_bytes : ℕ
  pub expected_bytes : Option ℕ
  pub received_ranges : List ReceivedRange
  pub created_at : ℕ
  pub expires_at : ℕ

abbrev pub upload_state_name : UploadSessionState → String
upload_state_name UploadSessionState.active = "active"
upload_state_name UploadSessionState.finalizing = "finalizing"
upload_state_name UploadSessionState.completed = "completed"
upload_state_name UploadSessionState.cancelled = "cancelled"
upload_state_name UploadSessionState.expired = "expired"

abbrev pub progress_response : UploadSessionRecord × List ReceivedRange → UploadSessionResponse
progress_response (s, received) = record {
  session_id = s.id;
  state = upload_state_name s.state;
  display_name = s.display_name;
  received_bytes = s.received_bytes;
  expected_bytes = s.expected_byte_size;
  received_ranges = received;
  created_at = s.created_at;
  expires_at = s.expires_at;
}

unfoldable pub get_upload : ℕ → Db → Result UploadApiError UploadSessionResponse
get_upload session_id db = do
  progress ← ok_or (get_session_progress session_id db) not_found
  ok (progress_response progress)

abbrev responses :
    List UploadSessionRecord → Db → Result UploadApiError (List UploadSessionResponse)
responses [] db = ok []
responses (s ∷ ss) db =
    let rest = responses ss db in
    ok_or (get_session_progress s.id db) not_found >>= λ p.
    rest >>= λ r. ok (progress_response p ∷ r)

unfoldable pub list_uploads : ℕ → Db → Result UploadApiError (List UploadSessionResponse)
list_uploads folder_id db = responses (list_active_upload_sessions folder_id db.upload_sessions) db

abbrev is_cancelled : UploadSessionState → Bool
is_cancelled UploadSessionState.cancelled = true
is_cancelled _ = false

abbrev cancel_error : DbError → UploadApiError
cancel_error row_not_found = not_found
cancel_error e = internal

-- A session that has ended otherwise keeps its state, and is reported as gone.
abbrev pub cancelled_result :
    Result DbError (UploadSessionRecord × Db) → World → Result UploadApiError (Unit {0}) × World
cancelled_result (err e) w = (err (cancel_error e), w)
cancelled_result (ok r) w =
    if is_cancelled r.0.state
    then (ok tt, record { db = r.1; objects = delete (key_in_staging r.0.staging_key) w.objects })
    else (err gone, record w { db = r.1 })

unfoldable pub cancel_upload : ℕ → ℕ → World → Result UploadApiError (Unit {0}) × World
cancel_upload session_id now w = cancelled_result (cancel_session session_id now w.db) w

abbrev is_expired : UploadSessionState → Bool
is_expired UploadSessionState.expired = true
is_expired _ = false

abbrev pub swept_one :
    Result DbError (UploadSessionRecord × Db)
    → World
    → (World → Result DbError ℕ × World)
    → Result DbError ℕ × World
swept_one (err e) w rest = (err e, w)
swept_one (ok r) w rest =
    let after = rest (record w { db = r.1 }) in
    elim after.0 [
      | err e ↦ (err e, after.1)
      | ok n ↦ (ok (if is_expired r.0.state then suc n else n), after.1)
    ]

-- The loop over the overdue sessions. `fails` says for which keys the storage fails: their sessions are
-- left for the next sweep.
unfoldable pub sweep : (ℕ → Bool) → List UploadSessionRecord → ℕ → World → Result DbError ℕ × World
sweep fails [] now w = (ok 0, w)
sweep fails (s ∷ ss) now w =
    if fails s.staging_key
    then sweep fails ss now w
    else let objects = delete (key_in_staging s.staging_key) w.objects in
      swept_one (expire_session s.id now w.db) (record w { objects = objects }) (sweep fails ss now)

unfoldable pub cleanup_expired_uploads : (ℕ → Bool) → ℕ → World → Result DbError ℕ × World
unfolding sweep
cleanup_expired_uploads fails now w =
    sweep fails (list_expired_sessions now w.db.upload_sessions) now w

-- ===== src/Api/Uploads/Handlers/Tests.antt =====
-- The finalization of an upload whose session is cancelled before the transaction, and a sweep.
use strife.Base.{◌≡◌, refl, none, some, List, [], ◌∷◌, true, false}
use strife.Base.Result.{ok, err}
use strife.Base.Text.{codes, parse_i64}
use strife.Storage.Objects.{StoredObject, key_in_staging, key_in_originals, delete, move_object}
use strife.Db.Schema.{Db, UploadSessionRecord, UploadSessionState}
use strife.Db.Samples.{live, three_folders, db_of, session}
use strife.Api.Folders.{folder_response}
use strife.Db.Uploads.{
  complete, set_state, get_session_progress, list_expired_sessions, expire_session,
}
use strife.Db.Uploads.Finalization.{finalize_upload}
use strife.Importer.{World}
use strife.Api.Uploads.{ContentRange, UploadApiError, is_content_range}
use strife.Api.Uploads.Header.{parse_content_range, parse_content_range-is_content_range}
use strife.Api.Uploads.Handlers.{cleanup_expired_uploads, sweep}
use strife.Api.Uploads.Handlers.Finalization.{Read, FinalizeDraws, finalize_upload_request}
use strife.Api.Uploads.Handlers.Finished.{Settled, finalize_upload_request-Settled}
use strife.Api.Uploads.Handlers.Swept.{SessionSwept, ObjectSwept, cleanup_expired_uploads-Swept}

abbrev read : Read
read = record { sha256 = λ c. "c0ffee"; detect_mime = λ c. some "audio/flac" }

abbrev draws : FinalizeDraws
draws = record { node_id = 4; object_id = 80; job_id = 90; original_id = 61 }

abbrev received : UploadSessionRecord
received = record session { received_bytes = 10 }

abbrev with_session : UploadSessionRecord → Db
with_session s = record (db_of three_folders) { upload_sessions = s ∷ [] }

abbrev staged_bytes : List StoredObject
staged_bytes = record { key = key_in_staging 60; content = 9 } ∷ []

abbrev before : World
before = record { db = with_session received; objects = staged_bytes }

abbrev meanwhile : Db
meanwhile = with_session (set_state UploadSessionState.cancelled 115 received)

progress : get_session_progress 50 (with_session received) ≡ some (received, [])
unfolding get_session_progress
progress = refl

-- Nothing is left of the upload.
dropped :
    finalize_upload_request read 50 draws 120 before meanwhile
    ≡ (err UploadApiError.gone, record { db = meanwhile; objects = [] })
unfolding finalize_upload_request get_session_progress finalize_upload move_object delete
dropped = refl

abbrev done : UploadSessionRecord
done = complete "beef" (some 3) 115 received

abbrev done_meanwhile : Db
done_meanwhile = with_session done

-- The session was completed meanwhile with the node 3: the staged bytes stay under the drawn key 61.
left_over : finalize_upload_request read 50 draws 120 before done_meanwhile ≡ (
  ok (folder_response false live),
  record { db = done_meanwhile; objects = record { key = key_in_originals 61; content = 9 } ∷ [] },
)
unfolding finalize_upload_request get_session_progress finalize_upload move_object delete
left_over = refl

finalize_upload_request-Settled_example :
    Settled read 50 draws 120 before meanwhile refl received
      (finalize_upload_request read 50 draws 120 before meanwhile)
finalize_upload_request-Settled_example =
    finalize_upload_request-Settled read 50 draws 120 before meanwhile refl received [] progress
      refl

abbrev overdue_world : World
overdue_world = record { db = with_session session; objects = staged_bytes }

abbrev swept_world : World
swept_world = record {
  db = with_session (set_state UploadSessionState.expired 1001 session);
  objects = [];
}

swept : cleanup_expired_uploads (λ key. false) 1001 overdue_world ≡ (ok 1, swept_world)
unfolding cleanup_expired_uploads sweep list_expired_sessions expire_session delete
swept = refl

cleanup_expired_uploads-Swept_example :
    SessionSwept 1001 (λ key. false) overdue_world swept_world 50 session
    × ObjectSwept 1001 (λ key. false) overdue_world swept_world (key_in_staging 60)
cleanup_expired_uploads-Swept_example =
    cleanup_expired_uploads-Swept (λ key. false) 1001 overdue_world swept_world 1 50 session
      (key_in_staging 60) (refl, tt) swept refl

abbrev half : ContentRange
half = record { start = 4; end = 9; total = some 10 }

half_read : parse_content_range (codes "bytes 4-9/10") ≡ some half
unfolding parse_content_range parse_i64
half_read = refl

parse_content_range-is_content_range_example : is_content_range half ≡ true
parse_content_range-is_content_range_example =
    parse_content_range-is_content_range (codes "bytes 4-9/10") half half_read

-- Minus zero is a number that `parse` reads.
minus_zero :
    parse_content_range (codes "bytes 0--0/*") ≡ some (record { start = 0; end = 0; total = none })
unfolding parse_content_range parse_i64
minus_zero = refl

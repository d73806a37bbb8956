-- ===== src/Api/Uploads/Tests.antt =====
-- The second half of a file of ten bytes, sent as `bytes 4-9/10`.
use strife.Base.{◌≡◌, refl, some, [], ◌∷◌}
use strife.Base.Result.{ok, err}
use strife.Db.Schema.{Db, UploadSessionRecord}
use strife.Db.Samples.{three_folders, db_of, session}
use strife.Db.Uploads.{receive, record_chunk, insert_chunk, byte_count, get_session_progress}
use strife.Storage.Objects.{Body, write_range, put_stream, delete, key_in_staging}
use strife.Importer.{World}
use strife.Api.Uploads.{
  ContentRange, UploadApiError, upload_chunk, check_chunk, record_written, progress_of,
}
use strife.Api.Uploads.Chunk.{Outcome, upload_chunk-Outcome}

abbrev range : ContentRange
range = record { start = 4; end = 9; total = some 10 }

abbrev opened : Db
opened = record (db_of three_folders) { upload_sessions = session ∷ [] }

abbrev half : UploadSessionRecord
half = receive 6 110 session

abbrev half_received : Db
half_received = record opened {
  upload_sessions = half ∷ [];
  upload_chunks = record { id = 70; session_id = 50; start_byte = 4; end_byte = 9 } ∷ [];
}

-- The content 700 stands for the file with this half of it.
abbrev six_bytes : Body
six_bytes = record { size = 6; over = λ old offset. 700 }

abbrev before : World
before = record { db = opened; objects = [] }

abbrev after : World
after = record {
  db = half_received;
  objects = record { key = key_in_staging 60; content = 700 } ∷ [];
}

chunk_accepted : upload_chunk 70 50 range six_bytes 110 before ≡ (ok (progress_of half), after)
unfolding upload_chunk check_chunk record_written write_range put_stream delete get_session_progress
    record_chunk insert_chunk byte_count
chunk_accepted = refl

upload_chunk-Outcome_example :
    Outcome 70 50 range six_bytes 110 before (upload_chunk 70 50 range six_bytes 110 before)
upload_chunk-Outcome_example = upload_chunk-Outcome 70 50 range six_bytes 110 before refl

-- The body is longer than its range: the request is refused, but the bytes are in the staged object.
abbrev too_long : Body
too_long = record { size = 7; over = λ old offset. 701 }

overwritten : upload_chunk 70 50 range too_long 110 before ≡ (
  err (UploadApiError.bad_request "Request body length does not match Content-Range"),
  record before { objects = record { key = key_in_staging 60; content = 701 } ∷ [] },
)
unfolding upload_chunk check_chunk record_written write_range put_stream delete get_session_progress
    record_chunk insert_chunk byte_count
overwritten = refl

-- ===== src/Db/Uploads/Tests.antt =====
-- An upload of ten bytes to the folder Music, in two chunks that arrive out of order.
use strife.Base.{◌≡◌, ◌<◌, refl, none, some, [], ◌∷◌, true, false, arith, any, All, ◌==◌}
use strife.Base.Int.{pos}
use strife.Base.Result.{ok}
use strife.Db.Schema.{Db, NodeRecord, JobType, UploadSessionRecord, UploadChunk}
use strife.Db.Samples.{three_folders, db_of, session}
use strife.Db.Nodes.{get_node_by_id, insert_node}
use strife.Db.Jobs.{enqueue_job, occupies, new_job}
use strife.Db.Uploads.{
  CreateUploadSession, create_session, record_chunk, insert_chunk, byte_count, receive,
  get_upload_session, complete,
}
use strife.Db.Uploads.{cancel_session, set_state, new_session}
use strife.Db.Uploads.Histories.{Step, Reach, IsKept, Reach-closed}
use strife.Db.Schema.{UploadSessionState}
use strife.Db.Uploads.Chunks.{IsReceived, record_chunk-IsReceived, create_session-IsReceived}
use strife.Db.Uploads.Coverage.{covers}
use strife.Db.Uploads.Finalization.{
  Finalized, finalize_upload, publish, insert_finalized_object, enqueue_metadata_job, uploaded_node,
  new_object,
}
use strife.Db.Uploads.Finalization.Published.{
  finalize_upload-published, finalize_upload-again, finalize_upload-received_all,
}

abbrev input : CreateUploadSession
input = record {
  target_folder_id = 2;
  display_name = "song.flac";
  expected_byte_size = some 10;
  staging_key = 60;
  source_created_at = none;
  source_modified_at = none;
  expires_at = 1000;
}

abbrev opened : Db
opened = record (db_of three_folders) { upload_sessions = session ∷ [] }

session_created : create_session 50 input 100 (db_of three_folders) ≡ ok (session, opened)
unfolding create_session
session_created = refl

empty-IsReceived : IsReceived [] []
empty-IsReceived = record { ranges = tt; disjoint = tt; owned = tt; totals = tt }

abbrev half : UploadSessionRecord
half = receive 6 110 session

abbrev half_received : Db
half_received = record opened {
  upload_sessions = half ∷ [];
  upload_chunks = record { id = 70; session_id = 50; start_byte = 4; end_byte = 9 } ∷ [];
}

abbrev whole : UploadSessionRecord
whole = receive 4 120 half

abbrev received : Db
received = record opened {
  upload_sessions = whole ∷ [];
  upload_chunks =
      record { id = 71; session_id = 50; start_byte = 0; end_byte = 3 }
      ∷ record { id = 70; session_id = 50; start_byte = 4; end_byte = 9 }
      ∷ [];
}

second_recorded : record_chunk 70 50 (pos 4) (pos 9) 110 opened ≡ ok (half, half_received)
unfolding record_chunk insert_chunk byte_count
second_recorded = refl

first_recorded : record_chunk 71 50 (pos 0) (pos 3) 120 half_received ≡ ok (whole, received)
unfolding record_chunk insert_chunk byte_count
first_recorded = refl

half-IsReceived : IsReceived half_received.upload_sessions half_received.upload_chunks
half-IsReceived =
    record_chunk-IsReceived 70 50 (pos 4) (pos 9) 110 opened half_received half
      (create_session-IsReceived 50 input 100 (db_of three_folders) opened session empty-IsReceived
        session_created)
      second_recorded

two_chunks-IsReceived : IsReceived received.upload_sessions received.upload_chunks
two_chunks-IsReceived =
    record_chunk-IsReceived 71 50 (pos 0) (pos 3) 120 half_received received whole half-IsReceived
      first_recorded

record_chunk-IsReceived_example : IsReceived received.upload_sessions received.upload_chunks
record_chunk-IsReceived_example =
    record_chunk-IsReceived 71 50 (pos 0) (pos 3) 120 half_received received whole half-IsReceived
      first_recorded

abbrev stored : Finalized
stored = record {
  node_id = 4;
  object_id = 80;
  job_id = 90;
  original_storage_key = 61;
  byte_size = 10;
  mime_type = "audio/flac";
  checksum_sha256 = "c0ffee";
}

abbrev song : NodeRecord
song = uploaded_node whole stored 130

abbrev published : Db
published = record received {
  nodes = song ∷ three_folders;
  file_objects = new_object 4 stored 130 ∷ [];
  jobs = new_job 90 JobType.metadata_extraction 4 (pos 0) 130 ∷ [];
  upload_sessions = complete "c0ffee" (some 4) 130 whole ∷ [];
}

publish_result : finalize_upload 50 stored 130 received ≡ ok (song, published)
unfolding finalize_upload publish insert_node insert_finalized_object enqueue_metadata_job
    enqueue_job
publish_result = refl

finalize_upload-published_example :
    (song ≡ uploaded_node whole stored 130)
    × (get_node_by_id 4 published.nodes ≡ some song)
    × (published.file_objects ≡ new_object 4 stored 130 ∷ [])
    × (get_upload_session 50 published.upload_sessions
        ≡ some (complete "c0ffee" (some 4) 130 whole))
    × (any (occupies JobType.metadata_extraction 4) published.jobs ≡ true)
finalize_upload-published_example =
    finalize_upload-published 50 stored 130 received published song whole refl refl publish_result
      refl

finalize_upload-again_example : finalize_upload 50 stored 140 published ≡ ok (song, published)
finalize_upload-again_example =
    finalize_upload-again 50 stored 130 received published song whole refl refl publish_result
      stored 140

below_ten :
    All (λ (c : UploadChunk). c.session_id == 50 ≡ true → c.end_byte < 10) received.upload_chunks
below_ten = ((λ e. omega arith), ((λ e. omega arith), tt))

below_five : 5 < 10
below_five = omega arith

finalize_upload-received_all_example : any (covers 50 5) received.upload_chunks ≡ true
finalize_upload-received_all_example =
    finalize_upload-received_all 50 stored 130 received published song whole refl refl
      publish_result 10 refl two_chunks-IsReceived below_ten 5 below_five

-- A chunk beyond the expected size counts as well: the upload is finalized though byte 5 is missing.
abbrev beyond : Db
beyond = record opened {
  upload_sessions = receive 6 120 (receive 4 110 session) ∷ [];
  upload_chunks =
      record { id = 71; session_id = 50; start_byte = 20; end_byte = 25 }
      ∷ record { id = 70; session_id = 50; start_byte = 0; end_byte = 3 }
      ∷ [];
}

beyond_recorded :
    record_chunk 71 50 (pos 20) (pos 25) 120 (record opened {
      upload_sessions = receive 4 110 session ∷ [];
      upload_chunks = record { id = 70; session_id = 50; start_byte = 0; end_byte = 3 } ∷ [];
    })
    ≡ ok (receive 6 120 (receive 4 110 session), beyond)
unfolding record_chunk insert_chunk byte_count
beyond_recorded = refl

byte_missing : any (covers 50 5) beyond.upload_chunks ≡ false
byte_missing = refl

-- A cancelled session, and a new one for the same file.
abbrev over : UploadSessionRecord
over = set_state UploadSessionState.cancelled 150 session

abbrev cancelled_only : Db
cancelled_only = record (db_of three_folders) { upload_sessions = over ∷ [] }

session_cancelled : cancel_session 50 150 opened ≡ ok (over, cancelled_only)
unfolding cancel_session
session_cancelled = refl

abbrev second_input : CreateUploadSession
second_input = record input { staging_key = 62 }

abbrev second : UploadSessionRecord
second = new_session 51 second_input 160

abbrev reopened : Db
reopened = record (db_of three_folders) { upload_sessions = second ∷ over ∷ [] }

session_reopened : create_session 51 second_input 160 cancelled_only ≡ ok (second, reopened)
unfolding create_session
session_reopened = refl

Reach-closed_example :
    (u : UploadSessionRecord) × (get_upload_session 50 (second ∷ over ∷ []) ≡ some u)
    × IsKept over u
Reach-closed_example =
    Reach-closed 50 (over ∷ []) (second ∷ over ∷ []) over
      (Reach.step Reach.start
        (Step.creates 51 second_input 160 cancelled_only reopened refl session_reopened))
      refl refl

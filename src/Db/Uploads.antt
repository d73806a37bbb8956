-- ===== src/Db/Uploads.antt =====
-- The upload sessions of crates/db/src/lib.rs: their creation, the record of chunks, and their ends.
pub mod Chunks
pub mod Coverage
pub mod Finalization
pub mod Histories
mod Tests
use strife.Base.{
  ℕ, suc, ◌+◌, ◌-◌, String, Option, none, some, List, [], ◌∷◌, Bool, true, false, ◌&&◌, ◌||◌, not,
  ltb, leb, ◌==◌, holds, str_eq, if◌then◌else◌, any, where_rows, update_rows, updated, order_by,
}
use strife.Base.Int.{ℤ, pos, negsuc}
use strife.Base.Rows.{row}
use strife.Base.Result.{Result, ok, err, ◌>>=◌, ◌>>◌, guard, ok_or, map_err}
use strife.Db.Schema.{
  Db, DbError, unique_violation, foreign_key_violation, check_violation, numeric_out_of_range,
  row_not_found, protocol, UploadSessionState, UploadSessionRecord, UploadChunk, JobType,
  NodeRecord, NodeKind, FileObjectRecord, FileUploadState, finalized,
}
use strife.Db.Nodes.{get_node_by_id, node_exists, insert_node, new_node}
use strife.Db.Jobs.{enqueue_job}

-- i64::MAX, the largest BIGINT
abbrev pub i64_max : ℕ
i64_max = 9223372036854775807

abbrev pub is_active : UploadSessionState → Bool
is_active UploadSessionState.active = true
is_active _ = false

abbrev pub is_completed : UploadSessionState → Bool
is_completed UploadSessionState.completed = true
is_completed _ = false

-- state IN ('active', 'finalizing')
abbrev pub is_open : UploadSessionState → Bool
is_open UploadSessionState.active = true
is_open UploadSessionState.finalizing = true
is_open _ = false

abbrev pub get_upload_session : ℕ → List UploadSessionRecord → Option UploadSessionRecord
get_upload_session = row (λ s. s.id)

-- The primary key, UNIQUE (staging_key), and upload_sessions_active_folder_name_unique.
abbrev pub session_clash : UploadSessionRecord → UploadSessionRecord → Bool
session_clash a b =
    b.id == a.id
    || (b.staging_key == a.staging_key
        || ((is_open a.state && is_open b.state)
            && (b.target_folder_id == a.target_folder_id && str_eq b.display_name a.display_name)))

pub record CreateUploadSession : Type 0 where
  pub target_folder_id : ℕ
  pub display_name : String
  pub expected_byte_size : Option ℕ
  pub staging_key : ℕ
  pub source_created_at : Option ℕ
  pub source_modified_at : Option ℕ
  pub expires_at : ℕ

abbrev pub new_session : ℕ → CreateUploadSession → ℕ → UploadSessionRecord
new_session id input now = record {
  id = id;
  target_folder_id = input.target_folder_id;
  display_name = input.display_name;
  expected_byte_size = input.expected_byte_size;
  received_bytes = 0;
  staging_key = input.staging_key;
  state = UploadSessionState.active;
  checksum_sha256 = none;
  completed_node_id = none;
  source_created_at = input.source_created_at;
  source_modified_at = input.source_modified_at;
  expires_at = input.expires_at;
  created_at = now;
  updated_at = now;
}

-- The expected size is not negative: `create_upload` tests it before.
unfoldable pub create_session :
    ℕ → CreateUploadSession → ℕ → Db → Result DbError (UploadSessionRecord × Db)
create_session id input now db =
    let session = new_session id input now in
    if str_eq input.display_name ""
    then err check_violation
    else if any (session_clash session) db.upload_sessions
    then err unique_violation
    else if node_exists input.target_folder_id db.nodes
    then ok (session, record db { upload_sessions = session ∷ db.upload_sessions })
    else err foreign_key_violation

pub data RecordChunkError : Type 0 where
  not_found not_active overlap : RecordChunkError
  database : DbError → RecordChunkError

abbrev pub leb_pos : ℕ → ℤ → Bool
leb_pos a (pos b) = leb a b
leb_pos a (negsuc b) = false

abbrev pub pos_leb : ℤ → ℕ → Bool
pos_leb (pos a) b = leb a b
pos_leb (negsuc a) b = true

-- session_id = $1 AND start_byte <= $3 AND end_byte >= $2
abbrev pub overlaps : ℕ → ℤ → ℤ → UploadChunk → Bool
overlaps session_id start_byte end_byte c =
    c.session_id == session_id && (leb_pos c.start_byte end_byte && pos_leb start_byte c.end_byte)

-- INSERT INTO upload_chunks: CHECK (start_byte >= 0 AND end_byte >= start_byte) and the key. The
-- index on exact ranges forbids less than the test of overlap before.
unfoldable pub insert_chunk : ℕ → ℕ → ℤ → ℤ → List UploadChunk → Result DbError (List UploadChunk)
insert_chunk id session_id (pos s) (pos e) chunks =
    if leb s e
    then (if any (λ c. c.id == id) chunks
        then err unique_violation
        else ok
            (record { id = id; session_id = session_id; start_byte = s; end_byte = e } ∷ chunks))
    else err check_violation
insert_chunk id session_id (pos s) (negsuc e) chunks = err check_violation
insert_chunk id session_id (negsuc s) e chunks = err check_violation

-- end_byte.checked_sub(start_byte)?.checked_add(1), for a range that the CHECK has let through
unfoldable pub byte_count : ℤ → ℤ → Result DbError ℕ
byte_count (pos s) (pos e) = if leb (suc (e - s)) i64_max then ok (suc (e - s)) else err protocol
byte_count (pos s) (negsuc e) = err protocol
byte_count (negsuc s) e = err protocol

abbrev pub receive : ℕ → ℕ → UploadSessionRecord → UploadSessionRecord
receive bytes now s = record s { received_bytes = s.received_bytes + bytes; updated_at = now }

unfoldable pub record_chunk :
    ℕ → ℕ → ℤ → ℤ → ℕ → Db → Result RecordChunkError (UploadSessionRecord × Db)
record_chunk id session_id start_byte end_byte now db = do
  session ← ok_or (get_upload_session session_id db.upload_sessions) not_found
  guard (is_active session.state) not_active
  guard (not (any (overlaps session_id start_byte end_byte) db.upload_chunks)) overlap
  chunks ← map_err database (insert_chunk id session_id start_byte end_byte db.upload_chunks)
  bytes ← map_err database (byte_count start_byte end_byte)
  guard (leb (session.received_bytes + bytes) i64_max) (database numeric_out_of_range)
  ok (
    receive bytes now session,
    record db {
      upload_sessions =
          update_rows (λ s. s.id == session_id) (receive bytes now) db.upload_sessions;
      upload_chunks = chunks;
    },
  )

pub record ReceivedRange : Type 0 where
  pub start_byte : ℕ
  pub end_byte : ℕ

abbrev ranges : List UploadChunk → List ReceivedRange
ranges [] = []
ranges (c ∷ cs) = record { start_byte = c.start_byte; end_byte = c.end_byte } ∷ ranges cs

unfoldable pub get_session_progress : ℕ → Db → Option (UploadSessionRecord × List ReceivedRange)
get_session_progress session_id db = elim (get_upload_session session_id db.upload_sessions) [
  | none ↦ none
  | some session ↦ some (
    session,
    ranges (
        order_by (λ a b. leb a.start_byte b.start_byte)
          (where_rows (λ c. c.session_id == session_id) db.upload_chunks)),
  )
]

-- completed_node_id REFERENCES nodes, UNIQUE, for the row of `session_id`
abbrev pub completion_error : ℕ → Option ℕ → Db → Result DbError (Unit {0})
completion_error session_id none db = ok tt
completion_error session_id (some node) db =
    if any (λ s. not (s.id == session_id) && holds s.completed_node_id node) db.upload_sessions
    then err unique_violation
    else guard (node_exists node db.nodes) foreign_key_violation

abbrev pub complete : String → Option ℕ → ℕ → UploadSessionRecord → UploadSessionRecord
complete checksum node now s = record s {
  state = UploadSessionState.completed;
  checksum_sha256 = some checksum;
  completed_node_id = node;
  updated_at = now;
}

-- An UPDATE of the sessions … RETURNING *
abbrev pub update_session :
    (UploadSessionRecord → Bool)
    → (UploadSessionRecord → UploadSessionRecord)
    → Db
    → Option (UploadSessionRecord × Db)
update_session p f db = elim (updated p f db.upload_sessions) [
  | none ↦ none
  | some s ↦ some (s, record db { upload_sessions = update_rows p f db.upload_sessions })
]

-- state IN ('active', 'finalizing', 'completed')
unfoldable pub finalize_session :
    ℕ → String → Option ℕ → ℕ → Db → Result DbError (UploadSessionRecord × Db)
finalize_session session_id checksum node now db = do
  let p =
      λ (s : UploadSessionRecord). s.id == session_id && (is_open s.state || is_completed s.state)
  r ← ok_or (update_session p (complete checksum node now) db) row_not_found
  completion_error session_id node db
  ok r

-- The row after an UPDATE that may change it, else the row that is there.
abbrev pub or_stable :
    ℕ → Option (UploadSessionRecord × Db) → Db → Result DbError (UploadSessionRecord × Db)
or_stable session_id (some r) db = ok r
or_stable session_id none db = do
  s ← ok_or (get_upload_session session_id db.upload_sessions) row_not_found
  ok (s, db)

abbrev pub set_state : UploadSessionState → ℕ → UploadSessionRecord → UploadSessionRecord
set_state state now s = record s { state = state; updated_at = now }

unfoldable pub cancel_session : ℕ → ℕ → Db → Result DbError (UploadSessionRecord × Db)
cancel_session session_id now db =
    or_stable session_id
      (update_session (λ s. s.id == session_id && is_open s.state)
        (set_state UploadSessionState.cancelled now) db)
      db

-- state = 'active' AND expires_at < now()
abbrev pub overdue : ℕ → UploadSessionRecord → Bool
overdue now s = is_active s.state && ltb s.expires_at now

unfoldable pub expire_session : ℕ → ℕ → Db → Result DbError (UploadSessionRecord × Db)
expire_session session_id now db =
    or_stable session_id
      (update_session (λ s. s.id == session_id && overdue now s)
        (set_state UploadSessionState.expired now) db)
      db

unfoldable pub list_expired_sessions : ℕ → List UploadSessionRecord → List UploadSessionRecord
list_expired_sessions now sessions =
    order_by
      (λ a b. if a.expires_at == b.expires_at then leb a.id b.id else leb a.expires_at b.expires_at)
      (where_rows (overdue now) sessions)

unfoldable pub list_active_upload_sessions : ℕ → List UploadSessionRecord → List UploadSessionRecord
list_active_upload_sessions folder_id sessions =
    order_by
      (λ a b. if a.created_at == b.created_at then leb a.id b.id else leb a.created_at b.created_at)
      (where_rows (λ s. s.target_folder_id == folder_id && is_active s.state) sessions)

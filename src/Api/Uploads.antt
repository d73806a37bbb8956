-- ===== src/Api/Uploads.antt =====
-- upload_chunk of crates/api/src/uploads.rs, for a Content-Range that has been parsed.
pub mod Chunk
pub mod Header
pub mod Handlers
mod Tests
use strife.Base.{
  ℕ, suc, ◌+◌, ◌-◌, ◌≤◌, ◌<◌, ◌≡◌, refl, sym, String, Option, none, some, List, [], ◌∷◌, Bool, true,
  false, ◌&&◌, ◌||◌, not, arith, inl, inr, leb, ltb, ◌==◌, ==_iff, if◌then◌else◌, any, Option-cases,
  Bool-cases,
}
use strife.Base.Int.{ℤ, pos}
use strife.Base.Result.{Result, ok, err, ◌>>=◌, ◌>>◌, guard, ok_or, map_err, Result-cases}
use strife.Storage.Objects.{StoredObject, Body, write_range, key_in_staging}
use strife.Importer.{World}
use strife.Db.Schema.{Db, UploadSessionRecord}
use strife.Db.Uploads.{
  get_session_progress, get_upload_session, record_chunk, RecordChunkError, ReceivedRange,
  is_active, i64_max,
}

pub data UploadApiError : Type 0 where
  bad_request : String → UploadApiError
  not_found name_conflict range_conflict gone incomplete internal : UploadApiError
  disk_full : ℕ → UploadApiError

-- What parse_content_range returns: 0 <= start <= end, and a total above end.
pub record ContentRange : Type 0 where
  pub start : ℕ
  pub end : ℕ
  pub total : Option ℕ

abbrev pub below_total : Option ℕ → ℕ → Bool
below_total none end = true
below_total (some total) end = ltb end total

-- The tests of parse_content_range on the numbers, which are i64.
abbrev pub is_content_range : ContentRange → Bool
is_content_range r = leb r.start r.end && (leb r.end i64_max && below_total r.total r.end)

pub record UploadProgressResponse : Type 0 where
  pub received_bytes : ℕ
  pub expected_bytes : Option ℕ
  pub complete : Bool

abbrev pub same_size : Option ℕ → Option ℕ → Bool
same_size none none = true
same_size (some a) (some b) = a == b
same_size _ _ = false

abbrev pub is_given : Option ℕ → Bool
is_given none = false
is_given (some a) = true

-- session.expected_byte_size.is_some_and(|expected| session.received_bytes == expected)
abbrev pub is_complete : Option ℕ → ℕ → Bool
is_complete none received = false
is_complete (some expected) received = received == expected

abbrev pub map_record_error : RecordChunkError → UploadApiError
map_record_error RecordChunkError.not_found = not_found
map_record_error RecordChunkError.not_active = gone
map_record_error RecordChunkError.overlap = range_conflict
map_record_error (RecordChunkError.database e) = internal

abbrev pub progress_of : UploadSessionRecord → UploadProgressResponse
progress_of s = record {
  received_bytes = s.received_bytes;
  expected_bytes = s.expected_byte_size;
  complete = is_complete s.expected_byte_size s.received_bytes;
}

-- What is tested before the body is written.
unfoldable pub check_chunk : ℕ → ContentRange → Db → Result UploadApiError UploadSessionRecord
check_chunk session_id range db = do
  progress ← ok_or (get_session_progress session_id db) not_found
  guard (is_active progress.0.state) gone
  guard (not (is_given range.total && not (same_size range.total progress.0.expected_byte_size)))
      (bad_request "Content-Range total does not match the upload session")
  guard
      (not (
        any (λ (r : ReceivedRange). leb r.start_byte range.end && leb range.start r.end_byte)
          progress.1))
      range_conflict
  ok progress.0

-- What follows the writing of `written` bytes.
unfoldable pub record_written :
    ℕ → ℕ → ContentRange → ℕ → ℕ → Db → Result UploadApiError (UploadProgressResponse × Db)
record_written id session_id range written now db = do
  guard (leb (suc (range.end - range.start)) i64_max) (bad_request "Invalid byte range")
  guard (written == suc (range.end - range.start))
      (bad_request "Request body length does not match Content-Range")
  r ← map_err map_record_error (record_chunk id session_id (pos range.start) (pos range.end) now db)
  ok (progress_of r.0, r.1)

abbrev pub with_db :
    Result UploadApiError (UploadProgressResponse × Db)
    → World
    → Result UploadApiError UploadProgressResponse × World
with_db (err e) w = (err e, w)
with_db (ok r) w = (ok r.0, record w { db = r.1 })

-- The body is in the staged object before its length and the chunk are tested.
abbrev pub written_chunk :
    ℕ
    → ℕ
    → ContentRange
    → ℕ
    → UploadSessionRecord
    → ℕ × List StoredObject
    → World
    → Result UploadApiError UploadProgressResponse × World
written_chunk id session_id range now session r w =
    with_db (record_written id session_id range r.0 now w.db) (record w { objects = r.1 })

unfoldable pub upload_chunk :
    ℕ → ℕ → ContentRange → Body → ℕ → World → Result UploadApiError UploadProgressResponse × World
upload_chunk id session_id range body now w = elim (check_chunk session_id range w.db) [
  | err e ↦ (err e, w)
  | ok session ↦
      written_chunk id session_id range now session
        (write_range (key_in_staging session.staging_key) range.start body w.objects) w
]

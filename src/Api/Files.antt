-- ===== src/Api/Files.antt =====
-- crates/api/src/files.rs: downloads and native previews of a file's original bytes.
pub mod Range
pub mod Served
pub mod Cached
pub mod Status
mod Tests
use strife.Base.{
  ℕ, String, Option, none, some, List, [], ◌∷◌, ◌++◌, map, Bool, true, false, ◌&&◌, ◌||◌, not, ◌==◌,
  if◌then◌else◌,
}
use strife.Base.Result.{Result, ok, err, ◌>>=◌, ◌>>◌, guard, ok_or, map_err}
use strife.Base.Text.{Text, codes, starts_with, same_text, to_text}
use strife.Db.Schema.{Db}
use strife.Db.Files.{DownloadFileRecord, get_download_file}
use strife.Storage.Objects.{StoredObject, Reader, get_stream, get_range, key_in_originals}
use strife.Api.Files.Range.{ByteRange, RangeError, HeaderValue, length, parse_range}

pub data DownloadError : Type 0 where
  not_found internal : DownloadError
  range : ℕ → DownloadError

-- A response: its status, the headers that depend on the request, and its body.
pub record Response : Type 0 where
  pub status : ℕ
  pub content_length : Option ℕ
  pub content_type : Option Text
  pub content_disposition : Option Text
  pub cache_control : Option Text
  pub content_range : Option Text
  pub body : Option Reader

abbrev pub is_native_preview_mime : Text → Bool
is_native_preview_mime mime =
    starts_with (codes "image/") mime
    || (starts_with (codes "video/") mime
        || (starts_with (codes "audio/") mime || same_text mime (codes "application/pdf")))

abbrev pub is_unsafe : ℕ → Bool
is_unsafe c = (c == 13 || c == 10) || (c == 0 || (c == b'"' || c == b'\\'))

abbrev pub safe_char : ℕ → ℕ
safe_char c = if is_unsafe c then b'_' else c

unfoldable pub safe_filename : Text → Text
safe_filename = map safe_char

abbrev pub mime_of : Option String → Text
mime_of none = codes "application/octet-stream"
mime_of (some mime) = codes mime

-- The Range header, where there is one, against the file's size.
abbrev pub requested_range : Option HeaderValue → ℕ → Result DownloadError (Option ByteRange)
requested_range none total = ok none
requested_range (some value) total =
    map_err (λ _. range total) (parse_range value total) >>= λ r. ok (some r)

-- `bytes start-end/total`
abbrev pub content_range : ByteRange → ℕ → Text
content_range r total =
    codes "bytes " ++ ((to_text r.start ++ (b'-' ∷ to_text r.end)) ++ (b'/' ∷ to_text total))

abbrev pub disposition : Bool → Text → Text
disposition inline name =
    (if inline then codes "inline" else codes "attachment")
    ++ (codes "; filename=\"" ++ (safe_filename name ++ (b'"' ∷ [])))

abbrev pub read_original : (ℕ → ℕ) → ℕ → Option ByteRange → List StoredObject → Option Reader
read_original size_of key none objects = get_stream size_of (key_in_originals key) objects
read_original size_of key (some r) objects =
    get_range size_of (key_in_originals key) r.start (length r) objects

abbrev pub original_response : Bool → DownloadFileRecord → Option ByteRange → Reader → Response
original_response inline file none reader = record {
  status = 200;
  content_length = some file.byte_size;
  content_type = some (mime_of file.mime_type);
  content_disposition = some (disposition inline (codes file.display_name));
  cache_control = if inline then some (codes "private, max-age=3600") else none;
  content_range = none;
  body = some reader;
}
original_response inline file (some r) reader = record {
  status = 206;
  content_length = some (length r);
  content_type = some (mime_of file.mime_type);
  content_disposition = some (disposition inline (codes file.display_name));
  cache_control = if inline then some (codes "private, max-age=3600") else none;
  content_range = some (content_range r file.byte_size);
  body = some reader;
}

-- `size_of` is the length of a content. Every stored key is a UUID and every size an u64.
unfoldable pub try_serve_original :
    (ℕ → ℕ) → ℕ → Option HeaderValue → Bool → Db → List StoredObject → Result DownloadError Response
try_serve_original size_of node_id header inline db objects = do
  file ← ok_or (get_download_file node_id db) not_found
  guard (not (inline && not (is_native_preview_mime (mime_of file.mime_type)))) not_found
  r ← requested_range header file.byte_size
  reader ← ok_or (read_original size_of file.storage_key r objects) not_found
  ok (original_response inline file r reader)

abbrev pub status_response : ℕ → Response
status_response status = record {
  status = status;
  content_length = none;
  content_type = none;
  content_disposition = none;
  cache_control = none;
  content_range = none;
  body = none;
}

-- DownloadError::into_response
abbrev pub into_response : DownloadError → Response
into_response not_found = status_response 404
into_response internal = status_response 500
into_response (range total) = record (status_response 416) {
  content_range = some (codes "bytes */" ++ to_text total);
}

abbrev unwrap_or_else : Result DownloadError Response → Response
unwrap_or_else (ok r) = r
unwrap_or_else (err e) = into_response e

abbrev pub download_file : (ℕ → ℕ) → ℕ → Option HeaderValue → Db → List StoredObject → Response
download_file size_of node_id header db objects =
    unwrap_or_else (try_serve_original size_of node_id header false db objects)

abbrev pub preview_native : (ℕ → ℕ) → ℕ → Option HeaderValue → Db → List StoredObject → Response
preview_native size_of node_id header db objects =
    unwrap_or_else (try_serve_original size_of node_id header true db objects)

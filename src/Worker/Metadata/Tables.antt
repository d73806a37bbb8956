-- ===== src/Worker/Metadata/Tables.antt =====
-- The rows that extract of crates/worker/src/metadata.rs writes: records, base metadata and streams.
use strife.Base.{
  ℕ, String, Option, none, some, List, [], ◌∷◌, Bool, true, false, ◌&&◌, ◌||◌, not, ◌==◌, is_some,
  str_eq, if◌then◌else◌, any, find, update_rows,
}
use strife.Base.Int.{ℤ}
use strife.Base.Result.{Result, ok, err}
use strife.Base.Text.{Text, codes, starts_with, same_text, and_then}
use strife.Db.Schema.{DbError, check_violation, FileObjectRecord}
use strife.Db.Metadata.{
  MetadataStatus, MediaKind, image, video, audio, document, MetadataRecord, MediaStreamType,
  MediaStreamInput, NodeMetadata, MetadataTables, not_negative,
}
use strife.Media.Exif.{ExifResult}
use strife.Media.Ffprobe.{FfprobeResult, StreamInfo, StreamType}

pub record TikaResult : Type 0 where
  pub page_count : Option ℤ
  pub title : Option String
  pub author : Option String
  pub warnings : List String
  pub raw_payload : ℕ

-- The extractors of crates/media, which run external programs on a content, or fail with a message.
pub record Extractors : Type 0 where
  pub detect_mime : ℕ → Option Text
  pub extract_exif : ℕ → Result String ExifResult
  pub extract_ffprobe : ℕ → Result String FfprobeResult
  pub extract_tika : ℕ → Result String TikaResult
  pub error_payload : String → ℕ
  pub identity_payload : Text → FileObjectRecord → ℕ

-- The ids that are drawn: of the record of each extractor, and of each stream's row.
pub record MetadataIds : Type 0 where
  pub record_id : String → ℕ
  pub stream_id : StreamInfo → ℕ

pub data ExtractError : Type 0 where
  no_file unreadable unknown_mime : ExtractError
  extractor : String → ExtractError
  database : DbError → ExtractError

-- What a job leaves of the tables, whether it fails or not.
pub record Extracted : Type 0 where
  pub outcome : Result ExtractError (Unit {0})
  pub tables : MetadataTables

abbrev pub is_document_mime : Text → Bool
is_document_mime mime =
    same_text mime (codes "application/pdf")
    || (same_text mime (codes "application/msword")
        || same_text mime
            (codes "application/vnd.openxmlformats-officedocument.wordprocessingml.document"))

abbrev pub media_kind : Text → MediaKind
media_kind mime =
    if starts_with (codes "image/") mime
    then image
    else if starts_with (codes "video/") mime
    then video
    else if starts_with (codes "audio/") mime
    then audio
    else if is_document_mime mime
    then document
    else MediaKind.other

abbrev pub same_record : ℕ → String → MetadataRecord → Bool
same_record node_id name r = r.node_id == node_id && str_eq r.extractor_name name

abbrev pub set_record :
    String → MetadataStatus → ℕ → List String → ℕ → MetadataRecord → MetadataRecord
set_record version status payload warnings now r = record r {
  extractor_version = version;
  status = status;
  raw_payload = payload;
  warnings = warnings;
  updated_at = now;
}

abbrev pub new_record :
    ℕ → ℕ → String → String → MetadataStatus → ℕ → List String → ℕ → MetadataRecord
new_record id node_id name version status payload warnings now = record {
  id = id;
  node_id = node_id;
  extractor_name = name;
  extractor_version = version;
  status = status;
  raw_payload = payload;
  warnings = warnings;
  created_at = now;
  updated_at = now;
}

-- INSERT … ON CONFLICT (node_id, extractor_name) DO UPDATE, for a node that is there. A new id is drawn.
unfoldable pub persist_record :
    ℕ
    → ℕ
    → String
    → String
    → MetadataStatus
    → ℕ
    → List String
    → ℕ
    → List MetadataRecord
    → List MetadataRecord
persist_record id node_id name version status payload warnings now records =
    if any (same_record node_id name) records
    then update_rows (same_record node_id name) (set_record version status payload warnings now)
        records
    else new_record id node_id name version status payload warnings now ∷ records

abbrev base_metadata : ℕ → Text → ℕ → NodeMetadata
base_metadata node_id mime now = record {
  node_id = node_id;
  detected_mime = mime;
  media_kind = media_kind mime;
  duration_ms = none;
  width = none;
  height = none;
  page_count = none;
  orientation = none;
  has_gps = false;
  gps_latitude = none;
  gps_longitude = none;
  camera_make = none;
  camera_model = none;
  document_title = none;
  document_author = none;
  updated_at = now;
}

abbrev pub metadata_of : ℕ → NodeMetadata → Bool
metadata_of node_id m = m.node_id == node_id

unfoldable pub upsert_base_metadata : ℕ → Text → ℕ → List NodeMetadata → List NodeMetadata
upsert_base_metadata node_id mime now rows =
    if any (metadata_of node_id) rows
    then update_rows (metadata_of node_id)
        (λ m. record m { detected_mime = mime; media_kind = media_kind mime; updated_at = now })
        rows
    else base_metadata node_id mime now ∷ rows

abbrev pub same_presence : Bool → Bool → Bool
same_presence true true = true
same_presence false false = true
same_presence _ _ = false

-- The CHECK constraints of node_metadata.
abbrev pub metadata_allowed : NodeMetadata → Bool
metadata_allowed m =
    ((not_negative m.width && not_negative m.height)
      && (not_negative m.duration_ms && not_negative m.page_count))
    && (same_presence (is_some m.gps_latitude) (is_some m.gps_longitude)
        && same_presence m.has_gps (is_some m.gps_latitude))

-- UPDATE node_metadata SET f WHERE node_id = $1: a row that breaks a CHECK is refused.
abbrev pub update_metadata :
    ℕ → (NodeMetadata → NodeMetadata) → List NodeMetadata → Result DbError (List NodeMetadata)
update_metadata node_id f rows =
    if any (λ m. metadata_of node_id m && not (metadata_allowed (f m))) rows
    then err check_violation
    else ok (update_rows (metadata_of node_id) f rows)

abbrev pub set_exif : ExifResult → ℕ → NodeMetadata → NodeMetadata
set_exif exif now m = record m {
  width = exif.width;
  height = exif.height;
  orientation = exif.orientation;
  camera_make = exif.camera_make;
  camera_model = exif.camera_model;
  has_gps = is_some exif.gps_latitude && is_some exif.gps_longitude;
  gps_latitude = exif.gps_latitude;
  gps_longitude = exif.gps_longitude;
  updated_at = now;
}

abbrev is_video : StreamInfo → Bool
is_video s = elim s.stream_type [ StreamType.video ↦ true | _ ↦ false ]

abbrev pub set_probe : FfprobeResult → ℕ → NodeMetadata → NodeMetadata
set_probe probe now m = record m {
  duration_ms = probe.duration_ms;
  width = and_then (find is_video probe.streams) (λ (s : StreamInfo). s.width);
  height = and_then (find is_video probe.streams) (λ (s : StreamInfo). s.height);
  updated_at = now;
}

abbrev pub set_tika : TikaResult → ℕ → NodeMetadata → NodeMetadata
set_tika tika now m = record m {
  page_count = tika.page_count;
  document_title = tika.title;
  document_author = tika.author;
  updated_at = now;
}

abbrev stored_type : StreamType → Option MediaStreamType
stored_type StreamType.video = some MediaStreamType.video
stored_type StreamType.audio = some MediaStreamType.audio
stored_type StreamType.subtitle = some MediaStreamType.subtitle
stored_type StreamType.other_stream = none

-- A stream of another type is left out.
abbrev pub stream_input : StreamInfo → Option MediaStreamInput
stream_input s = and_then (stored_type s.stream_type) λ t. some (record {
  stream_index = s.stream_index;
  stream_type = t;
  codec = s.codec;
  width = s.width;
  height = s.height;
  duration_ms = s.duration_ms;
  bitrate_bps = s.bitrate_bps;
  frame_rate = s.frame_rate;
  language = s.language;
})

abbrev keep :
    ℕ → Option MediaStreamInput → List (ℕ × MediaStreamInput) → List (ℕ × MediaStreamInput)
keep id none rest = rest
keep id (some s) rest = (id, s) ∷ rest

-- filter_map, with the id that is drawn for each row
abbrev pub stream_inputs : (StreamInfo → ℕ) → List StreamInfo → List (ℕ × MediaStreamInput)
stream_inputs draw [] = []
stream_inputs draw (s ∷ ss) = keep (draw s) (stream_input s) (stream_inputs draw ss)

abbrev pub with_records : List MetadataRecord → MetadataTables → MetadataTables
with_records records tables = record tables { metadata_records = records }

abbrev pub finish_metadata : Result DbError (List NodeMetadata) → MetadataTables → Extracted
finish_metadata (ok rows) tables = record {
  outcome = ok tt;
  tables = record tables { node_metadata = rows };
}
finish_metadata (err e) tables = record { outcome = err (database e); tables = tables }

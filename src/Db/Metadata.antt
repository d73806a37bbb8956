-- ===== src/Db/Metadata.antt =====
-- The tables `metadata_records`, `media_streams` and `node_metadata`: the statements of
-- crates/db/src/lib.rs on them, and those of crates/worker/src/metadata.rs.
pub mod Streams
use strife.Base.{
  ℕ, String, Option, none, some, List, [], ◌∷◌, ◌++◌, Bool, true, false, ◌&&◌, ◌||◌, not, ◌==◌, ltb,
  leb, str_eq, if◌then◌else◌, any, where_rows, update_rows, order_by, take,
}
use strife.Base.Int.{ℤ, pos, negsuc, eq_ℤ}
use strife.Base.Result.{Result, ok, err, ◌>>=◌}
use strife.Base.Text.{Text}
use strife.Db.Schema.{DbError, unique_violation, foreign_key_violation, check_violation, JobRecord}
use strife.Db.Jobs.{enqueue_each}

pub data MetadataStatus : Type 0 where
  pending completed failed unsupported : MetadataStatus

pub data MediaStreamType : Type 0 where
  video audio subtitle : MediaStreamType

pub data MediaKind : Type 0 where
  document image video audio other : MediaKind

-- A row of `metadata_records`. A number stands for a JSON value.
pub record MetadataRecord : Type 0 where
  pub id : ℕ
  pub node_id : ℕ
  pub extractor_name : String
  pub extractor_version : String
  pub status : MetadataStatus
  pub raw_payload : ℕ
  pub warnings : List String
  pub created_at : ℕ
  pub updated_at : ℕ

pub record MediaStreamInput : Type 0 where
  pub stream_index : ℤ
  pub stream_type : MediaStreamType
  pub codec : String
  pub width : Option ℤ
  pub height : Option ℤ
  pub duration_ms : Option ℤ
  pub bitrate_bps : Option ℤ
  pub frame_rate : Option String
  pub language : Option String

-- A row of `media_streams`.
pub record MediaStream : Type 0 where
  pub id : ℕ
  pub node_id : ℕ
  pub stream : MediaStreamInput
  pub created_at : ℕ

-- A row of `node_metadata`. A number stands for a coordinate.
pub record NodeMetadata : Type 0 where
  pub node_id : ℕ
  pub detected_mime : Text
  pub media_kind : MediaKind
  pub duration_ms : Option ℤ
  pub width : Option ℤ
  pub height : Option ℤ
  pub page_count : Option ℤ
  pub orientation : Option ℤ
  pub has_gps : Bool
  pub gps_latitude : Option ℕ
  pub gps_longitude : Option ℕ
  pub camera_make : Option String
  pub camera_model : Option String
  pub document_title : Option String
  pub document_author : Option String
  pub updated_at : ℕ

pub record MetadataTables : Type 0 where
  pub metadata_records : List MetadataRecord
  pub media_streams : List MediaStream
  pub node_metadata : List NodeMetadata

-- x IS NULL OR x >= 0
abbrev pub not_negative : Option ℤ → Bool
not_negative none = true
not_negative (some (pos n)) = true
not_negative (some (negsuc n)) = false

-- The CHECK constraints of media_streams.
abbrev pub stream_allowed : MediaStreamInput → Bool
stream_allowed s =
    (not_negative s.width && not_negative s.height)
    && (not_negative s.duration_ms && not_negative s.bitrate_bps)

-- The row of the index (node_id, stream_index).
abbrev pub stream_at : ℕ → ℤ → MediaStream → Bool
stream_at node_id index row = row.node_id == node_id && eq_ℤ row.stream.stream_index index

abbrev pub stream_row : ℕ → ℕ → ℕ × MediaStreamInput → MediaStream
stream_row node_id now (id, s) = record { id = id; node_id = node_id; stream = s; created_at = now }

-- INSERT INTO media_streams, under a new id.
unfoldable pub insert_stream :
    ℕ → Bool → ℕ → ℕ × MediaStreamInput → List MediaStream → Result DbError (List MediaStream)
insert_stream node_id exists now (id, s) rows =
    if not (stream_allowed s)
    then err check_violation
    else if any (stream_at node_id s.stream_index) rows
    then err unique_violation
    else if exists
    then ok (rows ++ (stream_row node_id now (id, s) ∷ []))
    else err foreign_key_violation

abbrev pub insert_streams :
    ℕ
    → Bool
    → ℕ
    → List (ℕ × MediaStreamInput)
    → List MediaStream
    → Result DbError (List MediaStream)
insert_streams node_id exists now [] rows = ok rows
insert_streams node_id exists now (s ∷ streams) rows =
    insert_stream node_id exists now s rows >>= insert_streams node_id exists now streams

-- Each stream comes with the id that is drawn for it; `exists` says whether the node is there.
unfoldable pub replace_media_streams :
    ℕ
    → Bool
    → ℕ
    → List (ℕ × MediaStreamInput)
    → List MediaStream
    → Result DbError (List MediaStream)
replace_media_streams node_id exists now streams rows =
    insert_streams node_id exists now streams (where_rows (λ r. not (r.node_id == node_id)) rows)

-- The first ten nodes whose extractor record has another version.
unfoldable pub reprocessing_candidates : String → String → List MetadataRecord → List MetadataRecord
reprocessing_candidates name version records = take 10 (
    order_by
      (λ a b.
        if a.updated_at == b.updated_at
        then leb a.node_id b.node_id
        else ltb a.updated_at b.updated_at)
      (where_rows (λ r. str_eq r.extractor_name name && not (str_eq r.extractor_version version))
        records))

abbrev with_keys : (ℕ → ℕ) → List MetadataRecord → List (ℕ × ℕ)
with_keys draw [] = []
with_keys draw (r ∷ rs) = (draw r.node_id, r.node_id) ∷ with_keys draw rs

-- `draw` gives the key of the new job of a node.
unfoldable pub enqueue_reprocessing :
    String
    → String
    → (ℕ → ℕ)
    → ℕ
    → List MetadataRecord
    → List JobRecord
    → Result DbError (ℕ × List JobRecord)
enqueue_reprocessing name version draw now records jobs =
    enqueue_each (with_keys draw (reprocessing_candidates name version records)) now jobs

-- ===== src/Worker/Metadata.antt =====
-- crates/worker/src/metadata.rs: the metadata job, which records what each extractor finds.
pub mod Tables
pub mod Records
pub mod Outcomes
pub mod Coordinates
mod Tests
use strife.Base.{
  ℕ, String, Option, none, some, List, [], ◌∷◌, map, Bool, true, false, ◌&&◌, ◌||◌, not, ◌==◌,
  is_some, str_eq, if◌then◌else◌, any, find, update_rows,
}
use strife.Base.Int.{ℤ}
use strife.Base.Result.{Result, ok, err, ◌>>=◌}
use strife.Base.Text.{Text, codes, starts_with, same_text, and_then}
use strife.Storage.Objects.{StoredObject, content_of, key_in_originals}
use strife.Db.Schema.{
  Db, DbError, check_violation, foreign_key_violation, JobRecord, JobType, FileObjectRecord,
}
use strife.Db.Nodes.{node_exists}
use strife.Db.Files.{get_file_object_by_node_id}
use strife.Db.Metadata.{
  MetadataStatus, completed, failed, unsupported, MediaKind, image, video, audio, document,
  MetadataRecord, MediaStreamType, MediaStreamInput, MediaStream, NodeMetadata, MetadataTables,
  not_negative, replace_media_streams,
}
use strife.Worker.Previews.{Media, Generated, generate_previews}
use strife.Media.Exif.{ExifResult}
use strife.Media.Ffprobe.{FfprobeResult, StreamInfo, StreamType}
use strife.Worker.Metadata.Tables.{
  TikaResult, Extractors, MetadataIds, ExtractError, no_file, unreadable, unknown_mime, extractor,
  database, Extracted, is_document_mime, persist_record, upsert_base_metadata, update_metadata,
  set_exif, set_probe, set_tika, stream_inputs, with_records, finish_metadata,
}

module _ (extractors : Extractors) (ids : MetadataIds) (now : ℕ) where
  -- persist_record under a new id
  abbrev pub recorded :
      ℕ → String → String → MetadataStatus → ℕ → List String → MetadataTables → MetadataTables
  recorded node_id name version status payload warnings tables =
      with_records
        (persist_record (ids.record_id name) node_id name version status payload warnings now
          tables.metadata_records)
        tables

  -- The failure is recorded, and is the job's failure.
  abbrev pub extractor_failed : ℕ → String → String → MetadataTables → Extracted
  extractor_failed node_id name message tables = record {
    outcome = err (extractor message);
    tables =
        recorded node_id name "adapter-v1" failed (extractors.error_payload message) (message ∷ [])
          tables;
  }

  abbrev pub exif_found : ℕ → Result String ExifResult → MetadataTables → Extracted
  exif_found node_id (err message) tables = extractor_failed node_id "exiftool" message tables
  exif_found node_id (ok exif) tables =
      let after =
        recorded node_id "exiftool" "adapter-v1" completed exif.raw_payload exif.warnings tables in
      finish_metadata (update_metadata node_id (set_exif exif now) after.node_metadata) after

  abbrev pub streams_replaced :
      ℕ → FfprobeResult → Result DbError (List MediaStream) → MetadataTables → Extracted
  streams_replaced node_id probe (err e) tables = record {
    outcome = err (database e);
    tables = tables;
  }
  streams_replaced node_id probe (ok rows) tables =
      let after = record tables { media_streams = rows } in
      finish_metadata (update_metadata node_id (set_probe probe now) after.node_metadata) after

  abbrev pub probe_found : ℕ → Result String FfprobeResult → MetadataTables → Extracted
  probe_found node_id (err message) tables = extractor_failed node_id "ffprobe" message tables
  probe_found node_id (ok probe) tables =
      let after =
        recorded node_id "ffprobe" "adapter-v1" completed probe.raw_payload probe.warnings tables in
      streams_replaced node_id probe
        (replace_media_streams node_id true now (stream_inputs ids.stream_id probe.streams)
          after.media_streams)
        after

  abbrev pub tika_found : ℕ → Result String TikaResult → MetadataTables → Extracted
  tika_found node_id (err message) tables = extractor_failed node_id "tika" message tables
  tika_found node_id (ok tika) tables =
      let after =
        recorded node_id "tika" "adapter-v1" completed tika.raw_payload tika.warnings tables in
      finish_metadata (update_metadata node_id (set_tika tika now) after.node_metadata) after

  abbrev pub generic_found : ℕ → ℕ → MetadataTables → Extracted
  generic_found node_id identity tables = record {
    outcome = ok tt;
    tables =
        recorded node_id "generic" "adapter-v1" unsupported identity
          ("no specialized extractor supports this MIME type" ∷ []) tables;
  }

  -- The extractor for the detected type.
  abbrev pub specialized : ℕ → Text → ℕ → ℕ → MetadataTables → Extracted
  specialized node_id mime content identity tables =
      if starts_with (codes "image/") mime
      then exif_found node_id (extractors.extract_exif content) tables
      else if starts_with (codes "video/") mime || starts_with (codes "audio/") mime
      then probe_found node_id (extractors.extract_ffprobe content) tables
      else if is_document_mime mime
      then tika_found node_id (extractors.extract_tika content) tables
      else generic_found node_id identity tables

  abbrev pub identified : ℕ → Text → ℕ → MetadataTables → MetadataTables
  identified node_id mime identity tables =
      let after = recorded node_id "mime" "libmagic-v1" completed identity [] tables in
      record after { node_metadata = upsert_base_metadata node_id mime now after.node_metadata }

  abbrev stopped : ExtractError → MetadataTables → Extracted
  stopped e tables = record { outcome = err e; tables = tables }

  unfoldable pub extract : JobRecord → Db → List StoredObject → MetadataTables → Extracted
  extract job db objects tables =
      elim (get_file_object_by_node_id job.target_node_id db.file_objects) [
        | none ↦ stopped no_file tables
        | some file ↦ elim (content_of (key_in_originals file.storage_key) objects) [
          | none ↦ stopped unreadable tables
          | some content ↦ elim (extractors.detect_mime content) [
            | none ↦ stopped unknown_mime tables
            | some mime ↦
                let identity = extractors.identity_payload mime file in
                specialized job.target_node_id mime content identity
                  (identified job.target_node_id mime identity tables)
          ]
        ]
      ]

-- What a job of each type leaves; a job of another type is an error.
pub data Handled : Type 0 where
  metadata : Extracted → Handled
  previews : Generated → Handled
  unsupported_job : Handled

unfoldable pub handle :
    Extractors
    → MetadataIds
    → Media
    → JobRecord
    → ℕ
    → Db
    → List StoredObject
    → MetadataTables
    → Handled
handle extractors ids media job now db objects tables = elim job.job_type [
  | JobType.metadata_extraction ↦ metadata (extract extractors ids now job db objects tables)
  | JobType.preview_generation ↦ previews (generate_previews media job now db objects)
  | _ ↦ Handled.unsupported_job
]

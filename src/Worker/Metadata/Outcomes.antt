-- ===== src/Worker/Metadata/Outcomes.antt =====
-- The metadata job of crates/worker/src/metadata.rs: what it leaves in the tables, on every branch.
use strife.Base.{
  ℕ, ◌≡◌, ◌⊎◌, refl, sym, ap, subst, ◌∙◌, String, some, List, [], ◌∷◌, true, false, ◌||◌, inl, inr,
  str_eq, Bool-cases,
}
use strife.Base.Result.{Result, ok, err}
use strife.Base.Text.{Text, codes, starts_with}
use strife.Storage.Objects.{StoredObject, content_of, key_in_originals}
use strife.Db.Schema.{Db, DbError, JobRecord, FileObjectRecord}
use strife.Db.Files.{get_file_object_by_node_id}
use strife.Db.Metadata.{
  MetadataStatus, completed, failed, unsupported, MediaStream, NodeMetadata, MetadataTables,
  replace_media_streams,
}
use strife.Media.Exif.{ExifResult}
use strife.Media.Ffprobe.{FfprobeResult}
use strife.Worker.Metadata.{
  recorded, extractor_failed, exif_found, probe_found, streams_replaced, tika_found, generic_found,
  specialized, identified, extract,
}
use strife.Worker.Metadata.Tables.{
  Extractors, MetadataIds, ExtractError, extractor, Extracted, persist_record, set_probe, set_tika,
  finish_metadata, update_metadata, set_exif, TikaResult, upsert_base_metadata, is_document_mime,
  stream_inputs,
}
use strife.Worker.Metadata.Records.{record_of, set-found, others-kept, extractor_name, HasRecord}

module _ (extractors : Extractors) (ids : MetadataIds) (now node_id : ℕ) where
  -- What one extractor's run reports, beside the records of the others.
  abbrev pub Reports : String → MetadataTables → Extracted → Type 0
  Reports name tables g =
      (record_of node_id "mime" g.tables.metadata_records
        ≡ record_of node_id "mime" tables.metadata_records)
      × (((message : String) × (g.outcome ≡ err (extractor message))
            × HasRecord node_id name failed (message ∷ []) g.tables)
          ⊎ (((warnings : List String) × (g.outcome ≡ ok tt)
                × (HasRecord node_id name completed warnings g.tables
                    ⊎ HasRecord node_id name unsupported warnings g.tables))
              ⊎ ((e : DbError) × (g.outcome ≡ err (ExtractError.database e)))))

  pub recorded-HasRecord :
      (name version : String) (status : MetadataStatus) (payload : ℕ) (warnings : List String)
      (tables : MetadataTables)
      → HasRecord node_id name status warnings
          (recorded extractors ids now node_id name version status payload warnings tables)
  recorded-HasRecord name version status payload warnings tables =
      let (r, found, (a, _, c)) =
        set-found node_id name version status payload warnings now (ids.record_id name)
          tables.metadata_records in
      (r, found, a, c)

  mime-kept :
      (name version : String) (status : MetadataStatus) (payload : ℕ) (warnings : List String)
      (tables : MetadataTables)
      → str_eq name "mime" ≡ false
      → record_of node_id "mime"
          (recorded extractors ids now node_id name version status payload warnings
            tables).metadata_records
        ≡ record_of node_id "mime" tables.metadata_records
  mime-kept name version status payload warnings tables apart =
      others-kept node_id name version status payload warnings now (ids.record_id name)
        tables.metadata_records "mime" apart

  failed-Reports :
      (name message : String) (tables : MetadataTables)
      → str_eq name "mime" ≡ false
      → Reports name tables (extractor_failed extractors ids now node_id name message tables)
  failed-Reports name message tables apart = (
    mime-kept name "adapter-v1" failed (extractors.error_payload message) (message ∷ []) tables
        apart,
    inl (
      message,
      refl,
      recorded-HasRecord name "adapter-v1" failed (extractors.error_payload message) (message ∷ [])
          tables,
    ),
  )

  -- What the two ends of finish_metadata share.
  finished-Reports :
      (name : String) (payload : ℕ) (warnings : List String) (tables after : MetadataTables)
      (r : Result DbError (List NodeMetadata))
      → str_eq name "mime" ≡ false
      → after.metadata_records
        ≡ (recorded extractors ids now node_id name "adapter-v1" completed payload warnings
            tables).metadata_records
      → Reports name tables (finish_metadata r after)
  finished-Reports name payload warnings tables after (err e) apart same = (
    ap (record_of node_id "mime") same
        ∙ mime-kept name "adapter-v1" completed payload warnings tables apart,
    inr (inr (e, refl)),
  )
  finished-Reports name payload warnings tables after (ok rows) apart same =
      let (x, found, a, c) =
        recorded-HasRecord name "adapter-v1" completed payload warnings tables in
      (
        ap (record_of node_id "mime") same
            ∙ mime-kept name "adapter-v1" completed payload warnings tables apart,
        inr (inl (warnings, refl, inl (x, ap (record_of node_id name) same ∙ found, a, c))),
      )

  exif-Reports :
      (r : Result String ExifResult) (tables : MetadataTables)
      → Reports "exiftool" tables (exif_found extractors ids now node_id r tables)
  exif-Reports (err message) tables = failed-Reports "exiftool" message tables refl
  exif-Reports (ok exif) tables =
      let after =
        recorded extractors ids now node_id "exiftool" "adapter-v1" completed exif.raw_payload
          exif.warnings tables in
      finished-Reports "exiftool" exif.raw_payload exif.warnings tables after
        (update_metadata node_id (set_exif exif now) after.node_metadata) refl refl

  tika-Reports :
      (r : Result String TikaResult) (tables : MetadataTables)
      → Reports "tika" tables (tika_found extractors ids now node_id r tables)
  tika-Reports (err message) tables = failed-Reports "tika" message tables refl
  tika-Reports (ok tika) tables =
      let after =
        recorded extractors ids now node_id "tika" "adapter-v1" completed tika.raw_payload
          tika.warnings tables in
      finished-Reports "tika" tika.raw_payload tika.warnings tables after
        (update_metadata node_id (set_tika tika now) after.node_metadata) refl refl

  streams-Reports :
      (probe : FfprobeResult) (rows : Result DbError (List MediaStream)) (tables : MetadataTables)
      → Reports "ffprobe" tables (
          streams_replaced extractors ids now node_id probe rows (
            recorded extractors ids now node_id "ffprobe" "adapter-v1" completed probe.raw_payload
              probe.warnings tables))
  streams-Reports probe (err e) tables = (
    mime-kept "ffprobe" "adapter-v1" completed probe.raw_payload probe.warnings tables refl,
    inr (inr (e, refl)),
  )
  streams-Reports probe (ok rows) tables =
      let after =
        recorded extractors ids now node_id "ffprobe" "adapter-v1" completed probe.raw_payload
          probe.warnings tables in
      finished-Reports "ffprobe" probe.raw_payload probe.warnings tables
        (record after { media_streams = rows })
        (update_metadata node_id (set_probe probe now) after.node_metadata) refl refl

  probe-Reports :
      (r : Result String FfprobeResult) (tables : MetadataTables)
      → Reports "ffprobe" tables (probe_found extractors ids now node_id r tables)
  probe-Reports (err message) tables = failed-Reports "ffprobe" message tables refl
  probe-Reports (ok probe) tables =
      let after =
        recorded extractors ids now node_id "ffprobe" "adapter-v1" completed probe.raw_payload
          probe.warnings tables in
      streams-Reports probe
        (replace_media_streams node_id true now (stream_inputs ids.stream_id probe.streams)
          after.media_streams)
        tables

  generic-Reports :
      (identity : ℕ) (tables : MetadataTables)
      → Reports "generic" tables (generic_found extractors ids now node_id identity tables)
  generic-Reports identity tables =
      let warnings : List String = "no specialized extractor supports this MIME type" ∷ [] in
      (
        mime-kept "generic" "adapter-v1" unsupported identity warnings tables refl,
        inr (
            inl (
              warnings,
              refl,
              inr (recorded-HasRecord "generic" "adapter-v1" unsupported identity warnings tables),
            )),
      )

  specialized-Reports :
      (mime : Text) (content identity : ℕ) (tables : MetadataTables)
      → Reports
          (extractor_name mime)
          tables
          (specialized extractors ids now node_id mime content identity tables)
  specialized-Reports mime content identity tables =
      elim (Bool-cases (starts_with (codes "image/") mime)) [
        | inl is_image ↦ rw is_image (exif-Reports (extractors.extract_exif content) tables)
        | inr not_image ↦
            rw not_image
              (elim (Bool-cases
                (starts_with (codes "video/") mime || starts_with (codes "audio/") mime)) [
                  | inl is_media ↦
                      rw is_media (probe-Reports (extractors.extract_ffprobe content) tables)
                  | inr not_media ↦ rw not_media (elim (Bool-cases (is_document_mime mime)) [
                    | inl is_document ↦
                        rw is_document (tika-Reports (extractors.extract_tika content) tables)
                    | inr generic ↦ rw generic (generic-Reports identity tables)
                  ])
                ])
      ]

pub extract-specialized :
    (extractors : Extractors) (ids : MetadataIds) (now : ℕ) (job : JobRecord) (db : Db)
    (objects : List StoredObject) (tables : MetadataTables) (file : FileObjectRecord) (content : ℕ)
    (mime : Text)
    → get_file_object_by_node_id job.target_node_id db.file_objects ≡ some file
    → content_of (key_in_originals file.storage_key) objects ≡ some content
    → extractors.detect_mime content ≡ some mime
    → extract extractors ids now job db objects tables
      ≡ specialized extractors ids now job.target_node_id mime content
          (extractors.identity_payload mime file)
          (identified extractors ids now job.target_node_id mime
            (extractors.identity_payload mime file)
            tables)
unfolding extract persist_record upsert_base_metadata
extract-specialized extractors ids now job db objects tables file content mime here read detected =
    rw (extract, here, read, detected) refl

-- What a metadata job leaves: the detected type, whatever comes after; and either the failure of the type's
-- extractor, as the job's error; or success, and this extractor's record, completed or unsupported;
-- or an error of the database.
abbrev pub IsReported : ℕ → Text → Extracted → Type 0
IsReported node_id mime g =
    HasRecord node_id "mime" completed [] g.tables
    × (((message : String) × (g.outcome ≡ err (extractor message))
          × HasRecord node_id (extractor_name mime) failed (message ∷ []) g.tables)
        ⊎ (((warnings : List String) × (g.outcome ≡ ok tt)
              × (HasRecord node_id (extractor_name mime) completed warnings g.tables
                  ⊎ HasRecord node_id (extractor_name mime) unsupported warnings g.tables))
            ⊎ ((e : DbError) × (g.outcome ≡ err (ExtractError.database e)))))

-- A job that reads its file and detects its type records that, whatever comes after. When the extractor
-- of the type fails, its message is recorded as this extractor's failure and is the job's; when the
-- job succeeds, the extractor has a record that is completed, or says that the type is unsupported;
-- and the only other error is one of the database.
pub extract-IsReported :
    (extractors : Extractors) (ids : MetadataIds) (now : ℕ) (job : JobRecord) (db : Db)
    (objects : List StoredObject) (tables : MetadataTables) (file : FileObjectRecord) (content : ℕ)
    (mime : Text)
    → get_file_object_by_node_id job.target_node_id db.file_objects ≡ some file
    → content_of (key_in_originals file.storage_key) objects ≡ some content
    → extractors.detect_mime content ≡ some mime
    → IsReported job.target_node_id mime (extract extractors ids now job db objects tables)
extract-IsReported extractors ids now job db objects tables file content mime here read detected =
    let node = job.target_node_id in
    let identity = extractors.identity_payload mime file in
    let start = identified extractors ids now node mime identity tables in
    let (kept, outcome) = specialized-Reports extractors ids now node mime content identity start in
    let (r, found, a, c) =
      recorded-HasRecord extractors ids now node "mime" "libmagic-v1" completed identity []
        tables in
    subst (IsReported node mime)
      (sym (
        extract-specialized extractors ids now job db objects tables file content mime here read
          detected))
      (((r, kept ∙ found, a, c), outcome))

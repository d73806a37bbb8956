-- ===== src/Worker/Metadata/Coordinates.antt =====
-- extract of crates/worker/src/metadata.rs on a file whose EXIF data has one coordinate only.
use strife.Base.{
  ℕ, ◌≡◌, refl, sym, ap, subst, ◌∙◌, some, List, [], ◌∷◌, true, false, ◌&&◌, not, arith, inl, inr,
  any, update_rows, Bool-cases, is_some,
}
use strife.Base.Result.{ok, err}
use strife.Base.Text.{Text, codes, starts_with}
use strife.Storage.Objects.{StoredObject, content_of, key_in_originals}
use strife.Db.Schema.{Db, check_violation, JobRecord, FileObjectRecord}
use strife.Db.Files.{get_file_object_by_node_id}
use strife.Db.Metadata.{completed, NodeMetadata, MetadataTables}
use strife.Media.Exif.{ExifResult}
use strife.Worker.Metadata.{recorded, identified, extract}
use strife.Worker.Metadata.Tables.{
  Extractors, MetadataIds, ExtractError, Extracted, finish_metadata, update_metadata, set_exif,
  metadata_of, media_kind, same_presence, metadata_allowed, upsert_base_metadata,
}
use strife.Worker.Metadata.Outcomes.{recorded-HasRecord, extract-specialized}
use strife.Worker.Metadata.Records.{HasRecord}

any-refused :
    (node_id : ℕ) (f : NodeMetadata → NodeMetadata) (rows : List NodeMetadata)
    → ((m : NodeMetadata) → metadata_allowed (f m) ≡ false)
    → any (metadata_of node_id) rows ≡ true
    → any (λ m. metadata_of node_id m && not (metadata_allowed (f m))) rows ≡ true
any-refused node_id f [] h e = cc
any-refused node_id f (m ∷ rows) h e = ground (arith, h m, any-refused node_id f rows h)

upserted-any :
    (node_id : ℕ) (mime : Text) (now : ℕ) (rows : List NodeMetadata)
    → any (metadata_of node_id) (upsert_base_metadata node_id mime now rows) ≡ true
unfolding upsert_base_metadata
upserted-any node_id mime now rows = elim (Bool-cases (any (metadata_of node_id) rows)) [
  | inl taken ↦ rw taken (still rows taken)
  | inr free ↦ rw free (ground arith)
]
  where
    still :
        (rows : List NodeMetadata)
        → any (metadata_of node_id) rows ≡ true
        → any (metadata_of node_id) (
            update_rows
              (metadata_of node_id)
              (λ m. record m {
                detected_mime = mime;
                media_kind = media_kind mime;
                updated_at = now;
              })
              rows)
          ≡ true
    still [] e = cc
    still (m ∷ rows) e = ground (arith, still rows)

one_coordinate-refused :
    (exif : ExifResult) (now : ℕ) (m : NodeMetadata)
    → same_presence (is_some exif.gps_latitude) (is_some exif.gps_longitude) ≡ false
    → metadata_allowed (set_exif exif now m) ≡ false
one_coordinate-refused exif now m h = ground arith

-- An image whose EXIF data has one GPS coordinate and not the other, which the extractor takes for a
-- warning only, fails its metadata job: the row of its metadata is refused by the CHECK on the two
-- coordinates, and the extractor's record says that it completed.
pub extract-one_coordinate :
    (extractors : Extractors) (ids : MetadataIds) (now : ℕ) (job : JobRecord) (db : Db)
    (objects : List StoredObject) (tables : MetadataTables) (file : FileObjectRecord) (content : ℕ)
    (mime : Text) (exif : ExifResult)
    → get_file_object_by_node_id job.target_node_id db.file_objects ≡ some file
    → content_of (key_in_originals file.storage_key) objects ≡ some content
    → extractors.detect_mime content ≡ some mime
    → starts_with (codes "image/") mime ≡ true
    → extractors.extract_exif content ≡ ok exif
    → same_presence (is_some exif.gps_latitude) (is_some exif.gps_longitude) ≡ false
    → ((extract extractors ids now job db objects tables).outcome
        ≡ err (ExtractError.database check_violation))
      × HasRecord job.target_node_id "exiftool" completed exif.warnings
          (extract extractors ids now job db objects tables).tables
extract-one_coordinate extractors ids now job db objects tables file content mime exif here read
      detected is_image found one =
    let node = job.target_node_id in
    let identity = extractors.identity_payload mime file in
    let start = identified extractors ids now node mime identity tables in
    let after =
      recorded extractors ids now node "exiftool" "adapter-v1" completed exif.raw_payload
        exif.warnings start in
    let refused : update_metadata node (set_exif exif now) after.node_metadata
        ≡ err check_violation =
      rw
        (any-refused node (set_exif exif now) after.node_metadata
          (λ m. one_coordinate-refused exif now m one)
          (upserted-any node mime now tables.node_metadata))
        refl in
    let run : extract extractors ids now job db objects tables
        ≡ finish_metadata (err check_violation) after =
      extract-specialized extractors ids now job db objects tables file content mime here read
        detected
      ∙ rw (is_image, found) (ap (λ r. finish_metadata r after) refused) in
    subst
      (λ (g : Extracted).
        (g.outcome ≡ err (ExtractError.database check_violation))
        × HasRecord node "exiftool" completed exif.warnings g.tables)
      (sym run)
      ((
        refl,
        recorded-HasRecord extractors ids now node "exiftool" "adapter-v1" completed
            exif.raw_payload exif.warnings start,
      ))

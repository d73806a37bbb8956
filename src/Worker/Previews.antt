-- ===== src/Worker/Previews.antt =====
-- generate_previews of crates/worker/src/metadata.rs: how a preview job makes the artifacts of a file.
pub mod Ended
pub mod Settled
mod Tests
use strife.Base.{
  ℕ, String, Option, none, some, List, [], ◌∷◌, Bool, true, false, ◌||◌, if◌then◌else◌,
}
use strife.Base.Result.{Result, ok, err}
use strife.Base.Text.{Text, codes, starts_with, same_text}
use strife.Storage.Objects.{
  StoredObject, Reader, content_of, put_stream, key_in_artifacts, key_in_originals,
}
use strife.Db.Schema.{
  Db, DbError, JobRecord, ArtifactType, thumbnail, preview, ArtifactState, DerivedArtifactRecord,
}
use strife.Db.Artifacts.{UpsertArtifact, get_artifact, create_or_update_artifact}
use strife.Db.Files.{get_file_object_by_node_id}

-- What a generator of crates/media makes of a source: the bytes of its output and their description.
pub record GeneratedImage : Type 0 where
  pub format : String
  pub width : Option ℕ
  pub height : Option ℕ
  pub byte_size : ℕ
  pub content : ℕ

-- crates/media, which runs external programs: each of them may fail on a content.
pub record Media : Type 0 where
  pub detect_mime : ℕ → Option Text
  pub generate_thumbnail : ℕ → Option GeneratedImage
  pub generate_image_preview : ℕ → Option GeneratedImage
  pub convert_office_to_pdf : ℕ → Option GeneratedImage

pub data PreviewError : Type 0 where
  no_file unreadable unknown_mime previously_failed nothing_to_generate : PreviewError
  generation : PreviewError
  database : DbError → PreviewError

-- What a job leaves, whether it fails or not.
pub record Generated : Type 0 where
  pub outcome : Result PreviewError (Unit {0})
  pub db : Db
  pub objects : List StoredObject

abbrev pub is_office_mime : Text → Bool
is_office_mime mime =
    same_text mime (codes "application/msword")
    || same_text mime
        (codes "application/vnd.openxmlformats-officedocument.wordprocessingml.document")

abbrev as_pdf : Option GeneratedImage → Option GeneratedImage
as_pdf none = none
as_pdf (some g) = some (record g { format = "application/pdf"; width = none; height = none })

-- The output for an artifact's type; a preview is made of Office documents and of images only.
abbrev pub output_of : Media → ArtifactType → Text → ℕ → Option GeneratedImage
output_of media thumbnail mime source = media.generate_thumbnail source
output_of media preview mime source =
    if is_office_mime mime
    then as_pdf (media.convert_office_to_pdf source)
    else if starts_with (codes "image/") mime
    then media.generate_image_preview source
    else none

abbrev pub ready_artifact : DerivedArtifactRecord → GeneratedImage → UpsertArtifact
ready_artifact a g = record {
  node_id = a.node_id;
  artifact_type = a.artifact_type;
  format = g.format;
  width = g.width;
  height = g.height;
  storage_key = a.storage_key;
  byte_size = g.byte_size;
  generator_version = "preview-v1";
  state = ArtifactState.ready;
}

abbrev pub failed_artifact : DerivedArtifactRecord → UpsertArtifact
failed_artifact a = record {
  node_id = a.node_id;
  artifact_type = a.artifact_type;
  format = a.format;
  width = a.width;
  height = a.height;
  storage_key = a.storage_key;
  byte_size = a.byte_size;
  generator_version = "preview-v1";
  state = ArtifactState.failed;
}

abbrev pub settled :
    Result DbError (DerivedArtifactRecord × Db)
    → Result PreviewError (Unit {0})
    → Db
    → List StoredObject
    → Generated
settled (ok r) outcome db objects = record { outcome = outcome; db = r.1; objects = objects }
settled (err e) outcome db objects = record {
  outcome = err (database e);
  db = db;
  objects = objects;
}

abbrev pub on_output :
    DerivedArtifactRecord → ℕ → Option GeneratedImage → Db → List StoredObject → Generated
on_output a now none db objects = record { outcome = err generation; db = db; objects = objects }
on_output a now (some g) db objects =
    settled (create_or_update_artifact 0 (ready_artifact a g) now db) (ok tt) db
      (put_stream (key_in_artifacts a.storage_key) g.content objects)

-- The output is stored before the row says that it is ready. The row is there, so no id is drawn.
unfoldable pub generate_artifact :
    Media → DerivedArtifactRecord → ℕ → Text → ℕ → Db → List StoredObject → Generated
generate_artifact media a source mime now db objects =
    on_output a now (output_of media a.artifact_type mime source) db objects

-- A failure is written to the row, and is the job's failure.
abbrev pub or_mark_failed : DerivedArtifactRecord → ℕ → Generated → Generated
or_mark_failed a now g = elim g.outcome [
  | ok done ↦ g
  | err e ↦
      settled (create_or_update_artifact 0 (failed_artifact a) now g.db) (err e) g.db g.objects
]

-- The loop over the types, with the flag `found`; `rest` is what follows.
abbrev pub Rest : Type 0
Rest = Bool → Db → List StoredObject → Generated

abbrev pub go_on : Rest → Generated → Generated
go_on rest g = elim g.outcome [ ok done ↦ rest true g.db g.objects | err e ↦ g ]

abbrev pub on_state :
    Media
    → DerivedArtifactRecord
    → ℕ
    → Text
    → ℕ
    → Rest
    → ArtifactState
    → Bool
    → Db
    → List StoredObject
    → Generated
on_state media a source mime now rest ArtifactState.failed found db objects = record {
  outcome = err previously_failed;
  db = db;
  objects = objects;
}
on_state media a source mime now rest ArtifactState.ready found db objects = rest found db objects
on_state media a source mime now rest ArtifactState.generating found db objects =
    go_on rest (or_mark_failed a now (generate_artifact media a source mime now db objects))

abbrev pub on_artifact :
    Media
    → ℕ
    → Text
    → ℕ
    → Rest
    → Option DerivedArtifactRecord
    → Bool
    → Db
    → List StoredObject
    → Generated
on_artifact media source mime now rest none found db objects = rest found db objects
on_artifact media source mime now rest (some a) found db objects =
    on_state media a source mime now rest a.state found db objects

unfoldable pub generate_types :
    Media → ℕ → ℕ → Text → ℕ → List ArtifactType → Bool → Db → List StoredObject → Generated
generate_types media node_id source mime now [] found db objects = record {
  outcome = if found then ok tt else err nothing_to_generate;
  db = db;
  objects = objects;
}
generate_types media node_id source mime now (kind ∷ kinds) found db objects =
    on_artifact media source mime now (generate_types media node_id source mime now kinds)
      (get_artifact node_id kind db.derived_artifacts) found db objects

abbrev pub failed_with : PreviewError → Db → List StoredObject → Generated
failed_with e db objects = record { outcome = err e; db = db; objects = objects }

-- The source is copied from the originals, and its type is detected, before any artifact is made.
unfoldable pub generate_previews : Media → JobRecord → ℕ → Db → List StoredObject → Generated
generate_previews media job now db objects =
    elim (get_file_object_by_node_id job.target_node_id db.file_objects) [
      | none ↦ failed_with no_file db objects
      | some file ↦ elim (content_of (key_in_originals file.storage_key) objects) [
        | none ↦ failed_with unreadable db objects
        | some source ↦ elim (media.detect_mime source) [
          | none ↦ failed_with unknown_mime db objects
          | some mime ↦
              generate_types media job.target_node_id source mime now (thumbnail ∷ preview ∷ [])
                false db objects
        ]
      ]
    ]

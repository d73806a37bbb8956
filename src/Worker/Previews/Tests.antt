-- ===== src/Worker/Previews/Tests.antt =====
-- The thumbnail of an image, by a generator that works, and by one that fails.
use strife.Base.{◌≡◌, refl, none, some, List, [], ◌∷◌}
use strife.Base.Int.{pos}
use strife.Base.Rows.{NoClash}
use strife.Base.Result.{ok, err}
use strife.Base.Text.{codes}
use strife.Storage.Objects.{StoredObject, key_in_originals}
use strife.Db.Schema.{
  Db, JobRecord, JobType, thumbnail, preview, ArtifactState, DerivedArtifactRecord,
}
use strife.Db.Samples.{with_song}
use strife.Db.Jobs.{new_job}
use strife.Db.Artifacts.{get_artifact, create_or_update_artifact}
use strife.Db.Artifacts.Upserted.{artifact_clash}
use strife.Db.Files.{get_file_object_by_node_id}
use strife.Worker.Previews.{
  Media, GeneratedImage, PreviewError, generation, generate_previews, generate_types,
  generate_artifact, failed_with,
}
use strife.Worker.Previews.Settled.{IsSettled, generate_previews-IsSettled, generate_previews-retry}

abbrev small : GeneratedImage
small = record {
  format = "image/webp";
  width = some 256;
  height = some 192;
  byte_size = 5;
  content = 8;
}

abbrev works : Media
works = record {
  detect_mime = λ c. some (codes "image/png");
  generate_thumbnail = λ c. some small;
  generate_image_preview = λ c. some small;
  convert_office_to_pdf = λ c. none;
}

abbrev broken : Media
broken = record works { generate_thumbnail = λ c. none }

abbrev waiting : DerivedArtifactRecord
waiting = record {
  id = 80;
  node_id = 4;
  artifact_type = thumbnail;
  format = "application/octet-stream";
  width = none;
  height = none;
  storage_key = 81;
  byte_size = 0;
  generator_version = "preview-v1";
  state = ArtifactState.generating;
  created_at = 20;
  updated_at = 20;
}

abbrev db : Db
db = record with_song { derived_artifacts = waiting ∷ [] }

abbrev objects : List StoredObject
objects = record { key = key_in_originals 70; content = 7 } ∷ []

abbrev job : JobRecord
job = new_job 82 JobType.preview_generation 4 (pos 0) 20

made : (generate_previews works job 21 db objects).outcome ≡ ok tt
unfolding generate_previews generate_types generate_artifact get_artifact create_or_update_artifact
    get_file_object_by_node_id
made = refl

generate_previews-IsSettled_example :
    IsSettled 4 thumbnail (generate_previews works job 21 db objects).db
    × IsSettled 4 preview (generate_previews works job 21 db objects).db
    × NoClash artifact_clash (generate_previews works job 21 db objects).db.derived_artifacts
generate_previews-IsSettled_example =
    generate_previews-IsSettled works job 21 db objects (refl, tt) made

failed_once : (generate_previews broken job 21 db objects).outcome ≡ err generation
unfolding generate_previews generate_types generate_artifact get_artifact create_or_update_artifact
    get_file_object_by_node_id
failed_once = refl

-- The generator that works comes too late.
generate_previews-retry_example :
    (x : PreviewError) × (generate_previews works job 30
        (generate_previews broken job 21 db objects).db
        objects
      ≡ failed_with x (generate_previews broken job 21 db objects).db objects)
generate_previews-retry_example =
    generate_previews-retry broken job 21 db objects (refl, tt) failed_once works 30 objects

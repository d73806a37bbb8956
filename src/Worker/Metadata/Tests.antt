-- ===== src/Worker/Metadata/Tests.antt =====
-- The metadata of an image whose EXIF data has a latitude and no longitude.
use strife.Base.{ℕ, ◌≡◌, refl, Option, none, some, List, [], ◌∷◌, false}
use strife.Base.Int.{pos}
use strife.Base.Result.{ok, err}
use strife.Base.Text.{codes}
use strife.Storage.Objects.{StoredObject, key_in_originals}
use strife.Db.Schema.{JobRecord, JobType, check_violation}
use strife.Db.Samples.{with_song, song_object}
use strife.Db.Jobs.{new_job}
use strife.Db.Files.{get_file_object_by_node_id}
use strife.Db.Metadata.{MetadataTables, completed}
use strife.Media.{Value, number, Object}
use strife.Media.Exif.{ExifResult, parse_exif_payload}
use strife.Worker.Metadata.{extract}
use strife.Worker.Metadata.Tables.{Extractors, MetadataIds, ExtractError}
use strife.Worker.Metadata.Outcomes.{IsReported, extract-IsReported}
use strife.Worker.Metadata.Records.{HasRecord}
use strife.Worker.Metadata.Coordinates.{extract-one_coordinate}

abbrev fields : Object
fields =
    ("ImageWidth", number (some (pos 640)) "640")
    ∷ ("ImageHeight", number (some (pos 480)) "480")
    ∷ ("GPSLatitude", number none "48.1")
    ∷ []

abbrev as_f64 : Value → Option ℕ
as_f64 v = some 481

abbrev exif : ExifResult
exif = record {
  width = some (pos 640);
  height = some (pos 480);
  orientation = none;
  capture_time = none;
  camera_make = none;
  camera_model = none;
  gps_latitude = some 481;
  gps_longitude = none;
  color_space = none;
  warnings = "only one GPS coordinate is present" ∷ [];
  raw_payload = 5;
}

parsed : parse_exif_payload (λ s. false) as_f64 5 fields ≡ exif
unfolding parse_exif_payload
parsed = refl

abbrev extractors : Extractors
extractors = record {
  detect_mime = λ c. some (codes "image/png");
  extract_exif = λ c. ok exif;
  extract_ffprobe = λ c. err "no media";
  extract_tika = λ c. err "no document";
  error_payload = λ m. 6;
  identity_payload = λ m f. 7;
}

abbrev ids : MetadataIds
ids = record { record_id = λ name. 90; stream_id = λ s. 91 }

abbrev tables : MetadataTables
tables = record { metadata_records = []; media_streams = []; node_metadata = [] }

abbrev objects : List StoredObject
objects = record { key = key_in_originals 70; content = 7 } ∷ []

abbrev job : JobRecord
job = new_job 82 JobType.metadata_extraction 4 (pos 0) 20

stored : get_file_object_by_node_id 4 (song_object ∷ []) ≡ some song_object
unfolding get_file_object_by_node_id
stored = refl

extract-IsReported_example :
    IsReported 4 (codes "image/png") (extract extractors ids 21 job with_song objects tables)
extract-IsReported_example =
    extract-IsReported extractors ids 21 job with_song objects tables song_object 7
      (codes "image/png") stored refl refl

extract-one_coordinate_example :
    ((extract extractors ids 21 job with_song objects tables).outcome
      ≡ err (ExtractError.database check_violation))
    × HasRecord 4 "exiftool" completed exif.warnings
        (extract extractors ids 21 job with_song objects tables).tables
extract-one_coordinate_example =
    extract-one_coordinate extractors ids 21 job with_song objects tables song_object 7
      (codes "image/png") exif stored refl refl refl refl refl

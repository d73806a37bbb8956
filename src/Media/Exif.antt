-- ===== src/Media/Exif.antt =====
-- crates/media/src/exif.rs: the fields and warnings that are made of ExifTool's JSON.
use strife.Base.{
  ℕ, String, Option, none, some, List, [], ◌∷◌, ◌++◌, Bool, ◌&&◌, ◌||◌, if◌then◌else◌, leb,
}
use strife.Base.Int.{ℤ, pos, negsuc, eq_ℤ}
use strife.Base.Text.{and_then}
use strife.Media.{Value, number, string, other, Object, get, as_integer, i32_of}

pub record ExifResult : Type 0 where
  pub width : Option ℤ
  pub height : Option ℤ
  pub orientation : Option ℤ
  pub capture_time : Option String
  pub camera_make : Option String
  pub camera_model : Option String
  pub gps_latitude : Option ℕ
  pub gps_longitude : Option ℕ
  pub color_space : Option String
  pub warnings : List String
  pub raw_payload : ℕ

-- The value of the first key that is there.
abbrev pub value : Object → List String → Option Value
value metadata [] = none
value metadata (key ∷ keys) = elim (get key metadata) [
  | some v ↦ some v
  | none ↦ value metadata keys
]

-- as_i64 with i32::try_from, else the i32 in a string
abbrev integer : Object → List String → Option ℤ
integer metadata keys = and_then (and_then (value metadata keys) as_integer) i32_of

module _ (is_blank : String → Bool) (as_f64 : Value → Option ℕ) where
  abbrev text_of : Value → Option String
  text_of (string s) = if is_blank s then none else some s
  text_of (number i s) = some s
  text_of other = none

  abbrev text : Object → List String → Option String
  text metadata keys = and_then (value metadata keys) text_of

  abbrev coordinate : Object → List String → Option ℕ
  coordinate metadata keys = and_then (value metadata keys) as_f64

  abbrev pub dimension_warnings : Option ℤ → Option ℤ → List String
  dimension_warnings (some w) (some h) =
      if eq_ℤ w (pos 0) || eq_ℤ h (pos 0) then "image dimensions are zero" ∷ [] else []
  dimension_warnings _ _ = "image dimensions are missing" ∷ []

  abbrev pub gps_warnings : Option ℕ → Option ℕ → List String
  gps_warnings (some a) none = "only one GPS coordinate is present" ∷ []
  gps_warnings none (some b) = "only one GPS coordinate is present" ∷ []
  gps_warnings _ _ = []

  abbrev pub orientation_warnings : Option ℤ → List String
  orientation_warnings (some (pos n)) =
      if leb 1 n && leb n 8 then [] else "orientation is outside the EXIF range 1 through 8" ∷ []
  orientation_warnings (some (negsuc n)) = "orientation is outside the EXIF range 1 through 8" ∷ []
  orientation_warnings none = []

  -- parse_exif_payload, of the first object of the JSON, which `raw_payload` stands for.
  unfoldable pub parse_exif_payload : ℕ → Object → ExifResult
  parse_exif_payload raw_payload metadata =
      let width = integer metadata ("ImageWidth" ∷ "ExifImageWidth" ∷ "SourceImageWidth" ∷ []) in
      let height =
        integer metadata ("ImageHeight" ∷ "ExifImageHeight" ∷ "SourceImageHeight" ∷ []) in
      let orientation = integer metadata ("Orientation" ∷ []) in
      let gps_latitude = coordinate metadata ("GPSLatitude" ∷ []) in
      let gps_longitude = coordinate metadata ("GPSLongitude" ∷ []) in
      record {
        width = width;
        height = height;
        orientation = orientation;
        capture_time = text metadata ("DateTimeOriginal" ∷ "CreateDate" ∷ "MediaCreateDate" ∷ []);
        camera_make = text metadata ("Make" ∷ []);
        camera_model = text metadata ("Model" ∷ []);
        gps_latitude = gps_latitude;
        gps_longitude = gps_longitude;
        color_space = text metadata ("ColorSpace" ∷ "ICC_Profile:ColorSpaceData" ∷ []);
        warnings =
            dimension_warnings width height
            ++ (gps_warnings gps_latitude gps_longitude ++ orientation_warnings orientation);
        raw_payload = raw_payload;
      }

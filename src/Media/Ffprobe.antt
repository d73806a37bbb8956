-- ===== src/Media/Ffprobe.antt =====
-- crates/media/src/ffprobe.rs: the streams and warnings that are made of ffprobe's JSON.
use strife.Base.{ℕ, String, Option, none, some, List, [], ◌∷◌, ◌++◌, map, str_eq, if◌then◌else◌}
use strife.Base.Int.{ℤ, pos}
use strife.Base.Text.{and_then}
use strife.Media.{Value, number, string, other, Object, get, as_integer, i32_of}

pub data StreamType : Type 0 where
  video audio subtitle other_stream : StreamType

pub record StreamInfo : Type 0 where
  pub stream_index : ℤ
  pub stream_type : StreamType
  pub codec : String
  pub width : Option ℤ
  pub height : Option ℤ
  pub duration_ms : Option ℤ
  pub bitrate_bps : Option ℤ
  pub frame_rate : Option String
  pub language : Option String

pub record FfprobeResult : Type 0 where
  pub container_format : Option String
  pub duration_ms : Option ℤ
  pub total_bitrate : Option ℤ
  pub streams : List StreamInfo
  pub warnings : List String
  pub raw_payload : ℕ

abbrev string_of : Value → Option String
string_of (string s) = if str_eq s "" then none else some s
string_of (number i s) = some s
string_of other = none

abbrev unwrap_or {ℓ} : {A : Type ℓ} → A → Option A → A
unwrap_or a none = a
unwrap_or a (some b) = b

abbrev stream_type_of : Option Value → StreamType
stream_type_of (some (string s)) =
    if str_eq s "video"
    then video
    else if str_eq s "audio"
    then audio
    else if str_eq s "subtitle"
    then subtitle
    else other_stream
stream_type_of _ = other_stream

-- A stream of the JSON, with the object of its `tags`.
pub record StreamObject : Type 0 where
  pub fields : Object
  pub tags : Object

-- `milliseconds` is the conversion of seconds, which are floating-point numbers.
module _ (milliseconds : Value → Option ℤ) where
  abbrev pub stream_info : StreamObject → StreamInfo
  stream_info s = record {
    stream_index = unwrap_or (pos 0) (and_then (and_then (get "index" s.fields) as_integer) i32_of);
    stream_type = stream_type_of (get "codec_type" s.fields);
    codec = unwrap_or "unknown" (and_then (get "codec_name" s.fields) string_of);
    width = and_then (and_then (get "width" s.fields) as_integer) i32_of;
    height = and_then (and_then (get "height" s.fields) as_integer) i32_of;
    duration_ms = and_then (get "duration" s.fields) milliseconds;
    bitrate_bps = and_then (get "bit_rate" s.fields) as_integer;
    frame_rate = and_then (get "avg_frame_rate" s.fields) string_of;
    language = and_then (get "language" s.tags) string_of;
  }

  abbrev stream_warnings : List StreamInfo → List String
  stream_warnings [] = "ffprobe returned no media streams" ∷ []
  stream_warnings (s ∷ ss) = []

  abbrev duration_warnings : Option ℤ → List String
  duration_warnings none = "container duration is missing" ∷ []
  duration_warnings (some d) = []

  -- parse_ffprobe_payload, of the objects `format` and `streams` of the JSON.
  unfoldable pub parse_ffprobe_payload : ℕ → Object → List StreamObject → FfprobeResult
  parse_ffprobe_payload raw_payload format objects =
      let duration_ms = and_then (get "duration" format) milliseconds in
      let streams = map stream_info objects in
      record {
        container_format = and_then (get "format_name" format) string_of;
        duration_ms = duration_ms;
        total_bitrate = and_then (get "bit_rate" format) as_integer;
        streams = streams;
        warnings = stream_warnings streams ++ duration_warnings duration_ms;
        raw_payload = raw_payload;
      }

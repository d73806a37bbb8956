-- ===== src/Api/Files/Tests.antt =====
-- Downloads, ranges and thumbnails of a file of ten bytes.
use strife.Base.{
  ℕ, ◌+◌, ◌-◌, ◌≤◌, ◌<◌, ◌≡◌, refl, Option, none, some, List, [], ◌∷◌, false, ◌&&◌, not, min, arith,
  ap,
}
use strife.Base.Result.{ok, err}
use strife.Base.Text.{codes, to_text, parse_u64}
use strife.Db.Schema.{thumbnail}
use strife.Db.Samples.{with_song}
use strife.Db.Files.{DownloadFileRecord, get_download_file}
use strife.Storage.Objects.{StoredObject, Reader, key_in_originals, get_range}
use strife.Api.Uploads.Header.{parse_content_range}
use strife.Api.Files.Range.{
  ByteRange, HeaderValue, header, length, parse_range, unsatisfiable, parse_range-bounds,
  parse_range-header,
}
use strife.Api.Files.{
  range, Response, is_native_preview_mime, mime_of, content_range, try_serve_original,
  safe_filename,
}
use strife.Api.Files.Served.{
  IsServed, IsSized, try_serve_original-IsServed, parse_content_range-content_range,
}
use strife.Api.Files.Cached.{Drawn, IsAnswered, artifact_request, artifact_request-IsAnswered}

abbrev middle : HeaderValue
middle = some (codes "bytes=2-4")

abbrev part : ByteRange
part = record { start = 2; end = 4 }

middle_parsed : parse_range middle 10 ≡ ok part
unfolding parse_range parse_u64
middle_parsed = refl

parse_range-bounds_example : (2 ≤ 4) × (4 < 10) × (2 + length part ≤ 10) × (0 < length part)
parse_range-bounds_example = parse_range-bounds middle 10 part middle_parsed

parse_range-header_example :
    (parse_range (header (to_text 2) (to_text 14)) 10
      ≡ ok (record { start = 2; end = min 14 (10 - 1) }))
    × (parse_range (header (to_text 2) []) 10 ≡ ok (record { start = 2; end = 10 - 1 }))
    × (parse_range (header [] (to_text 14)) 10
        ≡ ok (record { start = 10 - min 14 10; end = 10 - 1 }))
    × (parse_range (header (to_text 10) (to_text 14)) 10 ≡ err unsatisfiable)
parse_range-header_example =
    parse_range-header 10 2 14 (omega arith) (omega arith) (omega arith) (omega arith) (omega arith)

parse_content_range-content_range_example :
    parse_content_range (content_range part 10)
    ≡ some (record { start = 2; end = 4; total = some 10 })
parse_content_range-content_range_example =
    parse_content_range-content_range middle 10 part (omega arith) middle_parsed

-- Every content is ten bytes long, and the song's is 7.
abbrev ten : ℕ → ℕ
ten c = 10

abbrev objects : List StoredObject
objects = record { key = key_in_originals 70; content = 7 } ∷ []

abbrev served : Response
served = record {
  status = 206;
  content_length = some 3;
  content_type = some (codes "image/png");
  content_disposition = some (codes "attachment; filename=\"song.flac\"");
  cache_control = none;
  content_range = some (codes "bytes 2-4/10");
  body = some (record { content = 7; offset = 2; length = 3 });
}

served_part : try_serve_original ten 4 (some middle) false with_song objects ≡ ok served
unfolding try_serve_original get_download_file parse_range parse_u64 get_range safe_filename to_text
served_part = refl

sized : IsSized ten objects 4 with_song
unfolding get_download_file
sized file c found here = ap (λ (o : Option DownloadFileRecord). size_of o) found
  where
    size_of : Option DownloadFileRecord → ℕ
    size_of none = 10
    size_of (some f) = f.byte_size

try_serve_original-IsServed_example :
    (file : DownloadFileRecord) × (get_download_file 4 with_song ≡ some file)
    × ((false && not (is_native_preview_mime (mime_of file.mime_type))) ≡ false)
    × (reader : Reader) × IsServed ten objects (some middle) file reader served
try_serve_original-IsServed_example =
    try_serve_original-IsServed ten objects 4 (some middle) false with_song served sized served_part

abbrev behind : HeaderValue
behind = some (codes "bytes=10-")

refused : try_serve_original ten 4 (some behind) false with_song objects ≡ err (range 10)
unfolding try_serve_original get_download_file parse_range parse_u64
refused = refl

abbrev drawn : Drawn
drawn = record { artifact_id = 80; storage_key = 81; job_id = 82 }

artifact_request-IsAnswered_example :
    IsAnswered ten objects 4 thumbnail drawn 20 with_song
      (artifact_request ten 4 thumbnail (codes "image/png") drawn 20 with_song objects)
artifact_request-IsAnswered_example =
    artifact_request-IsAnswered ten objects 4 thumbnail drawn 20 with_song tt refl refl
      (codes "image/png") refl

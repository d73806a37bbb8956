-- ===== src/Api/Files/Served.antt =====
-- What crates/api/src/files.rs serves: the body of a download, its headers, and its errors.
use strife.Base.{
  ℕ, ◌+◌, ◌-◌, ◌≤◌, ◌≡◌, ◌⊎◌, refl, sym, ap, subst, ◌∙◌, Option, none, some, List, [], ◌∷◌, Bool,
  false, not, ◌&&◌, arith, inl, inr, min, Bool-cases, Option-cases, All,
}
use strife.Base.Result.{
  Result, ok, err, ◌>>=◌, ◌>>◌, guard, ok_or, >>=-eq-ok, Result-cases, ok_or-eq-ok, ok_injective,
}
use strife.Base.Text.{Text}
use strife.Db.Schema.{Db}
use strife.Db.Uploads.{i64_max}
use strife.Db.Files.{DownloadFileRecord, get_download_file}
use strife.Storage.Objects.{
  StoredObject, Reader, get_stream, get_range, key_in_originals, content_of,
}
use strife.Api.Uploads.Header.{parse_content_range, parse_content_range-text}
use strife.Api.Files.Range.{
  ByteRange, HeaderValue, length, parse_range, parse_range-bounds, RangeError, unsatisfiable,
}
use strife.Api.Files.{
  DownloadError, not_found, range, Response, is_native_preview_mime, mime_of, requested_range,
  content_range, read_original, original_response, try_serve_original, is_unsafe, safe_char,
  safe_filename,
}

-- No character of a served filename ends the quoted string or the header line, and a name without
-- such characters is served as it is.
pub safe_filename-All :
    (name : Text)
    → All (λ c. is_unsafe c ≡ false) (safe_filename name)
      × (All (λ c. is_unsafe c ≡ false) name → safe_filename name ≡ name)
unfolding safe_filename
safe_filename-All [] = (tt, λ h. refl)
safe_filename-All (c ∷ name) =
    let (rest, kept) = safe_filename-All name in
    ((ground arith, rest), λ h. cc (safe c h.0, kept h.1))
  where
    safe : (c : ℕ) → is_unsafe c ≡ false → safe_char c ≡ c
    safe c h = rw h refl

-- The Content-Range of a partial download is one that the upload of a chunk reads back, with the same
-- bounds and the file's size as the total.
pub parse_content_range-content_range :
    (value : HeaderValue) (total : ℕ) (r : ByteRange)
    → total ≤ i64_max
    → parse_range value total ≡ ok r
    → parse_content_range (content_range r total)
      ≡ some (record { start = r.start; end = r.end; total = some total })
parse_content_range-content_range value total r big e =
    let (le, lt, _, _) = parse_range-bounds value total r e in
    parse_content_range-text (record { start = r.start; end = r.end; total = some total })
      (ground arith) (λ n same. ground arith)

module _ (size_of : ℕ → ℕ) (objects : List StoredObject) where
  stream-whole :
      (key : ℕ) (reader : Reader)
      → get_stream size_of (key_in_originals key) objects ≡ some reader
      → (content_of (key_in_originals key) objects ≡ some reader.content)
        × (reader.offset ≡ 0)
        × (reader.length ≡ size_of reader.content)
  unfolding get_stream
  stream-whole key reader e = elim (Option-cases (content_of (key_in_originals key) objects)) [
    | inl missing ↦ absurd (ground arith)
    | inr (c, here) ↦ ground arith
  ]

  range-part :
      (key start len : ℕ) (reader : Reader)
      → get_range size_of (key_in_originals key) start len objects ≡ some reader
      → (content_of (key_in_originals key) objects ≡ some reader.content)
        × (reader.offset ≡ start)
        × (reader.length ≡ min len (size_of reader.content - start))
  unfolding get_range
  range-part key start len reader e =
      elim (Option-cases (content_of (key_in_originals key) objects)) [
        | inl missing ↦ absurd (ground arith)
        | inr (c, here) ↦ ground arith
      ]

  -- What a response says of its body: the whole file, or the range that the header asked for.
  abbrev pub IsWhole : Option HeaderValue → DownloadFileRecord → Reader → Response → Type 0
  IsWhole header file reader response =
      (header ≡ none)
      × (response.status ≡ 200)
      × (reader.offset ≡ 0)
      × (reader.length ≡ file.byte_size)
      × (response.content_range ≡ none)

  abbrev pub IsPart : Option HeaderValue → DownloadFileRecord → Reader → Response → Type 0
  IsPart header file reader response =
      (value : HeaderValue) × (r : ByteRange) × (header ≡ some value)
      × (parse_range value file.byte_size ≡ ok r)
      × (response.status ≡ 206)
      × (reader.offset ≡ r.start)
      × (reader.length ≡ length r)
      × (response.content_range ≡ some (content_range r file.byte_size))

  abbrev pub IsServed : Option HeaderValue → DownloadFileRecord → Reader → Response → Type 0
  IsServed header file reader response =
      (response.body ≡ some reader)
      × (response.content_length ≡ some reader.length)
      × (content_of (key_in_originals file.storage_key) objects ≡ some reader.content)
      × (reader.offset + reader.length ≤ file.byte_size)
      × (IsWhole header file reader response ⊎ IsPart header file reader response)

  -- Every stored object of a downloadable file has the size that its row records.
  abbrev pub IsSized : ℕ → Db → Type 0
  IsSized node_id db =
      (file : DownloadFileRecord) (c : ℕ)
      → get_download_file node_id db ≡ some file
      → content_of (key_in_originals file.storage_key) objects ≡ some c
      → size_of c ≡ file.byte_size

  abbrev finish :
      Option HeaderValue
      → Bool
      → DownloadFileRecord
      → Option ByteRange
      → Result DownloadError Response
  finish header inline file r =
      ok_or (read_original size_of file.storage_key r objects) not_found >>= λ reader.
      ok (original_response inline file r reader)

  finish-whole :
      (inline : Bool) (file : DownloadFileRecord) (response : Response)
      → ((c : ℕ)
          → content_of (key_in_originals file.storage_key) objects ≡ some c
          → size_of c ≡ file.byte_size)
      → finish none inline file none ≡ ok response
      → (reader : Reader) × IsServed none file reader response
  finish-whole inline file response sized e =
      let (reader, opened, built) =
        >>=-eq-ok (ok_or (read_original size_of file.storage_key none objects) not_found)
          (λ reader. ok (original_response inline file none reader)) e in
      let (content, at_start, whole) = stream-whole file.storage_key reader (
        ok_or-eq-ok (get_stream size_of (key_in_originals file.storage_key) objects) not_found
          opened) in
      let size = whole ∙ sized reader.content content in
      let respond : original_response inline file none reader ≡ response = ok_injective built in
      (
        reader,
        subst (IsServed none file reader) respond (
          refl,
          ap some (sym size),
          content,
          omega (arith, at_start, size),
          inl (refl, refl, at_start, size, refl),
        ),
      )

  finish-part :
      (inline : Bool) (file : DownloadFileRecord) (value : HeaderValue) (r : ByteRange)
      (response : Response)
      → ((c : ℕ)
          → content_of (key_in_originals file.storage_key) objects ≡ some c
          → size_of c ≡ file.byte_size)
      → parse_range value file.byte_size ≡ ok r
      → finish (some value) inline file (some r) ≡ ok response
      → (reader : Reader) × IsServed (some value) file reader response
  finish-part inline file value r response sized parsed e =
      let (reader, opened, built) =
        >>=-eq-ok (ok_or (read_original size_of file.storage_key (some r) objects) not_found)
          (λ reader. ok (original_response inline file (some r) reader)) e in
      let (content, at_start, part) = range-part file.storage_key r.start (length r) reader (
        ok_or-eq-ok
          (get_range size_of (key_in_originals file.storage_key) r.start (length r) objects)
          not_found opened) in
      let size = sized reader.content content in
      let (le, lt, inside, _) = parse_range-bounds value file.byte_size r parsed in
      let all : reader.length ≡ length r = omega (arith, part, size, inside) in
      let respond : original_response inline file (some r) reader ≡ response = ok_injective built in
      (
        reader,
        subst (IsServed (some value) file reader) respond (
          refl,
          ap some (sym all),
          content,
          omega (arith, at_start, all, inside),
          inr (value, r, refl, parsed, refl, at_start, all, refl),
        ),
      )

  abbrev ranged : Option HeaderValue → Bool → DownloadFileRecord → Result DownloadError Response
  ranged header inline file = requested_range header file.byte_size >>= finish header inline file

  ranged-IsServed :
      (header : Option HeaderValue) (inline : Bool) (file : DownloadFileRecord)
      (response : Response)
      → ((c : ℕ)
          → content_of (key_in_originals file.storage_key) objects ≡ some c
          → size_of c ≡ file.byte_size)
      → ranged header inline file ≡ ok response
      → (reader : Reader) × IsServed header file reader response
  ranged-IsServed none inline file response sized e = finish-whole inline file response sized e
  ranged-IsServed (some value) inline file response sized e =
      elim (Result-cases (parse_range value file.byte_size)) [
        | inl (x, bad) ↦ absurd (ground arith)
        | inr (r, parsed) ↦ finish-part inline file value r response sized parsed (rw parsed at e)
      ]

  -- A response that is not an error serves an active file with a finalized object, whose stored bytes
  -- have the recorded size: the body is the whole file when no range was asked for, and else exactly the
  -- requested bytes, which lie in the file; Content-Length is the length of the body; and a response for
  -- display in the browser has a MIME type that the browser can display.
  pub try_serve_original-IsServed :
      (node_id : ℕ) (header : Option HeaderValue) (inline : Bool) (db : Db) (response : Response)
      → IsSized node_id db
      → try_serve_original size_of node_id header inline db objects ≡ ok response
      → (file : DownloadFileRecord) × (get_download_file node_id db ≡ some file)
        × ((inline && not (is_native_preview_mime (mime_of file.mime_type))) ≡ false)
        × (reader : Reader) × IsServed header file reader response
  unfolding try_serve_original
  try_serve_original-IsServed node_id header inline db response sized e =
      let (file, found, e') =
        >>=-eq-ok (ok_or (get_download_file node_id db) not_found)
          (λ file.
            guard (not (inline && not (is_native_preview_mime (mime_of file.mime_type)))) not_found
            >> ranged header inline file)
          e in
      let here = ok_or-eq-ok (get_download_file node_id db) not_found found in
      let (_, allowed, served) =
        >>=-eq-ok
          (guard (not (inline && not (is_native_preview_mime (mime_of file.mime_type)))) not_found)
          (λ _. ranged header inline file) e' in
      (
        file,
        here,
        ground (arith, allowed),
        (ranged-IsServed header inline file response (λ c at_c. sized file c here at_c) served).0,
        (ranged-IsServed header inline file response (λ c at_c. sized file c here at_c) served).1,
      )

  finish-err :
      (header : Option HeaderValue) (inline : Bool) (file : DownloadFileRecord)
      (r : Option ByteRange) (x : DownloadError)
      → finish header inline file r ≡ err x
      → x ≡ not_found
  finish-err header inline file r x e =
      elim (Option-cases (read_original size_of file.storage_key r objects)) [
        | inl missing ↦
            let h : Path (Result DownloadError Response) (err not_found) (err x) =
              rw missing at e in
            cc
        | inr (reader, here) ↦
            let h : Path (Result DownloadError Response)
                (ok (original_response inline file r reader)) (err x) =
              rw here at e in
            cc
      ]

  abbrev Refused : Option HeaderValue → DownloadFileRecord → DownloadError → Type 0
  Refused header file x =
      (value : HeaderValue) × (header ≡ some value)
      × (parse_range value file.byte_size ≡ err unsatisfiable)
      × (x ≡ range file.byte_size)

  refuse :
      (value : HeaderValue) (file : DownloadFileRecord) (x : DownloadError) (why : RangeError)
      → parse_range value file.byte_size ≡ err why
      → Path (Result DownloadError Response) (err (range file.byte_size)) (err x)
      → Refused (some value) file x
  refuse value file x unsatisfiable bad e = (value, refl, bad, cc)

  ranged-err :
      (header : Option HeaderValue) (inline : Bool) (file : DownloadFileRecord) (x : DownloadError)
      → ranged header inline file ≡ err x
      → (x ≡ not_found) ⊎ Refused header file x
  ranged-err none inline file x e = inl (finish-err none inline file none x e)
  ranged-err (some value) inline file x e = elim (Result-cases (parse_range value file.byte_size)) [
    | inl (why, bad) ↦ inr (refuse value file x why bad (rw bad at e))
    | inr (r, parsed) ↦ inl (finish-err (some value) inline file (some r) x (rw parsed at e))
  ]

  -- The error says why: a range is refused, with the file's size, just when the header names one that
  -- parse_range refuses for this file; an internal error is never the answer; and else the file is
  -- not active, or its object is missing, or it cannot be displayed in the browser.
  pub try_serve_original-err :
      (node_id : ℕ) (header : Option HeaderValue) (inline : Bool) (db : Db) (x : DownloadError)
      → try_serve_original size_of node_id header inline db objects ≡ err x
      → (x ≡ not_found)
        ⊎ ((file : DownloadFileRecord) × (get_download_file node_id db ≡ some file)
            × (value : HeaderValue) × (header ≡ some value)
            × (parse_range value file.byte_size ≡ err unsatisfiable)
            × (x ≡ range file.byte_size))
  unfolding try_serve_original
  try_serve_original-err node_id header inline db x e =
      elim (Option-cases (get_download_file node_id db)) [
        | inl gone ↦
            let h : Path (Result DownloadError Response) (err not_found) (err x) = rw gone at e in
            inl cc
        | inr (file, here) ↦
            let allowed = not (inline && not (is_native_preview_mime (mime_of file.mime_type))) in
            let h : Path (Result DownloadError Response)
                (guard allowed not_found >> ranged header inline file) (err x) =
              rw here at e in
            elim (Bool-cases allowed) [
              | inl shown ↦ elim (ranged-err header inline file x (rw shown at h)) [
                | inl missing ↦ inl missing
                | inr (value, named, bad, why) ↦ inr (file, here, value, named, bad, why)
              ]
              | inr hidden ↦
                  let g : Path (Result DownloadError Response) (err not_found) (err x) =
                    rw hidden at h in
                  inl cc
            ]
      ]

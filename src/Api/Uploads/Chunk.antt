-- ===== src/Api/Uploads/Chunk.antt =====
-- upload_chunk of crates/api/src/uploads.rs: the tables and the staged object after the request.
use strife.Base.{
  ℕ, ltb, Bool-cases, suc, ◌+◌, ◌-◌, ◌<◌, ◌≡◌, ◌⊎◌, refl, sym, ap, subst, ◌∙◌, Option, none, some,
  List, [], ◌∷◌, true, false, ◌&&◌, not, arith, inl, inr, ◌==◌, any, All, Option-cases,
}
use strife.Base.Int.{pos, pos_part}
use strife.Base.Rows.{row-update_rows, key-row}
use strife.Base.Result.{Result, ok, err, Result-cases}
use strife.Storage.Objects.{
  StorageKey, StoredObject, Body, write_range, put_stream, content_of, same_key, key_in_staging,
  put_stream-content_of,
}
use strife.Db.Schema.{Db, UploadSessionRecord, UploadSessionState, UploadChunk}
use strife.Db.Uploads.{
  get_session_progress, get_upload_session, record_chunk, is_active, overlaps, receive,
  insert_chunk, byte_count,
}
use strife.Db.Uploads.Chunks.{record_chunk-parts}
use strife.Importer.{World}
use strife.Api.Uploads.{
  ContentRange, UploadApiError, UploadProgressResponse, is_content_range, check_chunk,
  record_written, with_db, upload_chunk, progress_of, below_total, same_size, is_given,
}

module _ (id i : ℕ) (range : ContentRange) (body : Body) (now : ℕ) (w : World) where
  -- The body has been written over the staged object of the session, and no other object is changed.
  abbrev pub IsWritten : UploadSessionRecord → List StoredObject → Type 0
  IsWritten t objects =
      (content_of (key_in_staging t.staging_key) objects
        ≡ some (body.over (content_of (key_in_staging t.staging_key) w.objects) range.start))
      × ((k : StorageKey)
          → same_key (key_in_staging t.staging_key) k ≡ false
          → content_of k objects ≡ content_of k w.objects)

  -- A chunk of another session, or one that the range lies beside.
  abbrev pub IsApart : UploadChunk → Type 0
  IsApart c =
      (c.session_id == i ≡ false) ⊎ ((c.end_byte < range.start) ⊎ (range.end < c.start_byte))

  -- No total is named, or the session's expected size, which the range lies below.
  abbrev pub HasTotal : UploadSessionRecord → Type 0
  HasTotal t =
      (range.total ≡ none)
      ⊎ ((n : ℕ) × (range.total ≡ some n) × (t.expected_byte_size ≡ some n) × (range.end < n))

  abbrev pub Accepted : UploadSessionRecord → UploadProgressResponse → Db → Type 0
  Accepted t p after =
      (c : UploadChunk) × (u : UploadSessionRecord) × (body.size ≡ suc (range.end - range.start))
      × HasTotal t
      × All IsApart w.db.upload_chunks
      × (after.upload_chunks ≡ c ∷ w.db.upload_chunks)
      × (c.session_id ≡ i)
      × (c.start_byte ≡ range.start)
      × (c.end_byte ≡ range.end)
      × (get_upload_session i after.upload_sessions ≡ some u)
      × (u.received_bytes ≡ t.received_bytes + body.size)
      × (p.received_bytes ≡ u.received_bytes)
      × (p.expected_bytes ≡ t.expected_byte_size)

  abbrev pub Outcome : Result UploadApiError UploadProgressResponse × World → Type 0
  Outcome r =
      ((e : UploadApiError) × (r ≡ (err e, w)))
      ⊎ ((t : UploadSessionRecord) × (get_upload_session i w.db.upload_sessions ≡ some t)
          × (t.state ≡ UploadSessionState.active)
          × IsWritten t r.1.objects
          × (((e : UploadApiError) × (r.0 ≡ err e) × (r.1.db ≡ w.db))
              ⊎ ((p : UploadProgressResponse) × (r.0 ≡ ok p) × Accepted t p r.1.db)))

  active_eq : (s : UploadSessionState) → is_active s ≡ true → s ≡ UploadSessionState.active
  active_eq UploadSessionState.active h = refl
  active_eq UploadSessionState.finalizing h = cc
  active_eq UploadSessionState.completed h = cc
  active_eq UploadSessionState.cancelled h = cc
  active_eq UploadSessionState.expired h = cc

  total-fits :
      (total expected : Option ℕ) (end n : ℕ)
      → total ≡ some n
      → not (is_given total && not (same_size total expected)) ≡ true
      → below_total total end ≡ true
      → (expected ≡ some n) × (end < n)
  total-fits none expected end n e h b = cc
  total-fits (some m) none end n e h b = absurd (ground arith)
  total-fits (some m) (some k) end n e h b = (ground arith, ground arith)

  check_chunk-parts :
      (t : UploadSessionRecord)
      → check_chunk i range w.db ≡ ok t
      → (get_upload_session i w.db.upload_sessions ≡ some t)
        × (is_active t.state ≡ true)
        × (not (is_given range.total && not (same_size range.total t.expected_byte_size)) ≡ true)
  unfolding check_chunk get_session_progress
  check_chunk-parts t e = elim (Option-cases (get_upload_session i w.db.upload_sessions)) [
    | inl missing ↦ absurd (ground arith)
    | inr (s, found) ↦ (ground arith, ground arith, ground arith)
  ]

  apart :
      (a b : ℕ) (cs : List UploadChunk)
      → a ≡ range.start
      → b ≡ range.end
      → any (overlaps i (pos a) (pos b)) cs ≡ false
      → All IsApart cs
  apart a b [] at_a at_b h = tt
  apart a b (c ∷ cs) at_a at_b h = (
    elim (Bool-cases (c.session_id == i)) [
      | inr other ↦ inl other
      | inl own ↦ inr (elim (Bool-cases (ltb c.end_byte range.start)) [
        | inl before ↦ inl (ground arith)
        | inr reaches ↦ inr (ground arith)
      ])
    ],
    apart a b cs at_a at_b (ground arith),
  )

  record_written-parts :
      (p : UploadProgressResponse) (after : Db)
      → record_written id i range body.size now w.db ≡ ok (p, after)
      → (r : UploadSessionRecord) × (record_chunk id i (pos range.start) (pos range.end) now w.db
          ≡ ok (r, after))
        × (p ≡ progress_of r)
        × (body.size ≡ suc (range.end - range.start))
  unfolding record_written
  record_written-parts p after e =
      elim (Result-cases (record_chunk id i (pos range.start) (pos range.end) now w.db)) [
        | inl (x, failed) ↦ absurd (ground arith)
        | inr (r, done) ↦ (r.0, ground arith, ground arith, ground arith)
      ]

  record_chunk-row :
      (t r : UploadSessionRecord) (after : Db)
      → get_upload_session i w.db.upload_sessions ≡ some t
      → record_chunk id i (pos range.start) (pos range.end) now w.db ≡ ok (r, after)
      → r ≡ receive (suc (range.end - range.start)) now t
  unfolding record_chunk insert_chunk byte_count
  record_chunk-row t r after found e = ground arith

  recorded-Accepted :
      (t : UploadSessionRecord) (p : UploadProgressResponse) (after : Db)
      → is_content_range range ≡ true
      → check_chunk i range w.db ≡ ok t
      → record_written id i range body.size now w.db ≡ ok (p, after)
      → Accepted t p after
  recorded-Accepted t p after is_range checked e =
      let (found, live, total) = check_chunk-parts t checked in
      let (r, done, answered, whole) = record_written-parts p after e in
      let (a, b, s, at_s, at_a, at_b, le, free, chunks, sessions) =
        record_chunk-parts id i (pos range.start) (pos range.end) now w.db after r done in
      let is_a : a ≡ range.start = sym (ap pos_part at_a) in
      let is_b : b ≡ range.end = sym (ap pos_part at_b) in
      let u = receive (suc (range.end - range.start)) now t in
      let is_r = record_chunk-row t r after found done in
      (
        record { id = id; session_id = i; start_byte = a; end_byte = b },
        u,
        whole,
        elim (Option-cases range.total) [
          | inl free_size ↦ inl free_size
          | inr (n, at_n) ↦
              let fits =
                total-fits range.total t.expected_byte_size range.end n at_n total (ground arith) in
              inr (n, at_n, fits.0, fits.1)
        ],
        apart a b w.db.upload_chunks is_a is_b free,
        chunks,
        refl,
        is_a,
        is_b,
        ap (get_upload_session i) sessions
            ∙ row-update_rows (λ x. x.id) (λ x. x.id == i) (receive (suc (b - a)) now) (λ x. refl) i
                w.db.upload_sessions
            ∙ rw (found, is_a, is_b)
                (ground (arith, key-row (λ x. x.id) i w.db.upload_sessions t found)),
        ap (λ n. t.received_bytes + n) (sym whole),
        ap (λ (q : UploadProgressResponse). q.received_bytes) answered
            ∙ ap (λ (q : UploadSessionRecord). q.received_bytes) is_r,
        ap (λ (q : UploadProgressResponse). q.expected_bytes) answered
            ∙ ap (λ (q : UploadSessionRecord). q.expected_byte_size) is_r,
      )

  with_db-Outcome :
      (t : UploadSessionRecord) (objects : List StoredObject)
      (r : Result UploadApiError (UploadProgressResponse × Db))
      → get_upload_session i w.db.upload_sessions ≡ some t
      → t.state ≡ UploadSessionState.active
      → IsWritten t objects
      → ((p : UploadProgressResponse) (after : Db) → r ≡ ok (p, after) → Accepted t p after)
      → Outcome (with_db r (record w { objects = objects }))
  with_db-Outcome t objects (err e) found live put accepted =
      inr (t, found, live, put, inl (e, refl, refl))
  with_db-Outcome t objects (ok (p, after)) found live put accepted =
      inr (t, found, live, put, inr (p, refl, accepted p after refl))

  -- A chunk is refused before its body is read, and then nothing is changed; or its body is written
  -- over the staged object of its active session, which is the only object that changes. Then the
  -- request may still be refused, with no row changed but with the bytes written; or it is accepted:
  -- the body is as long as its Content-Range, which lies beside the chunks that the session has and
  -- below a total that it names, the session's expected size; the chunk has a row, and its length is
  -- added to the bytes received, which are answered.
  pub upload_chunk-Outcome :
      is_content_range range ≡ true → Outcome (upload_chunk id i range body now w)
  unfolding upload_chunk write_range
  upload_chunk-Outcome is_range = elim (Result-cases (check_chunk i range w.db)) [
    | inl (e, refused) ↦
        subst Outcome {x = (err e, w)} (sym (rw (upload_chunk, refused) refl)) (inl (e, refl))
    | inr (t, checked) ↦
        let (found, live, total) = check_chunk-parts t checked in
        let key = key_in_staging t.staging_key in
        let content = body.over (content_of key w.objects) range.start in
        let r = record_written id i range body.size now w.db in
        subst Outcome {x = with_db r (record w { objects = put_stream key content w.objects })}
          (sym (rw (upload_chunk, checked) refl))
          (with_db-Outcome t (put_stream key content w.objects) r found (active_eq t.state live)
            (put_stream-content_of key content w.objects)
            (λ p after done. recorded-Accepted t p after is_range checked done))
  ]

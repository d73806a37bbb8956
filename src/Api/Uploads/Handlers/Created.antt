-- ===== src/Api/Uploads/Handlers/Created.antt =====
-- create_upload of crates/api/src/uploads.rs: what a created session has, and what a refusal leaves.
use strife.Base.{
  ℕ, ◌≡◌, ◌⊎◌, refl, sym, ap, subst, ◌∙◌, Option, some, false, arith, inl, inr, str_eq, Bool-cases,
}
use strife.Base.Result.{Result, ok, err, Result-cases}
use strife.Storage.Objects.{
  StorageKey, content_of, put_stream, put_stream-content_of, delete-content_of, same_key,
  key_in_staging,
}
use strife.Db.Schema.{Db, DbError, UploadSessionRecord, NodeRecord}
use strife.Db.Uploads.{CreateUploadSession, create_session, get_upload_session, new_session}
use strife.Importer.{World}
use strife.Api.Uploads.{UploadApiError}
use strife.Api.Uploads.Handlers.{
  CreateUploadRequest, Draws, check_upload, session_input, session_opened, create_upload,
}

create_session-row :
    (id : ℕ) (input : CreateUploadSession) (now : ℕ) (db after : Db) (s : UploadSessionRecord)
    → create_session id input now db ≡ ok (s, after)
    → (s ≡ new_session id input now)
      × (get_upload_session id after.upload_sessions ≡ some (new_session id input now))
unfolding create_session
create_session-row id input now db after s e = elim (Bool-cases (str_eq input.display_name "")) [
  | inl blank ↦ absurd (ground arith)
  | inr named ↦ ground arith
]

-- Every object but the staged one of the new session.
abbrev pub OthersKept : ℕ → World → World → Type 0
OthersKept staging_key w after =
    (k : StorageKey)
    → same_key (key_in_staging staging_key) k ≡ false
    → content_of k after.objects ≡ content_of k w.objects

abbrev pub IsOpened : CreateUploadRequest → Draws → ℕ → World → ℕ → ℕ → World → Type 0
IsOpened request draws now w id key after =
    (folder : NodeRecord) × (size : Option ℕ) × (check_upload request draws w.db
      ≡ ok (folder, size))
    × (id ≡ draws.session_id)
    × (key ≡ draws.staging_key)
    × (get_upload_session id after.db.upload_sessions
        ≡ some (new_session id (session_input request draws folder.id size now) now))
    × (content_of (key_in_staging key) after.objects ≡ some 0)
    × OthersKept draws.staging_key w after

module _ (request : CreateUploadRequest) (draws : Draws) (now : ℕ) (w : World) where
  Outcome : Result UploadApiError (ℕ × ℕ) × World → Type 0
  Outcome r =
      ((e : UploadApiError) × (r.0 ≡ err e) × (r.1.db ≡ w.db) × OthersKept draws.staging_key w r.1)
      ⊎ ((id : ℕ) × (key : ℕ) × (r.0 ≡ ok (id, key)) × IsOpened request draws now w id key r.1)

  put-OthersKept :
      (db : Db)
      → OthersKept draws.staging_key w
          (record { db = db; objects = put_stream (key_in_staging draws.staging_key) 0 w.objects })
  put-OthersKept db k apart =
      (put_stream-content_of (key_in_staging draws.staging_key) 0 w.objects).1 k apart

  session_opened-Outcome :
      (folder : NodeRecord) (size : Option ℕ) (r : Result DbError (UploadSessionRecord × Db))
      → check_upload request draws w.db ≡ ok (folder, size)
      → create_session draws.session_id (session_input request draws folder.id size now) now w.db
        ≡ r
      → Outcome (
          session_opened draws.staging_key r w.db
            (put_stream (key_in_staging draws.staging_key) 0 w.objects))
  unfolding Outcome
  session_opened-Outcome folder size (err e) checked made = inl (
    _,
    refl,
    refl,
    (λ k apart.
        delete-content_of (key_in_staging draws.staging_key) k
          (put_stream (key_in_staging draws.staging_key) 0 w.objects) apart
        ∙ put-OthersKept w.db k apart),
  )
  session_opened-Outcome folder size (ok (s, after)) checked made =
      let (same, found) =
        create_session-row draws.session_id (session_input request draws folder.id size now) now
          w.db after s made in
      let id_same : s.id ≡ draws.session_id = ap (λ (x : UploadSessionRecord). x.id) same in
      inr (
        s.id,
        draws.staging_key,
        refl,
        (
          folder,
          size,
          checked,
          id_same,
          refl,
          subst
              (λ i.
                get_upload_session i after.upload_sessions
                ≡ some (new_session i (session_input request draws folder.id size now) now))
              (sym id_same) found,
          (put_stream-content_of (key_in_staging draws.staging_key) 0 w.objects).0,
          put-OthersKept after,
        ),
      )

  -- A session that is created is active, has passed the tests, and has an empty staged object; a
  -- refusal leaves the database as it was. Either leaves every other object as it was.
  pub create_upload-IsOpened :
      ((e : UploadApiError) × ((create_upload request draws now w).0 ≡ err e)
        × ((create_upload request draws now w).1.db ≡ w.db)
        × OthersKept draws.staging_key w (create_upload request draws now w).1)
      ⊎ ((id : ℕ) × (key : ℕ) × ((create_upload request draws now w).0 ≡ ok (id, key))
          × IsOpened request draws now w id key (create_upload request draws now w).1)
  unfolding create_upload Outcome
  create_upload-IsOpened = elim (Result-cases (check_upload request draws w.db)) [
    | inl (e, refused) ↦
        subst Outcome {x = (err e, w)} (sym (rw (create_upload, refused) refl))
          (inl (e, refl, refl, (λ k apart. refl)))
    | inr ((folder, size), checked) ↦
        subst Outcome
          {x = session_opened draws.staging_key
            (create_session draws.session_id (session_input request draws folder.id size now) now
              w.db)
            w.db (put_stream (key_in_staging draws.staging_key) 0 w.objects)}
          (sym (rw (create_upload, checked) refl))
          (session_opened-Outcome folder size
            (create_session draws.session_id (session_input request draws folder.id size now) now
              w.db)
            checked refl)
  ]

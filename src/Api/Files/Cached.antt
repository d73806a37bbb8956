-- ===== src/Api/Files/Cached.antt =====
-- artifact_request and generating_response of crates/api/src/files.rs: cached previews and thumbnails,
-- and the jobs that make them.
use strife.Base.{
  ℕ, ◌≡◌, ◌⊎◌, refl, sym, ap, subst, ◌∙◌, String, Option, none, some, List, [], ◌∷◌, Bool, true,
  false, ◌||◌, arith, inl, inr, ◌==◌, if◌then◌else◌, any, find, Bool-cases, Option-cases,
}
use strife.Base.Int.{pos}
use strife.Base.Rows.{NoClash}
use strife.Base.Result.{Result, ok, err}
use strife.Base.Text.{Text, codes, starts_with, same_text}
use strife.Db.Schema.{
  Db, DbError, JobType, JobRecord, ArtifactType, ArtifactState, DerivedArtifactRecord,
}
use strife.Db.Nodes.{node_exists}
use strife.Db.Jobs.{enqueue_job, occupies, new_job}
use strife.Db.Artifacts.{UpsertArtifact, get_artifact, create_or_update_artifact}
use strife.Db.Artifacts.Upserted.{
  create_or_update_artifact-get, create_or_update_artifact-done, artifact_clash,
}
use strife.Db.Files.{get_file_object_by_node_id}
use strife.Storage.Objects.{StoredObject, Reader, get_stream, key_in_artifacts}
use strife.Api.Files.Range.{HeaderValue}
use strife.Api.Files.{Response, is_native_preview_mime, mime_of, preview_native}

pub data PreviewResponse : Type 0 where
  original : Response → PreviewResponse
  cached : String → Reader → PreviewResponse
  generating : ℕ → PreviewResponse
  file_not_found preview_not_supported internal_error : PreviewResponse

abbrev contains : Text → Text → Bool
contains part [] = starts_with part []
contains part (c ∷ s) = starts_with part (c ∷ s) || contains part s

abbrev pub is_supported : Text → Bool
is_supported mime =
    starts_with (codes "image/") mime
    || (starts_with (codes "video/") mime
        || (same_text mime (codes "application/pdf")
            || (same_text mime (codes "application/msword")
                || contains (codes "wordprocessingml") mime)))

-- The active preview job of a node, which jobs_active_type_target_unique makes the only one.
abbrev pub preview_job : ℕ → List JobRecord → Option JobRecord
preview_job id = find (occupies JobType.preview_generation id)

abbrev answer_with : Option JobRecord → PreviewResponse
answer_with none = internal_error
answer_with (some job) = generating job.id

abbrev enqueued : ℕ → Result DbError (Option JobRecord × List JobRecord) → Db → PreviewResponse × Db
enqueued id (err e) db = (internal_error, db)
enqueued id (ok (none, jobs)) db = (answer_with (preview_job id db.jobs), db)
enqueued id (ok (some job, jobs)) db = (generating job.id, record db { jobs = jobs })

unfoldable pub generating_response : ℕ → ℕ → ℕ → Db → PreviewResponse × Db
generating_response job_id id now db =
    enqueued id
      (enqueue_job job_id JobType.preview_generation id (pos 0) now (node_exists id db.nodes)
        db.jobs)
      db

-- The keys that are drawn: of the artifact's row, of its object, and of the job.
pub record Drawn : Type 0 where
  pub artifact_id : ℕ
  pub storage_key : ℕ
  pub job_id : ℕ

abbrev pub to_generate : ℕ → ArtifactType → ℕ → UpsertArtifact
to_generate id kind key = record {
  node_id = id;
  artifact_type = kind;
  format = "application/octet-stream";
  width = none;
  height = none;
  storage_key = key;
  byte_size = 0;
  generator_version = "preview-v1";
  state = ArtifactState.generating;
}

abbrev after_upsert :
    ℕ → ℕ → ℕ → Db → Result DbError (DerivedArtifactRecord × Db) → PreviewResponse × Db
after_upsert job_id id now db (err e) = (internal_error, db)
after_upsert job_id id now db (ok (a, after)) = generating_response job_id id now after

-- A new object is generated for the artifact, whatever object it had.
unfoldable pub regenerate : ℕ → ArtifactType → Drawn → ℕ → Db → PreviewResponse × Db
regenerate id kind drawn now db =
    after_upsert drawn.job_id id now db
      (create_or_update_artifact drawn.artifact_id (to_generate id kind drawn.storage_key) now db)

abbrev or_regenerate :
    String → Option Reader → ℕ → ArtifactType → Drawn → ℕ → Db → PreviewResponse × Db
or_regenerate format (some reader) id kind drawn now db = (cached format reader, db)
or_regenerate format none id kind drawn now db = regenerate id kind drawn now db

abbrev by_state :
    (ℕ → ℕ)
    → List StoredObject
    → ArtifactState
    → DerivedArtifactRecord
    → ℕ
    → ArtifactType
    → Drawn
    → ℕ
    → Db
    → PreviewResponse × Db
by_state size_of objects ArtifactState.ready a id kind drawn now db =
    or_regenerate a.format (get_stream size_of (key_in_artifacts a.storage_key) objects) id kind
      drawn now db
by_state size_of objects ArtifactState.generating a id kind drawn now db =
    generating_response drawn.job_id id now db
by_state size_of objects ArtifactState.failed a id kind drawn now db =
    regenerate id kind drawn now db

unfoldable pub artifact_request :
    (ℕ → ℕ) → ℕ → ArtifactType → Text → Drawn → ℕ → Db → List StoredObject → PreviewResponse × Db
artifact_request size_of id kind mime drawn now db objects =
    if is_supported mime
    then elim (get_artifact id kind db.derived_artifacts) [
      | none ↦ regenerate id kind drawn now db
      | some a ↦ by_state size_of objects a.state a id kind drawn now db
    ]
    else (preview_not_supported, db)

unfoldable pub preview_request :
    (ℕ → ℕ) → ℕ → Option HeaderValue → Drawn → ℕ → Db → List StoredObject → PreviewResponse × Db
preview_request size_of id header drawn now db objects =
    elim (get_file_object_by_node_id id db.file_objects) [
      | none ↦ (file_not_found, db)
      | some file ↦
          if is_native_preview_mime (mime_of file.mime_type)
          then (original (preview_native size_of id header db objects), db)
          else artifact_request size_of id ArtifactType.preview (mime_of file.mime_type) drawn now
              db objects
    ]

unfoldable pub thumbnail_request :
    (ℕ → ℕ) → ℕ → Drawn → ℕ → Db → List StoredObject → PreviewResponse × Db
thumbnail_request size_of id drawn now db objects =
    elim (get_file_object_by_node_id id db.file_objects) [
      | none ↦ (file_not_found, db)
      | some file ↦
          artifact_request size_of id ArtifactType.thumbnail (mime_of file.mime_type) drawn now db
            objects
    ]

-- A response that says that something is being generated names the job that does it.
abbrev pub HasJob : ℕ → PreviewResponse × Db → Type 0
HasJob id r = (job : JobRecord) × (r.0 ≡ generating job.id) × (preview_job id r.1.jobs ≡ some job)

find-any {ℓ} :
    {A : Type ℓ} (p q : A → Bool) (xs : List A)
    → any (λ x. p x || q x) xs ≡ true
    → any p xs ≡ false
    → (x : A) × (find q xs ≡ some x)
find-any p q [] h f = cc
find-any p q (x ∷ xs) h f = elim (Bool-cases (q x)) [
  | inl here ↦ (x, rw here refl)
  | inr later ↦
      let (y, found) = find-any p q xs (ground arith) (ground arith) in (y, rw later found)
]

-- The response, and what it leaves of the artifacts and of the nodes.
abbrev Answered : ℕ → Db → PreviewResponse × Db → Type 0
Answered id db r =
    HasJob id r × (r.1.derived_artifacts ≡ db.derived_artifacts) × (r.1.nodes ≡ db.nodes)

generating_response-Answered :
    (job_id id now : ℕ) (db : Db)
    → node_exists id db.nodes ≡ true
    → any (λ j. j.id == job_id) db.jobs ≡ false
    → Answered id db (generating_response job_id id now db)
unfolding generating_response enqueue_job
generating_response-Answered job_id id now db exists fresh =
    elim (Bool-cases
      (any (λ j. j.id == job_id || occupies JobType.preview_generation id j) db.jobs)) [
        | inl taken ↦
            let (job, found) =
              find-any (λ j. j.id == job_id) (occupies JobType.preview_generation id) db.jobs taken
                fresh in
            rw (taken, found) ((job, refl, refl), refl, refl)
        | inr free ↦
            rw (free, exists)
              (
                (new_job job_id JobType.preview_generation id (pos 0) now, refl, ground arith),
                refl,
                refl,
              )
      ]

-- The artifact of a node and kind, once it is asked for again.
abbrev pub IsGenerating : ℕ → ArtifactType → PreviewResponse × Db → Type 0
IsGenerating id kind r =
    (a : DerivedArtifactRecord) × (get_artifact id kind r.1.derived_artifacts ≡ some a)
    × (a.state ≡ ArtifactState.generating)

regenerate-HasJob :
    (id : ℕ) (kind : ArtifactType) (drawn : Drawn) (now : ℕ) (db : Db)
    → NoClash artifact_clash db.derived_artifacts
    → node_exists id db.nodes ≡ true
    → any (λ j. j.id == drawn.job_id) db.jobs ≡ false
    → HasJob id (regenerate id kind drawn now db)
      × IsGenerating id kind (regenerate id kind drawn now db)
unfolding regenerate
regenerate-HasJob id kind drawn now db unique exists fresh =
    let (a, after, done, nodes, jobs) =
      create_or_update_artifact-done drawn.artifact_id (to_generate id kind drawn.storage_key) now
        db exists in
    let (wrote, found, _, _) =
      create_or_update_artifact-get drawn.artifact_id (to_generate id kind drawn.storage_key) now db
        after a unique done in
    let (job, same, _) =
      generating_response-Answered drawn.job_id id now after (ap (node_exists id) nodes ∙ exists)
        (ap (any (λ j. j.id == drawn.job_id)) jobs ∙ fresh) in
    rw done ((job, (a, ap (get_artifact id kind) same ∙ found, wrote.2)))

module _ (size_of : ℕ → ℕ) (objects : List StoredObject) (id : ℕ) (kind : ArtifactType)
    (drawn : Drawn) (now : ℕ) (db : Db) where
  -- The answer is the artifact's object, or a job that is to make it.
  abbrev pub IsAnswered : PreviewResponse × Db → Type 0
  IsAnswered r =
      ((a : DerivedArtifactRecord) × (reader : Reader) × (get_artifact id kind db.derived_artifacts
          ≡ some a)
        × (get_stream size_of (key_in_artifacts a.storage_key) objects ≡ some reader)
        × (r ≡ (cached a.format reader, db)))
      ⊎ (HasJob id r × IsGenerating id kind r)

  module _ (unique : NoClash artifact_clash db.derived_artifacts)
      (exists : node_exists id db.nodes ≡ true)
      (fresh : any (λ j. j.id == drawn.job_id) db.jobs ≡ false) where
    or_regenerate-IsAnswered :
        (a : DerivedArtifactRecord) (o : Option Reader)
        → get_artifact id kind db.derived_artifacts ≡ some a
        → get_stream size_of (key_in_artifacts a.storage_key) objects ≡ o
        → IsAnswered (or_regenerate a.format o id kind drawn now db)
    or_regenerate-IsAnswered a (some reader) here open_object =
        inl (a, reader, here, open_object, refl)
    or_regenerate-IsAnswered a none here lost =
        inr (regenerate-HasJob id kind drawn now db unique exists fresh)

    by_state-IsAnswered :
        (s : ArtifactState) (a : DerivedArtifactRecord)
        → get_artifact id kind db.derived_artifacts ≡ some a
        → a.state ≡ s
        → IsAnswered (by_state size_of objects s a id kind drawn now db)
    by_state-IsAnswered ArtifactState.ready a here state =
        or_regenerate-IsAnswered a (get_stream size_of (key_in_artifacts a.storage_key) objects)
          here refl
    by_state-IsAnswered ArtifactState.generating a here state =
        let (job, same, _) = generating_response-Answered drawn.job_id id now db exists fresh in
        inr (job, (a, ap (get_artifact id kind) same ∙ here, state))
    by_state-IsAnswered ArtifactState.failed a here state =
        inr (regenerate-HasJob id kind drawn now db unique exists fresh)

    -- A request for a preview or a thumbnail of a type that has them, for a file that is there: it is
    -- answered with the artifact's object, or with the id of a pending or leased preview job of the
    -- file; and in the second case the artifact is waiting to be generated. The fresh id of a job is
    -- that of no other.
    pub artifact_request-IsAnswered :
        (mime : Text)
        → is_supported mime ≡ true
        → IsAnswered (artifact_request size_of id kind mime drawn now db objects)
    unfolding artifact_request
    artifact_request-IsAnswered mime supported =
        elim (Option-cases (get_artifact id kind db.derived_artifacts)) [
          | inl new ↦
              subst IsAnswered {x = regenerate id kind drawn now db}
                (sym (rw (supported, new) refl))
                (inr (regenerate-HasJob id kind drawn now db unique exists fresh))
          | inr (a, here) ↦
              subst IsAnswered {x = by_state size_of objects a.state a id kind drawn now db}
                (sym (rw (supported, here) refl)) (by_state-IsAnswered a.state a here refl)
        ]

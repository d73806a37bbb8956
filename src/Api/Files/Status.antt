-- ===== src/Api/Files/Status.antt =====
-- processing_status, file_metadata, file_streams and file_details of crates/api/src/files.rs.
use strife.Base.{
  ℕ, ◌≡◌, ◌↔◌, refl, String, Option, none, some, List, [], ◌∷◌, map, Bool, true, false, ◌&&◌, ◌||◌,
  not, arith, inl, inr, ltb, ◌==◌, if◌then◌else◌, any, count, find, where_rows, order_by,
  Bool-cases,
}
use strife.Base.Int.{ltb_ℤ}
use strife.Base.Result.{Result, ok, ◌>>=◌, ◌>>◌, guard, ok_or}
use strife.Db.Schema.{Db, JobRecord, JobState, NodeRecord}
use strife.Db.Jobs.{is_active}
use strife.Db.Files.{active_file, finalized_of}
use strife.Db.Metadata.{MetadataRecord, MetadataStatus, MediaStream, MetadataTables, NodeMetadata}
use strife.Worker.Metadata.Tables.{metadata_of}

pub data ProcessingStatus : Type 0 where
  processing ready partially_processed failed : ProcessingStatus

pub data StatusCode : Type 0 where
  not_found internal_server_error : StatusCode

abbrev failed_job : JobState → Bool
failed_job JobState.failed = true
failed_job _ = false

abbrev successful : MetadataStatus → Bool
successful MetadataStatus.completed = true
successful MetadataStatus.unsupported = true
successful _ = false

abbrev failed_record : MetadataStatus → Bool
failed_record MetadataStatus.failed = true
failed_record _ = false

-- The rows that count(*) FILTER counts.
abbrev pub counts_active : ℕ → JobRecord → Bool
counts_active node_id j = j.target_node_id == node_id && is_active j.state

abbrev pub counts_failed_job : ℕ → JobRecord → Bool
counts_failed_job node_id j = j.target_node_id == node_id && failed_job j.state

abbrev pub counts_successful : ℕ → MetadataRecord → Bool
counts_successful node_id r = r.node_id == node_id && successful r.status

abbrev pub counts_failed : ℕ → MetadataRecord → Bool
counts_failed node_id r = r.node_id == node_id && failed_record r.status

abbrev status_of : Bool → Bool → Bool → Bool → ProcessingStatus
status_of active failed_jobs succeeded failed_metadata =
    if active
    then processing
    else if succeeded && failed_metadata
    then partially_processed
    else if failed_jobs || failed_metadata
    then failed
    else if succeeded
    then ready
    else processing

unfoldable pub processing_status : ℕ → List JobRecord → List MetadataRecord → ProcessingStatus
processing_status node_id jobs records =
    let active = count (counts_active node_id) jobs in
    let failed_jobs = count (counts_failed_job node_id) jobs in
    let succeeded = count (counts_successful node_id) records in
    let failed_metadata = count (counts_failed node_id) records in
    status_of (ltb 0 active) (ltb 0 failed_jobs) (ltb 0 succeeded) (ltb 0 failed_metadata)

-- SELECT EXISTS (… WHERE id = $1 AND kind = 'file' AND lifecycle_state = 'active')
unfoldable pub ensure_active_file : ℕ → List NodeRecord → Result StatusCode (Unit {0})
ensure_active_file node_id nodes = guard (any (active_file node_id) nodes) not_found

-- A record as it is shown: its payload is shown when the query asks for it.
pub record MetadataResponse : Type 0 where
  pub id : ℕ
  pub extractor_name : String
  pub extractor_version : String
  pub status : MetadataStatus
  pub raw_payload : Option ℕ
  pub warnings : List String
  pub created_at : ℕ
  pub updated_at : ℕ

abbrev metadata_response : Bool → MetadataRecord → MetadataResponse
metadata_response raw r = record {
  id = r.id;
  extractor_name = r.extractor_name;
  extractor_version = r.extractor_version;
  status = r.status;
  raw_payload = if raw then some r.raw_payload else none;
  warnings = r.warnings;
  created_at = r.created_at;
  updated_at = r.updated_at;
}

-- `name_le` is the order of the database's collation.
unfoldable pub file_metadata :
    (String → String → Bool)
    → ℕ
    → Bool
    → Db
    → MetadataTables
    → Result StatusCode (List MetadataResponse)
file_metadata name_le node_id raw db tables = do
  ensure_active_file node_id db.nodes
  ok (
      map (metadata_response raw) (
        order_by (λ a b. name_le a.extractor_name b.extractor_name)
          (where_rows (λ r. r.node_id == node_id) tables.metadata_records)))

unfoldable pub file_streams : ℕ → Db → MetadataTables → Result StatusCode (List MediaStream)
file_streams node_id db tables = do
  ensure_active_file node_id db.nodes
  ok (
      order_by (λ a b. not (ltb_ℤ b.stream.stream_index a.stream.stream_index))
        (where_rows (λ r. r.node_id == node_id) tables.media_streams))

-- The columns of the three tables, and the status. A file without a row of metadata has none of them.
pub record FileDetailsResponse : Type 0 where
  pub node : NodeRecord
  pub byte_size : ℕ
  pub checksum_sha256 : Option String
  pub metadata : Option NodeMetadata
  pub processing_status : ProcessingStatus

unfoldable pub file_details : ℕ → Db → MetadataTables → Result StatusCode FileDetailsResponse
unfolding processing_status
file_details node_id db tables = do
  n ← ok_or (find (active_file node_id) db.nodes) not_found
  o ← ok_or (find (finalized_of node_id) db.file_objects) not_found
  ok (record {
    node = n;
    byte_size = o.byte_size;
    checksum_sha256 = o.checksum_sha256;
    metadata = find (metadata_of node_id) tables.node_metadata;
    processing_status = processing_status node_id db.jobs tables.metadata_records;
  })

count-any {ℓ} : {A : Type ℓ} (p : A → Bool) (xs : List A) → ltb 0 (count p xs) ≡ any p xs
count-any p [] = refl
count-any p (x ∷ xs) = elim (Bool-cases (p x)) [
  | inl here ↦ rw here (ground arith)
  | inr later ↦ rw later (count-any p xs)
]

status-cases :
    (active failed_jobs succeeded failed_metadata : Bool)
    → ((status_of active failed_jobs succeeded failed_metadata ≡ ready) ↔ (
        (active ≡ false) × (failed_jobs ≡ false) × (failed_metadata ≡ false) × (succeeded ≡ true)))
      × ((status_of active failed_jobs succeeded failed_metadata ≡ partially_processed)
          ↔ ((active ≡ false) × (failed_metadata ≡ true) × (succeeded ≡ true)))
      × ((status_of active failed_jobs succeeded failed_metadata ≡ failed) ↔ (
          (active ≡ false)
          × ((failed_jobs || failed_metadata) ≡ true)
          × ((failed_metadata && succeeded) ≡ false)))
status-cases active failed_jobs succeeded failed_metadata =
    (ground arith, ground arith, ground arith)

-- The status in terms of the rows of the node: it is ready just when no job waits, runs or has
-- failed, no extractor has failed and one has succeeded; partly processed just when no job waits or runs,
-- and extractors have succeeded and failed; failed just when no job waits or runs, a job or an extractor
-- has failed, and not both an extractor has failed and one has succeeded.
pub processing_status_iff :
    (node_id : ℕ) (jobs : List JobRecord) (records : List MetadataRecord)
    → ((processing_status node_id jobs records ≡ ready) ↔ (
        (any (counts_active node_id) jobs ≡ false)
        × (any (counts_failed_job node_id) jobs ≡ false)
        × (any (counts_failed node_id) records ≡ false)
        × (any (counts_successful node_id) records ≡ true)))
      × ((processing_status node_id jobs records ≡ partially_processed) ↔ (
          (any (counts_active node_id) jobs ≡ false)
          × (any (counts_failed node_id) records ≡ true)
          × (any (counts_successful node_id) records ≡ true)))
      × ((processing_status node_id jobs records ≡ failed) ↔ (
          (any (counts_active node_id) jobs ≡ false)
          × ((any (counts_failed_job node_id) jobs || any (counts_failed node_id) records) ≡ true)
          × ((any (counts_failed node_id) records && any (counts_successful node_id) records)
              ≡ false)))
unfolding processing_status
processing_status_iff node_id jobs records =
    rw
      (
        count-any (counts_active node_id) jobs,
        count-any (counts_failed_job node_id) jobs,
        count-any (counts_successful node_id) records,
        count-any (counts_failed node_id) records,
      )
      (status-cases (any (counts_active node_id) jobs) (any (counts_failed_job node_id) jobs)
        (any (counts_successful node_id) records) (any (counts_failed node_id) records))

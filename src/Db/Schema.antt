-- ===== src/Db/Schema.antt =====
-- The row types of crates/db/src/lib.rs and the tables of crates/db/migrations.
-- A UUID and a timestamp are numbers; `now()` and `Uuid::new_v4()` are arguments of the operations.
use strife.Base.{ℕ, String, Option, List, Bool}
use strife.Base.Int.{ℤ}

-- How a statement fails: the SQLSTATE class of a violated constraint, or an error of the driver.
pub data DbError : Type 0 where
  unique_violation foreign_key_violation check_violation numeric_out_of_range : DbError
  row_not_found protocol query_canceled : DbError

pub data NodeKind : Type 0 where
  folder file : NodeKind

pub data LifecycleState : Type 0 where
  active trashed deleted : LifecycleState

pub data FileUploadState : Type 0 where
  staging finalized : FileUploadState

pub data UploadSessionState : Type 0 where
  active finalizing completed cancelled expired : UploadSessionState

pub data ImportEntryState : Type 0 where
  discovered stable importing imported failed : ImportEntryState

pub data JobType : Type 0 where
  metadata_extraction preview_generation trash_cleanup permanent_deletion : JobType

pub data JobState : Type 0 where
  pending leased completed failed cancelled : JobState

abbrev pub root_node_id : ℕ
root_node_id = 1

pub record JobRecord : Type 0 where
  pub id : ℕ
  pub job_type : JobType
  pub target_node_id : ℕ
  pub state : JobState
  pub priority : ℤ
  pub attempts : ℕ
  pub max_attempts : ℕ
  pub lease_owner : Option String
  pub lease_expires_at : Option ℕ
  pub last_error : Option String
  pub created_at : ℕ
  pub updated_at : ℕ
  pub completed_at : Option ℕ

pub record NodeRecord : Type 0 where
  pub id : ℕ
  pub parent_id : Option ℕ
  pub name : String
  pub kind : NodeKind
  pub lifecycle_state : LifecycleState
  pub source_created_at : Option ℕ
  pub source_modified_at : Option ℕ
  pub created_at : ℕ
  pub updated_at : ℕ

pub record FileObjectRecord : Type 0 where
  pub id : ℕ
  pub node_id : Option ℕ
  pub storage_key : ℕ
  pub byte_size : ℕ
  pub mime_type : Option String
  pub checksum_sha256 : Option String
  pub upload_state : FileUploadState
  pub created_at : ℕ
  pub updated_at : ℕ

pub record UploadSessionRecord : Type 0 where
  pub id : ℕ
  pub target_folder_id : ℕ
  pub display_name : String
  pub expected_byte_size : Option ℕ
  pub received_bytes : ℕ
  pub staging_key : ℕ
  pub state : UploadSessionState
  pub checksum_sha256 : Option String
  pub completed_node_id : Option ℕ
  pub source_created_at : Option ℕ
  pub source_modified_at : Option ℕ
  pub expires_at : ℕ
  pub created_at : ℕ
  pub updated_at : ℕ

-- A row of `upload_chunks`.
pub record UploadChunk : Type 0 where
  pub id : ℕ
  pub session_id : ℕ
  pub start_byte : ℕ
  pub end_byte : ℕ

pub record ImportEntryRecord : Type 0 where
  pub id : ℕ
  pub source_id : ℕ
  pub source_path : String
  pub source_size : ℕ
  pub source_modified_at : ℕ
  pub source_checksum : Option String
  pub state : ImportEntryState
  pub resulting_node_id : Option ℕ
  pub error_message : Option String
  pub created_at : ℕ
  pub updated_at : ℕ

-- A row of `trash_entries`.
pub record TrashEntry : Type 0 where
  pub id : ℕ
  pub node_id : ℕ
  pub original_parent_id : Option ℕ
  pub trashed_at : ℕ
  pub scheduled_purge_at : ℕ

-- A row of `favorites`.
pub record Favorite : Type 0 where
  pub node_id : ℕ
  pub created_at : ℕ

pub record ImportSourceRecord : Type 0 where
  pub id : ℕ
  pub watch_path : String
  pub destination_folder_id : ℕ
  pub enabled : Bool
  pub last_scan_at : Option ℕ
  pub created_at : ℕ
  pub updated_at : ℕ

pub data ArtifactType : Type 0 where
  thumbnail preview : ArtifactType

pub data ArtifactState : Type 0 where
  generating ready failed : ArtifactState

pub record DerivedArtifactRecord : Type 0 where
  pub id : ℕ
  pub node_id : ℕ
  pub artifact_type : ArtifactType
  pub format : String
  pub width : Option ℕ
  pub height : Option ℕ
  pub storage_key : ℕ
  pub byte_size : ℕ
  pub generator_version : String
  pub state : ArtifactState
  pub created_at : ℕ
  pub updated_at : ℕ

pub record Db : Type 0 where
  pub nodes : List NodeRecord
  pub file_objects : List FileObjectRecord
  pub upload_sessions : List UploadSessionRecord
  pub upload_chunks : List UploadChunk
  pub jobs : List JobRecord
  pub import_sources : List ImportSourceRecord
  pub import_entries : List ImportEntryRecord
  pub derived_artifacts : List DerivedArtifactRecord
  pub trash_entries : List TrashEntry
  pub favorites : List Favorite

-- ===== src/Lib.antt =====
-- strife: the file manager's database layer, modelled from crates/db and crates/domain, and the
-- parts of crates/worker, crates/importer, crates/storage and crates/api that rest on it.
--
-- The program keeps folders and files in PostgreSQL. An HTTP server (crates/api), a worker
-- (crates/worker) and an importer of a watched folder (crates/importer) share the functions of
-- crates/db/src/lib.rs, each of which is a statement or a transaction. The recursive queries, the
-- unique indexes and the foreign keys of crates/db/migrations are part of what they promise.
--
-- Files:
--   * Base: lists, options, Boolean tests, tables as lists of rows (Rows), fallible code (Result),
--     signed integers (Int), text as character codes and the numbers in it (Text).
--   * Domain: crates/domain/src/lib.rs, the rules for names, siblings and moves.
--   * Db/Schema: the enums and row types of crates/db/src/lib.rs, and a record of all tables.
--   * Db/Jobs: enqueue_job, claim_job, complete_job, fail_job, release_expired_leases; Jobs/Steps has
--     the histories of the queue.
--   * Db/Nodes: the constraints of `nodes`, create_folder; Nodes/Tree: the recursive queries
--     descendant_ids, collect_active_subtree_ids, collect_trashed_subtree_ids, list_ancestors;
--     Nodes/Move: update_folder, move_folders. Nodes/Invariant has the invariant of the hierarchy.
--   * Db/Trash: trash_nodes, restore_node; Trash/Deletion: request_permanent_deletion,
--     list_storage_keys_for_deletion, purge_trashed_node_records, enqueue_expired_trash_deletions;
--     Trash/Listing: list_trash, list_expired_trash.
--   * Db/Favorites: add_favorite, remove_favorite, list_favorites, favorite_ids_among.
--   * Db/Uploads: upload sessions and record_chunk; Uploads/Finalization: finalize_upload;
--     Uploads/Histories: the operations as steps.
--   * Db/Imports: import sources and entries; Imports/Finalization: finalize_import.
--   * Db/Listing: list_children and list_children_page_sorted; Db/Files: file objects and downloads;
--     Db/Artifacts: get_artifact, create_or_update_artifact; Db/Metadata: replace_media_streams,
--     enqueue_reprocessing, and the tables of crates/db/migrations/0007_metadata.up.sql.
--   * Worker: crates/worker/src/lib.rs, claim_next_job and process_job (the handler is an argument);
--     Worker/Deletion: crates/worker/src/deletion.rs; Worker/Previews and Worker/Metadata: the preview
--     and the metadata job of crates/worker/src/metadata.rs.
--   * Media: what crates/media/src/exif.rs and crates/media/src/ffprobe.rs make of JSON.
--   * Storage: crates/storage/src/lib.rs, DiskGuard; Storage/Objects: keys, put_stream,
--     write_range, get_stream, get_range, move_object, delete.
--   * Importer: crates/importer/src/lib.rs, import_entry_inner from mark_importing to the result of
--     finalize_import, and import_entry's record of a failure;
--     Importer/Entry: stage_import_entry, import_entry and recover_interrupted_imports.
--   * Api/Uploads: crates/api/src/uploads.rs: upload_chunk, Uploads/Header parse_content_range, and
--     Uploads/Handlers create_upload, cancel_upload and cleanup_expired_uploads, with finalize_upload in
--     Handlers/Finalization.
--   * Api/Files: crates/api/src/files.rs: downloads, Files/Range parse_range, Files/Cached previews and
--     thumbnails, Files/Status the details and the processing status.
--   * Api/Folders: crates/api/src/folders.rs; Folders/Children list_children. A handler whose
--     database function has its name is called
--     after it with _request.
--   * Db/Samples and the Tests modules: runs on concrete tables.
--
-- How the code is modelled:
--   * A table is a list of rows, a statement a function on it. A transaction is a chain of Results; an
--     error rolls it back, so it carries no state. Concurrent transactions that hold row locks appear
--     as the argument `locked` of claim_job and as the order of steps in a history.
--   * A UUID, a timestamp and a storage key are natural numbers. What the code draws or reads from the
--     clock (Uuid::new_v4(), now()) is an argument.
--   * A violated CHECK, unique index or foreign key is a DbError. Where an UPDATE cannot violate a
--     constraint, the constraint is not tested.
--   * The collation of names is the argument `name_le`.
--   * The bytes of a stored object are a natural number; their length is the argument `size_of`. What
--     external programs make of them (the detected type, checksums, thumbnails, metadata) are functions
--     that are parameters. Floating-point numbers and JSON payloads are natural numbers as well.
--   * finalize_upload moves the staged object before its transaction; the database that the transaction
--     finds is an argument, since other requests may have changed it.
--   * A recursive query runs on fuel, as many rounds as the table has rows (`list_ancestors` one more);
--     `none` is a query that does not end, which the operations report as cancelled. Nodes/Queries,
--     Nodes/Tree/Termination and Nodes/Tree/Distinct are about that fuel.
--
-- Not modelled: the HTTP handlers of nodes, imports, jobs and health, the loops of the worker, the
-- scan of the importer and its pruning of directories, the external programs that crates/media runs,
-- and what it makes of Tika's answer; errors of the file system, but on a watched file and in the sweep
-- of expired uploads; an overflow of a job's attempts; the conversions of a generated image's sizes to
-- i32 and i64.
pub mod Base
pub mod Domain
pub mod Db
pub mod Worker
pub mod Storage
pub mod Media
pub mod Importer
pub mod Api

-- ===== src/Db/Trash/Deletion.antt =====
-- Permanent deletion of crates/db/src/lib.rs: its request, the keys that it needs, and the purge.
pub mod Purged
use strife.Base.{
  ℕ, ◌+◌, String, Option, none, some, List, [], ◌∷◌, Bool, true, false, ◌&&◌, ◌||◌, not, leb, ◌==◌,
  str_eq, is_some, holds, if◌then◌else◌, any, elem, count, find, where_rows, update_rows, order_by,
  take,
}
use strife.Base.Int.{ℤ, pos}
use strife.Base.Result.{Result, ok, err, ◌>>=◌, guard, ok_or, map_err}
use strife.Db.Schema.{
  Db, DbError, foreign_key_violation, query_canceled, NodeKind, NodeRecord, FileObjectRecord,
  DerivedArtifactRecord, UploadSessionRecord, TrashEntry, ImportEntryRecord, JobRecord, JobType,
  root_node_id,
}
use strife.Db.Nodes.{get_node_by_id}
use strife.Db.Nodes.Tree.{trashed_row, collect_trashed_subtree_ids}
use strife.Db.Jobs.{enqueue_job, occupies}
use strife.Db.Uploads.Finalization.{is_finalized}
use strife.Db.Trash.{TrashMutationError, cannot_trash_root, not_trashed, database}

unfoldable pub request_permanent_deletion :
    ℕ → ℕ → ℕ → Db → Result TrashMutationError (Option JobRecord × Db)
request_permanent_deletion job_id node_id now db = elim (get_node_by_id node_id db.nodes) [
  | none ↦ ok (none, db)
  | some n ↦
      if not (trashed_row n)
      then err not_trashed
      else if n.id == root_node_id
      then err cannot_trash_root
      else (map_err database
            (enqueue_job job_id JobType.permanent_deletion node_id (pos 10) now true db.jobs)
          >>= λ r. ok (r.0, record db { jobs = r.1 }))
]

pub record NodeStorageKeys : Type 0 where
  pub node_id : ℕ
  pub original_storage_key : Option ℕ
  pub artifact_storage_keys : List ℕ

abbrev original_key : Option FileObjectRecord → Option ℕ
original_key none = none
original_key (some o) = some o.storage_key

abbrev artifact_keys : List DerivedArtifactRecord → List ℕ
artifact_keys [] = []
artifact_keys (a ∷ as') = a.storage_key ∷ artifact_keys as'

abbrev keys_of : Db → List ℕ → List NodeStorageKeys
keys_of db [] = []
keys_of db (i ∷ is) =
    record {
      node_id = i;
      original_storage_key =
          original_key
            (find (λ o. holds o.node_id i && is_finalized o.upload_state) db.file_objects);
      artifact_storage_keys = artifact_keys (where_rows (λ a. a.node_id == i) db.derived_artifacts);
    }
    ∷ keys_of db is

-- A query that does not end is cancelled.
unfoldable pub list_storage_keys_for_deletion : ℕ → Db → Result DbError (List NodeStorageKeys)
list_storage_keys_for_deletion root_id db = do
  tree ← ok_or (collect_trashed_subtree_ids root_id db.nodes) query_canceled
  ok (keys_of db tree)

-- column = ANY($1), for a nullable column
abbrev pub among : List ℕ → Option ℕ → Bool
among is none = false
among is (some i) = elem i is

abbrev pub forget : List ℕ → Option ℕ → Option ℕ
forget is o = if among is o then none else o

-- UPDATE nodes SET parent_id = NULL WHERE id = ANY($1) AND parent_id = ANY($1)
abbrev pub break_links : List ℕ → List NodeRecord → List NodeRecord
break_links is =
    update_rows (λ n. elem n.id is && among is n.parent_id) (λ n. record n { parent_id = none })

-- UPDATE upload_sessions SET completed_node_id = NULL WHERE completed_node_id = ANY($1)
abbrev pub forget_completed : List ℕ → List UploadSessionRecord → List UploadSessionRecord
forget_completed is =
    update_rows (λ s. among is s.completed_node_id) (λ s. record s { completed_node_id = none })

-- A row that a foreign key with ON DELETE RESTRICT keeps from the deletion of its node.
abbrev pub is_referenced : List ℕ → List NodeRecord → Db → Bool
is_referenced is nodes db =
    any (λ n. among is n.parent_id) nodes
    || (any (λ o. among is o.node_id) db.file_objects
        || (any (λ s. elem s.target_folder_id is || among is s.completed_node_id) db.upload_sessions
            || any (λ s. elem s.destination_folder_id is) db.import_sources))

-- DELETE FROM nodes WHERE id = ANY($1): the restrictions, then the cascades and the SET NULLs.
unfoldable pub delete_nodes : List ℕ → Db → Result DbError (ℕ × Db)
delete_nodes is db =
    if is_referenced is db.nodes db
    then err foreign_key_violation
    else ok (
      count (λ n. elem n.id is) db.nodes,
      record db {
        nodes = where_rows (λ n. not (elem n.id is)) db.nodes;
        jobs = where_rows (λ j. not (elem j.target_node_id is)) db.jobs;
        derived_artifacts = where_rows (λ a. not (elem a.node_id is)) db.derived_artifacts;
        trash_entries =
            update_rows (λ e. among is e.original_parent_id)
              (λ e. record e { original_parent_id = none })
              (where_rows (λ e. not (elem e.node_id is)) db.trash_entries);
        favorites = where_rows (λ f. not (elem f.node_id is)) db.favorites;
        import_entries =
            update_rows (λ e. among is e.resulting_node_id)
              (λ e. record e { resulting_node_id = none }) db.import_entries;
      },
    )

-- The statements before the DELETE of the nodes.
abbrev pub detach : List ℕ → Db → Db
detach is db = record db {
  file_objects = where_rows (λ o. not (among is o.node_id)) db.file_objects;
  upload_sessions = forget_completed is db.upload_sessions;
  nodes = break_links is db.nodes;
}

abbrev pub purge : List ℕ → Db → Result DbError (ℕ × Db)
purge [] db = ok (0, db)
purge (i ∷ is) db = delete_nodes (i ∷ is) (detach (i ∷ is) db)

unfoldable pub purge_trashed_node_records : ℕ → Db → Result DbError (ℕ × Db)
purge_trashed_node_records root_id db =
    ok_or (collect_trashed_subtree_ids root_id db.nodes) query_canceled >>= λ is. purge is db

-- JOIN nodes AS n ON n.id = te.node_id WHERE n.lifecycle_state = 'trashed'
abbrev pub is_in_trash : List NodeRecord → TrashEntry → Bool
is_in_trash nodes e = any (λ n. n.id == e.node_id && trashed_row n) nodes

abbrev pub is_due : ℕ → List NodeRecord → TrashEntry → Bool
is_due now nodes e = is_in_trash nodes e && leb e.scheduled_purge_at now

-- ORDER BY te.scheduled_purge_at, te.id
abbrev pub by_purge : TrashEntry → TrashEntry → Bool
by_purge a b =
    if a.scheduled_purge_at == b.scheduled_purge_at
    then leb a.id b.id
    else leb a.scheduled_purge_at b.scheduled_purge_at

abbrev pub candidates : ℕ → ℕ → Db → List TrashEntry
candidates limit now db = take limit (
    order_by by_purge (
      where_rows
        (λ e.
          is_due now db.nodes e
          && not (any (occupies JobType.permanent_deletion e.node_id) db.jobs))
        db.trash_entries))

-- INSERT INTO jobs … SELECT … FROM candidates ON CONFLICT DO NOTHING, with the rows affected.
unfoldable pub enqueue_deletions :
    (ℕ → ℕ) → List TrashEntry → ℕ → List JobRecord → Result DbError (ℕ × List JobRecord)
enqueue_deletions new_id [] now jobs = ok (0, jobs)
enqueue_deletions new_id (e ∷ es) now jobs =
    enqueue_job (new_id e.node_id) JobType.permanent_deletion e.node_id (pos 5) now true jobs
    >>= λ r. enqueue_deletions new_id es now r.1 >>= λ s.
        ok ((if is_some r.0 then s.0 + 1 else s.0), s.1)

unfoldable pub enqueue_expired_trash_deletions :
    (ℕ → ℕ) → ℕ → ℕ → Db → Result DbError (ℕ × List JobRecord)
enqueue_expired_trash_deletions new_id limit now db =
    enqueue_deletions new_id (candidates limit now db) now db.jobs

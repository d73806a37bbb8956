-- ===== src/Worker/Deletion/Tests.antt =====
-- Music and the file below it are in the trash; with a session that had Music as its target, and without.
use strife.Base.{◌≡◌, refl, none, some, List, [], ◌∷◌, All}
use strife.Base.Result.{ok, err}
use strife.Storage.Objects.{StoredObject, key_in_originals, delete}
use strife.Db.Schema.{Db, foreign_key_violation, NodeRecord, NodeKind, LifecycleState}
use strife.Db.Samples.{root, music, db_of, session}
use strife.Db.Nodes.{new_node}
use strife.Db.Nodes.Tree.{collect_trashed_subtree_ids, descend}
use strife.Db.Uploads.Finalization.{Finalized, new_object}
use strife.Db.Trash.{set_state}
use strife.Db.Trash.Deletion.{
  NodeStorageKeys, list_storage_keys_for_deletion, purge_trashed_node_records, delete_nodes,
}
use strife.Worker.Deletion.{purge_job, delete_keys, IsGone, purge_job-blocked}

abbrev song : NodeRecord
song = new_node 4 2 "song.flac" NodeKind.file none none 20

abbrev object : Finalized
object = record {
  node_id = 4;
  object_id = 80;
  job_id = 90;
  original_storage_key = 61;
  byte_size = 10;
  mime_type = "audio/flac";
  checksum_sha256 = "c0ffee";
}

abbrev trashed : Db
trashed =
    record (db_of (
      set_state LifecycleState.trashed 30 song
      ∷ set_state LifecycleState.trashed 30 music
      ∷ root
      ∷ [])) { file_objects = new_object 4 object 20 ∷ [] }

abbrev targeted : Db
targeted = record trashed { upload_sessions = session ∷ [] }

abbrev stored : List StoredObject
stored = record { key = key_in_originals 61; content = 700 } ∷ []

abbrev music_keys : NodeStorageKeys
music_keys = record { node_id = 2; original_storage_key = none; artifact_storage_keys = [] }

abbrev song_keys : NodeStorageKeys
song_keys = record { node_id = 4; original_storage_key = some 61; artifact_storage_keys = [] }

tree_found : collect_trashed_subtree_ids 2 trashed.nodes ≡ some (2 ∷ 4 ∷ [])
unfolding collect_trashed_subtree_ids descend
tree_found = refl

keys_found : list_storage_keys_for_deletion 2 trashed ≡ ok (music_keys ∷ song_keys ∷ [])
unfolding list_storage_keys_for_deletion collect_trashed_subtree_ids descend
keys_found = refl

targeted_keys : list_storage_keys_for_deletion 2 targeted ≡ ok (music_keys ∷ song_keys ∷ [])
unfolding list_storage_keys_for_deletion collect_trashed_subtree_ids descend
targeted_keys = refl

purge_job-blocked_example :
    (purge_job 2 targeted stored
      ≡ (err foreign_key_violation, targeted, delete_keys (music_keys ∷ song_keys ∷ []) stored))
    × All (IsGone (delete_keys (music_keys ∷ song_keys ∷ []) stored)) (music_keys ∷ song_keys ∷ [])
purge_job-blocked_example =
    purge_job-blocked 2 targeted stored (2 ∷ 4 ∷ []) music_keys (song_keys ∷ []) tree_found
      targeted_keys refl

purge_done : purge_job 2 trashed stored ≡ (ok 2, db_of (root ∷ []), [])
unfolding purge_job list_storage_keys_for_deletion collect_trashed_subtree_ids descend
    purge_trashed_node_records delete_nodes delete_keys delete
purge_done = refl

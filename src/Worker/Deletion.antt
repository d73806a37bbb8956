-- ===== src/Worker/Deletion.antt =====
-- crates/worker/src/deletion.rs: the deletion of a trashed tree's stored objects and then of its rows.
mod Tests
use strife.Base.{
  ℕ, ◌≡◌, refl, sym, ap, ◌∙◌, subst, Option, none, some, List, [], ◌∷◌, Bool, true, false, arith,
  inl, inr, Option-cases, Bool-cases, any, elem, All, if◌then◌else◌,
}
use strife.Base.Rows.{All-map₂}
use strife.Base.Result.{Result, ok, err, Result-cases}
use strife.Storage.Objects.{
  StoredObject, StorageKey, artifacts, key_in_originals, content_of, delete, delete-content_of_same,
  delete-none,
}
use strife.Db.Schema.{Db, DbError, foreign_key_violation, query_canceled}
use strife.Db.Nodes.Tree.{collect_trashed_subtree_ids}
use strife.Db.Trash.Deletion.{
  NodeStorageKeys, list_storage_keys_for_deletion, purge_trashed_node_records,
}
use strife.Db.Trash.Deletion.Purged.{purge_trashed_node_records-blocked}

abbrev pub delete_original : Option ℕ → List StoredObject → List StoredObject
delete_original none objects = objects
delete_original (some id) objects = delete (key_in_originals id) objects

-- The inner loop.
abbrev pub delete_artifacts : List ℕ → List StoredObject → List StoredObject
delete_artifacts [] objects = objects
delete_artifacts (id ∷ ids) objects =
    delete_artifacts ids (delete (record { namespace = artifacts; id = id }) objects)

-- The loop over the keys; a key that is no UUID and an error of the file system are not modelled.
unfoldable pub delete_keys : List NodeStorageKeys → List StoredObject → List StoredObject
delete_keys [] objects = objects
delete_keys (k ∷ ks) objects =
    delete_keys ks
      (delete_artifacts k.artifact_storage_keys (delete_original k.original_storage_key objects))

abbrev rows_of : Db → Result DbError (ℕ × Db) → Result DbError ℕ × Db
rows_of db (ok r) = (ok r.0, r.1)
rows_of db (err e) = (err e, db)

abbrev purge_listed :
    ℕ → List NodeStorageKeys → Db → List StoredObject → Result DbError ℕ × Db × List StoredObject
purge_listed root_id [] db objects = (ok 0, db, objects)
purge_listed root_id (k ∷ ks) db objects =
    let r = rows_of db (purge_trashed_node_records root_id db) in
    (r.0, r.1, delete_keys (k ∷ ks) objects)

-- DeletionService::purge. What was deleted before an error stays deleted.
unfoldable pub purge_job : ℕ → Db → List StoredObject → Result DbError ℕ × Db × List StoredObject
purge_job root_id db objects = elim (list_storage_keys_for_deletion root_id db) [
  | err e ↦ (err e, db, objects)
  | ok keys ↦ purge_listed root_id keys db objects
]

abbrev pub IsGone : List StoredObject → NodeStorageKeys → Type 0
IsGone objects k =
    (i : ℕ) → k.original_storage_key ≡ some i → content_of (key_in_originals i) objects ≡ none

artifacts-none :
    (ids : List ℕ) (b : StorageKey) (os : List StoredObject)
    → content_of b os ≡ none
    → content_of b (delete_artifacts ids os) ≡ none
artifacts-none [] b os h = h
artifacts-none (i ∷ is) b os h =
    artifacts-none is b (delete (record { namespace = artifacts; id = i }) os)
      (delete-none _ b os h)

original-none :
    (o : Option ℕ) (b : StorageKey) (os : List StoredObject)
    → content_of b os ≡ none
    → content_of b (delete_original o os) ≡ none
original-none none b os h = h
original-none (some i) b os h = delete-none (key_in_originals i) b os h

keys-none :
    (ks : List NodeStorageKeys) (b : StorageKey) (os : List StoredObject)
    → content_of b os ≡ none
    → content_of b (delete_keys ks os) ≡ none
unfolding delete_keys
keys-none [] b os h = h
keys-none (k ∷ ks) b os h =
    keys-none ks b _
      (artifacts-none k.artifact_storage_keys b _ (original-none k.original_storage_key b os h))

delete_keys-IsGone :
    (ks : List NodeStorageKeys) (os : List StoredObject) → All (IsGone (delete_keys ks os)) ks
unfolding delete_keys
delete_keys-IsGone [] os = tt
delete_keys-IsGone (k ∷ ks) os = (
  (λ i e. keys-none ks (key_in_originals i) _ (
      artifacts-none k.artifact_storage_keys (key_in_originals i) _ (
        subst (λ o. content_of (key_in_originals i) (delete_original o os) ≡ none) (sym e)
          (delete-content_of_same (key_in_originals i) os)))),
  delete_keys-IsGone ks
      (delete_artifacts k.artifact_storage_keys (delete_original k.original_storage_key os)),
)

-- Where a trashed tree that has rows is the target of an upload session, the job fails and
-- the database is as before, but the stored originals of the tree are gone.
pub purge_job-blocked :
    (id : ℕ) (db : Db) (objects : List StoredObject) (is : List ℕ) (k : NodeStorageKeys)
    (ks : List NodeStorageKeys)
    → collect_trashed_subtree_ids id db.nodes ≡ some is
    → list_storage_keys_for_deletion id db ≡ ok (k ∷ ks)
    → any (λ s. elem s.target_folder_id is) db.upload_sessions ≡ true
    → (purge_job id db objects ≡ (err foreign_key_violation, db, delete_keys (k ∷ ks) objects))
      × All (IsGone (delete_keys (k ∷ ks) objects)) (k ∷ ks)
unfolding purge_job
purge_job-blocked id db objects is k ks found keys h = (
  ground (arith, keys, purge_trashed_node_records-blocked id db is found h),
  delete_keys-IsGone (k ∷ ks) objects,
)

-- Deleting a trashed tree that has rows returns the purge's result; where it succeeds, the rows are purged
-- and no original of the tree is stored any more.
pub purge_job-IsGone :
    (id n : ℕ) (db after : Db) (objects left : List StoredObject) (k : NodeStorageKeys)
    (ks : List NodeStorageKeys)
    → list_storage_keys_for_deletion id db ≡ ok (k ∷ ks)
    → purge_job id db objects ≡ (ok n, after, left)
    → (purge_trashed_node_records id db ≡ ok (n, after)) × All (IsGone left) (k ∷ ks)
unfolding purge_job
purge_job-IsGone id n db after objects left k ks keys e =
    elim (Result-cases (purge_trashed_node_records id db)) [
      | inl (x, failed) ↦ absurd (ground arith)
      | inr (r, done) ↦
          let rest : delete_keys (k ∷ ks) objects ≡ left = ground arith in
          (
            ground arith,
            subst (λ l. All (IsGone l) (k ∷ ks)) rest (delete_keys-IsGone (k ∷ ks) objects),
          )
    ]

-- ===== src/Db/Trash/Deletion/Purged.antt =====
-- The tables after purge_trashed_node_records and enqueue_expired_trash_deletions of crates/db/src/lib.rs.
use strife.Base.{
  ℕ, ◌≡◌, ap, subst, none, some, List, [], ◌∷◌, Bool, true, false, ◌||◌, not, arith, ◌↔◌, inl, inr,
  ◌==◌, ==_iff, if◌then◌else◌, any, elem, length, where_rows, All, Bool-cases,
}
use strife.Base.Rows.{All-of_forall, All-where_rows, All-map₂}
use strife.Base.Int.{pos}
use strife.Base.Result.{ok, err, Result-cases}
use strife.Db.Jobs.{enqueue_job}
use strife.Db.Schema.{
  Db, foreign_key_violation, NodeRecord, UploadSessionRecord, JobRecord, JobType, TrashEntry,
}
use strife.Db.Nodes.{get_node_by_id}
use strife.Db.Nodes.Tree.{trashed_row, collect_trashed_subtree_ids}
use strife.Db.Nodes.Tree.Descent.{Below, descend_iff}
use strife.Db.Jobs.Steps.{Step, Reach}
use strife.Db.Trash.Restoration.{trash_root}
use strife.Db.Trash.Deletion.{
  purge_trashed_node_records, detach, delete_nodes, break_links, among, forget_completed,
  enqueue_expired_trash_deletions, enqueue_deletions, candidates,
}

purged-row :
    (is : List ℕ) (x : ℕ) (ns : List NodeRecord)
    → get_node_by_id x (where_rows (λ n. not (elem n.id is)) (break_links is ns))
      ≡ (if elem x is then none else get_node_by_id x ns)
purged-row is x [] = ground arith
purged-row is x (n ∷ ns) = elim (Bool-cases (n.id == x)) [
  | inl same ↦
      let at_x : elem n.id is ≡ elem x is = ap (λ i. elem i is) ((==_iff n.id x).0 same) in
      ground (arith, purged-row is x ns, at_x)
  | inr other ↦ ground (arith, purged-row is x ns)
]

kept_only : {A : Type 0} (q : A → Bool) (xs : List A) → All (λ x. q x ≡ true) (where_rows q xs)
kept_only {A} q xs =
    let both =
      All-where_rows (λ (x : A). Unit {0}) q xs
        (All-of_forall (λ (x : A). Unit {0}) (λ x. tt) xs) in
    All-map₂ (λ x. Unit {0} × (q x ≡ true)) (λ x. Unit {0} × (q x ≡ true)) (λ x. q x ≡ true)
      (λ x a b. a.1) (where_rows q xs) both both

delete_nodes-parts :
    (is : List ℕ) (db after : Db) (k : ℕ)
    → delete_nodes is (detach is db) ≡ ok (k, after)
    → (after.nodes ≡ where_rows (λ n. not (elem n.id is)) (break_links is db.nodes))
      × (after.file_objects ≡ where_rows (λ o. not (among is o.node_id)) db.file_objects)
      × (after.jobs ≡ where_rows (λ j. not (elem j.target_node_id is)) db.jobs)
      × (after.favorites ≡ where_rows (λ f. not (elem f.node_id is)) db.favorites)
      × (after.derived_artifacts ≡ where_rows (λ a. not (elem a.node_id is)) db.derived_artifacts)
unfolding delete_nodes
delete_nodes-parts is db after k e = ground arith

purge-parts :
    (id : ℕ) (db after : Db) (k : ℕ) (i : ℕ) (is : List ℕ)
    → collect_trashed_subtree_ids id db.nodes ≡ some (i ∷ is)
    → purge_trashed_node_records id db ≡ ok (k, after)
    → delete_nodes (i ∷ is) (detach (i ∷ is) db) ≡ ok (k, after)
unfolding purge_trashed_node_records
purge-parts id db after k i is found e = ground arith

-- A purge deletes exactly the trashed node and the trashed rows that hang below it by trashed rows, and
-- leaves every other row as it was; no file object, job, favorite or artifact of a purged node is left.
pub purge_trashed_node_records-rows :
    (id : ℕ) (db after : Db) (k i : ℕ) (is : List ℕ)
    → collect_trashed_subtree_ids id db.nodes ≡ some (i ∷ is)
    → purge_trashed_node_records id db ≡ ok (k, after)
    → ((x : ℕ) → (elem x (i ∷ is) ≡ true) ↔ Below trashed_row db.nodes (trash_root id db.nodes) x)
      × ((x : ℕ)
          → get_node_by_id x after.nodes
            ≡ (if elem x (i ∷ is) then none else get_node_by_id x db.nodes))
      × All (λ o. not (among (i ∷ is) o.node_id) ≡ true) after.file_objects
      × All (λ j. not (elem j.target_node_id (i ∷ is)) ≡ true) after.jobs
      × All (λ f. not (elem f.node_id (i ∷ is)) ≡ true) after.favorites
      × All (λ a. not (elem a.node_id (i ∷ is)) ≡ true) after.derived_artifacts
unfolding collect_trashed_subtree_ids
purge_trashed_node_records-rows id db after k i is found e =
    let (nodes, objects, jobs, favorites, artifacts) =
      delete_nodes-parts (i ∷ is) db after k (purge-parts id db after k i is found e) in
    (
      (λ x.
          descend_iff trashed_row db.nodes (length db.nodes) (trash_root id db.nodes) (i ∷ is) x
            found),
      (λ x. rw nodes (purged-row (i ∷ is) x db.nodes)),
      rw objects (kept_only (λ o. not (among (i ∷ is) o.node_id)) db.file_objects),
      rw jobs (kept_only (λ j. not (elem j.target_node_id (i ∷ is))) db.jobs),
      rw favorites (kept_only (λ f. not (elem f.node_id (i ∷ is))) db.favorites),
      rw artifacts (kept_only (λ a. not (elem a.node_id (i ∷ is))) db.derived_artifacts),
    )

target-kept :
    (is : List ℕ) (ss : List UploadSessionRecord)
    → any (λ s. elem s.target_folder_id is) ss ≡ true
    → any (λ s. elem s.target_folder_id is || among is s.completed_node_id) (forget_completed is ss)
      ≡ true
target-kept is [] h = cc
target-kept is (s ∷ ss) h = ground (arith, target-kept is ss)

target-nil : (ss : List UploadSessionRecord) → any (λ s. elem s.target_folder_id []) ss ≡ false
target-nil [] = ground arith
target-nil (s ∷ ss) = ground (arith, target-nil ss)

-- A node that is the target of any upload session, also a completed, cancelled or expired one, cannot be
-- purged, nor can a trashed folder above it: the purge fails with a violation of the foreign key.
pub purge_trashed_node_records-blocked :
    (id : ℕ) (db : Db) (is : List ℕ)
    → collect_trashed_subtree_ids id db.nodes ≡ some is
    → any (λ s. elem s.target_folder_id is) db.upload_sessions ≡ true
    → purge_trashed_node_records id db ≡ err foreign_key_violation
unfolding purge_trashed_node_records delete_nodes
purge_trashed_node_records-blocked id db [] found h =
    absurd (ground (arith, target-nil db.upload_sessions))
purge_trashed_node_records-blocked id db (i ∷ is) found h =
    ground (arith, target-kept (i ∷ is) db.upload_sessions h)

enqueue_deletions-Reach :
    (new_id : ℕ → ℕ) (es : List TrashEntry) (now k : ℕ) (first jobs after : List JobRecord)
    → Reach first jobs
    → enqueue_deletions new_id es now jobs ≡ ok (k, after)
    → Reach first after
unfolding enqueue_deletions
enqueue_deletions-Reach new_id [] now k first jobs after r e = subst (Reach first) (ground arith) r
enqueue_deletions-Reach new_id (t ∷ ts) now k first jobs after r e =
    elim (Result-cases
      (enqueue_job (new_id t.node_id) JobType.permanent_deletion t.node_id (pos 5) now true jobs)) [
        | inl (x, failed) ↦ ground arith
        | inr (a, at_a) ↦ elim (Result-cases (enqueue_deletions new_id ts now a.1)) [
          | inl (x, failed) ↦ ground arith
          | inr (b, at_b) ↦
              let at_after : b.1 ≡ after = ground arith in
              enqueue_deletions-Reach new_id ts now b.0 first a.1 after
                (Reach.next r (
                  Step.enqueues (new_id t.node_id) JobType.permanent_deletion t.node_id (pos 5) now
                    true at_a))
                (subst (λ l. enqueue_deletions new_id ts now a.1 ≡ ok (b.0, l)) at_after at_b)
        ]
      ]

-- What the scheduled deletion enqueues is a history of the queue, so it keeps all that histories keep.
pub enqueue_expired_trash_deletions-Reach :
    (new_id : ℕ → ℕ) (limit now k : ℕ) (db : Db) (after : List JobRecord)
    → enqueue_expired_trash_deletions new_id limit now db ≡ ok (k, after)
    → Reach db.jobs after
enqueue_expired_trash_deletions-Reach new_id limit now k db after e =
    enqueue_deletions-Reach new_id (candidates limit now db) now k db.jobs db.jobs after Reach.here
      (unfold enqueue_expired_trash_deletions in e)

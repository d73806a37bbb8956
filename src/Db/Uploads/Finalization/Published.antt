-- ===== src/Db/Uploads/Finalization/Published.antt =====
-- The tables after a successful finalize_upload of crates/db/src/lib.rs.
use strife.Base.{
  ℕ, ◌<◌, ◌≡◌, refl, sym, ap, subst, ◌∙◌, String, Option, none, some, List, [], ◌∷◌, true, false,
  ◌||◌, arith, ◌==◌, ◌⊎◌, inl, inr, Bool-cases, Option-cases, any, update_rows, All,
}
use strife.Base.Rows.{row-update_rows, key-row}
use strife.Base.Result.{ok, Result-cases, ok_or-eq-ok}
use strife.Db.Schema.{Db, UploadSessionRecord, NodeRecord, JobType, JobRecord}
use strife.Db.Nodes.{get_node_by_id, insert_node}
use strife.Db.Nodes.Invariant.{IsHierarchy, is_folder_node}
use strife.Db.Nodes.Insertion.{insert_node-IsHierarchy}
use strife.Db.Jobs.{enqueue_job, occupies}
use strife.Db.Uploads.{get_upload_session, is_active, is_completed, complete}
use strife.Db.Uploads.Chunks.{IsReceived}
use strife.Db.Uploads.Coverage.{received_all, covers}
use strife.Db.Uploads.Finalization.{
  Finalized, not_found, finalize_upload, publish, insert_finalized_object, enqueue_metadata_job,
  is_incomplete, uploaded_node, new_object, load_completed_upload_node,
}

pub publish-parts :
    (t : UploadSessionRecord) (input : Finalized) (now : ℕ) (db after : Db) (n : NodeRecord)
    → publish t input now db ≡ ok (n, after)
    → (n ≡ uploaded_node t input now)
      × (insert_node n db.nodes ≡ ok after.nodes)
      × (after.nodes ≡ n ∷ db.nodes)
      × (after.file_objects ≡ new_object n.id input now ∷ db.file_objects)
      × (enqueue_metadata_job input.job_id n.id now db.jobs ≡ ok after.jobs)
      × (after.upload_sessions
          ≡ update_rows
              (λ s. s.id == t.id)
              (complete input.checksum_sha256 (some n.id) now)
              db.upload_sessions)
unfolding publish insert_finalized_object insert_node
publish-parts t input now db after n e = ground arith

finalize_upload-publish :
    (i : ℕ) (input : Finalized) (now : ℕ) (db after : Db) (n : NodeRecord) (t : UploadSessionRecord)
    → get_upload_session i db.upload_sessions ≡ some t
    → is_active t.state ≡ true
    → finalize_upload i input now db ≡ ok (n, after)
    → (is_incomplete t.expected_byte_size t.received_bytes ≡ false)
      × (publish t input now db ≡ ok (n, after))
unfolding finalize_upload
finalize_upload-publish i input now db after n t found live e = ground arith

-- The node of a completed session, as load_completed_upload_node finds it.
loaded-node :
    (t : UploadSessionRecord) (nodes : List NodeRecord) (n : NodeRecord)
    → load_completed_upload_node t nodes ≡ ok n
    → (t.completed_node_id ≡ some n.id) × (get_node_by_id n.id nodes ≡ some n)
loaded-node t nodes n e = elim (Option-cases t.completed_node_id) [
  | inl missing ↦ absurd (ground arith)
  | inr (k, at_k) ↦
      let there : get_node_by_id k nodes ≡ some n =
        ok_or-eq-ok (get_node_by_id k nodes) not_found (ground arith) in
      let same = key-row (λ n. n.id) k nodes n there in
      (at_k ∙ ap some (sym same), subst (λ j. get_node_by_id j nodes ≡ some n) (sym same) there)
]

-- A success is that of a session that is completed, which changes nothing, or of an active one, which
-- publishes.
pub finalize_upload-ok :
    (i : ℕ) (input : Finalized) (now : ℕ) (db after : Db) (n : NodeRecord)
    → finalize_upload i input now db ≡ ok (n, after)
    → (t : UploadSessionRecord) × (get_upload_session i db.upload_sessions ≡ some t)
      × (((is_completed t.state ≡ true)
            × (t.completed_node_id ≡ some n.id)
            × (get_node_by_id n.id db.nodes ≡ some n)
            × (after ≡ db))
          ⊎ ((is_active t.state ≡ true) × (publish t input now db ≡ ok (n, after))))
unfolding finalize_upload
finalize_upload-ok i input now db after n e =
    elim (Option-cases (get_upload_session i db.upload_sessions)) [
      | inl missing ↦ absurd (ground arith)
      | inr (t, found) ↦ elim (Bool-cases (is_completed t.state)) [
        | inl done ↦ elim (Result-cases (load_completed_upload_node t db.nodes)) [
          | inl (x, failed) ↦ absurd (ground arith)
          | inr (m, loaded) ↦
              let same : m ≡ n = ground arith in
              let (at_n, node) = loaded-node t db.nodes n (loaded ∙ ap ok same) in
              (t, found, inl (done, at_n, node, ground arith))
        ]
        | inr open_still ↦ elim (Bool-cases (is_active t.state)) [
          | inl live ↦ (t, found, inr (live, ground arith))
          | inr over ↦ absurd (ground arith)
        ]
      ]
    ]

-- A success is that of a session that is active, or of one that is completed and changes nothing.
pub finalize_upload-cases :
    (i : ℕ) (input : Finalized) (now : ℕ) (db after : Db) (n : NodeRecord)
    → finalize_upload i input now db ≡ ok (n, after)
    → (db ≡ after)
      ⊎ ((t : UploadSessionRecord) × (get_upload_session i db.upload_sessions ≡ some t)
          × (is_active t.state ≡ true)
          × (after.upload_sessions
              ≡ update_rows
                  (λ s. s.id == t.id)
                  (complete input.checksum_sha256 (some n.id) now)
                  db.upload_sessions))
unfolding finalize_upload
finalize_upload-cases i input now db after n e =
    elim (Option-cases (get_upload_session i db.upload_sessions)) [
      | inl missing ↦ absurd (ground arith)
      | inr (t, found) ↦ elim (Bool-cases (is_completed t.state)) [
        | inl done ↦ elim (Result-cases (load_completed_upload_node t db.nodes)) [
          | inl (x, failed) ↦ absurd (ground arith)
          | inr (m, loaded) ↦ inl (ground arith)
        ]
        | inr open_still ↦ elim (Bool-cases (is_active t.state)) [
          | inl live ↦ inr (
            t,
            found,
            live,
            let published : publish t input now db ≡ ok (n, after) = ground arith in
                (publish-parts t input now db after n published).5,
          )
          | inr over ↦ absurd (ground arith)
        ]
      ]
    ]

-- The call of a session that is completed returns its node, and changes nothing.
finalize_upload-completed :
    (i : ℕ) (input : Finalized) (now : ℕ) (db : Db) (n : NodeRecord) (t : UploadSessionRecord)
    → get_upload_session i db.upload_sessions ≡ some t
    → is_completed t.state ≡ true
    → t.completed_node_id ≡ some n.id
    → get_node_by_id n.id db.nodes ≡ some n
    → finalize_upload i input now db ≡ ok (n, db)
unfolding finalize_upload
finalize_upload-completed i input now db n t found done at_n node = ground arith

get-cons : (n : NodeRecord) (ns : List NodeRecord) → get_node_by_id n.id (n ∷ ns) ≡ some n
get-cons n ns = ground arith

pub session-completed :
    (i : ℕ) (checksum : String) (node : Option ℕ) (now : ℕ) (ss : List UploadSessionRecord)
    (t : UploadSessionRecord)
    → get_upload_session i ss ≡ some t
    → get_upload_session i (update_rows (λ s. s.id == t.id) (complete checksum node now) ss)
      ≡ some (complete checksum node now t)
session-completed i checksum node now ss t found =
    row-update_rows (λ s. s.id) (λ s. s.id == t.id) (complete checksum node now) (λ s. refl) i ss
    ∙ rw found (ground arith)

any-occupied :
    (job_id node now : ℕ) (jobs after : List JobRecord)
    → any (λ j. j.id == job_id) jobs ≡ false
    → enqueue_metadata_job job_id node now jobs ≡ ok after
    → any (occupies JobType.metadata_extraction node) after ≡ true
unfolding enqueue_metadata_job enqueue_job
any-occupied job_id node now jobs after fresh e =
    elim (Bool-cases
      (any (λ j. j.id == job_id || occupies JobType.metadata_extraction node j) jobs)) [
        | inl old ↦ let same : after ≡ jobs = ground arith in rw same (occupied jobs fresh old)
        | inr new ↦ ground arith
      ]
  where
    occupied :
        (js : List JobRecord)
        → any (λ j. j.id == job_id) js ≡ false
        → any (λ j. j.id == job_id || occupies JobType.metadata_extraction node j) js ≡ true
        → any (occupies JobType.metadata_extraction node) js ≡ true
    occupied [] f h = cc
    occupied (j ∷ js) f h = ground (arith, occupied js)

exact_size : (o : Option ℕ) (r size : ℕ) → o ≡ some size → is_incomplete o r ≡ false → r ≡ size
exact_size none r size e h = cc
exact_size (some x) r size e h = ground arith

module _ (i : ℕ) (input : Finalized) (now : ℕ) (db after : Db) (n : NodeRecord)
    (t : UploadSessionRecord) (found : get_upload_session i db.upload_sessions ≡ some t)
    (live : is_active t.state ≡ true) (done : finalize_upload i input now db ≡ ok (n, after)) where
  -- A finalized upload is published as a whole: its file's row and object are in the tables, its
  -- session is completed with that node, and a metadata job for the node is pending or leased, if the
  -- key drawn for the job is new.
  pub finalize_upload-published :
      any (λ j. j.id == input.job_id) db.jobs ≡ false
      → (n ≡ uploaded_node t input now)
        × (get_node_by_id n.id after.nodes ≡ some n)
        × (after.file_objects ≡ new_object n.id input now ∷ db.file_objects)
        × (get_upload_session i after.upload_sessions
            ≡ some (complete input.checksum_sha256 (some n.id) now t))
        × (any (occupies JobType.metadata_extraction n.id) after.jobs ≡ true)
  finalize_upload-published fresh =
      let (checked, published) = finalize_upload-publish i input now db after n t found live done in
      let (same, inserted, nodes, objects, jobs, sessions) =
        publish-parts t input now db after n published in
      (
        same,
        rw nodes (get-cons n db.nodes),
        objects,
        rw sessions
            (session-completed i input.checksum_sha256 (some n.id) now db.upload_sessions t found),
        any-occupied input.job_id n.id now db.jobs after.jobs fresh jobs,
      )

  -- A second `finalize_upload` of the session, whatever its arguments, returns the same node and
  -- changes nothing.
  pub finalize_upload-again :
      (input' : Finalized) (later : ℕ) → finalize_upload i input' later after ≡ ok (n, after)
  finalize_upload-again input' later =
      let (checked, published) = finalize_upload-publish i input now db after n t found live done in
      let (same, inserted, nodes, objects, jobs, sessions) =
        publish-parts t input now db after n published in
      finalize_upload-completed i input' later after n
        (complete input.checksum_sha256 (some n.id) now t)
        (rw sessions
          (session-completed i input.checksum_sha256 (some n.id) now db.upload_sessions t found))
        refl refl (rw nodes (get-cons n db.nodes))

  -- Where the session has an expected size and no chunk reaches beyond it, a finalized upload has
  -- received every byte.
  pub finalize_upload-received_all :
      (size : ℕ)
      → t.expected_byte_size ≡ some size
      → IsReceived db.upload_sessions db.upload_chunks
      → All (λ c. c.session_id == i ≡ true → c.end_byte < size) db.upload_chunks
      → (b : ℕ) → b < size
      → any (covers i b) db.upload_chunks ≡ true
  finalize_upload-received_all size expected h below b lt =
      let (checked, published) = finalize_upload-publish i input now db after n t found live done in
      received_all i size t db.upload_sessions db.upload_chunks h found
        (exact_size t.expected_byte_size t.received_bytes size expected checked) below b lt

  -- A finalized upload keeps the hierarchy, if its target is a folder, trashed or not.
  pub finalize_upload-IsHierarchy :
      is_folder_node t.target_folder_id db.nodes ≡ true
      → IsHierarchy db.nodes
      → IsHierarchy after.nodes
  finalize_upload-IsHierarchy target h =
      let (checked, published) = finalize_upload-publish i input now db after n t found live done in
      let (same, inserted, nodes, objects, jobs, sessions) =
        publish-parts t input now db after n published in
      insert_node-IsHierarchy n db.nodes after.nodes h (rw same target) (rw same (λ f. cc)) inserted

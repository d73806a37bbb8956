-- ===== src/Api/Uploads/Handlers/Finished.antt =====
-- finalize_upload and cancel_upload of crates/api/src/uploads.rs: where the staged bytes are afterwards.
use strife.Base.{
  ℕ, ◌≡◌, ◌⊎◌, refl, sym, ap, ◌∷◌, subst, ◌∙◌, String, none, some, List, Bool, true, false, ◌&&◌,
  arith, inl, inr, Bool-cases, Option-cases,
}
use strife.Base.Result.{Result, ok, err}
use strife.Storage.Objects.{
  StoredObject, StorageKey, content_of, delete-content_of, delete-content_of_same, same_key,
  key_in_staging, key_in_originals, move_object, move_object-content_of, move_object-source,
  move_object-some, move_object-back,
}
use strife.Db.Nodes.{get_node_by_id}
use strife.Db.Uploads.Finalization.Published.{finalize_upload-ok, publish-parts, session-completed}
use strife.Db.Schema.{
  Db, FileObjectRecord, FileUploadState, NodeRecord, UploadSessionRecord, UploadSessionState,
}
use strife.Db.Uploads.{
  get_session_progress, get_upload_session, is_active, is_completed, complete, ReceivedRange,
}
use strife.Db.Uploads.Finalization.{FinalizeUploadError, finalize_upload, is_incomplete, new_object}
use strife.Importer.{World}
use strife.Api.Uploads.{UploadApiError}
use strife.Api.Folders.{FolderResponse, folder_response}
use strife.Api.Uploads.Handlers.Finalization.{
  Read, FinalizeDraws, finalize_input, is_not_active, is_abandoned, returned, concluded,
  finalize_staged, finalize_upload_request, from_finalize,
}

module _ (read : Read) (session_id : ℕ) (draws : FinalizeDraws) (now : ℕ) (w : World) (db : Db)
    (fresh : content_of (key_in_originals draws.original_id) w.objects ≡ none) where
  -- The stored objects are as they were.
  abbrev pub SameObjects : List StoredObject → Type 0
  SameObjects objects = (k : StorageKey) → content_of k objects ≡ content_of k w.objects

  -- They are so but for the staged object of a session that was cancelled or has expired meanwhile.
  abbrev pub Discarded : UploadSessionRecord → List StoredObject → Type 0
  Discarded session objects =
      (is_abandoned (get_upload_session session_id db.upload_sessions) ≡ true)
      × (content_of (key_in_staging session.staging_key) objects ≡ none)
      × ((k : StorageKey)
          → same_key (key_in_staging session.staging_key) k ≡ false
          → content_of k objects ≡ content_of k w.objects)

  -- The staged bytes are under the key that was drawn for the original, and no longer staged.
  abbrev pub IsMoved : UploadSessionRecord → ℕ → List StoredObject → Type 0
  IsMoved session content objects =
      (content_of (key_in_staging session.staging_key) w.objects ≡ some content)
      × (content_of (key_in_originals draws.original_id) objects ≡ some content)
      × (content_of (key_in_staging session.staging_key) objects ≡ none)

  -- The object row that names the original, with what was read of the staged bytes.
  abbrev pub NamesOriginal : UploadSessionRecord → ℕ → NodeRecord → FileObjectRecord → Type 0
  NamesOriginal session content node object =
      (object.node_id ≡ some node.id)
      × (object.storage_key ≡ draws.original_id)
      × (object.upload_state ≡ FileUploadState.finalized)
      × (object.byte_size ≡ session.received_bytes)
      × (object.checksum_sha256 ≡ some (read.sha256 content))
      × (object.mime_type ≡ read.detect_mime content)

  -- The session was active still: the transaction has made the node that is answered and the row of
  -- its original, and has completed the session with them.
  abbrev pub Published : UploadSessionRecord → FolderResponse → World → Type 0
  Published session response after =
      (content : ℕ) × (t : UploadSessionRecord) × (node : NodeRecord) × (object : FileObjectRecord)
      × (get_upload_session session_id db.upload_sessions ≡ some t)
      × (t.state ≡ UploadSessionState.active)
      × IsMoved session content after.objects
      × (node.id ≡ draws.node_id)
      × (node.parent_id ≡ some t.target_folder_id)
      × (node.name ≡ t.display_name)
      × (after.db.nodes ≡ node ∷ db.nodes)
      × (after.db.file_objects ≡ object ∷ db.file_objects)
      × NamesOriginal session content node object
      × (u : UploadSessionRecord) × (get_upload_session session_id after.db.upload_sessions
          ≡ some u)
      × (u.state ≡ UploadSessionState.completed)
      × (u.completed_node_id ≡ some node.id)
      × (response ≡ folder_response false node)

  -- The session was completed meanwhile: its node is answered and no row is changed, so the staged
  -- bytes lie under a key that no row was made for.
  abbrev pub Completed : UploadSessionRecord → FolderResponse → World → Type 0
  Completed session response after =
      (content : ℕ) × (t : UploadSessionRecord) × (node : NodeRecord) × (get_upload_session
          session_id db.upload_sessions
        ≡ some t)
      × (t.state ≡ UploadSessionState.completed)
      × (t.completed_node_id ≡ some node.id)
      × (get_node_by_id node.id db.nodes ≡ some node)
      × (after.db ≡ db)
      × IsMoved session content after.objects
      × (response ≡ folder_response false node)

  abbrev pub Settled : UploadSessionRecord → Result UploadApiError FolderResponse × World → Type 0
  Settled session r =
      ((e : UploadApiError) × (r.0 ≡ err e)
        × (SameObjects r.1.objects ⊎ Discarded session r.1.objects))
      ⊎ ((response : FolderResponse) × (r.0 ≡ ok response)
          × (Published session response r.1 ⊎ Completed session response r.1))

  active_eq : (s : UploadSessionState) → is_active s ≡ true → s ≡ UploadSessionState.active
  active_eq UploadSessionState.active h = refl
  active_eq UploadSessionState.finalizing h = cc
  active_eq UploadSessionState.completed h = cc
  active_eq UploadSessionState.cancelled h = cc
  active_eq UploadSessionState.expired h = cc

  completed_eq : (s : UploadSessionState) → is_completed s ≡ true → s ≡ UploadSessionState.completed
  completed_eq UploadSessionState.active h = cc
  completed_eq UploadSessionState.finalizing h = cc
  completed_eq UploadSessionState.completed h = refl
  completed_eq UploadSessionState.cancelled h = cc
  completed_eq UploadSessionState.expired h = cc

  move_object-IsMoved :
      (session : UploadSessionRecord) (content : ℕ) (moved : List StoredObject)
      → content_of (key_in_staging session.staging_key) w.objects ≡ some content
      → move_object
          (key_in_staging session.staging_key)
          (key_in_originals draws.original_id)
          w.objects
        ≡ some moved
      → IsMoved session content moved
  move_object-IsMoved session content moved here there =
      let a = key_in_staging session.staging_key in
      let b = key_in_originals draws.original_id in
      (
        here,
        (move_object-content_of a b w.objects moved there).0 ∙ here,
        move_object-source a b w.objects moved refl there,
      )

  transacted :
      (session : UploadSessionRecord) (moved : List StoredObject) (content : ℕ) (mime : String)
      (node : NodeRecord) (after : Db)
      → read.detect_mime content ≡ some mime
      → IsMoved session content moved
      → finalize_upload session_id
          (finalize_input draws session.received_bytes mime (read.sha256 content))
          now
          db
        ≡ ok (node, after)
      → Published session (folder_response false node) (record { db = after; objects = moved })
        ⊎ Completed session (folder_response false node) (record { db = after; objects = moved })
  transacted session moved content mime node after detected is_moved done =
      let input = finalize_input draws session.received_bytes mime (read.sha256 content) in
      let (t, found, how) = finalize_upload-ok session_id input now db after node done in
      elim how [
        | inl (ended, at_n, there, same) ↦
            inr (
              content,
              t,
              node,
              found,
              completed_eq t.state ended,
              at_n,
              there,
              same,
              is_moved,
              refl,
            )
        | inr (live, published) ↦
            let (is_node, inserted, nodes, objects, jobs, sessions) =
              publish-parts t input now db after node published in
            inl (
              content,
              t,
              node,
              new_object node.id input now,
              found,
              active_eq t.state live,
              is_moved,
              ap (λ (n : NodeRecord). n.id) is_node,
              ap (λ (n : NodeRecord). n.parent_id) is_node,
              ap (λ (n : NodeRecord). n.name) is_node,
              nodes,
              objects,
              (refl, refl, refl, refl, refl, sym detected),
              complete input.checksum_sha256 (some node.id) now t,
              ap (get_upload_session session_id) sessions
                  ∙ session-completed session_id input.checksum_sha256 (some node.id) now
                      db.upload_sessions t found,
              refl,
              refl,
              refl,
            )
      ]

  returned-objects :
      (session : UploadSessionRecord) (moved : List StoredObject) (content : ℕ) (abandoned : Bool)
      → (abandoned ≡ true → is_abandoned (get_upload_session session_id db.upload_sessions) ≡ true)
      → move_object
          (key_in_staging session.staging_key)
          (key_in_originals draws.original_id)
          w.objects
        ≡ some moved
      → content_of (key_in_originals draws.original_id) moved ≡ some content
      → SameObjects (returned session.staging_key draws.original_id abandoned moved)
        ⊎ Discarded session (returned session.staging_key draws.original_id abandoned moved)
  returned-objects session moved content abandoned why there stored =
      let a = key_in_staging session.staging_key in
      let b = key_in_originals draws.original_id in
      let (back, went) = move_object-some b a moved content stored in
      let same = move_object-back a b w.objects moved back refl refl fresh there went in
      elim (Bool-cases abandoned) [
        | inl dropped ↦ inr (
            rw (dropped, went)
              (
                why dropped,
                delete-content_of_same a back,
                λ k apart. delete-content_of a k back apart ∙ same k,
              ))
        | inr kept ↦ inl (λ k. rw (kept, went) (same k))
      ]

  both_true : (a b : Bool) → (a && b) ≡ true → b ≡ true
  both_true a b h = ground arith

  concluded-Settled :
      (session : UploadSessionRecord) (moved : List StoredObject) (content : ℕ) (mime : String)
      (r : Result FinalizeUploadError (NodeRecord × Db))
      → content_of (key_in_staging session.staging_key) w.objects ≡ some content
      → read.detect_mime content ≡ some mime
      → finalize_upload session_id
          (finalize_input draws session.received_bytes mime (read.sha256 content))
          now
          db
        ≡ r
      → move_object
          (key_in_staging session.staging_key)
          (key_in_originals draws.original_id)
          w.objects
        ≡ some moved
      → Settled session (concluded session_id session draws.original_id r db moved)
  concluded-Settled session moved content mime (ok (node, after)) here detected done there = inr (
    folder_response false node,
    refl,
    transacted session moved content mime node after detected
        (move_object-IsMoved session content moved here there) done,
  )
  concluded-Settled session moved content mime (err e) here detected done there =
      let a = key_in_staging session.staging_key in
      let b = key_in_originals draws.original_id in
      inl (
        from_finalize e,
        refl,
        returned-objects session moved content
            (is_not_active e && is_abandoned (get_upload_session session_id db.upload_sessions))
            (both_true (is_not_active e)
              (is_abandoned (get_upload_session session_id db.upload_sessions)))
            there ((move_object-content_of a b w.objects moved there).0 ∙ here),
      )

  finalize_staged-Settled :
      (session : UploadSessionRecord)
      → Settled session (finalize_staged read session_id session draws now w db)
  finalize_staged-Settled session =
      let a = key_in_staging session.staging_key in
      let b = key_in_originals draws.original_id in
      elim (Option-cases (content_of a w.objects)) [
        | inl lost ↦
            subst (Settled session) {x = (err UploadApiError.not_found, w)}
              (sym (rw (finalize_staged, lost) refl)) (inl (_, refl, inl (λ k. refl)))
        | inr (content, here) ↦ elim (Option-cases (read.detect_mime content)) [
          | inl unknown ↦
              subst (Settled session) {x = (err UploadApiError.internal, w)}
                (sym (rw (finalize_staged, here, unknown) refl)) (inl (_, refl, inl (λ k. refl)))
          | inr (mime, detected) ↦
              let (moved, went) = move_object-some a b w.objects content here in
              let input = finalize_input draws session.received_bytes mime (read.sha256 content) in
              subst (Settled session)
                {x = concluded session_id session draws.original_id
                  (finalize_upload session_id input now db) db moved}
                (sym (rw (finalize_staged, here, detected, went) refl))
                (concluded-Settled session moved content mime
                  (finalize_upload session_id input now db) here detected refl went)
        ]
      ]

  not_completed : (s : UploadSessionState) → is_active s ≡ true → is_completed s ≡ false
  not_completed UploadSessionState.active h = refl
  not_completed UploadSessionState.finalizing h = cc
  not_completed UploadSessionState.completed h = cc
  not_completed UploadSessionState.cancelled h = cc
  not_completed UploadSessionState.expired h = cc

  -- The finalization of a session that is active when it is read, whatever other requests have done to
  -- the database by the time of its transaction, ends in one of three ways. Where the session is
  -- active still, the answer may be a new node in the session's folder, whose finalized object names
  -- the key drawn for the original, under which the staged bytes are now; the session is completed
  -- with that node. Where the session was completed meanwhile, the answer may be its node: no row is
  -- changed, and the staged bytes are moved to the drawn key all the same. Else it fails, and every
  -- stored object is as it was, but that the staged one is gone where the session was cancelled or
  -- has expired meanwhile. The drawn key has no object before.
  pub finalize_upload_request-Settled :
      (session : UploadSessionRecord) (received : List ReceivedRange)
      → get_session_progress session_id w.db ≡ some (session, received)
      → is_active session.state ≡ true
      → Settled session (finalize_upload_request read session_id draws now w db)
  unfolding finalize_upload_request
  finalize_upload_request-Settled session received found live =
      let running = not_completed session.state live in
      elim (Bool-cases (is_incomplete session.expected_byte_size session.received_bytes)) [
        | inl missing ↦
            subst (Settled session) {x = (err UploadApiError.incomplete, w)}
              (sym (rw (finalize_upload_request, found, running, live, missing) refl))
              (inl (_, refl, inl (λ k. refl)))
        | inr whole ↦
            subst (Settled session) {x = finalize_staged read session_id session draws now w db}
              (sym (rw (finalize_upload_request, found, running, live, whole) refl))
              (finalize_staged-Settled session)
      ]

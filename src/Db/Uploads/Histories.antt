-- ===== src/Db/Uploads/Histories.antt =====
-- Histories of the upload sessions of crates/db/src/lib.rs: every statement and transaction that
-- changes a session, where it succeeds, as a step.
use strife.Base.{
  ℕ, ◌≡◌, refl, sym, ap, ◌∙◌, subst, some, List, Bool, true, false, ◌&&◌, ◌||◌, String, Option, not,
  arith, suc, ◌-◌, ◌⊎◌, ◌==◌, ==_iff, inl, inr, Bool-cases, Option-cases, some_injective, updated,
  update_rows,
}
use strife.Base.Int.{ℤ}
use strife.Base.Rows.{row-update_rows, key-row, changed}
use strife.Base.Result.{ok}
use strife.Db.Schema.{Db, NodeRecord, UploadSessionRecord, UploadSessionState}
use strife.Db.Uploads.{
  is_completed, finalize_session, CreateUploadSession, create_session, record_chunk, cancel_session,
  expire_session, get_upload_session, is_open, is_active, overdue, set_state, receive, new_session,
  update_session, or_stable, complete,
}
use strife.Db.Uploads.Chunks.{record_chunk-parts, create_session-parts, fresh-session, any-session}
use strife.Db.Uploads.Finalization.{Finalized, finalize_upload}
use strife.Db.Uploads.Finalization.Published.{finalize_upload-cases}

-- One successful operation on a session; each takes a Db that holds the other tables as they are then.
pub data Step (sessions : List UploadSessionRecord) : List UploadSessionRecord → Type 0 where
  creates :
      (id : ℕ) (input : CreateUploadSession) (now : ℕ) (db after : Db) {r : UploadSessionRecord}
      → db.upload_sessions ≡ sessions
      → create_session id input now db ≡ ok (r, after)
      → Step sessions after.upload_sessions
  receives :
      (id session_id : ℕ) (start_byte end_byte : ℤ) (now : ℕ) (db after : Db)
      {r : UploadSessionRecord}
      → db.upload_sessions ≡ sessions
      → record_chunk id session_id start_byte end_byte now db ≡ ok (r, after)
      → Step sessions after.upload_sessions
  finalizes :
      (session_id : ℕ) (input : Finalized) (now : ℕ) (db after : Db) {n : NodeRecord}
      → db.upload_sessions ≡ sessions
      → finalize_upload session_id input now db ≡ ok (n, after)
      → Step sessions after.upload_sessions
  marks :
      (session_id : ℕ) (checksum : String) (node : Option ℕ) (now : ℕ) (db after : Db)
      {r : UploadSessionRecord}
      → db.upload_sessions ≡ sessions
      → finalize_session session_id checksum node now db ≡ ok (r, after)
      → Step sessions after.upload_sessions
  cancels :
      (session_id now : ℕ) (db after : Db) {r : UploadSessionRecord}
      → db.upload_sessions ≡ sessions
      → cancel_session session_id now db ≡ ok (r, after)
      → Step sessions after.upload_sessions
  expires :
      (session_id now : ℕ) (db after : Db) {r : UploadSessionRecord}
      → db.upload_sessions ≡ sessions
      → expire_session session_id now db ≡ ok (r, after)
      → Step sessions after.upload_sessions

pub data Reach (sessions : List UploadSessionRecord) : List UploadSessionRecord → Type 0 where
  start : Reach sessions sessions
  step :
      {mid after : List UploadSessionRecord}
      → Reach sessions mid
      → Step mid after
      → Reach sessions after

-- completed, cancelled or expired
abbrev pub is_closed : UploadSessionState → Bool
is_closed s = not (is_open s)

-- An UPDATE that passes over a row leaves it as it is.
untouched :
    (p : UploadSessionRecord → Bool) (f : UploadSessionRecord → UploadSessionRecord) (i : ℕ)
    (ss : List UploadSessionRecord) (t : UploadSessionRecord)
    → ((s : UploadSessionRecord) → (f s).id ≡ s.id)
    → get_upload_session i ss ≡ some t
    → p t ≡ false
    → get_upload_session i (update_rows p f ss) ≡ some t
untouched p f i ss t same found off =
    row-update_rows (λ s. s.id) p f same i ss ∙ rw (found, off) refl

record_chunk-open :
    (id i : ℕ) (s e : ℤ) (now : ℕ) (db after : Db) (r : UploadSessionRecord)
    → record_chunk id i s e now db ≡ ok (r, after)
    → (t : UploadSessionRecord) × (bytes : ℕ) × (get_upload_session i db.upload_sessions ≡ some t)
      × (is_active t.state ≡ true)
      × (after.upload_sessions
          ≡ update_rows (λ x. x.id == i) (receive bytes now) db.upload_sessions)
record_chunk-open id i s e now db after r done =
    let (a, b, t, found, at_s, at_e, range, free, chunks, sessions) =
      record_chunk-parts id i s e now db after r done in
    (t, suc (b - a), found, live t found done, sessions)
  where
    live :
        (t : UploadSessionRecord)
        → get_upload_session i db.upload_sessions ≡ some t
        → record_chunk id i s e now db ≡ ok (r, after)
        → is_active t.state ≡ true
    live t found h = unfold record_chunk in ground arith

-- An UPDATE of one row, or the table as it was.
stable-sessions :
    (p : UploadSessionRecord → Bool) (f : UploadSessionRecord → UploadSessionRecord) (i : ℕ)
    (db after : Db) (r : UploadSessionRecord)
    → or_stable i (update_session p f db) db ≡ ok (r, after)
    → (after.upload_sessions ≡ db.upload_sessions)
      ⊎ (after.upload_sessions ≡ update_rows p f db.upload_sessions)
stable-sessions p f i db after r e = elim (Option-cases (updated p f db.upload_sessions)) [
  | inl missing ↦ elim (Option-cases (get_upload_session i db.upload_sessions)) [
    | inl nowhere ↦ absurd (ground arith)
    | inr (t, found) ↦ inl (ground arith)
  ]
  | inr (t, hit) ↦ inr (ground arith)
]

closed-not_open : (s : UploadSessionState) → is_closed s ≡ true → is_active s ≡ false
closed-not_open UploadSessionState.active h = cc
closed-not_open UploadSessionState.finalizing h = cc
closed-not_open UploadSessionState.completed h = refl
closed-not_open UploadSessionState.cancelled h = refl
closed-not_open UploadSessionState.expired h = refl

-- The row that an operation changes is active, so it is not the closed one.
other-row :
    (i j : ℕ) (ss : List UploadSessionRecord) (t u : UploadSessionRecord)
    → get_upload_session i ss ≡ some t
    → get_upload_session j ss ≡ some u
    → is_closed t.state ≡ true
    → is_active u.state ≡ true
    → t.id == j ≡ false
other-row i j ss t u at_t at_u closed live = elim (Bool-cases (t.id == j)) [
  | inr apart ↦ apart
  | inl same ↦
      let ij : i ≡ j = sym (key-row (λ s. s.id) i ss t at_t) ∙ (==_iff t.id j).0 same in
      let is : t ≡ u = some_injective (sym at_t ∙ ap (λ k. get_upload_session k ss) ij ∙ at_u) in
      absurd (
        ground (
          arith,
          closed-not_open t.state closed,
          ap (λ (s : UploadSessionRecord). is_active s.state) is,
          live,
        ))
]

-- The rest of a session that was closed: one that was cancelled or has expired is as it was, and one
-- that was completed is so, with the bytes that it had received under the key that it had.
abbrev pub IsKept : UploadSessionRecord → UploadSessionRecord → Type 0
IsKept t u =
    (is_completed t.state ≡ false → u ≡ t)
    × (is_completed u.state ≡ is_completed t.state)
    × (u.received_bytes ≡ t.received_bytes)
    × (u.staging_key ≡ t.staging_key)

same-IsKept : (t : UploadSessionRecord) → IsKept t t
same-IsKept t = (λ _. refl, refl, refl, refl)

finalize_session-rows :
    (j : ℕ) (checksum : String) (node : Option ℕ) (now : ℕ) (db after : Db)
    (r : UploadSessionRecord)
    → finalize_session j checksum node now db ≡ ok (r, after)
    → after.upload_sessions
      ≡ update_rows
          (λ s. s.id == j && (is_open s.state || is_completed s.state))
          (complete checksum node now)
          db.upload_sessions
unfolding finalize_session
finalize_session-rows j checksum node now db after r e =
    elim (Option-cases (
      updated (λ s. s.id == j && (is_open s.state || is_completed s.state))
        (complete checksum node now) db.upload_sessions)) [
          | inl missing ↦ absurd (ground arith)
          | inr (t, hit) ↦ ground arith
        ]

complete-IsKept :
    (p : UploadSessionRecord → Bool) (checksum : String) (made : Option ℕ) (now : ℕ)
    (t : UploadSessionRecord)
    → (p t ≡ true → is_completed t.state ≡ true)
    → IsKept t (changed p (complete checksum made now) t)
complete-IsKept p checksum made now t only = elim (Bool-cases (p t)) [
  | inl hit ↦ rw hit ((λ open_still. absurd (ground (arith, only))), sym (only hit), refl, refl)
  | inr miss ↦ rw miss (same-IsKept t)
]

closed_completed : (s : UploadSessionState) → is_closed s ≡ true → is_open s ≡ false
closed_completed s h = ground arith

-- A finalize_session of the session, the only statement that changes a completed one.
abbrev IsMarked : ℕ → UploadSessionRecord → List UploadSessionRecord → Type 0
IsMarked i t after =
    (p : UploadSessionRecord → Bool) × (checksum : String) × (node : Option ℕ) × (now : ℕ) × (p t
        ≡ true
      → is_completed t.state ≡ true)
    × (get_upload_session i after ≡ some (changed p (complete checksum node now) t))

Step-cases :
    (i : ℕ) (sessions after : List UploadSessionRecord) (t : UploadSessionRecord)
    → Step sessions after
    → is_closed t.state ≡ true
    → get_upload_session i sessions ≡ some t
    → (get_upload_session i after ≡ some t) ⊎ IsMarked i t after
Step-cases i sessions _ t (creates id input now db after {r} same e) closed found = inl (
    let (free, opened, chunks) = create_session-parts id input now db after r e in
    let there : get_upload_session i db.upload_sessions ≡ some t = rw same found in
    rw opened (
      ground (
        arith,
        there,
        fresh-session (new_session id input now) db.upload_sessions free,
        any-session i t db.upload_sessions there,
      )))
Step-cases i sessions _ t (receives id j s e now db after {r} same done) closed found = inl (
    let (u, bytes, at_u, live, rows) = record_chunk-open id j s e now db after r done in
    let there : get_upload_session i db.upload_sessions ≡ some t = rw same found in
    rw rows (
      untouched (λ x. x.id == j) (receive bytes now) i db.upload_sessions t (λ x. refl) there
        (other-row i j db.upload_sessions t u there at_u closed live)))
Step-cases i sessions _ t (finalizes j input now db after {n} same done) closed found = inl (
    let there : get_upload_session i db.upload_sessions ≡ some t = rw same found in
    elim (finalize_upload-cases j input now db after n done) [
      | inl kept ↦ subst (λ (d : Db). get_upload_session i d.upload_sessions ≡ some t) kept there
      | inr (u, at_u, live, rows) ↦
          let at_id : get_upload_session u.id db.upload_sessions ≡ some u =
            subst (λ k. get_upload_session k db.upload_sessions ≡ some u)
              (sym (key-row (λ s. s.id) j db.upload_sessions u at_u)) at_u in
          rw rows (
            untouched (λ s. s.id == u.id) (complete input.checksum_sha256 (some n.id) now) i
              db.upload_sessions t (λ s. refl) there
              (other-row i u.id db.upload_sessions t u there at_id closed live))
    ])
Step-cases i sessions _ t (cancels j now db after {r} same done) closed found = inl (
    let there : get_upload_session i db.upload_sessions ≡ some t = rw same found in
    elim (stable-sessions (λ s. s.id == j && is_open s.state)
      (set_state UploadSessionState.cancelled now) j db after r (unfold cancel_session in done)) [
        | inl kept ↦ rw kept there
        | inr rows ↦ rw rows (
            untouched _ (set_state UploadSessionState.cancelled now) i db.upload_sessions t
              (λ s. refl) there (ground arith))
      ])
Step-cases i sessions _ t (expires j now db after {r} same done) closed found = inl (
    let there : get_upload_session i db.upload_sessions ≡ some t = rw same found in
    elim (stable-sessions (λ s. s.id == j && overdue now s)
      (set_state UploadSessionState.expired now) j db after r (unfold expire_session in done)) [
        | inl kept ↦ rw kept there
        | inr rows ↦ rw rows (
            untouched _ (set_state UploadSessionState.expired now) i db.upload_sessions t
              (λ s. refl) there (ground (arith, closed-not_open t.state closed)))
      ])
Step-cases i sessions _ t (marks j checksum node now db after {r} same done) closed found =
    let there : get_upload_session i db.upload_sessions ≡ some t = rw same found in
    let p = λ (s : UploadSessionRecord). s.id == j && (is_open s.state || is_completed s.state) in
    inr (
      p,
      checksum,
      node,
      now,
      (λ h. ground (arith, closed_completed t.state closed)),
      ap (get_upload_session i) (finalize_session-rows j checksum node now db after r done)
          ∙ row-update_rows (λ s. s.id) p (complete checksum node now) (λ s. refl) i
              db.upload_sessions
          ∙ rw there refl,
    )

Step-closed :
    (i : ℕ) (sessions after : List UploadSessionRecord) (t : UploadSessionRecord)
    → Step sessions after
    → is_closed t.state ≡ true
    → get_upload_session i sessions ≡ some t
    → (u : UploadSessionRecord) × (get_upload_session i after ≡ some u) × IsKept t u
Step-closed i sessions after t s closed found =
    elim (Step-cases i sessions after t s closed found) [
      | inl same ↦ (t, same, same-IsKept t)
      | inr (p, checksum, node, now, only, there) ↦ (
        changed p (complete checksum node now) t,
        there,
        complete-IsKept p checksum node now t only,
      )
    ]

IsKept-is_closed :
    (t u : UploadSessionRecord) → IsKept t u → is_closed t.state ≡ true → is_closed u.state ≡ true
IsKept-is_closed t u h closed = elim (Bool-cases (is_completed t.state)) [
  | inl done ↦ completed_closed u.state (h.1 ∙ done)
  | inr ended ↦
      subst (λ (x : UploadSessionRecord). is_closed x.state ≡ true) (sym (h.0 ended)) closed
]
  where
    completed_closed : (s : UploadSessionState) → is_completed s ≡ true → is_closed s ≡ true
    completed_closed UploadSessionState.active k = cc
    completed_closed UploadSessionState.finalizing k = cc
    completed_closed UploadSessionState.completed k = refl
    completed_closed UploadSessionState.cancelled k = refl
    completed_closed UploadSessionState.expired k = refl

IsKept-trans : (t u v : UploadSessionRecord) → IsKept t u → IsKept u v → IsKept t v
IsKept-trans t u v h k = (λ ended. k.0 (h.1 ∙ ended) ∙ h.0 ended, k.1 ∙ h.1, k.2 ∙ h.2, k.3 ∙ h.3)

-- In every history of creations, chunks, finalizations (finalize_upload, finalize_session),
-- cancellations and expiries, a session that is cancelled or expired stays as it is, and one that is
-- completed stays completed, with the bytes that it had received and under the staging key that it
-- had.
pub Reach-closed :
    (i : ℕ) (sessions after : List UploadSessionRecord) (t : UploadSessionRecord)
    → Reach sessions after
    → is_closed t.state ≡ true
    → get_upload_session i sessions ≡ some t
    → (u : UploadSessionRecord) × (get_upload_session i after ≡ some u) × IsKept t u
Reach-closed i sessions _ t start closed found = (t, found, same-IsKept t)
Reach-closed i sessions _ t (step {mid} {after} r s) closed found =
    let (u, at_u, h) = Reach-closed i sessions mid t r closed found in
    let (v, at_v, k) = Step-closed i mid after u s (IsKept-is_closed t u h closed) at_u in
    (v, at_v, IsKept-trans t u v h k)

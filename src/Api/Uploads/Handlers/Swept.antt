-- ===== src/Api/Uploads/Handlers/Swept.antt =====
-- cleanup_expired_uploads of crates/api/src/uploads.rs: what a sweep leaves of sessions and objects.
use strife.Base.{
  ℕ, ◌⊎◌, where_rows, ◌≡◌, ◌<◌, some, any, refl, sym, ap, subst, ◌∙◌, none, Bool, true, false, ◌&&◌,
  not, arith, inl, inr, ◌==◌, Bool-cases, All,
}
use strife.Base.Result.{ok}
use strife.Api.Uploads.Handlers.Loop.{expired_at, due, is_swept, Spares, Looped, sweep-Looped}
use strife.Base.Rows.{
  All-of_not_any, NoClash, changed, rows-found, row-update_rows, key-row, eq_of_key, All-any,
  All-map₂, All-where_rows, All-of_forall, All-of_where_rows, All-of_order_by, row-All,
}
use strife.Base.Ordered.{any-order_by, any-where_rows, any-row, order_by-All}
use strife.Storage.Objects.{same_key, StorageKey, content_of, key_in_staging}
use strife.Db.Schema.{UploadSessionRecord, UploadSessionState}
use strife.Db.Uploads.{list_expired_sessions, overdue, is_active, get_upload_session, session_clash}
use strife.Importer.{World}
use strife.Api.Uploads.Handlers.{cleanup_expired_uploads}

-- Active, and past its time.
abbrev pub IsOverdue : ℕ → UploadSessionRecord → Type 0
IsOverdue now s = (s.state ≡ UploadSessionState.active) × (s.expires_at < now)

module _ (now : ℕ) (fails : ℕ → Bool) (w after : World) where
  -- A sweep is due for the session, and the storage can delete its staged object.
  abbrev pub IsSwept : UploadSessionRecord → Type 0
  IsSwept s = IsOverdue now s × (fails s.staging_key ≡ false)

  -- The session of the id, before the sweep.
  abbrev pub SessionAt : ℕ → UploadSessionRecord → Type 0
  SessionAt i s = get_upload_session i w.db.upload_sessions ≡ some s

  -- What becomes of a session.
  abbrev pub SessionSwept : ℕ → UploadSessionRecord → Type 0
  SessionSwept i s =
      (IsSwept s
        × (get_upload_session i after.db.upload_sessions
            ≡ some (record s { state = UploadSessionState.expired; updated_at = now }))
        × (content_of (key_in_staging s.staging_key) after.objects ≡ none))
      ⊎ (¬ IsSwept s × (get_upload_session i after.db.upload_sessions ≡ some s))

  -- What becomes of a stored object: only a swept session's staged object is changed.
  abbrev pub ObjectSwept : StorageKey → Type 0
  ObjectSwept k =
      (content_of k after.objects ≡ content_of k w.objects)
      ⊎ ((j : ℕ) × (t : UploadSessionRecord) × SessionAt j t
          × IsSwept t
          × (same_key (key_in_staging t.staging_key) k ≡ true))

  active_eq : (s : UploadSessionState) → is_active s ≡ true → s ≡ UploadSessionState.active
  active_eq UploadSessionState.active h = refl
  active_eq UploadSessionState.finalizing h = cc
  active_eq UploadSessionState.completed h = cc
  active_eq UploadSessionState.cancelled h = cc
  active_eq UploadSessionState.expired h = cc

  overdue-IsOverdue : (s : UploadSessionRecord) → overdue now s ≡ true → IsOverdue now s
  overdue-IsOverdue s h = (active_eq s.state (ground arith), ground arith)

  IsOverdue-overdue : (s : UploadSessionRecord) → IsOverdue now s → overdue now s ≡ true
  IsOverdue-overdue s h = ground (arith, h.0, h.1)

  keyed : (x y : UploadSessionRecord) → (y.id == x.id) ≡ true → session_clash x y ≡ true
  keyed x y h = ground arith

  module _ (unique : NoClash session_clash w.db.upload_sessions)
      (looped : Looped now fails (list_expired_sessions now w.db.upload_sessions) w after) where
    all_found :
        All (λ s. get_upload_session s.id w.db.upload_sessions ≡ some s) w.db.upload_sessions
    all_found = rows-found (λ s. s.id) session_clash keyed w.db.upload_sessions unique

    is_swept-any :
        (s : UploadSessionRecord)
        → is_swept now fails (list_expired_sessions now w.db.upload_sessions) s
          ≡ any
              (λ x. overdue now x && (not (fails x.staging_key) && due now x.id s))
              w.db.upload_sessions
    unfolding list_expired_sessions
    is_swept-any s =
        any-order_by (λ x. not (fails x.staging_key) && due now x.id s) _
          (where_rows (overdue now) w.db.upload_sessions)
        ∙ any-where_rows (λ x. not (fails x.staging_key) && due now x.id s) (overdue now)
            w.db.upload_sessions

    listed-All :
        (P : UploadSessionRecord → Type 0)
        → All P (list_expired_sessions now w.db.upload_sessions)
        → All (λ s. overdue now s ≡ true → P s) w.db.upload_sessions
    unfolding list_expired_sessions
    listed-All P h =
        All-of_where_rows P (overdue now) w.db.upload_sessions
          (All-of_order_by P _ (where_rows (overdue now) w.db.upload_sessions) h)

    all-Listed :
        (P : UploadSessionRecord → Type 0)
        → All (λ s. overdue now s ≡ true → P s) w.db.upload_sessions
        → All P (list_expired_sessions now w.db.upload_sessions)
    unfolding list_expired_sessions
    all-Listed P h =
        let selected = where_rows (overdue now) w.db.upload_sessions in
        order_by-All _ P selected (
          All-map₂ (λ s. (overdue now s ≡ true → P s) × (overdue now s ≡ true)) (λ _. Unit {0}) P
            (λ s p _. p.0 p.1) selected
            (All-where_rows (λ s. overdue now s ≡ true → P s) (overdue now) w.db.upload_sessions h)
            (All-of_forall (λ _. Unit {0}) (λ _. tt) selected))

    row-after :
        (i : ℕ) (s : UploadSessionRecord)
        → SessionAt i s
        → get_upload_session i after.db.upload_sessions
          ≡ some (
              changed
                (is_swept now fails (list_expired_sessions now w.db.upload_sessions))
                (expired_at now)
                s)
    row-after i s at_i =
        ap (get_upload_session i) looped.0
        ∙ row-update_rows (λ s. s.id)
            (is_swept now fails (list_expired_sessions now w.db.upload_sessions)) (expired_at now)
            (λ s. refl) i w.db.upload_sessions
        ∙ rw at_i refl

    is_swept-IsSwept :
        (s : UploadSessionRecord)
        → SessionAt s.id s
        → is_swept now fails (list_expired_sessions now w.db.upload_sessions) s ≡ true
        → IsSwept s
    is_swept-IsSwept s at_s h =
        let (x, at_x, both) =
          All-any (λ x. get_upload_session x.id w.db.upload_sessions ≡ some x)
            (λ x. overdue now x && (not (fails x.staging_key) && due now x.id s))
            w.db.upload_sessions all_found (sym (is_swept-any s) ∙ h) in
        let same : x ≡ s =
          eq_of_key (λ s. s.id) x s w.db.upload_sessions at_x at_s (ground arith) in
        subst IsSwept same (overdue-IsOverdue x (ground arith), ground arith)

    IsSwept-is_swept :
        (s : UploadSessionRecord)
        → SessionAt s.id s
        → IsSwept s
        → is_swept now fails (list_expired_sessions now w.db.upload_sessions) s ≡ true
    IsSwept-is_swept s at_s h =
        is_swept-any s
        ∙ any-row (λ s. s.id) (λ x. overdue now x && (not (fails x.staging_key) && due now x.id s))
            s.id w.db.upload_sessions s at_s (ground (arith, IsOverdue-overdue s h.0, h.1))

    at_own : (i : ℕ) (s : UploadSessionRecord) → SessionAt i s → SessionAt s.id s
    at_own i s at_i =
        subst (λ k. SessionAt k s) (sym (key-row (λ s. s.id) i w.db.upload_sessions s at_i)) at_i

    looped-SessionSwept : (i : ℕ) (s : UploadSessionRecord) → SessionAt i s → SessionSwept i s
    looped-SessionSwept i s at_i =
        let at_s = at_own i s at_i in
        elim (Bool-cases (is_swept now fails (list_expired_sessions now w.db.upload_sessions) s)) [
          | inl hit ↦
              let h = is_swept-IsSwept s at_s hit in
              inl (
                h,
                row-after i s at_i ∙ rw hit refl,
                row-All (λ s. s.id)
                    (λ s.
                      overdue now s ≡ true
                      → fails s.staging_key ≡ false
                      → content_of (key_in_staging s.staging_key) after.objects ≡ none)
                    i w.db.upload_sessions s (listed-All _ looped.1) at_i (IsOverdue-overdue s h.0)
                    h.1,
              )
          | inr miss ↦ inr (
            (λ h. absurd (ground (arith, IsSwept-is_swept s at_s h))),
            row-after i s at_i ∙ rw miss refl,
          )
        ]

    looped-ObjectSwept : (k : StorageKey) → ObjectSwept k
    looped-ObjectSwept k =
        let named = λ (s : UploadSessionRecord).
          overdue now s
          && (not (fails s.staging_key) && same_key (key_in_staging s.staging_key) k) in
        elim (Bool-cases (any named w.db.upload_sessions)) [
          | inl hit ↦
              let (t, at_t, both) =
                All-any (λ s. get_upload_session s.id w.db.upload_sessions ≡ some s) named
                  w.db.upload_sessions all_found hit in
              inr (t.id, t, at_t, (overdue-IsOverdue t (ground arith), ground arith), ground arith)
          | inr none_named ↦ inl (
              looped.3 k (
                all-Listed (Spares now fails k) (
                  All-map₂ (λ s. named s ≡ false) (λ _. Unit {0})
                    (λ s. overdue now s ≡ true → Spares now fails k s)
                    (λ s off _ late works. ground (arith, off, late, works)) w.db.upload_sessions
                    (All-of_not_any named w.db.upload_sessions none_named)
                    (All-of_forall (λ _. Unit {0}) (λ _. tt) w.db.upload_sessions))))
        ]

-- A sweep that succeeds expires each session that is active, past its time, and whose staged object
-- the storage could delete, and has deleted that object; every other session, and every other stored
-- object, is as it was. Sessions have distinct ids and staging keys.
pub cleanup_expired_uploads-Swept :
    (fails : ℕ → Bool) (now : ℕ) (w after : World) (n i : ℕ) (s : UploadSessionRecord)
    (k : StorageKey)
    → NoClash session_clash w.db.upload_sessions
    → cleanup_expired_uploads fails now w ≡ (ok n, after)
    → get_upload_session i w.db.upload_sessions ≡ some s
    → SessionSwept now fails w after i s × ObjectSwept now fails w after k
unfolding cleanup_expired_uploads
cleanup_expired_uploads-Swept fails now w after n i s k unique h at_i =
    let looped =
      sweep-Looped now fails (list_expired_sessions now w.db.upload_sessions) w after n h in
    (
      looped-SessionSwept now fails w after unique looped i s at_i,
      looped-ObjectSwept now fails w after unique looped k,
    )

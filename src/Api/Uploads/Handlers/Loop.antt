-- ===== src/Api/Uploads/Handlers/Loop.antt =====
-- The loop of cleanup_expired_uploads of crates/api/src/uploads.rs: what it leaves of the rows and the
-- objects.
use strife.Base.{
  ℕ, ◌≡◌, any, refl, sym, ap, subst, ◌∙◌, none, List, [], ◌∷◌, Bool, true, false, ◌&&◌, not, arith,
  inl, inr, ◌==◌, if◌then◌else◌, updated, update_rows, Bool-cases, Option-cases, All,
}
use strife.Base.Result.{Result, ok, err, Result-cases}
use strife.Storage.Objects.{
  same_key, delete-content_of, StorageKey, content_of, delete, delete-content_of_same, delete-none,
  key_in_staging,
}
use strife.Db.Schema.{Db, DbError, UploadSessionRecord, UploadSessionState}
use strife.Db.Uploads.{expire_session, overdue, set_state}
use strife.Importer.{World}
use strife.Api.Uploads.Handlers.{swept_one, sweep}

not_updated {ℓ} :
    {A : Type ℓ} (p : A → Bool) (f : A → A) (xs : List A)
    → updated p f xs ≡ none
    → update_rows p f xs ≡ xs
not_updated p f [] e = refl
not_updated p f (x ∷ xs) e = elim (Bool-cases (p x)) [
  | inl hit ↦ absurd (ground arith)
  | inr miss ↦ rw miss (ap (λ l. x ∷ l) (not_updated p f xs (rw miss at e)))
]

module _ (now : ℕ) where
  abbrev pub expired_at : UploadSessionRecord → UploadSessionRecord
  expired_at = set_state UploadSessionState.expired now

  abbrev pub due : ℕ → UploadSessionRecord → Bool
  due id s = s.id == id && overdue now s

  expire_session-rows :
      (id : ℕ) (db after : Db) (s : UploadSessionRecord)
      → expire_session id now db ≡ ok (s, after)
      → after.upload_sessions ≡ update_rows (due id) expired_at db.upload_sessions
  unfolding expire_session
  expire_session-rows id db after s e =
      elim (Option-cases (updated (due id) expired_at db.upload_sessions)) [
        | inl same ↦ ground (arith, not_updated (due id) expired_at db.upload_sessions same)
        | inr (x, here) ↦ ground arith
      ]

  module _ (fails : ℕ → Bool) where
    -- The sessions that the sweep of some rows expires.
    abbrev pub is_swept : List UploadSessionRecord → UploadSessionRecord → Bool
    is_swept ss x = any (λ s. not (fails s.staging_key) && due s.id x) ss

    expired-not_swept :
        (ss : List UploadSessionRecord) (x : UploadSessionRecord)
        → is_swept ss (expired_at x) ≡ false
    expired-not_swept [] x = refl
    expired-not_swept (s ∷ ss) x = ground (arith, expired-not_swept ss x)

    sweep-twice :
        (s : UploadSessionRecord) (ss : List UploadSessionRecord) (xs : List UploadSessionRecord)
        → fails s.staging_key ≡ false
        → update_rows (is_swept ss) expired_at (update_rows (due s.id) expired_at xs)
          ≡ update_rows (is_swept (s ∷ ss)) expired_at xs
    sweep-twice s ss [] works = refl
    sweep-twice s ss (x ∷ xs) works = elim (Bool-cases (due s.id x)) [
      | inl hit ↦
          rw (hit, expired-not_swept ss x, works)
            (ap (λ l. expired_at x ∷ l) (sweep-twice s ss xs works))
      | inr miss ↦
          rw (miss, works)
            (ap (λ l. (if is_swept ss x then expired_at x else x) ∷ l) (sweep-twice s ss xs works))
    ]

    abbrev pub Spares : StorageKey → UploadSessionRecord → Type 0
    Spares k s = fails s.staging_key ≡ false → same_key (key_in_staging s.staging_key) k ≡ false

    -- What a loop over `ss` that succeeds leaves of the sessions and of the objects.
    abbrev pub Looped : List UploadSessionRecord → World → World → Type 0
    Looped ss w after =
        (after.db.upload_sessions ≡ update_rows (is_swept ss) expired_at w.db.upload_sessions)
        × All
            (λ (s : UploadSessionRecord).
              fails s.staging_key ≡ false
              → content_of (key_in_staging s.staging_key) after.objects ≡ none)
            ss
        × ((k : StorageKey) → content_of k w.objects ≡ none → content_of k after.objects ≡ none)
        × ((k : StorageKey)
            → All (Spares k) ss
            → content_of k after.objects ≡ content_of k w.objects)

    never : (xs : List UploadSessionRecord) → update_rows (is_swept []) expired_at xs ≡ xs
    never [] = refl
    never (x ∷ xs) = ap (λ l. x ∷ l) (never xs)

    skipped-rows :
        (s : UploadSessionRecord) (ss xs : List UploadSessionRecord)
        → fails s.staging_key ≡ true
        → update_rows (is_swept (s ∷ ss)) expired_at xs ≡ update_rows (is_swept ss) expired_at xs
    skipped-rows s ss [] broken = refl
    skipped-rows s ss (x ∷ xs) broken =
        rw broken
          (ap (λ l. (if is_swept ss x then expired_at x else x) ∷ l) (skipped-rows s ss xs broken))

    -- The rest of a sweep that succeeds has succeeded, after the first session was expired.
    swept_one-ok :
        (r : Result DbError (UploadSessionRecord × Db)) (v after : World)
        (rest : World → Result DbError ℕ × World) (n : ℕ)
        → swept_one r v rest ≡ (ok n, after)
        → (s : UploadSessionRecord) × (d : Db) × (r ≡ ok (s, d))
          × (m : ℕ) × (rest (record v { db = d }) ≡ (ok m, after))
    swept_one-ok (err e) v after rest n h =
        let x : Path (Result DbError ℕ) (err e) (ok n) =
          ap (λ (p : Result DbError ℕ × World). p.0) h in
        cc
    swept_one-ok (ok (s, d)) v after rest n h = elim (Result-cases (rest (record v { db = d })).0) [
      | inl (e, failed) ↦
          let x : Path (Result DbError ℕ) (err e) (ok n) =
            ap (λ (p : Result DbError ℕ × World). p.0) (rw (swept_one, failed) at h) in
          cc
      | inr (m, done) ↦
          let left : (rest (record v { db = d })).1 ≡ after =
            ap (λ (p : Result DbError ℕ × World). p.1) (rw (swept_one, done) at h) in
          (s, d, refl, m, (λ i. (done i, left i)))
    ]

    pub sweep-Looped :
        (ss : List UploadSessionRecord) (w after : World) (n : ℕ)
        → sweep fails ss now w ≡ (ok n, after)
        → Looped ss w after
    unfolding sweep
    sweep-Looped [] w after n h =
        subst (Looped [] w) {x = w} (ap (λ (p : Result DbError ℕ × World). p.1) h)
          ((sym (never w.db.upload_sessions), tt, (λ k e. e), (λ k _. refl)))
    sweep-Looped (s ∷ ss) w after n h = elim (Bool-cases (fails s.staging_key)) [
      | inl broken ↦
          let (rows, gone, kept, spared) = sweep-Looped ss w after n (rw broken at h) in
          (
            rows ∙ sym (skipped-rows s ss w.db.upload_sessions broken),
            ((λ works. cc), gone),
            kept,
            (λ k h. spared k h.1),
          )
      | inr works ↦
          let key = key_in_staging s.staging_key in
          let v = record w { objects = delete key w.objects } in
          let (x, d, expired, m, rest) =
            swept_one-ok (expire_session s.id now w.db) v after (sweep fails ss now) n
              (rw works at h) in
          let (rows, gone, kept, spared) = sweep-Looped ss (record v { db = d }) after m rest in
          (
            rows
                ∙ ap (update_rows (is_swept ss) expired_at)
                    (expire_session-rows s.id w.db d x expired)
                ∙ sweep-twice s ss w.db.upload_sessions works,
            ((λ _. kept key (delete-content_of_same key w.objects)), gone),
            (λ k e. kept k (delete-none key k w.objects e)),
            (λ k h. spared k h.1 ∙ delete-content_of key k w.objects (h.0 works)),
          )
    ]

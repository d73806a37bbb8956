-- ===== src/Db/Uploads/Chunks.antt =====
-- The chunks of an upload session, for record_chunk and create_session of crates/db/src/lib.rs: their
-- count, their overlaps, and the bytes that they cover.
use strife.Base.{
  ℕ, suc, ◌+◌, ◌-◌, ◌≡◌, refl, sym, ap, ◌∙◌, subst, some, List, [], ◌∷◌, Bool, true, false, ◌&&◌,
  ◌||◌, arith, leb, ◌==◌, ==_iff, inl, inr, Bool-cases, Option-cases, if◌then◌else◌, any,
  update_rows, All,
}
use strife.Base.Int.{ℤ, pos, negsuc}
use strife.Base.Rows.{NoClash, All-map₂, All-update_rows}
use strife.Base.Result.{ok}
use strife.Db.Schema.{Db, UploadSessionRecord, UploadChunk}
use strife.Db.Uploads.{
  get_upload_session, overlaps, insert_chunk, byte_count, receive, record_chunk, create_session,
  CreateUploadSession, new_session, session_clash,
}

abbrev pub size : UploadChunk → ℕ
size c = suc (c.end_byte - c.start_byte)

-- The bytes of a session's chunks.
abbrev pub received : ℕ → List UploadChunk → ℕ
received i [] = 0
received i (c ∷ cs) = if c.session_id == i then size c + received i cs else received i cs

-- Two chunks of one session that share a byte.
abbrev pub chunk_clash : UploadChunk → UploadChunk → Bool
chunk_clash a b =
    b.session_id == a.session_id && (leb b.start_byte a.end_byte && leb a.start_byte b.end_byte)

-- Every chunk is a range of a session, no two chunks of one session overlap, and each session has
-- counted the bytes of its chunks.
pub record IsReceived (sessions : List UploadSessionRecord) (chunks : List UploadChunk)
    : Type 0 where
  pub ranges : All (λ c. leb c.start_byte c.end_byte ≡ true) chunks
  pub disjoint : NoClash chunk_clash chunks
  pub owned : All (λ c. any (λ s. s.id == c.session_id) sessions ≡ true) chunks
  pub totals : All (λ s. s.received_bytes ≡ received s.id chunks) sessions

abbrev new_chunk : ℕ → ℕ → ℕ → ℕ → UploadChunk
new_chunk id i s e = record { id = id; session_id = i; start_byte = s; end_byte = e }

any-overlaps :
    (id i s e : ℕ) (cs : List UploadChunk)
    → any (overlaps i (pos s) (pos e)) cs ≡ any (chunk_clash (new_chunk id i s e)) cs
any-overlaps id i s e [] = refl
any-overlaps id i s e (c ∷ cs) =
    ap (λ b. overlaps i (pos s) (pos e) c || b) (any-overlaps id i s e cs)

any-updated_sessions :
    (i j bytes now : ℕ) (ss : List UploadSessionRecord)
    → any (λ s. s.id == i) (update_rows (λ s. s.id == j) (receive bytes now) ss)
      ≡ any (λ s. s.id == i) ss
any-updated_sessions i j bytes now [] = refl
any-updated_sessions i j bytes now (s ∷ ss) = ground (arith, any-updated_sessions i j bytes now ss)

pub any-session :
    (i : ℕ) (s : UploadSessionRecord) (ss : List UploadSessionRecord)
    → get_upload_session i ss ≡ some s
    → any (λ t. t.id == i) ss ≡ true
any-session i s [] e = cc
any-session i s (t ∷ ts) e = ground (arith, any-session i s ts)

-- What a successful `record_chunk` has tested and done.
pub record_chunk-parts :
    (id i : ℕ) (s e : ℤ) (now : ℕ) (db after : Db) (r : UploadSessionRecord)
    → record_chunk id i s e now db ≡ ok (r, after)
    → (a : ℕ) × (b : ℕ) × (t : UploadSessionRecord) × (get_upload_session i db.upload_sessions
        ≡ some t)
      × (s ≡ pos a)
      × (e ≡ pos b)
      × (leb a b ≡ true)
      × (any (overlaps i (pos a) (pos b)) db.upload_chunks ≡ false)
      × (after.upload_chunks ≡ new_chunk id i a b ∷ db.upload_chunks)
      × (after.upload_sessions
          ≡ update_rows (λ x. x.id == i) (receive (suc (b - a)) now) db.upload_sessions)
unfolding record_chunk insert_chunk byte_count
record_chunk-parts id i (pos a) (pos b) now db after r e =
    elim (Option-cases (get_upload_session i db.upload_sessions)) [
      | inl n ↦ ground arith
      | inr (t, n) ↦
          (a, b, t, n, refl, refl, ground arith, ground arith, ground arith, ground arith)
    ]
record_chunk-parts id i (pos a) (negsuc b) now db after r e = ground arith
record_chunk-parts id i (negsuc a) b now db after r e = ground arith

at_tables :
    {s t : List UploadSessionRecord} {c d : List UploadChunk}
    → s ≡ t
    → c ≡ d
    → IsReceived t d
    → IsReceived s c
at_tables e f h = rw (e, f) h

pushed-IsReceived :
    (id i a b now : ℕ) (t : UploadSessionRecord) (sessions : List UploadSessionRecord)
    (chunks : List UploadChunk)
    → IsReceived sessions chunks
    → get_upload_session i sessions ≡ some t
    → leb a b ≡ true
    → any (overlaps i (pos a) (pos b)) chunks ≡ false
    → IsReceived
        (update_rows (λ x. x.id == i) (receive (suc (b - a)) now) sessions)
        (new_chunk id i a b ∷ chunks)
pushed-IsReceived id i a b now t sessions chunks h found range free = record {
  ranges = (range, h.ranges);
  disjoint = (sym (any-overlaps id i a b chunks) ∙ free, h.disjoint);
  owned = (
    any-updated_sessions i i (suc (b - a)) now sessions ∙ any-session i t sessions found,
    All-map₂ (λ c. any (λ s. s.id == c.session_id) sessions ≡ true)
        (λ c. any (λ s. s.id == c.session_id) sessions ≡ true)
        (λ c.
          any (λ s. s.id == c.session_id)
            (update_rows (λ x. x.id == i) (receive (suc (b - a)) now) sessions)
          ≡ true)
        (λ c o _. any-updated_sessions c.session_id i (suc (b - a)) now sessions ∙ o) chunks h.owned
        h.owned,
  );
  totals =
      All-update_rows (λ s. s.received_bytes ≡ received s.id chunks)
        (λ s. s.received_bytes ≡ received s.id (new_chunk id i a b ∷ chunks)) (λ x. x.id == i)
        (receive (suc (b - a)) now) (λ s e. ground arith) sessions h.totals;
}

-- Recording a chunk keeps the sessions' counts, and the chunks of a session apart.
pub record_chunk-IsReceived :
    (id i : ℕ) (s e : ℤ) (now : ℕ) (db after : Db) (r : UploadSessionRecord)
    → IsReceived db.upload_sessions db.upload_chunks
    → record_chunk id i s e now db ≡ ok (r, after)
    → IsReceived after.upload_sessions after.upload_chunks
record_chunk-IsReceived id i s e now db after r h done =
    let (a, b, t, found, at_s, at_e, range, free, chunks, sessions) =
      record_chunk-parts id i s e now db after r done in
    at_tables sessions chunks
      (pushed-IsReceived id i a b now t db.upload_sessions db.upload_chunks h found range free)

received-fresh :
    (i : ℕ) (sessions : List UploadSessionRecord) (cs : List UploadChunk)
    → any (λ s. s.id == i) sessions ≡ false
    → All (λ c. any (λ s. s.id == c.session_id) sessions ≡ true) cs
    → received i cs ≡ 0
received-fresh i sessions [] n h = refl
received-fresh i sessions (c ∷ cs) n h = elim (Bool-cases (c.session_id == i)) [
  | inl same ↦
      let is_i : c.session_id ≡ i = (==_iff c.session_id i).0 same in
      absurd (ground (arith, n, subst (λ j. any (λ s. s.id == j) sessions ≡ true) is_i h.0))
  | inr other ↦ ground (arith, received-fresh i sessions cs n h.1)
]

pub fresh-session :
    (n : UploadSessionRecord) (ss : List UploadSessionRecord)
    → any (session_clash n) ss ≡ false
    → any (λ s. s.id == n.id) ss ≡ false
fresh-session n [] h = refl
fresh-session n (s ∷ ss) h = ground (arith, fresh-session n ss)

pub create_session-parts :
    (id : ℕ) (input : CreateUploadSession) (now : ℕ) (db after : Db) (r : UploadSessionRecord)
    → create_session id input now db ≡ ok (r, after)
    → (any (session_clash (new_session id input now)) db.upload_sessions ≡ false)
      × (after.upload_sessions ≡ new_session id input now ∷ db.upload_sessions)
      × (after.upload_chunks ≡ db.upload_chunks)
unfolding create_session
create_session-parts id input now db after r e = ground arith

opened-IsReceived :
    (n : UploadSessionRecord) (sessions : List UploadSessionRecord) (chunks : List UploadChunk)
    → n.received_bytes ≡ 0
    → any (session_clash n) sessions ≡ false
    → IsReceived sessions chunks
    → IsReceived (n ∷ sessions) chunks
opened-IsReceived n sessions chunks z free h = record {
  ranges = h.ranges;
  disjoint = h.disjoint;
  owned =
      All-map₂ (λ c. any (λ s. s.id == c.session_id) sessions ≡ true)
        (λ c. any (λ s. s.id == c.session_id) sessions ≡ true)
        (λ c. any (λ s. s.id == c.session_id) (n ∷ sessions) ≡ true) (λ c o _. ground arith) chunks
        h.owned h.owned;
  totals = (
    z ∙ sym (received-fresh n.id sessions chunks (fresh-session n sessions free) h.owned),
    h.totals,
  );
}

-- A new session has received nothing, and its creation keeps the counts of all sessions.
pub create_session-IsReceived :
    (id : ℕ) (input : CreateUploadSession) (now : ℕ) (db after : Db) (r : UploadSessionRecord)
    → IsReceived db.upload_sessions db.upload_chunks
    → create_session id input now db ≡ ok (r, after)
    → IsReceived after.upload_sessions after.upload_chunks
create_session-IsReceived id input now db after r h e =
    let (free, sessions, chunks) = create_session-parts id input now db after r e in
    at_tables sessions chunks
      (opened-IsReceived (new_session id input now) db.upload_sessions db.upload_chunks refl free h)

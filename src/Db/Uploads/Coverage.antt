-- ===== src/Db/Uploads/Coverage.antt =====
-- The bytes that the chunks of an upload session cover, for finalize_upload of crates/db/src/lib.rs.
use strife.Base.{
  ℕ, zero, suc, ◌+◌, ◌-◌, ◌≤◌, ◌<◌, ◌≡◌, refl, sym, ap, ◌∙◌, some, List, [], ◌∷◌, Bool, true, false,
  ◌&&◌, arith, leb, ◌==◌, ==_iff, inl, inr, Bool-cases, if◌then◌else◌, any, All,
}
use strife.Base.Rows.{NoClash, row-All, key-row}
use strife.Db.Schema.{UploadSessionRecord, UploadChunk}
use strife.Db.Uploads.{get_upload_session}
use strife.Db.Uploads.Chunks.{received, chunk_clash, IsReceived}

-- The byte `b` is in the chunk, which is one of the session.
abbrev pub covers : ℕ → ℕ → UploadChunk → Bool
covers i b c = c.session_id == i && (leb c.start_byte b && leb b c.end_byte)

-- how many bytes below `n` are in some chunk
held : ℕ → ℕ → List UploadChunk → ℕ
held i zero cs = 0
held i (suc n) cs = if any (covers i n) cs then suc (held i n cs) else held i n cs

held-le : (i n : ℕ) (cs : List UploadChunk) → held i n cs ≤ n
unfolding held
held-le i zero cs = omega arith
held-le i (suc n) cs = ground (arith, held-le i n cs)

held-lt :
    (i n b : ℕ) (cs : List UploadChunk) → b < n → any (covers i b) cs ≡ false → held i n cs < n
unfolding held
held-lt i zero b cs h m = absurd (omega arith)
held-lt i (suc n) b cs h m = elim (Bool-cases (b == n)) [
  | inl same ↦
      let at_n : any (covers i n) cs ≡ false = rw (← (==_iff b n).0 same) m in
      ground (arith, at_n, held-le i n cs)
  | inr other ↦ ground (arith, held-lt i n b cs (ground arith) m)
]

held-nil : (i n : ℕ) → held i n [] ≡ 0
unfolding held
held-nil i zero = refl
held-nil i (suc n) = held-nil i n

-- A byte is in one chunk at most.
clash-of_covers :
    (i b : ℕ) (c : UploadChunk) (cs : List UploadChunk)
    → covers i b c ≡ true
    → any (covers i b) cs ≡ true
    → any (chunk_clash c) cs ≡ true
clash-of_covers i b c [] h k = cc
clash-of_covers i b c (d ∷ ds) h k = ground (arith, clash-of_covers i b c ds h)

held-cons :
    (i n : ℕ) (c : UploadChunk) (cs : List UploadChunk)
    → any (chunk_clash c) cs ≡ false
    → held i n (c ∷ cs)
      ≡ held i n cs + (if c.session_id == i then (n - c.start_byte) - (n - suc c.end_byte) else 0)
unfolding held
held-cons i zero c cs h = ground arith
held-cons i (suc n) c cs h = ground (arith, held-cons i n c cs h, clash-of_covers i n c cs)

-- Where all chunks of a session are below `n`, they hold as many bytes as the session has counted.
held-received :
    (i n : ℕ) (cs : List UploadChunk)
    → All (λ c. leb c.start_byte c.end_byte ≡ true) cs
    → NoClash chunk_clash cs
    → All (λ c. c.session_id == i ≡ true → c.end_byte < n) cs
    → held i n cs ≡ received i cs
held-received i n [] r d u = held-nil i n
held-received i n (c ∷ cs) r d u =
    ground (arith, held-cons i n c cs d.0, held-received i n cs r.1 d.1 u.1, u.0, r.0)

-- A session whose chunks are all below the expected size and that has counted that size has
-- received every byte of it.
pub received_all :
    (i n : ℕ) (t : UploadSessionRecord) (sessions : List UploadSessionRecord)
    (chunks : List UploadChunk)
    → IsReceived sessions chunks
    → get_upload_session i sessions ≡ some t
    → t.received_bytes ≡ n
    → All (λ c. c.session_id == i ≡ true → c.end_byte < n) chunks
    → (b : ℕ) → b < n
    → any (covers i b) chunks ≡ true
received_all i n t sessions chunks h found full below b lt =
    elim (Bool-cases (any (covers i b) chunks)) [
      | inl covered ↦ covered
      | inr missing ↦
          let total : t.received_bytes ≡ received t.id chunks =
            row-All (λ s. s.id) (λ s. s.received_bytes ≡ received s.id chunks) i sessions t h.totals
              found in
          let same : t.id ≡ i = key-row (λ s. s.id) i sessions t found in
          let total_i : n ≡ received i chunks =
            sym full ∙ total ∙ ap (λ j. received j chunks) same in
          absurd (
            omega (
              arith,
              total_i,
              held-lt i n b chunks lt missing,
              held-received i n chunks h.ranges h.disjoint below,
            ))
    ]

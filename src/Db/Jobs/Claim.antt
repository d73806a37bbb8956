-- ===== src/Db/Jobs/Claim.antt =====
-- Which job `claim_job` leases, and what the claim does to the queue.
use strife.Base.{
  ℕ, ◌+◌, ◌≡◌, ◌≤◌, ◌<◌, ltb, refl, ◌∙◌, String, Option, none, some, List, [], ◌∷◌, Bool, true,
  false, arith, ◌==◌, any, update_rows, All, ◌⊎◌, inl, inr, Bool-cases,
}
use strife.Base.Int.{ltb_ℤ}
use strife.Base.Rows.{row, All-map₂, All-of_forall, row-update_rows, key-row, changed, map_row}
use strife.Db.Schema.{JobType, JobState, JobRecord}
use strife.Db.Jobs.{comes_first, claimable, lease, claim_job, same_type, is_pending}
use strife.Db.Jobs.Invariant.{IsQueue}
use strife.Db.Jobs.Candidate.{Candidate, claim_job-Candidate}

-- A pending job of the type that no other transaction has locked.
abbrev pub IsClaimable : JobType → (ℕ → Bool) → JobRecord → Type 0
IsClaimable job_type locked j =
    (j.job_type ≡ job_type) × (j.state ≡ JobState.pending) × (locked j.id ≡ false)

-- A greater priority, else an earlier creation, else a lesser id.
abbrev pub Precedes : JobRecord → JobRecord → Type 0
Precedes a b =
    (ltb_ℤ b.priority a.priority ≡ true)
    ⊎ ((ltb_ℤ a.priority b.priority ≡ false)
        × ((a.created_at < b.created_at) ⊎ ((a.created_at ≡ b.created_at) × (a.id ≤ b.id))))

-- The row of a job that was leased, and the rest of it as it was.
abbrev pub IsLeased : String → ℕ → ℕ → JobRecord → JobRecord → Type 0
IsLeased owner ttl now j k =
    (k.state ≡ JobState.leased)
    × (k.lease_owner ≡ some owner)
    × (k.lease_expires_at ≡ some (now + ttl))
    × (k.attempts ≡ j.attempts + 1)
    × (k.updated_at ≡ now)
    × (record k {
      state = j.state;
      lease_owner = j.lease_owner;
      lease_expires_at = j.lease_expires_at;
      attempts = j.attempts;
      updated_at = j.updated_at;
    }
        ≡ j)

-- What a claim of `job_type` did: nothing where no job was claimable, and otherwise it leased the
-- claimable job that precedes every other, and left the other rows as they were.
pub data Claims (job_type : JobType) (owner : String) (ttl : ℕ) (locked : ℕ → Bool) (now : ℕ)
    (jobs : List JobRecord) (r : Option JobRecord × List JobRecord) : Type 0 where
  nothing :
      All (λ k. ¬ IsClaimable job_type locked k) jobs
      → r ≡ (none, jobs)
      → Claims job_type owner ttl locked now jobs r
  leases :
      (j k : JobRecord)
      → row (λ l. l.id) j.id jobs ≡ some j
      → IsClaimable job_type locked j
      → All (λ l. IsClaimable job_type locked l → Precedes j l) jobs
      → IsLeased owner ttl now j k
      → r.0 ≡ some k
      → row (λ l. l.id) j.id r.1 ≡ some k
      → ((i : ℕ) → j.id == i ≡ false → row (λ l. l.id) i r.1 ≡ row (λ l. l.id) i jobs)
      → Claims job_type owner ttl locked now jobs r

same_type_eq : (s t : JobType) → same_type s t ≡ true → s ≡ t
same_type_eq JobType.metadata_extraction JobType.metadata_extraction h = refl
same_type_eq JobType.metadata_extraction JobType.preview_generation h = cc
same_type_eq JobType.metadata_extraction JobType.trash_cleanup h = cc
same_type_eq JobType.metadata_extraction JobType.permanent_deletion h = cc
same_type_eq JobType.preview_generation JobType.metadata_extraction h = cc
same_type_eq JobType.preview_generation JobType.preview_generation h = refl
same_type_eq JobType.preview_generation JobType.trash_cleanup h = cc
same_type_eq JobType.preview_generation JobType.permanent_deletion h = cc
same_type_eq JobType.trash_cleanup JobType.metadata_extraction h = cc
same_type_eq JobType.trash_cleanup JobType.preview_generation h = cc
same_type_eq JobType.trash_cleanup JobType.trash_cleanup h = refl
same_type_eq JobType.trash_cleanup JobType.permanent_deletion h = cc
same_type_eq JobType.permanent_deletion JobType.metadata_extraction h = cc
same_type_eq JobType.permanent_deletion JobType.preview_generation h = cc
same_type_eq JobType.permanent_deletion JobType.trash_cleanup h = cc
same_type_eq JobType.permanent_deletion JobType.permanent_deletion h = refl

same_type_refl : (t : JobType) → same_type t t ≡ true
same_type_refl JobType.metadata_extraction = refl
same_type_refl JobType.preview_generation = refl
same_type_refl JobType.trash_cleanup = refl
same_type_refl JobType.permanent_deletion = refl

pending_eq : (s : JobState) → is_pending s ≡ true → s ≡ JobState.pending
pending_eq JobState.pending h = refl
pending_eq JobState.leased h = cc
pending_eq JobState.completed h = cc
pending_eq JobState.failed h = cc
pending_eq JobState.cancelled h = cc

claimable-IsClaimable :
    (t : JobType) (locked : ℕ → Bool) (j : JobRecord)
    → claimable t locked j ≡ true
    → IsClaimable t locked j
claimable-IsClaimable t locked j h =
    (same_type_eq j.job_type t (ground arith), pending_eq j.state (ground arith), ground arith)

IsClaimable-claimable :
    (t : JobType) (locked : ℕ → Bool) (j : JobRecord)
    → IsClaimable t locked j
    → claimable t locked j ≡ true
IsClaimable-claimable t locked j h = ground (arith, same_type_refl t, h.0, h.1, h.2)

comes_first-Precedes : (a b : JobRecord) → comes_first a b ≡ true → Precedes a b
unfolding comes_first
comes_first-Precedes a b h = elim (Bool-cases (ltb_ℤ b.priority a.priority)) [
  | inl above ↦ inl above
  | inr not_above ↦ inr (
    ground arith,
    elim (Bool-cases (ltb a.created_at b.created_at)) [
      | inl older ↦ inl (ground arith)
      | inr younger ↦ inr (ground arith, ground arith)
    ],
  )
]

not_any-lacks :
    (t : JobType) (locked : ℕ → Bool) (js : List JobRecord)
    → any (claimable t locked) js ≡ false
    → All (λ k. ¬ IsClaimable t locked k) js
not_any-lacks t locked [] h = tt
not_any-lacks t locked (j ∷ js) h = (
  λ c. absurd (ground (arith, IsClaimable-claimable t locked j c)),
  not_any-lacks t locked js (ground arith),
)

module _ (job_type : JobType) (owner : String) (ttl : ℕ) (locked : ℕ → Bool) (now : ℕ)
    (jobs : List JobRecord) where
  leased-Claims :
      (j : JobRecord)
      → row (λ k. k.id) j.id jobs ≡ some j
      → claimable job_type locked j ≡ true
      → All (λ k. claimable job_type locked k ≡ true → comes_first j k ≡ true) jobs
      → Claims job_type owner ttl locked now jobs (
        some (lease owner (now + ttl) now j),
        update_rows (λ k. k.id == j.id) (lease owner (now + ttl) now) jobs,
      )
  leased-Claims j at_j c first =
      let changed_row =
        row-update_rows (λ k. k.id) (λ k. k.id == j.id) (lease owner (now + ttl) now) (λ k. refl) in
      Claims.leases j (lease owner (now + ttl) now j) at_j
        (claimable-IsClaimable job_type locked j c)
        (All-map₂ (λ k. claimable job_type locked k ≡ true → comes_first j k ≡ true) (λ _. Unit {0})
          (λ k. IsClaimable job_type locked k → Precedes j k)
          (λ k p _ h. comes_first-Precedes j k (p (IsClaimable-claimable job_type locked k h))) jobs
          first (All-of_forall (λ _. Unit {0}) (λ _. tt) jobs))
        (refl, refl, refl, refl, refl, refl) refl (changed_row j.id jobs ∙ rw at_j (ground arith))
        (λ i other.
          changed_row i jobs
          ∙ unchanged i other (row (λ k. k.id) i jobs) (key-row (λ k. k.id) i jobs))
    where
      unchanged :
          (i : ℕ)
          → j.id == i ≡ false
          → (o : Option JobRecord) → ((k : JobRecord) → o ≡ some k → k.id ≡ i)
          → map_row (changed (λ k. k.id == j.id) (lease owner (now + ttl) now)) o ≡ o
      unchanged i other none at_i = refl
      unchanged i other (some k) at_i = ground (arith, at_i k refl)

-- A claim leases the pending job of the type, not locked by another transaction, that precedes every
-- other such job: by a greater priority, then by an earlier creation, then by a lesser id. The job's
-- row says leased, by whom and until when, with one attempt more, and no other row is changed. It
-- claims none, and changes nothing, exactly when there is no such job.
pub claim_job-Claims :
    (job_type : JobType) (owner : String) (ttl : ℕ) (locked : ℕ → Bool) (now : ℕ)
    (jobs : List JobRecord)
    → IsQueue jobs
    → Claims job_type owner ttl locked now jobs (claim_job job_type owner ttl locked now jobs)
claim_job-Claims job_type owner ttl locked now jobs q =
    elim (claim_job-Candidate job_type owner ttl locked now jobs q) [
      | Candidate.nothing lacks e ↦
          rw e (Claims.nothing (not_any-lacks job_type locked jobs lacks) refl)
      | Candidate.leases j at_j c first e ↦
          rw e (leased-Claims job_type owner ttl locked now jobs j at_j c first)
    ]

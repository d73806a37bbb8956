-- ===== src/Db/Jobs/Steps.antt =====
-- Histories of the job queue of crates/db/src/lib.rs: every statement as a step.
use strife.Base.{
  ℕ, ◌+◌, ◌≡◌, ◌≢◌, refl, subst, String, Option, none, some, List, [], ◌∷◌, Bool, true, false, ◌||◌,
  arith, ◌==◌, sym, ap, ◌∙◌, leb, ◌&&◌, some_injective, any, update_rows, All, if◌then◌else◌,
}
use strife.Base.Int.{ℤ}
use strife.Base.Rows.{row, map_row, row-update_rows, eq_of_key, row-not_any, All-map₂}
use strife.Base.Result.{ok}
use strife.Db.Schema.{JobType, JobState, JobRecord}
use strife.Db.Jobs.{
  lease, claim_job, is_pending, is_leased, is_active, occupies, enqueue_job, complete, complete_job,
  record_failure, fail_job, is_lease_of, has_expired_lease, requeue, release_expired_leases,
}
use strife.Db.Jobs.Invariant.{
  IsQueue, found, update_rows-IsQueue, enqueue_job-IsQueue, complete_job-IsQueue, fail_job-IsQueue,
  release_expired_leases-IsQueue,
}
use strife.Db.Jobs.Candidate.{Candidate, claim_job-Candidate}

-- One statement of any process on the table: only a successful one changes it.
pub data Step (jobs : List JobRecord) : List JobRecord → Type 0 where
  enqueues :
      (id : ℕ) (job_type : JobType) (target : ℕ) (priority : ℤ) (now : ℕ) (exists : Bool)
      {r : Option JobRecord} {after : List JobRecord}
      → enqueue_job id job_type target priority now exists jobs ≡ ok (r, after)
      → Step jobs after
  claims :
      (job_type : JobType) (owner : String) (ttl : ℕ) (locked : ℕ → Bool) (now : ℕ)
      → Step jobs (claim_job job_type owner ttl locked now jobs).1
  completes : (id now : ℕ) → Step jobs (complete_job id now jobs).1
  fails : (id : ℕ) (error : String) (now : ℕ) → Step jobs (fail_job id error now jobs).1
  releases : (now : ℕ) → Step jobs (release_expired_leases now jobs).1

pub data Reach (jobs : List JobRecord) : List JobRecord → Type 0 where
  here : Reach jobs jobs
  next : {mid after : List JobRecord} → Reach jobs mid → Step mid after → Reach jobs after

-- the candidate's row is the only one with its id
abbrev IsCandidate : JobRecord → JobRecord → Type 0
IsCandidate j k = (k.id == j.id) ≡ true → is_pending k.state ≡ true

IsCandidate-All :
    (j : JobRecord) (jobs : List JobRecord)
    → IsQueue jobs
    → row (λ k. k.id) j.id jobs ≡ some j
    → is_pending j.state ≡ true
    → All (IsCandidate j) jobs
IsCandidate-All j jobs q at_j p =
    All-map₂ (λ k. row (λ l. l.id) k.id jobs ≡ some k) (λ k. row (λ l. l.id) k.id jobs ≡ some k)
      (IsCandidate j)
      (λ k a b same.
        subst (λ (l : JobRecord). is_pending l.state ≡ true)
          (eq_of_key (λ l. l.id) j k jobs at_j a same) p)
      jobs (found jobs q.unique) (found jobs q.unique)

claim_job-IsQueue :
    (job_type : JobType) (owner : String) (ttl : ℕ) (locked : ℕ → Bool) (now : ℕ)
    (jobs : List JobRecord)
    → IsQueue jobs
    → IsQueue (claim_job job_type owner ttl locked now jobs).1
claim_job-IsQueue job_type owner ttl locked now jobs q =
    elim (claim_job-Candidate job_type owner ttl locked now jobs q) [
      | Candidate.nothing _ e ↦ rw e q
      | Candidate.leases j at_j c _ e ↦ rw e (
          update_rows-IsQueue (λ k. k.id == j.id) (lease owner (now + ttl) now) (λ k. refl)
            (λ k. refl) (λ k. refl) (IsCandidate j) (λ k h same a. ground arith)
            (λ k h same l. ground arith) jobs (IsCandidate-All j jobs q at_j (ground arith)) q)
    ]

Step-IsQueue : {jobs after : List JobRecord} → Step jobs after → IsQueue jobs → IsQueue after
Step-IsQueue {jobs} (enqueues id t n p now e h) q = enqueue_job-IsQueue id t n p now e jobs q h
Step-IsQueue {jobs} (claims t o l k now) q = claim_job-IsQueue t o l k now jobs q
Step-IsQueue {jobs} (completes id now) q = complete_job-IsQueue id now jobs q
Step-IsQueue {jobs} (fails id m now) q = fail_job-IsQueue id m now jobs q
Step-IsQueue {jobs} (releases now) q = release_expired_leases-IsQueue now jobs q

-- In every history the queue keeps one active job for each type and target, distinct ids, and
-- leases exactly on leased rows.
pub Reach-IsQueue : {jobs after : List JobRecord} → IsQueue jobs → Reach jobs after → IsQueue after
Reach-IsQueue q here = q
Reach-IsQueue q (next r s) = Step-IsQueue s (Reach-IsQueue q r)

-- a row of the table, by its id
abbrev pub job_at : ℕ → List JobRecord → Option JobRecord
job_at = row (λ j. j.id)

Step-finished :
    {jobs after : List JobRecord} (j : JobRecord)
    → Step jobs after
    → IsQueue jobs
    → is_active j.state ≡ false
    → job_at j.id jobs ≡ some j
    → job_at j.id after ≡ some j
unfolding enqueue_job complete_job fail_job release_expired_leases
Step-finished {jobs} j (enqueues id t n p now e h) q f a =
    ground (arith, row-not_any (λ k. k.id) (λ k. k.id == id || occupies t n k) j.id jobs j)
Step-finished {jobs} j (claims t o l k now) q f a = elim (claim_job-Candidate t o l k now jobs q) [
  | Candidate.nothing _ e ↦ rw e a
  | Candidate.leases i at_i c _ e ↦ rw e (
      ground (
        arith,
        row-update_rows (λ m. m.id) (λ m. m.id == i.id) (lease o (now + l) now) (λ m. refl) j.id
            jobs,
      ))
]
Step-finished {jobs} j (completes id now) q f a =
    ground
      (arith, row-update_rows (λ k. k.id) (is_lease_of id) (complete now) (λ k. refl) j.id jobs)
Step-finished {jobs} j (fails id m now) q f a = ground (
  arith,
  row-update_rows (λ k. k.id) (is_lease_of id) (record_failure m now) (λ k. refl) j.id jobs,
)
Step-finished {jobs} j (releases now) q f a =
    ground (
      arith,
      row-update_rows (λ k. k.id) (has_expired_lease now) (requeue now) (λ k. refl) j.id jobs,
    )

-- A job that is completed, failed or cancelled stays as it is in every history.
pub Reach-finished :
    {jobs after : List JobRecord} (j : JobRecord)
    → IsQueue jobs
    → Reach jobs after
    → is_active j.state ≡ false
    → job_at j.id jobs ≡ some j
    → job_at j.id after ≡ some j
Reach-finished j q here f a = a
Reach-finished j q (next r s) f a =
    Step-finished j s (Reach-IsQueue q r) f (Reach-finished j q r f a)

module _ (t : JobType) (o : String) (l : ℕ) (k : ℕ → Bool) (now : ℕ) (jobs : List JobRecord)
    (i : JobRecord) (q : IsQueue jobs) (e : (claim_job t o l k now jobs).0 ≡ some i) where
  -- The returned row is the row of the table after the claim.
  claim_job-row :
      (job_at i.id (claim_job t o l k now jobs).1 ≡ some i)
      × (is_leased i.state ≡ true)
      × (i.lease_owner ≡ some o)
  claim_job-row = elim (claim_job-Candidate t o l k now jobs q) [
    | Candidate.nothing _ f ↦ cc
    | Candidate.leases a at_a c _ f ↦
        let same : lease o (now + l) now a ≡ i = some_injective (rw f at e) in
        rw (f, ← same)
          (
            ground (
              arith,
              row-update_rows (λ m. m.id) (λ m. m.id == a.id) (lease o (now + l) now) (λ m. refl)
                  a.id jobs,
            ),
            refl,
            refl,
          )
  ]

  -- Before the claim its row was pending.
  claim_job-pending : (b : JobRecord) → job_at i.id jobs ≡ some b → is_pending b.state ≡ true
  claim_job-pending b at_b = elim (claim_job-Candidate t o l k now jobs q) [
    | Candidate.nothing _ f ↦ cc
    | Candidate.leases a at_a c _ f ↦
        let same : lease o (now + l) now a ≡ i = some_injective (rw f at e) in
        let is_a : a ≡ b =
          some_injective (sym at_a ∙ ap (λ (j : JobRecord). job_at j.id jobs) same ∙ at_b) in
        subst (λ (j : JobRecord). is_pending j.state ≡ true) is_a (ground arith)
  ]

-- After a claim the job's row is the returned one, leased to the claimant, and a second claim of any
-- worker right after it does not return that job, whatever rows are locked.
pub claim_job-exclusive :
    (t u : JobType) (o p : String) (l m : ℕ) (k n : ℕ → Bool) (now later : ℕ)
    (jobs : List JobRecord) (i j : JobRecord)
    → IsQueue jobs
    → (claim_job t o l k now jobs).0 ≡ some i
    → (claim_job u p m n later (claim_job t o l k now jobs).1).0 ≡ some j
    → (job_at i.id (claim_job t o l k now jobs).1 ≡ some i)
      × (i.lease_owner ≡ some o)
      × (j.id ≢ i.id)
claim_job-exclusive t u o p l m k n now later jobs i j q first second =
    let at_i = claim_job-row t o l k now jobs i q first in
    let rest = (claim_job t o l k now jobs).1 in
    (
      at_i.0,
      at_i.2,
      λ same. ground (
        arith,
        at_i.1,
        claim_job-pending u p m n later rest j (claim_job-IsQueue t o l k now jobs q) second i
            (ap (λ x. job_at x rest) same ∙ at_i.0),
      ),
    )

pub count-update_rows :
    (p : JobRecord → Bool) (f : JobRecord → JobRecord)
    → ((j : JobRecord) → p j ≡ true → p (f j) ≡ false)
    → (jobs : List JobRecord) → any p (update_rows p f jobs) ≡ false
count-update_rows p f off [] = refl
count-update_rows p f off (j ∷ js) = ground (arith, off j, count-update_rows p f off js)

-- The reaper leaves no lease that has run out, and puts each such job back as pending with its
-- attempts kept; every other row stays as it was.
pub release_expired_leases-row :
    (now id : ℕ) (jobs : List JobRecord)
    → (any (has_expired_lease now) (release_expired_leases now jobs).1 ≡ false)
      × (job_at id (release_expired_leases now jobs).1
          ≡ map_row (λ j. if has_expired_lease now j then requeue now j else j) (job_at id jobs))
unfolding release_expired_leases
release_expired_leases-row now id jobs = (
  count-update_rows (has_expired_lease now) (requeue now) (λ j h. refl) jobs,
  row-update_rows (λ j. j.id) (has_expired_lease now) (requeue now) (λ j. refl) id jobs,
)

-- What `fail_job` and `complete_job` do to the row of each id: a leased job of that id goes back to
-- the queue while it has attempts left and is failed when it has none, or it is completed; rows of
-- other ids, and a job that is not leased, stay as they were.
pub finish_row :
    (id i : ℕ) (error : String) (now : ℕ) (jobs : List JobRecord)
    → (job_at i (fail_job id error now jobs).1
        ≡ map_row
            (λ j.
              if j.id == id && is_leased j.state
              then record j {
                state = if leb j.max_attempts j.attempts then JobState.failed else JobState.pending;
                lease_owner = none;
                lease_expires_at = none;
                last_error = some error;
                updated_at = now;
              }
              else j)
            (job_at i jobs))
      × (job_at i (complete_job id now jobs).1
          ≡ map_row
              (λ j.
                if j.id == id && is_leased j.state
                then record j {
                  state = JobState.completed;
                  lease_owner = none;
                  lease_expires_at = none;
                  updated_at = now;
                  completed_at = some now;
                }
                else j)
              (job_at i jobs))
unfolding fail_job complete_job
finish_row id i error now jobs = (
  row-update_rows (λ j. j.id) (is_lease_of id) (record_failure error now) (λ j. refl) i jobs,
  row-update_rows (λ j. j.id) (is_lease_of id) (complete now) (λ j. refl) i jobs,
)

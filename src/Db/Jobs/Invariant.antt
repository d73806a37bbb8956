-- ===== src/Db/Jobs/Invariant.antt =====
-- The invariant of the job queue of crates/db/src/lib.rs, and each statement's part of it.
use strife.Base.{
  ℕ, ◌≡◌, refl, String, Option, some, List, Bool, true, false, ◌&&◌, ◌||◌, arith, ◌==◌, is_some,
  update_rows, All, inl, inr, Bool-cases,
}
use strife.Base.Int.{ℤ}
use strife.Base.Rows.{
  row, changed, rows-found, All-of_forall, NoClash, update_rows-NoClash, update_rows-All,
}
use strife.Base.Result.{ok}
use strife.Db.Schema.{JobType, JobState, JobRecord}
use strife.Db.Jobs.{
  is_active, is_leased, occupies, enqueue_job, complete, complete_job, record_failure, fail_job,
  is_lease_of, has_expired_lease, requeue, release_expired_leases,
}

-- Two rows that the primary key or the index jobs_active_type_target_unique tells apart.
abbrev pub clash : JobRecord → JobRecord → Bool
clash a b = b.id == a.id || (is_active a.state && occupies a.job_type a.target_node_id b)

abbrev pub is_completed : JobState → Bool
is_completed JobState.completed = true
is_completed _ = false

-- The lease columns are set exactly on a leased row, and the completion time on a completed one.
pub record HasLease (j : JobRecord) : Type 0 where
  pub owner : is_some j.lease_owner ≡ is_leased j.state
  pub expiry : is_some j.lease_expires_at ≡ is_leased j.state
  pub completion : is_completed j.state ≡ is_some j.completed_at

pub record IsQueue (jobs : List JobRecord) : Type 0 where
  pub unique : NoClash clash jobs
  pub leases : All HasLease jobs

keyed : (x y : JobRecord) → (y.id == x.id) ≡ true → clash x y ≡ true
keyed x y h = ground arith

-- Every row is the row of its id.
pub found :
    (jobs : List JobRecord)
    → NoClash clash jobs
    → All (λ j. row (λ k. k.id) j.id jobs ≡ some j) jobs
found jobs h = rows-found (λ k. k.id) clash keyed jobs h

pub enqueue_job-IsQueue :
    (id : ℕ) (job_type : JobType) (target : ℕ) (priority : ℤ) (now : ℕ) (exists : Bool)
    (jobs : List JobRecord) {r : Option JobRecord × List JobRecord}
    → IsQueue jobs
    → enqueue_job id job_type target priority now exists jobs ≡ ok r
    → IsQueue r.1
unfolding enqueue_job
enqueue_job-IsQueue id job_type target priority now exists jobs q h = ground arith

module _ (p : JobRecord → Bool) (f : JobRecord → JobRecord)
    (id_kept : (j : JobRecord) → (f j).id ≡ j.id)
    (type_kept : (j : JobRecord) → (f j).job_type ≡ j.job_type)
    (target_kept : (j : JobRecord) → (f j).target_node_id ≡ j.target_node_id)
    (Q : JobRecord → Type 0)
    (less : (j : JobRecord)
      → Q j
      → p j ≡ true
      → is_active (f j).state ≡ true
      → is_active j.state ≡ true)
    (leases : (j : JobRecord) → Q j → p j ≡ true → HasLease j → HasLease (f j)) where
  changed-clash :
      (x y : JobRecord)
      → Q x
      → Q y
      → clash (changed p f x) (changed p f y) ≡ true
      → clash x y ≡ true
  changed-clash x y qx qy h = ground (
    arith,
    less x qx,
    less y qy,
    id_kept x,
    id_kept y,
    type_kept x,
    type_kept y,
    target_kept x,
    target_kept y,
  )

  changed-HasLease : (j : JobRecord) → Q j → HasLease j → HasLease (changed p f j)
  changed-HasLease j q h = elim (Bool-cases (p j)) [
    | inl e ↦ rw e (leases j q e h)
    | inr e ↦ rw e h
  ]

  -- An UPDATE of the queue that wakes no finished row keeps the invariant.
  pub update_rows-IsQueue :
      (jobs : List JobRecord) → All Q jobs → IsQueue jobs → IsQueue (update_rows p f jobs)
  update_rows-IsQueue jobs q h = record {
    unique = update_rows-NoClash Q p f clash changed-clash jobs q h.unique;
    leases = update_rows-All Q p f HasLease changed-HasLease jobs q h.leases;
  }

abbrev Any : JobRecord → Type 0
Any j = Unit {0}

pub complete_job-IsQueue :
    (id now : ℕ) (jobs : List JobRecord) → IsQueue jobs → IsQueue (complete_job id now jobs).1
unfolding complete_job
complete_job-IsQueue id now jobs h =
    update_rows-IsQueue (is_lease_of id) (complete now) (λ j. refl) (λ j. refl) (λ j. refl) Any
      (λ j q a b. ground arith) (λ j q a b. ground arith) jobs (All-of_forall Any (λ j. tt) jobs) h

pub fail_job-IsQueue :
    (id : ℕ) (error : String) (now : ℕ) (jobs : List JobRecord)
    → IsQueue jobs
    → IsQueue (fail_job id error now jobs).1
unfolding fail_job
fail_job-IsQueue id error now jobs h =
    update_rows-IsQueue (is_lease_of id) (record_failure error now) (λ j. refl) (λ j. refl)
      (λ j. refl) Any (λ j q a b. ground arith) (λ j q a b. ground arith) jobs
      (All-of_forall Any (λ j. tt) jobs) h

pub release_expired_leases-IsQueue :
    (now : ℕ) (jobs : List JobRecord) → IsQueue jobs → IsQueue (release_expired_leases now jobs).1
unfolding release_expired_leases
release_expired_leases-IsQueue now jobs h =
    update_rows-IsQueue (has_expired_lease now) (requeue now) (λ j. refl) (λ j. refl) (λ j. refl)
      Any (λ j q a b. ground arith) (λ j q a b. ground arith) jobs
      (All-of_forall Any (λ j. tt) jobs) h

-- ===== src/Db/Jobs.antt =====
-- The job queue of crates/db/src/lib.rs: enqueue, claim, complete, fail, and release of leases.
pub mod Invariant
pub mod Candidate
pub mod Claim
pub mod Steps
mod Tests
use strife.Base.{
  ℕ, ◌+◌, String, Option, none, some, List, [], ◌∷◌, Bool, true, false, ◌&&◌, ◌||◌, not, ltb, leb,
  ◌==◌, is_some, if◌then◌else◌, any, count, where_rows, find, update_rows, updated,
}
use strife.Base.Int.{ℤ, ltb_ℤ}
use strife.Base.Result.{Result, ok, err, ◌>>=◌}
use strife.Db.Schema.{DbError, foreign_key_violation, JobType, JobState, pending, leased, JobRecord}

abbrev pub same_type : JobType → JobType → Bool
same_type JobType.metadata_extraction JobType.metadata_extraction = true
same_type JobType.preview_generation JobType.preview_generation = true
same_type JobType.trash_cleanup JobType.trash_cleanup = true
same_type JobType.permanent_deletion JobType.permanent_deletion = true
same_type _ _ = false

abbrev pub is_pending : JobState → Bool
is_pending JobState.pending = true
is_pending _ = false

abbrev pub is_leased : JobState → Bool
is_leased JobState.leased = true
is_leased _ = false

-- The predicate of the index jobs_active_type_target_unique.
abbrev pub is_active : JobState → Bool
is_active s = is_pending s || is_leased s

abbrev pub occupies : JobType → ℕ → JobRecord → Bool
occupies job_type target j =
    is_active j.state && (same_type j.job_type job_type && j.target_node_id == target)

abbrev pub new_job : ℕ → JobType → ℕ → ℤ → ℕ → JobRecord
new_job id job_type target priority now = record {
  id = id;
  job_type = job_type;
  target_node_id = target;
  state = pending;
  priority = priority;
  attempts = 0;
  max_attempts = 3;
  lease_owner = none;
  lease_expires_at = none;
  last_error = none;
  created_at = now;
  updated_at = now;
  completed_at = none;
}

-- INSERT … ON CONFLICT DO NOTHING RETURNING *. A conflict is on the key or on the index of active
-- jobs; the foreign key is tested for a row that is inserted. `exists` says whether the target is
-- a node.
unfoldable pub enqueue_job :
    ℕ
    → JobType
    → ℕ
    → ℤ
    → ℕ
    → Bool
    → List JobRecord
    → Result DbError (Option JobRecord × List JobRecord)
enqueue_job id job_type target priority now exists jobs =
    if any (λ j. j.id == id || occupies job_type target j) jobs
    then ok (none, jobs)
    else if exists
    then ok (
      some (new_job id job_type target priority now),
      new_job id job_type target priority now ∷ jobs,
    )
    else err foreign_key_violation

-- ORDER BY priority DESC, created_at, id
unfoldable pub comes_first : JobRecord → JobRecord → Bool
comes_first a b =
    if ltb_ℤ b.priority a.priority
    then true
    else if ltb_ℤ a.priority b.priority
    then false
    else if ltb a.created_at b.created_at
    then true
    else if ltb b.created_at a.created_at
    then false
    else leb a.id b.id

abbrev first_of_two : JobRecord → Option JobRecord → Option JobRecord
first_of_two j none = some j
first_of_two j (some k) = if comes_first j k then some j else some k

-- ORDER BY … LIMIT 1
unfoldable pub first_row : List JobRecord → Option JobRecord
first_row [] = none
first_row (j ∷ js) = first_of_two j (first_row js)

-- WHERE job_type = $1 AND state = 'pending' … FOR UPDATE SKIP LOCKED: rows that another
-- transaction has locked are passed over.
abbrev pub claimable : JobType → (ℕ → Bool) → JobRecord → Bool
claimable job_type locked j =
    same_type j.job_type job_type && (is_pending j.state && not (locked j.id))

abbrev pub lease : String → ℕ → ℕ → JobRecord → JobRecord
lease owner expires now j = record j {
  state = leased;
  lease_owner = some owner;
  lease_expires_at = some expires;
  attempts = j.attempts + 1;
  updated_at = now;
}

-- UPDATE jobs … FROM candidate WHERE jobs.id = candidate.id RETURNING jobs.*
abbrev claim_candidate :
    String → ℕ → ℕ → List JobRecord → Option JobRecord → Option JobRecord × List JobRecord
claim_candidate owner expires now jobs none = (none, jobs)
claim_candidate owner expires now jobs (some j) = (
  some (lease owner expires now j),
  update_rows (λ k. k.id == j.id) (lease owner expires now) jobs,
)

unfoldable pub claim_job :
    JobType → String → ℕ → (ℕ → Bool) → ℕ → List JobRecord → Option JobRecord × List JobRecord
unfolding first_row
claim_job job_type owner lease_ttl locked now jobs =
    claim_candidate owner (now + lease_ttl) now jobs
      (first_row (where_rows (claimable job_type locked) jobs))

abbrev pub complete : ℕ → JobRecord → JobRecord
complete now j = record j {
  state = JobState.completed;
  lease_owner = none;
  lease_expires_at = none;
  updated_at = now;
  completed_at = some now;
}

-- WHERE id = $1 AND state = 'leased'
abbrev pub is_lease_of : ℕ → JobRecord → Bool
is_lease_of id j = j.id == id && is_leased j.state

-- UPDATE … WHERE id = $1 AND state = 'leased' RETURNING *
unfoldable pub complete_job : ℕ → ℕ → List JobRecord → Option JobRecord × List JobRecord
complete_job id now jobs =
    (updated (is_lease_of id) (complete now) jobs, update_rows (is_lease_of id) (complete now) jobs)

-- CASE WHEN attempts >= max_attempts THEN 'failed' ELSE 'pending' END
abbrev pub record_failure : String → ℕ → JobRecord → JobRecord
record_failure error now j = record j {
  state = if leb j.max_attempts j.attempts then JobState.failed else pending;
  lease_owner = none;
  lease_expires_at = none;
  last_error = some error;
  updated_at = now;
}

unfoldable pub fail_job : ℕ → String → ℕ → List JobRecord → Option JobRecord × List JobRecord
fail_job id error now jobs = (
  updated (is_lease_of id) (record_failure error now) jobs,
  update_rows (is_lease_of id) (record_failure error now) jobs,
)

-- lease_expires_at < now(), which is not true of NULL
abbrev pub is_before : Option ℕ → ℕ → Bool
is_before none now = false
is_before (some t) now = ltb t now

abbrev pub has_expired_lease : ℕ → JobRecord → Bool
has_expired_lease now j = is_leased j.state && is_before j.lease_expires_at now

abbrev pub requeue : ℕ → JobRecord → JobRecord
requeue now j = record j {
  state = pending;
  lease_owner = none;
  lease_expires_at = none;
  updated_at = now;
}

-- The number of rows affected, and the table.
unfoldable pub release_expired_leases : ℕ → List JobRecord → ℕ × List JobRecord
release_expired_leases now jobs =
    (count (has_expired_lease now) jobs, update_rows (has_expired_lease now) (requeue now) jobs)

unfoldable pub get_job : ℕ → List JobRecord → Option JobRecord
get_job id jobs = find (λ j. j.id == id) jobs

-- The loop of enqueue_reprocessing over the selected nodes, each with the key of its new job. The
-- nodes come from rows with a foreign key, so each target exists.
unfoldable pub enqueue_each :
    List (ℕ × ℕ) → ℕ → List JobRecord → Result DbError (ℕ × List JobRecord)
unfolding enqueue_job
enqueue_each [] now jobs = ok (0, jobs)
enqueue_each ((id, node) ∷ rest) now jobs = do
  r ← enqueue_job id JobType.metadata_extraction node (ℤ.negsuc 99) now true jobs
  s ← enqueue_each rest now r.1
  ok ((if is_some r.0 then s.0 + 1 else s.0), s.1)

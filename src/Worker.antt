-- ===== src/Worker.antt =====
-- crates/worker/src/lib.rs: which job a worker claims next, and how it finishes one.
pub mod Turns
pub mod Deletion
pub mod Previews
pub mod Metadata
mod Tests
use strife.Base.{ℕ, String, Option, none, some, List, [], ◌∷◌, Bool, is_some, if◌then◌else◌}
use strife.Base.Result.{Result, ok, err}
use strife.Db.Schema.{
  JobRecord, JobType, permanent_deletion, trash_cleanup, metadata_extraction, preview_generation,
}
use strife.Db.Jobs.{claim_job, complete_job, fail_job, get_job}

-- The order in which the types are tried.
abbrev pub job_types : List JobType
job_types = permanent_deletion ∷ trash_cleanup ∷ metadata_extraction ∷ preview_generation ∷ []

abbrev pub or_next :
    Option JobRecord × List JobRecord
    → Option JobRecord × List JobRecord
    → Option JobRecord × List JobRecord
or_next (none, jobs) next = next
or_next (some j, jobs) next = (some j, jobs)

-- The loop: each claim is a statement with its own time and its own locked rows. A claim that finds
-- nothing leaves the table as it is, so the next one sees the same rows.
unfoldable pub claim_types :
    List JobType
    → String
    → ℕ
    → (JobType → ℕ → Bool)
    → (JobType → ℕ)
    → List JobRecord
    → Option JobRecord × List JobRecord
claim_types [] owner lease_ttl locked now jobs = (none, jobs)
claim_types (t ∷ ts) owner lease_ttl locked now jobs =
    or_next (claim_job t owner lease_ttl (locked t) (now t) jobs)
      (claim_types ts owner lease_ttl locked now jobs)

unfoldable pub claim_next_job :
    String
    → ℕ
    → (JobType → ℕ → Bool)
    → (JobType → ℕ)
    → List JobRecord
    → Option JobRecord × List JobRecord
claim_next_job = claim_types job_types

-- After the handler: `outcome` is its result, with the error's message, and `jobs` the table that it leaves.
unfoldable pub process_job :
    JobRecord → Result String (Unit {0}) → ℕ → List JobRecord → List JobRecord
process_job job (ok _) now jobs =
    if is_some (get_job job.id jobs) then (complete_job job.id now jobs).1 else jobs
process_job job (err message) now jobs =
    if is_some (get_job job.id jobs) then (fail_job job.id message now jobs).1 else jobs

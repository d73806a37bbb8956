-- ===== src/Worker/Tests.antt =====
-- A worker's turn over a queue with one metadata job.
use strife.Base.{ℕ, refl, [], ◌∷◌, Bool, false}
use strife.Base.Int.{pos}
use strife.Db.Schema.{JobRecord, JobType, metadata_extraction}
use strife.Db.Jobs.{new_job, lease}
use strife.Db.Jobs.Invariant.{IsQueue}
use strife.Worker.{claim_next_job}
use strife.Worker.Turns.{Turn, claim_next_job-Turn}

abbrev job : JobRecord
job = new_job 7 metadata_extraction 20 (pos 0) 50

job-IsQueue : IsQueue (job ∷ [])
job-IsQueue = record {
  unique = (refl, tt);
  leases = (record { owner = refl; expiry = refl; completion = refl }, tt);
}

abbrev unlocked : JobType → ℕ → Bool
unlocked t x = false

abbrev at_100 : JobType → ℕ
at_100 t = 100

claim_next_job-Turn_example :
    Turn "a" 30 unlocked at_100
      (job ∷ [])
      job-IsQueue
      (JobType.permanent_deletion ∷ JobType.trash_cleanup ∷ JobType.metadata_extraction
        ∷ JobType.preview_generation ∷ [])
      (claim_next_job "a" 30 unlocked at_100 (job ∷ []))
claim_next_job-Turn_example = claim_next_job-Turn "a" 30 unlocked at_100 (job ∷ []) job-IsQueue

abbrev leased : JobRecord
leased = lease "a" 130 100 job

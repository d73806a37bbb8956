-- ===== src/Db/Jobs/Tests.antt =====
-- Runs of the job queue.
use strife.Base.{ℕ, ◌≡◌, ◌≢◌, refl, String, Option, some, List, [], ◌∷◌, Bool, true, false}
use strife.Base.Int.{pos}
use strife.Base.Result.{ok}
use strife.Db.Schema.{JobRecord, JobType}
use strife.Db.Jobs.{
  enqueue_job, claim_job, complete_job, new_job, lease, complete, first_row, comes_first,
}
use strife.Db.Jobs.Invariant.{IsQueue}
use strife.Db.Jobs.Claim.{Claims, claim_job-Claims}
use strife.Db.Jobs.Steps.{Step, Reach, Reach-IsQueue, Reach-finished, claim_job-exclusive, job_at}

abbrev old : JobRecord
old = new_job 7 JobType.metadata_extraction 20 (pos 0) 50

abbrev urgent : JobRecord
urgent = new_job 8 JobType.metadata_extraction 21 (pos 5) 60

abbrev queue : List JobRecord
queue = urgent ∷ old ∷ []

empty-IsQueue : IsQueue []
empty-IsQueue = record { unique = tt; leases = tt }

old_added :
    enqueue_job 7 JobType.metadata_extraction 20 (pos 0) 50 true [] ≡ ok (some old, old ∷ [])
unfolding enqueue_job
old_added = refl

urgent_added :
    enqueue_job 8 JobType.metadata_extraction 21 (pos 5) 60 true (old ∷ [])
    ≡ ok (some urgent, queue)
unfolding enqueue_job
urgent_added = refl

queue-Reach : Reach [] queue
queue-Reach =
    Reach.next
      (Reach.next Reach.here
        (Step.enqueues 7 JobType.metadata_extraction 20 (pos 0) 50 true old_added))
      (Step.enqueues 8 JobType.metadata_extraction 21 (pos 5) 60 true urgent_added)

queue-IsQueue : IsQueue queue
queue-IsQueue = Reach-IsQueue empty-IsQueue queue-Reach

Reach-IsQueue_example : IsQueue queue
Reach-IsQueue_example = Reach-IsQueue empty-IsQueue queue-Reach

abbrev nobody : ℕ → Bool
nobody x = false

first_claim :
    (claim_job JobType.metadata_extraction "a" 30 nobody 100 queue).0
    ≡ some (lease "a" 130 100 urgent)
unfolding claim_job first_row comes_first
first_claim = refl

second_claim :
    (claim_job JobType.metadata_extraction "b" 30 nobody 101
      (claim_job JobType.metadata_extraction "a" 30 nobody 100 queue).1).0
    ≡ some (lease "b" 131 101 old)
unfolding claim_job first_row comes_first
second_claim = refl

claim_job-exclusive_example :
    (job_at 8 (claim_job JobType.metadata_extraction "a" 30 nobody 100 queue).1
      ≡ some (lease "a" 130 100 urgent))
    × ◌≡◌ {A = Option String} (some "a") (some "a")
    × ◌≢◌ {A = ℕ} 7 8
claim_job-exclusive_example =
    claim_job-exclusive JobType.metadata_extraction JobType.metadata_extraction "a" "b" 30 30 nobody
      nobody 100 101 queue (lease "a" 130 100 urgent) (lease "b" 131 101 old) queue-IsQueue
      first_claim second_claim

claim_job-Claims_example :
    Claims JobType.metadata_extraction "a" 30 nobody 100 queue
      (claim_job JobType.metadata_extraction "a" 30 nobody 100 queue)
claim_job-Claims_example =
    claim_job-Claims JobType.metadata_extraction "a" 30 nobody 100 queue queue-IsQueue

abbrev done : JobRecord
done = complete 120 (lease "a" 130 100 old)

abbrev finished : List JobRecord
finished = done ∷ []

finished-IsQueue : IsQueue finished
finished-IsQueue = record {
  unique = (refl, tt);
  leases = (record { owner = refl; expiry = refl; completion = refl }, tt);
}

Reach-finished_example : job_at 7 (complete_job 7 140 finished).1 ≡ some done
Reach-finished_example =
    Reach-finished done finished-IsQueue (Reach.next Reach.here (Step.completes 7 140)) refl refl

abbrev leased_queue : List JobRecord
leased_queue = lease "a" 130 100 urgent ∷ old ∷ []

-- ===== src/Worker/Turns.antt =====
-- The queue under claim_next_job and process_job of crates/worker/src/lib.rs.
use strife.Base.{
  ℕ, ◌≡◌, refl, sym, subst, ◌∙◌, some, ap, String, Option, none, List, [], ◌∷◌, ◌++◌, Bool, false,
  arith, inl, inr, ◌==◌, is_some, any, find, All, Bool-cases,
}
use strife.Base.Result.{Result, ok, err}
use strife.Db.Schema.{JobRecord, JobType}
use strife.Db.Jobs.{
  claim_job, complete_job, fail_job, get_job, is_lease_of, complete, record_failure,
}
use strife.Db.Jobs.Invariant.{IsQueue}
use strife.Db.Jobs.Claim.{Claims, IsClaimable, claim_job-Claims}
use strife.Db.Jobs.Steps.{Step, Reach, count-update_rows}
use strife.Worker.{job_types, or_next, claim_types, claim_next_job, process_job}

module _ (owner : String) (ttl : ℕ) (locked : JobType → ℕ → Bool) (now : JobType → ℕ)
    (jobs : List JobRecord) (q : IsQueue jobs) where
  -- No job of a type is pending and unlocked.
  abbrev pub Lacks : JobType → Type 0
  Lacks t = All (λ k. ¬ IsClaimable t (locked t) k) jobs

  -- What a worker's turn over the types `ts` comes to: the claim of a job of the first type that has a
  -- claimable one.
  pub data Turn (ts : List JobType) (r : Option JobRecord × List JobRecord) : Type 0 where
    idle : All Lacks ts → r ≡ (none, jobs) → Turn ts r
    claims :
        (earlier later : List JobType) (t : JobType) (k : JobRecord)
        → ts ≡ earlier ++ t ∷ later
        → All Lacks earlier
        → r.0 ≡ some k
        → k.job_type ≡ t
        → Claims t owner ttl (locked t) (now t) jobs r
        → Turn ts r

  later-Turn :
      (t : JobType) (ts : List JobType) (r : Option JobRecord × List JobRecord)
      → Lacks t
      → Turn ts r
      → Turn (t ∷ ts) r
  later-Turn t ts r lacks (idle h e) = idle (lacks, h) e
  later-Turn t ts r lacks (claims earlier later u k at h c same e) =
      claims (t ∷ earlier) later u k (ap (λ l. t ∷ l) at) (lacks, h) c same e

  or_next-some :
      (r next : Option JobRecord × List JobRecord) (k : JobRecord)
      → r.0 ≡ some k
      → or_next r next ≡ r
  or_next-some (none, js) next k e = cc
  or_next-some (some j, js) next k e = refl

  claim_types-Turn : (ts : List JobType) → Turn ts (claim_types ts owner ttl locked now jobs)
  unfolding claim_types
  claim_types-Turn [] = idle tt refl
  claim_types-Turn (t ∷ ts) = elim (claim_job-Claims t owner ttl (locked t) (now t) jobs q) [
    | Claims.nothing lacks e ↦
        rw e
          (later-Turn t ts (claim_types ts owner ttl locked now jobs) lacks (claim_types-Turn ts))
    | Claims.leases j k at_j c first is got stored others ↦
        let r = claim_job t owner ttl (locked t) (now t) jobs in
        let next = claim_types ts owner ttl locked now jobs in
        subst (Turn (t ∷ ts)) (sym (or_next-some r next k got)) (
          claims [] ts t k refl tt got (ap (λ (x : JobRecord). x.job_type) is.5 ∙ c.0)
            (Claims.leases j k at_j c first is got stored others))
  ]

  -- A worker claims a job of the first type that has a pending job not locked by another transaction,
  -- in the order permanent deletion, trash cleanup, metadata extraction, preview generation; within
  -- the type it claims as claim_job does. It claims none, and changes nothing, exactly when no type
  -- has such a job.
  pub claim_next_job-Turn :
      Turn
        (JobType.permanent_deletion ∷ JobType.trash_cleanup ∷ JobType.metadata_extraction
          ∷ JobType.preview_generation ∷ [])
        (claim_next_job owner ttl locked now jobs)
  unfolding claim_next_job
  claim_next_job-Turn = claim_types-Turn job_types

no_row :
    (id : ℕ) (jobs : List JobRecord)
    → is_some (find (λ j. j.id == id) jobs) ≡ false
    → any (is_lease_of id) jobs ≡ false
no_row id [] h = refl
no_row id (j ∷ js) h = ground (arith, no_row id js)

-- Whatever the handler returns, after `process_job` no row of the job is leased, and the table is
-- reached from the handler's by steps of the queue.
pub process_job-Reach :
    (job : JobRecord) (outcome : Result String (Unit {0})) (now : ℕ) (jobs : List JobRecord)
    → (any (is_lease_of job.id) (process_job job outcome now jobs) ≡ false)
      × Reach jobs (process_job job outcome now jobs)
unfolding process_job get_job
process_job-Reach job (ok _) now jobs =
    elim (Bool-cases (is_some (find (λ j. j.id == job.id) jobs))) [
      | inl there ↦ rw there (
        (unfold complete_job in
            count-update_rows (is_lease_of job.id) (complete now) (λ j h. ground arith) jobs),
        Reach.next Reach.here (Step.completes job.id now),
      )
      | inr gone ↦ rw gone (no_row job.id jobs gone, Reach.here)
    ]
process_job-Reach job (err message) now jobs =
    elim (Bool-cases (is_some (find (λ j. j.id == job.id) jobs))) [
      | inl there ↦ rw there (
        (unfold fail_job in
            count-update_rows (is_lease_of job.id) (record_failure message now)
              (λ j h. ground arith) jobs),
        Reach.next Reach.here (Step.fails job.id message now),
      )
      | inr gone ↦ rw gone (no_row job.id jobs gone, Reach.here)
    ]

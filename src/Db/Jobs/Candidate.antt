-- ===== src/Db/Jobs/Candidate.antt =====
-- The candidate of `claim_job`: the row that it selects, and what the statement does with it.
use strife.Base.{
  ℕ, ◌+◌, ◌≡◌, refl, subst, String, Option, none, some, List, [], ◌∷◌, Bool, true, false, arith,
  ◌==◌, any, where_rows, update_rows, All, ◌⊎◌, inl, inr, Bool-cases, Option-cases,
}
use strife.Base.Rows.{All-of_where_rows, row, All-map₂, All-where_rows}
use strife.Db.Schema.{JobType, JobRecord}
use strife.Db.Jobs.{comes_first, first_of_two, first_row, claimable, lease, claim_job}
use strife.Db.Jobs.Invariant.{IsQueue, found}

comes_first_refl : (a : JobRecord) → comes_first a a ≡ true
unfolding comes_first
comes_first_refl a = ground arith

comes_first_total : (a b : JobRecord) → comes_first a b ≡ false → comes_first b a ≡ true
unfolding comes_first
comes_first_total a b h = ground arith

comes_first_trans :
    (a b c : JobRecord) → comes_first a b ≡ true → comes_first b c ≡ true → comes_first a c ≡ true
unfolding comes_first
comes_first_trans a b c h k = ground arith

-- Nothing is first exactly in the empty selection.
first_row-none : (js : List JobRecord) → first_row js ≡ none → js ≡ []
unfolding first_row
first_row-none [] h = refl
first_row-none (j ∷ js) h = ground arith

-- The first of a row and the first of the rest is the one, before the other, or the other.
first_of_two-cases :
    (j : JobRecord) (o : Option JobRecord) (b : JobRecord)
    → first_of_two j o ≡ some b
    → ((j ≡ b) × ((k : JobRecord) → o ≡ some k → comes_first j k ≡ true))
      ⊎ ((o ≡ some b) × (comes_first j b ≡ false))
first_of_two-cases j none b e = inl (ground arith, λ k h. cc)
first_of_two-cases j (some k) b e = elim (Bool-cases (comes_first j k)) [
  | inl before ↦ inl (ground arith, λ k' h. ground arith)
  | inr after ↦ inr (ground arith, ground arith)
]

-- What holds of every selected row holds of the first.
first_row-All :
    (P : JobRecord → Type 0) (js : List JobRecord) (b : JobRecord)
    → All P js
    → first_row js ≡ some b
    → P b
unfolding first_row
first_row-All P [] b h e = cc
first_row-All P (j ∷ js) b h e = elim (first_of_two-cases j (first_row js) b e) [
  | inl (same, _) ↦ subst P same h.0
  | inr (rest, _) ↦ first_row-All P js b h.1 rest
]

comes_first-All :
    (j k : JobRecord) (js : List JobRecord)
    → comes_first j k ≡ true
    → All (λ l. comes_first k l ≡ true) js
    → All (λ l. comes_first j l ≡ true) js
comes_first-All j k js h a =
    All-map₂ (λ l. comes_first k l ≡ true) (λ l. comes_first k l ≡ true)
      (λ l. comes_first j l ≡ true) (λ l p q. comes_first_trans j k l h p) js a a

-- The first row comes first before every selected row.
first_row-first :
    (js : List JobRecord) (b : JobRecord)
    → first_row js ≡ some b
    → All (λ k. comes_first b k ≡ true) js
unfolding first_row
first_row-first [] b e = tt
first_row-first (j ∷ js) b e = elim (first_of_two-cases j (first_row js) b e) [
  | inl (same, before) ↦
      subst (λ x. All (λ k. comes_first x k ≡ true) (j ∷ js)) same
        (
          comes_first_refl j,
          elim (Option-cases (first_row js)) [
            | inl nothing ↦ rw (first_row-none js nothing) tt
            | inr (k, first) ↦ comes_first-All j k js (before k first) (first_row-first js k first)
          ],
        )
  | inr (rest, after) ↦ (comes_first_total j b after, first_row-first js b rest)
]

-- What the statement does with the candidate: nothing without one, else the update of its row.
pub data Candidate (job_type : JobType) (owner : String) (ttl : ℕ) (locked : ℕ → Bool) (now : ℕ)
    (jobs : List JobRecord) (r : Option JobRecord × List JobRecord) : Type 0 where
  nothing :
      any (claimable job_type locked) jobs ≡ false
      → r ≡ (none, jobs)
      → Candidate job_type owner ttl locked now jobs r
  leases :
      (j : JobRecord)
      → row (λ k. k.id) j.id jobs ≡ some j
      → claimable job_type locked j ≡ true
      → All (λ k. claimable job_type locked k ≡ true → comes_first j k ≡ true) jobs
      → r ≡ (
        some (lease owner (now + ttl) now j),
        update_rows (λ k. k.id == j.id) (lease owner (now + ttl) now) jobs,
      )
      → Candidate job_type owner ttl locked now jobs r

where_rows-not_any :
    (p : JobRecord → Bool) (js : List JobRecord) → where_rows p js ≡ [] → any p js ≡ false
where_rows-not_any p [] h = refl
where_rows-not_any p (j ∷ js) h = ground (arith, where_rows-not_any p js)

pub claim_job-Candidate :
    (job_type : JobType) (owner : String) (ttl : ℕ) (locked : ℕ → Bool) (now : ℕ)
    (jobs : List JobRecord)
    → IsQueue jobs
    → Candidate job_type owner ttl locked now jobs (claim_job job_type owner ttl locked now jobs)
unfolding claim_job
claim_job-Candidate job_type owner ttl locked now jobs q =
    elim (Option-cases (first_row (where_rows (claimable job_type locked) jobs))) [
      | inl e ↦ nothing (where_rows-not_any _ jobs (first_row-none _ e)) (rw e)
      | inr (j, e) ↦
          let at_j =
            first_row-All
              (λ k. (row (λ l. l.id) k.id jobs ≡ some k) × (claimable job_type locked k ≡ true))
              (where_rows (claimable job_type locked) jobs) j
              (All-where_rows _ _ jobs (found jobs q.unique)) e in
          leases j at_j.0 at_j.1 (All-of_where_rows _ _ jobs (first_row-first _ j e)) (rw e)
    ]

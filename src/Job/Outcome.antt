-- ===== src/Job/Outcome.antt =====
-- What becomes of one job: after one run, and after all its runs fail.
use boardchestrator.Prelude.{
  ℕ, zero, suc, ◌+◌, ◌<◌, ◌≡◌, refl, sym, subst, ◌∙◌, ap, inl, inr, Bool, true, false, none, some,
  arith, Text, text_eq, ltb, le→leb, lt→ltb, Bool-cases, if◌then◌else◌,
}
use boardchestrator.Job.{
  Status, Job, Jobs, find_job, update_job, is_due, lock, unlock, retry, retry_delay, claim, Handler,
  complete, fail, mark_dead, settle_job, process_claimed, process_job,
}
use boardchestrator.Job.Table.{find_job-update_self, find_job-update_ne, find_job-id}

-- The row of a job that ran: done, queued again 30 seconds later with one more attempt, or dead.
abbrev pub ran : ℕ → Bool → Job → Job
ran now true j = record j { status = Status.succeeded; locked_by = none }
ran now false j =
    if ltb (j.attempts + 1) j.max_attempts
    then record j {
      status = Status.queued;
      run_at = now + retry_delay;
      attempts = j.attempts + 1;
      locked_by = none;
    }
    else record j { status = Status.dead; locked_by = none }

-- A handler that leaves the job table alone and answers `b`.
abbrev pub answers : Bool → Handler
answers b j js = (b, js)

pub claim_lem :
    (now : ℕ) (id who : Text) (js : Jobs) (j : Job)
    → find_job id js ≡ some j
    → is_due now j ≡ true
    → claim now id who js ≡ (some (lock who j), update_job id (lock who) js)
unfolding claim
claim_lem now id who js j found due = rw (found, claim) (simp due)

idle_claim :
    (now : ℕ) (id who : Text) (js : Jobs) (j : Job)
    → find_job id js ≡ some j
    → is_due now j ≡ false
    → claim now id who js ≡ (none, js)
unfolding claim
idle_claim now id who js j found early = rw (found, claim) (simp early)

pub settle_lem :
    (now : ℕ) (b : Bool) (who : Text) (j : Job) (js : Jobs)
    → find_job j.id js ≡ some (lock who j)
    → find_job j.id (settle_job now (lock who j) (b, js)) ≡ some (ran now b j)
unfolding settle_job complete fail mark_dead
settle_lem now true who j js e =
    find_job-update_self j.id (unlock Status.succeeded) js (lock who j) (λ k. refl) e
settle_lem now false who j js e = elim (Bool-cases (ltb (j.attempts + 1) j.max_attempts)) [
  | inl more ↦
      rw (more, settle_job)
        (find_job-update_self j.id (retry Status.queued (now + retry_delay) (j.attempts + 1)) js
          (lock who j) (λ k. refl) e)
  | inr last ↦
      rw (last, settle_job)
        ((find_job-update_self j.id (unlock Status.dead) js (lock who j) (λ k. refl) e))
]

pub settle_other :
    (now : ℕ) (b : Bool) (j : Job) (js : Jobs) (i : Text)
    → text_eq j.id i ≡ false
    → find_job i (settle_job now j (b, js)) ≡ find_job i js
unfolding settle_job complete fail mark_dead
settle_other now true j js i ne =
    find_job-update_ne i j.id (unlock Status.succeeded) js (λ k. refl) ne
settle_other now false j js i ne = elim (Bool-cases (ltb (j.attempts + 1) j.max_attempts)) [
  | inl more ↦
      rw (more, settle_job)
        (find_job-update_ne i j.id (retry Status.queued (now + retry_delay) (j.attempts + 1)) js
          (λ k. refl) ne)
  | inr last ↦
      rw (last, settle_job) (find_job-update_ne i j.id (unlock Status.dead) js (λ k. refl) ne)
]

-- A due job whose handler leaves the table alone ends as `ran` says, and no other row changes: a
-- success marks it succeeded; a failure queues it again 30 seconds later with one more attempt
-- while that is below its maximum, and marks it dead otherwise.
pub process_job_outcome :
    (now : ℕ) (who : Text) (b : Bool) (job j : Job) (js : Jobs)
    → find_job job.id js ≡ some j
    → is_due now j ≡ true
    → (find_job job.id (process_job now who (answers b) job js) ≡ some (ran now b j))
      × ((i : Text)
          → text_eq job.id i ≡ false
          → find_job i (process_job now who (answers b) job js) ≡ find_job i js)
unfolding process_job process_claimed
process_job_outcome now who b job j js found due =
    let same = find_job-id job.id js j found in
    let locked = find_job-update_self job.id (lock who) js j (λ k. refl) found in
    let js' = update_job job.id (lock who) js in
    (
      rw (claim_lem now job.id who js j found due) (
          subst (λ t. find_job t (settle_job now (lock who j) (b, js')) ≡ some (ran now b j)) same
            (settle_lem now b who j js'
              (subst (λ t. find_job t js' ≡ some (lock who j)) (sym same) locked))),
      (λ i ne. rw (claim_lem now job.id who js j found due) (
          settle_other now b (lock who j) js' i (subst (λ t. text_eq t i ≡ false) (sym same) ne)
          ∙ find_job-update_ne i job.id (lock who) js (λ k. refl) ne)),
    )

-- A job that is not due is left alone, whatever the handler does.
pub process_job_idle :
    (now : ℕ) (who : Text) (handler : Handler) (job j : Job) (js : Jobs)
    → find_job job.id js ≡ some j
    → is_due now j ≡ false
    → process_job now who handler job js ≡ js
unfolding process_job process_claimed
process_job_idle now who handler job j js found early =
    rw (idle_claim now job.id who js j found early)

-- The job's runs, each 30 seconds after the one before: every run leaves the table alone and fails.
pub fail_rounds : ℕ → ℕ → Text → Job → Jobs → Jobs
fail_rounds zero now who job js = js
fail_rounds (suc n) now who job js =
    fail_rounds n (now + retry_delay) who job (process_job now who (answers false) job js)

ran_last :
    (now : ℕ) (j : Job) → j.attempts + 1 ≡ j.max_attempts → (ran now false j).status ≡ Status.dead
ran_last now j e = ground arith

ran_again :
    (now : ℕ) (j : Job)
    → j.attempts + 1 < j.max_attempts
    → ran now false j ≡ record j {
      status = Status.queued;
      run_at = now + retry_delay;
      attempts = j.attempts + 1;
      locked_by = none;
    }
ran_again now j more = simp (lt→ltb (j.attempts + 1) j.max_attempts more)

dead_row :
    (now : ℕ) (j : Job)
    → j.attempts + 1 ≡ j.max_attempts
    → (ran now false j).attempts + 1 ≡ j.max_attempts
dead_row now j e = ground arith

-- A due job whose handler leaves the job table alone and answers every run with an error is dead
-- after as many runs as it had attempts left, each 30 seconds after the one before, and then
-- counts one attempt less than its maximum.
pub failing_job_dies :
    (n now : ℕ) (who : Text) (job j : Job) (js : Jobs)
    → find_job job.id js ≡ some j
    → is_due now j ≡ true
    → j.attempts + suc n ≡ j.max_attempts
    → (d : Job) × (find_job job.id (fail_rounds (suc n) now who job js) ≡ some d)
      × (d.status ≡ Status.dead)
      × (d.attempts + 1 ≡ j.max_attempts)
unfolding fail_rounds
failing_job_dies zero now who job j js found due left = (
  ran now false j,
  (process_job_outcome now who false job j js found due).0,
  ran_last now j (omega arith),
  dead_row now j (omega arith),
)
failing_job_dies (suc n) now who job j js found due left =
    let again = ran_again now j (omega arith) in
    let next = record j {
      status = Status.queued;
      run_at = now + retry_delay;
      attempts = j.attempts + 1;
      locked_by = none;
    } in
    failing_job_dies n (now + retry_delay) who job next (process_job now who (answers false) job js)
      ((process_job_outcome now who false job j js found due).0 ∙ ap (λ (x : Job). some x) again)
      (le→leb (now + retry_delay) (now + retry_delay) (omega arith)) (omega arith)

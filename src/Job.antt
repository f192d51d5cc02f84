-- ===== src/Job.antt =====
-- internal/job/pool.go and the statements of internal/db/queries/jobs.sql: the job table and what
-- a worker does with one job. Times are milliseconds. The statements are taken to succeed.
pub mod Table
pub mod Outcome
pub mod Workers
pub mod Keys
pub mod Served
mod Examples
use boardchestrator.Prelude.{
  ℕ, ◌+◌, Bool, true, false, ◌&&◌, Option, none, some, List, [], ◌∷◌, ◌++◌, Text, text_eq, ltb, leb,
  take, keep, map, if◌then◌else◌,
}

pub data Status : Type 0 where
  queued running succeeded failed dead : Status

abbrev pub is_queued : Status → Bool
is_queued Status.queued = true
is_queued _ = false

pub record Job : Type 0 where
  pub id : Text
  pub kind : Text
  pub payload : Text
  pub run_at : ℕ
  pub attempts : ℕ
  pub max_attempts : ℕ
  pub status : Status
  pub locked_by : Option Text

abbrev pub Jobs : Type 0
Jobs = List Job

unfoldable pub find_job : Text → Jobs → Option Job
unfolding text_eq
find_job id [] = none
find_job id (j ∷ js) = if text_eq j.id id then some j else find_job id js

-- UPDATE jobs SET ... WHERE id = :id
unfoldable pub update_job : Text → (Job → Job) → Jobs → Jobs
unfolding text_eq
update_job id f [] = []
update_job id f (j ∷ js) = (if text_eq j.id id then f j else j) ∷ update_job id f js

-- EnqueueJob: `id` is the primary key, and a second row of one id is refused.
unfoldable pub enqueue : Text → Text → Text → ℕ → ℕ → Jobs → Option Jobs
unfolding find_job
enqueue id kind payload run_at max_attempts js = elim (find_job id js) [
  | some j ↦ none
  | none ↦ some (
      js
      ++ record {
        id = id;
        kind = kind;
        payload = payload;
        run_at = run_at;
        attempts = 0;
        max_attempts = max_attempts;
        status = Status.queued;
        locked_by = none;
      }
        ∷ [])
]

-- The condition of ClaimJob and of ListQueuedJobs.
abbrev pub is_due : ℕ → Job → Bool
is_due now j = is_queued j.status && leb j.run_at now

abbrev pub lock : Text → Job → Job
lock locked_by j = record j { status = Status.running; locked_by = some locked_by }

-- JobStore.Claim: the claimed row, or none.
unfoldable pub claim : ℕ → Text → Text → Jobs → Option Job × Jobs
unfolding find_job update_job
claim now id locked_by js = elim (find_job id js) [
  | none ↦ (none, js)
  | some j ↦
      if is_due now j
      then (some (lock locked_by j), update_job id (lock locked_by) js)
      else (none, js)
]

abbrev pub unlock : Status → Job → Job
unlock status j = record j { status = status; locked_by = none }

unfoldable pub complete : Text → Jobs → Jobs
unfolding update_job
complete id js = update_job id (unlock Status.succeeded) js

abbrev pub retry : Status → ℕ → ℕ → Job → Job
retry status run_at attempts j = record j {
  status = status;
  run_at = run_at;
  attempts = attempts;
  locked_by = none;
}

unfoldable pub fail : Text → Status → ℕ → ℕ → Jobs → Jobs
unfolding update_job
fail id status run_at attempts js = update_job id (retry status run_at attempts) js

unfoldable pub mark_dead : Text → Jobs → Jobs
unfolding update_job
mark_dead id js = update_job id (unlock Status.dead) js

unfoldable pub requeue : ℕ → Text → Jobs → Jobs
unfolding update_job
requeue now id js = update_job id (retry Status.queued now 0) js

-- ORDER BY run_at ASC
unfoldable pub insert_by_run_at : Job → Jobs → Jobs
insert_by_run_at j [] = j ∷ []
insert_by_run_at j (k ∷ ks) =
    let later = k ∷ insert_by_run_at j ks in if leb j.run_at k.run_at then j ∷ k ∷ ks else later

unfoldable pub sort_by_run_at : Jobs → Jobs
unfolding insert_by_run_at
sort_by_run_at [] = []
sort_by_run_at (j ∷ js) = insert_by_run_at j (sort_by_run_at js)

unfoldable pub list_queued : ℕ → Jobs → Jobs
unfolding sort_by_run_at
list_queued now js = take 25 (sort_by_run_at (keep (is_due now) js))

abbrev pub retry_delay : ℕ
retry_delay = 30000

-- A handler may use the job table itself. It answers true where it returns nil.
abbrev pub Handler : Type 0
Handler = Job → Jobs → Bool × Jobs

-- What the pool does after the handler has returned.
unfoldable pub settle_job : ℕ → Job → Bool × Jobs → Jobs
unfolding complete fail mark_dead
settle_job now claimed (true, js) = complete claimed.id js
settle_job now claimed (false, js) =
    if ltb (claimed.attempts + 1) claimed.max_attempts
    then fail claimed.id Status.queued (now + retry_delay) (claimed.attempts + 1) js
    else mark_dead claimed.id js

-- What follows the claim: a job that another worker has is skipped.
unfoldable pub process_claimed : ℕ → Handler → Option Job × Jobs → Jobs
unfolding settle_job
process_claimed now handler (none, js) = js
process_claimed now handler (some j, js) = settle_job now j (handler j js)

-- One job of a worker's batch where no statement fails, nobody else acts, and the clock gives one
-- time; `serve_job` below is the general case.
unfoldable pub process_job : ℕ → Text → Handler → Job → Jobs → Jobs
unfolding claim process_claimed
process_job now locked_by handler job js =
    process_claimed now handler (claim now job.id locked_by js)

-- What a round of one worker meets: the clock when it lists, claims and settles; whether ListQueued
-- succeeds; the jobs before which the pool is stopped, and those whose Claim fails, or whose Fail,
-- Dead or Complete; the name under which it locks; and what others, such as the other workers, do
-- to the table before it turns to a job.
pub record Round : Type 0 where
  pub listed_at : ℕ
  pub lists : Bool
  pub claimed_at : Job → ℕ
  pub settled_at : Job → ℕ
  pub stopped : Job → Bool
  pub claim_fails : Job → Bool
  pub settle_fails : Job → Bool
  pub locked_by : Job → Text
  pub others : Job → Jobs → Jobs

module _ (r : Round) (handler : Handler) where
  -- The handler, and what follows it. The errors of Fail, Dead and Complete change nothing else.
  unfoldable pub serve_claimed : Job → Option Job × Jobs → Jobs
  unfolding settle_job
  serve_claimed job (none, js) = js
  serve_claimed job (some j, js) =
      let (done, js') = handler j js in
      if r.settle_fails job then js' else settle_job (r.settled_at job) j (done, js')

  -- One job of the batch: an error of Claim skips it.
  unfoldable pub serve_job : Job → Jobs → Jobs
  unfolding claim serve_claimed
  serve_job job js =
      let here = r.others job js in
      if r.claim_fails job
      then here
      else serve_claimed job (claim (r.claimed_at job) job.id (r.locked_by job) here)

  unfoldable pub process_batch : Jobs → Jobs → Jobs
  unfolding serve_job
  process_batch [] js = js
  process_batch (job ∷ batch) js =
      let rest = process_batch batch (serve_job job js) in if r.stopped job then js else rest

  -- One round of a worker.
  unfoldable pub worker_round : Jobs → Jobs
  unfolding list_queued process_batch
  worker_round js = if r.lists then process_batch (list_queued r.listed_at js) js else js

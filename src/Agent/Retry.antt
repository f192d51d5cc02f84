-- ===== src/Agent/Retry.antt =====
-- internal/agentrt/engine.go: the job handler of a run (Handler, finishRun, failAndRetry), over the
-- job pool of internal/job.
use boardchestrator.Prelude.{
  ℕ, ◌+◌, ◌*◌, Bool, true, false, ◌||◌, Option, none, some, List, [], Text, codes, is_empty, Result,
  ok, err, ltb, if◌then◌else◌,
}
use boardchestrator.Job.{Job, Jobs, Status, Handler, fail, mark_dead, complete}
use boardchestrator.Agent.Model.{RunStatus, Run, Notification, LoopOutcome}
use boardchestrator.Agent.Gate.{find_run, update_run, create_notification}

-- The tables that a run job touches, and the ids of the users.
pub record EngineDb : Type 0 where
  pub users : List Text
  pub jobs : Jobs
  pub runs : List Run
  pub notifications : List Notification

pub record Agent : Type 0 where
  pub name : Text
  pub backoff_secs : ℕ

-- The decoded payload of a run job.
pub record RunJob : Type 0 where
  pub run_id : Text
  pub org_id : Text
  pub instruction : Text

-- FinishRun: UPDATE runs SET status, error, prompt_tokens, completion_tokens WHERE id AND org_id.
abbrev pub finished : RunStatus → Text → ℕ → ℕ → Run → Run
finished status error prompt completion r = record r {
  status = status;
  error = error;
  prompt_tokens = prompt;
  completion_tokens = completion;
}

-- The statements of the handler that may fail.
pub data Statement : Type 0 where
  fail_job dead_job complete_job finish_run create_note : Statement

-- What the engine uses of encoding/json, the agents table and the loops (executeRun,
-- executeChatRun), and the statements that fail for a reason that is not in the tables.
pub record Engine : Type 0 where
  pub decode : Text → Option RunJob
  pub find_agent : Text → Option Agent
  pub execute : Run → Agent → Text → EngineDb → Result Text LoopOutcome × EngineDb
  pub fails : Statement → Bool

-- `backoff <= 0` becomes 30 seconds. In milliseconds.
abbrev pub backoff_of : ℕ → ℕ
backoff_of secs = if ltb 0 secs then 1000 * secs else 30000

abbrev pub failure_note : Run → Notification
failure_note run = record {
  org_id = run.org_id;
  user_id = run.initiated_by;
  event_name = codes "run.failed";
  subject_id = run.id;
}

module _ (e : Engine) where
  -- FinishRun fails where there is no such run, too: false is an error.
  unfoldable pub finish_run_row : Run → RunStatus → Text → ℕ → ℕ → EngineDb → Bool × EngineDb
  unfolding find_run update_run
  finish_run_row run status error prompt completion db =
      if e.fails finish_run then (false, db) else elim (find_run run.id run.org_id db.runs) [
        | none ↦ (false, db)
        | some r ↦ (
          true,
          record db {
            runs = update_run run.id run.org_id (finished status error prompt completion) db.runs;
          },
        )
      ]

  -- notifyFailure
  unfoldable pub notify_failure : Run → EngineDb → Bool × EngineDb
  unfolding create_notification
  notify_failure run db =
      if is_empty run.initiated_by
      then (true, db)
      else elim (create_notification (e.fails create_note) db.users (failure_note run)
          db.notifications) [
            | none ↦ (false, db)
            | some rows ↦ (true, record db { notifications = rows })
          ]

  -- What follows store.Dead: the run's row, and then the notification.
  unfoldable pub then_notify : Run → Bool × EngineDb → Bool × EngineDb
  unfolding notify_failure
  then_notify run (false, db) = (false, db)
  then_notify run (true, db) = notify_failure run db

  -- failAndRetry
  unfoldable pub fail_and_retry : ℕ → Job → Run → Agent → Text → EngineDb → Bool × EngineDb
  unfolding fail mark_dead finish_run_row then_notify
  fail_and_retry now j run agent error db =
      let delay = backoff_of agent.backoff_secs in
      let retried = record db {
        jobs = fail j.id Status.failed (now + delay) (j.attempts + 1) db.jobs;
      } in
      let dead = record db { jobs = mark_dead j.id db.jobs } in
      if ltb (j.attempts + 1) j.max_attempts
      then (if e.fails fail_job
          then (false, db)
          else finish_run_row run RunStatus.failed error 0 0 retried)
      else (if e.fails dead_job
          then (false, db)
          else then_notify run (finish_run_row run RunStatus.failed error 0 0 dead))

module _ (e : Engine) (now : ℕ) where
  unfoldable pub complete_job_row : Job → EngineDb → Bool × EngineDb
  unfolding complete
  complete_job_row j db =
      if e.fails complete_job
      then (false, db)
      else (true, record db { jobs = complete j.id db.jobs })

  -- What follows the loop. The error of finishRun is ignored, as the source does.
  unfoldable pub conclude : Job → Run → Agent → Result Text LoopOutcome × EngineDb → Bool × EngineDb
  unfolding fail_and_retry finish_run_row complete_job_row
  conclude j run agent (err error, db) = fail_and_retry e now j run agent error db
  conclude j run agent (ok out, db) =
      if out.approval_pending
      then complete_job_row j db
      else (let (done, db') =
            finish_run_row e run RunStatus.succeeded [] out.prompt_tokens out.completion_tokens
              db in
          complete_job_row j db')

  -- The closure that Handler returns.
  unfoldable pub handle_run : Job → EngineDb → Bool × EngineDb
  unfolding find_run conclude
  handle_run j db = elim (e.decode j.payload) [
    | none ↦ (false, db)
    | some rj ↦
        if is_empty rj.run_id || is_empty rj.org_id
        then (false, db)
        else elim (find_run rj.run_id rj.org_id db.runs) [
          | none ↦ (false, db)
          | some run ↦ elim (e.find_agent run.agent_id) [
            | none ↦ (false, db)
            | some agent ↦ conclude j run agent (e.execute run agent rj.instruction db)
          ]
        ]
  ]

  -- The handler as the pool sees it: over the job table, the other tables being `db`'s.
  abbrev pub run_handler : EngineDb → Handler
  run_handler db j js = let (done, db') = handle_run j (record db { jobs = js }) in (done, db'.jobs)

-- ===== src/Agent/Failed.antt =====
-- internal/agentrt/engine.go: what becomes of the job of a run whose loop fails.
use boardchestrator.Prelude.{
  ℕ, ◌+◌, ◌≡◌, refl, ap, ◌∙◌, inl, inr, ◌⊎◌, true, false, some, List, Text, is_empty, err, ltb,
  Bool-cases,
}
use boardchestrator.Job.{
  Job, Jobs, Status, find_job, retry, unlock, fail, mark_dead, complete, settle_job,
}
use boardchestrator.Job.Table.{find_job-update_self}
use boardchestrator.Agent.Model.{RunStatus, Run}
use boardchestrator.Agent.Gate.{find_run, update_run, is_user, create_notification}
use boardchestrator.Agent.Retry.{
  EngineDb, Agent, RunJob, Engine, Statement, finished, finish_run_row, backoff_of, notify_failure,
  then_notify, fail_and_retry, conclude, handle_run, run_handler,
}

settle_true :
    (now : ℕ) (j row : Job) (js : Jobs)
    → find_job j.id js ≡ some row
    → find_job j.id (settle_job now j (true, js)) ≡ some (unlock Status.succeeded row)
unfolding settle_job complete
settle_true now j row js here =
    find_job-update_self j.id (unlock Status.succeeded) js row (λ k. refl) here

settle_last :
    (now : ℕ) (j row : Job) (js : Jobs)
    → ltb (j.attempts + 1) j.max_attempts ≡ false
    → find_job j.id js ≡ some row
    → find_job j.id (settle_job now j (false, js)) ≡ some (unlock Status.dead row)
unfolding settle_job mark_dead
settle_last now j row js last here =
    simp (last) (find_job-update_self j.id (unlock Status.dead) js row (λ k. refl) here)

module _ (e : Engine) (fine : (q : Statement) → e.fails q ≡ false) where
  finish_found :
      (run r : Run) (status : RunStatus) (error : Text) (p c : ℕ) (db : EngineDb)
      → find_run run.id run.org_id db.runs ≡ some r
      → finish_run_row e run status error p c db ≡ (
        true,
        record db { runs = update_run run.id run.org_id (finished status error p c) db.runs },
      )
  unfolding finish_run_row
  finish_found run r status error p c db found =
      simp (fine Statement.finish_run) (rw (found, finish_run_row) refl)

  notified :
      (run : Run) (db : EngineDb)
      → (is_empty run.initiated_by ≡ true) ⊎ (is_user db.users run.initiated_by ≡ true)
      → ((notify_failure e run db).0 ≡ true) × ((notify_failure e run db).1.jobs ≡ db.jobs)
  unfolding notify_failure create_notification
  notified run db initiator = elim (Bool-cases (is_empty run.initiated_by)) [
    | inl nobody ↦ simp (nobody) (refl, refl)
    | inr named ↦ elim initiator [
      | inl nobody ↦ absurd (cc (named, nobody))
      | inr user ↦ simp (named, fine Statement.create_note, user) (refl, refl)
    ]
  ]

  refused :
      (run : Run) (db : EngineDb)
      → is_empty run.initiated_by ≡ false
      → is_user db.users run.initiated_by ≡ false
      → notify_failure e run db ≡ (false, db)
  unfolding notify_failure create_notification
  refused run db named stranger = simp (named, fine Statement.create_note, stranger)

  module _ (now : ℕ) (j row : Job) (run r : Run) (agent : Agent) (error : Text) (db : EngineDb)
      (found : find_run run.id run.org_id db.runs ≡ some r)
      (here : find_job j.id db.jobs ≡ some row) where
    abbrev pub failed_runs : List Run
    failed_runs = update_run run.id run.org_id (finished RunStatus.failed error 0 0) db.runs

    retried_lem :
        ltb (j.attempts + 1) j.max_attempts ≡ true
        → fail_and_retry e now j run agent error db ≡ (
          true,
          record db {
            jobs =
                fail j.id Status.failed
                  (now + backoff_of agent.backoff_secs)
                  (j.attempts + 1)
                  db.jobs;
            runs = failed_runs;
          },
        )
    unfolding fail_and_retry
    retried_lem more =
        simp (more, fine Statement.fail_job)
          (finish_found run r RunStatus.failed error 0 0
            (record db {
              jobs =
                  fail j.id Status.failed (now + backoff_of agent.backoff_secs) (j.attempts + 1)
                    db.jobs;
            })
            found)

    abbrev dead_db : EngineDb
    dead_db = record db { jobs = mark_dead j.id db.jobs; runs = failed_runs }

    dead_lem :
        ltb (j.attempts + 1) j.max_attempts ≡ false
        → fail_and_retry e now j run agent error db ≡ notify_failure e run dead_db
    unfolding fail_and_retry then_notify
    dead_lem last =
        simp (last, fine Statement.dead_job)
          (ap (then_notify e run) (
            finish_found run r RunStatus.failed error 0 0
              (record db { jobs = mark_dead j.id db.jobs }) found))

    -- The row of the job, once it is marked dead.
    dead_row : find_job j.id dead_db.jobs ≡ some (unlock Status.dead row)
    unfolding mark_dead
    dead_row = find_job-update_self j.id (unlock Status.dead) db.jobs row (λ k. refl) here

    -- A failed run whose notification is not refused is no error, and its job's row is still there.
    fail_and_retry_quiet :
        (ltb (j.attempts + 1) j.max_attempts ≡ true)
          ⊎ (is_empty run.initiated_by ≡ true)
          ⊎ (is_user db.users run.initiated_by ≡ true)
        → ((fail_and_retry e now j run agent error db).0 ≡ true)
          × (row' : Job) × (find_job j.id (fail_and_retry e now j run agent error db).1.jobs
              ≡ some row')
    unfolding fail
    fail_and_retry_quiet told = elim (Bool-cases (ltb (j.attempts + 1) j.max_attempts)) [
      | inl more ↦
          let later = retry Status.failed (now + backoff_of agent.backoff_secs) (j.attempts + 1) in
          rw (retried_lem more)
            (refl, later row, find_job-update_self j.id later db.jobs row (λ k. refl) here)
      | inr last ↦
          let (quiet, same) = notified run dead_db (told_to last told) in
          rw (dead_lem last)
            (quiet, unlock Status.dead row, ap (λ js. find_job j.id js) same ∙ dead_row)
    ]
      where
        told_to :
            ltb (j.attempts + 1) j.max_attempts ≡ false
            → (ltb (j.attempts + 1) j.max_attempts ≡ true)
              ⊎ (is_empty run.initiated_by ≡ true)
              ⊎ (is_user db.users run.initiated_by ≡ true)
            → (is_empty run.initiated_by ≡ true) ⊎ (is_user db.users run.initiated_by ≡ true)
        told_to last (inl more) = absurd (cc (last, more))
        told_to last (inr rest) = rest

    -- One whose notification is refused is an error.
    fail_and_retry_loud :
        ltb (j.attempts + 1) j.max_attempts ≡ false
        → is_empty run.initiated_by ≡ false
        → is_user db.users run.initiated_by ≡ false
        → fail_and_retry e now j run agent error db ≡ (false, dead_db)
    fail_and_retry_loud last named stranger = dead_lem last ∙ refused run dead_db named stranger

module _ (e : Engine) (now : ℕ) (j : Job) (db : EngineDb) (js : Jobs) (rj : RunJob) (run : Run)
    (agent : Agent) (error : Text) (after : EngineDb) where
  handle_run_lem :
      e.decode j.payload ≡ some rj
      → is_empty rj.run_id ≡ false
      → is_empty rj.org_id ≡ false
      → find_run rj.run_id rj.org_id db.runs ≡ some run
      → e.find_agent run.agent_id ≡ some agent
      → e.execute run agent rj.instruction (record db { jobs = js }) ≡ (err error, after)
      → handle_run e now j (record db { jobs = js }) ≡ fail_and_retry e now j run agent error after
  unfolding handle_run conclude
  handle_run_lem decoded hrun horg found known failed =
      rw (decoded, handle_run)
        (simp (hrun, horg) (rw (found, handle_run) (rw (known, handle_run) (rw failed))))

  -- When the loop of a run job fails, the pool marks the job succeeded: failAndRetry's own mark
  -- (failed or dead) is overwritten, since its handler returns no error. The job is then neither
  -- queued for another attempt nor listed as dead. The conditions: attempts are left, or the run's
  -- initiator is empty or a user; the run and the agent are found, before and after the loop; the
  -- job is still in the table, and no statement fails otherwise.
  pub failed_run_job_succeeds :
      ((q : Statement) → e.fails q ≡ false)
      → e.decode j.payload ≡ some rj
      → is_empty rj.run_id ≡ false
      → is_empty rj.org_id ≡ false
      → find_run rj.run_id rj.org_id db.runs ≡ some run
      → e.find_agent run.agent_id ≡ some agent
      → e.execute run agent rj.instruction (record db { jobs = js }) ≡ (err error, after)
      → (row : Job) (r : Run) → find_job j.id after.jobs ≡ some row
      → find_run run.id run.org_id after.runs ≡ some r
      → (ltb (j.attempts + 1) j.max_attempts ≡ true)
        ⊎ (is_empty run.initiated_by ≡ true)
        ⊎ (is_user after.users run.initiated_by ≡ true)
      → (d : Job) × (find_job j.id (settle_job now j (run_handler e now db j js)) ≡ some d)
        × (d.status ≡ Status.succeeded)
  failed_run_job_succeeds fine decoded hrun horg found known failed row r kept still told =
      let (quiet, row', here) =
        fail_and_retry_quiet e fine now j row run r agent error after still kept told in
      let answer = handle_run_lem decoded hrun horg found known failed in
      let same : run_handler e now db j js
          ≡ (true, (fail_and_retry e now j run agent error after).1.jobs) =
        rw answer (λ i. (quiet i, (fail_and_retry e now j run agent error after).1.jobs)) in
      (
        unlock Status.succeeded row',
        rw same (settle_true now j row' (fail_and_retry e now j run agent error after).1.jobs here),
        refl,
      )

  -- With no attempts left and an initiator that is no user (the "user:<id>" of a chat run, the
  -- "schedule" of a scheduled one), the notification is refused: nobody is told, the handler
  -- returns an error and the pool marks the job dead. The other conditions are those of
  -- failed_run_job_succeeds.
  pub unnotified_run_job_dies :
      ((q : Statement) → e.fails q ≡ false)
      → e.decode j.payload ≡ some rj
      → is_empty rj.run_id ≡ false
      → is_empty rj.org_id ≡ false
      → find_run rj.run_id rj.org_id db.runs ≡ some run
      → e.find_agent run.agent_id ≡ some agent
      → e.execute run agent rj.instruction (record db { jobs = js }) ≡ (err error, after)
      → (row : Job) (r : Run) → find_job j.id after.jobs ≡ some row
      → find_run run.id run.org_id after.runs ≡ some r
      → ltb (j.attempts + 1) j.max_attempts ≡ false
      → is_empty run.initiated_by ≡ false
      → is_user after.users run.initiated_by ≡ false
      → ((handle_run e now j (record db { jobs = js })).1.notifications ≡ after.notifications)
        × (d : Job) × (find_job j.id (settle_job now j (run_handler e now db j js)) ≡ some d)
        × (d.status ≡ Status.dead)
  unnotified_run_job_dies fine decoded hrun horg found known failed row r kept still last named
        stranger =
      let loud =
        fail_and_retry_loud e fine now j row run r agent error after still kept last named
          stranger in
      let answer = handle_run_lem decoded hrun horg found known failed ∙ loud in
      let here = dead_row e fine now j row run r agent error after still kept in
      (
        rw answer refl,
        unlock Status.dead (unlock Status.dead row),
        rw answer (settle_last now j (unlock Status.dead row) _ last here),
        refl,
      )

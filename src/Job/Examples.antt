-- ===== src/Job/Examples.antt =====
-- Two jobs, one of them due.
use boardchestrator.Prelude.{
  arith, ℕ, ◌+◌, ◌≡◌, refl, Bool, false, true, some, none, [], ◌∷◌, Text, codes, text_eq,
}
use boardchestrator.Job.{
  Status, Job, Jobs, Round, find_job, update_job, claim, process_job, lock, list_queued,
  worker_round,
}
use boardchestrator.Job.Outcome.{ran, answers, fail_rounds, process_job_outcome, failing_job_dies}
use boardchestrator.Job.Table.{find_job-update_ne}
use boardchestrator.Job.Keys.{Distinct}
use boardchestrator.Job.Served.{verdicts, worker_round_serves}
use boardchestrator.Job.Workers.{Exclusive, Reach, begin, next, claims, Reach-Exclusive}

abbrev job : Text → ℕ → Job
job id run_at = record {
  id = id;
  kind = codes "run";
  payload = [];
  run_at = run_at;
  attempts = 0;
  max_attempts = 3;
  status = Status.queued;
  locked_by = none;
}

abbrev due_job : Job
due_job = job (codes "a") 10

abbrev later_job : Job
later_job = job (codes "b") 900000

abbrev table : Jobs
table = later_job ∷ due_job ∷ []

program : Unit {0}
unfolding find_job claim process_job list_queued text_eq
program = tt

listed : list_queued 20 table ≡ due_job ∷ []
unfolding program
listed = refl

process_job_outcome_example :
    (find_job (codes "a") (process_job 20 (codes "w") (answers false) due_job table)
      ≡ some (ran 20 false due_job))
    × ((i : Text)
        → text_eq (codes "a") i ≡ false
        → find_job i (process_job 20 (codes "w") (answers false) due_job table) ≡ find_job i table)
unfolding program
process_job_outcome_example =
    process_job_outcome 20 (codes "w") false due_job due_job table refl refl

abbrev next_job : Job
next_job = job (codes "c") 5

abbrev is_a : Job → Bool
unfolding text_eq
is_a j = text_eq j.id (codes "a")

-- The claim of "a" fails, "c" fails in its handler, and another worker takes "b".
abbrev round : Round
round = record {
  listed_at = 20;
  lists = true;
  claimed_at = λ j. 20;
  settled_at = λ j. 25;
  stopped = λ j. false;
  claim_fails = is_a;
  settle_fails = λ j. false;
  locked_by = λ j. codes "w";
  others = λ j js. update_job (codes "b") (lock (codes "w2/b")) js;
}

worker_round_serves_example :
    (find_job (codes "c") (worker_round round (verdicts is_a) (next_job ∷ table))
      ≡ some (ran 25 false next_job))
    × ((find_job (codes "a") (worker_round round (verdicts is_a) (next_job ∷ table)) ≡ some due_job)
        × Unit {0})
unfolding program Distinct worker_round
worker_round_serves_example =
    worker_round_serves round is_a (λ j. omega arith) (λ j. refl) (next_job ∷ table) refl
      ((refl, (refl, tt)), ((refl, tt), (tt, tt)))
      (
        (λ j js.
            find_job-update_ne (codes "c") (codes "b") (lock (codes "w2/b")) js (λ k. refl) refl),
        (
          (λ j js.
              find_job-update_ne (codes "a") (codes "b") (lock (codes "w2/b")) js (λ k. refl) refl),
          tt,
        ),
      )

failing_job_dies_example :
    (d : Job) × (find_job (codes "a") (fail_rounds 3 20 (codes "w") due_job table) ≡ some d)
    × (d.status ≡ Status.dead)
    × (d.attempts + 1 ≡ 3)
unfolding program
failing_job_dies_example = failing_job_dies 2 20 (codes "w") due_job due_job table refl refl refl

abbrev held_job : Job
held_job = lock (codes "w1/a") due_job

two_steps : Reach table (record {
  jobs = later_job ∷ held_job ∷ [];
  held = record { worker = codes "w1/a"; job = held_job } ∷ [];
})
unfolding program
two_steps = next begin (claims 20 (codes "a") (codes "w1/a") refl)

Reach-Exclusive_example : Exclusive (record { worker = codes "w1/a"; job = held_job } ∷ [])
Reach-Exclusive_example = Reach-Exclusive two_steps

-- ===== src/Job/Served.antt =====
-- internal/job/pool.go: what a round of a worker makes of each of the jobs that it lists.
use boardchestrator.Prelude.{
  ℕ, ◌≡◌, refl, sym, ap, subst, ◌∙◌, inl, inr, Bool, true, false, Option, none, some, [], ◌∷◌, Text,
  text_eq, leb, leb→le, le→leb, ◌≤◌, &&-eq-true, arith, if◌then◌else◌, take, keep, Bool-cases, All,
  All-keep, All-both, All-map_to, All-keep_test, All-take, In→All,
}
use boardchestrator.Job.{
  Job, Jobs, find_job, is_due, lock, claim, Handler, Round, process_claimed, process_job,
  serve_claimed, serve_job, process_batch, is_queued, update_job, settle_job, worker_round,
  sort_by_run_at, list_queued,
}
use boardchestrator.Job.Outcome.{ran, claim_lem, settle_lem, settle_other}
use boardchestrator.Job.Table.{find_job-update_self, find_job-update_ne}
use boardchestrator.Job.Keys.{
  Distinct, text_eq-other_way, Distinct-keep, Distinct-take, All-sort, Distinct-sort,
  find_job-Distinct,
}

-- A handler that leaves the table alone; `f` says which jobs succeed.
abbrev pub verdicts : (Job → Bool) → Handler
verdicts f j js = (f j, js)

-- Where nothing fails, nobody else acts and the clock stands still, it is process_job.
pub serve_job-process_job :
    (r : Round) (handler : Handler) (job : Job) (js : Jobs)
    → r.claim_fails job ≡ false
    → r.settle_fails job ≡ false
    → r.others job js ≡ js
    → r.settled_at job ≡ r.claimed_at job
    → serve_job r handler job js ≡ process_job (r.claimed_at job) (r.locked_by job) handler job js
unfolding serve_job process_job serve_claimed process_claimed
serve_job-process_job r handler job js claims settles alone still =
    simp (claims) (rw alone (after (claim (r.claimed_at job) job.id (r.locked_by job) js)))
  where
    after :
        (c : Option Job × Jobs)
        → serve_claimed r handler job c ≡ process_claimed (r.claimed_at job) handler c
    after (none, js') = refl
    after (some j, js') = simp (settles) (ap (λ t. settle_job t j (handler j js')) still)

-- The row of a job that a round serves: untouched where its claim fails, still running where the
-- statement after its handler fails, and otherwise as `ran` says.
abbrev pub served : Round → (Job → Bool) → Job → Job
served r f j =
    if r.claim_fails j
    then j
    else if r.settle_fails j
    then lock (r.locked_by j) j
    else ran (r.settled_at j) (f (lock (r.locked_by j) j)) j

due_later :
    (before after : ℕ) (j : Job) → before ≤ after → is_due before j ≡ true → is_due after j ≡ true
due_later before after j later due =
    let (queued, on_time) = &&-eq-true (is_queued j.status) (leb j.run_at before) due in
    let le = leb→le j.run_at before on_time in simp (queued, le→leb j.run_at after (omega arith))

-- A job that is in the table as it is listed, and due.
abbrev Ready : ℕ → Jobs → Job → Type 0
Ready now js j = (find_job j.id js ≡ some j) × (is_due now j ≡ true)

module _ (r : Round) (f : Job → Bool) (on_time : (j : Job) → r.listed_at ≤ r.claimed_at j) where
  serve-locked :
      (j : Job) (js : Jobs)
      → find_job j.id js ≡ some j
      → r.settle_fails j ≡ false
      → (find_job j.id (
            settle_job
              (r.settled_at j)
              (lock (r.locked_by j) j)
              (f (lock (r.locked_by j) j), update_job j.id (lock (r.locked_by j)) js))
          ≡ some (ran (r.settled_at j) (f (lock (r.locked_by j) j)) j))
  serve-locked j js found settles =
      settle_lem (r.settled_at j) (f (lock (r.locked_by j) j)) (r.locked_by j) j
        (update_job j.id (lock (r.locked_by j)) js)
        (find_job-update_self j.id (lock (r.locked_by j)) js j (λ k. refl) found)

  serve_job_lem :
      (j : Job) (js : Jobs)
      → Ready r.listed_at (r.others j js) j
      → (find_job j.id (serve_job r (verdicts f) j js) ≡ some (served r f j))
        × ((i : Text)
            → text_eq j.id i ≡ false
            → find_job i (serve_job r (verdicts f) j js) ≡ find_job i (r.others j js))
  unfolding serve_job serve_claimed
  serve_job_lem j js (found, due) = elim (Bool-cases (r.claim_fails j)) [
    | inl skipped ↦ simp (skipped) (found, λ i ne. refl)
    | inr claims ↦
        let who = r.locked_by j in
        let claimed =
          claim_lem (r.claimed_at j) j.id who (r.others j js) j found
            (due_later r.listed_at (r.claimed_at j) j (on_time j) due) in
        elim (Bool-cases (r.settle_fails j)) [
          | inl stuck ↦ simp (claims) (
              rw (claimed, serve_claimed)
                (simp (stuck) (
                  find_job-update_self j.id (lock who) (r.others j js) j (λ k. refl) found,
                  (λ i ne. find_job-update_ne i j.id (lock who) (r.others j js) (λ k. refl) ne),
                )))
          | inr settles ↦ simp (claims) (
              rw (claimed, serve_claimed)
                (simp (settles) (
                  serve-locked j (r.others j js) found settles,
                  (λ i ne.
                      settle_other (r.settled_at j) (f (lock who j)) (lock who j)
                        (update_job j.id (lock who) (r.others j js)) i ne
                      ∙ find_job-update_ne i j.id (lock who) (r.others j js) (λ k. refl) ne),
                )))
        ]
  ]

  -- The others leave the rows of a batch alone.
  abbrev pub Spared : Jobs → Type 0
  Spared batch =
      All (λ (k : Job). (j : Job) (js : Jobs) → find_job k.id (r.others j js) ≡ find_job k.id js)
        batch

  abbrev batch_run : Jobs → Jobs → Jobs
  batch_run batch js = process_batch r (verdicts f) batch js

  module _ (running : (j : Job) → r.stopped j ≡ false) where
    still-Ready :
        (j : Job) (batch js : Jobs)
        → Ready r.listed_at (r.others j js) j
        → All (λ (k : Job). text_eq j.id k.id ≡ false) batch
        → Spared batch
        → All (Ready r.listed_at js) batch
        → All (Ready r.listed_at (serve_job r (verdicts f) j js)) batch
    still-Ready j batch js ready fresh spared h =
        All-map_to _ _ batch
          (λ k (differ, (left, (found, due))).
            ((serve_job_lem j js ready).1 k.id differ ∙ left j js ∙ found, due))
          (All-both _ _ batch fresh (All-both _ _ batch spared h))

    batch_other :
        (batch js : Jobs) (i : Text)
        → Distinct batch
        → Spared batch
        → ((j : Job) (js : Jobs) → find_job i (r.others j js) ≡ find_job i js)
        → All (Ready r.listed_at js) batch
        → All (λ (k : Job). text_eq k.id i ≡ false) batch
        → find_job i (batch_run batch js) ≡ find_job i js
    unfolding process_batch Distinct
    batch_other [] js i keys spared left h differ = refl
    batch_other (j ∷ batch) js i (fresh, keys) (mine, spared) left ((found, due), h)
          (differ, later) =
        let ready : Ready r.listed_at (r.others j js) j = (mine j js ∙ found, due) in
        simp (running j) (
          batch_other batch (serve_job r (verdicts f) j js) i keys spared left
            (still-Ready j batch js ready fresh spared h) later
          ∙ (serve_job_lem j js ready).1 i differ
          ∙ left j js)

    batch_step :
        (j : Job) (batch js : Jobs)
        → batch_run (j ∷ batch) js ≡ batch_run batch (serve_job r (verdicts f) j js)
    unfolding process_batch
    batch_step j batch js = simp (running j)

    served_batch :
        (batch js : Jobs)
        → Distinct batch
        → Spared batch
        → All (Ready r.listed_at js) batch
        → All (λ j. find_job j.id (batch_run batch js) ≡ some (served r f j)) batch
    unfolding process_batch Distinct
    served_batch [] js keys spared h = tt
    served_batch (j ∷ batch) js (fresh, keys) (mine, spared) ((found, due), h) =
        let ready : Ready r.listed_at (r.others j js) j = (mine j js ∙ found, due) in
        let js' = serve_job r (verdicts f) j js in
        let h' = still-Ready j batch js ready fresh spared h in
        subst
          (λ t.
            (find_job j.id t ≡ some (served r f j))
            × All (λ k. find_job k.id t ≡ some (served r f k)) batch)
          (sym (batch_step j batch js))
          (
            batch_other batch js' j.id keys spared mine h'
                  (All-map_to _ _ batch (λ k e. text_eq-other_way j.id k.id e) fresh)
                ∙ (serve_job_lem j js ready).0,
            served_batch batch js' keys spared h',
          )

    -- Each job that a round lists, the first 25 of those due, has the row `served` when the round
    -- ends: where its own statements succeed it is done, queued again or dead, as its handler
    -- answers; where its claim fails it is as it was, and where the statement after the handler
    -- fails it stays running. The conditions: the table has its key, the list is read, the pool is
    -- not stopped, the clock does not go back between the list and a claim, the handler leaves the
    -- table alone, and nobody else, such as another worker, changes the rows listed.
    pub worker_round_serves :
        (js : Jobs)
        → r.lists ≡ true
        → Distinct js
        → Spared (list_queued r.listed_at js)
        → All
            (λ j. find_job j.id (worker_round r (verdicts f) js) ≡ some (served r f j))
            (list_queued r.listed_at js)
    unfolding worker_round list_queued
    worker_round_serves js lists keys spared =
        let due = keep (is_due r.listed_at) js in
        simp (lists) (
          served_batch (take 25 (sort_by_run_at due)) js
            (Distinct-take 25 (sort_by_run_at due)
              (Distinct-sort due (Distinct-keep (is_due r.listed_at) js keys)))
            spared
            (All-take _ 25 (sort_by_run_at due) (
              All-sort _ due (
                All-both _ _ due
                  (All-keep _ (is_due r.listed_at) js
                    (In→All _ js (λ j m. find_job-Distinct js j keys m)))
                  (All-keep_test (is_due r.listed_at) js)))))

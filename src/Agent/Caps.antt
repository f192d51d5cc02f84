-- ===== src/Agent/Caps.antt =====
-- internal/agentrt/engine.go: what the caps of EnqueueRun keep.
use boardchestrator.Prelude.{
  ℕ, suc, ◌≤◌, ◌≡◌, refl, sym, ap, subst, ◌∙◌, inl, inr, ◌⊎◌, Bool, true, false, ◌&&◌, List, [],
  ◌∷◌, ◌++◌, arith, Text, text_eq, text_eq→eq, is_empty, Result, ok, err, ◌>>=◌, if◌then◌else◌,
  Bool-cases, Option-cases, Result-cases, >>=-eq-ok, length, keep, any, ◌==◌, ==_iff, &&-eq-true,
}
use boardchestrator.Agent.Model.{Run}
use boardchestrator.Agent.Trigger.{
  Env, Request, TriggerDb, TriggerError, OrgLimits, Query, active_by_task, active_by_project,
  is_project_run, project_is_free, query_failed, is_task_run, task_is_free, ask, and_then, may_run,
  alert_once, check_cap, new_run, queue_job, create, after_cap, enqueue_run,
}

-- At most one run of a task is queued, running or awaiting approval.
unfoldable pub OnePerTask : List Run → Type 0
OnePerTask runs =
    (task_id org_id : Text)
    → is_empty task_id ≡ false
    → length (keep (is_task_run task_id org_id) runs) ≤ 1

-- The same of the runs of a project.
unfoldable pub OnePerProject : List Run → Type 0
OnePerProject runs =
    (project_id org_id : Text)
    → is_empty project_id ≡ false
    → length (keep (is_project_run project_id org_id) runs) ≤ 1

keep_snoc-false :
    (p : Run → Bool) (x : Run) (xs : List Run)
    → p x ≡ false
    → length (keep p (xs ++ x ∷ [])) ≡ length (keep p xs)
keep_snoc-false p x [] h = simp (h)
keep_snoc-false p x (y ∷ ys) h = elim (Bool-cases (p y)) [
  | inl e ↦ simp (e, keep_snoc-false p x ys h)
  | inr e ↦ simp (e, keep_snoc-false p x ys h)
]

keep_snoc_le :
    (p : Run → Bool) (x : Run) (xs : List Run)
    → length (keep p (xs ++ x ∷ [])) ≤ suc (length (keep p xs))
keep_snoc_le p x [] = elim (Bool-cases (p x)) [
  | inl e ↦ simp (e) (omega arith)
  | inr e ↦ simp (e) (omega arith)
]
keep_snoc_le p x (y ∷ ys) =
    let ih = keep_snoc_le p x ys in
    elim (Bool-cases (p y)) [ inl e ↦ simp (e) (omega arith) | inr e ↦ simp (e) ih ]

module _ {M : Type 0} (v : Env M) where
  -- How a call leaves the runs: as they were, or with the new run, which the checks let through.
  Kept : Request → TriggerDb → TriggerDb → Type 0
  Kept r s s' = (s'.runs ≡ s.runs) ⊎ (s'.runs ≡ s.runs ++ new_run v r ∷ [])

  queue_job_runs : (r : Request) (s : TriggerDb) → (queue_job v r s).1.runs ≡ s.runs
  unfolding queue_job
  queue_job_runs r s = ground arith

  create_runs : (r : Request) (s : TriggerDb) → Kept r s (create v r s).1
  unfolding create Kept
  create_runs r s = elim (Bool-cases (any (λ x. text_eq x.id v.new_id) s.runs)) [
    | inl e ↦ inl (simp (e))
    | inr e ↦ inr (simp (e) (queue_job_runs r (record s { runs = s.runs ++ new_run v r ∷ [] })))
  ]

  alert_once_runs :
      (org_id : Text) (o : OrgLimits M) (spent : M) (s : TriggerDb)
      → (alert_once v org_id o spent s).runs ≡ s.runs
  unfolding alert_once
  alert_once_runs org_id o spent s = ground arith

  pub and_then-true :
      (test rest : Result TriggerError Bool)
      → and_then v test rest ≡ ok true
      → (test ≡ ok true) × (rest ≡ ok true)
  and_then-true (ok true) rest h = (refl, h)
  and_then-true (ok false) rest h = cc
  and_then-true (err e) rest h = cc

  ok_if :
      {A : Type 0} (b : Bool) (e : TriggerError) {x y : A}
      → (if b then err e else ok x) ≡ ok y
      → x ≡ y
  ok_if true e h = cc
  ok_if false e h = cc

  ok_eq : {x y : Bool} → ◌≡◌ {A = Result TriggerError Bool} (ok x) (ok y) → x ≡ y
  ok_eq h = cc

  -- A count that is asked for and tested.
  pub tested :
      (q : Query) (n : ℕ) (test : ℕ → Bool)
      → (ask v q n >>= (λ m. ok (test m))) ≡ ok true
      → test n ≡ true
  tested q n test h =
      let (m, asked, answer) = >>=-eq-ok (ask v q n) (λ m. ok (test m)) h in
      ap test (ok_if (v.fails q) (query_failed q) asked) ∙ ok_eq answer

  -- A task that is free has no active run.
  pub task_is_free_lem :
      (r : Request) (runs : List Run)
      → is_empty r.task_id ≡ false
      → task_is_free v r runs ≡ ok true
      → length (keep (is_task_run r.task_id r.org_id) runs) ≡ 0
  unfolding task_is_free
  task_is_free_lem r runs named h =
      let n = length (keep (is_task_run r.task_id r.org_id) runs) in
      let asked : task_is_free v r runs ≡ (ask v active_by_task n >>= (λ m. ok (m == 0))) =
        simp (named) in
      (==_iff n 0).0 (tested active_by_task n (λ m. m == 0) (sym asked ∙ h))

  pub project_is_free_lem :
      (r : Request) (runs : List Run)
      → is_empty r.project_id ≡ false
      → project_is_free v r runs ≡ ok true
      → length (keep (is_project_run r.project_id r.org_id) runs) ≡ 0
  unfolding project_is_free
  project_is_free_lem r runs named h =
      let n = length (keep (is_project_run r.project_id r.org_id) runs) in
      let asked : project_is_free v r runs ≡ (ask v active_by_project n >>= (λ m. ok (m == 0))) =
        simp (named) in
      (==_iff n 0).0 (tested active_by_project n (λ m. m == 0) (sym asked ∙ h))

  check_cap_runs :
      (org_id : Text) (o : OrgLimits M) (s : TriggerDb) → (check_cap v org_id o s).1.runs ≡ s.runs
  unfolding check_cap
  check_cap_runs org_id o s = elim (Bool-cases (v.money.is_positive o.monthly_cap)) [
    | inr free ↦ simp (free)
    | inl capped ↦ elim (Option-cases (v.spend s.runs org_id)) [
      | inl none_spent ↦ simp (capped) (rw (none_spent, check_cap) refl)
      | inr (spent, e) ↦ simp (capped) (rw (e, check_cap) (alert_once_runs org_id o spent s))
    ]
  ]

  after_cap_runs :
      (r : Request) (s : TriggerDb) (out : Result TriggerError (Unit {0}) × TriggerDb)
      → out.1.runs ≡ s.runs
      → Kept r s (after_cap v r out).1
  unfolding after_cap Kept
  after_cap_runs r s (err e, s') same = inl same
  after_cap_runs r s (ok u, s') same = elim (create_runs r s') [
    | inl kept ↦ inl (kept ∙ same)
    | inr added ↦ inr (added ∙ ap (λ runs. runs ++ new_run v r ∷ []) same)
  ]

  -- The runs change only where the checks pass, and then by the new run.
  pub enqueue_run_runs :
      (r : Request) (s : TriggerDb)
      → ((enqueue_run v r s).1.runs ≡ s.runs)
        ⊎ (may_run v r s.runs ≡ ok true) × ((enqueue_run v r s).1.runs ≡ s.runs ++ new_run v r ∷ [])
  unfolding enqueue_run Kept
  enqueue_run_runs r s = elim (Result-cases (may_run v r s.runs)) [
    | inr (e, failed) ↦ inl (rw (failed, enqueue_run) refl)
    | inl (false, stopped) ↦ inl (rw (stopped, enqueue_run) refl)
    | inl (true, passed) ↦ elim (Option-cases (v.org r.org_id)) [
      | inl missing ↦ inl (rw (passed, enqueue_run) (rw (missing, enqueue_run) refl))
      | inr (o, found) ↦
          elim (after_cap_runs r s (check_cap v r.org_id o s) (check_cap_runs r.org_id o s)) [
            | inl kept ↦ inl (rw (passed, enqueue_run) (rw (found, enqueue_run) kept))
            | inr added ↦ inr (passed, rw (passed, enqueue_run) (rw (found, enqueue_run) added))
          ]
    ]
  ]

  same_task :
      (r : Request) (task_id org_id : Text)
      → is_task_run task_id org_id (new_run v r) ≡ true
      → (r.task_id ≡ task_id) × (r.org_id ≡ org_id)
  unfolding is_task_run
  same_task r task_id org_id h =
      let (both, _) = &&-eq-true (text_eq r.task_id task_id && text_eq r.org_id org_id) true h in
      let (task, org) = &&-eq-true (text_eq r.task_id task_id) (text_eq r.org_id org_id) both in
      (text_eq→eq r.task_id task_id task, text_eq→eq r.org_id org_id org)

  same_project :
      (r : Request) (project_id org_id : Text)
      → is_project_run project_id org_id (new_run v r) ≡ true
      → (r.project_id ≡ project_id) × (r.org_id ≡ org_id)
  unfolding is_project_run
  same_project r project_id org_id h =
      let (both, _) =
        &&-eq-true (text_eq r.project_id project_id && text_eq r.org_id org_id) true h in
      let (project, org) =
        &&-eq-true (text_eq r.project_id project_id) (text_eq r.org_id org_id) both in
      (text_eq→eq r.project_id project_id project, text_eq→eq r.org_id org_id org)

  may_run-tests :
      (r : Request) (runs : List Run)
      → may_run v r runs ≡ ok true
      → (task_is_free v r runs ≡ ok true) × (project_is_free v r runs ≡ ok true)
  unfolding may_run
  may_run-tests r runs passed =
      let (task, rest) = and_then-true (task_is_free v r runs) _ passed in
      let (project, _) = and_then-true (project_is_free v r runs) _ rest in (task, project)

  -- A run of another task leaves the count, and one of this task finds it at zero.
  added-OnePerTask :
      (r : Request) (runs : List Run)
      → task_is_free v r runs ≡ ok true
      → OnePerTask runs
      → OnePerTask (runs ++ new_run v r ∷ [])
  unfolding OnePerTask
  added-OnePerTask r runs task one task_id org_id named =
      let p = is_task_run task_id org_id in
      elim (Bool-cases (p (new_run v r))) [
        | inr e ↦
            subst (λ n. n ≤ 1) (sym (keep_snoc-false p (new_run v r) runs e))
              (one task_id org_id named)
        | inl e ↦
            let (t, o) = same_task r task_id org_id e in
            let named' : is_empty r.task_id ≡ false = rw t named in
            let free : length (keep (is_task_run r.task_id r.org_id) runs) ≡ 0 =
              task_is_free_lem r runs named' task in
            let here : length (keep p runs) ≡ 0 =
              subst (λ y. length (keep (is_task_run task_id y) runs) ≡ 0) o
                (subst (λ x. length (keep (is_task_run x r.org_id) runs) ≡ 0) t free) in
            let bound = keep_snoc_le p (new_run v r) runs in omega arith
      ]

  added-OnePerProject :
      (r : Request) (runs : List Run)
      → project_is_free v r runs ≡ ok true
      → OnePerProject runs
      → OnePerProject (runs ++ new_run v r ∷ [])
  unfolding OnePerProject
  added-OnePerProject r runs project one project_id org_id named =
      let p = is_project_run project_id org_id in
      elim (Bool-cases (p (new_run v r))) [
        | inr e ↦
            subst (λ n. n ≤ 1) (sym (keep_snoc-false p (new_run v r) runs e))
              (one project_id org_id named)
        | inl e ↦
            let (t, o) = same_project r project_id org_id e in
            let named' : is_empty r.project_id ≡ false = rw t named in
            let free : length (keep (is_project_run r.project_id r.org_id) runs) ≡ 0 =
              project_is_free_lem r runs named' project in
            let here : length (keep p runs) ≡ 0 =
              subst (λ y. length (keep (is_project_run project_id y) runs) ≡ 0) o
                (subst (λ x. length (keep (is_project_run x r.org_id) runs) ≡ 0) t free) in
            let bound = keep_snoc_le p (new_run v r) runs in omega arith
      ]

  -- EnqueueRun keeps the caps of one: where at most one run of each task and of each project is
  -- queued, running or awaiting approval before a call, the same holds after it, also where the
  -- call fails.
  pub enqueue_run_keeps_caps :
      (r : Request) (s : TriggerDb)
      → OnePerTask s.runs
      → OnePerProject s.runs
      → OnePerTask (enqueue_run v r s).1.runs × OnePerProject (enqueue_run v r s).1.runs
  enqueue_run_keeps_caps r s per_task per_project = elim (enqueue_run_runs r s) [
    | inl same ↦ (subst OnePerTask (sym same) per_task, subst OnePerProject (sym same) per_project)
    | inr (passed, added) ↦
        let (task, project) = may_run-tests r s.runs passed in
        (
          subst OnePerTask (sym added) (added-OnePerTask r s.runs task per_task),
          subst OnePerProject (sym added) (added-OnePerProject r s.runs project per_project),
        )
  ]

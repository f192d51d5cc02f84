-- ===== src/Agent/Created.antt =====
-- internal/agentrt/engine.go: what a run that EnqueueRun creates has passed.
use boardchestrator.Prelude.{
  ◌≡◌, refl, sym, ap, ◌∙◌, inl, inr, ◌⊎◌, Bool, true, false, Option, none, some, [], ◌∷◌, ◌++◌,
  arith, Text, codes, text_eq, any, Result, ok, err, if◌then◌else◌, Bool-cases, Option-cases,
  Result-cases,
}
use boardchestrator.Job.{enqueue}
use boardchestrator.Agent.Trigger.{
  Env, Request, TriggerDb, TriggerError, OrgLimits, cap_reached, marshal_failed, enqueue_job_failed,
  create_run_failed, find_org, query_failed, org_spend, payload_of, max_attempts, may_run,
  alert_once, check_cap, new_run, queue_job, create, after_cap, enqueue_run,
}
use boardchestrator.Agent.Passed.{Passed, may_run-Passed}

module _ {M : Type 0} (v : Env M) where
  -- The cap of an org stops nothing, or the spend is read and is below it.
  pub Within : Text → TriggerDb → Type 0
  Within org_id s =
      (o : OrgLimits M) × (v.org org_id ≡ some o)
      × ((v.money.is_positive o.monthly_cap ≡ false)
          ⊎ ((spent : M) × (v.spend s.runs org_id ≡ some spent)
              × (v.money.reaches spent o.monthly_cap ≡ false)))

  reached :
      (b : Bool)
      → ◌≡◌ {A = Result TriggerError (Unit {0})} (if b then err cap_reached else ok tt) (ok tt)
      → b ≡ false
  reached true h = cc
  reached false h = refl

  not_ok : {e : TriggerError} → ◌≡◌ {A = Result TriggerError (Unit {0})} (err e) (ok tt) → ⊥
  not_ok h = cc

  check_cap-Within :
      (org_id : Text) (o : OrgLimits M) (s : TriggerDb)
      → v.org org_id ≡ some o
      → (check_cap v org_id o s).0 ≡ ok tt
      → Within org_id s
  unfolding check_cap Within
  check_cap-Within org_id o s found h = elim (Bool-cases (v.money.is_positive o.monthly_cap)) [
    | inr free ↦ (o, found, inl free)
    | inl capped ↦ elim (Option-cases (v.spend s.runs org_id)) [
      | inl unread ↦
          let failed : (check_cap v org_id o s).0 ≡ err (query_failed org_spend) =
            simp (capped) (rw (unread, check_cap) refl) in
          absurd (not_ok (sym failed ∙ h))
      | inr (spent, e) ↦
          let tested : (check_cap v org_id o s).0
              ≡ (if v.money.reaches spent o.monthly_cap then err cap_reached else ok tt) =
            simp (capped) (rw (e, check_cap) refl) in
          (o, found, inr (spent, e, reached (v.money.reaches spent o.monthly_cap) (sym tested ∙ h)))
    ]
  ]

  -- A run and its job, as a call writes them.
  pub record Created (r : Request) (s s' : TriggerDb) (id : Text) : Type 0 where
    pub passed : Passed v r s.runs
    pub within : Within r.org_id s
    pub named : id ≡ v.new_id
    pub added : s'.runs ≡ s.runs ++ new_run v r ∷ []
    pub queued :
        (payload : Text) × (v.marshal (payload_of v r) ≡ some payload)
        × (enqueue v.new_id (codes "run") payload v.now max_attempts s.jobs ≡ some s'.jobs)

  alert_once_tables :
      (org_id : Text) (o : OrgLimits M) (spent : M) (s : TriggerDb)
      → ((alert_once v org_id o spent s).runs ≡ s.runs)
        × ((alert_once v org_id o spent s).jobs ≡ s.jobs)
  unfolding alert_once
  alert_once_tables org_id o spent s = ground arith

  check_cap_tables :
      (org_id : Text) (o : OrgLimits M) (s : TriggerDb)
      → ((check_cap v org_id o s).1.runs ≡ s.runs) × ((check_cap v org_id o s).1.jobs ≡ s.jobs)
  unfolding check_cap
  check_cap_tables org_id o s = elim (Bool-cases (v.money.is_positive o.monthly_cap)) [
    | inr free ↦ simp (free) (refl, refl)
    | inl capped ↦ elim (Option-cases (v.spend s.runs org_id)) [
      | inl unread ↦ simp (capped) (rw (unread, check_cap) (refl, refl))
      | inr (spent, e) ↦ simp (capped) (rw (e, check_cap) (alert_once_tables org_id o spent s))
    ]
  ]

  abbrev Answer : Type 0
  Answer = Result TriggerError (Option Text)

  not_created : {e : TriggerError} {id : Text} → ◌≡◌ {A = Answer} (err e) (ok (some id)) → ⊥
  not_created h = cc

  -- The job of a run that is created stands in the table.
  queue_job_created :
      (r : Request) (s : TriggerDb) (id : Text)
      → (queue_job v r s).0 ≡ ok (some id)
      → (id ≡ v.new_id)
        × ((queue_job v r s).1.runs ≡ s.runs)
        × ((payload : Text) × (v.marshal (payload_of v r) ≡ some payload)
            × (enqueue v.new_id (codes "run") payload v.now max_attempts s.jobs
                ≡ some (queue_job v r s).1.jobs))
  unfolding queue_job
  queue_job_created r s id h = elim (Option-cases (v.marshal (payload_of v r))) [
    | inl e ↦
        let same : queue_job v r s ≡ (err marshal_failed, s) = rw (e, queue_job) refl in
        absurd (not_created (ap (λ (x : Answer × TriggerDb). x.0) (sym same) ∙ h))
    | inr (payload, e) ↦
        elim (Option-cases (enqueue v.new_id (codes "run") payload v.now max_attempts s.jobs)) [
          | inl full ↦
              let same : queue_job v r s ≡ (err enqueue_job_failed, s) =
                rw (e, queue_job) (rw (full, queue_job) refl) in
              absurd (not_created (ap (λ (x : Answer × TriggerDb). x.0) (sym same) ∙ h))
          | inr (jobs, e') ↦
              let same : queue_job v r s ≡ (ok (some v.new_id), record s { jobs = jobs }) =
                rw (e, queue_job) (rw (e', queue_job) refl) in
              let given : ◌≡◌ {A = Answer} (ok (some v.new_id)) (ok (some id)) =
                ap (λ (x : Answer × TriggerDb). x.0) (sym same) ∙ h in
              (
                cc,
                ap (λ (x : Answer × TriggerDb). x.1.runs) same,
                (payload, e, e' ∙ ap (λ (x : Answer × TriggerDb). some x.1.jobs) (sym same)),
              )
        ]
  ]

  create_created :
      (r : Request) (s : TriggerDb) (id : Text)
      → (create v r s).0 ≡ ok (some id)
      → (id ≡ v.new_id)
        × ((create v r s).1.runs ≡ s.runs ++ new_run v r ∷ [])
        × ((payload : Text) × (v.marshal (payload_of v r) ≡ some payload)
            × (enqueue v.new_id (codes "run") payload v.now max_attempts s.jobs
                ≡ some (create v r s).1.jobs))
  unfolding create
  create_created r s id h = elim (Bool-cases (any (λ x. text_eq x.id v.new_id) s.runs)) [
    | inl e ↦
        let same : create v r s ≡ (err create_run_failed, s) = simp (e) in
        absurd (not_created (ap (λ (x : Answer × TriggerDb). x.0) (sym same) ∙ h))
    | inr e ↦
        let s₁ = record s { runs = s.runs ++ new_run v r ∷ [] } in
        let same : create v r s ≡ queue_job v r s₁ = simp (e) in
        rw same (queue_job_created r s₁ id (ap (λ (x : Answer × TriggerDb). x.0) (sym same) ∙ h))
  ]

  after_cap-Created :
      (r : Request) (s : TriggerDb) (id : Text) (out : Result TriggerError (Unit {0}) × TriggerDb)
      → Passed v r s.runs
      → (out.0 ≡ ok tt → Within r.org_id s)
      → out.1.runs ≡ s.runs
      → out.1.jobs ≡ s.jobs
      → (after_cap v r out).0 ≡ ok (some id)
      → Created r s (after_cap v r out).1 id
  unfolding after_cap
  after_cap-Created r s id (err e, s') passed within runs jobs h = absurd (not_created h)
  after_cap-Created r s id (ok u, s') passed within runs jobs h =
      let (named, added, (payload, marshalled, queued)) = create_created r s' id h in
      record {
        passed = passed;
        within = within refl;
        named = named;
        added = added ∙ ap (λ t. t ++ new_run v r ∷ []) runs;
        queued = (
          payload,
          marshalled,
          ap (λ t. enqueue v.new_id (codes "run") payload v.now max_attempts t) (sym jobs) ∙ queued,
        );
      }

  -- A call that answers with a run's id names no task or one that has no active run in the org, and
  -- the same of a project. Its agent is found, with no hourly cap or fewer counted runs in the last
  -- hour, and with no token budget or fewer tokens since the month's start. The org has no monthly
  -- cap, or its spend is read and below it. The run is then queued under that id, and so is its job.
  pub enqueue_run-Created :
      (r : Request) (s : TriggerDb) (id : Text)
      → (enqueue_run v r s).0 ≡ ok (some id)
      → Created r s (enqueue_run v r s).1 id
  unfolding enqueue_run
  enqueue_run-Created r s id h = elim (Result-cases (may_run v r s.runs)) [
    | inr (e, failed) ↦
        let same : enqueue_run v r s ≡ (err e, s) = rw (failed, enqueue_run) refl in
        absurd (not_created (ap (λ (x : Answer × TriggerDb). x.0) (sym same) ∙ h))
    | inl (false, stopped) ↦
        let same : enqueue_run v r s ≡ (ok none, s) = rw (stopped, enqueue_run) refl in
        let skipped : ◌≡◌ {A = Answer} (ok none) (ok (some id)) =
          ap (λ (x : Answer × TriggerDb). x.0) (sym same) ∙ h in
        cc
    | inl (true, passed) ↦ elim (Option-cases (v.org r.org_id)) [
      | inl missing ↦
          let same : enqueue_run v r s ≡ (err (query_failed find_org), s) =
            rw (passed, enqueue_run) (rw (missing, enqueue_run) refl) in
          absurd (not_created (ap (λ (x : Answer × TriggerDb). x.0) (sym same) ∙ h))
      | inr (o, found) ↦
          let same : enqueue_run v r s ≡ after_cap v r (check_cap v r.org_id o s) =
            rw (passed, enqueue_run) (rw (found, enqueue_run) refl) in
          let (runs, jobs) = check_cap_tables r.org_id o s in
          rw same (
            after_cap-Created r s id (check_cap v r.org_id o s) (may_run-Passed v r s.runs passed)
              (check_cap-Within r.org_id o s found) runs jobs
              (ap (λ (x : Answer × TriggerDb). x.0) (sym same) ∙ h))
    ]
  ]

-- ===== src/Agent/Alerts.antt =====
-- internal/agentrt/engine.go: the alert of EnqueueRun, its hard stop, and the hourly cap.
use boardchestrator.Prelude.{
  ◌-◌, ◌≡◌, refl, ◌∙◌, inl, inr, ◌⊎◌, Bool, true, false, ◌&&◌, not, List, [], ◌∷◌, ◌++◌, arith,
  Text, Result, ok, err, Bool-cases, Option-cases, Result-cases, length, keep, ltb, &&-eq-true, All,
}
use boardchestrator.Agent.Model.{RunStatus, Run}
use boardchestrator.Agent.Trigger.{
  Env, Request, TriggerDb, TriggerError, OrgLimits, AgentLimits, is_agent_run, is_counted,
  is_alerted, may_run, alert_once, check_cap, new_run, queue_job, create, after_cap, enqueue_run,
  is_below_hourly, hour, in_window,
}

not-true : (b : Bool) → not b ≡ true → b ≡ false
not-true b e = ground arith

-- A status that ends a run well or badly, without a cancellation.
abbrev pub is_over : RunStatus → Bool
is_over RunStatus.succeeded = true
is_over RunStatus.failed = true
is_over _ = false

over-counted : (s : RunStatus) → is_over s ≡ true → is_counted s ≡ false
over-counted RunStatus.succeeded h = refl
over-counted RunStatus.failed h = refl
over-counted RunStatus.queued h = cc
over-counted RunStatus.running h = cc
over-counted RunStatus.awaiting_approval h = cc
over-counted RunStatus.cancelled h = cc

none_counted :
    (p : Run → Bool) (runs : List Run)
    → All (λ x. is_over x.status ≡ true) runs
    → length (keep (λ x. p x && is_counted x.status) runs) ≡ 0
none_counted p [] h = refl
none_counted p (x ∷ xs) (over, rest) = elim (Bool-cases (p x)) [
  | inl e ↦ simp (e, over-counted x.status over, none_counted p xs rest)
  | inr e ↦ simp (e, none_counted p xs rest)
]

module _ {M : Type 0} (v : Env M) where
  -- No alert, or the one alert of an org that has had none.
  pub Alerted : Text → TriggerDb → TriggerDb → Type 0
  Alerted org_id s s' =
      (s'.cap_alerted ≡ s.cap_alerted) × (s'.alerts ≡ s.alerts)
      ⊎ (is_alerted org_id s.cap_alerted ≡ false)
        × (s'.cap_alerted ≡ org_id ∷ s.cap_alerted)
        × (s'.alerts ≡ s.alerts ++ org_id ∷ [])

  alert_once-Alerted :
      (org_id : Text) (o : OrgLimits M) (spent : M) (s : TriggerDb)
      → Alerted org_id s (alert_once v org_id o spent s)
  unfolding alert_once Alerted
  alert_once-Alerted org_id o spent s =
      let alerts =
        v.has_alert
        && v.money.is_positive o.alert_pct
        && v.money.reaches spent (v.money.threshold o.monthly_cap o.alert_pct) in
      elim (Bool-cases (alerts && not (is_alerted org_id s.cap_alerted))) [
        | inl e ↦
            let (_, first) = &&-eq-true alerts (not (is_alerted org_id s.cap_alerted)) e in
            simp (e) (inr (not-true (is_alerted org_id s.cap_alerted) first, refl, refl))
        | inr e ↦ simp (e) (inl (refl, refl))
      ]

  check_cap-Alerted :
      (org_id : Text) (o : OrgLimits M) (s : TriggerDb)
      → Alerted org_id s (check_cap v org_id o s).1
  unfolding check_cap Alerted
  check_cap-Alerted org_id o s = elim (Bool-cases (v.money.is_positive o.monthly_cap)) [
    | inr free ↦ simp (free) (inl (refl, refl))
    | inl capped ↦ elim (Option-cases (v.spend s.runs org_id)) [
      | inl none_spent ↦ simp (capped) (rw (none_spent, check_cap) (inl (refl, refl)))
      | inr (spent, e) ↦ simp (capped) (rw (e, check_cap) (alert_once-Alerted org_id o spent s))
    ]
  ]

  queue_job_alerts :
      (r : Request) (s : TriggerDb)
      → ((queue_job v r s).1.cap_alerted ≡ s.cap_alerted) × ((queue_job v r s).1.alerts ≡ s.alerts)
  unfolding queue_job
  queue_job_alerts r s = ground arith

  create_alerts :
      (r : Request) (s : TriggerDb)
      → ((create v r s).1.cap_alerted ≡ s.cap_alerted) × ((create v r s).1.alerts ≡ s.alerts)
  unfolding create
  create_alerts r s =
      let added = queue_job_alerts r (record s { runs = s.runs ++ new_run v r ∷ [] }) in
      ground arith

  after_cap-Alerted :
      (r : Request) (s : TriggerDb) (out : Result TriggerError (Unit {0}) × TriggerDb)
      → Alerted r.org_id s out.1
      → Alerted r.org_id s (after_cap v r out).1
  unfolding after_cap Alerted
  after_cap-Alerted r s (err e, s') h = h
  after_cap-Alerted r s (ok u, s') h =
      let (orgs, calls) = create_alerts r s' in
      elim h [
        | inl (orgs', calls') ↦ inl (orgs ∙ orgs', calls ∙ calls')
        | inr (first, orgs', calls') ↦ inr (first, orgs ∙ orgs', calls ∙ calls')
      ]

  -- A call raises at most one alert, and only for an org that has had none: it then marks the
  -- org, so that no later call raises another.
  pub enqueue_run-Alerted : (r : Request) (s : TriggerDb) → Alerted r.org_id s (enqueue_run v r s).1
  unfolding enqueue_run Alerted
  enqueue_run-Alerted r s = elim (Result-cases (may_run v r s.runs)) [
    | inr (e, failed) ↦ inl (rw (failed, enqueue_run) (refl, refl))
    | inl (false, stopped) ↦ inl (rw (stopped, enqueue_run) (refl, refl))
    | inl (true, passed) ↦ elim (Option-cases (v.org r.org_id)) [
      | inl missing ↦ inl (rw (passed, enqueue_run) (rw (missing, enqueue_run) (refl, refl)))
      | inr (o, found) ↦
          rw (passed, enqueue_run)
            (rw (found, enqueue_run)
              (after_cap-Alerted r s (check_cap v r.org_id o s) (check_cap-Alerted r.org_id o s)))
    ]
  ]

  -- Where at most runs that have succeeded or failed are in the table, no hourly cap stops a
  -- run, however many of them the agent has had in the last hour: the query counts the status
  -- 'finished', which no run has.
  pub is_below_hourly_blind :
      (r : Request) (a : AgentLimits) (runs : List Run)
      → v.fails in_window ≡ false
      → All (λ x. is_over x.status ≡ true) runs
      → is_below_hourly v r a runs ≡ ok true
  unfolding is_below_hourly
  is_below_hourly_blind r a runs answers over = elim (Bool-cases (ltb 0 a.runs_per_hour)) [
    | inr e ↦ simp (e)
    | inl e ↦
        simp (e, answers, none_counted (is_agent_run r.agent_id r.org_id (v.now - hour)) runs over)
  ]

-- ===== src/Agent/Trigger.antt =====
-- internal/agentrt/engine.go: EnqueueRun, with the counts of internal/db/queries (runs.sql and
-- cost_controls.sql). Money is a parameter: the source compares and scales floating-point numbers.
use boardchestrator.Prelude.{
  ℕ, ◌+◌, ◌-◌, Bool, true, false, ◌&&◌, not, Option, none, some, List, [], ◌∷◌, ◌++◌, Text, codes,
  text_eq, is_empty, Result, ok, err, ◌>>=◌, if◌then◌else◌, length, keep, any, leb, ltb, ◌==◌,
}
use boardchestrator.Job.{Jobs, enqueue}
use boardchestrator.Agent.Model.{RunStatus, Run}
use boardchestrator.Agent.Retry.{RunJob}

pub data Query : Type 0 where
  active_by_task active_by_project find_agent in_window tokens find_org org_spend : Query

pub data TriggerError : Type 0 where
  query_failed : Query → TriggerError
  cap_reached create_run_failed marshal_failed enqueue_job_failed : TriggerError

pub record AgentLimits : Type 0 where
  pub runs_per_hour : ℕ
  pub token_budget : ℕ

pub record OrgLimits (M : Type 0) : Type 0 where
  pub monthly_cap : M
  pub alert_pct : M

-- The comparisons on money: `> 0`, `>=`, and the cap times the percentage over 100.
pub record Money (M : Type 0) : Type 0 where
  pub is_positive : M → Bool
  pub reaches : M → M → Bool
  pub threshold : M → M → M

-- The arguments of EnqueueRun.
pub record Request : Type 0 where
  pub org_id : Text
  pub agent_id : Text
  pub trigger : Text
  pub task_id : Text
  pub chat_session_id : Text
  pub project_id : Text
  pub initiated_by : Text
  pub instruction : Text

-- The tables, the orgs of capAlerted, and the calls of onCapAlert in order.
pub record TriggerDb : Type 0 where
  pub runs : List Run
  pub jobs : Jobs
  pub cap_alerted : List Text
  pub alerts : List Text

-- What a call reads besides the tables: the failures of queries, the agent and the org, the
-- clock in milliseconds, the new id, and encoding/json. `has_alert` is onCapAlert != nil.
pub record Env (M : Type 0) : Type 0 where
  pub fails : Query → Bool
  pub agent : Text → Option AgentLimits
  pub org : Text → Option (OrgLimits M)
  pub spend : List Run → Text → Option M
  pub now : ℕ
  pub month_start : ℕ
  pub new_id : Text
  pub marshal : RunJob → Option Text
  pub has_alert : Bool
  pub money : Money M

-- status IN ('queued', 'running', 'awaiting_approval')
abbrev pub is_active : RunStatus → Bool
is_active RunStatus.queued = true
is_active RunStatus.running = true
is_active RunStatus.awaiting_approval = true
is_active _ = false

-- status IN ('queued', 'running', 'awaiting_approval', 'finished', 'cancelled'): no run has the
-- status 'finished'.
abbrev pub is_counted : RunStatus → Bool
is_counted RunStatus.cancelled = true
is_counted s = is_active s

unfoldable pub is_task_run : Text → Text → Run → Bool
unfolding text_eq
is_task_run task_id org_id r =
    text_eq r.task_id task_id && text_eq r.org_id org_id && is_active r.status

unfoldable pub is_project_run : Text → Text → Run → Bool
unfolding text_eq
is_project_run project_id org_id r =
    text_eq r.project_id project_id && text_eq r.org_id org_id && is_active r.status

unfoldable pub is_agent_run : Text → Text → ℕ → Run → Bool
unfolding text_eq
is_agent_run agent_id org_id since r =
    text_eq r.agent_id agent_id && text_eq r.org_id org_id && leb since r.created_at

abbrev pub sum_tokens : List Run → ℕ
sum_tokens [] = 0
sum_tokens (r ∷ rs) = r.prompt_tokens + r.completion_tokens + sum_tokens rs

unfoldable pub is_alerted : Text → List Text → Bool
unfolding text_eq
is_alerted org_id = any (text_eq org_id)

abbrev pub hour : ℕ
hour = 3600000

abbrev pub max_attempts : ℕ
max_attempts = 3

abbrev pub needed : {A : Type 0} → Query → Option A → Result TriggerError A
needed q none = err (query_failed q)
needed q (some a) = ok a

module _ {M : Type 0} (v : Env M) where
  -- One query, which fails or gives its answer.
  abbrev pub ask : {A : Type 0} → Query → A → Result TriggerError A
  ask q a = if v.fails q then err (query_failed q) else ok a

  -- Each test answers true where the run may go on.
  unfoldable pub task_is_free : Request → List Run → Result TriggerError Bool
  unfolding is_task_run
  task_is_free r runs = if is_empty r.task_id then ok true else do
    n ← ask active_by_task (length (keep (is_task_run r.task_id r.org_id) runs))
    ok (n == 0)

  unfoldable pub project_is_free : Request → List Run → Result TriggerError Bool
  unfolding is_project_run
  project_is_free r runs = if is_empty r.project_id then ok true else do
    n ← ask active_by_project (length (keep (is_project_run r.project_id r.org_id) runs))
    ok (n == 0)

  unfoldable pub is_below_hourly : Request → AgentLimits → List Run → Result TriggerError Bool
  unfolding is_agent_run
  is_below_hourly r a runs = if not (ltb 0 a.runs_per_hour) then ok true else do
    n ← ask in_window (
        length (
          keep (λ x. is_agent_run r.agent_id r.org_id (v.now - hour) x && is_counted x.status)
            runs))
    ok (ltb n a.runs_per_hour)

  unfoldable pub is_below_budget : Request → AgentLimits → List Run → Result TriggerError Bool
  unfolding is_agent_run
  is_below_budget r a runs = if not (ltb 0 a.token_budget) then ok true else do
    n ← ask tokens (sum_tokens (keep (is_agent_run r.agent_id r.org_id v.month_start) runs))
    ok (ltb n a.token_budget)

  -- `if !ok { return "", false, nil }`, then the rest.
  abbrev pub and_then :
      Result TriggerError Bool → Result TriggerError Bool → Result TriggerError Bool
  and_then test rest = test >>= λ b. if b then rest else ok false

  -- The checks of the tasks, the projects and the agents, in order.
  unfoldable pub may_run : Request → List Run → Result TriggerError Bool
  unfolding task_is_free project_is_free is_below_hourly is_below_budget
  may_run r runs = and_then (task_is_free r runs) (
      and_then (project_is_free r runs) (
        needed find_agent (v.agent r.agent_id) >>= λ a.
        and_then (is_below_hourly r a runs) (is_below_budget r a runs)))

  -- The alert, once per org.
  unfoldable pub alert_once : Text → OrgLimits M → M → TriggerDb → TriggerDb
  unfolding is_alerted
  alert_once org_id o spent s =
      if v.has_alert
        && v.money.is_positive o.alert_pct
        && v.money.reaches spent (v.money.threshold o.monthly_cap o.alert_pct)
        && not (is_alerted org_id s.cap_alerted)
      then record s { cap_alerted = org_id ∷ s.cap_alerted; alerts = s.alerts ++ org_id ∷ [] }
      else s

  -- The monthly cap of an org that is found.
  unfoldable pub check_cap :
      Text → OrgLimits M → TriggerDb → Result TriggerError (Unit {0}) × TriggerDb
  unfolding alert_once
  check_cap org_id o s =
      if not (v.money.is_positive o.monthly_cap) then (ok tt, s) else elim (v.spend s.runs org_id) [
        | none ↦ (err (query_failed org_spend), s)
        | some spent ↦ (
          if v.money.reaches spent o.monthly_cap then err cap_reached else ok tt,
          alert_once org_id o spent s,
        )
      ]

  abbrev pub new_run : Request → Run
  new_run r = record {
    id = v.new_id;
    org_id = r.org_id;
    agent_id = r.agent_id;
    trigger = r.trigger;
    task_id = r.task_id;
    chat_session_id = r.chat_session_id;
    project_id = r.project_id;
    created_at = v.now;
    status = RunStatus.queued;
    initiated_by = r.initiated_by;
    error = [];
    prompt_tokens = 0;
    completion_tokens = 0;
  }

  abbrev pub payload_of : Request → RunJob
  payload_of r = record { run_id = v.new_id; org_id = r.org_id; instruction = r.instruction }

  -- The job of a run that has been created.
  unfoldable pub queue_job : Request → TriggerDb → Result TriggerError (Option Text) × TriggerDb
  unfolding enqueue
  queue_job r s = elim (v.marshal (payload_of r)) [
    | none ↦ (err marshal_failed, s)
    | some payload ↦ elim (enqueue v.new_id (codes "run") payload v.now max_attempts s.jobs) [
      | none ↦ (err enqueue_job_failed, s)
      | some jobs ↦ (ok (some v.new_id), record s { jobs = jobs })
    ]
  ]

  -- CreateRun refuses an id that a row has.
  unfoldable pub create : Request → TriggerDb → Result TriggerError (Option Text) × TriggerDb
  unfolding text_eq queue_job
  create r s =
      if any (λ x. text_eq x.id v.new_id) s.runs
      then (err create_run_failed, s)
      else queue_job r (record s { runs = s.runs ++ new_run r ∷ [] })

  unfoldable pub after_cap :
      Request
      → Result TriggerError (Unit {0}) × TriggerDb
      → Result TriggerError (Option Text) × TriggerDb
  unfolding create
  after_cap r (err e, s) = (err e, s)
  after_cap r (ok u, s) = create r s

  -- EnqueueRun: the new run's id, or none where it is skipped.
  unfoldable pub enqueue_run : Request → TriggerDb → Result TriggerError (Option Text) × TriggerDb
  unfolding may_run check_cap after_cap
  enqueue_run r s = elim (may_run r s.runs) [
    | err e ↦ (err e, s)
    | ok b ↦ if not b then (ok none, s) else elim (v.org r.org_id) [
      | none ↦ (err (query_failed find_org), s)
      | some o ↦ after_cap r (check_cap r.org_id o s)
    ]
  ]

-- ===== src/Agent/Examples.antt =====
-- An agent with one role and one skill, a run that waits for approval, and a model that asks for
-- a tool once.
use boardchestrator.Prelude.{
  ℕ, suc, ◌+◌, ◌≤◌, ◌≡◌, refl, ◌↔◌, ◌⊎◌, inl, inr, true, false, ◌||◌, none, some, List, [], ◌∷◌,
  arith, Text, codes, text_eq, In, ok, err, if◌then◌else◌,
}
use boardchestrator.Action.Model.{pending}
use boardchestrator.Action.{ActorType, ActionCtx, Policy, ScopeKind, Impact}
use boardchestrator.Job.{Job, Status, find_job, settle_job}
use boardchestrator.Perm.{check_permission, intersect_grants}
use boardchestrator.Agent.Model.{RunStatus, Run, LoopOutcome}
use boardchestrator.Agent.Perms.{
  Queries, effective, grant_allows, effective_perms, agent_allow, effective_within_server,
}
use boardchestrator.Agent.Gate.{
  ApprovalStatus, Approval, Store, CallKey, GateEnv, policy_for, decision_for, find_approval,
  find_run, gate, requested, set_awaiting, is_user,
}
use boardchestrator.Agent.Decide.{
  find_row, requeue_run, decide, update_rows, written, verdict, decide_overwrites,
}
use boardchestrator.Agent.Parked.{answer_for, park_decide_gate}
use boardchestrator.Agent.Retry.{EngineDb, Engine, handle_run, run_handler}
use boardchestrator.Agent.Failed.{failed_run_job_succeeds, unnotified_run_job_dies}
use boardchestrator.Agent.Steps.{tools_for_agent, tools_iff_allowed}
use boardchestrator.Agent.Loop.{Outside, ToolCall, output, awaits, run_calls, run_tool_loop}
use boardchestrator.Agent.Bounds.{run_tool_loop_bounded, run_tool_loop_tokens}

abbrev role_grants : List Text
role_grants = codes "task.*" ∷ codes "task.read" ∷ []

abbrev skill_actions : List Text
skill_actions = codes "task.read" ∷ codes "chat.post" ∷ []

abbrev queries : Queries
queries = record {
  find_agent_by_id = λ id. some (record { id = id; org_id = codes "o1"; role_id = codes "bot" });
  find_role_by_id = λ id org_id. some (some role_grants);
  list_agent_skills = λ id org_id. some (some skill_actions ∷ []);
}

abbrev bot_call : ActionCtx
bot_call = record {
  actor = record {
    type = ActorType.agent;
    id = codes "bot";
    owner_user_id = [];
    ip = [];
    auth_provider_id = [];
    session_id = [];
  };
  org = codes "o1";
  team = [];
  proj = [];
  dry_run = false;
  idem = [];
}

abbrev task_read : Policy
task_read = record {
  name = codes "task.read";
  impact = Impact.high;
  permission = codes "task.read";
  scope = ScopeKind.org;
  private_result = false;
}

program : Unit {0}
unfolding effective grant_allows effective_perms agent_allow policy_for decision_for find_approval
    gate find_row requeue_run run_calls text_eq find_job set_awaiting is_user
program = tt

effective_within_server_example :
    check_permission (codes "task.read") (intersect_grants role_grants skill_actions) ≡ true
unfolding program
effective_within_server_example =
    effective_within_server (codes "task.read") role_grants skill_actions refl

tools_iff_allowed_example :
    In task_read (tools_for_agent (task_read ∷ []) (codes "task.read" ∷ []))
    ↔ (In task_read (task_read ∷ []) × (agent_allow queries bot_call task_read ≡ ok true))
unfolding program
tools_iff_allowed_example =
    tools_iff_allowed queries bot_call
      (record { id = codes "bot"; org_id = codes "o1"; role_id = codes "bot" })
      (codes "task.read" ∷ []) refl refl refl (task_read ∷ []) task_read

abbrev run : RunStatus → Run
run status = record {
  id = codes "r1";
  org_id = codes "o1";
  agent_id = codes "bot";
  trigger = codes "mention";
  task_id = codes "t1";
  chat_session_id = [];
  project_id = [];
  created_at = 0;
  status = status;
  initiated_by = codes "ada";
  error = [];
  prompt_tokens = 0;
  completion_tokens = 0;
}

abbrev call_key : CallKey
call_key = record {
  run_id = codes "r1";
  org_id = codes "o1";
  action_name = codes "task.read";
  input = codes "{}";
}

abbrev store : RunStatus → List Approval → Store
store status rows = record {
  users = codes "ada" ∷ codes "eve" ∷ [];
  approvals = rows;
  runs = run status ∷ [];
  notifications = [];
}

abbrev waiting_store : List Approval → Store
waiting_store = store RunStatus.awaiting_approval

abbrev gate_env : Text → GateEnv
gate_env new_id = record { now = 7; new_id = new_id; latest_wins = true; fails = λ q. false }

abbrev rejected_row : Approval
rejected_row = record (requested call_key (codes "a1") 3) {
  status = ApprovalStatus.rejected;
  decided_by = some (codes "eve");
}

-- Ada approves what Eve has rejected.
decide_overwrites_example :
    decide (codes "a1") (codes "o1") true (codes "ada") (waiting_store (rejected_row ∷ []))
    ≡ ok (
      written (verdict true) (codes "ada") rejected_row,
      record (waiting_store (rejected_row ∷ [])) {
        approvals =
            update_rows (codes "a1") (codes "o1") (verdict true) (codes "ada") (rejected_row ∷ []);
        runs = run RunStatus.queued ∷ [];
      },
    )
unfolding program
decide_overwrites_example =
    decide_overwrites (codes "a1") (codes "o1") true (codes "ada")
      (waiting_store (rejected_row ∷ [])) rejected_row (run RunStatus.queued ∷ []) refl refl refl
      refl

-- The run is running when it calls the gate, and again when it calls it for the second time.
park_decide_gate_example :
    (s₁ : Store) × (d : Approval) × (s₂ : Store) × (gate
        (gate_env (codes "a1"))
        ((codes "high", codes "require") ∷ [])
        task_read
        call_key
        (store RunStatus.running [])
      ≡ (ok (pending, codes "a1"), s₁))
    × (decide
          (codes "a1")
          (codes "o1")
          true
          (codes "eve")
          (set_awaiting (codes "r1") (codes "o1") s₁)
        ≡ ok (d, s₂))
    × (find_run (codes "r1") (codes "o1") s₂.runs ≡ some (run RunStatus.queued))
    × ((s₃ : Store)
        → s₃.approvals ≡ s₂.approvals
        → gate (gate_env (codes "a2")) ((codes "high", codes "require") ∷ []) task_read call_key s₃
          ≡ (ok (answer_for true, []), s₃))
unfolding program
park_decide_gate_example =
    park_decide_gate (gate_env (codes "a1")) (gate_env (codes "a2"))
      ((codes "high", codes "require") ∷ []) task_read call_key (codes "eve") true
      (store RunStatus.running []) (run RunStatus.running) (λ q. refl) (λ q. refl) refl refl refl
      refl (inr refl) refl refl

-- A chat run's initiator is no user: the gate fails, and the approval's row stays.
stranger_fails_gate :
    gate
      (gate_env (codes "a1"))
      ((codes "high", codes "require") ∷ [])
      task_read
      call_key
      (record (store RunStatus.running []) {
        runs = record (run RunStatus.running) { initiated_by = codes "user:ada" } ∷ [];
      })
    ≡ (
      err (codes "gate: notify"),
      record (store RunStatus.running (requested call_key (codes "a1") 7 ∷ [])) {
        runs = record (run RunStatus.running) { initiated_by = codes "user:ada" } ∷ [];
      },
    )
unfolding program
stranger_fails_gate = refl

abbrev run_job : Job
run_job = record {
  id = codes "j1";
  kind = codes "run";
  payload = codes "r1";
  run_at = 0;
  attempts = 0;
  max_attempts = 3;
  status = Status.queued;
  locked_by = none;
}

abbrev db_of : Run → EngineDb
db_of r = record {
  users = codes "ada" ∷ [];
  jobs = run_job ∷ [];
  runs = r ∷ [];
  notifications = [];
}

-- An engine whose model is down.
abbrev engine : Engine
engine = record {
  decode = λ payload. some (record { run_id = payload; org_id = codes "o1"; instruction = [] });
  find_agent = λ id. some (record { name = id; backoff_secs = 0 });
  execute = λ r a instruction db. (err (codes "model is down"), db);
  fails = λ q. false;
}

failed_run_job_succeeds_example :
    (d : Job) × (find_job (codes "j1") (
        settle_job 5 run_job
          (run_handler engine 5 (db_of (run RunStatus.queued)) run_job (run_job ∷ [])))
      ≡ some d)
    × (d.status ≡ Status.succeeded)
unfolding program
failed_run_job_succeeds_example =
    failed_run_job_succeeds engine 5 run_job (db_of (run RunStatus.queued)) (run_job ∷ [])
      (record { run_id = codes "r1"; org_id = codes "o1"; instruction = [] }) (run RunStatus.queued)
      (record { name = codes "bot"; backoff_secs = 0 }) (codes "model is down")
      (db_of (run RunStatus.queued)) (λ q. refl) refl refl refl refl refl refl run_job
      (run RunStatus.queued) refl refl (inl refl)

abbrev scheduled_run : Run
scheduled_run = record (run RunStatus.queued) { initiated_by = codes "schedule" }

abbrev last_job : Job
last_job = record run_job { attempts = 2 }

unnotified_run_job_dies_example :
    ((handle_run engine 5 last_job
        (record (db_of scheduled_run) { jobs = last_job ∷ [] })).1.notifications
      ≡ [])
    × (d : Job) × (find_job (codes "j1") (
          settle_job 5 last_job
            (run_handler engine 5 (db_of scheduled_run) last_job (last_job ∷ [])))
        ≡ some d)
    × (d.status ≡ Status.dead)
unfolding program
unnotified_run_job_dies_example =
    unnotified_run_job_dies engine 5 last_job (db_of scheduled_run) (last_job ∷ [])
      (record { run_id = codes "r1"; org_id = codes "o1"; instruction = [] }) scheduled_run
      (record { name = codes "bot"; backoff_secs = 0 }) (codes "model is down")
      (record (db_of scheduled_run) { jobs = last_job ∷ [] }) (λ q. refl) refl refl refl refl refl
      refl last_job scheduled_run refl refl refl refl refl

-- Two counters: the calls of the model, and the tokens recorded. The model asks for one tool
-- each time, and `approve` awaits approval.
abbrev counters : Outside (ℕ × ℕ)
unfolding text_eq
counters = record {
  is_cancelled = λ e. false;
  complete = λ (calls, tokens) messages. (
    ok (record {
      prompt_tokens = 3;
      completion_tokens = 1;
      choice = some (record {
        message = record { role = codes "assistant"; content = [] };
        tool_calls = record { name = codes "look"; arguments = [] } ∷ [];
      });
    }),
    (suc calls, tokens),
  );
  record_step = λ (calls, tokens) r. (calls, tokens + (r.prompt_tokens + r.completion_tokens));
  dispatch_tool = λ e call. (if text_eq call.name (codes "approve") then awaits else output [], e);
  error_content = λ call error. error;
}

abbrev tool_call : Text → ToolCall
tool_call name = record { name = name; arguments = [] }

run_tool_loop_bounded_example : (run_tool_loop counters (0, 0) [] []).1.0 ≤ 25
unfolding counters
run_tool_loop_bounded_example =
    run_tool_loop_bounded counters (λ e. e.0) (λ e ms. omega arith) (λ e r. omega arith)
      (λ e call. omega arith) (0, 0) [] []

abbrev capped_outcome : LoopOutcome
capped_outcome = record {
  cancelled = false;
  step_capped = true;
  approval_pending = false;
  prompt_tokens = 0;
  completion_tokens = 0;
}

-- The model asks for a tool at all 25 steps: 100 tokens are recorded and none are in the outcome.
run_tool_loop_tokens_example :
    ((capped_outcome.cancelled || capped_outcome.step_capped) ≡ false
      × (run_tool_loop counters (0, 0) [] []).1.1 ≡ 0)
    ⊎ ((capped_outcome.cancelled || capped_outcome.step_capped) ≡ true
        × capped_outcome.prompt_tokens + capped_outcome.completion_tokens ≡ 0)
unfolding run_tool_loop counters
run_tool_loop_tokens_example =
    run_tool_loop_tokens counters (λ e. e.1) (λ e ms. refl) (λ e r. refl) (λ e call. refl) (0, 0) []
      [] capped_outcome refl

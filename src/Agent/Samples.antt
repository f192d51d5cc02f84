-- ===== src/Agent/Samples.antt =====
-- An org with a cap of 100 (in whole dollars) and an alert at 80 per cent, which has spent 90.
use boardchestrator.Prelude.{
  ℕ, ◌*◌, ◌/◌, ◌≡◌, refl, true, false, none, some, List, [], ◌∷◌, arith, codes, text_eq, ok, err,
  ltb, leb,
}
use boardchestrator.Job.{find_job}
use boardchestrator.Agent.Model.{RunStatus, Run}
use boardchestrator.Agent.Trigger.{
  Env, Request, TriggerDb, cap_reached, enqueue_run, may_run, is_below_hourly,
}
use boardchestrator.Agent.Caps.{OnePerTask, OnePerProject, enqueue_run_keeps_caps}
use boardchestrator.Agent.Alerts.{Alerted, enqueue_run-Alerted, is_below_hourly_blind}
use boardchestrator.Agent.Created.{Created, enqueue_run-Created}

abbrev env : Env ℕ
env = record {
  fails = λ q. false;
  agent = λ id. some (record { runs_per_hour = 1; token_budget = 1000 });
  org = λ id. some (record { monthly_cap = 100; alert_pct = 80 });
  spend = λ runs org_id. some 90;
  now = 5000000;
  month_start = 0;
  new_id = codes "r9";
  marshal = λ rj. some rj.run_id;
  has_alert = true;
  money = record {
    is_positive = λ m. ltb 0 m;
    reaches = λ spent m. leb m spent;
    threshold = λ cap pct. cap * pct / 100;
  };
}

abbrev request : Request
request = record {
  org_id = codes "o1";
  agent_id = codes "bot";
  trigger = codes "mention";
  task_id = codes "t1";
  chat_session_id = [];
  project_id = codes "p1";
  initiated_by = codes "ada";
  instruction = codes "do it";
}

abbrev past_run : RunStatus → Run
past_run status = record {
  id = codes "r1";
  org_id = codes "o1";
  agent_id = codes "bot";
  trigger = codes "mention";
  task_id = codes "t1";
  chat_session_id = [];
  project_id = codes "p1";
  created_at = 4999000;
  status = status;
  initiated_by = codes "ada";
  error = [];
  prompt_tokens = 5;
  completion_tokens = 5;
}

abbrev tables : List Run → TriggerDb
tables runs = record { runs = runs; jobs = []; cap_alerted = []; alerts = [] }

program : Unit {0}
unfolding enqueue_run text_eq may_run find_job
program = tt

started : (enqueue_run env request (tables [])).0 ≡ ok (some (codes "r9"))
unfolding program
started = refl

skipped : (enqueue_run env request (tables (past_run RunStatus.running ∷ []))).0 ≡ ok none
unfolding program
skipped = refl

alerted : (enqueue_run env request (tables [])).1.alerts ≡ codes "o1" ∷ []
unfolding program
alerted = refl

over_cap :
    (enqueue_run (record env { spend = λ runs org_id. some 100 }) request (tables [])).0
    ≡ err cap_reached
unfolding program
over_cap = refl

enqueue_run_keeps_caps_example :
    OnePerTask (enqueue_run env request (tables [])).1.runs
    × OnePerProject (enqueue_run env request (tables [])).1.runs
unfolding OnePerTask OnePerProject
enqueue_run_keeps_caps_example =
    enqueue_run_keeps_caps env request (tables []) (λ t o named. omega arith)
      (λ p o named. omega arith)

enqueue_run-Alerted_example :
    Alerted env (codes "o1") (tables []) (enqueue_run env request (tables [])).1
enqueue_run-Alerted_example = enqueue_run-Alerted env request (tables [])

enqueue_run-Created_example :
    Created env request (tables []) (enqueue_run env request (tables [])).1 (codes "r9")
enqueue_run-Created_example = enqueue_run-Created env request (tables []) (codes "r9") started

-- Two runs a second ago, and a cap of one run per hour.
is_below_hourly_blind_example :
    is_below_hourly env request
      (record { runs_per_hour = 1; token_budget = 0 })
      (past_run RunStatus.succeeded ∷ past_run RunStatus.succeeded ∷ [])
    ≡ ok true
is_below_hourly_blind_example =
    is_below_hourly_blind env request (record { runs_per_hour = 1; token_budget = 0 })
      (past_run RunStatus.succeeded ∷ past_run RunStatus.succeeded ∷ []) refl (refl, (refl, tt))

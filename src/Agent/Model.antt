-- ===== src/Agent/Model.antt =====
-- The rows of internal/agentrt: runs and notifications, and the outcome of a tool loop.
use boardchestrator.Prelude.{ℕ, Bool, Text}

pub data RunStatus : Type 0 where
  queued running awaiting_approval succeeded failed cancelled : RunStatus

-- A row of runs: an id that is NULL is the empty text.
pub record Run : Type 0 where
  pub id : Text
  pub org_id : Text
  pub agent_id : Text
  pub trigger : Text
  pub task_id : Text
  pub chat_session_id : Text
  pub project_id : Text
  pub created_at : ℕ
  pub status : RunStatus
  pub initiated_by : Text
  pub error : Text
  pub prompt_tokens : ℕ
  pub completion_tokens : ℕ

pub record Notification : Type 0 where
  pub org_id : Text
  pub user_id : Text
  pub event_name : Text
  pub subject_id : Text

-- loopOutcome
pub record LoopOutcome : Type 0 where
  pub cancelled : Bool
  pub step_capped : Bool
  pub approval_pending : Bool
  pub prompt_tokens : ℕ
  pub completion_tokens : ℕ

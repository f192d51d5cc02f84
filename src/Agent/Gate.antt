-- ===== src/Agent/Gate.antt =====
-- internal/agentrt/approvals.go: the approval gate that Dispatch asks for every agent action.
use boardchestrator.Prelude.{
  ℕ, Bool, ◌&&◌, ◌||◌, not, Option, none, some, List, [], ◌∷◌, ◌++◌, Text, codes, text_eq, is_empty,
  if◌then◌else◌, Result, ok, err, any, keep, ltb, ◌==◌,
}
use boardchestrator.Action.{Impact, Policy}
use boardchestrator.Action.Model.{Decision, proceed, pending, forbid}
use boardchestrator.Agent.Model.{RunStatus, Run, Notification}

pub data ApprovalStatus : Type 0 where
  waiting approved rejected : ApprovalStatus

pub record Approval : Type 0 where
  pub id : Text
  pub org_id : Text
  pub run_id : Text
  pub action_name : Text
  pub input : Text
  pub status : ApprovalStatus
  pub requested_at : ℕ
  pub decided_by : Option Text

-- The tables that the gate and approval.decide touch, and the ids of the users. The approvals are
-- in the order of their insertion, the last one first; `requested_at` is in seconds.
pub record Store : Type 0 where
  pub users : List Text
  pub approvals : List Approval
  pub runs : List Run
  pub notifications : List Notification

-- Impact.String
abbrev pub impact_text : Impact → Text
impact_text Impact.read = codes "read"
impact_text Impact.low = codes "low"
impact_text Impact.high = codes "high"
impact_text (Impact.other n) = codes "impact(" ++ n ++ codes ")"

pub data Statement : Type 0 where
  find_existing create_row create_note find_initiator : Statement

-- What Gate reads besides the tables: the clock in seconds, the new id, and the statements that
-- fail for a reason that is not in the tables. `latest_wins` says which of two approvals of one
-- second ORDER BY requested_at takes, the one inserted later or earlier: SQL leaves it open.
pub record GateEnv : Type 0 where
  pub now : ℕ
  pub new_id : Text
  pub latest_wins : Bool
  pub fails : Statement → Bool

-- The decoded approval_policy_json: text that does not parse is the empty map.
abbrev pub ApprovalPolicy : Type 0
ApprovalPolicy = List (Text × Text)

unfoldable pub policy_for : ApprovalPolicy → Impact → Text
unfolding text_eq
policy_for [] impact = codes "auto"
policy_for ((k, v) ∷ p) impact = if text_eq k (impact_text impact) then v else policy_for p impact

unfoldable pub decision_for : Text → Decision
unfolding text_eq
decision_for policy =
    if text_eq policy (codes "require")
    then pending
    else if text_eq policy (codes "forbid")
    then forbid
    else proceed

-- The key of FindApprovalForRun.
pub record CallKey : Type 0 where
  pub run_id : Text
  pub org_id : Text
  pub action_name : Text
  pub input : Text

unfoldable pub is_for : CallKey → Approval → Bool
unfolding text_eq
is_for k a =
    text_eq a.run_id k.run_id
    && text_eq a.org_id k.org_id
    && text_eq a.action_name k.action_name
    && text_eq a.input k.input

-- ORDER BY requested_at DESC LIMIT 1
unfoldable pub newest : Bool → List Approval → Option Approval
newest latest_wins [] = none
newest latest_wins (a ∷ rows) = elim (newest latest_wins rows) [
  | none ↦ some a
  | some b ↦
      if ltb b.requested_at a.requested_at || (a.requested_at == b.requested_at) && latest_wins
      then some a
      else some b
]

-- FindApprovalForRun
unfoldable pub find_approval : Bool → CallKey → List Approval → Option Approval
unfolding is_for newest
find_approval latest_wins k rows = newest latest_wins (keep (is_for k) rows)

unfoldable pub find_run : Text → Text → List Run → Option Run
unfolding text_eq
find_run id org_id [] = none
find_run id org_id (r ∷ rs) =
    if text_eq r.id id && text_eq r.org_id org_id then some r else find_run id org_id rs

unfoldable pub update_run : Text → Text → (Run → Run) → List Run → List Run
unfolding text_eq
update_run id org_id f [] = []
update_run id org_id f (r ∷ rs) =
    (if text_eq r.id id && text_eq r.org_id org_id then f r else r) ∷ update_run id org_id f rs

-- SetRunAwaitingApproval, which executeRun calls when the loop parks: whatever the status was.
unfoldable pub set_awaiting : Text → Text → Store → Store
unfolding update_run
set_awaiting id org_id s = record s {
  runs = update_run id org_id (λ r. record r { status = RunStatus.awaiting_approval }) s.runs;
}

unfoldable pub is_user : List Text → Text → Bool
unfolding text_eq
is_user users id = any (text_eq id) users

-- CreateNotification: its user_id must be the id of a user. `none` is an error.
unfoldable pub create_notification :
    Bool → List Text → Notification → List Notification → Option (List Notification)
unfolding is_user
create_notification fails users n rows =
    if fails || not (is_user users n.user_id) then none else some (rows ++ n ∷ [])

abbrev pub requested : CallKey → Text → ℕ → Approval
requested k id now = record {
  id = id;
  org_id = k.org_id;
  run_id = k.run_id;
  action_name = k.action_name;
  input = k.input;
  status = ApprovalStatus.waiting;
  requested_at = now;
  decided_by = none;
}

-- CreateApproval: its id must be new, and its run_id the id of a run. `none` is an error.
unfoldable pub insert_approval : GateEnv → CallKey → Store → Option Store
unfolding text_eq
insert_approval env k s =
    if env.fails create_row
      || any (λ a. text_eq a.id env.new_id) s.approvals
      || not (any (λ r. text_eq r.id k.run_id) s.runs)
    then none
    else some (record s { approvals = requested k env.new_id env.now ∷ s.approvals })

abbrev pub request_note : CallKey → Text → Text → Notification
request_note k user_id approval_id = record {
  org_id = k.org_id;
  user_id = user_id;
  event_name = codes "approval.requested";
  subject_id = approval_id;
}

-- The notification for the run's initiator, if the run is found and has one.
unfoldable pub notify_request : GateEnv → CallKey → Store → Option Store
unfolding find_run create_notification
notify_request env k s =
    if is_empty k.run_id || env.fails find_initiator
    then some s
    else elim (find_run k.run_id k.org_id s.runs) [
      | none ↦ some s
      | some r ↦
          if is_empty r.initiated_by
          then some s
          else elim (create_notification (env.fails create_note) s.users
              (request_note k r.initiated_by env.new_id) s.notifications) [
                | none ↦ none
                | some rows ↦ some (record s { notifications = rows })
              ]
    ]

-- Gate's answer, and the tables after it.
abbrev pub GateAnswer : Type 0
GateAnswer = Result Text (Decision × Text) × Store

-- A new row, with the notification: where the notification fails, the row stays.
unfoldable pub park : GateEnv → CallKey → Store → GateAnswer
unfolding insert_approval notify_request
park env k s = elim (insert_approval env k s) [
  | none ↦ (err (codes "gate: create approval"), s)
  | some s₁ ↦ elim (notify_request env k s₁) [
    | none ↦ (err (codes "gate: notify"), s₁)
    | some s₂ ↦ (ok (pending, env.new_id), s₂)
  ]
]

-- The switch on the status of an existing row.
unfoldable pub resume : GateEnv → Option Approval → CallKey → Store → GateAnswer
unfolding park
resume env none k s = park env k s
resume env (some a) k s = elim a.status [
  | ApprovalStatus.approved ↦ (ok (proceed, []), s)
  | ApprovalStatus.rejected ↦ (ok (forbid, []), s)
  | ApprovalStatus.waiting ↦ park env k s
]

-- Gate, once the agent is found. A failure of FindApprovalForRun is taken for no row.
unfoldable pub gate : GateEnv → ApprovalPolicy → Policy → CallKey → Store → GateAnswer
unfolding policy_for decision_for find_approval resume
gate env policy def k s = elim (decision_for (policy_for policy def.impact)) [
  | proceed ↦ (ok (proceed, []), s)
  | forbid ↦ (ok (forbid, []), s)
  | pending ↦
      resume env
        (if env.fails find_existing then none else find_approval env.latest_wins k s.approvals) k s
]

-- Gate: `none` is an agent that is not found.
unfoldable pub gate_agent : GateEnv → Option ApprovalPolicy → Policy → CallKey → Store → GateAnswer
unfolding gate
gate_agent env none def k s = (err (codes "gate: find agent"), s)
gate_agent env (some policy) def k s = gate env policy def k s

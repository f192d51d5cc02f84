-- ===== src/Action/Model.antt =====
-- The values that internal/action/dispatch.go works on, and the hooks of hooks.go that it calls.
use boardchestrator.Prelude.{Bool, true, false, Option, List, Text, Result}
use boardchestrator.Action.{Impact, ScopeKind, ActorType, Actor, ActionCtx, Policy}

-- A handler's result: nil, a json.RawMessage, or another value.
pub data Out (V : Type 0) : Type 0 where
  null : Out V
  raw : Text → Out V
  value : V → Out V

-- What the pipeline uses of encoding/json and of the type assertion to SecretResult.
pub record Json (V : Type 0) : Type 0 where
  pub marshal : V → Option Text
  pub redacted : V → Option (Out V)
  pub decode_object : Text → Option (List (Text × Text))
  pub decode_string : Text → Option Text

pub data DispatchError : Type 0 where
  forbidden unknown_action invalid_input scope_failed sso_required : DispatchError
  approval_pending : Text → DispatchError
  failed : Text → DispatchError

pub data ScopeError : Type 0 where
  sso_missing other : ScopeError

pub data Decision : Type 0 where
  proceed pending forbid : Decision

pub record Event : Type 0 where
  pub name : Text
  pub org : Text
  pub actor : Actor
  pub subject : Text
  pub payload : Option Text

-- A row of audit_log: `none` is NULL.
pub record AuditRow : Type 0 where
  pub org_id : Option Text
  pub actor_type : ActorType
  pub actor_id : Text
  pub action : Text
  pub subject : Text
  pub detail : Text
  pub ip : Text

-- A row of idempotency_keys, whose primary key is `key`.
pub record IdemRow : Type 0 where
  pub key : Text
  pub actor : Text
  pub action : Text
  pub result : Text

-- The tenant database, and what the pipeline itself writes, in order.
pub record World (S : Type 0) : Type 0 where
  pub db : S
  pub idem : List IdemRow
  pub events : List Event
  pub audit : List AuditRow

pub record Opts : Type 0 where
  pub org : Text
  pub team : Text
  pub proj : Text
  pub dry_run : Bool
  pub idem : Text

pub record Definition (S V : Type 0) : Type 0 where
  pub policy : Policy
  pub input : Option (Text → Option DispatchError)
  pub handle : S → ActionCtx → Text → Result DispatchError (Out V) × S
  pub preview : Option (S → ActionCtx → Text → Result DispatchError (Out V))

-- The registry, the hooks of a Dispatcher, and when the database refuses a statement.
pub record Hooks (S V : Type 0) : Type 0 where
  pub lookup : Text → Option (Definition S V)
  pub scope_resolve : S → ActionCtx → Policy → Option ScopeError
  pub perm_allow : S → ActionCtx → Policy → Result Text Bool
  pub gate : S → ActionCtx → Policy → Text → Result Text (Decision × Text) × S
  pub has_db : Bool
  pub begin_fault : S → Option DispatchError
  pub rollback_fault : S → Option DispatchError
  pub commit_fault : S → Option DispatchError
  pub idem_get_fault : List IdemRow → Text → Option DispatchError
  pub idem_put_fault : List IdemRow → IdemRow → Option DispatchError
  pub audit_fault : List AuditRow → AuditRow → Option DispatchError
  pub json : Json V

abbrev pub is_high : Impact → Bool
is_high Impact.high = true
is_high _ = false

-- The two scopes of checkScopeShape's first test.
abbrev pub is_tenantless : ScopeKind → Bool
is_tenantless ScopeKind.platform = true
is_tenantless ScopeKind.self = true
is_tenantless _ = false

abbrev pub is_self : ScopeKind → Bool
is_self ScopeKind.self = true
is_self _ = false

abbrev pub ctx_of : Actor → Opts → ActionCtx
ctx_of actor opts = record {
  actor = actor;
  org = opts.org;
  team = opts.team;
  proj = opts.proj;
  dry_run = opts.dry_run;
  idem = opts.idem;
}

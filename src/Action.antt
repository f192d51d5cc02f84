-- ===== src/Action.antt =====
-- internal/action/action.go: the actors, scopes, impacts and definitions that every action has,
-- with the values that handlers return. The pipeline itself is Action/Dispatch.
pub mod Model
pub mod Admit
pub mod Record
pub mod Dispatch
pub mod Cleared
pub mod Atomic
pub mod Logged
pub mod Replay
pub mod Schema
pub mod Accepts
mod Examples
mod Inputs
use boardchestrator.Prelude.{ℕ, Bool, true, false, ◌++◌, Text, codes}

-- `other` is a value outside the constants, by its decimal text.
pub data Impact : Type 0 where
  read low high : Impact
  other : Text → Impact

pub data ScopeKind : Type 0 where
  platform org team project self : ScopeKind
  other : ℕ → ScopeKind

-- ActorType is a string in Go: `other` is any string but the four constants.
pub data ActorType : Type 0 where
  user agent apikey service : ActorType
  other : Text → ActorType

abbrev pub is_valid : ActorType → Bool
is_valid (ActorType.other t) = false
is_valid _ = true

abbrev pub is_agent : ActorType → Bool
is_agent ActorType.agent = true
is_agent _ = false

abbrev pub is_user : ActorType → Bool
is_user ActorType.user = true
is_user _ = false

abbrev pub is_service : ActorType → Bool
is_service ActorType.service = true
is_service _ = false

abbrev pub actor_type_text : ActorType → Text
actor_type_text ActorType.user = codes "user"
actor_type_text ActorType.agent = codes "agent"
actor_type_text ActorType.apikey = codes "apikey"
actor_type_text ActorType.service = codes "service"
actor_type_text (ActorType.other t) = t

pub record Actor : Type 0 where
  pub type : ActorType
  pub id : Text
  pub owner_user_id : Text
  pub ip : Text
  pub auth_provider_id : Text
  pub session_id : Text

-- Actor.ref
unfoldable pub ref : Actor → Text
ref a = actor_type_text a.type ++ codes ":" ++ a.id

-- The data of ActionCtx. The handles Tx, DB and SecretKey are not data of the call.
pub record ActionCtx : Type 0 where
  pub actor : Actor
  pub org : Text
  pub team : Text
  pub proj : Text
  pub dry_run : Bool
  pub idem : Text

-- The fields of Definition that policy reads. Input, Handle and Preview are of the pipeline.
pub record Policy : Type 0 where
  pub name : Text
  pub impact : Impact
  pub permission : Text
  pub scope : ScopeKind
  pub private_result : Bool

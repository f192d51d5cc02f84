-- ===== src/Perm/Examples.antt =====
-- A small organisation: Ada is a member with "task.*", the bot has "*" and one skill.
use boardchestrator.Prelude.{
  ◌≡◌, refl, ◌↔◌, true, false, Option, none, some, List, [], ◌∷◌, Text, codes, text_eq, ok,
  if◌then◌else◌, ◌&&◌,
}
use boardchestrator.Action.{ActorType, ActionCtx, Policy, ScopeKind, Impact}
use boardchestrator.Perm.{
  MembershipsParams, Membership, Role, Queries, check_permission, allow, allow_agent,
  agent_role_grants, agent_skill_actions,
}
use boardchestrator.Perm.Grants.{Covers}
use boardchestrator.Perm.Walk.{WalkGrants, allow_iff}
use boardchestrator.Perm.Agent.{Effective, allow_agent_iff}

abbrev member_row : Membership
member_row = record { org_id = codes "o1"; role_id = some (codes "member") }

abbrev bot_row : Membership
bot_row = record { org_id = codes "o1"; role_id = some (codes "bot") }

memberships : MembershipsParams → Option (List Membership)
unfolding text_eq
memberships p =
    if text_eq p.actor_id (codes "ada") && text_eq p.resource_id (codes "o1")
    then some (member_row ∷ [])
    else if text_eq p.actor_id (codes "bot")
    then some (bot_row ∷ [])
    else some []

roles : Text → Text → Option Role
unfolding text_eq
roles id org_id =
    if text_eq id (codes "member")
    then some (record { grants = some (codes "task.*" ∷ []) })
    else if text_eq id (codes "bot")
    then some (record { grants = some (codes "*" ∷ []) })
    else none

abbrev small_org : Queries
unfolding memberships roles
small_org = record {
  find_memberships = memberships;
  find_role_by_id = roles;
  list_agent_skill_actions = λ agent_id org_id. some (some (codes "task.read" ∷ []) ∷ none ∷ []);
}

no_partial_match : check_permission (codes "tasks.move") (codes "task.*" ∷ []) ≡ false
unfolding check_permission
no_partial_match = refl

allow_iff_example : (true ≡ true) ↔ (
    (g : Text) × WalkGrants small_org (codes "ada") (codes "o1") [] [] g
    × Covers (codes "task.move") g)
unfolding small_org allow
allow_iff_example =
    allow_iff small_org (codes "ada") (codes "o1") [] [] (codes "task.move") true refl refl

allow_agent_iff_example :
    (allow_agent small_org (codes "bot") (codes "o1") (codes "task.read") ≡ ok true)
    ↔ Effective (codes "*" ∷ []) (codes "task.read" ∷ []) (codes "task.read")
unfolding small_org agent_role_grants agent_skill_actions
allow_agent_iff_example =
    allow_agent_iff small_org (codes "bot") (codes "o1") (codes "task.read") (codes "*" ∷ [])
      (codes "task.read" ∷ []) refl refl refl

abbrev call_of : ActorType → Text → ActionCtx
call_of type org = record {
  actor = record {
    type = type;
    id = codes "ada";
    owner_user_id = [];
    ip = [];
    auth_provider_id = [];
    session_id = [];
  };
  org = org;
  team = [];
  proj = [];
  dry_run = false;
  idem = [];
}

abbrev org_create : Policy
org_create = record {
  name = codes "org.create";
  impact = Impact.high;
  permission = codes "org.create";
  scope = ScopeKind.platform;
  private_result = false;
}

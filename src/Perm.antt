-- ===== src/Perm.antt =====
-- internal/perm/engine.go: which grants an actor has, and whether they cover a permission.
-- The sqlc queries are a parameter: `none` is a query that failed.
pub mod Grants
pub mod Walk
pub mod Agent
pub mod Adapter
mod Examples
use boardchestrator.Prelude.{
  ℕ, Bool, true, false, ◌||◌, ◌&&◌, Option, none, some, List, [], ◌∷◌, ◌++◌, Text, codes, text_eq,
  is_empty, has_prefix, has_suffix, trim_suffix, any, keep, Result, ok, err, ◌>>=◌, if◌then◌else◌,
}
use boardchestrator.Action.{
  ActorType, ScopeKind, Actor, ActionCtx, Policy, is_agent, is_user, is_service,
}

pub record MembershipsParams : Type 0 where
  pub org_id : Text
  pub actor_type : Text
  pub actor_id : Text
  pub resource_type : Text
  pub resource_id : Text

pub record Membership : Type 0 where
  pub org_id : Text
  pub role_id : Option Text

-- The decoded grants_json column: `none` is text that is no JSON list of strings.
pub record Role : Type 0 where
  pub grants : Option (List Text)

-- The queries of sqlc that the checker calls. A skill row is its decoded allowed_actions.
pub record Queries : Type 0 where
  pub find_memberships : MembershipsParams → Option (List Membership)
  pub find_role_by_id : Text → Text → Option Role
  pub list_agent_skill_actions : Text → Option Text → Option (List (Option (List Text)))

pub data PermError : Type 0 where
  memberships_failed find_role_failed parse_grants_failed skill_actions_failed : PermError

-- One round of the loop of checkPermission.
unfoldable pub grant_covers : Text → Text → Bool
unfolding text_eq has_suffix trim_suffix has_prefix
grant_covers required g =
    text_eq g required
    || (has_suffix g (codes ".*") && has_prefix required (trim_suffix g (codes ".*") ++ codes "."))
    || text_eq g (codes "*")

unfoldable pub check_permission : Text → List Text → Bool
unfolding grant_covers
check_permission required [] = false
check_permission required (g ∷ gs) = grant_covers required g || check_permission required gs

-- intersectGrants: `union` is the inner loop's list.
unfoldable pub intersect_grants : List Text → List Text → List Text
unfolding check_permission
intersect_grants [] union = []
intersect_grants (g ∷ gs) union =
    let rest = intersect_grants gs union in
    if any (λ u. check_permission u (g ∷ [])) union then g ∷ rest else rest

abbrev pub platform_org : Text
platform_org = codes "00000000000000000000000000000000"

abbrev from_query : {A : Type 0} → PermError → Option A → Result PermError A
from_query e none = err e
from_query e (some a) = ok a

-- `len(allGrants) == 0` and the check.
abbrev pub decide_grants : Text → List Text → Bool
decide_grants required [] = false
decide_grants required (g ∷ gs) = check_permission required (g ∷ gs)

module _ (q : Queries) where
  unfoldable pub role_grants : Text → Text → Result PermError (List Text)
  role_grants role_id org_id = do
    role ← from_query find_role_failed (q.find_role_by_id role_id org_id)
    from_query parse_grants_failed role.grants

  -- One round of the loop that grantsForScope and agentRoleGrants share: no role, no grants.
  unfoldable pub row_grants : Option Text → Text → Result PermError (List Text)
  unfolding role_grants
  row_grants none org_id = ok []
  row_grants (some role_id) org_id = role_grants role_id org_id

  unfoldable pub rows_grants : List Membership → Result PermError (List Text)
  unfolding row_grants
  rows_grants [] = ok []
  rows_grants (r ∷ rs) = do
    grants ← row_grants r.role_id r.org_id
    more ← rows_grants rs
    ok (grants ++ more)

  unfoldable pub grants_for_scope : Text → Text → Text → Text → Result PermError (List Text)
  unfolding rows_grants
  grants_for_scope scope_type scope_id org_id actor_id = do
    rows ← from_query memberships_failed (
        q.find_memberships (record {
          org_id = org_id;
          actor_type = codes "user";
          actor_id = actor_id;
          resource_type = scope_type;
          resource_id = scope_id;
        }))
    rows_grants rows

  -- `if id != "" { ... }` round one call of grantsForScope.
  unfoldable pub grants_if_set : Text → Text → Text → Text → Result PermError (List Text)
  unfolding grants_for_scope
  grants_if_set scope_type scope_id org_id actor_id =
      if is_empty scope_id then ok [] else grants_for_scope scope_type scope_id org_id actor_id

  -- The first two steps of the walk.
  unfoldable pub inner_grants : Text → Text → Text → Text → Result PermError (List Text)
  unfolding grants_if_set
  inner_grants actor_id org_id team_id project_id = do
    of_project ← grants_if_set (codes "project") project_id org_id actor_id
    of_team ← grants_if_set (codes "team") team_id org_id actor_id
    ok (of_project ++ of_team)

  -- The last step: the org, or the platform org where there is none.
  unfoldable pub org_grants : Text → Text → Result PermError (List Text)
  unfolding grants_for_scope
  org_grants actor_id org_id =
      if is_empty org_id
      then grants_for_scope (codes "org") platform_org platform_org actor_id
      else grants_for_scope (codes "org") org_id org_id actor_id

  -- `allGrants` after the walk.
  unfoldable pub all_grants : Text → Text → Text → Text → Result PermError (List Text)
  unfolding inner_grants org_grants
  all_grants actor_id org_id team_id project_id = do
    inner ← inner_grants actor_id org_id team_id project_id
    of_org ← org_grants actor_id org_id
    ok (inner ++ of_org)

  -- Checker.Allow
  unfoldable pub allow : Text → Text → Text → Text → Text → Result PermError Bool
  unfolding all_grants check_permission
  allow actor_id org_id team_id project_id required = if is_empty required then ok true else do
    grants ← all_grants actor_id org_id team_id project_id
    ok (decide_grants required grants)

  unfoldable pub agent_role_grants : Text → Text → Result PermError (List Text)
  unfolding rows_grants
  agent_role_grants agent_id org_id = do
    rows ← from_query memberships_failed (
        q.find_memberships (record {
          org_id = org_id;
          actor_type = codes "agent";
          actor_id = agent_id;
          resource_type = codes "org";
          resource_id = org_id;
        }))
    rows_grants rows

  -- A row that is no JSON list is skipped.
  abbrev pub skill_union : List (Option (List Text)) → List Text
  skill_union [] = []
  skill_union (none ∷ rows) = skill_union rows
  skill_union (some actions ∷ rows) = actions ++ skill_union rows

  unfoldable pub agent_skill_actions : Text → Text → Result PermError (List Text)
  agent_skill_actions agent_id org_id = do
    rows ←
        from_query skill_actions_failed
          (q.list_agent_skill_actions agent_id (if is_empty org_id then none else some org_id))
    ok (skill_union rows)

  -- The tail of AllowAgent, once the role grants are known.
  unfoldable pub agent_decision : Text → Text → Text → List Text → Result PermError Bool
  unfolding agent_skill_actions intersect_grants check_permission
  agent_decision agent_id org_id required [] = ok false
  agent_decision agent_id org_id required (g ∷ gs) = do
    union ← agent_skill_actions agent_id org_id
    ok (check_permission required (intersect_grants (g ∷ gs) union))

  -- Checker.AllowAgent
  unfoldable pub allow_agent : Text → Text → Text → Result PermError Bool
  unfolding agent_role_grants agent_decision
  allow_agent agent_id org_id required = if is_empty required then ok true else do
    grants ← agent_role_grants agent_id org_id
    agent_decision agent_id org_id required grants

  -- The two cases of the switch on the scope, and what follows it.
  unfoldable pub allow_scoped : ScopeKind → ActionCtx → Text → Result PermError Bool
  unfolding allow allow_agent
  allow_scoped ScopeKind.self ac permission = ok (is_user ac.actor.type)
  allow_scoped ScopeKind.platform ac permission =
      if is_agent ac.actor.type then ok false else allow ac.actor.id [] [] [] permission
  allow_scoped _ ac permission =
      if is_agent ac.actor.type
      then allow_agent ac.actor.id ac.org permission
      else allow ac.actor.id ac.org ac.team ac.proj permission

  -- CheckerAdapter.Allow
  unfoldable pub adapter_allow : ActionCtx → Policy → Result PermError Bool
  unfolding allow_scoped
  adapter_allow ac def =
      if is_service ac.actor.type then ok true else allow_scoped def.scope ac def.permission

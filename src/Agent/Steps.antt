-- ===== src/Agent/Steps.antt =====
-- internal/agentrt/tools.go: the tools that an agent is offered.
use boardchestrator.Prelude.{
  ◌≡◌, ◌↔◌, sym, ◌∙◌, inl, inr, Bool, true, false, not, ◌&&◌, ◌||◌, Option, List, Text, is_empty,
  In, keep, In-keep, In→keep, arith, Result, ok, Bool-cases,
}
use boardchestrator.Action.{ActionCtx, Policy, is_agent}
use boardchestrator.Action.Model.{is_tenantless}
use boardchestrator.Agent.Perms.{
  Agent, Queries, grant_allows, effective_perms, agent_allow, PermsError,
}

-- The condition of toolsForAgent.
abbrev pub is_offered : List Text → Policy → Bool
is_offered effective def =
    not (is_tenantless def.scope)
    && (is_empty def.permission || grant_allows def.permission effective)

-- toolsForAgent: `all` is the registry, sorted by name.
unfoldable pub tools_for_agent : List Policy → List Text → List Policy
tools_for_agent all effective = keep (is_offered effective) all

not-true : (b : Bool) → not b ≡ true → b ≡ false
not-true b e = ground arith

module _ (q : Queries) (ac : ActionCtx) (agent : Agent) (effective : List Text)
    (is_one : is_agent ac.actor.type ≡ true)
    (found : q.find_agent_by_id ac.actor.id ≡ Option.some agent)
    (perms : effective_perms q agent ≡ ok effective) where
  allow_lem : (def : Policy) → agent_allow q ac def ≡ ok (is_offered effective def)
  unfolding agent_allow
  allow_lem def = elim (Bool-cases (is_tenantless def.scope)) [
    | inl tenantless ↦ simp (is_one, tenantless)
    | inr scoped ↦ simp (is_one, scoped) (rw (found, agent_allow) (rw (perms, agent_allow)))
  ]

  -- An agent is offered exactly the registered actions that its own permission check allows.
  pub tools_iff_allowed :
      (all : List Policy) (def : Policy)
      → In def (tools_for_agent all effective) ↔ (In def all × (agent_allow q ac def ≡ ok true))
  unfolding tools_for_agent
  tools_iff_allowed all def = (
    (λ m. let (i, e) = In-keep (is_offered effective) def all m in (i, allow_lem def ∙ (rw e))),
    (λ (i, a). In→keep (is_offered effective) def all i (ok_true _ (sym (allow_lem def) ∙ a))),
  )
    where
      ok_true : (b : Bool) → ◌≡◌ {A = Result PermsError Bool} (ok b) (ok true) → b ≡ true
      ok_true b h = cc

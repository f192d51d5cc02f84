-- ===== src/Perm/Adapter.antt =====
-- CheckerAdapter.Allow, for the scopes that take no tenant id.
use boardchestrator.Prelude.{◌≡◌, false, ok}
use boardchestrator.Action.{ScopeKind, ActorType, ActionCtx, Policy}
use boardchestrator.Perm.{Queries, adapter_allow, allow_scoped}

-- The two scopes that take no tenant id.
abbrev pub IsTenantless : ScopeKind → Type 0
IsTenantless ScopeKind.platform = Unit
IsTenantless ScopeKind.self = Unit
IsTenantless _ = ⊥

scoped_same :
    (q : Queries) (ac ac' : ActionCtx) (def : Policy) (s : ScopeKind)
    → IsTenantless s
    → ac.actor ≡ ac'.actor
    → allow_scoped q s ac def.permission ≡ allow_scoped q s ac' def.permission
unfolding allow_scoped
scoped_same q ac ac' def ScopeKind.platform t e = rw e
scoped_same q ac ac' def ScopeKind.self t e = rw e
scoped_same q ac ac' def ScopeKind.org t e = absurd t
scoped_same q ac ac' def ScopeKind.team t e = absurd t
scoped_same q ac ac' def ScopeKind.project t e = absurd t
scoped_same q ac ac' def (ScopeKind.other n) t e = absurd t

scoped_agent :
    (q : Queries) (ac : ActionCtx) (def : Policy) (s : ScopeKind)
    → IsTenantless s
    → ac.actor.type ≡ ActorType.agent
    → allow_scoped q s ac def.permission ≡ ok false
unfolding allow_scoped
scoped_agent q ac def ScopeKind.platform t e = rw e
scoped_agent q ac def ScopeKind.self t e = rw e
scoped_agent q ac def ScopeKind.org t e = absurd t
scoped_agent q ac def ScopeKind.team t e = absurd t
scoped_agent q ac def ScopeKind.project t e = absurd t
scoped_agent q ac def (ScopeKind.other n) t e = absurd t

-- For a platform or self action the answer is the same for any two calls of one actor, whatever
-- org, team and project they carry.
pub adapter_allow_tenant_independent :
    (q : Queries) (def : Policy) (ac ac' : ActionCtx)
    → IsTenantless def.scope
    → ac.actor ≡ ac'.actor
    → adapter_allow q ac def ≡ adapter_allow q ac' def
unfolding adapter_allow
adapter_allow_tenant_independent q def ac ac' t e =
    rw (scoped_same q ac ac' def def.scope t e) (rw e)

-- An agent is refused every platform and self action.
pub adapter_allow_agent_refused :
    (q : Queries) (def : Policy) (ac : ActionCtx)
    → IsTenantless def.scope
    → ac.actor.type ≡ ActorType.agent
    → adapter_allow q ac def ≡ ok false
unfolding adapter_allow
adapter_allow_agent_refused q def ac t e = simp e (scoped_agent q ac def def.scope t e)

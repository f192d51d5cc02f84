-- ===== src/Action/Admit.antt =====
-- Steps 1 to 5 of Dispatch (internal/action/dispatch.go), with checkScopeShape of scope_self.go:
-- the checks that come before anything is written.
use boardchestrator.Prelude.{
  Bool, true, false, not, ◌&&◌, ◌||◌, Option, none, some, Text, is_empty, Result, ok, err, ◌>>=◌,
  ◌>>◌, if◌then◌else◌,
}
use boardchestrator.Action.{Actor, Policy, is_valid, is_user}
use boardchestrator.Action.Model.{
  DispatchError, forbidden, unknown_action, scope_failed, sso_required, failed, ScopeError,
  sso_missing, other, Opts, Definition, Hooks, is_tenantless, is_self, ctx_of,
}

-- A nil or non-nil Go error.
abbrev pub check : Option DispatchError → Result DispatchError (Unit {0})
check none = ok tt
check (some e) = err e

abbrev pub guard : Bool → DispatchError → Result DispatchError (Unit {0})
guard true e = ok tt
guard false e = err e

unfoldable pub check_scope_shape : Policy → Actor → Opts → Result DispatchError (Unit {0})
check_scope_shape def actor opts =
    if not (is_tenantless def.scope)
    then ok tt
    else if not (is_empty opts.org) || not (is_empty opts.team) || not (is_empty opts.proj)
    then err forbidden
    else if is_self def.scope && not (is_user actor.type)
    then err forbidden
    else ok tt

abbrev pub validate : Option (Text → Option DispatchError) → Text → Result DispatchError (Unit {0})
validate none input = ok tt
validate (some schema) input = check (schema input)

abbrev pub scope_outcome : Option ScopeError → Result DispatchError (Unit {0})
scope_outcome none = ok tt
scope_outcome (some sso_missing) = err sso_required
scope_outcome (some other) = err scope_failed

abbrev pub perm_outcome : Result Text Bool → Result DispatchError (Unit {0})
perm_outcome (ok true) = ok tt
perm_outcome (ok false) = err forbidden
perm_outcome (err e) = err (failed e)

abbrev pub found : {A : Type 0} → Option A → DispatchError → Result DispatchError A
found none e = err e
found (some a) e = ok a

module _ {S V : Type 0} (h : Hooks S V) where
  open h use {lookup, scope_resolve, perm_allow}

  -- Steps 1 to 5 of Dispatch: nothing is written.
  unfoldable pub admit : S → Actor → Text → Text → Opts → Result DispatchError (Definition S V)
  unfolding check_scope_shape
  admit db actor name input opts = do
    guard (is_valid actor.type) forbidden
    guard (not (is_empty actor.id)) forbidden
    def ← found (lookup name) unknown_action
    check_scope_shape def.policy actor opts
    validate def.input input
    scope_outcome (scope_resolve db (ctx_of actor opts) def.policy)
    perm_outcome (perm_allow db (ctx_of actor opts) def.policy)
    ok def

-- ===== src/Perm/Agent.antt =====
-- What Checker.AllowAgent decides for an agent's role grants and skills.
use boardchestrator.Prelude.{
  ◌≡◌, refl, sym, ◌∙◌, ◌↔◌, Bool, true, false, List, [], ◌∷◌, Text, In, is_empty, Result, ok,
}
use boardchestrator.Perm.{
  Queries, PermError, check_permission, intersect_grants, agent_role_grants, agent_skill_actions,
  agent_decision, allow_agent,
}
use boardchestrator.Perm.Grants.{
  Covers, check_permission_sound, check_permission_complete, Any→In, In→Any, intersect_grants_sound,
  intersect_grants_complete,
}

-- A grant of the role that covers the permission and also some action of the skills.
abbrev pub Effective : List Text → List Text → Text → Type 0
Effective grants union required =
    (g : Text) × In g grants × Covers required g × (u : Text) × In u union × Covers u g

Effective-iff :
    (grants union : List Text) (required : Text)
    → (check_permission required (intersect_grants grants union) ≡ true)
      ↔ Effective grants union required
Effective-iff grants union required = (
  (λ t.
      let (g, m, c) = Any→In required _ (check_permission_sound required _ t) in
      let (mg, u, mu, cu) = intersect_grants_sound grants union g m in (g, mg, c, u, mu, cu)),
  (λ (g, mg, c, u, mu, cu).
      check_permission_complete required _
        (In→Any required g _ (intersect_grants_complete grants union g u mg mu cu) c)),
)

module _ (q : Queries) (agent_id org_id required : Text) (grants union : List Text)
    (set : is_empty required ≡ false) (role : agent_role_grants q agent_id org_id ≡ ok grants)
    (skills : agent_skill_actions q agent_id org_id ≡ ok union) where
  decision_lem :
      (gs : List Text)
      → agent_decision q agent_id org_id required gs
        ≡ ok (check_permission required (intersect_grants gs union))
  unfolding agent_decision check_permission intersect_grants
  decision_lem [] = refl
  decision_lem (g ∷ gs) = rw skills

  allow_agent_lem :
      allow_agent q agent_id org_id required
      ≡ ok (check_permission required (intersect_grants grants union))
  unfolding allow_agent
  allow_agent_lem = rw (set, role) (decision_lem grants)

  -- Where the queries answer, AllowAgent grants a non-empty permission exactly when one of the role's
  -- grants covers the permission and covers some action of the skills. Both need one grant, and
  -- the action of the skills need not be the permission.
  pub allow_agent_iff :
      (allow_agent q agent_id org_id required ≡ ok true) ↔ Effective grants union required
  allow_agent_iff =
      let both = Effective-iff grants union required in
      (
        (λ h. both.0 (ok_true _ (sym allow_agent_lem ∙ h))),
        (λ e. allow_agent_lem ∙ (rw (both.1 e))),
      )
    where
      ok_true : (b : Bool) → ◌≡◌ {A = Result PermError Bool} (ok b) (ok true) → b ≡ true
      ok_true b h = cc

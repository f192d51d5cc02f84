-- ===== src/Perm/Walk.antt =====
-- Where the grants of Checker.Allow come from: the rows of the scopes that it walks.
use boardchestrator.Prelude.{
  ◌≡◌, refl, sym, subst, ◌∙◌, ◌⊎◌, inl, inr, ◌↔◌, Bool, true, false, Option, none, some, List, [],
  ◌∷◌, ◌++◌, Text, codes, In, Any, In-append, In-append_left, In-append_right, is_empty, Result, ok,
  ◌>>=◌, >>=-eq-ok, if◌then◌else◌,
}
use boardchestrator.Perm.{
  MembershipsParams, Membership, Role, Queries, PermError, from_query, find_role_failed,
  parse_grants_failed, memberships_failed, role_grants, row_grants, rows_grants, grants_for_scope,
  grants_if_set, inner_grants, org_grants, all_grants, decide_grants, allow, check_permission,
  platform_org,
}
use boardchestrator.Perm.Grants.{
  Covers, check_permission_sound, check_permission_complete, Any→In, In→Any,
}

-- The query that grantsForScope makes.
abbrev pub user_params : Text → Text → Text → Text → MembershipsParams
user_params scope_type scope_id org_id actor_id = record {
  org_id = org_id;
  actor_type = codes "user";
  actor_id = actor_id;
  resource_type = scope_type;
  resource_id = scope_id;
}

-- The query for one id of the walk, made only where the id is set.
abbrev pub asked_if_set : Text → Text → Text → Text → List MembershipsParams
asked_if_set scope_type scope_id org_id actor_id =
    if is_empty scope_id then [] else user_params scope_type scope_id org_id actor_id ∷ []

abbrev pub asked_of_org : Text → Text → List MembershipsParams
asked_of_org actor_id [] = user_params (codes "org") platform_org platform_org actor_id ∷ []
asked_of_org actor_id (c ∷ org_id) =
    user_params (codes "org") (c ∷ org_id) (c ∷ org_id) actor_id ∷ []

module _ (q : Queries) where
  -- A row holds a role, found by the role's id and the row's org, that has the grant.
  pub record Grounds (row : Membership) (g : Text) : Type 0 where
    pub role_id : Text
    pub has_role : row.role_id ≡ some role_id
    pub role : Role
    pub found : q.find_role_by_id role_id row.org_id ≡ some role
    pub grants : List Text
    pub decoded : role.grants ≡ some grants
    pub held : In g grants

  from_query-eq-ok :
      {A : Type 0} (e : PermError) (o : Option A) (a : A) → from_query e o ≡ ok a → o ≡ some a
  from_query-eq-ok e none a h = cc
  from_query-eq-ok e (some b) a h = cc

  -- The grants of a result are those that P describes.
  abbrev pub Exactly : Result PermError (List Text) → (Text → Type 0) → Type 0
  Exactly r P = (gs : List Text) → r ≡ ok gs → (g : Text) → In g gs ↔ P g

  Exactly-nil : Exactly (ok []) (λ g. ⊥)
  Exactly-nil gs e g =
      let none_left : [] ≡ gs = cc in ((λ m. subst (In g) (sym none_left) m), (λ x. absurd x))

  Exactly-append :
      (r s : Result PermError (List Text)) {P Q : Text → Type 0}
      → Exactly r P
      → Exactly s Q
      → Exactly (r >>= λ a. s >>= λ b. ok (a ++ b)) (λ g. P g ⊎ Q g)
  Exactly-append r s hr hs gs e g =
      let (a, ea, e') = >>=-eq-ok r (λ a. s >>= λ b. ok (a ++ b)) e in
      let (b, eb, e'') = >>=-eq-ok s (λ b. ok (a ++ b)) e' in
      let joined : gs ≡ a ++ b = cc in
      (
        (λ m. elim (In-append g a b (rw joined at m)) [
          | inl ma ↦ inl ((hr a ea g).0 ma)
          | inr mb ↦ inr ((hs b eb g).0 mb)
        ]),
        (λ p. rw joined (elim p [
          | inl pa ↦ In-append_left g a b ((hr a ea g).1 pa)
          | inr pb ↦ In-append_right g a b ((hs b eb g).1 pb)
        ])),
      )

  role_grants-Exactly :
      (row : Membership) (role_id : Text)
      → row.role_id ≡ some role_id
      → Exactly (role_grants q role_id row.org_id) (Grounds row)
  unfolding role_grants
  role_grants-Exactly row role_id has gs h g =
      let (role, found, decoded) =
        >>=-eq-ok (from_query find_role_failed (q.find_role_by_id role_id row.org_id))
          (λ (r : Role). from_query parse_grants_failed r.grants) h in
      let found' =
        from_query-eq-ok find_role_failed (q.find_role_by_id role_id row.org_id) role found in
      let decoded' = from_query-eq-ok parse_grants_failed role.grants gs decoded in
      (
        (λ m. record {
          role_id = role_id;
          has_role = has;
          role = role;
          found = found';
          grants = gs;
          decoded = decoded';
          held = m;
        }),
        (λ b. subst (In g) (same_grants row role_id role gs g b has found' decoded') b.held),
      )
    where
      same_grants :
          (row : Membership) (role_id : Text) (role : Role) (gs : List Text) (g : Text)
          (b : Grounds row g)
          → row.role_id ≡ some role_id
          → q.find_role_by_id role_id row.org_id ≡ some role
          → role.grants ≡ some gs
          → b.grants ≡ gs
      same_grants row role_id role gs g b h f d =
          let same_id : b.role_id ≡ role_id = cc (b.has_role, h) in
          let same_role : b.role ≡ role = cc (b.found, f, same_id) in cc (b.decoded, d, same_role)

  row_grants-Exactly :
      (row : Membership) (o : Option Text)
      → row.role_id ≡ o
      → Exactly (row_grants q o row.org_id) (Grounds row)
  unfolding row_grants
  row_grants-Exactly row none e gs h g =
      (λ m. absurd ((Exactly-nil gs h g).0 m), λ b. absurd (cc (b.has_role, e)))
  row_grants-Exactly row (some role_id) e gs h g = role_grants-Exactly row role_id e gs h g

  abbrev RowsGrant : List Membership → Text → Type 0
  RowsGrant [] g = ⊥
  RowsGrant (row ∷ rows) g = Grounds row g ⊎ RowsGrant rows g

  rows_grants-Exactly : (rows : List Membership) → Exactly (rows_grants q rows) (RowsGrant rows)
  unfolding rows_grants
  rows_grants-Exactly [] = Exactly-nil
  rows_grants-Exactly (row ∷ rows) =
      Exactly-append (row_grants q row.role_id row.org_id) (rows_grants q rows)
        (row_grants-Exactly row row.role_id refl) (rows_grants-Exactly rows)

  -- A query returned a row that has the grant.
  pub record ScopeGrants (g : Text) (params : MembershipsParams) : Type 0 where
    pub rows : List Membership
    pub answered : q.find_memberships params ≡ some rows
    pub granted : RowsGrant rows g

  abbrev pub SomeGrants : List MembershipsParams → Text → Type 0
  SomeGrants scopes g = Any (ScopeGrants g) scopes

  grants_for_scope-Exactly :
      (scope_type scope_id org_id actor_id : Text)
      → Exactly
          (grants_for_scope q scope_type scope_id org_id actor_id)
          (SomeGrants (user_params scope_type scope_id org_id actor_id ∷ []))
  unfolding grants_for_scope
  grants_for_scope-Exactly scope_type scope_id org_id actor_id gs h g =
      let params = user_params scope_type scope_id org_id actor_id in
      let (rows, e, e') =
        >>=-eq-ok (from_query memberships_failed (q.find_memberships params)) (rows_grants q) h in
      let answered = from_query-eq-ok memberships_failed (q.find_memberships params) rows e in
      let both = rows_grants-Exactly rows gs e' g in
      (
        (λ m. inl (record { rows = rows; answered = answered; granted = both.0 m })),
        (λ s. elim s [
          | inl b ↦ both.1 (subst (λ r. RowsGrant r g) (same_rows b rows answered) b.granted)
          | inr n ↦ absurd n
        ]),
      )
    where
      same_rows :
          {g : Text} {params : MembershipsParams} (b : ScopeGrants g params)
          (rows : List Membership)
          → q.find_memberships params ≡ some rows
          → b.rows ≡ rows
      same_rows b rows e = cc (b.answered, e)

  grants_if_set-Exactly :
      (scope_type scope_id org_id actor_id : Text)
      → Exactly
          (grants_if_set q scope_type scope_id org_id actor_id)
          (SomeGrants (asked_if_set scope_type scope_id org_id actor_id))
  unfolding grants_if_set
  grants_if_set-Exactly scope_type [] org_id actor_id = Exactly-nil
  grants_if_set-Exactly scope_type (c ∷ s) org_id actor_id =
      grants_for_scope-Exactly scope_type (c ∷ s) org_id actor_id

  org_grants-Exactly :
      (actor_id org_id : Text)
      → Exactly (org_grants q actor_id org_id) (SomeGrants (asked_of_org actor_id org_id))
  unfolding org_grants
  org_grants-Exactly actor_id [] =
      grants_for_scope-Exactly (codes "org") platform_org platform_org actor_id
  org_grants-Exactly actor_id (c ∷ org_id) =
      grants_for_scope-Exactly (codes "org") (c ∷ org_id) (c ∷ org_id) actor_id

  -- The grants that the walk finds for an actor.
  abbrev pub WalkGrants : Text → Text → Text → Text → Text → Type 0
  WalkGrants actor_id org_id team_id project_id g =
      (SomeGrants (asked_if_set (codes "project") project_id org_id actor_id) g
        ⊎ SomeGrants (asked_if_set (codes "team") team_id org_id actor_id) g)
      ⊎ SomeGrants (asked_of_org actor_id org_id) g

  pub all_grants-Exactly :
      (actor_id org_id team_id project_id : Text)
      → Exactly
          (all_grants q actor_id org_id team_id project_id)
          (WalkGrants actor_id org_id team_id project_id)
  unfolding all_grants inner_grants
  all_grants-Exactly actor_id org_id team_id project_id =
      Exactly-append (inner_grants q actor_id org_id team_id project_id)
        (org_grants q actor_id org_id)
        (Exactly-append (grants_if_set q (codes "project") project_id org_id actor_id)
          (grants_if_set q (codes "team") team_id org_id actor_id)
          (grants_if_set-Exactly (codes "project") project_id org_id actor_id)
          (grants_if_set-Exactly (codes "team") team_id org_id actor_id))
        (org_grants-Exactly actor_id org_id)

decide_grants-check :
    (required : Text) (gs : List Text) → decide_grants required gs ≡ check_permission required gs
unfolding check_permission
decide_grants-check required [] = refl
decide_grants-check required (g ∷ gs) = refl

-- Where no query fails, Allow answers true for a non-empty permission exactly when a membership
-- row of the project, of the team or of the org (of the platform org where no org is given; ids
-- that are empty are skipped) holds a role with a grant that covers the permission.
pub allow_iff :
    (q : Queries) (actor_id org_id team_id project_id required : Text) (b : Bool)
    → is_empty required ≡ false
    → allow q actor_id org_id team_id project_id required ≡ ok b
    → (b ≡ true)
      ↔ ((g : Text) × WalkGrants q actor_id org_id team_id project_id g × Covers required g)
unfolding allow
allow_iff q actor_id org_id team_id project_id required b set h =
    let body : (all_grants q actor_id org_id team_id project_id >>= λ gs.
    ok (decide_grants required gs))
        ≡ ok b =
      rw set at h in
    let (gs, eg, e) =
      >>=-eq-ok (all_grants q actor_id org_id team_id project_id)
        (λ gs. ok (decide_grants required gs)) body in
    let exact = all_grants-Exactly q actor_id org_id team_id project_id gs eg in
    let same : check_permission required gs ≡ b = cc (e, decide_grants-check required gs) in
    (
      (λ t.
          let (g, m, c) = Any→In required gs (check_permission_sound required gs (same ∙ t)) in
          (g, (exact g).0 m, c)),
      (λ (g, w, c).
          sym same
          ∙ check_permission_complete required gs (In→Any required g gs ((exact g).1 w) c)),
    )

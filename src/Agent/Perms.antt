-- ===== src/Agent/Perms.antt =====
-- internal/agentrt/perms.go: the engine's own permission check, and how it compares with the
-- server's (internal/perm). A set of grants is a list.
use boardchestrator.Prelude.{
  ℕ, zero, suc, ◌-◌, ◌<◌, ◌≡◌, refl, sym, subst, ◌∙◌, ap, inl, inr, Bool, true, false, ◌&&◌, ◌||◌,
  Option, none, some, List, [], ◌∷◌, ◌++◌, arith, Text, codes, text_eq, text_eq→eq, is_empty,
  length, take, drop, take-append-drop, any, keep, In, In-keep, any→In, ltb, ltb→lt, ◌==◌, ==_iff,
  Result, ok, err, ◌>>=◌, &&-eq-true, ||-eq-true, if◌then◌else◌,
}
use mathlib.Core.List.{append_assoc}
use boardchestrator.Action.{ActionCtx, Policy, Impact, is_agent}
use boardchestrator.Action.Model.{is_tenantless}
use boardchestrator.Perm.{check_permission, intersect_grants}
use boardchestrator.Perm.Grants.{
  Wildcard, Covers, check_permission_complete, In→Any, intersect_grants_complete,
}

-- `g[i]`; the callers keep i below the length.
abbrev pub byte_at : Text → ℕ → ℕ
byte_at [] i = 0
byte_at (c ∷ s) zero = c
byte_at (c ∷ s) (suc i) = byte_at s i

-- The loop of grantAllows, for one grant.
unfoldable pub wildcard_allows : Text → Text → Bool
unfolding text_eq
wildcard_allows required g =
    let prefix = take (length g - 2) g in
    (ltb 2 (length g) && text_eq (drop (length g - 2) g) (codes ".*"))
    && ((ltb (length prefix) (length required) && text_eq (take (length prefix) required) prefix)
        && (byte_at required (length prefix) == b'.'))

unfoldable pub grant_allows : Text → List Text → Bool
unfolding wildcard_allows
grant_allows required effective =
    (any (λ g. text_eq g required) effective || any (λ g. text_eq g (codes "*")) effective)
    || any (wildcard_allows required) effective

-- Step 3 of EffectivePerms: the grants that are also actions of the skills.
unfoldable pub effective : List Text → List Text → List Text
unfolding text_eq
effective grants skill_actions = keep (λ g. any (λ a. text_eq a g) skill_actions) grants

pub data PermsError : Type 0 where
  find_role_failed parse_grants_failed list_skills_failed parse_actions_failed : PermsError
  find_agent_failed : PermsError

pub record Agent : Type 0 where
  pub id : Text
  pub org_id : Text
  pub role_id : Text

-- The queries that the check makes. A JSON column is its decoding; `none` is text that fails.
pub record Queries : Type 0 where
  pub find_agent_by_id : Text → Option Agent
  pub find_role_by_id : Text → Text → Option (Option (List Text))
  pub list_agent_skills : Text → Text → Option (List (Option (List Text)))

abbrev pub or_fail : {A : Type 0} → PermsError → Option A → Result PermsError A
or_fail e none = err e
or_fail e (some a) = ok a

-- Unlike the server's check, a skill row that does not parse is an error.
unfoldable pub all_actions : List (Option (List Text)) → Result PermsError (List Text)
all_actions [] = ok []
all_actions (row ∷ rows) = do
  actions ← or_fail parse_actions_failed row
  more ← all_actions rows
  ok (actions ++ more)

abbrev pub is_read : Impact → Bool
is_read Impact.read = true
is_read _ = false

module _ (q : Queries) where
  unfoldable pub role_perms : Agent → Result PermsError (List Text)
  role_perms agent = if is_empty agent.role_id then ok [] else do
    role ← or_fail find_role_failed (q.find_role_by_id agent.role_id agent.org_id)
    or_fail parse_grants_failed role

  unfoldable pub effective_perms : Agent → Result PermsError (List Text)
  unfolding role_perms all_actions effective
  effective_perms agent = do
    grants ← role_perms agent
    skills ← or_fail list_skills_failed (q.list_agent_skills agent.id agent.org_id)
    actions ← all_actions skills
    ok (effective grants actions)

  -- agentPermChecker.Allow
  unfoldable pub agent_allow : ActionCtx → Policy → Result PermsError Bool
  unfolding effective_perms grant_allows
  agent_allow ac def =
      if is_agent ac.actor.type
      then (if is_tenantless def.scope then ok false else do
        agent ← or_fail find_agent_failed (q.find_agent_by_id ac.actor.id)
        grants ← effective_perms agent
        ok (is_empty def.permission || grant_allows def.permission grants))
      else ok (is_read def.impact)

drop-byte_at : (i : ℕ) (s : Text) → i < length s → drop i s ≡ byte_at s i ∷ drop (suc i) s
drop-byte_at i [] h = absurd (omega arith)
drop-byte_at zero (c ∷ s) h = refl
drop-byte_at (suc i) (c ∷ s) h = drop-byte_at i s (omega arith)

dotted :
    (required prefix : Text) {rest : Text}
    → take (length prefix) required ≡ prefix
    → drop (length prefix) required ≡ b'.' ∷ rest
    → required ≡ prefix ++ codes "." ++ rest
dotted required prefix {rest} front back =
    sym (take-append-drop (length prefix) required)
    ∙ (ap (λ t. t ++ drop (length prefix) required) front
        ∙ (ap (λ t. prefix ++ t) back ∙ sym (append_assoc prefix (codes ".") rest)))

-- The tests of the loop leave a prefix, a dot and a rest.
pub wildcard_allows-Wildcard :
    (required g : Text) → wildcard_allows required g ≡ true → Wildcard g required
unfolding wildcard_allows
wildcard_allows-Wildcard required g h =
    let prefix = take (length g - 2) g in
    let (grant, rest) =
      &&-eq-true (ltb 2 (length g) && text_eq (drop (length g - 2) g) (codes ".*")) _ h in
    let (_, star) =
      &&-eq-true (ltb 2 (length g)) (text_eq (drop (length g - 2) g) (codes ".*")) grant in
    let (front, dot) =
      &&-eq-true
        (ltb (length prefix) (length required) && text_eq (take (length prefix) required) prefix) _
        rest in
    let (longer, same) = &&-eq-true (ltb (length prefix) (length required)) _ front in
    let split =
      drop-byte_at (length prefix) required (ltb→lt (length prefix) (length required) longer) in
    (
      prefix,
      drop (suc (length prefix)) required,
      sym (take-append-drop (length g - 2) g)
          ∙ ap (λ t. prefix ++ t) (text_eq→eq (drop (length g - 2) g) (codes ".*") star),
      dotted required prefix (text_eq→eq (take (length prefix) required) prefix same) (
          split
          ∙ ap (λ c. c ∷ drop (suc (length prefix)) required)
              ((==_iff (byte_at required (length prefix)) b'.').0 dot)),
    )

wildcards_sound :
    (required : Text) (gs : List Text)
    → any (wildcard_allows required) gs ≡ true
    → (g : Text) × In g gs × Covers required g
wildcards_sound required gs h =
    let (g, m, e) = any→In (wildcard_allows required) gs h in
    (g, m, inr (inl (wildcard_allows-Wildcard required g e)))

-- Each way to pass grantAllows is a grant that covers the permission.
pub grant_allows_sound :
    (required : Text) (gs : List Text)
    → grant_allows required gs ≡ true
    → (g : Text) × In g gs × Covers required g
unfolding grant_allows
grant_allows_sound required gs h =
    elim (||-eq-true (any (λ g. text_eq g required) gs || any (λ g. text_eq g (codes "*")) gs)
      (any (wildcard_allows required) gs) h) [
        | inr wild ↦ wildcards_sound required gs wild
        | inl plain ↦ elim (||-eq-true (any (λ g. text_eq g required) gs) _ plain) [
          | inl named ↦
              let (g, m, e) = any→In (λ g. text_eq g required) gs named in
              (g, m, inl (text_eq→eq g required e))
          | inr star ↦
              let (g, m, e) = any→In (λ g. text_eq g (codes "*")) gs star in
              (g, m, inr (inr (text_eq→eq g (codes "*") e)))
        ]
      ]

effective-In :
    (grants actions : List Text) (g : Text)
    → In g (effective grants actions)
    → In g grants × In g actions
unfolding effective
effective-In grants actions g m =
    let (held, e) = In-keep (λ x. any (λ a. text_eq a x) actions) g grants m in
    let (a, ma, ea) = any→In (λ a. text_eq a g) actions e in
    (held, subst (λ t. In t actions) (text_eq→eq a g ea) ma)

-- What the run engine's own check lets an agent do, the server's check of the same role grants and
-- skill actions lets it do too.
pub effective_within_server :
    (required : Text) (grants actions : List Text)
    → grant_allows required (effective grants actions) ≡ true
    → check_permission required (intersect_grants grants actions) ≡ true
effective_within_server required grants actions h =
    let (g, m, c) = grant_allows_sound required (effective grants actions) h in
    let (held, listed) = effective-In grants actions g m in
    check_permission_complete required (intersect_grants grants actions) (
      In→Any required g (intersect_grants grants actions)
        (intersect_grants_complete grants actions g g held listed (inl refl)) c)

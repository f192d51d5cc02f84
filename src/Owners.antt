-- ===== src/Owners.antt =====
-- internal/action/last_owner.go with the handlers that it guards: internal/action/invites.go
-- (member.remove), perms.go (membership.delete, role.update), idp_mappings.go (one row of the group
-- sync) and internal/auth/scim/provision.go (deprovisioning). Statements are taken to succeed; the
-- audit rows are left out.
pub mod Keys
pub mod Sync
pub mod Kept
mod Examples
use boardchestrator.Prelude.{
  ℕ, Bool, true, false, ◌&&◌, ◌||◌, not, Option, none, some, List, [], ◌∷◌, any, keep, map, Text,
  codes, text_eq, is_empty, if◌then◌else◌,
}

-- The columns that the guard and the statements read.
pub record Membership : Type 0 where
  pub id : Text
  pub org_id : Text
  pub actor_id : Text
  pub actor_type : Text
  pub resource_type : Text
  pub resource_id : Text
  pub role_id : Option Text
  pub source : Text

pub record Role : Type 0 where
  pub id : Text
  pub org_id : Text
  pub is_system : Bool
  pub grants_json : Text

pub record User : Type 0 where
  pub id : Text
  pub is_deleted : Bool

pub record Tables : Type 0 where
  pub memberships : List Membership
  pub roles : List Role
  pub users : List User

-- What OwnerEquivalent uses of encoding/json and strings.
pub record Grants : Type 0 where
  pub decode_grants : Text → Option (List Text)
  pub trim_space : Text → Text

-- The id of the platform organisation, and of its Owner role.
abbrev pub platform_id : Text
platform_id = codes "00000000000000000000000000000000"

unfoldable pub find_role : Text → List Role → Option Role
find_role id [] = none
find_role id (r ∷ roles) = if text_eq r.id id then some r else find_role id roles

unfoldable pub is_live_user : Text → List User → Bool
is_live_user id users = any (λ (u : User). text_eq u.id id && not u.is_deleted) users

abbrev pub no_rows : List Membership → Bool
no_rows [] = true
no_rows (m ∷ ms) = false

unfoldable pub is_only : List Membership → Text → Bool
is_only (o ∷ []) id = text_eq o.id id
is_only _ id = false

-- The statement DeleteMembership.
unfoldable pub delete_membership : Text → Text → Text → Text → Text → Tables → Tables
unfolding text_eq
delete_membership org actor_id actor_type resource_type resource_id t = record t {
  memberships =
      keep
        (λ (m : Membership). not (
          text_eq m.org_id org
          && text_eq m.actor_id actor_id
          && text_eq m.actor_type actor_type
          && text_eq m.resource_type resource_type
          && text_eq m.resource_id resource_id))
        t.memberships;
}

-- DeleteMembershipByID
unfoldable pub delete_by_id : Text → Text → Tables → Tables
unfolding text_eq
delete_by_id org id t = record t {
  memberships =
      keep (λ (m : Membership). not (text_eq m.id id && text_eq m.org_id org)) t.memberships;
}

-- UpdateRoleGrants
unfoldable pub update_grants : Text → Text → Text → Tables → Tables
unfolding text_eq
update_grants org id grants_json t = record t {
  roles =
      map
        (λ (r : Role).
          if text_eq r.id id && text_eq r.org_id org
          then record r { grants_json = grants_json }
          else r)
        t.roles;
}

-- FindRoleForOrg and RoleForOrg. A role id is a primary key.
unfoldable pub role_for_org : Tables → Text → Text → Option Role
unfolding find_role text_eq
role_for_org t org id =
    if is_empty id || is_empty org || text_eq org platform_id
    then none
    else elim (find_role id t.roles) [
      | none ↦ none
      | some r ↦
          if text_eq r.org_id org || (text_eq r.org_id platform_id && r.is_system)
          then some r
          else none
    ]

-- UpdateIdPMembershipRole
unfoldable pub update_role : Text → Text → Text → Tables → Tables
unfolding text_eq
update_role org id role t = record t {
  memberships =
      map
        (λ (m : Membership).
          if text_eq m.id id && text_eq m.org_id org && text_eq m.source (codes "idp")
          then record m { role_id = some role }
          else m)
        t.memberships;
}

-- DeleteIdPMembership
unfoldable pub delete_idp : Text → Text → Tables → Tables
unfolding text_eq
delete_idp org id t = record t {
  memberships =
      keep
        (λ (m : Membership).
          not (text_eq m.id id && text_eq m.org_id org && text_eq m.source (codes "idp")))
        t.memberships;
}

unfoldable pub only_of : List Membership → Text → Option Text
only_of (o ∷ []) user = if text_eq o.actor_id user then some o.id else none
only_of _ user = none

-- DeleteUserOrgMemberships and DeleteUserOrgMembershipsExcept
unfoldable pub delete_of_user : Text → Text → Option Text → Tables → Tables
unfolding text_eq
delete_of_user org user kept t = record t {
  memberships =
      keep
        (λ (m : Membership). not (
          text_eq m.org_id org
          && text_eq m.actor_type (codes "user")
          && text_eq m.actor_id user
          && elim kept [ none ↦ true | some id ↦ not (text_eq m.id id) ]))
        t.memberships;
}

-- The memberships and the user row in the handler of user.delete.
unfoldable pub delete_user : Text → Tables → Tables
unfolding text_eq
delete_user user t = record t {
  memberships =
      keep
        (λ (m : Membership). not (text_eq m.actor_id user && text_eq m.actor_type (codes "user")))
        t.memberships;
  users =
      map (λ (u : User). if text_eq u.id user then record u { is_deleted = true } else u) t.users;
}

module _ (grants : Grants) where
  unfoldable pub owner_equivalent : Role → Bool
  unfolding text_eq
  owner_equivalent r = text_eq r.id platform_id || elim (grants.decode_grants r.grants_json) [
    | none ↦ true
    | some gs ↦ any (λ g. text_eq (grants.trim_space g) (codes "*")) gs
  ]

  unfoldable pub is_owner_role : List Role → Option Text → Bool
  unfolding owner_equivalent find_role
  is_owner_role roles none = false
  is_owner_role roles (some id) = elim (find_role id roles) [
    | none ↦ false
    | some r ↦ owner_equivalent r
  ]

  -- The conditions of ListOrgOwnerCandidates, with its joins, and the test of OrgOwnerMemberships.
  unfoldable pub is_owner : Tables → Text → Membership → Bool
  unfolding is_live_user is_owner_role text_eq
  is_owner t org m =
      (text_eq m.org_id org && text_eq m.actor_type (codes "user"))
      && (text_eq m.resource_type (codes "org") && text_eq m.resource_id org)
      && (is_live_user m.actor_id t.users && is_owner_role t.roles m.role_id)

  -- OrgOwnerMemberships, in the order of the table: its callers count the rows or read the only one.
  unfoldable pub org_owners : Tables → Text → List Membership
  unfolding is_owner
  org_owners t org = keep (is_owner t org) t.memberships

  unfoldable pub has_owner : Tables → Text → Bool
  unfolding org_owners
  has_owner t org = not (no_rows (org_owners t org))

  -- IsLastOwnerMembership
  unfoldable pub is_last_owner : Tables → Text → Text → Bool
  unfolding org_owners is_only
  is_last_owner t org id = is_only (org_owners t org) id

  -- A change between NewOwnerGuard and Check: `none` is ErrLastOwner, which rolls back.
  unfoldable pub guarded : Text → (Tables → Tables) → Tables → Option Tables
  unfolding has_owner
  guarded org change t =
      if has_owner t org && not (has_owner (change t) org) then none else some (change t)

  -- member.remove
  unfoldable pub remove_member : Text → Text → Text → Text → Text → Tables → Option Tables
  unfolding guarded delete_membership
  remove_member org actor_id actor_type resource_type resource_id =
      guarded org (delete_membership org actor_id actor_type resource_type resource_id)

  -- membership.delete
  unfoldable pub remove_membership : Text → Text → Tables → Option Tables
  unfolding guarded delete_by_id
  remove_membership org id = guarded org (delete_by_id org id)

  -- role.update, of a role that the organisation owns.
  unfoldable pub edit_role : Text → Text → Text → Tables → Option Tables
  unfolding guarded update_grants
  edit_role org id grants_json = guarded org (update_grants org id grants_json)

  -- keepLastOwner: `none` is an error, and a new role of `none` is a removal.
  unfoldable pub is_owner_change : Tables → Text → Option Text → Option Bool
  unfolding role_for_org owner_equivalent
  is_owner_change t org none = some false
  is_owner_change t org (some role) = elim (role_for_org t org role) [
    | none ↦ none
    | some r ↦ some (owner_equivalent r)
  ]

  unfoldable pub keep_last_owner : Tables → Text → Membership → Option Text → Option Bool
  unfolding is_owner_change is_last_owner
  keep_last_owner t org m new_role =
      if not (text_eq m.resource_type (codes "org") && text_eq m.resource_id org)
      then some false
      else elim (is_owner_change t org new_role) [
        | none ↦ none
        | some true ↦ some false
        | some false ↦ some (is_last_owner t org m.id)
      ]

  -- The change of a row's role, and the removal of a stale row, in ReconcileIdPMemberships.
  unfoldable pub sync_row : Text → Membership → Option Text → Tables → Option Tables
  unfolding keep_last_owner update_role delete_idp
  sync_row org m new_role t = elim (keep_last_owner t org m new_role) [
    | none ↦ none
    | some true ↦ some t
    | some false ↦
        some
          (elim new_role [ none ↦ delete_idp org m.id t | some role ↦ update_role org m.id role t ])
  ]

  -- The memberships in `deprovision`.
  unfoldable pub deprovision : Text → Text → Tables → Tables
  unfolding org_owners only_of delete_of_user
  deprovision org user t = delete_of_user org user (only_of (org_owners t org) user) t

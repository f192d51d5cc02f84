-- ===== src/Owners/Examples.antt =====
-- An organisation with two owners: one is deprovisioned, the group sync would then demote the other.
use boardchestrator.Prelude.{◌≡◌, refl, inl, true, false, none, some, [], ◌∷◌, Text, codes, text_eq}
use boardchestrator.Owners.{
  Membership, Role, User, Tables, Grants, has_owner, remove_membership, sync_row, deprovision,
  delete_user,
}
use boardchestrator.Owners.Keys.{HasKeys}
use boardchestrator.Owners.Kept.{stay, then_step, row_synced, user_deprovisioned, Steps-owner}

-- The grants of a role are one name.
abbrev grants : Grants
grants = record { decode_grants = λ s. some (s ∷ []); trim_space = λ s. s }

abbrev owner : Text → Membership
owner user = record {
  id = user;
  org_id = codes "o";
  actor_id = user;
  actor_type = codes "user";
  resource_type = codes "org";
  resource_id = codes "o";
  role_id = some (codes "admin");
  source = codes "idp";
}

abbrev role : Text → Text → Role
role id name = record { id = id; org_id = codes "o"; is_system = false; grants_json = name }

abbrev user : Text → User
user id = record { id = id; is_deleted = false }

abbrev tables : Tables
tables = record {
  memberships = owner (codes "a") ∷ owner (codes "b") ∷ [];
  roles = role (codes "admin") (codes "*") ∷ role (codes "guest") (codes "task.read") ∷ [];
  users = user (codes "a") ∷ user (codes "b") ∷ [];
}

abbrev after : Tables
after = record tables { memberships = owner (codes "b") ∷ [] }

program : Unit {0}
unfolding has_owner remove_membership sync_row deprovision delete_user text_eq HasKeys
program = tt

refused : remove_membership grants (codes "o") (codes "b") after ≡ none
unfolding program
refused = refl

-- user.delete has no guard.
orphaned : has_owner grants (delete_user (codes "b") after) (codes "o") ≡ false
unfolding program
orphaned = refl

deprovisioned : deprovision grants (codes "o") (codes "a") tables ≡ after
unfolding program
deprovisioned = refl

Steps-owner_example : has_owner grants after (codes "o") ≡ true
unfolding program
Steps-owner_example =
    Steps-owner grants (codes "o") {t = tables} {t' = after} ((refl, tt), (tt, tt)) refl
      (then_step (then_step stay (user_deprovisioned (codes "a")))
        (row_synced (owner (codes "b")) (some (codes "guest")) (inl refl) refl))

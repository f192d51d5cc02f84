-- ===== src/Owners/Kept.antt =====
-- An organisation that has an owner keeps one.
use boardchestrator.Prelude.{
  ◌≡◌, refl, sym, subst, ◌∙◌, ◌⊎◌, inl, inr, Bool, true, false, ◌&&◌, not, Option, none, some, List,
  [], ◌∷◌, Text, codes, text_eq, text_eq→eq, eq→text_eq, text_eq_refl, if◌then◌else◌, Bool-cases,
  Option-cases, In, In-keep, In→keep, arith,
}
use boardchestrator.Owners.{
  Membership, Tables, Grants, no_rows, is_owner, org_owners, has_owner, guarded, remove_member,
  remove_membership, edit_role, keep_last_owner, update_role, delete_idp, sync_row, only_of,
  delete_of_user, deprovision, delete_membership, delete_by_id, update_grants,
}
use boardchestrator.Owners.Keys.{clashes, HasKeys, HasKeys-keep, some_eq, HasKeys-map}
use boardchestrator.Owners.Sync.{
  In→has_owner, guarded_keeps, sync_row_keeps, apply_sync, sync_row-apply,
}

text_eq_both : (a b c : Text) → text_eq a c ≡ true → text_eq b c ≡ true → text_eq a b ≡ true
text_eq_both a b c e e' = eq→text_eq a b (text_eq→eq a c e ∙ sym (text_eq→eq b c e'))

-- What deprovisioning a user leaves of the owners: one of somebody else, or the only one.
abbrev Spared : List Membership → Text → Membership → Type 0
Spared owners user o = (text_eq o.actor_id user ≡ false) ⊎ (only_of owners user ≡ some o.id)

Spared-test :
    (b b' : Bool) (owners : List Membership) (user : Text) (o : Membership)
    → Spared owners user o
    → not (
        b
        && b'
        && text_eq o.actor_id user
        && elim (only_of owners user) [ none ↦ true | some id ↦ not (text_eq o.id id) ])
      ≡ true
Spared-test b b' owners user o (inl e) = rw e (ground arith)
Spared-test b b' owners user o (inr e) = rw (e, text_eq_refl o.id) (ground arith)

module _ (grants : Grants) (org : Text) where
  owners_clash :
      (t : Tables) (user : Text) (a b : Membership)
      → is_owner grants t org a ≡ true
      → is_owner grants t org b ≡ true
      → text_eq a.actor_id user ≡ true
      → text_eq b.actor_id user ≡ true
      → clashes a b ≡ true
  unfolding is_owner
  owners_clash t user a b ha hb ea eb =
      let same_org = text_eq_both a.org_id b.org_id org (ground arith) (ground arith) in
      let same_actor = text_eq_both a.actor_id b.actor_id user ea eb in
      let same_type =
        text_eq_both a.actor_type b.actor_type (codes "user") (ground arith) (ground arith) in
      let same_kind =
        text_eq_both a.resource_type b.resource_type (codes "org") (ground arith) (ground arith) in
      let same_resource =
        text_eq_both a.resource_id b.resource_id org (ground arith) (ground arith) in
      rw (same_org, same_actor, same_type, same_kind, same_resource) (ground arith)

  Spared-owner :
      (t : Tables) (user : Text) (owners : List Membership)
      → HasKeys owners
      → not (no_rows owners) ≡ true
      → ((o : Membership) → In o owners → is_owner grants t org o ≡ true)
      → (o : Membership) × In o owners × Spared owners user o
  unfolding only_of HasKeys
  Spared-owner t user [] keys some_row owner = absurd (cc some_row)
  Spared-owner t user (o ∷ []) keys some_row owner = elim (Bool-cases (text_eq o.actor_id user)) [
    | inl e ↦ (o, inl refl, inr (rw (only_of, e) refl))
    | inr e ↦ (o, inl refl, inl e)
  ]
  Spared-owner t user (a ∷ b ∷ owners) ((differ, fresh), keys) some_row owner =
      elim (Bool-cases (text_eq a.actor_id user)) [
        | inr e ↦ (a, inl refl, inl e)
        | inl e ↦ elim (Bool-cases (text_eq b.actor_id user)) [
          | inr e' ↦ (b, inr (inl refl), inl e')
          | inl e' ↦ absurd (
              cc (
                owners_clash t user a b (owner a (inl refl)) (owner b (inr (inl refl))) e e',
                differ,
              ))
        ]
      ]

  deprovision_keeps :
      (user : Text) (t : Tables)
      → HasKeys t.memberships
      → has_owner grants t org ≡ true
      → has_owner grants (deprovision grants org user t) org ≡ true
  unfolding has_owner org_owners deprovision delete_of_user is_owner
  deprovision_keeps user t keys has =
      let owners = org_owners grants t org in
      let (o, m, spared) =
        Spared-owner t user owners (HasKeys-keep (is_owner grants t org) t.memberships keys) has
          (λ o m. (In-keep (is_owner grants t org) o t.memberships m).1) in
      let (there, owner) = In-keep (is_owner grants t org) o t.memberships m in
      In→has_owner grants (deprovision grants org user t) org o
        (In→keep _ o t.memberships there (
          Spared-test (text_eq o.org_id org) (text_eq o.actor_type (codes "user")) owners user o
            spared))
        owner

  -- The operations that take or demote members.
  pub data Step : Tables → Tables → Type 0 where
    member_removed :
        (actor_id actor_type resource_type resource_id : Text) {t t' : Tables}
        → remove_member grants org actor_id actor_type resource_type resource_id t ≡ some t'
        → Step t t'
    membership_deleted :
        (id : Text) {t t' : Tables} → remove_membership grants org id t ≡ some t' → Step t t'
    role_edited :
        (id grants_json : Text) {t t' : Tables}
        → edit_role grants org id grants_json t ≡ some t'
        → Step t t'
    row_synced :
        (m : Membership) (new_role : Option Text) {t t' : Tables}
        → In m t.memberships
        → sync_row grants org m new_role t ≡ some t'
        → Step t t'
    user_deprovisioned : (user : Text) {t : Tables} → Step t (deprovision grants org user t)

  pub data Steps : Tables → Tables → Type 0 where
    stay : {t : Tables} → Steps t t
    then_step : {t t' t'' : Tables} → Steps t t' → Step t' t'' → Steps t t''

  Step-owner :
      {t t' : Tables}
      → HasKeys t.memberships
      → has_owner grants t org ≡ true
      → Step t t'
      → has_owner grants t' org ≡ true
  unfolding remove_member remove_membership edit_role
  Step-owner {t = t} {t' = t'} keys has (member_removed a a' r r' done) =
      guarded_keeps grants org (delete_membership org a a' r r') t t' has done
  Step-owner {t = t} {t' = t'} keys has (membership_deleted id done) =
      guarded_keeps grants org (delete_by_id org id) t t' has done
  Step-owner {t = t} {t' = t'} keys has (role_edited id json done) =
      guarded_keeps grants org (update_grants org id json) t t' has done
  Step-owner {t = t} {t' = t'} keys has (row_synced m new_role there done) =
      sync_row_keeps grants org m new_role t t' keys there has done
  Step-owner {t = t} keys has (user_deprovisioned user) = deprovision_keeps user t keys has

  guarded-keys :
      (change : Tables → Tables) (t t' : Tables)
      → HasKeys ((change t).memberships)
      → guarded grants org change t ≡ some t'
      → HasKeys t'.memberships
  unfolding guarded
  guarded-keys change t t' keys done =
      elim (Bool-cases (has_owner grants t org && not (has_owner grants (change t) org))) [
        | inl e ↦ absurd (cc (rw (guarded, e) at done))
        | inr e ↦
            subst (λ (u : Tables). HasKeys u.memberships)
              (some_eq (change t) t' (rw (guarded, e) at done)) keys
      ]

  clashes-role :
      (b b' : Bool) (role : Text) (k n : Membership)
      → clashes
          (if b then record k { role_id = some role } else k)
          (if b' then record n { role_id = some role } else n)
        ≡ clashes k n
  clashes-role true true role k n = refl
  clashes-role true false role k n = refl
  clashes-role false true role k n = refl
  clashes-role false false role k n = refl

  abbrev is_synced : Membership → Membership → Bool
  is_synced m k = text_eq k.id m.id && text_eq k.org_id org && text_eq k.source (codes "idp")

  apply_sync-keys :
      (m : Membership) (new_role : Option Text) (t : Tables)
      → HasKeys t.memberships
      → HasKeys ((apply_sync org m new_role t).memberships)
  unfolding apply_sync delete_idp update_role
  apply_sync-keys m none t keys = HasKeys-keep _ t.memberships keys
  apply_sync-keys m (some role) t keys =
      HasKeys-map _ t.memberships (λ k n. clashes-role (is_synced m k) (is_synced m n) role k n)
        keys

  sync_row-keys :
      (m : Membership) (new_role : Option Text) (t t' : Tables)
      → HasKeys t.memberships
      → sync_row grants org m new_role t ≡ some t'
      → HasKeys t'.memberships
  unfolding sync_row
  sync_row-keys m new_role t t' keys done =
      elim (Option-cases (keep_last_owner grants t org m new_role)) [
        | inl e ↦ absurd (cc (rw (e, sync_row) at done))
        | inr (true, e) ↦
            subst (λ (u : Tables). HasKeys u.memberships) (some_eq t t' (rw (e, sync_row) at done))
              keys
        | inr (false, e) ↦
            subst (λ (u : Tables). HasKeys u.memberships)
              (some_eq (apply_sync org m new_role t) t'
                (sym (sync_row-apply grants org m new_role t e) ∙ done))
              (apply_sync-keys m new_role t keys)
      ]

  Step-keys : {t t' : Tables} → HasKeys t.memberships → Step t t' → HasKeys t'.memberships
  unfolding remove_member remove_membership edit_role delete_membership delete_by_id update_grants
      deprovision delete_of_user
  Step-keys {t = t} {t' = t'} keys (member_removed a a' r r' done) =
      guarded-keys (delete_membership org a a' r r') t t' (HasKeys-keep _ t.memberships keys) done
  Step-keys {t = t} {t' = t'} keys (membership_deleted id done) =
      guarded-keys (delete_by_id org id) t t' (HasKeys-keep _ t.memberships keys) done
  Step-keys {t = t} {t' = t'} keys (role_edited id json done) =
      guarded-keys (update_grants org id json) t t' keys done
  Step-keys {t = t} {t' = t'} keys (row_synced m new_role there done) =
      sync_row-keys m new_role t t' keys done
  Step-keys {t = t} keys (user_deprovisioned user) = HasKeys-keep _ t.memberships keys

  Steps-keys : {t t' : Tables} → HasKeys t.memberships → Steps t t' → HasKeys t'.memberships
  Steps-keys keys stay = keys
  Steps-keys keys (then_step steps step) = Step-keys (Steps-keys keys steps) step

  -- However many members are removed, demoted, synced or deprovisioned, in whatever order: an
  -- organisation that has an owner keeps one. The condition: the membership table has its keys.
  pub Steps-owner :
      {t t' : Tables}
      → HasKeys t.memberships
      → has_owner grants t org ≡ true
      → Steps t t'
      → has_owner grants t' org ≡ true
  Steps-owner keys has stay = has
  Steps-owner keys has (then_step steps step) =
      Step-owner (Steps-keys keys steps) (Steps-owner keys has steps) step

-- ===== src/Owners/Sync.antt =====
-- The guarded handlers and a row of the group sync keep an owner.
use boardchestrator.Prelude.{
  In-map, ◌≡◌, refl, sym, subst, ◌∙◌, inl, inr, Bool, true, false, ◌&&◌, ◌||◌, Option, none, some,
  Text, codes, text_eq, is_empty, if◌then◌else◌, Bool-cases, Option-cases, In, In-keep, In→keep,
  arith,
}
use boardchestrator.Owners.{
  Membership, Role, Tables, Grants, find_role, owner_equivalent, is_owner_role, is_owner,
  org_owners, has_owner, is_last_owner, guarded, role_for_org, is_owner_change, keep_last_owner,
  update_role, delete_idp, sync_row, platform_id,
}
use boardchestrator.Owners.Keys.{
  HasKeys, HasKeys-keep, HasKeys-same, some_eq, rows-cases, In→rows, other_row,
}

-- What the sync does to a row whose change is not held back.
unfoldable pub apply_sync : Text → Membership → Option Text → Tables → Tables
apply_sync org m none t = delete_idp org m.id t
apply_sync org m (some role) t = update_role org m.id role t

module _ (grants : Grants) where
  -- Having an owner is having a row that is one.
  pub has_owner→In :
      (t : Tables) (org : Text)
      → has_owner grants t org ≡ true
      → (o : Membership) × In o t.memberships × (is_owner grants t org o ≡ true)
  unfolding has_owner org_owners
  has_owner→In t org h =
      let (o, m) = rows-cases (org_owners grants t org) h in
      let (there, owner) = In-keep (is_owner grants t org) o t.memberships m in (o, there, owner)

  pub In→has_owner :
      (t : Tables) (org : Text) (o : Membership)
      → In o t.memberships
      → is_owner grants t org o ≡ true
      → has_owner grants t org ≡ true
  unfolding has_owner org_owners
  In→has_owner t org o m e =
      In→rows o (org_owners grants t org) (In→keep (is_owner grants t org) o t.memberships m e)

  -- A row that is not the last owner leaves another one.
  other_owner :
      (t : Tables) (org id : Text)
      → HasKeys t.memberships
      → has_owner grants t org ≡ true
      → is_last_owner grants t org id ≡ false
      → (o : Membership) × In o t.memberships
        × (is_owner grants t org o ≡ true)
        × (text_eq o.id id ≡ false)
  unfolding has_owner org_owners is_last_owner
  other_owner t org id keys has last =
      let (o, m, differ) =
        other_row (org_owners grants t org) id
          (HasKeys-keep (is_owner grants t org) t.memberships keys) has last in
      let (there, owner) = In-keep (is_owner grants t org) o t.memberships m in
      (o, there, owner, differ)

  -- The guarded handlers.
  pub guarded_keeps :
      (org : Text) (change : Tables → Tables) (t t' : Tables)
      → has_owner grants t org ≡ true
      → guarded grants org change t ≡ some t'
      → has_owner grants t' org ≡ true
  unfolding guarded
  guarded_keeps org change t t' has done = elim (Bool-cases (has_owner grants (change t) org)) [
    | inl e ↦
        subst (λ u. has_owner grants u org ≡ true) (some_eq (change t) t' (rw (has, e) at done)) e
    | inr e ↦ absurd (cc (rw (has, e) at done))
  ]

  -- A row that a statement on another id leaves alone.
  In-delete_idp :
      (org id : Text) (t : Tables) (o : Membership)
      → In o t.memberships
      → text_eq o.id id ≡ false
      → In o ((delete_idp org id t).memberships)
  unfolding delete_idp
  In-delete_idp org id t o m differ = In→keep _ o t.memberships m (rw differ refl)

  In-update_role :
      (org id role : Text) (t : Tables) (o : Membership)
      → In o t.memberships
      → text_eq o.id id ≡ false
      → In o ((update_role org id role t).memberships)
  unfolding update_role
  In-update_role org id role t o m differ =
      subst (λ n. In n ((update_role org id role t).memberships)) (rw differ refl)
        (In-map _ o t.memberships m)

  survives :
      (org : Text) (m : Membership) (new_role : Option Text) (t : Tables) (o : Membership)
      → In o t.memberships
      → is_owner grants t org o ≡ true
      → text_eq o.id m.id ≡ false
      → has_owner grants (apply_sync org m new_role t) org ≡ true
  unfolding apply_sync delete_idp update_role is_owner
  survives org m none t o there owner differ =
      In→has_owner (delete_idp org m.id t) org o (In-delete_idp org m.id t o there differ) owner
  survives org m (some role) t o there owner differ =
      In→has_owner (update_role org m.id role t) org o
        (In-update_role org m.id role t o there differ) owner

  owner_is_org_level :
      (t : Tables) (org : Text) (o : Membership)
      → is_owner grants t org o ≡ true
      → (text_eq o.resource_type (codes "org") && text_eq o.resource_id org) ≡ true
  unfolding is_owner
  owner_is_org_level t org o h = ground arith

  owner_with_role :
      (t : Tables) (org role : Text) (o : Membership) (r : Role)
      → is_owner grants t org o ≡ true
      → find_role role t.roles ≡ some r
      → owner_equivalent grants r ≡ true
      → is_owner grants t org (record o { role_id = some role }) ≡ true
  unfolding is_owner is_owner_role
  owner_with_role t org role o r h found equivalent =
      rw (is_owner, is_owner_role, found) (ground arith)

  if_owner :
      (b : Bool) (t : Tables) (org role : Text) (o : Membership)
      → is_owner grants t org o ≡ true
      → is_owner grants t org (record o { role_id = some role }) ≡ true
      → is_owner grants t org (if b then record o { role_id = some role } else o) ≡ true
  if_owner true t org role o h h' = h'
  if_owner false t org role o h h' = h

  -- A change to an owner's role leaves every owner one.
  promoted :
      (t : Tables) (org id role : Text) (r : Role)
      → has_owner grants t org ≡ true
      → find_role role t.roles ≡ some r
      → owner_equivalent grants r ≡ true
      → has_owner grants (update_role org id role t) org ≡ true
  unfolding update_role is_owner
  promoted t org id role r has found equivalent =
      let (o, there, owner) = has_owner→In t org has in
      In→has_owner (update_role org id role t) org _ (In-map _ o t.memberships there) (
        if_owner (text_eq o.id id && text_eq o.org_id org && text_eq o.source (codes "idp")) t org
          role o owner (owner_with_role t org role o r owner found equivalent))

  role_for_org-find :
      (t : Tables) (org id : Text) (r : Role)
      → role_for_org t org id ≡ some r
      → find_role id t.roles ≡ some r
  unfolding role_for_org
  role_for_org-find t org id r h =
      elim (Bool-cases (is_empty id || is_empty org || text_eq org platform_id)) [
        | inl e ↦ absurd (cc (rw (role_for_org, e) at h))
        | inr e ↦ elim (Option-cases (find_role id t.roles)) [
          | inl f ↦ absurd (cc (rw (role_for_org, e, f) at h))
          | inr (r', f) ↦
              elim (Bool-cases
                (text_eq r'.org_id org || (text_eq r'.org_id platform_id && r'.is_system))) [
                  | inl usable ↦ f ∙ rw (role_for_org, e, f, usable) at h
                  | inr unusable ↦ absurd (cc (rw (role_for_org, e, f, unusable) at h))
                ]
        ]
      ]

  promotion :
      (org : Text) (m : Membership) (new_role : Option Text) (t : Tables)
      → has_owner grants t org ≡ true
      → is_owner_change grants t org new_role ≡ some true
      → has_owner grants (apply_sync org m new_role t) org ≡ true
  unfolding is_owner_change apply_sync
  promotion org m none t has e = absurd (cc e)
  promotion org m (some role) t has e = elim (Option-cases (role_for_org t org role)) [
    | inl f ↦ absurd (cc (rw (is_owner_change, f) at e))
    | inr (r, f) ↦
        promoted t org m.id role r has (role_for_org-find t org role r f)
          (some_eq _ _ (rw (is_owner_change, f) at e))
  ]

  demoted :
      (org : Text) (m : Membership) (new_role : Option Text) (t : Tables)
      → HasKeys t.memberships
      → In m t.memberships
      → has_owner grants t org ≡ true
      → keep_last_owner grants t org m new_role ≡ some false
      → has_owner grants (apply_sync org m new_role t) org ≡ true
  unfolding keep_last_owner is_owner_change
  demoted org m new_role t keys there has answer =
      elim (Bool-cases (text_eq m.resource_type (codes "org") && text_eq m.resource_id org)) [
        | inr e ↦
            let (o, there', owner) = has_owner→In t org has in
            elim (Bool-cases (text_eq o.id m.id)) [
              | inl same ↦
                  let o_is_m = HasKeys-same o m t.memberships keys there' there same in
                  absurd (
                    cc (
                      owner_is_org_level t org m
                          (subst (λ n. is_owner grants t org n ≡ true) o_is_m owner),
                      e,
                    ))
              | inr differ ↦ survives org m new_role t o there' owner differ
            ]
        | inl e ↦ elim (Option-cases (is_owner_change grants t org new_role)) [
          | inl e' ↦ absurd (cc (rw (keep_last_owner, e, e') at answer))
          | inr (true, e') ↦ promotion org m new_role t has e'
          | inr (false, e') ↦
              let (o, there', owner, differ) =
                other_owner t org m.id keys has
                  (some_eq _ _ (rw (keep_last_owner, e, e') at answer)) in
              survives org m new_role t o there' owner differ
        ]
      ]

  pub sync_row-apply :
      (org : Text) (m : Membership) (new_role : Option Text) (t : Tables)
      → keep_last_owner grants t org m new_role ≡ some false
      → sync_row grants org m new_role t ≡ some (apply_sync org m new_role t)
  unfolding sync_row apply_sync
  sync_row-apply org m none t e = rw (e, sync_row) refl
  sync_row-apply org m (some role) t e = rw (e, sync_row) refl

  -- The group sync changes or removes a row of the table.
  pub sync_row_keeps :
      (org : Text) (m : Membership) (new_role : Option Text) (t t' : Tables)
      → HasKeys t.memberships
      → In m t.memberships
      → has_owner grants t org ≡ true
      → sync_row grants org m new_role t ≡ some t'
      → has_owner grants t' org ≡ true
  unfolding sync_row
  sync_row_keeps org m new_role t t' keys there has done =
      elim (Option-cases (keep_last_owner grants t org m new_role)) [
        | inl e ↦ absurd (cc (rw (e, sync_row) at done))
        | inr (true, e) ↦
            subst (λ u. has_owner grants u org ≡ true) (some_eq t t' (rw (e, sync_row) at done)) has
        | inr (false, e) ↦
            subst (λ u. has_owner grants u org ≡ true)
              (some_eq (apply_sync org m new_role t) t'
                (sym (sync_row-apply org m new_role t e) ∙ done))
              (demoted org m new_role t keys there has e)
      ]

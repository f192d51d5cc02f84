-- ===== src/Perm/Grants.antt =====
-- What checkPermission and intersectGrants decide, against a description of a grant's meaning.
use boardchestrator.Prelude.{
  ◌↔◌, ◌≡◌, refl, sym, ◌⊎◌, inl, inr, Bool, true, ◌&&◌, ◌||◌, List, [], ◌∷◌, ◌++◌, arith, Text,
  codes, text_eq, text_eq→eq, eq→text_eq, has_prefix, has_suffix, trim_suffix, has_prefix→append,
  has_prefix-append, trim_suffix-append_self, trim_suffix-append, has_suffix-append, &&-eq-true,
  ||-eq-true, any, In, Any, any→In, In→any, Bool-cases,
}
use boardchestrator.Perm.{grant_covers, check_permission, intersect_grants}

-- What a grant stands for: the permission itself, everything below a prefix, or everything.
abbrev pub Wildcard : Text → Text → Type 0
Wildcard g required =
    (prefix : Text) × (rest : Text) × (g ≡ prefix ++ codes ".*")
    × (required ≡ prefix ++ codes "." ++ rest)

abbrev pub Covers : Text → Text → Type 0
Covers required g = (g ≡ required) ⊎ Wildcard g required ⊎ (g ≡ codes "*")

Wildcard-sound :
    (required g : Text)
    → has_suffix g (codes ".*") ≡ true
    → has_prefix required (trim_suffix g (codes ".*") ++ codes ".") ≡ true
    → Wildcard g required
Wildcard-sound required g hs hp =
    let (rest, e) = has_prefix→append required (trim_suffix g (codes ".*") ++ codes ".") hp in
    (trim_suffix g (codes ".*"), rest, sym (trim_suffix-append_self g (codes ".*") hs), e)

Wildcard-complete :
    (required g : Text)
    → Wildcard g required
    → (has_suffix g (codes ".*") && has_prefix required (trim_suffix g (codes ".*") ++ codes "."))
      ≡ true
Wildcard-complete required g (prefix, rest, eg, er) =
    rw (eg, er)
      (rw (has_suffix-append prefix (codes ".*")) (
        rw (trim_suffix-append prefix (codes ".*")) (has_prefix-append (prefix ++ codes ".") rest)))

-- The three tests of one round.
abbrev is_wild : Text → Text → Bool
is_wild required g =
    has_suffix g (codes ".*") && has_prefix required (trim_suffix g (codes ".*") ++ codes ".")

grant_covers_sound : (required g : Text) → grant_covers required g ≡ true → Covers required g
unfolding grant_covers
grant_covers_sound required g h =
    elim (||-eq-true (text_eq g required || is_wild required g) (text_eq g (codes "*")) h) [
      | inl first ↦ elim (||-eq-true (text_eq g required) (is_wild required g) first) [
        | inl same ↦ inl (text_eq→eq g required same)
        | inr wild ↦
            let (hs, hp) = &&-eq-true (has_suffix g (codes ".*")) _ wild in
            inr (inl (Wildcard-sound required g hs hp))
      ]
      | inr star ↦ inr (inr (text_eq→eq g (codes "*") star))
    ]

or_left : (a b c : Bool) → a ≡ true → (a || b || c) ≡ true
or_left a b c h = ground arith

or_middle : (a b c : Bool) → b ≡ true → (a || b || c) ≡ true
or_middle a b c h = ground arith

or_right : (a b c : Bool) → c ≡ true → (a || b || c) ≡ true
or_right a b c h = ground arith

grant_covers_complete : (required g : Text) → Covers required g → grant_covers required g ≡ true
unfolding grant_covers
grant_covers_complete required g (inl same) =
    or_left (text_eq g required) (is_wild required g) _ (eq→text_eq g required same)
grant_covers_complete required g (inr (inl wild)) =
    or_middle (text_eq g required) (is_wild required g) _ (Wildcard-complete required g wild)
grant_covers_complete required g (inr (inr star)) =
    or_right (text_eq g required) (is_wild required g) _ (eq→text_eq g (codes "*") star)

pub check_permission_sound :
    (required : Text) (grants : List Text)
    → check_permission required grants ≡ true
    → Any (Covers required) grants
unfolding check_permission
check_permission_sound required [] h = cc
check_permission_sound required (g ∷ gs) h =
    elim (||-eq-true (grant_covers required g) (check_permission required gs) h) [
      | inl e ↦ inl (grant_covers_sound required g e)
      | inr e ↦ inr (check_permission_sound required gs e)
    ]

pub check_permission_complete :
    (required : Text) (grants : List Text)
    → Any (Covers required) grants
    → check_permission required grants ≡ true
unfolding check_permission
check_permission_complete required [] h = absurd h
check_permission_complete required (g ∷ gs) (inl c) = rw (grant_covers_complete required g c)
check_permission_complete required (g ∷ gs) (inr c) =
    ground (arith, check_permission_complete required gs c)

pub Any→In :
    (required : Text) (gs : List Text)
    → Any (Covers required) gs
    → (g : Text) × In g gs × Covers required g
Any→In required [] h = absurd h
Any→In required (g ∷ gs) (inl c) = (g, inl refl, c)
Any→In required (g ∷ gs) (inr h) = let (g', m, c) = Any→In required gs h in (g', inr m, c)

pub In→Any :
    (required : Text) (g : Text) (gs : List Text)
    → In g gs
    → Covers required g
    → Any (Covers required) gs
In→Any required g [] m c = absurd m
In→Any required g (x ∷ gs) (inl e) c = inl (rw (sym e) c)
In→Any required g (x ∷ gs) (inr m) c = inr (In→Any required g gs m c)

one-Covers : (u g : Text) → check_permission u (g ∷ []) ≡ true → Covers u g
one-Covers u g h = elim (check_permission_sound u (g ∷ []) h) [ inl c ↦ c | inr n ↦ absurd n ]

-- A grant survives exactly when it is one of the role's and covers an action of the skills.
pub intersect_grants_sound :
    (grants union : List Text) (g : Text)
    → In g (intersect_grants grants union)
    → In g grants × (u : Text) × In u union × Covers u g
unfolding intersect_grants
intersect_grants_sound [] union g m = absurd m
intersect_grants_sound (x ∷ gs) union g m =
    elim (Bool-cases (any (λ u. check_permission u (x ∷ [])) union)) [
      | inl kept ↦ elim (rw kept at m) [
        | inl same ↦
            let (u, mu, e) = any→In (λ u. check_permission u (x ∷ [])) union kept in
            (inl same, u, mu, rw same (one-Covers u x e))
        | inr more ↦
            let (mg, u, mu, c) = intersect_grants_sound gs union g more in (inr mg, u, mu, c)
      ]
      | inr gone ↦
          let (mg, u, mu, c) = intersect_grants_sound gs union g (rw gone at m) in
          (inr mg, u, mu, c)
    ]

pub intersect_grants_complete :
    (grants union : List Text) (g u : Text)
    → In g grants
    → In u union
    → Covers u g
    → In g (intersect_grants grants union)
unfolding intersect_grants
intersect_grants_complete [] union g u mg mu c = absurd mg
intersect_grants_complete (x ∷ gs) union g u (inl same) mu c =
    rw
      (In→any (λ w. check_permission w (x ∷ [])) u union mu
        (check_permission_complete u (x ∷ []) (inl (rw (sym same) c))))
      (inl same)
intersect_grants_complete (x ∷ gs) union g u (inr mg) mu c =
    elim (Bool-cases (any (λ w. check_permission w (x ∷ [])) union)) [
      | inl kept ↦ rw kept (inr (intersect_grants_complete gs union g u mg mu c))
      | inr gone ↦ rw gone (intersect_grants_complete gs union g u mg mu c)
    ]

-- checkPermission answers true exactly when one of the grants covers the permission: it is that
-- permission, or "*", or "prefix.*" where the permission is the prefix, a dot and any rest.
pub check_permission_iff :
    (required : Text) (grants : List Text)
    → (check_permission required grants ≡ true) ↔ Any (Covers required) grants
check_permission_iff required grants =
    (check_permission_sound required grants, check_permission_complete required grants)

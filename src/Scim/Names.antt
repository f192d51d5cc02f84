-- ===== src/Scim/Names.antt =====
-- Attribute names: lower case, schemas and dots.
use boardchestrator.Prelude.{
  ℕ, zero, suc, ◌≡◌, refl, sym, ap, ◌∙◌, inl, inr, Bool, true, false, ◌||◌, List, [], ◌∷◌, ◌++◌,
  drop, arith, Text, codes, is_empty, has_prefix, any, Result, ok, err, if◌then◌else◌, Bool-cases,
  ltb, length, ◌==◌, ==_iff,
}
use boardchestrator.Scim.Lexer.{FilterError, unknown_attribute, malformed_attribute}
use boardchestrator.Scim.Parser.{
  lower_char, lower, schema_user, schema_group, schema_enterprise_user, drop_schema,
  prepend_to_first, split_dots, path_of, attr_path, has_char,
}
use boardchestrator.Scim.Print.{join_dots, qualified}

lower_char_idem : (c : ℕ) → lower_char (lower_char c) ≡ lower_char c
lower_char_idem c = ground arith

pub lower_idem : (s : Text) → lower (lower s) ≡ lower s
lower_idem [] = refl
lower_idem (c ∷ s) = simp (lower_char_idem c, lower_idem s)

lower-append : (s t : Text) → lower (s ++ t) ≡ lower s ++ lower t
lower-append [] t = refl
lower-append (c ∷ s) t = ap (λ u. lower_char c ∷ u) (lower-append s t)

lower-drop : (n : ℕ) (s : Text) → lower s ≡ s → lower (drop n s) ≡ drop n s
lower-drop zero s h = h
lower-drop (suc n) [] h = refl
lower-drop (suc n) (c ∷ s) h = lower-drop n s cc

lower-drop_schema : (s : Text) → lower s ≡ s → lower (drop_schema s) ≡ drop_schema s
unfolding drop_schema
lower-drop_schema s h = elim (Bool-cases (has_prefix s schema_user)) [
  | inl e ↦ simp (e) (lower-drop (length schema_user) s h)
  | inr e ↦ elim (Bool-cases (has_prefix s schema_group)) [
    | inl e' ↦ simp (e, e') (lower-drop (length schema_group) s h)
    | inr e' ↦ elim (Bool-cases (has_prefix s schema_enterprise_user)) [
      | inl e'' ↦ simp (e, e', e'') (lower-drop (length schema_enterprise_user) s h)
      | inr e'' ↦ simp (e, e', e'') h
    ]
  ]
]

-- A name with the schema of users in front is that name.
drop_schema-user : (n : Text) → drop_schema (schema_user ++ n) ≡ n
unfolding drop_schema has_prefix
drop_schema-user n = refl

join_dots-prepend : (c : ℕ) (ss : List Text) → join_dots (prepend_to_first c ss) ≡ c ∷ join_dots ss
unfolding join_dots
join_dots-prepend c [] = refl
join_dots-prepend c (s ∷ []) = refl
join_dots-prepend c (s ∷ (t ∷ ss)) = refl

split_dots-cons : (s : Text) → (t : Text) × (ss : List Text) × (split_dots s ≡ t ∷ ss)
unfolding split_dots
split_dots-cons [] = ([], [], refl)
split_dots-cons (c ∷ s) =
    let (t, ss, e) = split_dots-cons s in
    elim (Bool-cases (c == b'.')) [
      | inl h ↦ ([], split_dots s, simp (h))
      | inr h ↦ (c ∷ t, ss, simp (h) (rw e refl))
    ]

join_dots-cut : (s : Text) → join_dots ([] ∷ split_dots s) ≡ b'.' ∷ join_dots (split_dots s)
unfolding join_dots
join_dots-cut s = let (t, ss, e) = split_dots-cons s in rw e refl

join_dots-split : (s : Text) → join_dots (split_dots s) ≡ s
unfolding split_dots join_dots
join_dots-split [] = refl
join_dots-split (c ∷ s) = elim (Bool-cases (c == b'.')) [
  | inl h ↦ simp (h) (
      join_dots-cut s
      ∙ (ap (λ t. b'.' ∷ t) (join_dots-split s) ∙ ap (λ d. d ∷ s) (sym ((==_iff c b'.').0 h))))
  | inr h ↦ simp (h) (join_dots-prepend c (split_dots s) ∙ ap (λ t. c ∷ t) (join_dots-split s))
]

ok_parts :
    (b b' b'' : Bool) (e e' : FilterError) {parts path : List Text}
    → ◌≡◌ {A = Result FilterError (List Text)}
        (if b then err e else if b' then err e else if b'' then err e' else ok parts)
        (ok path)
    → parts ≡ path
ok_parts true b' b'' e e' h = cc
ok_parts false true b'' e e' h = cc
ok_parts false false true e e' h = cc
ok_parts false false false e e' h = cc

path_of-split : (n : Text) (path : List Text) → path_of n ≡ ok path → split_dots n ≡ path
unfolding path_of
path_of-split n path h =
    let parts = split_dots n in
    ok_parts (is_empty n || has_prefix n (codes ".") || has_char b':' n) (ltb 2 (length parts))
      (any is_empty parts) unknown_attribute malformed_attribute h

-- The path of a name is also the path of its print.
pub attr_path-qualified :
    (name : Text) (path : List Text)
    → attr_path name ≡ ok path
    → attr_path (qualified path) ≡ ok path
unfolding attr_path
attr_path-qualified name path h =
    let n = drop_schema (lower name) in
    let parts : split_dots n ≡ path = path_of-split n path h in
    let whole : join_dots path ≡ n = ap join_dots (sym parts) ∙ join_dots-split n in
    let low : lower (qualified path) ≡ schema_user ++ n =
      lower-append schema_user (join_dots path)
      ∙ ap (λ t. schema_user ++ t)
          (ap (λ t. lower t) whole ∙ lower-drop_schema (lower name) (lower_idem name)) in
    let same : drop_schema (lower (qualified path)) ≡ n = ap drop_schema low ∙ drop_schema-user n in
    ap path_of same ∙ h

-- ===== src/Action/Accepts.antt =====
-- What ObjectSchema.Validate accepts.
use boardchestrator.Prelude.{
  ◌≡◌, ◌≢◌, refl, sym, subst, ◌↔◌, ◌⊎◌, inl, inr, Bool, true, false, ◌||◌, none, some, List, [],
  ◌∷◌, Text, codes, text_eq, text_eq→eq, eq→text_eq, is_empty, Result, ok, err, >>=-eq-ok,
  if◌then◌else◌, Bool-cases, Option-cases, Any, All, arith, ||-eq-true,
}
use boardchestrator.Action.Schema.{
  FieldKind, kind_string, kind_number, kind_bool, kind_object, kind_array, kind_any, Field, Shape,
  SchemaError, Members, Decoder, admits, is_any, find_member, first_sorted, text_less, is_declared,
  unknown_names, check_shape, check_kind, check_field, check_fields, validate_members, validate,
}

abbrev pub IsDeclared : List Field → Text → Type 0
IsDeclared fields name = Any (λ (f : Field). f.name ≡ name) fields

some_eq : {A : Type 0} (a b : A) → some a ≡ some b → a ≡ b
some_eq a b h = cc h

or_true : (a b : Bool) → b ≡ true → (a || b) ≡ true
or_true a b h = ground arith

is_declared_iff :
    (fields : List Field) (name : Text) → (is_declared fields name ≡ true) ↔ IsDeclared fields name
unfolding is_declared
is_declared_iff [] name = (λ e. cc e, λ h. absurd h)
is_declared_iff (f ∷ fields) name = (
  λ e. elim (||-eq-true (text_eq f.name name) (is_declared fields name) e) [
    | inl t ↦ inl (text_eq→eq f.name name t)
    | inr t ↦ inr ((is_declared_iff fields name).0 t)
  ],
  λ h. elim h [
    | inl same ↦ rw (eq→text_eq f.name name same) refl
    | inr later ↦
        or_true (text_eq f.name name) (is_declared fields name)
          ((is_declared_iff fields name).1 later)
  ],
)

first_sorted-cons : (s : Text) (ss : List Text) → first_sorted (s ∷ ss) ≢ none
unfolding first_sorted
first_sorted-cons s ss h = elim (Option-cases (first_sorted ss)) [
  | inl e ↦ cc (rw e at h)
  | inr (t, e) ↦ elim (Bool-cases (text_less t s)) [
    | inl less ↦ cc (rw (e, less) at h)
    | inr not_less ↦ cc (rw (e, not_less) at h)
  ]
]

unknown_names_iff :
    (fields : List Field) (obj : Members)
    → (first_sorted (unknown_names fields obj) ≡ none) ↔ All (λ (n, val). IsDeclared fields n) obj
unfolding unknown_names first_sorted
unknown_names_iff fields [] = (λ e. tt, λ h. refl)
unknown_names_iff fields ((n, val) ∷ obj) = elim (Bool-cases (is_declared fields n)) [
  | inl e ↦
      let (to, from) = unknown_names_iff fields obj in
      (λ h. ((is_declared_iff fields n).0 e, to (rw e at h)), λ (here, later). rw e (from later))
  | inr e ↦ (
    λ h. absurd (first_sorted-cons n (unknown_names fields obj) (rw e at h)),
    λ (here, later). absurd (cc (e, (is_declared_iff fields n).1 here)),
  )
]

is_empty_iff : (t : Text) → (is_empty t ≡ false) ↔ (t ≢ [])
is_empty_iff [] = (λ e. cc e, λ h. absurd (h refl))
is_empty_iff (c ∷ t) = (λ e same. cc same, λ h. refl)

is_any_iff : (kind : FieldKind) → (is_any kind ≡ true) ↔ (kind ≡ kind_any)
is_any_iff kind_string = (λ e. cc e, λ h. cc h)
is_any_iff kind_number = (λ e. cc e, λ h. cc h)
is_any_iff kind_bool = (λ e. cc e, λ h. cc h)
is_any_iff kind_object = (λ e. cc e, λ h. cc h)
is_any_iff kind_array = (λ e. cc e, λ h. cc h)
is_any_iff kind_any = (λ e. refl, λ h. refl)

-- A check under a test, whose failure is an error.
abbrev checked : Bool → SchemaError → Result SchemaError (Unit {0})
checked b e = if b then ok tt else err e

if_ok : (b : Bool) (e : SchemaError) → (checked b e ≡ ok tt) ↔ (b ≡ true)
if_ok true e = (λ h. refl, λ h. refl)
if_ok false e = (λ h. cc h, λ h. cc h)

module _ (decoder : Decoder) where
  -- A value of the kind: null is of no kind but KindAny.
  unfoldable pub IsOfKind : FieldKind → Text → Type 0
  IsOfKind kind val =
      let trimmed = decoder.trim_space val in
      (trimmed ≢ [])
      × ((trimmed ≡ codes "null") × (kind ≡ kind_any)
          ⊎ (trimmed ≢ codes "null")
            × ((shape : Shape) × (decoder.shape_of val ≡ some shape) × (admits kind shape ≡ true)))

  -- A field is absent and not required, or present with a value of its kind.
  unfoldable pub Fits : Members → Field → Type 0
  unfolding IsOfKind
  Fits obj f =
      (find_member f.name obj ≡ none) × (f.required ≡ false)
      ⊎ ((val : Text) × (find_member f.name obj ≡ some val) × IsOfKind f.kind val)

  check_shape_iff :
      (f : Field) (val : Text)
      → decoder.trim_space val ≢ []
      → decoder.trim_space val ≢ codes "null"
      → (check_shape decoder f (decoder.shape_of val) ≡ ok tt) ↔ IsOfKind f.kind val
  unfolding check_shape IsOfKind
  check_shape_iff f val some_text different = elim (Option-cases (decoder.shape_of val)) [
    | inl e ↦
        rw (e, check_shape)
          (
            λ h. cc h,
            λ (_, h). elim h [
              | inl (same, _) ↦ absurd (different same)
              | inr (_, (shape, there, _)) ↦ absurd (cc there)
            ],
          )
    | inr (shape, e) ↦
        rw (e, check_shape)
          (
            λ h. (some_text, inr (different, (shape, refl, (if_ok (admits f.kind shape) _).0 h))),
            λ (_, h). elim h [
              | inl (same, _) ↦ absurd (different same)
              | inr (_, (shape', there, fits)) ↦
                  (if_ok (admits f.kind shape) _).1 (cc (there, fits))
            ],
          )
  ]

  check_kind_iff :
      (f : Field) (val : Text) → (check_kind decoder f val ≡ ok tt) ↔ IsOfKind f.kind val
  unfolding check_kind check_shape IsOfKind
  check_kind_iff f val =
      let trimmed = decoder.trim_space val in
      elim (Bool-cases (is_empty trimmed)) [
        | inl e ↦
            rw e (λ h. cc h, λ (some_text, h). absurd (cc (e, (is_empty_iff trimmed).1 some_text)))
        | inr e ↦ elim (Bool-cases (text_eq trimmed (codes "null"))) [
          | inl n ↦
              let same = text_eq→eq trimmed (codes "null") n in
              rw (e, n)
                (
                  λ h. (
                    (is_empty_iff trimmed).0 e,
                    inl (same, (is_any_iff f.kind).0 ((if_ok (is_any f.kind) _).0 h)),
                  ),
                  λ (some_text, h). elim h [
                    | inl (_, any_kind) ↦
                        (if_ok (is_any f.kind) _).1 ((is_any_iff f.kind).1 any_kind)
                    | inr (different, _) ↦ absurd (different same)
                  ],
                )
          | inr n ↦
              rw (e, n)
                (check_shape_iff f val ((is_empty_iff trimmed).0 e)
                  (λ same. cc (n, eq→text_eq trimmed (codes "null") same)))
        ]
      ]

  check_field_iff :
      (f : Field) (obj : Members)
      → (check_field decoder f (find_member f.name obj) ≡ ok tt) ↔ Fits obj f
  unfolding check_field Fits
  check_field_iff f obj = elim (Option-cases (find_member f.name obj)) [
    | inl e ↦ elim (Bool-cases f.required) [
      | inl r ↦
          rw (e, r, check_field)
            (
              λ h. cc h,
              λ h. elim h [
                | inl (_, optional) ↦ absurd (cc optional)
                | inr (val, there, _) ↦ absurd (cc there)
              ],
            )
      | inr r ↦ rw (e, r, check_field) (λ h. inl (refl, refl), λ h. refl)
    ]
    | inr (val, e) ↦
        let (to, from) = check_kind_iff f val in
        rw (e, check_field)
          (
            λ h. inr (val, refl, to h),
            λ h. elim h [
              | inl (absent, _) ↦ absurd (cc absent)
              | inr (val', there, fits) ↦
                  from (subst (λ v. IsOfKind f.kind v) (some_eq val' val (sym there)) fits)
            ],
          )
  ]

  check_fields_iff :
      (fields : List Field) (obj : Members)
      → (check_fields decoder fields obj ≡ ok tt) ↔ All (Fits obj) fields
  unfolding check_fields
  check_fields_iff [] obj = (λ h. tt, λ h. refl)
  check_fields_iff (f ∷ fields) obj =
      let (to, from) = check_field_iff f obj in
      let (to', from') = check_fields_iff fields obj in
      (
        λ h.
            let (_, first, rest) =
              >>=-eq-ok (check_field decoder f (find_member f.name obj))
                (λ u. check_fields decoder fields obj) h in
            (to first, to' rest),
        λ (here, later). rw (from here) (from' later),
      )

  validate_members_iff :
      (fields : List Field) (obj : Members)
      → (validate_members decoder fields obj ≡ ok tt)
        ↔ All (λ (n, val). IsDeclared fields n) obj × All (Fits obj) fields
  unfolding validate_members
  validate_members_iff fields obj =
      let (to, from) = check_fields_iff fields obj in
      let (known, unknown) = unknown_names_iff fields obj in
      elim (Option-cases (first_sorted (unknown_names fields obj))) [
        | inl e ↦ rw (e, validate_members) (λ h. (known e, to h), λ (_, fits). from fits)
        | inr (name, e) ↦
            rw (e, validate_members) (λ h. cc h, λ (declared, _). absurd (cc (e, unknown declared)))
      ]

  -- The input is accepted exactly when it is not empty and json.Unmarshal decodes it into a map (it
  -- is an object, or null, whose map is empty), each member of the map is declared, and each
  -- declared field is absent and not required, or has a value of its kind.
  pub validate_iff :
      (fields : List Field) (raw : Text)
      → (validate decoder fields raw ≡ ok tt)
        ↔ (raw ≢ [])
          × ((obj : Members) × (decoder.decode_members raw ≡ some obj)
              × All (λ (n, val). IsDeclared fields n) obj
              × All (Fits obj) fields)
  unfolding validate validate_members
  validate_iff fields raw = elim (Bool-cases (is_empty raw)) [
    | inl e ↦ rw e (λ h. cc h, λ (some_text, _). absurd (cc (e, (is_empty_iff raw).1 some_text)))
    | inr e ↦ elim (Option-cases (decoder.decode_members raw)) [
      | inl d ↦ rw (e, d) (λ h. cc h, λ (_, (obj, there, _, _)). absurd (cc there))
      | inr (obj, d) ↦
          let (to, from) = validate_members_iff fields obj in
          rw (e, d)
            (
              λ h. let (known, fits) = to h in ((is_empty_iff raw).0 e, (obj, refl, known, fits)),
              λ (_, (obj', there, known, fits)). from (
                  subst (λ o. All (λ (n, val). IsDeclared fields n) o × All (Fits o) fields)
                    (some_eq obj' obj (sym there)) (known, fits)),
            )
    ]
  ]

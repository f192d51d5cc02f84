-- ===== src/Action/Schema.antt =====
-- internal/action/schema.go: ObjectSchema. encoding/json and strings.TrimSpace are parameters.
use boardchestrator.Prelude.{
  Bool, true, false, not, Option, none, some, List, [], ◌∷◌, any, keep, map, Text, codes, text_eq,
  is_empty, ltb, ◌==◌, Result, ok, err, ◌>>◌, if◌then◌else◌,
}

-- KindString to KindAny.
pub data FieldKind : Type 0 where
  kind_string kind_number kind_bool kind_object kind_array kind_any : FieldKind

pub record Field : Type 0 where
  pub name : Text
  pub kind : FieldKind
  pub required : Bool

-- The dynamic types of a decoded value.
pub data Shape : Type 0 where
  null string number bool object array : Shape

pub data SchemaError : Type 0 where
  empty_input not_object : SchemaError
  unknown_field missing_field empty_field null_field bad_field wrong_type : Text → SchemaError

abbrev pub Members : Type 0
Members = List (Text × Text)

pub record Decoder : Type 0 where
  -- json.Unmarshal into a map[string]json.RawMessage: its entries. The map of "null" is nil.
  pub decode_members : Text → Option Members
  -- json.Unmarshal into an any.
  pub shape_of : Text → Option Shape
  pub trim_space : Text → Text

-- The switch of checkKind.
unfoldable pub admits : FieldKind → Shape → Bool
admits kind_string string = true
admits kind_number number = true
admits kind_bool bool = true
admits kind_object object = true
admits kind_array array = true
admits kind_any shape = true
admits kind shape = false

abbrev pub is_any : FieldKind → Bool
is_any kind_any = true
is_any _ = false

unfoldable pub find_member : Text → Members → Option Text
find_member name [] = none
find_member name ((n, val) ∷ obj) = if text_eq n name then some val else find_member name obj

-- The order of sort.Strings.
unfoldable pub text_less : Text → Text → Bool
text_less s [] = false
text_less [] (c ∷ t) = true
text_less (b ∷ s) (c ∷ t) = if b == c then text_less s t else ltb b c

-- sort.Strings, then the first element.
unfoldable pub first_sorted : List Text → Option Text
unfolding text_less
first_sorted [] = none
first_sorted (s ∷ ss) = elim (first_sorted ss) [
  | none ↦ some s
  | some t ↦ if text_less t s then some t else some s
]

unfoldable pub is_declared : List Field → Text → Bool
is_declared fields name = any (λ (f : Field). text_eq f.name name) fields

-- The names in the input that are not declared.
unfoldable pub unknown_names : List Field → Members → List Text
unfolding is_declared
unknown_names fields obj = keep (λ name. not (is_declared fields name)) (map (λ (n, val). n) obj)

module _ (decoder : Decoder) where
  unfoldable pub check_shape : Field → Option Shape → Result SchemaError (Unit {0})
  unfolding admits
  check_shape f none = err (bad_field f.name)
  check_shape f (some shape) = if admits f.kind shape then ok tt else err (wrong_type f.name)

  unfoldable pub check_kind : Field → Text → Result SchemaError (Unit {0})
  unfolding check_shape text_eq
  check_kind f val =
      let trimmed = decoder.trim_space val in
      if is_empty trimmed
      then err (empty_field f.name)
      else if text_eq trimmed (codes "null")
      then if is_any f.kind then ok tt else err (null_field f.name)
      else check_shape f (decoder.shape_of val)

  -- The body of the loop over the declared fields.
  unfoldable pub check_field : Field → Option Text → Result SchemaError (Unit {0})
  unfolding check_kind
  check_field f none = if f.required then err (missing_field f.name) else ok tt
  check_field f (some val) = check_kind f val

  unfoldable pub check_fields : List Field → Members → Result SchemaError (Unit {0})
  unfolding check_field find_member
  check_fields [] obj = ok tt
  check_fields (f ∷ fields) obj = check_field f (find_member f.name obj) >> check_fields fields obj

  unfoldable pub validate_members : List Field → Members → Result SchemaError (Unit {0})
  unfolding check_fields first_sorted unknown_names
  validate_members fields obj = elim (first_sorted (unknown_names fields obj)) [
    | some name ↦ err (unknown_field name)
    | none ↦ check_fields fields obj
  ]

  -- ObjectSchema.Validate
  unfoldable pub validate : List Field → Text → Result SchemaError (Unit {0})
  unfolding validate_members
  validate fields raw =
      if is_empty raw then err empty_input else elim (decoder.decode_members raw) [
        | none ↦ err not_object
        | some obj ↦ validate_members fields obj
      ]

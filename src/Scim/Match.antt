-- ===== src/Scim/Match.antt =====
-- internal/auth/scim/filter.go: evaluation. A resource is decoded JSON; a map is the list of its
-- entries in the order in which a range over it gives them, which Go leaves open.
use boardchestrator.Prelude.{
  ℕ, Bool, true, false, ◌&&◌, ◌||◌, not, List, [], ◌∷◌, ◌++◌, any, keep, Text, codes, text_eq,
  is_empty, if◌then◌else◌,
}
use boardchestrator.Scim.Syntax.{
  Value, null, bool, number, string, Test, bare, pr, eq, Filter, end, and, Cond, group, attr, Sub,
  no_sub, sub,
}

-- The dynamic types of a resource: nil, bool, int and float64 (their bits), string, []any and
-- map[string]any.
mutual
  pub data Json : Type 0 where
    nil : Json
    boolean : Bool → Json
    int float : ℕ → Json
    text : Text → Json
    array : Jsons → Json
    object : Fields → Json

  pub data Jsons : Type 0 where
    no_more : Jsons
    element : Json → Jsons → Jsons

  pub data Fields : Type 0 where
    no_fields : Fields
    field : Text → Json → Fields → Fields

unfoldable pub elements : Jsons → List Json
elements no_more = []
elements (element v vs) = v ∷ elements vs

-- What the evaluation uses of strings, of float64 and of strconv.
pub record Compare : Type 0 where
  pub equal_fold : Text → Text → Bool
  pub float_eq : ℕ → ℕ → Bool
  pub float_of_int : ℕ → ℕ

abbrev pub format_bool : Bool → Text
format_bool true = codes "true"
format_bool false = codes "false"

abbrev same_bool : Bool → Bool → Bool
same_bool true b = b
same_bool false b = not b

-- caseExact
abbrev pub is_case_exact : List Text → Bool
is_case_exact (key ∷ []) = text_eq key (codes "id") || text_eq key (codes "externalid")
is_case_exact _ = false

unfoldable pub present : Json → Bool
present nil = false
present (text s) = not (is_empty s)
present (array no_more) = false
present (object no_fields) = false
present _ = true

-- A value of an attribute: the elements of an array, and nothing for nil.
unfoldable pub values_of : Json → List Json
unfolding elements
values_of nil = []
values_of (array vs) = elements vs
values_of v = v ∷ []

unfoldable pub concat_map : (Json → List Json) → List Json → List Json
concat_map f [] = []
concat_map f (v ∷ vs) = f v ++ concat_map f vs

abbrev pub no_values : List Json → Bool
no_values [] = true
no_values (v ∷ vs) = false

-- c.Sub.Match on a value that is a map; no other value is picked.
unfoldable pub matching : (Fields → Bool) → Json → Bool
matching p (object m) = p m
matching p _ = false

module _ (compare : Compare) where
  unfoldable pub equal : Bool → Json → Value → Bool
  unfolding text_eq
  equal exact (text h) (string w) = if exact then text_eq h w else compare.equal_fold h w
  equal exact (boolean b) (string w) = compare.equal_fold w (format_bool b)
  equal exact (boolean h) (bool w) = same_bool h w
  equal exact (text h) (bool w) = compare.equal_fold h (format_bool w)
  equal exact (float h) (number w) = compare.float_eq h w
  equal exact (int h) (number w) = compare.float_eq (compare.float_of_int h) w
  equal exact have want = false

  -- The loop over a map in `lookup`.
  unfoldable pub fields_at : Text → Fields → List Json
  unfolding values_of
  fields_at key no_fields = []
  fields_at key (field k v m) =
      let rest = fields_at key m in if compare.equal_fold k key then values_of v ++ rest else rest

  unfoldable pub step_into : Text → Json → List Json
  unfolding fields_at
  step_into key (object m) = fields_at key m
  step_into key _ = []

  unfoldable pub lookup : List Json → List Text → List Json
  unfolding concat_map step_into
  lookup current [] = current
  lookup current (key ∷ path) = lookup (concat_map (step_into key) current) path

  unfoldable pub holds : Bool → Test → List Json → Bool
  unfolding equal present
  holds exact bare vals = false
  holds exact pr vals = any present vals
  holds exact (eq null) vals = any (λ v. equal exact v null) vals || no_values vals
  holds exact (eq want) vals = any (λ v. equal exact v want) vals

  -- The part of `match` for a value filter, over the values that it picked.
  unfoldable pub sub_holds : Text → Test → List Json → Bool
  unfolding holds lookup
  sub_holds sub_attr test picked =
      if is_empty sub_attr
      then not (no_values picked)
      else holds false test (lookup picked (sub_attr ∷ []))

  -- Filter.Match and Cond.match
  unfoldable mutual
    unfolding holds sub_holds lookup matching

    pub filter_match : Filter → Fields → Bool
    filter_match end m = true
    filter_match (and c f) m = cond_match c m && filter_match f m

    pub cond_match : Cond → Fields → Bool
    cond_match (group f) m = filter_match f m
    cond_match (attr path s test) m =
        sub_match s (is_case_exact path) test (lookup (object m ∷ []) path)

    pub sub_match : Sub → Bool → Test → List Json → Bool
    sub_match no_sub exact test vals = holds exact test vals
    sub_match (sub f sub_attr) exact test vals =
        sub_holds sub_attr test (keep (matching (λ m. filter_match f m)) vals)

-- ===== src/Scim/Print.antt =====
-- Filters printed as tokens, each path with the prefix of the user schema, and the filters that
-- the parser can give.
use boardchestrator.Prelude.{ℕ, ◌≡◌, true, false, ◌⊎◌, List, [], ◌∷◌, ◌++◌, Text, codes, ok}
use boardchestrator.Scim.Lexer.{
  Token, lparen, rparen, lbracket, rbracket, ident, str, Tokens, Codec,
}
use boardchestrator.Scim.Syntax.{
  Value, null, bool, number, string, Test, bare, pr, eq, Filter, end, and, Cond, group, attr, Sub,
  no_sub, sub,
}
use boardchestrator.Scim.Parser.{lower, schema_user, attr_path, value_of, is_malformed}

unfoldable pub join_dots : List Text → Text
join_dots [] = []
join_dots (s ∷ []) = s
join_dots (s ∷ (t ∷ ss)) = s ++ (codes "." ++ join_dots (t ∷ ss))

abbrev pub qualified : List Text → Text
qualified path = schema_user ++ join_dots path

unfoldable pub print_sub_attr : Text → Tokens
print_sub_attr [] = []
print_sub_attr (c ∷ s) = ident (b'.' ∷ c ∷ s) ∷ []

-- `format` prints a float64.
module _ (format : ℕ → Text) where
  unfoldable pub print_value : Value → Token
  print_value null = ident (codes "null")
  print_value (bool true) = ident (codes "true")
  print_value (bool false) = ident (codes "false")
  print_value (number n) = ident (format n)
  print_value (string s) = str s

  unfoldable pub print_test : Test → Tokens
  unfolding print_value
  print_test bare = []
  print_test pr = ident (codes "pr") ∷ []
  print_test (eq v) = ident (codes "eq") ∷ print_value v ∷ []

  unfoldable mutual
    unfolding print_test print_sub_attr

    pub print_filter : Filter → Tokens
    print_filter end = []
    print_filter (and c f) = print_cond c ++ print_more f

    -- The conditions after the first.
    pub print_more : Filter → Tokens
    print_more end = []
    print_more (and c f) = ident (codes "and") ∷ (print_cond c ++ print_more f)

    pub print_cond : Cond → Tokens
    print_cond (group f) = lparen ∷ (print_filter f ++ rparen ∷ [])
    print_cond (attr path s test) = ident (qualified path) ∷ (print_sub s ++ print_test test)

    pub print_sub : Sub → Tokens
    print_sub no_sub = []
    print_sub (sub f sub_attr) = lbracket ∷ (print_filter f ++ rbracket ∷ print_sub_attr sub_attr)

  module _ (codec : Codec) where
    unfoldable pub IsPrintable : Value → Type 0
    IsPrintable (number n) = value_of codec (format n) ≡ ok (number n)
    IsPrintable _ = Unit {0}

    unfoldable pub IsOperator : Test → Type 0
    unfolding IsPrintable
    IsOperator bare = ⊥
    IsOperator pr = Unit {0}
    IsOperator (eq v) = IsPrintable v

    -- A sub-attribute is lower-case and has an operator; without one there is none.
    unfoldable pub IsSubAttr : Text → Test → Type 0
    unfolding IsOperator
    IsSubAttr sub_attr test =
        (sub_attr ≡ []) × (test ≡ bare)
        ⊎ (is_malformed sub_attr ≡ false) × (lower sub_attr ≡ sub_attr) × IsOperator test

    -- What the parser can give: no filter is empty, paths are those of an attribute name, and
    -- operators stand where they must.
    unfoldable mutual
      unfolding IsSubAttr attr_path

      pub IsFilter : Filter → Type 0
      IsFilter end = ⊥
      IsFilter (and c f) = IsCond c × AreConds f

      pub AreConds : Filter → Type 0
      AreConds end = Unit {0}
      AreConds (and c f) = IsCond c × AreConds f

      pub IsCond : Cond → Type 0
      IsCond (group f) = IsFilter f
      IsCond (attr path s test) = (attr_path (qualified path) ≡ ok path) × IsSub s test

      pub IsSub : Sub → Test → Type 0
      IsSub no_sub test = IsOperator test
      IsSub (sub f sub_attr) test = IsFilter f × IsSubAttr sub_attr test

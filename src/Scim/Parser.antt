-- ===== src/Scim/Parser.antt =====
-- internal/auth/scim/filter.go: the parser. It reads a prefix of the tokens and returns what is
-- left. The depth is the number of filters that may still be opened.
use boardchestrator.Prelude.{
  ℕ, zero, suc, Bool, true, false, ◌&&◌, ◌||◌, not, none, some, List, [], ◌∷◌, any, map, drop, Text,
  codes, text_eq, is_empty, has_prefix, Result, ok, err, ◌>>=◌, if◌then◌else◌, ltb, ◌==◌, ◌+◌,
  length,
}
use boardchestrator.Scim.Lexer.{
  FilterError, empty_filter, text_after_path, path_too_long, filter_too_long, unexpected_token,
  nested_too_deeply, or_not_supported, not_not_supported, missing_rparen, missing_rbracket,
  expected_attribute, expected_operator, unknown_operator, unsupported_operator, expected_value,
  malformed_sub_attribute, unknown_attribute, malformed_attribute, out_of_fuel, lparen, rparen,
  lbracket, rbracket, ident, str, Tokens, Codec, tokenize, within,
}
use boardchestrator.Scim.Syntax.{
  Value, null, bool, number, string, Test, bare, pr, eq, Filter, end, and, Cond, group, attr,
  no_sub, sub,
}

abbrev pub max_filter_len : ℕ
max_filter_len = 2048

abbrev pub max_filter_depth : ℕ
max_filter_depth = 8

abbrev pub Parser : Type 0 → Type 0
Parser A = Tokens → Result FilterError (A × Tokens)

-- strings.ToLower, on ASCII: an identifier has no other character.
abbrev pub lower_char : ℕ → ℕ
lower_char c = if within b'A' c b'Z' then c + 32 else c

abbrev pub lower : Text → Text
lower = map lower_char

abbrev pub schema_user : Text
schema_user = codes "urn:ietf:params:scim:schemas:core:2.0:user:"

abbrev pub schema_group : Text
schema_group = codes "urn:ietf:params:scim:schemas:core:2.0:group:"

abbrev pub schema_enterprise_user : Text
schema_enterprise_user = codes "urn:ietf:params:scim:schemas:extension:enterprise:2.0:user:"

-- The loop over schemaPrefixes, which drops one of them.
unfoldable pub drop_schema : Text → Text
unfolding has_prefix
drop_schema n =
    if has_prefix n schema_user
    then drop (length schema_user) n
    else if has_prefix n schema_group
    then drop (length schema_group) n
    else if has_prefix n schema_enterprise_user
    then drop (length schema_enterprise_user) n
    else n

abbrev pub prepend_to_first : ℕ → List Text → List Text
prepend_to_first c [] = (c ∷ []) ∷ []
prepend_to_first c (s ∷ ss) = (c ∷ s) ∷ ss

-- strings.Split(s, ".")
unfoldable pub split_dots : Text → List Text
split_dots [] = [] ∷ []
split_dots (c ∷ s) =
    let rest = split_dots s in if c == b'.' then [] ∷ rest else prepend_to_first c rest

abbrev pub has_char : ℕ → Text → Bool
has_char d = any (λ c. c == d)

-- The checks of a lower-cased name without its schema.
unfoldable pub path_of : Text → Result FilterError (List Text)
unfolding split_dots has_prefix
path_of n =
    let parts = split_dots n in
    if is_empty n || has_prefix n (codes ".") || has_char b':' n
    then err unknown_attribute
    else if ltb 2 (length parts)
    then err unknown_attribute
    else if any is_empty parts
    then err malformed_attribute
    else ok parts

unfoldable pub attr_path : Text → Result FilterError (List Text)
unfolding drop_schema path_of
attr_path name = path_of (drop_schema (lower name))

abbrev pub unsupported : List Text
unsupported =
    codes "ne"
    ∷ codes "co"
    ∷ codes "sw"
    ∷ codes "ew"
    ∷ codes "gt"
    ∷ codes "ge"
    ∷ codes "lt"
    ∷ codes "le"
    ∷ []

-- The check of a sub-attribute after "].".
abbrev pub is_malformed : Text → Bool
is_malformed sa = is_empty sa || has_char b'.' sa || has_char b':' sa

-- strings.TrimPrefix(s, "."), then strings.ToLower
abbrev pub sub_attr_of : Text → Text
sub_attr_of [] = []
sub_attr_of (c ∷ s) = lower (if c == b'.' then s else c ∷ s)

-- An optional sub-attribute: empty where the next token is not one.
unfoldable pub parse_sub_attr : Parser Text
unfolding has_prefix
parse_sub_attr (ident t ∷ ts) =
    if has_prefix t (codes ".")
    then if is_malformed (sub_attr_of t)
      then err malformed_sub_attribute
      else ok (sub_attr_of t, ts)
    else ok ([], ident t ∷ ts)
parse_sub_attr ts = ok ([], ts)

unfoldable pub expect_rparen : Parser (Unit {0})
expect_rparen (rparen ∷ ts) = ok (tt, ts)
expect_rparen _ = err missing_rparen

unfoldable pub expect_rbracket : Parser (Unit {0})
expect_rbracket (rbracket ∷ ts) = ok (tt, ts)
expect_rbracket _ = err missing_rbracket

module _ (codec : Codec) where
  unfoldable pub value_of : Text → Result FilterError Value
  unfolding text_eq
  value_of t =
      if text_eq (lower t) (codes "true")
      then ok (bool true)
      else if text_eq (lower t) (codes "false")
      then ok (bool false)
      else if text_eq (lower t) (codes "null")
      then ok null
      else elim (codec.parse_float t) [ none ↦ err expected_value | some f ↦ ok (number f) ]

  unfoldable pub parse_value : Parser Value
  unfolding value_of
  parse_value (str s ∷ ts) = ok (string s, ts)
  parse_value (ident t ∷ ts) = value_of t >>= λ v. ok (v, ts)
  parse_value _ = err expected_value

  -- The switch on the operator, which is lower-cased.
  unfoldable pub parse_operand : Text → Parser Test
  unfolding parse_value text_eq
  parse_operand op ts =
      if text_eq op (codes "eq")
      then (parse_value ts >>= λ (v, rest). ok (eq v, rest))
      else if text_eq op (codes "pr")
      then ok (pr, ts)
      else if any (text_eq op) unsupported
      then err unsupported_operator
      else err unknown_operator

  unfoldable pub parse_test : Parser Test
  unfolding parse_operand
  parse_test (ident t ∷ ts) = parse_operand (lower t) ts
  parse_test _ = err expected_operator

  -- The part of `cond` that follows the value filter.
  unfoldable pub after_sub : List Text → Filter → Text → Tokens → Result FilterError (Cond × Tokens)
  unfolding parse_test
  after_sub path f sub_attr ts =
      if is_empty sub_attr
      then ok (attr path (sub f []) bare, ts)
      else (parse_test ts >>= λ (test, rest). ok (attr path (sub f sub_attr) test, rest))

  -- The part of `cond` that follows a path.
  unfoldable pub after_path : Parser Filter → List Text → Parser Cond
  unfolding parse_test after_sub expect_rbracket parse_sub_attr
  after_path parse_filter path (lbracket ∷ ts) = do
    (f, ts₁) ← parse_filter ts
    (_, ts₂) ← expect_rbracket ts₁
    (sub_attr, ts₃) ← parse_sub_attr ts₂
    after_sub path f sub_attr ts₃
  after_path parse_filter path ts =
      parse_test ts >>= λ (test, rest). ok (attr path no_sub test, rest)

  unfoldable pub cond : Parser Filter → Parser Cond
  unfolding after_path expect_rparen attr_path text_eq
  cond parse_filter (lparen ∷ ts) = do
    (f, ts₁) ← parse_filter ts
    (_, ts₂) ← expect_rparen ts₁
    ok (group f, ts₂)
  cond parse_filter (ident t ∷ ts) =
      if text_eq (lower t) (codes "not")
      then err not_not_supported
      else (attr_path t >>= λ path. after_path parse_filter path ts)
  cond parse_filter _ = err expected_attribute

  -- The switch after a condition: `more` reads the conditions after an "and".
  unfoldable pub after_cond : Parser Filter → Cond → Parser Filter
  unfolding text_eq
  after_cond more c (ident t ∷ ts) =
      if text_eq (lower t) (codes "and")
      then (more ts >>= λ (f, rest). ok (and c f, rest))
      else if text_eq (lower t) (codes "or")
      then err or_not_supported
      else err unexpected_token
  after_cond more c ts = ok (and c end, ts)

  -- The loop of `filter`: each round takes a token.
  unfoldable pub conds : ℕ → Parser Filter → Parser Filter
  unfolding cond after_cond
  conds zero parse_filter ts = err out_of_fuel
  conds (suc fuel) parse_filter ts =
      cond parse_filter ts >>= λ (c, rest). after_cond (conds fuel parse_filter) c rest

  unfoldable pub filter : ℕ → Parser Filter
  unfolding conds
  filter zero ts = err nested_too_deeply
  filter (suc left) ts = conds (suc (length ts)) (filter left) ts

  unfoldable pub end_of_input : Filter → Tokens → Result FilterError Filter
  end_of_input f [] = ok f
  end_of_input f (t ∷ ts) = err unexpected_token

  unfoldable pub parse_tokens : Tokens → Result FilterError Filter
  unfolding filter end_of_input
  parse_tokens ts = filter max_filter_depth ts >>= λ (f, rest). end_of_input f rest

  unfoldable pub parse_filter : Text → Result FilterError Filter
  unfolding tokenize parse_tokens
  parse_filter s =
      if codec.is_blank s
      then err empty_filter
      else if ltb max_filter_len (length s)
      then err filter_too_long
      else (tokenize codec s >>= parse_tokens)

  -- The end of ParsePath.
  unfoldable pub path_end : Cond → Tokens → Result FilterError Cond
  path_end c [] = ok c
  path_end c (t ∷ ts) = err text_after_path

  -- The part of ParsePath that follows the attribute name.
  unfoldable pub path_rest : List Text → Tokens → Result FilterError Cond
  unfolding path_end filter expect_rbracket parse_sub_attr
  path_rest path (lbracket ∷ ts) = do
    (f, ts₁) ← filter max_filter_depth ts
    (_, ts₂) ← expect_rbracket ts₁
    (sub_attr, ts₃) ← parse_sub_attr ts₂
    path_end (attr path (sub f sub_attr) bare) ts₃
  path_rest path ts = path_end (attr path no_sub bare) ts

  unfoldable pub path_tokens : Tokens → Result FilterError Cond
  unfolding path_rest attr_path
  path_tokens (ident t ∷ ts) = attr_path t >>= λ path. path_rest path ts
  path_tokens _ = err expected_attribute

  unfoldable pub parse_path : Text → Result FilterError Cond
  unfolding tokenize path_tokens
  parse_path s =
      if ltb max_filter_len (length s)
      then err path_too_long
      else (tokenize codec s >>= path_tokens)

-- isExtensionPath, on the text that strings.TrimSpace leaves.
unfoldable pub is_extension_path : Text → Bool
unfolding has_prefix
is_extension_path trimmed =
    let ls = lower trimmed in
    has_prefix ls (codes "urn:") && not (has_prefix ls schema_user || has_prefix ls schema_group)

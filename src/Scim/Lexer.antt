-- ===== src/Scim/Lexer.antt =====
-- internal/auth/scim/filter.go: tokenize. The parser's tkEOF at the end of the slice is the end
-- of the list here.
use boardchestrator.Prelude.{
  ℕ, zero, suc, Bool, ◌&&◌, ◌||◌, Option, none, some, List, [], ◌∷◌, Text, Result, ok, err, ◌>>=◌,
  if◌then◌else◌, leb, ◌==◌, length,
}

pub data FilterError : Type 0 where
  empty_filter filter_too_long unterminated_string malformed_string unexpected_character :
      FilterError
  unexpected_token nested_too_deeply or_not_supported not_not_supported missing_rparen
        missing_rbracket :
      FilterError
  expected_attribute expected_operator unknown_operator unsupported_operator expected_value :
      FilterError
  malformed_sub_attribute unknown_attribute malformed_attribute path_too_long text_after_path
        out_of_fuel :
      FilterError

pub data Token : Type 0 where
  lparen rparen lbracket rbracket : Token
  ident : Text → Token
  str : Text → Token

abbrev pub Tokens : Type 0
Tokens = List Token

abbrev pub is_space : ℕ → Bool
is_space c = (c == b' ') || (c == 9) || (c == 10) || (c == 13)

abbrev pub within : ℕ → ℕ → ℕ → Bool
within low c high = leb low c && leb c high

-- isIdentChar
abbrev pub is_ident_char : ℕ → Bool
is_ident_char c =
    within b'a' c b'z'
    || within b'A' c b'Z'
    || within b'0' c b'9'
    || (c == b'.')
    || (c == b':')
    || (c == b'_')
    || (c == b'-')
    || (c == b'$')
    || (c == b'+')

abbrev pub Split : Type 0
Split = Text × Text

abbrev prepend : ℕ → Split → Split
prepend c (s, rest) = (c ∷ s, rest)

abbrev pub prepend_to : ℕ → Option Split → Option Split
prepend_to c none = none
prepend_to c (some p) = some (prepend c p)

-- The loop over an identifier.
unfoldable pub span_ident : Text → Split
span_ident [] = ([], [])
span_ident (c ∷ s) =
    let more = span_ident s in if is_ident_char c then prepend c more else ([], c ∷ s)

-- The loop over a string, from after its opening quote: what it holds with its closing quote, and
-- what follows.
unfoldable mutual
  pub span_string : Text → Option Split
  span_string [] = none
  span_string (c ∷ s) =
      let escaped = after_backslash s in
      let more = span_string s in
      if c == b'\\'
      then prepend_to c escaped
      else if c == b'"'
      then some (c ∷ [], s)
      else prepend_to c more

  pub after_backslash : Text → Option Split
  after_backslash [] = none
  after_backslash (c ∷ s) = prepend_to c (span_string s)

abbrev pub emit : Token → Result FilterError Tokens → Result FilterError Tokens
emit t rest = rest >>= λ ts. ok (t ∷ ts)

-- What the lexer and the parser use of encoding/json, strconv and strings. A float64 is its bits.
pub record Codec : Type 0 where
  pub decode_string : Text → Option Text
  pub parse_float : Text → Option ℕ
  -- strings.TrimSpace leaves nothing.
  pub is_blank : Text → Bool

module _ (codec : Codec) where
  -- A string, with the rest of the tokens.
  unfoldable pub lex_string :
      (Text → Result FilterError Tokens) → Option Split → Result FilterError Tokens
  lex_string continue none = err unterminated_string
  lex_string continue (some (body, rest)) = elim (codec.decode_string (b'"' ∷ body)) [
    | none ↦ err malformed_string
    | some v ↦ emit (str v) (continue rest)
  ]

  unfoldable pub lex_ident : (Text → Result FilterError Tokens) → Split → Result FilterError Tokens
  lex_ident continue (name, rest) = emit (ident name) (continue rest)

  -- The body of the loop, for the character at i and those after it.
  unfoldable pub lex_step :
      (Text → Result FilterError Tokens) → ℕ → Text → Result FilterError Tokens
  unfolding span_ident span_string lex_string lex_ident
  lex_step continue c s =
      if is_space c
      then continue s
      else if c == b'('
      then emit lparen (continue s)
      else if c == b')'
      then emit rparen (continue s)
      else if c == b'['
      then emit lbracket (continue s)
      else if c == b']'
      then emit rbracket (continue s)
      else if c == b'"'
      then lex_string continue (span_string s)
      else if is_ident_char c
      then lex_ident continue (span_ident (c ∷ s))
      else err unexpected_character

  unfoldable pub lex : ℕ → Text → Result FilterError Tokens
  unfolding lex_step
  lex fuel [] = ok []
  lex zero (c ∷ s) = err out_of_fuel
  lex (suc fuel) (c ∷ s) = lex_step (lex fuel) c s

  -- tokenize: each round takes a character, so the length is enough.
  unfoldable pub tokenize : Text → Result FilterError Tokens
  unfolding lex
  tokenize s = lex (length s) s

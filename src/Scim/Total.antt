-- ===== src/Scim/Total.antt =====
-- The fuel of the lexer and the parser is enough: neither gives the model's own error.
use boardchestrator.Prelude.{
  ℕ, zero, suc, ◌≤◌, ◌≡◌, ◌≢◌, refl, Bool, true, false, Option, none, some, [], ◌∷◌, Text, Result,
  ok, err, ◌==◌, if◌then◌else◌, ◌⊎◌, length, ltb, arith, Bool-cases, Option-cases, inl, inr,
}
use boardchestrator.Scim.Lexer.{
  FilterError, out_of_fuel, Token, lparen, rparen, lbracket, rbracket, ident, str, Tokens, Codec,
  Split, span_ident, span_string, after_backslash, is_ident_char, is_space, emit, prepend_to,
  lex_string, lex_ident, lex_step, lex, tokenize,
}
use boardchestrator.Scim.Syntax.{number, Filter, depth}
use boardchestrator.Scim.Parser.{
  value_of, parse_tokens, parse_filter, max_filter_depth, max_filter_len,
}
use boardchestrator.Scim.Print.{print_filter}
use boardchestrator.Scim.RoundTrip.{parse_tokens-print}
use boardchestrator.Scim.Ensures.{Ensures, Ensures-bind, Ensures-if}
use boardchestrator.Scim.Sound.{GoodFilter, parse_tokens-Ensures}

-- What is left of a text is no longer than n.
abbrev LeavesAtMost : ℕ → Option Split → Type 0
LeavesAtMost n none = Unit {0}
LeavesAtMost n (some (s, rest)) = length rest ≤ n

LeavesAtMost-prepend :
    (n : ℕ) (c : ℕ) (m : Option Split) → LeavesAtMost n m → LeavesAtMost (suc n) (prepend_to c m)
LeavesAtMost-prepend n c none h = tt
LeavesAtMost-prepend n c (some (s, rest)) h = omega arith

LeavesAtMost-weaken : (n n' : ℕ) (m : Option Split) → n ≤ n' → LeavesAtMost n m → LeavesAtMost n' m
LeavesAtMost-weaken n n' none le h = tt
LeavesAtMost-weaken n n' (some (s, rest)) le h = omega arith

LeavesAtMost-if :
    (n : ℕ) (b b' : Bool) (x y z : Option Split)
    → LeavesAtMost n x
    → LeavesAtMost n y
    → LeavesAtMost n z
    → LeavesAtMost n (if b then x else if b' then y else z)
LeavesAtMost-if n true b' x y z hx hy hz = hx
LeavesAtMost-if n false true x y z hx hy hz = hy
LeavesAtMost-if n false false x y z hx hy hz = hz

mutual
  unfolding span_string

  length-span_string : (s : Text) → LeavesAtMost (length s) (span_string s)
  length-span_string [] = tt
  length-span_string (c ∷ s) =
      LeavesAtMost-if (suc (length s)) (c == b'\\') (c == b'"') _ _ _
        (LeavesAtMost-prepend (length s) c (after_backslash s) (length-after_backslash s))
        (omega arith) (LeavesAtMost-prepend (length s) c (span_string s) (length-span_string s))

  length-after_backslash : (s : Text) → LeavesAtMost (length s) (after_backslash s)
  length-after_backslash [] = tt
  length-after_backslash (c ∷ s) =
      LeavesAtMost-prepend (length s) c (span_string s) (length-span_string s)

length-span_ident : (s : Text) → length ((span_ident s).1) ≤ length s
unfolding span_ident
length-span_ident [] = omega arith
length-span_ident (c ∷ s) = elim (Bool-cases (is_ident_char c)) [
  | inl e ↦ rw e (let shorter = length-span_ident s in omega arith)
  | inr e ↦ rw e (omega arith)
]

length-span_ident_cons :
    (c : ℕ) (s : Text) → is_ident_char c ≡ true → length ((span_ident (c ∷ s)).1) ≤ length s
unfolding span_ident
length-span_ident_cons c s e = rw e (length-span_ident s)

-- No error of the model's own.
abbrev IsDefined : {A : Type 0} → Result FilterError A → Type 0
IsDefined m = Ensures (λ a. Unit {0}) m

emit-IsDefined : (t : Token) (m : Result FilterError Tokens) → IsDefined m → IsDefined (emit t m)
unfolding Ensures
emit-IsDefined t m h = Ensures-bind _ _ m _ h (λ ts u. tt)

module _ (codec : Codec) where
  module _ (continue : Text → Result FilterError Tokens) (n : ℕ)
      (continues : (s : Text) → length s ≤ n → IsDefined (continue s)) where
    lex_string-IsDefined :
        (split : Option Split) → LeavesAtMost n split → IsDefined (lex_string codec continue split)
    unfolding lex_string Ensures
    lex_string-IsDefined none h = refl
    lex_string-IsDefined (some (body, rest)) h =
        elim (Option-cases (codec.decode_string (b'"' ∷ body))) [
          | inl e ↦ rw (e, lex_string) refl
          | inr (v, e) ↦
              rw (e, lex_string) (emit-IsDefined (str v) (continue rest) (continues rest h))
        ]

    lex_step-IsDefined : (c : ℕ) (s : Text) → length s ≤ n → IsDefined (lex_step codec continue c s)
    unfolding lex_step lex_ident Ensures
    lex_step-IsDefined c s h =
        Ensures-if _ (is_space c) _ _ (λ e. continues s h)
          (λ e.
            Ensures-if _ (c == b'(') _ _ (λ e. emit-IsDefined lparen _ (continues s h))
              (λ e.
                Ensures-if _ (c == b')') _ _ (λ e. emit-IsDefined rparen _ (continues s h))
                  (λ e.
                    Ensures-if _ (c == b'[') _ _ (λ e. emit-IsDefined lbracket _ (continues s h))
                      (λ e.
                        Ensures-if _ (c == b']') _ _
                          (λ e. emit-IsDefined rbracket _ (continues s h))
                          (λ e.
                            Ensures-if _ (c == b'"') _ _
                              (λ e. lex_string-IsDefined (span_string s) (
                                LeavesAtMost-weaken (length s) n (span_string s) h
                                  (length-span_string s)))
                              (λ e.
                                Ensures-if _ (is_ident_char c) _ _
                                  (λ e. emit-IsDefined (ident ((span_ident (c ∷ s)).0)) _ (
                                    continues ((span_ident (c ∷ s)).1)
                                      (let shorter = length-span_ident_cons c s e in omega arith)))
                                  (λ e. refl)))))))

  lex-IsDefined : (n : ℕ) (s : Text) → length s ≤ n → IsDefined (lex codec n s)
  unfolding lex Ensures
  lex-IsDefined n [] h = tt
  lex-IsDefined zero (c ∷ s) h = grind arith
  lex-IsDefined (suc n) (c ∷ s) h =
      lex_step-IsDefined (lex codec n) n (lex-IsDefined n) c s (omega arith)

  module _ (format : ℕ → Text)
      (format_parses : (t : Text) (n : ℕ)
        → value_of codec t ≡ ok (number n)
        → value_of codec (format n) ≡ ok (number n)) where
    parse_filter-Ensures :
        (s : Text)
        → Ensures (GoodFilter format codec format_parses max_filter_depth) (parse_filter codec s)
    unfolding parse_filter tokenize Ensures
    parse_filter-Ensures s =
        Ensures-if _ (codec.is_blank s) _ _ (λ e. refl)
          (λ e.
            Ensures-if _ (ltb max_filter_len (length s)) _ _ (λ f. refl)
              (λ f.
                Ensures-bind _ _ (lex codec (length s) s) _
                  (lex-IsDefined (length s) s (omega arith))
                  (λ ts u. parse_tokens-Ensures format codec format_parses ts)))

    result-cases :
        (m : Result FilterError Filter)
        → Ensures (GoodFilter format codec format_parses max_filter_depth) m
        → ((f : Filter) × (m ≡ ok f)
            × (depth f ≤ max_filter_depth)
            × (parse_tokens codec (print_filter format f) ≡ ok f))
          ⊎ ((e : FilterError) × (m ≡ err e) × (e ≢ out_of_fuel))
    unfolding Ensures
    result-cases (ok f) (hf, low) = inl (f, refl, low, parse_tokens-print format codec f hf low)
    result-cases (err e) h = inr (e, refl, λ same. grind arith)

    -- Every text parses to a filter, nested at most 8 deep, that is parsed again from what
    -- `print_filter` prints of it, or to an error of the source's: never to the model's
    -- `out_of_fuel`. The condition: what `format` prints of a number that the codec reads is read as
    -- that number.
    pub parse_filter-cases :
        (s : Text)
        → ((f : Filter) × (parse_filter codec s ≡ ok f)
            × (depth f ≤ max_filter_depth)
            × (parse_tokens codec (print_filter format f) ≡ ok f))
          ⊎ ((e : FilterError) × (parse_filter codec s ≡ err e) × (e ≢ out_of_fuel))
    parse_filter-cases s = result-cases (parse_filter codec s) (parse_filter-Ensures s)

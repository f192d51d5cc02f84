-- ===== src/Scim/Sound.antt =====
-- The filters that the parser gives, by induction on its fuel and its depth.
use boardchestrator.Prelude.{
  ℕ, zero, suc, ◌≤◌, ◌<◌, ◌≡◌, refl, inl, inr, List, [], ◌∷◌, arith, Text, codes, text_eq, Result,
  ok, ◌>>=◌, Option-cases, any, length,
}
use boardchestrator.Scim.Lexer.{
  FilterError, lparen, rparen, lbracket, rbracket, ident, str, Tokens, Codec,
}
use boardchestrator.Scim.Syntax.{number, Filter, end, and, Cond, attr, no_sub, depth, cond_depth}
use boardchestrator.Scim.Parser.{
  lower, attr_path, value_of, parse_value, parse_operand, parse_test, parse_sub_attr, expect_rparen,
  expect_rbracket, after_sub, after_path, cond, after_cond, conds, filter, end_of_input,
  parse_tokens, unsupported, max_filter_depth,
}
use boardchestrator.Scim.Print.{
  qualified, IsPrintable, IsOperator, IsSubAttr, IsFilter, AreConds, IsCond,
}
use boardchestrator.Scim.Ensures.{
  Ensures, Ensures-bind, Ensures-if, weaken, larger_le, Reads, IsAttr, parse_sub_attr-Ensures,
  expect_rparen-Ensures, expect_rbracket-Ensures, attr_path-Ensures,
}

module _ (format : ℕ → Text) (codec : Codec)
    (format_parses : (t : Text) (n : ℕ)
      → value_of codec t ≡ ok (number n)
      → value_of codec (format n) ≡ ok (number n)) where
  value_of-Ensures : (t : Text) → Ensures (IsPrintable format codec) (value_of codec t)
  unfolding value_of Ensures IsPrintable
  value_of-Ensures t =
      Ensures-if _ (text_eq (lower t) (codes "true")) _ _ (λ e. tt)
        (λ e.
          Ensures-if _ (text_eq (lower t) (codes "false")) _ _ (λ f. tt)
            (λ f.
              Ensures-if _ (text_eq (lower t) (codes "null")) _ _ (λ n. tt)
                (λ n. elim (Option-cases (codec.parse_float t)) [
                  | inl unread ↦ rw unread refl
                  | inr (x, read) ↦ rw read (format_parses t x (simp (e, f, n) (rw read refl)))
                ])))

  parse_value-Ensures :
      (ts : Tokens) → Ensures (Reads (IsPrintable format codec) (length ts)) (parse_value codec ts)
  unfolding parse_value Ensures IsPrintable
  parse_value-Ensures [] = refl
  parse_value-Ensures (str s ∷ ts) = (tt, omega arith)
  parse_value-Ensures (ident t ∷ ts) =
      Ensures-bind (IsPrintable format codec) (Reads (IsPrintable format codec) (suc (length ts)))
        (value_of codec t) _ (value_of-Ensures t) (λ v h. (h, omega arith))
  parse_value-Ensures (lparen ∷ ts) = refl
  parse_value-Ensures (rparen ∷ ts) = refl
  parse_value-Ensures (lbracket ∷ ts) = refl
  parse_value-Ensures (rbracket ∷ ts) = refl

  parse_operand-Ensures :
      (op : Text) (ts : Tokens)
      → Ensures (Reads (IsOperator format codec) (suc (length ts))) (parse_operand codec op ts)
  unfolding parse_operand Ensures IsOperator
  parse_operand-Ensures op ts =
      Ensures-if _ (text_eq op (codes "eq")) _ _
        (λ e.
          Ensures-bind _ _ (parse_value codec ts) _ (parse_value-Ensures ts)
            (λ (v, rest) (h, less). (h, omega arith)))
        (λ e.
          Ensures-if _ (text_eq op (codes "pr")) _ _ (λ f. (tt, omega arith))
            (λ f. Ensures-if _ (any (text_eq op) unsupported) _ _ (λ g. refl) (λ g. refl)))

  parse_test-Ensures :
      (ts : Tokens) → Ensures (Reads (IsOperator format codec) (length ts)) (parse_test codec ts)
  unfolding parse_test Ensures
  parse_test-Ensures [] = refl
  parse_test-Ensures (str s ∷ ts) = refl
  parse_test-Ensures (ident t ∷ ts) = parse_operand-Ensures (lower t) ts
  parse_test-Ensures (lparen ∷ ts) = refl
  parse_test-Ensures (rparen ∷ ts) = refl
  parse_test-Ensures (lbracket ∷ ts) = refl
  parse_test-Ensures (rbracket ∷ ts) = refl

  after_sub-Ensures :
      (path : List Text) (f : Filter) (sub_attr : Text) (ts : Tokens)
      → IsFilter format codec f
      → IsAttr sub_attr
      → attr_path (qualified path) ≡ ok path
      → Ensures
          (Reads (λ c. IsCond format codec c × (cond_depth c ≤ depth f)) (suc (length ts)))
          (after_sub codec path f sub_attr ts)
  unfolding after_sub Ensures IsFilter IsSubAttr IsAttr depth
  after_sub-Ensures path f [] ts hf hs named =
      (((named, (hf, inl (refl, refl))), omega arith), omega arith)
  after_sub-Ensures path f (c ∷ s) ts hf (inl none_left) named = cc
  after_sub-Ensures path f (c ∷ s) ts hf (inr (fine, low)) named =
      Ensures-bind _ _ (parse_test codec ts) _ (parse_test-Ensures ts)
        (λ (test, rest) (operator, less).
          (((named, (hf, inr (fine, low, operator))), omega arith), omega arith))

  AreConds-IsFilter : (f : Filter) → IsFilter format codec f → AreConds format codec f
  unfolding IsFilter
  AreConds-IsFilter end h = tt
  AreConds-IsFilter (and c f) h = h

  abbrev pub GoodFilter : ℕ → Filter → Type 0
  GoodFilter left f = IsFilter format codec f × (depth f ≤ left)

  abbrev GoodCond : ℕ → Cond → Type 0
  GoodCond left c = IsCond format codec c × (cond_depth c ≤ left)

  module _ (left : ℕ) (parse : Tokens → Result FilterError (Filter × Tokens))
      (parses : (ts : Tokens) → Ensures (Reads (GoodFilter left) (length ts)) (parse ts)) where
    no_sub-Ensures :
        (path : List Text) (ts : Tokens)
        → attr_path (qualified path) ≡ ok path
        → Ensures
            (Reads (GoodCond left) (suc (length ts)))
            (parse_test codec ts >>= λ (test, rest). ok (attr path no_sub test, rest))
    unfolding Ensures IsFilter depth
    no_sub-Ensures path ts named =
        Ensures-bind _ _ (parse_test codec ts) _ (parse_test-Ensures ts)
          (λ (test, rest) (operator, less). (((named, operator), omega arith), omega arith))

    after_path-Ensures :
        (path : List Text) (ts : Tokens)
        → attr_path (qualified path) ≡ ok path
        → Ensures (Reads (GoodCond left) (suc (length ts))) (after_path codec parse path ts)
    unfolding after_path Ensures IsFilter depth
    after_path-Ensures path (lbracket ∷ ts) named =
        Ensures-bind (Reads (GoodFilter left) (length ts)) _ (parse ts) _ (parses ts)
          (λ (f, ts₁) ((hf, low), less₁).
            Ensures-bind _ _ (expect_rbracket ts₁) _ (expect_rbracket-Ensures ts₁)
              (λ (u, ts₂) (v, less₂).
                Ensures-bind _ _ (parse_sub_attr ts₂) _ (parse_sub_attr-Ensures ts₂)
                  (λ (sa, ts₃) (hs, less₃).
                    weaken (after_sub codec path f sa ts₃)
                      (after_sub-Ensures path f sa ts₃ hf hs named)
                      (λ (c, rest) ((hc, shallow), less). ((hc, omega arith), omega arith)))))
    after_path-Ensures path [] named = no_sub-Ensures path [] named
    after_path-Ensures path (ident t ∷ ts) named = no_sub-Ensures path (ident t ∷ ts) named
    after_path-Ensures path (str t ∷ ts) named = no_sub-Ensures path (str t ∷ ts) named
    after_path-Ensures path (lparen ∷ ts) named = no_sub-Ensures path (lparen ∷ ts) named
    after_path-Ensures path (rparen ∷ ts) named = no_sub-Ensures path (rparen ∷ ts) named
    after_path-Ensures path (rbracket ∷ ts) named = no_sub-Ensures path (rbracket ∷ ts) named

    cond-Ensures : (ts : Tokens) → Ensures (Reads (GoodCond left) (length ts)) (cond codec parse ts)
    unfolding cond Ensures IsFilter depth
    cond-Ensures [] = refl
    cond-Ensures (str t ∷ ts) = refl
    cond-Ensures (rparen ∷ ts) = refl
    cond-Ensures (lbracket ∷ ts) = refl
    cond-Ensures (rbracket ∷ ts) = refl
    cond-Ensures (lparen ∷ ts) =
        Ensures-bind (Reads (GoodFilter left) (length ts)) _ (parse ts) _ (parses ts)
          (λ (f, ts₁) ((hf, low), less₁).
            Ensures-bind _ _ (expect_rparen ts₁) _ (expect_rparen-Ensures ts₁)
              (λ (u, ts₂) (v, less₂). ((hf, low), omega arith)))
    cond-Ensures (ident t ∷ ts) =
        Ensures-if _ (text_eq (lower t) (codes "not")) _ _ (λ e. refl)
          (λ e.
            Ensures-bind _ _ (attr_path t) _ (attr_path-Ensures t)
              (λ path named. after_path-Ensures path ts named))

    after_cond-Ensures :
        (more : Tokens → Result FilterError (Filter × Tokens)) (c : Cond) (ts : Tokens)
        → GoodCond left c
        → ((rest : Tokens)
            → length rest < length ts
            → Ensures (Reads (GoodFilter (suc left)) (length rest)) (more rest))
        → Ensures (Reads (GoodFilter (suc left)) (suc (length ts))) (after_cond codec more c ts)
    unfolding after_cond Ensures IsFilter depth
    after_cond-Ensures more c (ident t ∷ ts) (hc, low) k =
        Ensures-if _ (text_eq (lower t) (codes "and")) _ _
          (λ e. Ensures-bind _ _ (more ts) _ (k ts (omega arith)) (λ (f, rest) ((hf, deep), less). (
            (
              (hc, AreConds-IsFilter f hf),
              larger_le (suc (cond_depth c)) (depth f) (suc left) (omega arith) deep,
            ),
            omega arith,
          )))
          (λ e. Ensures-if _ (text_eq (lower t) (codes "or")) _ _ (λ f. refl) (λ f. refl))
    after_cond-Ensures more c [] (hc, low) k = (
      ((hc, tt), larger_le (suc (cond_depth c)) 1 (suc left) (omega arith) (omega arith)),
      omega arith,
    )
    after_cond-Ensures more c (str t ∷ ts) (hc, low) k = (
      ((hc, tt), larger_le (suc (cond_depth c)) 1 (suc left) (omega arith) (omega arith)),
      omega arith,
    )
    after_cond-Ensures more c (lparen ∷ ts) (hc, low) k = (
      ((hc, tt), larger_le (suc (cond_depth c)) 1 (suc left) (omega arith) (omega arith)),
      omega arith,
    )
    after_cond-Ensures more c (rparen ∷ ts) (hc, low) k = (
      ((hc, tt), larger_le (suc (cond_depth c)) 1 (suc left) (omega arith) (omega arith)),
      omega arith,
    )
    after_cond-Ensures more c (lbracket ∷ ts) (hc, low) k = (
      ((hc, tt), larger_le (suc (cond_depth c)) 1 (suc left) (omega arith) (omega arith)),
      omega arith,
    )
    after_cond-Ensures more c (rbracket ∷ ts) (hc, low) k = (
      ((hc, tt), larger_le (suc (cond_depth c)) 1 (suc left) (omega arith) (omega arith)),
      omega arith,
    )

    conds-Ensures :
        (fuel : ℕ) (ts : Tokens)
        → length ts < fuel
        → Ensures (Reads (GoodFilter (suc left)) (length ts)) (conds codec fuel parse ts)
    unfolding conds Ensures
    conds-Ensures zero ts enough = grind arith
    conds-Ensures (suc fuel) ts enough =
        Ensures-bind _ _ (cond codec parse ts) _ (cond-Ensures ts) (λ (c, rest) (hc, less).
          weaken (after_cond codec (conds codec fuel parse) c rest)
            (after_cond-Ensures (conds codec fuel parse) c rest hc
              (λ later shorter. conds-Ensures fuel later (omega arith)))
            (λ (f, last) (hf, shorter). (hf, omega arith)))

  filter-Ensures :
      (left : ℕ) (ts : Tokens)
      → Ensures (Reads (GoodFilter left) (length ts)) (filter codec left ts)
  unfolding filter Ensures
  filter-Ensures zero ts = refl
  filter-Ensures (suc left) ts =
      conds-Ensures left (filter codec left) (filter-Ensures left) (suc (length ts)) ts
        (omega arith)

  end_of_input-Ensures :
      (f : Filter) (ts : Tokens)
      → GoodFilter max_filter_depth f
      → Ensures (GoodFilter max_filter_depth) (end_of_input codec f ts)
  unfolding end_of_input Ensures
  end_of_input-Ensures f [] h = h
  end_of_input-Ensures f (t ∷ ts) h = refl

  pub parse_tokens-Ensures :
      (ts : Tokens) → Ensures (GoodFilter max_filter_depth) (parse_tokens codec ts)
  unfolding parse_tokens end_of_input Ensures
  parse_tokens-Ensures ts =
      Ensures-bind _ _ (filter codec max_filter_depth ts) _ (filter-Ensures max_filter_depth ts)
        (λ (f, rest) (hf, less). end_of_input-Ensures f rest hf)

-- ===== src/Scim/RoundTrip.antt =====
-- A printed filter parses back.
use boardchestrator.Prelude.{
  ℕ, zero, suc, ◌≤◌, ◌≡◌, refl, sym, ap, ◌∙◌, inl, inr, Bool, true, false, List, [], ◌∷◌, ◌++◌,
  arith, Text, codes, text_eq, has_prefix, Result, ok, ◌>>=◌, length, length-append,
}
use mathlib.Core.List.{append_assoc, append-nil}
use boardchestrator.Scim.Lexer.{
  FilterError, lparen, rparen, lbracket, rbracket, ident, str, Tokens, Codec,
}
use boardchestrator.Scim.Syntax.{
  Value, null, bool, number, string, Test, bare, pr, eq, Filter, end, and, Cond, group, attr, Sub,
  no_sub, sub, larger, depth, cond_depth, sub_depth,
}
use boardchestrator.Scim.Parser.{
  lower, is_malformed, parse_value, parse_test, parse_sub_attr, expect_rparen, expect_rbracket,
  after_sub, after_path, cond, after_cond, conds, filter, end_of_input, parse_tokens,
}
use boardchestrator.Scim.Print.{
  print_sub_attr, print_value, print_test, print_filter, print_more, print_cond, print_sub,
  IsPrintable, IsOperator, IsSubAttr, IsFilter, AreConds, IsCond, IsSub,
}

-- What may follow a filter, and what may follow a condition.
abbrev starts_ident : Tokens → Bool
starts_ident (ident t ∷ ts) = true
starts_ident _ = false

abbrev starts_dot : Tokens → Bool
unfolding has_prefix
starts_dot (ident t ∷ ts) = has_prefix t (codes ".")
starts_dot _ = false

larger-le : (a b n : ℕ) → larger a b ≤ n → (a ≤ n) × (b ≤ n)
larger-le a b n h = ground arith

module _ (format : ℕ → Text) (codec : Codec) where
  abbrev shown : Filter → Tokens
  shown = print_filter format

  parse_value-print :
      (v : Value) (rest : Tokens)
      → IsPrintable format codec v
      → parse_value codec (print_value format v ∷ rest) ≡ ok (v, rest)
  unfolding parse_value print_value IsPrintable text_eq
  parse_value-print null rest h = refl
  parse_value-print (bool true) rest h = refl
  parse_value-print (bool false) rest h = refl
  parse_value-print (string s) rest h = refl
  parse_value-print (number n) rest h = rw h refl

  parse_test-print :
      (test : Test) (rest : Tokens)
      → IsOperator format codec test
      → parse_test codec (print_test format test ++ rest) ≡ ok (test, rest)
  unfolding parse_test print_test IsOperator text_eq
  parse_test-print bare rest h = absurd h
  parse_test-print pr rest h = refl
  parse_test-print (eq v) rest h = rw (parse_value-print v rest h) refl

  no_dot : (rest : Tokens) → starts_ident rest ≡ false → starts_dot rest ≡ false
  unfolding starts_dot
  no_dot [] h = refl
  no_dot (ident t ∷ ts) h = cc
  no_dot (str t ∷ ts) h = refl
  no_dot (lparen ∷ ts) h = refl
  no_dot (rparen ∷ ts) h = refl
  no_dot (lbracket ∷ ts) h = refl
  no_dot (rbracket ∷ ts) h = refl

  starts_dot-print :
      (f : Filter) (rest : Tokens)
      → starts_ident rest ≡ false
      → starts_dot (print_more format f ++ rest) ≡ false
  unfolding print_filter starts_dot
  starts_dot-print end rest h = no_dot rest h
  starts_dot-print (and c f) rest h = refl

  -- No sub-attribute is read where none is printed.
  parse_sub_attr_none :
      (rest : Tokens) → starts_dot rest ≡ false → parse_sub_attr rest ≡ ok ([], rest)
  unfolding parse_sub_attr starts_dot
  parse_sub_attr_none [] h = refl
  parse_sub_attr_none (ident t ∷ ts) h = simp (h)
  parse_sub_attr_none (str t ∷ ts) h = refl
  parse_sub_attr_none (lparen ∷ ts) h = refl
  parse_sub_attr_none (rparen ∷ ts) h = refl
  parse_sub_attr_none (lbracket ∷ ts) h = refl
  parse_sub_attr_none (rbracket ∷ ts) h = refl

  parse_sub_attr-print :
      (sub_attr : Text) (rest : Tokens)
      → is_malformed sub_attr ≡ false
      → lower sub_attr ≡ sub_attr
      → parse_sub_attr (print_sub_attr sub_attr ++ rest) ≡ ok (sub_attr, rest)
  unfolding parse_sub_attr print_sub_attr has_prefix
  parse_sub_attr-print [] rest fine low = cc
  parse_sub_attr-print (c ∷ s) rest fine low =
      let fine' : is_malformed (lower (c ∷ s)) ≡ false = ap (λ t. is_malformed t) low ∙ fine in
      simp (fine') (ap (λ t. ok (t, rest)) low)

  after_sub-print :
      (path : List Text) (f : Filter) (sub_attr : Text) (test : Test) (rest : Tokens)
      → IsSubAttr format codec sub_attr test
      → starts_dot rest ≡ false
      → (parse_sub_attr (print_sub_attr sub_attr ++ (print_test format test ++ rest))
          >>= λ (sa, ts). after_sub codec path f sa ts)
        ≡ ok (attr path (sub f sub_attr) test, rest)
  unfolding IsSubAttr after_sub print_sub_attr print_test
  after_sub-print path f sub_attr test rest (inl (no_attr, no_test)) dotless =
      rw (no_attr, no_test) (rw (parse_sub_attr_none rest dotless) refl)
  after_sub-print path f [] test rest (inr (fine, low, operator)) dotless = cc
  after_sub-print path f (c ∷ s) test rest (inr (fine, low, operator)) dotless =
      rw (parse_sub_attr-print (c ∷ s) (print_test format test ++ rest) fine low)
        (rw (parse_test-print test rest operator) refl)

  stop_here :
      (more : Tokens → Result FilterError (Filter × Tokens)) (c : Cond) (rest : Tokens)
      → starts_ident rest ≡ false
      → after_cond codec more c rest ≡ ok (and c end, rest)
  unfolding after_cond
  stop_here more c [] h = refl
  stop_here more c (ident t ∷ ts) h = cc
  stop_here more c (str t ∷ ts) h = refl
  stop_here more c (lparen ∷ ts) h = refl
  stop_here more c (rparen ∷ ts) h = refl
  stop_here more c (lbracket ∷ ts) h = refl
  stop_here more c (rbracket ∷ ts) h = refl

  plain-print :
      (parse : Tokens → Result FilterError (Filter × Tokens)) (path : List Text) (test : Test)
      (rest : Tokens)
      → IsOperator format codec test
      → after_path codec parse path (print_test format test ++ rest)
        ≡ ok (attr path no_sub test, rest)
  unfolding after_path parse_test text_eq print_test IsOperator
  plain-print parse path bare rest h = absurd h
  plain-print parse path pr rest h = refl
  plain-print parse path (eq v) rest h = rw (parse_value-print v rest h) refl

  room : (a b c : Tokens) → length b ≤ length (a ++ (b ++ c))
  room a b c = let whole = length-append a (b ++ c) in let part = length-append b c in omega arith

  mutual
    unfolding filter conds cond after_cond after_path expect_rparen expect_rbracket print_filter
        IsFilter depth text_eq

    filter-print :
        (f : Filter) (left : ℕ) (rest : Tokens)
        → IsFilter format codec f
        → depth f ≤ left
        → starts_ident rest ≡ false
        → filter codec left (shown f ++ rest) ≡ ok (f, rest)
    filter-print end left rest h low stops = absurd h
    filter-print (and c f) zero rest h low stops =
        let (some_depth, _) = larger-le (suc (cond_depth c)) (depth f) 0 low in absurd (omega arith)
    filter-print (and c f) (suc left) rest (hc, hf) low stops =
        let (deep, deep') = larger-le (suc (cond_depth c)) (depth f) (suc left) low in
        let here = print_cond format c in
        let later = print_more format f in
        let enough = room here later rest in
        let dotless = starts_dot-print f rest stops in
        rw (append_assoc here later rest) (
          rw (cond-print c left (later ++ rest) hc (omega arith) dotless) (
            after_cond-print f c (length (here ++ (later ++ rest))) left rest hf deep' stops
              enough))

    after_cond-print :
        (f : Filter) (c : Cond) (n left : ℕ) (rest : Tokens)
        → AreConds format codec f
        → depth f ≤ suc left
        → starts_ident rest ≡ false
        → length (print_more format f) ≤ n
        → after_cond codec (conds codec n (filter codec left)) c (print_more format f ++ rest)
          ≡ ok (and c f, rest)
    after_cond-print end c n left rest h low stops enough = stop_here _ c rest stops
    after_cond-print (and d f) c zero left rest h low stops enough = absurd (omega arith)
    after_cond-print (and d f) c (suc n) left rest (hd, hf) low stops enough =
        let (deep, deep') = larger-le (suc (cond_depth d)) (depth f) (suc left) low in
        let here = print_cond format d in
        let later = print_more format f in
        let len = length-append here later in
        let dotless = starts_dot-print f rest stops in
        rw (append_assoc here later rest) (
          rw (cond-print d left (later ++ rest) hd (omega arith) dotless)
            (rw (after_cond-print f d n left rest hf deep' stops (omega arith)) refl))

    cond-print :
        (c : Cond) (left : ℕ) (rest : Tokens)
        → IsCond format codec c
        → cond_depth c ≤ left
        → starts_dot rest ≡ false
        → cond codec (filter codec left) (print_cond format c ++ rest) ≡ ok (c, rest)
    cond-print (group f) left rest h low dotless =
        rw (append_assoc (shown f) (rparen ∷ []) rest)
          (rw (filter-print f left (rparen ∷ rest) h low refl) refl)
    cond-print (attr path s test) left rest (named, hs) low dotless =
        rw (append_assoc (print_sub format s) (print_test format test) rest)
          (rw named (rw (after_path-print s path test left rest hs low dotless) refl))

    after_path-print :
        (s : Sub) (path : List Text) (test : Test) (left : ℕ) (rest : Tokens)
        → IsSub format codec s test
        → sub_depth s ≤ left
        → starts_dot rest ≡ false
        → after_path codec
            (filter codec left)
            path
            (print_sub format s ++ (print_test format test ++ rest))
          ≡ ok (attr path s test, rest)
    after_path-print no_sub path test left rest h low dotless =
        plain-print (filter codec left) path test rest h
    after_path-print (sub f sub_attr) path test left rest (hf, hs) low dotless =
        let tail = print_test format test ++ rest in
        rw (append_assoc (shown f) (rbracket ∷ print_sub_attr sub_attr) tail) (
          rw (filter-print f left (rbracket ∷ (print_sub_attr sub_attr ++ tail)) hf low refl)
            (after_sub-print path f sub_attr test rest hs dotless))

  -- A filter that the parser can give and that is nested at most 8 deep is what its print parses to.
  -- One of the conditions on such a filter (`IsFilter`) is that the codec reads each of its
  -- numbers back from what `format` prints of it.
  pub parse_tokens-print :
      (f : Filter)
      → IsFilter format codec f
      → depth f ≤ 8
      → parse_tokens codec (print_filter format f) ≡ ok f
  unfolding parse_tokens end_of_input
  parse_tokens-print f h shallow =
      let whole = filter-print f 8 [] h shallow refl in
      rw (sym (append-nil (print_filter format f))) (rw whole refl)

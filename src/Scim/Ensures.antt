-- ===== src/Scim/Ensures.antt =====
-- What a step of the parser reads, and that it meets no error of the model's own.
use boardchestrator.Prelude.{
  ℕ, suc, ◌≤◌, ◌<◌, ◌≡◌, refl, inl, inr, ◌⊎◌, Bool, true, false, ◌||◌, List, [], ◌∷◌, arith, Text,
  codes, is_empty, has_prefix, Result, ok, err, ◌>>=◌, if◌then◌else◌, any, length, ltb, ◌==◌,
}
use boardchestrator.Scim.Lexer.{
  FilterError, unknown_attribute, malformed_attribute, out_of_fuel, lparen, rparen, lbracket,
  rbracket, ident, str, Tokens,
}
use boardchestrator.Scim.Syntax.{larger}
use boardchestrator.Scim.Parser.{
  lower, attr_path, path_of, drop_schema, split_dots, has_char, is_malformed, parse_sub_attr,
  sub_attr_of, expect_rparen, expect_rbracket,
}
use boardchestrator.Scim.Print.{qualified}
use boardchestrator.Scim.Names.{lower_idem, attr_path-qualified}

abbrev pub is_fuel : FilterError → Bool
is_fuel out_of_fuel = true
is_fuel _ = false

-- A result in P, or an error that is not the model's own.
unfoldable pub Ensures : {A : Type 0} → (A → Type 0) → Result FilterError A → Type 0
Ensures P (ok a) = P a
Ensures P (err e) = is_fuel e ≡ false

pub Ensures-bind :
    {A B : Type 0} (P : A → Type 0) (Q : B → Type 0) (m : Result FilterError A)
    (next : A → Result FilterError B)
    → Ensures P m
    → ((a : A) → P a → Ensures Q (next a))
    → Ensures Q (m >>= next)
unfolding Ensures
Ensures-bind P Q (ok a) next h k = k a h
Ensures-bind P Q (err e) next h k = h

pub Ensures-if :
    {A : Type 0} (P : A → Type 0) (b : Bool) (x y : Result FilterError A)
    → (b ≡ true → Ensures P x)
    → (b ≡ false → Ensures P y)
    → Ensures P (if b then x else y)
Ensures-if P true x y hx hy = hx refl
Ensures-if P false x y hx hy = hy refl

pub weaken :
    {A : Type 0} {P Q : A → Type 0} (m : Result FilterError A)
    → Ensures P m
    → ((a : A) → P a → Q a)
    → Ensures Q m
unfolding Ensures
weaken (ok a) h k = k a h
weaken (err e) h k = h

pub Ensures-eq :
    {A : Type 0} (Q : A → Type 0) (m : Result FilterError A)
    → Ensures (λ a. Unit {0}) m
    → ((a : A) → m ≡ ok a → Q a)
    → Ensures Q m
unfolding Ensures
Ensures-eq Q (ok a) h k = k a refl
Ensures-eq Q (err e) h k = h

pub three_tests :
    (b b' b'' : Bool) (parts : List Text)
    → Ensures
        (λ path. Unit {0})
        (if b
          then err unknown_attribute
          else if b'
          then err unknown_attribute
          else if b''
          then err malformed_attribute
          else ok parts)
unfolding Ensures
three_tests true b' b'' parts = refl
three_tests false true b'' parts = refl
three_tests false false true parts = refl
three_tests false false false parts = tt

pub larger_le : (a b n : ℕ) → a ≤ n → b ≤ n → larger a b ≤ n
larger_le a b n = ground arith

-- What is read, and that the rest is shorter.
abbrev pub Reads : {A : Type 0} → (A → Type 0) → ℕ → A × Tokens → Type 0
Reads P n (a, rest) = P a × (length rest < n)

-- A sub-attribute is absent or well-formed.
unfoldable pub IsAttr : Text → Type 0
IsAttr sub_attr = (sub_attr ≡ []) ⊎ (is_malformed sub_attr ≡ false) × (lower sub_attr ≡ sub_attr)

pub lower-sub_attr_of : (t : Text) → lower (sub_attr_of t) ≡ sub_attr_of t
lower-sub_attr_of [] = refl
lower-sub_attr_of (c ∷ s) = lower_idem (if c == b'.' then s else c ∷ s)

pub parse_sub_attr-Ensures :
    (ts : Tokens) → Ensures (Reads IsAttr (suc (length ts))) (parse_sub_attr ts)
unfolding parse_sub_attr Ensures IsAttr
parse_sub_attr-Ensures [] = (inl refl, omega arith)
parse_sub_attr-Ensures (ident t ∷ ts) =
    Ensures-if _ (has_prefix t (codes ".")) _ _
      (λ e.
        Ensures-if _ (is_malformed (sub_attr_of t)) _ _ (λ f. refl)
          (λ f. (inr (f, lower-sub_attr_of t), omega arith)))
      (λ e. (inl refl, omega arith))
parse_sub_attr-Ensures (str t ∷ ts) = (inl refl, omega arith)
parse_sub_attr-Ensures (lparen ∷ ts) = (inl refl, omega arith)
parse_sub_attr-Ensures (rparen ∷ ts) = (inl refl, omega arith)
parse_sub_attr-Ensures (lbracket ∷ ts) = (inl refl, omega arith)
parse_sub_attr-Ensures (rbracket ∷ ts) = (inl refl, omega arith)

pub expect_rparen-Ensures :
    (ts : Tokens) → Ensures (Reads (λ u. Unit {0}) (length ts)) (expect_rparen ts)
unfolding expect_rparen Ensures
expect_rparen-Ensures (rparen ∷ ts) = (tt, omega arith)
expect_rparen-Ensures [] = refl
expect_rparen-Ensures (ident t ∷ ts) = refl
expect_rparen-Ensures (str t ∷ ts) = refl
expect_rparen-Ensures (lparen ∷ ts) = refl
expect_rparen-Ensures (lbracket ∷ ts) = refl
expect_rparen-Ensures (rbracket ∷ ts) = refl

pub expect_rbracket-Ensures :
    (ts : Tokens) → Ensures (Reads (λ u. Unit {0}) (length ts)) (expect_rbracket ts)
unfolding expect_rbracket Ensures
expect_rbracket-Ensures (rbracket ∷ ts) = (tt, omega arith)
expect_rbracket-Ensures [] = refl
expect_rbracket-Ensures (ident t ∷ ts) = refl
expect_rbracket-Ensures (str t ∷ ts) = refl
expect_rbracket-Ensures (lparen ∷ ts) = refl
expect_rbracket-Ensures (rparen ∷ ts) = refl
expect_rbracket-Ensures (lbracket ∷ ts) = refl

pub path_of-Ensures : (n : Text) → Ensures (λ path. Unit {0}) (path_of n)
unfolding path_of
path_of-Ensures n =
    let parts = split_dots n in
    three_tests (is_empty n || has_prefix n (codes ".") || has_char b':' n) (ltb 2 (length parts))
      (any is_empty parts) parts

pub attr_path-Ensures :
    (t : Text) → Ensures (λ path. attr_path (qualified path) ≡ ok path) (attr_path t)
unfolding attr_path
attr_path-Ensures t =
    Ensures-eq (λ path. attr_path (qualified path) ≡ ok path) (attr_path t)
      (path_of-Ensures (drop_schema (lower t))) (λ path e. attr_path-qualified t path e)

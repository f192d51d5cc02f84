-- ===== src/Scim/Examples.antt =====
-- emails[type eq "work"].value pr and (userName eq "ada")
use boardchestrator.Prelude.{
  ℕ, ◌≤◌, ◌≡◌, refl, inr, true, false, none, some, [], ◌∷◌, arith, Text, codes, text_eq, has_prefix,
  Result, Bool, ◌≢◌, ◌⊎◌, ok, err, keep, not, ◌==◌, any, if◌then◌else◌,
}
use boardchestrator.Scim.Lexer.{
  Codec, nested_too_deeply, or_not_supported, FilterError, out_of_fuel, expected_value,
}
use boardchestrator.Scim.Syntax.{
  null, bool, number, string, pr, eq, Value, Filter, end, and, group, attr, no_sub, sub, depth,
}
use boardchestrator.Scim.Parser.{lower, value_of, parse_filter, parse_tokens}
use boardchestrator.Scim.Print.{print_filter, IsFilter, join_dots}
use boardchestrator.Scim.RoundTrip.{parse_tokens-print}
use boardchestrator.Scim.Match.{
  Json, text, array, object, no_more, element, Fields, no_fields, field, Compare, filter_match,
}
use boardchestrator.Scim.Alike.{
  unchanged, arrays, objects, none_same, each, empty, keeps, swaps, then_also,
}
use boardchestrator.Scim.Order.{filter_match-Reordered}
use boardchestrator.Scim.Total.{parse_filter-cases}

-- Strings without escapes, and no number but 7.
abbrev codec : Codec
unfolding text_eq
codec = record {
  decode_string = λ s. some (keep (λ c. not (c == b'"')) s);
  parse_float = λ t. if text_eq t (codes "7") then some 7 else none;
  is_blank = λ s. not (any (λ c. not (c == b' ')) s);
}

abbrev format : ℕ → Text
format n = codes "7"

abbrev work_mail : Filter
work_mail =
    and
      (attr (codes "emails" ∷ [])
        (sub (and (attr (codes "type" ∷ []) no_sub (eq (string (codes "work")))) end)
          (codes "value"))
        pr)
      (and (group (and (attr (codes "name" ∷ codes "givenname" ∷ []) no_sub (eq (number 7))) end))
        end)

program : Unit {0}
unfolding parse_filter print_filter depth IsFilter join_dots text_eq has_prefix
program = tt

parsed :
    parse_filter codec (codes "emails[Type eq \"work\"].value pr and (name.givenName EQ 7)")
    ≡ ok work_mail
unfolding program
parsed = refl

refused : parse_filter codec (codes "a pr or b pr") ≡ err or_not_supported
unfolding program
refused = refl

nested : parse_filter codec (codes "((((((((a pr))))))))") ≡ err nested_too_deeply
unfolding program
nested = refl

parse_tokens-print_example : parse_tokens codec (print_filter format work_mail) ≡ ok work_mail
unfolding program
parse_tokens-print_example =
    parse_tokens-print format codec work_mail
      ((refl, (((refl, tt), tt), inr (refl, refl, tt))), (((refl, refl), tt), tt)) (omega arith)

abbrev value_is : ℕ → Result FilterError Value
value_is n = ok (number n)

only_seven :
    (b b' b'' last : Bool) (n : ℕ)
    → (if b
        then ok (bool true)
        else if b'
        then ok (bool false)
        else if b''
        then ok null
        else elim (if last then some 7 else none) [
          | none ↦ err expected_value
          | some f ↦ ok (number f)
        ])
      ≡ ok (number n)
    → value_is 7 ≡ value_is n
only_seven true b' b'' last n e = grind arith
only_seven false true b'' last n e = grind arith
only_seven false false true last n e = grind arith
only_seven false false false true n e = e
only_seven false false false false n e = grind arith

format_parses :
    (t : Text) (n : ℕ)
    → value_of codec t ≡ ok (number n)
    → value_of codec (format n) ≡ ok (number n)
unfolding value_of text_eq
format_parses t n e =
    only_seven (text_eq (lower t) (codes "true")) (text_eq (lower t) (codes "false"))
      (text_eq (lower t) (codes "null")) (text_eq t (codes "7")) n e

parse_filter-cases_example :
    let s = codes "emails[Type eq \"work\"].value pr and (name.givenName EQ 7)" in
    ((f : Filter) × (parse_filter codec s ≡ ok f)
      × (depth f ≤ 8)
      × (parse_tokens codec (print_filter format f) ≡ ok f))
    ⊎ ((e : FilterError) × (parse_filter codec s ≡ err e) × (e ≢ out_of_fuel))
parse_filter-cases_example =
    parse_filter-cases codec format format_parses
      (codes "emails[Type eq \"work\"].value pr and (name.givenName EQ 7)")

-- strings.EqualFold on ASCII, and integers for floats.
abbrev compare : Compare
unfolding text_eq
compare = record {
  equal_fold = λ s t. text_eq (lower s) (lower t);
  float_eq = λ a b. a == b;
  float_of_int = λ n. n;
}

abbrev mail : Json
mail = object (
    field (codes "value") (text (codes "a@b"))
      (field (codes "type") (text (codes "work")) no_fields))

abbrev mail' : Json
mail' = object (
    field (codes "type") (text (codes "work"))
      (field (codes "value") (text (codes "a@b")) no_fields))

abbrev user : Fields
user =
    field (codes "id") (text (codes "u"))
      (field (codes "Emails") (array (element mail no_more)) no_fields)

abbrev user' : Fields
user' =
    field (codes "Emails") (array (element mail' no_more))
      (field (codes "id") (text (codes "u")) no_fields)

abbrev work_value : Filter
work_value =
    and
      (attr (codes "emails" ∷ [])
        (sub (and (attr (codes "type" ∷ []) no_sub (eq (string (codes "WORK")))) end)
          (codes "value"))
        pr)
      end

matched : filter_match compare work_value user ≡ true
unfolding filter_match text_eq
matched = refl

filter_match-Reordered_example :
    filter_match compare work_value user ≡ filter_match compare work_value user'
filter_match-Reordered_example =
    filter_match-Reordered compare work_value user user'
      (then_also (keeps unchanged (keeps (arrays (each (objects swaps) none_same)) empty)) swaps)

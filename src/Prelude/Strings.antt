-- ===== src/Prelude/Strings.antt =====
-- Go strings as lists of bytes, with the functions of package strings that the program calls.
use Prim.Native.Char.{code}
use Prim.Native.String.{String}
use Prim.Native.Nat.{ℕ, ◌-◌}
use mathlib.Core.Path.{◌≡◌, refl, ap, sym, ◌∙◌}
use mathlib.Core.Logic.{◌↔◌}
use mathlib.Core.Bool.{Bool, true, false, ◌&&◌}
use mathlib.Core.List.{List, [], ◌∷◌, ◌++◌}
use native.Mathlib.Omega.{arith}
use boardchestrator.Prelude.Tests.{◌==◌, ==_iff, leb, le→leb, if◌then◌else◌, &&-eq-true}
use boardchestrator.Prelude.Lists.{
  length, take, drop, length-append, take-append-drop, take-length-append, drop-length-append,
}

abbrev pub Text : Type 0
Text = List ℕ

-- The bytes of an ASCII literal.
abbrev pub codes : String → Text
codes String.[] = []
codes (String.◌∷◌ c s) = code c ∷ codes s

unfoldable pub text_eq : Text → Text → Bool
text_eq [] [] = true
text_eq [] (d ∷ t) = false
text_eq (c ∷ s) [] = false
text_eq (c ∷ s) (d ∷ t) = (c == d) && text_eq s t

pub text_eq_refl : (s : Text) → text_eq s s ≡ true
unfolding text_eq
text_eq_refl [] = refl
text_eq_refl (c ∷ s) = ground (arith, text_eq_refl s)

pub text_eq→eq : (s t : Text) → text_eq s t ≡ true → s ≡ t
unfolding text_eq
text_eq→eq [] [] h = refl
text_eq→eq [] (d ∷ t) h = ground arith
text_eq→eq (c ∷ s) [] h = ground arith
text_eq→eq (c ∷ s) (d ∷ t) h = ground (arith, text_eq→eq s t)

pub eq→text_eq : (s t : Text) → s ≡ t → text_eq s t ≡ true
eq→text_eq s t e = rw e (text_eq_refl t)

pub text_eq_iff : (s t : Text) → (text_eq s t ≡ true) ↔ (s ≡ t)
text_eq_iff s t = (text_eq→eq s t, eq→text_eq s t)

-- `s == ""`.
abbrev pub is_empty : Text → Bool
is_empty [] = true
is_empty (c ∷ s) = false

-- strings.HasPrefix(s, prefix).
unfoldable pub has_prefix : Text → Text → Bool
has_prefix s [] = true
has_prefix [] (c ∷ p) = false
has_prefix (d ∷ s) (c ∷ p) = (d == c) && has_prefix s p

-- strings.HasSuffix(s, suffix).
unfoldable pub has_suffix : Text → Text → Bool
unfolding text_eq
has_suffix s t = leb (length t) (length s) && text_eq (drop (length s - length t) s) t

-- strings.TrimSuffix(s, suffix).
unfoldable pub trim_suffix : Text → Text → Text
unfolding has_suffix
trim_suffix s t = if has_suffix s t then take (length s - length t) s else s

pub has_prefix→append : (s p : Text) → has_prefix s p ≡ true → (r : Text) × (s ≡ p ++ r)
unfolding has_prefix
has_prefix→append s [] h = (s, refl)
has_prefix→append [] (c ∷ p) h = ground arith
has_prefix→append (d ∷ s) (c ∷ p) h =
    let (hd, tl) = &&-eq-true (d == c) (has_prefix s p) h in
    let (r, e) = has_prefix→append s p tl in (r, cc ((==_iff d c).0 hd, e))

pub has_prefix-append : (p r : Text) → has_prefix (p ++ r) p ≡ true
unfolding has_prefix
has_prefix-append [] r = refl
has_prefix-append (c ∷ p) r = ground (arith, has_prefix-append p r)

-- A text with a suffix is what TrimSuffix leaves, and the suffix.
pub trim_suffix-append_self : (s t : Text) → has_suffix s t ≡ true → trim_suffix s t ++ t ≡ s
unfolding trim_suffix
trim_suffix-append_self s t h =
    let (short, same) = &&-eq-true (leb (length t) (length s)) _ (unfold has_suffix in h) in
    rw h (
      ap (λ u. take (length s - length t) s ++ u) (sym (text_eq→eq _ t same))
      ∙ take-append-drop (length s - length t) s)

length_gap : (s t : Text) → length (s ++ t) - length t ≡ length s
length_gap s t = omega (arith, length-append s t)

pub has_suffix-append : (s t : Text) → has_suffix (s ++ t) t ≡ true
unfolding has_suffix
has_suffix-append s t = rw (length_gap s t) (
    rw (drop-length-append s t) (
      rw (text_eq_refl t)
        (rw (le→leb (length t) (length (s ++ t)) (omega (arith, length-append s t))) refl)))

pub trim_suffix-append : (s t : Text) → trim_suffix (s ++ t) t ≡ s
unfolding trim_suffix
trim_suffix-append s t = rw (has_suffix-append s t) (rw (length_gap s t) (take-length-append s t))

-- ===== src/Auth/ReturnTo.antt =====
-- internal/auth/returnto.go: the destination after a sign-in. What it uses of net/url, unicode
-- and the decoding of UTF-8 is a parameter.
use boardchestrator.Prelude.{
  ℕ, zero, suc, ◌≡◌, refl, sym, ap, subst, ◌∙◌, inl, inr, ◌⊎◌, Bool, true, false, ◌&&◌, ◌||◌, not,
  Option, none, some, List, arith, Text, codes, text_eq, text_eq→eq, has_prefix, has_prefix→append,
  ==_iff, is_empty, ◌≢◌, In, In→any, ◌∷◌, if◌then◌else◌, Bool-cases, length, any, ltb, ◌==◌,
  &&-eq-true, ||-eq-true, ◌≤◌,
}

pub record Url : Type 0 where
  pub path_unescape : Text → Option Text
  -- url.Parse succeeds, with no scheme, host, user, opaque part or fragment.
  pub is_bare : Text → Bool
  pub runes : Text → List ℕ
  pub is_control : ℕ → Bool
  pub is_space : ℕ → Bool

abbrev pub max_return_to : ℕ
max_return_to = 1024

abbrev pub default_return_to : Text
default_return_to = codes "/app"

abbrev pub replacement_char : ℕ
replacement_char = 65533

neither : (a b : Bool) → (a || b) ≡ false → (a ≡ false) × (b ≡ false)
neither a b h = ground arith

not_longer : (a b : ℕ) → ltb a b ≡ false → b ≤ a
not_longer a b h = ground arith

unless : (b c : Bool) → (if b then false else c) ≡ true → (b ≡ false) × (c ≡ true)
unless b c h = ground arith

negated : (b : Bool) → not b ≡ false → b ≡ true
negated b h = ground arith

negated' : (b : Bool) → not b ≡ true → b ≡ false
negated' b h = ground arith

module _ (u : Url) where
  -- The runes that plainLocalPath refuses.
  abbrev pub is_refused : ℕ → Bool
  is_refused r =
      ((r == b'\\') || u.is_control r || (r == replacement_char))
      || (not (r == b' ') && u.is_space r)

  unfoldable pub plain_local_path : Text → Bool
  unfolding has_prefix text_eq
  plain_local_path s =
      if (not (has_prefix s (codes "/")) || has_prefix s (codes "//")) || has_prefix s (codes "/\\")
      then false
      else if any is_refused (u.runes s)
      then false
      else not (any (λ c. c == b'#') s)

  -- What a destination may be, character by character: it starts with "/", which "/" and "\\" do not
  -- follow, it has no "#", and each of its runes is allowed.
  pub record IsLocal (s : Text) : Type 0 where
    pub rooted :
        (rest : Text) × (s ≡ b'/' ∷ rest)
        × ((c : ℕ) (more : Text) → rest ≡ c ∷ more → (c ≢ b'/') × (c ≢ b'\\'))
    pub no_fragment : (c : ℕ) → In c s → c ≢ b'#'
    pub allowed :
        (r : ℕ)
        → In r (u.runes s)
        → (r ≢ b'\\')
          × (u.is_control r ≡ false)
          × (r ≢ replacement_char)
          × ((r ≡ b' ') ⊎ (u.is_space r ≡ false))

  single_slash :
      (s : Text)
      → has_prefix s (codes "/") ≡ true
      → has_prefix s (codes "//") ≡ false
      → has_prefix s (codes "/\\") ≡ false
      → (rest : Text) × (s ≡ b'/' ∷ rest)
        × ((c : ℕ) (more : Text) → rest ≡ c ∷ more → (c ≢ b'/') × (c ≢ b'\\'))
  unfolding has_prefix
  single_slash s slash two back =
      let (rest, e) = has_prefix→append s (codes "/") slash in
      (
        rest,
        e,
        (λ c more next. (
          (λ same. let full : s ≡ b'/' ∷ b'/' ∷ more = cc in cc (rw (full, has_prefix) at two)),
          (λ same. let full : s ≡ b'/' ∷ b'\\' ∷ more = cc in cc (rw (full, has_prefix) at back)),
        )),
      )

  not_any : (p : ℕ → Bool) (xs : Text) → any p xs ≡ false → (x : ℕ) → In x xs → p x ≡ false
  not_any p xs h x m = elim (Bool-cases (p x)) [
    | inr e ↦ e
    | inl e ↦ absurd (cc (h, In→any p x xs m e))
  ]

  is_refused_lem :
      (r : ℕ)
      → is_refused r ≡ false
      → (r ≢ b'\\')
        × (u.is_control r ≡ false)
        × (r ≢ replacement_char)
        × ((r ≡ b' ') ⊎ (u.is_space r ≡ false))
  is_refused_lem r h = ground arith

  plain_local_path-IsLocal : (s : Text) → plain_local_path s ≡ true → IsLocal s
  unfolding plain_local_path
  plain_local_path-IsLocal s h =
      let (shape, h₁) = unless _ _ h in
      let (runes_ok, h₂) = unless (any is_refused (u.runes s)) _ h₁ in
      let (shape', back) = neither _ _ shape in
      let (slash, two) = neither _ _ shape' in
      record {
        rooted = single_slash s (negated _ slash) two back;
        no_fragment = λ c m.
            let differs = not_any (λ x. x == b'#') s (negated' _ h₂) c m in
            λ same. cc (differs, (==_iff c b'#').1 same);
        allowed = λ r m. is_refused_lem r (not_any is_refused (u.runes s) runes_ok r m);
      }

  -- The loop from its iteration i, with `left` = 2 - i: true where it ends by `break`.
  unfoldable pub decodes_plainly : ℕ → Text → Bool
  unfolding plain_local_path text_eq
  decodes_plainly zero cur =
      plain_local_path cur
      && elim (u.path_unescape cur) [ none ↦ false | some dec ↦ text_eq dec cur ]
  decodes_plainly (suc left) cur = plain_local_path cur && elim (u.path_unescape cur) [
    | none ↦ false
    | some dec ↦ text_eq dec cur || decodes_plainly left dec
  ]

  -- SafeReturnTo
  unfoldable pub safe_return_to : Text → Text
  unfolding decodes_plainly
  safe_return_to raw =
      if is_empty raw || ltb max_return_to (length raw)
      then default_return_to
      else if not (decodes_plainly 2 raw)
      then default_return_to
      else if u.is_bare raw
      then raw
      else default_return_to

  -- What a text becomes by decoding it any number of times.
  pub data Decodes : Text → Text → Type 0 where
    here : {t : Text} → Decodes t t
    decode : {s t w : Text} → u.path_unescape s ≡ some t → Decodes t w → Decodes s w

  -- Where decoding changes nothing, every decoding is the text itself.
  fixed : {s t w : Text} → u.path_unescape s ≡ some t → t ≡ s → Decodes s w → w ≡ s
  fixed e same here = refl
  fixed {s} {t} e same (decode {t = t'} e' d) =
      let t'-s : t' ≡ s = cc in
      let again : u.path_unescape t' ≡ some t = ap u.path_unescape t'-s ∙ e in
      fixed again (same ∙ sym t'-s) d ∙ t'-s

  if_decoded :
      (test : Text → Bool) (o : Option Text)
      → elim o [ none ↦ false | some dec ↦ test dec ] ≡ true
      → (dec : Text) × (o ≡ some dec) × (test dec ≡ true)
  if_decoded test none h = cc
  if_decoded test (some dec) h = (dec, refl, h)

  settled :
      (cur : Text) {dec w : Text}
      → plain_local_path cur ≡ true
      → u.path_unescape cur ≡ some dec
      → text_eq dec cur ≡ true
      → Decodes cur w
      → plain_local_path w ≡ true
  settled cur {dec} plain e same d =
      ap plain_local_path (fixed e (text_eq→eq dec cur same) d) ∙ plain

  -- The loop ends well only where every decoding is a plain path.
  decodes_plainly_sound :
      (left : ℕ) (cur w : Text)
      → decodes_plainly left cur ≡ true
      → Decodes cur w
      → plain_local_path w ≡ true
  unfolding decodes_plainly
  decodes_plainly_sound zero cur w h d =
      let (plain, rest) = &&-eq-true (plain_local_path cur) _ h in
      let (dec, e, same) = if_decoded (λ t. text_eq t cur) (u.path_unescape cur) rest in
      settled cur plain e same d
  decodes_plainly_sound (suc left) cur w h d =
      let (plain, rest) = &&-eq-true (plain_local_path cur) _ h in
      let (dec, e, more) =
        if_decoded (λ t. text_eq t cur || decodes_plainly left t) (u.path_unescape cur) rest in
      elim (||-eq-true (text_eq dec cur) (decodes_plainly left dec) more) [
        | inl same ↦ settled cur plain e same d
        | inr next ↦ onward left cur w plain e (λ d'. decodes_plainly_sound left dec w next d') d
      ]
    where
      onward :
          (left : ℕ) (cur w : Text) {dec : Text}
          → plain_local_path cur ≡ true
          → u.path_unescape cur ≡ some dec
          → (Decodes dec w → plain_local_path w ≡ true)
          → Decodes cur w
          → plain_local_path w ≡ true
      onward left cur w plain e ih here = plain
      onward left cur w {dec} plain e ih (decode {t = t} e' d) =
          let t-dec : t ≡ dec = cc in ih (subst (λ x. Decodes x w) t-dec d)

  -- SafeReturnTo answers with the default, or with its argument where that is not empty, has at
  -- most 1024 bytes and is a bare path to url.Parse. However many times it is then decoded, it
  -- starts with a slash that no slash or backslash follows, has no "#", and its runes have no
  -- backslash, no control character, no U+FFFD and no space other than " ".
  pub safe_return_to_lem :
      (raw : Text)
      → (safe_return_to raw ≡ default_return_to)
        ⊎ (safe_return_to raw ≡ raw)
          × (is_empty raw ≡ false)
          × (length raw ≤ 1024)
          × (u.is_bare raw ≡ true)
          × ((w : Text) → Decodes raw w → IsLocal w)
  unfolding safe_return_to
  safe_return_to_lem raw = elim (Bool-cases (is_empty raw || ltb max_return_to (length raw))) [
    | inl e ↦ inl (simp (e))
    | inr sized ↦ elim (Bool-cases (decodes_plainly 2 raw)) [
      | inr e ↦ inl (simp (sized, e))
      | inl plain ↦ elim (Bool-cases (u.is_bare raw)) [
        | inr e ↦ inl (simp (sized, plain, e))
        | inl bare ↦
            let (named, short) = neither (is_empty raw) (ltb max_return_to (length raw)) sized in
            inr (
              simp (sized, plain, bare),
              named,
              not_longer max_return_to (length raw) short,
              bare,
              (λ w d. plain_local_path-IsLocal w (decodes_plainly_sound 2 raw w plain d)),
            )
      ]
    ]
  ]

-- ===== src/Auth/Exempt.antt =====
-- internal/auth/csrf_exempt.go: the routes that need no CSRF token.
use boardchestrator.Prelude.{
  ℕ, ap, subst, ◌≡◌, refl, sym, ◌∙◌, inl, inr, ◌⊎◌, Bool, true, false, ◌&&◌, not, List, [], ◌∷◌,
  Text, codes, text_eq, text_eq→eq, has_prefix, has_suffix, is_empty, if◌then◌else◌, any, any→In,
  In, All, &&-eq-true, ◌==◌,
}

pub record CsrfExemption : Type 0 where
  pub method : Text
  pub pattern : Text

abbrev prepend : ℕ → List Text → List Text
prepend c [] = (c ∷ []) ∷ []
prepend c (s ∷ ss) = (c ∷ s) ∷ ss

-- strings.Split(s, "/")
unfoldable pub split_slash : Text → List Text
split_slash [] = [] ∷ []
split_slash (c ∷ s) = let rest = split_slash s in if c == b'/' then [] ∷ rest else prepend c rest

-- strings.TrimPrefix(s, "/")
abbrev pub trim_slash : Text → Text
trim_slash [] = []
trim_slash (c ∷ s) = if c == b'/' then s else c ∷ s

abbrev pub is_nil : List Text → Bool
is_nil [] = true
is_nil (x ∷ xs) = false

abbrev pub is_param : Text → Bool
is_param p = has_prefix p (codes "{") && has_suffix p (codes "}")

-- The loop of matchRoutePattern over the segments, with the test of their numbers after it.
unfoldable pub match_segments : List Text → List Text → Bool
unfolding text_eq
match_segments [] xs = is_nil xs
match_segments (p ∷ ps) [] = text_eq p (codes "*") && is_nil ps
match_segments (p ∷ ps) (x ∷ xs) =
    let rest = match_segments ps xs in
    if text_eq p (codes "*") && is_nil ps
    then true
    else if is_param p
    then not (is_empty x) && rest
    else text_eq p x && rest

unfoldable pub match_route_pattern : Text → Text → Bool
unfolding split_slash match_segments
match_route_pattern pattern path =
    match_segments (split_slash (trim_slash pattern)) (split_slash (trim_slash path))

abbrev pub exemption : Text → Text → CsrfExemption
exemption method pattern = record { method = method; pattern = pattern }

abbrev pub scim_pattern : Text
scim_pattern = codes "/scim/v2/*"

unfoldable pub csrf_exemptions : List CsrfExemption
csrf_exemptions =
    exemption (codes "POST") (codes "/auth/oidc/{providerID}/backchannel-logout")
    ∷ exemption (codes "POST") (codes "/auth/saml/{providerID}/acs")
    ∷ exemption (codes "POST") (codes "/auth/saml/{providerID}/slo")
    ∷ exemption (codes "GET") scim_pattern
    ∷ exemption (codes "POST") scim_pattern
    ∷ exemption (codes "PUT") scim_pattern
    ∷ exemption (codes "PATCH") scim_pattern
    ∷ exemption (codes "DELETE") scim_pattern
    ∷ exemption (codes "POST") (codes "/auth/passkey/login/finish")
    ∷ exemption (codes "POST") (codes "/auth/passkey/signup/finish")
    ∷ []

unfoldable pub is_csrf_exempt : Text → Text → Bool
unfolding text_eq match_route_pattern csrf_exemptions
is_csrf_exempt method path =
    any (λ e. text_eq e.method method && match_route_pattern e.pattern path) csrf_exemptions

-- The segments of a path, as the matcher sees them.
unfoldable pub segments : Text → List Text
unfolding split_slash
segments path = split_slash (trim_slash path)

-- A literal segment of the pattern is the path's segment at that place.
literal :
    (p : Text) (ps xs : List Text)
    → text_eq p (codes "*") ≡ false
    → is_param p ≡ false
    → match_segments (p ∷ ps) xs ≡ true
    → (rest : List Text) × (xs ≡ p ∷ rest) × (match_segments ps rest ≡ true)
unfolding match_segments
literal p ps [] star param h = absurd (not_both (sym (simp (star)) ∙ h))
  where
    not_both : false ≡ true → ⊥
    not_both q = cc
literal p ps (x ∷ xs) star param h =
    let plain : (text_eq p x && match_segments ps xs) ≡ true = sym (simp (star, param)) ∙ h in
    let (same, rest) = &&-eq-true (text_eq p x) (match_segments ps xs) plain in
    (xs, ap (λ t. t ∷ xs) (sym (text_eq→eq p x same)), rest)

-- Where a pattern starts with "auth", a path that matches it does.
auth_lem :
    (pattern path : Text) (ps : List Text)
    → segments pattern ≡ codes "auth" ∷ ps
    → match_route_pattern pattern path ≡ true
    → (rest : List Text) × (segments path ≡ codes "auth" ∷ rest)
unfolding segments match_route_pattern text_eq has_prefix
auth_lem pattern path ps e h =
    let (rest, same, _) =
      literal (codes "auth") ps (segments path) refl refl
        (subst (λ t. match_segments t (segments path) ≡ true) e h) in
    (rest, same)

scim_lem :
    (path : Text)
    → match_route_pattern scim_pattern path ≡ true
    → (rest : List Text) × (segments path ≡ codes "scim" ∷ codes "v2" ∷ rest)
unfolding segments match_route_pattern text_eq has_prefix
scim_lem path h =
    let (rest, same, more) =
      literal (codes "scim") (codes "v2" ∷ codes "*" ∷ []) (segments path) refl refl h in
    let (rest', same', _) = literal (codes "v2") (codes "*" ∷ []) rest refl refl more in
    (rest', same ∙ ap (λ t. codes "scim" ∷ t) same')

-- A POST under /auth, or anything under /scim/v2.
pub ServerRoute : Text → Text → Type 0
ServerRoute method path =
    (method ≡ codes "POST") × ((rest : List Text) × (segments path ≡ codes "auth" ∷ rest))
    ⊎ ((rest : List Text) × (segments path ≡ codes "scim" ∷ codes "v2" ∷ rest))

Covered : Text → CsrfExemption → Type 0
Covered path e = match_route_pattern e.pattern path ≡ true → ServerRoute e.method path

routes-Covered : (path : Text) → All (Covered path) csrf_exemptions
unfolding csrf_exemptions Covered ServerRoute segments
routes-Covered path = (
  post (codes "/auth/oidc/{providerID}/backchannel-logout") refl,
  (
    post (codes "/auth/saml/{providerID}/acs") refl,
    (
      post (codes "/auth/saml/{providerID}/slo") refl,
      (
        (λ h. inr (scim_lem path h)),
        (
          (λ h. inr (scim_lem path h)),
          (
            (λ h. inr (scim_lem path h)),
            (
              (λ h. inr (scim_lem path h)),
              (
                (λ h. inr (scim_lem path h)),
                (
                  post (codes "/auth/passkey/login/finish") refl,
                  (post (codes "/auth/passkey/signup/finish") refl, tt),
                ),
              ),
            ),
          ),
        ),
      ),
    ),
  ),
)
  where
    post :
        (pattern : Text) {ps : List Text}
        → segments pattern ≡ codes "auth" ∷ ps
        → Covered path (exemption (codes "POST") pattern)
    post pattern {ps} e h = inl (refl, auth_lem pattern path ps e h)

All-In :
    (P : CsrfExemption → Type 0) (e : CsrfExemption) (es : List CsrfExemption)
    → All P es
    → In e es
    → P e
All-In P e [] h m = absurd m
All-In P e (x ∷ xs) (here, rest) (inl same) = subst P (sym same) here
All-In P e (x ∷ xs) (here, rest) (inr later) = All-In P e xs rest later

-- A request that is exempt from the CSRF token is a POST to a path whose first segment is "auth",
-- or its path starts with the segments "scim" and "v2".
pub is_csrf_exempt_lem :
    (method path : Text) → is_csrf_exempt method path ≡ true → ServerRoute method path
unfolding is_csrf_exempt Covered
is_csrf_exempt_lem method path h =
    let (e, m, both) =
      any→In (λ x. text_eq x.method method && match_route_pattern x.pattern path) csrf_exemptions
        h in
    let (same, matches) =
      &&-eq-true (text_eq e.method method) (match_route_pattern e.pattern path) both in
    subst (λ t. ServerRoute t path) (text_eq→eq e.method method same)
      (All-In (Covered path) e csrf_exemptions (routes-Covered path) m matches)

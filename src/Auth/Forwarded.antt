-- ===== src/Auth/Forwarded.antt =====
-- What a client sends in X-Forwarded-For does not choose its address.
use boardchestrator.Prelude.{
  ◌≡◌, refl, sym, inl, inr, true, List, [], ◌∷◌, ◌++◌, Text, is_empty, any, Bool-cases,
  Option-cases, ◌==◌,
}
use mathlib.Core.List.{append_assoc}
use boardchestrator.Auth.ClientIp.{
  Netip, join_commas, split_commas, reverse_onto, trusts, walk, behind_proxy, client_ip, stops,
  remote_host,
}

-- A list of lists of characters is not empty after a split.
split_cons : (s : Text) → (h : Text) × (t : List Text) × (split_commas s ≡ h ∷ t)
unfolding split_commas
split_cons [] = ([], [], refl)
split_cons (c ∷ s) = elim (Bool-cases (c == b',')) [
  | inl comma ↦ ([], split_commas s, rw comma refl)
  | inr other ↦ let (h, t, e) = split_cons s in (c ∷ h, t, rw (other, e) refl)
]

split_commas-append :
    (s t : Text) → split_commas (s ++ (b',' ∷ t)) ≡ split_commas s ++ split_commas t
unfolding split_commas
split_commas-append [] t = refl
split_commas-append (c ∷ s) t = elim (Bool-cases (c == b',')) [
  | inl comma ↦ rw (comma, split_commas-append s t) refl
  | inr other ↦ let (h, hops, e) = split_cons s in rw (other, split_commas-append s t, e) refl
]

split_commas-join :
    (values : List Text) (first last : Text)
    → split_commas (join_commas (first ∷ (values ++ last ∷ [])))
      ≡ split_commas (join_commas (first ∷ values)) ++ split_commas last
unfolding join_commas
split_commas-join [] first last = split_commas-append first last
split_commas-join (v ∷ values) first last =
    let rest = join_commas (v ∷ values) in
    rw
      (
        split_commas-append first (join_commas (v ∷ (values ++ last ∷ []))),
        split_commas-join values v last,
        split_commas-append first rest,
      )
      (sym (append_assoc (split_commas first) (split_commas rest) (split_commas last)))

reverse_onto-append :
    (hops more done : List Text)
    → reverse_onto (hops ++ more) done ≡ reverse_onto more (reverse_onto hops done)
unfolding reverse_onto
reverse_onto-append [] more done = refl
reverse_onto-append (h ∷ hops) more done = reverse_onto-append hops more (h ∷ done)

reverse_onto-done : (hops done : List Text) → reverse_onto hops done ≡ reverse_onto hops [] ++ done
unfolding reverse_onto
reverse_onto-done [] done = refl
reverse_onto-done (h ∷ hops) done =
    rw (reverse_onto-done hops (h ∷ done), reverse_onto-done hops (h ∷ []))
      (sym (append_assoc (reverse_onto hops []) (h ∷ []) done))

module _ {Addr Prefix : Type 0} (net : Netip Addr Prefix) (proxies : List Prefix) where
  -- A walk that stops does not see what comes after.
  walk-stops :
      (hops earlier : List Text) (current : Addr)
      → any (stops net proxies) hops ≡ true
      → walk net proxies (hops ++ earlier) current ≡ walk net proxies hops current
  unfolding walk stops
  walk-stops [] earlier current h = absurd (cc h)
  walk-stops (hop ∷ hops) earlier current h = elim (Bool-cases (is_empty (net.trim_space hop))) [
    | inl e ↦ rw e (walk-stops hops earlier current (rw e at h))
    | inr e ↦ elim (Option-cases (net.parse_addr (net.trim_space hop))) [
      | inl e' ↦ rw (e, e') refl
      | inr (a, e') ↦ elim (Bool-cases (trusts net proxies (net.unmap a))) [
        | inl t ↦ rw (e, e', t) (walk-stops hops earlier (net.unmap a) (rw (e, e', t) at h))
        | inr t ↦ rw (e, e', t) refl
      ]
    ]
  ]

  walk-last :
      (first : Text) (values : List Text) (last : Text) (a : Addr)
      → any (stops net proxies) (reverse_onto (split_commas last) []) ≡ true
      → behind_proxy net proxies (first ∷ (values ++ last ∷ [])) a
        ≡ behind_proxy net proxies (last ∷ []) a
  unfolding behind_proxy join_commas
  walk-last first values last a h =
      let front = split_commas (join_commas (first ∷ values)) in
      rw
        (
          behind_proxy,
          split_commas-join values first last,
          reverse_onto-append front (split_commas last) [],
          reverse_onto-done (split_commas last) (reverse_onto front []),
          walk-stops (reverse_onto (split_commas last) []) (reverse_onto front []) (net.unmap a) h,
        )
        refl

  -- The fields of X-Forwarded-For before the last one, which the trusted peer added, do not matter
  -- where the last one has a hop that is malformed or not a trusted proxy.
  pub client_ip-last :
      (remote_addr : Text) (first : Text) (values : List Text) (last : Text)
      → any (stops net proxies) (reverse_onto (split_commas last) []) ≡ true
      → client_ip net proxies remote_addr (first ∷ (values ++ last ∷ []))
        ≡ client_ip net proxies remote_addr (last ∷ [])
  unfolding client_ip behind_proxy join_commas
  client_ip-last remote_addr first values last h =
      elim (Option-cases (net.parse_addr (remote_host net remote_addr))) [
        | inl e ↦ rw (e, client_ip) refl
        | inr (a, e) ↦ elim (Bool-cases (trusts net proxies a)) [
          | inl t ↦ rw (e, t, client_ip) (walk-last first values last a h)
          | inr t ↦ rw (e, t, client_ip) refl
        ]
      ]

-- ===== src/Auth/ClientIp.antt =====
-- internal/auth/clientip.go: the address of a client behind proxies. net/netip, the splitting of
-- a port from a host and the trimming of spaces are parameters.
use boardchestrator.Prelude.{
  ℕ, Bool, true, ◌&&◌, not, Option, none, some, List, [], ◌∷◌, ◌++◌, Text, codes, is_empty, any,
  if◌then◌else◌, ◌==◌,
}

pub record Netip (Addr Prefix : Type 0) : Type 0 where
  pub parse_addr : Text → Option Addr
  pub unmap : Addr → Addr
  pub contains : Prefix → Addr → Bool
  pub to_string : Addr → Text
  -- net.SplitHostPort's host.
  pub split_host : Text → Option Text
  pub trim_space : Text → Text

-- strings.Join(values, ",")
unfoldable pub join_commas : List Text → Text
join_commas [] = []
join_commas (s ∷ []) = s
join_commas (s ∷ t ∷ ss) = s ++ (codes "," ++ join_commas (t ∷ ss))

abbrev pub add_to_first : ℕ → List Text → List Text
add_to_first c [] = (c ∷ []) ∷ []
add_to_first c (s ∷ ss) = (c ∷ s) ∷ ss

-- strings.Split(s, ",")
unfoldable pub split_commas : Text → List Text
split_commas [] = [] ∷ []
split_commas (c ∷ s) =
    let rest = split_commas s in if c == b',' then [] ∷ rest else add_to_first c rest

-- The loop goes from the last hop to the first.
unfoldable pub reverse_onto : List Text → List Text → List Text
reverse_onto [] done = done
reverse_onto (h ∷ hops) done = reverse_onto hops (h ∷ done)

module _ {Addr Prefix : Type 0} (net : Netip Addr Prefix) where
  unfoldable pub trusts : List Prefix → Addr → Bool
  trusts proxies a = any (λ p. net.contains p (net.unmap a)) proxies

  unfoldable pub remote_host : Text → Text
  remote_host addr = elim (net.split_host addr) [ none ↦ addr | some host ↦ host ]

  -- The loop over the hops, the last one first.
  unfoldable pub walk : List Prefix → List Text → Addr → Addr
  unfolding trusts
  walk proxies [] current = current
  walk proxies (h ∷ hops) current =
      let skipped = walk proxies hops current in
      if is_empty (net.trim_space h) then skipped else elim (net.parse_addr (net.trim_space h)) [
        | none ↦ current
        | some a ↦
            if trusts proxies (net.unmap a) then walk proxies hops (net.unmap a) else net.unmap a
      ]

  unfoldable pub behind_proxy : List Prefix → List Text → Addr → Text
  unfolding walk split_commas join_commas reverse_onto
  behind_proxy proxies forwarded_for peer =
      net.to_string
        (walk proxies (reverse_onto (split_commas (join_commas forwarded_for)) []) (net.unmap peer))

  -- TrustedProxies.ClientIP, of a request with its RemoteAddr and its X-Forwarded-For fields.
  unfoldable pub client_ip : List Prefix → Text → List Text → Text
  unfolding behind_proxy remote_host trusts
  client_ip proxies remote_addr forwarded_for = elim (net.parse_addr (remote_host remote_addr)) [
    | none ↦ remote_host remote_addr
    | some a ↦
        if trusts proxies a then behind_proxy proxies forwarded_for a else remote_host remote_addr
  ]

  -- ClientIP, with the value that ClientIPMiddleware put into the context.
  unfoldable pub resolved_ip : Option Text → Text → Text
  unfolding remote_host
  resolved_ip none remote_addr = remote_host remote_addr
  resolved_ip (some ip) remote_addr = if is_empty ip then remote_host remote_addr else ip

  -- A hop at which the walk ends: malformed, or the address of no trusted proxy.
  unfoldable pub stops : List Prefix → Text → Bool
  unfolding trusts
  stops proxies h = not (is_empty (net.trim_space h)) && elim (net.parse_addr (net.trim_space h)) [
    | none ↦ true
    | some a ↦ not (trusts proxies (net.unmap a))
  ]

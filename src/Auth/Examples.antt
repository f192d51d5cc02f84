-- ===== src/Auth/Examples.antt =====
-- A small replay cache, and a decoder that knows two escapes.
use boardchestrator.Prelude.{
  ℕ, ◌≤◌, ◌≡◌, refl, ◌⊎◌, true, false, Option, none, some, List, [], ◌∷◌, arith, Text, codes,
  text_eq, has_prefix, has_suffix, length, is_empty, ◌&&◌, ◌==◌, if◌then◌else◌,
}
use boardchestrator.Auth.Replay.{
  Call, new_replay_cache, use_id, use_all, use_id_once, use_all_bounded,
}
use boardchestrator.Auth.ReturnTo.{
  Url, Decodes, IsLocal, safe_return_to, default_return_to, safe_return_to_lem,
}
use boardchestrator.Auth.Exempt.{is_csrf_exempt, ServerRoute, is_csrf_exempt_lem}
use boardchestrator.Auth.ClientIp.{Netip, client_ip, stops, reverse_onto, split_commas}
use boardchestrator.Auth.Forwarded.{client_ip-last}

program : Unit {0}
unfolding use_id use_all safe_return_to is_csrf_exempt text_eq has_prefix has_suffix
program = tt

abbrev call : ℕ → Text → ℕ → Call
call now id expires = record { now = now; id = id; expires = expires }

-- A cache of two ids, which is full, and sweeps.
abbrev calls : List Call
calls = call 1 (codes "b") 3 ∷ call 4 (codes "c") 20 ∷ call 5 (codes "d") 20 ∷ []

use_id_once_example :
    (use_id 6 (codes "a") 30 (use_all calls (use_id 0 (codes "a") 10 (new_replay_cache 2)).1)).0
    ≡ false
unfolding program
use_id_once_example =
    use_id_once 0 (codes "a") 10 (new_replay_cache 2) calls 6 30 refl
      (omega arith, (omega arith, (omega arith, tt))) (omega arith)

use_all_bounded_example : length (use_all calls (new_replay_cache 2)).entries ≤ 2
use_all_bounded_example = use_all_bounded calls (new_replay_cache 2) (omega arith)

-- A decoder of "%2f" and "%23" only.
abbrev cons : ℕ → Option Text → Option Text
cons c none = none
cons c (some t) = some (c ∷ t)

-- The character that an escape stands for.
abbrev escape : ℕ → ℕ → Option ℕ
escape d e =
    if (d == b'2') && (e == b'f')
    then some b'/'
    else if (d == b'2') && (e == b'3')
    then some b'#'
    else none

abbrev unescape : Text → Option Text
unescape [] = some []
unescape (c ∷ d ∷ e ∷ s) =
    let rest = unescape s in
    let next = unescape (d ∷ e ∷ s) in
    if c == b'%' then elim (escape d e) [ none ↦ none | some x ↦ cons x rest ] else cons c next
unescape (c ∷ s) = let next = unescape s in if c == b'%' then none else cons c next

abbrev url : Url
url = record {
  path_unescape = unescape;
  is_bare = λ s. true;
  runes = λ s. s;
  is_control = λ r. r == 9;
  is_space = λ r. r == b' ';
}

local : safe_return_to url (codes "/boards/1") ≡ codes "/boards/1"
unfolding program
local = refl

other_host : safe_return_to url (codes "//evil") ≡ codes "/app"
unfolding program
other_host = refl

backslash : safe_return_to url (codes "/\\evil") ≡ codes "/app"
unfolding program
backslash = refl

escaped : safe_return_to url (codes "/boards%2f1") ≡ codes "/boards%2f1"
unfolding program
escaped = refl

-- It becomes "//evil" by decoding.
escaped_host : safe_return_to url (codes "/%2fevil") ≡ codes "/app"
unfolding program
escaped_host = refl

escaped_fragment : safe_return_to url (codes "/a%23b") ≡ codes "/app"
unfolding program
escaped_fragment = refl

safe_return_to_lem_example :
    (safe_return_to url (codes "/boards%2f1") ≡ default_return_to)
    ⊎ (safe_return_to url (codes "/boards%2f1") ≡ codes "/boards%2f1")
      × (is_empty (codes "/boards%2f1") ≡ false)
      × (length (codes "/boards%2f1") ≤ 1024)
      × (url.is_bare (codes "/boards%2f1") ≡ true)
      × ((w : Text) → Decodes url (codes "/boards%2f1") w → IsLocal url w)
safe_return_to_lem_example = safe_return_to_lem url (codes "/boards%2f1")

home_is_guarded : is_csrf_exempt (codes "POST") (codes "/boards/1") ≡ false
unfolding program
home_is_guarded = refl

is_csrf_exempt_lem_example : ServerRoute (codes "POST") (codes "/auth/saml/p1/acs")
unfolding program
is_csrf_exempt_lem_example = is_csrf_exempt_lem (codes "POST") (codes "/auth/saml/p1/acs") refl

abbrev one_char : Text → Option ℕ
one_char (c ∷ []) = some c
one_char _ = none

-- Addresses of one character; the proxy is "p".
abbrev net : Netip ℕ ℕ
net = record {
  parse_addr = one_char;
  unmap = λ a. a;
  contains = λ p a. p == a;
  to_string = λ a. a ∷ [];
  split_host = λ s. some s;
  trim_space = λ s. s;
}

found_client : client_ip net (b'p' ∷ []) (codes "p") (codes "f" ∷ codes "c,p" ∷ []) ≡ codes "c"
unfolding client_ip
found_client = refl

client_ip-last_example :
    client_ip net (b'p' ∷ []) (codes "p") (codes "f" ∷ codes "c,p" ∷ [])
    ≡ client_ip net (b'p' ∷ []) (codes "p") (codes "c,p" ∷ [])
unfolding stops reverse_onto split_commas
client_ip-last_example =
    client_ip-last net (b'p' ∷ []) (codes "p") (codes "f") [] (codes "c,p") refl

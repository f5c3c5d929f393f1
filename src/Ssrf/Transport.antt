-- ===== src/Ssrf/Transport.antt =====
-- internal/ssrf/transport.go: the dialer of the client, and the requests of one call of the client, which
-- follow the redirects of the servers.
use base_go_api.Prelude.{ℕ, suc, Bool, not, List, [], ◌∷◌, none, some, leb, any, if◌then◌else◌}
use base_go_api.Prelude.Bytes.{Bytes}
use base_go_api.Ssrf.Validator.{Config, NetLibrary, Resolver, is_blocked_ip}

-- A connection to an address is opened, or an error is returned, or the code panics.
pub data Dial : Type 0 where
  connects : Bytes → Dial
  refuses : Dial
  panics : Dial

-- `ssrfDialContext`, after the host is split from the port; `ips[0]` of no address panics.
unfoldable pub ssrf_dial_context : NetLibrary → Config → Resolver → Bytes → Dial
unfolding is_blocked_ip
ssrf_dial_context lib cfg lookup host = elim (lib.parse_ip host) [
  | some ip ↦ if is_blocked_ip cfg ip then refuses else connects ip
  | none ↦ elim (lookup host) [
    | none ↦ refuses
    | some [] ↦ panics
    | some (ip ∷ ips) ↦ if any (is_blocked_ip cfg) (ip ∷ ips) then refuses else connects ip
  ]
]

-- `CheckRedirect`, for a number of requests before: whether the redirect is followed.
unfoldable pub check_redirect : ℕ → Bool
check_redirect via = not (leb 10 via)

-- The requests of one call, each with the resolver at its time: the first, and those to which the
-- servers redirect. A request ends the call where it is not dialled or its redirect is not followed.
unfoldable pub fetch : NetLibrary → Config → ℕ → List (Resolver × Bytes) → List Dial
unfolding ssrf_dial_context check_redirect
fetch lib cfg via [] = []
fetch lib cfg via ((lookup, host) ∷ hops) =
    let rest = fetch lib cfg (suc via) hops in
    elim (ssrf_dial_context lib cfg lookup host) [
      | connects ip ↦ connects ip ∷ (if check_redirect (suc via) then rest else [])
      | refuses ↦ refuses ∷ []
      | panics ↦ panics ∷ []
    ]

-- ===== src/Ssrf/Tests.antt =====
-- Addresses, hosts and redirects on concrete inputs.
use base_go_api.Prelude.{
  Option, some, ◌≡◌, ◌≤◌, ◌↔◌, refl, true, false, List, [], ◌∷◌, ◌++◌, none, some, arith, All,
  length,
}
use base_go_api.Prelude.Bytes.{Bytes, codes}
use base_go_api.Sql.Table.{In}
use base_go_api.Ssrf.Address.{Net, mapped_prefix}
use base_go_api.Ssrf.Validator.{
  NetLibrary, Resolver, default_config, parse_cidrs, parse_cidr_list, to_lower, trim_space,
  is_blocked_ip, is_blocked_host,
}
use base_go_api.Ssrf.Transport.{connects, refuses, fetch}
use base_go_api.Ssrf.Ranges.{ip4, is_blocked_ip-default_config}
use base_go_api.Ssrf.Wired.{is_blocked_ip-to_internal}
use base_go_api.Ssrf.Settings.{Source, default_settings, to_internal, parse_ssrf_config}
use base_go_api.Ssrf.Hosts.{IsBelow, is_blocked_host_iff}
use base_go_api.Ssrf.Dialing.{IsSafe, fetch_lem}

is_blocked_ip-default_config_example :
    (is_blocked_ip default_config (ip4 172 31 255 255) ≡ true)
    × (is_blocked_ip default_config (mapped_prefix ++ ip4 172 31 255 255) ≡ true)
is_blocked_ip-default_config_example =
    is_blocked_ip-default_config 172 31 255 255 (omega arith) (omega arith) (omega arith)
      (omega arith)

is_blocked_host_iff_example :
    (is_blocked_host default_config (codes " A.Metadata.internal") ≡ true) ↔ (
      (b : Bytes) × In b default_config.blocked_hosts_normalized
      × IsBelow (to_lower (trim_space (codes " A.Metadata.internal"))) b)
is_blocked_host_iff_example = is_blocked_host_iff default_config (codes " A.Metadata.internal")

blocked_below : is_blocked_host default_config (codes " A.Metadata.internal") ≡ true
unfolding is_blocked_host
blocked_below = refl

-- The same name with the dot of the root is not blocked.
rooted_name : is_blocked_host default_config (codes "metadata.internal.") ≡ false
unfolding is_blocked_host
rooted_name = refl

-- No host is a literal address.
abbrev names_only : NetLibrary
names_only = record { parse_url = λ s. none; parse_ip = λ s. none }

abbrev answers : Bytes → Resolver
answers ip = λ host. some (ip ∷ [])

abbrev hops : List (Resolver × Bytes)
hops =
    (answers (ip4 93 184 216 34), codes "example.com")
    ∷ ((answers (ip4 127 0 0 1), codes "example.com") ∷ [])

fetch_example :
    All (IsSafe default_config) (fetch names_only default_config 0 hops)
    × (length (fetch names_only default_config 0 hops) ≤ 10)
fetch_example = fetch_lem names_only default_config hops

rebound : fetch names_only default_config 0 hops ≡ connects (ip4 93 184 216 34) ∷ (refuses ∷ [])
unfolding fetch is_blocked_ip
rebound = refl

abbrev no_nets : Bytes → Option Net
no_nets text = some (record { network = ip4 0 0 0 0; ones = 8 })

abbrev unset : Source
unset = record {
  allow_private_ips = false;
  allow_http = false;
  allowed_schemes = [];
  blocked_hosts = [];
  blocked_cidrs = [];
  allowed_cidrs = [];
}

-- The unspecified address, and a host of the default list.
is_blocked_ip-to_internal_example :
    (is_blocked_ip (to_internal default_settings) (ip4 0 0 0 0) ≡ false)
    × (is_blocked_host (to_internal default_settings) (codes "metadata.internal") ≡ false)
unfolding parse_ssrf_config parse_cidrs parse_cidr_list
is_blocked_ip-to_internal_example =
    is_blocked_ip-to_internal no_nets unset default_settings 0 0 0 0 (codes "metadata.internal")
      refl refl (omega arith) (omega arith) (omega arith) (omega arith)

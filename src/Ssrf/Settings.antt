-- ===== src/Ssrf/Settings.antt =====
-- internal/config/ssrf.go: the settings of the program, and the configuration that cmd/api/main.go and
-- internal/http/server.go make of them.
use base_go_api.Prelude.{Bool, false, List, [], ◌∷◌, Option, none, some, if◌then◌else◌, map, ◌==◌}
use base_go_api.Prelude.Bytes.{Bytes, codes}
use base_go_api.Ssrf.Address.{Net}
use base_go_api.Ssrf.Validator.{
  Config, default_blocked_hosts, default_blocked_cidrs, trim_space, parse_cidrs,
}

pub record Settings : Type 0 where
  pub allow_private_ips : Bool
  pub allowed_schemes : List Bytes
  pub blocked_hosts : List Bytes
  pub blocked_cidrs : List Bytes
  pub allowed_cidrs : List Bytes

-- `DefaultSSRFConfig` of the package `config`.
abbrev pub default_settings : Settings
default_settings = record {
  allow_private_ips = false;
  allowed_schemes = codes "https" ∷ [];
  blocked_hosts = default_blocked_hosts;
  blocked_cidrs = default_blocked_cidrs;
  allowed_cidrs = [];
}

-- `ToInternal`; the fields that it does not set are nil.
unfoldable pub to_internal : Settings → Config
to_internal s = record {
  allow_private_ips = s.allow_private_ips;
  allowed_schemes = s.allowed_schemes;
  blocked_hosts = s.blocked_hosts;
  blocked_cidrs = s.blocked_cidrs;
  allowed_cidrs = s.allowed_cidrs;
  blocked_nets = [];
  allowed_nets = [];
  blocked_hosts_normalized = [];
}

-- `strings.Split` at commas.
abbrev pub split_commas : Bytes → List Bytes
split_commas [] = [] ∷ []
split_commas (c ∷ s) = elim (split_commas s) [
  | [] ↦ []
  | part ∷ parts ↦ if c == b',' then [] ∷ (part ∷ parts) else (c ∷ part) ∷ parts
]

-- A list of the environment, where it is set.
abbrev pub or_list : List Bytes → Bytes → List Bytes
or_list standard [] = standard
or_list standard (c ∷ s) = map trim_space (split_commas (c ∷ s))

-- What Viper has for the settings.
pub record Source : Type 0 where
  pub allow_private_ips : Bool
  pub allow_http : Bool
  pub allowed_schemes : Bytes
  pub blocked_hosts : Bytes
  pub blocked_cidrs : Bytes
  pub allowed_cidrs : Bytes

-- `parseSSRFConfig`, but for the timeout: what `ParseCIDRs` makes of the copy is dropped, its error is not.
unfoldable pub parse_ssrf_config : (Bytes → Option Net) → Source → Option Settings
unfolding to_internal parse_cidrs
parse_ssrf_config parse_cidr v =
    let schemes =
      if v.allow_http
      then codes "https" ∷ (codes "http" ∷ [])
      else default_settings.allowed_schemes in
    let s : Settings = record {
      allow_private_ips = v.allow_private_ips;
      allowed_schemes = or_list schemes v.allowed_schemes;
      blocked_hosts = or_list default_settings.blocked_hosts v.blocked_hosts;
      blocked_cidrs = or_list default_settings.blocked_cidrs v.blocked_cidrs;
      allowed_cidrs = or_list default_settings.allowed_cidrs v.allowed_cidrs;
    } in
    elim (parse_cidrs parse_cidr (to_internal s)) [ none ↦ none | some parsed ↦ some s ]

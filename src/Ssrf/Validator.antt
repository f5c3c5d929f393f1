-- ===== src/Ssrf/Validator.antt =====
-- internal/ssrf/validator.go and internal/ssrf/config.go. Hosts and schemes are ASCII text. The parsing
-- of a URL, of an address and of a network, and the lookup of a name, are parameters.
use base_go_api.Prelude.{
  ℕ, ◌+◌, ◌==◌, ◌&&◌, ◌||◌, Bool, true, false, not, List, [], ◌∷◌, Option, none, some, leb, any,
  map, if◌then◌else◌,
}
use base_go_api.Prelude.Bytes.{Bytes, bytes_eq, codes, has_suffix}
use mathlib.Core.List.{reverse}
use base_go_api.Ssrf.Address.{
  Net, to4, contains, is_loopback, is_private, is_link_local_unicast, is_link_local_multicast,
}

-- `SSRFConfig`: the texts of the configuration, and what is parsed of them.
pub record Config : Type 0 where
  pub allow_private_ips : Bool
  pub allowed_schemes : List Bytes
  pub blocked_hosts : List Bytes
  pub blocked_cidrs : List Bytes
  pub allowed_cidrs : List Bytes
  pub blocked_nets : List Net
  pub allowed_nets : List Net
  pub blocked_hosts_normalized : List Bytes

-- `strings.ToLower` and `strings.TrimSpace`.
abbrev pub to_lower : Bytes → Bytes
to_lower s = map (λ c. if leb 65 c && leb c 90 then c + 32 else c) s

abbrev pub is_space : ℕ → Bool
is_space c = (c == 32) || (leb 9 c && leb c 13)

abbrev pub trim_left : Bytes → Bytes
trim_left [] = []
trim_left (c ∷ s) = if is_space c then trim_left s else c ∷ s

abbrev pub trim_space : Bytes → Bytes
trim_space s = reverse (trim_left (reverse (trim_left s)))

-- `normalizeHosts`
abbrev pub normalize_hosts : List Bytes → List Bytes
normalize_hosts hosts = map (λ h. to_lower (trim_space h)) hosts

-- `parseCIDRList`: the first text that is no network ends it.
unfoldable pub parse_cidr_list : (Bytes → Option Net) → List Bytes → Option (List Net)
parse_cidr_list parse_cidr [] = some []
parse_cidr_list parse_cidr (text ∷ texts) =
    let rest = parse_cidr_list parse_cidr texts in
    elim (parse_cidr text) [
      | none ↦ none
      | some n ↦ elim rest [ none ↦ none | some ns ↦ some (n ∷ ns) ]
    ]

-- `parseCIDRs`: `none` is its error.
unfoldable pub parse_cidrs : (Bytes → Option Net) → Config → Option Config
unfolding parse_cidr_list
parse_cidrs parse_cidr cfg = elim (parse_cidr_list parse_cidr cfg.blocked_cidrs) [
  | none ↦ none
  | some blocked ↦ elim (parse_cidr_list parse_cidr cfg.allowed_cidrs) [
    | none ↦ none
    | some allowed ↦ some (record cfg { blocked_nets = blocked; allowed_nets = allowed })
  ]
]

abbrev pub default_blocked_hosts : List Bytes
default_blocked_hosts =
    codes "metadata.internal"
    ∷ (codes "metadata.google.internal" ∷ (codes "instance-data.ec2.internal" ∷ []))

abbrev pub default_blocked_cidrs : List Bytes
default_blocked_cidrs =
    codes "127.0.0.0/8"
    ∷ (codes "::1/128"
        ∷ (codes "10.0.0.0/8"
            ∷ (codes "172.16.0.0/12"
                ∷ (codes "192.168.0.0/16"
                    ∷ (codes "169.254.0.0/16"
                        ∷ (codes "fe80::/10"
                            ∷ (codes "169.254.169.254/32"
                                ∷ (codes "100.64.0.0/10"
                                    ∷ (codes "0.0.0.0/8" ∷ (codes "::/128" ∷ []))))))))))

-- `BlockedCIDRs` of `DefaultSSRFConfig`, parsed.
abbrev pub default_blocked_nets : List Net
default_blocked_nets =
    record { network = 127 ∷ 0 ∷ 0 ∷ 0 ∷ []; ones = 8 }
    ∷ (record {
      network = 0 ∷ 0 ∷ 0 ∷ 0 ∷ 0 ∷ 0 ∷ 0 ∷ 0 ∷ 0 ∷ 0 ∷ 0 ∷ 0 ∷ 0 ∷ 0 ∷ 0 ∷ 1 ∷ [];
      ones = 128;
    }
        ∷ (record { network = 10 ∷ 0 ∷ 0 ∷ 0 ∷ []; ones = 8 }
            ∷ (record { network = 172 ∷ 16 ∷ 0 ∷ 0 ∷ []; ones = 12 }
                ∷ (record { network = 192 ∷ 168 ∷ 0 ∷ 0 ∷ []; ones = 16 }
                    ∷ (record { network = 169 ∷ 254 ∷ 0 ∷ 0 ∷ []; ones = 16 }
                        ∷ (record {
                          network =
                              254 ∷ 128 ∷ 0 ∷ 0 ∷ 0 ∷ 0 ∷ 0 ∷ 0 ∷ 0 ∷ 0 ∷ 0 ∷ 0 ∷ 0 ∷ 0 ∷ 0 ∷ 0
                              ∷ [];
                          ones = 10;
                        }
                            ∷ (record { network = 169 ∷ 254 ∷ 169 ∷ 254 ∷ []; ones = 32 }
                                ∷ (record { network = 100 ∷ 64 ∷ 0 ∷ 0 ∷ []; ones = 10 }
                                    ∷ (record { network = 0 ∷ 0 ∷ 0 ∷ 0 ∷ []; ones = 8 }
                                        ∷ (record {
                                          network =
                                              0 ∷ 0 ∷ 0 ∷ 0 ∷ 0 ∷ 0 ∷ 0 ∷ 0 ∷ 0 ∷ 0 ∷ 0 ∷ 0 ∷ 0 ∷ 0
                                              ∷ 0 ∷ 0 ∷ [];
                                          ones = 128;
                                        }
                                            ∷ []))))))))))

-- `DefaultSSRFConfig`
abbrev pub default_config : Config
default_config = record {
  allow_private_ips = false;
  allowed_schemes = codes "https" ∷ [];
  blocked_hosts = default_blocked_hosts;
  blocked_cidrs = default_blocked_cidrs;
  allowed_cidrs = [];
  blocked_nets = default_blocked_nets;
  allowed_nets = [];
  blocked_hosts_normalized = normalize_hosts default_blocked_hosts;
}

unfoldable pub normalize_ip : Bytes → Bytes
normalize_ip ip = elim (to4 ip) [ some v ↦ v | none ↦ ip ]

unfoldable pub is_blocked_ip : Config → Bytes → Bool
unfolding normalize_ip
is_blocked_ip cfg address =
    let ip = normalize_ip address in
    if cfg.allow_private_ips
    then false
    else if any (λ n. contains n ip) cfg.allowed_nets
    then false
    else if is_loopback ip
    then true
    else if is_private ip
    then true
    else if is_link_local_unicast ip
    then true
    else if is_link_local_multicast ip
    then true
    else any (λ n. contains n ip) cfg.blocked_nets

unfoldable pub is_blocked_host : Config → Bytes → Bool
is_blocked_host cfg host =
    let lower = to_lower (trim_space host) in
    any (λ b. if bytes_eq lower b then true else has_suffix lower (b'.' ∷ b))
      cfg.blocked_hosts_normalized

unfoldable pub is_allowed_scheme : Config → Bytes → Bool
is_allowed_scheme cfg scheme =
    any (λ allowed. bytes_eq (to_lower allowed) (to_lower scheme)) cfg.allowed_schemes

-- The parts of a URL that are read.
pub record Url : Type 0 where
  pub scheme : Bytes
  pub hostname : Bytes

-- What of Go's libraries reads texts and the world.
pub record NetLibrary : Type 0 where
  pub parse_url : Bytes → Option Url
  pub parse_ip : Bytes → Option Bytes

-- The resolver at one time: `net.LookupIP`.
abbrev pub Resolver : Type 0
Resolver = Bytes → Option (List Bytes)

-- `ValidateURL`: whether the URL is accepted.
unfoldable pub validate_url : NetLibrary → Config → Resolver → Bytes → Bool
unfolding is_allowed_scheme is_blocked_host is_blocked_ip
validate_url lib cfg lookup raw = elim (lib.parse_url raw) [
  | none ↦ false
  | some u ↦
      if not (is_allowed_scheme cfg u.scheme)
      then false
      else if bytes_eq u.hostname []
      then false
      else if is_blocked_host cfg u.hostname
      then false
      else elim (lookup u.hostname) [
        | some ips ↦ not (any (is_blocked_ip cfg) ips)
        | none ↦ elim (lib.parse_ip u.hostname) [
          | none ↦ false
          | some ip ↦ not (any (is_blocked_ip cfg) (ip ∷ []))
        ]
      ]
]

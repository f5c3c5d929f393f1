-- ===== src/Ssrf/Wired.antt =====
-- Which addresses and hosts the program blocks: the configuration that cmd/api/main.go and
-- internal/http/server.go make with `ToInternal` of internal/config/ssrf.go.
use base_go_api.Prelude.{
  ℕ, ◌<◌, ◌≡◌, refl, ◌∙◌, Bool, true, false, Option, some, List, [], ◌∷◌, arith, any, if◌then◌else◌,
}
use base_go_api.Prelude.Bytes.{Bytes}
use base_go_api.Ssrf.Address.{Net}
use base_go_api.Ssrf.Validator.{normalize_ip, is_blocked_ip, is_blocked_host}
use base_go_api.Ssrf.Settings.{Settings, Source, to_internal, parse_ssrf_config}
use base_go_api.Ssrf.Ranges.{
  ip4, within, value, loopback, private_range, unicast_range, multicast_range,
}

-- The ranges of Go's own classes of addresses.
abbrev pub builtin_ranges : List (ℕ × ℕ)
builtin_ranges =
    (167_772_160, 184_549_376)
    ∷ ((2_130_706_432, 2_147_483_648)
        ∷ ((2_851_995_648, 2_852_061_184)
            ∷ ((2_886_729_728, 2_887_778_304)
                ∷ ((3_232_235_520, 3_232_301_056) ∷ ((3_758_096_384, 3_758_096_640) ∷ [])))))

settings_private :
    (parse_cidr : Bytes → Option Net) (v : Source) (s : Settings)
    → parse_ssrf_config parse_cidr v ≡ some s
    → s.allow_private_ips ≡ v.allow_private_ips
unfolding parse_ssrf_config
settings_private parse_cidr v s parsed = ground arith

merge_builtin :
    (ten loop link twelve sixteen multi : Bool)
    → (if loop
        then true
        else if (if ten then true else if twelve then true else if sixteen then true else false)
        then true
        else if link
        then true
        else if multi
        then true
        else false)
      ≡ (if ten
          then true
          else if loop
          then true
          else if link
          then true
          else if twelve
          then true
          else if sixteen
          then true
          else if multi
          then true
          else false)
merge_builtin ten loop link twelve sixteen multi = ground arith

-- Under the configuration that the program makes of any settings that parse, and that do not allow all
-- private addresses, an IPv4 address is blocked exactly when its number is in one of the six ranges of
-- Go's own classes, and no host is blocked by name: the blocked and allowed networks and the blocked
-- hosts of the settings have no effect.
pub is_blocked_ip-to_internal :
    (parse_cidr : Bytes → Option Net) (v : Source) (s : Settings) (a b c d : ℕ) (host : Bytes)
    → parse_ssrf_config parse_cidr v ≡ some s
    → v.allow_private_ips ≡ false
    → a < 256
    → b < 256
    → c < 256
    → d < 256
    → (is_blocked_ip (to_internal s) (ip4 a b c d) ≡ any (within (value a b c d)) builtin_ranges)
      × (is_blocked_host (to_internal s) host ≡ false)
unfolding to_internal is_blocked_ip is_blocked_host normalize_ip
is_blocked_ip-to_internal parse_cidr v s a b c d host parsed guarded la lb lc ld =
    let w = value a b c d in
    (
      rw
          (
            settings_private parse_cidr v s parsed ∙ guarded,
            loopback a b c d la lb lc ld,
            private_range a b c d la lb lc ld,
            unicast_range a b c d la lb lc ld,
            multicast_range a b c d la lb lc ld,
          )
          (merge_builtin (within w (167_772_160, 184_549_376))
            (within w (2_130_706_432, 2_147_483_648)) (within w (2_851_995_648, 2_852_061_184))
            (within w (2_886_729_728, 2_887_778_304)) (within w (3_232_235_520, 3_232_301_056))
            (within w (3_758_096_384, 3_758_096_640))),
      refl,
    )

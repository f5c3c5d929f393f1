-- ===== src/Ssrf/Ranges.antt =====
-- Which addresses the default configuration of internal/ssrf blocks: the IPv4 addresses as numbers, and
-- the same addresses mapped into IPv6.
use base_go_api.Prelude.{
  ℕ, ◌+◌, ◌*◌, ◌<◌, ◌≡◌, refl, ◌∙◌, Bool, true, false, ◌&&◌, List, [], ◌∷◌, ◌++◌, arith, any, ltb,
  leb, if◌then◌else◌,
}
use base_go_api.Prelude.Bytes.{Bytes}
use base_go_api.Ssrf.Address.{
  agree, mapped_prefix, is_loopback, is_private, is_link_local_unicast, is_link_local_multicast,
}
use base_go_api.Ssrf.Validator.{Config, default_config, normalize_ip, is_blocked_ip}

abbrev pub ip4 : ℕ → ℕ → ℕ → ℕ → Bytes
ip4 a b c d = a ∷ (b ∷ (c ∷ (d ∷ [])))

abbrev pub within : ℕ → ℕ × ℕ → Bool
within n (low, high) = leb low n && ltb n high

-- The address as a number.
abbrev pub value : ℕ → ℕ → ℕ → ℕ → ℕ
value a b c d = a * 16_777_216 + b * 65_536 + c * 256 + d

-- 0.0.0.0/8, 10.0.0.0/8, 100.64.0.0/10, 127.0.0.0/8, 169.254.0.0/16, 172.16.0.0/12, 192.168.0.0/16 and
-- 224.0.0.0/24, each from its first address to the one after its last.
abbrev pub blocked_ranges : List (ℕ × ℕ)
blocked_ranges =
    (0, 16_777_216)
    ∷ ((167_772_160, 184_549_376)
        ∷ ((1_681_915_904, 1_686_110_208)
            ∷ ((2_130_706_432, 2_147_483_648)
                ∷ ((2_851_995_648, 2_852_061_184)
                    ∷ ((2_886_729_728, 2_887_778_304)
                        ∷ ((3_232_235_520, 3_232_301_056)
                            ∷ ((3_758_096_384, 3_758_096_640) ∷ [])))))))

module _ (a b c d : ℕ) (la : a < 256) (lb : b < 256) (lc : c < 256) (ld : d < 256) where
  pub loopback : is_loopback (ip4 a b c d) ≡ within (value a b c d) (2_130_706_432, 2_147_483_648)
  loopback = ground arith

  pub private_range :
      is_private (ip4 a b c d)
      ≡ any (within (value a b c d)) (
          (167_772_160, 184_549_376)
          ∷ ((2_886_729_728, 2_887_778_304) ∷ ((3_232_235_520, 3_232_301_056) ∷ [])))
  private_range = ground arith

  pub unicast_range :
      is_link_local_unicast (ip4 a b c d) ≡ within (value a b c d) (2_851_995_648, 2_852_061_184)
  unicast_range = ground arith

  pub multicast_range :
      is_link_local_multicast (ip4 a b c d) ≡ within (value a b c d) (3_758_096_384, 3_758_096_640)
  multicast_range = ground arith

  net_127 :
      agree 8 (127 ∷ (0 ∷ (0 ∷ (0 ∷ [])))) (ip4 a b c d)
      ≡ within (value a b c d) (2_130_706_432, 2_147_483_648)
  net_127 = ground arith

  net_10 :
      agree 8 (10 ∷ (0 ∷ (0 ∷ (0 ∷ [])))) (ip4 a b c d)
      ≡ within (value a b c d) (167_772_160, 184_549_376)
  net_10 = ground arith

  net_172 :
      agree 12 (172 ∷ (16 ∷ (0 ∷ (0 ∷ [])))) (ip4 a b c d)
      ≡ within (value a b c d) (2_886_729_728, 2_887_778_304)
  net_172 = ground arith

  net_192 :
      agree 16 (192 ∷ (168 ∷ (0 ∷ (0 ∷ [])))) (ip4 a b c d)
      ≡ within (value a b c d) (3_232_235_520, 3_232_301_056)
  net_192 = ground arith

  net_169 :
      agree 16 (169 ∷ (254 ∷ (0 ∷ (0 ∷ [])))) (ip4 a b c d)
      ≡ within (value a b c d) (2_851_995_648, 2_852_061_184)
  net_169 = ground arith

  net_100 :
      agree 10 (100 ∷ (64 ∷ (0 ∷ (0 ∷ [])))) (ip4 a b c d)
      ≡ within (value a b c d) (1_681_915_904, 1_686_110_208)
  net_100 = ground arith

  net_0 : agree 8 (0 ∷ (0 ∷ (0 ∷ (0 ∷ [])))) (ip4 a b c d) ≡ within (value a b c d) (0, 16_777_216)
  net_0 = ground arith

  metadata :
      agree 32 (169 ∷ (254 ∷ (169 ∷ (254 ∷ [])))) (ip4 a b c d) ≡ true
      → within (value a b c d) (2_851_995_648, 2_852_061_184) ≡ true
  metadata h = ground arith

-- The order of the tests does not matter.
merge :
    (zero ten shared loop link twelve sixteen multi meta : Bool)
    → (meta ≡ true → link ≡ true)
    → (if loop
        then true
        else if (if ten then true else if twelve then true else if sixteen then true else false)
        then true
        else if link
        then true
        else if multi
        then true
        else if loop
        then true
        else if ten
        then true
        else if twelve
        then true
        else if sixteen
        then true
        else if link
        then true
        else if meta
        then true
        else if shared
        then true
        else if zero
        then true
        else false)
      ≡ (if zero
          then true
          else if ten
          then true
          else if shared
          then true
          else if loop
          then true
          else if link
          then true
          else if twelve
          then true
          else if sixteen
          then true
          else if multi
          then true
          else false)
merge zero ten shared loop link twelve sixteen multi meta h = ground arith

module _ (a b c d : ℕ) where
  longer_1 :
      agree 128
        (0
          ∷ (0
              ∷ (0
                  ∷ (0
                      ∷ (0
                          ∷ (0
                              ∷ (0 ∷ (0 ∷ (0 ∷ (0 ∷ (0 ∷ (0 ∷ (0 ∷ (0 ∷ (0 ∷ (1 ∷ []))))))))))))))))
        (ip4 a b c d)
      ≡ false
  longer_1 = ground arith

  longer_2 :
      agree 10
        (254
          ∷ (128
              ∷ (0
                  ∷ (0
                      ∷ (0
                          ∷ (0
                              ∷ (0 ∷ (0 ∷ (0 ∷ (0 ∷ (0 ∷ (0 ∷ (0 ∷ (0 ∷ (0 ∷ (0 ∷ []))))))))))))))))
        (ip4 a b c d)
      ≡ false
  longer_2 = ground arith

blocked_range :
    (a b c d : ℕ)
    → a < 256
    → b < 256
    → c < 256
    → d < 256
    → is_blocked_ip default_config (ip4 a b c d) ≡ any (within (value a b c d)) blocked_ranges
unfolding is_blocked_ip normalize_ip
blocked_range a b c d la lb lc ld =
    let v = value a b c d in
    rw
      (
        loopback a b c d la lb lc ld,
        private_range a b c d la lb lc ld,
        unicast_range a b c d la lb lc ld,
        multicast_range a b c d la lb lc ld,
        net_127 a b c d la lb lc ld,
        longer_1 a b c d,
        net_10 a b c d la lb lc ld,
        net_172 a b c d la lb lc ld,
        net_192 a b c d la lb lc ld,
        net_169 a b c d la lb lc ld,
        longer_2 a b c d,
        net_100 a b c d la lb lc ld,
        net_0 a b c d la lb lc ld,
      )
      (merge (within v (0, 16_777_216)) (within v (167_772_160, 184_549_376))
        (within v (1_681_915_904, 1_686_110_208)) (within v (2_130_706_432, 2_147_483_648))
        (within v (2_851_995_648, 2_852_061_184)) (within v (2_886_729_728, 2_887_778_304))
        (within v (3_232_235_520, 3_232_301_056)) (within v (3_758_096_384, 3_758_096_640))
        (agree 32 (169 ∷ (254 ∷ (169 ∷ (254 ∷ [])))) (ip4 a b c d)) (metadata a b c d la lb lc ld))

is_blocked_ip-mapped :
    (cfg : Config) (a b c d : ℕ)
    → is_blocked_ip cfg (mapped_prefix ++ ip4 a b c d) ≡ is_blocked_ip cfg (ip4 a b c d)
unfolding is_blocked_ip normalize_ip
is_blocked_ip-mapped cfg a b c d = refl

-- The default configuration blocks an IPv4 address exactly when its number is in one of the eight blocked
-- ranges, and the same address mapped into IPv6 in the same cases.
pub is_blocked_ip-default_config :
    (a b c d : ℕ)
    → a < 256
    → b < 256
    → c < 256
    → d < 256
    → (is_blocked_ip default_config (ip4 a b c d) ≡ any (within (value a b c d)) blocked_ranges)
      × (is_blocked_ip default_config (mapped_prefix ++ ip4 a b c d)
          ≡ any (within (value a b c d)) blocked_ranges)
is_blocked_ip-default_config a b c d la lb lc ld =
    let direct = blocked_range a b c d la lb lc ld in
    (direct, is_blocked_ip-mapped default_config a b c d ∙ direct)

-- ===== src/Ssrf/Address.antt =====
-- What internal/ssrf uses of Go's package `net`: an address is a list of 4 or 16 bytes, and a network an
-- address and the length of a prefix.
use base_go_api.Prelude.{
  ℕ, zero, suc, ◌-◌, ◌/◌, ◌%◌, ◌^◌, ◌==◌, ◌&&◌, Bool, true, false, [], ◌∷◌, Option, none, some, leb,
  length, take, drop, if◌then◌else◌,
}
use base_go_api.Prelude.Bytes.{Bytes, bytes_eq}

-- The bytes before an IPv4 address that is mapped into IPv6.
abbrev pub mapped_prefix : Bytes
mapped_prefix = 0 ∷ 0 ∷ 0 ∷ 0 ∷ 0 ∷ 0 ∷ 0 ∷ 0 ∷ 0 ∷ 0 ∷ 255 ∷ 255 ∷ []

-- `IP.To4`
abbrev pub to4 : Bytes → Option Bytes
to4 s =
    if length s == 4
    then some s
    else if length s == 16 && bytes_eq (take 12 s) mapped_prefix
    then some (drop 12 s)
    else none

-- The byte at an index, 0 behind the end, where no code reads.
abbrev pub byte : ℕ → Bytes → ℕ
byte i [] = 0
byte zero (b ∷ s) = b
byte (suc i) (b ∷ s) = byte i s

abbrev pub ip6_loopback : Bytes
ip6_loopback = 0 ∷ 0 ∷ 0 ∷ 0 ∷ 0 ∷ 0 ∷ 0 ∷ 0 ∷ 0 ∷ 0 ∷ 0 ∷ 0 ∷ 0 ∷ 0 ∷ 0 ∷ 1 ∷ []

abbrev pub is_loopback : Bytes → Bool
is_loopback s = elim (to4 s) [ some v ↦ byte 0 v == 127 | none ↦ bytes_eq s ip6_loopback ]

-- A mask of the high bits of a byte is a test of a quotient.
abbrev pub is_private : Bytes → Bool
is_private s = elim (to4 s) [
  | some v ↦
      if byte 0 v == 10
      then true
      else if byte 0 v == 172 && (byte 1 v / 16 == 1)
      then true
      else byte 0 v == 192 && (byte 1 v == 168)
  | none ↦ length s == 16 && (byte 0 s / 2 == 126)
]

abbrev pub is_link_local_unicast : Bytes → Bool
is_link_local_unicast s = elim (to4 s) [
  | some v ↦ byte 0 v == 169 && (byte 1 v == 254)
  | none ↦ length s == 16 && ((byte 0 s == 254) && (byte 1 s / 64 == 2))
]

abbrev pub is_link_local_multicast : Bytes → Bool
is_link_local_multicast s = elim (to4 s) [
  | some v ↦ byte 0 v == 224 && ((byte 1 v == 0) && (byte 2 v == 0))
  | none ↦ length s == 16 && ((byte 0 s == 255) && (byte 1 s % 16 == 2))
]

pub record Net : Type 0 where
  pub network : Bytes
  pub ones : ℕ

-- Whether two addresses of one length agree on their first bits.
abbrev pub agree : ℕ → Bytes → Bytes → Bool
agree n [] [] = true
agree n [] (b ∷ t) = false
agree n (a ∷ s) [] = false
agree n (a ∷ s) (b ∷ t) =
    let rest = agree (n - 8) s t in
    if leb 8 n then (a == b) && rest else (a / 2 ^ (8 - n) == b / 2 ^ (8 - n)) && rest

-- `IPNet.Contains`
abbrev pub contains : Net → Bytes → Bool
contains n s = elim (to4 s) [ some v ↦ agree n.ones n.network v | none ↦ agree n.ones n.network s ]

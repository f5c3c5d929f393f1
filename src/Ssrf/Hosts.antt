-- ===== src/Ssrf/Hosts.antt =====
-- Which hosts internal/ssrf/validator.go blocks by name.
use base_go_api.Prelude.{
  ◌≡◌, refl, ap, sym, ◌∙◌, Bool, true, List, [], ◌∷◌, ◌++◌, ◌↔◌, ◌⊎◌, inl, inr, any, arith,
  if◌then◌else◌, Bool-cases,
}
use base_go_api.Prelude.Bytes.{
  Bytes, bytes_eq, bytes_eq_refl, eq_of_bytes_eq, has_suffix, has_suffix_iff,
}
use base_go_api.Sql.Table.{In}
use base_go_api.Ssrf.Validator.{Config, to_lower, trim_space, is_blocked_host}

-- The host itself, or a name below it.
abbrev pub IsBelow : Bytes → Bytes → Type 0
IsBelow host b = (host ≡ b) ⊎ ((sub : Bytes) × (host ≡ sub ++ (b'.' ∷ b)))

IsBelow-iff :
    (host b : Bytes)
    → ((if bytes_eq host b then true else has_suffix host (b'.' ∷ b)) ≡ true) ↔ IsBelow host b
IsBelow-iff host b = (forth, back)
  where
    forth : (if bytes_eq host b then true else has_suffix host (b'.' ∷ b)) ≡ true → IsBelow host b
    forth h = elim (Bool-cases (bytes_eq host b)) [
      | inl same ↦ inl (eq_of_bytes_eq host b same)
      | inr other ↦ inr ((has_suffix_iff host (b'.' ∷ b)).0 (ground arith))
    ]

    back : IsBelow host b → (if bytes_eq host b then true else has_suffix host (b'.' ∷ b)) ≡ true
    back (inl e) = let same = bytes_eq_refl b in rw e (ground arith)
    back (inr below) = let suffix = (has_suffix_iff host (b'.' ∷ b)).1 below in ground arith

module _ (p : Bytes → Bool) (Q : Bytes → Type 0) (same : (b : Bytes) → (p b ≡ true) ↔ Q b) where
  found_by_any : (bs : List Bytes) → any p bs ≡ true → (b : Bytes) × In b bs × Q b
  found_by_any [] h = cc
  found_by_any (c ∷ bs) h = elim (Bool-cases (p c)) [
    | inl passes ↦ (c, inl refl, (same c).0 passes)
    | inr fails ↦ let (b, there, q) = found_by_any bs (ground arith) in (b, inr there, q)
  ]

  any_of_found : (bs : List Bytes) (b : Bytes) → In b bs → Q b → any p bs ≡ true
  any_of_found [] b there q = elim there [ ]
  any_of_found (c ∷ bs) b (inl e) q = let passes = ap p (sym e) ∙ (same b).1 q in ground arith
  any_of_found (c ∷ bs) b (inr there) q = let later = any_of_found bs b there q in ground arith

-- A host is blocked exactly when, trimmed and in lower case, it is a blocked host or ends with a dot and
-- a blocked host.
pub is_blocked_host_iff :
    (cfg : Config) (host : Bytes)
    → (is_blocked_host cfg host ≡ true)
      ↔ ((b : Bytes) × In b cfg.blocked_hosts_normalized × IsBelow (to_lower (trim_space host)) b)
unfolding is_blocked_host
is_blocked_host_iff cfg host =
    let lower = to_lower (trim_space host) in
    let test : Bytes → Bool = λ b. if bytes_eq lower b then true else has_suffix lower (b'.' ∷ b) in
    (
      found_by_any test (IsBelow lower) (IsBelow-iff lower) cfg.blocked_hosts_normalized,
      λ (b, there, q).
          any_of_found test (IsBelow lower) (IsBelow-iff lower) cfg.blocked_hosts_normalized b there
            q,
    )

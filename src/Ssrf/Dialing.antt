-- ===== src/Ssrf/Dialing.antt =====
-- Where the client of internal/ssrf connects to.
use base_go_api.Prelude.{
  ℕ, zero, suc, ◌+◌, ◌<◌, ◌≤◌, ◌≡◌, refl, Bool, true, false, List, [], ◌∷◌, Option, none, some,
  arith, any, if◌then◌else◌, All, length,
}
use base_go_api.Prelude.Bytes.{Bytes}
use base_go_api.Ssrf.Validator.{Config, NetLibrary, Resolver, is_blocked_ip}
use base_go_api.Ssrf.Transport.{
  Dial, connects, refuses, panics, ssrf_dial_context, check_redirect, fetch,
}

abbrev pub IsSafe : Config → Dial → Type 0
IsSafe cfg (connects ip) = is_blocked_ip cfg ip ≡ false
IsSafe cfg refuses = Unit
IsSafe cfg panics = Unit

any_head : {A : Type 0} (p : A → Bool) (x : A) (xs : List A) → any p (x ∷ xs) ≡ false → p x ≡ false
any_head p x xs h = ground arith

-- A test and what it guards.
guarded_dial :
    (cfg : Config) (blocked : Bool) (ip : Bytes)
    → (blocked ≡ false → is_blocked_ip cfg ip ≡ false)
    → IsSafe cfg (if blocked then refuses else connects ip)
guarded_dial cfg true ip h = tt
guarded_dial cfg false ip h = h refl

dial-IsSafe :
    (lib : NetLibrary) (cfg : Config) (lookup : Resolver) (host : Bytes)
    → IsSafe cfg (ssrf_dial_context lib cfg lookup host)
unfolding ssrf_dial_context
dial-IsSafe lib cfg lookup host = go (lib.parse_ip host) (lookup host)
  where
    go :
        (literal : Option Bytes) (found : Option (List Bytes))
        → IsSafe cfg (elim literal [
          | some ip ↦ if is_blocked_ip cfg ip then refuses else connects ip
          | none ↦ elim found [
            | none ↦ refuses
            | some [] ↦ panics
            | some (ip ∷ ips) ↦ if any (is_blocked_ip cfg) (ip ∷ ips) then refuses else connects ip
          ]
        ])
    go (some ip) found = guarded_dial cfg (is_blocked_ip cfg ip) ip (λ h. h)
    go none none = tt
    go none (some []) = tt
    go none (some (ip ∷ ips)) =
        guarded_dial cfg (any (is_blocked_ip cfg) (ip ∷ ips)) ip (λ h. first_fails ip ips h)
      where
        first_fails :
            (ip : Bytes) (ips : List Bytes)
            → any (is_blocked_ip cfg) (ip ∷ ips) ≡ false
            → is_blocked_ip cfg ip ≡ false
        first_fails ip ips h = any_head (is_blocked_ip cfg) ip ips h

-- What a hop adds to the dials after it.
abbrev after : Bool → List Dial → Dial → List Dial
after follows rest (connects ip) = connects ip ∷ (if follows then rest else [])
after follows rest refuses = refuses ∷ []
after follows rest panics = panics ∷ []

All-after :
    (cfg : Config) (follows : Bool) (rest : List Dial) (d : Dial)
    → IsSafe cfg d
    → All (IsSafe cfg) rest
    → All (IsSafe cfg) (after follows rest d)
All-after cfg true rest (connects ip) one all = (one, all)
All-after cfg false rest (connects ip) one all = (one, tt)
All-after cfg follows rest refuses one all = (tt, tt)
All-after cfg follows rest panics one all = (tt, tt)

length-after :
    (n : ℕ) (follows : Bool) (rest : List Dial) (d : Dial)
    → (follows ≡ true → length rest ≤ n)
    → length (after follows rest d) ≤ suc n
length-after n true rest (connects ip) h = let le = h refl in ground arith
length-after n false rest (connects ip) h = ground arith
length-after n follows rest refuses h = ground arith
length-after n follows rest panics h = ground arith

fetch-cons :
    (lib : NetLibrary) (cfg : Config) (via : ℕ) (lookup : Resolver) (host : Bytes)
    (hops : List (Resolver × Bytes))
    → fetch lib cfg via ((lookup, host) ∷ hops)
      ≡ after
          (check_redirect (suc via))
          (fetch lib cfg (suc via) hops)
          (ssrf_dial_context lib cfg lookup host)
unfolding fetch
fetch-cons lib cfg via lookup host hops =
    go (fetch lib cfg (suc via) hops) (ssrf_dial_context lib cfg lookup host)
  where
    go :
        (rest : List Dial) (d : Dial)
        → elim d [
          | connects ip ↦ connects ip ∷ (if check_redirect (suc via) then rest else [])
          | refuses ↦ refuses ∷ []
          | panics ↦ panics ∷ []
        ]
          ≡ after (check_redirect (suc via)) rest d
    go rest (connects ip) = refl
    go rest refuses = refl
    go rest panics = refl

fetch-IsSafe :
    (lib : NetLibrary) (cfg : Config) (via : ℕ) (hops : List (Resolver × Bytes))
    → All (IsSafe cfg) (fetch lib cfg via hops)
unfolding fetch
fetch-IsSafe lib cfg via [] = tt
fetch-IsSafe lib cfg via ((lookup, host) ∷ hops) = rw (fetch-cons lib cfg via lookup host hops) (
    All-after cfg (check_redirect (suc via)) (fetch lib cfg (suc via) hops)
      (ssrf_dial_context lib cfg lookup host) (dial-IsSafe lib cfg lookup host)
      (fetch-IsSafe lib cfg (suc via) hops))

redirect_limit : (via : ℕ) → check_redirect via ≡ true → via < 10
unfolding check_redirect
redirect_limit via h = ground arith

length-fetch :
    (lib : NetLibrary) (cfg : Config) (left via : ℕ) (hops : List (Resolver × Bytes))
    → via + left ≡ 9
    → length (fetch lib cfg via hops) ≤ suc left
unfolding fetch
length-fetch lib cfg left via [] e = omega arith
length-fetch lib cfg zero via ((lookup, host) ∷ hops) e =
    rw (fetch-cons lib cfg via lookup host hops) (
      length-after 0 (check_redirect (suc via)) (fetch lib cfg (suc via) hops)
        (ssrf_dial_context lib cfg lookup host)
        (λ follows. let lt = redirect_limit (suc via) follows in omega arith))
length-fetch lib cfg (suc left) via ((lookup, host) ∷ hops) e =
    rw (fetch-cons lib cfg via lookup host hops) (
      length-after (suc left) (check_redirect (suc via)) (fetch lib cfg (suc via) hops)
        (ssrf_dial_context lib cfg lookup host)
        (λ follows. length-fetch lib cfg left (suc via) hops (omega arith)))

-- One call of the client, whatever the servers redirect it to and whatever each lookup answers, opens
-- connections to addresses that are not blocked only, and makes ten requests at most.
pub fetch_lem :
    (lib : NetLibrary) (cfg : Config) (hops : List (Resolver × Bytes))
    → All (IsSafe cfg) (fetch lib cfg 0 hops) × (length (fetch lib cfg 0 hops) ≤ 10)
fetch_lem lib cfg hops = (fetch-IsSafe lib cfg 0 hops, length-fetch lib cfg 9 0 hops (omega arith))

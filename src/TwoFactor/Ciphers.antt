-- ===== src/TwoFactor/Ciphers.antt =====
-- internal/service/two_factor_crypto.go and internal/service/two_factor_recovery.go. AES-GCM, base64,
-- one-time passwords and bcrypt are library functions and parameters; random bytes are arguments.
use base_go_api.Prelude.{
  ℕ, zero, suc, ◌+◌, ◌%◌, ◌==◌, ◌≡◌, Bool, not, List, [], ◌∷◌, ◌++◌, ltb, length, take, drop, map,
  arith, refl, if◌then◌else◌,
}
use base_go_api.Prelude.Bytes.{Bytes}
use base_go_api.Prelude.Outcome.{Outcome, ok, err}
use base_go_api.Errors.{foreign}

-- `seal` and `unseal` are AES-GCM under a key and a nonce, `validate` tests a one-time password
-- against a secret at an instant, and `bcrypt` hashes under a salt.
pub record Library : Type 0 where
  pub seal : Bytes → Bytes → Bytes → Bytes
  pub unseal : Bytes → Bytes → Bytes → Outcome Bytes
  pub encode : Bytes → Bytes
  pub decode : Bytes → Outcome Bytes
  pub validate : Bytes → Bytes → ℕ → Outcome Bool
  pub bcrypt : Bytes → Bytes → Outcome Bytes

-- What the documentation of the libraries promises: what was sealed is opened, what was encoded is
-- decoded, and a hash of bcrypt holds its salt.
pub record Laws (lib : Library) : Type 0 where
  pub unseal-seal :
      (key nonce text : Bytes) → lib.unseal key nonce (lib.seal key nonce text) ≡ ok text
  pub decode-encode : (text : Bytes) → lib.decode (lib.encode text) ≡ ok text
  pub salted :
      (salt salt' text text' hash : Bytes)
      → lib.bcrypt salt text ≡ ok hash
      → lib.bcrypt salt' text' ≡ ok hash
      → salt ≡ salt'

-- `EncryptTOTPSecret` and `DecryptTOTPSecret`; the random nonce, or the error of the generator.
unfoldable pub encrypt : Library → Bytes → Outcome Bytes → Bytes → Outcome Bytes
encrypt lib key drawn text =
    if not (length key == 32)
    then err (foreign "key must be 32 bytes for AES-256")
    else elim drawn [ err e ↦ err e | ok nonce ↦ ok (nonce ++ lib.seal key nonce text) ]

unfoldable pub decrypt : Library → Bytes → Bytes → Outcome Bytes
decrypt lib key sealed =
    if not (length key == 32)
    then err (foreign "key must be 32 bytes for AES-256")
    else if ltb (length sealed) 12
    then err (foreign "ciphertext too short")
    else lib.unseal key (take 12 sealed) (drop 12 sealed)

-- A numeric code of random bytes.
unfoldable pub numeric_code : Bytes → Bytes
numeric_code bytes = map (λ b. b % 10 + 48) bytes

-- `hash, _ := HashRecoveryCode(code)`
abbrev pub hash_or_empty : Outcome Bytes → Bytes
hash_or_empty (ok hash) = hash
hash_or_empty (err e) = []

-- The loop of `GenerateRecoveryCodes` from `i` on: each code with its hash, where the source fills two
-- slices of the same length.
unfoldable pub generate_codes : Library → (ℕ → Bytes) → (ℕ → Bytes) → ℕ → ℕ → List (Bytes × Bytes)
unfolding numeric_code
generate_codes lib bytes salts zero i = []
generate_codes lib bytes salts (suc n) i =
    let code = numeric_code (bytes i) in
    (code, hash_or_empty (lib.bcrypt (salts i) code)) ∷ generate_codes lib bytes salts n (i + 1)

unfoldable pub generate_recovery_codes : Library → (ℕ → Bytes) → (ℕ → Bytes) → List (Bytes × Bytes)
unfolding generate_codes
generate_recovery_codes lib bytes salts = generate_codes lib bytes salts 8 0

take-append : (xs ys : Bytes) (n : ℕ) → length xs ≡ n → take n (xs ++ ys) ≡ xs
take-append [] ys zero h = refl
take-append [] ys (suc n) h = cc
take-append (x ∷ xs) ys zero h = cc
take-append (x ∷ xs) ys (suc n) h = rw (take-append xs ys n (omega arith)) refl

drop-append : (xs ys : Bytes) (n : ℕ) → length xs ≡ n → drop n (xs ++ ys) ≡ ys
drop-append [] ys zero h = refl
drop-append [] ys (suc n) h = cc
drop-append (x ∷ xs) ys zero h = cc
drop-append (x ∷ xs) ys (suc n) h = drop-append xs ys n (omega arith)

length-append : (xs ys : Bytes) → length (xs ++ ys) ≡ length xs + length ys
length-append [] ys = omega arith
length-append (x ∷ xs) ys = omega (arith, length-append xs ys)

-- What was encrypted under a key and a nonce of twelve bytes is decrypted to what it was.
pub decrypt-encrypt :
    (lib : Library)
    → Laws lib
    → (key nonce text sealed : Bytes) → length nonce ≡ 12
    → encrypt lib key (ok nonce) text ≡ ok sealed
    → decrypt lib key sealed ≡ ok text
unfolding encrypt decrypt
decrypt-encrypt lib laws key nonce text sealed size h =
    let whole = nonce ++ lib.seal key nonce text in
    ground (
      arith,
      laws.unseal-seal key nonce text,
      take-append nonce (lib.seal key nonce text) 12 size,
      drop-append nonce (lib.seal key nonce text) 12 size,
      length-append nonce (lib.seal key nonce text),
    )

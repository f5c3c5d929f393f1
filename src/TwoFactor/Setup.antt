-- ===== src/TwoFactor/Setup.antt =====
-- From InitiateSetup to VerifyAndEnable: internal/service/two_factor.go.
use base_go_api.Prelude.{
  ℕ, ◌==◌, ◌≡◌, refl, ap, sym, ◌∙◌, subst, true, List, [], ◌∷◌, arith, inl, inr, length,
  if◌then◌else◌,
}
use base_go_api.Prelude.Bytes.{Bytes}
use base_go_api.Prelude.Outcome.{Outcome, ok, err, ◌>>=◌, pure, fail, map_err, >>=-eq-ok}
use base_go_api.Errors.{Error, wrap_internal}
use base_go_api.Sql.Table.{Table, Laws as TableLaws, In, updated}
use base_go_api.Sql.Effects.{first-ok, update-ok}
use base_go_api.Sql.Results.{missing_or_internal}
use base_go_api.Sessions.Token.{User}
use base_go_api.Sessions.Repository.{find_user_by_id, update_user}
use base_go_api.Sessions.Service.{lift}
use base_go_api.TwoFactor.Ciphers.{Library, Laws, encrypt, decrypt-encrypt}
use base_go_api.TwoFactor.Codes.{RecoveryCode}
use base_go_api.TwoFactor.Service.{
  SetupDraws, CodeDraws, in_setup, accepts, check_totp, read_secret, invalid_totp_code, begin_setup,
  setup_user, initiate_setup, enable_user, enable_with, verify_and_enable,
}

-- The row of an identifier after its update.
In-updated :
    (l : List User) (id : ℕ) (w v : User)
    → In v (updated (λ u. u.id == id) (λ u. w) l)
    → (v.id == id) ≡ true
    → v ≡ w
In-updated [] id w v there named = elim there [ ]
In-updated (u ∷ l) id w v (inl same) named = ground arith
In-updated (u ∷ l) id w v (inr there) named = In-updated l id w v there named

module _ (lib : Library) (lib_laws : Laws lib) (key : Bytes) {S : Type 0} (users : Table S User)
    (codes : Table S RecoveryCode) (laws : TableLaws users) where
  open laws use {rows}

  -- The nonce that is drawn has the size that AES-GCM documents.
  abbrev pub HasNonce : SetupDraws → Type 0
  HasNonce d = (nonce : Bytes) → d.nonce ≡ ok nonce → length nonce ≡ 12

  encrypt_needs_nonce :
      (e : Error) (secret sealed : Bytes) → ¬ (encrypt lib key (err e) secret ≡ ok sealed)
  unfolding encrypt
  encrypt_needs_nonce e secret sealed h = ground arith

  -- An encrypted and encoded secret is checked as it was.
  check_totp-encode :
      (d : SetupDraws) (secret sealed code : Bytes) (at : ℕ)
      → HasNonce d
      → encrypt lib key d.nonce secret ≡ ok sealed
      → check_totp lib key (lib.encode sealed) code at
        ≡ (if accepts lib code secret at then ok tt else err invalid_totp_code)
  unfolding check_totp read_secret
  check_totp-encode d secret sealed code at sized made = go d.nonce refl made
    where
      go :
          (o : Outcome Bytes)
          → d.nonce ≡ o
          → encrypt lib key o secret ≡ ok sealed
          → check_totp lib key (lib.encode sealed) code at
            ≡ (if accepts lib code secret at then ok tt else err invalid_totp_code)
      go (err e) same k = absurd (encrypt_needs_nonce e secret sealed k)
      go (ok nonce) same k =
          let decoded = lib_laws.decode-encode sealed in
          let opened = decrypt-encrypt lib lib_laws key nonce secret sealed (sized nonce same) k in
          ground (arith, decoded, opened)

  update_user-ok :
      (w : User) (s : S)
      → (update_user users w s).0 ≡ ok tt
      → rows (update_user users w s).1 ≡ updated (λ v. v.id == w.id) (λ v. w) (rows s)
  unfolding update_user
  update_user-ok w s h =
      update-ok users laws wrap_internal (λ v. v.id == w.id) (λ v. w) (λ n. pure tt) s (λ n u. refl)
        h

  find_user-ok :
      (id : ℕ) (s : S) {u : User}
      → (find_user_by_id users id s).0 ≡ ok u
      → ((u.id == id) ≡ true) × In u (rows s)
  unfolding find_user_by_id
  find_user-ok id s h =
      let (same, named, there) = first-ok users laws missing_or_internal _ s h in (named, there)

  setup_user-ok :
      (d : SetupDraws) (user : User) (s : S) {secret : Bytes}
      → (setup_user lib key users codes d user s).0 ≡ ok secret
      → setup_user lib key users codes d user s ≡ begin_setup lib key users codes d user s
  unfolding setup_user
  setup_user-ok d user s h = ground arith

  sealed_by :
      (d : SetupDraws) (user : User) (s : S) (drawn : Bytes) (o : Outcome Bytes) {secret : Bytes}
      → encrypt lib key d.nonce drawn ≡ o
      → let m = map_err wrap_internal (lift o) >>= (λ sealed.
        update_user users (in_setup (lib.encode sealed) user) >>= λ _. pure drawn) in
        (m s).0 ≡ ok secret
        → (sealed : Bytes) × (encrypt lib key d.nonce secret ≡ ok sealed)
          × (rows (m s).1
              ≡ updated (λ v. v.id == user.id) (λ v. in_setup (lib.encode sealed) user) (rows s))
  sealed_by d user s drawn (err e) same k = cc
  sealed_by d user s drawn (ok sealed) {secret} same k =
      let w = in_setup (lib.encode sealed) user in
      let (u, saved, after, rest) =
        >>=-eq-ok {B = Bytes} (update_user users w) (λ _. pure drawn) s k in
      (sealed, ground arith, ap (λ x. rows x.1) after ∙ update_user-ok w s saved)

  -- The user that is found after the update of a row.
  found_after :
      (id target : ℕ) (w v : User) (l : List User) {m : List User}
      → (target == id) ≡ true
      → ((v.id == id) ≡ true) × In v m
      → m ≡ updated (λ u. u.id == target) (λ u. w) l
      → v ≡ w
  found_after id target w v l right (named, there) same =
      In-updated l target w v (subst (In v) same there) (ground arith)

  enable_with_secret :
      (d : SetupDraws) (e : CodeDraws) (at now id : ℕ) (code secret sealed : Bytes) (user v : User)
      (s : S)
      → HasNonce d
      → encrypt lib key d.nonce secret ≡ ok sealed
      → v ≡ in_setup (lib.encode sealed) user
      → (find_user_by_id users id s).0 ≡ ok v
      → verify_and_enable lib key users codes e at now code id s
        ≡ (if accepts lib code secret at
              then enable_user lib key users codes e now v
              else fail invalid_totp_code)
            (find_user_by_id users id s).1
  unfolding verify_and_enable enable_with
  enable_with_secret d e at now id code secret sealed user v s sized made is_v found =
      let checked = check_totp-encode d secret sealed code at sized made in ground (arith, checked)

  begin_setup-ok :
      (d : SetupDraws) (user : User) (s : S) {secret : Bytes}
      → (begin_setup lib key users codes d user s).0 ≡ ok secret
      → (sealed : Bytes) × (encrypt lib key d.nonce secret ≡ ok sealed)
        × (rows (begin_setup lib key users codes d user s).1
            ≡ updated (λ v. v.id == user.id) (λ v. in_setup (lib.encode sealed) user) (rows s))
  unfolding begin_setup
  begin_setup-ok d user s {secret} h = go d.generated h
    where
      go :
          (o : Outcome Bytes)
          → let m = map_err wrap_internal (lift o) >>= (λ drawn.
            map_err wrap_internal (lift (encrypt lib key d.nonce drawn)) >>= λ sealed.
            update_user users (in_setup (lib.encode sealed) user) >>= λ _. pure drawn) in
            (m s).0 ≡ ok secret
            → (sealed : Bytes) × (encrypt lib key d.nonce secret ≡ ok sealed)
              × (rows (m s).1
                  ≡ updated
                      (λ v. v.id == user.id)
                      (λ v. in_setup (lib.encode sealed) user)
                      (rows s))
      go (err e) k = cc
      go (ok drawn) k = sealed_by d user s drawn (encrypt lib key d.nonce drawn) refl k

  -- After InitiateSetup has returned a secret, VerifyAndEnable on the user that it then reads goes on to
  -- the enabling if the one-time password is accepted for that secret, and fails with
  -- INVALID_TOTP_CODE otherwise.
  pub verify_and_enable-initiate_setup :
      (d : SetupDraws) (e : CodeDraws) (at now id : ℕ) (code : Bytes) (s : S) {secret : Bytes}
      → HasNonce d
      → (initiate_setup lib key users codes d id s).0 ≡ ok secret
      → let s1 = (initiate_setup lib key users codes d id s).1 in
        (v : User)
        → (find_user_by_id users id s1).0 ≡ ok v
        → verify_and_enable lib key users codes e at now code id s1
          ≡ (if accepts lib code secret at
                then enable_user lib key users codes e now v
                else fail invalid_totp_code)
              (find_user_by_id users id s1).1
  unfolding initiate_setup
  verify_and_enable-initiate_setup d e at now id code s {secret} sized h v found =
      let (user, known, same, rest) =
        >>=-eq-ok (find_user_by_id users id) (setup_user lib key users codes d) s h in
      let s0 = (find_user_by_id users id s).1 in
      let same2 = setup_user-ok d user s0 rest in
      let (sealed, made, after) = begin_setup-ok d user s0 (ap (λ x. x.0) (sym same2) ∙ rest) in
      let (right, listed) = find_user-ok id s known in
      let is_v : v ≡ in_setup (lib.encode sealed) user =
        found_after id user.id (in_setup (lib.encode sealed) user) v (rows s0) right
          (find_user-ok id _ found) (ap (λ x. rows x.1) (same ∙ same2) ∙ after) in
      enable_with_secret d e at now id code secret sealed user v _ sized made is_v found

-- ===== src/TwoFactor/Service.antt =====
-- internal/service/two_factor.go: the setup, the end of it, and new recovery codes. The URL for the QR
-- code, GetStatus, which only reads, and the audit records are left out.
use base_go_api.Prelude.{
  ℕ, ◌+◌, ◌==◌, ◌||◌, Bool, true, false, not, List, [], ◌∷◌, none, some, map, length, if◌then◌else◌,
}
use base_go_api.Prelude.Bytes.{Bytes}
use base_go_api.Prelude.Outcome.{Outcome, ok, err, Call, ◌>>=◌, ◌>>◌, pure, fail, map_err}
use base_go_api.Errors.{Error, app, wrap_internal}
use base_go_api.Sql.Table.{Table}
use base_go_api.Sessions.Token.{User, TwoFactorStatus, disabled, pending, enabled}
use base_go_api.Sessions.Repository.{find_user_by_id, update_user}
use base_go_api.Sessions.Service.{lift}
use base_go_api.TwoFactor.Ciphers.{Library, encrypt, decrypt, generate_recovery_codes}
use base_go_api.TwoFactor.Codes.{RecoveryCode, create_code, delete_all_by_user}

abbrev pub already_enabled : Error
already_enabled = app "TWO_FACTOR_ALREADY_ENABLED" 400

abbrev pub setup_pending : Error
setup_pending = app "TWO_FACTOR_SETUP_PENDING" 400

abbrev pub setup_not_pending : Error
setup_not_pending = app "TWO_FACTOR_SETUP_NOT_PENDING" 400

abbrev pub invalid_secret : Error
invalid_secret = app "INVALID_TWO_FACTOR_SECRET" 400

abbrev pub invalid_totp_code : Error
invalid_totp_code = app "INVALID_TOTP_CODE" 401

abbrev pub not_enabled : Error
not_enabled = app "TWO_FACTOR_NOT_ENABLED" 400

abbrev pub is_pending : TwoFactorStatus → Bool
is_pending disabled = false
is_pending pending = true
is_pending enabled = false

-- The secret that a user's text stands for.
unfoldable pub read_secret : Library → Bytes → Bytes → Outcome Bytes
unfolding decrypt
read_secret lib key text = elim (lib.decode text) [
  | err e ↦ err invalid_secret
  | ok sealed ↦ elim (decrypt lib key sealed) [ err e ↦ err invalid_secret | ok secret ↦ ok secret ]
]

-- `if err != nil || !valid`
abbrev pub accepts : Library → Bytes → Bytes → ℕ → Bool
accepts lib code secret now = elim (lib.validate code secret now) [
  | err e ↦ false
  | ok valid ↦ valid
]

-- The steps that four methods share: decode and decrypt the secret, and validate the code.
unfoldable pub check_totp : Library → Bytes → Bytes → Bytes → ℕ → Outcome (Unit {0})
unfolding read_secret
check_totp lib key text code now = elim (read_secret lib key text) [
  | err e ↦ err e
  | ok secret ↦ if accepts lib code secret now then ok tt else err invalid_totp_code
]

-- What a setup draws: the new secret, or the error of the library, and the nonce.
pub record SetupDraws : Type 0 where
  pub generated : Outcome Bytes
  pub nonce : Outcome Bytes

-- What new recovery codes draw: the random bytes, the salts and the identifiers of the rows.
pub record CodeDraws : Type 0 where
  pub bytes : ℕ → Bytes
  pub salts : ℕ → Bytes
  pub rows : ℕ → ℕ

-- The user as each method writes it.
abbrev pub in_setup : Bytes → User → User
in_setup text user = record user {
  two_factor_secret = text;
  two_factor_status = pending;
  two_factor_enabled = false;
}

abbrev pub with_second_factor : ℕ → User → User
with_second_factor now user = record user {
  two_factor_enabled = true;
  two_factor_status = enabled;
  two_factor_verified_at = some now;
}

abbrev pub without_second_factor : User → User
without_second_factor user = record user {
  two_factor_enabled = false;
  two_factor_secret = [];
  two_factor_status = disabled;
  two_factor_verified_at = none;
}

abbrev pub recovery_code : CodeDraws → ℕ → ℕ → Bytes → RecoveryCode
recovery_code d i user hash = record {
  id = d.rows i;
  user_id = user;
  code_hash = hash;
  used_at = none;
}

module _ (lib : Library) (key : Bytes) {S : Type 0} (users : Table S User)
    (codes : Table S RecoveryCode) where
  -- The user of `InitiateSetup` is read, and neither enabled nor in a setup.
  unfoldable pub begin_setup : SetupDraws → User → Call S Bytes
  unfolding encrypt update_user
  begin_setup d user = do
    secret ← map_err wrap_internal (lift d.generated)
    sealed ← map_err wrap_internal (lift (encrypt lib key d.nonce secret))
    update_user users (in_setup (lib.encode sealed) user)
    pure secret

  unfoldable pub setup_user : SetupDraws → User → Call S Bytes
  unfolding begin_setup
  setup_user d user =
      if user.two_factor_enabled
      then fail already_enabled
      else if is_pending user.two_factor_status
      then fail setup_pending
      else begin_setup d user

  unfoldable pub initiate_setup : SetupDraws → ℕ → Call S Bytes
  unfolding find_user_by_id setup_user
  initiate_setup d id = find_user_by_id users id >>= setup_user d

  -- The loop that stores the hashes.
  unfoldable pub store_codes : CodeDraws → ℕ → ℕ → List (Bytes × Bytes) → Call S (Unit {0})
  unfolding create_code
  store_codes d user i [] = pure tt
  store_codes d user i ((code, hash) ∷ rest) =
      create_code codes (recovery_code d i user hash) >>= λ _. store_codes d user (i + 1) rest

  -- The old codes are deleted and eight new ones stored; the plain codes are returned.
  unfoldable pub renew_codes : CodeDraws → ℕ → Call S (List Bytes)
  unfolding delete_all_by_user generate_recovery_codes store_codes
  renew_codes d user =
      let drawn = generate_recovery_codes lib d.bytes d.salts in
      delete_all_by_user codes user >>= λ _.
      store_codes d user 0 drawn >>= λ _. pure (map (λ c. c.0) drawn)

  unfoldable pub enable_user : CodeDraws → ℕ → User → Call S (List Bytes)
  unfolding update_user renew_codes
  enable_user d now user =
      update_user users (with_second_factor now user) >>= λ _. renew_codes d user.id

  -- The instants are those of the validation and of the enabling.
  unfoldable pub enable_with : CodeDraws → ℕ → ℕ → Bytes → User → Call S (List Bytes)
  unfolding check_totp enable_user
  enable_with d at now code user =
      if not (is_pending user.two_factor_status)
      then fail setup_not_pending
      else lift (check_totp lib key user.two_factor_secret code at)
        >>= (λ _. enable_user d now user)

  unfoldable pub verify_and_enable : CodeDraws → ℕ → ℕ → Bytes → ℕ → Call S (List Bytes)
  unfolding find_user_by_id enable_with
  verify_and_enable d at now code id = find_user_by_id users id >>= enable_with d at now code

  unfoldable pub disable_user : ℕ → Bytes → User → Call S (Unit {0})
  unfolding check_totp update_user delete_all_by_user
  disable_user at code user =
      if not user.two_factor_enabled || (length user.two_factor_secret == 0)
      then fail (app "2FA_NOT_ENABLED" 400)
      else lift (check_totp lib key user.two_factor_secret code at) >>= λ _.
          update_user users (without_second_factor user) >>= λ _. delete_all_by_user codes user.id

  unfoldable pub disable : ℕ → Bytes → ℕ → Call S (Unit {0})
  unfolding find_user_by_id disable_user
  disable at code id = find_user_by_id users id >>= disable_user at code

  unfoldable pub regenerate_for : CodeDraws → ℕ → Bytes → User → Call S (List Bytes)
  unfolding check_totp renew_codes
  regenerate_for d at code user =
      if not user.two_factor_enabled
      then fail not_enabled
      else if length user.two_factor_secret == 0
      then fail invalid_secret
      else lift (check_totp lib key user.two_factor_secret code at) >>= (λ _. renew_codes d user.id)

  unfoldable pub regenerate_codes : CodeDraws → ℕ → Bytes → ℕ → Call S (List Bytes)
  unfolding find_user_by_id regenerate_for
  regenerate_codes d at code id = find_user_by_id users id >>= regenerate_for d at code

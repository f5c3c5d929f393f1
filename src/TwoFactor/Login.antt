-- ===== src/TwoFactor/Login.antt =====
-- internal/service/two_factor.go: the second step of a login, by a one-time password or by a recovery
-- code. The audit records, and the number of codes left, which no one reads, are left out.
use base_go_api.Prelude.{ℕ, String, not, some, if◌then◌else◌}
use base_go_api.Prelude.Bytes.{Bytes}
use base_go_api.Prelude.Outcome.{Call, ◌>>=◌, pure, fail, map_err, attempt}
use base_go_api.Errors.{Error, app, wrap_internal}
use base_go_api.Sql.Table.{Table}
use base_go_api.Sessions.Token.{RefreshToken, is_valid, User}
use base_go_api.Sessions.Repository.{
  create, find_by_hash, mark_revoked, find_user_by_id, update_user,
}
use base_go_api.Sessions.Service.{Crypto, Config, Draws, Issued, lift, unknown, new_token}
use base_go_api.TwoFactor.Ciphers.{Library}
use base_go_api.TwoFactor.Codes.{
  RecoveryCode, find_by_user_and_hash, mark_code_used, count_unused_by_user,
}
use base_go_api.TwoFactor.Service.{check_totp, not_enabled}

abbrev pub invalid_pending_token : Error
invalid_pending_token = app "INVALID_PENDING_TOKEN" 401

abbrev pub token_expired : Error
token_expired = app "TOKEN_EXPIRED" 401

abbrev pub invalid_recovery_code : Error
invalid_recovery_code = app "INVALID_RECOVERY_CODE" 401

-- What a second step draws: as in a login, with the instants of the validation or use of the code and of
-- the verification.
pub record LoginDraws : Type 0 where
  pub session : Draws
  pub at : ℕ
  pub verified : ℕ

abbrev pub verified_at : ℕ → User → User
verified_at now user = record user { two_factor_verified_at = some now }

module _ (lib : Library) (key : Bytes) (crypto : Crypto) (cfg : Config) {S : Type 0}
    (tokens : Table S RefreshToken) (users : Table S User) (codes : Table S RecoveryCode) where
  -- The user of a pending token.
  unfoldable pub enabled_user : User → Call S User
  enabled_user user = if not user.two_factor_enabled then fail not_enabled else pure user

  unfoldable pub pending_user : ℕ → RefreshToken → Call S User
  unfolding find_user_by_id enabled_user
  pending_user now token =
      if not token.is_2fa_pending
      then fail invalid_pending_token
      else if not (is_valid now token)
      then fail token_expired
      else find_user_by_id users token.user_id >>= enabled_user

  unfoldable pub read_pending : ℕ → String → Call S User
  unfolding find_by_hash pending_user
  read_pending now hash =
      map_err (unknown invalid_pending_token) (find_by_hash tokens hash) >>= pending_user now

  -- The session that a second step opens. Its token has no family: the field is left at `uuid.Nil`,
  -- which is 0.
  unfoldable pub store_session : LoginDraws → User → String → String × String → Call S Issued
  unfolding create
  store_session d user access generated =
      create tokens (new_token cfg d.session user.id 0 generated.1) >>= λ _.
      pure (user, (access, generated.0))

  unfoldable pub draw_session : LoginDraws → User → String → Call S Issued
  unfolding store_session
  draw_session d user access =
      map_err wrap_internal (lift d.session.generated) >>= store_session d user access

  unfoldable pub open_session : LoginDraws → User → Call S Issued
  unfolding draw_session
  open_session d user =
      map_err wrap_internal (lift (crypto.access_token user)) >>= draw_session d user

  -- The end of both methods: the pending token is revoked, the user written, the session opened.
  unfoldable pub complete : LoginDraws → String → User → Call S Issued
  unfolding mark_revoked update_user open_session
  complete d hash user = mark_revoked tokens d.session.written hash >>= λ _.
      update_user users (verified_at d.verified user) >>= λ _.
      open_session d (verified_at d.verified user)

  unfoldable pub verify_user : LoginDraws → String → Bytes → User → Call S Issued
  unfolding check_totp complete
  verify_user d hash code user =
      lift (check_totp lib key user.two_factor_secret code d.at) >>= λ _. complete d hash user

  unfoldable pub verify_2fa_login : LoginDraws → String → Bytes → Call S Issued
  unfolding read_pending verify_user
  verify_2fa_login d token code =
      let hash = crypto.hash_token token in
      read_pending d.session.checked hash >>= verify_user d hash code

  unfoldable pub spend_code : LoginDraws → String → User → RecoveryCode → Call S Issued
  unfolding mark_code_used count_unused_by_user complete
  spend_code d hash user stored = mark_code_used codes d.at stored.id >>= λ _.
      attempt (count_unused_by_user codes user.id) >>= λ _. complete d hash user

  -- The code is hashed under a salt that is drawn.
  unfoldable pub recover_user : LoginDraws → Bytes → String → Bytes → User → Call S Issued
  unfolding find_by_user_and_hash spend_code
  recover_user d salt hash code user = do
    provided ← map_err (λ _. app "INVALID_RECOVERY_CODE" 400) (lift (lib.bcrypt salt code))
    stored ← map_err (unknown invalid_recovery_code) (find_by_user_and_hash codes user.id provided)
    spend_code d hash user stored

  unfoldable pub use_recovery_code : LoginDraws → Bytes → String → Bytes → Call S Issued
  unfolding read_pending recover_user
  use_recovery_code d salt token code =
      let hash = crypto.hash_token token in
      read_pending d.session.checked hash >>= recover_user d salt hash code

-- ===== src/Sessions/Recovery.antt =====
-- The password resets of internal/service/auth.go: RequestPasswordReset up to its goroutine, and
-- ResetPassword.
use base_go_api.Prelude.{ℕ, ◌+◌, String, none, if◌then◌else◌}
use base_go_api.Prelude.Outcome.{Outcome, ok, err, Call, ◌>>=◌, ◌>>◌, pure, fail, map_err, attempt}
use base_go_api.Errors.{wrap_internal, is_not_found}
use base_go_api.Sql.Table.{Table}
use base_go_api.Sessions.Token.{RefreshToken, PasswordResetToken, is_usable, User}
use base_go_api.Sessions.Repository.{
  revoke_all_by_user, create_reset, find_reset_by_hash, mark_used, revoke_resets_by_user,
  find_user_by_email, find_user_by_id, update_user,
}
use base_go_api.Sessions.Service.{Crypto, Config, invalid_reset_token, unknown_reset, lift}

module _ (crypto : Crypto) (cfg : Config) {S : Type 0} (tokens : Table S RefreshToken)
    (resets : Table S PasswordResetToken) (users : Table S User) where
  -- With a repository of reset tokens: earlier tokens are used up, and a new one stored. `random` is
  -- the token or the error of the generator.
  unfoldable pub open_reset : ℕ → ℕ → ℕ → Outcome String → User → Call S String
  unfolding revoke_resets_by_user create_reset
  open_reset revoked issued row random user = do
    token ← map_err wrap_internal (lift random)
    attempt (revoke_resets_by_user resets revoked user.id) >>= λ _. pure tt
    map_err wrap_internal (
        create_reset resets (record {
          id = row;
          user_id = user.id;
          token_hash = crypto.hash_token token;
          expires_at = issued + cfg.password_reset_expiry;
          used_at = none;
        }))
    pure token

  -- The empty string where no user has the address.
  unfoldable pub request_password_reset : ℕ → ℕ → ℕ → Outcome String → String → Call S String
  unfolding find_user_by_email open_reset
  request_password_reset revoked issued row random email = do
    found ← attempt (find_user_by_email users email)
    elim found [
      | ok user ↦ open_reset revoked issued row random user
      | err e ↦ if is_not_found e then pure "" else fail e
    ]

  -- What follows once the password is written is tried, and its errors are ignored.
  unfoldable pub close_reset : ℕ → ℕ → String → User → Call S (Unit {0})
  unfolding mark_used revoke_all_by_user
  close_reset used revoked hash user = do
    attempt (mark_used resets used hash) >>= λ _. pure tt
    attempt (revoke_all_by_user tokens revoked user.id) >>= λ _. pure tt

  unfoldable pub save_password : ℕ → ℕ → String → User → String → Call S (Unit {0})
  unfolding update_user close_reset
  save_password used revoked hash user hashed =
      update_user users (record user { password_hash = hashed }) >>= λ _.
      close_reset used revoked hash user

  unfoldable pub set_password : ℕ → ℕ → String → String → User → Call S (Unit {0})
  unfolding save_password
  set_password used revoked hash password user =
      map_err wrap_internal (lift (crypto.hash_password password))
      >>= save_password used revoked hash user

  unfoldable pub reset_with : ℕ → ℕ → ℕ → String → String → PasswordResetToken → Call S (Unit {0})
  unfolding find_user_by_id set_password
  reset_with checked used revoked hash password token =
      if is_usable checked token
      then find_user_by_id users token.user_id >>= set_password used revoked hash password
      else fail invalid_reset_token

  unfoldable pub reset_password : ℕ → ℕ → ℕ → String → String → Call S (Unit {0})
  unfolding find_reset_by_hash reset_with
  reset_password checked used revoked token password =
      map_err unknown_reset (find_reset_by_hash resets (crypto.hash_token token))
      >>= reset_with checked used revoked (crypto.hash_token token) password

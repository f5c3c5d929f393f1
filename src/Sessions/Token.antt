-- ===== src/Sessions/Token.antt =====
-- internal/domain/refresh_token.go, internal/domain/password_reset_token.go and the part of
-- internal/domain/user.go that authentication uses, with the statuses of internal/domain/two_factor.go. Instants are in nanoseconds.
use base_go_api.Prelude.{ℕ, ◌==◌, String, Bool, true, false, Option, none, some, ltb, if◌then◌else◌}
use base_go_api.Prelude.Bytes.{Bytes}

pub record RefreshToken : Type 0 where
  pub id : ℕ
  pub user_id : ℕ
  pub token_hash : String
  pub family_id : ℕ
  pub expires_at : ℕ
  pub revoked_at : Option ℕ
  pub is_2fa_pending : Bool

abbrev pub is_revoked : RefreshToken → Bool
is_revoked t = elim t.revoked_at [ none ↦ false | some at ↦ true ]

abbrev pub is_valid : ℕ → RefreshToken → Bool
is_valid now t = if is_revoked t then false else ltb now t.expires_at

abbrev pub is_in_family : ℕ → RefreshToken → Bool
is_in_family family t = t.family_id == family

pub record PasswordResetToken : Type 0 where
  pub id : ℕ
  pub user_id : ℕ
  pub token_hash : String
  pub expires_at : ℕ
  pub used_at : Option ℕ

abbrev pub is_used : PasswordResetToken → Bool
is_used t = elim t.used_at [ none ↦ false | some at ↦ true ]

abbrev pub is_usable : ℕ → PasswordResetToken → Bool
is_usable now t = if is_used t then false else ltb now t.expires_at

pub data TwoFactorStatus : Type 0 where
  disabled : TwoFactorStatus
  pending : TwoFactorStatus
  enabled : TwoFactorStatus

-- `two_factor_secret` is the text that encodes the encrypted secret.
pub record User : Type 0 where
  pub id : ℕ
  pub email : String
  pub password_hash : String
  pub two_factor_enabled : Bool
  pub two_factor_status : TwoFactorStatus
  pub two_factor_secret : Bytes
  pub two_factor_verified_at : Option ℕ

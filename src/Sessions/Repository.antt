-- ===== src/Sessions/Repository.antt =====
-- internal/repository/refresh_token.go, internal/repository/password_reset_token.go and the methods of
-- internal/repository/user.go that the authentication service calls, over tables of one database.
-- A method takes the instant of its call of `time.Now`; the identifier of a new row is the one
-- that the database draws for it.
use base_go_api.Prelude.{ℕ, ◌==◌, ◌&&◌, String, not, List, some, ltb, str_eq}
use base_go_api.Prelude.Outcome.{Call, ◌>>=◌, pure, map_err}
use base_go_api.Errors.{wrap_internal}
use base_go_api.Sql.Table.{Table}
unfoldable pub use base_go_api.Sql.Results.{missing_or_internal, at_least_one}
use base_go_api.Sessions.Token.{RefreshToken, is_revoked, PasswordResetToken, is_used, User}

-- `Update("revoked_at", now)`
abbrev pub revoke : ℕ → RefreshToken → RefreshToken
revoke now t = record t { revoked_at = some now }

abbrev pub use_up : ℕ → PasswordResetToken → PasswordResetToken
use_up now t = record t { used_at = some now }

module _ {S : Type 0} (tokens : Table S RefreshToken) where
  unfoldable pub create : RefreshToken → Call S (Unit {0})
  create t = map_err wrap_internal (tokens.create t)

  unfoldable pub find_by_hash : String → Call S RefreshToken
  find_by_hash hash = map_err missing_or_internal (tokens.first (λ t. str_eq t.token_hash hash))

  unfoldable pub find_by_id : ℕ → Call S RefreshToken
  find_by_id id = map_err missing_or_internal (tokens.first (λ t. t.id == id))

  unfoldable pub mark_revoked : ℕ → String → Call S (Unit {0})
  mark_revoked now hash =
      map_err wrap_internal (tokens.update (λ t. str_eq t.token_hash hash) (revoke now))
      >>= at_least_one

  unfoldable pub revoke_all_by_user : ℕ → ℕ → Call S (Unit {0})
  revoke_all_by_user now user =
      map_err wrap_internal
        (tokens.update (λ t. t.user_id == user && not (is_revoked t)) (revoke now))
      >>= λ _. pure tt

  unfoldable pub delete_expired : ℕ → Call S (Unit {0})
  delete_expired now =
      map_err wrap_internal (tokens.delete (λ t. ltb t.expires_at now)) >>= λ _. pure tt

  unfoldable pub find_by_user_id : ℕ → Call S (List RefreshToken)
  find_by_user_id user = map_err wrap_internal (tokens.find (λ t. t.user_id == user))

  unfoldable pub revoke_family : ℕ → ℕ → Call S (Unit {0})
  revoke_family now family =
      map_err wrap_internal
        (tokens.update (λ t. t.family_id == family && not (is_revoked t)) (revoke now))
      >>= λ _. pure tt

  unfoldable pub find_family_tokens : ℕ → Call S (List RefreshToken)
  find_family_tokens family = map_err wrap_internal (tokens.find (λ t. t.family_id == family))

module _ {S : Type 0} (resets : Table S PasswordResetToken) where
  unfoldable pub create_reset : PasswordResetToken → Call S (Unit {0})
  create_reset t = map_err wrap_internal (resets.create t)

  unfoldable pub find_reset_by_hash : String → Call S PasswordResetToken
  find_reset_by_hash hash =
      map_err missing_or_internal (resets.first (λ t. str_eq t.token_hash hash))

  unfoldable pub find_valid_by_user_id : ℕ → ℕ → Call S (List PasswordResetToken)
  find_valid_by_user_id now user =
      map_err wrap_internal
        (resets.find (λ t. t.user_id == user && (not (is_used t) && ltb now t.expires_at)))

  unfoldable pub mark_used : ℕ → String → Call S (Unit {0})
  mark_used now hash =
      map_err wrap_internal (resets.update (λ t. str_eq t.token_hash hash) (use_up now))
      >>= at_least_one

  unfoldable pub revoke_resets_by_user : ℕ → ℕ → Call S (Unit {0})
  revoke_resets_by_user now user =
      map_err wrap_internal (resets.update (λ t. t.user_id == user && not (is_used t)) (use_up now))
      >>= λ _. pure tt

  unfoldable pub delete_expired_resets : ℕ → Call S (Unit {0})
  delete_expired_resets now =
      map_err wrap_internal (resets.delete (λ t. ltb t.expires_at now)) >>= λ _. pure tt

module _ {S : Type 0} (users : Table S User) where
  unfoldable pub create_user : User → Call S (Unit {0})
  create_user u = map_err wrap_internal (users.create u)

  unfoldable pub find_user_by_email : String → Call S User
  find_user_by_email email = map_err missing_or_internal (users.first (λ u. str_eq u.email email))

  unfoldable pub find_user_by_id : ℕ → Call S User
  find_user_by_id id = map_err missing_or_internal (users.first (λ u. u.id == id))

  -- `Save` of a user that has been read: the row of that identifier is replaced.
  unfoldable pub update_user : User → Call S (Unit {0})
  update_user u = map_err wrap_internal (users.update (λ v. v.id == u.id) (λ _. u)) >>= λ _. pure tt

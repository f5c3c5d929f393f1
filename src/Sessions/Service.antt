-- ===== src/Sessions/Service.antt =====
-- internal/service/auth.go: accounts, sessions and password resets. Hashes, access tokens and random
-- tokens come from cryptographic libraries and are parameters; the metrics, the audit records, the
-- e-mails and the roles that goroutines write afterwards are left out.
use base_go_api.Prelude.{
  ℕ, suc, ◌+◌, ◌==◌, ◌||◌, String, Bool, List, [], ◌∷◌, none, false, ltb, str_eq, keep,
  if◌then◌else◌,
}
use base_go_api.Prelude.Outcome.{Outcome, ok, err, Call, ◌>>=◌, ◌>>◌, pure, fail, map_err, attempt}
use base_go_api.Errors.{Error, app, wrap_internal, is_not_found}
use base_go_api.Sql.Table.{Table}
use base_go_api.Sessions.Token.{
  RefreshToken, is_revoked, is_valid, PasswordResetToken, User, disabled,
}
use base_go_api.Sessions.Repository.{
  create, find_by_hash, find_by_id, mark_revoked, revoke_all_by_user, find_by_user_id,
  revoke_family, revoke_resets_by_user, create_user, find_user_by_email, find_user_by_id,
}

-- What the libraries give: the hash of a token, the hash of a password and its test, and the
-- signed access token of a user.
pub record Crypto : Type 0 where
  pub hash_token : String → String
  pub hash_password : String → Outcome String
  pub verify : String → String → Bool
  pub access_token : User → Outcome String

pub record Config : Type 0 where
  pub refresh_expiry : ℕ
  pub password_reset_expiry : ℕ

-- What one call draws from the clock, the random generator and the database: the instants of its
-- check, its writes and the issue of a token; the token and its hash; the identifier of the row.
pub record Draws : Type 0 where
  pub checked : ℕ
  pub written : ℕ
  pub issued : ℕ
  pub generated : Outcome (String × String)
  pub row : ℕ

abbrev pub email_exists : Error
email_exists = app "EMAIL_EXISTS" 409

abbrev pub invalid_credentials : Error
invalid_credentials = app "INVALID_CREDENTIALS" 401

abbrev pub invalid_refresh_token : Error
invalid_refresh_token = app "INVALID_REFRESH_TOKEN" 401

abbrev pub invalid_reset_token : Error
invalid_reset_token = app "INVALID_RESET_TOKEN" 400

abbrev pub not_owner : Error
not_owner = app "FORBIDDEN" 403

abbrev pub lift : {S A : Type 0} → Outcome A → Call S A
lift o s = (o, s)

-- The errors of a look-up: one of the service in place of `ErrNotFound`.
abbrev pub unknown : Error → Error → Error
unknown e found = if is_not_found found then e else found

abbrev pub unknown_reset : Error → Error
unknown_reset e = if is_not_found e then invalid_reset_token else wrap_internal e

-- The tokens that `Login` and `Refresh` return: access and refresh token.
abbrev pub Issued : Type 0
Issued = User × (String × String)

-- The token that `Login` and `Refresh` store.
abbrev pub new_token : Config → Draws → ℕ → ℕ → String → RefreshToken
new_token cfg t user family hash = record {
  id = t.row;
  user_id = user;
  token_hash = hash;
  family_id = family;
  expires_at = t.issued + cfg.refresh_expiry;
  revoked_at = none;
  is_2fa_pending = false;
}

-- The account that `Register` stores; the two-factor fields have the values of the database.
abbrev pub new_user : ℕ → String → String → User
new_user row email hashed = record {
  id = row;
  email = email;
  password_hash = hashed;
  two_factor_enabled = false;
  two_factor_status = disabled;
  two_factor_secret = [];
  two_factor_verified_at = none;
}

module _ (crypto : Crypto) (cfg : Config) {S : Type 0} (tokens : Table S RefreshToken)
    (resets : Table S PasswordResetToken) (users : Table S User) where
  -- The end of `Login` and of `Refresh`: new tokens, the refresh token stored in the family.
  unfoldable pub store : Draws → ℕ → User → String → String × String → Call S Issued
  unfolding create
  store t family user access generated = do
    create tokens (new_token cfg t user.id family generated.1)
    pure (user, (access, generated.0))

  unfoldable pub draw : Draws → ℕ → User → String → Call S Issued
  unfolding store
  draw t family user access = lift t.generated >>= store t family user access

  unfoldable pub issue : Draws → ℕ → User → Call S Issued
  unfolding draw
  issue t family user = lift (crypto.access_token user) >>= draw t family user

  -- `Register`, up to the goroutines.
  unfoldable pub register : ℕ → String → String → Call S User
  unfolding find_user_by_email create_user
  register row email password = do
    found ← attempt (find_user_by_email users email)
    elim found [
      | ok u ↦ fail email_exists
      | err e ↦
          if is_not_found e
          then (do
            hashed ← map_err wrap_internal (lift (crypto.hash_password password))
            create_user users (new_user row email hashed)
            pure (new_user row email hashed))
          else fail e
    ]

  unfoldable pub login_user : Draws → ℕ → String → User → Call S Issued
  unfolding issue
  login_user t family password user =
      if crypto.verify user.password_hash password
      then issue t family user
      else fail invalid_credentials

  unfoldable pub login : Draws → ℕ → String → String → Call S Issued
  unfolding find_user_by_email login_user
  login t family email password =
      map_err (unknown invalid_credentials) (find_user_by_email users email)
      >>= login_user t family password

  -- Whether there is a repository of reset tokens.
  unfoldable pub logout : ℕ → ℕ → Bool → ℕ → Call S (Unit {0})
  unfolding revoke_all_by_user revoke_resets_by_user
  logout now later has_resets user = revoke_all_by_user tokens now user >>= λ _.
      if has_resets
      then attempt (revoke_resets_by_user resets later user) >>= (λ _. pure tt)
      else pure tt

  -- The user is read, the presented token revoked, and its successor issued.
  unfoldable pub rotate : Draws → String → RefreshToken → User → Call S Issued
  unfolding mark_revoked issue
  rotate t hash stored user =
      mark_revoked tokens t.written hash >>= λ _. issue t stored.family_id user

  -- What `Refresh` does with the stored token.
  unfoldable pub refresh_stored : Draws → String → RefreshToken → Call S Issued
  unfolding revoke_family find_user_by_id rotate
  refresh_stored t hash stored =
      if is_revoked stored
      then attempt (revoke_family tokens t.written stored.family_id)
        >>= (λ _. fail invalid_refresh_token)
      else if ltb stored.expires_at t.checked
      then fail invalid_refresh_token
      else find_user_by_id users stored.user_id >>= rotate t hash stored

  unfoldable pub refresh : Draws → String → Call S Issued
  unfolding find_by_hash refresh_stored
  refresh t token =
      map_err (unknown invalid_refresh_token) (find_by_hash tokens (crypto.hash_token token))
      >>= refresh_stored t (crypto.hash_token token)

  unfoldable pub get_active_sessions : ℕ → ℕ → Call S (List RefreshToken)
  unfolding find_by_user_id
  get_active_sessions now user = do
    sessions ← find_by_user_id tokens user
    pure (keep (is_valid now) sessions)

  unfoldable pub revoke_owned : ℕ → ℕ → RefreshToken → Call S (Unit {0})
  unfolding mark_revoked
  revoke_owned now user session =
      if session.user_id == user then mark_revoked tokens now session.token_hash else fail not_owner

  unfoldable pub revoke_session : ℕ → ℕ → ℕ → Call S (Unit {0})
  unfolding find_by_id revoke_owned
  revoke_session now user session = find_by_id tokens session >>= revoke_owned now user

  -- The loop of `RevokeAllOtherSessions`: the number of sessions that it has revoked. Each call of
  -- `time.Now` is for one session.
  unfoldable pub revoke_others : (RefreshToken → ℕ) → String → List RefreshToken → Call S ℕ
  unfolding mark_revoked
  revoke_others at current [] = pure 0
  revoke_others at current (t ∷ ts) =
      let rest = revoke_others at current ts in
      if str_eq t.token_hash current || is_revoked t then rest else (do
        result ← attempt (mark_revoked tokens (at t) t.token_hash)
        n ← rest
        pure (elim result [ ok _ ↦ suc n | err e ↦ n ]))

  -- The hash of the current session, or the empty string; 0 is `uuid.Nil`.
  unfoldable pub current_hash : ℕ → Call S String
  unfolding find_by_id
  current_hash session = if session == 0 then pure "" else (do
    found ← attempt (find_by_id tokens session)
    pure (elim found [ ok t ↦ t.token_hash | err e ↦ "" ]))

  unfoldable pub revoke_all_other_sessions : (RefreshToken → ℕ) → ℕ → ℕ → Call S ℕ
  unfolding find_by_user_id current_hash revoke_others
  revoke_all_other_sessions at user session = do
    sessions ← find_by_user_id tokens user
    current ← current_hash session
    revoke_others at current sessions

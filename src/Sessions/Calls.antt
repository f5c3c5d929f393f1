-- ===== src/Sessions/Calls.antt =====
-- What the calls of internal/service/auth.go that write refresh tokens keep, whatever their outcome.
use base_go_api.Prelude.{
  ℕ, suc, ◌==◌, ◌||◌, refl, String, Bool, List, [], ◌∷◌, str_eq, ltb, if◌then◌else◌,
}
use base_go_api.Prelude.Keeping.{Keeps, bind-Keeps, map_err-Keeps, if-Keeps}
use base_go_api.Prelude.Outcome.{Outcome, ok, err, ◌>>=◌, pure, fail, map_err, attempt}
use base_go_api.Errors.{wrap_internal}
use base_go_api.Sql.Table.{Table}
use base_go_api.Sql.Results.{missing_or_internal}
use base_go_api.Sessions.Token.{RefreshToken, is_revoked, PasswordResetToken, User, is_usable}
use base_go_api.Sessions.Repository.{
  use_up, create, find_by_hash, find_by_id, mark_revoked, revoke_all_by_user, at_least_one,
  find_by_user_id, revoke_family, revoke_resets_by_user, find_user_by_email, find_user_by_id,
  update_user, find_reset_by_hash, mark_used,
}
use base_go_api.Sessions.Service.{
  Crypto, Config, Draws, Issued, lift, unknown, new_token, store, draw, issue, login_user, login,
  logout, rotate, refresh_stored, refresh, revoke_owned, revoke_session, revoke_others,
  current_hash, revoke_all_other_sessions, invalid_credentials, invalid_refresh_token,
  invalid_reset_token, unknown_reset, not_owner,
}
use base_go_api.Sessions.Recovery.{
  close_reset, save_password, set_password, reset_with, reset_password,
}
use base_go_api.Sessions.Kept.{
  Kept, at_least_one-Keeps, create-Keeps, mark_revoked-Keeps, revoke_all_by_user-Keeps,
  revoke_family-Keeps, find_by_hash-Keeps, find_by_id-Keeps, find_user_by_id-Keeps,
  update_user-Keeps, revoke_resets_by_user-Keeps,
}

module _ (crypto : Crypto) (cfg : Config) {S : Type 0} (tokens : Table S RefreshToken)
    (resets : Table S PasswordResetToken) (users : Table S User) (P : S → Type 0)
    (kept : Kept P tokens resets users) where
  open kept use {
    creates, revokes, firsts, finds, user_firsts, user_updates, reset_firsts, reset_updates,
  }

  issue-Keeps :
      (t : Draws) (family : ℕ) (user : User)
      → Keeps P (issue crypto cfg tokens resets users t family user)
  unfolding issue draw store
  issue-Keeps t family user =
      bind-Keeps P (lift (crypto.access_token user))
        (draw crypto cfg tokens resets users t family user) (λ s h. h)
        (λ access.
          bind-Keeps P (lift t.generated)
            (store crypto cfg tokens resets users t family user access) (λ s h. h)
            (λ g.
              bind-Keeps P {B = Issued} (create tokens (new_token cfg t user.id family g.1))
                (λ _. pure (user, (access, g.0)))
                (create-Keeps tokens resets users P kept (new_token cfg t user.id family g.1) refl)
                (λ u s h. h)))

  pub login-Keeps :
      (t : Draws) (family : ℕ) (email password : String)
      → Keeps P (login crypto cfg tokens resets users t family email password)
  unfolding login login_user find_user_by_email
  login-Keeps t family email password =
      let m = map_err missing_or_internal (users.first (λ u. str_eq u.email email)) in
      bind-Keeps P (map_err (unknown invalid_credentials) m)
        (login_user crypto cfg tokens resets users t family password)
        (map_err-Keeps P (unknown invalid_credentials) m (
          map_err-Keeps P missing_or_internal (users.first (λ u. str_eq u.email email))
            (user_firsts (λ u. str_eq u.email email))))
        (λ user.
          if-Keeps P (crypto.verify user.password_hash password)
            (issue crypto cfg tokens resets users t family user) (fail invalid_credentials)
            (issue-Keeps t family user) (λ s h. h))

  rotate-Keeps :
      (t : Draws) (hash : String) (stored : RefreshToken) (user : User)
      → Keeps P (rotate crypto cfg tokens resets users t hash stored user)
  unfolding rotate
  rotate-Keeps t hash stored user =
      bind-Keeps P (mark_revoked tokens t.written hash)
        (λ _. issue crypto cfg tokens resets users t stored.family_id user)
        (mark_revoked-Keeps tokens resets users P kept t.written hash)
        (λ u. issue-Keeps t stored.family_id user)

  refresh_stored-Keeps :
      (t : Draws) (hash : String) (stored : RefreshToken)
      → Keeps P (refresh_stored crypto cfg tokens resets users t hash stored)
  unfolding refresh_stored
  refresh_stored-Keeps t hash stored =
      let stop = fail {S = S} {A = Issued} invalid_refresh_token in
      let ends = attempt (revoke_family tokens t.written stored.family_id) in
      let turn =
        find_user_by_id users stored.user_id
        >>= rotate crypto cfg tokens resets users t hash stored in
      if-Keeps P (is_revoked stored) (ends >>= (λ _. stop))
        (if ltb stored.expires_at t.checked then stop else turn)
        (bind-Keeps P ends (λ _. stop)
          (revoke_family-Keeps tokens resets users P kept t.written stored.family_id) (λ o s h. h))
        (if-Keeps P (ltb stored.expires_at t.checked) stop turn (λ s h. h)
          (bind-Keeps P (find_user_by_id users stored.user_id)
            (rotate crypto cfg tokens resets users t hash stored)
            (find_user_by_id-Keeps tokens resets users P kept stored.user_id)
            (rotate-Keeps t hash stored)))

  pub refresh-Keeps :
      (t : Draws) (token : String) → Keeps P (refresh crypto cfg tokens resets users t token)
  unfolding refresh
  refresh-Keeps t token =
      let hash = crypto.hash_token token in
      bind-Keeps P (map_err (unknown invalid_refresh_token) (find_by_hash tokens hash))
        (refresh_stored crypto cfg tokens resets users t hash)
        (map_err-Keeps P (unknown invalid_refresh_token) (find_by_hash tokens hash)
          (find_by_hash-Keeps tokens resets users P kept hash))
        (refresh_stored-Keeps t hash)

  pub logout-Keeps :
      (now later : ℕ) (has_resets : Bool) (user : ℕ)
      → Keeps P (logout crypto cfg tokens resets users now later has_resets user)
  unfolding logout
  logout-Keeps now later has_resets user =
      let again = attempt (revoke_resets_by_user resets later user) >>= (λ _. pure tt) in
      bind-Keeps P (revoke_all_by_user tokens now user) (λ _. if has_resets then again else pure tt)
        (revoke_all_by_user-Keeps tokens resets users P kept now user)
        (λ u.
          if-Keeps P has_resets again (pure tt)
            (bind-Keeps P (attempt (revoke_resets_by_user resets later user)) (λ _. pure tt)
              (revoke_resets_by_user-Keeps tokens resets users P kept later user) (λ o s h. h))
            (λ s h. h))

  pub revoke_session-Keeps :
      (now user session : ℕ)
      → Keeps P (revoke_session crypto cfg tokens resets users now user session)
  unfolding revoke_session revoke_owned
  revoke_session-Keeps now user session =
      bind-Keeps P (find_by_id tokens session)
        (revoke_owned crypto cfg tokens resets users now user)
        (find_by_id-Keeps tokens resets users P kept session)
        (λ t.
          if-Keeps P (t.user_id == user) (mark_revoked tokens now t.token_hash) (fail not_owner)
            (mark_revoked-Keeps tokens resets users P kept now t.token_hash) (λ s h. h))

  revoke_others-Keeps :
      (at : RefreshToken → ℕ) (current : String) (ts : List RefreshToken)
      → Keeps P (revoke_others crypto cfg tokens resets users at current ts)
  unfolding revoke_others
  revoke_others-Keeps at current [] = λ s h. h
  revoke_others-Keeps at current (t ∷ ts) =
      let rest = revoke_others crypto cfg tokens resets users at current ts in
      let counted = λ (result : Outcome (Unit {0})) (n : ℕ).
        pure {S = S} {A = ℕ} (elim result [ ok _ ↦ suc n | err e ↦ n ]) in
      let next = λ (result : Outcome (Unit {0})). rest >>= counted result in
      if-Keeps P (str_eq t.token_hash current || is_revoked t) rest
        (attempt (mark_revoked tokens (at t) t.token_hash) >>= next)
        (revoke_others-Keeps at current ts)
        (bind-Keeps P (attempt (mark_revoked tokens (at t) t.token_hash)) next
          (mark_revoked-Keeps tokens resets users P kept (at t) t.token_hash)
          (λ result.
            bind-Keeps P rest (counted result) (revoke_others-Keeps at current ts) (λ n s h. h)))

  pub revoke_all_other_sessions-Keeps :
      (at : RefreshToken → ℕ) (user session : ℕ)
      → Keeps P (revoke_all_other_sessions crypto cfg tokens resets users at user session)
  unfolding revoke_all_other_sessions current_hash find_by_user_id
  revoke_all_other_sessions-Keeps at user session =
      let answer = λ (o : Outcome RefreshToken).
        pure {S = S} {A = String} (elim o [ ok t ↦ t.token_hash | err e ↦ "" ]) in
      let current = current_hash crypto cfg tokens resets users session in
      let m = map_err wrap_internal (tokens.find (λ t. t.user_id == user)) in
      bind-Keeps P m (λ ts. current >>= λ c. revoke_others crypto cfg tokens resets users at c ts)
        (map_err-Keeps P wrap_internal (tokens.find (λ t. t.user_id == user))
          (finds (λ t. t.user_id == user)))
        (λ ts.
          bind-Keeps P current (λ c. revoke_others crypto cfg tokens resets users at c ts)
            (if-Keeps P (session == 0) (pure "") (attempt (find_by_id tokens session) >>= answer)
              (λ s h. h)
              (bind-Keeps P (attempt (find_by_id tokens session)) answer
                (find_by_id-Keeps tokens resets users P kept session) (λ o s h. h)))
            (λ c. revoke_others-Keeps at c ts))

  close_reset-Keeps :
      (used revoked : ℕ) (hash : String) (user : User)
      → Keeps P (close_reset crypto cfg tokens resets users used revoked hash user)
  unfolding close_reset mark_used
  close_reset-Keeps used revoked hash user =
      let m = resets.update (λ t. str_eq t.token_hash hash) (use_up used) in
      let ends = attempt (revoke_all_by_user tokens revoked user.id) >>= (λ _. pure tt) in
      bind-Keeps P (attempt (mark_used resets used hash) >>= (λ _. pure tt)) (λ _. ends)
        (bind-Keeps P (attempt (mark_used resets used hash)) (λ _. pure tt)
          (bind-Keeps P (map_err wrap_internal m) at_least_one
            (map_err-Keeps P wrap_internal m (reset_updates (λ t. str_eq t.token_hash hash) used))
            (at_least_one-Keeps P))
          (λ o s h. h))
        (λ u.
          bind-Keeps P (attempt (revoke_all_by_user tokens revoked user.id)) (λ _. pure tt)
            (revoke_all_by_user-Keeps tokens resets users P kept revoked user.id) (λ o s h. h))

  set_password-Keeps :
      (used revoked : ℕ) (hash password : String) (user : User)
      → Keeps P (set_password crypto cfg tokens resets users used revoked hash password user)
  unfolding set_password save_password
  set_password-Keeps used revoked hash password user =
      bind-Keeps P (map_err wrap_internal (lift (crypto.hash_password password)))
        (save_password crypto cfg tokens resets users used revoked hash user)
        (map_err-Keeps P wrap_internal (lift (crypto.hash_password password)) (λ s h. h))
        (λ hashed.
          bind-Keeps P (update_user users (record user { password_hash = hashed }))
            (λ _. close_reset crypto cfg tokens resets users used revoked hash user)
            (update_user-Keeps tokens resets users P kept (record user { password_hash = hashed }))
            (λ u. close_reset-Keeps used revoked hash user))

  pub reset_password-Keeps :
      (checked used revoked : ℕ) (token password : String)
      → Keeps P (reset_password crypto cfg tokens resets users checked used revoked token password)
  unfolding reset_password reset_with find_reset_by_hash
  reset_password-Keeps checked used revoked token password =
      let hash = crypto.hash_token token in
      let m = map_err missing_or_internal (resets.first (λ t. str_eq t.token_hash hash)) in
      bind-Keeps P (map_err unknown_reset m)
        (reset_with crypto cfg tokens resets users checked used revoked hash password)
        (map_err-Keeps P unknown_reset m (
          map_err-Keeps P missing_or_internal (resets.first (λ t. str_eq t.token_hash hash))
            (reset_firsts (λ t. str_eq t.token_hash hash))))
        (λ t.
          if-Keeps P (is_usable checked t)
            (find_user_by_id users t.user_id
              >>= set_password crypto cfg tokens resets users used revoked hash password)
            (fail invalid_reset_token)
            (bind-Keeps P (find_user_by_id users t.user_id)
              (set_password crypto cfg tokens resets users used revoked hash password)
              (find_user_by_id-Keeps tokens resets users P kept t.user_id)
              (set_password-Keeps used revoked hash password))
            (λ s h. h))
